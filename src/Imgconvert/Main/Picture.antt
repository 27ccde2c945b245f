-- ===== src/Imgconvert/Main/Picture.antt =====
-- How many indices `imgconvert` writes, and when it does not end.
use mono.Imgconvert.{Numbers, convert_row}
use mono.Imgconvert.Main.{
  Jpeg, Written, Rows, converted, still_running, exited, unended, row_fits, add_row, convert_rows,
  finished, failed, convert_picture, with_options, main,
}
use mono.Imgconvert.Options.{Options, parse_options, parsed}
use mono.Imgconvert.Rows.{AllBelow, Converts, converts, Near, convert_row-Converts}
use mono.Imgconvert.{pixel_at}
use mono.Prelude.{
  ℕ, zero, suc, ◌+◌, ◌*◌, ◌<◌, ◌≤◌, ◌≡◌, ◌&&◌, refl, ap, ap₂, ◌∙◌, true, false, Option, some, List,
  [], ◌∷◌, ◌++◌, length, length-append, arith, ltb, leb, lt→ltb, dec_lt, if◌then◌else◌,
}
use mono.Prelude.Int.{ℤ, pos}

-- The documented behaviour of the library on a picture of `height` rows: `jpeg_read_scanlines` advances by
-- the row it reads, and does nothing behind the last. The two functions that finish return if and only if all
-- rows of the picture were written, and all were read.
pub record ReadsRows (height : ℕ) (jpeg : Jpeg) : Type 0 where
  pub advances : (n : ℕ) (b : ℕ → ℕ) → n < height → (jpeg.read_scanlines n b).0 ≡ suc n
  pub stays : (n : ℕ) (b : ℕ → ℕ) → height ≤ n → (jpeg.read_scanlines n b).0 ≡ n
  pub compresses : (h n : ℕ) → jpeg.finish_compress h n ≡ leb h n
  pub decompresses : (n : ℕ) → jpeg.finish_decompress n ≡ leb height n

-- Rows of `width` bytes.
abbrev pub AllOfLength : ℕ → List (List ℕ) → Type 0
AllOfLength width [] = Unit {0}
AllOfLength width (row ∷ rows) = (length row ≡ width) × AllOfLength width rows

-- `n` rows of indices below the number of colours, and `n` rows of the demonstration.
abbrev pub Picture : ℕ → Options → Written → Type 0
Picture n o (out, demo) =
    (length out ≡ o.res_x * n)
    × AllBelow o.colours out
    × (length {A = List ℕ} demo ≡ n)
    × AllOfLength (3 * o.res_x) demo

-- The loop has ended at row `res_y` with `n` rows.
abbrev Converted : ℕ → Options → Rows → Type 0
Converted n o r = (w : Written) × (r ≡ converted o.res_y w) × Picture n o w

-- The exit code: both pictures must be complete.
abbrev pub exit_code : ℕ → Options → ℕ
exit_code height o = if leb 200 o.res_y && leb height o.res_y then 0 else 1

AllBelow-append : (n : ℕ) (xs ys : List ℕ) → AllBelow n xs → AllBelow n ys → AllBelow n (xs ++ ys)
unfolding AllBelow
AllBelow-append n [] ys h k = k
AllBelow-append n (x ∷ xs) ys h k = (h.0, AllBelow-append n xs ys h.1 k)

module _ (N : Numbers) where
  add_row-Converted :
      (n : ℕ) (o : Options) (row : Option (List ℕ × List ℕ)) (r : Rows)
      → Converts o.res_x o.colours row
      → Converted n o r
      → Converted (suc n) o (add_row N row r)
  add_row-Converted n o row r (converts out demo e a f) ((outs, demos), e', (l, b, c, d)) = (
    (out ++ outs, demo ∷ demos),
    ap (add_row N (some (out, demo))) e',
    (
      ground (arith, length-append out outs),
      AllBelow-append o.colours out outs a b,
      ap suc c,
      (f, d),
    ),
  )

  -- Every pixel that is read has a colour at a distance below the largest double.
  abbrev pub AllNear : Jpeg → (o : Options) → o.colours ≤ 256 → Type 0
  AllNear jpeg o few =
      (i : ℕ) (b : ℕ → ℕ) (q : ℕ)
      → Near N o.lab o.cosine o.colours few (pixel_at N (jpeg.read_scanlines i b).1 q)

  convert_rows-Converted :
      (f k height n : ℕ) (jpeg : Jpeg) (o : Options) (b : ℕ → ℕ) (few : o.colours ≤ 256)
      → ReadsRows height jpeg
      → row_fits jpeg o ≡ true
      → o.res_y ≤ height
      → n + k ≡ o.res_y
      → k < f
      → AllNear jpeg o few
      → Converted k o (convert_rows N f jpeg o n b)
  unfolding convert_rows AllBelow
  convert_rows-Converted zero k height n jpeg o b few w fits tall e hf near = absurd (omega arith)
  convert_rows-Converted (suc f) zero height n jpeg o b few w fits tall e hf near =
      let over : ltb n o.res_y ≡ false = ground arith in
      let there : n ≡ o.res_y = omega arith in
      rw over (([], []), ap (λ k. converted k ([], [])) there, (omega arith, tt, refl, tt))
  convert_rows-Converted (suc f) (suc k) height n jpeg o b few w fits tall e hf near =
      let next = jpeg.read_scanlines n b in
      rw (lt→ltb n o.res_y (omega arith), fits)
        (add_row-Converted k o (convert_row N o.res_x 0 o.lab o.cosine o.colours next.1)
          (convert_rows N f jpeg o next.0 next.1)
          (convert_row-Converts N o.lab o.cosine o.colours few o.res_x 0 next.1 (near n b))
          (convert_rows-Converted f k height next.0 jpeg o next.1 few w fits tall
            (omega (arith, w.advances n b (omega arith))) (omega arith) near))

  main_goes_on :
      (fuel : ℕ) (atoi : List ℕ → ℤ) (argv : List (List ℕ)) (jpeg : Jpeg) (scanline : ℕ → ℕ)
      (o : Options)
      → parse_options fuel atoi argv ≡ parsed o
      → jpeg.header_ok ≡ true
      → main N fuel atoi argv true true true jpeg scanline
        ≡ finished N jpeg (convert_rows N fuel jpeg o 0 scanline)
  unfolding main convert_picture
  main_goes_on fuel atoi argv jpeg scanline o accepted header =
      ap (λ p. with_options N p (convert_picture N fuel true true true jpeg scanline)) accepted
      ∙ ap (λ x. if x then finished N jpeg (convert_rows N fuel jpeg o 0 scanline) else failed N)
          header

  finished-exited :
      (height : ℕ) (jpeg : Jpeg) (o : Options) (w : Written)
      → ReadsRows height jpeg
      → length {A = List ℕ} w.1 ≡ o.res_y
      → finished N jpeg (converted o.res_y w) ≡ exited (pos (exit_code height o)) w
  finished-exited height jpeg o w reads rows =
      ap₂ (λ x y. exited (pos (if x && y then 0 else 1)) w)
        (reads.compresses 200 (length w.1) ∙ ap (leb 200) rows) (reads.decompresses o.res_y)

  -- For arguments that are accepted with at most 256 colours and a width of at least 320, files that open, a
  -- header that is read, a library that reads row by row a picture of `height` rows, at least `res_y`, each
  -- of which fits in the buffer, pixels that each have a colour at a distance below the largest double, and
  -- fuel for the rows: the program ends without a fault. It has written `res_x * res_y` indices, all below
  -- the number of colours, and `res_y` rows of `3 * res_x` bytes for the demonstration. Its exit code is 0 if
  -- `res_y` is at least 200 and the height of the picture, and if not it is 1, by the library's error exit.
  pub main-Picture :
      (fuel height : ℕ) (atoi : List ℕ → ℤ) (argv : List (List ℕ)) (jpeg : Jpeg) (scanline : ℕ → ℕ)
      (o : Options) (few : o.colours ≤ 256)
      → parse_options fuel atoi argv ≡ parsed o
      → jpeg.header_ok ≡ true
      → ReadsRows height jpeg
      → row_fits jpeg o ≡ true
      → o.res_y ≤ height
      → o.res_y < fuel
      → AllNear jpeg o few
      → (w : Written) × (main N fuel atoi argv true true true jpeg scanline
          ≡ exited (pos (exit_code height o)) w)
        × Picture o.res_y o w
  main-Picture fuel height atoi argv jpeg scanline o few accepted header reads fits tall enough
        near =
      written (
        convert_rows-Converted fuel o.res_y height 0 jpeg o scanline few reads fits tall
          (omega arith) enough near)
    where
      written :
          Converted o.res_y o (convert_rows N fuel jpeg o 0 scanline)
          → (w : Written) × (main N fuel atoi argv true true true jpeg scanline
              ≡ exited (pos (exit_code height o)) w)
            × Picture o.res_y o w
      written (w, e, picture) = (
        w,
        main_goes_on fuel atoi argv jpeg scanline o accepted header
            ∙ ap (finished N jpeg) e
            ∙ finished-exited height jpeg o w reads picture.2,
        picture,
      )

  add_row_running :
      (n colours : ℕ) (row : Option (List ℕ × List ℕ))
      → Converts n colours row
      → add_row N row still_running ≡ still_running
  add_row_running n colours row (converts out demo e a f) = refl

  convert_rows_stuck :
      (f height n : ℕ) (jpeg : Jpeg) (o : Options) (b : ℕ → ℕ) (few : o.colours ≤ 256)
      → ReadsRows height jpeg
      → row_fits jpeg o ≡ true
      → height < o.res_y
      → n ≤ height
      → AllNear jpeg o few
      → convert_rows N f jpeg o n b ≡ still_running
  unfolding convert_rows
  convert_rows_stuck zero height n jpeg o b few w fits short l near = refl
  convert_rows_stuck (suc f) height n jpeg o b few w fits short l near =
      let next = jpeg.read_scanlines n b in
      rw
        (
          lt→ltb n o.res_y (omega arith),
          fits,
          convert_rows_stuck f height next.0 jpeg o next.1 few w fits short
              (still (dec_lt n height)) near,
        )
        (add_row_running o.res_x o.colours (convert_row N o.res_x 0 o.lab o.cosine o.colours next.1)
          (convert_row-Converts N o.lab o.cosine o.colours few o.res_x 0 next.1 (near n b)))
    where
      still : Dec (n < height) → (jpeg.read_scanlines n b).0 ≤ height
      still (yes before) = omega (arith, w.advances n b before)
      still (no behind) = omega (arith, w.stays n b (omega (arith, behind)))

  -- For accepted arguments with at most 256 colours and a width of at least 320 that ask for more rows than
  -- the picture has, files that open, a header that is read, a library that does nothing behind the last row,
  -- rows that fit in the buffer, and pixels that each have a colour at a distance below the largest double:
  -- whatever the fuel, the program has neither ended nor faulted.
  pub main_stuck :
      (fuel height : ℕ) (atoi : List ℕ → ℤ) (argv : List (List ℕ)) (jpeg : Jpeg) (scanline : ℕ → ℕ)
      (o : Options) (few : o.colours ≤ 256)
      → parse_options fuel atoi argv ≡ parsed o
      → jpeg.header_ok ≡ true
      → ReadsRows height jpeg
      → row_fits jpeg o ≡ true
      → height < o.res_y
      → AllNear jpeg o few
      → main N fuel atoi argv true true true jpeg scanline ≡ unended
  main_stuck fuel height atoi argv jpeg scanline o few accepted header w fits short near =
      main_goes_on fuel atoi argv jpeg scanline o accepted header
      ∙ ap (finished N jpeg)
          (convert_rows_stuck fuel height 0 jpeg o scanline few w fits short (omega arith) near)
