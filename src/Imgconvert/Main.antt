-- ===== src/Imgconvert/Main.antt =====
-- The rest of `main` of utils/imgconvert.c: the files, the header, and the loop over the rows. The JPEG
-- library and the success of the `fopen` calls are parameters.
use mono.Imgconvert.{Numbers, convert_row}
use mono.Imgconvert.Options.{Options, Parsed, crashed, refused, parsed, unending, parse_options}
use mono.Prelude.{
  ℕ, zero, suc, Bool, Option, none, some, List, [], ◌∷◌, ◌++◌, ◌*◌, ◌&&◌, length, ltb, leb,
  if◌then◌else◌,
}
use mono.Prelude.Int.{ℤ, pos, negsuc}
pub mod Picture

-- What the library makes of the picture: whether its header is read, what `jpeg_read_scanlines` does to
-- `output_scanline` and to the row's buffer, and how many bytes it puts there. `finish_compress` says for
-- a picture of some height and the rows that `jpeg_write_scanlines` got, and `finish_decompress` for
-- `output_scanline`, whether the function of that name returns, or ends the program by the library's
-- standard error exit.
pub record Jpeg : Type 0 where
  pub header_ok : Bool
  pub read_scanlines : ℕ → (ℕ → ℕ) → ℕ × (ℕ → ℕ)
  pub row_bytes : ℕ
  pub finish_compress : ℕ → ℕ → Bool
  pub finish_decompress : ℕ → Bool

-- The bytes of the output file, and the rows of the demonstration.
abbrev pub Written : Type 0
Written = List ℕ × List (List ℕ)

-- How the loop over the rows ends: with `output_scanline` and what is written, at an access outside an
-- array, or not within the fuel.
pub data Rows : Type 0 where
  converted : ℕ → Written → Rows
  outside : Rows
  still_running : Rows

-- The program's exit code with what it has written, a fault, or a run with no end within the fuel.
pub data Result : Type 0 where
  exited : ℤ → Written → Result
  faulted : Result
  unended : Result

-- `demoinfo.image_width` and `demoinfo.image_height`.
abbrev pub demo_width : ℕ
demo_width = 320

abbrev pub demo_height : ℕ
demo_height = 200

-- `scanline` and `demoline` have `res_x * 3` bytes: the library writes a row of the picture to the one, and
-- reads a row of the demonstration from the other.
abbrev pub row_fits : Jpeg → Options → Bool
row_fits jpeg o = leb jpeg.row_bytes (o.res_x * 3) && leb (demo_width * 3) (o.res_x * 3)

module _ (N : Numbers) where
  abbrev pub add_row : Option (List ℕ × List ℕ) → Rows → Rows
  add_row none rest = outside
  add_row (some row) outside = outside
  add_row (some row) still_running = still_running
  add_row (some (out, demo)) (converted n (outs, demos)) = converted n (out ++ outs, demo ∷ demos)

  -- `while (cinfo.output_scanline < res_y)`, on fuel.
  unfoldable pub convert_rows : ℕ → Jpeg → Options → ℕ → (ℕ → ℕ) → Rows
  convert_rows zero jpeg o output_scanline scanline = still_running
  convert_rows (suc f) jpeg o output_scanline scanline =
      let next = jpeg.read_scanlines output_scanline scanline in
      let rest = convert_rows f jpeg o next.0 next.1 in
      let row = convert_row N o.res_x 0 o.lab o.cosine o.colours next.1 in
      if ltb output_scanline o.res_y
      then (if row_fits jpeg o then add_row row rest else outside)
      else converted output_scanline ([], [])

  -- From `jpeg_finish_compress` on. The library's error exit is `exit(EXIT_FAILURE)`, which writes out the
  -- files.
  abbrev pub finished : Jpeg → Rows → Result
  finished jpeg outside = faulted
  finished jpeg still_running = unended
  finished jpeg (converted n w) =
      exited
        (pos (
          if jpeg.finish_compress demo_height (length w.1) && jpeg.finish_decompress n
          then 0
          else 1))
        w

  -- Nothing is written.
  abbrev pub failed : Result
  failed = exited (negsuc 0) ([], [])

  -- From the opening of the files on. That of the demonstration is not tested: the library faults at the
  -- null pointer.
  unfoldable pub convert_picture : ℕ → Bool → Bool → Bool → Jpeg → (ℕ → ℕ) → Options → Result
  convert_picture fuel image_opens output_opens demo_opens jpeg scanline o =
      if image_opens
      then (if output_opens
          then (if jpeg.header_ok
              then (if demo_opens
                  then finished jpeg (convert_rows fuel jpeg o 0 scanline)
                  else faulted)
              else failed)
          else failed)
      else failed

  abbrev pub with_options : Parsed → (Options → Result) → Result
  with_options crashed rest = faulted
  with_options refused rest = failed
  with_options (parsed o) rest = rest o
  with_options unending rest = unended

  -- `scanline` is what the row's buffer holds at first.
  unfoldable pub main :
      ℕ → (List ℕ → ℤ) → List (List ℕ) → Bool → Bool → Bool → Jpeg → (ℕ → ℕ) → Result
  main fuel atoi argv image_opens output_opens demo_opens jpeg scanline =
      with_options (parse_options fuel atoi argv)
        (convert_picture fuel image_opens output_opens demo_opens jpeg scanline)
