-- ===== src/Imgconvert/Rows.antt =====
-- A row of the picture becomes a row of palette indices.
use mono.Prelude.{
  ℕ, zero, suc, ◌+◌, ◌*◌, ◌%◌, ◌<◌, ◌≤◌, ◌≡◌, ◌⊎◌, inl, inr, refl, sym, ap, ◌∙◌, Bool, true, false,
  Option, some, List, [], ◌∷◌, length, arith, lt→ltb, if◌then◌else◌,
}
use mono.Imgconvert.{
  Numbers, RgbColor, in_lab, used_palette, distance, nearest, pixel_index, demo_colour, row_step,
  pixel_at, convert_row,
}
use mono.Imgconvert.Nearest.{nearest_bounds}

-- All are below `n`.
unfoldable pub AllBelow : ℕ → List ℕ → Type 0
AllBelow n [] = Unit {0}
AllBelow n (k ∷ ks) = (k < n) × AllBelow n ks

-- `n` indices of colours, and three bytes for each in the demonstration row.
pub data Converts (n colours : ℕ) : Option (List ℕ × List ℕ) → Type 0 where
  converts :
      (out demo : List ℕ)
      → length out ≡ n
      → AllBelow colours out
      → length demo ≡ 3 * n
      → Converts n colours (some (out, demo))

module _ (N : Numbers) (lab cosine : Bool) (colours : ℕ) (few : colours ≤ 256) where
  -- Some colour has a distance to the pixel that compares below the largest double.
  abbrev pub Near : RgbColor N → Type 0
  Near c =
      (j : ℕ) × (j < colours)
      × (N.lt_double
            (distance N cosine (if lab then in_lab N c else c) (used_palette N lab colours j))
            N.dbl_max
          ≡ true)

  pixel_index_bound : (c : RgbColor N) → Near c → pixel_index N lab cosine colours c < colours
  unfolding pixel_index
  pixel_index_bound c (j, l, t) = chosen (
      nearest_bounds N
        (λ q. distance N cosine (if lab then in_lab N c else c) (used_palette N lab colours q))
        colours)
    where
      k : ℕ
      k =
          nearest N colours
            (λ q. distance N cosine (if lab then in_lab N c else c) (used_palette N lab colours q))

      chosen :
          ((k ≡ 65535)
              × ((q : ℕ)
                  → q < colours
                  → N.lt_double
                      (distance N cosine
                        (if lab then in_lab N c else c)
                        (used_palette N lab colours q))
                      N.dbl_max
                    ≡ false))
            ⊎ (k < colours)
          → k < colours
      chosen (inl (e, h)) = absurd (let c' : true ≡ false = sym t ∙ h j l in cc)
      chosen (inr h) = h

  row_step-Converts :
      (n k : ℕ) (o : Option (List ℕ × List ℕ))
      → k < colours
      → Converts n colours o
      → Converts (suc n) colours (row_step N k (demo_colour N lab colours k) o)
  unfolding AllBelow
  row_step-Converts n k o h (converts out demo e a f) =
      rw (lt→ltb k 256 (omega arith))
        (converts (k % 256 ∷ out) _ (ap suc e) (omega arith, a) (omega (arith, f)))

  -- With at most 256 colours, and a row whose pixels each have a colour at a distance below the largest
  -- double, the loop over the row ends without a read behind the palette: it writes one index for each
  -- pixel, all of them below the number of colours, and three bytes of the demonstration row.
  pub convert_row-Converts :
      (n i : ℕ) (scanline : ℕ → ℕ)
      → ((q : ℕ) → Near (pixel_at N scanline q))
      → Converts n colours (convert_row N n i lab cosine colours scanline)
  unfolding convert_row AllBelow
  convert_row-Converts zero i scanline near = converts [] [] refl tt refl
  convert_row-Converts (suc n) i scanline near =
      let c = pixel_at N scanline i in
      row_step-Converts n (pixel_index N lab cosine colours c)
        (convert_row N n (i + 1) lab cosine colours scanline) (pixel_index_bound c (near i))
        (convert_row-Converts n (i + 1) scanline near)
