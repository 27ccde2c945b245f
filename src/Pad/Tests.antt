-- ===== src/Pad/Tests.antt =====
-- A file of two bytes, padded to four.
use mono.Pad.Size.{PaddedTo, main-PaddedTo}
use mono.Pad.{main}
use mono.Prelude.{ℕ, ◌+◌, ◌*◌, ◌/◌, ◌≤◌, List, [], ◌∷◌, length, arith, some, true}
use mono.Prelude.Int.{pos, negsuc}

abbrev two_bytes : List ℕ
two_bytes = 7 ∷ 8 ∷ []

abbrev blocks : ℕ → ℕ
blocks n = (n + 511) / 512

main-PaddedTo_example :
    (length two_bytes ≤ 4 → PaddedTo 4 two_bytes (main blocks (pos 4) (some two_bytes) true))
    × (4 ≤ length two_bytes
        → PaddedTo (length two_bytes) two_bytes (main blocks (pos 4) (some two_bytes) true))
    × PaddedTo
        (512 * ((length two_bytes + 511) / 512))
        two_bytes
        (main blocks (negsuc 0) (some two_bytes) true)
main-PaddedTo_example =
    main-PaddedTo blocks two_bytes 4 (λ n. omega arith) (omega arith) (omega arith)
