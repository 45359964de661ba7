-- ===== src/Lz4/Runs.antt =====
-- Runs of the decoder, and its theorems at concrete blocks.
use unity_common.Base.{ℕ, ◌≤◌, ◌≡◌, refl, true, some, List, [], ◌∷◌, ◌++◌, arith, length}
use unity_common.Base.Words.{Bytes}
use unity_common.Base.Int.{pos}
use unity_common.Base.Run.{ok, failed, Settled}
use unity_common.Lz4.Format.{
  Sequence, copy_back, expand_one, expand, extension, encode_one, encode_last, encode,
}
use unity_common.Lz4.Safety.{decompress-Settled}
use unity_common.Lz4.RoundTrip.{Fitting, decompress_safe-encode, decompress_exact-encode}
use unity_common.Lz4.{lz4_decompress_safe, lz4_decompress_exact}

-- One literal, a match of nine bytes that overlaps itself, five literals.
abbrev block : Bytes
block = 0x15 ∷ 65 ∷ 1 ∷ 0 ∷ 0x50 ∷ 1 ∷ 2 ∷ 3 ∷ 4 ∷ 5 ∷ []

abbrev plain : Bytes
plain = 65 ∷ 65 ∷ 65 ∷ 65 ∷ 65 ∷ 65 ∷ 65 ∷ 65 ∷ 65 ∷ 65 ∷ 1 ∷ 2 ∷ 3 ∷ 4 ∷ 5 ∷ []

block_decodes : lz4_decompress_exact (some block) true (pos 10) (pos 15) ≡ ok plain
unfolding lz4_decompress_exact
block_decodes = refl

block_too_small : lz4_decompress_safe (some block) true (pos 10) (pos 14) ≡ failed
unfolding lz4_decompress_safe
block_too_small = refl

-- The sequences of `block`.
abbrev sequences : List Sequence
sequences = record { literals = 65 ∷ []; offset = 1; extra = 5 } ∷ []

abbrev last_literals : Bytes
last_literals = 1 ∷ 2 ∷ 3 ∷ 4 ∷ 5 ∷ []

block_encodes : encode sequences last_literals ≡ block
unfolding encode encode_one encode_last extension
block_encodes = refl

decompress-Settled_example :
    Settled (λ output. length output ≤ 14) (lz4_decompress_safe (some block) true (pos 10) (pos 14))
    × Settled
        (λ output. length output ≡ 14)
        (lz4_decompress_exact (some block) true (pos 10) (pos 14))
decompress-Settled_example = decompress-Settled (some block) true 10 14 refl

fits_in : (capacity : ℕ) → 15 ≤ capacity → Fitting capacity [] sequences last_literals
unfolding expand_one copy_back
fits_in capacity h = (
  record {
    not_zero = omega arith;
    reach = omega arith;
    two_bytes = omega arith;
    room = omega arith;
  },
  omega arith,
)

decompress_safe-encode_example :
    lz4_decompress_safe
      (some (encode sequences last_literals))
      true
      (pos (length (encode sequences last_literals)))
      (pos 20)
    ≡ ok (expand sequences [] ++ last_literals)
decompress_safe-encode_example =
    decompress_safe-encode sequences last_literals 20 (omega arith) (fits_in 20 (omega arith))

expanded_size : length (expand sequences [] ++ last_literals) ≡ 15
unfolding expand expand_one copy_back
expanded_size = refl

decompress_exact-encode_example :
    lz4_decompress_exact
      (some (encode sequences last_literals))
      true
      (pos (length (encode sequences last_literals)))
      (pos (length (expand sequences [] ++ last_literals)))
    ≡ ok (expand sequences [] ++ last_literals)
decompress_exact-encode_example =
    decompress_exact-encode sequences last_literals (omega (arith, expanded_size))
      (fits_in (length (expand sequences [] ++ last_literals)) (omega (arith, expanded_size)))
      (omega arith, omega arith)
