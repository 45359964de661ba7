-- ===== src/Prefix/Integers.antt =====
-- The integers of a header are big-endian.
use unity_common.Base.{ℕ, ◌+◌, ◌*◌, ◌^◌, ◌≤◌, ◌<◌, ◌≡◌, refl, ◌∙◌, arith, length, take, drop, All}
use unity_common.Base.Words.{Bytes, IsByte}
use unity_common.Base.Words.{big_endian, get_or-IsByte, word64_sum, word32-at, take_four}
use unity_common.Prefix.{read_be32, read_be64}

-- A multi-byte field is read highest byte first.
pub read_be32-big_endian :
    (bytes : Bytes) (i : ℕ)
    → All IsByte bytes
    → i + 4 ≤ length bytes
    → read_be32 bytes i ≡ big_endian 0 (take 4 (drop i bytes))
unfolding read_be32 big_endian
read_be32-big_endian bytes i valid h =
    rw (take_four bytes i h) (ground (arith, word32-at bytes valid i))

read_be32-lt : (bytes : Bytes) (i : ℕ) → All IsByte bytes → read_be32 bytes i < 2 ^ 32
unfolding read_be32
read_be32-lt bytes i valid = omega (
  arith,
  word32-at bytes valid i,
  get_or-IsByte bytes i valid,
  get_or-IsByte bytes (i + 1) valid,
  get_or-IsByte bytes (i + 2) valid,
  get_or-IsByte bytes (i + 3) valid,
)

-- On mapped bytes `read_be64` is the big-endian value of its eight bytes: four for the high word, four
-- for the low one.
pub read_be64-big_endian :
    (bytes : Bytes) (i : ℕ)
    → All IsByte bytes
    → i + 8 ≤ length bytes
    → read_be64 bytes i
      ≡ big_endian 0 (take 4 (drop i bytes)) * 2 ^ 32 + big_endian 0 (take 4 (drop (i + 4) bytes))
unfolding read_be64
read_be64-big_endian bytes i valid h =
    word64_sum (read_be32 bytes i) (read_be32 bytes (i + 4)) (read_be32-lt bytes i valid)
      (read_be32-lt bytes (i + 4) valid)
    ∙ rw
        (
          read_be32-big_endian bytes i valid (omega arith),
          read_be32-big_endian bytes (i + 4) valid (omega arith),
        )
        refl
