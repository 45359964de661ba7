-- ===== src/Lz4/Format.antt =====
-- The format that the decoder is for: literals and matches, what they stand for, and their bytes.
use unity_common.Base.{
  ℕ, zero, suc, ◌+◌, ◌-◌, ◌*◌, ◌/◌, ◌%◌, ◌≡◌, List, [], ◌∷◌, ◌++◌, arith, ltb, if◌then◌else◌,
  length, get_or, replicate, length-append,
}
use unity_common.Base.Words.{Bytes}

-- A match of `match_length` bytes that begins `offset` bytes back; it may run into its own output.
unfoldable pub copy_back : ℕ → ℕ → Bytes → Bytes
copy_back zero offset output = output
copy_back (suc n) offset output =
    copy_back n offset (output ++ get_or output (length output - offset) 0 ∷ [])

pub length-copy_back :
    (n offset : ℕ) (output : Bytes) → length (copy_back n offset output) ≡ length output + n
unfolding copy_back
length-copy_back zero offset output = omega arith
length-copy_back (suc n) offset output =
    let b = get_or output (length output - offset) 0 in
    omega (arith, length-copy_back n offset (output ++ b ∷ []), length-append output (b ∷ []))

-- Literals, then a match of `extra + 4` bytes.
pub record Sequence : Type 0 where
  pub literals : Bytes
  pub offset : ℕ
  pub extra : ℕ

unfoldable pub expand_one : Sequence → Bytes → Bytes
expand_one s output = copy_back (s.extra + 4) s.offset (output ++ s.literals)

unfoldable pub expand : List Sequence → Bytes → Bytes
expand [] output = output
expand (s ∷ ss) output = expand ss (expand_one s output)

-- The bytes behind a token whose field says 15.
unfoldable pub extension : ℕ → Bytes
extension n = if ltb n 15 then [] else replicate ((n - 15) / 255) 255 ++ (n - 15) % 255 ∷ []

unfoldable pub nibble : ℕ → ℕ
nibble n = if ltb n 15 then n else 15

unfoldable pub encode_one : Sequence → Bytes
unfolding nibble
encode_one s =
    (nibble (length s.literals) * 16 + nibble s.extra)
    ∷ (extension (length s.literals)
        ++ (s.literals ++ (s.offset % 256 ∷ s.offset / 256 ∷ extension s.extra)))

unfoldable pub encode_last : Bytes → Bytes
unfolding nibble
encode_last literals = nibble (length literals) * 16 ∷ (extension (length literals) ++ literals)

-- The last sequence has literals alone.
unfoldable pub encode : List Sequence → Bytes → Bytes
encode [] last = encode_last last
encode (s ∷ ss) last = encode_one s ++ encode ss last
