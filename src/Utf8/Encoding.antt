-- ===== src/Utf8/Encoding.antt =====
-- The reference for the decoder: Unicode scalar values and the one UTF-8 form of each.
use unity_common.Base.{ℕ, ◌+◌, ◌/◌, ◌%◌, ◌≤◌, ◌<◌, ◌⊎◌, List, [], ◌∷◌, ◌++◌, ltb, if◌then◌else◌}
use unity_common.Base.Words.{Bytes}

-- Not above 0x10ffff, and no surrogate.
abbrev pub IsScalar : ℕ → Type 0
IsScalar v = (v < 0xd800) ⊎ ((0xe000 ≤ v) × (v < 0x110000))

unfoldable pub encode : ℕ → Bytes
encode v =
    if ltb v 0x80
    then v ∷ []
    else if ltb v 0x800
    then (0xc0 + v / 64) ∷ (0x80 + v % 64) ∷ []
    else if ltb v 0x10000
    then (0xe0 + v / 4096) ∷ (0x80 + v / 64 % 64) ∷ (0x80 + v % 64) ∷ []
    else (0xf0 + v / 262144) ∷ (0x80 + v / 4096 % 64) ∷ (0x80 + v / 64 % 64) ∷ (0x80 + v % 64) ∷ []

unfoldable pub encode_all : List ℕ → Bytes
encode_all [] = []
encode_all (v ∷ vs) = encode v ++ encode_all vs
