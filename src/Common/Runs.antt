-- ===== src/Common/Runs.antt =====
-- The shared helpers at concrete sizes and strings.
use unity_common.Base.{◌^◌, ◌≡◌, refl, true, some, [], ◌∷◌}
use unity_common.Base.Words.{Bytes}
use unity_common.Base.Int.{pos}
use unity_common.Common.{dxbc_ascii_strcasecmp, dxbc_size_multiply_overflows}

-- "aB" and "Ab"
abbrev a_b : Bytes
a_b = 0x61 ∷ 0x42 ∷ []

abbrev b_a : Bytes
b_a = 0x41 ∷ 0x62 ∷ []

same_letters : dxbc_ascii_strcasecmp (some a_b) (some b_a) ≡ pos 0
unfolding dxbc_ascii_strcasecmp
same_letters = refl

product_overflows : dxbc_size_multiply_overflows (2 ^ 33) (2 ^ 31) ≡ true
unfolding dxbc_size_multiply_overflows
product_overflows = refl
