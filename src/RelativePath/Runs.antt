-- ===== src/RelativePath/Runs.antt =====
-- Runs of the path functions, and their theorems at concrete paths.
use unity_common.Base.{◌≡◌, ◌≢◌, ◌↔◌, refl, ◌⊎◌, true, none, some, [], ◌∷◌}
use unity_common.Base.Words.{Bytes, size_max}
use unity_common.Base.Int.{pos, negsuc}
use unity_common.RelativePath.{
  Status, Result, make_result, component_result, validate_utf8, compare_bytes,
  is_equal_or_descendant,
}
use unity_common.RelativePath.Grammar.{Spelled, validate_utf8-Spelled}
use unity_common.RelativePath.Order.{
  lex, flip, compare, compare_bytes-lex, compare_bytes-order, Below, is_equal_or_descendant_iff,
}
use unity_common.Utf8.{decode_sequence}

-- "a/b", "a/..", "a//b" and "ab"
abbrev a_b : Bytes
a_b = 0x61 ∷ 0x2f ∷ 0x62 ∷ []

abbrev a_up : Bytes
a_up = 0x61 ∷ 0x2f ∷ 0x2e ∷ 0x2e ∷ []

abbrev a_empty_b : Bytes
a_empty_b = 0x61 ∷ 0x2f ∷ 0x2f ∷ 0x62 ∷ []

abbrev ab : Bytes
ab = 0x61 ∷ 0x62 ∷ []

valid : validate_utf8 (some a_b) ≡ some (make_result Status.ok size_max)
unfolding validate_utf8 component_result decode_sequence
valid = refl

parent_refused : validate_utf8 (some a_up) ≡ some (make_result Status.dot_component 2)
unfolding validate_utf8 component_result decode_sequence
parent_refused = refl

empty_refused : validate_utf8 (some a_empty_b) ≡ some (make_result Status.empty_component 2)
unfolding validate_utf8 component_result decode_sequence
empty_refused = refl

null_refused : validate_utf8 none ≡ some (make_result Status.invalid_argument size_max)
unfolding validate_utf8
null_refused = refl

validate_utf8-Spelled_example :
    ((validate_utf8 (some a_b) ≡ some (make_result Status.ok size_max)) × Spelled [] a_b)
    ⊎ ((r : Result) × (validate_utf8 (some a_b) ≡ some r)
        × (r.status ≢ Status.ok)
        × (¬ Spelled [] a_b))
validate_utf8-Spelled_example = validate_utf8-Spelled a_b

compare_bytes-lex_example : compare a_b ab ≡ lex a_b ab
compare_bytes-lex_example = compare_bytes-lex a_b ab

compare_bytes-order_example :
    ((compare a_b ab ≡ pos 0) ↔ (a_b ≡ ab)) × (compare ab a_b ≡ flip (compare a_b ab))
compare_bytes-order_example = compare_bytes-order a_b ab

up_below : compare a_up a_empty_b ≡ negsuc 0
unfolding compare_bytes
up_below = refl

empty_below : compare a_empty_b a_b ≡ negsuc 0
unfolding compare_bytes
empty_below = refl

abbrev a : Bytes
a = 0x61 ∷ []

is_equal_or_descendant_iff_example :
    (is_equal_or_descendant (some a_b) (some a) ≡ true) ↔ ((a ≢ []) × Below a a_b)
is_equal_or_descendant_iff_example = is_equal_or_descendant_iff a_b a
