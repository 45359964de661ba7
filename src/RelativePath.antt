-- ===== src/RelativePath.antt =====
-- src/common/relative_path.c and include/common/relative_path.h. `none` is a null pointer; the size of
-- a path is the length of its bytes. The table of status names is left out.
pub mod Grammar
pub mod Order
mod Runs
use unity_common.Base.{
  ℕ, zero, suc, ◌+◌, ◌-◌, ◌*◌, ◌/◌, ◌%◌, ◌^◌, ◌≤◌, ◌<◌, ◌≡◌, ◌≢◌, ◌↔◌, refl, sym, ap, subst, ◌∙◌,
  ◌⊎◌, inl, inr, Bool, true, false, not, ◌&&◌, ◌||◌, Option, none, some, List, [], ◌∷◌, ◌++◌,
  append_assoc, append-nil, map, arith, ltb, leb, ◌==◌, if◌then◌else◌, ltb→lt, ltb→le, lt→ltb,
  le→ltb, leb→le, leb→lt, le→leb, lt→leb, ne→==, ==_iff, Bool-cases, Option-cases, length,
  get_elem?, get_or, take, drop, replicate, All, length-append, length-take, length-drop,
  length-replicate, drop-drop, drop-append, drop-get, take-append, take-append-drop, drop-nil,
  bit_and, bit_or, bit_xor, all_below, all_below_sound,
}
use unity_common.Base.Words.{
  Bytes, IsByte, size_max, uint32_max, int32_max, shl32, shl64, word32, word32_sum,
}
use unity_common.Base.Int.{ℤ, pos, negsuc}
use unity_common.Utf8.{decode_sequence}

pub data Status : Type 0 where
  ok invalid_argument empty empty_component dot_component backslash control_character invalid_utf8 :
      Status

pub record Result : Type 0 where
  pub status : Status
  pub offset : ℕ

abbrev pub make_result : Status → ℕ → Result
make_result status offset = record { status = status; offset = offset }

-- `bytes[i]`, at an index below the end of the path.
abbrev pub at : Bytes → ℕ → ℕ
at bytes i = get_or bytes i 0

abbrev pub component_is_dot : Bytes → ℕ → ℕ → Bool
component_is_dot bytes begin end = end - begin == 1 && at bytes begin == 0x2e

abbrev pub component_is_dot_dot : Bytes → ℕ → ℕ → Bool
component_is_dot_dot bytes begin end =
    end - begin == 2 && (at bytes begin == 0x2e && at bytes (begin + 1) == 0x2e)

pub component_result : Bytes → ℕ → ℕ → Result
component_result bytes begin end =
    if begin == end
    then make_result Status.empty_component begin
    else if component_is_dot bytes begin end || component_is_dot_dot bytes begin end
    then make_result Status.dot_component begin
    else make_result Status.ok size_max

abbrev pub is_ok : Status → Bool
is_ok Status.ok = true
is_ok Status.invalid_argument = false
is_ok Status.empty = false
is_ok Status.empty_component = false
is_ok Status.dot_component = false
is_ok Status.backslash = false
is_ok Status.control_character = false
is_ok Status.invalid_utf8 = false

-- The loop of `common_relative_path_validate_utf8`. Each round passes one byte at least; out of
-- fuel is `none`.
pub validate_loop : ℕ → Bytes → ℕ → ℕ → Option Result
validate_loop zero bytes component_begin position = none
validate_loop (suc fuel) bytes component_begin position =
    let value = at bytes position in
    let component = component_result bytes component_begin position in
    let next = validate_loop fuel bytes (position + 1) (position + 1) in
    let after = λ (size : ℕ). validate_loop fuel bytes component_begin (position + size) in
    if ltb position (length bytes)
    then if value == 0x2f
      then if is_ok component.status then next else some component
      else if value == 0x5c
      then some (make_result Status.backslash position)
      else if ltb value 0x20
      then some (make_result Status.control_character position)
      else elim (decode_sequence (drop position bytes)) [
        | none ↦ some (make_result Status.invalid_utf8 position)
        | some s ↦ after s.sequence_size
      ]
    else some (component_result bytes component_begin (length bytes))

pub validate_utf8 : Option Bytes → Option Result
unfolding validate_loop
validate_utf8 none = some (make_result Status.invalid_argument size_max)
validate_utf8 (some bytes) =
    if length bytes == 0
    then some (make_result Status.empty 0)
    else validate_loop (suc (length bytes)) bytes 0 0

-- `memcmp(left, right, n)`, of which the callers use the sign.
pub memcmp : ℕ → Bytes → Bytes → ℤ
memcmp zero left right = pos 0
memcmp (suc n) left right =
    let rest = memcmp n (drop 1 left) (drop 1 right) in
    if ltb (at left 0) (at right 0)
    then negsuc 0
    else if ltb (at right 0) (at left 0)
    then pos 1
    else rest

abbrev pub is_zero : ℤ → Bool
is_zero (pos n) = n == 0
is_zero (negsuc n) = false

-- The order of two sizes, where the common front is equal.
abbrev pub size_order : ℕ → ℕ → ℤ
size_order left_size right_size =
    if ltb left_size right_size then negsuc 0 else if ltb right_size left_size then pos 1 else pos 0

abbrev pub or_sizes : ℤ → ℕ → ℕ → ℤ
or_sizes order left_size right_size =
    if is_zero order then size_order left_size right_size else order

abbrev pub smaller : ℕ → ℕ → ℕ
smaller n m = if ltb n m then n else m

pub compare_bytes : Option Bytes → ℕ → Option Bytes → ℕ → ℤ
unfolding memcmp
compare_bytes none left_size none right_size = size_order left_size right_size
compare_bytes none left_size (some right) right_size =
    if smaller left_size right_size == 0 then size_order left_size right_size else negsuc 0
compare_bytes (some left) left_size none right_size =
    if smaller left_size right_size == 0 then size_order left_size right_size else pos 1
compare_bytes (some left) left_size (some right) right_size =
    or_sizes (memcmp (smaller left_size right_size) left right) left_size right_size

pub is_equal_or_descendant : Option Bytes → Option Bytes → Bool
unfolding memcmp
is_equal_or_descendant none root = false
is_equal_or_descendant (some candidate) none = false
is_equal_or_descendant (some candidate) (some root) =
    if length root == 0 || ltb (length candidate) (length root)
    then false
    else if not (is_zero (memcmp (length root) candidate root))
    then false
    else length candidate == length root || at candidate (length root) == 0x2f
