-- ===== src/Common.antt =====
-- The helpers of include/common/common.h that several parsers share: the comparison of ASCII strings
-- without case, as lists of the bytes before the NUL, and the checks before sizes are combined.
mod Runs
use unity_common.Base.{
  ℕ, zero, suc, ◌+◌, ◌-◌, ◌*◌, ◌/◌, ◌%◌, ◌^◌, ◌≤◌, ◌<◌, ◌≡◌, ◌≢◌, ◌↔◌, refl, sym, ap, subst, ◌∙◌,
  ◌⊎◌, inl, inr, Bool, true, false, not, ◌&&◌, ◌||◌, Option, none, some, List, [], ◌∷◌, ◌++◌,
  append_assoc, append-nil, map, arith, ltb, leb, ◌==◌, if◌then◌else◌, ltb→lt, ltb→le, lt→ltb,
  le→ltb, leb→le, leb→lt, le→leb, lt→leb, ne→==, ==_iff, Bool-cases, Option-cases, length,
  get_elem?, get_or, take, drop, replicate, All, length-append, length-take, length-drop,
  length-replicate, drop-drop, drop-append, drop-get, take-append, take-append-drop, drop-nil,
  bit_and, bit_or, bit_xor, all_below, all_below_sound,
}
use unity_common.Base.Words.{
  Bytes, IsByte, size_max, uint32_max, int32_max, shl32, shl64, word32, word32_sum,
}
use unity_common.Base.Int.{ℤ, pos, negsuc}

abbrev pub to_lower : ℕ → ℕ
to_lower c = if leb 0x41 c && leb c 0x5a then c + 0x20 else c

pub strcasecmp_loop : Bytes → Bytes → ℤ
strcasecmp_loop [] [] = pos 0
strcasecmp_loop [] (b ∷ right) = negsuc 0
strcasecmp_loop (a ∷ left) [] = pos 1
strcasecmp_loop (a ∷ left) (b ∷ right) =
    let rest = strcasecmp_loop left right in
    if not (to_lower a == to_lower b)
    then if ltb (to_lower a) (to_lower b) then negsuc 0 else pos 1
    else rest

pub dxbc_ascii_strcasecmp : Option Bytes → Option Bytes → ℤ
unfolding strcasecmp_loop
dxbc_ascii_strcasecmp none none = pos 0
dxbc_ascii_strcasecmp none (some right) = negsuc 0
dxbc_ascii_strcasecmp (some left) none = pos 1
dxbc_ascii_strcasecmp (some left) (some right) = strcasecmp_loop left right

unfoldable pub dxbc_size_add_overflows : ℕ → ℕ → Bool
dxbc_size_add_overflows left right = ltb (size_max - right) left

unfoldable pub dxbc_size_multiply_overflows : ℕ → ℕ → Bool
dxbc_size_multiply_overflows left right = not (left == 0) && ltb (size_max / left) right

strcasecmp_loop-map :
    (left right : Bytes)
    → strcasecmp_loop left right ≡ pos 0
    → map to_lower left ≡ map to_lower right
unfolding strcasecmp_loop
strcasecmp_loop-map [] [] h = refl
strcasecmp_loop-map [] (b ∷ right) h = absurd (ground (arith, h))
strcasecmp_loop-map (a ∷ left) [] h = absurd (ground (arith, h))
strcasecmp_loop-map (a ∷ left) (b ∷ right) h =
    let same : to_lower a ≡ to_lower b = ground (arith, h) in
    let rest : map to_lower left ≡ map to_lower right =
      strcasecmp_loop-map left right (ground (arith, h)) in
    cc

-- Two strings that compare equal have the same letters, taken without case.
pub dxbc_ascii_strcasecmp-map :
    (left right : Bytes)
    → dxbc_ascii_strcasecmp (some left) (some right) ≡ pos 0
    → map to_lower left ≡ map to_lower right
unfolding dxbc_ascii_strcasecmp
dxbc_ascii_strcasecmp-map left right h = strcasecmp_loop-map left right h

-- The check for a sum answers whether the sum of two sizes is above SIZE_MAX.
pub dxbc_size_add_overflows_iff :
    (left right : ℕ)
    → right ≤ size_max
    → (dxbc_size_add_overflows left right ≡ true) ↔ (size_max < left + right)
unfolding dxbc_size_add_overflows
dxbc_size_add_overflows_iff left right h = (λ e. ground arith, λ o. ground arith)

-- A product of sizes that passes the check is a size.
pub dxbc_size_multiply_overflows-fits :
    (left right : ℕ) → dxbc_size_multiply_overflows left right ≡ false → left * right ≤ size_max
unfolding dxbc_size_multiply_overflows
dxbc_size_multiply_overflows-fits zero right h = ground arith
dxbc_size_multiply_overflows-fits (suc left) right h =
    let small : right ≤ size_max / suc left = ground (arith, h) in
    let whole : size_max ≡ suc left * (size_max / suc left) + size_max % suc left = omega arith in
    let split : size_max / suc left ≡ right + (size_max / suc left - right) = omega arith in
    omega (arith, whole, ap (λ (t : ℕ). suc left * t) split)
