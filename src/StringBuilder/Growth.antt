-- ===== src/StringBuilder/Growth.antt =====
-- The doubling loop of `sb_ensure_capacity` ends with room for what is required.
use unity_common.Base.{
  ℕ, zero, suc, ◌*◌, ◌/◌, ◌%◌, ◌^◌, ◌≤◌, ◌<◌, ◌≡◌, inl, inr, false, arith, ltb, Bool-cases,
}
use unity_common.Base.Words.{size_max}
use native.Mathlib.Nat.{mul_assoc, pow-succ'}
use unity_common.StringBuilder.{grow, first_capacity}

doubles : (n : ℕ) → ltb (size_max / 2) n ≡ false → n * 2 % 2 ^ 64 ≡ n * 2
doubles n h = ground arith

-- A capacity that the rounds left would double past every size.
pub grow-enough :
    (fuel new_cap required : ℕ)
    → required ≤ size_max
    → new_cap ≤ size_max
    → size_max < new_cap * 2 ^ fuel
    → required ≤ grow fuel new_cap required
unfolding grow
grow-enough zero new_cap required hr hn h = omega arith
grow-enough (suc fuel) new_cap required hr hn h = elim (Bool-cases (ltb new_cap required)) [
  | inr e ↦ rw e (ground arith)
  | inl e ↦ rw e (elim (Bool-cases (ltb (size_max / 2) new_cap)) [
    | inl e2 ↦ rw e2 (omega arith)
    | inr e2 ↦ rw e2 (
        rw (doubles new_cap e2) (
          grow-enough fuel (new_cap * 2) required hr (ground arith)
            (rw (mul_assoc new_cap 2 (2 ^ fuel)) (rw (pow-succ' 2 fuel) at h))))
  ])
]

pub grow-first :
    (capacity required : ℕ)
    → capacity < 2 ^ 63
    → required ≤ size_max
    → required ≤ grow 64 (first_capacity capacity) required
grow-first capacity required hc hr =
    grow-enough 64 (first_capacity capacity) required hr (ground arith) (ground arith)

pub grow-lt :
    (fuel new_cap required : ℕ)
    → required ≤ size_max
    → new_cap ≤ size_max
    → grow fuel new_cap required < 2 ^ 64
unfolding grow
grow-lt zero new_cap required hr hn = omega arith
grow-lt (suc fuel) new_cap required hr hn =
    let h = grow-lt fuel (new_cap * 2 % 2 ^ 64) required hr (ground arith) in ground (arith, h)
