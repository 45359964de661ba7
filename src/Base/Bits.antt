-- ===== src/Base/Bits.antt =====
-- The bit operations that C code writes on fields of a word, as arithmetic at every width.
use Prim.Native.Nat.{
  ℕ, zero, suc, ◌+◌, ◌*◌, ◌/◌, ◌%◌, ◌^◌, ◌-◌, ◌≤◌, ◌<◌, min, max, bit_and, bit_or, digits,
  bit_and-bitwise, bit_or-bitwise,
}
use mathlib.Core.Path.{◌≡◌, refl, sym, ap, ◌∙◌}
use native.Mathlib.Nat.{pow-suc, one-le-pow}
use native.Mathlib.Omega.{arith}

abbrev or_upto : ℕ → ℕ → ℕ → ℕ
or_upto k x y = digits (λ rest. rest) max k x y

abbrev and_upto : ℕ → ℕ → ℕ → ℕ
and_upto k x y = digits (λ rest. 0) min k x y

-- Any number of digits that is at least the first operand serves.
or_upto_stable : (k x y : ℕ) → x ≤ k → or_upto k x y ≡ bit_or x y
or_upto_stable k x y h = go k x x y h (omega arith) ∙ sym (bit_or-bitwise x y)
  where
    go : (k m x y : ℕ) → x ≤ k → x ≤ m → or_upto k x y ≡ or_upto m x y
    go zero zero x y h g = refl
    go zero (suc m) zero y h g = refl
    go zero (suc m) (suc x) y h g = absurd (omega arith)
    go (suc k) zero zero y h g = refl
    go (suc k) zero (suc x) y h g = absurd (omega arith)
    go (suc k) (suc m) zero y h g = refl
    go (suc k) (suc m) (suc x) y h g =
        omega (arith, go k m (suc x / 2) (y / 2) (omega arith) (omega arith))

and_upto_stable : (k x y : ℕ) → x ≤ k → and_upto k x y ≡ bit_and x y
and_upto_stable k x y h = go k x x y h (omega arith) ∙ sym (bit_and-bitwise x y)
  where
    go : (k m x y : ℕ) → x ≤ k → x ≤ m → and_upto k x y ≡ and_upto m x y
    go zero zero x y h g = refl
    go zero (suc m) zero y h g = refl
    go zero (suc m) (suc x) y h g = absurd (omega arith)
    go (suc k) zero zero y h g = refl
    go (suc k) zero (suc x) y h g = absurd (omega arith)
    go (suc k) (suc m) zero y h g = refl
    go (suc k) (suc m) (suc x) y h g =
        omega (arith, go k m (suc x / 2) (y / 2) (omega arith) (omega arith))

-- The law of the lowest digit.
bit_or_digit : (x y : ℕ) → bit_or x y ≡ bit_or (x / 2) (y / 2) * 2 + max (x % 2) (y % 2)
bit_or_digit zero y = omega (arith, bit_or-bitwise 0 y, bit_or-bitwise 0 (y / 2))
bit_or_digit (suc x) y =
    omega (arith, bit_or-bitwise (suc x) y, or_upto_stable x (suc x / 2) (y / 2) (omega arith))

bit_and_digit : (x y : ℕ) → bit_and x y ≡ bit_and (x / 2) (y / 2) * 2 + min (x % 2) (y % 2)
bit_and_digit zero y = omega (arith, bit_and-bitwise 0 y, bit_and-bitwise 0 (y / 2))
bit_and_digit (suc x) y =
    omega (arith, bit_and-bitwise (suc x) y, and_upto_stable x (suc x / 2) (y / 2) (omega arith))

bit_or-zero_upto : (k x : ℕ) → x ≤ k → bit_or x 0 ≡ x
bit_or-zero_upto k zero h = refl
bit_or-zero_upto zero (suc x) h = absurd (omega arith)
bit_or-zero_upto (suc k) (suc x) h =
    omega (arith, bit_or_digit (suc x) 0, bit_or-zero_upto k (suc x / 2) (omega arith))

bit_and-zero_upto : (k x : ℕ) → x ≤ k → bit_and x 0 ≡ 0
bit_and-zero_upto k zero h = refl
bit_and-zero_upto zero (suc x) h = absurd (omega arith)
bit_and-zero_upto (suc k) (suc x) h =
    omega (arith, bit_and_digit (suc x) 0, bit_and-zero_upto k (suc x / 2) (omega arith))

bit_or_comm_upto : (k x y : ℕ) → x ≤ k → y ≤ k → bit_or x y ≡ bit_or y x
bit_or_comm_upto zero zero zero h g = refl
bit_or_comm_upto zero (suc x) y h g = absurd (omega arith)
bit_or_comm_upto zero zero (suc y) h g = absurd (omega arith)
bit_or_comm_upto (suc k) x y h g = omega (
  arith,
  bit_or_digit x y,
  bit_or_digit y x,
  bit_or_comm_upto k (x / 2) (y / 2) (omega arith) (omega arith),
)

pub bit_or_comm : (x y : ℕ) → bit_or x y ≡ bit_or y x
bit_or_comm x y = bit_or_comm_upto (max x y) x y (omega arith) (omega arith)

double_pow : (q k : ℕ) → q * 2 ^ suc k ≡ 2 * (q * 2 ^ k)
double_pow q k = omega (arith, ap (λ (t : ℕ). q * t) (pow-suc 2 k))

-- `(high << k) | low` is a sum where `low` has at most `k` bits.
pub bit_or-fields : (k high low : ℕ) → low < 2 ^ k → bit_or (high * 2 ^ k) low ≡ high * 2 ^ k + low
bit_or-fields zero high low h = ground (arith, bit_or-zero_upto high high (omega arith))
bit_or-fields (suc k) high low h = ground (
  arith,
  bit_or_digit (high * 2 ^ suc k) low,
  double_pow high k,
  pow-suc 2 k,
  bit_or-fields k high (low / 2) (omega (arith, pow-suc 2 k)),
)

masked_fields : (k high low : ℕ) → low < 2 ^ k → bit_and (high * 2 ^ k + low) (2 ^ k - 1) ≡ low
masked_fields zero high low h =
    ground (arith, bit_and-zero_upto (high * 1 + low) (high * 1 + low) (omega arith))
masked_fields (suc k) high low h = ground (
  arith,
  bit_and_digit (high * 2 ^ suc k + low) (2 ^ suc k - 1),
  double_pow high k,
  pow-suc 2 k,
  one-le-pow k 2,
  masked_fields k high (low / 2) (omega (arith, pow-suc 2 k)),
)

-- A mask of the `k` low bits is the remainder by `2 ^ k`.
pub bit_and-mask : (k x : ℕ) → bit_and x (2 ^ k - 1) ≡ x % 2 ^ k
bit_and-mask k x =
    ground (
      arith,
      one-le-pow k 2,
      masked_fields k (x / 2 ^ k) (x % 2 ^ k) (omega (arith, one-le-pow k 2)),
    )
