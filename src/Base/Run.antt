-- ===== src/Base/Run.antt =====
-- Outcomes of C code that reports failure by its result: a value, the reported failure, an access
-- outside of the memory that the caller vouched for, and a model loop that ran out of fuel.
use Prim.Native.Nat.{ℕ}
use mathlib.Core.Path.{◌≡◌, refl}
use mathlib.Core.Option.{Option, none, some}
use native.Mathlib.Omega.{arith}
use unity_common.Base.Lists.{length, get_elem?, get_or}
use unity_common.Base.Words.{Bytes}
use unity_common.Base.Tests.{if◌then◌else◌}
use mathlib.Core.Bool.{Bool, true, false}
use Prim.Native.Nat.{zero, suc, ◌<◌}
use mathlib.Core.List.{[], ◌∷◌}

pub data Run {ℓ} (A : Type ℓ) : Type ℓ where
  ok : A → Run A
  failed : Run A
  fault : Run A
  out_of_fuel : Run A

infixl 5 ◌>>=◌
abbrev pub ◌>>=◌ {ℓ κ} : {A : Type ℓ} {B : Type κ} → Run A → (A → Run B) → Run B
ok a >>= f = f a
failed >>= f = failed
fault >>= f = fault
out_of_fuel >>= f = out_of_fuel

-- The value, if there is one, is in `P`; and there is no bad access and no lack of fuel.
abbrev pub Settled {ℓ} : {A : Type ℓ} → (A → Type 0) → Run A → Type 0
Settled P (ok a) = P a
Settled P failed = Unit
Settled P fault = ⊥
Settled P out_of_fuel = ⊥

pub Settled-bind {ℓ κ} :
    {A : Type ℓ} {B : Type κ} (P : A → Type 0) (Q : B → Type 0) (m : Run A) (f : A → Run B)
    → Settled P m
    → ((a : A) → P a → Settled Q (f a))
    → Settled Q (m >>= f)
Settled-bind P Q (ok a) f h k = k a h
Settled-bind P Q failed f h k = tt
Settled-bind P Q fault f h k = elim h [ ]
Settled-bind P Q out_of_fuel f h k = elim h [ ]

pub Settled-weaken {ℓ} :
    {A : Type ℓ} (P Q : A → Type 0) (m : Run A) → Settled P m → ((a : A) → P a → Q a) → Settled Q m
Settled-weaken P Q (ok a) h k = k a h
Settled-weaken P Q failed h k = tt
Settled-weaken P Q fault h k = elim h [ ]
Settled-weaken P Q out_of_fuel h k = elim h [ ]

-- A test whose first branch fails.
pub Settled-guard {ℓ} :
    {A : Type ℓ} (P : A → Type 0) (b : Bool) (m : Run A)
    → (b ≡ false → Settled P m)
    → Settled P (if b then failed else m)
Settled-guard P true m h = tt
Settled-guard P false m h = h refl

abbrev loaded {ℓ} : {A : Type ℓ} → Option A → Run A
loaded none = fault
loaded (some a) = ok a

-- `bytes[i]`
abbrev pub load : Bytes → ℕ → Run ℕ
load bytes i = loaded (get_elem? bytes i)

pub load-ok : (bytes : Bytes) (i : ℕ) → i < length bytes → load bytes i ≡ ok (get_or bytes i 0)
load-ok [] i h = absurd (omega arith)
load-ok (b ∷ bytes) zero h = refl
load-ok (b ∷ bytes) (suc i) h = load-ok bytes i (omega arith)
