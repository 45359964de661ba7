-- ===== src/Directory/Attempts.antt =====
-- What an attempt of `serialized_file_directory_create` ends in, and the rules for attempts in sequence.
use unity_common.Base.{
  ℕ, ◌+◌, ◌-◌, ◌≤◌, ◌≡◌, refl, inl, inr, Option, none, some, arith, ltb, Bool-cases,
}
use unity_common.Directory.{Field, Limits, Result, charge_work}
use unity_common.Directory.Steps.{Failed}
use unity_common.Directory.Checks.{Attempt, after, ◌>>=◌, pure, charge}

-- What holds of an attempt: `Q` of its value and result, or `E` where the call returns.
unfoldable pub Ended :
    {A : Type 0} → (A → Result → Type 0) → (Result → Type 0) → Option A × Result → Type 0
Ended Q E (some a, r) = Q a r
Ended Q E (none, r) = E r

after-Ended :
    {A B : Type 0} (Q : A → Result → Type 0) (R : B → Result → Type 0) (E : Result → Type 0)
    (o : Option A × Result) (f : A → Attempt B)
    → Ended Q E o
    → ((a : A) (r : Result) → Q a r → Ended R E (f a r))
    → Ended R E (after f o)
unfolding Ended
after-Ended Q R E (some a, r) f h k = k a r h
after-Ended Q R E (none, r) f h k = h

module _ {A B : Type 0} (Q : A → Result → Type 0) (R : B → Result → Type 0)
    (E : Result → Type 0) where
  pub Ended-bind :
      (m : Attempt A) (f : A → Attempt B) (r : Result)
      → Ended Q E (m r)
      → ((a : A) (q : Result) → Q a q → Ended R E (f a q))
      → Ended R E ((m >>= f) r)
  unfolding ◌>>=◌
  Ended-bind m f r h k = after-Ended Q R E (m r) f h k

pub Ended-pure :
    {A : Type 0} (Q : A → Result → Type 0) (E : Result → Type 0) (a : A) (r : Result)
    → Q a r
    → Ended Q E (pure a r)
unfolding pure Ended
Ended-pure Q E a r h = h

pub Ended-map :
    {A : Type 0} (Q R : A → Result → Type 0) (E : Result → Type 0) (o : Option A × Result)
    → Ended Q E o
    → ((a : A) (r : Result) → Q a r → R a r)
    → Ended R E o
unfolding Ended
Ended-map Q R E (some a, r) h k = k a r h
Ended-map Q R E (none, r) h k = h

abbrev pub with_work : ℕ → Result → Result
with_work n r = record r { work_used = r.work_used + n }

-- `r` with `n` units more, which are allowed.
abbrev pub Charged : ℕ → ℕ → Result → Result → Type 0
Charged max_work n r q = (q ≡ with_work n r) × (r.work_used + n ≤ max_work)

pub charge-Ended :
    (limits : Limits) (n : ℕ) (field : Field) (offset : ℕ) (r : Result)
    → r.work_used ≤ limits.max_work
    → Ended
        (λ u q. Charged limits.max_work n r q)
        (Failed limits.max_work)
        (charge limits n field offset r)
unfolding charge charge_work Ended
charge-Ended limits n field offset r h = elim (Bool-cases (ltb (limits.max_work - r.work_used) n)) [
  | inl e ↦ rw e (λ s. ground (arith, s), h)
  | inr e ↦ rw e (refl, ground (arith, e, h))
]
