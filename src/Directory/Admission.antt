-- ===== src/Directory/Admission.antt =====
-- The steps of `serialized_file_directory_create` outside its scans: the checks of the prefix, which
-- charge the version byte by byte, and the plan of the storage.
use unity_common.Base.{
  ℕ, zero, suc, ◌+◌, ◌≤◌, ◌<◌, ◌≡◌, ◌≢◌, refl, ap, subst, ◌∙◌, inl, inr, Bool, true, false, not,
  ◌||◌, Option, none, some, arith, ltb, leb, ◌==◌, Bool-cases,
}
use unity_common.Base.Words.{Bytes}
use unity_common.Prefix
use unity_common.Prefix.{PrefixView, HeaderView, Span, at, Answer, no_offset}
use unity_common.Prefix.Outcome.{publishes_view, fails_with, prefix_query-ends, Describes}
use unity_common.Directory.{Status, Limit, Field, Limits, Result, initial_result}
use unity_common.Directory.Steps.{Failed}
use unity_common.Directory.Checks.{
  Arguments, Locals, pure, fail_if, paid, charge, expected_version, expected_size, check_version,
  check_prefix, check_selected, admit_published, attempted, admit_prefix,
}
use unity_common.Directory.Attempts.{
  Charged, Ended, Ended-bind, Ended-map, Ended-pure, charge-Ended, with_work,
}

-- A version that is read to its end is the selected one as far as it goes.
abbrev pub Same : Bytes → Bytes → ℕ → ℕ → ℕ → Type 0
Same bytes expected offset index remaining =
    (i : ℕ)
    → index ≤ i
    → i < index + remaining
    → (at bytes (offset + i) ≡ at expected i) × (i < expected_size)

fail_if-Ended :
    (max_work : ℕ) (b : Bool) (status : Status) (limit : Limit) (field : Field) (offset : ℕ)
    (r : Result)
    → status ≢ Status.ok
    → r.work_used ≤ max_work
    → Ended (λ u q. (q ≡ r) × (b ≡ false)) (Failed max_work) (fail_if b status limit field offset r)
unfolding pure Ended
fail_if-Ended max_work true status limit field offset r h w = (h, w)
fail_if-Ended max_work false status limit field offset r h w = (refl, refl)

first_or_later :
    (bytes expected : Bytes) (offset index remaining : ℕ)
    → index < expected_size
    → at bytes (offset + index) ≡ at expected index
    → Same bytes expected offset (index + 1) remaining
    → Same bytes expected offset index (suc remaining)
first_or_later bytes expected offset index remaining lt e rest i lo hi =
    elim (Bool-cases (i == index)) [
      | inl here ↦ let same : i ≡ index = ground (arith, here) in rw same (e, lt)
      | inr later ↦ rest i (ground (arith, later, lo)) (omega (arith, hi))
    ]

check_version-Ended :
    (limits : Limits) (bytes expected : Bytes) (offset remaining index : ℕ) (r : Result)
    → r.work_used ≤ limits.max_work
    → Ended
        (λ u q. Charged limits.max_work remaining r q × Same bytes expected offset index remaining)
        (Failed limits.max_work)
        (check_version remaining index bytes expected offset limits r)
unfolding check_version
check_version-Ended limits bytes expected offset zero index r h = Ended-pure _ _ tt r (
  (ap (λ k. record r { work_used = k }) (omega arith), omega (arith, h)),
  λ i lo hi. absurd (omega (arith, lo, hi)),
)
check_version-Ended limits bytes expected offset (suc remaining) index r h =
    Ended-bind _ _ _ (charge limits 1 Field.engine_version (offset + index)) _ r
      (charge-Ended limits 1 Field.engine_version (offset + index) r h)
      (λ u q (e, w).
        Ended-bind _ _ _
          (fail_if (leb expected_size index || not (at bytes (offset + index) == at expected index))
            _ _ _ _)
          _ q
          (fail_if-Ended limits.max_work
            (leb expected_size index || not (at bytes (offset + index) == at expected index))
            Status.unsupported_engine_version Limit.unlimited Field.engine_version (offset + index)
            q (λ s. ground (arith, s)) (omega (arith, w, ap (λ k. k.work_used) e)))
          (λ y p (g, fits).
            let same : p ≡ record r { work_used = r.work_used + 1 } = g ∙ e in
            Ended-map _ _ _ (check_version remaining (index + 1) bytes expected offset limits p)
              (check_version-Ended limits bytes expected offset remaining (index + 1) p
                (omega (arith, w, ap (λ k. k.work_used) same)))
              (λ z t ((paid, room), rest). (
                (
                  paid
                      ∙ ap (with_work remaining) same
                      ∙ ap (λ k. record r { work_used = k }) (omega arith),
                  omega (arith, room, ap (λ k. k.work_used) same),
                ),
                first_or_later bytes expected offset index remaining (ground (arith, fits))
                    (ground (arith, fits)) rest,
              ))))

-- The checks that an admitted prefix has passed.
pub record Checked (a : Arguments) (p : PrefixView) (expected : Bytes) : Type 0 where
  pub size : p.version_source.size ≡ expected_size
  pub version :
      (i : ℕ) → i < expected_size → at a.bytes (p.version_source.offset + i) ≡ at expected i
  pub tree_flag : p.type_tree_enabled_raw ≤ 1
  pub metadata : p.metadata_prefix_source.size ≤ a.limits.max_metadata_bytes

check_prefix-Ended :
    (a : Arguments) (p : PrefixView) (expected : Bytes) (r : Result)
    → r.work_used ≤ a.limits.max_work
    → Ended
        (λ v q. (v ≡ p) × Charged a.limits.max_work expected_size r q × Checked a p expected)
        (Failed a.limits.max_work)
        (check_prefix a p expected r)
unfolding check_prefix
check_prefix-Ended a p expected r h =
    Ended-bind _ _ _
      (check_version p.version_source.size 0 a.bytes expected p.version_source.offset a.limits) _ r
      (check_version-Ended a.limits a.bytes expected p.version_source.offset p.version_source.size 0
        r h)
      (λ u q ((e, w), same).
        let allowed : q.work_used ≤ a.limits.max_work = omega (arith, w, ap (λ k. k.work_used) e) in
        Ended-bind _ _ _ (fail_if (not (p.version_source.size == expected_size)) _ _ _ _) _ q
          (fail_if-Ended a.limits.max_work _ _ _ _ _ q (λ s. ground (arith, s)) allowed)
          (λ x q1 (e1, size).
            Ended-bind _ _ _ (fail_if (ltb 1 p.type_tree_enabled_raw) _ _ _ _) _ q1
              (fail_if-Ended a.limits.max_work _ _ _ _ _ q1 (λ s. ground (arith, s))
                (omega (arith, allowed, ap (λ k. k.work_used) e1)))
              (λ y q2 (e2, flag).
                Ended-bind _ _ _
                  (fail_if (ltb a.limits.max_metadata_bytes p.metadata_prefix_source.size) _ _ _ _)
                  _ q2
                  (fail_if-Ended a.limits.max_work _ _ _ _ _ q2 (λ s. ground (arith, s))
                    (omega (arith, allowed, ap (λ k. k.work_used) e1, ap (λ k. k.work_used) e2)))
                  (λ z q3 (e3, metadata).
                    let whole : p.version_source.size ≡ expected_size = ground (arith, size) in
                    Ended-pure _ _ p q3 (
                      refl,
                      (e3 ∙ e2 ∙ e1 ∙ e ∙ ap (λ k. with_work k r) whole, omega (arith, w, whole)),
                      record {
                        size = whole;
                        version = λ i lt. (same i (omega arith) (omega (arith, lt, whole))).0;
                        tree_flag = ground (arith, flag);
                        metadata = ground (arith, metadata);
                      },
                    )))))

-- A prefix that the call goes on with, and its result so far.
pub record Admitted (a : Arguments) (p : PrefixView) (r : Result) : Type 0 where
  pub describes :
      Describes a.bytes a.mapped_size a.logical_size a.limits.max_version_bytes expected_size p
  pub expected : Bytes
  pub selected : expected_version a.engine_version ≡ some expected
  pub checked : Checked a p expected
  pub paid : r.work_used ≡ 66 + expected_size
  pub allowed : r.work_used ≤ a.limits.max_work
  pub status : r.status ≡ Status.ok

-- How the admission ends: with a checked prefix, or with a result to return.
pub data AdmissionEnds (a : Arguments) (o : Option (Option PrefixView × Result)) : Type 0 where
  admits : (p : PrefixView) (r : Result) → o ≡ some (some p, r) → Admitted a p r → AdmissionEnds a o
  refuses : (r : Result) → o ≡ some (none, r) → Failed a.limits.max_work r → AdmissionEnds a o

check_selected-Ended :
    (a : Arguments) (p : PrefixView) (o : Option Bytes) (r : Result)
    → r.work_used ≤ a.limits.max_work
    → Ended
        (λ v q.
          (v ≡ p)
          × Charged a.limits.max_work expected_size r q
          × ((expected : Bytes) × (o ≡ some expected) × Checked a p expected))
        (Failed a.limits.max_work)
        (check_selected a p o r)
unfolding Ended
check_selected-Ended a p none r h = (λ s. ground (arith, s), h)
check_selected-Ended a p (some expected) r h =
    Ended-map _ _ _ (check_prefix a p expected r) (check_prefix-Ended a p expected r h)
      (λ v q (e, c, k). (e, c, (expected, refl, k)))

from_Ended :
    (a : Arguments) (p : PrefixView) (r : Result) (n : ℕ) (x : Option PrefixView × Result)
    → Describes a.bytes a.mapped_size a.logical_size a.limits.max_version_bytes n p
    → r.work_used ≡ 55 + n
    → r.status ≡ Status.ok
    → Ended
        (λ v q.
          (v ≡ p)
          × Charged a.limits.max_work expected_size r q
          × ((expected : Bytes) × (expected_version a.engine_version ≡ some expected)
              × Checked a p expected))
        (Failed a.limits.max_work)
        x
    → AdmissionEnds a (some x)
unfolding Ended
from_Ended a p r n (none, q) d cost status h = refuses q refl h
from_Ended a p r n (some v, q) d cost status (e, (charged, room), (expected, selected, checked)) =
    let eleven : n ≡ expected_size = omega (arith, ap (λ k. k.size) d.version, checked.size) in
    admits p q (ap (λ k. some (some k, q)) e) (record {
      describes =
          subst (λ k. Describes a.bytes a.mapped_size a.logical_size a.limits.max_version_bytes k p)
            eleven d;
      expected = expected;
      selected = selected;
      checked = checked;
      paid = omega (arith, ap (λ k. k.work_used) charged, cost, eleven);
      allowed = omega (arith, ap (λ k. k.work_used) charged, room);
      status = ap (λ k. k.status) charged ∙ status;
    })

-- The admission of a prefix always ends so, charging 66 units for the prefix query of an admitted
-- version of 11 bytes and 11 for its comparison.
pub admit_prefix-ends :
    (a : Arguments) (l : Locals) → AdmissionEnds a (admit_prefix a l initial_result)
unfolding admit_prefix admit_published
admit_prefix-ends a l =
    let ends =
      prefix_query-ends a.address a.bytes a.mapped_size a.logical_size l.prefix_limits
        (record { max_version_bytes = a.limits.max_version_bytes; max_work = a.limits.max_work })
        l.prefix in
    elim ends [
      | fails_with q e (bad, cost) ↦ rw e (refuses _ refl (λ s. ground (arith, s), cost))
      | publishes_view n p e room d ↦
          let query = Prefix.query_result Prefix.Status.ok (55 + n) no_offset in
          rw e (
            from_Ended a p (attempted initial_result query) n _ d refl refl (
              check_selected-Ended a p (expected_version a.engine_version)
                (attempted initial_result query) room))
    ]
