-- ===== src/Prefix/Scan.antt =====
-- The prefix query: the scan for the version's NUL ends, and what a published prefix says.
use unity_common.Base.{
  ℕ, zero, suc, ◌+◌, ◌-◌, ◌≤◌, ◌<◌, ◌≡◌, ◌≢◌, refl, subst, ◌∙◌, inl, inr, false, Option, some,
  arith, ◌==◌, ==_iff, Bool-cases,
}
use unity_common.Base.Words.{Bytes}
use native.Mathlib.Decide.{ℕ_discrete}
use unity_common.Prefix.{
  Status, PrefixWork, Result, Version, Checked, good, stop, charge, charge_work, at,
  require_metadata_bytes, scan_checks, scan_version,
}
use unity_common.Prefix.Coordinates.{Checked-cases}

abbrev pub IsFailure : Result → ℕ → Type 0
IsFailure r maximum = (r.status ≢ Status.ok) × (r.work_used ≤ maximum)

module _ (bytes : Bytes) (mapped_size metadata_end max_version_bytes : ℕ) where
  abbrev round_checks : PrefixWork → ℕ → ℕ → Checked PrefixWork
  round_checks = scan_checks mapped_size metadata_end max_version_bytes

  -- A scan that finds a NUL has passed no other, is inside of both extents, and has paid a unit for
  -- each byte.
  pub record Scanned (work : PrefixWork) (cursor version_size : ℕ) (v : Version) : Type 0 where
    pub found : at bytes v.cursor ≡ 0
    pub behind : cursor ≤ v.cursor
    pub none_before : (i : ℕ) → cursor ≤ i → i < v.cursor → at bytes i ≢ 0
    pub size : v.version_size + cursor ≡ version_size + v.cursor
    pub inside_metadata : v.cursor < metadata_end
    pub inside_mapping : v.cursor < mapped_size
    pub inside_limit : v.version_size < max_version_bytes
    pub paid : v.work.used ≡ work.used + (v.cursor - cursor) + 1
    pub room : v.work.used ≤ work.maximum
    pub kept : v.work.maximum ≡ work.maximum

  round_good :
      (work paid : PrefixWork) (cursor version_size : ℕ)
      → work.used ≤ work.maximum
      → round_checks work cursor version_size ≡ good paid
      → (cursor < metadata_end)
        × (cursor < mapped_size)
        × (version_size < max_version_bytes)
        × (paid.used ≡ work.used + 1)
        × (paid.used ≤ work.maximum)
        × (paid.maximum ≡ work.maximum)
  unfolding scan_checks require_metadata_bytes charge charge_work
  round_good work paid cursor version_size h e =
      (ground arith, ground arith, ground arith, ground arith, ground arith, ground arith)

  Scanned-here :
      (work paid : PrefixWork) (cursor version_size : ℕ) (v : Version)
      → work.used ≤ work.maximum
      → round_checks work cursor version_size ≡ good paid
      → at bytes cursor ≡ 0
      → record { work = paid; cursor = cursor; version_size = version_size } ≡ v
      → Scanned work cursor version_size v
  Scanned-here work paid cursor version_size v h ok z e =
      let (a, b, c, d, f, g) = round_good work paid cursor version_size h ok in
      subst (Scanned work cursor version_size) e (record {
        found = z;
        behind = omega arith;
        none_before = λ i lo hi. absurd (omega arith);
        size = omega arith;
        inside_metadata = a;
        inside_mapping = b;
        inside_limit = c;
        paid = omega arith;
        room = omega arith;
        kept = g;
      })

  Scanned-later :
      (work paid : PrefixWork) (cursor version_size : ℕ) (v : Version)
      → work.used ≤ work.maximum
      → round_checks work cursor version_size ≡ good paid
      → at bytes cursor ≢ 0
      → Scanned paid (cursor + 1) (version_size + 1) v
      → Scanned work cursor version_size v
  Scanned-later work paid cursor version_size v h ok nz t =
      let (a, b, c, d, f, g) = round_good work paid cursor version_size h ok in
      record {
        found = t.found;
        behind = omega (arith, t.behind);
        none_before = λ i lo hi. elim (ℕ_discrete cursor i) [
          | yes same ↦ subst (λ j. at bytes j ≢ 0) same nz
          | no other ↦ t.none_before i (omega arith) hi
        ];
        size = omega (arith, t.size);
        inside_metadata = t.inside_metadata;
        inside_mapping = t.inside_mapping;
        inside_limit = t.inside_limit;
        paid = omega (arith, t.paid, t.behind);
        room = omega (arith, t.room);
        kept = t.kept ∙ g;
      }

  round_stop :
      (work : PrefixWork) (cursor version_size : ℕ) (r : Result)
      → work.used ≤ work.maximum
      → round_checks work cursor version_size ≡ stop r
      → IsFailure r work.maximum
  unfolding scan_checks require_metadata_bytes charge charge_work
  round_stop work cursor version_size r h e = (λ s. ground arith, ground arith)

  -- What a scan may come to; never out of fuel.
  pub data ScanEnds (work : PrefixWork) (cursor version_size : ℕ) (o : Option (Checked Version))
      : Type 0 where
    fails :
        (r : Result)
        → o ≡ some (stop r)
        → IsFailure r work.maximum
        → ScanEnds work cursor version_size o
    finds :
        (v : Version)
        → o ≡ some (good v)
        → Scanned work cursor version_size v
        → ScanEnds work cursor version_size o

  ScanEnds-later :
      (fuel : ℕ) (work paid : PrefixWork) (cursor version_size : ℕ)
      → work.used ≤ work.maximum
      → round_checks work cursor version_size ≡ good paid
      → (at bytes cursor == 0) ≡ false
      → ScanEnds paid (cursor + 1) (version_size + 1) (
          scan_version fuel bytes mapped_size metadata_end max_version_bytes paid
            (cursor + 1)
            (version_size + 1))
      → ScanEnds work cursor version_size (
          scan_version
            (suc fuel)
            bytes
            mapped_size
            metadata_end
            max_version_bytes
            work
            cursor
            version_size)
  unfolding scan_version
  ScanEnds-later fuel work paid cursor version_size h ok more (fails r e bad) =
      let g = round_good work paid cursor version_size h ok in
      fails r (rw (ok, more, scan_version) e) (bad.0, omega (arith, bad.1, g.5))
  ScanEnds-later fuel work paid cursor version_size h ok more (finds v e t) =
      finds v (rw (ok, more, scan_version) e)
        (Scanned-later work paid cursor version_size v h ok (λ z. ground arith) t)

  pub scan_version-ends :
      (fuel : ℕ) (work : PrefixWork) (cursor version_size : ℕ)
      → work.used ≤ work.maximum
      → cursor ≤ mapped_size
      → mapped_size < cursor + fuel
      → ScanEnds work cursor version_size (
          scan_version fuel bytes mapped_size metadata_end max_version_bytes work cursor
            version_size)
  scan_version-ends zero work cursor version_size h hc hf = absurd (omega arith)
  scan_version-ends (suc fuel) work cursor version_size h hc hf =
      elim (Checked-cases (round_checks work cursor version_size)) [
        | inr (r, bad) ↦
            fails r (unfold scan_version in rw (bad, scan_version) refl)
              (round_stop work cursor version_size r h bad)
        | inl (paid, ok) ↦ elim (Bool-cases (at bytes cursor == 0)) [
          | inl nul ↦
              let here : Version = record {
                work = paid;
                cursor = cursor;
                version_size = version_size;
              } in
              finds here (unfold scan_version in rw (ok, nul, scan_version) refl)
                (Scanned-here work paid cursor version_size here h ok ((==_iff _ _).0 nul) refl)
          | inr more ↦
              let g = round_good work paid cursor version_size h ok in
              ScanEnds-later fuel work paid cursor version_size h ok more (
                scan_version-ends fuel paid (cursor + 1) (version_size + 1)
                  (omega (arith, g.4, g.5)) (omega (arith, g.1)) (omega arith))
        ]
      ]
