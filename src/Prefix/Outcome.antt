-- ===== src/Prefix/Outcome.antt =====
-- What `serialized_file_prefix_query` publishes, what it costs, and how it fails.
use unity_common.Base.{
  ℕ, suc, ◌+◌, ◌≤◌, ◌<◌, ◌≡◌, ◌≢◌, refl, sym, ap, subst, ◌∙◌, inl, inr, false, not, ◌||◌, Option,
  none, some, arith, ◌==◌, Bool-cases,
}
use unity_common.Base.Words.{Bytes}
use unity_common.Prefix.{
  Status, HeaderView, PrefixView, PrefixWork, Limits, Result, Version, Checked, good, stop, Answer,
  after_version, query_result, mapped_span, no_offset, charge, charge_work, valid_mapping_argument,
  storage_overlaps, at, require_metadata_bytes, scan_version, tail_view, query_tail, query_header,
  publish_prefix, serialized_file_prefix_query, v22_header_size, limits_bytes, prefix_view_bytes,
}
use unity_common.Prefix.Coordinates.{
  Checked-cases, Tiles, SpansMapped, header_of, header_of-Tiles, query_header-fits,
  query_header-accepts, query_header-stop,
}
use unity_common.Prefix.Scan.{IsFailure, Scanned, ScanEnds, scan_version-ends, fails, finds}

-- A published prefix with a version of `n` bytes: the version has no NUL and one stands behind it,
-- the fields follow one another from offset 48 on, they are mapped, and what remains of the metadata
-- begins behind them.
pub record Describes (bytes : Bytes) (mapped_size logical_size max_version_bytes n : ℕ)
    (p : PrefixView) : Type 0 where
  pub header : Tiles p.header logical_size × SpansMapped p.header mapped_size
  pub no_nul : (i : ℕ) → v22_header_size ≤ i → i < v22_header_size + n → at bytes i ≢ 0
  pub nul : at bytes (v22_header_size + n) ≡ 0
  pub version : p.version_source ≡ mapped_span v22_header_size n
  pub terminator : p.version_terminator_source ≡ mapped_span (48 + n) 1
  pub platform : p.target_platform_source ≡ mapped_span (49 + n) 4
  pub tree : p.type_tree_source ≡ mapped_span (53 + n) 1
  pub tree_raw : p.type_tree_enabled_raw ≡ at bytes (53 + n)
  pub metadata_prefix : p.metadata_prefix_source ≡ mapped_span v22_header_size (6 + n)
  pub remaining : p.remaining_metadata.offset ≡ 54 + n
  pub remaining_end :
      p.remaining_metadata.offset + p.remaining_metadata.size ≡ p.header.metadata_to_data_gap.offset
  pub mapped : 54 + n ≤ mapped_size
  pub limit : n < max_version_bytes

span_eq : {o p n m : ℕ} → o ≡ p → n ≡ m → mapped_span o n ≡ mapped_span p m
span_eq h g = cc

module _ (bytes : Bytes) (mapped_size metadata_end : ℕ) (header : HeaderView) (v : Version) where
  query_tail-good :
      (w : PrefixWork) (p : PrefixView)
      → v.work.used ≤ v.work.maximum
      → query_tail bytes mapped_size metadata_end header v ≡ good (w, p)
      → (p ≡ tail_view bytes metadata_end header v)
        × (w.used ≡ v.work.used + 6)
        × (w.used ≤ v.work.maximum)
        × (v.cursor + 6 ≤ metadata_end)
        × (v.cursor + 6 ≤ mapped_size)
  unfolding query_tail charge charge_work require_metadata_bytes
  query_tail-good w p h e = (ground arith, ground arith, ground arith, ground arith, ground arith)

  query_tail-stop :
      (r : Result)
      → v.work.used ≤ v.work.maximum
      → query_tail bytes mapped_size metadata_end header v ≡ stop r
      → IsFailure r v.work.maximum
  unfolding query_tail charge charge_work require_metadata_bytes
  query_tail-stop r h e = (λ s. ground arith, ground arith)

module _ (bytes : Bytes) (mapped_size logical_size : ℕ) (limits : Limits) where
  abbrev start_work : PrefixWork
  start_work = record { maximum = limits.max_work; used = 0 }

  data PublishEnds (o : Option (Checked (PrefixWork × PrefixView))) : Type 0 where
    stops : (r : Result) → o ≡ some (stop r) → IsFailure r limits.max_work → PublishEnds o
    publishes :
        (w : PrefixWork) (n : ℕ) (p : PrefixView)
        → o ≡ some (good (w, p))
        → w.used ≡ 55 + n
        → 55 + n ≤ limits.max_work
        → Describes bytes mapped_size logical_size limits.max_version_bytes n p
        → PublishEnds o

  header_tiled :
      (work : PrefixWork) (header : HeaderView)
      → query_header bytes mapped_size logical_size start_work ≡ good (work, header)
      → Tiles header logical_size × SpansMapped header mapped_size
  header_tiled work header he =
      let fits = query_header-fits bytes mapped_size logical_size limits.max_work work header he in
      let accepted =
        sym (query_header-accepts bytes mapped_size logical_size limits.max_work fits) ∙ he in
      let same : header_of bytes mapped_size logical_size limits.max_work ≡ header =
        ground (arith, accepted) in
      subst (λ h. Tiles h logical_size × SpansMapped h mapped_size) same
        (header_of-Tiles bytes mapped_size logical_size limits.max_work fits)

  view-Describes :
      (work : PrefixWork) (header : HeaderView) (v : Version)
      → Tiles header logical_size × SpansMapped header mapped_size
      → Scanned bytes mapped_size header.metadata_to_data_gap.offset limits.max_version_bytes work
          48 0 v
      → v.cursor + 6 ≤ header.metadata_to_data_gap.offset
      → v.cursor + 6 ≤ mapped_size
      → v.cursor ≡ 48 + v.version_size
      → Describes bytes mapped_size logical_size limits.max_version_bytes v.version_size
          (tail_view bytes header.metadata_to_data_gap.offset header v)
  unfolding tail_view
  view-Describes work header v tiled t in_metadata in_mapping at_nul = record {
    header = tiled;
    no_nul = λ i lo hi. t.none_before i lo (omega (arith, at_nul));
    nul = rw (← at_nul) t.found;
    version = refl;
    terminator = span_eq at_nul refl;
    platform = span_eq (omega (arith, at_nul)) refl;
    tree = span_eq (omega (arith, at_nul)) refl;
    tree_raw = ap (at bytes) (omega (arith, at_nul));
    metadata_prefix = span_eq refl (omega (arith, at_nul));
    remaining = omega (arith, at_nul);
    remaining_end = omega arith;
    mapped = omega (arith, at_nul);
    limit = t.inside_limit;
  }

  tail-Describes :
      (work w : PrefixWork) (header : HeaderView) (v : Version) (p : PrefixView)
      → query_header bytes mapped_size logical_size start_work ≡ good (work, header)
      → Scanned bytes mapped_size header.metadata_to_data_gap.offset limits.max_version_bytes work
          48 0 v
      → query_tail bytes mapped_size header.metadata_to_data_gap.offset header v ≡ good (w, p)
      → work.maximum ≡ limits.max_work
      → (w.used ≡ 55 + v.version_size)
        × (w.used ≤ limits.max_work)
        × Describes bytes mapped_size logical_size limits.max_version_bytes v.version_size p
  tail-Describes work w header v p he t e hm =
      let (view, cost, room, in_metadata, in_mapping) =
        query_tail-good bytes mapped_size header.metadata_to_data_gap.offset header v w p
          (omega (arith, t.room, t.kept)) e in
      let fits = query_header-fits bytes mapped_size logical_size limits.max_work work header he in
      let accepted =
        sym (query_header-accepts bytes mapped_size logical_size limits.max_work fits) ∙ he in
      let spent : work.used ≡ 48 = ground (arith, accepted) in
      let tiled : Tiles header logical_size × SpansMapped header mapped_size =
        header_tiled work header he in
      let at_nul : v.cursor ≡ 48 + v.version_size = omega (arith, t.size) in
      (
        omega (arith, cost, spent, t.paid, at_nul),
        omega (arith, room, t.kept, hm),
        subst (Describes bytes mapped_size logical_size limits.max_version_bytes v.version_size)
            (sym view) (view-Describes work header v tiled t in_metadata in_mapping at_nul),
      )

  scanned : PrefixWork → HeaderView → Option (Checked Version)
  scanned work header =
      scan_version (suc mapped_size) bytes mapped_size header.metadata_to_data_gap.offset
        limits.max_version_bytes work v22_header_size 0

  publish_good :
      (work : PrefixWork) (header : HeaderView)
      → query_header bytes mapped_size logical_size start_work ≡ good (work, header)
      → publish_prefix bytes mapped_size logical_size limits
        ≡ after_version
            (scanned work header)
            (query_tail bytes mapped_size header.metadata_to_data_gap.offset header)
  unfolding publish_prefix scanned
  publish_good work header he = rw (he, publish_prefix) refl

  after-scan :
      (work : PrefixWork) (header : HeaderView)
      → query_header bytes mapped_size logical_size start_work ≡ good (work, header)
      → work.maximum ≡ limits.max_work
      → ScanEnds bytes mapped_size header.metadata_to_data_gap.offset limits.max_version_bytes work
          48 0
          (scanned work header)
      → PublishEnds (publish_prefix bytes mapped_size logical_size limits)
  after-scan work header he hm (fails r e bad) =
      stops r (publish_good work header he ∙ rw e refl) (bad.0, omega (arith, bad.1, hm))
  after-scan work header he hm (finds v e t) =
      elim (Checked-cases
        (query_tail bytes mapped_size header.metadata_to_data_gap.offset header v)) [
          | inr (r, bad) ↦
              let (ne, cost) =
                query_tail-stop bytes mapped_size header.metadata_to_data_gap.offset header v r
                  (omega (arith, t.room, t.kept)) bad in
              stops r (publish_good work header he ∙ rw e (rw bad refl))
                (ne, omega (arith, cost, t.kept, hm))
          | inl ((w, p), ok) ↦
              let (cost, room, d) = tail-Describes work w header v p he t ok hm in
              publishes w v.version_size p (publish_good work header he ∙ rw e (rw ok refl)) cost
                (omega (arith, cost, room)) d
        ]

  publish_prefix-ends : PublishEnds (publish_prefix bytes mapped_size logical_size limits)
  publish_prefix-ends =
      elim (Checked-cases (query_header bytes mapped_size logical_size start_work)) [
        | inr (r, bad) ↦
            stops r (unfold publish_prefix in rw (bad, publish_prefix) refl)
              (query_header-stop bytes mapped_size logical_size limits.max_work r bad)
        | inl ((work, header), he) ↦
            let fits =
              query_header-fits bytes mapped_size logical_size limits.max_work work header he in
            let accepted =
              sym (query_header-accepts bytes mapped_size logical_size limits.max_work fits) ∙ he in
            after-scan work header he (ground (arith, accepted)) (
              unfold scanned in
              scan_version-ends bytes mapped_size header.metadata_to_data_gap.offset
                limits.max_version_bytes (suc mapped_size) work 48 0
                (ground (arith, accepted, fits.work)) fits.mapped (omega arith))
      ]

module _ (address : ℕ) (bytes : Bytes) (mapped_size logical_size limits_address : ℕ)
    (limits : Limits) (out_prefix : ℕ) where
  abbrev pub prefix_answer : Option (Answer PrefixView)
  prefix_answer =
      serialized_file_prefix_query address bytes mapped_size logical_size limits_address limits
        out_prefix

  -- How a prefix query may end. Either it publishes a view, at the cost of 55 units and one for each
  -- byte of the version, or it fails, publishes nothing, and charges no more than allowed.
  pub data PrefixEnds : Type 0 where
    publishes_view :
        (n : ℕ) (p : PrefixView)
        → prefix_answer
          ≡ some (record { result = query_result Status.ok (55 + n) no_offset; published = some p })
        → 55 + n ≤ limits.max_work
        → Describes bytes mapped_size logical_size limits.max_version_bytes n p
        → PrefixEnds
    fails_with :
        (r : Result)
        → prefix_answer ≡ some (record { result = r; published = none })
        → (r.status ≢ Status.ok) × (r.work_used ≤ limits.max_work)
        → PrefixEnds

  from_publish :
      (limits_address == 0
          || (not (
                valid_mapping_argument address mapped_size logical_size out_prefix
                  prefix_view_bytes)
              || storage_overlaps limits_address limits_bytes out_prefix prefix_view_bytes))
        ≡ false
      → PublishEnds bytes mapped_size logical_size limits
          (publish_prefix bytes mapped_size logical_size limits)
      → PrefixEnds
  unfolding serialized_file_prefix_query
  from_publish valid (stops r e bad) = fails_with r (rw valid (rw e refl)) bad
  from_publish valid (publishes w n p e cost room d) =
      publishes_view n p (rw valid (rw e (rw cost refl))) room d

  -- Every prefix query ends, by a published view or by a failure, as `PrefixEnds` says.
  pub prefix_query-ends : PrefixEnds
  unfolding serialized_file_prefix_query
  prefix_query-ends =
      elim (Bool-cases (
        limits_address == 0
        || (not
              (valid_mapping_argument address mapped_size logical_size out_prefix prefix_view_bytes)
            || storage_overlaps limits_address limits_bytes out_prefix prefix_view_bytes))) [
              | inl invalid ↦
                  fails_with (query_result Status.invalid_argument 0 no_offset) (rw invalid refl)
                    (λ s. cc, omega arith)
              | inr valid ↦
                  from_publish valid (publish_prefix-ends bytes mapped_size logical_size limits)
            ]
