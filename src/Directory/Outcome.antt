-- ===== src/Directory/Outcome.antt =====
-- How `serialized_file_directory_create` ends: with an index, whose cost is known to the unit, or with
-- the handle and the allocation counters as they were.
use unity_common.Base.{
  ℕ, ◌+◌, ◌≤◌, ◌<◌, ◌≡◌, ◌≢◌, refl, sym, ap, subst, ◌∙◌, inl, inr, true, false, Option, none, some,
  arith, ltb, Bool-cases, get_elem?, replicate, length-replicate,
}
use unity_common.StringBuilder.{Tracker, mem_alloc, mem_free}
use unity_common.StringBuilder.Accounting.{IsTracker}
use unity_common.Base.{◌==◌}
use unity_common.Base.Words.{Bytes}
use unity_common.Prefix.{PrefixView, at, no_offset}
use unity_common.Prefix.Outcome.{Describes}
use unity_common.Directory.{Status, Field, ObjectRow, View, Result, Scan, charged}
use unity_common.Directory.Scanner.{scan_directory}
use unity_common.Directory.Stepping.{Outcome, good, stop}
use unity_common.Directory.Steps.{Ends, settings, IsScan, Failed}
use unity_common.Directory.Passes.{Passed, scan_directory-ends}
use unity_common.Directory.Replay.{Rest, twin, Alike, Steady-scan_directory}
use unity_common.Prefix.Coordinates.{Tiles}
use unity_common.Directory.Tables.{Any}
use unity_common.Directory.Rows.{ObjectAt}
use unity_common.Directory.Filling.{Full, scan_directory-Full}
use unity_common.Directory.Create.{
  Storage, Created, first_scan, replay_scan, storage_of, publish, replayed, allocate, planned,
  plan_and_charge, counted, create_behind, serialized_file_directory_create, rows,
  serialized_file_directory_type, serialized_file_directory_object,
  serialized_file_directory_dispose,
}
use unity_common.Directory.Checks.{Arguments, Locals, valid_arguments, expected_version, Layout}
use unity_common.Directory.Admission.{Admitted, admits, refuses, admit_prefix-ends}
use unity_common.Directory.Planning.{Planned, plan_and_charge-Ended, LaidOut, layout_of-LaidOut}
use unity_common.Directory.Attempts.{Ended, charge-Ended, Charged}
use unity_common.Directory.Index.{
  CreateEnds, IsIndex, IsIndexed, Selects, cost_of, fails, fails_with, first, given_back, makes,
  second,
}

first_scan-IsScan :
    (a : Arguments) (p : PrefixView) (r : Result) → Admitted a p r → IsScan (first_scan a p r)
first_scan-IsScan a p r h = record {
  reader = record {
    origin = omega (arith, h.describes.remaining);
    in_metadata = omega (arith, h.describes.remaining_end);
    in_mapping = omega (arith, h.describes.remaining, h.describes.mapped);
    in_budget = omega (
      arith,
      h.describes.remaining,
      h.checked.metadata,
      ap (λ k. k.size) h.describes.metadata_prefix,
    );
    in_work = h.allowed;
  };
  work = refl;
  nodes = omega arith;
  strings = omega arith;
  dependencies = omega arith;
}

-- What the second pass starts from is what the first one started from, but for the rest.
rest_of : Scan → Result → Rest
rest_of s result = record {
  reader = record {
    work_used = result.work_used;
    status = s.reader.status;
    error_offset = s.reader.error_offset;
  };
  result = result;
  field = s.field;
  row_ordinal = s.row_ordinal;
  types = some (replicate s.view.type_count none);
  objects = some (replicate s.view.object_count none);
  type_capacity = s.view.type_count;
  object_capacity = s.view.object_count;
}

replay_scan-twin :
    (a : Arguments) (p : PrefixView) (r q : Result) (s : Scan)
    → settings s ≡ settings (first_scan a p r)
    → replay_scan a p s q ≡ twin (first_scan a p r) (rest_of s q)
unfolding rest_of
replay_scan-twin a p r q s same = cc

-- The end of a call whose second pass has ended in `t`.
module _ (a : Arguments) (tracker : Tracker) (address total : ℕ) (t : Scan) where
  published :
      (x : Option (Unit {0}) × Result)
      → mem_free true total (mem_alloc true total tracker).1 ≡ tracker
      → IsIndex a (storage_of address total t)
      → t.result.status ≡ Status.ok
      → t.reader.work_used + 1 ≡ cost_of (storage_of address total t).view
      → Ended (λ u q. Charged a.limits.max_work 1 (charged t) q) (Failed a.limits.max_work) x
      → CreateEnds a none tracker
          (some (publish address total t (mem_alloc true total tracker).1 x))
  unfolding Ended
  published (none, r) back index status cost h = fails _ refl refl h back
  published (some u, r) back index status cost (e, room) =
      makes _ (storage_of address total t) refl refl refl (ap (λ k. k.status) e ∙ status) index
        (ap (λ k. k.work_used) e ∙ cost) (omega (arith, ap (λ k. k.work_used) e, room)) refl

LaidOut-cong :
    (v w : View) (l : Layout)
    → v.type_count ≡ w.type_count
    → v.object_count ≡ w.object_count
    → LaidOut v l
    → LaidOut w l
LaidOut-cong v w l e f h = record {
  types_aligned = h.types_aligned;
  objects_aligned = h.objects_aligned;
  behind_view = h.behind_view;
  apart = omega (arith, h.apart, e);
  inside = omega (arith, h.inside, f);
  representable = h.representable;
}

-- The accessors read the tables.
stored_type :
    (address total : ℕ) (t : Scan) (full : Full t) (i : ℕ)
    → i < t.view.type_count
    → serialized_file_directory_type (some (storage_of address total t)) i ≡ get_elem? full.types i
unfolding serialized_file_directory_type
stored_type address total t full i h =
    let below : ltb i t.view.type_count ≡ true = ground (arith, h) in
    rw (below, serialized_file_directory_type) (ap (λ k. get_elem? (rows k) i) full.types_are)

stored_object :
    (address total : ℕ) (t : Scan) (full : Full t) (i : ℕ)
    → i < t.view.object_count
    → serialized_file_directory_object (some (storage_of address total t)) i
      ≡ get_elem? full.objects i
unfolding serialized_file_directory_object
stored_object address total t full i h =
    let below : ltb i t.view.object_count ≡ true = ground (arith, h) in
    rw (below, serialized_file_directory_object) (ap (λ k. get_elem? (rows k) i) full.objects_are)

in_file :
    (a : Arguments) (view : View) (total i : ℕ) (row : ObjectRow)
    → Tiles view.prefix.header a.logical_size
    → ObjectAt view.prefix.header view.type_count i row
    → IsIndexed a (record view { retained_bytes = total }) i row
in_file a view total i row tiles h = record {
  ordinal = h.ordinal;
  has_type = h.has_type;
  from_data = h.from_data;
  in_file = omega (arith, h.in_data, tiles.file_size, tiles.data_offset, tiles.end_at);
}

expected_version-Selects :
    (engine_version : ℕ) (version : Bytes)
    → expected_version engine_version ≡ some version
    → Selects engine_version version
unfolding expected_version
expected_version-Selects engine_version version h = elim (Bool-cases (engine_version == 1)) [
  | inl e ↦ first (ground (arith, e)) (let k = rw e at h in ground (arith, k))
  | inr e ↦ elim (Bool-cases (engine_version == 2)) [
    | inl e2 ↦ second (ground (arith, e2)) (let k = rw (e, e2) at h in ground (arith, k))
    | inr e2 ↦ let k = rw (e, e2) at h in absurd (ground (arith, k))
  ]
]

mem_alloc_refuses :
    (total : ℕ) (tracker : Tracker) → mem_alloc false total tracker ≡ (false, tracker)
unfolding mem_alloc
mem_alloc_refuses total tracker = ground arith

mem_alloc_grants :
    (total : ℕ) (tracker : Tracker) → 0 < total → (mem_alloc true total tracker).0 ≡ true
unfolding mem_alloc
mem_alloc_grants total tracker h = ground arith

positive :
    (a : Arguments) (s : Scan) (total : ℕ) (q : Result)
    → Planned a s.view total (charged s) q
    → 0 < total
positive a s total q plan =
    let out = layout_of-LaidOut s.view plan.layout plan.found in
    omega (arith, plan.size, out.behind_view, out.apart, out.inside)

back :
    (a : Arguments) (tracker : Tracker) (s : Scan) (total : ℕ) (q : Result)
    → Planned a s.view total (charged s) q
    → IsTracker tracker
    → mem_free true total (mem_alloc true total tracker).1 ≡ tracker
back a tracker s total q plan k =
    let out = layout_of-LaidOut s.view plan.layout plan.found in
    given_back tracker total k (positive a s total q plan)
      (omega (arith, plan.size, out.representable))

module _ (a : Arguments) (tracker : Tracker) (p : PrefixView) (r : Result) (s : Scan) (total : ℕ)
    (q : Result) where
  abbrev start : Scan
  start = first_scan a p r

  abbrev again : Scan
  again = replay_scan a p s (record q { peak_retained_bytes = total })

  again-IsScan :
      Admitted a p r → Passed start s → Planned a s.view total (charged s) q → IsScan again
  again-IsScan ok_prefix (m, e) plan = record {
    reader = record {
      origin = omega (arith, ok_prefix.describes.remaining, ap (λ k. k.byte_budget_origin) m.same);
      in_metadata =
          omega (arith, ok_prefix.describes.remaining_end, ap (λ k. k.metadata_end) m.same);
      in_mapping = omega (
        arith,
        ok_prefix.describes.remaining,
        ok_prefix.describes.mapped,
        ap (λ k. k.mapped_size) m.same,
      );
      in_budget = omega (
        arith,
        ok_prefix.describes.remaining,
        ok_prefix.checked.metadata,
        ap (λ k. k.size) ok_prefix.describes.metadata_prefix,
        ap (λ k. k.byte_budget_origin) m.same,
        ap (λ k. k.max_bytes) m.same,
      );
      in_work = omega (arith, plan.work, ap (λ k. k.max_work) m.same);
    };
    work = m.valid.work;
    nodes = omega arith;
    strings = omega arith;
    dependencies = omega arith;
  }

  -- What the two passes have in common.
  passes-alike :
      Passed start s
      → (t : Scan) (u v : Unit {0}) → scan_directory start ≡ good u s
      → scan_directory again ≡ good v t
      → (x : Rest) × (t ≡ twin s x)
  unfolding Alike
  passes-alike (m, e) t u v f g =
      let same = replay_scan-twin a p r (record q { peak_retained_bytes = total }) s m.same in
      let h =
        Steady-scan_directory.alike start (rest_of s (record q { peak_retained_bytes = total })) in
      let second : Alike (scan_directory start) (good v t) =
        subst (λ z. Alike (scan_directory start) z) (ap scan_directory (sym same) ∙ g) h in
      let both : Alike (good u s) (good v t) = subst (λ z. Alike z (good v t)) f second in
      (both.1, both.2)

  -- The tables of the second pass.
  again-Full : (o : Outcome (Unit {0})) → scan_directory again ≡ o → Ends (λ x t. Full t) Any o
  again-Full o g = subst (Ends (λ x t. Full t) Any) g (
      scan_directory-Full again (replicate s.view.type_count none)
        (replicate s.view.object_count none) refl refl (length-replicate _ _)
        (length-replicate _ _))

  -- The index of the second pass.
  index :
      (address : ℕ)
      → Admitted a p r
      → Passed start s
      → Planned a s.view total (charged s) q
      → (t : Scan) → Passed again t
      → t.view ≡ s.view
      → Full t
      → IsIndex a (storage_of address total t)
  index address ok_prefix (m, e) plan t (n, f) same full =
      let out = layout_of-LaidOut s.view plan.layout plan.found in
      let prefix : t.view.prefix ≡ p = ap (λ k. k.prefix) same ∙ ap (λ k. k.prefix) m.same in
      record {
        prefix =
            subst
              (λ k. Describes a.bytes a.mapped_size a.logical_size a.limits.max_version_bytes 11 k)
              (sym prefix) ok_prefix.describes;
        version = (
          ok_prefix.expected,
          expected_version-Selects a.engine_version ok_prefix.expected ok_prefix.selected,
          subst
              (λ k.
                (i : ℕ)
                → i < 11
                → at a.bytes (k.version_source.offset + i) ≡ at ok_prefix.expected i)
              (sym prefix) ok_prefix.checked.version,
        );
        tree_flag =
            omega (arith, ok_prefix.checked.tree_flag, ap (λ k. k.type_tree_enabled_raw) prefix);
        metadata =
            omega
              (arith, ok_prefix.checked.metadata, ap (λ k. k.metadata_prefix_source.size) prefix);
        layout = plan.layout;
        laid_out =
            LaidOut-cong s.view _ plan.layout (ap (λ k. k.type_count) (sym same))
              (ap (λ k. k.object_count) (sym same)) out;
        size = plan.size;
        retained = plan.limit;
        type_rows = λ i h.
            let (row, found, g) = full.types_filled i h in
            (row, stored_type address total t full i h ∙ found, g);
        object_rows = λ i h.
            let (row, found, g) = full.objects_filled i h in
            (
              row,
              stored_object address total t full i h ∙ found,
              in_file a t.view total i row
                  (subst (λ k. Tiles k.header a.logical_size) (sym prefix)
                    ok_prefix.describes.header.0)
                  g,
            );
        nodes = omega (
          arith,
          n.valid.nodes,
          ap (λ k. k.limits.max_node_records) n.same,
          ap (λ k. k.limits.max_node_records) m.same,
        );
        strings = omega (
          arith,
          n.valid.strings,
          ap (λ k. k.limits.max_string_bytes) n.same,
          ap (λ k. k.limits.max_string_bytes) m.same,
        );
        dependencies = omega (
          arith,
          n.valid.dependencies,
          ap (λ k. k.limits.max_dependency_words) n.same,
          ap (λ k. k.limits.max_dependency_words) m.same,
        );
        behind_prefix = omega (arith, f, n.forward, ap (λ k. k.remaining_metadata.offset) prefix);
        in_metadata = omega (
          arith,
          f,
          n.valid.reader.in_metadata,
          ap (λ k. k.metadata_end) n.same,
          ap (λ k. k.metadata_end) m.same,
          ap (λ k. k.header.metadata_to_data_gap.offset) prefix,
        );
        in_mapping = omega (
          arith,
          f,
          n.valid.reader.in_mapping,
          ap (λ k. k.mapped_size) n.same,
          ap (λ k. k.mapped_size) m.same,
        );
      }

  replayed-ends :
      (address : ℕ) (u : Unit {0})
      → IsTracker tracker
      → Admitted a p r
      → Passed start s
      → Planned a s.view total (charged s) q
      → scan_directory start ≡ good u s
      → (o : Outcome (Unit {0})) → scan_directory again ≡ o
      → Ends (λ x t. Passed again t) (Failed again.limits.max_work) o
      → CreateEnds a none tracker
          (some (replayed a address total (mem_alloc true total tracker).1 o))
  unfolding Ends
  replayed-ends address u k ok_prefix (m, e) plan f (stop bad) g h =
      fails _ refl refl (h.0, omega (arith, h.1, ap (λ k. k.limits.max_work) m.same))
        (back a tracker s total q plan k)
  replayed-ends address u k ok_prefix (m, e) plan f (good v t) g (n, after) =
      let (x, twin_of) = passes-alike (m, e) t u v f g in
      let same : t.view ≡ s.view = ap (λ k. k.view) twin_of in
      published a tracker address total t _ (back a tracker s total q plan k)
        (index address ok_prefix (m, e) plan t (n, after) same
          (unfold Ends in again-Full (good v t) g))
        (ap (λ k. k.status) n.same
          ∙ ap (λ k. k.status) plan.result
          ∙ ap (λ k. k.status) m.same
          ∙ ok_prefix.status)
        (omega (
          arith,
          n.paid,
          m.paid,
          n.forward,
          ok_prefix.paid,
          after,
          e,
          ap (λ k. k.work_used) plan.result,
          ap (λ k. k.type_count) same,
          ap (λ k. k.object_count) same,
          ap (λ k. k.remaining_metadata.offset) same,
          ap (λ k. k.prefix.remaining_metadata.offset) n.same,
        ))
        (charge-Ended a.limits 1 Field.no_field no_offset (charged t) (
          omega (
            arith,
            n.valid.reader.in_work,
            ap (λ k. k.max_work) n.same,
            ap (λ k. k.max_work) m.same,
          )))

-- A call whose first pass has ended in `s`, from the plan of its storage on.
module _ (a : Arguments) (tracker : Tracker) (p : PrefixView) (r : Result) (s : Scan)
    (granted : Option ℕ) (k : IsTracker tracker) (ok_prefix : Admitted a p r)
    (passed : Passed (first_scan a p r) s) (u : Unit {0})
    (f : scan_directory (first_scan a p r) ≡ good u s) where
  allocate-ends :
      (total : ℕ) (q : Result)
      → Planned a s.view total (charged s) q
      → CreateEnds a none tracker (some (allocate a p granted s total tracker q))
  unfolding allocate
  allocate-ends total q plan =
      elim granted as (λ g. CreateEnds a none tracker (some (allocate a p g s total tracker q))) [
        | none ↦
            rw (mem_alloc_refuses total tracker, allocate)
              (fails _ refl refl (λ h. ground (arith, h), plan.work)
                (ap (λ k. k.1) (mem_alloc_refuses total tracker)))
        | some address ↦
            rw (mem_alloc_grants total tracker (positive a s total q plan), allocate)
              (replayed-ends a tracker p r s total q address u k ok_prefix passed plan f _ refl (
                scan_directory-ends _ (again-IsScan a tracker p r s total q ok_prefix passed plan)))
      ]

  planned-ends :
      (x : Option ℕ × Result)
      → Ended (λ total q. Planned a s.view total (charged s) q) (Failed a.limits.max_work) x
      → CreateEnds a none tracker (some (planned a p granted s tracker x))
  unfolding Ended
  planned-ends (none, q) h = fails_with a none tracker q h
  planned-ends (some total, q) h = allocate-ends total q h

counted-ends :
    (a : Arguments) (tracker : Tracker) (p : PrefixView) (r : Result) (granted : Option ℕ)
    → IsTracker tracker
    → Admitted a p r
    → (o : Outcome (Unit {0})) → scan_directory (first_scan a p r) ≡ o
    → Ends (λ x t. Passed (first_scan a p r) t) (Failed a.limits.max_work) o
    → CreateEnds a none tracker (some (counted a p granted tracker o))
unfolding Ends
counted-ends a tracker p r granted k ok_prefix (stop bad) f h = fails_with a none tracker bad h
counted-ends a tracker p r granted k ok_prefix (good u s) f (m, e) =
    planned-ends a tracker p r s granted k ok_prefix (m, e) u f
      (plan_and_charge a s.view (charged s))
      (plan_and_charge-Ended a s.view (charged s)
        (omega (arith, m.valid.reader.in_work, m.valid.work, ap (λ k. k.limits.max_work) m.same)))

create_behind-ends :
    (a : Arguments) (l : Locals) (granted : Option ℕ) (handle : Option Storage) (tracker : Tracker)
    → IsTracker tracker
    → CreateEnds a handle tracker (create_behind a l granted handle tracker)
create_behind-ends a l granted (some storage) tracker k =
    fails_with a (some storage) tracker _ (λ h. ground (arith, h), omega arith)
create_behind-ends a l granted none tracker k = elim (admit_prefix-ends a l) [
  | refuses r f h ↦ rw f (fails_with a none tracker r h)
  | admits p r f h ↦ rw f (
      counted-ends a tracker p r granted k h _ refl
        (scan_directory-ends _ (first_scan-IsScan a p r h)))
]

pub create-ends :
    (a : Arguments) (l : Locals) (granted : Option ℕ) (handle : Option Storage) (tracker : Tracker)
    → IsTracker tracker
    → CreateEnds a handle tracker (serialized_file_directory_create a l granted handle tracker)
unfolding serialized_file_directory_create
create-ends a l granted handle tracker k = elim (Bool-cases (valid_arguments a)) [
  | inr e ↦
      rw (e, serialized_file_directory_create)
        (fails_with a handle tracker _ (λ h. ground (arith, h), omega arith))
  | inl e ↦
      rw (e, serialized_file_directory_create) (create_behind-ends a l granted handle tracker k)
]

-- A call that reports an error leaves the handle and the allocation counters as they were, and has
-- charged no more work than allowed.
pub create-error :
    (a : Arguments) (l : Locals) (granted : Option ℕ) (handle : Option Storage) (tracker : Tracker)
    (c : Created)
    → IsTracker tracker
    → serialized_file_directory_create a l granted handle tracker ≡ some c
    → c.result.status ≢ Status.ok
    → (c.handle ≡ handle) × (c.tracker ≡ tracker) × (c.result.work_used ≤ a.limits.max_work)
create-error a l granted handle tracker c k e bad =
    elim (create-ends a l granted handle tracker k) [
      | fails d f kept h t ↦
          let same : d ≡ c = ground (arith, sym f ∙ e) in
          subst
            (λ z.
              (z.handle ≡ handle)
              × (z.tracker ≡ tracker)
              × (z.result.work_used ≤ a.limits.max_work))
            same (kept, t, h.1)
      | makes d s f empty made status index cost allowed t ↦
          let same : d ≡ c = ground (arith, sym f ∙ e) in
          absurd (bad (ap (λ z. z.result.status) (sym same) ∙ status))
    ]

-- Where the handle was empty, disposing of whatever a call leaves empties the handle and gives back all
-- that the call took of the allocation counters.
pub dispose-create :
    (a : Arguments) (l : Locals) (granted : Option ℕ) (tracker : Tracker)
    → IsTracker tracker
    → (c : Created) × (serialized_file_directory_create a l granted none tracker ≡ some c)
      × (serialized_file_directory_dispose c.handle c.tracker ≡ (none, tracker))
unfolding serialized_file_directory_dispose
dispose-create a l granted tracker k = elim (create-ends a l granted none tracker k) [
  | fails c e kept h t ↦
      (c, e, rw (kept, serialized_file_directory_dispose) (ap (λ t. (none, t)) t))
  | makes c s e empty made status index cost allowed t ↦ (
    c,
    e,
    rw (made, t, serialized_file_directory_dispose)
        (ap (λ t. (none, t))
          (given_back tracker s.view.retained_bytes k
            (omega (
              arith, index.size, index.laid_out.behind_view, index.laid_out.apart,
              index.laid_out.inside,
            ))
            (omega (arith, index.size, index.laid_out.representable)))),
  )
]
