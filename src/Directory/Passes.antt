-- ===== src/Directory/Passes.antt =====
-- A whole pass of the scanner: one unit of work for each byte and for each row of the two tables.
use unity_common.Base.{
  ℕ, ◌+◌, ◌≡◌, ◌≢◌, refl, sym, ap, subst, ◌∙◌, inl, inr, arith, ltb, Bool-cases,
}
use unity_common.Base.Words.{size_max}
use unity_common.MetadataReader.{Number, take_span, read_count}
use unity_common.MetadataReader.Take.{IsReader}
use unity_common.MetadataReader.Progress.{take_span-Advances, reads-Advances}
use unity_common.Directory.{Status, Limit, Field, View, Scan}
use unity_common.Directory.Scanner.{
  scan_types, scan_objects, admit_type_count, admit_object_count, replay_differs, scan_type_table,
  object_padding, scan_object_table, scan_directory,
}
use unity_common.Directory.Stepping.{
  ◌>>=◌, pure, get_position, modify_view, set_field, set_row, refuse_here, read_with,
}
use unity_common.Directory.Steps.{
  Ends, Ends-bind, Ends-map, IsScan, Moves, Steps, Failed, Moves-trans, Steps-refl, Spends,
  Moves-after, Spends-read,
}
use unity_common.Directory.Spending.{Spends-scan_types, Spends-scan_objects}

-- A change of the view that keeps what the invariant reads.
abbrev Kept : View → View → Type 0
Kept v w =
    (v.prefix ≡ w.prefix)
    × (v.engine_version ≡ w.engine_version)
    × (v.node_record_count ≡ w.node_record_count)
    × (v.string_byte_count ≡ w.string_byte_count)
    × (v.dependency_word_count ≡ w.dependency_word_count)

viewed :
    (n : ℕ) (s t : Scan) (v : View)
    → Moves n s t
    → Kept v t.view
    → Moves n s (record t { view = v })
viewed n s t v m (p, e, a, b, c) = record {
  same = cc;
  forward = m.forward;
  paid = m.paid;
  valid = record {
    reader = m.valid.reader;
    work = m.valid.work;
    nodes = omega (arith, a, m.valid.nodes);
    strings = omega (arith, b, m.valid.strings);
    dependencies = omega (arith, c, m.valid.dependencies);
  };
}

viewed_as :
    (n k : ℕ) (s t : Scan) (v : View)
    → n ≡ k
    → Moves n s t
    → Kept v t.view
    → Moves k s (record t { view = v })
viewed_as n k s t v e m kept =
    subst (λ j. Moves j s (record t { view = v })) e (viewed n s t v m kept)

-- A change that keeps what the invariant reads.
again :
    (s t : Scan)
    → IsScan s
    → t.reader ≡ s.reader
    → (t.limits ≡ s.limits) × (t.result ≡ s.result)
    → Kept t.view s.view
    → Moves 0 s t
again s t v r (l, q) (p, e, a, b, c) = record {
  same = cc;
  forward = omega (arith, ap (λ k. k.position) r);
  paid = omega (arith, ap (λ k. k.position) r, ap (λ k. k.work_used) r);
  valid = record {
    reader = subst IsReader (sym r) v.reader;
    work = cc;
    nodes = omega (arith, a, v.nodes, ap (λ k. k.max_node_records) l);
    strings = omega (arith, b, v.strings, ap (λ k. k.max_string_bytes) l);
    dependencies = omega (arith, c, v.dependencies, ap (λ k. k.max_dependency_words) l);
  };
}

refused :
    (s : Scan) (status : Status) (limit : Limit) (offset : ℕ)
    → IsScan s
    → status ≢ Status.ok
    → Ends {A = Unit {0}}
        (λ a t. Steps 0 s t)
        (Failed s.limits.max_work)
        (refuse_here status limit offset s)
unfolding refuse_here Ends
refused s status limit offset v h = (h, omega (arith, v.reader.in_work, v.work))

unchanged :
    (s : Scan)
    → IsScan s
    → Ends {A = Unit {0}} (λ a t. Steps 0 s t) (Failed s.limits.max_work) (pure tt s)
unfolding pure Ends
unchanged s v = Steps-refl s v

Spends-admit_type_count : (count : Number) → Spends 0 (admit_type_count count)
unfolding admit_type_count
Spends-admit_type_count count = record {
  ends = λ s v. elim (Bool-cases (ltb s.limits.max_types count.value)) [
    | inl over ↦ rw over (refused s _ _ _ v (λ h. ground (arith, h)))
    | inr fits ↦ rw fits (elim (Bool-cases (replay_differs s.types count.value s.type_capacity)) [
      | inl differs ↦ rw differs (refused s _ _ _ v (λ h. ground (arith, h)))
      | inr same ↦ rw same (unchanged s v)
    ])
  ];
}

Spends-admit_object_count : (count : Number) → Spends 0 (admit_object_count count)
unfolding admit_object_count
Spends-admit_object_count count = record {
  ends = λ s v. elim (Bool-cases (ltb s.limits.max_objects count.value)) [
    | inl over ↦ rw over (refused s _ _ _ v (λ h. ground (arith, h)))
    | inr fits ↦
        rw fits (elim (Bool-cases (replay_differs s.objects count.value s.object_capacity)) [
          | inl differs ↦ rw differs (refused s _ _ _ v (λ h. ground (arith, h)))
          | inr same ↦ rw same (unchanged s v)
        ])
  ];
}

scan_type_table-ends :
    (s : Scan)
    → IsScan s
    → Ends
        (λ x t. Moves t.view.type_count s t × (t.view.object_count ≡ s.view.object_count))
        (Failed s.limits.max_work)
        (scan_type_table s)
unfolding scan_type_table ◌>>=◌ set_field set_row modify_view get_position Ends
scan_type_table-ends s v =
    let s1 = record s { field = Field.type_count; row_ordinal = size_max } in
    let m1 : Moves 0 s s1 = again s s1 v refl (refl, refl) (refl, refl, refl, refl, refl) in
    Ends-bind _ _ _ (read_with read_count s1) _
      (Moves-after 0 0 s s1 (read_with read_count) m1 (Spends-read read_count reads-Advances.1))
      (λ count t m2.
        let t1 = record t { view = record t.view { type_count_source = count.source } } in
        Ends-bind _ _ _ (admit_type_count count t1) _
          (Moves-after 0 0 s t1 (admit_type_count count)
            (viewed 0 s t _ m2.0 (refl, refl, refl, refl, refl)) (Spends-admit_type_count count))
          (λ x u m3.
            let u1 = record u { view = record u.view { type_count = count.value } } in
            Ends-bind _ _ _ (scan_types count.value 0 u1) _
              (Moves-after 0 count.value s u1 (scan_types count.value 0)
                (viewed 0 s u _ m3.0 (refl, refl, refl, refl, refl))
                (Spends-scan_types count.value 0))
              (λ y w m4. (
                viewed_as _ _ s w _ (omega (arith, ap (λ c. c.0) m4.1)) m4.0
                    (refl, refl, refl, refl, refl),
                ap (λ c. c.1) m4.1 ∙ ap (λ c. c.1) m3.1 ∙ ap (λ c. c.1) m2.1,
              ))))

scan_object_table-ends :
    (s : Scan)
    → IsScan s
    → Ends
        (λ x t. Moves t.view.object_count s t × (t.view.type_count ≡ s.view.type_count))
        (Failed s.limits.max_work)
        (scan_object_table s)
unfolding scan_object_table ◌>>=◌ set_field set_row modify_view get_position Ends
scan_object_table-ends s v =
    let s1 = record s { field = Field.object_count; row_ordinal = size_max } in
    let m1 : Moves 0 s s1 = again s s1 v refl (refl, refl) (refl, refl, refl, refl, refl) in
    Ends-bind _ _ _ (read_with read_count s1) _
      (Moves-after 0 0 s s1 (read_with read_count) m1 (Spends-read read_count reads-Advances.1))
      (λ count t m2.
        let t1 = record t { view = record t.view { object_count_source = count.source } } in
        Ends-bind _ _ _ (admit_object_count count t1) _
          (Moves-after 0 0 s t1 (admit_object_count count)
            (viewed 0 s t _ m2.0 (refl, refl, refl, refl, refl)) (Spends-admit_object_count count))
          (λ x u m3.
            let u1 = record u {
              view = record u.view { object_count = count.value };
              field = Field.object_padding;
            } in
            let n = object_padding count.value u.reader.position in
            let m4 : Moves 0 s u1 =
              Moves-trans 0 0 s u u1 m3.0
                (again u u1 m3.0.valid refl (refl, refl) (refl, refl, refl, refl, refl)) in
            Ends-bind _ _ _ (read_with (take_span n) u1) _
              (Moves-after 0 0 s u1 (read_with (take_span n)) m4
                (Spends-read (take_span n) (take_span-Advances n)))
              (λ padding k m5.
                let k1 = record k { view = record k.view { object_padding_source = padding } } in
                Ends-bind _ _ _ (scan_objects count.value 0 k1) _
                  (Moves-after 0 count.value s k1 (scan_objects count.value 0)
                    (viewed 0 s k _ m5.0 (refl, refl, refl, refl, refl))
                    (Spends-scan_objects count.value 0))
                  (λ y w m6. (
                    viewed_as _ _ s w _ (omega (arith, ap (λ c. c.1) m6.1, ap (λ c. c.1) m5.1)) m6.0
                        (refl, refl, refl, refl, refl),
                    ap (λ c. c.0) m6.1
                        ∙ ap (λ c. c.0) m5.1
                        ∙ ap (λ c. c.0) m3.1
                        ∙ ap (λ c. c.0) m2.1,
                  )))))

-- What a whole pass from `s` to `t` has done: a unit of work for each byte between, for each type and
-- for each object, with the counters inside their limits; the rest of the metadata begins at the end.
abbrev pub Passed : Scan → Scan → Type 0
Passed s t =
    Moves (t.view.type_count + t.view.object_count) s t
    × (t.view.remaining_metadata.offset ≡ t.reader.position)

pub scan_directory-ends :
    (s : Scan) → IsScan s → Ends (λ x t. Passed s t) (Failed s.limits.max_work) (scan_directory s)
unfolding scan_directory ◌>>=◌ get_position modify_view Ends
scan_directory-ends s v =
    Ends-bind _ _ _ (scan_type_table s) _ (scan_type_table-ends s v) (λ x t (m, c).
      Ends-bind _ _ _ (scan_object_table t) _
        (Ends-map (λ y u. Moves u.view.object_count t u × (u.view.type_count ≡ t.view.type_count))
          (λ y u. Moves (u.view.type_count + u.view.object_count) s u) (Failed t.limits.max_work)
          (Failed s.limits.max_work) (scan_object_table t) (scan_object_table-ends t m.valid)
          (λ y u (k, d). subst (λ j. Moves j s u) (omega (arith, d)) (Moves-trans _ _ s t u m k))
          (λ r f. (f.0, omega (arith, f.1, ap (λ k. k.limits.max_work) m.same))))
        (λ y u m2. (viewed _ s u _ m2 (refl, refl, refl, refl, refl), refl)))
