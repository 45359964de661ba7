-- ===== src/Directory/Filling.antt =====
-- What the whole second pass leaves: each table has a row for every ordinal below its count.
use unity_common.Base.{
  ℕ, ◌≡◌, refl, sym, ap, subst, ◌∙◌, inl, inr, Option, some, List, arith, ltb, ◌==◌, Bool-cases,
  length,
}
use unity_common.Base.Words.{size_max}
use unity_common.MetadataReader.{Number, take_span, read_count}
use unity_common.Directory.{Field, TypeRow, ObjectRow, Scan}
use unity_common.Directory.Scanner.{
  scan_types, scan_objects, admit_type_count, admit_object_count, scan_type_table, object_padding,
  scan_object_table, scan_directory,
}
use unity_common.Directory.Stepping.{
  ◌>>=◌, pure, get_position, modify_view, set_field, set_row, refuse_here, read_with,
}
use unity_common.Directory.Steps.{Ends, Ends-bind}
use unity_common.Directory.Tables.{Filled, tables, Any, Still-after, Still-read}
use unity_common.Directory.Rows.{TypeAt, ObjectAt, scan_types-fills, scan_objects-fills}

-- With a table of its own the count has to be the planned one.
admit_type_count-planned :
    (count : Number) (s : Scan) (table : List (Option TypeRow))
    → s.types ≡ some table
    → Ends (λ x t. (t ≡ s) × (count.value ≡ s.type_capacity)) Any (admit_type_count count s)
unfolding admit_type_count refuse_here pure Ends
admit_type_count-planned count s table e = elim (Bool-cases (ltb s.limits.max_types count.value)) [
  | inl over ↦ rw (over, admit_type_count) tt
  | inr fits ↦ elim (Bool-cases (count.value == s.type_capacity)) [
    | inr differs ↦ rw (fits, e, differs, admit_type_count) tt
    | inl same ↦ rw (fits, e, same, admit_type_count) (refl, ground (arith, same))
  ]
]

admit_object_count-planned :
    (count : Number) (s : Scan) (table : List (Option ObjectRow))
    → s.objects ≡ some table
    → Ends (λ x t. (t ≡ s) × (count.value ≡ s.object_capacity)) Any (admit_object_count count s)
unfolding admit_object_count refuse_here pure Ends
admit_object_count-planned count s table e =
    elim (Bool-cases (ltb s.limits.max_objects count.value)) [
      | inl over ↦ rw (over, admit_object_count) tt
      | inr fits ↦ elim (Bool-cases (count.value == s.object_capacity)) [
        | inr differs ↦ rw (fits, e, differs, admit_object_count) tt
        | inl same ↦ rw (fits, e, same, admit_object_count) (refl, ground (arith, same))
      ]
    ]

-- Nothing is asked of no row.
none_yet : {A : Type 0} (G : ℕ → A → Type 0) (table : List (Option A)) → Filled G 0 table
none_yet G table i h = absurd (omega (arith, h))

-- The tables that a part of the pass leaves.
abbrev TypeTable : Scan → Scan → Type 0
TypeTable s t =
    (table : List (Option TypeRow)) × (t.types ≡ some table)
    × Filled TypeAt t.view.type_count table
    × (t.objects ≡ s.objects)
    × (t.object_capacity ≡ s.object_capacity)

abbrev ObjectTable : Scan → Scan → Type 0
ObjectTable s t =
    (table : List (Option ObjectRow)) × (t.objects ≡ some table)
    × Filled (ObjectAt t.view.prefix.header t.view.type_count) t.view.object_count table
    × (t.types ≡ s.types)
    × (t.view.type_count ≡ s.view.type_count)

scan_type_table-fills :
    (s : Scan) (table : List (Option TypeRow))
    → s.types ≡ some table
    → length table ≡ s.type_capacity
    → Ends (λ x t. TypeTable s t) Any (scan_type_table s)
unfolding scan_type_table ◌>>=◌ set_field set_row modify_view get_position Ends
scan_type_table-fills s table e size =
    let T = tables s in
    let s1 = record s { field = Field.type_count; row_ordinal = size_max } in
    Ends-bind (λ a t. tables t ≡ T) _ _ (read_with read_count s1) _
      (Still-after T s1 (read_with read_count) (Still-read _) refl)
      (λ count t f.
        let t1 = record t { view = record t.view { type_count_source = count.source } } in
        Ends-bind _ _ _ (admit_type_count count t1) _
          (admit_type_count-planned count t1 table (ap (λ k. k.0) f ∙ e))
          (λ x u (g, planned).
            let u1 = record u { view = record u.view { type_count = count.value } } in
            Ends-bind _ _ _ (scan_types count.value 0 u1) _
              (scan_types-fills count.value 0 u1 table (ap (λ k. k.types) g ∙ ap (λ k. k.0) f ∙ e)
                (omega (arith, planned, size, ap (λ k. k.2) f)) (none_yet TypeAt table))
              (λ y w (table', h, filled, k, l, c). (
                table',
                h,
                subst (λ n. Filled TypeAt n table') (omega (arith, c)) filled,
                k ∙ ap (λ k. k.objects) g ∙ ap (λ k. k.1) f,
                l ∙ ap (λ k. k.object_capacity) g ∙ ap (λ k. k.3) f,
              ))))

scan_object_table-fills :
    (s : Scan) (table : List (Option ObjectRow))
    → s.objects ≡ some table
    → length table ≡ s.object_capacity
    → Ends (λ x t. ObjectTable s t) Any (scan_object_table s)
unfolding scan_object_table ◌>>=◌ set_field set_row modify_view get_position Ends
scan_object_table-fills s table e size =
    let T = tables s in
    let s1 = record s { field = Field.object_count; row_ordinal = size_max } in
    Ends-bind (λ a t. tables t ≡ T) _ _ (read_with read_count s1) _
      (Still-after T s1 (read_with read_count) (Still-read _) refl)
      (λ count t f.
        let t1 = record t { view = record t.view { object_count_source = count.source } } in
        Ends-bind _ _ _ (admit_object_count count t1) _
          (admit_object_count-planned count t1 table (ap (λ k. k.1) f ∙ e))
          (λ x u (g, planned).
            let u1 = record u {
              view = record u.view { object_count = count.value };
              field = Field.object_padding;
            } in
            let n = object_padding count.value u.reader.position in
            Ends-bind (λ a t. tables t ≡ tables u1) _ _ (read_with (take_span n) u1) _
              (Still-after (tables u1) u1 (read_with (take_span n)) (Still-read _) refl)
              (λ padding k d.
                let k1 = record k { view = record k.view { object_padding_source = padding } } in
                let G = ObjectAt k1.view.prefix.header k1.view.type_count in
                Ends-bind _ _ _ (scan_objects count.value 0 k1) _
                  (scan_objects-fills count.value 0 k1 table
                    (ap (λ k. k.1) d ∙ ap (λ k. k.objects) g ∙ ap (λ k. k.1) f ∙ e)
                    (omega (arith, planned, size, ap (λ k. k.3) f)) (none_yet G table))
                  (λ y w (table', h, filled, l, same). (
                    table',
                    h,
                    subst
                        (λ v. Filled (ObjectAt v.prefix.header v.type_count) v.object_count table')
                        (sym same)
                        (subst (λ j. Filled G j table') (omega (arith, ap (λ k. k.5) d)) filled),
                    l ∙ ap (λ k. k.0) d ∙ ap (λ k. k.types) g ∙ ap (λ k. k.0) f,
                    ap (λ v. v.type_count) same
                        ∙ ap (λ k. k.4) d
                        ∙ ap (λ k. k.view.type_count) g
                        ∙ ap (λ k. k.4) f,
                  )))))

-- After a pass into tables of the planned sizes.
pub record Full (t : Scan) : Type 0 where
  pub types : List (Option TypeRow)
  pub objects : List (Option ObjectRow)
  pub types_are : t.types ≡ some types
  pub objects_are : t.objects ≡ some objects
  pub types_filled : Filled TypeAt t.view.type_count types
  pub objects_filled :
      Filled (ObjectAt t.view.prefix.header t.view.type_count) t.view.object_count objects

pub scan_directory-Full :
    (s : Scan) (types : List (Option TypeRow)) (objects : List (Option ObjectRow))
    → s.types ≡ some types
    → s.objects ≡ some objects
    → length types ≡ s.type_capacity
    → length objects ≡ s.object_capacity
    → Ends (λ x t. Full t) Any (scan_directory s)
unfolding scan_directory ◌>>=◌ get_position modify_view Ends
scan_directory-Full s types objects e f n m =
    Ends-bind _ _ _ (scan_type_table s) _ (scan_type_table-fills s types e n)
      (λ x t (table, h, filled, k, l).
        Ends-bind _ _ _ (scan_object_table t) _
          (scan_object_table-fills t objects (k ∙ f) (omega (arith, m, l)))
          (λ y u (table', g, full, i, c). record {
            types = table;
            objects = table';
            types_are = i ∙ h;
            objects_are = g;
            types_filled = subst (λ j. Filled TypeAt j table) (sym c) filled;
            objects_filled = full;
          }))
