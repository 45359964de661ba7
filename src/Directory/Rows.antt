-- ===== src/Directory/Rows.antt =====
-- The loops over the rows in the second pass: each row goes to the place of its ordinal.
use unity_common.Base.{
  ℕ, zero, suc, ◌+◌, ◌-◌, ◌≤◌, ◌<◌, ◌≡◌, refl, sym, ap, subst, ◌∙◌, inl, inr, Bool, true, false,
  not, Option, none, some, List, arith, ltb, leb, ◌==◌, Bool-cases, length,
}
use unity_common.Base.Words.{Bytes}
use unity_common.Prefix.{HeaderView, Span}
use unity_common.MetadataReader.{Reader, take_span, read_type_prefix}
use unity_common.Directory.{Field, TypeRow, ObjectRow, View, Result, Scan}
use unity_common.Directory.Scanner.{
  set_at, store_row, type_row, tree_part, write_type, write_object, scan_type, admit_object,
  object_row, scan_object, scan_types, scan_objects,
}
use unity_common.Directory.Stepping.{
  ◌>>=◌, pure, get_view, get_bytes, get_position, set_field, set_row, refuse, after_charge, charge,
  after_read, read_with,
}
use unity_common.Directory.Steps.{Ends, Ends-bind, Ends-map}
use unity_common.Directory.Tables.{
  Filled, length-set_at, Filled-set_at, tables, Any, Still-after, Still-read, Still-charge,
  Still-tree_part,
}

-- A row of the types keeps its ordinal.
abbrev pub TypeAt : ℕ → TypeRow → Type 0
TypeAt i row = row.ordinal ≡ i

-- A row of the objects keeps its ordinal, names a type of the table, and lies in the data region.
pub record ObjectAt (header : HeaderView) (type_count i : ℕ) (row : ObjectRow) : Type 0 where
  pub ordinal : row.ordinal ≡ i
  pub has_type : row.type_ordinal < type_count
  pub from_data : header.data_offset ≤ row.payload.offset
  pub in_data :
      row.payload.offset + row.payload.size
      ≤ header.data_offset + (header.file_size - header.data_offset)

scan_type-writes :
    (ordinal : ℕ) (s : Scan)
    → Ends
        (λ x t.
          (row : TypeRow) × TypeAt ordinal row
          × (tables t ≡ (
            store_row ordinal row s.types,
            s.objects,
            s.type_capacity,
            s.object_capacity,
            s.view.type_count,
            s.view.object_count,
          )))
        Any
        (scan_type ordinal s)
unfolding scan_type ◌>>=◌ set_field set_row get_position get_view write_type Ends
scan_type-writes ordinal s =
    let T = tables s in
    let s1 = record s { field = Field.type_entry; row_ordinal = ordinal } in
    Ends-bind (λ a t. tables t ≡ T) _ _ (read_with read_type_prefix s1) _
      (Still-after T s1 (read_with read_type_prefix) (Still-read _) refl)
      (λ prefix t e.
        let has_tree = not (t.view.prefix.type_tree_enabled_raw == 0) in
        Ends-bind (λ a t. tables t ≡ T) _ _ (tree_part has_tree t) _
          (Still-after T t (tree_part has_tree) (Still-tree_part has_tree) e)
          (λ part u f.
            Ends-bind (λ a t. tables t ≡ T) _ _
              (charge 1 Field.type_entry ordinal s.reader.position u) _
              (Still-after T u (charge 1 Field.type_entry ordinal s.reader.position)
                (Still-charge _ _ _ _) f)
              (λ x w g.
                let row =
                  type_row ordinal s.reader.position w.reader.position prefix has_tree part in
                (row, refl, ap (λ k. (store_row ordinal row k.0, k.1, k.2, k.3, k.4, k.5)) g))))

-- The tables and the view of a scan.
abbrev held : Scan → (Option (List (Option TypeRow)) × Option (List (Option ObjectRow))) × View
held s = ((s.types, s.objects), s.view)

after_read-held :
    {A : Type 0} (s : Scan) (x : Option A × Reader)
    → Ends (λ a t. held t ≡ held s) Any (after_read s x)
unfolding after_read Ends
after_read-held s (some a, r) = refl
after_read-held s (none, r) = tt

after_charge-held :
    (s : Scan) (x : Bool × Result) → Ends (λ a t. held t ≡ held s) Any (after_charge s x)
unfolding after_charge Ends
after_charge-held s (true, r) = refl
after_charge-held s (false, r) = tt

-- What an admitted object fulfils.
abbrev Fits : HeaderView → ℕ → ObjectRow → Type 0
Fits header type_count row =
    (row.relative_data_offset ≤ header.file_size - header.data_offset)
    × (row.byte_size ≤ header.file_size - header.data_offset - row.relative_data_offset)
    × (row.type_ordinal < type_count)

admit_object-Fits :
    (header : HeaderView) (type_count : ℕ) (row : ObjectRow) (s : Scan)
    → Ends
        (λ x t. (held t ≡ held s) × Fits header type_count row)
        Any
        (admit_object header type_count row s)
unfolding admit_object refuse pure Ends
admit_object-Fits header type_count row s =
    elim (Bool-cases (ltb (header.file_size - header.data_offset) row.relative_data_offset)) [
      | inl a ↦ rw (a, admit_object) tt
      | inr a ↦
          elim (Bool-cases (
            ltb (header.file_size - header.data_offset - row.relative_data_offset) row.byte_size)) [
              | inl b ↦ rw (a, b, admit_object) tt
              | inr b ↦ elim (Bool-cases (leb type_count row.type_ordinal)) [
                | inl c ↦ rw (a, b, c, admit_object) tt
                | inr c ↦
                    rw (a, b, c, admit_object)
                      (refl, (ground (arith, a), ground (arith, b), ground (arith, c)))
              ]
            ]
    ]

object_row-ObjectAt :
    (bytes : Bytes) (header : HeaderView) (type_count ordinal : ℕ) (source : Span)
    → Fits header type_count (object_row bytes header ordinal source)
    → ObjectAt header type_count ordinal (object_row bytes header ordinal source)
object_row-ObjectAt bytes header type_count ordinal source (a, b, c) = record {
  ordinal = refl;
  has_type = c;
  from_data = omega arith;
  in_data = omega (arith, a, b);
}

scan_object-writes :
    (ordinal : ℕ) (s : Scan)
    → Ends
        (λ x t.
          (row : ObjectRow) × ObjectAt s.view.prefix.header s.view.type_count ordinal row
          × (held t ≡ ((s.types, store_row ordinal row s.objects), s.view)))
        Any
        (scan_object ordinal s)
unfolding scan_object ◌>>=◌ set_field set_row get_bytes get_view write_object read_with charge Ends
scan_object-writes ordinal s =
    let H = held s in
    let s1 = record s { field = Field.object_entry; row_ordinal = ordinal } in
    Ends-bind (λ a t. held t ≡ H) _ _ (after_read s1 (take_span 24 s1.reader)) _
      (after_read-held s1 (take_span 24 s1.reader))
      (λ source t e.
        let row = object_row t.reader.bytes t.view.prefix.header ordinal source in
        Ends-bind (λ x u. (held u ≡ held t) × Fits t.view.prefix.header t.view.type_count row) _ _
          (admit_object t.view.prefix.header t.view.type_count row t) _
          (admit_object-Fits t.view.prefix.header t.view.type_count row t)
          (λ x u (f, fits).
            Ends-bind (λ a w. held w ≡ held u) _ _
              (charge 1 Field.object_entry ordinal source.offset u) _ (after_charge-held u _)
              (λ y w g. (
                row,
                subst (λ v. ObjectAt v.prefix.header v.type_count ordinal row) (ap (λ k. k.1) e)
                    (object_row-ObjectAt t.reader.bytes t.view.prefix.header t.view.type_count
                      ordinal source fits),
                ap (λ k. ((k.0.0, store_row ordinal row k.0.1), k.1)) (g ∙ f ∙ e),
              ))))

-- What the loop over the types leaves.
abbrev pub TypesFilled : ℕ → Scan → Scan → Type 0
TypesFilled n s t =
    (table : List (Option TypeRow)) × (t.types ≡ some table)
    × Filled TypeAt n table
    × (t.objects ≡ s.objects)
    × (t.object_capacity ≡ s.object_capacity)
    × (t.view.type_count ≡ s.view.type_count)

pub scan_types-fills :
    (n ordinal : ℕ) (s : Scan) (table : List (Option TypeRow))
    → s.types ≡ some table
    → ordinal + n ≤ length table
    → Filled TypeAt ordinal table
    → Ends (λ x t. TypesFilled (ordinal + n) s t) Any (scan_types n ordinal s)
unfolding scan_types ◌>>=◌ pure Ends
scan_types-fills zero ordinal s table e room filled =
    (table, e, subst (λ k. Filled TypeAt k table) (omega arith) filled, refl, refl, refl)
scan_types-fills (suc n) ordinal s table e room filled =
    Ends-bind _ _ _ (scan_type ordinal s) _ (scan_type-writes ordinal s) (λ x t (row, g, f).
      let next = set_at ordinal (some row) table in
      Ends-map _ _ _ _ (scan_types n (ordinal + 1) t)
        (scan_types-fills n (ordinal + 1) t next (ap (λ k. k.0) f ∙ ap (store_row ordinal row) e)
          (omega (arith, room, length-set_at ordinal (some row) table))
          (Filled-set_at TypeAt ordinal row table filled (omega (arith, room)) g))
        (λ y u (table', h, filled', k, l, c). (
          table',
          h,
          subst (λ j. Filled TypeAt j table') (omega arith) filled',
          k ∙ ap (λ k. k.1) f,
          l ∙ ap (λ k. k.3) f,
          c ∙ ap (λ k. k.4) f,
        ))
        (λ r b. b))

-- What the loop over the objects leaves.
abbrev pub ObjectsFilled : ℕ → Scan → Scan → Type 0
ObjectsFilled n s t =
    (table : List (Option ObjectRow)) × (t.objects ≡ some table)
    × Filled (ObjectAt s.view.prefix.header s.view.type_count) n table
    × (t.types ≡ s.types)
    × (t.view ≡ s.view)

pub scan_objects-fills :
    (n ordinal : ℕ) (s : Scan) (table : List (Option ObjectRow))
    → s.objects ≡ some table
    → ordinal + n ≤ length table
    → Filled (ObjectAt s.view.prefix.header s.view.type_count) ordinal table
    → Ends (λ x t. ObjectsFilled (ordinal + n) s t) Any (scan_objects n ordinal s)
unfolding scan_objects ◌>>=◌ pure Ends
scan_objects-fills zero ordinal s table e room filled = (
  table,
  e,
  subst (λ k. Filled (ObjectAt s.view.prefix.header s.view.type_count) k table) (omega arith)
      filled,
  refl,
  refl,
)
scan_objects-fills (suc n) ordinal s table e room filled =
    let G = ObjectAt s.view.prefix.header s.view.type_count in
    Ends-bind _ _ _ (scan_object ordinal s) _ (scan_object-writes ordinal s) (λ x t (row, g, f).
      let view : t.view ≡ s.view = ap (λ k. k.1) f in
      let next = set_at ordinal (some row) table in
      Ends-map _ _ _ _ (scan_objects n (ordinal + 1) t)
        (scan_objects-fills n (ordinal + 1) t next
          (ap (λ k. k.0.1) f ∙ ap (store_row ordinal row) e)
          (omega (arith, room, length-set_at ordinal (some row) table))
          (subst (λ v. Filled (ObjectAt v.prefix.header v.type_count) (ordinal + 1) next) (sym view)
            (Filled-set_at G ordinal row table filled (omega (arith, room)) g)))
        (λ y u (table', h, filled', k, l). (
          table',
          h,
          subst (λ v. Filled (ObjectAt v.prefix.header v.type_count) (ordinal + suc n) table') view
              (subst (λ j. Filled (ObjectAt t.view.prefix.header t.view.type_count) j table')
                (omega arith) filled'),
          k ∙ ap (λ k. k.0.0) f,
          l ∙ view,
        ))
        (λ r b. b))
