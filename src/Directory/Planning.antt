-- ===== src/Directory/Planning.antt =====
-- The storage plan: two tables in one allocation, and the charge for it.
use unity_common.Base.{
  ℕ, ◌+◌, ◌*◌, ◌%◌, ◌≤◌, ◌<◌, ◌≡◌, refl, ap, ◌∙◌, inl, inr, Option, none, some, arith, ltb,
  Bool-cases, Option-cases,
}
use unity_common.Base.Words.{size_max}
use unity_common.Common.{
  dxbc_size_add_overflows, dxbc_size_multiply_overflows, dxbc_size_multiply_overflows-fits,
}
use unity_common.Prefix.{no_offset}
use unity_common.Directory.{Field, Limits, View, Result}
use unity_common.Directory.Steps.{Failed}
use unity_common.Directory.Create.{plan_and_charge}
use unity_common.Directory.Checks.{
  Arguments, charge, append_array, Layout, append_objects, layout_of, check_layout, plan_storage,
  storage_bytes, type_row_bytes, object_row_bytes,
}
use unity_common.Directory.Attempts.{
  Ended, Ended-bind, Ended-map, Ended-pure, charge-Ended, with_work,
}

append_array_lem :
    (total count width offset total' : ℕ)
    → 0 < total
    → total ≤ size_max
    → append_array total 8 count width ≡ some (offset, total')
    → (offset % 8 ≡ 0) × (total ≤ offset) × (total' ≡ offset + count * width) × (total' ≤ size_max)
unfolding append_array dxbc_size_add_overflows
append_array_lem total count width offset total' h small e =
    elim (Bool-cases (dxbc_size_multiply_overflows count width)) [
      | inl over ↦ let d = rw over at e in absurd (ground (arith, d))
      | inr fits ↦
          let cw = count * width in
          let product : cw ≤ size_max = dxbc_size_multiply_overflows-fits count width fits in
          let d = rw fits at e in
          (
            ground (arith, d, small),
            ground (arith, d, small),
            ground (arith, d, product, small),
            ground (arith, d, product, small, h),
          )
    ]

-- The two tables stand behind the view in the allocation: aligned, apart, and inside it.
pub record LaidOut (view : View) (l : Layout) : Type 0 where
  pub types_aligned : l.types_offset % 8 ≡ 0
  pub objects_aligned : l.objects_offset % 8 ≡ 0
  pub behind_view : storage_bytes ≤ l.types_offset
  pub apart : l.types_offset + view.type_count * type_row_bytes ≤ l.objects_offset
  pub inside : l.objects_offset + view.object_count * object_row_bytes ≡ l.total_bytes
  pub representable : l.total_bytes ≤ size_max

-- A storage plan that is found lays the tables out so.
pub layout_of-LaidOut : (view : View) (l : Layout) → layout_of view ≡ some l → LaidOut view l
unfolding layout_of
layout_of-LaidOut view l e =
    elim (Option-cases (append_array storage_bytes 8 view.type_count type_row_bytes)) [
      | inl f ↦ (let d = rw f at e in absurd (ground (arith, d)))
      | inr ((types_offset, total), f) ↦
          elim (Option-cases (append_array total 8 view.object_count object_row_bytes)) [
            | inl g ↦ (let d = rw (f, append_objects, g) at e in absurd (ground (arith, d)))
            | inr ((objects_offset, total'), g) ↦
                let d = rw (f, append_objects, g) at e in
                let first =
                  append_array_lem storage_bytes view.type_count type_row_bytes types_offset total
                    (omega arith) (omega arith) f in
                let second =
                  append_array_lem total view.object_count object_row_bytes objects_offset total'
                    (omega (arith, first.1, first.2)) first.3 g in
                let types : types_offset ≡ l.types_offset = ground (arith, d) in
                let objects : objects_offset ≡ l.objects_offset = ground (arith, d) in
                let whole : total' ≡ l.total_bytes = ground (arith, d) in
                record {
                  types_aligned = rw (← types) first.0;
                  objects_aligned = rw (← objects) second.0;
                  behind_view = omega (arith, first.1, types);
                  apart = omega (arith, first.2, second.1, types, objects);
                  inside = omega (arith, second.2, objects, whole);
                  representable = omega (arith, second.3, whole);
                }
          ]
    ]

-- A storage plan with its charge.
pub record Planned (a : Arguments) (view : View) (total : ℕ) (r q : Result) : Type 0 where
  pub layout : Layout
  pub found : layout_of view ≡ some layout
  pub size : total ≡ layout.total_bytes
  pub limit : total ≤ a.limits.max_retained_bytes
  pub result : q ≡ record r { work_used = r.work_used + 1 + total; required_retained_bytes = total }
  pub work : q.work_used ≤ a.limits.max_work

check_layout-Ended :
    (max_work : ℕ) (limits : Limits) (o : Option Layout) (r : Result)
    → r.work_used ≤ max_work
    → Ended
        (λ l q.
          (o ≡ some l)
          × (q ≡ record r { required_retained_bytes = l.total_bytes })
          × (l.total_bytes ≤ limits.max_retained_bytes))
        (Failed max_work)
        (check_layout limits o r)
unfolding check_layout Ended
check_layout-Ended max_work limits none r h = (λ s. ground (arith, s), h)
check_layout-Ended max_work limits (some l) r h =
    elim (Bool-cases (ltb limits.max_retained_bytes l.total_bytes)) [
      | inl e ↦ rw e (λ s. ground (arith, s), h)
      | inr e ↦ rw e (refl, refl, ground (arith, e))
    ]

plan_storage-Ended :
    (a : Arguments) (view : View) (r : Result)
    → r.work_used ≤ a.limits.max_work
    → Ended
        (λ l q.
          (layout_of view ≡ some l)
          × (q ≡ record r { work_used = r.work_used + 1; required_retained_bytes = l.total_bytes })
          × (l.total_bytes ≤ a.limits.max_retained_bytes)
          × (q.work_used ≤ a.limits.max_work))
        (Failed a.limits.max_work)
        (plan_storage view a.limits r)
unfolding plan_storage
plan_storage-Ended a view r h =
    Ended-bind _ _ _ (charge a.limits 1 Field.no_field no_offset) _ r
      (charge-Ended a.limits 1 Field.no_field no_offset r h)
      (λ u q (e, w).
        Ended-map _ _ _ (check_layout a.limits (layout_of view) q)
          (check_layout-Ended a.limits.max_work a.limits (layout_of view) q
            (omega (arith, w, ap (λ k. k.work_used) e)))
          (λ l p (found, g, fits). (
            found,
            g ∙ ap (λ (k : Result). record k { required_retained_bytes = l.total_bytes }) e,
            fits,
            omega (arith, w, ap (λ k. k.work_used) e, ap (λ k. k.work_used) g),
          )))

pub plan_and_charge-Ended :
    (a : Arguments) (view : View) (r : Result)
    → r.work_used ≤ a.limits.max_work
    → Ended
        (λ total q. Planned a view total r q)
        (Failed a.limits.max_work)
        (plan_and_charge a view r)
unfolding plan_and_charge
plan_and_charge-Ended a view r h =
    Ended-bind _ _ _ (plan_storage view a.limits) _ r (plan_storage-Ended a view r h)
      (λ l q (found, e, fits, w).
        Ended-bind _ _ _ (charge a.limits l.total_bytes Field.no_field no_offset) _ q
          (charge-Ended a.limits l.total_bytes Field.no_field no_offset q w)
          (λ u p (g, room). Ended-pure _ _ l.total_bytes p (record {
            layout = l;
            found = found;
            size = refl;
            limit = fits;
            result = g ∙ ap (with_work l.total_bytes) e;
            work = omega (arith, room, ap (λ k. k.work_used) g);
          })))
