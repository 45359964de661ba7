-- ===== src/MetadataReader/Take.antt =====
-- What one checked step of the cursor does, on each of its branches.
use unity_common.Base.{
  ℕ, ◌+◌, ◌-◌, ◌≤◌, ◌≡◌, ◌⊎◌, inl, inr, ◌&&◌, none, some, arith, ltb, leb, if◌then◌else◌,
  Bool-cases,
}
use unity_common.MetadataReader.{
  Status, Reader, ◌>>=◌, reject_reader, admit_extent, consume_span, take_span,
}

-- What the callers establish, and every checked step keeps.
pub record IsReader (r : Reader) : Type 0 where
  pub origin : r.byte_budget_origin ≤ r.position
  pub in_metadata : r.position ≤ r.metadata_end
  pub in_mapping : r.position ≤ r.mapped_size
  pub in_budget : r.position - r.byte_budget_origin ≤ r.max_bytes
  pub in_work : r.work_used ≤ r.max_work

-- The room that a step of `width` bytes needs.
pub record HasRoom (r : Reader) (width : ℕ) : Type 0 where
  pub metadata : r.position + width ≤ r.metadata_end
  pub mapping : r.position + width ≤ r.mapped_size
  pub budget : r.position - r.byte_budget_origin + width ≤ r.max_bytes
  pub work : r.work_used + width ≤ r.max_work

abbrev pub moved : Reader → ℕ → Reader
moved r width = record r { work_used = r.work_used + width; position = r.position + width }

-- The first check that fails names the status and the offset.
abbrev pub refusal : Reader → ℕ → Status × ℕ
refusal r width =
    if ltb r.metadata_end (r.position + width)
    then (Status.metadata_end, r.metadata_end)
    else if ltb r.mapped_size (r.position + width)
    then (Status.mapping_end, r.mapped_size)
    else if ltb r.max_bytes (r.position - r.byte_budget_origin + width)
    then (Status.byte_limit, r.position)
    else (Status.work_limit, r.position)

module _ (r : Reader) (width : ℕ) (valid : IsReader r) where
  -- With room a take hands out the next `width` bytes and pays for each.
  pub take_span-room :
      HasRoom r width
      → take_span width r ≡ (some (record { offset = r.position; size = width }), moved r width)
  unfolding take_span admit_extent consume_span ◌>>=◌ reject_reader
  take_span-room h = ground arith

  -- Without, it moves nothing and pays nothing.
  pub take_span-refused :
      ¬ HasRoom r width
      → take_span width r
        ≡ (none, record r { status = (refusal r width).0; error_offset = (refusal r width).1 })
  unfolding take_span admit_extent consume_span ◌>>=◌ reject_reader
  take_span-refused h = ground arith

  HasRoom-cases : HasRoom r width ⊎ (¬ HasRoom r width)
  HasRoom-cases =
      elim (Bool-cases (
        (leb (r.position + width) r.metadata_end && leb (r.position + width) r.mapped_size)
        && (leb (r.position - r.byte_budget_origin + width) r.max_bytes
            && leb (r.work_used + width) r.max_work))) [
              | inl e ↦ inl (record {
                metadata = ground arith;
                mapping = ground arith;
                budget = ground arith;
                work = ground arith;
              })
              | inr e ↦ inr (λ h. ground arith)
            ]

  -- A take of a valid reader: with room in the declared metadata, the mapping, the byte budget and
  -- the work, it hands out the next `width` bytes and pays for each; without, it moves nothing, pays
  -- nothing, and reports the first of these that is short.
  pub take_span_lem :
      (HasRoom r width
        × (take_span width r
            ≡ (some (record { offset = r.position; size = width }), moved r width)))
      ⊎ (¬ HasRoom r width
          × (take_span width r ≡ (
            none,
            record r { status = (refusal r width).0; error_offset = (refusal r width).1 },
          )))
  take_span_lem = elim HasRoom-cases [
    | inl h ↦ inl (h, take_span-room h)
    | inr h ↦ inr (h, take_span-refused h)
  ]
