-- ===== src/Prefix/Coordinates.antt =====
-- The published header view: its coordinates tile the slice, and the result's cost.
use unity_common.Base.{
  ℕ, ◌+◌, ◌-◌, ◌≤◌, ◌<◌, ◌≡◌, ◌≢◌, ◌↔◌, refl, ◌⊎◌, inl, inr, true, none, some, arith, le→ltb,
  Bool-cases,
}
use unity_common.Base.Words.{Bytes, size_max}
use unity_common.Prefix.{
  Status, HeaderView, PrefixWork, Checked, good, stop, Answer, Result, answer, query_result,
  no_offset, charge, charge_work, valid_mapping_argument, storage_overlaps, at, read_be32,
  read_be64, header_view, query_header, publish_header, serialized_file_header_query,
  v22_header_size,
}

-- The checks of `query_header`, in the words of its contract.
pub record HeaderFits (bytes : Bytes) (mapped_size logical_size max_work : ℕ) : Type 0 where
  pub mapped : v22_header_size ≤ mapped_size
  pub logical : v22_header_size ≤ logical_size
  pub work : v22_header_size ≤ max_work
  pub version : read_be32 bytes 8 ≡ 22
  pub endian : at bytes 40 ≤ 1
  pub declared : read_be64 bytes 24 ≡ logical_size
  pub metadata_inside : v22_header_size + read_be64 bytes 16 ≤ read_be64 bytes 32
  pub data_inside : read_be64 bytes 32 ≤ logical_size
  pub no_wrap : read_be64 bytes 16 ≤ size_max - v22_header_size

module _ (bytes : Bytes) (mapped_size logical_size max_work : ℕ) where
  pub header_of : HeaderView
  header_of =
      header_view (read_be32 bytes 8) (read_be64 bytes 16) (read_be64 bytes 24) (read_be64 bytes 32)
        (at bytes 40)

  pub query_header-accepts :
      HeaderFits bytes mapped_size logical_size max_work
      → query_header bytes mapped_size logical_size (record { maximum = max_work; used = 0 })
        ≡ good (record { maximum = max_work; used = 48 }, header_of)
  unfolding query_header charge charge_work header_of
  query_header-accepts h = ground arith

  pub query_header-fits :
      (work : PrefixWork) (header : HeaderView)
      → query_header bytes mapped_size logical_size (record { maximum = max_work; used = 0 })
        ≡ good (work, header)
      → HeaderFits bytes mapped_size logical_size max_work
  unfolding query_header charge charge_work
  query_header-fits work header e = ground arith

-- The ranges of a view, end to end: header, metadata, gap, data, and the slice is used up.
pub record Tiles (h : HeaderView) (logical_size : ℕ) : Type 0 where
  pub metadata_at : h.metadata.offset ≡ v22_header_size
  pub gap_at : h.metadata_to_data_gap.offset ≡ h.metadata.offset + h.metadata.size
  pub data_at : h.payload.offset ≡ h.metadata_to_data_gap.offset + h.metadata_to_data_gap.size
  pub end_at : h.payload.offset + h.payload.size ≡ logical_size
  pub file_size : h.file_size ≡ logical_size
  pub data_offset : h.data_offset ≡ h.payload.offset

-- The ten spans of a view lie in the mapped bytes.
pub record SpansMapped (h : HeaderView) (mapped_size : ℕ) : Type 0 where
  pub header_source : h.header_source.offset + h.header_source.size ≤ mapped_size
  pub legacy_metadata_size_source :
      h.legacy_metadata_size_source.offset + h.legacy_metadata_size_source.size ≤ mapped_size
  pub legacy_file_size_source :
      h.legacy_file_size_source.offset + h.legacy_file_size_source.size ≤ mapped_size
  pub format_version_source :
      h.format_version_source.offset + h.format_version_source.size ≤ mapped_size
  pub legacy_data_offset_source :
      h.legacy_data_offset_source.offset + h.legacy_data_offset_source.size ≤ mapped_size
  pub metadata_size_source :
      h.metadata_size_source.offset + h.metadata_size_source.size ≤ mapped_size
  pub file_size_source : h.file_size_source.offset + h.file_size_source.size ≤ mapped_size
  pub data_offset_source : h.data_offset_source.offset + h.data_offset_source.size ≤ mapped_size
  pub endian_selector_source :
      h.endian_selector_source.offset + h.endian_selector_source.size ≤ mapped_size
  pub opaque_source : h.opaque_source.offset + h.opaque_source.size ≤ mapped_size

pub header_of-Tiles :
    (bytes : Bytes) (mapped_size logical_size max_work : ℕ)
    → HeaderFits bytes mapped_size logical_size max_work
    → Tiles (header_of bytes mapped_size logical_size max_work) logical_size
      × SpansMapped (header_of bytes mapped_size logical_size max_work) mapped_size
unfolding header_of header_view
header_of-Tiles bytes mapped_size logical_size max_work h = (omega arith, omega arith)

pub query_header-stop :
    (bytes : Bytes) (mapped_size logical_size max_work : ℕ) (r : Result)
    → query_header bytes mapped_size logical_size (record { maximum = max_work; used = 0 }) ≡ stop r
    → (r.status ≢ Status.ok) × (r.work_used ≤ max_work)
unfolding charge charge_work query_header
query_header-stop bytes mapped_size logical_size max_work r e = (λ s. ground arith, ground arith)

publish_header-accepts :
    (bytes : Bytes) (mapped_size logical_size max_work : ℕ)
    → HeaderFits bytes mapped_size logical_size max_work
    → 49 ≤ max_work
    → publish_header bytes mapped_size logical_size max_work
      ≡ good (
        record { maximum = max_work; used = 49 },
        header_of bytes mapped_size logical_size max_work,
      )
unfolding publish_header charge charge_work
publish_header-accepts bytes mapped_size logical_size max_work h w =
    rw
      (
        query_header-accepts bytes mapped_size logical_size max_work h,
        le→ltb (max_work - 48) 1 (omega arith),
      )
      refl

publish_header-fits :
    (bytes : Bytes) (mapped_size logical_size max_work : ℕ)
    → (answer (publish_header bytes mapped_size logical_size max_work)).result.status ≡ Status.ok
    → HeaderFits bytes mapped_size logical_size max_work × (49 ≤ max_work)
unfolding publish_header charge charge_work query_header
publish_header-fits bytes mapped_size logical_size max_work e = (ground arith, ground arith)

publish_header-stop :
    (bytes : Bytes) (mapped_size logical_size max_work : ℕ) (r : Result)
    → publish_header bytes mapped_size logical_size max_work ≡ stop r
    → (r.status ≢ Status.ok) × (r.work_used ≤ max_work)
unfolding publish_header charge charge_work query_header
publish_header-stop bytes mapped_size logical_size max_work r e = (λ s. ground arith, ground arith)

pub Checked-cases {ℓ} :
    {A : Type ℓ} (c : Checked A) → ((a : A) × (c ≡ good a)) ⊎ ((r : Result) × (c ≡ stop r))
Checked-cases (good a) = inl (a, refl)
Checked-cases (stop r) = inr (r, refl)

-- The arguments that a query admits: an output, a mapping with an address unless it is empty, not above the
-- slice, and no byte of both the mapping and the output.
pub record IsMapping (address mapped_size logical_size output output_size : ℕ) : Type 0 where
  pub has_output : output ≢ 0
  pub has_address : (address ≢ 0) ⊎ (mapped_size ≡ 0)
  pub inside : mapped_size ≤ logical_size
  pub apart :
      (mapped_size ≡ 0) ⊎ ((address + mapped_size ≤ output) ⊎ (output + output_size ≤ address))

module _ (address mapped_size logical_size output output_size : ℕ)
    (some_output : 0 < output_size) where
  valid_mapping_argument-IsMapping :
      valid_mapping_argument address mapped_size logical_size output output_size ≡ true
      → IsMapping address mapped_size logical_size output output_size
  unfolding valid_mapping_argument storage_overlaps
  valid_mapping_argument-IsMapping h = record {
    has_output = λ e. ground (arith, h, e);
    has_address = ground (arith, h);
    inside = ground (arith, h);
    apart = ground (arith, h);
  }

  IsMapping-valid :
      IsMapping address mapped_size logical_size output output_size
      → valid_mapping_argument address mapped_size logical_size output output_size ≡ true
  unfolding valid_mapping_argument storage_overlaps
  IsMapping-valid m = ground (arith, m.has_output, m.has_address, m.inside, m.apart)

module _ (address : ℕ) (bytes : Bytes) (mapped_size logical_size max_work out_header : ℕ) where
  abbrev pub header_answer : Answer HeaderView
  header_answer =
      serialized_file_header_query address bytes mapped_size logical_size max_work out_header

  pub record Admitted : Type 0 where
    pub arguments : IsMapping address mapped_size logical_size out_header 328
    pub fits : HeaderFits bytes mapped_size logical_size max_work
    pub publication : 49 ≤ max_work

  -- The query succeeds exactly where there is an output, the mapping has an address or is empty, is not
  -- above the slice and shares no byte with the output, the header passes every check of its
  -- contract, and the work is enough for 49 units.
  pub header_query-ok_iff : (header_answer.result.status ≡ Status.ok) ↔ Admitted
  unfolding serialized_file_header_query
  header_query-ok_iff = (
    λ e.
        elim (Bool-cases (valid_mapping_argument address mapped_size logical_size out_header 328)) [
          | inl valid ↦
              let (fits, room) =
                publish_header-fits bytes mapped_size logical_size max_work (rw valid at e) in
              record {
                arguments = valid_mapping_argument-IsMapping _ _ _ _ _ (omega arith) valid;
                fits = fits;
                publication = room;
              }
          | inr invalid ↦ let e' : Status.invalid_argument ≡ Status.ok = rw invalid at e in cc
        ],
    λ a.
        rw
          (
            IsMapping-valid address mapped_size logical_size out_header 328 (omega arith)
                a.arguments,
            publish_header-accepts bytes mapped_size logical_size max_work a.fits a.publication,
          )
          refl,
  )

  -- A query publishes a view or fails. A view tiles the slice with its ranges, has its spans in the
  -- mapped bytes, and costs 49 units. A failure publishes nothing, and charges no more than allowed.
  pub header_query-outcome :
      ((h : HeaderView) × (header_answer
          ≡ record { result = query_result Status.ok 49 no_offset; published = some h })
        × Tiles h logical_size
        × SpansMapped h mapped_size)
      ⊎ ((header_answer.result.status ≢ Status.ok)
          × (header_answer.published ≡ none)
          × (header_answer.result.work_used ≤ max_work))
  unfolding serialized_file_header_query
  header_query-outcome =
      elim (Bool-cases (valid_mapping_argument address mapped_size logical_size out_header 328)) [
        | inr invalid ↦ inr (rw invalid (λ s. cc), rw invalid refl, rw invalid (omega arith))
        | inl valid ↦
            elim (Checked-cases (publish_header bytes mapped_size logical_size max_work)) [
              | inr (r, e) ↦
                  let (bad, cost) =
                    publish_header-stop bytes mapped_size logical_size max_work r e in
                  inr (rw (valid, e) bad, rw (valid, e) refl, rw (valid, e) cost)
              | inl (p, e) ↦
                  let (fits, room) =
                    publish_header-fits bytes mapped_size logical_size max_work (rw e refl) in
                  let (tiles, spans) =
                    header_of-Tiles bytes mapped_size logical_size max_work fits in
                  inl (
                    header_of bytes mapped_size logical_size max_work,
                    rw
                        (
                          valid,
                          publish_header-accepts bytes mapped_size logical_size max_work fits room,
                        )
                        refl,
                    tiles,
                    spans,
                  )
            ]
      ]
