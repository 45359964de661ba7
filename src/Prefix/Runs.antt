-- ===== src/Prefix/Runs.antt =====
-- Runs of the two queries on one small file, and their theorems on it.
use unity_common.Base.{
  ℕ, ◌+◌, ◌*◌, ◌^◌, ◌≤◌, ◌≡◌, ◌≢◌, ◌↔◌, refl, ◌⊎◌, Option, none, some, [], ◌∷◌, arith, take, drop,
}
use unity_common.Base.Words.{Bytes}
use unity_common.Base.Words.{big_endian}
use unity_common.Prefix.{
  Status, query_result, Limits, Answer, HeaderView, no_offset, serialized_file_header_query,
  serialized_file_prefix_query, charge, charge_work, query_header, read_be64, read_be32,
  require_metadata_bytes, scan_checks, scan_version, query_tail, tail_view, header_view,
  storage_overlaps, valid_mapping_argument, publish_prefix, PrefixView,
}
use unity_common.Prefix.Coordinates.{
  Admitted, header_answer, header_query-ok_iff, header_query-outcome, Tiles, SpansMapped,
}
use unity_common.Prefix.Outcome.{PrefixEnds, prefix_answer, prefix_query-ends}
use unity_common.Prefix.Integers.{read_be64-big_endian}

-- Version "2021", 14 bytes of metadata, a gap of 2 bytes, data at 64, file size 70.
abbrev file : Bytes
file =
    0 ∷ 0 ∷ 0 ∷ 0 ∷ 0 ∷ 0 ∷ 0 ∷ 0 ∷ 0 ∷ 0 ∷ 0 ∷ 22 ∷ 0 ∷ 0 ∷ 0 ∷ 0 ∷ 0 ∷ 0 ∷ 0 ∷ 0 ∷ 0 ∷ 0 ∷ 0 ∷ 14
    ∷ 0 ∷ 0 ∷ 0 ∷ 0 ∷ 0 ∷ 0 ∷ 0 ∷ 70 ∷ 0 ∷ 0 ∷ 0 ∷ 0 ∷ 0 ∷ 0 ∷ 0 ∷ 64 ∷ 0 ∷ 0 ∷ 0 ∷ 0 ∷ 0 ∷ 0 ∷ 0
    ∷ 0 ∷ 50 ∷ 48 ∷ 50 ∷ 49 ∷ 0 ∷ 19 ∷ 0 ∷ 0 ∷ 0 ∷ 1 ∷ []

abbrev limits : Limits
limits = record { max_version_bytes = 16; max_work = 100 }

header_query_runs :
    (header_answer 4096 file 58 70 49 9000).result ≡ query_result Status.ok 49 no_offset
unfolding serialized_file_header_query charge charge_work query_header header_view
    valid_mapping_argument read_be32 read_be64
header_query_runs = refl

header_query_needs_work :
    (header_answer 4096 file 58 70 48 9000).result ≡ query_result Status.work_limit 48 no_offset
unfolding serialized_file_header_query charge charge_work query_header header_view
    valid_mapping_argument read_be32 read_be64
header_query_needs_work = refl

abbrev spent : Option (Answer PrefixView) → ℕ
spent none = 0
spent (some a) = a.result.work_used

prefix_query_runs : spent (prefix_answer 4096 file 58 70 8000 limits 9000) ≡ 59
unfolding serialized_file_prefix_query publish_prefix charge charge_work query_header header_view
    valid_mapping_argument read_be32 read_be64 storage_overlaps scan_checks scan_version query_tail
    tail_view require_metadata_bytes
prefix_query_runs = refl

-- The version's NUL is not mapped.
prefix_query_cut : spent (prefix_answer 4096 (take 50 file) 50 70 8000 limits 9000) ≡ 50
unfolding serialized_file_prefix_query publish_prefix charge charge_work query_header header_view
    valid_mapping_argument read_be32 read_be64 storage_overlaps scan_checks scan_version query_tail
    tail_view require_metadata_bytes
prefix_query_cut = refl

header_query-ok_iff_example :
    ((header_answer 4096 file 58 70 49 9000).result.status ≡ Status.ok)
    ↔ Admitted 4096 file 58 70 49 9000
header_query-ok_iff_example = header_query-ok_iff 4096 file 58 70 49 9000

header_query-outcome_example :
    ((h : HeaderView) × (header_answer 4096 file 58 70 49 9000
        ≡ record { result = query_result Status.ok 49 no_offset; published = some h })
      × Tiles h 70
      × SpansMapped h 58)
    ⊎ (((header_answer 4096 file 58 70 49 9000).result.status ≢ Status.ok)
        × ((header_answer 4096 file 58 70 49 9000).published ≡ none)
        × ((header_answer 4096 file 58 70 49 9000).result.work_used ≤ 49))
header_query-outcome_example = header_query-outcome 4096 file 58 70 49 9000

prefix_query-ends_example : PrefixEnds 4096 file 58 70 8000 limits 9000
prefix_query-ends_example = prefix_query-ends 4096 file 58 70 8000 limits 9000

read_be64-big_endian_example :
    read_be64 file 24
    ≡ big_endian 0 (take 4 (drop 24 file)) * 2 ^ 32 + big_endian 0 (take 4 (drop 28 file))
read_be64-big_endian_example = read_be64-big_endian file 24 (omega arith) (omega arith)
