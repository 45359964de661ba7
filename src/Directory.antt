-- ===== src/Directory.antt =====
-- src/io/serialized_file_directory.c and include/io/serialized_file_directory.h: the index of the
-- types and the objects of a SerializedFile, made in two passes over its metadata.
-- A span is its offset and size, `none` where the C field is the absent span. A row of a table is
-- `none` as long as it holds the zeros of the allocation. The counter behind `result->work_used` and
-- `reader.work_used` is one cell: while a scan runs it is the field of its reader.
pub mod Stepping
pub mod Scanner
pub mod Checks
pub mod Create
pub mod Spending
pub mod Steps
pub mod Passes
pub mod Replay
pub mod Attempts
pub mod Planning
pub mod Admission
pub mod Index
pub mod Outcome
pub mod Tables
pub mod Rows
pub mod Filling
mod Runs
use unity_common.Base.{
  ℕ, zero, suc, ◌+◌, ◌-◌, ◌*◌, ◌/◌, ◌%◌, ◌^◌, ◌≤◌, ◌<◌, ◌≡◌, ◌≢◌, ◌↔◌, refl, sym, ap, subst, ◌∙◌,
  ◌⊎◌, inl, inr, Bool, true, false, not, ◌&&◌, ◌||◌, Option, none, some, List, [], ◌∷◌, ◌++◌,
  append_assoc, append-nil, map, arith, ltb, leb, ◌==◌, if◌then◌else◌, Bool-cases, Option-cases,
  length, get_elem?, get_or, take, drop, replicate,
}
use unity_common.Base.Words.{Bytes, size_max}
use unity_common.Prefix.{Span, Range, PrefixView, no_offset}
use unity_common.Prefix
use unity_common.MetadataReader.{Reader, Tree}

pub data Status : Type 0 where
  ok invalid_argument invalid_state prefix_rejected unsupported_engine_version : Status
  unsupported_tree_flag unsupported_type_shape unsupported_tree_shape malformed_metadata : Status
  incomplete_mapping limit_exceeded allocation_failed : Status

pub data Limit : Type 0 where
  unlimited types objects nodes string_bytes dependencies : Limit
  metadata_bytes retained_bytes scratch_bytes work : Limit

pub data Field : Type 0 where
  no_field engine_version type_count type_entry tree dependencies object_count : Field
  object_padding object_entry object_range object_type : Field

pub record Limits : Type 0 where
  pub max_version_bytes : ℕ
  pub max_types : ℕ
  pub max_objects : ℕ
  pub max_node_records : ℕ
  pub max_string_bytes : ℕ
  pub max_dependency_words : ℕ
  pub max_metadata_bytes : ℕ
  pub max_retained_bytes : ℕ
  pub max_scratch_bytes : ℕ
  pub max_work : ℕ

-- `tree` is `none` where its spans are absent and its counts 0.
pub record TypeRow : Type 0 where
  pub ordinal : ℕ
  pub source : Span
  pub class_id_source : Span
  pub stripped_source : Span
  pub script_index_source : Span
  pub script_hash_source : Option Span
  pub type_hash_source : Span
  pub class_id_bits : ℕ
  pub script_index_bits : ℕ
  pub stripped_raw : ℕ
  pub has_script_hash : Bool
  pub has_tree : Bool
  pub tree : Option Tree
  pub dependency_count_source : Option Span
  pub dependency_words_source : Option Span
  pub dependency_count : ℕ

pub record ObjectRow : Type 0 where
  pub ordinal : ℕ
  pub source : Span
  pub path_id_bits : ℕ
  pub relative_data_offset : ℕ
  pub byte_size : ℕ
  pub type_ordinal : ℕ
  pub payload : Range

pub record View : Type 0 where
  pub engine_version : ℕ
  pub prefix : PrefixView
  pub parsed_metadata_source : Span
  pub type_count_source : Span
  pub type_rows_source : Span
  pub object_count_source : Span
  pub object_padding_source : Span
  pub object_rows_source : Span
  pub remaining_metadata : Range
  pub type_count : ℕ
  pub object_count : ℕ
  pub node_record_count : ℕ
  pub string_byte_count : ℕ
  pub dependency_word_count : ℕ
  pub retained_bytes : ℕ

pub record Result : Type 0 where
  pub status : Status
  pub limit : Limit
  pub field : Field
  pub row_ordinal : ℕ
  pub error_offset : ℕ
  pub work_used : ℕ
  pub required_retained_bytes : ℕ
  pub peak_retained_bytes : ℕ
  pub peak_scratch_bytes : ℕ
  pub prefix_attempted : Bool
  pub prefix_result : Prefix.Result

abbrev pub initial_result : Result
initial_result = record {
  status = Status.ok;
  limit = Limit.unlimited;
  field = Field.no_field;
  row_ordinal = size_max;
  error_offset = no_offset;
  work_used = 0;
  required_retained_bytes = 0;
  peak_retained_bytes = 0;
  peak_scratch_bytes = 0;
  prefix_attempted = false;
  prefix_result = record {
    status = Prefix.Status.invalid_argument;
    work_used = 0;
    error_offset = no_offset;
  };
}

abbrev pub reject : Result → Status → Limit → Field → ℕ → ℕ → Result
reject result status limit field row_ordinal offset = record result {
  status = status;
  limit = limit;
  field = field;
  row_ordinal = row_ordinal;
  error_offset = offset;
}

-- Whether the work is charged, and the result with the charge or the refusal.
unfoldable pub charge_work : Result → Limits → ℕ → Field → ℕ → ℕ → Bool × Result
charge_work result limits amount field row_ordinal offset =
    if ltb (limits.max_work - result.work_used) amount
    then (false, reject result Status.limit_exceeded Limit.work field row_ordinal offset)
    else (true, record result { work_used = result.work_used + amount })

-- `DirectoryScan`. The tables are `none` in the pass that only counts.
pub record Scan : Type 0 where
  pub limits : Limits
  pub result : Result
  pub view : View
  pub reader : Reader
  pub field : Field
  pub row_ordinal : ℕ
  pub types : Option (List (Option TypeRow))
  pub objects : Option (List (Option ObjectRow))
  pub type_capacity : ℕ
  pub object_capacity : ℕ

-- The result with the counter that the reader charges.
abbrev pub charged : Scan → Result
charged s = record s.result { work_used = s.reader.work_used }
