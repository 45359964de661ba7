-- ===== src/Directory/Create.antt =====
-- The calls of src/io/serialized_file_directory.c: `serialized_file_directory_create` with the checks
-- before its two scans and the layout of its one allocation, disposal and the accessors.
-- `granted` is the address that the allocator would hand out, `none` where it refuses.
use unity_common.Base.{
  ℕ, Bool, true, false, Option, none, some, List, [], ltb, if◌then◌else◌, get_elem?, replicate,
}
use unity_common.StringBuilder.{Tracker, mem_alloc, mem_free}
use unity_common.Prefix.{Span, PrefixView, no_offset, v22_header_size, mapped_span, make_range}
use unity_common.MetadataReader
use unity_common.MetadataReader.{Reader}
use unity_common.Directory.{
  Status, Field, TypeRow, ObjectRow, View, Result, Scan, initial_result, charged,
}
use unity_common.Directory.Scanner.{scan_directory}
use unity_common.Directory.Stepping.{Outcome, good, stop}
use unity_common.Directory.Checks.{
  Arguments, Attempt, Locals, admit_prefix, charge, plan_storage, pure, valid_arguments, ◌>>=◌,
  ◌>>◌,
}

-- `DirectoryStorage`, at its address. The tables stand behind it in the same allocation.
pub record Storage : Type 0 where
  pub address : ℕ
  pub view : View
  pub types : List (Option TypeRow)
  pub objects : List (Option ObjectRow)

-- What a call leaves: its result, the handle and the counters of common.h.
pub record Created : Type 0 where
  pub result : Result
  pub handle : Option Storage
  pub tracker : Tracker

abbrev pub returns : Result → Option Storage → Tracker → Created
returns result handle tracker = record { result = result; handle = handle; tracker = tracker }

abbrev pub zero_span : Span
zero_span = mapped_span 0 0

abbrev pub fresh_view : ℕ → PrefixView → View
fresh_view engine_version prefix = record {
  engine_version = engine_version;
  prefix = prefix;
  parsed_metadata_source = zero_span;
  type_count_source = zero_span;
  type_rows_source = zero_span;
  object_count_source = zero_span;
  object_padding_source = zero_span;
  object_rows_source = zero_span;
  remaining_metadata = make_range 0 0;
  type_count = 0;
  object_count = 0;
  node_record_count = 0;
  string_byte_count = 0;
  dependency_word_count = 0;
  retained_bytes = 0;
}

abbrev pub first_scan : Arguments → PrefixView → Result → Scan
first_scan a prefix result = record {
  limits = a.limits;
  result = result;
  view = fresh_view a.engine_version prefix;
  reader = record {
    bytes = a.bytes;
    mapped_size = a.mapped_size;
    metadata_end = prefix.header.metadata_to_data_gap.offset;
    byte_budget_origin = v22_header_size;
    max_bytes = a.limits.max_metadata_bytes;
    max_work = a.limits.max_work;
    work_used = result.work_used;
    position = prefix.remaining_metadata.offset;
    endian_selector = prefix.header.endian_selector;
    status = MetadataReader.Status.ok;
    error_offset = 0;
  };
  field = Field.no_field;
  row_ordinal = 0;
  types = none;
  objects = none;
  type_capacity = 0;
  object_capacity = 0;
}

-- The second pass over the same bytes, into tables of zeros.
abbrev pub replay_scan : Arguments → PrefixView → Scan → Result → Scan
replay_scan a prefix s result = record s {
  result = result;
  type_capacity = s.view.type_count;
  object_capacity = s.view.object_count;
  view = fresh_view a.engine_version prefix;
  reader = record s.reader {
    position = prefix.remaining_metadata.offset;
    work_used = result.work_used;
  };
  types = some (replicate s.view.type_count none);
  objects = some (replicate s.view.object_count none);
}

abbrev pub rows : {A : Type 0} → Option (List A) → List A
rows none = []
rows (some table) = table

abbrev pub storage_of : ℕ → ℕ → Scan → Storage
storage_of address total s = record {
  address = address;
  view = record s.view { retained_bytes = total };
  types = rows s.types;
  objects = rows s.objects;
}

-- The end of a call: the last charge, and the publication.
abbrev pub publish : ℕ → ℕ → Scan → Tracker → Option (Unit {0}) × Result → Created
publish address total s tracker (none, result) = returns result none (mem_free true total tracker)
publish address total s tracker (some _, result) =
    returns result (some (storage_of address total s)) tracker

abbrev pub replayed : Arguments → ℕ → ℕ → Tracker → Outcome (Unit {0}) → Created
replayed a address total tracker (stop result) = returns result none (mem_free true total tracker)
replayed a address total tracker (good _ s) =
    publish address total s tracker (charge a.limits 1 Field.no_field no_offset (charged s))

abbrev pub address_of : Option ℕ → ℕ
address_of none = 0
address_of (some address) = address

abbrev pub is_granted : Option ℕ → Bool
is_granted none = false
is_granted (some address) = true

unfoldable pub allocate : Arguments → PrefixView → Option ℕ → Scan → ℕ → Tracker → Result → Created
allocate a prefix granted s total tracker result =
    let (made, tracker') = mem_alloc (is_granted granted) total tracker in
    elim made [
      | false ↦ returns (record result { status = Status.allocation_failed }) none tracker'
      | true ↦
          replayed a (address_of granted) total tracker' (
            scan_directory (replay_scan a prefix s (record result { peak_retained_bytes = total })))
    ]

abbrev pub planned :
    Arguments → PrefixView → Option ℕ → Scan → Tracker → Option ℕ × Result → Created
planned a prefix granted s tracker (none, result) = returns result none tracker
planned a prefix granted s tracker (some total, result) =
    allocate a prefix granted s total tracker result

-- The plan of the storage and the charge for it.
unfoldable pub plan_and_charge : Arguments → View → Attempt ℕ
plan_and_charge a view = do
  layout ← plan_storage view a.limits
  charge a.limits layout.total_bytes Field.no_field no_offset
  pure layout.total_bytes

abbrev pub counted : Arguments → PrefixView → Option ℕ → Tracker → Outcome (Unit {0}) → Created
counted a prefix granted tracker (stop result) = returns result none tracker
counted a prefix granted tracker (good _ s) =
    planned a prefix granted s tracker (plan_and_charge a s.view (charged s))

abbrev pub admitted :
    Arguments → Option ℕ → Tracker → Option (Option PrefixView × Result) → Option Created
admitted a granted tracker none = none
admitted a granted tracker (some (none, result)) = some (returns result none tracker)
admitted a granted tracker (some (some prefix, result)) =
    some (counted a prefix granted tracker (scan_directory (first_scan a prefix result)))

-- The call on valid arguments. It makes an index only behind an empty handle.
abbrev pub create_behind : Arguments → Locals → Option ℕ → Option Storage → Tracker → Option Created
create_behind a l granted (some storage) tracker =
    some (returns (record initial_result { status = Status.invalid_state }) (some storage) tracker)
create_behind a l granted none tracker =
    admitted a granted tracker (admit_prefix a l initial_result)

unfoldable pub serialized_file_directory_create :
    Arguments → Locals → Option ℕ → Option Storage → Tracker → Option Created
serialized_file_directory_create a l granted handle tracker =
    if valid_arguments a
    then create_behind a l granted handle tracker
    else some (returns (record initial_result { status = Status.invalid_argument }) handle tracker)

-- `none` is a null pointer to the handle.
abbrev pub serialized_file_directory_init : Option (Option Storage) → Option (Option Storage)
serialized_file_directory_init none = none
serialized_file_directory_init (some handle) = some none

unfoldable pub serialized_file_directory_dispose :
    Option Storage → Tracker → Option Storage × Tracker
serialized_file_directory_dispose none tracker = (none, tracker)
serialized_file_directory_dispose (some storage) tracker =
    (none, mem_free true storage.view.retained_bytes tracker)

pub serialized_file_directory_view : Option Storage → Option View
serialized_file_directory_view none = none
serialized_file_directory_view (some storage) = some storage.view

-- The row that the pointer leads to, `none` for a null pointer.
unfoldable pub serialized_file_directory_type : Option Storage → ℕ → Option (Option TypeRow)
serialized_file_directory_type none ordinal = none
serialized_file_directory_type (some storage) ordinal =
    if ltb ordinal storage.view.type_count then get_elem? storage.types ordinal else none

unfoldable pub serialized_file_directory_object : Option Storage → ℕ → Option (Option ObjectRow)
serialized_file_directory_object none ordinal = none
serialized_file_directory_object (some storage) ordinal =
    if ltb ordinal storage.view.object_count then get_elem? storage.objects ordinal else none

-- The allocation, for the overlap tests of other components.
abbrev pub storage_range : Option Storage → Option (ℕ × ℕ)
storage_range none = none
storage_range (some storage) = some (storage.address, storage.view.retained_bytes)
