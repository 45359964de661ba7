-- ===== src/Directory/Runs.antt =====
-- Runs of the directory on one small file, and the theorems on it.
use unity_common.Base.{ℕ, ◌≡◌, refl, Option, none, some, [], ◌∷◌, ◌++◌, arith, replicate}
use unity_common.Base.Words.{Bytes}
use unity_common.Common.{dxbc_size_add_overflows, dxbc_size_multiply_overflows}
use unity_common.StringBuilder.{Tracker, mem_alloc, mem_free}
use unity_common.Prefix
use unity_common.Prefix.{
  serialized_file_prefix_query, charge_work, query_header, read_be64, read_be32,
  require_metadata_bytes, scan_checks, scan_version, query_tail, tail_view, header_view,
  storage_overlaps, valid_mapping_argument, publish_prefix, PrefixView,
}
use unity_common.MetadataReader
use unity_common.MetadataReader.{
  take_span, admit_extent, consume_span, read_u32, read_count, hash_shape, read_script_hash, shaped,
  type_prefix_fields, read_type_prefix, decode_u16, decode_u32, decode_u64, tree_payload,
  tree_strings, read_tree,
}
use unity_common.Directory
use unity_common.Directory.{Status, Limits, TypeRow, ObjectRow, View, Result}
use unity_common.Base.{◌≤◌}
use unity_common.StringBuilder.Accounting.{IsTracker}
use unity_common.Directory.{Scan}
use unity_common.Directory.Scanner
use unity_common.Directory.Stepping
use unity_common.Directory.Scanner.{scan_directory}
use unity_common.Directory.Create.{first_scan, fresh_view}
use unity_common.Directory.Checks.{append_array, Layout, layout_of, expected_size}
use unity_common.Directory.Steps.{Ends, Failed, IsScan}
use unity_common.Directory.Passes.{Passed, scan_directory-ends}
use unity_common.Directory.Planning.{LaidOut, layout_of-LaidOut}
use unity_common.Directory.Outcome.{create-error, dispose-create}
use unity_common.Directory.Create
use unity_common.Directory.Checks
use unity_common.Directory.Create.{
  Storage, Created, serialized_file_directory_create, serialized_file_directory_object,
  serialized_file_directory_type, serialized_file_directory_dispose,
}
use unity_common.Directory.Checks.{Arguments, Locals}

-- Version 2021.3.35f1, one type without a tree, one object of 8 bytes at 132.
abbrev file : Bytes
file =
    replicate 8 0
    ++ (0 ∷ 0 ∷ 0 ∷ 22 ∷ [])
    ++ replicate 11 0
    ++ (72 ∷ [])
    ++ replicate 7 0
    ++ (140 ∷ [])
    ++ replicate 7 0
    ++ (128 ∷ [])
    ++ replicate 8 0
    ++ Checks.version_35
    ++ (0 ∷ 19 ∷ 0 ∷ 0 ∷ 0 ∷ 0 ∷ [])
    ++ (1 ∷ 0 ∷ 0 ∷ 0 ∷ 4 ∷ 0 ∷ 0 ∷ 0 ∷ 0 ∷ 255 ∷ 255 ∷ [])
    ++ replicate 16 7
    ++ (1 ∷ 0 ∷ 0 ∷ 0 ∷ 9 ∷ 0 ∷ 0 ∷ 0 ∷ 0 ∷ 0 ∷ 0 ∷ 0 ∷ 4 ∷ 0 ∷ 0 ∷ 0 ∷ 0 ∷ 0 ∷ 0 ∷ 0 ∷ [])
    ++ (8 ∷ 0 ∷ 0 ∷ 0 ∷ 0 ∷ 0 ∷ 0 ∷ 0 ∷ [])

abbrev limits_with : ℕ → Limits
limits_with max_work = record {
  max_version_bytes = 16;
  max_types = 4;
  max_objects = 4;
  max_node_records = 8;
  max_string_bytes = 64;
  max_dependency_words = 8;
  max_metadata_bytes = 200;
  max_retained_bytes = 2000;
  max_scratch_bytes = 0;
  max_work = max_work;
}

abbrev arguments : ℕ → Arguments
arguments max_work = record {
  address = 4096;
  bytes = file;
  mapped_size = 120;
  logical_size = 140;
  engine_version = 1;
  limits_address = 8000;
  limits = limits_with max_work;
  out_address = 9000;
}

abbrev locals : Locals
locals = record { prefix_limits = 10000; prefix = 11000 }

abbrev counters : Tracker
counters = record { allocated_bytes = 5; allocations_count = 1 }

abbrev created : ℕ → Option Created
created max_work =
    serialized_file_directory_create (arguments max_work) locals (some 20000) none counters

abbrev ended : Option Created → Status × ℕ × Tracker
ended none = (Status.invalid_state, 0, counters)
ended (some c) = (c.result.status, c.result.work_used, c.tracker)

runs :
    ended (created 2000)
    ≡ (Status.ok, 1297, record { allocated_bytes = 1109; allocations_count = 2 })
unfolding serialized_file_directory_create serialized_file_prefix_query publish_prefix Prefix.charge
    charge_work query_header header_view valid_mapping_argument read_be32 read_be64 storage_overlaps
    scan_checks scan_version query_tail tail_view require_metadata_bytes take_span admit_extent
    consume_span read_u32 read_count hash_shape read_script_hash shaped type_prefix_fields
    read_type_prefix decode_u16 decode_u32 decode_u64 tree_payload tree_strings read_tree
    MetadataReader.◌>>=◌ MetadataReader.pure MetadataReader.reject_reader Checks.◌>>=◌ Checks.pure
    Checks.charge Checks.valid_arguments Checks.expected_version Checks.check_version
    Checks.check_prefix Checks.admit_published Checks.admit_prefix Checks.append_array
    Checks.layout_of Checks.check_layout Checks.plan_storage Create.allocate Create.plan_and_charge
    dxbc_size_add_overflows dxbc_size_multiply_overflows Directory.charge_work Stepping.◌>>=◌
    Stepping.pure Stepping.get_limits Stepping.get_view Stepping.get_bytes Stepping.get_position
    Stepping.modify_view Stepping.set_field Stepping.set_row Stepping.refuse Stepping.refuse_here
    Stepping.after_charge Stepping.charge Stepping.reject_reader Stepping.after_read
    Stepping.read_with Scanner.add_cardinality Scanner.take_tree Scanner.add_dependencies
    Scanner.scan_tree Scanner.tree_part Scanner.write_type Scanner.write_object Scanner.scan_type
    Scanner.admit_object Scanner.scan_object Scanner.scan_types Scanner.scan_objects
    Scanner.admit_type_count Scanner.admit_object_count Scanner.scan_type_table
    Scanner.scan_object_table Scanner.scan_directory mem_alloc mem_free
runs = refl

-- A unit less of work does not do: the last charge fails, and the allocation is given back.
runs_short : ended (created 1296) ≡ (Status.limit_exceeded, 1296, counters)
unfolding serialized_file_directory_create serialized_file_prefix_query publish_prefix Prefix.charge
    charge_work query_header header_view valid_mapping_argument read_be32 read_be64 storage_overlaps
    scan_checks scan_version query_tail tail_view require_metadata_bytes take_span admit_extent
    consume_span read_u32 read_count hash_shape read_script_hash shaped type_prefix_fields
    read_type_prefix decode_u16 decode_u32 decode_u64 tree_payload tree_strings read_tree
    MetadataReader.◌>>=◌ MetadataReader.pure MetadataReader.reject_reader Checks.◌>>=◌ Checks.pure
    Checks.charge Checks.valid_arguments Checks.expected_version Checks.check_version
    Checks.check_prefix Checks.admit_published Checks.admit_prefix Checks.append_array
    Checks.layout_of Checks.check_layout Checks.plan_storage Create.allocate Create.plan_and_charge
    dxbc_size_add_overflows dxbc_size_multiply_overflows Directory.charge_work Stepping.◌>>=◌
    Stepping.pure Stepping.get_limits Stepping.get_view Stepping.get_bytes Stepping.get_position
    Stepping.modify_view Stepping.set_field Stepping.set_row Stepping.refuse Stepping.refuse_here
    Stepping.after_charge Stepping.charge Stepping.reject_reader Stepping.after_read
    Stepping.read_with Scanner.add_cardinality Scanner.take_tree Scanner.add_dependencies
    Scanner.scan_tree Scanner.tree_part Scanner.write_type Scanner.write_object Scanner.scan_type
    Scanner.admit_object Scanner.scan_object Scanner.scan_types Scanner.scan_objects
    Scanner.admit_type_count Scanner.admit_object_count Scanner.scan_type_table
    Scanner.scan_object_table Scanner.scan_directory mem_alloc mem_free
runs_short = refl

counters-IsTracker : IsTracker counters
counters-IsTracker = record { bytes = omega arith; count = omega arith }

dispose-create_example :
    (c : Created) × (created 2000 ≡ some c)
    × (serialized_file_directory_dispose c.handle c.tracker ≡ (none, counters))
dispose-create_example =
    dispose-create (arguments 2000) locals (some 20000) counters counters-IsTracker

abbrev created_or_empty : Option Created → Created
created_or_empty none = Create.returns Directory.initial_result none counters
created_or_empty (some c) = c

create-error_example :
    ((created_or_empty (created 1296)).handle ≡ none)
    × ((created_or_empty (created 1296)).tracker ≡ counters)
    × ((created_or_empty (created 1296)).result.work_used ≤ 1296)
unfolding serialized_file_directory_create serialized_file_prefix_query publish_prefix Prefix.charge
    charge_work query_header header_view valid_mapping_argument read_be32 read_be64 storage_overlaps
    scan_checks scan_version query_tail tail_view require_metadata_bytes take_span admit_extent
    consume_span read_u32 read_count hash_shape read_script_hash shaped type_prefix_fields
    read_type_prefix decode_u16 decode_u32 decode_u64 tree_payload tree_strings read_tree
    MetadataReader.◌>>=◌ MetadataReader.pure MetadataReader.reject_reader Checks.◌>>=◌ Checks.pure
    Checks.charge Checks.valid_arguments Checks.expected_version Checks.check_version
    Checks.check_prefix Checks.admit_published Checks.admit_prefix Checks.append_array
    Checks.layout_of Checks.check_layout Checks.plan_storage Create.allocate Create.plan_and_charge
    dxbc_size_add_overflows dxbc_size_multiply_overflows Directory.charge_work Stepping.◌>>=◌
    Stepping.pure Stepping.get_limits Stepping.get_view Stepping.get_bytes Stepping.get_position
    Stepping.modify_view Stepping.set_field Stepping.set_row Stepping.refuse Stepping.refuse_here
    Stepping.after_charge Stepping.charge Stepping.reject_reader Stepping.after_read
    Stepping.read_with Scanner.add_cardinality Scanner.take_tree Scanner.add_dependencies
    Scanner.scan_tree Scanner.tree_part Scanner.write_type Scanner.write_object Scanner.scan_type
    Scanner.admit_object Scanner.scan_object Scanner.scan_types Scanner.scan_objects
    Scanner.admit_type_count Scanner.admit_object_count Scanner.scan_type_table
    Scanner.scan_object_table Scanner.scan_directory mem_alloc mem_free
create-error_example =
    create-error (arguments 1296) locals (some 20000) none counters
      (created_or_empty (created 1296)) counters-IsTracker refl (λ e. ground (arith, e))

abbrev prefix : PrefixView
prefix =
    tail_view file 120 (header_view 22 72 140 128 0)
      (record { work = record { maximum = 2000; used = 60 }; cursor = 59; version_size = 11 })

abbrev counted_view : View
counted_view = record (fresh_view 1 prefix) { type_count = 2; object_count = 3 }

abbrev layout : Layout
layout = record { types_offset = 704; objects_offset = 1360; total_bytes = 1576 }

layout_of-LaidOut_example : LaidOut counted_view layout
unfolding layout_of append_array dxbc_size_add_overflows dxbc_size_multiply_overflows
layout_of-LaidOut_example = layout_of-LaidOut counted_view layout refl

abbrev start : Scan
start = first_scan (arguments 2000) prefix (record Directory.initial_result { work_used = 77 })

start-IsScan : IsScan start
unfolding tail_view header_view
start-IsScan = record {
  reader = record {
    origin = omega arith;
    in_metadata = omega arith;
    in_mapping = omega arith;
    in_budget = omega arith;
    in_work = omega arith;
  };
  work = refl;
  nodes = omega arith;
  strings = omega arith;
  dependencies = omega arith;
}

scan_directory-ends_example : Ends (λ x t. Passed start t) (Failed 2000) (scan_directory start)
scan_directory-ends_example = scan_directory-ends start start-IsScan
