-- ===== src/Directory/Scanner.antt =====
-- The scanner of src/io/serialized_file_directory.c: `scan_tree`, `scan_type`, `scan_object` and
-- `scan_directory`. A step goes on with a value or stops with the result that the caller returns.
use unity_common.Base.{
  ℕ, zero, suc, ◌+◌, ◌-◌, ◌*◌, ◌%◌, Bool, true, false, not, ◌&&◌, Option, none, some, List, [], ◌∷◌,
  ltb, leb, ◌==◌, if◌then◌else◌,
}
use unity_common.Base.Words.{Bytes, size_max}
use unity_common.Prefix.{Span, HeaderView, v22_header_size, mapped_span, make_range}
use unity_common.MetadataReader.{
  Number, Tree, TreeBudget, TypePrefix, read_tree, read_type_prefix, decode_u32, decode_u64,
}
use unity_common.Directory.{Status, Limit, Field, TypeRow, ObjectRow, View, Scan}
use unity_common.Directory.Stepping.{
  Step, after_read, charge, get_bytes, get_limits, get_position, get_view, good, modify_view, pure,
  read_with, refuse, refuse_here, set_field, set_row, take_bytes, take_count, ◌>>=◌, ◌>>◌,
}

-- The total with the count.
unfoldable pub add_cardinality : ℕ → ℕ → ℕ → Limit → ℕ → Step ℕ
add_cardinality total count maximum limit offset =
    if ltb (maximum - total) count
    then refuse_here Status.limit_exceeded limit offset
    else pure (total + count)

abbrev pub tree_budget : Scan → TreeBudget
tree_budget s = record {
  max_node_records = s.limits.max_node_records;
  max_string_bytes = s.limits.max_string_bytes;
  node_records = s.view.node_record_count;
  string_bytes = s.view.string_byte_count;
}

abbrev pub with_counts : View → TreeBudget → View
with_counts view budget = record view {
  node_record_count = budget.node_records;
  string_byte_count = budget.string_bytes;
}

-- `serialized_metadata_read_tree` on the counters of the view.
unfoldable pub take_tree : Step Tree
take_tree s =
    let (found, budget, r) = read_tree (tree_budget s) s.reader in
    after_read (record s { view = with_counts s.view budget }) (found, r)

-- What `scan_tree` fills in a row.
pub record TreePart : Type 0 where
  pub tree : Option Tree
  pub dependency_count_source : Option Span
  pub dependency_words_source : Option Span
  pub dependency_count : ℕ

-- The count added to the words of the view.
unfoldable pub add_dependencies : Number → Step (Unit {0})
add_dependencies count = do
  limits ← get_limits
  view ← get_view
  total ←
      add_cardinality view.dependency_word_count count.value limits.max_dependency_words
        Limit.dependencies count.source.offset
  modify_view (λ v. record v { dependency_word_count = total })

unfoldable pub scan_tree : Step TreePart
scan_tree = do
  set_field Field.tree
  tree ← take_tree
  set_field Field.dependencies
  count ← take_count
  add_dependencies count
  words ← take_bytes (count.value * 4)
  pure (record {
    tree = some tree;
    dependency_count_source = some count.source;
    dependency_words_source = some words;
    dependency_count = count.value;
  })

-- The part of a row without a tree.
abbrev pub no_tree : TreePart
no_tree = record {
  tree = none;
  dependency_count_source = none;
  dependency_words_source = none;
  dependency_count = 0;
}

unfoldable pub tree_part : Bool → Step TreePart
tree_part true = scan_tree
tree_part false = pure no_tree

-- `table[ordinal] = row`
abbrev pub set_at : {A : Type 0} → ℕ → A → List A → List A
set_at n a [] = []
set_at zero a (b ∷ table) = a ∷ table
set_at (suc n) a (b ∷ table) = b ∷ set_at n a table

abbrev pub store_row : {A : Type 0} → ℕ → A → Option (List (Option A)) → Option (List (Option A))
store_row ordinal row none = none
store_row ordinal row (some table) = some (set_at ordinal (some row) table)

unfoldable pub write_type : ℕ → TypeRow → Step (Unit {0})
write_type ordinal row s = good tt (record s { types = store_row ordinal row s.types })

unfoldable pub write_object : ℕ → ObjectRow → Step (Unit {0})
write_object ordinal row s = good tt (record s { objects = store_row ordinal row s.objects })

abbrev pub type_row : ℕ → ℕ → ℕ → TypePrefix → Bool → TreePart → TypeRow
type_row ordinal start end prefix has_tree part = record {
  ordinal = ordinal;
  source = mapped_span start (end - start);
  class_id_source = prefix.class_id_source;
  stripped_source = prefix.stripped_source;
  script_index_source = prefix.script_index_source;
  script_hash_source = prefix.script_hash_source;
  type_hash_source = prefix.type_hash_source;
  class_id_bits = prefix.class_id_bits;
  script_index_bits = prefix.script_index_bits;
  stripped_raw = prefix.stripped_raw;
  has_script_hash = prefix.has_script_hash;
  has_tree = has_tree;
  tree = part.tree;
  dependency_count_source = part.dependency_count_source;
  dependency_words_source = part.dependency_words_source;
  dependency_count = part.dependency_count;
}

unfoldable pub scan_type : ℕ → Step (Unit {0})
scan_type ordinal = do
  set_field Field.type_entry
  set_row ordinal
  start ← get_position
  prefix ← read_with read_type_prefix
  view ← get_view
  let has_tree = not (view.prefix.type_tree_enabled_raw == 0)
  part ← tree_part has_tree
  charge 1 Field.type_entry ordinal start
  end ← get_position
  write_type ordinal (type_row ordinal start end prefix has_tree part)

-- The fields at 0, 8, 16 and 20 of the entry at `source`.
abbrev pub object_row : Bytes → HeaderView → ℕ → Span → ObjectRow
object_row bytes header ordinal source =
    let relative_data_offset = decode_u64 bytes (source.offset + 8) header.endian_selector in
    let byte_size = decode_u32 bytes (source.offset + 16) header.endian_selector in
    record {
      ordinal = ordinal;
      source = source;
      path_id_bits = decode_u64 bytes source.offset header.endian_selector;
      relative_data_offset = relative_data_offset;
      byte_size = byte_size;
      type_ordinal = decode_u32 bytes (source.offset + 20) header.endian_selector;
      payload = make_range (header.data_offset + relative_data_offset) byte_size;
    }

unfoldable pub admit_object : HeaderView → ℕ → ObjectRow → Step (Unit {0})
admit_object header type_count row =
    let data_size = header.file_size - header.data_offset in
    if ltb data_size row.relative_data_offset
    then refuse Status.malformed_metadata Limit.unlimited Field.object_range row.ordinal
        (row.source.offset + 8)
    else if ltb (data_size - row.relative_data_offset) row.byte_size
    then refuse Status.malformed_metadata Limit.unlimited Field.object_range row.ordinal
        (row.source.offset + 16)
    else if leb type_count row.type_ordinal
    then refuse Status.malformed_metadata Limit.unlimited Field.object_type row.ordinal
        (row.source.offset + 20)
    else pure tt

unfoldable pub scan_object : ℕ → Step (Unit {0})
scan_object ordinal = do
  set_field Field.object_entry
  set_row ordinal
  source ← take_bytes 24
  bytes ← get_bytes
  view ← get_view
  let row = object_row bytes view.prefix.header ordinal source
  admit_object view.prefix.header view.type_count row
  charge 1 Field.object_entry ordinal source.offset
  write_object ordinal row

-- The loops over the rows: how many are left, and the next ordinal.
unfoldable pub scan_types : ℕ → ℕ → Step (Unit {0})
scan_types zero ordinal = pure tt
scan_types (suc remaining) ordinal = do scan_type ordinal; scan_types remaining (ordinal + 1)

unfoldable pub scan_objects : ℕ → ℕ → Step (Unit {0})
scan_objects zero ordinal = pure tt
scan_objects (suc remaining) ordinal = do scan_object ordinal; scan_objects remaining (ordinal + 1)

-- Whether a table is given whose capacity is another than the count.
abbrev pub replay_differs : {A : Type 0} → Option A → ℕ → ℕ → Bool
replay_differs none count capacity = false
replay_differs (some table) count capacity = not (count == capacity)

-- The checks behind a count: its limit, and the planned capacity in the second pass.
unfoldable pub admit_type_count : Number → Step (Unit {0})
admit_type_count count s =
    if ltb s.limits.max_types count.value
    then refuse_here Status.limit_exceeded Limit.types count.source.offset s
    else if replay_differs s.types count.value s.type_capacity
    then refuse_here Status.malformed_metadata Limit.unlimited count.source.offset s
    else pure tt s

unfoldable pub admit_object_count : Number → Step (Unit {0})
admit_object_count count s =
    if ltb s.limits.max_objects count.value
    then refuse_here Status.limit_exceeded Limit.objects count.source.offset s
    else if replay_differs s.objects count.value s.object_capacity
    then refuse_here Status.malformed_metadata Limit.unlimited count.source.offset s
    else pure tt s

-- Up to the rows of the types.
unfoldable pub scan_type_table : Step (Unit {0})
scan_type_table = do
  set_field Field.type_count
  set_row size_max
  count ← take_count
  modify_view (λ v. record v { type_count_source = count.source })
  admit_type_count count
  modify_view (λ v. record v { type_count = count.value })
  start ← get_position
  scan_types count.value 0
  end ← get_position
  modify_view (λ v. record v { type_rows_source = mapped_span start (end - start) })

-- The bytes up to the alignment of the object table.
abbrev pub object_padding : ℕ → ℕ → ℕ
object_padding object_count position =
    let remainder = (position - v22_header_size) % 4 in
    if not (object_count == 0) && not (remainder == 0) then 4 - remainder else 0

unfoldable pub scan_object_table : Step (Unit {0})
scan_object_table = do
  set_field Field.object_count
  set_row size_max
  count ← take_count
  modify_view (λ v. record v { object_count_source = count.source })
  admit_object_count count
  modify_view (λ v. record v { object_count = count.value })
  position ← get_position
  set_field Field.object_padding
  padding ← take_bytes (object_padding count.value position)
  modify_view (λ v. record v { object_padding_source = padding })
  start ← get_position
  scan_objects count.value 0
  end ← get_position
  modify_view (λ v. record v { object_rows_source = mapped_span start (end - start) })

abbrev pub with_rest : ℕ → View → View
with_rest end v = record v {
  parsed_metadata_source = mapped_span v22_header_size (end - v22_header_size);
  remaining_metadata = make_range end (v.prefix.header.metadata_to_data_gap.offset - end);
}

unfoldable pub scan_directory : Step (Unit {0})
scan_directory = do
  scan_type_table
  scan_object_table
  end ← get_position
  modify_view (with_rest end)
