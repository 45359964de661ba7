-- ===== src/MetadataReader/Runs.antt =====
-- Runs of the cursor over a few bytes, and its theorems on them.
use unity_common.Base.{ℕ, ◌≡◌, refl, ◌⊎◌, Option, none, some, [], ◌∷◌, arith, take, drop}
use unity_common.Base.Words.{Bytes}
use unity_common.MetadataReader.{
  Status, Reader, decode_u16, decode_u32, admit_extent, consume_span, take_span, read_u32,
  TreeBudget, tree_payload, tree_strings, read_tree, StringRead, scan_string,
  read_terminated_string,
}
use unity_common.MetadataReader.Decode.{endian_value, decode-endian}
use unity_common.MetadataReader.Take.{HasRoom, moved, refusal, take_span_lem}
use unity_common.MetadataReader.Progress.{Advance, IsBudget, read_tree-Advance}
use unity_common.MetadataReader.Strings.{StringEnds, read_terminated_string-ends}

abbrev metadata : Bytes
metadata = 2 ∷ 0 ∷ 0 ∷ 0 ∷ 3 ∷ 0 ∷ 0 ∷ 0 ∷ 65 ∷ 66 ∷ 0 ∷ 67 ∷ []

abbrev reader : Reader
reader = record {
  bytes = metadata;
  mapped_size = 12;
  metadata_end = 100;
  byte_budget_origin = 0;
  max_bytes = 50;
  max_work = 200;
  work_used = 10;
  position = 0;
  endian_selector = 0;
  status = Status.ok;
  error_offset = 0;
}

abbrev at_string : Reader
at_string = record reader { position = 8 }

abbrev budget : TreeBudget
budget = record { max_node_records = 4; max_string_bytes = 8; node_records = 1; string_bytes = 0 }

abbrev text_length : Option StringRead → ℕ
text_length none = 0
text_length (some s) = s.terminated_bytes

string_runs : text_length (read_terminated_string 20 5 at_string) ≡ 8
unfolding read_terminated_string scan_string admit_extent consume_span
string_runs = refl

-- The nodes of this tree are not mapped: the node count is charged, and the reader stands behind the
-- two counts.
tree_runs : (read_tree budget reader).2.position ≡ 8
unfolding read_tree read_u32 take_span tree_strings tree_payload decode_u32
tree_runs = refl

take_span_lem_example :
    (HasRoom reader 4
      × (take_span 4 reader ≡ (some (record { offset = 0; size = 4 }), moved reader 4)))
    ⊎ (¬ HasRoom reader 4
        × (take_span 4 reader ≡ (
          none,
          record reader { status = (refusal reader 4).0; error_offset = (refusal reader 4).1 },
        )))
take_span_lem_example = take_span_lem reader 4 (omega arith)

read_tree-Advance_example :
    Advance reader (read_tree budget reader).2 × IsBudget (read_tree budget reader).1
read_tree-Advance_example = read_tree-Advance budget reader (omega arith) (omega arith)

read_terminated_string-ends_example :
    StringEnds 8 20 5 at_string (read_terminated_string 20 5 at_string)
read_terminated_string-ends_example =
    read_terminated_string-ends at_string 20 5 (omega arith) (omega arith)

decode-endian_example :
    (decode_u16 metadata 4 0 ≡ endian_value 0 (take 2 (drop 4 metadata)))
    × (decode_u32 metadata 4 0 ≡ endian_value 0 (take 4 (drop 4 metadata)))
decode-endian_example = decode-endian metadata 4 0 (omega arith) (omega arith)
