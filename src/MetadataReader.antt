-- ===== src/MetadataReader.antt =====
-- src/io/serialized_metadata_reader_internal.{c,h} and serialized_type_shape_internal.h: the bounded
-- cursor over the metadata of a SerializedFile.
-- An operation takes the reader and returns it beside what it hands out, `none` for false; what a
-- failed operation leaves half filled is dropped. The counters behind pointers (`work_used`, those of
-- the tree budget, `terminated_bytes`) are fields or results. A span is its offset and size.
pub mod Decode
pub mod Take
pub mod Progress
pub mod Strings
pub mod Repeats
mod Runs
pub use unity_common.Prefix.{Span}
use unity_common.Base.{
  ℕ, zero, suc, ◌+◌, ◌-◌, ◌*◌, ◌/◌, ◌%◌, ◌^◌, ◌≤◌, ◌<◌, ◌≡◌, ◌≢◌, ◌↔◌, refl, sym, ap, subst, ◌∙◌,
  ◌⊎◌, inl, inr, Bool, true, false, not, ◌&&◌, ◌||◌, Option, none, some, List, [], ◌∷◌, ◌++◌,
  append_assoc, append-nil, map, arith, ltb, leb, ◌==◌, if◌then◌else◌, ltb→lt, ltb→le, lt→ltb,
  le→ltb, leb→le, leb→lt, le→leb, lt→leb, ne→==, ==_iff, Bool-cases, Option-cases, length,
  get_elem?, get_or, take, drop, replicate, All, length-append, length-take, length-drop,
  length-replicate, drop-drop, drop-append, drop-get, take-append, take-append-drop, drop-nil,
  bit_and, bit_or, bit_xor, all_below, all_below_sound,
}
use unity_common.Base.Words.{
  Bytes, IsByte, size_max, uint32_max, int32_max, shl32, shl64, word32, word32_sum,
}

pub data Status : Type 0 where
  ok metadata_end mapping_end byte_limit work_limit negative_count type_shape tree_shape : Status
  node_limit string_limit terminated_string_limit : Status

pub record Reader : Type 0 where
  pub bytes : Bytes
  pub mapped_size : ℕ
  pub metadata_end : ℕ
  pub byte_budget_origin : ℕ
  pub max_bytes : ℕ
  pub max_work : ℕ
  pub work_used : ℕ
  pub position : ℕ
  pub endian_selector : ℕ
  pub status : Status
  pub error_offset : ℕ

-- An operation on the reader that may refuse.
abbrev pub Read : Type 0 → Type 0
Read A = Reader → Option A × Reader

abbrev pub continue : {A B : Type 0} → Option A → (A → Read B) → Read B
continue none f r = (none, r)
continue (some a) f r = f a r

infixl 5 ◌>>=◌
unfoldable pub ◌>>=◌ : {A B : Type 0} → Read A → (A → Read B) → Read B
◌>>=◌ m f r = let (a, r') = m r in continue a f r'

unfoldable pub pure : {A : Type 0} → A → Read A
pure a r = (some a, r)

unfoldable pub reject_reader : {A : Type 0} → Status → ℕ → Read A
reject_reader status offset r = (none, record r { status = status; error_offset = offset })

abbrev pub at : Bytes → ℕ → ℕ
at bytes i = get_or bytes i 0

-- `serialized_metadata_decode_u16` and its kin at `bytes + i`.
unfoldable pub decode_u16 : Bytes → ℕ → ℕ → ℕ
decode_u16 bytes i endian_selector =
    if not (endian_selector == 0)
    then bit_or (shl32 (at bytes i) 8) (at bytes (i + 1))
    else bit_or (shl32 (at bytes (i + 1)) 8) (at bytes i)

unfoldable pub decode_u32 : Bytes → ℕ → ℕ → ℕ
unfolding word32
decode_u32 bytes i endian_selector =
    if not (endian_selector == 0)
    then word32 (at bytes i) (at bytes (i + 1)) (at bytes (i + 2)) (at bytes (i + 3))
    else word32 (at bytes (i + 3)) (at bytes (i + 2)) (at bytes (i + 1)) (at bytes i)

unfoldable pub decode_u64 : Bytes → ℕ → ℕ → ℕ
unfolding decode_u32
decode_u64 bytes i endian_selector =
    if not (endian_selector == 0)
    then bit_or (shl64 (decode_u32 bytes i endian_selector) 32)
        (decode_u32 bytes (i + 4) endian_selector)
    else bit_or (shl64 (decode_u32 bytes (i + 4) endian_selector) 32)
        (decode_u32 bytes i endian_selector)

unfoldable pub admit_extent : ℕ → Read (Unit {0})
unfolding reject_reader
admit_extent width r =
    let consumed = r.position - r.byte_budget_origin in
    if ltb r.metadata_end r.position || ltb (r.metadata_end - r.position) width
    then reject_reader Status.metadata_end r.metadata_end r
    else if ltb r.mapped_size r.position || ltb (r.mapped_size - r.position) width
    then reject_reader Status.mapping_end r.mapped_size r
    else if ltb r.max_bytes consumed || ltb (r.max_bytes - consumed) width
    then reject_reader Status.byte_limit r.position r
    else (some tt, r)

unfoldable pub consume_span : ℕ → Read Span
unfolding reject_reader
consume_span width r =
    if ltb (r.max_work - r.work_used) width then reject_reader Status.work_limit r.position r else (
      some (record { offset = r.position; size = width }),
      record r { work_used = r.work_used + width; position = r.position + width },
    )

-- `serialized_metadata_take`
unfoldable pub take_span : ℕ → Read Span
unfolding ◌>>=◌ admit_extent consume_span
take_span width = admit_extent width >>= λ _. consume_span width

-- A number and the span that it was read from.
pub record Number : Type 0 where
  pub source : Span
  pub value : ℕ

unfoldable pub read_u32 : Read Number
unfolding ◌>>=◌ pure
read_u32 r =
    (do
      source ← take_span 4
      pure (record { source = source; value = decode_u32 r.bytes source.offset r.endian_selector }))
      r

unfoldable pub read_count : Read Number
unfolding ◌>>=◌ pure
read_count = do
  n ← read_u32
  if ltb int32_max n.value then reject_reader Status.negative_count n.source.offset else pure n

-- `serialized_type_v22_hash_shape`: whether there is a script hash, `none` for a refused shape.
unfoldable pub hash_shape : ℕ → ℕ → Option Bool
hash_shape class_id_bits script_index_bits =
    let negative_index = not (bit_and script_index_bits 0x8000 == 0) in
    if class_id_bits == uint32_max && negative_index
    then none
    else some (class_id_bits == 114 || not negative_index)

-- `script_hash_source` is `none` where the C field is a null span.
pub record TypePrefix : Type 0 where
  pub class_id_source : Span
  pub stripped_source : Span
  pub script_index_source : Span
  pub script_hash_source : Option Span
  pub type_hash_source : Span
  pub class_id_bits : ℕ
  pub script_index_bits : ℕ
  pub stripped_raw : ℕ
  pub has_script_hash : Bool

unfoldable pub read_script_hash : Bool → Read (Option Span)
unfolding ◌>>=◌ pure
read_script_hash true = do hash ← take_span 16; pure (some hash)
read_script_hash false = pure none

unfoldable pub shaped : Option Bool → ℕ → Read Bool
unfolding pure
shaped none start = reject_reader Status.type_shape start
shaped (some has_script_hash) start = pure has_script_hash

-- The fields of an entry that begins at `r`.
unfoldable pub type_prefix_fields : Reader → Read TypePrefix
unfolding ◌>>=◌ pure read_script_hash shaped
type_prefix_fields r = do
  class_id ← take_span 4
  stripped ← take_span 1
  script_index ← take_span 2
  let class_id_bits = decode_u32 r.bytes class_id.offset r.endian_selector
  let script_index_bits = decode_u16 r.bytes script_index.offset r.endian_selector
  has_script_hash ← shaped (hash_shape class_id_bits script_index_bits) r.position
  script_hash ← read_script_hash has_script_hash
  type_hash ← take_span 16
  pure (record {
    class_id_source = class_id;
    stripped_source = stripped;
    script_index_source = script_index;
    script_hash_source = script_hash;
    type_hash_source = type_hash;
    class_id_bits = class_id_bits;
    script_index_bits = script_index_bits;
    stripped_raw = at r.bytes stripped.offset;
    has_script_hash = has_script_hash;
  })

unfoldable pub read_type_prefix : Read TypePrefix
unfolding type_prefix_fields
read_type_prefix r = type_prefix_fields r r

pub record TreeBudget : Type 0 where
  pub max_node_records : ℕ
  pub max_string_bytes : ℕ
  pub node_records : ℕ
  pub string_bytes : ℕ

pub record Tree : Type 0 where
  pub node_count_source : Span
  pub string_count_source : Span
  pub nodes_source : Span
  pub strings_source : Span
  pub node_count : ℕ
  pub string_byte_count : ℕ

unfoldable pub tree_payload : Number → Number → Read Tree
unfolding ◌>>=◌ pure
tree_payload nodes strings = do
  nodes_source ← take_span (nodes.value * 32)
  strings_source ← take_span strings.value
  pure (record {
    node_count_source = nodes.source;
    string_count_source = strings.source;
    nodes_source = nodes_source;
    strings_source = strings_source;
    node_count = nodes.value;
    string_byte_count = strings.value;
  })

-- From the count of string bytes on.
unfoldable pub tree_strings : TreeBudget → Number → Reader → Option Tree × TreeBudget × Reader
tree_strings budget nodes r =
    let (found, r') = read_u32 r in
    elim found [
      | none ↦ (none, budget, r')
      | some strings ↦
          if ltb (budget.max_string_bytes - budget.string_bytes) strings.value
          then (let (o, r'') = reject_reader Status.string_limit strings.source.offset r' in
              (o, budget, r''))
          else (let (o, r'') = tree_payload nodes strings r' in
              (o, record budget { string_bytes = budget.string_bytes + strings.value }, r''))
    ]

unfoldable pub read_tree : TreeBudget → Reader → Option Tree × TreeBudget × Reader
unfolding tree_strings
read_tree budget r =
    let (found, r') = read_u32 r in
    elim found [
      | none ↦ (none, budget, r')
      | some nodes ↦
          if nodes.value == 0
          then (let (o, r'') = reject_reader Status.tree_shape nodes.source.offset r' in
              (o, budget, r''))
          else if ltb (budget.max_node_records - budget.node_records) nodes.value
          then (let (o, r'') = reject_reader Status.node_limit nodes.source.offset r' in
              (o, budget, r''))
          else tree_strings (record budget { node_records = budget.node_records + nodes.value })
              nodes r'
    ]

-- What a scan for a NUL hands out: the span or a refusal, the counter, the reader; out of fuel is
-- `none` for the whole.
pub record StringRead : Type 0 where
  pub source : Option Span
  pub terminated_bytes : ℕ
  pub reader : Reader

abbrev pub string_stop : Option Span → ℕ → Reader → Option StringRead
string_stop source count r = some (record { source = source; terminated_bytes = count; reader = r })

-- The two checked steps of a round, with the rest of the round as a function.
abbrev pub after_admit :
    ℕ → (Reader → Option StringRead) → Option (Unit {0}) × Reader → Option StringRead
after_admit count rest (none, r) = string_stop none count r
after_admit count rest (some _, r) = rest r

abbrev pub after_consume :
    ℕ → ℕ → (Reader → Option StringRead) → Option Span × Reader → Option StringRead
after_consume start count again (none, r) = string_stop none count r
after_consume start count again (some byte, r) = elim (at r.bytes byte.offset == 0) [
  | true ↦ string_stop (some (record { offset = start; size = r.position - start })) (count + 1) r
  | false ↦ again r
]

abbrev pub terminated_limit : ℕ → Reader → Option StringRead
terminated_limit count r =
    string_stop none count
      (record r { status = Status.terminated_string_limit; error_offset = r.position })

-- The loop of `serialized_metadata_read_terminated_string`. A round takes a mapped byte.
pub scan_string : ℕ → ℕ → ℕ → ℕ → Reader → Option StringRead
scan_string zero start max_terminated_bytes count r = none
scan_string (suc fuel) start max_terminated_bytes count r =
    after_admit count
      (λ admitted. elim (count == max_terminated_bytes) [
        | true ↦ terminated_limit count admitted
        | false ↦
            after_consume start count
              (λ consumed. scan_string fuel start max_terminated_bytes (count + 1) consumed)
              (consume_span 1 admitted)
      ])
      (admit_extent 1 r)

pub read_terminated_string : ℕ → ℕ → Reader → Option StringRead
unfolding scan_string
read_terminated_string max_terminated_bytes terminated_bytes r =
    scan_string (suc r.mapped_size) r.position max_terminated_bytes terminated_bytes r
