-- ===== src/Prefix.antt =====
-- src/io/serialized_file_prefix.c and include/io/serialized_file_prefix.h: the bounded queries of a
-- version 22 header and of the metadata prefix behind it.
-- A pointer is its address, 0 for a null pointer; the mapped bytes stand beside their address. A
-- span is its offset and size: its `data` field is always the mapped address plus the offset. The
-- range `data` of a header view is `payload`. A call
-- returns its result and the view that it publishes, `none` where the output stays unchanged.
pub mod Coordinates
pub mod Scan
pub mod Outcome
pub mod Integers
mod Runs
use unity_common.Base.{
  ℕ, zero, suc, ◌+◌, ◌-◌, ◌*◌, ◌/◌, ◌%◌, ◌^◌, ◌≤◌, ◌<◌, ◌≡◌, ◌≢◌, ◌↔◌, refl, sym, ap, subst, ◌∙◌,
  ◌⊎◌, inl, inr, Bool, true, false, not, ◌&&◌, ◌||◌, Option, none, some, List, [], ◌∷◌, ◌++◌,
  append_assoc, append-nil, map, arith, ltb, leb, ◌==◌, if◌then◌else◌, ltb→lt, ltb→le, lt→ltb,
  le→ltb, leb→le, leb→lt, le→leb, lt→leb, ne→==, ==_iff, Bool-cases, Option-cases, length,
  get_elem?, get_or, take, drop, replicate, All, length-append, length-take, length-drop,
  length-replicate, drop-drop, drop-append, drop-get, take-append, take-append-drop, drop-nil,
  bit_and, bit_or, bit_xor, all_below, all_below_sound,
}
use unity_common.Base.Words.{
  Bytes, IsByte, size_max, uint32_max, int32_max, shl32, shl64, word32, word32_sum,
}

pub data Status : Type 0 where
  ok invalid_argument unsupported_version unsupported_endian malformed_layout : Status
  incomplete_mapping malformed_metadata version_limit work_limit : Status

abbrev pub v22_header_size : ℕ
v22_header_size = 48

abbrev pub no_offset : ℕ
no_offset = size_max

abbrev pub v22_format_version : ℕ
v22_format_version = 22

abbrev pub target_platform_size : ℕ
target_platform_size = 4

pub record Span : Type 0 where
  pub offset : ℕ
  pub size : ℕ

pub record Range : Type 0 where
  pub offset : ℕ
  pub size : ℕ

pub record HeaderView : Type 0 where
  pub header_source : Span
  pub legacy_metadata_size_source : Span
  pub legacy_file_size_source : Span
  pub format_version_source : Span
  pub legacy_data_offset_source : Span
  pub metadata_size_source : Span
  pub file_size_source : Span
  pub data_offset_source : Span
  pub endian_selector_source : Span
  pub opaque_source : Span
  pub format_version : ℕ
  pub metadata_size : ℕ
  pub file_size : ℕ
  pub data_offset : ℕ
  pub endian_selector : ℕ
  pub metadata : Range
  pub metadata_to_data_gap : Range
  pub payload : Range

pub record PrefixView : Type 0 where
  pub header : HeaderView
  pub metadata_prefix_source : Span
  pub version_source : Span
  pub version_terminator_source : Span
  pub target_platform_source : Span
  pub type_tree_source : Span
  pub target_platform : ℕ
  pub type_tree_enabled_raw : ℕ
  pub remaining_metadata : Range

pub record Limits : Type 0 where
  pub max_version_bytes : ℕ
  pub max_work : ℕ

pub record Result : Type 0 where
  pub status : Status
  pub work_used : ℕ
  pub error_offset : ℕ

abbrev pub query_result : Status → ℕ → ℕ → Result
query_result status work_used error_offset = record {
  status = status;
  work_used = work_used;
  error_offset = error_offset;
}

pub record PrefixWork : Type 0 where
  pub maximum : ℕ
  pub used : ℕ

-- `none` is false: nothing is charged.
unfoldable pub charge_work : PrefixWork → ℕ → Option PrefixWork
charge_work work amount =
    if ltb (work.maximum - work.used) amount
    then none
    else some (record work { used = work.used + amount })

-- What a helper hands to its caller: a value to go on with, or a result to return.
pub data Checked {ℓ} (A : Type ℓ) : Type ℓ where
  good : A → Checked A
  stop : Result → Checked A

infixl 5 ◌>>=◌
abbrev pub ◌>>=◌ {ℓ κ} : {A : Type ℓ} {B : Type κ} → Checked A → (A → Checked B) → Checked B
good a >>= f = f a
stop r >>= f = stop r

-- `if (test) return result;`
abbrev pub stop_if {ℓ} : {A : Type ℓ} → Bool → Result → Checked A → Checked A
stop_if true result rest = stop result
stop_if false result rest = rest

-- `if (!charge_work(work, amount)) return ... WORK_LIMIT ...;`
abbrev charged : Option PrefixWork → Result → Checked PrefixWork
charged none result = stop result
charged (some work) result = good work

unfoldable pub charge : PrefixWork → ℕ → ℕ → Checked PrefixWork
unfolding charge_work
charge work amount offset =
    charged (charge_work work amount) (query_result Status.work_limit work.used offset)

-- Addresses do not wrap, so the differences are those of uintptr_t.
unfoldable pub storage_overlaps : ℕ → ℕ → ℕ → ℕ → Bool
storage_overlaps first first_size second second_size =
    if first_size == 0 || second_size == 0
    then false
    else if leb first second
    then ltb (second - first) first_size
    else ltb (first - second) second_size

unfoldable pub valid_mapping_argument : ℕ → ℕ → ℕ → ℕ → ℕ → Bool
unfolding storage_overlaps
valid_mapping_argument address mapped_size logical_size output output_size =
    not (output == 0)
    && ((not (address == 0) || mapped_size == 0)
        && (leb mapped_size logical_size
            && not (storage_overlaps address mapped_size output output_size)))

abbrev pub at : Bytes → ℕ → ℕ
at bytes i = get_or bytes i 0

unfoldable pub read_be32 : Bytes → ℕ → ℕ
unfolding word32
read_be32 bytes i = word32 (at bytes i) (at bytes (i + 1)) (at bytes (i + 2)) (at bytes (i + 3))

unfoldable pub read_be64 : Bytes → ℕ → ℕ
unfolding read_be32
read_be64 bytes i = bit_or (shl64 (read_be32 bytes i) 32) (read_be32 bytes (i + 4))

unfoldable pub read_target_platform : Bytes → ℕ → ℕ → ℕ
unfolding read_be32
read_target_platform bytes i endian_selector =
    if endian_selector == 1
    then read_be32 bytes i
    else bit_or
        (bit_or (bit_or (at bytes i) (shl32 (at bytes (i + 1)) 8)) (shl32 (at bytes (i + 2)) 16))
        (shl32 (at bytes (i + 3)) 24)

abbrev pub mapped_span : ℕ → ℕ → Span
mapped_span offset size = record { offset = offset; size = size }

abbrev pub make_range : ℕ → ℕ → Range
make_range offset size = record { offset = offset; size = size }

-- The view that `query_header` fills from the checked fields.
unfoldable pub header_view : ℕ → ℕ → ℕ → ℕ → ℕ → HeaderView
header_view format_version metadata_size file_size data_offset endian_selector =
    let metadata_end = v22_header_size + metadata_size in
    record {
      header_source = mapped_span 0 v22_header_size;
      legacy_metadata_size_source = mapped_span 0 4;
      legacy_file_size_source = mapped_span 4 4;
      format_version_source = mapped_span 8 4;
      legacy_data_offset_source = mapped_span 12 4;
      metadata_size_source = mapped_span 16 8;
      file_size_source = mapped_span 24 8;
      data_offset_source = mapped_span 32 8;
      endian_selector_source = mapped_span 40 1;
      opaque_source = mapped_span 41 7;
      format_version = format_version;
      metadata_size = metadata_size;
      file_size = file_size;
      data_offset = data_offset;
      endian_selector = endian_selector;
      metadata = make_range v22_header_size metadata_size;
      metadata_to_data_gap = make_range metadata_end (data_offset - metadata_end);
      payload = make_range data_offset (file_size - data_offset);
    }

unfoldable pub query_header : Bytes → ℕ → ℕ → PrefixWork → Checked (PrefixWork × HeaderView)
unfolding charge header_view
query_header bytes mapped_size logical_size start =
    stop_if (ltb logical_size v22_header_size)
      (query_result Status.malformed_layout start.used logical_size)
      (stop_if (ltb mapped_size v22_header_size)
        (query_result Status.incomplete_mapping start.used mapped_size)
        (do
          work ← charge start v22_header_size 0
          let format_version = read_be32 bytes 8
          let endian_selector = at bytes 40
          let metadata_size = read_be64 bytes 16
          let file_size = read_be64 bytes 24
          let data_offset = read_be64 bytes 32
          let metadata_end = v22_header_size + metadata_size
          stop_if (not (format_version == v22_format_version))
              (query_result Status.unsupported_version work.used 8)
              (stop_if (ltb 1 endian_selector) (query_result Status.unsupported_endian work.used 40)
                (stop_if (not (file_size == logical_size))
                  (query_result Status.malformed_layout work.used 24)
                  (stop_if (ltb file_size data_offset)
                    (query_result Status.malformed_layout work.used 32)
                    (stop_if (ltb (size_max - v22_header_size) metadata_size)
                      (query_result Status.malformed_layout work.used 16)
                      (stop_if (ltb data_offset metadata_end)
                        (query_result Status.malformed_layout work.used 16)
                        (good (
                          work,
                          header_view format_version metadata_size file_size data_offset
                              endian_selector,
                        )))))))))

unfoldable pub require_metadata_bytes : ℕ → ℕ → ℕ → ℕ → ℕ → Checked (Unit {0})
require_metadata_bytes cursor field_size metadata_end mapped_size work_used =
    stop_if (ltb metadata_end cursor || ltb (metadata_end - cursor) field_size)
      (query_result Status.malformed_metadata work_used metadata_end)
      (stop_if (ltb mapped_size cursor || ltb (mapped_size - cursor) field_size)
        (query_result Status.incomplete_mapping work_used mapped_size) (good tt))

-- A call's result, and the view that it publishes.
pub record Answer {ℓ} (A : Type ℓ) : Type ℓ where
  pub result : Result
  pub published : Option A

abbrev pub answer {ℓ} : {A : Type ℓ} → Checked (PrefixWork × A) → Answer A
answer (good (work, view)) = record {
  result = query_result Status.ok work.used no_offset;
  published = some view;
}
answer (stop r) = record { result = r; published = none }

abbrev pub refused {ℓ} : {A : Type ℓ} → Answer A
refused = record { result = query_result Status.invalid_argument 0 no_offset; published = none }

-- `sizeof` of the outputs and of the limits on the 64-bit hosts.
abbrev pub header_view_bytes : ℕ
header_view_bytes = 328

abbrev pub prefix_view_bytes : ℕ
prefix_view_bytes = 472

abbrev pub limits_bytes : ℕ
limits_bytes = 16

pub publish_header : Bytes → ℕ → ℕ → ℕ → Checked (PrefixWork × HeaderView)
unfolding query_header charge
publish_header bytes mapped_size logical_size max_work = do
  (work, header) ←
      query_header bytes mapped_size logical_size (record { maximum = max_work; used = 0 })
  last ← charge work 1 no_offset
  good (last, header)

unfoldable pub serialized_file_header_query : ℕ → Bytes → ℕ → ℕ → ℕ → ℕ → Answer HeaderView
unfolding publish_header
serialized_file_header_query address bytes mapped_size logical_size max_work out_header =
    if valid_mapping_argument address mapped_size logical_size out_header header_view_bytes
    then answer (publish_header bytes mapped_size logical_size max_work)
    else refused

-- Where the scan for the version's NUL stops: the charged work, and the offset of the NUL.
pub record Version : Type 0 where
  pub work : PrefixWork
  pub cursor : ℕ
  pub version_size : ℕ

-- What a round of the scan checks and charges before it reads the byte at `cursor`.
unfoldable pub scan_checks : ℕ → ℕ → ℕ → PrefixWork → ℕ → ℕ → Checked PrefixWork
scan_checks mapped_size metadata_end max_version_bytes work cursor version_size = do
  visible ← require_metadata_bytes cursor 1 metadata_end mapped_size work.used
  stop_if (leb max_version_bytes version_size) (query_result Status.version_limit work.used cursor)
      (charge work 1 cursor)

-- The scan from `cursor` on. A round needs a mapped byte at `cursor`, so `mapped_size` rounds are
-- enough; out of fuel is `none`.
unfoldable pub scan_version : ℕ → Bytes → ℕ → ℕ → ℕ → PrefixWork → ℕ → ℕ → Option (Checked Version)
scan_version zero bytes mapped_size metadata_end max_version_bytes work cursor version_size = none
scan_version (suc fuel) bytes mapped_size metadata_end max_version_bytes work cursor version_size =
    elim (scan_checks mapped_size metadata_end max_version_bytes work cursor version_size) [
      | stop r ↦ some (stop r)
      | good paid ↦ elim (at bytes cursor == 0) [
        | true ↦ some (good (record { work = paid; cursor = cursor; version_size = version_size }))
        | false ↦
            scan_version fuel bytes mapped_size metadata_end max_version_bytes paid (cursor + 1)
              (version_size + 1)
      ]
    ]

-- The view that a query fills once the version is found and the fields behind it are checked.
unfoldable pub tail_view : Bytes → ℕ → HeaderView → Version → PrefixView
tail_view bytes metadata_end header v =
    let platform = v.cursor + 1 in
    let tree = platform + target_platform_size in
    let cursor = tree + 1 in
    record {
      header = header;
      metadata_prefix_source = mapped_span v22_header_size (cursor - v22_header_size);
      version_source = mapped_span v22_header_size v.version_size;
      version_terminator_source = mapped_span v.cursor 1;
      target_platform_source = mapped_span platform target_platform_size;
      type_tree_source = mapped_span tree 1;
      target_platform = read_target_platform bytes platform header.endian_selector;
      type_tree_enabled_raw = at bytes tree;
      remaining_metadata = make_range cursor (metadata_end - cursor);
    }

-- What follows the version: the target platform, the TypeTree byte, and the publication.
unfoldable pub query_tail : Bytes → ℕ → ℕ → HeaderView → Version → Checked (PrefixWork × PrefixView)
query_tail bytes mapped_size metadata_end header v = do
  let platform = v.cursor + 1
  platform_visible ←
      require_metadata_bytes platform target_platform_size metadata_end mapped_size v.work.used
  work1 ← charge v.work target_platform_size platform
  let tree = platform + target_platform_size
  tree_visible ← require_metadata_bytes tree 1 metadata_end mapped_size work1.used
  work2 ← charge work1 1 tree
  work3 ← charge work2 1 no_offset
  good (work3, tail_view bytes metadata_end header v)

-- Joins the scan, which may run out of fuel, with what follows it.
abbrev after_version :
    Option (Checked Version)
    → (Version → Checked (PrefixWork × PrefixView))
    → Option (Checked (PrefixWork × PrefixView))
after_version none k = none
after_version (some scanned) k = some (scanned >>= k)

unfoldable pub publish_prefix : Bytes → ℕ → ℕ → Limits → Option (Checked (PrefixWork × PrefixView))
publish_prefix bytes mapped_size logical_size limits =
    elim (query_header bytes mapped_size logical_size
      (record { maximum = limits.max_work; used = 0 })) [
        | stop r ↦ some (stop r)
        | good (work, header) ↦
            let metadata_end = header.metadata_to_data_gap.offset in
            after_version
              (scan_version (suc mapped_size) bytes mapped_size metadata_end
                limits.max_version_bytes work v22_header_size 0)
              (query_tail bytes mapped_size metadata_end header)
      ]

abbrev pub answers {ℓ} : {A : Type ℓ} → Option (Checked (PrefixWork × A)) → Option (Answer A)
answers none = none
answers (some checked) = some (answer checked)

-- `limits` is the address of the limits, 0 if there are none.
unfoldable pub serialized_file_prefix_query :
    ℕ → Bytes → ℕ → ℕ → ℕ → Limits → ℕ → Option (Answer PrefixView)
unfolding publish_prefix
serialized_file_prefix_query address bytes mapped_size logical_size limits_address limits
      out_prefix =
    if limits_address == 0
      || (not (valid_mapping_argument address mapped_size logical_size out_prefix prefix_view_bytes)
          || storage_overlaps limits_address limits_bytes out_prefix prefix_view_bytes)
    then some refused
    else answers (publish_prefix bytes mapped_size logical_size limits)
