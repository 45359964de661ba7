-- ===== src/Directory/Checks.antt =====
-- The checks of src/io/serialized_file_directory.c before a scan, `valid_arguments` and `admit_prefix`,
-- and its storage plan. An attempt is a step on the result of the call.
use unity_common.Base.{
  ℕ, zero, suc, ◌+◌, ◌-◌, ◌*◌, ◌%◌, ◌^◌, Bool, true, false, not, ◌&&◌, ◌||◌, Option, none, some, [],
  ◌∷◌, ltb, leb, ◌==◌, if◌then◌else◌,
}
use unity_common.Base.Words.{Bytes, size_max}
use unity_common.Common.{dxbc_size_add_overflows, dxbc_size_multiply_overflows}
use unity_common.Prefix
use unity_common.Prefix.{
  Span, Range, PrefixView, no_offset, v22_header_size, at, mapped_span, make_range, Answer,
  serialized_file_prefix_query, storage_overlaps,
}
use unity_common.Directory.{Status, Limit, Field, Limits, View, Result, reject, charge_work}

-- The arguments of a call. A pointer is its address, 0 for null, beside what it points to.
pub record Arguments : Type 0 where
  pub address : ℕ
  pub bytes : Bytes
  pub mapped_size : ℕ
  pub logical_size : ℕ
  pub engine_version : ℕ
  pub limits_address : ℕ
  pub limits : Limits
  pub out_address : ℕ

-- The addresses of the local variables that the prefix query gets.
pub record Locals : Type 0 where
  pub prefix_limits : ℕ
  pub prefix : ℕ

-- `sizeof` on the 64-bit hosts.
abbrev pub handle_bytes : ℕ
handle_bytes = 8

abbrev pub limits_bytes : ℕ
limits_bytes = 80

abbrev pub storage_bytes : ℕ
storage_bytes = 704

abbrev pub type_row_bytes : ℕ
type_row_bytes = 328

abbrev pub object_row_bytes : ℕ
object_row_bytes = 72

unfoldable pub valid_arguments : Arguments → Bool
valid_arguments a =
    not (a.limits_address == 0)
    && (not (a.out_address == 0)
        && ((not (a.address == 0) || a.mapped_size == 0)
            && (leb a.mapped_size a.logical_size
                && (not (storage_overlaps a.address a.mapped_size a.out_address handle_bytes)
                    && (not (storage_overlaps a.address a.mapped_size a.limits_address limits_bytes)
                        && not (
                            storage_overlaps a.limits_address limits_bytes a.out_address
                              handle_bytes))))))

-- A step on the result of the call: a value, or `none` where the call returns.
abbrev pub Attempt : Type 0 → Type 0
Attempt A = Result → Option A × Result

abbrev pub after : {A B : Type 0} → (A → Attempt B) → Option A × Result → Option B × Result
after f (none, result) = (none, result)
after f (some a, result) = f a result

infixl 5 ◌>>=◌
unfoldable pub ◌>>=◌ : {A B : Type 0} → Attempt A → (A → Attempt B) → Attempt B
◌>>=◌ m f result = after f (m result)

infixl 5 ◌>>◌
abbrev pub ◌>>◌ : {A B : Type 0} → Attempt A → Attempt B → Attempt B
m >> n = m >>= λ _. n

unfoldable pub pure : {A : Type 0} → A → Attempt A
pure a result = (some a, result)

abbrev pub fail : {A : Type 0} → Status → Limit → Field → ℕ → Attempt A
fail status limit field offset result = (none, reject result status limit field size_max offset)

abbrev pub fail_if : Bool → Status → Limit → Field → ℕ → Attempt (Unit {0})
fail_if true status limit field offset = fail status limit field offset
fail_if false status limit field offset = pure tt

abbrev pub paid : Bool × Result → Option (Unit {0}) × Result
paid (true, result) = (some tt, result)
paid (false, result) = (none, result)

unfoldable pub charge : Limits → ℕ → Field → ℕ → Attempt (Unit {0})
charge limits amount field offset result =
    paid (charge_work result limits amount field size_max offset)

-- "2021.3.35f1" and "2021.3.29f1"
abbrev pub version_35 : Bytes
version_35 = 0x32 ∷ 0x30 ∷ 0x32 ∷ 0x31 ∷ 0x2e ∷ 0x33 ∷ 0x2e ∷ 0x33 ∷ 0x35 ∷ 0x66 ∷ 0x31 ∷ []

abbrev pub version_29 : Bytes
version_29 = 0x32 ∷ 0x30 ∷ 0x32 ∷ 0x31 ∷ 0x2e ∷ 0x33 ∷ 0x2e ∷ 0x32 ∷ 0x39 ∷ 0x66 ∷ 0x31 ∷ []

unfoldable pub expected_version : ℕ → Option Bytes
expected_version engine_version =
    if engine_version == 1
    then some version_35
    else if engine_version == 2
    then some version_29
    else none

abbrev pub expected_size : ℕ
expected_size = 11

-- The loop over the version: how many bytes are left, and the next index.
unfoldable pub check_version : ℕ → ℕ → Bytes → Bytes → ℕ → Limits → Attempt (Unit {0})
check_version zero index bytes expected offset limits = pure tt
check_version (suc remaining) index bytes expected offset limits = do
  charge limits 1 Field.engine_version (offset + index)
  fail_if (leb expected_size index || not (at bytes (offset + index) == at expected index))
      Status.unsupported_engine_version Limit.unlimited Field.engine_version (offset + index)
  check_version remaining (index + 1) bytes expected offset limits

-- The checks of an admitted prefix.
unfoldable pub check_prefix : Arguments → PrefixView → Bytes → Attempt PrefixView
check_prefix a prefix expected = do
  check_version prefix.version_source.size 0 a.bytes expected prefix.version_source.offset a.limits
  fail_if (not (prefix.version_source.size == expected_size)) Status.unsupported_engine_version
      Limit.unlimited Field.engine_version prefix.version_terminator_source.offset
  fail_if (ltb 1 prefix.type_tree_enabled_raw) Status.unsupported_tree_flag Limit.unlimited
      Field.tree prefix.type_tree_source.offset
  fail_if (ltb a.limits.max_metadata_bytes prefix.metadata_prefix_source.size) Status.limit_exceeded
      Limit.metadata_bytes Field.no_field prefix.remaining_metadata.offset
  pure prefix

abbrev pub check_selected : Arguments → PrefixView → Option Bytes → Attempt PrefixView
check_selected a prefix none =
    fail Status.unsupported_engine_version Limit.unlimited Field.engine_version no_offset
check_selected a prefix (some expected) = check_prefix a prefix expected

-- The prefix query publishes a view exactly where its status is ok.
unfoldable pub admit_published : Arguments → Option PrefixView → Attempt PrefixView
admit_published a none result =
    fail Status.prefix_rejected Limit.unlimited Field.no_field result.prefix_result.error_offset
      result
admit_published a (some prefix) result =
    check_selected a prefix (expected_version a.engine_version) result

abbrev pub attempted : Result → Prefix.Result → Result
attempted result prefix_result = record result {
  prefix_attempted = true;
  prefix_result = prefix_result;
  work_used = prefix_result.work_used;
}

abbrev pub admit_answer :
    Arguments → Result → Option (Answer PrefixView) → Option (Option PrefixView × Result)
admit_answer a result none = none
admit_answer a result (some answer) =
    some (admit_published a answer.published (attempted result answer.result))

abbrev pub query_prefix : Arguments → Locals → Option (Answer PrefixView)
query_prefix a l =
    serialized_file_prefix_query a.address a.bytes a.mapped_size a.logical_size l.prefix_limits
      (record { max_version_bytes = a.limits.max_version_bytes; max_work = a.limits.max_work })
      l.prefix

unfoldable pub admit_prefix : Arguments → Locals → Result → Option (Option PrefixView × Result)
admit_prefix a l result = admit_answer a result (query_prefix a l)

-- The offset of the array and the new total, `none` where a size overflows.
unfoldable pub append_array : ℕ → ℕ → ℕ → ℕ → Option (ℕ × ℕ)
append_array total alignment count width =
    let remainder = total % alignment in
    let padding = if not (remainder == 0) then alignment - remainder else 0 in
    let offset = (total + padding) % 2 ^ 64 in
    let array_size = count * width % 2 ^ 64 in
    if dxbc_size_add_overflows total padding || dxbc_size_multiply_overflows count width
    then none
    else if dxbc_size_add_overflows offset array_size
    then none
    else some (offset, (offset + array_size) % 2 ^ 64)

pub record Layout : Type 0 where
  pub types_offset : ℕ
  pub objects_offset : ℕ
  pub total_bytes : ℕ

abbrev pub append_objects : View → Option (ℕ × ℕ) → Option Layout
append_objects view none = none
append_objects view (some (types_offset, total)) =
    elim (append_array total 8 view.object_count object_row_bytes) [
      | none ↦ none
      | some (objects_offset, total') ↦ some (record {
        types_offset = types_offset;
        objects_offset = objects_offset;
        total_bytes = total';
      })
    ]

unfoldable pub layout_of : View → Option Layout
layout_of view = append_objects view (append_array storage_bytes 8 view.type_count type_row_bytes)

unfoldable pub check_layout : Limits → Option Layout → Attempt Layout
check_layout limits none result =
    fail Status.limit_exceeded Limit.retained_bytes Field.no_field no_offset result
check_layout limits (some layout) result =
    let planned = record result { required_retained_bytes = layout.total_bytes } in
    if ltb limits.max_retained_bytes layout.total_bytes
    then fail Status.limit_exceeded Limit.retained_bytes Field.no_field no_offset planned
    else (some layout, planned)

unfoldable pub plan_storage : View → Limits → Attempt Layout
plan_storage view limits = do
  charge limits 1 Field.no_field no_offset
  check_layout limits (layout_of view)
