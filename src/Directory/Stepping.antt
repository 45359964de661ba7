-- ===== src/Directory/Stepping.antt =====
-- A step of the scanner of src/io/serialized_file_directory.c, which goes on with a value or stops with
-- the result that the caller returns; and the steps that its functions are made of.
use unity_common.Base.{ℕ, Bool, true, false, Option, none, some}
use unity_common.Base.Words.{Bytes}
use unity_common.Prefix.{Span}
use unity_common.MetadataReader
use unity_common.MetadataReader.{
  Reader, Read, Number, Tree, TreeBudget, TypePrefix, take_span, read_count, read_tree,
  read_type_prefix, decode_u32, decode_u64,
}
use unity_common.Directory.{
  Status, Limit, Field, Limits, View, Result, Scan, reject, charge_work, charged,
}

pub data Outcome (A : Type 0) : Type 0 where
  good : A → Scan → Outcome A
  stop : Result → Outcome A

abbrev pub Step : Type 0 → Type 0
Step A = Scan → Outcome A

abbrev pub continue : {A B : Type 0} → Outcome A → (A → Step B) → Outcome B
continue (good a s) f = f a s
continue (stop r) f = stop r

infixl 5 ◌>>=◌
unfoldable pub ◌>>=◌ : {A B : Type 0} → Step A → (A → Step B) → Step B
◌>>=◌ m f s = continue (m s) f

infixl 5 ◌>>◌
abbrev pub ◌>>◌ : {A B : Type 0} → Step A → Step B → Step B
m >> n = m >>= λ _. n

unfoldable pub pure : {A : Type 0} → A → Step A
pure a s = good a s

-- What a step reads of the scan.
unfoldable pub get_limits : Step Limits
get_limits s = good s.limits s

unfoldable pub get_view : Step View
get_view s = good s.view s

unfoldable pub get_bytes : Step Bytes
get_bytes s = good s.reader.bytes s

unfoldable pub get_position : Step ℕ
get_position s = good s.reader.position s

unfoldable pub modify_view : (View → View) → Step (Unit {0})
modify_view f s = good tt (record s { view = f s.view })

unfoldable pub set_field : Field → Step (Unit {0})
set_field field s = good tt (record s { field = field })

unfoldable pub set_row : ℕ → Step (Unit {0})
set_row ordinal s = good tt (record s { row_ordinal = ordinal })

-- `return reject(...)` with the field that the source names.
unfoldable pub refuse : {A : Type 0} → Status → Limit → Field → ℕ → ℕ → Step A
refuse status limit field row_ordinal offset s =
    stop (reject (charged s) status limit field row_ordinal offset)

-- `return reject(...)` with the scan's own field and row.
unfoldable pub refuse_here : {A : Type 0} → Status → Limit → ℕ → Step A
refuse_here status limit offset s =
    stop (reject (charged s) status limit s.field s.row_ordinal offset)

unfoldable pub after_charge : Scan → Bool × Result → Outcome (Unit {0})
after_charge s (true, result) =
    good tt
      (record s { result = result; reader = record s.reader { work_used = result.work_used } })
after_charge s (false, result) = stop result

-- `charge_work` on the result and the limits of the scan.
unfoldable pub charge : ℕ → Field → ℕ → ℕ → Step (Unit {0})
charge amount field row_ordinal offset s =
    after_charge s (charge_work (charged s) s.limits amount field row_ordinal offset)

-- The switch of `reject_reader`.
abbrev pub reader_status : MetadataReader.Status → Status × Limit
reader_status MetadataReader.Status.metadata_end = (Status.malformed_metadata, Limit.unlimited)
reader_status MetadataReader.Status.negative_count = (Status.malformed_metadata, Limit.unlimited)
reader_status MetadataReader.Status.mapping_end = (Status.incomplete_mapping, Limit.unlimited)
reader_status MetadataReader.Status.byte_limit = (Status.limit_exceeded, Limit.metadata_bytes)
reader_status MetadataReader.Status.work_limit = (Status.limit_exceeded, Limit.work)
reader_status MetadataReader.Status.type_shape = (Status.unsupported_type_shape, Limit.unlimited)
reader_status MetadataReader.Status.tree_shape = (Status.unsupported_tree_shape, Limit.unlimited)
reader_status MetadataReader.Status.node_limit = (Status.limit_exceeded, Limit.nodes)
reader_status MetadataReader.Status.string_limit = (Status.limit_exceeded, Limit.string_bytes)
reader_status MetadataReader.Status.ok = (Status.invalid_state, Limit.unlimited)
reader_status MetadataReader.Status.terminated_string_limit =
    (Status.invalid_state, Limit.unlimited)

unfoldable pub reject_reader : Scan → Result
reject_reader s =
    reject (charged s) (reader_status s.reader.status).0 (reader_status s.reader.status).1 s.field
      s.row_ordinal s.reader.error_offset

unfoldable pub after_read : {A : Type 0} → Scan → Option A × Reader → Outcome A
after_read s (some a, r) = good a (record s { reader = r })
after_read s (none, r) = stop (reject_reader (record s { reader = r }))

-- A read of the shared cursor, with the diagnostic of this owner.
unfoldable pub read_with : {A : Type 0} → Read A → Step A
read_with m s = after_read s (m s.reader)

abbrev pub take_bytes : ℕ → Step Span
take_bytes width = read_with (take_span width)

abbrev pub take_count : Step Number
take_count = read_with read_count
