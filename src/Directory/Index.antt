-- ===== src/Directory/Index.antt =====
-- What `serialized_file_directory_create` promises: the contents of an index, its cost, and how a call
-- may end.
use unity_common.Base.{
  ℕ, ◌+◌, ◌-◌, ◌*◌, ◌≤◌, ◌<◌, ◌≡◌, refl, true, false, Option, none, some, [], ◌∷◌, arith, ◌==◌,
}
use unity_common.Base.Words.{Bytes, size_max}
use unity_common.StringBuilder.{Tracker, mem_alloc, mem_free}
use unity_common.StringBuilder.Accounting.{IsTracker, Tracker-eq}
use unity_common.Prefix.{at}
use unity_common.Prefix.Outcome.{Describes}
use unity_common.Directory.{Status, TypeRow, ObjectRow, View, Result}
use unity_common.Directory.Steps.{Failed}
use unity_common.Directory.Create.{
  Storage, Created, returns, serialized_file_directory_type, serialized_file_directory_object,
}
use unity_common.Directory.Checks.{Arguments, Layout}
use unity_common.Directory.Planning.{LaidOut}

-- The work of a whole call: 66 units for the prefix query, 11 for the version, twice a unit for each byte
-- and row of the directory, a unit for each byte retained, and 2.
abbrev pub cost_of : View → ℕ
cost_of v =
    66
    + 11
    + 2
      * (v.remaining_metadata.offset - v.prefix.remaining_metadata.offset + v.type_count
          + v.object_count)
    + v.retained_bytes
    + 2

-- A row of the objects keeps its ordinal, names a type of the index, and lies in the data of the file.
pub record IsIndexed (a : Arguments) (view : View) (i : ℕ) (row : ObjectRow) : Type 0 where
  pub ordinal : row.ordinal ≡ i
  pub has_type : row.type_ordinal < view.type_count
  pub from_data : view.prefix.header.data_offset ≤ row.payload.offset
  pub in_file : row.payload.offset + row.payload.size ≤ a.logical_size

-- The versions that a selection admits: "2021.3.35f1" by 1 and "2021.3.29f1" by 2.
pub data Selects (engine_version : ℕ) (version : Bytes) : Type 0 where
  first :
      engine_version ≡ 1
      → version ≡ b'2' ∷ b'0' ∷ b'2' ∷ b'1' ∷ b'.' ∷ b'3' ∷ b'.' ∷ b'3' ∷ b'5' ∷ b'f' ∷ b'1' ∷ []
      → Selects engine_version version
  second :
      engine_version ≡ 2
      → version ≡ b'2' ∷ b'0' ∷ b'2' ∷ b'1' ∷ b'.' ∷ b'3' ∷ b'.' ∷ b'2' ∷ b'9' ∷ b'f' ∷ b'1' ∷ []
      → Selects engine_version version

-- What an index holds: a prefix of the selected version, byte for byte, with a tree flag of 0 or 1 and its
-- metadata inside the limit, counters inside their limits, tables laid out
-- inside its allocation, a row behind the accessors for every ordinal below the counts, and the end of
-- the directory inside the metadata and the mapped bytes.
pub record IsIndex (a : Arguments) (s : Storage) : Type 0 where
  pub prefix :
      Describes a.bytes a.mapped_size a.logical_size a.limits.max_version_bytes 11 s.view.prefix
  pub version :
      (text : Bytes) × Selects a.engine_version text
      × ((i : ℕ) → i < 11 → at a.bytes (s.view.prefix.version_source.offset + i) ≡ at text i)
  pub tree_flag : s.view.prefix.type_tree_enabled_raw ≤ 1
  pub metadata : s.view.prefix.metadata_prefix_source.size ≤ a.limits.max_metadata_bytes
  pub layout : Layout
  pub laid_out : LaidOut s.view layout
  pub size : s.view.retained_bytes ≡ layout.total_bytes
  pub retained : s.view.retained_bytes ≤ a.limits.max_retained_bytes
  pub type_rows :
      (i : ℕ)
      → i < s.view.type_count
      → (row : TypeRow) × (serialized_file_directory_type (some s) i ≡ some (some row))
        × (row.ordinal ≡ i)
  pub object_rows :
      (i : ℕ)
      → i < s.view.object_count
      → (row : ObjectRow) × (serialized_file_directory_object (some s) i ≡ some (some row))
        × IsIndexed a s.view i row
  pub nodes : s.view.node_record_count ≤ a.limits.max_node_records
  pub strings : s.view.string_byte_count ≤ a.limits.max_string_bytes
  pub dependencies : s.view.dependency_word_count ≤ a.limits.max_dependency_words
  pub behind_prefix : s.view.prefix.remaining_metadata.offset ≤ s.view.remaining_metadata.offset
  pub in_metadata :
      s.view.remaining_metadata.offset ≤ s.view.prefix.header.metadata_to_data_gap.offset
  pub in_mapping : s.view.remaining_metadata.offset ≤ a.mapped_size

module _ (a : Arguments) (handle : Option Storage) (tracker : Tracker) where
  -- How a call ends: an index behind a handle that was empty, or a failure that leaves the handle and
  -- gives back what it took.
  pub data CreateEnds (o : Option Created) : Type 0 where
    makes :
        (c : Created) (s : Storage)
        → o ≡ some c
        → handle ≡ none
        → c.handle ≡ some s
        → c.result.status ≡ Status.ok
        → IsIndex a s
        → c.result.work_used ≡ cost_of s.view
        → c.result.work_used ≤ a.limits.max_work
        → c.tracker ≡ (mem_alloc true s.view.retained_bytes tracker).1
        → CreateEnds o
    fails :
        (c : Created)
        → o ≡ some c
        → c.handle ≡ handle
        → Failed a.limits.max_work c.result
        → c.tracker ≡ tracker
        → CreateEnds o

  pub fails_with :
      (r : Result) → Failed a.limits.max_work r → CreateEnds (some (returns r handle tracker))
  fails_with r h = fails (returns r handle tracker) refl refl h refl

pub given_back :
    (tracker : Tracker) (total : ℕ)
    → IsTracker tracker
    → 0 < total
    → total ≤ size_max
    → mem_free true total (mem_alloc true total tracker).1 ≡ tracker
unfolding mem_free mem_alloc
given_back tracker total t pos h =
    let some_bytes : (total == 0) ≡ false = ground arith in
    rw some_bytes (Tracker-eq (omega (arith, t.bytes, h)) (omega (arith, t.count)))
