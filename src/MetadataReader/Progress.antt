-- ===== src/MetadataReader/Progress.antt =====
-- Every operation of the cursor, failing or not, keeps it valid and pays for each byte it passes.
use unity_common.Base.{
  ℕ, ◌+◌, ◌-◌, ◌≤◌, ◌≡◌, refl, ◌∙◌, ◌⊎◌, inl, inr, Bool, true, false, ◌&&◌, Option, none, some,
  arith, ltb, leb, ◌==◌, if◌then◌else◌, Bool-cases, Option-cases,
}
use unity_common.MetadataReader.{
  Status, Reader, Read, continue, ◌>>=◌, pure, reject_reader, decode_u32, take_span, Number,
  read_u32, read_count, read_script_hash, shaped, type_prefix_fields, read_type_prefix, TreeBudget,
  Tree, tree_payload, tree_strings, read_tree,
}
use unity_common.MetadataReader.Take.{IsReader, HasRoom, moved, take_span-room, take_span-refused}

-- `s` may come after `r`: the caller's settings are kept, the position does not fall, each byte
-- passed is paid for once, and the reader stays valid.
pub record Advance (r s : Reader) : Type 0 where
  pub bytes : s.bytes ≡ r.bytes
  pub mapped_size : s.mapped_size ≡ r.mapped_size
  pub metadata_end : s.metadata_end ≡ r.metadata_end
  pub byte_budget_origin : s.byte_budget_origin ≡ r.byte_budget_origin
  pub max_bytes : s.max_bytes ≡ r.max_bytes
  pub max_work : s.max_work ≡ r.max_work
  pub endian_selector : s.endian_selector ≡ r.endian_selector
  pub forward : r.position ≤ s.position
  pub paid : s.work_used + r.position ≡ r.work_used + s.position
  pub valid : IsReader s

pub Advance-refl : (r : Reader) → IsReader r → Advance r r
Advance-refl r h = record {
  bytes = refl;
  mapped_size = refl;
  metadata_end = refl;
  byte_budget_origin = refl;
  max_bytes = refl;
  max_work = refl;
  endian_selector = refl;
  forward = omega arith;
  paid = refl;
  valid = h;
}

pub Advance-trans : (r s t : Reader) → Advance r s → Advance s t → Advance r t
Advance-trans r s t a b = record {
  bytes = b.bytes ∙ a.bytes;
  mapped_size = b.mapped_size ∙ a.mapped_size;
  metadata_end = b.metadata_end ∙ a.metadata_end;
  byte_budget_origin = b.byte_budget_origin ∙ a.byte_budget_origin;
  max_bytes = b.max_bytes ∙ a.max_bytes;
  max_work = b.max_work ∙ a.max_work;
  endian_selector = b.endian_selector ∙ a.endian_selector;
  forward = omega (arith, a.forward, b.forward);
  paid = omega (arith, a.paid, b.paid);
  valid = b.valid;
}

pub rejected :
    (r : Reader) (status : Status) (offset : ℕ)
    → IsReader r
    → Advance r (record r { status = status; error_offset = offset })
rejected r status offset h = record {
  bytes = refl;
  mapped_size = refl;
  metadata_end = refl;
  byte_budget_origin = refl;
  max_bytes = refl;
  max_work = refl;
  endian_selector = refl;
  forward = omega arith;
  paid = refl;
  valid = omega arith;
}

-- A step of `width` bytes that has room.
pub stepped : (r : Reader) (width : ℕ) → IsReader r → HasRoom r width → Advance r (moved r width)
stepped r width h room = record {
  bytes = refl;
  mapped_size = refl;
  metadata_end = refl;
  byte_budget_origin = refl;
  max_bytes = refl;
  max_work = refl;
  endian_selector = refl;
  forward = omega arith;
  paid = omega arith;
  valid = omega arith;
}

-- The operations that keep to this.
pub record Advances {A : Type 0} (m : Read A) : Type 0 where
  pub after : (r : Reader) → IsReader r → Advance r (m r).1

module _ {A : Type 0} where
  Advances-pure : (a : A) → Advances (pure a)
  unfolding pure
  Advances-pure a = record { after = Advance-refl }

  Advances-reject : (status : Status) (offset : ℕ) → Advances (reject_reader {A = A} status offset)
  unfolding reject_reader
  Advances-reject status offset = record { after = λ r h. rejected r status offset h }

module _ {A B : Type 0} where
  continue-Advance :
      (r s : Reader) (o : Option A) (f : A → Read B)
      → Advance r s
      → ((a : A) → Advances (f a))
      → Advance r (continue o f s).1
  continue-Advance r s none f h k = h
  continue-Advance r s (some a) f h k = Advance-trans r s _ h ((k a).after s h.valid)

  Advances-bind :
      (m : Read A) (f : A → Read B) → Advances m → ((a : A) → Advances (f a)) → Advances (m >>= f)
  unfolding ◌>>=◌
  Advances-bind m f h k = record {
    after = λ r v. continue-Advance r (m r).1 (m r).0 f (h.after r v) k;
  }

Advances-if :
    {A : Type 0} (b : Bool) (m n : Read A) → Advances m → Advances n → Advances (if b then m else n)
Advances-if true m n h k = h
Advances-if false m n h k = k

room-cases : (r : Reader) (width : ℕ) → HasRoom r width ⊎ ¬ HasRoom r width
room-cases r width =
    elim (Bool-cases (
      leb (r.position + width) r.metadata_end
      && (leb (r.position + width) r.mapped_size
          && (leb (r.position - r.byte_budget_origin + width) r.max_bytes
              && leb (r.work_used + width) r.max_work)))) [
                | inl e ↦ inl (record {
                  metadata = ground arith;
                  mapping = ground arith;
                  budget = ground arith;
                  work = ground arith;
                })
                | inr e ↦ inr (λ h. ground arith)
              ]

pub take_span-Advances : (width : ℕ) → Advances (take_span width)
take_span-Advances width = record {
  after = λ r v. elim (room-cases r width) [
    | inl room ↦ rw (take_span-room r width v room) (stepped r width v room)
    | inr none_left ↦ rw (take_span-refused r width v none_left) (rejected r _ _ v)
  ];
}

ruleset advances = (Advances-pure, Advances-reject, Advances-bind, Advances-if, take_span-Advances)

pub read_u32-Advances : Advances read_u32
unfolding read_u32
read_u32-Advances = record {
  after = λ r v.
      (Advances-bind (take_span 4)
          (λ source. pure (record {
            source = source;
            value = decode_u32 r.bytes source.offset r.endian_selector;
          }))
          (take_span-Advances 4) (λ source. Advances-pure _)).after
        r v;
}

pub read_count-Advances : Advances read_count
unfolding read_count
read_count-Advances = search (advances, read_u32-Advances)

read_script_hash-Advances : (b : Bool) → Advances (read_script_hash b)
unfolding read_script_hash
read_script_hash-Advances true = search advances
read_script_hash-Advances false = search advances

shaped-Advances : (o : Option Bool) (start : ℕ) → Advances (shaped o start)
unfolding shaped
shaped-Advances none start = search advances
shaped-Advances (some b) start = search advances

tree_payload-Advances : (nodes strings : Number) → Advances (tree_payload nodes strings)
unfolding tree_payload
tree_payload-Advances nodes strings = search advances

type_prefix_fields-Advances : (r : Reader) → Advances (type_prefix_fields r)
unfolding type_prefix_fields
type_prefix_fields-Advances r =
    search (advances, shaped-Advances, read_script_hash-Advances) depth 20

pub read_type_prefix-Advances : Advances read_type_prefix
unfolding read_type_prefix
read_type_prefix-Advances = record { after = λ r v. (type_prefix_fields-Advances r).after r v }

-- The budget of a tree is charged within its limits.
pub record IsBudget (b : TreeBudget) : Type 0 where
  pub nodes : b.node_records ≤ b.max_node_records
  pub strings : b.string_bytes ≤ b.max_string_bytes

module _ (budget : TreeBudget) (r : Reader) (v : IsReader r) (b : IsBudget budget) where
  tree_strings-Advance :
      (nodes : Number)
      → Advance r (tree_strings budget nodes r).2 × IsBudget (tree_strings budget nodes r).1
  unfolding tree_strings
  tree_strings-Advance nodes =
      let r' = (read_u32 r).1 in
      let a = read_u32-Advances.after r v in
      elim (Option-cases (read_u32 r).0) [
        | inl e ↦ rw (e, tree_strings) (a, b)
        | inr (strings, e) ↦
            rw (e, tree_strings)
              (elim (Bool-cases
                (ltb (budget.max_string_bytes - budget.string_bytes) strings.value)) [
                  | inl over ↦ rw over (
                    Advance-trans r r' _ a (
                        (Advances-reject {A = Tree} Status.string_limit strings.source.offset).after
                          r' a.valid),
                    b,
                  )
                  | inr fits ↦ rw fits (
                    Advance-trans r r' _ a ((tree_payload-Advances nodes strings).after r' a.valid),
                    record { nodes = b.nodes; strings = ground arith },
                  )
                ])
      ]

-- The limits of a budget.
abbrev pub maxima : TreeBudget → ℕ × ℕ
maxima b = (b.max_node_records, b.max_string_bytes)

tree_strings-maxima :
    (budget : TreeBudget) (nodes : Number) (r : Reader)
    → maxima (tree_strings budget nodes r).1 ≡ maxima budget
unfolding tree_strings
tree_strings-maxima budget nodes r = elim (Option-cases (read_u32 r).0) [
  | inl e ↦ rw (e, tree_strings) refl
  | inr (strings, e) ↦
      rw (e, tree_strings)
        (elim (Bool-cases (ltb (budget.max_string_bytes - budget.string_bytes) strings.value)) [
          | inl over ↦ rw over refl
          | inr fits ↦ rw fits refl
        ])
]

-- A tree read leaves the limits of its budget.
pub read_tree-maxima :
    (budget : TreeBudget) (r : Reader) → maxima (read_tree budget r).1 ≡ maxima budget
unfolding read_tree
read_tree-maxima budget r = elim (Option-cases (read_u32 r).0) [
  | inl e ↦ rw (e, read_tree) refl
  | inr (nodes, e) ↦
      rw (e, read_tree)
        (elim (Bool-cases (nodes.value == 0)) [
          | inl empty ↦ rw empty refl
          | inr some_nodes ↦
              rw some_nodes
                (elim (Bool-cases
                  (ltb (budget.max_node_records - budget.node_records) nodes.value)) [
                    | inl over ↦ rw over refl
                    | inr fits ↦ rw fits (tree_strings-maxima _ nodes _)
                  ])
        ])
]

-- A tree read of a valid reader, whether it succeeds or fails, moves only forward, pays one unit for each
-- byte that it passes and leaves a valid reader on the same mapping and limits; the node and string
-- counters stay within the budget.
pub read_tree-Advance :
    (budget : TreeBudget) (r : Reader)
    → IsReader r
    → IsBudget budget
    → Advance r (read_tree budget r).2 × IsBudget (read_tree budget r).1
unfolding read_tree
read_tree-Advance budget r v b =
    let r' = (read_u32 r).1 in
    let a = read_u32-Advances.after r v in
    elim (Option-cases (read_u32 r).0) [
      | inl e ↦ rw (e, read_tree) (a, b)
      | inr (nodes, e) ↦
          rw (e, read_tree)
            (elim (Bool-cases (nodes.value == 0)) [
              | inl empty ↦ rw empty (
                Advance-trans r r' _ a (
                    (Advances-reject {A = Tree} Status.tree_shape nodes.source.offset).after r'
                      a.valid),
                b,
              )
              | inr some_nodes ↦
                  rw some_nodes
                    (elim (Bool-cases
                      (ltb (budget.max_node_records - budget.node_records) nodes.value)) [
                        | inl over ↦ rw over (
                          Advance-trans r r' _ a (
                              (Advances-reject {A = Tree} Status.node_limit
                                  nodes.source.offset).after
                                r' a.valid),
                          b,
                        )
                        | inr fits ↦ rw fits (
                            let charged = record budget {
                              node_records = budget.node_records + nodes.value;
                            } in
                            let (t, c) =
                              tree_strings-Advance charged r' a.valid
                                (record { nodes = ground arith; strings = b.strings }) nodes in
                            (Advance-trans r r' _ a t, c))
                      ])
            ])
    ]

-- The reads of a number, of a count and of a type prefix, whether they succeed or fail, take a valid
-- reader forward to a valid one on the same mapping and limits, and pay one unit for each byte passed.
pub reads-Advances : Advances read_u32 × Advances read_count × Advances read_type_prefix
reads-Advances = (read_u32-Advances, read_count-Advances, read_type_prefix-Advances)
