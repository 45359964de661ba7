-- ===== src/MetadataReader/Repeats.antt =====
-- Two reads of the same bytes find the same. What a read hands out and where it goes on does not depend
-- on the work that is left or on old diagnostics: only whether it refuses does.
use unity_common.Base.{
  ℕ, ◌+◌, ◌-◌, ◌≡◌, refl, sym, ap, subst, ◌∙◌, inl, inr, Bool, true, false, ◌||◌, Option, none,
  some, ltb, ◌==◌, if◌then◌else◌, Bool-cases, Option-cases,
}
use unity_common.MetadataReader.{
  Reader, Read, Number, TreeBudget, Tree, reject_reader, admit_extent, consume_span, read_u32,
  read_script_hash, shaped, type_prefix_fields, tree_payload, tree_strings, read_tree, take_span,
  read_count, read_type_prefix, decode_u32, Status, continue, ◌>>=◌, pure,
}

-- What a read of the cursor does not depend on.
pub record ReadRest : Type 0 where
  pub work_used : ℕ
  pub status : Status
  pub error_offset : ℕ

abbrev pub with_reader_rest : Reader → ReadRest → Reader
with_reader_rest r x = record r {
  work_used = x.work_used;
  status = x.status;
  error_offset = x.error_offset;
}

unfoldable pub ReadsAlike : {A : Type 0} → Option A × Reader → Option A × Reader → Type 0
ReadsAlike (some a, r) (some b, q) = (a ≡ b) × (x : ReadRest) × (q ≡ with_reader_rest r x)
ReadsAlike (some a, r) (none, q) = Unit {0}
ReadsAlike (none, r) (some b, q) = Unit {0}
ReadsAlike (none, r) (none, q) = Unit {0}

-- A read that finds the same whatever the rest.
pub record Repeats {A : Type 0} (m : Read A) : Type 0 where
  pub alike : (r : Reader) (x : ReadRest) → ReadsAlike (m r) (m (with_reader_rest r x))

rest_of : Reader → ReadRest
rest_of r = record { work_used = r.work_used; status = r.status; error_offset = r.error_offset }

module _ {A : Type 0} where
  second_stops : (o : Option A × Reader) (r : Reader) → ReadsAlike o (none, r)
  unfolding ReadsAlike
  second_stops (none, q) r = tt
  second_stops (some a, q) r = tt

  first_stops : (o : Option A × Reader) (r : Reader) → ReadsAlike (none, r) o
  unfolding ReadsAlike
  first_stops (none, q) r = tt
  first_stops (some a, q) r = tt

  Repeats-pure : (a : A) → Repeats (pure a)
  unfolding pure ReadsAlike
  Repeats-pure a = record { alike = λ r x. (refl, x, refl) }

  Repeats-reject : (status : Status) (offset : ℕ) → Repeats (reject_reader {A = A} status offset)
  unfolding reject_reader ReadsAlike
  Repeats-reject status offset = record { alike = λ r x. tt }

  Repeats-if : (b : Bool) (m n : Read A) → Repeats m → Repeats n → Repeats (if b then m else n)
  Repeats-if true m n h k = h
  Repeats-if false m n h k = k

module _ {A B : Type 0} where
  continue-alike :
      (o p : Option A × Reader) (f : A → Read B)
      → ReadsAlike o p
      → ((a : A) → Repeats (f a))
      → ReadsAlike (continue o.0 f o.1) (continue p.0 f p.1)
  unfolding ReadsAlike
  continue-alike (none, r) p f h k = first_stops _ r
  continue-alike (some a, r) (none, q) f h k = second_stops (f a r) q
  continue-alike (some a, r) (some b, q) f (e, x, g) k =
      subst (λ z. ReadsAlike (f a r) z) (ap (λ c. f c (with_reader_rest r x)) e ∙ ap (f b) (sym g))
        ((k a).alike r x)

  Repeats-bind :
      (m : Read A) (f : A → Read B) → Repeats m → ((a : A) → Repeats (f a)) → Repeats (m >>= f)
  unfolding ◌>>=◌
  Repeats-bind m f h k = record {
    alike = λ r x. continue-alike (m r) (m (with_reader_rest r x)) f (h.alike r x) k;
  }

Repeats-admit_extent : (width : ℕ) → Repeats (admit_extent width)
unfolding admit_extent reject_reader ReadsAlike
Repeats-admit_extent width = record {
  alike = λ r x.
      elim (Bool-cases (ltb r.metadata_end r.position || ltb (r.metadata_end - r.position) width)) [
        | inl e ↦ rw e tt
        | inr e ↦
            rw e
              (elim (Bool-cases
                (ltb r.mapped_size r.position || ltb (r.mapped_size - r.position) width)) [
                  | inl d ↦ rw d tt
                  | inr d ↦
                      rw d
                        (elim (Bool-cases (
                          ltb r.max_bytes (r.position - r.byte_budget_origin)
                          || ltb (r.max_bytes - (r.position - r.byte_budget_origin)) width)) [
                            | inl c ↦ rw c tt
                            | inr c ↦ rw c (refl, x, refl)
                          ])
                ])
      ];
}

Repeats-consume_span : (width : ℕ) → Repeats (consume_span width)
unfolding consume_span reject_reader ReadsAlike
Repeats-consume_span width = record {
  alike = λ r x. elim (Bool-cases (ltb (r.max_work - r.work_used) width)) [
    | inl e ↦ rw e (elim (Bool-cases (ltb (r.max_work - x.work_used) width)) [
      | inl d ↦ rw d tt
      | inr d ↦ rw d tt
    ])
    | inr e ↦ rw e (elim (Bool-cases (ltb (r.max_work - x.work_used) width)) [
      | inl d ↦ rw d tt
      | inr d ↦ rw d (refl, record x { work_used = x.work_used + width }, refl)
    ])
  ];
}

pub Repeats-take_span : (width : ℕ) → Repeats (take_span width)
unfolding take_span
Repeats-take_span width =
    Repeats-bind (admit_extent width) (λ u. consume_span width) (Repeats-admit_extent width)
      (λ u. Repeats-consume_span width)

pub Repeats-read_u32 : Repeats read_u32
unfolding read_u32
Repeats-read_u32 = record {
  alike = λ r x.
      (Repeats-bind (take_span 4)
          (λ source. pure (record {
            source = source;
            value = decode_u32 r.bytes source.offset r.endian_selector;
          }))
          (Repeats-take_span 4) (λ source. Repeats-pure _)).alike
        r x;
}

ruleset repeats = (Repeats-pure, Repeats-reject, Repeats-bind, Repeats-if, Repeats-take_span)

pub Repeats-read_count : Repeats read_count
unfolding read_count
Repeats-read_count = search (repeats, Repeats-read_u32)

Repeats-read_script_hash : (b : Bool) → Repeats (read_script_hash b)
unfolding read_script_hash
Repeats-read_script_hash true = search repeats
Repeats-read_script_hash false = search repeats

Repeats-shaped : (o : Option Bool) (start : ℕ) → Repeats (shaped o start)
unfolding shaped
Repeats-shaped none start = search repeats
Repeats-shaped (some b) start = search repeats

Repeats-tree_payload : (nodes strings : Number) → Repeats (tree_payload nodes strings)
unfolding tree_payload
Repeats-tree_payload nodes strings = search repeats

type_prefix_fields-Repeats : (r : Reader) → Repeats (type_prefix_fields r)
unfolding type_prefix_fields
type_prefix_fields-Repeats r = search (repeats, Repeats-shaped, Repeats-read_script_hash) depth 20

pub Repeats-read_type_prefix : Repeats read_type_prefix
unfolding read_type_prefix type_prefix_fields
Repeats-read_type_prefix = record { alike = λ r x. (type_prefix_fields-Repeats r).alike r x }

-- A tree read with the budget that it leaves beside the tree.
abbrev pub with_budget : Option Tree × TreeBudget × Reader → Option (Tree × TreeBudget) × Reader
with_budget (none, budget, r) = (none, r)
with_budget (some tree, budget, r) = (some (tree, budget), r)

payload_with : TreeBudget → Number → Number → Read (Tree × TreeBudget)
payload_with budget nodes strings = do tree ← tree_payload nodes strings; pure (tree, budget)

strings_with : TreeBudget → Number → Number → Read (Tree × TreeBudget)
strings_with budget nodes strings =
    if ltb (budget.max_string_bytes - budget.string_bytes) strings.value
    then reject_reader Status.string_limit strings.source.offset
    else payload_with (record budget { string_bytes = budget.string_bytes + strings.value }) nodes
        strings

nodes_with : TreeBudget → Number → Read (Tree × TreeBudget)
nodes_with budget nodes =
    if nodes.value == 0
    then reject_reader Status.tree_shape nodes.source.offset
    else if ltb (budget.max_node_records - budget.node_records) nodes.value
    then reject_reader Status.node_limit nodes.source.offset
    else (read_u32
        >>= strings_with (record budget { node_records = budget.node_records + nodes.value }) nodes)

payload_with-tree :
    (budget : TreeBudget) (x : Option Tree × Reader)
    → with_budget (x.0, budget, x.1) ≡ continue x.0 (λ tree. pure (tree, budget)) x.1
unfolding pure
payload_with-tree budget (none, r) = refl
payload_with-tree budget (some tree, r) = refl

tree_strings-with :
    (budget : TreeBudget) (nodes : Number) (r : Reader)
    → with_budget (tree_strings budget nodes r) ≡ (read_u32 >>= strings_with budget nodes) r
unfolding tree_strings ◌>>=◌ strings_with payload_with reject_reader
tree_strings-with budget nodes r = elim (Option-cases (read_u32 r).0) [
  | inl e ↦ rw (e, tree_strings) refl
  | inr (strings, e) ↦
      rw (e, tree_strings)
        (elim (Bool-cases (ltb (budget.max_string_bytes - budget.string_bytes) strings.value)) [
          | inl over ↦ rw over refl
          | inr fits ↦ rw fits (payload_with-tree _ (tree_payload nodes strings (read_u32 r).1))
        ])
]

read_tree-with :
    (budget : TreeBudget) (r : Reader)
    → with_budget (read_tree budget r) ≡ (read_u32 >>= nodes_with budget) r
unfolding read_tree ◌>>=◌ nodes_with reject_reader
read_tree-with budget r = elim (Option-cases (read_u32 r).0) [
  | inl e ↦ rw (e, read_tree) refl
  | inr (nodes, e) ↦
      rw (e, read_tree)
        (elim (Bool-cases (nodes.value == 0)) [
          | inl empty ↦ rw empty refl
          | inr some_nodes ↦
              rw some_nodes
                (elim (Bool-cases
                  (ltb (budget.max_node_records - budget.node_records) nodes.value)) [
                    | inl over ↦ rw over refl
                    | inr fits ↦ rw fits (tree_strings-with _ nodes (read_u32 r).1)
                  ])
        ])
]

Repeats-strings_with :
    (budget : TreeBudget) (nodes strings : Number) → Repeats (strings_with budget nodes strings)
unfolding strings_with payload_with
Repeats-strings_with budget nodes strings = search (repeats, Repeats-tree_payload)

Repeats-nodes_with : (budget : TreeBudget) (nodes : Number) → Repeats (nodes_with budget nodes)
unfolding nodes_with
Repeats-nodes_with budget nodes = search (repeats, Repeats-read_u32, Repeats-strings_with)

-- So do two tree reads, with the budgets that they leave.
pub read_tree-alike :
    (budget : TreeBudget) (r : Reader) (x : ReadRest)
    → ReadsAlike
        (with_budget (read_tree budget r))
        (with_budget (read_tree budget (with_reader_rest r x)))
read_tree-alike budget r x =
    rw (read_tree-with budget r, read_tree-with budget (with_reader_rest r x))
      ((Repeats-bind read_u32 (nodes_with budget) Repeats-read_u32
          (Repeats-nodes_with budget)).alike
        r x)
