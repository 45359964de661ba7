-- ===== src/Directory/Replay.antt =====
-- Two passes over the same bytes find the same. What a step finds does not depend on the work that is
-- left, on the tables or on old diagnostics: only whether it stops does.
use unity_common.Base.{
  ℕ, zero, suc, ◌+◌, ◌-◌, ◌≡◌, refl, sym, ap, subst, ◌∙◌, Bool, true, false, Option, none, some,
  List, ltb, if◌then◌else◌,
}
use unity_common.Prefix.{HeaderView}
use unity_common.MetadataReader.{Reader, Read, Number, TreeBudget, Tree}
use unity_common.MetadataReader.Repeats.{
  ReadRest, with_reader_rest, ReadsAlike, Repeats, Repeats-take_span, Repeats-read_count,
  Repeats-read_type_prefix, with_budget, read_tree-alike,
}
use unity_common.Directory.{Status, Limit, Field, TypeRow, ObjectRow, View, Result, Scan}
use unity_common.Directory.Scanner.{
  add_cardinality, add_dependencies, tree_budget, with_counts, take_tree, scan_tree, no_tree,
  tree_part, write_type, write_object, scan_type, admit_object, scan_object, scan_types,
  scan_objects, admit_type_count, admit_object_count, scan_type_table, scan_object_table,
  scan_directory,
}
use unity_common.Directory.Stepping.{
  Outcome, good, stop, Step, continue, ◌>>=◌, pure, get_limits, get_view, get_bytes, get_position,
  modify_view, set_field, set_row, refuse, refuse_here, after_charge, charge, after_read, read_with,
}

-- What the findings of a scan do not depend on.
pub record Rest : Type 0 where
  pub reader : ReadRest
  pub result : Result
  pub field : Field
  pub row_ordinal : ℕ
  pub types : Option (List (Option TypeRow))
  pub objects : Option (List (Option ObjectRow))
  pub type_capacity : ℕ
  pub object_capacity : ℕ

abbrev pub twin : Scan → Rest → Scan
twin s x = record s {
  reader = with_reader_rest s.reader x.reader;
  result = x.result;
  field = x.field;
  row_ordinal = x.row_ordinal;
  types = x.types;
  objects = x.objects;
  type_capacity = x.type_capacity;
  object_capacity = x.object_capacity;
}

unfoldable pub Alike : {A : Type 0} → Outcome A → Outcome A → Type 0
Alike (good a s) (good b t) = (a ≡ b) × (x : Rest) × (t ≡ twin s x)
Alike (good a s) (stop r) = Unit {0}
Alike (stop r) (good b t) = Unit {0}
Alike (stop r) (stop q) = Unit {0}

-- A step that finds the same whatever the rest.
pub record Steady {A : Type 0} (m : Step A) : Type 0 where
  pub alike : (s : Scan) (x : Rest) → Alike (m s) (m (twin s x))

module _ {A : Type 0} where
  second_stops : (o : Outcome A) (r : Result) → Alike o (stop r)
  unfolding Alike
  second_stops (stop q) r = tt
  second_stops (good a s) r = tt

  first_stops : (o : Outcome A) (r : Result) → Alike (stop r) o
  unfolding Alike
  first_stops (stop q) r = tt
  first_stops (good a s) r = tt

  Steady-pure : (a : A) → Steady (pure a)
  unfolding pure Alike
  Steady-pure a = record { alike = λ s x. (refl, x, refl) }

  Steady-refuse :
      (status : Status) (limit : Limit) (field : Field) (row offset : ℕ)
      → Steady (refuse {A = A} status limit field row offset)
  unfolding refuse Alike
  Steady-refuse status limit field row offset = record { alike = λ s x. tt }

  Steady-refuse_here :
      (status : Status) (limit : Limit) (offset : ℕ)
      → Steady (refuse_here {A = A} status limit offset)
  unfolding refuse_here Alike
  Steady-refuse_here status limit offset = record { alike = λ s x. tt }

  Steady-if : (b : Bool) (m n : Step A) → Steady m → Steady n → Steady (if b then m else n)
  Steady-if true m n h k = h
  Steady-if false m n h k = k

  after_read-Alike :
      (s : Scan) (x : Rest) (o p : Option A × Reader)
      → ReadsAlike o p
      → Alike (after_read s o) (after_read (twin s x) p)
  unfolding ReadsAlike after_read Alike
  after_read-Alike s x (none, r) (none, q) h = tt
  after_read-Alike s x (none, r) (some b, q) h = tt
  after_read-Alike s x (some a, r) (none, q) h = tt
  after_read-Alike s x (some a, r) (some b, q) (e, y, g) =
      (e, record x { reader = y }, ap (λ k. record (twin s x) { reader = k }) g)

  Steady-read : (m : Read A) → Repeats m → Steady (read_with m)
  unfolding read_with
  Steady-read m h = record {
    alike = λ s x.
        after_read-Alike s x (m s.reader) (m (with_reader_rest s.reader x.reader))
          (h.alike s.reader x.reader);
  }

module _ {A B : Type 0} where
  continue-Alike :
      (o p : Outcome A) (f : A → Step B)
      → Alike o p
      → ((a : A) → Steady (f a))
      → Alike (continue o f) (continue p f)
  unfolding Alike
  continue-Alike (stop r) p f h k = first_stops _ r
  continue-Alike (good a s) (stop r) f h k = second_stops (f a s) r
  continue-Alike (good a s) (good b t) f (e, x, g) k =
      subst (λ z. Alike (f a s) z) (ap (λ c. f c (twin s x)) e ∙ ap (f b) (sym g)) ((k a).alike s x)

  Steady-bind :
      (m : Step A) (f : A → Step B) → Steady m → ((a : A) → Steady (f a)) → Steady (m >>= f)
  unfolding ◌>>=◌
  Steady-bind m f h k = record {
    alike = λ s x. continue-Alike (m s) (m (twin s x)) f (h.alike s x) k;
  }

Steady-get_limits : Steady get_limits
unfolding get_limits Alike
Steady-get_limits = record { alike = λ s x. (refl, x, refl) }

Steady-get_view : Steady get_view
unfolding get_view Alike
Steady-get_view = record { alike = λ s x. (refl, x, refl) }

Steady-get_bytes : Steady get_bytes
unfolding get_bytes Alike
Steady-get_bytes = record { alike = λ s x. (refl, x, refl) }

Steady-get_position : Steady get_position
unfolding get_position Alike
Steady-get_position = record { alike = λ s x. (refl, x, refl) }

Steady-modify_view : (f : View → View) → Steady (modify_view f)
unfolding modify_view Alike
Steady-modify_view f = record { alike = λ s x. (refl, x, refl) }

Steady-set_field : (field : Field) → Steady (set_field field)
unfolding set_field Alike
Steady-set_field field = record { alike = λ s x. (refl, record x { field = field }, refl) }

Steady-set_row : (ordinal : ℕ) → Steady (set_row ordinal)
unfolding set_row Alike
Steady-set_row ordinal = record { alike = λ s x. (refl, record x { row_ordinal = ordinal }, refl) }

Steady-write_type : (ordinal : ℕ) (row : TypeRow) → Steady (write_type ordinal row)
unfolding write_type Alike
Steady-write_type ordinal row = record { alike = λ s x. (refl, record x { types = _ }, refl) }

Steady-write_object : (ordinal : ℕ) (row : ObjectRow) → Steady (write_object ordinal row)
unfolding write_object Alike
Steady-write_object ordinal row = record { alike = λ s x. (refl, record x { objects = _ }, refl) }

after_charge-Alike :
    (s : Scan) (x : Rest) (p q : Bool × Result)
    → Alike (after_charge s p) (after_charge (twin s x) q)
unfolding after_charge Alike
after_charge-Alike s x (false, r) (false, q) = tt
after_charge-Alike s x (false, r) (true, q) = tt
after_charge-Alike s x (true, r) (false, q) = tt
after_charge-Alike s x (true, r) (true, q) = (
  refl,
  record x {
    result = q;
    reader = record x.reader { work_used = q.work_used; status = _; error_offset = _ };
  },
  refl,
)

Steady-charge :
    (amount : ℕ) (field : Field) (row offset : ℕ) → Steady (charge amount field row offset)
unfolding charge
Steady-charge amount field row offset = record { alike = λ s x. after_charge-Alike s x _ _ }

take_tree-Alike :
    (s : Scan) (x : Rest) (o p : Option Tree) (b c : TreeBudget) (r q : Reader)
    → ReadsAlike (with_budget (o, b, r)) (with_budget (p, c, q))
    → Alike
        (after_read (record s { view = with_counts s.view b }) (o, r))
        (after_read (record (twin s x) { view = with_counts s.view c }) (p, q))
unfolding ReadsAlike after_read Alike
take_tree-Alike s x none none b c r q h = tt
take_tree-Alike s x none (some u) b c r q h = tt
take_tree-Alike s x (some t) none b c r q h = tt
take_tree-Alike s x (some t) (some u) b c r q (e, y, g) = (
  ap (λ k. k.0) e,
  record x { reader = y },
  ap (λ k. record (twin s x) { view = with_counts s.view k.1; reader = q }) (sym e)
      ∙ ap (λ k. record (twin s x) { view = with_counts s.view b; reader = k }) g,
)

Steady-take_tree : Steady take_tree
unfolding take_tree
Steady-take_tree = record {
  alike =
      λ s x. take_tree-Alike s x _ _ _ _ _ _ (read_tree-alike (tree_budget s) s.reader x.reader);
}

-- The checks behind a count either stop or go on with the scan as it is.
settled :
    (s : Scan) (x : Rest) (status status' : Status) (limit limit' : Limit) (offset offset' : ℕ)
    (b c d : Bool)
    → Alike
        (if b
          then refuse_here {A = Unit {0}} status limit offset s
          else if c
          then refuse_here status' limit' offset' s
          else pure tt s)
        (if b
          then refuse_here {A = Unit {0}} status limit offset (twin s x)
          else if d
          then refuse_here status' limit' offset' (twin s x)
          else pure tt (twin s x))
unfolding refuse_here pure Alike
settled s x status status' limit limit' offset offset' true c d = tt
settled s x status status' limit limit' offset offset' false true true = tt
settled s x status status' limit limit' offset offset' false true false = tt
settled s x status status' limit limit' offset offset' false false true = tt
settled s x status status' limit limit' offset offset' false false false = (refl, x, refl)

Steady-admit_type_count : (count : Number) → Steady (admit_type_count count)
unfolding admit_type_count
Steady-admit_type_count count = record {
  alike = λ s x. settled s x _ _ _ _ _ _ (ltb s.limits.max_types count.value) _ _;
}

Steady-admit_object_count : (count : Number) → Steady (admit_object_count count)
unfolding admit_object_count
Steady-admit_object_count count = record {
  alike = λ s x. settled s x _ _ _ _ _ _ (ltb s.limits.max_objects count.value) _ _;
}

Steady-add_cardinality :
    (total count maximum : ℕ) (limit : Limit) (offset : ℕ)
    → Steady (add_cardinality total count maximum limit offset)
unfolding add_cardinality
Steady-add_cardinality total count maximum limit offset =
    Steady-if (ltb (maximum - total) count) _ _ (Steady-refuse_here _ _ _) (Steady-pure _)

ruleset steady = (
  Steady-pure, Steady-refuse, Steady-refuse_here, Steady-if, Steady-read, Steady-bind,
  Steady-get_limits, Steady-get_view, Steady-get_bytes, Steady-get_position, Steady-modify_view,
  Steady-set_field, Steady-set_row, Steady-write_type, Steady-write_object, Steady-charge,
  Steady-take_tree, Steady-admit_type_count, Steady-admit_object_count, Steady-add_cardinality,
  Repeats-take_span, Repeats-read_count, Repeats-read_type_prefix,
)

Steady-add_dependencies : (count : Number) → Steady (add_dependencies count)
unfolding add_dependencies
Steady-add_dependencies count = search steady depth 20

Steady-scan_tree : Steady scan_tree
unfolding scan_tree
Steady-scan_tree = search (steady, Steady-add_dependencies) depth 20

Steady-tree_part : (b : Bool) → Steady (tree_part b)
unfolding tree_part
Steady-tree_part true = Steady-scan_tree
Steady-tree_part false = Steady-pure no_tree

Steady-scan_type : (ordinal : ℕ) → Steady (scan_type ordinal)
unfolding scan_type
Steady-scan_type ordinal = search (steady, Steady-tree_part) depth 30

Steady-admit_object :
    (header : HeaderView) (type_count : ℕ) (row : ObjectRow)
    → Steady (admit_object header type_count row)
unfolding admit_object
Steady-admit_object header type_count row = search steady depth 20

Steady-scan_object : (ordinal : ℕ) → Steady (scan_object ordinal)
unfolding scan_object
Steady-scan_object ordinal = search (steady, Steady-admit_object) depth 30

Steady-scan_types : (n ordinal : ℕ) → Steady (scan_types n ordinal)
unfolding scan_types
Steady-scan_types zero ordinal = Steady-pure tt
Steady-scan_types (suc n) ordinal =
    Steady-bind _ _ (Steady-scan_type ordinal) (λ x. Steady-scan_types n (ordinal + 1))

Steady-scan_objects : (n ordinal : ℕ) → Steady (scan_objects n ordinal)
unfolding scan_objects
Steady-scan_objects zero ordinal = Steady-pure tt
Steady-scan_objects (suc n) ordinal =
    Steady-bind _ _ (Steady-scan_object ordinal) (λ x. Steady-scan_objects n (ordinal + 1))

Steady-scan_type_table : Steady scan_type_table
unfolding scan_type_table
Steady-scan_type_table = search (steady, Steady-scan_types) depth 30

Steady-scan_object_table : Steady scan_object_table
unfolding scan_object_table
Steady-scan_object_table = search (steady, Steady-scan_objects) depth 30

pub Steady-scan_directory : Steady scan_directory
unfolding scan_directory
Steady-scan_directory = search (steady, Steady-scan_type_table, Steady-scan_object_table) depth 20
