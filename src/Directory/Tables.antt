-- ===== src/Directory/Tables.antt =====
-- What the second pass leaves in the tables: a row of its own for every ordinal below the counts.
use unity_common.Base.{
  ℕ, zero, suc, ◌+◌, ◌-◌, ◌<◌, ◌≡◌, ◌≢◌, refl, sym, ap, subst, ◌∙◌, inl, inr, Bool, true, false,
  Option, none, some, List, [], ◌∷◌, arith, ltb, ◌==◌, if◌then◌else◌, Bool-cases, length, get_elem?,
}
use unity_common.Prefix.{HeaderView}
use unity_common.MetadataReader.{Reader, Read, Number, read_tree}
use unity_common.Directory.{Status, Limit, Field, TypeRow, ObjectRow, Result, Scan}
use unity_common.Directory.Scanner.{
  add_cardinality, add_dependencies, tree_budget, with_counts, take_tree, set_at, scan_tree,
  no_tree, tree_part, admit_object,
}
use unity_common.Directory.Stepping.{
  Step, ◌>>=◌, pure, get_limits, get_view, modify_view, set_field, refuse, refuse_here,
  after_charge, charge, after_read, read_with,
}
use unity_common.Directory.Steps.{Ends, Ends-bind}

-- A table has a row that satisfies `G` for each of the first `n` ordinals.
abbrev pub Filled : {A : Type 0} → (ℕ → A → Type 0) → ℕ → List (Option A) → Type 0
Filled G n table = (i : ℕ) → i < n → (row : _) × (get_elem? table i ≡ some (some row)) × G i row

pub length-set_at :
    {A : Type 0} (n : ℕ) (a : A) (table : List A) → length (set_at n a table) ≡ length table
length-set_at n a [] = refl
length-set_at zero a (b ∷ table) = refl
length-set_at (suc n) a (b ∷ table) = ap (λ k. suc k) (length-set_at n a table)

get-set_at :
    {A : Type 0} (n : ℕ) (a : A) (table : List A)
    → n < length table
    → get_elem? (set_at n a table) n ≡ some a
get-set_at n a [] h = absurd (omega (arith, h))
get-set_at zero a (b ∷ table) h = refl
get-set_at (suc n) a (b ∷ table) h = get-set_at n a table (omega (arith, h))

get-set_at_other :
    {A : Type 0} (n i : ℕ) (a : A) (table : List A)
    → i ≢ n
    → get_elem? (set_at n a table) i ≡ get_elem? table i
get-set_at_other n i a [] h = refl
get-set_at_other zero zero a (b ∷ table) h = absurd (h refl)
get-set_at_other zero (suc i) a (b ∷ table) h = refl
get-set_at_other (suc n) zero a (b ∷ table) h = refl
get-set_at_other (suc n) (suc i) a (b ∷ table) h =
    get-set_at_other n i a table (λ e. h (ap (λ k. suc k) e))

-- The row of the next ordinal fills one more place.
pub Filled-set_at :
    {A : Type 0} (G : ℕ → A → Type 0) (n : ℕ) (row : A) (table : List (Option A))
    → Filled G n table
    → n < length table
    → G n row
    → Filled G (n + 1) (set_at n (some row) table)
Filled-set_at G n row table filled room g i h = elim (Bool-cases (i == n)) [
  | inl e ↦
      let same : n ≡ i = ground (arith, e) in
      (
        row,
        ap (get_elem? (set_at n (some row) table)) (sym same) ∙ get-set_at n (some row) table room,
        subst (λ k. G k row) same g,
      )
  | inr e ↦
      let (other, found, good_row) = filled i (ground (arith, e, h)) in
      let apart : i ≢ n = λ f. ground (arith, e, f) in
      (other, get-set_at_other n i (some row) table apart ∙ found, good_row)
]

-- The tables of a scan, their capacities, and the counts of their rows.
abbrev pub tables :
    Scan → Option (List (Option TypeRow)) × Option (List (Option ObjectRow)) × ℕ × ℕ × ℕ × ℕ
tables s =
    (s.types, s.objects, s.type_capacity, s.object_capacity, s.view.type_count, s.view.object_count)

abbrev pub Any : Result → Type 0
Any r = Unit {0}

-- A step that leaves the tables.
pub record Still {A : Type 0} (m : Step A) : Type 0 where
  pub ends : (s : Scan) → Ends (λ a t. tables t ≡ tables s) Any (m s)

module _ {A : Type 0} where
  after_read-still :
      (s : Scan) (x : Option A × Reader) → Ends (λ a t. tables t ≡ tables s) Any (after_read s x)
  unfolding after_read Ends
  after_read-still s (some a, r) = refl
  after_read-still s (none, r) = tt

  pub Still-read : (m : Read A) → Still (read_with m)
  unfolding read_with
  Still-read m = record { ends = λ s. after_read-still s (m s.reader) }

  Still-pure : (a : A) → Still (pure a)
  unfolding pure Ends
  Still-pure a = record { ends = λ s. refl }

  Still-refuse :
      (status : Status) (limit : Limit) (field : Field) (row offset : ℕ)
      → Still (refuse {A = A} status limit field row offset)
  unfolding refuse Ends
  Still-refuse status limit field row offset = record { ends = λ s. tt }

  Still-refuse_here :
      (status : Status) (limit : Limit) (offset : ℕ)
      → Still (refuse_here {A = A} status limit offset)
  unfolding refuse_here Ends
  Still-refuse_here status limit offset = record { ends = λ s. tt }

  Still-if : (b : Bool) (m n : Step A) → Still m → Still n → Still (if b then m else n)
  Still-if true m n h k = h
  Still-if false m n h k = k

  -- A still step behind others.
  pub Still-after :
      (T : _) (s : Scan) (m : Step A)
      → Still m
      → tables s ≡ T
      → Ends (λ a t. tables t ≡ T) Any (m s)
  Still-after T s m h e = subst (λ k. Ends (λ a t. tables t ≡ k) Any (m s)) e (h.ends s)

Still-bind :
    {A B : Type 0} (m : Step A) (f : A → Step B)
    → Still m
    → ((a : A) → Still (f a))
    → Still (m >>= f)
unfolding ◌>>=◌
Still-bind m f h k = record {
  ends = λ s.
      Ends-bind (λ a t. tables t ≡ tables s) _ Any (m s) f (h.ends s)
        (λ a t e. Still-after (tables s) t (f a) (k a) e);
}

Still-get_limits : Still get_limits
unfolding get_limits Ends
Still-get_limits = record { ends = λ s. refl }

Still-get_view : Still get_view
unfolding get_view Ends
Still-get_view = record { ends = λ s. refl }

Still-modify_view :
    (total : ℕ) → Still (modify_view (λ v. record v { dependency_word_count = total }))
unfolding modify_view Ends
Still-modify_view total = record { ends = λ s. refl }

Still-set_field : (field : Field) → Still (set_field field)
unfolding set_field Ends
Still-set_field field = record { ends = λ s. refl }

after_charge-still :
    (s : Scan) (x : Bool × Result) → Ends (λ a t. tables t ≡ tables s) Any (after_charge s x)
unfolding after_charge Ends
after_charge-still s (true, r) = refl
after_charge-still s (false, r) = tt

pub Still-charge :
    (amount : ℕ) (field : Field) (row offset : ℕ) → Still (charge amount field row offset)
unfolding charge
Still-charge amount field row offset = record { ends = λ s. after_charge-still s _ }

Still-take_tree : Still take_tree
unfolding take_tree
Still-take_tree = record {
  ends = λ s.
      after_read-still
        (record s { view = with_counts s.view (read_tree (tree_budget s) s.reader).1 }) _;
}

Still-add_cardinality :
    (total count maximum : ℕ) (limit : Limit) (offset : ℕ)
    → Still (add_cardinality total count maximum limit offset)
unfolding add_cardinality
Still-add_cardinality total count maximum limit offset =
    Still-if (ltb (maximum - total) count) _ _ (Still-refuse_here _ _ _) (Still-pure _)

ruleset still = (
  Still-read, Still-pure, Still-refuse, Still-refuse_here, Still-if, Still-bind, Still-get_limits,
  Still-get_view, Still-modify_view, Still-set_field, Still-charge, Still-take_tree,
  Still-add_cardinality,
)

Still-add_dependencies : (count : Number) → Still (add_dependencies count)
unfolding add_dependencies
Still-add_dependencies count = search still depth 20

Still-scan_tree : Still scan_tree
unfolding scan_tree
Still-scan_tree = search (still, Still-add_dependencies) depth 20

pub Still-tree_part : (b : Bool) → Still (tree_part b)
unfolding tree_part
Still-tree_part true = Still-scan_tree
Still-tree_part false = Still-pure no_tree

pub Still-admit_object :
    (header : HeaderView) (type_count : ℕ) (row : ObjectRow)
    → Still (admit_object header type_count row)
unfolding admit_object
Still-admit_object header type_count row = search still depth 20
