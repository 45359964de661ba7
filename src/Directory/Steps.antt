-- ===== src/Directory/Steps.antt =====
-- What every step of the scanner keeps: the settings, the limits on the counters, one unit of work for
-- each byte passed and for each finished row. A step that stops charges no more than allowed.
use unity_common.Base.{
  ℕ, ◌+◌, ◌≤◌, ◌≡◌, ◌≢◌, refl, ap, subst, ◌∙◌, Bool, true, false, Option, none, some, arith,
  if◌then◌else◌,
}
use unity_common.Base.Words.{Bytes}
use unity_common.Prefix.{PrefixView}
use unity_common.MetadataReader
use unity_common.MetadataReader.{
  Reader, Read, Number, TreeBudget, Tree, read_tree, take_span, read_count, read_type_prefix,
}
use unity_common.MetadataReader.Take.{IsReader}
use unity_common.MetadataReader.Progress.{Advance, Advances}
use unity_common.Directory.{Status, Limit, Field, Limits, Result, Scan}
use unity_common.Directory.Stepping.{
  Outcome, good, stop, Step, continue, ◌>>=◌, pure, refuse, reader_status, reject_reader,
  after_read, read_with,
}

-- What holds of the end of a step: `Q` where it goes on, `E` where it stops.
unfoldable pub Ends : {A : Type 0} → (A → Scan → Type 0) → (Result → Type 0) → Outcome A → Type 0
Ends Q E (good a t) = Q a t
Ends Q E (stop r) = E r

-- The rule for a step and what follows it.
pub Ends-bind :
    {A B : Type 0} (Q : A → Scan → Type 0) (R : B → Scan → Type 0) (E : Result → Type 0)
    (o : Outcome A) (f : A → Step B)
    → Ends Q E o
    → ((a : A) (t : Scan) → Q a t → Ends R E (f a t))
    → Ends R E (continue o f)
unfolding Ends
Ends-bind Q R E (good a t) f h k = k a t h
Ends-bind Q R E (stop r) f h k = h

-- The parts of a scan that no step changes.
pub record Settings : Type 0 where
  pub limits : Limits
  pub prefix : PrefixView
  pub engine_version : ℕ
  pub bytes : Bytes
  pub mapped_size : ℕ
  pub metadata_end : ℕ
  pub byte_budget_origin : ℕ
  pub max_bytes : ℕ
  pub max_work : ℕ
  pub endian_selector : ℕ
  pub status : Status

abbrev pub settings : Scan → Settings
settings s = record {
  limits = s.limits;
  prefix = s.view.prefix;
  engine_version = s.view.engine_version;
  bytes = s.reader.bytes;
  mapped_size = s.reader.mapped_size;
  metadata_end = s.reader.metadata_end;
  byte_budget_origin = s.reader.byte_budget_origin;
  max_bytes = s.reader.max_bytes;
  max_work = s.reader.max_work;
  endian_selector = s.reader.endian_selector;
  status = s.result.status;
}

-- The invariant of a scan.
pub record IsScan (s : Scan) : Type 0 where
  pub reader : IsReader s.reader
  pub work : s.reader.max_work ≡ s.limits.max_work
  pub nodes : s.view.node_record_count ≤ s.limits.max_node_records
  pub strings : s.view.string_byte_count ≤ s.limits.max_string_bytes
  pub dependencies : s.view.dependency_word_count ≤ s.limits.max_dependency_words

-- From `s` to `t` the scan finishes `rows` rows.
pub record Moves (rows : ℕ) (s t : Scan) : Type 0 where
  pub same : settings t ≡ settings s
  pub forward : s.reader.position ≤ t.reader.position
  pub paid : t.reader.work_used + s.reader.position ≡ s.reader.work_used + t.reader.position + rows
  pub valid : IsScan t

abbrev pub counts : Scan → ℕ × ℕ
counts s = (s.view.type_count, s.view.object_count)

-- The same, and the counts of the rows stay.
abbrev pub Steps : ℕ → Scan → Scan → Type 0
Steps rows s t = Moves rows s t × (counts t ≡ counts s)

-- A stop keeps to the work that is allowed.
abbrev pub Failed : ℕ → Result → Type 0
Failed max_work r = (r.status ≢ Status.ok) × (r.work_used ≤ max_work)

pub Moves-trans : (n m : ℕ) (s t u : Scan) → Moves n s t → Moves m t u → Moves (n + m) s u
Moves-trans n m s t u a b = record {
  same = b.same ∙ a.same;
  forward = omega (arith, a.forward, b.forward);
  paid = omega (arith, a.paid, b.paid);
  valid = b.valid;
}

pub Steps-trans : (n m : ℕ) (s t u : Scan) → Steps n s t → Steps m t u → Steps (n + m) s u
Steps-trans n m s t u (a, c) (b, d) = (Moves-trans n m s t u a b, d ∙ c)

pub Steps-refl : (s : Scan) → IsScan s → Steps 0 s s
Steps-refl s v =
    (record { same = refl; forward = omega arith; paid = omega arith; valid = v }, refl)

-- A step that ends as `Steps` says, from every valid scan.
pub record Spends {A : Type 0} (rows : ℕ) (m : Step A) : Type 0 where
  pub ends : (s : Scan) → IsScan s → Ends (λ a t. Steps rows s t) (Failed s.limits.max_work) (m s)

pub reader_status-refuses : (status : MetadataReader.Status) → (reader_status status).0 ≢ Status.ok
reader_status-refuses status e = elim status [
  | MetadataReader.Status.ok ↦ ground (arith, e)
  | MetadataReader.Status.metadata_end ↦ ground (arith, e)
  | MetadataReader.Status.mapping_end ↦ ground (arith, e)
  | MetadataReader.Status.byte_limit ↦ ground (arith, e)
  | MetadataReader.Status.work_limit ↦ ground (arith, e)
  | MetadataReader.Status.negative_count ↦ ground (arith, e)
  | MetadataReader.Status.type_shape ↦ ground (arith, e)
  | MetadataReader.Status.tree_shape ↦ ground (arith, e)
  | MetadataReader.Status.node_limit ↦ ground (arith, e)
  | MetadataReader.Status.string_limit ↦ ground (arith, e)
  | MetadataReader.Status.terminated_string_limit ↦ ground (arith, e)
]

-- A scan whose reader has gone forward.
advanced :
    (s : Scan) (r : Reader) → IsScan s → Advance s.reader r → Steps 0 s (record s { reader = r })
advanced s r v a = (
  record {
    same = cc;
    forward = a.forward;
    paid = omega (arith, a.paid);
    valid = record {
      reader = a.valid;
      work = a.max_work ∙ v.work;
      nodes = v.nodes;
      strings = v.strings;
      dependencies = v.dependencies;
    };
  },
  refl,
)

rejected-Failed :
    (s : Scan) (r : Reader)
    → IsScan s
    → Advance s.reader r
    → Failed s.limits.max_work (reject_reader (record s { reader = r }))
unfolding reject_reader
rejected-Failed s r v a =
    (reader_status-refuses r.status, omega (arith, a.valid.in_work, a.max_work, v.work))

after_read-ends :
    {A : Type 0} (s : Scan) (x : Option A × Reader)
    → IsScan s
    → Advance s.reader x.1
    → Ends (λ a t. Steps 0 s t) (Failed s.limits.max_work) (after_read s x)
unfolding after_read Ends
after_read-ends s (some a, r) v h = advanced s r v h
after_read-ends s (none, r) v h = rejected-Failed s r v h

pub Spends-read : {A : Type 0} (m : Read A) → Advances m → Spends 0 (read_with m)
unfolding read_with
Spends-read m h = record {
  ends = λ s v. after_read-ends s (m s.reader) v (h.after s.reader v.reader);
}

module _ {A : Type 0} where
  pub Spends-pure : (a : A) → Spends 0 (pure a)
  unfolding pure Ends
  Spends-pure a = record { ends = λ s v. Steps-refl s v }

  pub Spends-refuse :
      (rows : ℕ) (status : Status) (limit : Limit) (field : Field) (row offset : ℕ)
      → status ≢ Status.ok
      → Spends rows (refuse {A = A} status limit field row offset)
  unfolding refuse Ends
  Spends-refuse rows status limit field row offset h = record {
    ends = λ s v. (h, omega (arith, v.reader.in_work, v.work));
  }

  pub Spends-if :
      {rows : ℕ} (b : Bool) (m n : Step A)
      → Spends rows m
      → Spends rows n
      → Spends rows (if b then m else n)
  Spends-if true m n h k = h
  Spends-if false m n h k = k

pub Ends-map :
    {A : Type 0} (Q R : A → Scan → Type 0) (E F : Result → Type 0) (o : Outcome A)
    → Ends Q E o
    → ((a : A) (t : Scan) → Q a t → R a t)
    → ((r : Result) → E r → F r)
    → Ends R F o
unfolding Ends
Ends-map Q R E F (good a t) h k l = k a t h
Ends-map Q R E F (stop r) h k l = l r h

pub Spends-count : {A : Type 0} (m : Step A) (n k : ℕ) → n ≡ k → Spends n m → Spends k m
Spends-count m n k e h = subst (λ j. Spends j m) e h

-- What follows a step, seen from a scan before it.
pub Moves-after :
    {A : Type 0} (n k : ℕ) (s t : Scan) (m : Step A)
    → Moves n s t
    → Spends k m
    → Ends (λ b u. Moves (n + k) s u × (counts u ≡ counts t)) (Failed s.limits.max_work) (m t)
Moves-after n k s t m st h =
    let same : t.limits.max_work ≡ s.limits.max_work = ap (λ k. k.limits.max_work) st.same in
    Ends-map (λ b u. Steps k t u) (λ b u. Moves (n + k) s u × (counts u ≡ counts t))
      (Failed t.limits.max_work) (Failed s.limits.max_work) (m t) (h.ends t st.valid)
      (λ b u su. (Moves-trans n k s t u st su.0, su.1)) (λ r f. (f.0, omega (arith, f.1, same)))

Spends-after :
    {A : Type 0} (n k : ℕ) (s t : Scan) (m : Step A)
    → Steps n s t
    → Spends k m
    → Ends (λ b u. Steps (n + k) s u) (Failed s.limits.max_work) (m t)
Spends-after n k s t m st h =
    let same : t.limits.max_work ≡ s.limits.max_work = ap (λ k. k.limits.max_work) st.0.same in
    Ends-map (λ b u. Steps k t u) (λ b u. Steps (n + k) s u) (Failed t.limits.max_work)
      (Failed s.limits.max_work) (m t) (h.ends t st.0.valid) (λ b u su. Steps-trans n k s t u st su)
      (λ r f. (f.0, omega (arith, f.1, same)))

pub Spends-bind :
    {A B : Type 0} (n k : ℕ) (m : Step A) (f : A → Step B)
    → Spends n m
    → ((a : A) → Spends k (f a))
    → Spends (n + k) (m >>= f)
unfolding ◌>>=◌
Spends-bind n k m f h g = record {
  ends = λ s v.
      Ends-bind (λ a t. Steps n s t) (λ b t. Steps (n + k) s t) (Failed s.limits.max_work) (m s) f
        (h.ends s v) (λ a t st. Spends-after n k s t (f a) st (g a));
}
