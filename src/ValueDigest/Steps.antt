-- ===== src/ValueDigest/Steps.antt =====
-- The steps of the traversal over plain bytes, each by the form that it adds.
use unity_common.Base.{
  ℕ, ◌+◌, ◌-◌, ◌≤◌, ◌≡◌, refl, ap, ◌∙◌, inl, inr, Bool, true, false, ◌&&◌, ◌||◌, Option, none, some,
  [], ◌++◌, append_assoc, append-nil, arith, ltb, leb, ◌==◌, if◌then◌else◌, Bool-cases, length,
}
use unity_common.Base.Words.{Bytes}
use unity_common.ValueDigest.{
  little_word, ◌>>=◌, hash_bytes, hash_word, hash_string, hash_tag, open_value, hash_counts,
  max_string,
}
use unity_common.ValueDigest.Encoding.{append}
use unity_common.ValueDigest.Format.{
  little_endian, word, Form, ◌⊕◌, plain, only_if, string_form, nested,
}

pub little_word-word : (v : ℕ) → little_word v ≡ word v
unfolding little_endian
little_word-word v = ground arith

-- What the traversal makes of a form, where `room` levels are left.
unfoldable pub outcome : Form → ℕ → Bytes × ℕ → Option (Bytes × ℕ)
outcome f room (m, n) =
    if f.valid && (leb f.nodes n && leb f.levels room)
    then some (m ++ f.bytes, n - f.nodes)
    else none

unfoldable pub Is : (Bytes × ℕ → Option (Bytes × ℕ)) → Form → ℕ → Type 0
Is h f room = (m : Bytes) (n : ℕ) → h (m, n) ≡ outcome f room (m, n)

pub bind-cong :
    {A B : Type 0} (o : Option A) (f g : A → Option B)
    → ((a : A) → f a ≡ g a)
    → (o >>= f) ≡ (o >>= g)
bind-cong none f g h = refl
bind-cong (some a) f g h = h a

outcome-bind :
    (f g : Form) (room : ℕ) (m : Bytes) (n : ℕ)
    → (outcome f room (m, n) >>= outcome g room) ≡ outcome (f ⊕ g) room (m, n)
unfolding outcome
outcome-bind f g room m n = elim (Bool-cases (f.valid && (leb f.nodes n && leb f.levels room))) [
  | inl e ↦ rw (e, append_assoc m f.bytes g.bytes) (ground (arith, e))
  | inr e ↦ rw e (ground (arith, e))
]

Is-bytes : (input : Bytes) (room : ℕ) → Is (hash_bytes append input) (plain input) room
unfolding Is outcome
Is-bytes input room m n = ground arith

pub precheck :
    (c : ℕ) (h : Bytes × ℕ → Option (Bytes × ℕ)) (f : Form) (room : ℕ)
    → c ≤ f.nodes
    → Is h f room
    → Is (λ d. if ltb d.1 c then none else h d) f room
unfolding Is outcome
precheck c h f room le k m n = elim (Bool-cases (ltb n c)) [
  | inl e ↦ rw e (ground (arith, e, le))
  | inr e ↦ rw e (k m n)
]

deeper :
    (h : Bytes × ℕ → Option (Bytes × ℕ)) (f : Form) (depth : ℕ)
    → Is h f (256 - (depth + 1))
    → Is
        (λ d. if leb 256 depth || d.1 == 0 then none else h (d.0, d.1 - 1))
        (nested f)
        (256 - depth)
unfolding Is outcome
deeper h f depth k m n = elim (Bool-cases (leb 256 depth || n == 0)) [
  | inl e ↦ rw e (ground (arith, e))
  | inr e ↦ rw e (k m (n - 1) ∙ ground (arith, e))
]

-- A step behind a step.
pub Is-bind :
    (h k : Bytes × ℕ → Option (Bytes × ℕ)) (f g : Form) (room : ℕ)
    → Is h f room
    → Is k g room
    → Is (λ d. h d >>= k) (f ⊕ g) room
unfolding Is
Is-bind h k f g room p q m n =
    ap (λ o. o >>= k) (p m n)
    ∙ bind-cong (outcome f room (m, n)) k (outcome g room) (λ (a, b). q a b)
    ∙ outcome-bind f g room m n

pub Is-word : (v room : ℕ) → Is (hash_word append v) (plain (word v)) room
unfolding Is
Is-word v room = rw (little_word-word v, hash_word) (Is-bytes (word v) room)

pub Is-none : (bytes : Bytes) (room : ℕ) → Is (λ d. none) (only_if false bytes) room
unfolding Is outcome
Is-none bytes room m n = refl

pub Is-some : (room : ℕ) → Is (λ d. some d) (plain []) room
unfolding Is outcome
Is-some room m n = ground (arith, append-nil m)

-- The length test of `hash_string`.
Is-long :
    (text : Bytes) (room : ℕ)
    → Is
        (λ d. hash_word append (length text) d >>= hash_bytes append text)
        (plain (word (length text) ++ text))
        room
    → Is
        (hash_string append (some text))
        (only_if (leb (length text) 16777216) (word (length text) ++ text))
        room
unfolding Is outcome
Is-long text room k m n = elim (Bool-cases (ltb max_string (length text))) [
  | inl e ↦ rw e (ground (arith, e))
  | inr e ↦ rw e (k m n ∙ ground (arith, e))
]

pub Is-string :
    (text : Option Bytes) (room : ℕ) → Is (hash_string append text) (string_form text) room
Is-string none room = Is-none [] room
Is-string (some text) room =
    Is-long text room (Is-bind _ _ _ _ room (Is-word (length text) room) (Is-bytes text room))

Is-tag :
    (name type_str : Option Bytes) (tag room : ℕ)
    → Is
        (hash_tag append name type_str tag)
        (plain (word tag) ⊕ string_form name ⊕ string_form type_str)
        room
Is-tag name type_str tag room =
    Is-bind _ _ _ _ room (Is-word tag room)
      (Is-bind _ _ _ _ room (Is-string name room) (Is-string type_str room))

pub Is-counts :
    (count : ℕ) (bytes : Bool) (room : ℕ)
    → Is (hash_counts append count bytes) (plain (word count ++ word (if bytes then 1 else 0))) room
Is-counts count bytes room =
    Is-bind _ _ _ _ room (Is-word count room) (Is-word (if bytes then 1 else 0) room)

abbrev nowhere : {A B : Type 0} → A → Option B
nowhere a = none

pub bind-none : {A B : Type 0} (o : Option A) → none ≡ (o >>= nowhere {B = B})
bind-none none = refl
bind-none (some a) = refl

-- The head of a value with a known kind, with what it holds behind it.
pub Is-value :
    (name type_str : Option Bytes) (tag depth : ℕ) (k : Bytes × ℕ → Option (Bytes × ℕ)) (f : Form)
    → Is k f (256 - (depth + 1))
    → Is
        (λ d. open_value append name type_str (some tag) depth d >>= k)
        (nested ((plain (word tag) ⊕ string_form name ⊕ string_form type_str) ⊕ f))
        (256 - depth)
unfolding Is
Is-value name type_str tag depth k f h m n =
    bind-if (leb 256 depth || n == 0) (hash_tag append name type_str tag (m, n - 1)) k
    ∙ deeper (λ d. hash_tag append name type_str tag d >>= k)
        ((plain (word tag) ⊕ string_form name ⊕ string_form type_str) ⊕ f) depth
        (Is-bind (hash_tag append name type_str tag) k
          (plain (word tag) ⊕ string_form name ⊕ string_form type_str) f (256 - (depth + 1))
          (Is-tag name type_str tag (256 - (depth + 1))) h)
        m n
  where
    bind-if :
        (b : Bool) (o : Option (Bytes × ℕ)) (k : Bytes × ℕ → Option (Bytes × ℕ))
        → ((if b then none else o) >>= k) ≡ (if b then none else (o >>= k))
    bind-if true o k = refl
    bind-if false o k = refl
