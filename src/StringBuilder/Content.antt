-- ===== src/StringBuilder/Content.antt =====
-- The text that a builder holds, through the operations that append.
use unity_common.Base.{
  ℕ, ◌+◌, ◌-◌, ◌^◌, ◌≤◌, ◌<◌, ◌≡◌, refl, sym, ap, ◌∙◌, ◌⊎◌, inl, inr, Bool, true, false, not, ◌||◌,
  Option, none, some, [], ◌∷◌, ◌++◌, append_assoc, append-nil, arith, ltb, leb, ◌==◌, if◌then◌else◌,
  lt→ltb, le→ltb, Bool-cases, length, take, length-append, take-append,
}
use unity_common.Base.Words.{Bytes, size_max}
use unity_common.StringBuilder.{
  State, mem_alloc, mem_realloc, grow, first_capacity, reallocate, is_given, put_if,
  sb_ensure_capacity, sb_append_len, sb_append_char,
}
use unity_common.StringBuilder.Growth.{grow-first}

-- An empty builder without a buffer, or a buffer with the text and its terminator in its capacity.
pub data Holds (s : State) (text : Bytes) : Type 0 where
  unallocated : s.buf ≡ none → text ≡ [] → s.len ≡ 0 → s.capacity ≡ 0 → Holds s text
  allocated :
      s.buf ≡ some (text ++ 0 ∷ []) → s.len ≡ length text → s.len < s.capacity → Holds s text

-- What `sb_ensure_capacity` leaves, by its answer.
data Ensured (additional : ℕ) (text : Bytes) (s : State) : Bool × State → Type 0 where
  has_room :
      (s' : State)
      → s'.buf ≡ some (text ++ 0 ∷ [])
      → s'.len ≡ length text
      → s'.len + additional + 1 ≤ s'.capacity
      → s'.failed ≡ false
      → s.failed ≡ false
      → Ensured additional text s (true, s')
  no_room : (s' : State) → Holds s' text → s'.failed ≡ true → Ensured additional text s (false, s')

-- What an append of `str` to `text` leaves: the whole of it, or the old text and the failure flag.
pub data Appended (text str : Bytes) (s s' : State) : Type 0 where
  appends : Holds s' (text ++ str) → s'.failed ≡ s.failed → Appended text str s s'
  keeps : Holds s' text → s'.failed ≡ true → Appended text str s s'

Holds-marked :
    (s : State) (text : Bytes)
    → Holds s text
    → Holds (record s { builder = record s.builder { failed = true } }) text
Holds-marked s text (unallocated b t l c) = unallocated b t l c
Holds-marked s text (allocated b l c) = allocated b l c

Holds-eq : (s s' : State) (text : Bytes) → s'.builder ≡ s.builder → Holds s text → Holds s' text
Holds-eq s s' text e (unallocated b t l c) = unallocated (rw e b) t (rw e l) (rw e c)
Holds-eq s s' text e (allocated b l c) = allocated (rw e b) (rw e l) (rw e c)

Holds-len : (s : State) (text : Bytes) → Holds s text → s.len ≡ length text
Holds-len s text (unallocated b t l c) = rw t l
Holds-len s text (allocated b l c) = l

-- Room in the capacity is room in a buffer: without one the capacity is 0.
Ensured-now :
    (additional : ℕ) (text : Bytes) (s : State)
    → s.failed ≡ false
    → s.len + additional + 1 ≤ s.capacity
    → Holds s text
    → Ensured additional text s (true, s)
Ensured-now additional text s ok room (unallocated b t l c) = absurd (omega arith)
Ensured-now additional text s ok room (allocated b l c) = has_room s b l room ok ok

-- A reallocation grants `new_cap` bytes or changes nothing but the tracker.
data Reallocated (new_cap : ℕ) (text : Bytes) (s s' : State) : Type 0 where
  granted_all :
      s'.buf ≡ some (text ++ 0 ∷ [])
      → s'.len ≡ s.len
      → s'.capacity ≡ new_cap
      → s'.failed ≡ s.failed
      → Reallocated new_cap text s s'
  refused : s'.builder ≡ s.builder → Reallocated new_cap text s s'

reallocate-Reallocated :
    (granted : Bool) (new_cap : ℕ) (text : Bytes) (s : State)
    → Holds s text
    → Reallocated new_cap text s (reallocate granted new_cap s)
unfolding reallocate mem_alloc mem_realloc
reallocate-Reallocated granted new_cap text s (unallocated b t l c) =
    elim (Bool-cases (new_cap == 0 || not granted)) [
      | inl e ↦ refused (rw (b, e) refl)
      | inr e ↦ granted_all (rw (b, e, t) refl) (rw (b, e) refl) (rw (b, e) refl) (rw (b, e) refl)
    ]
reallocate-Reallocated granted new_cap text s (allocated b l c) =
    elim (Bool-cases (new_cap == 0 || not granted)) [
      | inl e ↦ refused (rw (b, e) refl)
      | inr e ↦ granted_all (rw (b, e) refl) (rw (b, e) refl) (rw (b, e) refl) (rw (b, e) refl)
    ]

-- The capacity check of `sb_ensure_capacity` after the reallocation.
Ensured-grown :
    (additional new_cap : ℕ) (text : Bytes) (s s' : State)
    → Holds s text
    → s.failed ≡ false
    → s.capacity < s.len + additional + 1
    → s.len + additional + 1 ≤ new_cap
    → Reallocated new_cap text s s'
    → Ensured additional text s (
        if not (is_given s'.buf) || ltb s'.capacity (s.len + additional + 1)
        then (false, record s' { builder = record s'.builder { failed = true } })
        else (true, s'))
Ensured-grown additional new_cap text s s' h ok short enough (granted_all b l c f) =
    let test : (not (is_given s'.buf) || ltb s'.capacity (s.len + additional + 1)) ≡ false =
      rw (b, le→ltb s'.capacity (s.len + additional + 1) (omega (arith, c))) refl in
    rw test (has_room s' b (l ∙ Holds-len s text h) (omega (arith, l, c)) (f ∙ ok) ok)
Ensured-grown additional new_cap text s s' h ok short enough (refused e) =
    let small : ltb s'.capacity (s.len + additional + 1) ≡ true =
      lt→ltb s'.capacity (s.len + additional + 1) (rw e short) in
    let test : (not (is_given s'.buf) || ltb s'.capacity (s.len + additional + 1)) ≡ true =
      rw small (ground arith) in
    rw test (no_room _ (Holds-marked s' text (Holds-eq s s' text e h)) refl)

sb_ensure_capacity-Ensured :
    (granted : Bool) (additional : ℕ) (text : Bytes) (s : State)
    → s.capacity < 2 ^ 63
    → Holds s text
    → Ensured additional text s (sb_ensure_capacity granted additional s)
unfolding sb_ensure_capacity
sb_ensure_capacity-Ensured granted additional text s hc h =
    elim (Bool-cases (s.failed || (s.len == size_max || ltb (size_max - s.len - 1) additional))) [
      | inl e ↦ rw e (no_room _ (Holds-marked s text h) refl)
      | inr e ↦ rw e (elim (Bool-cases (leb (s.len + additional + 1) s.capacity)) [
        | inl e2 ↦ rw e2 (Ensured-now additional text s (ground arith) (ground arith) h)
        | inr e2 ↦ rw e2 (
            Ensured-grown additional (grow 64 (first_capacity s.capacity) (s.len + additional + 1))
              text s _ h (ground arith) (ground arith)
              (grow-first s.capacity (s.len + additional + 1) hc (ground arith))
              (reallocate-Reallocated granted _ text s h))
      ])
    ]

take-text : (text rest : Bytes) → take (length text) (text ++ rest) ≡ text
take-text text rest = take-append text rest

put_if-Appended :
    (str text : Bytes) (s : State) (answer : Bool × State)
    → Ensured (length str) text s answer
    → Appended text str s (put_if str answer)
put_if-Appended str text s answer (has_room s' b l room ok before) =
    appends
      (allocated (rw (b, l, take-text text (0 ∷ []), append_assoc text str (0 ∷ [])) refl)
        (rw (length-append text str) (ap (λ n. n + length str) l)) (omega (arith, room)))
      (ok ∙ sym before)
put_if-Appended str text s answer (no_room s' h bad) = keeps h bad

append-none : (s : State) (text : Bytes) → Holds s text → Appended text [] s s
append-none s text h = appends (rw (append-nil text) h) refl

-- An append of a span adds the whole of it behind the text, with a terminator inside the capacity, and
-- leaves the failure flag as it was; or it keeps the text and sets the flag. The capacity before is
-- less than 2^63, which no allocation reaches.
pub sb_append_len-Appended :
    (granted : Bool) (str text : Bytes) (s : State)
    → s.capacity < 2 ^ 63
    → Holds s text
    → Appended text str s (sb_append_len granted (some str) s)
unfolding sb_append_len
sb_append_len-Appended granted [] text s hc h = append-none s text h
sb_append_len-Appended granted (c ∷ cs) text s hc h =
    let some_bytes : (length (c ∷ cs) == 0) ≡ false = ground arith in
    rw some_bytes (
      put_if-Appended (c ∷ cs) text s _
        (sb_ensure_capacity-Ensured granted (length (c ∷ cs)) text s hc h))

-- An append of one character adds it behind the text, with a terminator inside the capacity, or keeps the
-- text and sets the failure flag; the capacity before is less than 2^63.
pub sb_append_char-Appended :
    (granted : Bool) (c : ℕ) (text : Bytes) (s : State)
    → s.capacity < 2 ^ 63
    → Holds s text
    → Appended text (c ∷ []) s (sb_append_char granted c s)
unfolding sb_append_char
sb_append_char-Appended granted c text s hc h =
    put_if-Appended (c ∷ []) text s _ (sb_ensure_capacity-Ensured granted 1 text s hc h)

-- What a formatted append to `text` leaves: the whole formatted text, which needs a builder that has not
-- failed, a format, a text that the sizing call finds, and a formatting call that agrees with it
-- unless the text is empty; or the old text and the failure flag.
pub data Formatted (has_fmt agrees : Bool) (formatted : Option Bytes) (text : Bytes) (s s' : State)
    : Type 0 where
  formats :
      (str : Bytes)
      → formatted ≡ some str
      → s.failed ≡ false
      → has_fmt ≡ true
      → (agrees ≡ true) ⊎ (str ≡ [])
      → Holds s' (text ++ str)
      → s'.failed ≡ false
      → Formatted has_fmt agrees formatted text s s'
  fails : Holds s' text → s'.failed ≡ true → Formatted has_fmt agrees formatted text s s'
