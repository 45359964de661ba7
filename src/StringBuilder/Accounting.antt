-- ===== src/StringBuilder/Accounting.antt =====
-- What the allocation counters hold for a builder, and that `sb_free` and `sb_detach` give it back.
use unity_common.Base.{
  ℕ, ◌+◌, ◌-◌, ◌%◌, ◌^◌, ◌≤◌, ◌<◌, ◌≡◌, ◌≢◌, refl, inl, inr, Bool, true, false, not, ◌||◌, Option,
  none, some, [], ◌∷◌, ◌++◌, arith, ltb, leb, ◌==◌, if◌then◌else◌, Bool-cases, length,
}
use unity_common.Base.Words.{Bytes, size_max}
use unity_common.StringBuilder.Content.{Holds, unallocated, allocated}
use unity_common.StringBuilder.Growth.{grow-lt}
use unity_common.StringBuilder.{
  State, Tracker, mem_alloc, mem_realloc, mem_free, mem_untrack_allocation, grow, first_capacity,
  reallocate, is_given, write_at, put_if, sb_init, sb_free, sb_detach, sb_ensure_capacity,
  sb_append_len,
}

-- The counters without the builder.
pub record IsTracker (base : Tracker) : Type 0 where
  pub bytes : base.allocated_bytes < 2 ^ 64
  pub count : base.allocations_count < 2 ^ 64

-- Behind `base` the builder owns its capacity, in one allocation if it has a buffer.
pub record Balanced (base : Tracker) (s : State) : Type 0 where
  pub size : s.capacity < 2 ^ 64
  pub bytes : s.tracker.allocated_bytes ≡ (base.allocated_bytes + s.capacity) % 2 ^ 64
  pub count :
      s.tracker.allocations_count
      ≡ (base.allocations_count + (if is_given s.buf then 1 else 0)) % 2 ^ 64
  pub unallocated : is_given s.buf ≡ false → s.capacity ≡ 0

pub Tracker-eq :
    {t u : Tracker}
    → t.allocated_bytes ≡ u.allocated_bytes
    → t.allocations_count ≡ u.allocations_count
    → t ≡ u
Tracker-eq p q = cc

reallocate-Balanced :
    (base : Tracker) (granted : Bool) (new_cap : ℕ) (s : State)
    → IsTracker base
    → new_cap < 2 ^ 64
    → Balanced base s
    → Balanced base (reallocate granted new_cap s)
unfolding reallocate mem_alloc mem_realloc
reallocate-Balanced base granted new_cap s t hn b =
    elim (Bool-cases (new_cap == 0 || not granted)) [
      | inl e ↦ elim (Bool-cases (is_given s.buf)) [ inr g ↦ rw (g, e) b | inl g ↦ rw (g, e) b ]
      | inr e ↦ elim (Bool-cases (is_given s.buf)) [
        | inr g ↦
            rw (g, e)
              (record {
                size = hn;
                bytes = omega (arith, b.bytes, b.unallocated g);
                count = let c = rw g at b.count in omega (arith, c);
                unallocated = λ h. cc;
              })
        | inl g ↦
            rw (g, e)
              (record {
                size = hn;
                bytes = ground (arith, b.bytes, b.size);
                count = rw g (rw g at b.count);
                unallocated = λ h. cc;
              })
      ]
    ]

-- `sb_free` gives back what the builder owns.
pub sb_free-balances :
    (base : Tracker) (s : State) → IsTracker base → Balanced base s → (sb_free s).tracker ≡ base
unfolding sb_free mem_free
sb_free-balances base s t b = elim (Bool-cases (is_given s.buf)) [
  | inl e ↦ rw e (Tracker-eq (omega arith) (let c = rw e at b.count in omega (arith, c)))
  | inr e ↦
      rw e
        (Tracker-eq (omega (arith, b.unallocated e)) (let c = rw e at b.count in omega (arith, c)))
]

Balanced-builder :
    (base : Tracker) (s : State) (b : Balanced base s) (buf : Option Bytes) (len : ℕ)
    (failed : Bool)
    → is_given buf ≡ is_given s.buf
    → Balanced base (record s {
      builder = record { buf = buf; len = len; capacity = s.capacity; failed = failed };
    })
Balanced-builder base s b buf len failed e = record {
  size = b.size;
  bytes = b.bytes;
  count = rw e b.count;
  unallocated = rw e b.unallocated;
}

sb_ensure_capacity-Balanced :
    (base : Tracker) (granted : Bool) (additional : ℕ) (s : State)
    → s.len ≤ size_max
    → IsTracker base
    → Balanced base s
    → Balanced base (sb_ensure_capacity granted additional s).1
unfolding sb_ensure_capacity
sb_ensure_capacity-Balanced base granted additional s hl t b =
    elim (Bool-cases (s.failed || (s.len == size_max || ltb (size_max - s.len - 1) additional))) [
      | inl e ↦ rw e (Balanced-builder base s b s.buf s.len true refl)
      | inr e ↦ rw e (elim (Bool-cases (leb (s.len + additional + 1) s.capacity)) [
        | inl e2 ↦ rw e2 b
        | inr e2 ↦ rw e2 (
            after
              (reallocate granted (grow 64 (first_capacity s.capacity) (s.len + additional + 1)) s)
              (reallocate-Balanced base granted
                (grow 64 (first_capacity s.capacity) (s.len + additional + 1)) s t
                (grow-lt 64 (first_capacity s.capacity) (s.len + additional + 1) (ground arith)
                  (ground arith))
                b))
      ])
    ]
  where
    after :
        (g : State)
        → Balanced base g
        → Balanced base
            (if◌then◌else◌ {A = Bool × State}
              (not (is_given g.buf) || ltb g.capacity (s.len + additional + 1))
              (false, record g { builder = record g.builder { failed = true } })
              (true, g)).1
    after g h =
        elim (Bool-cases (not (is_given g.buf) || ltb g.capacity (s.len + additional + 1))) [
          | inl e ↦ rw e (Balanced-builder base g h g.buf g.len true refl)
          | inr e ↦ rw e h
        ]

is_given-write_at :
    (buf : Option Bytes) (i : ℕ) (bytes : Bytes) → is_given (write_at buf i bytes) ≡ is_given buf
is_given-write_at none i bytes = refl
is_given-write_at (some buf) i bytes = refl

put_if-Balanced :
    (base : Tracker) (str : Bytes) (answer : Bool × State)
    → Balanced base answer.1
    → Balanced base (put_if str answer)
put_if-Balanced base str (true, s) b =
    Balanced-builder base s b (write_at s.buf s.len (str ++ 0 ∷ [])) (s.len + length str) s.failed
      (is_given-write_at s.buf s.len (str ++ 0 ∷ []))
put_if-Balanced base str (false, s) b = b

-- Whatever is appended, and whatever the allocator grants, the counters stay those of `base` with the
-- builder's capacity and its one allocation.
pub sb_append_len-Balanced :
    (base : Tracker) (granted : Bool) (str : Option Bytes) (s : State)
    → s.len ≤ size_max
    → IsTracker base
    → Balanced base s
    → Balanced base (sb_append_len granted str s)
unfolding sb_append_len
sb_append_len-Balanced base granted none s hl t b = b
sb_append_len-Balanced base granted (some str) s hl t b = elim (Bool-cases (length str == 0)) [
  | inl e ↦ rw e b
  | inr e ↦
      rw e (
        put_if-Balanced base str _ (sb_ensure_capacity-Balanced base granted (length str) s hl t b))
]

-- Whatever is appended and whatever the allocator grants, a builder that is freed behind it gives back
-- all that it took: the counters are those without the builder.
pub free-append_len :
    (base : Tracker) (granted : Bool) (str : Option Bytes) (s : State)
    → s.len ≤ size_max
    → IsTracker base
    → Balanced base s
    → (sb_free (sb_append_len granted str s)).tracker ≡ base
free-append_len base granted str s hl t b =
    sb_free-balances base _ t (sb_append_len-Balanced base granted str s hl t b)

-- How a builder with the text `text` detaches it, by whether there is a buffer.
pub data Detaches (base : Tracker) (granted : Bool) (text : Bytes) (s : State)
    (answer : Option Bytes × State) : Type 0 where
  buffer :
      s.buf ≢ none
      → answer.0 ≡ some (text ++ 0 ∷ [])
      → answer.1.builder ≡ sb_init
      → answer.1.tracker ≡ base
      → Detaches base granted text s answer
  empty_string :
      s.buf ≡ none
      → granted ≡ true
      → answer.0 ≡ some (0 ∷ [])
      → answer.1.builder ≡ s.builder
      → answer.1.tracker.allocated_bytes ≡ (base.allocated_bytes + 1) % 2 ^ 64
      → answer.1.tracker.allocations_count ≡ (base.allocations_count + 1) % 2 ^ 64
      → Detaches base granted text s answer
  nothing :
      s.buf ≡ none
      → granted ≡ false
      → answer.0 ≡ none
      → answer.1.builder ≡ s.builder
      → answer.1.tracker ≡ base
      → Detaches base granted text s answer

-- A builder with a text detaches the text with its terminator. With a buffer the builder is then empty and
-- the counters are those without it, whether or not the last reallocation is granted. Without one,
-- an allocation that is granted detaches the empty string and stays counted, one byte and one
-- allocation; one that is refused detaches nothing and counts nothing.
pub sb_detach-tracker :
    (base : Tracker) (granted : Bool) (text : Bytes) (s : State)
    → IsTracker base
    → Balanced base s
    → Holds s text
    → Detaches base granted text s (sb_detach granted s)
unfolding sb_detach mem_alloc mem_realloc mem_untrack_allocation
sb_detach-tracker base granted text s t b (unallocated n e l c) =
    let given : is_given s.buf ≡ false = rw n refl in
    let k = rw given at b.count in
    let same : s.tracker ≡ base = Tracker-eq (omega (arith, b.bytes, c)) (omega (arith, k)) in
    elim (Bool-cases granted) [
      | inl g ↦
          empty_string n g (rw (given, g) refl) (rw given refl) (rw (given, g, same) refl)
            (rw (given, g, same) refl)
      | inr g ↦ nothing n g (rw (given, g) refl) (rw given refl) (rw (given, g, same) refl)
    ]
sb_detach-tracker base granted text s t b (allocated n l room) =
    let given : is_given s.buf ≡ true = rw n refl in
    let k = rw given at b.count in
    buffer (λ h. ground (arith, h, n)) (rw n refl) (rw given refl)
      (elim (Bool-cases ((s.len + 1) == 0 || not granted)) [
        | inl e ↦ rw (given, e) (Tracker-eq (omega (arith, b.bytes, b.size)) (omega (arith, k)))
        | inr e ↦ rw (given, e) (Tracker-eq (ground (arith, b.bytes, b.size)) (omega (arith, k)))
      ])
