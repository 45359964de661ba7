-- ===== src/StringBuilder.antt =====
-- src/common/string_builder.c, with the tracked allocation of include/common/common.h.
-- `buf` is the initialised front of the allocation, `none` for a null pointer; a write at a position
-- keeps what stands before it. Whether `malloc` or `realloc` grants a request is an argument
-- `granted` of the calls that ask. The format functions take the text that `vsnprintf` produces.
pub mod Growth
pub mod Content
pub mod Accounting
mod Runs
use unity_common.Base.{
  ℕ, zero, suc, ◌+◌, ◌-◌, ◌*◌, ◌/◌, ◌%◌, ◌^◌, ◌≤◌, ◌<◌, ◌≡◌, ◌≢◌, ◌↔◌, refl, sym, ap, subst, ◌∙◌,
  ◌⊎◌, inl, inr, Bool, true, false, not, ◌&&◌, ◌||◌, Option, none, some, List, [], ◌∷◌, ◌++◌,
  append_assoc, append-nil, map, arith, ltb, leb, ◌==◌, if◌then◌else◌, ltb→lt, ltb→le, lt→ltb,
  le→ltb, leb→le, leb→lt, le→leb, lt→leb, ne→==, ==_iff, Bool-cases, Option-cases, length,
  get_elem?, get_or, take, drop, replicate, All, length-append, length-take, length-drop,
  length-replicate, drop-drop, drop-append, drop-get, take-append, take-append-drop, drop-nil,
  bit_and, bit_or, bit_xor, all_below, all_below_sound,
}
use unity_common.Base.Words.{
  Bytes, IsByte, size_max, uint32_max, int32_max, shl32, shl64, word32, word32_sum,
}

-- `g_allocated_bytes` and `g_allocations_count`, which wrap.
pub record Tracker : Type 0 where
  pub allocated_bytes : ℕ
  pub allocations_count : ℕ

abbrev pub fetch_add : ℕ → ℕ → ℕ
fetch_add counter n = (counter + n) % 2 ^ 64

abbrev pub fetch_sub : ℕ → ℕ → ℕ
fetch_sub counter n = (counter + 2 ^ 64 - n) % 2 ^ 64

-- Each answers whether the pointer that it returns is not null.
unfoldable pub mem_alloc : Bool → ℕ → Tracker → Bool × Tracker
mem_alloc granted size t = if size == 0 || not granted then (false, t) else (
  true,
  record {
    allocated_bytes = fetch_add t.allocated_bytes size;
    allocations_count = fetch_add t.allocations_count 1;
  },
)

pub mem_realloc : Bool → Bool → ℕ → ℕ → Tracker → Bool × Tracker
mem_realloc granted given old_size new_size t =
    if new_size == 0 || not granted then (false, t) else (
      true,
      record {
        allocated_bytes =
            if leb old_size new_size
            then fetch_add t.allocated_bytes (new_size - old_size)
            else fetch_sub t.allocated_bytes (old_size - new_size);
        allocations_count = if given then t.allocations_count else fetch_add t.allocations_count 1;
      },
    )

unfoldable pub mem_free : Bool → ℕ → Tracker → Tracker
mem_free given size t =
    if given
    then record {
      allocated_bytes = fetch_sub t.allocated_bytes size;
      allocations_count = fetch_sub t.allocations_count 1;
    }
    else t

pub mem_untrack_allocation : ℕ → Tracker → Tracker
mem_untrack_allocation size t = record {
  allocated_bytes = fetch_sub t.allocated_bytes size;
  allocations_count = fetch_sub t.allocations_count 1;
}

pub record StringBuilder : Type 0 where
  pub buf : Option Bytes
  pub len : ℕ
  pub capacity : ℕ
  pub failed : Bool

-- A builder with the tracker that its calls update.
pub record State : Type 0 where
  pub builder : StringBuilder
  pub open builder use *
  pub tracker : Tracker

abbrev pub is_given : Option Bytes → Bool
is_given none = false
is_given (some bytes) = true

abbrev pub sb_init : StringBuilder
sb_init = record { buf = none; len = 0; capacity = 0; failed = false }

pub sb_init_with_capacity : Bool → ℕ → Tracker → State
unfolding mem_alloc
sb_init_with_capacity granted capacity t =
    if ltb 0 capacity
    then (let (made, t') = mem_alloc granted capacity t in
        if made
        then record {
          builder = record sb_init { buf = some (0 ∷ []); capacity = capacity };
          tracker = t';
        }
        else record { builder = sb_init; tracker = t' })
    else record { builder = sb_init; tracker = t }

pub sb_free : State → State
unfolding mem_free
sb_free s = record { builder = sb_init; tracker = mem_free (is_given s.buf) s.capacity s.tracker }

-- `buf[position] = ...` and all that was initialised before it.
abbrev pub write_at : Option Bytes → ℕ → Bytes → Option Bytes
write_at none position bytes = none
write_at (some buf) position bytes = some (take position buf ++ bytes)

pub sb_clear : State → State
sb_clear s = record s { builder = record s.builder { len = 0; buf = write_at s.buf 0 (0 ∷ []) } }

-- The doubling loop. It needs no more rounds than a size has bits.
pub grow : ℕ → ℕ → ℕ → ℕ
grow zero new_cap required = new_cap
grow (suc fuel) new_cap required =
    let doubled = grow fuel (new_cap * 2 % 2 ^ 64) required in
    if ltb new_cap required
    then if ltb (size_max / 2) new_cap then required else doubled
    else new_cap

abbrev pub first_capacity : ℕ → ℕ
first_capacity capacity = if capacity == 0 then 32 else capacity * 2 % 2 ^ 64

abbrev pub mark_failed : State → State
mark_failed s = record s { builder = record s.builder { failed = true } }

-- The allocation for `new_cap` bytes: the first one starts with an empty string.
pub reallocate : Bool → ℕ → State → State
unfolding mem_alloc mem_realloc
reallocate granted new_cap s =
    if not (is_given s.buf)
    then (let (made, t) = mem_alloc granted new_cap s.tracker in
        if made
        then record {
          builder = record s.builder { buf = some (0 ∷ []); capacity = new_cap };
          tracker = t;
        }
        else record s { tracker = t })
    else (let (made, t) = mem_realloc granted true s.capacity new_cap s.tracker in
        if made
        then record { builder = record s.builder { capacity = new_cap }; tracker = t }
        else record s { tracker = t })

-- Answers whether there is room for `additional` bytes and the terminator.
pub sb_ensure_capacity : Bool → ℕ → State → Bool × State
unfolding grow reallocate
sb_ensure_capacity granted additional s =
    let required = s.len + additional + 1 in
    let grown = reallocate granted (grow 64 (first_capacity s.capacity) required) s in
    if s.failed || (s.len == size_max || ltb (size_max - s.len - 1) additional)
    then (false, mark_failed s)
    else if leb required s.capacity
    then (true, s)
    else if not (is_given grown.buf) || ltb grown.capacity required
    then (false, mark_failed grown)
    else (true, grown)

-- `memcpy(buf + len, str, n); len += n; buf[len] = 0;`
abbrev pub put : Bytes → State → State
put str s = record s {
  builder = record s.builder {
    buf = write_at s.buf s.len (str ++ 0 ∷ []);
    len = s.len + length str;
  };
}

abbrev put_if : Bytes → Bool × State → State
put_if str (true, s) = put str s
put_if str (false, s) = s

pub sb_append_len : Bool → Option Bytes → State → State
unfolding sb_ensure_capacity
sb_append_len granted none s = s
sb_append_len granted (some str) s =
    if length str == 0 then s else put_if str (sb_ensure_capacity granted (length str) s)

-- `str` holds the bytes before the NUL.
pub sb_append : Bool → Option Bytes → State → State
unfolding sb_append_len
sb_append granted str s = sb_append_len granted str s

pub sb_append_char : Bool → ℕ → State → State
unfolding sb_ensure_capacity
sb_append_char granted c s = put_if (c ∷ []) (sb_ensure_capacity granted 1 s)

-- `formatted` is the text of both `vsnprintf` calls, `none` where the first one fails; `agrees` says
-- that the second returns the length of the first.
abbrev restore_terminator : Bool × State → State
restore_terminator (true, s) =
    mark_failed (record s { builder = record s.builder { buf = write_at s.buf s.len (0 ∷ []) } })
restore_terminator (false, s) = s

pub sb_appendfv : Bool → Bool → Option Bytes → Bool → State → State
unfolding sb_ensure_capacity
sb_appendfv granted has_fmt formatted agrees s =
    if s.failed then s else if not has_fmt then mark_failed s else elim formatted [
      | none ↦ mark_failed s
      | some text ↦
          let room = sb_ensure_capacity granted (length text) s in
          if length text == 0
          then s
          else if agrees
          then put_if text room
          else restore_terminator room
    ]

-- The variadic arguments are in `formatted` already.
abbrev pub sb_appendf : Bool → Bool → Option Bytes → Bool → State → State
sb_appendf granted has_fmt formatted agrees s = sb_appendfv granted has_fmt formatted agrees s

pub sb_ok : Option State → Bool
sb_ok none = false
sb_ok (some s) = not s.failed

-- The detached buffer, `none` for a null pointer.
pub sb_detach : Bool → State → Option Bytes × State
unfolding mem_alloc mem_realloc mem_untrack_allocation
sb_detach granted s =
    if not (is_given s.buf)
    then (let (made, t) = mem_alloc granted 1 s.tracker in
        ((if made then some (0 ∷ []) else none), record s { tracker = t }))
    else (let (made, t) = mem_realloc granted true s.capacity (s.len + 1) s.tracker in
        (
          s.buf,
          record {
            builder = sb_init;
            tracker = mem_untrack_allocation (if made then s.len + 1 else s.capacity) t;
          },
        ))
