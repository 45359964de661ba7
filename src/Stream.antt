-- ===== src/Stream.antt =====
-- src/common/stream.c, with the byte swaps of include/common/common.h. The stream and the places for
-- results are given, but for the destination of `stream_read_bytes`: the tests for other null
-- pointers are left out. A read that returns false hands out `none`. `host_big` is
-- HOST_IS_BIG_ENDIAN. The signed and floating-point reads hand out the bits of the unsigned ones.
pub mod Reads
pub mod Strings
mod Runs
use unity_common.Base.{
  ℕ, zero, suc, ◌+◌, ◌-◌, ◌*◌, ◌/◌, ◌%◌, ◌^◌, ◌≤◌, ◌<◌, ◌≡◌, ◌≢◌, ◌↔◌, refl, sym, ap, subst, ◌∙◌,
  ◌⊎◌, inl, inr, Bool, true, false, not, ◌&&◌, ◌||◌, Option, none, some, List, [], ◌∷◌, ◌++◌,
  append_assoc, append-nil, map, arith, ltb, leb, ◌==◌, if◌then◌else◌, ltb→lt, ltb→le, lt→ltb,
  le→ltb, leb→le, leb→lt, le→leb, lt→leb, ne→==, ==_iff, Bool-cases, Option-cases, length,
  get_elem?, get_or, take, drop, replicate, All, length-append, length-take, length-drop,
  length-replicate, drop-drop, drop-append, drop-get, take-append, take-append-drop, drop-nil,
  bit_and, bit_or, bit_xor, all_below, all_below_sound,
}
use unity_common.Base.Words.{
  Bytes, IsByte, size_max, uint32_max, int32_max, shl32, shl64, word32, word32_sum,
}
use unity_common.Base.Words.{big_endian, little_endian}
use unity_common.StringBuilder.{Tracker, mem_alloc}

pub record ByteStream : Type 0 where
  pub bytes : Bytes
  pub size : ℕ
  pub position : ℕ
  pub is_big_endian : Bool

pub stream_init : Bytes → ℕ → ByteStream
stream_init bytes size = record { bytes = bytes; size = size; position = 0; is_big_endian = false }

pub stream_set_endian : Bool → ByteStream → ByteStream
stream_set_endian is_big_endian s = record s { is_big_endian = is_big_endian }

abbrev pub stream_remaining : ByteStream → ℕ
stream_remaining s = if ltb s.size s.position then 0 else s.size - s.position

pub stream_seek : ℕ → ByteStream → Bool × ByteStream
stream_seek position s =
    if ltb s.size position then (false, s) else (true, record s { position = position })

pub stream_skip : ℕ → ByteStream → Bool × ByteStream
stream_skip count s =
    if ltb (stream_remaining s) count
    then (false, s)
    else (true, record s { position = s.position + count })

pub stream_align : ℕ → ByteStream → Bool × ByteStream
unfolding stream_skip
stream_align alignment s =
    if alignment == 0
    then (true, s)
    else if not (s.position % alignment == 0)
    then stream_skip (alignment - s.position % alignment) s
    else (true, s)

-- `given` says that `dest` is not null.
pub stream_read_bytes : Bool → ℕ → ByteStream → Option Bytes × ByteStream
stream_read_bytes given count s =
    if (not given && not (count == 0)) || ltb (stream_remaining s) count
    then (none, s)
    else (some (take count (drop s.position s.bytes)), record s { position = s.position + count })

abbrev pub swap_uint16 : ℕ → ℕ
swap_uint16 val = bit_or (val * 2 ^ 8) (val / 2 ^ 8) % 2 ^ 16

abbrev pub swap_uint32 : ℕ → ℕ
swap_uint32 val =
    bit_or
      (bit_or (bit_or (shl32 (bit_and val 0xff) 24) (shl32 (bit_and val 0xff00) 8))
        (bit_and val 0xff_0000 / 2 ^ 8))
      (bit_and val 0xff00_0000 / 2 ^ 24)

abbrev pub swap_uint64 : ℕ → ℕ
swap_uint64 val =
    let a = bit_or (shl64 (bit_and val 0xff) 56) (shl64 (bit_and val 0xff00) 40) in
    let b = bit_or a (shl64 (bit_and val 0xff_0000) 24) in
    let c = bit_or b (shl64 (bit_and val 0xff00_0000) 8) in
    let d = bit_or c (bit_and val 0xff_0000_0000 / 2 ^ 8) in
    let e = bit_or d (bit_and val 0xff00_0000_0000 / 2 ^ 24) in
    let f = bit_or e (bit_and val 0xff_0000_0000_0000 / 2 ^ 40) in
    bit_or f (bit_and val 0xff00_0000_0000_0000 / 2 ^ 56)

-- `read_be16`, `read_be32` and `read_be64`, by their swap; then the `read_le` functions.
abbrev pub read_be : (ℕ → ℕ) → Bool → ℕ → ℕ
read_be swap host_big val = if host_big then val else swap val

abbrev pub read_le : (ℕ → ℕ) → Bool → ℕ → ℕ
read_le swap host_big val = if host_big then swap val else val

-- The integer that the host sees in the bytes of `raw`.
abbrev pub host_load : Bool → Bytes → ℕ
host_load host_big bytes = if host_big then big_endian 0 bytes else little_endian bytes

abbrev pub endian_value : (ℕ → ℕ) → Bool → Bool → Bytes → ℕ
endian_value swap host_big big bytes =
    let raw = host_load host_big bytes in
    if big then read_be swap host_big raw else read_le swap host_big raw

abbrev pub number : (ℕ → ℕ) → Bool → Option Bytes × ByteStream → Option ℕ × ByteStream
number swap host_big (none, s) = (none, s)
number swap host_big (some bytes, s) = (some (endian_value swap host_big s.is_big_endian bytes), s)

pub stream_read_uint8 : ByteStream → Option ℕ × ByteStream
unfolding stream_read_bytes
stream_read_uint8 s = number (λ val. val) false (stream_read_bytes true 1 s)

pub stream_read_uint16 : Bool → ByteStream → Option ℕ × ByteStream
unfolding stream_read_bytes
stream_read_uint16 host_big s = number swap_uint16 host_big (stream_read_bytes true 2 s)

pub stream_read_uint32 : Bool → ByteStream → Option ℕ × ByteStream
unfolding stream_read_bytes
stream_read_uint32 host_big s = number swap_uint32 host_big (stream_read_bytes true 4 s)

pub stream_read_uint64 : Bool → ByteStream → Option ℕ × ByteStream
unfolding stream_read_bytes
stream_read_uint64 host_big s = number swap_uint64 host_big (stream_read_bytes true 8 s)

-- The loop of `stream_read_string_alloc`: it passes one byte of the stream each round.
pub scan_length : ℕ → ByteStream → ℕ → Option ℕ
scan_length zero s len = none
scan_length (suc fuel) s len =
    let next = scan_length fuel s (len + 1) in
    if ltb (s.position + len) s.size && not (get_or s.bytes (s.position + len) 0 == 0)
    then next
    else some len

-- The allocated string with its NUL, whose length is `*out_len`; `none` is a null pointer.
pub record Allocated : Type 0 where
  pub string : Option Bytes
  pub stream : ByteStream
  pub tracker : Tracker

abbrev pub after_scan : Bool → ByteStream → Tracker → ℕ → Allocated
after_scan granted s t len =
    let (made, t') = mem_alloc granted (len + 1) t in
    if leb s.size (s.position + len)
    then record { string = none; stream = s; tracker = t }
    else if not made
    then record { string = none; stream = s; tracker = t' }
    else record {
      string = some (take len (drop s.position s.bytes) ++ 0 ∷ []);
      stream = record s { position = s.position + len + 1 };
      tracker = t';
    }

pub stream_read_string_alloc : Bool → ByteStream → Tracker → Option Allocated
stream_read_string_alloc granted s t = elim (scan_length (suc s.size) s 0) [
  | none ↦ none
  | some len ↦ some (after_scan granted s t len)
]

-- The signed reads store the bits of the unsigned ones, and the floating-point reads copy them.
abbrev pub stream_read_int8 : ByteStream → Option ℕ × ByteStream
stream_read_int8 s = stream_read_uint8 s

abbrev pub stream_read_int16 : Bool → ByteStream → Option ℕ × ByteStream
stream_read_int16 host_big s = stream_read_uint16 host_big s

abbrev pub stream_read_int32 : Bool → ByteStream → Option ℕ × ByteStream
stream_read_int32 host_big s = stream_read_uint32 host_big s

abbrev pub stream_read_int64 : Bool → ByteStream → Option ℕ × ByteStream
stream_read_int64 host_big s = stream_read_uint64 host_big s

abbrev pub stream_read_float : Bool → ByteStream → Option ℕ × ByteStream
stream_read_float host_big s = stream_read_uint32 host_big s

abbrev pub stream_read_double : Bool → ByteStream → Option ℕ × ByteStream
stream_read_double host_big s = stream_read_uint64 host_big s
