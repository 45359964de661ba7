-- ===== src/Utf8.antt =====
-- src/common/utf8.c and include/common/utf8.h: the strict UTF-8 decoder and validator.
-- A counted span is the list of its bytes, a null pointer is `none`. An output that a failure leaves
-- unchanged is `none` in `outputs`. `validate_loop` takes fuel, and `none` means that it ran out.
pub mod Encoding
pub mod Decode
pub mod Validate
mod Runs
use unity_common.Base.{
  ℕ, zero, suc, ◌+◌, Bool, true, false, not, ◌&&◌, ◌||◌, Option, none, some, ltb, leb, ◌==◌,
  if◌then◌else◌, length, get_or, drop, bit_and, bit_or,
}
use unity_common.Base.Words.{Bytes, shl32, size_max}

pub data Status : Type 0 where
  ok invalid_argument invalid_encoding : Status

pub record Result : Type 0 where
  pub status : Status
  pub offset : ℕ

abbrev pub make_result : Status → ℕ → Result
make_result status offset = record { status = status; offset = offset }

-- What `common_utf8_decode_one` writes through `scalar` and `sequence_size`.
pub record Sequence : Type 0 where
  pub scalar : ℕ
  pub sequence_size : ℕ

abbrev pub make_sequence : ℕ → ℕ → Sequence
make_sequence scalar size = record { scalar = scalar; sequence_size = size }

-- `bytes[i]`, at an index that the caller has compared with the count.
abbrev pub at : Bytes → ℕ → ℕ
at bytes i = get_or bytes i 0

abbrev pub is_continuation : ℕ → Bool
is_continuation value = leb 0x80 value && leb value 0xbf

unfoldable pub decode_two : Bytes → ℕ → Option Sequence
decode_two bytes first =
    if ltb (length bytes) 2 || not (is_continuation (at bytes 1))
    then none
    else some (make_sequence (bit_or (shl32 (bit_and first 0x1f) 6) (bit_and (at bytes 1) 0x3f)) 2)

unfoldable pub decode_three : Bytes → ℕ → Option Sequence
decode_three bytes first =
    if ltb (length bytes) 3
      || (not (is_continuation (at bytes 1))
          || (not (is_continuation (at bytes 2))
              || ((first == 0xe0 && ltb (at bytes 1) 0xa0)
                  || (first == 0xed && ltb 0x9f (at bytes 1)))))
    then none
    else some (
        make_sequence
          (bit_or (bit_or (shl32 (bit_and first 0x0f) 12) (shl32 (bit_and (at bytes 1) 0x3f) 6))
            (bit_and (at bytes 2) 0x3f))
          3)

unfoldable pub decode_four : Bytes → ℕ → Option Sequence
decode_four bytes first =
    if ltb (length bytes) 4
      || (not (is_continuation (at bytes 1))
          || (not (is_continuation (at bytes 2))
              || (not (is_continuation (at bytes 3))
                  || ((first == 0xf0 && ltb (at bytes 1) 0x90)
                      || (first == 0xf4 && ltb 0x8f (at bytes 1))))))
    then none
    else some (
        make_sequence
          (bit_or
            (bit_or (bit_or (shl32 (bit_and first 0x07) 18) (shl32 (bit_and (at bytes 1) 0x3f) 12))
              (shl32 (bit_and (at bytes 2) 0x3f) 6))
            (bit_and (at bytes 3) 0x3f))
          4)

-- `common_utf8_decode_one` behind its test for null pointers; `none` is an invalid encoding.
unfoldable pub decode_sequence : Bytes → Option Sequence
decode_sequence bytes =
    let first = at bytes 0 in
    if length bytes == 0
    then none
    else if leb first 0x7f
    then some (make_sequence first 1)
    else if leb 0xc2 first && leb first 0xdf
    then decode_two bytes first
    else if leb 0xe0 first && leb first 0xef
    then decode_three bytes first
    else if leb 0xf0 first && leb first 0xf4
    then decode_four bytes first
    else none

pub record Decoded : Type 0 where
  pub result : Result
  pub outputs : Option Sequence

abbrev decoded : Option Sequence → Decoded
decoded none = record { result = make_result Status.invalid_encoding 0; outputs = none }
decoded (some s) = record { result = make_result Status.ok size_max; outputs = some s }

abbrev has_outputs : Bool → Bool → Bool
has_outputs scalar sequence_size = scalar && sequence_size

-- The flags say whether `scalar` and `sequence_size` are given.
unfoldable pub decode_one : Option Bytes → Bool → Bool → Decoded
decode_one none scalar sequence_size = record {
  result = make_result Status.invalid_argument size_max;
  outputs = none;
}
decode_one (some bytes) scalar sequence_size =
    if has_outputs scalar sequence_size
    then decoded (decode_sequence bytes)
    else record { result = make_result Status.invalid_argument size_max; outputs = none }

-- The loop of `common_utf8_validate` from `position` on.
pub validate_loop : ℕ → Bytes → ℕ → Option Result
validate_loop zero bytes position = none
validate_loop (suc fuel) bytes position =
    if ltb position (length bytes)
    then elim (decode_sequence (drop position bytes)) [
      | none ↦ some (make_result Status.invalid_encoding position)
      | some s ↦ validate_loop fuel bytes (position + s.sequence_size)
    ]
    else some (make_result Status.ok size_max)

-- A sequence takes one byte at least, so one round more than there are bytes is enough.
unfoldable pub validate : Option Bytes → Option Result
unfolding validate_loop
validate none = some (make_result Status.invalid_argument size_max)
validate (some bytes) = validate_loop (suc (length bytes)) bytes 0
