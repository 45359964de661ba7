-- ===== src/Lz4.antt =====
-- src/io/lz4_decompress.c: the decoder of one raw LZ4 block.
-- The destination is its written prefix `output`, so `output_position` is the length of `output`. A
-- read outside of the source, a read of a byte of the destination that is not written yet, and a
-- write at or past `destination_bytes` are a `fault`. The result -1 is `failed`.
pub mod Safety
pub mod Format
mod Lengths
mod Rounds
pub mod RoundTrip
mod Runs
use unity_common.Base.{
  ℕ, zero, suc, ◌+◌, ◌-◌, ◌*◌, ◌/◌, ◌%◌, ◌^◌, ◌≤◌, ◌<◌, ◌≡◌, ◌≢◌, ◌↔◌, refl, sym, ap, subst, ◌∙◌,
  ◌⊎◌, inl, inr, Bool, true, false, not, ◌&&◌, ◌||◌, Option, none, some, List, [], ◌∷◌, ◌++◌,
  append_assoc, append-nil, map, arith, ltb, leb, ◌==◌, if◌then◌else◌, ltb→lt, ltb→le, lt→ltb,
  le→ltb, leb→le, leb→lt, le→leb, ==_iff, Bool-cases, Option-cases, length, get_elem?, get_or, take,
  drop, replicate, All, length-append, length-take, length-drop, length-replicate, drop-drop,
  drop-append, drop-get, take-append, take-append-drop, drop-nil, bit_and, bit_or, bit_xor,
  all_below, all_below_sound,
}
use unity_common.Base.Words.{
  Bytes, IsByte, size_max, uint32_max, int32_max, shl32, shl64, word32, word32_sum,
}
use unity_common.Base.Int.{ℤ, pos, negsuc}
use unity_common.Base.Run.{Run, ok, failed, fault, out_of_fuel, ◌>>=◌, load}

abbrev pub extended_length : ℕ
extended_length = 15

abbrev pub extension_continues : ℕ
extension_continues = 255

abbrev pub minimum_match : ℕ
minimum_match = 4

abbrev pub final_literals : ℕ
final_literals = 5

abbrev pub last_match_distance : ℕ
last_match_distance = 12

-- A position in the input and a length.
pub record Length : Type 0 where
  pub input_position : ℕ
  pub length : ℕ

abbrev pub make_length : ℕ → ℕ → Length
make_length position n = record { input_position = position; length = n }

-- The do-while loop of `read_length`. Each round reads one byte of the source.
pub read_extensions : ℕ → Bytes → ℕ → ℕ → ℕ → Run Length
read_extensions zero source source_bytes position n = out_of_fuel
read_extensions (suc fuel) source source_bytes position n =
    let more =
      λ (extension : ℕ). read_extensions fuel source source_bytes (position + 1) (n + extension) in
    if leb source_bytes position then failed else do
      extension ← load source position
      if ltb (size_max - extension) n
          then failed
          else if extension == extension_continues
          then more extension
          else ok (make_length (position + 1) (n + extension))

pub read_length : Bytes → ℕ → ℕ → ℕ → Run Length
unfolding read_extensions
read_length source source_bytes position n =
    if n == extended_length
    then read_extensions (suc source_bytes) source source_bytes position n
    else ok (make_length position n)

-- `memcpy(destination + output_position, source + input_position, count)`
pub copy_literals : ℕ → ℕ → Bytes → ℕ → Bytes → Run Bytes
copy_literals zero capacity source position output = ok output
copy_literals (suc count) capacity source position output =
    let rest = λ (b : ℕ). copy_literals count capacity source (position + 1) (output ++ b ∷ []) in
    do b ← load source position; if ltb (length output) capacity then rest b else fault

-- The loop over `match_length`: bytes that it has written are there for later rounds.
pub copy_match : ℕ → ℕ → ℕ → Bytes → Run Bytes
copy_match zero capacity match_position output = ok output
copy_match (suc count) capacity match_position output =
    let rest = λ (b : ℕ). copy_match count capacity (match_position + 1) (output ++ b ∷ []) in
    do b ← load output match_position; if ltb (length output) capacity then rest b else fault

pub record State : Type 0 where
  pub input_position : ℕ
  pub output : Bytes
  pub last_match_start : ℕ
  pub matched : Bool

-- What one round of the main loop does: it returns the decoded length, or goes on.
pub data Step : Type 0 where
  returns : Bytes → Step
  continues : State → Step

abbrev pub window_valid : State → ℕ → ℕ → Bool
window_valid s literal_length output_position =
    not s.matched
    || (leb final_literals literal_length
        && leb last_match_distance (output_position - s.last_match_start))

-- Behind the literals, at the end of the input.
pub finish : ℕ → Bool → State → ℕ → Bytes → Run Step
finish destination_size exact s literal_length output =
    if exact
      && (not (length output == destination_size)
          || not (window_valid s literal_length (length output)))
    then failed
    else ok (returns output)

-- From the offset of a match on.
pub decode_match : Bytes → ℕ → ℕ → ℕ → ℕ → Bytes → Run Step
decode_match source source_size destination_size token position output =
    if ltb (source_size - position) 2 then failed else do
      low ← load source position
      high ← load source (position + 1)
      let offset = bit_or low (high * 2 ^ 8 % 2 ^ 16)
      if offset == 0 || ltb (length output) offset then failed else do
        m ← read_length source source_size (position + 2) (bit_and token 0x0f)
        if ltb (size_max - minimum_match) m.length
              || ltb (destination_size - length output) (m.length + minimum_match)
            then failed
            else do
              copied ←
                  copy_match (m.length + minimum_match) destination_size (length output - offset)
                    output
              ok (
                  continues (record {
                    input_position = m.input_position;
                    output = copied;
                    last_match_start = length output;
                    matched = true;
                  }))

-- One round of the `while` loop of `decompress_block`.
pub round : Bytes → Bool → ℕ → ℕ → Bool → State → Run Step
round source destination source_size destination_size exact s = do
  token ← load source s.input_position
  l ← read_length source source_size (s.input_position + 1) (token / 2 ^ 4)
  if ltb (source_size - l.input_position) l.length
        || ltb (destination_size - length s.output) l.length
      then failed
      else if not (l.length == 0) && not destination
      then failed
      else do
        output ← copy_literals l.length destination_size source l.input_position s.output
        if l.input_position + l.length == source_size
            then finish destination_size exact s l.length output
            else decode_match source source_size destination_size token
                (l.input_position + l.length) output

-- A round takes one byte of the input at least.
pub decode_loop : ℕ → Bytes → Bool → ℕ → ℕ → Bool → State → Run Bytes
decode_loop zero source destination source_size destination_size exact s = out_of_fuel
decode_loop (suc fuel) source destination source_size destination_size exact s =
    if ltb s.input_position source_size
    then (do
      step ← round source destination source_size destination_size exact s
      elim step [
        | returns output ↦ ok output
        | continues s' ↦ decode_loop fuel source destination source_size destination_size exact s'
      ])
    else if exact
    then failed
    else ok s.output

abbrev pub start : State
start = record { input_position = 0; output = []; last_match_start = 0; matched = false }

abbrev pub is_given : Option Bytes → Bool
is_given none = false
is_given (some bytes) = true

abbrev pub span : Option Bytes → Bytes
span none = []
span (some bytes) = bytes

-- A null pointer is `none`; of the destination only that is of interest, by the flag.
pub decompress_block : Option Bytes → Bool → ℤ → ℤ → Bool → Run Bytes
decompress_block source destination (negsuc n) destination_bytes exact = failed
decompress_block source destination (pos n) (negsuc m) exact = failed
decompress_block source destination (pos source_bytes) (pos destination_bytes) exact =
    if (not (is_given source) && not (source_bytes == 0))
      || (not destination && not (destination_bytes == 0))
    then failed
    else decode_loop (suc source_bytes) (span source) destination source_bytes destination_bytes
        exact start

unfoldable pub lz4_decompress_safe : Option Bytes → Bool → ℤ → ℤ → Run Bytes
unfolding decompress_block decode_loop round finish decode_match read_length copy_literals
    copy_match
lz4_decompress_safe source destination source_bytes destination_bytes =
    decompress_block source destination source_bytes destination_bytes false

unfoldable pub lz4_decompress_exact : Option Bytes → Bool → ℤ → ℤ → Run Bytes
unfolding decompress_block decode_loop round finish decode_match read_length copy_literals
    copy_match
lz4_decompress_exact source destination source_bytes destination_bytes =
    decompress_block source destination source_bytes destination_bytes true
