-- ===== src/AsciiGlob.antt =====
-- src/common/ascii_glob.c and include/common/ascii_glob.h. A C string is the list of its bytes before
-- the NUL, a cursor into it the bytes from there on, and `none` a null pointer. The result pointers are
-- given where a function needs them. The table of status names is left out.
pub mod Rows
mod Runs
use unity_common.Base.{
  ℕ, zero, suc, ◌+◌, ◌-◌, ◌*◌, ◌/◌, ◌%◌, ◌^◌, ◌≤◌, ◌<◌, ◌≡◌, ◌≢◌, ◌↔◌, refl, sym, ap, subst, ◌∙◌,
  ◌⊎◌, inl, inr, Bool, true, false, not, ◌&&◌, ◌||◌, Option, none, some, List, [], ◌∷◌, ◌++◌,
  append_assoc, append-nil, map, arith, ltb, leb, ◌==◌, if◌then◌else◌, ltb→lt, ltb→le, lt→ltb,
  le→ltb, leb→le, leb→lt, le→leb, lt→leb, ne→==, ==_iff, Bool-cases, Option-cases, length,
  get_elem?, get_or, take, drop, replicate, All, length-append, length-take, length-drop,
  length-replicate, drop-drop, drop-append, drop-get, take-append, take-append-drop, drop-nil,
  bit_and, bit_or, bit_xor, all_below, all_below_sound,
}
use unity_common.Base.Words.{
  Bytes, IsByte, size_max, uint32_max, int32_max, shl32, shl64, word32, word32_sum,
}

pub data Status : Type 0 where
  ok invalid_argument malformed_pattern allocation_failed : Status

-- `read_class_atom`: the value, and the cursor behind it.
pub read_class_atom : Bytes → Option (ℕ × Bytes)
read_class_atom [] = none
read_class_atom (c ∷ []) = if c == 0x5c || c == 0x2d then none else some (c, [])
read_class_atom (c ∷ d ∷ rest) =
    if c == 0x5c then some (d, rest) else if c == 0x2d then none else some (c, d ∷ rest)

abbrev pub push : ℕ → Option (Bytes × Bytes) → Option (Bytes × Bytes)
push c none = none
push c (some (content, after)) = some (c ∷ content, after)

-- The bytes before the first unescaped closing bracket, and those behind it; `escaped` says that a
-- backslash stands before the cursor.
pub locate_end : Bool → Bytes → Option (Bytes × Bytes)
locate_end escaped [] = none
locate_end true (c ∷ rest) = push c (locate_end false rest)
locate_end false (c ∷ rest) =
    let escape = push c (locate_end true rest) in
    let next = push c (locate_end false rest) in
    if c == 0x5c then escape else if c == 0x5d then some ([], rest) else next

-- Membership of the target, if one is supplied.
abbrev is_target : (ℕ → Bool) → Option ℕ → Bool
is_target test none = false
is_target test (some target) = test target

abbrev pub is_empty : Bytes → Bool
is_empty [] = true
is_empty (c ∷ rest) = false

-- An item that does not begin with a raw hyphen: its test, and the cursor behind it.
abbrev range_or_single : ℕ → Option (ℕ × Bytes) → Option ((ℕ → Bool) × Bytes)
range_or_single first none = none
range_or_single first (some (last, rest)) =
    if ltb last first then none else some (λ target. leb first target && leb target last, rest)

abbrev item_end : Option (ℕ × Bytes) → Option ((ℕ → Bool) × Bytes)
item_end none = none
item_end (some (first, [])) = some (λ target. target == first, [])
item_end (some (first, c ∷ [])) = some (λ target. target == first, c ∷ [])
item_end (some (first, c ∷ d ∷ rest)) =
    if c == 0x2d
    then range_or_single first (read_class_atom (d ∷ rest))
    else some (λ target. target == first, c ∷ d ∷ rest)

-- The loop over the items of a class: whether the target is in one, `none` if the class is malformed.
-- An item takes one byte at least; out of fuel is malformed too.
pub class_items : ℕ → Option ℕ → ℕ → Bool → Bytes → Option Bool
unfolding read_class_atom
class_items zero target item_count matched cursor = none
class_items (suc fuel) target item_count matched [] = if item_count == 0 then none else some matched
class_items (suc fuel) target item_count matched (c ∷ rest) =
    let hyphen =
      class_items fuel target (item_count + 1) (matched || is_target (λ t. t == 0x2d) target)
        rest in
    if c == 0x2d
    then if not (item_count == 0) && not (is_empty rest) then none else hyphen
    else elim (item_end (read_class_atom (c ∷ rest))) [
      | none ↦ none
      | some (test, behind) ↦
          class_items fuel target (item_count + 1) (matched || is_target test target) behind
    ]

-- What `parse_class` reports: the cursor behind the class and whether the target matches.
pub data Class : Type 0 where
  parsed : Bytes → Bool → Class
  rejected : Status → Class

abbrev negate_if : Bool → Bool → Bool
negate_if negated matched = if negated then not matched else matched

abbrev pub class_of : Bool → Option ℕ → Option (Bytes × Bytes) → Class
class_of negated target none = rejected Status.malformed_pattern
class_of negated target (some (content, after)) =
    elim (class_items (suc (length content)) target 0 false content) [
      | none ↦ rejected Status.malformed_pattern
      | some matched ↦ parsed after (negate_if negated matched)
    ]

-- `target` is none where the caller supplies neither a target nor a place for the match.
pub parse_class : Bytes → Option ℕ → Class
unfolding locate_end class_items
parse_class [] target = rejected Status.invalid_argument
parse_class (b ∷ []) target =
    if not (b == 0x5b) then rejected Status.invalid_argument else rejected Status.malformed_pattern
parse_class (b ∷ c ∷ rest) target =
    if not (b == 0x5b)
    then rejected Status.invalid_argument
    else if c == 0x21 || c == 0x5e
    then class_of true target (locate_end false rest)
    else class_of false target (locate_end false (c ∷ rest))

-- The loop of `ascii_glob_validate`, which passes one byte of the pattern each round.
pub validate_loop : ℕ → Bytes → Option Status
unfolding parse_class
validate_loop zero cursor = none
validate_loop (suc fuel) [] = some Status.ok
validate_loop (suc fuel) (c ∷ rest) =
    let literal = validate_loop fuel rest in
    let escaped = validate_loop fuel (drop 1 rest) in
    if c == 0x5c
    then if is_empty rest then some Status.malformed_pattern else escaped
    else if c == 0x5b
    then elim (parse_class (c ∷ rest) none) [
      | rejected status ↦ some status
      | parsed after matched ↦ validate_loop fuel after
    ]
    else literal

pub ascii_glob_validate : Option Bytes → Option Status
unfolding validate_loop
ascii_glob_validate none = some Status.invalid_argument
ascii_glob_validate (some pattern) = validate_loop (suc (length pattern)) pattern

-- The row of a star: `current[index] = previous[index] || current[index - 1]`.
pub star_row : Bool → List Bool → List Bool
star_row reached [] = []
star_row reached (b ∷ previous) = (b || reached) ∷ star_row (b || reached) previous

-- The row of one byte: `current[0] = 0`, and behind it `previous[index - 1]` where the byte passes.
pub byte_row : (ℕ → Bool) → List Bool → Bytes → List Bool
byte_row test [] text = []
byte_row test (b ∷ previous) [] = []
byte_row test (b ∷ previous) (c ∷ text) = (b && test c) ∷ byte_row test previous text

-- The row of a class, which is parsed for every byte of the text.
pub class_row : Bytes → List Bool → Bytes → Status × List Bool
unfolding parse_class
class_row cursor [] text = (Status.ok, [])
class_row cursor (b ∷ previous) [] = (Status.ok, [])
class_row cursor (b ∷ previous) (c ∷ text) =
    let (status, row) = class_row cursor previous text in
    elim (parse_class cursor (some c)) [
      | rejected refusal ↦ (refusal, [])
      | parsed after class_match ↦ (status, (b && class_match) ∷ row)
    ]

-- The stars at the cursor collapse into one.
pub skip_stars : Bytes → Bytes
skip_stars [] = []
skip_stars (c ∷ rest) = let next = skip_stars rest in if c == 0x2a then next else c ∷ rest

-- The last entry of a row, `previous[text_size]`.
pub last_of : Bool → List Bool → Bool
last_of b [] = b
last_of b (c ∷ row) = last_of c row

abbrev is_ok : Status → Bool
is_ok Status.ok = true
is_ok Status.invalid_argument = false
is_ok Status.malformed_pattern = false
is_ok Status.allocation_failed = false

-- `after` of a class does not depend on the byte that it is parsed for; the code takes it from the last.
abbrev after_class : Bytes → Bytes → Class
after_class cursor [] = parse_class cursor none
after_class cursor (c ∷ text) = parse_class cursor (some (get_or (c ∷ text) (length text) 0))

-- The loop of `ascii_glob_match` over the pattern: the status and the last row.
pub match_loop : ℕ → Bytes → Bytes → List Bool → Option (Status × List Bool)
unfolding parse_class class_row skip_stars
match_loop zero cursor text previous = none
match_loop (suc fuel) [] text previous = some (Status.ok, previous)
match_loop (suc fuel) (c ∷ rest) text previous =
    let star = match_loop fuel (skip_stars rest) text (star_row false previous) in
    let single = match_loop fuel rest text (false ∷ byte_row (λ t. true) previous text) in
    let escaped =
      match_loop fuel (drop 1 rest) text
        (false ∷ byte_row (λ t. t == get_or rest 0 0) previous text) in
    let literal = match_loop fuel rest text (false ∷ byte_row (λ t. t == c) previous text) in
    if c == 0x2a
    then star
    else if c == 0x3f
    then single
    else if c == 0x5b
    then (let (row_status, row) = class_row (c ∷ rest) previous text in
        elim row_status [
          | Status.ok ↦ elim (after_class (c ∷ rest) text) [
            | rejected status ↦ some (status, previous)
            | parsed after class_match ↦ match_loop fuel after text (false ∷ row)
          ]
          | refusal ↦ some (refusal, previous)
        ])
    else if c == 0x5c
    then escaped
    else literal

-- `granted` says that `calloc` succeeds. The answer is the status and `*out_match`.
pub ascii_glob_match : Bool → Option Bytes → Option Bytes → Option (Status × Bool)
unfolding ascii_glob_validate match_loop
ascii_glob_match granted none text = some (Status.invalid_argument, false)
ascii_glob_match granted (some pattern) none = some (Status.invalid_argument, false)
ascii_glob_match granted (some pattern) (some text) =
    let first_row = true ∷ replicate (length text) false in
    elim (ascii_glob_validate (some pattern)) [
      | none ↦ none
      | some Status.ok ↦
          if length text == size_max || ltb (size_max / 2) (length text + 1) || not granted
          then some (Status.allocation_failed, false)
          else elim (match_loop (suc (length pattern)) pattern text first_row) [
            | none ↦ none
            | some (status, row) ↦ some (status, is_ok status && last_of false row)
          ]
      | some status ↦ some (status, false)
    ]
