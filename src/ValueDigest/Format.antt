-- ===== src/ValueDigest/Format.antt =====
-- The message that a digest is the hash of, stated apart from the traversal: what each part of a value
-- adds to it, and which values have one.
use unity_common.Base.{
  ℕ, zero, suc, ◌+◌, ◌/◌, ◌%◌, Bool, true, false, ◌&&◌, Option, none, some, [], ◌∷◌, ◌++◌, leb,
  ◌==◌, if◌then◌else◌, length,
}
use unity_common.Base.Words.{Bytes}
use unity_common.Base.Int.{ℤ, pos, negsuc}
use unity_common.ValueDigest.{
  Value, value, Payload, integer, float, string, elements, packed_bytes, no_elements, members,
  no_members, nothing, unknown_type, Values, end, next, count_of,
}

-- A number in `n` bytes, the lowest first.
unfoldable pub little_endian : ℕ → ℕ → Bytes
little_endian zero v = []
little_endian (suc n) v = v % 256 ∷ little_endian n (v / 256)

abbrev pub word : ℕ → Bytes
word v = little_endian 8 v

-- What a part of a value adds: whether it may be hashed at all, the nodes that it counts, its nested
-- levels, and its bytes.
pub record Form : Type 0 where
  pub valid : Bool
  pub nodes : ℕ
  pub levels : ℕ
  pub bytes : Bytes

abbrev pub deeper_of : ℕ → ℕ → ℕ
deeper_of m n = if leb m n then n else m

infixr 5 ◌⊕◌
abbrev pub ◌⊕◌ : Form → Form → Form
f ⊕ g = record {
  valid = f.valid && g.valid;
  nodes = f.nodes + g.nodes;
  levels = deeper_of f.levels g.levels;
  bytes = f.bytes ++ g.bytes;
}

abbrev pub plain : Bytes → Form
plain bytes = record { valid = true; nodes = 0; levels = 0; bytes = bytes }

abbrev pub only_if : Bool → Bytes → Form
only_if valid bytes = record { valid = valid; nodes = 0; levels = 0; bytes = bytes }

-- A string is its length and its bytes, 16 MiB at most. A null pointer has no form.
abbrev pub string_form : Option Bytes → Form
string_form none = only_if false []
string_form (some text) = only_if (leb (length text) 16777216) (word (length text) ++ text)

abbrev pub size_is : Option Bytes → ℕ → Bool
size_is none size = size == 0
size_is (some text) size = length text == size

-- "UInt8"
abbrev pub is_uint8 : Bytes → Bool
is_uint8 (a ∷ b ∷ c ∷ d ∷ e ∷ []) =
    a == b'U' && (b == b'I' && (c == b'n' && (d == b't' && e == b'8')))
is_uint8 text = false

-- An element that is a byte: a named value of the type "UInt8" that holds an unsigned integer up to 255.
abbrev pub element_byte : Value → Option ℕ
element_byte (value (some name) (some type_str) (integer true bits)) =
    if leb bits 255 && is_uint8 type_str then some bits else none
element_byte v = none

abbrev pub before : Option ℕ → Option Bytes → Option Bytes
before none o = none
before (some b) none = none
before (some b) (some raw) = some (b ∷ raw)

-- The bytes of an array whose elements all are bytes.
unfoldable pub element_bytes : Values → Option Bytes
element_bytes end = some []
element_bytes (next v vs) = before (element_byte v) (element_bytes vs)

-- An array of bytes counts a node for each byte.
abbrev pub bytes_form : Bytes → Form
bytes_form raw = record {
  valid = true;
  nodes = length raw;
  levels = 0;
  bytes = (word (length raw) ++ word 1) ++ raw;
}

abbrev pub array_form : ℕ → Option Bytes → Form → Form
array_form count (some raw) each = bytes_form raw
array_form count none each = plain (word count ++ word 0) ⊕ each

-- The word for the kind of a value.
abbrev pub kind : Payload → ℕ
kind (integer is_unsigned bits) = 0
kind (float bits) = 1
kind (string text size) = 2
kind (elements vs) = 3
kind (packed_bytes bytes) = 3
kind (no_elements storage count) = 3
kind (members vs) = 4
kind (no_members count) = 4
kind nothing = 5
kind unknown_type = 0

abbrev pub is_zero : ℤ → Bool
is_zero (pos zero) = true
is_zero (pos (suc n)) = false
is_zero (negsuc n) = false

-- A value is a level and a node of its own.
abbrev pub nested : Form → Form
nested f = record { valid = f.valid; nodes = suc f.nodes; levels = suc f.levels; bytes = f.bytes }

unfoldable mutual
  -- The kind, the name, the name of the type, and what the value holds.
  pub value_form : Value → Form
  value_form (value name type_str payload) = nested (
      (plain (word (kind payload)) ⊕ string_form name ⊕ string_form type_str)
      ⊕ payload_form payload)

  pub payload_form : Payload → Form
  payload_form (integer is_unsigned bits) = plain (word (if is_unsigned then 1 else 0) ++ word bits)
  payload_form (float bits) = plain (word bits)
  payload_form (string text size) = string_form text ⊕ only_if (size_is text size) []
  payload_form (elements vs) = array_form (count_of vs) (element_bytes vs) (values_form vs)
  payload_form (packed_bytes bytes) = bytes_form bytes
  payload_form (no_elements storage count) =
      only_if (leb storage 1 && is_zero count) (word 0 ++ word 1)
  payload_form (members vs) = plain (word (count_of vs)) ⊕ values_form vs
  payload_form (no_members count) = only_if (is_zero count) (word 0)
  payload_form nothing = plain []
  payload_form unknown_type = only_if false []

  pub values_form : Values → Form
  values_form end = plain []
  values_form (next v vs) = value_form v ⊕ values_form vs

-- "UnityCommon.OrderedTypeTreeValue.v1" with a NUL.
abbrev pub label : Bytes
label =
    b'U' ∷ b'n' ∷ b'i' ∷ b't' ∷ b'y' ∷ b'C' ∷ b'o' ∷ b'm' ∷ b'm' ∷ b'o' ∷ b'n' ∷ b'.' ∷ b'O' ∷ b'r'
    ∷ b'd' ∷ b'e' ∷ b'r' ∷ b'e' ∷ b'd' ∷ b'T' ∷ b'y' ∷ b'p' ∷ b'e' ∷ b'T' ∷ b'r' ∷ b'e' ∷ b'e'
    ∷ b'V' ∷ b'a' ∷ b'l' ∷ b'u' ∷ b'e' ∷ b'.' ∷ b'v' ∷ b'1' ∷ 0 ∷ []

-- A form within the limits, a million nodes and 256 levels, is the message behind the label.
abbrev pub within : Form → Option Bytes
within f =
    if f.valid && (leb f.nodes 1048576 && leb f.levels 256) then some (label ++ f.bytes) else none

unfoldable pub message : Option Value → Option Bytes
message none = none
message (some v) = within (value_form v)
