-- ===== src/ValueDigest.antt =====
-- src/io/typetree_value_digest.c: the digest of a decoded value, over the hash of common/sha256.h.
-- The hash is a parameter, its update an operation on its state: the code runs on a context of sha256.c.
-- An array is the list of its elements; a null pointer beside a count is a constructor of its own. The
-- members of the unions that hold an integer or a double are their 64 bits. A step is `none` for false;
-- the test for a null `digest` is left out.
pub mod Encoding
pub mod Bytewise
pub mod Format
pub mod Steps
pub mod Arrays
pub mod Message
mod Runs
use unity_common.Base.{
  ℕ, zero, suc, ◌+◌, ◌-◌, ◌*◌, ◌/◌, ◌%◌, ◌^◌, ◌≤◌, ◌<◌, ◌≡◌, ◌≢◌, ◌↔◌, refl, sym, ap, subst, ◌∙◌,
  ◌⊎◌, inl, inr, Bool, true, false, not, ◌&&◌, ◌||◌, Option, none, some, List, [], ◌∷◌, ◌++◌,
  append_assoc, append-nil, map, arith, ltb, leb, ◌==◌, if◌then◌else◌, Bool-cases, Option-cases,
  length, get_elem?, get_or, take, drop, replicate, ==_iff,
}
use unity_common.Base.Words.{Bytes}
use unity_common.Base.Int.{ℤ, pos, negsuc}
use unity_common.Sha256.{Context, common_sha256_init, common_sha256_update, common_sha256_final}

mutual
  -- `TypeTreeValue`: its name, the name of its type, and what its type selects of the union.
  pub data Value : Type 0 where
    value : Option Bytes → Option Bytes → Payload → Value

  -- `no_members` and `no_elements` have a null pointer or a negative count, or an unknown storage.
  pub data Payload : Type 0 where
    integer : Bool → ℕ → Payload
    float : ℕ → Payload
    string : Option Bytes → ℕ → Payload
    elements : Values → Payload
    packed_bytes : Bytes → Payload
    no_elements : ℕ → ℤ → Payload
    members : Values → Payload
    no_members : ℤ → Payload
    nothing unknown_type : Payload

  pub data Values : Type 0 where
    end : Values
    next : Value → Values → Values

abbrev pub max_nodes : ℕ
max_nodes = 1048576

abbrev pub max_depth : ℕ
max_depth = 256

abbrev pub max_string : ℕ
max_string = 16777216

-- `value->type`, `none` outside its range.
abbrev pub type_tag : Payload → Option ℕ
type_tag (integer is_unsigned bits) = some 0
type_tag (float bits) = some 1
type_tag (string text size) = some 2
type_tag (elements vs) = some 3
type_tag (packed_bytes bytes) = some 3
type_tag (no_elements storage count) = some 3
type_tag (members vs) = some 4
type_tag (no_members count) = some 4
type_tag nothing = some 5
type_tag unknown_type = none

abbrev pub count_of : Values → ℕ
count_of end = 0
count_of (next v vs) = suc (count_of vs)

-- "UInt8"
abbrev pub uint8_name : Bytes
uint8_name = 0x55 ∷ 0x49 ∷ 0x6e ∷ 0x74 ∷ 0x38 ∷ []

abbrev pub same_bytes : Bytes → Bytes → Bool
same_bytes [] [] = true
same_bytes [] (b ∷ t) = false
same_bytes (a ∷ s) [] = false
same_bytes (a ∷ s) (b ∷ t) = (a == b) && same_bytes s t

abbrev pub is_byte : Value → Bool
is_byte (value (some name) (some type_str) (integer true bits)) =
    leb bits 255 && same_bytes type_str uint8_name
is_byte v = false

abbrev pub expanded_bytes : Values → Bool
expanded_bytes end = true
expanded_bytes (next v vs) = is_byte v && expanded_bytes vs

-- `(uint8_t)element.uint_val`, of an element that is a byte.
abbrev pub byte_of : Value → ℕ
byte_of (value name type_str (integer is_unsigned bits)) = bits % 256
byte_of v = 0

abbrev pub little_word : ℕ → Bytes
little_word v =
    v % 256
    ∷ v / 2 ^ 8 % 256
    ∷ v / 2 ^ 16 % 256
    ∷ v / 2 ^ 24 % 256
    ∷ v / 2 ^ 32 % 256
    ∷ v / 2 ^ 40 % 256
    ∷ v / 2 ^ 48 % 256
    ∷ v / 2 ^ 56 % 256
    ∷ []

abbrev pub text_size : Option Bytes → ℕ
text_size none = 0
text_size (some text) = length text

infixl 5 ◌>>=◌
abbrev pub ◌>>=◌ : {A B : Type 0} → Option A → (A → Option B) → Option B
none >>= f = none
some a >>= f = f a

module _ {S : Type 0} (update : S → Bytes → Option S) where
  -- `ValueDigest`: the state of the hash and the nodes that are left.
  abbrev pub Digest : Type 0
  Digest = S × ℕ

  abbrev pub hash_bytes : Bytes → Digest → Option Digest
  hash_bytes input (s, nodes) = update s input >>= λ t. some (t, nodes)

  abbrev pub hash_word : ℕ → Digest → Option Digest
  hash_word v d = hash_bytes (little_word v) d

  abbrev pub hash_string : Option Bytes → Digest → Option Digest
  hash_string none d = none
  hash_string (some text) d =
      if ltb max_string (length text) then none else (hash_word (length text) d >>= hash_bytes text)

  abbrev pub hash_tag : Option Bytes → Option Bytes → ℕ → Digest → Option Digest
  hash_tag name type_str tag d =
      hash_word tag d >>= λ e. hash_string name e >>= hash_string type_str

  -- Up to the switch of `hash_value`.
  abbrev pub open_value : Option Bytes → Option Bytes → Option ℕ → ℕ → Digest → Option Digest
  open_value name type_str none depth d = none
  open_value name type_str (some tag) depth (s, nodes) =
      if leb max_depth depth || nodes == 0 then none else hash_tag name type_str tag (s, nodes - 1)

  abbrev pub hash_counts : ℕ → Bool → Digest → Option Digest
  hash_counts count bytes d = hash_word count d >>= hash_word (if bytes then 1 else 0)

  abbrev pub spend : ℕ → Digest → Digest
  spend count (s, nodes) = (s, nodes - count)

  -- The updates of the bytes of an array, one by one.
  pub hash_elements : Values → Digest → Option Digest
  hash_elements end d = some d
  hash_elements (next v vs) d = hash_bytes (byte_of v ∷ []) d >>= hash_elements vs

  -- The update of packed bytes, unless there are none.
  abbrev pub hash_packed : Bytes → Digest → Option Digest
  hash_packed [] d = some d
  hash_packed (b ∷ bytes) d = hash_bytes (b ∷ bytes) d

  abbrev pub hash_none : ℤ → (Digest → Option Digest) → Digest → Option Digest
  hash_none (pos zero) f d = f d
  hash_none (pos (suc n)) f d = none
  hash_none (negsuc n) f d = none

  unfoldable mutual
    pub hash_value : Value → ℕ → Digest → Option Digest
    hash_value (value name type_str payload) depth d =
        open_value name type_str (type_tag payload) depth d >>= hash_payload payload depth

    pub hash_payload : Payload → ℕ → Digest → Option Digest
    hash_payload (integer is_unsigned bits) depth d =
        hash_word (if is_unsigned then 1 else 0) d >>= hash_word bits
    hash_payload (float bits) depth d = hash_word bits d
    hash_payload (string text size) depth d =
        hash_string text d >>= λ e. if text_size text == size then some e else none
    hash_payload (elements vs) depth d =
        if ltb d.1 (count_of vs)
        then none
        else if expanded_bytes vs
        then (hash_counts (count_of vs) true d >>= λ e. hash_elements vs (spend (count_of vs) e))
        else (hash_counts (count_of vs) false d >>= hash_values vs (depth + 1))
    hash_payload (packed_bytes bytes) depth d =
        if ltb d.1 (length bytes)
        then none
        else (hash_counts (length bytes) true d >>= λ e. hash_packed bytes (spend (length bytes) e))
    hash_payload (no_elements storage count) depth d =
        if ltb 1 storage then none else hash_none count (hash_counts 0 true) d
    hash_payload (members vs) depth d =
        if ltb d.1 (count_of vs)
        then none
        else (hash_word (count_of vs) d >>= hash_values vs (depth + 1))
    hash_payload (no_members count) depth d = hash_none count (hash_word 0) d
    hash_payload nothing depth d = some d
    hash_payload unknown_type depth d = none

    pub hash_values : Values → ℕ → Digest → Option Digest
    hash_values end depth d = some d
    hash_values (next v vs) depth d = hash_value v depth d >>= hash_values vs depth

-- "UnityCommon.OrderedTypeTreeValue.v1" with its NUL.
abbrev pub domain : Bytes
domain =
    0x55 ∷ 0x6e ∷ 0x69 ∷ 0x74 ∷ 0x79 ∷ 0x43 ∷ 0x6f ∷ 0x6d ∷ 0x6d ∷ 0x6f ∷ 0x6e ∷ 0x2e ∷ 0x4f ∷ 0x72
    ∷ 0x64 ∷ 0x65 ∷ 0x72 ∷ 0x65 ∷ 0x64 ∷ 0x54 ∷ 0x79 ∷ 0x70 ∷ 0x65 ∷ 0x54 ∷ 0x72 ∷ 0x65 ∷ 0x65
    ∷ 0x56 ∷ 0x61 ∷ 0x6c ∷ 0x75 ∷ 0x65 ∷ 0x2e ∷ 0x76 ∷ 0x31 ∷ 0 ∷ []

-- The hash of the domain, and the value behind it; `none` is a null pointer.
abbrev pub hash_domain : {S : Type 0} → (S → Bytes → Option S) → Option Value → S → Option (S × ℕ)
hash_domain update none s = none
hash_domain update (some v) s = hash_bytes update domain (s, max_nodes) >>= hash_value update v 0

-- What is written to `digest`. `context` is the local variable with whatever its block holds.
pub typetree_value_digest : Context → Option Value → Option Bytes
typetree_value_digest context v =
    hash_domain common_sha256_update v (common_sha256_init context) >>= λ d.
    some (common_sha256_final d.0).0
