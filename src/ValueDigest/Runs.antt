-- ===== src/ValueDigest/Runs.antt =====
-- Runs of the encoding on small values, and the theorems at concrete inputs.
use unity_common.Base.{◌≡◌, refl, true, false, Option, none, some, [], ◌∷◌, ◌++◌, arith, replicate}
use unity_common.Base.Words.{Bytes}
use unity_common.Sha256.{Context, initial_state}
use unity_common.ValueDigest.{
  Value, value, integer, string, elements, packed_bytes, members, end, next, hash_value,
  typetree_value_digest,
}
use unity_common.ValueDigest.Encoding.{append, hashed}
use unity_common.ValueDigest.Format.{label, little_endian, message, payload_form, value_form, word}
use unity_common.ValueDigest.Message.{typetree_value_digest-message}
use unity_common.ValueDigest.Bytewise.{expand, packed_bytes-elements}

abbrev blank : Context
blank = record { state = initial_state; total_size = 0; block = replicate 64 7; block_size = 0 }

abbrev a_name : Option Bytes
a_name = some (0x61 ∷ [])

-- The tag, the two strings with their sizes, the sign and the number, at the cost of one node.
integer_runs :
    hash_value append (value (some []) (some (0x61 ∷ [])) (integer true 258)) 0 ([], 5)
    ≡ some (
      replicate 8 0
          ++ (replicate 8 0 ++ (1 ∷ replicate 7 0))
          ++ (0x61 ∷ (1 ∷ replicate 7 0))
          ++ (2 ∷ 1 ∷ replicate 6 0),
      4,
    )
unfolding hash_value
integer_runs = refl

-- No nodes are left for the member.
members_refused :
    hash_value append
      (value a_name a_name (members (next (value a_name a_name (integer true 1)) end)))
      0
      ([], 1)
    ≡ none
unfolding hash_value
members_refused = refl

-- The recorded length is not that of the string.
string_refused :
    hash_value append (value a_name a_name (string (some (0x61 ∷ [])) 2)) 0 ([], 5) ≡ none
unfolding hash_value
string_refused = refl

abbrev record_value : Value
record_value = value a_name a_name (
    members (
      next (value a_name a_name (packed_bytes (1 ∷ 2 ∷ [])))
        (next (value a_name a_name (integer false 7)) end)))

-- An array of one byte has a message.
message_found :
    message (some (value (some []) (some []) (packed_bytes (7 ∷ []))))
    ≡ some (label ++ (word 3 ++ word 0 ++ word 0) ++ (word 1 ++ word 1) ++ (7 ∷ []))
unfolding message value_form payload_form little_endian
message_found = refl

typetree_value_digest-message_example :
    typetree_value_digest blank (some record_value) ≡ hashed (message (some record_value))
typetree_value_digest-message_example = typetree_value_digest-message blank (some record_value) refl

packed_bytes-elements_example :
    typetree_value_digest blank (some (value a_name a_name (packed_bytes (1 ∷ 255 ∷ []))))
    ≡ typetree_value_digest blank
        (some (value a_name a_name (elements (expand (0x62 ∷ []) (1 ∷ 255 ∷ [])))))
packed_bytes-elements_example =
    packed_bytes-elements blank a_name a_name (0x62 ∷ []) (1 ∷ 255 ∷ []) refl
      (omega arith, (omega arith, tt))
