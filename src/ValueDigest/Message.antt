-- ===== src/ValueDigest/Message.antt =====
-- The traversal over plain bytes gives the message of the format, and the digest is its hash.
use unity_common.Base.{
  ℕ, ◌+◌, ◌-◌, ◌≡◌, refl, ap, ◌∙◌, inl, inr, false, ◌&&◌, Option, none, some, [], arith, leb,
  if◌then◌else◌, Bool-cases, length,
}
use unity_common.Base.Words.{Bytes}
use unity_common.Sha256.{Context}
use unity_common.ValueDigest.{
  Value, value, Payload, integer, float, string, elements, packed_bytes, no_elements, members,
  no_members, nothing, unknown_type, Values, end, next, count_of, hash_word, open_value,
  hash_packed, hash_value, hash_payload, hash_values, typetree_value_digest, max_nodes, domain,
}
use unity_common.ValueDigest.Encoding.{
  append, encoding, message_of, hashed, typetree_value_digest-encoding,
}
use unity_common.ValueDigest.Format.{
  word, Form, ◌⊕◌, plain, only_if, element_bytes, value_form, payload_form, values_form, within,
  message,
}
use unity_common.ValueDigest.Steps.{
  outcome, Is, precheck, Is-bind, Is-word, Is-none, Is-some, Is-string, bind-none, Is-value,
}
use unity_common.ValueDigest.Arrays.{
  Is-raw, hash_packed-append, element_bytes-Expansion, count_of-nodes, Is-array, Is-size,
  Is-nothing, Is-empty_array,
}

Is-unknown :
    (name type_str : Option Bytes) (depth : ℕ)
    → Is (λ d. none) (value_form (value name type_str unknown_type)) (256 - depth)
unfolding Is value_form payload_form
Is-unknown name type_str depth m n =
    bind-none (open_value append name type_str (some 0) depth (m, n))
    ∙ Is-value name type_str 0 depth (λ d. none) (only_if false []) (Is-none [] _) m n

mutual
  unfolding value_form payload_form values_form hash_value hash_payload hash_values

  value-Is : (v : Value) (depth : ℕ) → Is (hash_value append v depth) (value_form v) (256 - depth)
  value-Is (value name type_str unknown_type) depth = Is-unknown name type_str depth
  value-Is (value name type_str (integer is_unsigned bits)) depth =
      Is-value name type_str 0 depth _ _ (payload-Is (integer is_unsigned bits) depth)
  value-Is (value name type_str (float bits)) depth =
      Is-value name type_str 1 depth _ _ (payload-Is (float bits) depth)
  value-Is (value name type_str (string text size)) depth =
      Is-value name type_str 2 depth _ _ (payload-Is (string text size) depth)
  value-Is (value name type_str (elements vs)) depth =
      Is-value name type_str 3 depth _ _ (payload-Is (elements vs) depth)
  value-Is (value name type_str (packed_bytes bytes)) depth =
      Is-value name type_str 3 depth _ _ (payload-Is (packed_bytes bytes) depth)
  value-Is (value name type_str (no_elements storage count)) depth =
      Is-value name type_str 3 depth _ _ (payload-Is (no_elements storage count) depth)
  value-Is (value name type_str (members vs)) depth =
      Is-value name type_str 4 depth _ _ (payload-Is (members vs) depth)
  value-Is (value name type_str (no_members count)) depth =
      Is-value name type_str 4 depth _ _ (payload-Is (no_members count) depth)
  value-Is (value name type_str nothing) depth =
      Is-value name type_str 5 depth _ _ (payload-Is nothing depth)

  payload-Is :
      (p : Payload) (depth : ℕ)
      → Is (hash_payload append p depth) (payload_form p) (256 - (depth + 1))
  payload-Is (integer is_unsigned bits) depth =
      Is-bind _ _ _ _ _ (Is-word (if is_unsigned then 1 else 0) _) (Is-word bits _)
  payload-Is (float bits) depth = Is-word bits _
  payload-Is (string text size) depth = Is-bind _ _ _ _ _ (Is-string text _) (Is-size text size _)
  payload-Is (elements vs) depth =
      Is-array vs _ _ _ (element_bytes vs) (count_of-nodes vs) (values-Is vs (depth + 1))
        (element_bytes-Expansion vs)
  payload-Is (packed_bytes bytes) depth =
      Is-raw bytes (hash_packed append bytes) _ (hash_packed-append bytes)
  payload-Is (no_elements storage count) depth = Is-empty_array storage count _
  payload-Is (members vs) depth =
      precheck (count_of vs) _ (plain (word (count_of vs)) ⊕ values_form vs) _
        (omega (arith, count_of-nodes vs))
        (Is-bind _ _ _ _ _ (Is-word (count_of vs) _) (values-Is vs (depth + 1)))
  payload-Is (no_members count) depth =
      Is-nothing count (hash_word append 0) (word 0) _ (Is-word 0 _)
  payload-Is nothing depth = Is-some _
  payload-Is unknown_type depth = Is-none [] _

  values-Is :
      (vs : Values) (depth : ℕ) → Is (hash_values append vs depth) (values_form vs) (256 - depth)
  values-Is end depth = Is-some _
  values-Is (next v vs) depth = Is-bind _ _ _ _ _ (value-Is v depth) (values-Is vs depth)

within-outcome : (f : Form) → message_of (outcome f (256 - 0) (domain, max_nodes)) ≡ within f
unfolding outcome
within-outcome f = elim (Bool-cases (f.valid && (leb f.nodes 1048576 && leb f.levels 256))) [
  | inl e ↦ rw e refl
  | inr e ↦ rw e refl
]

-- The encoding of the traversal is the message of the format.
encoding-message : (v : Option Value) → encoding v ≡ message v
unfolding Is encoding message
encoding-message none = refl
encoding-message (some v) =
    ap message_of (value-Is v 0 domain max_nodes) ∙ within-outcome (value_form v)

-- The digest of a value is the SHA-256 hash of the message that the format gives it: behind the label, its
-- kind, its names and what it holds, in words of eight bytes and in order. A digest is refused just
-- where the format gives no message: for a null value, an unknown kind, a null or overlong string,
-- a recorded size that is wrong, counts without members, and above a million nodes or 256 levels.
-- The local context has a block of 64 bytes, whatever they are.
pub typetree_value_digest-message :
    (context : Context) (v : Option Value)
    → length context.block ≡ 64
    → typetree_value_digest context v ≡ hashed (message v)
typetree_value_digest-message context v h =
    typetree_value_digest-encoding context v h ∙ ap hashed (encoding-message v)
