-- ===== src/ValueDigest/Bytewise.antt =====
-- Packed bytes and the array of the same bytes as integers of type "UInt8" have one encoding.
use unity_common.Base.{
  ℕ, suc, ◌%◌, ◌≡◌, refl, sym, ap, ◌∙◌, true, Option, some, [], ◌∷◌, ◌++◌, append_assoc, append-nil,
  arith, leb, length,
}
use unity_common.Base.{All}
use unity_common.Base.Words.{Bytes, IsByte}
use unity_common.Sha256.{Context}
use unity_common.ValueDigest.{
  value, integer, elements, packed_bytes, Values, end, next, count_of, expanded_bytes, uint8_name,
  hash_elements, hash_value, hash_payload, typetree_value_digest,
}
use unity_common.ValueDigest.Steps.{bind-cong}
use unity_common.ValueDigest.Arrays.{hash_packed-append}
use unity_common.ValueDigest.Encoding.{
  append, encoding, hashed, message_of, typetree_value_digest-encoding,
}

-- The bytes as elements, each with the name given for it.
pub expand : Bytes → Bytes → Values
expand name [] = end
expand name (b ∷ bytes) =
    next (value (some name) (some uint8_name) (integer true b)) (expand name bytes)

count_of-expand : (name bytes : Bytes) → count_of (expand name bytes) ≡ length bytes
unfolding expand
count_of-expand name [] = refl
count_of-expand name (b ∷ bytes) = ap (λ k. suc k) (count_of-expand name bytes)

expanded_bytes-expand :
    (name bytes : Bytes) → All IsByte bytes → expanded_bytes (expand name bytes) ≡ true
unfolding expand
expanded_bytes-expand name [] h = refl
expanded_bytes-expand name (b ∷ bytes) h =
    let small : leb b 255 ≡ true = ground (arith, h.0) in
    rw small (expanded_bytes-expand name bytes h.1)

hash_elements-expand :
    (name bytes message : Bytes) (nodes : ℕ)
    → All IsByte bytes
    → hash_elements append (expand name bytes) (message, nodes) ≡ some (message ++ bytes, nodes)
unfolding expand hash_elements
hash_elements-expand name [] message nodes h = ap (λ k. some (k, nodes)) (sym (append-nil message))
hash_elements-expand name (b ∷ bytes) message nodes h =
    let same : b % 256 ≡ b = omega (arith, h.0) in
    rw same (
      hash_elements-expand name bytes (message ++ (b ∷ [])) nodes h.1
      ∙ ap (λ k. some (k, nodes)) (append_assoc message (b ∷ []) bytes))

-- Behind their common header both storages add the bytes.
payload-alike :
    (name bytes : Bytes) (depth : ℕ) (d : Bytes × ℕ)
    → All IsByte bytes
    → hash_payload append (packed_bytes bytes) depth d
      ≡ hash_payload append (elements (expand name bytes)) depth d
unfolding hash_payload
payload-alike name bytes depth d h =
    rw
      (
        count_of-expand name bytes,
        expanded_bytes-expand name bytes h,
        hash_elements-expand name bytes _ _ h,
        hash_packed-append bytes _ _,
      )
      refl

value-alike :
    (name type_str : Option Bytes) (label bytes : Bytes) (depth : ℕ) (d : Bytes × ℕ)
    → All IsByte bytes
    → hash_value append (value name type_str (packed_bytes bytes)) depth d
      ≡ hash_value append (value name type_str (elements (expand label bytes))) depth d
unfolding hash_value
value-alike name type_str label bytes depth d h =
    bind-cong _ _ _ (λ e. payload-alike label bytes depth e h)

same :
    (name type_str : Option Bytes) (label bytes : Bytes)
    → All IsByte bytes
    → encoding (some (value name type_str (packed_bytes bytes)))
      ≡ encoding (some (value name type_str (elements (expand label bytes))))
unfolding encoding
same name type_str label bytes h = ap message_of (value-alike name type_str label bytes 0 _ h)

-- A value of packed bytes and one of the same bytes as integers of type "UInt8", with any name, have the
-- same digest.
pub packed_bytes-elements :
    (context : Context) (name type_str : Option Bytes) (label bytes : Bytes)
    → length context.block ≡ 64
    → All IsByte bytes
    → typetree_value_digest context (some (value name type_str (packed_bytes bytes)))
      ≡ typetree_value_digest context (some (value name type_str (elements (expand label bytes))))
packed_bytes-elements context name type_str label bytes block h =
    typetree_value_digest-encoding context _ block
    ∙ ap hashed (same name type_str label bytes h)
    ∙ sym (typetree_value_digest-encoding context _ block)
