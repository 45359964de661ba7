-- ===== src/ValueDigest/Arrays.antt =====
-- The arrays and strings of the traversal over plain bytes, by the forms that they add.
use unity_common.Base.{
  ℕ, zero, suc, ◌≤◌, ◌≡◌, refl, sym, ap, ◌∙◌, inl, inr, true, false, ◌&&◌, Option, none, some, [],
  ◌∷◌, ◌++◌, append_assoc, append-nil, arith, ltb, leb, ◌==◌, if◌then◌else◌, Bool-cases, length,
}
use unity_common.Base.Words.{Bytes}
use unity_common.Base.Int.{ℤ, pos, negsuc}
use unity_common.ValueDigest.{
  same_bytes, uint8_name, Value, value, integer, Values, end, next, count_of, is_byte, byte_of,
  expanded_bytes, ◌>>=◌, hash_counts, spend, hash_elements, hash_packed, hash_none, text_size,
}
use unity_common.ValueDigest.Encoding.{append}
use unity_common.ValueDigest.Format.{
  is_uint8, word, Form, ◌⊕◌, plain, only_if, size_is, element_byte, before, element_bytes,
  bytes_form, array_form, is_zero, value_form, values_form,
}
use unity_common.ValueDigest.Steps.{
  little_word-word, outcome, Is, precheck, Is-bind, Is-none, Is-counts,
}

-- The bytes of an array, behind its counts.
pub Is-raw :
    (raw : Bytes) (h : Bytes × ℕ → Option (Bytes × ℕ)) (room : ℕ)
    → ((m : Bytes) (n : ℕ) → h (m, n) ≡ some (m ++ raw, n))
    → Is
        (λ d.
          if ltb d.1 (length raw)
          then none
          else (hash_counts append (length raw) true d >>= λ e. h (spend append (length raw) e)))
        (bytes_form raw)
        room
unfolding Is outcome
Is-raw raw h room k m n = elim (Bool-cases (ltb n (length raw))) [
  | inl e ↦ rw e (ground (arith, e))
  | inr e ↦
      rw (e, little_word-word (length raw), little_word-word 1, k _ _)
        (ground (
          arith,
          e,
          append_assoc m (word (length raw)) (word 1),
          append_assoc m (word (length raw) ++ word 1) raw,
        ))
]

pub hash_packed-append :
    (raw m : Bytes) (n : ℕ) → hash_packed append raw (m, n) ≡ some (m ++ raw, n)
hash_packed-append [] m n = ap (λ k. some (k, n)) (sym (append-nil m))
hash_packed-append (b ∷ raw) m n = refl

same_bytes-is_uint8 : (text : Bytes) → same_bytes text uint8_name ≡ is_uint8 text
same_bytes-is_uint8 [] = refl
same_bytes-is_uint8 (a ∷ []) = ground arith
same_bytes-is_uint8 (a ∷ b ∷ []) = ground arith
same_bytes-is_uint8 (a ∷ b ∷ c ∷ []) = ground arith
same_bytes-is_uint8 (a ∷ b ∷ c ∷ d ∷ []) = ground arith
same_bytes-is_uint8 (a ∷ b ∷ c ∷ d ∷ e ∷ []) = ground arith
same_bytes-is_uint8 (a ∷ b ∷ c ∷ d ∷ e ∷ f ∷ text) = ground arith

element_byte-is_byte : (v : Value) → element_byte v ≡ (if is_byte v then some (byte_of v) else none)
element_byte-is_byte (value (some name) (some type_str) (integer true bits)) =
    rw (same_bytes-is_uint8 type_str) (ground arith)
element_byte-is_byte v = refl

-- The elements as bytes, if all are.
pub record Expanded (vs : Values) (raw : Bytes) : Type 0 where
  pub all : expanded_bytes vs ≡ true
  pub count : count_of vs ≡ length raw
  pub run : (m : Bytes) (n : ℕ) → hash_elements append vs (m, n) ≡ some (m ++ raw, n)

pub Expansion : Values → Option Bytes → Type 0
Expansion vs none = expanded_bytes vs ≡ false
Expansion vs (some raw) = Expanded vs raw

Expansion-next :
    (v : Value) (vs : Values) (o : Option Bytes)
    → Expansion vs o
    → Expansion (next v vs) (before (if is_byte v then some (byte_of v) else none) o)
unfolding Expansion hash_elements
Expansion-next v vs none h = elim (Bool-cases (is_byte v)) [
  | inl e ↦ rw e (ground (arith, e, h))
  | inr e ↦ rw e (ground (arith, e))
]
Expansion-next v vs (some raw) h = elim (Bool-cases (is_byte v)) [
  | inl e ↦ rw e (record {
    all = ground (arith, e, h.all);
    count = ap (λ k. suc k) h.count;
    run = λ m n.
        h.run (m ++ (byte_of v ∷ [])) n
        ∙ ap (λ k. some (k, n)) (append_assoc m (byte_of v ∷ []) raw);
  })
  | inr e ↦ rw e (ground (arith, e))
]

pub element_bytes-Expansion : (vs : Values) → Expansion vs (element_bytes vs)
unfolding element_bytes Expansion hash_elements
element_bytes-Expansion end = record {
  all = refl;
  count = refl;
  run = λ m n. ap (λ k. some (k, n)) (sym (append-nil m));
}
element_bytes-Expansion (next v vs) =
    rw (element_byte-is_byte v)
      (Expansion-next v vs (element_bytes vs) (element_bytes-Expansion vs))

pub count_of-nodes : (vs : Values) → count_of vs ≤ (values_form vs).nodes
unfolding values_form value_form
count_of-nodes end = omega arith
count_of-nodes (next (value name type_str payload) vs) = omega (arith, count_of-nodes vs)

abbrev hash_array : Values → (Bytes × ℕ → Option (Bytes × ℕ)) → Bytes × ℕ → Option (Bytes × ℕ)
hash_array vs each d =
    if ltb d.1 (count_of vs)
    then none
    else if expanded_bytes vs
    then (hash_counts append (count_of vs) true d >>= λ e.
        hash_elements append vs (spend append (count_of vs) e))
    else (hash_counts append (count_of vs) false d >>= each)

pub Is-array :
    (vs : Values) (each : Bytes × ℕ → Option (Bytes × ℕ)) (f : Form) (room : ℕ) (o : Option Bytes)
    → count_of vs ≤ f.nodes
    → Is each f room
    → Expansion vs o
    → Is (hash_array vs each) (array_form (count_of vs) o f) room
unfolding Expansion Is
Is-array vs each f room none le k h m n = rw h (
    precheck (count_of vs) (λ d. hash_counts append (count_of vs) false d >>= each)
      (plain (word (count_of vs) ++ word 0) ⊕ f) room (omega (arith, le))
      (Is-bind (hash_counts append (count_of vs) false) each (plain (word (count_of vs) ++ word 0))
        f room (Is-counts (count_of vs) false room) k)
      m n)
Is-array vs each f room (some raw) le k h m n =
    rw (h.all, h.count) (Is-raw raw (hash_elements append vs) room h.run m n)

pub Is-size :
    (text : Option Bytes) (size room : ℕ)
    → Is
        (λ e. if text_size text == size then some e else none)
        (only_if (size_is text size) [])
        room
unfolding Is outcome
Is-size none size room m n = ground (arith, append-nil m)
Is-size (some text) size room m n = ground (arith, append-nil m)

pub Is-nothing :
    (count : ℤ) (h : Bytes × ℕ → Option (Bytes × ℕ)) (bytes : Bytes) (room : ℕ)
    → Is h (plain bytes) room
    → Is (hash_none append count h) (only_if (is_zero count) bytes) room
Is-nothing (pos zero) h bytes room k = k
Is-nothing (pos (suc n)) h bytes room k = Is-none bytes room
Is-nothing (negsuc n) h bytes room k = Is-none bytes room

pub Is-empty_array :
    (storage : ℕ) (count : ℤ) (room : ℕ)
    → Is
        (λ d. if ltb 1 storage then none else hash_none append count (hash_counts append 0 true) d)
        (only_if (leb storage 1 && is_zero count) (word 0 ++ word 1))
        room
unfolding Is outcome
Is-empty_array storage count room m n = elim (Bool-cases (ltb 1 storage)) [
  | inl e ↦ rw e (ground (arith, e))
  | inr e ↦
      let small : leb storage 1 ≡ true = ground (arith, e) in
      rw (e, small)
        (Is-nothing count (hash_counts append 0 true) (word 0 ++ word 1) room
          (Is-counts 0 true room) m n)
]
