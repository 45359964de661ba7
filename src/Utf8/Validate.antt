-- ===== src/Utf8/Validate.antt =====
-- `validate` splits every span into scalar values and, at the offset that it reports, what is none.
use unity_common.Base.{
  ℕ, zero, suc, ◌+◌, ◌≤◌, ◌<◌, ◌≡◌, ◌≢◌, refl, sym, ap, ◌∙◌, ◌⊎◌, inl, inr, List, [], ◌∷◌, ◌++◌,
  append_assoc, Option, none, some, arith, length, drop, All, Option-cases, length-append,
  length-drop, drop-drop, drop-append, lt→ltb, le→ltb,
}
use native.Mathlib.Decide.{dec_lt}
use native.Mathlib.Nat.{add-zero, zero-add}
use unity_common.Base.Words.{Bytes, size_max}
use unity_common.Utf8.{
  Status, Result, Sequence, make_result, make_sequence, decode_sequence, validate_loop, validate,
}
use unity_common.Utf8.Encoding.{IsScalar, encode, encode_all}
use unity_common.Utf8.Decode.{decode-encode, decode_sequence_sound}

-- What a result says of the bytes from `start` on: scalar values `vs`, then `rest`.
record Splits (start : ℕ) (bytes : Bytes) (r : Option Result) : Type 0 where
  vs : List ℕ
  rest : Bytes
  scalars : All IsScalar vs
  parts : bytes ≡ encode_all vs ++ rest
  verdict :
      ((r ≡ some (make_result Status.ok size_max)) × (rest ≡ []))
      ⊎ ((r ≡ some (make_result Status.invalid_encoding (start + length (encode_all vs))))
          × (rest ≢ [])
          × (decode_sequence rest ≡ none))

length-encode_pos : (v : ℕ) → 0 < length (encode v)
unfolding encode
length-encode_pos v = ground arith

Splits-step :
    (start : ℕ) (bytes : Bytes) (v n : ℕ) (r : Option Result)
    → IsScalar v
    → encode v ++ drop n bytes ≡ bytes
    → n ≡ length (encode v)
    → Splits (start + n) (drop n bytes) r
    → Splits start bytes r
unfolding encode_all
Splits-step start bytes v n r hv e hn t = record {
  vs = v ∷ t.vs;
  rest = t.rest;
  scalars = (hv, t.scalars);
  parts =
      sym e
      ∙ ap (λ b. encode v ++ b) t.parts
      ∙ sym (append_assoc (encode v) (encode_all t.vs) t.rest);
  verdict = elim t.verdict [
    | inl h ↦ inl h
    | inr h ↦ inr (
      h.0
          ∙ ap (λ k. some (make_result Status.invalid_encoding k))
              (omega (arith, hn, length-append (encode v) (encode_all t.vs))),
      h.1,
      h.2,
    )
  ];
}

-- One round of the loop, by its three ways to go on.
module _ (fuel : ℕ) (bytes : Bytes) (position : ℕ) where
  round_bad :
      position < length bytes
      → decode_sequence (drop position bytes) ≡ none
      → validate_loop (suc fuel) bytes position
        ≡ some (make_result Status.invalid_encoding position)
  unfolding validate_loop
  round_bad h e = rw (lt→ltb _ _ h, e)

  round_good :
      (s : Sequence)
      → position < length bytes
      → decode_sequence (drop position bytes) ≡ some s
      → validate_loop (suc fuel) bytes position
        ≡ validate_loop fuel bytes (position + s.sequence_size)
  unfolding validate_loop
  round_good s h e = rw (lt→ltb _ _ h, e)

  round_end :
      length bytes ≤ position
      → validate_loop (suc fuel) bytes position ≡ some (make_result Status.ok size_max)
  unfolding validate_loop
  round_end h = rw (le→ltb _ _ h)

length-zero {ℓ} : {A : Type ℓ} (xs : List A) → length xs ≤ 0 → xs ≡ []
length-zero [] h = refl
length-zero (x ∷ xs) h = absurd (omega arith)

-- `position` stays in the span, and the fuel covers what is left.
validate_loop-Splits :
    (fuel : ℕ) (bytes : Bytes) (position : ℕ)
    → position ≤ length bytes
    → length bytes < position + fuel
    → Splits position (drop position bytes) (validate_loop fuel bytes position)
validate_loop-Splits zero bytes position hp hf = absurd (omega arith)
validate_loop-Splits (suc fuel) bytes position hp hf = elim (dec_lt position (length bytes)) [
  | no outside ↦
      let at_end : drop position bytes ≡ [] =
        length-zero (drop position bytes) (omega (arith, length-drop position bytes)) in
      record {
        vs = [];
        rest = [];
        scalars = tt;
        parts = unfold encode_all in at_end;
        verdict = inl (round_end fuel bytes position (omega arith), refl);
      }
  | yes inside ↦ elim (Option-cases (decode_sequence (drop position bytes))) [
    | inl bad ↦ record {
      vs = [];
      rest = drop position bytes;
      scalars = tt;
      parts = unfold encode_all in refl;
      verdict = inr (
        unfold encode_all in rw add-zero (round_bad fuel bytes position inside bad),
        λ e. absurd (omega (arith, length-drop position bytes, ap length e)),
        bad,
      );
    }
    | inr (s, good) ↦
        let (hv, e, hn) = decode_sequence_sound (drop position bytes) s good in
        let n : ℕ = s.sequence_size in
        let fits : position + n ≤ length bytes = omega (
          arith,
          hn,
          length-drop position bytes,
          ap length e,
          length-append (encode s.scalar) (drop n (drop position bytes)),
        ) in
        let later : Splits (position + n) (drop n (drop position bytes))
            (validate_loop fuel bytes (position + n)) =
          rw drop-drop (
            validate_loop-Splits fuel bytes (position + n) fits
              (omega (arith, hn, length-encode_pos s.scalar))) in
        rw (round_good fuel bytes position s inside good)
          (Splits-step position (drop position bytes) s.scalar n _ hv e hn later)
  ]
]

-- No form of a scalar value stands at the front.
abbrev pub BeginsWithNone : Bytes → Type 0
BeginsWithNone rest = (v : ℕ) (tail : Bytes) → IsScalar v → rest ≢ encode v ++ tail

decode_none-BeginsWithNone : (rest : Bytes) → decode_sequence rest ≡ none → BeginsWithNone rest
decode_none-BeginsWithNone rest h v tail scalar e =
    let found = decode-encode v tail scalar in
    let k : ◌≡◌ {A = Option Sequence} none (some (make_sequence v (length (encode v)))) =
      sym h ∙ ap decode_sequence e ∙ found in
    absurd (ground (arith, k))

-- A split of `bytes` that settles what `validate` returns.
abbrev pub Verdict : Bytes → Type 0
Verdict bytes =
    (vs : List ℕ) × (rest : Bytes) × All IsScalar vs
    × (bytes ≡ encode_all vs ++ rest)
    × (((validate (some bytes) ≡ some (make_result Status.ok size_max)) × (rest ≡ []))
        ⊎ ((validate (some bytes)
              ≡ some (make_result Status.invalid_encoding (length (encode_all vs))))
            × (rest ≢ [])
            × BeginsWithNone rest))

-- Every span is the forms of scalar values and then a rest. It is valid with no rest; else the rest
-- is not empty and begins with the form of no scalar value, and the result is an invalid encoding at
-- the offset of the rest. The loop always ends.
pub validate-Verdict : (bytes : Bytes) → Verdict bytes
unfolding validate
validate-Verdict bytes =
    let t : Splits 0 bytes (validate_loop (suc (length bytes)) bytes 0) =
      validate_loop-Splits (suc (length bytes)) bytes 0 (omega arith) (omega arith) in
    (
      t.vs,
      t.rest,
      t.scalars,
      t.parts,
      elim (rw zero-add at t.verdict) [
        | inl h ↦ inl h
        | inr h ↦ inr (h.0, h.1, decode_none-BeginsWithNone t.rest h.2)
      ],
    )

validate_loop-encode_all :
    (vs : List ℕ) (fuel : ℕ) (bytes : Bytes) (position : ℕ)
    → All IsScalar vs
    → position ≤ length bytes
    → length bytes < position + fuel
    → drop position bytes ≡ encode_all vs
    → validate_loop fuel bytes position ≡ some (make_result Status.ok size_max)
unfolding encode_all
validate_loop-encode_all vs zero bytes position hv hp hf e = absurd (omega arith)
validate_loop-encode_all [] (suc fuel) bytes position hv hp hf e =
    round_end fuel bytes position (omega (arith, length-drop position bytes, ap length e))
validate_loop-encode_all (v ∷ vs) (suc fuel) bytes position (hv, hvs) hp hf e =
    let n = length (encode v) in
    let fits : position + n ≤ length bytes = omega (
      arith,
      length-drop position bytes,
      ap length e,
      length-append (encode v) (encode_all vs),
      length-encode_pos v,
    ) in
    round_good fuel bytes position (make_sequence v n) (omega (arith, length-encode_pos v))
      (rw e (decode-encode v (encode_all vs) hv))
    ∙ validate_loop-encode_all vs fuel bytes (position + n) hvs fits
        (omega (arith, length-encode_pos v))
        (sym (drop-drop n position bytes) ∙ ap (drop n) e ∙ drop-append (encode v) (encode_all vs))

-- The forms of any scalar values, one after the other, are valid.
pub validate-encode_all :
    (vs : List ℕ)
    → All IsScalar vs
    → validate (some (encode_all vs)) ≡ some (make_result Status.ok size_max)
unfolding validate
validate-encode_all vs h =
    validate_loop-encode_all vs (suc (length (encode_all vs))) (encode_all vs) 0 h (omega arith)
      (omega arith) refl
