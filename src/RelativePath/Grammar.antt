-- ===== src/RelativePath/Grammar.antt =====
-- The grammar of the relative paths that validation accepts.
use unity_common.Base.{
  ℕ, zero, suc, ◌+◌, ◌-◌, ◌≤◌, ◌<◌, ◌≡◌, ◌≢◌, refl, sym, ap, subst, ◌∙◌, ◌⊎◌, inl, inr, true, false,
  ◌&&◌, ◌||◌, Option, none, some, [], ◌∷◌, ◌++◌, append_assoc, arith, ltb, ◌==◌, if◌then◌else◌,
  Bool-cases, Option-cases, length, drop, length-append, length-drop, drop-drop, drop-append,
  drop-get, drop-nil,
}
use unity_common.Base.Words.{Bytes, size_max}
use unity_common.RelativePath.{
  Status, Result, make_result, at, component_result, is_ok, validate_loop, validate_utf8,
}
use unity_common.Utf8.{Sequence, make_sequence, decode_sequence}
use unity_common.Utf8.Encoding.{IsScalar, encode}
use unity_common.Utf8.Decode.{decode-encode, decode_sequence_sound}

-- A component is not empty, and neither "." nor "..".
pub record IsComponent (component : Bytes) : Type 0 where
  pub not_empty : component ≢ []
  pub not_dot : component ≢ 0x2e ∷ []
  pub not_dot_dot : component ≢ 0x2e ∷ 0x2e ∷ []

-- A scalar value that a component may hold: no control character, slash or backslash.
pub record IsPlain (v : ℕ) : Type 0 where
  pub scalar : IsScalar v
  pub no_control : 0x20 ≤ v
  pub no_slash : v ≢ 0x2f
  pub no_backslash : v ≢ 0x5c

-- `component` is the front of a component whose rest `text` begins: `text` ends it, goes on behind a
-- slash with another component, or goes on with one more plain scalar value.
pub data Spelled : Bytes → Bytes → Type 0 where
  ends : (component text : Bytes) → text ≡ [] → IsComponent component → Spelled component text
  slash :
      (component text rest : Bytes)
      → text ≡ 0x2f ∷ rest
      → IsComponent component
      → Spelled [] rest
      → Spelled component text
  char :
      (component text rest : Bytes) (v : ℕ)
      → text ≡ encode v ++ rest
      → IsPlain v
      → Spelled (component ++ encode v) rest
      → Spelled component text

-- What a result says of a component so far and of the text behind it.
pub data Checks (component text : Bytes) (o : Option Result) : Type 0 where
  accepts :
      o ≡ some (make_result Status.ok size_max) → Spelled component text → Checks component text o
  rejects :
      (r : Result)
      → o ≡ some r
      → r.status ≢ Status.ok
      → ¬ Spelled component text
      → Checks component text o

data ComponentChecks (component : Bytes) (r : Result) : Type 0 where
  good : r ≡ make_result Status.ok size_max → IsComponent component → ComponentChecks component r
  bad :
      is_ok r.status ≡ false
      → r.status ≢ Status.ok
      → ¬ IsComponent component
      → ComponentChecks component r

get-drop : (bytes : Bytes) (i k : ℕ) → at bytes (i + k) ≡ at (drop i bytes) k
get-drop bytes zero k = ap (at bytes) (omega arith)
get-drop [] (suc i) k = refl
get-drop (b ∷ bytes) (suc i) k =
    let e : suc i + k ≡ suc (i + k) = omega arith in ap (at (b ∷ bytes)) e ∙ get-drop bytes i k

drop-all : (n : ℕ) (bytes : Bytes) → length bytes ≤ n → drop n bytes ≡ []
drop-all n [] h = drop-nil n
drop-all zero (b ∷ bytes) h = absurd (omega arith)
drop-all (suc n) (b ∷ bytes) h = drop-all n bytes (omega arith)

at-front : {a : ℕ} {rest : Bytes} (bytes : Bytes) (i : ℕ) → drop i bytes ≡ a ∷ rest → at bytes i ≡ a
at-front bytes i h =
    let e : i ≡ i + 0 = omega arith in ap (at bytes) e ∙ get-drop bytes i 0 ∙ ap (λ l. at l 0) h

dots : {a b : ℕ} → a ≡ 0x2e → b ≡ 0x2e → a ∷ b ∷ [] ≡ 0x2e ∷ 0x2e ∷ []
dots p q = cc

component_result-checks :
    (bytes component rest : Bytes) (begin : ℕ)
    → drop begin bytes ≡ component ++ rest
    → ComponentChecks component (component_result bytes begin (begin + length component))
unfolding component_result
component_result-checks bytes [] rest begin h =
    let test : (begin == begin + 0) ≡ true = ground arith in
    bad (rw test refl) (rw test λ s. cc) (λ c. c.not_empty refl)
component_result-checks bytes (a ∷ []) rest begin h =
    let first : at bytes begin ≡ a = at-front bytes begin h in
    let more : (begin == begin + 1) ≡ false = ground arith in
    rw (more, first)
      (elim (Bool-cases (a == 0x2e)) [
        | inl e ↦
            let test : ((begin + 1 - begin == 1 && a == 0x2e)
                  || (begin + 1 - begin == 2 && (a == 0x2e && at bytes (begin + 1) == 0x2e)))
                ≡ true =
              ground arith in
            rw test (bad refl (λ s. cc) (λ c. c.not_dot (ap (λ x. x ∷ []) (ground arith))))
        | inr e ↦
            let test : ((begin + 1 - begin == 1 && a == 0x2e)
                  || (begin + 1 - begin == 2 && (a == 0x2e && at bytes (begin + 1) == 0x2e)))
                ≡ false =
              ground arith in
            rw test (
              good refl (record {
                not_empty = λ q. ground (arith, ap length q);
                not_dot = λ q. ground (arith, e, ap (λ l. at l 0) q);
                not_dot_dot = λ q. ground (arith, ap length q);
              }))
      ])
component_result-checks bytes (a ∷ b ∷ []) rest begin h =
    let first : at bytes begin ≡ a = at-front bytes begin h in
    let second : at bytes (begin + 1) ≡ b = get-drop bytes begin 1 ∙ ap (λ l. at l 1) h in
    let more : (begin == begin + 2) ≡ false = ground arith in
    rw (more, first, second)
      (elim (Bool-cases (a == 0x2e && b == 0x2e)) [
        | inl e ↦
            let test : ((begin + 2 - begin == 1 && a == 0x2e)
                  || (begin + 2 - begin == 2 && (a == 0x2e && b == 0x2e)))
                ≡ true =
              ground arith in
            rw test (
              bad refl (λ s. cc)
                (λ c. c.not_dot_dot (dots (ground (arith, e)) (ground (arith, e)))))
        | inr e ↦
            let test : ((begin + 2 - begin == 1 && a == 0x2e)
                  || (begin + 2 - begin == 2 && (a == 0x2e && b == 0x2e)))
                ≡ false =
              ground arith in
            rw test (
              good refl (record {
                not_empty = λ q. ground (arith, ap length q);
                not_dot = λ q. ground (arith, ap length q);
                not_dot_dot = λ q. ground (arith, e, ap (λ l. at l 0) q, ap (λ l. at l 1) q);
              }))
      ])
component_result-checks bytes (a ∷ b ∷ c ∷ component) rest begin h =
    let n : ℕ = suc (suc (suc (length component))) in
    let more : (begin == begin + n) ≡ false = ground arith in
    let test : ((begin + n - begin == 1 && at bytes begin == 0x2e)
          || (begin + n - begin == 2 && (at bytes begin == 0x2e && at bytes (begin + 1) == 0x2e)))
        ≡ false =
      ground arith in
    rw (more, test)
      (good refl (record {
        not_empty = λ q. ground (arith, ap length q);
        not_dot = λ q. ground (arith, ap length q);
        not_dot_dot = λ q. ground (arith, ap length q);
      }))

-- The first byte of a form tells an ASCII value.
encode-ascii : (v : ℕ) (rest : Bytes) → at (encode v ++ rest) 0 < 0x80 → at (encode v ++ rest) 0 ≡ v
unfolding encode
encode-ascii v rest h = ground arith

encode-front : (v : ℕ) (rest : Bytes) → v < 0x80 → at (encode v ++ rest) 0 ≡ v
unfolding encode
encode-front v rest h = ground arith

encode-nonempty : (v : ℕ) (rest : Bytes) → encode v ++ rest ≢ []
unfolding encode
encode-nonempty v rest e = ground (arith, ap length e)

-- The only ways on from a text, by its first byte.
module _ (component rest : Bytes) (value : ℕ) where
  form-front : (v : ℕ) (r : Bytes) → value ∷ rest ≡ encode v ++ r → value < 0x80 → value ≡ v
  form-front v r e h =
      let q : value ≡ at (encode v ++ r) 0 = ap (λ l. at l 0) e in
      q ∙ encode-ascii v r (subst (λ x. x < 0x80) q h)

  -- A control character or a backslash is no way on.
  Spelled-stuck : (value ≡ 0x5c) ⊎ (value < 0x20) → ¬ Spelled component (value ∷ rest)
  Spelled-stuck h (ends _ _ e c) = ground (arith, ap length e)
  Spelled-stuck h (slash _ _ r e c s) = ground (arith, h, ap (λ l. at l 0) e)
  Spelled-stuck h (char _ _ r v e p s) =
      let q = form-front v r e (ground (arith, h)) in
      ground (arith, h, q, p.no_control, p.no_backslash)

  -- At a slash the component ends.
  Spelled-slash :
      value ≡ 0x2f → Spelled component (value ∷ rest) → IsComponent component × Spelled [] rest
  Spelled-slash h (ends _ _ e c) = absurd (ground (arith, ap length e))
  Spelled-slash h (slash _ _ r e c s) = (c, subst (Spelled []) (sym (ap (drop 1) e)) s)
  Spelled-slash h (char _ _ r v e p s) =
      let q = form-front v r e (omega (arith, h)) in absurd (p.no_slash (sym q ∙ h))

  -- Elsewhere a form goes on.
  Spelled-char :
      value ≢ 0x2f
      → Spelled component (value ∷ rest)
      → (s : Sequence) × (decode_sequence (value ∷ rest) ≡ some s)
        × Spelled (component ++ encode s.scalar) (drop s.sequence_size (value ∷ rest))
  Spelled-char h (ends _ _ e c) = absurd (ground (arith, ap length e))
  Spelled-char h (slash _ _ r e c s) = absurd (h (ap (λ l. at l 0) e))
  Spelled-char h (char _ _ r v e p s) = (
    make_sequence v (length (encode v)),
    rw e (decode-encode v r p.scalar),
    rw (e, drop-append (encode v) r) s,
  )

same : {s t : Sequence} → some s ≡ some t → s ≡ t
same e = cc

none-some : {s : Sequence} → none ≡ some s → ⊥
none-some e = cc

Spelled-end : (component text : Bytes) → text ≡ [] → Spelled component text → IsComponent component
Spelled-end component text t (ends _ _ e c) = c
Spelled-end component text t (slash _ _ r e c s) = absurd (ground (arith, ap length (sym t ∙ e)))
Spelled-end component text t (char _ _ r v e p s) = absurd (encode-nonempty v r (sym e ∙ t))

Checks-end :
    (component text : Bytes) (r : Result)
    → text ≡ []
    → ComponentChecks component r
    → Checks component text (some r)
Checks-end component text r t (good e c) = accepts (ap some e) (ends component text t c)
Checks-end component text r t (bad refused b n) =
    rejects r refl b λ s. n (Spelled-end component text t s)

module _ (component rest : Bytes) (value : ℕ) (o : Option Result) where
  Checks-slash :
      (r : Result)
      → value ≡ 0x2f
      → ComponentChecks component r
      → Checks [] rest o
      → Checks component (value ∷ rest) (if is_ok r.status then o else some r)
  Checks-slash r v (bad refused b n) k =
      rw refused (rejects r refl b λ s. n (Spelled-slash component rest value v s).0)
  Checks-slash r v (good e c) (accepts a s) =
      let yes : is_ok r.status ≡ true = rw e refl in
      rw yes (accepts a (slash component (value ∷ rest) rest (rw v refl) c s))
  Checks-slash r v (good e c) (rejects q a b n) =
      let yes : is_ok r.status ≡ true = rw e refl in
      rw yes (rejects q a b λ s. n (Spelled-slash component rest value v s).1)

  -- The scalar value that a form at the front decodes to is plain where the first byte is.
  decoded-IsPlain :
      (s : Sequence)
      → decode_sequence (value ∷ rest) ≡ some s
      → value ≢ 0x2f
      → value ≢ 0x5c
      → 0x20 ≤ value
      → IsPlain s.scalar
  decoded-IsPlain s d n2 n5 low =
      let (scalar, form, size) = decode_sequence_sound (value ∷ rest) s d in
      let front : s.scalar < 0x80 → value ≡ s.scalar =
        λ h. ap (λ l. at l 0) (sym form) ∙ encode-front s.scalar _ h in
      record {
        scalar = scalar;
        no_control = ground (arith, low, front);
        no_slash = λ q. ground (arith, q, n2, front);
        no_backslash = λ q. ground (arith, q, n5, front);
      }

  Checks-char :
      (s : Sequence)
      → decode_sequence (value ∷ rest) ≡ some s
      → value ≢ 0x2f
      → value ≢ 0x5c
      → 0x20 ≤ value
      → Checks (component ++ encode s.scalar) (drop s.sequence_size (value ∷ rest)) o
      → Checks component (value ∷ rest) o
  Checks-char s d n2 n5 low (accepts a k) = accepts a (
      char component (value ∷ rest) (drop s.sequence_size (value ∷ rest)) s.scalar
        (sym (decode_sequence_sound (value ∷ rest) s d).1) (decoded-IsPlain s d n2 n5 low) k)
  Checks-char s d n2 n5 low (rejects r a b n) =
      rejects r a b λ k. refuted (Spelled-char component rest value n2 k)
    where
      refuted :
          ((t : Sequence) × (decode_sequence (value ∷ rest) ≡ some t)
            × Spelled (component ++ encode t.scalar) (drop t.sequence_size (value ∷ rest)))
          → ⊥
      refuted (t, e, k) =
          let q : t ≡ s = same (sym e ∙ d) in
          n (
            subst
              (λ x. Spelled (component ++ encode x.scalar) (drop x.sequence_size (value ∷ rest))) q
              k)

  Checks-undecoded :
      (r : Result)
      → decode_sequence (value ∷ rest) ≡ none
      → value ≢ 0x2f
      → r.status ≢ Status.ok
      → Checks component (value ∷ rest) (some r)
  Checks-undecoded r d n2 b = rejects r refl b λ k. refuted (Spelled-char component rest value n2 k)
    where
      refuted :
          ((t : Sequence) × (decode_sequence (value ∷ rest) ≡ some t)
            × Spelled (component ++ encode t.scalar) (drop t.sequence_size (value ∷ rest)))
          → ⊥
      refuted (t, e, k) = none-some (sym d ∙ e)

length-encode_pos : (v : ℕ) → 0 < length (encode v)
unfolding encode
length-encode_pos v = ground arith

-- A form that the decoder finds at a position.
record FormAt (bytes : Bytes) (position : ℕ) (s : Sequence) : Type 0 where
  size : s.sequence_size ≡ length (encode s.scalar)
  positive : 0 < s.sequence_size
  inside : position + s.sequence_size ≤ length bytes
  form : encode s.scalar ++ drop (position + s.sequence_size) bytes ≡ drop position bytes

FormAt-decoded :
    (bytes : Bytes) (position : ℕ) (s : Sequence)
    → position ≤ length bytes
    → decode_sequence (drop position bytes) ≡ some s
    → FormAt bytes position s
FormAt-decoded bytes position s h d =
    let (scalar, form, size) = decode_sequence_sound (drop position bytes) s d in
    let whole = ap length form in
    let split = length-append (encode s.scalar) (drop s.sequence_size (drop position bytes)) in
    let positive : 0 < length (encode s.scalar) = length-encode_pos s.scalar in
    record {
      size = size;
      positive = omega (arith, size, positive);
      inside = omega (arith, size, whole, split, length-drop position bytes, h);
      form = ap (λ l. encode s.scalar ++ l) (sym (drop-drop s.sequence_size position bytes)) ∙ form;
    }

-- The step over a form, from what the loop answers behind it.
Checks-over :
    (bytes component : Bytes) (position : ℕ) (s : Sequence) (o : Option Result)
    → decode_sequence (at bytes position ∷ drop (position + 1) bytes) ≡ some s
    → position < length bytes
    → at bytes position ≢ 0x2f
    → at bytes position ≢ 0x5c
    → 0x20 ≤ at bytes position
    → (FormAt bytes position s
        → Checks (component ++ encode s.scalar) (drop (position + s.sequence_size) bytes) o)
    → Checks component (at bytes position ∷ drop (position + 1) bytes) o
Checks-over bytes component position s o d below n2 n5 low next =
    let here = drop-get position bytes 0 below in
    let behind : drop (position + s.sequence_size) bytes
        ≡ drop s.sequence_size (at bytes position ∷ drop (position + 1) bytes) =
      sym (drop-drop s.sequence_size position bytes) ∙ ap (drop s.sequence_size) here in
    Checks-char component (drop (position + 1) bytes) (at bytes position) o s d n2 n5 low (
      subst (λ l. Checks (component ++ encode s.scalar) l o) behind
        (next (FormAt-decoded bytes position s (omega arith) (ap decode_sequence here ∙ d))))

-- What the loop answers at a position, with the component that began before it.
pub validate_loop-Checks :
    (fuel : ℕ) (bytes component : Bytes) (begin position : ℕ)
    → position ≡ begin + length component
    → drop begin bytes ≡ component ++ drop position bytes
    → position ≤ length bytes
    → length bytes < fuel + position
    → Checks component (drop position bytes) (validate_loop fuel bytes begin position)
unfolding validate_loop
validate_loop-Checks zero bytes component begin position hp split fits enough = absurd (omega arith)
validate_loop-Checks (suc fuel) bytes component begin position hp split fits enough =
    elim (Bool-cases (ltb position (length bytes))) [
      | inr e ↦ rw e (
          Checks-end component (drop position bytes) (component_result bytes begin (length bytes))
            (drop-all position bytes (ground arith))
            (subst (λ k. ComponentChecks component (component_result bytes begin k))
              (ground (arith, hp, e))
              (component_result-checks bytes component (drop position bytes) begin split)))
      | inl e ↦
          rw (e, drop-get position bytes 0 (ground arith))
            (elim (Bool-cases (at bytes position == 0x2f)) [
              | inl e2 ↦ rw e2 (
                  Checks-slash component (drop (position + 1) bytes) (at bytes position)
                    (validate_loop fuel bytes (position + 1) (position + 1))
                    (component_result bytes begin position) (ground arith)
                    (subst (λ k. ComponentChecks component (component_result bytes begin k))
                      (sym hp)
                      (component_result-checks bytes component (drop position bytes) begin split))
                    (validate_loop-Checks fuel bytes [] (position + 1) (position + 1) (omega arith)
                      refl (ground arith) (omega arith)))
              | inr e2 ↦ rw e2 (elim (Bool-cases (at bytes position == 0x5c)) [
                | inl e3 ↦ rw e3 (
                    rejects _ refl (λ s. cc)
                      (Spelled-stuck component (drop (position + 1) bytes) (at bytes position)
                        (inl (ground arith))))
                | inr e3 ↦ rw e3 (elim (Bool-cases (ltb (at bytes position) 0x20)) [
                  | inl e4 ↦ rw e4 (
                      rejects _ refl (λ s. cc)
                        (Spelled-stuck component (drop (position + 1) bytes) (at bytes position)
                          (inr (ground arith))))
                  | inr e4 ↦
                      rw e4
                        (elim (Option-cases
                          (decode_sequence (at bytes position ∷ drop (position + 1) bytes))) [
                            | inl d ↦ rw d (
                                Checks-undecoded component (drop (position + 1) bytes)
                                  (at bytes position) none
                                  (make_result Status.invalid_utf8 position) d (ground arith)
                                  (λ s. cc))
                            | inr (s, d) ↦ rw d (
                                Checks-over bytes component position s
                                  (validate_loop fuel bytes begin (position + s.sequence_size)) d
                                  (ground arith) (ground arith) (ground arith) (ground arith)
                                  λ f.
                                    validate_loop-Checks fuel bytes (component ++ encode s.scalar)
                                      begin (position + s.sequence_size)
                                      (rw (length-append component (encode s.scalar))
                                        (omega (arith, hp, f.size)))
                                      (split
                                        ∙ ap (λ l. component ++ l) (sym f.form)
                                        ∙ sym (
                                            append_assoc component (encode s.scalar)
                                              (drop (position + s.sequence_size) bytes)))
                                      f.inside (omega (arith, f.positive, enough)))
                          ])
                ])
              ])
            ])
    ]

-- A path is valid exactly if it spells components with slashes between them: none is empty, "." or
-- "..", and each is UTF-8 without control characters and backslashes. Every other path has a
-- result that says so: validation always ends.
pub validate_utf8-Spelled :
    (bytes : Bytes)
    → ((validate_utf8 (some bytes) ≡ some (make_result Status.ok size_max)) × Spelled [] bytes)
      ⊎ ((r : Result) × (validate_utf8 (some bytes) ≡ some r)
          × (r.status ≢ Status.ok)
          × (¬ Spelled [] bytes))
unfolding validate_utf8
validate_utf8-Spelled [] =
    inr (make_result Status.empty 0, refl, λ s. cc, λ s. (Spelled-end [] [] refl s).not_empty refl)
validate_utf8-Spelled (b ∷ bytes) =
    let some_bytes : (length (b ∷ bytes) == 0) ≡ false = ground arith in
    rw some_bytes (
      verdict (
        validate_loop-Checks (suc (length (b ∷ bytes))) (b ∷ bytes) [] 0 0 refl refl (omega arith)
          (omega arith)))
  where
    verdict :
        {o : Option Result}
        → Checks [] (b ∷ bytes) o
        → ((o ≡ some (make_result Status.ok size_max)) × Spelled [] (b ∷ bytes))
          ⊎ ((r : Result) × (o ≡ some r) × (r.status ≢ Status.ok) × (¬ Spelled [] (b ∷ bytes)))
    verdict (accepts e s) = inl (e, s)
    verdict (rejects r e b n) = inr (r, e, b, n)
