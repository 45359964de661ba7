-- ===== src/Utf8/Decode.antt =====
-- `decode_sequence` reads exactly the UTF-8 forms of scalar values.
use unity_common.Base.{
  ℕ, ◌+◌, ◌*◌, ◌/◌, ◌%◌, ◌≤◌, ◌<◌, ◌≡◌, refl, inl, inr, [], ◌∷◌, ◌++◌, ◌∙◌, subst, ◌&&◌, some,
  arith, ltb, leb, length, drop, bit_and, bit_or, Bool-cases,
}
use unity_common.Base.Bits.{bit_or-fields, bit_and-mask}
use unity_common.Base.Words.{Bytes, shl32}
use unity_common.Utf8.{
  Sequence, make_sequence, decode_sequence, decode_two, decode_three, decode_four,
}
use unity_common.Utf8.Encoding.{IsScalar, encode}

-- What the shifts and masks of each branch compute.
two_value :
    (a b : ℕ) → a < 256 → bit_or (shl32 (bit_and a 0x1f) 6) (bit_and b 0x3f) ≡ a % 32 * 64 + b % 64
two_value a b h =
    ground
      (arith, bit_and-mask 5 a, bit_and-mask 6 b, bit_or-fields 6 (a % 32) (b % 64) (omega arith))

three_value :
    (a b c : ℕ)
    → bit_or (bit_or (shl32 (bit_and a 0x0f) 12) (shl32 (bit_and b 0x3f) 6)) (bit_and c 0x3f)
      ≡ a % 16 * 4096 + b % 64 * 64 + c % 64
three_value a b c = ground (
  arith,
  bit_and-mask 4 a,
  bit_and-mask 6 b,
  bit_and-mask 6 c,
  bit_or-fields 12 (a % 16) (b % 64 * 64) (omega arith),
  bit_or-fields 6 (a % 16 * 64 + b % 64) (c % 64) (omega arith),
)

four_value :
    (a b c d : ℕ)
    → bit_or
        (bit_or
          (bit_or (shl32 (bit_and a 0x07) 18) (shl32 (bit_and b 0x3f) 12))
          (shl32 (bit_and c 0x3f) 6))
        (bit_and d 0x3f)
      ≡ a % 8 * 262144 + b % 64 * 4096 + c % 64 * 64 + d % 64
four_value a b c d = ground (
  arith,
  bit_and-mask 3 a,
  bit_and-mask 6 b,
  bit_and-mask 6 c,
  bit_and-mask 6 d,
  bit_or-fields 18 (a % 8) (b % 64 * 4096) (omega arith),
  bit_or-fields 12 (a % 8 * 64 + b % 64) (c % 64 * 64) (omega arith),
  bit_or-fields 6 ((a % 8 * 64 + b % 64) * 64 + c % 64) (d % 64) (omega arith),
)

abbrev IsTail : ℕ → Type 0
IsTail b = (0x80 ≤ b) × (b ≤ 0xbf)

three_accepts :
    (a b c : ℕ) (rest : Bytes)
    → (0xe0 ≤ a) × (a ≤ 0xef)
    → IsTail b × IsTail c
    → (a ≡ 0xe0 → 0xa0 ≤ b) × (a ≡ 0xed → b ≤ 0x9f)
    → decode_sequence (a ∷ b ∷ c ∷ rest)
      ≡ some (make_sequence (a % 16 * 4096 + b % 64 * 64 + c % 64) 3)
unfolding decode_sequence decode_three
three_accepts a b c rest ha ht hx = ground (arith, three_value a b c)

four_accepts :
    (a b c d : ℕ) (rest : Bytes)
    → (0xf0 ≤ a) × (a ≤ 0xf4)
    → IsTail b × IsTail c × IsTail d
    → (a ≡ 0xf0 → 0x90 ≤ b) × (a ≡ 0xf4 → b ≤ 0x8f)
    → decode_sequence (a ∷ b ∷ c ∷ d ∷ rest)
      ≡ some (make_sequence (a % 8 * 262144 + b % 64 * 4096 + c % 64 * 64 + d % 64) 4)
unfolding decode_sequence decode_four
four_accepts a b c d rest ha ht hx = ground (arith, four_value a b c d)

same_sequence : {v w n m : ℕ} → v ≡ w → n ≡ m → some (make_sequence v n) ≡ some (make_sequence w m)
same_sequence p q = cc

-- The decoder returns the scalar value whose form stands at the front, and the length of that form,
-- whatever follows.
pub decode-encode :
    (v : ℕ) (rest : Bytes)
    → IsScalar v
    → decode_sequence (encode v ++ rest) ≡ some (make_sequence v (length (encode v)))
unfolding encode
decode-encode v rest h = elim (Bool-cases (ltb v 0x80)) [
  | inl e ↦ rw e (unfold decode_sequence in ground arith)
  | inr e ↦ rw e (elim (Bool-cases (ltb v 0x800)) [
    | inl e2 ↦ rw e2 (
        unfold decode_sequence decode_two in
        ground (arith, two_value (0xc0 + v / 64) (0x80 + v % 64)))
    | inr e2 ↦ rw e2 (elim (Bool-cases (ltb v 0x10000)) [
      | inl e3 ↦ rw e3 (
          three_accepts (0xe0 + v / 4096) (0x80 + v / 64 % 64) (0x80 + v % 64) rest (ground arith)
            (ground arith) (ground arith)
          ∙ same_sequence (ground arith) refl)
      | inr e3 ↦ rw e3 (
          four_accepts (0xf0 + v / 262144) (0x80 + v / 4096 % 64) (0x80 + v / 64 % 64)
            (0x80 + v % 64) rest (ground arith) (ground arith) (ground arith)
          ∙ same_sequence (ground arith) refl)
    ])
  ])
]

abbrev IsForm : Bytes → Sequence → Type 0
IsForm bytes s =
    IsScalar s.scalar
    × (encode s.scalar ++ drop s.sequence_size bytes ≡ bytes)
    × (s.sequence_size ≡ length (encode s.scalar))

-- Each range of first bytes, with the tests of its branch passed, spells one scalar value.
two-IsForm :
    (a b : ℕ) (rest : Bytes)
    → (0xc2 ≤ a) × (a ≤ 0xdf)
    → IsTail b
    → IsForm (a ∷ b ∷ rest) (make_sequence (a % 32 * 64 + b % 64) 2)
unfolding encode
two-IsForm a b rest ha hb = (ground arith, ground arith, ground arith)

three-IsForm :
    (a b c : ℕ) (rest : Bytes)
    → (0xe0 ≤ a) × (a ≤ 0xef)
    → IsTail b × IsTail c
    → (a ≡ 0xe0 → 0xa0 ≤ b) × (a ≡ 0xed → b ≤ 0x9f)
    → IsForm (a ∷ b ∷ c ∷ rest) (make_sequence (a % 16 * 4096 + b % 64 * 64 + c % 64) 3)
unfolding encode
three-IsForm a b c rest ha ht hx = (ground arith, ground arith, ground arith)

four-IsForm :
    (a b c d : ℕ) (rest : Bytes)
    → (0xf0 ≤ a) × (a ≤ 0xf4)
    → IsTail b × IsTail c × IsTail d
    → (a ≡ 0xf0 → 0x90 ≤ b) × (a ≡ 0xf4 → b ≤ 0x8f)
    → IsForm
        (a ∷ b ∷ c ∷ d ∷ rest)
        (make_sequence (a % 8 * 262144 + b % 64 * 4096 + c % 64 * 64 + d % 64) 4)
unfolding encode
four-IsForm a b c d rest ha ht hx = (ground arith, ground arith, ground arith)

IsForm-eq : {bytes : Bytes} {s t : Sequence} → IsForm bytes s → s ≡ t → IsForm bytes t
IsForm-eq {bytes} h p = subst (IsForm bytes) p h

two_sound :
    (a : ℕ) (rest : Bytes) (s : Sequence)
    → (0xc2 ≤ a) × (a ≤ 0xdf)
    → decode_two (a ∷ rest) a ≡ some s
    → IsForm (a ∷ rest) s
unfolding decode_two
two_sound a [] s ha h = absurd (ground arith)
two_sound a (b ∷ rest) s ha h =
    IsForm-eq (two-IsForm a b rest ha (ground arith)) (ground (arith, two_value a b))

three_sound :
    (a : ℕ) (rest : Bytes) (s : Sequence)
    → (0xe0 ≤ a) × (a ≤ 0xef)
    → decode_three (a ∷ rest) a ≡ some s
    → IsForm (a ∷ rest) s
unfolding decode_three
three_sound a [] s ha h = absurd (ground arith)
three_sound a (b ∷ []) s ha h = absurd (ground arith)
three_sound a (b ∷ c ∷ rest) s ha h =
    IsForm-eq (three-IsForm a b c rest ha (ground arith) (ground arith))
      (ground (arith, three_value a b c))

four_sound :
    (a : ℕ) (rest : Bytes) (s : Sequence)
    → (0xf0 ≤ a) × (a ≤ 0xf4)
    → decode_four (a ∷ rest) a ≡ some s
    → IsForm (a ∷ rest) s
unfolding decode_four
four_sound a [] s ha h = absurd (ground arith)
four_sound a (b ∷ []) s ha h = absurd (ground arith)
four_sound a (b ∷ c ∷ []) s ha h = absurd (ground arith)
four_sound a (b ∷ c ∷ d ∷ rest) s ha h =
    IsForm-eq (four-IsForm a b c d rest ha (ground arith) (ground arith))
      (ground (arith, four_value a b c d))

one-IsForm : (a : ℕ) (rest : Bytes) → a ≤ 0x7f → IsForm (a ∷ rest) (make_sequence a 1)
unfolding encode
one-IsForm a rest h = (ground arith, ground arith, ground arith)

-- What the decoder accepts is a scalar value whose form stands at the front of the bytes, and the
-- length of that form: no overlong form, no surrogate and nothing above 0x10ffff.
pub decode_sequence_sound :
    (bytes : Bytes) (s : Sequence)
    → decode_sequence bytes ≡ some s
    → IsScalar s.scalar
      × (encode s.scalar ++ drop s.sequence_size bytes ≡ bytes)
      × (s.sequence_size ≡ length (encode s.scalar))
decode_sequence_sound [] s h = unfold decode_sequence in absurd (ground arith)
decode_sequence_sound (a ∷ rest) s h = elim (Bool-cases (leb a 0x7f)) [
  | inl e ↦ IsForm-eq (one-IsForm a rest (ground arith)) (unfold decode_sequence in ground arith)
  | inr e ↦ elim (Bool-cases (leb 0xc2 a && leb a 0xdf)) [
    | inl e2 ↦ two_sound a rest s (ground arith) (unfold decode_sequence in ground arith)
    | inr e2 ↦ elim (Bool-cases (leb 0xe0 a && leb a 0xef)) [
      | inl e3 ↦ three_sound a rest s (ground arith) (unfold decode_sequence in ground arith)
      | inr e3 ↦ elim (Bool-cases (leb 0xf0 a && leb a 0xf4)) [
        | inl e4 ↦ four_sound a rest s (ground arith) (unfold decode_sequence in ground arith)
        | inr e4 ↦ absurd (unfold decode_sequence in ground arith)
      ]
    ]
  ]
]
