-- ===== src/Lz4/Lengths.antt =====
-- Lengths, tokens and offsets that stand at a position of the source are read back.
use unity_common.Base.{
  ℕ, zero, suc, ◌+◌, ◌-◌, ◌*◌, ◌/◌, ◌%◌, ◌^◌, ◌≤◌, ◌<◌, ◌≡◌, refl, sym, ap, ◌∙◌, [], ◌∷◌, ◌++◌,
  append_assoc, arith, lt→ltb, le→ltb, lt→leb, ne→==, length, get_or, drop, replicate,
  length-append, length-drop, length-replicate, drop-drop, drop-append, drop-get, bit_and, bit_or,
}
use unity_common.Base.Words.{Bytes, size_max}
use native.Mathlib.Decide.{dec_lt}
use unity_common.Base.Bits.{bit_or-fields, bit_or_comm, bit_and-mask}
use unity_common.Base.Run.{ok, load, load-ok}
use unity_common.Lz4.{make_length, read_extensions, read_length}
use unity_common.Lz4.Format.{extension, nibble}

-- A byte string that stands at a position of the source.
abbrev pub StandsAt : Bytes → ℕ → Bytes → Type 0
StandsAt source p bytes = drop p source ≡ bytes

module _ (source : Bytes) (p b : ℕ) (rest : Bytes) (at : StandsAt source p (b ∷ rest)) where
  pub inside : p < length source
  inside = omega (arith, length-drop p source, ap length at)

  pub load-at : load source p ≡ ok b
  load-at =
      load-ok source p inside
      ∙ ap ok (ap (λ l. get_or l 0 0) (sym (drop-get p source 0 inside) ∙ at))

  pub next-at : StandsAt source (p + 1) rest
  next-at = sym (drop-drop 1 p source) ∙ ap (drop 1) at

pub append-at :
    (source : Bytes) (p : ℕ) (xs ys : Bytes)
    → StandsAt source p (xs ++ ys)
    → StandsAt source (p + length xs) ys
append-at source p xs ys at =
    sym (drop-drop (length xs) p source) ∙ ap (drop (length xs)) at ∙ drop-append xs ys

same_length : {p q n m : ℕ} → p ≡ q → n ≡ m → ok (make_length p n) ≡ ok (make_length q m)
same_length h g = cc

read_extensions-at :
    (k r : ℕ) (fuel : ℕ) (source : Bytes) (p n : ℕ) (rest : Bytes)
    → r < 255
    → k < fuel
    → n + k * 255 + r ≤ size_max
    → StandsAt source p (replicate k 255 ++ r ∷ rest)
    → read_extensions fuel source (length source) p n
      ≡ ok (make_length (p + k + 1) (n + k * 255 + r))
unfolding read_extensions
read_extensions-at k r zero source p n rest hr hf hn at = absurd (omega arith)
read_extensions-at zero r (suc fuel) source p n rest hr hf hn at =
    rw
      (
        lt→leb (length source) p (inside source p r rest at),
        load-at source p r rest at,
        le→ltb (size_max - r) n (omega arith),
        ne→== r 255 (omega arith),
      )
      (same_length (omega arith) (omega arith))
read_extensions-at (suc k) r (suc fuel) source p n rest hr hf hn at =
    let tail = replicate k 255 ++ r ∷ rest in
    rw
      (
        lt→leb (length source) p (inside source p 255 tail at),
        load-at source p 255 tail at,
        le→ltb (size_max - 255) n (omega arith),
      )
      (read_extensions-at k r fuel source (p + 1) (n + 255) rest hr (omega arith) (omega arith)
          (next-at source p 255 tail at)
        ∙ same_length (omega arith) (omega arith))

length-extension : (n : ℕ) → 15 ≤ n → length (extension n) ≡ (n - 15) / 255 + 1
unfolding extension
length-extension n h = rw (le→ltb n 15 h) (
    omega (
      arith,
      length-append (replicate ((n - 15) / 255) 255) ((n - 15) % 255 ∷ []),
      length-replicate {A = ℕ} ((n - 15) / 255) 255,
    ))

-- A length is read back from its field of the token and the bytes behind.
pub read_length-extension :
    (source : Bytes) (p n : ℕ) (rest : Bytes)
    → n ≤ size_max
    → StandsAt source p (extension n ++ rest)
    → read_length source (length source) p (nibble n)
      ≡ ok (make_length (p + length (extension n)) n)
unfolding read_length
read_length-extension source p n rest hn at = elim (dec_lt n 15) [
  | yes small ↦
      unfold nibble extension in
      rw (lt→ltb n 15 small, ne→== n 15 (omega arith)) (same_length (omega arith) refl)
  | no large ↦
      let large' : 15 ≤ n = omega arith in
      let q = (n - 15) / 255 in
      let r = (n - 15) % 255 in
      let at' : StandsAt source p (replicate q 255 ++ r ∷ rest) =
        at
        ∙ unfold extension in
          rw (le→ltb n 15 large') (append_assoc (replicate q 255) (r ∷ []) rest) in
      let fuel_enough : q < suc (length source) = omega (
        arith,
        length-drop p source,
        ap length at',
        length-append (replicate q 255) (r ∷ rest),
        length-replicate {A = ℕ} q 255,
      ) in
      rw (length-extension n large') (
        unfold nibble in
        rw (le→ltb n 15 large') (
          read_extensions-at q r (suc (length source)) source p 15 rest (omega arith) fuel_enough
            (omega arith) at'
          ∙ same_length (omega arith) (omega arith)))
]

pub nibble-lt : (n : ℕ) → nibble n < 16
unfolding nibble
nibble-lt n = ground arith

-- The fields of a token.
module _ (n m : ℕ) where
  pub token_high : (nibble n * 16 + nibble m) / 2 ^ 4 ≡ nibble n
  token_high = omega (arith, nibble-lt n, nibble-lt m)

  pub token_low : bit_and (nibble n * 16 + nibble m) 0x0f ≡ nibble m
  token_low = omega (arith, bit_and-mask 4 (nibble n * 16 + nibble m), nibble-lt n, nibble-lt m)

pub offset_value : (d : ℕ) → d < 2 ^ 16 → bit_or (d % 256) (d / 256 * 2 ^ 8 % 2 ^ 16) ≡ d
offset_value d h = omega (
  arith,
  bit_or_comm (d % 256) (d / 256 * 2 ^ 8 % 2 ^ 16),
  bit_or-fields 8 (d / 256) (d % 256) (omega arith),
  ap (λ t. bit_or t (d % 256)) e,
)
  where
    e : d / 256 * 2 ^ 8 % 2 ^ 16 ≡ d / 256 * 2 ^ 8
    e = omega arith
