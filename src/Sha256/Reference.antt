-- ===== src/Sha256/Reference.antt =====
-- The hash as it is defined: the message is padded to whole blocks, and the compression function runs
-- over these blocks in order.
use unity_common.Base.{
  ℕ, zero, suc, ◌+◌, ◌-◌, ◌*◌, ◌/◌, ◌%◌, ◌^◌, ◌≤◌, ◌≡◌, refl, ap, ◌∙◌, [], ◌∷◌, ◌++◌, arith, length,
  take, drop, replicate, length-drop,
}
use unity_common.Base.Words.{Bytes}
use native.Mathlib.Nat.{suc-mul}
use unity_common.Sha256.Compression.{sha256_transform}
use unity_common.Sha256.{digest_of, initial_state, store_be64}

-- `f` over `n` blocks of `width` bytes each.
unfoldable pub fold_blocks {ℓ} : {S : Type ℓ} → (S → Bytes → S) → ℕ → ℕ → S → Bytes → S
fold_blocks f width zero s bytes = s
fold_blocks f width (suc n) s bytes =
    fold_blocks f width n (f s (take width bytes)) (drop width bytes)

-- As many zeros as leave 8 bytes in the last block.
abbrev pub zeros_for : ℕ → ℕ
zeros_for n = (119 - n % 64) % 64

unfoldable pub pad : Bytes → Bytes
pad message =
    message
    ++ ((0x80 ∷ replicate (zeros_for (length message)) 0)
        ++ store_be64 (length message * 8 % 2 ^ 64))

unfoldable pub reference : Bytes → Bytes
reference message =
    digest_of
      (fold_blocks sha256_transform 64 (length (pad message) / 64) initial_state (pad message))

pub take-append_le : (n : ℕ) (xs ys : Bytes) → n ≤ length xs → take n (xs ++ ys) ≡ take n xs
take-append_le zero xs ys h = refl
take-append_le (suc n) [] ys h = absurd (omega arith)
take-append_le (suc n) (x ∷ xs) ys h = ap (λ l. x ∷ l) (take-append_le n xs ys (omega arith))

pub drop-append_le : (n : ℕ) (xs ys : Bytes) → n ≤ length xs → drop n (xs ++ ys) ≡ drop n xs ++ ys
drop-append_le zero xs ys h = refl
drop-append_le (suc n) [] ys h = absurd (omega arith)
drop-append_le (suc n) (x ∷ xs) ys h = drop-append_le n xs ys (omega arith)

pub take-all : (n : ℕ) (xs : Bytes) → length xs ≤ n → take n xs ≡ xs
take-all zero [] h = refl
take-all zero (x ∷ xs) h = absurd (omega arith)
take-all (suc n) [] h = refl
take-all (suc n) (x ∷ xs) h = ap (λ l. x ∷ l) (take-all n xs (omega arith))

-- Whole blocks first, then what follows them.
pub fold_blocks-append {ℓ} :
    {S : Type ℓ} (f : S → Bytes → S) (width n m : ℕ) (s : S) (full rest : Bytes)
    → length full ≡ n * width
    → fold_blocks f width (n + m) s (full ++ rest)
      ≡ fold_blocks f width m (fold_blocks f width n s full) rest
unfolding fold_blocks
fold_blocks-append f width zero m s [] rest h =
    let none_more : zero + m ≡ m = omega arith in rw none_more refl
fold_blocks-append f width zero m s (x ∷ full) rest h = absurd (ground (arith, h))
fold_blocks-append f width (suc n) m s full rest h =
    let split : length full ≡ width + n * width = omega (arith, h, suc-mul n width) in
    let count : suc n + m ≡ suc (n + m) = omega arith in
    rw count (
      ap (λ l. fold_blocks f width (n + m) (f s l) (drop width (full ++ rest)))
        (take-append_le width full rest (omega (arith, split)))
      ∙ ap (fold_blocks f width (n + m) (f s (take width full)))
          (drop-append_le width full rest (omega (arith, split)))
      ∙ fold_blocks-append f width n m (f s (take width full)) (drop width full) rest
          (length-drop width full ∙ omega (arith, split)))

-- One block more.
pub fold_blocks-snoc {ℓ} :
    {S : Type ℓ} (f : S → Bytes → S) (width n : ℕ) (s : S) (full block : Bytes)
    → length full ≡ n * width
    → length block ≡ width
    → fold_blocks f width (n + 1) s (full ++ block) ≡ f (fold_blocks f width n s full) block
unfolding fold_blocks
fold_blocks-snoc f width n s full block h k =
    fold_blocks-append f width n 1 s full block h
    ∙ ap (f (fold_blocks f width n s full)) (take-all width block (omega (arith, k)))
