-- ===== src/Base/Words.antt =====
-- Bytes, machine-word limits, and the byte-order loads that several files of the C code repeat.
use Prim.Native.Nat.{ℕ, zero, suc, ◌+◌, ◌*◌, ◌%◌, ◌^◌, ◌<◌, ◌≤◌, bit_or}
use mathlib.Core.Path.{◌≡◌, ap, ◌∙◌}
use mathlib.Core.List.{List, [], ◌∷◌}
use native.Mathlib.Omega.{arith}
use unity_common.Base.Lists.{All, get_or, take, drop, length, drop-get}
use unity_common.Base.Bits.{bit_or-fields}

abbrev pub IsByte : ℕ → Type 0
IsByte b = b < 256

abbrev pub Bytes : Type 0
Bytes = List ℕ

-- `SIZE_MAX`, which is `UINT64_MAX` on the 64-bit hosts that the model stands for.
abbrev pub size_max : ℕ
size_max = 0xffff_ffff_ffff_ffff

abbrev pub uint32_max : ℕ
uint32_max = 0xffff_ffff

abbrev pub int32_max : ℕ
int32_max = 0x7fff_ffff

-- `(uint32_t)x << k`
abbrev pub shl32 : ℕ → ℕ → ℕ
shl32 x k = x * 2 ^ k % 2 ^ 32

abbrev pub shl64 : ℕ → ℕ → ℕ
shl64 x k = x * 2 ^ k % 2 ^ 64

-- The word that four bytes, highest first, spell by shifts and `|`.
unfoldable pub word32 : ℕ → ℕ → ℕ → ℕ → ℕ
word32 a b c d = bit_or (bit_or (bit_or (shl32 a 24) (shl32 b 16)) (shl32 c 8)) d

pub word32_sum :
    (a b c d : ℕ)
    → a < 256
    → b < 256
    → c < 256
    → d < 256
    → word32 a b c d ≡ ((a * 256 + b) * 256 + c) * 256 + d
unfolding word32
word32_sum a b c d ha hb hc hd = ground (
  arith,
  bit_or-fields 24 a (b * 2 ^ 16) (omega arith),
  bit_or-fields 16 (a * 256 + b) (c * 2 ^ 8) (omega arith),
  bit_or-fields 8 ((a * 256 + b) * 256 + c) d (omega arith),
)

-- The number that bytes, highest first, spell in base 256.
unfoldable pub big_endian : ℕ → Bytes → ℕ
big_endian acc [] = acc
big_endian acc (b ∷ bytes) = big_endian (acc * 256 + b) bytes

-- The same, lowest first.
unfoldable pub little_endian : Bytes → ℕ
little_endian [] = 0
little_endian (b ∷ bytes) = b + 256 * little_endian bytes

pub get_or-IsByte : (bytes : Bytes) (i : ℕ) → All IsByte bytes → get_or bytes i 0 < 256
get_or-IsByte [] i h = omega arith
get_or-IsByte (b ∷ bytes) zero h = h.0
get_or-IsByte (b ∷ bytes) (suc i) h = get_or-IsByte bytes i h.1

-- Two 32-bit halves, highest first.
pub word64_sum :
    (high low : ℕ) → high < 2 ^ 32 → low < 2 ^ 32 → bit_or (shl64 high 32) low ≡ high * 2 ^ 32 + low
word64_sum high low h l = ground (arith, bit_or-fields 32 high low (omega arith))

module _ (bytes : Bytes) (valid : All IsByte bytes) (i : ℕ) where
  byte : (k : ℕ) → get_or bytes (i + k) 0 < 256
  byte k = get_or-IsByte bytes (i + k) valid

  pub word32-at :
      word32
        (get_or bytes i 0)
        (get_or bytes (i + 1) 0)
        (get_or bytes (i + 2) 0)
        (get_or bytes (i + 3) 0)
      ≡ ((get_or bytes i 0 * 256 + get_or bytes (i + 1) 0) * 256 + get_or bytes (i + 2) 0) * 256
        + get_or bytes (i + 3) 0
  word32-at = word32_sum _ _ _ _ (get_or-IsByte bytes i valid) (byte 1) (byte 2) (byte 3)

take-drop-get :
    (n i j : ℕ) (bytes : Bytes)
    → i < length bytes
    → i + 1 ≡ j
    → take (suc n) (drop i bytes) ≡ get_or bytes i 0 ∷ take n (drop j bytes)
take-drop-get n i j bytes h e =
    ap (take (suc n)) (drop-get i bytes 0 h) ∙ ap (λ k. get_or bytes i 0 ∷ take n (drop k bytes)) e

-- Two and four bytes of a string, one by one.
pub take_two :
    (bytes : Bytes) (i : ℕ)
    → i + 2 ≤ length bytes
    → take 2 (drop i bytes) ≡ get_or bytes i 0 ∷ get_or bytes (i + 1) 0 ∷ []
take_two bytes i h =
    take-drop-get 1 i (i + 1) bytes (omega arith) (omega arith)
    ∙ ap (λ l. get_or bytes i 0 ∷ l)
        (take-drop-get 0 (i + 1) (i + 2) bytes (omega arith) (omega arith))

pub take_four :
    (bytes : Bytes) (i : ℕ)
    → i + 4 ≤ length bytes
    → take 4 (drop i bytes)
      ≡ get_or bytes i 0
        ∷ get_or bytes (i + 1) 0
        ∷ get_or bytes (i + 2) 0
        ∷ get_or bytes (i + 3) 0
        ∷ []
take_four bytes i h =
    take-drop-get 3 i (i + 1) bytes (omega arith) (omega arith)
    ∙ ap (λ l. get_or bytes i 0 ∷ l)
        (take-drop-get 2 (i + 1) (i + 2) bytes (omega arith) (omega arith)
          ∙ ap (λ l. get_or bytes (i + 1) 0 ∷ l)
              (take-drop-get 1 (i + 2) (i + 3) bytes (omega arith) (omega arith)
                ∙ ap (λ l. get_or bytes (i + 2) 0 ∷ l)
                    (take-drop-get 0 (i + 3) (i + 4) bytes (omega arith) (omega arith))))
