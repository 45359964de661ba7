-- ===== src/Sha256/Compression.antt =====
-- The compression function of src/common/sha256.c: `sha256_transform` and the word operations below it.
-- A word is a number below 2 ^ 32; the eight words of a state are a record.
use unity_common.Base.{
  ℕ, zero, suc, ◌+◌, ◌-◌, ◌*◌, ◌/◌, ◌%◌, ◌^◌, List, [], ◌∷◌, ◌++◌, length, get_or, bit_and, bit_or,
  bit_xor,
}
use unity_common.Base.Words.{Bytes, uint32_max, word32}

pub record Registers : Type 0 where
  pub a : ℕ
  pub b : ℕ
  pub c : ℕ
  pub d : ℕ
  pub e : ℕ
  pub f : ℕ
  pub g : ℕ
  pub h : ℕ

abbrev pub add32 : ℕ → ℕ → ℕ
add32 x y = (x + y) % 2 ^ 32

abbrev pub rotate_right : ℕ → ℕ → ℕ
rotate_right value count = bit_or (value / 2 ^ count) (value * 2 ^ (32 - count) % 2 ^ 32)

-- `load_be32(data + i)`
abbrev pub load_be32 : Bytes → ℕ → ℕ
load_be32 bytes i =
    word32 (get_or bytes i 0) (get_or bytes (i + 1) 0) (get_or bytes (i + 2) 0)
      (get_or bytes (i + 3) 0)

abbrev pub small0 : ℕ → ℕ
small0 x = bit_xor (bit_xor (rotate_right x 7) (rotate_right x 18)) (x / 2 ^ 3)

abbrev pub small1 : ℕ → ℕ
small1 y = bit_xor (bit_xor (rotate_right y 17) (rotate_right y 19)) (y / 2 ^ 10)

-- `constants`
abbrev pub round_constants : List ℕ
round_constants =
    0x428a2f98 ∷ 0x71374491 ∷ 0xb5c0fbcf ∷ 0xe9b5dba5 ∷ 0x3956c25b ∷ 0x59f111f1 ∷ 0x923f82a4
    ∷ 0xab1c5ed5 ∷ 0xd807aa98 ∷ 0x12835b01 ∷ 0x243185be ∷ 0x550c7dc3 ∷ 0x72be5d74 ∷ 0x80deb1fe
    ∷ 0x9bdc06a7 ∷ 0xc19bf174 ∷ 0xe49b69c1 ∷ 0xefbe4786 ∷ 0x0fc19dc6 ∷ 0x240ca1cc ∷ 0x2de92c6f
    ∷ 0x4a7484aa ∷ 0x5cb0a9dc ∷ 0x76f988da ∷ 0x983e5152 ∷ 0xa831c66d ∷ 0xb00327c8 ∷ 0xbf597fc7
    ∷ 0xc6e00bf3 ∷ 0xd5a79147 ∷ 0x06ca6351 ∷ 0x14292967 ∷ 0x27b70a85 ∷ 0x2e1b2138 ∷ 0x4d2c6dfc
    ∷ 0x53380d13 ∷ 0x650a7354 ∷ 0x766a0abb ∷ 0x81c2c92e ∷ 0x92722c85 ∷ 0xa2bfe8a1 ∷ 0xa81a664b
    ∷ 0xc24b8b70 ∷ 0xc76c51a3 ∷ 0xd192e819 ∷ 0xd6990624 ∷ 0xf40e3585 ∷ 0x106aa070 ∷ 0x19a4c116
    ∷ 0x1e376c08 ∷ 0x2748774c ∷ 0x34b0bcb5 ∷ 0x391c0cb3 ∷ 0x4ed8aa4a ∷ 0x5b9cca4f ∷ 0x682e6ff3
    ∷ 0x748f82ee ∷ 0x78a5636f ∷ 0x84c87814 ∷ 0x8cc70208 ∷ 0x90befffa ∷ 0xa4506ceb ∷ 0xbef9a3f7
    ∷ 0xc67178f2 ∷ []

-- The first sixteen words: those of the block from `i` on, `n` of them.
pub block_words : ℕ → Bytes → ℕ → List ℕ
block_words zero block i = []
block_words (suc n) block i = load_be32 block i ∷ block_words n block (i + 4)

-- `words[i]` for `i` from 16 on, where `words` holds those before it.
abbrev pub next_word : List ℕ → ℕ
next_word words =
    let i = length words in
    add32
      (add32 (add32 (get_or words (i - 16) 0) (small0 (get_or words (i - 15) 0)))
        (get_or words (i - 7) 0))
      (small1 (get_or words (i - 2) 0))

-- The loop that extends the words, `n` rounds of it.
pub extend_words : ℕ → List ℕ → List ℕ
extend_words zero words = words
extend_words (suc n) words = extend_words n (words ++ next_word words ∷ [])

-- One round: `~e` is `2 ^ 32 - 1 - e`.
abbrev pub round : ℕ → ℕ → Registers → Registers
round constant word r =
    let big1 = bit_xor (bit_xor (rotate_right r.e 6) (rotate_right r.e 11)) (rotate_right r.e 25) in
    let choose = bit_xor (bit_and r.e r.f) (bit_and (uint32_max - r.e) r.g) in
    let temporary1 = add32 (add32 (add32 (add32 r.h big1) choose) constant) word in
    let big0 = bit_xor (bit_xor (rotate_right r.a 2) (rotate_right r.a 13)) (rotate_right r.a 22) in
    let majority = bit_xor (bit_xor (bit_and r.a r.b) (bit_and r.a r.c)) (bit_and r.b r.c) in
    let temporary2 = add32 big0 majority in
    record {
      a = add32 temporary1 temporary2;
      b = r.a;
      c = r.b;
      d = r.c;
      e = add32 r.d temporary1;
      f = r.e;
      g = r.f;
      h = r.g;
    }

-- The 64 rounds, one for each constant.
pub rounds : List ℕ → List ℕ → Registers → Registers
rounds [] words r = r
rounds (constant ∷ constants) [] r = r
rounds (constant ∷ constants) (word ∷ words) r = rounds constants words (round constant word r)

abbrev pub add_registers : Registers → Registers → Registers
add_registers s r = record {
  a = add32 s.a r.a;
  b = add32 s.b r.b;
  c = add32 s.c r.c;
  d = add32 s.d r.d;
  e = add32 s.e r.e;
  f = add32 s.f r.f;
  g = add32 s.g r.g;
  h = add32 s.h r.h;
}

-- `context->state` behind a call of `sha256_transform`.
unfoldable pub sha256_transform : Registers → Bytes → Registers
unfolding rounds extend_words block_words word32
sha256_transform state block =
    add_registers state (rounds round_constants (extend_words 48 (block_words 16 block 0)) state)
