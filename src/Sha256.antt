-- ===== src/Sha256.antt =====
-- The portable SHA-256 of src/common/sha256.c and include/common/sha256.h. `block` is the whole
-- 64-byte array of a context; a write into it keeps the bytes around it. On Apple hosts the file
-- calls CommonCrypto instead, which is not modelled.
pub mod Compression
pub mod Reference
pub mod Absorb
pub mod Finish
mod Runs
use unity_common.Base.{
  ℕ, zero, suc, ◌+◌, ◌-◌, ◌*◌, ◌/◌, ◌%◌, ◌^◌, ◌≤◌, ◌<◌, ◌≡◌, ◌≢◌, ◌↔◌, refl, sym, ap, subst, ◌∙◌,
  ◌⊎◌, inl, inr, Bool, true, false, not, ◌&&◌, ◌||◌, Option, none, some, List, [], ◌∷◌, ◌++◌,
  append_assoc, append-nil, map, arith, ltb, leb, ◌==◌, if◌then◌else◌, ltb→lt, ltb→le, lt→ltb,
  le→ltb, leb→le, leb→lt, le→leb, lt→leb, ne→==, ==_iff, Bool-cases, Option-cases, length,
  get_elem?, get_or, take, drop, replicate, All, length-append, length-take, length-drop,
  length-replicate, drop-drop, drop-append, drop-get, take-append, take-append-drop, drop-nil,
  bit_and, bit_or, bit_xor, all_below, all_below_sound,
}
use unity_common.Base.Words.{
  Bytes, IsByte, size_max, uint32_max, int32_max, shl32, shl64, word32, word32_sum,
}
use unity_common.Sha256.Compression.{Registers, sha256_transform}

pub record Context : Type 0 where
  pub state : Registers
  pub total_size : ℕ
  pub block : Bytes
  pub block_size : ℕ

abbrev pub block_bytes : ℕ
block_bytes = 64

abbrev pub initial_state : Registers
initial_state = record {
  a = 0x6a09e667;
  b = 0xbb67ae85;
  c = 0x3c6ef372;
  d = 0xa54ff53a;
  e = 0x510e527f;
  f = 0x9b05688c;
  g = 0x1f83d9ab;
  h = 0x5be0cd19;
}

-- The block of the context stays as it is.
abbrev pub common_sha256_init : Context → Context
common_sha256_init c = record c { state = initial_state; total_size = 0; block_size = 0 }

-- `memcpy(block + position, bytes, length)`
pub write_at : Bytes → ℕ → Bytes → Bytes
write_at block position bytes =
    take position block ++ (bytes ++ drop (position + length bytes) block)

-- The copy of a round of `common_sha256_update`.
pub fill_block : Bytes → Context → Context
fill_block bytes c = record c {
  block = write_at c.block c.block_size bytes;
  block_size = c.block_size + length bytes;
}

-- The transform of a block that is full.
pub flush_block : Context → Context
flush_block c =
    if c.block_size == block_bytes
    then record c { state = sha256_transform c.state c.block; block_size = 0 }
    else c

abbrev pub smaller : ℕ → ℕ → ℕ
smaller n m = if ltb n m then n else m

-- The loop of `common_sha256_update`. A round takes one byte at least; out of fuel is `none`.
pub update_loop : ℕ → Context → Bytes → Option Context
update_loop zero c input = none
update_loop (suc fuel) c input =
    let copy_size = smaller (length input) (block_bytes - c.block_size) in
    let next =
      update_loop fuel (flush_block (fill_block (take copy_size input) c)) (drop copy_size input) in
    if ltb 0 (length input) then next else some c

pub common_sha256_update : Context → Bytes → Option Context
common_sha256_update c input =
    update_loop (suc (length input))
      (record c { total_size = (c.total_size + length input) % 2 ^ 64 }) input

unfoldable pub store_be32 : ℕ → Bytes
store_be32 value =
    value / 2 ^ 24 % 256 ∷ value / 2 ^ 16 % 256 ∷ value / 2 ^ 8 % 256 ∷ value % 256 ∷ []

unfoldable pub store_be64 : ℕ → Bytes
store_be64 value =
    value / 2 ^ 56 % 256
    ∷ value / 2 ^ 48 % 256
    ∷ value / 2 ^ 40 % 256
    ∷ value / 2 ^ 32 % 256
    ∷ value / 2 ^ 24 % 256
    ∷ value / 2 ^ 16 % 256
    ∷ value / 2 ^ 8 % 256
    ∷ value % 256
    ∷ []

unfoldable pub digest_of : Registers → Bytes
unfolding store_be32
digest_of s =
    store_be32 s.a
    ++ (store_be32 s.b
        ++ (store_be32 s.c
            ++ (store_be32 s.d
                ++ (store_be32 s.e ++ (store_be32 s.f ++ (store_be32 s.g ++ store_be32 s.h))))))

-- `context->block[context->block_size++] = 0x80U`
abbrev pub mark_end : Context → Context
mark_end c = record c {
  block = write_at c.block c.block_size (0x80 ∷ []);
  block_size = c.block_size + 1;
}

-- The block that has no room for the length is padded and transformed.
pub close_block : Context → Context
close_block c =
    if ltb 56 c.block_size
    then record c {
      state =
          sha256_transform c.state
            (write_at c.block c.block_size (replicate (block_bytes - c.block_size) 0));
      block = write_at c.block c.block_size (replicate (block_bytes - c.block_size) 0);
      block_size = 0;
    }
    else c

-- The last block: zeros up to the length, and the length in bits.
pub finish_block : ℕ → Context → Context
finish_block bit_size c =
    let block =
      write_at (write_at c.block c.block_size (replicate (56 - c.block_size) 0)) 56
        (store_be64 bit_size) in
    record c { state = sha256_transform c.state block; block = block }

pub common_sha256_final : Context → Bytes × Context
common_sha256_final c =
    let done = finish_block (c.total_size * 8 % 2 ^ 64) (close_block (mark_end c)) in
    (digest_of done.state, done)

abbrev pub digest_after : Option Context → Option Bytes
digest_after none = none
digest_after (some c) = some (common_sha256_final c).0

-- `context` is the local variable, with whatever its block holds.
pub common_sha256 : Context → Bytes → Option Bytes
common_sha256 context input =
    if ltb 0 (length input)
    then digest_after (common_sha256_update (common_sha256_init context) input)
    else some (common_sha256_final (common_sha256_init context)).0

-- `digits[n]`
abbrev pub hex_digit : ℕ → ℕ
hex_digit n = if ltb n 10 then 0x30 + n else 0x61 + (n - 10)

pub hex_digits : Bytes → Bytes
hex_digits [] = []
hex_digits (b ∷ bytes) = hex_digit (b / 2 ^ 4) ∷ hex_digit (bit_and b 0x0f) ∷ hex_digits bytes

-- What the call writes to `hex`; `none` where a pointer is null and nothing is written.
pub common_sha256_digest_to_hex : Option Bytes → Bool → Option Bytes
unfolding hex_digits
common_sha256_digest_to_hex none has_hex = none
common_sha256_digest_to_hex (some digest) has_hex =
    if has_hex then some (hex_digits digest ++ 0 ∷ []) else none
