-- ===== src/Sha256/Runs.antt =====
-- Runs of the code of src/common/sha256.c, and the theorems at concrete inputs.
use unity_common.Base.{◌≡◌, refl, true, some, List, [], ◌∷◌, replicate}
use unity_common.Base.Words.{Bytes}
use unity_common.Sha256.Compression.{sha256_transform}
use unity_common.Sha256.{
  Context, common_sha256, common_sha256_final, common_sha256_init, common_sha256_update,
  update_loop, flush_block, fill_block, write_at, close_block, finish_block, digest_of, store_be64,
  initial_state, common_sha256_digest_to_hex, hex_digits,
}
use unity_common.Sha256.Reference.{reference}
use unity_common.Sha256.Finish.{common_sha256-reference, updates-reference, update_all, concat}

abbrev blank : Context
blank = record { state = initial_state; total_size = 0; block = replicate 64 7; block_size = 0 }

abc :
    common_sha256 blank (0x61 ∷ 0x62 ∷ 0x63 ∷ [])
    ≡ some (
        0xba ∷ 0x78 ∷ 0x16 ∷ 0xbf ∷ 0x8f ∷ 0x01 ∷ 0xcf ∷ 0xea ∷ 0x41 ∷ 0x41 ∷ 0x40 ∷ 0xde ∷ 0x5d
        ∷ 0xae ∷ 0x22 ∷ 0x23 ∷ 0xb0 ∷ 0x03 ∷ 0x61 ∷ 0xa3 ∷ 0x96 ∷ 0x17 ∷ 0x7a ∷ 0x9c ∷ 0xb4 ∷ 0x10
        ∷ 0xff ∷ 0x61 ∷ 0xf2 ∷ 0x00 ∷ 0x15 ∷ 0xad ∷ [])
unfolding common_sha256 common_sha256_update update_loop common_sha256_final flush_block fill_block
    write_at close_block finish_block digest_of store_be64 sha256_transform
abc = refl

-- 56 bytes: the length does not fit the block of the message any more.
abbrev long : Bytes
long = replicate 56 0x61

common_sha256-reference_example : common_sha256 blank long ≡ some (reference long)
common_sha256-reference_example = common_sha256-reference blank long refl

abbrev cuts : List Bytes
cuts = (0x61 ∷ 0x62 ∷ []) ∷ [] ∷ long ∷ []

updates-reference_example :
    (c : Context) × (update_all (common_sha256_init blank) cuts ≡ some c)
    × ((common_sha256_final c).0 ≡ reference (concat cuts))
updates-reference_example = updates-reference blank cuts refl

hex :
    common_sha256_digest_to_hex (some (0x0f ∷ 0xa9 ∷ [])) true
    ≡ some (0x30 ∷ 0x66 ∷ 0x61 ∷ 0x39 ∷ 0 ∷ [])
unfolding common_sha256_digest_to_hex hex_digits
hex = refl
