-- ===== src/MetadataReader/Decode.antt =====
-- The integers of the metadata in the byte order that the selector names.
use unity_common.Base.{ℕ, ◌+◌, ◌≤◌, ◌≡◌, not, arith, ◌==◌, if◌then◌else◌, length, take, drop, All}
use unity_common.Base.Words.{Bytes, IsByte, word32_sum}
use unity_common.MetadataReader.{at, decode_u16, decode_u32}
use unity_common.Base.Bits.{bit_or-fields}
use unity_common.Base.Words.{big_endian, little_endian, get_or-IsByte, take_two, take_four}

-- The number that `bytes` spell: highest first for a selector that is not 0, else lowest first.
abbrev pub endian_value : ℕ → Bytes → ℕ
endian_value endian_selector bytes =
    if not (endian_selector == 0) then big_endian 0 bytes else little_endian bytes

module _ (bytes : Bytes) (i endian_selector : ℕ) (valid : All IsByte bytes) where
  decode_u16-endian :
      i + 2 ≤ length bytes
      → decode_u16 bytes i endian_selector ≡ endian_value endian_selector (take 2 (drop i bytes))
  unfolding decode_u16 big_endian little_endian
  decode_u16-endian h =
      let a = at bytes i in
      let b = at bytes (i + 1) in
      let ha = get_or-IsByte bytes i valid in
      let hb = get_or-IsByte bytes (i + 1) valid in
      rw (take_two bytes i h) (
        ground
          (arith, ha, hb, bit_or-fields 8 a b (omega arith), bit_or-fields 8 b a (omega arith)))

  decode_u32-endian :
      i + 4 ≤ length bytes
      → decode_u32 bytes i endian_selector ≡ endian_value endian_selector (take 4 (drop i bytes))
  unfolding decode_u32 big_endian little_endian
  decode_u32-endian h =
      let a = at bytes i in
      let b = at bytes (i + 1) in
      let c = at bytes (i + 2) in
      let d = at bytes (i + 3) in
      let ha = get_or-IsByte bytes i valid in
      let hb = get_or-IsByte bytes (i + 1) valid in
      let hc = get_or-IsByte bytes (i + 2) valid in
      let hd = get_or-IsByte bytes (i + 3) valid in
      rw (take_four bytes i h)
        (ground (arith, word32_sum a b c d ha hb hc hd, word32_sum d c b a hd hc hb ha))

  -- Two-byte and four-byte fields are read in the byte order that the selector names.
  pub decode-endian :
      i + 4 ≤ length bytes
      → (decode_u16 bytes i endian_selector ≡ endian_value endian_selector (take 2 (drop i bytes)))
        × (decode_u32 bytes i endian_selector
            ≡ endian_value endian_selector (take 4 (drop i bytes)))
  decode-endian h = (decode_u16-endian (omega arith), decode_u32-endian h)
