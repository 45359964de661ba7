-- ===== src/Utf8/Runs.antt =====
-- Runs of the decoder, and its theorems at concrete bytes.
use unity_common.Base.{◌≡◌, refl, inl, inr, [], ◌∷◌, ◌++◌, none, some, arith, length, drop}
use unity_common.Base.Words.{Bytes, size_max}
use unity_common.Utf8.{
  Status, make_result, make_sequence, decode_sequence, decode_three, decode_four, validate,
}
use unity_common.Utf8.Encoding.{IsScalar, encode, encode_all}
use unity_common.Utf8.Decode.{decode-encode, decode_sequence_sound}
use unity_common.Utf8.Validate.{Verdict, validate-Verdict, validate-encode_all}

-- The euro sign and then a cut sequence.
abbrev euro_cut : Bytes
euro_cut = 0xe2 ∷ 0x82 ∷ 0xac ∷ 0xf0 ∷ 0x9f ∷ []

euro_decodes : decode_sequence euro_cut ≡ some (make_sequence 0x20ac 3)
unfolding decode_sequence decode_three
euro_decodes = refl

overlong_refused : decode_sequence (0xe0 ∷ 0x80 ∷ 0x80 ∷ []) ≡ none
unfolding decode_sequence decode_three
overlong_refused = refl

validate_cut : validate (some euro_cut) ≡ some (make_result Status.invalid_encoding 3)
unfolding validate decode_sequence decode_three decode_four
validate_cut = refl

decode-encode_example :
    decode_sequence (encode 0x1f600 ++ 7 ∷ [])
    ≡ some (make_sequence 0x1f600 (length (encode 0x1f600)))
decode-encode_example = decode-encode 0x1f600 (7 ∷ []) (inr (omega arith, omega arith))

decode_sequence_sound_example :
    IsScalar 0x20ac × (encode 0x20ac ++ drop 3 euro_cut ≡ euro_cut) × (3 ≡ length (encode 0x20ac))
decode_sequence_sound_example = decode_sequence_sound euro_cut (make_sequence 0x20ac 3) euro_decodes

validate-encode_all_example :
    validate (some (encode_all (0x41 ∷ 0x20ac ∷ []))) ≡ some (make_result Status.ok size_max)
validate-encode_all_example =
    validate-encode_all (0x41 ∷ 0x20ac ∷ []) (inl (omega arith), (inl (omega arith), tt))

validate-Verdict_example : Verdict euro_cut
validate-Verdict_example = validate-Verdict euro_cut
