-- ===== src/Lz4/RoundTrip.antt =====
-- Whole blocks: the decoder expands what the encoder of `Format` writes.
use unity_common.Base.{
  ℕ, zero, suc, ◌+◌, ◌*◌, ◌≤◌, ◌<◌, ◌≡◌, refl, sym, ap, ◌∙◌, inl, inr, Bool, true, false, not, ◌&&◌,
  ◌||◌, some, List, [], ◌∷◌, ◌++◌, append-nil, arith, ◌==◌, lt→ltb, ==_iff, Bool-cases, length,
  length-append, length-drop,
}
use unity_common.Base.Words.{Bytes, int32_max}
use unity_common.Base.Int.{pos}
use unity_common.Base.Run.{Run, ok, failed, ◌>>=◌}
use unity_common.Lz4.{
  State, Step, returns, continues, finish, window_valid, round, decode_loop, decompress_block,
  start, lz4_decompress_safe, lz4_decompress_exact,
}
use unity_common.Lz4.Format.{
  Sequence, length-copy_back, expand_one, expand, extension, nibble, encode_one, encode_last,
  encode,
}
use unity_common.Lz4.Lengths.{StandsAt, append-at, inside, nibble-lt}
use unity_common.Lz4.Rounds.{
  IsMatch, next, behind_literals, round-literals, round-encode_one, length-encode_one,
}

module _ (source : Bytes) (capacity : ℕ) (exact : Bool) (s : State) (last : Bytes) where
  round-encode_last :
      capacity ≤ int32_max
      → length s.output + length last ≤ capacity
      → StandsAt source s.input_position (encode_last last)
      → round source true (length source) capacity exact s
        ≡ finish capacity exact s (length last) (s.output ++ last)
  unfolding encode_last
  round-encode_last hcap room at =
      let p : ℕ = s.input_position in
      let ext = extension (length last) in
      let t = nibble (length last) * 16 in
      let at' : StandsAt source p (t ∷ (ext ++ (last ++ []))) =
        at ∙ ap (λ l. t ∷ (ext ++ l)) (sym (append-nil last)) in
      let at_end : (behind_literals p last == length source) ≡ true = (==_iff _ _).1 (
        omega (
          arith,
          inside source p t (ext ++ last) at,
          length-drop p source,
          ap length at,
          length-append ext last,
        )) in
      round-literals source capacity exact s last [] t hcap (omega (arith, nibble-lt (length last)))
        room at'
      ∙ rw at_end refl

-- What a block needs, in the order in which its sequences are expanded behind `output`.
abbrev pub Fitting : ℕ → Bytes → List Sequence → Bytes → Type 0
Fitting capacity output [] last = length output + length last ≤ capacity
Fitting capacity output (q ∷ qs) last =
    IsMatch capacity output q × Fitting capacity (expand_one q output) qs last

after : List Sequence → State → State
after [] s = s
after (q ∷ qs) s = after qs (next q s)

output-after : (qs : List Sequence) (s : State) → (after qs s).output ≡ expand qs s.output
unfolding after expand
output-after [] s = refl
output-after (q ∷ qs) s = output-after qs (next q s)

returned : Step → Run Bytes
returned (returns output) = ok output
returned (continues s) = failed

module _ (source : Bytes) (capacity : ℕ) (exact : Bool) (last : Bytes)
    (hcap : capacity ≤ int32_max) where
  finish-returned :
      (s : State) (n : ℕ) (output : Bytes) (go : State → Run Bytes)
      → (finish capacity exact s n output >>= λ step. elim step [
        | returns o ↦ ok o
        | continues t ↦ go t
      ])
        ≡ (finish capacity exact s n output >>= returned)
  unfolding finish returned
  finish-returned s n output go =
      elim (Bool-cases
        (exact && (not (length output == capacity) || not (window_valid s n (length output))))) [
          | inl e ↦ rw e refl
          | inr e ↦ rw e refl
        ]

  last-inside :
      (s : State)
      → StandsAt source s.input_position (encode_last last)
      → s.input_position < length source
  unfolding encode_last
  last-inside s at = inside source s.input_position _ _ at

  one-inside :
      (q : Sequence) (s : State) (rest : Bytes)
      → StandsAt source s.input_position (encode_one q ++ rest)
      → s.input_position < length source
  unfolding encode_one
  one-inside q s rest at = inside source s.input_position _ _ at

  decode_loop-encode :
      (qs : List Sequence) (fuel : ℕ) (s : State)
      → Fitting capacity s.output qs last
      → length source < s.input_position + fuel
      → StandsAt source s.input_position (encode qs last)
      → decode_loop fuel source true (length source) capacity exact s ≡ (
          finish capacity exact (after qs s) (length last) ((after qs s).output ++ last)
          >>= returned)
  unfolding encode after decode_loop
  decode_loop-encode [] zero s fit hf at = absurd (omega (arith, last-inside s at))
  decode_loop-encode (q ∷ qs) zero s fit hf at =
      absurd (omega (arith, one-inside q s (encode qs last) at))
  decode_loop-encode [] (suc fuel) s fit hf at =
      rw
        (
          lt→ltb s.input_position (length source) (last-inside s at),
          round-encode_last source capacity exact s last hcap fit at,
        )
        (finish-returned s (length last) (s.output ++ last) _)
  decode_loop-encode (q ∷ qs) (suc fuel) s (m, fit) hf at =
      let before = one-inside q s (encode qs last) at in
      rw
        (
          lt→ltb s.input_position (length source) before,
          round-encode_one source capacity exact s q (encode qs last) hcap m at,
        )
        (decode_loop-encode qs fuel (next q s) fit (omega (arith, length-encode_one q))
          (append-at source s.input_position (encode_one q) (encode qs last) at))

last_state : List Sequence → State
last_state qs = after qs start

decompress-encode :
    (qs : List Sequence) (last : Bytes) (capacity : ℕ) (exact : Bool)
    → capacity ≤ int32_max
    → Fitting capacity [] qs last
    → decompress_block
        (some (encode qs last))
        true
        (pos (length (encode qs last)))
        (pos capacity)
        exact
      ≡ (finish capacity exact (last_state qs) (length last) (expand qs [] ++ last) >>= returned)
unfolding decompress_block last_state
decompress-encode qs last capacity exact hcap fit =
    decode_loop-encode (encode qs last) capacity exact last hcap qs (suc (length (encode qs last)))
      start fit (omega arith) refl
    ∙ rw (output-after qs start) refl

-- The legacy entry point expands every block that the encoder writes and that fits the destination:
-- literals are copied, and a match repeats earlier output, its own bytes included.
pub decompress_safe-encode :
    (qs : List Sequence) (last : Bytes) (capacity : ℕ)
    → capacity ≤ int32_max
    → Fitting capacity [] qs last
    → lz4_decompress_safe
        (some (encode qs last))
        true
        (pos (length (encode qs last)))
        (pos capacity)
      ≡ ok (expand qs [] ++ last)
unfolding lz4_decompress_safe finish returned
decompress_safe-encode qs last capacity hcap fit = decompress-encode qs last capacity false hcap fit

-- The end of a block that the format asks for: with a match, five literals behind the last one, and
-- twelve bytes from its start on.
abbrev pub EndsWell : List Sequence → Bytes → Type 0
EndsWell [] last = Unit
EndsWell (q ∷ []) last = (5 ≤ length last) × (12 ≤ q.extra + 4 + length last)
EndsWell (q ∷ r ∷ qs) last = EndsWell (r ∷ qs) last

window-after :
    (qs : List Sequence) (s : State) (last : Bytes)
    → (qs ≡ [] → s.matched ≡ false)
    → EndsWell qs last
    → window_valid (after qs s) (length last) (length (expand qs s.output ++ last)) ≡ true
unfolding after expand expand_one
window-after [] s last h e = rw (h refl) refl
window-after (q ∷ []) s last h e =
    let output = s.output ++ q.literals in
    ground (
      arith,
      length-append s.output q.literals,
      length-copy_back (q.extra + 4) q.offset output,
      length-append (expand_one q s.output) last,
    )
window-after (q ∷ r ∷ qs) s last h e = window-after (r ∷ qs) (next q s) last (λ x. cc) e

-- The exact entry point does so for a block that ends well, where the destination has just its size.
pub decompress_exact-encode :
    (qs : List Sequence) (last : Bytes)
    → length (expand qs [] ++ last) ≤ int32_max
    → Fitting (length (expand qs [] ++ last)) [] qs last
    → EndsWell qs last
    → lz4_decompress_exact
        (some (encode qs last))
        true
        (pos (length (encode qs last)))
        (pos (length (expand qs [] ++ last)))
      ≡ ok (expand qs [] ++ last)
unfolding lz4_decompress_exact finish returned last_state
decompress_exact-encode qs last hcap fit e =
    let n : ℕ = length (expand qs [] ++ last) in
    decompress-encode qs last n true hcap fit
    ∙ rw ((==_iff n n).1 refl, window-after qs start last (λ _. refl) e) refl
