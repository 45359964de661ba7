-- ===== src/Lz4/Safety.antt =====
-- The decoder stays in its memory, ends, and never writes more than it may, whatever the source.
use unity_common.Base.{
  ℕ, zero, suc, ◌+◌, ◌-◌, ◌*◌, ◌/◌, ◌%◌, ◌^◌, ◌≤◌, ◌<◌, ◌≡◌, refl, ap, ◌∙◌, inl, inr, Bool, true,
  false, not, ◌&&◌, ◌||◌, Option, none, some, [], ◌∷◌, ◌++◌, append_assoc, append-nil, arith, ltb,
  leb, ◌==◌, ltb→lt, lt→ltb, leb→lt, Bool-cases, length, get_or, take, drop, length-append,
  length-take, length-drop, drop-get, bit_and, bit_or,
}
use unity_common.Base.Words.{Bytes, size_max}
use unity_common.Base.Int.{pos}
use unity_common.Base.Run.{ok, load-ok, Settled, Settled-bind, Settled-weaken, Settled-guard}
use unity_common.Lz4.{
  Length, State, Step, returns, continues, read_extensions, read_length, copy_literals, copy_match,
  finish, decode_match, round, decode_loop, decompress_block, start, lz4_decompress_safe,
  lz4_decompress_exact,
}
use unity_common.Lz4.Format.{copy_back, length-copy_back}

-- The copies, as functions of the source and of what is written.
pub copy_literals-ok :
    (count capacity : ℕ) (source : Bytes) (position : ℕ) (output : Bytes)
    → position + count ≤ length source
    → length output + count ≤ capacity
    → copy_literals count capacity source position output
      ≡ ok (output ++ take count (drop position source))
unfolding copy_literals
copy_literals-ok zero capacity source position output hs hc = rw append-nil
copy_literals-ok (suc count) capacity source position output hs hc =
    let b = get_or source position 0 in
    let step =
      copy_literals-ok count capacity source (position + 1) (output ++ b ∷ []) (omega arith)
        (omega (arith, length-append output (b ∷ []))) in
    rw (load-ok source position (omega arith), lt→ltb (length output) capacity (omega arith))
      (step
        ∙ ap ok (append_assoc output (b ∷ []) (take count (drop (position + 1) source)))
        ∙ rw (drop-get position source 0 (omega arith)) refl)

pub copy_match-ok :
    (count capacity offset : ℕ) (output : Bytes)
    → 0 < offset
    → offset ≤ length output
    → length output + count ≤ capacity
    → copy_match count capacity (length output - offset) output ≡ ok (copy_back count offset output)
unfolding copy_match copy_back
copy_match-ok zero capacity offset output h0 ho hc = refl
copy_match-ok (suc count) capacity offset output h0 ho hc =
    let b = get_or output (length output - offset) 0 in
    let grown : length (output ++ b ∷ []) ≡ length output + 1 =
      length-append output (b ∷ []) ∙ omega arith in
    let at : length output - offset + 1 ≡ length (output ++ b ∷ []) - offset =
      omega (arith, grown) in
    rw
      (
        load-ok output (length output - offset) (omega arith),
        lt→ltb (length output) capacity (omega arith),
      )
      (rw at (
        copy_match-ok count capacity offset (output ++ b ∷ []) h0 (omega (arith, grown))
          (omega (arith, grown))))

abbrev Within : ℕ → ℕ → Length → Type 0
Within position source_bytes l = (position ≤ l.input_position) × (l.input_position ≤ source_bytes)

read_extensions-Within :
    (fuel : ℕ) (source : Bytes) (position n : ℕ)
    → position ≤ length source
    → length source < position + fuel
    → Settled
        (Within position (length source))
        (read_extensions fuel source (length source) position n)
unfolding read_extensions
read_extensions-Within zero source position n hp hf = absurd (omega arith)
read_extensions-Within (suc fuel) source position n hp hf =
    let b = get_or source position 0 in
    let later = read_extensions-Within fuel source (position + 1) (n + b) in
    elim (Bool-cases (leb (length source) position)) [
      | inl out ↦ rw out tt
      | inr inside ↦
          rw (inside, load-ok source position (leb→lt _ _ inside))
            (Settled-guard (Within position (length source)) (ltb (size_max - b) n) _ λ _.
              elim (Bool-cases (b == 255)) [
                | inl e ↦ rw e (
                    Settled-weaken (Within (position + 1) (length source))
                      (Within position (length source)) _
                      (later (omega (arith, leb→lt _ _ inside)) (omega arith))
                      (λ l h. (omega arith, h.1)))
                | inr e ↦ rw e (omega arith, omega (arith, leb→lt _ _ inside))
              ])
    ]

read_length-Within :
    (source : Bytes) (position n : ℕ)
    → position ≤ length source
    → Settled (Within position (length source)) (read_length source (length source) position n)
unfolding read_length
read_length-Within source position n hp =
    ground (arith, read_extensions-Within (suc (length source)) source position n)

-- What a step leaves: the output fits, and an exact decode returns only a full destination.
abbrev StepFits : ℕ → ℕ → ℕ → Bool → Step → Type 0
StepFits position source_size capacity exact (returns output) =
    (length output ≤ capacity) × (exact ≡ true → length output ≡ capacity)
StepFits position source_size capacity exact (continues s) =
    (position < s.input_position) × (s.input_position ≤ source_size) × (length s.output ≤ capacity)

finish-StepFits :
    (position source_size capacity : ℕ) (exact : Bool) (s : State) (n : ℕ) (output : Bytes)
    → length output ≤ capacity
    → Settled (StepFits position source_size capacity exact) (finish capacity exact s n output)
unfolding finish
finish-StepFits position source_size capacity true s n output h =
    Settled-guard (StepFits position source_size capacity true)
      (not (length output == capacity) || not _) _ λ e. (h, λ _. ground arith)
finish-StepFits position source_size capacity false s n output h = (h, λ e. cc)

module _ (source : Bytes) (capacity : ℕ) (exact : Bool) (position : ℕ) where
  decode_match-StepFits :
      (token at : ℕ) (output : Bytes)
      → position < at
      → at ≤ length source
      → length output ≤ capacity
      → Settled
          (StepFits position (length source) capacity exact)
          (decode_match source (length source) capacity token at output)
  unfolding decode_match
  decode_match-StepFits token at output hp hs hc =
      let fits = StepFits position (length source) capacity exact in
      let low = get_or source at 0 in
      let high = get_or source (at + 1) 0 in
      let offset = bit_or low (high * 2 ^ 8 % 2 ^ 16) in
      Settled-guard fits (ltb (length source - at) 2) _ λ two.
        rw (load-ok source at (ground arith), load-ok source (at + 1) (ground arith))
          (Settled-guard fits (offset == 0 || ltb (length output) offset) _ λ valid.
            Settled-bind (Within (at + 2) (length source)) fits _ _
              (read_length-Within source (at + 2) (bit_and token 0x0f) (ground arith))
              λ m inside.
                Settled-guard fits
                  (ltb (size_max - 4) m.length || ltb (capacity - length output) (m.length + 4)) _
                  λ room.
                    rw
                      (copy_match-ok (m.length + 4) capacity offset output (ground arith)
                        (ground arith) (ground arith))
                      (
                        omega arith,
                        inside.1,
                        ground (arith, length-copy_back (m.length + 4) offset output),
                      ))

length-literals :
    (count : ℕ) (source : Bytes) (position : ℕ) (output : Bytes)
    → position + count ≤ length source
    → length (output ++ take count (drop position source)) ≡ length output + count
length-literals count source position output h = omega (
  arith,
  length-append output (take count (drop position source)),
  length-take count (drop position source),
  length-drop position source,
)

module _ (source : Bytes) (capacity : ℕ) (exact given : Bool) (s : State) where
  round-StepFits :
      s.input_position < length source
      → length s.output ≤ capacity
      → Settled
          (StepFits s.input_position (length source) capacity exact)
          (round source given (length source) capacity exact s)
  unfolding round
  round-StepFits hp hc =
      let position : ℕ = s.input_position in
      let fits = StepFits position (length source) capacity exact in
      let token = get_or source position 0 in
      rw (load-ok source position hp) (
        Settled-bind (Within (position + 1) (length source)) fits _ _
          (read_length-Within source (position + 1) (token / 2 ^ 4) (omega arith))
          λ l inside.
            Settled-guard fits
              (ltb (length source - l.input_position) l.length
                || ltb (capacity - length s.output) l.length)
              _
              λ room. Settled-guard fits (not (l.length == 0) && not given) _ λ _.
                let output = s.output ++ take l.length (drop l.input_position source) in
                let inputs : l.input_position + l.length ≤ length source = ground arith in
                let outputs : length s.output + l.length ≤ capacity = ground arith in
                let grown : length output ≤ capacity =
                  omega (arith, length-literals l.length source l.input_position s.output inputs) in
                rw
                  (copy_literals-ok l.length capacity source l.input_position s.output inputs
                    outputs)
                  (elim (Bool-cases (l.input_position + l.length == length source)) [
                    | inl at_end ↦ rw at_end (
                        finish-StepFits position (length source) capacity exact s l.length output
                          grown)
                    | inr more ↦ rw more (
                        decode_match-StepFits source capacity exact position token
                          (l.input_position + l.length) output (omega arith) inputs grown)
                  ]))

abbrev Fits : ℕ → Bool → Bytes → Type 0
Fits capacity exact output = (length output ≤ capacity) × (exact ≡ true → length output ≡ capacity)

module _ (source : Bytes) (capacity : ℕ) (given exact : Bool) where
  decode_loop-Fits :
      (fuel : ℕ) (s : State)
      → s.input_position ≤ length source
      → length source < s.input_position + fuel
      → length s.output ≤ capacity
      → Settled
          (Fits capacity exact)
          (decode_loop fuel source given (length source) capacity exact s)
  unfolding decode_loop
  decode_loop-Fits zero s hp hf hc = absurd (omega arith)
  decode_loop-Fits (suc fuel) s hp hf hc =
      elim (Bool-cases (ltb s.input_position (length source))) [
        | inl inside ↦ rw inside (
            Settled-bind (StepFits s.input_position (length source) capacity exact)
              (Fits capacity exact) (round source given (length source) capacity exact s) _
              (round-StepFits source capacity exact given s (ltb→lt _ _ inside) hc)
              (elim [
                | returns output ↦ λ h. h
                | continues t ↦ λ h. decode_loop-Fits fuel t h.1 (omega arith) h.2
              ]))
        | inr at_end ↦
            rw at_end (Settled-guard (Fits capacity exact) exact (ok s.output) λ e. (hc, λ t. cc))
      ]

-- The caller's contract: a pointer that is given has `source_bytes` bytes behind it.
abbrev pub Covers : Option Bytes → ℕ → Type 0
Covers none source_bytes = Unit
Covers (some bytes) source_bytes = length bytes ≡ source_bytes

decompress_block-Fits :
    (source : Option Bytes) (given : Bool) (source_bytes capacity : ℕ) (exact : Bool)
    → Covers source source_bytes
    → Settled
        (Fits capacity exact)
        (decompress_block source given (pos source_bytes) (pos capacity) exact)
unfolding decompress_block
decompress_block-Fits none given zero capacity exact h =
    Settled-guard (Fits capacity exact) (not given && not (capacity == 0)) _ λ _.
      decode_loop-Fits [] capacity given exact 1 start (omega arith) (omega arith) (omega arith)
decompress_block-Fits none given (suc n) capacity exact h =
    let e : (suc n == 0) ≡ false = ground arith in rw e tt
decompress_block-Fits (some bytes) given source_bytes capacity exact h = rw (← h) (
    Settled-guard (Fits capacity exact) (not given && not (capacity == 0)) _ λ _.
      decode_loop-Fits bytes capacity given exact (suc (length bytes)) start (omega arith)
        (omega arith) (omega arith))

-- On every source, well formed or not, both entry points end, read only bytes of the source and
-- bytes that they have written, and write inside the destination. What the legacy entry point
-- returns has at most `capacity` bytes; what the exact one returns has exactly so many.
pub decompress-Settled :
    (source : Option Bytes) (given : Bool) (source_bytes capacity : ℕ)
    → Covers source source_bytes
    → Settled
        (λ output. length output ≤ capacity)
        (lz4_decompress_safe source given (pos source_bytes) (pos capacity))
      × Settled
          (λ output. length output ≡ capacity)
          (lz4_decompress_exact source given (pos source_bytes) (pos capacity))
unfolding lz4_decompress_safe lz4_decompress_exact
decompress-Settled source given source_bytes capacity h = (
  Settled-weaken (Fits capacity false) (λ output. length output ≤ capacity) _
      (decompress_block-Fits source given source_bytes capacity false h) (λ o f. f.0),
  Settled-weaken (Fits capacity true) (λ output. length output ≡ capacity) _
      (decompress_block-Fits source given source_bytes capacity true h) (λ o f. f.1 refl),
)
