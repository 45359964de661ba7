-- ===== src/Lz4/Rounds.antt =====
-- One round of the decoder on one encoded sequence.
use unity_common.Base.{
  ℕ, ◌+◌, ◌-◌, ◌*◌, ◌/◌, ◌%◌, ◌^◌, ◌≤◌, ◌<◌, ◌≡◌, refl, ap, ◌∙◌, Bool, true, false, not, ◌&&◌, ◌||◌,
  ◌∷◌, ◌++◌, append_assoc, arith, ltb, ◌==◌, if◌then◌else◌, ne→==, length, take, drop,
  length-append, length-drop, take-append, bit_and,
}
use unity_common.Base.Words.{Bytes, size_max, int32_max}
use unity_common.Base.Run.{ok}
use unity_common.Lz4.{State, continues, finish, decode_match, round}
use unity_common.Lz4.Safety.{copy_literals-ok, copy_match-ok}
use unity_common.Lz4.Format.{Sequence, copy_back, expand_one, extension, nibble, encode_one}
use unity_common.Lz4.Lengths.{
  StandsAt, inside, load-at, next-at, append-at, read_length-extension, token_high, token_low,
  offset_value,
}

-- What a sequence needs of the output before it.
pub record IsMatch (capacity : ℕ) (output : Bytes) (q : Sequence) : Type 0 where
  pub not_zero : 0 < q.offset
  pub reach : q.offset ≤ length output + length q.literals
  pub two_bytes : q.offset < 2 ^ 16
  pub room : length output + length q.literals + (q.extra + 4) ≤ capacity

module _ (source : Bytes) (capacity : ℕ) (rest output : Bytes) (q : Sequence) where
  decode_match-encode :
      (p token : ℕ)
      → capacity ≤ int32_max
      → bit_and token 0x0f ≡ nibble q.extra
      → 0 < q.offset
      → q.offset ≤ length output
      → q.offset < 2 ^ 16
      → length output + (q.extra + 4) ≤ capacity
      → StandsAt source p (q.offset % 256 ∷ q.offset / 256 ∷ (extension q.extra ++ rest))
      → decode_match source (length source) capacity token p output
        ≡ ok (
            continues (record {
              input_position = p + 2 + length (extension q.extra);
              output = copy_back (q.extra + 4) q.offset output;
              last_match_start = length output;
              matched = true;
            }))
  unfolding decode_match
  decode_match-encode p token hcap ht h0 hr h16 hroom at =
      let tail = extension q.extra ++ rest in
      let at1 = next-at source p (q.offset % 256) (q.offset / 256 ∷ tail) at in
      let at2' = next-at source (p + 1) (q.offset / 256) tail at1 in
      let e : p + 1 + 1 ≡ p + 2 = omega arith in
      let at2 : StandsAt source (p + 2) tail = rw e at at2' in
      let two : ltb (length source - p) 2 ≡ false =
        ground (arith, inside source (p + 1) (q.offset / 256) tail at1) in
      let e2 : (q.offset == 0 || ltb (length output) q.offset) ≡ false = ground arith in
      let e3 : (ltb (size_max - 4) q.extra || ltb (capacity - length output) (q.extra + 4))
          ≡ false =
        ground arith in
      rw
        (
          two,
          load-at source p (q.offset % 256) (q.offset / 256 ∷ tail) at,
          load-at source (p + 1) (q.offset / 256) tail at1,
        )
        (rw (offset_value q.offset h16) (
          rw (e2, ht, read_length-extension source (p + 2) q.extra rest (omega arith) at2)
            (rw (e3, copy_match-ok (q.extra + 4) capacity q.offset output h0 hr hroom) refl)))

-- Where the input stands behind the literals `lits` of a sequence at `p`.
abbrev pub behind_literals : ℕ → Bytes → ℕ
behind_literals p lits = p + 1 + length (extension (length lits)) + length lits

module _ (source : Bytes) (capacity : ℕ) (exact : Bool) (s : State) (lits tail : Bytes)
    (t : ℕ) where
  pub round-literals :
      capacity ≤ int32_max
      → t / 2 ^ 4 ≡ nibble (length lits)
      → length s.output + length lits ≤ capacity
      → StandsAt source s.input_position (t ∷ (extension (length lits) ++ (lits ++ tail)))
      → round source true (length source) capacity exact s ≡ (
          if behind_literals s.input_position lits == length source
          then finish capacity exact s (length lits) (s.output ++ lits)
          else decode_match source
              (length source)
              capacity
              t
              (behind_literals s.input_position lits)
              (s.output ++ lits))
  unfolding round
  round-literals hcap ht room at =
      let p : ℕ = s.input_position in
      let n : ℕ = length lits in
      let body = extension n ++ (lits ++ tail) in
      let at1 = next-at source p t body at in
      let p2 = p + 1 + length (extension n) in
      let at2 = append-at source (p + 1) (extension n) (lits ++ tail) at1 in
      let fits : p2 + n ≤ length source = omega (
        arith,
        inside source p t body at,
        length-drop (p + 1) source,
        ap length at1,
        length-append (extension n) (lits ++ tail),
        length-append lits tail,
      ) in
      let e1 : (ltb (length source - p2) n || ltb (capacity - length s.output) n) ≡ false =
        ground arith in
      let e2 : (not (n == 0) && false) ≡ false = ground arith in
      let copied : take n (drop p2 source) ≡ lits = ap (take n) at2 ∙ take-append lits tail in
      rw
        (
          load-at source p t body at,
          ht,
          read_length-extension source (p + 1) n (lits ++ tail) (omega arith) at1,
        )
        (rw (e1, e2, copy_literals-ok n capacity source p2 s.output fits room) (rw copied refl))

pub length-encode_one :
    (q : Sequence)
    → length (encode_one q)
      ≡ 1
        + length (extension (length q.literals))
        + length q.literals
        + 2
        + length (extension q.extra)
unfolding encode_one
length-encode_one q =
    let ext = extension (length q.literals) in
    let match_bytes = q.offset % 256 ∷ q.offset / 256 ∷ extension q.extra in
    omega
      (arith, length-append ext (q.literals ++ match_bytes), length-append q.literals match_bytes)

-- The state behind a sequence.
abbrev pub next : Sequence → State → State
next q s = record {
  input_position = s.input_position + length (encode_one q);
  output = expand_one q s.output;
  last_match_start = length s.output + length q.literals;
  matched = true;
}

same_state :
    {s t : State}
    → s.input_position ≡ t.input_position
    → s.output ≡ t.output
    → s.last_match_start ≡ t.last_match_start
    → s.matched ≡ t.matched
    → s ≡ t
same_state p q r m =
    λ i. record { input_position = p i; output = q i; last_match_start = r i; matched = m i }

module _ (source : Bytes) (capacity : ℕ) (exact : Bool) (s : State) (q : Sequence)
    (rest : Bytes) where
  pub round-encode_one :
      capacity ≤ int32_max
      → IsMatch capacity s.output q
      → StandsAt source s.input_position (encode_one q ++ rest)
      → round source true (length source) capacity exact s ≡ ok (continues (next q s))
  unfolding encode_one expand_one
  round-encode_one hcap m at =
      let p : ℕ = s.input_position in
      let lits = q.literals in
      let ext = extension (length lits) in
      let o1 = q.offset % 256 in
      let o2 = q.offset / 256 in
      let t = nibble (length lits) * 16 + nibble q.extra in
      let tail = o1 ∷ o2 ∷ (extension q.extra ++ rest) in
      let regroup : (ext ++ (lits ++ (o1 ∷ o2 ∷ extension q.extra))) ++ rest
          ≡ ext ++ (lits ++ tail) =
        append_assoc ext (lits ++ (o1 ∷ o2 ∷ extension q.extra)) rest
        ∙ ap (λ l. ext ++ l) (append_assoc lits (o1 ∷ o2 ∷ extension q.extra) rest) in
      let at' : StandsAt source p (t ∷ (ext ++ (lits ++ tail))) = at ∙ ap (λ l. t ∷ l) regroup in
      let p3 = behind_literals p lits in
      let at3 : StandsAt source p3 tail = append-at source (p + 1 + length ext) lits tail (
        append-at source (p + 1) ext (lits ++ tail)
          (next-at source p t (ext ++ (lits ++ tail)) at')) in
      let not_end : (p3 == length source) ≡ false =
        ne→== _ _ (omega (arith, inside source p3 o1 (o2 ∷ (extension q.extra ++ rest)) at3)) in
      let grown = length-append s.output lits in
      round-literals source capacity exact s lits tail t hcap (token_high (length lits) q.extra)
        (omega (arith, m.room)) at'
      ∙ rw not_end refl
      ∙ decode_match-encode source capacity rest (s.output ++ lits) q p3 t hcap
          (token_low (length lits) q.extra) m.not_zero (omega (arith, m.reach, grown)) m.two_bytes
          (omega (arith, m.room, grown)) at3
      ∙ ap (λ st. ok (continues st))
          (same_state (omega (arith, length-encode_one q)) refl grown refl)
