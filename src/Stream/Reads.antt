-- ===== src/Stream/Reads.antt =====
-- The bounds that the cursor keeps, the values of its reads, and where alignment leaves it.
use unity_common.Base.{
  ℕ, ◌+◌, ◌-◌, ◌*◌, ◌/◌, ◌%◌, ◌≤◌, ◌<◌, ◌≡◌, refl, ap, ◌∙◌, ◌⊎◌, inl, inr, Bool, true, false, not,
  ◌&&◌, ◌||◌, Option, none, some, arith, ltb, ◌==◌, if◌then◌else◌, Bool-cases, length, get_or, take,
  drop, All,
}
use unity_common.Base.Words.{Bytes, IsByte}
use unity_common.Base.Bits.{bit_or-fields}
use unity_common.Base.Words.{big_endian, little_endian, get_or-IsByte, take_two}
use native.Mathlib.Nat.{mod-lt, mod-add-div, mod_self, add-mul-mod_self_left}
use unity_common.Stream.{
  ByteStream, stream_remaining, stream_seek, stream_skip, stream_align, stream_read_bytes,
  stream_read_uint8, stream_read_uint16, stream_read_uint32, stream_read_uint64, number,
  swap_uint16, swap_uint32, swap_uint64,
}

-- The cursor stands inside the bytes, or at their end.
pub record IsStream (s : ByteStream) : Type 0 where
  pub whole : s.size ≡ length s.bytes
  pub inside : s.position ≤ s.size

-- `s'` is `s` moved forward by at most `count` bytes, on the same bytes.
pub record Moved (count : ℕ) (s s' : ByteStream) : Type 0 where
  pub bytes : s'.bytes ≡ s.bytes
  pub size : s'.size ≡ s.size
  pub endian : s'.is_big_endian ≡ s.is_big_endian
  pub forward : s.position ≤ s'.position
  pub at_most : s'.position ≤ s.position + count
  pub valid : IsStream s'

stream_read_bytes-Moved :
    (given : Bool) (count : ℕ) (s : ByteStream)
    → IsStream s
    → Moved count s (stream_read_bytes given count s).1
unfolding stream_read_bytes
stream_read_bytes-Moved given count s h =
    elim (Bool-cases ((not given && not (count == 0)) || ltb (stream_remaining s) count)) [
      | inl e ↦ rw e (record {
        bytes = refl;
        size = refl;
        endian = refl;
        forward = omega arith;
        at_most = omega arith;
        valid = h;
      })
      | inr e ↦ rw e (record {
        bytes = refl;
        size = refl;
        endian = refl;
        forward = omega arith;
        at_most = omega arith;
        valid = record { whole = h.whole; inside = ground (arith, e, h.inside) };
      })
    ]

-- Every read moves the cursor forward by at most its width, inside the bytes.
pub reads-Moved :
    (host_big : Bool) (s : ByteStream)
    → IsStream s
    → Moved 1 s (stream_read_uint8 s).1
      × Moved 2 s (stream_read_uint16 host_big s).1
      × Moved 4 s (stream_read_uint32 host_big s).1
      × Moved 8 s (stream_read_uint64 host_big s).1
unfolding stream_read_uint8 stream_read_uint16 stream_read_uint32 stream_read_uint64
reads-Moved host_big s h = (
  kept (λ val. val) false (stream_read_bytes true 1 s) (stream_read_bytes-Moved true 1 s h),
  kept swap_uint16 host_big (stream_read_bytes true 2 s) (stream_read_bytes-Moved true 2 s h),
  kept swap_uint32 host_big (stream_read_bytes true 4 s) (stream_read_bytes-Moved true 4 s h),
  kept swap_uint64 host_big (stream_read_bytes true 8 s) (stream_read_bytes-Moved true 8 s h),
)
  where
    kept :
        {count : ℕ} (swap : ℕ → ℕ) (big : Bool) (r : Option Bytes × ByteStream)
        → Moved count s r.1
        → Moved count s (number swap big r).1
    kept swap big (none, t) m = m
    kept swap big (some bytes, t) m = m

swap_uint16-sum : (a b : ℕ) → a < 256 → b < 256 → swap_uint16 (a + 256 * b) ≡ a * 256 + b
swap_uint16-sum a b ha hb = ground (arith, bit_or-fields 8 (a + 256 * b) b hb)

little : (a b : ℕ) → a + 256 * (b + 256 * 0) ≡ a + 256 * b
little a b = omega arith

big : (a b : ℕ) → (0 * 256 + a) * 256 + b ≡ b + 256 * a
big a b = omega arith

-- With two bytes left a 16-bit read moves behind them and hands out their value in the byte order of the
-- stream, whatever the byte order of the host.
pub stream_read_uint16-value :
    (host_big : Bool) (s : ByteStream)
    → IsStream s
    → All IsByte s.bytes
    → s.position + 2 ≤ s.size
    → stream_read_uint16 host_big s ≡ (
      some (
          if s.is_big_endian
          then big_endian 0 (take 2 (drop s.position s.bytes))
          else little_endian (take 2 (drop s.position s.bytes))),
      record s { position = s.position + 2 },
    )
unfolding stream_read_uint16 stream_read_bytes big_endian little_endian
stream_read_uint16-value host_big s h valid room =
    let a = get_or s.bytes s.position 0 in
    let b = get_or s.bytes (s.position + 1) 0 in
    let ha = get_or-IsByte s.bytes s.position valid in
    let hb = get_or-IsByte s.bytes (s.position + 1) valid in
    let test : ((not true && not (2 == 0)) || ltb (stream_remaining s) 2) ≡ false =
      ground (arith, h.inside) in
    rw (test, take_two s.bytes s.position (omega (arith, h.whole)))
      (elim (Bool-cases s.is_big_endian) [
        | inl e ↦ elim (Bool-cases host_big) [
          | inl e2 ↦ rw (e, e2) refl
          | inr e2 ↦
              rw (e, e2)
                (ap (λ v. (some v, record s { position = s.position + 2; is_big_endian = true }))
                  (ap swap_uint16 (little a b) ∙ swap_uint16-sum a b ha hb ∙ omega arith))
        ]
        | inr e ↦ elim (Bool-cases host_big) [
          | inl e2 ↦
              rw (e, e2)
                (ap (λ v. (some v, record s { position = s.position + 2; is_big_endian = false }))
                  (ap swap_uint16 (big a b) ∙ swap_uint16-sum b a hb ha ∙ omega arith))
          | inr e2 ↦ rw (e, e2) refl
        ]
      ])

-- A seek goes to every position inside the bytes, their end included, and nowhere else; a skip goes
-- forward by what it is asked, or not at all where less remains.
pub seek-and-skip :
    (n : ℕ) (s : ByteStream)
    → IsStream s
    → ((n ≤ s.size) × (stream_seek n s ≡ (true, record s { position = n }))
        ⊎ (s.size < n) × (stream_seek n s ≡ (false, s)))
      × ((s.position + n ≤ s.size)
            × (stream_skip n s ≡ (true, record s { position = s.position + n }))
          ⊎ (s.size < s.position + n) × (stream_skip n s ≡ (false, s)))
unfolding stream_seek stream_skip
seek-and-skip n s h = (
  elim (Bool-cases (ltb s.size n)) [
    | inl e ↦ inr (ground (arith, e), rw e refl)
    | inr e ↦ inl (ground (arith, e), rw e refl)
  ],
  elim (Bool-cases (ltb (stream_remaining s) n)) [
    | inl e ↦ inr (ground (arith, e, h.inside), rw e refl)
    | inr e ↦ inl (ground (arith, e, h.inside), rw e refl)
  ],
)

padded-mod : (p a : ℕ) → 0 < a → (p + (a - p % a)) % a ≡ 0
padded-mod p a h =
    let below : p % a < a = mod-lt p h in
    let split : p % a + a * (p / a) ≡ p = mod-add-div p a in
    let round : p + (a - p % a) ≡ a + a * (p / a) = omega (arith, below, split) in
    ap (λ x. x % a) round ∙ add-mul-mod_self_left a a (p / a) ∙ mod_self a

-- An alignment that is not 0 moves the cursor to the next multiple, by less than the alignment, or, where
-- the multiple lies behind the end, not at all.
pub stream_align-multiple :
    (alignment : ℕ) (s : ByteStream)
    → IsStream s
    → 0 < alignment
    → (((stream_align alignment s).0 ≡ true)
        × ((stream_align alignment s).1.position % alignment ≡ 0)
        × (s.position ≤ (stream_align alignment s).1.position)
        × ((stream_align alignment s).1.position < s.position + alignment)
        × IsStream (stream_align alignment s).1)
      ⊎ ((stream_align alignment s ≡ (false, s))
          × (s.size < s.position + (alignment - s.position % alignment)))
unfolding stream_align stream_skip
stream_align-multiple alignment s h pos_alignment =
    let below : s.position % alignment < alignment = mod-lt s.position pos_alignment in
    let zero_test : (alignment == 0) ≡ false = ground arith in
    elim (Bool-cases (s.position % alignment == 0)) [
      | inl e ↦ inl (
        rw (zero_test, e) refl,
        rw (zero_test, e) (ground (arith, e)),
        rw (zero_test, e) (omega arith),
        rw (zero_test, e) (omega arith),
        rw (zero_test, e) h,
      )
      | inr e ↦ elim (Bool-cases (ltb (stream_remaining s) (alignment - s.position % alignment))) [
        | inl e2 ↦ inr (rw (zero_test, e, e2) refl, ground (arith, e2, h.inside))
        | inr e2 ↦ inl (
          rw (zero_test, e, e2) refl,
          rw (zero_test, e, e2) (padded-mod s.position alignment pos_alignment),
          rw (zero_test, e, e2) (omega arith),
          rw (zero_test, e, e2) (ground (arith, e, below)),
          rw (zero_test, e, e2) (record { whole = h.whole; inside = ground (arith, e2, h.inside) }),
        )
      ]
    ]
