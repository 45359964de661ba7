-- ===== src/Stream/Strings.antt =====
-- What the string read takes from a stream.
use unity_common.Base.{
  ℕ, zero, suc, ◌+◌, ◌≤◌, ◌<◌, ◌≡◌, ◌≢◌, refl, subst, inl, inr, Bool, true, false, not, ◌&&◌,
  Option, none, some, [], ◌∷◌, ◌++◌, arith, ltb, leb, ◌==◌, Bool-cases, get_or, take, drop,
}
use unity_common.StringBuilder.{Tracker, mem_alloc}
use unity_common.Stream.{ByteStream, Allocated, scan_length, stream_read_string_alloc}
use unity_common.Stream.Reads.{IsStream}

-- A run of `len` bytes that are not NUL begins at the cursor, and there it ends.
pub record RunEnds (s : ByteStream) (len : ℕ) : Type 0 where
  pub no_nul : (i : ℕ) → i < len → get_or s.bytes (s.position + i) 0 ≢ 0
  pub inside : s.position + len ≤ s.size
  pub stop : (s.position + len < s.size) → get_or s.bytes (s.position + len) 0 ≡ 0

scan_length-ends :
    (fuel : ℕ) (s : ByteStream) (len : ℕ)
    → s.position + len ≤ s.size
    → s.size < fuel + (s.position + len)
    → ((i : ℕ) → i < len → get_or s.bytes (s.position + i) 0 ≢ 0)
    → (n : ℕ) × (scan_length fuel s len ≡ some n) × RunEnds s n
unfolding scan_length
scan_length-ends zero s len fits enough before = absurd (omega arith)
scan_length-ends (suc fuel) s len fits enough before =
    elim (Bool-cases
      (ltb (s.position + len) s.size && not (get_or s.bytes (s.position + len) 0 == 0))) [
        | inr e ↦ (
          len,
          rw e refl,
          record { no_nul = before; inside = fits; stop = λ h. ground (arith, e, h) },
        )
        | inl e ↦
            let (n, found, ends) =
              scan_length-ends fuel s (len + 1) (ground (arith, e)) (omega (arith, enough))
                (longer (ground (arith, e))) in
            (n, rw e found, ends)
      ]
  where
    longer :
        get_or s.bytes (s.position + len) 0 ≢ 0
        → (i : ℕ) → i < len + 1
        → get_or s.bytes (s.position + i) 0 ≢ 0
    longer here i h = elim (Bool-cases (ltb i len)) [
      | inl e ↦ before i (ground (arith, e))
      | inr e ↦ λ q. here (
          let same : i ≡ len = ground (arith, h, e) in
          subst (λ k. get_or s.bytes (s.position + k) 0 ≡ 0) same q)
    ]

-- How a string read ends: with the bytes up to the first NUL and a NUL behind them, the cursor behind
-- the NUL that was read; or with a null pointer and the stream as it was, because no NUL stands in
-- the rest of the stream or the allocator refuses.
pub data StringEnds (granted : Bool) (s : ByteStream) (t : Tracker) (o : Option Allocated)
    : Type 0 where
  reads :
      (len : ℕ)
      → granted ≡ true
      → RunEnds s len
      → s.position + len < s.size
      → o
        ≡ some (record {
          string = some (take len (drop s.position s.bytes) ++ 0 ∷ []);
          stream = record s { position = s.position + len + 1 };
          tracker = (mem_alloc granted (len + 1) t).1;
        })
      → StringEnds granted s t o
  no_terminator :
      ((i : ℕ) → s.position + i < s.size → get_or s.bytes (s.position + i) 0 ≢ 0)
      → o ≡ some (record { string = none; stream = s; tracker = t })
      → StringEnds granted s t o
  refused :
      granted ≡ false
      → o ≡ some (record { string = none; stream = s; tracker = t })
      → StringEnds granted s t o

-- A string read always ends, and it ends as `StringEnds` says.
pub stream_read_string_alloc-StringEnds :
    (granted : Bool) (s : ByteStream) (t : Tracker)
    → IsStream s
    → StringEnds granted s t (stream_read_string_alloc granted s t)
unfolding stream_read_string_alloc mem_alloc
stream_read_string_alloc-StringEnds granted s t h =
    let (n, found, ends) =
      scan_length-ends (suc s.size) s 0 (omega (arith, h.inside)) (omega arith)
        (λ i b. absurd (omega (arith, b))) in
    let some_size : (n + 1 == 0) ≡ false = ground arith in
    elim (Bool-cases (leb s.size (s.position + n))) [
      | inl e ↦
          no_terminator (λ i b. ends.no_nul i (ground (arith, e, b)))
            (rw (stream_read_string_alloc, found, e) refl)
      | inr e ↦ elim (Bool-cases granted) [
        | inl g ↦
            reads n g ends (ground (arith, e))
              (rw (stream_read_string_alloc, found, e, some_size, g) refl)
        | inr g ↦ refused g (rw (stream_read_string_alloc, found, e, some_size, g) refl)
      ]
    ]
