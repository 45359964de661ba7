-- ===== src/MetadataReader/Strings.antt =====
-- The scan for the NUL of a string: it ends, and what it hands out is one terminated string.
use unity_common.Base.{
  ℕ, zero, suc, ◌+◌, ◌-◌, ◌≤◌, ◌<◌, ◌≡◌, ◌≢◌, refl, ap, subst, ◌∙◌, inl, inr, ◌||◌, Option, none,
  some, arith, ltb, ◌==◌, ==_iff, Bool-cases,
}
use unity_common.MetadataReader.{
  Status, Reader, Span, reject_reader, at, admit_extent, consume_span, StringRead, scan_string,
  read_terminated_string, after_consume,
}
use native.Mathlib.Decide.{ℕ_discrete}
use unity_common.MetadataReader.Take.{IsReader, HasRoom, moved}
use unity_common.MetadataReader.Progress.{Advance, Advance-trans, rejected, stepped}

record ExtentRoom (r : Reader) : Type 0 where
  metadata : r.position + 1 ≤ r.metadata_end
  mapping : r.position + 1 ≤ r.mapped_size
  budget : r.position - r.byte_budget_origin + 1 ≤ r.max_bytes

-- A refused check leaves a reader that differs in its report alone.
abbrev Reported : Reader → Reader → Type 0
Reported r s =
    (status : Status) × (offset : ℕ) × (s ≡ record r { status = status; error_offset = offset })

data Admit (r : Reader) (p : Option (Unit {0}) × Reader) : Type 0 where
  refuses : (s : Reader) → p ≡ (none, s) → Reported r s → Admit r p
  admits : p ≡ (some tt, r) → ExtentRoom r → Admit r p

data Consume (r : Reader) (p : Option Span × Reader) : Type 0 where
  overdraws : (s : Reader) → p ≡ (none, s) → Reported r s → Consume r p
  consumes :
      p ≡ (some (record { offset = r.position; size = 1 }), moved r 1)
      → r.work_used + 1 ≤ r.max_work
      → Consume r p

admit_extent-cases : (r : Reader) → IsReader r → Admit r (admit_extent 1 r)
unfolding admit_extent reject_reader
admit_extent-cases r v =
    elim (Bool-cases (ltb r.metadata_end r.position || ltb (r.metadata_end - r.position) 1)) [
      | inl a ↦ Admit.refuses _ (rw a refl) (Status.metadata_end, r.metadata_end, refl)
      | inr a ↦
          elim (Bool-cases (ltb r.mapped_size r.position || ltb (r.mapped_size - r.position) 1)) [
            | inl b ↦ Admit.refuses _ (rw (a, b) refl) (Status.mapping_end, r.mapped_size, refl)
            | inr b ↦
                elim (Bool-cases (
                  ltb r.max_bytes (r.position - r.byte_budget_origin)
                  || ltb (r.max_bytes - (r.position - r.byte_budget_origin)) 1)) [
                    | inl c ↦
                        Admit.refuses _ (rw (a, b, c) refl) (Status.byte_limit, r.position, refl)
                    | inr c ↦ Admit.admits (rw (a, b, c) refl) (record {
                      metadata = ground arith;
                      mapping = ground arith;
                      budget = ground arith;
                    })
                  ]
          ]
    ]

consume_span-cases : (r : Reader) → IsReader r → Consume r (consume_span 1 r)
unfolding consume_span reject_reader
consume_span-cases r v = elim (Bool-cases (ltb (r.max_work - r.work_used) 1)) [
  | inl a ↦ Consume.overdraws _ (rw a refl) (Status.work_limit, r.position, refl)
  | inr a ↦ Consume.consumes (rw a refl) (ground arith)
]

-- What the scan from `r` on leaves: the counter follows the cursor and keeps its limit, and a span is
-- the bytes from `start` to the first NUL.
pub record StringEnds (start max_terminated_bytes count : ℕ) (r : Reader) (o : Option StringRead)
    : Type 0 where
  pub read : StringRead
  pub ends : o ≡ some read
  pub advance : Advance r read.reader
  pub counter : read.terminated_bytes + r.position ≡ count + read.reader.position
  pub limit : read.terminated_bytes ≤ max_terminated_bytes
  pub found :
      (s : Span)
      → read.source ≡ some s
      → (s.offset ≡ start)
        × (r.position < read.reader.position)
        × (s.size ≡ read.reader.position - start)
        × (at r.bytes (read.reader.position - 1) ≡ 0)
        × ((i : ℕ) → r.position ≤ i → i + 1 < read.reader.position → at r.bytes i ≢ 0)

stop-StringEnds :
    (start limit count : ℕ) (r s : Reader)
    → IsReader r
    → Reported r s
    → count ≤ limit
    → StringEnds start limit count r
        (some (record { source = none; terminated_bytes = count; reader = s }))
stop-StringEnds start limit count r s v (status, offset, e) h = rw e (record {
  read = record {
    source = none;
    terminated_bytes = count;
    reader = record r { status = status; error_offset = offset };
  };
  ends = refl;
  advance = rejected r status offset v;
  counter = refl;
  limit = h;
  found = λ t p. cc;
})

one_room : (r : Reader) → ExtentRoom r → r.work_used + 1 ≤ r.max_work → HasRoom r 1
one_room r e h = record { metadata = e.metadata; mapping = e.mapping; budget = e.budget; work = h }

module _ (start limit count : ℕ) (r : Reader) (v : IsReader r) (room : HasRoom r 1)
    (below : count < limit) where
  here-StringEnds :
      at r.bytes r.position ≡ 0
      → StringEnds start limit count r (
          some (record {
            source = some (record { offset = start; size = r.position + 1 - start });
            terminated_bytes = count + 1;
            reader = moved r 1;
          }))
  here-StringEnds z = record {
    read = record {
      source = some (record { offset = start; size = r.position + 1 - start });
      terminated_bytes = count + 1;
      reader = moved r 1;
    };
    ends = refl;
    advance = stepped r 1 v room;
    counter = omega arith;
    limit = omega arith;
    found = λ s p. (
      ground arith,
      omega arith,
      ground arith,
      ap (at r.bytes) (omega arith) ∙ z,
      λ i lo hi. absurd (omega arith),
    );
  }

  later-StringEnds :
      (o : Option StringRead)
      → at r.bytes r.position ≢ 0
      → StringEnds start limit (count + 1) (moved r 1) o
      → StringEnds start limit count r o
  later-StringEnds o nz t = record {
    read = t.read;
    ends = t.ends;
    advance = Advance-trans r (moved r 1) t.read.reader (stepped r 1 v room) t.advance;
    counter = omega (arith, t.counter);
    limit = t.limit;
    found = λ s p.
        let (a, b, c, d, e) = t.found s p in
        (
          a,
          omega arith,
          c,
          d,
          λ i lo hi. elim (ℕ_discrete r.position i) [
            | yes same ↦ subst (λ j. at r.bytes j ≢ 0) same nz
            | no other ↦ e i (omega arith) hi
          ],
        );
  }

Consumed-step :
    (fuel start limit count : ℕ) (r : Reader)
    → IsReader r
    → count < limit
    → (r.work_used + 1 ≤ r.max_work
        → StringEnds start limit
            (count + 1)
            (moved r 1)
            (scan_string fuel start limit (count + 1) (moved r 1)))
    → ExtentRoom r
    → Consume r (consume_span 1 r)
    → StringEnds start limit count r (
        after_consume start count
          (λ s. scan_string fuel start limit (count + 1) s)
          (consume_span 1 r))
Consumed-step fuel start limit count r v below next room (overdraws s e q) =
    rw e (stop-StringEnds start limit count r s v q (omega arith))
Consumed-step fuel start limit count r v below next room (consumes e paid) =
    rw e (elim (Bool-cases (at r.bytes r.position == 0)) [
      | inl nul ↦
          rw (nul, after_consume)
            (here-StringEnds start limit count r v (one_room r room paid) below
              ((==_iff _ _).0 nul))
      | inr more ↦
          rw (more, after_consume)
            (later-StringEnds start limit count r v (one_room r room paid) below _
              (λ z. ground arith) (next paid))
    ])

scan_step :
    (fuel start limit count : ℕ) (r : Reader)
    → IsReader r
    → count ≤ limit
    → (count < limit
        → HasRoom r 1
        → StringEnds start limit
            (count + 1)
            (moved r 1)
            (scan_string fuel start limit (count + 1) (moved r 1)))
    → Admit r (admit_extent 1 r)
    → Consume r (consume_span 1 r)
    → StringEnds start limit count r (scan_string (suc fuel) start limit count r)
unfolding scan_string
scan_step fuel start limit count r v h next (refuses s e q) c =
    rw e (stop-StringEnds start limit count r s v q h)
scan_step fuel start limit count r v h next (admits e room) c =
    rw e (elim (Bool-cases (count == limit)) [
      | inl full ↦ rw full (
          stop-StringEnds start limit count r _ v (Status.terminated_string_limit, r.position, refl)
            h)
      | inr more ↦
          rw (more, after_consume)
            (Consumed-step fuel start limit count r v (ground arith)
              (λ paid. next (ground arith) (one_room r room paid)) room c)
    ])

scan_string-ends :
    (fuel start limit count : ℕ) (r : Reader)
    → IsReader r
    → count ≤ limit
    → r.mapped_size < r.position + fuel
    → StringEnds start limit count r (scan_string fuel start limit count r)
scan_string-ends zero start limit count r v h hf = absurd (omega (arith, v.in_mapping))
scan_string-ends (suc fuel) start limit count r v h hf =
    let next : count < limit
        → HasRoom r 1
        → StringEnds start limit (count + 1) (moved r 1)
            (scan_string fuel start limit (count + 1) (moved r 1)) =
      λ below room.
        scan_string-ends fuel start limit (count + 1) (moved r 1) (stepped r 1 v room).valid
          (omega arith) (omega arith) in
    scan_step fuel start limit count r v h next (admit_extent-cases r v) (consume_span-cases r v)

-- A scan for a NUL always ends. It keeps the cursor valid and pays for each byte, counts the bytes it
-- passes and stays within the limit on them; a span that it hands out begins at the cursor, ends
-- with a NUL, and has no other.
pub read_terminated_string-ends :
    (r : Reader) (limit count : ℕ)
    → IsReader r
    → count ≤ limit
    → StringEnds r.position limit count r (read_terminated_string limit count r)
unfolding read_terminated_string
read_terminated_string-ends r limit count v h =
    scan_string-ends (suc r.mapped_size) r.position limit count r v h (omega arith)
