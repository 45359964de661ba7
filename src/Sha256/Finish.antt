-- ===== src/Sha256/Finish.antt =====
-- Finishing a context gives the hash of what it absorbed, and so does hashing in one call.
use unity_common.Base.{
  ℕ, zero, suc, ◌+◌, ◌-◌, ◌*◌, ◌/◌, ◌%◌, ◌^◌, ◌≤◌, ◌<◌, ◌≡◌, refl, sym, ap, subst, ◌∙◌, inl, inr,
  true, false, Option, none, some, List, [], ◌∷◌, ◌++◌, append_assoc, append-nil, arith, ltb,
  Bool-cases, length, take, replicate, length-append, length-replicate,
}
use unity_common.Base.Words.{Bytes}
use unity_common.Sha256.Compression.{sha256_transform}
use unity_common.Sha256.{
  Context, write_at, mark_end, close_block, finish_block, common_sha256_final, common_sha256_update,
  common_sha256_init, common_sha256, digest_of, store_be64, initial_state,
}
use unity_common.Sha256.Reference.{
  fold_blocks, fold_blocks-snoc, take-all, pad, reference, zeros_for,
}
use unity_common.Sha256.Absorb.{
  Tracks, take-write_at, length-write_at, init-Tracks, common_sha256_update-Tracks,
}

-- The block begins with `front`.
record Begins (block : Bytes) (n : ℕ) (front : Bytes) : Type 0 where
  starts : take n block ≡ front
  room : length block ≡ 64

Begins-write :
    (block : Bytes) (n : ℕ) (front bytes : Bytes)
    → Begins block n front
    → n + length bytes ≤ 64
    → Begins (write_at block n bytes) (n + length bytes) (front ++ bytes)
Begins-write block n front bytes b h = record {
  starts = take-write_at block n bytes (omega (arith, b.room)) ∙ ap (λ l. l ++ bytes) b.starts;
  room = length-write_at block n bytes (omega (arith, b.room)) ∙ b.room;
}

-- A write up to the end leaves the front and what was written.
Begins-filled :
    (block : Bytes) (n : ℕ) (front bytes : Bytes)
    → Begins block n front
    → n + length bytes ≡ 64
    → write_at block n bytes ≡ front ++ bytes
Begins-filled block n front bytes b h =
    let w = Begins-write block n front bytes b (omega (arith, h)) in
    sym (take-all (n + length bytes) (write_at block n bytes) (omega (arith, w.room, h))) ∙ w.starts

abbrev zeros : ℕ → Bytes
zeros n = replicate n 0

length-zeros : (n : ℕ) → length (zeros n) ≡ n
length-zeros n = length-replicate {A = ℕ} n 0

replicate-add : (n m : ℕ) → zeros (n + m) ≡ zeros n ++ zeros m
replicate-add zero m = let e : zero + m ≡ m = omega arith in rw e refl
replicate-add (suc n) m =
    let e : suc n + m ≡ suc (n + m) = omega arith in rw e (ap (λ l. 0 ∷ l) (replicate-add n m))

length-store_be64 : (n : ℕ) → length (store_be64 n) ≡ 8
unfolding store_be64
length-store_be64 n = refl

-- The state that the last calls leave, from the front of the block.
module _ (c : Context) (part : Bytes) (bits : ℕ) (size : c.block_size ≡ length part)
    (short : length part < 64) (begins : Begins c.block c.block_size part) where
  marked : Begins (mark_end c).block (c.block_size + 1) (part ++ 0x80 ∷ [])
  marked = Begins-write c.block c.block_size part (0x80 ∷ []) begins (omega arith)

  -- With room for the length there is one more block.
  finish-one :
      c.block_size + 1 ≤ 56
      → (finish_block bits (close_block (mark_end c))).state
        ≡ sha256_transform c.state
            (((part ++ 0x80 ∷ []) ++ zeros (55 - length part)) ++ store_be64 bits)
  unfolding finish_block close_block
  finish-one h =
      let open_block : ltb 56 (c.block_size + 1) ≡ false = ground arith in
      let count : 56 - (c.block_size + 1) ≡ 55 - length part = omega arith in
      let gap = zeros (55 - length part) in
      let written : length gap ≡ 55 - length part = length-zeros (55 - length part) in
      let w =
        Begins-write (mark_end c).block (c.block_size + 1) (part ++ 0x80 ∷ []) gap marked
          (omega (arith, written)) in
      let at_56 : (c.block_size + 1) + length gap ≡ 56 = omega (arith, written) in
      let b : Begins (write_at (mark_end c).block (c.block_size + 1) gap) 56
          ((part ++ 0x80 ∷ []) ++ gap) =
        subst
          (λ k.
            Begins (write_at (mark_end c).block (c.block_size + 1) gap) k
              ((part ++ 0x80 ∷ []) ++ gap))
          at_56 w in
      rw (open_block, count)
        (ap (sha256_transform c.state) (
          Begins-filled _ 56 ((part ++ 0x80 ∷ []) ++ gap) (store_be64 bits) b
            (omega (arith, length-store_be64 bits))))

  -- Without, the block is closed with zeros and the length stands in the next one.
  finish-two :
      56 < c.block_size + 1
      → (finish_block bits (close_block (mark_end c))).state
        ≡ sha256_transform
            (sha256_transform c.state ((part ++ 0x80 ∷ []) ++ zeros (63 - length part)))
            (zeros 56 ++ store_be64 bits)
  unfolding finish_block close_block
  finish-two h =
      let full_block : ltb 56 (c.block_size + 1) ≡ true = ground arith in
      let count : 64 - (c.block_size + 1) ≡ 63 - length part = omega arith in
      let gap = zeros (63 - length part) in
      let written : length gap ≡ 63 - length part = length-zeros (63 - length part) in
      let closed =
        Begins-filled (mark_end c).block (c.block_size + 1) (part ++ 0x80 ∷ []) gap marked
          (omega (arith, written)) in
      let w =
        Begins-write (mark_end c).block (c.block_size + 1) (part ++ 0x80 ∷ []) gap marked
          (omega (arith, written)) in
      let fresh : Begins (write_at (mark_end c).block (c.block_size + 1) gap) 0 [] = record {
        starts = refl;
        room = w.room;
      } in
      let cleared = Begins-write _ 0 [] (zeros 56) fresh (omega (arith, length-zeros 56)) in
      let last =
        Begins-filled _ 56 (zeros 56) (store_be64 bits) cleared
          (omega (arith, length-store_be64 bits)) in
      rw (full_block, count)
        (ap
            (λ l.
              sha256_transform
                (sha256_transform c.state (write_at (mark_end c).block (c.block_size + 1) gap)) l)
            last
          ∙ ap (λ l. sha256_transform (sha256_transform c.state l) (zeros 56 ++ store_be64 bits))
              closed)

regroup_one :
    (full part gap last : Bytes)
    → (full ++ part) ++ ((0x80 ∷ gap) ++ last) ≡ full ++ (((part ++ 0x80 ∷ []) ++ gap) ++ last)
regroup_one full part gap last = simp append_assoc

regroup_two :
    (full part gap gap' last : Bytes)
    → (full ++ part) ++ ((0x80 ∷ (gap ++ gap')) ++ last)
      ≡ full ++ (((part ++ 0x80 ∷ []) ++ gap) ++ (gap' ++ last))
regroup_two full part gap gap' last = simp append_assoc

-- The message and its padding, cut into blocks.
module _ (message full part : Bytes) (n : ℕ) (split : message ≡ full ++ part)
    (whole : length full ≡ n * 64) (short : length part < 64) where
  bits : ℕ
  bits = length message * 8 % 2 ^ 64

  total : length message ≡ n * 64 + length part
  total = ap length split ∙ omega (arith, length-append full part, whole)

  pad-one :
      length part < 56
      → pad message ≡ full ++ (((part ++ 0x80 ∷ []) ++ zeros (55 - length part)) ++ store_be64 bits)
  unfolding pad bits
  pad-one h =
      let count : zeros_for (length message) ≡ 55 - length part = omega (arith, total) in
      rw count (
        ap (λ l. l ++ ((0x80 ∷ zeros (55 - length part)) ++ store_be64 bits)) split
        ∙ regroup_one full part (zeros (55 - length part)) (store_be64 bits))

  pad-two :
      56 ≤ length part
      → pad message
        ≡ full
          ++ (((part ++ 0x80 ∷ []) ++ zeros (63 - length part)) ++ (zeros 56 ++ store_be64 bits))
  unfolding pad bits
  pad-two h =
      let count : zeros_for (length message) ≡ (63 - length part) + 56 = omega (arith, total) in
      rw (count, replicate-add (63 - length part) 56)
        (ap (λ l. l ++ ((0x80 ∷ (zeros (63 - length part) ++ zeros 56)) ++ store_be64 bits)) split
          ∙ regroup_two full part (zeros (63 - length part)) (zeros 56) (store_be64 bits))

  -- The blocks of the padded message, folded.
  folded_one :
      length part < 56
      → fold_blocks sha256_transform 64 (length (pad message) / 64) initial_state (pad message)
        ≡ sha256_transform
            (fold_blocks sha256_transform 64 n initial_state full)
            (((part ++ 0x80 ∷ []) ++ zeros (55 - length part)) ++ store_be64 bits)
  folded_one h =
      let last = ((part ++ 0x80 ∷ []) ++ zeros (55 - length part)) ++ store_be64 bits in
      let size : length last ≡ 64 = omega (
        arith,
        length-append ((part ++ 0x80 ∷ []) ++ zeros (55 - length part)) (store_be64 bits),
        length-append (part ++ 0x80 ∷ []) (zeros (55 - length part)),
        length-append part (0x80 ∷ []),
        length-zeros (55 - length part),
        length-store_be64 bits,
      ) in
      let count : length (full ++ last) / 64 ≡ n + 1 =
        omega (arith, length-append full last, size, whole) in
      rw (pad-one h, count)
        (fold_blocks-snoc sha256_transform 64 n initial_state full last whole size)

  folded_two :
      56 ≤ length part
      → fold_blocks sha256_transform 64 (length (pad message) / 64) initial_state (pad message)
        ≡ sha256_transform
            (sha256_transform
              (fold_blocks sha256_transform 64 n initial_state full)
              ((part ++ 0x80 ∷ []) ++ zeros (63 - length part)))
            (zeros 56 ++ store_be64 bits)
  folded_two h =
      let closed = (part ++ 0x80 ∷ []) ++ zeros (63 - length part) in
      let last = zeros 56 ++ store_be64 bits in
      let size : length closed ≡ 64 = omega (
        arith,
        length-append (part ++ 0x80 ∷ []) (zeros (63 - length part)),
        length-append part (0x80 ∷ []),
        length-zeros (63 - length part),
      ) in
      let size' : length last ≡ 64 = omega (
        arith,
        length-append (zeros 56) (store_be64 bits),
        length-zeros 56,
        length-store_be64 bits,
      ) in
      let inner = length-append full closed in
      let count : length ((full ++ closed) ++ last) / 64 ≡ (n + 1) + 1 =
        omega (arith, length-append (full ++ closed) last, inner, size, size', whole) in
      rw (pad-two h, ← append_assoc full closed last, count)
        (fold_blocks-snoc sha256_transform 64 (n + 1) initial_state (full ++ closed) last
            (omega (arith, inner, size, whole)) size'
          ∙ ap (λ s. sha256_transform s last)
              (fold_blocks-snoc sha256_transform 64 n initial_state full closed whole size))

-- Finishing gives the hash of the message that the context has absorbed.
pub common_sha256_final-reference :
    (c : Context) (message : Bytes)
    → Tracks c message
    → (common_sha256_final c).0 ≡ reference message
unfolding common_sha256_final reference bits
common_sha256_final-reference c message t =
    let a = t.absorbed in
    let h = a.holds in
    let begins : Begins c.block c.block_size a.part = record { starts = h.front; room = h.room } in
    let length_bits : c.total_size * 8 % 2 ^ 64 ≡ length message * 8 % 2 ^ 64 =
      omega (arith, t.total) in
    let size = c.total_size * 8 % 2 ^ 64 in
    ap digest_of (elim (Bool-cases (ltb 56 (c.block_size + 1))) [
      | inr e ↦
          finish-one c a.part size h.size h.short begins (ground (arith, e))
          ∙ ap
              (λ k.
                sha256_transform c.state
                  (((a.part ++ 0x80 ∷ []) ++ zeros (55 - length a.part)) ++ store_be64 k))
              length_bits
          ∙ ap
              (λ s. sha256_transform s (
                ((a.part ++ 0x80 ∷ []) ++ zeros (55 - length a.part))
                ++ store_be64 (length message * 8 % 2 ^ 64)))
              h.state
          ∙ sym (
              folded_one message a.full a.part a.blocks a.split h.whole h.short
                (ground (arith, e, h.size)))
      | inl e ↦
          finish-two c a.part size h.size h.short begins (ground (arith, e))
          ∙ ap
              (λ k.
                sha256_transform
                  (sha256_transform c.state ((a.part ++ 0x80 ∷ []) ++ zeros (63 - length a.part)))
                  (zeros 56 ++ store_be64 k))
              length_bits
          ∙ ap
              (λ s.
                sha256_transform
                  (sha256_transform s ((a.part ++ 0x80 ∷ []) ++ zeros (63 - length a.part)))
                  (zeros 56 ++ store_be64 (length message * 8 % 2 ^ 64)))
              h.state
          ∙ sym (
              folded_two message a.full a.part a.blocks a.split h.whole h.short
                (ground (arith, e, h.size)))
    ])

-- Hashing in one call gives the hash of the message, whatever the context's block holds.
pub common_sha256-reference :
    (context : Context) (message : Bytes)
    → length context.block ≡ 64
    → common_sha256 context message ≡ some (reference message)
unfolding common_sha256
common_sha256-reference context message h = elim (Bool-cases (ltb 0 (length message))) [
  | inl e ↦
      let (c, found, t) =
        common_sha256_update-Tracks (common_sha256_init context) [] message
          (init-Tracks context h) in
      rw (e, found) (ap some (common_sha256_final-reference c message t))
  | inr e ↦ rw e (
      ap some (
        common_sha256_final-reference (common_sha256_init context) [] (init-Tracks context h)
        ∙ ap reference (take-all 0 message (ground (arith, e)))))
]

-- Updates one after the other.
unfoldable pub update_all : Context → List Bytes → Option Context
update_all c [] = some c
update_all c (input ∷ inputs) = elim (common_sha256_update c input) [
  | none ↦ none
  | some c' ↦ update_all c' inputs
]

unfoldable pub concat : List Bytes → Bytes
concat [] = []
concat (input ∷ inputs) = input ++ concat inputs

update_all-Tracks :
    (inputs : List Bytes) (c : Context) (message : Bytes)
    → Tracks c message
    → (c' : Context) × (update_all c inputs ≡ some c') × Tracks c' (message ++ concat inputs)
unfolding update_all concat
update_all-Tracks [] c message t = (c, refl, subst (Tracks c) (sym (append-nil message)) t)
update_all-Tracks (input ∷ inputs) c message t =
    let (c', found, t') = common_sha256_update-Tracks c message input t in
    let (c'', last, t'') = update_all-Tracks inputs c' (message ++ input) t' in
    (
      c'',
      rw (update_all, found) last,
      subst (Tracks c'') (append_assoc message input (concat inputs)) t'',
    )

-- However a message is cut into updates, all of them succeed and the hash at the end is that of the
-- whole message.
pub updates-reference :
    (context : Context) (inputs : List Bytes)
    → length context.block ≡ 64
    → (c : Context) × (update_all (common_sha256_init context) inputs ≡ some c)
      × ((common_sha256_final c).0 ≡ reference (concat inputs))
updates-reference context inputs h =
    let (c, found, t) =
      update_all-Tracks inputs (common_sha256_init context) [] (init-Tracks context h) in
    (c, found, common_sha256_final-reference c (concat inputs) t)
