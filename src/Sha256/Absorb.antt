-- ===== src/Sha256/Absorb.antt =====
-- What a context has absorbed: whole blocks in the state, the rest of the message at the front of the
-- block. Updates extend the message, whatever the sizes of their inputs.
use unity_common.Base.{
  ℕ, zero, suc, ◌+◌, ◌-◌, ◌*◌, ◌%◌, ◌^◌, ◌≤◌, ◌<◌, ◌≡◌, refl, sym, ap, subst, ◌∙◌, inl, inr, some,
  [], ◌++◌, append_assoc, append-nil, arith, ltb, ◌==◌, Bool-cases, length, take, drop,
  length-append, length-take, length-drop, take-append, take-append-drop,
}
use unity_common.Base.Words.{Bytes}
use unity_common.Sha256.Compression.{sha256_transform}
use unity_common.Sha256.{
  Context, block_bytes, common_sha256_init, write_at, fill_block, flush_block, smaller, update_loop,
  common_sha256_update, initial_state,
}
use unity_common.Sha256.Reference.{fold_blocks, fold_blocks-snoc, take-all}

-- The state and the block after `full` and `part`, where `full` is `blocks` blocks.
pub record Holds (c : Context) (blocks : ℕ) (full part : Bytes) : Type 0 where
  pub whole : length full ≡ blocks * 64
  pub state : c.state ≡ fold_blocks sha256_transform 64 blocks initial_state full
  pub size : c.block_size ≡ length part
  pub short : length part < 64
  pub front : take c.block_size c.block ≡ part
  pub room : length c.block ≡ 64

pub record Absorbed (c : Context) (message : Bytes) : Type 0 where
  pub blocks : ℕ
  pub full : Bytes
  pub part : Bytes
  pub split : message ≡ full ++ part
  pub holds : Holds c blocks full part

-- A write of what fits behind the front keeps the length and extends the front.
pub length-write_at :
    (block : Bytes) (position : ℕ) (bytes : Bytes)
    → position + length bytes ≤ length block
    → length (write_at block position bytes) ≡ length block
unfolding write_at
length-write_at block position bytes h = omega (
  arith,
  length-append (take position block) (bytes ++ drop (position + length bytes) block),
  length-append bytes (drop (position + length bytes) block),
  length-take position block,
  length-drop (position + length bytes) block,
)

pub take-write_at :
    (block : Bytes) (position : ℕ) (bytes : Bytes)
    → position + length bytes ≤ length block
    → take (position + length bytes) (write_at block position bytes) ≡ take position block ++ bytes
unfolding write_at
take-write_at block position bytes h =
    let fronts : length (take position block ++ bytes) ≡ position + length bytes =
      omega (arith, length-append (take position block) bytes, length-take position block) in
    ap (take (position + length bytes))
      (sym (append_assoc (take position block) bytes (drop (position + length bytes) block)))
    ∙ subst
        (λ n.
          take n ((take position block ++ bytes) ++ drop (position + length bytes) block)
          ≡ take position block ++ bytes)
        fronts (take-append (take position block ++ bytes) (drop (position + length bytes) block))

-- One round of an update: the bytes that fit go behind the front, and a full block is transformed.
pub Absorbed-step :
    (c : Context) (message bytes : Bytes)
    → Absorbed c message
    → c.block_size + length bytes ≤ 64
    → Absorbed (flush_block (fill_block bytes c)) (message ++ bytes)
unfolding flush_block fill_block
Absorbed-step c message bytes a fits =
    let h = a.holds in
    let front : take (c.block_size + length bytes) (write_at c.block c.block_size bytes)
        ≡ a.part ++ bytes =
      take-write_at c.block c.block_size bytes (omega (arith, h.room))
      ∙ ap (λ l. l ++ bytes) h.front in
    let room : length (write_at c.block c.block_size bytes) ≡ 64 =
      length-write_at c.block c.block_size bytes (omega (arith, h.room)) ∙ h.room in
    let parts = length-append a.part bytes in
    let whole : message ++ bytes ≡ a.full ++ (a.part ++ bytes) =
      ap (λ l. l ++ bytes) a.split ∙ append_assoc a.full a.part bytes in
    elim (Bool-cases (c.block_size + length bytes == block_bytes)) [
      | inr e ↦ rw e (record {
        blocks = a.blocks;
        full = a.full;
        part = a.part ++ bytes;
        split = whole;
        holds = record {
          whole = h.whole;
          state = h.state;
          size = omega (arith, parts, h.size);
          short = ground (arith, e, parts, h.size);
          front = front;
          room = room;
        };
      })
      | inl e ↦
          let filled : c.block_size + length bytes ≡ 64 = ground (arith, e) in
          let block : write_at c.block c.block_size bytes ≡ a.part ++ bytes =
            sym (
              take-all (c.block_size + length bytes) (write_at c.block c.block_size bytes)
                (omega (arith, room, filled)))
            ∙ front in
          rw e (record {
            blocks = a.blocks + 1;
            full = a.full ++ (a.part ++ bytes);
            part = [];
            split = whole ∙ sym (append-nil (a.full ++ (a.part ++ bytes)));
            holds = record {
              whole =
                  omega
                    (arith, length-append a.full (a.part ++ bytes), parts, h.whole, h.size, filled);
              state =
                  ap (λ s. sha256_transform s (write_at c.block c.block_size bytes)) h.state
                  ∙ ap
                      (sha256_transform
                        (fold_blocks sha256_transform 64 a.blocks initial_state a.full))
                      block
                  ∙ sym (
                      fold_blocks-snoc sha256_transform 64 a.blocks initial_state a.full
                        (a.part ++ bytes) h.whole (omega (arith, parts, h.size, filled)));
              size = refl;
              short = omega arith;
              front = refl;
              room = room;
            };
          })
    ]

total_kept :
    (bytes : Bytes) (c : Context) → (flush_block (fill_block bytes c)).total_size ≡ c.total_size
unfolding flush_block fill_block
total_kept bytes c = ground arith

update_loop-Absorbed :
    (fuel : ℕ) (c : Context) (message input : Bytes)
    → Absorbed c message
    → length input < fuel
    → (c' : Context) × (update_loop fuel c input ≡ some c')
      × (c'.total_size ≡ c.total_size)
      × Absorbed c' (message ++ input)
unfolding update_loop
update_loop-Absorbed zero c message input a h = absurd (omega arith)
update_loop-Absorbed (suc fuel) c message input a h = elim (Bool-cases (ltb 0 (length input))) [
  | inr e ↦ (
    c,
    rw e refl,
    refl,
    subst (Absorbed c)
        (sym (append-nil message) ∙ ap (λ l. message ++ l) (take-all 0 input (ground (arith, e))))
        a,
  )
  | inl e ↦
      let n = smaller (length input) (64 - c.block_size) in
      let taken = length-take n input in
      let next =
        Absorbed-step c message (take n input) a
          (ground (arith, taken, a.holds.size, a.holds.short)) in
      let (c', found, total, after) =
        update_loop-Absorbed fuel (flush_block (fill_block (take n input) c))
          (message ++ take n input) (drop n input) next
          (ground (arith, length-drop n input, e, a.holds.size, a.holds.short)) in
      (
        c',
        rw e found,
        total ∙ total_kept (take n input) c,
        subst (Absorbed c')
            (append_assoc message (take n input) (drop n input)
              ∙ ap (λ l. message ++ l) (take-append-drop n input))
            after,
      )
]

-- A context that has absorbed a message, with the count of its bytes.
pub record Tracks (c : Context) (message : Bytes) : Type 0 where
  pub absorbed : Absorbed c message
  pub total : c.total_size ≡ length message % 2 ^ 64

pub init-Tracks : (c : Context) → length c.block ≡ 64 → Tracks (common_sha256_init c) []
unfolding fold_blocks
init-Tracks c h = record {
  absorbed = record {
    blocks = 0;
    full = [];
    part = [];
    split = refl;
    holds = record {
      whole = refl;
      state = refl;
      size = refl;
      short = omega arith;
      front = refl;
      room = h;
    };
  };
  total = refl;
}

counted :
    (c : Context) (total : ℕ) (message : Bytes)
    → Absorbed c message
    → Absorbed (record c { total_size = total }) message
counted c total message a = record {
  blocks = a.blocks;
  full = a.full;
  part = a.part;
  split = a.split;
  holds = record {
    whole = a.holds.whole;
    state = a.holds.state;
    size = a.holds.size;
    short = a.holds.short;
    front = a.holds.front;
    room = a.holds.room;
  };
}

-- An update always ends, and extends the message by its input.
pub common_sha256_update-Tracks :
    (c : Context) (message input : Bytes)
    → Tracks c message
    → (c' : Context) × (common_sha256_update c input ≡ some c') × Tracks c' (message ++ input)
unfolding common_sha256_update
common_sha256_update-Tracks c message input t =
    let total : ℕ = (c.total_size + length input) % 2 ^ 64 in
    let (c', found, same, a) =
      update_loop-Absorbed (suc (length input)) (record c { total_size = total }) message input
        (counted c total message t.absorbed) (omega arith) in
    (
      c',
      found,
      record { absorbed = a; total = same ∙ omega (arith, t.total, length-append message input) },
    )
