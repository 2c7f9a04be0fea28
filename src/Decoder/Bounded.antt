-- ===== src/Decoder/Bounded.antt =====
-- The bounds of `FecDecoder`: how much waits in the pending block, in the hold and in the record of
-- discarded sequence numbers.
use naudio.Prelude.{
  ℕ, ◌+◌, ◌≤◌, ◌≡◌, refl, inl, inr, none, Option-cases, List, [], ◌∷◌, arith, length,
}
use naudio.Prelude.Int.{ℤ}
use naudio.Packet.{AudioPacket}
use naudio.Assoc.{
  insert, erase, find, Above, AllEntries, insert-Above, erase-Above, insert-AllEntries,
  erase-AllEntries, find-AllEntries,
}
use naudio.Decoder.{
  Decoder, Block, SequenceSet, covers, cap_packets, cap_set, cap_pending, write_back,
  store_in_block, record_missing, matching_block_key, get_or_create_block, block_key,
}

-- The only block there ever is: the pending one, of size 0.
pub record IsPending (k : ℕ) (b : Block) : Type 0 where
  pub key_pending : k ≡ 0
  pub start_pending : b.start_seq ≡ 0
  pub size_zero : b.block_size ≡ 0

pub record IsSmall (k : ℕ) (b : Block) : Type 0 where
  pub packets_few : length b.packets ≤ 40
  pub missing_few : length b.missing_sequences ≤ 40

-- The blocks, and at most 40 discarded numbers as long as there is one.
pub record HasPending (blocks : List (ℕ × Block)) : Type 0 where
  pub ascending : Above 0 blocks
  pub pending : AllEntries IsPending blocks

pub record IsBlocks (blocks : List (ℕ × Block)) (discarded : SequenceSet) : Type 0 where
  pub shape : HasPending blocks
  pub small : AllEntries IsSmall blocks
  pub room : AllEntries (λ k b. length discarded ≤ 40) blocks
  pub recorded : length discarded ≤ 80

pub AllEntries_const {ℓ} :
    {A : Type ℓ} (P : Type 0) (m : List (ℕ × A)) → P → AllEntries (λ k a. P) m
AllEntries_const P [] h = tt
AllEntries_const P ((k, a) ∷ m) h = (h, AllEntries_const P m h)

-- A block of size 0 covers nothing.
pub matching_block_key-none :
    (sequence : ℕ) (blocks : List (ℕ × Block))
    → AllEntries IsPending blocks
    → matching_block_key sequence blocks ≡ none
unfolding matching_block_key covers
matching_block_key-none sequence [] h = refl
matching_block_key-none sequence ((k, b) ∷ blocks) h =
    ground (arith, matching_block_key-none sequence blocks, h.0)

pub block_key-pending :
    (sequence : ℕ) (d : Decoder) → AllEntries IsPending d.active_blocks → block_key sequence d ≡ 0
block_key-pending sequence d h =
    rw (matching_block_key-none sequence d.active_blocks h, block_key) refl

pub get_or_create-IsPending :
    (now : ℤ) (blocks : List (ℕ × Block))
    → AllEntries IsPending blocks
    → IsPending 0 (get_or_create_block now 0 blocks)
unfolding get_or_create_block
get_or_create-IsPending now blocks h = elim (Option-cases (find 0 blocks)) [
  | inl gone ↦
      rw (gone, get_or_create_block)
        (record { key_pending = refl; start_pending = refl; size_zero = refl })
  | inr (b, e) ↦
      let p = find-AllEntries IsPending 0 blocks h e in
      rw (e, get_or_create_block)
        (record { key_pending = refl; start_pending = p.start_pending; size_zero = p.size_zero })
]

pub insert-HasPending :
    (b : Block) (blocks : List (ℕ × Block))
    → IsPending 0 b
    → HasPending blocks
    → HasPending (insert 0 b blocks)
insert-HasPending b blocks p h = record {
  ascending = insert-Above 0 0 b blocks (omega arith) h.ascending;
  pending = insert-AllEntries IsPending 0 b blocks p h.pending;
}

pub erase-HasPending :
    (k : ℕ) (blocks : List (ℕ × Block)) → HasPending blocks → HasPending (erase k blocks)
erase-HasPending k blocks h = record {
  ascending = erase-Above 0 k blocks h.ascending;
  pending = erase-AllEntries IsPending k blocks h.pending;
}

length-cap_packets :
    (packets : List (ℕ × AudioPacket)) (discarded : SequenceSet) (n : ℕ)
    → length (cap_packets packets discarded n).0 ≤ 40
unfolding cap_packets
length-cap_packets [] discarded n = omega arith
length-cap_packets ((k, p) ∷ packets) discarded n =
    ground (arith, length-cap_packets packets (insert k tt discarded) (n + 1))

pub length-cap_set : (s : SequenceSet) → length (cap_set s) ≤ 40
unfolding cap_set
length-cap_set [] = omega arith
length-cap_set (e ∷ s) = ground (arith, length-cap_set s)

-- At most one block: the pending one comes alone.
pub alone :
    (P : ℕ → Block → Type 0) (b : Block) (blocks : List (ℕ × Block))
    → HasPending blocks
    → P 0 b
    → AllEntries P (insert 0 b blocks)
unfolding insert
alone P b [] h p = (p, tt)
alone P b ((j, c) ∷ []) h p = rw (h.pending.0.key_pending) (p, tt)
alone P b ((j, c) ∷ (i, a) ∷ rest) h p =
    absurd (omega (arith, h.ascending.1.0, h.pending.1.0.key_pending))

-- The fields that the calls of the pending block change.
abbrev pub Kept : Decoder → Decoder → Type 0
Kept d e = (e.held_packets ≡ d.held_packets) × (e.holding ≡ d.holding) × (e.emitted ≡ d.emitted)

pub cap_pending-IsBlocks :
    (b : Block) (d : Decoder)
    → IsPending 0 b
    → HasPending d.active_blocks
    → IsBlocks (cap_pending b d).active_blocks (cap_pending b d).discarded_sequences
unfolding cap_pending
cap_pending-IsBlocks b d p h =
    let few = length-cap_packets b.packets d.discarded_sequences d.pending_packets_discarded in
    let capped = cap_packets b.packets d.discarded_sequences d.pending_packets_discarded in
    let c : Block = record b {
      packets = capped.0;
      missing_sequences = cap_set b.missing_sequences;
    } in
    record {
      shape =
          insert-HasPending c d.active_blocks
            (record {
              key_pending = refl;
              start_pending = p.start_pending;
              size_zero = p.size_zero;
            })
            h;
      small =
          alone IsSmall c d.active_blocks h
            (record { packets_few = few; missing_few = length-cap_set b.missing_sequences });
      room =
          AllEntries_const (length (cap_set capped.1) ≤ 40) (insert 0 c d.active_blocks)
            (length-cap_set capped.1);
      recorded = omega (arith, length-cap_set capped.1);
    }

pub store_in_block-IsBlocks :
    (now : ℤ) (sequence : ℕ) (p : AudioPacket) (d : Decoder)
    → HasPending d.active_blocks
    → IsBlocks
        (store_in_block now sequence p d).active_blocks
        (store_in_block now sequence p d).discarded_sequences
unfolding store_in_block write_back
store_in_block-IsBlocks now sequence p d h =
    let b = get_or_create_block now 0 d.active_blocks in
    let q = get_or_create-IsPending now d.active_blocks h.pending in
    rw (block_key-pending sequence d h.pending) (
      cap_pending-IsBlocks (record b { packets = insert sequence p b.packets }) d
        (record { key_pending = refl; start_pending = q.start_pending; size_zero = q.size_zero }) h)

pub record_missing-IsBlocks :
    (now : ℤ) (sequence : ℕ) (d : Decoder)
    → HasPending d.active_blocks
    → IsBlocks
        (record_missing now sequence d).active_blocks
        (record_missing now sequence d).discarded_sequences
unfolding record_missing write_back
record_missing-IsBlocks now sequence d h =
    let b = get_or_create_block now 0 d.active_blocks in
    let q = get_or_create-IsPending now d.active_blocks h.pending in
    rw (block_key-pending sequence d h.pending) (
      cap_pending-IsBlocks (record b { missing_sequences = insert sequence tt b.missing_sequences })
        d (record { key_pending = refl; start_pending = q.start_pending; size_zero = q.size_zero })
        h)

pub store_in_block-Kept :
    (now : ℤ) (sequence : ℕ) (p : AudioPacket) (d : Decoder)
    → HasPending d.active_blocks
    → Kept d (store_in_block now sequence p d)
unfolding store_in_block write_back cap_pending
store_in_block-Kept now sequence p d h =
    rw (block_key-pending sequence d h.pending) (refl, refl, refl)

pub record_missing-Kept :
    (now : ℤ) (sequence : ℕ) (d : Decoder)
    → HasPending d.active_blocks
    → Kept d (record_missing now sequence d)
unfolding record_missing write_back cap_pending
record_missing-Kept now sequence d h =
    rw (block_key-pending sequence d h.pending) (refl, refl, refl)

-- Without the pending block there is none.
pub find_pending-none :
    (blocks : List (ℕ × Block)) → AllEntries IsPending blocks → find 0 blocks ≡ none → blocks ≡ []
unfolding find
find_pending-none [] h e = refl
find_pending-none ((k, b) ∷ blocks) h e = ground (arith, h.0.key_pending)

pub empty-IsBlocks : (discarded : SequenceSet) → length discarded ≤ 80 → IsBlocks [] discarded
empty-IsBlocks discarded h = record {
  shape = record { ascending = tt; pending = tt };
  small = tt;
  room = tt;
  recorded = h;
}
