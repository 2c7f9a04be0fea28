-- ===== src/Decoder/Refiled.antt =====
-- `FecDecoder::handleParity`: how the pending block is taken apart and filed again.
use naudio.Prelude.{
  ℕ, ◌≤◌, ◌≡◌, refl, sym, ◌∙◌, subst, inl, inr, Bool, true, false, Option-cases, List, [], ◌∷◌,
  length, if◌then◌else◌,
}
use naudio.Prelude.Int.{ℤ}
use naudio.Packet.{AudioPacket}
use naudio.Assoc.{insert, erase, find, erase-AllEntries, find-AllEntries}
use naudio.Decoder.{Decoder, Block, SequenceSet, pending_key, get_or_create_block, cap_pending}
use naudio.Decoder.Parity.{
  refile_packet, refile_missing, move_packets, move_missing, cap_refiled, opened_block,
  collect_pending, in_range,
}
use naudio.Decoder.Bounded.{
  IsPending, IsSmall, HasPending, IsBlocks, Kept, get_or_create-IsPending, insert-HasPending,
  erase-HasPending, cap_pending-IsBlocks, find_pending-none, empty-IsBlocks,
}

-- What refiling a pending packet leaves alone.
record Refiled (d e : Decoder) : Type 0 where
  shape : HasPending e.active_blocks
  discarded : e.discarded_sequences ≡ d.discarded_sequences
  kept : Kept d e

Refiled-trans : (a b c : Decoder) → Refiled a b → Refiled b c → Refiled a c
Refiled-trans a b c x y = record {
  shape = y.shape;
  discarded = y.discarded ∙ x.discarded;
  kept = (y.kept.0 ∙ x.kept.0, y.kept.1 ∙ x.kept.1, y.kept.2 ∙ x.kept.2);
}

Refiled-refl : (d : Decoder) → HasPending d.active_blocks → Refiled d d
Refiled-refl d h = record { shape = h; discarded = refl; kept = (refl, refl, refl) }

refile_packet-Refiled :
    (now : ℤ) (seq : ℕ) (p : AudioPacket) (d : Decoder)
    → HasPending d.active_blocks
    → Refiled d (refile_packet now seq p d)
unfolding refile_packet
refile_packet-Refiled now seq p d h =
    let q = get_or_create-IsPending now d.active_blocks h.pending in
    let b = get_or_create_block now 0 d.active_blocks in
    record {
      shape =
          insert-HasPending (record b { packets = insert seq p b.packets }) d.active_blocks
            (record {
              key_pending = refl;
              start_pending = q.start_pending;
              size_zero = q.size_zero;
            })
            h;
      discarded = refl;
      kept = (refl, refl, refl);
    }

refile_missing-Refiled :
    (now : ℤ) (seq : ℕ) (d : Decoder)
    → HasPending d.active_blocks
    → Refiled d (refile_missing now seq d)
unfolding refile_missing
refile_missing-Refiled now seq d h =
    let q = get_or_create-IsPending now d.active_blocks h.pending in
    let b = get_or_create_block now 0 d.active_blocks in
    record {
      shape =
          insert-HasPending (record b { missing_sequences = insert seq tt b.missing_sequences })
            d.active_blocks
            (record {
              key_pending = refl;
              start_pending = q.start_pending;
              size_zero = q.size_zero;
            })
            h;
      discarded = refl;
      kept = (refl, refl, refl);
    }

either :
    (c : Bool) (d e : Decoder)
    → HasPending d.active_blocks
    → Refiled d e
    → Refiled d (if c then d else e)
either true d e h r = Refiled-refl d h
either false d e h r = r

move_packets-Refiled :
    (now : ℤ) (start size : ℕ) (pending : List (ℕ × AudioPacket)) (b : Block) (d : Decoder)
    → HasPending d.active_blocks
    → Refiled d (move_packets now start size pending b d).1
unfolding move_packets
move_packets-Refiled now start size [] b d h = Refiled-refl d h
move_packets-Refiled now start size ((seq, p) ∷ pending) b d h =
    let inside = in_range start size seq in
    let e = (if inside then d else refile_packet now seq p d) in
    let first =
      either inside d (refile_packet now seq p d) h (refile_packet-Refiled now seq p d h) in
    Refiled-trans d e
      (move_packets now start size pending
        (if inside then record b { packets = insert seq p b.packets } else b) e).1
      first
      (move_packets-Refiled now start size pending
        (if inside then record b { packets = insert seq p b.packets } else b) e first.shape)

move_missing-Refiled :
    (now : ℤ) (start size : ℕ) (pending : SequenceSet) (b : Block) (d : Decoder)
    → HasPending d.active_blocks
    → Refiled d (move_missing now start size pending b d).1
unfolding move_missing
move_missing-Refiled now start size [] b d h = Refiled-refl d h
move_missing-Refiled now start size ((seq, t) ∷ pending) b d h =
    let inside = in_range start size seq in
    let e = (if inside then d else refile_missing now seq d) in
    let first = either inside d (refile_missing now seq d) h (refile_missing-Refiled now seq d h) in
    Refiled-trans d e
      (move_missing now start size pending
        (if inside then record b { missing_sequences = insert seq tt b.missing_sequences } else b)
        e).1
      first
      (move_missing-Refiled now start size pending
        (if inside then record b { missing_sequences = insert seq tt b.missing_sequences } else b) e
        first.shape)

-- The blocks are well formed, and the hold and the trace are those before.
pub record Settled (d e : Decoder) : Type 0 where
  pub blocks : IsBlocks e.active_blocks e.discarded_sequences
  pub kept : Kept d e

cap_refiled-Settled :
    (d : Decoder)
    → HasPending d.active_blocks
    → length d.discarded_sequences ≤ 80
    → Settled d (cap_refiled d)
unfolding cap_refiled
cap_refiled-Settled d h few = elim (Option-cases (find 0 d.active_blocks)) [
  | inl gone ↦
      rw (gone, cap_refiled)
        (record {
          blocks =
              subst (λ m. IsBlocks m d.discarded_sequences)
                (sym (find_pending-none d.active_blocks h.pending gone))
                (empty-IsBlocks d.discarded_sequences few);
          kept = (refl, refl, refl);
        })
  | inr (b, e) ↦
      rw (e, cap_refiled)
        (record {
          blocks =
              cap_pending-IsBlocks b d (find-AllEntries IsPending 0 d.active_blocks h.pending e) h;
          kept = unfold cap_pending in (refl, refl, refl);
        })
]

erase-IsBlocks :
    (k : ℕ) (blocks : List (ℕ × Block)) (s : SequenceSet)
    → IsBlocks blocks s
    → IsBlocks (erase k blocks) s
erase-IsBlocks k blocks s h = record {
  shape = erase-HasPending k blocks h.shape;
  small = erase-AllEntries IsSmall k blocks h.small;
  room = erase-AllEntries (λ k b. length s ≤ 40) k blocks h.room;
  recorded = h.recorded;
}

pub opened_block-Settled :
    (now : ℤ) (start size : ℕ) (d : Decoder)
    → IsBlocks d.active_blocks d.discarded_sequences
    → Settled d (opened_block now start size d).1
unfolding opened_block
opened_block-Settled now start size d h = elim (Option-cases (find start d.active_blocks)) [
  | inl gone ↦ rw (gone, opened_block) (record { blocks = h; kept = (refl, refl, refl) })
  | inr (b, e) ↦
      rw (e, opened_block)
        (record {
          blocks = erase-IsBlocks start d.active_blocks d.discarded_sequences h;
          kept = (refl, refl, refl);
        })
]

pub collect_pending-Settled :
    (now : ℤ) (start size : ℕ) (b : Block) (d : Decoder)
    → IsBlocks d.active_blocks d.discarded_sequences
    → Settled d (collect_pending now start size b d).1
unfolding collect_pending
collect_pending-Settled now start size b d h = elim (Option-cases (find 0 d.active_blocks)) [
  | inl gone ↦ rw (gone, collect_pending) (record { blocks = h; kept = (refl, refl, refl) })
  | inr (pending, e) ↦
      rw (e, collect_pending)
        (let emptied = record d { active_blocks = erase pending_key d.active_blocks } in
          let m1 = move_packets now start size pending.packets b emptied in
          let r1 =
            move_packets-Refiled now start size pending.packets b emptied
              (erase-HasPending 0 d.active_blocks h.shape) in
          let m2 = move_missing now start size pending.missing_sequences m1.0 m1.1 in
          let r2 =
            Refiled-trans emptied m1.1 m2.1 r1
              (move_missing-Refiled now start size pending.missing_sequences m1.0 m1.1 r1.shape) in
          let s = cap_refiled-Settled m2.1 r2.shape (rw r2.discarded h.recorded) in
          record {
            blocks = s.blocks;
            kept = (s.kept.0 ∙ r2.kept.0, s.kept.1 ∙ r2.kept.1, s.kept.2 ∙ r2.kept.2);
          })
]
