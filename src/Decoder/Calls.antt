-- ===== src/Decoder/Calls.antt =====
-- The calls of `FecDecoder`, and its bounds over a run of them.
use naudio.Prelude.{
  ℕ, ◌+◌, ◌^◌, ◌≤◌, ◌≡◌, refl, sym, ◌∙◌, subst, inl, inr, Bool, true, false, Option, none, some,
  Option-cases, List, [], ◌∷◌, arith, length, ltb, leb, ==_iff, Bool-cases, if◌then◌else◌,
}
use naudio.Prelude.Int.{ℤ}
use naudio.Prelude.Word.{add_u32, sub_u32}
use naudio.Packet.{AudioPacket}
use naudio.Assoc.{insert, erase, length-insert}
use naudio.Decoder.{
  Decoder, Block, SequenceSet, create, set_pending_idle_timeout_ms, emit, live, biased,
  detected_gap, note_sequence, begin_hold, store_in_block, matching_block_key,
}
use naudio.Decoder.Process.{
  process_parity, note_gap, hold_packet, process_member, process, is_parity, expired, insert_keys,
  give_up, sweep, emit_gaps, check_timeout_at, reset,
}
use naudio.Decoder.Trace.{emit_gaps_lem}
use naudio.Decoder.Bounded.{
  IsBlocks, store_in_block-IsBlocks, store_in_block-Kept, record_missing-IsBlocks,
  record_missing-Kept, empty-IsBlocks, matching_block_key-none,
}
use naudio.Decoder.Resolved.{
  IsLoose, IsBounded, branch, handle_parity-IsLoose, release_held-IsBounded,
}

note_sequence-IsBounded : (seq : ℕ) (d : Decoder) → IsBounded d → IsBounded (note_sequence seq d)
unfolding note_sequence
note_sequence-IsBounded seq d h =
    branch IsBounded (ltb d.next_expected_seq (2 ^ 31)) noted
      (branch IsBounded (leb (2 ^ 31) (sub_u32 seq d.next_expected_seq)) h noted)
  where
    noted : IsBounded (record d { next_expected_seq = add_u32 seq 1 })
    noted = record { blocks = h.blocks; idle = h.idle; held_few = h.held_few }

begin_hold-IsBounded : (seq : ℕ) (d : Decoder) → IsBounded d → IsBounded (begin_hold seq d)
unfolding begin_hold
begin_hold-IsBounded seq d h =
    branch IsBounded d.holding h
      (record { blocks = h.blocks; idle = λ e. absurd (cc); held_few = h.held_few })

loosened : (d : Decoder) → IsBounded d → IsLoose d
loosened d h = record { blocks = h.blocks; idle = h.idle }

process_parity-IsBounded :
    (stamp : ℕ) (now : ℤ) (p : AudioPacket) (d : Decoder)
    → IsBounded d
    → IsBounded (process_parity stamp now p d)
unfolding process_parity
process_parity-IsBounded stamp now p d h =
    let e = note_sequence (biased p.sequence) d in
    release_held-IsBounded _ (
      handle_parity-IsLoose stamp now p e
        (loosened e (note_sequence-IsBounded (biased p.sequence) d h)))

note_gap-IsBounded : (seq : ℕ) (d : Decoder) → IsBounded d → IsBounded (note_gap seq d)
unfolding note_gap
note_gap-IsBounded seq d h = elim (Option-cases (detected_gap seq d)) [
  | inl gone ↦ rw (gone, note_gap) (note_sequence-IsBounded seq d h)
  | inr (g, e) ↦
      rw (e, note_gap)
        (begin_hold-IsBounded g (note_sequence seq d) (note_sequence-IsBounded seq d h))
]

hold_packet-IsBounded :
    (now : ℤ) (seq : ℕ) (p : AudioPacket) (d : Decoder)
    → d.holding ≡ true
    → IsBounded d
    → IsBounded (hold_packet now seq p d)
unfolding hold_packet
hold_packet-IsBounded now seq p d open_hold h =
    elim (Bool-cases (ltb 20 (length stored.held_packets))) [
      | inl many ↦ rw many (release_held-IsBounded stored loose)
      | inr few ↦ rw few (record {
        blocks = loose.blocks;
        idle = loose.idle;
        held_few = few_le (length stored.held_packets) few;
      })
    ]
  where
    held : Decoder
    held = record d {
      held_packets = insert seq (record { packet = p; provenance = live }) d.held_packets;
    }

    stored : Decoder
    stored = store_in_block now seq p held

    loose : IsLoose stored
    loose = record {
      blocks = store_in_block-IsBlocks now seq p held h.blocks.shape;
      idle = λ shut. absurd (
          let clash =
            sym ((store_in_block-Kept now seq p held h.blocks.shape).1 ∙ open_hold) ∙ shut in
          cc);
    }

    few_le : (n : ℕ) → ltb 20 n ≡ false → n ≤ 20
    few_le n e = ground arith

process_member-IsBounded :
    (now : ℤ) (seq : ℕ) (p : AudioPacket) (d : Decoder)
    → IsBounded d
    → IsBounded (process_member now seq p d)
unfolding process_member emit
process_member-IsBounded now seq p d h = go (note_gap seq d).holding refl
  where
    noted : IsBounded (note_gap seq d)
    noted = note_gap-IsBounded seq d h

    go :
        (c : Bool)
        → (note_gap seq d).holding ≡ c
        → IsBounded (
            if c
            then hold_packet now seq p (note_gap seq d)
            else store_in_block now seq p (emit (some p) live (note_gap seq d)))
    go true open_hold = hold_packet-IsBounded now seq p (note_gap seq d) open_hold noted
    go false shut =
        let e = emit (some p) live (note_gap seq d) in
        let kept = store_in_block-Kept now seq p e noted.blocks.shape in
        record {
          blocks = store_in_block-IsBlocks now seq p e noted.blocks.shape;
          idle = λ s. kept.0 ∙ noted.idle (sym kept.1 ∙ s);
          held_few = rw kept.0 noted.held_few;
        }

process-IsBounded :
    (stamp : ℕ) (now : ℤ) (p : Option AudioPacket) (sequence : ℕ) (d : Decoder)
    → IsBounded d
    → IsBounded (process stamp now p sequence d)
unfolding process
process-IsBounded stamp now none sequence d h =
    let e = begin_hold (biased sequence) d in
    let b = begin_hold-IsBounded (biased sequence) d h in
    let kept = record_missing-Kept now (biased sequence) e b.blocks.shape in
    record {
      blocks = record_missing-IsBlocks now (biased sequence) e b.blocks.shape;
      idle = λ s. kept.0 ∙ b.idle (sym kept.1 ∙ s);
      held_few = rw kept.0 b.held_few;
    }
process-IsBounded stamp now (some p) sequence d h =
    branch IsBounded (is_parity p.packet_type) (process_parity-IsBounded stamp now p d h)
      (process_member-IsBounded now (biased sequence) p d h)

length-insert_keys :
    (m : List (ℕ × AudioPacket)) (s : SequenceSet) → length (insert_keys m s) ≤ length s + length m
unfolding insert_keys
length-insert_keys [] s = omega arith
length-insert_keys ((k, p) ∷ m) s =
    omega (arith, length-insert_keys m (insert k tt s), length-insert k tt s)

-- An expired block was the only one.
give_up-IsLoose :
    (k : ℕ) (b : Block) (d : Decoder)
    → d.active_blocks ≡ (k, b) ∷ []
    → IsBounded d
    → IsLoose (give_up k b d)
unfolding give_up erase
give_up-IsLoose k b d only h =
    let bs = subst (λ m. IsBlocks m d.discarded_sequences) only h.blocks in
    record {
      blocks =
          rw (only, (==_iff k k).1 refl)
            (empty-IsBlocks (insert_keys b.packets d.discarded_sequences) (
              omega (
                arith,
                length-insert_keys b.packets d.discarded_sequences,
                bs.room.0,
                bs.small.0.packets_few,
              )));
      idle = h.idle;
    }

sweep-IsLoose :
    (now : ℤ) (blocks : List (ℕ × Block)) (d : Decoder)
    → d.active_blocks ≡ blocks
    → IsBounded d
    → IsLoose (sweep now blocks d).1
unfolding sweep
sweep-IsLoose now [] d e h = loosened d h
sweep-IsLoose now ((k, b) ∷ []) d e h =
    branch IsLoose (expired now k b d) (give_up-IsLoose k b d e h) (loosened d h)
sweep-IsLoose now ((k, b) ∷ (j, c) ∷ rest) d e h =
    let bs = subst (λ m. IsBlocks m d.discarded_sequences) e h.blocks in
    absurd (omega (arith, bs.shape.ascending.1.0, bs.shape.pending.1.0.key_pending))

check_timeout_at-IsBounded :
    (now : ℤ) (d : Decoder) → IsBounded d → IsBounded (check_timeout_at now d)
unfolding check_timeout_at
check_timeout_at-IsBounded now d h =
    let s = sweep now d.active_blocks d in
    let loose = sweep-IsLoose now d.active_blocks d refl h in
    release_held-IsBounded (emit_gaps s.0 s.1)
      (rw (emit_gaps_lem s.0 s.1) (record { blocks = loose.blocks; idle = loose.idle }))

-- The calls of a client.
pub data Call : Type 0 where
  arrive : ℕ → ℤ → Option AudioPacket → ℕ → Call
  tick : ℤ → Call
  idle_after : ℤ → Call
  restart : Call

abbrev pub call : Call → Decoder → Decoder
call (arrive stamp now p sequence) d = process stamp now p sequence d
call (tick now) d = check_timeout_at now d
call (idle_after idle_ms) d = set_pending_idle_timeout_ms idle_ms d
call restart d = reset d

abbrev pub run : List Call → Decoder → Decoder
run [] d = d
run (c ∷ cs) d = run cs (call c d)

pub call-IsBounded : (c : Call) (d : Decoder) → IsBounded d → IsBounded (call c d)
unfolding set_pending_idle_timeout_ms reset
call-IsBounded (arrive stamp now p sequence) d h = process-IsBounded stamp now p sequence d h
call-IsBounded (tick now) d h = check_timeout_at-IsBounded now d h
call-IsBounded (idle_after idle_ms) d h = record {
  blocks = h.blocks;
  idle = h.idle;
  held_few = h.held_few;
}
call-IsBounded restart d h = record {
  blocks = empty-IsBlocks [] (omega arith);
  idle = λ e. refl;
  held_few = omega arith;
}

run-IsBounded : (cs : List Call) (d : Decoder) → IsBounded d → IsBounded (run cs d)
run-IsBounded [] d h = h
run-IsBounded (c ∷ cs) d h = run-IsBounded cs (call c d) (call-IsBounded c d h)

pub fresh-IsBounded : (block_timeout_ms : ℤ) → IsBounded (create block_timeout_ms)
unfolding create
fresh-IsBounded block_timeout_ms = record {
  blocks = empty-IsBlocks [] (omega arith);
  idle = λ e. refl;
  held_few = omega arith;
}

-- After any run of `process` with packets and gap markers, `checkTimeoutAt`,
-- `setPendingIdleTimeoutMs` and `reset` on a new decoder: no block but the pending one is active and
-- none covers any sequence number; it holds at most 40 packets and 40 missing numbers; at most 80
-- numbers are recorded as discarded, 40 while the block is there; at most 20 packets are held, and
-- none outside a hold.
pub fresh-run-IsBounded :
    (block_timeout_ms : ℤ) (cs : List Call)
    → IsBounded (run cs (create block_timeout_ms))
      × ((sequence : ℕ)
          → matching_block_key sequence (run cs (create block_timeout_ms)).active_blocks ≡ none)
fresh-run-IsBounded block_timeout_ms cs =
    (bounded, λ sequence. matching_block_key-none sequence _ bounded.blocks.shape.pending)
  where
    bounded : IsBounded (run cs (create block_timeout_ms))
    bounded = run-IsBounded cs (create block_timeout_ms) (fresh-IsBounded block_timeout_ms)
