-- ===== src/Decoder/Process.antt =====
-- src/FecDecoder.cpp: `process`, `processPacket`, `checkTimeoutAt` and `reset`.
use naudio.Prelude.{
  ℕ, zero, suc, ◌+◌, ◌^◌, Bool, true, false, Option, none, some, List, [], ◌∷◌, length, ltb, ◌==◌,
  if◌then◌else◌,
}
use naudio.Prelude.Int.{ℤ, ◌-ℤ◌, ltb_ℤ}
use naudio.Packet.{AudioPacket, PacketType, fec_parity}
use naudio.Assoc.{insert, erase}
use naudio.Decoder.{
  Decoder, Block, SequenceSet, pending_key, max_held_packets, biased, emit, live, detected_gap,
  note_sequence, begin_hold, release_held, store_in_block, record_missing,
}
use naudio.Decoder.Parity.{handle_parity}

unfoldable pub process_parity : ℕ → ℤ → AudioPacket → Decoder → Decoder
unfolding note_sequence handle_parity release_held
process_parity stamp now p d =
    release_held (handle_parity stamp now p (note_sequence (biased p.sequence) d))

-- A gap before `seq` opens a hold at its first slot.
unfoldable pub note_gap : ℕ → Decoder → Decoder
unfolding detected_gap note_sequence begin_hold
note_gap seq d =
    let noted = note_sequence seq d in
    elim (detected_gap seq d) [ none ↦ noted | some gap_start ↦ begin_hold gap_start noted ]

-- The packet in an open hold.
unfoldable pub hold_packet : ℤ → ℕ → AudioPacket → Decoder → Decoder
unfolding store_in_block release_held
hold_packet now seq p d =
    let held = record d {
      held_packets = insert seq (record { packet = p; provenance = live }) d.held_packets;
    } in
    let stored = store_in_block now seq p held in
    if ltb max_held_packets (length stored.held_packets) then release_held stored else stored

unfoldable pub process_member : ℤ → ℕ → AudioPacket → Decoder → Decoder
unfolding note_gap hold_packet emit store_in_block
process_member now seq p d =
    let noted = note_gap seq d in
    if noted.holding
    then hold_packet now seq p noted
    else store_in_block now seq p (emit (some p) live noted)

abbrev pub is_parity : PacketType → Bool
is_parity fec_parity = true
is_parity _ = false

-- `process`: `sequence` is a bit pattern, `now` the decoder's clock and `stamp` that of the packets'
-- constructor. Each is read once in a call.
unfoldable pub process : ℕ → ℤ → Option AudioPacket → ℕ → Decoder → Decoder
unfolding process_parity process_member begin_hold record_missing
process stamp now none sequence d =
    record_missing now (biased sequence) (begin_hold (biased sequence) d)
process stamp now (some p) sequence d =
    if is_parity p.packet_type
    then process_parity stamp now p d
    else process_member now (biased sequence) p d

unfoldable pub process_packet : ℕ → ℤ → AudioPacket → Decoder → Decoder
unfolding process
process_packet stamp now p d = process stamp now (some p) p.sequence d

unfoldable pub expired : ℤ → ℕ → Block → Decoder → Bool
expired now key b d =
    let limit_ms = if key == pending_key then d.pending_idle_ms else d.block_timeout_ms in
    ltb_ℤ limit_ms (now -ℤ b.touched_at_ms)

unfoldable pub insert_keys : List (ℕ × AudioPacket) → SequenceSet → SequenceSet
insert_keys [] s = s
insert_keys ((k, p) ∷ m) s = insert_keys m (insert k tt s)

-- An expired block is erased, and its packets are recorded as discarded.
unfoldable pub give_up : ℕ → Block → Decoder → Decoder
unfolding insert_keys
give_up key b d = record d {
  active_blocks = erase key d.active_blocks;
  discarded_sequences = insert_keys b.packets d.discarded_sequences;
  fec_blocks_failed = d.fec_blocks_failed + elim b.missing_sequences [ [] ↦ 0 | e ∷ s ↦ 1 ];
  pending_packets_discarded = d.pending_packets_discarded + length b.packets;
}

-- The loop over the blocks, with the number of gaps to emit.
unfoldable pub sweep : ℤ → List (ℕ × Block) → Decoder → ℕ × Decoder
unfolding expired give_up
sweep now [] d = (0, d)
sweep now ((key, b) ∷ blocks) d =
    let late = expired now key b d in
    let (n, swept) = sweep now blocks (if late then give_up key b d else d) in
    ((if late then length b.missing_sequences else 0) + n, swept)

unfoldable pub emit_gaps : ℕ → Decoder → Decoder
unfolding emit
emit_gaps zero d = d
emit_gaps (suc n) d = emit_gaps n (emit none live d)

unfoldable pub check_timeout_at : ℤ → Decoder → Decoder
unfolding sweep emit_gaps release_held
check_timeout_at now d =
    let (n, swept) = sweep now d.active_blocks d in release_held (emit_gaps n swept)

-- The trace of the emitter's calls is the emitter's, and stays.
unfoldable pub reset : Decoder → Decoder
reset d = record d {
  active_blocks = [];
  discarded_sequences = [];
  held_packets = [];
  holding = false;
  hold_base_seq = 2 ^ 31;
  next_expected_seq = 0x7fffffff;
  packets_recovered_by_fec = 0;
  fec_blocks_complete = 0;
  fec_blocks_failed = 0;
  fec_blocks_unreconciled = 0;
  pending_packets_discarded = 0;
}
