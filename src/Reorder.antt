-- ===== src/Reorder.antt =====
-- include/naudio/PacketReorderBuffer.hpp, src/PacketReorderBuffer.cpp: packets that arrive ahead of
-- their place wait here until the gap before them closes, the window is full or they waited too
-- long. The calls of the emitter are the trace `emitted`, where `none` is the null pointer of a gap.
pub mod Valid
pub mod Flush
pub mod Calls
pub mod Slots
pub mod Hold
use naudio.Prelude.{
  ℕ, zero, suc, ◌+◌, ◌-◌, min, Option, none, some, List, [], ◌∷◌, ◌++◌, length, ltb, leb, ◌==◌,
  if◌then◌else◌,
}
use naudio.Prelude.Int.{ℤ, pos, negsuc, ◌-ℤ◌, leb_ℤ, ltb_ℤ}
use naudio.Packet.{AudioPacket}
use naudio.Assoc.{insert, erase, find, last_key}

-- `next_expected` is `none` for -1, before the first packet.
pub record Reorder : Type 0 where
  pub window_size : ℕ
  pub max_hold_ms : ℤ
  pub buffer : List (ℕ × AudioPacket)
  pub arrival_times : List (ℕ × ℤ)
  pub next_expected : Option ℕ
  pub packets_reordered : ℕ
  pub packets_dropped_late : ℕ
  pub gaps_emitted : ℕ
  pub emitted : List (Option AudioPacket)

-- The constructor; `none` where it throws `std::invalid_argument`.
unfoldable pub create : ℕ → ℤ → Option Reorder
create window_size max_hold_ms =
    if window_size == 0
    then none
    else if ltb_ℤ max_hold_ms (pos 0)
    then none
    else some (record {
      window_size = window_size;
      max_hold_ms = max_hold_ms;
      buffer = [];
      arrival_times = [];
      next_expected = none;
      packets_reordered = 0;
      packets_dropped_late = 0;
      gaps_emitted = 0;
      emitted = [];
    })

unfoldable pub emit : Option AudioPacket → Reorder → Reorder
emit p r = record r { emitted = r.emitted ++ p ∷ [] }

-- `for (g = 0; g < holes; ++g)`.
unfoldable pub emit_gaps : ℕ → Reorder → Reorder
unfolding emit
emit_gaps zero r = r
emit_gaps (suc holes) r =
    emit_gaps holes (emit none (record r { gaps_emitted = r.gaps_emitted + 1 }))

-- One round of `drainConsecutive`: the packet at `next` leaves the buffer.
unfoldable pub drain_one : ℕ → AudioPacket → Reorder → Reorder
unfolding emit
drain_one next p r =
    let taken = record r {
      buffer = erase next r.buffer;
      arrival_times = erase next r.arrival_times;
      packets_reordered = r.packets_reordered + 1;
    } in
    record (emit (some p) taken) { next_expected = some (next + 1) }

-- `drainConsecutive` from `next = nextExpected_` on, on fuel: each round empties the buffer by one.
unfoldable pub drain_consecutive : ℕ → ℕ → Reorder → Reorder
unfolding drain_one
drain_consecutive zero next r = r
drain_consecutive (suc fuel) next r = elim (find next r.buffer) [
  | none ↦ r
  | some p ↦ drain_consecutive fuel (next + 1) (drain_one next p r)
]

-- One round of the loop of `forceFlush`, over the entry `(seq, p)`. A buffered packet is never
-- before the cursor, so `seq - cursor` is not negative.
unfoldable pub flush_one : ℕ → ℕ → ℕ → AudioPacket → Reorder → Reorder
unfolding emit_gaps emit
flush_one start holes seq p r =
    let filled = emit_gaps holes r in
    emit (some p) (
      if seq == start
      then filled
      else record filled { packets_reordered = filled.packets_reordered + 1 })

-- The loop of `forceFlush` over the buffered packets in order.
unfoldable pub flush_loop : ℕ → List (ℕ × AudioPacket) → ℕ → ℕ → Reorder → Reorder
unfolding flush_one
flush_loop start [] cursor gap_budget r = r
flush_loop start ((seq, p) ∷ rest) cursor gap_budget r =
    let holes = min (seq - cursor) gap_budget in
    flush_loop start rest (seq + 1) (gap_budget - holes) (flush_one start holes seq p r)

-- `forceFlush` with `start = nextExpected_`.
unfoldable pub force_flush_from : ℕ → Reorder → Reorder
unfolding flush_loop
force_flush_from start r = elim r.buffer [
  | [] ↦ r
  | e ∷ rest ↦ record (flush_loop start r.buffer start r.window_size r) {
    buffer = [];
    arrival_times = [];
    next_expected = some (last_key start r.buffer + 1);
  }
]

-- A buffered packet implies that `nextExpected_` is set.
unfoldable pub force_flush : Reorder → Reorder
unfolding force_flush_from
force_flush r = elim r.next_expected [ none ↦ r | some start ↦ force_flush_from start r ]

-- `insertAt` once `nextExpected_` is set, to `next`.
unfoldable pub insert_expecting : AudioPacket → ℤ → ℕ → Reorder → Reorder
unfolding emit drain_consecutive force_flush_from
insert_expecting p now next r =
    let seq = p.sequence in
    let advanced = record (emit (some p) r) { next_expected = some (seq + 1) } in
    let held = record r {
      buffer = insert seq p r.buffer;
      arrival_times = insert seq now r.arrival_times;
    } in
    if ltb seq next
    then record r { packets_dropped_late = r.packets_dropped_late + 1 }
    else if seq == next
    then drain_consecutive (length r.buffer) (seq + 1) advanced
    else if leb r.window_size (length held.buffer)
    then force_flush_from next held
    else held

-- `insertAt`; the sequence is read as a `uint32_t`, which its bit pattern is.
unfoldable pub insert_at : AudioPacket → ℤ → Reorder → Reorder
unfolding insert_expecting
insert_at p now r = elim r.next_expected [
  | none ↦ insert_expecting p now p.sequence (record r { next_expected = some p.sequence })
  | some next ↦ insert_expecting p now next r
]

-- The least arrival time, from `oldest` on.
unfoldable pub oldest_arrival : ℤ → List (ℕ × ℤ) → ℤ
oldest_arrival oldest [] = oldest
oldest_arrival oldest ((k, t) ∷ rest) = oldest_arrival (if ltb_ℤ t oldest then t else oldest) rest

unfoldable pub check_timeout_at : ℤ → Reorder → Reorder
unfolding oldest_arrival force_flush
check_timeout_at now r = elim r.buffer [
  | [] ↦ r
  | e ∷ rest ↦ elim r.arrival_times [
    | [] ↦ r
    | (k, t) ∷ later ↦
        if leb_ℤ r.max_hold_ms (now -ℤ oldest_arrival t ((k, t) ∷ later)) then force_flush r else r
  ]
]

unfoldable pub buffered_count : Reorder → ℕ
buffered_count r = length r.buffer

-- `nextExpected()`.
unfoldable pub next_expected_or : Reorder → ℤ
next_expected_or r = elim r.next_expected [ none ↦ negsuc 0 | some next ↦ pos next ]

-- The trace of the emitter's calls is the emitter's, and stays.
unfoldable pub reset : Reorder → Reorder
reset r = record r {
  buffer = [];
  arrival_times = [];
  next_expected = none;
  packets_reordered = 0;
  packets_dropped_late = 0;
  gaps_emitted = 0;
}
