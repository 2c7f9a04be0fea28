-- ===== src/Decoder.antt =====
-- include/naudio/FecDecoder.hpp, include/naudio/Provenance.hpp, src/FecDecoder.cpp: the packets that
-- wait for their block's parity, and the hold that keeps what follows a gap until the block is
-- resolved. The calls of the emitter are the trace `emitted`, where `none` is the null pointer of a
-- gap. A sequence number x, an `int32_t`, is kept as x + 2 ^ 31 in the state, so that the order of
-- the maps is that of the numbers; `biased` is the way from a bit pattern, and back.
pub mod Parity
pub mod Process
pub mod Trace
pub mod Bounded
pub mod Refiled
pub mod Resolved
pub mod Calls
pub mod Sorting
pub mod Slots
pub mod Outcome
pub mod Stream
pub mod Arrivals
pub mod OneLost
pub mod Paused
pub mod Handled
pub mod Repair
pub mod Header
pub mod Roundtrip
pub mod Live
use naudio.Prelude.{
  ℕ, suc, ◌+◌, ◌%◌, ◌^◌, Bool, true, false, ◌&&◌, Option, none, some, List, [], ◌∷◌, ◌++◌, length,
  ltb, leb, ◌==◌, if◌then◌else◌,
}
use naudio.Prelude.Int.{ℤ, pos, ◌*ℤ◌, ltb_ℤ}
use naudio.Prelude.Word.{add_u32, sub_u32}
use naudio.Packet.{AudioPacket, PacketType, audio_rx, audio_tx}
use naudio.Assoc.{insert, find}

pub data Provenance : Type 0 where
  live recovered : Provenance

abbrev pub max_pending_packets : ℕ
max_pending_packets = 40

abbrev pub max_held_packets : ℕ
max_held_packets = 20

abbrev pub min_pending_idle_ms : ℤ
min_pending_idle_ms = pos 120

abbrev pub max_pending_idle_ms : ℤ
max_pending_idle_ms = pos 500

abbrev pub biased : ℕ → ℕ
biased w = add_u32 w (2 ^ 31)

-- The least `int32_t`.
abbrev pub pending_key : ℕ
pending_key = 0

-- A `std::set` of sequence numbers.
abbrev pub SequenceSet : Type 0
SequenceSet = List (ℕ × Unit {0})

-- `FecBlock`.
pub record Block : Type 0 where
  pub start_seq : ℕ
  pub block_size : ℕ
  pub touched_at_ms : ℤ
  pub packets : List (ℕ × AudioPacket)
  pub missing_sequences : SequenceSet

abbrev pub new_block : ℕ → ℕ → ℤ → Block
new_block s bs touched = record {
  start_seq = s;
  block_size = bs;
  touched_at_ms = touched;
  packets = [];
  missing_sequences = [];
}

unfoldable pub covers : Block → ℕ → Bool
covers b sequence = leb b.start_seq sequence && ltb sequence (b.start_seq + b.block_size)

pub record HeldPacket : Type 0 where
  pub packet : AudioPacket
  pub provenance : Provenance

pub record Decoder : Type 0 where
  pub block_timeout_ms : ℤ
  pub pending_idle_ms : ℤ
  pub active_blocks : List (ℕ × Block)
  pub discarded_sequences : SequenceSet
  pub held_packets : List (ℕ × HeldPacket)
  pub holding : Bool
  pub hold_base_seq : ℕ
  pub next_expected_seq : ℕ
  pub packets_recovered_by_fec : ℕ
  pub fec_blocks_complete : ℕ
  pub fec_blocks_failed : ℕ
  pub fec_blocks_unreconciled : ℕ
  pub pending_packets_discarded : ℕ
  pub emitted : List (Option AudioPacket × Provenance)

-- The constructor: `hold_base_seq` is 0 and `next_expected_seq` is -1.
unfoldable pub create : ℤ → Decoder
create block_timeout_ms = record {
  block_timeout_ms = block_timeout_ms;
  pending_idle_ms = block_timeout_ms *ℤ pos 2;
  active_blocks = [];
  discarded_sequences = [];
  held_packets = [];
  holding = false;
  hold_base_seq = 2 ^ 31;
  next_expected_seq = 0x7fffffff;
  packets_recovered_by_fec = 0;
  fec_blocks_complete = 0;
  fec_blocks_failed = 0;
  fec_blocks_unreconciled = 0;
  pending_packets_discarded = 0;
  emitted = [];
}

-- `std::clamp`.
unfoldable pub set_pending_idle_timeout_ms : ℤ → Decoder → Decoder
set_pending_idle_timeout_ms idle_ms d = record d {
  pending_idle_ms =
      if ltb_ℤ idle_ms min_pending_idle_ms
      then min_pending_idle_ms
      else if ltb_ℤ max_pending_idle_ms idle_ms
      then max_pending_idle_ms
      else idle_ms;
}

unfoldable pub is_audio : PacketType → Bool
is_audio audio_rx = true
is_audio audio_tx = true
is_audio _ = false

unfoldable pub emit : Option AudioPacket → Provenance → Decoder → Decoder
emit p provenance d = record d { emitted = d.emitted ++ (p, provenance) ∷ [] }

-- What `noteSequenceAndDetectGap` returns. The first test is that of `nextExpectedSeq_ < 0`.
unfoldable pub detected_gap : ℕ → Decoder → Option ℕ
detected_gap sequence d =
    let ahead = sub_u32 sequence d.next_expected_seq in
    if ltb d.next_expected_seq (2 ^ 31)
    then none
    else if leb (2 ^ 31) ahead
    then none
    else if ahead == 0
    then none
    else some d.next_expected_seq

-- What `noteSequenceAndDetectGap` does to the state.
unfoldable pub note_sequence : ℕ → Decoder → Decoder
note_sequence sequence d =
    let ahead = sub_u32 sequence d.next_expected_seq in
    let noted = record d { next_expected_seq = add_u32 sequence 1 } in
    if ltb d.next_expected_seq (2 ^ 31) then noted else if leb (2 ^ 31) ahead then d else noted

unfoldable pub begin_hold : ℕ → Decoder → Decoder
begin_hold base_seq d =
    if d.holding then d else record d { holding = true; hold_base_seq = base_seq }

-- The place of a held packet behind the start of the hold, as a `uint32_t`.
unfoldable pub rank : ℕ → HeldPacket → ℕ
rank base h = sub_u32 (biased h.packet.sequence) base

-- `std::stable_sort` by the rank: a packet goes before the ones of the same rank that follow it.
unfoldable pub place : ℕ → HeldPacket → List HeldPacket → List HeldPacket
unfolding rank
place base h [] = h ∷ []
place base h (g ∷ gs) =
    let rest = place base h gs in if leb (rank base h) (rank base g) then h ∷ g ∷ gs else g ∷ rest

unfoldable pub stable_sort : ℕ → List (ℕ × HeldPacket) → List HeldPacket
unfolding place
stable_sort base [] = []
stable_sort base ((k, h) ∷ m) = place base h (stable_sort base m)

unfoldable pub emit_all : List HeldPacket → Decoder → Decoder
unfolding emit
emit_all [] d = d
emit_all (h ∷ hs) d = emit_all hs (emit (some h.packet) h.provenance d)

unfoldable pub release_held : Decoder → Decoder
unfolding stable_sort emit_all
release_held d =
    let ordered = stable_sort d.hold_base_seq d.held_packets in
    let settled = record d { held_packets = []; holding = false } in
    if d.holding then emit_all ordered settled else d

unfoldable pub matching_block_key : ℕ → List (ℕ × Block) → Option ℕ
unfolding covers
matching_block_key sequence [] = none
matching_block_key sequence ((k, b) ∷ blocks) =
    if covers b sequence then some k else matching_block_key sequence blocks

-- The block that `getOrCreateBlock` returns a reference to; the caller writes it back.
unfoldable pub get_or_create_block : ℤ → ℕ → List (ℕ × Block) → Block
get_or_create_block now key blocks = elim (find key blocks) [
  | none ↦ new_block pending_key 0 now
  | some b ↦ if key == pending_key then record b { touched_at_ms = now } else b
]

-- The loop over the packets in `capPending`: the first ones are discarded, and counted.
unfoldable pub cap_packets :
    List (ℕ × AudioPacket) → SequenceSet → ℕ → List (ℕ × AudioPacket) × SequenceSet × ℕ
cap_packets [] discarded n = ([], discarded, n)
cap_packets ((k, p) ∷ packets) discarded n =
    let rest = cap_packets packets (insert k tt discarded) (n + 1) in
    if ltb max_pending_packets (suc (length packets))
    then rest
    else ((k, p) ∷ packets, discarded, n)

-- `while (s.size() > MAX_PENDING_PACKETS) s.erase(s.begin())`.
unfoldable pub cap_set : SequenceSet → SequenceSet
cap_set [] = []
cap_set (e ∷ s) =
    let rest = cap_set s in if ltb max_pending_packets (suc (length s)) then rest else e ∷ s

-- `capPending` on the pending block, which is written back.
unfoldable pub cap_pending : Block → Decoder → Decoder
unfolding cap_packets cap_set
cap_pending b d =
    let (packets, discarded, n) =
      cap_packets b.packets d.discarded_sequences d.pending_packets_discarded in
    record d {
      active_blocks =
          insert pending_key
            (record b { packets = packets; missing_sequences = cap_set b.missing_sequences })
            d.active_blocks;
      discarded_sequences = cap_set discarded;
      pending_packets_discarded = n;
    }

-- A changed block is written back, capped if it is the pending one.
unfoldable pub write_back : ℕ → Block → Decoder → Decoder
unfolding cap_pending
write_back key b d =
    if key == pending_key
    then cap_pending b d
    else record d { active_blocks = insert key b d.active_blocks }

abbrev pub block_key : ℕ → Decoder → ℕ
block_key sequence d = elim (matching_block_key sequence d.active_blocks) [
  | none ↦ pending_key
  | some k ↦ k
]

unfoldable pub store_in_block : ℤ → ℕ → AudioPacket → Decoder → Decoder
unfolding matching_block_key get_or_create_block write_back
store_in_block now sequence p d =
    let key = block_key sequence d in
    let b = get_or_create_block now key d.active_blocks in
    write_back key (record b { packets = insert sequence p b.packets }) d

unfoldable pub record_missing : ℤ → ℕ → Decoder → Decoder
unfolding matching_block_key get_or_create_block write_back
record_missing now sequence d =
    let key = block_key sequence d in
    let b = get_or_create_block now key d.active_blocks in
    write_back key (record b { missing_sequences = insert sequence tt b.missing_sequences }) d
