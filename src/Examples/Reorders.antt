-- ===== src/Examples/Reorders.antt =====
-- `PacketReorderBuffer` with a window of four packets and a hold of 20 milliseconds.
use naudio.Prelude.{ℕ, ◌≡◌, refl, arith, List, [], ◌∷◌, ◌++◌, none, some}
use Prim.Native.Nat.{◌+◌, ◌-◌, ◌≤◌}
use naudio.Prelude.Int.{pos}
use naudio.Packet.{AudioPacket, audio_rx}
use naudio.Assoc.{insert, AllEntries}
use naudio.Reorder.{Reorder, create, insert_at, check_timeout_at, force_flush, force_flush_from}
use naudio.Reorder.Valid.{IsOrdered}
use naudio.Reorder.Flush.{end_of}
use naudio.Reorder.Calls.{Call, arrive, flush, run, fresh-run-IsOrdered}
use naudio.Reorder.Slots.{slots, flush-gaps, flush-slots}
use naudio.Reorder.Hold.{IsFresh, check_timeout_at-IsFresh}

abbrev at_place : ℕ → AudioPacket
at_place k = record {
  version = 1;
  packet_type = audio_rx;
  flags = 0;
  sequence = k;
  timestamp = 0;
  payload = [];
}

abbrev fresh : Reorder
fresh = record {
  window_size = 4;
  max_hold_ms = pos 20;
  buffer = [];
  arrival_times = [];
  next_expected = none;
  packets_reordered = 0;
  packets_dropped_late = 0;
  gaps_emitted = 0;
  emitted = [];
}

created : create 4 (pos 20) ≡ some fresh
unfolding create
created = refl

abbrev arrivals : List Call
arrivals =
    arrive (at_place 5) (pos 0) ∷ arrive (at_place 8) (pos 1) ∷ arrive (at_place 7) (pos 2) ∷ []

fresh-run-IsOrdered_example : IsOrdered (run arrivals fresh)
fresh-run-IsOrdered_example = fresh-run-IsOrdered 4 (pos 20) fresh arrivals created

ordered : IsOrdered (run arrivals fresh)
ordered = fresh-run-IsOrdered 4 (pos 20) fresh arrivals created

waiting : (run arrivals fresh).buffer ≡ (7, at_place 7) ∷ (8, at_place 8) ∷ []
unfolding insert_at insert
waiting = refl

window : (run arrivals fresh).window_size ≡ 4
unfolding insert_at insert
window = refl

flush-gaps_example :
    (force_flush_from 6 (run arrivals fresh)).gaps_emitted
    ≤ (run arrivals fresh).gaps_emitted + (run arrivals fresh).window_size
flush-gaps_example = flush-gaps 6 (run arrivals fresh)

flush-slots_example :
    (force_flush_from 6 (run arrivals fresh)).emitted
    ≡ (run arrivals fresh).emitted
      ++ slots 6 (end_of 6 (run arrivals fresh).buffer - 6) (run arrivals fresh).buffer
unfolding insert_at insert
flush-slots_example =
    flush-slots 6 (run arrivals fresh) (7, at_place 7) ((8, at_place 8) ∷ []) waiting
      (omega arith, (omega arith, tt)) (omega arith)

-- The gap at 6, then the two packets.
flushed_run :
    (run (arrivals ++ flush ∷ []) fresh).emitted
    ≡ some (at_place 5) ∷ none ∷ some (at_place 7) ∷ some (at_place 8) ∷ []
unfolding insert_at insert force_flush
flushed_run = refl

check_timeout_at-IsFresh_example :
    AllEntries
      (IsFresh (pos 10) (run arrivals fresh).max_hold_ms)
      (check_timeout_at (pos 10) (run arrivals fresh)).arrival_times
check_timeout_at-IsFresh_example = check_timeout_at-IsFresh (pos 10) (run arrivals fresh) ordered
