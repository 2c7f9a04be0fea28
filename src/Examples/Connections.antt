-- ===== src/Examples/Connections.antt =====
-- `UdpClientConnection`: a connection with the reorder buffer, the decoder and control reliability, a
-- run of calls on it, and ten bytes in chunks of four.
use naudio.Prelude.{
  ℕ, ◌+◌, ◌^◌, ◌≡◌, refl, arith, Bool, true, false, Option, none, some, List, [], ◌∷◌, length, leb,
  if◌then◌else◌,
}
use naudio.Prelude.Int.{pos}
use naudio.Packet.{AudioPacket, audio_rx, create, create_control, deserialize}
use naudio.Control.{ControlMessage, message, disconnect}
use naudio.Control
use naudio.Examples.Packets.{all_bytes-AllBytes}
use naudio.Fec
use naudio.Reorder
use naudio.Reliability
use naudio.Reliability.{Reliability}
use naudio.Connection.Acknowledged.{Acknowledged}
use naudio.Connection.{Connection, Clocks, close, send_audio_chunked, send_control}
use naudio.Connection.Setup.{ReliabilityConfig, connect, default_reliability}
use naudio.Connection.Receive.{
  IoResult, datagram, dead, no_data, receive_queued, receive_from_socket, is_expected_sender,
  take_ack,
}
use naudio.Connection.Sound.{IsSound}
use naudio.Connection.Calls.{
  Call, arrived, audio_sent, heartbeat_sent, queue_read, socket_read, swept, closed, run,
  connect-run-IsSound,
}
use naudio.Connection.Closed.{close-IsDead}
use naudio.Connection.Pipeline.{track_sequence}
use naudio.Connection.Tracking.{track_all, greatest, tracked-counts}
use naudio.Connection.Corrupt.{IsIdle, Noise, is_corrupt, corrupt_count, reads, corrupt-IsDead}
use naudio.Connection.Delivery.{Sendable, Delivered, send_audio_chunked-Delivered}

abbrev noon : Clocks
noon = record { system_ms = pos 1000; steady_ms = pos 10; stamp = 7 }

abbrev reliable : ReliabilityConfig
reliable = record default_reliability { fec_enabled = true; control_reliability_enabled = true }

abbrev or_else : Option Connection → Connection → Connection
or_else none c = c
or_else (some c) d = c

abbrev bare : Connection
bare = record {
  remote_port = 4533;
  expected_sender_host = 10 ∷ 1 ∷ [];
  sequence_counter = 0;
  closed = false;
  ordered_queue = record { items = []; max_size = 2048; drops = 0; is_shutdown = false };
  reorder_buffer = none;
  fec_encoder = none;
  fec_decoder = none;
  control_reliability = none;
  last_send_time = pos 1000;
  last_receive_time = pos 1000;
  packets_sent = 0;
  packets_received = 0;
  bytes_sent = 0;
  bytes_received = 0;
  crc_errors = 0;
  consecutive_crc_errors = 0;
  oversized_datagrams = 0;
  max_audio_payload = 4;
  highest_sequence_seen = none;
  packets_lost = 0;
  packets_out_of_order = 0;
  send_count = 0;
  wire = [];
}

abbrev fresh : Connection
fresh = unfold connect in or_else (connect noon 4533 (10 ∷ 1 ∷ []) reliable) bare

abbrev all_taken : ℕ → Bool
all_taken n = true

abbrev ten_bytes : List ℕ
ten_bytes = 1 ∷ 2 ∷ 3 ∷ 4 ∷ 5 ∷ 6 ∷ 7 ∷ 8 ∷ 9 ∷ 10 ∷ []

abbrev calls : List (Clocks × Call)
calls =
    (noon, heartbeat_sent)
    ∷ (noon, arrived (create 7 audio_rx 5 ten_bytes) 33)
    ∷ (noon, audio_sent audio_rx ten_bytes)
    ∷ (noon, queue_read)
    ∷ (noon, socket_read (datagram (10 ∷ 1 ∷ []) 4533 (1 ∷ []) false))
    ∷ (noon, swept)
    ∷ (noon, closed)
    ∷ []

fresh-connected : connect noon 4533 (10 ∷ 1 ∷ []) reliable ≡ some fresh
unfolding connect naudio.Fec.create naudio.Reorder.create naudio.Reliability.create
fresh-connected = refl

connect-run-IsSound_example : IsSound (run all_taken calls fresh)
connect-run-IsSound_example =
    connect-run-IsSound all_taken noon 4533 (10 ∷ 1 ∷ []) reliable fresh calls fresh-connected

bare-Sendable : Sendable noon ten_bytes bare
bare-Sendable = record {
  no_encoder = refl;
  some_payload = omega arith;
  payload_fits = omega arith;
  counter = omega arith;
  stamp = omega arith;
  all_bytes = all_bytes-AllBytes ten_bytes refl;
}

send_audio_chunked-Delivered_example :
    Delivered all_taken audio_rx ten_bytes bare
      (send_audio_chunked all_taken noon audio_rx ten_bytes bare)
send_audio_chunked-Delivered_example =
    send_audio_chunked-Delivered all_taken noon audio_rx ten_bytes bare bare-Sendable

three_chunks : (send_audio_chunked all_taken noon audio_rx ten_bytes bare).1.sequence_counter ≡ 3
unfolding send_audio_chunked
three_chunks = refl

abbrev others : List ℕ
others = 8 ∷ 6 ∷ 9 ∷ []

close-IsDead_example :
    ((run all_taken calls (close fresh)).wire ≡ fresh.wire)
    × ((t : Clocks)
        → receive_queued t (run all_taken calls (close fresh))
          ≡ (dead, run all_taken calls (close fresh)))
    × ((t : Clocks) (io : IoResult)
        → receive_from_socket all_taken t io (run all_taken calls (close fresh))
          ≡ (dead, run all_taken calls (close fresh)))
close-IsDead_example = close-IsDead all_taken calls fresh

tracked-counts_example :
    ((track_all (5 ∷ others) bare).highest_sequence_seen ≡ some (greatest 5 others))
    × (greatest 5 others + (track_all (5 ∷ others) bare).packets_out_of_order + bare.packets_lost
        ≡ 5
          + (track_all (5 ∷ others) bare).packets_lost
          + bare.packets_out_of_order
          + length others)
tracked-counts_example = tracked-counts 5 others bare refl

two_lost : (track_all (5 ∷ others) bare).packets_lost ≡ 2
unfolding track_sequence
two_lost = refl

abbrev worn : Connection
worn = record bare { consecutive_crc_errors = 18 }

abbrev noise : List (Clocks × IoResult)
noise =
    (noon, datagram (10 ∷ 2 ∷ []) 4533 (1 ∷ []) false)
    ∷ (noon, datagram (10 ∷ 1 ∷ []) 4533 (1 ∷ []) false)
    ∷ []

abbrev twentieth : IoResult
twentieth = datagram (10 ∷ 1 ∷ []) 4533 (2 ∷ []) false

worn-IsIdle : IsIdle worn
worn-IsIdle = record { is_open = refl; nothing_ready = refl }

worn-Noise : Noise worn noise
unfolding deserialize is_expected_sender
worn-Noise = (refl, (refl, tt))

twentieth-corrupt : is_corrupt worn twentieth ≡ true
unfolding deserialize is_expected_sender
twentieth-corrupt = refl

corrupt-IsDead_example :
    (receive_from_socket all_taken noon twentieth (reads all_taken noise worn)).0
    ≡ (if leb 20 (18 + corrupt_count worn noise + 1) then dead else no_data)
corrupt-IsDead_example =
    corrupt-IsDead all_taken noise noon twentieth worn worn-IsIdle worn-Noise twentieth-corrupt

one_corrupt : corrupt_count worn noise ≡ 1
unfolding deserialize is_expected_sender
one_corrupt = refl

abbrev goodbye_message : ControlMessage
goodbye_message = message disconnect []

abbrev fresh_reliability : Reliability
fresh_reliability = record {
  max_attempts = 3;
  timeout_ms = pos 500;
  pending = [];
  control_retransmits = 0;
}

abbrev receiver : Connection
receiver = record bare { control_reliability = some fresh_reliability }

abbrev sender : Connection
sender = (send_control all_taken noon goodbye_message receiver).1

-- What it sent.
abbrev goodbye : AudioPacket
goodbye = create_control 7 0 (naudio.Control.serialize goodbye_message)

late_ack : (r : Reliability) (c : Connection) → (take_ack (2 ^ 31) r c).connection ≡ c
unfolding take_ack
late_ack r c = refl
