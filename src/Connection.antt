-- ===== src/Connection.antt =====
-- include/naudio/net/UdpClientConnection.hpp, src/net/UdpClientConnection.cpp: the hub that puts the
-- reorder buffer, the FEC coder and the control reliability between a socket and the application.
-- Here are the state, the queue and the sends; Connection/Pipeline
-- and Connection/Receive have the receive path.
pub mod Setup
pub mod Pipeline
pub mod Receive
pub mod Statistics
pub mod Sound
pub mod Sends
pub mod Calls
pub mod Silent
pub mod Closed
pub mod Tracking
pub mod Corrupt
pub mod Chunks
pub mod Delivery
pub mod Acknowledged
use naudio.Prelude.{
  ℕ, zero, suc, ◌+◌, ◌-◌, min, Bool, true, false, Option, none, some, List, [], ◌∷◌, ◌++◌, length,
  take, drop, ltb, leb, ◌==◌, if◌then◌else◌,
}
use naudio.Prelude.Int.{ℤ, pos, ◌-ℤ◌, ltb_ℤ}
use naudio.Prelude.Word.{add_u32}
use naudio.Packet.{
  AudioPacket, PacketType, audio_rx, audio_tx, create, create_control, create_heartbeat, serialize,
}
use naudio.Control.{ControlMessage}
use naudio.Control
use naudio.Fec.{Encoder, record_and_maybe_emit}
use naudio.Reorder.{Reorder}
use naudio.Decoder.{Decoder, Provenance}
use naudio.Reliability.{Reliability, record_sent_at, check_retransmits_at}

pub record QueuedPacket : Type 0 where
  pub packet : AudioPacket
  pub provenance : Provenance

abbrev pub default_max_size : ℕ
default_max_size = 2048

-- `BlockingPacketQueue`.
pub record PacketQueue : Type 0 where
  pub items : List QueuedPacket
  pub max_size : ℕ
  pub drops : ℕ
  pub is_shutdown : Bool

unfoldable pub new_queue : ℕ → PacketQueue
new_queue max_size = record {
  items = [];
  max_size = if max_size == 0 then default_max_size else max_size;
  drops = 0;
  is_shutdown = false;
}

-- A full queue drops its oldest packet.
unfoldable pub offer : AudioPacket → Provenance → PacketQueue → PacketQueue
offer p provenance q =
    let new : QueuedPacket = record { packet = p; provenance = provenance } in
    if leb q.max_size (length q.items)
    then record q { items = drop 1 q.items ++ new ∷ []; drops = q.drops + 1 }
    else record q { items = q.items ++ new ∷ [] }

-- `poll()`, and `poll(timeoutMs)` once it does not wait any more.
unfoldable pub poll : PacketQueue → Option QueuedPacket × PacketQueue
poll q = elim q.items [ [] ↦ (none, q) | p ∷ rest ↦ (some p, record q { items = rest }) ]

unfoldable pub shutdown : PacketQueue → PacketQueue
shutdown q = record q { is_shutdown = true }

-- What the clocks show in a call: the system clock and the steady clock in milliseconds, and the
-- clock of the packets' timestamps.
pub record Clocks : Type 0 where
  pub system_ms : ℤ
  pub steady_ms : ℤ
  pub stamp : ℕ

-- `highest_sequence_seen` is `none` for -1. `send_count` counts the calls of the socket, and `wire` is
-- what it took.
pub record Connection : Type 0 where
  pub remote_port : ℕ
  pub expected_sender_host : List ℕ
  pub sequence_counter : ℕ
  pub closed : Bool
  pub ordered_queue : PacketQueue
  pub reorder_buffer : Option Reorder
  pub fec_encoder : Option Encoder
  pub fec_decoder : Option Decoder
  pub control_reliability : Option Reliability
  pub last_send_time : ℤ
  pub last_receive_time : ℤ
  pub packets_sent : ℕ
  pub packets_received : ℕ
  pub bytes_sent : ℕ
  pub bytes_received : ℕ
  pub crc_errors : ℕ
  pub consecutive_crc_errors : ℕ
  pub oversized_datagrams : ℕ
  pub max_audio_payload : ℕ
  pub highest_sequence_seen : Option ℕ
  pub packets_lost : ℕ
  pub packets_out_of_order : ℕ
  pub send_count : ℕ
  pub wire : List (List ℕ)

abbrev pub udp_heartbeat_interval_ms : ℤ
udp_heartbeat_interval_ms = pos 3000

abbrev pub udp_connection_timeout_ms : ℤ
udp_connection_timeout_ms = pos 8000

abbrev pub udp_max_payload : ℕ
udp_max_payload = 1400

-- `sequenceCounter_.fetch_add(1)`.
unfoldable pub next_sequence : Connection → ℕ × Connection
next_sequence c = (c.sequence_counter, record c { sequence_counter = add_u32 c.sequence_counter 1 })

-- Whether the socket takes its n-th datagram is the network's affair.
module _ (takes : ℕ → Bool) where
  unfoldable pub send_packet : Clocks → AudioPacket → Connection → Bool × Connection
  send_packet t p c =
      let bytes = serialize p in
      let tried = record c {
        oversized_datagrams =
            if ltb udp_max_payload (length bytes)
            then c.oversized_datagrams + 1
            else c.oversized_datagrams;
        send_count = c.send_count + 1;
      } in
      if c.closed
      then (false, c)
      else if takes c.send_count
      then (
        true,
        record tried {
          last_send_time = t.system_ms;
          packets_sent = c.packets_sent + 1;
          bytes_sent = c.bytes_sent + length bytes;
          wire = c.wire ++ bytes ∷ [];
        },
      )
      else (false, tried)

  unfoldable pub record_sent : Clocks → AudioPacket → Connection → Connection
  record_sent t p c = elim c.control_reliability [
    | none ↦ c
    | some r ↦ record c { control_reliability = some (record_sent_at p t.steady_ms r) }
  ]

  unfoldable pub send_control : Clocks → ControlMessage → Connection → Bool × Connection
  unfolding next_sequence send_packet record_sent
  send_control t m c =
      let (seq, c1) = next_sequence c in
      let p = create_control t.stamp seq (Control.serialize m) in
      let (done, c2) = send_packet t p c1 in (done, record_sent t p c2)

  unfoldable pub try_send_control : Clocks → ControlMessage → Connection → Bool × Connection
  unfolding send_control
  try_send_control t m c = send_control t m c

  -- `parity->setSequence(nextSequence())`, and its send.
  unfoldable pub send_parity : Clocks → AudioPacket → Connection → Connection
  unfolding next_sequence send_packet
  send_parity t parity c =
      let (seq, c1) = next_sequence c in (send_packet t (record parity { sequence = seq }) c1).1

  unfoldable pub maybe_send_fec_parity : Clocks → AudioPacket → Connection → Connection
  unfolding send_parity
  maybe_send_fec_parity t p c = elim c.fec_encoder [
    | none ↦ c
    | some e ↦
        let (parity, e') = record_and_maybe_emit t.stamp p e in
        let recorded = record c { fec_encoder = some e' } in
        elim parity [ none ↦ recorded | some q ↦ send_parity t q recorded ]
  ]

  -- One round of `sendAudioChunked`, over the bytes of its chunk.
  unfoldable pub send_chunk : Clocks → PacketType → List ℕ → Connection → Bool × Connection
  unfolding next_sequence send_packet maybe_send_fec_parity
  send_chunk t type chunk c =
      let (seq, c1) = next_sequence c in
      let p = create t.stamp type seq chunk in
      let (done, c2) = send_packet t p c1 in (done, maybe_send_fec_parity t p c2)

  -- The `do` loop over the bytes that are left, on fuel: a round takes one byte at least.
  unfoldable pub send_rounds : ℕ → Clocks → PacketType → List ℕ → Connection → Bool × Connection
  unfolding send_chunk
  send_rounds zero t type bytes c = (true, c)
  send_rounds (suc fuel) t type bytes c =
      let n = min (length bytes) c.max_audio_payload in
      let (done, c') = send_chunk t type (take n bytes) c in
      let left = drop n bytes in
      let rest = send_rounds fuel t type left c' in
      if done then (if ltb 0 (length left) then rest else (true, c')) else (false, c')

  unfoldable pub send_audio_chunked : Clocks → PacketType → List ℕ → Connection → Bool × Connection
  unfolding send_rounds
  send_audio_chunked t type bytes c = send_rounds (suc (length bytes)) t type bytes c

  unfoldable pub send_rx_audio : Clocks → List ℕ → Connection → Bool × Connection
  unfolding send_audio_chunked
  send_rx_audio t bytes c = send_audio_chunked t audio_rx bytes c

  unfoldable pub send_tx_audio : Clocks → List ℕ → Connection → Bool × Connection
  unfolding send_audio_chunked
  send_tx_audio t bytes c = send_audio_chunked t audio_tx bytes c

  unfoldable pub send_heartbeat : Clocks → Connection → Bool × Connection
  unfolding next_sequence send_packet
  send_heartbeat t c =
      let (seq, c1) = next_sequence c in send_packet t (create_heartbeat t.stamp seq) c1

  -- `for (const AudioPacket& out : ...) sendPacket(out)`.
  unfoldable pub send_all : Clocks → List AudioPacket → Connection → Connection
  unfolding send_packet
  send_all t [] c = c
  send_all t (p ∷ ps) c = send_all t ps (send_packet t p c).1

  unfoldable pub check_control_retransmits : Clocks → Connection → Connection
  unfolding send_all
  check_control_retransmits t c = elim c.control_reliability [
    | none ↦ c
    | some r ↦
        let (ps, r') = check_retransmits_at t.steady_ms r in
        send_all t ps (record c { control_reliability = some r' })
  ]

  unfoldable pub should_send_heartbeat : Clocks → Connection → Bool × Connection
  unfolding check_control_retransmits
  should_send_heartbeat t c =
      let swept = check_control_retransmits t c in
      (ltb_ℤ udp_heartbeat_interval_ms (t.system_ms -ℤ swept.last_send_time), swept)

unfoldable pub is_connection_timed_out : Clocks → Connection → Bool
is_connection_timed_out t c = ltb_ℤ udp_connection_timeout_ms (t.system_ms -ℤ c.last_receive_time)

unfoldable pub close : Connection → Connection
unfolding shutdown
close c =
    if c.closed then c else record c { closed = true; ordered_queue = shutdown c.ordered_queue }
