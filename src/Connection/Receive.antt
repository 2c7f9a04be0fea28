-- ===== src/Connection/Receive.antt =====
-- src/net/UdpClientConnection.cpp: what becomes of a packet that comes in, and `receivePacket` in its
-- two modes.
use naudio.Prelude.{
  ℕ, ◌+◌, ◌^◌, Bool, true, false, ◌&&◌, ◌||◌, not, none, some, List, [], ◌∷◌, length, ltb, leb,
  ◌==◌, if◌then◌else◌,
}
use naudio.Packet.{AudioPacket, PacketType, control, create_control, deserialize}
use naudio.Control.{
  ControlMessage, ControlType, control_ack, nack, parse_control_ack_sequence, parse_nack_sequence,
}
use naudio.Control
use naudio.Reliability.{Reliability, on_ack_received, on_nack_received_at, generate_ack}
use naudio.Decoder.{Provenance, live}
use naudio.Connection.{Connection, Clocks, poll, next_sequence, send_all}
use naudio.Connection.Pipeline.{tick, track_sequence, is_parity, enter_pipeline}

abbrev pub is_control : PacketType → Bool
is_control control = true
is_control _ = false

-- `ControlOutcome`, with the connection after the call.
pub record ControlOutcome : Type 0 where
  pub consumed : Bool
  pub outgoing : List AudioPacket
  pub connection : Connection

abbrev with_reliability : Connection → Reliability → Connection
with_reliability c r = record c { control_reliability = some r }

-- A sequence number is not negative if its bit pattern lies below 2 ^ 31.
unfoldable pub take_ack : ℕ → Reliability → Connection → ControlOutcome
take_ack acked r c = record {
  consumed = true;
  outgoing = [];
  connection = if ltb acked (2 ^ 31) then with_reliability c (on_ack_received acked r).1 else c;
}

unfoldable pub take_nack : Clocks → ℕ → Reliability → Connection → ControlOutcome
take_nack t nacked r c =
    let (again, r') = on_nack_received_at nacked t.steady_ms r in
    if ltb nacked (2 ^ 31)
    then record { consumed = true; outgoing = again; connection = with_reliability c r' }
    else record { consumed = true; outgoing = []; connection = c }

unfoldable pub take_other : Clocks → AudioPacket → Connection → ControlOutcome
unfolding next_sequence
take_other t p c = elim (generate_ack p) [
  | none ↦ record { consumed = false; outgoing = []; connection = c }
  | some ack ↦
      let (seq, c') = next_sequence c in
      record {
        consumed = false;
        outgoing = create_control t.stamp seq (Control.serialize ack) ∷ [];
        connection = c';
      }
]

unfoldable pub take_message :
    Clocks → AudioPacket → ControlMessage → Reliability → Connection → ControlOutcome
unfolding take_ack take_nack take_other
take_message t p m r c = elim m.message_type [
  | control_ack ↦ take_ack (parse_control_ack_sequence m) r c
  | nack ↦ take_nack t (parse_nack_sequence m) r c
  | _ ↦ take_other t p c
]

-- `handleControlReliabilityLocked`.
unfoldable pub handle_control_reliability :
    Clocks → AudioPacket → Reliability → Connection → ControlOutcome
unfolding take_message
handle_control_reliability t p r c = elim (Control.deserialize p.payload) [
  | none ↦ record { consumed = false; outgoing = []; connection = c }
  | some m ↦ take_message t p m r c
]

unfoldable pub note_arrival : Clocks → ℕ → Connection → Connection
note_arrival t raw_bytes c = record c {
  last_receive_time = t.system_ms;
  consecutive_crc_errors = 0;
  packets_received = c.packets_received + 1;
  bytes_received = c.bytes_received + raw_bytes;
}

pub data IoResult : Type 0 where
  timed_out : IoResult
  failed : IoResult
  datagram : List ℕ → ℕ → List ℕ → Bool → IoResult

pub data ReceiveResult : Type 0 where
  of : AudioPacket → Provenance → ReceiveResult
  no_data : ReceiveResult
  dead : ReceiveResult

abbrev pub max_consecutive_crc_errors : ℕ
max_consecutive_crc_errors = 20

-- `poll`, with the packet as the result.
unfoldable pub next_queued : Connection → ReceiveResult × Connection
unfolding poll
next_queued c =
    let (p, q) = poll c.ordered_queue in
    (elim p [ none ↦ no_data | some x ↦ of x.packet x.provenance ], record c { ordered_queue = q })

abbrev same_host : List ℕ → List ℕ → Bool
same_host [] [] = true
same_host [] (b ∷ bs) = false
same_host (a ∷ as') [] = false
same_host (a ∷ as') (b ∷ bs) = a == b && same_host as' bs

unfoldable pub is_expected_sender : List ℕ → ℕ → Connection → Bool
is_expected_sender host port c =
    if not (port == c.remote_port)
    then false
    else elim c.expected_sender_host [ [] ↦ true | b ∷ bs ↦ same_host host c.expected_sender_host ]

unfoldable pub record_crc_error : Connection → Connection
record_crc_error c = record c {
  crc_errors = c.crc_errors + 1;
  consecutive_crc_errors = c.consecutive_crc_errors + 1;
}

-- `receivePacket` without an own socket, from the end of its wait on.
unfoldable pub receive_queued : Clocks → Connection → ReceiveResult × Connection
unfolding next_queued tick
receive_queued t c =
    if c.closed
    then (dead, c)
    else elim c.ordered_queue.items [ [] ↦ next_queued (tick t c) | p ∷ rest ↦ next_queued c ]

module _ (takes : ℕ → Bool) where
  -- The part of the receive path before the pipeline: the connection, and whether the packet goes on.
  unfoldable pub screen : Clocks → AudioPacket → Connection → Bool × Connection
  unfolding handle_control_reliability
  screen t p c = elim c.control_reliability [
    | none ↦ (true, c)
    | some r ↦
        let out = handle_control_reliability t p r c in
        if is_control p.packet_type
        then (not out.consumed, send_all takes t out.outgoing out.connection)
        else (true, c)
  ]

  unfoldable pub enqueue_received : Clocks → AudioPacket → ℕ → Connection → Connection
  unfolding note_arrival screen enter_pipeline
  enqueue_received t p raw_bytes c =
      let (goes_on, screened) = screen t p (note_arrival t raw_bytes c) in
      if goes_on then enter_pipeline t p screened else screened

  -- A packet on the own socket: as `enqueueReceived`, and the result. Where neither the buffer nor
  -- the decoder is there, the packet itself is the result.
  unfoldable pub deliver : Clocks → AudioPacket → Connection → ReceiveResult × Connection
  unfolding enter_pipeline next_queued
  deliver t p c = elim c.reorder_buffer [
    | some r ↦ next_queued (enter_pipeline t p c)
    | none ↦ elim c.fec_decoder [
      | some d ↦ next_queued (enter_pipeline t p c)
      | none ↦
          if is_parity p.packet_type then (no_data, c) else (of p live, track_sequence p.sequence c)
    ]
  ]

  unfoldable pub take_packet : Clocks → AudioPacket → ℕ → Connection → ReceiveResult × Connection
  unfolding note_arrival screen deliver next_queued
  take_packet t p raw_bytes c =
      let (goes_on, screened) = screen t p (note_arrival t raw_bytes c) in
      if goes_on then deliver t p screened else next_queued screened

  unfoldable pub take_corrupt : Connection → ReceiveResult × Connection
  unfolding record_crc_error
  take_corrupt c =
      let counted = record_crc_error c in
      (
        if leb max_consecutive_crc_errors (c.consecutive_crc_errors + 1) then dead else no_data,
        counted,
      )

  unfoldable pub take_datagram : Clocks → List ℕ → Connection → ReceiveResult × Connection
  unfolding take_packet take_corrupt
  take_datagram t bytes c = elim (deserialize bytes) [
    | none ↦ take_corrupt c
    | some p ↦ take_packet t p (length bytes) c
  ]

  -- What `recvFrom` yields decides.
  unfoldable pub take_io : Clocks → IoResult → Connection → ReceiveResult × Connection
  unfolding tick next_queued is_expected_sender take_datagram
  take_io t timed_out c = next_queued (tick t c)
  take_io t failed c = (dead, c)
  take_io t (datagram host port bytes truncated) c =
      if truncated || not (is_expected_sender host port c)
      then (no_data, c)
      else take_datagram t bytes c

  -- `receivePacket` with an own socket, and `receiveFromSocket`.
  unfoldable pub receive_from_socket : Clocks → IoResult → Connection → ReceiveResult × Connection
  unfolding take_io next_queued
  receive_from_socket t io c =
      if c.closed
      then (dead, c)
      else elim c.ordered_queue.items [ [] ↦ take_io t io c | p ∷ rest ↦ next_queued c ]
