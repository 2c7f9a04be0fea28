-- ===== src/Connection/Sends.antt =====
-- The sends of `UdpClientConnection` and its control reliability keep what holds between the calls.
use naudio.Prelude.{
  ℕ, zero, suc, ◌+◌, ◌^◌, ◌≡◌, subst, Bool, some, List, [], ◌∷◌, ◌++◌, arith, length, ltb, take,
  drop, min, length-append,
}
use naudio.Packet.{AudioPacket, PacketType, serialize}
use naudio.Control.{
  ControlMessage, ControlType, control_ack, nack, parse_control_ack_sequence, parse_nack_sequence,
}
use naudio.Control
use naudio.Fec.{record_and_maybe_emit}
use naudio.Decoder.Resolved.{branch}
use naudio.Reliability.{
  Reliability, generate_ack, record_sent_at, check_retransmits_at, on_ack_received, call, swept,
  nacked,
}
use naudio.Reliability.Tracked.{IsTracked}
use naudio.Reliability.Calls as ReliabilityCalls
use naudio.Connection.{
  Connection, Clocks, send_packet, record_sent, send_control, send_parity, maybe_send_fec_parity,
  send_chunk, send_rounds, send_all, check_control_retransmits, next_sequence,
}
use naudio.Connection.Receive.{
  handle_control_reliability, ControlOutcome, take_message, take_ack, take_nack, take_other, screen,
  is_control,
}
use naudio.Connection.Sound.{IsSound, Where, byte_count, on_part, with_reliability-IsSound}

-- A call that also has a result.
abbrev pub Leaves : {A : Type 0} → A × Connection → Type 0
Leaves r = IsSound r.1

abbrev pub Resolves : ControlOutcome → Type 0
Resolves o = IsSound o.connection

byte_count-append : (a b : List (List ℕ)) → byte_count (a ++ b) ≡ byte_count a + byte_count b
byte_count-append [] b = omega arith
byte_count-append (d ∷ a) b = omega (arith, byte_count-append a b)

module _ (takes : ℕ → Bool) where
  pub send_packet-IsSound :
      (t : Clocks) (p : AudioPacket) (c : Connection)
      → IsSound c
      → IsSound (send_packet takes t p c).1
  unfolding send_packet
  send_packet-IsSound t p c h = branch (Leaves {A = Bool}) c.closed h (
      branch (Leaves {A = Bool}) (takes c.send_count)
        (record {
          queue = h.queue;
          reorder = h.reorder;
          decoder = h.decoder;
          reliability = h.reliability;
          sent = omega (arith, h.sent, length-append c.wire (serialize p ∷ []));
          sent_bytes = omega (arith, h.sent_bytes, byte_count-append c.wire (serialize p ∷ []));
        })
        (record {
          queue = h.queue;
          reorder = h.reorder;
          decoder = h.decoder;
          reliability = h.reliability;
          sent = h.sent;
          sent_bytes = h.sent_bytes;
        }))

  record_sent-IsSound :
      (t : Clocks) (p : AudioPacket) (c : Connection)
      → IsSound c
      → IsSound (record_sent takes t p c)
  unfolding record_sent
  record_sent-IsSound t p c h = on_part IsSound c.control_reliability h (λ r on.
      with_reliability-IsSound (record_sent_at p t.steady_ms r) c
        (ReliabilityCalls.record_sent_at-IsTracked p t.steady_ms r
          (subst (Where IsTracked) on h.reliability))
        h)

  -- What only the sequence counter or the encoder has changed.
  pub numbered-IsSound : (c : Connection) → IsSound c → IsSound (next_sequence c).1
  unfolding next_sequence
  numbered-IsSound c h = record {
    queue = h.queue;
    reorder = h.reorder;
    decoder = h.decoder;
    reliability = h.reliability;
    sent = h.sent;
    sent_bytes = h.sent_bytes;
  }

  pub send_control-IsSound :
      (t : Clocks) (m : ControlMessage) (c : Connection)
      → IsSound c
      → IsSound (send_control takes t m c).1
  unfolding send_control
  send_control-IsSound t m c h =
      record_sent-IsSound t _ _ (send_packet-IsSound t _ _ (numbered-IsSound c h))

  send_parity-IsSound :
      (t : Clocks) (p : AudioPacket) (c : Connection)
      → IsSound c
      → IsSound (send_parity takes t p c)
  unfolding send_parity
  send_parity-IsSound t p c h = send_packet-IsSound t _ _ (numbered-IsSound c h)

  maybe_send_fec_parity-IsSound :
      (t : Clocks) (p : AudioPacket) (c : Connection)
      → IsSound c
      → IsSound (maybe_send_fec_parity takes t p c)
  unfolding maybe_send_fec_parity
  maybe_send_fec_parity-IsSound t p c h = on_part IsSound c.fec_encoder h (λ e on.
      let recorded = record c { fec_encoder = some (record_and_maybe_emit t.stamp p e).1 } in
      let sound : IsSound recorded = record {
        queue = h.queue;
        reorder = h.reorder;
        decoder = h.decoder;
        reliability = h.reliability;
        sent = h.sent;
        sent_bytes = h.sent_bytes;
      } in
      on_part IsSound (record_and_maybe_emit t.stamp p e).0 sound
        (λ q emitted. send_parity-IsSound t q recorded sound))

  send_chunk-IsSound :
      (t : Clocks) (type : PacketType) (chunk : List ℕ) (c : Connection)
      → IsSound c
      → IsSound (send_chunk takes t type chunk c).1
  unfolding send_chunk
  send_chunk-IsSound t type chunk c h =
      maybe_send_fec_parity-IsSound t _ _ (send_packet-IsSound t _ _ (numbered-IsSound c h))

  pub send_rounds-IsSound :
      (fuel : ℕ) (t : Clocks) (type : PacketType) (bytes : List ℕ) (c : Connection)
      → IsSound c
      → IsSound (send_rounds takes fuel t type bytes c).1
  unfolding send_rounds
  send_rounds-IsSound zero t type bytes c h = h
  send_rounds-IsSound (suc fuel) t type bytes c h =
      let n = min (length bytes) c.max_audio_payload in
      let sent = send_chunk-IsSound t type (take n bytes) c h in
      branch (Leaves {A = Bool}) (send_chunk takes t type (take n bytes) c).0
        (branch (Leaves {A = Bool}) (ltb 0 (length (drop n bytes)))
          (send_rounds-IsSound fuel t type (drop n bytes) _ sent) sent)
        sent

  pub send_all-IsSound :
      (t : Clocks) (ps : List AudioPacket) (c : Connection)
      → IsSound c
      → IsSound (send_all takes t ps c)
  unfolding send_all
  send_all-IsSound t [] c h = h
  send_all-IsSound t (p ∷ ps) c h =
      send_all-IsSound t ps (send_packet takes t p c).1 (send_packet-IsSound t p c h)

  pub swept-IsSound :
      (t : Clocks) (c : Connection) → IsSound c → IsSound (check_control_retransmits takes t c)
  unfolding check_control_retransmits call
  swept-IsSound t c h = on_part IsSound c.control_reliability h (λ r on.
      let (ps, r') = check_retransmits_at t.steady_ms r in
      send_all-IsSound t ps (record c { control_reliability = some r' })
        (with_reliability-IsSound r' c
          (ReliabilityCalls.call-IsTracked (swept t.steady_ms) r
            (subst (Where IsTracked) on h.reliability))
          h))

  take_message-IsSound :
      (t : Clocks) (p : AudioPacket) (m : ControlMessage) (r : Reliability) (c : Connection)
      → IsTracked r
      → IsSound c
      → IsSound (take_message t p m r c).connection
  unfolding take_message
  take_message-IsSound t p m r c tracked h = go m.message_type
    where
      kept : IsSound (take_other t p c).connection
      kept =
          unfold take_other in on_part Resolves (generate_ack p) h (λ ack e. numbered-IsSound c h)

      acked-IsSound : (seq : ℕ) → IsSound (take_ack seq r c).connection
      acked-IsSound seq =
          unfold take_ack in
          branch IsSound (ltb seq (2 ^ 31))
            (with_reliability-IsSound (on_ack_received seq r).1 c
              (ReliabilityCalls.on_ack_received-IsTracked seq r tracked) h)
            h

      nacked-IsSound : (seq : ℕ) → IsSound (take_nack t seq r c).connection
      nacked-IsSound seq =
          unfold take_nack in
          unfold call in
          branch Resolves (ltb seq (2 ^ 31))
            (with_reliability-IsSound _ c
              (ReliabilityCalls.call-IsTracked (nacked seq t.steady_ms) r tracked) h)
            h

      go :
          (k : ControlType)
          → Resolves (elim k [
            | control_ack ↦ take_ack (parse_control_ack_sequence m) r c
            | nack ↦ take_nack t (parse_nack_sequence m) r c
            | _ ↦ take_other t p c
          ])
      go control_ack = acked-IsSound (parse_control_ack_sequence m)
      go nack = nacked-IsSound (parse_nack_sequence m)
      go _ = kept

  pub screen-IsSound :
      (t : Clocks) (p : AudioPacket) (c : Connection) → IsSound c → IsSound (screen takes t p c).1
  unfolding screen handle_control_reliability
  screen-IsSound t p c h = on_part (Leaves {A = Bool}) c.control_reliability h (λ r on.
      branch (Leaves {A = Bool}) (is_control p.packet_type)
        (send_all-IsSound t _ _ (
          on_part Resolves (Control.deserialize p.payload) h
            (λ m e. take_message-IsSound t p m r c (subst (Where IsTracked) on h.reliability) h)))
        h)
