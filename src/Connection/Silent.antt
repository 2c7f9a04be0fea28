-- ===== src/Connection/Silent.antt =====
-- src/net/UdpClientConnection.cpp: a closed connection sends nothing.
use naudio.Prelude.{
  by_test, ℕ, zero, suc, ◌+◌, ◌^◌, ◌==◌, ◌≡◌, sym, ◌∙◌, Bool, true, Option, none, some, List, [],
  ◌∷◌, length, take, drop, min, ltb,
}
use naudio.Packet.{AudioPacket, PacketType}
use naudio.Control
use naudio.Control.{
  ControlMessage, ControlType, control_ack, nack, parse_control_ack_sequence, parse_nack_sequence,
}
use naudio.Fec.{record_and_maybe_emit}
use naudio.Decoder.{Decoder, live}
use naudio.Decoder.Process
use naudio.Decoder.Process.{process_packet}
use naudio.Reorder
use naudio.Reorder.{Reorder, insert_at}
use naudio.Reliability.{Reliability, generate_ack, check_retransmits_at}
use naudio.Decoder.Resolved.{branch}
use naudio.Connection.{
  Connection, Clocks, offer, send_packet, record_sent, next_sequence, send_parity,
  maybe_send_fec_parity, send_chunk, send_rounds, send_all, check_control_retransmits,
}
use naudio.Connection.Pipeline.{
  with_decoder, forward, forward_all, with_reorder, track_sequence, enter_pipeline, is_parity,
}
use naudio.Connection.Receive.{
  ControlOutcome, take_message, take_other, take_ack, take_nack, handle_control_reliability, screen,
  enqueue_received, note_arrival, is_control,
}
use naudio.Connection.Sound.{on_part}

-- Closed, with `w` sent before.
pub record IsShut (w : List (List ℕ)) (c : Connection) : Type 0 where
  pub is_closed : c.closed ≡ true
  pub sent_before : c.wire ≡ w

module _ (w : List (List ℕ)) where
  abbrev pub After : {A : Type 0} → A × Connection → Type 0
  After r = IsShut w r.1

  abbrev AfterControl : ControlOutcome → Type 0
  AfterControl o = IsShut w o.connection

  with_decoder-IsShut :
      (f : Decoder → Decoder) (c : Connection) → IsShut w c → IsShut w (with_decoder f c)
  unfolding with_decoder
  with_decoder-IsShut f c h =
      on_part (IsShut w) c.fec_decoder h
        (λ d on. record { is_closed = h.is_closed; sent_before = h.sent_before })

  forward-IsShut :
      (t : Clocks) (p : AudioPacket) (c : Connection) → IsShut w c → IsShut w (forward t p c)
  unfolding forward
  forward-IsShut t p c h =
      on_part (IsShut w) c.fec_decoder
        (record { is_closed = h.is_closed; sent_before = h.sent_before })
        (λ d on. with_decoder-IsShut (process_packet t.stamp t.steady_ms p) c h)

  forward_all-IsShut :
      (t : Clocks) (calls : List (Option AudioPacket)) (c : Connection)
      → IsShut w c
      → IsShut w (forward_all t calls c)
  unfolding forward_all
  forward_all-IsShut t [] c h = h
  forward_all-IsShut t (none ∷ calls) c h = forward_all-IsShut t calls c h
  forward_all-IsShut t (some p ∷ calls) c h =
      forward_all-IsShut t calls (forward t p c) (forward-IsShut t p c h)

  with_reorder-IsShut :
      (t : Clocks) (f : Reorder → Reorder) (c : Connection)
      → IsShut w c
      → IsShut w (with_reorder t f c)
  unfolding with_reorder
  with_reorder-IsShut t f c h = on_part (IsShut w) c.reorder_buffer h (λ r on.
      let r' = f r in
      forward_all-IsShut t (drop (length r.emitted) r'.emitted)
        (record c { reorder_buffer = some r' })
        (record { is_closed = h.is_closed; sent_before = h.sent_before }))

  track_sequence-IsShut : (seq : ℕ) (c : Connection) → IsShut w c → IsShut w (track_sequence seq c)
  unfolding track_sequence
  track_sequence-IsShut seq c h = on_part (IsShut w) c.highest_sequence_seen kept (λ highest e.
      branch (IsShut w) (ltb (highest + 1) seq) kept
        (branch (IsShut w) (seq == highest + 1) kept kept))
    where
      kept :
          {seen : Option ℕ} {lost late : ℕ}
          → IsShut w (record c {
            highest_sequence_seen = seen;
            packets_lost = lost;
            packets_out_of_order = late;
          })
      kept = record { is_closed = h.is_closed; sent_before = h.sent_before }

  enter_pipeline-IsShut :
      (t : Clocks) (p : AudioPacket) (c : Connection) → IsShut w c → IsShut w (enter_pipeline t p c)
  unfolding enter_pipeline
  enter_pipeline-IsShut t p c h =
      let offered = record c { ordered_queue = offer p live c.ordered_queue } in
      let still : IsShut w offered = record {
        is_closed = h.is_closed;
        sent_before = h.sent_before;
      } in
      let inserted = with_reorder-IsShut t (insert_at p t.steady_ms) c h in
      let processed = with_decoder-IsShut (process_packet t.stamp t.steady_ms p) c h in
      on_part (IsShut w) c.reorder_buffer
        (on_part (IsShut w) c.fec_decoder
          (branch (IsShut w) (is_parity p.packet_type) h
            (track_sequence-IsShut p.sequence offered still))
          (λ d on.
            track_sequence-IsShut p.sequence _
              (with_decoder-IsShut (Process.check_timeout_at t.steady_ms) _ processed)))
        (λ r on. with_reorder-IsShut t (Reorder.check_timeout_at t.steady_ms) _ inserted)

  module _ (takes : ℕ → Bool) where
    pub send_packet-IsShut :
        (t : Clocks) (p : AudioPacket) (c : Connection)
        → IsShut w c
        → After {A = Bool} (send_packet takes t p c)
    unfolding send_packet
    send_packet-IsShut t p c h =
        by_test (After {A = Bool}) c.closed (λ shut. h)
          (λ still_open. absurd (let clash = sym still_open ∙ h.is_closed in cc))

    pub numbered-IsShut : (c : Connection) → IsShut w c → IsShut w (next_sequence c).1
    unfolding next_sequence
    numbered-IsShut c h = record { is_closed = h.is_closed; sent_before = h.sent_before }

    pub record_sent-IsShut :
        (t : Clocks) (p : AudioPacket) (c : Connection)
        → IsShut w c
        → IsShut w (record_sent takes t p c)
    unfolding record_sent
    record_sent-IsShut t p c h =
        on_part (IsShut w) c.control_reliability h
          (λ r on. record { is_closed = h.is_closed; sent_before = h.sent_before })

    maybe_send_fec_parity-IsShut :
        (t : Clocks) (p : AudioPacket) (c : Connection)
        → IsShut w c
        → IsShut w (maybe_send_fec_parity takes t p c)
    unfolding maybe_send_fec_parity send_parity
    maybe_send_fec_parity-IsShut t p c h = on_part (IsShut w) c.fec_encoder h (λ e on.
        let kept = record c { fec_encoder = some (record_and_maybe_emit t.stamp p e).1 } in
        let shut : IsShut w kept = record {
          is_closed = h.is_closed;
          sent_before = h.sent_before;
        } in
        on_part (IsShut w) (record_and_maybe_emit t.stamp p e).0 shut
          (λ q emitted. send_packet-IsShut t _ _ (numbered-IsShut kept shut)))

    send_chunk-IsShut :
        (t : Clocks) (type : PacketType) (chunk : List ℕ) (c : Connection)
        → IsShut w c
        → After {A = Bool} (send_chunk takes t type chunk c)
    unfolding send_chunk
    send_chunk-IsShut t type chunk c h =
        maybe_send_fec_parity-IsShut t _ _ (send_packet-IsShut t _ _ (numbered-IsShut c h))

    pub send_rounds-IsShut :
        (fuel : ℕ) (t : Clocks) (type : PacketType) (bytes : List ℕ) (c : Connection)
        → IsShut w c
        → After {A = Bool} (send_rounds takes fuel t type bytes c)
    unfolding send_rounds
    send_rounds-IsShut zero t type bytes c h = h
    send_rounds-IsShut (suc fuel) t type bytes c h =
        let n = min (length bytes) c.max_audio_payload in
        let sent = send_chunk-IsShut t type (take n bytes) c h in
        branch (After {A = Bool}) (send_chunk takes t type (take n bytes) c).0
          (branch (After {A = Bool}) (ltb 0 (length (drop n bytes)))
            (send_rounds-IsShut fuel t type (drop n bytes) _ sent) sent)
          sent

    send_all-IsShut :
        (t : Clocks) (ps : List AudioPacket) (c : Connection)
        → IsShut w c
        → IsShut w (send_all takes t ps c)
    unfolding send_all
    send_all-IsShut t [] c h = h
    send_all-IsShut t (p ∷ ps) c h =
        send_all-IsShut t ps (send_packet takes t p c).1 (send_packet-IsShut t p c h)

    pub swept-IsShut :
        (t : Clocks) (c : Connection) → IsShut w c → IsShut w (check_control_retransmits takes t c)
    unfolding check_control_retransmits
    swept-IsShut t c h = on_part (IsShut w) c.control_reliability h (λ r on.
        let (ps, r') = check_retransmits_at t.steady_ms r in
        send_all-IsShut t ps (record c { control_reliability = some r' })
          (record { is_closed = h.is_closed; sent_before = h.sent_before }))

    take_message-IsShut :
        (t : Clocks) (p : AudioPacket) (m : ControlMessage) (r : Reliability) (c : Connection)
        → IsShut w c
        → AfterControl (take_message t p m r c)
    unfolding take_message take_ack take_nack take_other
    take_message-IsShut t p m r c h = go m.message_type
      where
        kept : {s : Reliability} → IsShut w (record c { control_reliability = some s })
        kept = record { is_closed = h.is_closed; sent_before = h.sent_before }

        other : AfterControl (take_other t p c)
        other = on_part AfterControl (generate_ack p) h (λ ack e. numbered-IsShut c h)

        go :
            (k : ControlType)
            → AfterControl (elim k [
              | control_ack ↦ take_ack (parse_control_ack_sequence m) r c
              | nack ↦ take_nack t (parse_nack_sequence m) r c
              | _ ↦ take_other t p c
            ])
        go control_ack = branch (IsShut w) (ltb (parse_control_ack_sequence m) (2 ^ 31)) kept h
        go nack = branch AfterControl (ltb (parse_nack_sequence m) (2 ^ 31)) kept h
        go _ = other

    screen-IsShut :
        (t : Clocks) (p : AudioPacket) (c : Connection)
        → IsShut w c
        → After {A = Bool} (screen takes t p c)
    unfolding screen handle_control_reliability
    screen-IsShut t p c h = on_part (After {A = Bool}) c.control_reliability h (λ r on.
        branch (After {A = Bool}) (is_control p.packet_type)
          (send_all-IsShut t _ _ (
            on_part AfterControl (Control.deserialize p.payload) h
              (λ m e. take_message-IsShut t p m r c h)))
          h)

    pub enqueue_received-IsShut :
        (t : Clocks) (p : AudioPacket) (raw_bytes : ℕ) (c : Connection)
        → IsShut w c
        → IsShut w (enqueue_received takes t p raw_bytes c)
    unfolding enqueue_received note_arrival
    enqueue_received-IsShut t p raw_bytes c h =
        let noted = note_arrival t raw_bytes c in
        let screened =
          screen-IsShut t p noted
            (record { is_closed = h.is_closed; sent_before = h.sent_before }) in
        branch (IsShut w) (screen takes t p noted).0
          (enter_pipeline-IsShut t p (screen takes t p noted).1 screened) screened
