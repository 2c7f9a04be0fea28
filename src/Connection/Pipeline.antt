-- ===== src/Connection/Pipeline.antt =====
-- src/net/UdpClientConnection.cpp: the way of a packet through the reorder buffer and the decoder into
-- the queue.
use naudio.Prelude.{
  ℕ, ◌+◌, ◌-◌, Bool, true, false, Option, none, some, List, [], ◌∷◌, length, drop, ltb, ◌==◌,
  if◌then◌else◌,
}
use naudio.Packet.{AudioPacket, PacketType, fec_parity}
use naudio.Reorder.{Reorder, insert_at}
use naudio.Reorder
use naudio.Decoder.{Decoder, Provenance, live}
use naudio.Decoder.Process.{process_packet}
use naudio.Decoder.Process
use naudio.Connection.{Connection, Clocks, PacketQueue, offer}

-- The calls of an emitter, from the n-th on, as they reach the queue.
unfoldable pub offer_all : List (Option AudioPacket × Provenance) → PacketQueue → PacketQueue
unfolding offer
offer_all [] q = q
offer_all ((none, v) ∷ calls) q = offer_all calls q
offer_all ((some p, v) ∷ calls) q = offer_all calls (offer p v q)

-- A call of the decoder, with what its emitter does.
unfoldable pub with_decoder : (Decoder → Decoder) → Connection → Connection
unfolding offer_all
with_decoder f c = elim c.fec_decoder [
  | none ↦ c
  | some d ↦
      let d' = f d in
      record c {
        fec_decoder = some d';
        ordered_queue = offer_all (drop (length d.emitted) d'.emitted) c.ordered_queue;
      }
]

-- The emitter of the reorder buffer: into the decoder, or into the queue.
unfoldable pub forward : Clocks → AudioPacket → Connection → Connection
unfolding with_decoder offer
forward t p c = elim c.fec_decoder [
  | none ↦ record c { ordered_queue = offer p live c.ordered_queue }
  | some d ↦ with_decoder (process_packet t.stamp t.steady_ms p) c
]

unfoldable pub forward_all : Clocks → List (Option AudioPacket) → Connection → Connection
unfolding forward
forward_all t [] c = c
forward_all t (none ∷ calls) c = forward_all t calls c
forward_all t (some p ∷ calls) c = forward_all t calls (forward t p c)

-- A call of the reorder buffer, with what its emitter does.
unfoldable pub with_reorder : Clocks → (Reorder → Reorder) → Connection → Connection
unfolding forward_all
with_reorder t f c = elim c.reorder_buffer [
  | none ↦ c
  | some r ↦
      let r' = f r in
      forward_all t (drop (length r.emitted) r'.emitted) (record c { reorder_buffer = some r' })
]

-- `checkTimeout` of both on the no-data path.
unfoldable pub tick : Clocks → Connection → Connection
unfolding with_reorder with_decoder
tick t c =
    with_decoder (Process.check_timeout_at t.steady_ms)
      (with_reorder t (Reorder.check_timeout_at t.steady_ms) c)

unfoldable pub track_sequence : ℕ → Connection → Connection
track_sequence seq c = elim c.highest_sequence_seen [
  | none ↦ record c { highest_sequence_seen = some seq }
  | some highest ↦
      if ltb (highest + 1) seq
      then record c {
        packets_lost = c.packets_lost + (seq - highest - 1);
        highest_sequence_seen = some seq;
      }
      else if seq == highest + 1
      then record c { highest_sequence_seen = some seq }
      else record c { packets_out_of_order = c.packets_out_of_order + 1 }
]

abbrev pub is_parity : PacketType → Bool
is_parity fec_parity = true
is_parity _ = false

-- The reorder buffer, the decoder or the queue, whichever comes first.
unfoldable pub enter_pipeline : Clocks → AudioPacket → Connection → Connection
unfolding with_reorder with_decoder track_sequence offer
enter_pipeline t p c = elim c.reorder_buffer [
  | some r ↦
      with_reorder t (Reorder.check_timeout_at t.steady_ms)
        (with_reorder t (insert_at p t.steady_ms) c)
  | none ↦ elim c.fec_decoder [
    | some d ↦ track_sequence p.sequence (
        with_decoder (Process.check_timeout_at t.steady_ms)
          (with_decoder (process_packet t.stamp t.steady_ms p) c))
    | none ↦
        if is_parity p.packet_type
        then c
        else track_sequence p.sequence (record c { ordered_queue = offer p live c.ordered_queue })
  ]
]
