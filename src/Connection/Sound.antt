-- ===== src/Connection/Sound.antt =====
-- What holds of a `UdpClientConnection` between its calls, and across the parts of a call.
use naudio.Prelude.{
  ℕ, ◌+◌, ◌≤◌, ◌≡◌, refl, subst, inl, inr, false, Option, none, some, List, [], ◌∷◌, ◌++◌, arith,
  length, drop, ltb, leb, ◌==◌, Bool-cases, length-append, length-drop,
}
use naudio.Packet.{AudioPacket}
use naudio.Reorder.Valid.{IsOrdered}
use naudio.Reorder.Calls as ReorderCalls
use naudio.Decoder.{Provenance, live}
use naudio.Decoder.Resolved.{IsBounded, branch}
use naudio.Decoder.Calls as DecoderCalls
use naudio.Reliability.{Reliability}
use naudio.Reliability.Tracked.{IsTracked}
use naudio.Decoder.Process.{process_packet}
use naudio.Connection.{Connection, Clocks, QueuedPacket, PacketQueue, offer, default_max_size}
use naudio.Connection.Pipeline.{
  offer_all, with_decoder, forward, forward_all, with_reorder, tick, track_sequence, enter_pipeline,
  is_parity,
}

-- On a part of the pipeline, where it is there.
abbrev pub Where : {A : Type 0} → (A → Type 0) → Option A → Type 0
Where P none = Unit {0}
Where P (some a) = P a

abbrev pub IsRoomy : PacketQueue → Type 0
IsRoomy q = (q.max_size ≡ default_max_size) × (length q.items ≤ default_max_size)

abbrev pub byte_count : List (List ℕ) → ℕ
byte_count [] = 0
byte_count (d ∷ ds) = length d + byte_count ds

pub record IsSound (c : Connection) : Type 0 where
  pub queue : IsRoomy c.ordered_queue
  pub reorder : Where IsOrdered c.reorder_buffer
  pub decoder : Where IsBounded c.fec_decoder
  pub reliability : Where IsTracked c.control_reliability
  pub sent : c.packets_sent ≡ length c.wire
  pub sent_bytes : c.bytes_sent ≡ byte_count c.wire

-- To show something of both cases of an optional part.
pub on_part :
    {A B : Type 0} (P : B → Type 0) (o : Option A) {x : B} {f : A → B}
    → P x
    → ((a : A) → o ≡ some a → P (f a))
    → P (elim o [ none ↦ x | some a ↦ f a ])
on_part P none off on = off
on_part P (some a) off on = on a refl

one_more :
    {A : Type 0} (x : A) (l : List A) → length l ≤ 2047 → length (l ++ x ∷ []) ≤ default_max_size
one_more x l h = omega (arith, h, length-append l (x ∷ []))

offer-IsRoomy :
    (p : AudioPacket) (v : Provenance) (q : PacketQueue) → IsRoomy q → IsRoomy (offer p v q)
unfolding offer
offer-IsRoomy p v q h =
    let new : QueuedPacket = record { packet = p; provenance = v } in
    elim (Bool-cases (leb q.max_size (length q.items))) [
      | inl full ↦
          rw full (h.0, one_more new (drop 1 q.items) (omega (arith, length-drop 1 q.items, h.1)))
      | inr room ↦ rw room (h.0, one_more new q.items (below q.max_size (length q.items) room h.0))
    ]
  where
    below : (m n : ℕ) → leb m n ≡ false → m ≡ default_max_size → n ≤ 2047
    below m n h e = ground arith

offer_all-IsRoomy :
    (calls : List (Option AudioPacket × Provenance)) (q : PacketQueue)
    → IsRoomy q
    → IsRoomy (offer_all calls q)
unfolding offer_all
offer_all-IsRoomy [] q h = h
offer_all-IsRoomy ((none, v) ∷ calls) q h = offer_all-IsRoomy calls q h
offer_all-IsRoomy ((some p, v) ∷ calls) q h =
    offer_all-IsRoomy calls (offer p v q) (offer-IsRoomy p v q h)

-- With another queue, and with other parts.
pub queue-IsSound :
    (q : PacketQueue) (c : Connection)
    → IsRoomy q
    → IsSound c
    → IsSound (record c { ordered_queue = q })
queue-IsSound q c roomy h = record {
  queue = roomy;
  reorder = h.reorder;
  decoder = h.decoder;
  reliability = h.reliability;
  sent = h.sent;
  sent_bytes = h.sent_bytes;
}

pub with_reliability-IsSound :
    (r : Reliability) (c : Connection)
    → IsTracked r
    → IsSound c
    → IsSound (record c { control_reliability = some r })
with_reliability-IsSound r c tracked h = record {
  queue = h.queue;
  reorder = h.reorder;
  decoder = h.decoder;
  reliability = tracked;
  sent = h.sent;
  sent_bytes = h.sent_bytes;
}

pub with_decoder-IsSound :
    (call : DecoderCalls.Call) (c : Connection)
    → IsSound c
    → IsSound (with_decoder (DecoderCalls.call call) c)
unfolding with_decoder
with_decoder-IsSound call c h = on_part IsSound c.fec_decoder h (λ d on. record {
  queue =
      offer_all-IsRoomy (drop (length d.emitted) (DecoderCalls.call call d).emitted) c.ordered_queue
        h.queue;
  reorder = h.reorder;
  decoder = DecoderCalls.call-IsBounded call d (subst (Where IsBounded) on h.decoder);
  reliability = h.reliability;
  sent = h.sent;
  sent_bytes = h.sent_bytes;
})

process_packet-IsSound :
    (t : Clocks) (p : AudioPacket) (c : Connection)
    → IsSound c
    → IsSound (with_decoder (process_packet t.stamp t.steady_ms p) c)
unfolding process_packet
process_packet-IsSound t p c h =
    with_decoder-IsSound (DecoderCalls.arrive t.stamp t.steady_ms (some p) p.sequence) c h

forward-IsSound :
    (t : Clocks) (p : AudioPacket) (c : Connection) → IsSound c → IsSound (forward t p c)
unfolding forward
forward-IsSound t p c h =
    on_part IsSound c.fec_decoder
      (queue-IsSound (offer p live c.ordered_queue) c (offer-IsRoomy p live c.ordered_queue h.queue)
        h)
      (λ d on. process_packet-IsSound t p c h)

forward_all-IsSound :
    (t : Clocks) (calls : List (Option AudioPacket)) (c : Connection)
    → IsSound c
    → IsSound (forward_all t calls c)
unfolding forward_all
forward_all-IsSound t [] c h = h
forward_all-IsSound t (none ∷ calls) c h = forward_all-IsSound t calls c h
forward_all-IsSound t (some p ∷ calls) c h =
    forward_all-IsSound t calls (forward t p c) (forward-IsSound t p c h)

with_reorder-IsSound :
    (t : Clocks) (call : ReorderCalls.Call) (c : Connection)
    → IsSound c
    → IsSound (with_reorder t (ReorderCalls.call call) c)
unfolding with_reorder
with_reorder-IsSound t call c h = on_part IsSound c.reorder_buffer h (λ r on.
    let r' = ReorderCalls.call call r in
    forward_all-IsSound t (drop (length r.emitted) r'.emitted)
      (record c { reorder_buffer = some r' })
      (record {
        queue = h.queue;
        reorder = ReorderCalls.call-IsOrdered call r (subst (Where IsOrdered) on h.reorder);
        decoder = h.decoder;
        reliability = h.reliability;
        sent = h.sent;
        sent_bytes = h.sent_bytes;
      }))

pub tick-IsSound : (t : Clocks) (c : Connection) → IsSound c → IsSound (tick t c)
unfolding tick
tick-IsSound t c h =
    with_decoder-IsSound (DecoderCalls.tick t.steady_ms) _
      (with_reorder-IsSound t (ReorderCalls.tick t.steady_ms) c h)

pub track_sequence-IsSound : (seq : ℕ) (c : Connection) → IsSound c → IsSound (track_sequence seq c)
unfolding track_sequence
track_sequence-IsSound seq c h = on_part IsSound c.highest_sequence_seen kept (λ highest e.
    branch IsSound (ltb (highest + 1) seq) kept (branch IsSound (seq == highest + 1) kept kept))
  where
    kept :
        {seen : Option ℕ} {lost late : ℕ}
        → IsSound (record c {
          highest_sequence_seen = seen;
          packets_lost = lost;
          packets_out_of_order = late;
        })
    kept = record {
      queue = h.queue;
      reorder = h.reorder;
      decoder = h.decoder;
      reliability = h.reliability;
      sent = h.sent;
      sent_bytes = h.sent_bytes;
    }

pub enter_pipeline-IsSound :
    (t : Clocks) (p : AudioPacket) (c : Connection) → IsSound c → IsSound (enter_pipeline t p c)
unfolding enter_pipeline
enter_pipeline-IsSound t p c h =
    let offered =
      queue-IsSound (offer p live c.ordered_queue) c (offer-IsRoomy p live c.ordered_queue h.queue)
        h in
    on_part IsSound c.reorder_buffer
      (on_part IsSound c.fec_decoder
        (branch IsSound (is_parity p.packet_type) h (track_sequence-IsSound p.sequence _ offered))
        (λ d on. track_sequence-IsSound p.sequence _ (
          with_decoder-IsSound (DecoderCalls.tick t.steady_ms) _ (process_packet-IsSound t p c h))))
      (λ r on.
        with_reorder-IsSound t (ReorderCalls.tick t.steady_ms) _
          (with_reorder-IsSound t (ReorderCalls.arrive p t.steady_ms) c h))
