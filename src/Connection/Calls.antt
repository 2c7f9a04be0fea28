-- ===== src/Connection/Calls.antt =====
-- The calls of `UdpClientConnection`, as the threads of a client or a server make them, and what holds
-- after any run of them.
use naudio.Prelude.{
  ℕ, suc, ◌≤◌, ◌≡◌, refl, subst, Bool, true, false, Option, none, some, some_inj, List, [], ◌∷◌,
  arith, length, ◌||◌, not, if◌then◌else◌,
}
use naudio.Prelude.Int.{pos, max_ℤ, ltb_ℤ, pos_part}
use naudio.Packet.{AudioPacket, PacketType, deserialize}
use naudio.Control.{ControlMessage}
use naudio.Reorder.Valid.{IsOrdered}
use naudio.Reorder.Calls as ReorderCalls
use naudio.Decoder
use naudio.Decoder.{Decoder, set_pending_idle_timeout_ms, live}
use naudio.Decoder.Resolved.{branch, IsBounded}
use naudio.Decoder.Calls as DecoderCalls
use naudio.Reliability.Tracked.{IsTracked}
use naudio.Reliability.Calls as ReliabilityCalls
use naudio.Connection.{
  Connection, Clocks, PacketQueue, QueuedPacket, send_control, send_audio_chunked, send_heartbeat,
  should_send_heartbeat, close, shutdown, poll, new_queue, default_max_size,
}
use naudio.Connection.Setup.{
  ReliabilityConfig, connect, new_decoder, new_encoder, new_reorder, new_reliability, idle_bound,
  made,
}
use naudio.Connection.Pipeline.{tick, enter_pipeline, is_parity}
use naudio.Connection.Receive.{
  IoResult, timed_out, failed, datagram, ReceiveResult, enqueue_received, receive_queued,
  receive_from_socket, record_crc_error, screen, note_arrival, next_queued, deliver, take_packet,
  take_corrupt, take_datagram, take_io, is_expected_sender,
}
use naudio.Connection.Sound.{
  IsSound, IsRoomy, Where, on_part, tick-IsSound, enter_pipeline-IsSound, track_sequence-IsSound,
  queue-IsSound,
}
use naudio.Connection.Sends.{
  Leaves, send_control-IsSound, numbered-IsSound, send_packet-IsSound, send_rounds-IsSound,
  swept-IsSound, screen-IsSound,
}

pub data Call : Type 0 where
  control_sent : ControlMessage → Call
  audio_sent : PacketType → List ℕ → Call
  heartbeat_sent : Call
  arrived : AudioPacket → ℕ → Call
  corrupted : Call
  queue_read : Call
  socket_read : IoResult → Call
  swept : Call
  closed : Call

abbrev pub step : (ℕ → Bool) → Clocks → Call → Connection → Connection
step takes t (control_sent m) c = (send_control takes t m c).1
step takes t (audio_sent type bytes) c = (send_audio_chunked takes t type bytes c).1
step takes t heartbeat_sent c = (send_heartbeat takes t c).1
step takes t (arrived p raw_bytes) c = enqueue_received takes t p raw_bytes c
step takes t corrupted c = record_crc_error c
step takes t queue_read c = (receive_queued t c).1
step takes t (socket_read io) c = (receive_from_socket takes t io c).1
step takes t swept c = (should_send_heartbeat takes t c).1
step takes t closed c = close c

abbrev pub run : (ℕ → Bool) → List (Clocks × Call) → Connection → Connection
run takes [] c = c
run takes ((t, call) ∷ calls) c = run takes calls (step takes t call c)

abbrev Polled : Option QueuedPacket × PacketQueue → Type 0
Polled r = IsRoomy r.1

poll-IsRoomy : (q : PacketQueue) → IsRoomy q → Polled (poll q)
unfolding poll
poll-IsRoomy q h = go q.items h.1
  where
    go :
        (items : List QueuedPacket)
        → length items ≤ default_max_size
        → Polled (elim items [ [] ↦ (none, q) | p ∷ rest ↦ (some p, record q { items = rest }) ])
    go [] few = h
    go (p ∷ rest) few = (h.0, omega (arith, few))

next_queued-IsSound : (c : Connection) → IsSound c → Leaves {A = ReceiveResult} (next_queued c)
unfolding next_queued
next_queued-IsSound c h =
    queue-IsSound (poll c.ordered_queue).1 c (poll-IsRoomy c.ordered_queue h.queue) h

noted-IsSound :
    (t : Clocks) (raw_bytes : ℕ) (c : Connection) → IsSound c → IsSound (note_arrival t raw_bytes c)
unfolding note_arrival
noted-IsSound t raw_bytes c h = record {
  queue = h.queue;
  reorder = h.reorder;
  decoder = h.decoder;
  reliability = h.reliability;
  sent = h.sent;
  sent_bytes = h.sent_bytes;
}

corrupt-IsSound : (c : Connection) → IsSound c → IsSound (record_crc_error c)
unfolding record_crc_error
corrupt-IsSound c h = record {
  queue = h.queue;
  reorder = h.reorder;
  decoder = h.decoder;
  reliability = h.reliability;
  sent = h.sent;
  sent_bytes = h.sent_bytes;
}

close-IsSound : (c : Connection) → IsSound c → IsSound (close c)
unfolding close shutdown
close-IsSound c h = branch IsSound c.closed h (record {
  queue = h.queue;
  reorder = h.reorder;
  decoder = h.decoder;
  reliability = h.reliability;
  sent = h.sent;
  sent_bytes = h.sent_bytes;
})

-- The queue is not empty, or the call goes on.
read-IsSound :
    (c : Connection) (r : ReceiveResult × Connection)
    → IsSound c
    → Leaves {A = ReceiveResult} r
    → Leaves {A = ReceiveResult} (elim c.ordered_queue.items [ [] ↦ r | p ∷ rest ↦ next_queued c ])
read-IsSound c r h k = go c.ordered_queue.items
  where
    go :
        (items : List QueuedPacket)
        → Leaves {A = ReceiveResult} (elim items [ [] ↦ r | p ∷ rest ↦ next_queued c ])
    go [] = k
    go (p ∷ rest) = next_queued-IsSound c h

receive_queued-IsSound : (t : Clocks) (c : Connection) → IsSound c → Leaves (receive_queued t c)
unfolding receive_queued
receive_queued-IsSound t c h = branch (Leaves {A = ReceiveResult}) c.closed h (
    read-IsSound c (next_queued (tick t c)) h (next_queued-IsSound (tick t c) (tick-IsSound t c h)))

module _ (takes : ℕ → Bool) where
  enqueue_received-IsSound :
      (t : Clocks) (p : AudioPacket) (raw_bytes : ℕ) (c : Connection)
      → IsSound c
      → IsSound (enqueue_received takes t p raw_bytes c)
  unfolding enqueue_received
  enqueue_received-IsSound t p raw_bytes c h =
      let noted = note_arrival t raw_bytes c in
      let screened = screen-IsSound takes t p noted (noted-IsSound t raw_bytes c h) in
      branch IsSound (screen takes t p noted).0
        (enter_pipeline-IsSound t p (screen takes t p noted).1 screened) screened

  deliver-IsSound :
      (t : Clocks) (p : AudioPacket) (c : Connection) → IsSound c → Leaves (deliver takes t p c)
  unfolding deliver
  deliver-IsSound t p c h =
      let entered = next_queued-IsSound (enter_pipeline t p c) (enter_pipeline-IsSound t p c h) in
      on_part (Leaves {A = ReceiveResult}) c.reorder_buffer
        (on_part (Leaves {A = ReceiveResult}) c.fec_decoder
          (branch (Leaves {A = ReceiveResult}) (is_parity p.packet_type) h
            (track_sequence-IsSound p.sequence c h))
          (λ d on. entered))
        (λ r on. entered)

  take_packet-IsSound :
      (t : Clocks) (p : AudioPacket) (raw_bytes : ℕ) (c : Connection)
      → IsSound c
      → Leaves (take_packet takes t p raw_bytes c)
  unfolding take_packet
  take_packet-IsSound t p raw_bytes c h =
      let noted = note_arrival t raw_bytes c in
      let screened = screen-IsSound takes t p noted (noted-IsSound t raw_bytes c h) in
      branch (Leaves {A = ReceiveResult}) (screen takes t p noted).0
        (deliver-IsSound t p (screen takes t p noted).1 screened)
        (next_queued-IsSound (screen takes t p noted).1 screened)

  take_io-IsSound :
      (t : Clocks) (io : IoResult) (c : Connection) → IsSound c → Leaves (take_io takes t io c)
  unfolding take_io take_datagram take_corrupt
  take_io-IsSound t timed_out c h = next_queued-IsSound (tick t c) (tick-IsSound t c h)
  take_io-IsSound t failed c h = h
  take_io-IsSound t (datagram host port bytes truncated) c h =
      branch (Leaves {A = ReceiveResult}) (truncated || not (is_expected_sender host port c)) h (
        on_part (Leaves {A = ReceiveResult}) (deserialize bytes) (corrupt-IsSound c h)
          (λ p e. take_packet-IsSound t p (length bytes) c h))

  receive_from_socket-IsSound :
      (t : Clocks) (io : IoResult) (c : Connection)
      → IsSound c
      → Leaves (receive_from_socket takes t io c)
  unfolding receive_from_socket
  receive_from_socket-IsSound t io c h =
      branch (Leaves {A = ReceiveResult}) c.closed h
        (read-IsSound c (take_io takes t io c) h (take_io-IsSound t io c h))

  step-IsSound :
      (t : Clocks) (call : Call) (c : Connection) → IsSound c → IsSound (step takes t call c)
  unfolding send_audio_chunked send_heartbeat should_send_heartbeat
  step-IsSound t (control_sent m) c h = send_control-IsSound takes t m c h
  step-IsSound t (audio_sent type bytes) c h =
      send_rounds-IsSound takes (suc (length bytes)) t type bytes c h
  step-IsSound t heartbeat_sent c h = send_packet-IsSound takes t _ _ (numbered-IsSound takes c h)
  step-IsSound t (arrived p raw_bytes) c h = enqueue_received-IsSound t p raw_bytes c h
  step-IsSound t corrupted c h = corrupt-IsSound c h
  step-IsSound t queue_read c h = receive_queued-IsSound t c h
  step-IsSound t (socket_read io) c h = receive_from_socket-IsSound t io c h
  step-IsSound t swept c h = swept-IsSound takes t c h
  step-IsSound t closed c h = close-IsSound c h

  run-IsSound :
      (calls : List (Clocks × Call)) (c : Connection) → IsSound c → IsSound (run takes calls c)
  run-IsSound [] c h = h
  run-IsSound ((t, call) ∷ calls) c h =
      run-IsSound calls (step takes t call c) (step-IsSound t call c h)

-- What a part that may be switched off is made with.
part-Where :
    {A : Type 0} (P : A → Type 0) (on : Bool) (o part : Option A)
    → ((a : A) → o ≡ some a → P a)
    → (if on then made o else some none) ≡ some part
    → Where P part
part-Where P false o part h e = subst (Where P) (some_inj e) tt
part-Where P true none part h e = absurd (cc)
part-Where P true (some a) part h e = subst (Where P) (some_inj e) (h a refl)

on_success :
    {A B : Type 0} (o : Option A) {f : A → Option B} {b : B}
    → (elim o [ none ↦ none | some a ↦ f a ]) ≡ some b
    → (a : A) × (o ≡ some a) × (f a ≡ some b)
on_success none e = absurd (cc)
on_success (some a) e = (a, refl, e)

new_decoder-Where : (cfg : ReliabilityConfig) → Where IsBounded (new_decoder cfg)
unfolding new_decoder
new_decoder-Where cfg =
    branch (Where IsBounded) cfg.fec_enabled
      (DecoderCalls.call-IsBounded (DecoderCalls.idle_after (idle_bound cfg))
        (Decoder.create (pos 60)) (DecoderCalls.fresh-IsBounded (pos 60)))
      tt

fresh-IsSound :
    (t : Clocks) (port : ℕ) (host : List ℕ) (cfg : ReliabilityConfig) (c : Connection)
    → connect t port host cfg ≡ some c
    → IsSound c
unfolding connect new_reorder new_reliability new_queue
fresh-IsSound t port host cfg c e =
    let (encoder, made_encoder, e1) = on_success (new_encoder cfg) e in
    let (reorder, made_reorder, e2) = on_success (new_reorder cfg) e1 in
    let (reliability, made_reliability, e3) = on_success (new_reliability cfg) e2 in
    subst IsSound (some_inj e3) (record {
      queue = (refl, omega arith);
      reorder =
          part-Where IsOrdered (ltb_ℤ (pos 0) cfg.reorder_window_size) _ reorder
            (λ r.
              ReorderCalls.fresh-IsOrdered (pos_part cfg.reorder_window_size)
                cfg.reorder_max_hold_ms r)
            made_reorder;
      decoder = new_decoder-Where cfg;
      reliability =
          part-Where IsTracked cfg.control_reliability_enabled _ reliability
            (λ r.
              ReliabilityCalls.fresh-IsTracked (max_ℤ (pos 1) cfg.control_retransmit_max_attempts)
                (pos 500) r)
            made_reliability;
      sent = refl;
      sent_bytes = refl;
    })

-- After any run of the calls on a connection that the constructor makes, whatever the clocks show and
-- whichever datagrams the socket takes: the queue has at most 2048 packets; the reorder buffer, the
-- decoder and the control reliability behind it, where they are there, keep the invariants of their
-- own; and the two counters of what was sent are the number and the bytes of the datagrams taken.
pub connect-run-IsSound :
    (takes : ℕ → Bool) (t : Clocks) (port : ℕ) (host : List ℕ) (cfg : ReliabilityConfig)
    (c : Connection) (calls : List (Clocks × Call))
    → connect t port host cfg ≡ some c
    → IsSound (run takes calls c)
connect-run-IsSound takes t port host cfg c calls e =
    run-IsSound takes calls c (fresh-IsSound t port host cfg c e)
