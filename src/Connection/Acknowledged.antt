-- ===== src/Connection/Acknowledged.antt =====
-- src/net/UdpClientConnection.cpp: `handleControlReliabilityLocked` at both ends, between a critical
-- packet and its acknowledgement.
use naudio.Prelude.{ℕ, ◌^◌, ◌≤◌, ◌<◌, ◌≡◌, ◌⊎◌, Bool, true, some}
use naudio.Prelude.Word.{add_u32}
use naudio.Assoc.{keys}
use naudio.Packet.{AudioPacket, create_control, serialize, deserialize}
use naudio.Control.{
  connect_request, connect_accept, connect_reject, audio_config, stream_start, stream_stop,
  stream_pause, stream_resume, heartbeat_ack, latency_probe, latency_response, stats_update,
  tx_granted, tx_denied, tx_preempted, tx_released, clients_update, discover, discover_reply, error,
  disconnect, control_ack_message,
}
use naudio.Control
use naudio.Reliability.{Reliability, on_ack_received}
use naudio.Reliability.Tracked.{NotIn}
use naudio.Reliability.Recorded.{Has}
use naudio.Connection.{Connection, Clocks, send_packet}
use naudio.Connection.Receive.{note_arrival, screen, enqueue_received}

-- The acknowledgement of `p` that the connection `c` sends.
abbrev pub ack_of : Clocks → AudioPacket → Connection → AudioPacket
ack_of t p c =
    create_control t.stamp c.sequence_counter (Control.serialize (control_ack_message p.sequence))

-- `c` with its next sequence number taken.
abbrev counted : Connection → Connection
counted c = record c { sequence_counter = add_u32 c.sequence_counter 1 }

-- What the receiver `c` at time `t`, and the sender, do with the critical packet `p`: `d` is the
-- sender's connection once it has recorded the packet, with `s` as its control reliability, and it
-- gets the acknowledgement, of `raw` bytes, at time `u`.
pub record Acknowledged (takes : ℕ → Bool) (t u : Clocks) (p : AudioPacket) (c d : Connection)
    (s : Reliability) (raw : ℕ) : Type 0 where
  pub answered : screen takes t p c ≡ (true, (send_packet takes t (ack_of t p c) (counted c)).1)
  pub read_back : deserialize (serialize (ack_of t p c)) ≡ some (ack_of t p c)
  pub waiting : Has p.sequence s.pending
  pub outcome :
      ((p.sequence < 2 ^ 31)
        × ((after : Reliability) × (enqueue_received takes u (ack_of t p c) raw d
              ≡ record (note_arrival u raw d) { control_reliability = some after })
            × (after ≡ (on_ack_received p.sequence s).1)
            × NotIn p.sequence (keys after.pending)))
      ⊎ ((2 ^ 31 ≤ p.sequence)
          × (enqueue_received takes u (ack_of t p c) raw d ≡ note_arrival u raw d))
