-- ===== src/Examples/Messages.antt =====
-- Control messages, and the reliability of a disconnect message.
use naudio.Prelude.{ℕ, ◌-◌, ◌≤◌, ◌≡◌, refl, arith, some, List, [], ◌∷◌}
use naudio.Prelude.Int.{pos, ◌-ℤ◌}
use naudio.Config.{default_config, udp_wan}
use naudio.Packet.{AudioPacket, control}
use naudio.Control.{
  disconnect, message, serialize, deserialize, discover_message, parse_discover_token, nack_message,
  parse_nack_sequence, control_ack_message, parse_control_ack_sequence, latency_probe_message,
  latency_response_message, parse_latency_timestamp, audio_config_message, apply_audio_config_to,
}
use naudio.Control.Envelope.{deserialize-serialize-message, serialize-deserialize-message}
use naudio.Control.Fields.{parse-message}
use naudio.Control.AudioConfig.{IsWireConfig, apply-audio_config}
use naudio.Reliability.{Reliability, create, Call, sent, acked, nacked, swept, run}
use naudio.Reliability.Tracked.{IsTracked}
use naudio.Reliability.Calls.{fresh-run-IsTracked}
use naudio.Reliability.Budget.{count}
use naudio.Reliability.Acks.{resends-bounded, acked-silent}

deserialize-serialize-message_example :
    deserialize (serialize (message disconnect (7 ∷ []))) ≡ some (message disconnect (7 ∷ []))
deserialize-serialize-message_example = deserialize-serialize-message (message disconnect (7 ∷ []))

taken : deserialize (0xff ∷ 7 ∷ []) ≡ some (message disconnect (7 ∷ []))
unfolding deserialize
taken = refl

serialize-deserialize-message_example : serialize (message disconnect (7 ∷ [])) ≡ 0xff ∷ 7 ∷ []
serialize-deserialize-message_example =
    serialize-deserialize-message (0xff ∷ 7 ∷ []) (message disconnect (7 ∷ [])) taken

parse-message_example :
    (parse_discover_token (discover_message 12) ≡ some 12)
    × (parse_nack_sequence (nack_message 0xffff_fffe) ≡ 0xffff_fffe)
    × (parse_control_ack_sequence (control_ack_message 0xffff_fffe) ≡ 0xffff_fffe)
    × (parse_latency_timestamp (latency_probe_message 1234567) ≡ 1234567)
    × (parse_latency_timestamp (latency_response_message 1234567) ≡ 1234567)
parse-message_example =
    parse-message 12 0xffff_fffe 1234567 (omega arith) (omega arith) (omega arith)

wan_fits : IsWireConfig udp_wan
wan_fits = record {
  rate = (refl, omega arith);
  bits = (refl, omega arith);
  channels = (refl, omega arith);
  frame = (refl, omega arith);
  target = (refl, omega arith);
  low = (refl, omega arith);
  high = (refl, omega arith);
}

apply-audio_config_example :
    apply_audio_config_to (audio_config_message udp_wan) default_config
    ≡ some (record default_config {
      sample_rate = udp_wan.sample_rate;
      bits_per_sample = udp_wan.bits_per_sample;
      channels = udp_wan.channels;
      frame_duration_ms = udp_wan.frame_duration_ms;
      buffer_target_ms = udp_wan.buffer_target_ms;
      buffer_min_ms = udp_wan.buffer_min_ms;
      buffer_max_ms = udp_wan.buffer_max_ms;
    })
apply-audio_config_example = apply-audio_config udp_wan default_config wan_fits

-- A DISCONNECT with the sequence number `seq`.
abbrev goodbye : ℕ → AudioPacket
goodbye seq = record {
  version = 1;
  packet_type = control;
  flags = 0;
  sequence = seq;
  timestamp = 0;
  payload = 0xff ∷ [];
}

abbrev fresh : Reliability
fresh = record { max_attempts = 3; timeout_ms = pos 500; pending = []; control_retransmits = 0 }

created : create (pos 3) (pos 500) ≡ some fresh
unfolding create
created = refl

abbrev sends : List Call
sends = sent (goodbye 5) (pos 0) ∷ sent (goodbye 6) (pos 10) ∷ []

abbrev timeouts : List Call
timeouts = swept (pos 600) ∷ nacked 5 (pos 700) ∷ swept (pos 1300) ∷ swept (pos 2000) ∷ []

fresh-run-IsTracked_example : IsTracked (run sends fresh).1
fresh-run-IsTracked_example = fresh-run-IsTracked (pos 3) (pos 500) fresh sends created

tracked : IsTracked (run sends fresh).1
tracked = fresh-run-IsTracked (pos 3) (pos 500) fresh sends created

resends-bounded_example :
    count 5 (run timeouts (run sends fresh).1).0 ≤ (run sends fresh).1.max_attempts - 1
resends-bounded_example =
    resends-bounded 5 timeouts (run sends fresh).1 (tt, (tt, (tt, (tt, tt)))) tracked

-- The bound is met: one sweep and one NACK, then the entry is dropped.
resent_twice : count 5 (run timeouts (run sends fresh).1).0 ≡ 2
unfolding run deserialize ◌-ℤ◌
resent_twice = refl

acked-silent_example : count 5 (run (acked 5 ∷ timeouts) (run sends fresh).1).0 ≡ 0
acked-silent_example =
    acked-silent 5 timeouts (run sends fresh).1 (tt, (tt, (tt, (tt, tt)))) tracked
