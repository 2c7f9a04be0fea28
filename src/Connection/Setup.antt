-- ===== src/Connection/Setup.antt =====
-- src/net/UdpClientConnection.cpp: the constructor, with `initPipeline`. The estimator of the jitter
-- is not modelled.
use naudio.Prelude.{ℕ, Bool, false, Option, none, some, List, [], leb, if◌then◌else◌}
use naudio.Prelude.Int.{ℤ, pos, pos_part, ◌+ℤ◌, ◌*ℤ◌, max_ℤ, ltb_ℤ}
use naudio.Config.{max_payload}
use naudio.Fec.{Encoder}
use naudio.Fec
use naudio.Reorder.{Reorder}
use naudio.Reorder
use naudio.Decoder.{Decoder, set_pending_idle_timeout_ms}
use naudio.Decoder
use naudio.Reliability.{Reliability}
use naudio.Reliability
use naudio.Connection.{Connection, Clocks, new_queue}

-- `UdpReliabilityConfig`, without the three settings of the jitter estimator that only it reads.
pub record ReliabilityConfig : Type 0 where
  pub reorder_window_size : ℤ
  pub reorder_max_hold_ms : ℤ
  pub fec_enabled : Bool
  pub fec_block_size : ℤ
  pub frame_duration_ms : ℤ
  pub max_audio_payload_bytes : ℤ
  pub jitter_max_ms : ℤ
  pub control_reliability_enabled : Bool
  pub control_retransmit_max_attempts : ℤ

abbrev pub default_reliability : ReliabilityConfig
default_reliability = record {
  reorder_window_size = pos 8;
  reorder_max_hold_ms = pos 30;
  fec_enabled = false;
  fec_block_size = pos 5;
  frame_duration_ms = pos 20;
  max_audio_payload_bytes = pos 1344;
  jitter_max_ms = pos 0;
  control_reliability_enabled = false;
  control_retransmit_max_attempts = pos 3;
}

-- `maxAudioPayload_`.
unfoldable pub usable_payload : ReliabilityConfig → ℕ
usable_payload cfg =
    if ltb_ℤ (pos 0) cfg.max_audio_payload_bytes
    then (if leb (pos_part cfg.max_audio_payload_bytes) max_payload
        then pos_part cfg.max_audio_payload_bytes
        else 1344)
    else 1344

-- The bound that `setPendingIdleTimeoutMs` is given.
unfoldable pub idle_bound : ReliabilityConfig → ℤ
idle_bound cfg =
    max_ℤ (pos 0) cfg.fec_block_size *ℤ max_ℤ (pos 0) cfg.frame_duration_ms
    +ℤ max_ℤ (pos 0) cfg.reorder_max_hold_ms
    +ℤ max_ℤ (pos 0) cfg.jitter_max_ms

unfoldable pub new_decoder : ReliabilityConfig → Option Decoder
unfolding idle_bound
new_decoder cfg =
    if cfg.fec_enabled
    then some (set_pending_idle_timeout_ms (idle_bound cfg) (Decoder.create (pos 60)))
    else none

-- An optional part: `none` if making it throws, `some none` if it is switched off.
abbrev pub Part : Type 0 → Type 0
Part A = Option (Option A)

abbrev pub made : {A : Type 0} → Option A → Part A
made none = none
made (some a) = some (some a)

-- `static_cast<std::size_t>` of a negative block size is too large for the encoder.
unfoldable pub new_encoder : ReliabilityConfig → Part Encoder
new_encoder cfg =
    if cfg.fec_enabled
    then (if ltb_ℤ cfg.fec_block_size (pos 0)
        then none
        else made (Fec.create (pos_part cfg.fec_block_size)))
    else some none

unfoldable pub new_reorder : ReliabilityConfig → Part Reorder
new_reorder cfg =
    if ltb_ℤ (pos 0) cfg.reorder_window_size
    then made (Reorder.create (pos_part cfg.reorder_window_size) cfg.reorder_max_hold_ms)
    else some none

unfoldable pub new_reliability : ReliabilityConfig → Part Reliability
new_reliability cfg =
    if cfg.control_reliability_enabled
    then made (Reliability.create (max_ℤ (pos 1) cfg.control_retransmit_max_attempts) (pos 500))
    else some none

-- The constructor with the resolved host of the peer; `none` where a part throws.
unfoldable pub connect : Clocks → ℕ → List ℕ → ReliabilityConfig → Option Connection
unfolding usable_payload new_decoder new_encoder new_reorder new_reliability new_queue
connect t port host cfg = elim (new_encoder cfg) [
  | none ↦ none
  | some encoder ↦ elim (new_reorder cfg) [
    | none ↦ none
    | some reorder ↦ elim (new_reliability cfg) [
      | none ↦ none
      | some reliability ↦ some (record {
        remote_port = port;
        expected_sender_host = host;
        sequence_counter = 0;
        closed = false;
        ordered_queue = new_queue 2048;
        reorder_buffer = reorder;
        fec_encoder = encoder;
        fec_decoder = new_decoder cfg;
        control_reliability = reliability;
        last_send_time = t.system_ms;
        last_receive_time = t.system_ms;
        packets_sent = 0;
        packets_received = 0;
        bytes_sent = 0;
        bytes_received = 0;
        crc_errors = 0;
        consecutive_crc_errors = 0;
        oversized_datagrams = 0;
        max_audio_payload = usable_payload cfg;
        highest_sequence_seen = none;
        packets_lost = 0;
        packets_out_of_order = 0;
        send_count = 0;
        wire = [];
      })
    ]
  ]
]
