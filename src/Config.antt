-- ===== src/Config.antt =====
-- include/naudio/AudioStreamConfig.hpp, include/naudio/TransportType.hpp: the stream's format and
-- buffer settings, the sizes derived from them, and the presets.
use naudio.Prelude.{ℕ, ◌+◌, ◌*◌, ◌/◌, Bool, true, false, List, [], ltb, ◌==◌, if◌then◌else◌}
use naudio.Prelude.Int.{ℤ, pos, negsuc, pos_part, ◌-ℤ◌, ◌*ℤ◌, quot_ℤ, leb_ℤ}

pub data TransportType : Type 0 where
  tcp udp dual : TransportType

-- An `int32_t` field is the integer that it holds; `jitterMultiplier`, a double, is left out.
pub record AudioStreamConfig : Type 0 where
  pub sample_rate : ℤ
  pub max_clients : ℤ
  pub tx_idle_timeout_ms : ℤ
  pub bits_per_sample : ℤ
  pub channels : ℤ
  pub frame_duration_ms : ℤ
  pub buffer_target_ms : ℤ
  pub buffer_min_ms : ℤ
  pub buffer_max_ms : ℤ
  pub transport_type : TransportType
  pub reorder_buffer_size : ℤ
  pub reorder_max_hold_ms : ℤ
  pub fec_enabled : Bool
  pub fec_block_size : ℤ
  pub adaptive_jitter_enabled : Bool
  pub control_reliability_enabled : Bool
  pub control_retransmit_max_attempts : ℤ
  pub explicit_bare_udp : Bool
  pub discoverable : Bool
  pub discovery_port : ℤ
  pub server_name : List ℕ

-- The default member initialisers.
abbrev pub default_config : AudioStreamConfig
default_config = record {
  sample_rate = pos 48000;
  max_clients = pos 4;
  tx_idle_timeout_ms = pos 500;
  bits_per_sample = pos 16;
  channels = pos 2;
  frame_duration_ms = pos 20;
  buffer_target_ms = pos 100;
  buffer_min_ms = pos 40;
  buffer_max_ms = pos 300;
  transport_type = tcp;
  reorder_buffer_size = pos 0;
  reorder_max_hold_ms = pos 0;
  fec_enabled = false;
  fec_block_size = pos 5;
  adaptive_jitter_enabled = false;
  control_reliability_enabled = false;
  control_retransmit_max_attempts = pos 3;
  explicit_bare_udp = false;
  discoverable = true;
  discovery_port = pos 4533;
  server_name = [];
}

abbrev pub udp_max_audio_payload_bytes : ℕ
udp_max_audio_payload_bytes = 1377

abbrev pub max_payload : ℕ
max_payload = 16384

-- `AudioPacket::udpMaxAudioPayload`.
unfoldable pub chunk_payload : ℕ → ℕ
chunk_payload sf =
    let fits = udp_max_audio_payload_bytes / sf * sf in
    let raw = max_payload / sf * sf in
    if sf == 0
    then udp_max_audio_payload_bytes
    else if ltb 0 fits
    then fits
    else if ltb 0 raw
    then raw
    else max_payload

unfoldable pub samples_per_frame : AudioStreamConfig → ℤ
samples_per_frame c = quot_ℤ (c.sample_rate *ℤ c.frame_duration_ms) 1000

unfoldable pub sample_frame_bytes : AudioStreamConfig → ℤ
sample_frame_bytes c = quot_ℤ c.bits_per_sample 8 *ℤ c.channels

unfoldable pub bytes_per_frame : AudioStreamConfig → ℤ
bytes_per_frame c = samples_per_frame c *ℤ sample_frame_bytes c

-- `AudioStreamConfig::udpMaxAudioPayload`.
unfoldable pub config_chunk_payload : AudioStreamConfig → ℕ
config_chunk_payload c = chunk_payload (pos_part (sample_frame_bytes c))

unfoldable pub bytes_per_second : AudioStreamConfig → ℤ
bytes_per_second c = c.sample_rate *ℤ quot_ℤ c.bits_per_sample 8 *ℤ c.channels

unfoldable pub ms_to_bytes : AudioStreamConfig → ℤ → ℤ
ms_to_bytes c ms = quot_ℤ (bytes_per_second c *ℤ ms) 1000

-- Division of integers, rounding towards zero; a zero divisor is tested before.
quot_by : ℤ → ℤ → ℤ
quot_by a (pos n) = quot_ℤ a n
quot_by a (negsuc n) = quot_ℤ (pos 0 -ℤ a) (n + 1)

is_zero : ℤ → Bool
is_zero (pos n) = n == 0
is_zero (negsuc n) = false

unfoldable pub bytes_to_ms : AudioStreamConfig → ℤ → ℤ
unfolding quot_by is_zero
bytes_to_ms c bytes =
    let bps = bytes_per_second c in if is_zero bps then pos 0 else quot_by (bytes *ℤ pos 1000) bps

unfoldable pub is_ft8_optimized : AudioStreamConfig → Bool
is_ft8_optimized c = leb_ℤ c.buffer_target_ms (pos 40)

unfoldable pub is_voice_optimized : AudioStreamConfig → Bool
is_voice_optimized c = leb_ℤ (pos 120) c.buffer_target_ms

abbrev pub low_bandwidth : AudioStreamConfig
low_bandwidth = record default_config { sample_rate = pos 12000 }

abbrev pub ft8_optimized : AudioStreamConfig
ft8_optimized = record default_config {
  buffer_target_ms = pos 40;
  buffer_min_ms = pos 20;
  buffer_max_ms = pos 100;
}

abbrev pub voice_optimized : AudioStreamConfig
voice_optimized = record default_config {
  buffer_target_ms = pos 120;
  buffer_min_ms = pos 60;
  buffer_max_ms = pos 300;
}

abbrev pub udp_lan : AudioStreamConfig
udp_lan = record default_config {
  transport_type = udp;
  frame_duration_ms = pos 10;
  buffer_target_ms = pos 40;
  buffer_min_ms = pos 20;
  buffer_max_ms = pos 150;
  reorder_buffer_size = pos 8;
  reorder_max_hold_ms = pos 20;
  control_reliability_enabled = true;
}

abbrev pub udp_wan : AudioStreamConfig
udp_wan = record default_config {
  transport_type = udp;
  frame_duration_ms = pos 10;
  buffer_target_ms = pos 120;
  buffer_min_ms = pos 60;
  buffer_max_ms = pos 400;
  reorder_buffer_size = pos 8;
  reorder_max_hold_ms = pos 40;
  fec_enabled = true;
  fec_block_size = pos 5;
  adaptive_jitter_enabled = true;
  control_reliability_enabled = true;
}

abbrev pub udp_ft8 : AudioStreamConfig
udp_ft8 = record default_config {
  transport_type = udp;
  frame_duration_ms = pos 10;
  buffer_target_ms = pos 30;
  buffer_min_ms = pos 15;
  buffer_max_ms = pos 80;
  reorder_buffer_size = pos 8;
  reorder_max_hold_ms = pos 15;
  control_reliability_enabled = true;
}

abbrev pub udp_iq : AudioStreamConfig
udp_iq = record default_config {
  transport_type = udp;
  frame_duration_ms = pos 10;
  sample_rate = pos 192000;
  buffer_target_ms = pos 60;
  buffer_min_ms = pos 30;
  buffer_max_ms = pos 200;
  reorder_buffer_size = pos 8;
  reorder_max_hold_ms = pos 30;
  control_reliability_enabled = true;
}

abbrev pub udp_bare : AudioStreamConfig
udp_bare = record default_config { transport_type = udp; explicit_bare_udp = true }

abbrev pub dual_default : AudioStreamConfig
dual_default = record default_config {
  transport_type = dual;
  buffer_target_ms = pos 40;
  buffer_min_ms = pos 20;
  buffer_max_ms = pos 100;
  reorder_buffer_size = pos 8;
  reorder_max_hold_ms = pos 20;
  control_reliability_enabled = true;
}
