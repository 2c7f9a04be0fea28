-- ===== src/Control.antt =====
-- include/naudio/ControlMessage.hpp, src/ControlMessage.cpp: the messages of the control plane, in
-- the payload of a CONTROL packet. A string is the list of its bytes.
pub mod Envelope
pub mod Fields
pub mod AudioConfig
use naudio.Prelude.{
  ℕ, suc, ◌+◌, ◌-◌, ◌%◌, ◌^◌, Bool, true, false, not, ◌||◌, Option, none, some, List, [], ◌∷◌,
  length, get_or, take, ltb, ◌==◌, if◌then◌else◌,
}
use naudio.Prelude.Int.{ℤ, pos, pos_part, neg_part}
use naudio.Prelude.Word.{signed32}
use naudio.Config.{AudioStreamConfig, default_config}
use naudio.Bytes.{
  put_u8, put_u16, put_u32, put_u64, put_bytes, Reader, reader, remaining, get_u8, get_u16, get_u32,
  get_u64, read_bytes,
}

pub data ControlType : Type 0 where
  connect_request connect_accept connect_reject audio_config stream_start stream_stop stream_pause
        stream_resume heartbeat heartbeat_ack latency_probe latency_response stats_update tx_granted
        tx_denied tx_preempted tx_released clients_update discover discover_reply nack control_ack
        error disconnect :
      ControlType

-- The enumerators' values.
unfoldable pub type_value : ControlType → ℕ
type_value connect_request = 0x01
type_value connect_accept = 0x02
type_value connect_reject = 0x03
type_value audio_config = 0x04
type_value stream_start = 0x10
type_value stream_stop = 0x11
type_value stream_pause = 0x12
type_value stream_resume = 0x13
type_value heartbeat = 0x20
type_value heartbeat_ack = 0x21
type_value latency_probe = 0x22
type_value latency_response = 0x23
type_value stats_update = 0x30
type_value tx_granted = 0x40
type_value tx_denied = 0x41
type_value tx_preempted = 0x42
type_value tx_released = 0x43
type_value clients_update = 0x44
type_value discover = 0x60
type_value discover_reply = 0x61
type_value nack = 0x50
type_value control_ack = 0x51
type_value error = 0xfe
type_value disconnect = 0xff

-- The cases of the switch, in its order.
abbrev pub cases : List ControlType
cases =
    connect_request ∷ connect_accept ∷ connect_reject ∷ audio_config ∷ stream_start ∷ stream_stop
    ∷ stream_pause ∷ stream_resume ∷ heartbeat ∷ heartbeat_ack ∷ latency_probe ∷ latency_response
    ∷ stats_update ∷ tx_granted ∷ tx_denied ∷ tx_preempted ∷ tx_released ∷ clients_update ∷ nack
    ∷ discover ∷ discover_reply ∷ control_ack ∷ error ∷ disconnect ∷ []

-- The first case whose label is `v`.
unfoldable pub type_among : List ControlType → ℕ → Option ControlType
unfolding type_value
type_among [] v = none
type_among (t ∷ ts) v = let rest = type_among ts v in if v == type_value t then some t else rest

unfoldable pub control_type_from_value : ℕ → Option ControlType
unfolding type_among
control_type_from_value v = type_among cases v

unfoldable pub same_type : ControlType → ControlType → Bool
unfolding type_value
same_type s t = type_value s == type_value t

pub record ControlMessage : Type 0 where
  pub message_type : ControlType
  pub data_bytes : List ℕ

unfoldable pub message : ControlType → List ℕ → ControlMessage
message t bytes = record { message_type = t; data_bytes = bytes }

unfoldable pub of_type : ControlType → ControlMessage
unfolding message
of_type t = message t []

unfoldable pub serialize : ControlMessage → List ℕ
unfolding type_value
serialize m = type_value m.message_type ∷ m.data_bytes

unfoldable pub deserialize_typed : Option ControlType → List ℕ → Option ControlMessage
unfolding message
deserialize_typed none rest = none
deserialize_typed (some t) rest = some (message t rest)

unfoldable pub deserialize : List ℕ → Option ControlMessage
unfolding deserialize_typed control_type_from_value
deserialize [] = none
deserialize (b ∷ rest) = deserialize_typed (control_type_from_value b) rest

-- A conversion of an `int32_t` to an unsigned type of `w` bits.
unfoldable pub to_unsigned : ℕ → ℤ → ℕ
to_unsigned w z = (pos_part z + (2 ^ w - neg_part z % 2 ^ w)) % 2 ^ w

unfoldable pub audio_config_message : AudioStreamConfig → ControlMessage
unfolding message to_unsigned
audio_config_message c =
    let w = put_u32 [] (to_unsigned 32 c.sample_rate) in
    let w = put_u8 w (to_unsigned 8 c.bits_per_sample) in
    let w = put_u8 w (to_unsigned 8 c.channels) in
    let w = put_u16 w (to_unsigned 16 c.frame_duration_ms) in
    let w = put_u16 w (to_unsigned 16 c.buffer_target_ms) in
    let w = put_u16 w (to_unsigned 16 c.buffer_min_ms) in
    let w = put_u16 w (to_unsigned 16 c.buffer_max_ms) in message audio_config w

-- The buffer settings, which the old format does not have.
unfoldable pub apply_buffers : Reader → AudioStreamConfig → AudioStreamConfig
apply_buffers r c =
    let (target, r) = get_u16 r in
    let (low, r) = get_u16 r in
    let (high, r) = get_u16 r in
    record c { buffer_target_ms = pos target; buffer_min_ms = pos low; buffer_max_ms = pos high }

-- `applyAudioConfigTo`; `none` where it returns false and leaves the target as it is.
unfoldable pub apply_audio_config_to : ControlMessage → AudioStreamConfig → Option AudioStreamConfig
unfolding apply_buffers
apply_audio_config_to m c =
    let (rate, r) = get_u32 (reader m.data_bytes) in
    let (bits, r) = get_u8 r in
    let (channels, r) = get_u8 r in
    let (frame, r) = get_u16 r in
    let formatted = record c {
      sample_rate = signed32 rate;
      bits_per_sample = pos bits;
      channels = pos channels;
      frame_duration_ms = pos frame;
    } in
    if not (same_type m.message_type audio_config) || ltb (length m.data_bytes) 8
    then none
    else some (if ltb (length m.data_bytes) 14 then formatted else apply_buffers r formatted)

unfoldable pub parse_audio_config : ControlMessage → Option AudioStreamConfig
unfolding apply_audio_config_to
parse_audio_config m = apply_audio_config_to m default_config

unfoldable pub audio_config_v12 : AudioStreamConfig → ℕ → ControlMessage
unfolding audio_config_message message
audio_config_v12 c granted_layout =
    message audio_config (put_u8 (put_bytes [] (audio_config_message c).data_bytes) granted_layout)

unfoldable pub parse_granted_layout : ControlMessage → Option ℕ
parse_granted_layout m =
    if not (same_type m.message_type audio_config) || ltb (length m.data_bytes) 15
    then none
    else some (get_or m.data_bytes 14 0)

unfoldable pub latency_probe_message : ℕ → ControlMessage
unfolding message
latency_probe_message timestamp = message latency_probe (put_u64 [] timestamp)

unfoldable pub latency_response_message : ℕ → ControlMessage
unfolding message
latency_response_message timestamp = message latency_response (put_u64 [] timestamp)

unfoldable pub parse_latency_timestamp : ControlMessage → ℕ
parse_latency_timestamp m =
    if ltb (length m.data_bytes) 8 then 0 else (get_u64 (reader m.data_bytes)).0

unfoldable pub discover_message : ℕ → ControlMessage
unfolding message
discover_message token = message discover (put_u32 [] token)

unfoldable pub parse_discover_token : ControlMessage → Option ℕ
parse_discover_token m =
    if not (same_type m.message_type discover) || ltb (length m.data_bytes) 4
    then none
    else some (get_u32 (reader m.data_bytes)).0

unfoldable pub nack_message : ℕ → ControlMessage
unfolding message
nack_message missing = message nack (put_u32 [] missing)

-- `0xffffffff` is the bit pattern of -1.
unfoldable pub parse_nack_sequence : ControlMessage → ℕ
parse_nack_sequence m =
    if not (same_type m.message_type nack) || ltb (length m.data_bytes) 4
    then 0xffff_ffff
    else (get_u32 (reader m.data_bytes)).0

unfoldable pub control_ack_message : ℕ → ControlMessage
unfolding message
control_ack_message acked = message control_ack (put_u32 [] acked)

unfoldable pub parse_control_ack_sequence : ControlMessage → ℕ
parse_control_ack_sequence m =
    if not (same_type m.message_type control_ack) || ltb (length m.data_bytes) 4
    then 0xffff_ffff
    else (get_u32 (reader m.data_bytes)).0
