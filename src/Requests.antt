-- ===== src/Requests.antt =====
-- src/ControlMessage.cpp: the connect request of a client, with what it asks for.
pub mod Walk
pub mod Answers
use naudio.Prelude.{
  ℕ, ◌+◌, not, ◌||◌, ◌&&◌, Option, none, some, List, [], length, ltb, ◌==◌, if◌then◌else◌,
}
use naudio.Config.{AudioStreamConfig, default_config}
use naudio.Bytes.{
  put_u8, put_u16, put_u32, put_bytes, Reader, reader, remaining, set_pos, get_u8, get_u32,
}
use naudio.Control.{ControlMessage, message, same_type, to_unsigned, apply_buffers, connect_request}
use naudio.Roster.{ClientInfo, serialize_client_info, deserialize_client_info}

pub record RxFormatRequest : Type 0 where
  pub sample_rate : ℕ
  pub layout : ℕ

-- The flag, and the buffer settings that are asked for.
unfoldable pub put_config : List ℕ → Option AudioStreamConfig → List ℕ
unfolding to_unsigned
put_config w none = put_u8 w 0
put_config w (some c) =
    let w = put_u8 w 1 in
    let w = put_u16 w (to_unsigned 16 c.buffer_target_ms) in
    let w = put_u16 w (to_unsigned 16 c.buffer_min_ms) in put_u16 w (to_unsigned 16 c.buffer_max_ms)

unfoldable pub connect_request_full :
    List ℕ → ℕ → Option AudioStreamConfig → Option ClientInfo → ControlMessage
unfolding put_config message
connect_request_full client_name protocol_version requested info =
    let info_bytes = serialize_client_info info in
    let w = put_u8 [] protocol_version in
    let w = put_u8 w (length client_name) in
    let w = put_bytes w client_name in
    let w = put_config w requested in
    let w = put_u8 w (length info_bytes) in message connect_request (put_bytes w info_bytes)

unfoldable pub connect_request_message : List ℕ → ℕ → ControlMessage
unfolding connect_request_full
connect_request_message client_name protocol_version =
    connect_request_full client_name protocol_version none none

unfoldable pub connect_request_with_config : List ℕ → ℕ → Option AudioStreamConfig → ControlMessage
unfolding connect_request_full
connect_request_with_config client_name protocol_version requested =
    connect_request_full client_name protocol_version requested none

unfoldable pub connect_request_v12 :
    List ℕ → ℕ → Option AudioStreamConfig → Option ClientInfo → RxFormatRequest → ControlMessage
unfolding connect_request_full message
connect_request_v12 client_name protocol_version requested info format =
    let body = connect_request_full client_name protocol_version requested info in
    let w = put_bytes [] body.data_bytes in
    let w = put_u32 w format.sample_rate in message connect_request (put_u8 w format.layout)

-- Where the walk of the three parsers goes on: behind the name, with the flag of the config.
unfoldable pub past_name : ControlMessage → Option (ℕ × Reader)
past_name m =
    let (version, r) = get_u8 (reader m.data_bytes) in
    let (name_len, r) = get_u8 r in
    if not (same_type m.message_type connect_request) || ltb (length m.data_bytes) 3
    then none
    else if ltb (remaining r) (name_len + 1)
    then none
    else some (get_u8 (set_pos r (r.pos + name_len)))

-- Behind the config, if there is one, with the length of the client info.
unfoldable pub past_config : ℕ → Reader → Option (ℕ × Reader)
past_config has_config r =
    let behind = if has_config == 0 then r else set_pos r (r.pos + 6) in
    if not (has_config == 0) && ltb (remaining r) 6
    then none
    else if ltb (remaining behind) 1
    then none
    else some (get_u8 behind)

unfoldable pub parse_connect_request_config : ControlMessage → Option AudioStreamConfig
unfolding past_name
parse_connect_request_config m = elim (past_name m) [
  | none ↦ none
  | some (has_config, r) ↦
      if (has_config == 0) || ltb (remaining r) 6
      then none
      else some (apply_buffers r default_config)
]

unfoldable pub parse_connect_request_client_info : ControlMessage → Option ClientInfo
unfolding past_name past_config
parse_connect_request_client_info m = elim (past_name m) [
  | none ↦ none
  | some (has_config, r) ↦ elim (past_config has_config r) [
    | none ↦ none
    | some (len, r1) ↦
        if (len == 0) || ltb (remaining r1) len then none else deserialize_client_info r1
  ]
]

unfoldable pub read_format : Reader → RxFormatRequest
read_format r =
    let (rate, r) = get_u32 r in
    let (layout, r) = get_u8 r in record { sample_rate = rate; layout = layout }

unfoldable pub parse_connect_request_format_request : ControlMessage → Option RxFormatRequest
unfolding past_name past_config read_format
parse_connect_request_format_request m = elim (past_name m) [
  | none ↦ none
  | some (has_config, r) ↦ elim (past_config has_config r) [
    | none ↦ none
    | some (len, r1) ↦
        let tail = set_pos r1 (r1.pos + len) in
        if ltb (remaining r1) len
        then none
        else if ltb (remaining tail) 5
        then none
        else some (read_format tail)
  ]
]
