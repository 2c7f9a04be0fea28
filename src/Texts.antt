-- ===== src/Texts.antt =====
-- src/ControlMessage.cpp: the control messages that carry a text, and the answer of a discovery. A
-- string is the list of its bytes.
pub mod Reasons
pub mod Replies
use naudio.Prelude.{
  ℕ, ◌+◌, Bool, true, false, not, ◌||◌, ◌&&◌, Option, none, some, List, [], ◌∷◌, length, get_or,
  take, drop, ltb, leb, ◌==◌, if◌then◌else◌,
}
use naudio.Bytes.{
  put_u8, put_u16, put_u32, put_bytes, Reader, reader, remaining, get_u8, get_u16, get_u32,
  read_bytes,
}
use naudio.Control.{
  ControlMessage, message, same_type, connect_reject, error, tx_denied, tx_preempted,
  discover_reply,
}

pub data RejectReason : Type 0 where
  busy version_mismatch format_not_supported auth_failed rejected : RejectReason

unfoldable pub reason_value : RejectReason → ℕ
reason_value busy = 1
reason_value version_mismatch = 2
reason_value format_not_supported = 3
reason_value auth_failed = 4
reason_value rejected = 0xff

unfoldable pub reject_reason_from_value : ℕ → RejectReason
reject_reason_from_value v =
    if v == 1
    then busy
    else if v == 2
    then version_mismatch
    else if v == 3
    then format_not_supported
    else if v == 4
    then auth_failed
    else rejected

unfoldable pub connect_reject_message : RejectReason → List ℕ → ControlMessage
unfolding reason_value message
connect_reject_message reason text =
    let w = put_u8 [] (reason_value reason) in
    let w = put_u8 w (length text) in message connect_reject (put_bytes w text)

unfoldable pub error_message : List ℕ → ControlMessage
unfolding message
error_message text = message error text

-- What `parseErrorMessage` returns: a text, or the name of a reason.
pub data ErrorText : Type 0 where
  text : List ℕ → ErrorText
  reason_name : RejectReason → ErrorText

unfoldable pub parse_reject : List ℕ → ErrorText
unfolding reject_reason_from_value
parse_reject bytes =
    let msg_len = get_or bytes 1 0 in
    if ltb 0 msg_len && leb (2 + msg_len) (length bytes)
    then text (take msg_len (drop 2 bytes))
    else reason_name (reject_reason_from_value (get_or bytes 0 0))

unfoldable pub parse_error_message : ControlMessage → Option ErrorText
unfolding parse_reject
parse_error_message m =
    if same_type m.message_type connect_reject && leb 2 (length m.data_bytes)
    then some (parse_reject m.data_bytes)
    else if same_type m.message_type error && ltb 0 (length m.data_bytes)
    then some (text m.data_bytes)
    else none

unfoldable pub tx_denied_message : List ℕ → ControlMessage
unfolding message
tx_denied_message holder = message tx_denied holder

unfoldable pub tx_preempted_message : List ℕ → ControlMessage
unfolding message
tx_preempted_message by = message tx_preempted by

unfoldable pub parse_tx_client_id : ControlMessage → Option (List ℕ)
parse_tx_client_id m =
    if (not (same_type m.message_type tx_denied) && not (same_type m.message_type tx_preempted))
      || (length m.data_bytes == 0)
    then none
    else some m.data_bytes

-- `host`, which is no field of the wire, is left out.
pub record DiscoveryInfo : Type 0 where
  pub token : ℕ
  pub port : ℕ
  pub transports : ℕ
  pub sample_rate : ℕ
  pub bits_per_sample : ℕ
  pub channels : ℕ
  pub client_count : ℕ
  pub max_clients : ℕ
  pub name : List ℕ

unfoldable pub discover_reply_message : DiscoveryInfo → ControlMessage
unfolding message
discover_reply_message i =
    let name_bytes = take 255 i.name in
    let w = put_u32 [] i.token in
    let w = put_u16 w i.port in
    let w = put_u8 w i.transports in
    let w = put_u32 w i.sample_rate in
    let w = put_u8 w i.bits_per_sample in
    let w = put_u8 w i.channels in
    let w = put_u8 w i.client_count in
    let w = put_u8 w i.max_clients in
    let w = put_u8 w (length name_bytes) in message discover_reply (put_bytes w name_bytes)

-- The reads of `parseDiscoverReply`; the reader of an empty name does not move.
unfoldable pub read_discover_reply : Reader → Option DiscoveryInfo
read_discover_reply r =
    let (token, r) = get_u32 r in
    let (port, r) = get_u16 r in
    let (transports, r) = get_u8 r in
    let (rate, r) = get_u32 r in
    let (bits, r) = get_u8 r in
    let (channels, r) = get_u8 r in
    let (count, r) = get_u8 r in
    let (most, r) = get_u8 r in
    let (name_len, r) = get_u8 r in
    let (name, s) = if ltb 0 name_len then read_bytes r name_len else ([], r) in
    if ltb (remaining r) name_len
    then none
    else if s.truncated
    then none
    else some (record {
      token = token;
      port = port;
      transports = transports;
      sample_rate = rate;
      bits_per_sample = bits;
      channels = channels;
      client_count = count;
      max_clients = most;
      name = name;
    })

unfoldable pub parse_discover_reply : ControlMessage → Option DiscoveryInfo
unfolding read_discover_reply
parse_discover_reply m =
    if not (same_type m.message_type discover_reply) || ltb (length m.data_bytes) 16
    then none
    else read_discover_reply (reader m.data_bytes)

-- "BUSY", "VERSION_MISMATCH", "FORMAT_NOT_SUPPORTED", "AUTH_FAILED" and "REJECTED".
unfoldable pub reject_reason_name : RejectReason → List ℕ
reject_reason_name busy = 66 ∷ 85 ∷ 83 ∷ 89 ∷ []
reject_reason_name version_mismatch =
    86 ∷ 69 ∷ 82 ∷ 83 ∷ 73 ∷ 79 ∷ 78 ∷ 95 ∷ 77 ∷ 73 ∷ 83 ∷ 77 ∷ 65 ∷ 84 ∷ 67 ∷ 72 ∷ []
reject_reason_name format_not_supported =
    70 ∷ 79 ∷ 82 ∷ 77 ∷ 65 ∷ 84 ∷ 95 ∷ 78 ∷ 79 ∷ 84 ∷ 95 ∷ 83 ∷ 85 ∷ 80 ∷ 80 ∷ 79 ∷ 82 ∷ 84 ∷ 69
    ∷ 68 ∷ []
reject_reason_name auth_failed = 65 ∷ 85 ∷ 84 ∷ 72 ∷ 95 ∷ 70 ∷ 65 ∷ 73 ∷ 76 ∷ 69 ∷ 68 ∷ []
reject_reason_name rejected = 82 ∷ 69 ∷ 74 ∷ 69 ∷ 67 ∷ 84 ∷ 69 ∷ 68 ∷ []
