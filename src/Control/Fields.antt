-- ===== src/Control/Fields.antt =====
-- `ControlMessage`: the builders of the messages of fixed fields, with their parsers.
use naudio.Prelude.{ℕ, ◌^◌, ◌<◌, ◌≡◌, sym, ap, ◌∙◌, some, [], ◌++◌, append-nil, length}
use naudio.Bytes.{put_u32, put_u64, reader, get_u32, get_u64}
use naudio.Bytes.Laws.{
  be, length-be, put_u32-append, put_u64-append, reader-At, get_u32-At, get_u64-At,
}
use naudio.Control.{
  same_type, discover_message, parse_discover_token, nack_message, parse_nack_sequence,
  control_ack_message, parse_control_ack_sequence, latency_probe_message, latency_response_message,
  parse_latency_timestamp,
}

length-put_u32 : (v : ℕ) → length (put_u32 [] v) ≡ 4
length-put_u32 v = ap length (put_u32-append [] v) ∙ length-be 4 v

length-put_u64 : (v : ℕ) → length (put_u64 [] v) ≡ 8
length-put_u64 v = ap length (put_u64-append [] v) ∙ length-be 8 v

field32 : (v : ℕ) → v < 2 ^ 32 → (get_u32 (reader (put_u32 [] v))).0 ≡ v
field32 v h =
    ap (λ w. (get_u32 (reader w)).0) (put_u32-append [] v ∙ sym (append-nil (be 4 v)))
    ∙ (get_u32-At v (reader (be 4 v ++ [])) [] h (reader-At (be 4 v ++ []))).0

field64 : (v : ℕ) → v < 2 ^ 64 → (get_u64 (reader (put_u64 [] v))).0 ≡ v
field64 v h =
    ap (λ w. (get_u64 (reader w)).0) (put_u64-append [] v ∙ sym (append-nil (be 8 v)))
    ∙ (get_u64-At v (reader (be 8 v ++ [])) [] h (reader-At (be 8 v ++ []))).0

-- The token, the sequence and the timestamp of a DISCOVER, a NACK, a CONTROL_ACK, a LATENCY_PROBE
-- and a LATENCY_RESPONSE are parsed back.
pub parse-message :
    (token sequence timestamp : ℕ)
    → token < 2 ^ 32
    → sequence < 2 ^ 32
    → timestamp < 2 ^ 64
    → (parse_discover_token (discover_message token) ≡ some token)
      × (parse_nack_sequence (nack_message sequence) ≡ sequence)
      × (parse_control_ack_sequence (control_ack_message sequence) ≡ sequence)
      × (parse_latency_timestamp (latency_probe_message timestamp) ≡ timestamp)
      × (parse_latency_timestamp (latency_response_message timestamp) ≡ timestamp)
unfolding discover_message parse_discover_token nack_message parse_nack_sequence control_ack_message
    parse_control_ack_sequence latency_probe_message latency_response_message
    parse_latency_timestamp same_type
parse-message token sequence timestamp ht hs hm = (
  rw (length-put_u32 token) (ap some (field32 token ht)),
  rw (length-put_u32 sequence) (field32 sequence hs),
  rw (length-put_u32 sequence) (field32 sequence hs),
  rw (length-put_u64 timestamp) (field64 timestamp hm),
  rw (length-put_u64 timestamp) (field64 timestamp hm),
)
