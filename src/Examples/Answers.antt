-- ===== src/Examples/Answers.antt =====
-- A refusal and the answer of a discovery.
use naudio.Prelude.{◌≡◌, arith, some, [], ◌∷◌, take}
use naudio.Texts.{
  busy, connect_reject_message, error_message, text, parse_error_message, tx_denied_message,
  tx_preempted_message, parse_tx_client_id, DiscoveryInfo, discover_reply_message,
  parse_discover_reply,
}
use naudio.Texts.Reasons.{shown, parse-text}
use naudio.Texts.Replies.{IsWireInfo, parse-discover_reply}

parse-text_example :
    (parse_error_message (connect_reject_message busy (104 ∷ 105 ∷ []))
      ≡ some (shown busy (104 ∷ 105 ∷ [])))
    × (parse_error_message (error_message (111 ∷ 107 ∷ [])) ≡ some (text (111 ∷ 107 ∷ [])))
    × (parse_tx_client_id (tx_denied_message (111 ∷ 107 ∷ [])) ≡ some (111 ∷ 107 ∷ []))
    × (parse_tx_client_id (tx_preempted_message (111 ∷ 107 ∷ [])) ≡ some (111 ∷ 107 ∷ []))
parse-text_example = parse-text busy (104 ∷ 105 ∷ []) 111 (107 ∷ []) (omega arith)

abbrev shack : DiscoveryInfo
shack = record {
  token = 0xdead_beef;
  port = 4533;
  transports = 3;
  sample_rate = 48000;
  bits_per_sample = 16;
  channels = 2;
  client_count = 1;
  max_clients = 4;
  name = 115 ∷ 104 ∷ [];
}

shack-IsWireInfo : IsWireInfo shack
shack-IsWireInfo = record {
  token = omega arith;
  port = omega arith;
  transports = omega arith;
  sample_rate = omega arith;
  bits_per_sample = omega arith;
  channels = omega arith;
  client_count = omega arith;
  max_clients = omega arith;
}

parse-discover_reply_example :
    parse_discover_reply (discover_reply_message shack)
    ≡ some (record shack { name = take 255 shack.name })
parse-discover_reply_example = parse-discover_reply shack shack-IsWireInfo
