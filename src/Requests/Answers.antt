-- ===== src/Requests/Answers.antt =====
-- src/ControlMessage.cpp: the three parsers of a connect request on what was built.
use naudio.Prelude.{
  ℕ, ◌+◌, ◌%◌, ◌^◌, ◌≤◌, ◌<◌, ◌≡◌, refl, sym, ap, ◌∙◌, subst, false, ◌||◌, Option, none, some, List,
  [], ◌∷◌, ◌++◌, append_assoc, append-nil, arith, length, length-append, ltb, ◌==◌, if◌then◌else◌,
}
use native.Mathlib.Nat.{mod-eq_of_lt}
use naudio.Config.{AudioStreamConfig}
use naudio.Bytes.{put_u8, put_bytes, remaining, set_pos, get_u32}
use naudio.Bytes.Laws.{
  be, length-be, put_u32-append, At, remaining-At, get_u8-At, get_u32-At, skip-At,
}
use naudio.Control.{ControlMessage, message, connect_request}
use naudio.Roster.{ClientInfo, is_empty, serialize_client_info, deserialize_client_info}
use naudio.Roster.Identity.{
  clamped, info_bytes, length-clamped, length-info_bytes, info-At, written, serialize_fields_lem,
}
use naudio.Requests.{
  connect_request_full, parse_connect_request_client_info, parse_connect_request_format_request,
  read_format, RxFormatRequest, connect_request_v12,
}
use naudio.Requests.Walk.{
  flag, body, above, nonzero, past_name-At, past_config-At, walked, request_body,
}

-- The two bodies of a request: with the fields of version 1.2 behind, or without.
module _ (name : List ℕ) (version : ℕ) (c : Option AudioStreamConfig) (i : ClientInfo)
    (short : length name < 256) (filled : is_empty i ≡ false) where
  abbrev info_sent : List ℕ
  info_sent = serialize_client_info (some i)

  sent_lem : info_sent ≡ info_bytes (clamped i)
  sent_lem = written i filled ∙ serialize_fields_lem i

  few : length info_sent < 256
  few = omega (arith, ap length sent_lem, length-clamped i)

  abbrev extended : List ℕ → ControlMessage
  extended tail =
      message connect_request ((connect_request_full name version c (some i)).data_bytes ++ tail)

  extended_lem :
      (tail : List ℕ) → extended tail ≡ message connect_request (body name version c info_sent tail)
  extended_lem tail =
      ap (message connect_request) (request_body name version c (some i) tail short few)

  client_info-extended :
      (tail : List ℕ) → parse_connect_request_client_info (extended tail) ≡ some (clamped i)
  unfolding parse_connect_request_client_info
  client_info-extended tail =
      let (r, e, a) = past_name-At name version c info_sent tail in
      let (s, g, b) = past_config-At c r (length info_sent) (info_sent ++ tail) a in
      ap parse_connect_request_client_info (extended_lem tail)
      ∙ walked (message connect_request (body name version c info_sent tail))
          (λ len r1.
            if (len == 0) || ltb (remaining r1) len then none else deserialize_client_info r1)
          r s (flag c) (length info_sent) e g
      ∙ present (length info_sent) (remaining s)
          (omega (arith, ap length sent_lem, length-info_bytes (clamped i)))
          (omega (arith, remaining-At s b, length-append info_sent tail))
      ∙ info-At s (clamped i) tail (subst (λ l. At s (l ++ tail)) sent_lem b)
    where
      present :
          (n m : ℕ) {A : Type 0} {x : Option A}
          → 1 ≤ n
          → n ≤ m
          → (if (n == 0) || ltb m n then none else x) ≡ x
      present n m some_bytes there = rw (nonzero n some_bytes, above m n there) refl

  -- The format request behind the body.
  format-extended :
      (f : RxFormatRequest)
      → f.sample_rate < 2 ^ 32
      → parse_connect_request_format_request (extended (be 4 f.sample_rate ++ (f.layout ∷ [])))
        ≡ some f
  unfolding parse_connect_request_format_request read_format
  format-extended f rate =
      let tail = be 4 f.sample_rate ++ (f.layout ∷ []) in
      let (r, e, a) = past_name-At name version c info_sent tail in
      let (s, g, b) = past_config-At c r (length info_sent) (info_sent ++ tail) a in
      let behind = set_pos s (s.pos + length info_sent) in
      let d = skip-At s info_sent tail (length info_sent) refl b in
      let (rate_read, d1, same1) = get_u32-At f.sample_rate behind (f.layout ∷ []) rate d in
      let (layout_read, d2, same2) = get_u8-At (get_u32 behind).1 f.layout [] d1 in
      ap parse_connect_request_format_request (extended_lem tail)
      ∙ walked (message connect_request (body name version c info_sent tail))
          (λ len r1.
            if ltb (remaining r1) len
            then none
            else if ltb (remaining (set_pos r1 (r1.pos + len))) 5
            then none
            else some (read_format (set_pos r1 (r1.pos + len))))
          r s (flag c) (length info_sent) e g
      ∙ present (remaining s) (length info_sent) (remaining behind)
          (omega (arith, remaining-At s b, length-append info_sent tail))
          (omega (
            arith,
            remaining-At behind d,
            length-append (be 4 f.sample_rate) (f.layout ∷ []),
            length-be 4 f.sample_rate,
          ))
      ∙ (λ j. some (record { sample_rate = rate_read j; layout = layout_read j }))
    where
      present :
          (x n y : ℕ) {A : Type 0} {v : Option A}
          → n ≤ x
          → 5 ≤ y
          → (if ltb x n then none else if ltb y 5 then none else v) ≡ v
      present x n y there five = rw (above x n there, above y 5 five) refl

  plain : connect_request_full name version c (some i) ≡ extended []
  unfolding connect_request_full message
  plain =
      ap (message connect_request)
        (sym (append-nil (connect_request_full name version c (some i)).data_bytes))

  tailed :
      (f : RxFormatRequest)
      → f.layout < 256
      → connect_request_v12 name version c (some i) f
        ≡ extended (be 4 f.sample_rate ++ (f.layout ∷ []))
  unfolding connect_request_v12 put_bytes put_u8
  tailed f small =
      let b = (connect_request_full name version c (some i)).data_bytes in
      ap (message connect_request) (
        ap (λ w. w ++ f.layout % 256 ∷ []) (put_u32-append b f.sample_rate)
        ∙ append_assoc b (be 4 f.sample_rate) (f.layout % 256 ∷ [])
        ∙ ap (λ n. b ++ (be 4 f.sample_rate ++ (n ∷ []))) (mod-eq_of_lt small))

-- A connect request in its version 1.2 form, with a name of less than 256 bytes, an info that is not
-- empty, a format request within its widths and any config or none: the server finds the info, each
-- text cut to what the ones before it leave of 252 bytes, and the format request itself; and in the
-- version 1 form without the request it finds the same info.
pub parse-connect_request :
    (name : List ℕ) (version : ℕ) (c : Option AudioStreamConfig) (i : ClientInfo)
    (f : RxFormatRequest)
    → length name < 256
    → is_empty i ≡ false
    → f.sample_rate < 2 ^ 32
    → f.layout < 256
    → (parse_connect_request_client_info (connect_request_v12 name version c (some i) f)
        ≡ some (clamped i))
      × (parse_connect_request_format_request (connect_request_v12 name version c (some i) f)
          ≡ some f)
      × (parse_connect_request_client_info (connect_request_full name version c (some i))
          ≡ some (clamped i))
parse-connect_request name version c i f short filled rate small = (
  ap parse_connect_request_client_info (tailed name version c i short filled f small)
      ∙ client_info-extended name version c i short filled (be 4 f.sample_rate ++ (f.layout ∷ [])),
  ap parse_connect_request_format_request (tailed name version c i short filled f small)
      ∙ format-extended name version c i short filled f rate,
  ap parse_connect_request_client_info (plain name version c i short filled)
      ∙ client_info-extended name version c i short filled [],
)
