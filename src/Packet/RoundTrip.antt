-- ===== src/Packet/RoundTrip.antt =====
-- `AudioPacket::deserialize` on what `AudioPacket::serialize` wrote.
use naudio.Prelude.{
  ℕ, suc, ◌+◌, ◌^◌, ◌≤◌, ◌<◌, min, ◌≡◌, refl, sym, ap, ap₂, ◌∙◌, subst, some, List, [], ◌∷◌, ◌++◌,
  append_assoc, arith, length, length-append, length-take, get_or, take, drop,
}
use naudio.Prelude.Segments.{take-append_length, drop-append_length}
use naudio.Config.{max_payload}
use naudio.Bytes.Laws.{be}
use naudio.Crc.{crc32}
use naudio.Crc.Bitwise.{crc32_lt}
use naudio.Packet.{
  PacketType, audio_rx, audio_tx, control, heartbeat, fec_parity, AudioPacket, magic, type_value,
  packet_type_from_value, put_body, serialize, word16_at, word32_at, read_word, deserialize,
}
use naudio.Packet.Frame.{
  header, carried, put_body_lem, serialize_lem, IsWire, put_body-AllBytes, length-header,
}

-- The packet that a frame holds, for the type `t`.
abbrev pub held : PacketType → List ℕ → AudioPacket
held t source = record {
  version = get_or source 2 0;
  packet_type = t;
  flags = get_or source 4 0;
  sequence = word32_at source 5;
  timestamp = read_word 8 source 9 0;
  payload = take (word16_at source 17) (drop 19 source);
}

-- What `deserialize` checks.
pub record Accepts (source : List ℕ) (t : PacketType) : Type 0 where
  pub long : 23 ≤ length source
  pub mark : word16_at source 0 ≡ magic
  pub kind : packet_type_from_value (get_or source 3 0) ≡ some t
  pub small : word16_at source 17 ≤ max_payload
  pub complete : 19 + word16_at source 17 + 4 ≤ length source
  pub intact :
      crc32 (take (19 + word16_at source 17) source) ≡ word32_at source (19 + word16_at source 17)

pub deserialize-accepts :
    (source : List ℕ) (t : PacketType)
    → Accepts source t
    → deserialize source ≡ some (held t source)
unfolding deserialize
deserialize-accepts source t a =
    rw a.kind (ground (arith, a.long, a.mark, a.small, a.complete, a.intact))

pub type_from-value : (t : PacketType) → packet_type_from_value (type_value t) ≡ some t
unfolding packet_type_from_value type_value
type_from-value audio_rx = refl
type_from-value audio_tx = refl
type_from-value control = refl
type_from-value heartbeat = refl
type_from-value fec_parity = refl

get_or-append : (xs ys : List ℕ) (i d : ℕ) → get_or (xs ++ ys) (length xs + i) d ≡ get_or ys i d
get_or-append [] ys i d = ap (λ k. get_or ys k d) (omega arith)
get_or-append (x ∷ xs) ys i d =
    ap (λ k. get_or (x ∷ xs ++ ys) k d) {y = suc (length xs + i)} (omega arith)
    ∙ get_or-append xs ys i d

word32_at-append :
    (xs : List ℕ) (c : ℕ) (ys : List ℕ)
    → c < 2 ^ 32
    → word32_at (xs ++ (be 4 c ++ ys)) (length xs) ≡ c
unfolding word32_at
word32_at-append xs c ys h = omega (
  arith,
  ap (λ k. get_or (xs ++ (be 4 c ++ ys)) k 0) {x = length xs} {y = length xs + 0} (omega arith),
  get_or-append xs (be 4 c ++ ys) 0 0,
  get_or-append xs (be 4 c ++ ys) 1 0,
  get_or-append xs (be 4 c ++ ys) 2 0,
  get_or-append xs (be 4 c ++ ys) 3 0,
)

module _ (p : AudioPacket) (wire : IsWire p) (rest : List ℕ) where
  abbrev n : ℕ
  n = carried p

  abbrev source : List ℕ
  source = header p n ++ rest

  pub read_length : word16_at source 17 ≡ n
  unfolding word16_at header
  read_length = omega arith

  read_magic : word16_at source 0 ≡ magic
  unfolding word16_at header
  read_magic = refl

  read_version : get_or source 2 0 ≡ p.version
  unfolding header
  read_version = omega (arith, wire.version)

  read_type : packet_type_from_value (get_or source 3 0) ≡ some p.packet_type
  unfolding header
  read_type = type_from-value p.packet_type

  read_flags : get_or source 4 0 ≡ p.flags
  unfolding header
  read_flags = omega (arith, wire.flags)

  read_sequence : word32_at source 5 ≡ p.sequence
  unfolding word32_at header
  read_sequence = omega (arith, wire.sequence)

  read_timestamp : read_word 8 source 9 0 ≡ p.timestamp
  unfolding read_word header
  read_timestamp = omega (arith, wire.timestamp)

module _ (p : AudioPacket) (wire : IsWire p) (extra : List ℕ) where
  abbrev body : List ℕ
  body = put_body p

  abbrev payload_sent : List ℕ
  payload_sent = take (carried p) p.payload

  abbrev tail : List ℕ
  tail = be 4 (crc32 body) ++ extra

  -- The frame, split after its header and after its body.
  split_body : serialize p ++ extra ≡ body ++ tail
  split_body = ap (λ l. l ++ extra) (serialize_lem p) ∙ append_assoc body (be 4 (crc32 body)) extra

  pub split_header : serialize p ++ extra ≡ header p (carried p) ++ (payload_sent ++ tail)
  split_header =
      split_body
      ∙ ap (λ l. l ++ tail) (put_body_lem p)
      ∙ append_assoc (header p (carried p)) payload_sent tail

  payload_length : length payload_sent ≡ carried p
  payload_length = omega (arith, length-take (carried p) p.payload)

  body-length : length body ≡ 19 + carried p
  body-length =
      ap length (put_body_lem p)
      ∙ omega (
        arith,
        length-append (header p (carried p)) payload_sent,
        length-header p (carried p),
        payload_length,
      )

  abbrev sent : List ℕ
  sent = header p (carried p) ++ (payload_sent ++ tail)

  sent-length : length sent ≡ 19 + carried p + 4 + length extra
  sent-length = omega (
    arith,
    length-append (header p (carried p)) (payload_sent ++ tail),
    length-append payload_sent tail,
    length-append (be 4 (crc32 body)) extra,
    length-header p (carried p),
    payload_length,
  )

  same_bytes : sent ≡ body ++ tail
  same_bytes = sym split_header ∙ split_body

  sent_crc : crc32 (take (19 + carried p) sent) ≡ word32_at sent (19 + carried p)
  sent_crc =
      ap crc32 (ap₂ take (sym body-length) same_bytes ∙ take-append_length body tail)
      ∙ sym (
          ap₂ word32_at same_bytes (sym body-length)
          ∙ word32_at-append body (crc32 body) extra
              (crc32_lt body (put_body-AllBytes p wire.payload)))

  sent-Accepts : Accepts sent p.packet_type
  sent-Accepts = record {
    long = omega (arith, sent-length);
    mark = read_magic p wire (payload_sent ++ tail);
    kind = read_type p wire (payload_sent ++ tail);
    small = omega (arith, len);
    complete = omega (arith, len, sent-length);
    intact = subst (λ k. crc32 (take (19 + k) sent) ≡ word32_at sent (19 + k)) (sym len) sent_crc;
  }
    where
      len : word16_at sent 17 ≡ carried p
      len = read_length p wire (payload_sent ++ tail)

  sent_payload : take (word16_at sent 17) (drop 19 sent) ≡ payload_sent
  sent_payload =
      ap (λ k. take k (drop 19 sent))
        (read_length p wire (payload_sent ++ tail) ∙ sym payload_length)
      ∙ ap (λ k. take (length payload_sent) (drop k sent)) (sym (length-header p (carried p)))
      ∙ ap (take (length payload_sent))
          (drop-append_length (header p (carried p)) (payload_sent ++ tail))
      ∙ take-append_length payload_sent tail

  sent-held : held p.packet_type sent ≡ record p { payload = payload_sent }
  sent-held = λ i. record {
    version = read_version p wire (payload_sent ++ tail) i;
    packet_type = p.packet_type;
    flags = read_flags p wire (payload_sent ++ tail) i;
    sequence = read_sequence p wire (payload_sent ++ tail) i;
    timestamp = read_timestamp p wire (payload_sent ++ tail) i;
    payload = sent_payload i;
  }

-- What `serialize` writes, also with other bytes behind it, `deserialize` reads back as the packet
-- with the first 16384 bytes of its payload: as the packet itself if the payload is no longer.
pub deserialize-serialize :
    (p : AudioPacket) (extra : List ℕ)
    → IsWire p
    → deserialize (serialize p ++ extra)
      ≡ some (record p { payload = take (min (length p.payload) max_payload) p.payload })
deserialize-serialize p extra wire =
    ap deserialize (split_header p wire extra)
    ∙ deserialize-accepts (sent p wire extra) p.packet_type (sent-Accepts p wire extra)
    ∙ ap some (sent-held p wire extra)
