-- ===== src/Packet/Frame.antt =====
-- The frame that `AudioPacket::serialize` writes, as one list.
use naudio.Prelude.{
  ℕ, zero, suc, ◌+◌, ◌%◌, ◌^◌, ◌<◌, min, ◌≡◌, refl, sym, ap, ◌∙◌, subst, List, [], ◌∷◌, ◌++◌,
  append_assoc, arith, length, length-append, length-take, drop, take,
}
use naudio.Config.{max_payload}
use naudio.Bytes.{put_bytes}
use naudio.Bytes.Laws.{be, put_u8-append, put_u16-append, put_u32-append, put_u64-append}
use naudio.Crc.{crc32}
use naudio.Crc.Bitwise.{AllBytes, AllBytes-append}
use naudio.Packet.{
  PacketType, audio_rx, audio_tx, control, heartbeat, fec_parity, AudioPacket, type_value, put_body,
  serialize,
}

-- The 19 bytes of the header, for a payload of `n` bytes.
unfoldable pub header : AudioPacket → ℕ → List ℕ
header p n =
    0xaf
    ∷ 0x01
    ∷ p.version % 256
    ∷ type_value p.packet_type
    ∷ p.flags % 256
    ∷ (be 4 p.sequence ++ (be 8 p.timestamp ++ be 2 n))

-- The payload bytes that a frame carries.
abbrev pub carried : AudioPacket → ℕ
carried p = min (length p.payload) max_payload

type_value-mod : (t : PacketType) → type_value t % 256 ≡ type_value t
unfolding type_value
type_value-mod audio_rx = refl
type_value-mod audio_tx = refl
type_value-mod control = refl
type_value-mod heartbeat = refl
type_value-mod fec_parity = refl

pub put_body_lem :
    (p : AudioPacket) → put_body p ≡ header p (carried p) ++ take (carried p) p.payload
unfolding put_body header put_bytes
put_body_lem p =
    simp
      (put_u16-append, put_u8-append, put_u32-append, put_u64-append, type_value-mod, append_assoc)

abbrev pub frame : List ℕ → List ℕ
frame body = body ++ be 4 (crc32 body)

pub serialize_lem : (p : AudioPacket) → serialize p ≡ frame (put_body p)
unfolding serialize
serialize_lem p = put_u32-append (put_body p) (crc32 (put_body p))

-- The field ranges of the C++ types.
pub record IsWire (p : AudioPacket) : Type 0 where
  pub version : p.version < 2 ^ 8
  pub flags : p.flags < 2 ^ 8
  pub sequence : p.sequence < 2 ^ 32
  pub timestamp : p.timestamp < 2 ^ 64
  pub payload : AllBytes p.payload

pub type_value_lt : (t : PacketType) → type_value t < 5
unfolding type_value
type_value_lt audio_rx = omega arith
type_value_lt audio_tx = omega arith
type_value_lt control = omega arith
type_value_lt heartbeat = omega arith
type_value_lt fec_parity = omega arith

pub be-AllBytes : (k u : ℕ) → AllBytes (be k u)
be-AllBytes zero u = tt
be-AllBytes (suc k) u = (omega arith, be-AllBytes k u)

pub take-AllBytes : (n : ℕ) (xs : List ℕ) → AllBytes xs → AllBytes (take n xs)
take-AllBytes zero xs h = tt
take-AllBytes (suc n) [] h = tt
take-AllBytes (suc n) (x ∷ xs) h = (h.0, take-AllBytes n xs h.1)

pub drop-AllBytes : (n : ℕ) (xs : List ℕ) → AllBytes xs → AllBytes (drop n xs)
drop-AllBytes zero xs h = h
drop-AllBytes (suc n) [] h = tt
drop-AllBytes (suc n) (x ∷ xs) h = drop-AllBytes n xs h.1

pub header-AllBytes : (p : AudioPacket) (n : ℕ) → AllBytes (header p n)
unfolding header
header-AllBytes p n = (
  omega arith,
  (
    omega arith,
    (
      omega arith,
      (
        omega (arith, type_value_lt p.packet_type),
        (
          omega arith,
          AllBytes-append (be 4 p.sequence) (be 8 p.timestamp ++ be 2 n) (be-AllBytes 4 p.sequence)
              (AllBytes-append (be 8 p.timestamp) (be 2 n) (be-AllBytes 8 p.timestamp)
                (be-AllBytes 2 n)),
        ),
      ),
    ),
  ),
)

pub put_body-AllBytes : (p : AudioPacket) → AllBytes p.payload → AllBytes (put_body p)
put_body-AllBytes p h = subst AllBytes (sym (put_body_lem p)) (
    AllBytes-append (header p (carried p)) _ (header-AllBytes p (carried p))
      (take-AllBytes (carried p) p.payload h))

pub length-header : (p : AudioPacket) (n : ℕ) → length (header p n) ≡ 19
unfolding header
length-header p n = refl

pub length-put_body : (p : AudioPacket) → length (put_body p) ≡ 19 + carried p
length-put_body p =
    ap length (put_body_lem p)
    ∙ omega (
      arith,
      length-append (header p (carried p)) (take (carried p) p.payload),
      length-header p (carried p),
      length-take (carried p) p.payload,
    )
