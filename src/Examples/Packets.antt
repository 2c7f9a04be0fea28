-- ===== src/Examples/Packets.antt =====
-- A control packet with a payload of two bytes.
use naudio.Prelude.{
  ℕ, ◌≡◌, ◌≢◌, refl, arith, List, [], ◌∷◌, ◌++◌, length, take, drop, min, Bool, true, ◌&&◌, ltb,
  ltb→lt, none, some, Bool-cases, inl, inr,
}
use Prim.Native.Nat.{◌+◌}
use naudio.Prelude.Xor.{bit_xor}
use naudio.Config.{max_payload}
use naudio.Bytes.{put_u8, put_u16, put_u32, put_u64, put_bytes}
use naudio.Crc.{crc32}
use naudio.Crc.Bitwise.{AllBytes, crc_bitwise, crc32-eq-bitwise, crc32_one_byte}
use naudio.Packet.{AudioPacket, control, type_value, create, serialize, deserialize}
use naudio.Packet.Frame.{IsWire}
use naudio.Packet.RoundTrip.{deserialize-serialize}
use naudio.Packet.Canonical.{deserialize_canonical}
use naudio.Packet.Corruption.{deserialize_corrupted}

abbrev packet : AudioPacket
packet = create 7 control 5 (1 ∷ 2 ∷ [])

wire : IsWire packet
unfolding create
wire = record {
  version = omega arith;
  flags = omega arith;
  sequence = omega arith;
  timestamp = omega arith;
  payload = (omega arith, (omega arith, tt));
}

abbrev pub all_bytes : List ℕ → Bool
all_bytes [] = true
all_bytes (b ∷ bs) = ltb b 256 && all_bytes bs

pub all_bytes-AllBytes : (bs : List ℕ) → all_bytes bs ≡ true → AllBytes bs
all_bytes-AllBytes [] e = tt
all_bytes-AllBytes (b ∷ bs) e = elim (Bool-cases (ltb b 256)) [
  | inl small ↦ (ltb→lt b 256 small, all_bytes-AllBytes bs (rw small at e))
  | inr large ↦ absurd (let clash = rw large at e in cc)
]

abbrev source : List ℕ
source = serialize packet ++ 9 ∷ []

source_bytes : AllBytes source
unfolding serialize create crc32 put_u8 put_u16 put_u32 put_u64 put_bytes type_value
source_bytes = all_bytes-AllBytes source refl

-- The check value of CRC-32, over the digits 1 to 9.
check_value :
    crc32 (0x31 ∷ 0x32 ∷ 0x33 ∷ 0x34 ∷ 0x35 ∷ 0x36 ∷ 0x37 ∷ 0x38 ∷ 0x39 ∷ []) ≡ 0xcbf4_3926
unfolding crc32
check_value = refl

crc32-eq-bitwise_example :
    crc32 (1 ∷ 255 ∷ []) ≡ bit_xor (crc_bitwise 0xffff_ffff (1 ∷ 255 ∷ [])) 0xffff_ffff
crc32-eq-bitwise_example = crc32-eq-bitwise (1 ∷ 255 ∷ []) (omega arith, (omega arith, tt))

crc32_one_byte_example : crc32 ((1 ∷ []) ++ 2 ∷ 3 ∷ []) ≢ crc32 ((1 ∷ []) ++ 4 ∷ 3 ∷ [])
crc32_one_byte_example =
    crc32_one_byte (1 ∷ []) (3 ∷ []) 2 4 (omega arith, tt) (omega arith, tt) (omega arith)
      (omega arith) (omega arith)

deserialize-serialize_example :
    deserialize (serialize packet ++ 9 ∷ [])
    ≡ some
        (record packet { payload = take (min (length packet.payload) max_payload) packet.payload })
deserialize-serialize_example = deserialize-serialize packet (9 ∷ []) wire

accepted : deserialize source ≡ some packet
unfolding create
accepted = deserialize-serialize packet (9 ∷ []) wire

deserialize_canonical_example : serialize packet ≡ take (19 + length packet.payload + 4) source
deserialize_canonical_example = deserialize_canonical source packet source_bytes accepted

abbrev before : List ℕ
before = take 19 (serialize packet)

abbrev after : List ℕ
after = drop 20 (serialize packet)

split : serialize packet ≡ before ++ 1 ∷ after
unfolding serialize create crc32 put_u8 put_u16 put_u32 put_u64 put_bytes type_value
split = refl

before-length : length before ≡ 19
unfolding serialize create crc32 put_u8 put_u16 put_u32 put_u64 put_bytes type_value
before-length = refl

deserialize_corrupted_example : deserialize (before ++ 65 ∷ after) ≡ none
deserialize_corrupted_example =
    deserialize_corrupted packet before after 1 65 wire split (omega arith) (omega arith)
      (omega (arith, before-length)) (omega (arith, before-length))
