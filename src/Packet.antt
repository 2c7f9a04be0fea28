-- ===== src/Packet.antt =====
-- include/naudio/AudioPacket.hpp, src/AudioPacket.cpp: the packets of the wire and their frames.
pub mod Frame
pub mod RoundTrip
pub mod Canonical
pub mod Corruption
use Prim.Native.Nat.{bit_and, bit_or}
use Prim.Native.String.{String}
use naudio.Prelude.{
  ℕ, zero, suc, ◌+◌, ◌-◌, ◌*◌, ◌%◌, ◌^◌, min, Bool, true, false, not, ◌||◌, Option, none, some,
  List, [], length, get_or, take, drop, ltb, ◌==◌, if◌then◌else◌,
}
use naudio.Config.{max_payload}
use naudio.Bytes.{put_u8, put_u16, put_u32, put_u64, put_bytes}
use naudio.Crc.{crc32}

pub data PacketType : Type 0 where
  audio_rx audio_tx control heartbeat fec_parity : PacketType

-- The enumerators' values.
unfoldable pub type_value : PacketType → ℕ
type_value audio_rx = 0
type_value audio_tx = 1
type_value control = 2
type_value heartbeat = 3
type_value fec_parity = 4

unfoldable pub packet_type_from_value : ℕ → Option PacketType
packet_type_from_value v =
    if v == 0
    then some audio_rx
    else if v == 1
    then some audio_tx
    else if v == 2
    then some control
    else if v == 3
    then some heartbeat
    else if v == 4
    then some fec_parity
    else none

packet_type_name : PacketType → String
packet_type_name audio_rx = "AUDIO_RX"
packet_type_name audio_tx = "AUDIO_TX"
packet_type_name control = "CONTROL"
packet_type_name heartbeat = "HEARTBEAT"
packet_type_name fec_parity = "FEC_PARITY"

abbrev pub magic : ℕ
magic = 0xaf01

abbrev pub header_size : ℕ
header_size = 19

abbrev pub crc_size : ℕ
crc_size = 4

-- `sequence` and `timestamp` are the bit patterns of the signed fields.
pub record AudioPacket : Type 0 where
  pub version : ℕ
  pub packet_type : PacketType
  pub flags : ℕ
  pub sequence : ℕ
  pub timestamp : ℕ
  pub payload : List ℕ

-- The public constructor; `now` is the clock's reading in nanoseconds.
unfoldable pub create : ℕ → PacketType → ℕ → List ℕ → AudioPacket
create now t sequence payload = record {
  version = 1;
  packet_type = t;
  flags = 0;
  sequence = sequence;
  timestamp = now;
  payload = payload;
}

unfoldable pub create_rx_audio : ℕ → ℕ → List ℕ → AudioPacket
unfolding create
create_rx_audio now sequence bytes = create now audio_rx sequence bytes

unfoldable pub create_tx_audio : ℕ → ℕ → List ℕ → AudioPacket
unfolding create
create_tx_audio now sequence bytes = create now audio_tx sequence bytes

unfoldable pub create_control : ℕ → ℕ → List ℕ → AudioPacket
unfolding create
create_control now sequence bytes = create now control sequence bytes

unfoldable pub create_heartbeat : ℕ → ℕ → AudioPacket
unfolding create
create_heartbeat now sequence = create now heartbeat sequence []

unfoldable pub has_flag : AudioPacket → ℕ → Bool
has_flag p flag = not (bit_and p.flags flag == 0)

-- `~flag` within a byte is `255 - flag`.
unfoldable pub set_flag : AudioPacket → ℕ → Bool → AudioPacket
set_flag p flag value = record p {
  flags = if value then bit_or p.flags flag else bit_and p.flags (255 - flag);
}

unfoldable pub packet_size : ℕ → ℕ
packet_size payload_length = header_size + payload_length + crc_size

-- Everything before the CRC.
unfoldable pub put_body : AudioPacket → List ℕ
put_body p =
    let payload_len = min (length p.payload) max_payload in
    let w = put_u16 [] magic in
    let w = put_u8 w p.version in
    let w = put_u8 w (type_value p.packet_type) in
    let w = put_u8 w p.flags in
    let w = put_u32 w p.sequence in
    let w = put_u64 w p.timestamp in
    let w = put_u16 w payload_len in put_bytes w (take payload_len p.payload)

unfoldable pub serialize : AudioPacket → List ℕ
unfolding put_body
serialize p = let w = put_body p in put_u32 w (crc32 w)

-- The four bytes of `source` from `i` on, as one big-endian word: `|` of shifted bytes adds.
unfoldable pub word32_at : List ℕ → ℕ → ℕ
word32_at source i =
    get_or source i 0 * 2 ^ 24
    + get_or source (i + 1) 0 * 2 ^ 16
    + get_or source (i + 2) 0 * 2 ^ 8
    + get_or source (i + 3) 0

-- The loop `raw = (raw << 8) | data[i]` over `k` bytes, in a `uint64_t`.
unfoldable pub read_word : ℕ → List ℕ → ℕ → ℕ → ℕ
read_word zero source i raw = raw
read_word (suc k) source i raw = read_word k source (i + 1) (raw * 256 % 2 ^ 64 + get_or source i 0)

unfoldable pub word16_at : List ℕ → ℕ → ℕ
word16_at source i = get_or source i 0 * 2 ^ 8 + get_or source (i + 1) 0

-- The checks after the type byte: the lengths and the CRC.
unfoldable pub deserialize_body : PacketType → List ℕ → Option AudioPacket
unfolding word16_at word32_at read_word
deserialize_body t source =
    let payload_len = word16_at source 17 in
    let crc_off = header_size + payload_len in
    if ltb max_payload payload_len || ltb (length source) (header_size + payload_len + crc_size)
    then none
    else if not (crc32 (take crc_off source) == word32_at source crc_off)
    then none
    else some (record {
      version = get_or source 2 0;
      packet_type = t;
      flags = get_or source 4 0;
      sequence = word32_at source 5;
      timestamp = read_word 8 source 9 0;
      payload = take payload_len (drop header_size source);
    })

-- The check of the type byte.
unfoldable pub deserialize_typed : Option PacketType → List ℕ → Option AudioPacket
unfolding deserialize_body
deserialize_typed none source = none
deserialize_typed (some t) source = deserialize_body t source

unfoldable pub deserialize : List ℕ → Option AudioPacket
unfolding deserialize_typed
deserialize source =
    if ltb (length source) (header_size + crc_size)
    then none
    else if not (word16_at source 0 == magic)
    then none
    else deserialize_typed (packet_type_from_value (get_or source 3 0)) source
