-- ===== src/Fec.antt =====
-- include/naudio/FecEncoder.hpp, src/FecEncoder.cpp: the parity packet of a block of audio packets.
pub mod Recover
pub mod Block
pub mod Parity
use naudio.Prelude.{
  ℕ, zero, suc, ◌+◌, ◌-◌, min, Bool, true, false, ◌||◌, Option, none, some, List, [], ◌∷◌, ◌++◌,
  length, replicate, take, ltb, leb, ◌==◌, if◌then◌else◌,
}
use naudio.Prelude.Xor.{bit_xor}
use naudio.Prelude.Word.{add_u32}
use naudio.Bytes.{put_u8, put_u32, put_bytes}
use naudio.Packet.{AudioPacket, fec_parity}
use naudio.Packet

abbrev pub min_block_size : ℕ
min_block_size = 2

abbrev pub max_block_size : ℕ
max_block_size = 10

abbrev pub parity_header_size : ℕ
parity_header_size = 5

pub record Encoder : Type 0 where
  pub block_size : ℕ
  pub payloads : List (List ℕ)
  pub start_sequence : ℕ
  pub max_payload_len : ℕ

-- The constructor; `none` where it throws `std::invalid_argument`.
unfoldable pub create : ℕ → Option Encoder
create block_size =
    if ltb block_size min_block_size || ltb max_block_size block_size
    then none
    else some
        (record { block_size = block_size; payloads = []; start_sequence = 0; max_payload_len = 0 })

-- `for (j = 0; j < min(p.size(), data.size()); ++j) data[j] ^= p[j];`
unfoldable pub xor_into : List ℕ → List ℕ → List ℕ
xor_into [] p = []
xor_into (a ∷ acc) [] = a ∷ acc
xor_into (a ∷ acc) (b ∷ p) = bit_xor a b ∷ xor_into acc p

-- The loop over the payloads.
unfoldable pub xor_all : List ℕ → List (List ℕ) → List ℕ
unfolding xor_into
xor_all acc [] = acc
xor_all acc (p ∷ payloads) = xor_all (xor_into acc p) payloads

-- `buildParityPacket`; `now` is the clock's reading.
unfoldable pub build_parity_packet : ℕ → ℕ → Encoder → AudioPacket
unfolding xor_all
build_parity_packet now last_sequence e =
    let xor_data = xor_all (replicate e.max_payload_len 0) e.payloads in
    let w = put_u32 [] e.start_sequence in
    let w = put_u8 w e.block_size in
    let w = put_bytes w xor_data in Packet.create now fec_parity (add_u32 last_sequence 1) w

unfoldable pub reset : Encoder → Encoder
reset e = record e { payloads = []; max_payload_len = 0 }

-- The first packet of a block sets its start.
unfoldable pub opened : AudioPacket → Encoder → Encoder
opened p e = elim e.payloads [
  | [] ↦ record e { start_sequence = p.sequence; max_payload_len = 0 }
  | q ∷ qs ↦ e
]

unfoldable pub recorded : AudioPacket → Encoder → Encoder
unfolding opened
recorded p e =
    let s = opened p e in
    record s {
      max_payload_len =
          if ltb s.max_payload_len (length p.payload) then length p.payload else s.max_payload_len;
      payloads = s.payloads ++ p.payload ∷ [];
    }

unfoldable pub record_and_maybe_emit : ℕ → AudioPacket → Encoder → Option AudioPacket × Encoder
unfolding recorded build_parity_packet reset
record_and_maybe_emit now p e =
    let r = recorded p e in
    if leb r.block_size (length r.payloads)
    then (some (build_parity_packet now p.sequence r), reset r)
    else (none, r)
