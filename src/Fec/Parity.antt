-- ===== src/Fec/Parity.antt =====
-- `FecEncoder`: the fields of the parity packet of a block.
use naudio.Prelude.{
  ℕ, zero, suc, ◌%◌, ◌≤◌, ◌<◌, ◌≡◌, refl, sym, ap, ◌∙◌, none, some, List, [], ◌∷◌, ◌++◌,
  append_assoc, arith, length, length-replicate, replicate, get_or,
}
use naudio.Prelude.Word.{add_u32}
use naudio.Prelude.Xor.{bit_xor, bit_xor_assoc, bit_xor-zero, zero-bit_xor}
use naudio.Bytes.{put_u8, put_u32, put_bytes}
use naudio.Bytes.Laws.{be, put_u32-append}
use naudio.Packet.{AudioPacket, fec_parity, create}
use naudio.Fec.{Encoder, build_parity_packet, xor_into, xor_all}
use naudio.Fec.Block.{
  feed, fed_block, fed_settles, payloads_of, longest_from, last_sequence, parity_for,
}

-- The exclusive or of the bytes at place `j`, where a payload that is not so long counts as 0.
abbrev pub column : ℕ → List (List ℕ) → ℕ
column j [] = 0
column j (p ∷ ps) = bit_xor (get_or p j 0) (column j ps)

length-xor_into : (acc p : List ℕ) → length (xor_into acc p) ≡ length acc
unfolding xor_into
length-xor_into [] p = refl
length-xor_into (a ∷ acc) [] = refl
length-xor_into (a ∷ acc) (b ∷ p) = ap suc (length-xor_into acc p)

length-xor_all : (acc : List ℕ) (ps : List (List ℕ)) → length (xor_all acc ps) ≡ length acc
unfolding xor_all
length-xor_all acc [] = refl
length-xor_all acc (p ∷ ps) = length-xor_all (xor_into acc p) ps ∙ length-xor_into acc p

get_or-xor_into :
    (acc p : List ℕ) (j : ℕ)
    → j < length acc
    → get_or (xor_into acc p) j 0 ≡ bit_xor (get_or acc j 0) (get_or p j 0)
unfolding xor_into
get_or-xor_into [] p j h = absurd (omega arith)
get_or-xor_into (a ∷ acc) [] j h = sym (bit_xor-zero (get_or (a ∷ acc) j 0))
get_or-xor_into (a ∷ acc) (b ∷ p) zero h = refl
get_or-xor_into (a ∷ acc) (b ∷ p) (suc j) h = get_or-xor_into acc p j (omega arith)

get_or-xor_all :
    (acc : List ℕ) (ps : List (List ℕ)) (j : ℕ)
    → j < length acc
    → get_or (xor_all acc ps) j 0 ≡ bit_xor (get_or acc j 0) (column j ps)
unfolding xor_all
get_or-xor_all acc [] j h = sym (bit_xor-zero (get_or acc j 0))
get_or-xor_all acc (p ∷ ps) j h =
    get_or-xor_all (xor_into acc p) ps j (omega (arith, length-xor_into acc p))
    ∙ ap (λ b. bit_xor b (column j ps)) (get_or-xor_into acc p j h)
    ∙ bit_xor_assoc (get_or acc j 0) (get_or p j 0) (column j ps)

get_or-replicate : (n j : ℕ) → get_or {A = ℕ} (replicate n 0) j 0 ≡ 0
get_or-replicate zero j = refl
get_or-replicate (suc n) zero = refl
get_or-replicate (suc n) (suc j) = get_or-replicate n j

-- The header and the data of a parity packet.
abbrev pub frame_of : ℕ → ℕ → List ℕ → List ℕ
frame_of start size xor_data = be 4 start ++ (size % 256 ∷ xor_data)

pub written :
    (start size : ℕ) (xor_data : List ℕ)
    → put_bytes (put_u8 (put_u32 [] start) size) xor_data ≡ frame_of start size xor_data
unfolding put_bytes put_u8
written start size xor_data =
    ap (λ w. (w ++ size % 256 ∷ []) ++ xor_data) (put_u32-append [] start)
    ∙ append_assoc (be 4 start) (size % 256 ∷ []) xor_data

-- The parity packet of a block: the sequence number after the last packet's, and a payload of the
-- first packet's number, the block size and, up to the longest payload, the columns' exclusive ors.
pub record Protects (now block_size : ℕ) (p : AudioPacket) (ps : List AudioPacket) (q : AudioPacket)
    : Type 0 where
  pub kind : q.packet_type ≡ fec_parity
  pub version : q.version ≡ 1
  pub flags : q.flags ≡ 0
  pub timestamp : q.timestamp ≡ now
  pub number : q.sequence ≡ add_u32 (last_sequence p.sequence ps) 1
  pub xor_data : List ℕ
  pub payload : q.payload ≡ frame_of p.sequence block_size xor_data
  pub size : length xor_data ≡ longest_from 0 (p ∷ ps)
  pub columns :
      (j : ℕ) → j < longest_from 0 (p ∷ ps) → get_or xor_data j 0 ≡ column j (payloads_of (p ∷ ps))

parity_for-Protects :
    (now block_size : ℕ) (p : AudioPacket) (ps : List AudioPacket)
    → Protects now block_size p ps (parity_for now block_size p ps)
unfolding build_parity_packet create
parity_for-Protects now block_size p ps =
    let longest = longest_from 0 (p ∷ ps) in
    let zeros = replicate longest 0 in
    let sized = length-replicate longest 0 in
    record {
      kind = refl;
      version = refl;
      flags = refl;
      timestamp = refl;
      number = refl;
      xor_data = xor_all zeros (payloads_of (p ∷ ps));
      payload = written p.sequence block_size (xor_all zeros (payloads_of (p ∷ ps)));
      size = length-xor_all zeros (payloads_of (p ∷ ps)) ∙ sized;
      columns = λ j h.
          get_or-xor_all zeros (payloads_of (p ∷ ps)) j (omega (arith, h, sized))
          ∙ ap (λ b. bit_xor b (column j (payloads_of (p ∷ ps)))) (get_or-replicate longest j)
          ∙ zero-bit_xor (column j (payloads_of (p ∷ ps)));
    }

-- An encoder between two blocks, whose block size is at least 2, hands back nothing for the packets
-- of a block before the last one, and for the last one the parity packet of the block, after which
-- it is between two blocks again. That packet is of version 1, without flags and stamped with the
-- clock; its sequence number is the one after the last packet's, and its payload is the first
-- packet's sequence number, the block size and, for each place up to the length of the longest
-- payload, the exclusive or of all payloads there, a shorter one counting as 0.
pub feed-parity :
    (now : ℕ) (e : Encoder) (p : AudioPacket) (ps : List AudioPacket)
    → e.payloads ≡ []
    → 2 ≤ e.block_size
    → length (p ∷ ps) ≡ e.block_size
    → (q : AudioPacket) × ((feed now (p ∷ ps) e).0 ≡ replicate (length ps) none ++ some q ∷ [])
      × Protects now e.block_size p ps q
      × ((feed now (p ∷ ps) e).1.payloads ≡ [])
feed-parity now e p ps empty two full = (
  parity_for now e.block_size p ps,
  fed_block now e p ps empty two full,
  parity_for-Protects now e.block_size p ps,
  fed_settles now e p ps empty two full,
)
