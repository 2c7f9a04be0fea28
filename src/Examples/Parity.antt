-- ===== src/Examples/Parity.antt =====
-- A block of three packets of one and two bytes.
use naudio.Prelude.{ℕ, ◌-◌, ◌≡◌, refl, arith, none, some, List, [], ◌∷◌, ◌++◌, length, replicate}
use naudio.Packet.{AudioPacket, audio_rx}
use naudio.Fec.{Encoder, create, xor_all}
use naudio.Fec.Recover.{recovered-parity}
use naudio.Fec.Block.{feed}
use naudio.Fec.Parity.{Protects, column, feed-parity}

abbrev member : ℕ → List ℕ → AudioPacket
member seq bytes = record {
  version = 1;
  packet_type = audio_rx;
  flags = 0;
  sequence = seq;
  timestamp = 0;
  payload = bytes;
}

abbrev encoder : Encoder
encoder = record { block_size = 3; payloads = []; start_sequence = 0; max_payload_len = 0 }

created : create 3 ≡ some encoder
unfolding create
created = refl

abbrev head : AudioPacket
head = member 4 (1 ∷ 2 ∷ [])

abbrev others : List AudioPacket
others = member 5 (7 ∷ []) ∷ member 6 (8 ∷ 8 ∷ []) ∷ []

feed-parity_example :
    (q : AudioPacket) × ((feed 9 (head ∷ others) encoder).0 ≡ replicate 2 none ++ some q ∷ [])
    × Protects 9 3 head others q
    × ((feed 9 (head ∷ others) encoder).1.payloads ≡ [])
feed-parity_example = feed-parity 9 encoder head others refl (omega arith) refl

last_column : column 1 ((1 ∷ 2 ∷ []) ∷ (7 ∷ []) ∷ (8 ∷ 8 ∷ []) ∷ []) ≡ 10
last_column = refl

recovered-parity_example :
    xor_all
      (xor_all (replicate 2 0) ((1 ∷ 2 ∷ []) ∷ (7 ∷ []) ∷ (8 ∷ 8 ∷ []) ∷ []))
      ((1 ∷ 2 ∷ []) ∷ (8 ∷ 8 ∷ []) ∷ [])
    ≡ (7 ∷ []) ++ replicate (2 - length {A = ℕ} (7 ∷ [])) 0
recovered-parity_example =
    recovered-parity 2 ((1 ∷ 2 ∷ []) ∷ []) ((8 ∷ 8 ∷ []) ∷ []) (7 ∷ []) (omega arith)
