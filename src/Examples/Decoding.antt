-- ===== src/Examples/Decoding.antt =====
-- `FecDecoder`: a block of three packets of two bytes, of which the second is lost, and ranges at the
-- wrap of the sequence numbers.
use mathlib.Core.List.{Perm}
use naudio.Prelude.{
  ℕ, ◌+◌, ◌^◌, ◌≡◌, refl, arith, none, some, true, false, List, [], ◌∷◌, ◌++◌, replicate, map,
}
use naudio.Prelude.Int.{pos}
use naudio.Packet
use naudio.Packet.{AudioPacket, audio_rx}
use naudio.Bytes.{put_bytes, put_u8, put_u32, get_u8, get_u32, reader, read_bytes}
use naudio.Assoc.{find, insert, erase}
use naudio.Fec.{Encoder, build_parity_packet}
use naudio.Fec.Block.{feed, parity_for}
use naudio.Decoder.{
  Decoder, create, live, recovered, is_audio, matching_block_key, HeldPacket, release_held,
}
use naudio.Decoder.Process.{process_packet}
use naudio.Decoder.Resolved.{IsBounded}
use naudio.Decoder.Calls.{Call, arrive, tick, idle_after, restart, run, fresh-run-IsBounded}
use naudio.Decoder.Trace.{outcome}
use naudio.Decoder.Sorting.{values, Ascends, release_held-sorted}
use naudio.Decoder.Arrivals.{Arrivals, receive, live_trace}
use naudio.Decoder.Live.{receive-live}
use naudio.Decoder.Handled.{IsResting}
use naudio.Decoder.Repair.{IsBlock}
use naudio.Decoder.Roundtrip.{decode-encode}

abbrev numbered : ℕ → List ℕ → AudioPacket
numbered seq bytes = record {
  version = 1;
  packet_type = audio_rx;
  flags = 0;
  sequence = seq;
  timestamp = 0;
  payload = bytes;
}

abbrev before_loss : Arrivals
before_loss = (pos 0, numbered 100 (1 ∷ 2 ∷ [])) ∷ []

abbrev lost_one : AudioPacket
lost_one = numbered 101 (7 ∷ [])

abbrev behind_loss : Arrivals
behind_loss = (pos 40, numbered 102 (8 ∷ 8 ∷ [])) ∷ []

abbrev rested : Decoder
rested = record {
  block_timeout_ms = pos 60;
  pending_idle_ms = pos 120;
  active_blocks = [];
  discarded_sequences = [];
  held_packets = [];
  holding = false;
  hold_base_seq = 2 ^ 31;
  next_expected_seq = 2 ^ 31 + 100;
  packets_recovered_by_fec = 0;
  fec_blocks_complete = 0;
  fec_blocks_failed = 0;
  fec_blocks_unreconciled = 0;
  pending_packets_discarded = 0;
  emitted = [];
}

abbrev encoder : Encoder
encoder = record { block_size = 3; payloads = []; start_sequence = 0; max_payload_len = 0 }

is_audio_rx : is_audio audio_rx ≡ true
unfolding is_audio
is_audio_rx = refl

block : IsBlock (2 ^ 31 + 100) before_loss behind_loss lost_one
block = record {
  from_zero = omega arith;
  no_wrap = omega arith;
  two_at_least = omega arith;
  ten_at_most = omega arith;
  audio = is_audio_rx;
  before = (omega arith, refl, tt);
  before_type = (refl, tt);
  word = omega arith;
  lost_place = omega arith;
  behind = (omega arith, refl, tt);
  behind_type = (refl, tt);
}

at_rest : IsResting rested (2 ^ 31 + 100)
at_rest = record {
  none_pending = refl;
  none_discarded = refl;
  none_held = refl;
  no_hold = refl;
  next = omega arith;
}

decode-encode_example :
    (parity : AudioPacket) × ((feed 9
        (numbered 100 (1 ∷ 2 ∷ []) ∷ lost_one ∷ numbered 102 (8 ∷ 8 ∷ []) ∷ [])
        encoder).0
      ≡ replicate 2 none ++ some parity ∷ [])
    × (let out =
          process_packet 0 (pos 60) parity (receive 0 behind_loss (receive 0 before_loss rested)) in
        (out.emitted
          ≡ (some (numbered 100 (1 ∷ 2 ∷ [])), live)
            ∷ (some (numbered 101 (7 ∷ 0 ∷ [])), recovered)
            ∷ (some (numbered 102 (8 ∷ 8 ∷ [])), live)
            ∷ [])
        × IsResting out (2 ^ 31 + 104)
        × (out.packets_recovered_by_fec ≡ 1))
unfolding Packet.create
decode-encode_example =
    decode-encode 9 0 (pos 60) (2 ^ 31 + 100) before_loss behind_loss lost_one encoder rested refl
      refl block (omega arith) at_rest

-- Twice a packet in a hold, and a timeout.
calls : List Call
calls =
    arrive 0 (pos 0) (some (numbered 5 [])) 5
    ∷ arrive 0 (pos 9) (some (numbered 8 [])) 8
    ∷ arrive 0 (pos 12) (some (numbered 7 [])) 7
    ∷ arrive 0 (pos 13) none 9
    ∷ idle_after (pos 130)
    ∷ tick (pos 900)
    ∷ restart
    ∷ []

fresh-run-IsBounded_example :
    IsBounded (run calls (create (pos 60)))
    × ((sequence : ℕ)
        → matching_block_key sequence (run calls (create (pos 60))).active_blocks ≡ none)
fresh-run-IsBounded_example = fresh-run-IsBounded (pos 60) calls

receive-live_example :
    (receive 0
      ((pos 0, numbered 0x7fffffff []) ∷ (pos 1, numbered 0x80000000 []) ∷ [])
      (create (pos 60))).emitted
    ≡ (some (numbered 0x7fffffff []), live) ∷ (some (numbered 0x80000000 []), live) ∷ []
receive-live_example =
    receive-live 0 (pos 60) 0xffffffff
      ((pos 0, numbered 0x7fffffff []) ∷ (pos 1, numbered 0x80000000 []) ∷ [])
      (omega arith, refl, (omega arith, refl, tt))

-- A hold at the last number before the wrap.
abbrev holding_two : Decoder
holding_two = record rested {
  held_packets =
      (0, record { packet = numbered 0x80000000 []; provenance = live })
      ∷ (0xffffffff, record { packet = numbered 0x7fffffff []; provenance = recovered })
      ∷ [];
  holding = true;
  hold_base_seq = 0xffffffff;
}

release_held-sorted_example :
    (hs : List HeldPacket) × Ascends 0xffffffff 0 hs
    × Perm hs (values holding_two.held_packets)
    × (release_held holding_two
        ≡ record holding_two { emitted = [] ++ map outcome hs; held_packets = []; holding = false })
release_held-sorted_example = release_held-sorted holding_two refl

released_in_order :
    (release_held holding_two).emitted
    ≡ (some (numbered 0x7fffffff []), recovered) ∷ (some (numbered 0x80000000 []), live) ∷ []
unfolding release_held
released_in_order = refl

-- A block across the last `int32_t`, of which nothing is lost: what lies behind the wrap counts as
-- missing, and comes out a second time.
abbrev across : Arrivals
across =
    (pos 0, numbered 0x7ffffffe (1 ∷ []))
    ∷ (pos 1, numbered 0x7fffffff (2 ∷ []))
    ∷ (pos 2, numbered 0x80000000 (3 ∷ []))
    ∷ []

abbrev across_parity : AudioPacket
across_parity =
    parity_for 0 3 (numbered 0x7ffffffe (1 ∷ []))
      (numbered 0x7fffffff (2 ∷ []) ∷ numbered 0x80000000 (3 ∷ []) ∷ [])

across_duplicate :
    (process_packet 0 (pos 3) across_parity (receive 0 across (create (pos 60)))).emitted
    ≡ live_trace across ++ (some (numbered 0x80000000 (3 ∷ [])), recovered) ∷ []
unfolding process_packet build_parity_packet create Packet.create put_bytes put_u8 put_u32 get_u8
    get_u32 reader find insert erase read_bytes
across_duplicate = refl

-- In the negative half no gap opens a hold: the packet behind the lost one comes out before it.
abbrev negative : Arrivals
negative = (pos 0, numbered 0x90000000 (1 ∷ [])) ∷ (pos 2, numbered 0x90000002 (3 ∷ [])) ∷ []

abbrev negative_parity : AudioPacket
negative_parity =
    parity_for 0 3 (numbered 0x90000000 (1 ∷ []))
      (numbered 0x90000001 (2 ∷ []) ∷ numbered 0x90000002 (3 ∷ []) ∷ [])

negative_late :
    (process_packet 0 (pos 3) negative_parity (receive 0 negative (create (pos 60)))).emitted
    ≡ live_trace negative ++ (some (numbered 0x90000001 (2 ∷ [])), recovered) ∷ []
unfolding process_packet build_parity_packet create Packet.create put_bytes put_u8 put_u32 get_u8
    get_u32 reader find insert erase read_bytes
negative_late = refl
