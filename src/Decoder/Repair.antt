-- ===== src/Decoder/Repair.antt =====
-- `FecDecoder` on a whole block of which one packet is lost: what its parity packet brings back.
use naudio.Prelude.{
  ℕ, ◌+◌, ◌-◌, ◌%◌, ◌^◌, ◌≤◌, ◌<◌, ◌≡◌, refl, sym, ap, ◌∙◌, subst, true, false, some, List, [], ◌∷◌,
  ◌++◌, arith, length, replicate,
}
use naudio.Prelude.Int.{ℤ}
use naudio.Prelude.Word.{add_u32}
use naudio.Packet.{AudioPacket, PacketType, create}
use naudio.Packet
use naudio.Fec.Recover.{recovered-parity}
use naudio.Fec.{xor_all}
use naudio.Decoder.{Decoder, recovered, biased, is_audio, place}
use naudio.Decoder.Process.{process, process_packet}
use naudio.Decoder.Slots.{AllOfType, present}
use naudio.Decoder.Stream.{streaming}
use naudio.Decoder.Arrivals.{Arrivals, receive, InOrder, last_time, live_trace}
use naudio.Decoder.OneLost.{one_lost, repaired, length-one_lost}
use naudio.Decoder.Paused.{receive_lem}
use naudio.Decoder.Handled.{
  IsParity, IsResting, gone, resting_streaming, biased_back, parity_arrives,
}

-- The payloads of the members that came.
abbrev pub payloads_in : Arrivals → List (List ℕ)
payloads_in [] = []
payloads_in ((now, p) ∷ ps) = p.payload ∷ payloads_in ps

present-one_lost : (ps qs : Arrivals) → present (one_lost ps qs) ≡ payloads_in ps ++ payloads_in qs
present-one_lost [] [] = refl
present-one_lost [] ((now, q) ∷ qs) = ap (◌∷◌ q.payload) (present-one_lost [] qs)
present-one_lost ((now, p) ∷ ps) qs = ap (◌∷◌ p.payload) (present-one_lost ps qs)

-- The members but one, which may be any: the type of all is that of the lost one.
abbrev pub OfType : PacketType → Arrivals → Type 0
OfType t [] = Unit {0}
OfType t ((now, p) ∷ ps) = (p.packet_type ≡ t) × OfType t ps

all_of_type :
    (t : PacketType) (ps qs : Arrivals) → OfType t ps → OfType t qs → AllOfType t (one_lost ps qs)
all_of_type t [] [] h k = tt
all_of_type t [] ((now, q) ∷ qs) h k = (k.0, all_of_type t [] qs h k.1)
all_of_type t ((now, p) ∷ ps) qs h k = (h.0, all_of_type t ps qs h.1 k)

-- What a lost packet comes back as: the payload filled with zeros up to `longest`.
abbrev pub padded : ℕ → ℕ → AudioPacket → AudioPacket
padded stamp longest lost =
    Packet.create stamp lost.packet_type lost.sequence
      (lost.payload ++ replicate (longest - length lost.payload) 0)

-- A block of one audio type with consecutive sequence numbers from `start` on, one of which is lost.
pub record IsBlock (start : ℕ) (ps qs : Arrivals) (lost : AudioPacket) : Type 0 where
  pub from_zero : 2 ^ 31 ≤ start
  pub no_wrap : start + length ps + 1 + length qs ≤ 2 ^ 32
  pub two_at_least : 1 ≤ length ps + length qs
  pub ten_at_most : length ps + 1 + length qs ≤ 10
  pub audio : is_audio lost.packet_type ≡ true
  pub before : InOrder start ps
  pub before_type : OfType lost.packet_type ps
  pub word : lost.sequence < 2 ^ 32
  pub lost_place : biased lost.sequence ≡ start + length ps
  pub behind : InOrder (start + length ps + 1) qs
  pub behind_type : OfType lost.packet_type qs

-- The recovered packet is the lost one, padded.
repaired_lost :
    (stamp g longest : ℕ) (ps qs : Arrivals) (lost : AudioPacket)
    → lost.sequence < 2 ^ 32
    → biased lost.sequence ≡ g
    → length lost.payload ≤ longest
    → repaired stamp lost.packet_type (biased g) (
        xor_all
          (xor_all (replicate longest 0) (payloads_in ps ++ lost.payload ∷ payloads_in qs))
          (present (one_lost ps qs)))
      ≡ padded stamp longest lost
repaired_lost stamp g longest ps qs lost word place fits =
    λ i. repaired stamp lost.packet_type (same i) (bytes i)
  where
    same : biased g ≡ lost.sequence
    same = ap biased (sym place) ∙ biased_back lost.sequence word

    data_of : List ℕ
    data_of = xor_all (replicate longest 0) (payloads_in ps ++ lost.payload ∷ payloads_in qs)

    bytes :
        xor_all data_of (present (one_lost ps qs))
        ≡ lost.payload ++ replicate (longest - length lost.payload) 0
    bytes =
        ap (xor_all data_of) (present-one_lost ps qs)
        ∙ recovered-parity longest (payloads_in ps) (payloads_in qs) lost.payload fits

whole_block :
    (stamp : ℕ) (now : ℤ) (start longest : ℕ) (ps qs : Arrivals) (lost parity : AudioPacket)
    (d : Decoder)
    → IsBlock start ps qs lost
    → length lost.payload ≤ longest
    → IsParity parity start
        (length (one_lost ps qs))
        (xor_all (replicate longest 0) (payloads_in ps ++ lost.payload ∷ payloads_in qs))
    → biased parity.sequence ≡ (start + length (one_lost ps qs)) % 2 ^ 32
    → process_packet stamp now parity
        (receive stamp qs (receive stamp ps (streaming now start [] d.emitted d)))
      ≡ record (gone (add_u32 (biased parity.sequence) 1) d.emitted d) {
        held_packets = [];
        holding = false;
        hold_base_seq = start + length ps;
        packets_recovered_by_fec = d.packets_recovered_by_fec + 1;
        fec_blocks_complete = d.fec_blocks_complete + 1;
        emitted =
            d.emitted
            ++ live_trace ps
            ++ (some (padded stamp longest lost), recovered) ∷ live_trace qs;
      }
unfolding process_packet
whole_block stamp now start longest ps qs lost parity d b fits is numbered =
    ap (process stamp now (some parity) parity.sequence) (
      receive_lem stamp ps qs start now d.emitted d b.before b.behind b.from_zero
        (omega (arith, b.ten_at_most)))
    ∙ parity_arrives stamp now (last_time (last_time now ps) qs) parity ps qs start lost.packet_type
        (xor_all (replicate longest 0) (payloads_in ps ++ lost.payload ∷ payloads_in qs))
        (d.emitted ++ live_trace ps) d (omega (arith, b.from_zero)) (omega (arith, size, b.no_wrap))
        b.audio (all_of_type lost.packet_type ps qs b.before_type b.behind_type)
        (omega (arith, size, b.two_at_least)) (omega (arith, size, b.ten_at_most)) b.behind is
        numbered
    ∙ ap
        (λ (r : AudioPacket). record (gone (add_u32 (biased parity.sequence) 1) d.emitted d) {
          held_packets = [];
          holding = false;
          hold_base_seq = start + length ps;
          packets_recovered_by_fec = d.packets_recovered_by_fec + 1;
          fec_blocks_complete = d.fec_blocks_complete + 1;
          emitted = d.emitted ++ live_trace ps ++ (some r, recovered) ∷ live_trace qs;
        })
        (repaired_lost stamp (start + length ps) longest ps qs lost b.word b.lost_place fits)
  where
    size : length (one_lost ps qs) ≡ length ps + 1 + length qs
    size = length-one_lost ps qs

-- A block of 2 to 10 audio packets of one type, with consecutive sequence numbers from `start` on
-- (biased, not negative and without a wrap), comes to a decoder at rest that expects its first
-- packet; one packet, any, is lost, and the parity packet of the block follows, numbered behind it.
-- Then every packet is emitted once and in order, the lost one at its place as recovered: with its
-- type, its sequence number and its payload, zeros behind it up to the length of the parity data.
-- The decoder is at rest again and expects the packet after the parity packet.
pub repaired-block :
    (stamp : ℕ) (now : ℤ) (start longest : ℕ) (ps qs : Arrivals) (lost parity : AudioPacket)
    (d : Decoder)
    → IsBlock start ps qs lost
    → length lost.payload ≤ longest
    → IsParity parity start
        (length ps + 1 + length qs)
        (xor_all (replicate longest 0) (payloads_in ps ++ lost.payload ∷ payloads_in qs))
    → biased parity.sequence ≡ (start + length ps + 1 + length qs) % 2 ^ 32
    → IsResting d start
    → let out = process_packet stamp now parity (receive stamp qs (receive stamp ps d)) in
      (out.emitted
        ≡ d.emitted
          ++ live_trace ps
          ++ (some (padded stamp longest lost), recovered) ∷ live_trace qs)
      × IsResting out (start + length ps + 1 + length qs + 1)
      × (out.packets_recovered_by_fec ≡ d.packets_recovered_by_fec + 1)
repaired-block stamp now start longest ps qs lost parity d b fits is numbered rest = (
  ap (λ e. e.emitted) whole,
  record {
    none_pending = ap (λ e. e.active_blocks) whole;
    none_discarded = ap (λ e. e.discarded_sequences) whole;
    none_held = ap (λ e. e.held_packets) whole;
    no_hold = ap (λ e. e.holding) whole;
    next = ap (λ e. e.next_expected_seq) whole ∙ omega (arith, numbered);
  },
  ap (λ e. e.packets_recovered_by_fec) whole,
)
  where
    size : length (one_lost ps qs) ≡ length ps + 1 + length qs
    size = length-one_lost ps qs

    whole :
        process_packet stamp now parity (receive stamp qs (receive stamp ps d))
        ≡ record (gone (add_u32 (biased parity.sequence) 1) d.emitted d) {
          held_packets = [];
          holding = false;
          hold_base_seq = start + length ps;
          packets_recovered_by_fec = d.packets_recovered_by_fec + 1;
          fec_blocks_complete = d.fec_blocks_complete + 1;
          emitted =
              d.emitted
              ++ live_trace ps
              ++ (some (padded stamp longest lost), recovered) ∷ live_trace qs;
        }
    whole =
        ap (λ e. process_packet stamp now parity (receive stamp qs (receive stamp ps e)))
          (resting_streaming now start d rest)
        ∙ whole_block stamp now start longest ps qs lost parity d b fits
            (subst
              (λ n.
                IsParity parity start n
                  (xor_all (replicate longest 0) (payloads_in ps ++ lost.payload ∷ payloads_in qs)))
              (sym size) is)
            (numbered
              ∙ ap (λ n. n % 2 ^ 32) {x = start + length ps + 1 + length qs}
                  {y = start + length (one_lost ps qs)} (omega (arith, size)))
