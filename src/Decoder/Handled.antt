-- ===== src/Decoder/Handled.antt =====
-- `FecDecoder`: the parity packet of a block of which one packet is lost.
use naudio.Prelude.{
  ℕ, ◌+◌, ◌%◌, ◌^◌, ◌≤◌, ◌<◌, ◌≡◌, refl, ap, ◌∙◌, Bool, true, false, ◌||◌, some, List, [], ◌∷◌,
  ◌++◌, map, arith, length, length-append, ltb, if◌then◌else◌,
}
use naudio.Prelude.Int.{ℤ}
use naudio.Prelude.Word.{add_u32}
use naudio.Packet.{AudioPacket, PacketType, create}
use naudio.Fec.{xor_all}
use naudio.Decoder.{Decoder, HeldPacket, recovered, biased, is_audio, release_held}
use naudio.Decoder.Parity.{
  new_survey, resolve, unreconciled, handle_parity, handle_block, parity_start, parity_size,
  parity_data,
}
use naudio.Decoder.Process.{process, process_parity, is_parity}
use naudio.Decoder.Trace.{Trace, outcome, release_held_open}
use naudio.Decoder.Slots.{entries, AllOfType, present, surveyed}
use naudio.Decoder.Outcome.{pending_with, collected, handle_block_lem}
use naudio.Decoder.Stream.{pend, streaming}
use naudio.Decoder.Arrivals.{Arrivals, InOrder, slots_of, live_trace}
use naudio.Decoder.OneLost.{one_lost, repaired, length-one_lost, resolve-one_lost}
use naudio.Decoder.Paused.{
  outcomes, release_rescued, paused, saved, recover_lem, with_pending, noted_paused, length-entries,
  entries_one_lost, next_place,
}

-- A parity packet with the header of the block and the data `xor_data`.
pub record IsParity (parity : AudioPacket) (start size : ℕ) (xor_data : List ℕ) : Type 0 where
  pub kind : is_parity parity.packet_type ≡ true
  pub long_enough : 5 ≤ length parity.payload
  pub starts : parity_start parity ≡ start
  pub sized : parity_size parity ≡ size
  pub carries : parity_data parity ≡ xor_data

if_last :
    (a b : Bool) (x y z : Decoder)
    → a ≡ false
    → b ≡ false
    → (if a then x else if b then y else z) ≡ z
if_last a b x y z e f = rw (e, f) refl

handled :
    (stamp : ℕ) (now : ℤ) (parity : AudioPacket) (start size : ℕ) (xor_data : List ℕ) (d : Decoder)
    → IsParity parity start size xor_data
    → 2 ≤ size
    → size ≤ 10
    → handle_parity stamp now parity d ≡ handle_block stamp now start size xor_data d
unfolding handle_parity
handled stamp now parity start size xor_data d h two ten =
    if_last (ltb (length parity.payload) 5)
      (ltb (parity_size parity) 2 || ltb 10 (parity_size parity)) d (unreconciled d)
      (handle_block stamp now (parity_start parity) (parity_size parity) (parity_data parity) d)
      (long (length parity.payload) h.long_enough)
      (ranged (parity_size parity) (omega (arith, h.sized)) (omega (arith, h.sized)))
    ∙ λ i. handle_block stamp now (h.starts i) (h.sized i) (h.carries i) d
  where
    long : (n : ℕ) → 5 ≤ n → ltb n 5 ≡ false
    long n l = ground arith

    ranged : (n : ℕ) → 2 ≤ n → n ≤ 10 → (ltb n 2 || ltb 10 n) ≡ false
    ranged n l u = ground arith

some_pending :
    (touched : ℤ) (m : List (ℕ × AudioPacket))
    → 0 < length m
    → pend touched m ≡ pending_with touched m
some_pending touched [] h = absurd (omega arith)
some_pending touched (e ∷ m) h = refl

-- The decoder with the block gone.
abbrev pub gone : ℕ → Trace → Decoder → Decoder
gone next trace d = record d {
  active_blocks = [];
  discarded_sequences = [];
  next_expected_seq = next;
  emitted = trace;
}

blocked :
    (stamp : ℕ) (now touched : ℤ) (ps qs : Arrivals) (start : ℕ) (t : PacketType)
    (xor_data : List ℕ) (next : ℕ) (trace : Trace) (d : Decoder)
    → 0 < start
    → start + length (one_lost ps qs) ≤ 2 ^ 32
    → is_audio t ≡ true
    → AllOfType t (one_lost ps qs)
    → 0 < length ps + length qs
    → handle_block stamp now start (length (one_lost ps qs)) xor_data (
        paused
          (start + length ps)
          qs
          (with_pending touched (entries start (one_lost ps qs)) next trace d))
      ≡ saved
          (start + length ps)
          (repaired stamp t
            (biased (start + length ps))
            (xor_all xor_data (present (one_lost ps qs))))
          qs
          (gone next trace d)
blocked stamp now touched ps qs start t xor_data next trace d pos fits audio all some_came =
    ap
      (λ b. handle_block stamp now start (length (one_lost ps qs)) xor_data (
        paused (start + length ps) qs (record d {
          active_blocks = b;
          discarded_sequences = [];
          next_expected_seq = next;
          emitted = trace;
        })))
      (some_pending touched (entries start (one_lost ps qs)) some_entry)
    ∙ cleared_by qs
    ∙ resolve-one_lost stamp now start ps qs t xor_data
        (paused (start + length ps) qs (gone next trace d)) some_came fits
    ∙ recover_lem (start + length ps) _ qs (gone next trace d)
  where
    some_entry : 0 < length (entries start (one_lost ps qs))
    some_entry = omega (
      arith,
      ap length (entries_one_lost ps qs start),
      length-append (entries start (slots_of ps)) (entries (start + length ps + 1) (slots_of qs)),
      length-entries ps start,
      length-entries qs (start + length ps + 1),
    )

    out : Decoder → Decoder
    out e =
        resolve stamp start (length (one_lost ps qs)) xor_data false
          (collected now start (one_lost ps qs)) (surveyed t start (one_lost ps qs) new_survey) e

    cleared_by :
        (rs : Arrivals)
        → handle_block stamp now start (length (one_lost ps qs)) xor_data (
            paused (start + length ps) rs (record d {
              active_blocks = pending_with touched (entries start (one_lost ps qs));
              discarded_sequences = [];
              next_expected_seq = next;
              emitted = trace;
            }))
          ≡ out (paused (start + length ps) rs (gone next trace d))
    cleared_by [] =
        handle_block_lem stamp now touched start (one_lost ps qs) t xor_data
          (paused (start + length ps) [] (gone next trace d)) pos fits audio all
    cleared_by (a ∷ rs) =
        handle_block_lem stamp now touched start (one_lost ps qs) t xor_data
          (paused (start + length ps) (a ∷ rs) (gone next trace d)) pos fits audio all

-- Between two blocks: nothing waits, and the next packet is the one at `start`.
pub record IsResting (d : Decoder) (start : ℕ) : Type 0 where
  pub none_pending : d.active_blocks ≡ []
  pub none_discarded : d.discarded_sequences ≡ []
  pub none_held : d.held_packets ≡ []
  pub no_hold : d.holding ≡ false
  pub next : d.next_expected_seq ≡ start % 2 ^ 32

pub resting_streaming :
    (touched : ℤ) (start : ℕ) (d : Decoder)
    → IsResting d start
    → d ≡ streaming touched start [] d.emitted d
resting_streaming touched start d h = λ i. record d {
  active_blocks = h.none_pending i;
  discarded_sequences = h.none_discarded i;
  held_packets = h.none_held i;
  holding = h.no_hold i;
  next_expected_seq = h.next i;
}

-- A parity packet numbered behind the block is next, or one behind the lost packet.
numbered_next :
    (g : ℕ) (qs : Arrivals) (s : ℕ)
    → s ≡ (g + 1 + length qs) % 2 ^ 32
    → (j : ℕ) × (j ≤ 1) × (s ≡ (next_place g qs + j) % 2 ^ 32) × (next_place g qs < 2 ^ 32)
numbered_next g [] s e = (1, omega arith, omega (arith, e), omega arith)
numbered_next g (a ∷ qs) s e = (0, omega arith, omega (arith, e), omega arith)

release_saved :
    (g : ℕ) (r : AudioPacket) (qs : Arrivals) (next : ℕ) (trace : Trace) (d : Decoder)
    → biased r.sequence ≡ g
    → g + 1 + length qs ≤ 2 ^ 32
    → InOrder (g + 1) qs
    → release_held (saved g r qs (gone next trace d)) ≡ record (gone next trace d) {
      held_packets = [];
      holding = false;
      hold_base_seq = g;
      packets_recovered_by_fec = d.packets_recovered_by_fec + 1;
      fec_blocks_complete = d.fec_blocks_complete + 1;
      emitted = trace ++ (some r, recovered) ∷ live_trace qs;
    }
release_saved g r qs next trace d e fits o =
    release_held_open (saved g r qs (gone next trace d)) refl
    ∙ ap
        (λ (hs : List HeldPacket). record (gone next trace d) {
          held_packets = [];
          holding = false;
          hold_base_seq = g;
          packets_recovered_by_fec = d.packets_recovered_by_fec + 1;
          fec_blocks_complete = d.fec_blocks_complete + 1;
          emitted = trace ++ map outcome hs;
        })
        (release_rescued g r qs d e fits o)
    ∙ ap
        (λ (l : Trace). record (gone next trace d) {
          held_packets = [];
          holding = false;
          hold_base_seq = g;
          packets_recovered_by_fec = d.packets_recovered_by_fec + 1;
          fec_blocks_complete = d.fec_blocks_complete + 1;
          emitted = trace ++ (some r, recovered) ∷ l;
        })
        (outcomes qs)

pub biased_back : (g : ℕ) → g < 2 ^ 32 → biased (biased g) ≡ g
biased_back g h = omega arith

pub parity_arrives :
    (stamp : ℕ) (now touched : ℤ) (parity : AudioPacket) (ps qs : Arrivals) (start : ℕ)
    (t : PacketType) (xor_data : List ℕ) (trace : Trace) (d : Decoder)
    → 0 < start
    → start + length (one_lost ps qs) ≤ 2 ^ 32
    → is_audio t ≡ true
    → AllOfType t (one_lost ps qs)
    → 2 ≤ length (one_lost ps qs)
    → length (one_lost ps qs) ≤ 10
    → InOrder (start + length ps + 1) qs
    → IsParity parity start (length (one_lost ps qs)) xor_data
    → biased parity.sequence ≡ (start + length (one_lost ps qs)) % 2 ^ 32
    → process stamp now (some parity) parity.sequence (
        paused (start + length ps) qs (
          with_pending touched
            (entries start (one_lost ps qs))
            (next_place (start + length ps) qs)
            trace
            d))
      ≡ record (gone (add_u32 (biased parity.sequence) 1) trace d) {
        held_packets = [];
        holding = false;
        hold_base_seq = start + length ps;
        packets_recovered_by_fec = d.packets_recovered_by_fec + 1;
        fec_blocks_complete = d.fec_blocks_complete + 1;
        emitted =
            trace
            ++ (
              some (
                  repaired stamp t
                    (biased (start + length ps))
                    (xor_all xor_data (present (one_lost ps qs)))),
              recovered,
            )
              ∷ live_trace qs;
      }
unfolding process process_parity create
parity_arrives stamp now touched parity ps qs start t xor_data trace d pos fits audio all two ten o
      is numbered =
    rw (is.kind) (
      ap (λ e. release_held (handle_parity stamp now parity e))
        (noted_paused (biased parity.sequence) at.0 (start + length ps) qs touched
          (entries start (one_lost ps qs)) (next_place (start + length ps) qs) trace d at.2 at.1
          at.3)
      ∙ ap release_held (
          handled stamp now parity start (length (one_lost ps qs)) xor_data _ is two ten
          ∙ blocked stamp now touched ps qs start t xor_data (add_u32 (biased parity.sequence) 1)
              trace d pos fits audio all (omega (arith, size)))
      ∙ release_saved (start + length ps) _ qs (add_u32 (biased parity.sequence) 1) trace d
          (biased_back (start + length ps) (omega (arith, size))) (omega (arith, size)) o)
  where
    size : length (one_lost ps qs) ≡ length ps + 1 + length qs
    size = length-one_lost ps qs

    at :
        (j : ℕ) × (j ≤ 1)
        × (biased parity.sequence ≡ (next_place (start + length ps) qs + j) % 2 ^ 32)
        × (next_place (start + length ps) qs < 2 ^ 32)
    at = numbered_next (start + length ps) qs (biased parity.sequence) (
        numbered
        ∙ ap (λ n. n % 2 ^ 32) {x = start + length (one_lost ps qs)}
            {y = start + length ps + 1 + length qs} (omega (arith, size)))
