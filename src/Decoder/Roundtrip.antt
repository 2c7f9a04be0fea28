-- ===== src/Decoder/Roundtrip.antt =====
-- `FecEncoder` and `FecDecoder` together: a block on its way from the one to the other.
use naudio.Prelude.{
  ℕ, suc, ◌+◌, ◌%◌, ◌^◌, ◌≤◌, ◌<◌, max, ◌≡◌, refl, ap, ◌∙◌, subst, none, some, List, [], ◌∷◌, ◌++◌,
  arith, length, replicate, length-append,
}
use naudio.Prelude.Int.{ℤ}
use naudio.Packet.{AudioPacket, create}
use naudio.Fec.{Encoder, build_parity_packet, xor_all}
use naudio.Fec.Block.{feed, payloads_of, longest_from, last_sequence, parity_for, fed_block}
use naudio.Decoder.{Decoder, biased, recovered}
use naudio.Decoder.Process.{process_packet}
use naudio.Decoder.Arrivals.{Arrivals, receive, InOrder, live_trace}
use naudio.Decoder.Handled.{IsParity, IsResting}
use naudio.Decoder.Repair.{IsBlock, payloads_in, padded, repaired-block}
use naudio.Decoder.Header.{build_parity_packet-IsParity}

-- What the sender sent, the first packet apart.
abbrev pub packets : Arrivals → List AudioPacket
packets [] = []
packets ((now, p) ∷ ps) = p ∷ packets ps

abbrev pub first_sent : Arrivals → AudioPacket → AudioPacket
first_sent [] lost = lost
first_sent ((now, p) ∷ ps) lost = p

abbrev pub others_sent : Arrivals → AudioPacket → Arrivals → List AudioPacket
others_sent [] lost qs = packets qs
others_sent (a ∷ ps) lost qs = packets ps ++ lost ∷ packets qs

payloads_packets : (qs : Arrivals) → payloads_of (packets qs) ≡ payloads_in qs
payloads_packets [] = refl
payloads_packets ((now, q) ∷ qs) = ap (◌∷◌ q.payload) (payloads_packets qs)

payloads_members :
    (ps qs : Arrivals) (lost : AudioPacket)
    → payloads_of (packets ps ++ lost ∷ packets qs)
      ≡ payloads_in ps ++ lost.payload ∷ payloads_in qs
payloads_members [] qs lost = ap (◌∷◌ lost.payload) (payloads_packets qs)
payloads_members ((now, p) ∷ ps) qs lost = ap (◌∷◌ p.payload) (payloads_members ps qs lost)

payloads_sent :
    (ps qs : Arrivals) (lost : AudioPacket)
    → payloads_of (first_sent ps lost ∷ others_sent ps lost qs)
      ≡ payloads_in ps ++ lost.payload ∷ payloads_in qs
payloads_sent [] qs lost = payloads_members [] qs lost
payloads_sent (a ∷ ps) qs lost = payloads_members (a ∷ ps) qs lost

length-packets : (qs : Arrivals) → length (packets qs) ≡ length qs
length-packets [] = refl
length-packets (a ∷ qs) = ap suc (length-packets qs)

length-others :
    (ps qs : Arrivals) (lost : AudioPacket)
    → length (others_sent ps lost qs) ≡ length ps + length qs
length-others [] qs lost = omega (arith, length-packets qs)
length-others (a ∷ ps) qs lost =
    omega
      (arith, length-append (packets ps) (lost ∷ packets qs), length-packets ps, length-packets qs)

-- The last of the packets in order.
last_in_order :
    (qs : Arrivals) (k w : ℕ)
    → InOrder (k + 1) qs
    → biased w ≡ k
    → biased (last_sequence w (packets qs)) ≡ k + length qs
last_in_order [] k w o e = e ∙ omega arith
last_in_order ((now, q) ∷ qs) k w o e = last_in_order qs (k + 1) q.sequence o.2 o.0 ∙ omega arith

last_sent :
    (ps qs : Arrivals) (lost : AudioPacket) (k w : ℕ)
    → InOrder (k + length ps + 1) qs
    → biased lost.sequence ≡ k + length ps
    → biased (last_sequence w (packets ps ++ lost ∷ packets qs)) ≡ k + length ps + length qs
last_sent [] qs lost k w o e = last_in_order qs (k + 0) lost.sequence o e
last_sent ((now, p) ∷ ps) qs lost k w o e =
    last_sent ps qs lost (k + 1) p.sequence
      (subst (λ n. InOrder n qs) {x = k + suc (length ps) + 1} (omega arith) o) (e ∙ omega arith)
    ∙ omega arith

last_of_sent :
    (ps qs : Arrivals) (lost : AudioPacket) (k : ℕ)
    → InOrder (k + length ps + 1) qs
    → biased lost.sequence ≡ k + length ps
    → biased (last_sequence (first_sent ps lost).sequence (others_sent ps lost qs))
      ≡ k + length ps + length qs
last_of_sent [] qs lost k o e = last_in_order qs (k + 0) lost.sequence o e
last_of_sent ((now, p) ∷ ps) qs lost k o e = last_sent ((now, p) ∷ ps) qs lost k p.sequence o e

-- No payload is longer than the longest.
longest_from-ge : (n : ℕ) (l : List AudioPacket) → n ≤ longest_from n l
longest_from-ge n [] = omega arith
longest_from-ge n (p ∷ l) = omega (arith, longest_from-ge (max n (length p.payload)) l)

longest_from-member :
    (n : ℕ) (a b : List AudioPacket) (p : AudioPacket)
    → length p.payload ≤ longest_from n (a ++ p ∷ b)
longest_from-member n [] b p = omega (arith, longest_from-ge (max n (length p.payload)) b)
longest_from-member n (q ∷ a) b p = longest_from-member (max n (length q.payload)) a b p

longest_sent :
    (ps qs : Arrivals) (lost : AudioPacket)
    → length lost.payload ≤ longest_from 0 (first_sent ps lost ∷ others_sent ps lost qs)
longest_sent [] qs lost = longest_from-member 0 [] (packets qs) lost
longest_sent ((now, p) ∷ ps) qs lost = longest_from-member 0 (p ∷ packets ps) (packets qs) lost

first_place :
    (ps qs : Arrivals) (lost : AudioPacket) (start : ℕ)
    → IsBlock start ps qs lost
    → biased (first_sent ps lost).sequence ≡ start
first_place [] qs lost start b = b.lost_place ∙ omega arith
first_place ((now, p) ∷ ps) qs lost start b = b.before.0

parity_number :
    (made : ℕ) (e : Encoder) (p : AudioPacket) (ps : List AudioPacket)
    → biased (parity_for made e.block_size p ps).sequence
      ≡ biased ((last_sequence p.sequence ps + 1) % 2 ^ 32)
unfolding build_parity_packet create
parity_number made e p ps = refl

next_number : (w k : ℕ) → biased w ≡ k → biased ((w + 1) % 2 ^ 32) ≡ (k + 1) % 2 ^ 32
next_number w k e = omega (arith, e)

-- An encoder between two blocks is given a block of packets, of which one, any, is lost on the way
-- to a decoder at rest that expects the first of them; the packets have one audio type and
-- consecutive sequence numbers, not negative and without a wrap, and the block has 2 to 10. The
-- encoder hands back a parity packet behind the last one, and when it has come to the decoder every
-- packet of the block was emitted once and in order, the lost one as recovered, with its type, its
-- sequence number and its payload, filled with zeros up to the longest payload of the block; one
-- recovery is counted, and the decoder is at rest again and expects the packet after the parity
-- packet.
pub decode-encode :
    (made stamp : ℕ) (now : ℤ) (start : ℕ) (ps qs : Arrivals) (lost : AudioPacket) (e : Encoder)
    (d : Decoder)
    → e.payloads ≡ []
    → e.block_size ≡ length ps + 1 + length qs
    → IsBlock start ps qs lost
    → (first_sent ps lost).sequence < 2 ^ 32
    → IsResting d start
    → (parity : AudioPacket) × ((feed made (first_sent ps lost ∷ others_sent ps lost qs) e).0
        ≡ replicate (length ps + length qs) none ++ some parity ∷ [])
      × (let out = process_packet stamp now parity (receive stamp qs (receive stamp ps d)) in
          (out.emitted
            ≡ d.emitted
              ++ live_trace ps
              ++ (
                some (
                    padded stamp
                      (longest_from 0 (first_sent ps lost ∷ others_sent ps lost qs))
                      lost),
                recovered,
              )
                ∷ live_trace qs)
          × IsResting out (start + length ps + 1 + length qs + 1)
          × (out.packets_recovered_by_fec ≡ d.packets_recovered_by_fec + 1))
decode-encode made stamp now start ps qs lost e d empty size b word rest = (
  parity,
  sent,
  (repaired-block stamp now start longest ps qs lost parity d b (longest_sent ps qs lost) is
      numbered rest),
)
  where
    first : AudioPacket
    first = first_sent ps lost

    others : List AudioPacket
    others = others_sent ps lost qs

    longest : ℕ
    longest = longest_from 0 (first ∷ others)

    parity : AudioPacket
    parity = parity_for made e.block_size first others

    sent :
        (feed made (first ∷ others) e).0
        ≡ replicate (length ps + length qs) none ++ some parity ∷ []
    sent =
        fed_block made e first others empty (omega (arith, size, b.two_at_least))
          (omega (arith, size, length-others ps qs lost))
        ∙ ap (λ n. replicate n none ++ some parity ∷ []) (length-others ps qs lost)

    payloads : List (List ℕ)
    payloads = payloads_in ps ++ lost.payload ∷ payloads_in qs

    built :
        IsParity parity
          (biased first.sequence)
          e.block_size
          (xor_all (replicate longest 0) (payloads_of (first ∷ others)))
    built =
        build_parity_packet-IsParity made (last_sequence first.sequence others)
          (record {
            block_size = e.block_size;
            payloads = payloads_of (first ∷ others);
            start_sequence = first.sequence;
            max_payload_len = longest;
          })
          word (omega (arith, size, b.ten_at_most))

    is :
        IsParity parity start
          (length ps + 1 + length qs)
          (xor_all (replicate longest 0) (payloads_in ps ++ lost.payload ∷ payloads_in qs))
    is =
        subst
          (λ k.
            IsParity parity k (length ps + 1 + length qs) (xor_all (replicate longest 0) payloads))
          (first_place ps qs lost start b)
          (subst
            (λ n.
              IsParity parity (biased first.sequence) n (xor_all (replicate longest 0) payloads))
            size
            (subst
              (λ l.
                IsParity parity (biased first.sequence) e.block_size
                  (xor_all (replicate longest 0) l))
              (payloads_sent ps qs lost) built))

    numbered : biased parity.sequence ≡ (start + length ps + 1 + length qs) % 2 ^ 32
    numbered =
        parity_number made e first others
        ∙ next_number (last_sequence first.sequence others) (start + length ps + length qs)
            (last_of_sent ps qs lost start b.behind b.lost_place)
        ∙ ap (λ n. n % 2 ^ 32) {x = start + length ps + length qs + 1}
            {y = start + length ps + 1 + length qs} (omega arith)
