-- ===== src/Decoder/Trace.antt =====
-- `FecDecoder`: the loops that emit, as what they add to the trace.
use naudio.Prelude.{
  ℕ, zero, suc, ◌+◌, ◌%◌, ◌^◌, ◌≡◌, refl, sym, ap, ◌∙◌, true, false, Option, none, some, List, [],
  ◌∷◌, ◌++◌, append_assoc, append-nil, map, replicate,
}
use naudio.Packet.{AudioPacket}
use naudio.Assoc.{find}
use naudio.Decoder.{
  Decoder, Block, Provenance, live, HeldPacket, emit, emit_all, stable_sort, release_held,
}
use naudio.Decoder.Parity.{emit_known_gaps}
use naudio.Decoder.Process.{emit_gaps}

abbrev pub Trace : Type 0
Trace = List (Option AudioPacket × Provenance)

abbrev pub with_trace : Decoder → Trace → Decoder
with_trace d t = record d { emitted = t }

abbrev pub outcome : HeldPacket → Option AudioPacket × Provenance
outcome h = (some h.packet, h.provenance)

pub emit_all_lem :
    (hs : List HeldPacket) (d : Decoder)
    → emit_all hs d ≡ with_trace d (d.emitted ++ map outcome hs)
unfolding emit_all emit
emit_all_lem [] d = ap (with_trace d) (sym (append-nil d.emitted))
emit_all_lem (h ∷ hs) d =
    emit_all_lem hs (with_trace d (d.emitted ++ outcome h ∷ []))
    ∙ ap (with_trace d) (append_assoc d.emitted (outcome h ∷ []) (map outcome hs))

pub emit_gaps_lem :
    (n : ℕ) (d : Decoder) → emit_gaps n d ≡ with_trace d (d.emitted ++ replicate n (none, live))
unfolding emit_gaps emit
emit_gaps_lem zero d = ap (with_trace d) (sym (append-nil d.emitted))
emit_gaps_lem (suc n) d =
    emit_gaps_lem n (with_trace d (d.emitted ++ (none, live) ∷ []))
    ∙ ap (with_trace d) (append_assoc d.emitted ((none, live) ∷ []) (replicate n (none, live)))

abbrev pub released : Decoder → Decoder
released d = record d {
  held_packets = [];
  holding = false;
  emitted = d.emitted ++ map outcome (stable_sort d.hold_base_seq d.held_packets);
}

-- An open hold ends with its packets emitted in order.
pub release_held_open : (d : Decoder) → d.holding ≡ true → release_held d ≡ released d
unfolding release_held
release_held_open d open_hold = rw open_hold (
    emit_all_lem (stable_sort d.hold_base_seq d.held_packets)
      (record d { held_packets = []; holding = false }))

pub release_held_shut : (d : Decoder) → d.holding ≡ false → release_held d ≡ d
unfolding release_held
release_held_shut d shut = rw shut refl

abbrev pub known_gap : Option AudioPacket → Option (Unit {0}) → Trace
known_gap none none = []
known_gap none (some t) = (none, live) ∷ []
known_gap (some p) s = []

-- The gaps of a range.
abbrev pub known_gaps : ℕ → ℕ → Block → Trace
known_gaps zero s b = []
known_gaps (suc n) s b =
    known_gap (find (s % 2 ^ 32) b.packets) (find (s % 2 ^ 32) b.missing_sequences)
    ++ known_gaps n (s + 1) b

-- One round, whatever the two searches find.
gap_round :
    (d : Decoder) (k : Decoder → Decoder) (t : Trace)
    → ((e : Decoder) → k e ≡ with_trace e (e.emitted ++ t))
    → (p : Option AudioPacket) (m : Option (Unit {0}))
    → k (elim p [ none ↦ elim m [ none ↦ d | some t ↦ emit none live d ] | some q ↦ d ])
      ≡ with_trace d (d.emitted ++ (known_gap p m ++ t))
unfolding emit
gap_round d k t next none none = next d
gap_round d k t next none (some u) =
    next (emit none live d) ∙ ap (with_trace d) (append_assoc d.emitted ((none, live) ∷ []) t)
gap_round d k t next (some q) none = next d
gap_round d k t next (some q) (some u) = next d

pub emit_known_gaps_lem :
    (n s : ℕ) (b : Block) (d : Decoder)
    → emit_known_gaps n s b d ≡ with_trace d (d.emitted ++ known_gaps n s b)
unfolding emit_known_gaps
emit_known_gaps_lem zero s b d = ap (with_trace d) (sym (append-nil d.emitted))
emit_known_gaps_lem (suc n) s b d =
    gap_round d (emit_known_gaps n (s + 1) b) (known_gaps n (s + 1) b)
      (emit_known_gaps_lem n (s + 1) b) (find (s % 2 ^ 32) b.packets)
      (find (s % 2 ^ 32) b.missing_sequences)
