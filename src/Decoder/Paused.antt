-- ===== src/Decoder/Paused.antt =====
-- `FecDecoder` while it waits for the parity packet of a block of which one packet is lost.
use naudio.Prelude.{
  ℕ, suc, ◌+◌, ◌-◌, ◌%◌, ◌^◌, ◌≤◌, ◌<◌, ◌≡◌, refl, sym, ap, ◌∙◌, true, false, Option, none, some,
  List, [], ◌∷◌, ◌++◌, append_assoc, append-nil, map, arith, length, length-append, ltb, leb,
}
use naudio.Prelude.Int.{ℤ}
use naudio.Prelude.Word.{sub_u32, add_u32}
use naudio.Packet.{AudioPacket}
use naudio.Assoc.{insert}
use naudio.Decoder.{
  Decoder, HeldPacket, recovered, live, biased, rank, place, stable_sort, begin_hold, note_sequence,
}
use naudio.Decoder.Parity.{recover}
use naudio.Decoder.Process.{process_packet}
use naudio.Decoder.Trace.{Trace, outcome}
use naudio.Decoder.Slots.{Below, Below-snoc, entries}
use naudio.Decoder.Stream.{pend, streaming, as_held, gap_step}
use naudio.Decoder.Arrivals.{
  Arrivals, receive, InOrder, slots_of, last_time, live_trace, held_of, receive-streaming,
  receive-in_hold, in_hold_eq,
}
use naudio.Decoder.OneLost.{one_lost, length-slots_of}

abbrev pub packets_of : Arrivals → List HeldPacket
packets_of [] = []
packets_of ((now, p) ∷ ps) = as_held p ∷ packets_of ps

pub outcomes : (ps : Arrivals) → map outcome (packets_of ps) ≡ live_trace ps
outcomes [] = refl
outcomes ((now, p) ∷ ps) = ap (◌∷◌ (some p, live)) (outcomes ps)

rank_of : (g k w : ℕ) → biased w ≡ k → g ≤ k → k < 2 ^ 32 → sub_u32 (biased w) g ≡ k - g
rank_of g k w e le lt = rw e (omega arith)

-- The held packets behind a slot stand in their order already.
place_first :
    (g k : ℕ) (h : HeldPacket) (qs : Arrivals)
    → rank g h ≤ k - g
    → g ≤ k
    → k + length qs ≤ 2 ^ 32
    → InOrder k qs
    → place g h (packets_of qs) ≡ h ∷ packets_of qs
unfolding place
place_first g k h [] r le fits o = refl
place_first g k h ((now, q) ∷ qs) r le fits o =
    rw (first (rank g h) (rank g (as_held q)) (omega (arith, behind))) refl
  where
    first : (a b : ℕ) → a ≤ b → leb a b ≡ true
    first a b h = ground arith

    behind : rank g (as_held q) ≡ k - g
    behind = unfold rank in rank_of g k q.sequence o.0 le (omega arith)

sorted_held :
    (g k : ℕ) (qs : Arrivals)
    → g ≤ k
    → k + length qs ≤ 2 ^ 32
    → InOrder k qs
    → stable_sort g (held_of k qs) ≡ packets_of qs
unfolding stable_sort
sorted_held g k [] le fits o = refl
sorted_held g k ((now, q) ∷ qs) le fits o =
    ap (place g (as_held q)) (sorted_held g (k + 1) qs (omega arith) (omega arith) o.2)
    ∙ place_first g (k + 1) (as_held q) qs (omega (arith, here)) (omega arith) (omega arith) o.2
  where
    here : rank g (as_held q) ≡ k - g
    here = unfold rank in rank_of g k q.sequence o.0 le (omega arith)

insert_first :
    (g : ℕ) (h : HeldPacket) (qs : Arrivals)
    → insert g h (held_of (g + 1) qs) ≡ (g, h) ∷ held_of (g + 1) qs
unfolding insert
insert_first g h [] = refl
insert_first g h ((now, q) ∷ qs) = rw (before) refl
  where
    before : ltb g (g + 1) ≡ true
    before = ground arith

abbrev pub rescued : AudioPacket → HeldPacket
rescued r = record { packet = r; provenance = recovered }

-- The hold at the lost slot, released with the recovered packet in it.
pub release_rescued :
    (g : ℕ) (r : AudioPacket) (qs : Arrivals) (d : Decoder)
    → biased r.sequence ≡ g
    → g + 1 + length qs ≤ 2 ^ 32
    → InOrder (g + 1) qs
    → stable_sort g ((g, rescued r) ∷ held_of (g + 1) qs) ≡ rescued r ∷ packets_of qs
unfolding stable_sort
release_rescued g r qs d e fits o =
    ap (place g (rescued r)) (sorted_held g (g + 1) qs (omega arith) (omega arith) o)
    ∙ place_first g (g + 1) (rescued r) qs (omega (arith, here)) (omega arith) (omega arith) o
  where
    here : rank g (rescued r) ≡ 0
    here = unfold rank in (rank_of g g r.sequence e (omega arith) (omega arith) ∙ omega arith)

-- When the parity packet comes: in a hold since the lost slot, or, where that is the last one,
-- without a hold.
abbrev pub paused : ℕ → Arrivals → Decoder → Decoder
paused g [] d = record d { held_packets = []; holding = false }
paused g (a ∷ qs) d = record d {
  held_packets = held_of (g + 1) (a ∷ qs);
  holding = true;
  hold_base_seq = g;
}

abbrev pub saved : ℕ → AudioPacket → Arrivals → Decoder → Decoder
saved g r qs d = record d {
  held_packets = (g, rescued r) ∷ held_of (g + 1) qs;
  holding = true;
  hold_base_seq = g;
  packets_recovered_by_fec = d.packets_recovered_by_fec + 1;
  fec_blocks_complete = d.fec_blocks_complete + 1;
}

pub recover_lem :
    (g : ℕ) (r : AudioPacket) (qs : Arrivals) (d : Decoder)
    → recover r g (paused g qs d) ≡ saved g r qs d
unfolding recover begin_hold insert
recover_lem g r [] d = refl
recover_lem g r (a ∷ qs) d =
    ap (λ h. record (saved g r (a ∷ qs) d) { held_packets = h })
      (insert_first g (rescued r) (a ∷ qs))

-- The packets `m` are pending, and the next place is `next`.
abbrev pub with_pending : ℤ → List (ℕ × AudioPacket) → ℕ → Trace → Decoder → Decoder
with_pending touched m next trace d = record d {
  active_blocks = pend touched m;
  discarded_sequences = [];
  next_expected_seq = next;
  emitted = trace;
}

noted_lem :
    (s j : ℕ) (d : Decoder)
    → s ≡ (d.next_expected_seq + j) % 2 ^ 32
    → j ≤ 1
    → d.next_expected_seq < 2 ^ 32
    → note_sequence s d ≡ record d { next_expected_seq = add_u32 s 1 }
unfolding note_sequence
noted_lem s j d e small b = rw e (ground arith)

pub noted_paused :
    (s j g : ℕ) (qs : Arrivals) (touched : ℤ) (m : List (ℕ × AudioPacket)) (next : ℕ)
    (trace : Trace) (d : Decoder)
    → s ≡ (next + j) % 2 ^ 32
    → j ≤ 1
    → next < 2 ^ 32
    → note_sequence s (paused g qs (with_pending touched m next trace d))
      ≡ paused g qs (with_pending touched m (add_u32 s 1) trace d)
noted_paused s j g [] touched m next trace d e small b = noted_lem s j _ e small b
noted_paused s j g (a ∷ qs) touched m next trace d e small b = noted_lem s j _ e small b

entries-append :
    (a b : List (Option AudioPacket)) (s : ℕ)
    → entries s (a ++ b) ≡ entries s a ++ entries (s + length a) b
entries-append [] b s = ap (λ n. entries n b) {x = s} {y = s + 0} (omega arith)
entries-append (none ∷ a) b s =
    entries-append a b (s + 1)
    ∙ ap (λ n. entries (s + 1) a ++ entries n b) {x = s + 1 + length a} {y = s + suc (length a)}
        (omega arith)
entries-append (some p ∷ a) b s = ap (◌∷◌ (s, p)) (
    entries-append a b (s + 1)
    ∙ ap (λ n. entries (s + 1) a ++ entries n b) {x = s + 1 + length a} {y = s + suc (length a)}
        (omega arith))

entries-Below :
    (slots : List (Option AudioPacket)) (s hi : ℕ)
    → s + length slots ≤ hi
    → Below hi (entries s slots)
entries-Below [] s hi h = tt
entries-Below (none ∷ slots) s hi h = entries-Below slots (s + 1) hi (omega arith)
entries-Below (some p ∷ slots) s hi h = (omega arith, entries-Below slots (s + 1) hi (omega arith))

pub length-entries : (ps : Arrivals) (s : ℕ) → length (entries s (slots_of ps)) ≡ length ps
length-entries [] s = refl
length-entries (a ∷ ps) s = ap suc (length-entries ps (s + 1))

pub entries_one_lost :
    (ps qs : Arrivals) (s : ℕ)
    → entries s (one_lost ps qs)
      ≡ entries s (slots_of ps) ++ entries (s + length ps + 1) (slots_of qs)
entries_one_lost ps qs s =
    entries-append (slots_of ps) (none ∷ slots_of qs) s
    ∙ ap (λ n. entries s (slots_of ps) ++ entries (s + n + 1) (slots_of qs)) (length-slots_of ps)

-- The next place after the members: the lost one's, if nothing came behind it.
abbrev pub next_place : ℕ → Arrivals → ℕ
next_place g [] = g % 2 ^ 32
next_place g (a ∷ qs) = (g + 1 + length (a ∷ qs)) % 2 ^ 32

-- The packets before and behind the lost one leave the decoder paused.
behind_gap :
    (stamp : ℕ) (qs : Arrivals) (g : ℕ) (touched : ℤ) (m : List (ℕ × AudioPacket)) (trace : Trace)
    (d : Decoder)
    → InOrder (g + 1) qs
    → 2 ^ 31 ≤ g
    → Below (g + 1) m
    → length m + length qs ≤ 20
    → receive stamp qs (streaming touched g m trace d)
      ≡ paused g qs (
          with_pending
            (last_time touched qs)
            (m ++ entries (g + 1) (slots_of qs))
            (next_place g qs)
            trace
            d)
unfolding process_packet
behind_gap stamp [] g touched m trace d o half below few =
    ap (λ l. streaming touched g l trace d) (sym (append-nil m))
behind_gap stamp ((now, q) ∷ qs) g touched m trace d o half below few =
    ap (receive stamp qs) (
      gap_step stamp now q q.sequence (g + 1) o.1 o.0 touched g m trace d half (omega arith) below
        (omega arith))
    ∙ receive-in_hold stamp qs (g + 1 + 1) now (m ++ (g + 1, q) ∷ []) g ((g + 1, as_held q) ∷ [])
        trace d o.2 (Below-snoc (g + 1) (g + 1 + 1) q m (omega arith) below)
        (omega (arith, length-append m ((g + 1, q) ∷ []))) (omega arith, tt) (omega arith)
    ∙ in_hold_eq (last_time now qs) {k = g + 1 + 1 + length qs}
        {k' = g + 1 + length ((now, q) ∷ qs)} g trace d (omega arith)
        (append_assoc m ((g + 1, q) ∷ []) (entries (g + 1 + 1) (slots_of qs))) refl

pub receive_lem :
    (stamp : ℕ) (ps qs : Arrivals) (start : ℕ) (touched : ℤ) (trace : Trace) (d : Decoder)
    → InOrder start ps
    → InOrder (start + length ps + 1) qs
    → 2 ^ 31 ≤ start
    → length ps + length qs ≤ 20
    → receive stamp qs (receive stamp ps (streaming touched start [] trace d))
      ≡ paused (start + length ps) qs (
          with_pending
            (last_time (last_time touched ps) qs)
            (entries start (one_lost ps qs))
            (next_place (start + length ps) qs)
            (trace ++ live_trace ps)
            d)
receive_lem stamp ps qs start touched trace d o o' half few =
    ap (receive stamp qs) (receive-streaming stamp ps start touched [] trace d o tt (omega arith))
    ∙ behind_gap stamp qs (start + length ps) (last_time touched ps) (entries start (slots_of ps))
        (trace ++ live_trace ps) d o' (omega arith)
        (entries-Below (slots_of ps) start (start + length ps + 1)
          (omega (arith, length-slots_of ps)))
        (omega (arith, length-entries ps start))
    ∙ ap
        (λ m. paused (start + length ps) qs (
          with_pending (last_time (last_time touched ps) qs) m (next_place (start + length ps) qs)
            (trace ++ live_trace ps) d))
        (sym (entries_one_lost ps qs start))
