-- ===== src/Decoder/Stream.antt =====
-- `FecDecoder::process` on packets in order, before a gap and in the hold that a gap opens.
use naudio.Prelude.{
  ℕ, suc, ◌+◌, ◌%◌, ◌^◌, ◌≤◌, ◌<◌, ◌≡◌, refl, ap, ◌∙◌, true, false, some, List, [], ◌∷◌, ◌++◌,
  arith, length, length-append, ltb, if◌then◌else◌,
}
use naudio.Prelude.Int.{ℤ}
use naudio.Packet.{AudioPacket}
use naudio.Assoc.{insert, find, AllEntries}
use naudio.Decoder.{
  Decoder, Block, HeldPacket, SequenceSet, biased, live, new_block, emit, detected_gap,
  note_sequence, begin_hold, release_held, cap_packets, cap_set, cap_pending, write_back,
  store_in_block, get_or_create_block,
}
use naudio.Decoder.Process.{note_gap, hold_packet, process_member, process, is_parity}
use naudio.Decoder.Trace.{Trace}
use naudio.Decoder.Bounded.{IsPending, block_key-pending}
use naudio.Decoder.Slots.{Below, insert_last}
use naudio.Decoder.Outcome.{pending_with}

-- The blocks with the packets `m` pending.
abbrev pub pend : ℤ → List (ℕ × AudioPacket) → List (ℕ × Block)
pend touched [] = []
pend touched (e ∷ m) = pending_with touched (e ∷ m)

abbrev pub as_held : AudioPacket → HeldPacket
as_held p = record { packet = p; provenance = live }

-- No gap so far: the next place is `k`, the packets `m` are pending and none is held.
abbrev pub streaming : ℤ → ℕ → List (ℕ × AudioPacket) → Trace → Decoder → Decoder
streaming touched k m trace d = record d {
  active_blocks = pend touched m;
  discarded_sequences = [];
  held_packets = [];
  holding = false;
  next_expected_seq = k % 2 ^ 32;
  emitted = trace;
}

-- A hold since the slot `base`.
abbrev pub in_hold :
    ℤ → ℕ → List (ℕ × AudioPacket) → ℕ → List (ℕ × HeldPacket) → Trace → Decoder → Decoder
in_hold touched k m base held trace d = record d {
  active_blocks = pend touched m;
  discarded_sequences = [];
  held_packets = held;
  holding = true;
  hold_base_seq = base;
  next_expected_seq = k % 2 ^ 32;
  emitted = trace;
}

abbrev pub stored : ℤ → List (ℕ × AudioPacket) → Decoder → Decoder
stored touched m d = record d { active_blocks = pend touched m; discarded_sequences = [] }

cap_packets_few :
    (m : List (ℕ × AudioPacket)) (n : ℕ) → length m ≤ 40 → cap_packets m [] n ≡ (m, [], n)
unfolding cap_packets
cap_packets_few [] n h = refl
cap_packets_few ((k, p) ∷ m) n h = rw (few (length m) (omega arith)) refl
  where
    few : (i : ℕ) → i < 40 → ltb 40 (suc i) ≡ false
    few i b = ground arith

pend-IsPending : (touched : ℤ) (m : List (ℕ × AudioPacket)) → AllEntries IsPending (pend touched m)
pend-IsPending touched [] = tt
pend-IsPending touched (e ∷ m) =
    (record { key_pending = refl; start_pending = refl; size_zero = refl }, tt)

store_pending :
    (now : ℤ) (k : ℕ) (p : AudioPacket) (d : Decoder)
    → AllEntries IsPending d.active_blocks
    → store_in_block now k p d ≡ (
        let b = get_or_create_block now 0 d.active_blocks in
        cap_pending (record b { packets = insert k p b.packets }) d)
unfolding store_in_block write_back
store_pending now k p d h = rw (block_key-pending k d h) refl

abbrev pending_block : ℤ → List (ℕ × AudioPacket) → Block
pending_block touched m = record (new_block 0 0 touched) { packets = m }

got_lem :
    (now touched : ℤ) (m : List (ℕ × AudioPacket))
    → get_or_create_block now 0 (pend touched m) ≡ pending_block now m
unfolding get_or_create_block find
got_lem now touched [] = refl
got_lem now touched (e ∷ m) = refl

filed_lem :
    (now touched : ℤ) (m m' : List (ℕ × AudioPacket))
    → insert 0 (pending_block now m') (pend touched m) ≡ pending_with now m'
unfolding insert
filed_lem now touched [] m' = refl
filed_lem now touched (e ∷ m) m' = refl

cap_lem :
    (now touched : ℤ) (m m' : List (ℕ × AudioPacket)) (d : Decoder)
    → length m' ≤ 40
    → cap_pending (pending_block now m') (stored touched m d)
      ≡ record d { active_blocks = pending_with now m'; discarded_sequences = [] }
unfolding cap_pending cap_set
cap_lem now touched m m' d few =
    ap
      (λ (r : List (ℕ × AudioPacket) × SequenceSet × ℕ).
        let (packets, discarded, n) = r in
        record d {
          active_blocks = insert 0 (pending_block now packets) (pend touched m);
          discarded_sequences = cap_set discarded;
          pending_packets_discarded = n;
        })
      (cap_packets_few m' d.pending_packets_discarded few)
    ∙ ap (λ b. record d { active_blocks = b; discarded_sequences = [] })
        (filed_lem now touched m m')

pend-snoc :
    (now : ℤ) (m : List (ℕ × AudioPacket)) (e : ℕ × AudioPacket)
    → pending_with now (m ++ e ∷ []) ≡ pend now (m ++ e ∷ [])
pend-snoc now [] e = refl
pend-snoc now (x ∷ m) e = refl

pub store_lem :
    (now touched : ℤ) (k : ℕ) (p : AudioPacket) (m : List (ℕ × AudioPacket)) (d : Decoder)
    → Below k m
    → length m < 40
    → store_in_block now k p (stored touched m d) ≡ stored now (m ++ (k, p) ∷ []) d
store_lem now touched k p m d below few =
    store_pending now k p (stored touched m d) (pend-IsPending touched m)
    ∙ ap (λ b. cap_pending (record b { packets = insert k p b.packets }) (stored touched m d))
        (got_lem now touched m)
    ∙ ap (λ l. cap_pending (pending_block now l) (stored touched m d)) (insert_last k p m below)
    ∙ cap_lem now touched m (m ++ (k, p) ∷ []) d (omega (arith, length-append m ((k, p) ∷ [])))
    ∙ ap (λ b. record d { active_blocks = b; discarded_sequences = [] }) (pend-snoc now m (k, p))

-- The expected packet opens no hold.
expected :
    (k : ℕ) (d : Decoder)
    → k < 2 ^ 32
    → d.next_expected_seq ≡ k % 2 ^ 32
    → note_gap k d ≡ record d { next_expected_seq = (k + 1) % 2 ^ 32 }
unfolding note_gap detected_gap note_sequence
expected k d b e = ground (arith, e)

-- A packet ahead of its place opens one at the place that was expected, if that is not negative.
ahead :
    (k j : ℕ) (d : Decoder)
    → d.next_expected_seq ≡ j % 2 ^ 32
    → 2 ^ 31 ≤ j
    → j < k
    → k < 2 ^ 32
    → note_gap k d ≡ begin_hold j (record d { next_expected_seq = (k + 1) % 2 ^ 32 })
unfolding note_gap detected_gap note_sequence
ahead k j d e half lt b = ground (arith, e)

module _ (stamp : ℕ) (now : ℤ) (p : AudioPacket) (w k : ℕ)
    (member : is_parity p.packet_type ≡ false) (numbered : biased w ≡ k) where
  -- In order, a packet is emitted at once and pending from then on.
  pub stream_step :
      (touched : ℤ) (m : List (ℕ × AudioPacket)) (trace : Trace) (d : Decoder)
      → Below k m
      → length m < 40
      → process stamp now (some p) w (streaming touched k m trace d)
        ≡ streaming now (k + 1) (m ++ (k, p) ∷ []) (trace ++ (some p, live) ∷ []) d
  unfolding process process_member emit
  stream_step touched m trace d below few =
      rw (member, numbered)
        (ap
            (λ (e : Decoder).
              if e.holding
              then hold_packet now k p e
              else store_in_block now k p (emit (some p) live e))
            (expected k (streaming touched k m trace d) (omega (arith, numbered)) refl)
          ∙ store_lem now touched k p m
              (streaming touched (k + 1) m (trace ++ (some p, live) ∷ []) d) below few)

  -- In a hold, it is held and pending.
  held_lem :
      (touched : ℤ) (next base : ℕ) (m : List (ℕ × AudioPacket)) (held : List (ℕ × HeldPacket))
      (trace : Trace) (d : Decoder)
      → Below k m
      → length m < 40
      → Below k held
      → length held < 20
      → hold_packet now k p (in_hold touched next m base held trace d)
        ≡ in_hold now next (m ++ (k, p) ∷ []) base (held ++ (k, as_held p) ∷ []) trace d
  unfolding hold_packet
  held_lem touched next base m held trace d below few held_below held_few =
      ap
        (λ (e : Decoder).
          let s = store_in_block now k p e in
          if ltb 20 (length s.held_packets) then release_held s else s)
        (ap (λ h. in_hold touched next m base h trace d)
          (insert_last k (as_held p) held held_below))
      ∙ ap (λ (s : Decoder). if ltb 20 (length s.held_packets) then release_held s else s)
          (store_lem now touched k p m
            (in_hold touched next m base (held ++ (k, as_held p) ∷ []) trace d) below few)
      ∙ not_full (length (held ++ (k, as_held p) ∷ [])) _ _
          (omega (arith, length-append held ((k, as_held p) ∷ [])))
    where
      not_full : (n : ℕ) (x y : Decoder) → n ≤ 20 → (if ltb 20 n then x else y) ≡ y
      not_full n x y h = ground arith

  pub held_step :
      (touched : ℤ) (base : ℕ) (m : List (ℕ × AudioPacket)) (held : List (ℕ × HeldPacket))
      (trace : Trace) (d : Decoder)
      → Below k m
      → length m < 40
      → Below k held
      → length held < 20
      → process stamp now (some p) w (in_hold touched k m base held trace d)
        ≡ in_hold now (k + 1) (m ++ (k, p) ∷ []) base (held ++ (k, as_held p) ∷ []) trace d
  unfolding process process_member
  held_step touched base m held trace d below few held_below held_few =
      rw (member, numbered)
        (ap
            (λ (e : Decoder).
              if e.holding
              then hold_packet now k p e
              else store_in_block now k p (emit (some p) live e))
            (expected k (in_hold touched k m base held trace d) (omega (arith, numbered)) refl)
          ∙ held_lem touched (k + 1) base m held trace d below few held_below held_few)

  -- Ahead of its place, it opens a hold there.
  pub gap_step :
      (touched : ℤ) (j : ℕ) (m : List (ℕ × AudioPacket)) (trace : Trace) (d : Decoder)
      → 2 ^ 31 ≤ j
      → j < k
      → Below k m
      → length m < 40
      → process stamp now (some p) w (streaming touched j m trace d)
        ≡ in_hold now (k + 1) (m ++ (k, p) ∷ []) j ((k, as_held p) ∷ []) trace d
  unfolding process process_member begin_hold
  gap_step touched j m trace d half lt below few =
      rw (member, numbered)
        (ap
            (λ (e : Decoder).
              if e.holding
              then hold_packet now k p e
              else store_in_block now k p (emit (some p) live e))
            (ahead k j (streaming touched j m trace d) refl half lt (omega (arith, numbered)))
          ∙ held_lem touched (k + 1) j m [] trace d below few tt (omega arith))
