-- ===== src/Decoder/Live.antt =====
-- `FecDecoder` without loss: packets in order, however many.
use naudio.Prelude.{
  ℕ, ◌^◌, ◌<◌, ◌≡◌, refl, sym, ap, ◌∙◌, subst, Bool, false, none, some, [], ◌∷◌, ◌++◌, append_assoc,
  append-nil, arith, if◌then◌else◌,
}
use naudio.Prelude.Int.{ℤ}
use naudio.Prelude.Word.{add_u32}
use naudio.Packet.{AudioPacket}
use naudio.Decoder.{
  Decoder, biased, live, create, emit, store_in_block, write_back, cap_pending, detected_gap,
  note_sequence,
}
use naudio.Decoder.Process.{
  note_gap, hold_packet, process_member, process, process_packet, is_parity,
}
use naudio.Decoder.Bounded.{
  HasPending, block_key-pending, store_in_block-IsBlocks, store_in_block-Kept, Kept,
}
use naudio.Decoder.Arrivals.{Arrivals, receive, live_trace}

-- No parity packets, with consecutive sequence numbers from `k` on, which wrap.
abbrev pub Consecutive : ℕ → Arrivals → Type 0
Consecutive k [] = Unit {0}
Consecutive k ((now, p) ∷ ps) =
    (biased p.sequence ≡ k) × (is_parity p.packet_type ≡ false) × Consecutive (add_u32 k 1) ps

-- Ready for the packet at `k`: it is expected, or it is the first.
record Ready (k : ℕ) (d : Decoder) : Type 0 where
  shape : HasPending d.active_blocks
  shut : d.holding ≡ false
  gapless : detected_gap k d ≡ none
  noted : note_sequence k d ≡ record d { next_expected_seq = add_u32 k 1 }

stored-next :
    (now : ℤ) (k : ℕ) (p : AudioPacket) (d : Decoder)
    → HasPending d.active_blocks
    → (store_in_block now k p d).next_expected_seq ≡ d.next_expected_seq
unfolding store_in_block write_back cap_pending
stored-next now k p d h = rw (block_key-pending k d h.pending) refl

expected-Ready :
    (k : ℕ) (d : Decoder)
    → HasPending d.active_blocks
    → d.holding ≡ false
    → d.next_expected_seq ≡ k
    → k < 2 ^ 32
    → Ready k d
unfolding detected_gap note_sequence
expected-Ready k d shape shut e b = record {
  shape = shape;
  shut = shut;
  gapless = ground arith;
  noted = ground arith;
}

note_gap_lem :
    (k : ℕ) (d : Decoder) → Ready k d → note_gap k d ≡ record d { next_expected_seq = add_u32 k 1 }
unfolding note_gap
note_gap_lem k d h = rw (h.gapless, note_gap) h.noted

abbrev emitted_one : AudioPacket → ℕ → Decoder → Decoder
emitted_one p k d = record d {
  next_expected_seq = add_u32 k 1;
  emitted = d.emitted ++ (some p, live) ∷ [];
}

chosen : (c : Bool) (x y : Decoder) → c ≡ false → (if c then x else y) ≡ y
chosen c x y e = rw e refl

member_lem :
    (stamp : ℕ) (now : ℤ) (p : AudioPacket) (k : ℕ) (d : Decoder)
    → biased p.sequence ≡ k
    → is_parity p.packet_type ≡ false
    → Ready k d
    → process_packet stamp now p d ≡ store_in_block now k p (emitted_one p k d)
unfolding process_packet process process_member emit
member_lem stamp now p k d numbered member h =
    rw (member, numbered)
      (ap
          (λ (g : Decoder).
            if g.holding
            then hold_packet now k p g
            else store_in_block now k p (emit (some p) live g))
          (note_gap_lem k d h)
        ∙ chosen d.holding _ _ h.shut)

-- The packet is emitted, and the decoder is ready for the next.
member_step :
    (stamp : ℕ) (now : ℤ) (p : AudioPacket) (k : ℕ) (d : Decoder)
    → biased p.sequence ≡ k
    → is_parity p.packet_type ≡ false
    → Ready k d
    → let e = process_packet stamp now p d in
      (e.emitted ≡ d.emitted ++ (some p, live) ∷ []) × Ready (add_u32 k 1) e
member_step stamp now p k d numbered member h =
    subst (λ (e : Decoder). (e.emitted ≡ d.emitted ++ (some p, live) ∷ []) × Ready (add_u32 k 1) e)
      (sym (member_lem stamp now p k d numbered member h)) (kept.2, ready)
  where
    g : Decoder
    g = emitted_one p k d

    kept : Kept g (store_in_block now k p g)
    kept = store_in_block-Kept now k p g h.shape

    ready : Ready (add_u32 k 1) (store_in_block now k p g)
    ready =
        expected-Ready (add_u32 k 1) (store_in_block now k p g)
          (store_in_block-IsBlocks now k p g h.shape).shape (kept.1 ∙ h.shut)
          (stored-next now k p g h.shape) (omega arith)

received :
    (stamp : ℕ) (ps : Arrivals) (k : ℕ) (d : Decoder)
    → Consecutive k ps
    → Ready k d
    → (receive stamp ps d).emitted ≡ d.emitted ++ live_trace ps
received stamp [] k d o h = sym (append-nil d.emitted)
received stamp ((now, p) ∷ ps) k d o h =
    let (first, ready) = member_step stamp now p k d o.0 o.1 h in
    received stamp ps (add_u32 k 1) (process_packet stamp now p d) o.2 ready
    ∙ ap (λ t. t ++ live_trace ps) first
    ∙ append_assoc d.emitted ((some p, live) ∷ []) (live_trace ps)

-- Any number of packets other than parity packets, with consecutive sequence numbers, which may
-- wrap, are emitted by a new decoder as they come: each once, in order and unchanged, with no gap
-- and nothing held.
pub receive-live :
    (stamp : ℕ) (block_timeout_ms : ℤ) (k : ℕ) (ps : Arrivals)
    → Consecutive k ps
    → (receive stamp ps (create block_timeout_ms)).emitted ≡ live_trace ps
unfolding create
receive-live stamp block_timeout_ms k ps o = received stamp ps k (create block_timeout_ms) o ready
  where
    ready : Ready k (create block_timeout_ms)
    ready =
        unfold note_sequence detected_gap in
        record {
          shape = record { ascending = tt; pending = tt };
          shut = refl;
          gapless = refl;
          noted = refl;
        }
