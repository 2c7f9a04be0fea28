-- ===== src/Reorder/Slots.antt =====
-- `PacketReorderBuffer::forceFlush`, slot by slot.
use native.Mathlib.Numerals.{add-one}
use naudio.Prelude.{
  ℕ, zero, suc, ◌+◌, ◌-◌, ◌≤◌, ◌<◌, min, ◌≡◌, refl, sym, ap, ap₂, ◌∙◌, subst, Option, none, some,
  List, [], ◌∷◌, ◌++◌, append_assoc, arith, length, replicate, ◌==◌, if◌then◌else◌,
}
use naudio.Packet.{AudioPacket}
use naudio.Assoc.{find, Above, find_below, last_key}
use naudio.Reorder.{Reorder, flush_loop, force_flush_from}
use naudio.Reorder.Flush.{flush_trace, flush_loop-Emits, end_of, flush_trace_gaps}

-- What stands in each of `n` places from `lo` on: the packet, or a gap.
abbrev pub slots : ℕ → ℕ → List (ℕ × AudioPacket) → List (Option AudioPacket)
slots lo zero m = []
slots lo (suc n) m = find lo m ∷ slots (lo + 1) n m

slots_below :
    (lo n k : ℕ) (p : AudioPacket) (m : List (ℕ × AudioPacket))
    → k < lo
    → slots lo n ((k, p) ∷ m) ≡ slots lo n m
unfolding find
slots_below lo zero k p m h = refl
slots_below lo (suc n) k p m h =
    ap₂ (λ x t. x ∷ t) (missed lo k h) (slots_below (lo + 1) n k p m (omega arith))
  where
    missed : (lo k : ℕ) → k < lo → (if lo == k then some p else find lo m) ≡ find lo m
    missed lo k h = ground arith

slots_gap :
    (g lo n : ℕ) (p : AudioPacket) (m : List (ℕ × AudioPacket))
    → Above (lo + g) m
    → slots lo (g + n) m ≡ replicate g none ++ slots (lo + g) n m
slots_gap zero lo n p m above = ap₂ (λ j k. slots k j m) (none_less n) (sym (plain lo))
  where
    none_less : (n : ℕ) → 0 + n ≡ n
    none_less n = omega arith

    plain : (lo : ℕ) → lo + 0 ≡ lo
    plain lo = omega arith
slots_gap (suc g) lo n p m above =
    ap (λ j. slots lo j m) (succ g n)
    ∙ ap₂ (λ x t. x ∷ t) (find_below lo (lo + suc g) m (omega arith) above)
        (subst (λ k. slots (lo + 1) (g + n) m ≡ replicate g none ++ slots k n m) (shift lo g)
          (slots_gap g (lo + 1) n p m (subst (λ k. Above k m) (sym (shift lo g)) above)))
  where
    shift : (lo g : ℕ) → lo + 1 + g ≡ lo + suc g
    shift lo g = omega arith

    succ : (g n : ℕ) → suc g + n ≡ suc (g + n)
    succ g n = omega arith

end_after :
    (cursor : ℕ) (m : List (ℕ × AudioPacket)) → Above cursor m → cursor + length m ≤ end_of cursor m
end_after cursor [] above = omega arith
end_after cursor ((k, p) ∷ m) above =
    omega (arith, above.0, end_after (k + 1) m (rw add-one above.1))

slots_next :
    (g lo k n : ℕ) (p : AudioPacket) (m : List (ℕ × AudioPacket))
    → lo + g ≡ k
    → Above (suc k) m
    → slots lo (g + suc n) ((k, p) ∷ m) ≡ replicate g none ++ some p ∷ slots (k + 1) n m
unfolding find
slots_next g lo k n p m e above =
    slots_gap g lo (suc n) p ((k, p) ∷ m) (omega arith, above)
    ∙ ap (λ j. replicate g none ++ slots j (suc n) ((k, p) ∷ m)) e
    ∙ ap₂ (λ x t. replicate g none ++ x ∷ t) (here k) (slots_below (k + 1) n k p m (omega arith))
  where
    here : (k : ℕ) → (if k == k then some p else find k m) ≡ some p
    here k = ground arith

-- With a budget for every hole, the trace has each place of the run once.
flush_trace-slots :
    (m : List (ℕ × AudioPacket)) (cursor budget : ℕ)
    → Above cursor m
    → end_of cursor m - cursor ≤ budget + length m
    → flush_trace m cursor budget ≡ slots cursor (end_of cursor m - cursor) m
unfolding flush_trace
flush_trace-slots [] cursor budget above fits =
    subst (λ n. [] ≡ slots cursor n []) (none_left cursor) refl
  where
    none_left : (c : ℕ) → 0 ≡ c - c
    none_left c = omega arith
flush_trace-slots ((k, p) ∷ m) cursor budget above fits =
    ap (λ h. (replicate h none ++ some p ∷ []) ++ flush_trace m (k + 1) (budget - h)) all_holes
    ∙ append_assoc (replicate (k - cursor) none) (some p ∷ [])
        (flush_trace m (k + 1) (budget - (k - cursor)))
    ∙ ap (λ t. replicate (k - cursor) none ++ some p ∷ t)
        (flush_trace-slots m (k + 1) (budget - (k - cursor)) (rw add-one above.1)
          (omega (arith, beyond, above.0)))
    ∙ sym (
        slots_next (k - cursor) cursor k (end_of (k + 1) m - (k + 1)) p m (omega (arith, above.0))
          above.1)
    ∙ ap (λ n. slots cursor n ((k, p) ∷ m)) span
  where
    beyond : k + 1 + length m ≤ end_of (k + 1) m
    beyond = end_after (k + 1) m (rw add-one above.1)

    all_holes : min (k - cursor) budget ≡ k - cursor
    all_holes = omega (arith, beyond, above.0)

    span : (k - cursor) + suc (end_of (k + 1) m - (k + 1)) ≡ end_of (k + 1) m - cursor
    span = omega (arith, beyond, above.0)

-- What one pass of the loop adds to the emitted list.
flush_loop-slots :
    (start : ℕ) (r : Reorder)
    → Above start r.buffer
    → end_of start r.buffer ≤ start + r.window_size + length r.buffer
    → (flush_loop start r.buffer start r.window_size r).emitted
      ≡ r.emitted ++ slots start (end_of start r.buffer - start) r.buffer
flush_loop-slots start r above fits =
    (flush_loop-Emits start r.buffer start r.window_size r).trace
    ∙ ap (λ t. r.emitted ++ t) (flush_trace-slots r.buffer start r.window_size above (omega arith))

-- `force_flush_from` on a buffer that has an entry.
abbrev flushed : ℕ → Reorder → List (ℕ × AudioPacket) → Reorder
flushed start r b = elim b [
  | [] ↦ r
  | e ∷ rest ↦ record (flush_loop start r.buffer start r.window_size r) {
    buffer = [];
    arrival_times = [];
    next_expected = some (last_key start r.buffer + 1);
  }
]

-- A flush adds at most a window of gaps to `gapsEmitted`.
pub flush-gaps :
    (start : ℕ) (r : Reorder)
    → (force_flush_from start r).gaps_emitted ≤ r.gaps_emitted + r.window_size
unfolding force_flush_from
flush-gaps start r = go r.buffer
  where
    go :
        (b : List (ℕ × AudioPacket))
        → (flushed start r b).gaps_emitted ≤ r.gaps_emitted + r.window_size
    go [] = omega arith
    go (e ∷ rest) = omega (
      arith,
      (flush_loop-Emits start r.buffer start r.window_size r).gaps_made,
      flush_trace_gaps r.buffer start r.window_size,
    )

-- A flush of a buffer that is not empty, whose packets stand at the place `start` or behind it,
-- with no more than a window of places missing up to the last of them, emits each of these places
-- once and in order: the packet where there is one and a gap where there is none.
pub flush-slots :
    (start : ℕ) (r : Reorder) (e : ℕ × AudioPacket) (rest : List (ℕ × AudioPacket))
    → r.buffer ≡ e ∷ rest
    → Above start r.buffer
    → end_of start r.buffer ≤ start + r.window_size + length r.buffer
    → (force_flush_from start r).emitted
      ≡ r.emitted ++ slots start (end_of start r.buffer - start) r.buffer
unfolding force_flush_from
flush-slots start r e rest full above fits =
    subst
      (λ b.
        (flushed start r b).emitted
        ≡ r.emitted ++ slots start (end_of start r.buffer - start) r.buffer)
      (sym full) (flush_loop-slots start r above fits)
