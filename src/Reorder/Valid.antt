-- ===== src/Reorder/Valid.antt =====
-- The invariant of `PacketReorderBuffer`: what waits lies ahead of the next place, fits the window,
-- and what was emitted came out in ascending order.
use native.Mathlib.Numerals.{add-one}
use naudio.Prelude.{
  ℕ, zero, suc, ◌+◌, ◌≤◌, ◌<◌, ◌≡◌, refl, sym, ap, ◌∙◌, subst, inl, inr, Option, none, some,
  Option-cases, List, [], ◌∷◌, ◌++◌, arith, length,
}
use naudio.Packet.{AudioPacket}
use naudio.Assoc.{
  find, Above, AllEntries, erase-AllEntries, find-AllEntries, length-erase, find-none-Above,
  find-some-Above, keys, keys-erase,
}
use naudio.Reorder.{Reorder, emit, drain_one, drain_consecutive}

-- The packets of a trace lie between `lo` and `hi` (exclusive) and ascend strictly.
abbrev pub Ascends : ℕ → List (Option AudioPacket) → ℕ → Type 0
Ascends lo [] hi = lo ≤ hi
Ascends lo (none ∷ t) hi = Ascends lo t hi
Ascends lo (some p ∷ t) hi = (lo ≤ p.sequence) × Ascends (suc p.sequence) t hi

abbrev pub gap_count : List (Option AudioPacket) → ℕ
gap_count [] = 0
gap_count (none ∷ t) = suc (gap_count t)
gap_count (some p ∷ t) = gap_count t

pub Ascends-packet :
    (lo hi : ℕ) (t : List (Option AudioPacket)) (p : AudioPacket)
    → Ascends lo t hi
    → hi ≤ p.sequence
    → Ascends lo (t ++ some p ∷ []) (p.sequence + 1)
Ascends-packet lo hi [] p a h = (omega arith, omega arith)
Ascends-packet lo hi (none ∷ t) p a h = Ascends-packet lo hi t p a h
Ascends-packet lo hi (some q ∷ t) p a h = (a.0, Ascends-packet (suc q.sequence) hi t p a.1 h)

pub Ascends-gap :
    (lo hi : ℕ) (t : List (Option AudioPacket)) → Ascends lo t hi → Ascends lo (t ++ none ∷ []) hi
Ascends-gap lo hi [] a = a
Ascends-gap lo hi (none ∷ t) a = Ascends-gap lo hi t a
Ascends-gap lo hi (some q ∷ t) a = (a.0, Ascends-gap (suc q.sequence) hi t a.1)

pub Ascends-mono :
    (lo hi top : ℕ) (t : List (Option AudioPacket)) → hi ≤ top → Ascends lo t hi → Ascends lo t top
Ascends-mono lo hi top [] h a = omega arith
Ascends-mono lo hi top (none ∷ t) h a = Ascends-mono lo hi top t h a
Ascends-mono lo hi top (some q ∷ t) h a = (a.0, Ascends-mono (suc q.sequence) hi top t h a.1)

pub gap_count_packet :
    (t : List (Option AudioPacket)) (p : AudioPacket) → gap_count (t ++ some p ∷ []) ≡ gap_count t
gap_count_packet [] p = refl
gap_count_packet (none ∷ t) p = ap suc (gap_count_packet t p)
gap_count_packet (some q ∷ t) p = gap_count_packet t p

pub gap_count_gap : (t : List (Option AudioPacket)) → gap_count (t ++ none ∷ []) ≡ suc (gap_count t)
gap_count_gap [] = refl
gap_count_gap (none ∷ t) = ap suc (gap_count_gap t)
gap_count_gap (some q ∷ t) = gap_count_gap t

abbrev pub Keyed : ℕ → AudioPacket → Type 0
Keyed k p = p.sequence ≡ k

-- The state while `next` is the place that comes next; what waits stands at `least` or behind it.
pub record Waits (r : Reorder) (next least : ℕ) : Type 0 where
  pub expects : r.next_expected ≡ some next
  pub waiting : Above least r.buffer
  pub keyed : AllEntries Keyed r.buffer
  pub timed : keys r.buffer ≡ keys r.arrival_times
  pub room : length r.buffer < r.window_size
  pub trace : Ascends 0 r.emitted next
  pub counted : gap_count r.emitted ≡ r.gaps_emitted

-- The invariant, by what `next_expected` is.
abbrev pub Ordered : Reorder → Option ℕ → Type 0
Ordered r none =
    (r.buffer ≡ [])
    × (r.arrival_times ≡ [])
    × (r.emitted ≡ [])
    × (r.gaps_emitted ≡ 0)
    × (0 < r.window_size)
Ordered r (some next) = Waits r next (suc next)

abbrev pub IsOrdered : Reorder → Type 0
IsOrdered r = Ordered r r.next_expected

pub Waits-IsOrdered : (r : Reorder) (next : ℕ) → Waits r next (suc next) → IsOrdered r
Waits-IsOrdered r next w = subst (Ordered r) (sym w.expects) w

drain_one-Waits :
    (r : Reorder) (next : ℕ) (p : AudioPacket)
    → Waits r next next
    → find next r.buffer ≡ some p
    → Waits (drain_one next p r) (next + 1) (next + 1)
unfolding drain_one emit
drain_one-Waits r next p w e = record {
  expects = refl;
  waiting = rw add-one (find-some-Above next r.buffer w.waiting e);
  keyed = erase-AllEntries Keyed next r.buffer w.keyed;
  timed = keys-erase next r.buffer r.arrival_times w.timed;
  room = omega (arith, length-erase next r.buffer e, w.room);
  trace =
      subst (λ k. Ascends 0 (r.emitted ++ some p ∷ []) (k + 1)) same
        (Ascends-packet 0 next r.emitted p w.trace (omega (arith, same)));
  counted = gap_count_packet r.emitted p ∙ w.counted;
}
  where
    same : p.sequence ≡ next
    same = find-AllEntries Keyed next r.buffer w.keyed e

drain_one-length :
    (r : Reorder) (next : ℕ) (p : AudioPacket)
    → find next r.buffer ≡ some p
    → length (drain_one next p r).buffer + 1 ≡ length r.buffer
unfolding drain_one emit
drain_one-length r next p e = length-erase next r.buffer e

settled :
    (r : Reorder) (next : ℕ)
    → Waits r next next
    → find next r.buffer ≡ none
    → Waits r next (suc next)
settled r next w gone = record {
  expects = w.expects;
  waiting = find-none-Above next r.buffer w.waiting gone;
  keyed = w.keyed;
  timed = w.timed;
  room = w.room;
  trace = w.trace;
  counted = w.counted;
}

find_empty : (next : ℕ) (m : List (ℕ × AudioPacket)) → length m ≤ 0 → find next m ≡ none
unfolding find
find_empty next [] h = refl
find_empty next (e ∷ m) h = absurd (omega arith)

-- `drainConsecutive` ends with the next place empty.
pub drain-IsOrdered :
    (fuel next : ℕ) (r : Reorder)
    → length r.buffer ≤ fuel
    → Waits r next next
    → IsOrdered (drain_consecutive fuel next r)
unfolding drain_consecutive
drain-IsOrdered zero next r h w =
    Waits-IsOrdered r next (settled r next w (find_empty next r.buffer h))
drain-IsOrdered (suc fuel) next r h w = elim (Option-cases (find next r.buffer)) [
  | inl gone ↦ rw (gone, drain_consecutive) (Waits-IsOrdered r next (settled r next w gone))
  | inr (p, e) ↦
      rw (e, drain_consecutive)
        (drain-IsOrdered fuel (next + 1) (drain_one next p r)
          (omega (arith, drain_one-length r next p e)) (drain_one-Waits r next p w e))
]
