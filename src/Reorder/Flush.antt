-- ===== src/Reorder/Flush.antt =====
-- `PacketReorderBuffer::forceFlush`: what it emits, and how many gaps.
use native.Mathlib.Numerals.{add-one}
use naudio.Prelude.{
  ℕ, zero, suc, ◌+◌, ◌-◌, ◌≤◌, min, ◌≡◌, refl, sym, ap, ◌∙◌, subst, inl, inr, Option, none, some,
  List, [], ◌∷◌, ◌++◌, append_assoc, append-nil, arith, replicate, ◌==◌, Bool-cases,
}
use naudio.Packet.{AudioPacket}
use naudio.Assoc.{last_key, Above, AllEntries}
use naudio.Reorder.{Reorder, emit, emit_gaps, flush_one, flush_loop}
use naudio.Reorder.Valid.{Ascends, Ascends-packet, Ascends-gap, gap_count, Keyed}

-- What a run of emissions leaves: more of the trace, more gaps, and the window as it was.
pub record Emits (r : Reorder) (more : List (Option AudioPacket)) (gaps : ℕ) (s : Reorder)
    : Type 0 where
  pub trace : s.emitted ≡ r.emitted ++ more
  pub gaps_made : s.gaps_emitted ≡ r.gaps_emitted + gaps
  pub window : s.window_size ≡ r.window_size

emit_gaps-Emits : (n : ℕ) (r : Reorder) → Emits r (replicate n none) n (emit_gaps n r)
unfolding emit_gaps emit
emit_gaps-Emits zero r = record {
  trace = sym (append-nil r.emitted);
  gaps_made = omega arith;
  window = refl;
}
emit_gaps-Emits (suc n) r =
    let e =
      emit_gaps-Emits n
        (record r { gaps_emitted = r.gaps_emitted + 1; emitted = r.emitted ++ none ∷ [] }) in
    record {
      trace = e.trace ∙ append_assoc r.emitted (none ∷ []) (replicate n none);
      gaps_made = omega (arith, e.gaps_made);
      window = e.window;
    }

flush_one-Emits :
    (start holes seq : ℕ) (p : AudioPacket) (r : Reorder)
    → Emits r (replicate holes none ++ some p ∷ []) holes (flush_one start holes seq p r)
unfolding flush_one emit
flush_one-Emits start holes seq p r =
    let e = emit_gaps-Emits holes r in
    elim (Bool-cases (seq == start)) [
      | inl first ↦ rw first (record {
        trace =
            ap (λ t. t ++ some p ∷ []) e.trace
            ∙ append_assoc r.emitted (replicate holes none) (some p ∷ []);
        gaps_made = e.gaps_made;
        window = e.window;
      })
      | inr later ↦ rw later (record {
        trace =
            ap (λ t. t ++ some p ∷ []) e.trace
            ∙ append_assoc r.emitted (replicate holes none) (some p ∷ []);
        gaps_made = e.gaps_made;
        window = e.window;
      })
    ]

-- The gaps and packets that the loop emits.
unfoldable pub flush_trace : List (ℕ × AudioPacket) → ℕ → ℕ → List (Option AudioPacket)
flush_trace [] cursor budget = []
flush_trace ((seq, p) ∷ m) cursor budget =
    let holes = min (seq - cursor) budget in
    (replicate holes none ++ some p ∷ []) ++ flush_trace m (seq + 1) (budget - holes)

gaps_of_run :
    (n : ℕ) (p : AudioPacket) (t : List (Option AudioPacket))
    → gap_count ((replicate n none ++ some p ∷ []) ++ t) ≡ n + gap_count t
gaps_of_run zero p t = omega arith
gaps_of_run (suc n) p t = omega (arith, gaps_of_run n p t)

pub flush_loop-Emits :
    (start : ℕ) (m : List (ℕ × AudioPacket)) (cursor budget : ℕ) (r : Reorder)
    → Emits r
        (flush_trace m cursor budget)
        (gap_count (flush_trace m cursor budget))
        (flush_loop start m cursor budget r)
unfolding flush_loop flush_trace
flush_loop-Emits start [] cursor budget r = record {
  trace = sym (append-nil r.emitted);
  gaps_made = omega arith;
  window = refl;
}
flush_loop-Emits start ((seq, p) ∷ m) cursor budget r =
    let holes = min (seq - cursor) budget in
    let e = flush_one-Emits start holes seq p r in
    let f = flush_loop-Emits start m (seq + 1) (budget - holes) (flush_one start holes seq p r) in
    record {
      trace =
          f.trace
          ∙ ap (λ t. t ++ flush_trace m (seq + 1) (budget - holes)) e.trace
          ∙ append_assoc r.emitted (replicate holes none ++ some p ∷ [])
              (flush_trace m (seq + 1) (budget - holes));
      gaps_made = omega (
        arith,
        f.gaps_made,
        e.gaps_made,
        gaps_of_run holes p (flush_trace m (seq + 1) (budget - holes)),
      );
      window = f.window ∙ e.window;
    }

pub gap_count-append :
    (s t : List (Option AudioPacket)) → gap_count (s ++ t) ≡ gap_count s + gap_count t
gap_count-append [] t = omega arith
gap_count-append (none ∷ s) t = omega (arith, gap_count-append s t)
gap_count-append (some p ∷ s) t = gap_count-append s t

-- The budget bounds the gaps.
pub flush_trace_gaps :
    (m : List (ℕ × AudioPacket)) (cursor budget : ℕ)
    → gap_count (flush_trace m cursor budget) ≤ budget
unfolding flush_trace
flush_trace_gaps [] cursor budget = omega arith
flush_trace_gaps ((seq, p) ∷ m) cursor budget =
    let holes = min (seq - cursor) budget in
    omega (
      arith,
      gaps_of_run holes p (flush_trace m (seq + 1) (budget - holes)),
      flush_trace_gaps m (seq + 1) (budget - holes),
    )

-- The place after the last entry.
abbrev pub end_of : ℕ → List (ℕ × AudioPacket) → ℕ
end_of cursor [] = cursor
end_of cursor ((k, p) ∷ m) = end_of (k + 1) m

pub last_key-end : (k : ℕ) (m : List (ℕ × AudioPacket)) → last_key k m + 1 ≡ end_of (k + 1) m
unfolding last_key
last_key-end k [] = refl
last_key-end k ((j, p) ∷ m) = last_key-end j m

Ascends-gaps :
    (n lo hi : ℕ) (t : List (Option AudioPacket))
    → Ascends lo t hi
    → Ascends lo (t ++ replicate n none) hi
Ascends-gaps zero lo hi t a = subst (λ l. Ascends lo l hi) (sym (append-nil t)) a
Ascends-gaps (suc n) lo hi t a =
    subst (λ l. Ascends lo l hi) (append_assoc t (none ∷ []) (replicate n none))
      (Ascends-gaps n lo hi (t ++ none ∷ []) (Ascends-gap lo hi t a))

pub flush_trace-Ascends :
    (m : List (ℕ × AudioPacket)) (cursor budget : ℕ) (t : List (Option AudioPacket))
    → Above cursor m
    → AllEntries Keyed m
    → Ascends 0 t cursor
    → Ascends 0 (t ++ flush_trace m cursor budget) (end_of cursor m)
unfolding flush_trace
flush_trace-Ascends [] cursor budget t above keyed a =
    subst (λ l. Ascends 0 l cursor) (sym (append-nil t)) a
flush_trace-Ascends ((seq, p) ∷ m) cursor budget t above keyed a =
    subst (λ l. Ascends 0 l (end_of (seq + 1) m)) regroup
      (flush_trace-Ascends m (seq + 1) (budget - holes) (t ++ (replicate holes none ++ some p ∷ []))
        (rw add-one above.1) keyed.1 one)
  where
    holes : ℕ
    holes = min (seq - cursor) budget

    regroup :
        (t ++ (replicate holes none ++ some p ∷ [])) ++ flush_trace m (seq + 1) (budget - holes)
        ≡ t ++ ((replicate holes none ++ some p ∷ []) ++ flush_trace m (seq + 1) (budget - holes))
    regroup = append_assoc t (replicate holes none ++ some p ∷ []) _

    one : Ascends 0 (t ++ (replicate holes none ++ some p ∷ [])) (seq + 1)
    one =
        subst (λ l. Ascends 0 l (seq + 1)) (append_assoc t (replicate holes none) (some p ∷ []))
          (subst (λ k. Ascends 0 ((t ++ replicate holes none) ++ some p ∷ []) (k + 1)) keyed.0
            (Ascends-packet 0 cursor (t ++ replicate holes none) p (Ascends-gaps holes 0 cursor t a)
              (omega (arith, keyed.0, above.0))))
