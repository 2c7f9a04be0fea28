-- ===== src/Reorder/Hold.antt =====
-- `PacketReorderBuffer::checkTimeoutAt` against the hold time.
use naudio.Prelude.{
  ℕ, ◌+◌, ◌≡◌, refl, sym, ap, ◌∙◌, subst, inl, inr, Bool, true, false, Option, none, some, List, [],
  ◌∷◌, arith, Bool-cases, if◌then◌else◌,
}
use naudio.Prelude.Int.{ℤ, ◌-ℤ◌, ◌≤ℤ◌, leb_ℤ, ltb_ℤ, -ℤ_parts}
use naudio.Packet.{AudioPacket}
use naudio.Assoc.{AllEntries, keys, last_key}
use naudio.Reorder.{
  Reorder, oldest_arrival, flush_loop, force_flush_from, force_flush, check_timeout_at,
}
use naudio.Reorder.Valid.{Ordered, IsOrdered}

-- A packet that came in at `t` has waited less than `hold` at the time `now`.
abbrev pub IsFresh : ℤ → ℤ → ℕ → ℤ → Type 0
IsFresh now hold k t = ltb_ℤ (now -ℤ t) hold ≡ true

abbrev NotBefore : ℤ → ℕ → ℤ → Type 0
NotBefore o k t = o ≤ℤ t

oldest_start : (o : ℤ) (m : List (ℕ × ℤ)) → oldest_arrival o m ≤ℤ o
unfolding oldest_arrival
oldest_start o [] = omega arith
oldest_start o ((k, t) ∷ m) = elim (Bool-cases (ltb_ℤ t o)) [
  | inl before ↦ rw before (below o t (oldest_arrival t m) before (oldest_start t m))
  | inr later ↦ rw later (oldest_start o m)
]
  where
    below : (o t x : ℤ) → ltb_ℤ t o ≡ true → x ≤ℤ t → x ≤ℤ o
    below o t x h l = ground arith

oldest_least : (o : ℤ) (m : List (ℕ × ℤ)) → AllEntries (NotBefore (oldest_arrival o m)) m
unfolding oldest_arrival
oldest_least o [] = tt
oldest_least o ((k, t) ∷ m) = go (ltb_ℤ t o) (λ x. oldest_least x m) refl
  where
    above : (o t x : ℤ) → ltb_ℤ t o ≡ false → x ≤ℤ o → x ≤ℤ t
    above o t x h l = ground arith

    go :
        (b : Bool)
        → ((x : ℤ) → AllEntries (NotBefore (oldest_arrival x m)) m)
        → ltb_ℤ t o ≡ b
        → AllEntries (NotBefore (oldest_arrival (if b then t else o) m)) ((k, t) ∷ m)
    go true least before = (oldest_start t m, least t)
    go false least later = (above o t (oldest_arrival o m) later (oldest_start o m), least o)

fresh_after :
    (now hold o t : ℤ) → leb_ℤ hold (now -ℤ o) ≡ false → o ≤ℤ t → ltb_ℤ (now -ℤ t) hold ≡ true
fresh_after now hold o t h l = ground (arith, -ℤ_parts now o, -ℤ_parts now t)

all-IsFresh :
    (now hold o : ℤ) (m : List (ℕ × ℤ))
    → leb_ℤ hold (now -ℤ o) ≡ false
    → AllEntries (NotBefore o) m
    → AllEntries (IsFresh now hold) m
all-IsFresh now hold o [] h v = tt
all-IsFresh now hold o ((k, t) ∷ m) h v =
    (fresh_after now hold o t h v.0, all-IsFresh now hold o m h v.1)

abbrev Emptied : Reorder → Type 0
Emptied s = s.arrival_times ≡ []

flush_empties :
    (r : Reorder)
    → IsOrdered r
    → (e : ℕ × AudioPacket) (rest : List (ℕ × AudioPacket)) → r.buffer ≡ e ∷ rest
    → (force_flush r).arrival_times ≡ []
unfolding force_flush force_flush_from
flush_empties r h e rest full = go r.next_expected refl
  where
    go :
        (n : Option ℕ)
        → r.next_expected ≡ n
        → Emptied (elim n [ none ↦ r | some start ↦ force_flush_from start r ])
    go none q = let o : Ordered r none = subst (Ordered r) q h in o.1
    go (some start) q =
        subst
          (λ b. Emptied (elim b [
            | [] ↦ r
            | e ∷ rest ↦ record (flush_loop start r.buffer start r.window_size r) {
              buffer = [];
              arrival_times = [];
              next_expected = some (last_key start r.buffer + 1);
            }
          ]))
          (sym full) refl

same_keys : (r : Reorder) (n : Option ℕ) → Ordered r n → keys r.buffer ≡ keys r.arrival_times
same_keys r none o = ap keys o.0 ∙ sym (ap keys o.1)
same_keys r (some next) w = w.timed

-- After `checkTimeoutAt` at the time `now`, on a buffer in order, every packet that still waits
-- came in less than the hold time before `now`.
pub check_timeout_at-IsFresh :
    (now : ℤ) (r : Reorder)
    → IsOrdered r
    → AllEntries (IsFresh now r.max_hold_ms) (check_timeout_at now r).arrival_times
unfolding check_timeout_at
check_timeout_at-IsFresh now r h = go r.buffer refl
  where
    Held : Reorder → Type 0
    Held s = AllEntries (IsFresh now r.max_hold_ms) s.arrival_times

    late :
        (e : ℕ × AudioPacket) (rest : List (ℕ × AudioPacket)) (k : ℕ) (t : ℤ) (later : List (ℕ × ℤ))
        → r.buffer ≡ e ∷ rest
        → r.arrival_times ≡ (k, t) ∷ later
        → (b : Bool) → leb_ℤ r.max_hold_ms (now -ℤ oldest_arrival t ((k, t) ∷ later)) ≡ b
        → Held (if b then force_flush r else r)
    late e rest k t later full times true q =
        subst (AllEntries (IsFresh now r.max_hold_ms)) (sym (flush_empties r h e rest full)) tt
    late e rest k t later full times false q =
        subst (AllEntries (IsFresh now r.max_hold_ms)) (sym times) (
          all-IsFresh now r.max_hold_ms (oldest_arrival t ((k, t) ∷ later)) ((k, t) ∷ later) q
            (oldest_least t ((k, t) ∷ later)))

    timed :
        (e : ℕ × AudioPacket) (rest : List (ℕ × AudioPacket))
        → r.buffer ≡ e ∷ rest
        → (ts : List (ℕ × ℤ)) → r.arrival_times ≡ ts
        → Held (elim ts [
          | [] ↦ r
          | (k, t) ∷ later ↦
              if leb_ℤ r.max_hold_ms (now -ℤ oldest_arrival t ((k, t) ∷ later))
              then force_flush r
              else r
        ])
    timed e rest full [] times = subst (AllEntries (IsFresh now r.max_hold_ms)) (sym times) tt
    timed e rest full ((k, t) ∷ later) times =
        late e rest k t later full times
          (leb_ℤ r.max_hold_ms (now -ℤ oldest_arrival t ((k, t) ∷ later))) refl

    no_times : (ts : List (ℕ × ℤ)) → [] ≡ keys ts → AllEntries (IsFresh now r.max_hold_ms) ts
    no_times [] q = tt
    no_times ((k, t) ∷ ts) q = absurd (cc)

    go :
        (b : List (ℕ × AudioPacket))
        → r.buffer ≡ b
        → Held (elim b [
          | [] ↦ r
          | e ∷ rest ↦ elim r.arrival_times [
            | [] ↦ r
            | (k, t) ∷ later ↦
                if leb_ℤ r.max_hold_ms (now -ℤ oldest_arrival t ((k, t) ∷ later))
                then force_flush r
                else r
          ]
        ])
    go [] full = no_times r.arrival_times (sym (ap keys full) ∙ same_keys r r.next_expected h)
    go (e ∷ rest) full = timed e rest full r.arrival_times refl
