-- ===== src/Reliability/Budget.antt =====
-- How often `ControlReliability` sends a packet again.
use naudio.Prelude.{
  ℕ, ◌+◌, ◌-◌, ◌≤◌, ◌≡◌, ◌≢◌, inl, inr, Bool, true, false, Option, none, some, List, [], ◌∷◌, ◌++◌,
  arith, length, drop, leb, ◌==◌, Bool-cases, if◌then◌else◌,
}
use naudio.Prelude.Int.{ℤ, ◌-ℤ◌, leb_ℤ}
use naudio.Packet.{AudioPacket}
use naudio.Assoc.{AllEntries}
use naudio.Reliability.{
  Pending, buffer_size, replace, append_new, record_pending, remove, resend, nack_scan, sweep,
}
use naudio.Reliability.Tracked.{IsEntry, OnSome}

-- The packets of the sequence in a list.
abbrev pub count : ℕ → List AudioPacket → ℕ
count seq [] = 0
count seq (p ∷ ps) = (if p.sequence == seq then 1 else 0) + count seq ps

-- The attempts that the entries of the sequence have left.
abbrev pub left_for : ℕ → ℕ → List (ℕ × Pending) → ℕ
left_for most seq [] = 0
left_for most seq ((k, pc) ∷ m) = (if k == seq then most - pc.attempts else 0) + left_for most seq m

pub count-append :
    (seq : ℕ) (ps qs : List AudioPacket) → count seq (ps ++ qs) ≡ count seq ps + count seq qs
count-append seq [] qs = omega arith
count-append seq (p ∷ ps) qs = omega (arith, count-append seq ps qs)

-- One more attempt costs one.
one_more :
    (most seq k : ℕ) (now : ℤ) (pc : Pending)
    → leb most pc.attempts ≡ false
    → pc.packet.sequence ≡ k
    → (if pc.packet.sequence == seq then 1 else 0)
        + (if k == seq then most - (resend now pc).attempts else 0)
      ≤ (if k == seq then most - pc.attempts else 0)
unfolding resend
one_more most seq k now pc h e = spend most seq k pc.attempts pc.packet.sequence h e
  where
    spend :
        (most seq k n s : ℕ)
        → leb most n ≡ false
        → s ≡ k
        → (if s == seq then 1 else 0) + (if k == seq then most - (n + 1) else 0)
          ≤ (if k == seq then most - n else 0)
    spend most seq k n s h e = ground arith

pub nack_scan-left :
    (most seq wanted : ℕ) (now : ℤ) (m : List (ℕ × Pending))
    → AllEntries (IsEntry most) m
    → count seq (nack_scan most wanted now m).0 + left_for most seq (nack_scan most wanted now m).1
      ≤ left_for most seq m
unfolding nack_scan
nack_scan-left most seq wanted now [] v = omega arith
nack_scan-left most seq wanted now ((k, pc) ∷ m) v = elim (Bool-cases (k == wanted)) [
  | inl same ↦ elim (Bool-cases (leb most pc.attempts)) [
    | inl spent ↦ rw (same, spent) (omega arith)
    | inr more ↦ rw (same, more) (omega (arith, one_more most seq k now pc more v.0.keyed))
  ]
  | inr other ↦ rw other (omega (arith, nack_scan-left most seq wanted now m v.1))
]

pub sweep-left :
    (most seq : ℕ) (timeout_ms now : ℤ) (m : List (ℕ × Pending))
    → AllEntries (IsEntry most) m
    → count seq (sweep most timeout_ms now m).0 + left_for most seq (sweep most timeout_ms now m).1
      ≤ left_for most seq m
unfolding sweep
sweep-left most seq timeout_ms now [] v = omega arith
sweep-left most seq timeout_ms now ((k, pc) ∷ m) v =
    let h = sweep-left most seq timeout_ms now m v.1 in
    elim (Bool-cases (leb_ℤ timeout_ms (now -ℤ pc.last_send_time))) [
      | inl due ↦ elim (Bool-cases (leb most pc.attempts)) [
        | inl spent ↦ rw (due, spent) (omega (arith, h))
        | inr more ↦ rw (due, more) (omega (arith, h, one_more most seq k now pc more v.0.keyed))
      ]
      | inr early ↦ rw early (omega (arith, h))
    ]

abbrev pub Within : ℕ → ℕ → ℕ → List (ℕ × Pending) → Type 0
Within most seq n m = left_for most seq m ≤ n

consed :
    (most seq k n : ℕ) (pc : Pending) (o : Option (List (ℕ × Pending)))
    → OnSome (Within most seq n) o
    → OnSome
        (Within most seq ((if k == seq then most - pc.attempts else 0) + n))
        (elim o [ none ↦ none | some l ↦ some ((k, pc) ∷ l) ])
consed most seq k n pc none h = tt
consed most seq k n pc (some l) h = omega (arith, h)

pub remove-left :
    (most seq gone : ℕ) (m : List (ℕ × Pending))
    → OnSome (Within most seq (left_for most seq m)) (remove gone m)
unfolding remove
remove-left most seq gone [] = tt
remove-left most seq gone ((k, pc) ∷ m) = elim (Bool-cases (k == gone)) [
  | inl same ↦ rw same (omega arith)
  | inr other ↦
      rw other
        (consed most seq k (left_for most seq m) pc (remove gone m) (remove-left most seq gone m))
]

unequal : (k new seq : ℕ) → (k == new) ≡ true → new ≢ seq → (k == seq) ≡ false
unequal k new seq h d = ground arith

replace-left :
    (most seq put : ℕ) (new : Pending) (m : List (ℕ × Pending))
    → put ≢ seq
    → OnSome (Within most seq (left_for most seq m)) (replace put new m)
unfolding replace
replace-left most seq put new [] d = tt
replace-left most seq put new ((k, pc) ∷ m) d = elim (Bool-cases (k == put)) [
  | inl same ↦ rw (same, unequal k put seq same d) (omega arith)
  | inr other ↦ rw other (
      consed most seq k (left_for most seq m) pc (replace put new m)
        (replace-left most seq put new m d))
]

append-left :
    (most seq put : ℕ) (new : Pending) (m : List (ℕ × Pending))
    → put ≢ seq
    → left_for most seq (m ++ (put, new) ∷ []) ≡ left_for most seq m
append-left most seq put new [] d = none_left put seq (most - new.attempts) d
  where
    none_left : (p s n : ℕ) → p ≢ s → (if p == s then n else 0) + 0 ≡ 0
    none_left p s n d = ground arith
append-left most seq put new (x ∷ m) d = omega (arith, append-left most seq put new m d)

drop-left :
    (most seq : ℕ) (full : Bool) (m : List (ℕ × Pending))
    → left_for most seq (if full then drop 1 m else m) ≤ left_for most seq m
drop-left most seq true [] = omega arith
drop-left most seq true (x ∷ m) = omega arith
drop-left most seq false m = omega arith

pub record_pending-left :
    (most seq put : ℕ) (new : Pending) (m : List (ℕ × Pending))
    → put ≢ seq
    → left_for most seq (record_pending put new m) ≤ left_for most seq m
unfolding record_pending append_new
record_pending-left most seq put new m d =
    go (replace put new m) (replace-left most seq put new m d)
  where
    go :
        (o : Option (List (ℕ × Pending)))
        → OnSome (Within most seq (left_for most seq m)) o
        → left_for most seq (elim o [ none ↦ append_new put new m | some n ↦ n ])
          ≤ left_for most seq m
    go (some n) h = h
    go none h = omega (
      arith,
      append-left most seq put new (if leb buffer_size (length m) then drop 1 m else m) d,
      drop-left most seq (leb buffer_size (length m)) m,
    )
