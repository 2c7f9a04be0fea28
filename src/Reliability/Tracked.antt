-- ===== src/Reliability/Tracked.antt =====
-- The invariant of `ControlReliability`.
use naudio.Prelude.{
  ℕ, ◌+◌, ◌≤◌, ◌≡◌, ◌≢◌, sym, subst, inl, inr, true, false, Option, none, some, List, [], ◌∷◌,
  arith, length, leb, ◌==◌, ==_iff, Bool-cases,
}
use naudio.Prelude.Int.{ℤ, ◌-ℤ◌, leb_ℤ}
use naudio.Assoc.{AllEntries, keys}
use naudio.Reliability.{
  Pending, Reliability, buffer_size, carries_critical, replace, remove, resend, nack_scan, sweep,
}

-- An entry under its packet's sequence, a critical one, sent at least once and at most `most` times.
pub record IsEntry (most k : ℕ) (pc : Pending) : Type 0 where
  pub keyed : pc.packet.sequence ≡ k
  pub critical : carries_critical pc.packet.packet_type pc.packet.payload ≡ true
  pub tried : 1 ≤ pc.attempts
  pub budget : pc.attempts ≤ most

abbrev pub NotIn : ℕ → List ℕ → Type 0
NotIn k [] = Unit {0}
NotIn k (j ∷ l) = (k ≢ j) × NotIn k l

abbrev pub AllDistinct : List ℕ → Type 0
AllDistinct [] = Unit {0}
AllDistinct (k ∷ l) = NotIn k l × AllDistinct l

pub record IsTracked (r : Reliability) : Type 0 where
  pub some_try : 1 ≤ r.max_attempts
  pub entries : AllEntries (IsEntry r.max_attempts) r.pending
  pub distinct : AllDistinct (keys r.pending)
  pub room : length r.pending ≤ buffer_size

-- `n` has some of the keys of `m`, in the same order.
pub record Shrinks (m n : List (ℕ × Pending)) : Type 0 where
  pub absent : (j : ℕ) → NotIn j (keys m) → NotIn j (keys n)
  pub apart : AllDistinct (keys m) → AllDistinct (keys n)
  pub shorter : length n ≤ length m

pub same-Shrinks : (m : List (ℕ × Pending)) → Shrinks m m
same-Shrinks m = record { absent = λ j h. h; apart = λ h. h; shorter = omega arith }

pub keep-Shrinks :
    (k : ℕ) (a b : Pending) (m n : List (ℕ × Pending))
    → Shrinks m n
    → Shrinks ((k, a) ∷ m) ((k, b) ∷ n)
keep-Shrinks k a b m n s = record {
  absent = λ j h. (h.0, s.absent j h.1);
  apart = λ h. (s.absent k h.0, s.apart h.1);
  shorter = omega (arith, s.shorter);
}

pub skip-Shrinks :
    (k : ℕ) (a : Pending) (m n : List (ℕ × Pending)) → Shrinks m n → Shrinks ((k, a) ∷ m) n
skip-Shrinks k a m n s = record {
  absent = λ j h. s.absent j h.1;
  apart = λ h. s.apart h.1;
  shorter = omega (arith, s.shorter);
}

-- What an entry list keeps: its keys or fewer, and the entries' invariant.
abbrev pub Kept : ℕ → List (ℕ × Pending) → List (ℕ × Pending) → Type 0
Kept most m n = Shrinks m n × AllEntries (IsEntry most) n

abbrev pub OnSome : (List (ℕ × Pending) → Type 0) → Option (List (ℕ × Pending)) → Type 0
OnSome P none = Unit {0}
OnSome P (some n) = P n

consed :
    (most k : ℕ) (pc : Pending) (m : List (ℕ × Pending)) (o : Option (List (ℕ × Pending)))
    → IsEntry most k pc
    → OnSome (Kept most m) o
    → OnSome (Kept most ((k, pc) ∷ m)) (elim o [ none ↦ none | some n ↦ some ((k, pc) ∷ n) ])
consed most k pc m none e h = tt
consed most k pc m (some n) e h = (keep-Shrinks k pc pc m n h.0, (e, h.1))

pub replace-Kept :
    (most seq : ℕ) (new : Pending) (m : List (ℕ × Pending))
    → IsEntry most seq new
    → AllEntries (IsEntry most) m
    → OnSome (Kept most m) (replace seq new m)
unfolding replace
replace-Kept most seq new [] e v = tt
replace-Kept most seq new ((k, pc) ∷ m) e v = elim (Bool-cases (k == seq)) [
  | inl same ↦ rw same (
    keep-Shrinks k pc new m m (same-Shrinks m),
    (subst (λ j. IsEntry most j new) (sym ((==_iff k seq).0 same)) e, v.1),
  )
  | inr other ↦
      rw other (consed most k pc m (replace seq new m) v.0 (replace-Kept most seq new m e v.1))
]

pub remove-Kept :
    (most seq : ℕ) (m : List (ℕ × Pending))
    → AllEntries (IsEntry most) m
    → OnSome (Kept most m) (remove seq m)
unfolding remove
remove-Kept most seq [] v = tt
remove-Kept most seq ((k, pc) ∷ m) v = elim (Bool-cases (k == seq)) [
  | inl same ↦ rw same (skip-Shrinks k pc m m (same-Shrinks m), v.1)
  | inr other ↦ rw other (consed most k pc m (remove seq m) v.0 (remove-Kept most seq m v.1))
]

-- Without an entry of the sequence there is nothing to replace.
abbrev pub Missing : ℕ → List (ℕ × Pending) → Option (List (ℕ × Pending)) → Type 0
Missing seq m none = NotIn seq (keys m)
Missing seq m (some n) = Unit {0}

pub replace-none :
    (seq : ℕ) (new : Pending) (m : List (ℕ × Pending)) → Missing seq m (replace seq new m)
unfolding replace
replace-none seq new [] = tt
replace-none seq new ((k, pc) ∷ m) = elim (Bool-cases (k == seq)) [
  | inl same ↦ rw same tt
  | inr other ↦ rw other (carry (differ k seq other) (replace seq new m) (replace-none seq new m))
]
  where
    differ : (k seq : ℕ) → (k == seq) ≡ false → seq ≢ k
    differ k seq h = ground arith

    carry :
        seq ≢ k
        → (o : Option (List (ℕ × Pending))) → Missing seq m o
        → Missing seq ((k, pc) ∷ m) (elim o [ none ↦ none | some n ↦ some ((k, pc) ∷ n) ])
    carry d none h = (d, h)
    carry d (some n) h = tt

pub resend-IsEntry :
    (most k : ℕ) (now : ℤ) (pc : Pending)
    → leb most pc.attempts ≡ false
    → IsEntry most k pc
    → IsEntry most k (resend now pc)
unfolding resend
resend-IsEntry most k now pc h e = record {
  keyed = e.keyed;
  critical = e.critical;
  tried = omega (arith, e.tried);
  budget = below most pc.attempts h;
}
  where
    below : (a b : ℕ) → leb a b ≡ false → b + 1 ≤ a
    below a b h = ground arith

pub nack_scan-Kept :
    (most seq : ℕ) (now : ℤ) (m : List (ℕ × Pending))
    → AllEntries (IsEntry most) m
    → Kept most m (nack_scan most seq now m).1
unfolding nack_scan
nack_scan-Kept most seq now [] v = (same-Shrinks [], tt)
nack_scan-Kept most seq now ((k, pc) ∷ m) v = elim (Bool-cases (k == seq)) [
  | inl same ↦ elim (Bool-cases (leb most pc.attempts)) [
    | inl spent ↦ rw (same, spent) (skip-Shrinks k pc m m (same-Shrinks m), v.1)
    | inr left ↦
        rw (same, left)
          (
            keep-Shrinks k pc (resend now pc) m m (same-Shrinks m),
            (resend-IsEntry most k now pc left v.0, v.1),
          )
  ]
  | inr other ↦
      let h = nack_scan-Kept most seq now m v.1 in
      rw other (keep-Shrinks k pc pc m (nack_scan most seq now m).1 h.0, (v.0, h.1))
]

pub sweep-Kept :
    (most : ℕ) (timeout_ms now : ℤ) (m : List (ℕ × Pending))
    → AllEntries (IsEntry most) m
    → Kept most m (sweep most timeout_ms now m).1
unfolding sweep
sweep-Kept most timeout_ms now [] v = (same-Shrinks [], tt)
sweep-Kept most timeout_ms now ((k, pc) ∷ m) v =
    let h = sweep-Kept most timeout_ms now m v.1 in
    elim (Bool-cases (leb_ℤ timeout_ms (now -ℤ pc.last_send_time))) [
      | inl due ↦ elim (Bool-cases (leb most pc.attempts)) [
        | inl spent ↦ rw (due, spent) (skip-Shrinks k pc m (sweep most timeout_ms now m).1 h.0, h.1)
        | inr left ↦
            rw (due, left)
              (
                keep-Shrinks k pc (resend now pc) m (sweep most timeout_ms now m).1 h.0,
                (resend-IsEntry most k now pc left v.0, h.1),
              )
      ]
      | inr early ↦
          rw early (keep-Shrinks k pc pc m (sweep most timeout_ms now m).1 h.0, (v.0, h.1))
    ]
