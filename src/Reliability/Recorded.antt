-- ===== src/Reliability/Recorded.antt =====
-- `ControlReliability::recordSentAt`: a critical packet is pending afterwards.
use naudio.Prelude.{
  ℕ, ◌≡◌, refl, ◌⊎◌, inl, inr, true, Option, none, some, List, [], ◌∷◌, ◌++◌, length, drop, leb,
  ◌==◌, ==_iff, Bool-cases, if◌then◌else◌,
}
use naudio.Prelude.Int.{ℤ}
use naudio.Packet.{AudioPacket}
use naudio.Reliability.{
  Pending, Reliability, buffer_size, carries_critical, first_sent, replace, append_new,
  record_pending, record_sent_at,
}
use naudio.Reliability.Tracked.{OnSome}

abbrev pub Has : ℕ → List (ℕ × Pending) → Type 0
Has k [] = ⊥
Has k ((j, pc) ∷ m) = (j ≡ k) ⊎ Has k m

replace-Has :
    (seq : ℕ) (new : Pending) (m : List (ℕ × Pending)) → OnSome (Has seq) (replace seq new m)
unfolding replace
replace-Has seq new [] = tt
replace-Has seq new ((k, pc) ∷ m) = elim (Bool-cases (k == seq)) [
  | inl same ↦ rw same (inl ((==_iff k seq).0 same))
  | inr other ↦ rw other (carry (replace seq new m) (replace-Has seq new m))
]
  where
    carry :
        (o : Option (List (ℕ × Pending)))
        → OnSome (Has seq) o
        → OnSome (Has seq) (elim o [ none ↦ none | some n ↦ some ((k, pc) ∷ n) ])
    carry none h = tt
    carry (some n) h = inr h

append-Has : (seq : ℕ) (new : Pending) (m : List (ℕ × Pending)) → Has seq (m ++ (seq, new) ∷ [])
append-Has seq new [] = inl refl
append-Has seq new (x ∷ m) = inr (append-Has seq new m)

record_pending-Has :
    (seq : ℕ) (new : Pending) (m : List (ℕ × Pending)) → Has seq (record_pending seq new m)
unfolding record_pending append_new
record_pending-Has seq new m = go (replace seq new m) (replace-Has seq new m)
  where
    go :
        (o : Option (List (ℕ × Pending)))
        → OnSome (Has seq) o
        → Has seq (elim o [ none ↦ append_new seq new m | some n ↦ n ])
    go none h = append-Has seq new (if leb buffer_size (length m) then drop 1 m else m)
    go (some n) h = h

pub recorded-Has :
    (p : AudioPacket) (now : ℤ) (r : Reliability)
    → carries_critical p.packet_type p.payload ≡ true
    → Has p.sequence (record_sent_at p now r).pending
unfolding record_sent_at
recorded-Has p now r e = rw e (record_pending-Has p.sequence (first_sent p now) r.pending)
