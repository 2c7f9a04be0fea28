-- ===== src/Reliability/Acks.antt =====
-- Bounds on what `ControlReliability` sends again, and acknowledgements.
use naudio.Prelude.{
  ℕ, ◌+◌, ◌-◌, ◌≤◌, ◌≡◌, ◌≢◌, refl, subst, inl, inr, Bool, true, false, Option, none, some, List,
  [], ◌∷◌, arith, ◌==◌, ==_iff, Bool-cases, if◌then◌else◌,
}
use naudio.Prelude.Int.{ℤ}
use naudio.Packet.{AudioPacket}
use naudio.Assoc.{AllEntries, keys}
use naudio.Reliability.{
  Pending, Reliability, carries_critical, first_sent, record_pending, record_sent_at, remove,
  on_ack_received, on_nack_received_at, check_retransmits_at, reset, Call, sent, acked, nacked,
  swept, forget, call, run,
}
use naudio.Reliability.Tracked.{IsEntry, NotIn, AllDistinct, IsTracked, OnSome}
use naudio.Reliability.Calls.{call-IsTracked}
use naudio.Reliability.Budget.{
  count, left_for, count-append, nack_scan-left, sweep-left, Within, remove-left,
  record_pending-left,
}

-- The call records no packet of the sequence.
abbrev pub IsOther : ℕ → Call → Type 0
IsOther seq (sent p now) = p.sequence ≢ seq
IsOther seq _ = Unit {0}

abbrev pub AllOther : ℕ → List Call → Type 0
AllOther seq [] = Unit {0}
AllOther seq (c ∷ cs) = IsOther seq c × AllOther seq cs

record_sent_at-left :
    (p : AudioPacket) (now : ℤ) (seq : ℕ) (r : Reliability)
    → p.sequence ≢ seq
    → left_for (record_sent_at p now r).max_attempts seq (record_sent_at p now r).pending
      ≤ left_for r.max_attempts seq r.pending
unfolding record_sent_at
record_sent_at-left p now seq r d = go (carries_critical p.packet_type p.payload)
  where
    after : Bool → Reliability
    after b =
        if b
        then record r { pending = record_pending p.sequence (first_sent p now) r.pending }
        else r

    go :
        (b : Bool)
        → left_for (after b).max_attempts seq (after b).pending
          ≤ left_for r.max_attempts seq r.pending
    go true = record_pending-left r.max_attempts seq p.sequence (first_sent p now) r.pending d
    go false = omega arith

on_ack_received-left :
    (gone seq : ℕ) (r : Reliability)
    → left_for (on_ack_received gone r).1.max_attempts seq (on_ack_received gone r).1.pending
      ≤ left_for r.max_attempts seq r.pending
unfolding on_ack_received
on_ack_received-left gone seq r =
    go (remove gone r.pending) (remove-left r.max_attempts seq gone r.pending)
  where
    after : Option (List (ℕ × Pending)) → Bool × Reliability
    after o = elim o [ none ↦ (false, r) | some m ↦ (true, record r { pending = m }) ]

    go :
        (o : Option (List (ℕ × Pending)))
        → OnSome (Within r.max_attempts seq (left_for r.max_attempts seq r.pending)) o
        → left_for (after o).1.max_attempts seq (after o).1.pending
          ≤ left_for r.max_attempts seq r.pending
    go none h = omega arith
    go (some m) h = h

call-left :
    (seq : ℕ) (c : Call) (r : Reliability)
    → IsOther seq c
    → IsTracked r
    → count seq (call c r).0 + left_for (call c r).1.max_attempts seq (call c r).1.pending
      ≤ left_for r.max_attempts seq r.pending
unfolding call on_nack_received_at check_retransmits_at reset
call-left seq (sent p now) r d t = omega (arith, record_sent_at-left p now seq r d)
call-left seq (acked gone) r d t = omega (arith, on_ack_received-left gone seq r)
call-left seq (nacked wanted now) r d t =
    nack_scan-left r.max_attempts seq wanted now r.pending t.entries
call-left seq (swept now) r d t = sweep-left r.max_attempts seq r.timeout_ms now r.pending t.entries
call-left seq forget r d t = omega arith

run-left :
    (seq : ℕ) (cs : List Call) (r : Reliability)
    → AllOther seq cs
    → IsTracked r
    → count seq (run cs r).0 ≤ left_for r.max_attempts seq r.pending
unfolding run
run-left seq [] r d t = omega arith
run-left seq (c ∷ cs) r d t = omega (
  arith,
  count-append seq (call c r).0 (run cs (call c r).1).0,
  call-left seq c r d.0 t,
  run-left seq cs (call c r).1 d.1 (call-IsTracked c r t),
)

NotIn-left : (most seq : ℕ) (m : List (ℕ × Pending)) → NotIn seq (keys m) → left_for most seq m ≡ 0
NotIn-left most seq [] h = refl
NotIn-left most seq ((k, pc) ∷ m) h =
    omega (arith, NotIn-left most seq m h.1, other k seq (most - pc.attempts) h.0)
  where
    other : (k s n : ℕ) → s ≢ k → (if k == s then n else 0) ≡ 0
    other k s n d = ground arith

one_entry :
    (most seq : ℕ) (m : List (ℕ × Pending))
    → AllEntries (IsEntry most) m
    → AllDistinct (keys m)
    → left_for most seq m ≤ most - 1
one_entry most seq [] v d = omega arith
one_entry most seq ((k, pc) ∷ m) v d = elim (Bool-cases (k == seq)) [
  | inl same ↦
      let gone : left_for most seq m ≡ 0 =
        NotIn-left most seq m (subst (λ j. NotIn j (keys m)) ((==_iff k seq).0 same) d.0) in
      rw same (omega (arith, gone, v.0.tried))
  | inr other ↦ rw other (omega (arith, one_entry most seq m v.1 d.1))
]

-- Whatever calls follow, with acknowledgements, NACKs and sweeps at any time, as long as they do not
-- record a packet of the sequence `seq` anew, the packets of that sequence that are handed back to
-- be sent again are at most `maxAttempts - 1`: with the first, `maxAttempts` sends.
pub resends-bounded :
    (seq : ℕ) (cs : List Call) (r : Reliability)
    → AllOther seq cs
    → IsTracked r
    → count seq (run cs r).0 ≤ r.max_attempts - 1
resends-bounded seq cs r d t =
    omega
      (arith, run-left seq cs r d t, one_entry r.max_attempts seq r.pending t.entries t.distinct)

removed_head : (k seq : ℕ) → (k == seq) ≡ false → seq ≢ k
removed_head k seq h = ground arith

-- What is left once the sequence is acknowledged.
abbrev Cleared : ℕ → List (ℕ × Pending) → Option (List (ℕ × Pending)) → Type 0
Cleared seq m none = NotIn seq (keys m)
Cleared seq m (some n) = NotIn seq (keys n)

remove-Cleared :
    (seq : ℕ) (m : List (ℕ × Pending)) → AllDistinct (keys m) → Cleared seq m (remove seq m)
unfolding remove
remove-Cleared seq [] d = tt
remove-Cleared seq ((k, pc) ∷ m) d = elim (Bool-cases (k == seq)) [
  | inl same ↦ rw same (subst (λ j. NotIn j (keys m)) ((==_iff k seq).0 same) d.0)
  | inr other ↦
      rw other (carry (removed_head k seq other) (remove seq m) (remove-Cleared seq m d.1))
]
  where
    carry :
        seq ≢ k
        → (o : Option (List (ℕ × Pending))) → Cleared seq m o
        → Cleared seq ((k, pc) ∷ m) (elim o [ none ↦ none | some n ↦ some ((k, pc) ∷ n) ])
    carry d none h = (d, h)
    carry d (some n) h = (d, h)

pub on_ack_received-NotIn :
    (seq : ℕ) (r : Reliability) → IsTracked r → NotIn seq (keys (on_ack_received seq r).1.pending)
unfolding on_ack_received
on_ack_received-NotIn seq r t = go (remove seq r.pending) (remove-Cleared seq r.pending t.distinct)
  where
    go :
        (o : Option (List (ℕ × Pending)))
        → Cleared seq r.pending o
        → NotIn seq (
            keys
              (elim o as (λ x. Bool × Reliability) [
                | none ↦ (false, r)
                | some m ↦ (true, record r { pending = m })
              ]).1.pending)
    go none h = h
    go (some m) h = h

-- Once a sequence is acknowledged, no packet of it is sent again, whatever calls follow, until one
-- is recorded anew.
pub acked-silent :
    (seq : ℕ) (cs : List Call) (r : Reliability)
    → AllOther seq cs
    → IsTracked r
    → count seq (run (acked seq ∷ cs) r).0 ≡ 0
unfolding run call
acked-silent seq cs r d t = omega (
  arith,
  run-left seq cs (on_ack_received seq r).1 d (call-IsTracked (acked seq) r t),
  NotIn-left (on_ack_received seq r).1.max_attempts seq (on_ack_received seq r).1.pending
      (on_ack_received-NotIn seq r t),
)
