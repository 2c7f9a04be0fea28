-- ===== src/Reliability/Calls.antt =====
-- The calls of `ControlReliability` against its invariant.
use naudio.Prelude.{
  ℕ, ◌+◌, ◌≤◌, ◌≡◌, ◌≢◌, refl, sym, subst, Bool, true, false, Option, none, some, some_inj, List,
  [], ◌∷◌, ◌++◌, arith, length, drop, leb, if◌then◌else◌,
}
use naudio.Prelude.Int.{ℤ, pos, pos_part, ltb_ℤ}
use naudio.Packet.{AudioPacket}
use naudio.Assoc.{AllEntries, keys}
use naudio.Reliability.{
  Pending, Reliability, create, buffer_size, carries_critical, first_sent, replace, append_new,
  record_pending, record_sent_at, remove, on_ack_received, nack_scan, on_nack_received_at, sweep,
  check_retransmits_at, reset, Call, sent, acked, nacked, swept, forget, call, run,
}
use naudio.Reliability.Tracked.{
  IsEntry, NotIn, AllDistinct, IsTracked, same-Shrinks, skip-Shrinks, Kept, OnSome, replace-Kept,
  remove-Kept, Missing, replace-none, nack_scan-Kept, sweep-Kept,
}

Kept-IsTracked :
    (r : Reliability) (n : List (ℕ × Pending)) (count : ℕ)
    → IsTracked r
    → Kept r.max_attempts r.pending n
    → IsTracked (record r { pending = n; control_retransmits = count })
Kept-IsTracked r n count t h = record {
  some_try = t.some_try;
  entries = h.1;
  distinct = h.0.apart t.distinct;
  room = omega (arith, h.0.shorter, t.room);
}

drop-Kept :
    (most : ℕ) (m : List (ℕ × Pending)) → AllEntries (IsEntry most) m → Kept most m (drop 1 m)
drop-Kept most [] v = (same-Shrinks [], tt)
drop-Kept most ((k, pc) ∷ m) v = (skip-Shrinks k pc m m (same-Shrinks m), v.1)

length-append_one : (m : List (ℕ × Pending)) (e : ℕ × Pending) → length (m ++ e ∷ []) ≡ length m + 1
length-append_one [] e = omega arith
length-append_one (x ∷ m) e = omega (arith, length-append_one m e)

append-AllEntries :
    (most seq : ℕ) (new : Pending) (m : List (ℕ × Pending))
    → IsEntry most seq new
    → AllEntries (IsEntry most) m
    → AllEntries (IsEntry most) (m ++ (seq, new) ∷ [])
append-AllEntries most seq new [] e v = (e, tt)
append-AllEntries most seq new (x ∷ m) e v = (v.0, append-AllEntries most seq new m e v.1)

append-NotIn :
    (j seq : ℕ) (new : Pending) (m : List (ℕ × Pending))
    → j ≢ seq
    → NotIn j (keys m)
    → NotIn j (keys (m ++ (seq, new) ∷ []))
append-NotIn j seq new [] d h = (d, tt)
append-NotIn j seq new (x ∷ m) d h = (h.0, append-NotIn j seq new m d h.1)

append-AllDistinct :
    (seq : ℕ) (new : Pending) (m : List (ℕ × Pending))
    → NotIn seq (keys m)
    → AllDistinct (keys m)
    → AllDistinct (keys (m ++ (seq, new) ∷ []))
append-AllDistinct seq new [] h d = (tt, tt)
append-AllDistinct seq new (x ∷ m) h d =
    (append-NotIn x.0 seq new m (λ e. h.0 (sym e)) d.0, append-AllDistinct seq new m h.1 d.1)

-- The room that `append_new` makes.
made_room :
    (most seq : ℕ) (m : List (ℕ × Pending)) (full : Bool)
    → leb buffer_size (length m) ≡ full
    → length m ≤ buffer_size
    → AllEntries (IsEntry most) m
    → Kept most m (if full then drop 1 m else m)
      × (length (if full then drop 1 m else m) + 1 ≤ buffer_size)
made_room most seq m true h short v = (drop-Kept most m v, shrunk m h short)
  where
    shrunk :
        (m : List (ℕ × Pending))
        → leb buffer_size (length m) ≡ true
        → length m ≤ buffer_size
        → length (drop 1 m) + 1 ≤ buffer_size
    shrunk [] h short = ground arith
    shrunk (x ∷ m) h short = omega arith
made_room most seq m false h short v = ((same-Shrinks m, v), spare (length m) h)
  where
    spare : (n : ℕ) → leb buffer_size n ≡ false → n + 1 ≤ buffer_size
    spare n h = ground arith

record_pending-IsTracked :
    (r : Reliability) (seq : ℕ) (new : Pending)
    → IsEntry r.max_attempts seq new
    → IsTracked r
    → IsTracked (record r { pending = record_pending seq new r.pending })
unfolding record_pending append_new
record_pending-IsTracked r seq new e t =
    go (replace seq new r.pending) (replace-Kept r.max_attempts seq new r.pending e t.entries)
      (replace-none seq new r.pending)
  where
    go :
        (o : Option (List (ℕ × Pending)))
        → OnSome (Kept r.max_attempts r.pending) o
        → Missing seq r.pending o
        → IsTracked
            (record r { pending = elim o [ none ↦ append_new seq new r.pending | some n ↦ n ] })
    go (some n) h gone = Kept-IsTracked r n r.control_retransmits t h
    go none h gone =
        let (k, fits) =
          made_room r.max_attempts seq r.pending (leb buffer_size (length r.pending)) refl t.room
            t.entries in
        record {
          some_try = t.some_try;
          entries = append-AllEntries r.max_attempts seq new _ e k.1;
          distinct = append-AllDistinct seq new _ (k.0.absent seq gone) (k.0.apart t.distinct);
          room =
              rw
                (length-append_one
                  (if leb buffer_size (length r.pending) then drop 1 r.pending else r.pending)
                  (seq, new))
                fits;
        }

pub record_sent_at-IsTracked :
    (p : AudioPacket) (now : ℤ) (r : Reliability) → IsTracked r → IsTracked (record_sent_at p now r)
unfolding record_sent_at first_sent
record_sent_at-IsTracked p now r t = go (carries_critical p.packet_type p.payload) refl
  where
    go :
        (b : Bool)
        → carries_critical p.packet_type p.payload ≡ b
        → IsTracked (
            if b
            then record r { pending = record_pending p.sequence (first_sent p now) r.pending }
            else r)
    go false e = t
    go true e =
        record_pending-IsTracked r p.sequence (first_sent p now)
          (record { keyed = refl; critical = e; tried = omega arith; budget = t.some_try }) t

pub on_ack_received-IsTracked :
    (seq : ℕ) (r : Reliability) → IsTracked r → IsTracked (on_ack_received seq r).1
unfolding on_ack_received
on_ack_received-IsTracked seq r t =
    go (remove seq r.pending) (remove-Kept r.max_attempts seq r.pending t.entries)
  where
    go :
        (o : Option (List (ℕ × Pending)))
        → OnSome (Kept r.max_attempts r.pending) o
        → IsTracked
            (elim o as (λ x. Bool × Reliability) [
              | none ↦ (false, r)
              | some m ↦ (true, record r { pending = m })
            ]).1
    go none h = t
    go (some m) h = Kept-IsTracked r m r.control_retransmits t h

pub call-IsTracked : (c : Call) (r : Reliability) → IsTracked r → IsTracked (call c r).1
unfolding call on_nack_received_at check_retransmits_at reset
call-IsTracked (sent p now) r t = record_sent_at-IsTracked p now r t
call-IsTracked (acked seq) r t = on_ack_received-IsTracked seq r t
call-IsTracked (nacked seq now) r t =
    Kept-IsTracked r (nack_scan r.max_attempts seq now r.pending).1 _ t
      (nack_scan-Kept r.max_attempts seq now r.pending t.entries)
call-IsTracked (swept now) r t =
    Kept-IsTracked r (sweep r.max_attempts r.timeout_ms now r.pending).1 _ t
      (sweep-Kept r.max_attempts r.timeout_ms now r.pending t.entries)
call-IsTracked forget r t = record {
  some_try = t.some_try;
  entries = tt;
  distinct = tt;
  room = omega arith;
}

run-IsTracked : (cs : List Call) (r : Reliability) → IsTracked r → IsTracked (run cs r).1
unfolding run
run-IsTracked [] r t = t
run-IsTracked (c ∷ cs) r t = run-IsTracked cs (call c r).1 (call-IsTracked c r t)

unwrap :
    (c : Bool) {x : Option Reliability} {y : Reliability}
    → (if c then none else x) ≡ some y
    → (c ≡ false) × (x ≡ some y)
unwrap true e = absurd (cc)
unwrap false e = (refl, e)

pub fresh-IsTracked :
    (max_attempts timeout_ms : ℤ) (r : Reliability)
    → create max_attempts timeout_ms ≡ some r
    → IsTracked r
unfolding create
fresh-IsTracked max_attempts timeout_ms r e =
    let (enough, f) = unwrap (ltb_ℤ max_attempts (pos 1)) e in
    let (later, g) = unwrap (ltb_ℤ timeout_ms (pos 1)) f in
    subst IsTracked (some_inj g) (record {
      some_try = one max_attempts enough;
      entries = tt;
      distinct = tt;
      room = omega arith;
    })
  where
    one : (z : ℤ) → ltb_ℤ z (pos 1) ≡ false → 1 ≤ pos_part z
    one z h = ground arith

-- After any run of calls on what the constructor makes, at most 16 packets are pending, each a
-- critical control packet under its own sequence number, no two under the same, and each has been
-- sent at least once and at most `maxAttempts` times.
pub fresh-run-IsTracked :
    (max_attempts timeout_ms : ℤ) (r : Reliability) (cs : List Call)
    → create max_attempts timeout_ms ≡ some r
    → IsTracked (run cs r).1
fresh-run-IsTracked max_attempts timeout_ms r cs e =
    run-IsTracked cs r (fresh-IsTracked max_attempts timeout_ms r e)
