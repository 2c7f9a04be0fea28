-- ===== src/Reorder/Calls.antt =====
-- `PacketReorderBuffer`: `insertAt`, `checkTimeoutAt` and `forceFlush` against the invariant, alone
-- and in runs from the constructor on.
use naudio.Prelude.{
  ℕ, suc, ◌+◌, ◌≤◌, ◌<◌, ◌≡◌, refl, sym, ap, ◌∙◌, subst, inl, inr, Bool, true, false, Option, none,
  some, some_inj, List, [], ◌∷◌, ◌++◌, arith, length, ltb, leb, ◌==◌, ==_iff, Bool-cases,
  if◌then◌else◌,
}
use naudio.Prelude.Int.{ℤ, pos, ◌-ℤ◌, leb_ℤ, ltb_ℤ}
use naudio.Packet.{AudioPacket}
use naudio.Assoc.{
  insert, last_key, Above, AllEntries, Above-mono, insert-Above, insert-AllEntries, keys-insert,
}
use naudio.Reorder.{
  Reorder, create, emit, flush_loop, oldest_arrival, force_flush_from, force_flush,
  insert_expecting, insert_at, check_timeout_at,
}
use naudio.Reorder.Valid.{
  Ascends, Ascends-packet, gap_count, gap_count_packet, Keyed, Waits, Ordered, IsOrdered,
  Waits-IsOrdered, drain-IsOrdered,
}
use naudio.Reorder.Flush.{
  flush_trace, flush_loop-Emits, flush_trace-Ascends, end_of, last_key-end, gap_count-append,
}

last_end :
    (start : ℕ) (e : ℕ × AudioPacket) (m : List (ℕ × AudioPacket))
    → last_key start (e ∷ m) + 1 ≡ end_of start (e ∷ m)
unfolding last_key
last_end start (k, p) m = last_key-end k m

flushed-Waits :
    (r : Reorder) (start : ℕ) (e : ℕ × AudioPacket) (m : List (ℕ × AudioPacket))
    → r.buffer ≡ e ∷ m
    → 0 < r.window_size
    → Above start r.buffer
    → AllEntries Keyed r.buffer
    → Ascends 0 r.emitted start
    → gap_count r.emitted ≡ r.gaps_emitted
    → Waits
        (force_flush_from start r)
        (last_key start r.buffer + 1)
        (suc (last_key start r.buffer + 1))
unfolding force_flush_from
flushed-Waits r start e m full roomy above keyed trace counted =
    let f = flush_loop-Emits start r.buffer start r.window_size r in
    subst
      (λ b.
        Waits
          (elim b [
            | [] ↦ r
            | e ∷ rest ↦ record (flush_loop start r.buffer start r.window_size r) {
              buffer = [];
              arrival_times = [];
              next_expected = some (last_key start r.buffer + 1);
            }
          ])
          (last_key start r.buffer + 1) (suc (last_key start r.buffer + 1)))
      (sym full)
      (record {
        expects = refl;
        waiting = tt;
        keyed = tt;
        timed = refl;
        room = omega (arith, f.window, roomy);
        trace =
            subst (λ k. Ascends 0 (flush_loop start r.buffer start r.window_size r).emitted k)
              (sym (
                ap (λ b. last_key start b + 1) full
                ∙ last_end start e m
                ∙ ap (end_of start) (sym full)))
              (subst (λ t. Ascends 0 t (end_of start r.buffer)) (sym f.trace)
                (flush_trace-Ascends r.buffer start r.window_size r.emitted above keyed trace));
        counted =
            ap gap_count f.trace
            ∙ gap_count-append r.emitted (flush_trace r.buffer start r.window_size)
            ∙ ap (λ n. n + gap_count (flush_trace r.buffer start r.window_size)) counted
            ∙ sym f.gaps_made;
      })

flush-IsOrdered :
    (r : Reorder) (start : ℕ)
    → (r.buffer ≡ [] → IsOrdered r)
    → 0 < r.window_size
    → Above start r.buffer
    → AllEntries Keyed r.buffer
    → Ascends 0 r.emitted start
    → gap_count r.emitted ≡ r.gaps_emitted
    → IsOrdered (force_flush_from start r)
unfolding force_flush_from
flush-IsOrdered r start empty roomy above keyed trace counted = go r.buffer refl
  where
    go : (b : List (ℕ × AudioPacket)) → r.buffer ≡ b → IsOrdered (force_flush_from start r)
    go [] e =
        subst
          (λ b. IsOrdered (elim b [
            | [] ↦ r
            | x ∷ rest ↦ record (flush_loop start r.buffer start r.window_size r) {
              buffer = [];
              arrival_times = [];
              next_expected = some (last_key start r.buffer + 1);
            }
          ]))
          (sym e) (empty e)
    go (x ∷ m) e =
        Waits-IsOrdered (force_flush_from start r) (last_key start r.buffer + 1)
          (flushed-Waits r start x m e roomy above keyed trace counted)

Waits-flush :
    (r : Reorder) (start : ℕ) → Waits r start (suc start) → IsOrdered (force_flush_from start r)
Waits-flush r start w =
    flush-IsOrdered r start (λ e. Waits-IsOrdered r start w) (omega (arith, w.room))
      (Above-mono start (suc start) r.buffer (omega arith) w.waiting) w.keyed w.trace w.counted

leb_lt : (a b : ℕ) → leb a b ≡ false → b < a
leb_lt a b h = ground arith

leb_le : (a b : ℕ) → leb a b ≡ true → a ≤ b
leb_le a b h = ground arith

ahead : (s n : ℕ) → ltb s n ≡ false → (s == n) ≡ false → suc n ≤ s
ahead s n timely other = ground arith

insert_expecting-IsOrdered :
    (p : AudioPacket) (now : ℤ) (next : ℕ) (r : Reorder)
    → Waits r next (suc next)
    → IsOrdered (insert_expecting p now next r)
unfolding insert_expecting emit
insert_expecting-IsOrdered p now next r w = elim (Bool-cases (ltb p.sequence next)) [
  | inl late ↦ rw late (
      Waits-IsOrdered (record r { packets_dropped_late = r.packets_dropped_late + 1 }) next
        (record {
          expects = w.expects;
          waiting = w.waiting;
          keyed = w.keyed;
          timed = w.timed;
          room = w.room;
          trace = w.trace;
          counted = w.counted;
        }))
  | inr timely ↦ rw timely (elim (Bool-cases (p.sequence == next)) [
    | inl same ↦ rw same (
        drain-IsOrdered (length r.buffer) (p.sequence + 1)
          (record r { emitted = r.emitted ++ some p ∷ []; next_expected = some (p.sequence + 1) })
          (omega arith)
          (record {
            expects = refl;
            waiting =
                Above-mono (p.sequence + 1) (suc next) r.buffer
                  (omega (arith, (==_iff p.sequence next).0 same)) w.waiting;
            keyed = w.keyed;
            timed = w.timed;
            room = w.room;
            trace =
                Ascends-packet 0 next r.emitted p w.trace
                  (omega (arith, (==_iff p.sequence next).0 same));
            counted = gap_count_packet r.emitted p ∙ w.counted;
          }))
    | inr other ↦
        let held = record r {
          buffer = insert p.sequence p r.buffer;
          arrival_times = insert p.sequence now r.arrival_times;
        } in
        let above =
          insert-Above (suc next) p.sequence p r.buffer (ahead p.sequence next timely other)
            w.waiting in
        let keyed = insert-AllEntries Keyed p.sequence p r.buffer refl w.keyed in
        rw other (elim (Bool-cases (leb r.window_size (length (insert p.sequence p r.buffer)))) [
          | inl full ↦ rw full (
              flush-IsOrdered held next
                (λ e. absurd (
                  let none_held = ap length e in
                  omega (arith, none_held, w.room, leb_le r.window_size (length held.buffer) full)))
                (omega (arith, w.room)) (Above-mono next (suc next) held.buffer (omega arith) above)
                keyed w.trace w.counted)
          | inr roomy ↦ rw roomy (
              Waits-IsOrdered held next (record {
                expects = w.expects;
                waiting = above;
                keyed = keyed;
                timed = keys-insert p.sequence p now r.buffer r.arrival_times w.timed;
                room = leb_lt r.window_size (length held.buffer) roomy;
                trace = w.trace;
                counted = w.counted;
              }))
        ])
  ])
]

unwrap : (c : Bool) {x y : Reorder} → (if c then none else some x) ≡ some y → (c ≡ false) × (x ≡ y)
unwrap true e = absurd (cc)
unwrap false e = (refl, some_inj e)

-- The fresh buffer.
pub fresh-IsOrdered :
    (window_size : ℕ) (max_hold_ms : ℤ) (r : Reorder)
    → create window_size max_hold_ms ≡ some r
    → IsOrdered r
unfolding create
fresh-IsOrdered window_size max_hold_ms r e = elim (Bool-cases (window_size == 0)) [
  | inl zero_window ↦ absurd (let clash = rw zero_window at e in cc)
  | inr roomy ↦
      let made = unwrap (ltb_ℤ max_hold_ms (pos 0)) (rw roomy at e) in
      subst IsOrdered made.1 (refl, refl, refl, refl, nonzero window_size roomy)
]
  where
    nonzero : (n : ℕ) → (n == 0) ≡ false → 0 < n
    nonzero n h = ground arith

insert_at-IsOrdered :
    (p : AudioPacket) (now : ℤ) (r : Reorder) → IsOrdered r → IsOrdered (insert_at p now r)
unfolding insert_at
insert_at-IsOrdered p now r h = go r.next_expected refl
  where
    go :
        (n : Option ℕ)
        → r.next_expected ≡ n
        → IsOrdered (elim n [
          | none ↦ insert_expecting p now p.sequence (record r { next_expected = some p.sequence })
          | some next ↦ insert_expecting p now next r
        ])
    go none e =
        let o : Ordered r none = subst (Ordered r) e h in
        insert_expecting-IsOrdered p now p.sequence (record r { next_expected = some p.sequence })
          (record {
            expects = refl;
            waiting = subst (Above (suc p.sequence)) (sym o.0) tt;
            keyed = subst (AllEntries Keyed) (sym o.0) tt;
            timed = rw o.0 (rw o.1 refl);
            room = rw o.0 o.4;
            trace = subst (λ t. Ascends 0 t p.sequence) (sym o.2) (omega arith);
            counted = ap gap_count o.2 ∙ sym o.3;
          })
    go (some next) e = insert_expecting-IsOrdered p now next r (subst (Ordered r) e h)

force_flush-IsOrdered : (r : Reorder) → IsOrdered r → IsOrdered (force_flush r)
unfolding force_flush
force_flush-IsOrdered r h = go r.next_expected refl
  where
    go :
        (n : Option ℕ)
        → r.next_expected ≡ n
        → IsOrdered (elim n [ none ↦ r | some start ↦ force_flush_from start r ])
    go none e = h
    go (some start) e = Waits-flush r start (subst (Ordered r) e h)

check_timeout_at-IsOrdered :
    (now : ℤ) (r : Reorder) → IsOrdered r → IsOrdered (check_timeout_at now r)
unfolding check_timeout_at
check_timeout_at-IsOrdered now r h = go r.buffer
  where
    late : (b : Bool) → IsOrdered (if b then force_flush r else r)
    late true = force_flush-IsOrdered r h
    late false = h

    timed :
        (ts : List (ℕ × ℤ))
        → IsOrdered (elim ts [
          | [] ↦ r
          | (k, t) ∷ later ↦
              if leb_ℤ r.max_hold_ms (now -ℤ oldest_arrival t ((k, t) ∷ later))
              then force_flush r
              else r
        ])
    timed [] = h
    timed ((k, t) ∷ later) = late (leb_ℤ r.max_hold_ms (now -ℤ oldest_arrival t ((k, t) ∷ later)))

    go :
        (b : List (ℕ × AudioPacket))
        → IsOrdered (elim b [
          | [] ↦ r
          | e ∷ rest ↦ elim r.arrival_times [
            | [] ↦ r
            | (k, t) ∷ later ↦
                if leb_ℤ r.max_hold_ms (now -ℤ oldest_arrival t ((k, t) ∷ later))
                then force_flush r
                else r
          ]
        ])
    go [] = h
    go (e ∷ rest) = timed r.arrival_times

-- The calls of a client between two resets.
pub data Call : Type 0 where
  arrive : AudioPacket → ℤ → Call
  tick : ℤ → Call
  flush : Call

abbrev pub call : Call → Reorder → Reorder
call (arrive p now) r = insert_at p now r
call (tick now) r = check_timeout_at now r
call flush r = force_flush r

abbrev pub run : List Call → Reorder → Reorder
run [] r = r
run (c ∷ cs) r = run cs (call c r)

pub call-IsOrdered : (c : Call) (r : Reorder) → IsOrdered r → IsOrdered (call c r)
call-IsOrdered (arrive p now) r h = insert_at-IsOrdered p now r h
call-IsOrdered (tick now) r h = check_timeout_at-IsOrdered now r h
call-IsOrdered flush r h = force_flush-IsOrdered r h

run-IsOrdered : (cs : List Call) (r : Reorder) → IsOrdered r → IsOrdered (run cs r)
run-IsOrdered [] r h = h
run-IsOrdered (c ∷ cs) r h = run-IsOrdered cs (call c r) (call-IsOrdered c r h)

-- After any run of `insertAt`, `checkTimeoutAt` and `forceFlush` on what the constructor makes:
-- what waits lies ahead of the next place, each packet under its own sequence number and with an
-- arrival time, less than a window of them; what was emitted is strictly ascending in its sequence
-- numbers, below the next place, and has as many gaps as `gapsEmitted` says.
pub fresh-run-IsOrdered :
    (window_size : ℕ) (max_hold_ms : ℤ) (r : Reorder) (cs : List Call)
    → create window_size max_hold_ms ≡ some r
    → IsOrdered (run cs r)
fresh-run-IsOrdered window_size max_hold_ms r cs e =
    run-IsOrdered cs r (fresh-IsOrdered window_size max_hold_ms r e)
