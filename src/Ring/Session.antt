-- ===== src/Ring/Session.antt =====
-- `AudioRingBuffer` against the bounded queue, over any sequence of calls, and the wait in `read`.
use naudio.Prelude.{
  ℕ, zero, suc, ◌+◌, ◌^◌, ◌<◌, ◌≡◌, refl, ap, ap₂, ◌∙◌, subst, some_inj, ◌⊎◌, inl, inr, true, false,
  some, List, [], ◌∷◌, arith, length, length-replicate, ◌==◌, ==_iff, Bool-cases,
}
use naudio.Prelude.Int.{ℤ, pos}
use naudio.Queue
use naudio.Config.{AudioStreamConfig}
use naudio.Ring.{
  Ring, Op, write_op, read_op, clear_op, reset_op, config_op, Poll, create, clear, reset_statistics,
  update_config, note_underrun, reply, replies, apply_ops, read_available, read_wait,
}
use naudio.Ring.Valid.{IsValid, contents}
use naudio.Ring.Writes.{write-Wrote}
use naudio.Ring.Reads.{Took, read_available-Took, read_now-Took}

-- What an operation does to the queue of at most `cap` bytes.
unfoldable pub queue_reply : ℕ → Op → List ℕ → List ℕ × List ℕ
queue_reply cap (write_op now source) q = ([], Queue.write cap q source)
queue_reply cap (read_op n) q = Queue.read q n
queue_reply cap clear_op q = ([], [])
queue_reply cap reset_op q = ([], q)
queue_reply cap (config_op c) q = ([], q)

unfoldable pub queue_replies : ℕ → List Op → List ℕ → List (List ℕ)
queue_replies cap [] q = []
queue_replies cap (op ∷ ops) q =
    let (bytes, q') = queue_reply cap op q in bytes ∷ queue_replies cap ops q'

-- The writes among the operations are shorter than half the address space.
abbrev pub Short : Op → Type 0
Short (write_op now source) = length source < 2 ^ 63
Short op = Unit {0}

abbrev pub AllShort : List Op → Type 0
AllShort [] = Unit {0}
AllShort (op ∷ ops) = Short op × AllShort ops

-- A constructor call with a positive capacity gives a valid, empty buffer.
pub create-IsValid :
    (c : AudioStreamConfig) (n : ℕ)
    → 0 < n
    → n < 2 ^ 31
    → IsValid (create c (pos n)) × (contents (create c (pos n)) ≡ [])
unfolding create contents
create-IsValid c n h small = (
  record {
    sized = length-replicate n 0;
    small = small;
    read_in = h;
    level = omega arith;
    position = omega arith;
  },
  refl,
)

-- What a call leaves: a valid buffer of the same capacity that follows the queue.
pub record Follows (op : Op) (r : Ring) (res : List ℕ × Ring) : Type 0 where
  pub valid : IsValid res.1
  pub capacity : res.1.capacity ≡ r.capacity
  pub queue : (res.0, contents res.1) ≡ queue_reply r.capacity op (contents r)

pub reply-Follows : (op : Op) (r : Ring) → Short op → IsValid r → Follows op r (reply op r)
unfolding reply queue_reply
reply-Follows (write_op now source) r h v =
    let w = write-Wrote now r source v h in
    record { valid = w.valid; capacity = w.capacity; queue = ap (λ q. ([], q)) w.queue }
reply-Follows (read_op n) r h v =
    let t = read_now-Took r n v in
    record { valid = t.valid; capacity = t.capacity; queue = t.queue }
reply-Follows clear_op r h v =
    unfold clear contents in
    record {
      valid = record {
        sized = v.sized;
        small = v.small;
        read_in = omega (arith, v.read_in);
        level = omega arith;
        position = omega (arith, v.read_in);
      };
      capacity = refl;
      queue = refl;
    }
reply-Follows reset_op r h v =
    unfold reset_statistics contents in
    record {
      valid = record {
        sized = v.sized;
        small = v.small;
        read_in = v.read_in;
        level = v.level;
        position = v.position;
      };
      capacity = refl;
      queue = refl;
    }
reply-Follows (config_op c) r h v =
    unfold update_config contents in
    record {
      valid = record {
        sized = v.sized;
        small = v.small;
        read_in = v.read_in;
        level = v.level;
        position = v.position;
      };
      capacity = refl;
      queue = refl;
    }

-- No sequence of calls on a valid buffer, of writes shorter than half the address space, reads,
-- clears, statistics resets and configuration changes, tells it from the bounded queue of its
-- unread bytes that forgets the oldest.
pub replies-refine :
    (ops : List Op) (r : Ring)
    → AllShort ops
    → IsValid r
    → replies ops r ≡ queue_replies r.capacity ops (contents r)
unfolding replies queue_replies
replies-refine [] r h v = refl
replies-refine (op ∷ ops) r h v = ap₂ ◌∷◌ (ap (λ p. p.0) f.queue) (
    replies-refine ops (reply op r).1 h.1 f.valid
    ∙ ap₂ (λ cap q. queue_replies cap ops q) f.capacity (ap (λ p. p.1) f.queue))
  where
    f : Follows op r (reply op r)
    f = reply-Follows op r h.0 v

pub apply_ops-IsValid :
    (ops : List Op) (r : Ring) → AllShort ops → IsValid r → IsValid (apply_ops ops r)
unfolding apply_ops
apply_ops-IsValid [] r h v = v
apply_ops-IsValid (op ∷ ops) r h v =
    apply_ops-IsValid ops (reply op r).1 h.1 (reply-Follows op r h.0 v).valid

-- What the other threads did in the first `k` waits.
abbrev pub after_waits : ℕ → List Poll → Ring → Ring
after_waits zero ps r = r
after_waits (suc k) [] r = r
after_waits (suc k) (p ∷ ps) r = after_waits k ps (apply_ops p.others r)

abbrev pub AllPollsShort : List Poll → Type 0
AllPollsShort [] = Unit {0}
AllPollsShort (p ∷ ps) = AllShort p.others × AllPollsShort ps

-- `read` took what was there when it woke up, at a state `s` that held data.
pub record Woke (s : Ring) (n : ℕ) (res : List ℕ × Ring) : Type 0 where
  pub some_data : 0 < s.available
  pub took : Took s n res

-- `read` gave up at a state `s` that held nothing.
pub record GaveUp (s : Ring) (res : List ℕ × Ring) : Type 0 where
  pub no_data : s.available ≡ 0
  pub nothing : res.0 ≡ []
  pub valid : IsValid res.1
  pub queue : contents res.1 ≡ contents s
  pub underruns : res.1.underrun_count ≡ s.underrun_count + 1

woke :
    (r : Ring) (n : ℕ) {res : List ℕ × Ring}
    → IsValid r
    → (r.available == 0) ≡ false
    → some (read_available r n) ≡ some res
    → Woke r n res
woke r n v there e =
    subst (λ x. Woke r n x) (some_inj e)
      (record { some_data = ground arith; took = read_available-Took r n v })

note_underrun-keeps :
    (now : ℤ) (r : Ring)
    → (contents (note_underrun now r) ≡ contents r)
      × ((note_underrun now r).underrun_count ≡ r.underrun_count)
unfolding note_underrun contents
note_underrun-keeps now r = ground arith

note_underrun-IsValid : (now : ℤ) (r : Ring) → IsValid r → IsValid (note_underrun now r)
unfolding note_underrun
note_underrun-IsValid now r v = ground arith

gave_up :
    (now : ℤ) (r : Ring) {res : List ℕ × Ring}
    → IsValid r
    → (r.available == 0) ≡ true
    → some ([], note_underrun now (record r { underrun_count = r.underrun_count + 1 })) ≡ some res
    → GaveUp r res
unfolding contents
gave_up now r v empty e =
    subst (λ x. GaveUp r x) (some_inj e)
      (record {
        no_data = ground arith;
        nothing = refl;
        valid = note_underrun-IsValid now counted valid_counted;
        queue = (note_underrun-keeps now counted).0;
        underruns = (note_underrun-keeps now counted).1;
      })
  where
    counted : Ring
    counted = record r { underrun_count = r.underrun_count + 1 }

    valid_counted : IsValid counted
    valid_counted = record {
      sized = v.sized;
      small = v.small;
      read_in = v.read_in;
      level = v.level;
      position = v.position;
    }

-- Before each of the first `k` waits the buffer held nothing and the deadline had not passed.
abbrev pub Waited : ℕ → List Poll → Ring → Type 0
Waited zero ps r = Unit {0}
Waited (suc k) [] r = ⊥
Waited (suc k) (p ∷ ps) r =
    (r.available ≡ 0) × (p.expired ≡ false) × Waited k ps (apply_ops p.others r)

-- After `k` waits the deadline has passed.
abbrev pub PassedAt : ℕ → List Poll → Type 0
PassedAt k [] = ⊥
PassedAt zero (p ∷ ps) = p.expired ≡ true
PassedAt (suc k) (p ∷ ps) = PassedAt k ps

-- A waiting `read` that returns does so after `k` waits, the first time that there is data or the
-- deadline has passed.
abbrev pub Ended : ℕ → List Poll → Ring → ℕ → List ℕ × Ring → Type 0
Ended k ps r n res =
    Waited k ps r
    × (Woke (after_waits k ps r) n res ⊎ (PassedAt k ps × GaveUp (after_waits k ps r) res))

read_wait_outcome :
    (ps : List Poll) (r : Ring) (n : ℕ) {res : List ℕ × Ring}
    → AllPollsShort ps
    → IsValid r
    → read_wait ps r n ≡ some res
    → (k : ℕ) × Ended k ps r n res
unfolding read_wait
read_wait_outcome [] r n h v e = elim (Bool-cases (r.available == 0)) [
  | inl empty ↦ let clash = rw empty at e in cc
  | inr there ↦ (0, (tt, inl (woke r n v there (rw there at e))))
]
read_wait_outcome (p ∷ ps) r n {res} h v e = elim (Bool-cases (r.available == 0)) [
  | inl empty ↦ elim (Bool-cases p.expired) [
    | inl over ↦ (0, (tt, inr (over, gave_up p.now r v empty (rw (empty, over) at e))))
    | inr early ↦
        let (k, outcome) =
          read_wait_outcome ps (apply_ops p.others r) n {res = res} h.1
            (apply_ops-IsValid p.others r h.0 v) (rw (empty, early) at e) in
        (suc k, (((==_iff r.available 0).0 empty, early, outcome.0), outcome.1))
  ]
  | inr there ↦ (0, (tt, inl (woke r n v there (rw there at e))))
]

-- Some test of the deadline finds that it has passed.
abbrev pub Expires : List Poll → Type 0
Expires [] = ⊥
Expires (p ∷ ps) = (p.expired ≡ true) ⊎ Expires ps

returns :
    (ps : List Poll) (r : Ring) (n : ℕ)
    → Expires ps
    → (res : List ℕ × Ring) × (read_wait ps r n ≡ some res)
unfolding read_wait
returns [] r n over = elim over [ ]
returns (p ∷ ps) r n over = elim (Bool-cases (r.available == 0)) [
  | inl empty ↦ elim (Bool-cases p.expired) [
    | inl passed ↦ rw (empty, passed) (_, refl)
    | inr early ↦ rw (empty, early) (returns ps (apply_ops p.others r) n (still early over))
  ]
  | inr there ↦ rw there (_, refl)
]
  where
    still : p.expired ≡ false → ((p.expired ≡ true) ⊎ Expires ps) → Expires ps
    still early (inl passed) = absurd (cc)
    still early (inr later) = later

-- A waiting `read` on a valid buffer whose deadline passes at some test, whatever short writes,
-- reads, clears, resets and configuration changes the other threads make meanwhile, returns. It
-- does so after some number of waits, before each of which the buffer was empty and the deadline had
-- not passed: either the buffer now holds data, and the read takes the oldest of it and counts no
-- underrun, or the buffer is empty and the deadline has passed, and the read returns nothing, leaves
-- the contents and counts one underrun.
pub read_wait_returns :
    (ps : List Poll) (r : Ring) (n : ℕ)
    → AllPollsShort ps
    → Expires ps
    → IsValid r
    → (res : List ℕ × Ring) × (read_wait ps r n ≡ some res) × (k : ℕ) × Ended k ps r n res
read_wait_returns ps r n short over v =
    let (res, e) = returns ps r n over in
    let (k, outcome) = read_wait_outcome ps r n short v e in (res, e, k, outcome)
