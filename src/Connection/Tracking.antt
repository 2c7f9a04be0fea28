-- ===== src/Connection/Tracking.antt =====
-- src/net/UdpClientConnection.cpp: what `trackSequence` counts.
use naudio.Prelude.{
  by_test, ℕ, ◌+◌, ◌≤◌, ◌≡◌, refl, sym, ap, ◌∙◌, subst, false, Option, none, some, List, [], ◌∷◌,
  arith, length, ltb, ◌==◌, ltb→lt, max, ==_iff, some_inj,
}
use naudio.Connection.{Connection}
use naudio.Connection.Chunks.{off_part}
use naudio.Connection.Pipeline.{track_sequence}

abbrev pub track_all : List ℕ → Connection → Connection
track_all [] c = c
track_all (seq ∷ seqs) c = track_all seqs (track_sequence seq c)

-- The greatest of the numbers, from `top` on.
abbrev pub greatest : ℕ → List ℕ → ℕ
greatest top [] = top
greatest top (seq ∷ seqs) = greatest (max top seq) seqs

record Step (seq top : ℕ) (c d : Connection) : Type 0 where
  seen : d.highest_sequence_seen ≡ some (max top seq)
  counted :
      max top seq + d.packets_out_of_order + c.packets_lost
      ≡ top + d.packets_lost + c.packets_out_of_order + 1

known_part :
    {A B : Type 0} (P : B → Type 0) (o : Option A) (x : B) (f : A → B) (a : A)
    → o ≡ some a
    → P (f a)
    → P (elim o [ none ↦ x | some b ↦ f b ])
known_part P none x f a e h = absurd (cc)
known_part P (some b) x f a e h = subst (λ z. P (f z)) (sym (some_inj e)) h

track-Step :
    (seq top : ℕ) (c : Connection)
    → c.highest_sequence_seen ≡ some top
    → Step seq top c (track_sequence seq c)
unfolding track_sequence
track-Step seq top c e = known_part (Step seq top c) c.highest_sequence_seen _ _ top e (
    by_test (Step seq top c) (ltb (top + 1) seq)
      (λ ahead.
        let far = ltb→lt (top + 1) seq ahead in
        record { seen = ap some (omega (arith, far)); counted = omega (arith, far) })
      (λ near.
        by_test (Step seq top c) (seq == top + 1)
          (λ next.
            let one_on = (==_iff seq (top + 1)).0 next in
            record { seen = ap some (omega (arith, one_on)); counted = omega (arith, one_on) })
          (λ other.
            let behind = late seq top near other in
            record {
              seen = e ∙ ap some (omega (arith, behind));
              counted = omega (arith, behind);
            })))
  where
    late : (m n : ℕ) → ltb (n + 1) m ≡ false → (m == n + 1) ≡ false → m ≤ n
    late m n h k = ground arith

track_all-counts :
    (seqs : List ℕ) (top : ℕ) (c : Connection)
    → c.highest_sequence_seen ≡ some top
    → ((track_all seqs c).highest_sequence_seen ≡ some (greatest top seqs))
      × (greatest top seqs + (track_all seqs c).packets_out_of_order + c.packets_lost
          ≡ top + (track_all seqs c).packets_lost + c.packets_out_of_order + length seqs)
track_all-counts [] top c e = (e, omega arith)
track_all-counts (seq ∷ seqs) top c e =
    let one = track-Step seq top c e in
    let rest = track_all-counts seqs (max top seq) (track_sequence seq c) one.seen in
    (rest.0, omega (arith, one.counted, rest.1))

-- After the first sequence number and any others, as long as none has come before: the highest one
-- seen is the greatest of them, and the distance from the first one to it is the number of packets
-- counted as lost in the meantime and of the others that were not out of order.
pub tracked-counts :
    (seq : ℕ) (seqs : List ℕ) (c : Connection)
    → c.highest_sequence_seen ≡ none
    → ((track_all (seq ∷ seqs) c).highest_sequence_seen ≡ some (greatest seq seqs))
      × (greatest seq seqs + (track_all (seq ∷ seqs) c).packets_out_of_order + c.packets_lost
          ≡ seq + (track_all (seq ∷ seqs) c).packets_lost + c.packets_out_of_order + length seqs)
unfolding track_sequence
tracked-counts seq seqs c e =
    subst
      (λ (d : Connection).
        ((track_all seqs d).highest_sequence_seen ≡ some (greatest seq seqs))
        × (greatest seq seqs + (track_all seqs d).packets_out_of_order + c.packets_lost
            ≡ seq + (track_all seqs d).packets_lost + c.packets_out_of_order + length seqs))
      (sym (off_part c.highest_sequence_seen _ _ e))
      (track_all-counts seqs seq (record c { highest_sequence_seen = some seq }) refl)
