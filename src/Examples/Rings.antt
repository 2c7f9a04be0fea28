-- ===== src/Examples/Rings.antt =====
-- `AudioRingBuffer` with a capacity of four bytes.
use naudio.Prelude.{ℕ, ◌≡◌, inl, inr, refl, arith, List, [], ◌∷◌, true, false, some}
use naudio.Prelude.Int.{pos}
use naudio.Config.{default_config}
use naudio.Ring.{Ring, Op, write_op, read_op, Poll, create, write, read_now, replies, read_wait}
use naudio.Ring.Valid.{IsValid, contents}
use naudio.Ring.Writes.{Wrote, write-Wrote}
use naudio.Ring.Reads.{Took, read_now-Took}
use naudio.Ring.Session.{create-IsValid, queue_replies, replies-refine, Ended, read_wait_returns}

abbrev four : Ring
four = create default_config (pos 4)

abbrev three_bytes : List ℕ
three_bytes = 10 ∷ 11 ∷ 12 ∷ []

abbrev session : List Op
session =
    write_op (pos 0) three_bytes
    ∷ read_op 2
    ∷ write_op (pos 5) (20 ∷ 21 ∷ 22 ∷ 23 ∷ [])
    ∷ read_op 9
    ∷ []

create-IsValid_example :
    IsValid (create default_config (pos 4)) × (contents (create default_config (pos 4)) ≡ [])
create-IsValid_example = create-IsValid default_config 4 (omega arith) (omega arith)

valid : IsValid four
valid = (create-IsValid default_config 4 (omega arith) (omega arith)).0

write-Wrote_example : Wrote four three_bytes (write (pos 0) four three_bytes)
write-Wrote_example = write-Wrote (pos 0) four three_bytes valid (omega arith)

read_now-Took_example :
    Took (write (pos 0) four three_bytes).1 2 (read_now (write (pos 0) four three_bytes).1 2)
read_now-Took_example =
    read_now-Took (write (pos 0) four three_bytes).1 2
      (write-Wrote (pos 0) four three_bytes valid (omega arith)).valid

replies-refine_example : replies session four ≡ queue_replies 4 session (contents four)
unfolding create
replies-refine_example =
    replies-refine session four (omega arith, (tt, (omega arith, (tt, tt)))) valid

-- The overrun keeps the last four bytes.
session_run : replies session four ≡ [] ∷ (10 ∷ 11 ∷ []) ∷ [] ∷ (20 ∷ 21 ∷ 22 ∷ 23 ∷ []) ∷ []
unfolding replies create
session_run = refl

-- A reader that waits once, while another thread writes.
abbrev schedule : List Poll
schedule =
    (record { expired = false; now = pos 3; others = write_op (pos 3) three_bytes ∷ [] })
    ∷ (record { expired = true; now = pos 9; others = [] })
    ∷ []

read_wait_returns_example :
    (res : List ℕ × Ring) × (read_wait schedule four 2 ≡ some res)
    × (k : ℕ) × Ended k schedule four 2 res
read_wait_returns_example =
    read_wait_returns schedule four 2 ((omega arith, tt), (tt, tt)) (inr (inl refl)) valid
