-- ===== src/Queue.antt =====
-- The specification of `AudioRingBuffer`: a queue of at most `cap` bytes, oldest first, in which
-- new bytes push the oldest out.
use naudio.Prelude.{ℕ, ◌+◌, ◌-◌, List, ◌++◌, length, take, drop}

unfoldable pub write : ℕ → List ℕ → List ℕ → List ℕ
write cap q source = drop (length q + length source - cap) (q ++ source)

unfoldable pub read : List ℕ → ℕ → List ℕ × List ℕ
read q n = (take n q, drop n q)
