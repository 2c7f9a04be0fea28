-- ===== src/Ring/Valid.antt =====
-- The representation invariant of `AudioRingBuffer`, the bytes that it holds, and what the overrun
-- branch of `write` leaves.
use native.Mathlib.Nat.{mod-eq_of_lt}
use naudio.Prelude.{
  ℕ, ◌+◌, ◌-◌, ◌%◌, ◌^◌, ◌≤◌, ◌<◌, min, ◌≡◌, sym, ap, ◌∙◌, inl, inr, List, arith, length, take, ltb,
  ltb→lt, Bool-cases, if◌then◌else◌,
}
use naudio.Prelude.Int.{ℤ}
use naudio.Prelude.Word.{add_size}
use naudio.Prelude.Segments.{length-take_le}
use naudio.Prelude.Rotation.{rotate, length-rotate}
use naudio.Ring.{Ring, note_overrun, drop_oldest}

pub record IsValid (r : Ring) : Type 0 where
  pub sized : length r.buffer ≡ r.capacity
  pub small : r.capacity < 2 ^ 31
  pub read_in : r.read_pos < r.capacity
  pub level : r.available ≤ r.capacity
  pub position : r.write_pos ≡ (r.read_pos + r.available) % r.capacity

-- The unread bytes, oldest first.
unfoldable pub contents : Ring → List ℕ
contents r = take r.available (rotate r.read_pos r.buffer)

pub length-contents : (r : Ring) → IsValid r → length (contents r) ≡ r.available
unfolding contents
length-contents r v =
    length-take_le r.available (rotate r.read_pos r.buffer)
      (omega (arith, length-rotate r.read_pos r.buffer, v.sized, v.level))

note_overrun-read_pos : (now : ℤ) (r : Ring) → (note_overrun now r).read_pos ≡ r.read_pos
unfolding note_overrun
note_overrun-read_pos now r = ground arith

module _ (now : ℤ) (r : Ring) (len : ℕ) where
  pub drop_oldest-buffer : (drop_oldest now r len).buffer ≡ r.buffer
  unfolding drop_oldest note_overrun
  drop_oldest-buffer = ground arith

  pub drop_oldest-capacity : (drop_oldest now r len).capacity ≡ r.capacity
  unfolding drop_oldest note_overrun
  drop_oldest-capacity = ground arith

  pub drop_oldest-write_pos : (drop_oldest now r len).write_pos ≡ r.write_pos
  unfolding drop_oldest note_overrun
  drop_oldest-write_pos = ground arith

  pub drop_oldest-written : (drop_oldest now r len).total_bytes_written ≡ r.total_bytes_written
  unfolding drop_oldest note_overrun
  drop_oldest-written = ground arith

  pub drop_oldest-read : (drop_oldest now r len).total_bytes_read ≡ r.total_bytes_read
  unfolding drop_oldest note_overrun
  drop_oldest-read = ground arith

  pub drop_oldest-lt : r.available < 2 ^ 64 → (drop_oldest now r len).available < 2 ^ 64
  unfolding drop_oldest note_overrun
  drop_oldest-lt h = ground arith

  module _ (v : IsValid r) (short : len < 2 ^ 63) where
    pub drop_oldest-overrun :
        (drop_oldest now r len).overrun_count
        ≡ (if ltb r.capacity (r.available + len) then r.overrun_count + 1 else r.overrun_count)
    unfolding drop_oldest note_overrun
    drop_oldest-overrun = ground (arith, v.small, v.level)

    -- The level may wrap below 0 here; with `len` added it is right again.
    pub drop_oldest-level :
        ((drop_oldest now r len).available + len) % 2 ^ 64 ≡ min (r.available + len) r.capacity
    unfolding drop_oldest note_overrun
    drop_oldest-level = ground (arith, v.small, v.level)

    pub drop_oldest-read_pos :
        (drop_oldest now r len).read_pos
        ≡ (r.read_pos + (r.available + len - r.capacity)) % r.capacity
    unfolding drop_oldest
    drop_oldest-read_pos = elim (Bool-cases (ltb r.capacity (add_size r.available len))) [
      | inl over ↦ rw over (
          note_overrun-read_pos now _
          ∙ ap (λ k. k % r.capacity) (omega (arith, ltb→lt _ _ over, v.small, v.level, v.read_in)))
      | inr fits ↦
          let below : add_size r.available len ≤ r.capacity = ground arith in
          rw fits (
            sym (
              ap (λ k. k % r.capacity) (omega (arith, below, v.small, v.level))
              ∙ mod-eq_of_lt v.read_in))
    ]
