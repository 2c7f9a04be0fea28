-- ===== src/Ring/Writes.antt =====
-- `AudioRingBuffer::write` on a valid buffer.
use native.Mathlib.Nat.{mod-add-mod}
use naudio.Prelude.{
  ℕ, ◌+◌, ◌-◌, ◌%◌, ◌^◌, ◌≤◌, ◌<◌, min, ◌≡◌, sym, ap, ap₂, ◌∙◌, inl, inr, List, ◌++◌, arith, length,
  length-drop, take, drop, ltb, ◌==◌, Bool-cases, if◌then◌else◌,
}
use naudio.Prelude.Int.{ℤ}
use naudio.Prelude.Segments.{drop-append_le, drop-append_length, drop-drop}
use naudio.Prelude.Rotation.{rotate, length-rotate}
use naudio.Queue
use naudio.Ring.{Ring, drop_oldest, write_loop, write}
use naudio.Ring.Copy.{CanWrite, Filled, write_loop-Filled}
use naudio.Ring.Drain.{rotate_mod}
use naudio.Ring.Valid.{
  IsValid, contents, drop_oldest-buffer, drop_oldest-capacity, drop_oldest-write_pos,
  drop_oldest-written, drop_oldest-read, drop_oldest-overrun, drop_oldest-level, drop_oldest-lt,
  drop_oldest-read_pos,
}

-- The bytes held, read backwards from the write index.
contents-cycle :
    (r : Ring)
    → IsValid r
    → contents r ≡ drop (r.capacity - r.available) (rotate r.write_pos r.buffer)
unfolding contents
contents-cycle r v = sym (
    ap (λ k. drop (r.capacity - r.available) (rotate k r.buffer)) v.position
    ∙ ap (drop (r.capacity - r.available))
        (rotate_mod r.buffer r.read_pos r.available v.sized v.read_in v.level)
    ∙ ap (λ k. drop k (drop r.available whole ++ take r.available whole)) (sym rest_length)
    ∙ drop-append_length (drop r.available whole) (take r.available whole))
  where
    whole : List ℕ
    whole = rotate r.read_pos r.buffer

    rest_length : length (drop r.available whole) ≡ r.capacity - r.available
    rest_length =
        omega (arith, length-drop r.available whole, length-rotate r.read_pos r.buffer, v.sized)

-- Dropping the `n` oldest of a cycle of `cap` bytes and those past the level is dropping once.
cycle_queue :
    (cap a : ℕ) (cycle source : List ℕ)
    → length cycle ≡ cap
    → a ≤ cap
    → drop (cap - min (a + length source) cap) (drop (length source) (cycle ++ source))
      ≡ Queue.write cap (drop (cap - a) cycle) source
unfolding Queue.write
cycle_queue cap a cycle source e h =
    drop-drop (cap - min (a + length source) cap) (length source) (cycle ++ source)
    ∙ ap (λ k. drop k (cycle ++ source)) same
    ∙ sym (
        ap (drop (length (drop (cap - a) cycle) + length source - cap))
          (sym (drop-append_le (cap - a) cycle source (omega arith)))
        ∙ drop-drop _ (cap - a) (cycle ++ source))
  where
    same :
        length source + (cap - min (a + length source) cap)
        ≡ cap - a + (length (drop (cap - a) cycle) + length source - cap)
    same = omega (arith, length-drop (cap - a) cycle)

-- What the overrun branch leaves, for a write of `len` bytes.
record Roomy (r : Ring) (len : ℕ) (room : Ring) : Type 0 where
  buffer : room.buffer ≡ r.buffer
  capacity : room.capacity ≡ r.capacity
  write_pos : room.write_pos ≡ r.write_pos
  written : room.total_bytes_written ≡ r.total_bytes_written
  read : room.total_bytes_read ≡ r.total_bytes_read
  overruns :
      room.overrun_count
      ≡ (if ltb r.capacity (r.available + len) then r.overrun_count + 1 else r.overrun_count)
  level : (room.available + len) % 2 ^ 64 ≡ min (r.available + len) r.capacity
  read_pos : room.read_pos ≡ (r.read_pos + (r.available + len - r.capacity)) % r.capacity
  fits : room.available < 2 ^ 64

drop_oldest-Roomy :
    (now : ℤ) (r : Ring) (len : ℕ) → IsValid r → len < 2 ^ 63 → Roomy r len (drop_oldest now r len)
drop_oldest-Roomy now r len v short = record {
  buffer = drop_oldest-buffer now r len;
  capacity = drop_oldest-capacity now r len;
  write_pos = drop_oldest-write_pos now r len;
  written = drop_oldest-written now r len;
  read = drop_oldest-read now r len;
  overruns = drop_oldest-overrun now r len v short;
  level = drop_oldest-level now r len v short;
  read_pos = drop_oldest-read_pos now r len v short;
  fits = drop_oldest-lt now r len (omega (arith, v.level, v.small));
}

-- The write index stays `available` bytes ahead of the read index.
ahead :
    (cap rp a w len w' rp' a' cap' cap'' : ℕ)
    → w ≡ (rp + a) % cap
    → w' ≡ (w + (len - 0)) % cap'
    → cap' ≡ cap
    → rp' ≡ (rp + (a + len - cap)) % cap
    → a' ≡ min (a + len) cap
    → cap'' ≡ cap
    → w' ≡ (rp' + a') % cap''
ahead cap rp a w len w' rp' a' cap' cap'' hw hw' hc hrp ha hc'' =
    hw'
    ∙ rw (hc, hw)
        (mod-add-mod (rp + a) cap (len - 0)
          ∙ sym (
              rw (hrp, ha, hc'')
                (mod-add-mod (rp + (a + len - cap)) cap (min (a + len) cap)
                  ∙ ap (λ k. k % cap) (omega arith))))

module _ (r room : Ring) (source : List ℕ) (out : ℕ × Ring) (v : IsValid r)
    (m : Roomy r (length source) room) (filled : Filled room source 0 out) where
  level_after : out.1.available ≡ min (r.available + length source) r.capacity
  level_after = omega (arith, filled.level, m.level)

  capacity_kept : out.1.capacity ≡ r.capacity
  capacity_kept = ap (λ s. s.capacity) filled.frame ∙ m.capacity

  cycle_after :
      rotate out.1.write_pos out.1.buffer
      ≡ drop (length source) (rotate r.write_pos r.buffer ++ source)
  cycle_after =
      filled.cycle
      ∙ ap (λ k. drop k (rotate room.write_pos room.buffer ++ source)) {y = length source}
          (omega arith)
      ∙ ap₂ (λ w b. drop (length source) (rotate w b ++ source)) m.write_pos m.buffer

  out-IsValid : IsValid out.1
  out-IsValid = record {
    sized = filled.sized ∙ m.capacity ∙ sym capacity_kept;
    small = omega (arith, capacity_kept, v.small);
    read_in =
        omega (arith, ap (λ s. s.read_pos) filled.frame, m.read_pos, capacity_kept, v.read_in);
    level = omega (arith, level_after, capacity_kept);
    position =
        ahead r.capacity r.read_pos r.available room.write_pos (length source) _ _ _ _ _
          (m.write_pos ∙ v.position) filled.position m.capacity
          (ap (λ s. s.read_pos) filled.frame ∙ m.read_pos) level_after capacity_kept;
  }

  out-contents : contents out.1 ≡ Queue.write r.capacity (contents r) source
  out-contents =
      contents-cycle out.1 out-IsValid
      ∙ ap₂ drop (ap₂ ◌-◌ capacity_kept level_after) cycle_after
      ∙ cycle_queue r.capacity r.available (rotate r.write_pos r.buffer) source
          (length-rotate r.write_pos r.buffer ∙ v.sized) v.level
      ∙ ap (λ q. Queue.write r.capacity q source) (sym (contents-cycle r v))

-- What `write` leaves behind.
pub record Wrote (r : Ring) (source : List ℕ) (res : ℕ × Ring) : Type 0 where
  pub count : res.0 ≡ length source
  pub queue : contents res.1 ≡ Queue.write r.capacity (contents r) source
  pub valid : IsValid res.1
  pub capacity : res.1.capacity ≡ r.capacity
  pub written : res.1.total_bytes_written ≡ r.total_bytes_written + length source
  pub read : res.1.total_bytes_read ≡ r.total_bytes_read
  pub overruns : res.1.overrun_count ≡ (
      if ltb r.capacity (r.available + length source) then r.overrun_count + 1 else r.overrun_count)

Roomy-CanWrite : (r room : Ring) (len : ℕ) → IsValid r → Roomy r len room → CanWrite room
Roomy-CanWrite r room len v m = record {
  sized = ap length m.buffer ∙ v.sized ∙ sym m.capacity;
  small = omega (arith, m.capacity, v.small);
  write_in = omega (arith, m.capacity, m.write_pos, v.position, v.read_in);
  level = m.fits;
}

wrote :
    {r room : Ring} {source : List ℕ} {out : ℕ × Ring}
    → IsValid r
    → Roomy r (length source) room
    → Filled room source 0 out
    → Wrote r source
        (out.0, record out.1 { total_bytes_written = out.1.total_bytes_written + out.0 })
unfolding contents
wrote {r} {room} {source} {out} v m f = record {
  count = f.count;
  queue = out-contents r room source out v m f;
  valid =
      let o : IsValid out.1 = out-IsValid r room source out v m f in
      record {
        sized = o.sized;
        small = o.small;
        read_in = o.read_in;
        level = o.level;
        position = o.position;
      };
  capacity = capacity_kept r room source out v m f;
  written = omega (arith, f.count, ap (λ s. s.total_bytes_written) f.frame, m.written);
  read = ap (λ s. s.total_bytes_read) f.frame ∙ m.read;
  overruns = ap (λ s. s.overrun_count) f.frame ∙ m.overruns;
}

-- On a valid buffer `write` takes every byte; the buffer then holds the newest bytes of what it
-- held and of what came, as many as fit, it stays valid, the total of bytes written grows by the
-- length, that of bytes read does not change, and the overruns grow by one exactly when the bytes
-- did not fit.
pub write-Wrote :
    (now : ℤ) (r : Ring) (source : List ℕ)
    → IsValid r
    → length source < 2 ^ 63
    → Wrote r source (write now r source)
unfolding write
write-Wrote now r source v short = elim (Bool-cases (r.capacity == 0)) [
  | inl zero_cap ↦ absurd (ground (arith, v.read_in))
  | inr some_cap ↦ rw some_cap (wrote v (drop_oldest-Roomy now r len v short) (filled_up can))
]
  where
    len : ℕ
    len = length source

    room : Ring
    room = drop_oldest now r len

    can : CanWrite room
    can = Roomy-CanWrite r room len v (drop_oldest-Roomy now r len v short)

    filled_up : CanWrite room → Filled room source 0 (write_loop len source 0 room)
    filled_up = write_loop-Filled len source 0 room (omega arith) (omega arith)
