-- ===== src/Ring/Reads.antt =====
-- `AudioRingBuffer::read` on a valid buffer, without and with a wait.
use native.Mathlib.Nat.{mod-add-mod}
use naudio.Prelude.{
  ℕ, ◌+◌, ◌-◌, ◌%◌, ◌≤◌, min, ◌≡◌, refl, sym, ap, ap₂, ◌∙◌, inl, inr, List, [], arith, length,
  length-drop, take, drop, ◌==◌, Bool-cases,
}
use naudio.Prelude.Segments.{
  take-append_le, drop-take, take-take_le, take-min, drop-min, take-nil, drop-nil,
}
use naudio.Prelude.Rotation.{rotate, length-rotate}
use naudio.Queue
use naudio.Ring.{Ring, read_available, read_now}
use naudio.Ring.Drain.{Drained, read_loop-Drained, rotate_mod}
use naudio.Ring.Valid.{IsValid, contents, length-contents}

-- What `read` for `n` bytes leaves behind.
pub record Took (r : Ring) (n : ℕ) (res : List ℕ × Ring) : Type 0 where
  pub queue : (res.0, contents res.1) ≡ Queue.read (contents r) n
  pub valid : IsValid res.1
  pub capacity : res.1.capacity ≡ r.capacity
  pub read : res.1.total_bytes_read ≡ r.total_bytes_read + length res.0
  pub written : res.1.total_bytes_written ≡ r.total_bytes_written
  pub underruns : res.1.underrun_count ≡ r.underrun_count

module _ (r : Ring) (wanted : ℕ) (res : List ℕ × Ring) (v : IsValid r)
    (enough : wanted ≤ r.available) (d : Drained r wanted [] res) where
  abbrev whole : List ℕ
  whole = rotate r.read_pos r.buffer

  bytes_taken : res.0 ≡ take wanted (contents r)
  unfolding contents
  bytes_taken = d.bytes ∙ sym (take-take_le wanted r.available whole enough)

  capacity_kept : res.1.capacity ≡ r.capacity
  capacity_kept = ap (λ s. s.capacity) d.frame

  buffer_kept : res.1.buffer ≡ r.buffer
  buffer_kept = ap (λ s. s.buffer) d.frame

  contents_left : contents res.1 ≡ drop wanted (contents r)
  unfolding contents
  contents_left =
      ap₂ take d.level (
        ap₂ rotate d.position buffer_kept
        ∙ rotate_mod r.buffer r.read_pos wanted v.sized v.read_in (omega (arith, v.level)))
      ∙ take-append_le (r.available - wanted) (drop wanted whole) (take wanted whole) (
          omega
            (arith, length-drop wanted whole, length-rotate r.read_pos r.buffer, v.sized, v.level))
      ∙ sym (drop-take wanted r.available whole enough)

  drained-IsValid : IsValid res.1
  drained-IsValid = record {
    sized = ap length buffer_kept ∙ v.sized ∙ sym capacity_kept;
    small = omega (arith, capacity_kept, v.small);
    read_in = omega (arith, capacity_kept, d.position, v.read_in);
    level = omega (arith, capacity_kept, d.level, v.level);
    position =
        ap (λ s. s.write_pos) d.frame
        ∙ v.position
        ∙ ap (λ k. k % r.capacity) (omega arith)
        ∙ sym (mod-add-mod (r.read_pos + wanted) r.capacity (r.available - wanted))
        ∙ sym (ap₂ ◌%◌ (ap₂ ◌+◌ d.position d.level) capacity_kept);
  }

took :
    {r : Ring} {n : ℕ} {res : List ℕ × Ring}
    → IsValid r
    → Drained r (min n r.available) [] res
    → Took r n (res.0, record res.1 { total_bytes_read = res.1.total_bytes_read + length res.0 })
unfolding Queue.read contents
took {r} {n} {res} v d = record {
  queue =
      ap₂ (λ bytes left. (bytes, left))
        (bytes_taken r wanted res v few d
          ∙ ap (λ k. take k (contents r)) same
          ∙ take-min n (contents r))
        (contents_left r wanted res v few d
          ∙ ap (λ k. drop k (contents r)) same
          ∙ drop-min n (contents r));
  valid =
      let o : IsValid res.1 = drained-IsValid r wanted res v few d in
      record {
        sized = o.sized;
        small = o.small;
        read_in = o.read_in;
        level = o.level;
        position = o.position;
      };
  capacity = capacity_kept r wanted res v few d;
  read = ap (λ s. s.total_bytes_read + length res.0) d.frame;
  written = ap (λ s. s.total_bytes_written) d.frame;
  underruns = ap (λ s. s.underrun_count) d.frame;
}
  where
    wanted : ℕ
    wanted = min n r.available

    few : wanted ≤ r.available
    few = omega arith

    same : wanted ≡ min n (length (contents r))
    same = ap (min n) (sym (length-contents r v))

pub read_available-Took : (r : Ring) (n : ℕ) → IsValid r → Took r n (read_available r n)
unfolding read_available
read_available-Took r n v = took v (
    read_loop-Drained wanted wanted [] r (omega arith) (record {
      sized = v.sized;
      small = v.small;
      read_in = v.read_in;
      level = v.level;
      enough = omega arith;
    }))
  where
    wanted : ℕ
    wanted = min n r.available

nothing_there : (r : Ring) (n : ℕ) → IsValid r → r.available ≡ 0 → Took r n ([], r)
unfolding Queue.read contents
nothing_there r n v e = record {
  queue = rw none_held (ap₂ (λ a b. (a, b)) (sym (take-nil n)) (sym (drop-nil n)));
  valid = v;
  capacity = refl;
  read = omega arith;
  written = refl;
  underruns = refl;
}
  where
    none_held : contents r ≡ []
    none_held = ap (λ k. take k (rotate r.read_pos r.buffer)) e

-- On a valid buffer `read` without a wait returns the oldest bytes, as many as are asked for or
-- all that are there, and leaves the others; the buffer stays valid, the total of bytes read grows
-- by the number returned, and no underrun is counted.
pub read_now-Took : (r : Ring) (n : ℕ) → IsValid r → Took r n (read_now r n)
unfolding read_now
read_now-Took r n v = elim (Bool-cases (r.capacity == 0)) [
  | inl zero_cap ↦ absurd (ground (arith, v.read_in))
  | inr some_cap ↦ elim (Bool-cases (r.available == 0)) [
    | inl empty ↦ rw (some_cap, empty) (nothing_there r n v (ground arith))
    | inr there ↦ rw (some_cap, there) (read_available-Took r n v)
  ]
]
