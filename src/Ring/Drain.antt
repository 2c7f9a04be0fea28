-- ===== src/Ring/Drain.antt =====
-- The copy loop of `AudioRingBuffer::read`.
use native.Mathlib.Decide.{dec_lt}
use native.Mathlib.Nat.{mod-add-mod, mod-eq_of_lt, mod-eq-sub-mod}
use naudio.Prelude.{
  ℕ, zero, suc, ◌+◌, ◌-◌, ◌%◌, ◌^◌, ◌≤◌, ◌<◌, min, ◌≡◌, refl, sym, ap, ◌∙◌, inl, inr, List, ◌++◌,
  append_assoc, append-nil, arith, length, length-drop, take, drop, ltb, ltb→lt, Bool-cases,
}
use naudio.Prelude.Segments.{take-append_le, take_add, length-take_le}
use naudio.Prelude.Rotation.{rotate, length-rotate, rotate_add, rotate_past}
use naudio.Ring.{Ring, read_chunk, read_loop}

-- The rotation from `a` bytes further on, below and past the end.
pub rotate_mod :
    (xs : List ℕ) (r a : ℕ) {cap : ℕ}
    → length xs ≡ cap
    → r < cap
    → a ≤ cap
    → rotate ((r + a) % cap) xs ≡ drop a (rotate r xs) ++ take a (rotate r xs)
rotate_mod xs r a {cap} e r_in a_in = elim (dec_lt (r + a) cap) [
  | yes p ↦ ap (λ k. rotate k xs) (mod-eq_of_lt p) ∙ rotate_add r a xs (omega arith)
  | no p ↦
      let back : (r + a) % cap ≡ r + a - cap =
        mod-eq-sub-mod {n = r + a} {m = cap} (omega arith)
        ∙ mod-eq_of_lt {n = r + a - cap} {m = cap} (omega arith) in
      let same : length xs - r + (r + a - cap) ≡ a = omega arith in
      ap (λ k. rotate k xs) back
      ∙ rotate_past r (r + a - cap) xs (omega arith) (omega arith)
      ∙ ap (λ k. drop k (rotate r xs) ++ take k (rotate r xs)) same
]

-- A state in which the copy loop of `read` may run for `wanted` bytes.
pub record CanRead (r : Ring) (wanted : ℕ) : Type 0 where
  pub sized : length r.buffer ≡ r.capacity
  pub small : r.capacity < 2 ^ 31
  pub read_in : r.read_pos < r.capacity
  pub level : r.available ≤ r.capacity
  pub enough : wanted ≤ r.available

-- What the loop has done when it stops.
pub record Drained (r : Ring) (wanted : ℕ) (out : List ℕ) (res : List ℕ × Ring) : Type 0 where
  pub bytes : res.0 ≡ out ++ take wanted (rotate r.read_pos r.buffer)
  pub frame : res.1 ≡ record r { read_pos = res.1.read_pos; available = res.1.available }
  pub level : res.1.available ≡ r.available - wanted
  pub position : res.1.read_pos ≡ (r.read_pos + wanted) % r.capacity

module _ (r : Ring) (wanted : ℕ) (can : CanRead r wanted) where
  abbrev run : ℕ
  run = min wanted (r.capacity - r.read_pos)

  read_chunk_bytes : (read_chunk r wanted).0 ≡ take run (rotate r.read_pos r.buffer)
  unfolding read_chunk
  read_chunk_bytes = sym (
      take-append_le run (drop r.read_pos r.buffer) (take r.read_pos r.buffer)
        (omega (arith, length-drop r.read_pos r.buffer, can.sized)))

  length-read_chunk : length (read_chunk r wanted).0 ≡ run
  length-read_chunk =
      ap length read_chunk_bytes
      ∙ length-take_le run (rotate r.read_pos r.buffer)
          (omega (arith, length-rotate r.read_pos r.buffer, can.sized))

  read_chunk-CanRead : CanRead (read_chunk r wanted).1 (wanted - run)
  unfolding read_chunk
  read_chunk-CanRead = record {
    sized = can.sized;
    small = can.small;
    read_in = omega (arith, can.read_in);
    level = omega (arith, can.small, can.level, can.enough);
    enough = omega (arith, can.small, can.level, can.enough);
  }

  read_chunk_level : (read_chunk r wanted).1.available ≡ r.available - run
  unfolding read_chunk
  read_chunk_level = omega (arith, can.small, can.level, can.enough)

  read_chunk_position : (read_chunk r wanted).1.read_pos ≡ (r.read_pos + run) % r.capacity
  unfolding read_chunk
  read_chunk_position = ap (λ k. k % r.capacity) (omega (arith, can.small, can.read_in))

  read_chunk_frame :
      (p a : ℕ)
      → record (read_chunk r wanted).1 { read_pos = p; available = a }
        ≡ record r { read_pos = p; available = a }
  unfolding read_chunk
  read_chunk_frame p a = refl

  -- The bytes of the first run and those of the rest, read one after the other.
  two_reads :
      take run (rotate r.read_pos r.buffer)
        ++ take (wanted - run) (rotate (read_chunk r wanted).1.read_pos r.buffer)
      ≡ take wanted (rotate r.read_pos r.buffer)
  two_reads =
      ap (λ l. take run (rotate r.read_pos r.buffer) ++ l)
        (ap (take (wanted - run)) turned
          ∙ take-append_le (wanted - run) (drop run (rotate r.read_pos r.buffer))
              (take run (rotate r.read_pos r.buffer))
              (omega (
                arith,
                length-drop run (rotate r.read_pos r.buffer),
                length-rotate r.read_pos r.buffer,
                can.sized,
                can.level,
                can.enough,
              )))
      ∙ sym (take_add run (wanted - run) (rotate r.read_pos r.buffer))
      ∙ ap (λ k. take k (rotate r.read_pos r.buffer)) (omega arith)
    where
      turned :
          rotate (read_chunk r wanted).1.read_pos r.buffer
          ≡ drop run (rotate r.read_pos r.buffer) ++ take run (rotate r.read_pos r.buffer)
      turned =
          ap (λ k. rotate k r.buffer) read_chunk_position
          ∙ rotate_mod r.buffer r.read_pos run can.sized can.read_in (omega arith)

  read_chunk_buffer : (read_chunk r wanted).1.buffer ≡ r.buffer
  unfolding read_chunk
  read_chunk_buffer = refl

  read_chunk_capacity : (read_chunk r wanted).1.capacity ≡ r.capacity
  unfolding read_chunk
  read_chunk_capacity = refl

  one_more :
      (out : List ℕ) (res : List ℕ × Ring)
      → Drained (read_chunk r wanted).1 (wanted - run) (out ++ (read_chunk r wanted).0) res
      → Drained r wanted out res
  one_more out res d = record {
    bytes =
        d.bytes
        ∙ rw (read_chunk_buffer, read_chunk_bytes) (append_assoc out _ _ ∙ ap (◌++◌ out) two_reads);
    frame = d.frame ∙ read_chunk_frame res.1.read_pos res.1.available;
    level = omega (arith, d.level, read_chunk_level);
    position =
        d.position
        ∙ rw (read_chunk_capacity, read_chunk_position)
            (mod-add-mod (r.read_pos + run) r.capacity (wanted - run)
              ∙ ap (λ k. k % r.capacity) (omega arith));
  }

nothing_wanted :
    (r : Ring) (wanted : ℕ) (out : List ℕ)
    → wanted ≡ 0
    → CanRead r wanted
    → Drained r wanted out (out, r)
nothing_wanted r wanted out e can = record {
  bytes = sym (ap (λ k. out ++ take k (rotate r.read_pos r.buffer)) e ∙ append-nil out);
  frame = refl;
  level = omega arith;
  position = sym (ap (λ k. k % r.capacity) (omega arith) ∙ mod-eq_of_lt can.read_in);
}

-- With a round of fuel for each wanted byte, the loop reads all of them.
pub read_loop-Drained :
    (fuel wanted : ℕ) (out : List ℕ) (r : Ring)
    → wanted ≤ fuel
    → CanRead r wanted
    → Drained r wanted out (read_loop fuel wanted out r)
unfolding read_loop
read_loop-Drained zero wanted out r h can = nothing_wanted r wanted out (omega arith) can
read_loop-Drained (suc fuel) wanted out r h can = elim (Bool-cases (ltb 0 wanted)) [
  | inl more ↦
      rw (more, length-read_chunk r wanted can)
        (one_more r wanted can out _ (
          read_loop-Drained fuel (wanted - run r wanted can) _ _
            (omega (arith, ltb→lt _ _ more, can.read_in)) (read_chunk-CanRead r wanted can)))
  | inr done ↦ rw done (nothing_wanted r wanted out (ground arith) can)
]
