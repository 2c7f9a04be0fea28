-- ===== src/Ring/Copy.antt =====
-- The copy loops of `AudioRingBuffer::write` and `AudioRingBuffer::read`.
use mathlib.Core.Path.{subst₂}
use native.Mathlib.Decide.{dec_lt}
use native.Mathlib.Nat.{mod-add-mod, mod-eq_of_lt, mod_self}
use naudio.Prelude.{
  ℕ, zero, suc, ◌+◌, ◌-◌, ◌%◌, ◌^◌, ◌≤◌, ◌<◌, min, ◌≡◌, refl, sym, ap, ◌∙◌, ◌⊎◌, inl, inr, List,
  ◌++◌, append_assoc, append-nil, arith, length, length-append, length-take, length-drop, take,
  drop, take-append-drop, ltb, ltb→lt, Bool-cases,
}
use naudio.Prelude.Word.{add_size}
use naudio.Prelude.Segments.{drop-append_le, drop-drop, drop_all}
use naudio.Prelude.Rotation.{rotate, splice, length-splice, rotate-length, rotate-splice}
use naudio.Ring.{Ring, write_chunk, write_loop}

-- The next index after `n` bytes that do not pass the end.
advance :
    (w n cap : ℕ)
    → cap < 2 ^ 31
    → w + n ≤ cap
    → ((w + n ≡ cap) × (add_size w n % cap ≡ 0)) ⊎ ((w + n < cap) × (add_size w n % cap ≡ w + n))
advance w n cap small h =
    let same : add_size w n ≡ w + n = omega arith in
    elim (dec_lt (w + n) cap) [
      | yes p ↦ inr (p, rw same (mod-eq_of_lt p))
      | no p ↦ let e : w + n ≡ cap = omega arith in inl (e, rw same (rw e (mod_self cap)))
    ]

-- What `rotate` shows after a run is written at `w` and the index moves on.
rotate-write :
    (xs : List ℕ) (w : ℕ) (c : List ℕ)
    → length xs < 2 ^ 31
    → w + length c ≤ length xs
    → rotate (add_size w (length c) % length xs) (splice xs w c)
      ≡ drop (length c) (rotate w xs ++ c)
rotate-write xs w c small h = elim (advance w (length c) (length xs) small h) [
  | inl (e, z) ↦
      ap (λ k. rotate k (splice xs w c)) z
      ∙ sym (rotate-length (splice xs w c))
      ∙ ap (λ k. rotate k (splice xs w c)) (length-splice xs w c h ∙ sym e)
      ∙ rotate-splice xs w c h
  | inr (_, z) ↦ ap (λ k. rotate k (splice xs w c)) z ∙ rotate-splice xs w c h
]

rotate-write_at :
    (xs : List ℕ) (w : ℕ) (c : List ℕ) {cap n : ℕ}
    → cap < 2 ^ 31
    → length xs ≡ cap
    → length c ≡ n
    → w + n ≤ cap
    → rotate (add_size w n % cap) (splice xs w c) ≡ drop n (rotate w xs ++ c)
rotate-write_at xs w c small e f h =
    subst₂ (λ cap n. rotate (add_size w n % cap) (splice xs w c) ≡ drop n (rotate w xs ++ c)) e f
      (rotate-write xs w c (omega arith) (omega arith))

-- What the copy loop has done when it stops.
pub record Filled (r : Ring) (source : List ℕ) (written : ℕ) (out : ℕ × Ring) : Type 0 where
  pub count : out.0 ≡ length source
  pub frame :
      out.1
      ≡ record r { buffer = out.1.buffer; write_pos = out.1.write_pos; available = out.1.available }
  pub sized : length out.1.buffer ≡ r.capacity
  pub level : out.1.available ≡ (r.available + (length source - written)) % 2 ^ 64
  pub position : out.1.write_pos ≡ (r.write_pos + (length source - written)) % r.capacity
  pub cycle :
      rotate out.1.write_pos out.1.buffer
      ≡ drop (length source - written) (rotate r.write_pos r.buffer ++ drop written source)

-- A state in which the copy loop may run.
pub record CanWrite (r : Ring) : Type 0 where
  pub sized : length r.buffer ≡ r.capacity
  pub small : r.capacity < 2 ^ 31
  pub write_in : r.write_pos < r.capacity
  pub level : r.available < 2 ^ 64

module _ (r : Ring) (rest : List ℕ) (can : CanWrite r) where
  abbrev run : ℕ
  run = min (length rest) (r.capacity - r.write_pos)

  chunk_length : length (take run rest) ≡ run
  chunk_length = omega (arith, length-take run rest)

  write_chunk-CanWrite : CanWrite (write_chunk r rest)
  unfolding write_chunk
  write_chunk-CanWrite = record {
    sized =
        length-splice r.buffer r.write_pos (take run rest)
          (omega (arith, chunk_length, can.sized, can.write_in))
        ∙ can.sized;
    small = can.small;
    write_in = omega (arith, can.write_in);
    level = omega arith;
  }

  write_chunk-cycle :
      rotate (write_chunk r rest).write_pos (write_chunk r rest).buffer
      ≡ drop run (rotate r.write_pos r.buffer ++ take run rest)
  unfolding write_chunk
  write_chunk-cycle =
      rotate-write_at r.buffer r.write_pos (take run rest) can.small can.sized chunk_length
        (omega (arith, can.write_in))

-- A run and then the rest are one run.
two_runs :
    (old rest : List ℕ) (n m : ℕ)
    → n ≤ length rest
    → drop m (drop n (old ++ take n rest) ++ drop n rest) ≡ drop (n + m) (old ++ rest)
two_runs old rest n m h =
    ap (drop m) (
      sym (
        drop-append_le n (old ++ take n rest) (drop n rest)
          (omega (arith, length-append old (take n rest), length-take n rest)))
      ∙ ap (drop n)
          (append_assoc old (take n rest) (drop n rest) ∙ ap (◌++◌ old) (take-append-drop n rest)))
    ∙ drop-drop m n (old ++ rest)

nothing_left :
    (source : List ℕ) (written : ℕ) (r : Ring)
    → written ≡ length source
    → CanWrite r
    → Filled r source written (written, r)
nothing_left source written r e can = record {
  count = e;
  frame = refl;
  sized = can.sized;
  level = omega (arith, can.level);
  position = sym (
      ap (λ k. (r.write_pos + k) % r.capacity) none_left
      ∙ ap (λ k. k % r.capacity) (omega arith)
      ∙ mod-eq_of_lt can.write_in);
  cycle = sym (
      ap (λ k. drop k (rotate r.write_pos r.buffer ++ drop written source)) none_left
      ∙ ap (◌++◌ (rotate r.write_pos r.buffer)) (drop_all written source (omega arith))
      ∙ append-nil (rotate r.write_pos r.buffer));
}
  where
    none_left : length source - written ≡ 0
    none_left = omega arith

module _ (r : Ring) (source : List ℕ) (written : ℕ) (can : CanWrite r) where
  abbrev left : List ℕ
  left = drop written source

  one_more :
      (out : ℕ × Ring)
      → written < length source
      → Filled (write_chunk r left) source (written + run r left can) out
      → Filled r source written out
  unfolding write_chunk
  one_more out h f = record {
    count = f.count;
    frame = f.frame;
    sized = f.sized;
    level = omega (arith, f.level, length-drop written source);
    position =
        f.position
        ∙ ap (λ k. (k % r.capacity + tail_length) % r.capacity) whole
        ∙ mod-add-mod (r.write_pos + n) r.capacity tail_length
        ∙ ap (λ k. k % r.capacity) (omega (arith, length-drop written source));
    cycle =
        f.cycle
        ∙ ap (λ l. drop tail_length (l ++ drop (written + n) source)) (write_chunk-cycle r left can)
        ∙ ap (λ l. drop tail_length (drop n (rotate r.write_pos r.buffer ++ take n left) ++ l))
            (sym (drop-drop n written source))
        ∙ two_runs (rotate r.write_pos r.buffer) left n tail_length (omega arith)
        ∙ ap (λ k. drop k (rotate r.write_pos r.buffer ++ left))
            (omega (arith, length-drop written source));
  }
    where
      n : ℕ
      n = run r left can

      tail_length : ℕ
      tail_length = length source - (written + n)

      whole : add_size r.write_pos n ≡ r.write_pos + n
      whole = omega (arith, can.write_in, can.small)

-- With a round of fuel for each byte that is left, the loop copies all of them.
pub write_loop-Filled :
    (fuel : ℕ) (source : List ℕ) (written : ℕ) (r : Ring)
    → length source ≤ written + fuel
    → written ≤ length source
    → CanWrite r
    → Filled r source written (write_loop fuel source written r)
unfolding write_loop
write_loop-Filled zero source written r h k can = nothing_left source written r (omega arith) can
write_loop-Filled (suc fuel) source written r h k can =
    elim (Bool-cases (ltb written (length source))) [
      | inl more ↦ rw more (
          one_more r source written can _ (ltb→lt _ _ more) (
            write_loop-Filled fuel source _ (write_chunk r (drop written source))
              (omega (arith, length-drop written source, ltb→lt _ _ more, can.write_in))
              (omega (arith, length-drop written source, ltb→lt _ _ more))
              (write_chunk-CanWrite r (drop written source) can)))
      | inr done ↦ rw done (nothing_left source written r (ground arith) can)
    ]
