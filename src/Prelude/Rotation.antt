-- ===== src/Prelude/Rotation.antt =====
-- The rotation of a list: what a circular array holds, read once round from an index.
use naudio.Prelude.{
  ℕ, ◌+◌, ◌-◌, ◌≤◌, ◌≡◌, sym, ap, ap₂, ◌∙◌, List, ◌++◌, append_assoc, append-nil, arith, length,
  length-append, length-take, length-drop, take, drop, take-append-drop,
}
use naudio.Prelude.Segments.{
  drop-append_le, take-append_le, drop-append_length, take-append_length, drop-append_add,
  take-append_add, drop-drop, take_all, drop_all, take_add, take-take_le, length-take_le,
}

module _ {ℓ} {A : Type ℓ} where
  abbrev pub rotate : ℕ → List A → List A
  rotate n xs = drop n xs ++ take n xs

  -- `c` written over `xs` from index `w` on.
  abbrev pub splice : List A → ℕ → List A → List A
  splice xs w c = take w xs ++ (c ++ drop (w + length c) xs)

  pub length-rotate : (n : ℕ) (xs : List A) → length (rotate n xs) ≡ length xs
  length-rotate n xs =
      omega (arith, length-append (drop n xs) (take n xs), length-take n xs, length-drop n xs)

  pub length-splice :
      (xs : List A) (w : ℕ) (c : List A)
      → w + length c ≤ length xs
      → length (splice xs w c) ≡ length xs
  length-splice xs w c h = omega (
    arith,
    length-append (take w xs) (c ++ drop (w + length c) xs),
    length-append c (drop (w + length c) xs),
    length-take w xs,
    length-drop (w + length c) xs,
  )

  pub rotate-length : (xs : List A) → rotate (length xs) xs ≡ rotate 0 xs
  rotate-length xs =
      rw (drop_all (length xs) xs (omega arith), take_all (length xs) xs (omega arith))
        (sym (append-nil xs))

  -- Writing a run at index `w` drops as many of the oldest items and appends the run.
  pub rotate-splice :
      (xs : List A) (w : ℕ) (c : List A)
      → w + length c ≤ length xs
      → rotate (w + length c) (splice xs w c) ≡ drop (length c) (rotate w xs ++ c)
  rotate-splice xs w c h = ap₂ ◌++◌ dropped taken ∙ sym whole
    where
      e : length (take w xs) ≡ w
      e = length-take_le w xs (omega arith)

      dropped : drop (w + length c) (splice xs w c) ≡ drop (w + length c) xs
      dropped =
          ap (λ k. drop (k + length c) (splice xs w c)) (sym e)
          ∙ drop-append_add (length c) (take w xs) (c ++ drop (w + length c) xs)
          ∙ drop-append_length c (drop (w + length c) xs)

      taken : take (w + length c) (splice xs w c) ≡ take w xs ++ c
      taken =
          ap (λ k. take (k + length c) (splice xs w c)) (sym e)
          ∙ take-append_add (length c) (take w xs) (c ++ drop (w + length c) xs)
          ∙ ap (◌++◌ (take w xs)) (take-append_length c (drop (w + length c) xs))

      whole : drop (length c) (rotate w xs ++ c) ≡ drop (w + length c) xs ++ (take w xs ++ c)
      whole =
          drop-append_le (length c) (rotate w xs) c (omega (arith, length-rotate w xs))
          ∙ ap (λ l. l ++ c)
              (drop-append_le (length c) (drop w xs) (take w xs) (omega (arith, length-drop w xs))
                ∙ ap (λ l. l ++ take w xs) (drop-drop (length c) w xs))
          ∙ append_assoc (drop (w + length c) xs) (take w xs) c

  -- Rotations add up, below and past the end.
  pub rotate_add :
      (r a : ℕ) (xs : List A)
      → r + a ≤ length xs
      → rotate (r + a) xs ≡ drop a (rotate r xs) ++ take a (rotate r xs)
  rotate_add r a xs h =
      rw
        (
          drop-append_le a (drop r xs) (take r xs) (omega (arith, length-drop r xs)),
          take-append_le a (drop r xs) (take r xs) (omega (arith, length-drop r xs)),
          drop-drop a r xs,
          take_add r a xs,
        )
        (sym (append_assoc (drop (r + a) xs) (take r xs) (take a (drop r xs))))

  pub rotate_past :
      (r b : ℕ) (xs : List A)
      → r ≤ length xs
      → b ≤ r
      → let a = length xs - r + b in rotate b xs ≡ drop a (rotate r xs) ++ take a (rotate r xs)
  rotate_past r b xs h k = ap₂ ◌++◌ front back ∙ again
    where
      e : length (drop r xs) ≡ length xs - r
      e = length-drop r xs

      front : drop b xs ≡ drop b (take r xs) ++ drop r xs
      front =
          ap (drop b) (sym (take-append-drop r xs))
          ∙ drop-append_le b (take r xs) (drop r xs) (omega (arith, length-take r xs))

      back : take b xs ≡ take b (take r xs)
      back = sym (take-take_le b r xs k)

      again :
          (drop b (take r xs) ++ drop r xs) ++ take b (take r xs)
          ≡ drop (length xs - r + b) (rotate r xs) ++ take (length xs - r + b) (rotate r xs)
      again =
          append_assoc (drop b (take r xs)) (drop r xs) (take b (take r xs))
          ∙ sym (
              ap₂ ◌++◌
                (ap (λ k. drop (k + b) (rotate r xs)) (sym e)
                  ∙ drop-append_add b (drop r xs) (take r xs))
                (ap (λ k. take (k + b) (rotate r xs)) (sym e)
                  ∙ take-append_add b (drop r xs) (take r xs)))
