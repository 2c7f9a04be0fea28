-- ===== src/Fec/Recover.antt =====
-- `FecEncoder`: the parity data of a block and the recovery of a member from it.
use naudio.Prelude.{
  ℕ, zero, suc, ◌-◌, ◌≤◌, ◌≡◌, refl, sym, ap, ap₂, ◌∙◌, List, [], ◌∷◌, ◌++◌, arith, length,
  replicate,
}
use naudio.Prelude.Xor.{
  bit_xor, bit_xor_comm, bit_xor_assoc, bit_xor_self, bit_xor-zero, zero-bit_xor,
}
use naudio.Fec.{xor_into, xor_all}

-- The order of two members does not matter.
xor_into-xor_into : (a p q : List ℕ) → xor_into (xor_into a p) q ≡ xor_into (xor_into a q) p
unfolding xor_into
xor_into-xor_into [] p q = refl
xor_into-xor_into (x ∷ a) [] [] = refl
xor_into-xor_into (x ∷ a) [] (z ∷ q) = refl
xor_into-xor_into (x ∷ a) (y ∷ p) [] = refl
xor_into-xor_into (x ∷ a) (y ∷ p) (z ∷ q) =
    ap₂ ◌∷◌ (bit_xor_assoc x y z ∙ ap (bit_xor x) (bit_xor_comm y z) ∙ sym (bit_xor_assoc x z y))
      (xor_into-xor_into a p q)

-- A member that goes in twice goes out again.
xor_into_twice : (a p : List ℕ) → xor_into (xor_into a p) p ≡ a
unfolding xor_into
xor_into_twice [] p = refl
xor_into_twice (x ∷ a) [] = refl
xor_into_twice (x ∷ a) (y ∷ p) =
    ap₂ ◌∷◌ (bit_xor_assoc x y y ∙ ap (bit_xor x) (bit_xor_self y) ∙ bit_xor-zero x)
      (xor_into_twice a p)

xor_all-xor_into :
    (ps : List (List ℕ)) (a q : List ℕ) → xor_all (xor_into a q) ps ≡ xor_into (xor_all a ps) q
unfolding xor_all
xor_all-xor_into [] a q = refl
xor_all-xor_into (p ∷ ps) a q =
    ap (λ b. xor_all b ps) (xor_into-xor_into a q p) ∙ xor_all-xor_into ps (xor_into a p) q

xor_all_twice : (ps : List (List ℕ)) (a : List ℕ) → xor_all (xor_all a ps) ps ≡ a
unfolding xor_all
xor_all_twice [] a = refl
xor_all_twice (p ∷ ps) a =
    ap (λ b. xor_all b ps)
      (sym (xor_all-xor_into ps (xor_into a p) p) ∙ ap (λ b. xor_all b ps) (xor_into_twice a p))
    ∙ xor_all_twice ps a

-- A member may come last.
xor_all_last :
    (ps qs : List (List ℕ)) (a lost : List ℕ)
    → xor_all a (ps ++ lost ∷ qs) ≡ xor_into (xor_all a (ps ++ qs)) lost
unfolding xor_all
xor_all_last [] qs a lost = xor_all-xor_into qs a lost
xor_all_last (p ∷ ps) qs a lost = xor_all_last ps qs (xor_into a p) lost

xor_into_zeros :
    (n : ℕ) (p : List ℕ)
    → length p ≤ n
    → xor_into (replicate n 0) p ≡ p ++ replicate (n - length p) 0
unfolding xor_into
xor_into_zeros zero [] h = refl
xor_into_zeros zero (y ∷ p) h = absurd (omega arith)
xor_into_zeros (suc n) [] h = ap (λ k. replicate k 0) (whole (suc n))
  where
    whole : (n : ℕ) → n ≡ n - 0
    whole n = omega arith
xor_into_zeros (suc n) (y ∷ p) h =
    ap₂ ◌∷◌ (zero-bit_xor y)
      (xor_into_zeros n p (omega arith) ∙ ap (λ k. p ++ replicate k 0) (one_less n (length p)))
  where
    one_less : (n k : ℕ) → n - k ≡ suc n - suc k
    one_less n k = omega arith

-- A block of payloads, none longer than `n`, one of which is lost: the parity data of the block, with
-- the payloads that arrived taken out of it in whatever length they have, is the lost payload with
-- zeros behind it up to the length `n`.
pub recovered-parity :
    (n : ℕ) (ps qs : List (List ℕ)) (lost : List ℕ)
    → length lost ≤ n
    → xor_all (xor_all (replicate n 0) (ps ++ lost ∷ qs)) (ps ++ qs)
      ≡ lost ++ replicate (n - length lost) 0
recovered-parity n ps qs lost h =
    ap (λ a. xor_all a (ps ++ qs)) (xor_all_last ps qs (replicate n 0) lost)
    ∙ xor_all-xor_into (ps ++ qs) (xor_all (replicate n 0) (ps ++ qs)) lost
    ∙ ap (λ a. xor_into a lost) (xor_all_twice (ps ++ qs) (replicate n 0))
    ∙ xor_into_zeros n lost h
