-- ===== src/Assoc.antt =====
-- `std::map` and `std::set` of the standard library, over numbers as keys: an association list in
-- ascending order of its keys.
use mathlib.Core.Path.{subst₂}
use naudio.Prelude.{
  ℕ, suc, ◌+◌, ◌≤◌, ◌<◌, ◌≡◌, ◌≢◌, refl, sym, Option, none, some, List, [], ◌∷◌, arith, length, ltb,
  ◌==◌, ==_iff, some_inj, inl, inr, Bool-cases, if◌then◌else◌,
}

module _ {ℓ} {A : Type ℓ} where
  -- `insert_or_assign`.
  unfoldable pub insert : ℕ → A → List (ℕ × A) → List (ℕ × A)
  insert k a [] = (k, a) ∷ []
  insert k a ((j, b) ∷ m) =
      let rest = insert k a m in
      if ltb k j then (k, a) ∷ (j, b) ∷ m else if k == j then (k, a) ∷ m else (j, b) ∷ rest

  unfoldable pub erase : ℕ → List (ℕ × A) → List (ℕ × A)
  erase k [] = []
  erase k ((j, b) ∷ m) = if k == j then m else (j, b) ∷ erase k m

  unfoldable pub find : ℕ → List (ℕ × A) → Option A
  find k [] = none
  find k ((j, b) ∷ m) = if k == j then some b else find k m

  -- The key of `rbegin()`; `d` if the map is empty.
  unfoldable pub last_key : ℕ → List (ℕ × A) → ℕ
  last_key d [] = d
  last_key d ((j, b) ∷ m) = last_key j m

  -- Ascending keys, all at least `lo`.
  abbrev pub Above : ℕ → List (ℕ × A) → Type 0
  Above lo [] = Unit {0}
  Above lo ((k, a) ∷ m) = (lo ≤ k) × Above (suc k) m

  -- All entries satisfy `P`.
  abbrev pub AllEntries : (ℕ → A → Type 0) → List (ℕ × A) → Type 0
  AllEntries P [] = Unit {0}
  AllEntries P ((k, a) ∷ m) = P k a × AllEntries P m

  pub Above-mono : (lo hi : ℕ) (m : List (ℕ × A)) → lo ≤ hi → Above hi m → Above lo m
  Above-mono lo hi [] h a = tt
  Above-mono lo hi ((k, b) ∷ m) h a = (omega arith, a.1)

  pub insert-Above :
      (lo k : ℕ) (a : A) (m : List (ℕ × A)) → lo ≤ k → Above lo m → Above lo (insert k a m)
  unfolding insert
  insert-Above lo k a [] h v = (h, tt)
  insert-Above lo k a ((j, b) ∷ m) h v = ground (arith, insert-Above (suc j) k a m, v)

  pub erase-Above : (lo k : ℕ) (m : List (ℕ × A)) → Above lo m → Above lo (erase k m)
  unfolding erase
  erase-Above lo k [] v = tt
  erase-Above lo k ((j, b) ∷ m) v =
      ground (arith, erase-Above (suc j) k m v.1, Above-mono lo (suc j) m)

  pub insert-AllEntries :
      (P : ℕ → A → Type 0) (k : ℕ) (a : A) (m : List (ℕ × A))
      → P k a
      → AllEntries P m
      → AllEntries P (insert k a m)
  unfolding insert
  insert-AllEntries P k a [] h v = (h, tt)
  insert-AllEntries P k a ((j, b) ∷ m) h v = elim (Bool-cases (ltb k j)) [
    | inl before ↦ rw before (h, (v.0, v.1))
    | inr later ↦ elim (Bool-cases (k == j)) [
      | inl same ↦ rw (later, same) (h, v.1)
      | inr other ↦ rw (later, other) (v.0, insert-AllEntries P k a m h v.1)
    ]
  ]

  pub erase-AllEntries :
      (P : ℕ → A → Type 0) (k : ℕ) (m : List (ℕ × A)) → AllEntries P m → AllEntries P (erase k m)
  unfolding erase
  erase-AllEntries P k [] v = tt
  erase-AllEntries P k ((j, b) ∷ m) v = elim (Bool-cases (k == j)) [
    | inl same ↦ rw same v.1
    | inr other ↦ rw other (v.0, erase-AllEntries P k m v.1)
  ]

  -- What is found is an entry.
  pub find-AllEntries :
      (P : ℕ → A → Type 0) (k : ℕ) {a : A} (m : List (ℕ × A))
      → AllEntries P m
      → find k m ≡ some a
      → P k a
  unfolding find
  find-AllEntries P k [] v e = absurd (cc)
  find-AllEntries P k {a} ((j, b) ∷ m) v e = elim (Bool-cases (k == j)) [
    | inl same ↦
        let found : b ≡ a = some_inj (rw same at e) in
        subst₂ P (sym ((==_iff k j).0 same)) found v.0
    | inr other ↦ find-AllEntries P k m v.1 (rw other at e)
  ]

  pub length-insert : (k : ℕ) (a : A) (m : List (ℕ × A)) → length (insert k a m) ≤ length m + 1
  unfolding insert
  length-insert k a [] = omega arith
  length-insert k a ((j, b) ∷ m) = ground (arith, length-insert k a m)

  pub length-erase :
      (k : ℕ) {a : A} (m : List (ℕ × A)) → find k m ≡ some a → length (erase k m) + 1 ≡ length m
  unfolding find erase
  length-erase k [] e = absurd (cc)
  length-erase k {a} ((j, b) ∷ m) e = ground (arith, length-erase k {a = a} m)

  -- Nothing stands below the lower bound.
  pub find_below : (k lo : ℕ) (m : List (ℕ × A)) → k < lo → Above lo m → find k m ≡ none
  unfolding find
  find_below k lo [] h v = refl
  find_below k lo ((j, b) ∷ m) h v = ground (arith, find_below k (suc j) m, v)

  -- A map whose least key is not `lo` is above `lo`.
  pub find-none-Above :
      (lo : ℕ) (m : List (ℕ × A)) → Above lo m → find lo m ≡ none → Above (suc lo) m
  unfolding find
  find-none-Above lo [] v e = tt
  find-none-Above lo ((j, b) ∷ m) v e = ground (arith, v)

  pub find-some-Above :
      (lo : ℕ) {a : A} (m : List (ℕ × A))
      → Above lo m
      → find lo m ≡ some a
      → Above (suc lo) (erase lo m)
  unfolding find erase
  find-some-Above lo [] v e = tt
  find-some-Above lo {a} ((j, b) ∷ m) v e = ground (arith, v, find_below lo (suc j) m)

-- The keys of a map, and what `insert` and `erase` make of them whatever the values are.
module _ {ℓ} {A : Type ℓ} where
  abbrev pub keys : List (ℕ × A) → List ℕ
  keys [] = []
  keys ((k, a) ∷ m) = k ∷ keys m

module _ {ℓ κ} {A : Type ℓ} {B : Type κ} where
  pub keys-insert :
      (k : ℕ) (a : A) (b : B) (m : List (ℕ × A)) (n : List (ℕ × B))
      → keys m ≡ keys n
      → keys (insert k a m) ≡ keys (insert k b n)
  unfolding insert
  keys-insert k a b [] [] e = refl
  keys-insert k a b [] ((i, y) ∷ n) e = absurd (cc)
  keys-insert k a b ((j, x) ∷ m) [] e = absurd (cc)
  keys-insert k a b ((j, x) ∷ m) ((i, y) ∷ n) e = ground (arith, keys-insert k a b m n)

  pub keys-erase :
      (k : ℕ) (m : List (ℕ × A)) (n : List (ℕ × B))
      → keys m ≡ keys n
      → keys (erase k m) ≡ keys (erase k n)
  unfolding erase
  keys-erase k [] [] e = refl
  keys-erase k [] ((i, y) ∷ n) e = absurd (cc)
  keys-erase k ((j, x) ∷ m) [] e = absurd (cc)
  keys-erase k ((j, x) ∷ m) ((i, y) ∷ n) e = ground (arith, keys-erase k m n)

-- A map reads back what was written last.
module _ {ℓ} {A : Type ℓ} where
  pub find-insert_same : (k : ℕ) (a : A) (m : List (ℕ × A)) → find k (insert k a m) ≡ some a
  unfolding find insert
  find-insert_same k a [] = ground arith
  find-insert_same k a ((j, b) ∷ m) = ground (arith, find-insert_same k a m)

  pub find-insert_other :
      (h k : ℕ) (a : A) (m : List (ℕ × A)) → h ≢ k → find h (insert k a m) ≡ find h m
  unfolding find insert
  find-insert_other h k a [] d = ground arith
  find-insert_other h k a ((j, b) ∷ m) d = ground (arith, find-insert_other h k a m)

  pub find-erase_other : (h k : ℕ) (m : List (ℕ × A)) → h ≢ k → find h (erase k m) ≡ find h m
  unfolding find erase
  find-erase_other h k [] d = refl
  find-erase_other h k ((j, b) ∷ m) d = ground (arith, find-erase_other h k m)
