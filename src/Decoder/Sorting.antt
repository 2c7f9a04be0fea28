-- ===== src/Decoder/Sorting.antt =====
-- `FecDecoder::releaseHeld`: the order of what it emits.
use mathlib.Core.List.{Perm}
use mathlib.Core.List.Perm
use naudio.Prelude.{
  ℕ, ◌≤◌, ◌≡◌, true, false, List, [], ◌∷◌, ◌++◌, map, arith, leb, Bool-cases, inl, inr,
}
use naudio.Decoder.{Decoder, HeldPacket, rank, place, stable_sort, release_held}
use naudio.Decoder.Trace.{outcome, release_held_open}

-- The packets of a map, in the order of its keys.
abbrev pub values {ℓ} : {A : Type ℓ} → List (ℕ × A) → List A
values [] = []
values ((k, a) ∷ m) = a ∷ values m

-- The ranks ascend, from `lo` on.
abbrev pub Ascends : ℕ → ℕ → List HeldPacket → Type 0
Ascends base lo [] = Unit {0}
Ascends base lo (h ∷ hs) = (lo ≤ rank base h) × Ascends base (rank base h) hs

place-Ascends :
    (base lo : ℕ) (h : HeldPacket) (hs : List HeldPacket)
    → lo ≤ rank base h
    → Ascends base lo hs
    → Ascends base lo (place base h hs)
unfolding place
place-Ascends base lo h [] b a = (b, tt)
place-Ascends base lo h (g ∷ gs) b a = elim (Bool-cases (leb (rank base h) (rank base g))) [
  | inl before ↦ rw before (b, (le_of before, a.1))
  | inr later ↦ rw later (a.0, place-Ascends base (rank base g) h gs (ge_of later) a.1)
]
  where
    le_of : leb (rank base h) (rank base g) ≡ true → rank base h ≤ rank base g
    le_of e = ground arith

    ge_of : leb (rank base h) (rank base g) ≡ false → rank base g ≤ rank base h
    ge_of e = ground arith

stable_sort-Ascends : (base : ℕ) (m : List (ℕ × HeldPacket)) → Ascends base 0 (stable_sort base m)
unfolding stable_sort
stable_sort-Ascends base [] = tt
stable_sort-Ascends base ((k, h) ∷ m) =
    place-Ascends base 0 h (stable_sort base m) (omega arith) (stable_sort-Ascends base m)

place-perm : (base : ℕ) (h : HeldPacket) (hs : List HeldPacket) → Perm (place base h hs) (h ∷ hs)
unfolding place
place-perm base h [] = Perm.refl (h ∷ [])
place-perm base h (g ∷ gs) = elim (Bool-cases (leb (rank base h) (rank base g))) [
  | inl before ↦ rw before (Perm.refl (h ∷ g ∷ gs))
  | inr later ↦ rw later (Perm.trans (Perm.cons g (place-perm base h gs)) (Perm.swap h g gs))
]

stable_sort-perm : (base : ℕ) (m : List (ℕ × HeldPacket)) → Perm (stable_sort base m) (values m)
unfolding stable_sort
stable_sort-perm base [] = Perm.refl []
stable_sort-perm base ((k, h) ∷ m) =
    Perm.trans (place-perm base h (stable_sort base m)) (Perm.cons h (stable_sort-perm base m))

-- `releaseHeld` in an open hold emits each held packet once, with its provenance, in the wrapping
-- order of the sequence numbers from the start of the hold; then the hold is over, no packet is
-- held, and all else is as before.
pub release_held-sorted :
    (d : Decoder)
    → d.holding ≡ true
    → (hs : List HeldPacket) × Ascends d.hold_base_seq 0 hs
      × Perm hs (values d.held_packets)
      × (release_held d
          ≡ record d { emitted = d.emitted ++ map outcome hs; held_packets = []; holding = false })
release_held-sorted d open_hold = (
  stable_sort d.hold_base_seq d.held_packets,
  stable_sort-Ascends d.hold_base_seq d.held_packets,
  stable_sort-perm d.hold_base_seq d.held_packets,
  release_held_open d open_hold,
)
