-- ===== src/Crc/Linear.antt =====
-- The table of src/Crc32.cpp against eight single-bit rounds, and how a changed byte acts on the
-- register.
use Prim.Native.Nat.{differ}
use native.Mathlib.Nat.{pow-suc}
use naudio.Prelude.{
  ℕ, zero, suc, ◌+◌, ◌*◌, ◌/◌, ◌%◌, ◌^◌, ◌<◌, ◌≡◌, ◌≢◌, refl, sym, ap, ap₂, ◌∙◌, inl, inr, arith,
}
use naudio.Prelude.Xor.{
  bit_xor, bit_cases, bit_xor-div, bit_xor-mod, bit_xor_assoc, bit_xor_comm, bit_xor_cancel,
  zero-bit_xor, bit_xor_lt, bit_xor-div_pow, bit_xor_eq_zero,
}
use naudio.Crc.{polynomial, crc_round, crc_rounds, crc32_table}

crc_round_even : (c : ℕ) → c % 2 ≡ 0 → crc_round c ≡ c / 2
unfolding crc_round
crc_round_even c e = ground arith

crc_round_odd : (c : ℕ) → c % 2 ≡ 1 → crc_round c ≡ bit_xor polynomial (c / 2)
unfolding crc_round
crc_round_odd c e = ground arith

-- The exclusive ors of two words regrouped.
xor_middle : (p a b : ℕ) → bit_xor (bit_xor p a) b ≡ bit_xor a (bit_xor p b)
xor_middle p a b = ap (λ t. bit_xor t b) (bit_xor_comm p a) ∙ bit_xor_assoc a p b

crc_round-xor : (a b : ℕ) → crc_round (bit_xor a b) ≡ bit_xor (crc_round a) (crc_round b)
crc_round-xor a b = elim (bit_cases a) [
  | inl a0 ↦ elim (bit_cases b) [
    | inl b0 ↦
        crc_round_even (bit_xor a b) (bit_xor-mod a b ∙ ap₂ differ a0 b0)
        ∙ bit_xor-div a b
        ∙ sym (ap₂ bit_xor (crc_round_even a a0) (crc_round_even b b0))
    | inr b1 ↦
        crc_round_odd (bit_xor a b) (bit_xor-mod a b ∙ ap₂ differ a0 b1)
        ∙ ap (bit_xor polynomial) (bit_xor-div a b)
        ∙ sym (bit_xor_assoc polynomial (a / 2) (b / 2))
        ∙ xor_middle polynomial (a / 2) (b / 2)
        ∙ sym (ap₂ bit_xor (crc_round_even a a0) (crc_round_odd b b1))
  ]
  | inr a1 ↦ elim (bit_cases b) [
    | inl b0 ↦
        crc_round_odd (bit_xor a b) (bit_xor-mod a b ∙ ap₂ differ a1 b0)
        ∙ ap (bit_xor polynomial) (bit_xor-div a b)
        ∙ sym (bit_xor_assoc polynomial (a / 2) (b / 2))
        ∙ sym (ap₂ bit_xor (crc_round_odd a a1) (crc_round_even b b0))
    | inr b1 ↦
        crc_round_even (bit_xor a b) (bit_xor-mod a b ∙ ap₂ differ a1 b1)
        ∙ bit_xor-div a b
        ∙ sym (bit_xor_cancel polynomial (a / 2) (b / 2))
        ∙ sym (ap₂ bit_xor (crc_round_odd a a1) (crc_round_odd b b1))
  ]
]

pub crc_rounds-xor :
    (k a b : ℕ) → crc_rounds k (bit_xor a b) ≡ bit_xor (crc_rounds k a) (crc_rounds k b)
unfolding crc_rounds
crc_rounds-xor zero a b = refl
crc_rounds-xor (suc k) a b =
    ap (crc_rounds k) (crc_round-xor a b) ∙ crc_rounds-xor k (crc_round a) (crc_round b)

module _ (k low high : ℕ)
    (lower : crc_rounds k (low / 2 + 2 ^ k * high) ≡ bit_xor (crc_rounds k (low / 2)) high) where
  abbrev whole : ℕ
  whole = low + 2 ^ suc k * high

  twice : 2 ^ suc k * high ≡ 2 * (2 ^ k * high)
  twice = omega (arith, ap (λ (t : ℕ). t * high) (pow-suc 2 k))

  halves : whole / 2 ≡ low / 2 + 2 ^ k * high
  halves = omega (arith, twice)

  split_step : crc_rounds (suc k) whole ≡ bit_xor (crc_rounds (suc k) low) high
  unfolding crc_rounds
  split_step = elim (bit_cases low) [
    | inl even ↦
        ap (crc_rounds k) (crc_round_even whole (omega (arith, twice)) ∙ halves)
        ∙ lower
        ∙ ap (λ t. bit_xor (crc_rounds k t) high) (sym (crc_round_even low even))
    | inr odd ↦
        ap (crc_rounds k)
          (crc_round_odd whole (omega (arith, twice)) ∙ ap (bit_xor polynomial) halves)
        ∙ crc_rounds-xor k polynomial (low / 2 + 2 ^ k * high)
        ∙ ap (bit_xor (crc_rounds k polynomial)) lower
        ∙ sym (bit_xor_assoc (crc_rounds k polynomial) (crc_rounds k (low / 2)) high)
        ∙ ap (λ t. bit_xor t high)
            (sym
              (ap (crc_rounds k) (crc_round_odd low odd) ∙ crc_rounds-xor k polynomial (low / 2)))
  ]

-- The low `k` bits are worked off, and the high ones move down unchanged.
crc_rounds_split :
    (k low high : ℕ)
    → low < 2 ^ k
    → crc_rounds k (low + 2 ^ k * high) ≡ bit_xor (crc_rounds k low) high
crc_rounds_split zero low high h =
    let gone : low ≡ 0 = omega arith in
    let same : low + 1 * high ≡ high = omega arith in
    unfold crc_rounds in same ∙ sym (ap (λ t. bit_xor t high) gone ∙ zero-bit_xor high)
crc_rounds_split (suc k) low high h =
    split_step k low high (crc_rounds_split k (low / 2) high (omega (arith, pow-suc 2 k)))

-- One step over a byte by the table is the exclusive or with it and eight single-bit rounds.
pub table_step :
    (c b : ℕ)
    → b < 256
    → bit_xor (crc32_table (bit_xor c b % 256)) (c / 256) ≡ crc_rounds 8 (bit_xor c b)
unfolding crc32_table
table_step c b h =
    ap (bit_xor (crc_rounds 8 (bit_xor c b % 256))) (sym (bit_xor-div_pow 8 c b h))
    ∙ sym (
        ap (crc_rounds 8) {x = bit_xor c b} {y = bit_xor c b % 256 + 2 ^ 8 * (bit_xor c b / 256)}
          (omega arith)
        ∙ crc_rounds_split 8 (bit_xor c b % 256) (bit_xor c b / 256) (omega arith))

-- A round loses nothing: only 0 becomes 0.
crc_round-ne-zero : (c : ℕ) → c < 2 ^ 32 → c ≢ 0 → crc_round c ≢ 0
crc_round-ne-zero c h k e = elim (bit_cases c) [
  | inl even ↦ k (omega (arith, e, crc_round_even c even))
  | inr odd ↦
      absurd (omega (arith, bit_xor_eq_zero polynomial (c / 2) (sym (crc_round_odd c odd) ∙ e)))
]

crc_round_lt : (c : ℕ) → c < 2 ^ 32 → crc_round c < 2 ^ 32
unfolding crc_round
crc_round_lt c h = ground (arith, bit_xor_lt 32 polynomial (c / 2) (omega arith) (omega arith))

pub crc_rounds_lt : (k c : ℕ) → c < 2 ^ 32 → crc_rounds k c < 2 ^ 32
unfolding crc_rounds
crc_rounds_lt zero c h = h
crc_rounds_lt (suc k) c h = crc_rounds_lt k (crc_round c) (crc_round_lt c h)

pub crc_rounds-ne-zero : (k c : ℕ) → c < 2 ^ 32 → c ≢ 0 → crc_rounds k c ≢ 0
unfolding crc_rounds
crc_rounds-ne-zero zero c h e = e
crc_rounds-ne-zero (suc k) c h e =
    crc_rounds-ne-zero k (crc_round c) (crc_round_lt c h) (crc_round-ne-zero c h e)
