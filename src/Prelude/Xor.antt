-- ===== src/Prelude/Xor.antt =====
-- The laws of `bit_xor` at variables, from the recursion on binary digits that it stands for.
use Prim.Native.Nat.{digits, differ, bit_xor-bitwise}
use native.Mathlib.Nat.{pow-suc, pow-succ', div-div-eq-div-mul}
use naudio.Prelude.{
  ℕ, zero, suc, ◌+◌, ◌*◌, ◌/◌, ◌%◌, ◌^◌, ◌≤◌, ◌<◌, ◌≡◌, refl, sym, ap, ap₂, ◌∙◌, ◌⊎◌, arith,
}
pub use Prim.Native.Nat.{bit_xor}

abbrev xor_digits : ℕ → ℕ → ℕ → ℕ
xor_digits n a b = digits (λ y. y) differ n a b

-- Any count of digits that the first number does not exceed gives the same result.
xor_digits-enough : (bound n a b : ℕ) → n ≤ bound → a ≤ n → xor_digits n a b ≡ xor_digits a a b
xor_digits-enough bound zero zero b h k = refl
xor_digits-enough bound zero (suc a) b h k = absurd (omega arith)
xor_digits-enough bound (suc n) zero b h k = refl
xor_digits-enough zero (suc n) (suc a) b h k = absurd (omega arith)
xor_digits-enough (suc bound) (suc n) (suc a) b h k =
    ap (λ t. t * 2 + differ (suc a % 2) (b % 2))
      (xor_digits-enough bound n (suc a / 2) (b / 2) (omega arith) (omega arith)
        ∙ sym (xor_digits-enough bound a (suc a / 2) (b / 2) (omega arith) (omega arith)))

pub bit_xor_step : (a b : ℕ) → bit_xor a b ≡ bit_xor (a / 2) (b / 2) * 2 + differ (a % 2) (b % 2)
bit_xor_step zero b = simp bit_xor-bitwise (omega arith)
bit_xor_step (suc a) b = simp bit_xor-bitwise (
    ap (λ t. t * 2 + differ (suc a % 2) (b % 2))
      (xor_digits-enough a a (suc a / 2) (b / 2) (omega arith) (omega arith)))

-- Two digits.
pub bit_cases : (a : ℕ) → (a % 2 ≡ 0) ⊎ (a % 2 ≡ 1)
bit_cases a = omega arith

differ_comm : (a b : ℕ) → differ (a % 2) (b % 2) ≡ differ (b % 2) (a % 2)
differ_comm a b = ground (arith, bit_cases a, bit_cases b)

differ_lt : (a b : ℕ) → differ (a % 2) (b % 2) < 2
differ_lt a b = ground (arith, bit_cases a, bit_cases b)

differ_assoc :
    (a b c : ℕ) → differ (differ (a % 2) (b % 2)) (c % 2) ≡ differ (a % 2) (differ (b % 2) (c % 2))
differ_assoc a b c = ground (arith, bit_cases a, bit_cases b, bit_cases c)

differ_self : (a : ℕ) → differ (a % 2) (a % 2) ≡ 0
differ_self a = ground (arith, bit_cases a)

-- The quotient and the last digit of an exclusive or.
pub bit_xor-div : (a b : ℕ) → bit_xor a b / 2 ≡ bit_xor (a / 2) (b / 2)
bit_xor-div a b = omega (arith, bit_xor_step a b, differ_lt a b)

pub bit_xor-mod : (a b : ℕ) → bit_xor a b % 2 ≡ differ (a % 2) (b % 2)
bit_xor-mod a b = omega (arith, bit_xor_step a b, differ_lt a b)

pub zero-bit_xor : (b : ℕ) → bit_xor 0 b ≡ b
zero-bit_xor b = bit_xor-bitwise 0 b

xor_comm_upto : (n a b : ℕ) → a ≤ n → b ≤ n → bit_xor a b ≡ bit_xor b a
xor_comm_upto zero zero zero h k = refl
xor_comm_upto zero zero (suc b) h k = absurd (omega arith)
xor_comm_upto zero (suc a) b h k = absurd (omega arith)
xor_comm_upto (suc n) a b h k = omega (
  arith,
  bit_xor_step a b,
  bit_xor_step b a,
  differ_comm a b,
  xor_comm_upto n (a / 2) (b / 2) (omega arith) (omega arith),
)

pub bit_xor_comm : (a b : ℕ) → bit_xor a b ≡ bit_xor b a
bit_xor_comm a b = xor_comm_upto (a + b) a b (omega arith) (omega arith)

pub bit_xor-zero : (a : ℕ) → bit_xor a 0 ≡ a
bit_xor-zero a = bit_xor_comm a 0 ∙ zero-bit_xor a

xor_self_upto : (n a : ℕ) → a ≤ n → bit_xor a a ≡ 0
xor_self_upto zero zero h = refl
xor_self_upto zero (suc a) h = absurd (omega arith)
xor_self_upto (suc n) a h =
    omega (arith, bit_xor_step a a, differ_self a, xor_self_upto n (a / 2) (omega arith))

pub bit_xor_self : (a : ℕ) → bit_xor a a ≡ 0
bit_xor_self a = xor_self_upto a a (omega arith)

xor_assoc_upto :
    (n a b c : ℕ) → a ≤ n → b ≤ n → c ≤ n → bit_xor (bit_xor a b) c ≡ bit_xor a (bit_xor b c)
xor_assoc_upto zero zero b c ha hb hc =
    ap (λ t. bit_xor t c) (zero-bit_xor b) ∙ sym (zero-bit_xor (bit_xor b c))
xor_assoc_upto zero (suc a) b c ha hb hc = absurd (omega arith)
xor_assoc_upto (suc n) a b c ha hb hc =
    bit_xor_step (bit_xor a b) c
    ∙ ap₂ (λ q d. q * 2 + d)
        (ap (λ t. bit_xor t (c / 2)) (bit_xor-div a b)
          ∙ xor_assoc_upto n (a / 2) (b / 2) (c / 2) (omega arith) (omega arith) (omega arith)
          ∙ ap (bit_xor (a / 2)) (sym (bit_xor-div b c)))
        (ap (λ t. differ t (c % 2)) (bit_xor-mod a b)
          ∙ differ_assoc a b c
          ∙ ap (differ (a % 2)) (sym (bit_xor-mod b c)))
    ∙ sym (bit_xor_step a (bit_xor b c))

pub bit_xor_assoc : (a b c : ℕ) → bit_xor (bit_xor a b) c ≡ bit_xor a (bit_xor b c)
bit_xor_assoc a b c = xor_assoc_upto (a + b + c) a b c (omega arith) (omega arith) (omega arith)

pub bit_xor_lt : (k a b : ℕ) → a < 2 ^ k → b < 2 ^ k → bit_xor a b < 2 ^ k
bit_xor_lt zero zero zero h g = omega arith
bit_xor_lt zero zero (suc b) h g = absurd (omega arith)
bit_xor_lt zero (suc a) b h g = absurd (omega arith)
bit_xor_lt (suc k) a b h g = omega (
  arith,
  pow-suc 2 k,
  bit_xor_step a b,
  differ_lt a b,
  bit_xor_lt k (a / 2) (b / 2) (omega (arith, pow-suc 2 k)) (omega (arith, pow-suc 2 k)),
)

-- Low digits leave the high ones alone.
pub bit_xor-div_pow : (k a b : ℕ) → b < 2 ^ k → bit_xor a b / 2 ^ k ≡ a / 2 ^ k
bit_xor-div_pow zero a b h =
    ap (λ t. bit_xor a t / 1) {x = b} {y = 0} (omega arith) ∙ ap (λ t. t / 1) (bit_xor-zero a)
bit_xor-div_pow (suc k) a b h =
    halve (bit_xor a b)
    ∙ ap (λ t. t / 2 ^ k) (bit_xor-div a b)
    ∙ bit_xor-div_pow k (a / 2) (b / 2) (omega (arith, pow-suc 2 k))
    ∙ sym (halve a)
  where
    halve : (t : ℕ) → t / 2 ^ suc k ≡ t / 2 / 2 ^ k
    halve t = ap (λ d. t / d) (pow-succ' 2 k) ∙ sym (div-div-eq-div-mul t 2 (2 ^ k))

pub bit_xor_eq_zero : (a b : ℕ) → bit_xor a b ≡ 0 → a ≡ b
bit_xor_eq_zero a b e =
    sym (bit_xor-zero a)
    ∙ ap (bit_xor a) (sym (bit_xor_self b))
    ∙ sym (bit_xor_assoc a b b)
    ∙ ap (λ t. bit_xor t b) e
    ∙ zero-bit_xor b

-- The middle word of two exclusive ors cancels.
pub bit_xor_cancel : (p a b : ℕ) → bit_xor (bit_xor p a) (bit_xor p b) ≡ bit_xor a b
bit_xor_cancel p a b =
    ap (λ t. bit_xor t (bit_xor p b)) (bit_xor_comm p a)
    ∙ bit_xor_assoc a p (bit_xor p b)
    ∙ ap (bit_xor a)
        (sym (bit_xor_assoc p p b) ∙ ap (λ t. bit_xor t b) (bit_xor_self p) ∙ zero-bit_xor b)
