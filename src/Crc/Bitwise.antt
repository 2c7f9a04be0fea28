-- ===== src/Crc/Bitwise.antt =====
-- The CRC of src/Crc32.cpp against the CRC computed one bit at a time, its width, and what one
-- changed byte does to it.
use naudio.Prelude.{
  ℕ, ◌^◌, ◌<◌, ◌≡◌, ◌≢◌, refl, sym, ap, ap₂, ◌∙◌, subst, List, [], ◌∷◌, ◌++◌, arith,
}
use naudio.Prelude.Xor.{
  bit_xor, bit_xor_comm, bit_xor_self, bit_xor_cancel, bit_xor_lt, bit_xor_eq_zero,
}
use naudio.Crc.Linear.{table_step, crc_rounds-xor, crc_rounds_lt, crc_rounds-ne-zero}
use naudio.Crc.{crc_rounds, crc_update, crc32}

-- CRC-32 one bit at a time.
unfoldable pub crc_bitwise : ℕ → List ℕ → ℕ
crc_bitwise crc [] = crc
crc_bitwise crc (b ∷ bs) = crc_bitwise (crc_rounds 8 (bit_xor crc b)) bs

abbrev pub AllBytes : List ℕ → Type 0
AllBytes [] = Unit {0}
AllBytes (b ∷ bs) = (b < 256) × AllBytes bs

crc_update-bitwise : (crc : ℕ) (bs : List ℕ) → AllBytes bs → crc_update crc bs ≡ crc_bitwise crc bs
unfolding crc_update crc_bitwise
crc_update-bitwise crc [] h = refl
crc_update-bitwise crc (b ∷ bs) h =
    ap (λ c. crc_update c bs) (table_step crc b h.0)
    ∙ crc_update-bitwise (crc_rounds 8 (bit_xor crc b)) bs h.1

-- The table-driven CRC of any bytes is the CRC computed one bit at a time.
pub crc32-eq-bitwise :
    (bs : List ℕ) → AllBytes bs → crc32 bs ≡ bit_xor (crc_bitwise 0xffff_ffff bs) 0xffff_ffff
unfolding crc32
crc32-eq-bitwise bs h = ap (λ c. bit_xor c 0xffff_ffff) (crc_update-bitwise 0xffff_ffff bs h)

crc_bitwise_lt : (crc : ℕ) (bs : List ℕ) → crc < 2 ^ 32 → AllBytes bs → crc_bitwise crc bs < 2 ^ 32
unfolding crc_bitwise
crc_bitwise_lt crc [] h a = h
crc_bitwise_lt crc (b ∷ bs) h a =
    crc_bitwise_lt (crc_rounds 8 (bit_xor crc b)) bs
      (crc_rounds_lt 8 _ (bit_xor_lt 32 crc b h (omega (arith, a.0)))) a.1

pub crc32_lt : (bs : List ℕ) → AllBytes bs → crc32 bs < 2 ^ 32
crc32_lt bs h =
    subst (λ t. t < 2 ^ 32) (sym (crc32-eq-bitwise bs h))
      (bit_xor_lt 32 _ _ (crc_bitwise_lt 0xffff_ffff bs (omega arith) h) (omega arith))

xor_right : (c d b : ℕ) → bit_xor c b ≡ bit_xor d b → c ≡ d
xor_right c d b e = bit_xor_eq_zero c d (
    sym (bit_xor_cancel b c d)
    ∙ ap₂ bit_xor (bit_xor_comm b c ∙ e) (bit_xor_comm b d)
    ∙ bit_xor_self (bit_xor d b))

rounds_differ : (x y : ℕ) → x < 2 ^ 32 → y < 2 ^ 32 → x ≢ y → crc_rounds 8 x ≢ crc_rounds 8 y
rounds_differ x y hx hy ne e =
    crc_rounds-ne-zero 8 (bit_xor x y) (bit_xor_lt 32 x y hx hy) (λ z. ne (bit_xor_eq_zero x y z))
      (crc_rounds-xor 8 x y
        ∙ ap (λ t. bit_xor t (crc_rounds 8 y)) e
        ∙ bit_xor_self (crc_rounds 8 y))

-- The difference of two states that see the same bytes stays a difference.
crc_bitwise-ne :
    (c d : ℕ) (bs : List ℕ)
    → c < 2 ^ 32
    → d < 2 ^ 32
    → AllBytes bs
    → c ≢ d
    → crc_bitwise c bs ≢ crc_bitwise d bs
unfolding crc_bitwise
crc_bitwise-ne c d [] hc hd a ne = ne
crc_bitwise-ne c d (b ∷ bs) hc hd a ne =
    crc_bitwise-ne (crc_rounds 8 (bit_xor c b)) (crc_rounds 8 (bit_xor d b)) bs
      (crc_rounds_lt 8 _ (xb c hc)) (crc_rounds_lt 8 _ (xb d hd)) a.1 differs
  where
    xb : (t : ℕ) → t < 2 ^ 32 → bit_xor t b < 2 ^ 32
    xb t h = bit_xor_lt 32 t b h (omega (arith, a.0))

    differs : crc_rounds 8 (bit_xor c b) ≢ crc_rounds 8 (bit_xor d b)
    differs = rounds_differ _ _ (xb c hc) (xb d hd) (λ e. ne (xor_right c d b e))

crc_bitwise_split :
    (crc : ℕ) (xs ys : List ℕ) → crc_bitwise crc (xs ++ ys) ≡ crc_bitwise (crc_bitwise crc xs) ys
unfolding crc_bitwise
crc_bitwise_split crc [] ys = refl
crc_bitwise_split crc (x ∷ xs) ys = crc_bitwise_split (crc_rounds 8 (bit_xor crc x)) xs ys

crc_bitwise_cons :
    (c t : ℕ) (ys : List ℕ) → crc_bitwise c (t ∷ ys) ≡ crc_bitwise (crc_rounds 8 (bit_xor c t)) ys
unfolding crc_bitwise
crc_bitwise_cons c t ys = refl

pub AllBytes-append : (xs ys : List ℕ) → AllBytes xs → AllBytes ys → AllBytes (xs ++ ys)
AllBytes-append [] ys h k = k
AllBytes-append (x ∷ xs) ys h k = (h.0, AllBytes-append xs ys h.1 k)

-- Two byte strings that differ in one byte have different CRCs.
pub crc32_one_byte :
    (xs ys : List ℕ) (a b : ℕ)
    → AllBytes xs
    → AllBytes ys
    → a < 256
    → b < 256
    → a ≢ b
    → crc32 (xs ++ a ∷ ys) ≢ crc32 (xs ++ b ∷ ys)
crc32_one_byte xs ys a b hx hy ha hb ne e =
    crc_bitwise-ne (crc_rounds 8 (bit_xor c a)) (crc_rounds 8 (bit_xor c b)) ys
      (crc_rounds_lt 8 _ (low a ha)) (crc_rounds_lt 8 _ (low b hb)) hy
      (rounds_differ _ _ (low a ha) (low b hb)
        (λ z. ne (xor_right a b c (bit_xor_comm a c ∙ z ∙ bit_xor_comm c b))))
      (sym (after a) ∙ xor_right _ _ 0xffff_ffff same ∙ after b)
  where
    c : ℕ
    c = crc_bitwise 0xffff_ffff xs

    low : (t : ℕ) → t < 256 → bit_xor c t < 2 ^ 32
    low t h = bit_xor_lt 32 c t (crc_bitwise_lt 0xffff_ffff xs (omega arith) hx) (omega arith)

    after :
        (t : ℕ)
        → crc_bitwise 0xffff_ffff (xs ++ t ∷ ys) ≡ crc_bitwise (crc_rounds 8 (bit_xor c t)) ys
    after t = crc_bitwise_split 0xffff_ffff xs (t ∷ ys) ∙ crc_bitwise_cons c t ys

    same :
        bit_xor (crc_bitwise 0xffff_ffff (xs ++ a ∷ ys)) 0xffff_ffff
        ≡ bit_xor (crc_bitwise 0xffff_ffff (xs ++ b ∷ ys)) 0xffff_ffff
    same =
        sym (crc32-eq-bitwise (xs ++ a ∷ ys) (AllBytes-append xs (a ∷ ys) hx (ha, hy)))
        ∙ e
        ∙ crc32-eq-bitwise (xs ++ b ∷ ys) (AllBytes-append xs (b ∷ ys) hx (hb, hy))
