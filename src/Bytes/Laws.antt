-- ===== src/Bytes/Laws.antt =====
-- What the writer appends, and what a reader that stands before given bytes yields.
use native.Mathlib.Nat.{div-add-mod', pow-suc, mod-eq_of_lt, div-div-eq-div-mul, div-le_self}
use naudio.Prelude.{
  ℕ, zero, suc, ◌+◌, ◌*◌, ◌/◌, ◌%◌, ◌^◌, ◌≤◌, ◌<◌, ◌≡◌, refl, sym, ap, ap₂, ◌∙◌, subst, true, false,
  List, [], ◌∷◌, ◌++◌, append_assoc, append-nil, arith, length, length-append, length-drop, get_or,
  take, drop, ltb, lt→ltb, if◌then◌else◌,
}
use naudio.Prelude.Segments.{drop-append_length, take-append_length, drop-drop}
use naudio.Bytes.{
  Reader, put_u8, put_be, put_u16, put_u32, put_u64, reader, remaining, set_pos, get_u8, get_u16,
  get_be, get_u32, get_u64, read_bytes,
}

-- The big-endian form of `u` in `k` bytes.
abbrev pub be : ℕ → ℕ → List ℕ
be zero u = []
be (suc i) u = u / 256 ^ i % 256 ∷ be i u

pub length-be : (k u : ℕ) → length (be k u) ≡ k
length-be zero u = refl
length-be (suc k) u = ap suc (length-be k u)

put_be-append : (k : ℕ) (w : List ℕ) (u : ℕ) → put_be k w u ≡ w ++ be k u
unfolding put_be
put_be-append zero w u = sym (append-nil w)
put_be-append (suc k) w u =
    put_be-append k (w ++ u / 256 ^ k % 256 ∷ []) u
    ∙ append_assoc w (u / 256 ^ k % 256 ∷ []) (be k u)

pub put_u32-append : (w : List ℕ) (u : ℕ) → put_u32 w u ≡ w ++ be 4 u
unfolding put_u32
put_u32-append w u = put_be-append 4 w u

pub put_u64-append : (w : List ℕ) (u : ℕ) → put_u64 w u ≡ w ++ be 8 u
unfolding put_u64
put_u64-append w u = put_be-append 8 w u

pub put_u16-append : (w : List ℕ) (u : ℕ) → put_u16 w u ≡ w ++ be 2 u
unfolding put_u16
put_u16-append w u =
    append_assoc w (u / 256 % 256 ∷ []) (u % 256 ∷ [])
    ∙ ap (λ v. w ++ u / 256 % 256 ∷ v % 256 ∷ []) {x = u} {y = u / 1} (omega arith)

pub put_u8-append : (w : List ℕ) (u : ℕ) → put_u8 w u ≡ w ++ u % 256 ∷ []
unfolding put_u8
put_u8-append w u = refl

-- `r` stands before the bytes `xs`, the last ones of its source, and nothing was missing so far.
pub record At (r : Reader) (xs : List ℕ) : Type 0 where
  pub ahead : drop r.pos r.source ≡ xs
  pub inside : r.pos ≤ length r.source
  pub whole : r.truncated ≡ false

pub reader-At : (xs : List ℕ) → At (reader xs) xs
unfolding reader
reader-At xs = record { ahead = refl; inside = omega arith; whole = refl }

pub At-length : {r : Reader} {xs : List ℕ} → At r xs → r.pos + length xs ≡ length r.source
At-length {r} {xs} a = omega (arith, ap length a.ahead, length-drop r.pos r.source, a.inside)

pub remaining-At : (r : Reader) {xs : List ℕ} → At r xs → remaining r ≡ length xs
unfolding remaining
remaining-At r a = ground (arith, At-length a)

get_or-drop : (n : ℕ) (xs ys : List ℕ) (x d : ℕ) → drop n xs ≡ x ∷ ys → get_or xs n d ≡ x
get_or-drop zero [] ys x d h = cc
get_or-drop zero (y ∷ xs) ys x d h = cc
get_or-drop (suc n) [] ys x d h = cc
get_or-drop (suc n) (y ∷ xs) ys x d h = get_or-drop n xs ys x d h

drop-suc : (n : ℕ) (xs ys : List ℕ) (x : ℕ) → drop n xs ≡ x ∷ ys → drop (n + 1) xs ≡ ys
drop-suc n xs ys x h = sym (drop-drop 1 n xs) ∙ ap (drop 1) h

-- Reading one byte.
pub get_u8-At :
    (r : Reader) (x : ℕ) (xs : List ℕ)
    → At r (x ∷ xs)
    → ((get_u8 r).0 ≡ x) × At (get_u8 r).1 xs × ((get_u8 r).1.source ≡ r.source)
unfolding get_u8
get_u8-At r x xs a =
    let more : ltb r.pos (length r.source) ≡ true = lt→ltb _ _ (omega (arith, At-length a)) in
    rw more (
      get_or-drop r.pos r.source xs x 0 a.ahead,
      record {
        ahead = drop-suc r.pos r.source xs x a.ahead;
        inside = omega (arith, At-length a);
        whole = a.whole;
      },
      refl,
    )

word_step :
    (n k u : ℕ) → u < 256 ^ n → u / 256 ^ suc k * 256 % 256 ^ n + u / 256 ^ k % 256 ≡ u / 256 ^ k
word_step n k u h =
    ap (λ t. t * 256 % 256 ^ n + u / 256 ^ k % 256) lower
    ∙ ap (λ t. t + u / 256 ^ k % 256) (mod-eq_of_lt fits)
    ∙ div-add-mod' (u / 256 ^ k) 256
  where
    lower : u / 256 ^ suc k ≡ u / 256 ^ k / 256
    lower = ap (λ t. u / t) (pow-suc 256 k) ∙ sym (div-div-eq-div-mul u (256 ^ k) 256)

    fits : u / 256 ^ k / 256 * 256 < 256 ^ n
    fits = omega (arith, div-le_self u (256 ^ k))

-- Reading `k` more bytes of a word of `n`, of which the upper ones are read.
pub get_be-At :
    (n k u : ℕ) (r : Reader) (xs : List ℕ)
    → u < 256 ^ n
    → At r (be k u ++ xs)
    → let out = get_be (256 ^ n) k (u / 256 ^ k) r in
      (out.0 ≡ u) × At out.1 xs × (out.1.source ≡ r.source)
unfolding get_be
get_be-At n zero u r xs h a = (omega arith, a, refl)
get_be-At n (suc k) u r xs h a =
    let (x, here, same) = get_u8-At r (u / 256 ^ k % 256) (be k u ++ xs) a in
    let v : u / 256 ^ suc k * 256 % 256 ^ n + (get_u8 r).0 ≡ u / 256 ^ k =
      ap (λ t. u / 256 ^ suc k * 256 % 256 ^ n + t) x ∙ word_step n k u h in
    let (value, there, kept) = get_be-At n k u (get_u8 r).1 xs h here in
    subst
      (λ t.
        let out = get_be (256 ^ n) k t (get_u8 r).1 in
        (out.0 ≡ u) × At out.1 xs × (out.1.source ≡ r.source))
      (sym v) (value, there, kept ∙ same)

pub get_u32-At :
    (u : ℕ) (r : Reader) (xs : List ℕ)
    → u < 2 ^ 32
    → At r (be 4 u ++ xs)
    → ((get_u32 r).0 ≡ u) × At (get_u32 r).1 xs × ((get_u32 r).1.source ≡ r.source)
unfolding get_u32
get_u32-At u r xs h a = let z : u / 256 ^ 4 ≡ 0 = omega arith in rw z at (get_be-At 4 4 u r xs h a)

pub get_u64-At :
    (u : ℕ) (r : Reader) (xs : List ℕ)
    → u < 2 ^ 64
    → At r (be 8 u ++ xs)
    → ((get_u64 r).0 ≡ u) × At (get_u64 r).1 xs × ((get_u64 r).1.source ≡ r.source)
unfolding get_u64
get_u64-At u r xs h a = let z : u / 256 ^ 8 ≡ 0 = omega arith in rw z at (get_be-At 8 8 u r xs h a)

pub get_u16-At :
    (u : ℕ) (r : Reader) (xs : List ℕ)
    → u < 2 ^ 16
    → At r (be 2 u ++ xs)
    → ((get_u16 r).0 ≡ u) × At (get_u16 r).1 xs × ((get_u16 r).1.source ≡ r.source)
unfolding get_u16
get_u16-At u r xs h a =
    let (x, here, same) = get_u8-At r _ _ a in
    let (y, there, kept) = get_u8-At (get_u8 r).1 _ _ here in
    (omega (arith, x, y), there, kept ∙ same)

run_read :
    (r : Reader) (ys xs : List ℕ) (n count : ℕ)
    → length ys ≡ n
    → At r (ys ++ xs)
    → count ≡ n
    → (take count (drop r.pos r.source) ≡ ys)
      × At
          (record r { pos = r.pos + count; truncated = if ltb count n then true else r.truncated })
          xs
run_read r ys xs n count e a c = (
  ap₂ take (c ∙ sym e) a.ahead ∙ take-append_length ys xs,
  record {
    ahead =
        sym (drop-drop count r.pos r.source)
        ∙ ap₂ drop (c ∙ sym e) a.ahead
        ∙ drop-append_length ys xs;
    inside = omega (arith, At-length a, length-append ys xs);
    whole = ground (arith, a.whole);
  },
)

-- Reading a run of bytes.
pub read_bytes-At :
    (r : Reader) (ys xs : List ℕ) (n : ℕ)
    → length ys ≡ n
    → At r (ys ++ xs)
    → ((read_bytes r n).0 ≡ ys) × At (read_bytes r n).1 xs
unfolding read_bytes
read_bytes-At r ys xs n e a =
    run_read r ys xs n _ e a (ground (arith, remaining-At r a, length-append ys xs))

-- Skipping a run of bytes.
pub skip-At :
    (r : Reader) (ys xs : List ℕ) (n : ℕ)
    → length ys ≡ n
    → At r (ys ++ xs)
    → At (set_pos r (r.pos + n)) xs
unfolding set_pos
skip-At r ys xs n e a =
    let h = (run_read r ys xs n n e a refl).1 in
    record { ahead = h.ahead; inside = h.inside; whole = a.whole }
