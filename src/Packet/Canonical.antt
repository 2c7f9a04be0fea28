-- ===== src/Packet/Canonical.antt =====
-- What `AudioPacket::deserialize` accepts, against what `AudioPacket::serialize` writes.
use naudio.Prelude.{
  ℕ, zero, suc, ◌+◌, ◌*◌, ◌^◌, ◌≤◌, ◌<◌, ◌≡◌, refl, sym, ap, ap₂, ◌∙◌, subst, inl, inr, ◌||◌,
  Option, none, some, some_inj, List, [], ◌∷◌, ◌++◌, arith, length, length-take, length-drop,
  get_or, take, drop, ltb, ◌==◌, ==_iff, Bool-cases,
}
use naudio.Prelude.Segments.{take_add, take_all}
use naudio.Config.{max_payload}
use naudio.Bytes.Laws.{be}
use naudio.Crc.{crc32}
use naudio.Crc.Bitwise.{AllBytes}
use naudio.Packet.{
  PacketType, AudioPacket, magic, type_value, packet_type_from_value, put_body, serialize,
  word16_at, word32_at, read_word, deserialize_body, deserialize_typed, deserialize,
}
use naudio.Packet.Frame.{header, carried, put_body_lem, serialize_lem}
use naudio.Packet.RoundTrip.{held, Accepts}

body-inv :
    (t : PacketType) (source : List ℕ) (p : AudioPacket)
    → 23 ≤ length source
    → word16_at source 0 ≡ magic
    → packet_type_from_value (get_or source 3 0) ≡ some t
    → deserialize_body t source ≡ some p
    → Accepts source t × (p ≡ held t source)
unfolding deserialize_body
body-inv t source p long mark kind e =
    elim (Bool-cases (
      ltb max_payload (word16_at source 17)
      || ltb (length source) (19 + word16_at source 17 + 4))) [
        | inl bad ↦ let clash = rw bad at e in cc
        | inr good ↦
            elim (Bool-cases (
              crc32 (take (19 + word16_at source 17) source)
              == word32_at source (19 + word16_at source 17))) [
                | inl intact ↦ (
                  record {
                    long = long;
                    mark = mark;
                    kind = kind;
                    small = ground arith;
                    complete = ground arith;
                    intact = (==_iff _ _).0 intact;
                  },
                  sym (some_inj (rw (good, intact) at e)),
                )
                | inr damaged ↦ let clash = rw (good, damaged) at e in cc
              ]
      ]

typed-inv :
    (o : Option PacketType) (source : List ℕ) (p : AudioPacket)
    → 23 ≤ length source
    → word16_at source 0 ≡ magic
    → packet_type_from_value (get_or source 3 0) ≡ o
    → deserialize_typed o source ≡ some p
    → (t : PacketType) × Accepts source t × (p ≡ held t source)
unfolding deserialize_typed
typed-inv none source p long mark kind e = absurd (cc)
typed-inv (some t) source p long mark kind e =
    let (checks, same) = body-inv t source p long mark kind e in (t, checks, same)

-- What `deserialize` accepts has passed all its checks, and is read off the fields.
pub deserialize-inv :
    (source : List ℕ) (p : AudioPacket)
    → deserialize source ≡ some p
    → (t : PacketType) × Accepts source t × (p ≡ held t source)
unfolding deserialize
deserialize-inv source p e = elim (Bool-cases (ltb (length source) 23)) [
  | inl short ↦ let clash = rw short at e in cc
  | inr long ↦ elim (Bool-cases (word16_at source 0 == magic)) [
    | inl mark ↦
        typed-inv _ source p (ground arith) ((==_iff _ _).0 mark) refl (rw (long, mark) at e)
    | inr other ↦ let clash = rw (long, other) at e in cc
  ]
]

get_or-lt : (xs : List ℕ) (i : ℕ) → AllBytes xs → get_or xs i 0 < 256
get_or-lt [] i h = omega arith
get_or-lt (x ∷ xs) zero h = h.0
get_or-lt (x ∷ xs) (suc i) h = get_or-lt xs i h.1

abbrev tabulate : ℕ → (ℕ → ℕ) → List ℕ
tabulate zero f = []
tabulate (suc n) f = f 0 ∷ tabulate n (λ i. f (suc i))

take-tabulate : (n : ℕ) (xs : List ℕ) → n ≤ length xs → take n xs ≡ tabulate n (λ i. get_or xs i 0)
take-tabulate zero xs h = refl
take-tabulate (suc n) [] h = absurd (omega arith)
take-tabulate (suc n) (x ∷ xs) h = ap (◌∷◌ x) (take-tabulate n xs (omega arith))

get_or-drop : (i j : ℕ) (xs : List ℕ) → get_or (drop i xs) j 0 ≡ get_or xs (i + j) 0
get_or-drop zero j xs = ap (λ k. get_or xs k 0) (omega arith)
get_or-drop (suc i) j [] = refl
get_or-drop (suc i) j (x ∷ xs) =
    get_or-drop i j xs
    ∙ ap (λ k. get_or (x ∷ xs) k 0) {x = suc (i + j)} {y = suc i + j} (omega arith)

four_bytes :
    (xs : List ℕ) (i : ℕ)
    → i + 4 ≤ length xs
    → take 4 (drop i xs)
      ≡ get_or xs i 0 ∷ get_or xs (i + 1) 0 ∷ get_or xs (i + 2) 0 ∷ get_or xs (i + 3) 0 ∷ []
four_bytes xs i h =
    take-tabulate 4 (drop i xs) (omega (arith, length-drop i xs))
    ∙ ap₂ ◌∷◌ (get_or-drop i 0 xs ∙ ap (λ k. get_or xs k 0) {x = i + 0} {y = i} (omega arith)) (
        ap₂ ◌∷◌ (get_or-drop i 1 xs)
          (ap₂ ◌∷◌ (get_or-drop i 2 xs) (ap₂ ◌∷◌ (get_or-drop i 3 xs) refl)))

-- A word read off bytes has those bytes.
be4_word :
    (a b c d : ℕ)
    → a < 256
    → b < 256
    → c < 256
    → d < 256
    → be 4 (a * 2 ^ 24 + b * 2 ^ 16 + c * 2 ^ 8 + d) ≡ a ∷ b ∷ c ∷ d ∷ []
be4_word a b c d ha hb hc hd =
    ap₂ ◌∷◌ (omega arith)
      (ap₂ ◌∷◌ (omega arith) (ap₂ ◌∷◌ (omega arith) (ap₂ ◌∷◌ (omega arith) refl)))

be2_word : (a b : ℕ) → a < 256 → b < 256 → be 2 (a * 2 ^ 8 + b) ≡ a ∷ b ∷ []
be2_word a b ha hb = ap₂ ◌∷◌ (omega arith) (ap₂ ◌∷◌ (omega arith) refl)

be8_word :
    (a b c d e f g h v : ℕ)
    → a < 256
    → b < 256
    → c < 256
    → d < 256
    → e < 256
    → f < 256
    → g < 256
    → h < 256
    → v ≡ (((((((a * 256 + b) * 256 + c) * 256 + d) * 256 + e) * 256 + f) * 256 + g) * 256 + h)
    → be 8 v ≡ a ∷ b ∷ c ∷ d ∷ e ∷ f ∷ g ∷ h ∷ []
be8_word a b c d e f g h v ha hb hc hd he hf hg hh q = ap₂ ◌∷◌ (omega arith) (
    ap₂ ◌∷◌ (omega arith) (
      ap₂ ◌∷◌ (omega arith) (
        ap₂ ◌∷◌ (omega arith) (
          ap₂ ◌∷◌ (omega arith)
            (ap₂ ◌∷◌ (omega arith) (ap₂ ◌∷◌ (omega arith) (ap₂ ◌∷◌ (omega arith) refl)))))))

type_value-from : (v : ℕ) (t : PacketType) → packet_type_from_value v ≡ some t → type_value t ≡ v
unfolding packet_type_from_value type_value
type_value-from v t e = ground arith

module _ (source : List ℕ) (bytes : AllBytes source) where
  abbrev at : ℕ → ℕ
  at i = get_or source i 0

  below : (i : ℕ) → at i < 256
  below i = get_or-lt source i bytes

  word32_bytes :
      (i : ℕ) → be 4 (word32_at source i) ≡ at i ∷ at (i + 1) ∷ at (i + 2) ∷ at (i + 3) ∷ []
  unfolding word32_at
  word32_bytes i =
      be4_word (at i) (at (i + 1)) (at (i + 2)) (at (i + 3)) (below i) (below (i + 1))
        (below (i + 2)) (below (i + 3))

  word16_bytes : be 2 (word16_at source 17) ≡ at 17 ∷ at 18 ∷ []
  unfolding word16_at
  word16_bytes = be2_word (at 17) (at 18) (below 17) (below 18)

  stamp_bytes :
      be 8 (read_word 8 source 9 0)
      ≡ at 9 ∷ at 10 ∷ at 11 ∷ at 12 ∷ at 13 ∷ at 14 ∷ at 15 ∷ at 16 ∷ []
  unfolding read_word
  stamp_bytes =
      be8_word (at 9) (at 10) (at 11) (at 12) (at 13) (at 14) (at 15) (at 16) _ (below 9) (below 10)
        (below 11) (below 12) (below 13) (below 14) (below 15) (below 16)
        (omega
          (arith, below 9, below 10, below 11, below 12, below 13, below 14, below 15, below 16))

module _ (source : List ℕ) (t : PacketType) (bytes : AllBytes source) (a : Accepts source t) where
  abbrev len : ℕ
  len = word16_at source 17

  abbrev p : AudioPacket
  p = held t source

  mark_bytes : (get_or source 0 0 ≡ 0xaf) × (get_or source 1 0 ≡ 0x01)
  mark_bytes = unfold word16_at in omega (arith, a.mark, below source bytes 0, below source bytes 1)

  header_read : header p len ≡ take 19 source
  unfolding header
  header_read =
      ap₂ ◌∷◌ (sym mark_bytes.0) (
        ap₂ ◌∷◌ (sym mark_bytes.1) (
          ap₂ ◌∷◌ (omega (arith, below source bytes 2)) (
            ap₂ ◌∷◌ (type_value-from _ t a.kind) (
              ap₂ ◌∷◌ (omega (arith, below source bytes 4)) (
                ap₂ ◌++◌ (word32_bytes source bytes 5)
                  (ap₂ ◌++◌ (stamp_bytes source bytes) (word16_bytes source bytes)))))))
      ∙ sym (take-tabulate 19 source (omega (arith, a.long)))

  payload_length : length p.payload ≡ len
  payload_length =
      omega (arith, length-take len (drop 19 source), length-drop 19 source, a.complete)

  carried_all : carried p ≡ len
  carried_all = omega (arith, payload_length, a.small)

  body_read : put_body p ≡ take (19 + len) source
  body_read =
      put_body_lem p
      ∙ ap₂ ◌++◌ (ap (header p) carried_all ∙ header_read)
          (take_all (carried p) p.payload (omega (arith, carried_all, payload_length)))
      ∙ sym (take_add 19 len source)

  crc_read : be 4 (crc32 (put_body p)) ≡ take 4 (drop (19 + len) source)
  crc_read =
      ap (λ b. be 4 (crc32 b)) body_read
      ∙ ap (be 4) a.intact
      ∙ word32_bytes source bytes (19 + len)
      ∙ sym (four_bytes source (19 + len) (omega (arith, a.complete)))

  serialize_read : serialize p ≡ take (19 + len + 4) source
  serialize_read =
      serialize_lem p ∙ ap₂ ◌++◌ body_read crc_read ∙ sym (take_add (19 + len) 4 source)

-- A byte string is accepted only if it begins with the frame that `serialize` writes for the packet
-- that comes out.
pub deserialize_canonical :
    (source : List ℕ) (p : AudioPacket)
    → AllBytes source
    → deserialize source ≡ some p
    → serialize p ≡ take (19 + length p.payload + 4) source
deserialize_canonical source p bytes e =
    let (t, a, same) = deserialize-inv source p e in
    subst (λ q. serialize q ≡ take (19 + length q.payload + 4) source) (sym same)
      (serialize_read source t bytes a
        ∙ ap (λ k. take (19 + k + 4) source) (sym (payload_length source t bytes a)))
