-- ===== src/Packet/Corruption.antt =====
-- `AudioPacket::deserialize` on a frame with one changed byte.
use native.Mathlib.Decide.{dec_lt, ℕ_discrete}
use naudio.Prelude.{
  ℕ, zero, suc, ◌+◌, ◌-◌, ◌*◌, ◌^◌, ◌≤◌, ◌<◌, ◌≡◌, ◌≢◌, refl, sym, ap, ap₂, ◌∙◌, subst, inl, inr,
  none, some, Option-cases, List, [], ◌∷◌, ◌++◌, append-nil, arith, length, length-append,
  length-take, length-drop, get_or, take, drop,
}
use naudio.Prelude.Segments.{
  take-append_length, drop-append_length, take-append_add, drop-append_add, take-append_le,
  take_all,
}
use naudio.Bytes.Laws.{be}
use naudio.Crc.{crc32}
use naudio.Crc.Bitwise.{AllBytes, AllBytes-append, crc32_lt, crc32_one_byte}
use naudio.Packet.{AudioPacket, put_body, serialize, word16_at, deserialize}
use naudio.Packet.Frame.{
  carried, frame, serialize_lem, IsWire, put_body-AllBytes, be-AllBytes, length-put_body,
}
use naudio.Packet.RoundTrip.{read_length, split_header}
use naudio.Packet.Canonical.{deserialize-inv, deserialize_canonical}

be4-injective : (u v : ℕ) → u < 2 ^ 32 → v < 2 ^ 32 → be 4 u ≡ be 4 v → u ≡ v
be4-injective u v hu hv e = omega (
  arith,
  ap (λ l. get_or l 0 0) e,
  ap (λ l. get_or l 1 0) e,
  ap (λ l. get_or l 2 0) e,
  ap (λ l. get_or l 3 0) e,
)

AllBytes-left : (xs ys : List ℕ) → AllBytes (xs ++ ys) → AllBytes xs
AllBytes-left [] ys h = tt
AllBytes-left (x ∷ xs) ys h = (h.0, AllBytes-left xs ys h.1)

AllBytes-right : (xs ys : List ℕ) → AllBytes (xs ++ ys) → AllBytes ys
AllBytes-right [] ys h = h
AllBytes-right (x ∷ xs) ys h = AllBytes-right xs ys h.1

-- The frame of `h`, read as `xs ++ a ∷ ys`, when `xs` is shorter than `h`.
module _ (h xs ys : List ℕ) (a m : ℕ) (e : frame h ≡ xs ++ a ∷ ys)
    (inside : length h ≡ length xs + suc m) where
  body_inside : h ≡ xs ++ a ∷ take m ys
  body_inside =
      sym (take-append_length h (be 4 (crc32 h)))
      ∙ ap₂ take inside e
      ∙ take-append_add (suc m) xs (a ∷ ys)

  crc_inside : be 4 (crc32 h) ≡ drop m ys
  crc_inside =
      sym (drop-append_length h (be 4 (crc32 h)))
      ∙ ap₂ drop inside e
      ∙ drop-append_add (suc m) xs (a ∷ ys)

body_before :
    (h xs ys : List ℕ) (a : ℕ)
    → frame h ≡ xs ++ a ∷ ys
    → length h ≤ length xs
    → h ≡ take (length h) xs
body_before h xs ys a e short =
    sym (take-append_length h (be 4 (crc32 h)))
    ∙ ap (take (length h)) e
    ∙ take-append_le (length h) xs (a ∷ ys) short

-- Two frames of the same length that differ in one byte are not both sound.
frames_differ :
    (h g xs ys : List ℕ) (a b : ℕ)
    → length h ≡ length g
    → AllBytes h
    → AllBytes g
    → frame h ≡ xs ++ a ∷ ys
    → frame g ≡ xs ++ b ∷ ys
    → a < 256
    → b < 256
    → a ≡ b
frames_differ h g xs ys a b same hh hg e f ha hb = elim (ℕ_discrete a b) [
  | yes q ↦ q
  | no ne ↦ elim (dec_lt (length xs) (length h)) [
    | yes inside ↦
        let m : ℕ = length h - length xs - 1 in
        let in_h : length h ≡ length xs + suc m = omega arith in
        let in_g : length g ≡ length xs + suc m = omega arith in
        let body : h ≡ xs ++ a ∷ take m ys = body_inside h xs ys a m e in_h in
        let bytes : AllBytes (xs ++ a ∷ take m ys) = subst AllBytes body hh in
        let crcs : crc32 h ≡ crc32 g =
          be4-injective _ _ (crc32_lt h hh) (crc32_lt g hg)
            (crc_inside h xs ys a m e in_h ∙ sym (crc_inside g xs ys b m f in_g)) in
        absurd (
          crc32_one_byte xs (take m ys) a b (AllBytes-left xs (a ∷ take m ys) bytes)
            (AllBytes-right xs (a ∷ take m ys) bytes).1 ha hb ne
            (sym (ap crc32 body) ∙ crcs ∙ ap crc32 (body_inside g xs ys b m f in_g)))
    | no outside ↦
        let same_body : h ≡ g =
          body_before h xs ys a e (omega arith)
          ∙ ap (λ k. take k xs) same
          ∙ sym (body_before g xs ys b f (omega arith)) in
        let tails : a ∷ ys ≡ b ∷ ys =
          sym (drop-append_length xs (a ∷ ys))
          ∙ ap (drop (length xs)) (sym e ∙ ap frame same_body ∙ f)
          ∙ drop-append_length xs (b ∷ ys) in
        ap (λ l. get_or l 0 0) tails
  ]
]

get_or-change :
    (i : ℕ) (xs ys : List ℕ) (a b : ℕ)
    → length xs ≢ i
    → get_or (xs ++ a ∷ ys) i 0 ≡ get_or (xs ++ b ∷ ys) i 0
get_or-change zero [] ys a b ne = absurd (ne refl)
get_or-change (suc i) [] ys a b ne = refl
get_or-change zero (x ∷ xs) ys a b ne = refl
get_or-change (suc i) (x ∷ xs) ys a b ne = get_or-change i xs ys a b (λ e. ne (ap suc e))

length_field :
    (p : AudioPacket) (xs ys : List ℕ) (a b : ℕ)
    → IsWire p
    → serialize p ≡ xs ++ a ∷ ys
    → length xs ≢ 17
    → length xs ≢ 18
    → word16_at (xs ++ b ∷ ys) 17 ≡ carried p
length_field p xs ys a b wire e n17 n18 =
    unfold word16_at in
    ap₂ (λ hi lo. hi * 2 ^ 8 + lo) (get_or-change 17 xs ys b a n17) (get_or-change 18 xs ys b a n18)
    ∙ ap (λ l. word16_at l 17) (sym e ∙ sym (append-nil (serialize p)) ∙ split_header p wire [])
    ∙ read_length p wire (take (carried p) p.payload ++ (be 4 (crc32 (put_body p)) ++ []))

length-serialize : (p : AudioPacket) → length (serialize p) ≡ 19 + carried p + 4
length-serialize p =
    ap length (serialize_lem p)
    ∙ omega (arith, length-append (put_body p) (be 4 (crc32 (put_body p))), length-put_body p)

module _ (p : AudioPacket) (xs ys : List ℕ) (a b : ℕ) (q : AudioPacket) (wire : IsWire p)
    (e : serialize p ≡ xs ++ a ∷ ys) (hb : b < 256) (n17 : length xs ≢ 17) (n18 : length xs ≢ 18)
    (accepted : deserialize (xs ++ b ∷ ys) ≡ some q) where
  abbrev damaged : List ℕ
  damaged = xs ++ b ∷ ys

  sent_bytes : AllBytes (xs ++ a ∷ ys)
  sent_bytes = subst AllBytes (sym (serialize_lem p) ∙ e) (
      AllBytes-append (put_body p) (be 4 (crc32 (put_body p))) (put_body-AllBytes p wire.payload)
        (be-AllBytes 4 (crc32 (put_body p))))

  damaged_bytes : AllBytes damaged
  damaged_bytes =
      AllBytes-append xs (b ∷ ys) (AllBytes-left xs (a ∷ ys) sent_bytes)
        (hb, (AllBytes-right xs (a ∷ ys) sent_bytes).1)

  damaged-length : length damaged ≡ 19 + carried p + 4
  damaged-length =
      omega (
        arith,
        length-append xs (b ∷ ys),
        length-append xs (a ∷ ys),
        ap length e,
        length-serialize p,
      )

  payload_length : length q.payload ≡ carried p
  payload_length =
      let (t, checks, same) = deserialize-inv damaged q accepted in
      ap (λ z. length z.payload) same
      ∙ omega (
        arith,
        length-take (word16_at damaged 17) (drop 19 damaged),
        length-drop 19 damaged,
        checks.complete,
      )
      ∙ length_field p xs ys a b wire e n17 n18

  other_frame : frame (put_body q) ≡ damaged
  other_frame =
      sym (serialize_lem q)
      ∙ deserialize_canonical damaged q damaged_bytes accepted
      ∙ take_all (19 + length q.payload + 4) damaged (omega (arith, damaged-length, payload_length))

  other_body : AllBytes (put_body q)
  other_body =
      AllBytes-left (put_body q) (be 4 (crc32 (put_body q)))
        (subst AllBytes (sym other_frame) damaged_bytes)

  never_accepted : a ≡ b
  never_accepted =
      frames_differ (put_body p) (put_body q) xs ys a b
        (omega (arith, length-put_body p, length-put_body q, payload_length))
        (put_body-AllBytes p wire.payload) other_body (sym (serialize_lem p) ∙ e) other_frame
        (AllBytes-right xs (a ∷ ys) sent_bytes).0 hb

-- Change one byte of the frame of a packet to another byte, not one of the two that hold the payload
-- length: the frame is refused.
pub deserialize_corrupted :
    (p : AudioPacket) (xs ys : List ℕ) (a b : ℕ)
    → IsWire p
    → serialize p ≡ xs ++ a ∷ ys
    → b < 256
    → b ≢ a
    → length xs ≢ 17
    → length xs ≢ 18
    → deserialize (xs ++ b ∷ ys) ≡ none
deserialize_corrupted p xs ys a b wire e hb ne n17 n18 =
    elim (Option-cases (deserialize (xs ++ b ∷ ys))) [
      | inl refused ↦ refused
      | inr (q, accepted) ↦
          absurd (ne (sym (never_accepted p xs ys a b q wire e hb n17 n18 accepted)))
    ]
