-- ===== src/Roster/Identity.antt =====
-- src/ControlMessage.cpp: `deserializeClientInfo` on what `serializeClientInfo` wrote.
use naudio.Prelude.{
  ℕ, suc, ◌+◌, ◌-◌, ◌%◌, ◌≤◌, min, ◌≡◌, refl, sym, ap, ◌∙◌, subst, true, false, ◌&&◌, Option, none,
  some, List, [], ◌∷◌, ◌++◌, append_assoc, arith, length, length-take, length-append, take, ltb,
  leb, if◌then◌else◌,
}
use native.Mathlib.Nat.{mod-eq_of_lt}
use naudio.Bytes.{put_u8, put_bytes, Reader, reader, remaining, get_u8}
use naudio.Bytes.Laws.{At, reader-At, remaining-At, get_u8-At, read_bytes-At}
use naudio.Roster.{
  ClientInfo, is_empty, serialize_client_info, put_field, serialize_fields, read_field,
  deserialize_client_info,
}

-- A field on the wire.
abbrev pub framed : List ℕ → List ℕ
framed f = length f ∷ f

pub read_field-At :
    (r : Reader) (f rest : List ℕ)
    → At r (framed f ++ rest)
    → ((read_field r).0 ≡ f) × At (read_field r).1 rest
unfolding read_field
read_field-At r [] rest a = let (n, b, s) = get_u8-At r 0 rest a in rw n (refl, b)
read_field-At r (x ∷ f) rest a =
    let (n, b, s) = get_u8-At r (suc (length f)) ((x ∷ f) ++ rest) a in
    let (bytes, c) = read_bytes-At (get_u8 r).1 (x ∷ f) rest (suc (length f)) refl b in
    rw
      (
        n,
        there (length f) (remaining (get_u8 r).1)
            (remaining-At (get_u8 r).1 b ∙ length-append (x ∷ f) rest),
      )
      (bytes, c)
  where
    there : (n m : ℕ) → m ≡ suc n + length rest → (ltb 0 (suc n) && leb (suc n) m) ≡ true
    there n m e = ground arith

-- What of the three texts fits in 252 bytes.
abbrev pub clamped : ClientInfo → ClientInfo
clamped i =
    let a = min (length i.callsign) 252 in
    let b = min (length i.name) (252 - a) in
    let c = min (length i.location) (252 - a - b) in
    record { callsign = take a i.callsign; name = take b i.name; location = take c i.location }

abbrev pub info_bytes : ClientInfo → List ℕ
info_bytes i = framed i.callsign ++ framed i.name ++ framed i.location

put_field-append :
    (w f : List ℕ) (budget : ℕ)
    → budget ≤ 252
    → put_field w f budget ≡ w ++ framed (take (min (length f) budget) f)
unfolding put_field put_u8 put_bytes
put_field-append w f budget h =
    append_assoc w (len % 256 ∷ []) (take len f)
    ∙ ap (λ n. w ++ n ∷ take len f)
        (mod-eq_of_lt (omega arith) ∙ sym (omega (arith, length-take len f)))
  where
    len : ℕ
    len = min (length f) budget

budgeted :
    (i : ClientInfo) (a b : ℕ)
    → a ≡ min (length i.callsign) 252
    → b ≡ min (length i.name) (252 - a)
    → serialize_fields i
      ≡ put_field
          (put_field (put_field [] i.callsign 252) i.name (252 - a))
          i.location
          (252 - a - b)
unfolding serialize_fields
budgeted i a b e f = rw (f, e) refl

pub serialize_fields_lem : (i : ClientInfo) → serialize_fields i ≡ info_bytes (clamped i)
serialize_fields_lem i =
    budgeted i a b refl refl
    ∙ put_field-append (put_field (put_field [] i.callsign 252) i.name (252 - a)) i.location
        (252 - a - b) (omega arith)
    ∙ ap (λ w. w ++ framed (clamped i).location)
        (put_field-append (put_field [] i.callsign 252) i.name (252 - a) (omega arith)
          ∙ ap (λ w. w ++ framed (clamped i).name)
              (put_field-append [] i.callsign 252 (omega arith)))
  where
    a : ℕ
    a = min (length i.callsign) 252

    b : ℕ
    b = min (length i.name) (252 - a)

-- The bytes fit behind a length of one byte.
pub length-info_bytes :
    (i : ClientInfo)
    → length (info_bytes i) ≡ 3 + length i.callsign + length i.name + length i.location
length-info_bytes i = omega (
  arith,
  length-append (framed i.callsign ++ framed i.name) (framed i.location),
  length-append (framed i.callsign) (framed i.name),
)

pub length-clamped : (i : ClientInfo) → length (info_bytes (clamped i)) ≤ 255
length-clamped i =
    fits (length i.callsign) (length i.name) (length i.location) (length-take _ i.callsign)
      (length-take _ i.name) (length-take _ i.location) (length-info_bytes (clamped i))
  where
    fits :
        (m n k : ℕ) {x y z t : ℕ}
        → x ≡ min (min m 252) m
        → y ≡ min (min n (252 - min m 252)) n
        → z ≡ min (min k (252 - min m 252 - min n (252 - min m 252))) k
        → t ≡ 3 + x + y + z
        → t ≤ 255
    fits m n k e f g h = omega arith

above : (x k : ℕ) → k ≤ x → ltb x k ≡ false
above x k h = ground arith

-- A reader that stands before the fields reads them.
pub info-At :
    (r : Reader) (i : ClientInfo) (rest : List ℕ)
    → At r (info_bytes i ++ rest)
    → deserialize_client_info r ≡ some i
unfolding deserialize_client_info
info-At r i rest a =
    let whole = remaining-At r a in
    let (callsign, b) = read_field-At r i.callsign (framed i.name ++ (framed i.location ++ rest)) (
      subst (At r)
        (append_assoc (framed i.callsign ++ framed i.name) (framed i.location) rest
          ∙ append_assoc (framed i.callsign) (framed i.name) (framed i.location ++ rest))
        a) in
    let (name, c) = read_field-At (read_field r).1 i.name (framed i.location ++ rest) b in
    let (location, d) = read_field-At (read_field (read_field r).1).1 i.location rest c in
    chosen (remaining r) (remaining (read_field r).1) (remaining (read_field (read_field r).1).1)
      (omega (arith, whole, length-append (info_bytes i) rest, length-info_bytes i))
      (omega (arith, remaining-At (read_field r).1 b))
      (omega (arith, remaining-At (read_field (read_field r).1).1 c)) callsign name location
  where
    chosen :
        (x y z : ℕ) {f g h : List ℕ}
        → 3 ≤ x
        → 1 ≤ y
        → 1 ≤ z
        → f ≡ i.callsign
        → g ≡ i.name
        → h ≡ i.location
        → ◌≡◌ {A = Option ClientInfo}
            (if ltb x 3
              then none
              else if ltb y 1
              then some (record { callsign = f; name = []; location = [] })
              else if ltb z 1
              then some (record { callsign = f; name = g; location = [] })
              else some (record { callsign = f; name = g; location = h }))
            (some i)
    chosen x y z {f} {g} {h} big mid last e1 e2 e3 =
        rw (above x 3 big, above y 1 mid, above z 1 last)
          (λ j. some (record { callsign = e1 j; name = e2 j; location = e3 j }))

pub written :
    (i : ClientInfo) → is_empty i ≡ false → serialize_client_info (some i) ≡ serialize_fields i
unfolding serialize_client_info
written i e = rw e refl

-- What `serializeClientInfo` writes for an info that is not empty fits in 255 bytes, and
-- `deserializeClientInfo` reads it back, whatever follows, with each text cut to what the ones before
-- it leave of 252 bytes.
deserialize-serialize_client_info :
    (i : ClientInfo) (rest : List ℕ)
    → is_empty i ≡ false
    → (deserialize_client_info (reader (serialize_client_info (some i) ++ rest)) ≡ some (clamped i))
      × (length (serialize_client_info (some i)) ≤ 255)
deserialize-serialize_client_info i rest e =
    subst
      (λ bytes.
        (deserialize_client_info (reader (bytes ++ rest)) ≡ some (clamped i))
        × (length bytes ≤ 255))
      (sym (written i e ∙ serialize_fields_lem i))
      (
        info-At (reader (info_bytes (clamped i) ++ rest)) (clamped i) rest
            (reader-At (info_bytes (clamped i) ++ rest)),
        length-clamped i,
      )
