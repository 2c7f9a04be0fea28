-- ===== src/Requests/Walk.antt =====
-- src/ControlMessage.cpp: the bytes of a connect request, and the walk of its parsers over them.
use naudio.Prelude.{
  ℕ, ◌+◌, ◌%◌, ◌≤◌, ◌<◌, ◌≡◌, refl, sym, ap, ap₂, ◌∙◌, false, Option, none, some, List, [], ◌∷◌,
  ◌++◌, append_assoc, arith, length, length-append, ltb, ◌==◌, if◌then◌else◌,
}
use native.Mathlib.Nat.{mod-eq_of_lt}
use naudio.Config.{AudioStreamConfig}
use naudio.Bytes.{put_u8, put_u16, put_bytes, Reader, reader, remaining, set_pos, get_u8}
use naudio.Bytes.Laws.{be, put_u16-append, At, reader-At, remaining-At, get_u8-At, skip-At}
use naudio.Control.{ControlMessage, message, same_type, to_unsigned, connect_request}
use naudio.Roster.{ClientInfo, serialize_client_info}
use naudio.Requests.{put_config, connect_request_full, past_name, past_config}

abbrev pub flag : Option AudioStreamConfig → ℕ
flag none = 0
flag (some c) = 1

abbrev pub fields : Option AudioStreamConfig → List ℕ
fields none = []
fields (some c) =
    be 2 (to_unsigned 16 c.buffer_target_ms)
    ++ be 2 (to_unsigned 16 c.buffer_min_ms)
    ++ be 2 (to_unsigned 16 c.buffer_max_ms)

put_config-append :
    (w : List ℕ) (c : Option AudioStreamConfig) → put_config w c ≡ w ++ (flag c ∷ fields c)
unfolding put_config put_u8
put_config-append w none = refl
put_config-append w (some c) =
    put_u16-append (put_u16 (put_u16 (w ++ 1 ∷ []) t) l) h
    ∙ ap (λ v. v ++ be 2 h)
        (put_u16-append (put_u16 (w ++ 1 ∷ []) t) l
          ∙ ap (λ v. v ++ be 2 l) (put_u16-append (w ++ 1 ∷ []) t))
    ∙ ap (λ v. v ++ be 2 h) (append_assoc (w ++ 1 ∷ []) (be 2 t) (be 2 l))
    ∙ append_assoc (w ++ 1 ∷ []) (be 2 t ++ be 2 l) (be 2 h)
    ∙ append_assoc w (1 ∷ []) (be 2 t ++ be 2 l ++ be 2 h)
  where
    t : ℕ
    t = to_unsigned 16 c.buffer_target_ms

    l : ℕ
    l = to_unsigned 16 c.buffer_min_ms

    h : ℕ
    h = to_unsigned 16 c.buffer_max_ms

-- The bytes of a request, and what may follow.
abbrev pub body : List ℕ → ℕ → Option AudioStreamConfig → List ℕ → List ℕ → List ℕ
body name version c info tail =
    version % 256 ∷ length name ∷ (name ++ (flag c ∷ (fields c ++ (length info ∷ (info ++ tail)))))

pub above : (x k : ℕ) → k ≤ x → ltb x k ≡ false
above x k h = ground arith

pub nonzero : (n : ℕ) → 1 ≤ n → (n == 0) ≡ false
nonzero n h = ground arith

guarded :
    (x j y k : ℕ) (p : ℕ × Reader) {v : ℕ}
    → j ≤ x
    → k ≤ y
    → p.0 ≡ v
    → ◌≡◌ {A = Option (ℕ × Reader)}
        (if ltb x j then none else if ltb y k then none else some p)
        (some (v, p.1))
guarded x j y k p big mid e = rw (above x j big, above y k mid) (λ i. some (e i, p.1))

pub past_name-At :
    (name : List ℕ) (version : ℕ) (c : Option AudioStreamConfig) (info tail : List ℕ)
    → (r : Reader) × (past_name (message connect_request (body name version c info tail))
        ≡ some (flag c, r))
      × At r (fields c ++ (length info ∷ (info ++ tail)))
unfolding past_name message same_type
past_name-At name version c info tail =
    let bytes = body name version c info tail in
    let rest = fields c ++ (length info ∷ (info ++ tail)) in
    let (v, a, same_a) =
      get_u8-At (reader bytes) (version % 256) (length name ∷ (name ++ (flag c ∷ rest)))
        (reader-At bytes) in
    let r0 = (get_u8 (reader bytes)).1 in
    let (n, b, same_b) = get_u8-At r0 (length name) (name ++ (flag c ∷ rest)) a in
    let r1 = (get_u8 r0).1 in
    let s = set_pos r1 (r1.pos + (get_u8 r0).0) in
    let (f, d, same_d) =
      get_u8-At s (flag c) rest (skip-At r1 name (flag c ∷ rest) (get_u8 r0).0 (sym n) b) in
    (
      (get_u8 s).1,
      guarded (length bytes) 3 (remaining r1) ((get_u8 r0).0 + 1) (get_u8 s)
          (omega (arith, length-append name (flag c ∷ rest)))
          (omega (arith, n, remaining-At r1 b, length-append name (flag c ∷ rest))) f,
      d,
    )

pub past_config-At :
    (c : Option AudioStreamConfig) (r : Reader) (n : ℕ) (rest : List ℕ)
    → At r (fields c ++ (n ∷ rest))
    → (s : Reader) × (past_config (flag c) r ≡ some (n, s)) × At s rest
unfolding past_config
past_config-At none r n rest a =
    let (e, b, same) = get_u8-At r n rest a in
    (
      (get_u8 r).1,
      guarded 0 0 (remaining r) 1 (get_u8 r) (omega arith) (omega (arith, remaining-At r a)) e,
      b,
    )
past_config-At (some c) r n rest a =
    let s = set_pos r (r.pos + 6) in
    let at = skip-At r (fields (some c)) (n ∷ rest) 6 refl a in
    let (e, b, same) = get_u8-At s n rest at in
    (
      (get_u8 s).1,
      guarded (remaining r) 6 (remaining s) 1 (get_u8 s) (omega (arith, remaining-At r a))
          (omega (arith, remaining-At s at)) e,
      b,
    )

-- What a parser gets to behind both.
pub walked :
    {A : Type 0} (m : ControlMessage) (f : ℕ → Reader → Option A) (r s : Reader) (k n : ℕ)
    → past_name m ≡ some (k, r)
    → past_config k r ≡ some (n, s)
    → (elim (past_name m) [
      | none ↦ none
      | some (has_config, r') ↦ elim (past_config has_config r') [
        | none ↦ none
        | some (len, r1) ↦ f len r1
      ]
    ])
      ≡ f n s
walked m f r s k n e g = go (past_name m) e
  where
    inner :
        (o : Option (ℕ × Reader))
        → o ≡ some (n, s)
        → (elim o [ none ↦ none | some (len, r1) ↦ f len r1 ]) ≡ f n s
    inner o h = rw h refl

    go :
        (o : Option (ℕ × Reader))
        → o ≡ some (k, r)
        → (elim o [
          | none ↦ none
          | some (has_config, r') ↦ elim (past_config has_config r') [
            | none ↦ none
            | some (len, r1) ↦ f len r1
          ]
        ])
          ≡ f n s
    go o h = rw h (inner (past_config k r) g)

pub request_body :
    (name : List ℕ) (version : ℕ) (c : Option AudioStreamConfig) (info : Option ClientInfo)
    (tail : List ℕ)
    → length name < 256
    → length (serialize_client_info info) < 256
    → (connect_request_full name version c info).data_bytes ++ tail
      ≡ body name version c (serialize_client_info info) tail
unfolding connect_request_full put_u8 put_bytes message
request_body name version c info tail short few =
    ap (λ w. w ++ (length bytes % 256 ∷ []) ++ bytes ++ tail) (put_config-append start c)
    ∙ append_assoc (start ++ config ++ (length bytes % 256 ∷ [])) bytes tail
    ∙ append_assoc (start ++ config) (length bytes % 256 ∷ []) (bytes ++ tail)
    ∙ append_assoc start config (length bytes % 256 ∷ (bytes ++ tail))
    ∙ ap₂ (λ m n. version % 256 ∷ m ∷ (name ++ (config ++ (n ∷ (bytes ++ tail)))))
        (mod-eq_of_lt short) (mod-eq_of_lt few)
  where
    bytes : List ℕ
    bytes = serialize_client_info info

    config : List ℕ
    config = flag c ∷ fields c

    start : List ℕ
    start = put_bytes (put_u8 (put_u8 [] version) (length name)) name
