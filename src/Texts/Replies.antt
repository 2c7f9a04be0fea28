-- ===== src/Texts/Replies.antt =====
-- DISCOVER_REPLY: what is parsed from what was built.
use naudio.Prelude.{
  ℕ, suc, ◌+◌, ◌/◌, ◌%◌, ◌^◌, ◌<◌, ◌≡◌, refl, sym, ap, ◌∙◌, subst, Bool, true, false, Option, none,
  some, List, [], ◌∷◌, ◌++◌, append-nil, arith, length, length-take, take, ltb, if◌then◌else◌,
}
use native.Mathlib.Nat.{mod-eq_of_lt}
use naudio.Bytes.{
  put_u8, put_u16, put_u32, put_bytes, Reader, reader, remaining, get_u8, get_u16, get_u32,
  read_bytes,
}
use naudio.Bytes.Laws.{
  be, At, reader-At, remaining-At, get_u8-At, get_u16-At, get_u32-At, read_bytes-At,
}
use naudio.Control.{message, same_type, discover_reply}
use naudio.Texts.{DiscoveryInfo, discover_reply_message, read_discover_reply, parse_discover_reply}

-- The fields within their widths on the wire.
pub record IsWireInfo (i : DiscoveryInfo) : Type 0 where
  pub token : i.token < 2 ^ 32
  pub port : i.port < 2 ^ 16
  pub transports : i.transports < 256
  pub sample_rate : i.sample_rate < 2 ^ 32
  pub bits_per_sample : i.bits_per_sample < 256
  pub channels : i.channels < 256
  pub client_count : i.client_count < 256
  pub max_clients : i.max_clients < 256

-- What is read of the name, at a reader that stands before it.
abbrev read_name : Reader → ℕ → List ℕ × Reader
read_name r n = if ltb 0 n then read_bytes r n else ([], r)

name_read :
    (r : Reader) (name : List ℕ)
    → At r name
    → ((read_name r (length name)).0 ≡ name) × ((read_name r (length name)).1.truncated ≡ false)
name_read r [] a = (refl, a.whole)
name_read r (b ∷ name) a =
    let (x, s) =
      read_bytes-At r (b ∷ name) [] (suc (length name)) refl
        (subst (At r) (sym (append-nil (b ∷ name))) a) in
    rw (some_text (length name)) (x, s.whole)
  where
    some_text : (n : ℕ) → ltb 0 (suc n) ≡ true
    some_text n = ground arith

-- The last check, over what was read.
finish :
    (i : DiscoveryInfo) (short truncated : Bool)
    → short ≡ false
    → truncated ≡ false
    → ◌≡◌ {A = Option DiscoveryInfo}
        (if short then none else if truncated then none else some i)
        (some i)
finish i true t e h = absurd (cc)
finish i false true e h = absurd (cc)
finish i false false e h = refl

-- The bytes of the reply, where each number fits its width.
abbrev reply_bytes : DiscoveryInfo → List ℕ
reply_bytes i =
    be 4 i.token
    ++ be 2 i.port
    ++ i.transports ∷ be 4 i.sample_rate
    ++ i.bits_per_sample ∷ i.channels ∷ i.client_count ∷ i.max_clients ∷ length i.name ∷ i.name

module _ (i : DiscoveryInfo) (wire : IsWireInfo i) (short : length i.name < 256) where
  abbrev assembled : Reader → ℕ → ℕ → ℕ → ℕ → ℕ → ℕ → ℕ → ℕ → ℕ → Option DiscoveryInfo
  assembled r t p tr s b c n m k =
      if ltb (remaining r) k
      then none
      else if (read_name r k).1.truncated
      then none
      else some (record {
        token = t;
        port = p;
        transports = tr;
        sample_rate = s;
        bits_per_sample = b;
        channels = c;
        client_count = n;
        max_clients = m;
        name = (read_name r k).0;
      })

  enough : (r : Reader) → At r i.name → ltb (remaining r) (length i.name) ≡ false
  enough r a = within (remaining r) (length i.name) (remaining-At r a)
    where
      within : (x y : ℕ) → x ≡ y → ltb x y ≡ false
      within x y e = ground arith

  complete :
      (r : Reader)
      → At r i.name
      → assembled r i.token i.port i.transports i.sample_rate i.bits_per_sample i.channels
          i.client_count i.max_clients
          (length i.name)
        ≡ some i
  complete r a =
      let (named, whole) = name_read r i.name a in
      finish (record i { name = (read_name r (length i.name)).0 })
        (ltb (remaining r) (length i.name)) (read_name r (length i.name)).1.truncated (enough r a)
        whole
      ∙ ap (λ l. some (record i { name = l })) named

  fields_read : read_discover_reply (reader (reply_bytes i)) ≡ some i
  unfolding read_discover_reply
  fields_read =
      let r1 = (get_u32 (reader (reply_bytes i))).1 in
      let r2 = (get_u16 r1).1 in
      let r3 = (get_u8 r2).1 in
      let r4 = (get_u32 r3).1 in
      let r5 = (get_u8 r4).1 in
      let r6 = (get_u8 r5).1 in
      let r7 = (get_u8 r6).1 in
      let r8 = (get_u8 r7).1 in
      let (e1, a1, k1) =
        get_u32-At i.token (reader (reply_bytes i)) _ wire.token (reader-At (reply_bytes i)) in
      let (e2, a2, k2) = get_u16-At i.port r1 _ wire.port a1 in
      let (e3, a3, k3) = get_u8-At r2 i.transports _ a2 in
      let (e4, a4, k4) = get_u32-At i.sample_rate r3 _ wire.sample_rate a3 in
      let (e5, a5, k5) = get_u8-At r4 i.bits_per_sample _ a4 in
      let (e6, a6, k6) = get_u8-At r5 i.channels _ a5 in
      let (e7, a7, k7) = get_u8-At r6 i.client_count _ a6 in
      let (e8, a8, k8) = get_u8-At r7 i.max_clients _ a7 in
      let (e9, a9, k9) = get_u8-At r8 (length i.name) i.name a8 in
      (λ k. assembled (get_u8 r8).1 (e1 k) (e2 k) (e3 k) (e4 k) (e5 k) (e6 k) (e7 k) (e8 k) (e9 k))
      ∙ complete (get_u8 r8).1 a9

parsed :
    (i : DiscoveryInfo)
    → IsWireInfo i
    → length i.name < 256
    → parse_discover_reply (message discover_reply (reply_bytes i)) ≡ some i
unfolding parse_discover_reply message same_type
parsed i wire short =
    chosen (ltb (length (reply_bytes i)) 16)
      (long (length (reply_bytes i)) (length i.name) (omega arith))
  where
    long : (m n : ℕ) → m ≡ 16 + n → ltb m 16 ≡ false
    long m n e = ground arith

    chosen :
        (b : Bool)
        → b ≡ false
        → (if b then none else read_discover_reply (reader (reply_bytes i))) ≡ some i
    chosen true e = absurd (cc)
    chosen false e = fields_read i wire short

-- A DISCOVER_REPLY whose numbers fit their widths on the wire is parsed back to what it was built
-- from, its name cut to 255 bytes.
pub parse-discover_reply :
    (i : DiscoveryInfo)
    → IsWireInfo i
    → parse_discover_reply (discover_reply_message i) ≡ some (record i { name = take 255 i.name })
unfolding discover_reply_message message put_u8 put_u16 put_u32 put_bytes
parse-discover_reply i wire =
    (λ k. parse_discover_reply (
      message discover_reply (
        shape (low i.port k) (byte wire.transports k) (byte wire.bits_per_sample k)
          (byte wire.channels k) (byte wire.client_count k) (byte wire.max_clients k)
          (byte short k))))
    ∙ parsed clipped kept short
  where
    clipped : DiscoveryInfo
    clipped = record i { name = take 255 i.name }

    short : length (take 255 i.name) < 256
    short = omega (arith, length-take 255 i.name)

    kept : IsWireInfo clipped
    kept = record {
      token = wire.token;
      port = wire.port;
      transports = wire.transports;
      sample_rate = wire.sample_rate;
      bits_per_sample = wire.bits_per_sample;
      channels = wire.channels;
      client_count = wire.client_count;
      max_clients = wire.max_clients;
    }

    low : (u : ℕ) → u % 256 ≡ u / 1 % 256
    low u = omega arith

    byte : {u : ℕ} → u < 256 → u % 256 ≡ u
    byte h = mod-eq_of_lt h

    shape : ℕ → ℕ → ℕ → ℕ → ℕ → ℕ → ℕ → List ℕ
    shape lo t b c n m k =
        be 4 i.token
        ++ i.port / 256 % 256 ∷ lo ∷ t ∷ be 4 i.sample_rate
        ++ b ∷ c ∷ n ∷ m ∷ k ∷ take 255 i.name
