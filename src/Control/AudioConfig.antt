-- ===== src/Control/AudioConfig.antt =====
-- `ControlMessage::audioConfig` and `applyAudioConfigTo`.
use native.Mathlib.Nat.{mod-eq_of_lt, zero-mod, add-mod_right}
use naudio.Prelude.{
  ℕ, ◌+◌, ◌-◌, ◌/◌, ◌%◌, ◌^◌, ◌<◌, ◌≡◌, sym, ap, ◌∙◌, subst, some, List, [], ◌∷◌, ◌++◌, arith,
}
use naudio.Prelude.Int.{ℤ, pos, pos_part, neg_part}
use naudio.Prelude.Word.{signed32}
use naudio.Config.{AudioStreamConfig}
use naudio.Bytes.{put_u8, put_u16, put_u32, Reader, reader, get_u8, get_u16, get_u32}
use naudio.Bytes.Laws.{be, At, reader-At, get_u8-At, get_u16-At, get_u32-At}
use naudio.Control.{
  message, same_type, audio_config, to_unsigned, audio_config_message, apply_buffers,
  apply_audio_config_to,
}

-- The fields of the configuration that the message carries, where the wire's width holds them.
abbrev pub InRange : ℕ → ℤ → Type 0
InRange w z = (neg_part z ≡ 0) × (pos_part z < 2 ^ w)

pub record IsWireConfig (c : AudioStreamConfig) : Type 0 where
  pub rate : InRange 31 c.sample_rate
  pub bits : InRange 8 c.bits_per_sample
  pub channels : InRange 8 c.channels
  pub frame : InRange 16 c.frame_duration_ms
  pub target : InRange 16 c.buffer_target_ms
  pub low : InRange 16 c.buffer_min_ms
  pub high : InRange 16 c.buffer_max_ms

to_unsigned_lem : (w : ℕ) (z : ℤ) → InRange w z → to_unsigned w z ≡ pos_part z
unfolding to_unsigned
to_unsigned_lem w z h = plain (2 ^ w) (pos_part z) (neg_part z) h.0 h.1
  where
    plain : (p a b : ℕ) → b ≡ 0 → a < p → (a + (p - b % p)) % p ≡ a
    plain p a b e h =
        ap (λ k. (a + (p - k)) % p) (ap (λ k. k % p) e ∙ zero-mod p)
        ∙ ap (λ k. (a + k) % p) (whole p)
        ∙ add-mod_right a p
        ∙ mod-eq_of_lt h
      where
        whole : (p : ℕ) → p - 0 ≡ p
        whole p = omega arith

restored : (w : ℕ) (z : ℤ) → InRange w z → pos (to_unsigned w z) ≡ z
restored w z h = ap pos (to_unsigned_lem w z h) ∙ sign z h.0
  where
    sign : (z : ℤ) → neg_part z ≡ 0 → pos (pos_part z) ≡ z
    sign z h = ground arith

-- The two bytes of a 16-bit field.
abbrev pair : ℕ → List ℕ
pair u = u / 256 % 256 ∷ u % 256 ∷ []

get_pair-At :
    (u : ℕ) (r : Reader) (xs : List ℕ)
    → u < 2 ^ 16
    → At r (pair u ++ xs)
    → ((get_u16 r).0 ≡ u) × At (get_u16 r).1 xs × ((get_u16 r).1.source ≡ r.source)
get_pair-At u r xs h a = get_u16-At u r xs h (subst (λ l. At r (l ++ xs)) (two_bytes u) a)
  where
    low : (u : ℕ) → u % 256 ≡ u / 1 % 256
    low u = omega arith

    two_bytes : (u : ℕ) → pair u ≡ be 2 u
    two_bytes u = ap (λ x. u / 256 % 256 ∷ x ∷ []) (low u)

-- The bytes of the fields, and what the parser's reads give on them.
module _ (rate bits channels frame target low high : ℕ) (rate_fits : rate < 2 ^ 32)
    (bits_fits : bits < 256) (channels_fits : channels < 256) (frame_fits : frame < 2 ^ 16)
    (target_fits : target < 2 ^ 16) (low_fits : low < 2 ^ 16) (high_fits : high < 2 ^ 16) where
  abbrev buffers : List ℕ
  buffers = pair target ++ pair low ++ pair high ++ []

  abbrev fields : List ℕ
  fields = be 4 rate ++ bits ∷ channels ∷ pair frame ++ buffers

  buffers_read :
      (r : Reader) (c : AudioStreamConfig)
      → At r buffers
      → apply_buffers r c ≡ record c {
        buffer_target_ms = pos target;
        buffer_min_ms = pos low;
        buffer_max_ms = pos high;
      }
  unfolding apply_buffers
  buffers_read r c a =
      let (x, b, m) = get_pair-At target r (pair low ++ pair high ++ []) target_fits a in
      let (y, d, n) = get_pair-At low (get_u16 r).1 (pair high ++ []) low_fits b in
      let (z, e, o) = get_pair-At high (get_u16 (get_u16 r).1).1 [] high_fits d in
      ap
        (λ k. record c {
          buffer_target_ms = pos k;
          buffer_min_ms = pos (get_u16 (get_u16 r).1).0;
          buffer_max_ms = pos (get_u16 (get_u16 (get_u16 r).1).1).0;
        })
        x
      ∙ ap
          (λ k. record c {
            buffer_target_ms = pos target;
            buffer_min_ms = pos k;
            buffer_max_ms = pos (get_u16 (get_u16 (get_u16 r).1).1).0;
          })
          y
      ∙ ap
          (λ k. record c {
            buffer_target_ms = pos target;
            buffer_min_ms = pos low;
            buffer_max_ms = pos k;
          })
          z

  abbrev formatted : AudioStreamConfig → ℕ → ℕ → ℕ → ℕ → AudioStreamConfig
  formatted d s b c f = record d {
    sample_rate = signed32 s;
    bits_per_sample = pos b;
    channels = pos c;
    frame_duration_ms = pos f;
  }

  formatted_ap :
      (d : AudioStreamConfig) {s b c f : ℕ}
      → s ≡ rate
      → b ≡ bits
      → c ≡ channels
      → f ≡ frame
      → formatted d s b c f ≡ formatted d rate bits channels frame
  formatted_ap d {s} {b} {c} {f} w x y z =
      ap (λ k. formatted d k b c f) w
      ∙ ap (λ k. formatted d rate k c f) x
      ∙ ap (λ k. formatted d rate bits k f) y
      ∙ ap (λ k. formatted d rate bits channels k) z

  abbrev settled : AudioStreamConfig → AudioStreamConfig
  settled c = record c {
    buffer_target_ms = pos target;
    buffer_min_ms = pos low;
    buffer_max_ms = pos high;
  }

  fields_read :
      (d : AudioStreamConfig)
      → apply_audio_config_to (message audio_config fields) d
        ≡ some (settled (formatted d rate bits channels frame))
  unfolding apply_audio_config_to message same_type
  fields_read d =
      let r1 = (get_u32 (reader fields)).1 in
      let r2 = (get_u8 r1).1 in
      let r3 = (get_u8 r2).1 in
      let (w, a, k) =
        get_u32-At rate (reader fields) (bits ∷ channels ∷ pair frame ++ buffers) rate_fits
          (reader-At fields) in
      let (x, b, l) = get_u8-At r1 bits (channels ∷ pair frame ++ buffers) a in
      let (y, e, m) = get_u8-At r2 channels (pair frame ++ buffers) b in
      let (z, g, n) = get_pair-At frame r3 buffers frame_fits e in
      ap some (
        buffers_read (get_u16 r3).1
          (formatted d (get_u32 (reader fields)).0 (get_u8 r1).0 (get_u8 r2).0 (get_u16 r3).0) g
        ∙ ap settled (formatted_ap d w x y z))

fits : (w : ℕ) (z : ℤ) → InRange w z → to_unsigned w z < 2 ^ w
fits w z h = subst (λ n. n < 2 ^ w) (sym (to_unsigned_lem w z h)) h.1

byte_restored : (z : ℤ) → InRange 8 z → pos (to_unsigned 8 z % 256) ≡ z
byte_restored z h = ap pos (mod-eq_of_lt (fits 8 z h)) ∙ restored 8 z h

rate_range : (z : ℤ) → InRange 31 z → InRange 32 z
rate_range z h = (h.0, omega (arith, h.1))

rate_restored : (z : ℤ) → InRange 31 z → signed32 (to_unsigned 32 z) ≡ z
rate_restored z h = ap signed32 (to_unsigned_lem 32 z (rate_range z h)) ∙ signed z h
  where
    signed : (z : ℤ) → InRange 31 z → signed32 (pos_part z) ≡ z
    signed z h = ground (arith, h)

byte_fits : (n : ℕ) → n % 256 < 256
byte_fits n = omega arith

-- An AUDIO_CONFIG that is built from a configuration whose fields fit their widths in the message,
-- applied to any other configuration, sets the rate, the sample size, the channels, the frame and
-- the three buffer levels to those it was built from, and nothing else.
pub apply-audio_config :
    (c d : AudioStreamConfig)
    → IsWireConfig c
    → apply_audio_config_to (audio_config_message c) d
      ≡ some (record d {
        sample_rate = c.sample_rate;
        bits_per_sample = c.bits_per_sample;
        channels = c.channels;
        frame_duration_ms = c.frame_duration_ms;
        buffer_target_ms = c.buffer_target_ms;
        buffer_min_ms = c.buffer_min_ms;
        buffer_max_ms = c.buffer_max_ms;
      })
unfolding audio_config_message message put_u8 put_u16 put_u32
apply-audio_config c d wire =
    fields_read (to_unsigned 32 c.sample_rate) (to_unsigned 8 c.bits_per_sample % 256)
      (to_unsigned 8 c.channels % 256) (to_unsigned 16 c.frame_duration_ms)
      (to_unsigned 16 c.buffer_target_ms) (to_unsigned 16 c.buffer_min_ms)
      (to_unsigned 16 c.buffer_max_ms) (fits 32 c.sample_rate (rate_range c.sample_rate wire.rate))
      (byte_fits (to_unsigned 8 c.bits_per_sample)) (byte_fits (to_unsigned 8 c.channels))
      (fits 16 c.frame_duration_ms wire.frame) (fits 16 c.buffer_target_ms wire.target)
      (fits 16 c.buffer_min_ms wire.low) (fits 16 c.buffer_max_ms wire.high) d
    ∙ ap some (
        with_all (rate_restored c.sample_rate wire.rate) (byte_restored c.bits_per_sample wire.bits)
          (byte_restored c.channels wire.channels) (restored 16 c.frame_duration_ms wire.frame)
          (restored 16 c.buffer_target_ms wire.target) (restored 16 c.buffer_min_ms wire.low)
          (restored 16 c.buffer_max_ms wire.high))
  where
    with : ℤ → ℤ → ℤ → ℤ → ℤ → ℤ → ℤ → AudioStreamConfig
    with r b n f t l h = record d {
      sample_rate = r;
      bits_per_sample = b;
      channels = n;
      frame_duration_ms = f;
      buffer_target_ms = t;
      buffer_min_ms = l;
      buffer_max_ms = h;
    }

    with_all :
        {r b n f t l h : ℤ} {r' b' n' f' t' l' h' : ℤ}
        → r ≡ r'
        → b ≡ b'
        → n ≡ n'
        → f ≡ f'
        → t ≡ t'
        → l ≡ l'
        → h ≡ h'
        → with r b n f t l h ≡ with r' b' n' f' t' l' h'
    with_all e1 e2 e3 e4 e5 e6 e7 i = with (e1 i) (e2 i) (e3 i) (e4 i) (e5 i) (e6 i) (e7 i)
