-- ===== src/Fec/Block.antt =====
-- `FecEncoder`: what a whole block emits.
use naudio.Prelude.{
  ℕ, suc, ◌+◌, ◌-◌, ◌≤◌, ◌<◌, max, ◌≡◌, refl, ap, ◌∙◌, Bool, true, false, Option, none, some, List,
  [], ◌∷◌, ◌++◌, append_assoc, map, arith, length, length-append, replicate, ltb, leb,
  if◌then◌else◌,
}
use naudio.Packet.{AudioPacket}
use naudio.Fec.{Encoder, build_parity_packet, reset, opened, recorded, record_and_maybe_emit}

-- What the encoder hands back for one packet after the other.
abbrev pub feed : ℕ → List AudioPacket → Encoder → List (Option AudioPacket) × Encoder
feed now [] e = ([], e)
feed now (p ∷ ps) e =
    let (out, s) = record_and_maybe_emit now p e in let (outs, t) = feed now ps s in (out ∷ outs, t)

abbrev pub payloads_of : List AudioPacket → List (List ℕ)
payloads_of ps = map (λ p. p.payload) ps

abbrev pub longest_from : ℕ → List AudioPacket → ℕ
longest_from n [] = n
longest_from n (p ∷ ps) = longest_from (max n (length p.payload)) ps

abbrev pub last_sequence : ℕ → List AudioPacket → ℕ
last_sequence n [] = n
last_sequence n (p ∷ ps) = last_sequence p.sequence ps

-- The state in an unfinished block: nonempty payloads.
module _ (now block_size start : ℕ) where
  abbrev inside : ℕ → List (List ℕ) → Encoder
  inside longest payloads = record {
    block_size = block_size;
    payloads = payloads;
    start_sequence = start;
    max_payload_len = longest;
  }

  recorded_inside :
      (p : AudioPacket) (q : List ℕ) (qs : List (List ℕ)) (longest : ℕ)
      → recorded p (inside longest (q ∷ qs))
        ≡ inside (max longest (length p.payload)) ((q ∷ qs) ++ p.payload ∷ [])
  unfolding recorded opened
  recorded_inside p q qs longest =
      ap (λ n. inside n ((q ∷ qs) ++ p.payload ∷ [])) (larger longest (length p.payload))
    where
      larger : (a b : ℕ) → (if ltb a b then b else a) ≡ max a b
      larger a b = ground arith

  abbrev choose : Bool → ℕ → Encoder → Option AudioPacket × Encoder
  choose true last r = (some (build_parity_packet now last r), reset r)
  choose false last r = (none, r)

  decided :
      (p : AudioPacket) (e : Encoder)
      → record_and_maybe_emit now p e
        ≡ choose
            (leb (recorded p e).block_size (length (recorded p e).payloads))
            p.sequence
            (recorded p e)
  unfolding record_and_maybe_emit
  decided p e = pick (leb (recorded p e).block_size (length (recorded p e).payloads)) (recorded p e)
    where
      pick :
          (b : Bool) (r : Encoder)
          → ◌≡◌ {A = Option AudioPacket × Encoder}
              (if b then (some (build_parity_packet now p.sequence r), reset r) else (none, r))
              (choose b p.sequence r)
      pick true r = refl
      pick false r = refl

  abbrev grown : AudioPacket → ℕ → List ℕ → List (List ℕ) → Encoder
  grown p longest q qs = inside (max longest (length p.payload)) ((q ∷ qs) ++ p.payload ∷ [])

  stepped :
      (p : AudioPacket) (q : List ℕ) (qs : List (List ℕ)) (longest : ℕ) (full : Bool)
      → leb block_size (length ((q ∷ qs) ++ p.payload ∷ [])) ≡ full
      → record_and_maybe_emit now p (inside longest (q ∷ qs))
        ≡ choose full p.sequence (grown p longest q qs)
  stepped p q qs longest full h =
      decided p (inside longest (q ∷ qs))
      ∙ ap (λ r. choose (leb r.block_size (length r.payloads)) p.sequence r)
          (recorded_inside p q qs longest)
      ∙ ap (λ b. choose b p.sequence (grown p longest q qs)) h

  step_more :
      (p : AudioPacket) (q : List ℕ) (qs : List (List ℕ)) (longest : ℕ)
      → length (q ∷ qs) + 1 < block_size
      → record_and_maybe_emit now p (inside longest (q ∷ qs))
        ≡ choose false p.sequence (grown p longest q qs)
  step_more p q qs longest h =
      stepped p q qs longest false
        (below block_size _ (omega (arith, length-append (q ∷ qs) (p.payload ∷ []))))
    where
      below : (a b : ℕ) → b < a → leb a b ≡ false
      below a b h = ground arith

  step_full :
      (p : AudioPacket) (q : List ℕ) (qs : List (List ℕ)) (longest : ℕ)
      → length (q ∷ qs) + 1 ≡ block_size
      → record_and_maybe_emit now p (inside longest (q ∷ qs))
        ≡ choose true p.sequence (grown p longest q qs)
  step_full p q qs longest h =
      stepped p q qs longest true
        (reached block_size _ (omega (arith, length-append (q ∷ qs) (p.payload ∷ []))))
    where
      reached : (a b : ℕ) → a ≤ b → leb a b ≡ true
      reached a b h = ground arith

  -- The packets after the first, up to the one that fills the block.
  rest_fed :
      (ps : List AudioPacket) (q : List ℕ) (qs : List (List ℕ)) (longest last : ℕ)
      → length (q ∷ qs) + length ps ≡ block_size
      → 0 < length ps
      → (feed now ps (inside longest (q ∷ qs))).0
        ≡ replicate (length ps - 1) none
          ++ some (
              build_parity_packet now
                (last_sequence last ps)
                (inside (longest_from longest ps) ((q ∷ qs) ++ payloads_of ps)))
            ∷ []
  rest_fed [] q qs longest last full some_left = absurd (omega arith)
  rest_fed (p ∷ []) q qs longest last full some_left =
      ap (λ x. x.0 ∷ []) (step_full p q qs longest full)
  rest_fed (p ∷ r ∷ ps) q qs longest last full some_left =
      ap (λ x. x.0 ∷ (feed now (r ∷ ps) x.1).0) (step_more p q qs longest (omega arith))
      ∙ ap (λ t. none ∷ t)
          (rest_fed (r ∷ ps) q (qs ++ p.payload ∷ []) (max longest (length p.payload)) p.sequence
              (omega (arith, length-append qs (p.payload ∷ []))) (omega arith)
            ∙ ap
                (λ l.
                  replicate (length (r ∷ ps) - 1) none
                  ++ some (
                      build_parity_packet now (last_sequence p.sequence (r ∷ ps))
                        (inside (longest_from (max longest (length p.payload)) (r ∷ ps)) (q ∷ l)))
                    ∷ [])
                (append_assoc qs (p.payload ∷ []) (payloads_of (r ∷ ps))))
      ∙ ap
          (λ k.
            k
            ++ some (
                build_parity_packet now (last_sequence p.sequence (r ∷ ps)) (
                  inside (longest_from (max longest (length p.payload)) (r ∷ ps))
                    ((q ∷ qs) ++ payloads_of (p ∷ r ∷ ps))))
              ∷ [])
          (ap (λ k. replicate k none) (one_more (length ps)))
    where
      one_more : (n : ℕ) → suc (suc n - 1) ≡ suc (suc n) - 1
      one_more n = omega arith

  rest_settles :
      (ps : List AudioPacket) (q : List ℕ) (qs : List (List ℕ)) (longest : ℕ)
      → length (q ∷ qs) + length ps ≡ block_size
      → 0 < length ps
      → (feed now ps (inside longest (q ∷ qs))).1.payloads ≡ []
  unfolding reset
  rest_settles [] q qs longest full some_left = absurd (omega arith)
  rest_settles (p ∷ []) q qs longest full some_left =
      ap (λ x. x.1.payloads) (step_full p q qs longest full)
  rest_settles (p ∷ r ∷ ps) q qs longest full some_left =
      ap (λ x. (feed now (r ∷ ps) x.1).1.payloads) (step_more p q qs longest (omega arith))
      ∙ rest_settles (r ∷ ps) q (qs ++ p.payload ∷ []) (max longest (length p.payload))
          (omega (arith, length-append qs (p.payload ∷ []))) (omega arith)

opened_block :
    (p : AudioPacket) (e : Encoder)
    → recorded p (record e { payloads = [] }) ≡ record e {
      payloads = p.payload ∷ [];
      start_sequence = p.sequence;
      max_payload_len = max 0 (length p.payload);
    }
unfolding recorded opened
opened_block p e =
    ap
      (λ n. record e {
        payloads = p.payload ∷ [];
        start_sequence = p.sequence;
        max_payload_len = n;
      })
      (larger 0 (length p.payload))
  where
    larger : (a b : ℕ) → (if ltb a b then b else a) ≡ max a b
    larger a b = ground arith

-- The parity packet for a block of packets.
abbrev pub parity_for : ℕ → ℕ → AudioPacket → List AudioPacket → AudioPacket
parity_for now block_size p ps =
    build_parity_packet now (last_sequence p.sequence ps)
      (inside now block_size p.sequence (longest_from 0 (p ∷ ps)) (payloads_of (p ∷ ps)))

-- The first packet of a block.
first_fed :
    (now : ℕ) (e : Encoder) (p : AudioPacket)
    → e.payloads ≡ []
    → 2 ≤ e.block_size
    → record_and_maybe_emit now p e
      ≡ choose now e.block_size p.sequence false p.sequence
          (inside now e.block_size p.sequence (max 0 (length p.payload)) (p.payload ∷ []))
first_fed now e p empty two =
    decided now e.block_size p.sequence p e
    ∙ ap
        (λ r.
          choose now e.block_size p.sequence (leb r.block_size (length r.payloads)) p.sequence r)
        opening
    ∙ ap
        (λ b.
          choose now e.block_size p.sequence b p.sequence
            (inside now e.block_size p.sequence (max 0 (length p.payload)) (p.payload ∷ [])))
        (below e.block_size two)
  where
    opening :
        recorded p e
        ≡ inside now e.block_size p.sequence (max 0 (length p.payload)) (p.payload ∷ [])
    opening = ap (λ l. recorded p (record e { payloads = l })) empty ∙ opened_block p e

    below : (n : ℕ) → 2 ≤ n → leb n 1 ≡ false
    below n h = ground arith

-- What the packets of a block bring: the parity packet with the last one.
pub fed_block :
    (now : ℕ) (e : Encoder) (p : AudioPacket) (ps : List AudioPacket)
    → e.payloads ≡ []
    → 2 ≤ e.block_size
    → length (p ∷ ps) ≡ e.block_size
    → (feed now (p ∷ ps) e).0
      ≡ replicate (length ps) none ++ some (parity_for now e.block_size p ps) ∷ []
fed_block now e p ps empty two full =
    ap (λ x. x.0 ∷ (feed now ps x.1).0) (first_fed now e p empty two)
    ∙ ap (λ t. none ∷ t)
        (rest_fed now e.block_size p.sequence ps p.payload [] (max 0 (length p.payload)) p.sequence
          (omega arith) (omega arith))
    ∙ ap (λ k. k ++ some (parity_for now e.block_size p ps) ∷ [])
        (ap (λ k. replicate k none) (one_more (length ps) (omega arith)))
  where
    one_more : (n : ℕ) → 0 < n → suc (n - 1) ≡ n
    one_more n h = omega arith

-- Behind them the encoder is between two blocks again.
pub fed_settles :
    (now : ℕ) (e : Encoder) (p : AudioPacket) (ps : List AudioPacket)
    → e.payloads ≡ []
    → 2 ≤ e.block_size
    → length (p ∷ ps) ≡ e.block_size
    → (feed now (p ∷ ps) e).1.payloads ≡ []
fed_settles now e p ps empty two full =
    ap (λ x. (feed now ps x.1).1.payloads) (first_fed now e p empty two)
    ∙ rest_settles now e.block_size p.sequence ps p.payload [] (max 0 (length p.payload))
        (omega arith) (omega arith)
