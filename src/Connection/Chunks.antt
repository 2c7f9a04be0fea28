-- ===== src/Connection/Chunks.antt =====
-- src/net/UdpClientConnection.cpp: one round of `sendAudioChunked`.
use naudio.Prelude.{
  by_test, ℕ, ◌≤◌, ◌≡◌, refl, sym, ◌∙◌, subst, ◌⊎◌, inl, inr, Bool, true, false, Option, none, some,
  List, [], ◌∷◌, ◌++◌, length,
}
use naudio.Prelude.Word.{add_u32}
use naudio.Packet.{AudioPacket, PacketType, create, serialize, deserialize}
use naudio.Connection.{
  Connection, Clocks, next_sequence, send_packet, maybe_send_fec_parity, send_chunk,
}

-- What the peer reads from datagrams.
abbrev pub opened : List (List ℕ) → Option (List AudioPacket)
opened [] = some []
opened (d ∷ ds) = elim (deserialize d) [
  | none ↦ none
  | some p ↦ elim (opened ds) [ none ↦ none | some ps ↦ some (p ∷ ps) ]
]

pub opened-cons :
    (d : List ℕ) (ds : List (List ℕ)) {p : AudioPacket} {ps : List AudioPacket}
    → deserialize d ≡ some p
    → opened ds ≡ some ps
    → opened (d ∷ ds) ≡ some (p ∷ ps)
opened-cons d ds {p} {ps} e es = both (deserialize d) (opened ds) e es
  where
    both :
        (o : Option AudioPacket) (os : Option (List AudioPacket))
        → o ≡ some p
        → os ≡ some ps
        → (elim o [ none ↦ none | some q ↦ elim os [ none ↦ none | some qs ↦ some (q ∷ qs) ] ])
          ≡ some (p ∷ ps)
    both o os f fs = rw (f, fs) refl

abbrev pub payloads : List AudioPacket → List ℕ
payloads [] = []
payloads (p ∷ ps) = p.payload ++ payloads ps

-- Packets of one type with consecutive sequence numbers from `seq` on, none with more than `most`
-- bytes.
abbrev pub Numbered : PacketType → ℕ → ℕ → List AudioPacket → Type 0
Numbered type most seq [] = Unit {0}
Numbered type most seq (p ∷ ps) =
    (p.packet_type ≡ type)
    × (length p.payload ≤ most)
    × (p.sequence ≡ seq)
    × Numbered type most (add_u32 seq 1) ps

pub off_part :
    {A B : Type 0} (o : Option A) (x : B) (f : A → B)
    → o ≡ none
    → (elim o [ none ↦ x | some a ↦ f a ]) ≡ x
off_part none x f e = refl
off_part (some a) x f e = absurd (cc)

module _ (takes : ℕ → Bool) where
  -- Why a send fails.
  abbrev pub Refused : Connection → Type 0
  Refused c = (c.closed ≡ true) ⊎ ((n : ℕ) × (takes n ≡ false))

  -- What a send leaves.
  pub record Round (p : AudioPacket) (c : Connection) (r : Bool × Connection) : Type 0 where
    pub same_payload : r.1.max_audio_payload ≡ c.max_audio_payload
    pub same_encoder : r.1.fec_encoder ≡ c.fec_encoder
    pub same_closed : r.1.closed ≡ c.closed
    pub same_counter : r.1.sequence_counter ≡ c.sequence_counter
    pub result :
        ((r.0 ≡ true) × (r.1.wire ≡ c.wire ++ serialize p ∷ []))
        ⊎ ((r.0 ≡ false) × (r.1.wire ≡ c.wire) × Refused c)

  send_packet-Round :
      (t : Clocks) (p : AudioPacket) (c : Connection) → Round p c (send_packet takes t p c)
  unfolding send_packet
  send_packet-Round t p c =
      by_test (Round p c) c.closed
        (λ shut. record {
          same_payload = refl;
          same_encoder = refl;
          same_closed = refl;
          same_counter = refl;
          result = inr (refl, refl, inl shut);
        })
        (λ open_.
          by_test (Round p c) (takes c.send_count)
            (λ taken. record {
              same_payload = refl;
              same_encoder = refl;
              same_closed = refl;
              same_counter = refl;
              result = inl (refl, refl);
            })
            (λ refused. record {
              same_payload = refl;
              same_encoder = refl;
              same_closed = refl;
              same_counter = refl;
              result = inr (refl, refl, inr (c.send_count, refused));
            }))

  pub no_parity :
      (t : Clocks) (p : AudioPacket) (c : Connection)
      → c.fec_encoder ≡ none
      → maybe_send_fec_parity takes t p c ≡ c
  unfolding maybe_send_fec_parity
  no_parity t p c off = off_part c.fec_encoder c _ off

  pub send_chunk-Round :
      (t : Clocks) (type : PacketType) (chunk : List ℕ) (c : Connection)
      → c.fec_encoder ≡ none
      → Round
          (create t.stamp type c.sequence_counter chunk)
          (record c { sequence_counter = add_u32 c.sequence_counter 1 })
          (send_chunk takes t type chunk c)
  unfolding send_chunk next_sequence
  send_chunk-Round t type chunk c off =
      let p = create t.stamp type c.sequence_counter chunk in
      let c1 : Connection = record c { sequence_counter = add_u32 c.sequence_counter 1 } in
      let sent = send_packet-Round t p c1 in
      let r = send_packet takes t p c1 in
      subst (λ c2. Round p c1 (r.0, c2)) (sym (no_parity t p r.1 (sent.same_encoder ∙ off))) sent
