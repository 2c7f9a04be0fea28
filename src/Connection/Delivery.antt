-- ===== src/Connection/Delivery.antt =====
-- src/net/UdpClientConnection.cpp: the rounds of `sendAudioChunked`, as the peer reads them.
use naudio.Prelude.{
  by_test, ℕ, zero, suc, ◌^◌, ◌≤◌, ◌<◌, min, ◌≡◌, refl, sym, ap, ◌∙◌, subst, ◌⊎◌, inl, inr, Bool,
  true, false, none, some, List, [], ◌∷◌, ◌++◌, append_assoc, arith, length, take, drop, ltb,
  length-take, length-drop, append-nil, take-append-drop, ltb→lt,
}
use naudio.Prelude.Word.{add_u32}
use naudio.Config.{max_payload}
use naudio.Packet.{AudioPacket, PacketType, create, serialize, deserialize}
use naudio.Packet.Frame.{IsWire, take-AllBytes, drop-AllBytes}
use naudio.Crc.Bitwise.{AllBytes}
use naudio.Prelude.Segments.{take_all}
use naudio.Packet.RoundTrip.{deserialize-serialize}
use naudio.Connection.{Connection, Clocks, send_chunk, send_rounds, send_audio_chunked}
use naudio.Connection.Chunks.{
  opened, opened-cons, payloads, Numbered, Refused, Round, send_chunk-Round,
}

-- The bytes and the counters are within the C++ types.
pub record Sendable (t : Clocks) (bytes : List ℕ) (c : Connection) : Type 0 where
  pub no_encoder : c.fec_encoder ≡ none
  pub some_payload : 1 ≤ c.max_audio_payload
  pub payload_fits : c.max_audio_payload ≤ max_payload
  pub counter : c.sequence_counter < 2 ^ 32
  pub stamp : t.stamp < 2 ^ 64
  pub all_bytes : AllBytes bytes

module _ (takes : ℕ → Bool) where
  -- What a run of rounds leaves, for the bytes it was given.
  pub record Delivered (type : PacketType) (bytes : List ℕ) (c : Connection) (r : Bool × Connection)
      : Type 0 where
    pub datagrams : List (List ℕ)
    pub packets : List AudioPacket
    pub rest : List ℕ
    pub on_wire : r.1.wire ≡ c.wire ++ datagrams
    pub read_back : opened datagrams ≡ some packets
    pub in_order : Numbered type c.max_audio_payload c.sequence_counter packets
    pub split : payloads packets ++ rest ≡ bytes
    pub result : ((r.0 ≡ true) × (rest ≡ [])) ⊎ ((r.0 ≡ false) × Refused takes c)

  module _ (t : Clocks) (type : PacketType) where
    chunk-read :
        (n : ℕ) (bytes : List ℕ) (c : Connection)
        → n ≤ c.max_audio_payload
        → Sendable t bytes c
        → deserialize (serialize (create t.stamp type c.sequence_counter (take n bytes)))
          ≡ some (create t.stamp type c.sequence_counter (take n bytes))
    unfolding create
    chunk-read n bytes c few h =
        ap deserialize (sym (append-nil (serialize p)))
        ∙ deserialize-serialize p [] wire
        ∙ ap (λ l. some (record p { payload = l })) whole
      where
        p : AudioPacket
        p = create t.stamp type c.sequence_counter (take n bytes)

        wire : IsWire p
        wire = record {
          version = omega arith;
          flags = omega arith;
          sequence = h.counter;
          timestamp = h.stamp;
          payload = take-AllBytes n bytes h.all_bytes;
        }

        whole : take (min (length (take n bytes)) max_payload) (take n bytes) ≡ take n bytes
        whole = take_all _ (take n bytes) (omega (arith, length-take n bytes, few, h.payload_fits))

    none_sent :
        (bytes : List ℕ) (c : Connection) (r : Bool × Connection)
        → r.0 ≡ false
        → r.1.wire ≡ c.wire
        → Refused takes c
        → Delivered type bytes c r
    none_sent bytes c r failed same why = record {
      datagrams = [];
      packets = [];
      rest = bytes;
      on_wire = same ∙ sym (append-nil c.wire);
      read_back = refl;
      in_order = tt;
      split = refl;
      result = inr (failed, why);
    }

    all_sent : (left : List ℕ) (c : Connection) → left ≡ [] → Delivered type left c (true, c)
    all_sent left c none_left = record {
      datagrams = [];
      packets = [];
      rest = [];
      on_wire = sym (append-nil c.wire);
      read_back = refl;
      in_order = tt;
      split = sym none_left;
      result = inl (refl, refl);
    }

    -- A round that the socket takes, and the rounds behind it.
    module _ (n : ℕ) (bytes : List ℕ) (c : Connection) (few : n ≤ c.max_audio_payload)
        (h : Sendable t bytes c) where
      abbrev sent_packet : AudioPacket
      sent_packet = create t.stamp type c.sequence_counter (take n bytes)

      abbrev counted : Connection
      counted = record c { sequence_counter = add_u32 c.sequence_counter 1 }

      next-Sendable :
          (s : Bool × Connection)
          → Round takes sent_packet counted s
          → Sendable t (drop n bytes) s.1
      next-Sendable s round = record {
        no_encoder = round.same_encoder ∙ h.no_encoder;
        some_payload = omega (arith, round.same_payload, h.some_payload);
        payload_fits = omega (arith, round.same_payload, h.payload_fits);
        counter = omega (arith, round.same_counter);
        stamp = h.stamp;
        all_bytes = drop-AllBytes n bytes h.all_bytes;
      }

      Round-Delivered :
          (s r : Bool × Connection)
          → Round takes sent_packet counted s
          → s.0 ≡ true
          → Delivered type (drop n bytes) s.1 r
          → Delivered type bytes c r
      unfolding create
      Round-Delivered s r round taken d = record {
        datagrams = serialize sent_packet ∷ d.datagrams;
        packets = sent_packet ∷ d.packets;
        rest = d.rest;
        on_wire =
            d.on_wire
            ∙ ap (λ w. w ++ d.datagrams) wired
            ∙ append_assoc c.wire (serialize sent_packet ∷ []) d.datagrams;
        read_back =
            opened-cons (serialize sent_packet) d.datagrams (chunk-read n bytes c few h)
              d.read_back;
        in_order = (
          refl,
          omega (arith, length-take n bytes, few),
          refl,
          subst (λ k. k)
              (λ i. Numbered type (round.same_payload i) (round.same_counter i) d.packets)
              d.in_order,
        );
        split =
            append_assoc (take n bytes) (payloads d.packets) d.rest
            ∙ ap (◌++◌ (take n bytes)) d.split
            ∙ take-append-drop n bytes;
        result = elim d.result [
          | inl ok ↦ inl ok
          | inr (failed, inl shut) ↦ inr (failed, inl (sym round.same_closed ∙ shut))
          | inr (failed, inr refused) ↦ inr (failed, inr refused)
        ];
      }
        where
          wired : s.1.wire ≡ c.wire ++ serialize sent_packet ∷ []
          wired = elim round.result [
            | inl (ok, wire) ↦ wire
            | inr (failed, wire, why) ↦ absurd (let clash = sym failed ∙ taken in cc)
          ]

    send_rounds-Delivered :
        (fuel : ℕ) (bytes : List ℕ) (c : Connection)
        → length bytes < fuel
        → Sendable t bytes c
        → Delivered type bytes c (send_rounds takes fuel t type bytes c)
    unfolding send_rounds
    send_rounds-Delivered zero bytes c enough h = absurd (omega arith)
    send_rounds-Delivered (suc fuel) bytes c enough h =
        by_test (Delivered type bytes c) s.0
          (λ taken.
            by_test (Delivered type bytes c) (ltb 0 (length left))
              (λ more. Round-Delivered n bytes c few h s _ round taken (
                send_rounds-Delivered fuel left s.1 (shorter more)
                  (next-Sendable n bytes c few h s round)))
              (λ over.
                Round-Delivered n bytes c few h s (true, s.1) round taken
                  (all_sent left s.1 (emptied left over))))
          (λ failed. elim round.result [
            | inl (ok, wire) ↦ absurd (let clash = sym failed ∙ ok in cc)
            | inr (gone, wire, why) ↦ none_sent bytes c (false, s.1) refl wire why
          ])
      where
        n : ℕ
        n = min (length bytes) c.max_audio_payload

        few : n ≤ c.max_audio_payload
        few = omega arith

        left : List ℕ
        left = drop n bytes

        s : Bool × Connection
        s = send_chunk takes t type (take n bytes) c

        round :
            Round takes
              (create t.stamp type c.sequence_counter (take n bytes))
              (record c { sequence_counter = add_u32 c.sequence_counter 1 })
              s
        round = send_chunk-Round takes t type (take n bytes) c h.no_encoder

        shorter : ltb 0 (length left) ≡ true → length left < fuel
        shorter more =
            omega (arith, ltb→lt 0 (length left) more, length-drop n bytes, enough, h.some_payload)

        emptied : (l : List ℕ) → ltb 0 (length l) ≡ false → l ≡ []
        emptied [] e = refl
        emptied (x ∷ l) e = absurd (ground arith)

    -- Without FEC, `sendAudioChunked` sends datagrams that the peer reads back as packets of the type
    -- given, with consecutive sequence numbers from the counter on and no payload above
    -- `maxAudioPayload_`. Their payloads are a prefix of the bytes given: all of them if the call is
    -- `true`, and if it is `false`, the connection is closed or the socket has refused a datagram. The
    -- bytes and the counters are within the C++ types, and `maxAudioPayload_` is from 1 to 16384.
    pub send_audio_chunked-Delivered :
        (bytes : List ℕ) (c : Connection)
        → Sendable t bytes c
        → Delivered type bytes c (send_audio_chunked takes t type bytes c)
    unfolding send_audio_chunked
    send_audio_chunked-Delivered bytes c h =
        send_rounds-Delivered (suc (length bytes)) bytes c (omega arith) h
