-- ===== src/Connection/Corrupt.antt =====
-- src/net/UdpClientConnection.cpp: datagrams that are no packets, on the own socket.
use naudio.Prelude.{
  by_test, ℕ, suc, ◌+◌, ◌≡◌, refl, sym, ap, ap₂, ◌∙◌, subst, Bool, true, false, ◌||◌, ◌&&◌, not,
  Option, none, some, List, [], ◌∷◌, arith, leb, if◌then◌else◌, Bool-cases, inl, inr,
}
use naudio.Packet.{deserialize}
use naudio.Connection.{Connection, Clocks, QueuedPacket}
use naudio.Connection.Chunks.{off_part}
use naudio.Connection.Receive.{
  IoResult, timed_out, failed, datagram, ReceiveResult, no_data, dead, is_expected_sender,
  receive_from_socket, take_io, take_datagram, take_corrupt, record_crc_error,
  max_consecutive_crc_errors, next_queued,
}

-- From another sender, or cut off.
abbrev pub is_stray : Connection → IoResult → Bool
is_stray c (datagram host port bytes truncated) = truncated || not (is_expected_sender host port c)
is_stray c timed_out = false
is_stray c failed = false

-- From the peer, whole, and no packet.
abbrev pub is_corrupt : Connection → IoResult → Bool
is_corrupt c (datagram host port bytes truncated) =
    not (truncated || not (is_expected_sender host port c))
    && (elim (deserialize bytes) [ none ↦ true | some p ↦ false ])
is_corrupt c timed_out = false
is_corrupt c failed = false

abbrev pub Noise : Connection → List (Clocks × IoResult) → Type 0
Noise c [] = Unit {0}
Noise c ((t, io) ∷ ios) = ((is_stray c io || is_corrupt c io) ≡ true) × Noise c ios

abbrev pub corrupt_count : Connection → List (Clocks × IoResult) → ℕ
corrupt_count c [] = 0
corrupt_count c ((t, io) ∷ ios) =
    if is_corrupt c io then suc (corrupt_count c ios) else corrupt_count c ios

-- Open, and nothing waits in the queue.
pub record IsIdle (c : Connection) : Type 0 where
  pub is_open : c.closed ≡ false
  pub nothing_ready : c.ordered_queue.items ≡ []

module _ (takes : ℕ → Bool) where
  abbrev pub reads : List (Clocks × IoResult) → Connection → Connection
  reads [] c = c
  reads ((t, io) ∷ ios) c = reads ios (receive_from_socket takes t io c).1

  read_idle :
      (t : Clocks) (io : IoResult) (c : Connection)
      → IsIdle c
      → receive_from_socket takes t io c ≡ take_io takes t io c
  unfolding receive_from_socket
  read_idle t io c h =
      by_test (λ r. r ≡ take_io takes t io c) c.closed
        (λ shut. absurd (let clash = sym shut ∙ h.is_open in cc))
        (λ e. ready c.ordered_queue.items h.nothing_ready)
    where
      ready :
          (items : List QueuedPacket)
          → items ≡ []
          → (elim items [ [] ↦ take_io takes t io c | p ∷ rest ↦ next_queued c ])
            ≡ take_io takes t io c
      ready [] e = refl
      ready (p ∷ rest) e = absurd (cc)

  read_stray :
      (t : Clocks) (io : IoResult) (c : Connection)
      → is_stray c io ≡ true
      → take_io takes t io c ≡ (no_data, c)
  unfolding take_io
  read_stray t timed_out c e = absurd (cc)
  read_stray t failed c e = absurd (cc)
  read_stray t (datagram host port bytes truncated) c e =
      by_test (λ r. r ≡ (no_data, c)) (truncated || not (is_expected_sender host port c))
        (λ s. refl) (λ s. absurd (let clash = sym s ∙ e in cc))

  abbrev verdict : Connection → ReceiveResult
  verdict c =
      if leb max_consecutive_crc_errors (c.consecutive_crc_errors + 1) then dead else no_data

  read_corrupt :
      (t : Clocks) (io : IoResult) (c : Connection)
      → is_corrupt c io ≡ true
      → take_io takes t io c ≡ (verdict c, record_crc_error c)
  unfolding take_io take_datagram take_corrupt
  read_corrupt t timed_out c e = absurd (cc)
  read_corrupt t failed c e = absurd (cc)
  read_corrupt t (datagram host port bytes truncated) c e =
      by_test (λ r. r ≡ (verdict c, record_crc_error c))
        (truncated || not (is_expected_sender host port c))
        (λ s. absurd (let clash = rw s at e in cc))
        (λ s. off_part (deserialize bytes) _ _ (unreadable (deserialize bytes) (rw s at e)))
    where
      unreadable :
          {A : Type 0} (o : Option A) → (elim o [ none ↦ true | some p ↦ false ]) ≡ true → o ≡ none
      unreadable none f = refl
      unreadable (some p) f = absurd (cc)

  -- The peer is the same one for the connection behind it.
  record Peer (c d : Connection) : Type 0 where
    stray : (io : IoResult) → is_stray d io ≡ is_stray c io
    corrupt : (io : IoResult) → is_corrupt d io ≡ is_corrupt c io

  counted-Peer : (c : Connection) → Peer c (record_crc_error c)
  unfolding record_crc_error is_expected_sender
  counted-Peer c = record { stray = same_stray; corrupt = same_corrupt }
    where
      same_stray : (io : IoResult) → is_stray (record_crc_error c) io ≡ is_stray c io
      same_stray timed_out = refl
      same_stray failed = refl
      same_stray (datagram host port bytes truncated) = refl

      same_corrupt : (io : IoResult) → is_corrupt (record_crc_error c) io ≡ is_corrupt c io
      same_corrupt timed_out = refl
      same_corrupt failed = refl
      same_corrupt (datagram host port bytes truncated) = refl

  Noise-counted :
      (ios : List (Clocks × IoResult)) (c : Connection)
      → Noise c ios
      → Noise (record_crc_error c) ios
  Noise-counted [] c h = tt
  Noise-counted ((t, io) ∷ ios) c h =
      let p = counted-Peer c in
      (ap₂ ◌||◌ (p.stray io) (p.corrupt io) ∙ h.0, Noise-counted ios c h.1)

  count_counted :
      (ios : List (Clocks × IoResult)) (c : Connection)
      → corrupt_count (record_crc_error c) ios ≡ corrupt_count c ios
  count_counted [] c = refl
  count_counted ((t, io) ∷ ios) c =
      ap₂ (λ b n. if b then suc n else n) ((counted-Peer c).corrupt io) (count_counted ios c)

  counted-IsIdle : (c : Connection) → IsIdle c → IsIdle (record_crc_error c)
  unfolding record_crc_error
  counted-IsIdle c h = record { is_open = h.is_open; nothing_ready = h.nothing_ready }

  counted_errors :
      (c : Connection) → (record_crc_error c).consecutive_crc_errors ≡ c.consecutive_crc_errors + 1
  unfolding record_crc_error
  counted_errors c = refl

  tally : (b : Bool) (m n : ℕ) → b ≡ true → m + 1 + n ≡ m + (if b then suc n else n)
  tally true m n e = omega arith
  tally false m n e = absurd (cc)

  -- What a corrupt datagram in `d` returns is the verdict on `n` corrupt ones in a row before it.
  abbrev Judged : Clocks → IoResult → ℕ → Connection → Type 0
  Judged t last n d =
      (receive_from_socket takes t last d).0
      ≡ (if leb max_consecutive_crc_errors (n + 1) then dead else no_data)

  reads-Judged :
      (ios : List (Clocks × IoResult)) (t : Clocks) (last : IoResult) (c : Connection)
      → IsIdle c
      → Noise c ios
      → is_corrupt c last ≡ true
      → Judged t last (c.consecutive_crc_errors + corrupt_count c ios) (reads ios c)
  reads-Judged [] t last c idle noise e =
      ap (λ r. r.0) (read_idle t last c idle ∙ read_corrupt t last c e)
      ∙ ap (λ n. if leb max_consecutive_crc_errors (n + 1) then dead else no_data) (omega arith)
  reads-Judged ((u, io) ∷ ios) t last c idle noise e = elim (Bool-cases (is_corrupt c io)) [
    | inl corrupt ↦
        subst
          (λ r.
            Judged t last (c.consecutive_crc_errors + corrupt_count c ((u, io) ∷ ios))
              (reads ios r.1))
          (sym (read_idle u io c idle ∙ read_corrupt u io c corrupt))
          (subst (λ n. Judged t last n (reads ios (record_crc_error c)))
            (ap₂ (λ m n. m + n) (counted_errors c) (count_counted ios c)
              ∙ tally (is_corrupt c io) c.consecutive_crc_errors (corrupt_count c ios) corrupt)
            (reads-Judged ios t last (record_crc_error c) (counted-IsIdle c idle)
              (Noise-counted ios c noise.1) ((counted-Peer c).corrupt last ∙ e)))
    | inr clean ↦
        subst
          (λ r.
            Judged t last (c.consecutive_crc_errors + corrupt_count c ((u, io) ∷ ios))
              (reads ios r.1))
          (sym (read_idle u io c idle ∙ read_stray u io c (either (is_stray c io) noise.0 clean)))
          (subst
            (λ b.
              Judged t last
                (c.consecutive_crc_errors
                  + (if b then suc (corrupt_count c ios) else corrupt_count c ios))
                (reads ios c))
            (sym clean) (reads-Judged ios t last c idle noise.1 e))
  ]
    where
      either : (a : Bool) {b : Bool} → (a || b) ≡ true → b ≡ false → a ≡ true
      either true h k = refl
      either false h k = absurd (let clash = sym k ∙ h in cc)

-- On an open connection with nothing in the queue, after any reads of datagrams of which each is cut
-- off, from another sender or corrupt: the next corrupt datagram from the peer is reported as the end
-- of the connection if it is the 20th in a row, and as no data before; the others do not count.
pub corrupt-IsDead :
    (takes : ℕ → Bool) (ios : List (Clocks × IoResult)) (t : Clocks) (last : IoResult)
    (c : Connection)
    → IsIdle c
    → Noise c ios
    → is_corrupt c last ≡ true
    → (receive_from_socket takes t last (reads takes ios c)).0
      ≡ (if leb 20 (c.consecutive_crc_errors + corrupt_count c ios + 1) then dead else no_data)
corrupt-IsDead takes ios t last c idle noise e = reads-Judged takes ios t last c idle noise e
