-- ===== src/Decoder/Arrivals.antt =====
-- `FecDecoder` on packets that come one after the other: in order, or behind a gap.
use naudio.Prelude.{
  ℕ, ◌+◌, ◌≤◌, ◌≡◌, sym, ap, ◌∙◌, false, Option, some, List, [], ◌∷◌, ◌++◌, append_assoc,
  append-nil, arith, length, length-append,
}
use naudio.Prelude.Int.{ℤ}
use naudio.Packet.{AudioPacket}
use naudio.Decoder.{Decoder, HeldPacket, biased, live}
use naudio.Decoder.Process.{process_packet, is_parity}
use naudio.Decoder.Trace.{Trace}
use naudio.Decoder.Slots.{Below, Below-snoc, entries}
use naudio.Decoder.Stream.{streaming, in_hold, as_held, stream_step, held_step}

-- Each packet comes with the time at which it comes.
abbrev pub Arrivals : Type 0
Arrivals = List (ℤ × AudioPacket)

abbrev pub receive : ℕ → Arrivals → Decoder → Decoder
receive stamp [] d = d
receive stamp ((now, p) ∷ ps) d = receive stamp ps (process_packet stamp now p d)

-- No parity packets, with the sequence numbers from `k` on.
abbrev pub InOrder : ℕ → Arrivals → Type 0
InOrder k [] = Unit {0}
InOrder k ((now, p) ∷ ps) =
    (biased p.sequence ≡ k) × (is_parity p.packet_type ≡ false) × InOrder (k + 1) ps

abbrev pub slots_of : Arrivals → List (Option AudioPacket)
slots_of [] = []
slots_of ((now, p) ∷ ps) = some p ∷ slots_of ps

abbrev pub last_time : ℤ → Arrivals → ℤ
last_time t [] = t
last_time t ((now, p) ∷ ps) = last_time now ps

-- Emitted as they came.
abbrev pub live_trace : Arrivals → Trace
live_trace [] = []
live_trace ((now, p) ∷ ps) = (some p, live) ∷ live_trace ps

abbrev pub held_of : ℕ → Arrivals → List (ℕ × HeldPacket)
held_of k [] = []
held_of k ((now, p) ∷ ps) = (k, as_held p) ∷ held_of (k + 1) ps

streaming_eq :
    (touched : ℤ) {k k' : ℕ} {m m' : List (ℕ × AudioPacket)} {trace trace' : Trace} (d : Decoder)
    → k ≡ k'
    → m ≡ m'
    → trace ≡ trace'
    → streaming touched k m trace d ≡ streaming touched k' m' trace' d
streaming_eq touched d e f g = λ i. streaming touched (e i) (f i) (g i) d

pub in_hold_eq :
    (touched : ℤ) {k k' : ℕ} {m m' : List (ℕ × AudioPacket)} (base : ℕ)
    {held held' : List (ℕ × HeldPacket)} (trace : Trace) (d : Decoder)
    → k ≡ k'
    → m ≡ m'
    → held ≡ held'
    → in_hold touched k m base held trace d ≡ in_hold touched k' m' base held' trace d
in_hold_eq touched base trace d e f g = λ i. in_hold touched (e i) (f i) base (g i) trace d

pub receive-streaming :
    (stamp : ℕ) (ps : Arrivals) (k : ℕ) (touched : ℤ) (m : List (ℕ × AudioPacket)) (trace : Trace)
    (d : Decoder)
    → InOrder k ps
    → Below k m
    → length m + length ps ≤ 40
    → receive stamp ps (streaming touched k m trace d)
      ≡ streaming
          (last_time touched ps)
          (k + length ps)
          (m ++ entries k (slots_of ps))
          (trace ++ live_trace ps)
          d
unfolding process_packet
receive-streaming stamp [] k touched m trace d o below few =
    streaming_eq touched d (omega arith) (sym (append-nil m)) (sym (append-nil trace))
receive-streaming stamp ((now, p) ∷ ps) k touched m trace d o below few =
    ap (receive stamp ps)
      (stream_step stamp now p p.sequence k o.1 o.0 touched m trace d below (omega arith))
    ∙ receive-streaming stamp ps (k + 1) now (m ++ (k, p) ∷ []) (trace ++ (some p, live) ∷ []) d o.2
        (Below-snoc k (k + 1) p m (omega arith) below)
        (omega (arith, length-append m ((k, p) ∷ [])))
    ∙ streaming_eq (last_time now ps) d (omega arith)
        (append_assoc m ((k, p) ∷ []) (entries (k + 1) (slots_of ps)))
        (append_assoc trace ((some p, live) ∷ []) (live_trace ps))

pub receive-in_hold :
    (stamp : ℕ) (ps : Arrivals) (k : ℕ) (touched : ℤ) (m : List (ℕ × AudioPacket)) (base : ℕ)
    (held : List (ℕ × HeldPacket)) (trace : Trace) (d : Decoder)
    → InOrder k ps
    → Below k m
    → length m + length ps ≤ 40
    → Below k held
    → length held + length ps ≤ 20
    → receive stamp ps (in_hold touched k m base held trace d)
      ≡ in_hold
          (last_time touched ps)
          (k + length ps)
          (m ++ entries k (slots_of ps))
          base
          (held ++ held_of k ps)
          trace
          d
unfolding process_packet
receive-in_hold stamp [] k touched m base held trace d o below few held_below held_few =
    in_hold_eq touched base trace d (omega arith) (sym (append-nil m)) (sym (append-nil held))
receive-in_hold stamp ((now, p) ∷ ps) k touched m base held trace d o below few held_below
      held_few =
    ap (receive stamp ps) (
      held_step stamp now p p.sequence k o.1 o.0 touched base m held trace d below (omega arith)
        held_below (omega arith))
    ∙ receive-in_hold stamp ps (k + 1) now (m ++ (k, p) ∷ []) base (held ++ (k, as_held p) ∷ [])
        trace d o.2 (Below-snoc k (k + 1) p m (omega arith) below)
        (omega (arith, length-append m ((k, p) ∷ [])))
        (Below-snoc k (k + 1) (as_held p) held (omega arith) held_below)
        (omega (arith, length-append held ((k, as_held p) ∷ [])))
    ∙ in_hold_eq (last_time now ps) base trace d (omega arith)
        (append_assoc m ((k, p) ∷ []) (entries (k + 1) (slots_of ps)))
        (append_assoc held ((k, as_held p) ∷ []) (held_of (k + 1) ps))
