-- ===== src/Decoder/OneLost.antt =====
-- `FecDecoder::handleParity` on a block of which one slot is empty.
use naudio.Prelude.{
  ℕ, suc, ◌+◌, ◌^◌, ◌≤◌, ◌<◌, ◌≡◌, refl, ap, ◌∙◌, false, Option, none, some, List, [], ◌∷◌, ◌++◌,
  arith, length, length-append,
}
use naudio.Prelude.Int.{ℤ}
use naudio.Packet.{AudioPacket, PacketType, create}
use naudio.Packet
use naudio.Fec.{xor_all}
use naudio.Decoder.{Decoder, biased}
use naudio.Decoder.Parity.{Survey, new_survey, resolve, recover, recovered_packet}
use naudio.Decoder.Slots.{present, surveyed, xor_present-entries}
use naudio.Decoder.Outcome.{collected}
use naudio.Decoder.Arrivals.{Arrivals, slots_of}

-- The slots of the block.
abbrev pub one_lost : Arrivals → Arrivals → List (Option AudioPacket)
one_lost ps qs = slots_of ps ++ none ∷ slots_of qs

-- The type after the members `ps`.
abbrev pub typed : PacketType → Arrivals → Option PacketType → Option PacketType
typed t [] m = m
typed t (a ∷ ps) m = some t

surveyed_members :
    (t : PacketType) (qs : Arrivals) (s : ℕ) (v : Survey)
    → surveyed t s (slots_of qs) v ≡ record v { member_type = typed t qs v.member_type }
surveyed_members t [] s v = refl
surveyed_members t ((now, q) ∷ []) s v = refl
surveyed_members t ((now, q) ∷ r ∷ qs) s v =
    surveyed_members t (r ∷ qs) (s + 1) (record v { member_type = some t })

surveyed-one_lost :
    (t : PacketType) (ps qs : Arrivals) (s : ℕ) (v : Survey)
    → surveyed t s (one_lost ps qs) v ≡ record v {
      missing_count = v.missing_count + 1;
      missing_seq = s + length ps;
      member_type = typed t qs (typed t ps v.member_type);
    }
surveyed-one_lost t [] qs s v =
    surveyed_members t qs (s + 1)
      (record v { missing_count = v.missing_count + 1; missing_seq = s })
    ∙ ap
        (λ n. record v {
          missing_count = v.missing_count + 1;
          missing_seq = n;
          member_type = typed t qs v.member_type;
        })
        {x = s} {y = s + 0} (omega arith)
surveyed-one_lost t ((now, p) ∷ ps) qs s v =
    surveyed-one_lost t ps qs (s + 1) (record v { member_type = some t })
    ∙ ap
        (λ n. record v {
          missing_count = v.missing_count + 1;
          missing_seq = n;
          member_type = typed t qs (typed t ps (some t));
        })
        {x = s + 1 + length ps} {y = s + suc (length ps)} (omega arith)
    ∙ ap
        (λ m. record v {
          missing_count = v.missing_count + 1;
          missing_seq = s + suc (length ps);
          member_type = typed t qs m;
        })
        (typed_some ps)
  where
    typed_some : (l : Arrivals) → typed t l (some t) ≡ some t
    typed_some [] = refl
    typed_some (a ∷ l) = refl

-- A block of two or more has a member that came.
typed_total :
    (t : PacketType) (ps qs : Arrivals)
    → 0 < length ps + length qs
    → typed t qs (typed t ps none) ≡ some t
typed_total t [] [] h = absurd (omega arith)
typed_total t (a ∷ ps) [] h = refl
typed_total t ps (a ∷ qs) h = refl

-- What the parity packet makes of the block.
abbrev pub repaired : ℕ → PacketType → ℕ → List ℕ → AudioPacket
repaired stamp t sequence bytes = Packet.create stamp t sequence bytes

pub length-slots_of : (ps : Arrivals) → length (slots_of ps) ≡ length ps
length-slots_of [] = refl
length-slots_of (a ∷ ps) = ap suc (length-slots_of ps)

pub length-one_lost : (ps qs : Arrivals) → length (one_lost ps qs) ≡ length ps + 1 + length qs
length-one_lost ps qs = omega (
  arith,
  length-append (slots_of ps) (none ∷ slots_of qs),
  length-slots_of ps,
  length-slots_of qs,
)

pub resolve-one_lost :
    (stamp : ℕ) (now : ℤ) (start : ℕ) (ps qs : Arrivals) (t : PacketType) (xor_data : List ℕ)
    (d : Decoder)
    → 0 < length ps + length qs
    → start + length (one_lost ps qs) ≤ 2 ^ 32
    → resolve stamp start
        (length (one_lost ps qs))
        xor_data
        false
        (collected now start (one_lost ps qs))
        (surveyed t start (one_lost ps qs) new_survey)
        d
      ≡ recover
          (repaired stamp t
            (biased (start + length ps))
            (xor_all xor_data (present (one_lost ps qs))))
          (start + length ps)
          d
unfolding resolve recovered_packet
resolve-one_lost stamp now start ps qs t xor_data d some_came fits =
    ap
      (λ v.
        resolve stamp start (length (one_lost ps qs)) xor_data false
          (collected now start (one_lost ps qs)) v d)
      (surveyed-one_lost t ps qs start new_survey
        ∙ ap
            (λ m. record new_survey {
              missing_count = 0 + 1;
              missing_seq = start + length ps;
              member_type = m;
            })
            (typed_total t ps qs some_came))
    ∙ ap
        (λ bytes.
          recover (repaired stamp t (biased (start + length ps)) bytes) (start + length ps) d)
        (xor_present-entries (one_lost ps qs) start xor_data fits)
