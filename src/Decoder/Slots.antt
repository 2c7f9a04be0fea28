-- ===== src/Decoder/Slots.antt =====
-- `FecDecoder::handleParity` on the slots of a block, in which a packet came or did not come.
use naudio.Prelude.{
  ℕ, zero, suc, ◌+◌, ◌-◌, ◌%◌, ◌^◌, ◌≤◌, ◌<◌, ◌≡◌, refl, sym, ap, ◌∙◌, subst, inl, inr, Bool, true,
  false, ◌⊎◌, ◌||◌, ◌&&◌, Option, none, some, List, [], ◌∷◌, ◌++◌, append-nil, append_assoc, arith,
  length, ==_iff,
}
use naudio.Prelude.Int.{ℤ}
use naudio.Packet.{AudioPacket, PacketType, type_value}
use naudio.Assoc.{insert, find, Above, Above-mono, find_below}
use naudio.Fec.{xor_into, xor_all}
use naudio.Decoder.{Decoder, Block, is_audio}
use naudio.Decoder.Parity.{
  Survey, survey, survey_absent, survey_present, xor_present, at_or_past_block_end, scan_for_member,
  move_packets, in_range,
}

-- The packets of the slots from `s` on, under their sequence numbers.
abbrev pub entries : ℕ → List (Option AudioPacket) → List (ℕ × AudioPacket)
entries s [] = []
entries s (none ∷ slots) = entries (s + 1) slots
entries s (some p ∷ slots) = (s, p) ∷ entries (s + 1) slots

-- Each packet that came is an audio packet of the type `t`.
abbrev pub AllOfType : PacketType → List (Option AudioPacket) → Type 0
AllOfType t [] = Unit {0}
AllOfType t (none ∷ slots) = AllOfType t slots
AllOfType t (some p ∷ slots) = (p.packet_type ≡ t) × AllOfType t slots

abbrev pub present : List (Option AudioPacket) → List (List ℕ)
present [] = []
present (none ∷ slots) = present slots
present (some p ∷ slots) = p.payload ∷ present slots

abbrev pub absent_count : List (Option AudioPacket) → ℕ
absent_count [] = 0
absent_count (none ∷ slots) = suc (absent_count slots)
absent_count (some p ∷ slots) = absent_count slots

pub entries-Above : (s : ℕ) (slots : List (Option AudioPacket)) → Above s (entries s slots)
entries-Above s [] = tt
entries-Above s (none ∷ slots) =
    Above-mono s (s + 1) (entries (s + 1) slots) (omega arith) (entries-Above (s + 1) slots)
entries-Above s (some p ∷ slots) = (omega arith, above_next (entries-Above (s + 1) slots))
  where
    above_next : Above (s + 1) (entries (s + 1) slots) → Above (suc s) (entries (s + 1) slots)
    above_next = Above-mono (suc s) (s + 1) (entries (s + 1) slots) (omega arith)

-- What the survey makes of the slots, with the type of a first member.
abbrev pub surveyed : PacketType → ℕ → List (Option AudioPacket) → Survey → Survey
surveyed t s [] v = v
surveyed t s (none ∷ slots) v =
    surveyed t (s + 1) slots (record v { missing_count = v.missing_count + 1; missing_seq = s })
surveyed t s (some p ∷ slots) v = surveyed t (s + 1) slots (record v { member_type = some t })

find_at : (s : ℕ) (p : AudioPacket) (m : List (ℕ × AudioPacket)) → find s ((s, p) ∷ m) ≡ some p
unfolding find
find_at s p m = rw ((==_iff s s).1 refl) refl

find_past :
    (s k : ℕ) (p : AudioPacket) (m : List (ℕ × AudioPacket))
    → k < s
    → find s ((k, p) ∷ m) ≡ find s m
unfolding find
find_past s k p m h = ground arith

-- Behind its slot a packet is not looked at.
survey_past :
    (n s k : ℕ) (p : AudioPacket) (m : List (ℕ × AudioPacket)) (v : Survey)
    → k < s
    → s + n ≤ 2 ^ 32
    → survey n s ((k, p) ∷ m) [] v ≡ survey n s m [] v
unfolding survey
survey_past zero s k p m v h b = refl
survey_past (suc n) s k p m v h b =
    rw (find_past (s % 2 ^ 32) k p m (omega arith))
      (survey_past n (s + 1) k p m _ (omega arith) (omega arith))

xor_present_past :
    (n s k : ℕ) (p : AudioPacket) (m : List (ℕ × AudioPacket)) (acc : List ℕ)
    → k < s
    → s + n ≤ 2 ^ 32
    → xor_present n s ((k, p) ∷ m) acc ≡ xor_present n s m acc
unfolding xor_present
xor_present_past zero s k p m acc h b = refl
xor_present_past (suc n) s k p m acc h b =
    rw (find_past (s % 2 ^ 32) k p m (omega arith))
      (xor_present_past n (s + 1) k p m _ (omega arith) (omega arith))

-- The `int32_t` of a number below the wrap is the number.
find_here :
    (s : ℕ) (p : AudioPacket) (m : List (ℕ × AudioPacket))
    → s < 2 ^ 32
    → find (s % 2 ^ 32) ((s, p) ∷ m) ≡ some p
find_here s p m b =
    let e : s % 2 ^ 32 ≡ s = omega arith in
    subst (λ k. find k ((s, p) ∷ m) ≡ some p) (sym e) (find_at s p m)

find_absent :
    (s : ℕ) (slots : List (Option AudioPacket))
    → s < 2 ^ 32
    → find (s % 2 ^ 32) (entries (s + 1) slots) ≡ none
find_absent s slots b =
    find_below (s % 2 ^ 32) (s + 1) (entries (s + 1) slots) (omega arith)
      (entries-Above (s + 1) slots)

xor_present_step :
    (n s : ℕ) (m : List (ℕ × AudioPacket)) (acc : List ℕ) (o : Option AudioPacket)
    → find (s % 2 ^ 32) m ≡ o
    → xor_present (suc n) s m acc
      ≡ xor_present n (s + 1) m (elim o [ none ↦ acc | some p ↦ xor_into acc p.payload ])
unfolding xor_present
xor_present_step n s m acc o e =
    ap (λ x. xor_present n (s + 1) m (elim x [ none ↦ acc | some p ↦ xor_into acc p.payload ])) e

pub xor_present-entries :
    (slots : List (Option AudioPacket)) (s : ℕ) (acc : List ℕ)
    → s + length slots ≤ 2 ^ 32
    → xor_present (length slots) s (entries s slots) acc ≡ xor_all acc (present slots)
unfolding xor_all
xor_present-entries [] s acc b = unfold xor_present in refl
xor_present-entries (none ∷ slots) s acc b =
    xor_present_step (length slots) s (entries (s + 1) slots) acc none
      (find_absent s slots (omega arith))
    ∙ xor_present-entries slots (s + 1) acc (omega arith)
xor_present-entries (some p ∷ slots) s acc b =
    xor_present_step (length slots) s ((s, p) ∷ entries (s + 1) slots) acc (some p)
      (find_here s p (entries (s + 1) slots) (omega arith))
    ∙ xor_present_past (length slots) (s + 1) s p (entries (s + 1) slots) (xor_into acc p.payload)
        (omega arith) (omega arith)
    ∙ xor_present-entries slots (s + 1) (xor_into acc p.payload) (omega arith)

-- A member's type is the first one's.
abbrev pub IsOf : PacketType → Survey → Type 0
IsOf t v = (v.member_type ≡ none) ⊎ (v.member_type ≡ some t)

survey_present-same :
    (t : PacketType) (v : Survey)
    → is_audio t ≡ true
    → IsOf t v
    → survey_present t v ≡ record v { member_type = some t }
unfolding survey_present
survey_present-same t v audio (inl first) = rw (audio, first) refl
survey_present-same t v audio (inr again) =
    rw (audio, again, (==_iff (type_value t) (type_value t)).1 refl)
      (ap (λ m. record v { member_type = m }) again)

survey_step :
    (n s : ℕ) (m : List (ℕ × AudioPacket)) (v : Survey) (o : Option AudioPacket)
    → find (s % 2 ^ 32) m ≡ o
    → survey (suc n) s m [] v
      ≡ survey n (s + 1) m [] (elim o [
        | none ↦ survey_absent (s % 2 ^ 32) [] v
        | some p ↦ survey_present p.packet_type v
      ])
unfolding survey
survey_step n s m v o e =
    ap
      (λ x. survey n (s + 1) m [] (elim x [
        | none ↦ survey_absent (s % 2 ^ 32) [] v
        | some p ↦ survey_present p.packet_type v
      ]))
      e

absent-survey :
    (s : ℕ) (v : Survey)
    → s < 2 ^ 32
    → survey_absent (s % 2 ^ 32) [] v
      ≡ record v { missing_count = v.missing_count + 1; missing_seq = s }
unfolding survey_absent find
absent-survey s v b =
    let e : s % 2 ^ 32 ≡ s = omega arith in
    ap (λ k. record v { missing_count = v.missing_count + 1; missing_seq = k }) e

pub survey-entries :
    (t : PacketType) (slots : List (Option AudioPacket)) (s : ℕ) (v : Survey)
    → s + length slots ≤ 2 ^ 32
    → is_audio t ≡ true
    → AllOfType t slots
    → IsOf t v
    → survey (length slots) s (entries s slots) [] v ≡ surveyed t s slots v
survey-entries t [] s v b audio all is = unfold survey in refl
survey-entries t (none ∷ slots) s v b audio all is =
    survey_step (length slots) s (entries (s + 1) slots) v none (find_absent s slots (omega arith))
    ∙ ap (survey (length slots) (s + 1) (entries (s + 1) slots) [])
        (absent-survey s v (omega arith))
    ∙ survey-entries t slots (s + 1)
        (record v { missing_count = v.missing_count + 1; missing_seq = s }) (omega arith) audio all
        is
survey-entries t (some p ∷ slots) s v b audio all is =
    survey_step (length slots) s ((s, p) ∷ entries (s + 1) slots) v (some p)
      (find_here s p (entries (s + 1) slots) (omega arith))
    ∙ survey_past (length slots) (s + 1) s p (entries (s + 1) slots)
        (survey_present p.packet_type v) (omega arith) (omega arith)
    ∙ ap (survey (length slots) (s + 1) (entries (s + 1) slots) [])
        (ap (λ k. survey_present k v) all.0 ∙ survey_present-same t v audio is)
    ∙ survey-entries t slots (s + 1) (record v { member_type = some t }) (omega arith) audio all.1
        (inr refl)

-- In its range a pending packet goes into the block, behind the others.
module _ {ℓ} {A : Type ℓ} where
  abbrev pub Below : ℕ → List (ℕ × A) → Type 0
  Below hi [] = Unit {0}
  Below hi ((k, p) ∷ m) = (k < hi) × Below hi m

  pub insert_last : (k : ℕ) (p : A) (m : List (ℕ × A)) → Below k m → insert k p m ≡ m ++ (k, p) ∷ []
  unfolding insert
  insert_last k p [] h = refl
  insert_last k p ((j, q) ∷ m) h = ground (arith, insert_last k p m)

  pub Below-snoc :
      (k hi : ℕ) (p : A) (m : List (ℕ × A)) → k < hi → Below k m → Below hi (m ++ (k, p) ∷ [])
  Below-snoc k hi p [] h b = (h, tt)
  Below-snoc k hi p ((j, q) ∷ m) h b = (omega (arith, b.0), Below-snoc k hi p m h b.1)

  pub Below-mono : (lo hi : ℕ) (m : List (ℕ × A)) → lo ≤ hi → Below lo m → Below hi m
  Below-mono lo hi [] h b = tt
  Below-mono lo hi ((j, q) ∷ m) h b = (omega (arith, b.0), Below-mono lo hi m h b.1)

abbrev with_packets : Block → List (ℕ × AudioPacket) → Block
with_packets b m = record b { packets = m }

move_inside :
    (now : ℤ) (start size k : ℕ) (p : AudioPacket) (m : List (ℕ × AudioPacket)) (b : Block)
    (d : Decoder)
    → start ≤ k
    → k < start + size
    → move_packets now start size ((k, p) ∷ m) b d
      ≡ move_packets now start size m (with_packets b (insert k p b.packets)) d
unfolding move_packets
move_inside now start size k p m b d lo hi = rw (inside) refl
  where
    inside : in_range start size k ≡ true
    inside = ground arith

pub move_packets-entries :
    (now : ℤ) (start size : ℕ) (slots : List (Option AudioPacket)) (s : ℕ) (b : Block) (d : Decoder)
    → start ≤ s
    → s + length slots ≤ start + size
    → Below s b.packets
    → move_packets now start size (entries s slots) b d
      ≡ (with_packets b (b.packets ++ entries s slots), d)
move_packets-entries now start size [] s b d lo hi below =
    unfold move_packets in ap (λ m. (with_packets b m, d)) (sym (append-nil b.packets))
move_packets-entries now start size (none ∷ slots) s b d lo hi below =
    move_packets-entries now start size slots (s + 1) b d (omega arith) (omega arith)
      (Below-mono s (s + 1) b.packets (omega arith) below)
move_packets-entries now start size (some p ∷ slots) s b d lo hi below =
    move_inside now start size s p (entries (s + 1) slots) b d lo (omega arith)
    ∙ ap (λ m. move_packets now start size (entries (s + 1) slots) (with_packets b m) d)
        (insert_last s p b.packets below)
    ∙ move_packets-entries now start size slots (s + 1) (with_packets b (b.packets ++ (s, p) ∷ []))
        d (omega arith) (omega arith) (Below-snoc s (s + 1) p b.packets (omega arith) below)
    ∙ ap (λ m. (with_packets b m, d)) (append_assoc b.packets ((s, p) ∷ []) (entries (s + 1) slots))

inside_before :
    (start size s : ℕ)
    → start ≤ s
    → s < start + size
    → s < 2 ^ 32
    → at_or_past_block_end start size s ≡ false
unfolding at_or_past_block_end
inside_before start size s lo hi b =
    let e : (s + 2 ^ 32 - start) % 2 ^ 32 ≡ s - start = omega arith in ground arith

neither : (a b c : Bool) → b ≡ false → c ≡ false → (a && b || c) ≡ false
neither a b c h k = ground arith

-- No packet of a slot stands at or behind the end of the block.
pub scan_for_member-entries :
    (start size : ℕ) (slots : List (Option AudioPacket)) (s : ℕ)
    → start ≤ s
    → s + length slots ≤ start + size
    → s + length slots ≤ 2 ^ 32
    → scan_for_member start size (entries s slots) ≡ false
unfolding scan_for_member
scan_for_member-entries start size [] s lo hi b = refl
scan_for_member-entries start size (none ∷ slots) s lo hi b =
    scan_for_member-entries start size slots (s + 1) (omega arith) (omega arith) (omega arith)
scan_for_member-entries start size (some p ∷ slots) s lo hi b =
    neither (is_audio p.packet_type) (at_or_past_block_end start size s)
      (scan_for_member start size (entries (s + 1) slots))
      (inside_before start size s lo (omega arith) (omega arith))
      (scan_for_member-entries start size slots (s + 1) (omega arith) (omega arith) (omega arith))
