-- ===== src/Decoder/Outcome.antt =====
-- `FecDecoder::handleParity` on a block whose slots are pending: complete, recovered or failed.
use naudio.Prelude.{
  ℕ, ◌+◌, ◌^◌, ◌≤◌, ◌<◌, ◌≡◌, refl, ap, ◌∙◌, inl, true, false, Option, none, some, List, [], ◌∷◌,
  arith, length, ◌==◌, if◌then◌else◌,
}
use naudio.Prelude.Int.{ℤ}
use naudio.Packet.{AudioPacket, PacketType}
use naudio.Assoc.{erase, find}
use naudio.Decoder.{Decoder, Block, is_audio, new_block}
use naudio.Decoder.Parity.{
  Survey, new_survey, scan_discarded, move_missing, cap_refiled, opened_block, collect_pending,
  has_displaced_member, prune_below, resolve, judge, handle_block, recover, recovered_packet,
  emit_known_gaps,
}
use naudio.Decoder.Slots.{
  entries, AllOfType, absent_count, surveyed, survey-entries, move_packets-entries,
  scan_for_member-entries,
}

-- The pending block with the packets `m` and no explicit gap markers.
abbrev pub pending_with : ℤ → List (ℕ × AudioPacket) → List (ℕ × Block)
pending_with touched m = (0, record (new_block 0 0 touched) { packets = m }) ∷ []

-- A decoder in which the packets `m` are pending and nothing is recorded as discarded.
abbrev pub pending_in : ℤ → List (ℕ × AudioPacket) → Decoder → Decoder
pending_in touched m d = record d {
  active_blocks = pending_with touched m;
  discarded_sequences = [];
}

abbrev pub cleared : Decoder → Decoder
cleared d = record d { active_blocks = []; discarded_sequences = [] }

abbrev pub collected : ℤ → ℕ → List (Option AudioPacket) → Block
collected now start slots = record (new_block start (length slots) now) {
  packets = entries start slots;
}

opened_lem :
    (now touched : ℤ) (start size : ℕ) (m : List (ℕ × AudioPacket)) (d : Decoder)
    → 0 < start
    → opened_block now start size (pending_in touched m d)
      ≡ (new_block start size now, pending_in touched m d)
unfolding opened_block
opened_lem now touched start size m d h =
    rw (not_pending start (record (new_block 0 0 touched) { packets = m }) h, opened_block) refl
  where
    not_pending : (k : ℕ) (b : Block) → 0 < k → find k ((0, b) ∷ []) ≡ none
    not_pending k b pos = unfold find in ground arith

collect_lem :
    (now touched : ℤ) (start : ℕ) (slots : List (Option AudioPacket)) (d : Decoder)
    → collect_pending now start
        (length slots)
        (new_block start (length slots) now)
        (pending_in touched (entries start slots) d)
      ≡ (collected now start slots, cleared d)
unfolding collect_pending find erase move_missing cap_refiled
collect_lem now touched start slots d =
    ap (λ (r : Block × Decoder). let (b2, d2) = r in (b2, cap_refiled d2))
      (move_packets-entries now start (length slots) slots start
        (new_block start (length slots) now) (cleared d) (omega arith) (omega arith) tt)

judge_lem :
    (stamp : ℕ) (now : ℤ) (start : ℕ) (slots : List (Option AudioPacket)) (t : PacketType)
    (xor_data : List ℕ) (d : Decoder)
    → start + length slots ≤ 2 ^ 32
    → is_audio t ≡ true
    → AllOfType t slots
    → judge stamp start (length slots) xor_data (collected now start slots) (cleared d)
      ≡ resolve stamp start
          (length slots)
          xor_data
          false
          (collected now start slots)
          (surveyed t start slots new_survey)
          (cleared d)
unfolding judge has_displaced_member scan_discarded prune_below find
judge_lem stamp now start slots t xor_data d fits audio all =
    rw
      (
        survey-entries t slots start new_survey fits audio all (inl refl),
        scan_for_member-entries start (length slots) slots start (omega arith) (omega arith) fits,
      )
      refl

pub handle_block_lem :
    (stamp : ℕ) (now touched : ℤ) (start : ℕ) (slots : List (Option AudioPacket)) (t : PacketType)
    (xor_data : List ℕ) (d : Decoder)
    → 0 < start
    → start + length slots ≤ 2 ^ 32
    → is_audio t ≡ true
    → AllOfType t slots
    → handle_block stamp now start
        (length slots)
        xor_data
        (pending_in touched (entries start slots) d)
      ≡ resolve stamp start
          (length slots)
          xor_data
          false
          (collected now start slots)
          (surveyed t start slots new_survey)
          (cleared d)
unfolding handle_block
handle_block_lem stamp now touched start slots t xor_data d pos fits audio all =
    let size = length slots in
    ap
      (λ (r : Block × Decoder).
        let (b, d1) = r in
        let (b', d2) = collect_pending now start size b d1 in judge stamp start size xor_data b' d2)
      (opened_lem now touched start size (entries start slots) d pos)
    ∙ ap (λ (r : Block × Decoder). let (b', d2) = r in judge stamp start size xor_data b' d2)
        (collect_lem now touched start slots d)
    ∙ judge_lem stamp now start slots t xor_data d fits audio all

-- What the survey found.
record Found (t : PacketType) (slots : List (Option AudioPacket)) (v w : Survey) : Type 0 where
  counted : w.missing_count ≡ v.missing_count + absent_count slots
  only : w.range_is_audio_only ≡ v.range_is_audio_only
  slot : w.range_has_discarded_slot ≡ v.range_has_discarded_slot
  uniform : w.range_type_uniform ≡ v.range_type_uniform

surveyed-Found :
    (t : PacketType) (slots : List (Option AudioPacket)) (s : ℕ) (v : Survey)
    → Found t slots v (surveyed t s slots v)
surveyed-Found t [] s v = record { counted = omega arith; only = refl; slot = refl; uniform = refl }
surveyed-Found t (none ∷ slots) s v =
    let f =
      surveyed-Found t slots (s + 1)
        (record v { missing_count = v.missing_count + 1; missing_seq = s }) in
    record { counted = omega (arith, f.counted); only = f.only; slot = f.slot; uniform = f.uniform }
surveyed-Found t (some p ∷ slots) s v =
    let f = surveyed-Found t slots (s + 1) (record v { member_type = some t }) in
    record { counted = omega (arith, f.counted); only = f.only; slot = f.slot; uniform = f.uniform }

-- The number of missing slots decides over a range of one audio type.
resolve_clean :
    (stamp start size : ℕ) (xor_data : List ℕ) (b : Block) (v : Survey) (d : Decoder)
    → v.range_is_audio_only ≡ true
    → v.range_has_discarded_slot ≡ false
    → v.range_type_uniform ≡ true
    → resolve stamp start size xor_data false b v d ≡ (
        if v.missing_count == 0
        then record d { fec_blocks_complete = d.fec_blocks_complete + 1 }
        else if v.missing_count == 1
        then recover (recovered_packet stamp start size xor_data b v) v.missing_seq d
        else let failed = emit_known_gaps size start b d in
          record failed { fec_blocks_failed = failed.fec_blocks_failed + 1 })
unfolding resolve
resolve_clean stamp start size xor_data b v d only slot uniform = simp (only, slot, uniform)
