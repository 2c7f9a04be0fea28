-- ===== src/Decoder/Parity.antt =====
-- src/FecDecoder.cpp: `handleParity`. The range of a parity packet is collected from the pending
-- block and surveyed; a range that is not the encoder's block is declined.
use naudio.Prelude.{
  ℕ, zero, suc, ◌+◌, ◌-◌, ◌%◌, ◌^◌, Bool, true, false, not, ◌&&◌, ◌||◌, Option, none, some, List,
  [], ◌∷◌, length, ltb, leb, ◌==◌, if◌then◌else◌,
}
use naudio.Prelude.Int.{ℤ}
use naudio.Prelude.Word.{sub_u32}
use naudio.Bytes.{reader, get_u32, get_u8, read_bytes}
use naudio.Packet.{AudioPacket, PacketType, audio_rx, type_value}
use naudio.Packet
use naudio.Assoc.{insert, erase, find}
use naudio.Fec.{min_block_size, max_block_size, parity_header_size, xor_into}
use naudio.Decoder.{
  Decoder, Block, SequenceSet, new_block, pending_key, biased, is_audio, emit, live, recovered,
  begin_hold, get_or_create_block, cap_pending,
}

-- `seq >= startSeq && seq < blockEnd`, without a wrap.
abbrev pub in_range : ℕ → ℕ → ℕ → Bool
in_range start size seq = leb start seq && ltb seq (start + size)

-- `getOrCreateBlock(PENDING_KEY).packets.insert_or_assign(seq, pkt)`.
unfoldable pub refile_packet : ℤ → ℕ → AudioPacket → Decoder → Decoder
unfolding get_or_create_block
refile_packet now seq p d =
    let b = get_or_create_block now pending_key d.active_blocks in
    record d {
      active_blocks =
          insert pending_key (record b { packets = insert seq p b.packets }) d.active_blocks;
    }

unfoldable pub refile_missing : ℤ → ℕ → Decoder → Decoder
unfolding get_or_create_block
refile_missing now seq d =
    let b = get_or_create_block now pending_key d.active_blocks in
    record d {
      active_blocks =
          insert pending_key (record b { missing_sequences = insert seq tt b.missing_sequences })
            d.active_blocks;
    }

-- The loop over the pending packets: into the block or back.
unfoldable pub move_packets : ℤ → ℕ → ℕ → List (ℕ × AudioPacket) → Block → Decoder → Block × Decoder
unfolding refile_packet
move_packets now start size [] b d = (b, d)
move_packets now start size ((seq, p) ∷ pending) b d =
    let inside = in_range start size seq in
    move_packets now start size pending
      (if inside then record b { packets = insert seq p b.packets } else b)
      (if inside then d else refile_packet now seq p d)

unfoldable pub move_missing : ℤ → ℕ → ℕ → SequenceSet → Block → Decoder → Block × Decoder
unfolding refile_missing
move_missing now start size [] b d = (b, d)
move_missing now start size ((seq, t) ∷ pending) b d =
    let inside = in_range start size seq in
    move_missing now start size pending
      (if inside then record b { missing_sequences = insert seq tt b.missing_sequences } else b)
      (if inside then d else refile_missing now seq d)

-- `if (refiled != end()) capPending(...)`.
unfoldable pub cap_refiled : Decoder → Decoder
unfolding cap_pending
cap_refiled d = elim (find pending_key d.active_blocks) [ none ↦ d | some b ↦ cap_pending b d ]

-- The block with the start and size of the header, out of `activeBlocks_` if it is there.
unfoldable pub opened_block : ℤ → ℕ → ℕ → Decoder → Block × Decoder
opened_block now start size d = elim (find start d.active_blocks) [
  | none ↦ (new_block start size now, d)
  | some b ↦
      (record b { block_size = size }, record d { active_blocks = erase start d.active_blocks })
]

-- The range collected from the pending block, the rest of which is filed again.
unfoldable pub collect_pending : ℤ → ℕ → ℕ → Block → Decoder → Block × Decoder
unfolding move_packets move_missing cap_refiled
collect_pending now start size b d = elim (find pending_key d.active_blocks) [
  | none ↦ (b, d)
  | some pending ↦
      let emptied = record d { active_blocks = erase pending_key d.active_blocks } in
      let (b1, d1) = move_packets now start size pending.packets b emptied in
      let (b2, d2) = move_missing now start size pending.missing_sequences b1 d1 in
      (b2, cap_refiled d2)
]

-- The variables of the counting loop. `member_type` is `memberType` once `memberTypeSeen`.
pub record Survey : Type 0 where
  pub missing_count : ℕ
  pub missing_seq : ℕ
  pub range_is_audio_only : Bool
  pub range_has_discarded_slot : Bool
  pub member_type : Option PacketType
  pub range_type_uniform : Bool

abbrev pub new_survey : Survey
new_survey = record {
  missing_count = 0;
  missing_seq = 0x7fffffff;
  range_is_audio_only = true;
  range_has_discarded_slot = false;
  member_type = none;
  range_type_uniform = true;
}

unfoldable pub survey_absent : ℕ → SequenceSet → Survey → Survey
survey_absent seq discarded v = record v {
  missing_count = v.missing_count + 1;
  missing_seq = seq;
  range_has_discarded_slot = elim (find seq discarded) [
    | none ↦ v.range_has_discarded_slot
    | some t ↦ true
  ];
}

unfoldable pub survey_present : PacketType → Survey → Survey
unfolding is_audio type_value
survey_present t v =
    if not (is_audio t) then record v { range_is_audio_only = false } else elim v.member_type [
      | none ↦ record v { member_type = some t }
      | some m ↦ if type_value t == type_value m then v else record v { range_type_uniform = false }
    ]

-- The counting loop from the `int64_t` s on; `s % 2 ^ 32` is its `int32_t`.
unfoldable pub survey : ℕ → ℕ → List (ℕ × AudioPacket) → SequenceSet → Survey → Survey
unfolding survey_absent survey_present
survey zero s packets discarded v = v
survey (suc n) s packets discarded v =
    survey n (s + 1) packets discarded (elim (find (s % 2 ^ 32) packets) [
      | none ↦ survey_absent (s % 2 ^ 32) discarded v
      | some p ↦ survey_present p.packet_type v
    ])

unfoldable pub at_or_past_block_end : ℕ → ℕ → ℕ → Bool
at_or_past_block_end start size seq = let d = sub_u32 seq start in leb size d && ltb d (2 ^ 31)

unfoldable pub scan_for_member : ℕ → ℕ → List (ℕ × AudioPacket) → Bool
unfolding is_audio at_or_past_block_end
scan_for_member start size [] = false
scan_for_member start size ((seq, p) ∷ packets) =
    is_audio p.packet_type && at_or_past_block_end start size seq
    || scan_for_member start size packets

unfoldable pub scan_discarded : ℕ → ℕ → SequenceSet → Bool
unfolding at_or_past_block_end
scan_discarded start size [] = false
scan_discarded start size ((seq, t) ∷ s) =
    at_or_past_block_end start size seq || scan_discarded start size s

-- `rangeHasDisplacedMember`.
unfoldable pub has_displaced_member : ℕ → ℕ → Block → Decoder → Bool
unfolding scan_for_member scan_discarded
has_displaced_member start size b d =
    scan_for_member start size b.packets
    || (elim (find pending_key d.active_blocks) [
      | none ↦ false
      | some leftovers ↦ scan_for_member start size leftovers.packets
    ])
    || scan_discarded start size d.discarded_sequences

-- `s.erase(s.begin(), s.lower_bound(bound))`.
unfoldable pub prune_below : ℕ → SequenceSet → SequenceSet
prune_below bound [] = []
prune_below bound ((seq, t) ∷ s) = if ltb seq bound then prune_below bound s else (seq, t) ∷ s

-- The loop that takes the members that did arrive out of the parity data.
unfoldable pub xor_present : ℕ → ℕ → List (ℕ × AudioPacket) → List ℕ → List ℕ
unfolding xor_into
xor_present zero s packets acc = acc
xor_present (suc n) s packets acc =
    xor_present n (s + 1) packets
      (elim (find (s % 2 ^ 32) packets) [ none ↦ acc | some p ↦ xor_into acc p.payload ])

-- The recovered packet, of the members' type; `stamp` is the reading of the constructor's clock.
unfoldable pub recovered_packet : ℕ → ℕ → ℕ → List ℕ → Block → Survey → AudioPacket
unfolding xor_present
recovered_packet stamp start size xor_data b v =
    Packet.create stamp (elim v.member_type [ none ↦ audio_rx | some t ↦ t ]) (biased v.missing_seq)
      (xor_present size start b.packets xor_data)

unfoldable pub recover : AudioPacket → ℕ → Decoder → Decoder
unfolding begin_hold
recover p missing_seq d =
    let held = begin_hold missing_seq d in
    record held {
      held_packets =
          insert missing_seq (record { packet = p; provenance = recovered }) held.held_packets;
      packets_recovered_by_fec = held.packets_recovered_by_fec + 1;
      fec_blocks_complete = held.fec_blocks_complete + 1;
    }

-- The loop that emits silence for each known gap.
unfoldable pub emit_known_gaps : ℕ → ℕ → Block → Decoder → Decoder
unfolding emit
emit_known_gaps zero s b d = d
emit_known_gaps (suc n) s b d = emit_known_gaps n (s + 1) b (elim (find (s % 2 ^ 32) b.packets) [
  | none ↦ elim (find (s % 2 ^ 32) b.missing_sequences) [ none ↦ d | some t ↦ emit none live d ]
  | some p ↦ d
])

unfoldable pub unreconciled : Decoder → Decoder
unreconciled d = record d { fec_blocks_unreconciled = d.fec_blocks_unreconciled + 1 }

-- What becomes of a surveyed range.
unfoldable pub resolve : ℕ → ℕ → ℕ → List ℕ → Bool → Block → Survey → Decoder → Decoder
unfolding unreconciled recovered_packet recover emit_known_gaps
resolve stamp start size xor_data displaced b v d =
    if not v.range_is_audio_only || v.range_has_discarded_slot || not v.range_type_uniform
    then unreconciled d
    else if v.missing_count == 0
    then record d { fec_blocks_complete = d.fec_blocks_complete + 1 }
    else if v.missing_count == 1
    then (if displaced
        then unreconciled d
        else recover (recovered_packet stamp start size xor_data b v) v.missing_seq d)
    else let failed = emit_known_gaps size start b d in
      record failed { fec_blocks_failed = failed.fec_blocks_failed + 1 }

-- The survey, the search for a displaced member, the pruning and the outcome.
unfoldable pub judge : ℕ → ℕ → ℕ → List ℕ → Block → Decoder → Decoder
unfolding survey has_displaced_member prune_below resolve
judge stamp start size xor_data b d =
    let v = survey size start b.packets d.discarded_sequences new_survey in
    let displaced = has_displaced_member start size b d in
    let pruned = record d {
      discarded_sequences = prune_below ((start + size) % 2 ^ 32) d.discarded_sequences;
    } in
    resolve stamp start size xor_data displaced b v pruned

-- `handleParity` behind the header, with `start` biased.
unfoldable pub handle_block : ℕ → ℤ → ℕ → ℕ → List ℕ → Decoder → Decoder
unfolding opened_block collect_pending judge
handle_block stamp now start size xor_data d =
    let (b, d1) = opened_block now start size d in
    let (b', d2) = collect_pending now start size b d1 in judge stamp start size xor_data b' d2

-- The header and the data, as the `ByteReader` reads them one after the other.
abbrev pub parity_start : AudioPacket → ℕ
parity_start parity = biased (get_u32 (reader parity.payload)).0

abbrev pub parity_size : AudioPacket → ℕ
parity_size parity = (get_u8 (get_u32 (reader parity.payload)).1).0

abbrev pub parity_data : AudioPacket → List ℕ
parity_data parity =
    (read_bytes (get_u8 (get_u32 (reader parity.payload)).1).1
      (length parity.payload - parity_header_size)).0

unfoldable pub handle_parity : ℕ → ℤ → AudioPacket → Decoder → Decoder
unfolding unreconciled handle_block
handle_parity stamp now parity d =
    let size = parity_size parity in
    if ltb (length parity.payload) parity_header_size
    then d
    else if ltb size min_block_size || ltb max_block_size size
    then unreconciled d
    else handle_block stamp now (parity_start parity) size (parity_data parity) d
