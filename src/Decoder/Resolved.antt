-- ===== src/Decoder/Resolved.antt =====
-- The bounds of `FecDecoder` across `handleParity`.
use naudio.Prelude.{
  ℕ, ◌+◌, ◌%◌, ◌^◌, ◌≤◌, ◌≡◌, refl, sym, ◌∙◌, inl, inr, Bool, true, false, List, [], ◌∷◌, arith,
  length, ltb, ◌==◌, not, ◌||◌, Bool-cases, if◌then◌else◌,
}
use naudio.Prelude.Int.{ℤ}
use naudio.Packet.{AudioPacket}
use naudio.Fec.{min_block_size, max_block_size, parity_header_size}
use naudio.Assoc.{insert, AllEntries}
use naudio.Decoder.{Decoder, Block, SequenceSet, begin_hold, release_held, recovered}
use naudio.Decoder.Parity.{
  opened_block, collect_pending, prune_below, resolve, judge, handle_block, handle_parity, recover,
  unreconciled, Survey, survey, new_survey, has_displaced_member, parity_size, parity_start,
  parity_data,
}
use naudio.Decoder.Trace.{emit_known_gaps_lem, release_held_open, release_held_shut}
use naudio.Decoder.Bounded.{IsBlocks}
use naudio.Decoder.Refiled.{Settled, opened_block-Settled, collect_pending-Settled}

-- Between two releases of the hold: the blocks are bounded, and without a hold nothing is held.
pub record IsLoose (d : Decoder) : Type 0 where
  pub blocks : IsBlocks d.active_blocks d.discarded_sequences
  pub idle : d.holding ≡ false → d.held_packets ≡ []

pub branch {ℓ} :
    {A : Type ℓ} (P : A → Type 0) (c : Bool) {x y : A} → P x → P y → P (if c then x else y)
branch P true h k = h
branch P false h k = k

length-prune_below : (bound : ℕ) (s : SequenceSet) → length (prune_below bound s) ≤ length s
unfolding prune_below
length-prune_below bound [] = omega arith
length-prune_below bound ((k, t) ∷ s) = ground (arith, length-prune_below bound s)

AllEntries_le :
    (a b : ℕ) (m : List (ℕ × Block))
    → a ≤ b
    → AllEntries (λ k c. b ≤ 40) m
    → AllEntries (λ k c. a ≤ 40) m
AllEntries_le a b [] h v = tt
AllEntries_le a b ((k, c) ∷ m) h v = (omega (arith, v.0), AllEntries_le a b m h v.1)

pruned-IsLoose :
    (bound : ℕ) (d : Decoder)
    → IsLoose d
    → IsLoose (record d { discarded_sequences = prune_below bound d.discarded_sequences })
pruned-IsLoose bound d h =
    let fewer = length-prune_below bound d.discarded_sequences in
    record {
      blocks = record {
        shape = h.blocks.shape;
        small = h.blocks.small;
        room =
            AllEntries_le (length (prune_below bound d.discarded_sequences))
              (length d.discarded_sequences) d.active_blocks fewer h.blocks.room;
        recorded = omega (arith, fewer, h.blocks.recorded);
      };
      idle = h.idle;
    }

unreconciled-IsLoose : (d : Decoder) → IsLoose d → IsLoose (unreconciled d)
unfolding unreconciled
unreconciled-IsLoose d h = record { blocks = h.blocks; idle = h.idle }

recover-IsLoose : (p : AudioPacket) (seq : ℕ) (d : Decoder) → IsLoose d → IsLoose (recover p seq d)
unfolding recover begin_hold
recover-IsLoose p seq d h = go d.holding refl
  where
    go :
        (c : Bool)
        → d.holding ≡ c
        → IsLoose (
            let held = (if c then d else record d { holding = true; hold_base_seq = seq }) in
            record held {
              held_packets =
                  insert seq (record { packet = p; provenance = recovered }) held.held_packets;
              packets_recovered_by_fec = held.packets_recovered_by_fec + 1;
              fec_blocks_complete = held.fec_blocks_complete + 1;
            })
    go true open_hold = record {
      blocks = h.blocks;
      idle = λ shut. absurd (let clash = sym open_hold ∙ shut in cc);
    }
    go false shut = record { blocks = h.blocks; idle = λ e. absurd (cc) }

resolve-IsLoose :
    (stamp start size : ℕ) (xor_data : List ℕ) (displaced : Bool) (b : Block) (v : Survey)
    (d : Decoder)
    → IsLoose d
    → IsLoose (resolve stamp start size xor_data displaced b v d)
unfolding resolve
resolve-IsLoose stamp start size xor_data displaced b v d h =
    branch IsLoose
      (not v.range_is_audio_only || v.range_has_discarded_slot || not v.range_type_uniform)
      (unreconciled-IsLoose d h)
      (branch IsLoose (v.missing_count == 0) (record { blocks = h.blocks; idle = h.idle })
        (branch IsLoose (v.missing_count == 1)
          (branch IsLoose displaced (unreconciled-IsLoose d h)
            (recover-IsLoose _ v.missing_seq d h))
          (rw (emit_known_gaps_lem size start b d) (record { blocks = h.blocks; idle = h.idle }))))

judge-IsLoose :
    (stamp start size : ℕ) (xor_data : List ℕ) (b : Block) (d : Decoder)
    → IsLoose d
    → IsLoose (judge stamp start size xor_data b d)
unfolding judge
judge-IsLoose stamp start size xor_data b d h =
    resolve-IsLoose stamp start size xor_data (has_displaced_member start size b d) b
      (survey size start b.packets d.discarded_sequences new_survey)
      (record d {
        discarded_sequences = prune_below ((start + size) % 2 ^ 32) d.discarded_sequences;
      })
      (pruned-IsLoose ((start + size) % 2 ^ 32) d h)

Settled-IsLoose : (d e : Decoder) → Settled d e → IsLoose d → IsLoose e
Settled-IsLoose d e s h = record {
  blocks = s.blocks;
  idle = λ shut. s.kept.0 ∙ h.idle (sym s.kept.1 ∙ shut);
}

handle_block-IsLoose :
    (stamp : ℕ) (now : ℤ) (start size : ℕ) (xor_data : List ℕ) (d : Decoder)
    → IsLoose d
    → IsLoose (handle_block stamp now start size xor_data d)
unfolding handle_block
handle_block-IsLoose stamp now start size xor_data d h =
    let o = opened_block now start size d in
    let c = collect_pending now start size o.0 o.1 in
    let h1 = Settled-IsLoose d o.1 (opened_block-Settled now start size d h.blocks) h in
    judge-IsLoose stamp start size xor_data c.0 c.1
      (Settled-IsLoose o.1 c.1 (collect_pending-Settled now start size o.0 o.1 h1.blocks) h1)

pub handle_parity-IsLoose :
    (stamp : ℕ) (now : ℤ) (parity : AudioPacket) (d : Decoder)
    → IsLoose d
    → IsLoose (handle_parity stamp now parity d)
unfolding handle_parity
handle_parity-IsLoose stamp now parity d h =
    let size = parity_size parity in
    branch IsLoose (ltb (length parity.payload) parity_header_size) h (
      branch IsLoose (ltb size min_block_size || ltb max_block_size size) (unreconciled-IsLoose d h)
        (handle_block-IsLoose stamp now (parity_start parity) size (parity_data parity) d h))

-- What holds between two calls.
pub record IsBounded (d : Decoder) : Type 0 where
  pub blocks : IsBlocks d.active_blocks d.discarded_sequences
  pub idle : d.holding ≡ false → d.held_packets ≡ []
  pub held_few : length d.held_packets ≤ 20

pub release_held-IsBounded : (d : Decoder) → IsLoose d → IsBounded (release_held d)
release_held-IsBounded d h = elim (Bool-cases d.holding) [
  | inl open_hold ↦
      rw (release_held_open d open_hold)
        (record { blocks = h.blocks; idle = λ e. refl; held_few = omega arith })
  | inr shut ↦
      rw (release_held_shut d shut)
        (record { blocks = h.blocks; idle = h.idle; held_few = rw (h.idle shut) (omega arith) })
]
