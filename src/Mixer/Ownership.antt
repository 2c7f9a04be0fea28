-- ===== src/Mixer/Ownership.antt =====
-- `AudioMixer::submitTxAudio`: who owns the channel afterwards, and what is in the buffer.
use naudio.Prelude.{
  ℕ, ◌<◌, ◌^◌, ◌≡◌, ◌≢◌, refl, sym, ap, ◌∙◌, subst, ◌⊎◌, inl, inr, Bool, true, false, Option, none,
  some, List, [], ◌∷◌, ◌++◌, arith, length, ltb, ◌==◌, ==_iff, if◌then◌else◌,
}
use naudio.Prelude.Int.{ℤ}
use naudio.Assoc.{find}
use naudio.Queue
use naudio.Ring.{Ring}
use naudio.Ring
use naudio.Ring.Valid.{IsValid, contents}
use naudio.Ring.Writes.{write-Wrote}
use naudio.Mixer
use naudio.Mixer.{
  TxPriority, priority_value, can_preempt, TxResult, accepted, rejected, preempted,
  declined_recovered, Mixer, claim_tx_channel, preempt_current_owner, write_audio,
  submit_registered, submit_tx_audio,
}

-- What a submission does: either nothing but the notices changes, or the client owns the channel,
-- as before or newly, and its audio is in the buffer.
pub record Refused (m : Mixer) (res : TxResult × Mixer) : Type 0 where
  pub answer : res.0 ≢ accepted
  pub members : res.1.clients ≡ m.clients
  pub owner : res.1.tx_ownership ≡ m.tx_ownership
  pub time : res.1.last_tx_activity_time ≡ m.last_tx_activity_time
  pub buffer : res.1.tx_buffer ≡ m.tx_buffer

-- The client had the channel and goes on.
pub record Continued (m : Mixer) (id : ℕ) (held : TxPriority) (source : List ℕ) (recovered : Bool)
    (now : ℤ) (res : TxResult × Mixer) : Type 0 where
  pub answer : res.0 ≡ accepted
  pub members : res.1.clients ≡ m.clients
  pub time : res.1.last_tx_activity_time ≡ (if recovered then m.last_tx_activity_time else now)
  pub before : m.tx_ownership ≡ some (id, held)
  pub owner : res.1.tx_ownership ≡ some (id, held)
  pub heard :
      contents res.1.tx_buffer ≡ Queue.write m.tx_buffer.capacity (contents m.tx_buffer) source
  pub valid : IsValid res.1.tx_buffer

-- Nobody had the channel, or a client with a lower priority.
abbrev pub Yields : Option (ℕ × TxPriority) → TxPriority → Type 0
Yields none priority = Unit {0}
Yields (some (holder, held)) priority = priority_value held < priority_value priority

-- The client takes the channel over, and the buffer holds its audio alone.
pub record TookOver (m : Mixer) (recovered : Bool) (id : ℕ) (priority : TxPriority)
    (source : List ℕ) (res : TxResult × Mixer) : Type 0 where
  pub answer : res.0 ≡ accepted
  pub members : res.1.clients ≡ m.clients
  pub live : recovered ≡ false
  pub before : Yields m.tx_ownership priority
  pub owner : res.1.tx_ownership ≡ some (id, priority)
  pub heard : contents res.1.tx_buffer ≡ Queue.write m.tx_buffer.capacity [] source
  pub valid : IsValid res.1.tx_buffer

pub cleared : (r : Ring) → IsValid r → IsValid (Ring.clear r) × (contents (Ring.clear r) ≡ [])
unfolding Ring.clear contents
cleared r v = (
  record {
    sized = v.sized;
    small = v.small;
    read_in = omega (arith, v.read_in);
    level = omega arith;
    position = omega arith;
  },
  refl,
)

-- The three ways in which a submission ends.
abbrev pub Outcome : ℤ → Mixer → Bool → ℕ → TxPriority → List ℕ → TxResult × Mixer → Type 0
Outcome now m recovered id priority source res =
    (Refused m res)
    ⊎ (((held : TxPriority) × Continued m id held source recovered now res)
        ⊎ (TookOver m recovered id priority source res))

unaccepted : (x : TxResult) → ((x ≡ declined_recovered) ⊎ (x ≡ rejected)) → x ≢ accepted
unaccepted x (inl e) q = absurd (cc)
unaccepted x (inr e) q = absurd (cc)

refuse :
    (now : ℤ) (m : Mixer) (recovered : Bool) (id : ℕ) (priority : TxPriority) (source : List ℕ)
    (x : TxResult)
    → ((x ≡ declined_recovered) ⊎ (x ≡ rejected))
    → Outcome now m recovered id priority source (x, m)
refuse now m recovered id priority source x e =
    inl
      (record { answer = unaccepted x e; members = refl; owner = refl; time = refl; buffer = refl })

module _ (wall now : ℤ) (id : ℕ) (priority : TxPriority) (source : List ℕ) (m : Mixer)
    (v : IsValid m.tx_buffer) (short : length source < 2 ^ 63) where
  taken : Ring
  taken = (Ring.write wall (Ring.clear m.tx_buffer) source).1

  taken_heard : contents taken ≡ Queue.write m.tx_buffer.capacity [] source
  unfolding taken Ring.clear
  taken_heard =
      (write-Wrote wall (Ring.clear m.tx_buffer) source (cleared m.tx_buffer v).0 short).queue
      ∙ ap (λ q. Queue.write m.tx_buffer.capacity q source) (cleared m.tx_buffer v).1

  taken-IsValid : IsValid taken
  unfolding taken
  taken-IsValid =
      (write-Wrote wall (Ring.clear m.tx_buffer) source (cleared m.tx_buffer v).0 short).valid

  claimed :
      m.tx_ownership ≡ none
      → TookOver m false id priority source
          (accepted, write_audio wall source (claim_tx_channel now id priority m))
  unfolding claim_tx_channel write_audio taken
  claimed e = record {
    answer = refl;
    members = refl;
    live = refl;
    before = subst (λ o. Yields o priority) (sym e) tt;
    owner = refl;
    heard = taken_heard;
    valid = taken-IsValid;
  }

  preempting :
      (holder : ℕ) (held : TxPriority)
      → m.tx_ownership ≡ some (holder, held)
      → can_preempt priority held ≡ true
      → TookOver m false id priority source
          (accepted, write_audio wall source (preempt_current_owner now id priority holder m))
  unfolding preempt_current_owner write_audio taken priority_value can_preempt
  preempting holder held e higher = record {
    answer = refl;
    members = refl;
    live = refl;
    before =
        subst (λ o. Yields o priority) (sym e)
          (above (priority_value held) (priority_value priority) higher);
    owner = refl;
    heard = taken_heard;
    valid = taken-IsValid;
  }
    where
      above : (a b : ℕ) → ltb a b ≡ true → a < b
      above a b h = ground arith

  continuing :
      (recovered : Bool) (holder : ℕ) (held : TxPriority)
      → m.tx_ownership ≡ some (holder, held)
      → (holder == id) ≡ true
      → Continued m id held source recovered now (
        accepted,
        write_audio wall source (if recovered then m else record m { last_tx_activity_time = now }),
      )
  unfolding write_audio
  continuing recovered holder held e same = by_provenance recovered
    where
      mine : m.tx_ownership ≡ some (id, held)
      mine = e ∙ ap (λ k. some (k, held)) ((==_iff holder id).0 same)

      by_provenance :
          (b : Bool)
          → Continued m id held source b now (
            accepted,
            write_audio wall source (if b then m else record m { last_tx_activity_time = now }),
          )
      by_provenance true = record {
        answer = refl;
        members = refl;
        time = refl;
        before = mine;
        owner = mine;
        heard = (write-Wrote wall m.tx_buffer source v short).queue;
        valid = (write-Wrote wall m.tx_buffer source v short).valid;
      }
      by_provenance false = record {
        answer = refl;
        members = refl;
        time = refl;
        before = mine;
        owner = mine;
        heard = (write-Wrote wall m.tx_buffer source v short).queue;
        valid = (write-Wrote wall m.tx_buffer source v short).valid;
      }

  contested :
      (recovered : Bool) (holder : ℕ) (held : TxPriority)
      → m.tx_ownership ≡ some (holder, held)
      → (higher : Bool) → can_preempt priority held ≡ higher
      → Outcome now m recovered id priority source (
          if higher
          then (if recovered then (declined_recovered, m) else (
            accepted,
            write_audio wall source (preempt_current_owner now id priority holder m),
          ))
          else if recovered
          then (declined_recovered, m)
          else (rejected, record m { notices = m.notices ++ Mixer.conflict holder id ∷ [] }))
  contested true holder held e true h =
      refuse now m true id priority source declined_recovered (inl refl)
  contested false holder held e true h = inr (inr (preempting holder held e h))
  contested true holder held e false h =
      refuse now m true id priority source declined_recovered (inl refl)
  contested false holder held e false h = inl (record {
    answer = unaccepted rejected (inr refl);
    members = refl;
    owner = refl;
    time = refl;
    buffer = refl;
  })

  by_holder :
      (recovered : Bool) (holder : ℕ) (held : TxPriority)
      → m.tx_ownership ≡ some (holder, held)
      → (mine : Bool) → (holder == id) ≡ mine
      → Outcome now m recovered id priority source (
          if mine
          then (
            accepted,
            write_audio wall source
                (if recovered then m else record m { last_tx_activity_time = now }),
          )
          else if can_preempt priority held
          then (if recovered then (declined_recovered, m) else (
            accepted,
            write_audio wall source (preempt_current_owner now id priority holder m),
          ))
          else if recovered
          then (declined_recovered, m)
          else (rejected, record m { notices = m.notices ++ Mixer.conflict holder id ∷ [] }))
  by_holder recovered holder held e true same =
      inr (inl (held, continuing recovered holder held e same))
  by_holder recovered holder held e false other =
      contested recovered holder held e (can_preempt priority held) refl

  pub registered-Outcome :
      (recovered : Bool)
      → Outcome now m recovered id priority source
          (submit_registered wall now recovered id priority source m)
  unfolding submit_registered
  registered-Outcome recovered = go m.tx_ownership refl
    where
      go :
          (o : Option (ℕ × TxPriority))
          → m.tx_ownership ≡ o
          → Outcome now m recovered id priority source (elim o [
            | none ↦
                if recovered
                then (declined_recovered, m)
                else (accepted, write_audio wall source (claim_tx_channel now id priority m))
            | some (holder, held) ↦
                if holder == id
                then (
                  accepted,
                  write_audio wall source
                      (if recovered then m else record m { last_tx_activity_time = now }),
                )
                else if can_preempt priority held
                then (if recovered then (declined_recovered, m) else (
                  accepted,
                  write_audio wall source (preempt_current_owner now id priority holder m),
                ))
                else if recovered
                then (declined_recovered, m)
                else (rejected, record m { notices = m.notices ++ Mixer.conflict holder id ∷ [] })
          ])
      go none e = unowned recovered
        where
          unowned :
              (b : Bool)
              → Outcome now m b id priority source (
                  if b
                  then (declined_recovered, m)
                  else (accepted, write_audio wall source (claim_tx_channel now id priority m)))
          unowned true = refuse now m true id priority source declined_recovered (inl refl)
          unowned false = inr (inr (claimed e))
      go (some (holder, held)) e = by_holder recovered holder held e (holder == id) refl

-- A submission of a registered client, of any length below half the address space, on a mixer with a
-- valid buffer ends in one of three ways. It is refused, and owner, activity time and buffer are as
-- before; or the client owned the channel and its audio goes behind what the buffer holds, where
-- only audio that FEC did not recover counts as activity; or it takes the channel over, which FEC
-- recovered audio never does, from nobody or from a client of a lower priority, and then the buffer
-- holds nothing of the previous owner.
pub submit_tx_audio-Outcome :
    (wall now : ℤ) (recovered : Bool) (id : ℕ) (priority : TxPriority) (source : List ℕ) (m : Mixer)
    → find id m.clients ≡ some priority
    → IsValid m.tx_buffer
    → length source < 2 ^ 63
    → Outcome now m recovered id priority source (submit_tx_audio wall now recovered id source m)
unfolding submit_tx_audio
submit_tx_audio-Outcome wall now recovered id priority source m found v short =
    subst
      (λ o. Outcome now m recovered id priority source (elim o [
        | none ↦ (if recovered then declined_recovered else rejected, m)
        | some p ↦ submit_registered wall now recovered id p source m
      ]))
      (sym found) (registered-Outcome wall now id priority source m v short recovered)
