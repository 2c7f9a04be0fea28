-- ===== src/Examples/Channel.antt =====
-- Two clients of the mixer over a buffer of four bytes.
use naudio.Prelude.{◌≡◌, refl, arith, true, false, none, some, List, [], ◌∷◌}
use naudio.Prelude.Int.{pos}
use naudio.Config.{default_config}
use naudio.Assoc.{find}
use naudio.Ring.{Ring}
use naudio.Ring
use naudio.Ring.Valid.{IsValid}
use naudio.Ring.Session.{create-IsValid}
use naudio.Mixer.{Mixer, normal, high, submit_tx_audio, current_tx_owner}
use naudio.Mixer.Ownership.{Outcome, submit_tx_audio-Outcome}
use naudio.Mixer.Isolation.{IsSound, Call, unregisters, submits, run, run-IsSound}

abbrev mixer : Mixer
mixer = record {
  config = default_config;
  clients = (1, normal) ∷ (2, high) ∷ [];
  tx_ownership = none;
  last_tx_activity_time = pos 0;
  tx_buffer = Ring.create default_config (pos 4);
  notices = [];
  running = true;
}

valid : IsValid mixer.tx_buffer
valid = (create-IsValid default_config 4 (omega arith) (omega arith)).0

known : find 2 mixer.clients ≡ some high
unfolding find
known = refl

submit_tx_audio-Outcome_example :
    Outcome
      (pos 5)
      mixer
      false
      2
      high
      (7 ∷ 8 ∷ [])
      (submit_tx_audio (pos 5) (pos 5) false 2 (7 ∷ 8 ∷ []) mixer)
submit_tx_audio-Outcome_example =
    submit_tx_audio-Outcome (pos 5) (pos 5) false 2 high (7 ∷ 8 ∷ []) mixer known valid
      (omega arith)

abbrev calls : List Call
calls =
    submits (pos 0) (pos 0) false 1 (7 ∷ [])
    ∷ submits (pos 1) (pos 1) false 2 (8 ∷ 9 ∷ [])
    ∷ unregisters 2
    ∷ []

run-IsSound_example : IsSound (run calls mixer)
run-IsSound_example =
    run-IsSound calls mixer (omega arith, (omega arith, (tt, tt)))
      (record { valid = valid; owner = tt })

-- The client of the higher priority takes the channel over.
preempted_run :
    current_tx_owner (
      run
        (submits (pos 0) (pos 0) false 1 (7 ∷ [])
          ∷ submits (pos 1) (pos 1) false 2 (8 ∷ 9 ∷ [])
          ∷ [])
        mixer)
    ≡ 2
unfolding current_tx_owner submit_tx_audio find
preempted_run = refl
