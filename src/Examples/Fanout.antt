-- ===== src/Examples/Fanout.antt =====
-- A buffer of silence in frames of two, for a target whose queue is full at its second frame.
use naudio.Prelude.{ℕ, ◌%◌, ◌≤◌, ◌<◌, ◌≡◌, ◌⊎◌, refl, arith, true, false, ◌||◌, List, [], ◌∷◌, ltb}
use naudio.Prelude.Int.{pos, pos_part, leb_ℤ, ltb_ℤ}
use naudio.Config.{default_config, max_payload}
use naudio.Broadcast.{Target, sample_frame, max_frame_bytes, send_to, broadcast}
use naudio.Broadcast.Frames.{Sent, send_to-Sent, max_frame_bytes-bounds}

abbrev silence : List ℕ
silence = 0 ∷ 0 ∷ 0 ∷ 0 ∷ 0 ∷ []

-- Takes its first frame, and refuses an equal one behind it.
abbrev full_queue : Target
full_queue = record { accepts = λ n frame. ltb n 1; handed = [] }

-- Takes all.
abbrev patient : Target
patient = record { accepts = λ n frame. true; handed = [] }

send_to-Sent_example : Sent 2 silence full_queue (send_to 2 silence full_queue)
send_to-Sent_example = send_to-Sent 2 silence full_queue (omega arith)

refused_second : (send_to 2 silence full_queue).1.handed ≡ (0 ∷ 0 ∷ []) ∷ (0 ∷ 0 ∷ []) ∷ []
unfolding send_to
refused_second = refl

refused : (send_to 2 silence full_queue).0 ≡ false
unfolding send_to
refused = refl

-- Only the target that refused is removed.
one_stays : (broadcast 2 silence ((1, full_queue) ∷ (2, patient) ∷ [])).0 ≡ 1 ∷ []
unfolding broadcast
one_stays = refl

max_frame_bytes-bounds_example :
    (0 < max_frame_bytes default_config)
    × (max_frame_bytes default_config ≤ max_payload)
    × (((leb_ℤ (sample_frame default_config) (pos 0)
            || ltb_ℤ (pos max_payload) (sample_frame default_config))
          ≡ true)
        ⊎ (max_frame_bytes default_config % pos_part (sample_frame default_config) ≡ 0))
max_frame_bytes-bounds_example = max_frame_bytes-bounds default_config
