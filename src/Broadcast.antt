-- ===== src/Broadcast.antt =====
-- src/net/AudioBroadcaster.cpp: the fan-out of audio to the targets, in frames that one packet of
-- the wire holds. A number stands for a target's name.
pub mod Frames
use naudio.Prelude.{
  ℕ, zero, suc, ◌+◌, ◌-◌, ◌*◌, ◌/◌, min, Bool, true, false, ◌||◌, ◌&&◌, Option, none, some, List,
  [], ◌∷◌, ◌++◌, length, take, drop, ltb, if◌then◌else◌,
}
use naudio.Prelude.Int.{ℤ, pos, pos_part, ◌*ℤ◌, quot_ℤ, leb_ℤ, ltb_ℤ}
use naudio.Assoc.{insert, erase, find}
use naudio.Config.{AudioStreamConfig, max_payload}

-- The sample frame in bytes, in 64 bits.
unfoldable pub sample_frame : AudioStreamConfig → ℤ
sample_frame c = quot_ℤ c.bits_per_sample 8 *ℤ c.channels

-- The wire limit rounded down to whole sample frames.
unfoldable pub frames_within : ℕ → ℕ
frames_within sf = max_payload / sf * sf

unfoldable pub max_frame_bytes : AudioStreamConfig → ℕ
unfolding sample_frame frames_within
max_frame_bytes c =
    if leb_ℤ (sample_frame c) (pos 0) || ltb_ℤ (pos max_payload) (sample_frame c)
    then max_payload
    else frames_within (pos_part (sample_frame c))

-- A target, as the broadcaster sees it: the frames that it was handed, and its answers. It may answer
-- the n-th call as it likes, since its queue drains meanwhile in another thread.
pub record Target : Type 0 where
  pub accepts : ℕ → List ℕ → Bool
  pub handed : List (List ℕ)

-- `receiveRxAudio`.
unfoldable pub receive_rx_audio : List ℕ → Target → Bool × Target
receive_rx_audio frame t =
    (t.accepts (length t.handed) frame, record t { handed = t.handed ++ frame ∷ [] })

-- The `do`-loop over one target, on fuel, with whether the target stays.
unfoldable pub send_frames : ℕ → ℕ → List ℕ → Target → Bool × Target
unfolding receive_rx_audio
send_frames zero chunk rest t = (true, t)
send_frames (suc fuel) chunk rest t =
    let n = min (length rest) chunk in
    let (ok, t') = receive_rx_audio (take n rest) t in
    let left = drop n rest in
    let later = send_frames fuel chunk left t' in
    if ok then (if ltb 0 (length left) then later else (true, t')) else (false, t')

-- One round of the loop over the targets: a frame carries a byte at least, so that there are no more
-- rounds than bytes, and one for none.
unfoldable pub send_to : ℕ → List ℕ → Target → Bool × Target
unfolding send_frames
send_to chunk source t = send_frames (suc (length source)) chunk source t

unfoldable pub add_target : ℕ → Target → List (ℕ × Target) → List (ℕ × Target)
add_target id target targets = insert id target targets

-- The loop over the targets: who failed, in order, and the targets behind it.
unfoldable pub send_to_all : ℕ → List ℕ → List (ℕ × Target) → List ℕ × List (ℕ × Target)
unfolding send_to
send_to_all chunk source [] = ([], [])
send_to_all chunk source ((id, t) ∷ targets) =
    let (ok, t') = send_to chunk source t in
    let (failed, others) = send_to_all chunk source targets in
    (if ok then failed else id ∷ failed, (id, t') ∷ others)

-- The targets that stay.
unfoldable pub remaining_targets : List ℕ → List (ℕ × Target) → List (ℕ × Target)
remaining_targets [] targets = targets
remaining_targets (id ∷ failed) targets = remaining_targets failed (erase id targets)

-- `broadcastToTargets`: who failed, of whom the listener is told, and the targets that stay.
unfoldable pub broadcast : ℕ → List ℕ → List (ℕ × Target) → List ℕ × List (ℕ × Target)
unfolding send_to_all remaining_targets
broadcast chunk source targets =
    let (failed, after) = send_to_all chunk source targets in
    (failed, remaining_targets failed after)
