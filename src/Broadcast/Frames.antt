-- ===== src/Broadcast/Frames.antt =====
-- `AudioBroadcaster`: how the broadcast loop cuts a buffer into frames.
use native.Mathlib.Nat.{mod-add-div', mod-lt, mul-mod_left}
use naudio.Prelude.{
  by_test, ℕ, zero, suc, ◌+◌, ◌*◌, ◌/◌, ◌%◌, ◌≤◌, ◌<◌, min, ◌≡◌, refl, ap, ◌∙◌, subst,
  length-append, inl, inr, Bool, true, false, ◌||◌, List, [], ◌∷◌, ◌++◌, append-nil, arith, length,
  append_assoc, length-take, length-drop, take-append-drop, ltb→lt, ◌⊎◌, take, drop, ltb,
  if◌then◌else◌,
}
use naudio.Prelude.Int.{ℤ, pos, pos_part, leb_ℤ, ltb_ℤ}
use naudio.Config.{AudioStreamConfig, max_payload}
use naudio.Broadcast.{
  Target, receive_rx_audio, sample_frame, frames_within, max_frame_bytes, send_frames, send_to,
}

abbrev pub joined : List (List ℕ) → List ℕ
joined [] = []
joined (f ∷ fs) = f ++ joined fs

-- All frames but the last have the full size, and no frame is longer.
abbrev pub AllFit : ℕ → List (List ℕ) → Type 0
AllFit chunk [] = Unit {0}
AllFit chunk (f ∷ []) = length f ≤ chunk
AllFit chunk (f ∷ g ∷ fs) = (length f ≡ chunk) × AllFit chunk (g ∷ fs)

-- What was left over, nothing if the target took every frame.
abbrev pub Rest : Bool → List ℕ → Type 0
Rest true rest = rest ≡ []
Rest false rest = Unit {0}

-- The target accepted every frame, or all but the last one, which it refused, from its n-th call on.
abbrev pub AllAnswered : (ℕ → List ℕ → Bool) → ℕ → Bool → List (List ℕ) → Type 0
AllAnswered accepts n true [] = Unit {0}
AllAnswered accepts n true (f ∷ fs) = (accepts n f ≡ true) × AllAnswered accepts (suc n) true fs
AllAnswered accepts n false [] = ⊥
AllAnswered accepts n false (f ∷ []) = accepts n f ≡ false
AllAnswered accepts n false (f ∷ g ∷ fs) =
    (accepts n f ≡ true) × AllAnswered accepts (suc n) false (g ∷ fs)

-- What the loop leaves of the target `t`.
pub record Sent (chunk : ℕ) (source : List ℕ) (t : Target) (res : Bool × Target) : Type 0 where
  pub frames : List (List ℕ)
  pub traced : res.1.handed ≡ t.handed ++ frames
  pub same_target : res.1.accepts ≡ t.accepts
  pub some_frame : 0 < length frames
  pub fits : AllFit chunk frames
  pub rest : List ℕ
  pub whole : joined frames ++ rest ≡ source
  pub complete : Rest res.0 rest
  pub answers : AllAnswered t.accepts (length t.handed) res.0 frames

fits-cons :
    (chunk : ℕ) (f : List ℕ) (fs : List (List ℕ))
    → length f ≡ chunk
    → AllFit chunk fs
    → AllFit chunk (f ∷ fs)
fits-cons chunk f [] e h = omega (arith, e)
fits-cons chunk f (g ∷ fs) e h = (e, h)

answers-cons :
    (accepts : ℕ → List ℕ → Bool) (n : ℕ) (ok : Bool) (f : List ℕ) (fs : List (List ℕ))
    → accepts n f ≡ true
    → AllAnswered accepts (suc n) ok fs
    → AllAnswered accepts n ok (f ∷ fs)
answers-cons accepts n true f fs e h = (e, h)
answers-cons accepts n false f [] e h = elim h [ ]
answers-cons accepts n false f (g ∷ fs) e h = (e, h)

module _ (chunk : ℕ) (rest : List ℕ) (t : Target) where
  abbrev frame : List ℕ
  frame = take (min (length rest) chunk) rest

  abbrev left : List ℕ
  left = drop (min (length rest) chunk) rest

  abbrev handed_one : Target
  handed_one = record t { handed = t.handed ++ frame ∷ [] }

  -- The last frame, and what came of it.
  last_frame :
      (ok : Bool)
      → t.accepts (length t.handed) frame ≡ ok
      → Rest ok left
      → Sent chunk rest t (ok, handed_one)
  last_frame ok e none_left = record {
    frames = frame ∷ [];
    traced = refl;
    same_target = refl;
    some_frame = omega arith;
    fits = omega (arith, length-take (min (length rest) chunk) rest);
    rest = left;
    whole =
        ap (λ f. f ++ left) (append-nil frame) ∙ take-append-drop (min (length rest) chunk) rest;
    complete = none_left;
    answers = answered ok e;
  }
    where
      answered :
          (b : Bool)
          → t.accepts (length t.handed) frame ≡ b
          → AllAnswered t.accepts (length t.handed) b (frame ∷ [])
      answered true e = (e, tt)
      answered false e = e

  -- A frame with more behind it.
  next_frame :
      (later : Bool × Target)
      → t.accepts (length t.handed) frame ≡ true
      → 0 < length left
      → Sent chunk left handed_one later
      → Sent chunk rest t later
  next_frame later e more s = record {
    frames = frame ∷ s.frames;
    traced = s.traced ∙ append_assoc t.handed (frame ∷ []) s.frames;
    same_target = s.same_target;
    some_frame = omega arith;
    fits = fits-cons chunk frame s.frames full s.fits;
    rest = s.rest;
    whole =
        append_assoc frame (joined s.frames) s.rest
        ∙ ap (λ l. frame ++ l) s.whole
        ∙ take-append-drop (min (length rest) chunk) rest;
    complete = s.complete;
    answers =
        answers-cons t.accepts (length t.handed) later.0 frame s.frames e
          (subst (λ n. AllAnswered t.accepts n later.0 s.frames) one_more s.answers);
  }
    where
      full : length frame ≡ chunk
      full = omega (
        arith,
        more,
        length-drop (min (length rest) chunk) rest,
        length-take (min (length rest) chunk) rest,
      )

      one_more : length (t.handed ++ frame ∷ []) ≡ suc (length t.handed)
      one_more = omega (arith, length-append t.handed (frame ∷ []))

send_frames-Sent :
    (fuel chunk : ℕ) (rest : List ℕ) (t : Target)
    → 0 < chunk
    → length rest < fuel
    → Sent chunk rest t (send_frames fuel chunk rest t)
unfolding send_frames receive_rx_audio
send_frames-Sent zero chunk rest t some_room enough = absurd (omega arith)
send_frames-Sent (suc fuel) chunk rest t some_room enough =
    by_test (Sent chunk rest t) (t.accepts (length t.handed) (frame chunk rest t))
      (λ ok.
        by_test (Sent chunk rest t) (ltb 0 (length (left chunk rest t)))
          (λ more.
            let some_left = ltb→lt 0 (length (left chunk rest t)) more in
            next_frame chunk rest t _ ok some_left (
              send_frames-Sent fuel chunk (left chunk rest t) (handed_one chunk rest t) some_room
                (omega (arith, some_left, length-drop (min (length rest) chunk) rest))))
          (λ over. last_frame chunk rest t true ok (nothing (left chunk rest t) over)))
      (λ refused. last_frame chunk rest t false refused tt)
  where
    nothing : (xs : List ℕ) → ltb 0 (length xs) ≡ false → xs ≡ []
    nothing [] h = refl
    nothing (x ∷ xs) h = absurd (ground arith)

-- A target, whatever it answers to each of its calls, is handed the buffer cut in frames, one at
-- least, of which none is longer than the frame size and only the last may be shorter: the whole of
-- it if it accepts them all, and otherwise what stands before the end of the first frame that it
-- refuses.
pub send_to-Sent :
    (chunk : ℕ) (source : List ℕ) (t : Target)
    → 0 < chunk
    → Sent chunk source t (send_to chunk source t)
unfolding send_to
send_to-Sent chunk source t some_room =
    send_frames-Sent (suc (length source)) chunk source t some_room (omega arith)

in_range :
    (z : ℤ)
    → (leb_ℤ z (pos 0) || ltb_ℤ (pos max_payload) z) ≡ false
    → (0 < pos_part z) × (pos_part z ≤ max_payload)
in_range z e = ground arith

rounded : (limit n : ℕ) → 0 < n → n ≤ limit → (0 < limit / n * n) × (limit / n * n ≤ limit)
rounded limit n h fit = go (limit % n) (limit / n * n) (mod-add-div' limit n) (mod-lt limit h)
  where
    go : (r q : ℕ) → r + q ≡ limit → r < n → (0 < q) × (q ≤ limit)
    go r q e l = (omega arith, omega arith)

-- The frame size of every configuration is above 0 and within the payload limit of the wire, and
-- where the configuration has a sample frame that the wire can hold, it is a multiple of it.
pub max_frame_bytes-bounds :
    (c : AudioStreamConfig)
    → (0 < max_frame_bytes c)
      × (max_frame_bytes c ≤ max_payload)
      × (((leb_ℤ (sample_frame c) (pos 0) || ltb_ℤ (pos max_payload) (sample_frame c)) ≡ true)
          ⊎ (max_frame_bytes c % pos_part (sample_frame c) ≡ 0))
unfolding max_frame_bytes frames_within
max_frame_bytes-bounds c =
    go (leb_ℤ (sample_frame c) (pos 0) || ltb_ℤ (pos max_payload) (sample_frame c)) refl
  where
    go :
        (b : Bool)
        → (leb_ℤ (sample_frame c) (pos 0) || ltb_ℤ (pos max_payload) (sample_frame c)) ≡ b
        → (0 < (
            if b
            then max_payload
            else max_payload / pos_part (sample_frame c) * pos_part (sample_frame c)))
          × ((if b
                then max_payload
                else max_payload / pos_part (sample_frame c) * pos_part (sample_frame c))
              ≤ max_payload)
          × (((leb_ℤ (sample_frame c) (pos 0) || ltb_ℤ (pos max_payload) (sample_frame c)) ≡ true)
              ⊎ ((if b
                      then max_payload
                      else max_payload / pos_part (sample_frame c) * pos_part (sample_frame c))
                    % pos_part (sample_frame c)
                  ≡ 0))
    go true e = (omega arith, omega arith, inl e)
    go false e =
        let (some_byte, fitting) = in_range (sample_frame c) e in
        let (above, below) = rounded max_payload (pos_part (sample_frame c)) some_byte fitting in
        (
          above,
          below,
          inr (mul-mod_left (max_payload / pos_part (sample_frame c)) (pos_part (sample_frame c))),
        )
