-- ===== src/Texts/Reasons.antt =====
-- The texts of CONNECT_REJECT, ERROR, TX_DENIED and TX_PREEMPTED.
use naudio.Prelude.{
  ℕ, suc, ◌+◌, ◌%◌, ◌<◌, ◌≡◌, refl, ap, ◌∙◌, Bool, true, false, ◌&&◌, some, List, [], ◌∷◌, arith,
  length, take, ltb, leb, ◌==◌, if◌then◌else◌,
}
use native.Mathlib.Nat.{mod-eq_of_lt}
use naudio.Prelude.Segments.{take_all}
use naudio.Bytes.{put_u8, put_bytes}
use naudio.Control.{message, same_type}
use naudio.Texts.{
  RejectReason, busy, version_mismatch, format_not_supported, auth_failed, rejected, reason_value,
  reject_reason_from_value, connect_reject_message, error_message, ErrorText, text, reason_name,
  parse_reject, parse_error_message, tx_denied_message, tx_preempted_message, parse_tx_client_id,
}

-- The text that a parser should give back: the name of the reason where there is none.
abbrev pub shown : RejectReason → List ℕ → ErrorText
shown reason [] = reason_name reason
shown reason (b ∷ bytes) = text (b ∷ bytes)

reason_back :
    (reason : RejectReason) → reject_reason_from_value (reason_value reason % 256) ≡ reason
unfolding reject_reason_from_value reason_value
reason_back busy = refl
reason_back version_mismatch = refl
reason_back format_not_supported = refl
reason_back auth_failed = refl
reason_back rejected = refl

rejected_text :
    (reason : RejectReason) (bytes : List ℕ)
    → length bytes < 256
    → parse_reject (reason_value reason % 256 ∷ length bytes % 256 ∷ bytes) ≡ shown reason bytes
unfolding parse_reject
rejected_text reason [] h = ap reason_name (reason_back reason)
rejected_text reason (b ∷ bytes) h =
    ap
      (λ n.
        if ltb 0 n && leb (2 + n) (suc (suc (suc (length bytes))))
        then text (take n (b ∷ bytes))
        else reason_name (reject_reason_from_value (reason_value reason % 256)))
      (mod-eq_of_lt h)
    ∙ chosen
        (ltb 0 (suc (length bytes))
          && leb (2 + suc (length bytes)) (suc (suc (suc (length bytes)))))
        (holds (length bytes))
  where
    holds : (n : ℕ) → (ltb 0 (suc n) && leb (2 + suc n) (suc (suc (suc n)))) ≡ true
    holds n = ground arith

    chosen :
        (c : Bool)
        → c ≡ true
        → (if c
            then text (take (suc (length bytes)) (b ∷ bytes))
            else reason_name (reject_reason_from_value (reason_value reason % 256)))
          ≡ text (b ∷ bytes)
    chosen true e = ap text (take_all (suc (length bytes)) (b ∷ bytes) (omega arith))
    chosen false e = absurd (cc)

two : (n : ℕ) → leb 2 (suc (suc n)) ≡ true
two n = ground arith

some_text : (n : ℕ) → ltb 0 (suc n) ≡ true
some_text n = ground arith

not_empty : (n : ℕ) → (suc n == 0) ≡ false
not_empty n = ground arith

-- A CONNECT_REJECT with a text below 256 bytes is parsed back to the text, and to its reason if the
-- text is empty; an ERROR, a TX_DENIED and a TX_PREEMPTED with a text are parsed back to it.
pub parse-text :
    (reason : RejectReason) (bytes : List ℕ) (b : ℕ) (rest : List ℕ)
    → length bytes < 256
    → (parse_error_message (connect_reject_message reason bytes) ≡ some (shown reason bytes))
      × (parse_error_message (error_message (b ∷ rest)) ≡ some (text (b ∷ rest)))
      × (parse_tx_client_id (tx_denied_message (b ∷ rest)) ≡ some (b ∷ rest))
      × (parse_tx_client_id (tx_preempted_message (b ∷ rest)) ≡ some (b ∷ rest))
unfolding parse_error_message connect_reject_message error_message tx_denied_message
    tx_preempted_message parse_tx_client_id message same_type put_u8 put_bytes
parse-text reason bytes b rest h = (
  rw (two (length bytes)) (ap some (rejected_text reason bytes h)),
  rw (some_text (length rest)) refl,
  rw (not_empty (length rest)) refl,
  rw (not_empty (length rest)) refl,
)
