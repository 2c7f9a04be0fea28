-- ===== src/Control/Envelope.antt =====
-- `ControlMessage::serialize` and `deserialize`.
use naudio.Prelude.{
  ℕ, ◌≡◌, refl, sym, ap, ◌∙◌, subst, inl, inr, Option, none, some, some_inj, List, [], ◌∷◌, ◌==◌,
  ==_iff, Bool-cases,
}
use naudio.Control.{
  ControlType, connect_request, connect_accept, connect_reject, audio_config, stream_start,
  stream_stop, stream_pause, stream_resume, heartbeat, heartbeat_ack, latency_probe,
  latency_response, stats_update, tx_granted, tx_denied, tx_preempted, tx_released, clients_update,
  discover, discover_reply, nack, control_ack, error, disconnect, type_value, cases, type_among,
  control_type_from_value, ControlMessage, message, serialize, deserialize, deserialize_typed,
}

pub type_of_value : (t : ControlType) → control_type_from_value (type_value t) ≡ some t
unfolding control_type_from_value
type_of_value connect_request = refl
type_of_value connect_accept = refl
type_of_value connect_reject = refl
type_of_value audio_config = refl
type_of_value stream_start = refl
type_of_value stream_stop = refl
type_of_value stream_pause = refl
type_of_value stream_resume = refl
type_of_value heartbeat = refl
type_of_value heartbeat_ack = refl
type_of_value latency_probe = refl
type_of_value latency_response = refl
type_of_value stats_update = refl
type_of_value tx_granted = refl
type_of_value tx_denied = refl
type_of_value tx_preempted = refl
type_of_value tx_released = refl
type_of_value clients_update = refl
type_of_value discover = refl
type_of_value discover_reply = refl
type_of_value nack = refl
type_of_value control_ack = refl
type_of_value error = refl
type_of_value disconnect = refl

-- The message that a type code and data stand for is read back.
among-value :
    (ts : List ControlType) (v : ℕ) (t : ControlType) → type_among ts v ≡ some t → type_value t ≡ v
unfolding type_among
among-value [] v t e = absurd (cc)
among-value (u ∷ ts) v t e = elim (Bool-cases (v == type_value u)) [
  | inl here ↦
      ap type_value (sym (some_inj (rw here at e))) ∙ sym ((==_iff v (type_value u)).0 here)
  | inr there ↦ among-value ts v t (rw there at e)
]

-- What `serialize` writes for a control message, `deserialize` reads back as the message.
pub deserialize-serialize-message : (m : ControlMessage) → deserialize (serialize m) ≡ some m
unfolding deserialize serialize
deserialize-serialize-message m =
    ap (λ o. deserialize_typed o m.data_bytes) (type_of_value m.message_type)

typed_back :
    (o : Option ControlType) (b : ℕ) (rest : List ℕ) (m : ControlMessage)
    → ((t : ControlType) → o ≡ some t → type_value t ≡ b)
    → deserialize_typed o rest ≡ some m
    → serialize m ≡ b ∷ rest
unfolding deserialize_typed serialize message
typed_back none b rest m h e = absurd (cc)
typed_back (some t) b rest m h e =
    subst (λ q. type_value q.message_type ∷ q.data_bytes ≡ b ∷ rest) (some_inj e)
      (ap (λ x. x ∷ rest) (h t refl))

-- A payload that `deserialize` takes for a control message is what `serialize` writes for it: no two
-- payloads stand for the same message.
pub serialize-deserialize-message :
    (bytes : List ℕ) (m : ControlMessage) → deserialize bytes ≡ some m → serialize m ≡ bytes
unfolding deserialize control_type_from_value
serialize-deserialize-message [] m e = absurd (cc)
serialize-deserialize-message (b ∷ rest) m e =
    typed_back (control_type_from_value b) b rest m (among-value cases b) e
