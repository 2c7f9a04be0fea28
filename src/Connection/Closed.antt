-- ===== src/Connection/Closed.antt =====
-- src/net/UdpClientConnection.cpp: after `close`.
use naudio.Prelude.{by_test, ℕ, suc, ◌≡◌, refl, sym, ◌∙◌, subst, Bool, true, List, [], ◌∷◌, length}
use naudio.Decoder.Resolved.{branch}
use naudio.Connection.{
  Connection, Clocks, send_control, send_audio_chunked, send_heartbeat, should_send_heartbeat,
  close, shutdown,
}
use naudio.Connection.Receive.{
  ReceiveResult, IoResult, dead, record_crc_error, receive_queued, receive_from_socket,
}
use naudio.Connection.Calls.{
  Call, control_sent, audio_sent, heartbeat_sent, arrived, corrupted, queue_read, socket_read,
  swept, closed, step, run,
}
use naudio.Connection.Silent.{
  IsShut, After, send_packet-IsShut, numbered-IsShut, record_sent-IsShut, send_rounds-IsShut,
  swept-IsShut, enqueue_received-IsShut,
}

module _ (takes : ℕ → Bool) where
  receive_queued-dead :
      (t : Clocks) (c : Connection) → c.closed ≡ true → receive_queued t c ≡ (dead, c)
  unfolding receive_queued
  receive_queued-dead t c shut =
      by_test (λ r. r ≡ (dead, c)) c.closed (λ e. refl)
        (λ e. absurd (let clash = sym e ∙ shut in cc))

  receive_from_socket-dead :
      (t : Clocks) (io : IoResult) (c : Connection)
      → c.closed ≡ true
      → receive_from_socket takes t io c ≡ (dead, c)
  unfolding receive_from_socket
  receive_from_socket-dead t io c shut =
      by_test (λ r. r ≡ (dead, c)) c.closed (λ e. refl)
        (λ e. absurd (let clash = sym e ∙ shut in cc))

  module _ (w : List (List ℕ)) where
    step-IsShut :
        (t : Clocks) (call : Call) (c : Connection) → IsShut w c → IsShut w (step takes t call c)
    unfolding send_control send_audio_chunked send_heartbeat should_send_heartbeat record_crc_error
        close shutdown
    step-IsShut t (control_sent m) c h =
        record_sent-IsShut w takes t _ _
          (send_packet-IsShut w takes t _ _ (numbered-IsShut w takes c h))
    step-IsShut t (audio_sent type bytes) c h =
        send_rounds-IsShut w takes (suc (length bytes)) t type bytes c h
    step-IsShut t heartbeat_sent c h =
        send_packet-IsShut w takes t _ _ (numbered-IsShut w takes c h)
    step-IsShut t (arrived p raw_bytes) c h = enqueue_received-IsShut w takes t p raw_bytes c h
    step-IsShut t corrupted c h = record { is_closed = h.is_closed; sent_before = h.sent_before }
    step-IsShut t queue_read c h =
        subst (After w {A = ReceiveResult}) (sym (receive_queued-dead t c h.is_closed)) h
    step-IsShut t (socket_read io) c h =
        subst (After w {A = ReceiveResult}) (sym (receive_from_socket-dead t io c h.is_closed)) h
    step-IsShut t swept c h = swept-IsShut w takes t c h
    step-IsShut t closed c h =
        branch (IsShut w) c.closed h (record { is_closed = refl; sent_before = h.sent_before })

    run-IsShut :
        (calls : List (Clocks × Call)) (c : Connection) → IsShut w c → IsShut w (run takes calls c)
    run-IsShut [] c h = h
    run-IsShut ((t, call) ∷ calls) c h =
        run-IsShut calls (step takes t call c) (step-IsShut t call c h)

close-IsShut : (c : Connection) → IsShut c.wire (close c)
unfolding close shutdown
close-IsShut c =
    by_test (IsShut c.wire) c.closed (λ e. record { is_closed = e; sent_before = refl })
      (λ e. record { is_closed = refl; sent_before = refl })

-- After `close`, whatever calls follow, datagrams that still come in included: nothing more is sent,
-- and every read of the queue or the socket reports that the connection is dead and leaves it as it
-- was.
pub close-IsDead :
    (takes : ℕ → Bool) (calls : List (Clocks × Call)) (c : Connection)
    → ((run takes calls (close c)).wire ≡ c.wire)
      × ((t : Clocks)
          → receive_queued t (run takes calls (close c)) ≡ (dead, run takes calls (close c)))
      × ((t : Clocks) (io : IoResult)
          → receive_from_socket takes t io (run takes calls (close c))
            ≡ (dead, run takes calls (close c)))
close-IsDead takes calls c = (
  h.sent_before,
  λ t. receive_queued-dead takes t _ h.is_closed,
  λ t io. receive_from_socket-dead takes t io _ h.is_closed,
)
  where
    h : IsShut c.wire (run takes calls (close c))
    h = run-IsShut takes c.wire calls (close c) (close-IsShut c)
