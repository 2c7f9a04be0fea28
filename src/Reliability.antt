-- ===== src/Reliability.antt =====
-- include/naudio/ControlReliability.hpp, src/ControlReliability.cpp: critical control packets are
-- kept until they are acknowledged, and sent again when that takes too long.
pub mod Tracked
pub mod Calls
pub mod Budget
pub mod Acks
pub mod Recorded
use naudio.Prelude.{
  ℕ, suc, ◌+◌, Bool, true, false, Option, none, some, List, [], ◌∷◌, ◌++◌, length, drop, ltb, leb,
  ◌==◌, if◌then◌else◌,
}
use naudio.Prelude.Int.{ℤ, pos, pos_part, ◌-ℤ◌, leb_ℤ, ltb_ℤ}
use naudio.Packet.{AudioPacket, PacketType, control}
use naudio.Control.{
  ControlType, connect_request, connect_accept, connect_reject, audio_config, stream_start,
  stream_stop, stream_pause, stream_resume, tx_granted, tx_denied, tx_preempted, tx_released,
  clients_update, disconnect, ControlMessage, deserialize, control_ack_message,
}

abbrev pub buffer_size : ℕ
buffer_size = 16

-- `isCriticalType`.
unfoldable pub is_critical_type : ControlType → Bool
is_critical_type connect_request = true
is_critical_type connect_accept = true
is_critical_type connect_reject = true
is_critical_type audio_config = true
is_critical_type stream_start = true
is_critical_type stream_stop = true
is_critical_type stream_pause = true
is_critical_type stream_resume = true
is_critical_type tx_granted = true
is_critical_type tx_denied = true
is_critical_type tx_preempted = true
is_critical_type tx_released = true
is_critical_type clients_update = true
is_critical_type disconnect = true
is_critical_type _ = false

unfoldable pub is_critical_message : Option ControlMessage → Bool
unfolding is_critical_type
is_critical_message none = false
is_critical_message (some m) = is_critical_type m.message_type

-- The three early returns that `recordSentAt` and `generateAck` begin with.
unfoldable pub carries_critical : PacketType → List ℕ → Bool
unfolding is_critical_message
carries_critical control payload = is_critical_message (deserialize payload)
carries_critical _ payload = false

-- `PendingControl`.
pub record Pending : Type 0 where
  pub packet : AudioPacket
  pub last_send_time : ℤ
  pub attempts : ℕ

pub record Reliability : Type 0 where
  pub max_attempts : ℕ
  pub timeout_ms : ℤ
  pub pending : List (ℕ × Pending)
  pub control_retransmits : ℕ

-- The constructor; `none` where it throws `std::invalid_argument`.
unfoldable pub create : ℤ → ℤ → Option Reliability
create max_attempts timeout_ms =
    if ltb_ℤ max_attempts (pos 1)
    then none
    else if ltb_ℤ timeout_ms (pos 1)
    then none
    else some (record {
      max_attempts = pos_part max_attempts;
      timeout_ms = timeout_ms;
      pending = [];
      control_retransmits = 0;
    })

unfoldable pub first_sent : AudioPacket → ℤ → Pending
first_sent packet send_time = record { packet = packet; last_send_time = send_time; attempts = 1 }

-- The duplicate scan: the first entry of the sequence replaced in place, if there is one.
unfoldable pub replace : ℕ → Pending → List (ℕ × Pending) → Option (List (ℕ × Pending))
replace seq new [] = none
replace seq new ((k, pc) ∷ m) =
    let rest = replace seq new m in
    if k == seq
    then some ((k, new) ∷ m)
    else elim rest [ none ↦ none | some n ↦ some ((k, pc) ∷ n) ]

-- The insert at the end, once the oldest entry has made room.
unfoldable pub append_new : ℕ → Pending → List (ℕ × Pending) → List (ℕ × Pending)
append_new seq new m = (if leb buffer_size (length m) then drop 1 m else m) ++ (seq, new) ∷ []

unfoldable pub record_pending : ℕ → Pending → List (ℕ × Pending) → List (ℕ × Pending)
unfolding replace append_new
record_pending seq new m = elim (replace seq new m) [ none ↦ append_new seq new m | some n ↦ n ]

unfoldable pub record_sent_at : AudioPacket → ℤ → Reliability → Reliability
unfolding carries_critical record_pending first_sent
record_sent_at p send_time r =
    if carries_critical p.packet_type p.payload
    then record r { pending = record_pending p.sequence (first_sent p send_time) r.pending }
    else r

-- The first entry of the sequence erased, if there is one.
unfoldable pub remove : ℕ → List (ℕ × Pending) → Option (List (ℕ × Pending))
remove seq [] = none
remove seq ((k, pc) ∷ m) =
    let rest = remove seq m in
    if k == seq then some m else elim rest [ none ↦ none | some n ↦ some ((k, pc) ∷ n) ]

unfoldable pub on_ack_received : ℕ → Reliability → Bool × Reliability
unfolding remove
on_ack_received acked r = elim (remove acked r.pending) [
  | none ↦ (false, r)
  | some m ↦ (true, record r { pending = m })
]

-- The entry after one more attempt.
unfoldable pub resend : ℤ → Pending → Pending
resend now pc = record pc { attempts = pc.attempts + 1; last_send_time = now }

-- The scan of `onNackReceivedAt`: the packets to send again, at most one, and what stays pending.
unfoldable pub nack_scan : ℕ → ℕ → ℤ → List (ℕ × Pending) → List AudioPacket × List (ℕ × Pending)
unfolding resend
nack_scan max_attempts nacked now [] = ([], [])
nack_scan max_attempts nacked now ((k, pc) ∷ m) =
    let (ps, n) = nack_scan max_attempts nacked now m in
    if k == nacked
    then if leb max_attempts pc.attempts then ([], m) else (pc.packet ∷ [], (k, resend now pc) ∷ m)
    else (ps, (k, pc) ∷ n)

unfoldable pub on_nack_received_at : ℕ → ℤ → Reliability → List AudioPacket × Reliability
unfolding nack_scan
on_nack_received_at nacked now r =
    let (ps, m) = nack_scan r.max_attempts nacked now r.pending in
    (ps, record r { pending = m; control_retransmits = r.control_retransmits + length ps })

-- The loop of `checkRetransmitsAt`.
unfoldable pub sweep : ℕ → ℤ → ℤ → List (ℕ × Pending) → List AudioPacket × List (ℕ × Pending)
unfolding resend
sweep max_attempts timeout_ms now [] = ([], [])
sweep max_attempts timeout_ms now ((k, pc) ∷ m) =
    let (ps, n) = sweep max_attempts timeout_ms now m in
    if leb_ℤ timeout_ms (now -ℤ pc.last_send_time)
    then if leb max_attempts pc.attempts then (ps, n) else (pc.packet ∷ ps, (k, resend now pc) ∷ n)
    else (ps, (k, pc) ∷ n)

unfoldable pub check_retransmits_at : ℤ → Reliability → List AudioPacket × Reliability
unfolding sweep
check_retransmits_at now r =
    let (ps, m) = sweep r.max_attempts r.timeout_ms now r.pending in
    (ps, record r { pending = m; control_retransmits = r.control_retransmits + length ps })

unfoldable pub generate_ack : AudioPacket → Option ControlMessage
unfolding carries_critical
generate_ack p =
    if carries_critical p.packet_type p.payload then some (control_ack_message p.sequence) else none

unfoldable pub pending_count : Reliability → ℕ
pending_count r = length r.pending

unfoldable pub reset : Reliability → Reliability
reset r = record r { pending = []; control_retransmits = 0 }

-- The calls of a client.
pub data Call : Type 0 where
  sent : AudioPacket → ℤ → Call
  acked : ℕ → Call
  nacked : ℕ → ℤ → Call
  swept : ℤ → Call
  forget : Call

-- A call with the packets that it hands back to be sent again.
unfoldable pub call : Call → Reliability → List AudioPacket × Reliability
unfolding record_sent_at on_ack_received on_nack_received_at check_retransmits_at reset
call (sent p now) r = ([], record_sent_at p now r)
call (acked seq) r = ([], (on_ack_received seq r).1)
call (nacked seq now) r = on_nack_received_at seq now r
call (swept now) r = check_retransmits_at now r
call forget r = ([], reset r)

unfoldable pub run : List Call → Reliability → List AudioPacket × Reliability
unfolding call
run [] r = ([], r)
run (c ∷ cs) r = let (ps, s) = call c r in let (qs, t) = run cs s in (ps ++ qs, t)
