-- ===== src/Mixer.antt =====
-- include/naudio/net/AudioMixer.hpp, src/net/AudioMixer.cpp: which client may transmit, and the
-- buffer of what it sends. A client's name is only ever compared; a number stands for it, and 0 for
-- the empty one. A call is one step, with the notifications that it runs at its end as a trace.
pub mod Ownership
pub mod Isolation
use naudio.Prelude.{
  ℕ, Bool, true, false, Option, none, some, List, [], ◌∷◌, ◌++◌, ltb, ◌==◌, if◌then◌else◌,
}
use naudio.Prelude.Int.{ℤ, pos, ◌-ℤ◌, leb_ℤ, ◌*ℤ◌}
use naudio.Assoc.{insert, erase, find}
use naudio.Config.{AudioStreamConfig, ms_to_bytes}
use naudio.Ring.{Ring}
use naudio.Ring

pub data TxPriority : Type 0 where
  low normal high exclusive : TxPriority

unfoldable pub priority_value : TxPriority → ℕ
priority_value low = 0
priority_value normal = 1
priority_value high = 2
priority_value exclusive = 3

unfoldable pub can_preempt : TxPriority → TxPriority → Bool
unfolding priority_value
can_preempt a b = ltb (priority_value b) (priority_value a)

pub data TxResult : Type 0 where
  accepted rejected preempted declined_recovered : TxResult

-- The calls of the clients and of the listener.
pub data Notice : Type 0 where
  granted released : ℕ → Notice
  preempted_by : ℕ → ℕ → Notice
  conflict : ℕ → ℕ → Notice
  owner_changed : ℕ → Notice

pub record Mixer : Type 0 where
  pub config : AudioStreamConfig
  pub clients : List (ℕ × TxPriority)
  pub tx_ownership : Option (ℕ × TxPriority)
  pub last_tx_activity_time : ℤ
  pub tx_buffer : Ring
  pub notices : List Notice
  pub running : Bool

unfoldable pub create : AudioStreamConfig → Mixer
create config = record {
  config = config;
  clients = [];
  tx_ownership = none;
  last_tx_activity_time = pos 0;
  tx_buffer = Ring.create config (ms_to_bytes config (config.buffer_max_ms *ℤ pos 2));
  notices = [];
  running = false;
}

unfoldable pub register_client : ℕ → TxPriority → Mixer → Mixer
register_client id priority m = record m { clients = insert id priority m.clients }

-- A notification of a client that may have gone.
unfoldable pub if_registered : ℕ → Notice → Mixer → List Notice
if_registered id n m = elim (find id m.clients) [ none ↦ [] | some priority ↦ n ∷ [] ]

unfoldable pub claim_tx_channel : ℤ → ℕ → TxPriority → Mixer → Mixer
unfolding if_registered
claim_tx_channel now id priority m = record m {
  tx_ownership = some (id, priority);
  last_tx_activity_time = now;
  tx_buffer = Ring.clear m.tx_buffer;
  notices = m.notices ++ if_registered id (granted id) m ++ owner_changed id ∷ [];
}

unfoldable pub preempt_current_owner : ℤ → ℕ → TxPriority → ℕ → Mixer → Mixer
unfolding if_registered
preempt_current_owner now id priority previous m =
    let told = if previous == 0 then [] else if_registered previous (preempted_by previous id) m in
    record m {
      tx_buffer = Ring.clear m.tx_buffer;
      tx_ownership = some (id, priority);
      last_tx_activity_time = now;
      notices = m.notices ++ told ++ if_registered id (granted id) m ++ owner_changed id ∷ [];
    }

unfoldable pub release_tx_channel : ℕ → Mixer → Mixer
unfolding if_registered
release_tx_channel id m = record m {
  tx_ownership = none;
  tx_buffer = Ring.clear m.tx_buffer;
  notices = m.notices ++ if_registered id (released id) m ++ owner_changed 0 ∷ [];
}

-- `releaseTx`.
unfoldable pub release_tx : ℕ → Mixer → Mixer
unfolding release_tx_channel
release_tx id m = elim m.tx_ownership [
  | none ↦ m
  | some (holder, priority) ↦ if holder == id then release_tx_channel id m else m
]

unfoldable pub unregister_client : ℕ → Mixer → Mixer
unfolding release_tx
unregister_client id m = elim (find id m.clients) [
  | none ↦ m
  | some priority ↦ release_tx id (record m { clients = erase id m.clients })
]

-- `wall` is the clock of the ring buffer's statistics.
unfoldable pub write_audio : ℤ → List ℕ → Mixer → Mixer
write_audio wall source m = record m { tx_buffer = (Ring.write wall m.tx_buffer source).1 }

-- The branches under the lock; `recovered` is the provenance.
unfoldable pub submit_registered : ℤ → ℤ → Bool → ℕ → TxPriority → List ℕ → Mixer → TxResult × Mixer
unfolding claim_tx_channel preempt_current_owner write_audio can_preempt
submit_registered wall now recovered id priority source m = elim m.tx_ownership [
  | none ↦
      if recovered
      then (declined_recovered, m)
      else (accepted, write_audio wall source (claim_tx_channel now id priority m))
  | some (holder, held) ↦
      if holder == id
      then (
        accepted,
        write_audio wall source (if recovered then m else record m { last_tx_activity_time = now }),
      )
      else if can_preempt priority held
      then (if recovered
          then (declined_recovered, m)
          else (accepted, write_audio wall source (preempt_current_owner now id priority holder m)))
      else if recovered
      then (declined_recovered, m)
      else (rejected, record m { notices = m.notices ++ conflict holder id ∷ [] })
]

unfoldable pub submit_tx_audio : ℤ → ℤ → Bool → ℕ → List ℕ → Mixer → TxResult × Mixer
unfolding submit_registered
submit_tx_audio wall now recovered id source m = elim (find id m.clients) [
  | none ↦ (if recovered then declined_recovered else rejected, m)
  | some priority ↦ submit_registered wall now recovered id priority source m
]

unfoldable pub current_tx_owner : Mixer → ℕ
current_tx_owner m = elim m.tx_ownership [ none ↦ 0 | some (holder, priority) ↦ holder ]

-- Without the playback thread.
unfoldable pub start : Mixer → Mixer
start m = record m { running = true }

unfoldable pub stop : Mixer → Mixer
stop m =
    if m.running
    then record m { running = false; tx_ownership = none; tx_buffer = Ring.clear m.tx_buffer }
    else m

unfoldable pub check_idle_timeout : ℤ → Mixer → Mixer
unfolding release_tx_channel
check_idle_timeout now m = elim m.tx_ownership [
  | none ↦ m
  | some (holder, priority) ↦
      if leb_ℤ m.config.tx_idle_timeout_ms (now -ℤ m.last_tx_activity_time)
      then release_tx_channel holder m
      else m
]
