-- ===== src/Mixer/Isolation.antt =====
-- `AudioMixer`: the owner of the channel over a run of calls.
use naudio.Prelude.{
  by_test, ℕ, ◌<◌, ◌^◌, ◌≡◌, ◌≢◌, refl, sym, ◌∙◌, subst, inl, inr, Bool, true, false, Option, none,
  some, List, [], ◌∷◌, arith, length, ◌==◌, ==_iff, Bool-cases, if◌then◌else◌,
}
use naudio.Prelude.Int.{ℤ, ◌-ℤ◌, leb_ℤ}
use naudio.Assoc.{insert, erase, find, find-insert_same, find-insert_other, find-erase_other}
use naudio.Ring.Valid.{IsValid}
use naudio.Mixer.{
  TxPriority, TxResult, rejected, declined_recovered, Mixer, register_client, release_tx_channel,
  release_tx, unregister_client, submit_registered, submit_tx_audio, check_idle_timeout, start,
  stop,
}
use naudio.Mixer.Ownership.{cleared, Outcome, registered-Outcome}

abbrev pub IsRegistered : List (ℕ × TxPriority) → Option (ℕ × TxPriority) → Type 0
IsRegistered clients none = Unit {0}
IsRegistered clients (some (holder, held)) = (p : TxPriority) × (find holder clients ≡ some p)

pub record IsSound (m : Mixer) : Type 0 where
  pub valid : IsValid m.tx_buffer
  pub owner : IsRegistered m.clients m.tx_ownership

apart : (a b : ℕ) → (a == b) ≡ false → a ≢ b
apart a b h = ground arith

register_client-IsSound :
    (id : ℕ) (priority : TxPriority) (m : Mixer)
    → IsSound m
    → IsSound (register_client id priority m)
unfolding register_client
register_client-IsSound id priority m s = record {
  valid = s.valid;
  owner = still m.tx_ownership s.owner;
}
  where
    still :
        (o : Option (ℕ × TxPriority))
        → IsRegistered m.clients o
        → IsRegistered (insert id priority m.clients) o
    still none h = tt
    still (some (holder, held)) h = elim (Bool-cases (holder == id)) [
      | inl same ↦ (
        priority,
        subst (λ k. find k (insert id priority m.clients) ≡ some priority)
            (sym ((==_iff holder id).0 same)) (find-insert_same id priority m.clients),
      )
      | inr other ↦
          (h.0, find-insert_other holder id priority m.clients (apart holder id other) ∙ h.1)
    ]

released : (id : ℕ) (m : Mixer) → IsValid m.tx_buffer → IsSound (release_tx_channel id m)
unfolding release_tx_channel
released id m v = record { valid = (cleared m.tx_buffer v).0; owner = tt }

release_tx-IsSound : (id : ℕ) (m : Mixer) → IsSound m → IsSound (release_tx id m)
unfolding release_tx
release_tx-IsSound id m s = go m.tx_ownership
  where
    by_holder : (b : Bool) → IsSound (if b then release_tx_channel id m else m)
    by_holder true = released id m s.valid
    by_holder false = s

    go :
        (o : Option (ℕ × TxPriority))
        → IsSound (elim o [
          | none ↦ m
          | some (holder, priority) ↦ if holder == id then release_tx_channel id m else m
        ])
    go none = s
    go (some (holder, priority)) = by_holder (holder == id)

-- A client that leaves the map does not keep the channel.
unregistered :
    (id : ℕ) (m : Mixer)
    → IsSound m
    → IsSound (release_tx id (record m { clients = erase id m.clients }))
unfolding release_tx
unregistered id m s = go m.tx_ownership refl s.owner
  where
    left : Mixer
    left = record m { clients = erase id m.clients }

    by_holder :
        (holder : ℕ) (held : TxPriority)
        → m.tx_ownership ≡ some (holder, held)
        → IsRegistered m.clients (some (holder, held))
        → (b : Bool) → (holder == id) ≡ b
        → IsSound (
            if b
            then release_tx_channel id (record m { clients = erase id m.clients })
            else record m { clients = erase id m.clients })
    by_holder holder held e h true same =
        released id (record m { clients = erase id m.clients }) s.valid
    by_holder holder held e h false other = record {
      valid = s.valid;
      owner =
          subst (IsRegistered (erase id m.clients)) (sym e)
            (h.0, find-erase_other holder id m.clients (apart holder id other) ∙ h.1);
    }

    go :
        (o : Option (ℕ × TxPriority))
        → m.tx_ownership ≡ o
        → IsRegistered m.clients o
        → IsSound (elim o [
          | none ↦ record m { clients = erase id m.clients }
          | some (holder, priority) ↦
              if holder == id
              then release_tx_channel id (record m { clients = erase id m.clients })
              else record m { clients = erase id m.clients }
        ])
    go none e h = record {
      valid = s.valid;
      owner = subst (IsRegistered (erase id m.clients)) (sym e) tt;
    }
    go (some (holder, held)) e h = by_holder holder held e h (holder == id) refl

unregister_client-IsSound : (id : ℕ) (m : Mixer) → IsSound m → IsSound (unregister_client id m)
unfolding unregister_client
unregister_client-IsSound id m s = go (find id m.clients)
  where
    go :
        (o : Option TxPriority)
        → IsSound (elim o [
          | none ↦ m
          | some priority ↦ release_tx id (record m { clients = erase id m.clients })
        ])
    go none = s
    go (some priority) = unregistered id m s

check_idle_timeout-IsSound : (now : ℤ) (m : Mixer) → IsSound m → IsSound (check_idle_timeout now m)
unfolding check_idle_timeout
check_idle_timeout-IsSound now m s = go m.tx_ownership
  where
    by_time : (holder : ℕ) (b : Bool) → IsSound (if b then release_tx_channel holder m else m)
    by_time holder true = released holder m s.valid
    by_time holder false = s

    go :
        (o : Option (ℕ × TxPriority))
        → IsSound (elim o [
          | none ↦ m
          | some (holder, priority) ↦
              if leb_ℤ m.config.tx_idle_timeout_ms (now -ℤ m.last_tx_activity_time)
              then release_tx_channel holder m
              else m
        ])
    go none = s
    go (some (holder, priority)) =
        by_time holder (leb_ℤ m.config.tx_idle_timeout_ms (now -ℤ m.last_tx_activity_time))

stop-IsSound : (m : Mixer) → IsSound m → IsSound (stop m)
unfolding stop
stop-IsSound m s =
    by_test IsSound m.running
      (λ was. record { valid = (cleared m.tx_buffer s.valid).0; owner = tt }) (λ not_yet. s)

start-IsSound : (m : Mixer) → IsSound m → IsSound (start m)
unfolding start
start-IsSound m s = record { valid = s.valid; owner = s.owner }

submit_tx_audio-IsSound :
    (wall now : ℤ) (recovered : Bool) (id : ℕ) (source : List ℕ) (m : Mixer)
    → length source < 2 ^ 63
    → IsSound m
    → IsSound (submit_tx_audio wall now recovered id source m).1
unfolding submit_tx_audio
submit_tx_audio-IsSound wall now recovered id source m short s = go (find id m.clients) refl
  where
    registered :
        (priority : TxPriority) (res : TxResult × Mixer)
        → find id m.clients ≡ some priority
        → Outcome now m recovered id priority source res
        → IsSound res.1
    registered priority res e (inl o) = record {
      valid = subst IsValid (sym o.buffer) s.valid;
      owner =
          subst (λ c. IsRegistered c res.1.tx_ownership) (sym o.members)
            (subst (IsRegistered m.clients) (sym o.owner) s.owner);
    }
    registered priority res e (inr (inl (held, o))) = record {
      valid = o.valid;
      owner =
          subst (λ c. IsRegistered c res.1.tx_ownership) (sym o.members)
            (subst (IsRegistered m.clients) (sym o.owner) (priority, e));
    }
    registered priority res e (inr (inr o)) = record {
      valid = o.valid;
      owner =
          subst (λ c. IsRegistered c res.1.tx_ownership) (sym o.members)
            (subst (IsRegistered m.clients) (sym o.owner) (priority, e));
    }

    go :
        (o : Option TxPriority)
        → find id m.clients ≡ o
        → IsSound
            (elim o as (λ x. TxResult × Mixer) [
              | none ↦ (if recovered then declined_recovered else rejected, m)
              | some priority ↦ submit_registered wall now recovered id priority source m
            ]).1
    go none e = s
    go (some priority) e =
        registered priority (submit_registered wall now recovered id priority source m) e
          (registered-Outcome wall now id priority source m s.valid short recovered)

-- The calls of the sessions and of the idle thread.
pub data Call : Type 0 where
  registers : ℕ → TxPriority → Call
  unregisters : ℕ → Call
  submits : ℤ → ℤ → Bool → ℕ → List ℕ → Call
  releases : ℕ → Call
  idles : ℤ → Call
  starts : Call
  stops : Call

abbrev pub call : Call → Mixer → Mixer
call (registers id priority) m = register_client id priority m
call (unregisters id) m = unregister_client id m
call (submits wall now recovered id source) m = (submit_tx_audio wall now recovered id source m).1
call (releases id) m = release_tx id m
call (idles now) m = check_idle_timeout now m
call starts m = start m
call stops m = stop m

abbrev pub run : List Call → Mixer → Mixer
run [] m = m
run (c ∷ cs) m = run cs (call c m)

abbrev pub IsShort : Call → Type 0
IsShort (submits wall now recovered id source) = length source < 2 ^ 63
IsShort _ = Unit {0}

abbrev pub AllShort : List Call → Type 0
AllShort [] = Unit {0}
AllShort (c ∷ cs) = IsShort c × AllShort cs

call-IsSound : (c : Call) (m : Mixer) → IsShort c → IsSound m → IsSound (call c m)
call-IsSound (registers id priority) m h s = register_client-IsSound id priority m s
call-IsSound (unregisters id) m h s = unregister_client-IsSound id m s
call-IsSound (submits wall now recovered id source) m h s =
    submit_tx_audio-IsSound wall now recovered id source m h s
call-IsSound (releases id) m h s = release_tx-IsSound id m s
call-IsSound (idles now) m h s = check_idle_timeout-IsSound now m s
call-IsSound starts m h s = start-IsSound m s
call-IsSound stops m h s = stop-IsSound m s

-- In any order of the mixer's calls, each run to its end before the next, with submissions below
-- half the address space: if the buffer is valid and the owner of the channel, if any, is a
-- registered client, this stays so. A client that leaves never keeps the channel.
pub run-IsSound : (cs : List Call) (m : Mixer) → AllShort cs → IsSound m → IsSound (run cs m)
run-IsSound [] m h s = s
run-IsSound (c ∷ cs) m h s = run-IsSound cs (call c m) h.1 (call-IsSound c m h.0 s)
