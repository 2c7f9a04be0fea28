-- ===== src/Ring.antt =====
-- include/naudio/AudioRingBuffer.hpp, src/AudioRingBuffer.cpp: the circular byte buffer between the
-- network and the sound card. A method takes the lock for its whole run, so it is one function of
-- the state; the wait inside `read` is a schedule of what the other threads did meanwhile.
mod Copy
mod Drain
pub mod Valid
pub mod Writes
pub mod Reads
pub mod Session
use naudio.Prelude.{
  ℕ, zero, suc, ◌+◌, ◌-◌, ◌*◌, ◌/◌, ◌%◌, ◌^◌, min, Bool, true, false, Option, none, some, List, [],
  ◌∷◌, ◌++◌, length, take, drop, replicate, ltb, leb, ◌==◌, if◌then◌else◌,
}
use naudio.Prelude.Int.{ℤ, pos, negsuc, pos_part, ◌-ℤ◌, ◌*ℤ◌, leb_ℤ, ltb_ℤ}
use naudio.Prelude.Word.{add_size, sub_size}
use naudio.Prelude.Rotation.{splice}
use naudio.Config.{AudioStreamConfig, ms_to_bytes, bytes_to_ms}

-- The counters are exact: they stay far below the width of their type.
pub record Ring : Type 0 where
  pub capacity : ℕ
  pub buffer : List ℕ
  pub config : AudioStreamConfig
  pub write_pos : ℕ
  pub read_pos : ℕ
  pub available : ℕ
  pub total_bytes_written : ℕ
  pub total_bytes_read : ℕ
  pub underrun_count : ℕ
  pub overrun_count : ℕ
  pub last_overrun_log_time : ℤ
  pub last_underrun_log_time : ℤ
  pub overruns_since_last_log : ℕ
  pub underruns_since_last_log : ℕ
  pub first_overrun : Bool
  pub first_underrun : Bool

-- The constructor with an explicit capacity: a negative one counts as 0.
unfoldable pub create : AudioStreamConfig → ℤ → Ring
create config capacity_bytes = record {
  capacity = pos_part capacity_bytes;
  buffer = replicate (pos_part capacity_bytes) 0;
  config = config;
  write_pos = 0;
  read_pos = 0;
  available = 0;
  total_bytes_written = 0;
  total_bytes_read = 0;
  underrun_count = 0;
  overrun_count = 0;
  last_overrun_log_time = pos 0;
  last_underrun_log_time = pos 0;
  overruns_since_last_log = 0;
  underruns_since_last_log = 0;
  first_overrun = true;
  first_underrun = true;
}

-- The constructor from the configuration alone.
unfoldable pub create_sized : AudioStreamConfig → Ring
unfolding create
create_sized config = create config (ms_to_bytes config (config.buffer_max_ms *ℤ pos 2))

unfoldable pub update_config : Ring → AudioStreamConfig → Ring
update_config r config = record r { config = config }

-- `now` is the wall clock in milliseconds.
unfoldable pub note_overrun : ℤ → Ring → Ring
note_overrun now r =
    if r.first_overrun
    then record r {
      first_overrun = false;
      last_overrun_log_time = now;
      overruns_since_last_log = 0;
    }
    else if leb_ℤ (pos 60000) (now -ℤ r.last_overrun_log_time)
    then record r { last_overrun_log_time = now; overruns_since_last_log = 0 }
    else record r { overruns_since_last_log = r.overruns_since_last_log + 1 }

unfoldable pub note_underrun : ℤ → Ring → Ring
note_underrun now r =
    if r.first_underrun
    then record r {
      first_underrun = false;
      last_underrun_log_time = now;
      underruns_since_last_log = 0;
    }
    else if leb_ℤ (pos 60000) (now -ℤ r.last_underrun_log_time)
    then record r { last_underrun_log_time = now; underruns_since_last_log = 0 }
    else record r { underruns_since_last_log = r.underruns_since_last_log + 1 }

-- The overrun branch of `write`: the oldest bytes give way. `available` may wrap here.
unfoldable pub drop_oldest : ℤ → Ring → ℕ → Ring
unfolding note_overrun
drop_oldest now r len =
    let to_drop = sub_size (add_size r.available len) r.capacity in
    if ltb r.capacity (add_size r.available len)
    then note_overrun now (record r {
      read_pos = add_size r.read_pos to_drop % r.capacity;
      available = sub_size r.available to_drop;
      overrun_count = r.overrun_count + 1;
    })
    else r

-- One round of the copy loop of `write`, with the bytes that are still to go.
unfoldable pub write_chunk : Ring → List ℕ → Ring
write_chunk r rest =
    let n = min (length rest) (r.capacity - r.write_pos) in
    record r {
      buffer = splice r.buffer r.write_pos (take n rest);
      write_pos = add_size r.write_pos n % r.capacity;
      available = add_size r.available n;
    }

-- The copy loop of `write`, on fuel: each round copies a byte at least.
unfoldable pub write_loop : ℕ → List ℕ → ℕ → Ring → ℕ × Ring
write_loop zero source written r = (written, r)
write_loop (suc fuel) source written r =
    let rest = drop written source in
    let n = min (length rest) (r.capacity - r.write_pos) in
    let next = write_loop fuel source (written + n) (write_chunk r rest) in
    if ltb written (length source) then next else (written, r)

-- `source` is `data[offset .. offset + length)`.
unfoldable pub write : ℤ → Ring → List ℕ → ℕ × Ring
unfolding drop_oldest write_loop write_chunk
write now r source =
    let (n, s) = write_loop (length source) source 0 (drop_oldest now r (length source)) in
    if r.capacity == 0
    then (0, r)
    else (n, record s { total_bytes_written = s.total_bytes_written + n })

-- One round of the copy loop of `read`: the bytes copied out, and the new state.
unfoldable pub read_chunk : Ring → ℕ → List ℕ × Ring
read_chunk r wanted =
    let n = min wanted (r.capacity - r.read_pos) in
    (
      take n (drop r.read_pos r.buffer),
      record r {
        read_pos = add_size r.read_pos n % r.capacity;
        available = sub_size r.available n;
      },
    )

-- The copy loop of `read`, on fuel, for the bytes that are still wanted.
unfoldable pub read_loop : ℕ → ℕ → List ℕ → Ring → List ℕ × Ring
unfolding read_chunk
read_loop zero wanted out r = (out, r)
read_loop (suc fuel) wanted out r =
    let (bytes, s) = read_chunk r wanted in
    let next = read_loop fuel (wanted - length bytes) (out ++ bytes) s in
    if ltb 0 wanted then next else (out, r)

-- `read` once data is there.
unfoldable pub read_available : Ring → ℕ → List ℕ × Ring
unfolding read_loop
read_available r len =
    let wanted = min len r.available in
    let (bytes, s) = read_loop wanted wanted [] r in
    (bytes, record s { total_bytes_read = s.total_bytes_read + length bytes })

-- `read` that does not wait: a timeout of 0.
unfoldable pub read_now : Ring → ℕ → List ℕ × Ring
unfolding read_available
read_now r len =
    if r.capacity == 0 then ([], r) else if r.available == 0 then ([], r) else read_available r len

unfoldable pub clear : Ring → Ring
clear r = record r { write_pos = 0; read_pos = 0; available = 0 }

unfoldable pub reset_statistics : Ring → Ring
reset_statistics r = record r {
  total_bytes_written = 0;
  total_bytes_read = 0;
  underrun_count = 0;
  overrun_count = 0;
}

-- What the other threads may do while a reader waits with the lock released.
pub data Op : Type 0 where
  write_op : ℤ → List ℕ → Op
  read_op : ℕ → Op
  clear_op : Op
  reset_op : Op
  config_op : AudioStreamConfig → Op

-- An operation with the bytes that it returns.
unfoldable pub reply : Op → Ring → List ℕ × Ring
unfolding write read_now clear reset_statistics update_config
reply (write_op now source) r = ([], (write now r source).1)
reply (read_op len) r = read_now r len
reply clear_op r = ([], clear r)
reply reset_op r = ([], reset_statistics r)
reply (config_op c) r = ([], update_config r c)

unfoldable pub replies : List Op → Ring → List (List ℕ)
unfolding reply
replies [] r = []
replies (op ∷ ops) r = let (bytes, s) = reply op r in bytes ∷ replies ops s

unfoldable pub apply_ops : List Op → Ring → Ring
unfolding reply
apply_ops [] r = r
apply_ops (op ∷ ops) r = apply_ops ops (reply op r).1

-- One test of the deadline: whether it has passed, the wall clock, and what the other threads do
-- in the wait that follows if it has not.
pub record Poll : Type 0 where
  pub expired : Bool
  pub now : ℤ
  pub others : List Op

-- `read` with a timeout above 0, against a schedule; `none`: it still waits when the schedule ends.
unfoldable pub read_wait : List Poll → Ring → ℕ → Option (List ℕ × Ring)
unfolding apply_ops read_available note_underrun
read_wait [] r len = if r.available == 0 then none else some (read_available r len)
read_wait (p ∷ ps) r len =
    let later = read_wait ps (apply_ops p.others r) len in
    if r.available == 0
    then if p.expired
      then some ([], note_underrun p.now (record r { underrun_count = r.underrun_count + 1 }))
      else later
    else some (read_available r len)

-- `read`; a negative timeout has passed at the first test.
unfoldable pub read : ℤ → List Poll → Ring → ℕ → Option (List ℕ × Ring)
unfolding read_wait read_now
read (pos zero) schedule r len = some (read_now r len)
read timeout schedule r len = if r.capacity == 0 then some ([], r) else read_wait schedule r len

unfoldable pub read_buf : List Poll → Ring → ℕ → Option (List ℕ × Ring)
unfolding read
read_buf schedule r len = read (r.config.frame_duration_ms *ℤ pos 2) schedule r len

unfoldable pub buffer_level_ms : Ring → ℤ
buffer_level_ms r = bytes_to_ms r.config (pos r.available)

unfoldable pub buffer_fill_percent : Ring → ℕ
buffer_fill_percent r = if r.capacity == 0 then 0 else r.available * 100 / r.capacity

unfoldable pub has_reached_target_level : Ring → Bool
has_reached_target_level r =
    leb_ℤ r.config.buffer_target_ms (bytes_to_ms r.config (pos r.available))

unfoldable pub is_below_minimum : Ring → Bool
is_below_minimum r = ltb_ℤ (bytes_to_ms r.config (pos r.available)) r.config.buffer_min_ms

unfoldable pub is_above_maximum : Ring → Bool
is_above_maximum r = ltb_ℤ r.config.buffer_max_ms (bytes_to_ms r.config (pos r.available))
