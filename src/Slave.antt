-- ===== src/Slave.antt =====
-- distributed/slave.cc: a worker node. It keeps the values of its keys in value logs and the
-- addresses of the values on the master.
pub mod State
pub mod Store
pub mod History
pub mod Overtaken
pub mod Commands
pub mod Files
pub mod Dispatch
pub mod Threshold
pub mod Rounds
mod Runs
use distributed_system_based.Base.{
  ℕ, ◌+◌, ◌*◌, ◌%◌, ◌^◌, List, [], ◌∷◌, Option, none, some, leb, if◌then◌else◌, length,
}
use distributed_system_based.Coding.{◌>>=◌}
use distributed_system_based.Status.{Status, ok, error}
use distributed_system_based.Crc.{Checksum}
use distributed_system_based.Vlog.{header_size}
use distributed_system_based.Vlog.Entry.{encode_vlog_entry}
use distributed_system_based.Vlog.Manager
use distributed_system_based.Vlog.Manager.{
  VlogManager, add_vlog, add_record, flush_current_buffer, get_write_pos, encode_address,
}

-- `VlogSize`.
abbrev pub max_vlog_size : ℕ
max_vlog_size = 32 * 1024 * 1024

-- `g_vlog_manager` and `g_vlog_number`. `disk` is what the files of the logs that this run has not
-- opened hold, nothing where there is no file.
pub record Slave : Type 0 where
  pub manager : VlogManager
  pub vlog_number : ℕ
  pub disk : ℕ → List ℕ

-- The creation of a new log in `write_value_to_vlog`.
pub rotate : Slave → Slave
rotate s =
    let n = (s.vlog_number + 1) % 2 ^ 64 in
    record s { manager = add_vlog (flush_current_buffer s.manager) (s.disk n) n; vlog_number = n }

pub rotate_if_full : Slave → Slave
rotate_if_full s = if leb max_vlog_size (get_write_pos s.manager) then rotate s else s

-- The offset and the size of the record; none if the write failed.
written_place : Slave → ℕ → ℕ → Status × VlogManager → Option (ℕ × ℕ) × Slave
written_place s offset size (ok, m) = (some (offset, size), record s { manager = m })
written_place s offset size (error c msg, m) = (none, record s { manager = m })

pub append_entry : Checksum → Slave → List ℕ → Option (Option (ℕ × ℕ) × Slave)
append_entry crc s vlog_data = do
  let data_offset = get_write_pos s.manager + header_size
  r ← add_record crc s.manager vlog_data
  some (written_place s data_offset (length vlog_data) r)

-- `write_value_to_vlog` up to the unlock of `g_vlog_mutex`.
unfoldable pub write_locked : Checksum → Slave → List ℕ → List ℕ → Option (Option (ℕ × ℕ) × Slave)
unfolding rotate rotate_if_full written_place append_entry
write_locked crc s key value = append_entry crc (rotate_if_full s) (encode_vlog_entry key value)

-- What follows the unlock: the address is made with the log number of that moment, and is the empty
-- string if the write failed.
unfoldable pub address_now : Slave → Option (ℕ × ℕ) → List ℕ
address_now s none = []
address_now s (some (offset, size)) = encode_address s.vlog_number offset size

-- `write_value_to_vlog` where no other thread runs between the unlock and the use of the number.
unfoldable pub write_value_to_vlog : Checksum → Slave → List ℕ → List ℕ → Option (List ℕ × Slave)
write_value_to_vlog crc s key value = do
  (place, s1) ← write_locked crc s key value
  some (address_now s1 place, s1)

-- The same where another thread writes a pair between the two.
unfoldable pub write_overtaken :
    Checksum → Slave → List ℕ → List ℕ → List ℕ → List ℕ → Option (List ℕ × Slave)
write_overtaken crc s key value other value' = do
  (place, s1) ← write_locked crc s key value
  (place', s2) ← write_locked crc s1 other value'
  some (address_now s2 place, s2)

-- The third case of `init_vlog`: no file is there, and the first log is created.
unfoldable pub init_new : Slave
init_new = record { manager = add_vlog Manager.initial [] 1; vlog_number = 1; disk = λ n. [] }
