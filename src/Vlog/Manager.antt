-- ===== src/Vlog/Manager.antt =====
-- db/vlog_manager.cc: the value logs of a database, and which of them is written to.
use distributed_system_based.Base.{ℕ, ◌%◌, ◌^◌, ◌==◌, List, [], Option, none, some, if◌then◌else◌}
use distributed_system_based.Base.Assoc.{Assoc, lookup, insert}
use distributed_system_based.Coding.{put_varint64, get_varint64}
use distributed_system_based.Status.{Status, ok, error, corruption}
use distributed_system_based.Crc.{Checksum}
use distributed_system_based.Vlog.{
  VlogInfo, Outcome, Fetched, bad, synced_append, write_record, flush_buffer, write_pos, get,
}

-- `manager_` and `cur_vlog_`. `io` are the answers that the system will give to writes. The set
-- `cleaning_vlog_set_` and `clean_threshold_` are used by no operation.
pub record VlogManager : Type 0 where
  pub logs : Assoc VlogInfo
  pub cur_vlog : ℕ
  pub io : List Outcome

abbrev pub initial : VlogManager
initial = record { logs = []; cur_vlog = 0; io = [] }

-- A `VlogInfo` as its constructor leaves it, over a file that holds `file`.
abbrev pub opened : List ℕ → VlogInfo
opened file = record { buffer = []; head = 0; file = file }

-- `AddVlog`. `on_disk` is what the file holds before the call, nothing if it is new. A log that is
-- open already is written out, with the status dropped, and opened again.
unfoldable pub add_vlog : VlogManager → List ℕ → ℕ → VlogManager
add_vlog m on_disk n = elim (lookup n m.logs) [
  | none ↦ record m { logs = insert n (opened on_disk) m.logs; cur_vlog = n }
  | some old ↦
      let (s, file, io') = synced_append m.io old.file old.buffer in
      record { logs = insert n (opened file) m.logs; cur_vlog = n; io = io' }
]

unfoldable pub set_current_vlog : VlogManager → ℕ → VlogManager
set_current_vlog m n = record m { cur_vlog = n }

-- `SetHead`.
unfoldable pub set_head : VlogManager → ℕ → Status × VlogManager
set_head m offset = elim (lookup m.cur_vlog m.logs) [
  | none ↦ (error corruption "can not find vlog", m)
  | some info ↦ (ok, record m { logs = insert m.cur_vlog (record info { head = offset }) m.logs })
]

-- `GetWritePos`.
unfoldable pub get_write_pos : VlogManager → ℕ
get_write_pos m = elim (lookup m.cur_vlog m.logs) [ none ↦ 0 | some info ↦ write_pos info ]

-- `FlushCurrentBuffer`.
unfoldable pub flush_current_buffer : VlogManager → VlogManager
flush_current_buffer m = elim (lookup m.cur_vlog m.logs) [
  | none ↦ m
  | some info ↦
      let (info', io') = flush_buffer m.io info in
      record m { logs = insert m.cur_vlog info' m.logs; io = io' }
]

-- `AddRecord`; the current log must be there.
unfoldable pub add_record : Checksum → VlogManager → List ℕ → Option (Status × VlogManager)
add_record crc m slice = elim (lookup m.cur_vlog m.logs) [
  | none ↦ none
  | some info ↦
      let (s, info', io') = write_record crc m.io info slice in
      some (s, record m { logs = insert m.cur_vlog info' m.logs; io = io' })
]

-- The constructor of `VlogFetcher` takes the number of a log as a `uint32_t`.
abbrev pub fetcher_number : ℕ → ℕ
fetcher_number n = n % 2 ^ 32

-- A fetcher with the number of another log has the file of that log open, and fails an assert if
-- there is none.
unfoldable pub get_from_other : VlogInfo → Option VlogInfo → ℕ → ℕ → Option Fetched
get_from_other info none offset size = none
get_from_other info (some other) offset size = get (record info { file = other.file }) offset size

-- `Get` of the fetcher of log `n`.
unfoldable pub get_from : VlogManager → ℕ → VlogInfo → ℕ → ℕ → Option Fetched
unfolding get_from_other
get_from m n info offset size =
    if fetcher_number n == n
    then get info offset size
    else get_from_other info (lookup (fetcher_number n) m.logs) offset size

fetch_from : VlogManager → ℕ → Option VlogInfo → ℕ → ℕ → Option Fetched
fetch_from m n none offset size = some (bad (error corruption "can not find vlog"))
fetch_from m n (some info) offset size = get_from m n info offset size

fetch_size : VlogManager → ℕ → ℕ → Option (ℕ × List ℕ) → Option Fetched
fetch_size m file_numb offset none = some (bad (error corruption "parse pos false in RealValue"))
fetch_size m file_numb offset (some (size, addr)) =
    fetch_from m file_numb (lookup file_numb m.logs) offset size

fetch_offset : VlogManager → ℕ → Option (ℕ × List ℕ) → Option Fetched
fetch_offset m file_numb none = some (bad (error corruption "parse file_numb false in RealValue"))
fetch_offset m file_numb (some (offset, addr)) = fetch_size m file_numb offset (get_varint64 addr)

fetch_file : VlogManager → Option (ℕ × List ℕ) → Option Fetched
fetch_file m none = some (bad (error corruption "parse size false in RealValue"))
fetch_file m (some (file_numb, addr)) = fetch_offset m file_numb (get_varint64 addr)

-- `FetchValueFromVlog`: the address is the number of the log, the offset and the size.
unfoldable pub fetch_value_from_vlog : VlogManager → List ℕ → Option Fetched
unfolding fetch_from fetch_size fetch_offset fetch_file
fetch_value_from_vlog m addr = fetch_file m (get_varint64 addr)

-- The three `PutVarint64` calls that make an address.
unfoldable pub encode_address : ℕ → ℕ → ℕ → List ℕ
encode_address vlog_numb offset size =
    put_varint64 (put_varint64 (put_varint64 [] vlog_numb) offset) size
