-- ===== src/Vlog.antt =====
-- The value log: db/vlog_manager.{h,cc}, db/vlog_writer.cc, db/vlog_fetcher.cc, and `SyncedAppend`
-- of util/env_posix.cc, over which they write.
--
-- `none` is a failed `assert` or a read of memory that holds no data, which end a run; an error
-- that the code reports is a `Status`.
pub mod Entry
pub mod Log
pub mod Failures
pub mod Fetch
pub mod Manager
pub mod Addresses
pub mod Reader
mod Runs
use distributed_system_based.Base.{
  ℕ, ◌+◌, ◌-◌, ◌*◌, ◌^◌, ◌≡◌, refl, List, [], ◌∷◌, ◌++◌, Option, none, some, Bool, ◌&&◌, ltb, leb,
  ◌==◌, if◌then◌else◌, length, take, drop,
}
use distributed_system_based.Coding.{
  ◌>>=◌, encode_fixed32, encode_fixed64, put_length_prefixed_slice, get_length_prefixed_slice,
  get_varint64,
}
use distributed_system_based.Status.{Status, ok, error, corruption, io_error, is_ok}
use distributed_system_based.Crc.{Checksum, mask}

abbrev pub header_size : ℕ
header_size = 12

abbrev pub write_buffer_size : ℕ
write_buffer_size = 2 ^ 12

-- What the operating system answers to one `write`: all of it, or an error after some bytes.
pub data Outcome : Type 0 where
  done : Outcome
  failed : ℕ → Outcome

-- One value log with its open file. `buffer` is `buffer_[0 .. size_)`, so `size_` is its length;
-- `file` is what has reached the file, and `head` is `head_`.
pub record VlogInfo : Type 0 where
  pub buffer : List ℕ
  pub head : ℕ
  pub file : List ℕ

-- `SyncedAppend`; the answers still to come are the last part. With none left, writes succeed.
unfoldable pub synced_append : List Outcome → List ℕ → List ℕ → Status × List ℕ × List Outcome
synced_append [] file bytes = (ok, file ++ bytes, [])
synced_append (done ∷ io) file bytes = (ok, file ++ bytes, io)
synced_append (failed n ∷ io) file bytes = (error io_error "", file ++ take n bytes, io)

module _ (crc : Checksum) where
  open crc use {value}

  -- `head` of `VWriter::AddRecord`: the masked checksum and the length.
  unfoldable pub record_header : List ℕ → List ℕ
  record_header slice = encode_fixed32 (mask (value slice)) ++ encode_fixed64 (length slice)

  -- The record is larger than the buffer, which was just flushed: it goes straight to the file.
  -- The status of the first of the two writes is overwritten by that of the second.
  write_through : List Outcome → VlogInfo → List ℕ → Status × VlogInfo × List Outcome
  write_through io info slice =
      let (s1, file1, io1) = synced_append io info.file (record_header slice) in
      let (s2, file2, io2) = synced_append io1 file1 slice in
      (s2, record info { head = info.head + header_size + length slice; file = file2 }, io2)

  append_to_buffer : VlogInfo → List ℕ → VlogInfo
  append_to_buffer info slice = record info {
    buffer = info.buffer ++ (record_header slice ++ slice);
  }

  -- `VWriter::AddRecord`, after the flush of a full buffer.
  add_record_flushed : List Outcome → VlogInfo → List ℕ → Status × VlogInfo × List Outcome
  add_record_flushed io info slice =
      if ltb write_buffer_size (header_size + length slice)
      then write_through io info slice
      else (ok, append_to_buffer info slice, io)

  after_flush :
      Status × List ℕ × List Outcome → VlogInfo → List ℕ → Status × VlogInfo × List Outcome
  after_flush (ok, file, io) info slice =
      add_record_flushed io
        (record { buffer = []; head = info.head + length info.buffer; file = file }) slice
  after_flush (error c msg, file, io) info slice = (error c msg, record info { file = file }, io)

  -- `VWriter::AddRecord`.
  unfoldable pub write_record : List Outcome → VlogInfo → List ℕ → Status × VlogInfo × List Outcome
  unfolding write_through append_to_buffer add_record_flushed after_flush
  write_record io info slice =
      if ltb write_buffer_size (length info.buffer + header_size + length slice)
      then after_flush (synced_append io info.file info.buffer) info slice
      else (ok, append_to_buffer info slice, io)

-- `VlogManager::FlushCurrentBuffer` on the current log; the status of the write is dropped.
unfoldable pub flush_buffer : List Outcome → VlogInfo → VlogInfo × List Outcome
flush_buffer io info =
    let (s, file, io') = synced_append io info.file info.buffer in
    if ltb 0 (length info.buffer)
    then (record { buffer = []; head = info.head + length info.buffer; file = file }, io')
    else (info, io)

-- `GetWritePos` of the current log.
unfoldable pub write_pos : VlogInfo → ℕ
write_pos info = info.head + length info.buffer

-- What a fetch returns: the value, or the status of the failure.
pub data Fetched : Type 0 where
  found : List ℕ → Fetched
  bad : Status → Fetched

second_slice : Option (List ℕ × List ℕ) → Fetched
second_slice (some (v, r)) = found v
second_slice none = bad (error corruption "failed to decode value from vlog")

both_slices : Option (List ℕ × List ℕ) → Fetched
both_slices (some (k, r)) = second_slice (get_length_prefixed_slice r)
both_slices none = bad (error corruption "failed to decode value from vlog")

-- `Parse` of db/vlog_fetcher.cc; `assert((*r)[0] == kTypeValue)`.
unfoldable pub parse : List ℕ → Option Fetched
unfolding second_slice both_slices
parse [] = none
parse (tag ∷ r) = if tag == 1 then some (both_slices (get_length_prefixed_slice r)) else none

-- `VlogFetcher::Get`. A slice that leaves the filled part of the buffer holds stale bytes: `none`.
-- A read of the file returns what is there, and its status is not looked at.
unfoldable pub get : VlogInfo → ℕ → ℕ → Option Fetched
unfolding parse
get info offset size =
    if leb info.head offset
    then (if ltb (offset - info.head) (length info.buffer)
          && leb (offset - info.head + size) (length info.buffer)
        then parse (take size (drop (offset - info.head) info.buffer))
        else none)
    else parse (take size (drop offset info.file))
