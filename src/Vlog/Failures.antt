-- ===== src/Vlog/Failures.antt =====
-- Writes to a value log that fail.
use distributed_system_based.Base.{
  ℕ, ◌+◌, ◌<◌, ◌≡◌, refl, arith, List, [], ◌∷◌, ◌++◌, ltb, true, length, take,
}
use distributed_system_based.Status.{ok}
use distributed_system_based.Crc.{Checksum}
use distributed_system_based.Vlog.{
  VlogInfo, Outcome, done, failed, header_size, write_buffer_size, synced_append, record_header,
  write_record,
}

full : (t : ℕ) → write_buffer_size < t → ltb write_buffer_size t ≡ true
full t e = ground arith

module _ (crc : Checksum) (io : List Outcome) (info : VlogInfo) (slice : List ℕ) where
  -- For a record that is larger than the buffer, a failed write of its header goes unreported when
  -- the writes of the buffer and of the payload succeed: `AddRecord` returns OK with only the
  -- bytes of the header that did reach the file in front of the payload, and the head counts the
  -- whole header.
  pub write_record-header_failed :
      (n : ℕ)
      → write_buffer_size < header_size + length slice
      → write_record crc (done ∷ failed n ∷ done ∷ io) info slice ≡ (
        ok,
        record {
          buffer = [];
          head = info.head + length info.buffer + header_size + length slice;
          file = ((info.file ++ info.buffer) ++ take n (record_header crc slice)) ++ slice;
        },
        io,
      )
  unfolding write_record synced_append
  write_record-header_failed n h =
      rw (full (length info.buffer + header_size + length slice) (omega arith))
        (rw (full (header_size + length slice) h) refl)
