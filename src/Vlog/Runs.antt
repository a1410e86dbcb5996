-- ===== src/Vlog/Runs.antt =====
-- Runs of a value log, with a checksum that sums the bytes.
use distributed_system_based.Base.{
  ℕ, ◌+◌, ◌%◌, ◌^◌, ◌≡◌, refl, arith, List, [], ◌∷◌, ◌++◌, true, replicate, inl,
}
use distributed_system_based.Status.{ok}
use distributed_system_based.Crc.{Checksum}
use distributed_system_based.Vlog.{VlogInfo, record_header, write_record, flush_buffer, write_pos}
use distributed_system_based.Vlog.Log.{contents, IsAligned, write_record-contents}
use distributed_system_based.Vlog.{done, failed}
use distributed_system_based.Vlog.Failures.{write_record-header_failed}
use distributed_system_based.Vlog.Fetch.{IsStored, write_record-IsStored, write_record_stores}
use distributed_system_based.Vlog.Reader.{read_all, new_reader}
use distributed_system_based.Vlog.Reader.RoundTrip.{write_records, read_all-write_records}
use distributed_system_based.Vlog.Manager.{opened, VlogManager}

abbrev sum_of : List ℕ → ℕ
sum_of [] = 0
sum_of (b ∷ bytes) = b + sum_of bytes

abbrev pub sum_checksum : Checksum
sum_checksum = record { value = λ bytes. sum_of bytes % 2 ^ 32; value-lt = λ bytes. omega arith }

-- Three bytes in the file, and two in the buffer.
abbrev half_flushed : VlogInfo
half_flushed = record { buffer = 4 ∷ 5 ∷ []; head = 3; file = 1 ∷ 2 ∷ 3 ∷ [] }

half_flushed-IsAligned : IsAligned half_flushed
half_flushed-IsAligned = omega arith

-- A payload that is larger than the buffer.
abbrev large : List ℕ
large = replicate 5000 7

write_record-contents_example :
    ((write_record sum_checksum [] half_flushed large).0 ≡ ok)
    × (contents (write_record sum_checksum [] half_flushed large).1
        ≡ contents half_flushed ++ (record_header sum_checksum large ++ large))
write_record-contents_example = write_record-contents sum_checksum half_flushed large

write_record_stores_example : IsStored (write_record sum_checksum [] half_flushed large).1 17 large
unfolding write_pos
write_record_stores_example =
    write_record_stores sum_checksum half_flushed large half_flushed-IsAligned

write_record-IsStored_example :
    IsStored (write_record sum_checksum [] half_flushed large).1 4 (5 ∷ [])
write_record-IsStored_example =
    write_record-IsStored sum_checksum half_flushed large 4 (5 ∷ []) half_flushed-IsAligned
      (inl (omega arith, omega arith, refl))

abbrev one_log : VlogManager
one_log = record { logs = (7, half_flushed) ∷ []; cur_vlog = 7; io = [] }

-- A small record, one that fills more than a block of the reader, and an empty one.
abbrev three_records : List (List ℕ)
three_records = (1 ∷ 2 ∷ []) ∷ replicate 40000 7 ∷ [] ∷ []

read_all-write_records_example :
    (read_all sum_checksum 4 (
      new_reader
        (flush_buffer [] (write_records sum_checksum (opened []) three_records)).0.file
        []
        true
        0)).0
    ≡ three_records
read_all-write_records_example =
    read_all-write_records sum_checksum three_records 4 (omega arith) (omega arith)

write_record-header_failed_example :
    write_record sum_checksum (done ∷ failed 0 ∷ done ∷ []) half_flushed large
    ≡ (ok, record { buffer = []; head = 5017; file = 1 ∷ 2 ∷ 3 ∷ 4 ∷ 5 ∷ large }, [])
write_record-header_failed_example =
    write_record-header_failed sum_checksum [] half_flushed large 0 (omega arith)
