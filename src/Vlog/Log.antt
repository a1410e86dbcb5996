-- ===== src/Vlog/Log.antt =====
-- The value log as one sequence of bytes: what has reached the file, then what is buffered.
use distributed_system_based.Base.{
  ℕ, ◌+◌, ◌≤◌, ◌<◌, ◌≡◌, ◌∙◌, sym, refl, arith, List, [], ◌++◌, ltb, length, append_assoc,
  append-nil, length-append, Bool-cases, inl, inr,
}
use distributed_system_based.Coding.Fixed.{length-encode_fixed32, length-encode_fixed64}
use distributed_system_based.Coding.{encode_fixed32, encode_fixed64}
use distributed_system_based.Status.{ok}
use distributed_system_based.Crc.{Checksum, mask}
use distributed_system_based.Vlog.{
  VlogInfo, header_size, write_buffer_size, synced_append, record_header, write_record,
  flush_buffer, write_pos,
}

-- The abstract log: the bytes that a reader of the log sees, flushed or not.
abbrev pub contents : VlogInfo → List ℕ
contents info = info.file ++ info.buffer

-- `head_` counts the bytes of the file, and the buffer does not overflow.
pub record IsAligned (info : VlogInfo) : Type 0 where
  pub flushed : info.head ≡ length info.file
  pub bounded : length info.buffer ≤ write_buffer_size

-- `GetWritePos` is where the log ends.
pub write_pos-contents :
    (info : VlogInfo) → IsAligned info → write_pos info ≡ length (contents info)
unfolding write_pos
write_pos-contents info h = omega (arith, length-append info.file info.buffer)

module _ (crc : Checksum) where
  pub length-record_header : (slice : List ℕ) → length (record_header crc slice) ≡ 12
  unfolding record_header
  length-record_header slice =
      length-append (encode_fixed32 _) (encode_fixed64 _)
      ∙ omega (
        arith,
        length-encode_fixed32 (mask (crc.value slice)),
        length-encode_fixed64 (length slice),
      )

  -- The three ways in which `AddRecord` places a record when all writes succeed.
  pub data Written (info : VlogInfo) (slice : List ℕ) (info' : VlogInfo) : Type 0 where
    buffered :
        length info.buffer + header_size + length slice ≤ write_buffer_size
        → info' ≡ record info { buffer = info.buffer ++ (record_header crc slice ++ slice) }
        → Written info slice info'
    flushed_first :
        write_buffer_size < length info.buffer + header_size + length slice
        → header_size + length slice ≤ write_buffer_size
        → info' ≡ record {
          buffer = record_header crc slice ++ slice;
          head = info.head + length info.buffer;
          file = info.file ++ info.buffer;
        }
        → Written info slice info'
    unbuffered :
        write_buffer_size < header_size + length slice
        → info' ≡ record {
          buffer = [];
          head = info.head + length info.buffer + header_size + length slice;
          file = ((info.file ++ info.buffer) ++ record_header crc slice) ++ slice;
        }
        → Written info slice info'

  pub write_record-Written :
      (info : VlogInfo) (slice : List ℕ)
      → ((write_record crc [] info slice).0 ≡ ok)
        × Written info slice (write_record crc [] info slice).1
  unfolding write_record synced_append
  write_record-Written info slice =
      elim (Bool-cases (ltb write_buffer_size (length info.buffer + header_size + length slice))) [
        | inr room ↦ rw room (refl, buffered (ground arith) refl)
        | inl full ↦
            rw full (elim (Bool-cases (ltb write_buffer_size (header_size + length slice))) [
              | inr fits ↦ rw fits (refl, flushed_first (ground arith) (ground arith) refl)
              | inl large ↦ rw large (refl, unbuffered (ground arith) refl)
            ])
      ]

  -- Where all writes succeed there is no other answer than a success.
  pub write_record_succeeds :
      (info : VlogInfo) (slice : List ℕ)
      → write_record crc [] info slice ≡ (ok, (write_record crc [] info slice).1, [])
  unfolding write_record synced_append
  write_record_succeeds info slice =
      elim (Bool-cases (ltb write_buffer_size (length info.buffer + header_size + length slice))) [
        | inr room ↦ rw room
        | inl full ↦
            rw full (elim (Bool-cases (ltb write_buffer_size (header_size + length slice))) [
              | inr fits ↦ rw fits
              | inl large ↦ rw large
            ])
      ]

  Written-contents :
      {info : VlogInfo} {slice : List ℕ} {info' : VlogInfo}
      → Written info slice info'
      → contents info' ≡ contents info ++ (record_header crc slice ++ slice)
  Written-contents {info} {slice} (buffered room e) =
      rw e (sym (append_assoc info.file info.buffer _))
  Written-contents {info} {slice} (flushed_first full fits e) = rw e refl
  Written-contents {info} {slice} (unbuffered large e) =
      rw e (append-nil _ ∙ append_assoc _ (record_header crc slice) slice)

  -- Where all writes succeed, `AddRecord` succeeds and appends the header and the payload, on the
  -- buffered path, on the one that flushes first, and on the one that bypasses the buffer.
  pub write_record-contents :
      (info : VlogInfo) (slice : List ℕ)
      → ((write_record crc [] info slice).0 ≡ ok)
        × (contents (write_record crc [] info slice).1
            ≡ contents info ++ (record_header crc slice ++ slice))
  write_record-contents info slice =
      let (status, placed) = write_record-Written info slice in (status, Written-contents placed)

  pub Written-IsAligned :
      {info : VlogInfo} {slice : List ℕ} {info' : VlogInfo}
      → Written info slice info'
      → IsAligned info
      → IsAligned info'
  Written-IsAligned {info} {slice} (buffered room e) h = rw e (
      omega (
        arith,
        length-append info.buffer (record_header crc slice ++ slice),
        length-append (record_header crc slice) slice,
        length-record_header slice,
      ))
  Written-IsAligned {info} {slice} (flushed_first full fits e) h = rw e (
      omega (
        arith,
        length-append info.file info.buffer,
        length-append (record_header crc slice) slice,
        length-record_header slice,
      ))
  Written-IsAligned {info} {slice} (unbuffered large e) h = rw e (
      omega (
        arith,
        length-append info.file info.buffer,
        length-append (info.file ++ info.buffer) (record_header crc slice),
        length-append ((info.file ++ info.buffer) ++ record_header crc slice) slice,
        length-record_header slice,
      ))

-- A flush of an aligned log whose write succeeds moves the buffer to the file: the bytes of the
-- log stay as they were, nothing is left in the buffer, and the log is aligned again.
pub flush_buffer_lem :
    (info : VlogInfo)
    → IsAligned info
    → (contents (flush_buffer [] info).0 ≡ contents info)
      × (length (flush_buffer [] info).0.buffer ≡ 0)
      × IsAligned (flush_buffer [] info).0
unfolding flush_buffer synced_append
flush_buffer_lem info h = elim (Bool-cases (ltb 0 (length info.buffer))) [
  | inl some_left ↦
      rw some_left (append-nil _, refl, omega (arith, length-append info.file info.buffer))
  | inr empty ↦ rw empty (refl, ground arith, h)
]
