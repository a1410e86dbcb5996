-- ===== src/Vlog/Reader/RoundTrip.antt =====
-- What `VWriter` wrote is what `VReader` reads.
use distributed_system_based.Base.{
  ℕ, zero, suc, ◌<◌, ◌≤◌, ◌≡◌, ◌∙◌, ap, sym, refl, arith, List, [], ◌∷◌, ◌++◌, none, true, length,
  All, take, drop, append_assoc, append-nil, length-append, Bool-cases, inl, inr,
}
use distributed_system_based.Coding.{IsU64}
use distributed_system_based.Crc.{Checksum}
use distributed_system_based.Vlog.{VlogInfo, header_size, record_header, write_record, flush_buffer}
use distributed_system_based.Vlog.Log.{
  contents, IsAligned, length-record_header, write_record-contents, write_record-Written,
  Written-IsAligned, flush_buffer_lem,
}
use distributed_system_based.Vlog.Manager.{opened}
use distributed_system_based.Vlog.Reader.{
  VReader, refill, read_file, read_header, read_record, read_all, new_reader,
}
use distributed_system_based.Vlog.Reader.Stream.{
  pending, IsReader, Comes, refill_lem, read_header_lem, read_payload_lem, cut_left, take-drop,
}

append_nil_parts : (xs ys : List ℕ) → xs ++ ys ≡ [] → (xs ≡ []) × (ys ≡ [])
append_nil_parts [] ys e = (refl, e)
append_nil_parts (x ∷ xs) ys e = absurd (ground arith)

-- With an empty buffer, the log is its file.
only_file : (info : VlogInfo) → length info.buffer ≡ 0 → info.file ≡ contents info
only_file info e = empty info.buffer e
  where
    empty : (b : List ℕ) → length b ≡ 0 → info.file ≡ info.file ++ b
    empty [] h = sym (append-nil info.file)
    empty (x ∷ b) h = absurd (omega arith)

module _ (crc : Checksum) where
  -- The bytes of one record, and those of a sequence of records.
  abbrev pub log_of : List (List ℕ) → List ℕ
  log_of [] = []
  log_of (slice ∷ slices) = record_header crc slice ++ (slice ++ log_of slices)

  behind_header :
      (slice more : List ℕ) (r : VReader)
      → pending r ≡ record_header crc slice ++ (slice ++ more)
      → header_size ≤ length r.buffer
      → (take 12 r.buffer ≡ record_header crc slice) × (drop 12 r.buffer ++ r.file ≡ slice ++ more)
  behind_header slice more r e h = rw (length-record_header crc slice) at (
      cut_left r.buffer r.file (record_header crc slice) (slice ++ more) e
        (omega (arith, length-record_header crc slice)))

  -- A reader in front of a record returns its payload, whole and with its checksum verified, however
  -- the record lies across the blocks, and then stands in front of what follows.
  pub read_record-Comes :
      (slice more : List ℕ) (r : VReader)
      → IsReader r
      → IsU64 (length slice)
      → pending r ≡ record_header crc slice ++ (slice ++ more)
      → Comes crc slice more (read_record crc r)
  unfolding read_record
  read_record-Comes slice more r v h e =
      let enough : header_size ≤ length (pending r) = omega (
        arith,
        ap length e,
        length-append (record_header crc slice) (slice ++ more),
        length-record_header crc slice,
      ) in
      let (ready, same, v1, long, k) = refill_lem r v enough in
      let (front, back) = behind_header slice more (refill r).1 (same ∙ e) long in
      rw ready (
        rw
          (ap (read_header crc) (
              sym (take-drop 12 (refill r).1.buffer)
              ∙ ap (λ l. l ++ drop 12 (refill r).1.buffer) front)
            ∙ read_header_lem crc slice (drop 12 (refill r).1.buffer) h)
          (read_payload_lem crc slice more
            (record (refill r).1 { buffer = drop 12 (refill r).1.buffer })
            (record { no_fault = v1.no_fault; ended = v1.ended }) back))

  -- A reader with nothing left returns no record.
  pub read_record-end : (r : VReader) → IsReader r → pending r ≡ [] → (read_record crc r).0 ≡ none
  unfolding read_record refill read_file
  read_record-end r v e = elim (Bool-cases r.eof) [
    | inl ended ↦ ground (arith, append_nil_parts r.buffer r.file e)
    | inr going ↦ rw v.no_fault (ground (arith, append_nil_parts r.buffer r.file e))
  ]

  pub read_all_lem :
      (slices : List (List ℕ)) (r : VReader) (fuel : ℕ)
      → IsReader r
      → All (λ s. IsU64 (length s)) slices
      → pending r ≡ log_of slices
      → length slices < fuel
      → (read_all crc fuel r).0 ≡ slices
  unfolding read_all
  read_all_lem slices r zero v hs e h = absurd (omega arith)
  read_all_lem [] r (suc fuel) v hs e h = rw (read_record-end r v e) refl
  read_all_lem (slice ∷ slices) r (suc fuel) v hs e h =
      let c : Comes crc slice (log_of slices) (read_record crc r) =
        read_record-Comes slice (log_of slices) r v hs.0 e in
      rw c.comes (
        ap (λ l. slice ∷ l)
          (read_all_lem slices (read_record crc r).1 fuel c.reader hs.1 c.left (omega arith)))

  -- The records of a list written in turn to a log.
  unfoldable pub write_records : VlogInfo → List (List ℕ) → VlogInfo
  write_records info [] = info
  write_records info (slice ∷ slices) =
      let after = (write_record crc [] info slice).1 in write_records after slices

  write_records-contents :
      (info : VlogInfo) (slices : List (List ℕ))
      → IsAligned info
      → (contents (write_records info slices) ≡ contents info ++ log_of slices)
        × IsAligned (write_records info slices)
  unfolding write_records
  write_records-contents info [] a = (sym (append-nil (contents info)), a)
  write_records-contents info (slice ∷ slices) a =
      let after : VlogInfo = (write_record crc [] info slice).1 in
      let a1 : IsAligned after = Written-IsAligned crc (write_record-Written crc info slice).1 a in
      let (rest, a2) = write_records-contents after slices a1 in
      (
        rest
            ∙ ap (λ l. l ++ log_of slices) (write_record-contents crc info slice).1
            ∙ append_assoc (contents info) (record_header crc slice ++ slice) (log_of slices)
            ∙ ap (λ l. contents info ++ l)
                (append_assoc (record_header crc slice) slice (log_of slices)),
        a2,
      )

  -- Records of any number, each below 2^64 bytes, that are written in turn to a new log and
  -- flushed, where no write fails, are read back from the start of its file, each with its payload
  -- and in their order, and the reader then stops; it takes one round for each record and one for
  -- the end.
  pub read_all-write_records :
      (slices : List (List ℕ)) (fuel : ℕ)
      → All (λ s. IsU64 (length s)) slices
      → length slices < fuel
      → (read_all crc fuel
          (new_reader (flush_buffer [] (write_records (opened []) slices)).0.file [] true 0)).0
        ≡ slices
  read_all-write_records slices fuel hs h =
      let (written, aligned) = write_records-contents (opened []) slices (omega arith) in
      let (flushed, empty, a) = flush_buffer_lem (write_records (opened []) slices) aligned in
      read_all_lem slices _ fuel (record { no_fault = refl; ended = λ t. ground arith }) hs
        (only_file (flush_buffer [] (write_records (opened []) slices)).0 empty ∙ flushed ∙ written)
        h
