-- ===== src/Vlog/Fetch.antt =====
-- A record that was written can be fetched at its address, now and after any later writes.
use distributed_system_based.Base.{
  ℕ, zero, suc, ◌+◌, ◌-◌, ◌≤◌, ◌<◌, ◌≡◌, ◌∙◌, ap, sym, refl, arith, List, [], ◌∷◌, ◌++◌, ltb,
  length, take, drop, append_assoc, append-nil, length-append, take-append_exact, drop-append_exact,
  ◌⊎◌, inl, inr, Bool-cases,
}
use distributed_system_based.Crc.{Checksum}
use distributed_system_based.Vlog.{
  VlogInfo, header_size, record_header, write_record, flush_buffer, synced_append, write_pos, parse,
  get,
}
use distributed_system_based.Vlog.Log.{
  IsAligned, Written, buffered, flushed_first, unbuffered, write_record-Written,
  length-record_header,
}

module _ {ℓ} {A : Type ℓ} where
  -- The `n` elements from position `m` on.
  abbrev pub slice_at : ℕ → ℕ → List A → List A
  slice_at m n xs = take n (drop m xs)

  pub slice_at-append_left :
      (m n : ℕ) (xs ys : List A) → m + n ≤ length xs → slice_at m n (xs ++ ys) ≡ slice_at m n xs
  slice_at-append_left zero zero xs ys h = refl
  slice_at-append_left zero (suc n) [] ys h = absurd (omega arith)
  slice_at-append_left zero (suc n) (x ∷ xs) ys h =
      ap (λ l. x ∷ l) (slice_at-append_left zero n xs ys (omega arith))
  slice_at-append_left (suc m) n [] ys h = absurd (omega arith)
  slice_at-append_left (suc m) n (x ∷ xs) ys h = slice_at-append_left m n xs ys (omega arith)

  pub slice_at-append_right :
      (m n : ℕ) (xs ys : List A)
      → length xs ≤ m
      → slice_at m n (xs ++ ys) ≡ slice_at (m - length xs) n ys
  slice_at-append_right m n [] ys h = ap (λ (t : ℕ). slice_at t n ys) (omega arith)
  slice_at-append_right zero n (x ∷ xs) ys h = absurd (omega arith)
  slice_at-append_right (suc m) n (x ∷ xs) ys h =
      slice_at-append_right m n xs ys (omega arith) ∙ ap (λ (t : ℕ). slice_at t n ys) (omega arith)

-- What is appended last is found at the end of what was there.
slice_at_end {ℓ} :
    {A : Type ℓ} (m : ℕ) (xs ys : List A) → m ≡ length xs → slice_at m (length ys) (xs ++ ys) ≡ ys
slice_at_end m xs ys e =
    ap (λ l. take (length ys) l) (drop-append_exact m xs ys e)
    ∙ ap (λ l. take (length ys) l) (sym (append-nil ys))
    ∙ take-append_exact (length ys) ys [] refl

-- `entry` stands at `offset` of the log, whole in the buffer or whole in the file.
abbrev pub InBuffer : VlogInfo → ℕ → List ℕ → Type 0
InBuffer info offset entry =
    (info.head ≤ offset)
    × (offset - info.head + length entry ≤ length info.buffer)
    × (slice_at (offset - info.head) (length entry) info.buffer ≡ entry)

abbrev pub InFile : VlogInfo → ℕ → List ℕ → Type 0
InFile info offset entry =
    (offset + length entry ≤ info.head) × (slice_at offset (length entry) info.file ≡ entry)

abbrev pub IsStored : VlogInfo → ℕ → List ℕ → Type 0
IsStored info offset entry = InBuffer info offset entry ⊎ InFile info offset entry

-- A fetch of a stored entry parses that entry.
pub get-IsStored :
    (info : VlogInfo) (offset : ℕ) (entry : List ℕ)
    → 0 < length entry
    → IsStored info offset entry
    → get info offset (length entry) ≡ parse entry
unfolding get
get-IsStored info offset entry pos (inl (h, fits, e)) = ground (arith, ap parse e)
get-IsStored info offset entry pos (inr (h, e)) = ground (arith, ap parse e)

-- Bytes added behind the buffer leave what is stored in place.
InBuffer-append :
    (info : VlogInfo) (more : List ℕ) (offset : ℕ) (entry : List ℕ)
    → IsStored info offset entry
    → IsStored (record info { buffer = info.buffer ++ more }) offset entry
InBuffer-append info more offset entry (inl (h, fits, e)) = inl (
  h,
  omega (arith, length-append info.buffer more),
  slice_at-append_left (offset - info.head) (length entry) info.buffer more fits ∙ e,
)
InBuffer-append info more offset entry (inr s) = inr s

-- The buffer moves to the file, and more may follow it there and in the new buffer.
IsStored-flush :
    (info : VlogInfo) (more buffer' : List ℕ) (head' offset : ℕ) (entry : List ℕ)
    → IsAligned info
    → head' ≡ info.head + length info.buffer + length more
    → IsStored info offset entry
    → IsStored
        (record { buffer = buffer'; head = head'; file = (info.file ++ info.buffer) ++ more })
        offset
        entry
IsStored-flush info more buffer' head' offset entry a eh (inl (h, fits, e)) = inr (
  omega arith,
  slice_at-append_left offset (length entry) (info.file ++ info.buffer) more
        (omega (arith, length-append info.file info.buffer))
      ∙ slice_at-append_right offset (length entry) info.file info.buffer (omega arith)
      ∙ ap (λ (t : ℕ). slice_at t (length entry) info.buffer) (omega arith)
      ∙ e,
)
IsStored-flush info more buffer' head' offset entry a eh (inr (h, e)) = inr (
  omega arith,
  slice_at-append_left offset (length entry) (info.file ++ info.buffer) more
        (omega (arith, length-append info.file info.buffer))
      ∙ slice_at-append_left offset (length entry) info.file info.buffer (omega arith)
      ∙ e,
)

module _ (crc : Checksum) where
  Written-IsStored :
      {info : VlogInfo} {slice : List ℕ} {info' : VlogInfo} (offset : ℕ) (entry : List ℕ)
      → Written crc info slice info'
      → IsAligned info
      → IsStored info offset entry
      → IsStored info' offset entry
  Written-IsStored {info} offset entry (buffered room e) a s =
      rw e (InBuffer-append info _ offset entry s)
  Written-IsStored {info} {slice} offset entry (flushed_first full fits e) a s = rw e (
      rw (sym (append-nil (info.file ++ info.buffer)))
        (IsStored-flush info [] _ _ offset entry a (omega arith) s))
  Written-IsStored {info} {slice} offset entry (unbuffered large e) a s = rw e (
      rw (append_assoc (info.file ++ info.buffer) (record_header crc slice) slice) (
        IsStored-flush info (record_header crc slice ++ slice) [] _ offset entry a
          (omega
            (arith, length-append (record_header crc slice) slice, length-record_header crc slice))
          s))

  -- On a log that is aligned with its file, and where no write fails, whatever was stored before
  -- `AddRecord` is still stored at the same address after it.
  pub write_record-IsStored :
      (info : VlogInfo) (slice : List ℕ) (offset : ℕ) (entry : List ℕ)
      → IsAligned info
      → IsStored info offset entry
      → IsStored (write_record crc [] info slice).1 offset entry
  write_record-IsStored info slice offset entry a s =
      Written-IsStored offset entry (write_record-Written crc info slice).1 a s

  Written-new :
      {info : VlogInfo} {slice : List ℕ} {info' : VlogInfo}
      → Written crc info slice info'
      → IsAligned info
      → IsStored info' (write_pos info + header_size) slice
  unfolding write_pos
  Written-new {info} {slice} (buffered room e) a = rw e (
      inl (
        omega arith,
        omega (
          arith,
          length-append info.buffer (record_header crc slice ++ slice),
          length-append (record_header crc slice) slice,
          length-record_header crc slice,
        ),
        rw (sym (append_assoc info.buffer (record_header crc slice) slice)) (
            slice_at_end _ (info.buffer ++ record_header crc slice) slice (
              omega (
                arith,
                length-append info.buffer (record_header crc slice),
                length-record_header crc slice,
              ))),
      ))
  Written-new {info} {slice} (flushed_first full fits e) a = rw e (
      inl (
        omega arith,
        omega
            (arith, length-append (record_header crc slice) slice, length-record_header crc slice),
        slice_at_end _ (record_header crc slice) slice
            (omega (arith, length-record_header crc slice)),
      ))
  Written-new {info} {slice} (unbuffered large e) a = rw e (
      inr (
        omega arith,
        slice_at_end _ ((info.file ++ info.buffer) ++ record_header crc slice) slice (
            omega (
              arith,
              length-append info.file info.buffer,
              length-append (info.file ++ info.buffer) (record_header crc slice),
              length-record_header crc slice,
            )),
      ))

  -- On a log that is aligned with its file, and where no write fails, `AddRecord` stores its
  -- payload behind a header at the old write position.
  pub write_record_stores :
      (info : VlogInfo) (slice : List ℕ)
      → IsAligned info
      → IsStored (write_record crc [] info slice).1 (write_pos info + header_size) slice
  write_record_stores info slice a = Written-new (write_record-Written crc info slice).1 a

-- A flush leaves what is stored in place.
pub flush_buffer-IsStored :
    (info : VlogInfo) (offset : ℕ) (entry : List ℕ)
    → IsAligned info
    → IsStored info offset entry
    → IsStored (flush_buffer [] info).0 offset entry
unfolding flush_buffer synced_append
flush_buffer-IsStored info offset entry a s = elim (Bool-cases (ltb 0 (length info.buffer))) [
  | inl some_left ↦ rw some_left (
      rw (sym (append-nil (info.file ++ info.buffer)))
        (IsStored-flush info [] [] _ offset entry a (omega arith) s))
  | inr empty ↦ rw empty s
]
