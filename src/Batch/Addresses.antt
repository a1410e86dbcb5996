-- ===== src/Batch/Addresses.antt =====
-- The addresses that `Iterate` makes for the values of a batch point at their records.
use distributed_system_based.Base.{
  ℕ, zero, suc, ◌+◌, ◌-◌, ◌≤◌, ◌≡◌, ◌∙◌, ap, sym, refl, arith, List, [], ◌∷◌, ◌++◌, some, false,
  ltb, length, take, All, append_assoc, length-append, take-append_exact, drop-append_exact,
}
use distributed_system_based.Coding.{encode_fixed32}
use distributed_system_based.Coding.Fixed.{length-encode_fixed32}
use distributed_system_based.Status.{ok}
use distributed_system_based.Vlog.Fetch.{slice_at}
use distributed_system_based.Vlog.Manager.{encode_address}
use distributed_system_based.Batch.{
  Update, addressed, read_update, after_call_at, addresses_loop, iterate_addresses,
}
use distributed_system_based.Batch.Contents.{
  record_body, tag_of, records, Fits, IsBatch, count-IsBatch, drop-IsBatch, read_update-record_body,
}

abbrev pub record_size : Update → ℕ
record_size u = suc (length (record_body u))

-- The updates with the addresses of records that stand one behind the other from `pos` on.
abbrev pub located : ℕ → ℕ → List Update → List Update
located vlog_number pos [] = []
located vlog_number pos (u ∷ us) =
    addressed u (encode_address vlog_number pos (record_size u))
    ∷ located vlog_number (pos + record_size u) us

-- The records stand in the bytes, one behind the other from `offset` on.
abbrev pub Standing : List ℕ → ℕ → List Update → Type 0
Standing rep offset [] = Unit {0}
Standing rep offset (u ∷ us) =
    (slice_at offset (record_size u) rep ≡ tag_of u ∷ record_body u)
    × Standing rep (offset + record_size u) us

addresses_loop-step :
    (fuel vlog_number found : ℕ) (last_pos : List ℕ) (vlog_head tag : ℕ) (input : List ℕ)
    (u : Update) (rest : List ℕ)
    → read_update tag input ≡ some (u, rest)
    → addresses_loop (suc fuel) vlog_number found last_pos vlog_head (tag ∷ input)
      ≡ after_call_at
          (addressed u (encode_address vlog_number vlog_head (length last_pos - length rest)))
          (addresses_loop fuel vlog_number
            (found + 1)
            rest
            (vlog_head + (length last_pos - length rest))
            rest)
unfolding addresses_loop
addresses_loop-step fuel vlog_number found last_pos vlog_head tag input u rest e =
    rw (e, addresses_loop) refl

addresses_loop-records :
    (us : List Update) (fuel vlog_number found vlog_head : ℕ)
    → All Fits us
    → length (records us) ≤ fuel
    → addresses_loop fuel vlog_number found (records us) vlog_head (records us) ≡ (
      record { calls = located vlog_number vlog_head us; found = found + length us; status = ok },
      vlog_head + length (records us),
    )
unfolding addresses_loop
addresses_loop-records [] fuel vlog_number found vlog_head h enough = ground arith
addresses_loop-records (u ∷ us) zero vlog_number found vlog_head h enough = absurd (omega arith)
addresses_loop-records (u ∷ us) (suc fuel) vlog_number found vlog_head (hu, hs) enough =
    let size : length (records (u ∷ us)) - length (records us) ≡ record_size u =
      omega (arith, length-append (record_body u) (records us)) in
    addresses_loop-step fuel vlog_number found (records (u ∷ us)) vlog_head (tag_of u)
      (record_body u ++ records us) u (records us) (read_update-record_body u (records us) hu)
    ∙ ap
        (λ (n : ℕ).
          after_call_at (addressed u (encode_address vlog_number vlog_head n))
            (addresses_loop fuel vlog_number (found + 1) (records us) (vlog_head + n) (records us)))
        size
    ∙ ap (after_call_at (addressed u (encode_address vlog_number vlog_head (record_size u)))) (
        addresses_loop-records us fuel vlog_number (found + 1) (vlog_head + record_size u) hs
          (omega (arith, length-append (record_body u) (records us))))
    ∙ ap
        (λ (n : ℕ). (
          record { calls = located vlog_number vlog_head (u ∷ us); found = n; status = ok },
          vlog_head + record_size u + length (records us),
        ))
        (omega arith)
    ∙ ap
        (λ (n : ℕ). (
          record {
            calls = located vlog_number vlog_head (u ∷ us);
            found = found + length (u ∷ us);
            status = ok;
          },
          n,
        ))
        (omega (arith, length-append (record_body u) (records us)))

Standing-records :
    (us : List Update) (before rep : List ℕ) (offset : ℕ)
    → rep ≡ before ++ records us
    → offset ≡ length before
    → Standing rep offset us
Standing-records [] before rep offset e at = tt
Standing-records (u ∷ us) before rep offset e at =
    let whole : rep ≡ before ++ ((tag_of u ∷ record_body u) ++ records us) = e in
    (
      ap (slice_at offset (record_size u)) whole
          ∙ ap (λ (l : List ℕ). take (record_size u) l)
              (drop-append_exact offset before ((tag_of u ∷ record_body u) ++ records us) at)
          ∙ take-append_exact (record_size u) (tag_of u ∷ record_body u) (records us) refl,
      Standing-records us (before ++ (tag_of u ∷ record_body u)) rep (offset + record_size u)
          (whole ∙ sym (append_assoc before (tag_of u ∷ record_body u) (records us)))
          (omega (arith, length-append before (tag_of u ∷ record_body u))),
    )

-- When a batch is written to a value log at `vlog_head`, `Iterate` hands its updates on in their
-- order, each value replaced by an address of that log, and ends with the status OK. The address of
-- an update is the place of the log, counted from `vlog_head`, at which the bytes of the batch hold
-- its record, and the size of the record. The head is left behind the bytes of the batch.
pub iterate_addresses-Standing :
    (rep : List ℕ) (updates : List Update) (vlog_number vlog_head : ℕ)
    → IsBatch rep updates
    → (iterate_addresses vlog_number vlog_head rep
        ≡ some (
          record {
            calls = located vlog_number (vlog_head + 12) updates;
            found = length updates;
            status = ok;
          },
          vlog_head + length rep,
        ))
      × Standing rep 12 updates
unfolding iterate_addresses
iterate_addresses-Standing rep updates vlog_number vlog_head b =
    let front_length : length (b.front ++ encode_fixed32 (length updates)) ≡ 12 = omega (
      arith,
      b.front_length,
      length-append b.front (encode_fixed32 (length updates)),
      length-encode_fixed32 (length updates),
    ) in
    let whole : rep ≡ (b.front ++ encode_fixed32 (length updates)) ++ records updates =
      b.shape ∙ sym (append_assoc b.front (encode_fixed32 (length updates)) (records updates)) in
    let long : length rep ≡ 12 + length (records updates) = omega (
      arith,
      ap length whole,
      length-append (b.front ++ encode_fixed32 (length updates)) (records updates),
    ) in
    let big : ltb (length rep) 12 ≡ false = ground arith in
    (
      rw big (
          rw (drop-IsBatch rep updates b) (
            rw
              (addresses_loop-records updates (length rep) vlog_number 0 (vlog_head + 12) b.fits
                (omega arith))
              (rw (count-IsBatch rep updates b) (ground (arith, long))))),
      Standing-records updates (b.front ++ encode_fixed32 (length updates)) rep 12 whole
          (omega arith),
    )
