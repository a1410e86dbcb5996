-- ===== src/Slave/Files/NoLoss.antt =====
-- What `execute_gc_on_file` of distributed/slave.cc does to a log that was written and flushed.
use distributed_system_based.Base.{
  ℕ, suc, ◌+◌, ◌-◌, ◌^◌, ◌<◌, ◌≡◌, ◌∙◌, ap, sym, refl, arith, List, [], ◌∷◌, ◌++◌, some, Bool, true,
  false, ltb, length, All, length-append, append_assoc, take-append_exact, inr,
}
use distributed_system_based.Base.Assoc.{lookup}
use distributed_system_based.Coding.{IsU32}
use distributed_system_based.Crc.{Checksum}
use distributed_system_based.Vlog.{VlogInfo, header_size, record_header}
use distributed_system_based.Vlog.Log.{length-record_header}
use distributed_system_based.Vlog.Fetch.{slice_at, slice_at-append_right}
use distributed_system_based.Vlog.Reader.{read_record, new_reader}
use distributed_system_based.Vlog.Reader.Stream.{Comes}
use distributed_system_based.Vlog.Reader.RoundTrip.{log_of, read_record-Comes}
use distributed_system_based.Wire.Requests.{IsKey}
use distributed_system_based.Master.{process_worker_command}
use distributed_system_based.Master.Database.{AddressDb, IsAddressDb}
use distributed_system_based.Slave.{Slave}
use distributed_system_based.Slave.State.{IsSound}
use distributed_system_based.Slave.Commands.{Node, get_value, gc_record}
use distributed_system_based.Slave.Commands.Values.{Stores, get_value-Stores}
use distributed_system_based.Slave.Commands.Places.{IsCoherent}
use distributed_system_based.Slave.Commands.EndToEnd.{value_line}
use distributed_system_based.Slave.Files.{
  Collection, record_address, file_of, gc_loop, with_record, execute_gc_on_file,
}
use distributed_system_based.Slave.Files.Loop.{
  Pair, entry_of, entries_of, IsPair, Placed, At, Collects, gc_loop-Collects,
}

-- A record of a file stands at its place.
Placed-file :
    (crc : Checksum) (target : ℕ) (s : Slave) (info : VlogInfo) (before : List ℕ) (off : ℕ)
    (pairs : List Pair)
    → lookup target s.manager.logs ≡ some info
    → info.head ≡ length info.file
    → info.file ≡ before ++ log_of crc (entries_of pairs)
    → off ≡ length before
    → Placed target s off pairs
Placed-file crc target s info before off [] found flushed e h = tt
Placed-file crc target s info before off (pair ∷ pairs) found flushed e h =
    let more : List ℕ = log_of crc (entries_of pairs) in
    let header : List ℕ = record_header crc (entry_of pair) in
    let regrouped : info.file ≡ (before ++ header) ++ (entry_of pair ++ more) =
      e ∙ sym (append_assoc before header (entry_of pair ++ more)) in
    let start : off + 12 ≡ length (before ++ header) =
      omega (arith, length-append before header, length-record_header crc (entry_of pair)) in
    (
      record {
        info = info;
        found = found;
        stored = inr (
          omega (
            arith,
            ap length regrouped,
            length-append (before ++ header) (entry_of pair ++ more),
            length-append (entry_of pair) more,
          ),
          ap (slice_at (off + 12) (length (entry_of pair))) regrouped
              ∙ slice_at-append_right (off + 12) (length (entry_of pair)) (before ++ header)
                  (entry_of pair ++ more) (omega arith)
              ∙ ap (λ (t : ℕ). slice_at t (length (entry_of pair)) (entry_of pair ++ more))
                  (zero_gap start)
              ∙ take-append_exact (length (entry_of pair)) (entry_of pair) more refl,
        );
      },
      Placed-file crc target s info ((before ++ header) ++ entry_of pair)
          (off + header_size + length (entry_of pair)) pairs found flushed
          (regrouped ∙ sym (append_assoc (before ++ header) (entry_of pair) more))
          (omega (arith, length-append (before ++ header) (entry_of pair))),
    )
  where
    zero_gap : {a b : ℕ} → a ≡ b → a - b ≡ 0
    zero_gap same = omega arith

module _ (db : AddressDb) (laws : IsAddressDb db) (crc : Checksum) (n : Node db.State) (target : ℕ)
    (info : VlogInfo) (pairs : List Pair) (fuel : ℕ)
    (found : lookup target n.slave.manager.logs ≡ some info)
    (written : info.file ≡ log_of crc (entries_of pairs)) (hp : All IsPair pairs)
    (short : length info.file < 2 ^ 64) (s : IsSound n.slave) (c : IsCoherent db n.master)
    (older : target < n.slave.vlog_number) (room : n.slave.vlog_number + length pairs < 2 ^ 32)
    (enough : length pairs < fuel) (left : laws.Room n.master (length pairs))
    (healthy : laws.Healthy n.master) where
  file_lem : file_of n.slave target ≡ info.file
  unfolding file_of
  file_lem = ground (arith, found)

  collects :
      Collects target db n 0 pairs 0
        (execute_gc_on_file (process_worker_command db) crc target fuel [] [] n)
  unfolding execute_gc_on_file
  collects =
      gc_loop-Collects db laws crc target (omega (arith, room)) pairs fuel
        (new_reader (file_of n.slave target) [] true 0) 0 0 0 n
        (record { no_fault = refl; ended = λ t. ground arith }) (file_lem ∙ written) hp
        (omega (arith, ap length written)) s c
        (Placed-file crc target n.slave info [] 0 pairs found (s.aligned _ _ found).flushed written
          refl)
        older room enough left healthy

  module _ (key value : List ℕ) (hk : IsKey key) (len_key : IsU32 (length key))
      (len_value : IsU32 (length value)) (p : Stores db n key value) where
    -- Let the file of a log older than the current one of a sound worker hold the records of pairs
    -- that the protocol carries, let no read fail, no flag or connection end the run and no other
    -- thread of the worker run in between, let the addresses on the master be written by the protocol,
    -- and let the database have room for a write for each record and no error. With one round more
    -- than there are records, and log numbers below 2^32 for all of them, the collection of the log
    -- comes to its end: it counts every record, the file is removed if there was one, the worker is
    -- sound, and a GET of any pair that was stored before returns its value.
    pub execute_gc_on_file-get_value :
        (after : Collection db.State) × (execute_gc_on_file
            (process_worker_command db)
            crc
            target
            fuel
            []
            []
            n
          ≡ some after)
        × (after.total ≡ length pairs)
        × (after.removed ≡ ltb 0 (length pairs))
        × IsSound after.node.slave
        × (get_value (process_worker_command db) crc after.node key
            ≡ some (value_line value, after.node))
    execute_gc_on_file-get_value =
        let r = collects in
        (
          r.c,
          r.runs,
          r.counted ∙ omega arith,
          r.removed ∙ ap (ltb 0) (omega arith),
          r.sound,
          get_value-Stores db crc r.c.node key value hk len_key len_value (r.keeps key value p).0,
        )

    -- Let the file of a log older than the current one of a sound worker hold the records of pairs
    -- that the protocol carries, let no read fail, no flag or connection end the run and no other
    -- thread of the worker run in between, let the addresses on the master be written by the protocol,
    -- and let there be rounds, log numbers below 2^32 and room in a database without an error for each
    -- record. A pair whose address on the master is that of one of its records in the file is
    -- afterwards stored in a newer log, so the removal of the file takes nothing that the master
    -- refers to.
    pub execute_gc_on_file-At :
        At target (key, value) p.address 0 pairs
        → (after : Collection db.State) × (execute_gc_on_file
              (process_worker_command db)
              crc
              target
              fuel
              []
              []
              n
            ≡ some after)
          × (q : Stores db after.node key value) × (target < q.address.vlog_numb)
    execute_gc_on_file-At at =
        let r = collects in let (q, newer) = r.leaves key value p at in (r.c, r.runs, q, newer)

-- A collection whose connection breaks after the first record ends with that record counted and
-- reports the file as removed, however many records stand behind it.
pub execute_gc_on_file-stopped :
    {M : Type 0} (send : M → List ℕ → List ℕ × M) (crc : Checksum) (target fuel : ℕ)
    (slice : List ℕ) (more : List (List ℕ)) (n after : Node M) (moved : Bool)
    → file_of n.slave target ≡ log_of crc (slice ∷ more)
    → length slice < 2 ^ 64
    → gc_record send crc n (record_address target 0 slice) slice ≡ some (moved, after)
    → (c : Collection M) × (execute_gc_on_file send crc target
          (suc (suc fuel))
          []
          (false ∷ false ∷ true ∷ [])
          n
        ≡ some c)
      × (c.total ≡ 1)
      × (c.node ≡ after)
      × (c.removed ≡ true)
unfolding execute_gc_on_file gc_loop with_record
execute_gc_on_file-stopped send crc target fuel slice more n after moved written short runs =
    let read : Comes crc slice (log_of crc more)
        (read_record crc (new_reader (file_of n.slave target) [] true 0)) =
      read_record-Comes crc slice (log_of crc more) (new_reader (file_of n.slave target) [] true 0)
        (record { no_fault = refl; ended = λ t. ground arith }) short written in
    rw read.comes (rw runs (_, refl, omega arith, refl, refl))
