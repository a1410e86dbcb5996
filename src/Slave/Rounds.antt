-- ===== src/Slave/Rounds.antt =====
-- distributed/slave.cc: a round of `gc_thread_main`, from the listing of the logs to the new
-- threshold. The sleeping and the file VLOG_META are left out.
use distributed_system_based.Base.{
  ℕ, ◌+◌, ◌^◌, ◌<◌, ◌≡◌, refl, List, [], Option, none, some, Bool, length, All,
}
use distributed_system_based.Base.Assoc.{lookup}
use distributed_system_based.Coding.{◌>>=◌, IsU32}
use distributed_system_based.Crc.{Checksum}
use distributed_system_based.Vlog.{VlogInfo}
use distributed_system_based.Vlog.Reader.RoundTrip.{log_of}
use distributed_system_based.Wire.Requests.{IsKey}
use distributed_system_based.Master.{process_worker_command}
use distributed_system_based.Master.Database.{AddressDb, IsAddressDb}
use distributed_system_based.Slave.State.{IsSound}
use distributed_system_based.Slave.Threshold.{gc_target, adjust_threshold, Rising, gc_target-oldest}
use distributed_system_based.Slave.Commands.{Node, get_value}
use distributed_system_based.Slave.Commands.Values.{Stores}
use distributed_system_based.Slave.Commands.Places.{IsCoherent}
use distributed_system_based.Slave.Commands.EndToEnd.{value_line}
use distributed_system_based.Slave.Files.{execute_gc_on_file}
use distributed_system_based.Slave.Files.Loop.{Pair, entries_of, IsPair}
use distributed_system_based.Slave.Files.NoLoss.{execute_gc_on_file-get_value}

module _ {M : Type 0} (send : M → List ℕ → List ℕ × M) (crc : Checksum) where
  collect_target : ℕ → List Bool → List Bool → ℕ → Node M → Option ℕ → Option (ℕ × Node M)
  collect_target fuel faults stops threshold n none = some (threshold, n)
  collect_target fuel faults stops threshold n (some target) = do
    c ← execute_gc_on_file send crc target fuel faults stops n
    some (adjust_threshold threshold c.total c.valid, c.node)

  -- The threshold, and the worker and the master, after a round over the logs `vlog_files`.
  unfoldable pub gc_round : ℕ → List Bool → List Bool → ℕ → List ℕ → Node M → Option (ℕ × Node M)
  unfolding collect_target
  gc_round fuel faults stops threshold vlog_files n =
      collect_target fuel faults stops threshold n
        (gc_target threshold n.slave.vlog_number vlog_files)

module _ (db : AddressDb) (laws : IsAddressDb db) (crc : Checksum) (n : Node db.State)
    (threshold target : ℕ) (vlog_files : List ℕ) (info : VlogInfo) (pairs : List Pair) (fuel : ℕ)
    (rising : Rising vlog_files)
    (taken : gc_target threshold n.slave.vlog_number vlog_files ≡ some target)
    (found : lookup target n.slave.manager.logs ≡ some info)
    (written : info.file ≡ log_of crc (entries_of pairs)) (hp : All IsPair pairs)
    (short : length info.file < 2 ^ 64) (s : IsSound n.slave) (c : IsCoherent db n.master)
    (room : n.slave.vlog_number + length pairs < 2 ^ 32) (enough : length pairs < fuel)
    (left : laws.Room n.master (length pairs)) (healthy : laws.Healthy n.master)
    (key value : List ℕ) (hk : IsKey key) (len_key : IsU32 (length key))
    (len_value : IsU32 (length value)) (p : Stores db n key value) where
  -- A round takes the oldest of the logs, given in rising order. The file of that log holds the
  -- records of pairs that the protocol carries, no read fails, nothing stops the run and no other
  -- thread of the worker runs in between, the addresses on the master were written by the protocol,
  -- the database has room for a write for each record and no error, and log numbers below 2^32 and
  -- rounds suffice. Then the round ends, the worker is sound, and a GET of any pair that was stored
  -- before returns its value.
  pub gc_round-get_value :
      (threshold' : ℕ) × (after : Node db.State) × (gc_round
          (process_worker_command db)
          crc
          fuel
          []
          []
          threshold
          vlog_files
          n
        ≡ some (threshold', after))
      × IsSound after.slave
      × (get_value (process_worker_command db) crc after key ≡ some (value_line value, after))
  unfolding gc_round
  gc_round-get_value =
      let (older, least) =
        gc_target-oldest threshold n.slave.vlog_number target vlog_files rising taken in
      let (r, runs, total, removed, sound, read) =
        execute_gc_on_file-get_value db laws crc n target info pairs fuel found written hp short s c
          older room enough left healthy key value hk len_key len_value p in
      (adjust_threshold threshold r.total r.valid, r.node, rw taken (rw runs refl), sound, read)
