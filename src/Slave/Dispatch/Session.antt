-- ===== src/Slave/Dispatch/Session.antt =====
-- Two lines of a client, one after the other, through `process_command` of distributed/slave.cc and
-- `process_worker_command` of distributed/master.cc.
use distributed_system_based.Base.{
  ℕ, ◌+◌, ◌^◌, ◌<◌, ◌≡◌, ◌∙◌, arith, List, ◌∷◌, ◌++◌, some, Bool, length,
}
use distributed_system_based.Coding.{IsU32}
use distributed_system_based.Crc.{Checksum}
use distributed_system_based.Text.{codes}
use distributed_system_based.Text.Words.{NoSpace}
use distributed_system_based.Wire.Requests.{IsKey}
use distributed_system_based.Master.{process_worker_command}
use distributed_system_based.Master.Database.{AddressDb, IsAddressDb}
use distributed_system_based.Slave.State.{IsSound}
use distributed_system_based.Slave.Commands.{Node}
use distributed_system_based.Slave.Commands.EndToEnd.{value_line, put_value-get_value}
use distributed_system_based.Slave.Dispatch.{process_command}
use distributed_system_based.Slave.Dispatch.Lines.{IsText, process-put_line, process-get_line}

module _ (db : AddressDb) (laws : IsAddressDb db) (crc : Checksum) (worker_id fuel : ℕ)
    (faults stops : List Bool) (vlog_files : List ℕ) (n : Node db.State) (b : ℕ) (key : List ℕ)
    (c : ℕ) (value : List ℕ) (hk : NoSpace (b ∷ key)) (hv : IsText c value)
    (len_key : IsU32 (length (b ∷ key) + 8)) (len_value : IsU32 (length (c ∷ value)))
    (s : IsSound n.slave) (h : n.slave.vlog_number + 1 < 2 ^ 32) (room : laws.Room n.master 1) where
  any-IsKey : (d : ℕ) (w : List ℕ) → NoSpace (d ∷ w) → IsKey (d ∷ w)
  any-IsKey d w no_space = record { nonempty = ground arith; no_space = no_space }

  -- A client sends the line `PUT key value` to a sound worker whose log numbers stay below 2^32, and no
  -- other thread of the worker runs in between. The key is a word, the value one line without blanks
  -- at its ends, both below 2^32 bytes, with the eight bytes of an internal key, and the database has
  -- room for a write and no error. The answer is STORED, the worker is sound then, and the line
  -- `GET key` is answered by the value and changes nothing.
  pub process_command-put-get :
      laws.Healthy n.master
      → (after : Node db.State) × (process_command
            (process_worker_command db)
            (process_worker_command db)
            crc
            worker_id
            fuel
            faults
            stops
            vlog_files
            n
            (codes "PUT " ++ ((b ∷ key) ++ (32 ∷ c ∷ value)))
          ≡ some (codes "STORED\r\n", after))
        × IsSound after.slave
        × (process_command
              (process_worker_command db)
              (process_worker_command db)
              crc
              worker_id
              fuel
              faults
              stops
              vlog_files
              after
              (codes "GET " ++ (b ∷ key))
            ≡ some (value_line (c ∷ value), after))
  process_command-put-get healthy =
      let (after, stored, sound, read) =
        put_value-get_value db laws crc n (b ∷ key) (c ∷ value) (any-IsKey b key hk) len_key
          len_value s h room healthy in
      (
        after,
        process-put_line _ _ crc worker_id fuel faults stops vlog_files n b key hk c value hv
            ∙ stored,
        sound,
        process-get_line _ _ crc worker_id fuel faults stops vlog_files after b key hk ∙ read,
      )
