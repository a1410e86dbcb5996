-- ===== src/Slave/Overtaken.antt =====
-- `write_value_to_vlog` of distributed/slave.cc makes the address after it has given up its lock.
use distributed_system_based.Base.{
  ℕ, ◌+◌, ◌^◌, ◌<◌, ◌≡◌, refl, arith, List, some, leb, length, if◌then◌else◌,
}
use distributed_system_based.Crc.{Checksum}
use distributed_system_based.Vlog.Entry.{encode_vlog_entry}
use distributed_system_based.Vlog.Manager.{encode_address, get_write_pos}
use distributed_system_based.Slave.{
  Slave, max_vlog_size, address_now, write_value_to_vlog, write_overtaken,
}
use distributed_system_based.Slave.State.{IsSound, Holds}
use distributed_system_based.Slave.Store.{WriteSucceeds, write_value_to_vlog-WriteSucceeds}

-- A pair is written to a sound worker whose log numbers stay below 2^32. Alone, the write comes back
-- with the log and the offset of its record and leaves the state `mid`. Where another thread writes a
-- pair before the address is made, the record is at the same place, but the address has the log
-- number of the end: it is the next one where the log was full at `mid`, and then leads past the
-- record, and otherwise it is the right one.
pub write_overtaken-Holds :
    (crc : Checksum) (s : Slave) (key value other value' : List ℕ)
    → IsSound s
    → s.vlog_number + 2 < 2 ^ 32
    → (offset : ℕ) × (mid : Slave) × (after : Slave) × (write_value_to_vlog crc s key value
        ≡ some (encode_address mid.vlog_number offset (length (encode_vlog_entry key value)), mid))
      × (write_overtaken crc s key value other value'
          ≡ some (
            encode_address after.vlog_number offset (length (encode_vlog_entry key value)),
            after,
          ))
      × (after.vlog_number ≡ (
          if leb max_vlog_size (get_write_pos mid.manager)
          then mid.vlog_number + 1
          else mid.vlog_number))
      × Holds after mid.vlog_number offset (encode_vlog_entry key value)
unfolding write_overtaken address_now
write_overtaken-Holds crc s key value other value' v h =
    let w : WriteSucceeds crc s key value =
      write_value_to_vlog-WriteSucceeds crc s key value v (omega arith) in
    let w' : WriteSucceeds crc w.after other value' =
      write_value_to_vlog-WriteSucceeds crc w.after other value' w.sound
        (omega (arith, w.later.one_more)) in
    (
      w.offset,
      w.after,
      w'.after,
      w.written,
      rw w.locked (rw w'.locked refl),
      w'.numbered,
      w'.later.keeps _ _ _ w.holds,
    )
