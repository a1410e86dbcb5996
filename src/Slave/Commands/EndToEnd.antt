-- ===== src/Slave/Commands/EndToEnd.antt =====
-- The behaviour of a worker and a master together, as a client sees it.
use distributed_system_based.Base.{
  arith, ℕ, ◌+◌, ◌^◌, ◌<◌, ◌≡◌, ◌≢◌, ◌⊎◌, List, ◌++◌, some, Bool, length,
}
use distributed_system_based.Coding.{IsU32}
use distributed_system_based.Crc.{Checksum}
use distributed_system_based.Text.{codes}
use distributed_system_based.Vlog.Entry.{encode_vlog_entry}
use distributed_system_based.Wire.Numbers.{FitsU64}
use distributed_system_based.Wire.Requests.{IsKey}
use distributed_system_based.Master.{Address, encoded, process_worker_command}
use distributed_system_based.Master.Database.{AddressDb, IsAddressDb, hit, miss}
use distributed_system_based.Slave.State.{IsSound, Holds}
use distributed_system_based.Slave.Commands.{Node, put_value, get_value, gc_record}
use distributed_system_based.Slave.Commands.Values.{
  Stores, PutSucceeds, put_value-PutSucceeds, get_value-Stores,
}
use distributed_system_based.Slave.Commands.Collector.{Collected, gc_record-Collected}

-- The response to a GET that finds a value.
abbrev pub value_line : List ℕ → List ℕ
value_line value = codes "VALUE " ++ (value ++ codes "\r\n")

module _ (db : AddressDb) (laws : IsAddressDb db) (crc : Checksum) (n : Node db.State)
    (key value : List ℕ) (hk : IsKey key) (len_key : IsU32 (length key + 8))
    (len_value : IsU32 (length value)) (v : IsSound n.slave) (h : n.slave.vlog_number + 1 < 2 ^ 32)
    (room : laws.Room n.master 1) where
  -- Keys here are not empty and without blanks, and keys and values are below 2^32 bytes, with the
  -- eight bytes of an internal key. No other thread of the worker runs in between. A PUT to a sound
  -- worker whose log numbers stay below 2^32, with a database that has room for a write and no
  -- error, is answered by STORED; the worker is sound then, and a GET of the key returns the value
  -- and changes nothing.
  pub put_value-get_value :
      laws.Healthy n.master
      → (after : Node db.State) × (put_value (process_worker_command db) crc n key value
          ≡ some (codes "STORED\r\n", after))
        × IsSound after.slave
        × (get_value (process_worker_command db) crc after key ≡ some (value_line value, after))
  put_value-get_value healthy =
      let p : PutSucceeds db crc n key value =
        put_value-PutSucceeds db crc n key value hk (omega arith) len_value v h len_key laws 0 room
          healthy in
      (
        p.after,
        p.answered,
        p.sound,
        get_value-Stores db crc p.after key value hk (omega arith) len_value p.stores,
      )

  module _ (other value' : List ℕ) (ho : IsKey other) (len_other : IsU32 (length other))
      (len_value' : IsU32 (length value')) (p : Stores db n other value') where
    -- Keys are not empty and without blanks, and keys and values below 2^32 bytes, with the eight
    -- bytes of an internal key. The worker is sound, its log numbers stay below 2^32, no other thread
    -- of it runs in between, and the database has room for a write and no error. With a pair of
    -- another key stored before, a PUT is answered by STORED, and a GET of the other key returns its
    -- value afterwards.
    pub put_value-other :
        laws.Healthy n.master
        → key ≢ other
        → (after : Node db.State) × (put_value (process_worker_command db) crc n key value
            ≡ some (codes "STORED\r\n", after))
          × (get_value (process_worker_command db) crc after other
              ≡ some (value_line value', after))
    put_value-other healthy ne =
        let q : PutSucceeds db crc n key value =
          put_value-PutSucceeds db crc n key value hk (omega arith) len_value v h len_key laws 0
            room healthy in
        (
          q.after,
          q.answered,
          get_value-Stores db crc q.after other value' ho len_other len_value'
              (q.others other value' ne p),
        )

    -- The collector takes a record of a sound worker whose log numbers stay below 2^32, and no other
    -- thread of it runs in between. The record stands at its address, its key is not empty, without
    -- blanks and below 2^32 bytes with the eight of an internal key, the database has room for a
    -- write, and the address that it has for the key, if there is one, was written by the protocol.
    -- Whether the record is moved or not, and whatever the database answers to the new address, the
    -- worker is sound afterwards, and a GET of a pair that was stored before, of this key or of
    -- another, returns its value.
    pub gc_record-get_value :
        (this : Address)
        → FitsU64 this
        → this.size ≡ length (encode_vlog_entry key value)
        → Holds n.slave this.vlog_numb this.offset (encode_vlog_entry key value)
        → (db.get_address n.master key ≡ miss)
          ⊎ ((cur : Address) × FitsU64 cur × (db.get_address n.master key ≡ hit (encoded cur)))
        → (valid : Bool) × (after : Node db.State) × (gc_record
              (process_worker_command db)
              crc
              n
              this
              (encode_vlog_entry key value)
            ≡ some (valid, after))
          × IsSound after.slave
          × (get_value (process_worker_command db) crc after other
              ≡ some (value_line value', after))
    gc_record-get_value this ht sized held known =
        let c : Collected db laws crc n this key value 0 =
          gc_record-Collected db laws crc n this key value 0 hk len_key len_value v h room ht sized
            held known in
        (
          c.valid,
          c.after,
          c.runs,
          c.sound,
          get_value-Stores db crc c.after other value' ho len_other len_value'
              (c.keeps other value' p).0,
        )
