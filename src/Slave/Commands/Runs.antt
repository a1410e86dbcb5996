-- ===== src/Slave/Commands/Runs.antt =====
-- Runs of a worker and a master whose database is a list.
use distributed_system_based.Base.{
  ◌≡◌, ◌≢◌, Bool, refl, arith, [], ◌∷◌, ◌++◌, some, replicate, bytes_eq, inl, inr,
}
use distributed_system_based.Base.Assoc.{lookup}
use distributed_system_based.Coding.{put_length_prefixed_slice, put_varint32, encode_varint32}
use distributed_system_based.Text.{codes}
use distributed_system_based.Crc.{Checksum}
use distributed_system_based.Wire.Requests.{IsKey}
use distributed_system_based.Wire.Numbers.{FitsU64}
use distributed_system_based.Vlog.Entry.{encode_vlog_entry}
use distributed_system_based.Master.{Address, encoded, process_worker_command}
use distributed_system_based.Master.Database.{hit}
use distributed_system_based.Lsm.AddressStore.Fresh.{
  fresh_db, fresh_laws, fresh, filled, filled-Room_one, filled-Healthy, filled-hit,
}
use distributed_system_based.Master.Commands.{length-encoded}
use distributed_system_based.Slave.{init_new}
use distributed_system_based.Slave.State.{IsSound, Holds}
use distributed_system_based.Slave.Commands.{Node, put_value, get_value, gc_record}
use distributed_system_based.Slave.Commands.EndToEnd.{put_value-other, gc_record-get_value}
use distributed_system_based.Slave.Commands.Values.{Stores}

abbrev zero_checksum : Checksum
zero_checksum = record { value = λ bytes. 0; value-lt = λ bytes. omega arith }

abbrev empty_node : Node fresh_db.State
empty_node = record { slave = init_new; master = fresh }

first_name-IsKey : IsKey (codes "key")
first_name-IsKey = record { nonempty = ground arith; no_space = ground arith }

-- The place of the value in the only log.
abbrev place : Address
place = record { vlog_numb = 1; offset = 12; size = 16 }

-- A worker with one record, whose header is blank, and the master with its address.
abbrev one_pair : Node fresh_db.State
one_pair = record {
  slave = record {
    manager = record {
      logs =
          (
            1,
            record {
              buffer = replicate 12 0 ++ encode_vlog_entry (codes "key") (codes "some value");
              head = 0;
              file = [];
            },
          )
          ∷ [];
      cur_vlog = 1;
      io = [];
    };
    vlog_number = 1;
    disk = λ n. [];
  };
  master = filled (codes "key") (encoded place);
}

one_pair-Holds : Holds one_pair.slave 1 12 (encode_vlog_entry (codes "key") (codes "some value"))
unfolding lookup encode_vlog_entry put_length_prefixed_slice put_varint32 encode_varint32
one_pair-Holds = record { info = _; found = refl; stored = inl (omega arith, omega arith, refl) }

one_pair-IsSound : IsSound one_pair.slave
unfolding lookup encode_vlog_entry put_length_prefixed_slice put_varint32 encode_varint32
one_pair-IsSound = record {
  no_fault = refl;
  aligned = λ n info e. ground arith;
  current = refl;
  opened = (_, refl);
  fresh = λ n h. ground arith;
}

place-FitsU64 : FitsU64 place
place-FitsU64 = omega arith

place_known : fresh_db.get_address one_pair.master (codes "key") ≡ hit (encoded place)
place_known = filled-hit (codes "key") (encoded place) (omega arith) (length-encoded place)

place_room : fresh_laws.Room one_pair.master 1
place_room = filled-Room_one (codes "key") (encoded place) (omega arith) (length-encoded place)

place_healthy : fresh_laws.Healthy one_pair.master
place_healthy = filled-Healthy (codes "key") (encoded place) (omega arith) (length-encoded place)

one_pair-Stores : Stores fresh_db one_pair (codes "key") (codes "some value")
unfolding bytes_eq encode_vlog_entry put_length_prefixed_slice put_varint32 encode_varint32
one_pair-Stores = record {
  address = place;
  known = place_known;
  fits = place-FitsU64;
  short = omega arith;
  numbered = omega arith;
  sized = refl;
  holds = one_pair-Holds;
}

two-IsKey : IsKey (codes "two")
two-IsKey = record { nonempty = ground arith; no_space = ground arith }

two-key : codes "two" ≢ codes "key"
two-key = ground arith

put_value-other_example :
    (after : Node fresh_db.State) × (put_value
        (process_worker_command fresh_db)
        zero_checksum
        one_pair
        (codes "two")
        (codes "x y")
      ≡ some (codes "STORED\r\n", after))
    × (get_value (process_worker_command fresh_db) zero_checksum after (codes "key")
        ≡ some (codes "VALUE some value\r\n", after))
put_value-other_example =
    put_value-other fresh_db fresh_laws zero_checksum one_pair (codes "two") (codes "x y") two-IsKey
      (omega arith) (omega arith) one_pair-IsSound (omega arith) place_room (codes "key")
      (codes "some value") first_name-IsKey (omega arith) (omega arith) one_pair-Stores
      place_healthy two-key

gc_record-get_value_example :
    (valid : Bool) × (after : Node fresh_db.State) × (gc_record
        (process_worker_command fresh_db)
        zero_checksum
        one_pair
        place
        (encode_vlog_entry (codes "key") (codes "some value"))
      ≡ some (valid, after))
    × IsSound after.slave
    × (get_value (process_worker_command fresh_db) zero_checksum after (codes "key")
        ≡ some (codes "VALUE some value\r\n", after))
unfolding bytes_eq encode_vlog_entry put_length_prefixed_slice put_varint32 encode_varint32
gc_record-get_value_example =
    gc_record-get_value fresh_db fresh_laws zero_checksum one_pair (codes "key")
      (codes "some value") first_name-IsKey (omega arith) (omega arith) one_pair-IsSound
      (omega arith) place_room (codes "key") (codes "some value") first_name-IsKey (omega arith)
      (omega arith) one_pair-Stores place place-FitsU64 refl one_pair-Holds
      (inr (place, place-FitsU64, place_known))
