-- ===== src/Slave/Dispatch/Runs.antt =====
-- Lines of clients.
use distributed_system_based.Base.{◌≡◌, refl, arith, [], ◌∷◌, ◌++◌, some, replicate}
use distributed_system_based.Base.Assoc.{lookup}
use distributed_system_based.Coding.{
  put_length_prefixed_slice, put_varint32, encode_varint32, encode_varint64, encode_varint64_loop,
  put_varint64, get_varint64, get_varint64_ptr, get_varint_loop, get_length_prefixed_slice,
  get_varint32, get_varint32_ptr,
}
use distributed_system_based.Crc.{Checksum}
use distributed_system_based.Text.{
  codes, trim_start, trim_end, starts_with, contains, to_string, print_digits,
}
use distributed_system_based.Vlog.{get, parse}
use distributed_system_based.Vlog.Entry.{encode_vlog_entry}
use distributed_system_based.Vlog.Manager.{get_from, fetch_value_from_vlog, encode_address}
use distributed_system_based.Master.{
  Address, encoded, process_worker_command, bytes_leb, scan_line, show_address,
}
use distributed_system_based.Status.{ok}
use distributed_system_based.Master.Database.{AddressDb}
use distributed_system_based.Lsm.AddressStore.Database.{store_db}
use distributed_system_based.Lsm.AddressStore.Fresh.{
  fresh_db, fresh_laws, fresh, fresh-Room_one, fresh-Healthy, filled,
}
use distributed_system_based.Routing.{scan_admits, get_worker_range}
use distributed_system_based.Slave.{init_new}
use distributed_system_based.Slave.State.{IsSound, init_new-IsSound}
use distributed_system_based.Slave.Commands.{Node}
use distributed_system_based.Slave.Dispatch.{process_command, answer_scan}
use distributed_system_based.Slave.Dispatch.Lines.{IsText}
use distributed_system_based.Slave.Dispatch.Scan.{Row, IsRow, address_lines, process_command-scan}
use distributed_system_based.Slave.Dispatch.ErrorKeys.{answer_scan-error_key}
use distributed_system_based.Slave.Dispatch.Session.{process_command-put-get}

abbrev zero_checksum : Checksum
zero_checksum = record { value = λ bytes. 0; value-lt = λ bytes. omega arith }

abbrev new_node : Node fresh_db.State
new_node = record { slave = init_new; master = fresh }

some_value-IsText : IsText b's' (codes "ome value")
unfolding trim_start trim_end
some_value-IsText = record { starts = (refl, refl); ends = refl; one_line = ground arith }

process_command-put-get_example :
    (after : Node fresh_db.State) × (process_command
        (process_worker_command fresh_db)
        (process_worker_command fresh_db)
        zero_checksum
        2
        0
        []
        []
        []
        new_node
        (codes "PUT key some value")
      ≡ some (codes "STORED\r\n", after))
    × IsSound after.slave
    × (process_command
          (process_worker_command fresh_db)
          (process_worker_command fresh_db)
          zero_checksum
          2
          0
          []
          []
          []
          after
          (codes "GET key")
        ≡ some (codes "VALUE some value\r\n", after))
unfolding init_new
process_command-put-get_example =
    process_command-put-get fresh_db fresh_laws zero_checksum 2 0 [] [] [] new_node b'k'
      (codes "ey") b's' (codes "ome value") (ground arith) some_value-IsText (omega arith)
      (omega arith) init_new-IsSound (omega arith) fresh-Room_one fresh-Healthy

abbrev place : Address
place = record { vlog_numb = 1; offset = 12; size = 16 }

-- The iterator gives a key of another worker, and one of this worker.
abbrev listed_db : AddressDb
listed_db = store_db (λ d start.
    ((codes "0bar", encoded place) ∷ (codes "key", encoded place) ∷ (codes "zz", []) ∷ [], ok))

abbrev one_pair : Node listed_db.State
one_pair = record {
  slave = record {
    manager = record {
      logs =
          (
            1,
            record {
              buffer = replicate 12 0 ++ encode_vlog_entry (codes "key") (codes "some value");
              head = 0;
              file = [];
            },
          )
          ∷ [];
      cur_vlog = 1;
      io = [];
    };
    vlog_number = 1;
    disk = λ n. [];
  };
  master = filled (codes "key") (encoded place);
}

abbrev key_row : Row
key_row = record { key = codes "key"; value = codes "some value"; address = place }

abbrev bar_row : Row
bar_row = record { key = codes "0bar"; value = []; address = place }

key_row-IsRow : IsRow one_pair.slave key_row
unfolding lookup fetch_value_from_vlog encode_vlog_entry put_length_prefixed_slice put_varint32
    encode_varint32 encode_address put_varint64 encode_varint64 encode_varint64_loop get_varint64
    get_varint64_ptr get_varint_loop get parse get_length_prefixed_slice get_varint32
    get_varint32_ptr get_from
key_row-IsRow = record {
  key = record { nonempty = ground arith; no_space = ground arith };
  fits = omega arith;
  fetched = refl;
}

process_command-scan_example :
    process_command
      (process_worker_command listed_db)
      (process_worker_command listed_db)
      zero_checksum
      2
      0
      []
      []
      []
      one_pair
      (codes "SCAN 0 z")
    ≡ some (codes "KVPAIR key some value\r\nEND\r\n", one_pair)
unfolding bytes_leb scan_admits get_worker_range contains starts_with scan_line show_address
    to_string print_digits
process_command-scan_example =
    process_command-scan listed_db zero_checksum 2 0 [] [] [] one_pair (omega arith) b'0' b'z' [] []
      (ground arith) (ground arith) refl (bar_row ∷ key_row ∷ []) ((codes "zz", []) ∷ []) refl
      ((refl, omega arith), ((refl, omega arith), tt)) (key_row-IsRow, tt) refl refl (ground arith)

answer_scan-error_key_example :
    answer_scan one_pair.slave (
      address_lines
        (key_row ∷ record { key = codes "ERRORS"; value = codes "v"; address = place } ∷ []))
    ≡ some (
        address_lines
          (key_row ∷ record { key = codes "ERRORS"; value = codes "v"; address = place } ∷ []))
unfolding contains starts_with
answer_scan-error_key_example =
    answer_scan-error_key one_pair.slave (key_row ∷ [])
      (record { key = codes "ERRORS"; value = codes "v"; address = place }) [] refl
