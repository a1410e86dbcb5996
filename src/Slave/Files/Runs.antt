-- ===== src/Slave/Files/Runs.antt =====
-- A worker with a log that was written to in full and a new one, its collection, and a restart.
use distributed_system_based.Base.{
  ap, sym, ◌∙◌, bytes_eq_sound, bytes_eq_refl, ℕ, ◌^◌, ◌<◌, ◌≡◌, refl, arith, List, [], ◌∷◌, none,
  some, true, false, length, replicate, bytes_eq, Bool-cases, inl, inr,
}
use distributed_system_based.Base.Assoc.{lookup}
use distributed_system_based.Coding.{
  put_length_prefixed_slice, put_varint32, encode_varint32, encode_fixed32, encode_fixed64,
}
use distributed_system_based.Crc.{Checksum}
use distributed_system_based.Text.{codes}
use distributed_system_based.Vlog.{VlogInfo, record_header, parse}
use distributed_system_based.Vlog.Entry.{encode_vlog_entry, parse_vlog_key_value}
use distributed_system_based.Vlog.Fetch.{slice_at}
use distributed_system_based.Vlog.Manager.{
  opened, get_write_pos, fetch_value_from_vlog, encode_address,
}
use distributed_system_based.Vlog.Reader.RoundTrip.{log_of}
use distributed_system_based.Wire.Requests.{IsKey}
use distributed_system_based.Wire.Numbers.{FitsU64}
use distributed_system_based.Master.{Address, encoded, process_worker_command}
use distributed_system_based.Lsm.AddressStore.Fresh.{
  fresh_db, fresh_laws, fresh, filled, filled-Room_one, filled-Healthy, filled-hit, filled-miss,
}
use distributed_system_based.Master.Commands.{length-encoded}
use distributed_system_based.Master.Database.{hit}
use distributed_system_based.Slave.State.{IsSound}
use distributed_system_based.Slave.Threshold.{gc_target, collect_gc_targets}
use distributed_system_based.Slave.Commands.{Node, get_value, gc_record}
use distributed_system_based.Slave.Commands.Values.{Stores}
use distributed_system_based.Slave.Commands.Places.{IsCoherent}
use distributed_system_based.Slave.{Slave}
use distributed_system_based.Slave.Files.{
  Collection, execute_gc_on_file, record_address, file_of, recover,
}
use distributed_system_based.Slave.Files.Loop.{Pair, entries_of, At, IsPair}
use distributed_system_based.Slave.Files.NoLoss.{
  execute_gc_on_file-get_value, execute_gc_on_file-At, execute_gc_on_file-stopped,
}
use distributed_system_based.Slave.Files.Recovery.{recover-current, recover-older}
use distributed_system_based.Slave.Rounds.{gc_round, gc_round-get_value}

abbrev zero_checksum : Checksum
zero_checksum = record { value = λ bytes. 0; value-lt = λ bytes. omega arith }

abbrev old_pairs : List Pair
old_pairs = (codes "key", codes "some value") ∷ []

abbrev old_log : VlogInfo
old_log = record { buffer = []; head = 28; file = log_of zero_checksum (entries_of old_pairs) }

abbrev old_place : Address
old_place = record { vlog_numb = 1; offset = 12; size = 16 }

abbrev two_logs : Node fresh_db.State
two_logs = record {
  slave = record {
    manager = record { logs = (1, old_log) ∷ (2, opened []) ∷ []; cur_vlog = 2; io = [] };
    vlog_number = 2;
    disk = λ n. [];
  };
  master = filled (codes "key") (encoded old_place);
}

codes-IsKey : IsKey (codes "key")
codes-IsKey = record { nonempty = ground arith; no_space = ground arith }

old_place-FitsU64 : FitsU64 old_place
old_place-FitsU64 = omega arith

two_logs-IsSound : IsSound two_logs.slave
unfolding lookup record_header encode_fixed32 encode_fixed64 encode_vlog_entry
    put_length_prefixed_slice put_varint32 encode_varint32
two_logs-IsSound = record {
  no_fault = refl;
  aligned = λ n info e. ground arith;
  current = refl;
  opened = (_, refl);
  fresh = λ n h. ground arith;
}

old_known : fresh_db.get_address two_logs.master (codes "key") ≡ hit (encoded old_place)
old_known = filled-hit (codes "key") (encoded old_place) (omega arith) (length-encoded old_place)

old_room : fresh_laws.Room two_logs.master 1
old_room =
    filled-Room_one (codes "key") (encoded old_place) (omega arith) (length-encoded old_place)

old_healthy : fresh_laws.Healthy two_logs.master
old_healthy =
    filled-Healthy (codes "key") (encoded old_place) (omega arith) (length-encoded old_place)

two_logs-Stores : Stores fresh_db two_logs (codes "key") (codes "some value")
unfolding lookup bytes_eq record_header encode_fixed32 encode_fixed64 encode_vlog_entry
    put_length_prefixed_slice put_varint32 encode_varint32
two_logs-Stores = record {
  address = old_place;
  known = old_known;
  fits = old_place-FitsU64;
  short = omega arith;
  numbered = omega arith;
  sized = refl;
  holds = record { info = _; found = refl; stored = inr (omega arith, refl) };
}

two_logs-IsCoherent : IsCoherent fresh_db two_logs.master
two_logs-IsCoherent key short = elim (Bool-cases (bytes_eq (codes "key") key)) [
  | inl same ↦ inr (
    old_place,
    old_place-FitsU64,
    ap (fresh_db.get_address two_logs.master) (sym (bytes_eq_sound (codes "key") key same))
        ∙ old_known,
  )
  | inr other ↦ inl (
      filled-miss (codes "key") (encoded old_place) (omega arith) (length-encoded old_place) key
        short
        (λ e.
          absurd (cc (ap (bytes_eq (codes "key")) (sym e), other, bytes_eq_refl (codes "key")))))
]

old_pairs_lem : IsPair (codes "key", codes "some value")
old_pairs_lem = record { key = codes-IsKey; len_key = omega arith; len_value = omega arith }

old_short : length old_log.file < 2 ^ 64
unfolding record_header encode_fixed32 encode_fixed64 encode_vlog_entry put_length_prefixed_slice
    put_varint32 encode_varint32
old_short = omega arith

old_pair_place : At 1 (codes "key", codes "some value") two_logs-Stores.address 0 old_pairs
unfolding two_logs-Stores encode_vlog_entry put_length_prefixed_slice put_varint32 encode_varint32
old_pair_place = inl (refl, refl)

first_taken : gc_target 1 2 (1 ∷ 2 ∷ []) ≡ some 1
unfolding gc_target collect_gc_targets
first_taken = refl

execute_gc_on_file-get_value_example :
    (after : Collection fresh_db.State) × (execute_gc_on_file
        (process_worker_command fresh_db)
        zero_checksum
        1
        2
        []
        []
        two_logs
      ≡ some after)
    × (after.total ≡ 1)
    × (after.removed ≡ true)
    × IsSound after.node.slave
    × (get_value (process_worker_command fresh_db) zero_checksum after.node (codes "key")
        ≡ some (codes "VALUE some value\r\n", after.node))
unfolding lookup
execute_gc_on_file-get_value_example =
    execute_gc_on_file-get_value fresh_db fresh_laws zero_checksum two_logs 1 old_log old_pairs 2
      refl refl (old_pairs_lem, tt) old_short two_logs-IsSound two_logs-IsCoherent (omega arith)
      (omega arith) (omega arith) old_room old_healthy (codes "key") (codes "some value")
      codes-IsKey (omega arith) (omega arith) two_logs-Stores

execute_gc_on_file-At_example :
    (after : Collection fresh_db.State) × (execute_gc_on_file
        (process_worker_command fresh_db)
        zero_checksum
        1
        2
        []
        []
        two_logs
      ≡ some after)
    × (q : Stores fresh_db after.node (codes "key") (codes "some value")) × (1
        < q.address.vlog_numb)
unfolding lookup
execute_gc_on_file-At_example =
    execute_gc_on_file-At fresh_db fresh_laws zero_checksum two_logs 1 old_log old_pairs 2 refl refl
      (old_pairs_lem, tt) old_short two_logs-IsSound two_logs-IsCoherent (omega arith) (omega arith)
      (omega arith) old_room old_healthy (codes "key") (codes "some value") codes-IsKey
      (omega arith) (omega arith) two_logs-Stores old_pair_place

gc_round-get_value_example :
    (threshold' : ℕ) × (after : Node fresh_db.State) × (gc_round
        (process_worker_command fresh_db)
        zero_checksum
        2
        []
        []
        1
        (1 ∷ 2 ∷ [])
        two_logs
      ≡ some (threshold', after))
    × IsSound after.slave
    × (get_value (process_worker_command fresh_db) zero_checksum after (codes "key")
        ≡ some (codes "VALUE some value\r\n", after))
unfolding lookup
gc_round-get_value_example =
    gc_round-get_value fresh_db fresh_laws zero_checksum two_logs 1 1 (1 ∷ 2 ∷ []) old_log old_pairs
      2 (omega arith) first_taken refl refl (old_pairs_lem, tt) old_short two_logs-IsSound
      two_logs-IsCoherent (omega arith) (omega arith) old_room old_healthy (codes "key")
      (codes "some value") codes-IsKey (omega arith) (omega arith) two_logs-Stores

-- Two records, the first of which no key of the master refers to.
abbrev dirty_log : VlogInfo
dirty_log = record {
  buffer = [];
  head = 26;
  file = log_of zero_checksum ((7 ∷ []) ∷ (8 ∷ []) ∷ []);
}

abbrev dirty_node : Node fresh_db.State
dirty_node = record {
  slave = record {
    manager = record { logs = (1, dirty_log) ∷ (2, opened []) ∷ []; cur_vlog = 2; io = [] };
    vlog_number = 2;
    disk = λ n. [];
  };
  master = fresh;
}

dirty_file : file_of dirty_node.slave 1 ≡ log_of zero_checksum ((7 ∷ []) ∷ (8 ∷ []) ∷ [])
unfolding file_of lookup
dirty_file = refl

skipped :
    gc_record
      (process_worker_command fresh_db)
      zero_checksum
      dirty_node
      (record_address 1 0 (7 ∷ []))
      (7 ∷ [])
    ≡ some (false, dirty_node)
unfolding gc_record parse_vlog_key_value
skipped = refl

execute_gc_on_file-stopped_example :
    (c : Collection fresh_db.State) × (execute_gc_on_file
        (process_worker_command fresh_db)
        zero_checksum
        1
        2
        []
        (false ∷ false ∷ true ∷ [])
        dirty_node
      ≡ some c)
    × (c.total ≡ 1)
    × (c.node ≡ dirty_node)
    × (c.removed ≡ true)
execute_gc_on_file-stopped_example =
    execute_gc_on_file-stopped (process_worker_command fresh_db) zero_checksum 1 0 (7 ∷ [])
      ((8 ∷ []) ∷ []) dirty_node dirty_node false dirty_file (omega arith) skipped

-- A worker whose second log holds five bytes and has three more in its buffer.
abbrev half_way : Slave
half_way = record {
  manager = record {
    logs =
        (1, old_log) ∷ (2, record { buffer = 7 ∷ 8 ∷ 9 ∷ []; head = 5; file = replicate 5 0 }) ∷ [];
    cur_vlog = 2;
    io = [];
  };
  vlog_number = 2;
  disk = λ n. [];
}

-- What two logs hold after a run.
abbrev both_files : ℕ → List ℕ
both_files n = replicate 40 n

recover-current_example :
    ((recover both_files (1 ∷ 2 ∷ []) 2 30).vlog_number ≡ 2)
    × ((recover both_files (1 ∷ 2 ∷ []) 2 30).manager.cur_vlog ≡ 2)
    × (get_write_pos (recover both_files (1 ∷ 2 ∷ []) 2 30).manager ≡ 30)
    × (fetch_value_from_vlog (recover both_files (1 ∷ 2 ∷ []) 2 30).manager (encode_address 2 12 16)
        ≡ parse (slice_at 12 16 (both_files 2)))
recover-current_example =
    recover-current both_files (1 ∷ 2 ∷ []) (omega arith) 2 30 (inr (inl refl)) (omega arith)
      (omega arith) 12 16 (omega arith) (omega arith) (omega arith) (omega arith)

recover-older_example :
    fetch_value_from_vlog (recover both_files (1 ∷ 2 ∷ []) 2 30).manager (encode_address 1 12 16)
    ≡ none
recover-older_example =
    recover-older both_files (1 ∷ 2 ∷ []) (omega arith) 2 30 (inr (inl refl)) (omega arith)
      (omega arith) 1 12 16 (inl refl) (ground arith) (omega arith) (omega arith) (omega arith)
