-- ===== src/Slave/State.antt =====
-- The state of a worker between two requests, and what the rotation of its logs and the writing of
-- one record do to it.
use distributed_system_based.Base.{ℕ, ◌+◌, ◌^◌, ◌<◌, ◌≡◌, refl, arith, List, [], none, some, length}
use distributed_system_based.Base.Assoc.{lookup, insert, lookup-insert, lookup-insert_self}
use native.Mathlib.Decide.{ℕ_discrete}
use distributed_system_based.Crc.{Checksum}
use distributed_system_based.Vlog.{
  VlogInfo, header_size, write_record, flush_buffer, write_pos, synced_append,
}
use distributed_system_based.Vlog.Log.{
  IsAligned, flush_buffer_lem, write_record_succeeds, write_record-Written, Written-IsAligned,
}
use distributed_system_based.Vlog.Fetch.{IsStored, write_record_stores, flush_buffer-IsStored}
use distributed_system_based.Vlog.Manager
use distributed_system_based.Vlog.Manager.{
  VlogManager, opened, add_vlog, add_record, flush_current_buffer, get_write_pos, encode_address,
  fetch_value_from_vlog,
}
use distributed_system_based.Slave.{Slave, rotate, append_entry, written_place, init_new}

-- The state between two requests of a worker whose writes have not failed: each log is aligned with
-- its file, the current log is the last one, and no log or file has a higher number.
pub record IsSound (s : Slave) : Type 0 where
  pub no_fault : s.manager.io ≡ []
  pub aligned : (n : ℕ) (info : VlogInfo) → lookup n s.manager.logs ≡ some info → IsAligned info
  pub current : s.manager.cur_vlog ≡ s.vlog_number
  pub opened : (info : VlogInfo) × (lookup s.vlog_number s.manager.logs ≡ some info)
  pub fresh : (n : ℕ) → s.vlog_number < n → (lookup n s.manager.logs ≡ none) × (s.disk n ≡ [])

-- `entry` is stored in log `n` at `offset`.
pub record Holds (s : Slave) (n offset : ℕ) (entry : List ℕ) : Type 0 where
  pub info : VlogInfo
  pub found : lookup n s.manager.logs ≡ some info
  pub stored : IsStored info offset entry

IsAligned-opened : IsAligned (Manager.opened [])
IsAligned-opened = omega arith

pub init_new-IsSound : IsSound init_new
unfolding init_new add_vlog lookup insert
init_new-IsSound = record {
  no_fault = refl;
  aligned = λ n info e. ground (arith);
  current = refl;
  opened = (Manager.opened [], refl);
  fresh = λ n h. ground arith;
}

flush_buffer-no_fault : (info : VlogInfo) → (flush_buffer [] info).1 ≡ []
unfolding flush_buffer synced_append
flush_buffer-no_fault info = ground arith

module _ (s : Slave) (v : IsSound s) where
  abbrev pub current_log : VlogInfo
  current_log = v.opened.0

  -- The state that `rotate` leaves: the old log is flushed and an empty one is added.
  abbrev pub rotated : Slave
  rotated = record {
    manager = record {
      logs =
          insert (s.vlog_number + 1) (Manager.opened [])
            (insert s.vlog_number (flush_buffer [] current_log).0 s.manager.logs);
      cur_vlog = s.vlog_number + 1;
      io = [];
    };
    vlog_number = s.vlog_number + 1;
    disk = s.disk;
  }

  flush_lem : flush_current_buffer s.manager ≡ record {
    logs = insert s.vlog_number (flush_buffer [] current_log).0 s.manager.logs;
    cur_vlog = s.vlog_number;
    io = [];
  }
  unfolding flush_current_buffer
  flush_lem = ground (arith, v.no_fault, v.current, v.opened.1, flush_buffer-no_fault current_log)

  pub rotate_lem : s.vlog_number + 1 < 2 ^ 32 → rotate s ≡ rotated
  unfolding rotate add_vlog
  rotate_lem h = ground (
    arith,
    flush_lem,
    (v.fresh (s.vlog_number + 1) (omega arith)).0,
    (v.fresh (s.vlog_number + 1) (omega arith)).1,
    lookup-insert s.vlog_number (s.vlog_number + 1) (flush_buffer [] current_log).0 s.manager.logs,
  )

  -- The current log replaced by `info'`.
  abbrev pub replaced : VlogInfo → Slave
  replaced info' = record s {
    manager = record {
      logs = insert s.vlog_number info' s.manager.logs;
      cur_vlog = s.vlog_number;
      io = [];
    };
  }

  pub replaced-IsSound : (info' : VlogInfo) → IsAligned info' → IsSound (replaced info')
  replaced-IsSound info' a = record {
    no_fault = refl;
    aligned = λ n info e.
        ground (arith, lookup-insert s.vlog_number n info' s.manager.logs, v.aligned n info, a);
    current = refl;
    opened = (info', lookup-insert_self s.vlog_number info' s.manager.logs);
    fresh = λ n h. (
      ground (arith, lookup-insert s.vlog_number n info' s.manager.logs, (v.fresh n h).0),
      (v.fresh n h).1,
    );
  }

  pub replaced-Holds :
      (info' : VlogInfo) (n offset : ℕ) (entry : List ℕ)
      → (IsStored current_log offset entry → IsStored info' offset entry)
      → Holds s n offset entry
      → Holds (replaced info') n offset entry
  replaced-Holds info' n offset entry keep h = elim (ℕ_discrete s.vlog_number n) [
    | yes e ↦
        let same : h.info ≡ current_log = ground (arith, h.found, v.opened.1, e) in
        record {
          info = info';
          found = rw (← e) (lookup-insert_self s.vlog_number info' s.manager.logs);
          stored = keep (rw same at h.stored);
        }
    | no ne ↦ record {
      info = h.info;
      found = ground (arith, ne, lookup-insert s.vlog_number n info' s.manager.logs, h.found);
      stored = h.stored;
    }
  ]

  -- Adding a log with a new number leaves the others in place.
  pub rotated-IsSound : s.vlog_number + 1 < 2 ^ 32 → IsSound rotated
  rotated-IsSound h = record {
    no_fault = refl;
    aligned = λ n info e. ground (
      arith,
      lookup-insert (s.vlog_number + 1) n (Manager.opened [])
          (insert s.vlog_number (flush_buffer [] current_log).0 s.manager.logs),
      IsAligned-opened,
      (replaced-IsSound (flush_buffer [] current_log).0
            (flush_buffer_lem current_log (v.aligned _ _ v.opened.1)).2).aligned
          n info,
    );
    current = refl;
    opened = (Manager.opened [], lookup-insert_self (s.vlog_number + 1) (Manager.opened []) _);
    fresh = λ n h. (
      ground (
        arith,
        lookup-insert (s.vlog_number + 1) n (Manager.opened [])
            (insert s.vlog_number (flush_buffer [] current_log).0 s.manager.logs),
        lookup-insert s.vlog_number n (flush_buffer [] current_log).0 s.manager.logs,
        (v.fresh n (omega arith)).0,
      ),
      (v.fresh n (omega arith)).1,
    );
  }

  pub rotated-Holds :
      (n offset : ℕ) (entry : List ℕ) → Holds s n offset entry → Holds rotated n offset entry
  rotated-Holds n offset entry h =
      let kept : Holds (replaced (flush_buffer [] current_log).0) n offset entry =
        replaced-Holds (flush_buffer [] current_log).0 n offset entry
          (flush_buffer-IsStored current_log offset entry (v.aligned _ _ v.opened.1)) h in
      record {
        info = kept.info;
        found = ground (
          arith,
          h.found,
          kept.found,
          (v.fresh (s.vlog_number + 1) (omega arith)).0,
          lookup-insert (s.vlog_number + 1) n (Manager.opened [])
              (insert s.vlog_number (flush_buffer [] current_log).0 s.manager.logs),
        );
        stored = kept.stored;
      }

  pub write_pos-current : get_write_pos s.manager ≡ write_pos current_log
  unfolding get_write_pos
  write_pos-current = ground (arith, v.current, v.opened.1)

  module _ (crc : Checksum) (vlog_data : List ℕ) where
    abbrev pub log_after : VlogInfo
    log_after = (write_record crc [] current_log vlog_data).1

    pub append_entry_lem :
        append_entry crc s vlog_data
        ≡ some (some (write_pos current_log + header_size, length vlog_data), replaced log_after)
    unfolding append_entry add_record written_place
    append_entry_lem = ground (
      arith,
      write_pos-current,
      v.no_fault,
      v.current,
      v.opened.1,
      write_record_succeeds crc current_log vlog_data,
    )

    pub log_after-IsAligned : IsAligned log_after
    log_after-IsAligned =
        Written-IsAligned crc (write_record-Written crc current_log vlog_data).1
          (v.aligned _ _ v.opened.1)

    pub append_entry-new :
        Holds (replaced log_after) s.vlog_number (write_pos current_log + header_size) vlog_data
    append_entry-new = record {
      info = log_after;
      found = lookup-insert_self s.vlog_number log_after s.manager.logs;
      stored = write_record_stores crc current_log vlog_data (v.aligned _ _ v.opened.1);
    }
