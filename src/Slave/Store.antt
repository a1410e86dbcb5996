-- ===== src/Slave/Store.antt =====
-- Values written to the value logs of a worker stay readable at their addresses.
use distributed_system_based.Base.{
  refl, if◌then◌else◌, ℕ, ◌+◌, ◌^◌, ◌≤◌, ◌<◌, ◌≡◌, ◌∙◌, arith, List, [], some, leb, length,
  Bool-cases, inl, inr,
}
use distributed_system_based.Base.Assoc.{insert, lookup-insert_self}
use distributed_system_based.Coding.{IsU32}
use distributed_system_based.Crc.{Checksum}
use distributed_system_based.Vlog.{VlogInfo, header_size, flush_buffer, write_pos, found}
use distributed_system_based.Vlog.Entry.{
  encode_vlog_entry, parse-encode_vlog_entry, length-encode_vlog_entry,
}
use distributed_system_based.Vlog.Fetch.{get-IsStored, write_record-IsStored}
use distributed_system_based.Vlog.Manager
use distributed_system_based.Vlog.Manager.{
  VlogManager, opened, add_vlog, add_record, flush_current_buffer, get_write_pos, encode_address,
  fetch_value_from_vlog,
}
use distributed_system_based.Vlog.Addresses.{fetch-encode_address}
use distributed_system_based.Slave.{
  Slave, max_vlog_size, rotate_if_full, write_value_to_vlog, write_locked, address_now,
}
use distributed_system_based.Slave.State.{
  IsSound, Holds, current_log, rotated, replaced, rotate_lem, rotated-IsSound, rotated-Holds,
  replaced-IsSound, replaced-Holds, write_pos-current, log_after, append_entry_lem,
  log_after-IsAligned, append_entry-new,
}

-- `s'` is a later state than `s`: what was stored is stored, and at most one log was added.
pub record IsLater (s s' : Slave) : Type 0 where
  pub keeps : (n offset : ℕ) (entry : List ℕ) → Holds s n offset entry → Holds s' n offset entry
  pub not_before : s.vlog_number ≤ s'.vlog_number
  pub one_more : s'.vlog_number ≤ s.vlog_number + 1

module _ (s : Slave) (v : IsSound s) (h : s.vlog_number + 1 < 2 ^ 32) where
  write_pos-rotated : get_write_pos (rotated s v).manager < max_vlog_size
  unfolding get_write_pos write_pos
  write_pos-rotated = ground (
    arith,
    lookup-insert_self (s.vlog_number + 1) (Manager.opened [])
        (insert s.vlog_number (flush_buffer [] (current_log s v)).0 s.manager.logs),
  )

  -- After the size check there is room in the current log.
  rotate_if_full_lem :
      IsSound (rotate_if_full s)
      × IsLater s (rotate_if_full s)
      × (get_write_pos (rotate_if_full s).manager < max_vlog_size)
      × ((rotate_if_full s).vlog_number ≡ (
          if leb max_vlog_size (get_write_pos s.manager) then s.vlog_number + 1 else s.vlog_number))
  unfolding rotate_if_full
  rotate_if_full_lem = elim (Bool-cases (leb max_vlog_size (get_write_pos s.manager))) [
    | inl full ↦ rw full (
        rw (rotate_lem s v h) (
          rotated-IsSound s v h,
          record { keeps = rotated-Holds s v; not_before = omega arith; one_more = omega arith },
          write_pos-rotated,
          refl,
        ))
    | inr room ↦ rw room (
      v,
      record { keeps = λ n offset entry p. p; not_before = omega arith; one_more = omega arith },
      ground arith,
      refl,
    )
  ]

-- A write succeeds and keeps the state sound, the value can be fetched at the address that comes
-- back, and what was stored before is still stored.
pub record WriteSucceeds (crc : Checksum) (s : Slave) (key value : List ℕ) : Type 0 where
  pub offset : ℕ
  pub after : Slave
  pub locked :
      write_locked crc s key value
      ≡ some (some (offset, length (encode_vlog_entry key value)), after)
  pub numbered :
      after.vlog_number
      ≡ (if leb max_vlog_size (get_write_pos s.manager) then s.vlog_number + 1 else s.vlog_number)
  pub written :
      write_value_to_vlog crc s key value
      ≡ some (encode_address after.vlog_number offset (length (encode_vlog_entry key value)), after)
  pub in_range : offset < max_vlog_size + header_size
  pub sound : IsSound after
  pub later : IsLater s after
  pub holds : Holds after after.vlog_number offset (encode_vlog_entry key value)

pub write_value_to_vlog-WriteSucceeds :
    (crc : Checksum) (s : Slave) (key value : List ℕ)
    → IsSound s
    → s.vlog_number + 1 < 2 ^ 32
    → WriteSucceeds crc s key value
unfolding write_value_to_vlog write_locked address_now
write_value_to_vlog-WriteSucceeds crc s key value v h =
    let (v1, l1, room, number) = rotate_if_full_lem s v h in
    let s1 : Slave = rotate_if_full s in
    let entry : List ℕ = encode_vlog_entry key value in
    let info' : VlogInfo = log_after s1 v1 crc entry in
    record {
      offset = write_pos (current_log s1 v1) + header_size;
      after = replaced s1 v1 info';
      locked = append_entry_lem s1 v1 crc entry;
      numbered = number;
      written = rw (append_entry_lem s1 v1 crc entry) refl;
      in_range = omega (arith, write_pos-current s1 v1);
      sound = replaced-IsSound s1 v1 info' (log_after-IsAligned s1 v1 crc entry);
      later = record {
        keeps = λ n offset e p.
            replaced-Holds s1 v1 info' n offset e
              (write_record-IsStored crc (current_log s1 v1) (encode_vlog_entry key value) offset e
                (v1.aligned _ _ v1.opened.1))
              (l1.keeps n offset e p);
        not_before = l1.not_before;
        one_more = l1.one_more;
      };
      holds = append_entry-new s1 v1 crc entry;
    }

-- A stored entry is fetched at its address.
pub fetch-Holds :
    (s : Slave) (n offset : ℕ) (key value : List ℕ)
    → n < 2 ^ 32
    → offset < max_vlog_size + header_size
    → IsU32 (length key)
    → IsU32 (length value)
    → Holds s n offset (encode_vlog_entry key value)
    → fetch_value_from_vlog s.manager
        (encode_address n offset (length (encode_vlog_entry key value)))
      ≡ some (found value)
fetch-Holds s n offset key value hn ho hk hv h =
    fetch-encode_address s.manager n offset (length (encode_vlog_entry key value)) h.info hn
      (omega arith) (omega (arith, length-encode_vlog_entry key value)) h.found
    ∙ get-IsStored h.info offset (encode_vlog_entry key value)
        (length-encode_vlog_entry key value).0 h.stored
    ∙ parse-encode_vlog_entry key value hk hv
