-- ===== src/Slave/Commands/Collector.antt =====
-- The collector of garbage moves a record without losing a value of any key.
use distributed_system_based.Base.{
  ℕ, suc, ◌+◌, ◌^◌, ◌<◌, ◌≤◌, ◌≡◌, ◌≢◌, ◌⊎◌, ◌∙◌, ap, sym, subst, refl, arith, List, [], ◌∷◌, some,
  Bool, true, false, length, bytes_eq, bytes_eq_sound, bytes_eq_refl, Bool-cases, inl, inr,
}
use distributed_system_based.Coding.{IsU32}
use distributed_system_based.Status.{ok}
use distributed_system_based.Crc.{Checksum}
use distributed_system_based.Text.{codes, contains, starts_with}
use distributed_system_based.Vlog.Entry.{
  encode_vlog_entry, length-encode_vlog_entry, parse_vlog_key_value-encode_vlog_entry,
}
use distributed_system_based.Wire.{gc_get_request}
use distributed_system_based.Wire.Numbers.{FitsU64, decode_address-encoded}
use distributed_system_based.Wire.Requests.{IsKey, process-update_request, process-key_requests}
use distributed_system_based.Master.{
  Address, encoded, decode_address, get_addr, update_addr, same_address, process_worker_command,
  outcome,
}
use distributed_system_based.Master.Database.{AddressDb, IsAddressDb, hit, miss}
use distributed_system_based.Master.Commands.{
  get-hit, length-encoded, same_address_refl, same_address_sound, changed-same,
}
use distributed_system_based.Slave.State.{IsSound, Holds}
use distributed_system_based.Slave.Store.{IsLater, WriteSucceeds, write_value_to_vlog-WriteSucceeds}
use distributed_system_based.Slave.Commands.{
  Node, gc_record, gc_entry, move_entry, replace_address, is_valid,
}
use distributed_system_based.Slave.Commands.Replies.{
  address_reply-clean, reply_address-address_reply,
}
use distributed_system_based.Slave.Commands.Values.{
  Stores, new_address, new_address-FitsU64, empty_address,
}
use distributed_system_based.Slave.Commands.Places.{
  Holds-unique, hit-injective, accepted_lem, Kept, Stores-Kept, IsCoherent, IsCoherentAt,
  IsCoherentAt-same,
}

module _ (db : AddressDb) (laws : IsAddressDb db) (crc : Checksum) (n : Node db.State)
    (this : Address) (key value : List ℕ) (m : ℕ) where
  -- The database refuses an address for the key.
  abbrev pub IsRefused : Type 0
  IsRefused = (addr : List ℕ) × ((db.put_address n.master key addr).0 ≢ ok)

  -- What the collector leaves after a record: the worker is sound, each pair that was stored still
  -- is, there or in a newer log, a record that counts as moved has its pair in the newest log, and
  -- the pair whose place the record is has left it, unless the database refused.
  pub record Collected : Type 0 where
    pub valid : Bool
    pub after : Node db.State
    pub runs :
        gc_record (process_worker_command db) crc n this (encode_vlog_entry key value)
        ≡ some (valid, after)
    pub sound : IsSound after.slave
    pub later : IsLater n.slave after.slave
    pub keeps :
        (other value' : List ℕ) (p : Stores db n other value') → Kept db n after other value' p
    pub leaves :
        (p : Stores db n key value)
        → p.address ≡ this
        → ((q : Stores db after key value) × (n.slave.vlog_number ≤ q.address.vlog_numb))
          ⊎ IsRefused
    pub coherent : IsCoherent db n.master → IsCoherent db after.master
    pub room : laws.Room after.master m
    pub healthy : laws.Healthy n.master → laws.Healthy after.master
    pub moved :
        valid ≡ true
        → (p : Stores db after key value) × (p.address.vlog_numb ≡ after.slave.vlog_number)

  module _ (hk : IsKey key) (short : IsU32 (length key + 8)) (len_value : IsU32 (length value))
      (v : IsSound n.slave) (h : n.slave.vlog_number + 1 < 2 ^ 32)
      (room : laws.Room n.master (suc m)) where
    -- Nothing happens to a record that is not valid.
    not_moved :
        gc_record (process_worker_command db) crc n this (encode_vlog_entry key value)
          ≡ some (false, n)
        → ((p : Stores db n key value) → p.address ≡ this → ⊥)
        → Collected
    not_moved e elsewhere = record {
      valid = false;
      after = n;
      runs = e;
      sound = v;
      later = record {
        keeps = λ m offset entry p. p;
        not_before = omega arith;
        one_more = omega arith;
      };
      keeps = λ other value' p. (p, inl refl);
      leaves = λ p same. absurd (elsewhere p same);
      coherent = λ c. c;
      room = laws.room-fewer n.master m room;
      healthy = λ x. x;
      moved = λ t. absurd (ground arith);
    }

    asked :
        process_worker_command db n.master (gc_get_request key)
        ≡ get_addr db n.master (some (key, []))
    asked = (process-key_requests db n.master key hk).1

    gc_miss : db.get_address n.master key ≡ miss → Collected
    unfolding gc_record gc_entry get_addr starts_with
    gc_miss e =
        not_moved
          (rw (parse_vlog_key_value-encode_vlog_entry key value (omega (arith, short)) len_value)
            (rw asked (rw e refl)))
          (λ p same. absurd (cc (p.known, e)))

    gc_other :
        (cur : Address)
        → FitsU64 cur
        → db.get_address n.master key ≡ hit (encoded cur)
        → same_address cur this ≡ false
        → Collected
    unfolding gc_record gc_entry is_valid
    gc_other cur hc e ne =
        not_moved
          (rw (parse_vlog_key_value-encode_vlog_entry key value (omega (arith, short)) len_value) (
            rw (asked ∙ get-hit db n.master n.master key cur hc e) (
              rw ((address_reply-clean cur).2)
                (rw ((reply_address-address_reply cur hc).1) (rw ne refl)))))
          (λ p same.
            let here : cur ≡ this =
              hit-injective cur p.address hc p.fits (sym e ∙ p.known) ∙ same in
            absurd (
              ground
                (arith, same_address_refl this, ap (λ (a : Address). same_address a this) here)))

    -- The request that replaces the address of a valid record.
    replaced :
        (t : Node db.State) (new : Address) (addr : List ℕ)
        → addr ≡ encoded new
        → FitsU64 this
        → FitsU64 new
        → db.get_address t.master key ≡ hit (encoded this)
        → replace_address (process_worker_command db) crc t key this addr
          ≡ some (
            contains (codes "UPDATED") (
                outcome db
                  (db.put_address t.master key (encoded new)).0
                  (codes "UPDATED\r\n")
                  (codes "ERROR: UpdateAddress failed\r\n")),
            record { slave = t.slave; master = (db.put_address t.master key (encoded new)).1 },
          )
    unfolding replace_address update_addr
    replaced t new [] e ht hn known = absurd (empty_address new hn e)
    replaced t new (b ∷ addr) e ht hn known =
        rw (ap decode_address e ∙ decode_address-encoded new hn) (
          rw (process-update_request db t.master key this new hk ht hn)
            (rw known (rw (changed-same db t.master this ht) refl)))

    valid_entry :
        FitsU64 this
        → db.get_address n.master key ≡ hit (encoded this)
        → gc_record (process_worker_command db) crc n this (encode_vlog_entry key value)
          ≡ move_entry (process_worker_command db) crc n this key value
    unfolding gc_record gc_entry is_valid
    valid_entry ht e =
        rw (parse_vlog_key_value-encode_vlog_entry key value (omega (arith, short)) len_value) (
          rw (asked ∙ get-hit db n.master n.master key this ht e) (
            rw ((address_reply-clean this).2)
              (rw ((reply_address-address_reply this ht).1) (rw (same_address_refl this) refl))))

    module _ (ht : FitsU64 this) (sized : this.size ≡ length (encode_vlog_entry key value))
        (held : Holds n.slave this.vlog_numb this.offset (encode_vlog_entry key value))
        (e : db.get_address n.master key ≡ hit (encoded this)) where
      w : WriteSucceeds crc n.slave key value
      w = write_value_to_vlog-WriteSucceeds crc n.slave key value v h

      new : Address
      new = new_address crc n.slave key value w

      new-FitsU64 : FitsU64 new
      unfolding new
      new-FitsU64 = new_address-FitsU64 crc n.slave key value w h (omega (arith, short)) len_value

      moved_to : Node db.State
      moved_to = record { slave = w.after; master = (db.put_address n.master key (encoded new)).1 }

      counts : Bool
      counts = contains (codes "UPDATED") (
          outcome db (db.put_address n.master key (encoded new)).0 (codes "UPDATED\r\n")
            (codes "ERROR: UpdateAddress failed\r\n"))

      new_numbered : new.vlog_numb < 2 ^ 32
      unfolding new
      new_numbered = omega (arith, w.later.one_more)

      runs_lem :
          gc_record (process_worker_command db) crc n this (encode_vlog_entry key value)
          ≡ some (counts, moved_to)
      unfolding move_entry new counts moved_to
      runs_lem =
          valid_entry ht e
          ∙ rw w.written
              (replaced (record { slave = w.after; master = n.master }) new _ refl ht new-FitsU64 e)

      -- The pair of the key itself, at its new place.
      own_pair :
          (db.put_address n.master key (encoded new)).0 ≡ ok
          → (value' : List ℕ) → Stores db n key value'
          → (q : Stores db moved_to key value') × (n.slave.vlog_number ≤ q.address.vlog_numb)
      unfolding new moved_to
      own_pair yes_ok value' p =
          let place : p.address ≡ this = hit-injective p.address this p.fits ht (sym p.known ∙ e) in
          let there : Holds n.slave this.vlog_numb this.offset (encode_vlog_entry key value') =
            subst
              (λ (a : Address). Holds n.slave a.vlog_numb a.offset (encode_vlog_entry key value'))
              place p.holds in
          let same : encode_vlog_entry key value ≡ encode_vlog_entry key value' =
            Holds-unique n.slave this.vlog_numb this.offset _ _ held there
              (sym sized ∙ ap (λ (a : Address). a.size) (sym place) ∙ p.sized)
              (length-encode_vlog_entry key value).0 in
          (
            record {
              address = new;
              known =
                  laws.get-put_self n.master m key (encoded new) room short (length-encoded new)
                    yes_ok;
              fits = new-FitsU64;
              short = short;
              numbered = new_numbered;
              sized = ap length same;
              holds = subst (λ l. Holds w.after w.after.vlog_number w.offset l) same w.holds;
            },
            w.later.not_before,
          )

      new_pair :
          (db.put_address n.master key (encoded new)).0 ≡ ok
          → (p : Stores db moved_to key value) × (p.address.vlog_numb ≡ moved_to.slave.vlog_number)
      unfolding new moved_to
      new_pair yes_ok = (
        record {
          address = new;
          known =
              laws.get-put_self n.master m key (encoded new) room short (length-encoded new) yes_ok;
          fits = new-FitsU64;
          short = short;
          numbered = new_numbered;
          sized = refl;
          holds = w.holds;
        },
        refl,
      )

      accepted_pairs :
          (db.put_address n.master key (encoded new)).0 ≡ ok
          → (other value' : List ℕ) (p : Stores db n other value')
          → Kept db n moved_to other value' p
      unfolding moved_to
      accepted_pairs yes_ok other value' p = elim (Bool-cases (bytes_eq key other)) [
        | inl same ↦
            let eq : key ≡ other = bytes_eq_sound key other same in
            let (q, newer) =
              own_pair yes_ok value' (subst (λ k. Stores db n k value') (sym eq) p) in
            (subst (λ k. Stores db moved_to k value') eq q, inr (subst-newer eq q newer))
        | inr ne ↦
            Stores-Kept db n moved_to other value'
              (laws.get-put_ne n.master m key (encoded new) other room short (length-encoded new)
                p.short (λ q. absurd (ground (arith, bytes_eq_refl key, ap (bytes_eq key) q))))
              w.later p
      ]
        where
          subst-newer :
              (eq : key ≡ other) (q : Stores db moved_to key value')
              → n.slave.vlog_number ≤ q.address.vlog_numb
              → n.slave.vlog_number
                ≤ (subst (λ k. Stores db moved_to k value') eq q).address.vlog_numb
          subst-newer eq q newer = newer

      accepted-IsCoherent :
          (db.put_address n.master key (encoded new)).0 ≡ ok
          → IsCoherent db n.master
          → IsCoherent db moved_to.master
      unfolding moved_to
      accepted-IsCoherent yes_ok c other lo = elim (Bool-cases (bytes_eq key other)) [
        | inl same ↦
            subst (λ k. IsCoherentAt db (db.put_address n.master key (encoded new)).1 k)
              (bytes_eq_sound key other same)
              (inr (
                new,
                new-FitsU64,
                laws.get-put_self n.master m key (encoded new) room short (length-encoded new)
                    yes_ok,
              ))
        | inr ne ↦
            IsCoherentAt-same db n.master _ other
              (laws.get-put_ne n.master m key (encoded new) other room short (length-encoded new) lo
                (λ q. absurd (ground (arith, bytes_eq_refl key, ap (bytes_eq key) q))))
              (c other lo)
      ]

      room_after : laws.Room moved_to.master m
      unfolding moved_to
      room_after = laws.put-Room n.master m key (encoded new) short (length-encoded new) room

      healthy_after : laws.Healthy n.master → laws.Healthy moved_to.master
      unfolding moved_to
      healthy_after x = (laws.put-Healthy n.master key (encoded new) x).1

      gc_same : Collected
      unfolding counts moved_to
      gc_same = elim (accepted_lem db (db.put_address n.master key (encoded new)).0) [
        | inl yes_ok ↦ record {
          valid = counts;
          after = moved_to;
          runs = runs_lem;
          sound = w.sound;
          later = w.later;
          keeps = accepted_pairs yes_ok;
          leaves = λ p same. inl (own_pair yes_ok value p);
          coherent = accepted-IsCoherent yes_ok;
          room = room_after;
          healthy = healthy_after;
          moved = λ t. new_pair yes_ok;
        }
        | inr (failed, refused) ↦ record {
          valid = counts;
          after = moved_to;
          runs = runs_lem;
          sound = w.sound;
          later = w.later;
          keeps = λ other value' p.
              Stores-Kept db n moved_to other value'
                (laws.get-put_failed n.master key (encoded new) other failed) w.later p;
          leaves = λ p same. inr (encoded new, failed);
          room = room_after;
          healthy = healthy_after;
          coherent = λ c other lo.
              IsCoherentAt-same db n.master _ other
                (laws.get-put_failed n.master key (encoded new) other failed) (c other lo);
          moved = λ t. absurd (ground (arith, refused));
        }
      ]

    -- The collector takes a record of a sound worker that stands at its address, of a key whose
    -- address on the master, if there is one, was stored by the protocol. Whatever the master
    -- answers, the run goes on from a sound worker, each pair of any key that was stored before is
    -- stored after, and the pair of a record that counts as moved is in the newest log.
    pub gc_record-Collected :
        FitsU64 this
        → this.size ≡ length (encode_vlog_entry key value)
        → Holds n.slave this.vlog_numb this.offset (encode_vlog_entry key value)
        → (db.get_address n.master key ≡ miss)
          ⊎ ((cur : Address) × FitsU64 cur × (db.get_address n.master key ≡ hit (encoded cur)))
        → Collected
    gc_record-Collected ht sized held (inl e) = gc_miss e
    gc_record-Collected ht sized held (inr (cur, hc, e)) =
        elim (Bool-cases (same_address cur this)) [
          | inl same ↦
              gc_same ht sized held
                (e ∙ ap (λ (a : Address). hit (encoded a)) (same_address_sound cur this same))
          | inr other ↦ gc_other cur hc e other
        ]
