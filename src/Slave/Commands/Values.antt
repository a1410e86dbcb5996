-- ===== src/Slave/Commands/Values.antt =====
-- A worker and the master together: the value of each key, from PUT to GET.
use distributed_system_based.Base.{
  ℕ, suc, ◌+◌, ◌^◌, ◌<◌, ◌≡◌, ◌≢◌, ◌∙◌, ap, refl, arith, List, [], ◌∷◌, ◌++◌, some, length,
}
use distributed_system_based.Coding.{get_varint64, get_varint64_ptr, get_varint_loop, IsU32}
use distributed_system_based.Status.{ok}
use distributed_system_based.Crc.{Checksum}
use distributed_system_based.Text.{codes, contains, starts_with}
use distributed_system_based.Vlog.{found}
use distributed_system_based.Vlog.Entry.{
  encode_vlog_entry, length-encode_vlog_entry, parse-encode_vlog_entry,
}
use distributed_system_based.Vlog.Fetch.{get-IsStored}
use distributed_system_based.Vlog.Addresses.{fetch-encode_address}
use distributed_system_based.Vlog.Manager.{fetch_value_from_vlog}
use distributed_system_based.Wire.Numbers.{FitsU64, decode_address-encoded}
use distributed_system_based.Wire.Requests.{IsKey, process-put_request, process-key_requests}
use distributed_system_based.Master.{
  Address, encoded, decode_address, put_addr, process_worker_command,
}
use distributed_system_based.Master.Database.{AddressDb, IsAddressDb, hit}
use distributed_system_based.Master.Commands.{get-hit, length-encoded}
use distributed_system_based.Slave.{Slave}
use distributed_system_based.Slave.State.{IsSound, Holds}
use distributed_system_based.Slave.Store.{WriteSucceeds, write_value_to_vlog-WriteSucceeds}
use distributed_system_based.Slave.Commands.{Node, register, put_value, get_value, answer_get}
use distributed_system_based.Slave.Commands.Replies.{
  address_reply-clean, reply_address-address_reply,
}

pub empty_address : (a : Address) → FitsU64 a → [] ≡ encoded a → ⊥
unfolding decode_address get_varint64 get_varint64_ptr get_varint_loop
empty_address a h e =
    let decoded : decode_address [] ≡ some a = ap decode_address e ∙ decode_address-encoded a h in
    absurd (ground arith)

-- The address of a new record is one that the protocol carries.
module _ (crc : Checksum) (s : Slave) (key value : List ℕ) (w : WriteSucceeds crc s key value) where
  abbrev pub new_address : Address
  new_address = record {
    vlog_numb = w.after.vlog_number;
    offset = w.offset;
    size = length (encode_vlog_entry key value);
  }

  pub new_address-FitsU64 :
      s.vlog_number + 1 < 2 ^ 32 → IsU32 (length key) → IsU32 (length value) → FitsU64 new_address
  new_address-FitsU64 h len_key len_value = record {
    vlog_fits = omega (arith, w.later.one_more);
    offset_fits = omega (arith, w.in_range);
    size_fits = omega (arith, length-encode_vlog_entry key value);
  }

module _ (db : AddressDb) where
  -- The master has an address for the key at which the worker stores the entry of the pair.
  pub record Stores (n : Node db.State) (key value : List ℕ) : Type 0 where
    pub address : Address
    pub known : db.get_address n.master key ≡ hit (encoded address)
    pub fits : FitsU64 address
    pub short : IsU32 (length key + 8)
    pub numbered : address.vlog_numb < 2 ^ 32
    pub sized : address.size ≡ length (encode_vlog_entry key value)
    pub holds : Holds n.slave address.vlog_numb address.offset (encode_vlog_entry key value)

  pub fetch-Stores :
      (n : Node db.State) (key value : List ℕ)
      → IsU32 (length key)
      → IsU32 (length value)
      → (p : Stores n key value)
      → fetch_value_from_vlog n.slave.manager (encoded p.address) ≡ some (found value)
  fetch-Stores n key value hk hv p =
      fetch-encode_address n.slave.manager p.address.vlog_numb p.address.offset p.address.size
        p.holds.info p.numbered p.fits.offset_fits p.fits.size_fits p.holds.found
      ∙ rw p.sized (
          get-IsStored p.holds.info p.address.offset (encode_vlog_entry key value)
            (length-encode_vlog_entry key value).0 p.holds.stored
          ∙ parse-encode_vlog_entry key value hk hv)

  module _ (crc : Checksum) (n : Node db.State) (key value : List ℕ) where
    -- What a PUT that succeeds does.
    pub record PutSucceeds : Type 0 where
      pub after : Node db.State
      pub answered :
          put_value (process_worker_command db) crc n key value ≡ some (codes "STORED\r\n", after)
      pub sound : IsSound after.slave
      pub stores : Stores after key value
      pub others :
          (other value' : List ℕ) → key ≢ other → Stores n other value' → Stores after other value'

  module _ (crc : Checksum) (n : Node db.State) (key value : List ℕ) (hk : IsKey key)
      (len_key : IsU32 (length key)) (len_value : IsU32 (length value)) where
    -- A GET of a stored pair returns its value and changes nothing.
    pub get_value-Stores :
        Stores n key value
        → get_value (process_worker_command db) crc n key
          ≡ some (codes "VALUE " ++ (value ++ codes "\r\n"), n)
    unfolding get_value answer_get starts_with
    get_value-Stores p =
        let (clean1, clean2, front) = address_reply-clean p.address in
        let (trimmed, read) = reply_address-address_reply p.address p.fits in
        rw
          ((process-key_requests db n.master key hk).0
            ∙ get-hit db n.master n.master key p.address p.fits p.known)
          (rw clean1 (
            rw clean2
              (rw trimmed (rw read (rw (fetch-Stores n key value len_key len_value p) refl)))))

    pub register-ok :
        (m : Node db.State) (a : Address) (addr : List ℕ)
        → addr ≡ encoded a
        → FitsU64 a
        → (db.put_address m.master key (encoded a)).0 ≡ ok
        → register (process_worker_command db) crc m key addr
          ≡ some (
            codes "STORED\r\n",
            record { slave = m.slave; master = (db.put_address m.master key (encoded a)).1 },
          )
    unfolding register put_addr contains starts_with
    register-ok m a [] e ha ok_put = absurd (empty_address a ha e)
    register-ok m a (b ∷ addr) e ha ok_put =
        rw (ap decode_address e ∙ decode_address-encoded a ha)
          (rw (process-put_request db m.master key a hk ha) (rw ok_put refl))

    -- A PUT to a sound worker, whose log numbers do not run out, of a key that the protocol carries is
    -- answered by STORED if the database has room for a write and no error. The pair is stored then,
    -- and each pair of another key that was stored still is.
    pub put_value-PutSucceeds :
        IsSound n.slave
        → n.slave.vlog_number + 1 < 2 ^ 32
        → IsU32 (length key + 8)
        → (laws : IsAddressDb db) (m : ℕ) → laws.Room n.master (suc m)
        → laws.Healthy n.master
        → PutSucceeds crc n key value
    unfolding put_value
    put_value-PutSucceeds v h short laws m room healthy =
        let w : WriteSucceeds crc n.slave key value =
          write_value_to_vlog-WriteSucceeds crc n.slave key value v h in
        let a : Address = new_address crc n.slave key value w in
        record {
          after = record { slave = w.after; master = (db.put_address n.master key (encoded a)).1 };
          answered = rw w.written (
              register-ok (record { slave = w.after; master = n.master }) a _ refl
                (new_address-FitsU64 crc n.slave key value w h len_key len_value)
                (laws.put-Healthy n.master key (encoded a) healthy).0);
          sound = w.sound;
          stores = record {
            address = a;
            known =
                laws.get-put_self n.master m key (encoded a) room short (length-encoded a)
                  (laws.put-Healthy n.master key (encoded a) healthy).0;
            fits = new_address-FitsU64 crc n.slave key value w h len_key len_value;
            short = short;
            numbered = omega (arith, w.later.one_more);
            sized = refl;
            holds = w.holds;
          };
          others = λ other value' ne p. record {
            address = p.address;
            known =
                laws.get-put_ne n.master m key (encoded a) other room short (length-encoded a)
                  p.short ne
                ∙ p.known;
            fits = p.fits;
            short = p.short;
            numbered = p.numbered;
            sized = p.sized;
            holds = w.later.keeps _ _ _ p.holds;
          };
        }
