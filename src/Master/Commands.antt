-- ===== src/Master/Commands.antt =====
-- What the commands of a worker do to the addresses: a stored address is answered to the next
-- request, a deleted one is not, and an update asks for the address that it replaces.
use distributed_system_based.Base.{
  ℕ, ◌+◌, length, length-append, ◌≡◌, ◌≢◌, ◌∙◌, ap, refl, arith, List, [], ◌++◌, some, true, false,
  Bool-cases, inl, inr,
}
use distributed_system_based.Coding.{IsU32, put_varint64, encode_varint64}
use distributed_system_based.Coding.Varint.{varint_length-encode_varint64}
use distributed_system_based.Vlog.Manager.{encode_address}
use distributed_system_based.Status.{ok}
use distributed_system_based.Text.{codes}
use distributed_system_based.Wire.{put_request, get_request, delete_request, update_request}
use distributed_system_based.Wire.Numbers.{FitsU64, decode_address-encoded}
use distributed_system_based.Wire.Requests.{
  IsKey, process-put_request, process-update_request, process-key_requests,
}
use distributed_system_based.Master.{
  Address, encoded, same_address, show_address, put_addr, get_addr, delete_addr, update_addr,
  address_changed, process_worker_command,
}
use distributed_system_based.Master.Database.{AddressDb, IsAddressDb, hit, miss}

-- The answer to GET_ADDR when the address is there.
abbrev pub address_reply : Address → List ℕ
address_reply a = codes "ADDR " ++ (show_address a ++ codes "\r\n")

pub same_address_refl : (a : Address) → same_address a a ≡ true
same_address_refl a = ground arith

pub same_address_sound : (a b : Address) → same_address a b ≡ true → a ≡ b
same_address_sound a b e = fields (ground arith) (ground arith) (ground arith)
  where
    fields : a.vlog_numb ≡ b.vlog_numb → a.offset ≡ b.offset → a.size ≡ b.size → a ≡ b
    fields p q r i = record { vlog_numb = p i; offset = q i; size = r i }

-- An encoded address has at most thirty bytes.
pub length-encoded : (a : Address) → IsU32 (length (encoded a))
unfolding encode_address put_varint64
length-encoded a = omega (
  arith,
  length-append (encode_varint64 a.vlog_numb ++ encode_varint64 a.offset) (encode_varint64 a.size),
  length-append (encode_varint64 a.vlog_numb) (encode_varint64 a.offset),
  varint_length-encode_varint64 a.vlog_numb,
  varint_length-encode_varint64 a.offset,
  varint_length-encode_varint64 a.size,
)

module _ (db : AddressDb) (s : db.State) where
  -- The response and the database after a line.
  abbrev run : db.State → List ℕ → List ℕ × db.State
  run = process_worker_command db

  pub get-hit :
      (t : db.State) (key : List ℕ) (a : Address)
      → FitsU64 a
      → db.get_address t key ≡ hit (encoded a)
      → get_addr db t (some (key, [])) ≡ (address_reply a, t)
  unfolding get_addr
  get-hit t key a ha e = rw e (rw (decode_address-encoded a ha))

  asked :
      (t : db.State) (key : List ℕ)
      → IsKey key
      → run t (get_request key) ≡ get_addr db t (some (key, []))
  asked t key hk = (process-key_requests db t key hk).0

  pub get-same :
      (t u : db.State) (key : List ℕ)
      → db.get_address t key ≡ db.get_address u key
      → (get_addr db t (some (key, []))).0 ≡ (get_addr db u (some (key, []))).0
  unfolding get_addr
  get-same t u key e = rw e refl

  pub changed-same : (a : Address) → FitsU64 a → address_changed (hit (encoded a)) a ≡ false
  unfolding address_changed
  changed-same a ha = rw (decode_address-encoded a ha) (rw (same_address_refl a) refl)

  changed-ne :
      (cur old : Address) → FitsU64 cur → cur ≢ old → address_changed (hit (encoded cur)) old ≡ true
  unfolding address_changed
  changed-ne cur old hc ne =
      rw (decode_address-encoded cur hc) (elim (Bool-cases (same_address cur old)) [
        | inl e ↦ absurd (ne (same_address_sound cur old e))
        | inr e ↦ rw e refl
      ])

  -- For a key that is not empty and has no blank and for addresses of 64-bit numbers: a line of
  -- UPDATE_ADDR whose old address is not the one that the key has now is refused, and the database
  -- stays as it is.
  pub update-refused :
      (key : List ℕ) (cur old new : Address)
      → IsKey key
      → FitsU64 cur
      → FitsU64 old
      → FitsU64 new
      → db.get_address s key ≡ hit (encoded cur)
      → cur ≢ old
      → run s (update_request key old new) ≡ (codes "ERROR: Address changed, CAS failed\r\n", s)
  unfolding update_addr
  update-refused key cur old new hk hc ho hn e ne =
      process-update_request db s key old new hk ho hn ∙ rw e (rw (changed-ne cur old hc ne) refl)

  -- The laws of the database, and room in it for one write.
  module _ (laws : IsAddressDb db) (room : laws.Room s 1) where
    -- The database has room for a write, and keys are not empty, have no blank and are below 2^32
    -- bytes with the eight of an internal key. A line of PUT_ADDR, for an address of 64-bit numbers,
    -- that the database accepts is answered by STORED, the next GET_ADDR of the key by the address,
    -- and that of another key as before.
    pub put-get :
        (key other : List ℕ) (a : Address)
        → IsKey key
        → IsKey other
        → IsU32 (length key + 8)
        → IsU32 (length other + 8)
        → key ≢ other
        → FitsU64 a
        → (db.put_address s key (encoded a)).0 ≡ ok
        → let after = (run s (put_request key a)).1 in
          ((run s (put_request key a)).0 ≡ codes "STORED\r\n")
          × ((run after (get_request key)).0 ≡ address_reply a)
          × ((run after (get_request other)).0 ≡ (run s (get_request other)).0)
    unfolding put_addr
    put-get key other a hk ho lk lo ne ha e = rw (process-put_request db s key a hk ha) (
        rw (asked after key hk) (
          rw (asked after other ho) (
            rw (asked s other ho) (
              rw e refl,
              ap (λ r. r.0)
                  (get-hit after key a ha
                    (laws.get-put_self s 0 key (encoded a) room lk (length-encoded a) e)),
              get-same after s other
                  (laws.get-put_ne s 0 key (encoded a) other room lk (length-encoded a) lo ne),
            ))))
      where
        after : db.State
        after = (db.put_address s key (encoded a)).1

    -- The database has room for a write, and keys are not empty, have no blank and are below 2^32
    -- bytes with the eight of an internal key. A line of DELETE_ADDR that the database accepts is
    -- answered by DELETED, the next GET_ADDR of the key by NOT_FOUND, and that of another key as
    -- before.
    pub delete-get :
        (key other : List ℕ)
        → IsKey key
        → IsKey other
        → IsU32 (length key + 8)
        → IsU32 (length other + 8)
        → key ≢ other
        → (db.delete_key s key).0 ≡ ok
        → let after = (run s (delete_request key)).1 in
          ((run s (delete_request key)).0 ≡ codes "DELETED\r\n")
          × ((run after (get_request key)).0 ≡ codes "NOT_FOUND\r\n")
          × ((run after (get_request other)).0 ≡ (run s (get_request other)).0)
    unfolding delete_addr get_addr
    delete-get key other hk ho lk lo ne e = rw ((process-key_requests db s key hk).2) (
        rw (asked after key hk) (
          rw (asked after other ho) (
            rw (asked s other ho) (
              rw e refl,
              rw (laws.get-delete_self s 0 key room lk e) refl,
              get-same after s other (laws.get-delete_ne s 0 key other room lk lo ne),
            ))))
      where
        after : db.State
        after = (db.delete_key s key).1

    -- What passes the guard of UPDATE_ADDR is stored.
    update-stored :
        (key : List ℕ) (old new : Address)
        → IsKey key
        → IsU32 (length key + 8)
        → FitsU64 old
        → FitsU64 new
        → address_changed (db.get_address s key) old ≡ false
        → (db.put_address s key (encoded new)).0 ≡ ok
        → let after = (run s (update_request key old new)).1 in
          ((run s (update_request key old new)).0 ≡ codes "UPDATED\r\n")
          × ((run after (get_request key)).0 ≡ address_reply new)
    unfolding update_addr
    update-stored key old new hk lk ho hn guard e =
        rw (process-update_request db s key old new hk ho hn) (
          rw guard (
            rw (asked after key hk) (
              rw e refl,
              ap (λ r. r.0)
                  (get-hit after key new hn
                    (laws.get-put_self s 0 key (encoded new) room lk (length-encoded new) e)),
            )))
      where
        after : db.State
        after = (db.put_address s key (encoded new)).1

    -- For a database with room for a write, a key that is not empty, has no blank and is below 2^32
    -- bytes with the eight of an internal key, and addresses of 64-bit numbers: a line of UPDATE_ADDR
    -- whose old address is the one that the key has now, and that the database accepts, is answered
    -- by UPDATED, and the next GET_ADDR by the new address.
    pub update-get :
        (key : List ℕ) (old new : Address)
        → IsKey key
        → IsU32 (length key + 8)
        → FitsU64 old
        → FitsU64 new
        → db.get_address s key ≡ hit (encoded old)
        → (db.put_address s key (encoded new)).0 ≡ ok
        → let after = (run s (update_request key old new)).1 in
          ((run s (update_request key old new)).0 ≡ codes "UPDATED\r\n")
          × ((run after (get_request key)).0 ≡ address_reply new)
    update-get key old new hk lk ho hn e accepted =
        update-stored key old new hk lk ho hn (rw e (changed-same old ho)) accepted

    -- For a database with room for a write, a key that is not empty, has no blank and is below 2^32
    -- bytes with the eight of an internal key, and addresses of 64-bit numbers: a line of UPDATE_ADDR
    -- for a key that the database does not have passes whatever the old address is, and if the
    -- database accepts it, the next GET_ADDR is answered by the new address.
    pub update-revives :
        (key : List ℕ) (old new : Address)
        → IsKey key
        → IsU32 (length key + 8)
        → FitsU64 old
        → FitsU64 new
        → db.get_address s key ≡ miss
        → (db.put_address s key (encoded new)).0 ≡ ok
        → let after = (run s (update_request key old new)).1 in
          ((run s (update_request key old new)).0 ≡ codes "UPDATED\r\n")
          × ((run after (get_request key)).0 ≡ address_reply new)
    unfolding address_changed
    update-revives key old new hk lk ho hn e accepted =
        update-stored key old new hk lk ho hn (rw e refl) accepted
