-- ===== src/Lsm/AddressStore/Database.antt =====
-- The database of the master is this store: it is what distributed/master.cc relies on. The iterator
-- of the store, `NewAddrIterator`, is an argument.
use distributed_system_based.Base.{
  ℕ, suc, ◌+◌, ◌<◌, ◌≡◌, ◌≢◌, ◌⊎◌, ◌∙◌, ap, Bool, true, false, sym, subst, refl, arith, List, [],
  ◌∷◌, length, All, inl, inr,
}
use distributed_system_based.Coding.{IsU32}
use distributed_system_based.Status.{Status, ok, error}
use distributed_system_based.Master.Database.{AddressDb, IsAddressDb, hit, miss}
use distributed_system_based.Lsm.{max_sequence_number}
use distributed_system_based.Lsm.MemTable.Newest.{IsTable}
use distributed_system_based.Lsm.AddressStore.{
  Store, make_room_for_write, after_room, put_address, get_address, delete_key, make_room_by,
  make_room_ok, switch, add_next,
}
use distributed_system_based.Lsm.AddressStore.Rooms.{IsStore, make_room-Roomy}
use distributed_system_based.Lsm.AddressStore.Laws.{Writes, after_room-Writes, writes_refused}

module _ (entries_from : Store → List ℕ → List (List ℕ × List ℕ) × Status) where
  abbrev pub store_db : AddressDb
  store_db = record {
    State = Store;
    put_address = put_address;
    get_address = get_address;
    delete_key = delete_key;
    entries_from = entries_from;
  }

-- The tables are in order, and `n` more sequence numbers are left.
pub record HasRoom (d : Store) (n : ℕ) : Type 0 where
  pub current : IsTable d.mem d.last_sequence
  pub older : All (λ table. IsTable table d.last_sequence) d.frozen
  pub in_sequence : d.last_sequence + n < max_sequence_number

status-cases : (s : Status) → (s ≡ ok) ⊎ (s ≢ ok)
status-cases ok = inl refl
status-cases (error c msg) = inr (λ e. absurd (ground arith))

module _ (d : Store) (n : ℕ) (r : HasRoom d (suc n)) where
  healthy-IsStore : d.bg_error ≡ ok → IsStore d
  healthy-IsStore h = record {
    current = r.current;
    older = r.older;
    in_sequence = omega (arith, r.in_sequence);
    healthy = h;
  }

  module _ (key addr : List ℕ) (short : IsU32 (length key + 8)) (fits : IsU32 (length addr)) where
    put-Writes :
        (h : d.bg_error ≡ ok)
        → Writes d (healthy-IsStore h) 1 key addr (omega arith) short fits (put_address d key addr)
    unfolding put_address
    put-Writes h =
        after_room-Writes d (healthy-IsStore h) 1 key addr (omega arith) short fits
          (make_room_for_write d) (make_room-Roomy d (healthy-IsStore h))

    pub put-HasRoom : HasRoom (put_address d key addr).1 n
    put-HasRoom = elim (status-cases d.bg_error) [
      | inl h ↦
          let w = put-Writes h in
          record {
            current = w.current;
            older = w.older;
            in_sequence = omega (arith, w.next, r.in_sequence);
          }
      | inr bad ↦
          subst (λ (s : Store). HasRoom s n)
            (ap (λ (x : Status × Store). x.1) (sym (writes_refused d key addr bad).0))
            (record {
              current = r.current;
              older = r.older;
              in_sequence = omega (arith, r.in_sequence);
            })
    ]

    put-healthy : (put_address d key addr).0 ≡ ok → d.bg_error ≡ ok
    put-healthy e = elim (status-cases d.bg_error) [
      | inl h ↦ h
      | inr bad ↦ ap (λ (x : Status × Store). x.0) (sym (writes_refused d key addr bad).0) ∙ e
    ]

    pub put_self :
        (put_address d key addr).0 ≡ ok → get_address (put_address d key addr).1 key ≡ hit addr
    put_self e = (put-Writes (put-healthy e)).self

    pub put-other :
        (other : List ℕ)
        → IsU32 (length other + 8)
        → key ≢ other
        → get_address (put_address d key addr).1 other ≡ get_address d other
    put-other other short' ne = elim (status-cases d.bg_error) [
      | inl h ↦ (put-Writes h).others other ne short'
      | inr bad ↦
          ap (λ (x : Status × Store). get_address x.1 other) (writes_refused d key addr bad).0
    ]

  module _ (key : List ℕ) (short : IsU32 (length key + 8)) where
    delete-Writes :
        (h : d.bg_error ≡ ok)
        → Writes d (healthy-IsStore h) 0 key [] (omega arith) short (omega arith) (delete_key d key)
    unfolding delete_key
    delete-Writes h =
        after_room-Writes d (healthy-IsStore h) 0 key [] (omega arith) short (omega arith)
          (make_room_for_write d) (make_room-Roomy d (healthy-IsStore h))

    pub delete_self : (delete_key d key).0 ≡ ok → get_address (delete_key d key).1 key ≡ miss
    delete_self e = elim (status-cases d.bg_error) [
      | inl h ↦ (delete-Writes h).self
      | inr bad ↦
          absurd (bad (ap (λ (x : Status × Store). x.0) (sym (writes_refused d key [] bad).1) ∙ e))
    ]

    pub delete-other :
        (other : List ℕ)
        → IsU32 (length other + 8)
        → key ≢ other
        → get_address (delete_key d key).1 other ≡ get_address d other
    delete-other other short' ne = elim (status-cases d.bg_error) [
      | inl h ↦ (delete-Writes h).others other ne short'
      | inr bad ↦ ap (λ (x : Status × Store). get_address x.1 other) (writes_refused d key [] bad).1
    ]

room_healthy :
    (d : Store) (full : List Bool) → d.bg_error ≡ ok → (make_room_ok full d).bg_error ≡ ok
unfolding make_room_ok switch
room_healthy d [] h = h
room_healthy d (false ∷ full) h = h
room_healthy d (true ∷ full) h = h

room_made : (d : Store) → d.bg_error ≡ ok → make_room_for_write d ≡ (ok, make_room_ok d.full d)
unfolding make_room_for_write make_room_by
room_made d h = ap (λ (s : Status). make_room_by s d) h

pub healthy_put :
    (d : Store) (key addr : List ℕ)
    → d.bg_error ≡ ok
    → ((put_address d key addr).0 ≡ ok) × ((put_address d key addr).1.bg_error ≡ ok)
unfolding put_address after_room add_next
healthy_put d key addr h = rw (room_made d h) (refl, room_healthy d d.full h)

pub refused_put :
    (d : Store) (key addr other : List ℕ)
    → (put_address d key addr).0 ≢ ok
    → get_address (put_address d key addr).1 other ≡ get_address d other
refused_put d key addr other failed = elim (status-cases d.bg_error) [
  | inl h ↦ absurd (failed (healthy_put d key addr h).0)
  | inr bad ↦ ap (λ (x : Status × Store). get_address x.1 other) (writes_refused d key addr bad).0
]

-- The store is a database as distributed/master.cc relies on it, whatever its iterator gives: with
-- its memtables in order and sequence numbers left for the writes to come, a write changes the answer
-- of its key alone and takes one sequence number; without a background error writes succeed; and
-- with one they change nothing.
unfoldable pub store_laws :
    (entries_from : Store → List ℕ → List (List ℕ × List ℕ) × Status)
    → IsAddressDb (store_db entries_from)
store_laws entries_from = record {
  Room = HasRoom;
  Healthy = λ d. d.bg_error ≡ ok;
  room-fewer = λ d n r. record {
    current = r.current;
    older = r.older;
    in_sequence = omega (arith, r.in_sequence);
  };
  put-Room = λ d n key addr short fits r. put-HasRoom d n r key addr short fits;
  put-Healthy = healthy_put;
  get-put_self = λ d n key addr r short fits e. put_self d n r key addr short fits e;
  get-put_ne = λ d n key addr other r short fits short' ne.
      put-other d n r key addr short fits other short' ne;
  get-put_failed = refused_put;
  get-delete_self = λ d n key r short e. delete_self d n r key short e;
  get-delete_ne = λ d n key other r short short' ne. delete-other d n r key short other short' ne;
}
