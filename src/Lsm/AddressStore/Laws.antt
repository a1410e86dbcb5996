-- ===== src/Lsm/AddressStore/Laws.antt =====
-- What the master relies on: a write changes the answer for its key alone.
use Prim.Native.Nat.{Ordering}
use distributed_system_based.Base.{
  ℕ, ◌+◌, ◌<◌, ◌≤◌, ◌≡◌, ◌≢◌, ◌∙◌, ◌^◌, ap, sym, refl, arith, List, [], ◌∷◌, false, ◌==◌,
  if◌then◌else◌, length, All,
}
use distributed_system_based.Coding.{IsU32}
use distributed_system_based.Status.{Status, ok, error}
use distributed_system_based.Master.Database.{hit, miss}
use distributed_system_based.Lsm.{max_sequence_number, compare_bytes}
use distributed_system_based.Lsm.Order.{is_equal, compare_bytes_sound}
use distributed_system_based.Lsm.MemTable.{Table}
use distributed_system_based.Lsm.MemTable.Entries.{Entry, IsEntry, answer_of}
use distributed_system_based.Lsm.MemTable.Newest.{IsTable}
use distributed_system_based.Lsm.MemTable.Inserts.{mem_add-IsTable, newest-mem_add}
use distributed_system_based.Lsm.AddressStore.{
  Store, random_height, make_room_for_write, add_next, put_address, delete_key, get_address,
  answer_or, make_room_by, after_room,
}
use distributed_system_based.Lsm.AddressStore.Rooms.{
  IsTable-later, newest_of, get_address-newest, Roomy, make_room-Roomy, IsStore,
}

random_height_pos : (heights : List ℕ) → 0 < random_height heights
random_height_pos [] = omega arith
random_height_pos (coins ∷ heights) = omega arith

All-later :
    (last last' : ℕ) (tables : List Table)
    → last ≤ last'
    → All (λ table. IsTable table last) tables
    → All (λ table. IsTable table last') tables
All-later last last' [] h hs = tt
All-later last last' (table ∷ tables) h (ht, hs) =
    (IsTable-later table last last' h ht, All-later last last' tables h hs)

not_equal : (a b : List ℕ) → a ≢ b → is_equal (compare_bytes a b) ≡ false
not_equal a b ne = cases (compare_bytes a b) refl
  where
    cases : (o : Ordering) → compare_bytes a b ≡ o → is_equal o ≡ false
    cases Ordering.lt e = refl
    cases Ordering.eq e = absurd (ne (compare_bytes_sound a b e))
    cases Ordering.gt e = refl

-- The entry with the next sequence number, on top of tables in order.
module _ (r : Store) (t : ℕ) (key value : List ℕ) (typed : t ≤ 1) (short : length key + 8 < 2 ^ 32)
    (fits : IsU32 (length value)) (current : IsTable r.mem r.last_sequence)
    (older : All (λ table. IsTable table r.last_sequence) r.frozen)
    (in_sequence : r.last_sequence < max_sequence_number) where
  abbrev entry : Entry
  entry = record { user_key = key; sequence = r.last_sequence + 1; type = t; value = value }

  entry-IsEntry : IsEntry entry
  entry-IsEntry = record {
    key_fits = short;
    value_fits = fits;
    in_sequence = omega arith;
    typed = typed;
  }

  abbrev next_store : Store
  next_store = add_next r t key value

  next-current : IsTable next_store.mem (r.last_sequence + 1)
  unfolding add_next
  next-current =
      mem_add-IsTable r.mem r.last_sequence (random_height r.heights) entry current entry-IsEntry
        (omega arith) (random_height_pos r.heights)

  next-older : All (λ table. IsTable table (r.last_sequence + 1)) next_store.frozen
  unfolding add_next
  next-older = All-later r.last_sequence (r.last_sequence + 1) r.frozen (omega arith) older

  next-newest :
      (other : List ℕ)
      → length other + 8 < 2 ^ 32
      → get_address next_store other ≡ newest_of (next_store.mem ∷ next_store.frozen) other
  next-newest other short' =
      get_address-newest other short' next_store (unfold add_next in next-current)
        (unfold add_next in next-older) (unfold add_next in omega arith)

  next_self : get_address next_store key ≡ answer_of entry
  next_self =
      next-newest key short
      ∙ unfold add_next newest_of answer_or in
        ap (answer_or (newest_of r.frozen key))
          (newest-mem_add r.mem r.last_sequence (random_height r.heights) entry current
            entry-IsEntry (omega arith) (random_height_pos r.heights)).0

  next-others :
      (other : List ℕ)
      → key ≢ other
      → length other + 8 < 2 ^ 32
      → get_address next_store other ≡ newest_of (r.mem ∷ r.frozen) other
  next-others other ne short' =
      next-newest other short'
      ∙ unfold add_next newest_of answer_or in
        ap (answer_or (newest_of r.frozen other)) (
          (newest-mem_add r.mem r.last_sequence (random_height r.heights) entry current
              entry-IsEntry (omega arith) (random_height_pos r.heights)).1
            other (not_equal key other ne))

-- A write of one entry.
module _ (d : Store) (v : IsStore d) (t : ℕ) (key value : List ℕ) (typed : t ≤ 1)
    (short : length key + 8 < 2 ^ 32) (fits : IsU32 (length value)) where
  -- The status, the new state, and the answers: the entry's for its key, the old one for others.
  pub record Writes (result : Status × Store) : Type 0 where
    pub accepted : result.0 ≡ ok
    pub current : IsTable result.1.mem result.1.last_sequence
    pub older : All (λ table. IsTable table result.1.last_sequence) result.1.frozen
    pub next : result.1.last_sequence ≡ d.last_sequence + 1
    pub healthy : result.1.bg_error ≡ ok
    pub self : get_address result.1 key ≡ (if t == 1 then hit value else miss)
    pub others :
        (other : List ℕ)
        → key ≢ other
        → length other + 8 < 2 ^ 32
        → get_address result.1 other ≡ get_address d other

  pub after_room-Writes : (r : Status × Store) → Roomy d r → Writes (after_room t key value r)
  unfolding after_room
  after_room-Writes (error c msg, r) room = absurd (ground (arith, room.made))
  after_room-Writes (ok, r) room =
      let in_range : r.last_sequence < max_sequence_number =
        omega (arith, room.same_sequence, v.in_sequence) in
      record {
        accepted = refl;
        current =
            unfold add_next in
            next-current r t key value typed short fits room.current room.older in_range;
        older =
            unfold add_next in
            next-older r t key value typed short fits room.current room.older in_range;
        next = unfold add_next in ap (λ (n : ℕ). n + 1) room.same_sequence;
        healthy = unfold add_next in (room.same_error ∙ v.healthy);
        self = next_self r t key value typed short fits room.current room.older in_range;
        others = λ other ne short'.
            next-others r t key value typed short fits room.current room.older in_range other ne
              short'
            ∙ room.same other
            ∙ sym (
                get_address-newest other short' d v.current v.older (omega (arith, v.in_sequence)));
      }

module _ (d : Store) (v : IsStore d) (key : List ℕ) (short : length key + 8 < 2 ^ 32) where
  -- In a database whose memtables are in order, that has no background error and has sequence
  -- numbers left, PutAddress of a key and an address below 2^32 bytes (with the eight bytes of an
  -- internal key) succeeds and takes the next sequence number. GetAddress then returns the address
  -- for the key, and what it returned before for any other key of such a length.
  pub put_address-get_address :
      (addr other : List ℕ)
      → IsU32 (length addr)
      → key ≢ other
      → length other + 8 < 2 ^ 32
      → ((put_address d key addr).0 ≡ ok)
        × ((put_address d key addr).1.last_sequence ≡ d.last_sequence + 1)
        × (get_address (put_address d key addr).1 key ≡ hit addr)
        × (get_address (put_address d key addr).1 other ≡ get_address d other)
  unfolding put_address
  put_address-get_address addr other fits ne short' =
      let w =
        after_room-Writes d v 1 key addr (omega arith) short fits (make_room_for_write d)
          (make_room-Roomy d v) in
      (w.accepted, w.next, w.self, w.others other ne short')

  -- Under the same conditions DeleteKey succeeds and takes the next sequence number. GetAddress then
  -- finds nothing for the key, and returns what it returned before for any other key.
  pub delete_key-get_address :
      (other : List ℕ)
      → key ≢ other
      → length other + 8 < 2 ^ 32
      → ((delete_key d key).0 ≡ ok)
        × ((delete_key d key).1.last_sequence ≡ d.last_sequence + 1)
        × (get_address (delete_key d key).1 key ≡ miss)
        × (get_address (delete_key d key).1 other ≡ get_address d other)
  unfolding delete_key
  delete_key-get_address other ne short' =
      let w =
        after_room-Writes d v 0 key [] (omega arith) short (omega arith) (make_room_for_write d)
          (make_room-Roomy d v) in
      (w.accepted, w.next, w.self, w.others other ne short')

  -- Either write keeps the memtables in order and the error state, as long as sequence numbers are
  -- left.
  pub writes-IsStore :
      (addr : List ℕ)
      → IsU32 (length addr)
      → d.last_sequence + 1 < max_sequence_number
      → IsStore (put_address d key addr).1 × IsStore (delete_key d key).1
  writes-IsStore addr fits room = (
    kept (put_address d key addr) (
        unfold put_address in
        after_room-Writes d v 1 key addr (omega arith) short fits (make_room_for_write d)
          (make_room-Roomy d v)),
    kept' (delete_key d key) (
        unfold delete_key in
        after_room-Writes d v 0 key [] (omega arith) short (omega arith) (make_room_for_write d)
          (make_room-Roomy d v)),
  )
    where
      kept :
          (result : Status × Store)
          → Writes d v 1 key addr (omega arith) short fits result
          → IsStore result.1
      kept result w = record {
        current = w.current;
        older = w.older;
        in_sequence = omega (arith, w.next);
        healthy = w.healthy;
      }

      kept' :
          (result : Status × Store)
          → Writes d v 0 key [] (omega arith) short (omega arith) result
          → IsStore result.1
      kept' result w = record {
        current = w.current;
        older = w.older;
        in_sequence = omega (arith, w.next);
        healthy = w.healthy;
      }

-- After a background error PutAddress and DeleteKey return it and change nothing.
pub writes_refused :
    (d : Store) (key addr : List ℕ)
    → d.bg_error ≢ ok
    → (put_address d key addr ≡ (d.bg_error, d)) × (delete_key d key ≡ (d.bg_error, d))
writes_refused d key addr bad = (
  unfold put_address make_room_for_write in refused d.bg_error 1 addr bad,
  unfold delete_key make_room_for_write in refused d.bg_error 0 [] bad,
)
  where
    refused :
        (s : Status) (t : ℕ) (value : List ℕ)
        → s ≢ ok
        → after_room t key value (make_room_by s d) ≡ (s, d)
    refused ok t value b = absurd (b refl)
    refused (error c msg) t value b = unfold after_room make_room_by in refl
