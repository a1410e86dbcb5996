-- ===== src/Master/Database.antt =====
-- What master.cc asks of the database: `PutAddress`, `GetAddress`, `DeleteKey` and
-- `NewAddrIterator` of db/db_impl.cc, as operations with laws.
use distributed_system_based.Base.{ℕ, suc, ◌+◌, ◌≡◌, ◌≢◌, List, length}
use distributed_system_based.Coding.{IsU32}
use distributed_system_based.Status.{Status, ok}

-- What `GetAddress` returns: the stored bytes, `NotFound`, or another status.
pub data Answer : Type 0 where
  hit : List ℕ → Answer
  miss : Answer
  broken : Status → Answer

pub record AddressDb : Type 1 where
  pub State : Type 0
  pub put_address : State → List ℕ → List ℕ → Status × State
  pub get_address : State → List ℕ → Answer
  pub delete_key : State → List ℕ → Status × State
  -- The keys and stored bytes from `Seek(start)` to the end, and the status of the iterator.
  pub entries_from : State → List ℕ → List (List ℕ × List ℕ) × Status

-- What the code relies on. `Room s n` says that the state is in order and takes `n` more writes,
-- `Healthy s` that no error has stopped writes. Within them, and for keys and addresses whose lengths
-- the encodings carry, a write that succeeds changes the answer for its key alone. One that fails
-- changes no answer at all.
pub record IsAddressDb (db : AddressDb) : Type 1 where
  pub Room : db.State → ℕ → Type 0
  pub Healthy : db.State → Type 0
  pub room-fewer : (s : db.State) (n : ℕ) → Room s (suc n) → Room s n
  pub put-Room :
      (s : db.State) (n : ℕ) (key addr : List ℕ)
      → IsU32 (length key + 8)
      → IsU32 (length addr)
      → Room s (suc n)
      → Room (db.put_address s key addr).1 n
  pub put-Healthy :
      (s : db.State) (key addr : List ℕ)
      → Healthy s
      → ((db.put_address s key addr).0 ≡ ok) × Healthy (db.put_address s key addr).1
  pub get-put_self :
      (s : db.State) (n : ℕ) (key addr : List ℕ)
      → Room s (suc n)
      → IsU32 (length key + 8)
      → IsU32 (length addr)
      → (db.put_address s key addr).0 ≡ ok
      → db.get_address (db.put_address s key addr).1 key ≡ hit addr
  pub get-put_ne :
      (s : db.State) (n : ℕ) (key addr other : List ℕ)
      → Room s (suc n)
      → IsU32 (length key + 8)
      → IsU32 (length addr)
      → IsU32 (length other + 8)
      → key ≢ other
      → db.get_address (db.put_address s key addr).1 other ≡ db.get_address s other
  pub get-put_failed :
      (s : db.State) (key addr other : List ℕ)
      → (db.put_address s key addr).0 ≢ ok
      → db.get_address (db.put_address s key addr).1 other ≡ db.get_address s other
  pub get-delete_self :
      (s : db.State) (n : ℕ) (key : List ℕ)
      → Room s (suc n)
      → IsU32 (length key + 8)
      → (db.delete_key s key).0 ≡ ok
      → db.get_address (db.delete_key s key).1 key ≡ miss
  pub get-delete_ne :
      (s : db.State) (n : ℕ) (key other : List ℕ)
      → Room s (suc n)
      → IsU32 (length key + 8)
      → IsU32 (length other + 8)
      → key ≢ other
      → db.get_address (db.delete_key s key).1 other ≡ db.get_address s other
