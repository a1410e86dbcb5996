-- ===== src/Lsm/AddressStore/Fresh.antt =====
-- A new store, and a store after its first `PutAddress`, as the master of small runs.
use distributed_system_based.Base.{ℕ, ◌+◌, ◌≡◌, ◌≢◌, ◌∙◌, refl, arith, List, [], length}
use distributed_system_based.Coding.{IsU32}
use distributed_system_based.Status.{Status, ok}
use distributed_system_based.Master.Database.{AddressDb, IsAddressDb, hit, miss}
use distributed_system_based.Lsm.AddressStore.{Store, put_address, get_address, answer_or}
use distributed_system_based.Lsm.AddressStore.Rooms.{newest_of, get_address-newest}
use distributed_system_based.Lsm.AddressStore.Database.{store_db, store_laws}

abbrev pub no_iterator : Store → List ℕ → List (List ℕ × List ℕ) × Status
no_iterator d start = ([], ok)

abbrev pub fresh_db : AddressDb
fresh_db = store_db no_iterator

abbrev pub fresh_laws : IsAddressDb fresh_db
fresh_laws = store_laws no_iterator

abbrev pub fresh : Store
fresh = record { mem = []; frozen = []; last_sequence = 0; bg_error = ok; full = []; heights = [] }

pub fresh-Room : fresh_laws.Room fresh 9
unfolding store_laws
fresh-Room = record {
  current = record { sorted = tt; entries = tt };
  older = tt;
  in_sequence = omega arith;
}

pub fresh-Room_one : fresh_laws.Room fresh 1
unfolding store_laws
fresh-Room_one = record {
  current = record { sorted = tt; entries = tt };
  older = tt;
  in_sequence = omega arith;
}

pub fresh-Healthy : fresh_laws.Healthy fresh
unfolding store_laws
fresh-Healthy = refl

pub fresh-miss : (key : List ℕ) → IsU32 (length key + 8) → get_address fresh key ≡ miss
unfolding newest_of answer_or
fresh-miss key short =
    get_address-newest key short fresh (record { sorted = tt; entries = tt }) tt (omega arith)

abbrev pub filled : List ℕ → List ℕ → Store
filled key addr = (put_address fresh key addr).1

module _ (key addr : List ℕ) (short : IsU32 (length key + 8)) (fits : IsU32 (length addr)) where
  pub filled-Room : fresh_laws.Room (filled key addr) 8
  filled-Room = fresh_laws.put-Room fresh 8 key addr short fits fresh-Room

  pub filled-Room_one : fresh_laws.Room (filled key addr) 1
  unfolding store_laws
  filled-Room_one = record {
    current = filled-Room.current;
    older = filled-Room.older;
    in_sequence = omega (arith, filled-Room.in_sequence);
  }

  pub filled-Healthy : fresh_laws.Healthy (filled key addr)
  filled-Healthy = (fresh_laws.put-Healthy fresh key addr fresh-Healthy).1

  pub filled-hit : get_address (filled key addr) key ≡ hit addr
  filled-hit =
      fresh_laws.get-put_self fresh 8 key addr fresh-Room short fits
        (fresh_laws.put-Healthy fresh key addr fresh-Healthy).0

  pub filled-miss :
      (other : List ℕ)
      → IsU32 (length other + 8)
      → key ≢ other
      → get_address (filled key addr) other ≡ miss
  filled-miss other short' ne =
      fresh_laws.get-put_ne fresh 8 key addr other fresh-Room short fits short' ne
      ∙ fresh-miss other short'
