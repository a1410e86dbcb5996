-- ===== src/Lsm/Runs.antt =====
-- Runs of small lists and memtables.
use distributed_system_based.Base.{ℕ, ◌≡◌, ◌∙◌, refl, arith, List, [], ◌∷◌, true, ltb}
use distributed_system_based.Lsm.{compare_bytes}
use distributed_system_based.Text.{codes}
use distributed_system_based.Status.{ok}
use distributed_system_based.Master.Database.{hit}
use distributed_system_based.Lsm.SkipList.{
  Node, IsSorted, seek, find_greater_or_equal, find_greater_or_equal-seek,
}
use distributed_system_based.Lsm.MemTable.{Table, mem_get}
use distributed_system_based.Lsm.MemTable.Entries.{
  Entry, IsEntry, encoded_entry, entry_is_less-encoded,
}
use distributed_system_based.Lsm.MemTable.Newest.{IsTable}
use distributed_system_based.Lsm.MemTable.Latest.{IsLatest, mem_get-IsLatest}
use distributed_system_based.Lsm.AddressStore.{Store, put_address, delete_key, get_address}
use distributed_system_based.Lsm.AddressStore.Laws.{put_address-get_address, writes-IsStore}
use distributed_system_based.Lsm.AddressStore.Rooms.{IsStore}

-- Three numbers, the second one on two levels.
three_nodes : List (Node ℕ)
three_nodes =
    record { key = 2; height = 1 }
    ∷ record { key = 5; height = 2 }
    ∷ record { key = 9; height = 1 }
    ∷ []

ltb_trans : (a b c : ℕ) → ltb a b ≡ true → ltb b c ≡ true → ltb a c ≡ true
ltb_trans a b c h k = ground arith

three_nodes-IsSorted : IsSorted ltb three_nodes
unfolding three_nodes
three_nodes-IsSorted =
    ((refl, (refl, tt)), omega arith, ((refl, tt), omega arith, (tt, omega arith, tt)))

find_greater_or_equal-seek_example :
    find_greater_or_equal ltb 6 three_nodes ≡ seek ltb 6 three_nodes
find_greater_or_equal-seek_example =
    find_greater_or_equal-seek ltb ltb_trans 6 three_nodes three_nodes-IsSorted

one_entry : Entry
one_entry = record { user_key = codes "k"; sequence = 3; type = 1; value = codes "v" }

one_table : Table
one_table = record { key = encoded_entry one_entry; height = 1 } ∷ []

one_entry-IsEntry : IsEntry one_entry
unfolding one_entry
one_entry-IsEntry = record {
  key_fits = omega arith;
  value_fits = omega arith;
  in_sequence = omega arith;
  typed = omega arith;
}

one_table-IsTable : IsTable one_table 3
unfolding one_table one_entry
one_table-IsTable = record {
  sorted = (tt, omega arith, tt);
  entries = ((one_entry, one_entry-IsEntry, omega arith, refl), tt);
}

-- An older entry of the same key behind it.
old_entry : Entry
old_entry = record one_entry { sequence = 1 }

old_entry-IsEntry : IsEntry old_entry
unfolding old_entry one_entry
old_entry-IsEntry = record {
  key_fits = omega arith;
  value_fits = omega arith;
  in_sequence = omega arith;
  typed = omega arith;
}

two_table : Table
two_table =
    record { key = encoded_entry one_entry; height = 1 }
    ∷ record { key = encoded_entry old_entry; height = 2 }
    ∷ []

two_table-IsTable : IsTable two_table 3
unfolding two_table one_entry old_entry compare_bytes
two_table-IsTable = record {
  sorted = (
    (entry_is_less-encoded one_entry old_entry one_entry-IsEntry old_entry-IsEntry ∙ refl, tt),
    omega arith,
    (tt, omega arith, tt),
  );
  entries = (
    (one_entry, one_entry-IsEntry, omega arith, refl),
    ((old_entry, old_entry-IsEntry, omega arith, refl), tt),
  );
}

mem_get-IsLatest_example : IsLatest (codes "k") 2 two_table (mem_get two_table (codes "k") 2)
mem_get-IsLatest_example =
    mem_get-IsLatest (codes "k") 2 (omega arith) (omega arith) 3 two_table two_table-IsTable

-- A database whose current memtable is full.
full_store : Store
full_store = record {
  mem = one_table;
  frozen = [];
  last_sequence = 3;
  bg_error = ok;
  full = true ∷ [];
  heights = 2 ∷ [];
}

full_store-IsStore : IsStore full_store
unfolding full_store
full_store-IsStore = record {
  current = one_table-IsTable;
  older = tt;
  in_sequence = omega arith;
  healthy = refl;
}

put_address-get_address_example :
    ((put_address full_store (codes "key") (codes "a")).0 ≡ ok)
    × ((put_address full_store (codes "key") (codes "a")).1.last_sequence ≡ 4)
    × (get_address (put_address full_store (codes "key") (codes "a")).1 (codes "key")
        ≡ hit (codes "a"))
    × (get_address (put_address full_store (codes "key") (codes "a")).1 (codes "k")
        ≡ get_address full_store (codes "k"))
unfolding full_store
put_address-get_address_example =
    put_address-get_address full_store full_store-IsStore (codes "key") (omega arith) (codes "a")
      (codes "k") (omega arith) (ground arith) (omega arith)

writes-IsStore_example :
    IsStore (put_address full_store (codes "key") (codes "a")).1
    × IsStore (delete_key full_store (codes "key")).1
unfolding full_store
writes-IsStore_example =
    writes-IsStore full_store full_store-IsStore (codes "key") (omega arith) (codes "a")
      (omega arith) (omega arith)
