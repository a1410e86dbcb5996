-- ===== src/Lsm/AddressStore/Rooms.antt =====
-- A database in order, what its tables hold together, and that room for a write changes none of it.
use distributed_system_based.Base.{
  ℕ, ◌+◌, ◌<◌, ◌≤◌, ◌≡◌, ◌∙◌, ◌^◌, ap, sym, subst, refl, arith, List, [], ◌∷◌, Option, Bool, true,
  false, length, All,
}
use distributed_system_based.Status.{Status, ok}
use distributed_system_based.Master.Database.{Answer, miss}
use distributed_system_based.Lsm.{max_sequence_number}
use distributed_system_based.Lsm.MemTable.{Table}
use distributed_system_based.Lsm.MemTable.Newest.{IsTable, newest, HoldsEntry, mem_get-newest}
use distributed_system_based.Lsm.AddressStore.{
  Store, make_room_for_write, switch, search_tables, get_address, answer_or, make_room_ok,
  make_room_by,
}

-- The tables are in order and their entries have the sequence numbers that were given out.
pub record IsStore (d : Store) : Type 0 where
  pub current : IsTable d.mem d.last_sequence
  pub older : All (λ table. IsTable table d.last_sequence) d.frozen
  pub in_sequence : d.last_sequence < max_sequence_number
  pub healthy : d.bg_error ≡ ok

pub IsTable-later :
    (table : Table) (last last' : ℕ) → last ≤ last' → IsTable table last → IsTable table last'
IsTable-later table last last' h t = record { sorted = t.sorted; entries = later table t.entries }
  where
    later : (nodes : Table) → All (HoldsEntry last) nodes → All (HoldsEntry last') nodes
    later [] hs = tt
    later (n ∷ nodes) ((e, he, old, at), hs) = ((e, he, omega arith, at), later nodes hs)

-- The search by the newest entries.
unfoldable pub newest_of : List Table → List ℕ → Answer
unfolding answer_or
newest_of [] key = miss
newest_of (table ∷ tables) key = answer_or (newest_of tables key) (newest key table)

module _ (key : List ℕ) (short : length key + 8 < 2 ^ 32) where
  search-newest :
      (tables : List Table) (last : ℕ)
      → All (λ table. IsTable table last) tables
      → last ≤ max_sequence_number
      → search_tables tables key last ≡ newest_of tables key
  unfolding search_tables newest_of
  search-newest [] last h fits = refl
  search-newest (table ∷ tables) last (ht, h) fits =
      ap (λ (a : Option Answer). answer_or (search_tables tables key last) a)
        (mem_get-newest key last last short fits (omega arith) table ht)
      ∙ ap (λ (a : Answer). answer_or a (newest key table)) (search-newest tables last h fits)

  pub get_address-newest :
      (d : Store)
      → IsTable d.mem d.last_sequence
      → All (λ table. IsTable table d.last_sequence) d.frozen
      → d.last_sequence ≤ max_sequence_number
      → get_address d key ≡ newest_of (d.mem ∷ d.frozen) key
  unfolding get_address
  get_address-newest d h hs fits = search-newest (d.mem ∷ d.frozen) d.last_sequence (h, hs) fits

IsTable-empty : (last : ℕ) → IsTable [] last
IsTable-empty last = record { sorted = tt; entries = tt }

-- Making room changes no answer.
pub record Roomy (d : Store) (r : Status × Store) : Type 0 where
  pub made : r.0 ≡ ok
  pub current : IsTable r.1.mem r.1.last_sequence
  pub older : All (λ table. IsTable table r.1.last_sequence) r.1.frozen
  pub same_sequence : r.1.last_sequence ≡ d.last_sequence
  pub same_error : r.1.bg_error ≡ d.bg_error
  pub same :
      (key : List ℕ) → newest_of (r.1.mem ∷ r.1.frozen) key ≡ newest_of (d.mem ∷ d.frozen) key

Roomy-full : (full : List Bool) (d : Store) → IsStore d → Roomy d (ok, make_room_ok full d)
unfolding make_room_ok switch newest_of answer_or
Roomy-full [] d v = record {
  made = refl;
  current = v.current;
  older = v.older;
  same_sequence = refl;
  same_error = refl;
  same = λ key. refl;
}
Roomy-full (false ∷ full) d v = record {
  made = refl;
  current = v.current;
  older = v.older;
  same_sequence = refl;
  same_error = refl;
  same = λ key. refl;
}
Roomy-full (true ∷ full) d v = record {
  made = refl;
  current = IsTable-empty d.last_sequence;
  older = (v.current, v.older);
  same_sequence = refl;
  same_error = refl;
  same = λ key. refl;
}

pub make_room-Roomy : (d : Store) → IsStore d → Roomy d (make_room_for_write d)
unfolding make_room_for_write
make_room-Roomy d v =
    subst (Roomy d) (ap (λ (s : Status). make_room_by s d) (sym v.healthy)) (Roomy-full d.full d v)
