-- ===== src/Lsm/AddressStore.antt =====
-- db/db_impl.cc: `PutAddress`, `GetAddress` and `DeleteKey` over the memtables. A memtable that was
-- full, and the table that a compaction made from it, answer alike; they stand behind the current
-- memtable, the newest first. The waits of `MakeRoomForWrite` and the statistics are left out, and
-- its assert that a writer waits, which none of these operations meets, is taken as compiled out.
pub mod Rooms
pub mod Laws
pub mod Database
pub mod Fresh
use distributed_system_based.Base.{
  ℕ, ◌+◌, List, [], ◌∷◌, Option, none, some, Bool, true, false, if◌then◌else◌, min,
}
use distributed_system_based.Status.{Status, ok, error}
use distributed_system_based.Master.Database.{Answer, miss}
use distributed_system_based.Lsm.{type_value, type_deletion}
use distributed_system_based.Lsm.MemTable.{Table, mem_add, mem_get}

-- `mem_`, the tables behind it, `LastSequence()` and `bg_error_`. `full` tells of the writes to come
-- which of them finds the memtable above its limit, and `heights` what the coin of `RandomHeight`
-- gives; with no entry left, there is room, and a node has height 1.
pub record Store : Type 0 where
  pub mem : Table
  pub frozen : List Table
  pub last_sequence : ℕ
  pub bg_error : Status
  pub full : List Bool
  pub heights : List ℕ

-- `kMaxHeight`.
abbrev pub max_skip_height : ℕ
max_skip_height = 12

abbrev pub random_height : List ℕ → ℕ
random_height [] = 1
random_height (coins ∷ heights) = min (coins + 1) max_skip_height

abbrev pub later_heights : List ℕ → List ℕ
later_heights [] = []
later_heights (coins ∷ heights) = heights

unfoldable pub switch : Bool → List Bool → Store → Store
switch false full d = record d { full = full }
switch true full d = record d { mem = []; frozen = d.mem ∷ d.frozen; full = full }

unfoldable pub make_room_ok : List Bool → Store → Store
make_room_ok [] d = d
make_room_ok (is_full ∷ full) d = switch is_full full d

unfoldable pub make_room_by : Status → Store → Status × Store
make_room_by ok d = (ok, make_room_ok d.full d)
make_room_by (error c msg) d = (error c msg, d)

-- `MakeRoomForWrite(false)`.
unfoldable pub make_room_for_write : Store → Status × Store
unfolding switch make_room_ok make_room_by
make_room_for_write d = make_room_by d.bg_error d

-- The entry with the next sequence number.
unfoldable pub add_next : Store → ℕ → List ℕ → List ℕ → Store
add_next d t key value = record d {
  mem = mem_add d.mem (random_height d.heights) (d.last_sequence + 1) t key value;
  last_sequence = d.last_sequence + 1;
  heights = later_heights d.heights;
}

unfoldable pub after_room : ℕ → List ℕ → List ℕ → Status × Store → Status × Store
after_room t key value (ok, d) = (ok, add_next d t key value)
after_room t key value (error c msg, d) = (error c msg, d)

unfoldable pub put_address : Store → List ℕ → List ℕ → Status × Store
unfolding after_room
put_address d key addr = after_room type_value key addr (make_room_for_write d)

unfoldable pub delete_key : Store → List ℕ → Status × Store
unfolding after_room
delete_key d key = after_room type_deletion key [] (make_room_for_write d)

unfoldable pub answer_or : Answer → Option Answer → Answer
answer_or rest none = rest
answer_or rest (some answer) = answer

-- The first of the tables that has something for the key.
unfoldable pub search_tables : List Table → List ℕ → ℕ → Answer
unfolding answer_or
search_tables [] key snapshot = miss
search_tables (table ∷ tables) key snapshot =
    answer_or (search_tables tables key snapshot) (mem_get table key snapshot)

-- `GetAddress` without a snapshot.
unfoldable pub get_address : Store → List ℕ → Answer
get_address d key = search_tables (d.mem ∷ d.frozen) key d.last_sequence
