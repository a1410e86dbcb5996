-- ===== src/Routing.antt =====
-- The static partition of keys among the workers, by the first byte of the key:
-- `get_worker_for_key` and `get_worker_range` of distributed/master.cc, and the lookup that a
-- client makes in its route table, `find_worker_for_key` of distributed/client.cc.
pub mod Agreement
mod Runs
use distributed_system_based.Base.{
  ℕ, zero, suc, ◌+◌, List, [], ◌∷◌, Option, none, some, Bool, ◌&&◌, ltb, leb, ◌==◌, if◌then◌else◌,
}

-- One row of `WORKER_RANGES`.
pub record Range : Type 0 where
  pub range_start : ℕ
  pub range_end : ℕ

abbrev pub worker_ranges : List Range
worker_ranges =
    record { range_start = 0; range_end = 42 }
    ∷ record { range_start = 43; range_end = 85 }
    ∷ record { range_start = 86; range_end = 127 }
    ∷ []

-- `ch >= start && ch <= end`.
abbrev pub in_range : ℕ → Range → Bool
in_range ch r = leb r.range_start ch && leb ch r.range_end

-- The loop over the rows from number `i` on, and what is returned behind it.
unfoldable pub worker_from : List Range → ℕ → ℕ → ℕ
worker_from [] i ch = 2
worker_from (r ∷ rs) i ch = if in_range ch r then i else worker_from rs (i + 1) ch

unfoldable pub get_worker_for_key : List ℕ → ℕ
unfolding worker_from
get_worker_for_key [] = 0
get_worker_for_key (ch ∷ key) = worker_from worker_ranges 0 ch

nth_range : List Range → ℕ → Option Range
nth_range [] i = none
nth_range (r ∷ rs) zero = some r
nth_range (r ∷ rs) (suc i) = nth_range rs i

-- `get_worker_range`; `none` is a number that is negative.
unfoldable pub get_worker_range : Option ℕ → Range
unfolding nth_range
get_worker_range none = record { range_start = 0; range_end = 127 }
get_worker_range (some worker_id) = elim (nth_range worker_ranges worker_id) [
  | none ↦ record { range_start = 0; range_end = 127 }
  | some r ↦ r
]

-- A row of the client's route table. The address of the worker plays no part in the lookup.
pub record RouteEntry : Type 0 where
  pub index : ℕ
  pub port : ℕ
  pub range : Range

-- `none` is -1.
unfoldable pub find_in_table : List RouteEntry → ℕ → Option ℕ
find_in_table [] ch = none
find_in_table (entry ∷ table) ch =
    if in_range ch entry.range then some entry.index else find_in_table table ch

unfoldable pub find_worker_for_key : List RouteEntry → List ℕ → Option ℕ
unfolding find_in_table
find_worker_for_key table [] = none
find_worker_for_key table (ch ∷ key) = find_in_table table ch

-- The table that `build_route_table` describes from row `i` on: the ports are `SLAVE_CLIENT_PORTS`.
route_entries : List Range → ℕ → List RouteEntry
route_entries [] i = []
route_entries (r ∷ rs) i =
    record { index = i; port = 9000 + i; range = r } ∷ route_entries rs (i + 1)

unfoldable pub route_table : List RouteEntry
unfolding route_entries
route_table = route_entries worker_ranges 0

-- The filter of SCAN_ADDR: whether a key with the first byte `ch` belongs to the worker.
unfoldable pub scan_admits : Option ℕ → List ℕ → Bool
unfolding get_worker_range
scan_admits worker_id [] = Bool.true
scan_admits worker_id (ch ∷ key) = in_range ch (get_worker_range worker_id)
