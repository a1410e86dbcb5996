-- ===== src/Routing/Agreement.antt =====
-- Every key has one worker, and the parts of the system agree on it for ASCII keys.
use distributed_system_based.Base.{
  ℕ, zero, suc, ◌≤◌, ◌<◌, ◌≡◌, ◌==◌, arith, List, ◌∷◌, none, some, false,
}
use distributed_system_based.Routing.{
  get_worker_for_key, find_worker_for_key, route_table, scan_admits,
}

-- A key whose first byte is ASCII goes to one of the three workers, the client finds the same
-- worker in its route table, and a scan admits the key at that worker and at no other.
pub ascii_agreement :
    (ch worker_id : ℕ) (key : List ℕ)
    → ch < 128
    → worker_id < 3
    → (get_worker_for_key (ch ∷ key) < 3)
      × (find_worker_for_key route_table (ch ∷ key) ≡ some (get_worker_for_key (ch ∷ key)))
      × (scan_admits (some worker_id) (ch ∷ key) ≡ (get_worker_for_key (ch ∷ key) == worker_id))
unfolding get_worker_for_key find_worker_for_key route_table scan_admits
ascii_agreement ch zero key h hw = (ground arith, ground arith, ground arith)
ascii_agreement ch (suc zero) key h hw = (ground arith, ground arith, ground arith)
ascii_agreement ch (suc (suc zero)) key h hw = (ground arith, ground arith, ground arith)
ascii_agreement ch (suc (suc (suc n))) key h hw = absurd (omega arith)

-- A key whose first byte is above 127 is the last worker's for the master, but a client finds no
-- worker for it, and a scan at any of the three workers leaves it out.
pub non_ascii_divergence :
    (ch worker_id : ℕ) (key : List ℕ)
    → 128 ≤ ch
    → worker_id < 3
    → (get_worker_for_key (ch ∷ key) ≡ 2)
      × (find_worker_for_key route_table (ch ∷ key) ≡ none)
      × (scan_admits (some worker_id) (ch ∷ key) ≡ false)
unfolding get_worker_for_key find_worker_for_key route_table scan_admits
non_ascii_divergence ch zero key h hw = (ground arith, ground arith, ground arith)
non_ascii_divergence ch (suc zero) key h hw = (ground arith, ground arith, ground arith)
non_ascii_divergence ch (suc (suc zero)) key h hw = (ground arith, ground arith, ground arith)
non_ascii_divergence ch (suc (suc (suc n))) key h hw = absurd (omega arith)
