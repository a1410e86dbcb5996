-- ===== src/Routing/Runs.antt =====
-- The partition at concrete keys.
use distributed_system_based.Base.{◌<◌, ◌≡◌, ◌==◌, refl, arith, [], ◌∷◌, some, none, false}
use distributed_system_based.Routing.{
  get_worker_for_key, find_worker_for_key, route_table, scan_admits,
}
use distributed_system_based.Routing.Agreement.{ascii_agreement, non_ascii_divergence}

plus_is_worker_one : get_worker_for_key (b'+' ∷ []) ≡ 1
unfolding get_worker_for_key
plus_is_worker_one = refl

client_finds_worker_two : find_worker_for_key route_table (b'a' ∷ b'b' ∷ []) ≡ some 2
unfolding find_worker_for_key route_table
client_finds_worker_two = refl

ascii_agreement_example :
    (get_worker_for_key (b'+' ∷ b'1' ∷ []) < 3)
    × (find_worker_for_key route_table (b'+' ∷ b'1' ∷ [])
        ≡ some (get_worker_for_key (b'+' ∷ b'1' ∷ [])))
    × (scan_admits (some 1) (b'+' ∷ b'1' ∷ []) ≡ (get_worker_for_key (b'+' ∷ b'1' ∷ []) == 1))
ascii_agreement_example = ascii_agreement b'+' 1 (b'1' ∷ []) (omega arith) (omega arith)

non_ascii_divergence_example :
    (get_worker_for_key (0xe4 ∷ []) ≡ 2)
    × (find_worker_for_key route_table (0xe4 ∷ []) ≡ none)
    × (scan_admits (some 2) (0xe4 ∷ []) ≡ false)
non_ascii_divergence_example = non_ascii_divergence 0xe4 2 [] (omega arith) (omega arith)
