-- ===== src/Client/Registration.antt =====
-- HELLO and QUIT of distributed/master.cc.
use distributed_system_based.Base.{
  ℕ, ◌+◌, ◌<◌, ◌≡◌, ◌≢◌, ap, refl, arith, List, [], ◌∷◌, ◌++◌, some, true, false, All, map,
  bytes_eq, bytes_eq_refl, bytes_eq_sound, Bool-cases, inl, inr,
}
use distributed_system_based.Text.{codes, trim, to_upper}
use distributed_system_based.Client.{
  build_route_table, rows_from, worker_rows, parse_route_table, remove_all, process_client_command,
}
use distributed_system_based.Client.RouteTable.{IsRow, parsed, parse_route_table-build_route_table}

home-IsRow :
    (i start end_ : ℕ)
    → (i < 3)
    → (start < 128)
    → (end_ < 128)
    → IsRow (record {
      index = i;
      ip = codes "127.0.0.1";
      port = 9000 + i;
      range = record { range_start = start; range_end = end_ };
    })
home-IsRow i start end_ hi hs he = record {
  ip_word = (_, _, refl, ground arith);
  no_colon = ground arith;
  index_fits = omega arith;
  port_fits = omega arith;
  start_fits = omega arith;
  end_fits = omega arith;
}

parse_worker_rows :
    parse_route_table (build_route_table worker_rows) ≡ some (true, map parsed worker_rows)
unfolding worker_rows rows_from
parse_worker_rows = parse_route_table-build_route_table _ _ (
  home-IsRow 0 0 42 (omega arith) (omega arith) (omega arith),
  (
    home-IsRow 1 43 85 (omega arith) (omega arith) (omega arith),
    (home-IsRow 2 86 127 (omega arith) (omega arith) (omega arith), tt),
  ),
)

bytes_eq_ne : (a b : List ℕ) → a ≢ b → bytes_eq a b ≡ false
bytes_eq_ne a b ne = elim (Bool-cases (bytes_eq a b)) [
  | inl e ↦ absurd (ne (bytes_eq_sound a b e))
  | inr e ↦ e
]

remove_all-append :
    (ip : List ℕ) (ips : List (List ℕ))
    → All (λ other. other ≢ ip) ips
    → remove_all ip (ips ++ (ip ∷ [])) ≡ ips
unfolding remove_all
remove_all-append ip [] h = rw (bytes_eq_refl ip) refl
remove_all-append ip (other ∷ ips) (ne, h) =
    rw (bytes_eq_ne other ip ne) (ap (λ l. other ∷ l) (remove_all-append ip ips h))

module _ {D : Type 0} (compact_range : D → D) (client_ips : List (List ℕ)) (db : D)
    (client_ip : List ℕ) (hello quit : List ℕ) where
  -- A client whose IP is not registered sends HELLO, in any case and with blanks around it. Its IP is
  -- registered behind the others, and it parses the response into the rows of the three workers. If
  -- the client sends QUIT next, it is answered by BYE and the registered IPs are those from before.
  -- Neither command changes the database.
  pub process_client_command-hello-quit :
      map to_upper (trim hello) ≡ codes "HELLO"
      → map to_upper (trim quit) ≡ codes "QUIT"
      → All (λ other. other ≢ client_ip) client_ips
      → (response : List ℕ) × (process_client_command compact_range client_ips db client_ip hello
          ≡ (response, client_ips ++ (client_ip ∷ []), db))
        × (parse_route_table response ≡ some (true, map parsed worker_rows))
        × (process_client_command compact_range (client_ips ++ (client_ip ∷ [])) db client_ip quit
            ≡ (codes "BYE\r\n", client_ips, db))
  unfolding process_client_command bytes_eq
  process_client_command-hello-quit eh eq h = (
    build_route_table worker_rows,
    rw eh refl,
    parse_worker_rows,
    rw eq (rw (remove_all-append client_ip client_ips h) refl),
  )
