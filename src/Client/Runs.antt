-- ===== src/Client/Runs.antt =====
-- A client that asks for the route table.
use distributed_system_based.Base.{ℕ, ◌≡◌, refl, arith, List, [], ◌∷◌, some, true, map}
use distributed_system_based.Text.{codes, trim, trim_start, trim_end}
use distributed_system_based.Client.{
  Row, build_route_table, worker_rows, parse_route_table, process_client_command,
}
use distributed_system_based.Client.RouteTable.{IsRow, parsed, parse_route_table-build_route_table}
use distributed_system_based.Client.Registration.{process_client_command-hello-quit}

far_row : Row
far_row = record {
  index = 7;
  ip = codes "10.0.0.1";
  port = 9100;
  range = record { range_start = 0; range_end = 127 };
}

far_row-IsRow : IsRow far_row
unfolding far_row
far_row-IsRow = record {
  ip_word = (_, _, refl, ground arith);
  no_colon = ground arith;
  index_fits = omega arith;
  port_fits = omega arith;
  start_fits = omega arith;
  end_fits = omega arith;
}

parse_route_table-build_route_table_example :
    parse_route_table (build_route_table (far_row ∷ [])) ≡ some (true, map parsed (far_row ∷ []))
parse_route_table-build_route_table_example =
    parse_route_table-build_route_table far_row [] (far_row-IsRow, tt)

process_client_command-hello-quit_example :
    (response : List ℕ) × (process_client_command
        (λ (n : ℕ). n)
        (codes "10.0.0.2" ∷ [])
        3
        (codes "10.0.0.1")
        (codes " hello")
      ≡ (response, codes "10.0.0.2" ∷ codes "10.0.0.1" ∷ [], 3))
    × (parse_route_table response ≡ some (true, map parsed worker_rows))
    × (process_client_command
          (λ (n : ℕ). n)
          (codes "10.0.0.2" ∷ codes "10.0.0.1" ∷ [])
          3
          (codes "10.0.0.1")
          (codes "quit")
        ≡ (codes "BYE\r\n", codes "10.0.0.2" ∷ [], 3))
unfolding trim trim_start trim_end
process_client_command-hello-quit_example =
    process_client_command-hello-quit (λ (n : ℕ). n) (codes "10.0.0.2" ∷ []) 3 (codes "10.0.0.1")
      (codes " hello") (codes "quit") refl refl (ground arith)
