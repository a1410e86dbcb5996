-- ===== src/Client.antt =====
-- What a client and the master say to one another: `build_route_table` and `process_client_command`
-- of distributed/master.cc, and `parse_route_table` of distributed/client.cc.
pub mod RouteTable
pub mod Registration
mod Runs
use distributed_system_based.Base.{
  ℕ, ◌+◌, List, [], ◌∷◌, ◌++◌, Option, none, some, Bool, true, false, not, ◌||◌, ◌==◌,
  if◌then◌else◌, map, bytes_eq,
}
use distributed_system_based.Coding.{◌>>=◌}
use distributed_system_based.Text.{
  codes, trim, to_upper, to_string, extract_int, extract_word, split_at, lines, drop_return,
  starts_with,
}
use distributed_system_based.Routing
use distributed_system_based.Routing.{Range}

-- A row that the master writes: `SLAVE_CLIENT_PORTS`, the IPs and `WORKER_RANGES`.
pub record Row : Type 0 where
  pub index : ℕ
  pub ip : List ℕ
  pub port : ℕ
  pub range : Range

unfoldable pub table_line : Row → List ℕ
table_line row =
    to_string row.index
    ++ (codes " "
        ++ (row.ip
            ++ (codes ":"
                ++ (to_string row.port
                    ++ (codes " "
                        ++ (to_string row.range.range_start
                            ++ (codes "-" ++ (to_string row.range.range_end ++ codes "\r\n"))))))))

unfoldable pub table_lines : List Row → List ℕ
table_lines [] = codes "END\r\n"
table_lines (row ∷ rows) = table_line row ++ table_lines rows

-- `build_route_table`, for any rows.
unfoldable pub build_route_table : List Row → List ℕ
build_route_table rows =
    codes "ROUTETABLE\r\n" ++ (codes "INDEX | IP:PORT | RANGE\r\n" ++ table_lines rows)

-- The rows from number `i` on, one for each range.
unfoldable pub rows_from : List Range → ℕ → List Row
rows_from [] i = []
rows_from (range ∷ ranges) i =
    record { index = i; ip = codes "127.0.0.1"; port = 9000 + i; range = range }
    ∷ rows_from ranges (i + 1)

-- The rows of the three workers.
unfoldable pub worker_rows : List Row
worker_rows = rows_from Routing.worker_ranges 0

-- `RouteEntry` as it is parsed. `none` stands for a negative number.
pub record Parsed : Type 0 where
  pub index : Option ℕ
  pub ip : List ℕ
  pub port : Option ℕ
  pub range_start : Option ℕ
  pub range_end : Option ℕ

-- `trim` of distributed/client.cc, which knows four blanks.
abbrev pub is_blank : ℕ → Bool
is_blank c = c == 32 || (c == 9 || (c == 13 || c == 10))

unfoldable pub trim_front : List ℕ → List ℕ
trim_front [] = []
trim_front (c ∷ s) = if is_blank c then trim_front s else c ∷ s

after_back : ℕ → List ℕ → List ℕ
after_back c [] = if is_blank c then [] else c ∷ []
after_back c (d ∷ s) = c ∷ d ∷ s

unfoldable pub trim_back : List ℕ → List ℕ
unfolding after_back
trim_back [] = []
trim_back (c ∷ s) = after_back c (trim_back s)

unfoldable pub trim_line : List ℕ → List ℕ
trim_line s = trim_back (trim_front s)

-- A line that is skipped gives `some none`; `none` is an exception of `std::stoi`.
unfoldable pub parse_range :
    Option ℕ → List ℕ → Option ℕ → Option (List ℕ × List ℕ) → Option (Option Parsed)
parse_range index ip port none = some none
parse_range index ip port (some (low, high)) = do
  (range_start, r1) ← extract_int low
  (range_end, r2) ← extract_int high
  some (
      some (record {
        index = index;
        ip = ip;
        port = port;
        range_start = range_start;
        range_end = range_end;
      }))

unfoldable pub parse_ip_port : Option ℕ → Option (List ℕ × List ℕ) → List ℕ → Option (Option Parsed)
parse_ip_port index none range_str = some none
parse_ip_port index (some (ip, port_str)) range_str = do
  (port, r) ← extract_int port_str
  parse_range index ip port (split_at b'-' range_str)

unfoldable pub parse_words : Option (Option ℕ × List ℕ × List ℕ) → Option (Option Parsed)
parse_words none = some none
parse_words (some (index, ip_port, range_str)) =
    parse_ip_port index (split_at b':' ip_port) range_str

-- A line of the table: `line_iss >> index >> ip_port >> range_str` and what follows.
unfoldable pub parse_row : List ℕ → Option (Option Parsed)
parse_row line = parse_words (do
  (index, r1) ← extract_int line
  (ip_port, r2) ← extract_word r1
  (range_str, r3) ← extract_word r2
  some (index, ip_port, range_str))

add_row : Option Parsed → List Parsed → List Parsed
add_row none rows = rows
add_row (some row) rows = row ∷ rows

unfoldable pub parse_lines : Bool → List (List ℕ) → Option (List Parsed)
unfolding add_row
parse_lines in_table [] = some []
parse_lines in_table (raw ∷ more) =
    let line = trim_line (drop_return raw) in
    let entered = parse_lines true more in
    let skipped = parse_lines in_table more in
    let added = (do
      row ← parse_row line
      rest ← parse_lines in_table more
      some (add_row row rest)) in
    if bytes_eq line (codes "ROUTETABLE")
    then entered
    else if starts_with (codes "INDEX") line
    then skipped
    else if bytes_eq line (codes "END")
    then some []
    else if not in_table
    then skipped
    else added

abbrev is_filled : List Parsed → Bool
is_filled [] = false
is_filled (row ∷ rows) = true

-- `parse_route_table`: whether there is a row, and the rows.
unfoldable pub parse_route_table : List ℕ → Option (Bool × List Parsed)
parse_route_table response = do
  rows ← parse_lines false (lines response)
  some (is_filled rows, rows)

-- `g_client_ips.remove`.
unfoldable pub remove_all : List ℕ → List (List ℕ) → List (List ℕ)
remove_all ip [] = []
remove_all ip (other ∷ ips) =
    let rest = remove_all ip ips in if bytes_eq other ip then rest else other ∷ rest

-- `process_client_command`: the response, `g_client_ips`, and the database, which `compact_range`
-- compacts.
unfoldable pub process_client_command :
    {D : Type 0} → (D → D) → List (List ℕ) → D → List ℕ → List ℕ → List ℕ × List (List ℕ) × D
process_client_command compact_range client_ips db client_ip line =
    let cmd = map to_upper (trim line) in
    if bytes_eq cmd []
    then ([], client_ips, db)
    else if bytes_eq cmd (codes "HELLO")
    then (build_route_table worker_rows, client_ips ++ (client_ip ∷ []), db)
    else if bytes_eq cmd (codes "QUIT")
    then (codes "BYE\r\n", remove_all client_ip client_ips, db)
    else if bytes_eq cmd (codes "COMPACT")
    then (codes "COMPACT OK\r\n", client_ips, compact_range db)
    else (codes "ERROR: Unknown command. Use HELLO, QUIT or COMPACT\r\n", client_ips, db)
