-- ===== src/Slave/Dispatch.antt =====
-- distributed/slave.cc: `process_command`, the line of a client split and dispatched, with SCAN and
-- the manual collection.
pub mod Lines
pub mod Scan
pub mod ErrorKeys
pub mod Session
mod Runs
use distributed_system_based.Base.{
  ℕ, zero, suc, ◌+◌, List, [], ◌∷◌, ◌++◌, Option, none, some, Bool, true, false, ◌||◌, ltb, ◌==◌,
  if◌then◌else◌, drop, map, bytes_eq,
}
use distributed_system_based.Coding.{◌>>=◌}
use distributed_system_based.Crc.{Checksum}
use distributed_system_based.Text.{
  codes, trim, to_upper, extract_word, split_at, lines, drop_return, starts_with, contains,
}
use distributed_system_based.Vlog.{Fetched, found, bad}
use distributed_system_based.Vlog.Manager.{fetch_value_from_vlog}
use distributed_system_based.Master.{Address, encoded, extract_address, bytes_leb}
use distributed_system_based.Wire.{scan_request}
use distributed_system_based.Slave.{Slave}
use distributed_system_based.Slave.Threshold.{collect_gc_targets}
use distributed_system_based.Slave.Commands.{Node, put_value, get_value, delete_value}
use distributed_system_based.Slave.Files.{Collection, execute_gc_on_file}

abbrev is_empty : List ℕ → Bool
is_empty [] = true
is_empty (c ∷ s) = false

-- The two arguments of PUT and SCAN; `none` if one of them is missing.
unfoldable pub two_args : List ℕ → Option (List ℕ × List ℕ)
two_args arg = do
  (before, behind) ← split_at 32 arg
  let first = trim before
  let second = trim behind
  if is_empty first || is_empty second then none else some (first, second)

-- What `getline` leaves of the rest of the first line.
unfoldable pub rest_of_line : List ℕ → List ℕ
rest_of_line [] = []
rest_of_line (c ∷ s) = let rest = rest_of_line s in if c == 10 then [] else c ∷ rest

-- `scan_key`, and the address, of a line behind `KVPAIR_ADDR `.
unfoldable pub scan_pair : List ℕ → Option (List ℕ × Address)
scan_pair kv = do (key, r1) ← extract_word kv; (a, r2) ← extract_address r1; some (key, a)

scan_value : List ℕ → Fetched → List ℕ
scan_value key (found value) = codes "KVPAIR " ++ (key ++ (codes " " ++ (value ++ codes "\r\n")))
scan_value key (bad status) = []

scan_fetch : Slave → Option (List ℕ × Address) → Option (List ℕ)
scan_fetch s none = some []
scan_fetch s (some (key, a)) = do
  fetched ← fetch_value_from_vlog s.manager (encoded a)
  some (scan_value key fetched)

-- What one line of the master's response adds to the result; the line END adds nothing.
unfoldable pub scan_line_value : Slave → List ℕ → Option (List ℕ)
unfolding scan_value scan_fetch
scan_line_value s line =
    let resp_line = trim (drop_return line) in
    if starts_with (codes "KVPAIR_ADDR ") resp_line
    then scan_fetch s (scan_pair (drop 12 resp_line))
    else some []

unfoldable pub scan_values : Slave → List (List ℕ) → Option (List ℕ)
scan_values s [] = some (codes "END\r\n")
scan_values s (line ∷ more) = do
  text ← scan_line_value s line
  rest ← scan_values s more
  some (text ++ rest)

-- SCAN, from the response of the master on.
unfoldable pub answer_scan : Slave → List ℕ → Option (List ℕ)
answer_scan s response =
    if contains (codes "ERROR") response then some response else scan_values s (lines response)

module _ {M : Type 0} (send : M → List ℕ → List ℕ × M) (send_scan : M → List ℕ → List ℕ × M)
    (crc : Checksum) (worker_id : ℕ) where
  -- A text that answers a command and changes nothing.
  abbrev says : Node M → List ℕ → Option (List ℕ × Node M)
  says n text = some (text, n)

  scan_range : Node M → List ℕ → List ℕ → Option (List ℕ × Node M)
  scan_range n start_key end_key = do
    let (response, m) = send_scan n.master (scan_request start_key end_key worker_id)
    text ← answer_scan n.slave response
    some (text, record n { master = m })

  put_command : Node M → Option (List ℕ × List ℕ) → Option (List ℕ × Node M)
  put_command n none = says n (codes "ERROR: PUT requires key and value\r\n")
  put_command n (some (key, value)) = put_value send crc n key value

  get_command : Node M → List ℕ → Option (List ℕ × Node M)
  get_command n [] = says n (codes "ERROR: GET requires a key\r\n")
  get_command n (c ∷ key) = get_value send crc n (c ∷ key)

  delete_command : Node M → List ℕ → Option (List ℕ × Node M)
  delete_command n [] = says n (codes "ERROR: DELETE requires a key\r\n")
  delete_command n (c ∷ key) = some (delete_value send crc n (c ∷ key))

  scan_command : Node M → Option (List ℕ × List ℕ) → Option (List ℕ × Node M)
  scan_command n none = says n (codes "ERROR: SCAN requires start_key and end_key\r\n")
  scan_command n (some (start_key, end_key)) =
      if bytes_leb start_key end_key
      then scan_range n start_key end_key
      else says n (codes "ERROR: SCAN first_key must be <= last_key\r\n")

  -- The oldest of the logs that are not written to is collected; `fuel` and `faults` are those of
  -- its reading, and `stops` the state of the connection to the master.
  gc_targets : ℕ → List Bool → List Bool → Node M → List ℕ → Option (List ℕ × Node M)
  gc_targets fuel faults stops n [] = says n (codes "GC DENY\r\n")
  gc_targets fuel faults stops n (target ∷ targets) = do
    c ← execute_gc_on_file send crc target fuel faults stops n
    some (codes "GC OK\r\n", c.node)

  -- GC; `vlog_files` is what `scan_vlog_files` finds.
  gc_command : ℕ → List Bool → List Bool → List ℕ → Node M → Option (List ℕ × Node M)
  gc_command fuel faults stops [] n = says n (codes "GC OK (no vlog files)\r\n")
  gc_command fuel faults stops (num ∷ vlog_files) n =
      gc_targets fuel faults stops n (collect_gc_targets n.slave.vlog_number (num ∷ vlog_files))

  module _ (fuel : ℕ) (faults stops : List Bool) (vlog_files : List ℕ) where
    unfoldable pub run_command : Node M → List ℕ → List ℕ → Option (List ℕ × Node M)
    unfolding scan_range put_command get_command delete_command scan_command gc_targets gc_command
    run_command n cmd arg =
        if bytes_eq cmd (codes "PUT")
        then put_command n (two_args arg)
        else if bytes_eq cmd (codes "GET")
        then get_command n arg
        else if bytes_eq cmd (codes "DELETE")
        then delete_command n arg
        else if bytes_eq cmd (codes "SCAN")
        then scan_command n (two_args arg)
        else if bytes_eq cmd (codes "GC")
        then gc_command fuel faults stops vlog_files n
        else says n (codes "ERROR unknown command\r\n")

    run_words : Node M → Option (List ℕ × List ℕ) → Option (List ℕ × Node M)
    run_words n none = says n []
    run_words n (some (cmd, rest)) = run_command n (map to_upper cmd) (trim (rest_of_line rest))

    -- `process_command`. A line of blanks has no response.
    unfoldable pub process_command : Node M → List ℕ → Option (List ℕ × Node M)
    unfolding run_words
    process_command n line = run_words n (extract_word (trim line))
