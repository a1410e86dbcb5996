-- ===== src/Master.antt =====
-- distributed/master.cc: the metadata server. It keeps the address of each key's value in an
-- LSM-tree and serves the internal protocol of the workers, one line for each request.
pub mod Database
pub mod Commands
mod Runs
use distributed_system_based.Base.{
  ℕ, List, [], ◌∷◌, ◌++◌, Option, none, some, Bool, true, false, not, ◌||◌, ◌&&◌, ◌==◌, ltb,
  if◌then◌else◌, map, bytes_eq, ◌≡◌, refl,
}
use distributed_system_based.Coding.{◌>>=◌, get_varint64}
use distributed_system_based.Status.{Status, ok, error}
use distributed_system_based.Text.{
  codes, trim, to_upper, extract_word, extract_u64, extract_int, to_string,
}
use distributed_system_based.Vlog.Manager.{encode_address}
use distributed_system_based.Routing.{scan_admits}
use Database.{AddressDb, Answer, hit, miss, broken}

-- Where a value stands: the number of a value log, the offset and the size.
pub record Address : Type 0 where
  pub vlog_numb : ℕ
  pub offset : ℕ
  pub size : ℕ

-- The three `GetVarint64` calls that take an address apart.
unfoldable pub decode_address : List ℕ → Option Address
decode_address addr = do
  (vlog_numb, r1) ← get_varint64 addr
  (offset, r2) ← get_varint64 r1
  (size, r3) ← get_varint64 r2
  some (record { vlog_numb = vlog_numb; offset = offset; size = size })

abbrev pub encoded : Address → List ℕ
encoded a = encode_address a.vlog_numb a.offset a.size

-- `iss >> vlog_numb >> offset >> size`.
unfoldable pub extract_address : List ℕ → Option (Address × List ℕ)
extract_address s = do
  (vlog_numb, r1) ← extract_u64 s
  (offset, r2) ← extract_u64 r1
  (size, r3) ← extract_u64 r2
  some (record { vlog_numb = vlog_numb; offset = offset; size = size }, r3)

-- An address as the protocol writes it, three numbers with blanks between them.
unfoldable pub show_address : Address → List ℕ
show_address a =
    to_string a.vlog_numb ++ (codes " " ++ (to_string a.offset ++ (codes " " ++ to_string a.size)))

-- The comparison of UPDATE_ADDR, by all three fields.
abbrev pub same_address : Address → Address → Bool
same_address a b = a.vlog_numb == b.vlog_numb && (a.offset == b.offset && a.size == b.size)

abbrev pub put_format_error : List ℕ
put_format_error = codes "ERROR: PUT_ADDR format: PUT_ADDR <key> <vlog_numb> <offset> <size>\r\n"

abbrev pub update_format_error : List ℕ
update_format_error =
    codes
      "ERROR: UPDATE_ADDR format: UPDATE_ADDR <key> <old_vlog> <old_off> <old_sz> <new_vlog> <new_off> <new_sz>\r\n"

abbrev pub scan_format_error : List ℕ
scan_format_error = codes "ERROR: SCAN_ADDR format: SCAN_ADDR <start_key> <end_key> <worker_id>\r\n"

-- `key <= end_key` of std::string.
unfoldable pub bytes_leb : List ℕ → List ℕ → Bool
bytes_leb [] b = true
bytes_leb (x ∷ a) [] = false
bytes_leb (x ∷ a) (y ∷ b) = if ltb x y then true else x == y && bytes_leb a b

-- The line of one key in the answer to SCAN_ADDR.
unfoldable pub scan_line : List ℕ → Address → List ℕ
unfolding show_address
scan_line key a = codes "KVPAIR_ADDR " ++ (key ++ (codes " " ++ (show_address a ++ codes "\r\n")))

scan_entry : Option ℕ → List ℕ → Option Address → List ℕ
scan_entry worker_id key none = []
scan_entry worker_id key (some a) = if scan_admits worker_id key then scan_line key a else []

-- The loop of SCAN_ADDR: it ends behind `end_key`, and skips the keys of other workers and the
-- entries that do not decode.
unfoldable pub scan_loop : Option ℕ → List ℕ → List (List ℕ × List ℕ) → List ℕ
unfolding scan_entry
scan_loop worker_id end_key [] = []
scan_loop worker_id end_key ((key, addr) ∷ entries) =
    let rest = scan_loop worker_id end_key entries in
    if bytes_leb key end_key then scan_entry worker_id key (decode_address addr) ++ rest else []

-- The arguments of the commands.
unfoldable pub put_args : List ℕ → Option (List ℕ × Address)
put_args args = do (key, r1) ← extract_word args; (a, r2) ← extract_address r1; some (key, a)

unfoldable pub update_args : List ℕ → Option (List ℕ × Address × Address)
update_args args = do
  (key, r1) ← extract_word args
  (old, r2) ← extract_address r1
  (new, r3) ← extract_address r2
  some (key, old, new)

unfoldable pub scan_args : List ℕ → Option (List ℕ × List ℕ × Option ℕ)
scan_args args = do
  (start_key, r1) ← extract_word args
  (end_key, r2) ← extract_word r1
  (worker_id, r3) ← extract_int r2
  some (start_key, end_key, worker_id)

unfoldable differs : Option Address → Address → Bool
differs none old = false
differs (some cur) old = not (same_address cur old)

-- Phase 1 of UPDATE_ADDR: whether the key has another address than `old` now. A key that is not
-- there, and an address that does not decode, pass.
unfoldable pub address_changed : Answer → Address → Bool
unfolding differs
address_changed (hit addr) old = differs (decode_address addr) old
address_changed _ old = false

module _ (db : AddressDb) where
  open db use {State, put_address, get_address, delete_key, entries_from}

  -- The response, and the database after the command.
  abbrev pub Reply : Type 0
  Reply = List ℕ × State

  unfoldable pub outcome : Status → List ℕ → List ℕ → List ℕ
  outcome ok yes_text no_text = yes_text
  outcome (error c msg) yes_text no_text = no_text

  unfoldable put_reply : Status × State → List ℕ → List ℕ → Reply
  put_reply r yes_text no_text = (outcome r.0 yes_text no_text, r.1)

  -- PUT_ADDR.
  unfoldable pub put_addr : State → Option (List ℕ × Address) → Reply
  unfolding put_reply outcome
  put_addr s none = (put_format_error, s)
  put_addr s (some (key, a)) =
      put_reply (put_address s key (encoded a)) (codes "STORED\r\n")
        (codes "ERROR: PutAddress failed\r\n")

  addr_reply : Option Address → List ℕ
  addr_reply none = codes "ERROR: Corrupted address in LSM-Tree\r\n"
  addr_reply (some a) = codes "ADDR " ++ (show_address a ++ codes "\r\n")

  get_reply : Answer → List ℕ
  get_reply (hit addr) = addr_reply (decode_address addr)
  get_reply miss = codes "NOT_FOUND\r\n"
  get_reply (broken s) = codes "ERROR: GetAddress failed\r\n"

  -- GET_ADDR and GCGET_ADDR, which differ in what they log.
  unfoldable pub get_addr : State → Option (List ℕ × List ℕ) → Reply
  unfolding get_reply addr_reply
  get_addr s none = (codes "ERROR: GET_ADDR format: GET_ADDR <key>\r\n", s)
  get_addr s (some (key, rest)) = (get_reply (get_address s key), s)

  -- DELETE_ADDR.
  unfoldable pub delete_addr : State → Option (List ℕ × List ℕ) → Reply
  unfolding put_reply outcome
  delete_addr s none = (codes "ERROR: DELETE_ADDR format: DELETE_ADDR <key>\r\n", s)
  delete_addr s (some (key, rest)) =
      put_reply (delete_key s key) (codes "DELETED\r\n") (codes "ERROR: DeleteKey failed\r\n")

  -- UPDATE_ADDR.
  unfoldable pub update_addr : State → Option (List ℕ × Address × Address) → Reply
  unfolding put_reply outcome
  update_addr s none = (update_format_error, s)
  update_addr s (some (key, old, new)) =
      if address_changed (get_address s key) old
      then (codes "ERROR: Address changed, CAS failed\r\n", s)
      else put_reply (put_address s key (encoded new)) (codes "UPDATED\r\n")
          (codes "ERROR: UpdateAddress failed\r\n")

  scan_reply : List (List ℕ × List ℕ) × Status → Option ℕ → List ℕ → List ℕ
  scan_reply (entries, ok) worker_id end_key =
      scan_loop worker_id end_key entries ++ codes "END\r\n"
  scan_reply (entries, error c msg) worker_id end_key = codes "ERROR: Scan iterator failed\r\n"

  -- SCAN_ADDR.
  unfoldable pub scan_addr : State → Option (List ℕ × List ℕ × Option ℕ) → Reply
  unfolding scan_reply
  scan_addr s none = (scan_format_error, s)
  scan_addr s (some (start_key, end_key, worker_id)) =
      (scan_reply (entries_from s start_key) worker_id end_key, s)

  unfoldable pub dispatch : State → List ℕ → List ℕ → Reply
  unfolding put_addr get_addr delete_addr update_addr scan_addr
  dispatch s cmd args =
      if bytes_eq cmd (codes "PUT_ADDR")
      then put_addr s (put_args args)
      else if bytes_eq cmd (codes "GET_ADDR") || bytes_eq cmd (codes "GCGET_ADDR")
      then get_addr s (extract_word args)
      else if bytes_eq cmd (codes "DELETE_ADDR")
      then delete_addr s (extract_word args)
      else if bytes_eq cmd (codes "SCAN_ADDR")
      then scan_addr s (scan_args args)
      else if bytes_eq cmd (codes "UPDATE_ADDR")
      then update_addr s (update_args args)
      else (codes "ERROR: Unknown internal command\r\n", s)

  dispatch_words : State → Option (List ℕ × List ℕ) → Reply
  dispatch_words s none = ([], s)
  dispatch_words s (some (cmd, args)) = dispatch s (map to_upper cmd) args

  -- `process_worker_command`. A line of blanks has no response.
  unfoldable pub process_worker_command : State → List ℕ → Reply
  unfolding dispatch_words
  process_worker_command s line = dispatch_words s (extract_word (trim line))
