-- ===== src/Slave/Commands.antt =====
-- distributed/slave.cc: what `process_command` does for PUT, GET and DELETE, and what the collector
-- of garbage does with one record. The master is reached by `send`, which takes a line and returns
-- the response.
pub mod Replies
pub mod Values
pub mod Places
pub mod Collector
pub mod EndToEnd
mod Runs
use distributed_system_based.Base.{
  ℕ, ◌+◌, List, [], ◌∷◌, ◌++◌, Option, none, some, Bool, true, false, not, ◌&&◌, ◌||◌, ◌==◌,
  if◌then◌else◌, drop, length,
}
use distributed_system_based.Coding.{◌>>=◌}
use distributed_system_based.Status.{Status}
use distributed_system_based.Crc.{Checksum}
use distributed_system_based.Text.{codes, trim, starts_with, contains}
use distributed_system_based.Vlog.{Fetched, found, bad}
use distributed_system_based.Vlog.Entry.{parse_vlog_key_value}
use distributed_system_based.Vlog.Manager.{fetch_value_from_vlog}
use distributed_system_based.Master.{
  Address, decode_address, encoded, extract_address, same_address,
}
use distributed_system_based.Wire.{
  put_request, get_request, gc_get_request, delete_request, update_request,
}
use distributed_system_based.Slave.{Slave, write_value_to_vlog}

address_of : Option (Address × List ℕ) → Option Address
address_of none = none
address_of (some (a, rest)) = some a

-- The address in a response that begins with `ADDR `.
unfoldable pub reply_address : List ℕ → Option Address
unfolding address_of
reply_address response = address_of (extract_address (drop 5 (trim response)))

-- A worker, and the master as it sees it.
pub record Node (M : Type 0) : Type 0 where
  pub slave : Slave
  pub master : M

module _ {M : Type 0} (send : M → List ℕ → List ℕ × M) (crc : Checksum) where
  abbrev node : Slave → M → Node M
  node s m = record { slave = s; master = m }

  -- Steps 2 to 4 of PUT. The address was made by `encode_address`, so it decodes.
  unfoldable register : Node M → List ℕ → List ℕ → Option (List ℕ × Node M)
  register n key [] = some (codes "ERROR: Vlog write failed\r\n", n)
  register n key (b ∷ addr) = do
    a ← decode_address (b ∷ addr)
    let (response, m) = send n.master (put_request key a)
    some (
      (if contains (codes "STORED") response
          then codes "STORED\r\n"
          else codes "ERROR: Master PUT_ADDR failed\r\n"),
      node n.slave m,
    )

  -- PUT, with a key and a value that are not empty. The file of `save_vlog_meta` is left out.
  unfoldable pub put_value : Node M → List ℕ → List ℕ → Option (List ℕ × Node M)
  unfolding register
  put_value n key value = do
    (addr, s) ← write_value_to_vlog crc n.slave key value
    register (node s n.master) key addr

  value_reply : Fetched → List ℕ
  value_reply (found value) = codes "VALUE " ++ (value ++ codes "\r\n")
  value_reply (bad status) = codes "ERROR: Vlog read failed\r\n"

  read_value : Slave → Option Address → Option (List ℕ)
  read_value s none = some (codes "ERROR: Invalid address from master\r\n")
  read_value s (some a) = do
    fetched ← fetch_value_from_vlog s.manager (encoded a)
    some (value_reply fetched)

  -- GET, from the response of the master on.
  unfoldable pub answer_get : Slave → List ℕ → Option (List ℕ)
  unfolding read_value value_reply
  answer_get s response =
      if contains (codes "NOT_FOUND") response
      then some (codes "NOT_FOUND\r\n")
      else if contains (codes "ERROR") response
      then some response
      else if starts_with (codes "ADDR ") (trim response)
      then read_value s (reply_address response)
      else some (codes "ERROR: Unexpected master response\r\n")

  -- GET, with a key that is not empty.
  unfoldable pub get_value : Node M → List ℕ → Option (List ℕ × Node M)
  get_value n key = do
    let (response, m) = send n.master (get_request key)
    text ← answer_get n.slave response
    some (text, node n.slave m)

  -- DELETE, with a key that is not empty.
  unfoldable pub delete_value : Node M → List ℕ → List ℕ × Node M
  delete_value n key =
      let (response, m) = send n.master (delete_request key) in
      (
        (if contains (codes "DELETED") response
            then codes "DELETED\r\n"
            else if contains (codes "NOT_FOUND") response
            then codes "NOT_FOUND\r\n"
            else codes "ERROR: Master DELETE_ADDR failed\r\n"),
        node n.slave m,
      )

  -- The end of a move: the master is asked to replace the address.
  unfoldable replace_address : Node M → List ℕ → Address → List ℕ → Option (Bool × Node M)
  replace_address n key old [] = some (false, n)
  replace_address n key old (b ∷ addr) = do
    new ← decode_address (b ∷ addr)
    let (response, m) = send n.master (update_request key old new)
    some (contains (codes "UPDATED") response, node n.slave m)

  -- A record is valid where the master has just this address for its key.
  unfoldable is_valid : Address → Option Address → Bool
  is_valid this none = false
  is_valid this (some current) = same_address current this

  unfoldable move_entry : Node M → Address → List ℕ → List ℕ → Option (Bool × Node M)
  move_entry n this key value = do
    (addr, s) ← write_value_to_vlog crc n.slave key value
    replace_address (node s n.master) key this addr

  unfoldable gc_entry : Node M → Address → Option (List ℕ × List ℕ) → Option (Bool × Node M)
  gc_entry n this none = some (false, n)
  gc_entry n this (some (key, value)) =
      let (response, m) = send n.master (gc_get_request key) in
      if starts_with (codes "ADDR ") response && is_valid this (reply_address response)
      then move_entry (node n.slave m) this key value
      else some (false, node n.slave m)

  -- The body of the loop of `execute_gc_on_file`, for a record that stands at the address `this`:
  -- whether it counts as moved, and the state after it.
  unfoldable pub gc_record : Node M → Address → List ℕ → Option (Bool × Node M)
  unfolding replace_address is_valid move_entry gc_entry
  gc_record n this raw_data = gc_entry n this (parse_vlog_key_value raw_data)
