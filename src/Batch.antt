-- ===== src/Batch.antt =====
-- db/write_batch.cc: a batch of updates as one string of bytes, with its sequence number, its count
-- and its records, and the two ways to go through it: with the values, and with the addresses that
-- the values have in a value log.
pub mod Contents
pub mod Addresses
mod Runs
use distributed_system_based.Base.{
  ℕ, zero, suc, ◌+◌, ◌-◌, ◌%◌, ◌^◌, List, [], ◌∷◌, ◌++◌, Option, none, some, Bool, true, false, ltb,
  ◌==◌, if◌then◌else◌, length, take, drop, replicate,
}
use distributed_system_based.Coding.{
  ◌>>=◌, encode_fixed32, encode_fixed64, decode_fixed32, decode_fixed64, put_length_prefixed_slice,
  get_length_prefixed_slice,
}
use distributed_system_based.Status.{Status, ok, error, corruption}
use distributed_system_based.Vlog.Manager.{encode_address}

-- `kHeader`.
abbrev pub batch_header : ℕ
batch_header = 12

-- What a handler is called with.
pub data Update : Type 0 where
  put : List ℕ → List ℕ → Update
  delete : List ℕ → Update

-- `Clear`: `rep_` of an empty batch.
abbrev pub cleared : List ℕ
cleared = replicate batch_header 0

-- `WriteBatchInternal::Count`; `none` if the bytes are not there.
unfoldable pub count : List ℕ → Option ℕ
count rep = decode_fixed32 (drop 8 rep)

unfoldable pub set_count : List ℕ → ℕ → List ℕ
set_count rep n = take 8 rep ++ (encode_fixed32 n ++ drop 12 rep)

unfoldable pub sequence : List ℕ → Option ℕ
sequence rep = decode_fixed64 rep

unfoldable pub set_sequence : List ℕ → ℕ → List ℕ
set_sequence rep seq = encode_fixed64 seq ++ drop 8 rep

-- `WriteBatch::Put`.
unfoldable pub batch_put : List ℕ → List ℕ → List ℕ → Option (List ℕ)
batch_put rep key value = do
  n ← count rep
  let tagged = set_count rep ((n + 1) % 2 ^ 32) ++ (1 ∷ [])
  some (put_length_prefixed_slice (put_length_prefixed_slice tagged key) value)

-- `WriteBatch::Delete`.
unfoldable pub batch_delete : List ℕ → List ℕ → Option (List ℕ)
batch_delete rep key = do
  n ← count rep
  let tagged = set_count rep ((n + 1) % 2 ^ 32) ++ (0 ∷ [])
  some (put_length_prefixed_slice tagged key)

-- `WriteBatchInternal::Append`.
unfoldable pub batch_append : List ℕ → List ℕ → Option (List ℕ)
batch_append dst src = do
  n ← count dst
  m ← count src
  some (set_count dst ((n + m) % 2 ^ 32) ++ drop batch_header src)

-- One record behind its tag, and what follows it.
put_record : Option (List ℕ × List ℕ) → Option (Update × List ℕ)
put_record none = none
put_record (some (key, r)) = do
  (value, rest) ← get_length_prefixed_slice r
  some (put key value, rest)

delete_record : Option (List ℕ × List ℕ) → Option (Update × List ℕ)
delete_record none = none
delete_record (some (key, rest)) = some (delete key, rest)

bad_text : ℕ → Status
bad_text tag =
    if tag == 1
    then error corruption "bad WriteBatch Put"
    else if tag == 0
    then error corruption "bad WriteBatch Delete"
    else error corruption "unknown WriteBatch tag"

unfoldable pub read_update : ℕ → List ℕ → Option (Update × List ℕ)
unfolding put_record delete_record
read_update tag input =
    if tag == 1
    then put_record (get_length_prefixed_slice input)
    else if tag == 0
    then delete_record (get_length_prefixed_slice input)
    else none

-- A value gives way to its address.
abbrev pub addressed : Update → List ℕ → Update
addressed (put key value) address = put key address
addressed (delete key) address = delete key

-- The count is looked at only if the loop came to its end.
wrong_count : Status → Status
wrong_count ok = error corruption "WriteBatch has wrong count"
wrong_count (error c msg) = error c msg

-- The calls of the handler, the number of records that were found, and the status. Each round takes a
-- byte, so as many rounds as there are bytes are enough.
pub record Iterated (C : Type 0) : Type 0 where
  pub calls : List C
  pub found : ℕ
  pub status : Status

abbrev pub stop : {C : Type 0} → ℕ → Status → Iterated C
stop found status = record { calls = []; found = found; status = status }

abbrev pub after_call : {C : Type 0} → C → Iterated C → Iterated C
after_call call r = record r { calls = call ∷ r.calls }

abbrev pub after_call_at : {C : Type 0} → C → Iterated C × ℕ → Iterated C × ℕ
after_call_at call (r, head) = (after_call call r, head)

-- The loop of `Iterate`.
unfoldable pub iterate_loop : ℕ → ℕ → List ℕ → Iterated Update
unfolding bad_text
iterate_loop fuel found [] = stop found ok
iterate_loop zero found (tag ∷ input) = stop found (error corruption "out of rounds")
iterate_loop (suc fuel) found (tag ∷ input) = elim (read_update tag input) [
  | none ↦ stop (found + 1) (bad_text tag)
  | some (update, rest) ↦ after_call update (iterate_loop fuel (found + 1) rest)
]

-- The loop of the other `Iterate`. A value is passed on as the address of its record, which goes
-- from `last_pos`, given by what follows it, to where the record ends. The number in the result is
-- what `*vlog_head` is in the end.
unfoldable pub addresses_loop : ℕ → ℕ → ℕ → List ℕ → ℕ → List ℕ → Iterated Update × ℕ
unfolding bad_text
addresses_loop fuel vlog_number found last_pos vlog_head [] = (stop found ok, vlog_head)
addresses_loop zero vlog_number found last_pos vlog_head (tag ∷ input) =
    (stop found (error corruption "out of rounds"), vlog_head)
addresses_loop (suc fuel) vlog_number found last_pos vlog_head (tag ∷ input) =
    elim (read_update tag input) [
      | none ↦ (stop (found + 1) (bad_text tag), vlog_head)
      | some (update, rest) ↦
          let size = length last_pos - length rest in
          after_call_at (addressed update (encode_address vlog_number vlog_head size))
            (addresses_loop fuel vlog_number (found + 1) rest (vlog_head + size) rest)
    ]

-- The test behind the loop.
counted : List ℕ → Iterated Update → Option (Iterated Update)
counted rep r = do
  n ← count rep
  some (if r.found == n then r else record r { status = wrong_count r.status })

counted_at : List ℕ → Iterated Update × ℕ → Option (Iterated Update × ℕ)
counted_at rep (r, head) = do counted_r ← counted rep r; some (counted_r, head)

too_small : Iterated Update
too_small = stop 0 (error corruption "malformed WriteBatch (too small)")

-- `Iterate(handler)`.
unfoldable pub iterate : List ℕ → Option (Iterated Update)
unfolding counted too_small wrong_count
iterate rep =
    if ltb (length rep) batch_header
    then some too_small
    else counted rep (iterate_loop (length rep) 0 (drop batch_header rep))

-- `Iterate(handler, vlog_number, &vlog_head)`, with the head that it leaves.
unfoldable pub iterate_addresses : ℕ → ℕ → List ℕ → Option (Iterated Update × ℕ)
unfolding counted counted_at too_small wrong_count
iterate_addresses vlog_number vlog_head rep =
    if ltb (length rep) batch_header
    then some (too_small, vlog_head)
    else counted_at rep (
        addresses_loop (length rep) vlog_number 0 (drop batch_header rep) (vlog_head + batch_header)
          (drop batch_header rep))
