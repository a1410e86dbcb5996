-- ===== src/Lsm/VersionEdit/Decode.antt =====
-- `DecodeFrom` of an edit.
use distributed_system_based.Base.{
  ℕ, zero, suc, List, [], ◌∷◌, ◌++◌, Option, none, some, Bool, if◌then◌else◌, ltb, ◌==◌, length,
}
use distributed_system_based.Coding.{◌>>=◌, get_varint32, get_varint64, get_length_prefixed_slice}
use distributed_system_based.Status.{Status, ok, error, corruption}
use distributed_system_based.Lsm.VersionEdit.{FileMetaData, VersionEdit, clear_edit}

-- What one case of the loop of `DecodeFrom` reads.
pub data Change : Type 0 where
  has_comparator has_vlog_info : List ℕ → Change
  has_log_number has_prev_log_number has_next_file_number : ℕ → Change
  has_last_sequence has_head_info : ℕ → Change
  has_tail_info : ℕ → ℕ → Change
  compact_pointer : ℕ → List ℕ → Change
  deleted_file : ℕ → ℕ → Change
  new_file : ℕ → FileMetaData → Change

-- `GetLevel`, for `kNumLevels` levels.
unfoldable pub get_level : List ℕ → Option (ℕ × List ℕ)
get_level input = do (v, rest) ← get_varint32 input; if ltb v 7 then some (v, rest) else none

nonempty_key : List ℕ → List ℕ → Option (List ℕ × List ℕ)
nonempty_key [] rest = none
nonempty_key (b ∷ key) rest = some (b ∷ key, rest)

-- `GetInternalKey`.
unfoldable pub get_internal_key : List ℕ → Option (List ℕ × List ℕ)
unfolding nonempty_key
get_internal_key input = do (str, rest) ← get_length_prefixed_slice input; nonempty_key str rest

unfoldable pub read_number : (ℕ → Change) → List ℕ → Option (Change × List ℕ)
read_number change input = do (n, rest) ← get_varint64 input; some (change n, rest)

unfoldable pub read_slice : (List ℕ → Change) → List ℕ → Option (Change × List ℕ)
read_slice change input = do (s, rest) ← get_length_prefixed_slice input; some (change s, rest)

unfoldable pub read_tail : List ℕ → Option (Change × List ℕ)
read_tail input = do
  (number, r1) ← get_varint64 input
  (tail, r2) ← get_varint64 r1
  some (has_tail_info number tail, r2)

unfoldable pub read_pointer : List ℕ → Option (Change × List ℕ)
read_pointer input = do
  (level, r1) ← get_level input
  (key, r2) ← get_internal_key r1
  some (compact_pointer level key, r2)

unfoldable pub read_deleted : List ℕ → Option (Change × List ℕ)
read_deleted input = do
  (level, r1) ← get_level input
  (number, r2) ← get_varint64 r1
  some (deleted_file level number, r2)

unfoldable pub read_new_file : List ℕ → Option (Change × List ℕ)
read_new_file input = do
  (level, r1) ← get_level input
  (number, r2) ← get_varint64 r1
  (size, r3) ← get_varint64 r2
  (smallest, r4) ← get_internal_key r3
  (largest, r5) ← get_internal_key r4
  some (
    new_file level
        (record { number = number; file_size = size; smallest = smallest; largest = largest }),
    r5,
  )

unfoldable pub read_change : ℕ → List ℕ → Option (Change × List ℕ)
read_change tag input =
    if tag == 1
    then read_slice has_comparator input
    else if tag == 2
    then read_number has_log_number input
    else if tag == 9
    then read_number has_prev_log_number input
    else if tag == 3
    then read_number has_next_file_number input
    else if tag == 4
    then read_number has_last_sequence input
    else if tag == 5
    then read_pointer input
    else if tag == 6
    then read_deleted input
    else if tag == 7
    then read_new_file input
    else if tag == 11
    then read_slice has_vlog_info input
    else if tag == 10
    then read_number has_head_info input
    else if tag == 12
    then read_tail input
    else none

-- `msg`, for the tag of a case that failed.
bad_field : ℕ → Status
bad_field tag =
    if tag == 1
    then error corruption "VersionEdit: comparator name"
    else if tag == 2
    then error corruption "VersionEdit: log number"
    else if tag == 9
    then error corruption "VersionEdit: previous log number"
    else if tag == 3
    then error corruption "VersionEdit: next file number"
    else if tag == 4
    then error corruption "VersionEdit: last sequence number"
    else if tag == 5
    then error corruption "VersionEdit: compaction pointer"
    else if tag == 6
    then error corruption "VersionEdit: deleted file"
    else if tag == 7
    then error corruption "VersionEdit: new-file entry"
    else if tag == 11
    then error corruption "VersionEdit: vlog info"
    else if tag == 10
    then error corruption "VersionEdit: head info"
    else if tag == 12
    then error corruption "VersionEdit: tail info"
    else error corruption "VersionEdit: unknown tag"

-- The order of pairs, and `insert` of their set.
abbrev pub pair_less : ℕ × ℕ → ℕ × ℕ → Bool
pair_less a b = if a.0 == b.0 then ltb a.1 b.1 else ltb a.0 b.0

unfoldable pub insert_pair : ℕ × ℕ → List (ℕ × ℕ) → List (ℕ × ℕ)
insert_pair p [] = p ∷ []
insert_pair p (q ∷ pairs) =
    let rest = insert_pair p pairs in
    if pair_less p q then p ∷ q ∷ pairs else if pair_less q p then q ∷ rest else q ∷ pairs

-- What the case does with it.
unfoldable pub apply_change : Change → VersionEdit → VersionEdit
apply_change (has_comparator s) e = record e { comparator = some s }
apply_change (has_vlog_info s) e = record e { vlog_info = some s }
apply_change (has_log_number n) e = record e { log_number = some n }
apply_change (has_prev_log_number n) e = record e { prev_log_number = some n }
apply_change (has_next_file_number n) e = record e { next_file_number = some n }
apply_change (has_last_sequence n) e = record e { last_sequence = some n }
apply_change (has_head_info n) e = record e { head_info = some n }
apply_change (has_tail_info number tail) e = record e { tail_info = some (number, tail) }
apply_change (compact_pointer level key) e = record e {
  compact_pointers = e.compact_pointers ++ ((level, key) ∷ []);
}
apply_change (deleted_file level number) e = record e {
  deleted_files = insert_pair (level, number) e.deleted_files;
}
apply_change (new_file level f) e = record e { new_files = e.new_files ++ ((level, f) ∷ []) }

-- The test behind the loop.
decode_end : List ℕ → VersionEdit → Status × VersionEdit
decode_end [] e = (ok, e)
decode_end (b ∷ input) e = (error corruption "VersionEdit: invalid tag", e)

-- The loop. A round takes a tag of at least one byte, so as many rounds as there are bytes are
-- enough. What a case that fails has put into the edit is left out: the status tells not to use it.
unfoldable pub decode_loop : ℕ → List ℕ → VersionEdit → Status × VersionEdit
unfolding bad_field decode_end
decode_loop zero input e = decode_end input e
decode_loop (suc fuel) input e = elim (get_varint32 input) [
  | none ↦ decode_end input e
  | some (tag, rest) ↦ elim (read_change tag rest) [
    | none ↦ (bad_field tag, e)
    | some (change, rest') ↦ decode_loop fuel rest' (apply_change change e)
  ]
]

-- `DecodeFrom`.
unfoldable pub decode_edit : VersionEdit → List ℕ → Status × VersionEdit
decode_edit e src = decode_loop (length src) src (clear_edit e)
