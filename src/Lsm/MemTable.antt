-- ===== src/Lsm/MemTable.antt =====
-- db/memtable.cc: the memtable, a skip list of encoded entries.
pub mod Entries
pub mod Newest
pub mod Inserts
pub mod Latest
use distributed_system_based.Base.{
  ℕ, ◌+◌, ◌%◌, ◌^◌, List, [], ◌∷◌, ◌++◌, Option, none, some, Bool, true, false, ◌==◌, if◌then◌else◌,
  length,
}
use distributed_system_based.Coding.{
  ◌>>=◌, encode_fixed64, encode_varint32, get_length_prefixed_slice,
}
use distributed_system_based.Master.Database.{Answer, hit, miss}
use distributed_system_based.Lsm.{
  pack_sequence_and_type, extract_user_key, extract_tag, compare_bytes, compare_internal,
  lookup_key, type_value, type_deletion,
}
use distributed_system_based.Lsm.Order.{is_before, is_equal}
use distributed_system_based.Lsm.SkipList.{Node, skip_insert, find_greater_or_equal}

-- The bytes that `Add` allocates and fills.
unfoldable pub memtable_entry : ℕ → ℕ → List ℕ → List ℕ → List ℕ
memtable_entry seq t key value =
    encode_varint32 ((length key + 8) % 2 ^ 32)
    ++ (key
        ++ (encode_fixed64 (pack_sequence_and_type seq t)
            ++ (encode_varint32 (length value % 2 ^ 32) ++ value)))

-- `GetLengthPrefixedSlice` of an entry, which is there.
slice_of : Option (List ℕ × List ℕ) → List ℕ
slice_of none = []
slice_of (some (slice, rest)) = slice

unfoldable pub entry_key : List ℕ → List ℕ
unfolding slice_of
entry_key entry = slice_of (get_length_prefixed_slice entry)

-- `KeyComparator`.
unfoldable pub entry_is_less : List ℕ → List ℕ → Bool
entry_is_less a b = is_before (compare_internal (entry_key a) (entry_key b))

abbrev pub Table : Type 0
Table = List (Node (List ℕ))

-- `MemTable::Add`; `height` is what `RandomHeight` returns.
unfoldable pub mem_add : Table → ℕ → ℕ → ℕ → List ℕ → List ℕ → Table
mem_add table height seq t key value =
    skip_insert entry_is_less (memtable_entry seq t key value) height table

value_answer : Option (List ℕ × List ℕ) → Option Answer
value_answer none = none
value_answer (some (value, rest)) = some (hit value)

-- The answer by the type of the entry; another byte is no type.
typed_answer : ℕ → Option (List ℕ × List ℕ) → Option Answer
typed_answer t value =
    if t == type_value then value_answer value else if t == type_deletion then some miss else none

answer_parts : List ℕ → Option (List ℕ × List ℕ) → Option Answer
answer_parts user_key none = none
answer_parts user_key (some (internal_key, rest)) =
    if is_equal (compare_bytes (extract_user_key internal_key) user_key)
    then typed_answer (extract_tag internal_key % 256) (get_length_prefixed_slice rest)
    else none

-- What `Get` takes from the entry at which the iterator stands.
unfoldable pub entry_answer : List ℕ → List ℕ → Option Answer
unfolding value_answer typed_answer answer_parts
entry_answer user_key entry = answer_parts user_key (get_length_prefixed_slice entry)

first_answer : List ℕ → Table → Option Answer
first_answer user_key [] = none
first_answer user_key (n ∷ nodes) = entry_answer user_key n.key

-- `MemTable::Get`; `none` if the table has nothing for the key.
unfoldable pub mem_get : Table → List ℕ → ℕ → Option Answer
unfolding first_answer
mem_get table user_key seq =
    first_answer user_key (find_greater_or_equal entry_is_less (lookup_key user_key seq) table)
