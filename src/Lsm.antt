-- ===== src/Lsm.antt =====
-- db/dbformat.h, db/dbformat.cc and util/comparator.cc: the keys of the LSM-tree, made of the key of
-- the user, a sequence number and the type of the value, and their order.
pub mod Order
pub mod SkipList
pub mod MemTable
pub mod AddressStore
pub mod VersionEdit
mod Runs
use Prim.Native.Nat.{Ordering, compare}
use distributed_system_based.Base.{
  ℕ, ◌+◌, ◌-◌, ◌*◌, ◌/◌, ◌%◌, ◌^◌, List, [], ◌∷◌, ◌++◌, Option, none, some, Bool, true, false, ltb,
  leb, if◌then◌else◌, length, take, drop,
}
use distributed_system_based.Coding.{
  ◌>>=◌, put_fixed64, encode_fixed64, decode_fixed64, encode_varint32,
}

-- `ValueType`; any other byte in a stored key is its own number.
abbrev pub type_deletion : ℕ
type_deletion = 0

abbrev pub type_value : ℕ
type_value = 1

-- `kMaxSequenceNumber`.
abbrev pub max_sequence_number : ℕ
max_sequence_number = 2 ^ 56 - 1

-- `PackSequenceAndType`: the low eight bits of the shifted number are free, so `|` adds.
abbrev pub pack_sequence_and_type : ℕ → ℕ → ℕ
pack_sequence_and_type seq t = seq * 2 ^ 8 % 2 ^ 64 + t

-- `AppendInternalKey`.
unfoldable pub append_internal_key : List ℕ → List ℕ → ℕ → ℕ → List ℕ
append_internal_key result user_key seq t =
    put_fixed64 (result ++ user_key) (pack_sequence_and_type seq t)

-- `ExtractUserKey`; eight bytes are there.
unfoldable pub extract_user_key : List ℕ → List ℕ
extract_user_key internal_key = take (length internal_key - 8) internal_key

-- The number in the last eight bytes.
abbrev or_zero : Option ℕ → ℕ
or_zero none = 0
or_zero (some n) = n

unfoldable pub extract_tag : List ℕ → ℕ
extract_tag internal_key = or_zero (decode_fixed64 (drop (length internal_key - 8) internal_key))

pub record ParsedInternalKey : Type 0 where
  pub user_key : List ℕ
  pub sequence : ℕ
  pub type : ℕ

-- `ParseInternalKey`; `none` where it returns false.
unfoldable pub parse_internal_key : List ℕ → Option ParsedInternalKey
parse_internal_key internal_key =
    if ltb (length internal_key) 8
    then none
    else (let num = extract_tag internal_key in
        let result : ParsedInternalKey = record {
          user_key = extract_user_key internal_key;
          sequence = num / 2 ^ 8;
          type = num % 256;
        } in
        if leb (num % 256) type_value then some result else none)

-- `BytewiseComparator`: `Slice::compare`.
unfoldable pub compare_bytes : List ℕ → List ℕ → Ordering
compare_bytes [] [] = Ordering.eq
compare_bytes [] (y ∷ b) = Ordering.lt
compare_bytes (x ∷ a) [] = Ordering.gt
compare_bytes (x ∷ a) (y ∷ b) =
    let rest = compare_bytes a b in
    elim (compare x y) [
      | Ordering.lt ↦ Ordering.lt
      | Ordering.eq ↦ rest
      | Ordering.gt ↦ Ordering.gt
    ]

-- Rising by the key of the user, and then falling by the number.
abbrev pub compare_parts : List ℕ → ℕ → List ℕ → ℕ → Ordering
compare_parts akey anum bkey bnum = elim (compare_bytes akey bkey) [
  | Ordering.lt ↦ Ordering.lt
  | Ordering.eq ↦ compare bnum anum
  | Ordering.gt ↦ Ordering.gt
]

-- `InternalKeyComparator::Compare`.
unfoldable pub compare_internal : List ℕ → List ℕ → Ordering
compare_internal a b =
    compare_parts (extract_user_key a) (extract_tag a) (extract_user_key b) (extract_tag b)

-- `LookupKey`: the bytes from `start_` to `end_`.
unfoldable pub lookup_key : List ℕ → ℕ → List ℕ
lookup_key user_key seq =
    encode_varint32 ((length user_key + 8) % 2 ^ 32)
    ++ (user_key ++ encode_fixed64 (pack_sequence_and_type seq type_value))
