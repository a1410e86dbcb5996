-- ===== src/Vlog/Entry.antt =====
-- The payload of a value-log record as distributed/slave.cc writes and reads it, and its agreement
-- with `Parse` of db/vlog_fetcher.cc.
use distributed_system_based.Base.{
  ℕ, ◌+◌, ◌≤◌, ◌<◌, ◌≡◌, ◌∙◌, ap, arith, List, [], ◌∷◌, ◌++◌, Option, none, some, ◌==◌,
  if◌then◌else◌, length, append-nil, length-append,
}
use distributed_system_based.Coding.{IsU32, put_length_prefixed_slice, get_length_prefixed_slice}
use distributed_system_based.Coding.Slices.{
  length_prefixed, length-length_prefixed, put_length_prefixed_slice_lem, get-length_prefixed,
}
use distributed_system_based.Vlog.{parse, found}

-- `encode_vlog_entry`: the tag `kTypeValue`, then the key and the value with their lengths.
unfoldable pub encode_vlog_entry : List ℕ → List ℕ → List ℕ
encode_vlog_entry key value =
    put_length_prefixed_slice (put_length_prefixed_slice (1 ∷ []) key) value

second_slice : List ℕ → Option (List ℕ × List ℕ) → Option (List ℕ × List ℕ)
second_slice k none = none
second_slice k (some (v, rest)) = some (k, v)

both_slices : Option (List ℕ × List ℕ) → Option (List ℕ × List ℕ)
both_slices none = none
both_slices (some (k, rest)) = second_slice k (get_length_prefixed_slice rest)

-- `parse_vlog_key_value`.
unfoldable pub parse_vlog_key_value : List ℕ → Option (List ℕ × List ℕ)
unfolding second_slice both_slices
parse_vlog_key_value [] = none
parse_vlog_key_value (tag ∷ s) =
    if tag == 1 then both_slices (get_length_prefixed_slice s) else none

entry_shape :
    (key value : List ℕ)
    → encode_vlog_entry key value ≡ 1 ∷ (length_prefixed key ++ length_prefixed value)
unfolding encode_vlog_entry
entry_shape key value =
    put_length_prefixed_slice_lem (put_length_prefixed_slice (1 ∷ []) key) value
    ∙ ap (λ (t : List ℕ). t ++ length_prefixed value) (put_length_prefixed_slice_lem (1 ∷ []) key)

first_slice :
    (key value : List ℕ)
    → IsU32 (length key)
    → get_length_prefixed_slice (length_prefixed key ++ length_prefixed value)
      ≡ some (key, length_prefixed value)
first_slice key value hk = get-length_prefixed key (length_prefixed value) hk

last_slice :
    (value : List ℕ)
    → IsU32 (length value)
    → get_length_prefixed_slice (length_prefixed value) ≡ some (value, [])
last_slice value hv = rw (append-nil (length_prefixed value)) at (get-length_prefixed value [] hv)

-- The entry that a PUT writes, for a key and a value below 2^32 bytes, parses back to its key and
-- its value.
pub parse_vlog_key_value-encode_vlog_entry :
    (key value : List ℕ)
    → IsU32 (length key)
    → IsU32 (length value)
    → parse_vlog_key_value (encode_vlog_entry key value) ≡ some (key, value)
unfolding parse_vlog_key_value
parse_vlog_key_value-encode_vlog_entry key value hk hv =
    rw (entry_shape key value) (rw (first_slice key value hk) (rw (last_slice value hv)))

-- `Parse` takes the value out of the entry that a PUT writes, for a key and a value below 2^32
-- bytes.
pub parse-encode_vlog_entry :
    (key v : List ℕ)
    → IsU32 (length key)
    → IsU32 (length v)
    → parse (encode_vlog_entry key v) ≡ some (found v)
unfolding parse
parse-encode_vlog_entry key v hk hv =
    rw (entry_shape key v) (rw (first_slice key v hk) (rw (last_slice v hv)))

-- An entry has at least its tag, and the lengths in front of the slices take five bytes at most.
pub length-encode_vlog_entry :
    (key value : List ℕ)
    → (0 < length (encode_vlog_entry key value))
      × (length (encode_vlog_entry key value) ≤ 11 + length key + length value)
length-encode_vlog_entry key value = rw (entry_shape key value) (
    omega (
      arith,
      length-append (length_prefixed key) (length_prefixed value),
      length-length_prefixed key,
      length-length_prefixed value,
    ))
