-- ===== src/Coding/Slices.antt =====
-- Length-prefixed slices of util/coding.cc.
use distributed_system_based.Base.{
  ℕ, ◌+◌, ◌%◌, ◌^◌, ◌≤◌, ◌<◌, ◌≡◌, arith, List, ◌++◌, some, length, All, Option-cases, inl, inr,
  length-take, length-drop, append_assoc, length-append, take-append_exact, drop-append_exact,
}
use distributed_system_based.Coding.{
  IsU32, IsByte, put_varint32, encode_varint32, get_varint32, put_length_prefixed_slice,
  get_length_prefixed_slice,
}
use distributed_system_based.Coding.Varint.{length-encode_varint32, get_varint32-encode_varint32}
use distributed_system_based.Coding.Bounds.{get_varint32_takes}

-- What `PutLengthPrefixedSlice` appends.
unfoldable pub length_prefixed : List ℕ → List ℕ
length_prefixed value = encode_varint32 (length value % 2 ^ 32) ++ value

pub put_length_prefixed_slice_lem :
    (dst value : List ℕ) → put_length_prefixed_slice dst value ≡ dst ++ length_prefixed value
unfolding put_length_prefixed_slice put_varint32 length_prefixed
put_length_prefixed_slice_lem dst value = append_assoc dst _ value

-- The length in front takes five bytes at most.
pub length-length_prefixed : (value : List ℕ) → length (length_prefixed value) ≤ 5 + length value
unfolding length_prefixed
length-length_prefixed value = omega (
  arith,
  length-append (encode_varint32 (length value % 2 ^ 32)) value,
  length-encode_varint32 (length value % 2 ^ 32) (omega arith),
)

-- `GetLengthPrefixedSlice` reads back a slice below 2^32 bytes and leaves what follows it.
pub get-length_prefixed :
    (value rest : List ℕ)
    → IsU32 (length value)
    → get_length_prefixed_slice (length_prefixed value ++ rest) ≡ some (value, rest)
unfolding get_length_prefixed_slice length_prefixed
get-length_prefixed value rest h =
    rw (append_assoc (encode_varint32 (length value % 2 ^ 32)) value rest) (
      rw (get_varint32-encode_varint32 (length value % 2 ^ 32) (value ++ rest) (omega arith)) (
        ground (
          arith,
          length-append value rest,
          take-append_exact (length value % 2 ^ 32) value rest,
          drop-append_exact (length value % 2 ^ 32) value rest,
        )))

-- A slice that `GetLengthPrefixedSlice` returns from a buffer of bytes lies inside the input,
-- together with what is left and at least one byte of the length.
pub get_length_prefixed_slice_bounds :
    (input slice rest : List ℕ)
    → All IsByte input
    → get_length_prefixed_slice input ≡ some (slice, rest)
    → length slice + length rest < length input
unfolding get_length_prefixed_slice
get_length_prefixed_slice_bounds input slice rest bytes h =
    elim (Option-cases (get_varint32 input)) [
      | inl e ↦ cc (rw e at h)
      | inr ((len, p), e) ↦ ground (
        arith,
        get_varint32_takes input len p bytes e,
        rw e at h,
        length-take len p,
        length-drop len p,
      )
    ]
