-- ===== src/Coding/Runs.antt =====
-- Runs of the codecs at concrete inputs.
use distributed_system_based.Base.{◌≡◌, refl, arith, [], ◌∷◌, ◌++◌, none, some}
use distributed_system_based.Coding.{
  encode_varint32, encode_varint64, encode_varint64_loop, varint_length, varint_length_loop,
  get_varint_loop, get_varint64_ptr, get_varint64, encode_fixed32, decode_fixed32, get_varint32,
  get_varint32_ptr, get_length_prefixed_slice,
}
use distributed_system_based.Coding.Varint.{get_varint64-encode_varint64, get_varint64_truncated}

encode_300 : encode_varint64 300 ≡ 0xac ∷ 2 ∷ []
unfolding encode_varint64 encode_varint64_loop
encode_300 = refl

decode_300 : get_varint64 (0xac ∷ 2 ∷ 7 ∷ []) ≡ some (300, 7 ∷ [])
unfolding get_varint64 get_varint64_ptr get_varint_loop
decode_300 = refl

encode_max32 : encode_varint32 0xffff_ffff ≡ 255 ∷ 255 ∷ 255 ∷ 255 ∷ 15 ∷ []
unfolding encode_varint32
encode_max32 = refl

length_max64 : varint_length 0xffff_ffff_ffff_ffff ≡ 10
unfolding varint_length varint_length_loop
length_max64 = refl

fixed32_runs : decode_fixed32 (encode_fixed32 0x12345678) ≡ some 0x12345678
unfolding encode_fixed32 decode_fixed32
fixed32_runs = refl

-- The claims of the codecs at concrete inputs.
get_varint64-encode_varint64_example :
    get_varint64 (encode_varint64 300 ++ (7 ∷ [])) ≡ some (300, 7 ∷ [])
get_varint64-encode_varint64_example = get_varint64-encode_varint64 300 (7 ∷ []) (omega arith)

get_varint64_truncated_example : get_varint64 (0xac ∷ []) ≡ none
get_varint64_truncated_example = get_varint64_truncated 300 2 (0xac ∷ []) [] encode_300

slice_runs : get_length_prefixed_slice (2 ∷ 8 ∷ 9 ∷ 7 ∷ []) ≡ some (8 ∷ 9 ∷ [], 7 ∷ [])
unfolding get_length_prefixed_slice get_varint32 get_varint32_ptr
slice_runs = refl
