-- ===== src/Coding.antt =====
-- util/coding.h and util/coding.cc: fixed-width and variable-length integers and length-prefixed
-- slices. A `char` buffer is a list of bytes below 256; a pointer that moves through a buffer is
-- the list of what it has not passed. `uint8_t x` is `x % 256`, and a `w`-bit shift to the left is
-- taken modulo `2 ^ w`.
pub mod Fixed
pub mod Varint
pub mod Bounds
pub mod Slices
mod Runs
use distributed_system_based.Base.{
  ℕ, zero, suc, ◌+◌, ◌*◌, ◌/◌, ◌%◌, ◌^◌, ◌<◌, bit_and, bit_or, List, [], ◌∷◌, ◌++◌, Option, none,
  some, ltb, leb, ◌==◌, if◌then◌else◌, length, take, drop,
}

abbrev pub IsByte : ℕ → Type 0
IsByte b = b < 256

abbrev pub IsU32 : ℕ → Type 0
IsU32 v = v < 2 ^ 32

abbrev pub IsU64 : ℕ → Type 0
IsU64 v = v < 2 ^ 64

infixl 5 ◌>>=◌
abbrev pub ◌>>=◌ {ℓ κ} : {A : Type ℓ} {B : Type κ} → Option A → (A → Option B) → Option B
some a >>= f = f a
none >>= f = none

-- What the function writes at `dst`.
unfoldable pub encode_fixed32 : ℕ → List ℕ
encode_fixed32 v = v % 256 ∷ v / 2 ^ 8 % 256 ∷ v / 2 ^ 16 % 256 ∷ v / 2 ^ 24 % 256 ∷ []

unfoldable pub encode_fixed64 : ℕ → List ℕ
encode_fixed64 v =
    v % 256
    ∷ v / 2 ^ 8 % 256
    ∷ v / 2 ^ 16 % 256
    ∷ v / 2 ^ 24 % 256
    ∷ v / 2 ^ 32 % 256
    ∷ v / 2 ^ 40 % 256
    ∷ v / 2 ^ 48 % 256
    ∷ v / 2 ^ 56 % 256
    ∷ []

-- `none` is a read past the end of the buffer, which C++ leaves undefined.
unfoldable pub decode_fixed32 : List ℕ → Option ℕ
decode_fixed32 (b0 ∷ b1 ∷ b2 ∷ b3 ∷ rest) =
    some (bit_or (bit_or (bit_or b0 (b1 * 2 ^ 8)) (b2 * 2 ^ 16)) (b3 * 2 ^ 24))
decode_fixed32 _ = none

unfoldable pub decode_fixed64 : List ℕ → Option ℕ
decode_fixed64 (b0 ∷ b1 ∷ b2 ∷ b3 ∷ b4 ∷ b5 ∷ b6 ∷ b7 ∷ rest) =
    let low = bit_or (bit_or (bit_or b0 (b1 * 2 ^ 8)) (b2 * 2 ^ 16)) (b3 * 2 ^ 24) in
    some (
      bit_or (bit_or (bit_or (bit_or low (b4 * 2 ^ 32)) (b5 * 2 ^ 40)) (b6 * 2 ^ 48)) (b7 * 2 ^ 56))
decode_fixed64 _ = none

unfoldable pub put_fixed32 : List ℕ → ℕ → List ℕ
put_fixed32 dst v = dst ++ encode_fixed32 v

unfoldable pub put_fixed64 : List ℕ → ℕ → List ℕ
put_fixed64 dst v = dst ++ encode_fixed64 v

-- `*(ptr++) = v | B`, stored as a `uint8_t`.
abbrev pub more_byte : ℕ → ℕ
more_byte v = bit_or (v % 256) 128

unfoldable pub encode_varint32 : ℕ → List ℕ
encode_varint32 v =
    if ltb v (2 ^ 7)
    then v % 256 ∷ []
    else if ltb v (2 ^ 14)
    then more_byte v ∷ v / 2 ^ 7 % 256 ∷ []
    else if ltb v (2 ^ 21)
    then more_byte v ∷ more_byte (v / 2 ^ 7) ∷ v / 2 ^ 14 % 256 ∷ []
    else if ltb v (2 ^ 28)
    then more_byte v ∷ more_byte (v / 2 ^ 7) ∷ more_byte (v / 2 ^ 14) ∷ v / 2 ^ 21 % 256 ∷ []
    else more_byte v
      ∷ more_byte (v / 2 ^ 7)
      ∷ more_byte (v / 2 ^ 14)
      ∷ more_byte (v / 2 ^ 21)
      ∷ v / 2 ^ 28 % 256
      ∷ []

-- `while (v >= B)`, at most `rounds` times.
unfoldable pub encode_varint64_loop : ℕ → ℕ → List ℕ
encode_varint64_loop zero v = v % 256 ∷ []
encode_varint64_loop (suc rounds) v =
    let rest = encode_varint64_loop rounds (v / 2 ^ 7) in
    if leb 128 v then more_byte v ∷ rest else v % 256 ∷ []

-- Nine rounds are enough for a `uint64_t`: what is left is then below 2.
unfoldable pub encode_varint64 : ℕ → List ℕ
encode_varint64 v = encode_varint64_loop 9 v

unfoldable pub put_varint32 : List ℕ → ℕ → List ℕ
put_varint32 dst v = dst ++ encode_varint32 v

unfoldable pub put_varint64 : List ℕ → ℕ → List ℕ
put_varint64 dst v = dst ++ encode_varint64 v

-- `PutVarint32` takes a `uint32_t`, so the size is cut to 32 bits.
unfoldable pub put_length_prefixed_slice : List ℕ → List ℕ → List ℕ
put_length_prefixed_slice dst value = put_varint32 dst (length value % 2 ^ 32) ++ value

unfoldable pub varint_length_loop : ℕ → ℕ → ℕ → ℕ
varint_length_loop zero v len = len
varint_length_loop (suc rounds) v len =
    let rest = varint_length_loop rounds (v / 2 ^ 7) (len + 1) in if leb 128 v then rest else len

unfoldable pub varint_length : ℕ → ℕ
varint_length v = varint_length_loop 9 v 1

-- The loop of `GetVarint32PtrFallback` and of `GetVarint64Ptr`, which differ in the width of
-- `result` and in the last shift. `none` is `nullptr`.
unfoldable pub get_varint_loop : ℕ → ℕ → List ℕ → ℕ → ℕ → Option (ℕ × List ℕ)
get_varint_loop width last [] result shift = none
get_varint_loop width last (byte ∷ p) result shift =
    let more =
      get_varint_loop width last p (bit_or result (bit_and byte 127 * 2 ^ shift % 2 ^ width))
        (shift + 7) in
    if leb shift last
    then (if bit_and byte 128 == 0
        then some (bit_or result (byte * 2 ^ shift % 2 ^ width), p)
        else more)
    else none

unfoldable pub get_varint32_ptr_fallback : List ℕ → Option (ℕ × List ℕ)
get_varint32_ptr_fallback p = get_varint_loop 32 28 p 0 0

unfoldable pub get_varint32_ptr : List ℕ → Option (ℕ × List ℕ)
get_varint32_ptr [] = get_varint32_ptr_fallback []
get_varint32_ptr (byte ∷ p) =
    if bit_and byte 128 == 0 then some (byte, p) else get_varint32_ptr_fallback (byte ∷ p)

unfoldable pub get_varint64_ptr : List ℕ → Option (ℕ × List ℕ)
get_varint64_ptr p = get_varint_loop 64 63 p 0 0

-- The new `*input` is the second part.
unfoldable pub get_varint32 : List ℕ → Option (ℕ × List ℕ)
get_varint32 input = get_varint32_ptr input

unfoldable pub get_varint64 : List ℕ → Option (ℕ × List ℕ)
get_varint64 input = get_varint64_ptr input

unfoldable pub get_length_prefixed_slice : List ℕ → Option (List ℕ × List ℕ)
get_length_prefixed_slice input = do
  (len, rest) ← get_varint32 input
  if leb len (length rest) then some (take len rest, drop len rest) else none
