-- ===== src/Coding/Varint.antt =====
-- The variable-length integers of util/coding.cc: the encoder and the decoder are inverse, and
-- the encoder's length is the one that `VarintLength` announces.
use distributed_system_based.Base.{
  ℕ, zero, suc, ◌+◌, ◌*◌, ◌/◌, ◌%◌, ◌^◌, ◌≤◌, ◌<◌, ◌≡◌, ◌∙◌, ap, refl, arith, bit_or, bit_and, List,
  [], ◌∷◌, ◌++◌, none, some, length, All, leb, inl, inr, Bool-cases, length-append,
}
use distributed_system_based.Base.Bits.{bit_or-shifted, low_seven, top_bit, set_top_bit}
use distributed_system_based.Coding.{
  IsByte, IsU32, IsU64, more_byte, encode_varint32, encode_varint64_loop, encode_varint64,
  get_varint_loop, get_varint32_ptr, get_varint32_ptr_fallback, get_varint64_ptr, get_varint32,
  get_varint64, varint_length, varint_length_loop,
}
use native.Mathlib.Nat.{div-add-mod, mod-eq_of_lt}
use native.Mathlib.Numerals.{towards_suc}

more_byte_lem : (v : ℕ) → more_byte v ≡ v % 128 + 128
more_byte_lem v = omega (arith, set_top_bit (v % 256) (omega arith))

-- The five branches of `EncodeVarint32` are the loop of `EncodeVarint64` with four rounds.
pub encode_varint32-loop : (v : ℕ) → IsU32 v → encode_varint32 v ≡ encode_varint64_loop 4 v
unfolding encode_varint32 encode_varint64_loop
encode_varint32-loop v h = ground arith

pow_seven : (s : ℕ) → 2 ^ (s + 7) ≡ 128 * 2 ^ s
pow_seven s = simp towards_suc (omega arith)

module _ (width last : ℕ) where
  -- The last byte of a number: the top bit is clear.
  read_last :
      (w result shift : ℕ) (rest : List ℕ)
      → w < 128
      → shift ≤ last
      → result < 2 ^ shift
      → result + w * 2 ^ shift < 2 ^ width
      → get_varint_loop width last (w ∷ rest) result shift ≡ some (result + w * 2 ^ shift, rest)
  unfolding get_varint_loop
  read_last w result shift rest hw hs hr fits = ground (
    arith,
    top_bit w,
    mod-eq_of_lt {n = w * 2 ^ shift} {m = 2 ^ width} (omega arith),
    bit_or-shifted shift result w hr,
  )

  -- A byte with the top bit set carries seven bits, and the loop goes on.
  read_more :
      (g result shift : ℕ) (rest : List ℕ)
      → g < 128
      → shift ≤ last
      → result < 2 ^ shift
      → result + g * 2 ^ shift < 2 ^ width
      → get_varint_loop width last ((g + 128) ∷ rest) result shift
        ≡ get_varint_loop width last rest (result + g * 2 ^ shift) (shift + 7)
  unfolding get_varint_loop
  read_more g result shift rest hg hs hr fits = ground (
    arith,
    top_bit (g + 128),
    low_seven (g + 128),
    mod-eq_of_lt {n = g * 2 ^ shift} {m = 2 ^ width} (omega arith),
    bit_or-shifted shift result g hr,
  )

pub group_fits : (g s r : ℕ) → g < 128 → r < 2 ^ s → r + g * 2 ^ s < 2 ^ (s + 7)
group_fits g s r hg hr = grind (arith, pow_seven s)

-- The lowest seven bits of `v` and the others, both shifted by `s`.
split_group : (v s : ℕ) → v * 2 ^ s ≡ v % 128 * 2 ^ s + v / 128 * 2 ^ (s + 7)
split_group v s = omega (
  arith,
  ap (λ (t : ℕ). t * 2 ^ s) (div-add-mod v 128),
  ap (λ (t : ℕ). v / 128 * t) (pow_seven s),
)

-- What `rounds` rounds write is read back, if the shifts stay in reach and the result fits.
get_varint_loop-encode :
    (width last rounds v result shift : ℕ) (rest : List ℕ)
    → v < 128 ^ suc rounds
    → shift + 7 * rounds ≤ last
    → result < 2 ^ shift
    → result + v * 2 ^ shift < 2 ^ width
    → get_varint_loop width last (encode_varint64_loop rounds v ++ rest) result shift
      ≡ some (result + v * 2 ^ shift, rest)
unfolding encode_varint64_loop
get_varint_loop-encode width last zero v result shift rest hv hs hr fits =
    let e : v % 256 ≡ v = omega arith in
    rw e (read_last width last v result shift rest (omega arith) (omega arith) hr fits)
get_varint_loop-encode width last (suc rounds) v result shift rest hv hs hr fits = ground (
  arith,
  more_byte_lem v,
  split_group v shift,
  read_last width last v result shift rest,
  read_more width last (v % 128) result shift (encode_varint64_loop rounds (v / 128) ++ rest),
  group_fits (v % 128) shift result,
  get_varint_loop-encode width last rounds (v / 128) (result + v % 128 * 2 ^ shift) (shift + 7)
      rest,
)

-- `GetVarint64` reads back the `uint64_t` that `EncodeVarint64` wrote and leaves what follows it.
pub get_varint64-encode_varint64 :
    (v : ℕ) (rest : List ℕ) → IsU64 v → get_varint64 (encode_varint64 v ++ rest) ≡ some (v, rest)
unfolding get_varint64 get_varint64_ptr encode_varint64
get_varint64-encode_varint64 v rest h =
    get_varint_loop-encode 64 63 9 v 0 0 rest (omega arith) (omega arith) (omega arith)
      (omega arith)
    ∙ ap (λ (t : ℕ). some (t, rest)) (omega arith)

get_varint32_ptr-fallback :
    (b : ℕ) (p : List ℕ) → IsByte b → get_varint32_ptr (b ∷ p) ≡ get_varint32_ptr_fallback (b ∷ p)
unfolding get_varint32_ptr get_varint32_ptr_fallback get_varint_loop
get_varint32_ptr-fallback b p h = ground (arith, bit_or-shifted 0 0 b (omega arith))

-- On a buffer of bytes, `GetVarint32Ptr` with its fast path returns what `GetVarint32PtrFallback`
-- does.
pub get_varint32_ptr_agrees :
    (p : List ℕ) → All IsByte p → get_varint32_ptr p ≡ get_varint32_ptr_fallback p
unfolding get_varint32_ptr
get_varint32_ptr_agrees [] h = refl
get_varint32_ptr_agrees (b ∷ p) h = get_varint32_ptr-fallback b p h.0

encode_varint64_loop-IsByte : (rounds v : ℕ) → All IsByte (encode_varint64_loop rounds v)
unfolding encode_varint64_loop
encode_varint64_loop-IsByte zero v = omega arith
encode_varint64_loop-IsByte (suc rounds) v =
    ground (arith, more_byte_lem v, encode_varint64_loop-IsByte rounds (v / 128))

encode_head :
    (rounds v : ℕ) → (b : ℕ) × (p : List ℕ) × (encode_varint64_loop rounds v ≡ b ∷ p) × IsByte b
unfolding encode_varint64_loop
encode_head zero v = (v % 256, [], refl, omega arith)
encode_head (suc rounds) v = elim (Bool-cases (leb 128 v)) [
  | inl e ↦
      (more_byte v, encode_varint64_loop rounds (v / 128), rw e, omega (arith, more_byte_lem v))
  | inr e ↦ (v % 256, [], rw e, omega arith)
]

-- `GetVarint32` reads back the `uint32_t` that `EncodeVarint32` wrote and leaves what follows it.
pub get_varint32-encode_varint32 :
    (v : ℕ) (rest : List ℕ) → IsU32 v → get_varint32 (encode_varint32 v ++ rest) ≡ some (v, rest)
unfolding get_varint32
get_varint32-encode_varint32 v rest h =
    let (b, p, e, byte) = encode_head 4 v in
    rw (encode_varint32-loop v h) (
      skip b p e byte
      ∙ unfold get_varint32_ptr_fallback in
        get_varint_loop-encode 32 28 4 v 0 0 rest (omega arith) (omega arith) (omega arith)
          (omega arith)
        ∙ ap (λ (t : ℕ). some (t, rest)) (omega arith))
  where
    skip :
        (b : ℕ) (p : List ℕ)
        → encode_varint64_loop 4 v ≡ b ∷ p
        → IsByte b
        → get_varint32_ptr (encode_varint64_loop 4 v ++ rest)
          ≡ get_varint32_ptr_fallback (encode_varint64_loop 4 v ++ rest)
    skip b p e byte = rw e (get_varint32_ptr-fallback b (p ++ rest) byte)

truncated_loop :
    (width last rounds v result shift x : ℕ) (front back : List ℕ)
    → encode_varint64_loop rounds v ≡ front ++ (x ∷ back)
    → get_varint_loop width last front result shift ≡ none
unfolding encode_varint64_loop get_varint_loop
truncated_loop width last zero v result shift x [] back e = refl
truncated_loop width last zero v result shift x (y ∷ front) back e =
    absurd (omega (arith, ap length e, length-append front (x ∷ back)))
truncated_loop width last (suc rounds) v result shift x [] back e = refl
truncated_loop width last (suc rounds) v result shift x (y ∷ front) back e = ground (
  arith,
  more_byte_lem v,
  top_bit y,
  length-append front (x ∷ back),
  truncated_loop width last rounds (v / 128) (bit_or result (bit_and y 127 * 2 ^ shift % 2 ^ width))
      (shift + 7) x front back,
)

varint_length_loop-encode :
    (rounds v len : ℕ)
    → varint_length_loop rounds v len + 1 ≡ len + length (encode_varint64_loop rounds v)
unfolding varint_length_loop encode_varint64_loop
varint_length_loop-encode zero v len = omega arith
varint_length_loop-encode (suc rounds) v len =
    ground (arith, varint_length_loop-encode rounds (v / 128) (len + 1))

length-encode_loop :
    (rounds v : ℕ)
    → (1 ≤ length (encode_varint64_loop rounds v))
      × (length (encode_varint64_loop rounds v) ≤ rounds + 1)
unfolding encode_varint64_loop
length-encode_loop zero v = omega arith
length-encode_loop (suc rounds) v = ground (arith, length-encode_loop rounds (v / 128))

pub length-encode_varint32 : (v : ℕ) → IsU32 v → length (encode_varint32 v) ≤ 5
length-encode_varint32 v h = rw (encode_varint32-loop v h) (length-encode_loop 4 v).1

-- `VarintLength` announces the number of bytes that `EncodeVarint64` writes: 1 to 10.
pub varint_length-encode_varint64 :
    (v : ℕ)
    → (varint_length v ≡ length (encode_varint64 v))
      × (1 ≤ varint_length v)
      × (varint_length v ≤ 10)
unfolding varint_length encode_varint64
varint_length-encode_varint64 v =
    omega (arith, varint_length_loop-encode 9 v 1, length-encode_loop 9 v)

-- `GetVarint64` refuses every proper prefix of an encoding.
pub get_varint64_truncated :
    (v x : ℕ) (front back : List ℕ)
    → encode_varint64 v ≡ front ++ (x ∷ back)
    → get_varint64 front ≡ none
unfolding encode_varint64 get_varint64 get_varint64_ptr
get_varint64_truncated v x front back e = truncated_loop 64 63 9 v 0 0 x front back e
