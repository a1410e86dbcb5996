-- ===== src/Coding/Bounds.antt =====
-- What the readers of variable length integers return is in range, and takes a bounded number of bytes.
use distributed_system_based.Base.{
  ℕ, zero, suc, ◌+◌, ◌-◌, ◌*◌, ◌/◌, ◌%◌, ◌^◌, ◌≤◌, ◌<◌, ◌≡◌, ◌∙◌, ap, arith, bit_or, bit_and, List,
  [], ◌∷◌, some, length, All,
}
use distributed_system_based.Base.Bits.{bit_or-shifted, low_seven}
use distributed_system_based.Coding.{
  IsByte, IsU32, IsU64, get_varint_loop, get_varint32_ptr_fallback, get_varint64_ptr, get_varint32,
  get_varint64,
}
use native.Mathlib.Nat.{
  div-add-mod, mod-eq_of_lt, pow-suc, add-zero, mod-lt, mod-le, one-le-pow, mul-lt-mul_of_pos_right,
  add-mul-mod_self_right,
}
use distributed_system_based.Coding.Varint.{get_varint32_ptr_agrees, group_fits}

pow_add : (a b : ℕ) → 2 ^ (a + b) ≡ 2 ^ a * 2 ^ b
pow_add a zero = ap (λ (t : ℕ). 2 ^ t) (add-zero a) ∙ omega arith
pow_add a (suc b) =
    ap (λ (t : ℕ). 2 ^ t) (omega arith)
    ∙ pow-suc 2 (a + b)
    ∙ omega (arith, ap (λ (t : ℕ). t * 2) (pow_add a b), ap (λ (t : ℕ). 2 ^ a * t) (pow-suc 2 b))

-- A shift inside a machine word keeps the bits that still fit.
shift_in_word : (k s byte : ℕ) → byte * 2 ^ s % 2 ^ (s + k) ≡ byte % 2 ^ k * 2 ^ s
shift_in_word k s byte =
    ap (λ (t : ℕ). t % 2 ^ (s + k)) parts
    ∙ add-mul-mod_self_right (byte % 2 ^ k * 2 ^ s) (byte / 2 ^ k) (2 ^ (s + k))
    ∙ mod-eq_of_lt below
  where
    parts : byte * 2 ^ s ≡ byte % 2 ^ k * 2 ^ s + byte / 2 ^ k * 2 ^ (s + k)
    parts = omega (
      arith,
      ap (λ (t : ℕ). t * 2 ^ s) (div-add-mod byte (2 ^ k)),
      ap (λ (t : ℕ). byte / 2 ^ k * t) (pow_add s k),
    )

    below : byte % 2 ^ k * 2 ^ s < 2 ^ (s + k)
    below = omega (
      arith,
      pow_add s k,
      mul-lt-mul_of_pos_right (mod-lt byte {m = 2 ^ k} (one-le-pow k 2 (omega arith)))
          (one-le-pow s 2 (omega arith)),
    )

-- The bits that a byte adds above `result` stay inside the word.
or_in_word :
    (width k s result byte : ℕ)
    → s + k ≡ width
    → result < 2 ^ s
    → bit_or result (byte * 2 ^ s % 2 ^ width) < 2 ^ width
or_in_word width k s result byte e hr =
    rw (← e) (rw (shift_in_word k s byte) (rw (bit_or-shifted s result (byte % 2 ^ k) hr) below))
  where
    below : result + byte % 2 ^ k * 2 ^ s < 2 ^ (s + k)
    below = grind (arith, pow_add s k, mod-lt byte {m = 2 ^ k} (one-le-pow k 2 (omega arith)))

-- Seven more bits keep `result` below the next shift.
or_next_shift :
    (width k s result byte : ℕ)
    → s + k ≡ width
    → byte < 256
    → result < 2 ^ s
    → bit_or result (bit_and byte 127 * 2 ^ s % 2 ^ width) < 2 ^ (s + 7)
or_next_shift width k s result byte e hb hr = rw (low_seven byte hb) (
    rw (← e) (
      rw (shift_in_word k s (byte % 128)) (
        rw (bit_or-shifted s result (byte % 128 % 2 ^ k) hr) (
          group_fits (byte % 128 % 2 ^ k) s result (omega (arith, mod-le (byte % 128) (2 ^ k)))
            hr))))

-- What a successful read says: a number of `width` bits, and at most `rounds` bytes taken.
get_varint_loop_takes :
    (width last rounds : ℕ) (p : List ℕ) (result shift v : ℕ) (rest : List ℕ)
    → All IsByte p
    → last < width
    → last < shift + 7 * rounds
    → result < 2 ^ shift
    → get_varint_loop width last p result shift ≡ some (v, rest)
    → (v < 2 ^ width) × (length rest < length p) × (length p ≤ length rest + rounds)
unfolding get_varint_loop
get_varint_loop_takes width last rounds [] result shift v rest hp hw hl hr e = cc
get_varint_loop_takes width last rounds (b ∷ p) result shift v rest hp hw hl hr e = ground (
  arith,
  or_in_word width (width - shift) shift result b,
  or_next_shift width (width - shift) shift result b,
  get_varint_loop_takes width last (rounds - 1) p
      (bit_or result (bit_and b 127 * 2 ^ shift % 2 ^ width)) (shift + 7) v rest,
)

-- A number that `GetVarint64` returns from a buffer of bytes is a `uint64_t`, and it takes 1 to 10
-- bytes of the input.
pub get_varint64_takes :
    (input : List ℕ) (v : ℕ) (rest : List ℕ)
    → All IsByte input
    → get_varint64 input ≡ some (v, rest)
    → IsU64 v × (length rest < length input) × (length input ≤ length rest + 10)
unfolding get_varint64 get_varint64_ptr
get_varint64_takes input v rest bytes e =
    get_varint_loop_takes 64 63 10 input 0 0 v rest bytes (omega arith) (omega arith) (omega arith)
      e

-- What `GetVarint32` returns is a `uint32_t`, and it takes 1 to 5 bytes of the input.
pub get_varint32_takes :
    (input : List ℕ) (v : ℕ) (rest : List ℕ)
    → All IsByte input
    → get_varint32 input ≡ some (v, rest)
    → IsU32 v × (length rest < length input) × (length input ≤ length rest + 5)
unfolding get_varint32 get_varint32_ptr_fallback
get_varint32_takes input v rest bytes e =
    get_varint_loop_takes 32 28 5 input 0 0 v rest bytes (omega arith) (omega arith) (omega arith)
      (rw (get_varint32_ptr_agrees input bytes) at e)
