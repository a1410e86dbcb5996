-- ===== src/Base/Bits.antt =====
-- Bit operations as arithmetic: one digit at a time for every width, by evaluation on a byte.
use Prim.Native.Nat.{
  ℕ, zero, suc, ◌+◌, ◌*◌, ◌/◌, ◌%◌, ◌^◌, ◌≤◌, ◌<◌, max, bit_and, bit_or, digits, bit_or-bitwise,
}
use mathlib.Core.Path.{◌≡◌, refl, ap}
use mathlib.Core.Bool.{Bool, true, ◌&&◌}
use native.Mathlib.Nat.{pow-suc}
use native.Mathlib.Omega.{arith}
use distributed_system_based.Base.Tests.{◌==◌, ==_iff}

abbrev or_digits : ℕ → ℕ → ℕ → ℕ
or_digits n a b = digits (λ y. y) max n a b

-- The count of digits to go does not matter once it covers the first number.
or_digits_count : (n m a b : ℕ) → a ≤ n → a ≤ m → or_digits n a b ≡ or_digits m a b
or_digits_count zero zero a b p q = refl
or_digits_count zero (suc m) zero b p q = refl
or_digits_count zero (suc m) (suc a) b p q = absurd (omega arith)
or_digits_count (suc n) zero zero b p q = refl
or_digits_count (suc n) zero (suc a) b p q = absurd (omega arith)
or_digits_count (suc n) (suc m) zero b p q = refl
or_digits_count (suc n) (suc m) (suc a) b p q =
    omega (arith, or_digits_count n m (suc a / 2) (b / 2) (omega arith) (omega arith))

pub bit_or_step : (a b : ℕ) → bit_or a b ≡ bit_or (a / 2) (b / 2) * 2 + max (a % 2) (b % 2)
bit_or_step zero b = omega (arith, bit_or-bitwise 0 b, bit_or-bitwise 0 (b / 2))
bit_or_step (suc a) b = omega (
  arith,
  bit_or-bitwise (suc a) b,
  bit_or-bitwise (suc a / 2) (b / 2),
  or_digits_count a (suc a / 2) (suc a / 2) (b / 2) (omega arith) (omega arith),
)

pub zero-bit_or : (b : ℕ) → bit_or 0 b ≡ b
zero-bit_or b = bit_or-bitwise 0 b

-- `r | (x << s)` is a sum where `r` has no bit at `s` or above.
pub bit_or-shifted : (s r x : ℕ) → r < 2 ^ s → bit_or r (x * 2 ^ s) ≡ r + x * 2 ^ s
bit_or-shifted zero r x h = let e : r ≡ 0 = omega arith in rw e (omega (arith, zero-bit_or (x * 1)))
bit_or-shifted (suc s) r x h = omega (
  arith,
  bit_or_step r (x * 2 ^ suc s),
  halved,
  even,
  bit_or-shifted s (r / 2) x (omega (arith, double)),
)
  where
    double : 2 ^ suc s ≡ 2 * 2 ^ s
    double = omega (arith, pow-suc 2 s)

    even : x * 2 ^ suc s ≡ 2 * (x * 2 ^ s)
    even = omega (arith, ap (λ (t : ℕ). x * t) double)

    halved : bit_or (r / 2) (x * 2 ^ suc s / 2) ≡ bit_or (r / 2) (x * 2 ^ s)
    halved = ap (λ (t : ℕ). bit_or (r / 2) t) (omega (arith, even))

-- A property of bytes, checked at each.
all_below : ℕ → (ℕ → Bool) → Bool
all_below zero p = true
all_below (suc n) p = p n && all_below n p

all_below_sound : (n : ℕ) (p : ℕ → Bool) (b : ℕ) → all_below n p ≡ true → b < n → p b ≡ true
unfolding all_below
all_below_sound zero p b h lt = absurd (omega arith)
all_below_sound (suc n) p b h lt = ground (arith, all_below_sound n p b)

low_seven_table : all_below 256 (λ b. bit_and b 127 == b % 128) ≡ true
unfolding all_below
low_seven_table = refl

top_bit_table : all_below 256 (λ b. bit_and b 128 == b / 128 * 128) ≡ true
unfolding all_below
top_bit_table = refl

set_top_bit_table : all_below 256 (λ b. bit_or b 128 == b % 128 + 128) ≡ true
unfolding all_below
set_top_bit_table = refl

pub low_seven : (b : ℕ) → b < 256 → bit_and b 127 ≡ b % 128
low_seven b h = (==_iff _ _).0 (all_below_sound 256 _ b low_seven_table h)

pub top_bit : (b : ℕ) → b < 256 → bit_and b 128 ≡ b / 128 * 128
top_bit b h = (==_iff _ _).0 (all_below_sound 256 _ b top_bit_table h)

pub set_top_bit : (b : ℕ) → b < 256 → bit_or b 128 ≡ b % 128 + 128
set_top_bit b h = (==_iff _ _).0 (all_below_sound 256 _ b set_top_bit_table h)
