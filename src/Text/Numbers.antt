-- ===== src/Text/Numbers.antt =====
-- A printed number is read back.
use distributed_system_based.Base.{
  ℕ, zero, suc, ◌+◌, ◌/◌, ◌%◌, ◌^◌, ◌<◌, ◌≤◌, ◌≡◌, ◌∙◌, refl, arith, List, [], ◌∷◌, ◌++◌, some,
  false, ltb, Bool-cases, inl, inr,
}
use distributed_system_based.Text.{
  is_digit, trim_start, read_digits, extract_u64, extract_int, print_digits, to_string,
}

-- What ends a number: the end of the text, or a character that is no digit.
abbrev pub EndsNumber : List ℕ → Type 0
EndsNumber [] = Unit {0}
EndsNumber (c ∷ s) = is_digit c ≡ false

read_digits-ends : (n : ℕ) (rest : List ℕ) → EndsNumber rest → read_digits n rest ≡ (n, rest)
unfolding read_digits
read_digits-ends n [] h = refl
read_digits-ends n (c ∷ rest) h = rw h

read_digits-print :
    (rounds n : ℕ) (tail : List ℕ)
    → n < 10 ^ suc rounds
    → read_digits 0 (print_digits rounds n tail) ≡ read_digits n tail
unfolding read_digits print_digits
read_digits-print zero n tail h = ground arith
read_digits-print (suc rounds) n tail h =
    ground (arith, read_digits-print rounds (n / 10) ((48 + n % 10) ∷ tail) (omega arith))

print_digits-append :
    (rounds n : ℕ) (tail rest : List ℕ)
    → print_digits rounds n tail ++ rest ≡ print_digits rounds n (tail ++ rest)
unfolding print_digits
print_digits-append zero n tail rest = refl
print_digits-append (suc rounds) n tail rest =
    ground (arith, print_digits-append rounds (n / 10) ((48 + n % 10) ∷ tail) rest)

-- A printed number begins with a digit.
pub print_head :
    (rounds n : ℕ) (tail : List ℕ)
    → (c : ℕ) × (s : List ℕ) × (print_digits rounds n tail ≡ c ∷ s) × (48 ≤ c) × (c ≤ 57)
unfolding print_digits
print_head zero n tail = (48 + n % 10, tail, refl, omega arith, omega arith)
print_head (suc rounds) n tail = elim (Bool-cases (ltb n 10)) [
  | inl small ↦ (48 + n, tail, rw small, omega arith, ground arith)
  | inr large ↦ rw large (print_head rounds (n / 10) ((48 + n % 10) ∷ tail))
]

extract-digits :
    (c n : ℕ) (s rest : List ℕ)
    → 48 ≤ c
    → c ≤ 57
    → n < 2 ^ 64
    → read_digits 0 (c ∷ s) ≡ (n, rest)
    → extract_u64 (c ∷ s) ≡ some (n, rest)
unfolding extract_u64 trim_start
extract-digits c n s rest low high h r = ground (arith, r)

extract-print :
    (n : ℕ) (rest : List ℕ)
    → n < 2 ^ 64
    → EndsNumber rest
    → extract_u64 (print_digits 19 n rest) ≡ some (n, rest)
extract-print n rest h ends =
    let (c, s, e, low, high) = print_head 19 n rest in
    let r : read_digits 0 (print_digits 19 n rest) ≡ (n, rest) =
      read_digits-print 19 n rest (omega arith) ∙ read_digits-ends n rest ends in
    rw e (extract-digits c n s rest low high h (rw e at r))

-- A number that `std::to_string` wrote is read back by `>>`, and what follows it is left.
pub extract_u64-to_string :
    (n : ℕ) (rest : List ℕ)
    → n < 2 ^ 64
    → EndsNumber rest
    → extract_u64 (to_string n ++ rest) ≡ some (n, rest)
unfolding to_string
extract_u64-to_string n rest h ends =
    rw (print_digits-append 19 n [] rest) (extract-print n rest h ends)

pub extract_u64-blank : (s : List ℕ) → extract_u64 (32 ∷ s) ≡ extract_u64 s
unfolding extract_u64 trim_start
extract_u64-blank s = refl

extract_int-digits :
    (c n : ℕ) (s rest : List ℕ)
    → 48 ≤ c
    → c ≤ 57
    → n < 2 ^ 31
    → read_digits 0 (c ∷ s) ≡ (n, rest)
    → extract_int (c ∷ s) ≡ some (some n, rest)
unfolding extract_int trim_start
extract_int-digits c n s rest low high h r = ground (arith, r)

-- The same for `>>` to an `int`.
pub extract_int-to_string :
    (n : ℕ) (rest : List ℕ)
    → n < 2 ^ 31
    → EndsNumber rest
    → extract_int (to_string n ++ rest) ≡ some (some n, rest)
unfolding to_string
extract_int-to_string n rest h ends =
    let (c, s, e, low, high) = print_head 19 n rest in
    let r : read_digits 0 (print_digits 19 n rest) ≡ (n, rest) =
      read_digits-print 19 n rest (omega arith) ∙ read_digits-ends n rest ends in
    rw (print_digits-append 19 n [] rest)
      (rw e (extract_int-digits c n s rest low high h (rw e at r)))

pub extract_int-blank : (s : List ℕ) → extract_int (32 ∷ s) ≡ extract_int s
unfolding extract_int trim_start
extract_int-blank s = refl
