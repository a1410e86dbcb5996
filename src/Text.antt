-- ===== src/Text.antt =====
-- The text tools that master, worker and client share: `trim` (distributed/master.cc, slave.cc),
-- upper case, and what they use of the C++ streams: `iss >> word`, `iss >> uint64`, and
-- `std::to_string`. A string is the list of its bytes.
pub mod Numbers
pub mod Words
pub mod Lines
mod Runs
use distributed_system_based.Base.{
  ℕ, zero, suc, ◌+◌, ◌-◌, ◌*◌, ◌/◌, ◌%◌, ◌^◌, List, [], ◌∷◌, ◌++◌, Option, none, some, Bool, true,
  false, not, ◌&&◌, ◌||◌, ltb, leb, ◌==◌, if◌then◌else◌,
}
use mathlib.Core.Option
use Prim.Native.Char.{code}
use Prim.Native.String.{String}
use Prim.Native.String

-- The bytes of a literal, which is ASCII.
abbrev pub codes : String → List ℕ
codes String.[] = []
codes (String.◌∷◌ c s) = code c ∷ codes s

-- `isspace` in the C locale.
abbrev pub is_space : ℕ → Bool
is_space c = c == 32 || leb 9 c && leb c 13

abbrev pub is_digit : ℕ → Bool
is_digit c = leb 48 c && leb c 57

unfoldable pub trim_start : List ℕ → List ℕ
trim_start [] = []
trim_start (c ∷ s) = if is_space c then trim_start s else c ∷ s

after_first : ℕ → List ℕ → List ℕ
after_first c [] = if is_space c then [] else c ∷ []
after_first c (d ∷ s) = c ∷ d ∷ s

unfoldable pub trim_end : List ℕ → List ℕ
unfolding after_first
trim_end [] = []
trim_end (c ∷ s) = after_first c (trim_end s)

unfoldable pub trim : List ℕ → List ℕ
trim s = trim_end (trim_start s)

-- `toupper` in the C locale.
abbrev pub to_upper : ℕ → ℕ
to_upper c = if leb 97 c && leb c 122 then c - 32 else c

-- The characters up to the first blank, and the rest from there on.
unfoldable pub word_and_rest : List ℕ → List ℕ × List ℕ
word_and_rest [] = ([], [])
word_and_rest (c ∷ s) =
    let (w, rest) = word_and_rest s in if is_space c then ([], c ∷ s) else (c ∷ w, rest)

nonempty_word : List ℕ × List ℕ → Option (List ℕ × List ℕ)
nonempty_word ([], rest) = none
nonempty_word (c ∷ w, rest) = some (c ∷ w, rest)

-- `iss >> word`: blanks are skipped; `none` if nothing is left.
unfoldable pub extract_word : List ℕ → Option (List ℕ × List ℕ)
unfolding nonempty_word
extract_word s = nonempty_word (word_and_rest (trim_start s))

unfoldable pub read_digits : ℕ → List ℕ → ℕ × List ℕ
read_digits acc [] = (acc, [])
read_digits acc (c ∷ s) = if is_digit c then read_digits (acc * 10 + (c - 48)) s else (acc, c ∷ s)

-- Digits are there; a number that is too large is a failure, and a minus sign negates modulo 2^64.
in_u64 : Bool → ℕ × List ℕ → Option (ℕ × List ℕ)
in_u64 negative (n, rest) =
    if ltb n (2 ^ 64) then some (if negative then (2 ^ 64 - n) % 2 ^ 64 else n, rest) else none

unsigned_digits : Bool → List ℕ → Option (ℕ × List ℕ)
unsigned_digits negative [] = none
unsigned_digits negative (c ∷ s) =
    if is_digit c then in_u64 negative (read_digits 0 (c ∷ s)) else none

signed_digits : List ℕ → Option (ℕ × List ℕ)
signed_digits [] = none
signed_digits (c ∷ s) =
    if c == b'-'
    then unsigned_digits true s
    else if c == b'+'
    then unsigned_digits false s
    else unsigned_digits false (c ∷ s)

-- `iss >> n` for a `uint64_t`.
unfoldable pub extract_u64 : List ℕ → Option (ℕ × List ℕ)
unfolding in_u64 unsigned_digits signed_digits
extract_u64 s = signed_digits (trim_start s)

-- A magnitude that an `int` cannot hold is a failure. `none` stands for a negative number.
in_int : Bool → ℕ × List ℕ → Option (Option ℕ × List ℕ)
in_int negative (n, rest) =
    if ltb n (2 ^ 31) || negative && n == 2 ^ 31
    then some (if negative && ltb 0 n then none else some n, rest)
    else none

int_digits : Bool → List ℕ → Option (Option ℕ × List ℕ)
int_digits negative [] = none
int_digits negative (c ∷ s) = if is_digit c then in_int negative (read_digits 0 (c ∷ s)) else none

signed_int : List ℕ → Option (Option ℕ × List ℕ)
signed_int [] = none
signed_int (c ∷ s) =
    if c == b'-'
    then int_digits true s
    else if c == b'+'
    then int_digits false s
    else int_digits false (c ∷ s)

-- `iss >> n` for an `int` of which only the sign is used when it is negative.
unfoldable pub extract_int : List ℕ → Option (Option ℕ × List ℕ)
unfolding in_int int_digits signed_int
extract_int s = signed_int (trim_start s)

-- The digits of `n` in front of `tail`; `rounds` divisions at most.
unfoldable pub print_digits : ℕ → ℕ → List ℕ → List ℕ
print_digits zero n tail = (48 + n % 10) ∷ tail
print_digits (suc rounds) n tail =
    let more = print_digits rounds (n / 10) ((48 + n % 10) ∷ tail) in
    if ltb n 10 then (48 + n) ∷ tail else more

-- `std::to_string` of a `uint64_t`, which has 20 digits at most.
unfoldable pub to_string : ℕ → List ℕ
to_string n = print_digits 19 n []

-- `s.find(c)`: what stands before the first `c`, and behind it.
unfoldable pub split_at : ℕ → List ℕ → Option (List ℕ × List ℕ)
split_at sep [] = none
split_at sep (c ∷ s) =
    let rest = split_at sep s in
    if c == sep
    then some ([], s)
    else Option.map (λ (parts : List ℕ × List ℕ). (c ∷ parts.0, parts.1)) rest

-- The lines that `std::getline` returns in turn.
first_line : ℕ → List (List ℕ) → List (List ℕ)
first_line c [] = (c ∷ []) ∷ []
first_line c (line ∷ more) = (c ∷ line) ∷ more

unfoldable pub lines : List ℕ → List (List ℕ)
unfolding first_line
lines [] = []
lines (c ∷ s) = let rest = lines s in if c == 10 then [] ∷ rest else first_line c rest

-- A carriage return at the end is dropped.
unfoldable pub drop_return : List ℕ → List ℕ
drop_return [] = []
drop_return (c ∷ []) = if c == 13 then [] else c ∷ []
drop_return (c ∷ d ∷ s) = c ∷ drop_return (d ∷ s)

-- `s.find(pattern) == 0`.
unfoldable pub starts_with : List ℕ → List ℕ → Bool
starts_with [] s = true
starts_with (p ∷ pattern) [] = false
starts_with (p ∷ pattern) (c ∷ s) = p == c && starts_with pattern s

-- `s.find(pattern) != npos`.
unfoldable pub contains : List ℕ → List ℕ → Bool
contains pattern [] = starts_with pattern []
contains pattern (c ∷ s) = starts_with pattern (c ∷ s) || contains pattern s
