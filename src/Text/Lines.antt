-- ===== src/Text/Lines.antt =====
-- Lines, and texts that are split at a character.

use distributed_system_based.Base.{
  ℕ, zero, suc, ◌+◌, ◌/◌, ◌%◌, ◌<◌, ◌≡◌, ap, refl, arith, List, [], ◌∷◌, ◌++◌, some, false, ◌==◌,
  All,
}
use distributed_system_based.Text.{
  is_digit, to_string, print_digits, split_at, lines, first_line, drop_return,
}
use distributed_system_based.Text.Words.{NoSpace, NoNewline}

-- A line comes off the front.
pub lines-append :
    (line rest : List ℕ) → NoNewline line → lines (line ++ (10 ∷ rest)) ≡ line ∷ lines rest
unfolding lines first_line
lines-append [] rest h = refl
lines-append (c ∷ line) rest (hc, h) = rw hc (rw (lines-append line rest h) refl)

pub drop_return-append : (line : List ℕ) → drop_return (line ++ (13 ∷ [])) ≡ line
unfolding drop_return
drop_return-append [] = refl
drop_return-append (c ∷ []) = refl
drop_return-append (c ∷ d ∷ line) = ap (λ l. c ∷ l) (drop_return-append (d ∷ line))

-- The character is not in the text.
abbrev pub Without : ℕ → List ℕ → Type 0
Without sep s = All (λ c. (c == sep) ≡ false) s

pub NoSpace-Without : (w : List ℕ) → NoSpace w → Without 32 w
NoSpace-Without [] h = tt
NoSpace-Without (c ∷ w) (hc, h) = (ground (arith, hc), NoSpace-Without w h)

pub split_at-append :
    (sep : ℕ) (front back : List ℕ)
    → Without sep front
    → split_at sep (front ++ (sep ∷ back)) ≡ some (front, back)
unfolding split_at
split_at-append sep [] back h = ground arith
split_at-append sep (c ∷ front) back (hc, h) = rw hc (rw (split_at-append sep front back h) refl)

-- A printed number has digits only.
print_digits-Without :
    (sep rounds n : ℕ) (tail : List ℕ)
    → is_digit sep ≡ false
    → Without sep tail
    → Without sep (print_digits rounds n tail)
unfolding print_digits
print_digits-Without sep zero n tail other h = (ground (arith, other), h)
print_digits-Without sep (suc rounds) n tail other h = ground (
  arith,
  print_digits-Without sep rounds (n / 10) ((48 + n % 10) ∷ tail) other,
  digit sep (n % 10) other,
  digit sep n other,
)
  where
    digit : (sep d : ℕ) → is_digit sep ≡ false → d < 10 → ((48 + d) == sep) ≡ false
    digit sep d other small = ground (arith, other)

pub to_string-Without : (sep n : ℕ) → is_digit sep ≡ false → Without sep (to_string n)
unfolding to_string
to_string-Without sep n other = print_digits-Without sep 19 n [] other tt

pub to_string-NoNewline : (n : ℕ) → NoNewline (to_string n)
to_string-NoNewline n = to_string-Without 10 n refl
