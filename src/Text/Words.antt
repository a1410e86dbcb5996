-- ===== src/Text/Words.antt =====
-- Words and blanks.
use distributed_system_based.Base.{
  ℕ, ◌≡◌, ◌==◌, refl, arith, List, [], ◌∷◌, ◌++◌, some, true, false, All,
}
use distributed_system_based.Text.{
  is_space, trim_start, trim_end, trim, word_and_rest, extract_word,
}

abbrev pub NoSpace : List ℕ → Type 0
NoSpace w = All (λ c. is_space c ≡ false) w

-- A text that is one line.
abbrev pub NoNewline : List ℕ → Type 0
NoNewline w = All (λ c. (c == 10) ≡ false) w

pub NoSpace-NoNewline : (w : List ℕ) → NoSpace w → NoNewline w
NoSpace-NoNewline [] h = tt
NoSpace-NoNewline (c ∷ w) h = (ground (arith, h.0), NoSpace-NoNewline w h.1)

pub NoNewline-append : (s t : List ℕ) → NoNewline s → NoNewline t → NoNewline (s ++ t)
NoNewline-append [] t hs ht = ht
NoNewline-append (c ∷ s) t (hc, hs) ht = (hc, NoNewline-append s t hs ht)

-- What ends a word: the end of the text, or a blank.
abbrev pub EndsWord : List ℕ → Type 0
EndsWord [] = Unit {0}
EndsWord (c ∷ s) = is_space c ≡ true

word_and_rest-append :
    (w rest : List ℕ) → NoSpace w → EndsWord rest → word_and_rest (w ++ rest) ≡ (w, rest)
unfolding word_and_rest
word_and_rest-append [] [] h ends = refl
word_and_rest-append [] (c ∷ rest) h ends = rw ends
word_and_rest-append (c ∷ w) rest h ends = ground (arith, word_and_rest-append w rest h.1 ends)

-- A word with no blank in it is read whole, behind one blank or none.
pub extract_word-append :
    (c : ℕ) (w rest : List ℕ)
    → NoSpace (c ∷ w)
    → EndsWord rest
    → extract_word ((c ∷ w) ++ rest) ≡ some (c ∷ w, rest)
unfolding extract_word trim_start
extract_word-append c w rest h ends = ground (arith, word_and_rest-append (c ∷ w) rest h ends)

pub extract_word-blank : (s : List ℕ) → extract_word (32 ∷ s) ≡ extract_word s
unfolding extract_word trim_start
extract_word-blank s = refl

-- `trim_end` changes nothing behind which a word without blanks stands.
pub trim_end-NoSpace : (w : List ℕ) → NoSpace w → trim_end w ≡ w
unfolding trim_end
trim_end-NoSpace [] h = refl
trim_end-NoSpace (c ∷ []) h = rw h.0
trim_end-NoSpace (c ∷ d ∷ w) h = rw (trim_end-NoSpace (d ∷ w) h.1)

-- What stands in front of a text that `trim_end` leaves alone is left alone too.
pub trim_end-behind :
    (s : List ℕ) (c : ℕ) (w : List ℕ)
    → trim_end (c ∷ w) ≡ c ∷ w
    → trim_end (s ++ (c ∷ w)) ≡ s ++ (c ∷ w)
unfolding trim_end
trim_end-behind [] c w h = h
trim_end-behind (b ∷ []) c w h = rw (trim_end-behind [] c w h)
trim_end-behind (b ∷ d ∷ s) c w h = rw (trim_end-behind (d ∷ s) c w h)

-- `trim` keeps a text that begins with no blank and ends in a word.
pub trim-append :
    (b : ℕ) (s : List ℕ) (c : ℕ) (w : List ℕ)
    → is_space b ≡ false
    → NoSpace (c ∷ w)
    → trim ((b ∷ s) ++ (c ∷ w)) ≡ (b ∷ s) ++ (c ∷ w)
unfolding trim trim_start
trim-append b s c w hb hw = rw hb (trim_end-behind (b ∷ s) c w (trim_end-NoSpace (c ∷ w) hw))
