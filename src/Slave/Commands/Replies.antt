-- ===== src/Slave/Commands/Replies.antt =====
-- The responses of the master as the worker reads them.
use distributed_system_based.Base.{
  ℕ, zero, suc, ◌+◌, ◌%◌, ◌/◌, ◌<◌, ◌≤◌, ◌≡◌, ◌∙◌, sym, refl, arith, List, [], ◌∷◌, ◌++◌, some,
  true, false, All, All-append, append_assoc, append-nil,
}
use distributed_system_based.Text.{
  codes, trim, trim_start, trim_end, to_string, print_digits, contains, starts_with,
}
use distributed_system_based.Text.Numbers.{extract_u64-blank}
use distributed_system_based.Text.Words.{trim-append}
use distributed_system_based.Wire.Numbers.{FitsU64, extract_address-show_address}
use distributed_system_based.Wire.Requests.{to_string_word}
use distributed_system_based.Master.{Address, show_address, extract_address}
use distributed_system_based.Master.Commands.{address_reply}
use distributed_system_based.Slave.Commands.{reply_address}

-- Digits and blanks are at most 57, letters are above.
abbrev Low : List ℕ → Type 0
Low s = All (λ c. c ≤ 57) s

print_digits-Low : (rounds n : ℕ) (tail : List ℕ) → Low tail → Low (print_digits rounds n tail)
unfolding print_digits
print_digits-Low zero n tail h = (ground arith, h)
print_digits-Low (suc rounds) n tail h =
    ground (arith, print_digits-Low rounds (n / 10) ((48 + n % 10) ∷ tail))

to_string-Low : (n : ℕ) → Low (to_string n)
unfolding to_string
to_string-Low n = print_digits-Low 19 n [] tt

show_address-Low : (a : Address) → Low (show_address a ++ codes "\r\n")
unfolding show_address
show_address-Low a = simp append_assoc (
    join (to_string a.vlog_numb) _ (to_string-Low a.vlog_numb) (
      omega arith,
      join (to_string a.offset) _ (to_string-Low a.offset)
          (omega arith, join (to_string a.size) _ (to_string-Low a.size) (omega arith)),
    ))
  where
    join : (xs ys : List ℕ) → Low xs → Low ys → Low (xs ++ ys)
    join = All-append (λ c. c ≤ 57)

contains-Low : (p : ℕ) (pattern s : List ℕ) → 57 < p → Low s → contains (p ∷ pattern) s ≡ false
unfolding contains starts_with
contains-Low p pattern [] hp hs = refl
contains-Low p pattern (c ∷ s) hp hs = ground (arith, contains-Low p pattern s hp hs.1)

-- A response with an address is neither a miss nor an error.
pub address_reply-clean :
    (a : Address)
    → (contains (codes "NOT_FOUND") (address_reply a) ≡ false)
      × (contains (codes "ERROR") (address_reply a) ≡ false)
      × (starts_with (codes "ADDR ") (address_reply a) ≡ true)
unfolding contains starts_with
address_reply-clean a = (
  contains-Low b'N' (codes "OT_FOUND") (show_address a ++ codes "\r\n") (omega arith)
      (show_address-Low a),
  contains-Low b'E' (codes "RROR") (show_address a ++ codes "\r\n") (omega arith)
      (show_address-Low a),
  refl,
)

trim_end-line : (s : List ℕ) → trim_end (s ++ codes "\r\n") ≡ trim_end s
unfolding trim_end
trim_end-line [] = refl
trim_end-line (c ∷ s) = rw (trim_end-line s) refl

trim-line : (a : Address) → trim (address_reply a) ≡ trim (codes "ADDR " ++ show_address a)
unfolding trim trim_start
trim-line a = trim_end-line (codes "ADDR " ++ show_address a)

trim-words :
    (a : Address) → trim (codes "ADDR " ++ show_address a) ≡ codes "ADDR " ++ show_address a
trim-words a =
    let (c, w, e, digits) = to_string_word a.size in
    rw split (rw e (trim-append b'A' (codes "DDR " ++ front) c w (ground arith) digits))
  where
    front : List ℕ
    front = to_string a.vlog_numb ++ (32 ∷ (to_string a.offset ++ (32 ∷ [])))

    split : codes "ADDR " ++ show_address a ≡ (codes "ADDR " ++ front) ++ to_string a.size
    split = unfold show_address in simp append_assoc

extract_address-blank : (s : List ℕ) → extract_address (32 ∷ s) ≡ extract_address s
unfolding extract_address
extract_address-blank s = rw (extract_u64-blank s) refl

-- The address in a response of GET_ADDR is the one that the master put there.
pub reply_address-address_reply :
    (a : Address)
    → FitsU64 a
    → (trim (address_reply a) ≡ codes "ADDR " ++ show_address a)
      × (reply_address (address_reply a) ≡ some a)
unfolding reply_address
reply_address-address_reply a h =
    let e : trim (address_reply a) ≡ codes "ADDR " ++ show_address a = trim-line a ∙ trim-words a in
    (e, rw e (rw read refl))
  where
    read : extract_address (show_address a) ≡ some (a, [])
    read =
        sym (extract_address-blank (show_address a))
        ∙ (rw (append-nil (show_address a)) at (extract_address-show_address a [] h tt))
