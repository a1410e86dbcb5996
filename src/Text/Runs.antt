-- ===== src/Text/Runs.antt =====
-- Runs of the text tools.
use distributed_system_based.Base.{◌≡◌, refl, some, none}
use distributed_system_based.Text.{
  codes, trim, trim_start, trim_end, extract_word, word_and_rest, extract_u64, read_digits,
  to_string, print_digits,
}

trim_runs : trim (codes " a b ") ≡ codes "a b"
unfolding trim trim_start trim_end
trim_runs = refl

word_runs : extract_word (codes "  put x") ≡ some (codes "put", codes " x")
unfolding extract_word word_and_rest trim_start
word_runs = refl

u64_runs : extract_u64 (codes " 18446744073709551615 7") ≡ some (0xffff_ffff_ffff_ffff, codes " 7")
unfolding extract_u64 read_digits trim_start
u64_runs = refl

u64_overflows : extract_u64 (codes "18446744073709551616") ≡ none
unfolding extract_u64 read_digits trim_start
u64_overflows = refl

print_runs : to_string 9000 ≡ codes "9000"
unfolding to_string print_digits
print_runs = refl
