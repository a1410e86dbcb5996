-- ===== src/Lsm/Order.antt =====
-- The order of internal keys.
use Prim.Native.Nat.{Ordering}
use distributed_system_based.Base.{
  ℕ, ◌-◌, ◌^◌, ◌<◌, ◌≤◌, ◌≡◌, ◌∙◌, sym, refl, arith, List, [], ◌∷◌, ◌++◌, some, Bool, true, false,
  ltb, length, length-append, take-append_exact, drop-append_exact, append-nil,
}
use distributed_system_based.Coding.{encode_fixed64, put_fixed64}
use distributed_system_based.Coding.Fixed.{decode_fixed64-encode_fixed64, length-encode_fixed64}
use distributed_system_based.Lsm.{
  pack_sequence_and_type, append_internal_key, extract_user_key, extract_tag, parse_internal_key,
  compare_bytes, compare_parts, max_sequence_number,
}

abbrev pub is_before : Ordering → Bool
is_before Ordering.lt = true
is_before Ordering.eq = false
is_before Ordering.gt = false

abbrev pub is_equal : Ordering → Bool
is_equal Ordering.lt = false
is_equal Ordering.eq = true
is_equal Ordering.gt = false

pub compare_bytes_refl : (a : List ℕ) → compare_bytes a a ≡ Ordering.eq
unfolding compare_bytes
compare_bytes_refl [] = refl
compare_bytes_refl (x ∷ a) = ground (arith, compare_bytes_refl a)

pub compare_bytes_sound : (a b : List ℕ) → compare_bytes a b ≡ Ordering.eq → a ≡ b
unfolding compare_bytes
compare_bytes_sound [] [] h = refl
compare_bytes_sound [] (y ∷ b) h = ground arith
compare_bytes_sound (x ∷ a) [] h = ground arith
compare_bytes_sound (x ∷ a) (y ∷ b) h = ground (arith, compare_bytes_sound a b)

compare_bytes_trans :
    (a b c : List ℕ)
    → compare_bytes a b ≡ Ordering.lt
    → compare_bytes b c ≡ Ordering.lt
    → compare_bytes a c ≡ Ordering.lt
unfolding compare_bytes
compare_bytes_trans [] [] c h k = ground arith
compare_bytes_trans [] (y ∷ b) [] h k = ground arith
compare_bytes_trans [] (y ∷ b) (z ∷ c) h k = refl
compare_bytes_trans (x ∷ a) [] c h k = ground arith
compare_bytes_trans (x ∷ a) (y ∷ b) [] h k = ground arith
compare_bytes_trans (x ∷ a) (y ∷ b) (z ∷ c) h k = ground (arith, compare_bytes_trans a b c)

-- The order of keys with numbers.
pub before_parts_trans :
    (a : List ℕ) (m : ℕ) (b : List ℕ) (n : ℕ) (c : List ℕ) (o : ℕ)
    → is_before (compare_parts a m b n) ≡ true
    → is_before (compare_parts b n c o) ≡ true
    → is_before (compare_parts a m c o) ≡ true
before_parts_trans a m b n c o h k = ground (
  arith,
  compare_bytes_trans a b c,
  compare_bytes_sound a b,
  compare_bytes_sound b c,
  compare_bytes_refl a,
)

module _ (user_key : List ℕ) (seq t : ℕ) (hs : seq ≤ max_sequence_number) (ht : t ≤ 1) where
  tag_fits : pack_sequence_and_type seq t < 2 ^ 64
  tag_fits = omega arith

  internal :
      append_internal_key [] user_key seq t
      ≡ user_key ++ encode_fixed64 (pack_sequence_and_type seq t)
  unfolding append_internal_key put_fixed64
  internal = refl

  key_length :
      length (user_key ++ encode_fixed64 (pack_sequence_and_type seq t)) - 8 ≡ length user_key
  key_length = omega (
    arith,
    length-append user_key (encode_fixed64 (pack_sequence_and_type seq t)),
    length-encode_fixed64 (pack_sequence_and_type seq t),
  )

  pub extract_user_key-append :
      extract_user_key (user_key ++ encode_fixed64 (pack_sequence_and_type seq t)) ≡ user_key
  unfolding extract_user_key
  extract_user_key-append = take-append_exact _ user_key _ key_length

  pub extract_tag-append :
      extract_tag (user_key ++ encode_fixed64 (pack_sequence_and_type seq t))
      ≡ pack_sequence_and_type seq t
  unfolding extract_tag
  extract_tag-append =
      rw
        (drop-append_exact _ user_key (encode_fixed64 (pack_sequence_and_type seq t)) key_length
          ∙ sym (append-nil (encode_fixed64 (pack_sequence_and_type seq t))))
        (rw (decode_fixed64-encode_fixed64 (pack_sequence_and_type seq t) [] tag_fits) refl)

  -- An internal key of a sequence number below 2^56 and one of the two types is parsed back into its
  -- parts.
  pub parse_internal_key-append_internal_key :
      parse_internal_key (append_internal_key [] user_key seq t)
      ≡ some (record { user_key = user_key; sequence = seq; type = t })
  unfolding parse_internal_key
  parse_internal_key-append_internal_key =
      let long : ltb (length (user_key ++ encode_fixed64 (pack_sequence_and_type seq t))) 8
          ≡ false =
        ground (
          arith,
          length-append user_key (encode_fixed64 (pack_sequence_and_type seq t)),
          length-encode_fixed64 (pack_sequence_and_type seq t),
        ) in
      rw internal (rw long (rw extract_tag-append (rw extract_user_key-append (ground arith))))
