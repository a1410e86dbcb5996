-- ===== src/Lsm/MemTable/Entries.antt =====
-- The encoded entries of a memtable: their parts and their order.
use distributed_system_based.Base.{
  ℕ, ◌+◌, ◌%◌, ◌^◌, ◌<◌, ◌≤◌, ◌≡◌, ◌∙◌, ap, sym, refl, arith, List, [], ◌++◌, some, none, ◌==◌,
  if◌then◌else◌, length, append_assoc, append-nil, length-append,
}
use distributed_system_based.Coding.{
  IsU32, encode_fixed64, encode_varint32, get_length_prefixed_slice,
}
use distributed_system_based.Coding.Fixed.{length-encode_fixed64}
use distributed_system_based.Coding.Slices.{length_prefixed, get-length_prefixed}
use distributed_system_based.Master.Database.{Answer, hit, miss}
use distributed_system_based.Lsm.{
  pack_sequence_and_type, max_sequence_number, compare_bytes, compare_parts, compare_internal,
  lookup_key,
}
use distributed_system_based.Lsm.Order.{
  is_before, is_equal, extract_user_key-append, extract_tag-append,
}
use distributed_system_based.Lsm.MemTable.{memtable_entry, entry_key, entry_is_less, entry_answer}

pub record Entry : Type 0 where
  pub user_key : List ℕ
  pub sequence : ℕ
  pub type : ℕ
  pub value : List ℕ

-- An entry that `Add` can encode.
pub record IsEntry (e : Entry) : Type 0 where
  pub key_fits : length e.user_key + 8 < 2 ^ 32
  pub value_fits : IsU32 (length e.value)
  pub in_sequence : e.sequence ≤ max_sequence_number
  pub typed : e.type ≤ 1

abbrev pub encoded_entry : Entry → List ℕ
encoded_entry e = memtable_entry e.sequence e.type e.user_key e.value

abbrev pub tag : Entry → ℕ
tag e = pack_sequence_and_type e.sequence e.type

abbrev pub answer_of : Entry → Answer
answer_of e = if e.type == 1 then hit e.value else miss

-- A key with its number behind it.
module _ (key : List ℕ) (number : ℕ) where
  abbrev numbered : List ℕ
  numbered = key ++ encode_fixed64 number

  length-numbered : length numbered ≡ length key + 8
  length-numbered =
      omega (arith, length-append key (encode_fixed64 number), length-encode_fixed64 number)

  prefixed-numbered :
      (rest : List ℕ)
      → encode_varint32 ((length key + 8) % 2 ^ 32) ++ (key ++ (encode_fixed64 number ++ rest))
        ≡ length_prefixed numbered ++ rest
  unfolding length_prefixed
  prefixed-numbered rest =
      ap (λ (n : ℕ). encode_varint32 (n % 2 ^ 32) ++ (key ++ (encode_fixed64 number ++ rest)))
        (sym length-numbered)
      ∙ simp append_assoc

module _ (e : Entry) (h : IsEntry e) where
  split_entry :
      encoded_entry e ≡ length_prefixed (numbered e.user_key (tag e)) ++ length_prefixed e.value
  unfolding memtable_entry length_prefixed
  split_entry =
      prefixed-numbered e.user_key (tag e) (encode_varint32 (length e.value % 2 ^ 32) ++ e.value)

  entry_key-encoded : entry_key (encoded_entry e) ≡ numbered e.user_key (tag e)
  unfolding entry_key
  entry_key-encoded = rw split_entry (
      rw
        (get-length_prefixed (numbered e.user_key (tag e)) (length_prefixed e.value)
          (omega (arith, length-numbered e.user_key (tag e), h.key_fits)))
        refl)

  type_of_tag : tag e % 256 ≡ e.type
  type_of_tag = omega (arith, h.typed, h.in_sequence)

  pub entry_answer-encoded :
      (user_key : List ℕ)
      → entry_answer user_key (encoded_entry e)
        ≡ (if is_equal (compare_bytes e.user_key user_key) then some (answer_of e) else none)
  unfolding entry_answer
  entry_answer-encoded user_key = rw split_entry (
      rw
        (get-length_prefixed (numbered e.user_key (tag e)) (length_prefixed e.value)
          (omega (arith, length-numbered e.user_key (tag e), h.key_fits)))
        (rw (extract_user_key-append e.user_key e.sequence e.type h.in_sequence h.typed) (
          rw (extract_tag-append e.user_key e.sequence e.type h.in_sequence h.typed)
            (rw type_of_tag (rw value_lem (ground (arith, h.typed)))))))
    where
      value_lem : get_length_prefixed_slice (length_prefixed e.value) ≡ some (e.value, [])
      value_lem =
          ap get_length_prefixed_slice (sym (append-nil (length_prefixed e.value)))
          ∙ get-length_prefixed e.value [] h.value_fits

entry_key-lookup_key :
    (user_key : List ℕ) (seq : ℕ)
    → length user_key + 8 < 2 ^ 32
    → entry_key (lookup_key user_key seq) ≡ numbered user_key (pack_sequence_and_type seq 1)
unfolding entry_key lookup_key
entry_key-lookup_key user_key seq h =
    let number : ℕ = pack_sequence_and_type seq 1 in
    rw
      (ap (λ (l : List ℕ). encode_varint32 ((length user_key + 8) % 2 ^ 32) ++ (user_key ++ l))
          (sym (append-nil (encode_fixed64 number)))
        ∙ prefixed-numbered user_key number [])
      (rw
        (get-length_prefixed (numbered user_key number) []
          (omega (arith, length-numbered user_key number)))
        refl)

-- The order of two entries, and of an entry and a key that is looked up.
pub entry_is_less-encoded :
    (a b : Entry)
    → IsEntry a
    → IsEntry b
    → entry_is_less (encoded_entry a) (encoded_entry b)
      ≡ is_before (compare_parts a.user_key (tag a) b.user_key (tag b))
unfolding entry_is_less compare_internal
entry_is_less-encoded a b ha hb = rw (entry_key-encoded a ha) (
    rw (entry_key-encoded b hb) (
      rw (extract_user_key-append a.user_key a.sequence a.type ha.in_sequence ha.typed) (
        rw (extract_user_key-append b.user_key b.sequence b.type hb.in_sequence hb.typed) (
          rw (extract_tag-append a.user_key a.sequence a.type ha.in_sequence ha.typed)
            (rw (extract_tag-append b.user_key b.sequence b.type hb.in_sequence hb.typed) refl)))))

pub entry_is_less-lookup_key :
    (a : Entry) (user_key : List ℕ) (seq : ℕ)
    → IsEntry a
    → length user_key + 8 < 2 ^ 32
    → seq ≤ max_sequence_number
    → entry_is_less (encoded_entry a) (lookup_key user_key seq)
      ≡ is_before (compare_parts a.user_key (tag a) user_key (pack_sequence_and_type seq 1))
unfolding entry_is_less compare_internal
entry_is_less-lookup_key a user_key seq ha h hs = rw (entry_key-encoded a ha) (
    rw (entry_key-lookup_key user_key seq h) (
      rw (extract_user_key-append a.user_key a.sequence a.type ha.in_sequence ha.typed) (
        rw (extract_user_key-append user_key seq 1 hs (omega arith)) (
          rw (extract_tag-append a.user_key a.sequence a.type ha.in_sequence ha.typed)
            (rw (extract_tag-append user_key seq 1 hs (omega arith)) refl)))))
