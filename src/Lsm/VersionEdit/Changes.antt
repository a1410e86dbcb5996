-- ===== src/Lsm/VersionEdit/Changes.antt =====
-- An edit on its way to the MANIFEST is a sequence of changes; each is a tag and its body.
use distributed_system_based.Base.{
  ℕ, zero, suc, ◌<◌, ◌≤◌, ◌≡◌, ◌∙◌, refl, arith, List, [], ◌∷◌, ◌++◌, some, length, All,
  append_assoc, length-append,
}
use distributed_system_based.Coding.{
  IsU32, IsU64, encode_varint32, encode_varint64, get_varint32, get_varint32_ptr,
  get_varint32_ptr_fallback, get_varint_loop,
}
use distributed_system_based.Coding.Varint.{
  get_varint32-encode_varint32, get_varint64-encode_varint64,
}
use distributed_system_based.Coding.Slices.{length_prefixed, get-length_prefixed}
use distributed_system_based.Status.{ok}
use distributed_system_based.Lsm.VersionEdit.{VersionEdit}
use distributed_system_based.Lsm.VersionEdit.Decode.{
  Change, has_comparator, has_vlog_info, has_log_number, has_prev_log_number, has_next_file_number,
  has_last_sequence, has_head_info, has_tail_info, compact_pointer, deleted_file, new_file,
  get_level, get_internal_key, read_number, read_slice, read_tail, read_pointer, read_deleted,
  read_new_file, read_change, apply_change, decode_loop,
}

abbrev pub change_tag : Change → ℕ
change_tag (has_comparator s) = 1
change_tag (has_vlog_info s) = 11
change_tag (has_log_number n) = 2
change_tag (has_prev_log_number n) = 9
change_tag (has_next_file_number n) = 3
change_tag (has_last_sequence n) = 4
change_tag (has_head_info n) = 10
change_tag (has_tail_info number tail) = 12
change_tag (compact_pointer level key) = 5
change_tag (deleted_file level number) = 6
change_tag (new_file level f) = 7

unfoldable pub change_body : Change → List ℕ
change_body (has_comparator s) = length_prefixed s
change_body (has_vlog_info s) = length_prefixed s
change_body (has_log_number n) = encode_varint64 n
change_body (has_prev_log_number n) = encode_varint64 n
change_body (has_next_file_number n) = encode_varint64 n
change_body (has_last_sequence n) = encode_varint64 n
change_body (has_head_info n) = encode_varint64 n
change_body (has_tail_info number tail) = encode_varint64 number ++ encode_varint64 tail
change_body (compact_pointer level key) = encode_varint32 level ++ length_prefixed key
change_body (deleted_file level number) = encode_varint32 level ++ encode_varint64 number
change_body (new_file level f) =
    encode_varint32 level
    ++ (encode_varint64 f.number
        ++ (encode_varint64 f.file_size
            ++ (length_prefixed f.smallest ++ length_prefixed f.largest)))

abbrev pub change_bytes : List Change → List ℕ
change_bytes [] = []
change_bytes (c ∷ cs) = encode_varint32 (change_tag c) ++ (change_body c ++ change_bytes cs)

abbrev pub applied : List Change → VersionEdit → VersionEdit
applied [] e = e
applied (c ∷ cs) e = applied cs (apply_change c e)

abbrev pub IsInternalKey : List ℕ → Type 0
IsInternalKey key = IsU32 (length key) × (0 < length key)

abbrev pub Fits : Change → Type 0
Fits (has_comparator s) = IsU32 (length s)
Fits (has_vlog_info s) = IsU32 (length s)
Fits (has_log_number n) = IsU64 n
Fits (has_prev_log_number n) = IsU64 n
Fits (has_next_file_number n) = IsU64 n
Fits (has_last_sequence n) = IsU64 n
Fits (has_head_info n) = IsU64 n
Fits (has_tail_info number tail) = IsU64 number × IsU64 tail
Fits (compact_pointer level key) = (level < 7) × IsInternalKey key
Fits (deleted_file level number) = (level < 7) × IsU64 number
Fits (new_file level f) =
    (level < 7)
    × IsU64 f.number
    × IsU64 f.file_size
    × IsInternalKey f.smallest
    × IsInternalKey f.largest

get_level-encode_varint32 :
    (level : ℕ) (rest : List ℕ)
    → level < 7
    → get_level (encode_varint32 level ++ rest) ≡ some (level, rest)
unfolding get_level
get_level-encode_varint32 level rest h =
    rw (get_varint32-encode_varint32 level rest (omega arith)) (ground arith)

get_internal_key-length_prefixed :
    (key rest : List ℕ)
    → IsInternalKey key
    → get_internal_key (length_prefixed key ++ rest) ≡ some (key, rest)
unfolding get_internal_key
get_internal_key-length_prefixed [] rest (short, nonempty) = absurd (omega arith)
get_internal_key-length_prefixed (b ∷ key) rest (short, nonempty) =
    rw (get-length_prefixed (b ∷ key) rest short) refl

read_change-change_body :
    (c : Change) (rest : List ℕ)
    → Fits c
    → read_change (change_tag c) (change_body c ++ rest) ≡ some (c, rest)
unfolding read_change change_body read_number read_slice read_tail read_pointer read_deleted
    read_new_file
read_change-change_body (has_comparator s) rest h = rw (get-length_prefixed s rest h) refl
read_change-change_body (has_vlog_info s) rest h = rw (get-length_prefixed s rest h) refl
read_change-change_body (has_log_number n) rest h = rw (get_varint64-encode_varint64 n rest h) refl
read_change-change_body (has_prev_log_number n) rest h =
    rw (get_varint64-encode_varint64 n rest h) refl
read_change-change_body (has_next_file_number n) rest h =
    rw (get_varint64-encode_varint64 n rest h) refl
read_change-change_body (has_last_sequence n) rest h =
    rw (get_varint64-encode_varint64 n rest h) refl
read_change-change_body (has_head_info n) rest h = rw (get_varint64-encode_varint64 n rest h) refl
read_change-change_body (has_tail_info number tail) rest (hn, ht) =
    rw (append_assoc (encode_varint64 number) (encode_varint64 tail) rest) (
      rw (get_varint64-encode_varint64 number (encode_varint64 tail ++ rest) hn)
        (rw (get_varint64-encode_varint64 tail rest ht) refl))
read_change-change_body (compact_pointer level key) rest (hl, hk) =
    rw (append_assoc (encode_varint32 level) (length_prefixed key) rest) (
      rw (get_level-encode_varint32 level (length_prefixed key ++ rest) hl)
        (rw (get_internal_key-length_prefixed key rest hk) refl))
read_change-change_body (deleted_file level number) rest (hl, hn) =
    rw (append_assoc (encode_varint32 level) (encode_varint64 number) rest) (
      rw (get_level-encode_varint32 level (encode_varint64 number ++ rest) hl)
        (rw (get_varint64-encode_varint64 number rest hn) refl))
read_change-change_body (new_file level f) rest (hl, hn, hs, hf, ht) =
    rw (append_assoc (encode_varint32 level) _ rest) (
      rw (get_level-encode_varint32 level _ hl) (
        rw (append_assoc (encode_varint64 f.number) _ rest) (
          rw (get_varint64-encode_varint64 f.number _ hn) (
            rw (append_assoc (encode_varint64 f.file_size) _ rest) (
              rw (get_varint64-encode_varint64 f.file_size _ hs) (
                rw (append_assoc (length_prefixed f.smallest) (length_prefixed f.largest) rest) (
                  rw (get_internal_key-length_prefixed f.smallest _ hf)
                    (rw (get_internal_key-length_prefixed f.largest rest ht) refl))))))))

change_tag-IsU32 : (c : Change) → IsU32 (change_tag c)
change_tag-IsU32 c = ground arith

tag_length : (c : Change) → 0 < length (encode_varint32 (change_tag c))
unfolding encode_varint32
tag_length c = ground arith

decode_loop_reads :
    (fuel tag : ℕ) (input rest rest' : List ℕ) (c : Change) (e : VersionEdit)
    → get_varint32 input ≡ some (tag, rest)
    → read_change tag rest ≡ some (c, rest')
    → decode_loop (suc fuel) input e ≡ decode_loop fuel rest' (apply_change c e)
unfolding decode_loop
decode_loop_reads fuel tag input rest rest' c e et ec =
    rw (et, decode_loop) (rw (ec, decode_loop) refl)

decode_loop-step :
    (fuel : ℕ) (c : Change) (rest : List ℕ) (e : VersionEdit)
    → Fits c
    → decode_loop (suc fuel) (encode_varint32 (change_tag c) ++ (change_body c ++ rest)) e
      ≡ decode_loop fuel rest (apply_change c e)
decode_loop-step fuel c rest e h =
    decode_loop_reads fuel (change_tag c) _ (change_body c ++ rest) rest c e
      (get_varint32-encode_varint32 (change_tag c) (change_body c ++ rest) (change_tag-IsU32 c))
      (read_change-change_body c rest h)

decode_loop_empty : (fuel : ℕ) (e : VersionEdit) → decode_loop fuel [] e ≡ (ok, e)
unfolding decode_loop get_varint32 get_varint32_ptr get_varint32_ptr_fallback get_varint_loop
decode_loop_empty zero e = refl
decode_loop_empty (suc fuel) e = refl

pub decode_loop-change_bytes :
    (cs : List Change) (fuel : ℕ) (e : VersionEdit)
    → All Fits cs
    → length (change_bytes cs) ≤ fuel
    → decode_loop fuel (change_bytes cs) e ≡ (ok, applied cs e)
unfolding decode_loop
decode_loop-change_bytes [] fuel e h enough = decode_loop_empty fuel e
decode_loop-change_bytes (c ∷ cs) zero e (hc, hs) enough = absurd (
    omega (
      arith,
      tag_length c,
      length-append (encode_varint32 (change_tag c)) (change_body c ++ change_bytes cs),
    ))
decode_loop-change_bytes (c ∷ cs) (suc fuel) e (hc, hs) enough =
    decode_loop-step fuel c (change_bytes cs) e hc
    ∙ decode_loop-change_bytes cs fuel (apply_change c e) hs (
        omega (
          arith,
          tag_length c,
          length-append (encode_varint32 (change_tag c)) (change_body c ++ change_bytes cs),
          length-append (change_body c) (change_bytes cs),
        ))
