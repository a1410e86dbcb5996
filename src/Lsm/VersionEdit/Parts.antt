-- ===== src/Lsm/VersionEdit/Parts.antt =====
-- `EncodeTo` writes the changes of an edit, one part after the other.
use distributed_system_based.Base.{
  ℕ, ◌≡◌, ◌∙◌, ap, sym, refl, List, [], ◌∷◌, ◌++◌, Option, none, some, append-nil, append_assoc,
}
use distributed_system_based.Coding.{encode_varint32, encode_varint64, put_varint32, put_varint64}
use distributed_system_based.Coding.Slices.{length_prefixed, put_length_prefixed_slice_lem}
use distributed_system_based.Lsm.VersionEdit.{
  FileMetaData, VersionEdit, put_slice_field, put_number_field, put_tail, put_pointers, put_deleted,
  put_new_files, encode_edit,
}
use distributed_system_based.Lsm.VersionEdit.Decode.{
  Change, has_comparator, has_vlog_info, has_log_number, has_prev_log_number, has_next_file_number,
  has_last_sequence, has_head_info, has_tail_info, compact_pointer, deleted_file, new_file,
}
use distributed_system_based.Lsm.VersionEdit.Changes.{change_tag, change_body, change_bytes}

abbrev pub from_option : {A : Type 0} → (A → Change) → Option A → List Change
from_option change none = []
from_option change (some x) = change x ∷ []

abbrev pub from_tail : Option (ℕ × ℕ) → List Change
from_tail none = []
from_tail (some (number, tail)) = has_tail_info number tail ∷ []

abbrev pub from_pairs : {A : Type 0} → (ℕ → A → Change) → List (ℕ × A) → List Change
from_pairs change [] = []
from_pairs change ((level, x) ∷ pairs) = change level x ∷ from_pairs change pairs

abbrev pub changes_of : VersionEdit → List Change
changes_of e =
    let cs = from_option has_comparator e.comparator in
    let cs = cs ++ from_option has_log_number e.log_number in
    let cs = cs ++ from_option has_prev_log_number e.prev_log_number in
    let cs = cs ++ from_option has_next_file_number e.next_file_number in
    let cs = cs ++ from_option has_last_sequence e.last_sequence in
    let cs = cs ++ from_option has_head_info e.head_info in
    let cs = cs ++ from_tail e.tail_info in
    let cs = cs ++ from_option has_vlog_info e.vlog_info in
    let cs = cs ++ from_pairs compact_pointer e.compact_pointers in
    let cs = cs ++ from_pairs deleted_file e.deleted_files in cs ++ from_pairs new_file e.new_files

change_bytes-append :
    (cs ds : List Change) → change_bytes (cs ++ ds) ≡ change_bytes cs ++ change_bytes ds
change_bytes-append [] ds = refl
change_bytes-append (c ∷ cs) ds =
    ap (λ (l : List ℕ). encode_varint32 (change_tag c) ++ (change_body c ++ l))
      (change_bytes-append cs ds)
    ∙ simp (append_assoc)

-- A part of `EncodeTo` that appends the bytes of some changes.
abbrev pub Appends : (List ℕ → List ℕ) → List Change → Type 0
Appends f cs = (dst : List ℕ) → f dst ≡ dst ++ change_bytes cs

both :
    (f g : List ℕ → List ℕ) (cs ds : List Change)
    → Appends f cs
    → Appends g ds
    → Appends (λ dst. g (f dst)) (cs ++ ds)
both f g cs ds hf hg dst =
    hg (f dst)
    ∙ ap (λ (l : List ℕ). l ++ change_bytes ds) (hf dst)
    ∙ append_assoc dst (change_bytes cs) (change_bytes ds)
    ∙ ap (λ (l : List ℕ). dst ++ l) (sym (change_bytes-append cs ds))

one : (dst front body : List ℕ) → (dst ++ front) ++ body ≡ dst ++ (front ++ (body ++ []))
one dst front body = simp (append_assoc, append-nil)

put_number_field_lem :
    (tag : ℕ) (change : ℕ → Change) (x : Option ℕ)
    → ((n : ℕ) → change_tag (change n) ≡ tag)
    → ((n : ℕ) → change_body (change n) ≡ encode_varint64 n)
    → Appends (λ dst. put_number_field tag dst x) (from_option change x)
unfolding put_varint32 put_varint64
put_number_field_lem tag change none ht hb dst = sym (append-nil dst)
put_number_field_lem tag change (some n) ht hb dst =
    rw (ht n) (rw (hb n) (one dst (encode_varint32 tag) (encode_varint64 n)))

put_slice_field_lem :
    (tag : ℕ) (change : List ℕ → Change) (x : Option (List ℕ))
    → ((s : List ℕ) → change_tag (change s) ≡ tag)
    → ((s : List ℕ) → change_body (change s) ≡ length_prefixed s)
    → Appends (λ dst. put_slice_field tag dst x) (from_option change x)
unfolding put_varint32
put_slice_field_lem tag change none ht hb dst = sym (append-nil dst)
put_slice_field_lem tag change (some s) ht hb dst =
    put_length_prefixed_slice_lem _ s
    ∙ rw (ht s) (rw (hb s) (one dst (encode_varint32 tag) (length_prefixed s)))

put_tail_lem : (x : Option (ℕ × ℕ)) → Appends (λ dst. put_tail dst x) (from_tail x)
unfolding put_varint32 put_varint64 change_body
put_tail_lem none dst = sym (append-nil dst)
put_tail_lem (some (number, tail)) dst = simp (append_assoc, append-nil)

one_more :
    (f : List ℕ → List ℕ) (c : Change) (cs : List Change) (dst next : List ℕ)
    → Appends f cs
    → next ≡ dst ++ (encode_varint32 (change_tag c) ++ change_body c)
    → f next ≡ dst ++ change_bytes (c ∷ cs)
one_more f c cs dst next h e =
    h next ∙ ap (λ (l : List ℕ). l ++ change_bytes cs) e ∙ simp (append_assoc)

put_pointers_lem :
    (ps : List (ℕ × List ℕ)) → Appends (λ dst. put_pointers dst ps) (from_pairs compact_pointer ps)
unfolding put_varint32 change_body
put_pointers_lem [] dst = sym (append-nil dst)
put_pointers_lem ((level, key) ∷ ps) dst =
    one_more (λ d. put_pointers d ps) (compact_pointer level key) (from_pairs compact_pointer ps)
      dst _ (put_pointers_lem ps) (put_length_prefixed_slice_lem _ key ∙ simp (append_assoc))

put_deleted_lem :
    (ps : List (ℕ × ℕ)) → Appends (λ dst. put_deleted dst ps) (from_pairs deleted_file ps)
unfolding put_varint32 put_varint64 change_body
put_deleted_lem [] dst = sym (append-nil dst)
put_deleted_lem ((level, number) ∷ ps) dst =
    one_more (λ d. put_deleted d ps) (deleted_file level number) (from_pairs deleted_file ps) dst _
      (put_deleted_lem ps) (simp (append_assoc))

put_new_files_lem :
    (ps : List (ℕ × FileMetaData)) → Appends (λ dst. put_new_files dst ps) (from_pairs new_file ps)
unfolding put_varint32 put_varint64 change_body
put_new_files_lem [] dst = sym (append-nil dst)
put_new_files_lem ((level, f) ∷ ps) dst =
    one_more (λ d. put_new_files d ps) (new_file level f) (from_pairs new_file ps) dst _
      (put_new_files_lem ps)
      (put_length_prefixed_slice_lem _ f.largest
        ∙ ap (λ (l : List ℕ). l ++ length_prefixed f.largest)
            (put_length_prefixed_slice_lem _ f.smallest)
        ∙ simp (append_assoc))

pub encode_edit-change_bytes : (e : VersionEdit) → Appends (encode_edit e) (changes_of e)
unfolding encode_edit change_body
encode_edit-change_bytes e =
    both _ _ _ _
      (both _ _ _ _
        (both _ _ _ _
          (both _ _ _ _
            (both _ _ _ _
              (both _ _ _ _
                (both _ _ _ _
                  (both _ _ _ _
                    (both _ _ _ _
                      (both _ _ _ _
                        (put_slice_field_lem 1 has_comparator e.comparator (λ s. refl) (λ s. refl))
                        (put_number_field_lem 2 has_log_number e.log_number (λ n. refl)
                          (λ n. refl)))
                      (put_number_field_lem 9 has_prev_log_number e.prev_log_number (λ n. refl)
                        (λ n. refl)))
                    (put_number_field_lem 3 has_next_file_number e.next_file_number (λ n. refl)
                      (λ n. refl)))
                  (put_number_field_lem 4 has_last_sequence e.last_sequence (λ n. refl)
                    (λ n. refl)))
                (put_number_field_lem 10 has_head_info e.head_info (λ n. refl) (λ n. refl)))
              (put_tail_lem e.tail_info))
            (put_slice_field_lem 11 has_vlog_info e.vlog_info (λ s. refl) (λ s. refl)))
          (put_pointers_lem e.compact_pointers))
        (put_deleted_lem e.deleted_files))
      (put_new_files_lem e.new_files)
