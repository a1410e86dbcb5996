-- ===== src/Lsm/VersionEdit.antt =====
-- db/version_edit.{h,cc}: a change of the set of files, as the MANIFEST holds it. A `has_` flag with
-- its value is an option; internal keys are their bytes, and a level is a number.
pub mod Changes
pub mod Decode
pub mod Parts
pub mod RoundTrip
mod Runs
use distributed_system_based.Base.{
  ℕ, zero, suc, List, [], ◌∷◌, ◌++◌, Option, none, some, Bool, true, false, if◌then◌else◌, ltb,
  ◌==◌, ◌&&◌, length,
}
use distributed_system_based.Coding.{
  put_varint32, put_varint64, put_length_prefixed_slice, get_varint32, get_varint64,
  get_length_prefixed_slice,
}
use distributed_system_based.Status.{Status, ok, error, corruption}

-- `refs` and `allowed_seeks` are not part of the encoding and left out. `EncodeTo` asserts that a key
-- is not empty, which is a condition of the theorems.
pub record FileMetaData : Type 0 where
  pub number : ℕ
  pub file_size : ℕ
  pub smallest : List ℕ
  pub largest : List ℕ

-- `deleted_files_` is a set of pairs; it stands here in its order.
pub record VersionEdit : Type 0 where
  pub comparator : Option (List ℕ)
  pub log_number : Option ℕ
  pub prev_log_number : Option ℕ
  pub next_file_number : Option ℕ
  pub last_sequence : Option ℕ
  pub head_info : Option ℕ
  pub tail_info : Option (ℕ × ℕ)
  pub vlog_info : Option (List ℕ)
  pub compact_pointers : List (ℕ × List ℕ)
  pub deleted_files : List (ℕ × ℕ)
  pub new_files : List (ℕ × FileMetaData)

-- `Clear`, which leaves `compact_pointers_` as they are.
unfoldable pub clear_edit : VersionEdit → VersionEdit
clear_edit e = record {
  comparator = none;
  log_number = none;
  prev_log_number = none;
  next_file_number = none;
  last_sequence = none;
  head_info = none;
  tail_info = none;
  vlog_info = none;
  compact_pointers = e.compact_pointers;
  deleted_files = [];
  new_files = [];
}

abbrev pub put_slice_field : ℕ → List ℕ → Option (List ℕ) → List ℕ
put_slice_field tag dst none = dst
put_slice_field tag dst (some s) = put_length_prefixed_slice (put_varint32 dst tag) s

abbrev pub put_number_field : ℕ → List ℕ → Option ℕ → List ℕ
put_number_field tag dst none = dst
put_number_field tag dst (some n) = put_varint64 (put_varint32 dst tag) n

abbrev pub put_tail : List ℕ → Option (ℕ × ℕ) → List ℕ
put_tail dst none = dst
put_tail dst (some (number, tail)) = put_varint64 (put_varint64 (put_varint32 dst 12) number) tail

abbrev pub put_pointers : List ℕ → List (ℕ × List ℕ) → List ℕ
put_pointers dst [] = dst
put_pointers dst ((level, key) ∷ pointers) =
    put_pointers (put_length_prefixed_slice (put_varint32 (put_varint32 dst 5) level) key) pointers

abbrev pub put_deleted : List ℕ → List (ℕ × ℕ) → List ℕ
put_deleted dst [] = dst
put_deleted dst ((level, number) ∷ files) =
    put_deleted (put_varint64 (put_varint32 (put_varint32 dst 6) level) number) files

abbrev pub put_new_file : List ℕ → ℕ → FileMetaData → List ℕ
put_new_file dst level f =
    put_length_prefixed_slice
      (put_length_prefixed_slice
        (put_varint64 (put_varint64 (put_varint32 (put_varint32 dst 7) level) f.number) f.file_size)
        f.smallest)
      f.largest

abbrev pub put_new_files : List ℕ → List (ℕ × FileMetaData) → List ℕ
put_new_files dst [] = dst
put_new_files dst ((level, f) ∷ files) = put_new_files (put_new_file dst level f) files

-- `EncodeTo`.
unfoldable pub encode_edit : VersionEdit → List ℕ → List ℕ
encode_edit e dst =
    let dst = put_slice_field 1 dst e.comparator in
    let dst = put_number_field 2 dst e.log_number in
    let dst = put_number_field 9 dst e.prev_log_number in
    let dst = put_number_field 3 dst e.next_file_number in
    let dst = put_number_field 4 dst e.last_sequence in
    let dst = put_number_field 10 dst e.head_info in
    let dst = put_tail dst e.tail_info in
    let dst = put_slice_field 11 dst e.vlog_info in
    let dst = put_pointers dst e.compact_pointers in
    let dst = put_deleted dst e.deleted_files in put_new_files dst e.new_files
