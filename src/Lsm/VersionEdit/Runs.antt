-- ===== src/Lsm/VersionEdit/Runs.antt =====
-- Runs of edits at concrete inputs.
use distributed_system_based.Base.{◌≡◌, refl, arith, [], ◌∷◌, ◌++◌, none, some}
use distributed_system_based.Coding.{
  encode_varint32, encode_varint64, encode_varint64_loop, put_varint32, put_varint64,
}
use distributed_system_based.Text.{codes}
use distributed_system_based.Status.{ok}
use distributed_system_based.Lsm.VersionEdit.{VersionEdit, encode_edit}
use distributed_system_based.Lsm.VersionEdit.Decode.{decode_edit}
use distributed_system_based.Lsm.VersionEdit.RoundTrip.{decode_edit-encode_edit}

-- The edit of a compaction that took two files away and made one.
compaction : VersionEdit
compaction = record {
  comparator = none;
  log_number = some 7;
  prev_log_number = some 0;
  next_file_number = none;
  last_sequence = none;
  head_info = none;
  tail_info = some (2, 300);
  vlog_info = none;
  compact_pointers = (1, codes "middle-key") ∷ [];
  deleted_files = (0, 4) ∷ (1, 3) ∷ [];
  new_files =
      (1, record { number = 9; file_size = 50; smallest = codes "a"; largest = codes "z" }) ∷ [];
}

-- An edit that was used before.
used_edit : VersionEdit
used_edit = record compaction { log_number = some 3; compact_pointers = (0, codes "old") ∷ [] }

encode_edit_runs :
    encode_edit (record compaction { compact_pointers = []; deleted_files = []; new_files = [] }) []
    ≡ 2 ∷ 7 ∷ 9 ∷ 0 ∷ 12 ∷ 2 ∷ 0xac ∷ 2 ∷ []
unfolding encode_edit compaction put_varint32 put_varint64 encode_varint32 encode_varint64
    encode_varint64_loop
encode_edit_runs = refl

decode_edit-encode_edit_example : decode_edit used_edit (encode_edit compaction []) ≡ (
  ok,
  record compaction {
    compact_pointers = used_edit.compact_pointers ++ compaction.compact_pointers;
  },
)
unfolding compaction
decode_edit-encode_edit_example =
    decode_edit-encode_edit used_edit compaction ((refl, tt), (tt, tt)) (omega arith)
