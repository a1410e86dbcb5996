-- ===== src/Slave/Files/MetaFile.antt =====
-- VLOG_META of distributed/slave.cc: what `save_vlog_meta` writes, `init_vlog` reads.
use distributed_system_based.Base.{
  ℕ, ◌^◌, ◌<◌, ◌≡◌, ◌∙◌, ap, sym, refl, arith, List, [], ◌∷◌, ◌++◌, some, append_assoc, append-nil,
}
use distributed_system_based.Text.{codes, to_string, lines, starts_with, extract_u64, extract_int}
use distributed_system_based.Text.Numbers.{extract_u64-to_string, extract_int-to_string}
use distributed_system_based.Text.Words.{NoNewline, NoNewline-append}
use distributed_system_based.Text.Lines.{lines-append, to_string-NoNewline}
use distributed_system_based.Vlog.Manager.{get_write_pos}
use distributed_system_based.Slave.{Slave}
use distributed_system_based.Slave.Files.{
  Meta, Saved, meta_text, save_vlog_meta, read_meta_line, read_meta, recover, clamp_threshold,
  init_vlog,
}

module _ (label : List ℕ) (clean : NoNewline label) (n : ℕ) (rest : List ℕ) where
  -- A line of a label and a number.
  number_line : lines (label ++ (to_string n ++ (10 ∷ rest))) ≡ (label ++ to_string n) ∷ lines rest
  number_line =
      ap lines (sym (append_assoc label (to_string n) (10 ∷ rest)))
      ∙ lines-append (label ++ to_string n) rest
          (NoNewline-append label (to_string n) clean (to_string-NoNewline n))

lines-meta_text :
    (meta : Meta)
    → lines (meta_text meta)
      ≡ (codes "vlog_number: " ++ to_string meta.vlog_number)
        ∷ (codes "write_pos: " ++ to_string meta.write_pos)
        ∷ (codes "gc_threshold: " ++ to_string meta.gc_threshold)
        ∷ []
unfolding meta_text
lines-meta_text meta =
    number_line (codes "vlog_number: ") (ground arith) meta.vlog_number _
    ∙ ap (λ l. (codes "vlog_number: " ++ to_string meta.vlog_number) ∷ l)
        (number_line (codes "write_pos: ") (ground arith) meta.write_pos _
          ∙ ap (λ l. (codes "write_pos: " ++ to_string meta.write_pos) ∷ l)
              (number_line (codes "gc_threshold: ") (ground arith) meta.gc_threshold []
                ∙ ap (λ l. (codes "gc_threshold: " ++ to_string meta.gc_threshold) ∷ l) no_line))
  where
    no_line : lines [] ≡ []
    no_line = unfold lines in refl

module _ (n : ℕ) (saved : Saved) where
  u64_end : n < 2 ^ 64 → extract_u64 (to_string n) ≡ some (n, [])
  u64_end h = ap extract_u64 (sym (append-nil (to_string n))) ∙ extract_u64-to_string n [] h tt

  int_end : n < 2 ^ 31 → extract_int (to_string n) ≡ some (some n, [])
  int_end h = ap extract_int (sym (append-nil (to_string n))) ∙ extract_int-to_string n [] h tt

  vlog_line :
      n < 2 ^ 64
      → read_meta_line (codes "vlog_number: " ++ to_string n) saved
        ≡ some (record saved { vlog = n })
  unfolding read_meta_line starts_with
  vlog_line h = rw (u64_end h) refl

  pos_line :
      n < 2 ^ 64
      → read_meta_line (codes "write_pos: " ++ to_string n) saved ≡ some (record saved { pos = n })
  unfolding read_meta_line starts_with
  pos_line h = rw (u64_end h) refl

  threshold_line :
      n < 2 ^ 31
      → read_meta_line (codes "gc_threshold: " ++ to_string n) saved
        ≡ some (record saved { threshold = some n })
  unfolding read_meta_line starts_with
  threshold_line h = rw (int_end h) refl

pub read_meta-meta_text :
    (meta : Meta) (saved : Saved)
    → meta.vlog_number < 2 ^ 64
    → meta.write_pos < 2 ^ 64
    → meta.gc_threshold < 2 ^ 31
    → read_meta (lines (meta_text meta)) saved
      ≡ some (record {
        vlog = meta.vlog_number;
        pos = meta.write_pos;
        threshold = some meta.gc_threshold;
      })
unfolding read_meta
read_meta-meta_text meta saved hv hp ht = rw (lines-meta_text meta) (
    rw (vlog_line meta.vlog_number saved hv)
      (rw (pos_line meta.write_pos _ hp) (rw (threshold_line meta.gc_threshold _ ht) refl)))

-- The numbers of the file lead to `recover`.
pub init_vlog-recover :
    (disk : ℕ → List ℕ) (existing : List ℕ) (s : Slave) (gc_threshold start : ℕ)
    → s.vlog_number < 2 ^ 64
    → get_write_pos s.manager < 2 ^ 64
    → gc_threshold < 2 ^ 31
    → init_vlog disk existing (save_vlog_meta s gc_threshold) start
      ≡ some (
        recover disk existing s.vlog_number (get_write_pos s.manager),
        clamp_threshold (some gc_threshold),
      )
unfolding init_vlog save_vlog_meta
init_vlog-recover disk existing s gc_threshold start hv hp ht =
    rw (read_meta-meta_text _ _ hv hp ht) refl
