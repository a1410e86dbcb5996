-- ===== src/Slave/Dispatch/Lines.antt =====
-- The lines of a client reach the handlers of distributed/slave.cc with the arguments that are in
-- them, and a value that one line stores another line returns.
use distributed_system_based.Base.{
  ℕ, ◌≡◌, ◌∙◌, ap, sym, refl, arith, List, [], ◌∷◌, ◌++◌, some, Bool, false, ◌==◌, map,
  append_assoc, bytes_eq,
}
use distributed_system_based.Crc.{Checksum}
use distributed_system_based.Text.{codes, trim, trim_start, trim_end, to_upper}
use distributed_system_based.Text.Words.{
  NoSpace, NoNewline, NoNewline-append, NoSpace-NoNewline, extract_word-append, trim_end-behind,
  trim_end-NoSpace,
}
use distributed_system_based.Text.Lines.{split_at-append, NoSpace-Without}
use distributed_system_based.Slave.Commands.{Node, put_value, get_value, delete_value}
use distributed_system_based.Slave.Dispatch.{two_args, rest_of_line, run_command, process_command}

-- A value that a line can carry: it is not empty, has no blank at its ends, and is one line.
pub record IsText (c : ℕ) (w : List ℕ) : Type 0 where
  pub starts : (c == 32 ≡ false) × (trim_start (c ∷ w) ≡ c ∷ w)
  pub ends : trim_end (c ∷ w) ≡ c ∷ w
  pub one_line : NoNewline (c ∷ w)

pub IsText-word : (c : ℕ) (w : List ℕ) → NoSpace (c ∷ w) → IsText c w
unfolding trim_start
IsText-word c w h = record {
  starts = (ground (arith, h.0), rw h.0 refl);
  ends = trim_end-NoSpace (c ∷ w) h;
  one_line = NoSpace-NoNewline (c ∷ w) h;
}

rest_of_line_lem : (s : List ℕ) → NoNewline s → rest_of_line s ≡ s
unfolding rest_of_line
rest_of_line_lem [] h = refl
rest_of_line_lem (c ∷ s) (hc, h) = rw hc (ap (λ l. c ∷ l) (rest_of_line_lem s h))

trim-IsText : (c : ℕ) (w : List ℕ) → IsText c w → trim (c ∷ w) ≡ c ∷ w
unfolding trim
trim-IsText c w h = rw h.starts.1 h.ends

-- A text behind a word is a text.
pub IsText-behind :
    (b : ℕ) (key : List ℕ) (c : ℕ) (w : List ℕ)
    → NoSpace (b ∷ key)
    → IsText c w
    → IsText b (key ++ (32 ∷ c ∷ w))
unfolding trim_start
IsText-behind b key c w hk h = record {
  starts = (ground (arith, hk.0), rw hk.0 refl);
  ends =
      ap trim_end (sym (append_assoc (b ∷ key) (32 ∷ []) (c ∷ w)))
      ∙ trim_end-behind ((b ∷ key) ++ (32 ∷ [])) c w h.ends
      ∙ append_assoc (b ∷ key) (32 ∷ []) (c ∷ w);
  one_line =
      NoNewline-append (b ∷ key) (32 ∷ c ∷ w) (NoSpace-NoNewline (b ∷ key) hk)
        (ground arith, h.one_line);
}

pub two_args_lem :
    (b : ℕ) (key : List ℕ) (c : ℕ) (w : List ℕ)
    → NoSpace (b ∷ key)
    → IsText c w
    → two_args ((b ∷ key) ++ (32 ∷ c ∷ w)) ≡ some (b ∷ key, c ∷ w)
unfolding two_args
two_args_lem b key c w hk h =
    rw (split_at-append 32 (b ∷ key) (c ∷ w) (NoSpace-Without (b ∷ key) hk))
      (rw (trim-IsText b key (IsText-word b key hk)) (rw (trim-IsText c w h) refl))

module _ {M : Type 0} (send send_scan : M → List ℕ → List ℕ × M) (crc : Checksum)
    (worker_id fuel : ℕ) (faults stops : List Bool) (vlog_files : List ℕ) (n : Node M) where
  -- A command word and its argument.
  pub command_line :
      (b : ℕ) (cmd : List ℕ) (c : ℕ) (w : List ℕ)
      → NoSpace (b ∷ cmd)
      → IsText c w
      → process_command send send_scan crc worker_id fuel faults stops vlog_files n
          ((b ∷ cmd) ++ (32 ∷ c ∷ w))
        ≡ run_command send send_scan crc worker_id fuel faults stops vlog_files n
            (map to_upper (b ∷ cmd))
            (c ∷ w)
  unfolding process_command
  command_line b cmd c w hcmd h =
      rw (trim-IsText b (cmd ++ (32 ∷ c ∷ w)) (IsText-behind b cmd c w hcmd h)) (
        rw (extract_word-append b cmd (32 ∷ c ∷ w) hcmd refl) (
          rw (rest_of_line_lem (32 ∷ c ∷ w) (ground arith, h.one_line))
            (rw (skip_blank ∙ trim-IsText c w h) refl)))
    where
      skip_blank : trim (32 ∷ c ∷ w) ≡ trim (c ∷ w)
      skip_blank = unfold trim trim_start in refl

  module _ (b : ℕ) (key : List ℕ) (hk : NoSpace (b ∷ key)) where
    pub process-put_line :
        (c : ℕ) (w : List ℕ)
        → IsText c w
        → process_command send send_scan crc worker_id fuel faults stops vlog_files n
            (codes "PUT " ++ ((b ∷ key) ++ (32 ∷ c ∷ w)))
          ≡ put_value send crc n (b ∷ key) (c ∷ w)
    unfolding run_command bytes_eq
    process-put_line c w h =
        command_line b'P' (codes "UT") b (key ++ (32 ∷ c ∷ w)) (ground arith)
          (IsText-behind b key c w hk h)
        ∙ rw (two_args_lem b key c w hk h) refl

    pub process-get_line :
        process_command send send_scan crc worker_id fuel faults stops vlog_files n
          (codes "GET " ++ (b ∷ key))
        ≡ get_value send crc n (b ∷ key)
    unfolding run_command bytes_eq
    process-get_line = command_line b'G' (codes "ET") b key (ground arith) (IsText-word b key hk)

    pub process-delete_line :
        process_command send send_scan crc worker_id fuel faults stops vlog_files n
          (codes "DELETE " ++ (b ∷ key))
        ≡ some (delete_value send crc n (b ∷ key))
    unfolding run_command bytes_eq
    process-delete_line =
        command_line b'D' (codes "ELETE") b key (ground arith) (IsText-word b key hk)
