-- ===== src/Slave/Dispatch/Scan.antt =====
-- SCAN of distributed/slave.cc and SCAN_ADDR of distributed/master.cc together.
use distributed_system_based.Base.{
  ℕ, ◌^◌, ◌<◌, ◌≡◌, ◌∙◌, ap, sym, refl, arith, List, [], ◌∷◌, ◌++◌, some, Bool, true, false, All,
  append_assoc, bytes_eq, Bool-cases, inl, inr, if◌then◌else◌,
}
use distributed_system_based.Status.{ok}
use distributed_system_based.Crc.{Checksum}
use distributed_system_based.Text.{
  codes, trim, trim_start, trim_end, extract_word, to_string, lines, drop_return, starts_with,
  contains,
}
use distributed_system_based.Text.Words.{
  NoSpace, NoNewline, NoNewline-append, NoSpace-NoNewline, trim-append,
}
use distributed_system_based.Text.Lines.{lines-append, drop_return-append, to_string-NoNewline}
use distributed_system_based.Vlog.{found}
use distributed_system_based.Vlog.Manager.{fetch_value_from_vlog}
use distributed_system_based.Routing.{scan_admits}
use distributed_system_based.Wire.{scan_request}
use distributed_system_based.Wire.Numbers.{FitsU64, decode_address-encoded}
use distributed_system_based.Wire.Requests.{
  IsKey, put_args_lem, process-scan_request, to_string_word,
}
use distributed_system_based.Master.{
  Address, encoded, show_address, put_args, bytes_leb, scan_line, scan_loop, scan_addr,
  process_worker_command,
}
use distributed_system_based.Master.Database.{AddressDb}
use distributed_system_based.Slave.{Slave}
use distributed_system_based.Slave.Commands.{Node}
use distributed_system_based.Slave.Dispatch.{
  scan_pair, scan_line_value, scan_values, answer_scan, run_command, process_command,
}
use distributed_system_based.Slave.Dispatch.Lines.{
  IsText-word, IsText-behind, command_line, two_args_lem,
}

-- A key of a scan, its address on the master, and its value in the logs.
pub record Row : Type 0 where
  pub key : List ℕ
  pub value : List ℕ
  pub address : Address

abbrev pub entries : List Row → List (List ℕ × List ℕ)
entries [] = []
entries (row ∷ rows) = (row.key, encoded row.address) ∷ entries rows

-- The lines that the master sends, and the text that the client receives.
abbrev pub address_lines : List Row → List ℕ
address_lines [] = codes "END\r\n"
address_lines (row ∷ rows) = scan_line row.key row.address ++ address_lines rows

abbrev pub value_lines : List Row → List ℕ
value_lines [] = codes "END\r\n"
value_lines (row ∷ rows) =
    (codes "KVPAIR " ++ (row.key ++ (codes " " ++ (row.value ++ codes "\r\n")))) ++ value_lines rows

-- A key that is not empty and has no blank, with its value in the logs of the worker.
pub record IsRow (s : Slave) (row : Row) : Type 0 where
  pub key : IsKey row.key
  pub fits : FitsU64 row.address
  pub fetched : fetch_value_from_vlog s.manager (encoded row.address) ≡ some (found row.value)

module _ (key : List ℕ) (a : Address) where
  abbrev bare_line : List ℕ
  bare_line = codes "KVPAIR_ADDR" ++ (32 ∷ (key ++ (32 ∷ show_address a)))

  scan_line-bare :
      (rest : List ℕ) → scan_line key a ++ rest ≡ (bare_line ++ (13 ∷ [])) ++ (10 ∷ rest)
  unfolding scan_line
  scan_line-bare rest = simp append_assoc

  show_address-NoNewline : NoNewline (show_address a)
  unfolding show_address
  show_address-NoNewline =
      NoNewline-append (to_string a.vlog_numb) _ (to_string-NoNewline a.vlog_numb) (
        refl,
        NoNewline-append (to_string a.offset) _ (to_string-NoNewline a.offset)
            (refl, to_string-NoNewline a.size),
      )

  bare_line-NoNewline : NoSpace key → NoNewline (bare_line ++ (13 ∷ []))
  bare_line-NoNewline h =
      NoNewline-append bare_line (13 ∷ [])
        (NoNewline-append (codes "KVPAIR_ADDR ") (key ++ (32 ∷ show_address a)) (ground arith) (
          NoNewline-append key (32 ∷ show_address a) (NoSpace-NoNewline key h)
            (refl, show_address-NoNewline)))
        (ground arith)

  trim-bare : trim bare_line ≡ bare_line
  trim-bare =
      let (c, w, e, digits) = to_string_word a.size in
      ap trim split ∙ rw e (trim-append b'K' front c w refl digits) ∙ sym split
    where
      front : List ℕ
      front =
          codes "VPAIR_ADDR"
          ++ (32
              ∷ (key ++ (32 ∷ (to_string a.vlog_numb ++ (32 ∷ (to_string a.offset ++ (32 ∷ [])))))))

      split : bare_line ≡ (b'K' ∷ front) ++ to_string a.size
      split = unfold show_address in simp append_assoc

  scan_pair_lem : IsKey key → FitsU64 a → scan_pair (key ++ (32 ∷ show_address a)) ≡ some (key, a)
  unfolding scan_pair put_args extract_word trim_start
  scan_pair_lem hk ha = put_args_lem key a hk ha

module _ (s : Slave) where
  row_line :
      (row : Row)
      → IsRow s row
      → scan_line_value s (bare_line row.key row.address ++ (13 ∷ []))
        ≡ some (codes "KVPAIR " ++ (row.key ++ (codes " " ++ (row.value ++ codes "\r\n"))))
  unfolding scan_line_value starts_with
  row_line row h = rw (drop_return-append (bare_line row.key row.address)) (
      rw (trim-bare row.key row.address)
        (rw (scan_pair_lem row.key row.address h.key h.fits) (rw h.fetched refl)))

  end_line : scan_values s (lines (codes "END\r\n")) ≡ some (codes "END\r\n")
  unfolding scan_values lines scan_line_value drop_return starts_with trim trim_start trim_end
  end_line = refl

  scan_values-next :
      (line text : List ℕ) (more : List (List ℕ)) (rest : List ℕ)
      → scan_line_value s line ≡ some text
      → scan_values s more ≡ some rest
      → scan_values s (line ∷ more) ≡ some (text ++ rest)
  unfolding scan_values
  scan_values-next line text more rest e1 e2 = rw e1 (rw e2 refl)

  scan_values_lem :
      (rows : List Row)
      → All (IsRow s) rows
      → scan_values s (lines (address_lines rows)) ≡ some (value_lines rows)
  scan_values_lem [] h = end_line
  scan_values_lem (row ∷ rows) (hr, hs) =
      rw (scan_line-bare row.key row.address (address_lines rows)) (
        rw
          (lines-append (bare_line row.key row.address ++ (13 ∷ [])) (address_lines rows)
            (bare_line-NoNewline row.key row.address hr.key.no_space))
          (scan_values-next _ _ _ _ (row_line row hr) (scan_values_lem rows hs)))

-- The entries behind the range.
abbrev pub IsBehind : List ℕ → List (List ℕ × List ℕ) → Type 0
IsBehind end_key [] = Unit {0}
IsBehind end_key ((key, addr) ∷ more) = bytes_leb key end_key ≡ false

-- A key up to the end of the range, with an address that decodes.
abbrev pub InRange : List ℕ → Row → Type 0
InRange end_key row = (bytes_leb row.key end_key ≡ true) × FitsU64 row.address

-- The rows whose keys belong to the worker.
abbrev pub own : ℕ → List Row → List Row
own worker_id [] = []
own worker_id (row ∷ rows) =
    let rest = own worker_id rows in
    if scan_admits (some worker_id) row.key then row ∷ rest else rest

-- A response is put together from C strings, so it holds no NUL byte.
abbrev pub NoNul : List ℕ → Type 0
NoNul = All (λ b. 0 < b)

module _ (worker_id : ℕ) (end_key : List ℕ) (s : Slave) (behind : List (List ℕ × List ℕ))
    (hb : IsBehind end_key behind) where
  scan_loop-behind :
      (more : List (List ℕ × List ℕ))
      → IsBehind end_key more
      → scan_loop (some worker_id) end_key more ≡ []
  unfolding scan_loop
  scan_loop-behind [] h = refl
  scan_loop-behind ((key, addr) ∷ more) h = rw h refl

  scan_loop_lem :
      (rows : List Row)
      → All (InRange end_key) rows
      → scan_loop (some worker_id) end_key (entries rows ++ behind) ++ codes "END\r\n"
        ≡ address_lines (own worker_id rows)
  unfolding scan_loop
  scan_loop_lem [] h = ap (λ (l : List ℕ). l ++ codes "END\r\n") (scan_loop-behind behind hb)
  scan_loop_lem (row ∷ rows) ((below, fits), hs) =
      elim (Bool-cases (scan_admits (some worker_id) row.key)) [
        | inl admitted ↦ rw below (
            rw (decode_address-encoded row.address fits) (
              rw admitted (
                append_assoc (scan_line row.key row.address) _ (codes "END\r\n")
                ∙ ap (λ l. scan_line row.key row.address ++ l) (scan_loop_lem rows hs))))
        | inr foreign ↦
            rw below
              (rw (decode_address-encoded row.address fits) (rw foreign (scan_loop_lem rows hs)))
      ]

module _ (db : AddressDb) (crc : Checksum) (worker_id fuel : ℕ) (faults stops : List Bool)
    (vlog_files : List ℕ) (n : Node db.State) (h : worker_id < 2 ^ 31) where
  -- A client's line `SCAN start end` in words, the first not behind the second in order. Let the
  -- master's iterator, from the start, give keys of any workers up to the end, with addresses of
  -- 64-bit numbers, and then a key behind the end or none, and end without an error. Let this worker
  -- have a value at each address of a key of its own. If the text ERROR and NUL bytes are in no line
  -- of the master, the client receives each key of this worker with its value, in order, and no other
  -- key, and END, and nothing changes.
  pub process_command-scan :
      (b c : ℕ) (start_rest end_rest : List ℕ)
      → NoSpace (b ∷ start_rest)
      → NoSpace (c ∷ end_rest)
      → bytes_leb (b ∷ start_rest) (c ∷ end_rest) ≡ true
      → (rows : List Row) (behind : List (List ℕ × List ℕ))
      → db.entries_from n.master (b ∷ start_rest) ≡ (entries rows ++ behind, ok)
      → All (InRange (c ∷ end_rest)) rows
      → All (IsRow n.slave) (own worker_id rows)
      → IsBehind (c ∷ end_rest) behind
      → contains (codes "ERROR") (address_lines (own worker_id rows)) ≡ false
      → NoNul (address_lines (own worker_id rows))
      → process_command
          (process_worker_command db)
          (process_worker_command db)
          crc
          worker_id
          fuel
          faults
          stops
          vlog_files
          n
          (codes "SCAN " ++ ((b ∷ start_rest) ++ (32 ∷ c ∷ end_rest)))
        ≡ some (value_lines (own worker_id rows), n)
  unfolding run_command bytes_eq
  process_command-scan b c start_rest end_rest hs he order rows behind e hi hr hb clean no_nul =
      command_line (process_worker_command db) (process_worker_command db) crc worker_id fuel faults
        stops vlog_files n b'S' (codes "CAN") b (start_rest ++ (32 ∷ c ∷ end_rest)) (ground arith)
        (IsText-behind b start_rest c end_rest hs (IsText-word c end_rest he))
      ∙ rw (two_args_lem b start_rest c end_rest hs (IsText-word c end_rest he))
          (rw order (rw (asked ∙ answered) (rw shown refl)))
    where
      asked :
          process_worker_command db n.master
            (scan_request (b ∷ start_rest) (c ∷ end_rest) worker_id)
          ≡ scan_addr db n.master (some (b ∷ start_rest, c ∷ end_rest, some worker_id))
      asked =
          process-scan_request db n.master (b ∷ start_rest) (c ∷ end_rest) worker_id
            (record { nonempty = ground arith; no_space = hs })
            (record { nonempty = ground arith; no_space = he }) h

      answered :
          scan_addr db n.master (some (b ∷ start_rest, c ∷ end_rest, some worker_id))
          ≡ (address_lines (own worker_id rows), n.master)
      answered =
          unfold scan_addr in
          rw e (
            ap (λ (l : List ℕ). (l, n.master))
              (scan_loop_lem worker_id (c ∷ end_rest) n.slave behind hb rows hi))

      shown :
          answer_scan n.slave (address_lines (own worker_id rows))
          ≡ some (value_lines (own worker_id rows))
      shown = unfold answer_scan in rw clean (scan_values_lem n.slave (own worker_id rows) hr)
