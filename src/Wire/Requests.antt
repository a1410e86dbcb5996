-- ===== src/Wire/Requests.antt =====
-- Each request line of a worker reaches the master's handler with the arguments that were meant.
use distributed_system_based.Base.{
  ℕ, zero, suc, ◌+◌, ◌<◌, ◌^◌, ◌%◌, ◌/◌, ◌≡◌, ◌≢◌, ◌∙◌, ap, sym, refl, arith, List, [], ◌∷◌, ◌++◌,
  some, append_assoc, append-nil, map, bytes_eq,
}
use distributed_system_based.Text.{
  codes, to_upper, to_string, print_digits, extract_word, extract_int, trim,
}
use distributed_system_based.Text.Numbers.{print_head, extract_int-to_string, extract_int-blank}
use distributed_system_based.Text.Words.{
  NoSpace, EndsWord, extract_word-append, extract_word-blank, trim-append,
}
use distributed_system_based.Master.{
  Address, show_address, extract_address, dispatch, process_worker_command, put_args, put_addr,
  get_addr, delete_addr, update_args, update_addr, scan_args, scan_addr,
}
use distributed_system_based.Master.Database.{AddressDb}
use distributed_system_based.Wire.{
  put_request, get_request, gc_get_request, delete_request, update_request, scan_request,
}
use distributed_system_based.Wire.Numbers.{FitsU64, extract_address-show_address}

-- A key that the protocol can carry: it is not empty and holds no blank.
pub record IsKey (key : List ℕ) : Type 0 where
  pub nonempty : key ≢ []
  pub no_space : NoSpace key

print_digits-NoSpace :
    (rounds n : ℕ) (tail : List ℕ) → NoSpace tail → NoSpace (print_digits rounds n tail)
unfolding print_digits
print_digits-NoSpace zero n tail h = (ground arith, h)
print_digits-NoSpace (suc rounds) n tail h =
    ground (arith, print_digits-NoSpace rounds (n / 10) ((48 + n % 10) ∷ tail))

pub to_string_word : (n : ℕ) → (c : ℕ) × (w : List ℕ) × (to_string n ≡ c ∷ w) × NoSpace (c ∷ w)
unfolding to_string
to_string_word n =
    let (c, w, e, low, high) = print_head 19 n [] in
    (c, w, e, rw e at (print_digits-NoSpace 19 n [] tt))

module _ (db : AddressDb) (s : db.State) where
  -- A line that ends in a word is split at its first blank.
  command_line :
      (b : ℕ) (cmd args : List ℕ) (c : ℕ) (w : List ℕ)
      → NoSpace (b ∷ cmd)
      → NoSpace (c ∷ w)
      → process_worker_command db s ((b ∷ cmd) ++ (32 ∷ (args ++ (c ∷ w))))
        ≡ dispatch db s (map to_upper (b ∷ cmd)) (32 ∷ (args ++ (c ∷ w)))
  unfolding process_worker_command
  command_line b cmd args c w hcmd hw =
      rw trimmed (rw (extract_word-append b cmd (32 ∷ (args ++ (c ∷ w))) hcmd refl))
    where
      trimmed : trim ((b ∷ cmd) ++ (32 ∷ (args ++ (c ∷ w)))) ≡ (b ∷ cmd) ++ (32 ∷ (args ++ (c ∷ w)))
      trimmed =
          rw (sym (append_assoc (b ∷ cmd) (32 ∷ args) (c ∷ w)))
            (trim-append b (cmd ++ (32 ∷ args)) c w hcmd.0 hw)

  command_line_number :
      (b : ℕ) (cmd args : List ℕ) (n : ℕ)
      → NoSpace (b ∷ cmd)
      → process_worker_command db s ((b ∷ cmd) ++ (32 ∷ (args ++ to_string n)))
        ≡ dispatch db s (map to_upper (b ∷ cmd)) (32 ∷ (args ++ to_string n))
  command_line_number b cmd args n hcmd =
      let (c, w, e, digits) = to_string_word n in rw e (command_line b cmd args c w hcmd digits)

  -- The line of a key alone.
  command_line_key :
      (b : ℕ) (cmd key : List ℕ)
      → NoSpace (b ∷ cmd)
      → IsKey key
      → process_worker_command db s ((b ∷ cmd) ++ (32 ∷ key))
        ≡ dispatch db s (map to_upper (b ∷ cmd)) (32 ∷ key)
  command_line_key b cmd [] hcmd hk = absurd (hk.nonempty refl)
  command_line_key b cmd (k ∷ key) hcmd hk = command_line b cmd [] k key hcmd hk.no_space

-- The first argument of a command.
pub first_word :
    (key rest : List ℕ)
    → IsKey key
    → EndsWord rest
    → extract_word (32 ∷ (key ++ rest)) ≡ some (key, rest)
first_word [] rest hk ends = absurd (hk.nonempty refl)
first_word (k ∷ key) rest hk ends =
    extract_word-blank ((k ∷ key) ++ rest) ∙ extract_word-append k key rest hk.no_space ends

only_word : (key : List ℕ) → IsKey key → extract_word (32 ∷ key) ≡ some (key, [])
only_word key hk = rw (append-nil key) at (first_word key [] hk tt)

last_address : (a : Address) → FitsU64 a → extract_address (32 ∷ show_address a) ≡ some (a, [])
last_address a ha = rw (append-nil (show_address a)) at (extract_address-show_address a [] ha tt)

pub put_args_lem :
    (key : List ℕ) (a : Address)
    → IsKey key
    → FitsU64 a
    → put_args (32 ∷ (key ++ (32 ∷ show_address a))) ≡ some (key, a)
unfolding put_args
put_args_lem key a hk ha =
    rw (first_word key (32 ∷ show_address a) hk refl) (rw (last_address a ha))

scan_args_lem :
    (start_key end_key : List ℕ) (worker_id : ℕ)
    → IsKey start_key
    → IsKey end_key
    → worker_id < 2 ^ 31
    → scan_args (32 ∷ (start_key ++ (32 ∷ (end_key ++ (32 ∷ to_string worker_id)))))
      ≡ some (start_key, end_key, some worker_id)
unfolding scan_args
scan_args_lem start_key end_key worker_id hs he h =
    rw (first_word start_key (32 ∷ (end_key ++ (32 ∷ to_string worker_id))) hs refl)
      (rw (first_word end_key (32 ∷ to_string worker_id) he refl) (rw number refl))
  where
    number : extract_int (32 ∷ to_string worker_id) ≡ some (some worker_id, [])
    number =
        extract_int-blank (to_string worker_id)
        ∙ ap extract_int (sym (append-nil (to_string worker_id)))
        ∙ extract_int-to_string worker_id [] h tt

update_args_lem :
    (key : List ℕ) (old new : Address)
    → IsKey key
    → FitsU64 old
    → FitsU64 new
    → update_args (32 ∷ (key ++ (32 ∷ (show_address old ++ (32 ∷ show_address new)))))
      ≡ some (key, old, new)
unfolding update_args
update_args_lem key old new hk ho hn =
    rw (first_word key (32 ∷ (show_address old ++ (32 ∷ show_address new))) hk refl) (
      rw (extract_address-show_address old (32 ∷ show_address new) ho refl)
        (rw (last_address new hn)))

module _ (db : AddressDb) (s : db.State) where
  -- The line of PUT_ADDR of a key that is not empty and has no blank, with an address of 64-bit
  -- numbers, reaches its handler with the key and the address.
  pub process-put_request :
      (key : List ℕ) (a : Address)
      → IsKey key
      → FitsU64 a
      → process_worker_command db s (put_request key a) ≡ put_addr db s (some (key, a))
  process-put_request key a hk ha =
      ap (process_worker_command db s) split
      ∙ command_line_number db s b'P' (codes "UT_ADDR") front a.size (ground arith)
      ∙ ap (dispatch db s (codes "PUT_ADDR")) rest
      ∙ unfold dispatch bytes_eq in ap (put_addr db s) (put_args_lem key a hk ha)
    where
      front : List ℕ
      front = key ++ (32 ∷ (to_string a.vlog_numb ++ (32 ∷ (to_string a.offset ++ (32 ∷ [])))))

      split : put_request key a ≡ codes "PUT_ADDR" ++ (32 ∷ (front ++ to_string a.size))
      split = unfold put_request show_address in simp append_assoc

      rest : 32 ∷ (front ++ to_string a.size) ≡ 32 ∷ (key ++ (32 ∷ show_address a))
      rest = unfold show_address in simp append_assoc

  -- The line of UPDATE_ADDR of a key that is not empty and has no blank, with addresses of 64-bit
  -- numbers, reaches its handler with the key and both addresses.
  pub process-update_request :
      (key : List ℕ) (old new : Address)
      → IsKey key
      → FitsU64 old
      → FitsU64 new
      → process_worker_command db s (update_request key old new)
        ≡ update_addr db s (some (key, old, new))
  process-update_request key old new hk ho hn =
      ap (process_worker_command db s) split
      ∙ command_line_number db s b'U' (codes "PDATE_ADDR") front new.size (ground arith)
      ∙ ap (dispatch db s (codes "UPDATE_ADDR")) rest
      ∙ unfold dispatch bytes_eq in ap (update_addr db s) (update_args_lem key old new hk ho hn)
    where
      front : List ℕ
      front =
          key
          ++ (32
              ∷ (show_address old
                  ++ (32
                      ∷ (to_string new.vlog_numb ++ (32 ∷ (to_string new.offset ++ (32 ∷ [])))))))

      split :
          update_request key old new ≡ codes "UPDATE_ADDR" ++ (32 ∷ (front ++ to_string new.size))
      split = unfold update_request show_address in simp append_assoc

      rest :
          32 ∷ (front ++ to_string new.size)
          ≡ 32 ∷ (key ++ (32 ∷ (show_address old ++ (32 ∷ show_address new))))
      rest = unfold show_address in simp append_assoc

  -- The lines of GET_ADDR, GCGET_ADDR and DELETE_ADDR of a key that is not empty and has no blank
  -- reach their handlers with the key.
  pub process-key_requests :
      (key : List ℕ)
      → IsKey key
      → (process_worker_command db s (get_request key) ≡ get_addr db s (some (key, [])))
        × (process_worker_command db s (gc_get_request key) ≡ get_addr db s (some (key, [])))
        × (process_worker_command db s (delete_request key) ≡ delete_addr db s (some (key, [])))
  unfolding get_request gc_get_request delete_request
  process-key_requests key hk = (
    command_line_key db s b'G' (codes "ET_ADDR") key (ground arith) hk
        ∙ unfold dispatch bytes_eq in ap (get_addr db s) (only_word key hk),
    command_line_key db s b'G' (codes "CGET_ADDR") key (ground arith) hk
        ∙ unfold dispatch bytes_eq in ap (get_addr db s) (only_word key hk),
    command_line_key db s b'D' (codes "ELETE_ADDR") key (ground arith) hk
        ∙ unfold dispatch bytes_eq in ap (delete_addr db s) (only_word key hk),
  )

  -- The line of SCAN_ADDR of two such keys and a worker's number reaches its handler with them.
  pub process-scan_request :
      (start_key end_key : List ℕ) (worker_id : ℕ)
      → IsKey start_key
      → IsKey end_key
      → worker_id < 2 ^ 31
      → process_worker_command db s (scan_request start_key end_key worker_id)
        ≡ scan_addr db s (some (start_key, end_key, some worker_id))
  process-scan_request start_key end_key worker_id hs he h =
      ap (process_worker_command db s) split
      ∙ command_line_number db s b'S' (codes "CAN_ADDR") front worker_id (ground arith)
      ∙ ap (dispatch db s (codes "SCAN_ADDR")) rest
      ∙ unfold dispatch bytes_eq in
        ap (scan_addr db s) (scan_args_lem start_key end_key worker_id hs he h)
    where
      front : List ℕ
      front = start_key ++ (32 ∷ (end_key ++ (32 ∷ [])))

      split :
          scan_request start_key end_key worker_id
          ≡ codes "SCAN_ADDR" ++ (32 ∷ (front ++ to_string worker_id))
      split = unfold scan_request in simp append_assoc

      rest :
          32 ∷ (front ++ to_string worker_id)
          ≡ 32 ∷ (start_key ++ (32 ∷ (end_key ++ (32 ∷ to_string worker_id))))
      rest = simp append_assoc
