-- ===== src/Slave/Files/Recovery.antt =====
-- What a worker of distributed/slave.cc can read after `init_vlog`.
use distributed_system_based.Base.{
  ℕ, ◌^◌, ◌<◌, ◌≤◌, ◌≡◌, ◌≢◌, ◌∙◌, refl, arith, List, [], ◌∷◌, none, some, Option, if◌then◌else◌,
  ◌==◌, ◌⊎◌, inl, inr,
}
use distributed_system_based.Base.Assoc.{lookup, insert, lookup-insert, lookup-insert_self}
use distributed_system_based.Vlog.{VlogInfo, parse, get, write_pos}
use distributed_system_based.Vlog.Fetch.{slice_at}
use distributed_system_based.Vlog.Addresses.{fetch-get_from, fetch-encode_address}
use distributed_system_based.Vlog.Manager
use distributed_system_based.Vlog.Manager.{
  VlogManager, opened, add_vlog, set_current_vlog, set_head, get_write_pos, encode_address,
  fetch_value_from_vlog, fetcher_number, get_from, get_from_other,
}
use distributed_system_based.Slave.{Slave}
use distributed_system_based.Slave.Files.{add_all, recover}

-- The numbers rise, and are above `b`.
abbrev pub Rising : ℕ → List ℕ → Type 0
Rising b [] = Unit {0}
Rising b (n ∷ ns) = (b < n) × Rising n ns

abbrev pub IsIn : ℕ → List ℕ → Type 0
IsIn k [] = ⊥
IsIn k (n ∷ ns) = (n ≡ k) ⊎ IsIn k ns

module _ (disk : ℕ → List ℕ) where
  abbrev IsFresh : ℕ → VlogManager → Type 0
  IsFresh b m = (k : ℕ) → b < k → lookup k m.logs ≡ none

  add_vlog_lem :
      (b n : ℕ) (m : VlogManager)
      → IsFresh b m
      → b < n
      → add_vlog m (disk n) n ≡ record m { logs = insert n (opened (disk n)) m.logs; cur_vlog = n }
  unfolding add_vlog
  add_vlog_lem b n m fresh h = ground (arith, fresh n h)

  IsFresh-insert :
      (b n : ℕ) (m : VlogManager)
      → IsFresh b m
      → b < n
      → IsFresh n (record m { logs = insert n (opened (disk n)) m.logs; cur_vlog = n })
  IsFresh-insert b n m fresh h k later =
      ground (arith, lookup-insert n k (opened (disk n)) m.logs, fresh k (omega arith))

  add_all-below :
      (b : ℕ) (existing : List ℕ) (m : VlogManager) (k : ℕ)
      → IsFresh b m
      → Rising b existing
      → k ≤ b
      → lookup k (add_all disk existing m).logs ≡ lookup k m.logs
  unfolding add_all
  add_all-below b [] m k fresh rising h = refl
  add_all-below b (n ∷ ns) m k fresh (hn, rising) h =
      rw (add_vlog_lem b n m fresh hn, add_all)
        (add_all-below n ns _ k (IsFresh-insert b n m fresh hn) rising (omega arith)
          ∙ ground (arith, lookup-insert n k (opened (disk n)) m.logs))

  -- Every file has its log.
  add_all-lookup :
      (b : ℕ) (existing : List ℕ) (m : VlogManager) (k : ℕ)
      → IsFresh b m
      → Rising b existing
      → IsIn k existing
      → lookup k (add_all disk existing m).logs ≡ some (opened (disk k))
  unfolding add_all
  add_all-lookup b [] m k fresh rising h = absurd h
  add_all-lookup b (n ∷ ns) m k fresh (hn, rising) (inl same) =
      rw (add_vlog_lem b n m fresh hn, add_all)
        (add_all-below n ns _ k (IsFresh-insert b n m fresh hn) rising (omega arith)
          ∙ ground (arith, lookup-insert n k (opened (disk n)) m.logs))
  add_all-lookup b (n ∷ ns) m k fresh (hn, rising) (inr more) =
      rw (add_vlog_lem b n m fresh hn, add_all)
        (add_all-lookup n ns _ k (IsFresh-insert b n m fresh hn) rising more)

  module _ (existing : List ℕ) (rising : Rising 0 existing) (saved_vlog saved_pos : ℕ)
      (there : IsIn saved_vlog existing) (number : 0 < saved_vlog) (pos : 0 < saved_pos) where
    recovered : Slave
    recovered = recover disk existing saved_vlog saved_pos

    registered :
        (k : ℕ)
        → IsIn k existing
        → lookup k (add_all disk existing Manager.initial).logs ≡ some (opened (disk k))
    unfolding lookup
    registered k h = add_all-lookup 0 existing Manager.initial k (λ j later. refl) rising h

    current : VlogInfo
    current = record { buffer = []; head = saved_pos; file = disk saved_vlog }

    recovered_lem :
        (existing' : List ℕ)
        → IsIn saved_vlog existing'
        → lookup saved_vlog (add_all disk existing' Manager.initial).logs
          ≡ some (opened (disk saved_vlog))
        → ((recover disk existing' saved_vlog saved_pos).manager.logs
            ≡ insert saved_vlog current (add_all disk existing' Manager.initial).logs)
          × ((recover disk existing' saved_vlog saved_pos).manager.cur_vlog ≡ saved_vlog)
    unfolding recover set_head set_current_vlog current
    recovered_lem [] h e = absurd h
    recovered_lem (n ∷ ns) h e = (ground (arith, e), ground (arith, e))

    logs_lem :
        (recovered.manager.logs
          ≡ insert saved_vlog current (add_all disk existing Manager.initial).logs)
        × (recovered.manager.cur_vlog ≡ saved_vlog)
    unfolding recovered
    logs_lem = recovered_lem existing there (registered saved_vlog there)

    found_current : lookup saved_vlog recovered.manager.logs ≡ some current
    found_current = rw logs_lem.0 (lookup-insert_self saved_vlog current _)

    found_older :
        (k : ℕ)
        → IsIn k existing
        → k ≢ saved_vlog
        → lookup k recovered.manager.logs ≡ some (opened (disk k))
    found_older k h ne = rw logs_lem.0 (
        ground (
          arith,
          lookup-insert saved_vlog k current (add_all disk existing Manager.initial).logs,
          registered k h,
          ne,
        ))

    write_pos_lem : get_write_pos recovered.manager ≡ saved_pos
    write_pos_lem =
        unfold get_write_pos current write_pos in ground (arith, logs_lem.1, found_current)

    number_lem : recovered.vlog_number ≡ saved_vlog
    unfolding recovered recover
    number_lem = numbered existing there
      where
        numbered :
            (existing' : List ℕ)
            → IsIn saved_vlog existing'
            → (recover disk existing' saved_vlog saved_pos).vlog_number ≡ saved_vlog
        numbered [] h = absurd h
        numbered (n ∷ ns) h = ground arith

    -- The files of a restart are numbered in rising order from above 0, and VLOG_META names one of
    -- them, below 2^32, and a write position above 0. The worker then has that log number, that log
    -- is the current one, the next write position is the saved one, and a fetch below the position
    -- parses what the file of that log holds there.
    pub recover-current :
        (offset size : ℕ)
        → saved_vlog < 2 ^ 32
        → offset < saved_pos
        → saved_pos < 2 ^ 64
        → size < 2 ^ 64
        → ((recover disk existing saved_vlog saved_pos).vlog_number ≡ saved_vlog)
          × ((recover disk existing saved_vlog saved_pos).manager.cur_vlog ≡ saved_vlog)
          × (get_write_pos (recover disk existing saved_vlog saved_pos).manager ≡ saved_pos)
          × (fetch_value_from_vlog
                (recover disk existing saved_vlog saved_pos).manager
                (encode_address saved_vlog offset size)
              ≡ parse (slice_at offset size (disk saved_vlog)))
    unfolding recovered
    recover-current offset size hv ho hp hs = (
      number_lem,
      logs_lem.1,
      write_pos_lem,
      fetch-encode_address recovered.manager saved_vlog offset size current hv (omega arith) hs
            found_current
          ∙ below,
    )
      where
        below : get current offset size ≡ parse (slice_at offset size (disk saved_vlog))
        below = unfold get current in ground arith

    -- Under the same conditions, a fetch from any other log has no defined result: the log is
    -- registered with nothing buffered and the head at 0, so every offset counts as buffered.
    pub recover-older :
        (k offset size : ℕ)
        → IsIn k existing
        → k ≢ saved_vlog
        → k < 2 ^ 64
        → offset < 2 ^ 64
        → size < 2 ^ 64
        → fetch_value_from_vlog
            (recover disk existing saved_vlog saved_pos).manager
            (encode_address k offset size)
          ≡ none
    unfolding recovered get_from
    recover-older k offset size h ne hk ho hs =
        fetch-get_from recovered.manager k offset size (opened (disk k)) hk ho hs
          (found_older k h ne)
        ∙ other_file (lookup (fetcher_number k) recovered.manager.logs)
      where
        unread : (file : List ℕ) → get (opened file) offset size ≡ none
        unread file = unfold get in ground arith

        other_file :
            (other : Option VlogInfo)
            → (if fetcher_number k == k
                then get (opened (disk k)) offset size
                else get_from_other (opened (disk k)) other offset size)
              ≡ none
        other_file none = unfold get_from_other in ground (arith, unread (disk k))
        other_file (some info) =
            unfold get_from_other in ground (arith, unread (disk k), unread info.file)
