-- ===== src/Lsm/VersionEdit/RoundTrip.antt =====
-- `DecodeFrom` makes the changes again that `EncodeTo` writes.
use distributed_system_based.Base.{
  ℕ, ◌≡◌, ◌∙◌, ap, sym, subst, refl, arith, List, [], ◌∷◌, ◌++◌, Option, none, some, true, false,
  length, All, append-nil, append_assoc,
}
use distributed_system_based.Status.{ok}
use distributed_system_based.Lsm.VersionEdit.{FileMetaData, VersionEdit, clear_edit, encode_edit}
use distributed_system_based.Lsm.VersionEdit.Decode.{
  Change, has_comparator, has_vlog_info, has_log_number, has_prev_log_number, has_next_file_number,
  has_last_sequence, has_head_info, has_tail_info, compact_pointer, deleted_file, new_file,
  pair_less, insert_pair, apply_change, decode_edit,
}
use distributed_system_based.Lsm.VersionEdit.Changes.{
  change_bytes, applied, Fits, decode_loop-change_bytes,
}
use distributed_system_based.Lsm.VersionEdit.Parts.{
  from_option, from_tail, from_pairs, changes_of, encode_edit-change_bytes,
}

-- The order of the elements of `deleted_files_`, a set.
abbrev pub IsPairSet : List (ℕ × ℕ) → Type 0
IsPairSet [] = Unit {0}
IsPairSet (p ∷ pairs) = All (λ q. pair_less p q ≡ true) pairs × IsPairSet pairs

applied-append :
    (cs ds : List Change) (e : VersionEdit) → applied (cs ++ ds) e ≡ applied ds (applied cs e)
applied-append [] ds e = refl
applied-append (c ∷ cs) ds e = applied-append cs ds (apply_change c e)

-- Changes lead from one edit to another.
record Leads (cs : List Change) (a b : VersionEdit) : Type 0 where
  path : applied cs a ≡ b

then-Leads :
    {cs ds : List Change} {a b c : VersionEdit} → Leads cs a b → Leads ds b c → Leads (cs ++ ds) a c
then-Leads {cs} {ds} {a} h h' = record {
  path = applied-append cs ds a ∙ ap (applied ds) h.path ∙ h'.path;
}

Leads-from_option :
    {A : Type 0} (change : A → Change) (with_field : Option A → VersionEdit)
    → ((x : A) → apply_change (change x) (with_field none) ≡ with_field (some x))
    → (x : Option A) → Leads (from_option change x) (with_field none) (with_field x)
Leads-from_option change with_field h none = record { path = refl }
Leads-from_option change with_field h (some x) = record { path = h x }

Leads-from_tail :
    (with_field : Option (ℕ × ℕ) → VersionEdit)
    → ((n t : ℕ) → apply_change (has_tail_info n t) (with_field none) ≡ with_field (some (n, t)))
    → (x : Option (ℕ × ℕ)) → Leads (from_tail x) (with_field none) (with_field x)
Leads-from_tail with_field h none = record { path = refl }
Leads-from_tail with_field h (some (n, t)) = record { path = h n t }

-- Changes that each put a pair behind the others.
Leads-from_pairs :
    {A : Type 0} (change : ℕ → A → Change) (with_field : List (ℕ × A) → VersionEdit)
    → ((l : ℕ) (x : A) (front : List (ℕ × A))
        → apply_change (change l x) (with_field front) ≡ with_field (front ++ ((l, x) ∷ [])))
    → (pairs front : List (ℕ × A))
    → Leads (from_pairs change pairs) (with_field front) (with_field (front ++ pairs))
Leads-from_pairs change with_field h [] front = record {
  path = ap with_field (sym (append-nil front));
}
Leads-from_pairs change with_field h ((l, x) ∷ pairs) front = record {
  path =
      ap (applied (from_pairs change pairs)) (h l x front)
      ∙ (Leads-from_pairs change with_field h pairs (front ++ ((l, x) ∷ []))).path
      ∙ ap with_field (append_assoc front ((l, x) ∷ []) pairs);
}

All-middle :
    {A : Type 0} (P : A → Type 0) (front : List A) (x : A) (back : List A)
    → All P (front ++ (x ∷ back))
    → P x
All-middle P [] x back (h, hs) = h
All-middle P (y ∷ front) x back (h, hs) = All-middle P front x back hs

pair_less_flip : (a b : ℕ × ℕ) → pair_less a b ≡ true → pair_less b a ≡ false
pair_less_flip a b h = ground arith

insert_pair_last :
    (p : ℕ × ℕ) (front back : List (ℕ × ℕ))
    → IsPairSet (front ++ (p ∷ back))
    → insert_pair p front ≡ front ++ (p ∷ [])
unfolding insert_pair
insert_pair_last p [] back h = refl
insert_pair_last p (q ∷ front) back (less, h) =
    let before = All-middle (λ r. pair_less q r ≡ true) front p back less in
    rw (pair_less_flip q p before)
      (rw before (ap (λ (l : List (ℕ × ℕ)). q ∷ l) (insert_pair_last p front back h)))

Leads-deleted :
    (with_field : List (ℕ × ℕ) → VersionEdit)
    → ((l n : ℕ) (front : List (ℕ × ℕ))
        → apply_change (deleted_file l n) (with_field front)
          ≡ with_field (insert_pair (l, n) front))
    → (pairs front : List (ℕ × ℕ)) → IsPairSet (front ++ pairs)
    → Leads (from_pairs deleted_file pairs) (with_field front) (with_field (front ++ pairs))
Leads-deleted with_field h [] front set = record { path = ap with_field (sym (append-nil front)) }
Leads-deleted with_field h ((l, n) ∷ pairs) front set =
    let same = append_assoc front ((l, n) ∷ []) pairs in
    record {
      path =
          ap (applied (from_pairs deleted_file pairs))
            (h l n front ∙ ap with_field (insert_pair_last (l, n) front pairs set))
          ∙ (Leads-deleted with_field h pairs (front ++ ((l, n) ∷ []))
              (subst IsPairSet (sym same) set)).path
          ∙ ap with_field same;
    }

module _ (reused e : VersionEdit) (set : IsPairSet e.deleted_files) where
  -- An edit with some of its parts.
  abbrev with_parts :
      Option (List ℕ)
      → Option ℕ
      → Option ℕ
      → Option ℕ
      → Option ℕ
      → Option ℕ
      → Option (ℕ × ℕ)
      → Option (List ℕ)
      → List (ℕ × List ℕ)
      → List (ℕ × ℕ)
      → List (ℕ × FileMetaData)
      → VersionEdit
  with_parts c l p n s h t v pointers deleted added = record {
    comparator = c;
    log_number = l;
    prev_log_number = p;
    next_file_number = n;
    last_sequence = s;
    head_info = h;
    tail_info = t;
    vlog_info = v;
    compact_pointers = reused.compact_pointers ++ pointers;
    deleted_files = deleted;
    new_files = added;
  }

  abbrev all_parts : List (ℕ × List ℕ) → List (ℕ × ℕ) → List (ℕ × FileMetaData) → VersionEdit
  all_parts =
      with_parts e.comparator e.log_number e.prev_log_number e.next_file_number e.last_sequence
        e.head_info e.tail_info e.vlog_info

  Leads-changes_of :
      Leads
        (changes_of e)
        (with_parts none none none none none none none none [] [] [])
        (all_parts e.compact_pointers e.deleted_files e.new_files)
  unfolding apply_change
  Leads-changes_of =
      then-Leads
        (then-Leads
          (then-Leads
            (then-Leads
              (then-Leads
                (then-Leads
                  (then-Leads
                    (then-Leads
                      (then-Leads
                        (then-Leads
                          (Leads-from_option has_comparator
                            (λ x. with_parts x none none none none none none none [] [] [])
                            (λ x. refl) e.comparator)
                          (Leads-from_option has_log_number
                            (λ x. with_parts e.comparator x none none none none none none [] [] [])
                            (λ x. refl) e.log_number))
                        (Leads-from_option has_prev_log_number
                          (λ x.
                            with_parts e.comparator e.log_number x none none none none none [] []
                              [])
                          (λ x. refl) e.prev_log_number))
                      (Leads-from_option has_next_file_number
                        (λ x.
                          with_parts e.comparator e.log_number e.prev_log_number x none none none
                            none [] [] [])
                        (λ x. refl) e.next_file_number))
                    (Leads-from_option has_last_sequence
                      (λ x.
                        with_parts e.comparator e.log_number e.prev_log_number e.next_file_number x
                          none none none [] [] [])
                      (λ x. refl) e.last_sequence))
                  (Leads-from_option has_head_info
                    (λ x.
                      with_parts e.comparator e.log_number e.prev_log_number e.next_file_number
                        e.last_sequence x none none [] [] [])
                    (λ x. refl) e.head_info))
                (Leads-from_tail
                  (λ x.
                    with_parts e.comparator e.log_number e.prev_log_number e.next_file_number
                      e.last_sequence e.head_info x none [] [] [])
                  (λ n t. refl) e.tail_info))
              (Leads-from_option has_vlog_info
                (λ x.
                  with_parts e.comparator e.log_number e.prev_log_number e.next_file_number
                    e.last_sequence e.head_info e.tail_info x [] [] [])
                (λ x. refl) e.vlog_info))
            (Leads-from_pairs compact_pointer (λ ps. all_parts ps [] [])
              (λ l x front.
                ap
                  (λ (ps : List (ℕ × List ℕ)). record (all_parts [] [] []) {
                    compact_pointers = ps;
                  })
                  (append_assoc reused.compact_pointers front ((l, x) ∷ [])))
              e.compact_pointers []))
          (Leads-deleted (λ ps. all_parts e.compact_pointers ps []) (λ l n front. refl)
            e.deleted_files [] set))
        (Leads-from_pairs new_file (λ ps. all_parts e.compact_pointers e.deleted_files ps)
          (λ l x front. refl) e.new_files [])

  -- `DecodeFrom` reads an edit that `EncodeTo` wrote, with numbers, levels and keys in their range,
  -- into any edit: the status is OK, and the parts of that edit are now those of the one written,
  -- with one exception: compaction pointers that it held before stay, in front of the new ones.
  pub decode_edit-encode_edit :
      (fits : All Fits (changes_of e))
      → decode_edit reused (encode_edit e [])
        ≡ (ok, record e { compact_pointers = reused.compact_pointers ++ e.compact_pointers })
  unfolding decode_edit clear_edit
  decode_edit-encode_edit fits = rw (encode_edit-change_bytes e []) (
      decode_loop-change_bytes (changes_of e) (length (change_bytes (changes_of e)))
        (clear_edit reused) fits (omega arith)
      ∙ ap (λ (d : VersionEdit). (ok, d))
          (ap
              (λ (ps : List (ℕ × List ℕ)).
                applied (changes_of e) (record (clear_edit reused) { compact_pointers = ps }))
              (sym (append-nil reused.compact_pointers))
            ∙ Leads-changes_of.path))
