-- ===== src/Lsm/MemTable/Latest.antt =====
-- A memtable answers with the entry of the key that has the greatest sequence number.
use Prim.Native.Nat.{Ordering}
use distributed_system_based.Base.{
  ℕ, ◌+◌, ◌^◌, ◌<◌, ◌≤◌, ◌≡◌, ◌≢◌, ◌⊎◌, ◌∙◌, ap, sym, subst, refl, arith, List, [], ◌∷◌, Option,
  none, some, true, false, ltb, Bool-cases, length, All, inl, inr,
}
use distributed_system_based.Master.Database.{Answer}
use distributed_system_based.Lsm.{
  max_sequence_number, compare_bytes, compare_parts, pack_sequence_and_type, lookup_key,
}
use distributed_system_based.Lsm.Order.{is_before, compare_bytes_refl, compare_bytes_sound}
use distributed_system_based.Lsm.SkipList.{Node, IsSorted, seek, find_greater_or_equal-seek}
use distributed_system_based.Lsm.MemTable.{
  Table, entry_is_less, entry_answer, first_answer, mem_get,
}
use distributed_system_based.Lsm.MemTable.Entries.{
  Entry, IsEntry, encoded_entry, tag, answer_of, entry_is_less-encoded, entry_is_less-lookup_key,
}
use distributed_system_based.Lsm.MemTable.Newest.{
  HoldsEntry, IsTable, answer_other, answer_same, Ordering-cases, entry_is_less_trans,
}

-- The node holds an entry of another key, or one that is newer than the snapshot.
abbrev pub Hidden : List ℕ → ℕ → Node (List ℕ) → Type 0
Hidden user_key snapshot n =
    (f : Entry) × IsEntry f
    × (n.key ≡ encoded_entry f)
    × ((f.user_key ≢ user_key) ⊎ (snapshot < f.sequence))

-- The node holds an entry of another key, one that is newer than the snapshot, or one with a
-- sequence number up to the bound.
abbrev pub UpTo : List ℕ → ℕ → ℕ → Node (List ℕ) → Type 0
UpTo user_key snapshot bound n =
    (f : Entry) × IsEntry f
    × (n.key ≡ encoded_entry f)
    × ((f.user_key ≢ user_key) ⊎ ((snapshot < f.sequence) ⊎ (f.sequence ≤ bound)))

-- One of the nodes holds the entry.
abbrev pub IsHeld : Entry → Table → Type 0
IsHeld e [] = ⊥
IsHeld e (n ∷ nodes) = (n.key ≡ encoded_entry e) ⊎ IsHeld e nodes

-- The answer is that of the entry of the key with the greatest sequence number up to the snapshot,
-- or there is none.
abbrev pub IsLatest : List ℕ → ℕ → Table → Option Answer → Type 0
IsLatest user_key snapshot table none = All (Hidden user_key snapshot) table
IsLatest user_key snapshot table (some answer) =
    (e : Entry) × (answer ≡ answer_of e)
    × (e.user_key ≡ user_key)
    × (e.sequence ≤ snapshot)
    × IsHeld e table
    × All (UpTo user_key snapshot e.sequence) table

module _ (user_key : List ℕ) where
  differs :
      (f : Entry) (o : Ordering)
      → compare_bytes f.user_key user_key ≡ o
      → (o ≡ Ordering.eq → ⊥)
      → f.user_key ≢ user_key
  differs f o e other same =
      other
        (sym e ∙ ap (λ (k : List ℕ). compare_bytes k user_key) same ∙ compare_bytes_refl user_key)

  ordered :
      (e f : Entry) (n m : Node (List ℕ))
      → IsEntry e
      → IsEntry f
      → n.key ≡ encoded_entry e
      → m.key ≡ encoded_entry f
      → entry_is_less n.key m.key ≡ true
      → is_before (compare_parts e.user_key (tag e) f.user_key (tag f)) ≡ true
  ordered e f n m h hf at at' first =
      sym (entry_is_less-encoded e f h hf)
      ∙ ap (λ (k : List ℕ). entry_is_less k (encoded_entry f)) (sym at)
      ∙ ap (entry_is_less n.key) (sym at')
      ∙ first

  -- Behind an entry of the key, the others of the key are older.
  behind_same :
      (snapshot last : ℕ) (e : Entry) (n : Node (List ℕ)) (nodes : Table)
      → IsEntry e
      → n.key ≡ encoded_entry e
      → e.user_key ≡ user_key
      → All (HoldsEntry last) nodes
      → All (λ m. entry_is_less n.key m.key ≡ true) nodes
      → All (UpTo user_key snapshot e.sequence) nodes
  behind_same snapshot last e n [] h at same hs below = tt
  behind_same snapshot last e n (m ∷ nodes) h at same ((f, hf, old, at'), hs) (first, below) = (
    (f, hf, at', older (Ordering-cases (compare_bytes f.user_key user_key))),
    behind_same snapshot last e n nodes h at same hs below,
  )
    where
      older :
          (compare_bytes f.user_key user_key ≡ Ordering.lt)
            ⊎ ((compare_bytes f.user_key user_key ≡ Ordering.eq)
                ⊎ (compare_bytes f.user_key user_key ≡ Ordering.gt))
          → (f.user_key ≢ user_key) ⊎ ((snapshot < f.sequence) ⊎ (f.sequence ≤ e.sequence))
      older (inl lower) = inl (differs f Ordering.lt lower (λ q. absurd (ground arith)))
      older (inr (inr upper)) = inl (differs f Ordering.gt upper (λ q. absurd (ground arith)))
      older (inr (inl equal)) =
          let alike : compare_bytes e.user_key f.user_key ≡ Ordering.eq =
            ap (λ (k : List ℕ). compare_bytes k f.user_key)
              (same ∙ sym (compare_bytes_sound f.user_key user_key equal))
            ∙ compare_bytes_refl f.user_key in
          inr (inr (ground (arith, ordered e f n m h hf at at' first, alike, h.typed, hf.typed)))

  -- Behind an entry of a greater key stand only such entries.
  behind_upper :
      (snapshot last : ℕ) (e : Entry) (n : Node (List ℕ)) (nodes : Table)
      → IsEntry e
      → n.key ≡ encoded_entry e
      → compare_bytes e.user_key user_key ≡ Ordering.gt
      → All (HoldsEntry last) nodes
      → All (λ m. entry_is_less n.key m.key ≡ true) nodes
      → All (Hidden user_key snapshot) nodes
  behind_upper snapshot last e n [] h at above hs below = tt
  behind_upper snapshot last e n (m ∷ nodes) h at above ((f, hf, old, at'), hs) (first, below) = (
    (
      f,
      hf,
      at',
      inl (λ same. absurd (
          ground
            (arith, ordered e f n m h hf at at' first, above, ap (compare_bytes e.user_key) same))),
    ),
    behind_upper snapshot last e n nodes h at above hs below,
  )

  further :
      (snapshot : ℕ) (n : Node (List ℕ)) (nodes : Table) (f : Entry) (answer : Option Answer)
      → IsEntry f
      → n.key ≡ encoded_entry f
      → (f.user_key ≢ user_key) ⊎ (snapshot < f.sequence)
      → IsLatest user_key snapshot nodes answer
      → IsLatest user_key snapshot (n ∷ nodes) answer
  further snapshot n nodes f none h at hidden l = ((f, h, at, hidden), l)
  further snapshot n nodes f (some answer) h at hidden (e, shown, same, seen, held, others) =
      (e, shown, same, seen, inr held, ((f, h, at, wider hidden), others))
    where
      wider :
          (f.user_key ≢ user_key) ⊎ (snapshot < f.sequence)
          → (f.user_key ≢ user_key) ⊎ ((snapshot < f.sequence) ⊎ (f.sequence ≤ e.sequence))
      wider (inl ne) = inl ne
      wider (inr newer) = inr (inl newer)

  module _ (snapshot : ℕ) (short : length user_key + 8 < 2 ^ 32)
      (fits : snapshot ≤ max_sequence_number) where
    abbrev found_from : Table → Option Answer
    found_from table =
        first_answer user_key (seek entry_is_less (lookup_key user_key snapshot) table)

    before_lookup :
        (e : Entry) (n : Node (List ℕ))
        → IsEntry e
        → n.key ≡ encoded_entry e
        → entry_is_less n.key (lookup_key user_key snapshot)
          ≡ is_before
              (compare_parts e.user_key (tag e) user_key (pack_sequence_and_type snapshot 1))
    before_lookup e n h at =
        ap (λ (k : List ℕ). entry_is_less k (lookup_key user_key snapshot)) at
        ∙ entry_is_less-lookup_key e user_key snapshot h short fits

    passed :
        (n : Node (List ℕ)) (nodes : Table) (e : Entry)
        → IsEntry e
        → n.key ≡ encoded_entry e
        → IsLatest user_key snapshot nodes (found_from nodes)
        → (e.user_key ≢ user_key) ⊎ (snapshot < e.sequence)
        → entry_is_less n.key (lookup_key user_key snapshot) ≡ true
        → IsLatest user_key snapshot (n ∷ nodes) (found_from (n ∷ nodes))
    unfolding seek
    passed n nodes e h at rest hidden less =
        rw less (further snapshot n nodes e (found_from nodes) h at hidden rest)

    stopped :
        (n : Node (List ℕ)) (nodes : Table)
        → entry_is_less n.key (lookup_key user_key snapshot) ≡ false
        → found_from (n ∷ nodes) ≡ entry_answer user_key n.key
    unfolding seek first_answer
    stopped n nodes less = rw less refl

    seek-IsLatest :
        (table : Table) (last : ℕ)
        → IsSorted entry_is_less table
        → All (HoldsEntry last) table
        → IsLatest user_key snapshot table (found_from table)
    unfolding seek first_answer
    seek-IsLatest [] last s hs = tt
    seek-IsLatest (n ∷ nodes) last (below, high, s) ((e, h, old, at), hs) =
        let rest = seek-IsLatest nodes last s hs in
        elim (Ordering-cases (compare_bytes e.user_key user_key)) [
          | inl lower ↦
              passed n nodes e h at rest
                (inl (differs e Ordering.lt lower (λ q. absurd (ground arith))))
                (before_lookup e n h at ∙ ground (arith, lower))
          | inr (inl equal) ↦
              let same : e.user_key ≡ user_key = compare_bytes_sound e.user_key user_key equal in
              elim (newer_or_not e.sequence) [
                | inl newer ↦
                    passed n nodes e h at rest (inr newer)
                      (before_lookup e n h at ∙ ground (arith, equal, h.typed, newer))
                | inr seen ↦
                    subst (IsLatest user_key snapshot (n ∷ nodes))
                      (sym (
                        stopped n nodes
                          (before_lookup e n h at ∙ ground (arith, equal, h.typed, seen))
                        ∙ answer_same user_key e n h at equal))
                      (
                        e,
                        refl,
                        same,
                        seen,
                        inl at,
                        (
                          (e, h, at, inr (inr (omega arith))),
                          behind_same snapshot last e n nodes h at same hs below,
                        ),
                      )
              ]
          | inr (inr upper) ↦
              subst (IsLatest user_key snapshot (n ∷ nodes))
                (sym (
                  stopped n nodes (before_lookup e n h at ∙ ground (arith, upper))
                  ∙ answer_other user_key e n h at (ground (arith, upper))))
                (
                  (e, h, at, inl (differs e Ordering.gt upper (λ q. absurd (ground arith)))),
                  behind_upper snapshot last e n nodes h at upper hs below,
                )
        ]
      where
        newer_or_not : (t : ℕ) → (snapshot < t) ⊎ (t ≤ snapshot)
        newer_or_not t = elim (Bool-cases (ltb snapshot t)) [
          | inl yes_newer ↦ inl (ground arith)
          | inr not_newer ↦ inr (ground arith)
        ]

    -- In a memtable in order, `Get` of a key below 2^32 bytes, with the eight bytes of an internal
    -- key, at any snapshot answers with the entry of that key that has the greatest sequence number
    -- up to the snapshot, or with nothing if the memtable has no entry of the key up to there.
    pub mem_get-IsLatest :
        (last : ℕ) (table : Table)
        → IsTable table last
        → IsLatest user_key snapshot table (mem_get table user_key snapshot)
    unfolding mem_get
    mem_get-IsLatest last table t =
        subst (IsLatest user_key snapshot table)
          (ap (first_answer user_key) (
            sym (
              find_greater_or_equal-seek entry_is_less entry_is_less_trans
                (lookup_key user_key snapshot) table t.sorted)))
          (seek-IsLatest table last t.sorted t.entries)
