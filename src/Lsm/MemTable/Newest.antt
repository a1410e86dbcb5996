-- ===== src/Lsm/MemTable/Newest.antt =====
-- What a memtable returns for a key is its newest entry.
use Prim.Native.Nat.{Ordering, compare}
use distributed_system_based.Base.{
  ℕ, ◌+◌, ◌<◌, ◌≤◌, ◌≡◌, ◌⊎◌, ◌∙◌, ap, sym, refl, arith, List, [], ◌∷◌, Option, some, none, true,
  false, length, All, ◌^◌, inl, inr,
}
use distributed_system_based.Master.Database.{Answer}
use distributed_system_based.Lsm.{
  pack_sequence_and_type, max_sequence_number, compare_bytes, compare_parts, compare_internal,
  lookup_key,
}
use distributed_system_based.Lsm.Order.{
  is_before, is_equal, compare_bytes_sound, before_parts_trans,
}
use distributed_system_based.Lsm.SkipList.{Node, seek, IsSorted, find_greater_or_equal-seek}
use distributed_system_based.Lsm.MemTable.{
  Table, entry_is_less, entry_answer, mem_get, first_answer,
}
use distributed_system_based.Lsm.MemTable.Entries.{
  Entry, IsEntry, encoded_entry, tag, answer_of, entry_answer-encoded, entry_is_less-encoded,
  entry_is_less-lookup_key,
}

pub Ordering-cases : (o : Ordering) → (o ≡ Ordering.lt) ⊎ ((o ≡ Ordering.eq) ⊎ (o ≡ Ordering.gt))
Ordering-cases Ordering.lt = inl refl
Ordering-cases Ordering.eq = inr (inl refl)
Ordering-cases Ordering.gt = inr (inr refl)

pub compare_bytes_flip :
    (a b : List ℕ) → compare_bytes a b ≡ Ordering.gt → compare_bytes b a ≡ Ordering.lt
unfolding compare_bytes
compare_bytes_flip [] [] h = ground arith
compare_bytes_flip [] (y ∷ b) h = ground arith
compare_bytes_flip (x ∷ a) [] h = refl
compare_bytes_flip (x ∷ a) (y ∷ b) h = ground (arith, compare_bytes_flip a b)

pub entry_is_less_trans :
    (a b c : List ℕ)
    → entry_is_less a b ≡ true
    → entry_is_less b c ≡ true
    → entry_is_less a c ≡ true
unfolding entry_is_less compare_internal
entry_is_less_trans a b c h k = before_parts_trans _ _ _ _ _ _ h k

-- A node that holds an entry with a sequence number up to `last`.
abbrev pub HoldsEntry : ℕ → Node (List ℕ) → Type 0
HoldsEntry last n = (e : Entry) × IsEntry e × (e.sequence ≤ last) × (n.key ≡ encoded_entry e)

-- A memtable whose entries have sequence numbers up to `last`.
pub record IsTable (table : Table) (last : ℕ) : Type 0 where
  pub sorted : IsSorted entry_is_less table
  pub entries : All (HoldsEntry last) table

-- The first entry for the key.
abbrev pub newest : List ℕ → Table → Option Answer
newest user_key [] = none
newest user_key (n ∷ nodes) =
    let rest = newest user_key nodes in
    elim (entry_answer user_key n.key) [ none ↦ rest | some answer ↦ some answer ]

module _ (user_key : List ℕ) where
  pub newest-skip :
      (n : Node (List ℕ)) (nodes : Table)
      → entry_answer user_key n.key ≡ none
      → newest user_key (n ∷ nodes) ≡ newest user_key nodes
  newest-skip n nodes h = rw (h, newest) refl

  pub newest-take :
      (n : Node (List ℕ)) (nodes : Table) (answer : Answer)
      → entry_answer user_key n.key ≡ some answer
      → newest user_key (n ∷ nodes) ≡ some answer
  newest-take n nodes answer h = rw (h, newest) refl

  newest-none :
      (nodes : Table)
      → All (λ m. entry_answer user_key m.key ≡ none) nodes
      → newest user_key nodes ≡ none
  newest-none [] h = refl
  newest-none (n ∷ nodes) (hn, h) = newest-skip n nodes hn ∙ newest-none nodes h

  -- The answer of a node by the order of its key and the one that is looked up.
  pub answer_other :
      (e : Entry) (n : Node (List ℕ))
      → IsEntry e
      → n.key ≡ encoded_entry e
      → is_equal (compare_bytes e.user_key user_key) ≡ false
      → entry_answer user_key n.key ≡ none
  answer_other e n h at other =
      ap (entry_answer user_key) at ∙ entry_answer-encoded e h user_key ∙ rw other refl

  pub answer_same :
      (e : Entry) (n : Node (List ℕ))
      → IsEntry e
      → n.key ≡ encoded_entry e
      → compare_bytes e.user_key user_key ≡ Ordering.eq
      → entry_answer user_key n.key ≡ some (answer_of e)
  answer_same e n h at same =
      ap (entry_answer user_key) at ∙ entry_answer-encoded e h user_key ∙ rw same refl

  -- Behind a key that is greater stand only greater ones.
  behind_greater :
      (last : ℕ) (e : Entry) (n : Node (List ℕ)) (nodes : Table)
      → IsEntry e
      → n.key ≡ encoded_entry e
      → compare_bytes e.user_key user_key ≡ Ordering.gt
      → All (HoldsEntry last) nodes
      → All (λ m. entry_is_less n.key m.key ≡ true) nodes
      → All (λ m. entry_answer user_key m.key ≡ none) nodes
  behind_greater last e n [] h at above hs below = tt
  behind_greater last e n (m ∷ nodes) h at above ((f, hf, old, at'), hs) (first, below) = (
    answer_other f m hf at' (not_equal (Ordering-cases (compare_bytes f.user_key user_key))),
    behind_greater last e n nodes h at above hs below,
  )
    where
      ordered : is_before (compare_parts e.user_key (tag e) f.user_key (tag f)) ≡ true
      ordered =
          sym (entry_is_less-encoded e f h hf)
          ∙ ap (λ (k : List ℕ). entry_is_less k (encoded_entry f)) (sym at)
          ∙ ap (entry_is_less n.key) (sym at')
          ∙ first

      not_equal :
          (compare_bytes f.user_key user_key ≡ Ordering.lt)
            ⊎ ((compare_bytes f.user_key user_key ≡ Ordering.eq)
                ⊎ (compare_bytes f.user_key user_key ≡ Ordering.gt))
          → is_equal (compare_bytes f.user_key user_key) ≡ false
      not_equal (inl lower) = rw lower refl
      not_equal (inr (inr upper)) = rw upper refl
      not_equal (inr (inl equal)) =
          let same : f.user_key ≡ user_key = compare_bytes_sound f.user_key user_key equal in
          absurd (ground (arith, ordered, above, ap (compare_bytes e.user_key) same))

  module _ (snapshot : ℕ) (last : ℕ) (short : length user_key + 8 < 2 ^ 32)
      (fits : snapshot ≤ max_sequence_number) (seen : last ≤ snapshot) where
    before_lookup :
        (e : Entry) (n : Node (List ℕ))
        → IsEntry e
        → n.key ≡ encoded_entry e
        → entry_is_less n.key (lookup_key user_key snapshot)
          ≡ is_before
              (compare_parts e.user_key (tag e) user_key (pack_sequence_and_type snapshot 1))
    before_lookup e n h at =
        ap (λ (k : List ℕ). entry_is_less k (lookup_key user_key snapshot)) at
        ∙ entry_is_less-lookup_key e user_key snapshot h short fits

    seek-newest :
        (table : Table)
        → IsSorted entry_is_less table
        → All (HoldsEntry last) table
        → first_answer user_key (seek entry_is_less (lookup_key user_key snapshot) table)
          ≡ newest user_key table
    unfolding seek first_answer
    seek-newest [] s hs = refl
    seek-newest (n ∷ nodes) (below, high, s) ((e, h, old, at), hs) =
        elim (Ordering-cases (compare_bytes e.user_key user_key)) [
          | inl lower ↦
              let less : entry_is_less n.key (lookup_key user_key snapshot) ≡ true =
                before_lookup e n h at ∙ ground (arith, lower) in
              rw less (
                seek-newest nodes s hs
                ∙ sym (newest-skip n nodes (answer_other e n h at (rw lower refl))))
          | inr (inl equal) ↦
              let newer : is_before (compare (pack_sequence_and_type snapshot 1) (tag e)) ≡ false =
                ground (arith, h.typed, h.in_sequence) in
              let less : entry_is_less n.key (lookup_key user_key snapshot) ≡ false =
                before_lookup e n h at ∙ ground (arith, equal, newer) in
              rw less (
                answer_same e n h at equal
                ∙ sym (newest-take n nodes (answer_of e) (answer_same e n h at equal)))
          | inr (inr upper) ↦
              let less : entry_is_less n.key (lookup_key user_key snapshot) ≡ false =
                before_lookup e n h at ∙ ground (arith, upper) in
              rw less (
                answer_other e n h at (rw upper refl)
                ∙ sym (newest-none nodes (behind_greater last e n nodes h at upper hs below))
                ∙ sym (newest-skip n nodes (answer_other e n h at (rw upper refl))))
        ]

    -- The search in the skip list ends at the newest entry for the key, if there is one.
    pub mem_get-newest :
        (table : Table)
        → IsTable table last
        → mem_get table user_key snapshot ≡ newest user_key table
    unfolding mem_get
    mem_get-newest table t =
        ap (first_answer user_key) (
          find_greater_or_equal-seek entry_is_less entry_is_less_trans
            (lookup_key user_key snapshot) table t.sorted)
        ∙ seek-newest table t.sorted t.entries
