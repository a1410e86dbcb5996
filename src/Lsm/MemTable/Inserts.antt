-- ===== src/Lsm/MemTable/Inserts.antt =====
-- `Add` keeps a memtable in order, and what it adds becomes the newest entry of its key alone.
use Prim.Native.Nat.{Ordering}
use distributed_system_based.Base.{
  ℕ, ◌<◌, ◌≤◌, ◌≡◌, ◌⊎◌, ◌∙◌, ap, sym, refl, arith, List, [], ◌∷◌, some, true, false, All,
  Bool-cases, inl, inr,
}
use distributed_system_based.Lsm.{compare_bytes, compare_parts}
use distributed_system_based.Lsm.Order.{
  is_before, is_equal, compare_bytes_refl, compare_bytes_sound,
}
use distributed_system_based.Lsm.SkipList.{Node, skip_insert, skip_insert-IsSorted, All-skip_insert}
use distributed_system_based.Lsm.MemTable.{Table, entry_is_less, mem_add}
use distributed_system_based.Lsm.MemTable.Entries.{
  Entry, IsEntry, encoded_entry, tag, answer_of, entry_is_less-encoded,
}
use distributed_system_based.Lsm.MemTable.Newest.{
  Ordering-cases, HoldsEntry, IsTable, answer_other, answer_same, compare_bytes_flip,
  entry_is_less_trans, newest, newest-skip, newest-take,
}

module _ (table : Table) (last height : ℕ) (e : Entry) (t : IsTable table last) (h : IsEntry e)
    (newer : last < e.sequence) (high : 0 < height) where
  abbrev added : Table
  added = mem_add table height e.sequence e.type e.user_key e.value

  abbrev new_node : Node (List ℕ)
  new_node = record { key = encoded_entry e; height = height }

  -- The new entry has its place before or behind each node, and before those of its key.
  apart :
      (nodes : Table)
      → All (HoldsEntry last) nodes
      → All
          (λ m.
            (entry_is_less m.key (encoded_entry e) ≡ true)
            ⊎ (entry_is_less (encoded_entry e) m.key ≡ true))
          nodes
  apart [] hs = tt
  apart (m ∷ nodes) ((f, hf, old, at), hs) =
      (place (Ordering-cases (compare_bytes f.user_key e.user_key)), apart nodes hs)
    where
      upward :
          is_before (compare_parts f.user_key (tag f) e.user_key (tag e)) ≡ true
          → entry_is_less m.key (encoded_entry e) ≡ true
      upward b =
          ap (λ (k : List ℕ). entry_is_less k (encoded_entry e)) at
          ∙ entry_is_less-encoded f e hf h
          ∙ b

      downward :
          is_before (compare_parts e.user_key (tag e) f.user_key (tag f)) ≡ true
          → entry_is_less (encoded_entry e) m.key ≡ true
      downward b = ap (entry_is_less (encoded_entry e)) at ∙ entry_is_less-encoded e f h hf ∙ b

      place :
          (compare_bytes f.user_key e.user_key ≡ Ordering.lt)
            ⊎ ((compare_bytes f.user_key e.user_key ≡ Ordering.eq)
                ⊎ (compare_bytes f.user_key e.user_key ≡ Ordering.gt))
          → (entry_is_less m.key (encoded_entry e) ≡ true)
            ⊎ (entry_is_less (encoded_entry e) m.key ≡ true)
      place (inl lower) = inl (upward (ground (arith, lower)))
      place (inr (inr upper)) =
          inr (downward (ground (arith, compare_bytes_flip f.user_key e.user_key upper)))
      place (inr (inl equal)) = inr (
          downward (
            ground (
              arith,
              compare_bytes_sound f.user_key e.user_key equal,
              compare_bytes_refl e.user_key,
              h.typed,
              hf.typed,
              h.in_sequence,
              hf.in_sequence,
            )))

  later_entries : (nodes : Table) → All (HoldsEntry last) nodes → All (HoldsEntry e.sequence) nodes
  later_entries [] hs = tt
  later_entries (n ∷ nodes) ((f, hf, old, at), hs) =
      ((f, hf, omega arith, at), later_entries nodes hs)

  pub mem_add-IsTable : IsTable added e.sequence
  unfolding mem_add
  mem_add-IsTable = record {
    sorted =
        skip_insert-IsSorted entry_is_less entry_is_less_trans (encoded_entry e) height high table
          t.sorted (apart table t.entries);
    entries =
        All-skip_insert entry_is_less entry_is_less_trans (encoded_entry e) height high
          (HoldsEntry e.sequence) table (later_entries table t.entries) (e, h, omega arith, refl);
  }

  -- A node that stays in front of the new entry has another key.
  in_front :
      (f : Entry)
      → IsEntry f
      → f.sequence ≤ last
      → is_before (compare_parts f.user_key (tag f) e.user_key (tag e)) ≡ true
      → is_equal (compare_bytes f.user_key e.user_key) ≡ false
  in_front f hf old b = ground (arith, h.typed, hf.typed, h.in_sequence, hf.in_sequence)

  newest_self :
      (nodes : Table)
      → All (HoldsEntry last) nodes
      → newest e.user_key (skip_insert entry_is_less (encoded_entry e) height nodes)
        ≡ some (answer_of e)
  unfolding skip_insert
  newest_self [] hs =
      newest-take e.user_key new_node [] (answer_of e)
        (answer_same e.user_key e new_node h refl (compare_bytes_refl e.user_key))
  newest_self (n ∷ nodes) ((f, hf, old, at), hs) =
      elim (Bool-cases (entry_is_less n.key (encoded_entry e))) [
        | inl before ↦
            let b : is_before (compare_parts f.user_key (tag f) e.user_key (tag e)) ≡ true =
              sym (entry_is_less-encoded f e hf h)
              ∙ ap (λ (k : List ℕ). entry_is_less k (encoded_entry e)) (sym at)
              ∙ before in
            rw before (
              newest-skip e.user_key n _ (answer_other e.user_key f n hf at (in_front f hf old b))
              ∙ newest_self nodes hs)
        | inr behind ↦ rw behind (
            newest-take e.user_key new_node (n ∷ nodes) (answer_of e)
              (answer_same e.user_key e new_node h refl (compare_bytes_refl e.user_key)))
      ]

  module _ (other : List ℕ) (ne : is_equal (compare_bytes e.user_key other) ≡ false) where
    newest-same_rest :
        (n : Node (List ℕ)) (nodes nodes' : Table)
        → newest other nodes ≡ newest other nodes'
        → newest other (n ∷ nodes) ≡ newest other (n ∷ nodes')
    newest-same_rest n nodes nodes' same = ground (arith, same)

    newest-other :
        (nodes : Table)
        → newest other (skip_insert entry_is_less (encoded_entry e) height nodes)
          ≡ newest other nodes
    unfolding skip_insert
    newest-other [] = newest-skip other new_node [] (answer_other other e new_node h refl ne)
    newest-other (n ∷ nodes) = elim (Bool-cases (entry_is_less n.key (encoded_entry e))) [
      | inl before ↦ rw before (newest-same_rest n _ nodes (newest-other nodes))
      | inr behind ↦
          rw behind
            (newest-skip other new_node (n ∷ nodes) (answer_other other e new_node h refl ne))
    ]

  -- `Add` of an entry that is newer than all in the table: its key has the new value or is deleted,
  -- and every other key is as before.
  pub newest-mem_add :
      (newest e.user_key added ≡ some (answer_of e))
      × ((other : List ℕ)
          → is_equal (compare_bytes e.user_key other) ≡ false
          → newest other added ≡ newest other table)
  unfolding mem_add
  newest-mem_add = (newest_self table t.entries, λ other ne. newest-other other ne table)
