-- ===== src/Lsm/SkipList.antt =====
-- db/skiplist.h: the list of the memtable. A list is its nodes in the order of level 0, each with
-- its height; the link of a node at a level leads to the next node that is higher than the level.
use distributed_system_based.Base.{
  ℕ, zero, suc, ◌+◌, ◌-◌, ◌<◌, ◌≡◌, ◌⊎◌, ◌∙◌, ap, sym, subst, refl, arith, List, [], ◌∷◌, Bool,
  true, false, ltb, if◌then◌else◌, length, All, Bool-cases, inl, inr,
}

pub record Node (A : Type 0) : Type 0 where
  pub key : A
  pub height : ℕ

-- `x->Next(level)`, for the nodes behind `x`, and what follows it.
unfoldable pub next_at : {A : Type 0} → ℕ → List (Node A) → List (Node A)
next_at level [] = []
next_at level (n ∷ nodes) =
    let rest = next_at level nodes in if ltb level n.height then n ∷ nodes else rest

-- `max_height_` of a list: the height of its highest node, and 1 if there is none.
unfoldable pub max_height : {A : Type 0} → List (Node A) → ℕ
max_height [] = 1
max_height (n ∷ nodes) = let rest = max_height nodes in if ltb rest n.height then n.height else rest

module _ {A : Type 0} (is_less : A → A → Bool) (key : A) where
  -- `KeyIsAfterNode`.
  abbrev pub key_is_after_node : Node A → Bool
  key_is_after_node n = is_less n.key key

  -- The loop of `FindGreaterOrEqual` from the nodes behind `x` and a level on, for `fuel` rounds at
  -- most: the node that is found, and those behind it, or none.
  unfoldable pub find_loop : ℕ → ℕ → List (Node A) → List (Node A)
  find_loop zero level behind = []
  find_loop (suc fuel) level behind = elim (next_at level behind) [
    | [] ↦ elim level [ zero ↦ [] | suc lower ↦ find_loop fuel lower behind ]
    | next ∷ nodes ↦ elim (key_is_after_node next) [
      | true ↦ find_loop fuel level nodes
      | false ↦ elim level [ zero ↦ next ∷ nodes | suc lower ↦ find_loop fuel lower behind ]
    ]
  ]

  -- `FindGreaterOrEqual`, from the head and the highest level on.
  unfoldable pub find_greater_or_equal : List (Node A) → List (Node A)
  find_greater_or_equal nodes =
      find_loop (length nodes + max_height nodes) (max_height nodes - 1) nodes

  -- `Insert`, with the height that `RandomHeight` gives.
  unfoldable pub skip_insert : ℕ → List (Node A) → List (Node A)
  skip_insert height [] = record { key = key; height = height } ∷ []
  skip_insert height (n ∷ nodes) =
      let rest = skip_insert height nodes in
      if key_is_after_node n then n ∷ rest else record { key = key; height = height } ∷ n ∷ nodes

  -- The first node that is not before the key, by looking at each in turn.
  unfoldable pub seek : List (Node A) → List (Node A)
  seek [] = []
  seek (n ∷ nodes) = let rest = seek nodes in if key_is_after_node n then rest else n ∷ nodes

max_height_pos : {A : Type 0} (nodes : List (Node A)) → 0 < max_height nodes
unfolding max_height
max_height_pos [] = omega arith
max_height_pos (n ∷ nodes) = ground (arith, max_height_pos nodes)

List-cases : {A : Type 0} (xs : List A) → (xs ≡ []) ⊎ ((x : A) × (rest : List A) × (xs ≡ x ∷ rest))
List-cases [] = inl refl
List-cases (x ∷ rest) = inr (x, rest, refl)

-- The nodes are in order, and each has a level.
module _ {A : Type 0} (is_less : A → A → Bool) where
  abbrev pub IsSorted : List (Node A) → Type 0
  IsSorted [] = Unit {0}
  IsSorted (n ∷ nodes) =
      All (λ m. is_less n.key m.key ≡ true) nodes × (0 < n.height) × IsSorted nodes

  module _ (trans : (a b c : A) → is_less a b ≡ true → is_less b c ≡ true → is_less a c ≡ true)
      (key : A) where
    next-All :
        (P : Node A → Type 0) (level : ℕ) (behind : List (Node A)) (next : Node A)
        (nodes : List (Node A))
        → All P behind
        → next_at level behind ≡ next ∷ nodes
        → P next
    unfolding next_at
    next-All P level [] next nodes h e = absurd (ground arith)
    next-All P level (n ∷ behind) next nodes (here, h) e = elim (Bool-cases (ltb level n.height)) [
      | inl reached ↦
          let e' : n ∷ behind ≡ next ∷ nodes = rw reached at e in
          let same : n ≡ next = cc in subst P same here
      | inr passed ↦ next-All P level behind next nodes h (rw passed at e)
    ]

    -- A jump over nodes to one that is before the key passes no other node.
    jump_lem :
        (level : ℕ) (behind : List (Node A)) (next : Node A) (nodes : List (Node A))
        → IsSorted behind
        → next_at level behind ≡ next ∷ nodes
        → is_less next.key key ≡ true
        → (seek is_less key behind ≡ seek is_less key nodes)
          × IsSorted nodes
          × (length nodes < length behind)
    unfolding next_at seek
    jump_lem level [] next nodes s e h = absurd (ground arith)
    jump_lem level (n ∷ behind) next nodes (below, high, s) e h =
        elim (Bool-cases (ltb level n.height)) [
          | inl reached ↦
              let e' : n ∷ behind ≡ next ∷ nodes = rw reached at e in
              let same : n ≡ next = cc in
              let rest : behind ≡ nodes = cc in
              (
                rw (ap (λ (m : Node A). is_less m.key key) same ∙ h) (ap (seek is_less key) rest),
                subst IsSorted rest s,
                omega (arith, ap length rest),
              )
          | inr passed ↦
              let e' : next_at level behind ≡ next ∷ nodes = rw passed at e in
              let (found, s', fewer) = jump_lem level behind next nodes s e' h in
              let here : is_less n.key key ≡ true =
                trans n.key next.key key
                  (next-All (λ (m : Node A). is_less n.key m.key ≡ true) level behind next nodes
                    below e')
                  h in
              (rw here found, s', omega (arith, fewer))
        ]

    next_at-zero : (behind : List (Node A)) → IsSorted behind → next_at 0 behind ≡ behind
    unfolding next_at
    next_at-zero [] s = refl
    next_at-zero (n ∷ behind) (below, high, s) = ground (arith, high)

    stop_none :
        (fuel : ℕ) (behind : List (Node A))
        → next_at 0 behind ≡ []
        → find_loop is_less key (suc fuel) 0 behind ≡ []
    unfolding find_loop
    stop_none fuel behind e = rw (e, find_loop) refl

    lower_none :
        (fuel lower : ℕ) (behind : List (Node A))
        → next_at (suc lower) behind ≡ []
        → find_loop is_less key (suc fuel) (suc lower) behind
          ≡ find_loop is_less key fuel lower behind
    unfolding find_loop
    lower_none fuel lower behind e = rw (e, find_loop) refl

    forward :
        (fuel level : ℕ) (behind : List (Node A)) (next : Node A) (nodes : List (Node A))
        → next_at level behind ≡ next ∷ nodes
        → is_less next.key key ≡ true
        → find_loop is_less key (suc fuel) level behind ≡ find_loop is_less key fuel level nodes
    unfolding find_loop
    forward fuel level behind next nodes e h = rw (e, find_loop) (rw (h, find_loop) refl)

    stop_here :
        (fuel : ℕ) (behind : List (Node A)) (next : Node A) (nodes : List (Node A))
        → next_at 0 behind ≡ next ∷ nodes
        → is_less next.key key ≡ false
        → find_loop is_less key (suc fuel) 0 behind ≡ next ∷ nodes
    unfolding find_loop
    stop_here fuel behind next nodes e h = rw (e, find_loop) (rw (h, find_loop) refl)

    lower_here :
        (fuel lower : ℕ) (behind : List (Node A)) (next : Node A) (nodes : List (Node A))
        → next_at (suc lower) behind ≡ next ∷ nodes
        → is_less next.key key ≡ false
        → find_loop is_less key (suc fuel) (suc lower) behind
          ≡ find_loop is_less key fuel lower behind
    unfolding find_loop
    lower_here fuel lower behind next nodes e h = rw (e, find_loop) (rw (h, find_loop) refl)

    seek-here :
        (behind : List (Node A)) (next : Node A) (nodes : List (Node A))
        → behind ≡ next ∷ nodes
        → is_less next.key key ≡ false
        → seek is_less key behind ≡ behind
    unfolding seek
    seek-here [] next nodes e h = absurd (ground arith)
    seek-here (n ∷ behind) next nodes e h =
        let same : n ≡ next = cc in rw (ap (λ (m : Node A). is_less m.key key) same ∙ h) refl

    find_loop-seek :
        (fuel level : ℕ) (behind : List (Node A))
        → IsSorted behind
        → length behind + level < fuel
        → find_loop is_less key fuel level behind ≡ seek is_less key behind
    unfolding seek
    find_loop-seek zero level behind s h = absurd (omega arith)
    find_loop-seek (suc fuel) zero behind s h = elim (List-cases (next_at 0 behind)) [
      | inl none_left ↦
          stop_none fuel behind none_left
          ∙ ap (seek is_less key) (sym none_left ∙ next_at-zero behind s)
      | inr (next, nodes, e) ↦ elim (Bool-cases (is_less next.key key)) [
        | inl before ↦
            let (same, s', fewer) = jump_lem 0 behind next nodes s e before in
            forward fuel 0 behind next nodes e before
            ∙ find_loop-seek fuel 0 nodes s' (omega (arith, fewer))
            ∙ sym same
        | inr here ↦
            stop_here fuel behind next nodes e here
            ∙ sym e
            ∙ next_at-zero behind s
            ∙ sym (seek-here behind next nodes (sym (next_at-zero behind s) ∙ e) here)
      ]
    ]
    find_loop-seek (suc fuel) (suc lower) behind s h =
        elim (List-cases (next_at (suc lower) behind)) [
          | inl none_left ↦
              lower_none fuel lower behind none_left
              ∙ find_loop-seek fuel lower behind s (omega arith)
          | inr (next, nodes, e) ↦ elim (Bool-cases (is_less next.key key)) [
            | inl before ↦
                let (same, s', fewer) = jump_lem (suc lower) behind next nodes s e before in
                forward fuel (suc lower) behind next nodes e before
                ∙ find_loop-seek fuel (suc lower) nodes s' (omega (arith, fewer))
                ∙ sym same
            | inr here ↦
                lower_here fuel lower behind next nodes e here
                ∙ find_loop-seek fuel lower behind s (omega arith)
          ]
        ]

    -- In a list whose keys are in the order of a transitive comparison and whose nodes have levels, the
    -- search through the levels finds what looking at each node in turn finds, and it ends.
    pub find_greater_or_equal-seek :
        (nodes : List (Node A))
        → IsSorted nodes
        → find_greater_or_equal is_less key nodes ≡ seek is_less key nodes
    unfolding find_greater_or_equal
    find_greater_or_equal-seek nodes s =
        find_loop-seek _ _ nodes s (omega (arith, max_height_pos nodes))

-- An insertion keeps the order, if the key is before or behind each of the keys.
module _ {A : Type 0} (is_less : A → A → Bool)
    (trans : (a b c : A) → is_less a b ≡ true → is_less b c ≡ true → is_less a c ≡ true) (key : A)
    (height : ℕ) (high : 0 < height) where
  pub All-skip_insert :
      (P : Node A → Type 0) (nodes : List (Node A))
      → All P nodes
      → P (record { key = key; height = height })
      → All P (skip_insert is_less key height nodes)
  unfolding skip_insert
  All-skip_insert P [] h new = (new, tt)
  All-skip_insert P (n ∷ nodes) (hn, h) new = elim (Bool-cases (is_less n.key key)) [
    | inl before ↦ rw before (hn, All-skip_insert P nodes h new)
    | inr behind ↦ rw behind (new, (hn, h))
  ]

  behind_all :
      (n : A) (nodes : List (Node A))
      → is_less key n ≡ true
      → All (λ m. is_less n m.key ≡ true) nodes
      → All (λ m. is_less key m.key ≡ true) nodes
  behind_all n [] h below = tt
  behind_all n (m ∷ nodes) h (first, below) =
      (trans key n m.key h first, behind_all n nodes h below)

  pub skip_insert-IsSorted :
      (nodes : List (Node A))
      → IsSorted is_less nodes
      → All (λ m. (is_less m.key key ≡ true) ⊎ (is_less key m.key ≡ true)) nodes
      → IsSorted is_less (skip_insert is_less key height nodes)
  unfolding skip_insert
  skip_insert-IsSorted [] s h = (tt, high, tt)
  skip_insert-IsSorted (n ∷ nodes) (below, levels, s) (apart, h) =
      elim (Bool-cases (is_less n.key key)) [
        | inl before ↦ rw before (
          All-skip_insert (λ m. is_less n.key m.key ≡ true) nodes below before,
          levels,
          skip_insert-IsSorted nodes s h,
        )
        | inr behind ↦ rw behind (elim apart [
          | inl before ↦ absurd (ground arith)
          | inr later ↦ ((later, behind_all n.key nodes later below), high, (below, levels, s))
        ])
      ]
