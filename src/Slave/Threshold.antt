-- ===== src/Slave/Threshold.antt =====
-- distributed/slave.cc: which log the thread of the collector takes, and how its threshold follows
-- the share of garbage.
use mathlib.Core.Option.{some-injective}
use distributed_system_based.Base.{
  ℕ, ◌+◌, ◌-◌, ◌*◌, ◌<◌, ◌≤◌, ◌≡◌, ◌⊎◌, arith, List, [], ◌∷◌, Option, none, some, ltb, leb,
  if◌then◌else◌, length, All, Bool-cases, inl, inr,
}

abbrev pub high_water : ℕ
high_water = 40

abbrev pub low_water : ℕ
low_water = 20

abbrev pub min_threshold : ℕ
min_threshold = 2

abbrev pub max_threshold : ℕ
max_threshold = 128

-- `collect_gc_targets`: the logs before the one that is written to.
unfoldable pub collect_gc_targets : ℕ → List ℕ → List ℕ
collect_gc_targets vlog_number [] = []
collect_gc_targets vlog_number (num ∷ vlog_files) =
    let targets = collect_gc_targets vlog_number vlog_files in
    if leb vlog_number num then targets else num ∷ targets

first : List ℕ → Option ℕ
first [] = none
first (target ∷ targets) = some target

-- The log of a round of `gc_thread_main`, if there are as many targets as the threshold says; the
-- threshold is at least two, so the front of the targets is there.
unfoldable pub gc_target : ℕ → ℕ → List ℕ → Option ℕ
unfolding first
gc_target threshold vlog_number vlog_files =
    let targets = collect_gc_targets vlog_number vlog_files in
    if ltb (length targets) threshold then none else first targets

-- The new threshold after a file with `total` records, `valid` of which were moved. The rate
-- `100.0 * (total - valid) / total` is compared by its fraction; the double comes to the same, since
-- both counts are below 2^31.
unfoldable pub adjust_threshold : ℕ → ℕ → ℕ → ℕ
adjust_threshold threshold total valid =
    if ltb 0 total
    then (if leb (high_water * total) (100 * (total - valid))
        then (if ltb (threshold - 1) min_threshold then min_threshold else threshold - 1)
        else if ltb (100 * (total - valid)) (low_water * total)
        then (if ltb max_threshold (threshold + 1) then max_threshold else threshold + 1)
        else threshold)
    else threshold

-- From a threshold between 2 and 128, the new one is between 2 and 128 again. It is one lower only
-- if at least 40 % of the records were garbage, one higher only if less than 20 % were, and the same
-- only if the share is between the two or the threshold was at its limit.
pub adjust_threshold_bounds :
    (threshold total valid : ℕ)
    → min_threshold ≤ threshold
    → threshold ≤ max_threshold
    → 0 < total
    → valid ≤ total
    → (min_threshold ≤ adjust_threshold threshold total valid)
      × (adjust_threshold threshold total valid ≤ max_threshold)
      × (((adjust_threshold threshold total valid + 1 ≡ threshold)
            × (high_water * total ≤ 100 * (total - valid)))
          ⊎ (((adjust_threshold threshold total valid ≡ threshold + 1)
                × (100 * (total - valid) < low_water * total))
              ⊎ ((adjust_threshold threshold total valid ≡ threshold)
                  × (((low_water * total ≤ 100 * (total - valid))
                        × (100 * (total - valid) < high_water * total))
                      ⊎ ((threshold ≡ min_threshold) ⊎ (threshold ≡ max_threshold))))))
unfolding adjust_threshold
adjust_threshold_bounds threshold total valid low high pos le = ground arith

-- The files in rising order, as `scan_vlog_files` returns them.
abbrev pub Rising : List ℕ → Type 0
Rising [] = Unit {0}
Rising (n ∷ ns) = All (λ m. n < m) ns × Rising ns

All-collect :
    (P : ℕ → Type 0) (vlog_number : ℕ) (files : List ℕ)
    → All P files
    → All P (collect_gc_targets vlog_number files)
unfolding collect_gc_targets
All-collect P vlog_number [] h = tt
All-collect P vlog_number (n ∷ ns) h = elim (Bool-cases (leb vlog_number n)) [
  | inl e ↦ rw e (All-collect P vlog_number ns h.1)
  | inr e ↦ rw e (h.0, All-collect P vlog_number ns h.1)
]

first-collect :
    (vlog_number target : ℕ) (files : List ℕ)
    → Rising files
    → first (collect_gc_targets vlog_number files) ≡ some target
    → (target < vlog_number) × All (λ m. target ≤ m) files
unfolding collect_gc_targets first
first-collect vlog_number target [] r e = absurd (ground arith)
first-collect vlog_number target (n ∷ ns) r e = elim (Bool-cases (leb vlog_number n)) [
  | inl active ↦
      let (before, least) = first-collect vlog_number target ns r.1 (rw active at e) in
      (before, (ground arith, least))
  | inr older ↦
      let same : n ≡ target = some-injective n target (rw older at e) in
      (ground (arith, same), (ground (arith, same), at_most n target ns same r.0))
]
  where
    at_most :
        (n target : ℕ) (ns : List ℕ) → n ≡ target → All (λ m. n < m) ns → All (λ m. target ≤ m) ns
    at_most n target [] same h = tt
    at_most n target (m ∷ ns) same h = (omega arith, at_most n target ns same h.1)

-- Of files in rising order, the log that the collector takes, if it takes one, is the oldest of
-- all, and never the log that is written to or a later one.
pub gc_target-oldest :
    (threshold vlog_number target : ℕ) (vlog_files : List ℕ)
    → Rising vlog_files
    → gc_target threshold vlog_number vlog_files ≡ some target
    → (target < vlog_number) × All (λ m. target ≤ m) vlog_files
unfolding gc_target
gc_target-oldest threshold vlog_number target vlog_files r e =
    elim (Bool-cases (ltb (length (collect_gc_targets vlog_number vlog_files)) threshold)) [
      | inl few ↦ absurd (ground (arith, rw few at e))
      | inr enough ↦ first-collect vlog_number target vlog_files r (rw enough at e)
    ]
