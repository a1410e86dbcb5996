-- ===== src/Slave/Dispatch/ErrorKeys.antt =====
-- SCAN of distributed/slave.cc looks for the text ERROR anywhere in the response of the master, and
-- the response holds the keys.
use distributed_system_based.Base.{
  ℕ, ◌≡◌, refl, arith, List, [], ◌∷◌, ◌++◌, some, true, Bool-cases, inl, inr,
}
use distributed_system_based.Text.{codes, contains, starts_with}
use distributed_system_based.Master.{scan_line}
use distributed_system_based.Slave.{Slave}
use distributed_system_based.Slave.Dispatch.{answer_scan}
use distributed_system_based.Slave.Dispatch.Scan.{Row, address_lines}

module _ (pattern : List ℕ) where
  contains-front : (s : List ℕ) → starts_with pattern s ≡ true → contains pattern s ≡ true
  unfolding contains
  contains-front [] h = h
  contains-front (c ∷ s) h = rw h refl

  contains-behind : (t s : List ℕ) → contains pattern s ≡ true → contains pattern (t ++ s) ≡ true
  unfolding contains
  contains-behind [] s h = h
  contains-behind (c ∷ t) s h = ground (arith, contains-behind t s h)

starts_with-before :
    (pattern s t : List ℕ) → starts_with pattern s ≡ true → starts_with pattern (s ++ t) ≡ true
unfolding starts_with
starts_with-before [] s t h = refl
starts_with-before (p ∷ pattern) [] t h = absurd (ground (arith, h))
starts_with-before (p ∷ pattern) (c ∷ s) t h = ground (arith, h, starts_with-before pattern s t)

contains-before :
    (pattern s t : List ℕ) → contains pattern s ≡ true → contains pattern (s ++ t) ≡ true
unfolding contains
contains-before pattern [] t h = contains-front pattern t (starts_with-before pattern [] t h)
contains-before pattern (c ∷ s) t h = elim (Bool-cases (starts_with pattern (c ∷ s))) [
  | inl front ↦ contains-front pattern (c ∷ (s ++ t)) (starts_with-before pattern (c ∷ s) t front)
  | inr later ↦
      contains-behind pattern (c ∷ []) (s ++ t) (contains-before pattern s t (rw later at h))
]

contains-key :
    (row : Row) (rest : List ℕ)
    → contains (codes "ERROR") row.key ≡ true
    → contains (codes "ERROR") (scan_line row.key row.address ++ rest) ≡ true
unfolding scan_line
contains-key row rest h = contains-before (codes "ERROR") _ rest (
    contains-behind (codes "ERROR") (codes "KVPAIR_ADDR ") _
      (contains-before (codes "ERROR") row.key _ h))

contains-rows :
    (before : List Row) (row : Row) (after : List Row)
    → contains (codes "ERROR") row.key ≡ true
    → contains (codes "ERROR") (address_lines (before ++ (row ∷ after))) ≡ true
contains-rows [] row after h = contains-key row (address_lines after) h
contains-rows (r ∷ before) row after h =
    contains-behind (codes "ERROR") (scan_line r.key r.address) _ (contains-rows before row after h)

-- If one of the keys that the master sends for a scan has the text ERROR in it, the client receives
-- the response of the master itself, with addresses in the place of values, for all the keys.
pub answer_scan-error_key :
    (s : Slave) (before : List Row) (row : Row) (after : List Row)
    → contains (codes "ERROR") row.key ≡ true
    → answer_scan s (address_lines (before ++ (row ∷ after)))
      ≡ some (address_lines (before ++ (row ∷ after)))
unfolding answer_scan
answer_scan-error_key s before row after h = rw (contains-rows before row after h) refl
