-- ===== src/Base/Assoc.antt =====
-- Finite maps from numbers, as association lists: `std::map<uint64_t, T>` where the order of its
-- keys plays no part.
use distributed_system_based.Base.Tests.{◌==◌, if◌then◌else◌}
use Prim.Native.Nat.{ℕ}
use mathlib.Core.Path.{◌≡◌, refl}
use mathlib.Core.Option.{Option, none, some}
use mathlib.Core.List.{List, [], ◌∷◌}
use native.Mathlib.Omega.{arith}

abbrev pub Assoc {ℓ} : Type ℓ → Type ℓ
Assoc V = List (ℕ × V)

module _ {ℓ} {V : Type ℓ} where
  unfoldable pub lookup : ℕ → Assoc V → Option V
  lookup k [] = none
  lookup k ((j, v) ∷ m) = if j == k then some v else lookup k m

  unfoldable pub insert : ℕ → V → Assoc V → Assoc V
  insert key val [] = (key, val) ∷ []
  insert key val ((other, old) ∷ entries) =
      let rest = insert key val entries in
      if other == key then (other, val) ∷ entries else (other, old) ∷ rest

  -- A key is looked up behind an insertion: it is the inserted one, or its value is as before.
  pub lookup-insert :
      (key other : ℕ) (val : V) (entries : Assoc V)
      → lookup other (insert key val entries)
        ≡ (if key == other then some val else lookup other entries)
  unfolding lookup insert
  lookup-insert key other val [] = refl
  lookup-insert key other val (e ∷ entries) = ground (arith, lookup-insert key other val entries)

  pub lookup-insert_self :
      (key : ℕ) (val : V) (entries : Assoc V) → lookup key (insert key val entries) ≡ some val
  lookup-insert_self key val entries = ground (arith, lookup-insert key key val entries)
