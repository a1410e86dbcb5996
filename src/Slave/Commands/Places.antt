-- ===== src/Slave/Commands/Places.antt =====
-- Where the pairs of a worker and the master are: the places of the logs, and the addresses.
use distributed_system_based.Base.{
  ℕ, ◌+◌, ◌-◌, ◌<◌, ◌≤◌, ◌≡◌, ◌≢◌, ◌⊎◌, ◌∙◌, ap, sym, refl, arith, List, some, false, length, inl,
  inr,
}
use distributed_system_based.Coding.{IsU32}
use distributed_system_based.Status.{Status, ok, error}
use distributed_system_based.Text.{codes, contains, starts_with}
use distributed_system_based.Vlog.{VlogInfo}
use distributed_system_based.Vlog.Fetch.{slice_at, IsStored}
use distributed_system_based.Wire.Numbers.{FitsU64, decode_address-encoded}
use distributed_system_based.Master.{Address, encoded, decode_address, outcome}
use distributed_system_based.Master.Database.{AddressDb, hit, miss}
use distributed_system_based.Slave.{Slave}
use distributed_system_based.Slave.State.{Holds}
use distributed_system_based.Slave.Store.{IsLater}
use distributed_system_based.Slave.Commands.{Node}
use distributed_system_based.Slave.Commands.Values.{Stores}

-- One place of a log holds one entry of a length.
pub IsStored-unique :
    (info : VlogInfo) (offset : ℕ) (e1 e2 : List ℕ)
    → IsStored info offset e1
    → IsStored info offset e2
    → length e1 ≡ length e2
    → 0 < length e1
    → e1 ≡ e2
IsStored-unique info offset e1 e2 (inl (h1, f1, s1)) (inl (h2, f2, s2)) same pos =
    sym s1 ∙ ap (λ (t : ℕ). slice_at (offset - info.head) t info.buffer) same ∙ s2
IsStored-unique info offset e1 e2 (inr (h1, s1)) (inr (h2, s2)) same pos =
    sym s1 ∙ ap (λ (t : ℕ). slice_at offset t info.file) same ∙ s2
IsStored-unique info offset e1 e2 (inl (h1, f1, s1)) (inr (h2, s2)) same pos = absurd (omega arith)
IsStored-unique info offset e1 e2 (inr (h1, s1)) (inl (h2, f2, s2)) same pos = absurd (omega arith)

pub Holds-unique :
    (s : Slave) (n offset : ℕ) (e1 e2 : List ℕ)
    → Holds s n offset e1
    → Holds s n offset e2
    → length e1 ≡ length e2
    → 0 < length e1
    → e1 ≡ e2
Holds-unique s n offset e1 e2 h1 h2 same pos =
    let one : h1.info ≡ h2.info = ground (arith, h1.found, h2.found) in
    IsStored-unique h2.info offset e1 e2 (rw one at h1.stored) h2.stored same pos

pub hit-injective :
    (a b : Address) → FitsU64 a → FitsU64 b → hit (encoded a) ≡ hit (encoded b) → a ≡ b
hit-injective a b ha hb e =
    let same : encoded a ≡ encoded b = cc in
    let decoded : some a ≡ some b =
      sym (decode_address-encoded a ha) ∙ ap decode_address same ∙ decode_address-encoded b hb in
    cc

module _ (db : AddressDb) where
  -- The test of the collector tells an update that was accepted from one that was not.
  pub accepted_lem :
      (st : Status)
      → (st ≡ ok)
        ⊎ ((st ≢ ok)
            × (contains
                  (codes "UPDATED")
                  (outcome db st (codes "UPDATED\r\n") (codes "ERROR: UpdateAddress failed\r\n"))
                ≡ false))
  unfolding contains starts_with outcome
  accepted_lem ok = inl refl
  accepted_lem (error c msg) = inr (λ e. absurd (ground arith), refl)

  -- The pair is stored afterwards, at the place where it was or in a log that is as new as the one
  -- that was written to.
  abbrev pub Kept :
      (n after : Node db.State) (other value' : List ℕ) → Stores db n other value' → Type 0
  Kept n after other value' p =
      (q : Stores db after other value') × ((q.address ≡ p.address)
        ⊎ (n.slave.vlog_number ≤ q.address.vlog_numb))

  -- A pair that is kept by a write of the master and by one of the worker.
  pub Stores-Kept :
      (n after : Node db.State) (other value' : List ℕ)
      → db.get_address after.master other ≡ db.get_address n.master other
      → IsLater n.slave after.slave
      → (p : Stores db n other value') → Kept n after other value' p
  Stores-Kept n after other value' e later p = (
    record {
      address = p.address;
      known = e ∙ p.known;
      fits = p.fits;
      short = p.short;
      numbered = p.numbered;
      sized = p.sized;
      holds = later.keeps _ _ _ p.holds;
    },
    inl refl,
  )

  -- The address that the master has for a key, if there is one, was written by the protocol.
  abbrev pub IsCoherentAt : db.State → List ℕ → Type 0
  IsCoherentAt m key =
      (db.get_address m key ≡ miss)
      ⊎ ((cur : Address) × FitsU64 cur × (db.get_address m key ≡ hit (encoded cur)))

  abbrev pub IsCoherent : db.State → Type 0
  IsCoherent m = (key : List ℕ) → IsU32 (length key + 8) → IsCoherentAt m key

  pub IsCoherentAt-same :
      (m m' : db.State) (key : List ℕ)
      → db.get_address m' key ≡ db.get_address m key
      → IsCoherentAt m key
      → IsCoherentAt m' key
  IsCoherentAt-same m m' key e (inl known) = inl (e ∙ known)
  IsCoherentAt-same m m' key e (inr (cur, fits, known)) = inr (cur, fits, e ∙ known)
