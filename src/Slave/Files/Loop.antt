-- ===== src/Slave/Files/Loop.antt =====
-- The collection of a whole log of distributed/slave.cc: no value of any key is lost, and no pair is
-- left in the log that is removed.
use distributed_system_based.Base.{
  ℕ, zero, suc, ◌+◌, ◌^◌, ◌<◌, ◌≡◌, ◌⊎◌, ◌∙◌, ap, sym, subst, refl, arith, List, [], ◌∷◌, ◌++◌,
  Option, some, ltb, length, All, inl, inr, length-append, if◌then◌else◌,
}
use distributed_system_based.Coding.{IsU32}
use distributed_system_based.Crc.{Checksum}
use distributed_system_based.Vlog.{header_size, record_header}
use distributed_system_based.Vlog.Entry.{encode_vlog_entry, length-encode_vlog_entry}
use distributed_system_based.Vlog.Log.{length-record_header}
use distributed_system_based.Vlog.Reader.{VReader, read_record}
use distributed_system_based.Vlog.Reader.Stream.{pending, IsReader, Comes}
use distributed_system_based.Vlog.Reader.RoundTrip.{log_of, read_record-Comes, read_record-end}
use distributed_system_based.Wire.Numbers.{FitsU64}
use distributed_system_based.Wire.Requests.{IsKey}
use distributed_system_based.Master.{Address, process_worker_command}
use distributed_system_based.Master.Database.{AddressDb, IsAddressDb}
use distributed_system_based.Slave.{Slave}
use distributed_system_based.Slave.State.{IsSound, Holds}
use distributed_system_based.Slave.Store.{IsLater}
use distributed_system_based.Slave.Commands.{Node}
use distributed_system_based.Slave.Commands.Values.{Stores}
use distributed_system_based.Slave.Commands.Places.{IsCoherent}
use distributed_system_based.Slave.Commands.Collector.{Collected, gc_record-Collected}
use distributed_system_based.Slave.Files.{
  Collection, record_address, gc_loop, with_record, finished,
}

-- A key and its value.
abbrev pub Pair : Type 0
Pair = List ℕ × List ℕ

abbrev pub entry_of : Pair → List ℕ
entry_of pair = encode_vlog_entry pair.0 pair.1

abbrev pub entries_of : List Pair → List (List ℕ)
entries_of [] = []
entries_of (pair ∷ pairs) = entry_of pair ∷ entries_of pairs

-- A pair that the protocol carries.
pub record IsPair (pair : Pair) : Type 0 where
  pub key : IsKey pair.0
  pub len_key : IsU32 (length pair.0 + 8)
  pub len_value : IsU32 (length pair.1)

module _ (target : ℕ) where
  -- The records of the pairs stand in the log, one behind the other from `off` on.
  abbrev pub Placed : Slave → ℕ → List Pair → Type 0
  Placed s off [] = Unit {0}
  Placed s off (pair ∷ pairs) =
      Holds s target (off + header_size) (entry_of pair)
      × Placed s (off + header_size + length (entry_of pair)) pairs

  -- The address is that of a record of the pair.
  abbrev pub At : Pair → Address → ℕ → List Pair → Type 0
  At sought a off [] = ⊥
  At sought a off (pair ∷ pairs) =
      ((pair ≡ sought) × (a ≡ record_address target off (entry_of pair)))
      ⊎ At sought a (off + header_size + length (entry_of pair)) pairs

  pub Placed-later :
      (s s' : Slave) (off : ℕ) (pairs : List Pair)
      → IsLater s s'
      → Placed s off pairs
      → Placed s' off pairs
  Placed-later s s' off [] later h = tt
  Placed-later s s' off (pair ∷ pairs) later (here, more) = (
    later.keeps _ _ _ here,
    Placed-later s s' (off + header_size + length (entry_of pair)) pairs later more,
  )

  module _ (db : AddressDb) (n : Node db.State) (off : ℕ) (pairs : List Pair) (total : ℕ) where
    -- What the loop leaves: each pair that was stored still is, and those at a record of the log
    -- are in a later one.
    pub record Collects (result : Option (Collection db.State)) : Type 0 where
      pub c : Collection db.State
      pub runs : result ≡ some c
      pub counted : c.total ≡ total + length pairs
      pub removed : c.removed ≡ ltb 0 (total + length pairs)
      pub sound : IsSound c.node.slave
      pub keeps :
          (key value : List ℕ) (p : Stores db n key value)
          → (q : Stores db c.node key value) × ((q.address ≡ p.address)
              ⊎ (target < q.address.vlog_numb))
      pub leaves :
          (key value : List ℕ) (p : Stores db n key value)
          → At (key, value) p.address off pairs
          → (q : Stores db c.node key value) × (target < q.address.vlog_numb)

module _ (db : AddressDb) (laws : IsAddressDb db) (crc : Checksum) (target : ℕ)
    (in_range : target < 2 ^ 64) where
  -- One record, and then the others.
  module _ (n : Node db.State) (off total : ℕ) (pair : Pair) (pairs : List Pair)
      (older : target < n.slave.vlog_number) (healthy : laws.Healthy n.master)
      (g : Collected db laws crc n
        (record_address target off (entry_of pair))
        pair.0
        pair.1
        (length pairs))
      (result : Option (Collection db.State))
      (ih : Collects target db g.after
        (off + header_size + length (entry_of pair))
        pairs
        (total + 1)
        result) where
    -- A pair that the record has moved stays moved.
    stays :
        (key value : List ℕ) (q : Stores db g.after key value)
        → target < q.address.vlog_numb
        → (q' : Stores db ih.c.node key value) × (target < q'.address.vlog_numb)
    stays key value q newer =
        let (q', where_now) = ih.keeps key value q in
        (q', elim where_now [ inl same ↦ rw same newer | inr later ↦ later ])

    keeps_both :
        (key value : List ℕ) (p : Stores db n key value)
        → (q : Stores db ih.c.node key value) × ((q.address ≡ p.address)
            ⊎ (target < q.address.vlog_numb))
    keeps_both key value p =
        let (q, where_now) = g.keeps key value p in
        elim where_now [
          | inl same ↦
              let (q', where_then) = ih.keeps key value q in
              (q', elim where_then [ inl same' ↦ inl (same' ∙ same) | inr later ↦ inr later ])
          | inr later ↦ let (q', newer) = stays key value q (omega arith) in (q', inr newer)
        ]

    leaves_here :
        (key value : List ℕ) (p : Stores db n key value)
        → pair ≡ (key, value)
        → p.address ≡ record_address target off (entry_of pair)
        → (q : Stores db ih.c.node key value) × (target < q.address.vlog_numb)
    leaves_here key value p same here =
        let p0 : Stores db n pair.0 pair.1 =
          subst (λ (x : Pair). Stores db n x.0 x.1) (sym same) p in
        subst (λ (x : Pair). (q : Stores db ih.c.node x.0 x.1) × (target < q.address.vlog_numb))
          same
          (elim (g.leaves p0 (at_pair (key, value) same p here)) [
            | inl (q, newer) ↦ stays pair.0 pair.1 q (omega arith)
            | inr (addr, refused) ↦
                absurd (refused (laws.put-Healthy n.master pair.0 addr healthy).0)
          ])
      where
        at_pair :
            (sought : Pair) (e : pair ≡ sought) (p : Stores db n sought.0 sought.1)
            → p.address ≡ record_address target off (entry_of pair)
            → (subst (λ (x : Pair). Stores db n x.0 x.1) (sym e) p).address
              ≡ record_address target off (entry_of pair)
        at_pair sought e p here = here

    leaves_both :
        (key value : List ℕ) (p : Stores db n key value)
        → At target (key, value) p.address off (pair ∷ pairs)
        → (q : Stores db ih.c.node key value) × (target < q.address.vlog_numb)
    leaves_both key value p (inl (same, here)) = leaves_here key value p same here
    leaves_both key value p (inr more) =
        let (q, where_now) = g.keeps key value p in
        elim where_now [
          | inl same ↦ ih.leaves key value q (
              subst
                (λ (a : Address).
                  At target (key, value) a (off + header_size + length (entry_of pair)) pairs)
                (sym same) more)
          | inr later ↦ stays key value q (omega arith)
        ]

    with_first : Collects target db n off (pair ∷ pairs) total result
    with_first = record {
      c = ih.c;
      runs = ih.runs;
      counted = omega (arith, ih.counted);
      removed = ih.removed ∙ ap (ltb 0) (omega arith);
      sound = ih.sound;
      keeps = keeps_both;
      leaves = leaves_both;
    }

  pub gc_loop-Collects :
      (pairs : List Pair) (fuel : ℕ) (r : VReader) (off total valid : ℕ) (n : Node db.State)
      → IsReader r
      → pending r ≡ log_of crc (entries_of pairs)
      → All IsPair pairs
      → off + length (log_of crc (entries_of pairs)) < 2 ^ 64
      → IsSound n.slave
      → IsCoherent db n.master
      → Placed target n.slave off pairs
      → target < n.slave.vlog_number
      → n.slave.vlog_number + length pairs < 2 ^ 32
      → length pairs < fuel
      → laws.Room n.master (length pairs)
      → laws.Healthy n.master
      → Collects target db n off pairs total
          (gc_loop (process_worker_command db) crc target fuel [] r off total valid n)
  unfolding gc_loop with_record
  gc_loop-Collects pairs zero r off total valid n v e hp fits s c placed older room h left ok_now =
      absurd (omega arith)
  gc_loop-Collects [] (suc fuel) r off total valid n v e hp fits s c placed older room h left
        ok_now =
      rw (read_record-end crc r v e) (record {
        c = finished total valid n;
        runs = refl;
        counted = omega arith;
        removed = ap (ltb 0) (omega arith);
        sound = s;
        keeps = λ key value p. (p, inl refl);
        leaves = λ key value p at. absurd at;
      })
  gc_loop-Collects (pair ∷ pairs) (suc fuel) r off total valid n v e (hp, hps) fits s c
        (here, placed) older room h left ok_now =
      let bounds : (0 < length (entry_of pair)) × (length (entry_of pair) < 2 ^ 64) = (
        (length-encode_vlog_entry pair.0 pair.1).0,
        omega (arith, length-encode_vlog_entry pair.0 pair.1, hp.len_key, hp.len_value),
      ) in
      let long : off + 12 + length (entry_of pair) + length (log_of crc (entries_of pairs))
          < 2 ^ 64 =
        omega (
          arith,
          length-append (record_header crc (entry_of pair))
              (entry_of pair ++ log_of crc (entries_of pairs)),
          length-append (entry_of pair) (log_of crc (entries_of pairs)),
          length-record_header crc (entry_of pair),
        ) in
      let read : Comes crc (entry_of pair) (log_of crc (entries_of pairs)) (read_record crc r) =
        read_record-Comes crc (entry_of pair) (log_of crc (entries_of pairs)) r v bounds.1 e in
      let this : Address = record_address target off (entry_of pair) in
      let this_fits : FitsU64 this = record {
        vlog_fits = in_range;
        offset_fits = omega arith;
        size_fits = bounds.1;
      } in
      let g : Collected db laws crc n this pair.0 pair.1 (length pairs) =
        gc_record-Collected db laws crc n this pair.0 pair.1 (length pairs) hp.key hp.len_key
          hp.len_value s (omega arith) left this_fits refl here (c pair.0 hp.len_key) in
      rw read.comes (
        rw g.runs (
          with_first n off total pair pairs older ok_now g _ (
            gc_loop-Collects pairs fuel (read_record crc r).1
              (off + header_size + length (entry_of pair)) (total + 1)
              (if g.valid then valid + 1 else valid) g.after read.reader read.left hps (omega arith)
              g.sound (g.coherent c)
              (Placed-later target n.slave g.after.slave _ pairs g.later placed)
              (omega (arith, g.later.not_before)) (omega (arith, g.later.one_more)) (omega arith)
              g.room (g.healthy ok_now))))
