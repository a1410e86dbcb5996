-- ===== src/Slave/History.antt =====
-- Any sequence of writes to a worker: every value can be fetched in the end.
use distributed_system_based.Base.{
  ℕ, ◌+◌, ◌^◌, ◌<◌, ◌≡◌, refl, arith, List, [], ◌∷◌, Option, some, length, All,
}
use distributed_system_based.Coding.{IsU32, ◌>>=◌}
use distributed_system_based.Crc.{Checksum}
use distributed_system_based.Vlog.{found}
use distributed_system_based.Vlog.Entry.{encode_vlog_entry}
use distributed_system_based.Vlog.Manager.{encode_address, fetch_value_from_vlog}
use distributed_system_based.Slave.{Slave, write_value_to_vlog}
use distributed_system_based.Slave.State.{IsSound, Holds}
use distributed_system_based.Slave.Store.{
  WriteSucceeds, write_value_to_vlog-WriteSucceeds, fetch-Holds,
}

-- A key and its value.
abbrev pub Pair : Type 0
Pair = List ℕ × List ℕ

-- The writes of a list of pairs in turn, with the addresses that come back.
unfoldable pub write_all : Checksum → Slave → List Pair → Option (List (List ℕ) × Slave)
write_all crc s [] = some ([], s)
write_all crc s ((key, value) ∷ kvs) = do
  (addr, s1) ← write_value_to_vlog crc s key value
  (addrs, s2) ← write_all crc s1 kvs
  some (addr ∷ addrs, s2)

-- The fetch at each address returns the value of its pair.
abbrev pub Fetchable : Slave → List Pair → List (List ℕ) → Type 0
Fetchable s [] [] = Unit {0}
Fetchable s (kv ∷ kvs) (addr ∷ addrs) =
    (fetch_value_from_vlog s.manager addr ≡ some (found kv.1)) × Fetchable s kvs addrs
Fetchable s _ _ = ⊥

abbrev pub Fits : Pair → Type 0
Fits kv = IsU32 (length kv.0) × IsU32 (length kv.1)

-- What is stored when a sequence of writes begins is stored when it ends.
record Run (crc : Checksum) (s : Slave) (kvs : List Pair) : Type 0 where
  addrs : List (List ℕ)
  after : Slave
  runs : write_all crc s kvs ≡ some (addrs, after)
  keeps : (n offset : ℕ) (entry : List ℕ) → Holds s n offset entry → Holds after n offset entry
  sound : IsSound after
  fetchable : Fetchable after kvs addrs

write_all_lem :
    (crc : Checksum) (s : Slave) (kvs : List Pair)
    → IsSound s
    → s.vlog_number + length kvs < 2 ^ 32
    → All Fits kvs
    → Run crc s kvs
unfolding write_all
write_all_lem crc s [] v h fits = record {
  addrs = [];
  after = s;
  runs = refl;
  keeps = λ n offset entry p. p;
  sound = v;
  fetchable = tt;
}
write_all_lem crc s ((key, value) ∷ kvs) v h fits =
    let w : WriteSucceeds crc s key value =
      write_value_to_vlog-WriteSucceeds crc s key value v (omega arith) in
    let r : Run crc w.after kvs =
      write_all_lem crc w.after kvs w.sound (omega (arith, w.later.one_more)) fits.1 in
    record {
      addrs =
          encode_address w.after.vlog_number w.offset (length (encode_vlog_entry key value))
          ∷ r.addrs;
      after = r.after;
      runs = rw w.written (rw r.runs);
      keeps = λ n offset entry p. r.keeps n offset entry (w.later.keeps n offset entry p);
      sound = r.sound;
      fetchable = (
        fetch-Holds r.after w.after.vlog_number w.offset key value (omega (arith, w.later.one_more))
            w.in_range fits.0.0 fits.0.1
            (r.keeps w.after.vlog_number w.offset (encode_vlog_entry key value) w.holds),
        r.fetchable,
      );
    }

-- From a sound state whose log numbers stay below 2^32, as a fetcher takes no more, the writes of any pairs with keys and values
-- below 2^32 bytes, one after the other, all succeed, whatever flushes and new logs they bring; at the end the fetch at
-- each address returns the value that was written there, and the state is sound.
pub write_all-Fetchable :
    (crc : Checksum) (s : Slave) (kvs : List Pair)
    → IsSound s
    → s.vlog_number + length kvs < 2 ^ 32
    → All Fits kvs
    → (addrs : List (List ℕ)) × (after : Slave) × (write_all crc s kvs ≡ some (addrs, after))
      × Fetchable after kvs addrs
      × IsSound after
write_all-Fetchable crc s kvs v h fits =
    let r : Run crc s kvs = write_all_lem crc s kvs v h fits in
    (r.addrs, r.after, r.runs, r.fetchable, r.sound)
