-- ===== src/Slave/Runs.antt =====
-- Runs of a worker that has just created its first log.
use distributed_system_based.Base.{
  ℕ, ◌+◌, ◌*◌, ◌≤◌, ◌<◌, ◌≡◌, ◌⊎◌, refl, arith, List, [], ◌∷◌, ◌-◌, some, All, leb, length,
  if◌then◌else◌,
}
use distributed_system_based.Text.{codes}
use distributed_system_based.Crc.{Checksum}
use distributed_system_based.Slave.{
  Slave, init_new, max_vlog_size, write_value_to_vlog, write_overtaken,
}
use distributed_system_based.Slave.State.{IsSound, Holds, init_new-IsSound}
use distributed_system_based.Slave.Overtaken.{write_overtaken-Holds}
use distributed_system_based.Vlog.Entry.{encode_vlog_entry}
use distributed_system_based.Vlog.Manager.{encode_address, get_write_pos}
use distributed_system_based.Slave.Threshold.{
  adjust_threshold, adjust_threshold_bounds, collect_gc_targets, gc_target, gc_target-oldest,
  high_water, low_water, min_threshold, max_threshold,
}
use distributed_system_based.Slave.History.{Pair, Fetchable, write_all, write_all-Fetchable}

-- A checksum that is zero for all bytes.
abbrev no_checksum : Checksum
no_checksum = record { value = λ bytes. 0; value-lt = λ bytes. omega arith }

-- Two values of one key, and one of another.
abbrev three_writes : List Pair
three_writes = (codes "a", codes "one") ∷ (codes "b", codes "two") ∷ (codes "a", codes "three") ∷ []

write_all-Fetchable_example :
    (addrs : List (List ℕ)) × (after : Slave) × (write_all no_checksum init_new three_writes
      ≡ some (addrs, after))
    × Fetchable after three_writes addrs
    × IsSound after
unfolding init_new
write_all-Fetchable_example =
    write_all-Fetchable no_checksum init_new three_writes init_new-IsSound (omega arith)
      (omega arith)

write_overtaken-Holds_example :
    (offset : ℕ) × (mid : Slave) × (after : Slave) × (write_value_to_vlog no_checksum init_new
        (codes "a")
        (codes "one")
      ≡ some (
        encode_address mid.vlog_number offset
            (length (encode_vlog_entry (codes "a") (codes "one"))),
        mid,
      ))
    × (write_overtaken no_checksum init_new (codes "a") (codes "one") (codes "b") (codes "two")
        ≡ some (
          encode_address after.vlog_number offset
              (length (encode_vlog_entry (codes "a") (codes "one"))),
          after,
        ))
    × (after.vlog_number ≡ (
        if leb max_vlog_size (get_write_pos mid.manager)
        then mid.vlog_number + 1
        else mid.vlog_number))
    × Holds after mid.vlog_number offset (encode_vlog_entry (codes "a") (codes "one"))
unfolding init_new
write_overtaken-Holds_example =
    write_overtaken-Holds no_checksum init_new (codes "a") (codes "one") (codes "b") (codes "two")
      init_new-IsSound (omega arith)

adjust_threshold_bounds_example :
    (min_threshold ≤ adjust_threshold 3 10 5)
    × (adjust_threshold 3 10 5 ≤ max_threshold)
    × (((adjust_threshold 3 10 5 + 1 ≡ 3) × (high_water * 10 ≤ 100 * (10 - 5)))
        ⊎ (((adjust_threshold 3 10 5 ≡ 3 + 1) × (100 * (10 - 5) < low_water * 10))
            ⊎ ((adjust_threshold 3 10 5 ≡ 3)
                × (((low_water * 10 ≤ 100 * (10 - 5)) × (100 * (10 - 5) < high_water * 10))
                    ⊎ ((3 ≡ min_threshold) ⊎ (3 ≡ max_threshold))))))
adjust_threshold_bounds_example =
    adjust_threshold_bounds 3 10 5 (omega arith) (omega arith) (omega arith) (omega arith)

oldest_runs : gc_target 2 9 (4 ∷ 7 ∷ 9 ∷ []) ≡ some 4
unfolding gc_target collect_gc_targets
oldest_runs = refl

gc_target-oldest_example : (4 < 9) × All (λ m. 4 ≤ m) (4 ∷ 7 ∷ 9 ∷ [])
gc_target-oldest_example = gc_target-oldest 2 9 4 (4 ∷ 7 ∷ 9 ∷ []) (omega arith) oldest_runs
