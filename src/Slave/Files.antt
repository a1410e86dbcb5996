-- ===== src/Slave/Files.antt =====
-- distributed/slave.cc: the collection of a whole log, the file VLOG_META, and the start of a worker
-- over the logs that are there.
pub mod Loop
pub mod NoLoss
pub mod MetaFile
pub mod Recovery
mod Runs
use distributed_system_based.Base.{
  ℕ, zero, suc, ◌+◌, ◌-◌, ◌*◌, ◌%◌, ◌^◌, List, [], ◌∷◌, ◌++◌, Option, none, some, Bool, true, false,
  ltb, ◌==◌, if◌then◌else◌, length, drop,
}
use distributed_system_based.Base.Assoc.{lookup}
use distributed_system_based.Coding.{◌>>=◌}
use distributed_system_based.Crc.{Checksum}
use distributed_system_based.Text.{codes, extract_u64, extract_int, to_string, lines, starts_with}
use distributed_system_based.Vlog.{VlogInfo, header_size}
use distributed_system_based.Vlog.Manager
use distributed_system_based.Vlog.Manager.{
  VlogManager, add_vlog, get_write_pos, set_current_vlog, set_head,
}
use distributed_system_based.Vlog.Reader.{VReader, new_reader, read_record}
use distributed_system_based.Master.{Address}
use distributed_system_based.Slave.{Slave}
use distributed_system_based.Slave.Threshold.{min_threshold, max_threshold}
use distributed_system_based.Slave.Commands.{Node, gc_record}

-- What the file of a log holds, nothing if there is none.
unfoldable pub file_of : Slave → ℕ → List ℕ
file_of s n = elim (lookup n s.manager.logs) [ none ↦ s.disk n | some info ↦ info.file ]

-- What a collection leaves: the counters, whether the file is removed, and the worker and the master.
pub record Collection (M : Type 0) : Type 0 where
  pub total : ℕ
  pub valid : ℕ
  pub removed : Bool
  pub node : Node M

-- The loop is over: the file goes if a record was read.
abbrev finished : {M : Type 0} → ℕ → ℕ → Node M → Collection M
finished total valid n = record { total = total; valid = valid; removed = ltb 0 total; node = n }

abbrev pub next_stop : List Bool → Bool
next_stop [] = false
next_stop (stop ∷ stops) = stop

abbrev pub later_stops : List Bool → List Bool
later_stops [] = []
later_stops (stop ∷ stops) = stops

-- The address of the record whose header stands at `rec_offset`.
abbrev pub record_address : ℕ → ℕ → List ℕ → Address
record_address vlog_number rec_offset raw_data = record {
  vlog_numb = vlog_number;
  offset = rec_offset + header_size;
  size = length raw_data;
}

-- A record was read, or the reader returned false.
unfoldable with_record :
    {M : Type 0}
    → Option (List ℕ)
    → Option (Collection M)
    → (List ℕ → Option (Collection M))
    → Option (Collection M)
with_record none at_end go = at_end
with_record (some raw_data) at_end go = go raw_data

module _ {M : Type 0} (send : M → List ℕ → List ℕ × M) (crc : Checksum) (vlog_number : ℕ) where
  -- The loop of `execute_gc_on_file`. `stops` tells for each round to come whether one of its tests
  -- (the flags of the threads, and the connection to the master) ends the loop; with no entry left,
  -- none does. `none` is a round that ends the run, or no fuel.
  unfoldable pub gc_loop : ℕ → List Bool → VReader → ℕ → ℕ → ℕ → Node M → Option (Collection M)
  unfolding with_record
  gc_loop zero stops r rec_offset total valid n = none
  gc_loop (suc fuel) stops r rec_offset total valid n =
      if next_stop stops
      then some (finished total valid n)
      else with_record (read_record crc r).0 (some (finished total valid n)) (λ raw_data.
        gc_record send crc n (record_address vlog_number rec_offset raw_data) raw_data >>= λ moved.
        gc_loop fuel (later_stops stops) (read_record crc r).1
          (rec_offset + header_size + length raw_data) (total + 1)
          (if moved.0 then valid + 1 else valid) moved.1)

  -- `execute_gc_on_file`: the first entry of `stops` is the test before the file is opened. A file
  -- that cannot be opened counts as empty, which comes to the same.
  unfoldable pub execute_gc_on_file : ℕ → List Bool → List Bool → Node M → Option (Collection M)
  execute_gc_on_file fuel faults stops n =
      if next_stop stops
      then some (finished 0 0 n)
      else gc_loop fuel (later_stops stops) (new_reader (file_of n.slave vlog_number) faults true 0)
          0 0 0 n

-- What VLOG_META holds.
pub record Meta : Type 0 where
  pub vlog_number : ℕ
  pub write_pos : ℕ
  pub gc_threshold : ℕ

-- The text that `save_vlog_meta` writes.
unfoldable pub meta_text : Meta → List ℕ
meta_text meta =
    codes "vlog_number: "
    ++ (to_string meta.vlog_number
        ++ (codes "\nwrite_pos: "
            ++ (to_string meta.write_pos
                ++ (codes "\ngc_threshold: " ++ (to_string meta.gc_threshold ++ codes "\n")))))

unfoldable pub save_vlog_meta : Slave → ℕ → List ℕ
save_vlog_meta s gc_threshold = meta_text (record {
  vlog_number = s.vlog_number;
  write_pos = get_write_pos s.manager;
  gc_threshold = gc_threshold;
})

-- `clamp` of the threshold; `none` is a negative number.
unfoldable pub clamp_threshold : Option ℕ → ℕ
clamp_threshold none = min_threshold
clamp_threshold (some t) =
    if ltb t min_threshold then min_threshold else if ltb max_threshold t then max_threshold else t

-- The three values as `init_vlog` reads them.
pub record Saved : Type 0 where
  pub vlog : ℕ
  pub pos : ℕ
  pub threshold : Option ℕ

-- One line. `none` is an exception of `std::stoull` or `std::stoi`, for a number that is not there or
-- too large; a negative threshold is `none` in the result.
unfoldable pub read_meta_line : List ℕ → Saved → Option Saved
read_meta_line line saved =
    if starts_with (codes "vlog_number:") line
    then (do (n, rest) ← extract_u64 (drop 13 line); some (record saved { vlog = n }))
    else if starts_with (codes "write_pos:") line
    then (do (n, rest) ← extract_u64 (drop 11 line); some (record saved { pos = n }))
    else if starts_with (codes "gc_threshold:") line
    then (do (n, rest) ← extract_int (drop 14 line); some (record saved { threshold = n }))
    else some saved

unfoldable pub read_meta : List (List ℕ) → Saved → Option Saved
read_meta [] saved = some saved
read_meta (line ∷ more) saved = do saved' ← read_meta_line line saved; read_meta more saved'

-- `AddVlog` for each of the files.
unfoldable pub add_all : (ℕ → List ℕ) → List ℕ → VlogManager → VlogManager
add_all disk [] m = m
add_all disk (num ∷ existing) m = add_all disk existing (add_vlog m (disk num) num)

unfoldable pub last_of : ℕ → List ℕ → ℕ
last_of n [] = n
last_of n (m ∷ ms) = last_of m ms

-- The three cases of `init_vlog`. `saved_vlog` is 0 where there is no VLOG_META.
unfoldable pub recover : (ℕ → List ℕ) → List ℕ → ℕ → ℕ → Slave
recover disk [] saved_vlog saved_pos = record {
  manager = add_vlog Manager.initial (disk 1) 1;
  vlog_number = 1;
  disk = disk;
}
recover disk (num ∷ existing) saved_vlog saved_pos =
    let all = add_all disk (num ∷ existing) Manager.initial in
    let max_num = last_of num existing in
    if ltb 0 saved_vlog
    then record {
      manager =
          if ltb 0 saved_pos then (set_head (set_current_vlog all saved_vlog) saved_pos).1 else all;
      vlog_number = saved_vlog;
      disk = disk;
    }
    else record {
      manager = (set_head (set_current_vlog all max_num) (length (disk max_num))).1;
      vlog_number = max_num;
      disk = disk;
    }

-- `init_vlog`: the worker and its threshold, from the files in rising order and the text of
-- VLOG_META, empty if there is none. `threshold` is the one of the program's start.
unfoldable pub init_vlog : (ℕ → List ℕ) → List ℕ → List ℕ → ℕ → Option (Slave × ℕ)
init_vlog disk existing meta threshold = do
  saved ← read_meta (lines meta) (record { vlog = 0; pos = 0; threshold = some threshold })
  some (recover disk existing saved.vlog saved.pos, clamp_threshold saved.threshold)
