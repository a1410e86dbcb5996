-- ===== src/Vlog/Reader.antt =====
-- db/vlog_reader.cc: records read in turn from a value log, with the reads of util/env_posix.cc
-- under it. The reports of dropped bytes, which go to a log, are left out, and so is the failure of
-- an allocation.
pub mod Stream
pub mod RoundTrip
use distributed_system_based.Base.{
  ℕ, zero, suc, ◌+◌, ◌-◌, ◌/◌, ◌*◌, List, [], ◌∷◌, ◌++◌, Option, none, some, Bool, true, false, not,
  ◌&&◌, ◌==◌, ltb, leb, if◌then◌else◌, length, take, drop,
}
use distributed_system_based.Coding.{◌>>=◌, decode_fixed32, decode_fixed64}
use distributed_system_based.Crc.{Checksum, unmask}
use distributed_system_based.Vlog.{header_size}

-- `kBlockSize`.
abbrev pub block_size : ℕ
block_size = 32768

-- `file` is what the file still holds, and `faults` tells of the reads to come which of them fail;
-- with no entry left, reads succeed.
pub record VReader : Type 0 where
  pub file : List ℕ
  pub faults : List Bool
  pub checksum : Bool
  pub buffer : List ℕ
  pub eof : Bool

-- `SequentialFile::Read`: as many bytes as are there, up to `n`, or an error.
unfoldable pub read_file : List Bool → ℕ → List ℕ → Option (List ℕ) × List ℕ × List Bool
read_file [] n file = (some (take n file), drop n file, [])
read_file (false ∷ faults) n file = (some (take n file), drop n file, faults)
read_file (true ∷ faults) n file = (none, file, faults)

-- The constructor, for a file that is skipped up to `initial_offset`.
abbrev pub new_reader : List ℕ → List Bool → Bool → ℕ → VReader
new_reader file faults checksum initial_offset = record {
  file = drop initial_offset file;
  faults = faults;
  checksum = checksum;
  buffer = [];
  eof = false;
}

after_refill : VReader → Option (List ℕ) × List ℕ × List Bool → Bool × VReader
after_refill r (none, file, faults) =
    (false, record r { file = file; faults = faults; buffer = []; eof = true })
after_refill r (some got, file, faults) =
    let buffer = r.buffer ++ got in
    if ltb (length buffer) block_size
    then (
      not (ltb (length buffer) header_size),
      record r { file = file; faults = faults; buffer = buffer; eof = true },
    )
    else (true, record r { file = file; faults = faults; buffer = buffer })

-- The first part of `ReadRecord`: the buffer is filled if it is too short for a header. The test
-- is false where `ReadRecord` returns false.
unfoldable pub refill : VReader → Bool × VReader
unfolding after_refill
refill r =
    if ltb (length r.buffer) header_size
    then (if r.eof
        then (false, record r { buffer = [] })
        else after_refill r (read_file r.faults (block_size - length r.buffer) r.file))
    else (true, r)

module _ (crc : Checksum) where
  -- The record, unless its checksum is asked for and is not the one in the header.
  unfoldable checked : ℕ → List ℕ → VReader → Option (List ℕ) × VReader
  checked expected_crc slice r =
      if r.checksum && not (crc.value slice == expected_crc) then (none, r) else (some slice, r)

  -- The rest of a record is read without the buffer.
  unfoldable after_direct :
      ℕ → ℕ → List ℕ → VReader → Option (List ℕ) × List ℕ × List Bool → Option (List ℕ) × VReader
  after_direct expected_crc left_length front r (none, file, faults) =
      (none, record r { file = file; faults = faults; buffer = [] })
  after_direct expected_crc left_length front r (some got, file, faults) =
      if ltb (length got) left_length
      then (none, record r { file = file; faults = faults; buffer = []; eof = true })
      else checked expected_crc (front ++ got)
          (record r { file = file; faults = faults; buffer = [] })

  -- A block is read, and the rest of the record is taken from it.
  unfoldable after_block :
      ℕ → ℕ → List ℕ → VReader → Option (List ℕ) × List ℕ × List Bool → Option (List ℕ) × VReader
  after_block expected_crc left_length front r (none, file, faults) =
      (none, record r { file = file; faults = faults; buffer = [] })
  after_block expected_crc left_length front r (some got, file, faults) =
      if ltb (length got) block_size && ltb (length got) left_length
      then (none, record r { file = file; faults = faults; buffer = got; eof = true })
      else checked expected_crc (front ++ take left_length got) (record r {
        file = file;
        faults = faults;
        buffer = drop left_length got;
        eof = ltb (length got) block_size;
      })

  -- The record that a header announces; the buffer stands behind the header.
  unfoldable pub read_payload : ℕ → ℕ → VReader → Option (List ℕ) × VReader
  unfolding checked after_direct after_block
  read_payload expected_crc len r =
      if leb len (length r.buffer)
      then checked expected_crc (take len r.buffer) (record r { buffer = drop len r.buffer })
      else if r.eof
      then (none, r)
      else if ltb (block_size / 2) (len - length r.buffer)
      then after_direct expected_crc (len - length r.buffer) r.buffer r
          (read_file r.faults (len - length r.buffer) r.file)
      else after_block expected_crc (len - length r.buffer) r.buffer r
          (read_file r.faults block_size r.file)

  -- `DecodeFixed32` and `DecodeFixed64` of the header; twelve bytes are there.
  unfoldable pub read_header : List ℕ → Option (ℕ × ℕ)
  read_header buffer = do
    masked ← decode_fixed32 buffer
    len ← decode_fixed64 (drop 4 buffer)
    some (unmask masked, len)

  after_header : VReader → Option (ℕ × ℕ) → Option (List ℕ) × VReader
  after_header r none = (none, r)
  after_header r (some (expected_crc, len)) =
      read_payload expected_crc len (record r { buffer = drop header_size r.buffer })

  from_buffer : Bool → VReader → Option (List ℕ) × VReader
  from_buffer false r = (none, r)
  from_buffer true r = after_header r (read_header r.buffer)

  -- `VReader::ReadRecord`: the record, or `none` where it returns false.
  unfoldable pub read_record : VReader → Option (List ℕ) × VReader
  unfolding after_header from_buffer
  read_record r = let (ready, r1) = refill r in from_buffer ready r1

  read_more : Option (List ℕ) → VReader → List (List ℕ) × VReader → List (List ℕ) × VReader
  read_more none r rest = ([], r)
  read_more (some slice) r rest = (slice ∷ rest.0, rest.1)

  -- `while (reader.ReadRecord(&record, &scratch))`, for `fuel` rounds at most.
  unfoldable pub read_all : ℕ → VReader → List (List ℕ) × VReader
  unfolding read_more
  read_all zero r = ([], r)
  read_all (suc fuel) r =
      let (slice, r1) = read_record r in let rest = read_all fuel r1 in read_more slice r1 rest
