-- ===== src/Lib.antt =====
-- DisKV, a distributed key-value store on WiscKey: LevelDB with the values kept apart in value logs.
--
-- The program. A master (distributed/master.cc) keeps the address of each key's value in an
-- LSM-tree. Three workers (distributed/slave.cc) keep the values in value logs (db/vlog_*). A client
-- (distributed/client.cc) asks the master for the route table and then talks to the worker that the
-- first byte of a key belongs to. A worker that serves a PUT appends the entry to its current log and
-- registers the address at the master with a line of text; for a GET it asks for the address and
-- fetches the value; and a thread collects garbage: it reads the records of the oldest log, moves
-- those whose address the master still has, and asks the master to replace the address.
--
-- The files.
--   Base: shared names; Base.Lists and Base.Tests are lists and tests over native numbers, Base.Assoc
--     is std::map by number, Base.Bits has lemmas on bits.
--   Coding: util/coding.{h,cc}. Bytes are numbers, a buffer is a list, and a reader returns the value
--     with what is left; the theorems stand in Coding.Fixed, Coding.Varint, Coding.Bounds and
--     Coding.Slices.
--   Status: include/leveldb/status.h. Crc: util/crc32c.h; the checksum itself is a parameter, any
--     function from bytes to 32-bit numbers.
--   Vlog: db/vlog_writer.cc (write_record is VWriter::AddRecord), db/vlog_fetcher.cc (parse, get) and
--     util/env_posix.cc (synced_append). Vlog.Manager: db/vlog_manager.cc. Vlog.Entry: the payload of
--     a record. Vlog.Log, Vlog.Fetch, Vlog.Failures and Vlog.Addresses hold the theorems: the log as
--     one sequence of bytes, what stays readable in it, and what failed writes leave.
--   Vlog.Reader: db/vlog_reader.cc (read_record is VReader::ReadRecord), with the reader as a stream
--     in Vlog.Reader.Stream and the round trip with the writer in Vlog.Reader.RoundTrip.
--   Text: the trim, toupper, operator>> and std::to_string that both sides of the protocol use, with
--     std::getline, find and the digits that a program reads back from a line; Text.Words, Text.Lines
--     and Text.Numbers have the lemmas.
--   Routing: get_worker_for_key and get_worker_range of distributed/master.cc and find_worker_for_key
--     of distributed/client.cc.
--   Master: process_worker_command of distributed/master.cc, one function for each command. The
--     database is the record AddressDb of Master.Database with laws, which hold while there is room for
--     writes; Lsm.AddressStore.Database shows that the store of db/db_impl.cc, as modelled here, meets
--     them, and Master.Commands has the theorems.
--   Wire: the request lines of distributed/slave.cc, and that the master reads them as they were meant.
--   Slave: write_value_to_vlog of distributed/slave.cc with the rotation of logs; Slave.State,
--     Slave.Store, Slave.History and Slave.Overtaken have the theorems on stored values. Slave.Commands: PUT, GET and
--     DELETE of process_command and the loop body of execute_gc_on_file, over any master;
--     Slave.Commands.Places, .Replies, .Values, .Collector and .EndToEnd put them together with the
--     master of Master. Slave.Dispatch: process_command on a line of text, SCAN included, with the
--     theorems in Slave.Dispatch.Lines, .Scan, .ErrorKeys and .Session.
--   Slave.Files: execute_gc_on_file over a whole log, VLOG_META and init_vlog, with Slave.Files.Loop
--     and .NoLoss for the loop of the collector and .MetaFile and .Recovery for a restart.
--     Slave.Threshold: collect_gc_targets and the threshold of gc_thread_main; Slave.Rounds: a round
--     of that thread.
--   Client: parse_route_table of distributed/client.cc, build_route_table and process_client_command
--     of distributed/master.cc, with the theorems in Client.RouteTable and Client.Registration.
--   Batch: db/write_batch.cc; Batch.Contents and Batch.Addresses have the theorems on what a batch
--     replays and the addresses it hands out.
--   Lsm: db/dbformat.{h,cc} and util/comparator.cc, with the order of keys in Lsm.Order. Lsm.SkipList:
--     db/skiplist.h. Lsm.MemTable: db/memtable.cc, with the newest
--     entry of a key in Lsm.MemTable.Newest, .Inserts and .Latest. Lsm.AddressStore: PutAddress, GetAddress
--     and DeleteKey of db/db_impl.cc over memtables, with Lsm.AddressStore.Rooms
--     and .Laws; .Database makes it the master's database, and .Fresh is a small one for runs.
--     Lsm.VersionEdit: Clear, EncodeTo and DecodeFrom of db/version_edit.cc, as a sequence of changes in
--     Lsm.VersionEdit.Changes, .Parts and .RoundTrip.
--
-- The model. State is passed explicitly: a VlogInfo is one log with its buffer, its head and its
-- file; a VlogManager is the map of logs with the current one; a Slave adds g_vlog_number; a Node is
-- a Slave with the state of the master. The answers of the system to writes are a list of outcomes,
-- and those to reads a list of faults; a list that has run out answers with success. A failed assert
-- and a read of memory that holds no data end a run, written as none. Machine integers wrap around
-- where the source's do; a log number of 2^32 or more makes the fetcher of a log open another file. An
-- operation is a function, and runs are sequences of operations in which no other thread of the worker
-- runs inside one. The worker's lock ensures this for the write of a record, but it is given up before
-- the address is made: Slave.Overtaken has the run in which another thread writes in between. The pointers of a skip list are lists of
-- following nodes, one list for a level; the heights that RandomHeight draws and the moments at which
-- a memtable is full are lists that the caller gives.
--
-- Bounds. The encoders and decoders of varints run for at most five or ten bytes, as the shifts of
-- the source say. The loop over records of a log takes one round for each record and one for the end,
-- which is the fuel that the theorems ask for. A search of a skip list takes at most one round for
-- each node and each level, and the loops of a batch and of a version edit one for each byte. A worker's log numbers stay
-- below 2^32, the sequence numbers of the database below 2^56, and keys and values below 2^32 bytes, which is what the encodings carry.
--
-- Not modelled. Sockets, epoll loops, signals and logging are input and output, and the list of files
-- that a directory scan of a worker finds is an argument. Of the LSM-tree, the write-ahead log, tables
-- on disk, versions, compactions, iterators over tables, caches and filters are left out; a frozen
-- memtable answers for the table it becomes. Vendored code under third_party, benchmarks and test
-- programs are left out.
pub mod Base
pub mod Batch
pub mod Client
pub mod Coding
pub mod Status
pub mod Crc
pub mod Vlog
pub mod Lsm
pub mod Master
pub mod Wire
pub mod Slave
pub mod Text
pub mod Routing
