-- ===== src/Lib.antt =====
-- A model of gapdb, an embedded key-value database with one writer, and what is proved of it.
--
-- A client submits a batch of mutations with assertions. The writer goroutine takes one command
-- after the other: it validates the batch, evaluates every condition at one instant, plans the
-- index, allocates a revision, appends a frame to the write-ahead log, waits for durability if the
-- acknowledgement is durable, publishes the new records under the lock, and passes the events to
-- the watchers and to the expiry queue. Readers see the published store only.
--
-- The files, by the part that they model:
--   Api/Errors, Api/Types, Api/Validate: gapdb/types.go, errors, values and the checks of a batch
--   Api/Options: gapdb/options.go, the limits
--   Persist/Frames: the values of internal/persist/wal.go and identity.go that the engine uses
--   Persist/Header: the fixed blocks of internal/persist/wal.go and identity.go
--   Persist/Effects, Codec: the encoding of a commit frame in internal/persist/wal.go
--   Persist/Scan: the scan of a log in internal/persist/recovery.go
--   Persist/Files: the file interface of internal/faultfs/fs.go, and writeFull
--   Persist/Wal: the open log of internal/persist/wal.go
--   Persist/Reservation: the replacement of the identity file and the reservation of revisions in
--     internal/persist/identity.go
--   Persist/Recovery: RecoverDatabase of internal/persist/recovery.go
--   Persist/Snapshot: the codec of internal/persist/snapshot.go, with SHA-256 as a parameter, and
--     the loading of its file
--   Engine/Clock: internal/clock/clock.go
--   Engine/Revision: internal/engine/revision.go, with the reservation as a parameter
--   Engine/History: internal/engine/history.go
--   Engine/Watch: internal/engine/watch.go, what the writer does to the registry of the watchers
--   Engine/Expiry: internal/engine/expiry.go, the queue as a list in heap order
--   Engine/Admission: internal/engine/mutation.go
--   Engine/State: internal/engine/state.go, the state of the engine and the monad of its steps
--   Engine/Conditions, Apply, OrderedKeys, Writer, Commands: internal/engine/writer.go
--   Engine/Snapshot: internal/engine/snapshot.go and admin.go
--   Engine/Open: the construction of the state in internal/engine/state.go
--   Engine/Reads, Prefix, Scan: the reads of internal/engine/state.go and scan.go
--   Server/Replay: the replay of recovered commits in internal/server/owner.go
--   Protocol/Frame: internal/protocol/frame.go
--
-- A function of the source keeps its name in snake case. The writer is explicit state passing: a
-- step takes the engine and a flag for a possible application, and returns a value, fails with an
-- error, or panics. The log, the allocator and the fault hook are the record `Storage`, over any
-- states, with nothing assumed of them. A batch is executed by one goroutine, so the locks have no
-- counterpart. Strings and slices are lists of bytes, instants are signed nanoseconds, and maps are
-- association lists. Loops are structural, but for the scan of a log and for writeFull, which run on
-- fuel: the length of the bytes is enough, since every round takes one of them at least.
--
-- The log file, the identity file and the directory are states of the operating system. Their
-- operations are the records `FileOps`, `DirectoryOps` and `RecoveryOps`, and what is relied on is
-- `IsFile` (a write appends what it says it took, a flush empties the buffer, a sync makes safe what
-- has left it) and `IsDirectory` (a rename happens entirely or not at all). CRC-32C is computed bit
-- by bit in Prelude/Crc.
--
-- Not modelled: channels, contexts and timers around the writer; the goroutine that delivers the
-- events of a watcher; the text of a scan cursor; the codec of manifests, which is JSON; the
-- installation of snapshots, backup, compaction and the lock of the owner, which are calls on files;
-- the JSON of the wire protocol; the client, the server and the tools, which are input and
-- output around the engine.
pub mod Prelude
pub mod Api
pub mod Persist
pub mod Engine
pub mod Server
pub mod Protocol
pub mod Tests
