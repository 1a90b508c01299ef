-- ===== src/Persist/Wal.antt =====
-- internal/persist/wal.go: the log that is open for appending, with the file as a parameter.
pub mod History
pub mod Steps
pub mod Survives
use Prim.Native.String.{String}
use gapdb.Prelude.{
  ℕ, ◌+◌, ◌-◌, ◌%◌, ◌^◌, ◌==◌, ◌||◌, ◌&&◌, not, Bool, true, false, Option, none, some, List, [],
  ◌∷◌, Bytes, ltb, leb, key_eq, if◌then◌else◌,
}
use gapdb.Api.Errors.{
  Error, Result, ok, err, ◌>>=◌, ◌>>◌, reject, corrupt_wal, io_error, storage_degraded, Stage,
  wal_unavailable, wal_frame_write, wal_buffer_flush, wal_file_sync,
}
use gapdb.Api.Options.{Limits}
use gapdb.Api.Validate.{is_some}
use gapdb.Persist.Codec.{encode_commit_frame}
use gapdb.Persist.Files.{FileOps, write_full}
use gapdb.Persist.Frames.{CommitFrame}
use gapdb.Persist.Header.{WalHeader, encode_wal_header}
use gapdb.Persist.Scan.{ScanInput, WalReplay, scan_wal, in_context}

-- `WAL`: the file and its buffer are one; `closed` is that the file is nil.
pub record Wal (F : Type 0) : Type 0 where
  pub file : F
  pub closed : Bool
  pub header : WalHeader
  pub limits : Limits
  pub last_revision : ℕ
  pub durable_through : ℕ
  pub pending : Bool
  pub failed : Bool

abbrev wal_error : String → Error
wal_error reason = corrupt_wal reason 0

abbrev header_eq : WalHeader → WalHeader → Bool
header_eq a b =
    key_eq a.database_id b.database_id
    && a.first_revision == b.first_revision
    && a.generation == b.generation

-- `expected.FirstRevision-1`, a uint64
abbrev before : WalHeader → ℕ
before h = (h.first_revision + (2 ^ 64 - 1)) % 2 ^ 64

-- A file that the system opened: its bytes for a reader, its size if `Stat` tells it, and whether
-- the seek to its end fails.
pub record OpenedFile (F : Type 0) : Type 0 where
  pub file : F
  pub bytes : Bytes
  pub fault : Bool
  pub size : Option ℕ
  pub seek_fails : Bool

module _ {F : Type 0} (ops : FileOps F) where
  abbrev degraded_at : Stage → Wal F → Error
  degraded_at stage wal = storage_degraded stage wal.last_revision wal.durable_through false

  abbrev pub opened : F → WalHeader → Limits → (last durable : ℕ) → Wal F
  opened file header limits last durable = record {
    file = file;
    closed = false;
    header = header;
    limits = limits;
    last_revision = last;
    durable_through = durable;
    pending = false;
    failed = false;
  }

  create_file : F → WalHeader → Limits → Bytes → Result (Wal F)
  create_file f header limits encoded = do
    let (f', unwritten) = write_full ops f encoded
    let (f'', unsynced) = ops.sync f'
    reject unwritten (io_error "wal_header_write" false)
    reject unsynced (io_error "wal_header_sync" false)
    ok (opened f'' header limits (before header) 0)

  -- `CreateWAL`: whether the name of the path is the one that the header asks for, and the file
  -- that the system creates there, if it does.
  unfoldable create_wal :
      (created : Option F) (named : Bool) → WalHeader → (buffer_size : ℕ) → Limits → Result (Wal F)
  unfolding create_file
  create_wal created named header buffer_size limits = do
    reject (buffer_size == 0) (wal_error "WAL buffer size must be positive")
    reject (not named) (wal_error "WAL filename does not match its first revision")
    encoded ← encode_wal_header header
    elim created [
      | none ↦ err (io_error "wal_header_create" false)
      | some f ↦ create_file f header limits encoded
    ]

  append_frame : Wal F → CommitFrame → Bytes → Wal F × Result (Unit {0})
  append_frame wal c encoded =
      let (f, unwritten) = write_full ops wal.file encoded in
      if unwritten
      then (record wal { file = f; failed = true }, err (degraded_at wal_frame_write wal))
      else (record wal { file = f; last_revision = c.revision; pending = true }, ok tt)

  -- `Append`
  unfoldable pub append : Wal F → CommitFrame → Wal F × Result (Unit {0})
  unfolding append_frame
  append wal c =
      if wal.failed
      then (wal, err (degraded_at wal_unavailable wal))
      else (if ltb c.revision wal.header.first_revision || leb c.revision wal.last_revision
          then (wal, err (wal_error "commit revision is below the WAL start or not increasing"))
          else (elim (encode_commit_frame c wal.limits) [
            | err e ↦ (wal, err e)
            | ok encoded ↦ append_frame wal c encoded
          ]))

  -- `Barrier`
  unfoldable pub barrier : Wal F → Wal F × Result (Unit {0})
  barrier wal =
      let (flushed, unflushed) = ops.flush wal.file in
      let (synced, unsynced) = ops.sync flushed in
      if wal.failed
      then (wal, err (degraded_at wal_unavailable wal))
      else (if unflushed
          then (
            record wal { file = flushed; failed = true },
            err (degraded_at wal_buffer_flush wal),
          )
          else (if unsynced
              then (
                record wal { file = synced; failed = true },
                err (degraded_at wal_file_sync wal),
              )
              else (
                record wal { file = synced; durable_through = wal.last_revision; pending = false },
                ok tt,
              )))

  -- `Close`
  unfoldable pub close : Wal F → Wal F × Result (Unit {0})
  unfolding barrier
  close wal =
      let (wal', settled) = if wal.pending || wal.failed then barrier wal else (wal, ok tt) in
      let (f, unclosed) = ops.close wal'.file in
      if wal.closed then (wal, ok tt) else (
        record wal' { file = f; closed = true },
        settled >> reject unclosed (io_error "close" false),
      )

  -- What the scan of the file found is what the owner recovered.
  settle : OpenedFile F → WalHeader → (last durable : ℕ) → Limits → WalReplay → Result (Wal F)
  settle found expected last durable limits r = do
    reject
        (is_some r.tail || not (header_eq r.header expected) || not (r.recovered_revision == last))
        (wal_error "WAL append state does not match recovered authority")
    reject found.seek_fails (io_error "wal_seek_append" false)
    ok (opened found.file expected limits last durable)

  append_input : OpenedFile F → (size : ℕ) → WalHeader → (last : ℕ) → Limits → ScanInput
  append_input found size expected last limits = record {
    fault = found.fault;
    physical_size = size;
    expected_id = expected.database_id;
    after_revision = before expected;
    reserved_end = last;
    limits = limits;
  }

  -- `OpenWALForAppend`; none is the answer of a scan that does not end.
  unfoldable open_wal_for_append :
      Option (OpenedFile F)
      → (expected : WalHeader) → (last durable buffer_size : ℕ) → Limits
      → Option (Result (Wal F))
  unfolding settle append_input
  open_wal_for_append none expected last durable buffer_size limits = some (
      reject (buffer_size == 0 || ltb last (before expected) || ltb last durable)
        (wal_error "recovered WAL append state is invalid")
      >> err (io_error "wal_open_append" false))
  open_wal_for_append (some found) expected last durable buffer_size limits =
      if buffer_size == 0 || ltb last (before expected) || ltb last durable
      then some (err (wal_error "recovered WAL append state is invalid"))
      else (elim found.size [
        | none ↦ some (err (io_error "wal_stat_append" false))
        | some size ↦ elim (scan_wal (append_input found size expected last limits) found.bytes) [
          | none ↦ none
          | some answer ↦ some (in_context 0 answer >>= settle found expected last durable limits)
        ]
      ])
