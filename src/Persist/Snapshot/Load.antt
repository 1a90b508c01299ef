-- ===== src/Persist/Snapshot/Load.antt =====
-- `Load` of `SnapshotFileStore` in internal/persist/snapshot.go. The calls on the file, the decoding
-- of hexadecimal text and SHA-256 are parameters.
use gapdb.Prelude.{
  suc, ◌==◌, ◌||◌, not, Bool, false, Option, none, some, Bytes, length, take, ltb, if◌then◌else◌,
}
use gapdb.Api.Errors.{Result, err, ◌>>◌, reject, io_error}
use gapdb.Api.Options.{Limits, default_options}
use gapdb.Persist.Recovery.{SnapshotState}
use gapdb.Persist.Snapshot.{decode_snapshot, snapshot_error, maximum_size}

-- A snapshot file that was opened: its bytes, and whether reading them fails.
record SnapshotFile : Type 0 where
  bytes : Bytes
  fault : Bool

-- The limits of the store, or the default ones where they are not set.
abbrev store_limits : Limits → Limits
store_limits limits =
    if limits.max_key_bytes == 0 || limits.max_value_bytes == 0 then default_options else limits

module _ (sha256 : Bytes → Bytes) where
  -- From the bytes of the file on, with the digest in the manifest where its text is hexadecimal.
  decode_file : Bytes → (database_id : Bytes) → Option Bytes → Limits → Result SnapshotState
  decode_file encoded database_id none limits = do
    reject (ltb maximum_size (length encoded))
        (snapshot_error "snapshot exceeds the format size bound")
    err (snapshot_error "manifest snapshot digest is invalid")
  decode_file encoded database_id (some digest) limits = do
    reject (ltb maximum_size (length encoded))
        (snapshot_error "snapshot exceeds the format size bound")
    reject (not (length digest == 32)) (snapshot_error "manifest snapshot digest is invalid")
    decode_snapshot sha256 encoded database_id digest limits

  -- `Load`; at most one byte more than a snapshot may have is read.
  unfoldable load_snapshot_file :
      Option SnapshotFile
      → (database_id : Bytes) → (digest : Option Bytes) → Limits
      → Result SnapshotState
  unfolding decode_file
  load_snapshot_file none database_id digest limits = err (io_error "snapshot_open" false)
  load_snapshot_file (some file) database_id digest limits =
      if file.fault
      then err (io_error "snapshot_read" false)
      else decode_file (take (suc maximum_size) file.bytes) database_id digest (store_limits limits)
