-- ===== src/Persist/Recovery.antt =====
-- internal/persist/recovery.go: how a database directory is opened. The owner's lock, the JSON of the
-- manifest, the snapshot loader and the audit are parameters, and so are the calls on the files.
pub mod Recovered
pub mod Opened
use Prim.Native.String.{String}
use gapdb.Prelude.{
  ℕ, suc, ◌+◌, ◌==◌, ◌||◌, ◌&&◌, not, Bool, true, false, Option, none, some, List, [], ◌∷◌, Bytes,
  ltb, length, key_lt, utf8_valid, if◌then◌else◌,
}
use gapdb.Prelude.Sorted.{has}
use gapdb.Api.Errors.{
  Error, Result, ok, err, ◌>>=◌, ◌>>◌, reject, corrupt_wal, corrupt_snapshot, io_error,
  revision_range_exhausted, audit_failed_after_apply, after_apply,
}
use gapdb.Api.Options.{Limits}
use gapdb.Api.Types.{Record}
use gapdb.Api.Validate.{is_some}
use gapdb.Persist.Frames.{CommitFrame, RevisionRange}
use gapdb.Persist.Header.{Identity, decode_identity}
use gapdb.Persist.Reservation.{DirectoryOps, reserve_revisions}
use gapdb.Persist.Scan.{ScanInput, WalReplay, TailTruncation, scan_wal, in_context}

-- The fields of `Manifest` that recovery reads.
pub record Manifest : Type 0 where
  pub generation : ℕ
  pub snapshot_revision : ℕ
  pub wal_start_revision : ℕ

pub record SnapshotState : Type 0 where
  pub revision : ℕ
  pub records : List Record

-- `RecoveryResult`, but the owner's lock and the names of files to clean up.
pub record RecoveryResult : Type 0 where
  pub identity : Identity
  pub manifest : Manifest
  pub snapshot : SnapshotState
  pub commits : List CommitFrame
  pub current_revision : ℕ
  pub durable_through_revision : ℕ
  pub allocation : RevisionRange
  pub tail : Option TailTruncation

-- A log file that was opened: its bytes, whether reading them fails, and its size.
pub record LogFile : Type 0 where
  pub bytes : Bytes
  pub fault : Bool
  pub physical_size : ℕ

-- The calls of `RecoverDatabase` that reach outside this file.
pub record RecoveryOps (D : Type 0) : Type 0 where
  pub directory : DirectoryOps D
  pub acquire_owner : D → D × Result (Unit {0})
  pub read_identity : D → Result Bytes
  pub read_manifest : D → Bytes → Result Manifest
  pub loader : Option (D → Manifest → Result SnapshotState)
  pub open_wal : D → Manifest → Result LogFile
  pub truncate : D → ℕ → D × Bool
  pub sync_wal : D → D × Bool
  pub audit_tail : Option (TailTruncation → Bool)
  pub list_directory : D → Result (Unit {0})

-- Against the record before.
abbrev pub unsorted : List Bytes → Bytes → Bool
unsorted [] key = false
unsorted (previous ∷ _) key = not (key_lt previous key)

-- The loop of `validateSnapshotState`
unfoldable pub check_records : ℕ → (index : ℕ) → List Bytes → List Record → Result (Unit {0})
check_records revision index seen [] = ok tt
check_records revision index seen (r ∷ rest) = do
  reject (length r.key == 0 || not (utf8_valid r.key) || r.revision == 0 || ltb revision r.revision)
      (corrupt_snapshot "snapshot record fields are invalid" index)
  reject (unsorted seen r.key)
      (corrupt_snapshot "snapshot records are not strictly key-sorted" index)
  reject (has r.key seen) (corrupt_snapshot "snapshot contains duplicate keys" index)
  check_records revision (suc index) (r.key ∷ seen) rest

-- `validateSnapshotState`
unfoldable pub validate_snapshot_state : SnapshotState → Manifest → Result (Unit {0})
unfolding check_records
validate_snapshot_state snapshot manifest = do
  reject (not (snapshot.revision == manifest.snapshot_revision))
      (corrupt_snapshot "snapshot revision does not match CURRENT" 0)
  check_records snapshot.revision 0 [] snapshot.records

-- `withRecoveryAppliedState`
abbrev pub with_applied {ℓ} : {A : Type ℓ} → Bool → Result A → Result A
with_applied true (err e) = err (after_apply e)
with_applied _ r = r

-- What has been read when the log may be cut.
pub record Loaded : Type 0 where
  pub identity : Identity
  pub manifest : Manifest
  pub snapshot : SnapshotState
  pub replay : WalReplay

abbrev pub recovery_input : Identity → Manifest → LogFile → Limits → ScanInput
recovery_input identity manifest file limits = record {
  fault = file.fault;
  physical_size = file.physical_size;
  expected_id = identity.database_id;
  after_revision = manifest.snapshot_revision;
  reserved_end = identity.reserved_revision_end;
  limits = limits;
}

-- The comparison of the log with CURRENT.
check_log : Identity → Manifest → SnapshotState → Result WalReplay → Result Loaded
check_log identity manifest snapshot answer = do
  replay ← in_context 0 answer
  reject
      (not (replay.header.generation == manifest.generation)
        || not (replay.header.first_revision == manifest.wal_start_revision))
      (corrupt_wal "WAL generation or start does not match CURRENT" 0)
  ok (record { identity = identity; manifest = manifest; snapshot = snapshot; replay = replay })

abbrev pub recovery_result : Loaded → Identity → RevisionRange → RecoveryResult
recovery_result l identity allocation = record {
  identity = identity;
  manifest = l.manifest;
  snapshot = l.snapshot;
  commits = l.replay.commits;
  current_revision = l.replay.recovered_revision;
  durable_through_revision = l.replay.recovered_revision;
  allocation = allocation;
  tail = l.replay.tail;
}

module _ {D : Type 0} (ops : RecoveryOps D) where
  -- `applyWALTail`
  unfoldable pub apply_wal_tail : D → Option TailTruncation → D × Result (Unit {0})
  apply_wal_tail d none = (d, ok tt)
  apply_wal_tail d (some tail) =
      let (d', uncut) = ops.truncate d tail.new_size in
      let (d'', unsynced) = ops.sync_wal d' in
      if uncut
      then (d', err (io_error "wal_tail_truncate" true))
      else (if unsynced then (d'', err (io_error "wal_tail_sync" true)) else (d'', ok tt))

  -- The audit of a tail that was cut off.
  audit : Option TailTruncation → (current : ℕ) → Result (Unit {0})
  audit none current = ok tt
  audit (some tail) current = elim ops.audit_tail [
    | none ↦
        err (
          audit_failed_after_apply "startup_tail_truncate" "tail audit callback is required"
            current)
    | some callback ↦
        reject (callback tail)
          (audit_failed_after_apply "startup_tail_truncate" "tail audit failed" current)
  ]

  load : D → Manifest → Result SnapshotState
  load d manifest = elim ops.loader [
    | none ↦ err (corrupt_snapshot "no snapshot validator is configured" 0)
    | some loader ↦ loader d manifest
  ]

  read_snapshot : D → Result (Identity × Manifest × SnapshotState)
  unfolding load
  read_snapshot d = do
    encoded ← ops.read_identity d
    identity ← decode_identity encoded
    manifest ← ops.read_manifest d identity.database_id
    snapshot ← load d manifest
    validate_snapshot_state snapshot manifest
    ok (identity, manifest, snapshot)

  -- `RecoverDatabase` up to the cut of the tail; none if the scan does not end.
  unfoldable pub read_database : D → Limits → Option (Result Loaded)
  unfolding read_snapshot check_log
  read_database d limits = elim (read_snapshot d) [
    | err e ↦ some (err e)
    | ok (identity, manifest, snapshot) ↦ elim (ops.open_wal d manifest) [
      | err e ↦ some (err e)
      | ok file ↦ elim (scan_wal (recovery_input identity manifest file limits) file.bytes) [
        | none ↦ none
        | some answer ↦ some (check_log identity manifest snapshot answer)
      ]
    ]
  ]

  -- The checks between the cut and the reservation.
  check_settings : D → Loaded → (reservation_size : ℕ) → Result (Unit {0})
  unfolding audit
  check_settings d l reservation_size = do
    audit l.replay.tail l.replay.recovered_revision
    reject (reservation_size == 0) (revision_range_exhausted l.identity.reserved_revision_end)
    ops.list_directory d

  reserve_next : D → Loaded → (reservation_size : ℕ) → D × Result RecoveryResult
  reserve_next d l reservation_size =
      let (d', reserved) =
        reserve_revisions ops.directory d l.identity l.replay.recovered_revision reservation_size in
      (
        d',
        with_applied (is_some l.replay.tail) reserved >>= λ next.
            ok (recovery_result l next.0 next.1),
      )

  -- `RecoverDatabase` from the cut of the tail on
  unfoldable pub finish_recovery : D → Loaded → (reservation_size : ℕ) → D × Result RecoveryResult
  unfolding check_settings reserve_next
  finish_recovery d l reservation_size =
      let (d', cut) = apply_wal_tail d l.replay.tail in
      elim cut [
        | err e ↦ (d', err e)
        | ok _ ↦
            elim (with_applied (is_some l.replay.tail) (check_settings d' l reservation_size)) [
              | err e ↦ (d', err e)
              | ok _ ↦ reserve_next d' l reservation_size
            ]
      ]

  -- `RecoverDatabase`
  unfoldable pub recover_database :
      D → Limits → (reservation_size : ℕ) → D × Option (Result RecoveryResult)
  recover_database d limits reservation_size =
      let (d', owned) = ops.acquire_owner d in
      elim owned [
        | err e ↦ (d', some (err e))
        | ok _ ↦ elim (read_database d' limits) [
          | none ↦ (d', none)
          | some (err e) ↦ (d', some (err e))
          | some (ok l) ↦
              let (d'', answer) = finish_recovery d' l reservation_size in (d'', some answer)
        ]
      ]
