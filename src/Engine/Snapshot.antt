-- ===== src/Engine/Snapshot.antt =====
-- internal/engine/snapshot.go and admin.go: the commands that the writer runs at a durable cut. The
-- installer of a snapshot and the administrative operation are parameters.
pub mod Cuts
use gapdb.Prelude.{
  ℕ, suc, ◌%◌, ◌^◌, ◌==◌, Bool, true, false, not, Option, none, some, List, [], ◌∷◌, Bytes, length,
  if◌then◌else◌,
}
use gapdb.Api.Errors.{Error, Stage, internal, storage_degraded, operation_applied}
use gapdb.Api.Types.{Instant, Record}
use gapdb.Engine.Clock.{clock_now}
use gapdb.Engine.State.{
  Failure, Attempt, done, fault, panic, Storage, Store, Engine, degraded, persistence_failure,
}

-- `SnapshotCut`
pub record SnapshotCut : Type 0 where
  pub database_id : Bytes
  pub revision : ℕ
  pub as_of : Instant
  pub records : List Record

-- What `Install` does: it returns a log, or nil, or an error, or it panics.
pub data Installation (L : Type 0) : Type 0 where
  installed : Option L → Installation L
  refused : Failure → Installation L
  broken : Installation L

-- `SnapshotResult` without its duration, and the error beside it
pub record SnapshotAnswer : Type 0 where
  pub revision : ℕ
  pub record_count : ℕ
  pub error : Option Failure

abbrev because : Error → Option Failure
because error = some (record { api = some error; hook = none })

abbrev failed_with : Error → SnapshotAnswer
failed_with error = record { revision = 0; record_count = 0; error = because error }

abbrev values : List (Bytes × Record) → List Record
values [] = []
values ((key, r) ∷ rest) = r ∷ values rest

-- `apiErr != nil && apiErr.OperationApplied`
abbrev pub has_applied : Option Error → Bool
has_applied none = false
has_applied (some error) = operation_applied error

-- What the operation does: it returns nil, returns an error, or panics.
pub data AdminRun : Type 0 where
  finishes breaks : AdminRun
  fails : Failure → AdminRun

module _ {L A : Type 0} (s : Storage L A) where
  -- After `Install` has returned a log.
  unfoldable pub switch_log : Engine L A → SnapshotCut → L → Engine L A × SnapshotAnswer
  switch_log e cut next =
      if s.durable_of next == cut.revision
      then (
        record e {
          log = next;
          snapshot_revision = cut.revision;
          active_wal_start = suc cut.revision % 2 ^ 64;
        },
        record { revision = cut.revision; record_count = length cut.records; error = none },
      )
      else (
        degraded e,
        failed_with
            (storage_degraded Stage.snapshot_new_wal_evidence cut.revision cut.revision true),
      )

  unfoldable pub install_snapshot :
      (SnapshotCut → Installation L) → SnapshotCut → Engine L A → Engine L A × SnapshotAnswer
  unfolding switch_log
  install_snapshot install cut e = elim (install cut) [
    | installed none ↦ (degraded e, failed_with (internal "engine-snapshot-nil-log" true))
    | installed (some next) ↦ switch_log e cut next
    | refused f ↦
        if has_applied f.api
        then (
          degraded e,
          record { revision = cut.revision; record_count = length cut.records; error = some f },
        )
        else (e, record { revision = 0; record_count = 0; error = some f })
    | broken ↦ (
      degraded e,
      record {
        revision = e.store.current;
        record_count = 0;
        error = because (internal "engine-snapshot-panic" true);
      },
    )
  ]

  -- The records at the current revision.
  abbrev pub cut_of : Instant → Engine L A → SnapshotCut
  cut_of source e = record {
    database_id = e.database_id;
    revision = e.store.current;
    as_of = (clock_now e.clock source).0;
    records = values e.store.records;
  }

  -- `executeSnapshot`, with a reading of the source clock
  unfoldable pub execute_snapshot :
      (SnapshotCut → Installation L) → Instant → Engine L A → Engine L A × SnapshotAnswer
  execute_snapshot install source e = elim (s.barrier e.log) [
    | panic l ↦
        (degraded (record e { log = l }), failed_with (internal "engine-snapshot-panic" false))
    | fault l f ↦ (
      degraded (record e { log = l }),
      failed_with (
          persistence_failure Stage.snapshot_wal_barrier e.store.current e.durable_through false f),
    )
    | done l ↦
        let e' = record e { log = l; durable_through = s.durable_of l } in
        if s.durable_of l == e.store.current
        then install_snapshot install (cut_of source e)
            (record e' { clock = (clock_now e.clock source).1 })
        else (
          degraded e',
          failed_with (
              storage_degraded Stage.snapshot_wal_barrier_evidence e.store.current (s.durable_of l)
                false),
        )
  ]

  abbrev pub operated : Engine L A → AdminRun → Engine L A × Option Failure
  operated e finishes = (e, none)
  operated e (fails f) = (e, some f)
  operated e breaks = (degraded e, because (internal "engine-durable-admin-panic" true))

  -- `executeDurableAdmin`; the operation gets the identifier and the revision of the cut.
  unfoldable pub execute_durable_admin :
      (Bytes → ℕ → AdminRun) → Engine L A → Engine L A × Option Failure
  execute_durable_admin operation e = elim (s.barrier e.log) [
    | panic l ↦
        (degraded (record e { log = l }), because (internal "engine-durable-admin-panic" false))
    | fault l f ↦ (
      degraded (record e { log = l }),
      because
          (persistence_failure Stage.admin_wal_barrier e.store.current e.durable_through false f),
    )
    | done l ↦
        let e' = record e { log = l; durable_through = s.durable_of l } in
        if s.durable_of l == e.store.current
        then operated e' (operation e.database_id e.store.current)
        else (
          degraded e',
          because (
              storage_degraded Stage.admin_wal_barrier_evidence e.store.current (s.durable_of l)
                false),
        )
  ]
