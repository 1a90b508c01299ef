-- ===== src/Engine/State.antt =====
-- internal/engine/state.go and the interfaces of the engine: the state of the database, the log
-- and the allocator that the writer calls, and the outcome of a step of the writer.
use gapdb.Prelude.{ℕ, Bool, false, Option, some, List, Bytes, ◌||◌}
use gapdb.Api.Errors.{
  Error, Lifecycle, degraded_read_only, Stage, Result, ok, err, storage_degraded,
  server_shutting_down,
}
use gapdb.Api.Types.{Record, MutationResult, ChangeEvent}
use gapdb.Api.Options.{Limits}
use gapdb.Persist.Frames.{CommitFrame}
use gapdb.Engine.Clock.{Nondecreasing}
use gapdb.Engine.History.{HistoryLog}
use gapdb.Engine.OrderedKeys.{KeyIndex}
use gapdb.Engine.Expiry.{ExpiryCandidate}
use gapdb.Engine.Watch.{Registry}

-- The points of faultfs that the engine and the log name.
pub data Point : Type 0 where
  assertion_evaluation mutation_condition_evaluation map_apply_point wal_frame_write_point : Point
  other_point : Point

pub data Phase : Type 0 where
  before after : Phase

-- What `errors.As` finds in the chain of a Go error: a structured error, and a fault of a hook.
pub record Failure : Type 0 where
  pub api : Option Error
  pub hook : Option (Point × Phase)

-- What a call of an interface does: it returns a new state, returns an error, or panics.
pub data Attempt (L : Type 0) : Type 0 where
  done : L → Attempt L
  fault : L → Failure → Attempt L
  panic : L → Attempt L

-- The interfaces `CommitLog` and `RevisionAllocator`, over their states, and the fault hook of
-- the file system.
pub record Storage (L A : Type 0) : Type 0 where
  pub append_frame : L → CommitFrame → Attempt L
  pub barrier : L → Attempt L
  pub durable_of : L → ℕ
  pub allocate_next : A → A × Result ℕ
  pub checkpoint : Point → Phase → Option Failure

-- The part of `DatabaseState` that readers see and that a commit replaces under the lock.
pub record Store : Type 0 where
  pub records : List (Bytes × Record)
  pub ordered_keys : KeyIndex
  pub current : ℕ
  pub history : HistoryLog
  pub expiries : List ExpiryCandidate
  pub registry : Registry

pub record Engine (L A : Type 0) : Type 0 where
  pub store : Store
  pub durable_through : ℕ
  pub lifecycle : Lifecycle
  pub limits : Limits
  pub clock : Nondecreasing
  pub log : L
  pub allocator : A
  pub database_id : Bytes
  pub snapshot_revision : ℕ
  pub reserved_revision_end : ℕ
  pub active_wal_start : ℕ

-- `singleOperation`
pub data SingleOperation : Type 0 where
  batch put put_if_absent compare_and_swap delete_if_revision expiry : SingleOperation

-- `CommitResult`
pub record CommitResult : Type 0 where
  pub result : MutationResult
  pub events : List ChangeEvent

-- The engine with the `commitProgress` of the command at hand.
pub record Writer (L A : Type 0) : Type 0 where
  pub engine : Engine L A
  pub applied_possible : Bool

pub data Run (L A X : Type 0) : Type 0 where
  returned : X → Writer L A → Run L A X
  failed : Error → Writer L A → Run L A X
  panicked : Writer L A → Run L A X

-- The steps of the writer goroutine.
abbrev pub Step : Type 0 → Type 0 → Type 0 → Type 0
Step L A X = Writer L A → Run L A X

infixl 5 ◌>>=◌ ◌>>◌
abbrev pub ◌>>=◌ : {L A X Y : Type 0} → Step L A X → (X → Step L A Y) → Step L A Y
◌>>=◌ m f w = elim (m w) [
  | returned x w' ↦ f x w'
  | failed e w' ↦ failed e w'
  | panicked w' ↦ panicked w'
]

abbrev pub ◌>>◌ : {L A Y : Type 0} → Step L A (Unit {0}) → Step L A Y → Step L A Y
◌>>◌ m k = m >>= λ _. k

module _ {L A : Type 0} where
  abbrev pub pure : {X : Type 0} → X → Step L A X
  pure x w = returned x w

  abbrev pub fail : {X : Type 0} → Error → Step L A X
  fail e w = failed e w

  abbrev pub lift : {X : Type 0} → Result X → Step L A X
  lift (ok x) w = returned x w
  lift (err e) w = failed e w

  -- `degrade`
  abbrev pub degraded : Engine L A → Engine L A
  degraded e = record e { lifecycle = degraded_read_only }

  abbrev pub with_engine : Writer L A → Engine L A → Writer L A
  with_engine w e = record w { engine = e }

  -- `state.degrade()` and the return of an error
  abbrev pub fail_degraded : {X : Type 0} → Error → Step L A X
  fail_degraded error w = failed error (with_engine w (degraded w.engine))

-- `mutationUnavailable`
unfoldable pub mutation_unavailable : Lifecycle → ℕ → ℕ → Error
mutation_unavailable degraded_read_only current durable =
    storage_degraded Stage.writer_disabled current durable false
mutation_unavailable lifecycle current durable = server_shutting_down lifecycle

-- The end of `persistenceFailure`, where the cause is a degraded storage.
refine_stage : Stage → Stage → Stage
refine_stage Stage.no_stage stage = stage
refine_stage found stage = found

failure_of : Stage → ℕ → ℕ → Bool → Option Error → Error
unfolding refine_stage
failure_of stage current durable applied (some (storage_degraded found c d already)) =
    storage_degraded (refine_stage found stage) current durable (already || applied)
failure_of stage current durable applied _ = storage_degraded stage current durable applied

-- `persistenceFailure`
unfoldable pub persistence_failure : Stage → ℕ → ℕ → Bool → Failure → Error
unfolding failure_of
persistence_failure stage current durable applied cause =
    failure_of stage current durable applied cause.api
