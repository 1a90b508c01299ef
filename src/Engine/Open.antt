-- ===== src/Engine/Open.antt =====
-- internal/engine/state.go: the construction of the state. The log and the allocator are there (the
-- source refuses nil ones), and the queue of the writer and its timer are not part
-- of the model; the capacity that is asked for is checked.
pub mod Loading
use gapdb.Prelude.{
  ℕ, ◌+◌, ◌==◌, ◌||◌, Bool, true, false, Option, none, some, List, [], ◌∷◌, Bytes, length, ltb,
  if◌then◌else◌,
}
use gapdb.Prelude.Int.{ℤ, pos, ltb_ℤ}
use gapdb.Prelude.Dict.{lookup, insert}
use gapdb.Prelude.Sorted.{sort_strings}
use gapdb.Api.Errors.{
  Error, Lifecycle, ready, Result, ok, err, ◌>>=◌, ◌>>◌, reject, invalid_request, value_too_large,
  batch_too_large,
}
use gapdb.Api.Types.{Instant, Record}
use gapdb.Api.Options.{Limits, default_options, validate_options}
use gapdb.Api.Validate.{validate_key, is_some}
use gapdb.Persist.Frames.{CommitFrame}
use gapdb.Engine.Admission.{frame_maximum}
use gapdb.Engine.Expiry.{ExpiryCandidate, schedule_record_expiry}
use gapdb.Engine.History.{initialize, rebuild}
use gapdb.Engine.State.{Engine}

-- `Config`; `limits` is none where the Go value is zero.
pub record Config (L A : Type 0) : Type 0 where
  pub limits : Option Limits
  pub queue_capacity : ℤ
  pub log : L
  pub allocator : A
  pub records : List Record
  pub current_revision : ℕ
  pub durable_through_revision : ℕ
  pub database_id : Bytes
  pub snapshot_revision : ℕ
  pub recovered_commits : List CommitFrame
  pub reserved_revision_end : ℕ
  pub active_wal_start : ℕ

-- What the loop over the records of `New` fills.
pub record Loaded : Type 0 where
  pub records : List (Bytes × Record)
  pub expiries : List ExpiryCandidate

-- The check that the expiry of a record could be cleaned up.
check_cleanup : Limits → Bytes → Option Instant → Result (Unit {0})
check_cleanup limits key none = ok tt
check_cleanup limits key (some at) =
    reject (ltb (frame_maximum limits) (32 + 20 + length key))
      (batch_too_large (32 + 20 + length key) (frame_maximum limits))

-- The loop over the records of `New`.
unfoldable pub load_records : Limits → ℕ → Loaded → List Record → Result Loaded
unfolding check_cleanup
load_records limits current loaded [] = ok loaded
load_records limits current loaded (r ∷ rest) = do
  validate_key r.key limits
  reject (r.revision == 0 || ltb current r.revision)
      (invalid_request "records.revision" "must be nonzero and not exceed current_revision")
  reject (ltb limits.max_value_bytes (length r.value))
      (value_too_large (length r.value) limits.max_value_bytes)
  check_cleanup limits r.key r.expires_at
  reject (is_some (lookup r.key loaded.records)) (invalid_request "records.key" "must be unique")
  load_records limits current
      (record {
        records = insert r.key r loaded.records;
        expiries = schedule_record_expiry r loaded.expiries;
      })
      rest

abbrev pub map_keys : List (Bytes × Record) → List Bytes
map_keys [] = []
map_keys ((key, r) ∷ rest) = key ∷ map_keys rest

abbrev pub limits_of : Option Limits → Limits
limits_of none = default_options
limits_of (some limits) = limits

-- `New`
unfoldable pub new : {L A : Type 0} → Config L A → Result (Engine L A)
new c = do
  let limits = limits_of c.limits
  validate_options limits
  reject (ltb_ℤ c.queue_capacity (pos 0))
      (invalid_request "queue_capacity" "must be greater than zero")
  reject (ltb c.current_revision c.durable_through_revision)
      (invalid_request "durable_through_revision" "must not exceed current_revision")
  reject (ltb c.current_revision c.snapshot_revision)
      (invalid_request "snapshot_revision" "must not exceed current_revision")
  loaded ← load_records limits c.current_revision (record { records = []; expiries = [] }) c.records
  history ← rebuild (initialize limits c.snapshot_revision) c.recovered_commits c.current_revision
  ok (record {
    store = record {
      records = loaded.records;
      ordered_keys = record {
        keys = sort_strings (map_keys loaded.records);
        capacity = length loaded.records;
      };
      current = c.current_revision;
      history = history;
      expiries = loaded.expiries;
      registry = record { watchers = []; removed = []; active_watches = 0; next_watcher_id = 0 };
    };
    durable_through = c.durable_through_revision;
    lifecycle = ready;
    limits = limits;
    clock = record { latest = none };
    log = c.log;
    allocator = c.allocator;
    database_id = c.database_id;
    snapshot_revision = c.snapshot_revision;
    reserved_revision_end = c.reserved_revision_end;
    active_wal_start = c.active_wal_start;
  })
