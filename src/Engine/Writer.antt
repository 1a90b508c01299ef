-- ===== src/Engine/Writer.antt =====
-- internal/engine/writer.go: the execution of a batch by the writer goroutine. A reading of the
-- source clock is an argument. A panic of the log leaves by `panicked`, and `execute_safely`
-- recovers it.
pub mod Stages
pub mod Outcome
pub mod Atomicity
pub mod Success
pub mod Invariant
pub mod Exclusive
use gapdb.Prelude.{
  ℕ, ◌==◌, ◌||◌, Bool, true, false, Option, none, some, List, [], ◌∷◌, length, ltb, leb,
  if◌then◌else◌,
}
use gapdb.Api.Errors.{
  Error, Stage, Lifecycle, ready, degraded_read_only, draining, inspection_only, Result, ok, err,
  internal, storage_degraded, operation_applied,
}
use gapdb.Api.Types.{Instant, AckMode, Batch, ChangeEvent}
use gapdb.Persist.Frames.{CommitFrame}
use gapdb.Engine.Clock.{clock_now}
use gapdb.Engine.History
use gapdb.Engine.OrderedKeys.{OrderedKeyPlan, plan_ordered_keys, install_plan}
use gapdb.Engine.Expiry.{reschedule}
use gapdb.Engine.Watch.{publish_watchers}
use gapdb.Engine.Admission.{admit_batch_at}
use gapdb.Engine.Conditions.{check_assertions, check_mutations}
use gapdb.Engine.Apply.{effects_for, apply_all}
use gapdb.Engine.State.{
  Point, assertion_evaluation, mutation_condition_evaluation, map_apply_point,
  wal_frame_write_point, Phase, before, after, Failure, Attempt, done, fault, panic, Storage, Store,
  Engine, SingleOperation, CommitResult, Writer, Run, returned, failed, panicked, Step, ◌>>=◌, ◌>>◌,
  pure, lift, degraded, with_engine, fail_degraded, mutation_unavailable, persistence_failure,
}

is_wal_unavailable : Error → Bool
is_wal_unavailable (storage_degraded Stage.wal_unavailable current durable applied) = true
is_wal_unavailable _ = false

unless_before_write : Option (Point × Phase) → Bool
unless_before_write (some (wal_frame_write_point, before)) = false
unless_before_write _ = true

may_have_applied : Option Error → Option (Point × Phase) → Bool
unfolding is_wal_unavailable unless_before_write
may_have_applied none hook = unless_before_write hook
may_have_applied (some e) hook =
    if operation_applied e
    then true
    else if is_wal_unavailable e
    then false
    else unless_before_write hook

-- `appendErrorMayHaveApplied`
unfoldable pub append_error_may_have_applied : Failure → Bool
unfolding may_have_applied operation_applied
append_error_may_have_applied f = may_have_applied f.api f.hook

unfoldable pub accepts_batches : Lifecycle → Bool
accepts_batches ready = true
accepts_batches draining = true
accepts_batches _ = false

unfoldable pub is_durable : AckMode → Bool
is_durable AckMode.durable = true
is_durable _ = false

module _ {L A : Type 0} (s : Storage L A) where
  unfoldable pub read_engine : Step L A (Engine L A)
  read_engine w = returned w.engine w

  -- The first test of `execute`.
  unfoldable pub check_lifecycle : Step L A (Unit {0})
  check_lifecycle w =
      let e = w.engine in
      if accepts_batches e.lifecycle
      then returned tt w
      else failed (mutation_unavailable e.lifecycle e.store.current e.durable_through) w

  unfoldable pub read_clock : Instant → Step L A Instant
  read_clock source w =
      let (now, clock) = clock_now w.engine.clock source in
      returned now (with_engine w (record (w.engine) { clock = clock }))

  -- A fault point of the predicate phase.
  unfoldable pub visit : Point → Phase → Error → Step L A (Unit {0})
  visit point phase error w = elim (s.checkpoint point phase) [
    | none ↦ returned tt w
    | some _ ↦ failed error w
  ]

  abbrev condition_fault : Error
  condition_fault = internal "engine-mutation-condition-evaluation" false

  unfoldable pub visit_assertions : Batch → Phase → Step L A (Unit {0})
  unfolding visit
  visit_assertions b phase w =
      if length b.assertions == 0
      then returned tt w
      else visit assertion_evaluation phase (internal "engine-assertion-evaluation" false) w

  -- The predicate phase.
  unfoldable pub evaluate_predicates : Batch → SingleOperation → Instant → Step L A (Unit {0})
  unfolding read_engine
  evaluate_predicates b single now = do
    e ← read_engine
    visit_assertions b before
    lift (check_assertions e.store.records now 0 b.assertions)
    visit_assertions b after
    visit mutation_condition_evaluation before condition_fault
    lift (check_mutations e.store.records now e.store.current single 0 b.mutations)
    visit mutation_condition_evaluation after condition_fault

  -- The only allocation of a revision.
  unfoldable pub allocate_revision : Step L A ℕ
  allocate_revision w =
      let (a, answer) = s.allocate_next w.engine.allocator in
      let e = record (w.engine) { allocator = a } in
      elim answer [
        | err error ↦ failed error (with_engine w (degraded e))
        | ok revision ↦
            if (revision == 0) || leb revision e.store.current
            then failed (internal "engine-invalid-allocator-revision" false)
                (with_engine w (degraded e))
            else returned revision (with_engine w e)
      ]

  -- `appendWithProgress`, and the handling of its error
  unfoldable pub append_with_progress : CommitFrame → Step L A (Unit {0})
  append_with_progress frame w =
      let e = w.engine in
      elim (s.append_frame e.log frame) [
        | done l ↦ returned tt (record { engine = record e { log = l }; applied_possible = true })
        | fault l f ↦
            let applied = w.applied_possible || append_error_may_have_applied f in
            failed
              (persistence_failure Stage.wal_append e.store.current e.durable_through applied f)
              (record { engine = degraded (record e { log = l }); applied_possible = applied })
        | panic l ↦ panicked (record { engine = record e { log = l }; applied_possible = true })
      ]

  -- The check of `DurableThrough` after an append.
  unfoldable pub check_evidence : ℕ → Step L A ℕ
  check_evidence revision w =
      let e = w.engine in
      let durable = s.durable_of e.log in
      if ltb durable e.durable_through || ltb revision durable
      then fail_degraded
          (storage_degraded Stage.wal_durability_evidence e.store.current e.durable_through true) w
      else returned durable w

  unfoldable pub run_barrier : ℕ → Step L A ℕ
  run_barrier revision w =
      let e = w.engine in
      elim (s.barrier e.log) [
        | done l ↦
            let w' = with_engine w (record e { log = l }) in
            if s.durable_of l == revision
            then returned (s.durable_of l) w'
            else fail_degraded
                (storage_degraded Stage.wal_barrier_evidence e.store.current e.durable_through true)
                w'
        | fault l f ↦
            fail_degraded
              (persistence_failure Stage.wal_barrier e.store.current e.durable_through true f)
              (with_engine w (record e { log = l }))
        | panic l ↦ panicked (with_engine w (record e { log = l }))
      ]

  -- The barrier of a durable acknowledgement.
  unfoldable pub make_durable : AckMode → ℕ → ℕ → Step L A ℕ
  unfolding run_barrier
  make_durable ack revision durable w =
      if is_durable ack then run_barrier revision w else returned durable w

  -- A fault point of the publication.
  unfoldable pub visit_apply : Phase → Step L A (Unit {0})
  visit_apply phase w =
      let e = w.engine in
      elim (s.checkpoint map_apply_point phase) [
        | none ↦ returned tt w
        | some f ↦
            fail_degraded
              (persistence_failure Stage.map_apply e.store.current e.durable_through true f) w
      ]

  -- The publication under the lock.
  unfoldable pub publish :
      Batch → SingleOperation → OrderedKeyPlan → ℕ → ℕ → Step L A (List ChangeEvent)
  publish b single plan revision durable w =
      let e = w.engine in
      let store = e.store in
      let (records, events) = apply_all revision 0 b.mutations single store.records in
      returned events (
        with_engine w (record e {
          store = record store {
            records = records;
            ordered_keys = install_plan store.ordered_keys plan;
            current = revision;
            history = History.append store.history events;
          };
          durable_through = if ltb e.durable_through durable then durable else e.durable_through;
        }))

  -- `afterCommit`
  unfoldable pub after_commit : List ChangeEvent → Step L A (Unit {0})
  after_commit events w =
      let e = w.engine in
      let store = e.store in
      returned tt (
        with_engine w (record e {
          store = record store {
            expiries = reschedule events store.expiries;
            registry = publish_watchers store.registry events;
          };
        }))

  abbrev pub commit_frame : Batch → SingleOperation → ℕ → CommitFrame
  commit_frame b single revision = record {
    revision = revision;
    effects = effects_for b.mutations single;
  }

  abbrev pub commit_result : Batch → ℕ → ℕ → List ChangeEvent → CommitResult
  commit_result b revision durable events = record {
    result = record {
      revision = revision;
      ack = b.ack;
      durable_through_revision = durable;
      mutation_count = length b.mutations;
      assertion_count = length b.assertions;
    };
    events = events;
  }

  -- What comes before a revision is allocated.
  unfoldable pub admit : Batch → SingleOperation → Instant → Step L A (Unit {0})
  unfolding read_engine read_clock
  admit b single source = do
    check_lifecycle
    now ← read_clock source
    e ← read_engine
    lift (admit_batch_at b e.limits now)
    evaluate_predicates b single now

  -- From the publication on.
  unfoldable pub publish_all :
      Batch → SingleOperation → OrderedKeyPlan → ℕ → ℕ → Step L A CommitResult
  publish_all b single plan revision durable = do
    events ← publish b single plan revision durable
    visit_apply after
    after_commit events
    pure (commit_result b revision durable events)

  -- What comes after it.
  unfoldable pub commit : Batch → SingleOperation → OrderedKeyPlan → ℕ → Step L A CommitResult
  commit b single plan revision = do
    append_with_progress (commit_frame b single revision)
    known ← check_evidence revision
    durable ← make_durable b.ack revision known
    visit_apply before
    publish_all b single plan revision durable

  -- `execute`
  unfoldable pub execute : Batch → SingleOperation → Instant → Step L A CommitResult
  unfolding read_engine
  execute b single source = do
    admit b single source
    e ← read_engine
    let plan = plan_ordered_keys e.store.ordered_keys b.mutations
    revision ← allocate_revision
    commit b single plan revision

  -- `executeSafely`: the engine afterwards, and the result.
  unfoldable pub execute_safely :
      Batch → SingleOperation → Instant → Engine L A → Engine L A × Result CommitResult
  execute_safely b single source e =
      elim (execute b single source (record { engine = e; applied_possible = false })) [
        | returned r w ↦ (w.engine, ok r)
        | failed error w ↦ (w.engine, err error)
        | panicked w ↦ (degraded w.engine, err (internal "engine-writer-panic" w.applied_possible))
      ]
