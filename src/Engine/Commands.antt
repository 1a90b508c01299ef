-- ===== src/Engine/Commands.antt =====
-- internal/engine/writer.go and expiry.go: the commands that the writer goroutine takes from its
-- queue, one after the other, and the expiries that its timer starts.
pub mod Consistency
use gapdb.Prelude.{
  ℕ, Bool, true, false, Option, none, some, List, [], ◌∷◌, Bytes, ltb, if◌then◌else◌,
}
use gapdb.Api.Errors.{Error, Result, ok, err, internal}
use gapdb.Api.Types.{Instant, Batch}
use gapdb.Engine.Admission.{frame_maximum}
use gapdb.Engine.Clock.{clock_now}
use gapdb.Engine.Expiry.{ExpiryCandidate, Collected, collect, expiry_batch}
use gapdb.Engine.Snapshot.{
  SnapshotCut, Installation, AdminRun, execute_snapshot, execute_durable_admin,
}
use gapdb.Engine.State.{Storage, Store, Engine, SingleOperation, CommitResult, degraded}
use gapdb.Engine.Watch.{WatchEndReason, Registry}
use gapdb.Engine.Watch.Register.{register_watch, unregister_watch, shutdown_watchers}
use gapdb.Engine.Writer.{execute, execute_safely}
use gapdb.Engine.State.{Attempt, done, fault, panic, Run, returned, failed, panicked}

-- A command, with what the writer's calls answer it: the readings of the clock, the depth of the
-- queue, the installer and the operation.
pub data Command (L : Type 0) : Type 0 where
  mutate : Batch → SingleOperation → Instant → Command L
  expire : (first second : Instant) → Command L
  register : Bytes → (from depth : ℕ) → Command L
  unregister : (id : ℕ) → Command L
  snapshot : (SnapshotCut → Installation L) → Instant → Command L
  durable_admin : (Bytes → ℕ → AdminRun) → Command L

module _ {L A : Type 0} (s : Storage L A) where
  -- The engine after the loop of `executeDueExpiries`, and the candidates it collected.
  unfoldable pub collect_due : Instant → Engine L A → Engine L A × List ExpiryCandidate
  collect_due source e =
      let (now, clock) = clock_now e.clock source in
      let c =
        collect e.limits (frame_maximum e.limits) e.store.records now [] 32 e.store.expiries in
      (record e { store = record (e.store) { expiries = c.queue }; clock = clock }, c.due)

  -- What `executeDueExpiriesSafely` makes of the end of the batch; a panic has its own operation.
  answer_expiry : Run L A CommitResult → Engine L A × Result (Option CommitResult)
  answer_expiry (returned r w) = (w.engine, ok (some r))
  answer_expiry (failed error w) = (w.engine, err error)
  answer_expiry (panicked w) =
      (degraded w.engine, err (internal "engine-expiry-panic" w.applied_possible))

  expire_collected :
      Instant → Engine L A → List ExpiryCandidate → Engine L A × Result (Option CommitResult)
  unfolding answer_expiry
  expire_collected source e [] = (e, ok none)
  expire_collected source e (c ∷ rest) = answer_expiry (
      execute s (expiry_batch (c ∷ rest)) SingleOperation.expiry source
        (record { engine = e; applied_possible = false }))

  -- `executeDueExpiries` within `executeDueExpiriesSafely`; the result is none where nothing was due.
  unfoldable pub execute_due_expiries :
      Instant → Instant → Engine L A → Engine L A × Result (Option CommitResult)
  unfolding collect_due expire_collected
  execute_due_expiries first second e =
      let (e', due) = collect_due first e in expire_collected second e' due

  with_registry : Engine L A → Result (Registry × ℕ) → Engine L A
  with_registry e (ok (r, id)) = record e { store = record (e.store) { registry = r } }
  with_registry e (err error) = e

  -- `handleCommand`: the engine that it leaves.
  unfoldable pub handle_command : Command L → Engine L A → Engine L A
  unfolding with_registry
  handle_command (mutate b single source) e = (execute_safely s b single source e).0
  handle_command (expire first second) e = (execute_due_expiries first second e).0
  handle_command (register prefix from depth) e =
      with_registry e
        (register_watch e.limits e.store.history e.store.current depth e.store.registry prefix from)
  handle_command (unregister id) e = record e {
    store = record (e.store) {
      registry = unregister_watch id WatchEndReason.client_closed e.store.current e.store.registry;
    };
  }
  handle_command (snapshot install source) e = (execute_snapshot s install source e).0
  handle_command (durable_admin operation) e = (execute_durable_admin s operation e).0

  -- `runWriter` on the commands that it receives before the queue is closed.
  unfoldable pub handle_commands : List (Command L) → Engine L A → Engine L A
  handle_commands [] e = e
  handle_commands (c ∷ rest) e = handle_commands rest (handle_command c e)

  -- The end of `runWriter`. The error of the barrier is kept for `Close`, which is not modelled; a
  -- panic there ends the process.
  unfoldable close_writer : Engine L A → Engine L A
  close_writer e =
      let e' = record e {
        store = record (e.store) { registry = shutdown_watchers e.store.current e.store.registry };
      } in
      elim (s.barrier e.log) [
        | done l ↦ record e' { log = l }
        | fault l f ↦ degraded (record e' { log = l })
        | panic l ↦ record e' { log = l }
      ]
