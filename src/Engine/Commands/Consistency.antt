-- ===== src/Engine/Commands/Consistency.antt =====
-- The store is consistent whatever commands the writer has handled.
use gapdb.Prelude.{ℕ, none, List, [], ◌∷◌, false, ◌≡◌, refl}
use gapdb.Api.Errors.{Result, ok, err}
use gapdb.Engine.Expiry.{ExpiryCandidate, expiry_batch}
use gapdb.Engine.Snapshot.Cuts.{execute_snapshot-IsCut, execute_durable_admin-IsCut}
use gapdb.Engine.State.{
  Storage, Engine, CommitResult, Run, returned, failed, panicked, SingleOperation, map_apply_point,
  after,
}
use gapdb.Engine.Watch.{Registry}
use gapdb.Api.Types.{Instant}
use gapdb.Engine.Writer.Invariant.{IsConsistent, execute_safely-IsConsistent}
use gapdb.Engine.Writer.{execute, execute_safely}
use gapdb.Engine.Commands.{
  Command, mutate, expire, register, unregister, snapshot, durable_admin, collect_due,
  expire_collected, answer_expiry, execute_due_expiries, with_registry, handle_command,
  handle_commands,
}

module _ {L A : Type 0} (s : Storage L A)
    (none_struck : s.checkpoint map_apply_point after ≡ none) where
  -- The engine is the one that `executeSafely` would leave.
  answered :
      (source : Instant) (e : Engine L A) (c : ExpiryCandidate) (rest : List ExpiryCandidate)
      (run : Run L A CommitResult)
      → execute s
          (expiry_batch (c ∷ rest))
          SingleOperation.expiry
          source
          (record { engine = e; applied_possible = false })
        ≡ run
      → (execute_safely s (expiry_batch (c ∷ rest)) SingleOperation.expiry source e).0
        ≡ (expire_collected s source e (c ∷ rest)).0
  unfolding execute_safely expire_collected answer_expiry
  answered source e c rest (returned r w) q = rw (execute_safely, q) refl
  answered source e c rest (failed error w) q = rw (execute_safely, q) refl
  answered source e c rest (panicked w) q = rw (execute_safely, q) refl

  expire_collected-IsConsistent :
      (source : Instant) (e : Engine L A) (due : List ExpiryCandidate)
      → IsConsistent e.store
      → IsConsistent (expire_collected s source e due).0.store
  unfolding expire_collected
  expire_collected-IsConsistent source e [] c = c
  expire_collected-IsConsistent source e (d ∷ rest) c = rw (← answered source e d rest _ refl) (
      execute_safely-IsConsistent s (expiry_batch (d ∷ rest)) SingleOperation.expiry source e c
        none_struck)

  with_registry-IsConsistent :
      (e : Engine L A) (r : Result (Registry × ℕ))
      → IsConsistent e.store
      → IsConsistent (with_registry s e r).store
  unfolding with_registry
  with_registry-IsConsistent e (err error) c = c
  with_registry-IsConsistent e (ok (r, id)) c = record {
    ordered = c.ordered;
    indexed = c.indexed;
    revisions = c.revisions;
    bounded = c.bounded;
  }

  handle_command-IsConsistent :
      (c : Command L) (e : Engine L A)
      → IsConsistent e.store
      → IsConsistent (handle_command s c e).store
  unfolding handle_command execute_due_expiries collect_due
  handle_command-IsConsistent (mutate b single source) e i =
      execute_safely-IsConsistent s b single source e i none_struck
  handle_command-IsConsistent (expire first second) e i =
      expire_collected-IsConsistent second (collect_due s first e).0 (collect_due s first e).1
        (record {
          ordered = i.ordered;
          indexed = i.indexed;
          revisions = i.revisions;
          bounded = i.bounded;
        })
  handle_command-IsConsistent (register prefix from depth) e i = with_registry-IsConsistent e _ i
  handle_command-IsConsistent (unregister id) e i = record {
    ordered = i.ordered;
    indexed = i.indexed;
    revisions = i.revisions;
    bounded = i.bounded;
  }
  handle_command-IsConsistent (snapshot install source) e i =
      rw ((execute_snapshot-IsCut s e install source).0.same_store) i
  handle_command-IsConsistent (durable_admin operation) e i =
      rw ((execute_durable_admin-IsCut s e operation).same_store) i

  -- If the fault hook never strikes after a publication, then whatever commands the writer
  -- handles in whatever order (batches, expiries, registrations, snapshots, administrative
  -- operations), a consistent store stays consistent: the index is strictly ordered and holds
  -- exactly the keys of the map, no record is newer than the current revision, and the history
  -- keeps its bounds.
  pub handle_commands-IsConsistent :
      (cs : List (Command L)) (e : Engine L A)
      → IsConsistent e.store
      → IsConsistent (handle_commands s cs e).store
  unfolding handle_commands
  handle_commands-IsConsistent [] e i = i
  handle_commands-IsConsistent (c ∷ rest) e i =
      handle_commands-IsConsistent rest (handle_command s c e) (handle_command-IsConsistent c e i)
