-- ===== src/Tests/Commits.antt =====
-- The theorems about batches at concrete inputs.
use gapdb.Prelude.{
  ℕ, Bool, true, false, Option, none, some, List, [], ◌∷◌, Bytes, ◌≡◌, ◌≢◌, refl, arith,
}
use gapdb.Prelude.Int.{pos}
use gapdb.Prelude.Dict.{lookup}
use gapdb.Prelude.Sorted.{has}
use gapdb.Prelude.Keys.{key_eq}
use gapdb.Api.Errors.{Result, ok, err, storage_degraded, Stage}
use gapdb.Api.Types.{Batch, AckMode, ChangeKind, new_record}
use gapdb.Engine.Admission.{request_batch}
use gapdb.Engine.State.{Storage, Engine, SingleOperation, CommitResult}
use gapdb.Engine.Commands.{Command, mutate, expire, register, unregister, handle_commands}
use gapdb.Engine.Commands.Consistency.{handle_commands-IsConsistent}
use gapdb.Engine.Writer.{
  execute_safely, execute, admit, check_lifecycle, read_clock, read_engine, accepts_batches,
  evaluate_predicates, visit, visit_assertions, allocate_revision, append_with_progress,
  check_evidence, make_durable, run_barrier, visit_apply, publish, publish_all, after_commit,
  commit, is_durable,
}
use gapdb.Engine.Writer.Atomicity.{Failed, execute_safely-Failed}
use gapdb.Engine.Writer.Exclusive.{compare_and_swap_once}
use gapdb.Engine.Writer.Invariant.{IsConsistent}
use gapdb.Engine.Writer.Success.{Succeeded, execute_safely-Succeeded}
use gapdb.Tests.Fixtures.{
  FrameLog, frame_storage, broken_storage, small_engine, swap_a, key_a, one_record,
}

abbrev swap : Batch
swap = (request_batch swap_a).0

abbrev swapped : Engine FrameLog ℕ × Result CommitResult
swapped = execute_safely frame_storage swap SingleOperation.compare_and_swap (pos 10) small_engine

abbrev swap_result : CommitResult
swap_result = record {
  result = record {
    revision = 4;
    ack = AckMode.durable;
    durable_through_revision = 4;
    mutation_count = 1;
    assertion_count = 0;
  };
  events =
      record {
        revision = 4;
        order = 0;
        kind = ChangeKind.put;
        key = key_a;
        record_after = some (new_record key_a (some (2 ∷ [])) 4 none);
      }
      ∷ [];
}

swapped-ok : swapped ≡ (swapped.0, ok swap_result)
unfolding execute_safely execute request_batch admit check_lifecycle read_clock read_engine
    accepts_batches evaluate_predicates visit visit_assertions allocate_revision
    append_with_progress check_evidence make_durable run_barrier visit_apply publish publish_all
    after_commit commit is_durable gapdb.Engine.Admission.admit_batch_at
    gapdb.Api.Validate.validate_batch_at gapdb.Api.Validate.validate_batch gapdb.Prelude.Dict.lookup
    gapdb.Api.Validate.validate_mutation gapdb.Api.Validate.validate_key gapdb.Prelude.utf8_valid
    gapdb.Api.Validate.validate_condition gapdb.Api.Validate.validate_mutation_at
    gapdb.Engine.Conditions.check_assertions gapdb.Engine.Conditions.check_mutations
    gapdb.Engine.Conditions.condition_error gapdb.Engine.Conditions.is_live gapdb.Prelude.key_eq
    gapdb.Engine.Expiry.record_expired gapdb.Engine.Apply.apply_all gapdb.Engine.Apply.apply
swapped-ok = refl

abbrev refused : Engine FrameLog ℕ × Result CommitResult
refused = execute_safely broken_storage swap SingleOperation.compare_and_swap (pos 10) small_engine

refused-err : refused ≡ (refused.0, err (storage_degraded Stage.wal_append 3 3 true))
unfolding execute_safely execute request_batch admit check_lifecycle read_clock read_engine
    accepts_batches evaluate_predicates visit visit_assertions allocate_revision
    append_with_progress check_evidence make_durable run_barrier visit_apply publish publish_all
    after_commit commit is_durable gapdb.Engine.Admission.admit_batch_at
    gapdb.Api.Validate.validate_batch_at gapdb.Api.Validate.validate_batch gapdb.Prelude.Dict.lookup
    gapdb.Api.Validate.validate_mutation gapdb.Api.Validate.validate_key gapdb.Prelude.utf8_valid
    gapdb.Api.Validate.validate_condition gapdb.Api.Validate.validate_mutation_at
    gapdb.Engine.Conditions.check_assertions gapdb.Engine.Conditions.check_mutations
    gapdb.Engine.Conditions.condition_error gapdb.Engine.Conditions.is_live gapdb.Prelude.key_eq
    gapdb.Engine.Expiry.record_expired gapdb.Engine.Writer.append_error_may_have_applied
    gapdb.Engine.State.persistence_failure
refused-err = refl

one_record-IsConsistent : IsConsistent one_record
unfolding has lookup key_eq
one_record-IsConsistent = record {
  ordered = (tt, tt);
  indexed = λ k. ground arith;
  revisions = λ k r q. ground arith;
  bounded = record {
    events_counted = refl;
    bytes_counted = refl;
    events_within = omega arith;
    bytes_within = omega arith;
  };
}

execute_safely-Failed_example :
    Failed broken_storage swap SingleOperation.compare_and_swap
      (pos 10)
      small_engine
      refused.0
      (storage_degraded Stage.wal_append 3 3 true)
execute_safely-Failed_example =
    execute_safely-Failed broken_storage swap SingleOperation.compare_and_swap (pos 10) small_engine
      refused-err

execute_safely-Succeeded_example :
    Succeeded frame_storage swap SingleOperation.compare_and_swap
      (pos 10)
      small_engine
      swapped.0
      swap_result
execute_safely-Succeeded_example =
    execute_safely-Succeeded frame_storage swap SingleOperation.compare_and_swap (pos 10)
      small_engine swapped-ok

compare_and_swap_once_example :
    execute_safely frame_storage swap SingleOperation.compare_and_swap (pos 20) swapped.0
    ≢ (small_engine, ok swap_result)
unfolding request_batch
compare_and_swap_once_example =
    compare_and_swap_once frame_storage key_a 3 (pos 10) (pos 20) (some (2 ∷ [])) (some (2 ∷ []))
      none none AckMode.durable AckMode.durable small_engine swapped.0 small_engine swap_result
      swap_result one_record-IsConsistent swapped-ok

abbrev commands : List (Command FrameLog)
commands =
    mutate swap SingleOperation.compare_and_swap (pos 10)
    ∷ register [] 3 0
    ∷ expire (pos 11) (pos 12)
    ∷ unregister 1
    ∷ []

handle_commands-IsConsistent_example :
    IsConsistent (handle_commands frame_storage commands small_engine).store
handle_commands-IsConsistent_example =
    handle_commands-IsConsistent frame_storage refl commands small_engine one_record-IsConsistent
