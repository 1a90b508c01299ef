-- ===== src/Engine/Writer/Invariant.antt =====
-- What holds of an engine between two batches.
use gapdb.Prelude.{◌≤◌, none, some, Bytes, ◌≡◌, refl, sym, ap, ◌∙◌, inl, inr, arith}
use gapdb.Prelude.Dict.{lookup}
use gapdb.Prelude.Sorted.{has, IsOrdered}
use gapdb.Api.Errors.{Result, ok, err, >>=-eq-ok}
use gapdb.Api.Types.{Instant, Record, Batch}
use gapdb.Api.Options.{Limits}
use gapdb.Api.Validate.{is_some, validate_batch, validate_batch_at}
use gapdb.Api.Validate.Accepts.{Accepted, validate_batch-Accepted}
use gapdb.Engine.Admission.{admit_batch_at}
use gapdb.Engine.Apply.Records.{is_some-record_after, record_after-revision}
use gapdb.Engine.History.Retention.{IsBounded, append-IsBounded}
use gapdb.Engine.OrderedKeys.Delta.{present_after}
use gapdb.Engine.OrderedKeys.Plan.{install_plan-present_after}
use gapdb.Engine.State.{
  Storage, Store, Engine, SingleOperation, CommitResult, map_apply_point, after,
}
use gapdb.Engine.Writer.{execute_safely}
use gapdb.Engine.Writer.Atomicity.{execute_safely-Failed, effective}
use gapdb.Engine.Writer.Success.{Succeeded, execute_safely-Succeeded}

-- The index is strictly ordered and holds exactly the keys of the map, no record is newer than the
-- current revision, and the history keeps its bounds.
pub record IsConsistent (store : Store) : Type 0 where
  pub ordered : IsOrdered store.ordered_keys.keys
  pub indexed : (k : Bytes) → has k store.ordered_keys.keys ≡ is_some (lookup k store.records)
  pub revisions :
      (k : Bytes) (r : Record) → lookup k store.records ≡ some r → r.revision ≤ store.current
  pub bounded : IsBounded store.history

admit_batch_at-Accepted :
    (b : Batch) (limits : Limits) (now : Instant)
    → admit_batch_at b limits now ≡ ok tt
    → Accepted b limits
unfolding admit_batch_at validate_batch_at
admit_batch_at-Accepted b limits now h =
    let (tt', q, _) = >>=-eq-ok (validate_batch_at b limits now) _ h in
    let (tt'', q', _) = >>=-eq-ok (validate_batch b limits) _ q in
    validate_batch-Accepted b limits q'

module _ {L A : Type 0} (s : Storage L A) (b : Batch) (single : SingleOperation) (source : Instant)
    (e : Engine L A) where
  Succeeded-IsConsistent :
      (e' : Engine L A) (r : CommitResult)
      → IsConsistent e.store
      → Succeeded s b single source e e' r
      → IsConsistent e'.store
  Succeeded-IsConsistent e' r c u =
      let accepted =
        admit_batch_at-Accepted b e.limits (effective s b single source e) u.admitted.valid in
      let plan =
        install_plan-present_after e.store.ordered_keys b.mutations c.ordered accepted.known
          accepted.distinct in
      record {
        ordered = rw u.keys plan.0;
        indexed = λ k.
            rw (u.keys, u.records k)
              (plan.1 k
                ∙ ap (present_after k b.mutations) (c.indexed k)
                ∙ sym (
                    is_some-record_after r.result.revision k b.mutations
                      (lookup k e.store.records)));
        revisions = λ k x q. rw u.current (
            record_after-revision e.store.current r.result.revision k b.mutations
              (lookup k e.store.records) x (ground (arith, u.newer)) (c.revisions k)
              (sym (u.records k) ∙ q));
        bounded = rw u.publication (append-IsBounded e.store.history _ c.bounded);
      }

  settled :
      (e' : Engine L A) (x : Result CommitResult)
      → IsConsistent e.store
      → s.checkpoint map_apply_point after ≡ none
      → execute_safely s b single source e ≡ (e', x)
      → IsConsistent e'.store
  settled e' (ok r) c none_struck q =
      Succeeded-IsConsistent e' r c (execute_safely-Succeeded s b single source e q)
  settled e' (err error) c none_struck q =
      let f = execute_safely-Failed s b single source e q in
      elim f.kept [ inl kept ↦ rw kept.0 c | inr struck ↦ absurd (struck.1 none_struck) ]

  -- If the fault hook does not strike after the publication, then a batch, whatever its answer,
  -- leaves a consistent store consistent.
  pub execute_safely-IsConsistent :
      IsConsistent e.store
      → s.checkpoint map_apply_point after ≡ none
      → IsConsistent (execute_safely s b single source e).0.store
  execute_safely-IsConsistent c none_struck =
      settled (execute_safely s b single source e).0 (execute_safely s b single source e).1 c
        none_struck refl
