-- ===== src/Engine/Writer/Success.antt =====
-- What a successful batch has done.
use gapdb.Prelude.{◌<◌, ◌≤◌, true, Bytes, ◌≡◌, refl, ap, arith}
use gapdb.Prelude.Dict.{lookup}
use gapdb.Api.Errors.{ok}
use gapdb.Api.Types.{Instant, Batch}
use gapdb.Engine.State.{
  Storage, Engine, SingleOperation, CommitResult, Run, returned, failed, panicked,
}
use gapdb.Engine.OrderedKeys.{plan_ordered_keys, install_plan}
use gapdb.Engine.Apply.Records.{record_after, lookup-apply_all}
use gapdb.Engine.Writer.{is_durable, execute, execute_safely}
use gapdb.Engine.Writer.Stages.{Post, Admitted}
use gapdb.Engine.Writer.Outcome.{IsLogged, OnPanic, committed_store}
use gapdb.Engine.Writer.Atomicity.{OnReturn, OnError, execute-Post, safe, effective, start}

module _ {L A : Type 0} (s : Storage L A) (b : Batch) (single : SingleOperation) (source : Instant)
    (e : Engine L A) where
  -- Every predicate held before the batch, the revision is new, the frame went to the log first,
  -- each key has what the batch's mutation of it says, or what it had, and a durable
  -- acknowledgement is given only at durability.
  pub record Succeeded (e' : Engine L A) (r : CommitResult) : Type 0 where
    pub admitted : Admitted e b single (effective s b single source e)
    pub newer : e.store.current < r.result.revision
    pub current : e'.store.current ≡ r.result.revision
    pub logged : IsLogged s e b single r.result.revision
    pub records :
        (k : Bytes)
        → lookup k e'.store.records
          ≡ record_after r.result.revision k b.mutations (lookup k e.store.records)
    pub keys :
        e'.store.ordered_keys
        ≡ install_plan e.store.ordered_keys (plan_ordered_keys e.store.ordered_keys b.mutations)
    pub durable_now : e'.durable_through ≡ r.result.durable_through_revision
    pub durable_grows : e.durable_through ≤ e'.durable_through
    pub durable_bounded : e'.durable_through ≤ e'.store.current
    pub acknowledged :
        is_durable b.ack ≡ true → r.result.durable_through_revision ≡ r.result.revision
    pub lifecycle : e'.lifecycle ≡ e.lifecycle
    pub publication :
        e'.store
        ≡ committed_store s e b single
            (plan_ordered_keys e.store.ordered_keys b.mutations)
            r.result.revision

  Succeeded-run :
      (run : Run L A CommitResult) (e' : Engine L A) (r : CommitResult)
      → Post (OnReturn s b single source e) (OnError s b single source e) (OnPanic s e b single) run
      → safe s b single source e run ≡ (e', ok r)
      → Succeeded e' r
  Succeeded-run (failed x w) e' r h q = absurd (ground arith)
  Succeeded-run (panicked w) e' r h q = absurd (ground arith)
  Succeeded-run (returned x w) e' r (adm, c) q =
      let at = ap (λ y. y.result.revision) c.result in
      let through = ap (λ y. y.result.durable_through_revision) c.result in
      let rev : r.result.revision ≡ c.revision = ground (arith, at) in
      let left : e'.store
          ≡ committed_store s e b single (plan_ordered_keys e.store.ordered_keys b.mutations)
              c.revision =
        ground (arith, c.store) in
      record {
        admitted = adm;
        newer = rw rev c.newer;
        current = rw (rev, left) refl;
        logged = rw rev c.logged;
        records = λ k.
            rw (rev, left) (lookup-apply_all c.revision 0 b.mutations single e.store.records k);
        keys = rw left refl;
        durable_now = ground (arith, through, c.durable_now);
        durable_grows = ground (arith, c.durable_now, c.durable_grows);
        durable_bounded = ground (arith, c.durable_now, c.durable_bounded, c.store);
        acknowledged = λ h. ground (arith, at, through, c.acknowledged h);
        lifecycle = ground (arith, c.lifecycle);
        publication = rw rev left;
      }

  -- If `execute_safely` answers with a result, then the lifecycle accepted the batch, its checks
  -- and all its conditions held at the effective instant, the revision is above the old current
  -- one and becomes current, the frame of the batch went to the log, every key has what the
  -- mutations of the batch leave under it, the index is the planned one, the durable revision did
  -- not fall and is at most the current one, a durable acknowledgement is given only at the
  -- revision itself, and the lifecycle is unchanged.
  pub execute_safely-Succeeded :
      {e' : Engine L A} {r : CommitResult}
      → execute_safely s b single source e ≡ (e', ok r)
      → Succeeded e' r
  unfolding execute_safely
  execute_safely-Succeeded {e'} {r} q =
      Succeeded-run (execute s b single source (start s b single source e)) e' r
        (execute-Post s b single source e) q
