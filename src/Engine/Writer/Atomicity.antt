-- ===== src/Engine/Writer/Atomicity.antt =====
-- `execute` and `execute_safely` as a whole: a batch happens entirely or not at all, and the result
-- says which.
use gapdb.Prelude.{true, false, none, ◌≡◌, refl, ◌⊎◌, inl, inr, arith, ◌≢◌}
use gapdb.Api.Errors.{Error, Result, ok, err, operation_applied, degraded_read_only, internal}
use gapdb.Api.Types.{Instant, Batch}
use gapdb.Engine.Clock.{clock_now}
use gapdb.Engine.OrderedKeys.{OrderedKeyPlan, plan_ordered_keys}
use gapdb.Engine.State.{
  map_apply_point, after, Storage, Engine, SingleOperation, CommitResult, Writer, Run, returned,
  failed, panicked, degraded,
}
use gapdb.Engine.Writer.{admit, allocate_revision, commit, execute, execute_safely}
use gapdb.Engine.Writer.Stages.{Post, Post-bind, Post-map, Untouched, Admitted, admit-Post, clocked}
use gapdb.Engine.Writer.Outcome.{
  OnFailure, OnPanic, Committed, Allocated, RefusedFrame, allocate_revision-Post, commit-Post,
}

module _ {L A : Type 0} (s : Storage L A) (b : Batch) (single : SingleOperation) (source : Instant)
    (e : Engine L A) where
  abbrev pub start : Writer L A
  start = record { engine = e; applied_possible = false }

  -- The instant at which the batch is judged.
  abbrev pub effective : Instant
  effective = (clock_now e.clock source).0

  abbrev pub OnReturn : CommitResult → Writer L A → Type 0
  OnReturn r w =
      Admitted e b single effective
      × Committed s e b single (plan_ordered_keys e.store.ordered_keys b.mutations) r w

  abbrev pub OnError : Error → Writer L A → Type 0
  OnError error w = Untouched e w ⊎ OnFailure s e b single error w

  abbrev pub plan : OrderedKeyPlan
  plan = plan_ordered_keys e.store.ordered_keys b.mutations

  pub execute-Post : Post OnReturn OnError (OnPanic s e b single) (execute s b single source start)
  unfolding execute
  execute-Post =
      Post-bind (λ _ w. (w ≡ clocked s start source) × Admitted e b single effective) OnReturn
        OnError (OnPanic s e b single) (admit s b single source) _ start
        (Post-map (λ _ w. (w ≡ clocked s start source) × Admitted e b single effective)
          (λ _ w. (w ≡ clocked s start source) × Admitted e b single effective)
          (λ _ w. Untouched e w) OnError (λ _. ⊥) (OnPanic s e b single)
          (admit s b single source start) (admit-Post s b single source start) (λ _ _ p. p)
          (λ _ _ u. inl u) (λ _ h. absurd h))
        (λ _ w p. rw p.0 (
          Post-bind (Allocated s e b single) OnReturn OnError (OnPanic s e b single)
            (allocate_revision s) _ (clocked s start source)
            (Post-map (Allocated s e b single) (Allocated s e b single) (OnFailure s e b single)
              OnError (OnPanic s e b single) (OnPanic s e b single)
              (allocate_revision s (clocked s start source))
              (allocate_revision-Post s e b single (clocked s start source) (refl, refl) refl refl
                refl)
              (λ _ _ h. h) (λ _ _ h. inr h) (λ _ h. h))
            (λ revision w' a.
              Post-map (Committed s e b single plan) OnReturn (OnFailure s e b single) OnError
                (OnPanic s e b single) (OnPanic s e b single) (commit s b single plan revision w')
                (commit-Post s e b single plan revision w' a) (λ _ _ c. (p.1, c)) (λ _ _ h. inr h)
                (λ _ h. h))))

  abbrev pub safe : Run L A CommitResult → Engine L A × Result CommitResult
  safe r = elim r [
    | returned x w ↦ (w.engine, ok x)
    | failed error w ↦ (w.engine, err error)
    | panicked w ↦ (degraded w.engine, err (internal "engine-writer-panic" w.applied_possible))
  ]

  -- What an error says of the engine that it leaves: nothing that a reader sees has changed, unless
  -- the fault hook struck after the publication; and the writer goes on only if it changed nothing.
  pub record Failed (e' : Engine L A) (error : Error) : Type 0 where
    pub kept :
        ((e'.store ≡ e.store) × (e'.durable_through ≡ e.durable_through))
        ⊎ ((operation_applied error ≡ true) × (s.checkpoint map_apply_point after ≢ none))
    pub honest : (operation_applied error ≡ true) ⊎ ((e'.log ≡ e.log) ⊎ RefusedFrame s e b single)
    pub stopped :
        ((e'.log ≡ e.log) × (e'.lifecycle ≡ e.lifecycle)) ⊎ (e'.lifecycle ≡ degraded_read_only)

  Failed-run :
      (r : Run L A CommitResult) (e' : Engine L A) (error : Error)
      → Post OnReturn OnError (OnPanic s e b single) r
      → safe r ≡ (e', err error)
      → Failed e' error
  unfolding operation_applied
  Failed-run (returned x w) e' error h q = cc
  Failed-run (failed x w) e' error (inl u) q = record {
    kept = inl (ground arith, ground arith);
    honest = inr (inl (ground arith));
    stopped = inl (ground arith, ground arith);
  }
  Failed-run (failed x w) e' error (inr f) q = record {
    kept = ground (arith, f);
    honest = ground (arith, f);
    stopped = inr (ground arith);
  }
  Failed-run (panicked w) e' error h q = record {
    kept = inl (ground arith, ground arith);
    honest = inl (ground arith);
    stopped = inr (ground arith);
  }

  -- If `execute_safely` answers with an error, then the store and the durable revision are
  -- unchanged, unless the error says that the operation was applied and the fault hook struck
  -- after the publication; the error says that the operation was applied, or the log is as it
  -- was, or the log refused the frame definitively; and either the log and the lifecycle are
  -- unchanged or the engine is degraded to read-only.
  pub execute_safely-Failed :
      {e' : Engine L A} {error : Error}
      → execute_safely s b single source e ≡ (e', err error)
      → Failed e' error
  unfolding execute_safely
  execute_safely-Failed {e'} {error} q =
      Failed-run (execute s b single source start) e' error execute-Post q
