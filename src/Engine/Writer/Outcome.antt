-- ===== src/Engine/Writer/Outcome.antt =====
-- What the stages after the admission do: to the store, to the log, and to the error they report.
use gapdb.Prelude.{
  ℕ, ◌<◌, ◌≤◌, ◌||◌, Bool, true, false, Option, none, some, ltb, if◌then◌else◌, ◌≡◌, refl, ◌∙◌, ◌⊎◌,
  inl, inr, arith, Bool-cases, ◌≢◌,
}
use gapdb.Api.Errors.{Error, Stage, operation_applied, degraded_read_only}
use gapdb.Api.Types.{Batch}
use gapdb.Engine.History
use gapdb.Engine.Expiry.{reschedule}
use gapdb.Engine.Watch.{publish_watchers}
use gapdb.Engine.Apply.{apply_all}
use gapdb.Engine.OrderedKeys.{OrderedKeyPlan, install_plan}
use gapdb.Engine.State.{
  map_apply_point, Phase, before, after, Failure, Attempt, done, fault, panic, Storage, Store,
  Engine, SingleOperation, CommitResult, Writer, ◌>>=◌, persistence_failure, with_engine,
}
use gapdb.Engine.Writer.{
  append_error_may_have_applied, allocate_revision, append_with_progress, check_evidence,
  make_durable, run_barrier, visit_apply, is_durable, publish, publish_all, after_commit, commit,
  commit_frame, commit_result,
}
use gapdb.Engine.Writer.Stages.{Post, Post-bind, Post-map}

-- The error of a log that is lost says that the operation may have been applied.
persistence_failure-applied :
    (stage : Stage) (current durable : ℕ) (f : Failure)
    → operation_applied (persistence_failure stage current durable true f) ≡ true
unfolding persistence_failure operation_applied
persistence_failure-applied stage current durable f = ground arith

-- An append that is reported as not applied had a definitive sign of that.
persistence_failure_append :
    (stage : Stage) (current durable : ℕ) (applied : Bool) (f : Failure)
    → operation_applied
        (persistence_failure stage current durable (applied || append_error_may_have_applied f) f)
      ≡ (applied || append_error_may_have_applied f)
unfolding persistence_failure operation_applied append_error_may_have_applied
persistence_failure_append stage current durable applied f = ground arith

module _ {L A : Type 0} (s : Storage L A) (e : Engine L A) (b : Batch)
    (single : SingleOperation) where
  -- Before the publication: the store and the durable revision are those of `e`.
  abbrev pub Held : Writer L A → Type 0
  Held w = (w.engine.store ≡ e.store) × (w.engine.durable_through ≡ e.durable_through)

  -- The log refused the frame before it wrote any of it.
  abbrev pub RefusedFrame : Type 0
  RefusedFrame =
      (revision : ℕ) × (l : L) × (f : Failure) × (s.append_frame e.log
          (commit_frame s b single revision)
        ≡ fault l f)
      × (append_error_may_have_applied f ≡ false)

  -- The error tells the truth about the log.
  abbrev pub IsHonest : Error → Writer L A → Type 0
  IsHonest error w = (operation_applied error ≡ true) ⊎ ((w.engine.log ≡ e.log) ⊎ RefusedFrame)

  -- The fault hook struck after the publication.
  abbrev pub StruckAfter : Error → Type 0
  StruckAfter error = (operation_applied error ≡ true) × (s.checkpoint map_apply_point after ≢ none)

  abbrev pub OnFailure : Error → Writer L A → Type 0
  OnFailure error w =
      (w.engine.lifecycle ≡ degraded_read_only) × (Held w ⊎ StruckAfter error) × IsHonest error w

  abbrev pub OnPanic : Writer L A → Type 0
  OnPanic w = Held w × (w.applied_possible ≡ true)

  -- The state between the allocation and the append.
  abbrev pub Allocated : ℕ → Writer L A → Type 0
  Allocated revision w =
      Held w
      × (w.engine.log ≡ e.log)
      × (w.engine.lifecycle ≡ e.lifecycle)
      × (w.applied_possible ≡ false)
      × (e.store.current < revision)

  pub allocate_revision-Post :
      (w : Writer L A)
      → Held w
      → w.engine.log ≡ e.log
      → w.engine.lifecycle ≡ e.lifecycle
      → w.applied_possible ≡ false
      → Post Allocated OnFailure OnPanic (allocate_revision s w)
  unfolding allocate_revision
  allocate_revision-Post w held log life fresh = ground arith

  -- The frame of the batch is in the log.
  abbrev pub IsLogged : ℕ → Type 0
  IsLogged revision = (l : L) × (s.append_frame e.log (commit_frame s b single revision) ≡ done l)

  abbrev Appended : ℕ → Writer L A → Type 0
  Appended revision w =
      Held w × (w.engine.lifecycle ≡ e.lifecycle) × (w.applied_possible ≡ true) × IsLogged revision

  append_attempt :
      (revision : ℕ) (w : Writer L A) (t : Attempt L)
      → Allocated revision w
      → s.append_frame w.engine.log (commit_frame s b single revision) ≡ t
      → Post
          (λ _ w'. Appended revision w')
          OnFailure
          OnPanic
          (append_with_progress s (commit_frame s b single revision) w)
  unfolding append_with_progress
  append_attempt revision w (done l) a q = rw (q, Post) (a.0, a.2, refl, (l, rw (← a.1) q))
  append_attempt revision w (fault l f) a q =
      rw (q, Post) (refl, inl a.0, honest (Bool-cases (append_error_may_have_applied f)))
    where
      applied : Bool
      applied = w.applied_possible || append_error_may_have_applied f

      error : Error
      error =
          persistence_failure Stage.wal_append w.engine.store.current w.engine.durable_through
            applied f

      honest :
          (append_error_may_have_applied f ≡ true) ⊎ (append_error_may_have_applied f ≡ false)
          → (operation_applied error ≡ true) ⊎ ((l ≡ e.log) ⊎ RefusedFrame)
      honest (inl may) = inl (
          ground (
            arith,
            persistence_failure_append Stage.wal_append w.engine.store.current
                w.engine.durable_through w.applied_possible f,
          ))
      honest (inr not_at_all) = inr (inr (revision, l, f, rw (← a.1) q, not_at_all))
  append_attempt revision w (panic l) a q = rw (q, Post) (a.0, refl)

  append_with_progress-Post :
      (revision : ℕ) (w : Writer L A)
      → Allocated revision w
      → Post
          (λ _ w'. Appended revision w')
          OnFailure
          OnPanic
          (append_with_progress s (commit_frame s b single revision) w)
  append_with_progress-Post revision w a = append_attempt revision w _ a refl

  -- The log is as durable as it says, and not more than the engine can know.
  abbrev Known : ℕ → ℕ → Writer L A → Type 0
  Known revision durable w =
      Appended revision w × (e.durable_through ≤ durable) × (durable ≤ revision)

  check_evidence-Post :
      (revision : ℕ) (w : Writer L A)
      → Appended revision w
      → Post
          (λ durable w'. Known revision durable w')
          OnFailure
          OnPanic
          (check_evidence s revision w)
  unfolding check_evidence operation_applied
  check_evidence-Post revision w a = ground arith

  -- A durable acknowledgement waits until the log is durable through this very revision.
  abbrev Ready : ℕ → ℕ → Writer L A → Type 0
  Ready revision durable w =
      Known revision durable w × (is_durable b.ack ≡ true → durable ≡ revision)

  barrier_attempt :
      (revision known : ℕ) (w : Writer L A) (t : Attempt L)
      → Known revision known w
      → s.barrier w.engine.log ≡ t
      → Post
          (λ durable w'. Known revision durable w' × (durable ≡ revision))
          OnFailure
          OnPanic
          (run_barrier s revision w)
  unfolding run_barrier operation_applied
  barrier_attempt revision known w (done l) k q = ground arith
  barrier_attempt revision known w (fault l f) k q = ground (
    arith,
    persistence_failure-applied Stage.wal_barrier w.engine.store.current w.engine.durable_through f,
  )
  barrier_attempt revision known w (panic l) k q = ground arith

  make_durable-Post :
      (revision known : ℕ) (w : Writer L A)
      → Known revision known w
      → Post
          (λ durable w'. Ready revision durable w')
          OnFailure
          OnPanic
          (make_durable s b.ack revision known w)
  unfolding make_durable
  make_durable-Post revision known w k = elim (Bool-cases (is_durable b.ack)) [
    | inl e' ↦ rw e' (
        Post-map (λ durable w'. Known revision durable w' × (durable ≡ revision))
          (λ durable w'.
            Known revision durable w' × (◌≡◌ {A = Bool} true true → durable ≡ revision))
          OnFailure OnFailure OnPanic OnPanic _ (barrier_attempt revision known w _ k refl)
          (λ durable w' p. (p.0, λ _. p.1)) (λ _ _ h. h) (λ _ h. h))
    | inr e' ↦ rw e' (k, λ h. cc)
  ]

  -- A fault at the publication leaves the store as it finds it.
  abbrev AtApply : Phase → Writer L A → Error → Writer L A → Type 0
  AtApply phase w error w' =
      (w'.engine.lifecycle ≡ degraded_read_only)
      × (w'.engine.store ≡ w.engine.store)
      × (w'.engine.durable_through ≡ w.engine.durable_through)
      × (operation_applied error ≡ true)
      × (s.checkpoint map_apply_point phase ≢ none)

  visit_apply-Post :
      (phase : Phase) (w : Writer L A)
      → Post
          (λ _ w'. (w' ≡ w) × (s.checkpoint map_apply_point phase ≡ none))
          (AtApply phase w)
          (λ _. ⊥)
          (visit_apply s phase w)
  visit_apply-Post phase w = visited (s.checkpoint map_apply_point phase) refl
    where
      visited :
          (o : Option Failure)
          → s.checkpoint map_apply_point phase ≡ o
          → Post
              (λ _ w'. (w' ≡ w) × (s.checkpoint map_apply_point phase ≡ none))
              (AtApply phase w)
              (λ _. ⊥)
              (visit_apply s phase w)
      visited none q = unfold visit_apply in rw (q, Post) (refl, q)
      visited (some f) q =
          unfold visit_apply in
          rw (q, Post)
            (
              refl,
              refl,
              refl,
              persistence_failure-applied Stage.map_apply w.engine.store.current
                  w.engine.durable_through f,
              λ h. cc,
            )

  -- The store that a batch leaves when it commits at `revision`.
  abbrev pub committed_store : OrderedKeyPlan → ℕ → Store
  committed_store plan revision =
      let (records, events) = apply_all revision 0 b.mutations single e.store.records in
      record {
        records = records;
        ordered_keys = install_plan e.store.ordered_keys plan;
        current = revision;
        history = History.append e.store.history events;
        expiries = reschedule events e.store.expiries;
        registry = publish_watchers e.store.registry events;
      }

  pub record Committed (plan : OrderedKeyPlan) (r : CommitResult) (w : Writer L A) : Type 0 where
    pub revision : ℕ
    pub durable : ℕ
    pub newer : e.store.current < revision
    pub result :
        r
        ≡ commit_result s b revision durable
            (apply_all revision 0 b.mutations single e.store.records).1
    pub store : w.engine.store ≡ committed_store plan revision
    pub durable_now : w.engine.durable_through ≡ durable
    pub durable_grows : e.durable_through ≤ durable
    pub durable_bounded : durable ≤ revision
    pub acknowledged : is_durable b.ack ≡ true → durable ≡ revision
    pub logged : IsLogged revision
    pub lifecycle : w.engine.lifecycle ≡ e.lifecycle

  -- The writer when the lock of the publication is released.
  published : OrderedKeyPlan → ℕ → ℕ → Writer L A → Writer L A
  published plan revision durable w =
      let e' = w.engine in
      let (records, events) = apply_all revision 0 b.mutations single e'.store.records in
      with_engine w (record e' {
        store = record (e'.store) {
          records = records;
          ordered_keys = install_plan e'.store.ordered_keys plan;
          current = revision;
          history = History.append e'.store.history events;
        };
        durable_through = if ltb e'.durable_through durable then durable else e'.durable_through;
      })

  abbrev Passed : OrderedKeyPlan → ℕ → ℕ → Writer L A → Unit {0} → Writer L A → Type 0
  Passed plan revision durable w _ w' =
      (w' ≡ published plan revision durable w) × (s.checkpoint map_apply_point after ≡ none)

  publish_all-Post :
      (plan : OrderedKeyPlan) (revision durable : ℕ) (w : Writer L A)
      → e.store.current < revision
      → Ready revision durable w
      → Post (Committed plan) OnFailure OnPanic (publish_all s b single plan revision durable w)
  unfolding publish_all publish after_commit published
  publish_all-Post plan revision durable w newer ready =
      Post-bind (Passed plan revision durable w) (Committed plan) OnFailure OnPanic
        (visit_apply s after) _ (published plan revision durable w)
        (Post-map (Passed plan revision durable w) (Passed plan revision durable w)
          (AtApply after (published plan revision durable w)) OnFailure (λ _. ⊥) OnPanic
          (visit_apply s after (published plan revision durable w))
          (visit_apply-Post after (published plan revision durable w)) (λ _ w' p. p)
          (λ error w' f. (f.0, inr (f.3, f.4), inl f.3)) (λ w' h. absurd h))
        (λ _ w' p.
          rw (p.0, ready.0.0.0.0, ready.0.0.0.1)
            (record {
              revision = revision;
              durable = durable;
              newer = newer;
              result = refl;
              store = refl;
              durable_now = ground arith;
              durable_grows = ready.0.1;
              durable_bounded = ready.0.2;
              acknowledged = ready.1;
              logged = ready.0.0.3;
              lifecycle = ready.0.0.1;
            }))

  visit_then_publish :
      (plan : OrderedKeyPlan) (revision durable : ℕ) (w : Writer L A)
      → e.store.current < revision
      → Ready revision durable w
      → Post
          (Committed plan)
          OnFailure
          OnPanic
          ((visit_apply s before >>= λ _. publish_all s b single plan revision durable) w)
  visit_then_publish plan revision durable w newer ready =
      Post-bind (λ _ w'. w' ≡ w) (Committed plan) OnFailure OnPanic (visit_apply s before)
        (λ _. publish_all s b single plan revision durable) w
        (Post-map (λ _ w'. (w' ≡ w) × (s.checkpoint map_apply_point before ≡ none)) (λ _ w'. w' ≡ w)
          (AtApply before w) OnFailure (λ _. ⊥) OnPanic (visit_apply s before w)
          (visit_apply-Post before w) (λ _ w' p. p.0)
          (λ error w' f. (f.0, inl (f.1 ∙ ready.0.0.0.0, f.2 ∙ ready.0.0.0.1), inl f.3))
          (λ w' h. absurd h))
        (λ _ w' same. rw same (publish_all-Post plan revision durable w newer ready))

  -- The stages from the append on.
  pub commit-Post :
      (plan : OrderedKeyPlan) (revision : ℕ) (w : Writer L A)
      → Allocated revision w
      → Post (Committed plan) OnFailure OnPanic (commit s b single plan revision w)
  unfolding commit
  commit-Post plan revision w a =
      Post-bind (λ _ w'. Appended revision w') (Committed plan) OnFailure OnPanic
        (append_with_progress s (commit_frame s b single revision)) _ w
        (append_with_progress-Post revision w a)
        (λ _ w₁ appended.
          Post-bind (λ known w'. Known revision known w') (Committed plan) OnFailure OnPanic
            (check_evidence s revision) _ w₁ (check_evidence-Post revision w₁ appended)
            (λ known w₂ k.
              Post-bind (λ durable w'. Ready revision durable w') (Committed plan) OnFailure OnPanic
                (make_durable s b.ack revision known) _ w₂ (make_durable-Post revision known w₂ k)
                (λ durable w₃ ready. visit_then_publish plan revision durable w₃ a.4 ready)))
