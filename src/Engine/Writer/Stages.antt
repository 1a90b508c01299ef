-- ===== src/Engine/Writer/Stages.antt =====
-- What each stage of `execute` does to the engine, on every outcome.
use gapdb.Prelude.{◌==◌, true, false, length, ◌≡◌, refl, ◌⊎◌, inl, inr, arith, Bool-cases}
use gapdb.Api.Errors.{Error, Result, ok, err}
use gapdb.Api.Types.{Instant, Batch}
use gapdb.Engine.Clock.{clock_now}
use gapdb.Engine.Admission.{admit_batch_at}
use gapdb.Engine.Conditions.{check_assertions, check_mutations}
use gapdb.Engine.State
use gapdb.Engine.State.{
  Point, map_apply_point, Phase, before, after, Failure, Attempt, done, fault, panic, Storage,
  Store, Engine, SingleOperation, CommitResult, Writer, Run, returned, failed, panicked, Step,
  ◌>>=◌, persistence_failure, mutation_unavailable, with_engine,
}
use gapdb.Engine.Writer.{
  accepts_batches, check_lifecycle, condition_fault, visit, visit_assertions, evaluate_predicates,
  admit,
}

module _ {L A : Type 0} where
  -- What holds of a run, by its outcome.
  abbrev pub Post :
      {X : Type 0}
      → (X → Writer L A → Type 0)
      → (Error → Writer L A → Type 0)
      → (Writer L A → Type 0)
      → Run L A X
      → Type 0
  Post P Q R (returned x w) = P x w
  Post P Q R (failed e w) = Q e w
  Post P Q R (panicked w) = R w

  pub Post-bind :
      {X Y : Type 0} (P : X → Writer L A → Type 0) (P' : Y → Writer L A → Type 0)
      (Q : Error → Writer L A → Type 0) (R : Writer L A → Type 0) (m : Step L A X)
      (f : X → Step L A Y) (w : Writer L A)
      → Post P Q R (m w)
      → ((x : X) (w' : Writer L A) → P x w' → Post P' Q R (f x w'))
      → Post P' Q R ((m >>= f) w)
  Post-bind P P' Q R m f w h k = go (m w) h
    where
      go :
          (r : Run L A _)
          → Post P Q R r
          → Post P' Q R (elim r [
            | returned x w' ↦ f x w'
            | failed e w' ↦ failed e w'
            | panicked w' ↦ panicked w'
          ])
      go (returned x w') h' = k x w' h'
      go (failed e w') h' = h'
      go (panicked w') h' = h'

  pub Post-map :
      {X : Type 0} (P P' : X → Writer L A → Type 0) (Q Q' : Error → Writer L A → Type 0)
      (R R' : Writer L A → Type 0) (r : Run L A X)
      → Post P Q R r
      → ((x : X) (w : Writer L A) → P x w → P' x w)
      → ((e : Error) (w : Writer L A) → Q e w → Q' e w)
      → ((w : Writer L A) → R w → R' w)
      → Post P' Q' R' r
  Post-map P P' Q Q' R R' (returned x w) h p q r = p x w h
  Post-map P P' Q Q' R R' (failed e w) h p q r = q e w h
  Post-map P P' Q Q' R R' (panicked w) h p q r = r w h

  -- The writer changed nothing that a reader sees, and not the log.
  pub record Untouched (e : Engine L A) (w : Writer L A) : Type 0 where
    pub store : w.engine.store ≡ e.store
    pub durable : w.engine.durable_through ≡ e.durable_through
    pub log : w.engine.log ≡ e.log
    pub lifecycle : w.engine.lifecycle ≡ e.lifecycle

  -- What a batch that passes the admission has been checked for, at the instant `now`.
  pub record Admitted (e : Engine L A) (b : Batch) (single : SingleOperation) (now : Instant)
      : Type 0 where
    pub accepting : accepts_batches e.lifecycle ≡ true
    pub valid : admit_batch_at b e.limits now ≡ ok tt
    pub asserted : check_assertions e.store.records now 0 b.assertions ≡ ok tt
    pub conditions :
        check_mutations e.store.records now e.store.current single 0 b.mutations ≡ ok tt

Unit-cases : (r : Result (Unit {0})) → (r ≡ ok tt) ⊎ ((e : Error) × (r ≡ err e))
Unit-cases (ok tt) = inl refl
Unit-cases (err e) = inr (e, refl)

module _ {L A : Type 0} (s : Storage L A) where
  abbrev unavailable : Writer L A → Error
  unavailable w =
      mutation_unavailable w.engine.lifecycle w.engine.store.current w.engine.durable_through

  visit_cases :
      (point : Point) (phase : Phase) (error : Error) (w : Writer L A)
      → (visit s point phase error w ≡ returned tt w)
        ⊎ (visit s point phase error w ≡ failed error w)
  unfolding visit
  visit_cases point phase error w = ground arith

  visit_assertions_cases :
      (b : Batch) (phase : Phase) (w : Writer L A)
      → (visit_assertions s b phase w ≡ returned tt w)
        ⊎ ((error : Error) × (visit_assertions s b phase w ≡ failed error w))
  unfolding visit_assertions
  visit_assertions_cases b phase w = elim (Bool-cases (length b.assertions == 0)) [
    | inl e ↦ rw e (inl refl)
    | inr e ↦ rw e (elim (visit_cases _ phase _ w) [ inl q ↦ inl q | inr q ↦ inr (_, q) ])
  ]

  -- The predicate phase looks at the records and changes nothing.
  evaluate_predicates-Post :
      (b : Batch) (single : SingleOperation) (now : Instant) (w : Writer L A)
      → Post
          (λ _ w'.
            (w' ≡ w)
            × (check_assertions w.engine.store.records now 0 b.assertions ≡ ok tt)
            × (check_mutations w.engine.store.records now w.engine.store.current single 0
                  b.mutations
                ≡ ok tt))
          (λ _ w'. w' ≡ w)
          (λ _. ⊥)
          (evaluate_predicates s b single now w)
  unfolding evaluate_predicates
  evaluate_predicates-Post b single now w = ground (
    arith,
    visit_assertions_cases b before w,
    visit_assertions_cases b after w,
    visit_cases State.mutation_condition_evaluation before (condition_fault s) w,
    visit_cases State.mutation_condition_evaluation after (condition_fault s) w,
  )

  -- The writer after a reading of the clock.
  abbrev pub clocked : Writer L A → Instant → Writer L A
  clocked w source =
      with_engine w (record (w.engine) { clock = (clock_now w.engine.clock source).1 })

  check_refused :
      (w : Writer L A)
      → accepts_batches w.engine.lifecycle ≡ false
      → check_lifecycle s w ≡ failed (unavailable w) w
  unfolding check_lifecycle
  check_refused w e = rw e

  check_accepted :
      (w : Writer L A)
      → accepts_batches w.engine.lifecycle ≡ true
      → check_lifecycle s w ≡ returned tt w
  unfolding check_lifecycle
  check_accepted w e = rw e

  admit_refused :
      (b : Batch) (single : SingleOperation) (source : Instant) (w : Writer L A)
      → accepts_batches w.engine.lifecycle ≡ false
      → admit s b single source w ≡ failed (unavailable w) w
  unfolding admit
  admit_refused b single source w e = ground (arith, check_refused w e)

  admit_invalid :
      (b : Batch) (single : SingleOperation) (source : Instant) (w : Writer L A) {error : Error}
      → accepts_batches w.engine.lifecycle ≡ true
      → admit_batch_at b w.engine.limits (clock_now w.engine.clock source).0 ≡ err error
      → admit s b single source w ≡ failed error (clocked w source)
  unfolding admit
  admit_invalid b single source w e invalid = ground (arith, check_accepted w e)

  admit_valid :
      (b : Batch) (single : SingleOperation) (source : Instant) (w : Writer L A)
      → accepts_batches w.engine.lifecycle ≡ true
      → admit_batch_at b w.engine.limits (clock_now w.engine.clock source).0 ≡ ok tt
      → admit s b single source w
        ≡ evaluate_predicates s b single (clock_now w.engine.clock source).0 (clocked w source)
  unfolding admit
  admit_valid b single source w e valid = ground (arith, check_accepted w e)

  -- What an admitted batch has, and what is left as it was.
  abbrev pub AdmitPost :
      Batch → SingleOperation → Instant → Writer L A → Run L A (Unit {0}) → Type 0
  AdmitPost b single source w =
      Post
        (λ _ w'.
          (w' ≡ clocked w source) × Admitted w.engine b single (clock_now w.engine.clock source).0)
        (λ _ w'. Untouched w.engine w') (λ _. ⊥)

  pub admit-Post :
      (b : Batch) (single : SingleOperation) (source : Instant) (w : Writer L A)
      → AdmitPost b single source w (admit s b single source w)
  admit-Post b single source w =
      let now = (clock_now w.engine.clock source).0 in
      let same : Untouched w.engine (clocked w source) = record {
        store = refl;
        durable = refl;
        log = refl;
        lifecycle = refl;
      } in
      elim (Bool-cases (accepts_batches w.engine.lifecycle)) [
        | inr refused ↦
            rw (admit_refused b single source w refused)
              (record { store = refl; durable = refl; log = refl; lifecycle = refl })
        | inl accepting ↦ elim (Unit-cases (admit_batch_at b w.engine.limits now)) [
          | inr (error, invalid) ↦ rw (admit_invalid b single source w accepting invalid) same
          | inl valid ↦ rw (admit_valid b single source w accepting valid) (
              Post-map _ (λ _ w'. (w' ≡ clocked w source) × Admitted w.engine b single now) _
                (λ _ w'. Untouched w.engine w') _ (λ _. ⊥) _
                (evaluate_predicates-Post b single now (clocked w source))
                (λ x w' p. (
                  p.0,
                  record { accepting = accepting; valid = valid; asserted = p.1; conditions = p.2 },
                ))
                (λ error w' p. rw p same) (λ w' h. absurd h))
        ]
      ]
