-- ===== src/Api/Validate/Accepts.antt =====
-- What a batch has that `Batch.Validate` accepts.
use gapdb.Prelude.{
  ℕ, suc, ◌+◌, ◌≤◌, ◌<◌, true, false, none, List, [], ◌∷◌, Bytes, length, All, ◌≡◌, ◌≢◌, inl, inr,
  arith, Bool-cases, key_eq,
}
use gapdb.Prelude.Keys.{key_eq→eq, key_eq_refl}
use gapdb.Prelude.Dict.{lookup, insert, lookup-insert}
use gapdb.Prelude.Sorted.{has, IsDistinct}
use gapdb.Api.Errors.{ok, Result-cases}
use gapdb.Api.Types.{Mutation, MutationKind, Batch, bytes_of, keys_of, IsKnown}
use gapdb.Api.Options.{Limits}
use gapdb.Api.Validate.{
  BatchKey, Tally, validate_mutation, validate_batch, tally_assertions, tally_mutations,
  mutation_duplicate, add_bytes, batch_operation_bytes,
}

-- The bytes that the mutations count for.
abbrev pub weight : List Mutation → ℕ
weight [] = 0
weight (m ∷ rest) = batch_operation_bytes + length m.key + length (bytes_of m.value) + weight rest

validate_mutation-known :
    (m : Mutation) (limits : Limits)
    → validate_mutation m limits ≡ ok tt
    → m.kind ≢ MutationKind.unknown
unfolding validate_mutation
validate_mutation-known m limits h = ground arith

-- What the loop over the mutations has checked when it ends.
record Tallied (limits : Limits) (t : Tally) (ms : List Mutation) (t' : Tally) : Type 0 where
  known : IsKnown ms
  unseen : (k : Bytes) → has k (keys_of ms) ≡ true → lookup k t.seen ≡ none
  distinct : IsDistinct (keys_of ms)
  valid : All (λ m. validate_mutation m limits ≡ ok tt) ms
  weighed : t'.approximate_bytes ≡ t.approximate_bytes + weight ms

seen_with : Limits → ℕ → Tally → Mutation → Tally
seen_with limits i t m = record {
  seen = insert m.key (record { assertion = false; index = i }) t.seen;
  approximate_bytes =
      t.approximate_bytes + (batch_operation_bytes + length m.key + length (bytes_of m.value));
}

tally_step :
    (limits : Limits) (i : ℕ) (t : Tally) (m : Mutation) (rest : List Mutation) (t' : Tally)
    → tally_mutations limits i t (m ∷ rest) ≡ ok t'
    → (lookup m.key t.seen ≡ none)
      × (validate_mutation m limits ≡ ok tt)
      × (tally_mutations limits (suc i) (seen_with limits i t m) rest ≡ ok t')
      × ((seen_with limits i t m).approximate_bytes ≤ limits.max_batch_bytes)
unfolding tally_mutations mutation_duplicate add_bytes seen_with
tally_step limits i t m rest t' h = ground arith

tallied :
    (limits : Limits) (i : ℕ) (t : Tally) (ms : List Mutation) (t' : Tally)
    → tally_mutations limits i t ms ≡ ok t'
    → Tallied limits t ms t'
unfolding has tally_mutations seen_with
tallied limits i t [] t' h = record {
  known = tt;
  unseen = λ k q. cc;
  distinct = tt;
  valid = tt;
  weighed = ground arith;
}
tallied limits i t (m ∷ rest) t' h =
    let (free, valid, later, _) = tally_step limits i t m rest t' h in
    let ih = tallied limits (suc i) (seen_with limits i t m) rest t' later in
    let entry : BatchKey = record { assertion = false; index = i } in
    record {
      known = (validate_mutation-known m limits valid, ih.known);
      unseen = λ k q. elim (Bool-cases (key_eq m.key k)) [
        | inl here ↦ ground (arith, key_eq→eq m.key k here)
        | inr other ↦ ground (arith, ih.unseen k, lookup-insert m.key k entry t.seen)
      ];
      distinct = (
        elim (Bool-cases (has m.key (keys_of rest))) [
          | inr new ↦ new
          | inl again ↦ ground (
            arith,
            ih.unseen m.key again,
            lookup-insert m.key m.key entry t.seen,
            key_eq_refl m.key,
          )
        ],
        ih.distinct,
      );
      valid = (valid, ih.valid);
      weighed = omega (arith, ih.weighed);
    }

within :
    (limits : Limits) (i : ℕ) (t : Tally) (ms : List Mutation) (t' : Tally)
    → t.approximate_bytes ≤ limits.max_batch_bytes
    → tally_mutations limits i t ms ≡ ok t'
    → t'.approximate_bytes ≤ limits.max_batch_bytes
within limits i t [] t' le h = unfold tally_mutations in ground arith
within limits i t (m ∷ rest) t' le h =
    let (_, _, later, fits) = tally_step limits i t m rest t' h in
    within limits (suc i) (seen_with limits i t m) rest t' fits later

within_some :
    (limits : Limits) (t : Tally) (ms : List Mutation) (t' : Tally)
    → 0 < length ms
    → tally_mutations limits 0 t ms ≡ ok t'
    → t'.approximate_bytes ≤ limits.max_batch_bytes
within_some limits t [] t' le h = absurd (omega arith)
within_some limits t (m ∷ rest) t' le h =
    let (_, _, later, fits) = tally_step limits 0 t m rest t' h in
    within limits 1 (seen_with limits 0 t m) rest t' fits later

-- The mutations of an accepted batch: one at least, each a valid put or delete, of different keys.
pub record Accepted (b : Batch) (limits : Limits) : Type 0 where
  pub some_mutation : 0 < length b.mutations
  pub operations : length b.assertions + length b.mutations ≤ limits.max_batch_operations
  pub known : IsKnown b.mutations
  pub distinct : IsDistinct (keys_of b.mutations)
  pub valid : All (λ m. validate_mutation m limits ≡ ok tt) b.mutations
  pub fits : weight b.mutations ≤ limits.max_batch_bytes

inner_tally :
    (b : Batch) (limits : Limits)
    → validate_batch b limits ≡ ok tt
    → (t : Tally) × (t' : Tally) × (tally_mutations limits 0 t b.mutations ≡ ok t')
      × (0 < length b.mutations)
      × (length b.assertions + length b.mutations ≤ limits.max_batch_operations)
unfolding validate_batch
inner_tally b limits h =
    let start : Tally = record { seen = []; approximate_bytes = 32 } in
    elim (Result-cases (tally_assertions limits 0 start b.assertions)) [
      | inr (e, q) ↦ absurd (ground arith)
      | inl (t, q) ↦ elim (Result-cases (tally_mutations limits 0 t b.mutations)) [
        | inr (e, q') ↦ absurd (ground arith)
        | inl (t', q') ↦ (t, t', q', ground arith, ground arith)
      ]
    ]

-- A batch that the validation accepts has a mutation, no more operations than the limit, only
-- puts and deletes, each of them valid on its own, no key mutated twice, and mutations that weigh
-- no more than the limit of batch bytes.
pub validate_batch-Accepted :
    (b : Batch) (limits : Limits) → validate_batch b limits ≡ ok tt → Accepted b limits
validate_batch-Accepted b limits h =
    let (t, t', q, more, few) = inner_tally b limits h in
    let all = tallied limits 0 t b.mutations t' q in
    record {
      some_mutation = more;
      operations = few;
      known = all.known;
      distinct = all.distinct;
      valid = all.valid;
      fits = omega (arith, all.weighed, within_some limits t b.mutations t' more q);
    }
