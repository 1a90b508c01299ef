-- ===== src/Api/Validate.antt =====
-- gapdb/types.go: the validation of keys, conditions, mutations, assertions and whole batches.

pub mod Accepts
use gapdb.Prelude.{
  ℕ, zero, suc, ◌+◌, ◌-◌, ◌||◌, ◌&&◌, not, Bool, true, false, Option, none, some, List, [], ◌∷◌,
  Bytes, length, take, ltb, leb, ◌==◌, if◌then◌else◌, utf8_valid,
}
use gapdb.Prelude.Int.{ltb_ℤ}
use gapdb.Prelude.Dict.{lookup, insert}
use gapdb.Api.Errors.{
  Error, ConditionKind, DuplicateFailure, Result, ok, err, ◌>>=◌, ◌>>◌, reject, invalid_request,
  key_too_large, value_too_large, batch_too_large, too_many_operations, duplicate_key,
  expiry_not_future,
}
use gapdb.Api.Types.{
  Instant, AckMode, MutationKind, Record, Condition, Mutation, Assertion, Batch, ack_valid,
  bytes_of,
}
use gapdb.Api.Options.{Limits}

abbrev pub is_empty : Bytes → Bool
is_empty [] = true
is_empty (b ∷ bs) = false

abbrev pub is_some {ℓ} : {A : Type ℓ} → Option A → Bool
is_some none = false
is_some (some a) = true

unfoldable pub validate_key : Bytes → Limits → Result (Unit {0})
validate_key key limits = do
  reject (is_empty key) (invalid_request "key" "must not be empty")
  reject (not (utf8_valid key)) (invalid_request "key" "must be valid UTF-8")
  reject (ltb limits.max_key_bytes (length key)) (key_too_large (length key) limits.max_key_bytes)

validate_condition_kind : ConditionKind → ℕ → Result (Unit {0})
validate_condition_kind ConditionKind.any expected =
    reject (not (expected == 0))
      (invalid_request "condition.expected_revision" "is valid only for revision conditions")
validate_condition_kind ConditionKind.absent expected =
    reject (not (expected == 0))
      (invalid_request "condition.expected_revision" "is valid only for revision conditions")
validate_condition_kind ConditionKind.revision expected =
    reject (expected == 0)
      (invalid_request "condition.expected_revision" "must be greater than zero")
validate_condition_kind ConditionKind.unknown expected =
    err (invalid_request "condition.kind" "must be any, absent, or revision")

-- `Condition.Validate`
unfoldable pub validate_condition : Condition → Result (Unit {0})
unfolding validate_condition_kind
validate_condition c = validate_condition_kind c.kind c.expected_revision

validate_assertion_kind : ConditionKind → ℕ → Result (Unit {0})
validate_assertion_kind ConditionKind.absent expected =
    reject (not (expected == 0))
      (invalid_request "condition.expected_revision" "is valid only for revision assertions")
validate_assertion_kind ConditionKind.revision expected =
    reject (expected == 0)
      (invalid_request "condition.expected_revision" "must be greater than zero")
validate_assertion_kind _ expected =
    err (invalid_request "condition.kind" "assertions require absent or revision")

-- `Assertion.Validate`
unfoldable pub validate_assertion : Assertion → Limits → Result (Unit {0})
unfolding validate_assertion_kind
validate_assertion a limits = do
  validate_key a.key limits
  validate_assertion_kind a.condition.kind a.condition.expected_revision

is_revision : ConditionKind → Bool
is_revision ConditionKind.revision = true
is_revision _ = false

pub validate_mutation_kind : MutationKind → Mutation → Limits → Result (Unit {0})
unfolding is_revision
validate_mutation_kind MutationKind.put m limits =
    reject (ltb limits.max_value_bytes (length (bytes_of m.value)))
      (value_too_large (length (bytes_of m.value)) limits.max_value_bytes)
validate_mutation_kind MutationKind.delete m limits = do
  reject (not (is_revision m.condition.kind))
      (invalid_request "condition.kind" "delete requires a revision condition")
  reject (is_some m.value || is_some m.expires_at)
      (invalid_request "mutation" "delete cannot carry a value or expiry")
validate_mutation_kind MutationKind.unknown m limits =
    err (invalid_request "mutation.kind" "must be put or delete")

-- `Mutation.Validate`
unfoldable pub validate_mutation : Mutation → Limits → Result (Unit {0})
unfolding validate_mutation_kind
validate_mutation m limits = do
  validate_key m.key limits
  validate_condition m.condition
  validate_mutation_kind m.kind m limits

check_future : Option Instant → Instant → Result (Unit {0})
check_future none now = ok tt
check_future (some at) now = reject (not (ltb_ℤ now at)) (expiry_not_future at now)

-- `Mutation.ValidateAt`
unfoldable pub validate_mutation_at : Mutation → Limits → Instant → Result (Unit {0})
unfolding check_future
validate_mutation_at m limits now = do validate_mutation m limits; check_future m.expires_at now

-- The loop `for end > 0 && !utf8.ValidString(key[:end]) { end-- }`.
shrink : ℕ → Bytes → Bytes
shrink zero key = []
shrink (suc end) key = elim (utf8_valid (take (suc end) key)) [
  | true ↦ take (suc end) key
  | false ↦ shrink end key
]

abbrev pub max_diagnostic_key_bytes : ℕ
max_diagnostic_key_bytes = 256

-- `diagnosticKey` of gapdb/types.go, and `boundedPredicateKey` of the writer
unfoldable pub diagnostic_key : Bytes → Bytes
unfolding shrink
diagnostic_key key =
    if leb (length key) max_diagnostic_key_bytes then key else shrink max_diagnostic_key_bytes key

abbrev pub batch_base_bytes : ℕ
batch_base_bytes = 32

abbrev pub batch_operation_bytes : ℕ
batch_operation_bytes = 20

-- The value type of the map `seen`.
pub record BatchKey : Type 0 where
  pub assertion : Bool
  pub index : ℕ

abbrev pub Seen : Type 0
Seen = List (Bytes × BatchKey)

-- What a loop of `Batch.Validate` carries: the keys seen, and the bytes counted.
pub record Tally : Type 0 where
  pub seen : Seen
  pub approximate_bytes : ℕ

pub assertion_duplicate : Bytes → ℕ → Option BatchKey → Result (Unit {0})
assertion_duplicate key i none = ok tt
assertion_duplicate key i (some first) = err (
    duplicate_key (record {
      key = diagnostic_key key;
      assertion_index = some i;
      mutation_index = if first.assertion then none else some first.index;
      mutation_indexes = [];
    }))

pub mutation_duplicate : Bytes → ℕ → Option BatchKey → Result (Unit {0})
mutation_duplicate key i none = ok tt
mutation_duplicate key i (some first) = err (
    duplicate_key (record {
      key = diagnostic_key key;
      assertion_index = if first.assertion then some first.index else none;
      mutation_index = some i;
      mutation_indexes = if first.assertion then [] else first.index ∷ i ∷ [];
    }))

-- The test on the bytes counted so far, and the sum.
pub add_bytes : Limits → ℕ → ℕ → Result ℕ
add_bytes limits used addition = do
  reject (ltb limits.max_batch_bytes used || ltb (limits.max_batch_bytes - used) addition)
      (batch_too_large (used + addition) limits.max_batch_bytes)
  ok (used + addition)

pub tally_assertions : Limits → ℕ → Tally → List Assertion → Result Tally
unfolding assertion_duplicate add_bytes
tally_assertions limits i t [] = ok t
tally_assertions limits i t (a ∷ rest) = do
  assertion_duplicate a.key i (lookup a.key t.seen)
  validate_assertion a limits
  used ← add_bytes limits t.approximate_bytes (batch_operation_bytes + length a.key)
  let entry : BatchKey = record { assertion = true; index = i }
  tally_assertions limits (suc i)
      (record { seen = insert a.key entry t.seen; approximate_bytes = used }) rest

pub tally_mutations : Limits → ℕ → Tally → List Mutation → Result Tally
unfolding mutation_duplicate add_bytes
tally_mutations limits i t [] = ok t
tally_mutations limits i t (m ∷ rest) = do
  mutation_duplicate m.key i (lookup m.key t.seen)
  validate_mutation m limits
  used ←
      add_bytes limits t.approximate_bytes
        (batch_operation_bytes + length m.key + length (bytes_of m.value))
  let entry : BatchKey = record { assertion = false; index = i }
  tally_mutations limits (suc i)
      (record { seen = insert m.key entry t.seen; approximate_bytes = used }) rest

-- `Batch.Validate`
unfoldable pub validate_batch : Batch → Limits → Result (Unit {0})
unfolding tally_assertions tally_mutations
validate_batch b limits = do
  let operation_count = length b.assertions + length b.mutations
  reject (not (ack_valid b.ack)) (invalid_request "ack" "must be memory or durable")
  reject (length b.mutations == 0)
      (invalid_request "mutations" "must contain at least one mutation")
  reject
      (ltb operation_count (length b.assertions) || ltb limits.max_batch_operations operation_count)
      (too_many_operations operation_count limits.max_batch_operations)
  t ←
      tally_assertions limits 0 (record { seen = []; approximate_bytes = batch_base_bytes })
        b.assertions
  _ ← tally_mutations limits 0 t b.mutations
  ok tt

validate_mutations_at : Limits → Instant → List Mutation → Result (Unit {0})
validate_mutations_at limits now [] = ok tt
validate_mutations_at limits now (m ∷ rest) = do
  validate_mutation_at m limits now
  validate_mutations_at limits now rest

-- `Batch.ValidateAt`
unfoldable pub validate_batch_at : Batch → Limits → Instant → Result (Unit {0})
unfolding validate_mutations_at
validate_batch_at b limits now = do
  validate_batch b limits
  validate_mutations_at limits now b.mutations
