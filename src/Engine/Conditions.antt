-- ===== src/Engine/Conditions.antt =====
-- internal/engine/writer.go: the predicates of a batch, against a record of the store. A missing
-- record is Go's zero value, with revision 0.
use gapdb.Prelude.{
  ℕ, suc, ◌&&◌, not, Bool, true, false, Option, none, some, List, [], ◌∷◌, Bytes, ◌==◌,
  if◌then◌else◌,
}
use gapdb.Prelude.Dict.{lookup}
use gapdb.Api.Errors.{
  Error, ConditionKind, Result, ok, err, ◌>>◌, invalid_request, not_found, already_exists,
  revision_mismatch, condition_failed,
}
use gapdb.Api.Types.{Instant, Record, Mutation, Assertion}
use gapdb.Api.Validate.{diagnostic_key}
use gapdb.Engine.Expiry.{record_expired}
use gapdb.Engine.State.{SingleOperation}

abbrev pub revision_of : Option Record → ℕ
revision_of none = 0
revision_of (some r) = r.revision

-- `exists && !recordExpired(record, now)`
unfoldable pub is_live : Option Record → Instant → Bool
is_live none now = false
is_live (some r) now = not (record_expired r now)

abbrev actual_of : Option Record → Bool → Option ℕ
actual_of r live = if live then some (revision_of r) else none

-- `batchConditionError`
unfoldable pub batch_condition_error : Mutation → Option Record → Bool → ℕ → Error
batch_condition_error m r live index = condition_failed (record {
  key = m.key;
  assertion_index = none;
  mutation_index = some index;
  condition = m.condition.kind;
  expected = none;
  actual = actual_of r live;
})

abbrev is_expiry : SingleOperation → Bool
is_expiry SingleOperation.expiry = true
is_expiry _ = false

abbrev is_condition_revision : ConditionKind → Bool
is_condition_revision ConditionKind.revision = true
is_condition_revision _ = false

absent_refusal : SingleOperation → Mutation → Option Record → Bool → ℕ → Error
unfolding batch_condition_error
absent_refusal SingleOperation.put_if_absent m r live index = already_exists m.key (revision_of r)
absent_refusal _ m r live index = batch_condition_error m r live index

exact_refusal : Mutation → Option Record → Bool → ℕ → Error
exact_refusal m r live current =
    if not live
    then not_found m.key current
    else revision_mismatch m.key m.condition.expected_revision (revision_of r)

revision_refusal : SingleOperation → Mutation → Option Record → Bool → ℕ → ℕ → Error
unfolding exact_refusal batch_condition_error
revision_refusal SingleOperation.compare_and_swap m r live current index =
    exact_refusal m r live current
revision_refusal SingleOperation.delete_if_revision m r live current index =
    exact_refusal m r live current
revision_refusal _ m r live current index = batch_condition_error m r live index

unfoldable pub by_kind :
    ConditionKind → SingleOperation → Mutation → Option Record → Bool → ℕ → ℕ → Result (Unit {0})
unfolding absent_refusal revision_refusal
by_kind ConditionKind.any single m r live current index = ok tt
by_kind ConditionKind.absent single m r live current index =
    if not live then ok tt else err (absent_refusal single m r live index)
by_kind ConditionKind.revision single m r live current index =
    if live && (revision_of r == m.condition.expected_revision)
    then ok tt
    else err (revision_refusal single m r live current index)
by_kind ConditionKind.unknown single m r live current index =
    err (invalid_request "condition.kind" "must be any, absent, or revision")

-- `conditionError`
unfoldable pub condition_error :
    Mutation → Option Record → Bool → ℕ → ℕ → SingleOperation → Result (Unit {0})
unfolding by_kind
condition_error m r live current index single =
    if is_expiry single
      && is_condition_revision m.condition.kind
      && (revision_of r == m.condition.expected_revision)
    then ok tt
    else by_kind m.condition.kind single m r live current index

assertion_failure : Assertion → Option Record → Bool → ℕ → Option ℕ → Error
assertion_failure a r live index expected = condition_failed (record {
  key = diagnostic_key a.key;
  assertion_index = some index;
  mutation_index = none;
  condition = a.condition.kind;
  expected = expected;
  actual = actual_of r live;
})

assert_by_kind : ConditionKind → Assertion → Option Record → Bool → ℕ → Result (Unit {0})
unfolding assertion_failure
assert_by_kind ConditionKind.absent a r live index =
    if not live then ok tt else err (assertion_failure a r live index none)
assert_by_kind ConditionKind.revision a r live index =
    if live && (revision_of r == a.condition.expected_revision)
    then ok tt
    else err (assertion_failure a r live index (some a.condition.expected_revision))
assert_by_kind _ a r live index =
    err (invalid_request "condition.kind" "assertions require absent or revision")

-- `assertionConditionError`
unfoldable pub assertion_condition_error : Assertion → Option Record → Bool → ℕ → Result (Unit {0})
unfolding assert_by_kind
assertion_condition_error a r live index = assert_by_kind a.condition.kind a r live index

-- The loop over the assertions, from `index` on.
unfoldable pub check_assertions :
    List (Bytes × Record) → Instant → ℕ → List Assertion → Result (Unit {0})
check_assertions records now index [] = ok tt
check_assertions records now index (a ∷ rest) = do
  let found = lookup a.key records
  assertion_condition_error a found (is_live found now) index
  check_assertions records now (suc index) rest

-- The loop over the mutations, from `index` on.
unfoldable pub check_mutations :
    List (Bytes × Record) → Instant → ℕ → SingleOperation → ℕ → List Mutation → Result (Unit {0})
check_mutations records now current single index [] = ok tt
check_mutations records now current single index (m ∷ rest) = do
  let found = lookup m.key records
  condition_error m found (is_live found now) current index single
  check_mutations records now current single (suc index) rest
