-- ===== src/Engine/Admission.antt =====
-- internal/engine/mutation.go: the checks on a batch that need no state.
use gapdb.Prelude.{
  ℕ, ◌+◌, ◌-◌, ◌^◌, ◌||◌, not, Bool, Option, none, some, List, [], ◌∷◌, Bytes, length, ltb,
  if◌then◌else◌,
}
use gapdb.Prelude.Int.{eq_ℤ, to_uint64, of_uint64}
use gapdb.Api.Errors.{
  ConditionKind, Result, ok, ◌>>=◌, ◌>>◌, reject, invalid_request, batch_too_large,
}
use gapdb.Api.Types.{
  Instant, AckMode, Condition, Mutation, Batch, bytes_of, new_put_mutation, new_delete_mutation,
}
use gapdb.Api.Options.{Limits}
use gapdb.Api.Validate.{validate_batch_at}
use gapdb.Engine.State.{SingleOperation}

-- `expiryRepresentable`: the instant survives the way through int64 nanoseconds.
unfoldable pub expiry_representable : Instant → Bool
expiry_representable t = eq_ℤ (of_uint64 (to_uint64 t)) t

check_representable : Option Instant → Result (Unit {0})
unfolding expiry_representable
check_representable none = ok tt
check_representable (some t) =
    reject (not (expiry_representable t))
      (invalid_request "expires_at" "must be representable as signed Unix nanoseconds")

-- The smaller of the two byte limits.
abbrev pub frame_maximum : Limits → ℕ
frame_maximum limits =
    if ltb limits.max_frame_bytes limits.max_batch_bytes
    then limits.max_frame_bytes
    else limits.max_batch_bytes

-- The loop of `validateBatchAt`, from the total so far.
sum_mutations : ℕ → ℕ → List Mutation → Result ℕ
unfolding check_representable
sum_mutations maximum total [] = ok total
sum_mutations maximum total (m ∷ rest) = do
  let addition = 20 + length m.key + length (bytes_of m.value)
  check_representable m.expires_at
  reject (ltb (2 ^ 64 - 1 - total) addition) (batch_too_large (2 ^ 63 - 1) maximum)
  sum_mutations maximum (total + addition) rest

-- `validateBatchAt`
unfoldable pub admit_batch_at : Batch → Limits → Instant → Result (Unit {0})
unfolding sum_mutations
admit_batch_at b limits now = do
  validate_batch_at b limits now
  total ← sum_mutations (frame_maximum limits) 32 b.mutations
  reject (ltb (frame_maximum limits) total || ltb (2 ^ 32 - 1) total) (
      batch_too_large (if ltb (2 ^ 63 - 1) total then 2 ^ 63 - 1 else total) (frame_maximum limits))

-- The calls of the public interface, as the batch and the operation that they submit.
pub data Request : Type 0 where
  put : Bytes → Option Bytes → Option Instant → AckMode → Request
  put_if_absent : Bytes → Option Bytes → Option Instant → AckMode → Request
  compare_and_swap : Bytes → ℕ → Option Bytes → Option Instant → AckMode → Request
  delete_if_revision : Bytes → ℕ → AckMode → Request
  atomic_batch : Batch → Request

abbrev single_batch : AckMode → Mutation → Batch
single_batch ack m = record { ack = ack; assertions = []; mutations = m ∷ [] }

abbrev condition_of : ConditionKind → ℕ → Condition
condition_of kind expected = record { kind = kind; expected_revision = expected }

-- `Put`, `PutIfAbsent`, `CompareAndSwap`, `DeleteIfRevision` and `AtomicBatch`
unfoldable pub request_batch : Request → Batch × SingleOperation
request_batch (put key value at ack) = (
  single_batch ack (new_put_mutation key value (condition_of ConditionKind.any 0) at),
  SingleOperation.put,
)
request_batch (put_if_absent key value at ack) = (
  single_batch ack (new_put_mutation key value (condition_of ConditionKind.absent 0) at),
  SingleOperation.put_if_absent,
)
request_batch (compare_and_swap key expected value at ack) = (
  single_batch ack (new_put_mutation key value (condition_of ConditionKind.revision expected) at),
  SingleOperation.compare_and_swap,
)
request_batch (delete_if_revision key expected ack) =
    (single_batch ack (new_delete_mutation key expected), SingleOperation.delete_if_revision)
request_batch (atomic_batch b) = (b, SingleOperation.batch)
