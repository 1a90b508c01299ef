-- ===== src/Api/Errors.antt =====
-- gapdb/types.go: the structured error, with a constructor for each way that the engine and the
-- storage code fill it in. Message, retry class and safe actions go with the code, and are left out,
-- as are the names of files and the cause that an operating system gives.
use Prim.Native.String.{String}
use gapdb.Prelude.{ℕ, Bool, true, false, Option, List, Bytes, ◌≡◌, refl, ◌⊎◌, inl, inr}
use gapdb.Prelude.Int.{ℤ}

-- `LifecycleState`
pub data Lifecycle : Type 0 where
  ready degraded_read_only draining inspection_only : Lifecycle

-- `ConditionKind`; `unknown` stands for every other text.
pub data ConditionKind : Type 0 where
  any absent revision unknown : ConditionKind

-- The `FailedStage` of a storage error; `no_stage` is the empty text.
pub data Stage : Type 0 where
  no_stage writer_disabled wal_append wal_durability_evidence wal_barrier : Stage
  wal_barrier_evidence map_apply wal_unavailable wal_frame_write wal_buffer_flush : Stage
  wal_file_sync snapshot_wal_barrier snapshot_wal_barrier_evidence snapshot_new_wal_evidence : Stage
  admin_wal_barrier admin_wal_barrier_evidence : Stage

-- The fields that a failed predicate of a batch reports; `actual` is none where the text
-- `ActualState` is "absent".
pub record PredicateFailure : Type 0 where
  pub key : Bytes
  pub assertion_index : Option ℕ
  pub mutation_index : Option ℕ
  pub condition : ConditionKind
  pub expected : Option ℕ
  pub actual : Option ℕ

-- The fields of a duplicate key.
pub record DuplicateFailure : Type 0 where
  pub key : Bytes
  pub assertion_index : Option ℕ
  pub mutation_index : Option ℕ
  pub mutation_indexes : List ℕ

pub data Error : Type 0 where
  invalid_request : (field reason : String) → Error
  key_too_large value_too_large batch_too_large : (received maximum : ℕ) → Error
  too_many_operations frame_too_large : (received maximum : ℕ) → Error
  duplicate_key : DuplicateFailure → Error
  expiry_not_future : (supplied effective : ℤ) → Error
  invalid_cursor : String → Error
  not_found : (key : Bytes) (current : ℕ) → Error
  already_exists : (key : Bytes) (actual : ℕ) → Error
  revision_mismatch : (key : Bytes) (expected actual : ℕ) → Error
  condition_failed : PredicateFailure → Error
  scan_stale : (cursor current : ℕ) → Error
  revision_ahead : (requested current : ℕ) → Error
  revision_compacted : (requested earliest : ℕ) → Error
  watch_lagged : (last current : ℕ) → Error
  server_busy : (active maximum depth : ℕ) → Error
  server_shutting_down : Lifecycle → Error
  storage_degraded : Stage → (current durable : ℕ) (applied : Bool) → Error
  revision_range_exhausted : (reserved_end : ℕ) → Error
  internal : (correlation : String) (applied : Bool) → Error
  corrupt_wal : (reason : String) (offset : ℕ) → Error
  unknown_format : (version : ℕ) → Error
  database_id_mismatch : (expected found : Bytes) → Error
  corrupt_identity corrupt_manifest : (reason : String) → Error
  corrupt_snapshot : (reason : String) (offset : ℕ) → Error
  invalid_protocol : (field reason : String) → Error
  io_error : (operation : String) (applied : Bool) → Error
  audit_failed_after_apply : (operation reason : String) (current : ℕ) → Error
  -- The same error with `OperationApplied` set.
  after_apply : Error → Error

-- `OperationApplied`
unfoldable pub operation_applied : Error → Bool
operation_applied (storage_degraded stage current durable applied) = applied
operation_applied (internal correlation applied) = applied
operation_applied (io_error operation applied) = applied
operation_applied (audit_failed_after_apply operation reason current) = true
operation_applied (after_apply e) = true
operation_applied _ = false

-- What a Go function returns that ends in `error`: the error, or the value beside a nil error.
pub data Result {ℓ} (X : Type ℓ) : Type ℓ where
  err : Error → Result X
  ok : X → Result X

module _ {ℓ κ} {X : Type ℓ} {Y : Type κ} where
  infixl 5 ◌>>=◌
  -- `if err != nil { return …, err }`
  abbrev pub ◌>>=◌ : Result X → (X → Result Y) → Result Y
  err failure >>= next = err failure
  ok x >>= next = next x

  -- A chain that succeeds has a first part that succeeds.
  pub >>=-eq-ok :
      (first : Result X) (next : X → Result Y) {b : Y}
      → (first >>= next) ≡ ok b
      → (x : X) × (first ≡ ok x) × (next x ≡ ok b)
  >>=-eq-ok (err failure) next q = cc
  >>=-eq-ok (ok x) next q = (x, refl, q)

infixl 5 ◌>>◌
-- The same where the first part only checks.
abbrev pub ◌>>◌ {ℓ} : {Y : Type ℓ} → Result (Unit {0}) → Result Y → Result Y
check >> next = check >>= λ _. next

-- `if test { return err }`
abbrev pub reject : Bool → Error → Result (Unit {0})
reject true e = err e
reject false e = ok tt

pub Result-cases {ℓ} :
    {A : Type ℓ} (r : Result A) → ((a : A) × (r ≡ ok a)) ⊎ ((e : Error) × (r ≡ err e))
Result-cases (ok a) = inl (a, refl)
Result-cases (err e) = inr (e, refl)
