-- ===== src/Api/Types.antt =====
-- gapdb/types.go: records, conditions, mutations, batches and change events. A string and a byte
-- slice are lists of bytes, an instant is a signed number of nanoseconds since 1970. Values are
-- immutable here, so the `Clone` methods have nothing to do.
use gapdb.Prelude.{ℕ, Bool, true, false, Option, none, some, List, [], ◌∷◌, Bytes, All, ◌≢◌}
use gapdb.Prelude.Int.{ℤ}
use gapdb.Api.Errors.{ConditionKind}

abbrev pub Instant : Type 0
Instant = ℤ

pub data AckMode : Type 0 where
  memory durable unknown : AckMode

pub data MutationKind : Type 0 where
  put delete unknown : MutationKind

pub data ChangeKind : Type 0 where
  put delete expire unknown : ChangeKind

pub record Record : Type 0 where
  pub key : Bytes
  pub value : Bytes
  pub revision : ℕ
  pub expires_at : Option Instant

pub record Condition : Type 0 where
  pub kind : ConditionKind
  pub expected_revision : ℕ

-- `value` is none where the Go slice is nil.
pub record Mutation : Type 0 where
  pub kind : MutationKind
  pub key : Bytes
  pub condition : Condition
  pub value : Option Bytes
  pub expires_at : Option Instant

pub record Assertion : Type 0 where
  pub key : Bytes
  pub condition : Condition

pub record Batch : Type 0 where
  pub ack : AckMode
  pub assertions : List Assertion
  pub mutations : List Mutation

pub record ChangeEvent : Type 0 where
  pub revision : ℕ
  pub order : ℕ
  pub kind : ChangeKind
  pub key : Bytes
  pub record_after : Option Record

pub record MutationResult : Type 0 where
  pub revision : ℕ
  pub ack : AckMode
  pub durable_through_revision : ℕ
  pub mutation_count : ℕ
  pub assertion_count : ℕ

pub record ReadManyEntry : Type 0 where
  pub key : Bytes
  pub found : Bool
  pub entry : Option Record

pub record ReadManyResult : Type 0 where
  pub observed_revision : ℕ
  pub as_of : Instant
  pub entries : List ReadManyEntry

-- `append([]byte{}, value...)`: nil becomes empty.
abbrev pub bytes_of : Option Bytes → Bytes
bytes_of none = []
bytes_of (some b) = b

abbrev pub new_record : Bytes → Option Bytes → ℕ → Option Instant → Record
new_record key value revision expires_at = record {
  key = key;
  value = bytes_of value;
  revision = revision;
  expires_at = expires_at;
}

abbrev pub new_put_mutation : Bytes → Option Bytes → Condition → Option Instant → Mutation
new_put_mutation key value condition expires_at = record {
  kind = MutationKind.put;
  key = key;
  condition = condition;
  value = some (bytes_of value);
  expires_at = expires_at;
}

abbrev pub new_delete_mutation : Bytes → ℕ → Mutation
new_delete_mutation key expected = record {
  kind = MutationKind.delete;
  key = key;
  condition = record { kind = ConditionKind.revision; expected_revision = expected };
  value = none;
  expires_at = none;
}

-- `AckMode.Valid`
abbrev pub ack_valid : AckMode → Bool
ack_valid AckMode.memory = true
ack_valid AckMode.durable = true
ack_valid AckMode.unknown = false

abbrev pub keys_of : List Mutation → List Bytes
keys_of [] = []
keys_of (m ∷ rest) = m.key ∷ keys_of rest

-- Every mutation is a put or a delete.
abbrev pub IsKnown : List Mutation → Type 0
IsKnown = All (λ m. m.kind ≢ MutationKind.unknown)
