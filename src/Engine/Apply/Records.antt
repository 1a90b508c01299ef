-- ===== src/Engine/Apply/Records.antt =====
-- The records that a batch leaves, key by key, and the keys among them.
use gapdb.Prelude.{
  ℕ, suc, ◌≤◌, Option, none, some, List, [], ◌∷◌, Bytes, ◌≡◌, refl, arith, key_eq, if◌then◌else◌,
}
use gapdb.Prelude.Dict.{lookup, lookup-insert, lookup-delete}
use gapdb.Api.Types.{Record, Mutation, new_record}
use gapdb.Api.Validate.{is_some}
use gapdb.Engine.OrderedKeys.{is_delete}
use gapdb.Engine.OrderedKeys.Delta.{present_after}
use gapdb.Engine.State.{SingleOperation}
use gapdb.Engine.Apply.{apply, apply_all}

-- What a mutation leaves under its key.
abbrev pub outcome : ℕ → Mutation → Option Record
outcome revision m =
    if is_delete m.kind then none else some (new_record m.key m.value revision m.expires_at)

-- What a batch leaves under the key `k`, where `o` was.
unfoldable pub record_after : ℕ → Bytes → List Mutation → Option Record → Option Record
record_after revision k [] o = o
record_after revision k (m ∷ rest) o =
    record_after revision k rest (if key_eq m.key k then outcome revision m else o)

lookup-apply :
    (revision order : ℕ) (m : Mutation) (single : SingleOperation) (records : List (Bytes × Record))
    (k : Bytes)
    → lookup k (apply revision order m single records).0
      ≡ (if key_eq m.key k then outcome revision m else lookup k records)
unfolding apply
lookup-apply revision order m single records k = ground (
  arith,
  lookup-delete m.key k records,
  lookup-insert m.key k (new_record m.key m.value revision m.expires_at) records,
)

-- After the mutations of a batch are applied in order, a key has the record, or the absence, that
-- the last mutation of that key says, or what it had if none mutates it.
pub lookup-apply_all :
    (revision order : ℕ) (ms : List Mutation) (single : SingleOperation)
    (records : List (Bytes × Record)) (k : Bytes)
    → lookup k (apply_all revision order ms single records).0
      ≡ record_after revision k ms (lookup k records)
unfolding apply_all record_after
lookup-apply_all revision order [] single records k = refl
lookup-apply_all revision order (m ∷ rest) single records k =
    let records' = (apply revision order m single records).0 in
    ground (
      arith,
      lookup-apply_all revision (suc order) rest single records' k,
      lookup-apply revision order m single records k,
    )

-- A key has a record after the batch exactly if the index plan keeps it.
pub is_some-record_after :
    (revision : ℕ) (k : Bytes) (ms : List Mutation) (o : Option Record)
    → is_some (record_after revision k ms o) ≡ present_after k ms (is_some o)
unfolding record_after present_after
is_some-record_after revision k [] o = refl
is_some-record_after revision k (m ∷ rest) o =
    ground (
      arith,
      is_some-record_after revision k rest (if key_eq m.key k then outcome revision m else o),
    )

-- A record that the batch leaves is one that it found, or carries its revision.
pub record_after-revision :
    (current revision : ℕ) (k : Bytes) (ms : List Mutation) (o : Option Record) (r : Record)
    → current ≤ revision
    → ((r' : Record) → o ≡ some r' → r'.revision ≤ current)
    → record_after revision k ms o ≡ some r
    → r.revision ≤ revision
unfolding record_after
record_after-revision current revision k [] o r le old q = ground (arith, old r)
record_after-revision current revision k (m ∷ rest) o r le old q =
    record_after-revision revision revision k rest
      (if key_eq m.key k then outcome revision m else o) r (omega arith)
      (λ r' h. ground (arith, old r')) q
