-- ===== src/Engine/Apply.antt =====
-- internal/engine/writer.go: what a mutation writes to the log, and what it does to the records.
pub mod Records
use gapdb.Prelude.{ℕ, suc, Option, none, some, List, [], ◌∷◌, Bytes}
use gapdb.Prelude.Dict.{insert, delete}
use gapdb.Api.Types.{
  AckMode, MutationKind, ChangeKind, Record, Mutation, ChangeEvent, bytes_of, new_record,
}
use gapdb.Persist.Frames.{Effect}
use gapdb.Engine.State.{SingleOperation}

delete_effect : SingleOperation → Bytes → Effect
delete_effect SingleOperation.expiry key = record {
  kind = ChangeKind.expire;
  key = key;
  value = [];
  expires_at = none;
}
delete_effect _ key = record { kind = ChangeKind.delete; key = key; value = []; expires_at = none }

effect_by_kind : MutationKind → Mutation → SingleOperation → Effect
unfolding delete_effect
effect_by_kind MutationKind.delete m single = delete_effect single m.key
effect_by_kind _ m single = record {
  kind = ChangeKind.put;
  key = m.key;
  value = bytes_of m.value;
  expires_at = m.expires_at;
}

-- `effectFor`
unfoldable pub effect_for : Mutation → SingleOperation → Effect
unfolding effect_by_kind
effect_for m single = effect_by_kind m.kind m single

unfoldable pub effects_for : List Mutation → SingleOperation → List Effect
effects_for [] single = []
effects_for (m ∷ rest) single = effect_for m single ∷ effects_for rest single

abbrev removal_event : ℕ → ℕ → ChangeKind → Bytes → ChangeEvent
removal_event revision order kind key = record {
  revision = revision;
  order = order;
  kind = kind;
  key = key;
  record_after = none;
}

delete_event : SingleOperation → ℕ → ℕ → Bytes → ChangeEvent
delete_event SingleOperation.expiry revision order key =
    removal_event revision order ChangeKind.expire key
delete_event _ revision order key = removal_event revision order ChangeKind.delete key

abbrev Records : Type 0
Records = List (Bytes × Record)

apply_by_kind : MutationKind → ℕ → ℕ → Mutation → SingleOperation → Records → Records × ChangeEvent
unfolding delete_event
apply_by_kind MutationKind.delete revision order m single records =
    (delete m.key records, delete_event single revision order m.key)
apply_by_kind _ revision order m single records =
    let r = new_record m.key m.value revision m.expires_at in
    (
      insert m.key r records,
      record {
        revision = revision;
        order = order;
        kind = ChangeKind.put;
        key = m.key;
        record_after = some r;
      },
    )

-- `apply`
unfoldable pub apply : ℕ → ℕ → Mutation → SingleOperation → Records → Records × ChangeEvent
unfolding apply_by_kind
apply revision order m single records = apply_by_kind m.kind revision order m single records

-- The loop that applies a batch, from `order` on.
unfoldable pub apply_all :
    ℕ → ℕ → List Mutation → SingleOperation → Records → Records × List ChangeEvent
apply_all revision order [] single records = (records, [])
apply_all revision order (m ∷ rest) single records =
    let (records', event) = apply revision order m single records in
    let (records'', events) = apply_all revision (suc order) rest single records' in
    (records'', event ∷ events)
