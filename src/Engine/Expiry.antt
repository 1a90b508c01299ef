-- ===== src/Engine/Expiry.antt =====
-- internal/engine/expiry.go: the queue of expiry candidates. The heap is the list of its items in
-- the order of `Less`, so that its first item is the one that container/heap keeps at index 0, and
-- `Push`, `Fix` and `Remove` insert and take out. `expiryByKey` points to the items of the heap,
-- one for each key, and is read off the list.
use gapdb.Prelude.{
  ℕ, ◌+◌, ◌&&◌, ◌||◌, not, Bool, false, Option, none, some, List, [], ◌∷◌, ◌++◌, Bytes, length, ltb,
  leb, ◌==◌, if◌then◌else◌, key_eq, key_lt,
}
use gapdb.Prelude.Int.{ltb_ℤ, eq_ℤ}
use gapdb.Prelude.Dict.{lookup}
use gapdb.Prelude.Sorted.{has}
use gapdb.Api.Types.{
  Instant, Record, AckMode, Mutation, Batch, ChangeEvent, ChangeKind, new_delete_mutation,
}
use gapdb.Api.Options.{Limits}
use gapdb.Engine.Clock.{is_expired}

pub record ExpiryCandidate : Type 0 where
  pub at : Instant
  pub key : Bytes
  pub revision : ℕ

-- `Less`
unfoldable pub less : ExpiryCandidate → ExpiryCandidate → Bool
less c d =
    if eq_ℤ c.at d.at
    then if key_eq c.key d.key then ltb c.revision d.revision else key_lt c.key d.key
    else ltb_ℤ c.at d.at

-- `heap.Push`
unfoldable pub push : ExpiryCandidate → List ExpiryCandidate → List ExpiryCandidate
push c [] = c ∷ []
push c (d ∷ ds) = if less d c then d ∷ push c ds else c ∷ d ∷ ds

-- `removeScheduledExpiry`
unfoldable remove_scheduled_expiry : Bytes → List ExpiryCandidate → List ExpiryCandidate
remove_scheduled_expiry key [] = []
remove_scheduled_expiry key (c ∷ rest) =
    if key_eq c.key key then rest else c ∷ remove_scheduled_expiry key rest

schedule_at : Option Instant → Record → List ExpiryCandidate → List ExpiryCandidate
unfolding remove_scheduled_expiry push
schedule_at none r queue = remove_scheduled_expiry r.key queue
schedule_at (some at) r queue =
    push (record { at = at; key = r.key; revision = r.revision })
      (remove_scheduled_expiry r.key queue)

-- `scheduleRecordExpiry`
unfoldable pub schedule_record_expiry : Record → List ExpiryCandidate → List ExpiryCandidate
unfolding schedule_at
schedule_record_expiry r queue = schedule_at r.expires_at r queue

expires_by : Option Instant → Instant → Bool
expires_by none now = false
expires_by (some at) now = is_expired at now

-- `recordExpired`
unfoldable pub record_expired : Record → Instant → Bool
unfolding expires_by is_expired
record_expired r now = expires_by r.expires_at now

expires_at_is : Option Instant → Instant → Bool
expires_at_is none at = false
expires_at_is (some t) at = eq_ℤ t at

-- The candidate still stands for the record of its key, and that is expired.
is_due : Instant → ExpiryCandidate → Option Record → Bool
unfolding expires_at_is
is_due now c none = false
is_due now c (some r) =
    (r.revision == c.revision) && expires_at_is r.expires_at c.at && record_expired r now

-- What the loop of `executeDueExpiries` carries.
pub record Collected : Type 0 where
  pub due : List ExpiryCandidate
  pub encoded_bytes : ℕ
  pub queue : List ExpiryCandidate

abbrev pub candidate_keys : List ExpiryCandidate → List Bytes
candidate_keys [] = []
candidate_keys (c ∷ rest) = c.key ∷ candidate_keys rest

-- The loop, over the queue that is left; `due` is in the order of collection.
unfoldable pub collect :
    Limits
    → ℕ
    → List (Bytes × Record)
    → Instant
    → List ExpiryCandidate
    → ℕ
    → List ExpiryCandidate
    → Collected
unfolding is_due
collect limits maximum records now due used [] = record {
  due = due;
  encoded_bytes = used;
  queue = [];
}
collect limits maximum records now due used (c ∷ rest) =
    let stop : Collected = record { due = due; encoded_bytes = used; queue = c ∷ rest } in
    let item_bytes = 20 + length c.key in
    let skip = collect limits maximum records now due used rest in
    let taken = collect limits maximum records now (due ++ (c ∷ [])) (used + item_bytes) rest in
    if leb limits.max_batch_operations (length due) || ltb_ℤ now c.at
    then stop
    else if not (is_due now c (lookup c.key records)) || has c.key (candidate_keys due)
    then skip
    else if ltb maximum (used + item_bytes)
    then stop
    else taken

insert_by_key : ExpiryCandidate → List ExpiryCandidate → List ExpiryCandidate
insert_by_key c [] = c ∷ []
insert_by_key c (d ∷ ds) = if key_lt d.key c.key then d ∷ insert_by_key c ds else c ∷ d ∷ ds

-- `sort.Slice(due, …)` by key
unfoldable pub sort_by_key : List ExpiryCandidate → List ExpiryCandidate
unfolding insert_by_key
sort_by_key [] = []
sort_by_key (c ∷ cs) = insert_by_key c (sort_by_key cs)

unfoldable pub delete_mutations : List ExpiryCandidate → List Mutation
delete_mutations [] = []
delete_mutations (c ∷ rest) = new_delete_mutation c.key c.revision ∷ delete_mutations rest

abbrev pub expiry_batch : List ExpiryCandidate → Batch
expiry_batch due = record {
  ack = AckMode.durable;
  assertions = [];
  mutations = delete_mutations (sort_by_key due);
}

reschedule_one :
    ChangeKind → ChangeEvent → Option Record → List ExpiryCandidate → List ExpiryCandidate
unfolding schedule_record_expiry remove_scheduled_expiry
reschedule_one ChangeKind.put event (some r) queue = schedule_record_expiry r queue
reschedule_one ChangeKind.put event none queue = remove_scheduled_expiry event.key queue
reschedule_one _ event r queue = remove_scheduled_expiry event.key queue

-- The loop of `afterCommit`
unfoldable pub reschedule : List ChangeEvent → List ExpiryCandidate → List ExpiryCandidate
unfolding reschedule_one
reschedule [] queue = queue
reschedule (event ∷ rest) queue =
    reschedule rest (reschedule_one event.kind event event.record_after queue)
