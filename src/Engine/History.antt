-- ===== src/Engine/History.antt =====
-- internal/engine/history.go: the bounded log of committed events that watches replay. The slices
-- of a Go value are lists, oldest commit first.
pub mod Retention
pub mod Replay
use gapdb.Prelude.{
  ℕ, ◌+◌, ◌-◌, ◌||◌, not, Bool, true, false, Option, none, some, List, [], ◌∷◌, ◌++◌, Bytes, length,
  ltb, leb, ◌==◌, if◌then◌else◌, has_prefix, keep, suc,
}
use gapdb.Api.Errors.{
  Error, Result, ok, err, ◌>>=◌, ◌>>◌, reject, invalid_request, revision_compacted, revision_ahead,
}
use gapdb.Api.Types.{ChangeEvent, ChangeKind, Record, Instant, new_record}
use gapdb.Api.Options.{Limits}
use gapdb.Engine.Prefix.{validate_prefix}
use gapdb.Persist.Frames.{CommitFrame, Effect}

pub record EventGroup : Type 0 where
  pub revision : ℕ
  pub events : List ChangeEvent
  pub bytes : ℕ

pub record HistoryLog : Type 0 where
  pub commits : List EventGroup
  pub event_count : ℕ
  pub byte_count : ℕ
  pub max_events : ℕ
  pub max_bytes : ℕ
  pub compacted_through : ℕ

-- `initialize`, on the zero value
unfoldable pub initialize : Limits → ℕ → HistoryLog
initialize limits snapshot_revision = record {
  commits = [];
  event_count = 0;
  byte_count = 0;
  max_events = limits.max_history_events;
  max_bytes = limits.max_history_bytes;
  compacted_through = snapshot_revision;
}

expiry_bytes : Option Instant → ℕ
expiry_bytes none = 0
expiry_bytes (some at) = 8

record_bytes : Option Record → ℕ
unfolding expiry_bytes
record_bytes none = 0
record_bytes (some r) = length r.key + length r.value + expiry_bytes r.expires_at

-- `historyEventBytes`
unfoldable pub history_event_bytes : ChangeEvent → ℕ
unfolding record_bytes
history_event_bytes event = 24 + length event.key + record_bytes event.record_after

unfoldable pub group_bytes : List ChangeEvent → ℕ
group_bytes [] = 0
group_bytes (event ∷ rest) = history_event_bytes event + group_bytes rest

-- The body of the eviction loop, on the counters.
abbrev pub without_oldest : HistoryLog → EventGroup → HistoryLog
without_oldest h evicted = record h {
  event_count = h.event_count - length evicted.events;
  byte_count = h.byte_count - evicted.bytes;
  compacted_through =
      if ltb h.compacted_through evicted.revision then evicted.revision else h.compacted_through;
}

-- The test of the eviction loop.
abbrev pub is_over : HistoryLog → Bool
is_over h = ltb h.max_events h.event_count || ltb h.max_bytes h.byte_count

-- The eviction loop of `append`, over the commits that are left.
evict : HistoryLog → List EventGroup → HistoryLog
evict h [] = record h { commits = [] }
evict h (g ∷ rest) =
    let fewer = evict (without_oldest h g) rest in
    if is_over h then fewer else record h { commits = g ∷ rest }

abbrev pub group_of : ChangeEvent → List ChangeEvent → EventGroup
group_of event rest = record {
  revision = event.revision;
  events = event ∷ rest;
  bytes = group_bytes (event ∷ rest);
}

-- `append`
unfoldable pub append : HistoryLog → List ChangeEvent → HistoryLog
unfolding evict
append h [] = h
append h (event ∷ rest) =
    let g = group_of event rest in
    evict
      (record h {
        event_count = h.event_count + length g.events;
        byte_count = h.byte_count + g.bytes;
      })
      (h.commits ++ (g ∷ []))

put_record : ChangeKind → Effect → ℕ → Option Record
put_record ChangeKind.put effect revision =
    some (new_record effect.key (some effect.value) revision effect.expires_at)
put_record _ effect revision = none

-- The events of a recovered commit, numbered from `order`.
unfoldable pub recovered_events : ℕ → ℕ → List Effect → List ChangeEvent
unfolding put_record
recovered_events revision order [] = []
recovered_events revision order (effect ∷ rest) =
    record {
      revision = revision;
      order = order;
      kind = effect.kind;
      key = effect.key;
      record_after = put_record effect.kind effect revision;
    }
    ∷ recovered_events revision (suc order) rest

unfoldable pub rebuild_from : ℕ → HistoryLog → List CommitFrame → ℕ → Result HistoryLog
rebuild_from previous h [] current = do
  reject (not (previous == current))
      (invalid_request "recovered_commits" "coverage ends at another revision than the current one")
  ok h
rebuild_from previous h (commit ∷ rest) current = do
  reject (leb commit.revision previous || ltb current commit.revision)
      (invalid_request "recovered_commits" "a revision is outside the recovery bounds")
  rebuild_from commit.revision (append h (recovered_events commit.revision 0 commit.effects)) rest
      current

-- `rebuild`
unfoldable pub rebuild : HistoryLog → List CommitFrame → ℕ → Result HistoryLog
unfolding rebuild_from
rebuild h commits current = rebuild_from h.compacted_through h commits current

-- `earliestAvailableLocked`
unfoldable pub earliest_available : List EventGroup → ℕ → ℕ
earliest_available [] compacted = compacted
earliest_available (g ∷ rest) compacted = g.revision

abbrev pub matching : Bytes → List ChangeEvent → List ChangeEvent
matching prefix = keep (λ event. has_prefix event.key prefix)

abbrev pub replayed : ℕ → List ChangeEvent → EventGroup
replayed revision events = record { revision = revision; events = events; bytes = 0 }

-- One round of the loop of `replayGroups`, in front of the groups of the later commits.
abbrev pub select : Bytes → EventGroup → List EventGroup → List EventGroup
select prefix g later = elim (matching prefix g.events) [
  | [] ↦ later
  | event ∷ rest ↦ replayed g.revision (event ∷ rest) ∷ later
]

-- The loop of `replayGroups`.
unfoldable pub select_groups : Bytes → ℕ → List EventGroup → List EventGroup
select_groups prefix after [] = []
select_groups prefix after (g ∷ rest) =
    let later = select_groups prefix after rest in
    if leb g.revision after then later else select prefix g later

-- `replayGroups`
unfoldable pub replay_groups : HistoryLog → Bytes → ℕ → Result (List EventGroup)
unfolding select_groups
replay_groups h prefix after = do
  reject (ltb after h.compacted_through)
      (revision_compacted after (earliest_available h.commits h.compacted_through))
  ok (select_groups prefix after h.commits)

-- The loop of `replayGroupsForWatch`; none where the limit is passed.
select_for_watch : Bytes → ℕ → ℕ → ℕ → List EventGroup → Option (List EventGroup × ℕ)
select_for_watch prefix after limit total [] = some ([], total)
select_for_watch prefix after limit total (g ∷ rest) =
    let count = length (matching prefix g.events) in
    let skip = select_for_watch prefix after limit total rest in
    let taken = select_for_watch prefix after limit (total + count) rest in
    if leb g.revision after || count == 0
    then skip
    else if ltb limit count || ltb (limit - count) total
    then none
    else elim taken [
      | none ↦ none
      | some (groups, sum) ↦ some (replayed g.revision (matching prefix g.events) ∷ groups, sum)
    ]

-- `replayGroupsForWatch`: the groups, the number of events, and whether they fit.
unfoldable pub replay_groups_for_watch :
    HistoryLog → Bytes → ℕ → ℕ → Result (List EventGroup × ℕ × Bool)
unfolding select_for_watch
replay_groups_for_watch h prefix after limit = do
  reject (ltb after h.compacted_through)
      (revision_compacted after (earliest_available h.commits h.compacted_through))
  elim (select_for_watch prefix after limit 0 h.commits) [
    | none ↦ ok ([], 0, false)
    | some (groups, total) ↦ ok (groups, total, true)
  ]

abbrev pub all_events : List EventGroup → List ChangeEvent
all_events [] = []
all_events (g ∷ rest) = g.events ++ all_events rest

-- `ReplayHistory`
unfoldable pub replay_history : Limits → HistoryLog → ℕ → Bytes → ℕ → Result (List ChangeEvent)
unfolding replay_groups
replay_history limits h current prefix after = do
  validate_prefix prefix limits
  reject (ltb current after) (revision_ahead after current)
  groups ← replay_groups h prefix after
  ok (all_events groups)
