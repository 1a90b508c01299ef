-- ===== src/Engine/History/Replay.antt =====
-- What a replay returns, against the whole history.
use gapdb.Prelude.{
  ℕ, ◌+◌, ◌≤◌, ◌<◌, ◌≡◌, refl, true, false, Option, none, some, List, [], ◌∷◌, ◌++◌, Bytes, arith,
  length, length-append, All, ltb, leb, keep, if◌then◌else◌,
}
use gapdb.Api.Types.{ChangeEvent}
use gapdb.Api.Errors.{ok, err, revision_compacted}
use gapdb.Api.Options.{Limits}
use gapdb.Engine.Prefix.{validate_prefix}
use gapdb.Engine.History.{
  EventGroup, HistoryLog, select, select_groups, select_for_watch, replay_groups,
  replay_groups_for_watch, replay_history, all_events, matching, earliest_available,
}
use gapdb.Engine.History.Retention.{Retains}

-- The events of the commits above `after` whose keys begin with `prefix`, in commit order.
abbrev pub events_after : Bytes → ℕ → List EventGroup → List ChangeEvent
events_after prefix after full =
    matching prefix (all_events (keep (λ g. ltb after g.revision) full))

matching-append :
    (prefix : Bytes) (xs ys : List ChangeEvent)
    → matching prefix (xs ++ ys) ≡ matching prefix xs ++ matching prefix ys
matching-append prefix [] ys = refl
matching-append prefix (x ∷ xs) ys = ground (arith, matching-append prefix xs ys)

all_events-select :
    (prefix : Bytes) (g : EventGroup) (later : List EventGroup)
    → all_events (select prefix g later) ≡ matching prefix g.events ++ all_events later
all_events-select prefix g later = ground arith

all_events-select_groups :
    (prefix : Bytes) (after : ℕ) (gs : List EventGroup)
    → all_events (select_groups prefix after gs) ≡ events_after prefix after gs
unfolding select_groups
all_events-select_groups prefix after [] = refl
all_events-select_groups prefix after (g ∷ rest) = ground (
  arith,
  all_events-select prefix g (select_groups prefix after rest),
  matching-append prefix g.events (all_events (keep (λ g'. ltb after g'.revision) rest)),
  all_events-select_groups prefix after rest,
)

select_groups-append :
    (prefix : Bytes) (after : ℕ) (dropped gs : List EventGroup)
    → All (λ g. g.revision ≤ after) dropped
    → select_groups prefix after (dropped ++ gs) ≡ select_groups prefix after gs
unfolding select_groups
select_groups-append prefix after [] gs old = refl
select_groups-append prefix after (g ∷ rest) gs old =
    ground (arith, select_groups-append prefix after rest gs old.1)

all_old :
    (m n : ℕ) (gs : List EventGroup)
    → m ≤ n
    → All (λ g. g.revision ≤ m) gs
    → All (λ g. g.revision ≤ n) gs
all_old m n [] h o = tt
all_old m n (g ∷ gs) h o = (omega arith, all_old m n gs h o.1)

replay_groups-full :
    (h : HistoryLog) (full : List EventGroup) (prefix : Bytes) (after : ℕ)
    → Retains h full
    → h.compacted_through ≤ after
    → replay_groups h prefix after ≡ ok (select_groups prefix after full)
unfolding replay_groups
replay_groups-full h full prefix after r le = ground (
  arith,
  select_groups-append prefix after r.dropped h.commits
      (all_old h.compacted_through after r.dropped le r.old),
  r.split,
)

-- If the log retains all groups of a full history but old ones, the prefix is valid, and the
-- revision is neither ahead of the current one nor compacted, then a replay gives exactly the
-- events of the full history under the prefix after the revision.
pub replay_history-events_after :
    (limits : Limits) (h : HistoryLog) (full : List EventGroup) (current : ℕ) (prefix : Bytes)
    (after : ℕ)
    → Retains h full
    → validate_prefix prefix limits ≡ ok tt
    → after ≤ current
    → h.compacted_through ≤ after
    → replay_history limits h current prefix after ≡ ok (events_after prefix after full)
unfolding replay_history
replay_history-events_after limits h full current prefix after r valid ahead le =
    ground (
      arith,
      replay_groups-full h full prefix after r le,
      all_events-select_groups prefix after full,
    )

-- Any other revision is refused, with the oldest revision that is left.
pub replay_history_refused :
    (limits : Limits) (h : HistoryLog) (current : ℕ) (prefix : Bytes) (after : ℕ)
    → validate_prefix prefix limits ≡ ok tt
    → after ≤ current
    → after < h.compacted_through
    → replay_history limits h current prefix after
      ≡ err (revision_compacted after (earliest_available h.commits h.compacted_through))
unfolding replay_history replay_groups
replay_history_refused limits h current prefix after valid ahead lt = ground arith

abbrev fitting : ℕ → ℕ → List EventGroup → Option (List EventGroup × ℕ)
fitting limit total groups =
    if leb (total + length (all_events groups)) limit
    then some (groups, total + length (all_events groups))
    else none

select_for_watch-fitting :
    (prefix : Bytes) (after limit total : ℕ) (gs : List EventGroup)
    → total ≤ limit
    → select_for_watch prefix after limit total gs
      ≡ fitting limit total (select_groups prefix after gs)
unfolding select_for_watch select_groups
select_for_watch-fitting prefix after limit total [] le = ground arith
select_for_watch-fitting prefix after limit total (g ∷ rest) le = ground (
  arith,
  select_for_watch-fitting prefix after limit total rest,
  select_for_watch-fitting prefix after limit (total + length (matching prefix g.events)) rest,
  all_events-select prefix g (select_groups prefix after rest),
  length-append (matching prefix g.events) (all_events (select_groups prefix after rest)),
)

-- If the log retains all groups of a full history but old ones and the revision is not compacted,
-- then a watch gets the groups of the full history under the prefix after it with their number of
-- events if that is within the limit, and otherwise no group and the sign that they do not fit.
pub replay_groups_for_watch-fitting :
    (h : HistoryLog) (full : List EventGroup) (prefix : Bytes) (after limit : ℕ)
    → Retains h full
    → h.compacted_through ≤ after
    → let groups = select_groups prefix after full in
      let total = length (events_after prefix after full) in
      replay_groups_for_watch h prefix after limit
      ≡ ok (if leb total limit then (groups, total, true) else ([], 0, false))
unfolding replay_groups_for_watch
replay_groups_for_watch-fitting h full prefix after limit r le = ground (
  arith,
  select_groups-append prefix after r.dropped h.commits
      (all_old h.compacted_through after r.dropped le r.old),
  r.split,
  select_for_watch-fitting prefix after limit 0 h.commits,
  all_events-select_groups prefix after full,
)

select_for_watch-within :
    (prefix : Bytes) (after limit total : ℕ) (gs : List EventGroup) (found : List EventGroup)
    (n : ℕ)
    → total ≤ limit
    → select_for_watch prefix after limit total gs ≡ some (found, n)
    → n ≤ limit
select_for_watch-within prefix after limit total gs found n le q =
    ground (arith, select_for_watch-fitting prefix after limit total gs, q)

-- What is replayed to a new watcher fits its buffer.
pub replay_groups_for_watch-within :
    (h : HistoryLog) (prefix : Bytes) (after limit : ℕ) (groups : List EventGroup) (n : ℕ)
    → replay_groups_for_watch h prefix after limit ≡ ok (groups, n, true)
    → n ≤ limit
unfolding replay_groups_for_watch
replay_groups_for_watch-within h prefix after limit groups n q =
    ground (arith, select_for_watch-within prefix after limit 0 h.commits groups n)
