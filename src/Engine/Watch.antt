-- ===== src/Engine/Watch.antt =====
-- internal/engine/watch.go: the registered watchers, and what the writer does to them.
pub mod Register
pub mod Bounds
use gapdb.Prelude.{
  ℕ, suc, ◌+◌, ◌-◌, ◌&&◌, ◌||◌, not, Bool, true, false, Option, none, some, List, [], ◌∷◌, ◌++◌,
  Bytes, length, ltb, leb, ◌==◌, if◌then◌else◌,
}
use gapdb.Api.Errors.{Error, watch_lagged}
use gapdb.Api.Types.{ChangeEvent}
use gapdb.Engine.History.{EventGroup, replayed, matching}

-- `WatchEndReason`
pub data WatchEndReason : Type 0 where
  client_closed server_shutdown error : WatchEndReason

pub record WatchEnd : Type 0 where
  pub reason : WatchEndReason
  pub current : ℕ
  pub failure : Option Error

-- `watcherState`: `live` is the channel of the groups that the pump has not taken, with room for
-- `limit` groups, and `end` the channel of one end message.
pub record Watcher : Type 0 where
  pub id : ℕ
  pub prefix : Bytes
  pub backlog : List EventGroup
  pub live : List EventGroup
  pub end : Option WatchEnd
  pub queued_events : ℕ
  pub last_delivered : ℕ
  pub limit : ℕ
  pub registration : ℕ
  pub backlog_fits : Bool

-- `watchers`, and those that were taken out of it with an end message.
pub record Registry : Type 0 where
  pub watchers : List Watcher
  pub removed : List Watcher
  pub active_watches : ℕ
  pub next_watcher_id : ℕ

-- `watchLagEnd`
abbrev pub watch_lag_end : ℕ → ℕ → WatchEnd
watch_lag_end last current = record {
  reason = WatchEndReason.error;
  current = current;
  failure = some (watch_lagged last current);
}

-- `reserveWatchEvents`: the test, and the new count.
unfoldable pub reserve_watch_events : Watcher → ℕ → Option Watcher
reserve_watch_events w count =
    if ltb w.limit count || ltb (w.limit - count) w.queued_events
    then none
    else some (record w { queued_events = w.queued_events + count })

-- `lagWatcher`, on the watcher: it leaves the registry with this end.
abbrev pub lagged : Watcher → ℕ → Watcher
lagged w current = record w { end = some (watch_lag_end w.last_delivered current) }

-- What the loop of `publishWatchers` does to a watcher: it stays, or it is taken out.
pub data Published : Type 0 where
  stays : Watcher → Published
  leaves : Watcher → Published

-- `watcher.live <- group`, or the default branch where the channel is full.
send : Watcher → ℕ → ℕ → EventGroup → Published
send w count current group =
    if ltb (length w.live) w.limit
    then stays (record w { live = w.live ++ (group ∷ []) })
    else leaves (lagged (record w { queued_events = w.queued_events - count }) current)

publish_matching : Watcher → ℕ → List ChangeEvent → Published
unfolding reserve_watch_events send
publish_matching w current [] = stays w
publish_matching w current (event ∷ rest) = elim (reserve_watch_events w (suc (length rest))) [
  | none ↦ leaves (lagged w current)
  | some w' ↦ send w' (suc (length rest)) current (replayed current (event ∷ rest))
]

-- One round of the loop of `publishWatchers`, for the events of revision `current`.
unfoldable pub publish_one : Watcher → ℕ → List ChangeEvent → Published
unfolding publish_matching
publish_one w current events = publish_matching w current (matching w.prefix events)

publish_loop : List Watcher → ℕ → List ChangeEvent → Registry → Registry
unfolding publish_one
publish_loop [] current events r = r
publish_loop (w ∷ rest) current events r =
    let r' = publish_loop rest current events r in
    elim (publish_one w current events) [
      | stays w' ↦ record r' { watchers = w' ∷ r'.watchers }
      | leaves w' ↦ record r' { removed = w' ∷ r'.removed; active_watches = r'.active_watches - 1 }
    ]

-- `publishWatchers`, for the events of one commit
unfoldable pub publish_watchers : Registry → List ChangeEvent → Registry
unfolding publish_loop
publish_watchers r [] = r
publish_watchers r (event ∷ rest) =
    publish_loop r.watchers event.revision (event ∷ rest) (record r { watchers = [] })
