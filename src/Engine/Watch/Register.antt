-- ===== src/Engine/Watch/Register.antt =====
-- internal/engine/watch.go: the commands of the writer that add a watcher and take one out. A queue
-- depth is an argument. The pump of a watcher, which runs beside the writer, is not modelled.
use gapdb.Prelude.{
  ℕ, suc, ◌-◌, ◌==◌, Bool, true, false, none, some, List, [], ◌∷◌, Bytes, length, ltb, leb,
  if◌then◌else◌,
}
use gapdb.Api.Errors.{Result, ok, ◌>>=◌, ◌>>◌, reject, revision_ahead, server_busy}
use gapdb.Api.Options.{Limits}
use gapdb.Engine.History.{HistoryLog, EventGroup, replay_groups_for_watch}
use gapdb.Engine.Watch.{WatchEndReason, Watcher, Registry, watch_lag_end}

-- The watcher that `registerWatch` makes, before its backlog is counted.
abbrev pub new_watcher : Limits → ℕ → ℕ → Bytes → ℕ → List EventGroup → Watcher
new_watcher limits id current prefix from groups = record {
  id = id;
  prefix = prefix;
  backlog = groups;
  live = [];
  end = none;
  queued_events = 0;
  last_delivered = from;
  limit = limits.watch_buffer_events;
  registration = current;
  backlog_fits = true;
}

-- The watcher enters the registry if its backlog fits; otherwise it ends at once.
unfoldable pub add_watcher : Registry → Watcher → ℕ → ℕ → Bool → Registry
add_watcher r w current events true = record r {
  watchers = record w { queued_events = events } ∷ r.watchers;
  active_watches = suc r.active_watches;
}
add_watcher r w current events false = record r {
  removed =
      record w {
        backlog_fits = false;
        backlog = [];
        end = some (watch_lag_end w.last_delivered current);
      }
      ∷ r.removed;
}

-- `registerWatch`: the registry, and the watcher's identifier.
unfoldable pub register_watch :
    Limits → HistoryLog → ℕ → ℕ → Registry → Bytes → ℕ → Result (Registry × ℕ)
unfolding add_watcher
register_watch limits history current depth r prefix from = do
  reject (ltb current from) (revision_ahead from current)
  (groups, events, fits) ← replay_groups_for_watch history prefix from limits.watch_buffer_events
  reject (leb limits.max_watch_clients (length r.watchers))
      (server_busy (length r.watchers) limits.max_watch_clients depth)
  let id = suc r.next_watcher_id
  ok (
    add_watcher (record r { next_watcher_id = id })
        (new_watcher limits id current prefix from groups) current events fits,
    id,
  )

abbrev pub ended : WatchEndReason → ℕ → Watcher → Watcher
ended reason current w = record w {
  end = some (record { reason = reason; current = current; failure = none });
}

unfoldable pub without_watcher : ℕ → WatchEndReason → ℕ → List Watcher → Registry → Registry
without_watcher id reason current [] r = r
without_watcher id reason current (w ∷ rest) r =
    let r' = without_watcher id reason current rest r in
    if w.id == id
    then record r {
      watchers = rest;
      removed = ended reason current w ∷ r.removed;
      active_watches = r.active_watches - 1;
    }
    else record r' { watchers = w ∷ r'.watchers }

-- `unregisterWatch`
unfoldable pub unregister_watch : ℕ → WatchEndReason → ℕ → Registry → Registry
unfolding without_watcher
unregister_watch id reason current r =
    without_watcher id reason current r.watchers (record r { watchers = [] })

unfoldable pub end_all : ℕ → List Watcher → Registry → Registry
end_all current [] r = r
end_all current (w ∷ rest) r = end_all current rest (record r {
  removed = ended WatchEndReason.server_shutdown current w ∷ r.removed;
  active_watches = r.active_watches - 1;
})

-- `shutdownWatchers`
unfoldable pub shutdown_watchers : ℕ → Registry → Registry
unfolding end_all
shutdown_watchers current r = end_all current r.watchers (record r { watchers = [] })
