-- ===== src/Tests/Parts.antt =====
-- The theorems about the parts of the engine at concrete inputs.
use gapdb.Prelude.{
  ℕ, suc, ◌<◌, ◌≤◌, ◌^◌, ◌++◌, Bool, true, false, Option, none, some, List, [], ◌∷◌, Bytes, ◌≡◌,
  ◌≢◌, refl, arith, length, leb, if◌then◌else◌,
}
use gapdb.Prelude.Int.{pos, ◌≤ℤ◌}
use gapdb.Prelude.Dict.{lookup}
use gapdb.Prelude.Sorted.{has, IsOrdered}
use gapdb.Prelude.Keys.{key_eq, has_prefix}
use gapdb.Api.Errors.{ok, ConditionKind}
use gapdb.Api.Types.{
  Record, Mutation, ChangeEvent, ChangeKind, new_record, new_put_mutation, new_delete_mutation,
}
use gapdb.Api.Options.{default_options}
use gapdb.Api.Validate.Accepts.{Accepted, validate_batch-Accepted}
use gapdb.Engine.Admission.{request_batch}
use gapdb.Engine.Apply.{apply_all}
use gapdb.Engine.Apply.Records.{record_after, lookup-apply_all}
use gapdb.Engine.Clock.{clock_now, is_expired, clock_now_mono, is_expired_stays}
use gapdb.Engine.History.{
  HistoryLog, append, group_of, select_groups, replay_history, replay_groups_for_watch,
}
use gapdb.Engine.History.Replay.{
  events_after, replay_history-events_after, replay_groups_for_watch-fitting,
}
use gapdb.Engine.History.Retention.{IsBounded, Retains, append-IsBounded, append-Retains}
use gapdb.Engine.OrderedKeys.{KeyIndex, plan_ordered_keys, install_plan}
use gapdb.Engine.OrderedKeys.Delta.{present_after}
use gapdb.Engine.OrderedKeys.Plan.{install_plan-present_after}
use gapdb.Engine.Revision.{RangeAllocator, Reserve, allocate, new_range_allocator}
use gapdb.Engine.Revision.Increasing.{IsAfter, new_range_allocator-IsAfter, allocate-IsAfter}
use gapdb.Engine.Scan.{scan_prefix, ScanPage}
use gapdb.Engine.Scan.Complete.{live_under, scan_prefix-live_under}
use gapdb.Engine.Snapshot.{installed, finishes, execute_snapshot, execute_durable_admin}
use gapdb.Engine.Snapshot.Cuts.{IsCut, Snapped, execute_snapshot-IsCut, execute_durable_admin-IsCut}
use gapdb.Engine.State.{SingleOperation, Engine}
use gapdb.Engine.Watch.{Registry, Watcher, WatchEndReason}
use gapdb.Engine.Watch.Register.{register_watch, unregister_watch, shutdown_watchers}
use gapdb.Engine.Watch.Bounds.{
  IsAccounted, register_watch-IsAccounted, unregister_watch-IsAccounted,
  shutdown_watchers-IsAccounted,
}
use gapdb.Engine.Open.{Config, new}
use gapdb.Engine.Open.Loading.{new-IsConsistent}
use gapdb.Engine.Writer.Invariant.{IsConsistent}
use gapdb.Tests.Fixtures.{
  FrameLog, frame_storage, small_engine, swap_a, key_a, record_a, one_record, no_history,
}

abbrev page : ScanPage
page = record { records = record_a ∷ []; observed_revision = 3; as_of = pos 10; cursor = none }

scanned : scan_prefix small_engine (pos 10) [] 5 none ≡ ok page
unfolding scan_prefix gapdb.Engine.Prefix.validate_prefix gapdb.Prelude.utf8_valid
    gapdb.Engine.Scan.check_cursor_prefix gapdb.Engine.Scan.page_instant gapdb.Engine.Scan.scan_keys
    gapdb.Engine.Scan.keys_from gapdb.Prelude.key_lt gapdb.Engine.Scan.scan_round has_prefix lookup
    key_eq gapdb.Engine.Expiry.record_expired gapdb.Engine.Scan.scan_record_bytes clock_now
scanned = refl

scan_prefix-live_under_example :
    (missing : List Record) × (live_under one_record [] (pos 10) (key_a ∷ [])
      ≡ (record_a ∷ []) ++ missing)
    × (page.cursor ≡ none → missing ≡ [])
    × (1 ≤ 5)
scan_prefix-live_under_example =
    scan_prefix-live_under small_engine (pos 10) [] 5 page (tt, tt) scanned

abbrev index_a : KeyIndex
index_a = one_record.ordered_keys

abbrev mutations : List Mutation
mutations =
    new_put_mutation (98 ∷ []) none (record { kind = ConditionKind.any; expected_revision = 0 })
      none
    ∷ new_delete_mutation key_a 3
    ∷ []

install_plan-present_after_example :
    IsOrdered (install_plan index_a (plan_ordered_keys index_a mutations)).keys
    × ((k : Bytes)
        → has k (install_plan index_a (plan_ordered_keys index_a mutations)).keys
          ≡ present_after k mutations (has k index_a.keys))
unfolding has key_eq
install_plan-present_after_example =
    install_plan-present_after index_a mutations (tt, tt) ((λ q. cc), ((λ q. cc), tt))
      (refl, (refl, tt))

lookup-apply_all_example :
    lookup key_a (apply_all 4 0 mutations SingleOperation.batch one_record.records).0
    ≡ record_after 4 key_a mutations (lookup key_a one_record.records)
lookup-apply_all_example =
    lookup-apply_all 4 0 mutations SingleOperation.batch one_record.records key_a

validate_batch-Accepted_example : Accepted (request_batch swap_a).0 default_options
unfolding request_batch gapdb.Api.Validate.validate_batch lookup
    gapdb.Api.Validate.validate_mutation gapdb.Api.Validate.validate_key gapdb.Prelude.utf8_valid
    gapdb.Api.Validate.validate_condition
validate_batch-Accepted_example =
    validate_batch-Accepted (request_batch swap_a).0 default_options refl

abbrev change : ChangeEvent
change = record {
  revision = 4;
  order = 0;
  kind = ChangeKind.put;
  key = key_a;
  record_after = some (new_record key_a none 4 none);
}

abbrev kept_history : HistoryLog
kept_history = record no_history {
  commits = record { revision = 4; events = change ∷ []; bytes = 40 } ∷ [];
  event_count = 1;
  byte_count = 40;
}

no_history-IsBounded : IsBounded no_history
no_history-IsBounded = record {
  events_counted = refl;
  bytes_counted = refl;
  events_within = omega arith;
  bytes_within = omega arith;
}

no_history-Retains : Retains no_history []
no_history-Retains = record { dropped = []; split = refl; old = tt }

kept_history-Retains : Retains kept_history kept_history.commits
kept_history-Retains = record { dropped = []; split = refl; old = tt }

append-IsBounded_example : IsBounded (append no_history (change ∷ []))
append-IsBounded_example = append-IsBounded no_history (change ∷ []) no_history-IsBounded

append-Retains_example : Retains (append no_history (change ∷ [])) ([] ++ (group_of change [] ∷ []))
append-Retains_example = append-Retains no_history [] change [] no_history-Retains

replay_history-events_after_example :
    replay_history default_options kept_history 4 [] 3 ≡ ok (events_after [] 3 kept_history.commits)
unfolding gapdb.Engine.Prefix.validate_prefix gapdb.Prelude.utf8_valid
replay_history-events_after_example =
    replay_history-events_after default_options kept_history kept_history.commits 4 [] 3
      kept_history-Retains refl (omega arith) (omega arith)

replay_groups_for_watch-fitting_example :
    replay_groups_for_watch kept_history [] 3 10
    ≡ ok (
        if leb (length (events_after [] 3 kept_history.commits)) 10
        then (
          select_groups [] 3 kept_history.commits,
          length (events_after [] 3 kept_history.commits),
          true,
        )
        else ([], 0, false))
replay_groups_for_watch-fitting_example =
    replay_groups_for_watch-fitting kept_history kept_history.commits [] 3 10 kept_history-Retains
      (omega arith)

abbrev allocator : RangeAllocator
allocator = record { next = 4; last = 5; exhausted = false }

new_range_allocator-IsAfter_example : IsAfter 3 allocator
unfolding new_range_allocator
new_range_allocator-IsAfter_example =
    new_range_allocator-IsAfter 3 (record { first = 4; last = 5 }) (omega arith) refl

abbrev reserve_ten : Reserve ℕ
reserve_ten = some (λ r after. (suc r, ok (record { first = 100; last = 109 })))

allocate-IsAfter_example :
    (3 < 4) × (4 < 2 ^ 64) × IsAfter 4 (record { next = 5; last = 5; exhausted = false })
unfolding allocate
allocate-IsAfter_example =
    allocate-IsAfter reserve_ten 0 allocator 3 (λ r after r' range q. ground arith)
      new_range_allocator-IsAfter_example refl

clock_now_mono_example :
    (clock_now (record { latest = none }) (pos 7)).0
    ≤ℤ (clock_now (clock_now (record { latest = none }) (pos 7)).1 (pos 5)).0
clock_now_mono_example = clock_now_mono (record { latest = none }) (pos 7) (pos 5)

is_expired_stays_example :
    is_expired (pos 6) (clock_now (clock_now (record { latest = none }) (pos 7)).1 (pos 5)).0 ≡ true
unfolding is_expired clock_now
is_expired_stays_example = is_expired_stays (record { latest = none }) (pos 7) (pos 5) (pos 6) refl

execute_snapshot-IsCut_example : Snapped frame_storage small_engine (
    execute_snapshot frame_storage (λ cut. installed (some small_engine.log)) (pos 10) small_engine)
execute_snapshot-IsCut_example =
    execute_snapshot-IsCut frame_storage small_engine (λ cut. installed (some small_engine.log))
      (pos 10)

execute_durable_admin-IsCut_example :
    IsCut frame_storage small_engine
      (execute_durable_admin frame_storage (λ id revision. finishes) small_engine).0
execute_durable_admin-IsCut_example =
    execute_durable_admin-IsCut frame_storage small_engine (λ id revision. finishes)

abbrev watcher : Watcher
watcher = record {
  id = 1;
  prefix = [];
  backlog = [];
  live = [];
  end = none;
  queued_events = 0;
  last_delivered = 3;
  limit = 1;
  registration = 3;
  backlog_fits = true;
}

abbrev watching : Registry
watching = record { watchers = watcher ∷ []; removed = []; active_watches = 1; next_watcher_id = 1 }

watching-IsAccounted : IsAccounted watching
watching-IsAccounted = record {
  counted = refl;
  within = ((refl, omega arith, omega arith), tt);
  ended = tt;
}

unregister_watch-IsAccounted_example :
    IsAccounted (unregister_watch 1 WatchEndReason.client_closed 3 watching)
unregister_watch-IsAccounted_example =
    unregister_watch-IsAccounted 1 WatchEndReason.client_closed 3 watching watching-IsAccounted

shutdown_watchers-IsAccounted_example :
    IsAccounted (shutdown_watchers 3 watching)
    × ((shutdown_watchers 3 watching).watchers ≡ [])
    × ((shutdown_watchers 3 watching).active_watches ≡ 0)
shutdown_watchers-IsAccounted_example =
    shutdown_watchers-IsAccounted 3 watching watching-IsAccounted

abbrev second_watcher : Watcher
second_watcher = record watcher { id = 2; limit = 256 }

register_watch-IsAccounted_example :
    IsAccounted (record watching {
      watchers = second_watcher ∷ watcher ∷ [];
      active_watches = 2;
      next_watcher_id = 2;
    })
    × (2 ≤ default_options.max_watch_clients)
unfolding register_watch replay_groups_for_watch
register_watch-IsAccounted_example =
    register_watch-IsAccounted default_options no_history 3 0 watching [] 3
      (record watching {
        watchers = second_watcher ∷ watcher ∷ [];
        active_watches = 2;
        next_watcher_id = 2;
      })
      2 watching-IsAccounted (omega arith) refl

abbrev small_config : Config FrameLog ℕ
small_config = record {
  limits = none;
  queue_capacity = pos 0;
  log = record { frames = []; durable = 3 };
  allocator = 4;
  records = record_a ∷ [];
  current_revision = 3;
  durable_through_revision = 3;
  database_id = 7 ∷ [];
  snapshot_revision = 3;
  recovered_commits = [];
  reserved_revision_end = 100;
  active_wal_start = 4;
}

abbrev opened : Engine FrameLog ℕ
opened = record small_engine {
  store = record one_record {
    history = record no_history {
      max_events = default_options.max_history_events;
      max_bytes = default_options.max_history_bytes;
    };
  };
}

new-IsConsistent_example : IsConsistent opened.store × (3 ≤ 3)
unfolding new gapdb.Api.Options.validate_options gapdb.Engine.Open.load_records
    gapdb.Api.Validate.validate_key gapdb.Prelude.utf8_valid lookup gapdb.Engine.History.rebuild
    gapdb.Engine.History.initialize gapdb.Prelude.Dict.insert gapdb.Prelude.Sorted.sort_strings
    gapdb.Engine.Expiry.schedule_record_expiry
new-IsConsistent_example = new-IsConsistent small_config opened refl
