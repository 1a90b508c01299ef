-- ===== src/Tests/Fixtures.antt =====
-- A small log, and an engine with one record.
use gapdb.Prelude.{ℕ, suc, ◌++◌, none, some, List, [], ◌∷◌, Bytes}
use gapdb.Api.Errors.{ready, ok}
use gapdb.Api.Types.{Record, AckMode, new_record}
use gapdb.Api.Options.{default_options}
use gapdb.Persist.Frames.{CommitFrame}
use gapdb.Engine.Admission.{Request, compare_and_swap}
use gapdb.Engine.History.{HistoryLog}
use gapdb.Engine.State.{done, fault, Storage, Store, Engine}
use gapdb.Engine.Watch.{Registry}

-- The log: the frames, and the revision through which it is durable.
pub record FrameLog : Type 0 where
  pub frames : List CommitFrame
  pub durable : ℕ

abbrev last_revision : ℕ → List CommitFrame → ℕ
last_revision n [] = n
last_revision n (f ∷ fs) = last_revision f.revision fs

-- A log that keeps every frame; the allocator counts.
abbrev pub frame_storage : Storage FrameLog ℕ
frame_storage = record {
  append_frame = λ l f. done (record l { frames = l.frames ++ (f ∷ []) });
  barrier = λ l. done (record l { durable = last_revision l.durable l.frames });
  durable_of = λ l. l.durable;
  allocate_next = λ n. (suc n, ok n);
  checkpoint = λ p q. none;
}

-- A log that refuses every frame after it may have written some of it.
abbrev pub broken_storage : Storage FrameLog ℕ
broken_storage = record frame_storage {
  append_frame = λ l f. fault l (record { api = none; hook = none });
}

abbrev pub key_a : Bytes
key_a = 97 ∷ []

abbrev pub record_a : Record
record_a = new_record key_a (some (1 ∷ [])) 3 none

abbrev pub no_history : HistoryLog
no_history = record {
  commits = [];
  event_count = 0;
  byte_count = 0;
  max_events = 10;
  max_bytes = 1000;
  compacted_through = 3;
}

abbrev pub no_watchers : Registry
no_watchers = record { watchers = []; removed = []; active_watches = 0; next_watcher_id = 0 }

abbrev pub one_record : Store
one_record = record {
  records = (key_a, record_a) ∷ [];
  ordered_keys = record { keys = key_a ∷ []; capacity = 1 };
  current = 3;
  history = no_history;
  expiries = [];
  registry = no_watchers;
}

abbrev pub small_engine : Engine FrameLog ℕ
small_engine = record {
  store = one_record;
  durable_through = 3;
  lifecycle = ready;
  limits = default_options;
  clock = record { latest = none };
  log = record { frames = []; durable = 3 };
  allocator = 4;
  database_id = 7 ∷ [];
  snapshot_revision = 3;
  reserved_revision_end = 100;
  active_wal_start = 4;
}

-- The swap of the record at revision 3.
abbrev pub swap_a : Request
swap_a = compare_and_swap key_a 3 (some (2 ∷ [])) none AckMode.durable
