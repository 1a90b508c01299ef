-- ===== src/Server/Replay.antt =====
-- internal/server/owner.go: the records that an owner starts from, by replaying the commits of the
-- log onto a snapshot.
pub mod History
pub mod Crash
use gapdb.Prelude.{List, [], ◌∷◌, Bytes, ℕ, some}
use gapdb.Prelude.Dict.{insert, delete}
use gapdb.Api.Types.{Record, ChangeKind, new_record}
use gapdb.Persist.Frames.{Effect, CommitFrame}

abbrev pub Records : Type 0
Records = List (Bytes × Record)

-- The switch in the loops of `replayRecords`.
replay_kind : ChangeKind → ℕ → Effect → Records → Records
replay_kind ChangeKind.put revision e records =
    insert e.key (new_record e.key (some e.value) revision e.expires_at) records
replay_kind ChangeKind.delete revision e records = delete e.key records
replay_kind ChangeKind.expire revision e records = delete e.key records
replay_kind ChangeKind.unknown revision e records = records

unfoldable pub replay_effects : ℕ → List Effect → Records → Records
unfolding replay_kind
replay_effects revision [] records = records
replay_effects revision (e ∷ rest) records =
    replay_effects revision rest (replay_kind e.kind revision e records)

unfoldable pub replay_commits : List CommitFrame → Records → Records
replay_commits [] records = records
replay_commits (c ∷ rest) records =
    replay_commits rest (replay_effects c.revision c.effects records)

unfoldable load_snapshot : List Record → Records → Records
load_snapshot [] records = records
load_snapshot (r ∷ rest) records = load_snapshot rest (insert r.key r records)

abbrev values : Records → List Record
values [] = []
values ((k, r) ∷ rest) = r ∷ values rest

-- `replayRecords`. Go ranges over the map in an order that it does not say.
unfoldable replay_records : List Record → List CommitFrame → List Record
replay_records snapshot commits = values (replay_commits commits (load_snapshot snapshot []))
