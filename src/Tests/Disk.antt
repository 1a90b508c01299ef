-- ===== src/Tests/Disk.antt =====
-- A file on a small disk, and the theorems on logs and streams with it.
use mathlib.Core.List.{append-nil}
use gapdb.Prelude.{
  ltb, if◌then◌else◌, ap, ℕ, suc, ◌+◌, ◌-◌, ◌≤◌, ◌^◌, Bool, true, false, Option, none, some, List,
  [], ◌∷◌, ◌++◌, Bytes, length, take, ◌≡◌, refl, sym, arith, length-append,
}
use gapdb.Api.Errors.{ok, err, Stage, storage_degraded}
use gapdb.Api.Options.{default_options}
use gapdb.Persist.Frames.{CommitFrame}
use gapdb.Persist.Files.{FileOps, IsFile}
use gapdb.Persist.Scan.{WalReplay, scan_wal}
use gapdb.Persist.Wal.{Wal, append, barrier, opened}
use gapdb.Persist.Wal.Steps.{Runs, begun, appended, broke_off, settled_all}
use gapdb.Persist.Wal.Survives.{Runs-scan_wal}
use gapdb.Protocol.Frame.{read_frame, write_frame}
use gapdb.Protocol.Frame.RoundTrip.{read_frame-write_frame}
use gapdb.Server.Replay.History.{frame_of}
use gapdb.Tests.Storage.{
  header_4, first_batch, second_batch, log_start, reader, reader-IsHeader, first_frame-size,
  second_frame-size,
}

-- The disk has room for two frames less a few bytes.
abbrev room_for : Bytes → Bytes → ℕ
room_for f b = if ltb (150 - length f) (length b) then 150 - length f else length b

room_for-le : (f b : Bytes) → room_for f b ≤ length b
room_for-le f b = ground arith

-- A file is its bytes, all of which survive.
abbrev file_ops : FileOps Bytes
file_ops = record {
  write = λ f b. (f ++ take (room_for f b) b, room_for f b, ltb (150 - length f) (length b));
  flush = λ f. (f, false);
  sync = λ f. (f, false);
  close = λ f. (f, false);
}

abbrev file_ops-IsFile : IsFile file_ops
file_ops-IsFile = record {
  content = λ f. f;
  handed = λ f. length f;
  stable = λ f. length f;
  write_takes = λ f b. room_for-le f b;
  write_appends = λ f b. refl;
  write_keeps = λ f b. omega (arith, length-append f (take (room_for f b) b));
  flush_same = λ f. refl;
  flush_keeps = λ f. omega arith;
  flush_hands = λ f q. omega arith;
  sync_same = λ f. refl;
  sync_keeps = λ f. omega arith;
  sync_settles = λ f q. omega arith;
  close_same = λ f. refl;
  close_keeps = λ f. omega arith;
}

abbrev message : Bytes
message = 104 ∷ 105 ∷ []

message-written : (write_frame file_ops [] message 1024).1 ≡ ok tt
unfolding write_frame gapdb.Protocol.Frame.write_frame_within gapdb.Protocol.Frame.check_frame
    gapdb.Persist.Files.write_full gapdb.Prelude.BigEndian.put32
message-written = refl

read_frame-write_frame_example :
    (stream : Bytes) × ((write_frame file_ops [] message 1024).0 ≡ [] ++ stream)
    × (read_frame (stream ++ message) 1024 ≡ ok (message, message))
read_frame-write_frame_example =
    read_frame-write_frame file_ops file_ops-IsFile [] message message 1024 message-written

abbrev wal_0 : Wal Bytes
wal_0 = opened file_ops log_start header_4 default_options 3 0

abbrev wal_1 : Wal Bytes
wal_1 = (append file_ops wal_0 (frame_of first_batch)).0

abbrev wal_2 : Wal Bytes
wal_2 = (barrier file_ops wal_1).0

first-appended : (append file_ops wal_0 (frame_of first_batch)).1 ≡ ok tt
unfolding append gapdb.Persist.Codec.encode_commit_frame gapdb.Persist.Codec.validate_commit
    gapdb.Engine.Apply.effects_for gapdb.Engine.Apply.effect_for gapdb.Prelude.utf8_valid
    gapdb.Prelude.Dict.lookup gapdb.Persist.Codec.effect_payload_length
    gapdb.Persist.Files.write_full gapdb.Prelude.BigEndian.put16 gapdb.Prelude.BigEndian.put32
    gapdb.Prelude.BigEndian.put64 gapdb.Persist.Effects.encode_effects
    gapdb.Persist.Header.encode_wal_header gapdb.Prelude.Slices.all_zero
first-appended = refl

first-settled : (barrier file_ops wal_1).1 ≡ ok tt
unfolding barrier append gapdb.Persist.Codec.encode_commit_frame gapdb.Persist.Codec.validate_commit
    gapdb.Engine.Apply.effects_for gapdb.Engine.Apply.effect_for gapdb.Prelude.utf8_valid
    gapdb.Prelude.Dict.lookup gapdb.Persist.Codec.effect_payload_length
    gapdb.Persist.Files.write_full gapdb.Prelude.BigEndian.put16 gapdb.Prelude.BigEndian.put32
    gapdb.Prelude.BigEndian.put64 gapdb.Persist.Effects.encode_effects
    gapdb.Persist.Header.encode_wal_header gapdb.Prelude.Slices.all_zero
first-settled = refl

first-Runs :
    Runs file_ops file_ops-IsFile log_start 3 100 wal_2
      ([] ++ ([] ++ (frame_of first_batch ∷ [])))
      []
      []
unfolding gapdb.Persist.Scan.Cut.encode_frames
first-Runs =
    settled_all
      (appended (frame_of first_batch)
        (begun wal_0 [] [] refl (sym (append-nil log_start))
          (omega (arith, length-append log_start [])) tt refl refl)
        (omega arith) (omega (arith, first_frame-size)) first-appended)
      first-settled

abbrev wal_3 : Wal Bytes
wal_3 = (append file_ops wal_2 (frame_of second_batch)).0

second-broken :
    ((append file_ops wal_2 (frame_of second_batch)).1
      ≡ err (storage_degraded Stage.wal_frame_write 4 4 false))
    × (wal_2.failed ≡ false)
    × (wal_3.failed ≡ true)
unfolding barrier append gapdb.Persist.Codec.encode_commit_frame gapdb.Persist.Codec.validate_commit
    gapdb.Engine.Apply.effects_for gapdb.Engine.Apply.effect_for gapdb.Prelude.utf8_valid
    gapdb.Prelude.Dict.lookup gapdb.Persist.Codec.effect_payload_length
    gapdb.Persist.Files.write_full gapdb.Prelude.BigEndian.put16 gapdb.Prelude.BigEndian.put32
    gapdb.Prelude.BigEndian.put64 gapdb.Persist.Effects.encode_effects
    gapdb.Persist.Header.encode_wal_header gapdb.Prelude.Slices.all_zero
second-broken = (refl, refl, refl)

second-Runs :
    Runs file_ops file_ops-IsFile log_start 3 100 wal_3
      ([] ++ ([] ++ (frame_of first_batch ∷ [])))
      []
      (frame_of second_batch ∷ [])
second-Runs =
    broke_off (frame_of second_batch) first-Runs (omega arith) (omega (arith, second_frame-size))
      second-broken.0 second-broken.1 second-broken.2

Runs-scan_wal_example :
    (r : WalReplay) × (more lost : List CommitFrame) × (scan_wal reader
        (take (length wal_3.file) wal_3.file)
      ≡ some (ok r))
    × (r.commits ≡ (frame_of first_batch ∷ []) ++ more)
    × (frame_of second_batch ∷ [] ≡ more ++ lost)
    × (wal_3.failed ≡ false → frame_of second_batch ∷ [] ≡ [])
unfolding barrier append gapdb.Persist.Codec.encode_commit_frame gapdb.Persist.Codec.validate_commit
    gapdb.Engine.Apply.effects_for gapdb.Engine.Apply.effect_for gapdb.Prelude.utf8_valid
    gapdb.Prelude.Dict.lookup gapdb.Persist.Codec.effect_payload_length
    gapdb.Persist.Files.write_full gapdb.Prelude.BigEndian.put16 gapdb.Prelude.BigEndian.put32
    gapdb.Prelude.BigEndian.put64 gapdb.Persist.Effects.encode_effects
    gapdb.Persist.Header.encode_wal_header gapdb.Prelude.Slices.all_zero
Runs-scan_wal_example =
    Runs-scan_wal file_ops file_ops-IsFile log_start reader header_4 reader-IsHeader second-Runs
      refl (length wal_3.file) (omega arith) (omega arith)
