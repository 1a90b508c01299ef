-- ===== src/Tests/Storage.antt =====
-- A small log file, and the storage theorems at it.
use gapdb.Prelude.{
  ℕ, ◌+◌, ◌≤◌, ◌^◌, Bool, true, false, Option, none, some, List, [], ◌∷◌, ◌++◌, Bytes, length, take,
  ◌≡◌, refl, arith, length-append,
}
use gapdb.Api.Errors.{Result, ok, err}
use gapdb.Api.Options.{default_options}
use gapdb.Api.Types.{new_put_mutation}
use gapdb.Api.Errors.{ConditionKind}
use gapdb.Engine.State.{SingleOperation}
use gapdb.Persist.Header.{WalHeader, encode_wal_header, decode_wal_header, header_size}
use gapdb.Persist.Header.RoundTrip.{decode_wal_header-encode_wal_header}
use gapdb.Persist.Codec.{encode_commit_frame, decode_commit_frame, fixed_size}
use gapdb.Persist.Codec.Payload.{payload_size}
use gapdb.Persist.Codec.Frame.{decode_commit_frame-encode_commit_frame}
use gapdb.Persist.Scan.{ScanInput, WalReplay, scan_wal}
use gapdb.Persist.Scan.Cut.{IsIncreasing, encode_frames, replay_within}
use gapdb.Persist.Scan.Durable.{IsHeader, IsLog, fresh, scan_wal-replay_within}
use gapdb.Persist.Scan.Ordered.{Sound, scan_wal-Sound, scan_wal-finished}
use gapdb.Persist.Wal.History.{length-encode_frames}
use gapdb.Server.Replay.{replay_commits}
use gapdb.Server.Replay.History.{
  CommittedBatch, frame_of, frames_of, records_after, replay_commits-records_after,
}
use gapdb.Server.Replay.Crash.{scan_wal-records_after}

-- The bytes of an encoding that succeeds.
abbrev pub bytes_in : Result Bytes → Bytes
bytes_in (ok b) = b
bytes_in (err e) = []

abbrev pub database : Bytes
database = 1 ∷ 2 ∷ 3 ∷ 4 ∷ 5 ∷ 6 ∷ 7 ∷ 8 ∷ 9 ∷ 10 ∷ 11 ∷ 12 ∷ 13 ∷ 14 ∷ 15 ∷ 16 ∷ []

abbrev pub header_4 : WalHeader
header_4 = record { database_id = database; first_revision = 4; generation = 1 }

abbrev pub put_batch : ℕ → ℕ → CommittedBatch
put_batch revision key = record {
  revision = revision;
  mutations =
      new_put_mutation (key ∷ []) (some (7 ∷ []))
        (record { kind = ConditionKind.any; expected_revision = 0 }) none
      ∷ [];
  single = SingleOperation.put;
}

abbrev pub first_batch : CommittedBatch
first_batch = put_batch 4 97

abbrev pub second_batch : CommittedBatch
second_batch = put_batch 5 98

abbrev pub log_start : Bytes
log_start = bytes_in (encode_wal_header header_4)

abbrev log_bytes : Bytes
log_bytes = bytes_in (encode_frames (frames_of (first_batch ∷ second_batch ∷ [])) default_options)

abbrev pub reader : ScanInput
reader = record {
  fault = false;
  physical_size = 200;
  expected_id = database;
  after_revision = 3;
  reserved_end = 100;
  limits = default_options;
}

pub log_start-encoded : encode_wal_header header_4 ≡ ok log_start
unfolding encode_wal_header gapdb.Prelude.Slices.all_zero
log_start-encoded = refl

log_bytes-encoded :
    encode_frames (frames_of (first_batch ∷ second_batch ∷ [])) default_options ≡ ok log_bytes
unfolding encode_frames encode_commit_frame gapdb.Persist.Codec.validate_commit
    gapdb.Engine.Apply.effects_for gapdb.Engine.Apply.effect_for gapdb.Prelude.utf8_valid
    gapdb.Prelude.Dict.lookup gapdb.Persist.Codec.effect_payload_length
log_bytes-encoded = refl

decode_wal_header-encode_wal_header_example :
    (decode_wal_header log_start database ≡ ok header_4) × (length log_start ≡ header_size)
decode_wal_header-encode_wal_header_example =
    decode_wal_header-encode_wal_header header_4 log_start (omega arith) (omega arith) (omega arith)
      log_start-encoded

abbrev first_frame : Bytes
first_frame = bytes_in (encode_commit_frame (frame_of first_batch) default_options)

first_frame-encoded : encode_commit_frame (frame_of first_batch) default_options ≡ ok first_frame
unfolding encode_commit_frame gapdb.Persist.Codec.validate_commit gapdb.Engine.Apply.effects_for
    gapdb.Engine.Apply.effect_for gapdb.Prelude.utf8_valid gapdb.Prelude.Dict.lookup
    gapdb.Persist.Codec.effect_payload_length
first_frame-encoded = refl

pub first_frame-size : payload_size (frame_of first_batch).effects ≡ 22
unfolding gapdb.Engine.Apply.effects_for gapdb.Engine.Apply.effect_for
first_frame-size = refl

decode_commit_frame-encode_commit_frame_example :
    (decode_commit_frame first_frame default_options ≡ ok (frame_of first_batch))
    × (length first_frame ≡ fixed_size + payload_size (frame_of first_batch).effects)
decode_commit_frame-encode_commit_frame_example =
    decode_commit_frame-encode_commit_frame (frame_of first_batch) default_options first_frame
      (omega arith) (omega (arith, first_frame-size)) first_frame-encoded

pub reader-IsHeader : IsHeader reader header_4 log_start
reader-IsHeader = record {
  steady = refl;
  bound = omega arith;
  sixteen = refl;
  expected = refl;
  follows = omega arith;
  first = omega arith;
  generation = omega arith;
  starts = log_start-encoded;
}

pub second_frame-size : payload_size (frame_of second_batch).effects ≡ 22
unfolding gapdb.Engine.Apply.effects_for gapdb.Engine.Apply.effect_for
second_frame-size = refl

log-IsIncreasing : IsIncreasing 3 100 (frames_of (first_batch ∷ second_batch ∷ []))
log-IsIncreasing = (
  omega arith,
  omega arith,
  omega (arith, first_frame-size),
  (omega arith, omega arith, omega (arith, second_frame-size), tt),
)

log_length : length log_bytes ≡ 108
log_length = omega (
  arith,
  first_frame-size,
  second_frame-size,
  length-encode_frames 3 100 (frames_of (first_batch ∷ second_batch ∷ [])) default_options log_bytes
      (omega arith) log-IsIncreasing log_bytes-encoded,
)

reader-IsLog :
    IsLog reader header_4 (frames_of (first_batch ∷ second_batch ∷ [])) log_start log_bytes
reader-IsLog = record {
  header = reader-IsHeader;
  increasing = log-IsIncreasing;
  continues = log_bytes-encoded;
}

-- The second frame is cut off after six bytes.
scan_wal-replay_within_example :
    scan_wal reader (log_start ++ take 60 log_bytes)
    ≡ some (
        ok (
          replay_within reader 60
            (frames_of (first_batch ∷ second_batch ∷ []))
            (fresh reader header_4)))
scan_wal-replay_within_example =
    scan_wal-replay_within reader header_4 (frames_of (first_batch ∷ second_batch ∷ [])) log_start
      log_bytes 60 reader-IsLog (omega (arith, log_length))

scan_wal-Sound_example :
    Sound reader (length (log_start ++ take 60 log_bytes)) (
      replay_within reader 60 (frames_of (first_batch ∷ second_batch ∷ [])) (fresh reader header_4))
scan_wal-Sound_example =
    scan_wal-Sound reader (log_start ++ take 60 log_bytes)
      (replay_within reader 60 (frames_of (first_batch ∷ second_batch ∷ []))
        (fresh reader header_4))
      (scan_wal-replay_within reader header_4 (frames_of (first_batch ∷ second_batch ∷ []))
        log_start log_bytes 60 reader-IsLog (omega (arith, log_length)))

scan_wal-finished_example :
    (answer : Result WalReplay) × (scan_wal reader (log_start ++ take 60 log_bytes) ≡ some answer)
scan_wal-finished_example = scan_wal-finished reader (log_start ++ take 60 log_bytes)

replay_commits-records_after_example :
    replay_commits (frames_of (first_batch ∷ second_batch ∷ [])) []
    ≡ records_after (first_batch ∷ second_batch ∷ []) []
replay_commits-records_after_example =
    replay_commits-records_after (first_batch ∷ second_batch ∷ []) []

scan_wal-records_after_example :
    (r : WalReplay) × (kept lost : List CommittedBatch) × (scan_wal reader
        (log_start ++ take 60 log_bytes)
      ≡ some (ok r))
    × ((second_batch ∷ []) ≡ kept ++ lost)
    × (replay_commits r.commits [] ≡ records_after ((first_batch ∷ []) ++ kept) [])
scan_wal-records_after_example =
    scan_wal-records_after reader header_4 (first_batch ∷ []) (second_batch ∷ []) log_start
      log_bytes 60 [] reader-IsLog (omega (arith, log_length)) (omega (arith, first_frame-size))
