-- ===== src/Persist/Scan.antt =====
-- internal/persist/recovery.go: the scan of a log file. A reader is the bytes that it gives until
-- its end, or until a read fails (`fault`); `io.ReadFull` reads of it what there is. The loop runs on
-- fuel, and none is its answer when that runs out.
pub mod Cut
pub mod Durable
pub mod Ordered
pub mod Prefix
use Prim.Native.String.{String}
use gapdb.Prelude.{
  ℕ, zero, suc, ◌+◌, ◌-◌, ◌/◌, ◌^◌, ◌==◌, ◌||◌, ◌&&◌, not, Bool, true, false, Option, none, some,
  List, [], ◌∷◌, ◌++◌, Bytes, key_eq, length, take, drop, ltb, leb, if◌then◌else◌,
}
use gapdb.Prelude.BigEndian.{be16, be32, be64}
use gapdb.Prelude.Slices.{slice}
use gapdb.Api.Errors.{
  Error, Result, ok, err, ◌>>=◌, ◌>>◌, reject, corrupt_wal, unknown_format,
  revision_range_exhausted, io_error,
}
use gapdb.Api.Options.{Limits}
use gapdb.Engine.Admission.{frame_maximum}
use gapdb.Persist.Frames.{CommitFrame}
use gapdb.Persist.Header.{WalHeader, decode_wal_header, storage_version, header_size}
use gapdb.Persist.Effects.{effect_header}
use gapdb.Persist.Codec.{commit_magic, fixed_size, decode_commit_frame}

-- `TailTruncation`
pub record TailTruncation : Type 0 where
  pub old_size : ℕ
  pub new_size : ℕ
  pub last_complete_revision : ℕ

-- `WALReplay`
pub record WalReplay : Type 0 where
  pub header : WalHeader
  pub commits : List CommitFrame
  pub recovered_revision : ℕ
  pub complete_offset : ℕ
  pub tail : Option TailTruncation

-- What `ScanWAL` is called with, beside the reader's bytes.
pub record ScanInput : Type 0 where
  pub fault : Bool
  pub physical_size : ℕ
  pub expected_id : Bytes
  pub after_revision : ℕ
  pub reserved_end : ℕ
  pub limits : Limits

abbrev pub frame_header_size : ℕ
frame_header_size = 28

abbrev wal_error : String → Error
wal_error reason = corrupt_wal reason 0

-- `validateFramePrefix`
unfoldable pub validate_frame_prefix : Bytes → (maximum operations : ℕ) → Result (Unit {0})
validate_frame_prefix prefix maximum operations = do
  let size = length prefix
  let version = be16 (slice 4 6 prefix)
  let total = be32 (slice 8 12 prefix)
  let count = be32 (slice 20 24 prefix)
  let payload = be32 (slice 24 28 prefix)
  reject (leb 4 size && not (key_eq (take 4 prefix) commit_magic))
      (wal_error "commit magic does not match CMIT")
  reject (leb 6 size && not (version == storage_version)) (unknown_format version)
  reject (leb 8 size && not (be16 (slice 6 8 prefix) == 0)) (wal_error "commit flags are nonzero")
  reject (leb 12 size && (ltb total fixed_size || ltb maximum total))
      (wal_error "declared commit frame size is outside bounds")
  reject (leb 24 size && be64 (slice 12 20 prefix) == 0) (wal_error "commit revision is zero")
  reject (leb 24 size && (count == 0 || ltb operations count))
      (wal_error "declared mutation count is outside configured bounds")
  reject (leb 28 size && not (total == fixed_size + payload))
      (wal_error "declared commit and payload lengths disagree")
  reject (leb 28 size && ltb (payload / effect_header) count)
      (wal_error "mutation count cannot fit in declared payload")

-- `withWALContext`, on the offset of an error
abbrev pub in_context {ℓ} : {A : Type ℓ} → ℕ → Result A → Result A
in_context offset (ok x) = ok x
in_context offset (err (corrupt_wal reason at)) = err (corrupt_wal reason (offset + at))
in_context offset (err e) = err e

-- What the loop returns when the last frame is incomplete.
abbrev pub torn : ScanInput → WalReplay → WalReplay
torn i r = record r {
  tail = some (record {
    old_size = i.physical_size;
    new_size = r.complete_offset;
    last_complete_revision = r.recovered_revision;
  });
}

-- The replay with a further commit, of a frame of `total` bytes.
abbrev pub extended : WalReplay → CommitFrame → ℕ → WalReplay
extended r commit total = record r {
  commits = r.commits ++ (commit ∷ []);
  recovered_revision = commit.revision;
  complete_offset = r.complete_offset + total;
}

-- The end of a round, with a whole frame read.
unfoldable pub scan_frame : ScanInput → WalReplay → Bytes → Result (WalReplay × Option Bytes)
scan_frame i r bytes = do
  let offset = r.complete_offset
  let total = be32 (slice 8 12 bytes)
  commit ← in_context offset (decode_commit_frame (take total bytes) i.limits)
  reject (leb commit.revision r.recovered_revision)
      (corrupt_wal "commit revisions are not strictly increasing" offset)
  reject (ltb i.reserved_end commit.revision) (revision_range_exhausted i.reserved_end)
  ok (extended r commit total, some (drop total bytes))

-- A round of the loop of `ScanWAL`: the replay, with the bytes that are left, or none at the end.
-- The offset in the loop is always `CompleteOffset`.
unfoldable pub scan_round : ScanInput → WalReplay → Bytes → Result (WalReplay × Option Bytes)
unfolding scan_frame
scan_round i r bytes =
    let offset = r.complete_offset in
    let prefix = take frame_header_size bytes in
    let checked =
      in_context offset
        (validate_frame_prefix prefix (frame_maximum i.limits) i.limits.max_batch_operations) in
    if length bytes == 0 && not i.fault
    then ok (r, none)
    else (if ltb (length bytes) frame_header_size
        then (reject i.fault (io_error "wal_read_frame_header" false)
            >> (checked >> ok (torn i r, none)))
        else (checked
            >> (if ltb (length bytes) (be32 (slice 8 12 bytes))
                then (reject i.fault (io_error "wal_read_frame" false) >> ok (torn i r, none))
                else scan_frame i r bytes)))

-- The loop of `ScanWAL`
unfoldable pub scan_frames : (fuel : ℕ) → ScanInput → WalReplay → Bytes → Option (Result WalReplay)
scan_frames zero i r bytes = none
scan_frames (suc fuel) i r bytes = elim (scan_round i r bytes) [
  | err e ↦ some (err e)
  | ok (r', none) ↦ some (ok r')
  | ok (r', some rest) ↦ scan_frames fuel i r' rest
]

-- `ScanWAL` up to its loop
unfoldable pub scan_header : ScanInput → Bytes → Result WalReplay
scan_header i bytes = do
  reject (ltb (length bytes) header_size) (wal_error "WAL header is incomplete")
  header ← decode_wal_header (take header_size bytes) i.expected_id
  reject (i.after_revision == 2 ^ 64 - 1 || not (header.first_revision == i.after_revision + 1))
      (wal_error "WAL first revision does not immediately follow the snapshot")
  ok (record {
    header = header;
    commits = [];
    recovered_revision = i.after_revision;
    complete_offset = header_size;
    tail = none;
  })

-- `ScanWAL`. A round takes a byte at least, so that the fuel is enough.
unfoldable pub scan_wal : ScanInput → Bytes → Option (Result WalReplay)
scan_wal i bytes = elim (scan_header i bytes) [
  | err e ↦ some (err e)
  | ok r ↦ scan_frames (suc (length bytes)) i r (drop header_size bytes)
]
