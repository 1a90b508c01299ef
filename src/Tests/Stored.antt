-- ===== src/Tests/Stored.antt =====
-- A snapshot file of two records, one of which has expired, and the theorem on it.
use gapdb.Prelude.{none, some, [], ◌∷◌, Bytes, ◌≡◌, refl, key_lt, key_eq, utf8_valid}
use gapdb.Prelude.Slices.{zeros, all_zero}
use gapdb.Prelude.Int.{pos, of_uint64, to_uint64}
use gapdb.Prelude.BigEndian.{put16, put64, be16, be64}
use gapdb.Engine.Admission.{expiry_representable}
use gapdb.Api.Errors.{Result, ok, err}
use gapdb.Api.Options.{default_options}
use gapdb.Api.Types.{new_record}
use gapdb.Persist.Recovery.{Manifest, SnapshotState, validate_snapshot_state}
use gapdb.Persist.Snapshot.{encode_snapshot, decode_snapshot, decode_records, decode_record}
use gapdb.Persist.Snapshot.Accepted.{decode_snapshot-validate_snapshot_state}
use gapdb.Tests.Storage.{database}

-- In place of SHA-256.
abbrev digest_of : Bytes → Bytes
digest_of b = 7 ∷ zeros 31

abbrev stored : SnapshotState
stored = record {
  revision = 5;
  records =
      new_record (b'b' ∷ []) (some (b'x' ∷ [])) 4 none
      ∷ new_record (b'a' ∷ b'a' ∷ []) (some []) 3 (some (pos 900))
      ∷ new_record (b'c' ∷ []) (some []) 5 (some (pos 100))
      ∷ [];
}

abbrev loaded : SnapshotState
loaded = record {
  revision = 5;
  records =
      new_record (b'a' ∷ b'a' ∷ []) (some []) 3 (some (pos 900))
      ∷ new_record (b'b' ∷ []) (some (b'x' ∷ [])) 4 none
      ∷ [];
}

abbrev manifest_5 : Manifest
manifest_5 = record { generation = 2; snapshot_revision = 5; wal_start_revision = 6 }

abbrev pair_in : Result (Bytes × Bytes) → Bytes × Bytes
pair_in (ok p) = p
pair_in (err e) = ([], [])

file_of_stored : Bytes × Bytes
unfolding encode_snapshot
file_of_stored = pair_in (encode_snapshot digest_of database stored (pos 500) default_options)

stored-loaded :
    decode_snapshot digest_of file_of_stored.0 database file_of_stored.1 default_options ≡ ok loaded
unfolding file_of_stored decode_snapshot decode_records decode_record all_zero key_lt key_eq
    utf8_valid expiry_representable of_uint64 to_uint64 put16 put64 be16 be64
stored-loaded = refl

decode_snapshot-validate_snapshot_state_example : validate_snapshot_state loaded manifest_5 ≡ ok tt
decode_snapshot-validate_snapshot_state_example =
    decode_snapshot-validate_snapshot_state digest_of file_of_stored.0 database file_of_stored.1
      default_options loaded manifest_5 stored-loaded refl
