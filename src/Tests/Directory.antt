-- ===== src/Tests/Directory.antt =====
-- A directory whose operations never fail, and the theorems on reservations and recovery in it.
use mathlib.Core.Path.{subst}
use gapdb.Prelude.{
  ltb, ◌&&◌, ℕ, suc, ◌+◌, ◌-◌, ◌≤◌, ◌<◌, ◌^◌, Bool, true, false, Option, none, some, List, [], ◌∷◌,
  ◌++◌, Bytes, length, take, ◌≡◌, refl, arith, All,
}
use gapdb.Api.Errors.{ok, err, operation_applied, after_apply, revision_range_exhausted}
use gapdb.Api.Options.{default_options}
use gapdb.Persist.Header.{is_zero_id, Identity, encode_identity, decode_identity, encode_wal_header}
use gapdb.Persist.Header.Canonical.{
  encode_identity-decode_identity, encode_wal_header-decode_wal_header,
}
use gapdb.Persist.Header.RoundTrip.{
  decode_identity-encode_identity, decode_wal_header-encode_wal_header,
}
use gapdb.Persist.Header.Bounds.{IsBytes}
use gapdb.Persist.Reservation.{DirectoryOps, install_identity, reserve_revisions, reserved, handed}
use gapdb.Persist.Reservation.Fresh.{
  IsDirectory, Installed, install_identity-Installed, Fresh, reserve_revisions-Fresh,
}
use gapdb.Persist.Scan.{WalReplay, TailTruncation, scan_wal}
use gapdb.Persist.Recovery.{
  Manifest, SnapshotState, RecoveryOps, RecoveryResult, Loaded, recovery_result, finish_recovery,
  recover_database,
}
use gapdb.Persist.Recovery.Recovered.{finish_recovery-applied}
use gapdb.Persist.Recovery.Opened.{Opened, recover_database-Opened}
use gapdb.Tests.Storage.{bytes_in, database, header_4, log_start, log_start-encoded}

-- The identity file and the temporary file.
abbrev Directory : Type 0
Directory = Bytes × Bytes

abbrev directory_ops : DirectoryOps Directory
directory_ops = record {
  random_suffix = λ d. (d, false);
  create_temp = λ d. ((d.0, []), false);
  write_temp = λ d b. ((d.0, b), false);
  sync_temp = λ d. (d, false);
  close_temp = λ d. (d, false);
  rename_temp = λ d. ((d.1, d.1), false, false);
  sync_directory = λ d. (d, false);
}

abbrev directory_ops-IsDirectory : IsDirectory directory_ops
directory_ops-IsDirectory = record {
  identity_file = λ d. d.0;
  temp = λ d. d.1;
  random_same = λ d. refl;
  create_same = λ d. refl;
  write_same = λ d b. refl;
  write_temp = λ d b q. refl;
  sync_same = λ d. refl;
  sync_temp = λ d. refl;
  close_same = λ d. refl;
  close_temp = λ d. refl;
  renamed = λ d q. refl;
  rename_after = λ d q. refl;
  rename_kept = λ d q. cc;
  directory_same = λ d. refl;
}

abbrev identity_10 : Identity
identity_10 = record { database_id = database; reserved_revision_end = 10; generation = 2 }

abbrev identity_file_10 : Bytes
identity_file_10 = bytes_in (encode_identity identity_10)

abbrev identity_file_15 : Bytes
identity_file_15 = bytes_in (encode_identity (reserved identity_10 5))

identity_10-encoded : encode_identity identity_10 ≡ ok identity_file_10
unfolding encode_identity gapdb.Prelude.Slices.all_zero
identity_10-encoded = refl

decode_identity-encode_identity_example : decode_identity identity_file_10 ≡ ok identity_10
decode_identity-encode_identity_example =
    decode_identity-encode_identity identity_10 identity_file_10 refl (omega arith) (omega arith)
      identity_10-encoded

abbrev directory_10 : Directory
directory_10 = (identity_file_10, [])

install_identity-Installed_example :
    Installed directory_ops directory_ops-IsDirectory directory_10 identity_file_15
      (install_identity directory_ops directory_10 identity_file_15)
install_identity-Installed_example =
    install_identity-Installed directory_ops directory_ops-IsDirectory directory_10 identity_file_15

reserved_5 :
    reserve_revisions directory_ops directory_10 identity_10 7 5
    ≡ ((identity_file_15, identity_file_15), ok (reserved identity_10 5, handed identity_10 5))
unfolding reserve_revisions gapdb.Persist.Reservation.plan_reservation encode_identity
    gapdb.Prelude.Slices.all_zero install_identity
reserved_5 = refl

reserve_revisions-Fresh_example :
    Fresh directory_ops directory_ops-IsDirectory identity_10 7 identity_file_15
      (reserved identity_10 5)
      (handed identity_10 5)
reserve_revisions-Fresh_example =
    reserve_revisions-Fresh directory_ops directory_ops-IsDirectory directory_10
      (identity_file_15, identity_file_15) identity_10 (reserved identity_10 5) 7 5
      (handed identity_10 5) refl (omega arith) (omega arith) (omega arith) reserved_5

abbrev manifest_1 : Manifest
manifest_1 = record { generation = 1; snapshot_revision = 3; wal_start_revision = 4 }

abbrev recovery_ops : RecoveryOps Directory
recovery_ops = record {
  directory = directory_ops;
  acquire_owner = λ d. (d, ok tt);
  read_identity = λ d. ok identity_file_10;
  read_manifest = λ d id. ok manifest_1;
  loader = some (λ d m. ok (record { revision = 3; records = [] }));
  open_wal = λ d m. ok (record { bytes = log_start; fault = false; physical_size = 64 });
  truncate = λ d n. (d, false);
  sync_wal = λ d. (d, false);
  audit_tail = some (λ tail. false);
  list_directory = λ d. ok tt;
}

all_bytes : Bytes → Bool
all_bytes [] = true
all_bytes (b ∷ bs) = ltb b 256 && all_bytes bs

all_bytes-IsBytes : (bs : Bytes) → all_bytes bs ≡ true → IsBytes bs
unfolding all_bytes
all_bytes-IsBytes [] q = tt
all_bytes-IsBytes (b ∷ bs) q = (ground (arith, q), all_bytes-IsBytes bs (ground (arith, q)))

identity_file_10-IsBytes :
    (d : Directory) (file : Bytes) → recovery_ops.read_identity d ≡ ok file → IsBytes file
unfolding all_bytes encode_identity gapdb.Prelude.Slices.all_zero gapdb.Prelude.BigEndian.put16
    gapdb.Prelude.BigEndian.put64 gapdb.Prelude.Crc.crc32c
identity_file_10-IsBytes d file q =
    let same : identity_file_10 ≡ file = ground (arith, q) in
    subst IsBytes same (all_bytes-IsBytes identity_file_10 refl)

abbrev loaded : Loaded
loaded = record {
  identity = identity_10;
  manifest = manifest_1;
  snapshot = record { revision = 3; records = [] };
  replay = record {
    header = header_4;
    commits = [];
    recovered_revision = 3;
    complete_offset = 64;
    tail = none;
  };
}

abbrev recovered : RecoveryResult
recovered = recovery_result loaded (reserved identity_10 5) (handed identity_10 5)

recovered-answered :
    recover_database recovery_ops directory_10 default_options 5
    ≡ ((identity_file_15, identity_file_15), some (ok recovered))
unfolding recover_database gapdb.Persist.Recovery.read_database decode_identity encode_identity
    gapdb.Prelude.Slices.all_zero gapdb.Prelude.BigEndian.put16 gapdb.Prelude.BigEndian.put64
    gapdb.Prelude.key_eq gapdb.Prelude.BigEndian.be16 gapdb.Prelude.Crc.crc32c
    gapdb.Prelude.BigEndian.be32 gapdb.Prelude.BigEndian.be64
    gapdb.Persist.Recovery.validate_snapshot_state scan_wal gapdb.Persist.Scan.scan_header
    encode_wal_header gapdb.Persist.Header.decode_wal_header gapdb.Persist.Scan.scan_frames
    gapdb.Persist.Recovery.apply_wal_tail finish_recovery install_identity
    gapdb.Persist.Reservation.plan_reservation reserve_revisions gapdb.Persist.Scan.scan_round
    gapdb.Persist.Scan.validate_frame_prefix gapdb.Prelude.BigEndian.put32
recovered-answered = refl

recover_database-Opened_example :
    Opened recovery_ops directory_ops-IsDirectory (identity_file_15, identity_file_15) recovered
recover_database-Opened_example =
    recover_database-Opened recovery_ops directory_ops-IsDirectory directory_10
      (identity_file_15, identity_file_15) default_options 5 recovered identity_file_10-IsBytes
      (omega arith) recovered-answered

abbrev cut_off : TailTruncation
cut_off = record { old_size = 70; new_size = 64; last_complete_revision = 3 }

abbrev torn_database : Loaded
torn_database = record loaded { replay = record loaded.replay { tail = some cut_off } }

torn-refused :
    finish_recovery recovery_ops directory_10 torn_database 0
    ≡ (directory_10, err (after_apply (revision_range_exhausted 10)))
unfolding finish_recovery gapdb.Persist.Recovery.apply_wal_tail
torn-refused = refl

finish_recovery-applied_example :
    operation_applied (after_apply (revision_range_exhausted 10)) ≡ true
finish_recovery-applied_example =
    finish_recovery-applied recovery_ops directory_10 directory_10 torn_database 0 cut_off
      (after_apply (revision_range_exhausted 10)) refl torn-refused

identity_10-IsBytes : IsBytes identity_file_10
identity_10-IsBytes = identity_file_10-IsBytes directory_10 identity_file_10 refl

encode_identity-decode_identity_example : encode_identity identity_10 ≡ ok identity_file_10
encode_identity-decode_identity_example =
    encode_identity-decode_identity identity_file_10 identity_10 identity_10-IsBytes (
      decode_identity-encode_identity identity_10 identity_file_10 refl (omega arith) (omega arith)
        identity_10-encoded)

log_start-IsBytes : IsBytes log_start
unfolding all_bytes gapdb.Persist.Header.encode_wal_header gapdb.Prelude.Slices.all_zero
    gapdb.Prelude.BigEndian.put16 gapdb.Prelude.BigEndian.put64 gapdb.Prelude.Crc.crc32c
log_start-IsBytes = all_bytes-IsBytes log_start refl

database-some : is_zero_id database ≡ false
unfolding gapdb.Prelude.Slices.all_zero
database-some = refl

encode_wal_header-decode_wal_header_example :
    (database ≡ database) × (encode_wal_header header_4 ≡ ok log_start)
encode_wal_header-decode_wal_header_example =
    encode_wal_header-decode_wal_header log_start database header_4 log_start-IsBytes database-some
      (decode_wal_header-encode_wal_header header_4 log_start refl (omega arith) (omega arith)
        log_start-encoded).0
