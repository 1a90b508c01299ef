-- ===== src/Persist/Recovery/Recovered.antt =====
-- A recovery that succeeds has put the database into a state from which it can go on.
use mathlib.Core.Path.{subst}
use gapdb.Prelude.{
  ℕ, ◌≤◌, ◌==◌, ◌||◌, not, true, Option, none, some, Bytes, ◌≡◌, sym, ap, ◌∙◌, arith, ◌⊎◌, inl, inr,
}
use gapdb.Api.Errors.{Error, Result, ok, err, reject, >>=-eq-ok, Result-cases, operation_applied}
use gapdb.Api.Options.{Limits}
use gapdb.Api.Validate.{is_some}
use gapdb.Persist.Header.{Identity, decode_identity}
use gapdb.Persist.Reservation.{reserve_revisions}
use gapdb.Persist.Scan.{in_context, WalReplay, TailTruncation}
use gapdb.Persist.Scan.Ordered.{Increases, in_context-ok, scan_wal-Sound, scan_wal-finished}
use gapdb.Persist.Recovery.{
  SnapshotState, recovery_input, check_log, read_snapshot, load, validate_snapshot_state, Manifest,
  RecoveryOps, with_applied, apply_wal_tail, Loaded, read_database, check_settings, reserve_next,
  finish_recovery,
}

module _ {D : Type 0} (ops : RecoveryOps D) where
  -- An error after the tail was cut says that something was applied.
  with_applied-applied :
      {A : Type 0} (r : Result A) (e : Error)
      → with_applied true r ≡ err e
      → operation_applied e ≡ true
  unfolding operation_applied
  with_applied-applied (ok a) e q = cc
  with_applied-applied (err e') e q = ground (arith, q)

  apply_wal_tail-applied :
      (d : D) (tail : Option TailTruncation) (e : Error)
      → (apply_wal_tail ops d tail).1 ≡ err e
      → operation_applied e ≡ true
  unfolding apply_wal_tail operation_applied
  apply_wal_tail-applied d none e q = cc
  apply_wal_tail-applied d (some tail) e q = ground (arith, q)

  flagged :
      {A : Type 0} (tail : Option TailTruncation) (cut : TailTruncation) (r : Result A) (e : Error)
      → tail ≡ some cut
      → with_applied (is_some tail) r ≡ err e
      → operation_applied e ≡ true
  flagged none cut r e h q = cc
  flagged (some t) cut r e h q = with_applied-applied r e q

  reserve_next-applied :
      (d : D) (l : Loaded) (reservation_size : ℕ) (cut : TailTruncation) (e : Error)
      → l.replay.tail ≡ some cut
      → (reserve_next ops d l reservation_size).1 ≡ err e
      → operation_applied e ≡ true
  unfolding reserve_next
  reserve_next-applied d l reservation_size cut e h q =
      let taken =
        (reserve_revisions ops.directory d l.identity l.replay.recovered_revision
          reservation_size).1 in
      elim (Result-cases (with_applied (is_some l.replay.tail) taken)) [
        | inl (next, p) ↦ cc
        | inr (e', p) ↦
            let same : e' ≡ e = ground (arith, rw (p, reserve_next) at q) in
            flagged l.replay.tail cut taken e h (p ∙ ap err same)
      ]

  -- If a torn tail was found and the recovery fails from its cut on, then the error says that the
  -- operation was applied.
  pub finish_recovery-applied :
      (d d' : D) (l : Loaded) (reservation_size : ℕ) (cut : TailTruncation) (e : Error)
      → l.replay.tail ≡ some cut
      → finish_recovery ops d l reservation_size ≡ (d', err e)
      → operation_applied e ≡ true
  unfolding finish_recovery
  finish_recovery-applied d d' l reservation_size cut e h q =
      let d1 = (apply_wal_tail ops d l.replay.tail).0 in
      let checked = check_settings ops d1 l reservation_size in
      elim (Result-cases (apply_wal_tail ops d l.replay.tail).1) [
        | inr (e', p) ↦
            let same : e' ≡ e = ground (arith, rw (p, finish_recovery) at q) in
            apply_wal_tail-applied d l.replay.tail e (p ∙ ap err same)
        | inl (u, p) ↦ elim (Result-cases (with_applied (is_some l.replay.tail) checked)) [
          | inr (e', p') ↦
              let same : e' ≡ e = ground (arith, rw (p, p', finish_recovery) at q) in
              flagged l.replay.tail cut checked e h (p' ∙ ap err same)
          | inl (u', p') ↦
              let last : reserve_next ops d1 l reservation_size ≡ (d', err e) =
                rw (p, p', finish_recovery) at q in
              reserve_next-applied d1 l reservation_size cut e h (ap (λ x. x.1) last)
        ]
      ]

  -- What was read before the cut.
  pub record Read (d : D) (l : Loaded) : Type 0 where
    pub file : Bytes
    pub read : ops.read_identity d ≡ ok file
    pub decoded : decode_identity file ≡ ok l.identity
    pub ordered :
        Increases l.manifest.snapshot_revision l.replay.recovered_revision l.replay.commits
    pub within :
        (l.replay.recovered_revision ≡ l.manifest.snapshot_revision)
        ⊎ (l.replay.recovered_revision ≤ l.identity.reserved_revision_end)

  check_log-replay :
      (identity : Identity) (manifest : Manifest) (snapshot : SnapshotState)
      (answer : Result WalReplay) (l : Loaded)
      → check_log identity manifest snapshot answer ≡ ok l
      → (replay : WalReplay) × (answer ≡ ok replay)
        × (l ≡ record {
          identity = identity;
          manifest = manifest;
          snapshot = snapshot;
          replay = replay;
        })
  unfolding check_log
  check_log-replay identity manifest snapshot answer l q =
      let (replay, p, q1) = >>=-eq-ok (in_context 0 answer) _ q in
      let (_, _, q2) =
        >>=-eq-ok
          (reject
            (not (replay.header.generation == manifest.generation)
              || not (replay.header.first_revision == manifest.wal_start_revision))
            _)
          _ q1 in
      (replay, in_context-ok 0 answer replay p, ground (arith, q2))

  read_snapshot-identity :
      (d : D) (identity : Identity) (manifest : Manifest) (snapshot : SnapshotState)
      → read_snapshot ops d ≡ ok (identity, manifest, snapshot)
      → (file : Bytes) × (ops.read_identity d ≡ ok file) × (decode_identity file ≡ ok identity)
  unfolding read_snapshot
  read_snapshot-identity d identity manifest snapshot q =
      let (file, p, q1) = >>=-eq-ok (ops.read_identity d) _ q in
      let (i, p1, q2) = >>=-eq-ok (decode_identity file) _ q1 in
      let (m, p2, q3) = >>=-eq-ok (ops.read_manifest d i.database_id) _ q2 in
      let (s, p3, q4) = >>=-eq-ok (load ops d m) _ q3 in
      let (_, p4, q5) = >>=-eq-ok (validate_snapshot_state s m) _ q4 in
      let same : i ≡ identity = ground (arith, q5) in (file, p, p1 ∙ ap ok same)

  pub read_database-Read :
      (d : D) (limits : Limits) (l : Loaded) → read_database ops d limits ≡ some (ok l) → Read d l
  unfolding read_database
  read_database-Read d limits l q = elim (Result-cases (read_snapshot ops d)) [
    | inr (e, p) ↦ cc
    | inl ((identity, manifest, snapshot), p) ↦ elim (Result-cases (ops.open_wal d manifest)) [
      | inr (e, p') ↦ cc
      | inl (file, p') ↦
          let i = recovery_input identity manifest file limits in
          let (answer, scanned) = scan_wal-finished i file.bytes in
          let checked : check_log identity manifest snapshot answer ≡ ok l =
            ground (arith, rw (p, p', scanned, read_database) at q) in
          let (replay, replayed, loaded) =
            check_log-replay identity manifest snapshot answer l checked in
          let sound = scan_wal-Sound i file.bytes replay (scanned ∙ ap some replayed) in
          let (encoded, read, decoded) = read_snapshot-identity d identity manifest snapshot p in
          subst (Read d) (sym loaded) (record {
            file = encoded;
            read = read;
            decoded = decoded;
            ordered = sound.ordered;
            within = sound.reserved;
          })
    ]
  ]
