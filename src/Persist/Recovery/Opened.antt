-- ===== src/Persist/Recovery/Opened.antt =====
-- A recovery that succeeds has put the database into a state from which it can go on.
use gapdb.Prelude.{
  ℕ, ◌^◌, ◌≤◌, ◌<◌, Bool, true, false, some, Bytes, ◌≡◌, refl, ap, ◌∙◌, arith, Option-cases, inl,
  inr,
}
use gapdb.Api.Errors.{Result, ok, err, >>=-eq-ok, Result-cases}
use gapdb.Api.Options.{Limits}
use gapdb.Api.Validate.{is_some}
use gapdb.Persist.Header.{decode_identity}
use gapdb.Persist.Header.Bounds.{IsBytes, IsIdentity, decode_identity-IsIdentity}
use gapdb.Persist.Reservation.{reserve_revisions}
use gapdb.Persist.Reservation.Fresh.{IsDirectory, reserve_revisions-Fresh}
use gapdb.Persist.Scan.Ordered.{Increases}
use gapdb.Persist.Recovery.{
  RecoveryResult, RecoveryOps, with_applied, apply_wal_tail, Loaded, read_database, recovery_result,
  check_settings, reserve_next, finish_recovery, recover_database,
}
use gapdb.Persist.Recovery.Recovered.{read_database-Read}

with_applied-ok :
    {A : Type 0} (flag : Bool) (r : Result A) (a : A) → with_applied flag r ≡ ok a → r ≡ ok a
with_applied-ok true (ok x) a q = q
with_applied-ok true (err e) a q = cc
with_applied-ok false (ok x) a q = q
with_applied-ok false (err e) a q = q

module _ {D : Type 0} (ops : RecoveryOps D) (directory : IsDirectory ops.directory) where
  -- The revisions that were recovered increase from the snapshot's on, the next ones are above
  -- them all, and the identity file covers those.
  pub record Opened (d : D) (r : RecoveryResult) : Type 0 where
    pub ordered : Increases r.manifest.snapshot_revision r.current_revision r.commits
    pub durable : r.durable_through_revision ≡ r.current_revision
    pub above : r.current_revision < r.allocation.first
    pub some_revision : r.allocation.first ≤ r.allocation.last
    pub no_overflow : r.allocation.last < 2 ^ 64
    pub covered : r.identity.reserved_revision_end ≡ r.allocation.last
    pub kept : decode_identity (directory.identity_file d) ≡ ok r.identity

  reserve_next-Opened :
      (d d' : D) (l : Loaded) (size : ℕ) (r : RecoveryResult)
      → IsIdentity l.identity
      → size < 2 ^ 64
      → Increases l.manifest.snapshot_revision l.replay.recovered_revision l.replay.commits
      → reserve_next ops d l size ≡ (d', ok r)
      → Opened d' r
  unfolding reserve_next
  reserve_next-Opened d d' l size r small word ordered q =
      let made = reserve_revisions ops.directory d l.identity l.replay.recovered_revision size in
      let (next, p, q1) =
        >>=-eq-ok (with_applied (is_some l.replay.tail) made.1)
          (λ n. ok (recovery_result l n.0 n.1)) (ap (λ x. x.1) q) in
      let reached : made ≡ (d', ok (next.0, next.1)) =
        ground (arith, with_applied-ok (is_some l.replay.tail) made.1 next p, ap (λ x. x.0) q) in
      let fresh =
        reserve_revisions-Fresh ops.directory directory d d' l.identity next.0
          l.replay.recovered_revision size next.1 small.sixteen small.end_small
          small.generation_small word reached in
      let same : recovery_result l next.0 next.1 ≡ r = ground (arith, q1) in
      rw (← same) (record {
        ordered = ordered;
        durable = refl;
        above = fresh.above;
        some_revision = fresh.some_revision;
        no_overflow = fresh.no_overflow;
        covered = fresh.covered;
        kept = fresh.kept;
      })

  finish_recovery-Opened :
      (d d' : D) (l : Loaded) (size : ℕ) (r : RecoveryResult)
      → IsIdentity l.identity
      → size < 2 ^ 64
      → Increases l.manifest.snapshot_revision l.replay.recovered_revision l.replay.commits
      → finish_recovery ops d l size ≡ (d', ok r)
      → Opened d' r
  unfolding finish_recovery
  finish_recovery-Opened d d' l size r small word ordered q =
      let d1 = (apply_wal_tail ops d l.replay.tail).0 in
      elim (Result-cases (apply_wal_tail ops d l.replay.tail).1) [
        | inr (e, p) ↦ cc
        | inl (u, p) ↦
            elim (Result-cases
              (with_applied (is_some l.replay.tail) (check_settings ops d1 l size))) [
                | inr (e, p') ↦ cc
                | inl (u', p') ↦
                    reserve_next-Opened d1 d' l size r small word ordered
                      (rw (p, p', finish_recovery) at q)
              ]
      ]

  -- If the identity file is read as bytes, the reservation size is a uint64 and RecoverDatabase
  -- succeeds on a directory whose renames are atomic, then the recovered revisions increase from
  -- that of the snapshot to the current one, the revisions allocated next are above it and do not
  -- overflow, and the identity file decodes to an identity whose reservation ends with them.
  pub recover_database-Opened :
      (d d' : D) (limits : Limits) (size : ℕ) (r : RecoveryResult)
      → ((e : D) (file : Bytes) → ops.read_identity e ≡ ok file → IsBytes file)
      → size < 2 ^ 64
      → recover_database ops d limits size ≡ (d', some (ok r))
      → Opened d' r
  unfolding recover_database
  recover_database-Opened d d' limits size r sized word q =
      let d1 = (ops.acquire_owner d).0 in
      elim (Result-cases (ops.acquire_owner d).1) [
        | inr (e, p) ↦ cc
        | inl (u, p) ↦ elim (Option-cases (read_database ops d1 limits)) [
          | inl p' ↦ cc
          | inr (answer, p') ↦ elim (Result-cases answer) [
            | inr (e, p'') ↦ cc
            | inl (l, p'') ↦
                let found = p' ∙ ap some p'' in
                let read = read_database-Read ops d1 limits l found in
                let last : finish_recovery ops d1 l size ≡ (d', ok r) =
                  ground (arith, rw (p, found, recover_database) at q) in
                finish_recovery-Opened d1 d' l size r
                  (decode_identity-IsIdentity read.file l.identity (sized d1 read.file read.read)
                    read.decoded)
                  word read.ordered last
          ]
        ]
      ]
