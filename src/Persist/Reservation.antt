-- ===== src/Persist/Reservation.antt =====
-- internal/persist/identity.go: the reservation of revisions, and the way that the identity file is
-- replaced. The directory is a state of the operating system; its operations are a parameter.
pub mod Fresh
use Prim.Native.String.{String}
use gapdb.Prelude.{
  ℕ, ◌+◌, ◌-◌, ◌^◌, ◌==◌, Bool, true, false, Option, none, some, Bytes, ltb, if◌then◌else◌,
}
use gapdb.Api.Errors.{
  Error, Result, ok, err, ◌>>=◌, ◌>>◌, reject, revision_range_exhausted, corrupt_identity, io_error,
}
use gapdb.Persist.Frames.{RevisionRange}
use gapdb.Persist.Header.{Identity, encode_identity}

-- The steps on the directory and on the temporary file in it; each answers whether it failed.
pub record DirectoryOps (D : Type 0) : Type 0 where
  pub random_suffix : D → D × Bool
  pub create_temp : D → D × Bool
  pub write_temp : D → Bytes → D × Bool
  pub sync_temp : D → D × Bool
  pub close_temp : D → D × Bool
  -- Whether it failed, and whether it had happened when it did (`faultfs.FailedAfter`).
  pub rename_temp : D → D × Bool × Bool
  pub sync_directory : D → D × Bool

-- The identity that a reservation leaves.
abbrev pub reserved : Identity → ℕ → Identity
reserved identity range_size = record identity {
  reserved_revision_end = identity.reserved_revision_end + range_size;
  generation = identity.generation + 1;
}

abbrev pub handed : Identity → ℕ → RevisionRange
handed identity range_size = record {
  first = identity.reserved_revision_end + 1;
  last = identity.reserved_revision_end + range_size;
}

-- The checks of `ReserveRevisions`, and the bytes that it installs.
unfoldable pub plan_reservation : Identity → (recovered range_size : ℕ) → Result Bytes
plan_reservation identity recovered range_size = do
  let last = identity.reserved_revision_end
  reject (ltb last recovered) (revision_range_exhausted last)
  reject (range_size == 0) (revision_range_exhausted last)
  reject (ltb (2 ^ 64 - 1 - range_size) last) (revision_range_exhausted last)
  reject (identity.generation == 2 ^ 64 - 1) (revision_range_exhausted last)
  encode_identity (reserved identity range_size)

module _ {D : Type 0} (ops : DirectoryOps D) where
  abbrev Step : Type 0
  Step = D → D × Result (Unit {0})

  -- A step, and the next one if it did not fail.
  abbrev then_step : D × Bool → Error → Step → D × Result (Unit {0})
  then_step (d, true) e next = (d, err e)
  then_step (d, false) e next = next d

  finish_install : Step
  finish_install d =
      then_step (ops.sync_directory d) (io_error "identity_directory_sync" true) (λ d'. (d', ok tt))

  rename_identity : D × Bool × Bool → D × Result (Unit {0})
  unfolding finish_install
  rename_identity (d, true, after) = (d, err (io_error "identity_rename" after))
  rename_identity (d, false, after) = finish_install d

  -- `installIdentity`
  unfoldable pub install_identity : D → Bytes → D × Result (Unit {0})
  unfolding rename_identity
  install_identity d encoded =
      then_step (ops.random_suffix d) (io_error "generate_temp_name" false) (λ d1.
        then_step (ops.create_temp d1) (io_error "identity_temp_create" false) (λ d2.
          then_step (ops.write_temp d2 encoded) (io_error "identity_temp_write" false) (λ d3.
            then_step (ops.sync_temp d3) (io_error "identity_temp_sync" false) (λ d4.
              then_step (ops.close_temp d4) (io_error "identity_temp_close" false)
                (λ d5. rename_identity (ops.rename_temp d5))))))

  -- `ReserveRevisions`
  unfoldable pub reserve_revisions :
      D → Identity → (recovered range_size : ℕ) → D × Result (Identity × RevisionRange)
  reserve_revisions d identity recovered range_size =
      elim (plan_reservation identity recovered range_size) [
        | err e ↦ (d, err e)
        | ok encoded ↦
            let (d', installed) = install_identity d encoded in
            (d', installed >> ok (reserved identity range_size, handed identity range_size))
      ]

-- `ValidateIdentity`
unfoldable validate_identity : Identity → (minimum_generation recovered : ℕ) → Result (Unit {0})
validate_identity identity minimum_generation recovered = do
  reject (ltb identity.generation minimum_generation)
      (corrupt_identity "identity generation regressed")
  reject (ltb identity.reserved_revision_end recovered)
      (revision_range_exhausted identity.reserved_revision_end)
