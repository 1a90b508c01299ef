-- ===== src/Persist/Reservation/Fresh.antt =====
-- A reservation hands out revisions that no earlier one did, and that the identity file covers.
use gapdb.Prelude.{
  ℕ, ◌+◌, ◌-◌, ◌^◌, ◌≤◌, ◌<◌, ◌==◌, Bool, true, false, Bytes, length, ltb, ◌≡◌, refl, ap, ◌∙◌,
  arith, Bool-cases, inl, inr,
}
use gapdb.Api.Errors.{
  ◌>>◌, Error, Result, ok, err, reject, >>=-eq-ok, Result-cases, operation_applied,
}
use gapdb.Persist.Frames.{RevisionRange}
use gapdb.Persist.Header.{Identity, encode_identity, decode_identity}
use gapdb.Persist.Header.RoundTrip.{decode_identity-encode_identity}
use gapdb.Persist.Reservation.{
  DirectoryOps, install_identity, reserved, handed, plan_reservation, reserve_revisions,
  rename_identity, finish_install, then_step, then_step,
}

-- What the file system promises: `identity_file` is what a reader of the identity file finds, and
-- `temp` the bytes of the temporary file. A rename happens entirely or not at all.
pub record IsDirectory {D : Type 0} (ops : DirectoryOps D) : Type 0 where
  pub identity_file : D → Bytes
  pub temp : D → Bytes
  pub random_same : (d : D) → identity_file (ops.random_suffix d).0 ≡ identity_file d
  pub create_same : (d : D) → identity_file (ops.create_temp d).0 ≡ identity_file d
  pub write_same : (d : D) (b : Bytes) → identity_file (ops.write_temp d b).0 ≡ identity_file d
  pub write_temp :
      (d : D) (b : Bytes) → (ops.write_temp d b).1 ≡ false → temp (ops.write_temp d b).0 ≡ b
  pub sync_same : (d : D) → identity_file (ops.sync_temp d).0 ≡ identity_file d
  pub sync_temp : (d : D) → temp (ops.sync_temp d).0 ≡ temp d
  pub close_same : (d : D) → identity_file (ops.close_temp d).0 ≡ identity_file d
  pub close_temp : (d : D) → temp (ops.close_temp d).0 ≡ temp d
  pub renamed :
      (d : D) → (ops.rename_temp d).1 ≡ false → identity_file (ops.rename_temp d).0 ≡ temp d
  pub rename_after :
      (d : D) → (ops.rename_temp d).2 ≡ true → identity_file (ops.rename_temp d).0 ≡ temp d
  pub rename_kept :
      (d : D)
      → (ops.rename_temp d).1 ≡ true
      → (ops.rename_temp d).2 ≡ false
      → identity_file (ops.rename_temp d).0 ≡ identity_file d
  pub directory_same : (d : D) → identity_file (ops.sync_directory d).0 ≡ identity_file d

module _ {D : Type 0} (ops : DirectoryOps D) (directory : IsDirectory ops) where
  -- After an installation the file is the new one if the call succeeded or says that it was
  -- applied, and the old one otherwise.
  pub data Installed (d : D) (encoded : Bytes) : D × Result (Unit {0}) → Type 0 where
    in_place : (d' : D) → directory.identity_file d' ≡ encoded → Installed d encoded (d', ok tt)
    applied :
        (d' : D) (e : Error)
        → operation_applied e ≡ true
        → directory.identity_file d' ≡ encoded
        → Installed d encoded (d', err e)
    untouched :
        (d' : D) (e : Error)
        → operation_applied e ≡ false
        → directory.identity_file d' ≡ directory.identity_file d
        → Installed d encoded (d', err e)

  Installed-then_step :
      (d : D) (encoded : Bytes) (x : D × Bool) (e : Error) (next : D → D × Result (Unit {0}))
      → directory.identity_file x.0 ≡ directory.identity_file d
      → operation_applied e ≡ false
      → (x.1 ≡ false → Installed d encoded (next x.0))
      → Installed d encoded (then_step ops x e next)
  Installed-then_step d encoded (d', true) e next same before go = untouched d' e before same
  Installed-then_step d encoded (d', false) e next same before go = go refl

  finish-Installed :
      (d d' : D) (encoded : Bytes)
      → directory.identity_file d' ≡ encoded
      → Installed d encoded (finish_install ops d')
  unfolding finish_install operation_applied
  finish-Installed d d' encoded there =
      let there' = directory.directory_same d' ∙ there in
      elim (Bool-cases (ops.sync_directory d').1) [
        | inl e ↦ rw e (applied (ops.sync_directory d').0 _ refl there')
        | inr e ↦ rw e (in_place (ops.sync_directory d').0 there')
      ]

  rename-Installed :
      (d : D) (encoded : Bytes) (x : D × Bool × Bool)
      → (x.1 ≡ false → directory.identity_file x.0 ≡ encoded)
      → (x.2 ≡ true → directory.identity_file x.0 ≡ encoded)
      → (x.1 ≡ true → x.2 ≡ false → directory.identity_file x.0 ≡ directory.identity_file d)
      → Installed d encoded (rename_identity ops x)
  unfolding rename_identity operation_applied
  rename-Installed d encoded (d', true, true) new new' old = applied d' _ refl (new' refl)
  rename-Installed d encoded (d', true, false) new new' old = untouched d' _ refl (old refl refl)
  rename-Installed d encoded (d', false, after) new new' old =
      finish-Installed d d' encoded (new refl)

  -- With a directory whose renames are atomic, the identity file holds the new bytes if its
  -- installation succeeds or its error says that the operation was applied, and the old bytes
  -- otherwise.
  pub install_identity-Installed :
      (d : D) (encoded : Bytes) → Installed d encoded (install_identity ops d encoded)
  unfolding install_identity operation_applied
  install_identity-Installed d encoded =
      let d1 = (ops.random_suffix d).0 in
      let d2 = (ops.create_temp d1).0 in
      let d3 = (ops.write_temp d2 encoded).0 in
      let d4 = (ops.sync_temp d3).0 in
      let d5 = (ops.close_temp d4).0 in
      let same1 = directory.random_same d in
      let same2 = directory.create_same d1 ∙ same1 in
      let same3 = directory.write_same d2 encoded ∙ same2 in
      let same4 = directory.sync_same d3 ∙ same3 in
      let same5 = directory.close_same d4 ∙ same4 in
      Installed-then_step d encoded (ops.random_suffix d) _ _ same1 refl (λ _.
        Installed-then_step d encoded (ops.create_temp d1) _ _ same2 refl (λ _.
          Installed-then_step d encoded (ops.write_temp d2 encoded) _ _ same3 refl (λ wrote.
            Installed-then_step d encoded (ops.sync_temp d3) _ _ same4 refl (λ _.
              Installed-then_step d encoded (ops.close_temp d4) _ _ same5 refl (λ _.
                let ready : directory.temp d5 ≡ encoded =
                  directory.close_temp d4
                  ∙ directory.sync_temp d3
                  ∙ directory.write_temp d2 encoded wrote in
                rename-Installed d encoded (ops.rename_temp d5)
                  (λ q. directory.renamed d5 q ∙ ready) (λ q. directory.rename_after d5 q ∙ ready)
                  (λ q q'. directory.rename_kept d5 q q' ∙ same5))))))

  -- What a reservation that succeeds has handed out.
  pub record Fresh (identity : Identity) (recovered : ℕ) (file : Bytes) (next : Identity)
      (range : RevisionRange) : Type 0 where
    pub unused : range.first ≡ identity.reserved_revision_end + 1
    pub above : recovered < range.first
    pub some_revision : range.first ≤ range.last
    pub no_overflow : range.last < 2 ^ 64
    pub covered : next.reserved_revision_end ≡ range.last
    pub kept : decode_identity file ≡ ok next

  planned :
      (identity : Identity) (recovered range_size : ℕ) (encoded : Bytes)
      → identity.reserved_revision_end < 2 ^ 64
      → identity.generation < 2 ^ 64
      → range_size < 2 ^ 64
      → plan_reservation identity recovered range_size ≡ ok encoded
      → (recovered ≤ identity.reserved_revision_end)
        × (0 < range_size)
        × (identity.reserved_revision_end + range_size < 2 ^ 64)
        × (identity.generation + 1 < 2 ^ 64)
        × (encode_identity (reserved identity range_size) ≡ ok encoded)
  unfolding plan_reservation
  planned identity recovered range_size encoded small small' word q =
      let last = identity.reserved_revision_end in
      let (_, p1, q1) = >>=-eq-ok (reject (ltb last recovered) _) _ q in
      let (_, p2, q2) = >>=-eq-ok (reject (range_size == 0) _) _ q1 in
      let (_, p3, q3) = >>=-eq-ok (reject (ltb (2 ^ 64 - 1 - range_size) last) _) _ q2 in
      let (_, p4, q4) = >>=-eq-ok (reject (identity.generation == 2 ^ 64 - 1) _) _ q3 in
      let below : last ≤ 2 ^ 64 - 1 - range_size = ground (arith, p3) in
      (ground (arith, p1), ground (arith, p2), omega arith, ground (arith, p4, small'), q4)

  answered :
      {A : Type 0} (d d' : D) (encoded : Bytes) (x : D × Result (Unit {0})) (a a' : A)
      → Installed d encoded x
      → ◌≡◌ {A = D × Result A} (x.0, x.1 >> ok a) (d', ok a')
      → (directory.identity_file d' ≡ encoded) × (a ≡ a')
  answered d d' encoded _ a a' (in_place d2 there) q = (ground (arith, q, there), ground (arith, q))
  answered d d' encoded _ a a' (applied d2 e yes_applied there) q = cc
  answered d d' encoded _ a a' (untouched d2 e not_applied same) q = cc

  -- If a reservation succeeds, for an identity with an id of 16 bytes, numbers below 2^64 and a
  -- size below 2^64, then its range is not empty, starts right behind the last reservation and
  -- above the recovered revision, ends below 2^64, and the identity file decodes to an identity
  -- whose reservation ends with the range.
  pub reserve_revisions-Fresh :
      (d d' : D) (identity next : Identity) (recovered range_size : ℕ) (range : RevisionRange)
      → length identity.database_id ≡ 16
      → identity.reserved_revision_end < 2 ^ 64
      → identity.generation < 2 ^ 64
      → range_size < 2 ^ 64
      → reserve_revisions ops d identity recovered range_size ≡ (d', ok (next, range))
      → Fresh identity recovered (directory.identity_file d') next range
  unfolding reserve_revisions plan_reservation
  reserve_revisions-Fresh d d' identity next recovered range_size range sixteen small small' word
        q =
      elim (Result-cases (plan_reservation identity recovered range_size)) [
        | inr (e, failed) ↦ cc
        | inl (encoded, p) ↦
            let (le, some_size, bound, gen, made) =
              planned identity recovered range_size encoded small small' word p in
            let (there, same) =
              answered d d' encoded (install_identity ops d encoded)
                (reserved identity range_size, handed identity range_size) (next, range)
                (install_identity-Installed d encoded) (rw (p, reserve_revisions) at q) in
            let next_is : reserved identity range_size ≡ next = ap (λ x. x.0) same in
            let range_is : handed identity range_size ≡ range = ap (λ x. x.1) same in
            rw (← next_is, ← range_is, there)
              (record {
                unused = refl;
                above = omega arith;
                some_revision = omega arith;
                no_overflow = bound;
                covered = refl;
                kept =
                    decode_identity-encode_identity (reserved identity range_size) encoded sixteen
                      bound gen made;
              })
      ]
