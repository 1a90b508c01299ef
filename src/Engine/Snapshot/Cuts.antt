-- ===== src/Engine/Snapshot/Cuts.antt =====
-- What the commands at a durable cut leave of the engine.
use gapdb.Prelude.{
  ℕ, suc, ◌%◌, ◌^◌, ◌==◌, none, some, Bytes, ◌≡◌, refl, ap, ◌⊎◌, inl, inr, arith, Bool-cases,
}
use gapdb.Api.Errors.{degraded_read_only}
use gapdb.Api.Types.{Instant}
use gapdb.Engine.State.{Attempt, done, fault, panic, Storage, Engine}
use gapdb.Engine.Snapshot.{
  SnapshotCut, Installation, installed, refused, broken, SnapshotAnswer, switch_log,
  install_snapshot, execute_snapshot, cut_of, has_applied, AdminRun, finishes, breaks, fails,
  operated, execute_durable_admin,
}

module _ {L A : Type 0} (s : Storage L A) (e : Engine L A) where
  -- The engine after a cut: readers see what they saw; it goes on only where the log is durable
  -- through the current revision.
  pub record IsCut (e' : Engine L A) : Type 0 where
    pub same_store : e'.store ≡ e.store
    pub runs_on :
        (e'.lifecycle ≡ degraded_read_only)
        ⊎ ((e'.lifecycle ≡ e.lifecycle)
            × (e'.durable_through ≡ e.store.current)
            × (s.durable_of e'.log ≡ e.store.current))

  -- After a snapshot that was installed, the log starts after the snapshot's revision, a uint64.
  abbrev pub IsInstalled : Engine L A → Type 0
  IsInstalled e' =
      (e'.lifecycle ≡ e.lifecycle)
      × (e'.snapshot_revision ≡ e.store.current)
      × (e'.active_wal_start ≡ suc e.store.current % 2 ^ 64)

  abbrev pub Snapped : Engine L A × SnapshotAnswer → Type 0
  Snapped (e', answer) =
      IsCut e' × (answer.error ≡ none → IsInstalled e' × (answer.revision ≡ e.store.current))

  -- The engine that calls the installer.
  abbrev Ready : Engine L A → Type 0
  Ready e₁ =
      (e₁.store ≡ e.store)
      × (e₁.lifecycle ≡ e.lifecycle)
      × (e₁.durable_through ≡ e.store.current)
      × (s.durable_of e₁.log ≡ e.store.current)

  switch_log-Snapped :
      (e₁ : Engine L A) (cut : SnapshotCut) (next : L)
      → Ready e₁
      → cut.revision ≡ e.store.current
      → Snapped (switch_log s e₁ cut next)
  unfolding switch_log
  switch_log-Snapped e₁ cut next r c = elim (Bool-cases (s.durable_of next == cut.revision)) [
    | inl same ↦ rw same (
      record { same_store = r.0; runs_on = inr (r.1, r.2, ground (arith, same, c)) },
      λ q. ((r.1, c, ap (λ r. suc r % 2 ^ 64) c), c),
    )
    | inr other ↦ rw other (record { same_store = r.0; runs_on = inl refl }, λ q. cc)
  ]

  install_snapshot-Snapped :
      (install : SnapshotCut → Installation L) (e₁ : Engine L A) (cut : SnapshotCut)
      (i : Installation L)
      → install cut ≡ i
      → Ready e₁
      → cut.revision ≡ e.store.current
      → Snapped (install_snapshot s install cut e₁)
  unfolding install_snapshot
  install_snapshot-Snapped install e₁ cut (installed none) q r c =
      rw (q, install_snapshot) (record { same_store = r.0; runs_on = inl refl }, λ h. cc)
  install_snapshot-Snapped install e₁ cut (installed (some next)) q r c =
      rw (q, install_snapshot) (switch_log-Snapped e₁ cut next r c)
  install_snapshot-Snapped install e₁ cut (refused f) q r c =
      rw (q, install_snapshot)
        (elim (Bool-cases (has_applied f.api)) [
          | inl applied ↦ rw applied (record { same_store = r.0; runs_on = inl refl }, λ h. cc)
          | inr not_applied ↦
              rw not_applied (record { same_store = r.0; runs_on = inr (r.1, r.2, r.3) }, λ h. cc)
        ])
  install_snapshot-Snapped install e₁ cut broken q r c =
      rw (q, install_snapshot) (record { same_store = r.0; runs_on = inl refl }, λ h. cc)

  snapshot_attempt :
      (install : SnapshotCut → Installation L) (source : Instant) (t : Attempt L)
      → s.barrier e.log ≡ t
      → Snapped (execute_snapshot s install source e)
  unfolding execute_snapshot
  snapshot_attempt install source (panic l) q =
      rw (q, execute_snapshot) (record { same_store = refl; runs_on = inl refl }, λ h. cc)
  snapshot_attempt install source (fault l f) q =
      rw (q, execute_snapshot) (record { same_store = refl; runs_on = inl refl }, λ h. cc)
  snapshot_attempt install source (done l) q =
      rw (q, execute_snapshot)
        (elim (Bool-cases (s.durable_of l == e.store.current)) [
          | inl same ↦ rw same (
              install_snapshot-Snapped install _ (cut_of s source e) _ refl
                (refl, refl, ground (arith, same), ground (arith, same)) refl)
          | inr other ↦ rw other (record { same_store = refl; runs_on = inl refl }, λ h. cc)
        ])

  -- Whatever the installer does, a snapshot leaves the store as it is, and the engine is degraded
  -- or keeps its lifecycle with log and engine durable through the current revision; if no error
  -- is answered, the lifecycle is unchanged, the answer and the snapshot revision are the current
  -- revision, and the active log starts at the revision after it, modulo 2^64.
  pub execute_snapshot-IsCut :
      (install : SnapshotCut → Installation L) (source : Instant)
      → Snapped (execute_snapshot s install source e)
  execute_snapshot-IsCut install source = snapshot_attempt install source _ refl

  -- The operation is free to fail: the engine is what it was.
  admin_ran : (e₁ : Engine L A) → Ready e₁ → (run : AdminRun) → IsCut (operated s e₁ run).0
  admin_ran e₁ r finishes = record { same_store = r.0; runs_on = inr (r.1, r.2, r.3) }
  admin_ran e₁ r (fails f) = record { same_store = r.0; runs_on = inr (r.1, r.2, r.3) }
  admin_ran e₁ r breaks = record { same_store = r.0; runs_on = inl refl }

  admin_attempt :
      (operation : Bytes → ℕ → AdminRun) (t : Attempt L)
      → s.barrier e.log ≡ t
      → IsCut (execute_durable_admin s operation e).0
  unfolding execute_durable_admin
  admin_attempt operation (panic l) q =
      rw (q, execute_durable_admin) (record { same_store = refl; runs_on = inl refl })
  admin_attempt operation (fault l f) q =
      rw (q, execute_durable_admin) (record { same_store = refl; runs_on = inl refl })
  admin_attempt operation (done l) q =
      rw (q, execute_durable_admin)
        (elim (Bool-cases (s.durable_of l == e.store.current)) [
          | inl same ↦ rw same (
              admin_ran _ (refl, refl, ground (arith, same), ground (arith, same))
                (operation e.database_id e.store.current))
          | inr other ↦ rw other (record { same_store = refl; runs_on = inl refl })
        ])

  -- Whatever the operation does, an administrative operation leaves the store as it is, and the
  -- engine is degraded or keeps its lifecycle with log and engine durable through the current
  -- revision.
  pub execute_durable_admin-IsCut :
      (operation : Bytes → ℕ → AdminRun) → IsCut (execute_durable_admin s operation e).0
  execute_durable_admin-IsCut operation = admin_attempt operation _ refl
