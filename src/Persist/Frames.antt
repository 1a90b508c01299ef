-- ===== src/Persist/Frames.antt =====
-- internal/persist/wal.go and identity.go: the data of a commit frame and of a revision range.
use gapdb.Prelude.{ℕ, Bytes, List, Option}
use gapdb.Api.Types.{ChangeKind, Instant}

pub record Effect : Type 0 where
  pub kind : ChangeKind
  pub key : Bytes
  pub value : Bytes
  pub expires_at : Option Instant

pub record CommitFrame : Type 0 where
  pub revision : ℕ
  pub effects : List Effect

pub record RevisionRange : Type 0 where
  pub first : ℕ
  pub last : ℕ
