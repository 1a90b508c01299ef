-- ===== src/Persist/Files.antt =====
-- internal/faultfs/fs.go: the operations on an open file, as an interface that the log takes. The
-- file system behind them is the operating system's.
pub mod Write
use gapdb.Prelude.{
  ℕ, zero, suc, ◌+◌, ◌≤◌, ◌<◌, ◌==◌, Bool, true, false, List, [], ◌∷◌, ◌++◌, Bytes, length, take,
  drop, ltb, if◌then◌else◌, ◌≡◌,
}

-- `Write` answers with the bytes it took and whether it failed, the others with whether they failed.
pub record FileOps (F : Type 0) : Type 0 where
  pub write : F → Bytes → F × ℕ × Bool
  pub flush : F → F × Bool
  pub sync : F → F × Bool
  pub close : F → F × Bool

-- What the documentation of io.Writer, bufio.Writer and fsync says of them: `content` is what was
-- written so far, of which `handed` bytes have left the buffer and `stable` bytes survive a crash.
pub record IsFile {F : Type 0} (ops : FileOps F) : Type 0 where
  pub content : F → Bytes
  pub handed : F → ℕ
  pub stable : F → ℕ
  pub write_takes : (f : F) (b : Bytes) → (ops.write f b).1 ≤ length b
  pub write_appends :
      (f : F) (b : Bytes) → content (ops.write f b).0 ≡ content f ++ take (ops.write f b).1 b
  pub write_keeps : (f : F) (b : Bytes) → stable f ≤ stable (ops.write f b).0
  pub flush_same : (f : F) → content (ops.flush f).0 ≡ content f
  pub flush_keeps : (f : F) → stable f ≤ stable (ops.flush f).0
  pub flush_hands : (f : F) → (ops.flush f).1 ≡ false → length (content f) ≤ handed (ops.flush f).0
  pub sync_same : (f : F) → content (ops.sync f).0 ≡ content f
  pub sync_keeps : (f : F) → stable f ≤ stable (ops.sync f).0
  pub sync_settles : (f : F) → (ops.sync f).1 ≡ false → handed f ≤ stable (ops.sync f).0
  pub close_same : (f : F) → content (ops.close f).0 ≡ content f
  pub close_keeps : (f : F) → stable f ≤ stable (ops.close f).0

module _ {F : Type 0} (ops : FileOps F) where
  -- The loop of `writeFull`; each round that goes on has written a byte at least, so that the
  -- length of the value is enough fuel.
  write_rounds : (fuel : ℕ) → F → Bytes → F × Bool
  write_rounds zero f b = (f, false)
  write_rounds (suc fuel) f b =
      let (f', written, failed) = ops.write f b in
      let rest = write_rounds fuel f' (drop written b) in
      if length b == 0
      then (f, false)
      else (if ltb (length b) written
          then (f', true)
          else (if failed then (f', true) else (if written == 0 then (f', true) else rest)))

  -- `writeFull`
  unfoldable pub write_full : F → Bytes → F × Bool
  unfolding write_rounds
  write_full f b = write_rounds (length b) f b
