-- ===== src/Server/Replay/Crash.antt =====
-- A crash, and the start after it: the log is cut off anywhere, scanned and replayed.
use gapdb.Prelude.{
  ℕ, ◌≤◌, List, [], ◌∷◌, ◌++◌, Bytes, length, take, some, ◌≡◌, refl, sym, ap, ◌∙◌, arith,
}
use gapdb.Api.Errors.{ok}
use gapdb.Persist.Frames.{CommitFrame}
use gapdb.Persist.Header.{WalHeader}
use gapdb.Persist.Scan.{ScanInput, WalReplay, scan_wal}
use gapdb.Persist.Scan.Durable.{IsLog, frames_size, scan_wal-durable}
use gapdb.Server.Replay.{Records, replay_commits}
use gapdb.Server.Replay.History.{
  CommittedBatch, frame_of, frames_of, records_after, replay_commits-records_after,
}

frames_of-append :
    (bs cs : List CommittedBatch) → frames_of (bs ++ cs) ≡ frames_of bs ++ frames_of cs
frames_of-append [] cs = refl
frames_of-append (b ∷ bs) cs = ap (◌∷◌ (frame_of b)) (frames_of-append bs cs)

-- Frames in front of frames of batches are frames of batches in front.
frames_of-split :
    (later : List CommittedBatch) (more lost : List CommitFrame)
    → frames_of later ≡ more ++ lost
    → (kept dropped : List CommittedBatch) × (later ≡ kept ++ dropped) × (more ≡ frames_of kept)
frames_of-split later [] lost q = ([], later, refl, refl)
frames_of-split [] (c ∷ more) lost q = cc
frames_of-split (b ∷ later) (c ∷ more) lost q =
    let (kept, dropped, split, same) = frames_of-split later more lost (ground (arith, q)) in
    (b ∷ kept, dropped, ap (◌∷◌ b) split, ground (arith, q, same))

-- If a log holds the frames of the batches synced ++ later, with increasing revisions within the
-- reservation, and a crash cuts it off at any byte behind the frames of synced, then the scan
-- answers with a replay, and replaying it onto a snapshot gives the records after all synced
-- batches and the first few of the later ones.
pub scan_wal-records_after :
    (i : ScanInput) (h : WalHeader) (synced later : List CommittedBatch) (start bytes : Bytes)
    (n : ℕ) (snapshot : Records)
    → IsLog i h (frames_of (synced ++ later)) start bytes
    → n ≤ length bytes
    → frames_size (frames_of synced) ≤ n
    → (r : WalReplay) × (kept lost : List CommittedBatch) × (scan_wal i (start ++ take n bytes)
        ≡ some (ok r))
      × (later ≡ kept ++ lost)
      × (replay_commits r.commits snapshot ≡ records_after (synced ++ kept) snapshot)
scan_wal-records_after i h synced later start bytes n snapshot l within enough =
    let (r, more, lost, scanned, commits, parts) =
      scan_wal-durable i h (frames_of synced) (frames_of later) start bytes n
        (rw (← frames_of-append synced later) l) within enough in
    let (kept, dropped, split, same) = frames_of-split later more lost parts in
    let whole : r.commits ≡ frames_of (synced ++ kept) =
      commits ∙ ap (◌++◌ (frames_of synced)) same ∙ sym (frames_of-append synced kept) in
    (
      r,
      kept,
      dropped,
      scanned,
      split,
      ap (λ cs. replay_commits cs snapshot) whole
          ∙ replay_commits-records_after (synced ++ kept) snapshot,
    )
