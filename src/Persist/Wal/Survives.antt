-- ===== src/Persist/Wal/Survives.antt =====
-- What of a log is read after a crash, whatever calls came before it.
use mathlib.Core.Path.{subst}
use mathlib.Core.List.{append_assoc, append-nil}
use gapdb.Prelude.{take_whole}
use gapdb.Prelude.{
  ℕ, ◌-◌, ◌^◌, ◌≤◌, ◌<◌, true, false, some, List, [], ◌++◌, Bytes, length, take, ◌≡◌, refl, sym, ap,
  ◌∙◌, arith, Bool-cases, inl, inr, length-append, length-take,
}
use gapdb.Api.Errors.{Error, Result, ok, err}
use gapdb.Persist.Frames.{CommitFrame}
use gapdb.Persist.Header.{WalHeader}
use gapdb.Persist.Files.{FileOps, IsFile}
use gapdb.Persist.Scan.{ScanInput, WalReplay, scan_wal}
use gapdb.Persist.Scan.Cut.{take_beyond}
use gapdb.Persist.Scan.Prefix.{take-take}
use gapdb.Persist.Scan.Durable.{IsHeader, IsLog, scan_wal-durable}
use gapdb.Persist.Wal.{Wal, append, barrier}
use gapdb.Persist.Wal.Steps.{
  Runs, begun, appended, refused, broke_off, settled_all, unsettled, Logged, begun-Logged,
  append-Appended, Logged-Whole, appended-Logged, refused-Logged, broke_off-Logged, same_content,
}

module _ {F : Type 0} (ops : FileOps F) (file : IsFile ops) (start : Bytes) (base limit : ℕ)
    (bound : limit < 2 ^ 64) where
  -- What a call of `barrier` does, by its outcome.
  data Settled (w : Wal F) : Wal F × Result (Unit {0}) → Type 0 where
    refusal : (e : Error) → Settled w (w, err e)
    broken :
        (f : F) (e : Error)
        → file.content f ≡ file.content w.file
        → file.stable w.file ≤ file.stable f
        → Settled w (record w { file = f; failed = true }, err e)
    safe :
        (f : F)
        → w.failed ≡ false
        → file.content f ≡ file.content w.file
        → length (file.content w.file) ≤ file.stable f
        → Settled w (
          record w { file = f; durable_through = w.last_revision; pending = false; failed = false },
          ok tt,
        )

  barrier-Settled : (w : Wal F) → Settled w (barrier ops w)
  unfolding barrier
  barrier-Settled w =
      let flushed = (ops.flush w.file).0 in
      let synced = (ops.sync flushed).0 in
      let same = file.sync_same flushed ∙ file.flush_same w.file in
      elim (Bool-cases w.failed) [
        | inl e ↦ simp e (refusal _)
        | inr e ↦ elim (Bool-cases (ops.flush w.file).1) [
          | inl e' ↦
              simp (e, e') (broken flushed _ (file.flush_same w.file) (file.flush_keeps w.file))
          | inr e' ↦ elim (Bool-cases (ops.sync flushed).1) [
            | inl e'' ↦
                simp (e, e', e'')
                  (broken synced _ same
                    (omega (arith, file.flush_keeps w.file, file.sync_keeps flushed)))
            | inr e'' ↦
                simp (e, e', e'')
                  (safe synced e same
                    (omega (arith, file.flush_hands w.file e', file.sync_settles flushed e'')))
          ]
        ]
      ]

  barrier-Logged :
      (w : Wal F) (settled accepted : List CommitFrame) (x : Wal F × Result (Unit {0}))
      {torn : List CommitFrame}
      → Settled w x
      → Logged ops file start base limit w settled accepted torn
      → x.1 ≡ ok tt
      → Logged ops file start base limit x.0 (settled ++ accepted) [] torn
  barrier-Logged w settled accepted _ (refusal e) l q = cc
  barrier-Logged w settled accepted _ (broken f e same keeps) l q = cc
  barrier-Logged w settled accepted x {torn} (safe f healthy same stable) l q =
      let p = Logged-Whole ops file start base limit bound w settled accepted l healthy in
      let there = append-nil (settled ++ accepted) in
      let done : Logged ops file start base limit x.0 (settled ++ accepted) [] [] = record {
        bytes = p.bytes;
        count = length p.bytes;
        encoded = rw (append-nil ((settled ++ accepted) ++ []), there) p.encoded;
        within = omega arith;
        content =
            same ∙ p.content ∙ ap (◌++◌ start) (sym (take_whole (length p.bytes) p.bytes refl));
        all_there = rw there (omega (arith, p.size));
        clean = λ q'. (refl, refl);
        stable = omega (arith, stable, ap length p.content, length-append start p.bytes, p.size);
        increasing = rw (append-nil ((settled ++ accepted) ++ []), there) p.increasing;
        last = λ q'. rw there (l.last healthy);
      } in
      subst (Logged ops file start base limit x.0 (settled ++ accepted) [])
        (sym (l.clean healthy).0) done

  failed_barrier-Logged :
      (w : Wal F) (settled accepted : List CommitFrame) (e : Error) (x : Wal F × Result (Unit {0}))
      {torn : List CommitFrame}
      → Settled w x
      → Logged ops file start base limit w settled accepted torn
      → x.1 ≡ err e
      → Logged ops file start base limit x.0 settled accepted torn
  failed_barrier-Logged w settled accepted e _ (refusal e') l q = l
  failed_barrier-Logged w settled accepted e _ (broken f e' same keeps) l q =
      same_content ops file start base limit bound w (record w { file = f; failed = true }) settled
        accepted l same keeps refl refl
  failed_barrier-Logged w settled accepted e _ (safe f healthy same stable) l q = cc

  -- What the file holds after any calls.
  pub Runs-Logged :
      {w : Wal F} {settled accepted torn : List CommitFrame}
      → Runs ops file start base limit w settled accepted torn
      → Logged ops file start base limit w settled accepted torn
  Runs-Logged (begun w found bytes encoded content stable increasing healthy last) =
      begun-Logged ops file start base limit bound w found bytes encoded content stable increasing
        last
  Runs-Logged (appended {w} {settled} {accepted} {torn} c runs within small q) =
      appended-Logged ops file start base limit bound w settled accepted c (append ops w c)
        (append-Appended ops file start base limit w c) (Runs-Logged runs) within small q
  Runs-Logged (refused {w} {settled} {accepted} {torn} {e} c runs q same) =
      refused-Logged ops file start base limit bound w settled accepted c e (append ops w c)
        (append-Appended ops file start base limit w c) (Runs-Logged runs) q same
  Runs-Logged (broke_off {w} {settled} {accepted} {torn} {e} c runs within small q healthy fails) =
      broke_off-Logged ops file start base limit bound w settled accepted c e (append ops w c)
        (append-Appended ops file start base limit w c) (Runs-Logged runs) within small q healthy
        fails
  Runs-Logged (settled_all {w} {settled} {accepted} {torn} runs q) =
      barrier-Logged w settled accepted (barrier ops w) (barrier-Settled w) (Runs-Logged runs) q
  Runs-Logged (unsettled {w} {settled} {accepted} {torn} {e} runs q) =
      failed_barrier-Logged w settled accepted e (barrier ops w) (barrier-Settled w)
        (Runs-Logged runs) q

take-content :
    (m n : ℕ) (start bytes : Bytes)
    → length start ≤ m
    → m ≤ length (start ++ take n bytes)
    → n ≤ length bytes
    → take m (start ++ take n bytes) ≡ start ++ take (m - length start) bytes
take-content m n start bytes long within known =
    let cut : m - length start ≤ n =
      omega (arith, length-append start (take n bytes), length-take n bytes known) in
    take_beyond m start (take n bytes) long
    ∙ ap (◌++◌ start) (take-take (m - length start) n bytes cut)

module _ {F : Type 0} (ops : FileOps F) (file : IsFile ops) (start : Bytes) (i : ScanInput)
    (h : WalHeader) (header : IsHeader i h start) where
  -- Given a log that was opened with frames that are safe (or with none), a file that behaves as
  -- documented, and any calls of Append and Barrier since, some of which may have failed, with
  -- revisions within the reservation: if a crash keeps at least the bytes that are stable, the
  -- scan of what is left succeeds and finds every frame that was there or that a successful
  -- barrier followed, then a first part of what came since, in order: the frames that were
  -- accepted, and behind them the frame of the Append in whose write the log failed, if it failed
  -- in one; there is no such frame if the log has not failed. The scan uses the limits of the
  -- log.
  pub Runs-scan_wal :
      {w : Wal F} {settled accepted torn : List CommitFrame}
      → Runs ops file start i.after_revision i.reserved_end w settled accepted torn
      → w.limits ≡ i.limits
      → (m : ℕ) → file.stable w.file ≤ m
      → m ≤ length (file.content w.file)
      → (r : WalReplay) × (more lost : List CommitFrame) × (scan_wal i
            (take m (file.content w.file))
          ≡ some (ok r))
        × (r.commits ≡ settled ++ more)
        × (accepted ++ torn ≡ more ++ lost)
        × (w.failed ≡ false → torn ≡ [])
  Runs-scan_wal {w} {settled} {accepted} {torn} runs same m stable within =
      let l = Runs-Logged ops file start i.after_revision i.reserved_end header.bound runs in
      let n = m - length start in
      let long : m ≤ length (start ++ take l.count l.bytes) = rw (← l.content) within in
      let cut = take-content m l.count start l.bytes (omega (arith, l.stable)) long l.within in
      let log : IsLog i h (settled ++ (accepted ++ torn)) start l.bytes = record {
        header = header;
        increasing = rw (← append_assoc settled accepted torn) l.increasing;
        continues = rw (← append_assoc settled accepted torn, ← same) l.encoded;
      } in
      let short : n ≤ length l.bytes = omega (
        arith,
        l.within,
        length-append start (take l.count l.bytes),
        length-take l.count l.bytes l.within,
      ) in
      let (r, more, lost, scanned, commits, parts) =
        scan_wal-durable i h settled (accepted ++ torn) start l.bytes n log short
          (omega (arith, l.stable)) in
      (
        r,
        more,
        lost,
        ap (λ b. scan_wal i (take m b)) l.content ∙ ap (scan_wal i) cut ∙ scanned,
        commits,
        parts,
        λ healthy. (l.clean healthy).0,
      )
