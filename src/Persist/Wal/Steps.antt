-- ===== src/Persist/Wal/Steps.antt =====
-- The calls of an open log as a relation, and what each leaves in the file.
use mathlib.Core.Path.{subst}
use mathlib.Core.List.{append_assoc, append-nil}
use gapdb.Prelude.{take_whole}
use gapdb.Prelude.{
  ℕ, ◌+◌, ◌^◌, ◌≤◌, ◌<◌, ◌||◌, true, false, List, [], ◌∷◌, ◌++◌, Bytes, length, take, ltb, leb, ◌≡◌,
  refl, sym, ap, ◌∙◌, arith, Bool-cases, inl, inr, length-append,
}
use gapdb.Api.Errors.{Error, Result, ok, err, Result-cases}
use gapdb.Persist.Frames.{CommitFrame}
use gapdb.Persist.Codec.{encode_commit_frame}
use gapdb.Persist.Codec.Frame.{encode_commit_frame-Framed}
use gapdb.Persist.Files.{FileOps, IsFile, write_full}
use gapdb.Persist.Files.Write.{write_full-WroteFull}
use gapdb.Persist.Scan.Cut.{frame_size, encode_frames, IsIncreasing}
use gapdb.Persist.Scan.Durable.{frames_size}
use gapdb.Persist.Wal.{Wal, append, barrier, append_frame}
use gapdb.Persist.Wal.History.{
  last_of, IsIncreasing-append, last_of-append, frames_size-append, encode_frames-append, take_past,
  length-encode_frames,
}

module _ {F : Type 0} (ops : FileOps F) (file : IsFile ops) (start : Bytes) (base limit : ℕ) where
  -- A log that was opened, whose frames are safe, and then its calls: with the frames that a
  -- barrier settled or that were there, those that were accepted since, and the frame that the call
  -- of `append` was given in which the log failed, if it was one.
  pub data Runs : Wal F → (settled accepted torn : List CommitFrame) → Type 0 where
    begun :
        (w : Wal F) (found : List CommitFrame) (bytes : Bytes)
        → encode_frames found w.limits ≡ ok bytes
        → file.content w.file ≡ start ++ bytes
        → length (start ++ bytes) ≤ file.stable w.file
        → IsIncreasing base limit found
        → w.failed ≡ false
        → last_of base found ≡ w.last_revision
        → Runs w found [] []
    appended :
        {w : Wal F} {settled accepted torn : List CommitFrame} (c : CommitFrame)
        → Runs w settled accepted torn
        → c.revision ≤ limit
        → frame_size c < 2 ^ 64
        → (append ops w c).1 ≡ ok tt
        → Runs (append ops w c).0 settled (accepted ++ (c ∷ [])) torn
    refused :
        {w : Wal F} {settled accepted torn : List CommitFrame} {e : Error} (c : CommitFrame)
        → Runs w settled accepted torn
        → (append ops w c).1 ≡ err e
        → (append ops w c).0.failed ≡ w.failed
        → Runs (append ops w c).0 settled accepted torn
    broke_off :
        {w : Wal F} {settled accepted torn : List CommitFrame} {e : Error} (c : CommitFrame)
        → Runs w settled accepted torn
        → c.revision ≤ limit
        → frame_size c < 2 ^ 64
        → (append ops w c).1 ≡ err e
        → w.failed ≡ false
        → (append ops w c).0.failed ≡ true
        → Runs (append ops w c).0 settled accepted (c ∷ [])
    settled_all :
        {w : Wal F} {settled accepted torn : List CommitFrame}
        → Runs w settled accepted torn
        → (barrier ops w).1 ≡ ok tt
        → Runs (barrier ops w).0 (settled ++ accepted) [] torn
    unsettled :
        {w : Wal F} {settled accepted torn : List CommitFrame} {e : Error}
        → Runs w settled accepted torn
        → (barrier ops w).1 ≡ err e
        → Runs (barrier ops w).0 settled accepted torn

  -- The file holds the frames that were accepted, and a part of one more at most.
  pub record Logged (w : Wal F) (settled accepted torn : List CommitFrame) : Type 0 where
    pub bytes : Bytes
    pub count : ℕ
    pub encoded : encode_frames ((settled ++ accepted) ++ torn) w.limits ≡ ok bytes
    pub within : count ≤ length bytes
    pub content : file.content w.file ≡ start ++ take count bytes
    pub all_there : frames_size (settled ++ accepted) ≤ count
    pub clean : w.failed ≡ false → (torn ≡ []) × (count ≡ length bytes)
    pub stable : length start + frames_size settled ≤ file.stable w.file
    pub increasing : IsIncreasing base limit ((settled ++ accepted) ++ torn)
    pub last : w.failed ≡ false → last_of base (settled ++ accepted) ≡ w.last_revision

  -- What a call of `append` does, by its outcome.
  pub record Ready (w : Wal F) (c : CommitFrame) (frame : Bytes) : Type 0 where
    healthy : w.failed ≡ false
    after : w.last_revision < c.revision
    encoded : encode_commit_frame c w.limits ≡ ok frame

  pub data Appended (w : Wal F) (c : CommitFrame) : Wal F × Result (Unit {0}) → Type 0 where
    untouched : (e : Error) → Appended w c (w, err e)
    partial :
        (frame : Bytes) (e : Error)
        → Ready w c frame
        → Appended w c (record w { file = (write_full ops w.file frame).0; failed = true }, err e)
    whole :
        (frame : Bytes)
        → Ready w c frame
        → (write_full ops w.file frame).1 ≡ false
        → Appended w c (
          record w {
            file = (write_full ops w.file frame).0;
            last_revision = c.revision;
            pending = true;
            failed = false;
          },
          ok tt,
        )

  pub append-Appended : (w : Wal F) (c : CommitFrame) → Appended w c (append ops w c)
  unfolding append append_frame
  append-Appended w c = elim (Bool-cases w.failed) [
    | inl e ↦ rw e (untouched _)
    | inr e ↦
        elim (Bool-cases
          (ltb c.revision w.header.first_revision || leb c.revision w.last_revision)) [
            | inl e' ↦ rw (e, e') (untouched _)
            | inr e' ↦ elim (Result-cases (encode_commit_frame c w.limits)) [
              | inl (frame, q) ↦
                  let ready : Ready w c frame = record {
                    healthy = e;
                    after = ground (arith, e');
                    encoded = q;
                  } in
                  elim (Bool-cases (write_full ops w.file frame).1) [
                    | inl u ↦ simp (e, e', q, u) (partial frame _ ready)
                    | inr u ↦ simp (e, e', q, u) (whole frame ready u)
                  ]
              | inr (failure, q) ↦ simp (e, e', q) (untouched _)
            ]
          ]
  ]

  module _ (bound : limit < 2 ^ 64) where
    -- The frames of a log that has not failed are there to the last byte.
    pub record Whole (w : Wal F) (settled accepted : List CommitFrame) : Type 0 where
      pub bytes : Bytes
      pub encoded : encode_frames (settled ++ accepted) w.limits ≡ ok bytes
      pub content : file.content w.file ≡ start ++ bytes
      pub increasing : IsIncreasing base limit (settled ++ accepted)
      pub size : length bytes ≡ frames_size (settled ++ accepted)

    pub Logged-Whole :
        (w : Wal F) (settled accepted : List CommitFrame) {torn : List CommitFrame}
        → Logged w settled accepted torn
        → w.failed ≡ false
        → Whole w settled accepted
    Logged-Whole w settled accepted {torn} l healthy =
        let (none_torn, full) = l.clean healthy in
        let same : (settled ++ accepted) ++ torn ≡ settled ++ accepted =
          ap (◌++◌ (settled ++ accepted)) none_torn ∙ append-nil (settled ++ accepted) in
        let encoded : encode_frames (settled ++ accepted) w.limits ≡ ok l.bytes =
          rw (← same) l.encoded in
        let increasing : IsIncreasing base limit (settled ++ accepted) = rw (← same) l.increasing in
        record {
          bytes = l.bytes;
          encoded = encoded;
          content = l.content ∙ ap (◌++◌ start) (take_whole l.count l.bytes full);
          increasing = increasing;
          size =
              length-encode_frames base limit (settled ++ accepted) w.limits l.bytes bound
                increasing encoded;
        }

    pub begun-Logged :
        (w : Wal F) (found : List CommitFrame) (bytes : Bytes)
        → encode_frames found w.limits ≡ ok bytes
        → file.content w.file ≡ start ++ bytes
        → length (start ++ bytes) ≤ file.stable w.file
        → IsIncreasing base limit found
        → last_of base found ≡ w.last_revision
        → Logged w found [] []
    begun-Logged w found bytes encoded content stable increasing last =
        let size = length-encode_frames base limit found w.limits bytes bound increasing encoded in
        let same : (found ++ []) ++ [] ≡ found = append-nil (found ++ []) ∙ append-nil found in
        record {
          bytes = bytes;
          count = length bytes;
          encoded = rw same encoded;
          within = omega arith;
          content = content ∙ ap (◌++◌ start) (sym (take_whole (length bytes) bytes refl));
          all_there = rw (append-nil found) (omega (arith, size));
          clean = λ q. (refl, refl);
          stable = omega (arith, stable, size, length-append start bytes);
          increasing = rw same increasing;
          last = λ q. rw (append-nil found) last;
        }

    -- A further frame, of which some bytes were written.
    extended :
        (w w' : Wal F) (settled accepted : List CommitFrame) (c : CommitFrame) (frame : Bytes)
        {torn : List CommitFrame}
        → Whole w settled accepted
        → Logged w settled accepted torn
        → Ready w c frame
        → c.revision ≤ limit
        → frame_size c < 2 ^ 64
        → w'.file ≡ (write_full ops w.file frame).0
        → w'.limits ≡ w.limits
        → w'.failed ≡ true
        → Logged w' settled accepted (c ∷ [])
    extended w w' settled accepted c frame p l r within small there same failed =
        let wrote = write_full-WroteFull ops file w.file frame in
        record {
          bytes = p.bytes ++ frame;
          count = length p.bytes + wrote.count;
          encoded = rw same (
              encode_frames-append (settled ++ accepted) c w.limits p.bytes frame p.encoded
                r.encoded);
          within = omega (arith, length-append p.bytes frame, wrote.within);
          content = rw there (
              wrote.content
              ∙ ap (λ b. b ++ take wrote.count frame) p.content
              ∙ append_assoc start p.bytes (take wrote.count frame)
              ∙ ap (◌++◌ start) (sym (take_past (length p.bytes) wrote.count p.bytes frame refl)));
          all_there = omega (arith, p.size);
          clean = λ q. cc;
          stable = rw there (omega (arith, l.stable, wrote.keeps));
          increasing =
              IsIncreasing-append base limit (settled ++ accepted) c p.increasing
                (omega (arith, l.last r.healthy, r.after)) within small;
          last = λ q. cc;
        }

    pub appended-Logged :
        (w : Wal F) (settled accepted : List CommitFrame) (c : CommitFrame)
        (x : Wal F × Result (Unit {0})) {torn : List CommitFrame}
        → Appended w c x
        → Logged w settled accepted torn
        → c.revision ≤ limit
        → frame_size c < 2 ^ 64
        → x.1 ≡ ok tt
        → Logged x.0 settled (accepted ++ (c ∷ [])) torn
    appended-Logged w settled accepted c _ (untouched e) l within small q = cc
    appended-Logged w settled accepted c _ (partial frame e r) l within small q = cc
    appended-Logged w settled accepted c x {torn} (whole frame r all) l within small q =
        let p = Logged-Whole w settled accepted l r.healthy in
        let wrote = write_full-WroteFull ops file w.file frame in
        let assoc = append_assoc settled accepted (c ∷ []) in
        let framed = encode_commit_frame-Framed c w.limits frame (omega arith) small r.encoded in
        let done : Logged x.0 settled (accepted ++ (c ∷ [])) [] = record {
          bytes = p.bytes ++ frame;
          count = length (p.bytes ++ frame);
          encoded =
              rw (append-nil (settled ++ (accepted ++ (c ∷ []))), ← assoc)
                (encode_frames-append (settled ++ accepted) c w.limits p.bytes frame p.encoded
                  r.encoded);
          within = omega arith;
          content =
              wrote.content
              ∙ ap (λ b. b ++ take wrote.count frame) p.content
              ∙ ap (◌++◌ (start ++ p.bytes)) (take_whole wrote.count frame (wrote.whole all))
              ∙ append_assoc start p.bytes frame
              ∙ ap (◌++◌ start)
                  (sym (take_whole (length (p.bytes ++ frame)) (p.bytes ++ frame) refl));
          all_there = rw (← assoc) (
              omega (
                arith,
                length-append p.bytes frame,
                p.size,
                framed.size,
                frames_size-append (settled ++ accepted) (c ∷ []),
              ));
          clean = λ q'. (refl, refl);
          stable = omega (arith, l.stable, wrote.keeps);
          increasing =
              rw (append-nil (settled ++ (accepted ++ (c ∷ []))), ← assoc)
                (IsIncreasing-append base limit (settled ++ accepted) c p.increasing
                  (omega (arith, l.last r.healthy, r.after)) within small);
          last = λ q'. rw (← assoc) (last_of-append base (settled ++ accepted) c);
        } in
        subst (Logged x.0 settled (accepted ++ (c ∷ []))) (sym (l.clean r.healthy).0) done

    -- A refusal leaves the log as it was.
    pub refused-Logged :
        (w : Wal F) (settled accepted : List CommitFrame) (c : CommitFrame) (e : Error)
        (x : Wal F × Result (Unit {0})) {torn : List CommitFrame}
        → Appended w c x
        → Logged w settled accepted torn
        → x.1 ≡ err e
        → x.0.failed ≡ w.failed
        → Logged x.0 settled accepted torn
    refused-Logged w settled accepted c e _ (untouched e') l q same = l
    refused-Logged w settled accepted c e _ (partial frame e' r) l q same = cc
    refused-Logged w settled accepted c e _ (whole frame r all) l q same = cc

    pub broke_off-Logged :
        (w : Wal F) (settled accepted : List CommitFrame) (c : CommitFrame) (e : Error)
        (x : Wal F × Result (Unit {0})) {torn : List CommitFrame}
        → Appended w c x
        → Logged w settled accepted torn
        → c.revision ≤ limit
        → frame_size c < 2 ^ 64
        → x.1 ≡ err e
        → w.failed ≡ false
        → x.0.failed ≡ true
        → Logged x.0 settled accepted (c ∷ [])
    broke_off-Logged w settled accepted c e _ (untouched e') l within small q healthy broken = cc
    broke_off-Logged w settled accepted c e _ (partial frame e' r) l within small q healthy broken =
        extended w (record w { file = (write_full ops w.file frame).0; failed = true }) settled
          accepted c frame (Logged-Whole w settled accepted l healthy) l r within small refl refl
          refl
    broke_off-Logged w settled accepted c e _ (whole frame r all) l within small q healthy broken =
        cc

    -- A barrier that fails leaves the same bytes.
    pub same_content :
        (w w' : Wal F) (settled accepted : List CommitFrame) {torn : List CommitFrame}
        → Logged w settled accepted torn
        → file.content w'.file ≡ file.content w.file
        → file.stable w.file ≤ file.stable w'.file
        → w'.limits ≡ w.limits
        → w'.failed ≡ true
        → Logged w' settled accepted torn
    same_content w w' settled accepted l content keeps same failed = record {
      bytes = l.bytes;
      count = l.count;
      encoded = rw same l.encoded;
      within = l.within;
      content = content ∙ l.content;
      all_there = l.all_there;
      clean = λ q. cc;
      stable = omega (arith, l.stable);
      increasing = l.increasing;
      last = λ q. cc;
    }
