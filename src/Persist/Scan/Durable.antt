-- ===== src/Persist/Scan/Durable.antt =====
-- What survives a crash: the scan of a log that ends anywhere behind its header.
use mathlib.Core.List.{append_assoc, append-nil}
use gapdb.Prelude.{
  ℕ, suc, ◌+◌, ◌-◌, ◌^◌, ◌≤◌, ◌<◌, ◌==◌, false, none, some, List, [], ◌∷◌, ◌++◌, Bytes, length,
  take, ltb, ◌≡◌, refl, ap, ◌∙◌, sym, arith, ge→ltb, inl, inr, Bool-cases, take-append, drop-append,
  length-append, length-take, ==_refl,
}
use gapdb.Api.Errors.{ok}
use gapdb.Persist.Frames.{CommitFrame}
use gapdb.Persist.Header.{WalHeader, encode_wal_header, header_size}
use gapdb.Persist.Header.RoundTrip.{decode_wal_header-encode_wal_header}
use gapdb.Persist.Scan.{ScanInput, WalReplay, scan_header, scan_wal, torn, extended}
use gapdb.Persist.Scan.Cut.{
  frame_size, encode_frames, IsIncreasing, replay_within, scan_frames-replay_within,
}

-- The replay that the header starts.
abbrev pub fresh : ScanInput → WalHeader → WalReplay
fresh i h = record {
  header = h;
  commits = [];
  recovered_revision = i.after_revision;
  complete_offset = header_size;
  tail = none;
}

-- The header that a writer made and a reader expects, under a reservation of revisions.
pub record IsHeader (i : ScanInput) (h : WalHeader) (start : Bytes) : Type 0 where
  pub steady : i.fault ≡ false
  pub bound : i.reserved_end < 2 ^ 64
  pub sixteen : length h.database_id ≡ 16
  pub expected : h.database_id ≡ i.expected_id
  pub follows : h.first_revision ≡ i.after_revision + 1
  pub first : h.first_revision < 2 ^ 64
  pub generation : h.generation < 2 ^ 64
  pub starts : encode_wal_header h ≡ ok start

-- A log behind it.
pub record IsLog (i : ScanInput) (h : WalHeader) (cs : List CommitFrame) (start bytes : Bytes)
    : Type 0 where
  pub header : IsHeader i h start
  pub increasing : IsIncreasing i.after_revision i.reserved_end cs
  pub continues : encode_frames cs i.limits ≡ ok bytes

scan_header-fresh :
    (i : ScanInput) (h : WalHeader) (cs : List CommitFrame) (start bytes more : Bytes)
    → IsLog i h cs start bytes
    → scan_header i (start ++ more) ≡ ok (fresh i h)
unfolding scan_header
scan_header-fresh i h cs start bytes more l =
    let (decoded, size) =
      decode_wal_header-encode_wal_header h start l.header.sixteen l.header.first
        l.header.generation l.header.starts in
    let long = length-append start more in
    let last : (i.after_revision == 2 ^ 64 - 1) ≡ false =
      ground (arith, l.header.follows, l.header.first) in
    rw (
      ge→ltb (length (start ++ more)) header_size (omega arith),
      take-append header_size start more size,
      ← l.header.expected,
      decoded,
      last,
      l.header.follows,
      ==_refl (i.after_revision + 1),
    )

-- The scan of the header and of any n bytes of the encoded frames answers with the frames that
-- are whole in these bytes, and with a tail exactly if one more frame is torn.
pub scan_wal-replay_within :
    (i : ScanInput) (h : WalHeader) (cs : List CommitFrame) (start bytes : Bytes) (n : ℕ)
    → IsLog i h cs start bytes
    → n ≤ length bytes
    → scan_wal i (start ++ take n bytes) ≡ some (ok (replay_within i n cs (fresh i h)))
unfolding scan_wal
scan_wal-replay_within i h cs start bytes n l within =
    let (_, size) =
      decode_wal_header-encode_wal_header h start l.header.sixteen l.header.first
        l.header.generation l.header.starts in
    let enough : n < suc (length (start ++ take n bytes)) =
      omega (arith, length-append start (take n bytes), length-take n bytes within) in
    rw (
      scan_header-fresh i h cs start bytes (take n bytes) l,
      drop-append header_size start (take n bytes) size,
      scan_frames-replay_within (suc (length (start ++ take n bytes))) i (fresh i h) cs bytes n
          l.header.steady l.header.bound l.increasing l.continues enough,
      scan_wal,
    )

-- The bytes of frames.
abbrev pub frames_size : List CommitFrame → ℕ
frames_size [] = 0
frames_size (c ∷ rest) = frame_size c + frames_size rest

-- The frames that are whole in `n` bytes, and then some of the others.
record Kept (r r' : WalReplay) (synced later : List CommitFrame) : Type 0 where
  more : List CommitFrame
  lost : List CommitFrame
  commits : r'.commits ≡ r.commits ++ (synced ++ more)
  parts : later ≡ more ++ lost

Kept-none : (r : WalReplay) (later : List CommitFrame) → Kept r r [] later
Kept-none r later = record {
  more = [];
  lost = later;
  commits = sym (append-nil r.commits);
  parts = refl;
}

Kept-torn : (i : ScanInput) (r : WalReplay) (later : List CommitFrame) → Kept r (torn i r) [] later
Kept-torn i r later = record {
  more = [];
  lost = later;
  commits = sym (append-nil r.commits);
  parts = refl;
}

replay_within-Kept :
    (i : ScanInput) (n : ℕ) (synced later : List CommitFrame) (r : WalReplay)
    → frames_size synced ≤ n
    → Kept r (replay_within i n (synced ++ later) r) synced later
unfolding replay_within
replay_within-Kept i n [] [] r enough = Kept-none r []
replay_within-Kept i n [] (c ∷ later) r enough = elim (Bool-cases (n == 0)) [
  | inl e ↦ rw e (Kept-none r (c ∷ later))
  | inr e ↦ elim (Bool-cases (ltb n (frame_size c))) [
    | inl short ↦ rw (e, short) (Kept-torn i r (c ∷ later))
    | inr long ↦
        let next = extended r c (frame_size c) in
        let k = replay_within-Kept i (n - frame_size c) [] later next (omega arith) in
        rw (e, long)
          (record {
            more = c ∷ k.more;
            lost = k.lost;
            commits = k.commits ∙ append_assoc r.commits (c ∷ []) k.more;
            parts = ap (◌∷◌ c) k.parts;
          })
  ]
]
replay_within-Kept i n (s ∷ synced) later r enough =
    let next = extended r s (frame_size s) in
    let k = replay_within-Kept i (n - frame_size s) synced later next (omega arith) in
    let some_byte : (n == 0) ≡ false = ground arith in
    rw (some_byte, ge→ltb n (frame_size s) (omega arith))
      (record {
        more = k.more;
        lost = k.lost;
        commits = k.commits ∙ append_assoc r.commits (s ∷ []) (synced ++ k.more);
        parts = k.parts;
      })

-- Durable
pub scan_wal-durable :
    (i : ScanInput) (h : WalHeader) (synced later : List CommitFrame) (start bytes : Bytes) (n : ℕ)
    → IsLog i h (synced ++ later) start bytes
    → n ≤ length bytes
    → frames_size synced ≤ n
    → (r : WalReplay) × (more lost : List CommitFrame) × (scan_wal i (start ++ take n bytes)
        ≡ some (ok r))
      × (r.commits ≡ synced ++ more)
      × (later ≡ more ++ lost)
scan_wal-durable i h synced later start bytes n l within enough =
    let k = replay_within-Kept i n synced later (fresh i h) enough in
    (
      replay_within i n (synced ++ later) (fresh i h),
      k.more,
      k.lost,
      scan_wal-replay_within i h (synced ++ later) start bytes n l within,
      k.commits,
      k.parts,
    )
