-- ===== src/Persist/Scan/Ordered.antt =====
-- The scan of any bytes at all: it ends, and what it accepts is in order and within bounds.
use mathlib.Core.Path.{subst}
use gapdb.Prelude.{
  ℕ, zero, suc, ◌+◌, ◌-◌, ◌^◌, ◌≤◌, ◌<◌, ◌==◌, ◌||◌, ◌&&◌, not, Option, none, some, List, [], ◌∷◌,
  ◌++◌, Bytes, length, take, drop, ltb, leb, ◌≡◌, refl, sym, arith, inl, inr, Bool-cases,
  length-drop, length-take, ltb→ge, ◌⊎◌,
}
use gapdb.Prelude.BigEndian.{be32}
use gapdb.Prelude.Slices.{slice}
use gapdb.Api.Errors.{Error, Result, ok, err, reject, corrupt_wal, >>=-eq-ok, Result-cases}
use gapdb.Engine.Admission.{frame_maximum}
use gapdb.Persist.Frames.{CommitFrame}
use gapdb.Persist.Header.{header_size, decode_wal_header}
use gapdb.Persist.Scan.Durable.{fresh}
use gapdb.Persist.Codec.{fixed_size, decode_commit_frame}
use gapdb.Persist.Scan.{
  ScanInput, WalReplay, TailTruncation, scan_frame, scan_round, scan_frames, scan_header, scan_wal,
  validate_frame_prefix, in_context, torn, extended, frame_header_size,
}

-- The revisions of `cs` increase from `last` to `current`.
abbrev pub Increases : (last current : ℕ) → List CommitFrame → Type 0
Increases last current [] = current ≡ last
Increases last current (c ∷ rest) = (last < c.revision) × Increases c.revision current rest

-- What the replay says of itself while the scan goes on.
pub record Sound (i : ScanInput) (physical : ℕ) (r : WalReplay) : Type 0 where
  pub ordered : Increases i.after_revision r.recovered_revision r.commits
  pub reserved : (r.recovered_revision ≡ i.after_revision) ⊎ (r.recovered_revision ≤ i.reserved_end)
  pub complete : r.complete_offset ≤ physical
  pub tail_end :
      (t : TailTruncation)
      → r.tail ≡ some t
      → (t.new_size ≡ r.complete_offset)
        × (t.last_complete_revision ≡ r.recovered_revision)
        × (r.complete_offset < physical)

pub in_context-ok :
    {A : Type 0} (offset : ℕ) (x : Result A) (a : A) → in_context offset x ≡ ok a → x ≡ ok a
in_context-ok offset (ok x) a q = q
in_context-ok offset (err e) a q = absurd (never e q)
  where
    never : (e : Error) → in_context offset (err e) ≡ ok a → ⊥
    never (corrupt_wal reason at) q = cc
    never _ q = cc

decoded_length :
    (bytes : Bytes) (i : ScanInput) (c : CommitFrame)
    → decode_commit_frame bytes i.limits ≡ ok c
    → fixed_size ≤ length bytes
unfolding decode_commit_frame
decoded_length bytes i c q =
    let (_, p, _) = >>=-eq-ok (reject (ltb (length bytes) fixed_size) _) _ q in ground (arith, p)

Increases-append :
    (last current : ℕ) (cs : List CommitFrame) (c : CommitFrame)
    → Increases last current cs
    → current < c.revision
    → Increases last c.revision (cs ++ (c ∷ []))
Increases-append last current [] c h after = (omega arith, refl)
Increases-append last current (b ∷ cs) c h after =
    (h.0, Increases-append b.revision current cs c h.1 after)

-- A round that reads a frame.
record Taken (i : ScanInput) (r : WalReplay) (bytes : Bytes) (r' : WalReplay) (rest : Bytes)
    : Type 0 where
  commit : CommitFrame
  total : ℕ
  replay : r' ≡ extended r commit total
  after : r.recovered_revision < commit.revision
  within : commit.revision ≤ i.reserved_end
  shorter : total + length rest ≡ length bytes
  progress : 0 < total

abbrev Round : ScanInput → WalReplay → Bytes → WalReplay × Option Bytes → Type 0
Round i r bytes (r', none) = (r' ≡ r) ⊎ ((r' ≡ torn i r) × (0 < length bytes))
Round i r bytes (r', some rest) = Taken i r bytes r' rest

landed :
    (i : ScanInput) (r : WalReplay) (bytes : Bytes) (y x : WalReplay × Option Bytes)
    → Round i r bytes y
    → ok y ≡ ok x
    → Round i r bytes x
landed i r bytes y x round q = subst (Round i r bytes) (ground (arith, q)) round

scan_frame-Round :
    (i : ScanInput) (r : WalReplay) (bytes : Bytes) (x : WalReplay × Option Bytes)
    → be32 (slice 8 12 bytes) ≤ length bytes
    → scan_frame i r bytes ≡ ok x
    → Round i r bytes x
unfolding scan_frame
scan_frame-Round i r bytes x enough q =
    let total = be32 (slice 8 12 bytes) in
    let (c, qc, q1) =
      >>=-eq-ok (in_context r.complete_offset (decode_commit_frame (take total bytes) i.limits)) _
        q in
    let (_, p1, q2) = >>=-eq-ok (reject (leb c.revision r.recovered_revision) _) _ q1 in
    let (_, p2, q3) = >>=-eq-ok (reject (ltb i.reserved_end c.revision) _) _ q2 in
    let long =
      decoded_length (take total bytes) i c
        (in_context-ok r.complete_offset (decode_commit_frame (take total bytes) i.limits) c qc) in
    let cut = length-take total bytes enough in
    let left = length-drop total bytes enough in
    let done : (extended r c total, some (drop total bytes)) ≡ x = ground (arith, q3) in
    subst (Round i r bytes) done (record {
      commit = c;
      total = total;
      replay = refl;
      after = ground (arith, p1);
      within = ground (arith, p2);
      shorter = omega arith;
      progress = omega arith;
    })

scan_round-Round :
    (i : ScanInput) (r : WalReplay) (bytes : Bytes) (x : WalReplay × Option Bytes)
    → scan_round i r bytes ≡ ok x
    → Round i r bytes x
unfolding scan_round
scan_round-Round i r bytes x q =
    let checked = in_context r.complete_offset (
      validate_frame_prefix (take frame_header_size bytes) (frame_maximum i.limits)
        i.limits.max_batch_operations) in
    elim (Bool-cases (length bytes == 0 && not i.fault)) [
      | inl e ↦ landed i r bytes (r, none) x (inl refl) (rw e at q)
      | inr e ↦ elim (Bool-cases (ltb (length bytes) frame_header_size)) [
        | inl short ↦
            let (_, steady, q1) = >>=-eq-ok (reject i.fault _) _ (rw (e, short) at q) in
            let (_, _, q2) = >>=-eq-ok checked _ q1 in
            landed i r bytes (torn i r, none) x (inr (refl, ground (arith, e, steady))) q2
        | inr long ↦
            let (_, _, q1) = >>=-eq-ok checked _ (rw (e, long) at q) in
            elim (Bool-cases (ltb (length bytes) (be32 (slice 8 12 bytes)))) [
              | inl cut ↦
                  let (_, steady, q2) = >>=-eq-ok (reject i.fault _) _ (rw cut at q1) in
                  landed i r bytes (torn i r, none) x
                    (inr (refl, omega (arith, ltb→ge (length bytes) frame_header_size long))) q2
              | inr enough ↦
                  scan_frame-Round i r bytes x
                    (ltb→ge (length bytes) (be32 (slice 8 12 bytes)) enough) (rw enough at q1)
            ]
      ]
    ]

-- The invariant of the loop: what has been read and what is left make up the file.
Sound-Taken :
    (i : ScanInput) (physical : ℕ) (r : WalReplay) (bytes : Bytes) (r' : WalReplay) (rest : Bytes)
    → Sound i physical r
    → r.tail ≡ none
    → r.complete_offset + length bytes ≡ physical
    → Taken i r bytes r' rest
    → Sound i physical r' × (r'.tail ≡ none) × (r'.complete_offset + length rest ≡ physical)
Sound-Taken i physical r bytes r' rest s bare whole t =
    let next = extended r t.commit t.total in
    subst (λ x. Sound i physical x × (x.tail ≡ none) × (x.complete_offset + length rest ≡ physical))
      (sym t.replay)
      (
        record {
          ordered =
              Increases-append i.after_revision r.recovered_revision r.commits t.commit s.ordered
                t.after;
          reserved = inr t.within;
          complete = omega (arith, t.shorter, whole);
          tail_end = λ tail q. cc;
        },
        bare,
        omega (arith, t.shorter, whole),
      )

Sound-torn :
    (i : ScanInput) (physical : ℕ) (r : WalReplay) (bytes : Bytes)
    → Sound i physical r
    → 0 < length bytes
    → r.complete_offset + length bytes ≡ physical
    → Sound i physical (torn i r)
Sound-torn i physical r bytes s some_byte whole = record {
  ordered = s.ordered;
  reserved = s.reserved;
  complete = s.complete;
  tail_end = λ t q. (ground (arith, q), ground (arith, q), omega arith);
}

-- Where the loop ends.
Sound-Round :
    (i : ScanInput) (physical : ℕ) (r : WalReplay) (bytes : Bytes) (x : WalReplay)
    → Sound i physical r
    → r.complete_offset + length bytes ≡ physical
    → Round i r bytes (x, none)
    → Sound i physical x
Sound-Round i physical r bytes x s whole (inl same) = subst (Sound i physical) (sym same) s
Sound-Round i physical r bytes x s whole (inr (cut, some_byte)) =
    subst (Sound i physical) (sym cut) (Sound-torn i physical r bytes s some_byte whole)

scan_frames-Sound :
    (fuel : ℕ) (i : ScanInput) (physical : ℕ) (r : WalReplay) (bytes : Bytes) (r' : WalReplay)
    → Sound i physical r
    → r.tail ≡ none
    → r.complete_offset + length bytes ≡ physical
    → scan_frames fuel i r bytes ≡ some (ok r')
    → Sound i physical r'
unfolding scan_frames
scan_frames-Sound zero i physical r bytes r' s bare whole q = cc
scan_frames-Sound (suc fuel) i physical r bytes r' s bare whole q =
    elim (Result-cases (scan_round i r bytes)) [
      | inl ((x, none), e) ↦
          let round = scan_round-Round i r bytes (x, none) e in
          let done : x ≡ r' = ground (arith, rw (e, scan_frames) at q) in
          subst (Sound i physical) done (Sound-Round i physical r bytes x s whole round)
      | inl ((x, some rest), e) ↦
          let (s', bare', whole') =
            Sound-Taken i physical r bytes x rest s bare whole
              (scan_round-Round i r bytes (x, some rest) e) in
          scan_frames-Sound fuel i physical x rest r' s' bare' whole' (rw (e, scan_frames) at q)
      | inr (failed, e) ↦ cc
    ]

scan_frames-finished :
    (fuel : ℕ) (i : ScanInput) (r : WalReplay) (bytes : Bytes)
    → length bytes < fuel
    → (answer : Result WalReplay) × (scan_frames fuel i r bytes ≡ some answer)
unfolding scan_frames
scan_frames-finished zero i r bytes enough = absurd (omega arith)
scan_frames-finished (suc fuel) i r bytes enough = elim (Result-cases (scan_round i r bytes)) [
  | inl ((x, none), e) ↦ (ok x, rw (e, scan_frames))
  | inl ((x, some rest), e) ↦
      let t = scan_round-Round i r bytes (x, some rest) e in
      let (answer, q) = scan_frames-finished fuel i x rest (omega (arith, t.shorter, t.progress)) in
      (answer, rw (e, q, scan_frames))
  | inr (failed, e) ↦ (err failed, rw (e, scan_frames))
]

started :
    (i : ScanInput) (bytes : Bytes) (r : WalReplay)
    → scan_header i bytes ≡ ok r
    → Sound i (length bytes) r
      × (r.tail ≡ none)
      × (r.complete_offset + length (drop header_size bytes) ≡ length bytes)
unfolding scan_header
started i bytes r q =
    let (_, p, q1) = >>=-eq-ok (reject (ltb (length bytes) header_size) _) _ q in
    let (h, _, q2) = >>=-eq-ok (decode_wal_header (take header_size bytes) i.expected_id) _ q1 in
    let (_, _, q3) =
      >>=-eq-ok
        (reject (i.after_revision == 2 ^ 64 - 1 || not (h.first_revision == i.after_revision + 1))
          _)
        _ q2 in
    let long : header_size ≤ length bytes = ground (arith, p) in
    let first : fresh i h ≡ r = ground (arith, q3) in
    subst
      (λ x.
        Sound i (length bytes) x
        × (x.tail ≡ none)
        × (x.complete_offset + length (drop header_size bytes) ≡ length bytes))
      first
      (
        record { ordered = refl; reserved = inl refl; complete = long; tail_end = λ t e. cc },
        refl,
        omega (arith, length-drop header_size bytes long),
      )

-- If the scan of any bytes succeeds, then the revisions of its commits increase from the revision
-- after which it starts to the recovered one, which is within the reservation unless it is the
-- start; the complete offset is within the file; and a tail is reported only behind it, with that
-- offset and that revision.
pub scan_wal-Sound :
    (i : ScanInput) (bytes : Bytes) (r : WalReplay)
    → scan_wal i bytes ≡ some (ok r)
    → Sound i (length bytes) r
unfolding scan_wal
scan_wal-Sound i bytes r q = elim (Result-cases (scan_header i bytes)) [
  | inl (x, e) ↦
      let (s, bare, whole) = started i bytes x e in
      scan_frames-Sound (suc (length bytes)) i (length bytes) x (drop header_size bytes) r s bare
        whole (rw (e, scan_wal) at q)
  | inr (failed, e) ↦ cc
]

-- The scan of any bytes gives an answer: the fuel, one more than the bytes, is enough.
pub scan_wal-finished :
    (i : ScanInput) (bytes : Bytes) → (answer : Result WalReplay) × (scan_wal i bytes ≡ some answer)
unfolding scan_wal
scan_wal-finished i bytes = elim (Result-cases (scan_header i bytes)) [
  | inl (x, e) ↦
      let (_, _, whole) = started i bytes x e in
      let (answer, q) =
        scan_frames-finished (suc (length bytes)) i x (drop header_size bytes) (omega arith) in
      (answer, rw (e, q, scan_wal))
  | inr (failed, e) ↦ (err failed, rw (e, scan_wal))
]
