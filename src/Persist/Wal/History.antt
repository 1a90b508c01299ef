-- ===== src/Persist/Wal/History.antt =====
-- Lists of frames with one more behind, their bytes and their revisions.
use mathlib.Core.List.{append_assoc, append-nil}
use gapdb.Prelude.{
  ℕ, zero, suc, ◌+◌, ◌^◌, ◌≤◌, ◌<◌, List, [], ◌∷◌, ◌++◌, Bytes, length, take, ◌≡◌, refl, sym, ap,
  arith, length-append,
}
use gapdb.Api.Errors.{ok, >>=-eq-ok}
use gapdb.Api.Options.{Limits}
use gapdb.Persist.Frames.{CommitFrame}
use gapdb.Persist.Codec.{encode_commit_frame}
use gapdb.Persist.Codec.Frame.{encode_commit_frame-Framed}
use gapdb.Persist.Scan.Cut.{frame_size, encode_frames, IsIncreasing}
use gapdb.Persist.Scan.Durable.{frames_size}

-- The revision of the last of the frames.
abbrev pub last_of : ℕ → List CommitFrame → ℕ
last_of base [] = base
last_of base (c ∷ rest) = last_of c.revision rest

pub IsIncreasing-append :
    (base limit : ℕ) (cs : List CommitFrame) (c : CommitFrame)
    → IsIncreasing base limit cs
    → last_of base cs < c.revision
    → c.revision ≤ limit
    → frame_size c < 2 ^ 64
    → IsIncreasing base limit (cs ++ (c ∷ []))
IsIncreasing-append base limit [] c inc after within small = (after, within, small, tt)
IsIncreasing-append base limit (b ∷ cs) c inc after within small =
    (inc.0, inc.1, inc.2, IsIncreasing-append b.revision limit cs c inc.3 after within small)

pub last_of-append :
    (base : ℕ) (cs : List CommitFrame) (c : CommitFrame)
    → last_of base (cs ++ (c ∷ [])) ≡ c.revision
last_of-append base [] c = refl
last_of-append base (b ∷ cs) c = last_of-append b.revision cs c

pub frames_size-append :
    (cs ds : List CommitFrame) → frames_size (cs ++ ds) ≡ frames_size cs + frames_size ds
frames_size-append [] ds = omega arith
frames_size-append (c ∷ cs) ds = omega (arith, frames_size-append cs ds)

pub encode_frames-append :
    (cs : List CommitFrame) (c : CommitFrame) (limits : Limits) (bytes frame : Bytes)
    → encode_frames cs limits ≡ ok bytes
    → encode_commit_frame c limits ≡ ok frame
    → encode_frames (cs ++ (c ∷ [])) limits ≡ ok (bytes ++ frame)
unfolding encode_frames
encode_frames-append [] c limits bytes frame q f =
    let none_yet : [] ≡ bytes = ground (arith, q) in rw (f, ← none_yet) (ap ok (append-nil frame))
encode_frames-append (b ∷ cs) c limits bytes frame q f =
    let (first, qf, q1) = >>=-eq-ok (encode_commit_frame b limits) _ q in
    let (more, qm, q2) = >>=-eq-ok (encode_frames cs limits) _ q1 in
    let made : first ++ more ≡ bytes = ground (arith, q2) in
    rw (qf, encode_frames-append cs c limits more frame qm f, ← made)
      (ap ok (sym (append_assoc first more frame)))

pub take_past :
    (n m : ℕ) (xs ys : Bytes) → n ≡ length xs → take (n + m) (xs ++ ys) ≡ xs ++ take m ys
take_past n m [] ys h = ap (λ k. take k ys) (omega arith)
take_past zero m (x ∷ xs) ys h = absurd (omega arith)
take_past (suc n) m (x ∷ xs) ys h =
    let shift : suc n + m ≡ suc (n + m) = omega arith in
    rw (shift, take_past n m xs ys (omega arith))

pub length-encode_frames :
    (base limit : ℕ) (cs : List CommitFrame) (limits : Limits) (bytes : Bytes)
    → limit < 2 ^ 64
    → IsIncreasing base limit cs
    → encode_frames cs limits ≡ ok bytes
    → length bytes ≡ frames_size cs
unfolding encode_frames
length-encode_frames base limit [] limits bytes bound inc q =
    let none_yet : [] ≡ bytes = ground (arith, q) in rw (← none_yet)
length-encode_frames base limit (c ∷ cs) limits bytes bound inc q =
    let (frame, qf, q1) = >>=-eq-ok (encode_commit_frame c limits) _ q in
    let (more, qm, q2) = >>=-eq-ok (encode_frames cs limits) _ q1 in
    let made : frame ++ more ≡ bytes = ground (arith, q2) in
    let framed = encode_commit_frame-Framed c limits frame (omega (arith, inc)) inc.2 qf in
    rw (← made) (
      omega (
        arith,
        framed.size,
        length-append frame more,
        length-encode_frames c.revision limit cs limits more bound inc.3 qm,
      ))
