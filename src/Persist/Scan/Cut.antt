-- ===== src/Persist/Scan/Cut.antt =====
-- The scan of a log that a crash cut off at any byte.
use gapdb.Prelude.{
  ℕ, zero, suc, ◌+◌, ◌-◌, ◌^◌, ◌≤◌, ◌<◌, ◌==◌, false, none, some, List, [], ◌∷◌, ◌++◌, Bytes,
  length, take, ltb, leb, ◌≡◌, refl, sym, ap, ◌∙◌, arith, ge→ltb, lt→ltb, ltb→lt, ltb→ge, inl, inr,
  Bool-cases, if◌then◌else◌, take-append, drop-append, length-append,
}
use gapdb.Prelude.Slices.{slice}
use gapdb.Api.Errors.{Result, ok, ◌>>=◌, >>=-eq-ok}
use gapdb.Api.Options.{Limits}
use gapdb.Engine.Admission.{frame_maximum}
use gapdb.Persist.Frames.{CommitFrame}
use gapdb.Persist.Codec.{fixed_size, encode_commit_frame}
use gapdb.Persist.Codec.Frame.{Framed, encode_commit_frame-Framed}
use gapdb.Persist.Codec.Payload.{payload_size}
use gapdb.Persist.Scan.{
  ScanInput, WalReplay, scan_frame, scan_round, scan_frames, validate_frame_prefix, torn, extended,
  frame_header_size,
}
use gapdb.Persist.Scan.Prefix.{
  IsPrefix, IsPrefix-take, take-IsPrefix, validate_frame_prefix-IsPrefix,
}

-- The bytes of a frame.
abbrev pub frame_size : CommitFrame → ℕ
frame_size c = fixed_size + payload_size c.effects

-- The frames behind the header, as one `Append` after the other leaves them.
unfoldable pub encode_frames : List CommitFrame → Limits → Result Bytes
encode_frames [] limits = ok []
encode_frames (c ∷ rest) limits = do
  frame ← encode_commit_frame c limits
  more ← encode_frames rest limits
  ok (frame ++ more)

-- Revisions that increase from `last` up to `limit` at most, in frames that the memory holds.
abbrev pub IsIncreasing : (last limit : ℕ) → List CommitFrame → Type 0
IsIncreasing last limit [] = Unit {0}
IsIncreasing last limit (c ∷ rest) =
    (last < c.revision)
    × (c.revision ≤ limit)
    × (frame_size c < 2 ^ 64)
    × IsIncreasing c.revision limit rest

-- What is left of the frames when `n` bytes are: those that are whole, and whether one is torn.
unfoldable pub replay_within : ScanInput → (n : ℕ) → List CommitFrame → WalReplay → WalReplay
replay_within i n [] r = r
replay_within i n (c ∷ rest) r =
    let later = replay_within i (n - frame_size c) rest (extended r c (frame_size c)) in
    if n == 0 then r else if ltb n (frame_size c) then torn i r else later

take_within : (n : ℕ) (xs ys : Bytes) → n ≤ length xs → take n (xs ++ ys) ≡ take n xs
take_within zero xs ys h = refl
take_within (suc n) [] ys h = absurd (omega arith)
take_within (suc n) (x ∷ xs) ys h = ap (◌∷◌ x) (take_within n xs ys (omega arith))

pub take_beyond :
    (n : ℕ) (xs ys : Bytes) → length xs ≤ n → take n (xs ++ ys) ≡ xs ++ take (n - length xs) ys
take_beyond n [] ys h = ap (λ k. take k ys) (omega arith)
take_beyond zero (x ∷ xs) ys h = absurd (omega arith)
take_beyond (suc n) (x ∷ xs) ys h =
    let shift : suc n - suc (length xs) ≡ n - length xs = omega arith in
    rw (shift, take_beyond n xs ys (omega arith))

length-take_min : (n : ℕ) (xs : Bytes) → n ≤ length xs → length (take n xs) ≡ n
length-take_min zero xs h = refl
length-take_min (suc n) [] h = absurd (omega arith)
length-take_min (suc n) (x ∷ xs) h = ap suc (length-take_min n xs (omega arith))

module _ (i : ScanInput) (r : WalReplay) (c : CommitFrame) (frame : Bytes)
    (framed : Framed c i.limits frame) where
  checks :
      (p : Bytes)
      → IsPrefix p frame
      → validate_frame_prefix p (frame_maximum i.limits) i.limits.max_batch_operations ≡ ok tt
  checks p same = validate_frame_prefix-IsPrefix c i.limits frame p framed same

  -- A part of a frame is recognised as its beginning.
  round-torn :
      (p : Bytes)
      → IsPrefix p frame
      → i.fault ≡ false
      → 0 < length p
      → length p < length frame
      → scan_round i r p ≡ ok (torn i r, none)
  unfolding scan_round
  round-torn p same steady some_byte short =
      let seen : (length p == 0) ≡ false = ground arith in
      let checked =
        checks (take frame_header_size p) (IsPrefix-take frame_header_size p frame same) in
      elim (Bool-cases (ltb (length p) frame_header_size)) [
        | inl e ↦ rw (seen, e, steady, checked)
        | inr e ↦ rw (
          seen,
          e,
          steady,
          checked,
          same 8 12 (omega (arith, ltb→ge (length p) frame_header_size e)),
          framed.written.size,
          lt→ltb (length p) (length frame) short,
        )
      ]

  -- A whole frame is decoded, and the rest is left for the next round.
  round-whole :
      (more : Bytes)
      → r.recovered_revision < c.revision
      → c.revision ≤ i.reserved_end
      → scan_round i r (frame ++ more) ≡ ok (extended r c (length frame), some more)
  unfolding scan_round scan_frame
  round-whole more after within =
      let size = length-append frame more in
      let long = framed.size in
      let cut = length-take_min frame_header_size (frame ++ more) (omega arith) in
      let same : IsPrefix (take frame_header_size (frame ++ more)) frame =
        rw (take_within frame_header_size frame more (omega arith))
          (take-IsPrefix frame_header_size frame) in
      let head : slice 8 12 (frame ++ more) ≡ slice 8 12 frame =
        sym (take-IsPrefix frame_header_size (frame ++ more) 8 12 (omega arith))
        ∙ same 8 12 (omega arith) in
      let seen : (length (frame ++ more) == 0) ≡ false = ground arith in
      let later : leb c.revision r.recovered_revision ≡ false = ground arith in
      rw (
        seen,
        ge→ltb (length (frame ++ more)) frame_header_size (omega arith),
        checks (take frame_header_size (frame ++ more)) same,
        head,
        framed.written.size,
        ge→ltb (length (frame ++ more)) (length frame) (omega arith),
        take-append (length frame) frame more refl,
        drop-append (length frame) frame more refl,
        framed.decoded,
        ge→ltb i.reserved_end c.revision within,
        later,
      )

round-empty : (i : ScanInput) (r : WalReplay) → i.fault ≡ false → scan_round i r [] ≡ ok (r, none)
unfolding scan_round
round-empty i r steady = rw steady

take_nil : (n : ℕ) (bytes : Bytes) → [] ≡ bytes → take n bytes ≡ []
take_nil zero bytes h = refl
take_nil (suc n) [] h = refl
take_nil (suc n) (b ∷ bs) h = cc

-- The loop, on the frames that are left of a log.
pub scan_frames-replay_within :
    (fuel : ℕ) (i : ScanInput) (r : WalReplay) (cs : List CommitFrame) (bytes : Bytes) (n : ℕ)
    → i.fault ≡ false
    → i.reserved_end < 2 ^ 64
    → IsIncreasing r.recovered_revision i.reserved_end cs
    → encode_frames cs i.limits ≡ ok bytes
    → n < fuel
    → scan_frames fuel i r (take n bytes) ≡ some (ok (replay_within i n cs r))
unfolding scan_frames encode_frames replay_within
scan_frames-replay_within zero i r cs bytes n steady bound inc q enough = absurd (omega arith)
scan_frames-replay_within (suc fuel) i r [] bytes n steady bound inc q enough =
    let ended : scan_round i r (take n bytes) ≡ ok (r, none) =
      ap (scan_round i r) (take_nil n bytes (ground (arith, q))) ∙ round-empty i r steady in
    rw (ended, scan_frames)
scan_frames-replay_within (suc fuel) i r (c ∷ rest) bytes n steady bound inc q enough =
    let (frame, qf, q1) = >>=-eq-ok (encode_commit_frame c i.limits) _ q in
    let (more, qm, q2) = >>=-eq-ok (encode_frames rest i.limits) _ q1 in
    let made : bytes ≡ frame ++ more = ground (arith, q2) in
    let framed = encode_commit_frame-Framed c i.limits frame (omega (arith, inc)) inc.2 qf in
    elim (Bool-cases (n == 0)) [
      | inl e ↦
          let nothing : n ≡ 0 = ground (arith, e) in
          let ended : scan_round i r (take n bytes) ≡ ok (r, none) =
            ap (λ k. scan_round i r (take k bytes)) nothing ∙ round-empty i r steady in
          rw (ended, e, scan_frames)
      | inr e ↦ elim (Bool-cases (ltb n (frame_size c))) [
        | inl short ↦
            let fits : n < length frame =
              omega (arith, framed.size, ltb→lt n (frame_size c) short) in
            let some_byte : 0 < n = ground (arith, e) in
            let size = length-take_min n frame (omega arith) in
            let ended : scan_round i r (take n bytes) ≡ ok (torn i r, none) =
              ap (λ b. scan_round i r (take n b)) made
              ∙ ap (scan_round i r) (take_within n frame more (omega arith))
              ∙ round-torn i r c frame framed (take n frame) (take-IsPrefix n frame) steady
                  (omega arith) (omega arith) in
            rw (ended, e, short, scan_frames)
        | inr long ↦
            let beyond : length frame ≤ n =
              omega (arith, framed.size, ltb→ge n (frame_size c) long) in
            let next = extended r c (frame_size c) in
            let further : scan_round i r (take n bytes)
                ≡ ok (next, some (take (n - frame_size c) more)) =
              ap (λ b. scan_round i r (take n b)) made
              ∙ ap (scan_round i r) (take_beyond n frame more beyond)
              ∙ round-whole i r c frame framed (take (n - length frame) more) inc.0 inc.1
              ∙ ap (λ k. ok (extended r c k, some (take (n - k) more))) framed.size in
            let shorter : n - frame_size c < fuel = omega (arith, framed.size) in
            rw (
              further,
              e,
              long,
              scan_frames-replay_within fuel i next rest more (n - frame_size c) steady bound inc.3
                  qm shorter,
              scan_frames,
            )
      ]
    ]
