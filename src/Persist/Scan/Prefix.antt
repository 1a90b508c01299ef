-- ===== src/Persist/Scan/Prefix.antt =====
-- `validateFramePrefix` on the first bytes of an encoded frame.
use gapdb.Prelude.{
  ℕ, zero, suc, ◌+◌, ◌-◌, ◌/◌, ◌≤◌, ◌==◌, ◌||◌, ◌&&◌, not, Bool, false, [], ◌∷◌, Bytes, key_eq,
  length, take, ltb, leb, ◌≡◌, refl, ap, ◌∙◌, arith, ==_refl, ge→ltb, inl, inr, Bool-cases, leb→le,
}
use gapdb.Prelude.BigEndian.{be16, be32, be64}
use gapdb.Prelude.Keys.{key_eq_refl}
use gapdb.Prelude.Slices.{slice}
use gapdb.Api.Errors.{ok}
use gapdb.Api.Options.{Limits}
use gapdb.Engine.Admission.{frame_maximum}
use gapdb.Persist.Frames.{CommitFrame}
use gapdb.Persist.Codec.{commit_magic, fixed_size}
use gapdb.Persist.Effects.{effect_header}
use gapdb.Persist.Codec.Frame.{Framed}
use gapdb.Persist.Codec.Payload.{payload_size}
use gapdb.Persist.Scan.{validate_frame_prefix}

-- Where `p` has the bytes, it has those of `frame`.
abbrev pub IsPrefix : Bytes → Bytes → Type 0
IsPrefix p frame = (i j : ℕ) → j ≤ length p → slice i j p ≡ slice i j frame

pub take-take : (a b : ℕ) (xs : Bytes) → a ≤ b → take a (take b xs) ≡ take a xs
take-take zero b xs h = refl
take-take (suc a) zero xs h = absurd (omega arith)
take-take (suc a) (suc b) [] h = refl
take-take (suc a) (suc b) (x ∷ xs) h = ap (◌∷◌ x) (take-take a b xs (omega arith))

slice-take : (i j k : ℕ) (xs : Bytes) → j ≤ k → slice i j (take k xs) ≡ slice i j xs
slice-take zero j k xs h = take-take (j - 0) k xs (omega arith)
slice-take (suc i) j zero xs h = let done : j - suc i ≡ 0 = omega arith in rw done
slice-take (suc i) j (suc k) [] h = refl
slice-take (suc i) zero (suc k) (x ∷ xs) h = let done : 0 - suc i ≡ 0 = omega arith in rw done
slice-take (suc i) (suc j) (suc k) (x ∷ xs) h =
    let shift : suc j - suc i ≡ j - i = omega arith in rw shift (slice-take i j k xs (omega arith))

length-take_le : (k : ℕ) (xs : Bytes) → length (take k xs) ≤ k
length-take_le zero xs = omega arith
length-take_le (suc k) [] = omega arith
length-take_le (suc k) (x ∷ xs) = omega (arith, length-take_le k xs)

pub take-IsPrefix : (k : ℕ) (xs : Bytes) → IsPrefix (take k xs) xs
take-IsPrefix k xs i j h = slice-take i j k xs (omega (arith, length-take_le k xs))

length-take_within : (k : ℕ) (xs : Bytes) → length (take k xs) ≤ length xs
length-take_within zero xs = omega arith
length-take_within (suc k) [] = omega arith
length-take_within (suc k) (x ∷ xs) = omega (arith, length-take_within k xs)

pub IsPrefix-take : (k : ℕ) (p frame : Bytes) → IsPrefix p frame → IsPrefix (take k p) frame
IsPrefix-take k p frame same i j h =
    take-IsPrefix k p i j h ∙ same i j (omega (arith, length-take_within k p))

-- A test that only a long enough prefix is put to, and that the frame passes.
late : (j n : ℕ) (b : Bool) → (j ≤ n → b ≡ false) → (leb j n && b) ≡ false
late j n b h = elim (Bool-cases (leb j n)) [ inl e ↦ rw (e, h (leb→le j n e)) | inr e ↦ rw e ]

module _ (c : CommitFrame) (limits : Limits) (frame p : Bytes) where
  pub validate_frame_prefix-IsPrefix :
      Framed c limits frame
      → IsPrefix p frame
      → validate_frame_prefix p (frame_maximum limits) limits.max_batch_operations ≡ ok tt
  unfolding validate_frame_prefix
  validate_frame_prefix-IsPrefix f same =
      let w = f.written in
      let payload = payload_size c.effects in
      rw (
        late 4 (length p) (not (key_eq (take 4 p) commit_magic))
            (λ h. rw (same 0 4 h, w.magic, key_eq_refl commit_magic)),
        late 6 (length p) (not (be16 (slice 4 6 p) == 1)) (λ h. rw (same 4 6 h, w.version)),
        late 8 (length p) (not (be16 (slice 6 8 p) == 0)) (λ h. rw (same 6 8 h, w.flags)),
        late 12 (length p)
            (ltb (be32 (slice 8 12 p)) fixed_size
              || ltb (frame_maximum limits) (be32 (slice 8 12 p)))
            (λ h. rw (
              same 8 12 h,
              w.size,
              ge→ltb (length frame) fixed_size (omega (arith, f.size)),
              ge→ltb (frame_maximum limits) (length frame) f.fits,
            )),
        late 24 (length p) (be64 (slice 12 20 p) == 0)
            (λ h. rw (same 12 20 (omega arith), w.revision, f.valid.revised)),
        late 24 (length p)
            (be32 (slice 20 24 p) == 0 || ltb limits.max_batch_operations (be32 (slice 20 24 p)))
            (λ h. rw (
              same 20 24 h,
              w.count,
              f.valid.nonempty,
              ge→ltb limits.max_batch_operations (length c.effects) f.valid.operations,
            )),
        late 28 (length p) (not (be32 (slice 8 12 p) == fixed_size + be32 (slice 24 28 p))) (λ h.
            rw (
              same 8 12 (omega arith),
              same 24 28 h,
              w.size,
              w.payload_length,
              f.size,
              ==_refl (fixed_size + payload),
            )),
        late 28 (length p) (ltb (be32 (slice 24 28 p) / effect_header) (be32 (slice 20 24 p))) (λ h.
            rw (
              same 24 28 h,
              same 20 24 (omega arith),
              w.payload_length,
              w.count,
              ge→ltb (payload / effect_header) (length c.effects) (omega (arith, f.counted)),
            )),
      )
