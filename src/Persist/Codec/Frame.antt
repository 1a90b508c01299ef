-- ===== src/Persist/Codec/Frame.antt =====
-- `DecodeCommitFrame` on what `EncodeCommitFrame` wrote, and on frames that it accepts.
use gapdb.Prelude.{
  ◌∙◌, sym, ℕ, ◌+◌, ◌-◌, ◌*◌, ◌/◌, ◌%◌, ◌≤◌, ◌<◌, ◌^◌, ◌||◌, List, [], ◌∷◌, ◌++◌, Bytes, length,
  take, drop, ltb, ◌≡◌, refl, arith, take-append, drop-append, length-append, ap, ge→ltb, ◌∙◌, sym,
  ==_refl,
}
use gapdb.Prelude.BigEndian.{be16, be32, be64, put16, put32, put64, be32-put32, be64-put64}
use gapdb.Prelude.Crc.{crc32c, crc32c-lt}
use gapdb.Prelude.Keys.{key_eq_refl}
use gapdb.Prelude.Slices.{slice}
use gapdb.Api.Errors.{Error, ◌>>◌, ok, >>=-eq-ok, reject}
use gapdb.Api.Options.{Limits}
use gapdb.Engine.Admission.{frame_maximum}
use gapdb.Persist.Frames.{Effect, CommitFrame}
use gapdb.Persist.Effects.{encode_effects, decode_effects, effect_header}
use gapdb.Persist.Codec.{
  validate_commit, effect_payload_length, payload_from, encode_commit_frame, decode_commit_frame,
  frame_body, commit_magic, fixed_size,
}
use gapdb.Persist.Codec.Valid.{Valid, validate_commit-Valid}
use gapdb.Persist.Codec.Payload.{payload_size, length-encode_effects, decode_effects-encode_effects}

payload_from-payload_size :
    (total : ℕ) (es : List Effect)
    → total + payload_size es < 2 ^ 64
    → payload_from total es ≡ ok (total + payload_size es)
unfolding payload_from
payload_from-payload_size total [] h = ap ok (omega arith)
payload_from-payload_size total (e ∷ rest) h = ground (
  arith,
  payload_from-payload_size (total + (effect_header + length e.key + length e.value)) rest,
)

-- The head of a frame, as the slices that are read of it.
pub record Written (c : CommitFrame) (total payload : ℕ) (frame : Bytes) : Type 0 where
  pub magic : take 4 frame ≡ commit_magic
  pub version : be16 (slice 4 6 frame) ≡ 1
  pub flags : be16 (slice 6 8 frame) ≡ 0
  pub size : be32 (slice 8 12 frame) ≡ total
  pub revision : be64 (slice 12 20 frame) ≡ c.revision
  pub count : be32 (slice 20 24 frame) ≡ length c.effects
  pub payload_length : be32 (slice 24 28 frame) ≡ payload
  pub body : drop 28 frame ≡ encode_effects c.effects ++ put32 (crc32c (frame_body c total payload))

frame_body-Written :
    (c : CommitFrame) (total payload : ℕ)
    → c.revision < 2 ^ 64
    → total < 2 ^ 32
    → length c.effects < 2 ^ 32
    → payload < 2 ^ 32
    → Written c total payload
        (frame_body c total payload ++ put32 (crc32c (frame_body c total payload)))
unfolding put16 put32 put64 be16
frame_body-Written c total payload small st sc sp = record {
  magic = refl;
  version = refl;
  flags = refl;
  size = rw (be32-put32 total st);
  revision = rw (be64-put64 c.revision small);
  count = rw (be32-put32 (length c.effects) sc);
  payload_length = rw (be32-put32 payload sp);
  body = refl;
}

count-payload_size : (es : List Effect) → length es * effect_header ≤ payload_size es
count-payload_size [] = omega arith
count-payload_size (e ∷ rest) = omega (arith, count-payload_size rest)

length-frame_body :
    (c : CommitFrame) (total payload : ℕ)
    → length (frame_body c total payload) ≡ 28 + length (encode_effects c.effects)
unfolding put16 put32 put64
length-frame_body c total payload = omega arith

length-put32 : (n : ℕ) → length (put32 n) ≡ 4
unfolding put32
length-put32 n = refl

-- The decoder, on bytes of which it is known what it reads.
decode-Written :
    (c : CommitFrame) (limits : Limits) (payload : ℕ) (frame : Bytes)
    → Written c (fixed_size + payload) payload frame
    → length frame ≡ fixed_size + payload
    → fixed_size + payload ≤ frame_maximum limits
    → length c.effects * effect_header ≤ payload
    → Valid limits c
    → crc32c (take (length frame - 4) frame) ≡ be32 (drop (length frame - 4) frame)
    → decode_effects limits (length c.effects) 28 (slice 28 (length frame - 4) frame) ≡ ok c.effects
    → validate_commit c limits ≡ ok tt
    → decode_commit_frame frame limits ≡ ok c
unfolding decode_commit_frame
decode-Written c limits payload frame w size fits counted v crc effects valid = rw (
  ge→ltb (length frame) fixed_size (omega arith),
  w.magic,
  key_eq_refl commit_magic,
  w.version,
  w.flags,
  w.size,
  w.payload_length,
  w.count,
  w.revision,
  crc,
  ==_refl (be32 (drop (length frame - 4) frame)),
  v.nonempty,
  ge→ltb limits.max_batch_operations (length c.effects) v.operations,
  ge→ltb (payload / effect_header) (length c.effects) (omega arith),
  ge→ltb (frame_maximum limits) (fixed_size + payload) fits,
  effects,
  valid,
  size,
  ==_refl (fixed_size + payload),
)

sized :
    (maximum total : ℕ) (whole encoded : Bytes) (e : Error)
    → (reject (ltb maximum total || ltb (2 ^ 32 - 1) total) e >> ok whole) ≡ ok encoded
    → (total ≤ maximum) × (total < 2 ^ 32) × (encoded ≡ whole)
sized maximum total whole encoded e q = ground (arith, q)

-- What is known of an encoded frame.
encoded_as :
    (c : CommitFrame) (limits : Limits) (encoded : Bytes) (payload : ℕ)
    → payload ≡ payload_size c.effects
    → fixed_size + payload < 2 ^ 64
    → encode_commit_frame c limits ≡ ok encoded
    → (validate_commit c limits ≡ ok tt)
      × (fixed_size + payload ≤ frame_maximum limits)
      × (fixed_size + payload < 2 ^ 32)
      × (encoded
          ≡ frame_body c (fixed_size + payload) payload
            ++ put32 (crc32c (frame_body c (fixed_size + payload) payload)))
unfolding encode_commit_frame effect_payload_length
encoded_as c limits encoded payload sum memory q =
    let (_, valid, q1) = >>=-eq-ok (validate_commit c limits) _ q in
    let counted : payload_from 0 c.effects ≡ ok payload =
      payload_from-payload_size 0 c.effects (omega arith) ∙ ap ok (omega arith) in
    let total : (fixed_size + payload) % 2 ^ 64 ≡ fixed_size + payload = omega arith in
    let (fits, narrow, made) =
      sized (frame_maximum limits) (fixed_size + payload) _ encoded _ (rw (counted, total) at q1) in
    (valid, fits, narrow, made)

length-sealed :
    (c : CommitFrame) (total : ℕ)
    → length (
        frame_body c total (payload_size c.effects)
        ++ put32 (crc32c (frame_body c total (payload_size c.effects))))
      ≡ fixed_size + payload_size c.effects
length-sealed c total =
    let body = frame_body c total (payload_size c.effects) in
    omega (
      arith,
      length-append body (put32 (crc32c body)),
      length-put32 (crc32c body),
      length-frame_body c total (payload_size c.effects),
      length-encode_effects c.effects,
    )

decode-sealed :
    (c : CommitFrame) (limits : Limits) (frame : Bytes)
    → c.revision < 2 ^ 64
    → fixed_size + payload_size c.effects ≤ frame_maximum limits
    → fixed_size + payload_size c.effects < 2 ^ 32
    → validate_commit c limits ≡ ok tt
    → frame
      ≡ frame_body c (fixed_size + payload_size c.effects) (payload_size c.effects)
        ++ put32
            (crc32c (frame_body c (fixed_size + payload_size c.effects) (payload_size c.effects)))
    → length frame ≡ fixed_size + payload_size c.effects
    → decode_commit_frame frame limits ≡ ok c
decode-sealed c limits frame small fits narrow valid made size =
    let payload = payload_size c.effects in
    let total = fixed_size + payload in
    let body = frame_body c total payload in
    let few = count-payload_size c.effects in
    let w : Written c total payload frame =
      rw made (frame_body-Written c total payload small narrow (omega arith) (omega arith)) in
    let v = validate_commit-Valid c limits valid in
    let inner : length body ≡ length frame - 4 =
      omega (arith, length-frame_body c total payload, length-encode_effects c.effects) in
    let front : take (length frame - 4) frame ≡ body =
      ap (take (length frame - 4)) made
      ∙ take-append (length frame - 4) body (put32 (crc32c body)) inner in
    let back : drop (length frame - 4) frame ≡ put32 (crc32c body) =
      ap (drop (length frame - 4)) made
      ∙ drop-append (length frame - 4) body (put32 (crc32c body)) inner in
    let middle : slice 28 (length frame - 4) frame ≡ encode_effects c.effects =
      ap (take (length frame - 4 - 28)) w.body
      ∙ take-append (length frame - 4 - 28) (encode_effects c.effects) (put32 (crc32c body))
          (omega (arith, length-encode_effects c.effects)) in
    decode-Written c limits payload frame w size fits few v
      (ap crc32c front ∙ sym (ap be32 back ∙ be32-put32 (crc32c body) (crc32c-lt body)))
      (ap (decode_effects limits (length c.effects) 28) middle
        ∙ decode_effects-encode_effects limits 28 c.effects v.writable (omega arith))
      valid

-- What is known of an encoded frame.
pub record Framed (c : CommitFrame) (limits : Limits) (frame : Bytes) : Type 0 where
  pub size : length frame ≡ fixed_size + payload_size c.effects
  pub fits : length frame ≤ frame_maximum limits
  pub valid : Valid limits c
  pub counted : length c.effects * effect_header ≤ payload_size c.effects
  pub written : Written c (length frame) (payload_size c.effects) frame
  pub decoded : decode_commit_frame frame limits ≡ ok c

pub encode_commit_frame-Framed :
    (c : CommitFrame) (limits : Limits) (encoded : Bytes)
    → c.revision < 2 ^ 64
    → fixed_size + payload_size c.effects < 2 ^ 64
    → encode_commit_frame c limits ≡ ok encoded
    → Framed c limits encoded
encode_commit_frame-Framed c limits encoded small memory q =
    let payload = payload_size c.effects in
    let (valid, fits, narrow, made) = encoded_as c limits encoded payload refl memory q in
    let size = ap length made ∙ length-sealed c (fixed_size + payload) in
    let few = count-payload_size c.effects in
    record {
      size = size;
      fits = omega arith;
      valid = validate_commit-Valid c limits valid;
      counted = few;
      written =
          rw (size, made)
            (frame_body-Written c (fixed_size + payload) payload small narrow (omega arith)
              (omega arith));
      decoded = decode-sealed c limits encoded small fits narrow valid made size;
    }

-- If a commit with a revision below 2^64, whose frame length is below 2^64, is encoded, then
-- decoding the frame under the same limits gives the commit, and the frame is 32 bytes longer
-- than its effects.
pub decode_commit_frame-encode_commit_frame :
    (c : CommitFrame) (limits : Limits) (encoded : Bytes)
    → c.revision < 2 ^ 64
    → fixed_size + payload_size c.effects < 2 ^ 64
    → encode_commit_frame c limits ≡ ok encoded
    → (decode_commit_frame encoded limits ≡ ok c)
      × (length encoded ≡ fixed_size + payload_size c.effects)
decode_commit_frame-encode_commit_frame c limits encoded small memory q =
    let f = encode_commit_frame-Framed c limits encoded small memory q in (f.decoded, f.size)
