-- ===== src/Protocol/Frame/RoundTrip.antt =====
-- What `WriteFrame` puts into a stream, `ReadFrame` takes out of it.
use mathlib.Core.List.{append_assoc}
use gapdb.Prelude.{take_whole}
use gapdb.Prelude.{
  ℕ, ◌^◌, ◌≤◌, ◌<◌, ◌==◌, ◌||◌, false, ◌++◌, Bytes, length, take, ltb, ◌≡◌, refl, ap, ◌∙◌, arith,
  Bool-cases, inl, inr, take-append, drop-append, length-append, ge→ltb,
}
use gapdb.Prelude.BigEndian.{put32, be32-put32}
use gapdb.Api.Errors.{ok, reject, >>=-eq-ok, Result-cases}
use gapdb.Api.Options.{hard_max_frame_bytes}
use gapdb.Persist.Files.{FileOps, IsFile, write_full}
use gapdb.Persist.Files.Write.{write_full-WroteFull}
use gapdb.Protocol.Frame.{
  read_frame, check_frame, write_frame_within, write_frame, frame_prefix_bytes,
}

-- The bytes of a frame.
abbrev pub frame_bytes : Bytes → Bytes
frame_bytes payload = put32 (length payload) ++ payload

length-put32 : (n : ℕ) → length (put32 n) ≡ 4
unfolding put32
length-put32 n = refl

module _ {F : Type 0} (ops : FileOps F) (file : IsFile ops) where
  read_frame-frame_bytes :
      (payload rest : Bytes) (maximum : ℕ)
      → check_frame payload maximum hard_max_frame_bytes ≡ ok tt
      → read_frame (frame_bytes payload ++ rest) maximum ≡ ok (payload, rest)
  unfolding read_frame check_frame
  read_frame-frame_bytes payload rest maximum q =
      let (_, allowed, q1) =
        >>=-eq-ok (reject (maximum == 0 || ltb hard_max_frame_bytes maximum) _) _ q in
      let (_, some_byte, q2) = >>=-eq-ok (reject (length payload == 0) _) _ q1 in
      let size = length-put32 (length payload) in
      let stream = frame_bytes payload ++ rest in
      let shape : stream ≡ put32 (length payload) ++ (payload ++ rest) =
        append_assoc (put32 (length payload)) payload rest in
      let narrow : length payload < 2 ^ 32 = ground (arith, q2) in
      let fits : length payload ≤ maximum = ground (arith, q2) in
      let range : (maximum == 0 || ltb hard_max_frame_bytes maximum) ≡ false =
        ground (arith, allowed) in
      let nonempty : (length payload == 0) ≡ false = ground (arith, some_byte) in
      let back : read_frame (put32 (length payload) ++ (payload ++ rest)) maximum
          ≡ ok (payload, rest) =
        rw (
          range,
          ge→ltb (length (put32 (length payload) ++ (payload ++ rest))) frame_prefix_bytes
              (omega (arith, length-append (put32 (length payload)) (payload ++ rest))),
          take-append 4 (put32 (length payload)) (payload ++ rest) size,
          drop-append 4 (put32 (length payload)) (payload ++ rest) size,
          be32-put32 (length payload) narrow,
          nonempty,
          ge→ltb maximum (length payload) fits,
          ge→ltb (length (payload ++ rest)) (length payload)
              (omega (arith, length-append payload rest)),
          take-append (length payload) payload rest refl,
          drop-append (length payload) payload rest refl,
        ) in
      ap (λ b. read_frame b maximum) shape ∙ back

  -- What a successful call has checked and done.
  written :
      (f : F) (payload : Bytes) (maximum : ℕ)
      → (write_frame ops f payload maximum).1 ≡ ok tt
      → (check_frame payload maximum hard_max_frame_bytes ≡ ok tt)
        × (file.content (write_frame ops f payload maximum).0
            ≡ file.content f ++ frame_bytes payload)
  unfolding write_frame write_frame_within
  written f payload maximum q =
      let prefix = put32 (length payload) in
      let f' = (write_full ops f prefix).0 in
      let first = write_full-WroteFull ops file f prefix in
      let second = write_full-WroteFull ops file f' payload in
      elim (Result-cases (check_frame payload maximum hard_max_frame_bytes)) [
        | inr (e, bad) ↦ cc
        | inl (u, good) ↦ elim (Bool-cases (write_full ops f prefix).1) [
          | inl cut ↦ cc
          | inr full ↦ elim (Bool-cases (write_full ops f' payload).1) [
            | inl cut' ↦ cc
            | inr full' ↦
                let done : write_frame_within ops f payload maximum hard_max_frame_bytes
                    ≡ ((write_full ops f' payload).0, ok tt) =
                  rw (good, full, full', write_frame_within) in
                (
                  good,
                  ap (λ x. file.content x.0) done
                      ∙ second.content
                      ∙ ap (λ b. b ++ take second.count payload) first.content
                      ∙ ap (λ b. (file.content f ++ take first.count prefix) ++ b)
                          (take_whole second.count payload (second.whole full'))
                      ∙ ap (λ b. (file.content f ++ b) ++ payload)
                          (take_whole first.count prefix (first.whole full))
                      ∙ append_assoc (file.content f) prefix payload,
                )
          ]
        ]
      ]

  -- If WriteFrame succeeds on a writer that behaves as documented, it has written some bytes
  -- behind what was there, and ReadFrame with the same maximum gives the payload back from a
  -- stream that starts with these bytes, and leaves the rest of it.
  pub read_frame-write_frame :
      (f : F) (payload rest : Bytes) (maximum : ℕ)
      → (write_frame ops f payload maximum).1 ≡ ok tt
      → (stream : Bytes) × (file.content (write_frame ops f payload maximum).0
          ≡ file.content f ++ stream)
        × (read_frame (stream ++ rest) maximum ≡ ok (payload, rest))
  read_frame-write_frame f payload rest maximum q =
      let (good, content) = written f payload maximum q in
      (frame_bytes payload, content, read_frame-frame_bytes payload rest maximum good)
