-- ===== src/Protocol/Frame.antt =====
-- internal/protocol/frame.go: the frames of a connection. A reader is the bytes that it gives before
-- its end or a failure.
pub mod RoundTrip
use gapdb.Prelude.{
  ℕ, ◌+◌, ◌-◌, ◌^◌, ◌==◌, ◌||◌, Bool, true, false, Bytes, length, take, drop, ltb, if◌then◌else◌,
}
use gapdb.Prelude.BigEndian.{be32, put32}
use gapdb.Api.Errors.{
  Error, Result, ok, err, ◌>>=◌, ◌>>◌, reject, invalid_protocol, frame_too_large,
}
use gapdb.Api.Options.{hard_max_frame_bytes}
use gapdb.Persist.Files.{FileOps, write_full}

-- `framePrefixBytes`
abbrev pub frame_prefix_bytes : ℕ
frame_prefix_bytes = 4

-- `HardMaxRecoveryBytes`
abbrev pub hard_max_recovery_bytes : ℕ
hard_max_recovery_bytes = 268435456

-- `ReadFrame`: the payload, and the bytes that are left for the next call.
unfoldable pub read_frame : Bytes → (maximum : ℕ) → Result (Bytes × Bytes)
read_frame bytes maximum = do
  reject (maximum == 0 || ltb hard_max_frame_bytes maximum)
      (invalid_protocol "maximum_frame_bytes" "is outside the supported range")
  reject (ltb (length bytes) frame_prefix_bytes)
      (invalid_protocol "frame_length" "could not read the complete four-byte prefix")
  let size = be32 (take frame_prefix_bytes bytes)
  reject (size == 0) (invalid_protocol "frame_length" "must be greater than zero")
  reject (ltb maximum size) (frame_too_large size maximum)
  let rest = drop frame_prefix_bytes bytes
  reject (ltb (length rest) size)
      (invalid_protocol "frame_payload" "ended before the declared length")
  ok (take size rest, drop size rest)

-- The checks of `writeFrame`
unfoldable pub check_frame : Bytes → (maximum ceiling : ℕ) → Result (Unit {0})
check_frame payload maximum ceiling = do
  reject (maximum == 0 || ltb ceiling maximum)
      (invalid_protocol "maximum_frame_bytes" "is outside the supported range")
  reject (length payload == 0) (invalid_protocol "frame_length" "must be greater than zero")
  reject (ltb maximum (length payload) || ltb (2 ^ 32 - 1) (length payload))
      (frame_too_large (length payload) maximum)

module _ {F : Type 0} (ops : FileOps F) where
  -- `writeFrame`. `writeAll` is the loop of `writeFull` in internal/persist/identity.go.
  unfoldable pub write_frame_within : F → Bytes → (maximum ceiling : ℕ) → F × Result (Unit {0})
  write_frame_within f payload maximum ceiling =
      let (f', cut) = write_full ops f (put32 (length payload)) in
      let (f'', cut') = write_full ops f' payload in
      elim (check_frame payload maximum ceiling) [
        | err e ↦ (f, err e)
        | ok _ ↦
            if cut
            then (
              f',
              err (invalid_protocol "frame_length" "could not write the complete four-byte prefix"),
            )
            else (if cut'
                then (
                  f'',
                  err (invalid_protocol "frame_payload" "could not write the complete payload"),
                )
                else (f'', ok tt))
      ]

  -- `WriteFrame`
  unfoldable pub write_frame : F → Bytes → (maximum : ℕ) → F × Result (Unit {0})
  write_frame f payload maximum = write_frame_within f payload maximum hard_max_frame_bytes

  -- `WriteRecoveryFrame`
  unfoldable write_recovery_frame : F → Bytes → (maximum : ℕ) → F × Result (Unit {0})
  write_recovery_frame f payload maximum =
      write_frame_within f payload maximum hard_max_recovery_bytes
