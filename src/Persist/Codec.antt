-- ===== src/Persist/Codec.antt =====
-- internal/persist/wal.go: the frame of a commit, as bytes.
pub mod Frame
pub mod Payload
pub mod Valid
use Prim.Native.String.{String}
use gapdb.Prelude.{
  ℕ, zero, suc, ◌+◌, ◌-◌, ◌*◌, ◌/◌, ◌%◌, ◌^◌, ◌==◌, ◌||◌, not, Bool, true, false, Option, none,
  some, List, [], ◌∷◌, ◌++◌, Bytes, key_eq, utf8_valid, length, take, drop, ltb, if◌then◌else◌,
}
use gapdb.Prelude.BigEndian.{be16, be32, be64, put16, put32, put64}
use gapdb.Prelude.Crc.{crc32c}
use gapdb.Prelude.Dict.{lookup, insert}
use gapdb.Prelude.Int.{eq_ℤ, to_uint64, of_uint64}
use gapdb.Prelude.Slices.{slice, byte_at, zeros, all_zero}
use gapdb.Api.Errors.{
  Error, Result, ok, err, ◌>>=◌, ◌>>◌, reject, corrupt_wal, unknown_format, batch_too_large,
  key_too_large, value_too_large, duplicate_key,
}
use gapdb.Api.Options.{Limits}
use gapdb.Api.Types.{ChangeKind, Instant}
use gapdb.Api.Validate.{is_some}
use gapdb.Engine.Admission.{frame_maximum}
use gapdb.Persist.Frames.{Effect, CommitFrame}
use gapdb.Persist.Header.{storage_version}
use gapdb.Persist.Effects.{effect_header, encode_effects, decode_effects}

-- `frameHeaderSize + frameTrailer`
abbrev pub fixed_size : ℕ
fixed_size = 32

abbrev pub commit_magic : Bytes
commit_magic = b'C' ∷ b'M' ∷ b'I' ∷ b'T' ∷ []

abbrev wal_error : String → Error
wal_error reason = corrupt_wal reason 0

check_expiry : Option Instant → Result (Unit {0})
check_expiry none = ok tt
check_expiry (some t) =
    reject (not (eq_ℤ (of_uint64 (to_uint64 t)) t))
      (wal_error "put expiry cannot be represented as Unix nanoseconds")

-- The switch on the kind in the loop of `validateCommit`.
check_kind : ChangeKind → Effect → Limits → Result (Unit {0})
unfolding check_expiry
check_kind ChangeKind.put e limits = do
  reject (ltb limits.max_value_bytes (length e.value))
      (value_too_large (length e.value) limits.max_value_bytes)
  check_expiry e.expires_at
check_kind ChangeKind.unknown e limits = err (wal_error "effect kind is unknown")
check_kind _ e limits =
    reject (not (length e.value == 0) || is_some e.expires_at)
      (wal_error "delete/expire cannot carry value or expiry")

repeated : Bytes → ℕ → Option ℕ → Result (Unit {0})
repeated key index none = ok tt
repeated key index (some previous) = err (
    duplicate_key (record {
      key = key;
      assertion_index = none;
      mutation_index = none;
      mutation_indexes = previous ∷ index ∷ [];
    }))

check_effects : Limits → ℕ → List (Bytes × ℕ) → List Effect → Result (Unit {0})
unfolding check_kind repeated
check_effects limits index seen [] = ok tt
check_effects limits index seen (e ∷ rest) = do
  reject (length e.key == 0 || not (utf8_valid e.key))
      (wal_error "effect key is empty or invalid UTF-8")
  reject (ltb limits.max_key_bytes (length e.key))
      (key_too_large (length e.key) limits.max_key_bytes)
  repeated e.key index (lookup e.key seen)
  check_kind e.kind e limits
  check_effects limits (suc index) (insert e.key index seen) rest

-- `validateCommit`
unfoldable pub validate_commit : CommitFrame → Limits → Result (Unit {0})
unfolding check_effects
validate_commit c limits = do
  reject (c.revision == 0) (wal_error "commit revision must be nonzero")
  reject (length c.effects == 0) (wal_error "commit must contain at least one mutation")
  reject (ltb limits.max_batch_operations (length c.effects))
      (batch_too_large (length c.effects) limits.max_batch_operations)
  check_effects limits 0 [] c.effects

-- The loop of `effectPayloadLength`, from the total so far.
payload_from : ℕ → List Effect → Result ℕ
payload_from total [] = ok total
payload_from total (e ∷ rest) = do
  let item = (effect_header + length e.key + length e.value) % 2 ^ 64
  reject (ltb (2 ^ 64 - 1 - item) total) (wal_error "mutation payload length overflows")
  payload_from (total + item) rest

-- `effectPayloadLength`
unfoldable pub effect_payload_length : List Effect → Result ℕ
unfolding payload_from
effect_payload_length effects = payload_from 0 effects

-- `saturatedInt`
abbrev pub saturated_int : ℕ → ℕ
saturated_int value = if ltb (2 ^ 63 - 1) value then 2 ^ 63 - 1 else value

-- All of a frame but the checksum behind it.
abbrev pub frame_body : CommitFrame → ℕ → ℕ → Bytes
frame_body c total payload =
    commit_magic
    ++ put16 storage_version
    ++ put16 0
    ++ put32 total
    ++ put64 c.revision
    ++ put32 (length c.effects)
    ++ put32 payload
    ++ encode_effects c.effects

-- `EncodeCommitFrame`
unfoldable pub encode_commit_frame : CommitFrame → Limits → Result Bytes
encode_commit_frame c limits = do
  validate_commit c limits
  payload ← effect_payload_length c.effects
  let total = (fixed_size + payload) % 2 ^ 64
  reject (ltb (frame_maximum limits) total || ltb (2 ^ 32 - 1) total)
      (batch_too_large (saturated_int total) (frame_maximum limits))
  ok (frame_body c total payload ++ put32 (crc32c (frame_body c total payload)))

-- `if err := …; err != nil { return failure }`
abbrev pub instead {ℓ} : {A : Type ℓ} → Error → Result A → Result A
instead failure (ok x) = ok x
instead failure (err e) = err failure

-- `DecodeCommitFrame`
unfoldable pub decode_commit_frame : Bytes → Limits → Result CommitFrame
decode_commit_frame encoded limits = do
  reject (ltb (length encoded) fixed_size)
      (wal_error "commit frame is shorter than its fixed fields")
  reject (not (key_eq (take 4 encoded) commit_magic)) (wal_error "commit magic does not match CMIT")
  let version = be16 (slice 4 6 encoded)
  reject (not (version == storage_version)) (unknown_format version)
  reject (not (be16 (slice 6 8 encoded) == 0)) (wal_error "commit flags are nonzero")
  let total = be32 (slice 8 12 encoded)
  let payload_length = be32 (slice 24 28 encoded)
  reject
      (not (total == length encoded)
        || not (total == fixed_size + payload_length)
        || ltb (frame_maximum limits) total)
      (wal_error "commit frame lengths are inconsistent or exceed limits")
  let count = be32 (slice 20 24 encoded)
  reject
      (count == 0
        || ltb limits.max_batch_operations count
        || ltb (payload_length / effect_header) count)
      (wal_error "mutation count is outside limits or impossible for payload")
  reject
      (not (crc32c (take (length encoded - 4) encoded) == be32 (drop (length encoded - 4) encoded)))
      (wal_error "commit frame CRC32C mismatch")
  effects ← decode_effects limits count 28 (slice 28 (length encoded - 4) encoded)
  let commit : CommitFrame = record { revision = be64 (slice 12 20 encoded); effects = effects }
  instead (wal_error "decoded commit violates mutation invariants") (validate_commit commit limits)
  ok commit
