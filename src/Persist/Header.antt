-- ===== src/Persist/Header.antt =====
-- internal/persist/wal.go and identity.go: the fixed blocks of 64 bytes at the start of a log and in
-- the identity file. A database identifier is a list of sixteen bytes. The numbers that some reasons
-- of an error quote are left out of them.
pub mod RoundTrip
pub mod Bounds
pub mod Canonical
use Prim.Native.String.{String}
use gapdb.Prelude.{
  ℕ, ◌==◌, ◌||◌, not, Bool, true, false, List, [], ◌∷◌, ◌++◌, Bytes, key_eq, length, take,
}
use gapdb.Prelude.BigEndian.{be16, be32, be64, put16, put32, put64}
use gapdb.Prelude.Crc.{crc32c}
use gapdb.Prelude.Slices.{slice, zeros, all_zero}
use gapdb.Api.Errors.{
  Error, Result, ok, err, ◌>>=◌, ◌>>◌, reject, corrupt_wal, corrupt_identity, unknown_format,
  database_id_mismatch,
}

-- `storageVersion`
abbrev pub storage_version : ℕ
storage_version = 1

-- `WALHeaderSize` and `IdentitySize`
abbrev pub header_size : ℕ
header_size = 64

-- `DatabaseID.IsZero`, on the sixteen bytes
abbrev pub is_zero_id : Bytes → Bool
is_zero_id id = all_zero id

abbrev wal_magic : Bytes
wal_magic = b'G' ∷ b'A' ∷ b'P' ∷ b'W' ∷ b'A' ∷ b'L' ∷ b'0' ∷ b'1' ∷ []

abbrev identity_magic : Bytes
identity_magic = b'G' ∷ b'A' ∷ b'P' ∷ b'I' ∷ b'D' ∷ b'0' ∷ b'0' ∷ b'1' ∷ []

-- `WALHeader`
pub record WalHeader : Type 0 where
  pub database_id : Bytes
  pub first_revision : ℕ
  pub generation : ℕ

-- `Identity`
pub record Identity : Type 0 where
  pub database_id : Bytes
  pub reserved_revision_end : ℕ
  pub generation : ℕ

-- The first 60 bytes of both blocks, and the checksum behind them.
abbrev block : Bytes → Bytes → ℕ → ℕ → Bytes
block magic id first second =
    magic
    ++ put16 storage_version
    ++ put16 header_size
    ++ id
    ++ put64 first
    ++ put64 second
    ++ zeros 16

abbrev sealed : Bytes → Bytes
sealed bytes = bytes ++ put32 (crc32c bytes)

abbrev wal_error : String → Error
wal_error reason = corrupt_wal reason 0

-- `EncodeWALHeader`
unfoldable pub encode_wal_header : WalHeader → Result Bytes
encode_wal_header h = do
  reject (is_zero_id h.database_id || h.first_revision == 0 || h.generation == 0)
      (wal_error "WAL header fields must be nonzero")
  ok (sealed (block wal_magic h.database_id h.first_revision h.generation))

-- `DecodeWALHeader`
unfoldable pub decode_wal_header : Bytes → Bytes → Result WalHeader
decode_wal_header encoded expected = do
  reject (not (length encoded == header_size)) (wal_error "WAL header size is not 64")
  reject (not (key_eq (take 8 encoded) wal_magic)) (wal_error "WAL magic does not match GAPWAL01")
  let version = be16 (slice 8 10 encoded)
  reject (not (version == storage_version)) (unknown_format version)
  reject (not (be16 (slice 10 12 encoded) == header_size) || not (all_zero (slice 44 60 encoded)))
      (wal_error "WAL header length or reserved bytes are invalid")
  reject (not (crc32c (take 60 encoded) == be32 (slice 60 64 encoded)))
      (wal_error "WAL header CRC32C mismatch")
  let id = slice 12 28 encoded
  reject (not (key_eq id expected)) (database_id_mismatch expected id)
  let first = be64 (slice 28 36 encoded)
  let generation = be64 (slice 36 44 encoded)
  reject (first == 0 || generation == 0)
      (wal_error "WAL first revision and generation must be nonzero")
  ok (record { database_id = id; first_revision = first; generation = generation })

-- `EncodeIdentity`
unfoldable pub encode_identity : Identity → Result Bytes
encode_identity i = do
  reject (is_zero_id i.database_id) (corrupt_identity "database ID is zero")
  reject (i.generation == 0) (corrupt_identity "generation must be greater than zero")
  ok (sealed (block identity_magic i.database_id i.reserved_revision_end i.generation))

-- `DecodeIdentity`
unfoldable pub decode_identity : Bytes → Result Identity
decode_identity encoded = do
  reject (not (length encoded == header_size)) (corrupt_identity "size")
  reject (not (key_eq (take 8 encoded) identity_magic))
      (corrupt_identity "magic does not match GAPID001")
  let version = be16 (slice 8 10 encoded)
  reject (not (version == storage_version)) (unknown_format version)
  reject (not (be16 (slice 10 12 encoded) == header_size))
      (corrupt_identity "header length is not 64")
  reject (not (all_zero (slice 44 60 encoded))) (corrupt_identity "reserved bytes are nonzero")
  reject (not (crc32c (take 60 encoded) == be32 (slice 60 64 encoded)))
      (corrupt_identity "CRC32C mismatch")
  let id = slice 12 28 encoded
  let generation = be64 (slice 36 44 encoded)
  reject (is_zero_id id || generation == 0)
      (corrupt_identity "database ID and generation must be nonzero")
  ok (record {
    database_id = id;
    reserved_revision_end = be64 (slice 28 36 encoded);
    generation = generation;
  })
