-- ===== src/Persist/Effects.antt =====
-- internal/persist/wal.go: the effects of a commit, as the bytes of a frame's payload.
use gapdb.Prelude.{
  ℕ, zero, suc, ◌+◌, ◌-◌, ◌/◌, ◌%◌, ◌==◌, ◌||◌, not, Option, none, some, List, [], ◌∷◌, ◌++◌, Bytes,
  utf8_valid, length, take, drop, ltb, if◌then◌else◌,
}
use gapdb.Prelude.BigEndian.{be32, be64, put32, put64}
use gapdb.Prelude.Int.{to_uint64, of_uint64}
use gapdb.Prelude.Slices.{slice, byte_at, zeros, all_zero}
use gapdb.Api.Errors.{Result, ok, err, ◌>>=◌, ◌>>◌, reject, corrupt_wal}
use gapdb.Api.Options.{Limits}
use gapdb.Api.Types.{ChangeKind, Instant}
use gapdb.Persist.Frames.{Effect}

-- `effectHeader`
abbrev pub effect_header : ℕ
effect_header = 20

-- The byte of a kind.
abbrev pub kind_byte : ChangeKind → ℕ
kind_byte ChangeKind.put = 1
kind_byte ChangeKind.delete = 2
kind_byte ChangeKind.expire = 3
kind_byte ChangeKind.unknown = 0

abbrev pub flag_byte : Option Instant → ℕ
flag_byte none = 0
flag_byte (some t) = 1

abbrev pub expiry_bytes : Option Instant → Bytes
expiry_bytes none = zeros 8
expiry_bytes (some t) = put64 (to_uint64 t)

-- The bytes in front of the key and the value.
abbrev pub effect_fields : ChangeKind → ℕ → ℕ → Option Instant → Bytes
effect_fields kind key_length value_length at =
    (kind_byte kind ∷ flag_byte at ∷ 0 ∷ 0 ∷ [])
    ++ put32 key_length
    ++ put32 value_length
    ++ expiry_bytes at

-- The loop of `EncodeCommitFrame`
unfoldable pub encode_effects : List Effect → Bytes
encode_effects [] = []
encode_effects (e ∷ rest) =
    effect_fields e.kind (length e.key) (length e.value) e.expires_at
    ++ (e.key ++ (e.value ++ encode_effects rest))

-- The switch on the kind byte in the loop of `DecodeCommitFrame`.
unfoldable pub effect_of : (kind flags : ℕ) (key value : Bytes) (nanos offset : ℕ) → Result Effect
effect_of kind flags key value nanos offset =
    if kind == 1
    then (if flags % 2 == 1
        then ok (record {
          kind = ChangeKind.put;
          key = key;
          value = value;
          expires_at = some (of_uint64 nanos);
        })
        else (reject (not (nanos == 0))
              (corrupt_wal "put expiry value is nonzero without its flag" offset)
            >> ok (record { kind = ChangeKind.put; key = key; value = value; expires_at = none })))
    else (if kind == 2 || kind == 3
        then (reject (not (length value == 0) || not (flags == 0) || not (nanos == 0))
              (corrupt_wal "delete/expire carries a value or expiry" offset)
            >> ok (record {
              kind = if kind == 2 then ChangeKind.delete else ChangeKind.expire;
              key = key;
              value = [];
              expires_at = none;
            }))
        else err (corrupt_wal "mutation kind is unknown" offset))

-- One round of the loop of `DecodeCommitFrame`, on the payload that is left: the effect, and the
-- bytes that it takes.
unfoldable pub decode_effect : Limits → (offset : ℕ) → Bytes → Result (Effect × ℕ)
decode_effect limits offset payload = do
  reject (ltb (length payload) effect_header)
      (corrupt_wal "mutation header exceeds the payload" offset)
  let kind = byte_at 0 payload
  let flags = byte_at 1 payload
  reject (not (flags / 2 == 0) || not (all_zero (slice 2 4 payload)))
      (corrupt_wal "mutation flags or reserved bytes are invalid" offset)
  let key_length = be32 (slice 4 8 payload)
  let value_length = be32 (slice 8 12 payload)
  let nanos = be64 (slice 12 20 payload)
  let body = drop 20 payload
  let after = offset + effect_header
  reject
      (ltb limits.max_key_bytes key_length
        || ltb limits.max_value_bytes value_length
        || ltb (length body) key_length
        || ltb (length body - key_length) value_length)
      (corrupt_wal "mutation key/value lengths exceed bounds" after)
  let key = take key_length body
  let value = take value_length (drop key_length body)
  reject (length key == 0 || not (utf8_valid key))
      (corrupt_wal "mutation key is empty or invalid UTF-8" after)
  effect ← effect_of kind flags key value nanos after
  ok (effect, effect_header + key_length + value_length)

-- The loop of `DecodeCommitFrame` and the check behind it.
unfoldable pub decode_effects : Limits → (count offset : ℕ) → Bytes → Result (List Effect)
decode_effects limits zero offset payload = do
  reject (not (length payload == 0)) (corrupt_wal "mutation payload has trailing bytes" offset)
  ok []
decode_effects limits (suc count) offset payload = do
  decoded ← decode_effect limits offset payload
  rest ← decode_effects limits count (offset + decoded.1) (drop decoded.1 payload)
  ok (decoded.0 ∷ rest)
