-- ===== src/Engine/Scan.antt =====
-- internal/engine/scan.go: the pages of a scan. A cursor is the fields that its text encodes; the
-- text itself is not modelled.
pub mod Complete
use gapdb.Prelude.{
  ℕ, suc, ◌+◌, ◌==◌, ◌&&◌, ◌||◌, not, Bool, true, false, Option, none, some, List, [], ◌∷◌, Bytes,
  length, ltb, key_lt, has_prefix, if◌then◌else◌,
}
use gapdb.Prelude.Dict.{lookup}
use gapdb.Prelude.Keys.{key_eq}
use gapdb.Api.Errors.{
  Error, Result, ok, err, ◌>>=◌, ◌>>◌, reject, invalid_request, invalid_cursor, scan_stale,
  frame_too_large, internal,
}
use gapdb.Api.Types.{Instant, Record}
use gapdb.Api.Options.{Limits}
use gapdb.Engine.Clock.{clock_now}
use gapdb.Engine.Expiry.{record_expired}
use gapdb.Engine.Prefix.{validate_prefix}
use gapdb.Engine.State.{Store, Engine}

-- `scanCursor`
pub record ScanCursor : Type 0 where
  pub prefix : Bytes
  pub last_key : Bytes
  pub revision : ℕ
  pub as_of : Instant

-- `ScanPage`
pub record ScanPage : Type 0 where
  pub records : List Record
  pub observed_revision : ℕ
  pub as_of : Instant
  pub cursor : Option ScanCursor

abbrev expiry_bytes : Option Instant → ℕ
expiry_bytes none = 0
expiry_bytes (some t) = 8

-- `scanRecordBytes`
unfoldable pub scan_record_bytes : Record → ℕ
scan_record_bytes r = 32 + length r.key + length r.value + expiry_bytes r.expires_at

-- What one round of the loop decides: the loop ends, skips the key, stops with a full page,
-- fails, or adds a record.
pub data Round : Type 0 where
  beyond skipped full : Round
  fails : Error → Round
  adds : Record → Round

-- A record does not fit after `taken` records of `used` bytes.
abbrev pub is_full : Limits → ℕ → ℕ → ℕ → Record → Bool
is_full limits limit taken used r =
    (taken == limit) || ltb limits.max_scan_bytes (used + scan_record_bytes r)

pub round_at : Limits → ℕ → ℕ → ℕ → Record → Round
round_at limits limit taken used r =
    if is_full limits limit taken used r
    then if taken == 0
      then fails (frame_too_large (scan_record_bytes r) limits.max_scan_bytes)
      else full
    else adds r

-- The body of the loop of `ScanPrefix`.
unfoldable pub scan_round : Store → Limits → ℕ → Bytes → Instant → ℕ → ℕ → Bytes → Round
unfolding round_at
scan_round store limits limit prefix as_of taken used key =
    if has_prefix key prefix
    then elim (lookup key store.records) [
      | none ↦ fails (internal "engine-ordered-key-index" false)
      | some r ↦ if record_expired r as_of then skipped else round_at limits limit taken used r
    ]
    else beyond

abbrev pub add_record : Record → List Record × Bool → Result (List Record × Bool)
add_record r (rs, truncated) = ok (r ∷ rs, truncated)

-- The loop of `ScanPrefix`: the records of the page, and whether it is truncated.
unfoldable pub scan_keys :
    Store → Limits → ℕ → Bytes → Instant → ℕ → ℕ → List Bytes → Result (List Record × Bool)
scan_keys store limits limit prefix as_of taken used [] = ok ([], false)
scan_keys store limits limit prefix as_of taken used (key ∷ rest) =
    elim (scan_round store limits limit prefix as_of taken used key) [
      | beyond ↦ ok ([], false)
      | skipped ↦ scan_keys store limits limit prefix as_of taken used rest
      | full ↦ ok ([], true)
      | fails error ↦ err error
      | adds r ↦
          scan_keys store limits limit prefix as_of (suc taken) (used + scan_record_bytes r) rest
          >>= add_record r
    ]

-- The test of `sort.Search`: whether the scan starts at or before a key.
abbrev pub is_reached : Bytes → Option ScanCursor → Bytes → Bool
is_reached prefix none key = not (key_lt key prefix)
is_reached prefix (some c) key = key_lt c.last_key key

-- `orderedKeys[start:]`
unfoldable pub keys_from : (Bytes → Bool) → List Bytes → List Bytes
keys_from p [] = []
keys_from p (key ∷ rest) = if p key then key ∷ rest else keys_from p rest

unfoldable pub last_key_of : Bytes → List Record → Bytes
last_key_of k [] = k
last_key_of k (r ∷ rest) = last_key_of r.key rest

unfoldable pub check_cursor_prefix : Bytes → Option ScanCursor → Result (Unit {0})
check_cursor_prefix prefix none = ok tt
check_cursor_prefix prefix (some c) =
    reject (not (key_eq c.prefix prefix))
      (invalid_cursor "cursor prefix does not match request prefix")

-- The check of the cursor's revision, and the instant of the page.
unfoldable pub page_instant : ℕ → Instant → Option ScanCursor → Result Instant
page_instant observed now none = ok now
page_instant observed now (some c) =
    if c.revision == observed then ok c.as_of else err (scan_stale c.revision observed)

abbrev pub page_of : Bytes → ℕ → Instant → List Record × Bool → ScanPage
page_of prefix observed as_of (rs, truncated) = record {
  records = rs;
  observed_revision = observed;
  as_of = as_of;
  cursor =
      if truncated
      then some (record {
        prefix = prefix;
        last_key = last_key_of [] rs;
        revision = observed;
        as_of = as_of;
      })
      else none;
}

-- `ScanPrefix`, after the cursor's text is decoded
unfoldable pub scan_prefix :
    {L A : Type 0} → Engine L A → Instant → Bytes → ℕ → Option ScanCursor → Result ScanPage
scan_prefix e source prefix limit cursor = do
  validate_prefix prefix e.limits
  reject ((limit == 0) || ltb e.limits.max_scan_records limit)
      (invalid_request "limit" "must be between 1 and the configured scan-record limit")
  check_cursor_prefix prefix cursor
  as_of ← page_instant e.store.current (clock_now e.clock source).0 cursor
  scanned ←
      scan_keys e.store e.limits limit prefix as_of 0 0
        (keys_from (is_reached prefix cursor) e.store.ordered_keys.keys)
  ok (page_of prefix e.store.current as_of scanned)
