-- ===== src/Engine/Reads.antt =====
-- internal/engine/state.go: the reading of one key. It changes the clock only.
use gapdb.Prelude.{Option, none, some, Bytes, if◌then◌else◌}
use gapdb.Prelude.Dict.{lookup}
use gapdb.Api.Errors.{Result, ok, err, ◌>>◌, not_found}
use gapdb.Api.Types.{Instant, Record}
use gapdb.Api.Validate.{validate_key}
use gapdb.Engine.Clock.{clock_now}
use gapdb.Engine.Expiry.{record_expired}
use gapdb.Engine.State.{Store, Engine}

-- The record of a key that has not expired.
unfoldable pub live_record : Store → Instant → Bytes → Option Record
live_record store now key = elim (lookup key store.records) [
  | none ↦ none
  | some r ↦ if record_expired r now then none else some r
]

get_at : Store → Instant → Bytes → Result Record
get_at store now key = elim (live_record store now key) [
  | none ↦ err (not_found key store.current)
  | some r ↦ ok r
]

-- `Get`, with the reading of the source clock as an argument
unfoldable pub get : {L A : Type 0} → Engine L A → Instant → Bytes → Result Record
unfolding get_at
get e source key = do validate_key key e.limits; get_at e.store (clock_now e.clock source).0 key
