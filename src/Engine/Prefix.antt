-- ===== src/Engine/Prefix.antt =====
-- internal/engine/scan.go: the validation of a prefix.
use gapdb.Prelude.{not, length, ltb, Bytes, utf8_valid}
use gapdb.Api.Errors.{Result, ◌>>◌, reject, invalid_request, key_too_large}
use gapdb.Api.Options.{Limits}

-- `validatePrefix`
unfoldable pub validate_prefix : Bytes → Limits → Result (Unit {0})
validate_prefix prefix limits = do
  reject (not (utf8_valid prefix)) (invalid_request "prefix" "must be valid UTF-8")
  reject (ltb limits.max_key_bytes (length prefix))
      (key_too_large (length prefix) limits.max_key_bytes)
