-- ===== src/Api/Options.antt =====
-- gapdb/options.go: the configured limits and their validation.
use Prim.Native.String.{String}
use gapdb.Prelude.{ℕ, ◌||◌, leb, ltb}
use gapdb.Api.Errors.{invalid_request, Result, ◌>>◌, reject}

pub record Limits : Type 0 where
  pub max_key_bytes : ℕ
  pub max_value_bytes : ℕ
  pub max_frame_bytes : ℕ
  pub max_batch_bytes : ℕ
  pub max_batch_operations : ℕ
  pub max_scan_records : ℕ
  pub max_scan_bytes : ℕ
  pub watch_buffer_events : ℕ
  pub max_watch_clients : ℕ
  pub max_concurrent_clients : ℕ
  pub max_history_events : ℕ
  pub max_history_bytes : ℕ

abbrev pub minimum_max_frame_bytes : ℕ
minimum_max_frame_bytes = 2048

abbrev pub hard_max_frame_bytes : ℕ
hard_max_frame_bytes = 67108864

abbrev pub default_options : Limits
default_options = record {
  max_key_bytes = 4096;
  max_value_bytes = 8388608;
  max_frame_bytes = 16777216;
  max_batch_bytes = 16777216;
  max_batch_operations = 1024;
  max_scan_records = 1000;
  max_scan_bytes = 16777216;
  watch_buffer_events = 256;
  max_watch_clients = 256;
  max_concurrent_clients = 256;
  max_history_events = 100000;
  max_history_bytes = 67108864;
}

-- The hard ceilings.
abbrev pub hard_ceilings : Limits
hard_ceilings = record {
  max_key_bytes = 65536;
  max_value_bytes = 67108864;
  max_frame_bytes = hard_max_frame_bytes;
  max_batch_bytes = 67108864;
  max_batch_operations = 65536;
  max_scan_records = 10000;
  max_scan_bytes = 67108864;
  watch_buffer_events = 8192;
  max_watch_clients = 4096;
  max_concurrent_clients = 4096;
  max_history_events = 1000000;
  max_history_bytes = 1073741824;
}

-- One row of the table of checks.
abbrev check_range : String → ℕ → ℕ → Result (Unit {0})
check_range name value ceiling =
    reject (leb value 0 || ltb ceiling value)
      (invalid_request name "must be between 1 and the ceiling")

-- `Options.Validate`
unfoldable pub validate_options : Limits → Result (Unit {0})
validate_options l = do
  check_range "limits.max_key_bytes" l.max_key_bytes hard_ceilings.max_key_bytes
  check_range "limits.max_value_bytes" l.max_value_bytes hard_ceilings.max_value_bytes
  check_range "limits.max_frame_bytes" l.max_frame_bytes hard_ceilings.max_frame_bytes
  check_range "limits.max_batch_bytes" l.max_batch_bytes hard_ceilings.max_batch_bytes
  check_range "limits.max_batch_operations" l.max_batch_operations
      hard_ceilings.max_batch_operations
  check_range "limits.max_scan_records" l.max_scan_records hard_ceilings.max_scan_records
  check_range "limits.max_scan_bytes" l.max_scan_bytes hard_ceilings.max_scan_bytes
  check_range "limits.watch_buffer_events" l.watch_buffer_events hard_ceilings.watch_buffer_events
  check_range "limits.max_watch_clients" l.max_watch_clients hard_ceilings.max_watch_clients
  check_range "limits.max_concurrent_clients" l.max_concurrent_clients
      hard_ceilings.max_concurrent_clients
  check_range "limits.max_history_events" l.max_history_events hard_ceilings.max_history_events
  check_range "limits.max_history_bytes" l.max_history_bytes hard_ceilings.max_history_bytes
  reject (ltb l.max_frame_bytes minimum_max_frame_bytes)
      (invalid_request "limits.max_frame_bytes" "must be at least 2048 bytes")
  reject (ltb l.max_frame_bytes l.max_batch_bytes)
      (invalid_request "limits.max_batch_bytes" "must not exceed max_frame_bytes")
  reject (ltb l.max_frame_bytes l.max_scan_bytes)
      (invalid_request "limits.max_scan_bytes" "must not exceed max_frame_bytes")
  reject (ltb l.max_history_events l.watch_buffer_events)
      (invalid_request "limits.max_history_events" "must be at least watch_buffer_events")
  reject (ltb l.max_concurrent_clients l.max_watch_clients)
      (invalid_request "limits.max_watch_clients" "must not exceed max_concurrent_clients")
