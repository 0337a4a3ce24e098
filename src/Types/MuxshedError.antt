-- ===== src/Types/MuxshedError.antt =====
-- The error type and its HTTP form: crates/common/src/error.rs.
use shed.Prelude.{ℕ, String}

pub data MuxshedError : Type 0 where
  not_found bad_request unauthorized pipeline database internal : String → MuxshedError

unfoldable pub error_code : MuxshedError → String
error_code (not_found m) = "NOT_FOUND"
error_code (bad_request m) = "BAD_REQUEST"
error_code (unauthorized m) = "UNAUTHORIZED"
error_code (pipeline m) = "PIPELINE_ERROR"
error_code (database m) = "DATABASE_ERROR"
error_code (internal m) = "INTERNAL_ERROR"

unfoldable pub status_code : MuxshedError → ℕ
status_code (not_found m) = 404
status_code (bad_request m) = 400
status_code (unauthorized m) = 401
status_code (pipeline m) = 500
status_code (database m) = 500
status_code (internal m) = 500
