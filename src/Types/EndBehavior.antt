-- ===== src/Types/EndBehavior.antt =====
-- How a broadcast ends: crates/common/src/types.rs, `EndBehavior`.
use text.Mathlib.Text.{◌==◌}
use shed.Prelude.{if◌then◌else◌, String}

pub data EndBehavior : Type 0 where
  stop loop standby : EndBehavior

unfoldable pub as_str : EndBehavior → String
as_str stop = "stop"
as_str loop = "loop"
as_str standby = "standby"

unfoldable pub from_db : String → EndBehavior
from_db s = if s == "loop" then loop else if s == "standby" then standby else stop
