-- ===== src/Types/ScheduleItemKind.antt =====
-- What a playlist item refers to: crates/common/src/types.rs, `ScheduleItemKind`.
use text.Mathlib.Text.{◌==◌}
use shed.Prelude.{if◌then◌else◌, String}

pub data ScheduleItemKind : Type 0 where
  vod scene source : ScheduleItemKind

unfoldable pub as_str : ScheduleItemKind → String
as_str vod = "vod"
as_str scene = "scene"
as_str source = "source"

unfoldable pub from_db : String → ScheduleItemKind
from_db s = if s == "scene" then scene else if s == "source" then source else vod
