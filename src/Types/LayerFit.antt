-- ===== src/Types/LayerFit.antt =====
-- How a source fills its layer box: crates/common/src/types.rs, `LayerFit`.
use text.Mathlib.Text.{◌==◌}
use shed.Prelude.{if◌then◌else◌, String}

pub data LayerFit : Type 0 where
  fill contain cover : LayerFit

unfoldable pub as_str : LayerFit → String
as_str fill = "fill"
as_str contain = "contain"
as_str cover = "cover"

unfoldable pub from_db : String → LayerFit
from_db s = if s == "contain" then contain else if s == "cover" then cover else fill
