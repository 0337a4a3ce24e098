-- ===== src/Layers/Rows.antt =====
-- Layers as they are asked for, stored and answered: crates/api/src/routes/scenes.rs.
use shed.Prelude.{unwrap_or, ℕ, String, Bool, Option, List}
use shed.Prelude.Maps.{IdMap}
use shed.Types.{ℤ, pos}
use shed.Types.LayerFit as LayerFit
use shed.Types.LayerFit.{LayerFit, fill}
use shed.Scene.{Mixer}
use shed.Scene.Filters.{as_i32, as_u32}

pub record Layer : Type 0 where
  pub id : ℕ
  pub source_id : ℕ
  pub x : ℤ
  pub y : ℤ
  pub width : ℕ
  pub height : ℕ
  pub z_index : ℕ
  pub opacity : ℕ
  pub fit : LayerFit

-- What a request gives of a layer; a creation has the source.
pub record UpdateLayer : Type 0 where
  pub source_id : Option ℕ
  pub x : Option ℤ
  pub y : Option ℤ
  pub width : Option ℕ
  pub height : Option ℕ
  pub z_index : Option ℕ
  pub opacity : Option ℕ
  pub fit : Option LayerFit

-- A row of `scene_layers`; its columns are `i32`.
pub record StoredLayer : Type 0 where
  pub id : ℕ
  pub scene_id : ℕ
  pub source_id : ℕ
  pub x : ℤ
  pub y : ℤ
  pub width : ℤ
  pub height : ℤ
  pub z_index : ℤ
  pub opacity : ℕ
  pub fit : String

pub record Sql : Type 0 where
  pub order : List StoredLayer → List StoredLayer
  pub source_known : ℕ → Bool
  pub refusal : String

-- The ids of the scenes are the mixer's.
pub record Editor : Type 0 where
  pub mixer : Mixer
  pub names : IdMap String
  pub layers : List StoredLayer

abbrev pub i32 : ℕ → ℤ
i32 n = as_i32 (pos n)

-- The bits of 1.0.
abbrev pub one : ℕ
one = 0x3F800000

unfoldable pub into_layer : StoredLayer → Layer
into_layer r = record {
  id = r.id;
  source_id = r.source_id;
  x = r.x;
  y = r.y;
  width = as_u32 r.width;
  height = as_u32 r.height;
  z_index = as_u32 r.z_index;
  opacity = r.opacity;
  fit = LayerFit.from_db r.fit;
}

unfoldable pub new_layer : ℕ → ℕ → UpdateLayer → Layer
new_layer id source_id cl = record {
  id = id;
  source_id = source_id;
  x = unwrap_or cl.x (pos 0);
  y = unwrap_or cl.y (pos 0);
  width = unwrap_or cl.width 1920;
  height = unwrap_or cl.height 1080;
  z_index = unwrap_or cl.z_index 0;
  opacity = unwrap_or cl.opacity one;
  fit = unwrap_or cl.fit fill;
}

-- The row that is inserted.
unfoldable pub stored : ℕ → Layer → StoredLayer
stored scene_id l = record {
  id = l.id;
  scene_id = scene_id;
  source_id = l.source_id;
  x = l.x;
  y = l.y;
  width = i32 l.width;
  height = i32 l.height;
  z_index = i32 l.z_index;
  opacity = l.opacity;
  fit = LayerFit.as_str l.fit;
}
