-- ===== src/Layers.antt =====
-- The scenes and their layers in the database: crates/api/src/routes/scenes.rs. The answer of a query is SQLite's (`Sql`):
-- the order of an `ORDER BY z_index`, and whether the foreign key of a layer's source is met. An edit of a scene on program
-- starts its compositor anew (`Scene`).
pub mod Rows
pub mod Stored
pub mod Refresh
pub mod Partial
mod Examples
use shed.Layers.Rows.{
  Layer, UpdateLayer, StoredLayer, Sql, Editor, i32, into_layer, new_layer, stored,
}
use shed.Prelude.{
  ◌==◌, if◌then◌else◌, unwrap_or, option_eq, keep_if, any, find?, ℕ, String, ◌⊎◌, inl, inr, Bool,
  not, ◌&&◌, Option, none, some, List, [], ◌∷◌, ◌++◌, map, concat, decimal,
}
use shed.Prelude.Maps.{lookup, insert, remove}
use shed.Types.{ℤ}
use shed.Types.LayerFit as LayerFit
use shed.Types.LayerFit.{LayerFit}
use shed.Types.MuxshedError.{MuxshedError, not_found, database}
use shed.Scene.{Backstage, start_scene_compositor}
use shed.Scene.Filters.{LayerRow}

unfoldable pub insert_layer :
    Sql → ℕ → ℕ → ℕ → UpdateLayer → Editor → (MuxshedError ⊎ Layer) × Editor
insert_layer q id scene_id source_id cl e =
    let layer = new_layer id source_id cl in
    if q.source_known source_id
    then (inr layer, record e { layers = e.layers ++ (stored scene_id layer ∷ []) })
    else (inl (database q.refusal), e)

-- The rows of a scene, lowest first.
unfoldable pub scene_rows : Sql → ℕ → List StoredLayer → List StoredLayer
scene_rows q scene_id rows = q.order (keep_if (λ r. r.scene_id == scene_id) rows)

unfoldable pub fetch_layers : Sql → ℕ → Editor → List Layer
fetch_layers q scene_id e = map into_layer (scene_rows q scene_id e.layers)

abbrev pub has_scene : ℕ → Editor → Bool
has_scene id e = any (λ s. s == id) e.mixer.scenes

abbrev pub no_scene : ℕ → MuxshedError
no_scene id = not_found (concat ("scene " ∷ decimal id ∷ []))

abbrev pub no_layer : ℕ → MuxshedError
no_layer id = not_found (concat ("layer " ∷ decimal id ∷ []))

-- What the compositor reads of the rows.
abbrev pub comp_row : StoredLayer → LayerRow
comp_row r = record {
  source_id = some r.source_id;
  x = r.x;
  y = r.y;
  width = r.width;
  height = r.height;
  opacity = r.opacity;
  fit = r.fit;
}

abbrev pub backstage : Sql → Backstage → List StoredLayer → Backstage
backstage q b rows = record b { rows = λ id. inr (map comp_row (scene_rows q id rows)) }

-- The error of a start is not looked at.
unfoldable pub refresh_if_active : Sql → Backstage → ℕ → Editor → Editor
refresh_if_active q b scene_id e =
    let started = start_scene_compositor (backstage q b e.layers) scene_id e.mixer.media in
    if option_eq e.mixer.program_intent (some scene_id)
    then record e { mixer = record e.mixer { media = started.1 } }
    else e

abbrev pub refreshed :
    Sql → Backstage → ℕ → (MuxshedError ⊎ Layer) × Editor → (MuxshedError ⊎ Layer) × Editor
refreshed q b scene_id (inl e, s) = (inl e, s)
refreshed q b scene_id (inr layer, s) = (inr layer, refresh_if_active q b scene_id s)

-- `id` is new.
unfoldable pub add_layer :
    Sql → Backstage → ℕ → ℕ → ℕ → UpdateLayer → Editor → (MuxshedError ⊎ Layer) × Editor
add_layer q b id scene_id source_id cl e =
    if has_scene scene_id e
    then refreshed q b scene_id (insert_layer q id scene_id source_id cl e)
    else (inl (no_scene scene_id), e)

abbrev pub is_row : ℕ → ℕ → StoredLayer → Bool
is_row scene_id layer_id r = (r.id == layer_id) && (r.scene_id == scene_id)

-- A number that is not given stays as it is stored.
abbrev pub stored_or : Option ℕ → ℤ → ℤ
stored_or none old = old
stored_or (some n) old = i32 n

unfoldable pub patched : UpdateLayer → StoredLayer → StoredLayer
patched u r = record {
  id = r.id;
  scene_id = r.scene_id;
  source_id = unwrap_or u.source_id r.source_id;
  x = unwrap_or u.x r.x;
  y = unwrap_or u.y r.y;
  width = stored_or u.width r.width;
  height = stored_or u.height r.height;
  z_index = stored_or u.z_index r.z_index;
  opacity = unwrap_or u.opacity r.opacity;
  fit = LayerFit.as_str (unwrap_or u.fit (LayerFit.from_db r.fit));
}

unfoldable pub write_layer : Sql → ℕ → StoredLayer → Editor → (MuxshedError ⊎ Layer) × Editor
write_layer q layer_id row e =
    if q.source_known row.source_id
    then (
      inr (into_layer row),
      record e { layers = map (λ r. if r.id == layer_id then row else r) e.layers },
    )
    else (inl (database q.refusal), e)

unfoldable pub update_layer :
    Sql → Backstage → ℕ → ℕ → UpdateLayer → Editor → (MuxshedError ⊎ Layer) × Editor
update_layer q b scene_id layer_id u e = elim (find? (is_row scene_id layer_id) e.layers) [
  | none ↦ (inl (no_layer layer_id), e)
  | some r ↦ refreshed q b scene_id (write_layer q layer_id (patched u r) e)
]

unfoldable pub delete_layer : Sql → Backstage → ℕ → ℕ → Editor → Option MuxshedError × Editor
delete_layer q b scene_id layer_id e =
    if any (is_row scene_id layer_id) e.layers
    then (
      none,
      refresh_if_active q b scene_id
          (record e { layers = keep_if (λ r. not (is_row scene_id layer_id r)) e.layers }),
    )
    else (some (no_layer layer_id), e)

-- The layers of a creation, each with its new id and its source, until one is refused.
unfoldable pub insert_layers :
    Sql → ℕ → List (ℕ × (ℕ × UpdateLayer)) → Editor → (MuxshedError ⊎ List Layer) × Editor
insert_layers q scene_id [] e = (inr [], e)
insert_layers q scene_id ((id, (source_id, cl)) ∷ layers) e =
    let first = insert_layer q id scene_id source_id cl e in
    let rest = insert_layers q scene_id layers first.1 in
    elim first.0 [
      | inl err ↦ (inl err, first.1)
      | inr layer ↦ elim rest.0 [
        | inl err ↦ (inl err, rest.1)
        | inr made ↦ (inr (layer ∷ made), rest.1)
      ]
    ]

unfoldable pub insert_scene : ℕ → String → Editor → Editor
insert_scene id name e = record e {
  mixer = record e.mixer { scenes = e.mixer.scenes ++ (id ∷ []) };
  names = insert e.names id name;
}

unfoldable pub create :
    Sql → ℕ → String → List (ℕ × (ℕ × UpdateLayer)) → Editor → (MuxshedError ⊎ List Layer) × Editor
create q id name layers e = insert_layers q id layers (insert_scene id name e)

unfoldable pub update : ℕ → Option String → Editor → Option MuxshedError × Editor
update id name e =
    if has_scene id e
    then (
      none,
      record e { names = insert e.names id (unwrap_or name (unwrap_or (lookup e.names id) "")) },
    )
    else (some (no_scene id), e)

-- The rows of the scene's layers go with it (`ON DELETE CASCADE`).
unfoldable pub delete : ℕ → Editor → Option MuxshedError × Editor
delete id e =
    if has_scene id e
    then (
      none,
      record e {
        mixer = record e.mixer { scenes = keep_if (λ s. not (s == id)) e.mixer.scenes };
        names = remove e.names id;
        layers = keep_if (λ r. not (r.scene_id == id)) e.layers;
      },
    )
    else (some (no_scene id), e)
