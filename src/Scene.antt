-- ===== src/Scene.antt =====
-- crates/api/src/scene_compositor.rs, the activation of a scene of routes/scenes.rs, and the switches of
-- routes/switching.rs. The processes and the ingest are those of `Media`. The feeders of the layers are
-- not modelled.
pub mod Filters
pub mod Graph
pub mod Active
pub mod Switches
mod Examples
use shed.Scene.Filters.{Floats, CompLayer, LayerRow, live_layers, compositor_args}
use shed.Prelude.{
  ◌==◌, if◌then◌else◌, any, ℕ, String, ◌⊎◌, inl, inr, Bool, not, Option, none, some, List, [], ◌∷◌,
  map, concat, decimal,
}
use shed.Prelude.Maps.{lookup, insert}
use shed.Types.{WsEvent, scene_changed}
use shed.Types.MuxshedError.{MuxshedError, bad_request, not_found}
use shed.Output.{OutputConfig}
use shed.Pipeline as Pipeline
use shed.Pipeline.{Pipeline}
use shed.WebRtc.{with_relay}
use shed.Stream.{is_live}
use shed.Media.{Launch, Media, drop_compositor, forget_relay}

unfoldable pub stop_scene_compositor : ℕ → Media → Media
stop_scene_compositor scene_id m =
    let freed = drop_compositor scene_id m in
    record freed { ingest = forget_relay scene_id freed.ingest }

unfoldable pub stop_each : List ℕ → Media → Media
stop_each [] m = m
stop_each (id ∷ ids) m = stop_each ids (stop_scene_compositor id m)

unfoldable pub stop_all_compositors : Media → Media
stop_all_compositors m = stop_each (map (λ e. e.0) m.scene_compositors) m

-- What a compositor gets from outside: its layers' rows in z-order, the output's configuration, a
-- new relay's number, and a port for each layer, each with its error.
pub record Backstage : Type 0 where
  pub floats : Floats
  pub launch : Launch
  pub rows : ℕ → String ⊎ List LayerRow
  pub config : OutputConfig
  pub relay : ℕ
  pub listen : List CompLayer → String ⊎ List ℕ

-- The insertion kills the process that it replaces.
unfoldable pub install_compositor : ℕ → ℕ → Media → Media
install_compositor scene_id pid m =
    let freed = drop_compositor scene_id m in
    record freed { scene_compositors = insert freed.scene_compositors scene_id pid }

unfoldable pub run_compositor : Backstage → ℕ → List CompLayer → Media → Option String × Media
run_compositor b scene_id layers m =
    let related = record m { ingest = with_relay scene_id b.relay m.ingest } in
    elim (b.listen layers) [
      | inl e ↦ (some e, related)
      | inr ports ↦ elim (b.launch (compositor_args b.floats b.config ports layers)) [
        | inl e ↦ (some (concat ("failed to start compositor ffmpeg: " ∷ e ∷ [])), related)
        | inr pid ↦ (none, install_compositor scene_id pid related)
      ]
    ]

-- Of the layers that are live.
abbrev pub compose : Backstage → ℕ → List CompLayer → Media → Option String × Media
compose b scene_id [] m = (some "scene has no live layers", m)
compose b scene_id (layer ∷ layers) m = run_compositor b scene_id (layer ∷ layers) m

-- The result is the error, none for `Ok(())`.
unfoldable pub start_scene_compositor : Backstage → ℕ → Media → Option String × Media
start_scene_compositor b scene_id m =
    let stopped = stop_scene_compositor scene_id m in
    elim (b.rows scene_id) [
      | inl e ↦ (some e, stopped)
      | inr rows ↦ compose b scene_id (live_layers b.floats stopped rows) stopped
    ]

-- The shared state that switching touches; the events are newest first.
pub record Mixer : Type 0 where
  pub media : Media
  pub preview_source : Option ℕ
  pub program_intent : Option ℕ
  pub pipeline : Pipeline
  pub scenes : List ℕ
  pub ws : List WsEvent

abbrev pub to_program : ℕ → Mixer → Mixer
to_program id s = record s { program_intent = some id; ws = scene_changed id "cut" ∷ s.ws }

-- After the scene is found; the result is the error, none for a success.
abbrev pub switched : ℕ → Mixer → Option String × Media → Option MuxshedError × Mixer
switched scene_id s (some e, m) =
    (some (bad_request (concat ("cannot activate scene: " ∷ e ∷ []))), record s { media = m })
switched scene_id s (none, m) = (
  none,
  to_program scene_id
      (record s { media = m; pipeline = Pipeline.activate_scene scene_id s.pipeline }),
)

unfoldable pub activate : Backstage → ℕ → Mixer → Option MuxshedError × Mixer
activate b scene_id s =
    if any (λ id. id == scene_id) s.scenes
    then switched scene_id s (start_scene_compositor b scene_id (stop_all_compositors s.media))
    else (some (not_found (concat ("scene " ∷ decimal scene_id ∷ []))), s)

-- The state of a source is `Live`.
abbrev pub source_live : Mixer → ℕ → Bool
source_live s id = is_live (lookup s.media.ingest.source_states id)

unfoldable pub set_preview : ℕ → Mixer → Option MuxshedError × Mixer
set_preview id s =
    if source_live s id
    then (none, record s { preview_source = some id })
    else (some (bad_request "source is not live"), s)

unfoldable pub cut : ℕ → Mixer → Option MuxshedError × Mixer
cut id s =
    if source_live s id
    then (none, to_program id (record s { media = stop_all_compositors s.media }))
    else (some (bad_request "source is not live"), s)

unfoldable pub auto : Mixer → Option MuxshedError × Mixer
auto s = elim s.preview_source [
  | none ↦ (some (bad_request "no source in preview"), s)
  | some id ↦ (none, to_program id (record s { preview_source = none }))
]
