-- ===== src/Scene/Examples.antt =====
-- Tests and instances for the scenes and the switches.
use shed.Prelude.{
  length, suc, ◌*◌, ◌==◌, if◌then◌else◌, get_elem?, ℕ, String, ◌≡◌, refl, ◌⊎◌, inr, false, none,
  some, List, [], ◌∷◌, map, concat, decimal,
}
use shed.Types.{pos, negsuc, live, SequenceHeaders}
use shed.Types.LayerFit.{fill, contain}
use shed.Output.{default_output_config}
use shed.Pipeline as Pipeline
use shed.Scene.{Backstage, Mixer, activate}
use shed.Scene.Filters.{
  base_step, scale_step, overlay_step, Floats, CompLayer, LayerRow, as_i32, as_u32, fit_filter,
  add_layers, join, build_filter_graph, to_string,
}
use shed.Scene.Graph.{Steps, label, graph-Steps}
use shed.Scene.Active.{Activated, activate-Activated}

abbrev floats : Floats
floats = record { translucent = λ o. false; three_decimals = λ o. "0.500"; as_f32 = λ o. o }

abbrev small : CompLayer
small = record {
  source_id = 4;
  x = pos 1240;
  y = negsuc 9;
  w = 640;
  h = 360;
  opacity = 0;
  fit = fill;
}

-- Scene 1 has the live source 4 and source 9, which is not; scene 2 has none.
abbrev stage_rows : ℕ → String ⊎ List LayerRow
stage_rows scene_id = inr (
    if scene_id == 1
    then record {
      source_id = some 4;
      x = pos 0;
      y = pos 0;
      width = pos 640;
      height = pos 0;
      opacity = 0;
      fit = "fill";
    }
      ∷ record {
        source_id = some 9;
        x = pos 0;
        y = pos 0;
        width = pos 640;
        height = pos 360;
        opacity = 0;
        fit = "fill";
      }
      ∷ []
    else [])

abbrev backstage : Backstage
backstage = record {
  floats = floats;
  launch = λ args. inr 30;
  rows = stage_rows;
  config = default_output_config;
  relay = 7;
  listen = λ layers. inr (map (λ l. 5000) layers);
}

abbrev header : SequenceHeaders
header = record { video = some (9 ∷ []); audio = none; last_keyframe = none }

-- Scene 1 is on program.
abbrev mixer : Mixer
unfolding Pipeline.new
mixer = record {
  media = record {
    ingest = record {
      sequence_headers = (4, header) ∷ (1, header) ∷ [];
      source_states = (4, live) ∷ (1, live) ∷ [];
      ws = [];
      relayed = [];
      media_relays = (4, 0) ∷ (1, 3) ∷ [];
      srt_listeners = [];
    };
    media_players = [];
    source_normalizers = [];
    scene_compositors = (1, 20) ∷ [];
    killed = [];
  };
  preview_source = none;
  program_intent = some 1;
  pipeline = Pipeline.new [];
  scenes = 1 ∷ 2 ∷ [];
  ws = [];
}

-- The graph of the source's own test, with the position of the second layer below zero.
two_layer_graph :
    build_filter_graph floats
      (record small { fit = contain; x = pos 0; y = pos 0 } ∷ small ∷ [])
      1280
      720
      25
    ≡ (
      concat (
          "color=c=black:s=1280x720:r=25[base];"
          ∷ "[0:v]setpts=PTS-STARTPTS,scale=640:360:force_original_aspect_ratio=decrease[l0];"
          ∷ "[base][l0]overlay=x=0+(640-w)/2:y=0+(360-h)/2:eof_action=pass[s0];"
          ∷ "[1:v]setpts=PTS-STARTPTS,scale=640:360[l1];"
          ∷ "[s0][l1]overlay=x=1240:y=-10:eof_action=pass[s1]" ∷ []),
      "s1",
    )
unfolding build_filter_graph add_layers fit_filter decimal to_string base_step scale_step
    overlay_step
two_layer_graph = refl

wrapped_casts : (as_i32 (pos 4294967286) ≡ negsuc 9) × (as_u32 (negsuc 9) ≡ 4294967286)
unfolding as_i32 as_u32
wrapped_casts = (refl, refl)

graph-Steps_example :
    let layers = small ∷ small ∷ [] in
    (steps : List String) × (build_filter_graph floats layers 1280 720 30 ≡ (
      join (
          concat (
            "color=c=black:s="
            ∷ decimal 1280
            ∷ "x"
            ∷ decimal 720
            ∷ ":r="
            ∷ decimal 30
            ∷ "[base]"
            ∷ [])
          ∷ steps),
      label 2,
    ))
    × (length steps ≡ 4)
    × ((i : ℕ) (layer : CompLayer)
        → get_elem? layers i ≡ some layer
        → Steps i layer (get_elem? steps (2 * i)) (get_elem? steps (suc (2 * i))))
graph-Steps_example = graph-Steps floats (small ∷ small ∷ []) 1280 720 30

activate-Activated_example : Activated 1 mixer (activate backstage 1 mixer)
unfolding Pipeline.new
activate-Activated_example = activate-Activated backstage 1 mixer refl

-- Source 9 has gone.
abbrev previewing : Mixer
previewing = record mixer { preview_source = some 9 }
