-- ===== src/Layers/Examples.antt =====
-- Tests and instances for the layers of scenes.
use shed.Prelude.{◌==◌, ◌≡◌, refl, ◌↔◌, ◌⊎◌, inr, false, none, some, [], ◌∷◌, map, arith}
use shed.Types.{pos, live, SequenceHeaders}
use shed.Output.{default_output_config}
use shed.Pipeline as Pipeline
use shed.Scene.{Backstage, Mixer}
use shed.Layers.{fetch_layers, add_layer}
use shed.Layers.Rows.{Layer, UpdateLayer, StoredLayer, Sql, Editor, new_layer}
use shed.Layers.Stored.{Has, added_layer_is_listed}
use shed.Layers.Refresh.{op_add, edit, Edited, edit-Edited}

abbrev header : SequenceHeaders
header = record { video = some (9 ∷ []); audio = none; last_keyframe = none }

-- Scene 1 is on program with the live source 4.
abbrev mixer : Mixer
unfolding Pipeline.new
mixer = record {
  media = record {
    ingest = record {
      sequence_headers = (4, header) ∷ [];
      source_states = (4, live) ∷ [];
      ws = [];
      relayed = [];
      media_relays = (4, 0) ∷ (1, 3) ∷ [];
      srt_listeners = [];
    };
    media_players = [];
    source_normalizers = [];
    scene_compositors = (1, 20) ∷ [];
    killed = [];
  };
  preview_source = none;
  program_intent = some 1;
  pipeline = Pipeline.new [];
  scenes = 1 ∷ 2 ∷ [];
  ws = [];
}

abbrev background : StoredLayer
background = record {
  id = 50;
  scene_id = 1;
  source_id = 4;
  x = pos 0;
  y = pos 0;
  width = pos 1920;
  height = pos 1080;
  z_index = pos 0;
  opacity = 0;
  fit = "fill";
}

abbrev editor : Editor
editor = record { mixer = mixer; names = (1, "one") ∷ (2, "two") ∷ []; layers = background ∷ [] }

-- All rows have the same `z_index`, and source 4 is the only one.
abbrev sql : Sql
sql = record { order = λ rows. rows; source_known = λ id. id == 4; refusal = "FOREIGN KEY" }

abbrev backstage : Backstage
backstage = record {
  floats = record { translucent = λ o. false; three_decimals = λ o. "0.500"; as_f32 = λ o. o };
  launch = λ args. inr 30;
  rows = λ id. inr [];
  config = default_output_config;
  relay = 7;
  listen = λ layers. inr (map (λ l. 5000) layers);
}

abbrev nothing : UpdateLayer
nothing = record {
  source_id = none;
  x = none;
  y = none;
  width = none;
  height = none;
  z_index = none;
  opacity = none;
  fit = none;
}

defaults : (new_layer 60 4 nothing).width ≡ 1920
unfolding new_layer
defaults = refl

added_layer_is_listed_example :
    let added = add_layer sql backstage 60 1 4 nothing editor in
    (added.0 ≡ inr (new_layer 60 4 nothing))
    × ((l : Layer)
        → Has l (fetch_layers sql 1 added.1)
          ↔ ((l ≡ new_layer 60 4 nothing) ⊎ Has l (fetch_layers sql 1 editor)))
    × (fetch_layers sql 2 added.1 ≡ fetch_layers sql 2 editor)
unfolding new_layer mixer
added_layer_is_listed_example =
    added_layer_is_listed sql backstage 60 1 4 nothing editor (λ rows r. (λ h. h, λ h. h)) refl refl
      (record { width = omega arith; height = omega arith; z_index = omega arith }) 2 refl

edit-Edited_example :
    Edited sql backstage 1 editor (edit sql backstage 1 (op_add 60 4 nothing) editor)
unfolding mixer
edit-Edited_example = edit-Edited sql backstage 1 (op_add 60 4 nothing) editor refl
