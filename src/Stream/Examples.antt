-- ===== src/Stream/Examples.antt =====
-- Tests and instances for going live and ending the stream.
use shed.Prelude.{String, Option, ℕ, ◌≡◌, refl, inr, true, false, none, some, List, [], ◌∷◌}
use shed.Prelude.Maps.{lookup}
use shed.Types.{live, disconnected, rtmp, no_headers, PipelineState}
use shed.Output.{default_output_config, clamp_config}
use shed.Egress.{EgressManager, RestartParams, running, is_running, process_for, egress_restart_for}
use shed.Egress.Served.{served}
use shed.Pipeline as Pipeline
use shed.Stream.{DestRow, World, Studio, choose_source, start, stop, set_output, ensure_channel_hls}
use shed.Stream.Outcome.{Wanted, saved_of, WentLive, start-WentLive}
use shed.Stream.Lifecycle.{stop_ends_output, set_output_applies}

abbrev row : DestRow
row = record { id = some 1; name = "a"; kind = some (rtmp "rtmp://a" "k"); enabled = 1 }

abbrev world : World
world = record {
  spawn = λ args. running;
  hls_starts = λ token. true;
  now = 5;
  parse_broadcast = λ s. none;
  parse_output = λ s. none;
  recording_path = "r.flv";
}

abbrev egress : EgressManager
egress = record {
  processes = [];
  ws = [];
  bytes_sent = 0;
  started_at = none;
  restart_params = none;
}

-- Source 4 is live.
abbrev studio : Studio
unfolding Pipeline.new
studio = record {
  pipeline = Pipeline.new [];
  egress = egress;
  channel_hls = none;
  program_intent = none;
  program_source = none;
  source_states = (3, disconnected) ∷ (4, live) ∷ [];
  media_relays = (4, 0) ∷ [];
  sequence_headers = (4, no_headers) ∷ [];
  program_tx = 0;
  db = record {
    broadcast_config = inr none;
    destinations = inr (row ∷ []);
    output_config = none;
    channel = some (1, "t");
  };
}

abbrev went : Studio
unfolding start
went = (start world none studio).1

start-WentLive_example :
    (row : Option String) × (id : ℕ) × (rows : List DestRow) × (studio.db.broadcast_config
      ≡ inr row)
    × Wanted none studio (saved_of world row) id
    × WentLive world studio went id (saved_of world row) rows
unfolding start choose_source lookup Pipeline.new
start-WentLive_example = start-WentLive world none studio (λ args. refl) refl

-- On air with source 4.
abbrev params : RestartParams
params = record {
  destinations = record { id = 1; name = "a"; kind = rtmp "rtmp://a" "k"; enabled = true } ∷ [];
  media_tx = 0;
  output_config = none;
}

abbrev on_air : Studio
unfolding Pipeline.new
on_air = record studio {
  pipeline = record (Pipeline.new []) { state = PipelineState.live 5 0 };
  egress = record egress {
    processes =
        (
          1,
          process_for none none
              (record { id = 1; name = "a"; kind = rtmp "rtmp://a" "k"; enabled = true })
              "rtmp://a/k",
        )
        ∷ [];
    restart_params = some params;
  };
  program_source = some 4;
}

set_output_applies_example :
    lookup (set_output world (λ c. "saved") default_output_config on_air).egress.processes 1
    ≡ served (some (clamp_config default_output_config)) (some no_headers) params.destinations 1
unfolding lookup is_running Pipeline.new
set_output_applies_example =
    set_output_applies world (λ c. "saved") default_output_config params 4 on_air refl refl refl
      refl (λ args. refl) 1

stop_ends_output_example :
    let s' = (stop on_air).1 in
    (s'.egress.processes ≡ [])
    × (s'.channel_hls ≡ none)
    × (s'.program_intent ≡ none)
    × (s'.pipeline.recording.recording ≡ false)
    × ((ensure_channel_hls world s').channel_hls ≡ none)
    × (egress_restart_for world.spawn world.now s'.sequence_headers 4 s'.egress ≡ s'.egress)
    × ((set_output world (λ c. "saved") default_output_config s').egress ≡ s'.egress)
    × ((set_output world (λ c. "saved") default_output_config s').channel_hls ≡ none)
unfolding Pipeline.new
stop_ends_output_example = stop_ends_output world (λ c. "saved") default_output_config 4 on_air refl
