-- ===== src/Playout/Examples.antt =====
-- Tests and instances for the broadcasts of schedules.
use shed.Prelude.{◌≡◌, refl, inl, inr, true, false, none, some, [], ◌∷◌}
use shed.Prelude.Maps.{lookup}
use shed.Types.{pos, negsuc, PipelineState, live, rtmp, no_headers}
use shed.Egress.{running}
use shed.Pipeline as Pipeline
use shed.Stream.{DestRow, World}
use shed.Playout.{Playout, Stage, deactivated, stop_broadcast}
use shed.Playout.Loads.{Tables, load_playlist}
use shed.Playout.Lists.{found, reference, load_playlist-reference}
use shed.Playout.Ending.{OffAir, stopped-OffAir}

-- Schedule 1 has two items, of which one asset is there; asset 8 has a bad duration.
abbrev tables : Tables
tables = record {
  items = λ id. inr (7 ∷ 9 ∷ 8 ∷ []);
  asset = λ id. inr (lookup ((7, ("a.mp4", pos 60000)) ∷ (8, ("b.mp4", negsuc 4)) ∷ []) id);
  schedule = λ id.
      some (record { end_behavior = "stop"; standby_asset_id = none; destination_ids = some [] });
}

abbrev row : DestRow
row = record { id = some 1; name = "a"; kind = some (rtmp "rtmp://a" "k"); enabled = 1 }

abbrev world : World
world = record {
  spawn = λ args. running;
  hls_starts = λ token. true;
  now = 5;
  parse_broadcast = λ s. none;
  parse_output = λ s. none;
  recording_path = "r.flv";
}

abbrev stage : Stage
stage = record {
  world = world;
  launch = λ args. inr 3;
  extension = λ path. "mp4";
  vod_source = 20;
  vod_relay = 5;
  standby_source = 21;
  standby_relay = 6;
  list_path = "playlist.txt";
  list_error = none;
}

-- Schedule 1 is on air, and source 4 streams.
abbrev airing : Playout
unfolding Pipeline.new
airing = record {
  studio = record {
    pipeline = record (Pipeline.new []) { state = PipelineState.live 5 0 };
    egress = record {
      processes = [];
      ws = [];
      bytes_sent = 0;
      started_at = none;
      restart_params = none;
    };
    channel_hls = none;
    program_intent = some 20;
    program_source = some 20;
    source_states = (4, live) ∷ [];
    media_relays = (20, 5) ∷ (4, 0) ∷ [];
    sequence_headers = (20, no_headers) ∷ (4, no_headers) ∷ [];
    program_tx = 0;
    db = record {
      broadcast_config = inr none;
      destinations = inr (row ∷ []);
      output_config = none;
      channel = none;
    };
  };
  media = record {
    ingest = record {
      sequence_headers = [];
      source_states = [];
      ws = [];
      relayed = [];
      media_relays = [];
      srt_listeners = [];
    };
    media_players = (20, 3) ∷ [];
    source_normalizers = [];
    scene_compositors = [];
    killed = [];
  };
  active_schedule = some 1;
  schedule_runs = record { schedule_id = 1; status = "ran"; ended = false } ∷ [];
  ws = [];
  tables = tables;
}

load_playlist-reference_example : load_playlist tables 1 ≡ reference tables 1
load_playlist-reference_example = load_playlist-reference tables 1

two_files :
    load_playlist tables 1 ≡ inr (record { files = "a.mp4" ∷ "b.mp4" ∷ []; total_ms = 60000 })
unfolding reference found lookup
two_files = load_playlist-reference tables 1

stopped-OffAir_example : OffAir 1 20 (deactivated stage (stop_broadcast airing))
unfolding Pipeline.new
stopped-OffAir_example = stopped-OffAir stage 1 airing refl

-- ffmpeg does not start.
abbrev broken : Stage
broken = record stage { launch = λ args. inl "no such file" }
