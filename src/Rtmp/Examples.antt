-- ===== src/Rtmp/Examples.antt =====
-- Tests and instances for the RTMP server.
use shed.Prelude.{if◌then◌else◌, refl, inr, none, some, List, [], ◌∷◌, ◌++◌, string_eq}
use shed.Types.{disconnected}
use shed.Output.{default_output_config}
use shed.Rtmp.{
  Backend, Event, publish_requested, closed, audio_data, video_data, Server, new_session, run,
}
use shed.Rtmp.Sessions.{Unpublished, closed_run-Unpublished}

-- The key "k" is that of source 4.
abbrev backend : Backend
backend = record {
  launch = λ args. inr 30;
  config = default_output_config;
  by_key = λ key. if string_eq key "k" then some (some 4) else none;
}

abbrev server : Server
server = record {
  media = record {
    ingest = record {
      sequence_headers = [];
      source_states = (4, disconnected) ∷ [];
      ws = [];
      relayed = [];
      media_relays = [];
      srt_listeners = [];
    };
    media_players = [];
    source_normalizers = [];
    scene_compositors = [];
    killed = [];
  };
  sent = [];
}

abbrev tags : List Event
tags = audio_data (175 ∷ 0 ∷ []) 0 ∷ video_data (23 ∷ 0 ∷ []) 33 ∷ []

closed_run-Unpublished_example :
    Unpublished 4
      (run backend (publish_requested 7 "k" ∷ (tags ++ (closed ∷ []))) new_session server).1.media
closed_run-Unpublished_example =
    closed_run-Unpublished backend 7 4 "k" tags server refl (tt, (tt, tt))
