-- ===== src/Sources/Examples.antt =====
-- Tests and instances for sources that are made and deleted, and for browser sources.
use shed.Prelude.{is_some, All, ◌≡◌, refl, inr, true, none, some, List, [], ◌∷◌}
use shed.Prelude.Maps.{lookup, remove}
use shed.Types.{live, no_headers, srt, browser}
use shed.Output.{default_output_config}
use shed.Browser.{
  Desktop, Message, Line, screenshot_loop, await_shot, start_browser_source, start_chrome,
  start_frames,
}
use shed.Ingest.{assign_srt_port, first_free}
use shed.Browser.Shots.{Ascends, IsAnswered, screenshot_loop-InOrder}
use shed.Sources.{Outside, delete, teardown, create, with_port, browser_started}
use shed.Sources.Kinds.{srt_ports, ensure_stream_key}
use shed.Sources.State.{AppState}
use shed.Sources.Teardown.{Deleted, delete-Deleted}
use shed.Sources.Late.{late_start_survives_delete}

-- Source 3 is a page that runs, with Chrome 70 and ffmpeg 71; source 4 listens on port 9001.
abbrev app : AppState
app = record {
  browsers = record {
    media = record {
      ingest = record {
        sequence_headers = (3, no_headers) ∷ [];
        source_states = (3, live) ∷ (4, live) ∷ [];
        ws = [];
        relayed = [];
        media_relays = (3, 0) ∷ (4, 1) ∷ [];
        srt_listeners = (4, 80) ∷ [];
      };
      media_players = [];
      source_normalizers = (3, 71) ∷ [];
      scene_compositors = [];
      killed = [];
    };
    browser_sources = (3, 70) ∷ [];
  };
  guest_peers = [];
  whip_sessions = [];
  guests = [];
  sources =
      record { id = 3; name = "page"; kind = some (browser "http://a") }
      ∷ record { id = 4; name = "srt"; kind = some (srt 9001 none) }
      ∷ [];
  sdp_files = [];
  closing = [];
  srt_port_range_start = 9000;
}

abbrev desktop : Desktop
desktop = record {
  chrome = λ args. inr 90;
  ffmpeg = λ args. inr 91;
  pick_port = inr 40000;
  wait_for_page_ws = λ port. inr "ws://a";
  relay = 5;
}

abbrev outside : Outside
outside = record {
  id = 9;
  key = "k9";
  config = default_output_config;
  relay = 5;
  launch = λ args. inr 92;
  extension = λ path. "";
}

killed_both : (delete 3 app).1.browsers.media.killed ≡ 70 ∷ 71 ∷ []
unfolding delete teardown lookup remove
killed_both = refl

first_free_port : (create outside "b" (srt 0 none) app).0.kind ≡ some (srt 9000 none)
unfolding create with_port ensure_stream_key assign_srt_port first_free srt_ports
first_free_port = refl

delete-Deleted_example : Deleted 3 app (delete 3 app)
delete-Deleted_example = delete-Deleted 3 app

late_start_survives_delete_example :
    let s' = browser_started desktop default_output_config 3 "http://a" (delete 3 app).1 in
    (is_some (lookup s'.browsers.browser_sources 3) ≡ true)
    × (is_some (lookup s'.browsers.media.source_normalizers 3) ≡ true)
    × (is_some (lookup s'.browsers.media.ingest.media_relays 3) ≡ true)
    × (is_some (delete 3 s').0 ≡ true)
unfolding start_browser_source start_chrome start_frames
late_start_survives_delete_example =
    late_start_survives_delete desktop default_output_config 3 "http://a" app refl refl

-- The page answers request 2 after a message of its own, and stops.
abbrev page : List Message
page =
    record { id = some 1; shot = none }
    ∷ record { id = none; shot = some "x" }
    ∷ record { id = some 2; shot = some "f" }
    ∷ []

abbrev line : Line
line = record { sends = λ id. true; writes = λ id. true; decode = λ s. some (7 ∷ []) }

one_frame : screenshot_loop line page ≡ (2, 7 ∷ []) ∷ []
unfolding screenshot_loop await_shot
one_frame = refl

screenshot_loop-InOrder_example :
    Ascends 2 (screenshot_loop line page) × All (IsAnswered line page) (screenshot_loop line page)
screenshot_loop-InOrder_example = screenshot_loop-InOrder line page
