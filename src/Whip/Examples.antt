-- ===== src/Whip/Examples.antt =====
-- Tests and instances for publishing over WebRTC.
use shed.Whip.Stale.{racing_publishes}
use shed.Prelude.{
  String, ◌≡◌, refl, true, none, some, List, [], ◌∷◌, arith, decimal, eq_ignore_ascii_case,
  strip_prefix, trim,
}
use shed.Prelude.Maps.{lookup, insert, remove}
use shed.Types.{web_rtc}
use shed.Ingest.{Ingest}
use shed.WebRtc.{
  persistent, Peers, answered, stop_ingest, start_ingest, start_ffmpeg, with_relay, video_track,
  retain_others,
}
use shed.WebRtc.Codec.{h264, from_mime}
use shed.WebRtc.Teardown.{occupied, has_child}
use shed.Whip.{
  Like, created, status, bearer_token, Op, op_publish, op_teardown, op_guest_whip, op_video_track,
  publish_check, publish_start, publish, teardown, guest_whip, guest_start, resolve_source, step,
  run, responses,
}
use shed.Whip.Publisher.{Contract, run_refines}
use shed.Whip.Tidy.{IsTidy, run-IsTidy}

abbrev quiet : Ingest
quiet = record {
  sequence_headers = [];
  source_states = [];
  ws = [];
  relayed = [];
  media_relays = [];
  srt_listeners = [];
}

-- Source 4 takes the token t; guest g has a link.
abbrev studio : Peers
studio = record {
  ingest = quiet;
  source_normalizers = [];
  guest_peers = [];
  whip_sessions = [];
  guests = record { token = "g"; name = "Ann"; status = "invited"; source_id = none } ∷ [];
  sources = record { id = 4; name = "obs"; kind = some (web_rtc "t") } ∷ [];
  sdp_files = [];
  closing = [];
}

abbrev any_row : Like
any_row = λ token row. true

token_of_header : bearer_token (some "Bearer  t ") ≡ some "t"
unfolding bearer_token strip_prefix trim
token_of_header = refl

h264_of_mime : from_mime "video/h264" ≡ h264
unfolding from_mime eq_ignore_ascii_case
h264_of_mime = refl

-- A publish, a second one, the end of the first, and a guest.
abbrev busy : List Op
busy =
    op_publish (some "Bearer t") (answered "a" 70) 1 100
    ∷ op_publish (some "Bearer t") (answered "b" 71) 1 101
    ∷ op_video_track 4 persistent (some 500)
    ∷ op_teardown (some 100)
    ∷ op_guest_whip "g" (answered "c" 72) 2 9
    ∷ []

busy_day :
    responses any_row busy studio
    ≡ some (created "/api/v1/whip/100" "a")
      ∷ some (status 409)
      ∷ none
      ∷ some (status 204)
      ∷ some (created "/api/v1/guest/g/whip" "c")
      ∷ []
unfolding responses step publish publish_check bearer_token strip_prefix trim resolve_source
    publish_start start_ingest stop_ingest video_track start_ffmpeg with_relay teardown guest_whip
    guest_start lookup remove insert retain_others decimal
busy_day = refl

run_refines_example :
    Contract (occupied studio) (occupied (run any_row busy studio)) (responses any_row busy studio)
unfolding step publish publish_check bearer_token strip_prefix trim resolve_source publish_start
    start_ingest stop_ingest video_track start_ffmpeg with_relay teardown guest_whip guest_start
    lookup remove insert retain_others occupied
run_refines_example = run_refines any_row busy studio (tt, (tt, (tt, (tt, (refl, tt)))))

run-IsTidy_example : IsTidy (run any_row busy studio)
unfolding has_child lookup
run-IsTidy_example =
    run-IsTidy any_row busy studio
      (record { one_session = tt; no_orphan = λ j c. absurd (ground arith) })

abbrev one_peer : Peers
one_peer = record studio { guest_peers = (4, 70) ∷ [] }

-- Two checks, before either request has its peer.
racing_publishes_example :
    let first = publish_start (answered "a" 70) 1 100 4 studio in
    let second = publish_start (answered "b" 71) 1 101 4 first.1 in
    ((location : String) × (first.0 ≡ created location "a"))
    × ((location : String) × (second.0 ≡ created location "b"))
    × (lookup second.1.guest_peers 4 ≡ some 71)
    × (lookup second.1.whip_sessions 101 ≡ some 4)
    × (lookup second.1.whip_sessions 100 ≡ none)
unfolding publish_check bearer_token strip_prefix trim resolve_source lookup
racing_publishes_example =
    racing_publishes any_row (some "Bearer t") (some "Bearer t") 4 70 71 1 100 101 "a" "b" studio
      refl refl (λ e. omega arith)
