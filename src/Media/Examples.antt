-- ===== src/Media/Examples.antt =====
-- Tests and instances for the ffmpeg processes and their readers.
use shed.Prelude.{ℕ, ◌≡◌, refl, inr, Option, some, List, [], ◌∷◌, ◌++◌}
use shed.Prelude.Maps.{lookup}
use shed.Types.{live, media_file, SourceKind}
use shed.Media.{
  Launch, Media, feed_relay, start_media_playback, ensure_playing, media_args, is_image,
}
use shed.Media.Children.{Replaces, playback-Replaces, headerless_stays}

abbrev launch : Launch
launch = λ args. inr 9

-- Source 4 plays a file, as process 8.
abbrev playing : Media
playing = record {
  ingest = record {
    sequence_headers = [];
    source_states = (4, live) ∷ [];
    ws = [];
    relayed = [];
    media_relays = (4, 1) ∷ [];
    srt_listeners = [];
  };
  media_players = (4, 8) ∷ [];
  source_normalizers = [];
  scene_compositors = [];
  killed = [];
}

-- An FLV header, then an audio header's tag with a body of two bytes.
abbrev stdout : List ℕ
stdout =
    (70 ∷ 76 ∷ 86 ∷ 1 ∷ 5 ∷ 0 ∷ 0 ∷ 0 ∷ 9 ∷ 0 ∷ 0 ∷ 0 ∷ 0 ∷ [])
    ++ (8 ∷ 0 ∷ 0 ∷ 2 ∷ 0 ∷ 0 ∷ 0 ∷ 0 ∷ 0 ∷ 0 ∷ 0 ∷ 175 ∷ 0 ∷ 0 ∷ 0 ∷ 0 ∷ 13 ∷ [])

playback-Replaces_example :
    Replaces
      (launch (media_args (is_image "mp4") "a.mp4" "loop"))
      4
      playing.media_players
      playing.killed
      (start_media_playback launch 2 4 "mp4" "a.mp4" "loop" playing)
playback-Replaces_example = playback-Replaces launch 2 4 "mp4" "a.mp4" "loop" playing

abbrev card : Option SourceKind
card = some (media_file 3 "a.mp4" "once")

headerless_stays_example :
    ensure_playing launch 2 4 "mp4" "a.mp4" "once" (feed_relay 4 (70 ∷ []) playing) ≡ playing
unfolding lookup
headerless_stays_example =
    headerless_stays launch 2 4 "mp4" "a.mp4" "once" playing (70 ∷ []) refl refl

-- An image loops for a day, without `-stream_loop`.
image_args :
    media_args (is_image "png") "a.png" "loop"
    ≡ ("-hide_banner" ∷ "-loglevel" ∷ "warning" ∷ "-loop" ∷ "1" ∷ "-framerate" ∷ "30" ∷ [])
      ++ ("-re" ∷ "-i" ∷ "a.png" ∷ "-c:v" ∷ "libx264" ∷ "-preset" ∷ "veryfast" ∷ [])
      ++ ("-tune" ∷ "zerolatency" ∷ "-pix_fmt" ∷ "yuv420p" ∷ "-g" ∷ "60" ∷ "-r" ∷ "30" ∷ [])
      ++ ("-b:v" ∷ "2000k" ∷ "-t" ∷ "86400" ∷ "-an" ∷ "-f" ∷ "flv" ∷ "pipe:1" ∷ [])
unfolding media_args is_image
image_args = refl
