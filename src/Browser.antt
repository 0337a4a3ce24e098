-- ===== src/Browser.antt =====
-- crates/api/src/browser_source.rs: a web page as a source, by a headless Chrome and an ffmpeg. What
-- Chrome answers on its debugging port, and the base64 crate, are given. The processes and the ingest are those
-- of `Media`, with Chrome's own map.
pub mod Processes
pub mod Shots
use shed.Prelude.{
  if◌then◌else◌, option_eq, ℕ, suc, ◌*◌, String, ◌⊎◌, inl, inr, Bool, Option, none, some, List, [],
  ◌∷◌, ◌++◌, option_list, concat, decimal,
}
use shed.Prelude.Maps.{IdMap, lookup, insert, remove}
use shed.Types.{disconnected}
use shed.Output.{OutputConfig}
use shed.Flv.Demux.{read_stream}
use shed.Ingest.{Ingest, publish_all}
use shed.WebRtc.{with_relay}
use shed.Media.{Launch, Media, has_header, stop_normalizer, forget_relay}
use shed.Rtmp.{kbps, install_normalizer}

pub record Browsers : Type 0 where
  pub media : Media
  pub browser_sources : IdMap ℕ

-- What a start gets from outside: the operating system for each program, the port or its error, the address
-- of the page's target or the error after fifty tries, and the number of a new relay.
pub record Desktop : Type 0 where
  pub chrome : Launch
  pub ffmpeg : Launch
  pub pick_port : String ⊎ ℕ
  pub wait_for_page_ws : ℕ → String ⊎ String
  pub relay : ℕ

unfoldable pub chrome_args : ℕ → OutputConfig → String → List String
chrome_args port cfg url =
    "--headless=new"
    ∷ "--disable-gpu"
    ∷ "--hide-scrollbars"
    ∷ "--no-sandbox"
    ∷ "--mute-audio"
    ∷ "--autoplay-policy=no-user-gesture-required"
    ∷ "--disable-dev-shm-usage"
    ∷ concat ("--remote-debugging-port=" ∷ decimal port ∷ [])
    ∷ concat ("--window-size=" ∷ decimal cfg.width ∷ "," ∷ decimal cfg.height ∷ [])
    ∷ url
    ∷ []

unfoldable pub frame_args : OutputConfig → List String
frame_args cfg =
    let size = concat (decimal cfg.width ∷ ":" ∷ decimal cfg.height ∷ []) in
    ("-hide_banner" ∷ "-loglevel" ∷ "warning" ∷ [])
    ++ ("-f" ∷ "image2pipe" ∷ "-use_wallclock_as_timestamps" ∷ "1" ∷ "-i" ∷ "pipe:0" ∷ [])
    ++ ("-f" ∷ "lavfi" ∷ "-i" ∷ "anullsrc=r=48000:cl=stereo" ∷ [])
    ++ ("-vf"
        ∷ concat (
            "scale="
            ∷ size
            ∷ ":force_original_aspect_ratio=decrease,pad="
            ∷ size
            ∷ ":(ow-iw)/2:(oh-ih)/2:black,fps="
            ∷ decimal cfg.fps
            ∷ ",format=yuv420p"
            ∷ [])
        ∷ [])
    ++ ("-c:v" ∷ "libx264" ∷ "-preset" ∷ "veryfast" ∷ "-tune" ∷ "zerolatency" ∷ [])
    ++ ("-b:v" ∷ kbps cfg.video_bitrate_kbps ∷ "-maxrate" ∷ kbps cfg.video_bitrate_kbps ∷ [])
    ++ ("-bufsize" ∷ kbps (cfg.video_bitrate_kbps * 2) ∷ "-g" ∷ decimal (cfg.fps * 2) ∷ [])
    ++ ("-pix_fmt" ∷ "yuv420p" ∷ "-c:a" ∷ "aac" ∷ "-b:a" ∷ "128k" ∷ "-ar" ∷ "48000" ∷ [])
    ++ ("-shortest" ∷ "-f" ∷ "flv" ∷ "-flvflags" ∷ "no_duration_filesize" ∷ "pipe:1" ∷ [])

abbrev pub kill : ℕ → Browsers → Browsers
kill pid b = record b { media = record b.media { killed = pid ∷ b.media.killed } }

-- A process that is replaced in the map is dropped, and so killed.
unfoldable pub install_chrome : ℕ → ℕ → Browsers → Browsers
install_chrome source_id pid b = record b {
  browser_sources = insert b.browser_sources source_id pid;
  media = record b.media {
    killed = option_list (lookup b.browser_sources source_id) ++ b.media.killed;
  };
}

-- Once Chrome answers. A failure of ffmpeg drops Chrome.
unfoldable pub start_frames : Desktop → OutputConfig → ℕ → ℕ → Browsers → Option String × Browsers
start_frames d cfg source_id chrome b =
    let related = record b {
      media = record b.media { ingest = with_relay source_id d.relay b.media.ingest };
    } in
    elim (d.ffmpeg (frame_args cfg)) [
      | inl e ↦ (some (concat ("failed to start browser ffmpeg: " ∷ e ∷ [])), kill chrome related)
      | inr pid ↦
          let tracked = install_chrome source_id chrome related in
          (none, record tracked { media = install_normalizer source_id pid tracked.media })
    ]

unfoldable pub start_chrome :
    Desktop → OutputConfig → ℕ → String → ℕ → Browsers → Option String × Browsers
start_chrome d cfg source_id url port b = elim (d.chrome (chrome_args port cfg url)) [
  | inl e ↦ (some (concat ("failed to launch chrome: " ∷ e ∷ [])), b)
  | inr chrome ↦ elim (d.wait_for_page_ws port) [
    | inl e ↦ (some e, kill chrome b)
    | inr ws_url ↦ start_frames d cfg source_id chrome b
  ]
]

-- The result is the error, none for `Ok(())`.
unfoldable pub start_browser_source :
    Desktop → OutputConfig → ℕ → String → Browsers → Option String × Browsers
start_browser_source d cfg source_id url b = elim d.pick_port [
  | inl e ↦ (some e, b)
  | inr port ↦ start_chrome d cfg source_id url port b
]

unfoldable pub drop_chrome : ℕ → Browsers → Browsers
drop_chrome source_id b = record b {
  browser_sources = remove b.browser_sources source_id;
  media = record b.media {
    killed = option_list (lookup b.browser_sources source_id) ++ b.media.killed;
  };
}

abbrev forget_source : ℕ → Ingest → Ingest
forget_source source_id s =
    let forgotten = forget_relay source_id s in
    record forgotten { source_states = insert forgotten.source_states source_id disconnected }

unfoldable pub stop_browser_source : ℕ → Browsers → Browsers
stop_browser_source source_id b =
    let freed = drop_chrome source_id b in
    let stopped = stop_normalizer source_id freed.media in
    record freed { media = record stopped { ingest = forget_source source_id stopped.ingest } }

-- Over all that ffmpeg writes; at the end nothing is cleaned up.
unfoldable pub read_flv_output : ℕ → List ℕ → Browsers → Browsers
read_flv_output source_id stdout b =
    if has_header stdout
    then record b {
      media = record b.media {
        ingest = publish_all source_id 0 (read_stream stdout) b.media.ingest;
      };
    }
    else b

-- A message of the page, as far as it is read: its `id` and the `data` of its result.
pub record Message : Type 0 where
  pub id : Option ℕ
  pub shot : Option String

-- What a request meets: the source is still there and the request is sent, and the frame is written.
pub record Line : Type 0 where
  pub sends : ℕ → Bool
  pub writes : ℕ → Bool
  pub decode : String → Option (List ℕ)

-- The frame of request `id`, before those that follow. One that cannot be decoded is skipped.
abbrev pub written : Line → ℕ → List (ℕ × List ℕ) → Option (List ℕ) → List (ℕ × List ℕ)
written l id following none = following
written l id following (some jpeg) = if l.writes id then (id, jpeg) ∷ following else []

abbrev pub answered : Line → ℕ → List (ℕ × List ℕ) → Option String → List (ℕ × List ℕ)
answered l id following none = []
answered l id following (some b64) = written l id following (l.decode b64)

-- The frames that are written, each with its request, while the page sends `messages`; request `id` is out.
unfoldable pub await_shot : Line → ℕ → List Message → List (ℕ × List ℕ)
await_shot l id [] = []
await_shot l id (m ∷ messages) =
    let later = await_shot l id messages in
    let following = await_shot l (suc id) messages in
    if option_eq m.id (some id)
    then answered l id (if l.sends (suc id) then following else []) m.shot
    else later

-- The first capture is request 2.
unfoldable pub screenshot_loop : Line → List Message → List (ℕ × List ℕ)
screenshot_loop l messages = if l.sends 2 then await_shot l 2 messages else []
