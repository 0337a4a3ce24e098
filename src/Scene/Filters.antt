-- ===== src/Scene/Filters.antt =====
-- The command line of a compositor: crates/api/src/scene_compositor.rs, which layers are shown and the graph
-- that ffmpeg is given. A row of `scene_layers` has a source whose id is a number, or none. The arithmetic and the printing of floats are given (`Floats`); an opacity is kept as its bit pattern.
use shed.Prelude.{
  ltb, if◌then◌else◌, is_some, length, ℕ, suc, ◌+◌, ◌-◌, ◌*◌, ◌%◌, max, String, Bool, ◌&&◌, Option,
  none, some, List, [], ◌∷◌, ◌++◌, ◌>>=◌, concat, decimal,
}
use shed.Prelude.Maps.{lookup}
use shed.Types.{ℤ, pos, negsuc}
use shed.Types.LayerFit as LayerFit
use shed.Types.LayerFit.{LayerFit, fill, cover, contain}
use shed.Output.{OutputConfig}
use shed.Media.{Media}

-- `opacity < 0.999`, `{:.3}`, and `as f32`.
pub record Floats : Type 0 where
  pub translucent : ℕ → Bool
  pub three_decimals : ℕ → String
  pub as_f32 : ℕ → ℕ

-- Rust's `as i32` and `as u32` of an `i64`.
unfoldable pub as_i32 : ℤ → ℤ
as_i32 (pos n) =
    let r = n % 4294967296 in if ltb r 2147483648 then pos r else negsuc (4294967295 - r)
as_i32 (negsuc n) =
    let r = n % 4294967296 in if ltb r 2147483648 then negsuc r else pos (4294967295 - r)

unfoldable pub as_u32 : ℤ → ℕ
as_u32 (pos n) = n % 4294967296
as_u32 (negsuc n) = 4294967295 - n % 4294967296

unfoldable pub to_string : ℤ → String
to_string (pos n) = decimal n
to_string (negsuc n) = concat ("-" ∷ decimal (n + 1) ∷ [])

pub record CompLayer : Type 0 where
  pub source_id : ℕ
  pub x : ℤ
  pub y : ℤ
  pub w : ℕ
  pub h : ℕ
  pub opacity : ℕ
  pub fit : LayerFit

pub record LayerRow : Type 0 where
  pub source_id : Option ℕ
  pub x : ℤ
  pub y : ℤ
  pub width : ℤ
  pub height : ℤ
  pub opacity : ℕ
  pub fit : String

-- The scale chain, then the place of the overlay.
unfoldable pub fit_filter : LayerFit → ℤ → ℤ → ℕ → ℕ → String × (String × String)
fit_filter fill x y w h =
    (concat ("scale=" ∷ decimal w ∷ ":" ∷ decimal h ∷ []), (to_string x, to_string y))
fit_filter cover x y w h = (
  concat (
      "scale="
      ∷ decimal w
      ∷ ":"
      ∷ decimal h
      ∷ ":force_original_aspect_ratio=increase,crop="
      ∷ decimal w
      ∷ ":"
      ∷ decimal h
      ∷ []),
  (to_string x, to_string y),
)
fit_filter contain x y w h = (
  concat ("scale=" ∷ decimal w ∷ ":" ∷ decimal h ∷ ":force_original_aspect_ratio=decrease" ∷ []),
  (
    concat (to_string x ∷ "+(" ∷ decimal w ∷ "-w)/2" ∷ []),
    concat (to_string y ∷ "+(" ∷ decimal h ∷ "-h)/2" ∷ []),
  ),
)

unfoldable pub scale_step : Floats → ℕ → CompLayer → String
scale_step fl i layer =
    let (scale, place) = fit_filter layer.fit layer.x layer.y layer.w layer.h in
    if fl.translucent layer.opacity
    then concat (
        "["
        ∷ decimal i
        ∷ ":v]setpts=PTS-STARTPTS,"
        ∷ scale
        ∷ ",format=yuva420p,colorchannelmixer=aa="
        ∷ fl.three_decimals layer.opacity
        ∷ "[l"
        ∷ decimal i
        ∷ "]"
        ∷ [])
    else concat ("[" ∷ decimal i ∷ ":v]setpts=PTS-STARTPTS," ∷ scale ∷ "[l" ∷ decimal i ∷ "]" ∷ [])

unfoldable pub overlay_step : ℕ → CompLayer → String → String → String
overlay_step i layer prev out =
    let (scale, (ox, oy)) = fit_filter layer.fit layer.x layer.y layer.w layer.h in
    concat (
      "["
      ∷ prev
      ∷ "][l"
      ∷ decimal i
      ∷ "]overlay=x="
      ∷ ox
      ∷ ":y="
      ∷ oy
      ∷ ":eof_action=pass["
      ∷ out
      ∷ "]"
      ∷ [])

-- The loop, at layer `i`: the steps that it adds, and the last label.
unfoldable pub add_layers : Floats → ℕ → String → List CompLayer → List String × String
add_layers fl i prev [] = ([], prev)
add_layers fl i prev (layer ∷ layers) =
    let out = concat ("s" ∷ decimal i ∷ []) in
    let rest = add_layers fl (suc i) out layers in
    (scale_step fl i layer ∷ overlay_step i layer prev out ∷ rest.0, rest.1)

unfoldable pub base_step : ℕ → ℕ → ℕ → String
base_step width height fps = concat (
    "color=c=black:s=" ∷ decimal width ∷ "x" ∷ decimal height ∷ ":r=" ∷ decimal fps ∷ "[base]" ∷ [])

-- `join(";")`.
abbrev pub join : List String → String
join [] = ""
join (s ∷ []) = s
join (s ∷ t ∷ texts) = concat (s ∷ ";" ∷ join (t ∷ texts) ∷ [])

unfoldable pub build_filter_graph : Floats → List CompLayer → ℕ → ℕ → ℕ → String × String
build_filter_graph fl layers width height fps =
    let (steps, last) = add_layers fl 0 "base" layers in
    (join (base_step width height fps ∷ steps), last)

-- The source produces video: it has a relay and a video header.
unfoldable pub producing : Media → ℕ → Bool
producing m id =
    is_some (lookup m.ingest.media_relays id)
    && is_some (lookup m.ingest.sequence_headers id >>= (λ h. h.video))

abbrev pub comp_layer : Floats → LayerRow → ℕ → CompLayer
comp_layer fl row id = record {
  source_id = id;
  x = as_i32 row.x;
  y = as_i32 row.y;
  w = max (as_u32 row.width) 2;
  h = max (as_u32 row.height) 2;
  opacity = fl.as_f32 row.opacity;
  fit = LayerFit.from_db row.fit;
}

unfoldable pub live_layers : Floats → Media → List LayerRow → List CompLayer
live_layers fl m [] = []
live_layers fl m (row ∷ rows) =
    let rest = live_layers fl m rows in
    elim row.source_id [
      | none ↦ rest
      | some id ↦ if producing m id then comp_layer fl row id ∷ rest else rest
    ]

abbrev pub input_args : ℕ → List String
input_args port =
    ("-analyzeduration" ∷ "500000" ∷ "-probesize" ∷ "500000" ∷ "-f" ∷ "flv" ∷ "-i" ∷ [])
    ++ (concat ("tcp://127.0.0.1:" ∷ decimal port ∷ []) ∷ [])

abbrev pub all_input_args : List ℕ → List String
all_input_args [] = []
all_input_args (port ∷ ports) = input_args port ++ all_input_args ports

abbrev pub kbps : ℕ → String
kbps n = concat (decimal n ∷ "k" ∷ [])

unfoldable pub compositor_args : Floats → OutputConfig → List ℕ → List CompLayer → List String
compositor_args fl cfg ports layers =
    let (graph, last) = build_filter_graph fl layers cfg.width cfg.height cfg.fps in
    ("-hide_banner" ∷ "-loglevel" ∷ "warning" ∷ [])
    ++ all_input_args ports
    ++ ("-f" ∷ "lavfi" ∷ "-i" ∷ "anullsrc=r=48000:cl=stereo" ∷ "-filter_complex" ∷ graph ∷ [])
    ++ ("-map" ∷ concat ("[" ∷ last ∷ "]" ∷ []) ∷ [])
    ++ ("-map" ∷ concat (decimal (length layers) ∷ ":a" ∷ []) ∷ "-c:v" ∷ "libx264" ∷ [])
    ++ ("-preset" ∷ "veryfast" ∷ "-tune" ∷ "zerolatency" ∷ "-b:v" ∷ [])
    ++ (kbps cfg.video_bitrate_kbps ∷ "-maxrate" ∷ kbps cfg.video_bitrate_kbps ∷ [])
    ++ ("-bufsize" ∷ kbps (cfg.video_bitrate_kbps * 2) ∷ "-g" ∷ decimal (cfg.fps * 2) ∷ [])
    ++ ("-r" ∷ decimal cfg.fps ∷ "-pix_fmt" ∷ "yuv420p" ∷ "-c:a" ∷ "aac" ∷ [])
    ++ ("-b:a" ∷ kbps cfg.audio_bitrate_kbps ∷ "-ar" ∷ "48000" ∷ "-f" ∷ "flv" ∷ [])
    ++ ("-flvflags" ∷ "no_duration_filesize" ∷ "pipe:1" ∷ [])
