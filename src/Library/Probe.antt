-- ===== src/Library/Probe.antt =====
-- The probe of a media file: crates/api/src/media_probe.rs. What ffprobe and ffmpeg do is given, and the JSON text as serde's
-- accessors show it; a floating-point number is its bits, with the arithmetic of the standard library (`Floats`).
use shed.Prelude.{
  ltb, ◌==◌, if◌then◌else◌, unwrap_or, is_some, ℕ, ◌/◌, ◌%◌, String, Bool, not, ◌&&◌, Option, none,
  some, List, [], ◌∷◌, concat, string_eq,
}
use Prim.Native.Char.{Char, code}

pub record ProbeResult : Type 0 where
  pub duration_ms : ℕ
  pub width : Option ℕ
  pub height : Option ℕ
  pub codec : Option String
  pub fps : Option ℕ
  pub audio_codec : Option String
  pub audio_sample_rate : Option ℕ
  pub bitrate_kbps : Option ℕ

-- A stream of the output; what is absent, or of another type, is none.
pub record ProbedStream : Type 0 where
  pub codec_type : Option String
  pub width : Option ℕ
  pub height : Option ℕ
  pub codec_name : Option String
  pub r_frame_rate : Option String
  pub sample_rate : Option String

-- The output's `format.duration`, `format.bit_rate` and `streams`.
pub record Probed : Type 0 where
  pub duration : Option String
  pub bit_rate : Option String
  pub streams : List ProbedStream

-- `parse` of `f64`, `u64` and `u32`, seconds as whole milliseconds, the test for more than 0, and the quotient.
pub record Floats : Type 0 where
  pub parse_f64 : String → Option ℕ
  pub parse_u64 : String → Option ℕ
  pub parse_u32 : String → Option ℕ
  pub to_ms : ℕ → ℕ
  pub positive : ℕ → Bool
  pub div : ℕ → ℕ → ℕ

abbrev pub default_result : ProbeResult
default_result = record {
  duration_ms = 0;
  width = none;
  height = none;
  codec = none;
  fps = none;
  audio_codec = none;
  audio_sample_rate = none;
  bitrate_kbps = none;
}

-- `as u32`.
abbrev pub as_u32 : ℕ → ℕ
as_u32 n = n % 4294967296

abbrev pub lift : {A B : Type 0} → (A → B) → Option A → Option B
lift f none = none
lift f (some x) = some (f x)

abbrev pub then_some : {A B : Type 0} → (A → Option B) → Option A → Option B
then_some f none = none
then_some f (some x) = f x

-- The parts of a text between slashes.
abbrev pub prefixed : Char → List String → List String
prefixed c [] = []
prefixed c (part ∷ parts) = String.◌∷◌ c part ∷ parts

unfoldable pub split_slash : String → List String
split_slash String.[] = "" ∷ []
split_slash (String.◌∷◌ c s) =
    let parts = split_slash s in if code c == 47 then "" ∷ parts else prefixed c parts

abbrev pub quotient : Floats → String → String → Option ℕ
quotient fl n d = elim (fl.parse_f64 n) [
  | none ↦ none
  | some num ↦ elim (fl.parse_f64 d) [
    | none ↦ none
    | some den ↦ if fl.positive den then some (fl.div num den) else none
  ]
]

-- The rate of "30000/1001", none for a text of another form.
abbrev pub rate_of : Floats → List String → Option ℕ
rate_of fl [] = none
rate_of fl (n ∷ []) = none
rate_of fl (n ∷ d ∷ []) = quotient fl n d
rate_of fl (n ∷ d ∷ more ∷ rest) = none

abbrev pub parse_format : Floats → Probed → ProbeResult
parse_format fl o = record default_result {
  duration_ms = unwrap_or (lift fl.to_ms (then_some fl.parse_f64 o.duration)) 0;
  bitrate_kbps = lift (λ bps. as_u32 (bps / 1000)) (then_some fl.parse_u64 o.bit_rate);
}

abbrev pub is_type : String → ProbedStream → Bool
is_type kind s = string_eq (unwrap_or s.codec_type "") kind

-- A rate that is not read leaves the one before.
abbrev pub add_video : Floats → ProbedStream → ProbeResult → ProbeResult
add_video fl s r = record r {
  width = lift as_u32 s.width;
  height = lift as_u32 s.height;
  codec = s.codec_name;
  fps = elim (then_some (λ rate. rate_of fl (split_slash rate)) s.r_frame_rate) [
    | none ↦ r.fps
    | some fps ↦ some fps
  ];
}

abbrev pub add_audio : Floats → ProbedStream → ProbeResult → ProbeResult
add_audio fl s r = record r {
  audio_codec = s.codec_name;
  audio_sample_rate = then_some fl.parse_u32 s.sample_rate;
}

abbrev pub add_stream : Floats → ProbedStream → ProbeResult → ProbeResult
add_stream fl s r =
    let seen = if is_type "video" s && not (is_some r.width) then add_video fl s r else r in
    if is_type "audio" s && not (is_some seen.audio_codec) then add_audio fl s seen else seen

unfoldable pub add_streams : Floats → List ProbedStream → ProbeResult → ProbeResult
add_streams fl [] r = r
add_streams fl (s ∷ streams) r = add_streams fl streams (add_stream fl s r)

-- What ffprobe writes is none when it does not start, fails, or writes no JSON.
unfoldable pub probe_file : Floats → Option Probed → Option ProbeResult
probe_file fl none = none
probe_file fl (some o) = some (add_streams fl o.streams (parse_format fl o))

-- What the two runs of ffmpeg do: whether the first succeeds and leaves the file, its size, if it can be read, and whether there is
-- the file after the second.
pub record Frames : Type 0 where
  pub first_made : Bool
  pub size : Option ℕ
  pub second_there : Bool

unfoldable pub generate_thumbnail : Frames → (String → String) → String → Option String
generate_thumbnail f join asset_id =
    let path = join (concat (asset_id ∷ "_thumb.jpg" ∷ [])) in
    let again = if f.second_there then some path else none in
    if f.first_made
    then (elim f.size [ none ↦ again | some n ↦ if ltb 500 n then some path else again ])
    else none
