-- ===== src/Egress.antt =====
-- crates/api/src/egress.rs: the ffmpeg processes that push the program to its destinations. The
-- manager's shared fields are a record, its events newest first. `spawn` is the operating system:
-- whether ffmpeg starts on a command line, with a pipe to its standard input. The task that feeds a
-- process is in `Feed`.
pub mod Feed
pub mod Served
pub mod Failing
mod Examples
use shed.Prelude.{
  if◌then◌else◌, unwrap_or, ℕ, ◌*◌, ◌/◌, String, Bool, true, false, Option, none, some, List, [],
  ◌∷◌, ◌++◌, concat, decimal,
}
use shed.Prelude.Maps.{IdMap, lookup, insert}
use shed.Types.{
  Destination, DestinationKind, rtmp, rtmps, srt, recording, WsEvent, destination_state,
  SequenceHeaders,
}
use shed.Output.{OutputConfig, default_output_config}

-- `map_err` of a failed `spawn`, or `child.stdin.take()`.
pub data Spawned : Type 0 where
  failed : String → Spawned
  no_stdin : Spawned
  running : Spawned

abbrev pub Spawn : Type 0
Spawn = List String → Spawned

-- `seq_headers` is what the process's task primes it with.
pub record EgressProcess : Type 0 where
  pub args : List String
  pub seq_headers : Option SequenceHeaders
  pub destination_name : String

-- `media_tx` is a channel's number.
pub record RestartParams : Type 0 where
  pub destinations : List Destination
  pub media_tx : ℕ
  pub output_config : Option OutputConfig

pub record EgressManager : Type 0 where
  pub processes : IdMap EgressProcess
  pub ws : List WsEvent
  pub bytes_sent : ℕ
  pub started_at : Option ℕ
  pub restart_params : Option RestartParams

-- Other kinds of destination are passed over.
abbrev pub rtmp_url : DestinationKind → Option String
rtmp_url (rtmp url stream_key) = some (concat (url ∷ "/" ∷ stream_key ∷ []))
rtmp_url (rtmps url stream_key) = some (concat (url ∷ "/" ∷ stream_key ∷ []))
rtmp_url (srt url) = none
rtmp_url (recording path) = none

-- Where an enabled destination is pushed to, none if it is passed over.
unfoldable pub url_of : Destination → Option String
url_of dest = if dest.enabled then rtmp_url dest.kind else none

abbrev kbps : ℕ → String
kbps n = concat (decimal n ∷ "k" ∷ [])

-- The canvas filter: fit, then pad.
unfoldable pub canvas_filter : OutputConfig → String
canvas_filter cfg =
    let size = concat (decimal cfg.width ∷ ":" ∷ decimal cfg.height ∷ []) in
    concat (
      "scale=" ∷ size ∷ ":force_original_aspect_ratio=decrease,pad=" ∷ size
      ∷ ":(ow-iw)/2:(oh-ih)/2:black" ∷ [])

unfoldable pub encoder_args : OutputConfig → String → List String
encoder_args cfg url =
    ("-hide_banner" ∷ "-loglevel" ∷ "info" ∷ "-f" ∷ "flv" ∷ "-i" ∷ "pipe:0" ∷ [])
    ++ ("-vf"
        ∷ canvas_filter cfg
        ∷ "-c:v"
        ∷ "libx264"
        ∷ "-preset"
        ∷ "medium"
        ∷ "-tune"
        ∷ "zerolatency"
        ∷ [])
    ++ ("-b:v" ∷ kbps cfg.video_bitrate_kbps ∷ "-maxrate" ∷ kbps cfg.video_bitrate_kbps ∷ [])
    ++ ("-bufsize" ∷ kbps (cfg.video_bitrate_kbps * 2) ∷ "-g" ∷ decimal (cfg.fps * 2) ∷ [])
    ++ ("-r" ∷ decimal cfg.fps ∷ "-pix_fmt" ∷ "yuv420p" ∷ "-c:a" ∷ "aac" ∷ [])
    ++ ("-b:a" ∷ kbps cfg.audio_bitrate_kbps ∷ "-ar" ∷ "48000" ∷ "-ac" ∷ "2" ∷ [])
    ++ ("-f" ∷ "flv" ∷ "-flvflags" ∷ "no_duration_filesize" ∷ url ∷ [])

abbrev pub config_of : Option OutputConfig → OutputConfig
config_of output_config = unwrap_or output_config default_output_config

abbrev pub process_for :
    Option OutputConfig → Option SequenceHeaders → Destination → String → EgressProcess
process_for output_config seq dest url = record {
  args = encoder_args (config_of output_config) url;
  seq_headers = seq;
  destination_name = dest.name;
}

-- A destination that is connected; a process that it had before is dropped, and killed with that.
unfoldable pub connect : Destination → EgressProcess → EgressManager → EgressManager
connect dest process m = record m {
  processes = insert m.processes dest.id process;
  ws = destination_state dest.id "connected" ∷ m.ws;
}

-- One turn of the loop of `start`, with the error that ends it.
unfoldable pub attempt :
    Spawn
    → Option OutputConfig
    → Option SequenceHeaders
    → Destination
    → EgressManager
    → Option String × EgressManager
attempt spawn cfg seq dest m = elim (url_of dest) [
  | none ↦ (none, m)
  | some url ↦
      let process = process_for cfg seq dest url in
      elim (spawn process.args) [
        | failed e ↦ (some (concat ("failed to start ffmpeg for " ∷ dest.name ∷ ": " ∷ e ∷ [])), m)
        | no_stdin ↦ (some (concat ("failed to get stdin for " ∷ dest.name ∷ [])), m)
        | running ↦ (none, connect dest process m)
      ]
]

-- The loop. A failure ends it, with what was started left running.
unfoldable pub start_all :
    Spawn
    → Option OutputConfig
    → Option SequenceHeaders
    → List Destination
    → EgressManager
    → Option String × EgressManager
start_all spawn cfg seq [] m = (none, m)
start_all spawn cfg seq (dest ∷ destinations) m =
    let turn = attempt spawn cfg seq dest m in
    elim turn.0 [ none ↦ start_all spawn cfg seq destinations turn.1 | some e ↦ (some e, turn.1) ]

-- The result is the error, none for `Ok(())`. The source's id is not used.
unfoldable pub start :
    Spawn
    → ℕ
    → RestartParams
    → Option SequenceHeaders
    → EgressManager
    → Option String × EgressManager
start spawn now params seq m =
    start_all spawn params.output_config seq params.destinations
      (record m { bytes_sent = 0; started_at = some now; restart_params = some params })

-- The events of `processes.drain()`, in the order of the list.
unfoldable pub disconnected_events : IdMap EgressProcess → List WsEvent → List WsEvent
disconnected_events [] ws = ws
disconnected_events ((id, process) ∷ processes) ws =
    disconnected_events processes (destination_state id "disconnected" ∷ ws)

unfoldable pub stop : EgressManager → EgressManager
stop m = record m { processes = []; ws = disconnected_events m.processes m.ws }

-- After 600 ms for the old session to close; an error of `start` is dropped.
unfoldable pub restart : Spawn → ℕ → Option SequenceHeaders → EgressManager → EgressManager
restart spawn now seq m = elim m.restart_params [
  | none ↦ m
  | some params ↦ (start spawn now params seq (stop m)).1
]

unfoldable pub set_output_config : Option OutputConfig → EgressManager → EgressManager
set_output_config cfg m = elim m.restart_params [
  | none ↦ m
  | some params ↦ record m { restart_params = some (record params { output_config = cfg }) }
]

unfoldable pub is_running : EgressManager → Bool
is_running m = elim m.processes [ [] ↦ false | _ ∷ _ ↦ true ]

-- `egress_restart_for` of crates/api/src/lib.rs.
unfoldable pub egress_restart_for :
    Spawn → ℕ → IdMap SequenceHeaders → ℕ → EgressManager → EgressManager
egress_restart_for spawn now sequence_headers source m =
    if is_running m then restart spawn now (lookup sequence_headers source) m else m
