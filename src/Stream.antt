-- ===== src/Stream.antt =====
-- crates/api/src/routes/stream.rs: going live and ending the stream, over the parts of the shared
-- state that they touch. The database's tables are given (`Db`; a query that fails gives the error's text), the
-- request's source is the parsed body's, and ffmpeg is `spawn` as in `Egress`. The events of the
-- pipeline and of the egress go to one channel; each part keeps its own here.
pub mod Outcome
pub mod Lifecycle
mod Examples
use shed.Prelude.{
  ◌==◌, if◌then◌else◌, is_none, or_else, unwrap_or, keep_if, any, ℕ, String, ◌⊎◌, inl, inr, Bool,
  true, false, not, ◌&&◌, Option, none, some, List, [], ◌∷◌, map, ◌>>=◌, concat, decimal,
}
use shed.Prelude.Maps.{IdMap, lookup}
use shed.Types.{
  SourceState, live, disconnected, connecting, error, Destination, DestinationKind, rtmp,
  SequenceHeaders, PipelineState, idle, stopping,
}
use shed.Types.MuxshedError.{MuxshedError, bad_request, database}
use shed.Output.{OutputConfig, clamp_config, saved_output_config}
use shed.Egress as Egress
use shed.Egress.{Spawn, EgressManager, RestartParams, egress_restart_for, set_output_config}
use shed.Pipeline as Pipeline
use shed.Pipeline.{Pipeline}

-- routes/broadcast.rs.
pub record BroadcastConfig : Type 0 where
  pub source_id : Option ℕ
  pub scene_id : Option ℕ
  pub start_stinger_id : Option ℕ
  pub destination_ids : List ℕ
  pub auto_record : Bool

abbrev pub default_broadcast_config : BroadcastConfig
default_broadcast_config = record {
  source_id = none;
  scene_id = none;
  start_stinger_id = none;
  destination_ids = [];
  auto_record = false;
}

-- A row of `destinations`: the id as text parses to a number, none if it does not, and `kind` as
-- serde reads it.
pub record DestRow : Type 0 where
  pub id : Option ℕ
  pub name : String
  pub kind : Option DestinationKind
  pub enabled : ℕ

unfoldable pub into_destination : DestRow → Destination
into_destination row = record {
  id = unwrap_or row.id 0;
  name = row.name;
  kind = unwrap_or row.kind (rtmp "" "");
  enabled = not (row.enabled == 0);
}

-- `broadcast_config` and `output_config` are rows of `settings`, `channel` is the row of `channel`.
pub record Db : Type 0 where
  pub broadcast_config : String ⊎ Option String
  pub destinations : String ⊎ List DestRow
  pub output_config : Option String
  pub channel : Option (ℕ × String)

-- What the handlers get from outside: ffmpeg, the clock, serde, and the path of a new recording.
pub record World : Type 0 where
  pub spawn : Spawn
  pub hls_starts : String → Bool
  pub now : ℕ
  pub parse_broadcast : String → Option BroadcastConfig
  pub parse_output : String → Option OutputConfig
  pub recording_path : String

-- The watch page's encoder: its token, its configuration and what it is primed with.
pub record HlsProcess : Type 0 where
  pub token : String
  pub config : OutputConfig
  pub seq_headers : Option SequenceHeaders

pub record Studio : Type 0 where
  pub pipeline : Pipeline
  pub egress : EgressManager
  pub channel_hls : Option HlsProcess
  pub program_intent : Option ℕ
  pub program_source : Option ℕ
  pub source_states : IdMap SourceState
  pub media_relays : IdMap ℕ
  pub sequence_headers : IdMap SequenceHeaders
  pub program_tx : ℕ
  pub db : Db

abbrev pub is_live : Option SourceState → Bool
is_live (some live) = true
is_live (some disconnected) = false
is_live (some connecting) = false
is_live (some (error message)) = false
is_live none = false

abbrev pub is_idle : PipelineState → Bool
is_idle idle = true
is_idle _ = false

-- `!matches!(state, Idle | Stopping)`.
abbrev pub broadcasting : PipelineState → Bool
broadcasting idle = false
broadcasting stopping = false
broadcasting _ = true

-- The first live source, in the map's order.
abbrev pub first_live : IdMap SourceState → Option ℕ
first_live [] = none
first_live ((id, state) ∷ states) =
    let rest = first_live states in if is_live (some state) then some id else rest

-- The source that goes on air, or the error's message. A `Uuid` is shown as its number.
unfoldable pub choose_source : Studio → Option ℕ → BroadcastConfig → String ⊎ ℕ
choose_source s requested saved =
    let wanted = or_else requested (or_else s.program_source saved.source_id) in
    elim wanted [
      | some id ↦
          if is_live (lookup s.source_states id)
          then inr id
          else inl (concat ("source " ∷ decimal id ∷ " is not live" ∷ []))
      | none ↦ elim (first_live s.source_states) [
        | some id ↦ inr id
        | none ↦ inl "no live source available — connect OBS first"
      ]
    ]

-- `WHERE enabled = 1`, and `id IN (…)` if any are selected. A row whose id is no number is in no
-- selection.
abbrev pub selects : List ℕ → DestRow → Bool
selects [] row = row.enabled == 1
selects (j ∷ ids) row =
    (row.enabled == 1) && elim row.id [ none ↦ false | some id ↦ any (λ k. k == id) (j ∷ ids) ]

unfoldable pub selected : List ℕ → List DestRow → List Destination
selected ids rows = map into_destination (keep_if (selects ids) rows)

-- `ChannelHls::start` stops the process that runs first.
unfoldable pub hls_start :
    World → String → Option OutputConfig → Option SequenceHeaders → Option HlsProcess
hls_start w token cfg seq =
    if w.hls_starts token
    then some (record { token = token; config = Egress.config_of cfg; seq_headers = seq })
    else none

unfoldable pub ensure_channel_hls : World → Studio → Studio
ensure_channel_hls w s =
    let output_config = saved_output_config w.parse_output s.db.output_config in
    let seq_headers = s.program_source >>= lookup s.sequence_headers in
    let hls = s.db.channel >>= (λ row.
      if not (row.0 == 0) && broadcasting s.pipeline.state
      then hls_start w row.1 output_config seq_headers
      else none) in
    record s { channel_hls = hls }

-- From the start of the egress on, nothing fails.
unfoldable pub go_on_air : World → ℕ → BroadcastConfig → List Destination → Studio → Studio
go_on_air w source_id saved destinations s =
    let params : RestartParams = record {
      destinations = destinations;
      media_tx = s.program_tx;
      output_config = saved_output_config w.parse_output s.db.output_config;
    } in
    let egress =
      (Egress.start w.spawn w.now params (lookup s.sequence_headers source_id) s.egress).1 in
    let recorded =
      if saved.auto_record
      then Pipeline.start_recording w.now w.recording_path s.pipeline
      else s.pipeline in
    let started = ensure_channel_hls w (record s {
      egress = egress;
      program_intent = some source_id;
      pipeline = Pipeline.start recorded;
    }) in
    elim saved.scene_id [
      | none ↦ started
      | some scene_id ↦ record started {
        pipeline = Pipeline.activate_scene scene_id started.pipeline;
      }
    ]

-- The result is the error, none for `Ok`.
unfoldable pub start : World → Option ℕ → Studio → Option MuxshedError × Studio
start w requested s =
    if not (is_idle s.pipeline.state)
    then (some (bad_request "pipeline is not idle"), s)
    else elim s.db.broadcast_config [
      | inl e ↦ (some (database e), s)
      | inr row ↦
          let saved = unwrap_or (row >>= w.parse_broadcast) default_broadcast_config in
          elim (choose_source s requested saved) [
            | inl e ↦ (some (bad_request e), s)
            | inr source_id ↦ elim s.db.destinations [
              | inl e ↦ (some (database e), s)
              | inr rows ↦
                  if is_none (lookup s.media_relays source_id)
                  then (some (bad_request "source is not streaming"), s)
                  else (none, go_on_air w source_id saved (selected saved.destination_ids rows) s)
            ]
          ]
    ]

unfoldable pub stop : Studio → Option MuxshedError × Studio
stop s = if is_idle s.pipeline.state then (some (bad_request "pipeline is already idle"), s) else (
  none,
  record s {
    egress = Egress.stop s.egress;
    channel_hls = none;
    program_intent = none;
    pipeline = Pipeline.stop (Pipeline.stop_recording s.pipeline);
  },
)

-- `set_config` of routes/output.rs, when the write of the row succeeds; `to_string` prints it.
unfoldable pub set_output : World → (OutputConfig → String) → OutputConfig → Studio → Studio
set_output w to_string config s =
    let clamped = clamp_config config in
    let stored = record s { db = record s.db { output_config = some (to_string clamped) } } in
    let egress = set_output_config (some clamped) s.egress in
    let restarted : EgressManager = elim s.program_source [
      | none ↦ egress
      | some source ↦ egress_restart_for w.spawn w.now s.sequence_headers source egress
    ] in
    if broadcasting s.pipeline.state
    then ensure_channel_hls w (record stored { egress = restarted })
    else stored
