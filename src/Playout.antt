-- ===== src/Playout.antt =====
-- crates/api/src/playout.rs: a schedule's broadcast, over the studio of `Stream` and the processes of `Media`,
-- whose ingest and the studio are one shared state (`media_of`, `put_media`). The task that airs a
-- schedule is a function for each stretch between two waits: `begin` until the player has a head start, `connect`,
-- then `elapsed` when the playlist is over or `deactivated` when the active schedule has changed.
pub mod Loads
pub mod Lists
pub mod Ending
pub mod Faults
mod Examples
use shed.Playout.Loads.{Tables, Playlist, load_playlist, load_end_behavior}
use shed.Prelude.{
  ◌==◌, if◌then◌else◌, unwrap_or, ℕ, String, inl, inr, Bool, true, false, Option, none, some, List,
  [], ◌∷◌, map, concat,
}
use shed.Prelude.Maps.{lookup}
use shed.Types.{Destination, WsEvent, schedule_started, schedule_ended}
use shed.Types.EndBehavior.{EndBehavior, stop, loop, standby}
use shed.Output.{OutputConfig, default_output_config, saved_output_config}
use shed.Egress as Egress
use shed.Egress.{RestartParams, egress_restart_for}
use shed.Pipeline as Pipeline
use shed.Stream.{Studio, World, ensure_channel_hls}
use shed.Media.{Launch, Media, start_concat_playback, start_media_playback, stop_media_playback}

pub record Run : Type 0 where
  pub schedule_id : ℕ
  pub status : String
  pub ended : Bool

-- The events are those of schedules and the runs newest first.
pub record Playout : Type 0 where
  pub studio : Studio
  pub media : Media
  pub active_schedule : Option ℕ
  pub schedule_runs : List Run
  pub ws : List WsEvent
  pub tables : Tables

-- What a broadcast is given from outside: a file's extension, the ids of its two players and their
-- relays, and the list that is written, with the error of the write.
pub record Stage : Type 0 where
  pub world : World
  pub launch : Launch
  pub extension : String → String
  pub vod_source : ℕ
  pub vod_relay : ℕ
  pub standby_source : ℕ
  pub standby_relay : ℕ
  pub list_path : String
  pub list_error : Option String

unfoldable pub record_run : ℕ → String → Playout → Playout
record_run id status p = record p {
  schedule_runs = record { schedule_id = id; status = status; ended = false } ∷ p.schedule_runs;
}

abbrev pub end_run : ℕ → Run → Run
end_run id r = if r.schedule_id == id then record r { ended = true } else r

unfoldable pub mark_run_ended : ℕ → Playout → Playout
mark_run_ended id p = record p { schedule_runs = map (end_run id) p.schedule_runs }

-- The maps of the shared state that both parts have.
abbrev pub media_of : Playout → Media
media_of p = record p.media {
  ingest = record p.media.ingest {
    source_states = p.studio.source_states;
    media_relays = p.studio.media_relays;
    sequence_headers = p.studio.sequence_headers;
  };
}

abbrev pub put_media : Media → Playout → Playout
put_media m p = record p {
  media = m;
  studio = record p.studio {
    source_states = m.ingest.source_states;
    media_relays = m.ingest.media_relays;
    sequence_headers = m.ingest.sequence_headers;
  };
}

-- `load_output_config`.
unfoldable pub output_config_of : World → Studio → OutputConfig
output_config_of w s =
    unwrap_or (saved_output_config w.parse_output s.db.output_config) default_output_config

abbrev pub is_loop : EndBehavior → Bool
is_loop loop = true
is_loop _ = false

-- The schedule is on air.
unfoldable pub announce : ℕ → Playout → Playout
announce id p =
    record_run id "ran" (record p { active_schedule = some id; ws = schedule_started id ∷ p.ws })

abbrev pub play : Stage → ℕ → Playlist → Playout → Option String × Media
play g id playlist p =
    start_concat_playback g.launch g.vod_relay g.vod_source playlist.files g.list_error g.list_path
      (is_loop (load_end_behavior p.tables id)) (output_config_of g.world p.studio) (media_of p)

-- `run_broadcast` until its first sleep, with its error, none if the player has started.
unfoldable pub begin : Stage → ℕ → Playout → Option String × Playout
begin g id p = elim (load_playlist p.tables id) [
  | inl e ↦ (some e, p)
  | inr playlist ↦
      let played = play g id playlist p in
      let aired = put_media played.1 (announce id p) in
      elim played.0 [
        | some e ↦ (some (concat ("playlist playback: " ∷ e ∷ [])), aired)
        | none ↦ (none, aired)
      ]
]

abbrev pub recover : ℕ → Option String × Playout → Playout
recover id (none, p) = p
recover id (some e, p) = record_run id "error" (record p { active_schedule = none })

-- `start_broadcast`, as far.
unfoldable pub start_broadcast : Stage → ℕ → Playout → Playout
start_broadcast g id p = recover id (begin g id p)

-- From the first sleep to the wait for the end.
unfoldable pub connect : Stage → OutputConfig → List Destination → Playout → Playout
connect g cfg destinations p =
    let s = p.studio in
    let params : RestartParams = record {
      destinations = destinations;
      media_tx = s.program_tx;
      output_config = some cfg;
    } in
    let w = g.world in
    record p {
      studio = ensure_channel_hls w (record s {
        program_intent = some g.vod_source;
        pipeline = Pipeline.start s.pipeline;
        egress =
            (Egress.start w.spawn w.now params (lookup s.sequence_headers g.vod_source) s.egress).1;
      });
    }

abbrev pub stop_vod : Stage → Playout → Playout
stop_vod g p = put_media (stop_media_playback g.vod_source (media_of p)) p

-- The broadcast's wait finds that another schedule is active, or none.
unfoldable pub deactivated : Stage → Playout → Playout
deactivated g p = stop_vod g p

-- What every way off the air stops.
abbrev pub off_air : Studio → Studio
off_air s = record s {
  egress = Egress.stop s.egress;
  channel_hls = none;
  pipeline = Pipeline.stop s.pipeline;
  program_intent = none;
}

-- The standby card is spliced in, if the schedule has one.
unfoldable pub splice_standby : Stage → Option String → Playout → Playout
splice_standby g card p = elim card [
  | none ↦ p
  | some path ↦
      let w = g.world in
      let started =
        start_media_playback g.launch g.standby_relay g.standby_source (g.extension path) path
          "loop" (media_of p) in
      let q = put_media started.1 p in
      let s = q.studio in
      record q {
        studio = ensure_channel_hls w (record s {
          program_intent = some g.standby_source;
          egress = egress_restart_for w.spawn w.now s.sequence_headers g.standby_source s.egress;
        });
      }
]

unfoldable pub take_off_air : ℕ → Playout → Playout
take_off_air id p =
    mark_run_ended id (record p {
      studio = off_air p.studio;
      active_schedule = none;
      ws = schedule_ended id ∷ p.ws;
    })

-- The playlist's time is over; `loop` does not come here.
unfoldable pub elapsed : Stage → ℕ → EndBehavior → Option String → Playout → Playout
elapsed g id standby card p = splice_standby g card (stop_vod g p)
elapsed g id _ card p = take_off_air id (stop_vod g p)

unfoldable pub stop_broadcast : Playout → Playout
stop_broadcast p = elim p.active_schedule [
  | some id ↦ take_off_air id p
  | none ↦ record p { studio = off_air p.studio }
]
