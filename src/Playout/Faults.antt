-- ===== src/Playout/Faults.antt =====
-- What a broadcast leaves behind when it fails or is ended elsewhere: crates/api/src/playout.rs with
-- routes/stream.rs and scheduler.rs.
use shed.Prelude.{
  ℕ, String, ◌≡◌, refl, sym, ◌∙◌, inr, true, false, none, some, List, [], ◌∷◌, map, arith, concat,
}
use shed.Types.{schedule_started}
use shed.Stream as Stream
use shed.Scheduler.{Scheduler, Schedule, NextRun, pass, on_air}
use shed.Scheduler.Passes.{pass_fires_all_or_none}
use mathlib.Core.Path.{subst}
use shed.Playout.{
  announce, play, recover, Playout, Stage, record_run, put_media, begin, start_broadcast,
}
use shed.Playout.Loads.{Playlist, load_playlist}

-- A failed broadcast: the runs that it adds, both open, the event of its start, and what it leaves.
abbrev pub FailedOpen : ℕ → Playout → Playout → Type 0
FailedOpen id p p' =
    (p'.schedule_runs
      ≡ record { schedule_id = id; status = "error"; ended = false }
        ∷ record { schedule_id = id; status = "ran"; ended = false }
        ∷ p.schedule_runs)
    × (p'.ws ≡ schedule_started id ∷ p.ws)
    × (p'.active_schedule ≡ none)
    × (p'.studio.egress ≡ p.studio.egress)

-- A broadcast whose player does not start is announced and recorded as run, and then as failed: two
-- runs stay, neither of which is ever ended, and no event says that it is over. The output is as it was, and no
-- schedule is active.
pub failed_broadcast_stays_open :
    (g : Stage) (id : ℕ) (p : Playout) (playlist : Playlist) (e : String)
    → load_playlist p.tables id ≡ inr playlist
    → (play g id playlist p).0 ≡ some e
    → FailedOpen id p (start_broadcast g id p)
unfolding start_broadcast begin record_run announce
failed_broadcast_stays_open g id p playlist e h f =
    let aired = put_media (play g id playlist p).1 (announce id p) in
    let begun : begin g id p ≡ (some (concat ("playlist playback: " ∷ e ∷ [])), aired) =
      rw (begin, h, f) refl in
    subst (λ b. FailedOpen id p (recover id b)) (sym begun) (refl, refl, refl, refl)

-- What the scheduler sees of the shared state, with its own rows.
abbrev pub scheduler_of : List Schedule → Playout → Scheduler
scheduler_of schedules p = record {
  schedules = schedules;
  schedule_runs = map (λ r. (r.schedule_id, r.status)) p.schedule_runs;
  ws = p.ws;
  fired = [];
  active_schedule = p.active_schedule;
  pipeline = p.studio.pipeline.state;
}

-- The operator's stop of the stream.
abbrev pub stop_stream : Playout → Playout
stop_stream p = record p { studio = (Stream.stop p.studio).1 }

-- A broadcast that is ended by the stop of the stream stays the active schedule, and the scheduler
-- starts nothing any more: no pass fires a schedule, at whatever time and with whatever schedules.
pub stopped_stream_blocks_schedules :
    (next_run : NextRun) (now id : ℕ) (schedules : List Schedule) (p : Playout)
    → p.active_schedule ≡ some id
    → (pass next_run now (scheduler_of schedules (stop_stream p))).fired ≡ []
stopped_stream_blocks_schedules next_run now id schedules p h =
    let s = scheduler_of schedules (stop_stream p) in
    let blocked : on_air s ≡ true = ground (arith, h) in
    (pass_fires_all_or_none next_run now s).0 ∙ (rw blocked refl)
