-- ===== src/Playout/Ending.antt =====
-- How a broadcast ends: crates/api/src/playout.rs.
use shed.Prelude.{
  ◌==◌, All, ℕ, String, ◌≡◌, refl, sym, ◌≢◌, true, Option, none, some, List, [], ◌∷◌, map, arith,
  if_cases,
}
use shed.Prelude.Maps.{IdMap, lookup, remove, lookup-remove}
use mathlib.Core.Path.{subst}
use shed.Types.EndBehavior.{stop}
use shed.Media.{drop_player, forget_relay, stop_media_playback}
use shed.Egress as Egress
use shed.Playout.{
  Run, Playout, Stage, end_run, mark_run_ended, deactivated, take_off_air, elapsed, stop_broadcast,
}

-- Off air: nothing on the output, nothing of the playlist's source `vod_source`, and no run of schedule `id` is open.
abbrev pub OffAir : ℕ → ℕ → Playout → Type 0
OffAir id vod_source p =
    (p.active_schedule ≡ none)
    × (p.studio.program_intent ≡ none)
    × (p.studio.egress.processes ≡ [])
    × (p.studio.channel_hls ≡ none)
    × (lookup p.media.media_players vod_source ≡ none)
    × (lookup p.studio.media_relays vod_source ≡ none)
    × (lookup p.studio.sequence_headers vod_source ≡ none)
    × All (λ r. r.schedule_id ≡ id → r.ended ≡ true) p.schedule_runs

runs_ended :
    (id : ℕ) (runs : List Run)
    → All (λ r. r.schedule_id ≡ id → r.ended ≡ true) (map (end_run id) runs)
runs_ended id [] = tt
runs_ended id (r ∷ runs) = (
  if_cases (λ q. q.schedule_id ≡ id → q.ended ≡ true) (r.schedule_id == id)
      (record r { ended = true }) r (λ e q. refl) (λ e q. absurd (ground (arith, e, q))),
  runs_ended id runs,
)

removed : {V : Type 0} (m : IdMap V) (k : ℕ) → lookup (remove m k) k ≡ none
removed m k = ground (arith, lookup-remove m k k)

-- A broadcast that stops when its playlist is over is off air.
pub elapsed-OffAir :
    (g : Stage) (id : ℕ) (card : Option String) (p : Playout)
    → OffAir id g.vod_source (elapsed g id stop card p)
unfolding elapsed take_off_air mark_run_ended Egress.stop stop_media_playback drop_player
    forget_relay
elapsed-OffAir g id card p = (
  refl,
  refl,
  refl,
  refl,
  removed p.media.media_players g.vod_source,
  removed p.studio.media_relays g.vod_source,
  removed p.studio.sequence_headers g.vod_source,
  runs_ended id p.schedule_runs,
)

-- A broadcast that the operator stops is off air once the task that plays its playlist has seen it: no schedule is active, nothing is
-- intended for the program, no egress and no watch page runs, the player, the relay and the headers of the playlist's source are gone,
-- and no run of the schedule is open.
pub stopped-OffAir :
    (g : Stage) (id : ℕ) (p : Playout)
    → p.active_schedule ≡ some id
    → OffAir id g.vod_source (deactivated g (stop_broadcast p))
unfolding stop_broadcast deactivated take_off_air mark_run_ended Egress.stop stop_media_playback
    drop_player forget_relay
stopped-OffAir g id p h =
    let stopped : stop_broadcast p ≡ take_off_air id p = rw (stop_broadcast, h) refl in
    subst (λ q. OffAir id g.vod_source (deactivated g q)) (sym stopped)
      (
        refl,
        refl,
        refl,
        refl,
        removed p.media.media_players g.vod_source,
        removed p.studio.media_relays g.vod_source,
        removed p.studio.sequence_headers g.vod_source,
        runs_ended id p.schedule_runs,
      )

-- The end of a broadcast that another has superseded takes only its own player: the program, the
-- output, the active schedule and the other sources are left as they are.
pub deactivated_keeps_others :
    (g : Stage) (p : Playout) (j : ℕ)
    → g.vod_source ≢ j
    → let p' = deactivated g p in
      (p'.studio.program_intent ≡ p.studio.program_intent)
      × (p'.studio.egress ≡ p.studio.egress)
      × (p'.studio.pipeline ≡ p.studio.pipeline)
      × (p'.studio.channel_hls ≡ p.studio.channel_hls)
      × (p'.active_schedule ≡ p.active_schedule)
      × (lookup p'.media.media_players j ≡ lookup p.media.media_players j)
      × (lookup p'.studio.media_relays j ≡ lookup p.studio.media_relays j)
      × (lookup p'.studio.sequence_headers j ≡ lookup p.studio.sequence_headers j)
unfolding deactivated stop_media_playback drop_player forget_relay
deactivated_keeps_others g p j other = (
  refl,
  refl,
  refl,
  refl,
  refl,
  ground (arith, lookup-remove p.media.media_players g.vod_source j, other),
  ground (arith, lookup-remove p.studio.media_relays g.vod_source j, other),
  ground (arith, lookup-remove p.studio.sequence_headers g.vod_source j, other),
)
