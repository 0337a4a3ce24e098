-- ===== src/Stream/Outcome.antt =====
-- What going live does on every branch: crates/api/src/routes/stream.rs.
use shed.Prelude.{
  String, ◌==◌, ==_iff, Bool-cases, Option-cases, is_none, or_else, unwrap_or, ℕ, ◌≡◌, refl, sym,
  ap, ◌∙◌, ◌⊎◌, inl, inr, true, false, Option, none, some, List, [], ◌∷◌, arith, ◌>>=◌, Sum-cases,
}
use mathlib.Core.Path.{subst}
use shed.Prelude.Maps.{IdMap, lookup}
use shed.Types.{
  SourceState, live, disconnected, connecting, error, Destination, PipelineState, idle, starting,
}
use shed.Types.MuxshedError.{MuxshedError}
use shed.Output.{saved_output_config}
use shed.Egress.{RestartParams}
use shed.Egress as Egress
use shed.Egress.Served.{Spawns, served, start_serves}
use shed.Pipeline as Pipeline
use shed.Pipeline.{Pipeline}
use shed.Stream.{
  default_broadcast_config, BroadcastConfig, DestRow, World, Studio, is_live, is_idle, first_live,
  choose_source, selected, ensure_channel_hls, go_on_air, start,
}

-- A start that is refused, for whatever reason, changes nothing.
pub refused_start_changes_nothing :
    (w : World) (requested : Option ℕ) (s : Studio) (e : MuxshedError)
    → (start w requested s).0 ≡ some e
    → (start w requested s).1 ≡ s
unfolding start
refused_start_changes_nothing w requested s e h = ground arith

-- An entry of the map says that the source is live.
abbrev pub IsLiveIn : ℕ → IdMap SourceState → Type 0
IsLiveIn id [] = ⊥
IsLiveIn id ((j, state) ∷ states) = ((j ≡ id) × (state ≡ live)) ⊎ IsLiveIn id states

is_live-inv : (state : SourceState) → is_live (some state) ≡ true → state ≡ live
is_live-inv disconnected h = absurd (ground arith)
is_live-inv connecting h = absurd (ground arith)
is_live-inv live h = refl
is_live-inv (error m) h = absurd (ground arith)

lookup-IsLiveIn :
    (id : ℕ) (states : IdMap SourceState) → is_live (lookup states id) ≡ true → IsLiveIn id states
unfolding lookup
lookup-IsLiveIn id [] h = absurd (ground arith)
lookup-IsLiveIn id ((j, state) ∷ states) h = elim (Bool-cases (j == id)) [
  | inl e ↦ inl ((==_iff j id).0 e, is_live-inv state (rw (lookup, e) at h))
  | inr e ↦ inr (lookup-IsLiveIn id states (rw (lookup, e) at h))
]

first_live-IsLiveIn :
    (id : ℕ) (states : IdMap SourceState) → first_live states ≡ some id → IsLiveIn id states
first_live-IsLiveIn id [] h = absurd (ground arith)
first_live-IsLiveIn id ((j, state) ∷ states) h = elim (Bool-cases (is_live (some state))) [
  | inl e ↦ inl (ground (arith, h, e), is_live-inv state e)
  | inr e ↦ inr (first_live-IsLiveIn id states (ground (arith, h, e)))
]

choose_source-IsLiveIn :
    (s : Studio) (requested : Option ℕ) (saved : BroadcastConfig) (id : ℕ)
    → choose_source s requested saved ≡ inr id
    → IsLiveIn id s.source_states
unfolding choose_source
choose_source-IsLiveIn s requested saved id h =
    elim (Option-cases (or_else requested (or_else s.program_source saved.source_id))) [
      | inl e ↦ first_live-IsLiveIn id s.source_states (ground (arith, h, e))
      | inr (j, e) ↦
          let (same, on) : (j ≡ id) × (is_live (lookup s.source_states j) ≡ true) =
            ground (arith, h, e) in
          lookup-IsLiveIn id s.source_states (rw (← same) on)
    ]

is_idle-inv : (state : PipelineState) → is_idle state ≡ true → state ≡ idle
is_idle-inv state h = ground arith

-- The configuration of the broadcast that is saved, or the default one.
abbrev pub saved_of : World → Option String → BroadcastConfig
saved_of w row = unwrap_or (row >>= w.parse_broadcast) default_broadcast_config

-- The source is the one that is asked for, or else on the program, or else saved, if there is one.
abbrev pub Wanted : Option ℕ → Studio → BroadcastConfig → ℕ → Type 0
Wanted (some j) s saved id = j ≡ id
Wanted none s saved id = (j : ℕ) → or_else s.program_source saved.source_id ≡ some j → j ≡ id

choose_source-Wanted :
    (s : Studio) (requested : Option ℕ) (saved : BroadcastConfig) (id : ℕ)
    → choose_source s requested saved ≡ inr id
    → Wanted requested s saved id
unfolding choose_source
choose_source-Wanted s (some j) saved id h = ground (arith, h)
choose_source-Wanted s none saved id h = λ j e. ground (arith, h, e)

-- What a start that is not refused has found and done.
pub record WentLive (w : World) (s s' : Studio) (id : ℕ) (saved : BroadcastConfig)
    (rows : List DestRow) : Type 0 where
  pub was_idle : s.pipeline.state ≡ idle
  pub source_is_live : IsLiveIn id s.source_states
  pub source_streams : is_none (lookup s.media_relays id) ≡ false
  pub listed : s.db.destinations ≡ inr rows
  pub intends : s'.program_intent ≡ some id
  pub starts : s'.pipeline.state ≡ starting
  pub feeds :
      (dest : ℕ)
      → lookup s'.egress.processes dest
        ≡ or_else
            (served
              (saved_output_config w.parse_output s.db.output_config)
              (lookup s.sequence_headers id)
              (selected saved.destination_ids rows)
              dest)
            (lookup s.egress.processes dest)

on_air_egress :
    (w : World) (id : ℕ) (saved : BroadcastConfig) (destinations : List Destination) (s : Studio)
    → let params : RestartParams = record {
      destinations = destinations;
      media_tx = s.program_tx;
      output_config = saved_output_config w.parse_output s.db.output_config;
    } in
      ((go_on_air w id saved destinations s).egress
        ≡ (Egress.start w.spawn w.now params (lookup s.sequence_headers id) s.egress).1)
      × ((go_on_air w id saved destinations s).program_intent ≡ some id)
      × ((go_on_air w id saved destinations s).pipeline.state ≡ starting)
unfolding go_on_air ensure_channel_hls Pipeline.start Pipeline.activate_scene
on_air_egress w id saved destinations s = elim (Option-cases saved.scene_id) [
  | inl e ↦ rw (go_on_air, e) (refl, refl, refl)
  | inr (scene_id, e) ↦ rw (go_on_air, e) (refl, refl, refl)
]

on_air-WentLive :
    (w : World) (id : ℕ) (saved : BroadcastConfig) (rows : List DestRow) (s : Studio)
    → Spawns w.spawn
    → s.pipeline.state ≡ idle
    → IsLiveIn id s.source_states
    → is_none (lookup s.media_relays id) ≡ false
    → s.db.destinations ≡ inr rows
    → WentLive w s (go_on_air w id saved (selected saved.destination_ids rows) s) id saved rows
on_air-WentLive w id saved rows s spawns calm on streams listed =
    let destinations = selected saved.destination_ids rows in
    let params : RestartParams = record {
      destinations = destinations;
      media_tx = s.program_tx;
      output_config = saved_output_config w.parse_output s.db.output_config;
    } in
    let (egress, intends, starts) = on_air_egress w id saved destinations s in
    record {
      was_idle = calm;
      source_is_live = on;
      source_streams = streams;
      listed = listed;
      intends = intends;
      starts = starts;
      feeds = λ dest.
          ap (λ m. lookup m.processes dest) egress
          ∙ (start_serves w.spawn w.now params (lookup s.sequence_headers id) s.egress spawns).1
              dest;
    }

-- A start that is not refused found the pipeline idle and a live source with a relay, and has put
-- that source on the program's intent and the pipeline into starting. The source is the one that is
-- asked for, or else on the program, or else saved, if there is one; every destination that the saved
-- configuration selects, if it is enabled and pushed, is fed with the saved encoder settings and that source's headers, and
-- other ids keep what they had, where ffmpeg starts.
pub start-WentLive :
    (w : World) (requested : Option ℕ) (s : Studio)
    → Spawns w.spawn
    → (start w requested s).0 ≡ none
    → (row : Option String) × (id : ℕ) × (rows : List DestRow) × (s.db.broadcast_config ≡ inr row)
      × Wanted requested s (saved_of w row) id
      × WentLive w s (start w requested s).1 id (saved_of w row) rows
unfolding start
start-WentLive w requested s spawns h = elim (Sum-cases s.db.broadcast_config) [
  | inl (e, no_config) ↦ absurd (ground (arith, h, no_config))
  | inr (row, config) ↦
      let saved = unwrap_or (row >>= w.parse_broadcast) default_broadcast_config in
      elim (Sum-cases (choose_source s requested saved)) [
        | inl (e, no_source) ↦ absurd (ground (arith, h, config, no_source))
        | inr (id, chosen) ↦ elim (Sum-cases s.db.destinations) [
          | inl (e, no_rows) ↦ absurd (ground (arith, h, config, chosen, no_rows))
          | inr (rows, listed) ↦
              let (calm, streams) : (is_idle s.pipeline.state ≡ true)
                  × (is_none (lookup s.media_relays id) ≡ false) =
                ground (arith, h, config, chosen, listed) in
              let outcome : (start w requested s).1
                  ≡ go_on_air w id saved (selected saved.destination_ids rows) s =
                ground (arith, calm, config, chosen, listed, streams) in
              (
                row,
                id,
                rows,
                config,
                choose_source-Wanted s requested saved id chosen,
                subst (λ s'. WentLive w s s' id saved rows) (sym outcome)
                    (on_air-WentLive w id saved rows s spawns (is_idle-inv s.pipeline.state calm)
                      (choose_source-IsLiveIn s requested saved id chosen) streams listed),
              )
        ]
      ]
]
