-- ===== src/Pipeline/Announced.antt =====
-- What the clients of the event stream know: crates/processor/src/stub.rs.
use shed.Prelude.{
  Option-cases, get_elem?, ℕ, String, ◌≡◌, refl, inl, inr, Bool, false, Option, none, List, [], ◌∷◌,
  arith,
}
use shed.Types.{PipelineState, idle, WsEvent, pipeline_state, recording_state}
use shed.Pipeline.{
  Pipeline, Delayed, go_live, go_idle, finish_transition, Op, op_start, op_stop, op_stop_recording,
  op_activate_scene, op_start_recording, op_transition, op_fire, start, stop, activate_scene,
  start_recording, stop_recording, trigger_stinger_transition, run_delayed, fire, remove_at, step,
  run,
}

-- The state that the newest announcement of one gives, idle before any.
abbrev pub announced : List WsEvent → PipelineState
announced [] = idle
announced (pipeline_state state ∷ ws) = state
announced (_ ∷ ws) = announced ws

-- Likewise whether and where a recording runs.
abbrev pub announced_recording : List WsEvent → Bool × Option String
announced_recording [] = (false, none)
announced_recording (recording_state recording path ∷ ws) = (recording, path)
announced_recording (_ ∷ ws) = announced_recording ws

abbrev pub IsAnnounced : Pipeline → Type 0
IsAnnounced p =
    (announced p.ws ≡ p.state)
    × (announced_recording p.ws ≡ (p.recording.recording, p.recording.path))

to_scene-IsAnnounced :
    (scene_id : ℕ) (p : Pipeline) → IsAnnounced p → IsAnnounced (activate_scene scene_id p)
unfolding activate_scene
to_scene-IsAnnounced scene_id p h = ground arith

run_delayed-IsAnnounced :
    (now : ℕ) (task : Delayed) (p : Pipeline) → IsAnnounced p → IsAnnounced (run_delayed now task p)
unfolding run_delayed activate_scene
run_delayed-IsAnnounced now go_live p h = (refl, h.1)
run_delayed-IsAnnounced now go_idle p h = (refl, h.1)
run_delayed-IsAnnounced now (finish_transition scene_id) p h = to_scene-IsAnnounced scene_id p h

fire-IsAnnounced : (now i : ℕ) (p : Pipeline) → IsAnnounced p → IsAnnounced (fire now i p)
unfolding fire
fire-IsAnnounced now i p h = elim (Option-cases (get_elem? p.tasks i)) [
  | inl e ↦ rw (fire, e) h
  | inr (task, e) ↦
      rw (fire, e) (run_delayed-IsAnnounced now task (record p { tasks = remove_at i p.tasks }) h)
]

step-IsAnnounced : (now : ℕ) (op : Op) (p : Pipeline) → IsAnnounced p → IsAnnounced (step now op p)
unfolding step start stop start_recording stop_recording trigger_stinger_transition
step-IsAnnounced now op_start p h = (refl, h.1)
step-IsAnnounced now op_stop p h = (refl, h.1)
step-IsAnnounced now op_stop_recording p h = (h.0, refl)
step-IsAnnounced now (op_activate_scene scene_id) p h = to_scene-IsAnnounced scene_id p h
step-IsAnnounced now (op_start_recording recording_path) p h = (h.0, refl)
step-IsAnnounced now (op_transition stinger_id target_scene_id) p h = h
step-IsAnnounced now (op_fire position) p h = fire-IsAnnounced now position p h

-- Whatever operations come in whatever order, and whichever pending task ends when, the newest
-- announcements of a pipeline state and of a recording are the controller's own state and recording.
pub run-IsAnnounced :
    (history : List (ℕ × Op)) (p : Pipeline) → IsAnnounced p → IsAnnounced (run history p)
unfolding run
run-IsAnnounced [] p h = h
run-IsAnnounced ((now, op) ∷ history) p h =
    run-IsAnnounced history (step now op p) (step-IsAnnounced now op p h)
