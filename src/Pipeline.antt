-- ===== src/Pipeline.antt =====
-- crates/processor/src/stub.rs: the pipeline controller that the server runs with. Its two mutexes
-- and its events (newest first) are a record; the tasks that it spawns are pending until their sleep
-- is over, and `fire` runs one. Its operations never fail.
pub mod Announced
pub mod Settling
mod Examples
use shed.Prelude.{get_elem?, ℕ, zero, suc, String, true, false, none, some, List, [], ◌∷◌, ◌++◌}
use shed.Types.{
  PipelineState, idle, starting, live, transitioning, stopping, error, RecordingState, WsEvent,
  pipeline_state, recording_state, transition_started, transition_complete,
}

-- What a task does when its sleep is over.
pub data Delayed : Type 0 where
  go_live go_idle : Delayed
  finish_transition : (scene_id : ℕ) → Delayed

pub record Pipeline : Type 0 where
  pub state : PipelineState
  pub recording : RecordingState
  pub ws : List WsEvent
  pub tasks : List Delayed

abbrev not_recording : RecordingState
not_recording = record { recording = false; path = none; started_at = none }

unfoldable pub new : List WsEvent → Pipeline
new ws = record { state = idle; recording = not_recording; ws = ws; tasks = [] }

-- A new state, announced.
abbrev set_state : PipelineState → Pipeline → Pipeline
set_state state p = record p { state = state; ws = pipeline_state state ∷ p.ws }

abbrev spawn : Delayed → Pipeline → Pipeline
spawn task p = record p { tasks = p.tasks ++ (task ∷ []) }

-- The destinations are not used.
unfoldable pub start : Pipeline → Pipeline
start p = spawn go_live (set_state starting p)

unfoldable pub stop : Pipeline → Pipeline
stop p = spawn go_idle (set_state stopping p)

-- A live state's scene; other states have none.
abbrev to_scene : ℕ → Pipeline → Pipeline
to_scene scene_id p = elim p.state [
  | live started_at active_scene ↦ set_state (live started_at scene_id) p
  | idle ↦ p
  | starting ↦ p
  | transitioning stinger_id target_scene ↦ p
  | stopping ↦ p
  | error message ↦ p
]

unfoldable pub activate_scene : ℕ → Pipeline → Pipeline
activate_scene scene_id p = to_scene scene_id p

unfoldable pub start_recording : ℕ → String → Pipeline → Pipeline
start_recording now path p = record p {
  recording = record { recording = true; path = some path; started_at = some now };
  ws = recording_state true (some path) ∷ p.ws;
}

unfoldable pub stop_recording : Pipeline → Pipeline
stop_recording p = record p { recording = not_recording; ws = recording_state false none ∷ p.ws }

unfoldable pub trigger_stinger_transition : ℕ → ℕ → Pipeline → Pipeline
trigger_stinger_transition stinger_id target_scene_id p =
    spawn (finish_transition target_scene_id)
      (record p { ws = transition_started stinger_id target_scene_id ∷ p.ws })

-- The end of a task, at a time.
unfoldable pub run_delayed : ℕ → Delayed → Pipeline → Pipeline
run_delayed now go_live p = set_state (live now 0) p
run_delayed now go_idle p = set_state idle p
run_delayed now (finish_transition scene_id) p =
    let p' = to_scene scene_id p in record p' { ws = transition_complete scene_id ∷ p'.ws }

unfoldable pub remove_at : ℕ → List Delayed → List Delayed
remove_at i [] = []
remove_at zero (task ∷ tasks) = tasks
remove_at (suc i) (task ∷ tasks) = task ∷ remove_at i tasks

-- The task at a position ends; none there, nothing happens.
unfoldable pub fire : ℕ → ℕ → Pipeline → Pipeline
fire now i p = elim (get_elem? p.tasks i) [
  | none ↦ p
  | some task ↦ run_delayed now task (record p { tasks = remove_at i p.tasks })
]

-- `recording_path` is the path's text.
pub data Op : Type 0 where
  op_start op_stop op_stop_recording : Op
  op_activate_scene : (scene_id : ℕ) → Op
  op_start_recording : (recording_path : String) → Op
  op_transition : (stinger_id target_scene_id : ℕ) → Op
  op_fire : (position : ℕ) → Op

unfoldable pub step : ℕ → Op → Pipeline → Pipeline
step now op_start p = start p
step now op_stop p = stop p
step now op_stop_recording p = stop_recording p
step now (op_activate_scene scene_id) p = activate_scene scene_id p
step now (op_start_recording recording_path) p = start_recording now recording_path p
step now (op_transition stinger_id target_scene_id) p =
    trigger_stinger_transition stinger_id target_scene_id p
step now (op_fire position) p = fire now position p

unfoldable pub run : List (ℕ × Op) → Pipeline → Pipeline
run [] p = p
run ((now, op) ∷ history) p = run history (step now op p)
