-- ===== src/Pipeline/Examples.antt =====
-- Tests and instances for the pipeline controller.
use shed.Prelude.{ℕ, ◌≡◌, refl, List, [], ◌∷◌}
use shed.Types.{live}
use shed.Pipeline.{
  Pipeline, finish_transition, Op, op_start, op_fire, op_activate_scene, new, start, activate_scene,
  fire, run_delayed, step, run,
}
use shed.Pipeline.Announced.{IsAnnounced, run-IsAnnounced}

abbrev fresh : Pipeline
unfolding new
fresh = new []

-- Start, live after half a second, another scene.
abbrev going_live : List (ℕ × Op)
going_live = (0, op_start) ∷ (500, op_fire 0) ∷ (600, op_activate_scene 3) ∷ []

live_on_scene : (run going_live fresh).state ≡ live 500 3
unfolding run step start fire run_delayed activate_scene new
live_on_scene = refl

run-IsAnnounced_example : IsAnnounced (run going_live fresh)
unfolding new
run-IsAnnounced_example = run-IsAnnounced going_live fresh (refl, refl)

-- On air with a transition under way.
abbrev on_air : Pipeline
unfolding new
on_air = record (new []) { state = live 500 3; tasks = finish_transition 9 ∷ [] }
