-- ===== src/Pipeline/Settling.antt =====
-- How the controller comes to rest: crates/processor/src/stub.rs.
use shed.Prelude.{
  Option-cases, get_elem?, ℕ, ◌≡◌, refl, ap, ◌∙◌, ◌≢◌, inl, inr, some, List, [], ◌∷◌, arith,
}
use shed.Types.{idle}
use shed.Pipeline.{
  Pipeline, Delayed, go_live, go_idle, finish_transition, stop, activate_scene, run_delayed, Op,
  op_start, op_stop, op_stop_recording, op_activate_scene, op_start_recording, op_transition,
  op_fire, step, run, fire, start_recording, stop_recording, trigger_stinger_transition, remove_at,
}

-- An operation after which a pipeline that goes idle is idle: no start, no stop, and no end of a
-- task that makes it live.
abbrev pub IsQuiet : Pipeline → Op → Type 0
IsQuiet p op_start = ⊥
IsQuiet p op_stop = ⊥
IsQuiet p (op_fire position) = get_elem? p.tasks position ≢ some go_live
IsQuiet p _ = Unit

-- Every operation of a history is quiet where it comes.
abbrev pub AllQuiet : List (ℕ × Op) → Pipeline → Type 0
AllQuiet [] p = Unit
AllQuiet ((now, op) ∷ history) p = IsQuiet p op × AllQuiet history (step now op p)

delayed_idle :
    (now : ℕ) (task : Delayed) (p : Pipeline)
    → task ≢ go_live
    → p.state ≡ idle
    → (run_delayed now task p).state ≡ idle
unfolding run_delayed
delayed_idle now go_live p h e = absurd (h refl)
delayed_idle now go_idle p h e = refl
delayed_idle now (finish_transition scene_id) p h e = ground arith

fire_idle :
    (now i : ℕ) (p : Pipeline)
    → get_elem? p.tasks i ≢ some go_live
    → p.state ≡ idle
    → (fire now i p).state ≡ idle
unfolding fire
fire_idle now i p h e = elim (Option-cases (get_elem? p.tasks i)) [
  | inl none_there ↦ rw (fire, none_there) e
  | inr (task, there) ↦
      rw (fire, there)
        (delayed_idle now task (record p { tasks = remove_at i p.tasks })
          (λ q. h (there ∙ ap (λ t. some t) q)) e)
]

quiet_idle :
    (now : ℕ) (op : Op) (p : Pipeline)
    → IsQuiet p op
    → p.state ≡ idle
    → (step now op p).state ≡ idle
unfolding step activate_scene start_recording stop_recording trigger_stinger_transition
quiet_idle now op_start p h e = absurd h
quiet_idle now op_stop p h e = absurd h
quiet_idle now op_stop_recording p h e = e
quiet_idle now (op_activate_scene scene_id) p h e = ground arith
quiet_idle now (op_start_recording recording_path) p h e = e
quiet_idle now (op_transition stinger_id target_scene_id) p h e = e
quiet_idle now (op_fire position) p h e = fire_idle now position p h e

stays_idle :
    (history : List (ℕ × Op)) (p : Pipeline)
    → AllQuiet history p
    → p.state ≡ idle
    → (run history p).state ≡ idle
unfolding run
stays_idle [] p h e = e
stays_idle ((now, op) ∷ history) p h e =
    stays_idle history (step now op p) h.1 (quiet_idle now op p h.0 e)

fired :
    (later i : ℕ) (p : Pipeline)
    → get_elem? p.tasks i ≡ some go_idle
    → (fire later i p).state ≡ idle
unfolding fire run_delayed
fired later i p there = rw (fire, there) refl

-- A stop takes effect when its task ends: from then on the pipeline is idle, whatever scenes,
-- recordings and transitions are asked for and whichever tasks end, until a start, a stop or the end
-- of a start's task that was still pending.
pub stop_settles :
    (now later i : ℕ) (history : List (ℕ × Op)) (p : Pipeline)
    → get_elem? (stop p).tasks i ≡ some go_idle
    → AllQuiet history (fire later i (stop p))
    → (run ((now, op_stop) ∷ (later, op_fire i) ∷ history) p).state ≡ idle
unfolding run step stop
stop_settles now later i history p there quiet =
    stays_idle history (fire later i (stop p)) quiet (fired later i (stop p) there)
