-- ===== src/Failover/Coherent.antt =====
-- What holds of the supervisor at every moment: crates/api/src/failover.rs.
use mathlib.Core.Path.{subst}
use shed.Prelude.{
  ◌==◌, sym, if◌then◌else◌, unwrap_or, ℕ, ◌≡◌, refl, Bool, true, false, not, Option, none, some,
  List, [], ◌∷◌, arith, if_cases,
}
use shed.Failover.{
  Env, Out, Monitor, Event, Supervisor, passthrough, monitoring, evaluate, supervisor_step,
  supervisor_run, intent_changed, tick, lagged, closed, frame, monitor_step, monitor_start,
  fail_over, restore, tick_arm, frame_arm, load_config, is_passthrough, set_failover, route,
  ensure_fallback_running, is_video_tag,
}
use shed.Failover.Cases.{tick_cases, resubscribed}
use shed.Types.{FailoverConfig, WsEvent, failover_state}

-- The announcements, newest first, alternate, and the newest says what the flag is.
abbrev pub Alternates : Bool → List WsEvent → Type 0
Alternates active [] = active ≡ false
Alternates active (failover_state said fallback intent ∷ ws) =
    (said ≡ active) × Alternates (not active) ws
Alternates active (_ ∷ ws) = ⊥

push-Alternates :
    (active flag : Bool) (fallback intent : Option ℕ) (ws : List WsEvent)
    → Alternates flag ws
    → Alternates active (
        if (if active then not flag else flag)
        then failover_state active fallback intent ∷ ws
        else ws)
push-Alternates true true fallback intent ws h = h
push-Alternates true false fallback intent ws h = (refl, h)
push-Alternates false true fallback intent ws h = (refl, h)
push-Alternates false false fallback intent ws h = h

-- The state that the operators see agrees with what the supervisor does, for the source that the operators intend: the program is
-- on the fallback exactly while the flag is up, and the fallback is another source.
abbrev pub IsCoherent : Option ℕ → Supervisor → Type 0
IsCoherent intent (passthrough out) =
    (out.program_source ≡ intent)
    × (out.failover_active ≡ false)
    × Alternates out.failover_active out.ws
IsCoherent intent (monitoring (m, out)) =
    (intent ≡ some m.intended)
    × ((m.fallback == m.intended) ≡ false)
    × (out.program_source ≡ (if out.failover_active then some m.fallback else intent))
    × (out.failover_active ≡ m.showing_fallback)
    × (m.showing_fallback ≡ false → m.recovering_since ≡ none)
    × Alternates out.failover_active out.ws

-- The intent that the supervisor has been told last.
abbrev pub last_intent : Option ℕ → List (Env × Event) → Option ℕ
last_intent intent [] = intent
last_intent intent ((env, intent_changed) ∷ history) = last_intent env.intent history
last_intent intent ((env, tick) ∷ history) = last_intent intent history
last_intent intent ((env, lagged) ∷ history) = last_intent intent history
last_intent intent ((env, closed) ∷ history) = last_intent intent history
last_intent intent ((env, frame bytes) ∷ history) = last_intent intent history

ensure_fallback_running_frame :
    (env : Env) (fallback : ℕ) (out : Out)
    → ((ensure_fallback_running env fallback out).program_source ≡ out.program_source)
      × ((ensure_fallback_running env fallback out).failover_active ≡ out.failover_active)
      × ((ensure_fallback_running env fallback out).ws ≡ out.ws)
unfolding ensure_fallback_running
ensure_fallback_running_frame env fallback out = ground arith

fail_over-IsCoherent :
    (env : Env) (m : Monitor) (out : Out) (intent : Option ℕ)
    → intent ≡ some m.intended
    → (m.fallback == m.intended) ≡ false
    → Alternates out.failover_active out.ws
    → IsCoherent intent (monitoring (fail_over env m out))
unfolding set_failover route fail_over
fail_over-IsCoherent env m out intent meant other h =
    let frame = ensure_fallback_running_frame env m.fallback out in
    (
      meant,
      other,
      refl,
      refl,
      λ e. absurd (ground arith),
      rw (frame.1, frame.2)
          (push-Alternates true out.failover_active (some m.fallback) (some m.intended) out.ws h),
    )

restore-IsCoherent :
    (m : Monitor) (out : Out) (intent : Option ℕ)
    → intent ≡ some m.intended
    → (m.fallback == m.intended) ≡ false
    → Alternates out.failover_active out.ws
    → IsCoherent intent (monitoring (restore m out))
unfolding restore set_failover route
restore-IsCoherent m out intent meant other h = (
  meant,
  other,
  sym meant,
  refl,
  λ e. refl,
  push-Alternates false out.failover_active (some m.fallback) (some m.intended) out.ws h,
)

pub tick_arm-IsCoherent :
    (env : Env) (m : Monitor) (out : Out) (intent : Option ℕ)
    → IsCoherent intent (monitoring (m, out))
    → IsCoherent intent (monitoring (tick_arm env m out))
tick_arm-IsCoherent env m out intent (meant, other, routed, flag, quiet, log) =
    tick_cases (λ p. IsCoherent intent (monitoring p)) env m out
      (λ s d. fail_over-IsCoherent env (resubscribed env m) out intent meant other log)
      (λ s d. (meant, other, routed, flag, λ e. refl, log))
      (λ s d r. restore-IsCoherent (resubscribed env m) out intent meant other log)
      (λ s d r. (meant, other, routed, flag, quiet, log))
      (λ s d. (meant, other, routed, flag, quiet, log))

frame_arm-IsCoherent :
    (env : Env) (m : Monitor) (out : Out) (intent : Option ℕ) (bytes : List ℕ)
    → IsCoherent intent (monitoring (m, out))
    → IsCoherent intent (monitoring (frame_arm env m bytes, out))
unfolding frame_arm
frame_arm-IsCoherent env m out intent bytes (meant, other, routed, flag, quiet, log) =
    if_cases (λ q. IsCoherent intent (monitoring (q, out))) (is_video_tag bytes) _ m
      (λ e. (meant, other, routed, flag, λ e. ground (arith, quiet), log))
      (λ e. (meant, other, routed, flag, quiet, log))

-- What a monitored source and its fallback are.
monitored :
    (cfg : FailoverConfig) (intent : Option ℕ)
    → is_passthrough cfg intent ≡ false
    → (intent ≡ some (unwrap_or intent 0))
      × ((unwrap_or cfg.fallback_source_id 0 == unwrap_or intent 0) ≡ false)
monitored cfg intent h = ground (arith, h)

evaluate-IsCoherent :
    (env : Env) (out : Out)
    → Alternates out.failover_active out.ws
    → IsCoherent env.intent (evaluate env out)
unfolding evaluate route set_failover monitor_start
evaluate-IsCoherent env out log =
    let cfg = load_config env in
    let fallback = unwrap_or cfg.fallback_source_id 0 in
    let frame = ensure_fallback_running_frame env fallback out in
    if_cases (IsCoherent env.intent) (is_passthrough cfg env.intent) _ _
      (λ h. (
        refl,
        refl,
        push-Alternates false out.failover_active cfg.fallback_source_id env.intent out.ws log,
      ))
      (λ h.
        let (meant, other) = monitored cfg env.intent h in
        (
          meant,
          other,
          sym meant,
          refl,
          λ e. refl,
          rw (frame.1, frame.2)
              (push-Alternates false out.failover_active (some fallback)
                (some (unwrap_or env.intent 0)) out.ws log),
        ))

pub supervisor_step-IsCoherent :
    (env : Env) (s : Supervisor) (intent : Option ℕ) (e : Event)
    → IsCoherent intent s
    → IsCoherent (last_intent intent ((env, e) ∷ [])) (supervisor_step env s e)
unfolding supervisor_step monitor_step tick_arm
supervisor_step-IsCoherent env (passthrough out) intent intent_changed h =
    evaluate-IsCoherent env out h.2
supervisor_step-IsCoherent env (passthrough out) intent tick h = h
supervisor_step-IsCoherent env (passthrough out) intent lagged h = h
supervisor_step-IsCoherent env (passthrough out) intent closed h = h
supervisor_step-IsCoherent env (passthrough out) intent (frame bytes) h = h
supervisor_step-IsCoherent env (monitoring (m, out)) intent intent_changed h =
    evaluate-IsCoherent env out h.5
supervisor_step-IsCoherent env (monitoring (m, out)) intent tick h =
    tick_arm-IsCoherent env m out intent h
supervisor_step-IsCoherent env (monitoring (m, out)) intent lagged h = h
supervisor_step-IsCoherent env (monitoring (m, out)) intent closed h = h
supervisor_step-IsCoherent env (monitoring (m, out)) intent (frame bytes) h =
    if_cases (λ q. IsCoherent intent (monitoring (q, out))) m.subscribed (frame_arm env m bytes) m
      (λ e. frame_arm-IsCoherent env m out intent bytes h) (λ e. h)

last_intent_cons :
    (intent : Option ℕ) (env : Env) (e : Event) (history : List (Env × Event))
    → last_intent intent ((env, e) ∷ history)
      ≡ last_intent (last_intent intent ((env, e) ∷ [])) history
last_intent_cons intent env intent_changed history = refl
last_intent_cons intent env tick history = refl
last_intent_cons intent env lagged history = refl
last_intent_cons intent env closed history = refl
last_intent_cons intent env (frame bytes) history = refl

-- After any history the program is on the source that was intended last, except exactly while the
-- failover flag is up: then a source is monitored, and the program is on its fallback, which is
-- another source. While nothing is monitored the flag is down; no recovery is timed while the
-- intended source is on air; and the announced states alternate and end with the flag, so that no
-- change is announced twice or left out.
pub supervisor_run-IsCoherent :
    (history : List (Env × Event)) (s : Supervisor) (intent : Option ℕ)
    → IsCoherent intent s
    → IsCoherent (last_intent intent history) (supervisor_run history s)
unfolding supervisor_run
supervisor_run-IsCoherent [] s intent h = h
supervisor_run-IsCoherent ((env, e) ∷ history) s intent h =
    subst (λ i. IsCoherent i (supervisor_run history (supervisor_step env s e)))
      (sym (last_intent_cons intent env e history))
      (supervisor_run-IsCoherent history (supervisor_step env s e)
        (last_intent intent ((env, e) ∷ [])) (supervisor_step-IsCoherent env s intent e h))
