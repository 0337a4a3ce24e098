-- ===== src/Failover/Timing.antt =====
-- When the supervisor switches: crates/api/src/failover.rs.
use shed.Failover.{
  set_failover, route, ensure_fallback_running, Env, Out, Monitor, Event, monitoring, evaluate,
  supervisor_step, supervisor_run, intent_changed, tick, lagged, closed, frame, monitor_step,
  monitor_start, fail_over, restore, is_video_tag, frame_arm, tick_arm, load_config, threshold,
  dark_for, recovered,
}
use shed.Failover.Cases.{tick_cases}
use shed.Types.{FailoverConfig}
use shed.Prelude.{
  ltb, leb, if◌then◌else◌, All, ℕ, ◌+◌, ◌≤◌, ◌<◌, ◌≡◌, refl, ap, ◌∙◌, ◌≢◌, true, false, not, ◌&&◌,
  some, List, [], ◌∷◌, ◌++◌, arith,
}

-- The tick decides by the two clocks alone: off air it fails over exactly when the intended source
-- has been dark for longer than its threshold; on the fallback it restores exactly when the source
-- is not dark for more than 750 ms and has been back for longer than the recovery period.
pub tick_decides :
    (env : Env) (m : Monitor) (out : Out)
    → (tick_arm env m out).0.showing_fallback ≡ (
        if m.showing_fallback
        then not (leb (dark_for env m) 750 && recovered env m)
        else ltb (threshold m) (dark_for env m))
unfolding tick_arm fail_over restore
tick_decides env m out = ground arith

-- Events in which the intended source gives no video.
abbrev pub IsSilent : Event → Type 0
IsSilent intent_changed = ⊥
IsSilent (frame bytes) = is_video_tag bytes ≡ false
IsSilent _ = Unit

-- What silence leaves as it was.
record Kept (m m' : Monitor) : Type 0 where
  intended_eq : m'.intended ≡ m.intended
  fallback_eq : m'.fallback ≡ m.fallback
  last_video_eq : m'.last_video ≡ m.last_video
  ever_live_eq : m'.ever_live ≡ m.ever_live
  offline_eq : m'.offline ≡ m.offline
  startup_eq : m'.startup_grace ≡ m.startup_grace

tick_arm-Kept : (env : Env) (m : Monitor) (out : Out) → Kept m (tick_arm env m out).0
unfolding tick_arm fail_over restore
tick_arm-Kept env m out = ground arith

silent-Kept :
    (env : Env) (m : Monitor) (out : Out) (e : Event)
    → IsSilent e
    → Kept m (monitor_step env (m, out) e).0
unfolding monitor_step frame_arm
silent-Kept env m out tick h = tick_arm-Kept env m out
silent-Kept env m out (frame bytes) h = ground arith
silent-Kept env m out lagged h = ground arith
silent-Kept env m out closed h = ground arith
silent-Kept env m out intent_changed h = absurd h

silent_step :
    (env : Env) (p : Monitor × Out) (e : Event)
    → IsSilent e
    → supervisor_step env (monitoring p) e ≡ monitoring (monitor_step env p e)
unfolding supervisor_step
silent_step env (m, out) tick h = refl
silent_step env (m, out) (frame bytes) h = refl
silent_step env (m, out) lagged h = refl
silent_step env (m, out) closed h = refl
silent_step env (m, out) intent_changed h = absurd h

-- A monitor whose graces are those that the supervisor sets.
abbrev pub HasGraces : Monitor → Type 0
HasGraces m = (m.offline ≤ m.startup_grace) × (5000 ≤ m.startup_grace)

-- A monitor that shows the fallback has put it on the program.
abbrev pub IsRouted : Monitor × Out → Type 0
IsRouted (m, out) = m.showing_fallback ≡ true → out.program_source ≡ some m.fallback

tick_arm-IsRouted :
    (env : Env) (m : Monitor) (out : Out) → IsRouted (m, out) → IsRouted (tick_arm env m out)
unfolding fail_over restore set_failover route
tick_arm-IsRouted env m out h =
    tick_cases IsRouted env m out (λ s d e. refl) (λ s d. h) (λ s d r e. absurd (ground arith))
      (λ s d r. h) (λ s d. h)

late_tick :
    (env : Env) (m : Monitor) (out : Out)
    → HasGraces m
    → m.last_video + m.startup_grace < env.now
    → IsRouted (m, out)
    → ((tick_arm env m out).0.showing_fallback ≡ true)
      × ((tick_arm env m out).1.program_source ≡ some m.fallback)
late_tick env m out graces late routed =
    let shown : (tick_arm env m out).0.showing_fallback ≡ true =
      ground (arith, tick_decides env m out) in
    (
      shown,
      tick_arm-IsRouted env m out routed shown
          ∙ ap (λ f. some f) (tick_arm-Kept env m out).fallback_eq,
    )

silent-IsRouted :
    (env : Env) (m : Monitor) (out : Out) (e : Event)
    → IsSilent e
    → IsRouted (m, out)
    → IsRouted (monitor_step env (m, out) e)
unfolding monitor_step frame_arm
silent-IsRouted env m out tick s h = tick_arm-IsRouted env m out h
silent-IsRouted env m out lagged s h = h
silent-IsRouted env m out closed s h = h
silent-IsRouted env m out (frame bytes) s h = λ e. ground (arith, h, e)
silent-IsRouted env m out intent_changed s h = absurd s

-- A source that stays dark is replaced. From any state of a monitor that has the program on the
-- fallback when it shows it, after any turns without a video
-- tag from the intended source and without a change of intent, a tick later than the startup grace
-- after the last video leaves the program on the fallback.
pub dark_source_fails_over :
    (history : List (Env × Event)) (env : Env) (m : Monitor) (out : Out)
    → All (λ t. IsSilent t.1) history
    → HasGraces m
    → m.last_video + m.startup_grace < env.now
    → IsRouted (m, out)
    → (p : Monitor × Out) × (supervisor_run (history ++ ((env, tick) ∷ [])) (monitoring (m, out))
        ≡ monitoring p)
      × (p.0.showing_fallback ≡ true)
      × (p.1.program_source ≡ some m.fallback)
unfolding supervisor_run monitor_step
dark_source_fails_over [] env m out silent graces late routes =
    let (shown, routed) = late_tick env m out graces late routes in
    (tick_arm env m out, silent_step env (m, out) tick tt, shown, routed)
dark_source_fails_over ((env', e) ∷ history) env m out (s, silent) graces late routes =
    let q = monitor_step env' (m, out) e in
    let kept : Kept m q.0 = silent-Kept env' m out e s in
    let (p, run, shown, routed) =
      dark_source_fails_over history env q.0 q.1 silent (omega arith) (omega arith)
        (silent-IsRouted env' m out e s routes) in
    (
      p,
      ap (supervisor_run (history ++ ((env, tick) ∷ []))) (silent_step env' (m, out) e s) ∙ run,
      shown,
      routed ∙ ap (λ f. some f) kept.fallback_eq,
    )

quiet_start :
    (env later : Env) (intended fallback : ℕ) (cfg : FailoverConfig) (out : Out)
    → later.now ≤ env.now + 5000
    → let q = monitor_start env intended fallback cfg out in
      ((tick_arm later q.0 q.1).0.showing_fallback ≡ false)
      × ((tick_arm later q.0 q.1).1.program_source ≡ some intended)
      × ((tick_arm later q.0 q.1).1.failover_active ≡ false)
unfolding monitor_start tick_arm set_failover route
quiet_start env later intended fallback cfg out soon = ground arith

-- A change of the configuration while the fallback is on air takes it off: the configuration's save
-- wakes the supervisor with the intent unchanged, the monitor starts anew on the intended source,
-- dark as it is, and no tick within the next five seconds brings the fallback back.
pub config_save_drops_failover :
    (env later : Env) (m : Monitor) (out : Out) (fallback intended : ℕ)
    → env.intent ≡ some intended
    → (load_config env).enabled ≡ true
    → (load_config env).fallback_source_id ≡ some fallback
    → fallback ≢ intended
    → later.now ≤ env.now + 5000
    → (p : Monitor × Out) × (supervisor_run
          ((env, intent_changed) ∷ (later, tick) ∷ [])
          (monitoring (m, out))
        ≡ monitoring p)
      × (p.0.showing_fallback ≡ false)
      × (p.1.program_source ≡ some intended)
      × (p.1.failover_active ≡ false)
unfolding supervisor_run supervisor_step monitor_step evaluate
config_save_drops_failover env later m out fallback intended wants on has other soon =
    let out' = ensure_fallback_running env fallback out in
    let q = monitor_start env intended fallback (load_config env) out' in
    let started : evaluate env out ≡ monitoring q = ground arith in
    let quiet = quiet_start env later intended fallback (load_config env) out' soon in
    (
      tick_arm later q.0 q.1,
      ap (λ s. supervisor_step later s tick) started,
      quiet.0,
      quiet.1,
      quiet.2,
    )
