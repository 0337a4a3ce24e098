-- ===== src/Failover/Examples.antt =====
-- Tests and instances for the failover supervisor.
use shed.Prelude.{ltb, ℕ, ◌≡◌, refl, true, false, none, some, [], ◌∷◌, arith}
use shed.Types.{FailoverConfig}
use shed.Failover.{
  Env, Out, Monitor, monitoring, supervisor_run, evaluate, tick, frame, lagged, monitor_start,
  load_config, set_failover, route, ensure_fallback_running,
}
use shed.Failover.Coherent.{IsCoherent, supervisor_run-IsCoherent}
use shed.Failover.Timing.{dark_source_fails_over}

-- Source 1 with fallback 2, both with relays.
abbrev config : FailoverConfig
config = record {
  enabled = true;
  fallback_source_id = some 2;
  offline_grace_ms = 3000;
  recovery_grace_ms = 3000;
}

abbrev at_ms : ℕ → Env
at_ms now = record {
  now = now;
  intent = some 1;
  has_relay = λ s. ltb s 3;
  setting = some "saved";
  from_str = λ s. some config;
  kind_of = λ s. none;
}

abbrev off_air : Out
off_air = record {
  program_source = none;
  failover_active = false;
  ws = [];
  restarts = [];
  playbacks = [];
}

abbrev watching : Monitor × Out
watching = (
  record {
    intended = 1;
    fallback = 2;
    offline = 3000;
    recovery = 3000;
    startup_grace = 5000;
    subscribed = true;
    last_video = 1000;
    recovering_since = none;
    showing_fallback = false;
    ever_live = true;
  },
  record off_air { program_source = some 1 },
)

monitor_starts :
    evaluate (at_ms 1000) off_air
    ≡ monitoring (
      record {
        intended = 1;
        fallback = 2;
        offline = 3000;
        recovery = 3000;
        startup_grace = 5000;
        subscribed = true;
        last_video = 1000;
        recovering_since = none;
        showing_fallback = false;
        ever_live = false;
      },
      record off_air { program_source = some 1 },
    )
unfolding evaluate monitor_start set_failover route ensure_fallback_running load_config
monitor_starts = refl

watching-IsCoherent : IsCoherent (some 1) (monitoring watching)
watching-IsCoherent = (refl, refl, refl, refl, λ e. refl, refl)

supervisor_run-IsCoherent_example : IsCoherent (some 1) (
    supervisor_run
      ((at_ms 4001, tick) ∷ (at_ms 4002, frame (9 ∷ [])) ∷ (at_ms 4600, tick) ∷ [])
      (monitoring watching))
supervisor_run-IsCoherent_example =
    supervisor_run-IsCoherent
      ((at_ms 4001, tick) ∷ (at_ms 4002, frame (9 ∷ [])) ∷ (at_ms 4600, tick) ∷ [])
      (monitoring watching) (some 1) watching-IsCoherent

dark_source_fails_over_example :
    (p : Monitor × Out) × (supervisor_run
        ((at_ms 2000, tick) ∷ (at_ms 2100, lagged) ∷ (at_ms 6001, tick) ∷ [])
        (monitoring watching)
      ≡ monitoring p)
    × (p.0.showing_fallback ≡ true)
    × (p.1.program_source ≡ some 2)
dark_source_fails_over_example =
    dark_source_fails_over ((at_ms 2000, tick) ∷ (at_ms 2100, lagged) ∷ []) (at_ms 6001) watching.0
      watching.1 (tt, (tt, tt)) (omega arith) (omega arith) (λ e. absurd (ground arith))

-- The fallback is on air when the configuration is saved.
abbrev on_fallback : Monitor × Out
on_fallback = (
  record {
    intended = 1;
    fallback = 2;
    offline = 3000;
    recovery = 3000;
    startup_grace = 5000;
    subscribed = true;
    last_video = 1000;
    recovering_since = none;
    showing_fallback = true;
    ever_live = true;
  },
  record off_air { program_source = some 2; failover_active = true },
)
