-- ===== src/Failover.antt =====
-- crates/api/src/failover.rs: the program failover supervisor. Time is in milliseconds; the two
-- watch channels that it writes, the events that it sends (newest first), the egress restarts and
-- the playbacks that it asks for are its output. One turn of its `select!` is an event with what
-- the shared state holds at that moment (`Env`).
pub mod Cases
pub mod Coherent
pub mod Timing
mod Examples
use shed.Prelude.{
  ltb, ◌==◌, if◌then◌else◌, is_none, unwrap_or, option_eq, ℕ, ◌-◌, max, String, Bool, true, false,
  not, ◌&&◌, ◌||◌, Option, none, some, List, [], ◌∷◌, ◌>>=◌,
}
use shed.Flv.{flv_tag_video}
use shed.Types.{
  FailoverConfig, default_failover_config, SourceKind, WsEvent, failover_state, media_file, rtmp,
  srt, web_rtc, test_pattern, browser,
}

unfoldable pub is_video_tag : List ℕ → Bool
is_video_tag [] = false
is_video_tag (t ∷ bytes) = t == flv_tag_video

-- `setting` is the row of the `settings` table, none if it is missing or the query fails;
-- `from_str` is serde's parser; `kind_of` is the stored kind of a source, none if it is missing or
-- does not parse.
pub record Env : Type 0 where
  pub now : ℕ
  pub intent : Option ℕ
  pub has_relay : ℕ → Bool
  pub setting : Option String
  pub from_str : String → Option FailoverConfig
  pub kind_of : ℕ → Option SourceKind

unfoldable pub load_config : Env → FailoverConfig
load_config env = unwrap_or (env.setting >>= env.from_str) default_failover_config

pub record Out : Type 0 where
  pub program_source : Option ℕ
  pub failover_active : Bool
  pub ws : List WsEvent
  pub restarts : List ℕ
  pub playbacks : List (ℕ × String × String)

unfoldable pub route : Option ℕ → Out → Out
route source out = record out { program_source = source }

-- An event only if the flag changes.
unfoldable pub set_failover : Bool → Option ℕ → Option ℕ → Out → Out
set_failover active fallback intent out =
    let changed = if active then not out.failover_active else out.failover_active in
    record out {
      failover_active = active;
      ws = if changed then failover_state active fallback intent ∷ out.ws else out.ws;
    }

-- The file and loop mode of a media source.
abbrev media_of : SourceKind → Option (String × String)
media_of (media_file asset_id file_path loop_mode) = some (file_path, loop_mode)
media_of (rtmp stream_key) = none
media_of (srt port passphrase) = none
media_of (web_rtc token) = none
media_of test_pattern = none
media_of (browser url) = none

unfoldable pub ensure_fallback_running : Env → ℕ → Out → Out
ensure_fallback_running env fallback out =
    let media = env.kind_of fallback >>= media_of in
    if env.has_relay fallback then out else elim media [
      | none ↦ out
      | some (file_path, loop_mode) ↦ record out {
        playbacks = (fallback, file_path, loop_mode) ∷ out.playbacks;
      }
    ]

abbrev egress_restart_for : ℕ → Out → Out
egress_restart_for source out = record out { restarts = source ∷ out.restarts }

-- The local state of `monitor`; `subscribed` says that `rx` is a receiver.
pub record Monitor : Type 0 where
  pub intended : ℕ
  pub fallback : ℕ
  pub offline : ℕ
  pub recovery : ℕ
  pub startup_grace : ℕ
  pub subscribed : Bool
  pub last_video : ℕ
  pub recovering_since : Option ℕ
  pub showing_fallback : Bool
  pub ever_live : Bool

-- `monitor`, up to its loop.
unfoldable pub monitor_start : Env → ℕ → ℕ → FailoverConfig → Out → Monitor × Out
monitor_start env intended fallback cfg out =
    let offline = max cfg.offline_grace_ms 250 in
    (
      record {
        intended = intended;
        fallback = fallback;
        offline = offline;
        recovery = max cfg.recovery_grace_ms 250;
        startup_grace = max offline 5000;
        subscribed = env.has_relay intended;
        last_video = env.now;
        recovering_since = none;
        showing_fallback = false;
        ever_live = false;
      },
      set_failover false (some fallback) (some intended) (route (some intended) out),
    )

unfoldable pub frame_arm : Env → Monitor → List ℕ → Monitor
frame_arm env m bytes =
    let since = unwrap_or m.recovering_since env.now in
    if is_video_tag bytes
    then record m {
      last_video = env.now;
      ever_live = true;
      recovering_since = if m.showing_fallback then some since else m.recovering_since;
    }
    else m

abbrev pub dark_for : Env → Monitor → ℕ
dark_for env m = env.now - m.last_video

abbrev pub threshold : Monitor → ℕ
threshold m = if m.ever_live then m.offline else m.startup_grace

-- To the fallback.
unfoldable pub fail_over : Env → Monitor → Out → Monitor × Out
fail_over env m out = (
  record m { showing_fallback = true; recovering_since = none },
  set_failover true (some m.fallback) (some m.intended) (
      egress_restart_for m.fallback
        (route (some m.fallback) (ensure_fallback_running env m.fallback out))),
)

-- Back to the intended source.
unfoldable pub restore : Monitor → Out → Monitor × Out
restore m out = (
  record m { showing_fallback = false; recovering_since = none },
  set_failover false (some m.fallback) (some m.intended)
      (egress_restart_for m.intended (route (some m.intended) out)),
)

-- Whether the intended source has been back for the grace period.
abbrev pub recovered : Env → Monitor → Bool
recovered env m = elim m.recovering_since [
  | none ↦ false
  | some since ↦ ltb m.recovery (env.now - since)
]

unfoldable pub tick_arm : Env → Monitor → Out → Monitor × Out
tick_arm env m out =
    let m' = record m { subscribed = m.subscribed || env.has_relay m.intended } in
    if not m.showing_fallback && ltb (threshold m) (dark_for env m)
    then fail_over env m' out
    else if m.showing_fallback
    then if ltb 750 (dark_for env m)
      then (record m' { recovering_since = none }, out)
      else if recovered env m
      then restore m' out
      else (m', out)
    else (m', out)

pub data Event : Type 0 where
  intent_changed tick lagged closed : Event
  frame : List ℕ → Event

-- The arms of `monitor` but the first. Frames come only to a receiver.
unfoldable pub monitor_step : Env → Monitor × Out → Event → Monitor × Out
monitor_step env (m, out) tick = tick_arm env m out
monitor_step env (m, out) lagged = (m, out)
monitor_step env (m, out) closed = (record m { subscribed = false }, out)
monitor_step env (m, out) (frame bytes) = (if m.subscribed then frame_arm env m bytes else m, out)
monitor_step env (m, out) intent_changed = (m, out)

-- `run_failover_supervisor`: mirroring the intent, or in `monitor`.
pub data Supervisor : Type 0 where
  passthrough : Out → Supervisor
  monitoring : Monitor × Out → Supervisor

abbrev pub is_passthrough : FailoverConfig → Option ℕ → Bool
is_passthrough cfg intent =
    not cfg.enabled
    || is_none cfg.fallback_source_id
    || is_none intent
    || option_eq cfg.fallback_source_id intent

-- The head of the supervisor's loop.
unfoldable pub evaluate : Env → Out → Supervisor
evaluate env out =
    let cfg = load_config env in
    let fallback = unwrap_or cfg.fallback_source_id 0 in
    let intended = unwrap_or env.intent 0 in
    if is_passthrough cfg env.intent
    then passthrough (route env.intent (set_failover false cfg.fallback_source_id env.intent out))
    else monitoring
        (monitor_start env intended fallback cfg (ensure_fallback_running env fallback out))

unfoldable pub supervisor_step : Env → Supervisor → Event → Supervisor
supervisor_step env (passthrough out) intent_changed = evaluate env out
supervisor_step env (passthrough out) _ = passthrough out
supervisor_step env (monitoring (m, out)) intent_changed = evaluate env out
supervisor_step env (monitoring (m, out)) e = monitoring (monitor_step env (m, out) e)

unfoldable pub supervisor_run : List (Env × Event) → Supervisor → Supervisor
supervisor_run [] s = s
supervisor_run ((env, e) ∷ history) s = supervisor_run history (supervisor_step env s e)
