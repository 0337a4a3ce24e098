-- ===== src/Program/Switching.antt =====
-- A change of source while the router runs: crates/api/src/program.rs.
use mathlib.Core.List.{reverse}
use shed.Prelude.{All, ℕ, ◌<◌, ◌≡◌, refl, ap, ◌∙◌, ◌≢◌, true, some, List, [], ◌∷◌, ◌++◌, arith}
use shed.Program.Waiting.{
  with_pending, switched, pending_data_step, video_all_pending, task_step-stay, task_step-leave,
  comes_while_waiting, air_all, air_all_small, task_run_waiting,
}
use shed.Program.Clock.{video_all}
use shed.Program.Tags.{Bytes, is_video_keyframe}
use shed.Program.{
  entered, Env, Router, PendingSwitch, Event, select_step, enter, running, task_run, source_changed,
  pending_data, stay, leave, audio_source_for, send_sequence_headers,
}

-- A source change asks for a switch, or is ignored, and never touches what is sent: whatever the
-- current source delivers afterwards goes out exactly as if no change had been asked for.
pub source_change_keeps_program :
    (env : Env) (r s : Router) (tags : List Bytes)
    → select_step env r source_changed ≡ stay s
    → ((video_all s tags).sent ≡ (video_all r tags).sent)
      × ((video_all s tags).output_ts ≡ (video_all r tags).output_ts)
unfolding select_step
source_change_keeps_program env r s tags h =
    let e : s ≡ with_pending r s.pending_switch = ground arith in
    let whole = ap (λ q. video_all q tags) e ∙ video_all_pending r s.pending_switch tags in
    (ap (λ q. q.sent) whole, ap (λ q. q.output_ts) whole)

-- The router that is entered at a source with a relay.
enter_relayed :
    (env : Env) (ts source_id : ℕ) (sent : List Bytes)
    → env.program_source ≡ some source_id
    → env.has_relay source_id ≡ true
    → (s : Router) × (enter env ts sent ≡ running s)
      × (s.current_source_id ≡ source_id)
      × (s.base_output_ts ≡ ts)
unfolding enter
enter_relayed env ts source_id sent p relay =
    let audio_source_id = audio_source_for env.audio_routing source_id in
    let headers = send_sequence_headers env.sequence_headers source_id audio_source_id ts in
    (entered env source_id ts (reverse headers ++ sent), rw (p, enter) (rw relay refl), refl, refl)

pub source_changed_step :
    (env : Env) (r : Router) (source_id : ℕ)
    → env.program_source ≡ some source_id
    → source_id ≢ r.current_source_id
    → select_step env r source_changed
      ≡ stay (
          with_pending r
            (some (record { source_id = source_id; connected = env.has_relay source_id })))
unfolding select_step
source_changed_step env r source_id p other = ground arith

switch_history :
    (env later : Env) (r : Router) (source_id : ℕ) (between : List (Env × Event)) (key : Bytes)
    → env.program_source ≡ some source_id
    → source_id ≢ r.current_source_id
    → r.output_ts < 4294967296
    → All (λ t. comes_while_waiting t.1 ≡ true) between
    → is_video_keyframe key ≡ true
    → let s = air_all r between in
      task_run ((env, source_changed) ∷ (between ++ ((later, pending_data key) ∷ []))) (running r)
      ≡ enter later s.output_ts (switched later s source_id key)
unfolding task_run
switch_history env later r source_id between key p other small waits k =
    let ps : PendingSwitch = record {
      source_id = source_id;
      connected = env.has_relay source_id;
    } in
    let s = air_all r between in
    let q = with_pending s (some ps) in
    let last : select_step later q (pending_data key)
        ≡ leave (record q { sent = switched later q source_id key }) =
      rw (pending_data_step later q ps key refl (air_all_small r between small), k) in
    ap (task_run (between ++ ((later, pending_data key) ∷ []))) (
      task_step-stay env r (with_pending r (some ps)) source_changed
        (source_changed_step env r source_id p other))
    ∙ (task_run_waiting r ps between ((later, pending_data key) ∷ []) small waits
        ∙ task_step-leave later q (record q { sent = switched later q source_id key })
            (pending_data key) last)

-- A requested switch completes. After the program is moved to another source that has a relay, and
-- until that source's first keyframe, whatever data comes of the two sources and of a separate audio,
-- the program goes on as if no change had been asked for: the tags of the source that is left go
-- out, and nothing of the new one. Its first keyframe then makes it the current source, at the output
-- time that the program has reached and below its headers and the keyframe. In between neither the
-- program source nor the routing changes, and neither relay closes.
pub switch_completes :
    (env later : Env) (r : Router) (source_id : ℕ) (between : List (Env × Event)) (key : Bytes)
    → env.program_source ≡ some source_id
    → env.has_relay source_id ≡ true
    → later.program_source ≡ some source_id
    → later.has_relay source_id ≡ true
    → source_id ≢ r.current_source_id
    → r.output_ts < 4294967296
    → All (λ t. comes_while_waiting t.1 ≡ true) between
    → is_video_keyframe key ≡ true
    → let history = (env, source_changed) ∷ (between ++ ((later, pending_data key) ∷ [])) in
      let left = air_all r between in
      (task_run history (running r)
        ≡ enter later left.output_ts (switched later left source_id key))
      × ((s : Router) × (task_run history (running r) ≡ running s)
          × (s.current_source_id ≡ source_id)
          × (s.base_output_ts ≡ left.output_ts))
switch_completes env later r source_id between key p relay p' relay' other small waits k =
    let left = air_all r between in
    let whole = switch_history env later r source_id between key p other small waits k in
    let (s, e, current, base) =
      enter_relayed later left.output_ts source_id (switched later left source_id key) p' relay' in
    (whole, (s, whole ∙ e, current, base))
