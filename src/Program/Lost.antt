-- ===== src/Program/Lost.antt =====
-- Two requests that the router does not carry out: crates/api/src/program.rs.
use shed.Prelude.{
  if◌then◌else◌, All, ℕ, ◌<◌, ◌≡◌, refl, ap, ◌∙◌, ◌≢◌, true, false, none, some, List, [], ◌∷◌,
  arith,
}
use shed.Program.Tags.{Bytes, is_video_keyframe}
use shed.Program.{
  Env, Router, PendingSwitch, Event, video_arm, audio_arm, select_step, enter, running, task_step,
  task_run, source_changed, source_dropped, routing_changed, routing_dropped, pending_data,
  pending_lagged, pending_closed, video_data, video_lagged, video_closed, audio_data, audio_lagged,
  audio_closed, stay,
}
use shed.Program.Waiting.{
  with_pending, switched, task_step-stay, task_step-leave, pending_data_step,
}
use shed.Program.Switching.{source_changed_step}

-- Data, lag and closing of receivers, but no new request and no end of the current source.
abbrev pub IsMedia : Event → Type 0
IsMedia source_changed = ⊥
IsMedia source_dropped = ⊥
IsMedia routing_changed = ⊥
IsMedia routing_dropped = ⊥
IsMedia video_closed = ⊥
IsMedia _ = Unit

media_step :
    (env : Env) (r : Router) (e : Event)
    → IsMedia e
    → r.pending_switch ≡ none
    → (s : Router) × (select_step env r e ≡ stay s)
      × (s.current_source_id ≡ r.current_source_id)
      × (s.pending_switch ≡ none)
unfolding select_step video_arm audio_arm
media_step env r source_changed m p = absurd m
media_step env r source_dropped m p = absurd m
media_step env r routing_changed m p = absurd m
media_step env r routing_dropped m p = absurd m
media_step env r video_closed m p = absurd m
media_step env r (pending_data bytes) m p = (r, ground arith, refl, p)
media_step env r pending_lagged m p = (r, refl, refl, p)
media_step env r pending_closed m p = (with_pending r none, refl, refl, refl)
media_step env r (video_data bytes) m p = (video_arm r bytes, refl, ground arith, ground arith)
media_step env r video_lagged m p = (r, refl, refl, p)
media_step env r (audio_data bytes) m p =
    (if r.audio_open then audio_arm r bytes else r, refl, ground arith, ground arith)
media_step env r audio_lagged m p = (r, refl, refl, p)
media_step env r audio_closed m p = (record r { audio_open = false }, refl, refl, p)

media_run :
    (history : List (Env × Event)) (r : Router)
    → All (λ t. IsMedia t.1) history
    → r.pending_switch ≡ none
    → (s : Router) × (task_run history (running r) ≡ running s)
      × (s.current_source_id ≡ r.current_source_id)
      × (s.pending_switch ≡ none)
unfolding task_run
media_run [] r m p = (r, refl, refl, p)
media_run ((env, e) ∷ history) r (m, ms) p =
    let (s, step, same, none_left) = media_step env r e m p in
    let (t, run, same', none_left') = media_run history s ms none_left in
    (t, ap (task_run history) (task_step-stay env r s e step) ∙ run, same' ∙ same, none_left')

-- A switch to a source that has no relay yet is not kept: its receiver is closed from the start,
-- the next turn drops it, and whatever happens afterwards short of a new request or the end of the
-- current source, also when the source comes up, the router stays with the old source.
pub switch_without_relay_is_lost :
    (env env' : Env) (r : Router) (source_id : ℕ) (history : List (Env × Event))
    → env.program_source ≡ some source_id
    → env.has_relay source_id ≡ false
    → source_id ≢ r.current_source_id
    → All (λ t. IsMedia t.1) history
    → (s : Router) × (task_run
          ((env, source_changed) ∷ (env', pending_closed) ∷ history)
          (running r)
        ≡ running s)
      × (s.current_source_id ≡ r.current_source_id)
      × (s.pending_switch ≡ none)
unfolding task_run select_step
switch_without_relay_is_lost env env' r source_id history p gone other ms =
    let ps : PendingSwitch = record {
      source_id = source_id;
      connected = env.has_relay source_id;
    } in
    let (s, run, same, none_left) = media_run history (with_pending r none) ms refl in
    (
      s,
      ap (λ t. task_run history (task_step env' t pending_closed))
            (task_step-stay env r (with_pending r (some ps)) source_changed
              (source_changed_step env r source_id p other))
          ∙ (ap (task_run history) (
                task_step-stay env' (with_pending r (some ps)) (with_pending r none) pending_closed
                  refl)
              ∙ run),
      same,
      none_left,
    )

same_source_step :
    (env : Env) (r : Router)
    → env.program_source ≡ some r.current_source_id
    → select_step env r source_changed ≡ stay r
unfolding select_step
same_source_step env r back = ground arith

-- A switch that waits survives a request for the current source: although the program was moved
-- back before the other source's keyframe, that keyframe goes out, and the router starts again.
pub cut_back_keeps_switch :
    (env : Env) (r : Router) (ps : PendingSwitch) (key : Bytes)
    → r.pending_switch ≡ some ps
    → env.program_source ≡ some r.current_source_id
    → r.output_ts < 4294967296
    → is_video_keyframe key ≡ true
    → task_run ((env, source_changed) ∷ (env, pending_data key) ∷ []) (running r)
      ≡ enter env r.output_ts (switched env r ps.source_id key)
unfolding task_run
cut_back_keeps_switch env r ps key p back small k =
    ap (λ t. task_step env t (pending_data key))
      (task_step-stay env r r source_changed (same_source_step env r back))
    ∙ task_step-leave env r (record r { sent = switched env r ps.source_id key }) (pending_data key)
        (rw (pending_data_step env r ps key p small, k))
