-- ===== src/Program/Waiting.antt =====
-- What the router does while a switch waits for the new source's keyframe: crates/api/src/program.rs.
use mathlib.Core.List.{reverse}
use shed.Flv.{rewrite_tag_timestamp}
use shed.Prelude.{
  Bool, not, if◌then◌else◌, length, All, ℕ, ◌≤◌, ◌<◌, ◌≡◌, refl, ap, ◌∙◌, true, false, Option, some,
  List, [], ◌∷◌, ◌++◌, arith,
}
use shed.Program.Clock.{video_all, ts_of, remap_later}
use shed.Program.Tags.{Bytes, is_video_keyframe, is_sequence_header, tag_type, remap_tag}
use shed.Program.{
  audio_arm, video_data, video_lagged, audio_data, audio_lagged, audio_closed, pending_lagged,
  pending_closed, source_dropped, routing_changed, routing_dropped, video_closed, Env, Router,
  PendingSwitch, Event, video_arm, select_step, enter, running, task_step, task_run, source_changed,
  pending_data, stay, leave, audio_source_for, send_sequence_headers,
}

-- The program while a switch waits.
abbrev pub with_pending : Router → Option PendingSwitch → Router
with_pending r pending = record r { pending_switch = pending }

pub video_arm_pending :
    (r : Router) (pending : Option PendingSwitch) (bytes : Bytes)
    → video_arm (with_pending r pending) bytes ≡ with_pending (video_arm r bytes) pending
unfolding video_arm
video_arm_pending r pending bytes = ground arith

-- A keyframe is a video tag, long enough, and no sequence header.
pub keyframe_tests :
    (bytes : Bytes)
    → is_video_keyframe bytes ≡ true
    → (is_sequence_header bytes ≡ false) × (tag_type bytes ≡ some 9) × (8 ≤ length bytes)
unfolding is_video_keyframe is_sequence_header tag_type
keyframe_tests [] h = absurd (ground arith)
keyframe_tests (t ∷ bytes) h = ground arith

-- The output once a switch is made: the new source's headers and its keyframe, all at the present
-- time, on top of what was sent.
abbrev pub switched : Env → Router → ℕ → Bytes → List Bytes
switched env r source_id key =
    rewrite_tag_timestamp key r.output_ts
    ∷ (reverse (
          send_sequence_headers env.sequence_headers source_id
            (audio_source_for env.audio_routing source_id) r.output_ts)
        ++ r.sent)

pub remap_own_time :
    (bytes : Bytes) (ts : ℕ)
    → 8 ≤ length bytes
    → ts < 4294967296
    → remap_tag bytes (some (ts_of bytes)) ts ts
      ≡ (rewrite_tag_timestamp bytes ts, some (ts_of bytes), ts)
remap_own_time bytes ts long small =
    remap_later bytes (ts_of bytes) ts ts (long, omega arith, omega arith)
    ∙ ap (λ n. (rewrite_tag_timestamp bytes n, some (ts_of bytes), n)) (omega arith)

-- What data from a waiting source does.
pub pending_data_step :
    (env : Env) (r : Router) (ps : PendingSwitch) (bytes : Bytes)
    → r.pending_switch ≡ some ps
    → r.output_ts < 4294967296
    → select_step env r (pending_data bytes) ≡ (
        if is_video_keyframe bytes
        then leave (record r { sent = switched env r ps.source_id bytes })
        else stay r)
unfolding select_step
pending_data_step env r ps bytes p small =
    ground (arith, keyframe_tests bytes, remap_own_time bytes r.output_ts)

pub video_all_pending :
    (r : Router) (pending : Option PendingSwitch) (tags : List Bytes)
    → video_all (with_pending r pending) tags ≡ with_pending (video_all r tags) pending
unfolding video_all
video_all_pending r pending [] = refl
video_all_pending r pending (bytes ∷ tags) =
    ap (λ s. video_all s tags) (video_arm_pending r pending bytes)
    ∙ video_all_pending (video_arm r bytes) pending tags

pub task_step-stay :
    (env : Env) (r s : Router) (e : Event)
    → select_step env r e ≡ stay s
    → task_step env (running r) e ≡ running s
unfolding task_step
task_step-stay env r s e h = rw (h, task_step)

pub task_step-leave :
    (env : Env) (r s : Router) (e : Event)
    → select_step env r e ≡ leave s
    → task_step env (running r) e ≡ enter env s.output_ts s.sent
unfolding task_step
task_step-leave env r s e h = rw (h, task_step)

-- What may come while a switch waits: data of the source that is left and of its audio, data of the new source that is no
-- keyframe, a receiver that lags, and the end of the audio.
abbrev pub comes_while_waiting : Event → Bool
comes_while_waiting (video_data bytes) = true
comes_while_waiting video_lagged = true
comes_while_waiting (audio_data bytes) = true
comes_while_waiting audio_lagged = true
comes_while_waiting audio_closed = true
comes_while_waiting (pending_data bytes) = not (is_video_keyframe bytes)
comes_while_waiting pending_lagged = true
comes_while_waiting pending_closed = false
comes_while_waiting source_changed = false
comes_while_waiting source_dropped = false
comes_while_waiting routing_changed = false
comes_while_waiting routing_dropped = false
comes_while_waiting video_closed = false

-- What such an event does to a router that no switch waits for; data of the new source does nothing.
abbrev pub air : Router → Event → Router
air r (video_data bytes) = video_arm r bytes
air r (audio_data bytes) = if r.audio_open then audio_arm r bytes else r
air r audio_closed = record r { audio_open = false }
air r (pending_data bytes) = r
air r video_lagged = r
air r audio_lagged = r
air r pending_lagged = r
air r pending_closed = r
air r source_changed = r
air r source_dropped = r
air r routing_changed = r
air r routing_dropped = r
air r video_closed = r

abbrev pub air_all : Router → List (Env × Event) → Router
air_all r [] = r
air_all r ((env, e) ∷ history) = air_all (air r e) history

audio_arm_pending :
    (r : Router) (pending : Option PendingSwitch) (bytes : Bytes)
    → audio_arm (with_pending r pending) bytes ≡ with_pending (audio_arm r bytes) pending
unfolding audio_arm
audio_arm_pending r pending bytes = ground arith

air_audio_pending :
    (r : Router) (pending : Option PendingSwitch) (bytes : Bytes) (is_open : Bool)
    → stay (if is_open then audio_arm (with_pending r pending) bytes else with_pending r pending)
      ≡ stay (with_pending (if is_open then audio_arm r bytes else r) pending)
air_audio_pending r pending bytes true = ap stay (audio_arm_pending r pending bytes)
air_audio_pending r pending bytes false = refl

remap_tag_small :
    (bytes : Bytes) (first : Option ℕ) (base output_ts : ℕ)
    → output_ts < 4294967296
    → (remap_tag bytes first base output_ts).2 < 4294967296
unfolding remap_tag
remap_tag_small bytes first base output_ts h = ground (arith, h)

pub air_small :
    (r : Router) (e : Event) → r.output_ts < 4294967296 → (air r e).output_ts < 4294967296
unfolding video_arm audio_arm
air_small r (video_data bytes) h =
    ground (arith, h, remap_tag_small bytes r.first_video_ts r.base_output_ts r.output_ts h)
air_small r (audio_data bytes) h =
    ground (arith, h, remap_tag_small bytes r.first_audio_ts r.base_output_ts r.output_ts h)
air_small r video_lagged h = h
air_small r audio_lagged h = h
air_small r audio_closed h = h
air_small r (pending_data bytes) h = h
air_small r pending_lagged h = h
air_small r pending_closed h = h
air_small r source_changed h = h
air_small r source_dropped h = h
air_small r routing_changed h = h
air_small r routing_dropped h = h
air_small r video_closed h = h

pub air_all_small :
    (r : Router) (history : List (Env × Event))
    → r.output_ts < 4294967296
    → (air_all r history).output_ts < 4294967296
air_all_small r [] h = h
air_all_small r ((env, e) ∷ history) h = air_all_small (air r e) history (air_small r e h)

-- While a switch waits, the router goes on as if none did.
pub waiting_step :
    (env : Env) (r : Router) (ps : PendingSwitch) (e : Event)
    → r.output_ts < 4294967296
    → comes_while_waiting e ≡ true
    → select_step env (with_pending r (some ps)) e ≡ stay (with_pending (air r e) (some ps))
unfolding select_step
waiting_step env r ps (video_data bytes) small w = ap stay (video_arm_pending r (some ps) bytes)
waiting_step env r ps (audio_data bytes) small w = air_audio_pending r (some ps) bytes r.audio_open
waiting_step env r ps video_lagged small w = refl
waiting_step env r ps audio_lagged small w = refl
waiting_step env r ps audio_closed small w = refl
waiting_step env r ps pending_lagged small w = refl
waiting_step env r ps (pending_data bytes) small w =
    let dark : is_video_keyframe bytes ≡ false = ground (arith, w) in
    rw (pending_data_step env (with_pending r (some ps)) ps bytes refl small, dark)
waiting_step env r ps pending_closed small w = cc
waiting_step env r ps source_changed small w = cc
waiting_step env r ps source_dropped small w = cc
waiting_step env r ps routing_changed small w = cc
waiting_step env r ps routing_dropped small w = cc
waiting_step env r ps video_closed small w = cc

pub task_run_waiting :
    (r : Router) (ps : PendingSwitch) (between history : List (Env × Event))
    → r.output_ts < 4294967296
    → All (λ t. comes_while_waiting t.1 ≡ true) between
    → task_run (between ++ history) (running (with_pending r (some ps)))
      ≡ task_run history (running (with_pending (air_all r between) (some ps)))
unfolding task_run
task_run_waiting r ps [] history small ws = refl
task_run_waiting r ps ((env, e) ∷ between) history small (w, ws) =
    ap (task_run (between ++ history)) (
      task_step-stay env (with_pending r (some ps)) (with_pending (air r e) (some ps)) e
        (waiting_step env r ps e small w))
    ∙ task_run_waiting (air r e) ps between history (air_small r e small) ws
