-- ===== src/Program.antt =====
-- crates/api/src/program.rs: the program router. Everything that it sends to `program_tx` is the
-- list `sent`, newest first. One turn of its `select!` is an event with what the shared state holds
-- at that moment (`Env`). A frame counter that is only logged keeps its wrap at 2^64 out.

pub mod Tags
pub mod Classify
pub mod Keyframe
pub mod Clock
pub mod Waiting
pub mod Switching
pub mod Lost
mod Examples
use shed.Program.Tags.{Bytes, tag_type, is_video_keyframe, is_sequence_header, remap_tag}
use shed.Flv.{flv_tag_audio, flv_tag_video, read_tag_timestamp, rewrite_tag_timestamp}
use shed.Prelude.{
  ◌==◌, if◌then◌else◌, is_none, or_else, unwrap_or, option_eq, ℕ, ◌+◌, ◌≡◌, Bool, false, not, ◌&&◌,
  ◌||◌, Option, none, some, List, [], ◌∷◌, ◌++◌, option_list, ◌>>=◌,
}
use shed.Prelude.Maps.{IdMap, lookup}
use mathlib.Core.List.{reverse}
use shed.Types.{SequenceHeaders, AudioRouting}
use shed.Flv.{flv_tag_audio, flv_tag_video, read_tag_timestamp, rewrite_tag_timestamp}

-- The tags that `send_sequence_headers` sends, in order.
unfoldable pub send_sequence_headers : IdMap SequenceHeaders → ℕ → ℕ → ℕ → List Bytes
send_sequence_headers headers video_source_id audio_source_id ts =
    let video = lookup headers video_source_id >>= λ seq.
    seq.video >>= λ v. some (rewrite_tag_timestamp v ts) in
    let audio_seq = or_else (lookup headers audio_source_id) (lookup headers video_source_id) in
    let audio = audio_seq >>= λ seq. seq.audio >>= λ a. some (rewrite_tag_timestamp a ts) in
    option_list video ++ option_list audio

-- What the shared state holds when an arm runs.
pub record Env : Type 0 where
  pub program_source : Option ℕ
  pub has_relay : ℕ → Bool
  pub sequence_headers : IdMap SequenceHeaders
  pub audio_routing : AudioRouting

unfoldable pub audio_source_for : AudioRouting → ℕ → ℕ
audio_source_for routing video_source =
    if routing.audio_follows_video || is_none routing.active_audio_source
    then video_source
    else unwrap_or routing.active_audio_source video_source

-- `connected` is false for the receiver of a channel whose sender is gone.
pub record PendingSwitch : Type 0 where
  pub source_id : ℕ
  pub connected : Bool

pub record Router : Type 0 where
  pub current_source_id : ℕ
  pub same_source : Bool
  pub audio_open : Bool
  pub forwarded : ℕ
  pub got_keyframe : Bool
  pub first_video_ts : Option ℕ
  pub first_audio_ts : Option ℕ
  pub base_output_ts : ℕ
  pub output_ts : ℕ
  pub pending_switch : Option PendingSwitch
  pub sent : List Bytes

-- Where the task stands: in the first loop of `run_program_router`, waiting for a change because
-- the source has no relay, in the `select!` loop, or returned.
pub data Task : Type 0 where
  no_source no_relay : (output_ts : ℕ) → List Bytes → Task
  running : Router → Task
  returned : List Bytes → Task

-- The router that the outer loop sets up for a source, once the source has a relay.
abbrev pub entered : Env → ℕ → ℕ → List Bytes → Router
entered env current_source_id output_ts primed =
    let audio_source_id = audio_source_for env.audio_routing current_source_id in
    let same_source = current_source_id == audio_source_id in
    record {
      current_source_id = current_source_id;
      same_source = same_source;
      audio_open = not same_source && env.has_relay audio_source_id;
      forwarded = 0;
      got_keyframe = false;
      first_video_ts = none;
      first_audio_ts = none;
      base_output_ts = output_ts;
      output_ts = output_ts;
      pending_switch = none;
      sent = primed;
    }

-- The outer loop, from its head.
unfoldable pub enter : Env → ℕ → List Bytes → Task
enter env output_ts sent = elim env.program_source [
  | none ↦ no_source output_ts sent
  | some current_source_id ↦
      let audio_source_id = audio_source_for env.audio_routing current_source_id in
      let headers =
        send_sequence_headers env.sequence_headers current_source_id audio_source_id output_ts in
      let primed = reverse headers ++ sent in
      if env.has_relay current_source_id
      then running (entered env current_source_id output_ts primed)
      else no_relay output_ts primed
]

pub data Event : Type 0 where
  source_changed source_dropped routing_changed routing_dropped : Event
  pending_data : Bytes → Event
  pending_lagged pending_closed : Event
  video_data : Bytes → Event
  video_lagged video_closed : Event
  audio_data : Bytes → Event
  audio_lagged audio_closed : Event

-- How an arm ends: the next turn, `break` to the outer loop, or `return`.
pub data Flow : Type 0 where
  stay leave finish : Router → Flow

-- `source_rx.changed()`.
abbrev source_arm : Env → Router → Router
source_arm env r = elim env.program_source [
  | none ↦ r
  | some new_source_id ↦ if new_source_id == r.current_source_id then r else record r {
    pending_switch =
        some (record { source_id = new_source_id; connected = env.has_relay new_source_id });
  }
]

-- The first keyframe of the new source: its headers, then the keyframe at the present time.
abbrev pub commit_switch : Env → Router → PendingSwitch → Bytes → Router
commit_switch env r ps bytes =
    let new_audio_id = audio_source_for env.audio_routing ps.source_id in
    let primed =
      reverse (send_sequence_headers env.sequence_headers ps.source_id new_audio_id r.output_ts)
      ++ r.sent in
    let first = some (unwrap_or (read_tag_timestamp bytes) 0) in
    let (remapped, _, ts) = remap_tag bytes first r.output_ts r.output_ts in
    record r { output_ts = ts; sent = remapped ∷ primed }

abbrev pub is_video : Bytes → Bool
is_video bytes = option_eq (tag_type bytes) (some flv_tag_video)

abbrev pub is_audio : Bytes → Bool
is_audio bytes = option_eq (tag_type bytes) (some flv_tag_audio)

-- Data from the source of a pending switch.
abbrev pending_arm : Env → Router → Bytes → Flow
pending_arm env r bytes = elim r.pending_switch [
  | none ↦ stay r
  | some ps ↦
      if is_sequence_header bytes
      then stay r
      else if is_video bytes && is_video_keyframe bytes
      then leave (commit_switch env r ps bytes)
      else stay r
]

abbrev pub forward_video : Router → Bytes → Router
forward_video r bytes =
    let (remapped, first, ts) = remap_tag bytes r.first_video_ts r.base_output_ts r.output_ts in
    record r {
      first_video_ts = first;
      output_ts = ts;
      sent = remapped ∷ r.sent;
      forwarded = r.forwarded + 1;
    }

-- Data from the current source.
unfoldable pub video_arm : Router → Bytes → Router
video_arm r bytes =
    let got = r.got_keyframe || (is_video bytes && is_video_keyframe bytes) in
    let next = record r { got_keyframe = got } in
    if not r.got_keyframe
      && is_video bytes
      && not (is_video_keyframe bytes)
      && not (is_sequence_header bytes)
    then r
    else if not got && is_audio bytes && not r.same_source
    then next
    else if r.same_source || is_video bytes || is_sequence_header bytes
    then forward_video next bytes
    else next

-- Data from a separate audio source.
unfoldable pub audio_arm : Router → Bytes → Router
audio_arm r bytes =
    let (remapped, first, ts) = remap_tag bytes r.first_audio_ts r.base_output_ts r.output_ts in
    if is_audio bytes
    then record r {
      first_audio_ts = first;
      output_ts = ts;
      sent = remapped ∷ r.sent;
      forwarded = r.forwarded + 1;
    }
    else r

-- One turn of the `select!` loop.
unfoldable pub select_step : Env → Router → Event → Flow
select_step env r source_changed = stay (source_arm env r)
select_step env r source_dropped = finish r
select_step env r routing_changed = leave r
select_step env r routing_dropped = finish r
select_step env r (pending_data bytes) = pending_arm env r bytes
select_step env r pending_lagged = stay r
select_step env r pending_closed = stay (record r { pending_switch = none })
select_step env r (video_data bytes) = stay (video_arm r bytes)
select_step env r video_lagged = stay r
select_step env r video_closed = leave r
select_step env r (audio_data bytes) = stay (if r.audio_open then audio_arm r bytes else r)
select_step env r audio_lagged = stay r
select_step env r audio_closed = stay (record r { audio_open = false })

-- While no router runs, only `source_rx` is read.
abbrev wait_step : Env → ℕ → List Bytes → Task → Event → Task
wait_step env output_ts sent task source_changed = enter env output_ts sent
wait_step env output_ts sent task source_dropped = returned sent
wait_step env output_ts sent task _ = task

unfoldable pub task_step : Env → Task → Event → Task
task_step env (no_source ts sent) e = wait_step env ts sent (no_source ts sent) e
task_step env (no_relay ts sent) e = wait_step env ts sent (no_relay ts sent) e
task_step env (running r) e = elim (select_step env r e) [
  | stay r' ↦ running r'
  | leave r' ↦ enter env r'.output_ts r'.sent
  | finish r' ↦ returned r'.sent
]
task_step env (returned sent) e = returned sent

-- Any number of turns of the `select!` loop, with any state of the world at each.
pub data Turns (r : Router) : Router → Type 0 where
  start : Turns r r
  turn :
      {s t : Router} (env : Env) (e : Event) → Turns r s → select_step env s e ≡ stay t → Turns r t

-- The router over a history.
unfoldable pub task_run : List (Env × Event) → Task → Task
task_run [] task = task
task_run ((env, e) ∷ history) task = task_run history (task_step env task e)
