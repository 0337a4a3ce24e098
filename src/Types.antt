-- ===== src/Types.antt =====
-- crates/common/src/types.rs, events.rs and error.rs, and the plain data of crates/api/src/state.rs.
-- A `Uuid` is a number, with 0 for `Uuid::nil()`; a time is a number of milliseconds; a path is its
-- text. A float that the code only stores is kept as its bit pattern.
pub mod EndBehavior
pub mod LayerFit
pub mod ScheduleItemKind
pub mod MuxshedError
use shed.Prelude.{ℕ, String, Bool, false, Option, none, List}

-- A signed integer: `negsuc n` is -(n + 1).
pub data ℤ : Type 0 where
  pos negsuc : ℕ → ℤ

pub data SourceState : Type 0 where
  disconnected connecting live : SourceState
  error : String → SourceState

pub data PipelineState : Type 0 where
  idle starting : PipelineState
  live : (started_at active_scene : ℕ) → PipelineState
  transitioning : (stinger_id target_scene : ℕ) → PipelineState
  stopping : PipelineState
  error : String → PipelineState

pub record RecordingState : Type 0 where
  pub recording : Bool
  pub path : Option String
  pub started_at : Option ℕ

pub data SourceKind : Type 0 where
  rtmp : (stream_key : String) → SourceKind
  srt : (port : ℕ) → (passphrase : Option String) → SourceKind
  web_rtc : (token : String) → SourceKind
  test_pattern : SourceKind
  media_file : (asset_id : ℕ) → (file_path loop_mode : String) → SourceKind
  browser : (url : String) → SourceKind

pub data DestinationKind : Type 0 where
  rtmp rtmps : (url stream_key : String) → DestinationKind
  srt : (url : String) → DestinationKind
  recording : (path : String) → DestinationKind

pub record Destination : Type 0 where
  pub id : ℕ
  pub name : String
  pub kind : DestinationKind
  pub enabled : Bool

pub record FailoverConfig : Type 0 where
  pub enabled : Bool
  pub fallback_source_id : Option ℕ
  pub offline_grace_ms : ℕ
  pub recovery_grace_ms : ℕ

abbrev pub default_failover_config : FailoverConfig
default_failover_config = record {
  enabled = false;
  fallback_source_id = none;
  offline_grace_ms = 3000;
  recovery_grace_ms = 3000;
}

pub data TriggerKind : Type 0 where
  once : (moment : String) → TriggerKind
  cron : (expr : String) → TriggerKind

pub data WsEvent : Type 0 where
  pipeline_state : PipelineState → WsEvent
  source_state : (id : ℕ) → SourceState → WsEvent
  destination_state : (id : ℕ) → String → WsEvent
  scene_changed : (scene_id : ℕ) → (method : String) → WsEvent
  recording_state : Bool → Option String → WsEvent
  transition_started : (stinger_id target_scene_id : ℕ) → WsEvent
  transition_complete : (scene_id : ℕ) → WsEvent
  failover_state : Bool → (fallback_source_id intent_source_id : Option ℕ) → WsEvent
  schedule_started schedule_ended : (id : ℕ) → WsEvent
  schedule_skipped : (id : ℕ) → (reason : String) → WsEvent

-- The parts of a source that a late reader needs first.
pub record SequenceHeaders : Type 0 where
  pub video : Option (List ℕ)
  pub audio : Option (List ℕ)
  pub last_keyframe : Option (List ℕ)

abbrev pub no_headers : SequenceHeaders
no_headers = record { video = none; audio = none; last_keyframe = none }

pub record AudioChannelState : Type 0 where
  pub source_id : ℕ
  pub muted : Bool
  pub volume : ℕ

pub record AudioRouting : Type 0 where
  pub active_audio_source : Option ℕ
  pub channels : List AudioChannelState
  pub audio_follows_video : Bool
