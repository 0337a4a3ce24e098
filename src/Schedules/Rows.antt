-- ===== src/Schedules/Rows.antt =====
-- Schedules as they are asked for, stored and answered: crates/api/src/routes/schedules.rs.
use shed.Prelude.{ℕ, String, Bool, Option, List}
use shed.Types.{TriggerKind}
use shed.Types.EndBehavior.{EndBehavior}
use shed.Types.ScheduleItemKind.{ScheduleItemKind}

pub record UpsertSchedule : Type 0 where
  pub name : String
  pub enabled : Bool
  pub trigger : TriggerKind
  pub destination_ids : List ℕ
  pub standby_asset_id : Option ℕ
  pub end_behavior : EndBehavior
  pub until_at : Option String
  pub items : List (ScheduleItemKind × ℕ)

-- `destination_ids` as serde reads the column.
pub record ScheduleRow : Type 0 where
  pub id : ℕ
  pub name : String
  pub enabled : ℕ
  pub trigger_kind : String
  pub trigger_at : Option String
  pub trigger_cron : Option String
  pub destination_ids : Option (List ℕ)
  pub standby_asset_id : Option ℕ
  pub end_behavior : String
  pub until_at : Option String
  pub next_run_at : Option ℕ

pub record ItemRow : Type 0 where
  pub schedule_id : ℕ
  pub position : ℕ
  pub item_kind : String
  pub ref_id : ℕ

-- `schedule_nudge` is the time of the last nudge, and `started` the broadcasts that were started, newest first.
pub record Planner : Type 0 where
  pub schedules : List ScheduleRow
  pub items : List ItemRow
  pub system_timezone : Option String
  pub schedule_nudge : ℕ
  pub active_schedule : Option ℕ
  pub started : List ℕ

pub record Schedule : Type 0 where
  pub id : ℕ
  pub name : String
  pub enabled : Bool
  pub trigger : TriggerKind
  pub destination_ids : List ℕ
  pub standby_asset_id : Option ℕ
  pub end_behavior : EndBehavior
  pub until_at : Option String
  pub items : List (ℕ × (ScheduleItemKind × ℕ))
  pub next_run_at : Option ℕ
