-- ===== src/Schedules/Examples.antt =====
-- Tests and instances for the schedules.
use shed.Prelude.{
  if◌then◌else◌, ◌+◌, ◌≡◌, refl, true, none, some, [], ◌∷◌, map, arith, string_eq, trim, word_count,
}
use shed.Types.{once}
use shed.Types.EndBehavior.{loop}
use shed.Types.ScheduleItemKind.{vod}
use shed.Scheduler.{due_schedules}
use shed.Schedules.{system_tz, create, set_timezone, scheduled}
use shed.Schedules.Rows.{UpsertSchedule, ScheduleRow, Planner}
use shed.Schedules.NextRun.{Calendar, to_six_field, next_run_after}
use shed.Schedules.Times.{new_timezone_passes_over_due}
use shed.Schedules.Saved.{Saved, create-Saved}

abbrev calendar : Calendar
calendar = record {
  parse_local = λ s. if string_eq s "2030-01-01T20:00" then some 100 else none;
  to_utc = λ tz local. some local;
  cron_valid = λ expr. string_eq expr "0 0 20 * * *";
  cron_next = λ expr tz after. some (after + 60);
  zone_known = λ name. string_eq name "UTC";
}

-- Row 1 is due at 50.
abbrev daily : ScheduleRow
daily = record {
  id = 1;
  name = "daily";
  enabled = 1;
  trigger_kind = "cron";
  trigger_at = none;
  trigger_cron = some "0 20 * * *";
  destination_ids = some [];
  standby_asset_id = none;
  end_behavior = "stop";
  until_at = none;
  next_run_at = some 50;
}

abbrev planner : Planner
planner = record {
  schedules = daily ∷ [];
  items = [];
  system_timezone = none;
  schedule_nudge = 0;
  active_schedule = none;
  started = [];
}

abbrev evening : UpsertSchedule
evening = record {
  name = "evening";
  enabled = true;
  trigger = once "2030-01-01T20:00";
  destination_ids = 5 ∷ [];
  standby_asset_id = none;
  end_behavior = loop;
  until_at = none;
  items = (vod, 8) ∷ (vod, 9) ∷ [];
}

five_fields : to_six_field " 0  20 * * * " ≡ "0 0  20 * * *"
unfolding to_six_field trim word_count
five_fields = refl

past_one_off : next_run_after calendar "UTC" (once "2030-01-01T20:00") 100 ≡ none
unfolding next_run_after
past_one_off = refl

create-Saved_example :
    Saved calendar
      (λ rows. rows)
      (system_tz calendar planner)
      60
      2
      evening
      planner
      (create calendar (λ rows. rows) 60 2 evening planner)
create-Saved_example =
    create-Saved calendar (λ rows. rows) (λ rows h. refl) 60 2 evening planner refl

new_timezone_passes_over_due_example :
    let p' = (set_timezone calendar 55 "UTC" planner).1 in
    (due_schedules 55 (map scheduled p'.schedules) ≡ [])
    × (map (λ r. r.id) p'.schedules ≡ 1 ∷ [])
    × (map (λ r. r.enabled) p'.schedules ≡ 1 ∷ [])
new_timezone_passes_over_due_example =
    new_timezone_passes_over_due calendar (λ expr tz after t h. ground (arith, h)) 55 "UTC" planner
      refl
