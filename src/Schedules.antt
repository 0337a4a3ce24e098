-- ===== src/Schedules.antt =====
-- The schedules that users keep: crates/api/src/routes/schedules.rs and crates/api/src/schedule_time.rs. Cron expressions,
-- dates and time zones are other packages' (`Calendar`); an instant is a number. A row of `schedules` is
-- what the scheduler (`Scheduler`) and the playout read. A query does not fail.
pub mod Rows
pub mod NextRun
pub mod Times
pub mod Saved
mod Examples
use shed.Schedules.Rows.{UpsertSchedule, ScheduleRow, ItemRow, Planner, Schedule}
use shed.Schedules.NextRun.{Calendar, six, parse_tz, next_run_after}
use shed.Prelude.{
  ◌==◌, if◌then◌else◌, is_some, unwrap_or, keep_if, any, find?, ℕ, suc, String, ◌⊎◌, inl, inr, Bool,
  not, Option, none, some, List, [], ◌∷◌, ◌++◌, map, ◌>>=◌, concat, decimal, string_eq,
}
use shed.Types.{TriggerKind, once, cron}
use shed.Types.EndBehavior as EndBehavior
use shed.Types.EndBehavior.{EndBehavior}
use shed.Types.ScheduleItemKind as ScheduleItemKind
use shed.Types.ScheduleItemKind.{ScheduleItemKind}
use shed.Types.MuxshedError.{MuxshedError, not_found, bad_request, internal}
use shed.Scheduler as Scheduler

unfoldable pub validate : Calendar → TriggerKind → Option MuxshedError
validate c (cron expr) =
    if c.cron_valid (six expr) then none else some (bad_request "invalid cron expression")
validate c (once moment) =
    if is_some (c.parse_local moment) then none else some (bad_request "invalid datetime")

-- The columns of a trigger, and the trigger of a row.
unfoldable pub trigger_cols : TriggerKind → String × (Option String × Option String)
trigger_cols (once moment) = ("once", (some moment, none))
trigger_cols (cron expr) = ("cron", (none, some expr))

unfoldable pub trigger_of : String → Option String → Option String → TriggerKind
trigger_of kind moment expr =
    if string_eq kind "cron" then cron (unwrap_or expr "") else once (unwrap_or moment "")

abbrev pub system_tz : Calendar → Planner → String
system_tz c p = parse_tz c (unwrap_or p.system_timezone "UTC")

-- The row that a request writes.
unfoldable pub row_of : Calendar → String → ℕ → ℕ → UpsertSchedule → ScheduleRow
row_of c tz now id u =
    let (kind, (moment, expr)) = trigger_cols u.trigger in
    record {
      id = id;
      name = u.name;
      enabled = if u.enabled then 1 else 0;
      trigger_kind = kind;
      trigger_at = moment;
      trigger_cron = expr;
      destination_ids = some u.destination_ids;
      standby_asset_id = u.standby_asset_id;
      end_behavior = EndBehavior.as_str u.end_behavior;
      until_at = u.until_at;
      next_run_at = next_run_after c tz u.trigger now;
    }

unfoldable pub item_rows : ℕ → ℕ → List (ScheduleItemKind × ℕ) → List ItemRow
item_rows schedule_id i [] = []
item_rows schedule_id i ((kind, ref_id) ∷ items) =
    record {
      schedule_id = schedule_id;
      position = i;
      item_kind = ScheduleItemKind.as_str kind;
      ref_id = ref_id;
    }
    ∷ item_rows schedule_id (suc i) items

abbrev pub items_of : ℕ → List ItemRow → List ItemRow
items_of id rows = keep_if (λ r. r.schedule_id == id) rows

unfoldable pub replace_items : ℕ → List (ScheduleItemKind × ℕ) → Planner → Planner
replace_items id items p = record p {
  items = keep_if (λ r. not (r.schedule_id == id)) p.items ++ item_rows id 0 items;
}

abbrev pub to_item : ItemRow → ℕ × (ScheduleItemKind × ℕ)
to_item r = (r.position, (ScheduleItemKind.from_db r.item_kind, r.ref_id))

unfoldable pub read_row : List (ℕ × (ScheduleItemKind × ℕ)) → ScheduleRow → Schedule
read_row items r = record {
  id = r.id;
  name = r.name;
  enabled = not (r.enabled == 0);
  trigger = trigger_of r.trigger_kind r.trigger_at r.trigger_cron;
  destination_ids = unwrap_or r.destination_ids [];
  standby_asset_id = r.standby_asset_id;
  end_behavior = EndBehavior.from_db r.end_behavior;
  until_at = r.until_at;
  items = items;
  next_run_at = r.next_run_at;
}

-- `order` is the `ORDER BY position`.
unfoldable pub load_schedule : (List ItemRow → List ItemRow) → ℕ → Planner → Option Schedule
load_schedule order id p =
    find? (λ r. r.id == id) p.schedules
    >>= (λ r. some (read_row (map to_item (order (items_of id p.items))) r))

abbrev pub nudge : ℕ → Planner → Planner
nudge now p = record p { schedule_nudge = now }

abbrev pub answer : MuxshedError → Option Schedule → MuxshedError ⊎ Schedule
answer e none = inl e
answer e (some s) = inr s

-- `id` is new.
unfoldable pub create :
    Calendar
    → (List ItemRow → List ItemRow)
    → ℕ
    → ℕ
    → UpsertSchedule
    → Planner
    → (MuxshedError ⊎ Schedule) × Planner
create c order now id u p = elim (validate c u.trigger) [
  | some e ↦ (inl e, p)
  | none ↦
      let inserted = record p {
        schedules = p.schedules ++ (row_of c (system_tz c p) now id u ∷ []);
      } in
      let saved = nudge now (replace_items id u.items inserted) in
      (answer (internal "load") (load_schedule order id saved), saved)
]

abbrev pub has_schedule : ℕ → Planner → Bool
has_schedule id p = any (λ r. r.id == id) p.schedules

abbrev pub no_schedule : ℕ → MuxshedError
no_schedule id = not_found (concat ("schedule " ∷ decimal id ∷ []))

unfoldable pub update :
    Calendar
    → (List ItemRow → List ItemRow)
    → ℕ
    → ℕ
    → UpsertSchedule
    → Planner
    → (MuxshedError ⊎ Schedule) × Planner
update c order now id u p = elim (validate c u.trigger) [
  | some e ↦ (inl e, p)
  | none ↦
      let row = row_of c (system_tz c p) now id u in
      let written = record p { schedules = map (λ r. if r.id == id then row else r) p.schedules } in
      let saved = nudge now (replace_items id u.items written) in
      if has_schedule id p
      then (answer (not_found (decimal id)) (load_schedule order id saved), saved)
      else (inl (no_schedule id), p)
]

-- The items go with their schedule (`ON DELETE CASCADE`).
unfoldable pub delete : ℕ → ℕ → Planner → Option MuxshedError × Planner
delete now id p =
    if has_schedule id p
    then (
      none,
      nudge now (record p {
        schedules = keep_if (λ r. not (r.id == id)) p.schedules;
        items = keep_if (λ r. not (r.schedule_id == id)) p.items;
      }),
    )
    else (some (no_schedule id), p)

unfoldable pub run_now : ℕ → Planner → Option MuxshedError × Planner
run_now id p =
    if is_some p.active_schedule
    then (some (bad_request "already live"), p)
    else (none, record p { started = id ∷ p.started })

abbrev pub recomputed_row : Calendar → String → ℕ → ScheduleRow → ScheduleRow
recomputed_row c tz now r =
    if r.enabled == 1
    then record r {
      next_run_at = next_run_after c tz (trigger_of r.trigger_kind r.trigger_at r.trigger_cron) now;
    }
    else r

-- The rows that are enabled get their next run anew.
unfoldable pub recompute : Calendar → String → ℕ → List ScheduleRow → List ScheduleRow
recompute c tz now rows = map (recomputed_row c tz now) rows

unfoldable pub set_timezone : Calendar → ℕ → String → Planner → Option MuxshedError × Planner
set_timezone c now timezone p =
    let stored = record p { system_timezone = some timezone } in
    if c.zone_known timezone
    then (
      none,
      nudge now (record stored { schedules = recompute c (system_tz c stored) now p.schedules }),
    )
    else (some (bad_request "unknown timezone"), p)

-- What the scheduler reads of a row.
abbrev pub scheduled : ScheduleRow → Scheduler.Schedule
scheduled r = record {
  id = r.id;
  trigger = trigger_of r.trigger_kind r.trigger_at r.trigger_cron;
  next_run_at = r.next_run_at;
  enabled = r.enabled == 1;
}
