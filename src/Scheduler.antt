-- ===== src/Scheduler.antt =====
-- crates/api/src/scheduler.rs: one pass of the scheduler's loop over the rows of `schedules`. The next
-- run of a trigger (crates/api/src/schedule_time.rs: cron expressions and time zones, which other
-- packages compute) is a function that is given; the clock stands still during a pass; a time is a
-- number, where the table holds its text. A broadcast that is fired is a task of the playout, which runs later.
pub mod Passes
mod Examples
use shed.Prelude.{
  leb, ◌==◌, if◌then◌else◌, is_some, is_none, keep_if, ℕ, String, Bool, true, false, ◌&&◌, ◌||◌,
  Option, none, some, List, [], ◌∷◌, ◌++◌, map,
}
use shed.Types.{TriggerKind, once, cron, PipelineState, live, WsEvent, schedule_skipped}

pub record Schedule : Type 0 where
  pub id : ℕ
  pub trigger : TriggerKind
  pub next_run_at : Option ℕ
  pub enabled : Bool

-- The events and the run rows are newest first; `fired` are the broadcasts started, newest first.
pub record Scheduler : Type 0 where
  pub schedules : List Schedule
  pub schedule_runs : List (ℕ × String)
  pub ws : List WsEvent
  pub fired : List ℕ
  pub active_schedule : Option ℕ
  pub pipeline : PipelineState

abbrev pub NextRun : Type 0
NextRun = TriggerKind → ℕ → Option ℕ

-- `enabled = 1 AND next_run_at IS NOT NULL AND next_run_at <= ?`.
abbrev pub is_due : ℕ → Schedule → Bool
is_due now s = s.enabled && elim s.next_run_at [ none ↦ false | some t ↦ leb t now ]

unfoldable pub due_schedules : ℕ → List Schedule → List (ℕ × TriggerKind)
due_schedules now schedules = map (λ s. (s.id, s.trigger)) (keep_if (is_due now) schedules)

-- `UPDATE schedules SET … WHERE id = ?`.
unfoldable pub update_where : ℕ → (Schedule → Schedule) → List Schedule → List Schedule
update_where id change [] = []
update_where id change (s ∷ schedules) =
    let rest = update_where id change schedules in (if s.id == id then change s else s) ∷ rest

abbrev pub disable : Schedule → Schedule
disable s = record s { enabled = false; next_run_at = none }

abbrev pub set_next : Option ℕ → Schedule → Schedule
set_next next s = record s { next_run_at = next }

-- What `advance` writes.
abbrev pub advanced : NextRun → ℕ → TriggerKind → Schedule → Schedule
advanced next_run now (once moment) = disable
advanced next_run now (cron expr) = set_next (next_run (cron expr) now)

abbrev pub advance : NextRun → ℕ → ℕ → TriggerKind → Scheduler → Scheduler
advance next_run now id trigger s = record s {
  schedules = update_where id (advanced next_run now trigger) s.schedules;
}

abbrev pub is_live : PipelineState → Bool
is_live (live started_at active_scene) = true
is_live _ = false

abbrev pub on_air : Scheduler → Bool
on_air s = is_some s.active_schedule || is_live s.pipeline

unfoldable pub handle_due : NextRun → ℕ → ℕ × TriggerKind → Scheduler → Scheduler
handle_due next_run now (id, trigger) s = advance next_run now id trigger (
    if on_air s
    then record s {
      schedule_runs = (id, "skipped") ∷ s.schedule_runs;
      ws = schedule_skipped id "already live" ∷ s.ws;
    }
    else record s { fired = id ∷ s.fired })

unfoldable pub handle_all : NextRun → ℕ → List (ℕ × TriggerKind) → Scheduler → Scheduler
handle_all next_run now [] s = s
handle_all next_run now (due ∷ rest) s =
    handle_all next_run now rest (handle_due next_run now due s)

-- One row of `ensure_next_runs`, with the run row that it adds.
unfoldable pub ensure_next_run : NextRun → ℕ → Schedule → Schedule × List (ℕ × String)
ensure_next_run next_run now s =
    if s.enabled && is_none s.next_run_at
    then elim (next_run s.trigger now) [
      | some t ↦ (set_next (some t) s, [])
      | none ↦ elim s.trigger [
        | once moment ↦ (record s { enabled = false }, (s.id, "missed") ∷ [])
        | cron expr ↦ (s, [])
      ]
    ]
    else (s, [])

-- The run rows of one-off schedules that were missed.
unfoldable pub missed_runs : NextRun → ℕ → List Schedule → List (ℕ × String)
missed_runs next_run now [] = []
missed_runs next_run now (row ∷ rows) =
    missed_runs next_run now rows ++ (ensure_next_run next_run now row).1

unfoldable pub ensure_next_runs : NextRun → ℕ → Scheduler → Scheduler
ensure_next_runs next_run now s = record s {
  schedules = map (λ row. (ensure_next_run next_run now row).0) s.schedules;
  schedule_runs = missed_runs next_run now s.schedules ++ s.schedule_runs;
}

-- The loop's body, up to its sleep.
unfoldable pub pass : NextRun → ℕ → Scheduler → Scheduler
pass next_run now s =
    let ready = ensure_next_runs next_run now s in
    handle_all next_run now (due_schedules now ready.schedules) ready
