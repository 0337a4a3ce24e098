-- ===== src/Schedules/Times.antt =====
-- When a schedule that is saved runs: crates/api/src/schedule_time.rs, routes/schedules.rs and scheduler.rs.
use shed.Prelude.{
  ◌==◌, Option-cases, ℕ, ◌<◌, String, ◌≡◌, refl, ◌∙◌, inl, inr, true, false, Option, none, some,
  List, [], ◌∷◌, map, arith, ◌>>=◌, if_cases,
}
use shed.Types.{TriggerKind, once, cron}
use shed.Scheduler.{is_due, due_schedules}
use shed.Schedules.{scheduled, recompute, recomputed_row, set_timezone, trigger_of}
use shed.Schedules.Rows.{ScheduleRow, Planner}
use shed.Schedules.NextRun.{Calendar, next_run_after, if_later, to_six_field}

-- The cron crate's next instant is after the one that it is given.
abbrev pub IsAhead : Calendar → Type 0
IsAhead c = (expr tz : String) (after t : ℕ) → c.cron_next expr tz after ≡ some t → after < t

later : (after : ℕ) (utc : Option ℕ) (t : ℕ) → (utc >>= if_later after) ≡ some t → after < t
later after none t h = cc
later after (some utc) t h = ground (arith, h)

pub next_run_after-later :
    (c : Calendar)
    → IsAhead c
    → (tz : String) (trigger : TriggerKind) (after t : ℕ)
    → next_run_after c tz trigger after ≡ some t
    → after < t
unfolding next_run_after
next_run_after-later c ahead tz (once moment) after t h =
    later after (c.parse_local moment >>= c.to_utc tz) t h
next_run_after-later c ahead tz (cron expr) after t h =
    ground (arith, h, ahead (to_six_field expr) tz after t)

-- A row whose next run is computed at `now` is not due then.
waits :
    (c : Calendar)
    → IsAhead c
    → (tz : String) (now : ℕ) (r : ScheduleRow) (trigger : TriggerKind)
    → r.next_run_at ≡ next_run_after c tz trigger now
    → is_due now (scheduled r) ≡ false
waits c ahead tz now r trigger e = elim (Option-cases (next_run_after c tz trigger now)) [
  | inl h ↦ rw (e ∙ h) (ground arith)
  | inr (t, h) ↦ rw (e ∙ h) (ground (arith, next_run_after-later c ahead tz trigger now t h))
]

recomputed_row_waits :
    (c : Calendar)
    → IsAhead c
    → (tz : String) (now : ℕ) (r : ScheduleRow)
    → is_due now (scheduled (recomputed_row c tz now r)) ≡ false
recomputed_row_waits c ahead tz now r =
    let trigger = trigger_of r.trigger_kind r.trigger_at r.trigger_cron in
    let moved = record r { next_run_at = next_run_after c tz trigger now } in
    if_cases (λ x. is_due now (scheduled x) ≡ false) (r.enabled == 1) moved r
      (λ on. waits c ahead tz now moved trigger refl) (λ off. ground (arith, off))

recomputed_waits :
    (c : Calendar)
    → IsAhead c
    → (tz : String) (now : ℕ) (rows : List ScheduleRow)
    → due_schedules now (map scheduled (recompute c tz now rows)) ≡ []
unfolding recompute due_schedules
recomputed_waits c ahead tz now [] = refl
recomputed_waits c ahead tz now (r ∷ rows) =
    ground (arith, recomputed_row_waits c ahead tz now r, recomputed_waits c ahead tz now rows)

ids-recompute :
    (c : Calendar) (tz : String) (now : ℕ) (rows : List ScheduleRow)
    → map (λ r. r.id) (recompute c tz now rows) ≡ map (λ r. r.id) rows
unfolding recompute
ids-recompute c tz now [] = refl
ids-recompute c tz now (r ∷ rows) = ground (arith, ids-recompute c tz now rows)

enabled-recompute :
    (c : Calendar) (tz : String) (now : ℕ) (rows : List ScheduleRow)
    → map (λ r. r.enabled) (recompute c tz now rows) ≡ map (λ r. r.enabled) rows
unfolding recompute
enabled-recompute c tz now [] = refl
enabled-recompute c tz now (r ∷ rows) = ground (arith, enabled-recompute c tz now rows)

-- A change of the time zone leaves no schedule due: every enabled row gets a next run that is later than the change, or none.
-- So a run that has come due, and that the scheduler has not handled yet, is passed over, and it stays as enabled
-- as it was. The zone is known, and the cron crate's next instants are later.
pub new_timezone_passes_over_due :
    (c : Calendar)
    → IsAhead c
    → (now : ℕ) (timezone : String) (p : Planner) → c.zone_known timezone ≡ true
    → let p' = (set_timezone c now timezone p).1 in
      (due_schedules now (map scheduled p'.schedules) ≡ [])
      × (map (λ r. r.id) p'.schedules ≡ map (λ r. r.id) p.schedules)
      × (map (λ r. r.enabled) p'.schedules ≡ map (λ r. r.enabled) p.schedules)
unfolding set_timezone
new_timezone_passes_over_due c ahead now timezone p known = rw known (
  recomputed_waits c ahead timezone now p.schedules,
  ids-recompute c timezone now p.schedules,
  enabled-recompute c timezone now p.schedules,
)
