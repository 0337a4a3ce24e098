-- ===== src/Scheduler/Examples.antt =====
-- Tests and instances for the scheduler.
use shed.Prelude.{unwrap_or, All, ◌+◌, ◌≡◌, refl, ap, true, false, none, some, [], ◌∷◌, arith}
use shed.Types.{once, cron, idle}
use shed.Scheduler.{
  Scheduler, NextRun, is_due, due_schedules, ensure_next_run, ensure_next_runs, handle_due,
  handle_all, pass,
}
use shed.Scheduler.Passes.{pass_clears_due}

-- Every trigger runs again ten later.
abbrev ten_later : NextRun
ten_later = λ trigger now. some (now + 10)

abbrev two_due : Scheduler
two_due = record {
  schedules =
      record { id = 1; trigger = cron "a"; next_run_at = some 5; enabled = true }
      ∷ record { id = 2; trigger = once "b"; next_run_at = some 6; enabled = true }
      ∷ [];
  schedule_runs = [];
  ws = [];
  fired = [];
  active_schedule = none;
  pipeline = idle;
}

-- Both are fired in one pass.
both_fire : (pass ten_later 7 two_due).fired ≡ 2 ∷ 1 ∷ []
unfolding pass ensure_next_runs ensure_next_run due_schedules handle_all handle_due
both_fire = refl

pass_clears_due_example : All (λ r. is_due 7 r ≡ false) (pass ten_later 7 two_due).schedules
pass_clears_due_example =
    pass_clears_due ten_later 7 two_due
      (λ trigger t e. let later : 17 ≡ t = ap (λ o. unwrap_or o 0) e in omega arith)
