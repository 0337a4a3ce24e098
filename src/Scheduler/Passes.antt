-- ===== src/Scheduler/Passes.antt =====
-- What a pass of the scheduler does: crates/api/src/scheduler.rs.
use shed.Prelude.{
  ◌==◌, if◌then◌else◌, Bool-cases, Option-cases, All, any, ℕ, ◌<◌, String, ◌≡◌, refl, sym, ap, inl,
  inr, true, false, some, List, [], ◌∷◌, arith, if_cases,
}
use mathlib.Core.Path.{subst}
use shed.Types.{TriggerKind, once, cron}
use shed.Scheduler.{
  Schedule, Scheduler, NextRun, is_due, due_schedules, update_where, advanced, on_air, handle_due,
  handle_all, ensure_next_runs, pass,
}

-- The next run of a trigger lies after the time that it is asked for.
abbrev pub IsLater : NextRun → ℕ → Type 0
IsLater next_run now = (trigger : TriggerKind) (t : ℕ) → next_run trigger now ≡ some t → now < t

-- A row that is advanced is not due.
advanced_not_due :
    (next_run : NextRun) (now : ℕ) (trigger : TriggerKind) (s : Schedule)
    → IsLater next_run now
    → is_due now (advanced next_run now trigger s) ≡ false
advanced_not_due next_run now (once moment) s later = refl
advanced_not_due next_run now (cron expr) s later = elim (Option-cases (next_run (cron expr) now)) [
  | inl e ↦ rw e (ground arith)
  | inr (t, e) ↦ let after = later (cron expr) t e in rw e (ground (arith, after))
]

handle_due_rows :
    (next_run : NextRun) (now : ℕ) (due : ℕ × TriggerKind) (s : Scheduler)
    → (handle_due next_run now due s).schedules
      ≡ update_where due.0 (advanced next_run now due.1) s.schedules
unfolding handle_due
handle_due_rows next_run now (id, trigger) s = ground arith

-- Every due row has its id among those that are still to be handled.
abbrev Covered : ℕ → List (ℕ × TriggerKind) → List Schedule → Type 0
Covered now dues rows = All (λ s. is_due now s ≡ true → any (λ d. d.0 == s.id) dues ≡ true) rows

advanced-Covered :
    (next_run : NextRun) (now : ℕ) (due : ℕ × TriggerKind) (dues : List (ℕ × TriggerKind))
    (rows : List Schedule)
    → IsLater next_run now
    → Covered now (due ∷ dues) rows
    → Covered now dues (update_where due.0 (advanced next_run now due.1) rows)
unfolding update_where
advanced-Covered next_run now due dues [] later h = tt
advanced-Covered next_run now due dues (s ∷ rows) later h = (
  if_cases (λ r. is_due now r ≡ true → any (λ d. d.0 == r.id) dues ≡ true) (s.id == due.0)
      (advanced next_run now due.1 s) s
      (λ e q. absurd (ground (arith, advanced_not_due next_run now due.1 s later, q)))
      (λ e q. ground (arith, h.0 q, e)),
  advanced-Covered next_run now due dues rows later h.1,
)

none_left :
    (now : ℕ) (rows : List Schedule) → Covered now [] rows → All (λ r. is_due now r ≡ false) rows
none_left now [] h = tt
none_left now (s ∷ rows) h = (
  elim (Bool-cases (is_due now s)) [ inl e ↦ absurd (ground (arith, h.0 e)) | inr e ↦ e ],
  none_left now rows h.1,
)

handled_rows :
    (next_run : NextRun) (now : ℕ) (dues : List (ℕ × TriggerKind)) (s : Scheduler)
    → IsLater next_run now
    → Covered now dues s.schedules
    → All (λ r. is_due now r ≡ false) (handle_all next_run now dues s).schedules
unfolding handle_all
handled_rows next_run now [] s later h = none_left now s.schedules h
handled_rows next_run now (due ∷ dues) s later h =
    handled_rows next_run now dues (handle_due next_run now due s) later (
      subst (Covered now dues) (sym (handle_due_rows next_run now due s))
        (advanced-Covered next_run now due dues s.schedules later h))

cons-Covered :
    (now : ℕ) (d : ℕ × TriggerKind) (dues : List (ℕ × TriggerKind)) (rows : List Schedule)
    → Covered now dues rows
    → Covered now (d ∷ dues) rows
cons-Covered now d dues [] h = tt
cons-Covered now d dues (s ∷ rows) h =
    (λ q. ground (arith, h.0 q), cons-Covered now d dues rows h.1)

due_schedules-cons :
    (now : ℕ) (s : Schedule) (rows : List Schedule)
    → due_schedules now (s ∷ rows) ≡ (
        if is_due now s then (s.id, s.trigger) ∷ due_schedules now rows else due_schedules now rows)
unfolding due_schedules
due_schedules-cons now s rows = ground arith

due_schedules-Covered : (now : ℕ) (rows : List Schedule) → Covered now (due_schedules now rows) rows
due_schedules-Covered now [] = tt
due_schedules-Covered now (s ∷ rows) = elim (Bool-cases (is_due now s)) [
  | inl e ↦
      let step : due_schedules now (s ∷ rows) ≡ (s.id, s.trigger) ∷ due_schedules now rows =
        ground (arith, due_schedules-cons now s rows, e) in
      subst (λ ds. Covered now ds (s ∷ rows)) (sym step)
        (
          λ q. ground arith,
          cons-Covered now (s.id, s.trigger) (due_schedules now rows) rows
              (due_schedules-Covered now rows),
        )
  | inr e ↦
      let step : due_schedules now (s ∷ rows) ≡ due_schedules now rows =
        ground (arith, due_schedules-cons now s rows, e) in
      subst (λ ds. Covered now ds (s ∷ rows)) (sym step)
        (λ q. absurd (ground (arith, q, e)), due_schedules-Covered now rows)
]

-- After a pass no schedule is due any more: each one that was has been handled and moved on or
-- disabled, so that the next pass does not handle it again, where the next run of a trigger lies after
-- the time it is asked for.
pub pass_clears_due :
    (next_run : NextRun) (now : ℕ) (s : Scheduler)
    → IsLater next_run now
    → All (λ r. is_due now r ≡ false) (pass next_run now s).schedules
unfolding pass
pass_clears_due next_run now s later =
    let ready = ensure_next_runs next_run now s in
    handled_rows next_run now (due_schedules now ready.schedules) ready later
      (due_schedules-Covered now ready.schedules)

-- The ids of a list of due schedules, in a newest-first list.
abbrev pub push_ids : List (ℕ × TriggerKind) → List ℕ → List ℕ
push_ids [] ids = ids
push_ids (due ∷ dues) ids = push_ids dues (due.0 ∷ ids)

abbrev pub push_skips : List (ℕ × TriggerKind) → List (ℕ × String) → List (ℕ × String)
push_skips [] runs = runs
push_skips (due ∷ dues) runs = push_skips dues ((due.0, "skipped") ∷ runs)

handle_due_effects :
    (next_run : NextRun) (now : ℕ) (due : ℕ × TriggerKind) (s : Scheduler)
    → (on_air (handle_due next_run now due s) ≡ on_air s)
      × ((handle_due next_run now due s).fired ≡ (if on_air s then s.fired else due.0 ∷ s.fired))
      × ((handle_due next_run now due s).schedule_runs
          ≡ (if on_air s then (due.0, "skipped") ∷ s.schedule_runs else s.schedule_runs))
unfolding handle_due
handle_due_effects next_run now (id, trigger) s = ground arith

handle_all_effects :
    (next_run : NextRun) (now : ℕ) (dues : List (ℕ × TriggerKind)) (s : Scheduler)
    → ((handle_all next_run now dues s).fired
        ≡ (if on_air s then s.fired else push_ids dues s.fired))
      × ((handle_all next_run now dues s).schedule_runs
          ≡ (if on_air s then push_skips dues s.schedule_runs else s.schedule_runs))
unfolding handle_all
handle_all_effects next_run now [] s = (ground arith, ground arith)
handle_all_effects next_run now (due ∷ dues) s =
    let (air, fired, runs) = handle_due_effects next_run now due s in
    let (ih_fired, ih_runs) =
      handle_all_effects next_run now dues (handle_due next_run now due s) in
    elim (Bool-cases (on_air s)) [
      | inl e ↦
          let f : (handle_due next_run now due s).fired ≡ s.fired = ground (arith, fired, e) in
          let r : (handle_due next_run now due s).schedule_runs
              ≡ (due.0, "skipped") ∷ s.schedule_runs =
            ground (arith, runs, e) in
          (
            ground (arith, ih_fired, air, e, f),
            ground (arith, ih_runs, air, e, ap (push_skips dues) r),
          )
      | inr e ↦
          let f : (handle_due next_run now due s).fired ≡ due.0 ∷ s.fired =
            ground (arith, fired, e) in
          let r : (handle_due next_run now due s).schedule_runs ≡ s.schedule_runs =
            ground (arith, runs, e) in
          (
            ground (arith, ih_fired, air, e, ap (push_ids dues) f),
            ground (arith, ih_runs, air, e, r),
          )
    ]

-- A pass that begins while a broadcast is on air fires nothing and records every due schedule as
-- skipped; one that begins while none is fires every schedule that is due, all of them however many
-- there are, and skips none.
pub pass_fires_all_or_none :
    (next_run : NextRun) (now : ℕ) (s : Scheduler)
    → let ready = ensure_next_runs next_run now s in
      let dues = due_schedules now ready.schedules in
      ((pass next_run now s).fired ≡ (if on_air s then s.fired else push_ids dues s.fired))
      × ((pass next_run now s).schedule_runs
          ≡ (if on_air s then push_skips dues ready.schedule_runs else ready.schedule_runs))
unfolding pass ensure_next_runs
pass_fires_all_or_none next_run now s =
    let ready = ensure_next_runs next_run now s in
    handle_all_effects next_run now (due_schedules now ready.schedules) ready
