-- ===== src/Schedules/NextRun.antt =====
-- The next run of a trigger: crates/api/src/schedule_time.rs.
use shed.Prelude.{
  ltb, ◌==◌, if◌then◌else◌, ℕ, String, Bool, Option, none, some, [], ◌∷◌, ◌>>=◌, concat, trim,
  word_count,
}
use shed.Types.{TriggerKind, once, cron}

-- A date and time in either format, the one instant that it has in a zone, if it has just one; whether the cron crate
-- takes an expression of six fields, and its next instant after another.
pub record Calendar : Type 0 where
  pub parse_local : String → Option ℕ
  pub to_utc : String → ℕ → Option ℕ
  pub cron_valid : String → Bool
  pub cron_next : String → String → ℕ → Option ℕ
  pub zone_known : String → Bool

-- `to_six_field` of schedule_time.rs, and `six` of the routes.
unfoldable pub to_six_field : String → String
to_six_field expr = if word_count expr == 5 then concat ("0 " ∷ trim expr ∷ []) else trim expr

unfoldable pub six : String → String
six expr = if word_count expr == 5 then concat ("0 " ∷ trim expr ∷ []) else trim expr

-- `UTC` for a name that is not known.
abbrev pub parse_tz : Calendar → String → String
parse_tz c name = if c.zone_known name then name else "UTC"

abbrev pub if_later : ℕ → ℕ → Option ℕ
if_later after utc = if ltb after utc then some utc else none

unfoldable pub next_run_after : Calendar → String → TriggerKind → ℕ → Option ℕ
next_run_after c tz (once moment) after = (c.parse_local moment >>= c.to_utc tz) >>= if_later after
next_run_after c tz (cron expr) after =
    if c.cron_valid (to_six_field expr) then c.cron_next (to_six_field expr) tz after else none
