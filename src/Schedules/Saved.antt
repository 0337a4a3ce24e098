-- ===== src/Schedules/Saved.antt =====
-- A schedule that is saved is the one that is read: crates/api/src/routes/schedules.rs.
use shed.Prelude.{
  ◌==◌, if◌then◌else◌, Bool-cases, Option-cases, keep_if, any, find?, ℕ, suc, ◌≤◌, String, ◌≡◌,
  refl, ap, ◌∙◌, ◌⊎◌, inl, inr, true, false, not, none, some, List, [], ◌∷◌, ◌++◌, map, arith,
  ◌>>=◌,
}
use shed.Types.{TriggerKind, once, cron}
use shed.Types.EndBehavior as EndBehavior
use shed.Types.EndBehavior.{EndBehavior, stop, loop, standby}
use shed.Types.ScheduleItemKind as ScheduleItemKind
use shed.Types.ScheduleItemKind.{ScheduleItemKind, vod, scene, source}
use shed.Types.MuxshedError.{MuxshedError}
use shed.Schedules.{
  validate, trigger_cols, trigger_of, system_tz, row_of, item_rows, items_of, replace_items,
  read_row, to_item, load_schedule, has_schedule, nudge, create, update,
}
use shed.Schedules.Rows.{UpsertSchedule, ScheduleRow, ItemRow, Planner, Schedule}
use shed.Schedules.NextRun.{Calendar, next_run_after}

trigger_of-cols :
    (t : TriggerKind) → trigger_of (trigger_cols t).0 (trigger_cols t).1.0 (trigger_cols t).1.1 ≡ t
unfolding trigger_of trigger_cols
trigger_of-cols (once moment) = refl
trigger_of-cols (cron expr) = refl

end-from_db : (e : EndBehavior) → EndBehavior.from_db (EndBehavior.as_str e) ≡ e
unfolding EndBehavior.from_db EndBehavior.as_str
end-from_db stop = refl
end-from_db loop = refl
end-from_db standby = refl

kind-from_db : (k : ScheduleItemKind) → ScheduleItemKind.from_db (ScheduleItemKind.as_str k) ≡ k
unfolding ScheduleItemKind.from_db ScheduleItemKind.as_str
kind-from_db vod = refl
kind-from_db scene = refl
kind-from_db source = refl

-- The items of a request with their positions.
abbrev pub numbered : ℕ → List (ScheduleItemKind × ℕ) → List (ℕ × (ScheduleItemKind × ℕ))
numbered i [] = []
numbered i (item ∷ items) = (i, item) ∷ numbered (suc i) items

-- The schedule that a request describes.
abbrev pub described : Calendar → String → ℕ → ℕ → UpsertSchedule → Schedule
described c tz now id u = record {
  id = id;
  name = u.name;
  enabled = u.enabled;
  trigger = u.trigger;
  destination_ids = u.destination_ids;
  standby_asset_id = u.standby_asset_id;
  end_behavior = u.end_behavior;
  until_at = u.until_at;
  items = numbered 0 u.items;
  next_run_at = next_run_after c tz u.trigger now;
}

abbrev pub Ascends : ℕ → List ItemRow → Type 0
Ascends i [] = Unit {0}
Ascends i (r ∷ rows) = (i ≤ r.position) × Ascends (suc r.position) rows

-- `ORDER BY position` leaves rows whose positions ascend.
abbrev pub KeepsAscending : (List ItemRow → List ItemRow) → Type 0
KeepsAscending order = (rows : List ItemRow) → Ascends 0 rows → order rows ≡ rows

item_rows-Ascends :
    (id i : ℕ) (items : List (ScheduleItemKind × ℕ)) → Ascends i (item_rows id i items)
unfolding item_rows
item_rows-Ascends id i [] = tt
item_rows-Ascends id i ((kind, ref_id) ∷ items) = (omega arith, item_rows-Ascends id (suc i) items)

to_item-item_rows :
    (id i : ℕ) (items : List (ScheduleItemKind × ℕ))
    → map to_item (item_rows id i items) ≡ numbered i items
unfolding item_rows
to_item-item_rows id i [] = refl
to_item-item_rows id i ((kind, ref_id) ∷ items) =
    ground (arith, kind-from_db kind, to_item-item_rows id (suc i) items)

items_of-item_rows :
    (id i : ℕ) (items : List (ScheduleItemKind × ℕ))
    → items_of id (item_rows id i items) ≡ item_rows id i items
unfolding item_rows
items_of-item_rows id i [] = refl
items_of-item_rows id i ((kind, ref_id) ∷ items) =
    ground (arith, items_of-item_rows id (suc i) items)

items_of-replaced :
    (id : ℕ) (rows : List ItemRow) (items : List (ScheduleItemKind × ℕ))
    → items_of id (keep_if (λ r. not (r.schedule_id == id)) rows ++ item_rows id 0 items)
      ≡ item_rows id 0 items
items_of-replaced id [] items = items_of-item_rows id 0 items
items_of-replaced id (r ∷ rows) items = ground (arith, items_of-replaced id rows items)

id-row_of :
    (c : Calendar) (tz : String) (now id : ℕ) (u : UpsertSchedule) → (row_of c tz now id u).id ≡ id
unfolding row_of
id-row_of c tz now id u = refl

read_row-row_of :
    (c : Calendar) (tz : String) (now id : ℕ) (u : UpsertSchedule)
    → read_row (numbered 0 u.items) (row_of c tz now id u) ≡ described c tz now id u
unfolding read_row row_of
read_row-row_of c tz now id u =
    ground (arith, trigger_of-cols u.trigger, end-from_db u.end_behavior)

-- Whatever wrote the row and the items, they are read as the request describes them.
load-described :
    (c : Calendar) (order : List ItemRow → List ItemRow)
    → KeepsAscending order
    → (tz : String) (now id : ℕ) (u : UpsertSchedule) (p : Planner)
    → find? (λ r. r.id == id) p.schedules ≡ some (row_of c tz now id u)
    → items_of id p.items ≡ item_rows id 0 u.items
    → load_schedule order id p ≡ some (described c tz now id u)
unfolding load_schedule
load-described c order keeps tz now id u p found items =
    let ordered = keeps (item_rows id 0 u.items) (item_rows-Ascends id 0 u.items) in
    let read : map to_item (order (items_of id p.items)) ≡ numbered 0 u.items =
      ap (λ rows. map to_item (order rows)) items
      ∙ ap (map to_item) ordered
      ∙ to_item-item_rows id 0 u.items in
    ap (λ o. o >>= (λ r. some (read_row (map to_item (order (items_of id p.items))) r))) found
    ∙ ap some
        (ap (λ rows. read_row rows (row_of c tz now id u)) read ∙ read_row-row_of c tz now id u)

find?-last :
    (id : ℕ) (rows : List ScheduleRow) (row : ScheduleRow)
    → any (λ r. r.id == id) rows ≡ false
    → row.id ≡ id
    → find? (λ r. r.id == id) (rows ++ (row ∷ [])) ≡ some row
find?-last id [] row fresh e = ground (arith, e)
find?-last id (r ∷ rows) row fresh e = ground (arith, fresh, find?-last id rows row)

find?-written :
    (id : ℕ) (rows : List ScheduleRow) (row : ScheduleRow)
    → any (λ r. r.id == id) rows ≡ true
    → row.id ≡ id
    → find? (λ r. r.id == id) (map (λ r. if r.id == id then row else r) rows) ≡ some row
find?-written id [] row there e = cc
find?-written id (r ∷ rows) row there e = ground (arith, there, e, find?-written id rows row)

-- What a request is answered with, on every branch: an error and nothing is written if its trigger is refused, or there is no
-- such schedule; else the schedule that the request describes, with its items numbered in their order, the same that
-- is read from then on.
abbrev pub Saved :
    Calendar
    → (List ItemRow → List ItemRow)
    → String
    → ℕ
    → ℕ
    → UpsertSchedule
    → Planner
    → (MuxshedError ⊎ Schedule) × Planner
    → Type 0
Saved c order tz now id u p (inl e, p') = p' ≡ p
Saved c order tz now id u p (inr s, p') =
    (validate c u.trigger ≡ none)
    × (s ≡ described c tz now id u)
    × (load_schedule order id p' ≡ some (described c tz now id u))

module _ (c : Calendar) (order : List ItemRow → List ItemRow) (keeps : KeepsAscending order) where
  -- A schedule that is created under a new id is the one that the request describes, and is read as
  -- such, with its next run; a request whose trigger is refused writes nothing. An `ORDER BY position` leaves rows
  -- in ascending positions.
  pub create-Saved :
      (now id : ℕ) (u : UpsertSchedule) (p : Planner)
      → has_schedule id p ≡ false
      → Saved c order (system_tz c p) now id u p (create c order now id u p)
  unfolding create replace_items
  create-Saved now id u p fresh = elim (Option-cases (validate c u.trigger)) [
    | inr (e, refused) ↦ rw (create, refused) refl
    | inl valid ↦
        let row = row_of c (system_tz c p) now id u in
        let saved = replace_items id u.items (record p { schedules = p.schedules ++ (row ∷ []) }) in
        let loaded =
          load-described c order keeps (system_tz c p) now id u (nudge now saved)
            (find?-last id p.schedules row fresh (id-row_of c (system_tz c p) now id u))
            (items_of-replaced id p.items u.items) in
        rw (create, valid, loaded) (valid, refl, loaded)
  ]

  -- So is one that is updated; an update of one that does not exist changes nothing.
  pub update-Saved :
      (now id : ℕ) (u : UpsertSchedule) (p : Planner)
      → Saved c order (system_tz c p) now id u p (update c order now id u p)
  unfolding update replace_items
  update-Saved now id u p = elim (Option-cases (validate c u.trigger)) [
    | inr (e, refused) ↦ rw (update, refused) refl
    | inl valid ↦ elim (Bool-cases (has_schedule id p)) [
      | inr absent ↦ rw (update, valid, absent) refl
      | inl there ↦
          let row = row_of c (system_tz c p) now id u in
          let written = map (λ r. if r.id == id then row else r) p.schedules in
          let saved = replace_items id u.items (record p { schedules = written }) in
          let loaded =
            load-described c order keeps (system_tz c p) now id u (nudge now saved)
              (find?-written id p.schedules row there (id-row_of c (system_tz c p) now id u))
              (items_of-replaced id p.items u.items) in
          rw (update, valid, there, loaded) (valid, refl, loaded)
    ]
  ]
