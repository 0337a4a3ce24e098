-- ===== src/Destinations.antt =====
-- Where a broadcast goes: crates/api/src/routes/destinations.rs, and crates/api/src/routes/recording.rs, which starts and stops a
-- recording of the program. The rows are those that the start of a broadcast reads (`Stream`). A query does not
-- fail, and the answer of a success, which shows the row, is left out.
pub mod Toggled
mod Examples
use shed.Prelude.{
  if◌then◌else◌, unwrap_or, option_eq, any, find?, keep_if, ℕ, String, Bool, true, false, not,
  Option, none, some, List, [], ◌∷◌, ◌++◌, map, concat, decimal,
}
use shed.Types.{DestinationKind, rtmp, WsEvent, destination_state}
use shed.Types.MuxshedError.{MuxshedError, not_found, bad_request}
use shed.Stream.{DestRow}
use shed.Scheduler.{is_live}
use shed.Pipeline as Pipeline
use shed.Pipeline.{Pipeline}

-- The events are newest first.
pub record Outputs : Type 0 where
  pub rows : List DestRow
  pub ws : List WsEvent

abbrev pub is_id : ℕ → DestRow → Bool
is_id id r = option_eq r.id (some id)

abbrev pub no_destination : ℕ → MuxshedError
no_destination id = not_found (concat ("destination " ∷ decimal id ∷ []))

-- `id` is new; a row is enabled unless it says otherwise (`DEFAULT 1`).
unfoldable pub create : ℕ → String → DestinationKind → Outputs → Outputs
create id name kind s = record s {
  rows = s.rows ++ (record { id = some id; name = name; kind = some kind; enabled = 1 } ∷ []);
}

unfoldable pub update :
    ℕ → Option String → Option DestinationKind → Outputs → Option MuxshedError × Outputs
update id name kind s = elim (find? (is_id id) s.rows) [
  | none ↦ (some (no_destination id), s)
  | some existing ↦
      let kept = unwrap_or kind (unwrap_or existing.kind (rtmp "" "")) in
      let named = unwrap_or name existing.name in
      (
        none,
        record s {
          rows =
              map (λ r. if is_id id r then record r { name = named; kind = some kept } else r)
                s.rows;
        },
      )
]

unfoldable pub delete : ℕ → Outputs → Option MuxshedError × Outputs
delete id s =
    if any (is_id id) s.rows
    then (none, record s { rows = keep_if (λ r. not (is_id id r)) s.rows })
    else (some (no_destination id), s)

abbrev pub as_i32 : Bool → ℕ
as_i32 b = if b then 1 else 0

-- The egress is not told.
unfoldable pub set_enabled : ℕ → Bool → Outputs → Option MuxshedError × Outputs
set_enabled id enabled s =
    if any (is_id id) s.rows
    then (
      none,
      record {
        rows = map (λ r. if is_id id r then record r { enabled = as_i32 enabled } else r) s.rows;
        ws = destination_state id (if enabled then "enabled" else "disabled") ∷ s.ws;
      },
    )
    else (some (no_destination id), s)

unfoldable pub enable : ℕ → Outputs → Option MuxshedError × Outputs
enable id s = set_enabled id true s

unfoldable pub disable : ℕ → Outputs → Option MuxshedError × Outputs
disable id s = set_enabled id false s

-- `start` and `stop` of routes/recording.rs; `path` is the file's path.
unfoldable pub start_recording : ℕ → String → Pipeline → Option MuxshedError × Pipeline
start_recording now path p =
    if is_live p.state
    then (none, Pipeline.start_recording now path p)
    else (some (bad_request "pipeline must be live to record"), p)

unfoldable pub stop_recording : Pipeline → Option MuxshedError × Pipeline
stop_recording p =
    if p.recording.recording
    then (none, Pipeline.stop_recording p)
    else (some (bad_request "not recording"), p)
