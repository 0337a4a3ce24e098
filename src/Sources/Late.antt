-- ===== src/Sources/Late.antt =====
-- A browser source that is deleted before it has started: crates/api/src/routes/sources.rs, `create` and `delete`,
-- and browser_source.rs.
use shed.Prelude.{is_some, ℕ, String, ◌≡◌, true, Option, none, some, arith}
use shed.Prelude.Maps.{lookup}
use shed.Output.{OutputConfig}
use shed.Browser.{Browsers, Desktop, start_browser_source}
use shed.Browser.Processes.{Started, start-Started}
use shed.Sources.{has_row, delete, browser_started}
use shed.Sources.State.{AppState}
use shed.Sources.Teardown.{delete-IsGone, delete_refused}

Started-running :
    (id : ℕ) (b : Browsers) (r : Option String × Browsers)
    → Started id b r
    → r.0 ≡ none
    → (is_some (lookup r.1.browser_sources id) ≡ true)
      × (is_some (lookup r.1.media.source_normalizers id) ≡ true)
      × (is_some (lookup r.1.media.ingest.media_relays id) ≡ true)
Started-running id b (none, b') h e = (h.1, h.2, h.3)
Started-running id b (some m, b') h e = cc

-- The start of a browser source is a task of its own. When the source is deleted before the task starts Chrome, and the start
-- succeeds, the page runs for a source that no longer has a row: Chrome, its ffmpeg and a relay are
-- there, and a second deletion is refused.
pub late_start_survives_delete :
    (d : Desktop) (cfg : OutputConfig) (id : ℕ) (url : String) (s : AppState)
    → has_row id s.sources ≡ true
    → (start_browser_source d cfg id url (delete id s).1.browsers).0 ≡ none
    → let s' = browser_started d cfg id url (delete id s).1 in
      (is_some (lookup s'.browsers.browser_sources id) ≡ true)
      × (is_some (lookup s'.browsers.media.source_normalizers id) ≡ true)
      × (is_some (lookup s'.browsers.media.ingest.media_relays id) ≡ true)
      × (is_some (delete id s').0 ≡ true)
unfolding browser_started
late_start_survives_delete d cfg id url s row starts =
    let b = (delete id s).1.browsers in
    let (chrome, ffmpeg, relay) =
      Started-running id b (start_browser_source d cfg id url b) (start-Started d cfg id url b)
        starts in
    let gone = delete-IsGone id s row in
    (
      chrome,
      ffmpeg,
      relay,
      delete_refused id (browser_started d cfg id url (delete id s).1)
          (ground (arith, gone.rows id)),
    )
