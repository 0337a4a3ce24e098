-- ===== src/Browser/Processes.antt =====
-- Which processes a browser source has: crates/api/src/browser_source.rs.
use shed.Prelude.{
  ◌==◌, is_some, unwrap_or, ℕ, String, ◌≡◌, refl, inl, inr, true, false, Option, none, some, arith,
  Sum-cases,
}
use shed.Prelude.Maps.{lookup, remove, lookup-insert}
use shed.Output.{OutputConfig}
use shed.WebRtc.{with_relay}
use shed.Media.{stop_normalizer}
use shed.Rtmp.{install_normalizer}
use shed.Browser.{
  Browsers, Desktop, chrome_args, frame_args, install_chrome, start_frames, start_chrome,
  start_browser_source,
}

-- A start of a browser source, by its result: Chrome and ffmpeg run for it and it has a relay; or nothing
-- runs that did not. Other sources keep theirs.
abbrev pub Started : ℕ → Browsers → Option String × Browsers → Type 0
Started id b (none, b') =
    ((j : ℕ) → (id == j) ≡ false → lookup b'.browser_sources j ≡ lookup b.browser_sources j)
    × (is_some (lookup b'.browser_sources id) ≡ true)
    × (is_some (lookup b'.media.source_normalizers id) ≡ true)
    × (is_some (lookup b'.media.ingest.media_relays id) ≡ true)
Started id b (some e, b') =
    (b'.browser_sources ≡ b.browser_sources)
    × (b'.media.source_normalizers ≡ b.media.source_normalizers)

start_frames-Started :
    (d : Desktop) (cfg : OutputConfig) (id chrome : ℕ) (b : Browsers)
    → Started id b (start_frames d cfg id chrome b)
unfolding install_chrome install_normalizer stop_normalizer with_relay start_frames
start_frames-Started d cfg id chrome b = elim (Sum-cases (d.ffmpeg (frame_args cfg))) [
  | inl (e, h) ↦ rw (start_frames, h) (refl, refl)
  | inr (pid, h) ↦
      let relays = b.media.ingest.media_relays in
      rw (start_frames, h)
        (
          λ j other. ground (arith, other, lookup-insert b.browser_sources id chrome j),
          ground (arith, lookup-insert b.browser_sources id chrome id),
          ground (arith, lookup-insert (remove b.media.source_normalizers id) id pid id),
          ground (arith, lookup-insert relays id (unwrap_or (lookup relays id) d.relay) id),
        )
]

start_chrome-Started :
    (d : Desktop) (cfg : OutputConfig) (id : ℕ) (url : String) (port : ℕ) (b : Browsers)
    → Started id b (start_chrome d cfg id url port b)
unfolding start_chrome
start_chrome-Started d cfg id url port b = elim (Sum-cases (d.chrome (chrome_args port cfg url))) [
  | inl (e, h) ↦ rw (start_chrome, h) (refl, refl)
  | inr (chrome, h) ↦ elim (Sum-cases (d.wait_for_page_ws port)) [
    | inl (e, q) ↦ rw (start_chrome, h, q) (refl, refl)
    | inr (ws_url, q) ↦ rw (start_chrome, h, q) (start_frames-Started d cfg id chrome b)
  ]
]

pub start-Started :
    (d : Desktop) (cfg : OutputConfig) (id : ℕ) (url : String) (b : Browsers)
    → Started id b (start_browser_source d cfg id url b)
unfolding start_browser_source
start-Started d cfg id url b = elim (Sum-cases d.pick_port) [
  | inl (e, h) ↦ rw (start_browser_source, h) (refl, refl)
  | inr (port, h) ↦ rw (start_browser_source, h) (start_chrome-Started d cfg id url port b)
]
