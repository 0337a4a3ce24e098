-- ===== src/Lib.antt =====
-- Verification of Muxshed, a live production server: sources come in over RTMP, SRT, WebRTC or from
-- files, one of them is on the program at a time, and the program is pushed to destinations and to
-- a public watch page. The modules model the Rust code under crates/.
--
-- The parts and how they interact. A reader task turns the FLV output of an ffmpeg process into
-- tags (`Flv`, `Flv.Demux`), caches a source's headers and last keyframe, and sends every tag to
-- the source's relay (`Ingest`). The failover supervisor (`Failover`) watches the intended source
-- and decides which source is on the program; the program router (`Program`) reads that choice and
-- copies the source's tags to the program channel under one continuous clock. The egress (`Egress`)
-- feeds the program to one ffmpeg process for each destination, and the pipeline controller
-- (`Pipeline`) keeps the broadcast's state and announces it. The stream routes (`Stream`) start and
-- stop all of these, and the output route (`Output`) sets what the encoders are asked for. The
-- scheduler (`Scheduler`) fires broadcasts when they come due, and the playout (`Playout`) airs them.
-- Sources also come from players of files and from the compositors of scenes (`Media`, `Scene`) and
-- from WebRTC publishers (`WebRtc`, `Whip`). Requests pass a check of their credentials (`Auth`), and
-- the audio has a routing of its own (`Audio`). The public watch page is
-- `Channel`. Sources are made and deleted in `Sources` (a web page is one by `Browser`), scenes and
-- their layers in `Layers`, and schedules in `Schedules`; `Destinations` says where a broadcast goes,
-- `Library` keeps the media files and `Stingers` the transitions between scenes.
--
-- Which file models what:
--   Types            crates/common/src/types.rs, events.rs, error.rs; the plain data of
--                    crates/api/src/state.rs
--   Flv              crates/api/src/rtmp/flv.rs
--   Flv.Demux        the tag loop of `read_flv_output` in crates/api/src/srt.rs
--   Ingest           `read_flv_output`, `stop_srt_listener` and `assign_srt_port` of
--                    crates/api/src/srt.rs
--   Program          `run_program_router` of crates/api/src/program.rs: `enter` is the outer loop's
--                    head, `select_step` one turn of its `select!`, `task_step` the whole task
--   Failover         crates/api/src/failover.rs: `evaluate` is the supervisor's head, `monitor_step` one
--                    turn of `monitor`, `supervisor_step` the whole task
--   Egress           crates/api/src/egress.rs and `egress_restart_for` of crates/api/src/lib.rs;
--                    Egress.Feed is the task that writes to one process
--   Pipeline         crates/processor/src/stub.rs, the controller that the server is built with
--   Output           crates/api/src/routes/output.rs
--   Stream           crates/api/src/routes/stream.rs, `set_config` of crates/api/src/routes/output.rs,
--                    the start and stop of crates/api/src/channel_hls.rs
--   Scheduler        crates/api/src/scheduler.rs
--   WebRtc, Whip     crates/api/src/webrtc_ingest.rs; crates/api/src/routes/whip.rs and the endpoint of
--                    crates/api/src/routes/guests.rs: `Whip.step` is one request, callback, watchdog,
--                    track or tag
--   Media            crates/api/src/media_player.rs, the readers of source_normalizer.rs and
--                    scene_compositor.rs, and the two callers that look whether a player runs
--                    (crates/api/src/failover.rs, crates/api/src/routes/sources.rs)
--   Playout          crates/api/src/playout.rs: `begin`, `connect`, `elapsed` and `deactivated` are the
--                    stretches of `run_broadcast` between its waits
--   Scene            crates/api/src/scene_compositor.rs, `activate` of crates/api/src/routes/scenes.rs and
--                    crates/api/src/routes/switching.rs
--   Rtmp             crates/api/src/rtmp/server.rs: `Rtmp.handle` is one event of a connection, `Rtmp.run` its
--                    task; `start_normalizer` of crates/api/src/source_normalizer.rs
--   Auth             crates/api/src/auth.rs and the handlers that change users, sessions and keys in
--                    crates/api/src/routes/auth.rs, keys.rs and setup.rs
--   Audio            crates/api/src/routes/audio.rs
--   Channel          crates/api/src/routes/channel.rs
--   Browser, Sources crates/api/src/browser_source.rs; crates/api/src/routes/sources.rs, the start of SRT listeners
--                    of crates/api/src/srt.rs and crates/api/src/startup.rs
--   Layers           crates/api/src/routes/scenes.rs, but `activate`
--   Schedules        crates/api/src/routes/schedules.rs and crates/api/src/schedule_time.rs
--   Destinations     crates/api/src/routes/destinations.rs and recording.rs
--   Library          crates/api/src/routes/assets.rs and crates/api/src/media_probe.rs
--   Stingers         crates/api/src/routes/stingers.rs
--   Prelude          shared names, Boolean tests, lists, texts, and `HashMap` as an association list
--
-- How state and operations correspond. A task's local variables, or the shared fields that a part
-- works on, are a record; a handler is a function from that record to the next one, with the
-- handler's guards and early returns in their order. A turn of a `select!` is an event, and a
-- history is a list of events, each with what the rest of the shared state holds at that moment
-- (`Env`), so that a theorem on all histories covers all interleavings. A task that is spawned and
-- sleeps is an explicit pending task that may end at any point. Lists of announcements and of sent
-- tags are newest first. Errors are values. What is not in the repository is an argument: ffmpeg
-- and the operating system (whether a process starts, how many writes a pipe takes), cron and time
-- zones, serde's parser and printer, the clock, and the rows that the database returns.
--
-- Numbers. A byte is a natural number below 256 where it matters; 32-bit timestamps and sizes wrap,
-- written out with `%`; a `Uuid` is a number, 0 the nil one; times are milliseconds.
--
-- Fuel. The tag loop runs on fuel, and the length of the stream is enough, since a tag takes at
-- least 15 bytes. The search for a port runs on the number of ports left, which is exact. A decimal
-- number is printed with ten digits at most, enough for 32 bits. Everything else is structural.
--
-- Not modelled: the bytes that ffmpeg makes of its input, WebRTC negotiation and RTP, the RTMP
-- protocol's own handshake, the GStreamer pipeline behind a feature flag, which is not built, the
-- database's schema and migrations, and the web interface. The feeders of compositors and
-- normalizers and the invitation of guests are not modelled either.
pub mod Prelude
pub mod Types
pub mod Flv
pub mod Program
pub mod Failover
pub mod Output
pub mod Egress
pub mod Pipeline
pub mod Stream
pub mod Ingest
pub mod Scheduler
pub mod Playout
pub mod Auth
pub mod Audio
pub mod WebRtc
pub mod Whip
pub mod Media
pub mod Scene
pub mod Rtmp
pub mod Browser
pub mod Sources
pub mod Layers
pub mod Schedules
pub mod Destinations
pub mod Library
pub mod Stingers
pub mod Channel
