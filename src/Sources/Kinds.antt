-- ===== src/Sources/Kinds.antt =====
-- The kinds of sources: crates/api/src/routes/sources.rs and crates/api/src/srt.rs.
use shed.Prelude.{if◌then◌else◌, ℕ, String, Option, none, some, List, [], ◌∷◌, ◌++◌, string_eq}
use shed.Types.{SourceKind, rtmp, srt, web_rtc, test_pattern, media_file, browser}
use shed.WebRtc.{SourceRow}

-- A key or a token that is empty is drawn.
unfoldable pub ensure_stream_key : String → SourceKind → SourceKind
ensure_stream_key key (rtmp stream_key) =
    if string_eq stream_key "" then rtmp key else rtmp stream_key
ensure_stream_key key (web_rtc token) = if string_eq token "" then web_rtc key else web_rtc token
ensure_stream_key key (srt port passphrase) = srt port passphrase
ensure_stream_key key test_pattern = test_pattern
ensure_stream_key key (media_file asset_id file_path loop_mode) =
    media_file asset_id file_path loop_mode
ensure_stream_key key (browser url) = browser url

-- The ports of the SRT sources in the database.
abbrev pub port_of : Option SourceKind → List ℕ
port_of (some (srt port passphrase)) = port ∷ []
port_of (some (rtmp k)) = []
port_of (some (web_rtc t)) = []
port_of (some test_pattern) = []
port_of (some (media_file a f l)) = []
port_of (some (browser u)) = []
port_of none = []

unfoldable pub srt_ports : List SourceRow → List ℕ
srt_ports [] = []
srt_ports (r ∷ rows) = port_of r.kind ++ srt_ports rows
