-- ===== src/Egress/Examples.antt =====
-- Tests and instances for the egress.
use shed.Prelude.{◌≡◌, refl, true, false, none, some, [], ◌∷◌, arith}
use shed.Types.{Destination, rtmp, srt, SequenceHeaders, no_headers, destination_state}
use shed.Flv.{flv_tag}
use shed.Flv.Demux.{read_stream}
use shed.Flv.Demux.Laws.{tags_of}
use shed.Egress.{
  Spawn, failed, running, EgressManager, RestartParams, url_of, process_for, start, start_all,
  attempt, connect,
}
use shed.Egress.Feed.{feed, data_ok}
use shed.Egress.Feed.Delivery.{pipe_of, encoder_reads_program}

abbrev first : Destination
first = record { id = 1; name = "a"; kind = rtmp "rtmp://a" "k"; enabled = true }

abbrev second : Destination
second = record { id = 2; name = "b"; kind = rtmp "rtmp://b" "k"; enabled = false }

abbrev third : Destination
third = record { id = 3; name = "c"; kind = srt "srt://c"; enabled = true }

abbrev last_start : RestartParams
last_start = record {
  destinations = first ∷ second ∷ third ∷ [];
  media_tx = 0;
  output_config = none;
}

abbrev never_started : EgressManager
never_started = record {
  processes = [];
  ws = [];
  bytes_sent = 0;
  started_at = none;
  restart_params = none;
}

abbrev always : Spawn
always = λ args. running

started_events :
    (start always 5 last_start none never_started).1.ws ≡ destination_state 1 "connected" ∷ []
unfolding start start_all attempt url_of connect
started_events = refl

abbrev started : EgressManager
started = record never_started { restart_params = some last_start }

abbrev on_air : EgressManager
on_air = record started { processes = (1, process_for none none first "rtmp://a/k") ∷ [] }

abbrev never : Spawn
never = λ args. failed "no ffmpeg"

-- A source with a video header.
abbrev headers : SequenceHeaders
headers = record no_headers { video = some (flv_tag 9 (0x17 ∷ 0 ∷ []) 0) }

encoder_reads_program_example :
    let f = feed 1 (some headers) (data_ok (flv_tag 8 (0xAF ∷ []) 5) ∷ []) (pipe_of 3 []) in
    (read_stream f.pipe.written ≡ tags_of ((9, 0x17 ∷ 0 ∷ [], 0) ∷ (8, 0xAF ∷ [], 5) ∷ []))
    × (f.ws ≡ [])
encoder_reads_program_example =
    encoder_reads_program 1 (some headers) (data_ok (flv_tag 8 (0xAF ∷ []) 5) ∷ []) 3
      ((9, 0x17 ∷ 0 ∷ [], 0) ∷ (8, 0xAF ∷ [], 5) ∷ []) (omega arith, (omega arith, tt)) refl
      (omega arith)
