-- ===== src/Channel/Examples.antt =====
-- Tests and instances for the public watch page.
use shed.Prelude.{is_some, ◌≡◌, refl, inr, trim, true, false, none, some, [], String}
use shed.Egress.{EgressManager}
use shed.Pipeline as Pipeline
use shed.Stream.{Studio}
use shed.Channel.{
  token_of, all_name_chars, ends_with, split_once, Channel, Hashes, check_cookie, serve_segment,
  split_on, cookie_present, valid_segment,
}
use shed.Channel.Watching.{HasCookie, has_code, served_segment_stays}

abbrev hashes : Hashes
hashes = record { sha256 = λ s. s; hash_password = λ s. inr s; verify_password = λ p hash. true }

abbrev egress : EgressManager
egress = record {
  processes = [];
  ws = [];
  bytes_sent = 0;
  started_at = none;
  restart_params = none;
}

abbrev studio : Studio
unfolding Pipeline.new
studio = record {
  pipeline = Pipeline.new [];
  egress = egress;
  channel_hls = none;
  program_intent = none;
  program_source = none;
  source_states = [];
  media_relays = [];
  sequence_headers = [];
  program_tx = 0;
  db = record {
    broadcast_config = inr none;
    destinations = inr [];
    output_config = none;
    channel = some (1, "t");
  };
}

-- The channel's password is `p`, which is its own hash.
abbrev channel : Channel
channel = record {
  studio = studio;
  title = "Shed";
  logo_path = none;
  accent = none;
  password_hash = some "p";
}

abbrev cookies : String
cookies = "theme=dark; mxs_watch_t=pt"

no_cookie_no_segment :
    serve_segment hashes (λ s. true) "t" "seg_1.ts" (some "theme=dark") channel ≡ 403
unfolding serve_segment check_cookie split_on split_once cookie_present all_name_chars ends_with
    valid_segment studio trim
no_cookie_no_segment = refl

no_traversal : serve_segment hashes (λ s. true) "t" "../k.ts" (some cookies) channel ≡ 404
unfolding serve_segment check_cookie split_on split_once cookie_present all_name_chars ends_with
    valid_segment studio trim
no_traversal = refl

served : serve_segment hashes (λ s. true) "t" "seg_1.ts" (some cookies) channel ≡ 200
unfolding serve_segment check_cookie split_on split_once cookie_present all_name_chars ends_with
    valid_segment studio trim
served = refl

served_segment_stays_example :
    (is_some channel.studio.db.channel ≡ true)
    × (token_of channel ≡ "t")
    × ((hash : String)
        → channel.password_hash ≡ some hash
        → HasCookie hashes hash (token_of channel) (some cookies))
    × (true ≡ true)
    × (has_code 47 "seg_1.ts" ≡ false)
served_segment_stays_example =
    served_segment_stays hashes (λ s. true) "t" "seg_1.ts" (some cookies) channel served
