-- ===== src/Program/Examples.antt =====
-- Tests and instances for the program router.
use shed.Flv.{read_tag_timestamp, rewrite_tag_timestamp}
use shed.Prelude.{ltb, ℕ, ◌≡◌, refl, true, false, none, some, List, [], ◌∷◌, ◌++◌, arith}
use shed.Prelude.Maps.{lookup}
use shed.Program.Tags.{Bytes, is_video_keyframe, is_sequence_header, tag_type}
use shed.Program.{
  Env, Router, Turns, start, turn, entered, enter, running, select_step, task_run, source_changed,
  Event, audio_data, pending_data, video_data, video_arm, send_sequence_headers, audio_source_for,
}
use shed.Program.Keyframe.{OpensOnKeyframe, enter-OpensOnKeyframe}
use shed.Program.Clock.{video_all, add_all, restamp, restamp_all, shown, program_keeps_time}
use shed.Program.Waiting.{air_all, switched, with_pending}
use shed.Program.Switching.{switch_completes}

-- A video tag of 13 bytes at `ms`, with the two payload bytes that the router looks at.
abbrev tag_at : ℕ → ℕ → ℕ → Bytes
tag_at ms frame packet = 9 ∷ 0 ∷ 0 ∷ 2 ∷ 0 ∷ 0 ∷ ms ∷ 0 ∷ 0 ∷ 0 ∷ 0 ∷ frame ∷ packet ∷ []

abbrev key_at : ℕ → Bytes
key_at ms = tag_at ms 0x17 1

abbrev inter_at : ℕ → Bytes
inter_at ms = tag_at ms 0x27 1

abbrev audio_at : ℕ → Bytes
audio_at ms = 8 ∷ 0 ∷ 0 ∷ 2 ∷ 0 ∷ 0 ∷ ms ∷ 0 ∷ 0 ∷ 0 ∷ 0 ∷ 0xaf ∷ 1 ∷ []

-- Sources 1 and 2 have relays, 3 has none; the program is on `source_id`.
abbrev world : ℕ → Env
world source_id = record {
  program_source = some source_id;
  has_relay = λ s. ltb s 3;
  sequence_headers = [];
  audio_routing = record { active_audio_source = none; channels = []; audio_follows_video = true };
}

-- A router that has just taken up source 1, at 100 ms.
abbrev fresh : Router
fresh = entered (world 1) 1 100 []

fresh_entered : enter (world 1) 100 [] ≡ running fresh
unfolding enter send_sequence_headers lookup audio_source_for
fresh_entered = refl

key_is_keyframe : is_video_keyframe (key_at 7) ≡ true
unfolding is_video_keyframe
key_is_keyframe = refl

inter_is_dropped : (video_arm fresh (inter_at 7)).sent ≡ []
unfolding video_arm is_video_keyframe is_sequence_header tag_type
inter_is_dropped = refl

inter_no_key : is_video_keyframe (inter_at 3) ≡ false
unfolding is_video_keyframe
inter_no_key = refl

key_turn : Turns fresh (video_arm fresh (key_at 7))
unfolding select_step
key_turn = turn (world 1) (video_data (key_at 7)) start refl

enter-OpensOnKeyframe_example :
    (added : List Bytes) × ((video_arm fresh (key_at 7)).sent ≡ added ++ fresh.sent)
    × OpensOnKeyframe added
enter-OpensOnKeyframe_example =
    enter-OpensOnKeyframe (world 1) 100 [] fresh (video_arm fresh (key_at 7)) fresh_entered key_turn

-- A video tag too early, an audio tag, the keyframe, and a tag after it.
abbrev mixed : List Bytes
mixed = inter_at 3 ∷ audio_at 7 ∷ inter_at 9 ∷ key_at 12 ∷ inter_at 47 ∷ []

early_video_is_left_out : shown false mixed ≡ audio_at 7 ∷ key_at 12 ∷ inter_at 47 ∷ []
unfolding is_video_keyframe is_sequence_header tag_type
early_video_is_left_out = refl

program_keeps_time_example :
    (video_all fresh mixed).sent ≡ add_all (restamp_all 100 (shown false mixed)) fresh.sent
unfolding audio_source_for read_tag_timestamp is_video_keyframe is_sequence_header tag_type
program_keeps_time_example =
    program_keeps_time (world 1) 100 [] fresh mixed fresh_entered refl (omega arith) (
      (omega arith, omega arith, omega arith),
      ((omega arith, omega arith, omega arith), ((omega arith, omega arith, omega arith), tt)),
    )

-- The second tag is 40 ms behind the first.
stamps_example : read_tag_timestamp (restamp 100 7 (inter_at 47)) ≡ some 140
unfolding read_tag_timestamp rewrite_tag_timestamp
stamps_example = refl

-- Data of the new source before its keyframe, and of the old one.
abbrev meanwhile : List (Env × Event)
meanwhile =
    (world 2, pending_data (inter_at 3))
    ∷ (world 1, video_data (key_at 9))
    ∷ (world 2, audio_data (inter_at 9))
    ∷ []

switch_completes_example :
    let history =
      (world 2, source_changed) ∷ (meanwhile ++ ((world 2, pending_data (key_at 7)) ∷ [])) in
    let left = air_all fresh meanwhile in
    (task_run history (running fresh)
      ≡ enter (world 2) left.output_ts (switched (world 2) left 2 (key_at 7)))
    × ((s : Router) × (task_run history (running fresh) ≡ running s)
        × (s.current_source_id ≡ 2)
        × (s.base_output_ts ≡ left.output_ts))
switch_completes_example =
    switch_completes (world 2) (world 2) fresh 2 meanwhile (key_at 7) refl refl refl refl
      (λ e. omega arith) (omega arith) (rw inter_no_key refl, (refl, (refl, tt))) key_is_keyframe

abbrev waiting : Router
waiting = with_pending fresh (some (record { source_id = 2; connected = true }))
