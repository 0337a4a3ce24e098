-- ===== src/Program/Tags.antt =====
-- Single tags in the program router: crates/api/src/program.rs, `tag_type` to `remap_tag`.
use shed.Prelude.{
  ltb, ◌==◌, if◌then◌else◌, unwrap_or, length, get_or, ℕ, ◌+◌, ◌-◌, ◌*◌, ◌/◌, ◌%◌, Bool, false, not,
  ◌&&◌, ◌||◌, Option, none, some, List, [], ◌∷◌,
}
use shed.Flv.{flv_tag_audio, flv_tag_video, read_tag_timestamp, rewrite_tag_timestamp}

abbrev pub Bytes : Type 0
Bytes = List ℕ

-- `wrapping_add` and `wrapping_sub` on `u32`.
abbrev wrapping_add : ℕ → ℕ → ℕ
wrapping_add a b = (a + b) % 4294967296

abbrev wrapping_sub : ℕ → ℕ → ℕ
wrapping_sub a b = (a + 4294967296 - b) % 4294967296

unfoldable pub tag_type : Bytes → Option ℕ
tag_type [] = none
tag_type (t ∷ bytes) = some t

-- `data[11] & 0xF0 == 0x10` asks for the high digit 1 of a byte.
unfoldable pub is_video_keyframe : Bytes → Bool
is_video_keyframe bytes =
    let frame_type = get_or bytes 11 0 / 16 % 16 * 16 in
    let is_seq_header = get_or bytes 12 0 == 0x00 in
    if ltb (length bytes) 13 || not (get_or bytes 0 0 == flv_tag_video)
    then false
    else frame_type == 0x10 && not is_seq_header

unfoldable pub is_sequence_header : Bytes → Bool
is_sequence_header bytes =
    let tt = get_or bytes 0 0 in
    if ltb (length bytes) 13
    then false
    else if tt == flv_tag_video
    then get_or bytes 12 0 == 0x00
    else if tt == flv_tag_audio && ltb 12 (length bytes)
    then get_or bytes 12 0 == 0x00
    else false

-- The tag, `first_ts` and `output_ts` after the call.
unfoldable pub remap_tag : Bytes → Option ℕ → ℕ → ℕ → Bytes × Option ℕ × ℕ
remap_tag bytes first_ts base_output output_ts = elim (read_tag_timestamp bytes) [
  | none ↦ (bytes, first_ts, output_ts)
  | some src_ts ↦
      let base = unwrap_or first_ts src_ts in
      let elapsed = wrapping_sub src_ts base in
      let new_ts = wrapping_add base_output elapsed in
      (rewrite_tag_timestamp bytes new_ts, some base, new_ts)
]
