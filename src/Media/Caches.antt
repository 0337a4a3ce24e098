-- ===== src/Media/Caches.antt =====
-- The cache of the headers and the last keyframe, which each reader writes with its own copy of the code: crates/api/src/media_player.rs,
-- source_normalizer.rs and scene_compositor.rs.
use shed.Prelude.{
  ltb, ◌==◌, if◌then◌else◌, unwrap_or, length, get_or, ℕ, ◌/◌, ◌%◌, ◌&&◌, none, some,
}
use shed.Prelude.Maps.{IdMap, lookup, insert}
use shed.Types.{SequenceHeaders, no_headers}
use shed.Flv.Demux.{Tag}

-- In `feed_relay`.
unfoldable pub cache_played : ℕ → Tag → IdMap SequenceHeaders → IdMap SequenceHeaders
cache_played source_id tag headers =
    let frame_type = get_or tag.body 0 0 / 16 % 16 in
    let avc_packet_type = get_or tag.body 1 255 in
    let aac_packet_type = get_or tag.body 1 255 in
    let seq = unwrap_or (lookup headers source_id) no_headers in
    let kept : IdMap SequenceHeaders = elim (lookup headers source_id) [
      | none ↦ headers
      | some known ↦ insert headers source_id (record known { last_keyframe = some tag.raw })
    ] in
    let audio =
      if aac_packet_type == 0
      then insert headers source_id (record seq { audio = some tag.raw })
      else headers in
    if tag.tag_type == 9 && ltb 0 (length tag.body)
    then if avc_packet_type == 0
      then insert headers source_id (record seq { video = some tag.raw })
      else if frame_type == 1
      then kept
      else headers
    else if tag.tag_type == 8 && ltb 0 (length tag.body)
    then audio
    else headers

-- In `read_normalized_output`.
unfoldable pub cache_normalized : ℕ → Tag → IdMap SequenceHeaders → IdMap SequenceHeaders
cache_normalized source_id tag headers =
    let avc_packet_type = get_or tag.body 1 255 in
    let frame_type = get_or tag.body 0 0 / 16 % 16 in
    let aac_packet_type = get_or tag.body 1 255 in
    let seq = unwrap_or (lookup headers source_id) no_headers in
    let kept : IdMap SequenceHeaders = elim (lookup headers source_id) [
      | none ↦ headers
      | some known ↦ insert headers source_id (record known { last_keyframe = some tag.raw })
    ] in
    let audio =
      if aac_packet_type == 0
      then insert headers source_id (record seq { audio = some tag.raw })
      else headers in
    if tag.tag_type == 9 && ltb 0 (length tag.body)
    then if avc_packet_type == 0
      then insert headers source_id (record seq { video = some tag.raw })
      else if frame_type == 1
      then kept
      else headers
    else if tag.tag_type == 8 && ltb 0 (length tag.body)
    then audio
    else headers

-- In `read_composited_output`.
unfoldable pub cache_composited : ℕ → Tag → IdMap SequenceHeaders → IdMap SequenceHeaders
cache_composited scene_id tag headers =
    let avc_packet_type = get_or tag.body 1 255 in
    let frame_type = get_or tag.body 0 0 / 16 % 16 in
    let aac_packet_type = get_or tag.body 1 255 in
    let seq = unwrap_or (lookup headers scene_id) no_headers in
    let kept : IdMap SequenceHeaders = elim (lookup headers scene_id) [
      | none ↦ headers
      | some known ↦ insert headers scene_id (record known { last_keyframe = some tag.raw })
    ] in
    let audio =
      if aac_packet_type == 0
      then insert headers scene_id (record seq { audio = some tag.raw })
      else headers in
    if tag.tag_type == 9 && ltb 0 (length tag.body)
    then if avc_packet_type == 0
      then insert headers scene_id (record seq { video = some tag.raw })
      else if frame_type == 1
      then kept
      else headers
    else if tag.tag_type == 8 && ltb 0 (length tag.body)
    then audio
    else headers
