-- ===== src/Ingest/Cache.antt =====
-- What the cache of headers holds: crates/api/src/srt.rs, `read_flv_output`.
use shed.Prelude.{
  ltb, ◌==◌, if◌then◌else◌, ==_iff, ==_refl, is_some, or_else, unwrap_or, length, ℕ, suc, ◌≡◌, refl,
  sym, ap, ◌∙◌, Bool, true, false, not, ◌&&◌, Option, none, some, List, [], ◌∷◌, arith, ◌>>=◌,
  or_else_assoc,
}
use shed.Prelude.Maps.{IdMap, lookup, lookup-insert}
use shed.Types.{SequenceHeaders, no_headers}
use shed.Flv.Demux.{Tag}
use shed.Ingest.{
  Ingest, packet_type, frame_type, entry, keep_keyframe, cache_tag, publish, publish_all,
}

abbrev pub is_video_header : Tag → Bool
is_video_header tag = (tag.tag_type == 9 && ltb 0 (length tag.body)) && (packet_type tag.body == 0)

abbrev pub is_audio_header : Tag → Bool
is_audio_header tag = (tag.tag_type == 8 && ltb 0 (length tag.body)) && (packet_type tag.body == 0)

abbrev pub is_keyframe : Tag → Bool
is_keyframe tag =
    (tag.tag_type == 9 && ltb 0 (length tag.body))
    && (not (packet_type tag.body == 0) && (frame_type tag.body == 1))

-- The last tag of a kind, none if there is none.
abbrev pub last_raw : (Tag → Bool) → List Tag → Option (List ℕ)
last_raw p [] = none
last_raw p (tag ∷ tags) = or_else (last_raw p tags) (if p tag then some tag.raw else none)

-- The cached headers of a source after one tag.
abbrev step_entry : Tag → Option SequenceHeaders → Option SequenceHeaders
step_entry tag cached =
    let seq = unwrap_or cached no_headers in
    if is_video_header tag
    then some (record seq { video = some tag.raw })
    else if is_audio_header tag
    then some (record seq { audio = some tag.raw })
    else if is_keyframe tag
    then cached >>= (λ kept. some (record kept { last_keyframe = some tag.raw }))
    else cached

same_key :
    (headers : IdMap SequenceHeaders) (source_id id : ℕ)
    → (source_id == id) ≡ true
    → lookup headers id ≡ lookup headers source_id
same_key headers source_id id h = ap (lookup headers) (sym ((==_iff source_id id).0 h))

-- The cached headers of one source change only with its own tags.
cache_tag-other :
    (source_id : ℕ) (tag : Tag) (headers : IdMap SequenceHeaders) (id : ℕ)
    → (source_id == id) ≡ false
    → lookup (cache_tag source_id tag headers) id ≡ lookup headers id
unfolding cache_tag keep_keyframe
cache_tag-other source_id tag headers id other =
    let seq = entry headers source_id in
    ground (
      arith,
      other,
      lookup-insert headers source_id (record seq { video = some tag.raw }) id,
      lookup-insert headers source_id (record seq { audio = some tag.raw }) id,
      lookup-insert headers source_id (record seq { last_keyframe = some tag.raw }) id,
    )

cache_tag-entry :
    (source_id : ℕ) (tag : Tag) (headers : IdMap SequenceHeaders)
    → lookup (cache_tag source_id tag headers) source_id ≡ step_entry tag (lookup headers source_id)
unfolding cache_tag keep_keyframe
cache_tag-entry source_id tag headers =
    let seq = entry headers source_id in
    ground (
      arith,
      ==_refl source_id,
      lookup-insert headers source_id (record seq { video = some tag.raw }) source_id,
      lookup-insert headers source_id (record seq { audio = some tag.raw }) source_id,
      lookup-insert headers source_id (record seq { last_keyframe = some tag.raw }) source_id,
    )

abbrev pub video_of : Option SequenceHeaders → Option (List ℕ)
video_of cached = cached >>= (λ seq. seq.video)

abbrev pub audio_of : Option SequenceHeaders → Option (List ℕ)
audio_of cached = cached >>= (λ seq. seq.audio)

abbrev pub keyframe_of : Option SequenceHeaders → Option (List ℕ)
keyframe_of cached = cached >>= (λ seq. seq.last_keyframe)

-- The newest raw tag, if the tag is of the kind.
abbrev newest : Bool → Tag → Option (List ℕ)
newest hit tag = if hit then some tag.raw else none

step_parts :
    (tag : Tag) (cached : Option SequenceHeaders)
    → (video_of (step_entry tag cached)
        ≡ or_else (newest (is_video_header tag) tag) (video_of cached))
      × (audio_of (step_entry tag cached)
          ≡ or_else (newest (is_audio_header tag) tag) (audio_of cached))
step_parts tag none = ground arith
step_parts tag (some seq) = ground arith

step_keyframe :
    (tag : Tag) (cached : Option SequenceHeaders)
    → is_some cached ≡ true
    → (keyframe_of (step_entry tag cached)
        ≡ or_else (newest (is_keyframe tag) tag) (keyframe_of cached))
      × (is_some (step_entry tag cached) ≡ true)
step_keyframe tag none h = absurd (ground arith)
step_keyframe tag (some seq) h = ground arith

publish_cache :
    (source_id n : ℕ) (tag : Tag) (s : Ingest)
    → (publish source_id n tag s).sequence_headers ≡ cache_tag source_id tag s.sequence_headers
unfolding publish
publish_cache source_id n tag s = ground arith

published_entry :
    (source_id n : ℕ) (tag : Tag) (s : Ingest)
    → lookup (publish source_id n tag s).sequence_headers source_id
      ≡ step_entry tag (lookup s.sequence_headers source_id)
published_entry source_id n tag s =
    ap (λ h. lookup h source_id) (publish_cache source_id n tag s)
    ∙ cache_tag-entry source_id tag s.sequence_headers

-- The headers of a source after any tags: its video and its audio header are the last ones among
-- them, or else the ones before.
pub publish_all_caches :
    (source_id n : ℕ) (tags : List Tag) (s : Ingest)
    → let cached = lookup s.sequence_headers source_id in
      let now = lookup (publish_all source_id n tags s).sequence_headers source_id in
      (video_of now ≡ or_else (last_raw is_video_header tags) (video_of cached))
      × (audio_of now ≡ or_else (last_raw is_audio_header tags) (audio_of cached))
unfolding publish_all
publish_all_caches source_id n [] s = (refl, refl)
publish_all_caches source_id n (tag ∷ tags) s =
    let cached = lookup s.sequence_headers source_id in
    let (video, audio) = publish_all_caches source_id (suc n) tags (publish source_id n tag s) in
    let e = published_entry source_id n tag s in
    let (video_1, audio_1) = step_parts tag cached in
    (
      video
          ∙ (ap (λ c. or_else (last_raw is_video_header tags) (video_of c)) e
              ∙ (ap (or_else (last_raw is_video_header tags)) video_1
                  ∙ or_else_assoc (last_raw is_video_header tags) (newest (is_video_header tag) tag)
                      (video_of cached))),
      audio
          ∙ (ap (λ c. or_else (last_raw is_audio_header tags) (audio_of c)) e
              ∙ (ap (or_else (last_raw is_audio_header tags)) audio_1
                  ∙ or_else_assoc (last_raw is_audio_header tags) (newest (is_audio_header tag) tag)
                      (audio_of cached))),
    )

-- Once a source has a header, its cached keyframe is the last one among the tags, or else the one
-- before.
pub publish_all_keeps_keyframe :
    (source_id n : ℕ) (tags : List Tag) (s : Ingest)
    → is_some (lookup s.sequence_headers source_id) ≡ true
    → keyframe_of (lookup (publish_all source_id n tags s).sequence_headers source_id)
      ≡ or_else (last_raw is_keyframe tags) (keyframe_of (lookup s.sequence_headers source_id))
unfolding publish_all
publish_all_keeps_keyframe source_id n [] s h = refl
publish_all_keeps_keyframe source_id n (tag ∷ tags) s h =
    let cached = lookup s.sequence_headers source_id in
    let e = published_entry source_id n tag s in
    let (keyframe_1, still) = step_keyframe tag cached h in
    publish_all_keeps_keyframe source_id (suc n) tags (publish source_id n tag s)
      (ap is_some e ∙ still)
    ∙ (ap (λ c. or_else (last_raw is_keyframe tags) (keyframe_of c)) e
        ∙ (ap (or_else (last_raw is_keyframe tags)) keyframe_1
            ∙ or_else_assoc (last_raw is_keyframe tags) (newest (is_keyframe tag) tag)
                (keyframe_of cached)))

-- The tags of one source leave the cache of every other source as it was.
pub publish_all_keeps_others :
    (source_id n : ℕ) (tags : List Tag) (s : Ingest) (id : ℕ)
    → (source_id == id) ≡ false
    → lookup (publish_all source_id n tags s).sequence_headers id ≡ lookup s.sequence_headers id
unfolding publish_all
publish_all_keeps_others source_id n [] s id h = refl
publish_all_keeps_others source_id n (tag ∷ tags) s id h =
    publish_all_keeps_others source_id (suc n) tags (publish source_id n tag s) id h
    ∙ (ap (λ m. lookup m id) (publish_cache source_id n tag s)
        ∙ cache_tag-other source_id tag s.sequence_headers id h)
