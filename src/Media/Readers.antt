-- ===== src/Media/Readers.antt =====
-- The readers of ffmpeg's output agree: crates/api/src/media_player.rs, source_normalizer.rs,
-- scene_compositor.rs and srt.rs.
use shed.Prelude.{Bool-cases, ℕ, suc, ◌≡◌, refl, ap, ◌∙◌, inl, inr, false, List, [], ◌∷◌, arith}
use shed.Flv.Demux.{Tag, read_stream, read_exact}
use shed.Ingest.{Ingest, cache_tag, publish, publish_all, read_flv_output}
use shed.Prelude.Maps.{IdMap}
use shed.Types.{SequenceHeaders}
use shed.Ingest.{keep_keyframe}
use shed.Media.Caches.{cache_played, cache_normalized, cache_composited}
use shed.Media.{
  Media, feed_tag, feed_tags, normalized_tag, normalized_tags, composited_tag, composited_tags,
  has_header, drop_player, stop_normalizer, drop_compositor, feed_relay, read_normalized_output,
  read_composited_output,
}

-- Two ingests that have cached and relayed the same.
abbrev pub SameMedia : Ingest → Ingest → Type 0
SameMedia s t = (s.sequence_headers ≡ t.sequence_headers) × (s.relayed ≡ t.relayed)

cache_played-cache_tag :
    (id : ℕ) (tag : Tag) (headers : IdMap SequenceHeaders)
    → cache_played id tag headers ≡ cache_tag id tag headers
unfolding cache_played cache_tag keep_keyframe
cache_played-cache_tag id tag headers = ground arith

cache_normalized-cache_tag :
    (id : ℕ) (tag : Tag) (headers : IdMap SequenceHeaders)
    → cache_normalized id tag headers ≡ cache_tag id tag headers
unfolding cache_normalized cache_tag keep_keyframe
cache_normalized-cache_tag id tag headers = ground arith

cache_composited-cache_tag :
    (id : ℕ) (tag : Tag) (headers : IdMap SequenceHeaders)
    → cache_composited id tag headers ≡ cache_tag id tag headers
unfolding cache_composited cache_tag keep_keyframe
cache_composited-cache_tag id tag headers = ground arith

feed_tags-SameMedia :
    (id n : ℕ) (tags : List Tag) (s t : Ingest)
    → SameMedia s t
    → SameMedia (feed_tags id tags s) (publish_all id n tags t)
unfolding feed_tags feed_tag publish_all publish
feed_tags-SameMedia id n [] s t same = same
feed_tags-SameMedia id n (tag ∷ tags) s t (headers, relayed) =
    feed_tags-SameMedia id (suc n) tags (feed_tag id tag s) (publish id n tag t) (
      ground
          (arith, cache_played-cache_tag id tag s.sequence_headers ∙ ap (cache_tag id tag) headers),
      ground (arith, ap (λ r. tag.raw ∷ r) relayed),
    )

normalized_tags-SameMedia :
    (id n : ℕ) (tags : List Tag) (s t : Ingest)
    → SameMedia s t
    → SameMedia (normalized_tags id tags s) (publish_all id n tags t)
unfolding normalized_tags normalized_tag publish_all publish
normalized_tags-SameMedia id n [] s t same = same
normalized_tags-SameMedia id n (tag ∷ tags) s t (headers, relayed) =
    normalized_tags-SameMedia id (suc n) tags (normalized_tag id tag s) (publish id n tag t) (
      ground (
        arith,
        cache_normalized-cache_tag id tag s.sequence_headers ∙ ap (cache_tag id tag) headers,
      ),
      ground (arith, ap (λ r. tag.raw ∷ r) relayed),
    )

composited_tags-SameMedia :
    (id n : ℕ) (tags : List Tag) (s t : Ingest)
    → SameMedia s t
    → SameMedia (composited_tags id n tags s) (publish_all id n tags t)
unfolding composited_tags composited_tag publish_all publish
composited_tags-SameMedia id n [] s t same = same
composited_tags-SameMedia id n (tag ∷ tags) s t (headers, relayed) =
    composited_tags-SameMedia id (suc n) tags (composited_tag id n tag s) (publish id n tag t) (
      ground (
        arith,
        cache_composited-cache_tag id tag s.sequence_headers ∙ ap (cache_tag id tag) headers,
      ),
      ground (arith, ap (λ r. tag.raw ∷ r) relayed),
    )

-- Without a header a stream has no tags.
read_stream_headerless : (stdout : List ℕ) → has_header stdout ≡ false → read_stream stdout ≡ []
unfolding read_stream read_exact
read_stream_headerless stdout e = rw (read_stream, read_exact, e) refl

-- The readers of the players, of the normalizers and of the compositors cache and relay what the
-- reader of the SRT listeners does, whatever the process writes, a stream without a header included.
pub readers_agree :
    (id : ℕ) (stdout : List ℕ) (s : Media)
    → SameMedia (feed_relay id stdout s).ingest (read_flv_output id stdout s.ingest)
      × SameMedia (read_normalized_output id stdout s).ingest (read_flv_output id stdout s.ingest)
      × SameMedia (read_composited_output id stdout s).ingest (read_flv_output id stdout s.ingest)
unfolding feed_relay read_normalized_output read_composited_output read_flv_output drop_player
    stop_normalizer drop_compositor publish_all
readers_agree id stdout s = elim (Bool-cases (has_header stdout)) [
  | inl e ↦
      let fed = feed_tags-SameMedia id 0 (read_stream stdout) s.ingest s.ingest (refl, refl) in
      let normalized =
        normalized_tags-SameMedia id 0 (read_stream stdout) s.ingest s.ingest (refl, refl) in
      let composited =
        composited_tags-SameMedia id 0 (read_stream stdout) s.ingest s.ingest (refl, refl) in
      rw e (fed, normalized, composited)
  | inr e ↦ rw (e, read_stream_headerless stdout e) ((refl, refl), (refl, refl), (refl, refl))
]
