-- ===== src/Ingest/Relay.antt =====
-- What a reader passes on: crates/api/src/srt.rs, `read_flv_output`.
use shed.Prelude.{ltb, if◌then◌else◌, length, ℕ, suc, ◌≡◌, refl, ap, ◌∙◌, List, [], ◌∷◌, arith}
use shed.Types.{live, source_state}
use shed.Flv.Demux.{Tag, read_stream}
use shed.Ingest.{Ingest, publish, publish_all, read_flv_output}

-- The tags in the relay's order, newest first, above what was sent before.
abbrev pub relay : List Tag → List (List ℕ) → List (List ℕ)
relay [] sent = sent
relay (tag ∷ tags) sent = relay tags (tag.raw ∷ sent)

publish_later :
    (source_id n : ℕ) (tags : List Tag) (s : Ingest)
    → ((publish_all source_id (suc n) tags s).relayed ≡ relay tags s.relayed)
      × ((publish_all source_id (suc n) tags s).ws ≡ s.ws)
unfolding publish_all publish
publish_later source_id n [] s = (refl, refl)
publish_later source_id n (tag ∷ tags) s =
    let next : ((publish source_id (suc n) tag s).relayed ≡ tag.raw ∷ s.relayed)
        × ((publish source_id (suc n) tag s).ws ≡ s.ws) =
      ground arith in
    let (r, w) = publish_later source_id (suc n) tags (publish source_id (suc n) tag s) in
    (r ∙ ap (relay tags) next.0, w ∙ next.1)

publish_all_relays :
    (source_id : ℕ) (tags : List Tag) (s : Ingest)
    → ((publish_all source_id 0 tags s).relayed ≡ relay tags s.relayed)
      × ((publish_all source_id 0 tags s).ws
          ≡ (if ltb 0 (length tags) then source_state source_id live ∷ s.ws else s.ws))
unfolding publish_all publish
publish_all_relays source_id [] s = (refl, refl)
publish_all_relays source_id (tag ∷ tags) s =
    let (r, w) = publish_later source_id 0 tags (publish source_id 0 tag s) in (r, w ∙ ground arith)

-- Every tag that is read from a process is sent to the relay, whole and in order, and the source is
-- announced live once, with the first tag, and not at all when there is none.
pub read_flv_output_relays :
    (source_id : ℕ) (stdout : List ℕ) (s : Ingest)
    → let tags = read_stream stdout in
      let s' = read_flv_output source_id stdout s in
      (s'.relayed ≡ relay tags s.relayed)
      × (s'.ws ≡ (if ltb 0 (length tags) then source_state source_id live ∷ s.ws else s.ws))
unfolding read_flv_output
read_flv_output_relays source_id stdout s = publish_all_relays source_id (read_stream stdout) s
