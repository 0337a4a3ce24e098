-- ===== src/Flv/Examples.antt =====
-- Tests and instances for the FLV tags.
use shed.Prelude.{ℕ, ◌≡◌, refl, none, some, List, [], ◌∷◌, ◌++◌, arith}
use shed.Flv.{flv_header, flv_tag, read_tag_timestamp}
use shed.Flv.Demux.{read_tags, read_stream, next_tag}
use shed.Flv.Demux.Laws.{mux, tags_of, raws, read_stream-mux, read_tags_complete}

-- A video tag with a payload of two bytes at 0x01020304 ms.
abbrev video_tag : List ℕ
video_tag = 9 ∷ 0 ∷ 0 ∷ 2 ∷ 2 ∷ 3 ∷ 4 ∷ 1 ∷ 0 ∷ 0 ∷ 0 ∷ 0x17 ∷ 1 ∷ 0 ∷ 0 ∷ 0 ∷ 13 ∷ []

flv_tag_bytes : flv_tag 9 (0x17 ∷ 1 ∷ []) 0x01020304 ≡ video_tag
unfolding flv_tag
flv_tag_bytes = refl

read_bytes : read_tag_timestamp video_tag ≡ some 0x01020304
unfolding read_tag_timestamp
read_bytes = refl

abbrev two_tags : List (ℕ × List ℕ × ℕ)
two_tags = (9, (0x17 ∷ 1 ∷ []), 0) ∷ (8, (0xAF ∷ []), 20) ∷ []

read_stream-mux_example : read_stream (flv_header ++ mux two_tags) ≡ tags_of two_tags
read_stream-mux_example = read_stream-mux two_tags (omega arith)

-- The tag, and half a header after it.
abbrev cut_stream : List ℕ
cut_stream = video_tag ++ (8 ∷ 0 ∷ 0 ∷ [])

read_tags_complete_example :
    (left : List ℕ) × (cut_stream ≡ raws (read_tags 20 cut_stream) ++ left) × (next_tag left ≡ none)
read_tags_complete_example = read_tags_complete 20 cut_stream (omega arith)
