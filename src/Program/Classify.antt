-- ===== src/Program/Classify.antt =====
-- A new timestamp does not change what a tag is: crates/api/src/program.rs.
use shed.Flv.{rewrite_tag_timestamp, read_tag_timestamp}
use shed.Flv.Timestamp.{rewrite_tag_timestamp_frame}
use shed.Prelude.{
  Option-cases, unwrap_or, length, get_elem?, get_or, ℕ, zero, suc, ◌≤◌, ◌<◌, ◌≡◌, refl, sym, ap,
  ◌∙◌, ◌⊎◌, inl, inr, Option, [], ◌∷◌, arith,
}
use shed.Program.Tags.{Bytes, tag_type, is_video_keyframe, is_sequence_header, remap_tag}

get_or-get_elem? : (xs : Bytes) (i : ℕ) → get_or xs i 0 ≡ unwrap_or (get_elem? xs i) 0
get_or-get_elem? [] i = refl
get_or-get_elem? (x ∷ xs) zero = refl
get_or-get_elem? (x ∷ xs) (suc i) = get_or-get_elem? xs i

get_or-rewrite :
    (bytes : Bytes) (ts i : ℕ)
    → (i < 4) ⊎ (8 ≤ i)
    → get_or (rewrite_tag_timestamp bytes ts) i 0 ≡ get_or bytes i 0
get_or-rewrite bytes ts i h =
    get_or-get_elem? (rewrite_tag_timestamp bytes ts) i
    ∙ (ap (λ o. unwrap_or o 0) (rewrite_tag_timestamp_frame bytes ts i h).1
        ∙ sym (get_or-get_elem? bytes i))

length-rewrite : (bytes : Bytes) (ts : ℕ) → length (rewrite_tag_timestamp bytes ts) ≡ length bytes
length-rewrite bytes ts = (rewrite_tag_timestamp_frame bytes ts 0 (omega arith)).0

tag_type-get_elem? : (bytes : Bytes) → tag_type bytes ≡ get_elem? bytes 0
unfolding tag_type
tag_type-get_elem? [] = refl
tag_type-get_elem? (t ∷ bytes) = refl

-- Two tags of one kind: the same type byte, keyframe or not, sequence header or not.
pub record SameKind (a b : Bytes) : Type 0 where
  pub same_type : tag_type a ≡ tag_type b
  pub same_keyframe : is_video_keyframe a ≡ is_video_keyframe b
  pub same_header : is_sequence_header a ≡ is_sequence_header b

-- A new timestamp keeps the kind of a tag.
pub rewrite-SameKind : (bytes : Bytes) (ts : ℕ) → SameKind (rewrite_tag_timestamp bytes ts) bytes
unfolding is_video_keyframe is_sequence_header
rewrite-SameKind bytes ts =
    let at_0 = get_or-rewrite bytes ts 0 (omega arith) in
    let at_11 = get_or-rewrite bytes ts 11 (omega arith) in
    let at_12 = get_or-rewrite bytes ts 12 (omega arith) in
    record {
      same_type =
          tag_type-get_elem? _
          ∙ ((rewrite_tag_timestamp_frame bytes ts 0 (omega arith)).1
              ∙ sym (tag_type-get_elem? bytes));
      same_keyframe = rw (length-rewrite bytes ts, at_0, at_11, at_12);
      same_header = rw (length-rewrite bytes ts, at_0, at_12);
    }

-- The remapped tag is of the kind of the tag.
pub remap_tag-SameKind :
    (bytes : Bytes) (first : Option ℕ) (base output_ts : ℕ)
    → SameKind (remap_tag bytes first base output_ts).0 bytes
unfolding remap_tag
remap_tag-SameKind bytes first base output_ts = elim (Option-cases (read_tag_timestamp bytes)) [
  | inl short ↦
      rw (short, remap_tag) (record { same_type = refl; same_keyframe = refl; same_header = refl })
  | inr (ts, e) ↦ rw (e, remap_tag) (rewrite-SameKind bytes _)
]
