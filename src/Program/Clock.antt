-- ===== src/Program/Clock.antt =====
-- The output clock across a change of source: crates/api/src/program.rs, `remap_tag` and its uses.
use mathlib.Core.Path.{subst}
use shed.Flv.{rewrite_tag_timestamp, read_tag_timestamp}
use shed.Prelude.{
  sym, if_cases, if◌then◌else◌, Bool, not, ◌&&◌, ◌||◌, Bool-cases, inl, inr, unwrap_or, length, All,
  ℕ, ◌+◌, ◌-◌, ◌%◌, ◌≤◌, ◌<◌, ◌≡◌, refl, ap, ◌∙◌, true, false, none, some, List, [], ◌∷◌, map,
  arith,
}
use shed.Program.{Env, Router, enter, running, video_arm, is_video}
use shed.Program.Tags.{is_sequence_header, Bytes, is_video_keyframe, remap_tag, tag_type}

-- The timestamp of a tag that has one.
abbrev pub ts_of : Bytes → ℕ
ts_of bytes = unwrap_or (read_tag_timestamp bytes) 0

-- A tag whose time lies after `first`, and whose shifted time fits 32 bits.
abbrev pub InSpan : ℕ → ℕ → Bytes → Type 0
InSpan base first bytes =
    (8 ≤ length bytes) × (first ≤ ts_of bytes) × (base + (ts_of bytes - first) < 4294967296)

-- The tag moved from the source's clock, which started at `first`, to the program's, at `base`.
abbrev pub restamp : ℕ → ℕ → Bytes → Bytes
restamp base first bytes = rewrite_tag_timestamp bytes (base + (ts_of bytes - first))

pub read_tag_timestamp-some :
    (bytes : Bytes) → 8 ≤ length bytes → read_tag_timestamp bytes ≡ some (ts_of bytes)
unfolding read_tag_timestamp
read_tag_timestamp-some bytes h = ground arith

pub remap_later :
    (bytes : Bytes) (first base output_ts : ℕ)
    → InSpan base first bytes
    → remap_tag bytes (some first) base output_ts
      ≡ (restamp base first bytes, some first, base + (ts_of bytes - first))
unfolding remap_tag
remap_later bytes first base output_ts h =
    let e = read_tag_timestamp-some bytes h.0 in
    let t : (base + (ts_of bytes + 4294967296 - first) % 4294967296) % 4294967296
        ≡ base + (ts_of bytes - first) =
      omega arith in
    rw (e, remap_tag) (ap (λ n. (rewrite_tag_timestamp bytes n, some first, n)) t)

remap_first :
    (bytes : Bytes) (base output_ts : ℕ)
    → 8 ≤ length bytes
    → base < 4294967296
    → remap_tag bytes none base output_ts
      ≡ (rewrite_tag_timestamp bytes base, some (ts_of bytes), base)
unfolding remap_tag
remap_first bytes base output_ts long h =
    let t : (base + (ts_of bytes + 4294967296 - ts_of bytes) % 4294967296) % 4294967296 ≡ base =
      omega arith in
    rw (read_tag_timestamp-some bytes long, remap_tag)
      (ap (λ n. (rewrite_tag_timestamp bytes n, some (ts_of bytes), n)) t)

-- The arm for the current source, over the tags that it receives.
unfoldable pub video_all : Router → List Bytes → Router
video_all r [] = r
video_all r (bytes ∷ tags) = video_all (video_arm r bytes) tags

-- The tags put on the program one after the other.
pub add_all : List Bytes → List Bytes → List Bytes
add_all [] sent = sent
add_all (bytes ∷ tags) sent = add_all tags (bytes ∷ sent)

-- What of a source's tags is shown: before its first keyframe (the flag says that it has come) no video but headers.
abbrev pub shown : Bool → List Bytes → List Bytes
shown got [] = []
shown got (bytes ∷ tags) =
    let key = is_video_keyframe bytes in
    let later = shown (got || key) tags in
    if not got && is_video bytes && not key && not (is_sequence_header bytes)
    then later
    else bytes ∷ later

-- A source that also gives the audio, with its clock started at `first`.
record IsFlowing (base first : ℕ) (r : Router) : Type 0 where
  same : r.same_source ≡ true
  base_eq : r.base_output_ts ≡ base
  first_eq : r.first_video_ts ≡ some first

-- The same before its clock is started.
record IsFresh (base : ℕ) (r : Router) : Type 0 where
  same : r.same_source ≡ true
  base_eq : r.base_output_ts ≡ base
  first_eq : r.first_video_ts ≡ none

keyframe_is_video : (bytes : Bytes) → is_video_keyframe bytes ≡ true → is_video bytes ≡ true
unfolding is_video_keyframe tag_type
keyframe_is_video [] h = absurd (ground arith)
keyframe_is_video (t ∷ bytes) h = ground arith

-- Whether the arm drops the tag.
abbrev dropped : Bool → Bytes → Bool
dropped got bytes =
    not got && is_video bytes && not (is_video_keyframe bytes) && not (is_sequence_header bytes)

got_video_arm :
    (r : Router) (bytes : Bytes)
    → r.same_source ≡ true
    → (video_arm r bytes).got_keyframe ≡ (r.got_keyframe || is_video_keyframe bytes)
unfolding video_arm
got_video_arm r bytes same = ground (arith, keyframe_is_video bytes)

video_arm-dropped :
    (r : Router) (bytes : Bytes) → dropped r.got_keyframe bytes ≡ true → video_arm r bytes ≡ r
unfolding video_arm
video_arm-dropped r bytes h = ground (arith, h)

video_arm-IsFlowing :
    (base first : ℕ) (r : Router) (bytes : Bytes)
    → IsFlowing base first r
    → InSpan base first bytes
    → dropped r.got_keyframe bytes ≡ false
    → IsFlowing base first (video_arm r bytes)
      × ((video_arm r bytes).sent ≡ restamp base first bytes ∷ r.sent)
unfolding video_arm
video_arm-IsFlowing base first r bytes flow span h =
    ground (arith, h, remap_later bytes first base r.output_ts span)

video_arm-IsFresh :
    (base : ℕ) (r : Router) (bytes : Bytes)
    → IsFresh base r
    → 8 ≤ length bytes
    → base < 4294967296
    → dropped r.got_keyframe bytes ≡ false
    → IsFlowing base (ts_of bytes) (video_arm r bytes)
      × ((video_arm r bytes).sent ≡ rewrite_tag_timestamp bytes base ∷ r.sent)
unfolding video_arm
video_arm-IsFresh base r bytes fresh long small h =
    ground (arith, h, remap_first bytes base r.output_ts long small)

shown-dropped :
    (got : Bool) (bytes : Bytes) (tags : List Bytes)
    → dropped got bytes ≡ true
    → shown got (bytes ∷ tags) ≡ shown got tags
shown-dropped got bytes tags h =
    let (unseen, other) : (got ≡ false) × (is_video_keyframe bytes ≡ false) = ground (arith, h) in
    if_cases (λ s. s ≡ shown got tags) (dropped got bytes) _ _
      (λ e. ap (λ b. shown b tags) (ground (arith, unseen, other)))
      (λ e. absurd (ground (arith, h, e)))

shown-kept :
    (got : Bool) (bytes : Bytes) (tags : List Bytes)
    → dropped got bytes ≡ false
    → shown got (bytes ∷ tags) ≡ bytes ∷ shown (got || is_video_keyframe bytes) tags
shown-kept got bytes tags h =
    if_cases (λ s. s ≡ bytes ∷ shown (got || is_video_keyframe bytes) tags) (dropped got bytes) _ _
      (λ e. absurd (ground (arith, h, e))) (λ e. refl)

shown_flowing :
    (base first : ℕ) (r : Router) (tags : List Bytes)
    → IsFlowing base first r
    → All (InSpan base first) (shown r.got_keyframe tags)
    → (video_all r tags).sent
      ≡ add_all (map (restamp base first) (shown r.got_keyframe tags)) r.sent
unfolding video_all add_all
shown_flowing base first r [] flow spans = refl
shown_flowing base first r (bytes ∷ tags) flow spans =
    elim (Bool-cases (dropped r.got_keyframe bytes)) [
      | inl e ↦
          let same = shown-dropped r.got_keyframe bytes tags e in
          ap (λ q. (video_all q tags).sent) (video_arm-dropped r bytes e)
          ∙ shown_flowing base first r tags flow (subst (All (InSpan base first)) same spans)
          ∙ ap (λ ts. add_all (map (restamp base first) ts) r.sent) (sym same)
      | inr e ↦
          let same = shown-kept r.got_keyframe bytes tags e in
          let (span, later) = subst (All (InSpan base first)) same spans in
          let (flow', sent) = video_arm-IsFlowing base first r bytes flow span e in
          let got = got_video_arm r bytes flow.same in
          shown_flowing base first (video_arm r bytes) tags flow'
            (subst (λ b. All (InSpan base first) (shown b tags)) (sym got) later)
          ∙ ap (λ b. add_all (map (restamp base first) (shown b tags)) (video_arm r bytes).sent) got
          ∙ ap
              (add_all
                (map (restamp base first) (shown (r.got_keyframe || is_video_keyframe bytes) tags)))
              sent
          ∙ ap (λ ts. add_all (map (restamp base first) ts) r.sent) (sym same)
    ]

-- The time of the first tag.
abbrev pub first_time : List Bytes → ℕ
first_time [] = 0
first_time (bytes ∷ tags) = ts_of bytes

-- The tags, of which the first is put at `base`.
abbrev pub restamp_all : ℕ → List Bytes → List Bytes
restamp_all base tags = map (restamp base (first_time tags)) tags

abbrev InOneSpan : ℕ → List Bytes → Type 0
InOneSpan base tags = All (InSpan base (first_time tags)) tags

shown_fresh :
    (base : ℕ) (r : Router) (tags : List Bytes)
    → IsFresh base r
    → base < 4294967296
    → InOneSpan base (shown r.got_keyframe tags)
    → (video_all r tags).sent ≡ add_all (restamp_all base (shown r.got_keyframe tags)) r.sent
unfolding video_all add_all
shown_fresh base r [] fresh small spans = refl
shown_fresh base r (bytes ∷ tags) fresh small spans =
    elim (Bool-cases (dropped r.got_keyframe bytes)) [
      | inl e ↦
          let same = shown-dropped r.got_keyframe bytes tags e in
          ap (λ q. (video_all q tags).sent) (video_arm-dropped r bytes e)
          ∙ shown_fresh base r tags fresh small (subst (InOneSpan base) same spans)
          ∙ ap (λ ts. add_all (restamp_all base ts) r.sent) (sym same)
      | inr e ↦
          let same = shown-kept r.got_keyframe bytes tags e in
          let (span, later) = subst (InOneSpan base) same spans in
          let (flow, sent) = video_arm-IsFresh base r bytes fresh span.0 small e in
          let got = got_video_arm r bytes fresh.same in
          let start : base ≡ base + (ts_of bytes - ts_of bytes) = omega arith in
          let rest = shown (r.got_keyframe || is_video_keyframe bytes) tags in
          shown_flowing base (ts_of bytes) (video_arm r bytes) tags flow
            (subst (λ b. All (InSpan base (ts_of bytes)) (shown b tags)) (sym got) later)
          ∙ ap
              (λ b.
                add_all (map (restamp base (ts_of bytes)) (shown b tags)) (video_arm r bytes).sent)
              got
          ∙ ap (add_all (map (restamp base (ts_of bytes)) rest)) sent
          ∙ ap
              (λ n.
                add_all (map (restamp base (ts_of bytes)) rest)
                  (rewrite_tag_timestamp bytes n ∷ r.sent))
              start
          ∙ ap (λ ts. add_all (restamp_all base ts) r.sent) (sym same)
    ]

entered_fields :
    (env : Env) (ts : ℕ) (sent : List Bytes) (r : Router)
    → enter env ts sent ≡ running r
    → (r.first_video_ts ≡ none) × (r.base_output_ts ≡ ts) × (r.got_keyframe ≡ false)
unfolding enter
entered_fields env ts sent r h = ground arith

-- The program clock goes on from where it stood when the router took up a source that also gives
-- the audio. Its tags are shown in order, all but the video before the first keyframe that is no
-- header; the first one that is shown, a keyframe or an audio tag before it, is put at that time,
-- and every later one as far behind as it was in the source. No tag that is shown is earlier in the
-- source than the first, and all fit 32 bits.
pub program_keeps_time :
    (env : Env) (ts : ℕ) (sent : List Bytes) (r : Router) (tags : List Bytes)
    → enter env ts sent ≡ running r
    → r.same_source ≡ true
    → ts < 4294967296
    → All (InSpan ts (first_time (shown false tags))) (shown false tags)
    → (video_all r tags).sent ≡ add_all (restamp_all ts (shown false tags)) r.sent
program_keeps_time env ts sent r tags h same small spans =
    let (first, base, got) = entered_fields env ts sent r h in
    let fresh : IsFresh ts r = record { same = same; base_eq = base; first_eq = first } in
    shown_fresh ts r tags fresh small (subst (λ b. InOneSpan ts (shown b tags)) (sym got) spans)
    ∙ ap (λ b. add_all (restamp_all ts (shown b tags)) r.sent) got
