-- ===== src/Program/Keyframe.antt =====
-- What the program carries before its first keyframe: crates/api/src/program.rs.
use shed.Prelude.{
  if◌then◌else◌, Bool-cases, All, ℕ, ◌≡◌, refl, sym, ap, ◌∙◌, ◌⊎◌, inl, inr, Bool, true, false,
  List, [], ◌∷◌, ◌++◌, arith,
}
use shed.Program.{
  Env, Router, Event, Flow, is_video, is_audio, video_arm, audio_arm, select_step, enter, running,
  source_changed, source_dropped, routing_changed, routing_dropped, pending_data, pending_lagged,
  pending_closed, video_data, video_lagged, video_closed, audio_data, audio_lagged, audio_closed,
  stay, Turns, start, turn,
}
use shed.Program.Tags.{remap_tag, Bytes, is_video_keyframe, is_sequence_header}
use shed.Program.Classify.{SameKind, remap_tag-SameKind}

-- A tag that needs no keyframe before it: audio, metadata, or a sequence header.
abbrev pub IsDecodable : Bytes → Type 0
IsDecodable t = (is_video t ≡ false) ⊎ (is_sequence_header t ≡ true)

-- What one turn may do to the output.
data Turned (r s : Router) : Type 0 where
  kept : s.sent ≡ r.sent → s.got_keyframe ≡ r.got_keyframe → Turned r s
  decodable :
      (t : Bytes)
      → s.sent ≡ t ∷ r.sent
      → s.got_keyframe ≡ r.got_keyframe
      → IsDecodable t
      → Turned r s
  opened :
      (t : Bytes)
      → s.sent ≡ t ∷ r.sent
      → s.got_keyframe ≡ true
      → is_video_keyframe t ≡ true
      → Turned r s
  followed :
      (t : Bytes) → s.sent ≡ t ∷ r.sent → s.got_keyframe ≡ true → r.got_keyframe ≡ true → Turned r s

SameKind-IsDecodable : {a b : Bytes} → SameKind a b → IsDecodable b → IsDecodable a
SameKind-IsDecodable k (inl h) = inl (rw k.same_type h)
SameKind-IsDecodable k (inr h) = inr (k.same_header ∙ h)

audio-IsDecodable : (t : Bytes) → is_audio t ≡ true → IsDecodable t
audio-IsDecodable t h = inl (ground arith)

audio_arm-Turned : (r : Router) (bytes : Bytes) → Turned r (audio_arm r bytes)
unfolding audio_arm
audio_arm-Turned r bytes = elim (Bool-cases (is_audio bytes)) [
  | inl audio ↦ rw audio (
      decodable _ refl refl (
        SameKind-IsDecodable
          (remap_tag-SameKind bytes r.first_audio_ts r.base_output_ts r.output_ts)
          (audio-IsDecodable bytes audio)))
  | inr other ↦ rw other (kept refl refl)
]

-- The branches of the arm for the current source, with `t` the tag that it would send.
video_arm_cases :
    (r : Router) (bytes : Bytes)
    → let s = video_arm r bytes in
      let t = (remap_tag bytes r.first_video_ts r.base_output_ts r.output_ts).0 in
      ((s.sent ≡ r.sent) × (s.got_keyframe ≡ r.got_keyframe))
      ⊎ ((s.sent ≡ t ∷ r.sent) × (s.got_keyframe ≡ r.got_keyframe) × IsDecodable bytes)
      ⊎ ((s.sent ≡ t ∷ r.sent) × (s.got_keyframe ≡ true) × (is_video_keyframe bytes ≡ true))
      ⊎ ((s.sent ≡ t ∷ r.sent) × (s.got_keyframe ≡ true) × (r.got_keyframe ≡ true))
unfolding video_arm
video_arm_cases r bytes = ground arith

video_arm-Turned : (r : Router) (bytes : Bytes) → Turned r (video_arm r bytes)
video_arm-Turned r bytes =
    let kind = remap_tag-SameKind bytes r.first_video_ts r.base_output_ts r.output_ts in
    elim (video_arm_cases r bytes) [
      | inl (e, g) ↦ kept e g
      | inr (inl (e, g, d)) ↦ decodable _ e g (SameKind-IsDecodable kind d)
      | inr (inr (inl (e, g, k))) ↦ opened _ e g (kind.same_keyframe ∙ k)
      | inr (inr (inr (e, g, g'))) ↦ followed _ e g g'
    ]

same-Turned : (r s : Router) → r ≡ s → Turned r s
same-Turned r s e = kept (ap (λ q. q.sent) (sym e)) (ap (λ q. q.got_keyframe) (sym e))

stay_inj : (r s : Router) → ◌≡◌ {A = Flow} (stay r) (stay s) → r ≡ s
stay_inj r s e = cc

if-Turned : (b : Bool) (r s : Router) → Turned r s → Turned r (if b then s else r)
if-Turned true r s t = t
if-Turned false r s t = kept refl refl

-- A turn after which the loop goes on.
select_step-Turned :
    (env : Env) (r : Router) (e : Event) (s : Router) → select_step env r e ≡ stay s → Turned r s
unfolding select_step
select_step-Turned env r source_changed s h = kept (ground arith) (ground arith)
select_step-Turned env r source_dropped s h = absurd (ground arith)
select_step-Turned env r routing_changed s h = absurd (ground arith)
select_step-Turned env r routing_dropped s h = absurd (ground arith)
select_step-Turned env r (pending_data bytes) s h = same-Turned r s (ground arith)
select_step-Turned env r pending_lagged s h = same-Turned r s (stay_inj r s h)
select_step-Turned env r pending_closed s h = kept (ground arith) (ground arith)
select_step-Turned env r (video_data bytes) s h = rw (← stay_inj _ s h) (video_arm-Turned r bytes)
select_step-Turned env r video_lagged s h = same-Turned r s (stay_inj r s h)
select_step-Turned env r video_closed s h = absurd (ground arith)
select_step-Turned env r (audio_data bytes) s h =
    rw (← stay_inj _ s h) (if-Turned r.audio_open r (audio_arm r bytes) (audio_arm-Turned r bytes))
select_step-Turned env r audio_lagged s h = same-Turned r s (stay_inj r s h)
select_step-Turned env r audio_closed s h = kept (ground arith) (ground arith)

-- Newest first: decodable tags only, up to and without a first keyframe.
abbrev pub HasKeyframe : List Bytes → Type 0
HasKeyframe tags =
    (newer : List Bytes) × (key : Bytes) × (older : List Bytes) × (tags ≡ newer ++ (key ∷ older))
    × (is_video_keyframe key ≡ true)
    × All IsDecodable older

abbrev pub OpensOnKeyframe : List Bytes → Type 0
OpensOnKeyframe tags = All IsDecodable tags ⊎ HasKeyframe tags

HasKeyframe-cons : (t : Bytes) (tags : List Bytes) → HasKeyframe tags → HasKeyframe (t ∷ tags)
HasKeyframe-cons t tags (newer, key, older, e, k, d) =
    (t ∷ newer, key, older, ap (λ l. t ∷ l) e, k, d)

record Inv (base : List Bytes) (r : Router) : Type 0 where
  tags : List Bytes
  sent_eq : r.sent ≡ tags ++ base
  waiting : r.got_keyframe ≡ false → All IsDecodable tags
  opens : r.got_keyframe ≡ true → HasKeyframe tags

opened-HasKeyframe :
    (base : List Bytes) (r : Router) (inv : Inv base r) (t : Bytes)
    → is_video_keyframe t ≡ true
    → HasKeyframe (t ∷ inv.tags)
opened-HasKeyframe base r inv t k = elim (Bool-cases r.got_keyframe) [
  | inl got ↦ HasKeyframe-cons t inv.tags (inv.opens got)
  | inr none_yet ↦ ([], t, inv.tags, refl, k, inv.waiting none_yet)
]

Turned-Inv : (base : List Bytes) (r s : Router) → Turned r s → Inv base r → Inv base s
Turned-Inv base r s (kept e g) inv = record {
  tags = inv.tags;
  sent_eq = e ∙ inv.sent_eq;
  waiting = λ w. inv.waiting (sym g ∙ w);
  opens = λ w. inv.opens (sym g ∙ w);
}
Turned-Inv base r s (decodable t e g d) inv = record {
  tags = t ∷ inv.tags;
  sent_eq = e ∙ ap (λ l. t ∷ l) inv.sent_eq;
  waiting = λ w. (d, inv.waiting (sym g ∙ w));
  opens = λ w. HasKeyframe-cons t inv.tags (inv.opens (sym g ∙ w));
}
Turned-Inv base r s (opened t e g k) inv = record {
  tags = t ∷ inv.tags;
  sent_eq = e ∙ ap (λ l. t ∷ l) inv.sent_eq;
  waiting = λ w. cc;
  opens = λ w. opened-HasKeyframe base r inv t k;
}
Turned-Inv base r s (followed t e g g') inv = record {
  tags = t ∷ inv.tags;
  sent_eq = e ∙ ap (λ l. t ∷ l) inv.sent_eq;
  waiting = λ w. cc;
  opens = λ w. HasKeyframe-cons t inv.tags (inv.opens g');
}

Turns-Inv : (base : List Bytes) {r s : Router} → Inv base r → Turns r s → Inv base s
Turns-Inv base inv start = inv
Turns-Inv base inv (turn {s} {t} env e before h) =
    Turned-Inv base s t (select_step-Turned env s e t h) (Turns-Inv base inv before)

-- A router that has just been entered waits for its first keyframe.
enter_waits :
    (env : Env) (ts : ℕ) (sent : List Bytes) (r : Router)
    → enter env ts sent ≡ running r
    → r.got_keyframe ≡ false
unfolding enter
enter_waits env ts sent r h = ground arith

-- From the moment the router takes up a source, for as long as it forwards that source: what it
-- has added to the program is audio, metadata and sequence headers only, or begins with such and
-- goes on with a keyframe. No destination is given video that it cannot decode.
pub enter-OpensOnKeyframe :
    (env : Env) (ts : ℕ) (sent : List Bytes) (r s : Router)
    → enter env ts sent ≡ running r
    → Turns r s
    → (added : List Bytes) × (s.sent ≡ added ++ r.sent) × OpensOnKeyframe added
enter-OpensOnKeyframe env ts sent r s h turns =
    let w = enter_waits env ts sent r h in
    let first : Inv r.sent r = record {
      tags = [];
      sent_eq = refl;
      waiting = λ _. tt;
      opens = λ g. absurd (ground arith);
    } in
    let inv = Turns-Inv r.sent first turns in
    (
      inv.tags,
      inv.sent_eq,
      elim (Bool-cases s.got_keyframe) [
        | inl got ↦ inr (inv.opens got)
        | inr none_yet ↦ inl (inv.waiting none_yet)
      ],
    )
