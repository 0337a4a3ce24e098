-- ===== src/Browser/Shots.antt =====
-- The frames of a page: crates/api/src/browser_source.rs, `screenshot_loop`.
use shed.Prelude.{
  if◌then◌else◌, option_eq, All, ℕ, suc, ◌≤◌, String, ◌≡◌, refl, ap, ◌⊎◌, inl, inr, Option, none,
  some, List, [], ◌∷◌, arith, ◌>>=◌, if_cases,
}
use shed.Browser.{Message, Line, written, answered, await_shot, screenshot_loop}

-- One of the messages has this frame's request and decodes to it.
abbrev pub IsAnswered : Line → List Message → ℕ × List ℕ → Type 0
IsAnswered l [] f = ⊥
IsAnswered l (m ∷ messages) f =
    ((m.id ≡ some f.0) × ((m.shot >>= l.decode) ≡ some f.1)) ⊎ IsAnswered l messages f

-- One frame at most for each request, from `id` on.
abbrev pub Ascends : ℕ → List (ℕ × List ℕ) → Type 0
Ascends id [] = Unit {0}
Ascends id (f ∷ frames) = (id ≤ f.0) × Ascends (suc f.0) frames

abbrev InOrder : Line → List Message → ℕ → List (ℕ × List ℕ) → Type 0
InOrder l messages id frames = Ascends id frames × All (IsAnswered l messages) frames

Ascends-later : (id : ℕ) (frames : List (ℕ × List ℕ)) → Ascends (suc id) frames → Ascends id frames
Ascends-later id [] h = h
Ascends-later id (f ∷ frames) h = (omega (arith, h.0), h.1)

All-later :
    (l : Line) (m : Message) (messages : List Message) (frames : List (ℕ × List ℕ))
    → All (IsAnswered l messages) frames
    → All (IsAnswered l (m ∷ messages)) frames
All-later l m messages [] h = h
All-later l m messages (f ∷ frames) h = (inr h.0, All-later l m messages frames h.1)

written-InOrder :
    (l : Line) (id : ℕ) (m : Message) (messages : List Message) (frames : List (ℕ × List ℕ))
    → m.id ≡ some id
    → InOrder l messages (suc id) frames
    → (jpeg : Option (List ℕ)) → (m.shot >>= l.decode) ≡ jpeg
    → InOrder l (m ∷ messages) id (written l id frames jpeg)
written-InOrder l id m messages frames is_for h none e =
    (Ascends-later id frames h.0, All-later l m messages frames h.1)
written-InOrder l id m messages frames is_for h (some jpeg) e =
    if_cases (InOrder l (m ∷ messages) id) (l.writes id) ((id, jpeg) ∷ frames) []
      (λ w. ((omega arith, h.0), (inl (is_for, e), All-later l m messages frames h.1)))
      (λ w. (tt, tt))

answered-InOrder :
    (l : Line) (id : ℕ) (m : Message) (messages : List Message) (frames : List (ℕ × List ℕ))
    → m.id ≡ some id
    → InOrder l messages (suc id) frames
    → (shot : Option String) → m.shot ≡ shot
    → InOrder l (m ∷ messages) id (answered l id frames shot)
answered-InOrder l id m messages frames is_for h none e = (tt, tt)
answered-InOrder l id m messages frames is_for h (some b64) e =
    written-InOrder l id m messages frames is_for h (l.decode b64) (ap (λ s. s >>= l.decode) e)

await_shot-InOrder :
    (l : Line) (id : ℕ) (messages : List Message) → InOrder l messages id (await_shot l id messages)
unfolding await_shot
await_shot-InOrder l id [] = (tt, tt)
await_shot-InOrder l id (m ∷ messages) =
    let following = await_shot l (suc id) messages in
    if_cases (InOrder l (m ∷ messages) id) (option_eq m.id (some id))
      (answered l id (if l.sends (suc id) then following else []) m.shot) (await_shot l id messages)
      (λ e.
        answered-InOrder l id m messages _ (ground (arith, e))
          (if_cases (InOrder l messages (suc id)) (l.sends (suc id)) following []
            (λ s. await_shot-InOrder l (suc id) messages) (λ s. (tt, tt)))
          m.shot refl)
      (λ e.
        let (ascends, all) = await_shot-InOrder l id messages in
        (ascends, All-later l m messages (await_shot l id messages) all))

-- The page gives one frame at most for each request, in the order of the requests, and every frame that is
-- written is the decoded answer to its own request, whatever else the page sends between.
pub screenshot_loop-InOrder :
    (l : Line) (messages : List Message)
    → Ascends 2 (screenshot_loop l messages)
      × All (IsAnswered l messages) (screenshot_loop l messages)
unfolding screenshot_loop
screenshot_loop-InOrder l messages =
    if_cases (InOrder l messages 2) (l.sends 2) (await_shot l 2 messages) []
      (λ s. await_shot-InOrder l 2 messages) (λ s. (tt, tt))
