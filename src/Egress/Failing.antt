-- ===== src/Egress/Failing.antt =====
-- What a failed start and a stop leave: crates/api/src/egress.rs.
use shed.Prelude.{
  Option-cases, String, ◌≡◌, refl, sym, ap, ◌∙◌, ◌≢◌, ◌⊎◌, inl, inr, Option, none, some, List, [],
  ◌∷◌, ◌++◌, arith,
}
use shed.Types.{Destination, SequenceHeaders}
use shed.Output.{OutputConfig}
use shed.Egress.{
  Spawn, Spawned, failed, no_stdin, running, EgressManager, url_of, process_for, attempt, start_all,
}

dead_cases : (s : Spawned) → s ≢ running → (s ≡ no_stdin) ⊎ ((e : String) × (s ≡ failed e))
dead_cases (failed e) h = inr (e, refl)
dead_cases no_stdin h = inl refl
dead_cases running h = absurd (h refl)

some_ne_none : {s : String} → some s ≢ none
some_ne_none e = ground arith

module _ (spawn : Spawn) (cfg : Option OutputConfig) (seq : Option SequenceHeaders) where
  attempt_fails :
      (dest : Destination) (m : EgressManager) (url : String)
      → url_of dest ≡ some url
      → spawn (process_for cfg seq dest url).args ≢ running
      → ((e : String) × ((attempt spawn cfg seq dest m).0 ≡ some e))
        × ((attempt spawn cfg seq dest m).1 ≡ m)
  unfolding attempt
  attempt_fails dest m url pushed dead =
      elim (dead_cases (spawn (process_for cfg seq dest url).args) dead) [
        | inl e ↦ rw (attempt, pushed, e) ((_, refl), refl)
        | inr (s, e) ↦ rw (attempt, pushed, e) ((_, refl), refl)
      ]

  turn_on :
      (d : Destination) (rest : List Destination) (m : EgressManager)
      → (attempt spawn cfg seq d m).0 ≡ none
      → start_all spawn cfg seq (d ∷ rest) m
        ≡ start_all spawn cfg seq rest (attempt spawn cfg seq d m).1
  unfolding start_all
  turn_on d rest m e = rw (start_all, e) refl

  turn_off :
      (d : Destination) (rest : List Destination) (m : EgressManager) (s : String)
      → (attempt spawn cfg seq d m).0 ≡ some s
      → start_all spawn cfg seq (d ∷ rest) m ≡ (some s, (attempt spawn cfg seq d m).1)
  unfolding start_all
  turn_off d rest m s e = rw (start_all, e) refl

  -- A destination whose ffmpeg does not start ends the start: the ones before it are left running,
  -- as by a start of them alone, the ones after it are not tried, and the error is returned.
  pub start_all_stops_at_failure :
      (before : List Destination) (dest : Destination) (after : List Destination) (url : String)
      (m : EgressManager)
      → url_of dest ≡ some url
      → spawn (process_for cfg seq dest url).args ≢ running
      → (start_all spawn cfg seq before m).0 ≡ none
      → ((e : String) × ((start_all spawn cfg seq (before ++ (dest ∷ after)) m).0 ≡ some e))
        × ((start_all spawn cfg seq (before ++ (dest ∷ after)) m).1
            ≡ (start_all spawn cfg seq before m).1)
  unfolding start_all
  start_all_stops_at_failure [] dest after url m pushed dead ok =
      let ((s, e), same) = attempt_fails dest m url pushed dead in
      rw (start_all, e) ((s, refl), same)
  start_all_stops_at_failure (d ∷ before) dest after url m pushed dead ok =
      elim (Option-cases (attempt spawn cfg seq d m).0) [
        | inl e ↦
            let ok' = sym (ap (λ r. r.0) (turn_on d before m e)) ∙ ok in
            rw (start_all, e)
              (start_all_stops_at_failure before dest after url (attempt spawn cfg seq d m).1 pushed
                dead ok')
        | inr (s, e) ↦ absurd (some_ne_none (sym (ap (λ r. r.0) (turn_off d before m s e)) ∙ ok))
      ]
