-- ===== src/Mission/Described.antt =====
-- The descriptions of a program of models/mission.py, and its semantic hash.
use runtime_contracts.Prelude.{
  String, List, [], ◌∷◌, map, ◌≡◌, refl, ap, ◌∙◌, arith, string_order, eq_iff, Option, ℤ, true,
}
use runtime_contracts.Prelude.Sort.{sort, insert}
use runtime_contracts.Canonical.Json.{Json}
use runtime_contracts.Canonical.Value.{Platform}
use runtime_contracts.Mission.Program.{State, Transition, TerminalOutcome, MissionProgram}
use runtime_contracts.Mission.Forms.{
  state_semantic_form, transition_semantic_form, outcome_semantic_form, semantic_hash,
  is_compatible_with,
}

-- A change of the elements that keeps their keys and their forms.
module _ {A : Type 0} (key : A → String) (form : A → Json) (change : A → A)
    (same_key : (x : A) → key (change x) ≡ key x)
    (same_form : (x : A) → form (change x) ≡ form x) where
  insert-map :
      (x : A) (ys : List A) → insert key (change x) (map change ys) ≡ map change (insert key x ys)
  unfolding insert
  insert-map x [] = refl
  insert-map x (y ∷ ys) = ground (arith, same_key x, same_key y, insert-map x ys)

  sort-map : (xs : List A) → sort key (map change xs) ≡ map change (sort key xs)
  unfolding sort
  sort-map [] = refl
  sort-map (x ∷ xs) = ap (insert key (change x)) (sort-map xs) ∙ insert-map x (sort key xs)

  map-change : (xs : List A) → map form (map change xs) ≡ map form xs
  map-change [] = refl
  map-change (x ∷ xs) = rw (same_form x) (ap (◌∷◌ (form x)) (map-change xs))

  forms_unchanged : (xs : List A) → map form (sort key (map change xs)) ≡ map form (sort key xs)
  forms_unchanged xs = ap (map form) (sort-map xs) ∙ map-change (sort key xs)

-- Other descriptions of states and outcomes, and other descriptions, timeouts and event schemas of
-- transitions.
module _ (f : State → String) (g : Transition → String × (Option ℤ × String))
    (h : TerminalOutcome → String) where
  abbrev pub state_described : State → State
  state_described s = record s { description = f s }

  abbrev pub transition_described : Transition → Transition
  transition_described t = record t {
    description = (g t).0;
    timeout_seconds = (g t).1.0;
    emits_event_schema = (g t).1.1;
  }

  abbrev pub outcome_described : TerminalOutcome → TerminalOutcome
  outcome_described o = record o { description = h o }

  abbrev pub described : MissionProgram → MissionProgram
  described p = record p {
    states = map state_described p.states;
    transitions = map transition_described p.transitions;
    terminal_outcomes = map outcome_described p.terminal_outcomes;
  }

  -- However the descriptions of a program and the timeouts and event schemas of its transitions are
  -- rewritten, its semantic hash stays the same, and the program is compatible with the old one.
  pub semantic_hash-described :
      (env : Platform) (p : MissionProgram)
      → (semantic_hash env (described p) ≡ semantic_hash env p)
        × (is_compatible_with env (described p) p ≡ true)
  unfolding is_compatible_with state_semantic_form transition_semantic_form outcome_semantic_form
  semantic_hash-described env p =
      let same : semantic_hash env (described p) ≡ semantic_hash env p =
        rw
          (
            forms_unchanged (λ s. s.state_id) state_semantic_form state_described (λ x. refl)
                (λ x. refl) p.states,
            forms_unchanged (λ t. t.transition_id) transition_semantic_form transition_described
                (λ x. refl) (λ x. refl) p.transitions,
            forms_unchanged (λ o. o.outcome_id) outcome_semantic_form outcome_described (λ x. refl)
                (λ x. refl) p.terminal_outcomes,
          )
          refl in
      (same, (eq_iff (semantic_hash env (described p)) (semantic_hash env p)).1 same)
