-- ===== src/Ledger/Audit.antt =====
-- The replay of models/ledger.py that collects complaints: its answers and its histories.
use runtime_contracts.Prelude.{
  String, true, false, List, [], ◌∷◌, ◌++◌, ◌==◌, string_eq, ◌≡◌, refl, ◌∙◌, subst, arith, ok,
  >>=-eq-ok, Result-cases, inl, inr, ◌⊎◌, Bool-cases, member, int_eq,
}
use mathlib.Core.List.{append_assoc, append-nil}
use runtime_contracts.Canonical.Value.{Platform}
use runtime_contracts.Mission.{MissionProgram, State, Transition, find_state}
use runtime_contracts.Mission.WellFormed.{IsWellFormed}
use runtime_contracts.Investigation.{InvestigationTransitionEvent, permitted_by, by_sequence, walk}
use runtime_contracts.Investigation.Permitted.{
  permitted_by_refuses, permitted_by-pinned, permitted_by-require, target_is_state,
}
use runtime_contracts.Ledger.Replay.{
  ReplayResult, Progress, start, step, steps, accept, report, replay_ledger,
}

module _ (env : Platform) (p : MissionProgram) where
  step_total :
      (e : InvestigationTransitionEvent) (st : Progress)
      → IsWellFormed p
      → (st' : Progress) × (step env p false e st ≡ ok st')
  unfolding step
  step_total e st w = elim (Result-cases (step env p false e st)) [
    | inl found ↦ found
    | inr (g, raised) ↦ elim (Result-cases (permitted_by env p e)) [
      | inl (t, allowed) ↦
          let (s, at) = target_is_state env p e t w (permitted_by-require env p e allowed) in
          absurd (ground arith)
      | inr (f, refusal) ↦
          let (r, q) = permitted_by_refuses env p e w refusal in absurd (ground arith)
    ]
  ]

  steps_total :
      (es : List InvestigationTransitionEvent) (st : Progress)
      → IsWellFormed p
      → (st' : Progress) × (steps env p false es st ≡ ok st')
  unfolding steps
  steps_total [] st w = (st, refl)
  steps_total (e ∷ es) st w =
      let (mid, q) = step_total e st w in let (st', r) = steps_total es mid w in (st', rw q r)

  -- In a well-formed program the replay that collects complaints returns a result for any events.
  pub replay_ledger_total :
      (events : List InvestigationTransitionEvent)
      → IsWellFormed p
      → (r : ReplayResult) × (replay_ledger env p false events ≡ ok r)
  unfolding replay_ledger
  replay_ledger_total events w =
      let (st, q) = steps_total (by_sequence events) (start p) w in (report st, rw q)

  -- What a run has accepted so far walks from the initial state to the current one.
  abbrev IsHistory : Progress → Type 0
  IsHistory st =
      (es : List InvestigationTransitionEvent)
      → walk env p p.initial_state false (st.accepted ++ es) ≡ walk env p st.current st.terminal es

  walk_cons :
      (current : String) (t : Transition) (s : State) (e : InvestigationTransitionEvent)
      (es : List InvestigationTransitionEvent)
      → (e.from_state == current) ≡ true
      → permitted_by env p e ≡ ok t
      → find_state e.to_state p.states ≡ ok s
      → walk env p current false (e ∷ es) ≡ walk env p e.to_state s.terminal es
  unfolding walk
  walk_cons current t s e es h k l = ground arith

  -- A step of the collecting loop accepts the event, or accepts nothing and stays where it was.
  step-cases :
      (e : InvestigationTransitionEvent) (st : Progress) {st' : Progress}
      → step env p false e st ≡ ok st'
      → ((st'.accepted ≡ st.accepted) × (st'.current ≡ st.current) × (st'.terminal ≡ st.terminal))
        ⊎ ((s : State) × (st'.accepted ≡ st.accepted ++ e ∷ [])
            × (st'.current ≡ e.to_state)
            × (st'.terminal ≡ s.terminal)
            × (st.terminal ≡ false)
            × ((es : List InvestigationTransitionEvent)
                → walk env p st.current false (e ∷ es) ≡ walk env p e.to_state s.terminal es))
  unfolding step accept
  step-cases e st h = elim (Result-cases (permitted_by env p e)) [
    | inl (t, allowed) ↦ elim (Result-cases (find_state e.to_state p.states)) [
      | inl (s, at) ↦ elim (Bool-cases st.terminal) [
        | inl ended ↦ inl (ground arith, ground arith, ground arith)
        | inr running ↦ elim (Bool-cases (member e.sequence st.seen)) [
          | inl repeated ↦ inl (ground arith, ground arith, ground arith)
          | inr fresh ↦ elim (Bool-cases (e.from_state == st.current)) [
            | inl contiguous ↦
                let pin = permitted_by-pinned env p e allowed in
                inr (
                  s,
                  ground arith,
                  ground arith,
                  ground arith,
                  running,
                  λ es. walk_cons st.current t s e es contiguous allowed at,
                )
            | inr elsewhere ↦ inl (ground arith, ground arith, ground arith)
          ]
        ]
      ]
      | inr (f, missing) ↦ inl (ground arith, ground arith, ground arith)
    ]
    | inr (f, refusal) ↦ inl (ground arith, ground arith, ground arith)
  ]

  step-IsHistory :
      (e : InvestigationTransitionEvent) (st : Progress) {st' : Progress}
      → step env p false e st ≡ ok st'
      → IsHistory st
      → IsHistory st'
  step-IsHistory e st {st'} h past es = elim (step-cases e st h) [
    | inl (a, c, t) ↦ rw (a, c, t) (past es)
    | inr (s, a, c, t, running, moves) ↦
        rw (a, c, t, append_assoc) (past (e ∷ es) ∙ rw running (moves es))
  ]

  steps-IsHistory :
      (es : List InvestigationTransitionEvent) (st : Progress) {st' : Progress}
      → steps env p false es st ≡ ok st'
      → IsHistory st
      → IsHistory st'
  unfolding steps
  steps-IsHistory [] st {st'} h past =
      let same : st ≡ st' = ground arith in subst IsHistory same past
  steps-IsHistory (e ∷ es) st h past =
      let (mid, q, r) = >>=-eq-ok (step env p false e st) (λ s. steps env p false es s) h in
      steps-IsHistory es mid r (step-IsHistory e st q past)

  history_walked :
      (st : Progress) → IsHistory st → walk env p p.initial_state false st.accepted ≡ ok st.current
  unfolding walk
  history_walked st past = rw append-nil at (past [])

  -- If the replay that collects complaints returns a result, the events of its history walk the
  -- program from its initial state to the current state of the result.
  pub history_walks :
      (events : List InvestigationTransitionEvent) {r : ReplayResult}
      → replay_ledger env p false events ≡ ok r
      → walk env p p.initial_state false r.history ≡ ok r.current_state
  unfolding replay_ledger
  history_walks events {r} h =
      let (st, q, z) =
        >>=-eq-ok (steps env p false (by_sequence events) (start p)) (λ s. ok (report s)) h in
      let same : report st ≡ r = ground arith in
      subst (λ x. walk env p p.initial_state false x.history ≡ ok x.current_state) same
        (history_walked st (steps-IsHistory (by_sequence events) (start p) q (λ es. refl)))
