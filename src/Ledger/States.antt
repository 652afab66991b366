-- ===== src/Ledger/States.antt =====
-- `replay_ledger` of models/ledger.py against `replay_states` of models/investigation.py.
use runtime_contracts.Prelude.{
  String, true, false, List, [], ◌∷◌, member, ◌==◌, string_eq, int_eq, ◌≡◌, ◌↔◌, refl, arith, ok,
  raise, >>=-eq-ok, Result-cases, inl, inr,
}
use runtime_contracts.Canonical.Value.{Platform}
use runtime_contracts.Mission.{MissionProgram, State, Transition, Fault, find_state}
use runtime_contracts.Investigation.{
  InvestigationTransitionEvent, permitted_by, by_sequence, check_sequences, walk, replay_states,
}
use runtime_contracts.Investigation.Permitted.{permitted_by-pinned}
use runtime_contracts.Ledger.Replay.{
  ReplayResult, Progress, start, step, steps, accept, report, replay_ledger,
}

module _ (env : Platform) (p : MissionProgram) where
  -- One accepted event, as the loop of `replay_states` sees it.
  record Moves (e : InvestigationTransitionEvent) (st st' : Progress) : Type 0 where
    fresh : member e.sequence st.seen ≡ false
    running : st.terminal ≡ false
    contiguous : (e.from_state == st.current) ≡ true
    permitted : (t : Transition) × (permitted_by env p e ≡ ok t)
    lands : (s : State) × (find_state e.to_state p.states ≡ ok s) × (st'.terminal ≡ s.terminal)
    seen : st'.seen ≡ e.sequence ∷ st.seen
    current : st'.current ≡ e.to_state

  strict_step-Moves :
      (e : InvestigationTransitionEvent) (st : Progress) {st' : Progress}
      → step env p true e st ≡ ok st'
      → Moves e st st'
  unfolding step accept
  strict_step-Moves e st h = elim (Result-cases (permitted_by env p e)) [
    | inl (t, allowed) ↦ elim (Result-cases (find_state e.to_state p.states)) [
      | inl (s, at) ↦ record {
        fresh = ground arith;
        running = ground arith;
        contiguous = ground arith;
        permitted = (t, allowed);
        lands = (s, at, ground arith);
        seen = ground arith;
        current = ground arith;
      }
      | inr (f, missing) ↦ absurd (ground arith)
    ]
    | inr (f, refusal) ↦ absurd (ground arith)
  ]

  walk_of_steps :
      (es : List InvestigationTransitionEvent) (st : Progress) {st' : Progress}
      → steps env p true es st ≡ ok st'
      → (check_sequences st.seen es ≡ ok tt)
        × (walk env p st.current st.terminal es ≡ ok st'.current)
  unfolding steps check_sequences walk
  walk_of_steps [] st h = (refl, ground arith)
  walk_of_steps (e ∷ es) st {st'} h =
      let (mid, q, r) = >>=-eq-ok (step env p true e st) (λ s. steps env p true es s) h in
      let m = strict_step-Moves e st q in
      let (a, b) = walk_of_steps es mid {st' = st'} r in ground arith

  strict_step_accepts :
      (e : InvestigationTransitionEvent) (st : Progress) {f : Fault}
      → step env p true e st ≡ raise f
      → member e.sequence st.seen ≡ false
      → (t : Transition) (s : State) → permitted_by env p e ≡ ok t
      → find_state e.to_state p.states ≡ ok s
      → st.terminal ≡ false
      → (e.from_state == st.current) ≡ true
      → ⊥
  unfolding step
  strict_step_accepts e st h fresh t s allowed at running contiguous =
      ground (arith, permitted_by-pinned env p e allowed)

  steps_of_walk :
      (es : List InvestigationTransitionEvent) (st : Progress) {z : String}
      → check_sequences st.seen es ≡ ok tt
      → walk env p st.current st.terminal es ≡ ok z
      → (st' : Progress) × (steps env p true es st ≡ ok st') × (st'.current ≡ z)
  unfolding steps check_sequences walk
  steps_of_walk [] st h k = (st, refl, ground arith)
  steps_of_walk (e ∷ es) st {z} h k = elim (Result-cases (step env p true e st)) [
    | inl (mid, q) ↦
        let m = strict_step-Moves e st q in
        let (st', r, c) = steps_of_walk es mid {z = z} (ground arith) (ground arith) in
        (st', rw q r, c)
    | inr (f, q) ↦ elim (Result-cases (permitted_by env p e)) [
      | inl (t, allowed) ↦ elim (Result-cases (find_state e.to_state p.states)) [
        | inl (s, at) ↦
            absurd (
              strict_step_accepts e st q (ground arith) t s allowed at (ground arith)
                (ground arith))
        | inr (g, missing) ↦ absurd (ground arith)
      ]
      | inr (g, refusal) ↦ absurd (ground arith)
    ]
  ]

  -- `replay_states` returns a state exactly if the strict replay of the same events returns a result
  -- whose current state it is.
  pub replay_states_iff :
      (events : List InvestigationTransitionEvent) (z : String)
      → (replay_states env p events ≡ ok z)
        ↔ ((r : ReplayResult) × (replay_ledger env p true events ≡ ok r) × (r.current_state ≡ z))
  unfolding replay_states replay_ledger
  replay_states_iff events z = (
    λ h.
        let (st, q, c) =
          steps_of_walk (by_sequence events) (start p) {z = z} (ground arith) (ground arith) in
        (report st, rw q, c),
    λ (r, h, c).
        let (st, q, z') =
          >>=-eq-ok (steps env p true (by_sequence events) (start p)) (λ s. ok (report s)) h in
        let (a, b) = walk_of_steps (by_sequence events) (start p) q in ground arith,
  )
