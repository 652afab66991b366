-- ===== src/Investigation/Permitted.antt =====
-- `permitted_by` of models/investigation.py against what it is meant to decide.
use runtime_contracts.Prelude.{
  true, some, given, is_empty, In, All-In, ◌≡◌, ◌==◌, string_eq, arith, eq_iff, ok, raise,
  Result-cases, inl, inr, member,
}
use runtime_contracts.Canonical.Value.{Platform}
use runtime_contracts.Visibility.{same_text}
use runtime_contracts.Mission.{
  MissionProgram, Transition, State, Fault, refused, Refusal, require, moves, program_hash,
  find_state, permits_self_transition, terminal_ids,
}
use runtime_contracts.Mission.WellFormed.{IsWellFormed, IsValidTransition}
use runtime_contracts.Mission.Permits.{
  require-In, require-refused, require_self, find_state_total, find_state-terminal, AreDistinct,
}
use runtime_contracts.Investigation.Event.{InvestigationTransitionEvent}
use runtime_contracts.Investigation.Permission.{permitted_by, public_leak}

module _ (env : Platform) (p : MissionProgram) where
  -- The event pins this program, the transition is declared under the event's id and makes its
  -- move, an outcome is recorded exactly when the move ends the inquiry and is then the
  -- transition's, and nothing private leaks.
  pub record Permitted (e : InvestigationTransitionEvent) (t : Transition) : Type 0 where
    pub pinned : program_hash env p ≡ e.program_hash
    pub declared : In t p.transitions
    pub makes_move : moves e.from_state e.to_state (some e.transition_id) t ≡ true
    pub outcome_at_end : given e.terminal_outcome ≡ member e.to_state (terminal_ids p.states)
    pub outcome_agrees :
        given e.terminal_outcome ≡ true → same_text t.outcome e.terminal_outcome ≡ true
    pub leaks_nothing : is_empty (public_leak e) ≡ true

  pub permitted_by-require :
      (e : InvestigationTransitionEvent) {t : Transition}
      → permitted_by env p e ≡ ok t
      → require p e.from_state e.to_state (some e.transition_id) ≡ ok t
  unfolding permitted_by
  permitted_by-require e h = ground arith

  pub permitted_by-pinned :
      (e : InvestigationTransitionEvent) {t : Transition}
      → permitted_by env p e ≡ ok t
      → (e.program_hash == program_hash env p) ≡ true
  unfolding permitted_by
  permitted_by-pinned e h = ground (
    arith,
    eq_iff (program_hash env p) e.program_hash,
    eq_iff e.program_hash (program_hash env p),
  )

  -- Where the program is well formed, the target of a declared transition is a state.
  pub target_is_state :
      (e : InvestigationTransitionEvent) (t : Transition)
      → IsWellFormed p
      → require p e.from_state e.to_state (some e.transition_id) ≡ ok t
      → (s : State) × (find_state e.to_state p.states ≡ ok s)
  target_is_state e t w h =
      let (m, q) = require-In p e.from_state e.to_state (some e.transition_id) h in
      let v : IsValidTransition p t = All-In (IsValidTransition p) w.transitions_valid m in
      find_state_total e.to_state p.states
        (ground (arith, eq_iff t.to_state e.to_state, v.target_declared))

  -- In a well-formed program whatever `permitted_by` raises is a refusal.
  pub permitted_by_refuses :
      (e : InvestigationTransitionEvent) {f : Fault}
      → IsWellFormed p
      → permitted_by env p e ≡ raise f
      → (r : Refusal) × (f ≡ refused r)
  unfolding permitted_by
  permitted_by_refuses e {f} w h =
      elim (Result-cases (require p e.from_state e.to_state (some e.transition_id))) [
        | inl (t, found) ↦ let (s, q) = target_is_state e t w found in ground arith
        | inr (x, missing) ↦
            let (r, q) = require-refused p e.from_state e.to_state (some e.transition_id) missing in
            ground arith
      ]

  -- In a well-formed program with distinct state ids, the transition that `permitted_by` returns for
  -- an event is permitted for it.
  pub permitted_by_sound :
      (e : InvestigationTransitionEvent) {t : Transition}
      → IsWellFormed p
      → AreDistinct p.states
      → permitted_by env p e ≡ ok t
      → Permitted e t
  unfolding permitted_by
  permitted_by_sound e {t} w d h =
      let found = permitted_by-require e h in
      let (m, q) = require-In p e.from_state e.to_state (some e.transition_id) found in
      let (s, at) = target_is_state e t w found in
      let ends = find_state-terminal e.to_state p.states d at in
      record {
        pinned = ground (arith, eq_iff (program_hash env p) e.program_hash);
        declared = m;
        makes_move = q;
        outcome_at_end = ground arith;
        outcome_agrees = ground arith;
        leaks_nothing = ground arith;
      }

  -- In a well-formed program with distinct state ids, a transition that is permitted for an event is
  -- the one that `permitted_by` returns.
  pub permitted_by_complete :
      (e : InvestigationTransitionEvent) {t : Transition}
      → IsWellFormed p
      → AreDistinct p.states
      → Permitted e t
      → permitted_by env p e ≡ ok t
  unfolding permitted_by permits_self_transition
  permitted_by_complete e {t} w d k =
      let found =
        require_self p e.from_state e.to_state e.transition_id w.ids_distinct k.declared
          k.makes_move in
      let (s, at) = target_is_state e t w found in
      let ends = find_state-terminal e.to_state p.states d at in
      ground (
        arith,
        eq_iff (program_hash env p) e.program_hash,
        eq_iff e.from_state e.to_state,
        eq_iff t.to_state e.to_state,
      )
