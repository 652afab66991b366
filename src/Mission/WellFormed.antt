-- ===== src/Mission/WellFormed.antt =====
-- The programs that `MissionProgram.__post_init__` of models/mission.py accepts.
use runtime_contracts.Prelude.{
  String, Bool, true, false, not, List, [], ◌∷◌, map, any, member, string_eq, given, ok, ◌≡◌, arith,
  eq_iff, All, pos, int_eq, Bool-cases, inl, inr, ◌==◌,
}
use runtime_contracts.Mission.Program.{MissionProgram, Transition}
use runtime_contracts.Mission.Construct.{
  state_ids, outcome_ids, terminal_ids, outcome_declared, check_transition, check_transitions,
  program_post_init, is_nothing, subset, declared_outcomes, emitted_kinds, paused_states, origins,
}

-- A transition leaves declared states that are not terminal, enters a declared one, and has an
-- outcome exactly where it enters a terminal one.
pub record IsValidTransition (p : MissionProgram) (t : Transition) : Type 0 where
  pub origins_declared :
      (o : String) → member o t.from_states ≡ true → member o (state_ids p) ≡ true
  pub origins_live :
      (o : String) → member o t.from_states ≡ true → member o (terminal_ids p.states) ≡ false
  pub target_declared : member t.to_state (state_ids p) ≡ true
  pub outcome_at_end : given t.outcome ≡ member t.to_state (terminal_ids p.states)
  pub outcome_known : given t.outcome ≡ true → outcome_declared p t.outcome ≡ true
  pub retries_supported : p.supports.retries ≡ false → t.retry_limit ≡ pos 0
  pub compensation_supported : p.supports.compensation ≡ false → given t.compensation ≡ false

-- No id of the list is among those seen before it.
abbrev pub AreNew : List String → List Transition → Type 0
AreNew seen [] = Unit
AreNew seen (t ∷ ts) = (member t.transition_id seen ≡ false) × AreNew (t.transition_id ∷ seen) ts

pub record IsWellFormed (p : MissionProgram) : Type 0 where
  pub initial_declared : member p.initial_state (state_ids p) ≡ true
  pub transitions_valid : All (IsValidTransition p) p.transitions
  pub ids_distinct : AreNew [] p.transitions
  pub nothing_recordable : any (λ o. is_nothing o.disposition) p.terminal_outcomes ≡ true
  pub states_reached :
      (s : String)
      → member s (state_ids p) ≡ true
      → member s (p.initial_state ∷ map (λ t. t.to_state) p.transitions) ≡ true
  pub outcomes_produced :
      (o : String)
      → member o (outcome_ids p) ≡ true
      → member o (declared_outcomes p.transitions) ≡ true
  pub pauses_resumable :
      p.supports.pause ≡ true
      → (s : String) → member s (paused_states p.transitions) ≡ true
      → member s (origins p.transitions) ≡ true
  pub outputs_declared :
      (k : String)
      → member k (emitted_kinds p.terminal_outcomes) ≡ true
      → member k p.emitted_outputs ≡ true

-- What no element of the list satisfies, a member does not satisfy.
not_any :
    (q : String → Bool) (xs : List String) (x : String)
    → any q xs ≡ false
    → member x xs ≡ true
    → q x ≡ false
not_any q [] x h m = cc
not_any q (y ∷ ys) x h m = elim (Bool-cases (x == y)) [
  | inl e ↦ rw ((eq_iff x y).0 e) (ground arith)
  | inr e ↦ not_any q ys x (ground arith) (ground arith)
]

pub subset→member :
    (xs ys : List String) (x : String)
    → subset xs ys ≡ true
    → member x xs ≡ true
    → member x ys ≡ true
subset→member [] ys x h m = cc
subset→member (z ∷ zs) ys x h m = elim (Bool-cases (x == z)) [
  | inl e ↦ rw ((eq_iff x z).0 e) (ground arith)
  | inr e ↦ subset→member zs ys x (ground arith) (ground arith)
]

check_transition-IsValid :
    (p : MissionProgram) (t : Transition) → check_transition p t ≡ ok tt → IsValidTransition p t
unfolding check_transition
check_transition-IsValid p t h = record {
  origins_declared =
      λ o m. ground (arith, not_any (λ s. not (member s (state_ids p))) t.from_states o);
  origins_live =
      λ o m. ground (arith, not_any (λ s. member s (terminal_ids p.states)) t.from_states o);
  target_declared = ground arith;
  outcome_at_end = ground arith;
  outcome_known = ground arith;
  retries_supported = ground arith;
  compensation_supported = ground arith;
}

check_transitions-valid :
    (p : MissionProgram) (seen : List String) (ts : List Transition)
    → check_transitions p seen ts ≡ ok tt
    → All (IsValidTransition p) ts × AreNew seen ts
unfolding check_transitions
check_transitions-valid p seen [] h = (tt, tt)
check_transitions-valid p seen (t ∷ ts) h =
    let rest = check_transitions-valid p (t.transition_id ∷ seen) ts (ground arith) in
    ((check_transition-IsValid p t (ground arith), rest.0), (ground arith, rest.1))

-- A program that the constructor accepts is well formed.
pub program_post_init-IsWellFormed :
    (p : MissionProgram) → program_post_init p ≡ ok tt → IsWellFormed p
unfolding program_post_init
program_post_init-IsWellFormed p h =
    let loop = check_transitions-valid p [] p.transitions (ground arith) in
    record {
      initial_declared = ground arith;
      transitions_valid = loop.0;
      ids_distinct = loop.1;
      nothing_recordable = ground arith;
      states_reached = λ s.
          subset→member (state_ids p) (p.initial_state ∷ map (λ t. t.to_state) p.transitions) s
            (ground arith);
      outcomes_produced =
          λ o. subset→member (outcome_ids p) (declared_outcomes p.transitions) o (ground arith);
      pauses_resumable = λ on s.
          subset→member (paused_states p.transitions) (origins p.transitions) s (ground arith);
      outputs_declared =
          λ k. subset→member (emitted_kinds p.terminal_outcomes) p.emitted_outputs k (ground arith);
    }
