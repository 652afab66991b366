-- ===== src/Mission/Construct.antt =====
-- The `__post_init__` checks of models/mission.py, in the order in which they are made.
use runtime_contracts.Prelude.{
  String, Bool, true, false, not, ◌&&◌, List, [], ◌∷◌, ◌++◌, map, Option, none, some, any, all,
  is_empty, member, string_eq, int_eq, ◌==◌, given, truthy, Result, ok, raise_if, ◌>>◌, pos,
  if◌then◌else◌,
}
use text.Mathlib.Text.{starts_with}
use runtime_contracts.Mission.Program.{
  Disposition, produced_nothing, needs_verifier, is_unapproved, ApprovalGate, TerminalOutcome,
  State, Transition, MissionProgram, Invalid,
}

abbrev pub state_ids : MissionProgram → List String
state_ids p = map (λ s. s.state_id) p.states

abbrev pub outcome_ids : MissionProgram → List String
outcome_ids p = map (λ o. o.outcome_id) p.terminal_outcomes

unfoldable pub terminal_ids : List State → List String
terminal_ids [] = []
terminal_ids (s ∷ ss) = if s.terminal then s.state_id ∷ terminal_ids ss else terminal_ids ss

-- `ApprovalGate.__post_init__`
unfoldable pub gate_post_init : ApprovalGate → Result Invalid (Unit {0})
gate_post_init g =
    raise_if (not (is_unapproved g.approver) && not (truthy g.policy)) Invalid.gate_without_policy

-- `Transition.__post_init__`
unfoldable pub transition_post_init : Transition → Result Invalid (Unit {0})
transition_post_init t = do
  raise_if (is_empty t.from_states) Invalid.no_origin_state
  raise_if (needs_verifier t.approval.approver && not (given t.verification_method))
      Invalid.gate_without_verifier

-- `t.outcome in outcome_ids`
abbrev pub outcome_declared : MissionProgram → Option String → Bool
outcome_declared p none = false
outcome_declared p (some o) = member o (outcome_ids p)

-- The body of the loop over the transitions, once the id is known to be new.
unfoldable pub check_transition : MissionProgram → Transition → Result Invalid (Unit {0})
unfolding terminal_ids
check_transition p t = do
  raise_if (any (λ o. not (member o (state_ids p))) t.from_states) Invalid.undeclared_origin
  raise_if (not (member t.to_state (state_ids p))) Invalid.undeclared_target
  raise_if (member t.to_state (terminal_ids p.states) && not (given t.outcome))
      Invalid.terminal_without_outcome
  raise_if (given t.outcome && not (member t.to_state (terminal_ids p.states)))
      Invalid.outcome_on_non_terminal
  raise_if (given t.outcome && not (outcome_declared p t.outcome)) Invalid.undeclared_outcome
  raise_if (any (λ o. member o (terminal_ids p.states)) t.from_states) Invalid.leaves_terminal
  raise_if (not (t.retry_limit == pos 0) && not p.supports.retries) Invalid.retries_unsupported
  raise_if (given t.compensation && not p.supports.compensation) Invalid.compensation_unsupported

-- The loop, with the ids seen so far.
unfoldable pub check_transitions :
    MissionProgram → List String → List Transition → Result Invalid (Unit {0})
unfolding check_transition
check_transitions p seen [] = ok tt
check_transitions p seen (t ∷ ts) = do
  raise_if (member t.transition_id seen) Invalid.duplicate_transition
  check_transition p t
  check_transitions p (t.transition_id ∷ seen) ts

abbrev pub is_nothing : Disposition → Bool
is_nothing produced_nothing = true
is_nothing _ = false

abbrev pub add_outcome : Option String → List String → List String
add_outcome none l = l
add_outcome (some o) l = if truthy o then o ∷ l else l

-- `{t.outcome for t in self.transitions if t.outcome}`
unfoldable pub declared_outcomes : List Transition → List String
declared_outcomes [] = []
declared_outcomes (t ∷ ts) = add_outcome t.outcome (declared_outcomes ts)

unfoldable pub paused_states : List Transition → List String
paused_states [] = []
paused_states (t ∷ ts) =
    if starts_with t.transition_id "pause" then t.to_state ∷ paused_states ts else paused_states ts

unfoldable pub origins : List Transition → List String
origins [] = []
origins (t ∷ ts) = t.from_states ++ origins ts

unfoldable pub emitted_kinds : List TerminalOutcome → List String
emitted_kinds [] = []
emitted_kinds (o ∷ os) = o.emits_artifact_kinds ++ emitted_kinds os

-- `not (xs - ys)`
abbrev pub subset : List String → List String → Bool
subset xs ys = all (λ x. member x ys) xs

-- `MissionProgram.__post_init__`
unfoldable pub program_post_init : MissionProgram → Result Invalid (Unit {0})
unfolding check_transitions declared_outcomes paused_states origins emitted_kinds
program_post_init p = do
  raise_if (not (member p.initial_state (state_ids p))) Invalid.initial_undeclared
  check_transitions p [] p.transitions
  raise_if (is_empty p.terminal_outcomes) Invalid.no_terminal_outcome
  raise_if (not (any (λ o. is_nothing o.disposition) p.terminal_outcomes))
      Invalid.nothing_unrecordable
  raise_if (not (subset (state_ids p) (p.initial_state ∷ map (λ t. t.to_state) p.transitions)))
      Invalid.unreachable_state
  raise_if (not (subset (outcome_ids p) (declared_outcomes p.transitions))) Invalid.orphan_outcome
  raise_if (p.supports.pause && not (subset (paused_states p.transitions) (origins p.transitions)))
      Invalid.stranded_pause
  raise_if (not (subset (emitted_kinds p.terminal_outcomes) p.emitted_outputs))
      Invalid.undeclared_output
