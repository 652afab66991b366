-- ===== src/Mission/Lookup.antt =====
-- Lookup and permission in a program of models/mission.py.
use runtime_contracts.Prelude.{
  String, Bool, true, ◌&&◌, ◌||◌, List, [], ◌∷◌, ◌++◌, Option, none, some, member, string_eq, ◌==◌,
  if◌then◌else◌, Result, ok, raise, not, given, int_eq, pos,
}
use runtime_contracts.Mission.Program.{
  State, TerminalOutcome, Transition, MissionProgram, Fault, key_error, refused, Refusal,
}

unfoldable pub find_state : String → List State → Result Fault State
find_state i [] = raise key_error
find_state i (s ∷ ss) = if s.state_id == i then ok s else find_state i ss

-- `MissionProgram.state`
abbrev pub state : MissionProgram → String → Result Fault State
state p i = find_state i p.states

unfoldable pub find_outcome : String → List TerminalOutcome → Result Fault TerminalOutcome
find_outcome i [] = raise key_error
find_outcome i (o ∷ os) = if o.outcome_id == i then ok o else find_outcome i os

-- `MissionProgram.outcome`
abbrev pub outcome : MissionProgram → String → Result Fault TerminalOutcome
outcome p i = find_outcome i p.terminal_outcomes

unfoldable pub find_transition : String → List Transition → Result Fault Transition
find_transition i [] = raise key_error
find_transition i (t ∷ ts) = if t.transition_id == i then ok t else find_transition i ts

-- `transition_id is None or t.transition_id == transition_id`
abbrev pub named : Option String → Transition → Bool
named none t = true
named (some i) t = t.transition_id == i

-- The tests of the loop of `permits`.
abbrev pub moves : String → String → Option String → Transition → Bool
moves from to i t = member from t.from_states && (t.to_state == to) && named i t

unfoldable pub find_permitting :
    String → String → Option String → List Transition → Option Transition
find_permitting from to i [] = none
find_permitting from to i (t ∷ ts) =
    if moves from to i t then some t else find_permitting from to i ts

-- `MissionProgram.permits`
abbrev pub permits : MissionProgram → String → String → Option String → Option Transition
permits p from to i = find_permitting from to i p.transitions

-- `MissionProgram.require`
unfoldable pub require : MissionProgram → String → String → Option String → Result Fault Transition
unfolding find_permitting
require p from to i = elim (permits p from to i) [
  | none ↦ raise (refused Refusal.not_permitted)
  | some t ↦ ok t
]

unfoldable pub permits_self_transition : Transition → Bool
permits_self_transition t = member t.to_state t.from_states

pub data RetrySafety : Type 0 where
  safe unsafe undeclared : RetrySafety

-- A problem that `validate_against_capabilities` reports, with the transition it is about.
pub data Problem : Type 0 where
  unknown_capability declared_unsafe : String → Problem

abbrev pub retry_problem : String → Option RetrySafety → List Problem
retry_problem i none = Problem.unknown_capability i ∷ []
retry_problem i (some RetrySafety.unsafe) = Problem.declared_unsafe i ∷ []
retry_problem i (some _) = []

-- `if not t.retry_limit or not t.capability_id: continue`, and `capabilities.get`.
abbrev pub transition_problems : (String → Option RetrySafety) → Transition → List Problem
transition_problems capabilities t =
    if (t.retry_limit == pos 0) || not (given t.capability_id) then [] else elim t.capability_id [
      | none ↦ []
      | some c ↦ retry_problem t.transition_id (capabilities c)
    ]

unfoldable pub validate_transitions : (String → Option RetrySafety) → List Transition → List Problem
validate_transitions capabilities [] = []
validate_transitions capabilities (t ∷ ts) =
    transition_problems capabilities t ++ validate_transitions capabilities ts
