-- ===== src/Investigation/Replay.antt =====
-- `replay_states` of models/investigation.py.
use runtime_contracts.Prelude.{
  String, Bool, false, not, List, [], ◌∷◌, member, ◌==◌, string_eq, int_eq, int_order, ℤ, Result,
  ok, raise_if, ◌>>◌, ◌>>=◌,
}
use runtime_contracts.Prelude.Sort.{sort}
use runtime_contracts.Canonical.Value.{Platform}
use runtime_contracts.Mission.{MissionProgram, Fault, refused, Refusal, state}
use runtime_contracts.Investigation.Event.{InvestigationTransitionEvent}
use runtime_contracts.Investigation.Permission.{permitted_by}

-- `sorted(events, key=lambda e: e.sequence)`
abbrev pub by_sequence : List InvestigationTransitionEvent → List InvestigationTransitionEvent
by_sequence = sort (λ e. e.sequence)

-- The loop that refuses a sequence number seen before.
unfoldable pub check_sequences :
    List ℤ → List InvestigationTransitionEvent → Result Fault (Unit {0})
check_sequences seen [] = ok tt
check_sequences seen (e ∷ es) = do
  raise_if (member e.sequence seen) (refused Refusal.duplicate_sequence)
  check_sequences (e.sequence ∷ seen) es

module _ (env : Platform) (p : MissionProgram) where
  -- The loop over the ordered events, with the state and whether it is terminal.
  unfoldable pub walk : String → Bool → List InvestigationTransitionEvent → Result Fault String
  walk current terminated [] = ok current
  walk current terminated (e ∷ es) = do
    raise_if terminated (refused Refusal.follows_the_end)
    raise_if (not (e.from_state == current)) (refused Refusal.not_contiguous)
    permitted_by env p e
    s ← state p e.to_state
    walk e.to_state s.terminal es

  unfoldable pub replay_states : List InvestigationTransitionEvent → Result Fault String
  unfolding walk check_sequences
  replay_states events = do
    check_sequences [] (by_sequence events)
    walk p.initial_state false (by_sequence events)
