-- ===== src/Mission/Forms.antt =====
-- The canonical and semantic forms of models/mission.py, and their hashes.
use runtime_contracts.Prelude.{
  String, Bool, List, [], ◌∷◌, map, string_order, ◌==◌, string_eq, if◌then◌else◌,
}
use runtime_contracts.Prelude.Sort.{sort}
use runtime_contracts.Canonical.Json.{
  Json, Dict, obj, str, arr, bool, int, fields, items, strs, opt_str, opt_int, or_null,
}
use runtime_contracts.Canonical.Value.{Platform, json_hash}
use runtime_contracts.Mission.Program.{
  Disposition, produced_result, produced_nothing, stopped, ApproverType, unapproved, human,
  deterministic_verifier, human_and_verifier, ApprovalGate, TerminalOutcome, State, Transition,
  Supports, MissionProgram,
}

abbrev pub disposition_value : Disposition → String
disposition_value produced_result = "PRODUCED_RESULT"
disposition_value produced_nothing = "PRODUCED_NOTHING"
disposition_value stopped = "STOPPED"

abbrev pub approver_value : ApproverType → String
approver_value unapproved = "NONE"
approver_value human = "HUMAN"
approver_value deterministic_verifier = "DETERMINISTIC_VERIFIER"
approver_value human_and_verifier = "HUMAN_AND_VERIFIER"

unfoldable pub sorted_texts : List String → Json
unfolding sort
sorted_texts l = strs (sort (λ s. s) l)

unfoldable pub gate_form : ApprovalGate → Json
gate_form g =
    obj (fields (("approver", str (approver_value g.approver)) ∷ ("policy", or_null g.policy) ∷ []))

-- `declared.pop(key, None)`
unfoldable pub pop : String → Dict Json → Dict Json
pop k [] = []
pop k (e ∷ d) = if k == e.0 then d else e ∷ pop k d

unfoldable pub outcome_semantic_dict : TerminalOutcome → Dict Json
unfolding sorted_texts
outcome_semantic_dict o =
    ("outcome_id", str o.outcome_id)
    ∷ ("disposition", str (disposition_value o.disposition))
    ∷ ("emits_artifact_kinds", sorted_texts o.emits_artifact_kinds)
    ∷ []

unfoldable pub outcome_form : TerminalOutcome → Json
unfolding sorted_texts
outcome_form o = obj (
    fields (
      ("outcome_id", str o.outcome_id)
      ∷ ("disposition", str (disposition_value o.disposition))
      ∷ ("emits_artifact_kinds", sorted_texts o.emits_artifact_kinds)
      ∷ ("description", or_null o.description)
      ∷ []))

unfoldable pub outcome_semantic_form : TerminalOutcome → Json
unfolding outcome_semantic_dict
outcome_semantic_form o = obj (fields (outcome_semantic_dict o))

unfoldable pub state_form : State → Json
state_form s = obj (
    fields (
      ("state_id", str s.state_id)
      ∷ ("terminal", bool s.terminal)
      ∷ ("description", or_null s.description)
      ∷ []))

unfoldable pub state_semantic_form : State → Json
state_semantic_form s =
    obj (fields (("state_id", str s.state_id) ∷ ("terminal", bool s.terminal) ∷ []))

unfoldable pub transition_dict : Transition → Dict Json
unfolding gate_form sorted_texts
transition_dict t =
    ("transition_id", str t.transition_id)
    ∷ ("from_states", sorted_texts t.from_states)
    ∷ ("to_state", str t.to_state)
    ∷ ("outcome", opt_str t.outcome)
    ∷ ("approval", gate_form t.approval)
    ∷ ("verification_method", opt_str t.verification_method)
    ∷ ("capability_id", opt_str t.capability_id)
    ∷ ("retry_limit", int t.retry_limit)
    ∷ ("compensation", opt_str t.compensation)
    ∷ ("timeout_seconds", opt_int t.timeout_seconds)
    ∷ ("emits_event_schema", str t.emits_event_schema)
    ∷ ("description", or_null t.description)
    ∷ []

unfoldable pub transition_form : Transition → Json
unfolding transition_dict
transition_form t = obj (fields (transition_dict t))

unfoldable pub transition_semantic_form : Transition → Json
unfolding transition_dict pop
transition_semantic_form t = obj (
    fields
      (pop "description" (pop "emits_event_schema" (pop "timeout_seconds" (transition_dict t)))))

unfoldable pub supports_form : Supports → Json
supports_form s = obj (
    fields (
      ("pause", bool s.pause)
      ∷ ("cancellation", bool s.cancellation)
      ∷ ("retries", bool s.retries)
      ∷ ("compensation", bool s.compensation)
      ∷ []))

-- To sort the forms by their id is to sort what they are made from by its id.
unfoldable pub program_form : MissionProgram → Json
unfolding state_form transition_form outcome_form supports_form sorted_texts sort
program_form p = obj (
    fields (
      ("schema_id", str "runtime-contracts/mission-program")
      ∷ ("schema_version", str p.schema_version)
      ∷ ("program_id", str p.program_id)
      ∷ ("program_version", str p.program_version)
      ∷ ("initial_state", str p.initial_state)
      ∷ ("states", arr (items (map state_form (sort (λ s. s.state_id) p.states))))
      ∷ (
        "transitions",
        arr (items (map transition_form (sort (λ t. t.transition_id) p.transitions))),
      )
      ∷ (
        "terminal_outcomes",
        arr (items (map outcome_form (sort (λ o. o.outcome_id) p.terminal_outcomes))),
      )
      ∷ ("accepted_inputs", sorted_texts p.accepted_inputs)
      ∷ ("emitted_outputs", sorted_texts p.emitted_outputs)
      ∷ ("supports", supports_form p.supports)
      ∷ []))

unfoldable pub program_semantic_form : MissionProgram → Json
unfolding state_semantic_form transition_semantic_form outcome_semantic_form supports_form sort
program_semantic_form p = obj (
    fields (
      ("program_id", str p.program_id)
      ∷ ("initial_state", str p.initial_state)
      ∷ ("states", arr (items (map state_semantic_form (sort (λ s. s.state_id) p.states))))
      ∷ (
        "transitions",
        arr (items (map transition_semantic_form (sort (λ t. t.transition_id) p.transitions))),
      )
      ∷ (
        "terminal_outcomes",
        arr (items (map outcome_semantic_form (sort (λ o. o.outcome_id) p.terminal_outcomes))),
      )
      ∷ ("supports", supports_form p.supports)
      ∷ []))

module _ (env : Platform) where
  -- `MissionProgram.content_hash`
  unfoldable pub program_hash : MissionProgram → String
  unfolding json_hash program_form
  program_hash p = json_hash env (program_form p)

  unfoldable pub semantic_hash : MissionProgram → String
  unfolding json_hash program_semantic_form
  semantic_hash p = json_hash env (program_semantic_form p)

  unfoldable pub is_compatible_with : MissionProgram → MissionProgram → Bool
  unfolding semantic_hash
  is_compatible_with p q = semantic_hash p == semantic_hash q
