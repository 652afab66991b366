-- ===== src/Mission.antt =====
-- models/mission.py: the declaration of a lifecycle.
mod Program
mod Forms
mod Construct
mod Lookup
pub mod Default
pub mod WellFormed
pub mod Permits
pub mod Described
pub use Program.*
pub use Forms.{disposition_value, approver_value}
unfoldable pub use Forms.{
  sorted_texts, gate_form, pop, outcome_semantic_dict, outcome_form, outcome_semantic_form,
  state_form, state_semantic_form, transition_dict, transition_form, transition_semantic_form,
  supports_form, program_form, program_semantic_form, program_hash, semantic_hash,
  is_compatible_with,
}
pub use Construct.{state_ids, outcome_ids, outcome_declared, is_nothing, add_outcome, subset}
unfoldable pub use Construct.{
  terminal_ids, gate_post_init, transition_post_init, check_transition, check_transitions,
  declared_outcomes, paused_states, origins, emitted_kinds, program_post_init,
}
pub use Lookup.{
  state, outcome, named, moves, permits, RetrySafety, Problem, retry_problem, transition_problems,
}
unfoldable pub use Lookup.{
  find_state, find_outcome, find_transition, find_permitting, require, permits_self_transition,
  validate_transitions,
}
