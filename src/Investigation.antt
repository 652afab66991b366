-- ===== src/Investigation.antt =====
-- models/investigation.py: one recorded move, and the replay of a history.
mod Event
mod Permission
mod Replay
pub mod Permitted
pub use Event.{
  OwnershipChange, InvestigationTransitionEvent, names_no_owner, ref_mismatch, ownership_form,
  opt_verification, parents_field,
}
unfoldable pub use Event.{event_dict, event_post_init, event_form, event_hash}
pub use Permission.{private_kinds, gate_passed}
unfoldable pub use Permission.{
  before_slash, private_refs, public_leak, permitted_by, satisfied_its_gate,
}
pub use Replay.{by_sequence}
unfoldable pub use Replay.{check_sequences, walk, replay_states}
