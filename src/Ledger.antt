-- ===== src/Ledger.antt =====
-- models/ledger.py: submission, replay with an account of what was refused, and routing.
mod Submission
mod Replay
pub mod Laws
pub mod States
pub mod Audit
pub mod Submit
pub mod Routing
pub use Submission.{
  SubmissionOutcome, SubmissionResult, stored, is_error, catch_refusal, FindingRequirement,
  Misrouted,
}
unfoldable pub use Submission.{
  submit, permitted_then, current_program_would_permit, finding_requirement, check_finding_routing,
}
pub use Replay.{
  InvalidEvent, Verified, ReplayResult, Progress, can_transition, is_consistent, start, reject,
  mismatch, noted, assigned, or_else, report,
}
unfoldable pub use Replay.{accept, attempt, judge, step, steps, replay_ledger}
