-- ===== src/Mission/Program.antt =====
-- The dataclasses of models/mission.py.
use runtime_contracts.Prelude.{String, Bool, true, false, List, Option, ℤ}

pub data Disposition : Type 0 where
  produced_result produced_nothing stopped : Disposition

-- `unapproved` is `ApproverType.NONE`.
pub data ApproverType : Type 0 where
  unapproved human deterministic_verifier human_and_verifier : ApproverType

abbrev pub needs_verifier : ApproverType → Bool
needs_verifier deterministic_verifier = true
needs_verifier human_and_verifier = true
needs_verifier _ = false

abbrev pub is_unapproved : ApproverType → Bool
is_unapproved unapproved = true
is_unapproved _ = false

pub record ApprovalGate : Type 0 where
  pub approver : ApproverType
  pub policy : String

abbrev pub no_approval : ApprovalGate
no_approval = record { approver = unapproved; policy = "" }

pub record TerminalOutcome : Type 0 where
  pub outcome_id : String
  pub disposition : Disposition
  pub emits_artifact_kinds : List String
  pub description : String

pub record State : Type 0 where
  pub state_id : String
  pub terminal : Bool
  pub description : String

pub record Transition : Type 0 where
  pub transition_id : String
  pub from_states : List String
  pub to_state : String
  pub outcome : Option String
  pub approval : ApprovalGate
  pub verification_method : Option String
  pub capability_id : Option String
  pub retry_limit : ℤ
  pub compensation : Option String
  pub timeout_seconds : Option ℤ
  pub emits_event_schema : String
  pub description : String

pub record Supports : Type 0 where
  pub pause : Bool
  pub cancellation : Bool
  pub retries : Bool
  pub compensation : Bool

pub record MissionProgram : Type 0 where
  pub program_id : String
  pub program_version : String
  pub states : List State
  pub transitions : List Transition
  pub terminal_outcomes : List TerminalOutcome
  pub initial_state : String
  pub accepted_inputs : List String
  pub emitted_outputs : List String
  pub supports : Supports
  pub schema_version : String

-- The `ValueError`s of the constructors, by the check that raises them.
pub data Invalid : Type 0 where
  gate_without_policy : Invalid
  no_origin_state gate_without_verifier : Invalid
  initial_undeclared duplicate_transition undeclared_origin undeclared_target : Invalid
  terminal_without_outcome outcome_on_non_terminal undeclared_outcome leaves_terminal : Invalid
  retries_unsupported compensation_unsupported : Invalid
  no_terminal_outcome nothing_unrecordable unreachable_state orphan_outcome : Invalid
  stranded_pause undeclared_output : Invalid
  negative_sequence empty_ownership_change verification_ref_mismatch : Invalid

-- The `TransitionRefused`s, by the check that raises them.
pub data Refusal : Type 0 where
  not_permitted wrong_program self_transition : Refusal
  no_outcome_recorded outcome_recorded_early wrong_outcome public_leak : Refusal
  duplicate_sequence follows_the_end not_contiguous causal_cycle : Refusal

-- What a call of the models raises.
pub data Fault : Type 0 where
  value_error : Invalid → Fault
  refused : Refusal → Fault
  key_error : Fault
