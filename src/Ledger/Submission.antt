-- ===== src/Ledger/Submission.antt =====
-- `submit`, `permitted_then`, `current_program_would_permit` and the routing rule of
-- models/ledger.py.
use runtime_contracts.Prelude.{
  String, Bool, true, false, not, List, Option, none, some, is_empty, is_none, ◌==◌, string_eq,
  Result, ok, raise, ◌>>=◌, if◌then◌else◌,
}
use runtime_contracts.Canonical.Json.{Dict}
use runtime_contracts.Canonical.Dict.{get}
use runtime_contracts.Canonical.Value.{Platform}
use runtime_contracts.Mission.{MissionProgram, Transition, Fault, Refusal, permits, outcome}
use runtime_contracts.Investigation.{InvestigationTransitionEvent, permitted_by, event_hash}

-- The outcome, with the refusal where there is one.
pub data SubmissionOutcome : Type 0 where
  accepted duplicate conflict : SubmissionOutcome
  refused_by : Refusal → SubmissionOutcome

pub record SubmissionResult : Type 0 where
  pub outcome : SubmissionOutcome
  pub event_id : String

abbrev pub stored : SubmissionResult → Bool
stored r = elim r.outcome [ accepted ↦ true | _ ↦ false ]

abbrev pub is_error : SubmissionResult → Bool
is_error r = elim r.outcome [ conflict ↦ true | refused_by x ↦ true | _ ↦ false ]

-- The `try` around `permitted_by`: only a `TransitionRefused` is caught.
abbrev pub catch_refusal : String → Result Fault Transition → Result Fault SubmissionResult
catch_refusal i (ok t) = ok (record { outcome = accepted; event_id = i })
catch_refusal i (raise (Fault.refused r)) = ok (record { outcome = refused_by r; event_id = i })
catch_refusal i (raise (Fault.value_error e)) = raise (Fault.value_error e)
catch_refusal i (raise Fault.key_error) = raise Fault.key_error

-- `existing` maps the stored event ids to their hashes.
unfoldable pub submit :
    Platform
    → MissionProgram
    → Dict String
    → String
    → InvestigationTransitionEvent
    → Result Fault SubmissionResult
unfolding get
submit env p existing i e = elim (get i existing) [
  | none ↦ catch_refusal i (permitted_by env p e)
  | some previous ↦
      if previous == event_hash env e
      then ok (record { outcome = duplicate; event_id = i })
      else ok (record { outcome = conflict; event_id = i })
]

unfoldable pub permitted_then :
    Platform → InvestigationTransitionEvent → MissionProgram → Result Fault Bool
permitted_then env e pinned = elim (permitted_by env pinned e) [
  | ok t ↦ ok true
  | raise f ↦ elim f [
    | Fault.refused r ↦ ok false
    | Fault.value_error x ↦ raise (Fault.value_error x)
    | Fault.key_error ↦ raise Fault.key_error
  ]
]

unfoldable pub current_program_would_permit : InvestigationTransitionEvent → MissionProgram → Bool
current_program_would_permit e current =
    not (is_none (permits current e.from_state e.to_state (some e.transition_id)))

pub data FindingRequirement : Type 0 where
  forbidden required : FindingRequirement

unfoldable pub finding_requirement : MissionProgram → String → Result Fault FindingRequirement
finding_requirement p i = do
  o ← outcome p i
  ok (if is_empty o.emits_artifact_kinds then forbidden else required)

-- The two complaints of `check_finding_routing`.
pub data Misrouted : Type 0 where
  finding_on_null_result conclusion_uncited : Misrouted

unfoldable pub check_finding_routing :
    MissionProgram → String → List String → Result Fault (Option Misrouted)
unfolding finding_requirement
check_finding_routing p i refs = do
  r ← finding_requirement p i
  ok (elim r [
    | forbidden ↦ if is_empty refs then none else some finding_on_null_result
    | required ↦ if is_empty refs then some conclusion_uncited else none
  ])
