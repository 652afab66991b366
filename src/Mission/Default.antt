-- ===== src/Mission/Default.antt =====
-- `INVESTIGATION_PROGRAM` of models/mission.py.
use runtime_contracts.Prelude.{
  String, true, false, List, [], ◌∷◌, Option, none, some, pos, ◌≡◌, refl, ok,
}
use runtime_contracts.Mission.Program.{
  Disposition, human, human_and_verifier, ApprovalGate, no_approval, TerminalOutcome, State,
  Transition, MissionProgram,
}
use runtime_contracts.Mission.Construct.{program_post_init}

abbrev open_state : String → String → State
open_state i d = record { state_id = i; terminal = false; description = d }

abbrev ending : String → Disposition → List String → String → TerminalOutcome
ending i p kinds d = record {
  outcome_id = i;
  disposition = p;
  emits_artifact_kinds = kinds;
  description = d;
}

-- A transition with the defaults of the fields that its declaration does not name.
abbrev pub move : String → List String → String → Option String → Transition
move i from to o = record {
  transition_id = i;
  from_states = from;
  to_state = to;
  outcome = o;
  approval = no_approval;
  verification_method = none;
  capability_id = none;
  retry_limit = pos 0;
  compensation = none;
  timeout_seconds = none;
  emits_event_schema = "runtime-contracts/investigation-transition-event";
  description = "";
}

abbrev by_human : String → ApprovalGate
by_human p = record { approver = human; policy = p }

abbrev pub investigation_program : MissionProgram
investigation_program = record {
  program_id = "investigation/default";
  program_version = "1";
  initial_state = "PROPOSED";
  accepted_inputs = "investigation" ∷ "artifact_handle" ∷ "verification_result" ∷ [];
  emitted_outputs = "evidence" ∷ "finding" ∷ "investigation_transition_event" ∷ [];
  supports = record { pause = true; cancellation = true; retries = false; compensation = true };
  schema_version = "0.1";
  states =
      open_state "PROPOSED" "Discovery or a person opened a question"
      ∷ open_state "ASSIGNED" "Owned, not yet started"
      ∷ open_state "ACTIVE" "Evidence is being gathered"
      ∷ open_state "PAUSED" "Suspended, resumable, retaining state"
      ∷ open_state "BLOCKED" "Waiting on something outside the inquiry"
      ∷ record { state_id = "CONCLUDED"; terminal = true; description = "Ended" }
      ∷ [];
  terminal_outcomes =
      ending "FINDING_PRODUCED" Disposition.produced_result ("finding" ∷ [])
        "Concluded with one or more findings"
      ∷ ending "INCONCLUSIVE" Disposition.produced_nothing []
          "The evidence could not settle the question"
      ∷ ending "NO_MATERIAL_IMPACT" Disposition.produced_nothing []
          "Settled, and nothing downstream changes"
      ∷ ending "CANCELLED" Disposition.stopped [] "Stopped before concluding"
      ∷ [];
  transitions =
      record (move "assign" ("PROPOSED" ∷ []) "ASSIGNED" none) {
        approval = by_human "an owner accepts it";
      }
      ∷ move "start" ("ASSIGNED" ∷ "PAUSED" ∷ []) "ACTIVE" none
      ∷ record (move "pause" ("ACTIVE" ∷ []) "PAUSED" none) { compensation = some "start" }
      ∷ move "block" ("ACTIVE" ∷ []) "BLOCKED" none
      ∷ move "unblock" ("BLOCKED" ∷ []) "ACTIVE" none
      ∷ record (move "conclude_with_finding" ("ACTIVE" ∷ []) "CONCLUDED"
          (some "FINDING_PRODUCED")) {
            approval = record {
              approver = human_and_verifier;
              policy = "a reviewer accepts the finding and it cites evidence";
            };
            verification_method = some "finding_is_evidenced";
          }
      ∷ record (move "conclude_inconclusive" ("ACTIVE" ∷ []) "CONCLUDED" (some "INCONCLUSIVE")) {
        approval = by_human "a reviewer accepts that it could not be settled";
        verification_method = some "examined_something";
      }
      ∷ record (move "conclude_no_impact" ("ACTIVE" ∷ []) "CONCLUDED" (some "NO_MATERIAL_IMPACT")) {
        approval = by_human "a reviewer accepts that nothing changes";
        verification_method = some "examined_something";
      }
      ∷ move "cancel" ("PROPOSED" ∷ "ASSIGNED" ∷ "ACTIVE" ∷ "PAUSED" ∷ "BLOCKED" ∷ []) "CONCLUDED"
          (some "CANCELLED")
      ∷ [];
}

pub investigation_program_constructs : program_post_init investigation_program ≡ ok tt
unfolding program_post_init
investigation_program_constructs = refl
