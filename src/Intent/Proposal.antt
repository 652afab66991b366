-- ===== src/Intent/Proposal.antt =====
-- What Discovery proposes and what Mission answers: `MissionProposal`, `MissionOutcome`,
-- `Derivation` and `CapabilityRefusal` of models/intent.py.
use runtime_contracts.Prelude.{String, Bool, true, false, List, [], ◌∷◌, Result, ok, ◌>>=◌}
use runtime_contracts.Canonical.Json.{Json, str, arr, obj, fields, items}
use runtime_contracts.Canonical.Value.{Platform}
use runtime_contracts.Intent.{
  VerifiedIntent, DecisionEvidence, DecimalText, IntentError, decimal_text, is_verified,
}
use runtime_contracts.Intent.Form.{intent_json, evidence_json, listed}

-- `observed_at` is a text or `None`.
pub record MissionProposal : Type 0 where
  pub intent : VerifiedIntent
  pub rationale : String
  pub priority : String
  pub expected_value : String
  pub evidence : List DecisionEvidence
  pub observed_at : Json
  pub produced_by : String

-- `MissionProposal.__post_init__`
unfoldable pub make_proposal : DecimalText → MissionProposal → Result IntentError MissionProposal
unfolding decimal_text
make_proposal dec p = do c ← decimal_text dec p.priority; ok (record p { priority = c })

abbrev pub is_actionable : MissionProposal → Bool
is_actionable p = is_verified p.intent

unfoldable pub proposal_json : Platform → MissionProposal → Json
unfolding intent_json evidence_json
proposal_json env p = obj (
    fields (
      ("intent", intent_json env p.intent)
      ∷ ("rationale", str p.rationale)
      ∷ ("priority", str p.priority)
      ∷ ("expected_value", str p.expected_value)
      ∷ ("evidence", listed evidence_json p.evidence)
      ∷ ("observed_at", p.observed_at)
      ∷ ("produced_by", str p.produced_by)
      ∷ []))

pub data MissionOutcome : Type 0 where
  executable unsupported_capability needs_approval policy_denied budget_exceeded : MissionOutcome

abbrev pub outcome_value : MissionOutcome → String
outcome_value executable = "EXECUTABLE"
outcome_value unsupported_capability = "UNSUPPORTED_CAPABILITY"
outcome_value needs_approval = "NEEDS_APPROVAL"
outcome_value policy_denied = "POLICY_DENIED"
outcome_value budget_exceeded = "BUDGET_EXCEEDED"

abbrev pub may_execute : MissionOutcome → Bool
may_execute executable = true
may_execute _ = false

pub record Derivation : Type 0 where
  pub compiled_from : String
  pub compiled_by : String
  pub manifest_hash : String

unfoldable pub derivation_form : Derivation → Json
derivation_form d = obj (
    fields (
      ("compiled_from", str d.compiled_from)
      ∷ ("compiled_by", str d.compiled_by)
      ∷ ("manifest_hash", str d.manifest_hash)
      ∷ []))

pub data RefusalKind : Type 0 where
  unsupported_dimension unsupported_value unresolved_input no_data : RefusalKind

abbrev pub refusal_value : RefusalKind → String
refusal_value unsupported_dimension = "UNSUPPORTED_DIMENSION"
refusal_value unsupported_value = "UNSUPPORTED_VALUE"
refusal_value unresolved_input = "UNRESOLVED_INPUT"
refusal_value no_data = "NO_DATA"

pub record CapabilityRefusal : Type 0 where
  pub kind : RefusalKind
  pub dimension : String
  pub stated_value : Json
  pub executable_values : List Json
  pub detail : String

unfoldable pub refusal_json : CapabilityRefusal → Json
refusal_json r = obj (
    fields (
      ("kind", str (refusal_value r.kind))
      ∷ ("dimension", str r.dimension)
      ∷ ("stated_value", r.stated_value)
      ∷ ("executable_values", arr (items r.executable_values))
      ∷ ("detail", str r.detail)
      ∷ []))
