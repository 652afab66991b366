-- ===== src/Investigation/Event.antt =====
-- `InvestigationTransitionEvent` of models/investigation.py, its checks and its form.
use runtime_contracts.Prelude.{
  String, Bool, false, not, ◌&&◌, List, [], ◌∷◌, ◌++◌, Option, none, some, ℤ, pos, ltb_ℤ, given,
  is_none, ◌==◌, string_eq, string_order, Result, raise_if, ◌>>◌,
}
use runtime_contracts.Prelude.Sort.{sort}
use runtime_contracts.Canonical.Json.{Json, Dict, null, obj, str, int, fields, strs, opt_str}
use runtime_contracts.Canonical.Value.{Platform, json_hash}
use runtime_contracts.Visibility.{Visibility, visibility_value}
use runtime_contracts.Verification.{VerificationResult, verification_form, result_hash}
use runtime_contracts.Mission.{Invalid}

pub record OwnershipChange : Type 0 where
  pub from_actor : Option String
  pub to_actor : Option String

pub record InvestigationTransitionEvent : Type 0 where
  pub investigation_id : String
  pub program_id : String
  pub program_version : String
  pub program_hash : String
  pub transition_id : String
  pub from_state : String
  pub to_state : String
  pub actor : String
  pub sequence : ℤ
  pub mission_id : Option String
  pub terminal_outcome : Option String
  pub reason : String
  pub evidence_refs : List String
  pub verification : Option VerificationResult
  pub ownership_change : Option OwnershipChange
  pub verification_result_ref : Option String
  pub parent_event_id : Option String
  pub parents : List String
  pub visibility : Visibility
  pub tenant_id : Option String
  pub occurred_at : Option String
  pub schema_version : String

-- An ownership change that names neither a prior nor a new owner.
abbrev pub names_no_owner : Option OwnershipChange → Bool
names_no_owner none = false
names_no_owner (some c) = is_none c.from_actor && is_none c.to_actor

-- A reference to another verification than the one that is carried.
abbrev pub ref_mismatch : Platform → Option String → Option VerificationResult → Bool
ref_mismatch env (some r) (some v) = given (some r) && not (r == result_hash env v)
ref_mismatch env _ none = false
ref_mismatch env none _ = false

-- `InvestigationTransitionEvent.__post_init__`
unfoldable pub event_post_init : Platform → InvestigationTransitionEvent → Result Invalid (Unit {0})
event_post_init env e = do
  raise_if (ltb_ℤ e.sequence (pos 0)) Invalid.negative_sequence
  raise_if (names_no_owner e.ownership_change) Invalid.empty_ownership_change
  raise_if (ref_mismatch env e.verification_result_ref e.verification)
      Invalid.verification_ref_mismatch

abbrev pub ownership_form : Option OwnershipChange → Json
ownership_form none = null
ownership_form (some c) =
    obj (fields (("from_actor", opt_str c.from_actor) ∷ ("to_actor", opt_str c.to_actor) ∷ []))

abbrev pub opt_verification : Option VerificationResult → Json
opt_verification none = null
opt_verification (some v) = verification_form v

-- `if self.parents: d["parents"] = list(self.parents)`
abbrev pub parents_field : List String → Dict Json
parents_field [] = []
parents_field (p ∷ ps) = ("parents", strs (p ∷ ps)) ∷ []

unfoldable pub event_dict : InvestigationTransitionEvent → Dict Json
unfolding sort
event_dict e =
    ("schema_id", str "runtime-contracts/investigation-transition-event")
    ∷ ("schema_version", str e.schema_version)
    ∷ ("investigation_id", str e.investigation_id)
    ∷ ("program_id", str e.program_id)
    ∷ ("program_version", str e.program_version)
    ∷ ("program_hash", str e.program_hash)
    ∷ ("mission_id", opt_str e.mission_id)
    ∷ ("transition_id", str e.transition_id)
    ∷ ("from_state", str e.from_state)
    ∷ ("to_state", str e.to_state)
    ∷ ("terminal_outcome", opt_str e.terminal_outcome)
    ∷ ("actor", str e.actor)
    ∷ ("sequence", int e.sequence)
    ∷ ("evidence_refs", strs (sort (λ s. s) e.evidence_refs))
    ∷ ("verification", opt_verification e.verification)
    ∷ ("verification_result_ref", opt_str e.verification_result_ref)
    ∷ ("ownership_change", ownership_form e.ownership_change)
    ∷ ("parent_event_id", opt_str e.parent_event_id)
    ∷ ("visibility", str (visibility_value e.visibility))
    ∷ ("tenant_id", opt_str e.tenant_id)
    ∷ []

unfoldable pub event_form : InvestigationTransitionEvent → Json
unfolding event_dict
event_form e = obj (fields (event_dict e ++ parents_field e.parents))

unfoldable pub event_hash : Platform → InvestigationTransitionEvent → String
unfolding json_hash event_form
event_hash env e = json_hash env (event_form e)
