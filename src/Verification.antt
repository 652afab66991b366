-- ===== src/Verification.antt =====
-- models/verification.py: what a verifier did to a target.
pub mod Ladder
pub mod Laws
use runtime_contracts.Prelude.{
  String, Bool, true, false, not, ◌&&◌, ◌||◌, List, [], ◌∷◌, map, any, all, is_empty, if◌then◌else◌,
  string_order,
}
use runtime_contracts.Prelude.Sort.{sort}
use runtime_contracts.Canonical.Json.{Json, obj, str, arr, fields, items, strs}
use runtime_contracts.Canonical.Value.{Platform, json_hash}

pub data Verdict : Type 0 where
  pass fail indeterminate not_applicable : Verdict

abbrev pub verdict_value : Verdict → String
verdict_value pass = "PASS"
verdict_value fail = "FAIL"
verdict_value indeterminate = "INDETERMINATE"
verdict_value not_applicable = "NOT_APPLICABLE"

-- `a is b`
abbrev pub verdict_is : Verdict → Verdict → Bool
verdict_is pass pass = true
verdict_is fail fail = true
verdict_is indeterminate indeterminate = true
verdict_is not_applicable not_applicable = true
verdict_is _ _ = false

abbrev pub is_conclusive : Verdict → Bool
is_conclusive v = verdict_is v pass || verdict_is v fail

pub data Determinism : Type 0 where
  deterministic non_deterministic : Determinism

abbrev pub determinism_value : Determinism → String
determinism_value deterministic = "DETERMINISTIC"
determinism_value non_deterministic = "NON_DETERMINISTIC"

abbrev pub is_deterministic_kind : Determinism → Bool
is_deterministic_kind deterministic = true
is_deterministic_kind non_deterministic = false

pub data Completion : Type 0 where
  complete partial aborted : Completion

abbrev pub completion_value : Completion → String
completion_value complete = "COMPLETE"
completion_value partial = "PARTIAL"
completion_value aborted = "ABORTED"

abbrev pub is_complete : Completion → Bool
is_complete complete = true
is_complete _ = false

pub record Check : Type 0 where
  pub check_id : String
  pub verdict : Verdict
  pub determinism : Determinism
  pub detail : String
  pub evidence_refs : List String

pub record VerificationResult : Type 0 where
  pub verifier_id : String
  pub verifier_version : String
  pub target_handle_hash : String
  pub checks : List Check
  pub completion : Completion
  pub omissions : List String

-- `outcome in {c.verdict for c in self.checks}`
unfoldable pub has_verdict : Verdict → List Check → Bool
has_verdict v checks = any (λ c. verdict_is c.verdict v) checks

-- The weakest outcome present, in the order of the loop.
unfoldable pub worst : List Check → Verdict
worst checks =
    if has_verdict fail checks
    then fail
    else if has_verdict indeterminate checks
    then indeterminate
    else if has_verdict pass checks
    then pass
    else not_applicable

unfoldable pub verdict : VerificationResult → Verdict
unfolding worst
verdict r = worst r.checks

unfoldable pub failed : List Check → List Check
failed [] = []
failed (c ∷ cs) = if verdict_is c.verdict fail then c ∷ failed cs else failed cs

unfoldable pub is_deterministic : VerificationResult → Bool
is_deterministic r = all (λ c. is_deterministic_kind c.determinism) r.checks

unfoldable pub may_promote : VerificationResult → Bool
unfolding verdict
may_promote r =
    not (verdict_is (verdict r) fail)
    && not (verdict_is (verdict r) indeterminate)
    && is_complete r.completion
    && is_empty r.omissions

unfoldable pub check_form : Check → Json
unfolding sort
check_form c = obj (
    fields (
      ("check_id", str c.check_id)
      ∷ ("verdict", str (verdict_value c.verdict))
      ∷ ("determinism", str (determinism_value c.determinism))
      ∷ ("evidence_refs", strs (sort (λ s. s) c.evidence_refs))
      ∷ []))

unfoldable pub verification_form : VerificationResult → Json
unfolding check_form sort
verification_form r = obj (
    fields (
      ("schema_id", str "runtime-contracts/verification-result")
      ∷ ("schema_version", str "0.1")
      ∷ ("verifier_id", str r.verifier_id)
      ∷ ("verifier_version", str r.verifier_version)
      ∷ ("target_handle_hash", str r.target_handle_hash)
      ∷ ("checks", arr (items (map check_form (sort (λ c. c.check_id) r.checks))))
      ∷ ("completion", str (completion_value r.completion))
      ∷ ("omissions", strs (sort (λ s. s) r.omissions))
      ∷ []))

unfoldable pub result_hash : Platform → VerificationResult → String
unfolding json_hash verification_form
result_hash env r = json_hash env (verification_form r)
