-- ===== src/Qa.antt =====
-- qa/integrity.py and qa/outcome.py: the accounting of a run's assertions, and what its outcome is to
-- a verifier.
pub mod Accounting
pub mod Groups
pub mod Keys
use runtime_contracts.Prelude.{
  ℕ, String, Bool, true, false, not, ◌&&◌, ◌||◌, List, [], ◌∷◌, ◌++◌, any, all, is_empty, length,
  Option, none, some, member, ltb, ◌==◌, string_eq, pair_eq, if◌then◌else◌, Result, ok, raise,
  raise_if, ◌>>=◌, ◌>>◌, map,
}
use runtime_contracts.Verification.{Verdict}

pub data RunOutcome : Type 0 where
  pass product_fail test_defect environment_fail inconclusive : RunOutcome

-- `Outcome(outcome)`, where an unknown text is `None`
unfoldable pub known_outcome : String → Option RunOutcome
known_outcome s =
    if s == "PASS"
    then some pass
    else if s == "PRODUCT_FAIL"
    then some product_fail
    else if s == "TEST_DEFECT"
    then some test_defect
    else if s == "ENVIRONMENT_FAIL"
    then some environment_fail
    else if s == "INCONCLUSIVE"
    then some inconclusive
    else none

-- `OUTCOME_VERDICT`
abbrev pub verdict_of : RunOutcome → Verdict
verdict_of pass = Verdict.pass
verdict_of product_fail = Verdict.fail
verdict_of _ = Verdict.indeterminate

unfoldable pub outcome_to_verdict : String → Verdict
unfolding known_outcome
outcome_to_verdict s = elim (known_outcome s) [
  | none ↦ Verdict.indeterminate
  | some o ↦ verdict_of o
]

unfoldable pub default_exit_code : String → ℕ
unfolding known_outcome
default_exit_code s = elim (known_outcome s) [ none ↦ 1 | some o ↦ elim o [ pass ↦ 0 | _ ↦ 1 ] ]

pub data CoverageViolation : Type 0 where
  executed_not_declared skipped_not_declared executed_and_skipped : CoverageViolation
  declared_unaccounted results_do_not_match_executed : CoverageViolation
  result_for_a_different_assertion_set : CoverageViolation

-- `if test: found.append(v)`
abbrev pub noted_if : Bool → CoverageViolation → List CoverageViolation
noted_if true v = v ∷ []
noted_if false v = []

-- `xs - ys` is not empty, of sets
abbrev pub leaves : List String → List String → Bool
leaves xs ys = any (λ x. not (member x ys)) xs

unfoldable pub coverage_violations :
    List String → List String → List String → List CoverageViolation
coverage_violations declared executed skipped =
    noted_if (leaves executed declared) executed_not_declared
    ++ noted_if (leaves skipped declared) skipped_not_declared
    ++ noted_if (any (λ x. member x skipped) executed) executed_and_skipped
    ++ noted_if (leaves declared (executed ++ skipped)) declared_unaccounted

-- `classify_coverage`: (INCONCLUSIVE, ASSERTION_INTEGRITY) or `None`
unfoldable pub classify_coverage :
    List String → List String → List String → Option (RunOutcome × String)
unfolding coverage_violations
classify_coverage declared executed skipped =
    if is_empty (coverage_violations declared executed skipped)
    then none
    else some (inconclusive, "ASSERTION_INTEGRITY")

-- `_guard_result_accounting`, where a result is an assertion's id and the hash of its set
abbrev pub other_sets : List (String × String) → String → Bool
other_sets results pin = any (λ r. not (r.1 == pin)) results

abbrev pub result_ids : List (String × String) → List String
result_ids results = map (λ r. r.0) results

unfoldable pub integrity_violations :
    List String
    → List String
    → List String
    → List (String × String)
    → String
    → List CoverageViolation
unfolding coverage_violations
integrity_violations declared executed skipped results pin =
    coverage_violations declared executed skipped
    ++ noted_if (leaves (result_ids results) executed || leaves executed (result_ids results))
        results_do_not_match_executed
    ++ noted_if (other_sets results pin) result_for_a_different_assertion_set

-- The codes of the `AssertionIntegrityError`s that these guards raise.
pub data IntegrityCode : Type 0 where
  program_unregistered program_mismatch batch_halted : IntegrityCode

-- `verify_check_program`, for the hash that the assertion froze
unfoldable pub verify_check_program : String → Option String → Result IntegrityCode (Unit {0})
verify_check_program frozen none = raise program_unregistered
verify_check_program frozen (some registered) =
    raise_if (not (registered == frozen)) program_mismatch

unfoldable pub check_batch_not_halted : Option String → Result IntegrityCode (Unit {0})
check_batch_not_halted none = ok tt
check_batch_not_halted (some code) = raise batch_halted

-- What `idempotency_key_violations` reads of an `ActionReceipt`.
pub record KeyedReceipt : Type 0 where
  pub run_id : String
  pub step_id : String
  pub idempotency_key : String

abbrev pub Grouping : Type 0
Grouping = List ((String × String) × List String)

-- `groups.setdefault(k, set()).add(v)`
unfoldable pub add_to : String × String → String → Grouping → Grouping
add_to k v [] = (k, v ∷ []) ∷ []
add_to k v (g ∷ gs) =
    let rest = add_to k v gs in
    if g.0 == k then (g.0, if member v g.1 then g.1 else v ∷ g.1) ∷ gs else g ∷ rest

-- The groups of the values of the receipts by their keys, in the order of the receipts.
unfoldable pub grouped :
    (KeyedReceipt → String × String)
    → (KeyedReceipt → String)
    → List KeyedReceipt
    → Grouping
    → Grouping
unfolding add_to
grouped key value [] gs = gs
grouped key value (r ∷ rs) gs = grouped key value rs (add_to (key r) (value r) gs)

pub data KeyViolation : Type 0 where
  changed_across_attempts shared_across_steps : KeyViolation

abbrev pub some_larger : Grouping → Bool
some_larger gs = any (λ g. ltb 1 (length g.1)) gs

abbrev pub noted_key : Bool → KeyViolation → List KeyViolation
noted_key true v = v ∷ []
noted_key false v = []

unfoldable pub idempotency_key_violations : List KeyedReceipt → List KeyViolation
unfolding grouped
idempotency_key_violations rs =
    noted_key (some_larger (grouped (λ r. (r.run_id, r.step_id)) (λ r. r.idempotency_key) rs []))
      changed_across_attempts
    ++ noted_key (some_larger (grouped (λ r. (r.run_id, r.idempotency_key)) (λ r. r.step_id) rs []))
        shared_across_steps
