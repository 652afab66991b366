-- ===== src/Investigation/Permission.antt =====
-- `public_leak`, `permitted_by` and `satisfied_its_gate` of models/investigation.py.
use Prim.Native.Char.{code}
use runtime_contracts.Prelude.{
  String, Bool, true, false, not, ◌&&◌, List, [], ◌∷◌, Option, none, some, given, is_empty, member,
  ◌==◌, nat_eq, string_eq, Result, ok, raise_if, ◌>>◌, ◌>>=◌, if◌then◌else◌,
}
use runtime_contracts.Canonical.Value.{Platform}
use runtime_contracts.Visibility.{is_public, same_text}
use runtime_contracts.Verification.{VerificationResult, verdict, verdict_is, pass}
use runtime_contracts.Mission.{
  MissionProgram, Transition, Fault, refused, Refusal, require, state, permits_self_transition,
  program_hash,
}
use runtime_contracts.Investigation.Event.{InvestigationTransitionEvent}

-- `ref.split("/")[0]`
unfoldable pub before_slash : String → String
before_slash String.[] = String.[]
before_slash (String.◌∷◌ c s) = if code c == b'/' then String.[] else String.◌∷◌ c (before_slash s)

abbrev pub private_kinds : List String
private_kinds = "mission" ∷ "intent" ∷ "plan-run" ∷ "scenario" ∷ "observation" ∷ []

unfoldable pub private_refs : List String → List String
unfolding before_slash
private_refs [] = []
private_refs (r ∷ rs) =
    if member (before_slash r) private_kinds then r ∷ private_refs rs else private_refs rs

unfoldable pub public_leak : InvestigationTransitionEvent → List String
unfolding private_refs
public_leak e = if is_public e.visibility then private_refs e.evidence_refs else []

module _ (env : Platform) (p : MissionProgram) where
  unfoldable pub permitted_by : InvestigationTransitionEvent → Result Fault Transition
  permitted_by e = do
    raise_if (not (program_hash env p == e.program_hash)) (refused Refusal.wrong_program)
    t ← require p e.from_state e.to_state (some e.transition_id)
    raise_if ((e.from_state == e.to_state) && not (permits_self_transition t))
        (refused Refusal.self_transition)
    s ← state p e.to_state
    raise_if (s.terminal && not (given e.terminal_outcome)) (refused Refusal.no_outcome_recorded)
    raise_if (given e.terminal_outcome && not s.terminal) (refused Refusal.outcome_recorded_early)
    raise_if (given e.terminal_outcome && not (same_text t.outcome e.terminal_outcome))
        (refused Refusal.wrong_outcome)
    raise_if (not (is_empty (public_leak e))) (refused Refusal.public_leak)
    ok t

  -- What the required check returned, once the transition is permitted.
  abbrev pub gate_passed : Transition → Option VerificationResult → Bool
  gate_passed t v = elim t.verification_method [
    | none ↦ true
    | some m ↦ elim v [ none ↦ false | some r ↦ verdict_is (verdict r) pass ]
  ]

  unfoldable pub satisfied_its_gate : InvestigationTransitionEvent → Result Fault Bool
  unfolding permitted_by verdict
  satisfied_its_gate e = do t ← permitted_by e; ok (gate_passed t e.verification)
