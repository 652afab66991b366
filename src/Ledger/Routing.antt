-- ===== src/Ledger/Routing.antt =====
-- The routing rule for findings of models/ledger.py.
use runtime_contracts.Prelude.{
  String, List, none, is_empty, ◌≡◌, ◌↔◌, arith, ok, Result-cases, inl, inr, ap,
}
use runtime_contracts.Mission.{MissionProgram, TerminalOutcome, outcome}
use runtime_contracts.Ledger.Submission.{check_finding_routing, finding_requirement}

-- A conclusion is routed without complaint exactly if its outcome is one of the program and it
-- cites findings just when the outcome emits artifacts.
pub check_finding_routing_iff :
    (p : MissionProgram) (i : String) (refs : List String)
    → (check_finding_routing p i refs ≡ ok none) ↔ (
        (o : TerminalOutcome) × (outcome p i ≡ ok o)
        × (is_empty o.emits_artifact_kinds ≡ is_empty refs))
unfolding check_finding_routing finding_requirement
check_finding_routing_iff p i refs = elim (Result-cases (outcome p i)) [
  | inl (o, found) ↦ (
    λ h. (o, found, ground arith),
    λ (u, again, agree).
        let same : o ≡ u = ground arith in
        ground (arith, ap (λ x. is_empty x.emits_artifact_kinds) same),
  )
  | inr (f, missing) ↦ (λ h. absurd (ground arith), λ (o, found, agree). absurd (ground arith))
]
