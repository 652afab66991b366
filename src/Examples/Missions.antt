-- ===== src/Examples/Missions.antt =====
-- Programs, verdicts, verifiers and tenancies.
use runtime_contracts.Prelude.{
  pos, String, true, [], ◌∷◌, none, some, ◌≡◌, ◌↔◌, ◌⊎◌, ◌≤◌, refl, is_empty, All, In,
}
use runtime_contracts.Mission.{MissionProgram, semantic_hash, is_compatible_with}
use runtime_contracts.Mission.Described.{described, semantic_hash-described}
use runtime_contracts.Examples.{ascii_platform}
use runtime_contracts.Mission.WellFormed.{IsWellFormed, program_post_init-IsWellFormed}
use runtime_contracts.Mission.Default.{investigation_program, investigation_program_constructs}
use runtime_contracts.Verification.{
  Verdict, Determinism, Completion, Check, VerificationResult, verdict, may_promote, is_complete,
}
use runtime_contracts.Verification.Laws.{IsSettled, may_promote_iff, weakness, verdict_lem}
use runtime_contracts.Verification.Ladder.{
  AssuranceTier, VerifierDescriptor, VerificationRequirement,
}
use runtime_contracts.Visibility.{Visibility, Tenancy, may_be_cited_by}

program_post_init-IsWellFormed_example : IsWellFormed investigation_program
program_post_init-IsWellFormed_example =
    program_post_init-IsWellFormed investigation_program investigation_program_constructs

abbrev check_of : String → Verdict → Check
check_of i v = record {
  check_id = i;
  verdict = v;
  determinism = Determinism.deterministic;
  detail = "";
  evidence_refs = [];
}

-- One check passed, and one could not be settled.
abbrev mixed : VerificationResult
mixed = record {
  verifier_id = "v";
  verifier_version = "1";
  target_handle_hash = "h";
  checks = check_of "schema" Verdict.pass ∷ check_of "source" Verdict.indeterminate ∷ [];
  completion = Completion.complete;
  omissions = [];
}

may_promote_iff_example : (may_promote mixed ≡ true) ↔ (
    All IsSettled mixed.checks
    × (is_complete mixed.completion ≡ true)
    × (is_empty mixed.omissions ≡ true))
may_promote_iff_example = may_promote_iff mixed

verdict_lem_example :
    (((c : Check) × In c mixed.checks × (c.verdict ≡ verdict mixed))
      ⊎ (verdict mixed ≡ Verdict.not_applicable))
    × All (λ c. weakness c.verdict ≤ weakness (verdict mixed)) mixed.checks
verdict_lem_example = verdict_lem mixed

-- A model alone.
abbrev model : VerifierDescriptor
model = record {
  verifier_id = "critic";
  tier = AssuranceTier.semantic;
  determinism = Determinism.non_deterministic;
  gating = true;
}

abbrev final_gate : VerificationRequirement
final_gate = record { min_tier = AssuranceTier.evidential; require_deterministic_final = true }

abbrev acme : Tenancy
acme = record { visibility = Visibility.private; tenant_id = some "acme" }

abbrev shared : Tenancy
shared = record { visibility = Visibility.internal; tenant_id = none }

abbrev open_to_all : Tenancy
open_to_all = record { visibility = Visibility.public; tenant_id = none }

public_cited : may_be_cited_by open_to_all acme ≡ true
unfolding may_be_cited_by
public_cited = refl

acme_cited : may_be_cited_by acme acme ≡ true
unfolding may_be_cited_by
acme_cited = refl

abbrev undescribed : MissionProgram
undescribed =
    described (λ s. "") (λ t. ("", (some (pos 60), t.emits_event_schema))) (λ o. "")
      investigation_program

semantic_hash-described_example :
    (semantic_hash ascii_platform undescribed ≡ semantic_hash ascii_platform investigation_program)
    × (is_compatible_with ascii_platform undescribed investigation_program ≡ true)
semantic_hash-described_example =
    semantic_hash-described (λ s. "") (λ t. ("", (some (pos 60), t.emits_event_schema))) (λ o. "")
      ascii_platform investigation_program
