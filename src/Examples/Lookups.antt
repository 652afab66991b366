-- ===== src/Examples/Lookups.antt =====
-- A lookup of a company, for which the cheaper of two providers has nothing.
use runtime_contracts.Prelude.{ℕ, ◌+◌, String, true, [], ◌∷◌, none, nat_order, ◌≡◌, refl}
use runtime_contracts.Canonical.Json.{Dict}
use runtime_contracts.Intelligence.{
  Capability, AcquisitionFailure, Sensitivity, Floats, EvidenceRequest, CostEstimate, found_result,
  failed_result,
}
use runtime_contracts.Intelligence.Registry.{IntelligenceProvider, gated_acquire}
use runtime_contracts.Intelligence.Ladder.{gated_acquire-IsPaidFor, IsPaidFor}
use runtime_contracts.Intelligence.Booked.{gated_acquire-IsBooked, IsBooked}

-- Whole amounts.
abbrev whole : Floats
whole = record { Float = ℕ; order = nat_order; zero_float = 0; add = λ a b. a + b }

abbrev same : String → String
same s = s

abbrev company : EvidenceRequest whole
company = record {
  decision_case_id = "case-1";
  capability = Capability.company_identity;
  subject_refs = "acme" ∷ [];
  fields = [];
  purpose = "";
  tenant = "t-1";
  max_cost = 5;
  max_age_s = 0;
  jurisdiction = "";
  sensitivity = Sensitivity.public;
  deadline = none;
}

abbrev priced : ℕ → CostEstimate whole
priced n = record { money = n; latency_ms = 0; currency = "USD" }

abbrev register_office : IntelligenceProvider whole same String
register_office = record {
  provider_id = "office";
  capabilities = Capability.company_identity ∷ [];
  estimate_cost = λ r. priced 4;
  check_entitlement = λ t c. true;
  acquire_evidence = λ r. found_result whole ("an entry" ∷ []) 4;
}

abbrev directory : IntelligenceProvider whole same String
directory = record {
  provider_id = "directory";
  capabilities = Capability.company_identity ∷ [];
  estimate_cost = λ r. priced 3;
  check_entitlement = λ t c. true;
  acquire_evidence = λ r. failed_result whole AcquisitionFailure.no_match "nobody" 3;
}

abbrev providers : Dict (IntelligenceProvider whole same String)
providers = ("office", register_office) ∷ ("directory", directory) ∷ []

-- Both were paid for, which is more than the budget of the request.
office_answers : (gated_acquire whole same String company 1 0 providers).result.is_ok ≡ true
unfolding gated_acquire
office_answers = refl

both_paid : (gated_acquire whole same String company 1 0 providers).result.cost ≡ 7
unfolding gated_acquire
both_paid = refl

gated_acquire-IsPaidFor_example :
    IsPaidFor whole same String company 1 0 providers
      (gated_acquire whole same String company 1 0 providers)
gated_acquire-IsPaidFor_example =
    gated_acquire-IsPaidFor whole same String company 1 0 providers office_answers

gated_acquire-IsBooked_example :
    IsBooked whole same String company 1 0 (gated_acquire whole same String company 1 0 providers)
gated_acquire-IsBooked_example = gated_acquire-IsBooked whole same String company 1 0 providers
