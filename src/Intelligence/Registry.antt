-- ===== src/Intelligence/Registry.antt =====
-- protocol/intelligence_registry.py: the registry of providers and the gated acquisition.
use runtime_contracts.Prelude.{
  ℕ, String, Bool, true, false, not, ◌&&◌, ◌||◌, List, [], ◌∷◌, ◌++◌, any, is_empty, length, Option,
  none, some, truthy, ◌==◌, string_eq, if◌then◌else◌,
}
use runtime_contracts.Prelude.Sort.{sort}
use runtime_contracts.Canonical.Json.{Dict}
use runtime_contracts.Canonical.Dict.{put}
use runtime_contracts.Intelligence.{
  Capability, capability_value, is_pii, AcquisitionFailure, PlannerFallback, Floats, exceeds,
  EvidenceRequest, CostEstimate, AcquisitionResult, found_result, failed_result,
  EvidenceValueRecord,
}

-- `failure in _RETRYABLE`
abbrev pub is_retryable : AcquisitionFailure → Bool
is_retryable AcquisitionFailure.unavailable = true
is_retryable AcquisitionFailure.rate_limited = true
is_retryable AcquisitionFailure.no_match = true
is_retryable AcquisitionFailure.low_confidence = true
is_retryable AcquisitionFailure.stale = true
is_retryable AcquisitionFailure.outside_provider_coverage = true
is_retryable _ = false

abbrev pub is_not_entitled : Option AcquisitionFailure → Bool
is_not_entitled (some AcquisitionFailure.not_entitled) = true
is_not_entitled _ = false

abbrev pub tries_alternate : Option PlannerFallback → Bool
tries_alternate (some PlannerFallback.try_alternate_provider) = true
tries_alternate _ = false

-- `failure or default`
abbrev pub failure_or : Option AcquisitionFailure → AcquisitionFailure → AcquisitionFailure
failure_or none default = default
failure_or (some f) default = f

-- The reasons of a gate; the amounts in the text of `exceeds_budget` are left out.
pub data GateReason : Type 0 where
  acquire not_entitled purpose_missing exceeds_budget cannot_change_action : GateReason

abbrev pub reason_text : GateReason → String
reason_text acquire = "acquire"
reason_text not_entitled = "not entitled"
reason_text purpose_missing = "PII capability requires an allowed purpose"
reason_text exceeds_budget = "cost exceeds budget"
reason_text cannot_change_action = "evidence cannot change the action"

-- `GateDecision`
pub record AcquisitionGate : Type 0 where
  pub acquires : Bool
  pub reason : GateReason
  pub fallback : Option PlannerFallback
  pub failure : Option AcquisitionFailure

abbrev pub refused_gate : GateReason → PlannerFallback → Option AcquisitionFailure → AcquisitionGate
refused_gate r f x = record { acquires = false; reason = r; fallback = some f; failure = x }

module _ (floats : Floats) (strip : String → String) (A : Type 0) where
  -- `IntelligenceProvider`: what an adapter implements.
  pub record IntelligenceProvider : Type 0 where
    pub provider_id : String
    pub capabilities : List Capability
    pub estimate_cost : EvidenceRequest floats → CostEstimate floats
    pub check_entitlement : String → Capability → Bool
    pub acquire_evidence : EvidenceRequest floats → AcquisitionResult floats A

  unfoldable pub register :
      IntelligenceProvider → Dict IntelligenceProvider → Dict IntelligenceProvider
  unfolding put
  register p d = put p.provider_id p d

  -- `capability in p.capabilities()`
  abbrev pub offers : Capability → IntelligenceProvider → Bool
  offers c p = any (λ d. capability_value c == capability_value d) p.capabilities

  abbrev pub entitled_for : EvidenceRequest floats → IntelligenceProvider → Bool
  entitled_for r p = offers r.capability p && p.check_entitlement r.tenant r.capability

  -- The candidates of `match`, in the order of their registration.
  unfoldable pub candidates :
      EvidenceRequest floats → Dict IntelligenceProvider → List IntelligenceProvider
  candidates r [] = []
  candidates r (e ∷ d) =
      let rest = candidates r d in if entitled_for r e.1 then e.1 ∷ rest else rest

  -- `match`
  unfoldable pub match_providers :
      EvidenceRequest floats → Dict IntelligenceProvider → List IntelligenceProvider
  unfolding candidates sort
  match_providers r d = sort ⦃o = floats.order⦄ (λ p. (p.estimate_cost r).money) (candidates r d)

  unfoldable pub decide_acquire :
      EvidenceRequest floats
      → Bool
      → CostEstimate floats
      → floats.Float
      → floats.Float
      → AcquisitionGate
  unfolding is_pii
  decide_acquire r entitled cost value threshold =
      if not entitled
      then refused_gate not_entitled PlannerFallback.try_alternate_provider
          (some AcquisitionFailure.not_entitled)
      else if is_pii r.capability && not (truthy (strip r.purpose))
      then refused_gate purpose_missing PlannerFallback.abstain none
      else if exceeds floats cost.money r.max_cost
      then refused_gate exceeds_budget PlannerFallback.continue_with_local_evidence
          (some AcquisitionFailure.budget_exceeded)
      else if exceeds floats threshold value
      then refused_gate cannot_change_action PlannerFallback.continue_with_local_evidence none
      else record { acquires = true; reason = acquire; fallback = none; failure = none }

  -- The entries of the trace, in place of their texts.
  pub data TraceEntry : Type 0 where
    no_provider : TraceEntry
    skipped : String → GateReason → TraceEntry
    acquired : String → ℕ → floats.Float → TraceEntry
    missed : String → AcquisitionFailure → String → TraceEntry

  -- The triple that `gated_acquire` returns.
  pub record Acquisition : Type 0 where
    pub result : AcquisitionResult floats A
    pub row : EvidenceValueRecord floats
    pub trace : List TraceEntry

  -- `_record`
  abbrev pub value_record :
      EvidenceRequest floats → String → Bool → Bool → floats.Float → EvidenceValueRecord floats
  value_record r provider requested received cost = record {
    decision_case_id = r.decision_case_id;
    capability = r.capability;
    provider = provider;
    evidence_requested = requested;
    evidence_received = received;
    cost = cost;
    decision_before = "";
    decision_after = "";
    action = "";
    verified_outcome = none;
  }

  module _ (r : EvidenceRequest floats) (value threshold : floats.Float) where
    abbrev pub exhausted : floats.Float → AcquisitionFailure → List TraceEntry → Acquisition
    exhausted spent last trace = record {
      result = failed_result floats last "all providers exhausted" spent;
      row = value_record r "" true false spent;
      trace = trace;
    }

    -- A gate that stops the ladder.
    abbrev pub stopped : AcquisitionGate → floats.Float → List TraceEntry → Acquisition
    stopped gate spent trace = record {
      result =
          failed_result floats (failure_or gate.failure AcquisitionFailure.budget_exceeded)
            (reason_text gate.reason) spent;
      row = value_record r "" false false spent;
      trace = trace;
    }

    abbrev pub delivered :
        IntelligenceProvider
        → AcquisitionResult floats A
        → floats.Float
        → List TraceEntry
        → Acquisition
    delivered p res spent trace = record {
      result = found_result floats res.artifacts spent;
      row = value_record r p.provider_id true true spent;
      trace = trace ++ acquired p.provider_id (length res.artifacts) res.cost ∷ [];
    }

    abbrev pub gate_of : IntelligenceProvider → AcquisitionGate
    gate_of p = decide_acquire r true (p.estimate_cost r) value threshold

    -- The loop over the candidates.
    unfoldable pub ladder :
        List IntelligenceProvider
        → floats.Float
        → AcquisitionFailure
        → List TraceEntry
        → Acquisition
    unfolding decide_acquire
    ladder [] spent last trace = exhausted spent last trace
    ladder (p ∷ ps) spent last trace =
        let gate = gate_of p in
        let res = p.acquire_evidence r in
        let total = floats.add spent res.cost in
        let missing = failure_or res.failure AcquisitionFailure.no_match in
        let skip = trace ++ skipped p.provider_id gate.reason ∷ [] in
        let miss = trace ++ missed p.provider_id missing res.detail ∷ [] in
        let after_skip = ladder ps spent last skip in
        let after_miss = ladder ps total missing miss in
        if not gate.acquires
        then (if is_not_entitled gate.failure || tries_alternate gate.fallback
            then after_skip
            else stopped gate spent skip)
        else if res.is_ok && not (is_empty res.artifacts)
        then delivered p res total trace
        else if is_retryable missing
        then after_miss
        else exhausted total missing miss

    -- `gated_acquire`, from the candidates on
    unfoldable pub acquire_from : List IntelligenceProvider → Acquisition
    unfolding ladder
    acquire_from [] = record {
      result = failed_result floats AcquisitionFailure.not_entitled "no provider" floats.zero_float;
      row = value_record r "" false false floats.zero_float;
      trace = no_provider ∷ [];
    }
    acquire_from (p ∷ ps) = ladder (p ∷ ps) floats.zero_float AcquisitionFailure.no_match []

    unfoldable pub gated_acquire : Dict IntelligenceProvider → Acquisition
    unfolding match_providers acquire_from
    gated_acquire registry = acquire_from (match_providers r registry)
