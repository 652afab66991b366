-- ===== src/Intelligence/Gate.antt =====
-- When the gate of protocol/intelligence_registry.py acquires.
use runtime_contracts.Prelude.{
  String, Bool, true, false, not, ◌&&◌, none, some, truthy, ◌≡◌, ◌↔◌, refl, sym, ◌∙◌, if◌then◌else◌,
  arith,
}
use runtime_contracts.Intelligence.{
  PlannerFallback, is_pii, AcquisitionFailure, Floats, EvidenceRequest, CostEstimate,
}
use runtime_contracts.Intelligence.Registry.{refused_gate, GateReason, decide_acquire}

module _ (floats : Floats) (strip : String → String) (A : Type 0) where
  -- An entitled provider whose purpose is declared, whose cost is within the budget, and whose
  -- evidence may change the action.
  pub record IsWorth (r : EvidenceRequest floats) (entitled : Bool) (cost : CostEstimate floats)
      (value threshold : floats.Float) : Type 0 where
    pub entitlement : entitled ≡ true
    pub purpose : is_pii r.capability ≡ true → truthy (strip r.purpose) ≡ true
    pub budget : floats.order.le cost.money r.max_cost ≡ true
    pub relevance : floats.order.le threshold value ≡ true

  -- The gate acquires exactly if every test passes.
  gate_acquires :
      (e p t b v : Bool)
      → (if not e
          then refused_gate GateReason.not_entitled PlannerFallback.try_alternate_provider
              (some AcquisitionFailure.not_entitled)
          else if p && not t
          then refused_gate GateReason.purpose_missing PlannerFallback.abstain none
          else if not b
          then refused_gate GateReason.exceeds_budget PlannerFallback.continue_with_local_evidence
              (some AcquisitionFailure.budget_exceeded)
          else if not v
          then refused_gate GateReason.cannot_change_action
              PlannerFallback.continue_with_local_evidence none
          else record {
            acquires = true;
            reason = GateReason.acquire;
            fallback = none;
            failure = none;
          }).acquires
        ≡ (e && (not (p && not t) && (b && v)))
  gate_acquires false p t b v = refl
  gate_acquires true true false b v = refl
  gate_acquires true true true false v = refl
  gate_acquires true true true true false = refl
  gate_acquires true true true true true = refl
  gate_acquires true false t false v = refl
  gate_acquires true false t true false = refl
  gate_acquires true false t true true = refl

  tests_pass :
      (e p t b v : Bool)
      → (e && (not (p && not t) && (b && v))) ≡ true
      → (e ≡ true) × (p ≡ true → t ≡ true) × (b ≡ true) × (v ≡ true)
  tests_pass e p t b v h = (ground arith, λ q. ground arith, ground arith, ground arith)

  pass_tests :
      (e p t b v : Bool)
      → e ≡ true
      → (p ≡ true → t ≡ true)
      → b ≡ true
      → v ≡ true
      → (e && (not (p && not t) && (b && v))) ≡ true
  pass_tests true true t true true h k l m = rw (k refl) refl
  pass_tests true false t true true h k l m = refl
  pass_tests false p t b v h k l m = cc h
  pass_tests true p t false v h k l m = cc l
  pass_tests true p t true false h k l m = cc m

  module _ (r : EvidenceRequest floats) (entitled : Bool) (cost : CostEstimate floats)
      (value threshold : floats.Float) where
    every_test : (decide_acquire floats strip A r entitled cost value threshold).acquires ≡ (
        entitled
        && (not (is_pii r.capability && not (truthy (strip r.purpose)))
            && (floats.order.le cost.money r.max_cost && floats.order.le threshold value)))
    unfolding decide_acquire
    every_test =
        gate_acquires entitled (is_pii r.capability) (truthy (strip r.purpose))
          (floats.order.le cost.money r.max_cost) (floats.order.le threshold value)

    pub decide_acquire_iff :
        ((decide_acquire floats strip A r entitled cost value threshold).acquires ≡ true)
        ↔ IsWorth r entitled cost value threshold
    decide_acquire_iff = (
      λ h.
          let (e, p, b, v) =
            tests_pass entitled (is_pii r.capability) (truthy (strip r.purpose))
              (floats.order.le cost.money r.max_cost) (floats.order.le threshold value)
              (sym every_test ∙ h) in
          record { entitlement = e; purpose = p; budget = b; relevance = v },
      λ k.
          every_test
          ∙ pass_tests entitled (is_pii r.capability) (truthy (strip r.purpose))
              (floats.order.le cost.money r.max_cost) (floats.order.le threshold value)
              k.entitlement k.purpose k.budget k.relevance,
    )
