-- ===== src/Intelligence.antt =====
-- protocol/intelligence.py: capabilities, requests for evidence, and what an acquisition answers.
pub mod Registry
pub mod Gate
pub mod Ladder
pub mod Booked
use runtime_contracts.Prelude.{
  ℕ, String, Bool, true, false, not, ◌&&◌, ◌||◌, List, [], ◌∷◌, Option, none, some, Order, leb,
  member, is_empty, truthy, ◌==◌, string_eq, if◌then◌else◌,
}

pub data Capability : Type 0 where
  person_search person_enrichment company_enrichment : Capability
  company_identity corporate_hierarchy beneficial_ownership : Capability
  sanctions_risk payment_fraud_score web_traffic_intelligence : Capability
  search_keyword_intelligence backlink_intelligence social_listening : Capability
  domain_reputation ip_reputation passive_dns : Capability
  malware_reputation threat_intelligence vulnerability_exploitability : Capability
  email_delivery supplier_resolution delivery_reliability : Capability
  confirmation_reliability order_lineage order_blockers : Capability
  promise_feasibility shortage_risk required_by_feasibility : Capability
  bom_impact substitute_availability stockout_consequence : Capability
  safety_stock why_stuck bottlenecks : Capability
  cycle_benchmark process_anomaly next_event : Capability
  payment_behavior relationship_graph financial_risk : Capability
  asset_identity service_history failure_risk : Capability
  replacement_compatibility maintenance_risk parts_risk : Capability
  legal_research legal_authority_lookup legal_document_draft : Capability
  legal_document_review legal_clause_review legal_precedent_lookup : Capability
  legal_judgment_required quote_feasibility delivery_feasibility : Capability
  revenue_leakage receivables_risk commercial_intent : Capability

abbrev pub capability_value : Capability → String
capability_value person_search = "person_search"
capability_value person_enrichment = "person_enrichment"
capability_value company_enrichment = "company_enrichment"
capability_value company_identity = "company_identity"
capability_value corporate_hierarchy = "corporate_hierarchy"
capability_value beneficial_ownership = "beneficial_ownership"
capability_value sanctions_risk = "sanctions_risk"
capability_value payment_fraud_score = "payment_fraud_score"
capability_value web_traffic_intelligence = "web_traffic_intelligence"
capability_value search_keyword_intelligence = "search_keyword_intelligence"
capability_value backlink_intelligence = "backlink_intelligence"
capability_value social_listening = "social_listening"
capability_value domain_reputation = "domain_reputation"
capability_value ip_reputation = "ip_reputation"
capability_value passive_dns = "passive_dns"
capability_value malware_reputation = "malware_reputation"
capability_value threat_intelligence = "threat_intelligence"
capability_value vulnerability_exploitability = "vulnerability_exploitability"
capability_value email_delivery = "email_delivery"
capability_value supplier_resolution = "supplier_resolution"
capability_value delivery_reliability = "delivery_reliability"
capability_value confirmation_reliability = "confirmation_reliability"
capability_value order_lineage = "order_lineage"
capability_value order_blockers = "order_blockers"
capability_value promise_feasibility = "promise_feasibility"
capability_value shortage_risk = "shortage_risk"
capability_value required_by_feasibility = "required_by_feasibility"
capability_value bom_impact = "bom_impact"
capability_value substitute_availability = "substitute_availability"
capability_value stockout_consequence = "stockout_consequence"
capability_value safety_stock = "safety_stock"
capability_value why_stuck = "why_stuck"
capability_value bottlenecks = "bottlenecks"
capability_value cycle_benchmark = "cycle_benchmark"
capability_value process_anomaly = "process_anomaly"
capability_value next_event = "next_event"
capability_value payment_behavior = "payment_behavior"
capability_value relationship_graph = "relationship_graph"
capability_value financial_risk = "financial_risk"
capability_value asset_identity = "asset_identity"
capability_value service_history = "service_history"
capability_value failure_risk = "failure_risk"
capability_value replacement_compatibility = "replacement_compatibility"
capability_value maintenance_risk = "maintenance_risk"
capability_value parts_risk = "parts_risk"
capability_value legal_research = "legal_research"
capability_value legal_authority_lookup = "legal_authority_lookup"
capability_value legal_document_draft = "legal_document_draft"
capability_value legal_document_review = "legal_document_review"
capability_value legal_clause_review = "legal_clause_review"
capability_value legal_precedent_lookup = "legal_precedent_lookup"
capability_value legal_judgment_required = "legal_judgment_required"
capability_value quote_feasibility = "quote_feasibility"
capability_value delivery_feasibility = "delivery_feasibility"
capability_value revenue_leakage = "revenue_leakage"
capability_value receivables_risk = "receivables_risk"
capability_value commercial_intent = "commercial_intent"

-- `cap in _LEGAL_CAPABILITIES`
unfoldable pub is_legal : Capability → Bool
is_legal legal_research = true
is_legal legal_authority_lookup = true
is_legal legal_document_draft = true
is_legal legal_document_review = true
is_legal legal_clause_review = true
is_legal legal_precedent_lookup = true
is_legal legal_judgment_required = true
is_legal _ = false

-- `cap in PII_CAPABILITIES`
unfoldable pub is_pii : Capability → Bool
is_pii person_search = true
is_pii person_enrichment = true
is_pii beneficial_ownership = true
is_pii _ = false

pub data AcquisitionFailure : Type 0 where
  unavailable rate_limited budget_exceeded : AcquisitionFailure
  not_entitled no_match low_confidence : AcquisitionFailure
  stale license_blocked no_authority_found : AcquisitionFailure
  jurisdiction_unresolved conflicting_authority outside_provider_coverage : AcquisitionFailure
  stale_authority professional_review_required : AcquisitionFailure

abbrev pub failure_value : AcquisitionFailure → String
failure_value unavailable = "unavailable"
failure_value rate_limited = "rate_limited"
failure_value budget_exceeded = "budget_exceeded"
failure_value not_entitled = "not_entitled"
failure_value no_match = "no_match"
failure_value low_confidence = "low_confidence"
failure_value stale = "stale"
failure_value license_blocked = "license_blocked"
failure_value no_authority_found = "no_authority_found"
failure_value jurisdiction_unresolved = "jurisdiction_unresolved"
failure_value conflicting_authority = "conflicting_authority"
failure_value outside_provider_coverage = "outside_provider_coverage"
failure_value stale_authority = "stale_authority"
failure_value professional_review_required = "professional_review_required"

pub data PlannerFallback : Type 0 where
  continue_with_local_evidence try_alternate_provider request_human_evidence : PlannerFallback
  abstain defer : PlannerFallback

pub data Sensitivity : Type 0 where
  public internal pii sensitive_pii restricted : Sensitivity

-- `LegalAuthorityLevel`, by its number.
pub data LegalAuthorityLevel : Type 0 where
  clerical approved_template novel judgment professional : LegalAuthorityLevel

abbrev pub level_number : LegalAuthorityLevel → ℕ
level_number clerical = 0
level_number approved_template = 1
level_number novel = 2
level_number judgment = 3
level_number professional = 4

abbrev pub may_auto_execute : LegalAuthorityLevel → Bool
may_auto_execute clerical = true
may_auto_execute _ = false

abbrev pub requires_professional_review : LegalAuthorityLevel → Bool
requires_professional_review level = leb 3 (level_number level)

-- Python's floats, as far as amounts, ages and confidences are compared and added; no NaN is among
-- them.
pub record Floats : Type 1 where
  pub Float : Type 0
  pub order : Order Float
  pub zero_float : Float
  pub add : Float → Float → Float

module _ (floats : Floats) where
  -- `a > b`
  abbrev pub exceeds : floats.Float → floats.Float → Bool
  exceeds a b = not (floats.order.le a b)

  pub record EvidenceRequest : Type 0 where
    pub decision_case_id : String
    pub capability : Capability
    pub subject_refs : List String
    pub fields : List String
    pub purpose : String
    pub tenant : String
    pub max_cost : floats.Float
    pub max_age_s : floats.Float
    pub jurisdiction : String
    pub sensitivity : Sensitivity
    pub deadline : Option String

  pub record CostEstimate : Type 0 where
    pub money : floats.Float
    pub latency_ms : floats.Float
    pub currency : String

  pub record DecisionNeed : Type 0 where
    pub decision_case_id : String
    pub capability : Capability
    pub question : String
    pub objective : String
    pub subject_refs : List String
    pub fields : List String
    pub tenant : String
    pub as_of : String
    pub known_at : String
    pub horizon : String
    pub max_cost : floats.Float
    pub min_confidence : floats.Float
    pub freshness_limit_s : floats.Float
    pub permitted_providers : List String
    pub prohibited_fields : List String
    pub purpose : String
    pub jurisdiction : String
    pub sensitivity : Sensitivity
    pub deadline : Option String

  abbrev pub discloses_field : DecisionNeed → String → Bool
  discloses_field need f = not (member f need.prohibited_fields)

  abbrev pub permits_provider : DecisionNeed → String → Bool
  permits_provider need p = is_empty need.permitted_providers || member p need.permitted_providers

  abbrev pub meets_confidence : DecisionNeed → floats.Float → Bool
  meets_confidence need c = floats.order.le need.min_confidence c

  unfoldable pub disclosed : DecisionNeed → List String → List String
  disclosed need [] = []
  disclosed need (f ∷ fs) =
      let rest = disclosed need fs in if discloses_field need f then f ∷ rest else rest

  unfoldable pub to_evidence_request : DecisionNeed → EvidenceRequest
  unfolding disclosed
  to_evidence_request need = record {
    decision_case_id = need.decision_case_id;
    capability = need.capability;
    subject_refs = need.subject_refs;
    fields = disclosed need need.fields;
    purpose = if truthy need.purpose then need.purpose else need.objective;
    tenant = need.tenant;
    max_cost = need.max_cost;
    max_age_s = need.freshness_limit_s;
    jurisdiction = need.jurisdiction;
    sensitivity = need.sensitivity;
    deadline = need.deadline;
  }

  -- `AcquisitionResult`: of its artifacts only their number is looked at here.
  pub record AcquisitionResult (A : Type 0) : Type 0 where
    pub is_ok : Bool
    pub artifacts : List A
    pub failure : Option AcquisitionFailure
    pub detail : String
    pub cost : floats.Float

  abbrev pub found_result : {A : Type 0} → List A → floats.Float → AcquisitionResult A
  found_result artifacts cost = record {
    is_ok = true;
    artifacts = artifacts;
    failure = none;
    detail = "";
    cost = cost;
  }

  abbrev pub failed_result :
      {A : Type 0} → AcquisitionFailure → String → floats.Float → AcquisitionResult A
  failed_result f detail cost = record {
    is_ok = false;
    artifacts = [];
    failure = some f;
    detail = detail;
    cost = cost;
  }

  pub record EvidenceValueRecord : Type 0 where
    pub decision_case_id : String
    pub capability : Capability
    pub provider : String
    pub evidence_requested : Bool
    pub evidence_received : Bool
    pub cost : floats.Float
    pub decision_before : String
    pub decision_after : String
    pub action : String
    pub verified_outcome : Option String

  abbrev pub changed_decision : EvidenceValueRecord → Bool
  changed_decision r = r.evidence_received && not (r.decision_before == r.decision_after)
