-- ===== src/Examples/Contexts.antt =====
-- Plans and views.
use runtime_contracts.Prelude.{
  String, false, not, [], ◌∷◌, none, some, ◌≡◌, ◌↔◌, refl, All, pos, member, string_eq,
  string_order, pair_eq, pair_order, In,
}
use runtime_contracts.Canonical.Dict.{get}
use runtime_contracts.Canonical.Value.{sorted_unique}
use runtime_contracts.Visibility.{Visibility, AuthorizationOutcome, same_text}
use runtime_contracts.Handle.{ArtifactHandle, Freshness}
use runtime_contracts.Context.{
  Necessity, PlannedItem, ContextPreviewPlan, ContextView, PlanFeasibility, feasibility,
  over_budget, plan_hash, divergence_from, sort_key,
}
use runtime_contracts.Context.Feasibility.{IsAdmitted, required_total, feasible_iff}
use runtime_contracts.Context.Divergence.{member-divergence_from}
use runtime_contracts.Context.Duplicates.{IsPlanned, plan_hash-sorted_unique}
use runtime_contracts.Examples.{ascii_platform}

abbrev handle_of : String → String → ArtifactHandle
handle_of i h = record {
  artifact_id = i;
  artifact_type = "decision";
  version = "1";
  artifact_content_hash = h;
  tenancy = record { visibility = Visibility.internal; tenant_id = none };
  authority = "";
  observed_at = none;
  freshness = Freshness.current;
  projections = [];
  estimated_expansion_tokens = some (pos 300);
  estimated_expansion_cost = none;
}

abbrev item_of : Necessity → AuthorizationOutcome → String → PlannedItem
item_of n a h = record {
  handle = handle_of "decision/1@1" h;
  necessity = n;
  projection = "summary";
  authorization = a;
  reason = "";
}

abbrev needed : PlannedItem
needed = item_of Necessity.required AuthorizationOutcome.granted "h1"

-- The same artifact, with another content hash and a refusal.
abbrev denied : PlannedItem
denied = item_of Necessity.required AuthorizationOutcome.denied_tenant "h2"

abbrev extra : PlannedItem
extra = item_of Necessity.optional AuthorizationOutcome.denied_budget "h3"

abbrev plan : ContextPreviewPlan
plan = record {
  plan_id = "plan";
  items = needed ∷ extra ∷ [];
  budget_tokens = some (pos 500);
  estimated_tokens = pos 600;
  omitted_count = pos 0;
  schema_id = "runtime-contracts/context-preview-plan";
  schema_version = "0.1";
}

feasible_iff_example : (feasibility plan ≡ PlanFeasibility.feasible) ↔ (
    All IsAdmitted (needed ∷ extra ∷ [])
    × (over_budget (some (pos 500)) (required_total (needed ∷ extra ∷ [])) ≡ false))
feasible_iff_example = feasible_iff plan

abbrev crowded : ContextPreviewPlan
crowded = record plan { items = needed ∷ extra ∷ denied ∷ [] }

plan_hash-sorted_unique_example :
    (plan_hash ascii_platform crowded
      ≡ plan_hash ascii_platform (record crowded { items = sorted_unique sort_key crowded.items }))
    × ((k : PlannedItem) → In k (sorted_unique sort_key crowded.items) ↔ IsPlanned k crowded.items)
plan_hash-sorted_unique_example = plan_hash-sorted_unique ascii_platform crowded

-- The refused item does not reach the hash.
denied_is_dropped : sorted_unique sort_key crowded.items ≡ extra ∷ needed ∷ []
unfolding sorted_unique
denied_is_dropped = refl

abbrev view_of : String → ContextView
view_of h = record {
  view_id = "view";
  plan = plan;
  version_pins = ("decision/1@1", h) ∷ ("policy/1@1", "h9") ∷ [];
  materialized_at = none;
  schema_id = "runtime-contracts/context-view";
  schema_version = "0.1";
}

member-divergence_from_example :
    member "decision/1@1" (divergence_from (view_of "h1") (view_of "h2"))
    ≡ not (
        same_text
          (get "decision/1@1" (view_of "h1").version_pins)
          (get "decision/1@1" (view_of "h2").version_pins))
member-divergence_from_example = member-divergence_from (view_of "h1") (view_of "h2") "decision/1@1"
