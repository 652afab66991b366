-- ===== src/Context.antt =====
-- models/context.py: a plan of what enters the model, and its materialised view.
pub mod Feasibility
pub mod Divergence
pub mod Duplicates
use runtime_contracts.Prelude.{
  String, Bool, true, false, not, List, [], ◌∷◌, ◌++◌, map, any, Option, none, some, ℤ, pos, ◌+ℤ◌,
  ltb_ℤ, if◌then◌else◌, string_order, string_eq, pair_order, pair_eq,
}
use runtime_contracts.Prelude.Sort.{sort}
use runtime_contracts.Canonical.Json.{Json, Dict, obj, str, int, arr, fields, items, opt_int}
use runtime_contracts.Canonical.Dict.{get}
use runtime_contracts.Canonical.Value.{Platform, json_hash, sorted_unique}
use runtime_contracts.Visibility.{AuthorizationOutcome, authorization_value, is_granted, same_text}
use runtime_contracts.Handle.{ArtifactHandle, handle_form}

pub data Necessity : Type 0 where
  required optional excluded : Necessity

abbrev pub necessity_value : Necessity → String
necessity_value required = "REQUIRED"
necessity_value optional = "OPTIONAL"
necessity_value excluded = "EXCLUDED"

abbrev pub is_required : Necessity → Bool
is_required required = true
is_required _ = false

pub data PlanFeasibility : Type 0 where
  feasible infeasible_budget infeasible_authorization infeasible_missing : PlanFeasibility

pub record PlannedItem : Type 0 where
  pub handle : ArtifactHandle
  pub necessity : Necessity
  pub projection : String
  pub authorization : AuthorizationOutcome
  pub reason : String

unfoldable pub item_form : PlannedItem → Json
unfolding handle_form
item_form i = obj (
    fields (
      ("handle", handle_form i.handle)
      ∷ ("necessity", str (necessity_value i.necessity))
      ∷ ("projection", str i.projection)
      ∷ ("authorization", str (authorization_value i.authorization))
      ∷ []))

abbrev pub SortKey : Type 0
SortKey = String × (String × String)

-- `PlannedItem.sort_key`
abbrev pub sort_key : PlannedItem → SortKey
sort_key i = (i.handle.artifact_id, (i.projection, necessity_value i.necessity))

pub record ContextPreviewPlan : Type 0 where
  pub plan_id : String
  pub items : List PlannedItem
  pub budget_tokens : Option ℤ
  pub estimated_tokens : ℤ
  pub omitted_count : ℤ
  pub schema_id : String
  pub schema_version : String

unfoldable pub required_items : List PlannedItem → List PlannedItem
required_items [] = []
required_items (i ∷ is) =
    if is_required i.necessity then i ∷ required_items is else required_items is

-- `i.handle.estimated_expansion_tokens or 0`
abbrev pub tokens : PlannedItem → ℤ
tokens i = elim i.handle.estimated_expansion_tokens [ none ↦ pos 0 | some n ↦ n ]

unfoldable pub sum_tokens : List PlannedItem → ℤ
unfolding ◌+ℤ◌
sum_tokens [] = pos 0
sum_tokens (i ∷ is) = tokens i +ℤ sum_tokens is

-- `budget_tokens is not None and required_tokens > budget_tokens`
abbrev pub over_budget : Option ℤ → ℤ → Bool
over_budget none n = false
over_budget (some b) n = ltb_ℤ b n

unfoldable pub feasibility : ContextPreviewPlan → PlanFeasibility
unfolding required_items sum_tokens
feasibility p =
    if any (λ i. not (is_granted i.authorization)) (required_items p.items)
    then infeasible_authorization
    else if over_budget p.budget_tokens (sum_tokens (required_items p.items))
    then infeasible_budget
    else feasible

unfoldable pub plan_form : ContextPreviewPlan → Json
unfolding item_form sorted_unique
plan_form p = obj (
    fields (
      ("schema_id", str p.schema_id)
      ∷ ("schema_version", str p.schema_version)
      ∷ ("items", arr (items (map item_form (sorted_unique sort_key p.items))))
      ∷ ("budget_tokens", opt_int p.budget_tokens)
      ∷ ("omitted_count", int p.omitted_count)
      ∷ []))

unfoldable pub plan_hash : Platform → ContextPreviewPlan → String
unfolding json_hash plan_form
plan_hash env p = json_hash env (plan_form p)

pub record ContextView : Type 0 where
  pub view_id : String
  pub plan : ContextPreviewPlan
  pub version_pins : Dict String
  pub materialized_at : Option String
  pub schema_id : String
  pub schema_version : String

abbrev pin_form : Dict String → Dict Json
pin_form [] = []
pin_form ((k, v) ∷ d) = (k, str v) ∷ pin_form d

unfoldable pub view_form : ContextView → Json
unfolding plan_form sort
view_form v = obj (
    fields (
      ("schema_id", str v.schema_id)
      ∷ ("schema_version", str v.schema_version)
      ∷ ("plan", plan_form v.plan)
      ∷ ("version_pins", obj (fields (pin_form (sort (λ e. e.0) v.version_pins))))
      ∷ []))

unfoldable pub view_hash : Platform → ContextView → String
unfolding json_hash view_form
view_hash env v = json_hash env (view_form v)

-- The loop of `divergence_from` over the artifact ids.
unfoldable pub moved_pins : Dict String → Dict String → List String → List String
unfolding get
moved_pins mine theirs [] = []
moved_pins mine theirs (i ∷ is) =
    if same_text (get i mine) (get i theirs)
    then moved_pins mine theirs is
    else i ∷ moved_pins mine theirs is

abbrev pub pin_ids : Dict String → List String
pin_ids = map (λ e. e.0)

unfoldable pub divergence_from : ContextView → ContextView → List String
unfolding moved_pins sorted_unique
divergence_from v w =
    moved_pins v.version_pins w.version_pins
      (sorted_unique (λ s. s) (pin_ids v.version_pins ++ pin_ids w.version_pins))
