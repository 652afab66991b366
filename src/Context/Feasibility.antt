-- ===== src/Context/Feasibility.antt =====
-- The feasibility of a plan of models/context.py.
use runtime_contracts.Prelude.{
  true, false, not, List, [], ◌∷◌, ◌++◌, any, ◌≡◌, ◌↔◌, refl, arith, All, ℤ, pos, ◌+ℤ◌,
}
use runtime_contracts.Visibility.{is_granted}
use runtime_contracts.Context.{
  required, PlannedItem, ContextPreviewPlan, is_required, required_items, sum_tokens, tokens,
  over_budget, feasibility, feasible,
}

-- A required item is authorised.
abbrev pub IsAdmitted : PlannedItem → Type 0
IsAdmitted i = is_required i.necessity ≡ true → is_granted i.authorization ≡ true

-- The tokens of the required items, summed over all items.
pub required_total : List PlannedItem → ℤ
unfolding ◌+ℤ◌
required_total [] = pos 0
required_total (i ∷ is) = elim i.necessity [
  | required ↦ tokens i +ℤ required_total is
  | _ ↦ required_total is
]

sum_required : (is : List PlannedItem) → sum_tokens (required_items is) ≡ required_total is
unfolding sum_tokens required_items required_total
sum_required [] = refl
sum_required (i ∷ is) = ground (arith, sum_required is)

denied_none :
    (is : List PlannedItem)
    → (any (λ i. not (is_granted i.authorization)) (required_items is) ≡ false) ↔ All IsAdmitted is
unfolding required_items
denied_none [] = (λ _. tt, λ _. refl)
denied_none (i ∷ is) =
    let (f, g) = denied_none is in
    (λ h. (ground arith, f (ground arith)), λ h. ground (arith, g h.1))

-- A plan is feasible exactly if every required item is authorised and the required tokens are
-- within the budget, where there is one.
pub feasible_iff :
    (p : ContextPreviewPlan)
    → (feasibility p ≡ feasible)
      ↔ (All IsAdmitted p.items × (over_budget p.budget_tokens (required_total p.items) ≡ false))
unfolding feasibility
feasible_iff p =
    let (f, g) = denied_none p.items in
    (
      λ h. (f (ground arith), ground (arith, sum_required p.items)),
      λ h. ground (arith, sum_required p.items, g h.0),
    )

required_items-skip :
    (is js : List PlannedItem) (i : PlannedItem)
    → is_required i.necessity ≡ false
    → required_items (is ++ i ∷ js) ≡ required_items (is ++ js)
unfolding required_items
required_items-skip [] js i h = ground arith
required_items-skip (k ∷ is) js i h = ground (arith, required_items-skip is js i h)

-- An item that is not required can be put into a plan, or taken out, at any place: the
-- feasibility is the same.
pub feasibility_optional :
    (p : ContextPreviewPlan) (is js : List PlannedItem) (i : PlannedItem)
    → is_required i.necessity ≡ false
    → feasibility (record p { items = is ++ i ∷ js }) ≡ feasibility (record p { items = is ++ js })
unfolding feasibility
feasibility_optional p is js i h = rw (required_items-skip is js i h)
