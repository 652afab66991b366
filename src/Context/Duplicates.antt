-- ===== src/Context/Duplicates.antt =====
-- Which items of a plan of models/context.py reach its hash.
use runtime_contracts.Prelude.{
  String, if◌then◌else◌, ◌==◌, sym, ◌∙◌, List, [], ◌∷◌, ◌≡◌, ◌↔◌, ◌⊎◌, refl, ap, In, inl, inr,
  string_eq, string_order, pair_eq, pair_order,
}
use runtime_contracts.Canonical.Value.{Platform, sorted_unique}
use runtime_contracts.Canonical.Kept.{IsFirst, In-sorted_unique, sorted_unique_idem}
use runtime_contracts.Context.{
  Necessity, required, optional, excluded, necessity_value, PlannedItem, ContextPreviewPlan,
  sort_key, plan_hash,
}

-- The two items take the same place in a plan.
pub record IsRival (i j : PlannedItem) : Type 0 where
  pub artifact : i.handle.artifact_id ≡ j.handle.artifact_id
  pub projection : i.projection ≡ j.projection
  pub necessity : i.necessity ≡ j.necessity

-- The item is in the list, and no earlier item is its rival.
abbrev pub IsPlanned : PlannedItem → List PlannedItem → Type 0
IsPlanned k [] = ⊥
IsPlanned k (i ∷ is) = (k ≡ i) ⊎ ((¬ IsRival i k) × IsPlanned k is)

-- The necessity that a value of the enum names.
abbrev named : String → Necessity
named s = if s == "REQUIRED" then required else if s == "OPTIONAL" then optional else excluded

named-necessity_value : (n : Necessity) → named (necessity_value n) ≡ n
named-necessity_value required = refl
named-necessity_value optional = refl
named-necessity_value excluded = refl

necessity-inj : (m n : Necessity) → necessity_value m ≡ necessity_value n → m ≡ n
necessity-inj m n h = sym (named-necessity_value m) ∙ ap named h ∙ named-necessity_value n

sort_key_iff : (i j : PlannedItem) → (sort_key i ≡ sort_key j) ↔ IsRival i j
sort_key_iff i j = (
  λ h. record {
    artifact = ap (λ z. z.0) h;
    projection = ap (λ z. z.1.0) h;
    necessity = necessity-inj i.necessity j.necessity (ap (λ z. z.1.1) h);
  },
  λ r. rw (r.artifact, r.projection, r.necessity) refl,
)

IsFirst-IsPlanned :
    (k : PlannedItem) (is : List PlannedItem) → IsFirst sort_key k is ↔ IsPlanned k is
IsFirst-IsPlanned k [] = (λ f. f, λ f. f)
IsFirst-IsPlanned k (i ∷ is) = (
  λ f. elim f [
    | inl q ↦ inl q
    | inr (apart, rest) ↦
        inr ((λ r. apart ((sort_key_iff i k).1 r)), (IsFirst-IsPlanned k is).0 rest)
  ],
  λ f. elim f [
    | inl q ↦ inl q
    | inr (apart, rest) ↦
        inr ((λ q. apart ((sort_key_iff i k).0 q)), (IsFirst-IsPlanned k is).1 rest)
  ],
)

-- The hash of a plan is that of the plan of the items that `sorted_unique` keeps, and it keeps
-- exactly the items before which no item of the plan has the same artifact id, projection and
-- necessity, whatever their authorization and content hash.
pub plan_hash-sorted_unique :
    (env : Platform) (p : ContextPreviewPlan)
    → (plan_hash env p ≡ plan_hash env (record p { items = sorted_unique sort_key p.items }))
      × ((k : PlannedItem) → In k (sorted_unique sort_key p.items) ↔ IsPlanned k p.items)
unfolding plan_hash
plan_hash-sorted_unique env p = (
  rw (sorted_unique_idem sort_key p.items),
  λ k.
      let (first, kept) = In-sorted_unique sort_key k p.items in
      let (planned, back) = IsFirst-IsPlanned k p.items in
      (λ m. planned (first m), λ f. kept (back f)),
)
