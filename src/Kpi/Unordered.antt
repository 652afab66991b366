-- ===== src/Kpi/Unordered.antt =====
-- Numbers that Python's decimals do not order, and the judgement of models/kpi.py on them.
use runtime_contracts.Prelude.{
  Bool, true, false, not, ◌||◌, ◌&&◌, ◌==◌, string_eq, ◌≡◌, ◌↔◌, ◌⊎◌, refl, ◌∙◌, arith, ok, raise,
  Bool-cases, inl, inr,
}
use runtime_contracts.Kpi.{
  KpiDirection, maximize, minimize, must_not_exceed, must_equal, KpiDeclaration, KpiMeasurement,
  KpiOutcome, KpiError, DecimalArithmetic, is_safety, satisfied_by, judge_kpi,
  declaration_post_init, measurement_post_init,
}
use runtime_contracts.Kpi.Judged.{Numbers, compared, satisfied_by_iff, constructed-cases}

module _ (num : DecimalArithmetic) (nan signaling : num.Number → Bool) where
  -- The comparison of the direction does not order the two numbers.
  abbrev pub IsUnordered : KpiDirection → num.Number → num.Number → Type 0
  IsUnordered must_not_exceed v b = (nan v || nan b) ≡ true
  IsUnordered must_equal v b = (signaling v || signaling b) ≡ true
  IsUnordered maximize v b = (nan v || nan b) ≡ true
  IsUnordered minimize v b = (nan v || nan b) ≡ true

  module _
      (at_most_orders : (a b : num.Number)
        → (nan a || nan b) ≡ false
        → (r : Bool) × (num.at_most a b ≡ ok r))
      (at_most_raises : (a b : num.Number)
        → (nan a || nan b) ≡ true
        → num.at_most a b ≡ raise KpiError.not_comparable)
      (equal_orders : (a b : num.Number)
        → (signaling a || signaling b) ≡ false
        → (r : Bool) × (num.equal a b ≡ ok r))
      (equal_raises : (a b : num.Number)
        → (signaling a || signaling b) ≡ true
        → num.equal a b ≡ raise KpiError.not_comparable) where
    at_most_iff :
        (a b : num.Number)
        → (num.at_most a b ≡ raise KpiError.not_comparable) ↔ ((nan a || nan b) ≡ true)
    at_most_iff a b = elim (Bool-cases (nan a || nan b)) [
      | inl p ↦ (λ h. p, λ k. at_most_raises a b p)
      | inr p ↦
          let (r, q) = at_most_orders a b p in (λ h. absurd (cc (h, q)), λ k. absurd (cc (k, p)))
    ]

    equal_iff :
        (a b : num.Number)
        → (num.equal a b ≡ raise KpiError.not_comparable) ↔ ((signaling a || signaling b) ≡ true)
    equal_iff a b = elim (Bool-cases (signaling a || signaling b)) [
      | inl p ↦ (λ h. p, λ k. equal_raises a b p)
      | inr p ↦
          let (r, q) = equal_orders a b p in (λ h. absurd (cc (h, q)), λ k. absurd (cc (k, p)))
    ]

    swapped : (p q : Bool) → (p || q) ≡ true → (q || p) ≡ true
    swapped p q h = ground arith

    IsUnordered-iff :
        (x : KpiDirection) (v b : num.Number)
        → (compared num x v b ≡ raise KpiError.not_comparable) ↔ IsUnordered x v b
    IsUnordered-iff must_not_exceed v b = at_most_iff v b
    IsUnordered-iff must_equal v b = equal_iff v b
    IsUnordered-iff minimize v b = at_most_iff v b
    IsUnordered-iff maximize v b = (
      λ h. swapped (nan b) (nan v) ((at_most_iff b v).0 h),
      λ k. (at_most_iff b v).1 (swapped (nan v) (nan b) k),
    )

    at_most_total :
        (a b : num.Number)
        → ((r : Bool) × (num.at_most a b ≡ ok r))
          ⊎ (num.at_most a b ≡ raise KpiError.not_comparable)
    at_most_total a b = elim (Bool-cases (nan a || nan b)) [
      | inl p ↦ inr (at_most_raises a b p)
      | inr p ↦ inl (at_most_orders a b p)
    ]

    compared_total :
        (x : KpiDirection) (v b : num.Number)
        → ((r : Bool) × (compared num x v b ≡ ok r))
          ⊎ (compared num x v b ≡ raise KpiError.not_comparable)
    compared_total must_not_exceed v b = at_most_total v b
    compared_total minimize v b = at_most_total v b
    compared_total maximize v b = at_most_total b v
    compared_total must_equal v b = elim (Bool-cases (signaling v || signaling b)) [
      | inl p ↦ inr (equal_raises v b p)
      | inr p ↦ inl (equal_orders v b p)
    ]

    satisfied_by_total :
        (d : KpiDeclaration) (m : KpiMeasurement)
        → declaration_post_init num d ≡ ok tt
        → measurement_post_init num m ≡ ok tt
        → ((r : Bool) × (satisfied_by num d m.value ≡ ok r))
          ⊎ (satisfied_by num d m.value ≡ raise KpiError.not_comparable)
    satisfied_by_total d m dh mh = elim (constructed-cases num d m dh mh) [
      | inl n ↦ elim (compared_total d.direction n.measured n.limit) [
        | inl (r, q) ↦ inl (r, n.related ∙ q)
        | inr q ↦ inr (n.related ∙ q)
      ]
      | inr (t, bar, good) ↦ inl (true, good)
    ]

    -- If `<=` raises exactly on a NaN and `==` exactly on a signaling one, as for decimals of
    -- Python, then judging a constructed measurement against a constructed declaration with its id
    -- returns or raises for a comparison; it raises exactly if the declaration has a bound that, in
    -- its direction, does not compare with the value.
    pub judge_raises_iff :
        (d : KpiDeclaration) (m : KpiMeasurement)
        → declaration_post_init num d ≡ ok tt
        → measurement_post_init num m ≡ ok tt
        → (m.kpi_id == d.kpi_id) ≡ true
        → (((o : KpiOutcome) × (judge_kpi num d m ≡ ok o))
            ⊎ (judge_kpi num d m ≡ raise KpiError.not_comparable))
          × ((judge_kpi num d m ≡ raise KpiError.not_comparable)
              ↔ Numbers num d m.value (IsUnordered d.direction))
    unfolding judge_kpi
    judge_raises_iff d m dh mh same =
        let (unordered, raises) =
          satisfied_by_iff num d m (λ r. r ≡ raise KpiError.not_comparable)
            (IsUnordered d.direction) (IsUnordered-iff d.direction) (λ q. cc q) dh mh in
        elim (satisfied_by_total d m dh mh) [
          | inl (r, q) ↦ (
            inl (
              record {
                kpi_id = d.kpi_id;
                value = m.value;
                satisfied = r;
                blocking = is_safety d && not r;
              },
              rw (same, q) refl,
            ),
            (λ h. absurd (ground arith), λ k. absurd (cc (raises k, q))),
          )
          | inr q ↦ (inr (rw (same, q) refl), (λ h. unordered q, λ k. rw (same, q) refl))
        ]
