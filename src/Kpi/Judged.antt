-- ===== src/Kpi/Judged.antt =====
-- When a measurement of models/kpi.py is judged, and what the judgement says.
use runtime_contracts.Prelude.{
  String, Bool, true, false, not, ◌&&◌, truthy, some, string_eq, ◌≡◌, ◌↔◌, ◌⊎◌, refl, sym, subst,
  ◌∙◌, ap, arith, Result, ok, ok-inj, Result-cases, Option-cases, Bool-cases, inl, inr,
}
use runtime_contracts.Canonical.Keys.{some-inj}
use runtime_contracts.Kpi.{
  KpiDirection, maximize, minimize, must_not_exceed, must_equal, KpiDeclaration, KpiMeasurement,
  KpiOutcome, KpiError, DecimalArithmetic, dec, is_safety, satisfied_by, judge_kpi,
  declaration_post_init, measurement_post_init,
}

abbrev pub IsBar : KpiDirection → Type 0
IsBar x = (x ≡ must_not_exceed) ⊎ (x ≡ must_equal)

is_safety_iff : (d : KpiDeclaration) → (is_safety d ≡ true) ↔ IsBar d.direction
is_safety_iff d = by_direction d.direction
  where
    by_direction :
        (x : KpiDirection)
        → ((elim x [ must_not_exceed ↦ true | must_equal ↦ true | _ ↦ false ]) ≡ true) ↔ IsBar x
    by_direction maximize = (λ h. cc h, λ b. elim b [ inl q ↦ cc q | inr q ↦ cc q ])
    by_direction minimize = (λ h. cc h, λ b. elim b [ inl q ↦ cc q | inr q ↦ cc q ])
    by_direction must_not_exceed = (λ h. inl refl, λ b. refl)
    by_direction must_equal = (λ h. inr refl, λ b. refl)

module _ (num : DecimalArithmetic) where
  -- The number misses the bound, in the direction of the measure.
  abbrev pub IsMissed : KpiDirection → num.Number → num.Number → Type 0
  IsMissed must_not_exceed v b = num.at_most v b ≡ ok false
  IsMissed must_equal v b = num.equal v b ≡ ok false
  IsMissed maximize v b = num.at_most b v ≡ ok false
  IsMissed minimize v b = num.at_most v b ≡ ok false

  -- The comparison that the direction asks for.
  abbrev pub compared : KpiDirection → num.Number → num.Number → Result KpiError Bool
  compared must_not_exceed v b = num.at_most v b
  compared must_equal v b = num.equal v b
  compared maximize v b = num.at_most b v
  compared minimize v b = num.at_most v b

  IsMissed-iff :
      (x : KpiDirection) (v b : num.Number) → (compared x v b ≡ ok false) ↔ IsMissed x v b
  IsMissed-iff maximize v b = (λ h. h, λ h. h)
  IsMissed-iff minimize v b = (λ h. h, λ h. h)
  IsMissed-iff must_not_exceed v b = (λ h. h, λ h. h)
  IsMissed-iff must_equal v b = (λ h. h, λ h. h)

  -- The measure has a bound, and both texts are numbers that are related so.
  pub record Numbers (d : KpiDeclaration) (value : String) (R : num.Number → num.Number → Type 0)
      : Type 0 where
    pub bounded : truthy d.bound ≡ true
    pub measured : num.Number
    pub limit : num.Number
    pub measured_parsed : num.parse value ≡ some measured
    pub limit_parsed : num.parse d.bound ≡ some limit
    pub related : R measured limit

  dec-parses : (s : String) (v : num.Number) → dec num s ≡ ok v → num.parse s ≡ some v
  unfolding dec
  dec-parses s v h = elim (Option-cases (num.parse s)) [
    | inl q ↦ absurd (ground arith)
    | inr (w, q) ↦ ground arith
  ]

  satisfied_by-bounded :
      (d : KpiDeclaration) (value : String) (v b : num.Number)
      → truthy d.bound ≡ true
      → dec num value ≡ ok v
      → dec num d.bound ≡ ok b
      → satisfied_by num d value ≡ compared d.direction v b
  unfolding satisfied_by
  satisfied_by-bounded d value v b t p q = ground arith

  -- A constructed measure compares its bound, or has none and is no bar.
  pub constructed-cases :
      (d : KpiDeclaration) (m : KpiMeasurement)
      → declaration_post_init num d ≡ ok tt
      → measurement_post_init num m ≡ ok tt
      → Numbers d m.value (λ v b. satisfied_by num d m.value ≡ compared d.direction v b)
        ⊎ ((truthy d.bound ≡ false)
            × (is_safety d ≡ false)
            × (satisfied_by num d m.value ≡ ok true))
  unfolding declaration_post_init measurement_post_init satisfied_by
  constructed-cases d m dh mh = elim (Result-cases (dec num m.value)) [
    | inl (v, p) ↦ elim (Bool-cases (truthy d.bound)) [
      | inl t ↦ elim (Result-cases (dec num d.bound)) [
        | inl (b, q) ↦ inl (record {
          bounded = t;
          measured = v;
          limit = b;
          measured_parsed = dec-parses m.value v p;
          limit_parsed = dec-parses d.bound b q;
          related = satisfied_by-bounded d m.value v b t p q;
        })
        | inr (e, q) ↦ absurd (ground arith)
      ]
      | inr t ↦ inr (t, ground arith, ground arith)
    ]
    | inr (e, p) ↦ absurd (ground arith)
  ]

  -- What a comparison does with the two numbers, `satisfied_by` does with the two texts.
  pub satisfied_by_iff :
      (d : KpiDeclaration) (m : KpiMeasurement) (S : Result KpiError Bool → Type 0)
      (R : num.Number → num.Number → Type 0)
      → ((v b : num.Number) → S (compared d.direction v b) ↔ R v b)
      → ¬ S (ok true)
      → declaration_post_init num d ≡ ok tt
      → measurement_post_init num m ≡ ok tt
      → S (satisfied_by num d m.value) ↔ Numbers d m.value R
  satisfied_by_iff d m S R f absent dh mh = elim (constructed-cases d m dh mh) [
    | inl n ↦ (
      λ s. record {
        bounded = n.bounded;
        measured = n.measured;
        limit = n.limit;
        measured_parsed = n.measured_parsed;
        limit_parsed = n.limit_parsed;
        related = (f n.measured n.limit).0 (subst S n.related s);
      },
      λ k.
          let v : k.measured ≡ n.measured = some-inj (sym k.measured_parsed ∙ n.measured_parsed) in
          let b : k.limit ≡ n.limit = some-inj (sym k.limit_parsed ∙ n.limit_parsed) in
          subst S (sym n.related) (
            (f n.measured n.limit).1
              (subst (R n.measured) b (subst (λ x. R x k.limit) v k.related))),
    )
    | inr (t, bar, good) ↦ (λ s. absurd (absent (subst S good s)), λ k. absurd (cc (k.bounded, t)))
  ]

  judge_kpi-returns :
      (d : KpiDeclaration) (m : KpiMeasurement) {o : KpiOutcome}
      → judge_kpi num d m ≡ ok o
      → (satisfied_by num d m.value ≡ ok o.satisfied)
        × (o.blocking ≡ (is_safety d && not o.satisfied))
  unfolding judge_kpi
  judge_kpi-returns d m h = elim (Result-cases (satisfied_by num d m.value)) [
    | inl (good, q) ↦ (ground arith, ground arith)
    | inr (e, q) ↦ absurd (ground arith)
  ]

  -- If a constructed measurement is judged against a constructed declaration, the outcome is
  -- unsatisfied exactly if the declaration has a bound that the value misses in its direction, and
  -- it blocks exactly if the direction is `must_not_exceed` or `must_equal` besides.
  pub blocking_iff :
      (d : KpiDeclaration) (m : KpiMeasurement) {o : KpiOutcome}
      → declaration_post_init num d ≡ ok tt
      → measurement_post_init num m ≡ ok tt
      → judge_kpi num d m ≡ ok o
      → ((o.satisfied ≡ false) ↔ Numbers d m.value (IsMissed d.direction))
        × ((o.blocking ≡ true) ↔ (IsBar d.direction × Numbers d m.value (IsMissed d.direction)))
  blocking_iff d m {o} dh mh h =
      let (said, blocks) = judge_kpi-returns d m {o = o} h in
      let (missed, misses) =
        satisfied_by_iff d m (λ r. r ≡ ok false) (IsMissed d.direction) (IsMissed-iff d.direction)
          (λ q. cc q) dh mh in
      (
        (λ q. missed (said ∙ ap ok q), λ k. ok-inj (sym said ∙ misses k)),
        (
          λ q. ((is_safety_iff d).0 (ground arith), missed (said ∙ ap ok (ground arith))),
          λ (bar, k).
              let safe = (is_safety_iff d).1 bar in
              let bad : o.satisfied ≡ false = ok-inj (sym said ∙ misses k) in ground arith,
        ),
      )
