-- ===== src/Examples/Kpis.antt =====
-- A scorecard with a bar and a target, and a measurement that is not a number.
use runtime_contracts.Prelude.{
  ℕ, String, Bool, Option, Result, raise, is_none, ◌||◌, ◌⊎◌, true, false, [], ◌∷◌, none, some, ◌≡◌,
  ◌↔◌, refl, ok, pos, leb, ◌==◌, nat_eq, string_eq, if◌then◌else◌,
}
use runtime_contracts.Kpi.{
  KpiKind, KpiDirection, KpiDeclaration, KpiMeasurement, KpiOutcome, KpiError, MissionKpiSet,
  DecimalArithmetic, judge_kpi, declaration_post_init, measurement_post_init, set_post_init,
}
use runtime_contracts.Kpi.Judged.{Numbers, IsMissed, IsBar, blocking_iff}
use runtime_contracts.Kpi.Unordered.{IsUnordered, judge_raises_iff}

-- Numbers of one digit.
abbrev small_numbers : DecimalArithmetic
small_numbers = record {
  Number = ℕ;
  parse = λ s. if s == "0" then some 0 else if s == "2" then some 2 else none;
  equal = λ a b. ok (a == b);
  at_most = λ a b. ok (leb a b);
}

abbrev declare : String → KpiDirection → String → KpiDeclaration
declare i d b = record {
  kpi_id = i;
  kind = KpiKind.risk;
  name = i;
  unit = "count";
  direction = d;
  bound = b;
  primary = true;
  description = "";
  contract_version = "kpi/v1";
}

abbrev violations : KpiDeclaration
violations = declare "violations" KpiDirection.must_equal "0"

abbrev harvested : KpiDeclaration
harvested = declare "harvested" KpiDirection.maximize "2"

abbrev two_violations : KpiMeasurement
two_violations = record {
  kpi_id = "violations";
  value = "2";
  window = "run";
  sample_size = pos 9;
  evidence_refs = [];
  contract_version = "kpi/v1";
}

abbrev blocked : KpiOutcome
blocked = record { kpi_id = "violations"; value = "2"; satisfied = false; blocking = true }

violations_judged : judge_kpi small_numbers violations two_violations ≡ ok blocked
unfolding judge_kpi
violations_judged = refl

violations_construct : declaration_post_init small_numbers violations ≡ ok tt
unfolding declaration_post_init
violations_construct = refl

measurement_constructs : measurement_post_init small_numbers two_violations ≡ ok tt
unfolding measurement_post_init
measurement_constructs = refl

blocking_iff_example :
    ((blocked.satisfied ≡ false)
      ↔ Numbers small_numbers violations "2" (IsMissed small_numbers KpiDirection.must_equal))
    × ((blocked.blocking ≡ true) ↔ (
        IsBar KpiDirection.must_equal
        × Numbers small_numbers violations "2" (IsMissed small_numbers KpiDirection.must_equal)))
blocking_iff_example =
    blocking_iff small_numbers violations two_violations {o = blocked} violations_construct
      measurement_constructs violations_judged

-- Numbers of one digit and a NaN, which is quiet.
abbrev same_number : Option ℕ → Option ℕ → Result KpiError Bool
same_number (some a) (some b) = ok (a == b)
same_number (some a) none = ok false
same_number none b = ok false

abbrev not_above : Option ℕ → Option ℕ → Result KpiError Bool
not_above (some a) (some b) = ok (leb a b)
not_above (some a) none = raise KpiError.not_comparable
not_above none b = raise KpiError.not_comparable

abbrev with_nan : DecimalArithmetic
with_nan = record {
  Number = Option ℕ;
  parse = λ s. if s == "0" then some (some 0) else if s == "NaN" then some none else none;
  equal = same_number;
  at_most = not_above;
}

abbrev quiet : Option ℕ → Bool
quiet a = false

at_most_orders :
    (a b : Option ℕ) → (is_none a || is_none b) ≡ false → (r : Bool) × (not_above a b ≡ ok r)
at_most_orders (some a) (some b) h = (leb a b, refl)
at_most_orders (some a) none h = absurd (cc h)
at_most_orders none b h = absurd (cc h)

at_most_raises :
    (a b : Option ℕ)
    → (is_none a || is_none b) ≡ true
    → not_above a b ≡ raise KpiError.not_comparable
at_most_raises (some a) (some b) h = absurd (cc h)
at_most_raises (some a) none h = refl
at_most_raises none b h = refl

equal_orders : (a b : Option ℕ) → (r : Bool) × (same_number a b ≡ ok r)
equal_orders (some a) (some b) = (a == b, refl)
equal_orders (some a) none = (false, refl)
equal_orders none b = (false, refl)

abbrev ceiling : KpiDeclaration
ceiling = declare "violations" KpiDirection.must_not_exceed "0"

abbrev not_a_number : KpiMeasurement
not_a_number = record two_violations { value = "NaN" }

ceiling_constructs : declaration_post_init with_nan ceiling ≡ ok tt
unfolding declaration_post_init
ceiling_constructs = refl

nan_constructs : measurement_post_init with_nan not_a_number ≡ ok tt
unfolding measurement_post_init
nan_constructs = refl

-- A NaN is measured, and judging it raises.
nan_raises : judge_kpi with_nan ceiling not_a_number ≡ raise KpiError.not_comparable
unfolding judge_kpi
nan_raises = refl

judge_raises_iff_example :
    (((o : KpiOutcome) × (judge_kpi with_nan ceiling not_a_number ≡ ok o))
      ⊎ (judge_kpi with_nan ceiling not_a_number ≡ raise KpiError.not_comparable))
    × ((judge_kpi with_nan ceiling not_a_number ≡ raise KpiError.not_comparable)
        ↔ Numbers with_nan ceiling "NaN"
            (IsUnordered with_nan is_none quiet KpiDirection.must_not_exceed))
judge_raises_iff_example =
    judge_raises_iff with_nan is_none quiet at_most_orders at_most_raises
      (λ a b h. equal_orders a b) (λ a b h. absurd (cc h)) ceiling not_a_number ceiling_constructs
      nan_constructs refl

abbrev scorecard : MissionKpiSet
scorecard = record { kpis = violations ∷ harvested ∷ []; contract_version = "kpi/v1" }

scorecard_constructs : set_post_init scorecard ≡ ok tt
unfolding set_post_init
scorecard_constructs = refl
