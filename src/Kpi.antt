-- ===== src/Kpi.antt =====
-- models/kpi.py: the measures that a mission template promises, and how they are judged.
pub mod Laws
pub mod Judged
pub mod Unordered
use runtime_contracts.Prelude.{
  String, Bool, true, false, not, ◌&&◌, List, [], ◌∷◌, map, Option, none, some, truthy, member,
  ◌==◌, string_eq, string_order, ℤ, Result, ok, raise, raise_if, ◌>>◌, ◌>>=◌, if◌then◌else◌,
}
use runtime_contracts.Prelude.Sort.{sort}
use runtime_contracts.Canonical.Json.{Json, obj, str, int, arr, bool, fields, items, strs}
use runtime_contracts.Canonical.Value.{Platform, json_hash}

pub data KpiKind : Type 0 where
  business risk autonomy human runtime : KpiKind

abbrev pub kind_value : KpiKind → String
kind_value business = "business"
kind_value risk = "risk"
kind_value autonomy = "autonomy"
kind_value human = "human"
kind_value runtime = "runtime"

-- `a is b`
abbrev pub kind_is : KpiKind → KpiKind → Bool
kind_is business business = true
kind_is risk risk = true
kind_is autonomy autonomy = true
kind_is human human = true
kind_is runtime runtime = true
kind_is _ _ = false

pub data KpiDirection : Type 0 where
  maximize minimize must_not_exceed must_equal : KpiDirection

abbrev pub direction_value : KpiDirection → String
direction_value maximize = "maximize"
direction_value minimize = "minimize"
direction_value must_not_exceed = "must_not_exceed"
direction_value must_equal = "must_equal"

pub record KpiDeclaration : Type 0 where
  pub kpi_id : String
  pub kind : KpiKind
  pub name : String
  pub unit : String
  pub direction : KpiDirection
  pub bound : String
  pub primary : Bool
  pub description : String
  pub contract_version : String

pub record KpiMeasurement : Type 0 where
  pub kpi_id : String
  pub value : String
  pub window : String
  pub sample_size : ℤ
  pub evidence_refs : List String
  pub contract_version : String

pub record KpiOutcome : Type 0 where
  pub kpi_id : String
  pub value : String
  pub satisfied : Bool
  pub blocking : Bool

pub record MissionKpiSet : Type 0 where
  pub kpis : List KpiDeclaration
  pub contract_version : String

-- What the functions raise. A comparison of decimals raises for a NaN.
pub data KpiError : Type 0 where
  bound_required not_a_decimal other_kpi duplicate_kpi unknown_kpi not_comparable : KpiError

-- `decimal.Decimal` of Python: its parser, `==` and `<=`.
pub record DecimalArithmetic : Type 1 where
  pub Number : Type 0
  pub parse : String → Option Number
  pub equal : Number → Number → Result KpiError Bool
  pub at_most : Number → Number → Result KpiError Bool

-- `is_safety`
abbrev pub is_safety : KpiDeclaration → Bool
is_safety d = elim d.direction [ must_not_exceed ↦ true | must_equal ↦ true | _ ↦ false ]

module _ (num : DecimalArithmetic) where
  -- `_dec`
  unfoldable pub dec : String → Result KpiError num.Number
  dec s = elim (num.parse s) [ none ↦ raise not_a_decimal | some n ↦ ok n ]

  -- `KPIDeclaration.__post_init__`
  unfoldable pub declaration_post_init : KpiDeclaration → Result KpiError (Unit {0})
  unfolding dec
  declaration_post_init d = do
    raise_if (is_safety d && not (truthy d.bound)) bound_required
    (if truthy d.bound then (do dec d.bound; ok tt) else ok tt)

  unfoldable pub satisfied_by : KpiDeclaration → String → Result KpiError Bool
  unfolding dec
  satisfied_by d value = do
    v ← dec value
    elim d.direction [
      | must_equal ↦ (do b ← dec d.bound; num.equal v b)
      | must_not_exceed ↦ (do b ← dec d.bound; num.at_most v b)
      | maximize ↦ if truthy d.bound then (do b ← dec d.bound; num.at_most b v) else ok true
      | minimize ↦ if truthy d.bound then (do b ← dec d.bound; num.at_most v b) else ok true
    ]

  -- `KPIMeasurement.__post_init__`
  unfoldable pub measurement_post_init : KpiMeasurement → Result KpiError (Unit {0})
  unfolding dec
  measurement_post_init m = do dec m.value; ok tt

  -- `judge`
  unfoldable pub judge_kpi : KpiDeclaration → KpiMeasurement → Result KpiError KpiOutcome
  unfolding satisfied_by
  judge_kpi d m = do
    raise_if (not (m.kpi_id == d.kpi_id)) other_kpi
    good ← satisfied_by d m.value
    ok (record {
      kpi_id = d.kpi_id;
      value = m.value;
      satisfied = good;
      blocking = is_safety d && not good;
    })

-- `len(ids) != len(set(ids))`
unfoldable pub has_duplicate : List String → Bool
has_duplicate [] = false
has_duplicate (i ∷ is) = if member i is then true else has_duplicate is

-- `MissionKPISet.__post_init__`
unfoldable pub set_post_init : MissionKpiSet → Result KpiError (Unit {0})
unfolding has_duplicate
set_post_init s = raise_if (has_duplicate (map (λ k. k.kpi_id) s.kpis)) duplicate_kpi

-- A comprehension `tuple(k for k in self.kpis if test(k))`.
unfoldable pub kpis_where : (KpiDeclaration → Bool) → List KpiDeclaration → List KpiDeclaration
kpis_where p [] = []
kpis_where p (k ∷ ks) = if p k then k ∷ kpis_where p ks else kpis_where p ks

abbrev pub primary_kpis : MissionKpiSet → List KpiDeclaration
primary_kpis s = kpis_where (λ k. k.primary) s.kpis

abbrev pub secondary_kpis : MissionKpiSet → List KpiDeclaration
secondary_kpis s = kpis_where (λ k. not k.primary) s.kpis

abbrev pub safety_kpis : MissionKpiSet → List KpiDeclaration
safety_kpis s = kpis_where is_safety s.kpis

abbrev pub kpis_by_kind : KpiKind → MissionKpiSet → List KpiDeclaration
kpis_by_kind c s = kpis_where (λ k. kind_is k.kind c) s.kpis

unfoldable pub find_kpi : String → List KpiDeclaration → Result KpiError KpiDeclaration
find_kpi i [] = raise unknown_kpi
find_kpi i (k ∷ ks) = if k.kpi_id == i then ok k else find_kpi i ks

-- `MissionKPISet.get`
abbrev pub get_kpi : MissionKpiSet → String → Result KpiError KpiDeclaration
get_kpi s i = find_kpi i s.kpis

unfoldable pub declaration_form : KpiDeclaration → Json
declaration_form d = obj (
    fields (
      ("contract_version", str d.contract_version)
      ∷ ("kpi_id", str d.kpi_id)
      ∷ ("kind", str (kind_value d.kind))
      ∷ ("name", str d.name)
      ∷ ("unit", str d.unit)
      ∷ ("direction", str (direction_value d.direction))
      ∷ ("bound", str d.bound)
      ∷ ("primary", bool d.primary)
      ∷ ("description", str d.description)
      ∷ []))

unfoldable pub measurement_form : KpiMeasurement → Json
unfolding sort
measurement_form m = obj (
    fields (
      ("contract_version", str m.contract_version)
      ∷ ("kpi_id", str m.kpi_id)
      ∷ ("value", str m.value)
      ∷ ("window", str m.window)
      ∷ ("sample_size", int m.sample_size)
      ∷ ("evidence_refs", strs (sort (λ s. s) m.evidence_refs))
      ∷ []))

unfoldable pub measurement_id : Platform → KpiMeasurement → String
unfolding json_hash measurement_form
measurement_id env m = json_hash env (measurement_form m)

unfoldable pub set_form : MissionKpiSet → Json
unfolding declaration_form sort
set_form s = obj (
    fields (
      ("contract_version", str s.contract_version)
      ∷ ("kpis", arr (items (map declaration_form (sort (λ k. k.kpi_id) s.kpis))))
      ∷ []))

unfoldable pub kpi_set_id : Platform → MissionKpiSet → String
unfolding json_hash set_form
kpi_set_id env s = json_hash env (set_form s)
