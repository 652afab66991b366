-- ===== src/Kpi/Laws.antt =====
-- The set of measures of a template, of models/kpi.py.
use runtime_contracts.Prelude.{
  true, false, List, [], ◌∷◌, ◌++◌, map, member, string_eq, string_order, eq_iff, ◌≡◌, ◌≢◌, ap,
  arith, ok, In, here, there,
}
use runtime_contracts.Prelude.Sort.{sort, insert, insert_comm}
use runtime_contracts.Canonical.Value.{Platform}
use runtime_contracts.Kpi.{
  KpiDeclaration, MissionKpiSet, has_duplicate, set_post_init, find_kpi, get_kpi, kpi_set_id,
}

find_kpi_self :
    (ks : List KpiDeclaration) (k : KpiDeclaration)
    → has_duplicate (map (λ x. x.kpi_id) ks) ≡ false
    → In k ks
    → (member k.kpi_id (map (λ x. x.kpi_id) ks) ≡ true) × (find_kpi k.kpi_id ks ≡ ok k)
unfolding find_kpi has_duplicate
find_kpi_self [] k h m = elim m [ ]
find_kpi_self (x ∷ ks) k h here =
    (ground (arith, eq_iff k.kpi_id k.kpi_id), ground (arith, eq_iff k.kpi_id k.kpi_id))
find_kpi_self (x ∷ ks) k h (there m) =
    let (listed, found) = find_kpi_self ks k (ground arith) m in
    (ground arith, ground (arith, eq_iff x.kpi_id k.kpi_id))

-- In a set that was constructed, every measure is found under its id.
pub get_kpi_self :
    (s : MissionKpiSet) (k : KpiDeclaration)
    → set_post_init s ≡ ok tt
    → In k s.kpis
    → get_kpi s k.kpi_id ≡ ok k
unfolding set_post_init
get_kpi_self s k h m = (find_kpi_self s.kpis k (ground arith) m).1

sort-swap :
    (is js : List KpiDeclaration) (a b : KpiDeclaration)
    → a.kpi_id ≢ b.kpi_id
    → sort (λ k. k.kpi_id) (is ++ a ∷ b ∷ js) ≡ sort (λ k. k.kpi_id) (is ++ b ∷ a ∷ js)
unfolding sort
sort-swap [] js a b h = insert_comm (λ k. k.kpi_id) a b (sort (λ k. k.kpi_id) js) h
sort-swap (i ∷ is) js a b h = ap (insert (λ k. k.kpi_id) i) (sort-swap is js a b h)

-- The identity of a set does not depend on the order of its measures: two neighbours with
-- different ids can change places.
pub kpi_set_id_swap :
    (env : Platform) (s : MissionKpiSet) (is js : List KpiDeclaration) (a b : KpiDeclaration)
    → a.kpi_id ≢ b.kpi_id
    → kpi_set_id env (record s { kpis = is ++ a ∷ b ∷ js })
      ≡ kpi_set_id env (record s { kpis = is ++ b ∷ a ∷ js })
unfolding kpi_set_id
kpi_set_id_swap env s is js a b h = rw (sort-swap is js a b h)
