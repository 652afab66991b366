-- ===== src/Visibility/Laws.antt =====
-- The construction of a `Tenancy` of models/visibility.py, and citations.
use runtime_contracts.Prelude.{
  String, true, false, Option, none, some, given, ◌≡◌, ◌↔◌, ok, arith, eq_iff, string_eq,
}
use runtime_contracts.Visibility.{
  Visibility, public, private, internal, Tenancy, make_tenancy, may_be_cited_by, same_text,
}

same_text_iff : (a b : Option String) → same_text a b ≡ true → a ≡ b
same_text_iff none none h = ground arith
same_text_iff none (some t) h = cc
same_text_iff (some s) none h = cc
same_text_iff (some s) (some t) h = ground (arith, eq_iff s t)

-- A public tenancy has no tenant, and a private one has one.
abbrev pub IsWellScoped : Tenancy → Type 0
IsWellScoped t =
    (t.visibility ≡ public → given t.tenant_id ≡ false)
    × (t.visibility ≡ private → given t.tenant_id ≡ true)

-- The constructor returns a tenancy exactly if it is the one of its arguments and is well scoped.
pub make_tenancy_iff :
    (v : Visibility) (o : Option String) (t : Tenancy)
    → (make_tenancy v o ≡ ok t) ↔ ((t ≡ record { visibility = v; tenant_id = o }) × IsWellScoped t)
unfolding make_tenancy
make_tenancy_iff v o t = elim v [
  | public ↦ (λ h. (ground arith, ground arith), λ h. ground arith)
  | private ↦ (λ h. (ground arith, ground arith), λ h. ground arith)
  | internal ↦ (λ h. (ground arith, ground arith), λ h. ground arith)
]

-- Citation is transitive.
pub may_be_cited_by_trans :
    (a b c : Tenancy)
    → may_be_cited_by a b ≡ true
    → may_be_cited_by b c ≡ true
    → may_be_cited_by a c ≡ true
unfolding may_be_cited_by
may_be_cited_by_trans a b c h k =
    ground (arith, same_text_iff a.tenant_id b.tenant_id, same_text_iff b.tenant_id c.tenant_id)
