-- ===== src/Security/Delegation.antt =====
-- Delegation of protocol/security.py: what a child may do, and what a chain of them may do.
use runtime_contracts.Prelude.{
  pos, ◌+ℤ◌, String, Bool, true, false, List, [], ◌∷◌, ◌++◌, all, Option, none, some, All, member,
  member-append, ◌==◌, string_eq, string_order, str_le_trans, ◌≡◌, refl, arith, eq_iff, ok,
  >>=-eq-ok, Result-cases, subst, Bool-cases, inl, inr,
}
use runtime_contracts.Canonical.Value.{Platform}
use runtime_contracts.Canonical.Decimal.{Decimal}
use runtime_contracts.Canonical.Unique.{member-sorted_unique}
use runtime_contracts.Security.{
  sorted_set, AuthorityContext, Narrowing, CostOrder, wildcard, permits_scope, covers_scope,
  keeps_all, outlasts, over_cost, digest_of, narrow, verify_link, verify_links, verify_chain,
  unless_none, child_cost,
}

all-member :
    (q : String → Bool) (xs : List String) (x : String)
    → all q xs ≡ true
    → member x xs ≡ true
    → q x ≡ true
all-member q [] x h m = cc
all-member q (y ∷ ys) x h m = elim (Bool-cases (x == y)) [
  | inl e ↦ rw ((eq_iff x y).0 e) (ground arith)
  | inr e ↦ all-member q ys x (ground arith) (ground arith)
]

-- What a scope covers, it also permits: a child that holds the wildcard has it from its parent.
covered :
    (a c : AuthorityContext) (p : String)
    → covers_scope a c.scope ≡ true
    → permits_scope c p ≡ true
    → permits_scope a p ≡ true
unfolding covers_scope
covered a c p h k = ground (
  arith,
  all-member (λ s. permits_scope a s) c.scope wildcard h,
  all-member (λ s. permits_scope a s) c.scope p h,
)

all-intro :
    (q : String → Bool) (xs : List String)
    → ((x : String) → member x xs ≡ true → q x ≡ true)
    → all q xs ≡ true
all-intro q [] h = refl
all-intro q (x ∷ xs) h =
    ground (arith, h x (ground (arith, eq_iff x x)), all-intro q xs (λ y m. h y (ground arith)))

outlasts_trans :
    (a b c : String) → outlasts a b ≡ false → outlasts b c ≡ false → outlasts a c ≡ false
outlasts_trans a b c h k = ground (arith, str_le_trans c b a)

module _ (env : Platform) (costs : CostOrder) where
  -- A child may do nothing that its parent may not, keeps its constraints, stays within its budget
  -- and does not outlast it.
  pub record IsWithin (a c : AuthorityContext) : Type 0 where
    pub permissions : (p : String) → permits_scope c p ≡ true → permits_scope a p ≡ true
    pub constraints : (k : String) → member k a.constraints ≡ true → member k c.constraints ≡ true
    pub budget : over_cost costs a.max_cost c.max_cost ≡ ok false
    pub expiry : outlasts a.expires_at c.expires_at ≡ false

  verify_link-IsWithin : (a c : AuthorityContext) → verify_link env costs a c ≡ ok tt → IsWithin a c
  unfolding verify_link
  verify_link-IsWithin a c h = record {
    permissions = λ p. covered a c p (ground arith);
    constraints = λ k. all-member (λ s. member s c.constraints) a.constraints k (ground arith);
    budget = ground arith;
    expiry = ground arith;
  }

  abbrev child : AuthorityContext → Narrowing → String → AuthorityContext
  child a n d = record {
    authority_id = n.authority_id;
    principal = unless_none n.principal a.principal;
    purpose = unless_none n.purpose a.purpose;
    scope = unless_none n.scope a.scope;
    constraints = sorted_set (a.constraints ++ n.constraints);
    max_cost = child_cost n.max_cost a.max_cost;
    expires_at = unless_none n.expires_at a.expires_at;
    parent_digest = d;
    depth = a.depth +ℤ pos 1;
  }

  kept_constraints :
      (a : AuthorityContext) (n : Narrowing)
      → keeps_all a.constraints (sorted_set (a.constraints ++ n.constraints)) ≡ true
  kept_constraints a n =
      all-intro (λ k. member k (sorted_set (a.constraints ++ n.constraints))) a.constraints
        (λ k m. ground (
          arith,
          member-sorted_unique k (a.constraints ++ n.constraints),
          member-append k a.constraints n.constraints,
        ))

  -- If `narrow` returns an authority, the link from the parent to it passes the check of
  -- `verify_chain`.
  pub narrow-verify_link :
      (a : AuthorityContext) (n : Narrowing) {c : AuthorityContext}
      → narrow env costs a n ≡ ok c
      → verify_link env costs a c ≡ ok tt
  unfolding narrow verify_link
  narrow-verify_link a n {c} h = elim (Result-cases (digest_of env a)) [
    | inl (d, q) ↦
        let same : child a n d ≡ c = ground arith in
        subst (λ x. verify_link env costs a x ≡ ok tt) same
          (ground (arith, eq_iff d d, kept_constraints a n))
    | inr (e, q) ↦ absurd (ground arith)
  ]

  module _
      (exceeds_trans : (p q r : Decimal)
        → costs.exceeds q p ≡ ok false
        → costs.exceeds r q ≡ ok false
        → costs.exceeds r p ≡ ok false) where
    over_cost_trans :
        (p q r : Option Decimal)
        → over_cost costs p q ≡ ok false
        → over_cost costs q r ≡ ok false
        → over_cost costs p r ≡ ok false
    unfolding over_cost
    over_cost_trans none q r h k = refl
    over_cost_trans (some p) none r h k = cc
    over_cost_trans (some p) (some q) none h k = cc
    over_cost_trans (some p) (some q) (some r) h k = exceeds_trans p q r h k

    IsWithin-trans : (a b c : AuthorityContext) → IsWithin a b → IsWithin b c → IsWithin a c
    IsWithin-trans a b c h k = record {
      permissions = λ p q. h.permissions p (k.permissions p q);
      constraints = λ s q. k.constraints s (h.constraints s q);
      budget = over_cost_trans a.max_cost b.max_cost c.max_cost h.budget k.budget;
      expiry = outlasts_trans a.expires_at b.expires_at c.expires_at h.expiry k.expiry;
    }

    links-IsWithin :
        (a b : AuthorityContext) (chain : List AuthorityContext)
        → IsWithin a b
        → verify_links env costs b chain ≡ ok tt
        → All (IsWithin a) chain
    unfolding verify_links
    links-IsWithin a b [] w h = tt
    links-IsWithin a b (c ∷ chain) w h =
        let (x, p, q) =
          >>=-eq-ok (verify_link env costs b c) (λ _. verify_links env costs c chain) h in
        let step = IsWithin-trans a b c w (verify_link-IsWithin b c p) in
        (step, links-IsWithin a c chain step q)

    -- If costs that do not exceed each other chain, every authority of a chain that `verify_chain`
    -- accepts is within the root: it permits no more, keeps the constraints of the root, and
    -- exceeds neither its budget nor, as texts, its expiry.
    pub verify_chain_sound :
        (root : AuthorityContext) (chain : List AuthorityContext)
        → verify_chain env costs (root ∷ chain) ≡ ok tt
        → All (IsWithin root) chain
    unfolding verify_chain verify_links
    verify_chain_sound root [] h = tt
    verify_chain_sound root (c ∷ chain) h =
        let links : verify_links env costs root (c ∷ chain) ≡ ok tt = ground arith in
        let (x, p, q) =
          >>=-eq-ok (verify_link env costs root c) (λ _. verify_links env costs c chain) links in
        let first = verify_link-IsWithin root c p in (first, links-IsWithin root c chain first q)
