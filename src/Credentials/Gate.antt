-- ===== src/Credentials/Gate.antt =====
-- When the gate of protocol/secrets.py lets a request pass.
use runtime_contracts.Prelude.{
  if◌then◌else◌, ◌>>=◌, String, true, false, List, [], ◌∷◌, Option, none, some, ℤ, leb_ℤ, truthy,
  member, string_eq, ◌≡◌, ◌↔◌, ◌⊎◌, inl, inr, ◌==◌, not, ◌&&◌, subst, sym, ◌∙◌, ok-inj, refl, arith,
  eq_iff, ok, Bool, Bool-cases, Result-cases,
}
use runtime_contracts.Canonical.Value.{Platform}
use runtime_contracts.Security.{AuthorityContext, permits_scope, chain_ref}
use runtime_contracts.Credentials.{
  denied, SecurityError, Result, is_unbound, has_no_tenant, has_other_tenant, DenyReason,
  GateDecision, deny_if, scope_verdict, binding_verdict, CredentialRequest, Calendar, allowed,
  is_authority_expired, foreign_secret, over_ttl, not_permitted_scopes, authorize_request,
}

permitted_iff :
    (a : AuthorityContext) (ss : List String)
    → (not_permitted_scopes a ss ≡ [])
      ↔ ((s : String) → member s ss ≡ true → permits_scope a s ≡ true)
unfolding not_permitted_scopes
permitted_iff a [] = (λ _ s m. cc, λ _. refl)
permitted_iff a (s ∷ ss) = elim (Bool-cases (permits_scope a s)) [
  | inl good ↦
      let (f, g) = permitted_iff a ss in
      (
        λ h x m. elim (Bool-cases (x == s)) [
          | inl same ↦ rw ((eq_iff x s).0 same) good
          | inr other ↦ f (ground arith) x (ground arith)
        ],
        λ k. ground (arith, g (λ x m. k x (ground arith))),
      )
  | inr bad ↦
      (λ h. absurd (ground arith), λ k. absurd (ground (arith, k s (ground (arith, eq_iff s s)))))
]

over_ttl_iff :
    (max asked : Option ℤ)
    → (over_ttl max asked ≡ none)
      ↔ ((limit ttl : ℤ) → max ≡ some limit → asked ≡ some ttl → leb_ℤ ttl limit ≡ true)
over_ttl_iff none asked = (λ _ l t p q. cc, λ _. refl)
over_ttl_iff (some l) none = (λ _ l t p q. cc, λ _. refl)
over_ttl_iff (some l) (some t) = (λ h l' t' p q. ground arith, λ k. ground (arith, k l t refl refl))

peel :
    (b : Bool) (r : DenyReason) {v : GateDecision}
    → deny_if b r v ≡ allowed
    → (b ≡ false) × (v ≡ allowed)
peel true r h = cc
peel false r h = (refl, h)

wrap :
    (b : Bool) (r : DenyReason) {v : GateDecision}
    → b ≡ false
    → v ≡ allowed
    → deny_if b r v ≡ allowed
wrap true r h k = cc
wrap false r h k = k

and_not : (p q : Bool) → (p ≡ true → q ≡ true) → (p && not q) ≡ false
and_not true q h = rw (h refl) refl
and_not false q h = refl

scope_verdict_iff :
    (ss : List String) (t : Option DenyReason)
    → (scope_verdict ss t ≡ allowed) ↔ ((ss ≡ []) × (t ≡ none))
scope_verdict_iff [] none = (λ h. (refl, refl), λ k. refl)
scope_verdict_iff [] (some r) = (λ h. cc, λ k. cc)
scope_verdict_iff (s ∷ ss) t = (λ h. cc, λ k. cc)

-- The request names the authority by its id or its chain and has its tenant, and asks for nothing
-- that the authority does not permit nor the requirement allows.
pub record IsBound (chain : String) (r : CredentialRequest) (a : AuthorityContext) : Type 0 where
  pub named : (r.authority_context_id ≡ a.authority_id) ⊎ (r.authority_context_id ≡ chain)
  pub tenant_given : truthy r.tenant_id ≡ true
  pub tenant_agrees : r.tenant_id ≡ a.principal.tenant
  pub secret_own : foreign_secret r.requirement.secret_ref r.tenant_id ≡ false
  pub scopes :
      (s : String) → member s r.requirement.required_scopes ≡ true → permits_scope a s ≡ true
  pub ttl :
      (limit ttl : ℤ)
      → r.requirement.max_ttl_seconds ≡ some limit
      → r.requested_ttl_seconds ≡ some ttl
      → leb_ℤ ttl limit ≡ true

module _ (chain : String) (r : CredentialRequest) (a : AuthorityContext) where
  verdict_iff :
      (scope_verdict
          (not_permitted_scopes a r.requirement.required_scopes)
          (over_ttl r.requirement.max_ttl_seconds r.requested_ttl_seconds)
        ≡ allowed)
      ↔ ((not_permitted_scopes a r.requirement.required_scopes ≡ [])
          × (over_ttl r.requirement.max_ttl_seconds r.requested_ttl_seconds ≡ none))
  verdict_iff =
      scope_verdict_iff (not_permitted_scopes a r.requirement.required_scopes)
        (over_ttl r.requirement.max_ttl_seconds r.requested_ttl_seconds)

  binding_verdict-IsBound : binding_verdict chain r a ≡ allowed → IsBound chain r a
  unfolding binding_verdict
  binding_verdict-IsBound h =
      let (named, h1) = peel (is_unbound chain r a) DenyReason.authority_mismatch h in
      let (given, h2) = peel (has_no_tenant r a) DenyReason.tenant_mismatch h1 in
      let (agrees, h3) = peel (has_other_tenant r a) DenyReason.tenant_mismatch h2 in
      let (own, h4) =
        peel (foreign_secret r.requirement.secret_ref r.tenant_id) DenyReason.tenant_mismatch h3 in
      let (granted, short) = (verdict_iff).0 h4 in
      let same : r.tenant_id ≡ a.principal.tenant =
        ground (arith, agrees, eq_iff r.tenant_id a.principal.tenant) in
      record {
        named = ground (
          arith,
          named,
          eq_iff r.authority_context_id a.authority_id,
          eq_iff r.authority_context_id chain,
        );
        tenant_given = ground (arith, given, same);
        tenant_agrees = same;
        secret_own = own;
        scopes = (permitted_iff a r.requirement.required_scopes).0 granted;
        ttl = (over_ttl_iff r.requirement.max_ttl_seconds r.requested_ttl_seconds).0 short;
      }

  IsBound-binding_verdict : IsBound chain r a → binding_verdict chain r a ≡ allowed
  unfolding binding_verdict
  IsBound-binding_verdict k =
      wrap (is_unbound chain r a) DenyReason.authority_mismatch (named_test k.named) (
        wrap (has_no_tenant r a) DenyReason.tenant_mismatch (ground (arith, k.tenant_given)) (
          wrap (has_other_tenant r a) DenyReason.tenant_mismatch
            (ground (arith, eq_iff r.tenant_id a.principal.tenant, k.tenant_agrees))
            (wrap (foreign_secret r.requirement.secret_ref r.tenant_id) DenyReason.tenant_mismatch
              k.secret_own
              ((verdict_iff).1 (
                (permitted_iff a r.requirement.required_scopes).1 k.scopes,
                (over_ttl_iff r.requirement.max_ttl_seconds r.requested_ttl_seconds).1 k.ttl,
              )))))
    where
      named_test :
          (r.authority_context_id ≡ a.authority_id) ⊎ (r.authority_context_id ≡ chain)
          → (not (r.authority_context_id == a.authority_id)
              && not (r.authority_context_id == chain))
            ≡ false
      named_test h = ground (
        arith,
        h,
        eq_iff r.authority_context_id a.authority_id,
        eq_iff r.authority_context_id chain,
      )

guards_pass :
    (b c : Bool) (x y : DenyReason) (m : Result SecurityError GateDecision)
    → (if b then ok (denied x) else if c then ok (denied y) else m) ≡ ok allowed
    → (b ≡ false) × (c ≡ false) × (m ≡ ok allowed)
guards_pass true c x y m h = cc
guards_pass false true x y m h = cc
guards_pass false false x y m h = (refl, refl, h)

need_broker : (p q : Bool) → (p && not q) ≡ false → p ≡ true → q ≡ true
need_broker true true h k = refl
need_broker true false h k = cc
need_broker false q h k = cc

module _ (env : Platform) (cal : Calendar) where
  -- The broker and the authority may answer the request, and the request is bound to the authority.
  pub record IsAuthorized (production : Bool) (now : ℤ) (r : CredentialRequest)
      (a : AuthorityContext) : Type 0 where
    pub broker : r.requirement.production_broker_required ≡ true → production ≡ true
    pub live : is_authority_expired cal a.expires_at now ≡ false
    pub chain : String
    pub chain_known : chain_ref env a ≡ ok chain
    pub bound : IsBound chain r a

  -- A request is allowed exactly if its need of a production broker is met, the authority has not
  -- expired, the chain of the authority has a hash, and the request is bound to it: it names it,
  -- its tenant is given and is the authority's, the secret is not of another tenant, every required
  -- scope is permitted, and the time to live is within the limit.
  pub authorize_request_iff :
      (production : Bool) (now : ℤ) (r : CredentialRequest) (a : AuthorityContext)
      → (authorize_request env cal production now r a ≡ ok allowed)
        ↔ IsAuthorized production now r a
  unfolding authorize_request
  authorize_request_iff production now r a = elim (Result-cases (chain_ref env a)) [
    | inl (c, q) ↦ (
      λ h.
          let (b, l, m) =
            guards_pass (r.requirement.production_broker_required && not production)
              (is_authority_expired cal a.expires_at now) DenyReason.production_broker_required
              DenyReason.authority_expired (do x ← chain_ref env a; ok (binding_verdict x r a)) h in
          record {
            broker = need_broker r.requirement.production_broker_required production b;
            live = l;
            chain = c;
            chain_known = q;
            bound =
                binding_verdict-IsBound c r a
                  (ok-inj (subst (λ z. (do x ← z; ok (binding_verdict x r a)) ≡ ok allowed) q m));
          },
      λ k.
          let same : k.chain ≡ c = ok-inj (sym k.chain_known ∙ q) in
          let passes : binding_verdict c r a ≡ allowed =
            IsBound-binding_verdict c r a (subst (λ x. IsBound x r a) same k.bound) in
          rw
            (
              and_not r.requirement.production_broker_required production k.broker,
              k.live,
              q,
              passes,
            )
            refl,
    )
    | inr (e, q) ↦ (
      λ h.
          let (b, l, m) =
            guards_pass (r.requirement.production_broker_required && not production)
              (is_authority_expired cal a.expires_at now) DenyReason.production_broker_required
              DenyReason.authority_expired (do x ← chain_ref env a; ok (binding_verdict x r a)) h in
          absurd (cc (subst (λ z. (do x ← z; ok (binding_verdict x r a)) ≡ ok allowed) q m)),
      λ k. absurd (cc (k.chain_known, q)),
    )
  ]
