-- ===== src/Broker/Redemption.antt =====
-- What a secret that `redeem` returns, and a grant that `grant` returns, rest on.
use runtime_contracts.Prelude.Sort.{sort-member}
use runtime_contracts.Prelude.{
  zero, suc, negsuc, ℕ, String, true, false, Option, none, some, ℤ, pos, ◌+ℤ◌, leb_ℤ, member,
  string_eq, string_order, ◌≡◌, ◌≢◌, refl, sym, subst, ok, arith,
}
use runtime_contracts.Canonical.Dict.{get}
use runtime_contracts.Canonical.Keys.{get-put_self}
use runtime_contracts.Canonical.Value.{Platform}
use runtime_contracts.Security.{AuthorityContext, permits_scope}
use runtime_contracts.Credentials.{Calendar, CredentialRequest, CredentialGrant, SecretRef}
use runtime_contracts.Credentials.Gate.{IsAuthorized}
use runtime_contracts.Broker.{
  Active, Broker, SecretStore, grant, issue, active_grant, effective_ttl, seconds, ttl_or, capped,
}
use runtime_contracts.Broker.Issued.{grant-returns}
use runtime_contracts.Broker.History.{IsGranted}

module _ (env : Platform) (cal : Calendar) (store : SecretStore) (six_digits : ℕ → String) where
  -- The active grant allows this call, and the store has its secret.
  record IsRedeemed (now : ℤ) (capability mission : String) (s : store.Material) (x : Active)
      : Type 0 where
    capability_agrees : capability ≡ x.capability_id
    mission_agrees : mission ≡ x.mission_id
    live : leb_ℤ x.expires now ≡ false
    secret : SecretRef
    secret_known : x.ref ≡ some secret
    value : store.read secret ≡ some s

  -- The active grant that is redeemed, the call of `grant` of the history that made it, and what the
  -- two agree on.
  pub record IsEntitled (start : Broker) (now : ℤ) (g capability mission : String) (b : Broker)
      (s : store.Material) : Type 0 where
    pub active : Active
    pub found : get g b.active ≡ some active
    pub granted : IsGranted env cal store six_digits start g active b
    pub allowed :
        IsAuthorized env cal false granted.origin.asked granted.origin.request
          granted.origin.authority
    pub capability_agrees : capability ≡ granted.origin.request.capability_id
    pub mission_agrees : mission ≡ granted.origin.request.mission_id
    pub live : leb_ℤ (granted.origin.now +ℤ seconds granted.origin.result.ttl_seconds) now ≡ false
    pub secret : SecretRef
    pub secret_known : granted.origin.request.requirement.secret_ref ≡ some secret
    pub value : store.read secret ≡ some s

-- Python's `min` on a bound that is there, and `or` on a time to live that is not 0.
capped_le : (limit t : ℤ) → leb_ℤ (capped (some limit) t) limit ≡ true
capped_le limit t = ground arith

capped_le_self : (limit : Option ℤ) (t : ℤ) → leb_ℤ (capped limit t) t ≡ true
capped_le_self none t = ground arith
capped_le_self (some l) t = ground arith

ttl_or_given : (t d : ℤ) → t ≢ pos 0 → ttl_or (some t) d ≡ t
ttl_or_given (pos zero) d h = absurd (h refl)
ttl_or_given (pos (suc n)) d h = refl
ttl_or_given (negsuc n) d h = refl

effective_ttl_le :
    (d limit : ℤ) (r : CredentialRequest)
    → r.requirement.max_ttl_seconds ≡ some limit
    → leb_ℤ (effective_ttl d r) limit ≡ true
unfolding effective_ttl
effective_ttl_le d limit r h =
    rw h (capped_le limit (ttl_or r.requested_ttl_seconds (ttl_or (some limit) d)))

effective_ttl_le_requested :
    (d t : ℤ) (r : CredentialRequest)
    → r.requested_ttl_seconds ≡ some t
    → t ≢ pos 0
    → leb_ℤ (effective_ttl d r) t ≡ true
unfolding effective_ttl
effective_ttl_le_requested d t r h k =
    let back = ttl_or r.requirement.max_ttl_seconds d in
    subst (λ o. leb_ℤ (capped r.requirement.max_ttl_seconds (ttl_or o back)) t ≡ true) (sym h)
      (subst (λ x. leb_ℤ (capped r.requirement.max_ttl_seconds x) t ≡ true)
        (sym (ttl_or_given t back k)) (capped_le_self r.requirement.max_ttl_seconds t))

module _ (env : Platform) (cal : Calendar) (store : SecretStore) (six_digits : ℕ → String) where
  -- The grant stays within the authority and within both bounds on its time to live.
  pub record IsBounded (r : CredentialRequest) (a : AuthorityContext) (g : CredentialGrant)
      : Type 0 where
    pub scopes : (s : String) → member s g.scope ≡ true → permits_scope a s ≡ true
    pub ttl_limit :
        (limit : ℤ) → r.requirement.max_ttl_seconds ≡ some limit → leb_ℤ g.ttl_seconds limit ≡ true
    pub ttl_requested :
        (t : ℤ) → r.requested_ttl_seconds ≡ some t → t ≢ pos 0 → leb_ℤ g.ttl_seconds t ≡ true

  -- If `grant` returns a grant, the authority permits each of its scopes, its time to live is at
  -- most the limit of the requirement and at most the requested one unless that is 0, and it is
  -- active until that time from now has passed.
  pub grant-IsBounded :
      (asked now : ℤ) (r : CredentialRequest) (a : AuthorityContext) (b c : Broker)
      (g : CredentialGrant)
      → grant env cal store six_digits asked now r a b ≡ ok (c, g)
      → IsBounded r a g × (get g.grant_id c.active ≡ some (active_grant g now r))
  unfolding issue get
  grant-IsBounded asked now r a b c g h =
      let (authorized, chain, made, after) =
        grant-returns env cal store six_digits asked now r a b c g h in
      (
        record {
          scopes = λ s m. authorized.bound.scopes s (
              sort-member s r.requirement.required_scopes
                (subst (λ x. member s x.scope ≡ true) made m));
          ttl_limit = λ limit q.
              subst (λ x. leb_ℤ x.ttl_seconds limit ≡ true) (sym made)
                (effective_ttl_le b.default_ttl limit r q);
          ttl_requested = λ t q k.
              subst (λ x. leb_ℤ x.ttl_seconds t ≡ true) (sym made)
                (effective_ttl_le_requested b.default_ttl t r q k);
        },
        subst (λ x. get g.grant_id x.active ≡ some (active_grant g now r)) (sym after)
            (get-put_self g.grant_id (active_grant g now r) b.active),
      )
