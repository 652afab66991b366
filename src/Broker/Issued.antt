-- ===== src/Broker/Issued.antt =====
-- The steps of a broker, and what its active grants come from.
use runtime_contracts.Prelude.{
  ◌⊎◌, ok-inj, ap, List, ℕ, suc, String, false, ℤ, leb_ℤ, ◌==◌, not, ◌||◌, string_eq, ◌≡◌, refl,
  sym, subst, ok, raise, Result, Result-cases, >>=-eq-ok, All, Bool-cases, Option-cases, arith, inl,
  inr, ◌≤◌, [], ◌∷◌,
}
use runtime_contracts.Canonical.Dict.{put, get}
use runtime_contracts.Canonical.Keys.{IsKeyed, put-All, remove-All, put-IsKeyed, remove-IsKeyed}
use runtime_contracts.Canonical.Value.{Platform}
use runtime_contracts.Security.{SecurityError, AuthorityContext}
use runtime_contracts.Credentials.{
  GateDecision, Calendar, CredentialRequest, CredentialGrant, authorize_request,
}
use runtime_contracts.Credentials.Gate.{IsAuthorized, authorize_request_iff}
use runtime_contracts.Broker.{
  redeem_found, remove, refused, authority_invalid, authority_chain, Active, Broker, SecretStore,
  new_broker, grant, redeem, revoke_grant, revoke_mission, admitted, issue, active_grant,
  effective_ttl, grant_id_of, remove_all, mission_grants,
}

module _ (env : Platform) (cal : Calendar) (store : SecretStore) (six_digits : ℕ → String) where
  -- The calls that change a broker.
  pub data Step : Broker → Broker → Type 0 where
    granted :
        {b c : Broker} (asked now : ℤ) (r : CredentialRequest) (a : AuthorityContext)
        (g : CredentialGrant)
        → grant env cal store six_digits asked now r a b ≡ ok (c, g)
        → Step b c
    redeemed :
        {b : Broker} (now : ℤ) (g capability mission : String)
        → Step b (redeem env cal store six_digits now g capability mission b).0
    revoked : {b : Broker} (g : String) → Step b (revoke_grant g b)
    mission_revoked : {b : Broker} (mission : String) → Step b (revoke_mission mission b).0

  pub data Steps (b : Broker) : Broker → Type 0 where
    start : Steps b b
    next : {c d : Broker} → Steps b c → Step c d → Steps b d

  -- The entry is what `grant` has made of an allowed request, under one of the first numbers.
  pub record IsIssued (n : ℕ) (e : String × Active) : Type 0 where
    pub request : CredentialRequest
    pub authority : AuthorityContext
    pub asked : ℤ
    pub issued : ℤ
    pub ttl : ℤ
    pub chain : String
    pub number : ℕ
    pub allowed : IsAuthorized env cal false asked request authority
    pub number_le : number ≤ n
    pub key : e.0 ≡ grant_id_of six_digits number
    pub entry :
        e.1
        ≡ active_grant
            (issue env cal store six_digits number ttl issued chain request authority)
            issued
            request

  later : {e : String × Active} (n : ℕ) → IsIssued n e → IsIssued (suc n) e
  later n i = record {
    request = i.request;
    authority = i.authority;
    asked = i.asked;
    issued = i.issued;
    ttl = i.ttl;
    chain = i.chain;
    number = i.number;
    allowed = i.allowed;
    number_le = omega (arith, i.number_le);
    key = i.key;
    entry = i.entry;
  }

  later_all : (n : ℕ) (d : List (String × Active)) → All (IsIssued n) d → All (IsIssued (suc n)) d
  later_all n [] a = tt
  later_all n (e ∷ d) a = (later n a.0, later_all n d a.1)

  admitted-IsAuthorized :
      (asked : ℤ) (r : CredentialRequest) (a : AuthorityContext)
      → admitted env cal store six_digits asked r a ≡ ok tt
      → IsAuthorized env cal false asked r a
  unfolding admitted
  admitted-IsAuthorized asked r a h =
      (authorize_request_iff env cal false asked r a).0
        (elim (Result-cases (authorize_request env cal false asked r a)) [
          | inl (d, q) ↦ by_verdict d q
          | inr (e, q) ↦ absurd (cc (subst shape q h))
        ])
    where
      shape : Result SecurityError GateDecision → Type 0
      shape m =
          (elim m [
            | ok d ↦ elim d [
              | GateDecision.allowed ↦ ok tt
              | GateDecision.denied x ↦ raise (refused x)
            ]
            | raise e ↦ raise (authority_invalid e)
          ])
          ≡ ok tt

      by_verdict :
          (d : GateDecision)
          → authorize_request env cal false asked r a ≡ ok d
          → authorize_request env cal false asked r a ≡ ok GateDecision.allowed
      by_verdict GateDecision.allowed q = q
      by_verdict (GateDecision.denied x) q = absurd (cc (subst shape q h))

  -- What a call of `grant` that returns has done.
  pub grant-returns :
      (asked now : ℤ) (r : CredentialRequest) (a : AuthorityContext) (b c : Broker)
      (g : CredentialGrant)
      → grant env cal store six_digits asked now r a b ≡ ok (c, g)
      → IsAuthorized env cal false asked r a
        × (chain : String) × (g
            ≡ issue env cal store six_digits
                (suc b.n)
                (effective_ttl b.default_ttl r)
                now
                chain
                r
                a)
        × (c ≡ record b { active = put g.grant_id (active_grant g now r) b.active; n = suc b.n })
  unfolding grant
  grant-returns asked now r a b c g h =
      let (u, p, h1) = >>=-eq-ok (admitted env cal store six_digits asked r a) _ h in
      let (chain, q, h2) = >>=-eq-ok (authority_chain env cal store six_digits a) _ h1 in
      let e = ok-inj h2 in
      (
        admitted-IsAuthorized asked r a p,
        chain,
        sym (ap (λ z. z.1) e),
        subst
            (λ x.
              c ≡ record b { active = put x.grant_id (active_grant x now r) b.active; n = suc b.n })
            (ap (λ z. z.1) e) (sym (ap (λ z. z.0) e)),
      )

  -- The entries are issued, and the keys are distinct.
  pub record IsSound (b : Broker) : Type 0 where
    pub entries : All (IsIssued b.n) b.active
    pub keys : IsKeyed b.active

  all_pop :
      (P : String × Active → Type 0) (gs : List String) (d : List (String × Active))
      → All P d
      → All P (remove_all gs d)
  unfolding remove_all
  all_pop P [] d h = h
  all_pop P (g ∷ gs) d h = all_pop P gs (remove g d) (remove-All P g d h)

  remove_all-IsKeyed :
      (gs : List String) (d : List (String × Active)) → IsKeyed d → IsKeyed (remove_all gs d)
  unfolding remove_all
  remove_all-IsKeyed [] d h = h
  remove_all-IsKeyed (g ∷ gs) d h = remove_all-IsKeyed gs (remove g d) (remove-IsKeyed g d h)

  redeem_found-state :
      (now : ℤ) (g capability mission : String) (b : Broker) (x : Active)
      → ((redeem_found env cal store six_digits now g capability mission b x).0 ≡ b)
        ⊎ ((redeem_found env cal store six_digits now g capability mission b x).0
            ≡ record b { active = remove g b.active })
  unfolding redeem_found
  redeem_found-state now g capability mission b x =
      elim (Bool-cases (not (capability == x.capability_id) || not (mission == x.mission_id))) [
        | inl p ↦ rw p (inl refl)
        | inr p ↦ elim (Bool-cases (leb_ℤ x.expires now)) [
          | inl q ↦ rw (p, q) (inr refl)
          | inr q ↦ rw (p, q) (inl refl)
        ]
      ]

  -- A call of `redeem` leaves the broker as it is, or drops the grant.
  pub redeem-state :
      (now : ℤ) (g capability mission : String) (b : Broker)
      → ((redeem env cal store six_digits now g capability mission b).0 ≡ b)
        ⊎ ((redeem env cal store six_digits now g capability mission b).0
            ≡ record b { active = remove g b.active })
  unfolding redeem
  redeem-state now g capability mission b = elim (Option-cases (get g b.active)) [
    | inl q ↦ rw (redeem, q) (inl refl)
    | inr (x, q) ↦ rw (redeem, q) (redeem_found-state now g capability mission b x)
  ]

  dropped-IsSound :
      (g : String) (b : Broker) → IsSound b → IsSound (record b { active = remove g b.active })
  dropped-IsSound g b w = record {
    entries = remove-All (IsIssued b.n) g b.active w.entries;
    keys = remove-IsKeyed g b.active w.keys;
  }

  granted-IsSound :
      (asked now : ℤ) (r : CredentialRequest) (a : AuthorityContext) (b c : Broker)
      (g : CredentialGrant)
      → grant env cal store six_digits asked now r a b ≡ ok (c, g)
      → IsSound b
      → IsSound c
  unfolding issue
  granted-IsSound asked now r a b c g h w =
      let (authorized, chain, made, after) = grant-returns asked now r a b c g h in
      subst IsSound (sym after) (record {
        entries =
            put-All (IsIssued (suc b.n)) g.grant_id (active_grant g now r) b.active
              (record {
                request = r;
                authority = a;
                asked = asked;
                issued = now;
                ttl = effective_ttl b.default_ttl r;
                chain = chain;
                number = suc b.n;
                allowed = authorized;
                number_le = omega arith;
                key = ap (λ x. x.grant_id) made;
                entry = ap (λ x. active_grant x now r) made;
              })
              (later_all b.n b.active w.entries);
        keys = put-IsKeyed g.grant_id (active_grant g now r) b.active w.keys;
      })

  pub Step-IsSound : {b c : Broker} → Step b c → IsSound b → IsSound c
  unfolding revoke_grant revoke_mission
  Step-IsSound {b} (granted asked now r a g h) w = granted-IsSound asked now r a b _ g h w
  Step-IsSound {b} (redeemed now g capability mission) w =
      elim (redeem-state now g capability mission b) [
        | inl q ↦ subst IsSound (sym q) w
        | inr q ↦ subst IsSound (sym q) (dropped-IsSound g b w)
      ]
  Step-IsSound {b} (revoked g) w = dropped-IsSound g b w
  Step-IsSound {b} (mission_revoked m) w = record {
    entries = all_pop (IsIssued b.n) (mission_grants m b.active) b.active w.entries;
    keys = remove_all-IsKeyed (mission_grants m b.active) b.active w.keys;
  }

  pub Steps-IsSound : {b c : Broker} → Steps b c → IsSound b → IsSound c
  Steps-IsSound start w = w
  Steps-IsSound (next s k) w = Step-IsSound k (Steps-IsSound s w)

  pub new_broker-IsSound : (default_ttl : ℤ) → IsSound (new_broker default_ttl)
  new_broker-IsSound default_ttl = record { entries = tt; keys = tt }
