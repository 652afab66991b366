-- ===== src/Broker/History.antt =====
-- Where an active grant of a broker comes from: the call that made it, and the calls since.
use runtime_contracts.Prelude.{
  ◌⊎◌, Bool, ℕ, String, true, false, Option, none, some, ℤ, member, ◌==◌, string_eq, ◌≡◌, refl, sym,
  subst, ◌∙◌, ok, Bool-cases, eq_iff, arith, inl, inr, ap, [], ◌∷◌, List, if◌then◌else◌,
}
use runtime_contracts.Canonical.Json.{Dict}
use runtime_contracts.Canonical.Dict.{get, get-put, get-remove, remove}
use runtime_contracts.Canonical.Keys.{some-inj}
use runtime_contracts.Canonical.Value.{Platform}
use runtime_contracts.Security.{AuthorityContext}
use runtime_contracts.Credentials.{Calendar, CredentialGrant, CredentialRequest}
use runtime_contracts.Broker.{
  active_grant, grant, Active, Broker, SecretStore, revoke_grant, revoke_mission, mission_grants,
  remove_all,
}
use runtime_contracts.Broker.Issued.{Step, Steps, grant-returns, redeem-state}

pub popped-get :
    (k : String) (gs : List String) (d : Dict Active)
    → get k (remove_all gs d) ≡ (if member k gs then none else get k d)
unfolding remove_all
popped-get k [] d = refl
popped-get k (g ∷ gs) d = ground (arith, popped-get k gs (remove g d), get-remove k g d)

pub kept :
    {A : Type 0} (p : Bool) (o : Option A) (x : A)
    → (if p then none else o) ≡ some x
    → (p ≡ false) × (o ≡ some x)
kept true o x h = cc
kept false o x h = (refl, h)

left_by_remove :
    (g k : String) (x : Active) (d : Dict Active) → get g (remove k d) ≡ some x → get g d ≡ some x
left_by_remove g k x d h = (kept (g == k) (get g d) x (sym (get-remove g k d) ∙ h)).1

module _ (env : Platform) (cal : Calendar) (store : SecretStore) (six_digits : ℕ → String) where
  -- This call of `grant` made the entry of `g`.
  pub record IsMade (g : String) (x : Active) (b c : Broker) : Type 0 where
    pub asked : ℤ
    pub now : ℤ
    pub request : CredentialRequest
    pub authority : AuthorityContext
    pub result : CredentialGrant
    pub call : grant env cal store six_digits asked now request authority b ≡ ok (c, result)
    pub id : result.grant_id ≡ g
    pub entry : x ≡ active_grant result now request

  -- The entry of `g` is the same after each of these calls.
  pub data Keeps (g : String) (x : Active) (b : Broker) : Broker → Type 0 where
    made : get g b.active ≡ some x → Keeps g x b b
    stays :
        {c d : Broker}
        → Keeps g x b c
        → Step env cal store six_digits c d
        → get g d.active ≡ some x
        → Keeps g x b d

  -- Between the two brokers, a call of `grant` made the entry of `g`, which has stayed since.
  pub record IsGranted (start : Broker) (g : String) (x : Active) (b : Broker) : Type 0 where
    pub before : Broker
    pub after : Broker
    pub earlier : Steps env cal store six_digits start before
    pub origin : IsMade g x before after
    pub since : Keeps g x after b

  granted-found :
      (asked now : ℤ) (r : CredentialRequest) (a : AuthorityContext) (b c : Broker)
      (y : CredentialGrant) (g : String) (x : Active)
      → grant env cal store six_digits asked now r a b ≡ ok (c, y)
      → get g c.active ≡ some x
      → (get g b.active ≡ some x) ⊎ IsMade g x b c
  granted-found asked now r a b c y g x h found =
      let (authorized, chain, shape, after) =
        grant-returns env cal store six_digits asked now r a b c y h in
      let looked =
        sym (get-put g y.grant_id (active_grant y now r) b.active)
        ∙ sym (ap (λ z. get g z.active) after)
        ∙ found in
      elim (Bool-cases (g == y.grant_id)) [
        | inl p ↦ inr (record {
          asked = asked;
          now = now;
          request = r;
          authority = a;
          result = y;
          call = h;
          id = sym ((eq_iff g y.grant_id).0 p);
          entry = sym (some-inj (rw p at looked));
        })
        | inr p ↦ inl (rw p at looked)
      ]

  Step-found :
      (b c : Broker) (g : String) (x : Active)
      → Step env cal store six_digits b c
      → get g c.active ≡ some x
      → (get g b.active ≡ some x) ⊎ IsMade g x b c
  unfolding revoke_grant revoke_mission
  Step-found b c g x (Step.granted asked now r a y h) found =
      granted-found asked now r a b c y g x h found
  Step-found b c g x (Step.redeemed now k capability mission) found =
      elim (redeem-state env cal store six_digits now k capability mission b) [
        | inl q ↦ inl (subst (λ z. get g z.active ≡ some x) q found)
        | inr q ↦ inl (left_by_remove g k x b.active (subst (λ z. get g z.active ≡ some x) q found))
      ]
  Step-found b c g x (Step.revoked k) found = inl (left_by_remove g k x b.active found)
  Step-found b c g x (Step.mission_revoked m) found =
      let gs = mission_grants m b.active in
      inl (kept (member g gs) (get g b.active) x (sym (popped-get g gs b.active) ∙ found)).1

  -- What is active was granted on the way, and has been active since.
  pub Steps-IsGranted :
      (start b : Broker) (g : String) (x : Active)
      → Steps env cal store six_digits start b
      → get g start.active ≡ none
      → get g b.active ≡ some x
      → IsGranted start g x b
  Steps-IsGranted start b g x Steps.start empty found = absurd (cc (empty, found))
  Steps-IsGranted start b g x (Steps.next {c} s k) empty found = elim (Step-found c b g x k found) [
    | inl old ↦
        let i = Steps-IsGranted start c g x s empty old in
        record {
          before = i.before;
          after = i.after;
          earlier = i.earlier;
          origin = i.origin;
          since = Keeps.stays i.since k found;
        }
    | inr new ↦ record {
      before = c;
      after = b;
      earlier = s;
      origin = new;
      since = Keeps.made found;
    }
  ]
