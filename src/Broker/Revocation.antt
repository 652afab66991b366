-- ===== src/Broker/Revocation.antt =====
-- A revoked grant stays revoked, and a mission's grants go together.
use text.Mathlib.TextLemmas.{append_cancel_left}
use runtime_contracts.Security.{AuthorityContext}
use runtime_contracts.Prelude.{
  ◌||◌, ◌⊎◌, Bool, ℕ, suc, String, true, false, none, some, ℤ, member, ◌==◌, string_eq, ◌≡◌, ◌≢◌,
  refl, sym, subst, ◌∙◌, ok, raise, All-In, Bool-cases, eq_iff, arith, inl, inr, ap, [], ◌∷◌, List,
  ◌≤◌, ◌↔◌, In, here, there, if◌then◌else◌,
}
use runtime_contracts.Canonical.Json.{Dict}
use runtime_contracts.Canonical.Dict.{get, get-put, get-remove, remove}
use runtime_contracts.Canonical.Keys.{some-inj, get→In, In→get, IsKeyed}
use runtime_contracts.Canonical.Value.{Platform}
use runtime_contracts.Credentials.{Calendar, CredentialGrant}
use runtime_contracts.Broker.{
  active_grant, grant, CredentialRequest, Active, Broker, BrokerError, SecretStore, new_broker,
  redeem, revoke_grant, revoke_mission, mission_grants, remove_all, grant_id_of, issue,
}
use runtime_contracts.Broker.History.{popped-get, kept}
use runtime_contracts.Broker.Issued.{
  Step, Steps, IsIssued, IsSound, Steps-IsSound, new_broker-IsSound, grant-returns, redeem-state,
}

other_id : (j k : String) → j ≢ k → (j == k) ≡ false
other_id j k h = ground (arith, eq_iff j k)

mission-member :
    (m k : String) (x : Active) (d : Dict Active)
    → In (k, x) d
    → x.mission_id ≡ m
    → member k (mission_grants m d) ≡ true
unfolding mission_grants
mission-member m k x [] i q = elim i [ ]
mission-member m k x (e ∷ d) here q = rw ((eq_iff x.mission_id m).1 q, (eq_iff k k).1 refl) refl
mission-member m k x (e ∷ d) (there i) q = ground (arith, mission-member m k x d i q)

member-mission :
    (m k : String) (d : Dict Active)
    → member k (mission_grants m d) ≡ true
    → (x : Active) × In (k, x) d × (x.mission_id ≡ m)
unfolding mission_grants
member-mission m k [] h = cc
member-mission m k (e ∷ d) h = elim (listed (e.1.mission_id == m) (mission_grants m d) h) [
  | inl (p, q) ↦ (
    e.1,
    subst (λ y. In (y, e.1) (e ∷ d)) (sym ((eq_iff k e.0).0 q)) here,
    (eq_iff e.1.mission_id m).0 p,
  )
  | inr later ↦ let (x, i, r) = member-mission m k d later in (x, there i, r)
]
  where
    listed :
        (p : Bool) (rest : List String)
        → member k (if p then e.0 ∷ rest else rest) ≡ true
        → ((p ≡ true) × ((k == e.0) ≡ true)) ⊎ (member k rest ≡ true)
    listed true rest h = elim (Bool-cases (k == e.0)) [
      | inl q ↦ inl (refl, q)
      | inr q ↦ inr (subst (λ z. (z || member k rest) ≡ true) q h)
    ]
    listed false rest h = inr h

pub remove_mission_iff :
    (m k : String) (x : Active) (d : Dict Active)
    → IsKeyed d
    → (get k (remove_all (mission_grants m d) d) ≡ some x)
      ↔ ((get k d ≡ some x) × (x.mission_id ≢ m))
remove_mission_iff m k x d w = (
  λ h.
      let (out, found) =
        kept (member k (mission_grants m d)) (get k d) x
          (sym (popped-get k (mission_grants m d) d) ∙ h) in
      (found, λ q. cc (mission-member m k x d (get→In k x d found) q, out)),
  λ (found, other). elim (Bool-cases (member k (mission_grants m d))) [
    | inl p ↦
        let (y, i, q) = member-mission m k d p in
        absurd (other (ap (λ z. z.mission_id) (some-inj (sym found ∙ In→get k y d w i)) ∙ q))
    | inr p ↦ popped-get k (mission_grants m d) d ∙ rw p found
  ],
)

module _ (env : Platform) (cal : Calendar) (store : SecretStore) (six_digits : ℕ → String) where
  -- In a broker that started empty, a grant is active after `revoke_mission` exactly if it was
  -- active before and is of another mission.
  pub revoke_mission_iff :
      (default_ttl : ℤ) (m k : String) (x : Active) (b : Broker)
      → Steps env cal store six_digits (new_broker default_ttl) b
      → (get k (revoke_mission m b).0.active ≡ some x)
        ↔ ((get k b.active ≡ some x) × (x.mission_id ≢ m))
  unfolding revoke_mission
  revoke_mission_iff default_ttl m k x b steps =
      let w : IsSound env cal store six_digits b =
        Steps-IsSound env cal store six_digits steps
          (new_broker-IsSound env cal store six_digits default_ttl) in
      remove_mission_iff m k x b.active w.keys

  -- The grant is not active, and the numbers from now on are not its number.
  record IsSpent (g : String) (b : Broker) : Type 0 where
    gone : get g b.active ≡ none
    number : ℕ
    number_le : number ≤ b.n
    id : g ≡ grant_id_of six_digits number

  gone_dropped : (g k : String) (d : Dict Active) → get g d ≡ none → get g (remove k d) ≡ none
  gone_dropped g k d h = ground (arith, get-remove g k d)

  gone_popped :
      (g : String) (gs : List String) (d : Dict Active)
      → get g d ≡ none
      → get g (remove_all gs d) ≡ none
  gone_popped g gs d h = ground (arith, popped-get g gs d)

  fresh :
      ((i j : ℕ) → six_digits i ≡ six_digits j → i ≡ j)
      → (k n : ℕ) → k ≤ n
      → grant_id_of six_digits k ≢ grant_id_of six_digits (suc n)
  fresh inj k n le q =
      let same =
        inj k (suc n) (append_cancel_left "grant-" (six_digits k) (six_digits (suc n)) q) in
      omega (arith, le, same)

  module _ (inj : (i j : ℕ) → six_digits i ≡ six_digits j → i ≡ j) where
    granted-IsSpent :
        (asked now : ℤ) (r : CredentialRequest) (a : AuthorityContext) (g : String) (b c : Broker)
        (x : CredentialGrant)
        → grant env cal store six_digits asked now r a b ≡ ok (c, x)
        → IsSpent g b
        → IsSpent g c
    unfolding issue
    granted-IsSpent asked now r a g b c x h i =
        let (authorized, chain, made, after) =
          grant-returns env cal store six_digits asked now r a b c x h in
        subst (IsSpent g) (sym after) (record {
          gone =
              get-put g x.grant_id (active_grant x now r) b.active
              ∙ rw
                  (other_id g x.grant_id (λ q.
                    fresh inj i.number b.n i.number_le (sym i.id ∙ q ∙ ap (λ y. y.grant_id) made)))
                  i.gone;
          number = i.number;
          number_le = omega (arith, i.number_le);
          id = i.id;
        })

    Step-IsSpent :
        (g : String) {b c : Broker} → Step env cal store six_digits b c → IsSpent g b → IsSpent g c
    unfolding revoke_grant revoke_mission
    Step-IsSpent g {b} {c} (Step.granted asked now r a x h) i =
        granted-IsSpent asked now r a g b c x h i
    Step-IsSpent g {b} (Step.redeemed now k capability mission) i =
        elim (redeem-state env cal store six_digits now k capability mission b) [
          | inl q ↦ subst (IsSpent g) (sym q) i
          | inr q ↦ subst (IsSpent g) (sym q) (record {
            gone = gone_dropped g k b.active i.gone;
            number = i.number;
            number_le = i.number_le;
            id = i.id;
          })
        ]
    Step-IsSpent g {b} (Step.revoked k) i = record {
      gone = gone_dropped g k b.active i.gone;
      number = i.number;
      number_le = i.number_le;
      id = i.id;
    }
    Step-IsSpent g {b} (Step.mission_revoked m) i = record {
      gone = gone_popped g (mission_grants m b.active) b.active i.gone;
      number = i.number;
      number_le = i.number_le;
      id = i.id;
    }

    Steps-IsSpent :
        (g : String) {b c : Broker} → Steps env cal store six_digits b c → IsSpent g b → IsSpent g c
    Steps-IsSpent g Steps.start i = i
    Steps-IsSpent g (Steps.next s k) i = Step-IsSpent g k (Steps-IsSpent g s i)

    revoked-IsSpent :
        (default_ttl : ℤ) (g : String) (x : Active) (b : Broker)
        → Steps env cal store six_digits (new_broker default_ttl) b
        → get g b.active ≡ some x
        → IsSpent g (revoke_grant g b)
    unfolding revoke_grant
    revoked-IsSpent default_ttl g x b steps found =
        let w : IsSound env cal store six_digits b =
          Steps-IsSound env cal store six_digits steps
            (new_broker-IsSound env cal store six_digits default_ttl) in
        let i =
          All-In (IsIssued env cal store six_digits b.n) w.entries (get→In g x b.active found) in
        record {
          gone = get-remove g g b.active ∙ rw ((eq_iff g g).1 refl) refl;
          number = i.number;
          number_le = i.number_le;
          id = i.key;
        }

    -- If the texts of different numbers differ, a grant that was active in a broker that started
    -- empty and that has been revoked is refused as not active after any further calls, new grants
    -- included.
    pub revoked_is_final :
        (default_ttl now : ℤ) (g capability mission : String) (x : Active) (b c : Broker)
        → Steps env cal store six_digits (new_broker default_ttl) b
        → get g b.active ≡ some x
        → Steps env cal store six_digits (revoke_grant g b) c
        → redeem env cal store six_digits now g capability mission c
          ≡ (c, raise BrokerError.not_active)
    unfolding redeem
    revoked_is_final default_ttl now g capability mission x b c before found steps =
        let i = Steps-IsSpent g steps (revoked-IsSpent default_ttl g x b before found) in
        rw (redeem, i.gone) refl
