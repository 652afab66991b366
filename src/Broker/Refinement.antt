-- ===== src/Broker/Refinement.antt =====
-- A broker keeps what the wallet that it stands for promises.
use mathlib.Core.Path.{fun_ext}
use runtime_contracts.Prelude.{
  ℕ, suc, String, not, ◌||◌, List, [], ◌∷◌, some, ℤ, leb_ℤ, ◌==◌, string_eq, if◌then◌else◌,
  Result-cases, Option-cases, Bool-cases, ok, raise, ◌≡◌, refl, sym, ap, inl, inr, eq_iff,
}
use runtime_contracts.Canonical.Json.{Dict}
use runtime_contracts.Canonical.Dict.{get, get-put, get-remove, put, remove}
use runtime_contracts.Canonical.Keys.{IsKeyed}
use runtime_contracts.Canonical.Value.{Platform}
use runtime_contracts.Security.{AuthorityContext}
use runtime_contracts.Credentials.{Calendar, CredentialRequest, CredentialGrant}
use runtime_contracts.Broker.{
  BrokerError, SecretStore, Active, Broker, new_broker, active_grant, admitted, authority_chain,
  effective_ttl, issue, grant, redeem, redeem_found, revoke_grant, revoke_mission, remove_all,
  mission_grants,
}
use runtime_contracts.Broker.Issued.{Step, IsSound, Step-IsSound, new_broker-IsSound}
use runtime_contracts.Broker.Revocation.{remove_mission_iff}
use runtime_contracts.Broker.Wallet.{
  Call, Wallet, new_wallet, view, forget, unless, Answer, answered, perform, redeem_held,
  grant_held, promised, performed, all_promised,
}

mission_left :
    (m j : String) (d : Dict Active)
    → IsKeyed d
    → unless m (get j d) ≡ get j (remove_all (mission_grants m d) d)
mission_left m j d w = elim (Option-cases (get j (remove_all (mission_grants m d) d))) [
  | inl gone ↦ elim (Option-cases (get j d)) [
    | inl p ↦ rw (p, gone) refl
    | inr (x, p) ↦ elim (Bool-cases (x.mission_id == m)) [
      | inl q ↦ rw (p, gone, q) refl
      | inr q ↦
          let back =
            (remove_mission_iff m j x d w).1 (p, λ same. cc ((eq_iff x.mission_id m).1 same, q)) in
          absurd (cc (gone, back))
    ]
  ]
  | inr (x, left) ↦
      let (p, other) = (remove_mission_iff m j x d w).0 left in
      elim (Bool-cases (x.mission_id == m)) [
        | inl q ↦ absurd (other ((eq_iff x.mission_id m).0 q))
        | inr q ↦ rw (p, left, q) refl
      ]
]

module _ (env : Platform) (cal : Calendar) (store : SecretStore) (six_digits : ℕ → String) where
  forget-view :
      (g : String) (b : Broker) → forget g (view b) ≡ view (record b { active = remove g b.active })
  forget-view g b =
      ap (λ h. record (view b) { holds = h }) (fun_ext (λ j. sym (get-remove j g b.active)))

  redeem-view :
      (now : ℤ) (g capability mission : String) (b : Broker)
      → redeem_held env cal store six_digits now g capability mission (view b) (get g b.active) ≡ (
        view (redeem env cal store six_digits now g capability mission b).0,
        (redeem env cal store six_digits now g capability mission b).1,
      )
  unfolding redeem redeem_held redeem_found
  redeem-view now g capability mission b = elim (Option-cases (get g b.active)) [
    | inl p ↦ rw (redeem, p) refl
    | inr (x, p) ↦
        elim (Bool-cases (not (capability == x.capability_id) || not (mission == x.mission_id))) [
          | inl q ↦ rw (redeem, p, q) refl
          | inr q ↦ elim (Bool-cases (leb_ℤ x.expires now)) [
            | inl r ↦
                rw (redeem, p, q, r)
                  (ap (λ w. (w, raise BrokerError.grant_expired)) (forget-view g b))
            | inr r ↦ rw (redeem, p, q, r) refl
          ]
        ]
  ]

  put-view :
      (x : CredentialGrant) (y : Active) (b : Broker)
      → ◌≡◌ {A = Wallet × Answer env cal store six_digits}
          (
            record (view b) {
              issued = suc b.n;
              holds = λ j. if j == x.grant_id then some y else get j b.active;
            },
            Answer.granted (ok x),
          )
          (
            view (record b { active = put x.grant_id y b.active; n = suc b.n }),
            Answer.granted (ok x),
          )
  put-view x y b =
      ap (λ h. (record (view b) { issued = suc b.n; holds = h }, Answer.granted (ok x)))
        (fun_ext (λ j. sym (get-put j x.grant_id y b.active)))

  grant-view :
      (asked now : ℤ) (r : CredentialRequest) (a : AuthorityContext) (b : Broker)
      → answered env cal store six_digits
          (view b)
          (grant_held env cal store six_digits asked now r a (view b))
        ≡ (
          view
              (answered env cal store six_digits b
                (grant env cal store six_digits asked now r a b)).0,
          (answered env cal store six_digits b (grant env cal store six_digits asked now r a b)).1,
        )
  unfolding grant grant_held
  grant-view asked now r a b = elim (Result-cases (admitted env cal store six_digits asked r a)) [
    | inl (u, p) ↦ elim (Result-cases (authority_chain env cal store six_digits a)) [
      | inl (chain, q) ↦
          let x =
            issue env cal store six_digits (suc b.n) (effective_ttl b.default_ttl r) now chain r
              a in
          rw (p, q) (put-view x (active_grant x now r) b)
      | inr (e, q) ↦ rw (p, q) refl
    ]
    | inr (e, p) ↦ rw p refl
  ]

  -- One call: the wallet of the broker after it is the one promised, and so is the answer.
  perform-view :
      (k : Call) (b : Broker)
      → IsSound env cal store six_digits b
      → promised env cal store six_digits k (view b)
        ≡ (view (perform env cal store six_digits k b).0, (perform env cal store six_digits k b).1)
  unfolding perform promised revoke_grant revoke_mission
  perform-view (Call.granting asked now r a) b w = grant-view asked now r a b
  perform-view (Call.redeeming now g capability mission) b w =
      ap (λ z. (z.0, Answer.redeemed z.1)) (redeem-view now g capability mission b)
  perform-view (Call.revoking g) b w = ap (λ z. (z, Answer.done)) (forget-view g b)
  perform-view (Call.mission_revoking m) b w =
      ap (λ h. (record (view b) { holds = h }, Answer.done))
        (fun_ext (λ j. mission_left m j b.active w.keys))

  perform-IsSound :
      (k : Call) (b : Broker)
      → IsSound env cal store six_digits b
      → IsSound env cal store six_digits (perform env cal store six_digits k b).0
  unfolding perform
  perform-IsSound (Call.granting asked now r a) b w =
      elim (Result-cases (grant env cal store six_digits asked now r a b)) [
        | inl (made, p) ↦
            rw p (Step-IsSound env cal store six_digits (Step.granted asked now r a made.1 p) w)
        | inr (e, p) ↦ rw p w
      ]
  perform-IsSound (Call.redeeming now g capability mission) b w =
      Step-IsSound env cal store six_digits (Step.redeemed now g capability mission) w
  perform-IsSound (Call.revoking g) b w = Step-IsSound env cal store six_digits (Step.revoked g) w
  perform-IsSound (Call.mission_revoking m) b w =
      Step-IsSound env cal store six_digits (Step.mission_revoked m) w

  performed-view :
      (ks : List Call) (b : Broker)
      → IsSound env cal store six_digits b
      → all_promised env cal store six_digits ks (view b) ≡ (
        view (performed env cal store six_digits ks b).0,
        (performed env cal store six_digits ks b).1,
      )
  unfolding performed all_promised
  performed-view [] b w = refl
  performed-view (k ∷ ks) b w =
      let c = (perform env cal store six_digits k b).0 in
      rw (perform-view k b w, performed-view ks c (perform-IsSound k b w)) refl

  -- A broker that starts empty answers any sequence of `grant`, `redeem`, `revoke_grant` and
  -- `revoke_mission` as an abstract wallet does, which is a function from ids to active grants, and
  -- ends with the grants of that wallet. The number that `revoke_mission` returns is not compared.
  pub performed_refines :
      (default_ttl : ℤ) (ks : List Call)
      → all_promised env cal store six_digits ks (new_wallet default_ttl) ≡ (
        view (performed env cal store six_digits ks (new_broker default_ttl)).0,
        (performed env cal store six_digits ks (new_broker default_ttl)).1,
      )
  unfolding get
  performed_refines default_ttl ks =
      performed-view ks (new_broker default_ttl)
        (new_broker-IsSound env cal store six_digits default_ttl)
