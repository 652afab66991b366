-- ===== src/Broker/Wallet.antt =====
-- What a broker promises, over a map from ids to grants in place of its dict.
use runtime_contracts.Prelude.{
  ℕ, suc, String, not, ◌||◌, List, [], ◌∷◌, Option, none, some, ℤ, leb_ℤ, ◌==◌, string_eq,
  if◌then◌else◌, Result, ok, raise, ◌>>=◌, ◌>>◌,
}
use runtime_contracts.Canonical.Dict.{get}
use runtime_contracts.Canonical.Value.{Platform}
use runtime_contracts.Security.{AuthorityContext}
use runtime_contracts.Credentials.{Calendar, CredentialRequest, CredentialGrant}
use runtime_contracts.Broker.{
  BrokerError, outside_binding, grant_expired, not_active, SecretStore, Active, Broker,
  active_grant, effective_ttl, admitted, authority_chain, issue, material, grant, redeem,
  revoke_grant, revoke_mission,
}

-- A call of a broker with its arguments, and the instants at which it reads the clock.
pub data Call : Type 0 where
  granting : ℤ → ℤ → CredentialRequest → AuthorityContext → Call
  redeeming : ℤ → String → String → String → Call
  revoking : String → Call
  mission_revoking : String → Call

-- The grants that can be redeemed, by their ids.
pub record Wallet : Type 0 where
  pub default_ttl : ℤ
  pub issued : ℕ
  pub holds : String → Option Active

abbrev pub new_wallet : ℤ → Wallet
new_wallet default_ttl = record { default_ttl = default_ttl; issued = 0; holds = λ g. none }

-- The wallet that a broker stands for: the order of its dict is forgotten.
abbrev pub view : Broker → Wallet
view b = record { default_ttl = b.default_ttl; issued = b.n; holds = λ g. get g b.active }

abbrev pub forget : String → Wallet → Wallet
forget g w = record w { holds = λ j. if j == g then none else w.holds j }

abbrev pub unless : String → Option Active → Option Active
unless m none = none
unless m (some a) = if a.mission_id == m then none else some a

module _ (env : Platform) (cal : Calendar) (store : SecretStore) (six_digits : ℕ → String) where
  -- The number that `revoke_mission` returns is left open.
  pub data Answer : Type 0 where
    granted : Result BrokerError CredentialGrant → Answer
    redeemed : Result BrokerError store.Material → Answer
    done : Answer

  -- A call that raises leaves the state as it was.
  abbrev pub answered : {S : Type 0} → S → Result BrokerError (S × CredentialGrant) → S × Answer
  answered s (ok (t, g)) = (t, granted (ok g))
  answered s (raise e) = (s, granted (raise e))

  -- The call on a broker.
  unfoldable pub perform : Call → Broker → Broker × Answer
  unfolding grant redeem revoke_grant revoke_mission
  perform (granting asked now r a) b = answered b (grant env cal store six_digits asked now r a b)
  perform (redeeming now g capability mission) b =
      let (c, m) = redeem env cal store six_digits now g capability mission b in (c, redeemed m)
  perform (revoking g) b = (revoke_grant g b, done)
  perform (mission_revoking m) b = ((revoke_mission m b).0, done)

  unfoldable pub redeem_held :
      ℤ
      → String
      → String
      → String
      → Wallet
      → Option Active
      → Wallet × Result BrokerError store.Material
  unfolding material
  redeem_held now g capability mission w none = (w, raise not_active)
  redeem_held now g capability mission w (some a) =
      if not (capability == a.capability_id) || not (mission == a.mission_id)
      then (w, raise outside_binding)
      else if leb_ℤ a.expires now
      then (forget g w, raise grant_expired)
      else (w, material env cal store six_digits a.ref)

  unfoldable pub grant_held :
      ℤ
      → ℤ
      → CredentialRequest
      → AuthorityContext
      → Wallet
      → Result BrokerError (Wallet × CredentialGrant)
  unfolding admitted authority_chain issue effective_ttl
  grant_held asked now r a w = do
    admitted env cal store six_digits asked r a
    chain ← authority_chain env cal store six_digits a
    let n = suc w.issued
    let x = issue env cal store six_digits n (effective_ttl w.default_ttl r) now chain r a
    let held = some (active_grant x now r)
    ok (record w { issued = n; holds = λ j. if j == x.grant_id then held else w.holds j }, x)

  -- The call on a wallet.
  unfoldable pub promised : Call → Wallet → Wallet × Answer
  unfolding redeem_held grant_held
  promised (granting asked now r a) w = answered w (grant_held asked now r a w)
  promised (redeeming now g capability mission) w =
      let (c, m) = redeem_held now g capability mission w (w.holds g) in (c, redeemed m)
  promised (revoking g) w = (forget g w, done)
  promised (mission_revoking m) w = (record w { holds = λ j. unless m (w.holds j) }, done)

  unfoldable pub performed : List Call → Broker → Broker × List Answer
  unfolding perform
  performed [] b = (b, [])
  performed (k ∷ ks) b = let (c, x) = perform k b in let (d, xs) = performed ks c in (d, x ∷ xs)

  unfoldable pub all_promised : List Call → Wallet → Wallet × List Answer
  unfolding promised
  all_promised [] w = (w, [])
  all_promised (k ∷ ks) w =
      let (c, x) = promised k w in let (d, xs) = all_promised ks c in (d, x ∷ xs)
