-- ===== src/Examples/Brokers.antt =====
-- A broker that grants a token.
use runtime_contracts.Prelude.Int.{◌+ℤ◌}
use runtime_contracts.Prelude.{
  List, ℕ, zero, suc, String, true, false, [], ◌∷◌, some, ◌≡◌, ◌≢◌, ◌↔◌, pos, refl, ok, raise, ap,
}
use runtime_contracts.Canonical.Dict.{get}
use runtime_contracts.Credentials.{CredentialGrant}
use runtime_contracts.Broker.{
  Broker, BrokerError, Active, SecretStore, new_broker, grant, redeem, revoke_grant, revoke_mission,
  active_grant,
}
use runtime_contracts.Broker.Wallet.{Call, Answer, new_wallet, view, performed, all_promised}
use runtime_contracts.Broker.Refinement.{performed_refines}
use runtime_contracts.Broker.Issued.{Step, Steps}
use runtime_contracts.Broker.Redemption.{grant-IsBounded, IsBounded}
use runtime_contracts.Broker.Revocation.{revoked_is_final, revoke_mission_iff}
use runtime_contracts.Examples.{ascii_platform, texts}
use runtime_contracts.Examples.Access.{endless, root_authority, token_ref, token_request}

-- Every secret is the same, and numbers are written in strokes.
abbrev one_secret : SecretStore
one_secret = record { Material = String; read = λ r. some "s3cret"; decode = λ m. m }

strokes : ℕ → String
strokes zero = ""
strokes (suc n) = String.◌∷◌ "|" (strokes n)

strokes-inj : (i j : ℕ) → strokes i ≡ strokes j → i ≡ j
unfolding strokes
strokes-inj zero zero h = refl
strokes-inj zero (suc j) h = cc
strokes-inj (suc i) zero h = cc
strokes-inj (suc i) (suc j) h = ap suc (strokes-inj i j (cc h))

abbrev token_grant : CredentialGrant
token_grant = record {
  grant_id = "grant-|";
  principal = "ann";
  resource = "token";
  scope = "read" ∷ [];
  ttl_seconds = pos 30;
  authority_ref = "auth-1@rcv1:auth-1auditannuseracmereadwrite";
  material_hash = "rcv1:s3cret";
  handle = "grant-|";
  request_id = "req-1";
  credential_ref = some token_ref;
  lease_id = "lease-|";
  issued_at = "2026-01-01T00:00:00+00:00";
  expires_at = "2026-01-01T00:00:00+00:00";
  renewable = false;
  revocable = true;
}

abbrev token_active : Active
token_active = active_grant token_grant (pos 0) token_request

abbrev one_grant : Broker
one_grant = record { default_ttl = pos 300; active = ("grant-|", token_active) ∷ []; n = 1 }

token_granted :
    grant ascii_platform endless one_secret strokes
      (pos 0)
      (pos 0)
      token_request
      root_authority
      (new_broker (pos 300))
    ≡ ok (one_grant, token_grant)
unfolding grant strokes texts
token_granted = refl

grant-IsBounded_example :
    IsBounded ascii_platform endless one_secret strokes token_request root_authority token_grant
    × (get "grant-|" one_grant.active ≡ some (active_grant token_grant (pos 0) token_request))
grant-IsBounded_example =
    grant-IsBounded ascii_platform endless one_secret strokes (pos 0) (pos 0) token_request
      root_authority (new_broker (pos 300)) one_grant token_grant token_granted

one_step : Steps ascii_platform endless one_secret strokes (new_broker (pos 300)) one_grant
one_step =
    Steps.next Steps.start
      (Step.granted (pos 0) (pos 0) token_request root_authority token_grant token_granted)

found_active : get "grant-|" one_grant.active ≡ some token_active
unfolding get
found_active = refl

revoked_is_final_example :
    redeem ascii_platform endless one_secret strokes
      (pos 1)
      "grant-|"
      "cap-1"
      "m-1"
      (revoke_grant "grant-|" one_grant)
    ≡ (revoke_grant "grant-|" one_grant, raise BrokerError.not_active)
revoked_is_final_example =
    revoked_is_final ascii_platform endless one_secret strokes strokes-inj (pos 300) (pos 1)
      "grant-|" "cap-1" "m-1" token_active one_grant (revoke_grant "grant-|" one_grant) one_step
      found_active Steps.start

revoke_mission_iff_example :
    (get "grant-|" (revoke_mission "m-1" one_grant).0.active ≡ some token_active)
    ↔ ((get "grant-|" one_grant.active ≡ some token_active) × (token_active.mission_id ≢ "m-1"))
revoke_mission_iff_example =
    revoke_mission_iff ascii_platform endless one_secret strokes (pos 300) "m-1" "grant-|"
      token_active one_grant one_step

abbrev four_calls : List Call
four_calls =
    Call.granting (pos 0) (pos 0) token_request root_authority
    ∷ Call.redeeming (pos 29000000) "grant-|" "cap-1" "m-1"
    ∷ Call.mission_revoking "m-1"
    ∷ Call.redeeming (pos 29000000) "grant-|" "cap-1" "m-1"
    ∷ []

-- The secret is given out until the mission is revoked.
four_answers :
    (performed ascii_platform endless one_secret strokes four_calls (new_broker (pos 300))).1
    ≡ Answer.granted (ok token_grant)
      ∷ Answer.redeemed (ok "s3cret")
      ∷ Answer.done
      ∷ Answer.redeemed (raise BrokerError.not_active)
      ∷ []
unfolding performed ◌+ℤ◌ strokes texts
four_answers = refl

performed_refines_example :
    all_promised ascii_platform endless one_secret strokes four_calls (new_wallet (pos 300)) ≡ (
      view
          (performed ascii_platform endless one_secret strokes four_calls (new_broker (pos 300))).0,
      (performed ascii_platform endless one_secret strokes four_calls (new_broker (pos 300))).1,
    )
performed_refines_example =
    performed_refines ascii_platform endless one_secret strokes (pos 300) four_calls
