-- ===== src/Broker.antt =====
-- secrets_local/broker.py and the environment store of secrets_local/store.py.
pub mod Issued
pub mod History
pub mod Redemption
pub mod Revocation
pub mod Wallet
pub mod Refinement
use Prim.Native.String.{◌++◌ as append}
use runtime_contracts.Prelude.{
  ℕ, zero, suc, ◌>>◌, ◌*◌, ◌-◌, String, true, false, not, ◌||◌, List, [], ◌∷◌, Option, none, some,
  ℤ, pos, negsuc, ◌+ℤ◌, leb_ℤ, truthy, ◌==◌, string_eq, string_order, if◌then◌else◌, Result, ok,
  raise, ◌>>=◌, length,
}
use runtime_contracts.Prelude.Sort.{sort}
use runtime_contracts.Canonical.Json.{Dict, str}
use runtime_contracts.Canonical.Dict.{get, put, remove}
use runtime_contracts.Canonical.Value.{Platform, json_hash}
use runtime_contracts.Security.{SecurityError, AuthorityContext, chain_ref}
use runtime_contracts.Credentials.{
  SecretRef, CredentialRequest, CredentialGrant, CredentialLease, DenyReason, allowed, denied,
  Calendar, LeaseStatus, authorize_request,
}

-- The `CredentialDenied`s by their reasons, what `authorize_request` raises, and the
-- `SecretAccessError` of a store.
pub data BrokerError : Type 0 where
  refused : DenyReason → BrokerError
  authority_invalid : SecurityError → BrokerError
  not_active outside_binding grant_expired no_secret unreadable : BrokerError

-- The secret store of a broker: `_read`, where `none` is a `SecretAccessError`, and
-- `bytes.decode("utf-8", "replace")`.
pub record SecretStore : Type 1 where
  pub Material : Type 0
  pub read : SecretRef → Option Material
  pub decode : Material → String

-- `_Active`
pub record Active : Type 0 where
  pub grant : CredentialGrant
  pub ref : Option SecretRef
  pub capability_id : String
  pub mission_id : String
  pub expires : ℤ

-- `LocalCredentialBroker`
pub record Broker : Type 0 where
  pub default_ttl : ℤ
  pub active : Dict Active
  pub n : ℕ

abbrev pub new_broker : ℤ → Broker
new_broker default_ttl = record { default_ttl = default_ttl; active = []; n = 0 }

-- `ttl or default`, where 0 is false as well.
abbrev pub ttl_or : Option ℤ → ℤ → ℤ
ttl_or none default = default
ttl_or (some (pos zero)) default = default
ttl_or (some (pos (suc n))) default = pos (suc n)
ttl_or (some (negsuc n)) default = negsuc n

-- `if limit is not None: ttl = min(ttl, limit)`
abbrev pub capped : Option ℤ → ℤ → ℤ
capped none ttl = ttl
capped (some limit) ttl = if leb_ℤ ttl limit then ttl else limit

unfoldable pub effective_ttl : ℤ → CredentialRequest → ℤ
effective_ttl default_ttl r =
    capped r.requirement.max_ttl_seconds
      (ttl_or r.requested_ttl_seconds (ttl_or r.requirement.max_ttl_seconds default_ttl))

-- `timedelta(seconds=ttl)`, in microseconds.
abbrev pub seconds : ℤ → ℤ
seconds (pos n) = pos (n * 1000000)
seconds (negsuc n) = negsuc (suc n * 1000000 - 1)

-- `f"{n:06d}"`
module _ (six_digits : ℕ → String) where
  abbrev pub grant_id_of : ℕ → String
  grant_id_of n = append "grant-" (six_digits n)

  abbrev pub lease_id_of : ℕ → String
  lease_id_of n = append "lease-" (six_digits n)

abbrev pub active_grant : CredentialGrant → ℤ → CredentialRequest → Active
active_grant g now request = record {
  grant = g;
  ref = request.requirement.secret_ref;
  capability_id = request.capability_id;
  mission_id = request.mission_id;
  expires = now +ℤ seconds g.ttl_seconds;
}

module _ (env : Platform) (cal : Calendar) (store : SecretStore) (six_digits : ℕ → String) where
  -- `_hash_material`, of the secret as far as the store has it
  unfoldable pub hash_material : Option SecretRef → String
  unfolding json_hash
  hash_material none = ""
  hash_material (some r) = elim (store.read r) [
    | none ↦ ""
    | some m ↦ json_hash env (str (store.decode m))
  ]

  -- `authorize_request` as the broker calls it: it raises unless the request is allowed.
  unfoldable pub admitted : ℤ → CredentialRequest → AuthorityContext → Result BrokerError (Unit {0})
  unfolding authorize_request
  admitted now request authority = elim (authorize_request env cal false now request authority) [
    | ok d ↦ elim d [ allowed ↦ ok tt | denied r ↦ raise (refused r) ]
    | raise e ↦ raise (authority_invalid e)
  ]

  -- The `chain_ref` of the authority of the request.
  unfoldable pub authority_chain : AuthorityContext → Result BrokerError String
  unfolding chain_ref
  authority_chain authority = elim (chain_ref env authority) [
    | ok c ↦ ok c
    | raise e ↦ raise (authority_invalid e)
  ]

  -- The grant of number n, issued at `now`.
  unfoldable pub issue : ℕ → ℤ → ℤ → String → CredentialRequest → AuthorityContext → CredentialGrant
  unfolding hash_material sort
  issue n ttl now chain request authority = record {
    grant_id = grant_id_of six_digits n;
    principal = authority.principal.id;
    resource = request.requirement.name;
    scope = sort (λ s. s) request.requirement.required_scopes;
    ttl_seconds = ttl;
    authority_ref = chain;
    material_hash = hash_material request.requirement.secret_ref;
    handle = grant_id_of six_digits n;
    request_id = request.request_id;
    credential_ref = request.requirement.secret_ref;
    lease_id = lease_id_of six_digits n;
    issued_at = cal.iso_format now;
    expires_at = cal.iso_format (now +ℤ seconds ttl);
    renewable = false;
    revocable = true;
  }

  -- `grant`, which reads the clock at `asked`, for the decision, and at `now`.
  unfoldable pub grant :
      ℤ
      → ℤ
      → CredentialRequest
      → AuthorityContext
      → Broker
      → Result BrokerError (Broker × CredentialGrant)
  unfolding admitted authority_chain issue put effective_ttl
  grant asked now request authority b = do
    admitted asked request authority
    chain ← authority_chain authority
    let n = suc b.n
    let g = issue n (effective_ttl b.default_ttl request) now chain request authority
    ok (record b { active = put g.grant_id (active_grant g now request) b.active; n = n }, g)

  -- `SecretMaterial(self._store._read(active.ref))`
  unfoldable pub material : Option SecretRef → Result BrokerError store.Material
  material none = raise no_secret
  material (some r) = elim (store.read r) [ none ↦ raise unreadable | some m ↦ ok m ]

  -- The checks of `redeem` on an active grant; an expired one is dropped. The state is what the call
  -- leaves, when it raises too.
  unfoldable pub redeem_found :
      ℤ → String → String → String → Broker → Active → Broker × Result BrokerError store.Material
  unfolding remove material
  redeem_found now grant_id capability_id mission_id b a =
      if not (capability_id == a.capability_id) || not (mission_id == a.mission_id)
      then (b, raise outside_binding)
      else if leb_ℤ a.expires now
      then (record b { active = remove grant_id b.active }, raise grant_expired)
      else (b, material a.ref)

  unfoldable pub redeem :
      ℤ → String → String → String → Broker → Broker × Result BrokerError store.Material
  unfolding get redeem_found
  redeem now grant_id capability_id mission_id b = elim (get grant_id b.active) [
    | none ↦ (b, raise not_active)
    | some a ↦ redeem_found now grant_id capability_id mission_id b a
  ]

unfoldable pub renew : CredentialLease → CredentialLease
renew lease = record lease { status = LeaseStatus.renewed }

unfoldable pub revoke_grant : String → Broker → Broker
unfolding remove
revoke_grant grant_id b = record b { active = remove grant_id b.active }

-- `[g for g, a in self._active.items() if a.mission_id == mission_id]`
unfoldable pub mission_grants : String → Dict Active → List String
mission_grants mission_id [] = []
mission_grants mission_id (e ∷ d) =
    let rest = mission_grants mission_id d in
    if e.1.mission_id == mission_id then e.0 ∷ rest else rest

unfoldable pub remove_all : List String → Dict Active → Dict Active
unfolding remove
remove_all [] d = d
remove_all (g ∷ gs) d = remove_all gs (remove g d)

unfoldable pub revoke_mission : String → Broker → Broker × ℕ
unfolding mission_grants remove_all
revoke_mission mission_id b =
    let gids = mission_grants mission_id b.active in
    (record b { active = remove_all gids b.active }, length gids)

-- `EnvironmentSecretStore`: its prefix, and `os.environ`.
pub record EnvironmentSecretStore : Type 0 where
  pub prefix : String
  pub environ : Dict String

-- `ref.key or ref.path`, after the prefix
unfoldable pub env_var : EnvironmentSecretStore → SecretRef → String
env_var s r =
    append s.prefix (elim r.key [ none ↦ r.path | some k ↦ if truthy k then k else r.path ])

unfoldable pub env_read : EnvironmentSecretStore → SecretRef → Option String
unfolding env_var get
env_read s r = get (env_var s r) s.environ
