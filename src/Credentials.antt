-- ===== src/Credentials.antt =====
-- protocol/secrets.py and protocol/credentials.py: references to secrets, requests, grants and leases, and the
-- gates that a broker consults.
pub mod Gate
use Prim.Native.Char.{code}
use Prim.Native.String.{◌++◌ as append}
use runtime_contracts.Prelude.{
  String, Bool, true, false, not, ◌&&◌, ◌||◌, List, [], ◌∷◌, ◌++◌, Option, none, some, ℤ, pos,
  ltb_ℤ, leb_ℤ, truthy, given, is_empty, is_none, ◌==◌, nat_eq, string_eq, string_order,
  if◌then◌else◌, Result, ok, raise, ◌>>=◌,
}
use runtime_contracts.Prelude.Sort.{sort}
use runtime_contracts.Canonical.Json.{
  Json, Dict, obj, str, int, bool, fields, strs, or_null, opt_str,
}
use runtime_contracts.Canonical.Value.{sorted_unique, Platform, json_hash}
use runtime_contracts.Security.{
  SecurityDecision, SecurityVerdict, SecurityError, AuthorityContext, permits_scope, chain_ref,
  sorted_set, text_field,
}

pub record SecretRef : Type 0 where
  pub provider : String
  pub namespace : String
  pub path : String
  pub key : Option String
  pub version : Option String

-- `value or None`, for an optional text
abbrev pub opt_or_null : Option String → Json
opt_or_null none = Json.null
opt_or_null (some s) = or_null s

unfoldable pub secret_form : SecretRef → Json
secret_form r = obj (
    fields (
      ("key", opt_or_null r.key)
      ∷ ("namespace", or_null r.namespace)
      ∷ ("path", str r.path)
      ∷ ("provider", str r.provider)
      ∷ ("version", opt_or_null r.version)
      ∷ []))

unfoldable pub fingerprint : Platform → SecretRef → String
unfolding json_hash secret_form
fingerprint env r = json_hash env (secret_form r)

-- `SecretRef.redacted`: what telemetry may see.
unfoldable pub redacted : Platform → SecretRef → Json
unfolding fingerprint
redacted env r = obj (
    fields (
      ("provider", str r.provider)
      ∷ ("namespace", or_null r.namespace)
      ∷ ("version", opt_or_null r.version)
      ∷ ("fingerprint", str (fingerprint env r))
      ∷ []))

pub record CredentialRequirement : Type 0 where
  pub name : String
  pub required_scopes : List String
  pub secret_ref : Option SecretRef
  pub dynamic_role : Option String
  pub production_broker_required : Bool
  pub max_ttl_seconds : Option ℤ

abbrev pub ref_field : String → Option SecretRef → Dict Json
ref_field k none = []
ref_field k (some r) = (k, secret_form r) ∷ []

abbrev pub int_field : String → Option ℤ → Dict Json
int_field k none = []
int_field k (some n) = (k, int n) ∷ []

abbrev pub opt_text_field : String → Option String → Dict Json
opt_text_field k none = []
opt_text_field k (some s) = text_field k s

-- `if values: d[key] = sorted(values)`
abbrev pub sorted_field : String → List String → Dict Json
sorted_field k xs = if is_empty xs then [] else (k, strs (sort (λ s. s) xs)) ∷ []

unfoldable pub requirement_form : CredentialRequirement → Json
unfolding secret_form sort
requirement_form r = obj (
    fields (
      ("name", str r.name)
      ∷ ("production_broker_required", bool r.production_broker_required)
      ∷ (sorted_field "required_scopes" r.required_scopes
          ++ ref_field "secret_ref" r.secret_ref
          ++ opt_text_field "dynamic_role" r.dynamic_role
          ++ int_field "max_ttl_seconds" r.max_ttl_seconds)))

unfoldable pub requirement_hash : Platform → CredentialRequirement → String
unfolding json_hash requirement_form
requirement_hash env r = json_hash env (requirement_form r)

pub record CredentialRequest : Type 0 where
  pub request_id : String
  pub mission_id : String
  pub node_id : String
  pub capability_id : String
  pub tenant_id : String
  pub authority_context_id : String
  pub requirement : CredentialRequirement
  pub requested_ttl_seconds : Option ℤ

unfoldable pub request_form : CredentialRequest → Json
unfolding requirement_form
request_form r = obj (
    fields (
      ("authority_context_id", str r.authority_context_id)
      ∷ ("capability_id", str r.capability_id)
      ∷ ("mission_id", str r.mission_id)
      ∷ ("node_id", str r.node_id)
      ∷ ("request_id", str r.request_id)
      ∷ ("requirement", requirement_form r.requirement)
      ∷ ("tenant_id", str r.tenant_id)
      ∷ int_field "requested_ttl_seconds" r.requested_ttl_seconds))

pub data LeaseStatus : Type 0 where
  active renewed expired revoked failed : LeaseStatus

abbrev pub lease_value : LeaseStatus → String
lease_value active = "ACTIVE"
lease_value renewed = "RENEWED"
lease_value expired = "EXPIRED"
lease_value revoked = "REVOKED"
lease_value failed = "FAILED"

pub record CredentialLease : Type 0 where
  pub lease_id : String
  pub grant_id : String
  pub issued_at : String
  pub expires_at : String
  pub renewable : Bool
  pub revocable : Bool
  pub status : LeaseStatus

unfoldable pub lease_form : CredentialLease → Json
lease_form l = obj (
    fields (
      ("expires_at", or_null l.expires_at)
      ∷ ("grant_id", str l.grant_id)
      ∷ ("issued_at", or_null l.issued_at)
      ∷ ("lease_id", str l.lease_id)
      ∷ ("renewable", bool l.renewable)
      ∷ ("revocable", bool l.revocable)
      ∷ ("status", str (lease_value l.status))
      ∷ []))

pub record CredentialGrant : Type 0 where
  pub grant_id : String
  pub principal : String
  pub resource : String
  pub scope : List String
  pub ttl_seconds : ℤ
  pub authority_ref : String
  pub material_hash : String
  pub handle : String
  pub request_id : String
  pub credential_ref : Option SecretRef
  pub lease_id : String
  pub issued_at : String
  pub expires_at : String
  pub renewable : Bool
  pub revocable : Bool

unfoldable pub grant_form : CredentialGrant → Json
unfolding secret_form sort
grant_form g = obj (
    fields (
      ("grant_id", str g.grant_id)
      ∷ ("principal", str g.principal)
      ∷ ("resource", str g.resource)
      ∷ ("ttl_seconds", int g.ttl_seconds)
      ∷ (sorted_field "scope" g.scope
          ++ text_field "authority_ref" g.authority_ref
          ++ text_field "material_hash" g.material_hash
          ++ text_field "request_id" g.request_id
          ++ ref_field "credential_ref" g.credential_ref
          ++ text_field "lease_id" g.lease_id
          ++ text_field "issued_at" g.issued_at
          ++ text_field "expires_at" g.expires_at)))

unfoldable pub grant_ref : Platform → CredentialGrant → String
unfolding json_hash grant_form
grant_ref env g = json_hash env (grant_form g)

-- The `DenyReason`s of the gates, with what the text adds to them.
pub data DenyReason : Type 0 where
  insufficient_authority : List String → DenyReason
  ttl_exceeds_policy : ℤ → ℤ → DenyReason
  broker_unavailable production_broker_required : DenyReason
  tenant_mismatch authority_expired authority_mismatch : DenyReason

-- A decision of a gate: the verdict is ALLOW, or DENY for a reason.
pub data GateDecision : Type 0 where
  allowed : GateDecision
  denied : DenyReason → GateDecision

-- `datetime.fromisoformat` (an instant, or a time without a zone), `str.strip`, and `isoformat`; an
-- instant counts microseconds.
pub record Calendar : Type 0 where
  pub strip : String → String
  pub parse_iso : String → Option (Option ℤ)
  pub iso_format : ℤ → String

-- `if text[-1:] in ("Z", "z"): text = text[:-1] + "+00:00"`
unfoldable pub zulu_offset : String → String
zulu_offset String.[] = String.[]
zulu_offset (String.◌∷◌ c String.[]) =
    if (code c == b'Z') || (code c == b'z') then "+00:00" else String.◌∷◌ c String.[]
zulu_offset (String.◌∷◌ c (String.◌∷◌ d s)) = String.◌∷◌ c (zulu_offset (String.◌∷◌ d s))

-- `_authority_expired`
unfoldable pub is_authority_expired : Calendar → String → ℤ → Bool
unfolding zulu_offset
is_authority_expired cal expires_at now =
    truthy expires_at && (elim (cal.parse_iso (zulu_offset (cal.strip expires_at))) [
      | none ↦ true
      | some t ↦ elim t [ none ↦ true | some at ↦ leb_ℤ at now ]
    ])

-- The required scopes that the authority does not permit, in order and without duplicates.
unfoldable pub not_permitted_scopes : AuthorityContext → List String → List String
unfolding permits_scope
not_permitted_scopes a [] = []
not_permitted_scopes a (s ∷ ss) =
    if permits_scope a s then not_permitted_scopes a ss else s ∷ not_permitted_scopes a ss

-- `ref is not None and ref.namespace and ref.namespace != request.tenant_id`
abbrev pub foreign_secret : Option SecretRef → String → Bool
foreign_secret none tenant = false
foreign_secret (some r) tenant = truthy r.namespace && not (r.namespace == tenant)

-- `limit is not None and ttl is not None and ttl > limit`
abbrev pub over_ttl : Option ℤ → Option ℤ → Option DenyReason
over_ttl (some limit) (some ttl) =
    if ltb_ℤ limit ttl then some (DenyReason.ttl_exceeds_policy ttl limit) else none
over_ttl none ttl = none
over_ttl (some limit) none = none

-- `verdict` on the last two checks of `authorize_request`
abbrev pub scope_verdict : List String → Option DenyReason → GateDecision
scope_verdict [] none = allowed
scope_verdict [] (some r) = denied r
scope_verdict (s ∷ ss) t = denied (DenyReason.insufficient_authority (sorted_set (s ∷ ss)))

-- `if check: return _deny(reason)`, before the rest of the gate
abbrev pub deny_if : Bool → DenyReason → GateDecision → GateDecision
deny_if true r rest = denied r
deny_if false r rest = rest

-- `request.authority_context_id not in (authority.authority_id, authority.chain_ref)`
abbrev pub is_unbound : String → CredentialRequest → AuthorityContext → Bool
is_unbound chain r a =
    not (r.authority_context_id == a.authority_id) && not (r.authority_context_id == chain)

-- `not request.tenant_id and not principal_tenant`
abbrev pub has_no_tenant : CredentialRequest → AuthorityContext → Bool
has_no_tenant r a = not (truthy r.tenant_id) && not (truthy a.principal.tenant)

-- `request.tenant_id != principal_tenant`
abbrev pub has_other_tenant : CredentialRequest → AuthorityContext → Bool
has_other_tenant r a = not (r.tenant_id == a.principal.tenant)

-- The checks of `authorize_request` from the binding to the authority on, where `chain` is the
-- `chain_ref` of the authority.
unfoldable pub binding_verdict : String → CredentialRequest → AuthorityContext → GateDecision
unfolding not_permitted_scopes sorted_unique
binding_verdict chain r a = deny_if (is_unbound chain r a) DenyReason.authority_mismatch (
    deny_if (has_no_tenant r a) DenyReason.tenant_mismatch (
      deny_if (has_other_tenant r a) DenyReason.tenant_mismatch (
        deny_if (foreign_secret r.requirement.secret_ref r.tenant_id) DenyReason.tenant_mismatch (
          scope_verdict (not_permitted_scopes a r.requirement.required_scopes)
            (over_ttl r.requirement.max_ttl_seconds r.requested_ttl_seconds)))))

module _ (env : Platform) (cal : Calendar) where
  -- `authorize_request`, at the instant that the clock returns.
  unfoldable pub authorize_request :
      Bool → ℤ → CredentialRequest → AuthorityContext → Result SecurityError GateDecision
  unfolding is_authority_expired chain_ref binding_verdict
  authorize_request production now request authority =
      if request.requirement.production_broker_required && not production
      then ok (denied DenyReason.production_broker_required)
      else if is_authority_expired cal authority.expires_at now
      then ok (denied DenyReason.authority_expired)
      else (do chain ← chain_ref env authority; ok (binding_verdict chain request authority))

-- `admit_credentials`, where the broker is absent, a development broker or a production broker.
pub data Assurance : Type 0 where
  absent development production : Assurance

abbrev pub is_production : Assurance → Bool
is_production production = true
is_production _ = false

abbrev pub missing_broker : Assurance → DenyReason
missing_broker absent = DenyReason.broker_unavailable
missing_broker _ = DenyReason.production_broker_required

unfoldable pub admit_credentials : Assurance → List CredentialRequirement → GateDecision
admit_credentials broker [] = allowed
admit_credentials broker (r ∷ rs) =
    if r.production_broker_required && not (is_production broker)
    then denied (missing_broker broker)
    else admit_credentials broker rs

-- `lease_decision`
unfoldable pub lease_decision : List String → AuthorityContext → GateDecision
unfolding not_permitted_scopes sort
lease_decision requested authority = scope_verdict (not_permitted_scopes authority requested) none
