-- ===== src/Examples/Access.antt =====
-- Two decisions, a delegated authority, and a request for a token.
use runtime_contracts.Canonical.Value.{json_hash, sorted_unique}
use runtime_contracts.Prelude.{
  ok-inj, arith, string_eq, String, true, false, Bool, [], ◌∷◌, none, some, ◌≡◌, ◌↔◌, pos, refl, ok,
  Result, ltb, ap, All,
}
use runtime_contracts.Canonical.Decimal.{Decimal}
use runtime_contracts.Security.{
  SecurityVerdict, SecurityDecision, PrincipalRef, AuthorityContext, Narrowing, CostOrder,
  bare_decision, narrow, verify_link, verify_chain, SecurityError,
}
use runtime_contracts.Security.Delegation.{narrow-verify_link, verify_chain_sound, IsWithin}
use runtime_contracts.Credentials.{
  Calendar, SecretRef, CredentialRequirement, CredentialRequest, allowed, authorize_request,
}
use runtime_contracts.Credentials.Gate.{authorize_request_iff, IsAuthorized}
use runtime_contracts.Examples.{ascii_platform, texts}

abbrev decided : SecurityVerdict → String → SecurityDecision
decided v o = record (bare_decision v) { obligations = o ∷ [] }

abbrev reviewed : SecurityDecision
reviewed = decided SecurityVerdict.require_review "log"

abbrev refusing : SecurityDecision
refusing = decided SecurityVerdict.deny "alert"

-- Costs are compared by their coefficients.
abbrev is_more : Decimal → Decimal → Result SecurityError Bool
is_more (Decimal.finite s c e) (Decimal.finite t d f) = ok (ltb d c)
is_more a b = ok true

abbrev coefficients : CostOrder
coefficients = record { exceeds = is_more }

abbrev analyst : PrincipalRef
analyst = record { id = "ann"; kind = "user"; tenant = "acme"; roles = []; auth_level = "" }

abbrev pub root_authority : AuthorityContext
root_authority = record {
  authority_id = "auth-1";
  principal = analyst;
  purpose = "";
  scope = "read" ∷ "write" ∷ [];
  constraints = "audit" ∷ [];
  max_cost = none;
  expires_at = "";
  parent_digest = "";
  depth = pos 0;
}

abbrev to_reading : Narrowing
to_reading = record {
  authority_id = "auth-2";
  scope = some ("read" ∷ []);
  purpose = none;
  constraints = "once" ∷ [];
  max_cost = none;
  expires_at = none;
  principal = none;
}

abbrev reading_authority : AuthorityContext
reading_authority = record root_authority {
  authority_id = "auth-2";
  scope = "read" ∷ [];
  constraints = "audit" ∷ "once" ∷ [];
  parent_digest = "rcv1:auth-1auditannuseracmereadwrite";
  depth = pos 1;
}

narrowed : narrow ascii_platform coefficients root_authority to_reading ≡ ok reading_authority
unfolding narrow json_hash texts
narrowed = refl

narrow-verify_link_example :
    verify_link ascii_platform coefficients root_authority reading_authority ≡ ok tt
narrow-verify_link_example =
    narrow-verify_link ascii_platform coefficients root_authority to_reading {c = reading_authority}
      narrowed

verified_chain :
    verify_chain ascii_platform coefficients (root_authority ∷ reading_authority ∷ []) ≡ ok tt
unfolding verify_chain json_hash texts sorted_unique
verified_chain = refl

than_infinite : (q : Decimal) → is_more q Decimal.infinite ≡ ok true
than_infinite (Decimal.finite t b y) = refl
than_infinite Decimal.infinite = refl
than_infinite Decimal.nan = refl

than_nan : (q : Decimal) → is_more q Decimal.nan ≡ ok true
than_nan (Decimal.finite t b y) = refl
than_nan Decimal.infinite = refl
than_nan Decimal.nan = refl

is_more_trans :
    (p q r : Decimal) → is_more q p ≡ ok false → is_more r q ≡ ok false → is_more r p ≡ ok false
is_more_trans (Decimal.finite s a x) (Decimal.finite t b y) (Decimal.finite u c z) h k =
    ap (λ v. ok v) (ground (arith, ok-inj h, ok-inj k))
is_more_trans (Decimal.finite s a x) (Decimal.finite t b y) Decimal.infinite h k = absurd (cc k)
is_more_trans (Decimal.finite s a x) (Decimal.finite t b y) Decimal.nan h k = absurd (cc k)
is_more_trans (Decimal.finite s a x) Decimal.infinite r h k = absurd (cc h)
is_more_trans (Decimal.finite s a x) Decimal.nan r h k = absurd (cc h)
is_more_trans Decimal.infinite q r h k = absurd (cc (than_infinite q, h))
is_more_trans Decimal.nan q r h k = absurd (cc (than_nan q, h))

verify_chain_sound_example :
    All (IsWithin ascii_platform coefficients root_authority) (reading_authority ∷ [])
verify_chain_sound_example =
    verify_chain_sound ascii_platform coefficients is_more_trans root_authority
      (reading_authority ∷ []) verified_chain

-- Every text is a time that does not pass.
abbrev pub endless : Calendar
endless = record {
  strip = λ s. s;
  parse_iso = λ s. some none;
  iso_format = λ n. "2026-01-01T00:00:00+00:00";
}

abbrev pub token_ref : SecretRef
token_ref = record { provider = "env"; namespace = ""; path = "TOKEN"; key = none; version = none }

abbrev token_requirement : CredentialRequirement
token_requirement = record {
  name = "token";
  required_scopes = "read" ∷ [];
  secret_ref = some token_ref;
  dynamic_role = none;
  production_broker_required = false;
  max_ttl_seconds = some (pos 60);
}

abbrev pub token_request : CredentialRequest
token_request = record {
  request_id = "req-1";
  mission_id = "m-1";
  node_id = "n-1";
  capability_id = "cap-1";
  tenant_id = "acme";
  authority_context_id = "auth-1";
  requirement = token_requirement;
  requested_ttl_seconds = some (pos 30);
}

token_allowed :
    authorize_request ascii_platform endless false (pos 0) token_request root_authority ≡ ok allowed
unfolding authorize_request
token_allowed = refl

authorize_request_iff_example :
    (authorize_request ascii_platform endless false (pos 0) token_request root_authority
      ≡ ok allowed)
    ↔ IsAuthorized ascii_platform endless false (pos 0) token_request root_authority
authorize_request_iff_example =
    authorize_request_iff ascii_platform endless false (pos 0) token_request root_authority
