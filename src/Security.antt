-- ===== src/Security.antt =====
-- protocol/security.py: verdicts, principals, authority and its delegation, context identity.
pub mod Combine
pub mod Delegation
use runtime_contracts.Prelude.{
  ℤ, ◌+ℤ◌, ℕ, suc, String, Bool, true, false, not, ◌&&◌, ◌||◌, List, [], ◌∷◌, ◌++◌, map, all,
  Option, none, some, truthy, is_empty, is_none, member, ◌==◌, ltb, string_eq, string_order, str_le,
  pos, if◌then◌else◌, Result, ok, raise, raise_if, ◌>>◌, ◌>>=◌,
}
use Prim.Native.String.{◌++◌ as append}
use runtime_contracts.Canonical.Json.{Json, Dict, obj, str, int, fields, strs}
use runtime_contracts.Canonical.Decimal.{Decimal, CanonicalizationError, decimal_string}
use runtime_contracts.Canonical.Value.{Platform, json_hash, sorted_unique}

pub data SecurityVerdict : Type 0 where
  allow attestation isolation stronger_auth require_review deny : SecurityVerdict

abbrev pub security_value : SecurityVerdict → String
security_value allow = "ALLOW"
security_value attestation = "ATTESTATION"
security_value isolation = "ISOLATION"
security_value stronger_auth = "STRONGER_AUTH"
security_value require_review = "REQUIRE_REVIEW"
security_value deny = "DENY"

-- `_VERDICT_RANK`
unfoldable pub rank : SecurityVerdict → ℕ
rank allow = 0
rank attestation = 1
rank isolation = 2
rank stronger_auth = 3
rank require_review = 4
rank deny = 5

pub record SecurityDecision : Type 0 where
  pub verdict : SecurityVerdict
  pub subject : String
  pub resource : String
  pub reason : String
  pub obligations : List String
  pub evidence : List String
  pub decided_by : String

-- `SecurityDecision(verdict)`
abbrev pub bare_decision : SecurityVerdict → SecurityDecision
bare_decision v = record {
  verdict = v;
  subject = "";
  resource = "";
  reason = "";
  obligations = [];
  evidence = [];
  decided_by = "";
}

abbrev pub is_allowed : SecurityDecision → Bool
is_allowed d = elim d.verdict [ allow ↦ true | _ ↦ false ]

-- `sorted(set(xs))`
abbrev pub sorted_set : List String → List String
sorted_set xs = sorted_unique (λ s. s) xs

-- `if value: d[key] = value`
abbrev pub text_field : String → String → Dict Json
text_field k s = if truthy s then (k, str s) ∷ [] else []

-- `if values: d[key] = sorted(set(values))`
abbrev pub set_field : String → List String → Dict Json
set_field k xs = if is_empty xs then [] else (k, strs (sorted_set xs)) ∷ []

unfoldable pub decision_form : SecurityDecision → Json
decision_form d = obj (
    fields (
      ("verdict", str (security_value d.verdict))
      ∷ (text_field "subject" d.subject
          ++ text_field "resource" d.resource
          ++ text_field "reason" d.reason
          ++ set_field "obligations" d.obligations
          ++ set_field "evidence" d.evidence
          ++ text_field "decided_by" d.decided_by)))

unfoldable pub decision_hash : Platform → SecurityDecision → String
unfolding json_hash decision_form
decision_hash env d = json_hash env (decision_form d)

-- `max(decisions, key=lambda x: x.verdict.rank)`: the first of the highest rank.
unfoldable pub severest : SecurityDecision → List SecurityDecision → SecurityDecision
unfolding rank
severest best [] = best
severest best (d ∷ ds) =
    let later = severest d ds in
    let kept = severest best ds in if ltb (rank best.verdict) (rank d.verdict) then later else kept

unfoldable pub all_obligations : List SecurityDecision → List String
all_obligations [] = []
all_obligations (d ∷ ds) = d.obligations ++ all_obligations ds

unfoldable pub all_evidence : List SecurityDecision → List String
all_evidence [] = []
all_evidence (d ∷ ds) = d.evidence ++ all_evidence ds

unfoldable pub combine : List SecurityDecision → SecurityDecision
unfolding severest all_obligations all_evidence sorted_unique
combine [] = bare_decision allow
combine (d ∷ ds) = record (severest d ds) {
  obligations = sorted_set (all_obligations (d ∷ ds));
  evidence = sorted_set (all_evidence (d ∷ ds));
}

pub record PrincipalRef : Type 0 where
  pub id : String
  pub kind : String
  pub tenant : String
  pub roles : List String
  pub auth_level : String

unfoldable pub principal_form : PrincipalRef → Json
principal_form p = obj (
    fields (
      ("id", str p.id)
      ∷ ("kind", str p.kind)
      ∷ (text_field "tenant" p.tenant
          ++ set_field "roles" p.roles
          ++ text_field "auth_level" p.auth_level)))

unfoldable pub principal_hash : Platform → PrincipalRef → String
unfolding json_hash principal_form
principal_hash env p = json_hash env (principal_form p)

abbrev pub wildcard : String
wildcard = "*"

-- The depth counts the delegations from the root.
pub record AuthorityContext : Type 0 where
  pub authority_id : String
  pub principal : PrincipalRef
  pub purpose : String
  pub scope : List String
  pub constraints : List String
  pub max_cost : Option Decimal
  pub expires_at : String
  pub parent_digest : String
  pub depth : ℤ

-- The `DelegationRefused`s, by the check that raises them.
pub data DelegationRefusal : Type 0 where
  widens_scope exceeds_budget outlasts_parent : DelegationRefusal
  empty_chain root_with_parent broken_link drops_constraint : DelegationRefusal

-- What a call raises. A comparison of decimals raises for a NaN.
pub data SecurityError : Type 0 where
  delegation_refused : DelegationRefusal → SecurityError
  no_canonical_cost : CanonicalizationError → SecurityError
  not_comparable : SecurityError

-- `if self.max_cost is not None: d["max_cost"] = decimal_string(self.max_cost)`
unfoldable pub cost_field : Option Decimal → Result SecurityError (Dict Json)
unfolding decimal_string
cost_field none = ok []
cost_field (some c) = elim (decimal_string c) [
  | ok s ↦ ok (("max_cost", str s) ∷ [])
  | raise e ↦ raise (no_canonical_cost e)
]

unfoldable pub authority_form : AuthorityContext → Result SecurityError Json
unfolding cost_field principal_form
authority_form a = do
  cost ← cost_field a.max_cost
  ok (
      obj (
        fields (
          ("authority_id", str a.authority_id)
          ∷ ("principal", principal_form a.principal)
          ∷ ("depth", int a.depth)
          ∷ (text_field "purpose" a.purpose
              ++ set_field "scope" a.scope
              ++ set_field "constraints" a.constraints
              ++ cost
              ++ text_field "expires_at" a.expires_at
              ++ text_field "parent_digest" a.parent_digest))))

unfoldable pub permits_scope : AuthorityContext → String → Bool
permits_scope a p = member wildcard a.scope || member p a.scope

-- `_covers_scope`
unfoldable pub covers_scope : AuthorityContext → List String → Bool
unfolding permits_scope
covers_scope a child = all (λ p. permits_scope a p) child

-- `set(parent) <= set(child)`
abbrev pub keeps_all : List String → List String → Bool
keeps_all parent child = all (λ c. member c child) parent

-- `parent and (not child or child > parent)`, on expiry texts
abbrev pub outlasts : String → String → Bool
outlasts parent child = truthy parent && (not (truthy child) || not (str_le child parent))

-- Python's `>` on decimals.
pub record CostOrder : Type 0 where
  pub exceeds : Decimal → Decimal → Result SecurityError Bool

module _ (env : Platform) where
  unfoldable pub digest_of : AuthorityContext → Result SecurityError String
  unfolding authority_form
  digest_of a = do form ← authority_form a; ok (json_hash env form)

  -- `f"{self.authority_id}@{self.digest()}"`
  unfoldable pub chain_ref : AuthorityContext → Result SecurityError String
  unfolding digest_of
  chain_ref a = do d ← digest_of a; ok (append a.authority_id (append "@" d))

-- The arguments of `narrow`: an omitted one is `none`, and omitted constraints are the empty list.
pub record Narrowing : Type 0 where
  pub authority_id : String
  pub scope : Option (List String)
  pub purpose : Option String
  pub constraints : List String
  pub max_cost : Option Decimal
  pub expires_at : Option String
  pub principal : Option PrincipalRef

-- `default if x is None else x`
abbrev pub unless_none {ℓ} : {A : Type ℓ} → Option A → A → A
unless_none none a = a
unless_none (some x) a = x

-- `self.max_cost if max_cost is None else max_cost`
abbrev pub child_cost : Option Decimal → Option Decimal → Option Decimal
child_cost none parent = parent
child_cost (some c) parent = some c

module _ (costs : CostOrder) where
  -- `parent is not None and (child is None or child > parent)`, on budgets
  unfoldable pub over_cost : Option Decimal → Option Decimal → Result SecurityError Bool
  over_cost none child = ok false
  over_cost (some p) none = ok true
  over_cost (some p) (some c) = costs.exceeds c p

module _ (env : Platform) (costs : CostOrder) where
  unfoldable pub narrow : AuthorityContext → Narrowing → Result SecurityError AuthorityContext
  unfolding covers_scope over_cost digest_of sorted_unique
  narrow a n = do
    raise_if (not (covers_scope a (unless_none n.scope a.scope))) (delegation_refused widens_scope)
    over ← over_cost costs a.max_cost (child_cost n.max_cost a.max_cost)
    raise_if over (delegation_refused exceeds_budget)
    raise_if (outlasts a.expires_at (unless_none n.expires_at a.expires_at))
        (delegation_refused outlasts_parent)
    d ← digest_of env a
    ok (record {
      authority_id = n.authority_id;
      principal = unless_none n.principal a.principal;
      purpose = unless_none n.purpose a.purpose;
      scope = unless_none n.scope a.scope;
      constraints = sorted_set (a.constraints ++ n.constraints);
      max_cost = child_cost n.max_cost a.max_cost;
      expires_at = unless_none n.expires_at a.expires_at;
      parent_digest = d;
      depth = a.depth +ℤ pos 1;
    })

  -- The body of the loop of `verify_chain` over the pairs of a parent and its child.
  unfoldable pub verify_link : AuthorityContext → AuthorityContext → Result SecurityError (Unit {0})
  unfolding covers_scope over_cost digest_of
  verify_link parent child = do
    d ← digest_of env parent
    raise_if (not (child.parent_digest == d)) (delegation_refused broken_link)
    raise_if (not (covers_scope parent child.scope)) (delegation_refused widens_scope)
    raise_if (not (keeps_all parent.constraints child.constraints))
        (delegation_refused drops_constraint)
    over ← over_cost costs parent.max_cost child.max_cost
    raise_if over (delegation_refused exceeds_budget)
    raise_if (outlasts parent.expires_at child.expires_at) (delegation_refused outlasts_parent)

  unfoldable pub verify_links :
      AuthorityContext → List AuthorityContext → Result SecurityError (Unit {0})
  unfolding verify_link
  verify_links parent [] = ok tt
  verify_links parent (child ∷ chain) = do verify_link parent child; verify_links child chain

  unfoldable pub verify_chain : List AuthorityContext → Result SecurityError (Unit {0})
  unfolding verify_links
  verify_chain [] = raise (delegation_refused empty_chain)
  verify_chain (root ∷ chain) = do
    raise_if (truthy root.parent_digest) (delegation_refused root_with_parent)
    verify_links root chain

pub record ContextIdentity : Type 0 where
  pub tenant : String
  pub permissions : List String
  pub data_classification : String
  pub model_revision : String
  pub tokenizer_revision : String
  pub prompt_prefix_hash : String

module _ (env : Platform) where
  unfoldable pub policy_fingerprint : ContextIdentity → String
  unfolding json_hash sorted_unique
  policy_fingerprint c = json_hash env (
      obj (
        fields (
          ("kind", str "policy")
          ∷ ("tenant", str c.tenant)
          ∷ ("permissions", strs (sorted_set c.permissions))
          ∷ ("data_classification", str c.data_classification)
          ∷ ("model_revision", str c.model_revision)
          ∷ ("tokenizer_revision", str c.tokenizer_revision)
          ∷ [])))

  unfoldable pub context_id : ContextIdentity → String
  unfolding json_hash policy_fingerprint
  context_id c = json_hash env (
      obj (
        fields (
          ("kind", str "ctx")
          ∷ ("prompt_prefix_hash", str c.prompt_prefix_hash)
          ∷ ("model_tokenizer", str (append c.model_revision (append "/" c.tokenizer_revision)))
          ∷ ("policy_fingerprint", str (policy_fingerprint c))
          ∷ [])))
