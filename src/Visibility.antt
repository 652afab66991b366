-- ===== src/Visibility.antt =====
-- models/visibility.py: who an artifact belongs to, and who may cite it.
pub mod Laws
use runtime_contracts.Prelude.{
  String, Bool, true, false, not, ◌&&◌, Option, none, some, [], ◌∷◌, given, ◌==◌, string_eq, Result,
  ok, raise_if, ◌>>◌, ◌>>=◌,
}
use runtime_contracts.Canonical.Json.{Json, obj, str, fields, opt_str}

pub data Visibility : Type 0 where
  public private internal : Visibility

abbrev pub visibility_value : Visibility → String
visibility_value public = "PUBLIC"
visibility_value private = "PRIVATE"
visibility_value internal = "INTERNAL"

pub data AuthorizationOutcome : Type 0 where
  granted denied_visibility denied_tenant denied_stale denied_budget : AuthorizationOutcome

abbrev pub authorization_value : AuthorizationOutcome → String
authorization_value granted = "GRANTED"
authorization_value denied_visibility = "DENIED_VISIBILITY"
authorization_value denied_tenant = "DENIED_TENANT"
authorization_value denied_stale = "DENIED_STALE"
authorization_value denied_budget = "DENIED_BUDGET"

abbrev pub is_granted : AuthorizationOutcome → Bool
is_granted granted = true
is_granted _ = false

pub record Tenancy : Type 0 where
  pub visibility : Visibility
  pub tenant_id : Option String

-- The two `ValueError`s of `Tenancy.__post_init__`.
pub data TenancyError : Type 0 where
  private_without_tenant public_with_tenant : TenancyError

abbrev pub is_private : Visibility → Bool
is_private private = true
is_private _ = false

abbrev pub is_public : Visibility → Bool
is_public public = true
is_public _ = false

-- `Tenancy(visibility, tenant_id)`
unfoldable pub make_tenancy : Visibility → Option String → Result TenancyError Tenancy
make_tenancy v t = do
  raise_if (is_private v && not (given t)) private_without_tenant
  raise_if (is_public v && given t) public_with_tenant
  ok (record { visibility = v; tenant_id = t })

-- `==` on `Optional[str]`
abbrev pub same_text : Option String → Option String → Bool
same_text none none = true
same_text (some s) (some t) = s == t
same_text _ _ = false

unfoldable pub may_be_cited_by : Tenancy → Tenancy → Bool
may_be_cited_by a other = elim a.visibility [
  | public ↦ true
  | _ ↦ elim other.visibility [ public ↦ false | _ ↦ same_text a.tenant_id other.tenant_id ]
]

unfoldable pub tenancy_form : Tenancy → Json
tenancy_form t = obj (
    fields (
      ("visibility", str (visibility_value t.visibility))
      ∷ ("tenant_id", opt_str t.tenant_id)
      ∷ []))
