-- ===== src/Handle.antt =====
-- models/handle.py: a reference that can be judged before it is dereferenced.
use Prim.Native.Char.{code}
use runtime_contracts.Prelude.{
  String, Bool, false, not, ◌||◌, ◌==◌, nat_eq, if◌then◌else◌, List, [], ◌∷◌, Option, ℤ, Result,
  raise_if, string_order,
}
use runtime_contracts.Prelude.Sort.{sort}
use runtime_contracts.Canonical.Json.{Json, obj, str, fields, strs, or_null}
use runtime_contracts.Canonical.Value.{Platform, json_hash}
use runtime_contracts.Visibility.{Tenancy, tenancy_form}

pub data Freshness : Type 0 where
  current superseded expired unknown : Freshness

-- `estimated_expansion_cost` is a decimal text; a float is refused by the constructor.
pub record ArtifactHandle : Type 0 where
  pub artifact_id : String
  pub artifact_type : String
  pub version : String
  pub artifact_content_hash : String
  pub tenancy : Tenancy
  pub authority : String
  pub observed_at : Option String
  pub freshness : Freshness
  pub projections : List String
  pub estimated_expansion_tokens : Option ℤ
  pub estimated_expansion_cost : Option String

pub data HandleError : Type 0 where
  not_version_pinned : HandleError

-- `"@" in s`
unfoldable pub has_at : String → Bool
has_at String.[] = false
has_at (String.◌∷◌ c s) = (code c == b'@') || has_at s

-- `s.split("@")[0]`
unfoldable pub before_at : String → String
before_at String.[] = String.[]
before_at (String.◌∷◌ c s) = if code c == b'@' then String.[] else String.◌∷◌ c (before_at s)

-- `ArtifactHandle.__post_init__`
unfoldable pub handle_post_init : ArtifactHandle → Result HandleError (Unit {0})
unfolding has_at
handle_post_init h = raise_if (not (has_at h.artifact_id)) not_version_pinned

unfoldable pub concept_id : ArtifactHandle → String
unfolding before_at
concept_id h = before_at h.artifact_id

unfoldable pub handle_form : ArtifactHandle → Json
unfolding sort tenancy_form
handle_form h = obj (
    fields (
      ("artifact_id", str h.artifact_id)
      ∷ ("artifact_type", str h.artifact_type)
      ∷ ("version", str h.version)
      ∷ ("artifact_content_hash", str h.artifact_content_hash)
      ∷ ("tenancy", tenancy_form h.tenancy)
      ∷ ("authority", or_null h.authority)
      ∷ ("projections", strs (sort (λ s. s) h.projections))
      ∷ []))

unfoldable pub handle_hash : Platform → ArtifactHandle → String
unfolding json_hash handle_form
handle_hash env h = json_hash env (handle_form h)
