-- ===== src/Prelude/Truth.antt =====
-- Python's truth of a text and of an optional text: the empty text is false, and so is `None`.
use Prim.Native.String.{String}
use mathlib.Core.Bool.{Bool, true, false}
use mathlib.Core.Option.{Option, none, some}

abbrev pub truthy : String → Bool
truthy String.[] = false
truthy (String.◌∷◌ c s) = true

abbrev pub given : Option String → Bool
given none = false
given (some s) = truthy s

-- `x is None`
abbrev pub is_none {ℓ} : {A : Type ℓ} → Option A → Bool
is_none none = true
is_none (some x) = false
