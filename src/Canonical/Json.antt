-- ===== src/Canonical/Json.antt =====
-- The values that a contract's `canonical_form` builds, and that canonicalisation returns:
-- null, booleans, integers, texts, lists and maps with text keys (canonical.py).
use runtime_contracts.Prelude.{String, Bool, List, [], ◌∷◌, ℤ, Option, none, some, true, false}

mutual
  pub data Json : Type 0 where
    null : Json
    bool : Bool → Json
    int : ℤ → Json
    str : String → Json
    arr : Items → Json
    obj : Fields → Json

  pub data Items : Type 0 where
    nil : Items
    cons : Json → Items → Items

  pub data Fields : Type 0 where
    end : Fields
    field : String → Json → Fields → Fields

-- A dict under construction, as an association list in insertion order.
abbrev pub Dict : Type 0 → Type 0
Dict V = List (String × V)

abbrev pub fields : Dict Json → Fields
fields [] = end
fields ((k, v) ∷ d) = field k v (fields d)

abbrev pub items : List Json → Items
items [] = nil
items (v ∷ vs) = cons v (items vs)

-- `None` beside a value, and `value or None` for a text.
abbrev pub opt_str : Option String → Json
opt_str none = null
opt_str (some s) = str s

abbrev pub opt_int : Option ℤ → Json
opt_int none = null
opt_int (some n) = int n

abbrev pub or_null : String → Json
or_null String.[] = null
or_null (String.◌∷◌ c s) = str (String.◌∷◌ c s)

abbrev pub strs : List String → Json
strs l = arr (items (go l))
  where
    go : List String → List Json
    go [] = []
    go (s ∷ r) = str s ∷ go r

-- `value is None`
abbrev pub is_null : Json → Bool
is_null null = true
is_null _ = false
