-- ===== src/Canonical/Value.antt =====
-- `canonicalize`, `content_hash` and `sorted_unique` of canonical.py.
use Prim.Native.String.{◌++◌ as append}
use runtime_contracts.Prelude.{
  string_order, String, Bool, true, false, List, [], ◌∷◌, if◌then◌else◌, Result, ok, raise, ◌>>=◌,
  ℤ, Order, ◌==◌, Eq,
}
use runtime_contracts.Prelude.Sort.{sort}
use runtime_contracts.Canonical.Dict.{put}
use runtime_contracts.Canonical.Json.{Json, Items, Fields, Dict, fields, is_null}
use runtime_contracts.Canonical.Decimal.{Decimal, decimal_string, CanonicalizationError}

-- What is not in the repository: Unicode's NFC, and SHA-256 over the UTF-8 of the JSON text.
pub record Platform : Type 0 where
  pub nfc : String → String
  pub sha256 : Json → String

-- A map key that is a text, or any other hashable value.
pub data Key : Type 0 where
  text : String → Key
  other : Key

-- The Python values that `canonicalize` tells apart. `object v` has a `canonical_form` method that
-- returns `v`, and `opaque` has none.
mutual
  pub data Value : Type 0 where
    null : Value
    bool : Bool → Value
    int : ℤ → Value
    float : Value
    decimal : Decimal → Value
    str : String → Value
    mapping : Entries → Value
    sequence : Values → Value
    set : Value
    object : Value → Value
    opaque : Value

  pub data Values : Type 0 where
    nil : Values
    cons : Value → Values → Values

  pub data Entries : Type 0 where
    end : Entries
    entry : Key → Value → Entries → Entries

-- The body of the loop over a map's items: a null is dropped.
unfoldable pub keep : String → Json → Dict Json → Dict Json
unfolding put
keep k v out = if is_null v then out else put k v out

-- `{k: out[k] for k in sorted(out)}`
unfoldable pub sorted_fields : Dict Json → Fields
unfolding sort
sorted_fields out = fields (sort (λ e. e.0) out)

module _ (env : Platform) where
  unfoldable mutual
    unfolding keep sorted_fields decimal_string

    pub canonicalize : Value → Result CanonicalizationError Json
    canonicalize Value.null = ok Json.null
    canonicalize (Value.bool b) = ok (Json.bool b)
    canonicalize (Value.int n) = ok (Json.int n)
    canonicalize Value.float = raise CanonicalizationError.float_value
    canonicalize (Value.decimal d) = do s ← decimal_string d; ok (Json.str s)
    canonicalize (Value.str s) = ok (Json.str (env.nfc s))
    canonicalize (Value.mapping es) = do
      out ← canonicalize_entries es []
      ok (Json.obj (sorted_fields out))
    canonicalize (Value.sequence vs) = do js ← canonicalize_values vs; ok (Json.arr js)
    canonicalize Value.set = raise CanonicalizationError.unordered_set
    canonicalize (Value.object v) = canonicalize v
    canonicalize Value.opaque = raise CanonicalizationError.no_canonical_form

    pub canonicalize_values : Values → Result CanonicalizationError Items
    canonicalize_values Values.nil = ok Items.nil
    canonicalize_values (Values.cons v vs) = do
      j ← canonicalize v
      js ← canonicalize_values vs
      ok (Items.cons j js)

    pub canonicalize_entries : Entries → Dict Json → Result CanonicalizationError (Dict Json)
    canonicalize_entries Entries.end out = ok out
    canonicalize_entries (Entries.entry Key.other v es) out =
        raise CanonicalizationError.non_string_key
    canonicalize_entries (Entries.entry (Key.text k) v es) out = do
      j ← canonicalize v
      canonicalize_entries es (keep (env.nfc k) j out)

  -- The same on a value that a `canonical_form` of the contracts has built: it is not refused.
  unfoldable mutual
    unfolding keep sorted_fields

    pub reduce : Json → Json
    reduce Json.null = Json.null
    reduce (Json.bool b) = Json.bool b
    reduce (Json.int n) = Json.int n
    reduce (Json.str s) = Json.str (env.nfc s)
    reduce (Json.arr js) = Json.arr (reduce_items js)
    reduce (Json.obj fs) = Json.obj (sorted_fields (reduce_fields fs []))

    pub reduce_items : Items → Items
    reduce_items Items.nil = Items.nil
    reduce_items (Items.cons j js) = Items.cons (reduce j) (reduce_items js)

    pub reduce_fields : Fields → Dict Json → Dict Json
    reduce_fields Fields.end out = out
    reduce_fields (Fields.field k v fs) out = reduce_fields fs (keep (env.nfc k) (reduce v) out)

  -- `f"{HASH_PREFIX}:{digest}"`
  digest : Json → String
  digest j = append "rcv1:" (env.sha256 j)

  unfoldable pub content_hash : Value → Result CanonicalizationError String
  unfolding canonicalize digest
  content_hash v = do j ← canonicalize v; ok (digest j)

  unfoldable pub json_hash : Json → String
  unfolding reduce digest
  json_hash j = digest (reduce j)

-- `seen.setdefault(key(item), item)` over the items: the first item of each key, in order.
module _ {A K : Type 0} ⦃e : Eq K⦄ (key : A → K) where
  unfoldable pub has_key : K → List A → Bool
  has_key k [] = false
  has_key k (x ∷ xs) = if k == key x then true else has_key k xs

  unfoldable pub first_seen : List A → List A → List A
  unfolding has_key
  first_seen seen [] = []
  first_seen seen (x ∷ xs) =
      let dup = first_seen seen xs in
      let new = x ∷ first_seen (x ∷ seen) xs in if has_key (key x) seen then dup else new

  unfoldable pub sorted_unique : ⦃o : Order K⦄ → List A → List A
  unfolding first_seen sort
  sorted_unique xs = sort key (first_seen [] xs)
