-- ===== src/Canonical/Laws.antt =====
-- `canonicalize` of canonical.py on the forms that the contracts build.
use runtime_contracts.Prelude.{[], ◌≡◌, refl, string_eq, string_order, ok}
use runtime_contracts.Canonical.Json.{Json, Items, Fields, Dict}
use runtime_contracts.Canonical.Value.{
  Platform, Value, Values, Entries, Key, keep, canonicalize, canonicalize_values,
  canonicalize_entries, reduce, reduce_items, reduce_fields,
}

-- The Python value that a form of the contracts is.
unfoldable mutual
  pub of_json : Json → Value
  of_json Json.null = Value.null
  of_json (Json.bool b) = Value.bool b
  of_json (Json.int n) = Value.int n
  of_json (Json.str s) = Value.str s
  of_json (Json.arr js) = Value.sequence (of_items js)
  of_json (Json.obj fs) = Value.mapping (of_fields fs)

  pub of_items : Items → Values
  of_items Items.nil = Values.nil
  of_items (Items.cons j js) = Values.cons (of_json j) (of_items js)

  pub of_fields : Fields → Entries
  of_fields Fields.end = Entries.end
  of_fields (Fields.field k v fs) = Entries.entry (Key.text k) (of_json v) (of_fields fs)

module _ (env : Platform) where
  mutual
    unfolding canonicalize reduce of_json

    reduces : (j : Json) → canonicalize env (of_json j) ≡ ok (reduce env j)
    reduces Json.null = refl
    reduces (Json.bool b) = refl
    reduces (Json.int n) = refl
    reduces (Json.str s) = refl
    reduces (Json.arr js) = rw (reduces_items js)
    reduces (Json.obj fs) = rw (reduces_fields fs [])

    reduces_items : (js : Items) → canonicalize_values env (of_items js) ≡ ok (reduce_items env js)
    reduces_items Items.nil = refl
    reduces_items (Items.cons j js) = rw (reduces j) (rw (reduces_items js))

    reduces_fields :
        (fs : Fields) (out : Dict Json)
        → canonicalize_entries env (of_fields fs) out ≡ ok (reduce_fields env fs out)
    reduces_fields Fields.end out = refl
    reduces_fields (Fields.field k v fs) out =
        rw (reduces v) (reduces_fields fs (keep (env.nfc k) (reduce env v) out))

  -- A form of the contracts is never refused: `canonicalize` returns what `reduce` returns.
  pub canonicalize-of_json : (j : Json) → canonicalize env (of_json j) ≡ ok (reduce env j)
  canonicalize-of_json j = reduces j
