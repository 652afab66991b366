-- ===== src/Canonical/Dict.antt =====
-- Assignment into a dict, `d[k] = v`: a key that is there keeps its place and gets the new value;
-- lookup and removal.
use runtime_contracts.Prelude.{
  String, [], ◌∷◌, ◌≡◌, refl, ◌==◌, if◌then◌else◌, Option, none, some, arith, eq_iff, string_eq,
}
use runtime_contracts.Canonical.Json.{Dict}

module _ {V : Type 0} where
  unfoldable pub put : String → V → Dict V → Dict V
  put k v [] = (k, v) ∷ []
  put k v (e ∷ d) = if k == e.0 then (k, v) ∷ d else e ∷ put k v d

  -- `d.get(k)`
  unfoldable pub get : String → Dict V → Option V
  get k [] = none
  get k (e ∷ d) = if k == e.0 then some e.1 else get k d

  pub get-put :
      (j k : String) (v : V) (d : Dict V) → get j (put k v d) ≡ (if j == k then some v else get j d)
  unfolding get put
  get-put j k v [] = refl
  get-put j k v (e ∷ d) = ground (arith, eq_iff j k, eq_iff k e.0, eq_iff j e.0, get-put j k v d)

  -- `d.pop(k, None)`
  unfoldable pub remove : String → Dict V → Dict V
  remove k [] = []
  remove k (e ∷ d) = let rest = remove k d in if k == e.0 then rest else e ∷ rest

  pub get-remove :
      (j k : String) (d : Dict V) → get j (remove k d) ≡ (if j == k then none else get j d)
  unfolding get remove
  get-remove j k [] = ground arith
  get-remove j k (e ∷ d) = ground (arith, eq_iff j k, eq_iff k e.0, eq_iff j e.0, get-remove j k d)
