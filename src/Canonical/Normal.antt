-- ===== src/Canonical/Normal.antt =====
-- What a canonical form of canonical.py looks like, and dicts with distinct keys.
use runtime_contracts.Prelude.{
  String, false, [], ◌∷◌, ◌++◌, ◌≡◌, ◌≢◌, refl, arith, eq_iff, ◌==◌, string_eq, string_order, All,
  Bool-cases, inl, inr, ap, subst, sym,
}
use runtime_contracts.Prelude.Sort.{sort, IsSorted, All-sort, insert, All-insert}
use runtime_contracts.Canonical.Dict.{put}
use runtime_contracts.Canonical.Json.{Json, Items, Fields, Dict, fields, is_null}
use runtime_contracts.Canonical.Value.{Platform}

abbrev pub entries : Fields → Dict Json
entries Fields.end = []
entries (Fields.field k v fs) = (k, v) ∷ entries fs

pub entries-fields : (d : Dict Json) → entries (fields d) ≡ d
entries-fields [] = refl
entries-fields (e ∷ d) = ap (◌∷◌ e) (entries-fields d)

-- No two entries have the same key.
abbrev pub Absent : String → Dict Json → Type 0
Absent k = All (λ e. k ≢ e.0)

abbrev pub HasDistinct : Dict Json → Type 0
HasDistinct [] = Unit
HasDistinct (e ∷ d) = Absent e.0 d × HasDistinct d

module _ (env : Platform) where
  -- Texts are normalised, maps hold no null, and their keys are distinct and in order.
  unfoldable mutual
    pub IsCanonical : Json → Type 0
    IsCanonical (Json.str s) = env.nfc s ≡ s
    IsCanonical (Json.arr js) = AreCanonical js
    IsCanonical (Json.obj fs) =
        FieldsCanonical fs × IsSorted (λ e. e.0) (entries fs) × HasDistinct (entries fs)
    IsCanonical Json.null = Unit
    IsCanonical (Json.bool b) = Unit
    IsCanonical (Json.int n) = Unit

    pub AreCanonical : Items → Type 0
    AreCanonical Items.nil = Unit
    AreCanonical (Items.cons j js) = IsCanonical j × AreCanonical js

    pub FieldsCanonical : Fields → Type 0
    FieldsCanonical Fields.end = Unit
    FieldsCanonical (Fields.field k v fs) =
        (env.nfc k ≡ k) × (is_null v ≡ false) × IsCanonical v × FieldsCanonical fs

  abbrev pub IsGood : String × Json → Type 0
  IsGood e = (env.nfc e.0 ≡ e.0) × (is_null e.1 ≡ false) × IsCanonical e.1

  pub FieldsCanonical-fields : (d : Dict Json) → All IsGood d → FieldsCanonical (fields d)
  unfolding IsCanonical
  FieldsCanonical-fields [] h = tt
  FieldsCanonical-fields (e ∷ d) h = (h.0.0, h.0.1, h.0.2, FieldsCanonical-fields d h.1)

pub put-good :
    (P : String × Json → Type 0) (k : String) (v : Json) (d : Dict Json)
    → P (k, v)
    → All P d
    → All P (put k v d)
unfolding put
put-good P k v [] p h = (p, h)
put-good P k v (e ∷ d) p h = elim (Bool-cases (k == e.0)) [
  | inl q ↦ rw q (p, h.1)
  | inr q ↦ rw q (h.0, put-good P k v d p h.1)
]

pub put-HasDistinct :
    (k : String) (v : Json) (d : Dict Json) → HasDistinct d → HasDistinct (put k v d)
unfolding put
put-HasDistinct k v [] h = (tt, tt)
put-HasDistinct k v (e ∷ d) h = elim (Bool-cases (k == e.0)) [
  | inl q ↦ rw q (subst (λ x. Absent x d) (sym ((eq_iff k e.0).0 q)) h.0, h.1)
  | inr q ↦ rw q (
    put-good (λ x. e.0 ≢ x.0) k v d (λ same. absurd (ground (arith, eq_iff k e.0))) h.0,
    put-HasDistinct k v d h.1,
  )
]

pub insert-HasDistinct :
    (e : String × Json) (d : Dict Json)
    → Absent e.0 d
    → HasDistinct d
    → HasDistinct (insert (λ x. x.0) e d)
unfolding insert
insert-HasDistinct e [] a h = (tt, tt)
insert-HasDistinct e (x ∷ d) a h = elim (Bool-cases (string_order.le e.0 x.0)) [
  | inl q ↦ rw q (a, h)
  | inr q ↦ rw q (
    All-insert (λ y. y.0) (λ y. x.0 ≢ y.0) e d (λ same. a.0 (sym same)) h.0,
    insert-HasDistinct e d a.1 h.1,
  )
]

pub sort-HasDistinct : (d : Dict Json) → HasDistinct d → HasDistinct (sort (λ x. x.0) d)
unfolding sort
sort-HasDistinct [] h = tt
sort-HasDistinct (e ∷ d) h =
    insert-HasDistinct e (sort (λ x. x.0) d) (All-sort (λ x. x.0) (λ y. e.0 ≢ y.0) d h.0)
      (sort-HasDistinct d h.1)

pub put-Absent : (k : String) (v : Json) (d : Dict Json) → Absent k d → put k v d ≡ d ++ (k, v) ∷ []
unfolding put
put-Absent k v [] a = refl
put-Absent k v (e ∷ d) a = ground (arith, eq_iff k e.0, put-Absent k v d a.1)
