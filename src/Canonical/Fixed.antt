-- ===== src/Canonical/Fixed.antt =====
-- What `canonicalize` of canonical.py makes of its own results.
use runtime_contracts.Prelude.{
  String, false, [], ◌∷◌, ◌++◌, ◌≡◌, ◌≢◌, refl, arith, string_eq, string_order, All, ok, ◌>>=◌,
  >>=-eq-ok, Bool-cases, inl, inr, ap, subst, sym, ◌∙◌,
}
use runtime_contracts.Prelude.Sort.{sort, sort-IsSorted, sort_of_IsSorted, All-sort}
use mathlib.Core.List.{append-nil, append_assoc}
use runtime_contracts.Canonical.Json.{Json, Items, Fields, Dict, fields, is_null}
use runtime_contracts.Canonical.Decimal.{decimal_string}
use runtime_contracts.Canonical.Decimal.Ascii.{IsAscii, decimal_string-IsAscii}
use runtime_contracts.Canonical.Value.{
  Platform, Value, Values, Entries, Key, keep, sorted_fields, canonicalize, canonicalize_values,
  canonicalize_entries, reduce, reduce_items, reduce_fields,
}
use runtime_contracts.Canonical.Laws.{of_json, canonicalize-of_json}
use runtime_contracts.Canonical.Normal.{
  entries, Absent, HasDistinct, IsCanonical, AreCanonical, FieldsCanonical, IsGood, entries-fields,
  FieldsCanonical-fields, put-good, put-HasDistinct, sort-HasDistinct, put-Absent,
}

-- NFC is idempotent and leaves ASCII text alone.
module _ (env : Platform) (nfc_idem : (s : String) → env.nfc (env.nfc s) ≡ env.nfc s)
    (nfc_ascii : (s : String) → IsAscii s → env.nfc s ≡ s) where
  keep-IsGood :
      (k : String) (v : Json) (out : Dict Json)
      → env.nfc k ≡ k
      → IsCanonical env v
      → All (IsGood env) out
      → All (IsGood env) (keep k v out)
  unfolding keep
  keep-IsGood k v out n c h = elim (Bool-cases (is_null v)) [
    | inl q ↦ rw q h
    | inr q ↦ rw q (put-good (IsGood env) k v out (n, q, c) h)
  ]

  keep-HasDistinct :
      (k : String) (v : Json) (out : Dict Json) → HasDistinct out → HasDistinct (keep k v out)
  unfolding keep
  keep-HasDistinct k v out h = elim (Bool-cases (is_null v)) [
    | inl q ↦ rw q h
    | inr q ↦ rw q (put-HasDistinct k v out h)
  ]

  mutual
    unfolding canonicalize sorted_fields IsCanonical

    canonical : (v : Value) (j : Json) → canonicalize env v ≡ ok j → IsCanonical env j
    canonical Value.null j h = subst (IsCanonical env) {x = Json.null} {y = j} (ground arith) tt
    canonical (Value.bool b) j h =
        subst (IsCanonical env) {x = Json.bool b} {y = j} (ground arith) tt
    canonical (Value.int n) j h = subst (IsCanonical env) {x = Json.int n} {y = j} (ground arith) tt
    canonical Value.float j h = cc
    canonical (Value.decimal d) j h =
        let (s, q, z) = >>=-eq-ok (decimal_string d) (λ s. ok (Json.str s)) h in
        subst (IsCanonical env) {x = Json.str s} {y = j} (ground arith)
          (nfc_ascii s (decimal_string-IsAscii d q))
    canonical (Value.str s) j h =
        subst (IsCanonical env) {x = Json.str (env.nfc s)} {y = j} (ground arith) (nfc_idem s)
    canonical (Value.mapping es) j h =
        let (out, q, z) =
          >>=-eq-ok (canonicalize_entries env es []) (λ o. ok (Json.obj (sorted_fields o))) h in
        let (good, distinct) = canonical_entries es [] out tt tt q in
        let e = λ (x : String × Json). x.0 in
        subst (IsCanonical env) {x = Json.obj (fields (sort e out))} {y = j} (ground arith) (
          FieldsCanonical-fields env (sort e out) (All-sort e (IsGood env) out good),
          rw (entries-fields (sort e out)) (sort-IsSorted e out),
          rw (entries-fields (sort e out)) (sort-HasDistinct out distinct),
        )
    canonical (Value.sequence vs) j h =
        let (js, q, z) = >>=-eq-ok (canonicalize_values env vs) (λ o. ok (Json.arr o)) h in
        subst (IsCanonical env) {x = Json.arr js} {y = j} (ground arith) (canonical_values vs js q)
    canonical Value.set j h = cc
    canonical (Value.object v) j h = canonical v j h
    canonical Value.opaque j h = cc

    canonical_values :
        (vs : Values) (js : Items) → canonicalize_values env vs ≡ ok js → AreCanonical env js
    canonical_values Values.nil js h =
        subst (AreCanonical env) {x = Items.nil} {y = js} (ground arith) tt
    canonical_values (Values.cons v vs) js h =
        let (j, q, r) =
          >>=-eq-ok (canonicalize env v)
            (λ a. canonicalize_values env vs >>= λ b. ok (Items.cons a b)) h in
        let (js', q', z) = >>=-eq-ok (canonicalize_values env vs) (λ b. ok (Items.cons j b)) r in
        subst (AreCanonical env) {x = Items.cons j js'} {y = js} (ground arith)
          (canonical v j q, canonical_values vs js' q')

    canonical_entries :
        (es : Entries) (out out' : Dict Json)
        → All (IsGood env) out
        → HasDistinct out
        → canonicalize_entries env es out ≡ ok out'
        → All (IsGood env) out' × HasDistinct out'
    canonical_entries Entries.end out out' g d h =
        subst (λ o. All (IsGood env) o × HasDistinct o) {x = out} {y = out'} (ground arith) (g, d)
    canonical_entries (Entries.entry Key.other v es) out out' g d h = cc
    canonical_entries (Entries.entry (Key.text k) v es) out out' g d h =
        let (j, q, r) =
          >>=-eq-ok (canonicalize env v) (λ a. canonicalize_entries env es (keep (env.nfc k) a out))
            h in
        canonical_entries es (keep (env.nfc k) j out) out'
          (keep-IsGood (env.nfc k) j out (nfc_idem k) (canonical v j q) g)
          (keep-HasDistinct (env.nfc k) j out d) r

module _ (env : Platform) where
  Absent-append :
      (j k : String) (v : Json) (out : Dict Json)
      → j ≢ k
      → Absent j out
      → Absent j (out ++ (k, v) ∷ [])
  Absent-append j k v [] n a = (n, tt)
  Absent-append j k v (e ∷ out) n a = (a.0, Absent-append j k v out n a.1)

  AbsentAll-append :
      (k : String) (v : Json) (out d : Dict Json)
      → Absent k d
      → All (λ e. Absent e.0 out) d
      → All (λ e. Absent e.0 (out ++ (k, v) ∷ [])) d
  AbsentAll-append k v out [] a h = tt
  AbsentAll-append k v out (e ∷ d) a h =
      (Absent-append e.0 k v out (λ same. a.0 (sym same)) h.0, AbsentAll-append k v out d a.1 h.1)

  AbsentAll-nil : (d : Dict Json) → All (λ e. Absent e.0 []) d
  AbsentAll-nil [] = tt
  AbsentAll-nil (e ∷ d) = (tt, AbsentAll-nil d)

  fields-entries : (fs : Fields) → fields (entries fs) ≡ fs
  fields-entries Fields.end = refl
  fields-entries (Fields.field k v fs) = ap (Fields.field k v) (fields-entries fs)

  keep-Absent :
      (k : String) (v : Json) (out : Dict Json)
      → is_null v ≡ false
      → Absent k out
      → keep k v out ≡ out ++ (k, v) ∷ []
  unfolding keep
  keep-Absent k v out n a = rw n (put-Absent k v out a)

  mutual
    unfolding reduce sorted_fields IsCanonical

    reduce_fixed : (j : Json) → IsCanonical env j → reduce env j ≡ j
    reduce_fixed Json.null c = refl
    reduce_fixed (Json.bool b) c = refl
    reduce_fixed (Json.int n) c = refl
    reduce_fixed (Json.str s) c = ap Json.str c
    reduce_fixed (Json.arr js) c = ap Json.arr (items_fixed js c)
    reduce_fixed (Json.obj fs) c =
        rw (fields_fixed fs [] c.0 c.2 (AbsentAll-nil (entries fs)))
          (rw (sort_of_IsSorted (λ x. x.0) (entries fs) c.1) (rw (fields-entries fs)))

    items_fixed : (js : Items) → AreCanonical env js → reduce_items env js ≡ js
    items_fixed Items.nil c = refl
    items_fixed (Items.cons j js) c = rw (reduce_fixed j c.0) (rw (items_fixed js c.1))

    fields_fixed :
        (fs : Fields) (out : Dict Json)
        → FieldsCanonical env fs
        → HasDistinct (entries fs)
        → All (λ e. Absent e.0 out) (entries fs)
        → reduce_fields env fs out ≡ out ++ entries fs
    fields_fixed Fields.end out c d a = sym (append-nil out)
    fields_fixed (Fields.field k v fs) out c d a = rw (reduce_fixed v c.2) (
        rw c.0 (
          rw (keep-Absent k v out c.1 a.0) (
            fields_fixed fs (out ++ (k, v) ∷ []) c.3 d.1
              (AbsentAll-append k v out (entries fs) d.0 a.1)
            ∙ append_assoc out ((k, v) ∷ []) (entries fs))))

-- If NFC is idempotent and leaves ASCII text alone, a value that `canonicalize` accepts has a form
-- with normalised texts, whose maps hold no null and have distinct keys in order, and which
-- `canonicalize` returns unchanged.
pub canonicalize_fixed :
    (env : Platform)
    → ((s : String) → env.nfc (env.nfc s) ≡ env.nfc s)
    → ((s : String) → IsAscii s → env.nfc s ≡ s)
    → (v : Value) (j : Json) → canonicalize env v ≡ ok j
    → IsCanonical env j × (canonicalize env (of_json j) ≡ ok j)
canonicalize_fixed env idem ascii v j h =
    let c = canonical env idem ascii v j h in
    (c, canonicalize-of_json env j ∙ ap ok (reduce_fixed env j c))
