-- ===== src/Intent/StoredMaps.antt =====
-- Maps with distinct keys, as `to_json` writes them and `intent_from_json` builds them.
use mathlib.Core.List.{append-nil}
use runtime_contracts.Prelude.{
  str_le, String, false, [], ◌∷◌, ◌++◌, none, ◌==◌, string_eq, string_order, ◌≡◌, refl, sym, ◌∙◌,
  ap, All, Bool-cases, eq_iff, arith, inl, inr,
}
use runtime_contracts.Prelude.Sort.{sort, insert}
use runtime_contracts.Canonical.Json.{Dict}
use runtime_contracts.Canonical.Dict.{get, put}
use runtime_contracts.Canonical.Keys.{IsKeyed}
use runtime_contracts.Intent.Restore.{put_all}

-- Assignments of distinct keys that are not there yet append.
module _ {V : Type 0} where
  put_fresh : (k : String) (v : V) (d : Dict V) → get k d ≡ none → put k v d ≡ d ++ (k, v) ∷ []
  unfolding put get
  put_fresh k v [] h = refl
  put_fresh k v (e ∷ d) h = elim (Bool-cases (k == e.0)) [
    | inl q ↦ absurd (cc (rw (get, q) at h))
    | inr q ↦ rw (put, q) (ap (λ l. e ∷ l) (put_fresh k v d (rw (get, q) at h)))
  ]

  get-append_none :
      (k j : String) (v : V) (d : Dict V)
      → get k d ≡ none
      → (k == j) ≡ false
      → get k (d ++ (j, v) ∷ []) ≡ none
  unfolding get
  get-append_none k j v [] h q = rw q refl
  get-append_none k j v (e ∷ d) h q = elim (Bool-cases (k == e.0)) [
    | inl p ↦ absurd (cc (rw (get, p) at h))
    | inr p ↦ rw p (get-append_none k j v d (rw (get, p) at h) q)
  ]

  fresh_later :
      (e : String × V) (d out : Dict V)
      → get e.0 d ≡ none
      → All (λ x. get x.0 out ≡ none) d
      → All (λ x. get x.0 (out ++ e ∷ []) ≡ none) d
  unfolding get
  fresh_later e [] out h a = tt
  fresh_later e (x ∷ d) out h a = elim (Bool-cases (e.0 == x.0)) [
    | inl p ↦ absurd (cc (rw (get, p) at h))
    | inr p ↦ (
      get-append_none x.0 e.0 e.1 out a.0 (ground (arith, eq_iff e.0 x.0, eq_iff x.0 e.0)),
      fresh_later e d out (rw (get, p) at h) a.1,
    )
  ]

  append_assoc_one :
      (out : Dict V) (e : String × V) (d : Dict V) → (out ++ e ∷ []) ++ d ≡ out ++ e ∷ d
  append_assoc_one [] e d = refl
  append_assoc_one (x ∷ out) e d = ap (λ l. x ∷ l) (append_assoc_one out e d)

  put_all_fresh :
      (d out : Dict V) → IsKeyed d → All (λ x. get x.0 out ≡ none) d → put_all d out ≡ out ++ d
  unfolding put_all
  put_all_fresh [] out w a = sym (append-nil out)
  put_all_fresh (e ∷ d) out w a =
      ap (λ o. put_all d o) (put_fresh e.0 e.1 out a.0)
      ∙ put_all_fresh d (out ++ e ∷ []) w.1 (fresh_later e d out w.0 a.1)
      ∙ append_assoc_one out e d

  all_fresh : (d : Dict V) → All (λ (x : String × V). get {V = V} x.0 [] ≡ none) d
  unfolding get
  all_fresh [] = tt
  all_fresh (e ∷ d) = (refl, all_fresh d)

  pub put_all_self : (d : Dict V) → IsKeyed d → put_all d [] ≡ d
  put_all_self d w = put_all_fresh d [] w (all_fresh d)

  get-insert :
      (k : String) (e : String × V) (d : Dict V)
      → get e.0 d ≡ none
      → get k (insert (λ x. x.0) e d) ≡ get k (e ∷ d)
  unfolding insert get
  get-insert k e [] h = refl
  get-insert k e (x ∷ d) h = elim (Bool-cases (str_le e.0 x.0)) [
    | inl p ↦ rw p refl
    | inr p ↦ rw p (elim (Bool-cases (e.0 == x.0)) [
      | inl q ↦ absurd (cc (rw (get, q) at h))
      | inr q ↦ ground (
        arith,
        q,
        eq_iff k x.0,
        eq_iff k e.0,
        eq_iff e.0 x.0,
        get-insert k e d (rw (get, q) at h),
      )
    ])
  ]

  insert-IsKeyed :
      (e : String × V) (d : Dict V) → get e.0 d ≡ none → IsKeyed d → IsKeyed (insert (λ x. x.0) e d)
  unfolding insert get
  insert-IsKeyed e [] h w = (refl, tt)
  insert-IsKeyed e (x ∷ d) h w = elim (Bool-cases (str_le e.0 x.0)) [
    | inl p ↦ rw p (h, w)
    | inr p ↦ rw p (elim (Bool-cases (e.0 == x.0)) [
      | inl q ↦ absurd (cc (rw (get, q) at h))
      | inr q ↦
          let rest = rw (get, q) at h in
          let other : (x.0 == e.0) ≡ false = ground (arith, q, eq_iff x.0 e.0, eq_iff e.0 x.0) in
          (get-insert x.0 e d rest ∙ rw (get, other) w.0, insert-IsKeyed e d rest w.1)
    ])
  ]

  get-sort : (k : String) (d : Dict V) → IsKeyed d → get k (sort (λ x. x.0) d) ≡ get k d
  unfolding sort get
  get-sort k [] w = refl
  get-sort k (e ∷ d) w =
      get-insert k e (sort (λ x. x.0) d) (get-sort e.0 d w.1 ∙ w.0)
      ∙ ground (arith, get-sort k d w.1)

  pub sort-IsKeyed : (d : Dict V) → IsKeyed d → IsKeyed (sort (λ x. x.0) d)
  unfolding sort
  sort-IsKeyed [] w = tt
  sort-IsKeyed (e ∷ d) w =
      insert-IsKeyed e (sort (λ x. x.0) d) (get-sort e.0 d w.1 ∙ w.0) (sort-IsKeyed d w.1)
