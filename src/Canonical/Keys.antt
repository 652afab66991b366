-- ===== src/Canonical/Keys.antt =====
-- What assignment and removal keep of the entries of a dict, and its keys.
use runtime_contracts.Prelude.{
  inl, inr, String, [], ◌∷◌, ◌≡◌, refl, ◌==◌, none, some, arith, eq_iff, string_eq, All, In, here,
  there, Bool-cases, subst, sym, false,
}
use runtime_contracts.Canonical.Json.{Dict}
use runtime_contracts.Canonical.Dict.{get-put, get-remove, put, get, remove}

pub some-inj : {A : Type 0} {a b : A} → some a ≡ some b → a ≡ b
some-inj h = cc

module _ {V : Type 0} where
  pub get→In : (k : String) (v : V) (d : Dict V) → get k d ≡ some v → In (k, v) d
  unfolding get
  get→In k v [] h = cc
  get→In k v (e ∷ d) h = elim (Bool-cases (k == e.0)) [
    | inl p ↦ subst (λ x. In x (e ∷ d)) (cc ((eq_iff k e.0).0 p, h, p)) here
    | inr p ↦ there (get→In k v d (cc (h, p)))
  ]

  -- No key occurs twice.
  abbrev pub IsKeyed : Dict V → Type 0
  IsKeyed [] = Unit {0}
  IsKeyed (e ∷ d) = (get e.0 d ≡ none) × IsKeyed d

  pub In→get : (k : String) (v : V) (d : Dict V) → IsKeyed d → In (k, v) d → get k d ≡ some v
  unfolding get
  In→get k v [] w m = elim m [ ]
  In→get k v (e ∷ d) w here = rw ((eq_iff k k).1 refl) refl
  In→get k v (e ∷ d) w (there m) = elim (Bool-cases (k == e.0)) [
    | inl p ↦ absurd (cc ((eq_iff k e.0).0 p, w.0, In→get k v d w.1 m))
    | inr p ↦ rw p (In→get k v d w.1 m)
  ]

  module _ {κ} (P : String × V → Type κ) where
    pub put-All : (k : String) (v : V) (d : Dict V) → P (k, v) → All P d → All P (put k v d)
    unfolding put
    put-All k v [] p a = (p, tt)
    put-All k v (e ∷ d) p a = elim (Bool-cases (k == e.0)) [
      | inl q ↦ rw q (p, a.1)
      | inr q ↦ rw q (a.0, put-All k v d p a.1)
    ]

    pub remove-All : (k : String) (d : Dict V) → All P d → All P (remove k d)
    unfolding remove
    remove-All k [] a = tt
    remove-All k (e ∷ d) a = elim (Bool-cases (k == e.0)) [
      | inl q ↦ rw q (remove-All k d a.1)
      | inr q ↦ rw q (a.0, remove-All k d a.1)
    ]

  put-absent :
      (j k : String) (v : V) (d : Dict V)
      → (k == j) ≡ false
      → get k d ≡ none
      → get k (put j v d) ≡ none
  put-absent j k v d p h = rw (get-put k j v d, p) h

  pub put-IsKeyed : (k : String) (v : V) (d : Dict V) → IsKeyed d → IsKeyed (put k v d)
  unfolding put get
  put-IsKeyed k v [] w = (refl, tt)
  put-IsKeyed k v (e ∷ d) w = elim (Bool-cases (k == e.0)) [
    | inl q ↦ rw q (subst (λ j. get j d ≡ none) (sym ((eq_iff k e.0).0 q)) w.0, w.1)
    | inr q ↦ rw q (
      put-absent k e.0 v d (ground (arith, eq_iff k e.0, eq_iff e.0 k)) w.0,
      put-IsKeyed k v d w.1,
    )
  ]

  remove-absent : (j k : String) (d : Dict V) → get k d ≡ none → get k (remove j d) ≡ none
  remove-absent j k d h = ground (arith, get-remove k j d)

  pub remove-IsKeyed : (k : String) (d : Dict V) → IsKeyed d → IsKeyed (remove k d)
  unfolding remove get
  remove-IsKeyed k [] w = tt
  remove-IsKeyed k (e ∷ d) w = elim (Bool-cases (k == e.0)) [
    | inl q ↦ rw q (remove-IsKeyed k d w.1)
    | inr q ↦ rw q (remove-absent k e.0 d w.0, remove-IsKeyed k d w.1)
  ]

  pub get-put_self : (k : String) (v : V) (d : Dict V) → get k (put k v d) ≡ some v
  get-put_self k v d = rw (get-put k k v d, (eq_iff k k).1 refl) refl
