-- ===== src/Prelude/Sort.antt =====
-- Python's `sorted(xs, key=key)`: a stable sort, as insertion sort.
use mathlib.Core.Path.{subst, ◌≡◌, refl, ap, ◌∙◌}
use mathlib.Core.Bool.{true, false}
use mathlib.Core.List.{List, [], ◌∷◌, Perm}
use mathlib.Core.List.Perm
use mathlib.Core.Logic.{◌≢◌, inl, inr}
use native.Mathlib.Omega.{arith}
use runtime_contracts.Prelude.Tests.{if◌then◌else◌, Bool-cases}
use runtime_contracts.Prelude.Lists.{All}
use runtime_contracts.Prelude.Ordered.{member, Eq, Order}

module _ {ℓ} {A : Type ℓ} {K : Type 0} ⦃o : Order K⦄ (key : A → K) where
  unfoldable pub insert : A → List A → List A
  insert x [] = x ∷ []
  insert x (y ∷ ys) = if o.le (key x) (key y) then x ∷ y ∷ ys else y ∷ insert x ys

  unfoldable pub sort : List A → List A
  unfolding insert
  sort [] = []
  sort (x ∷ xs) = insert x (sort xs)

  -- No key of the list is below the key of `x`.
  abbrev pub Below : A → List A → Type 0
  Below x [] = Unit
  Below x (y ∷ ys) = (o.le (key x) (key y) ≡ true) × Below x ys

  abbrev pub IsSorted : List A → Type 0
  IsSorted [] = Unit
  IsSorted (x ∷ xs) = Below x xs × IsSorted xs

  pub Below-trans : (x y : A) (ys : List A) → o.le (key x) (key y) ≡ true → Below y ys → Below x ys
  Below-trans x y [] h b = tt
  Below-trans x y (z ∷ zs) h b = (o.le_trans _ _ _ h b.0, Below-trans x y zs h b.1)

  not_le : (x y : A) → o.le (key x) (key y) ≡ false → o.le (key y) (key x) ≡ true
  not_le x y h = elim (o.le_total (key x) (key y)) [ inl p ↦ cc | inr p ↦ p ]

  Below-insert :
      (x y : A) (ys : List A) → o.le (key x) (key y) ≡ true → Below x ys → Below x (insert y ys)
  unfolding insert
  Below-insert x y [] h b = (h, tt)
  Below-insert x y (z ∷ zs) h b = ground (arith, Below-insert x y zs h b.1)

  insert-IsSorted : (x : A) (ys : List A) → IsSorted ys → IsSorted (insert x ys)
  unfolding insert
  insert-IsSorted x [] s = (tt, tt)
  insert-IsSorted x (y ∷ ys) s = elim (Bool-cases (o.le (key x) (key y))) [
    | inl h ↦ rw h ((h, Below-trans x y ys h s.0), s)
    | inr h ↦ rw h (Below-insert y x ys (not_le x y h) s.0, insert-IsSorted x ys s.1)
  ]

  pub sort-IsSorted : (xs : List A) → IsSorted (sort xs)
  unfolding sort
  sort-IsSorted [] = tt
  sort-IsSorted (x ∷ xs) = insert-IsSorted x (sort xs) (sort-IsSorted xs)

  insert-perm : (x : A) (ys : List A) → Perm (insert x ys) (x ∷ ys)
  unfolding insert
  insert-perm x [] = Perm.rfl
  insert-perm x (y ∷ ys) = elim (Bool-cases (o.le (key x) (key y))) [
    | inl h ↦ rw h Perm.rfl
    | inr h ↦ rw h (Perm.trans (Perm.cons y (insert-perm x ys)) (Perm.swap x y ys))
  ]

  pub sort-perm : (xs : List A) → Perm (sort xs) xs
  unfolding sort
  sort-perm [] = Perm.rfl
  sort-perm (x ∷ xs) = Perm.trans (insert-perm x (sort xs)) (Perm.cons x (sort-perm xs))

  pub insert_of_Below : (x : A) (ys : List A) → Below x ys → insert x ys ≡ x ∷ ys
  unfolding insert
  insert_of_Below x [] b = refl
  insert_of_Below x (y ∷ ys) b = rw b.0

  -- What is in order already is left as it is.
  pub sort_of_IsSorted : (xs : List A) → IsSorted xs → sort xs ≡ xs
  unfolding sort
  sort_of_IsSorted [] s = refl
  sort_of_IsSorted (x ∷ xs) s = ap (insert x) (sort_of_IsSorted xs s.1) ∙ insert_of_Below x xs s.0

  -- Two insertions commute unless their keys are equal.
  pub insert_comm :
      (x y : A) (l : List A) → key x ≢ key y → insert x (insert y l) ≡ insert y (insert x l)
  unfolding insert
  insert_comm x y [] h = ground (arith, o.le_antisymm (key x) (key y), o.le_total (key x) (key y))
  insert_comm x y (z ∷ l) h = ground (
    arith,
    insert_comm x y l h,
    o.le_antisymm (key x) (key y),
    o.le_total (key x) (key y),
    o.le_trans (key x) (key y) (key z),
    o.le_trans (key y) (key x) (key z),
  )

  -- Every element of a predicate's list satisfies it after sorting.
  pub All-insert {κ} : (P : A → Type κ) (x : A) (l : List A) → P x → All P l → All P (insert x l)
  unfolding insert
  All-insert P x [] p h = (p, h)
  All-insert P x (y ∷ l) p h = elim (Bool-cases (o.le (key x) (key y))) [
    | inl e ↦ rw e (p, h)
    | inr e ↦ rw e (h.0, All-insert P x l p h.1)
  ]

  pub All-sort {κ} : (P : A → Type κ) (l : List A) → All P l → All P (sort l)
  unfolding sort
  All-sort P [] h = h
  All-sort P (x ∷ l) h = All-insert P x (sort l) h.0 (All-sort P l h.1)

module _ {A : Type 0} ⦃o : Order A⦄ ⦃q : Eq A⦄ where
  insert-member :
      (a x : A) (ys : List A) → member a (insert (λ s. s) x ys) ≡ true → member a (x ∷ ys) ≡ true
  unfolding insert
  insert-member a x [] h = h
  insert-member a x (y ∷ ys) h = elim (Bool-cases (o.le x y)) [
    | inl p ↦ subst (λ l. member a l ≡ true) {y = x ∷ y ∷ ys} (rw p refl) h
    | inr p ↦ ground (arith, insert-member a x ys)
  ]

  -- What stands in a sorted list stands in the list.
  pub sort-member : (a : A) (xs : List A) → member a (sort (λ s. s) xs) ≡ true → member a xs ≡ true
  unfolding sort
  sort-member a [] h = h
  sort-member a (x ∷ xs) h = ground (arith, insert-member a x (sort (λ s. s) xs), sort-member a xs)
