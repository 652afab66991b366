-- ===== src/Canonical/Kept.antt =====
-- Which items `sorted_unique` of canonical.py keeps: the first one of each key.
use runtime_contracts.Prelude.{
  false, List, [], ◌∷◌, ◌≡◌, ◌≢◌, ◌↔◌, ◌⊎◌, refl, ap, sym, subst, ◌∙◌, arith, Eq, Order, All, In,
  here, there, Bool-cases, inl, inr,
}
use runtime_contracts.Prelude.Sort.{sort, insert, sort_of_IsSorted}
use runtime_contracts.Canonical.Value.{has_key, first_seen, sorted_unique}
use runtime_contracts.Canonical.Unique.{KeysDistinct, sorted_unique_lem}

module _ {A : Type 0} where
  first_or_later : (k x : A) (xs : List A) → In k (x ∷ xs) → (k ≡ x) ⊎ In k xs
  first_or_later k x xs here = inl refl
  first_or_later k x xs (there m) = inr m

  -- A map of the tails, with the same head.
  grow : (k x : A) (xs ys : List A) → (In k xs → In k ys) → In k (x ∷ xs) → In k (x ∷ ys)
  grow k x xs ys f here = here
  grow k x xs ys f (there m) = there (f m)

  exchange : (k x y : A) (xs : List A) → In k (x ∷ y ∷ xs) → In k (y ∷ x ∷ xs)
  exchange k x y xs here = there here
  exchange k x y xs (there here) = here
  exchange k x y xs (there (there m)) = there (there m)

module _ {A K : Type 0} ⦃e : Eq K⦄ (key : A → K) where
  -- The item is in the list, and no earlier item has its key.
  abbrev pub IsFirst : A → List A → Type 0
  IsFirst k [] = ⊥
  IsFirst k (x ∷ xs) = (k ≡ x) ⊎ ((key x ≢ key k) × IsFirst k xs)

  In-first_seen :
      (k : A) (seen xs : List A)
      → In k (first_seen key seen xs)
      → (has_key key (key k) seen ≡ false) × IsFirst k xs
  unfolding first_seen
  In-first_seen k seen [] m = elim m [ ]
  In-first_seen k seen (x ∷ xs) m = elim (Bool-cases (has_key key (key x) seen)) [
    | inl old ↦
        let (unseen, first) = In-first_seen k seen xs (rw old at m) in
        (unseen, inr ((λ q. cc (ap (λ z. has_key key z seen) q, old, unseen)), first))
    | inr new ↦ elim (first_or_later k x (first_seen key (x ∷ seen) xs) (rw new at m)) [
      | inl q ↦ (subst (λ z. has_key key (key z) seen ≡ false) (sym q) new, inl q)
      | inr later ↦
          let (unseen, first) = In-first_seen k (x ∷ seen) xs later in
          (
            ground arith,
            inr ((λ q. absurd (ground (arith, e.test_iff (key k) (key x), sym q))), first),
          )
    ]
  ]

  first_seen-In :
      (k : A) (seen xs : List A)
      → has_key key (key k) seen ≡ false
      → IsFirst k xs
      → In k (first_seen key seen xs)
  unfolding first_seen
  first_seen-In k seen [] u f = elim f [ ]
  first_seen-In k seen (x ∷ xs) u (inl q) =
      let new : has_key key (key x) seen ≡ false =
        subst (λ z. has_key key (key z) seen ≡ false) q u in
      rw new (subst (λ z. In z (x ∷ first_seen key (x ∷ seen) xs)) (sym q) here)
  first_seen-In k seen (x ∷ xs) u (inr (apart, f)) = elim (Bool-cases (has_key key (key x) seen)) [
    | inl old ↦ rw old (first_seen-In k seen xs u f)
    | inr new ↦ rw new (
        there
          (first_seen-In k (x ∷ seen) xs (ground (arith, e.test_iff (key k) (key x), apart, u)) f))
  ]

  -- Distinct keys that were not seen are all kept.
  first_seen_of_distinct :
      (seen xs : List A)
      → All (λ x. has_key key (key x) seen ≡ false) xs
      → KeysDistinct key xs
      → first_seen key seen xs ≡ xs
  unfolding first_seen
  first_seen_of_distinct seen [] u d = refl
  first_seen_of_distinct seen (x ∷ xs) u d =
      rw u.0 (ap (◌∷◌ x) (first_seen_of_distinct (x ∷ seen) xs (widen x seen xs d.0 u.1) d.1))
    where
      apart : (x y : A) → key x ≢ key y → key y ≢ key x
      apart x y h q = h (sym q)

      widen :
          (x : A) (seen xs : List A)
          → All (λ y. key x ≢ key y) xs
          → All (λ y. has_key key (key y) seen ≡ false) xs
          → All (λ y. has_key key (key y) (x ∷ seen) ≡ false) xs
      widen x seen [] a u = tt
      widen x seen (y ∷ ys) a u =
          (ground (arith, e.test_iff (key y) (key x), apart x y a.0, u.0), widen x seen ys a.1 u.1)

  module _ ⦃o : Order K⦄ where
    insert-In : (k x : A) (ys : List A) → In k (insert key x ys) ↔ In k (x ∷ ys)
    unfolding insert
    insert-In k x [] = (λ m. m, λ m. m)
    insert-In k x (y ∷ ys) = elim (Bool-cases (o.le (key x) (key y))) [
      | inl q ↦ rw q (λ m. m, λ m. m)
      | inr q ↦ rw q (
        λ m. exchange k y x ys (grow k y (insert key x ys) (x ∷ ys) (insert-In k x ys).0 m),
        λ m. grow k y (x ∷ ys) (insert key x ys) (insert-In k x ys).1 (exchange k x y ys m),
      )
    ]

    sort-In : (k : A) (xs : List A) → In k (sort key xs) ↔ In k xs
    unfolding sort
    sort-In k [] = (λ m. m, λ m. m)
    sort-In k (x ∷ xs) = (
      λ m. grow k x (sort key xs) xs (sort-In k xs).0 ((insert-In k x (sort key xs)).0 m),
      λ m. (insert-In k x (sort key xs)).1 (grow k x xs (sort key xs) (sort-In k xs).1 m),
    )

    -- `sorted_unique` keeps exactly the first item of each key.
    pub In-sorted_unique : (k : A) (xs : List A) → In k (sorted_unique key xs) ↔ IsFirst k xs
    unfolding sorted_unique has_key
    In-sorted_unique k xs = (
      λ m. (In-first_seen k [] xs ((sort-In k (first_seen key [] xs)).0 m)).1,
      λ f. (sort-In k (first_seen key [] xs)).1 (first_seen-In k [] xs refl f),
    )

    all_unseen : (xs : List A) → All (λ x. has_key key (key x) [] ≡ false) xs
    unfolding has_key
    all_unseen [] = tt
    all_unseen (x ∷ xs) = (refl, all_unseen xs)

    -- What it returns it leaves as it is.
    pub sorted_unique_idem :
        (xs : List A) → sorted_unique key (sorted_unique key xs) ≡ sorted_unique key xs
    unfolding sorted_unique
    sorted_unique_idem xs =
        let ys = sort key (first_seen key [] xs) in
        let (sorted, distinct, _) = sorted_unique_lem key xs in
        ap (sort key) (first_seen_of_distinct [] ys (all_unseen ys) distinct)
        ∙ sort_of_IsSorted key ys sorted
