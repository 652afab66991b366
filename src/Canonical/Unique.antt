-- ===== src/Canonical/Unique.antt =====
-- The result of `sorted_unique` of canonical.py: its order, its keys and its items.
use runtime_contracts.Prelude.{
  true, false, List, [], ◌∷◌, Option, none, some, ◌≡◌, ◌≢◌, refl, ap, sym, ◌∙◌, arith, Eq, Order,
  ◌==◌, All, if◌then◌else◌, Bool-cases, inl, inr, member, string_eq, string_order, String,
}
use runtime_contracts.Prelude.Sort.{sort, insert, IsSorted, sort-IsSorted, All-insert, All-sort}
use runtime_contracts.Canonical.Value.{has_key, first_seen, sorted_unique}

module _ {A K : Type 0} ⦃e : Eq K⦄ (key : A → K) where
  -- The first item with the key.
  unfoldable pub first_with : K → List A → Option A
  first_with k [] = none
  first_with k (x ∷ xs) = if k == key x then some x else first_with k xs

  abbrev pub KeysDistinct : List A → Type 0
  KeysDistinct [] = Unit
  KeysDistinct (x ∷ xs) = All (λ y. key x ≢ key y) xs × KeysDistinct xs

  first_with-first_seen :
      (k : K) (seen xs : List A)
      → first_with k (first_seen key seen xs)
        ≡ (if has_key key k seen then none else first_with k xs)
  unfolding first_with first_seen
  first_with-first_seen k seen [] = ground arith
  first_with-first_seen k seen (x ∷ xs) = ground (
    arith,
    e.test_iff k (key x),
    first_with-first_seen k seen xs,
    first_with-first_seen k (x ∷ seen) xs,
  )

  first_seen-unseen :
      (k : K) (seen xs : List A)
      → has_key key k seen ≡ true
      → All (λ y. k ≢ key y) (first_seen key seen xs)
  unfolding first_seen
  first_seen-unseen k seen [] h = tt
  first_seen-unseen k seen (x ∷ xs) h = elim (Bool-cases (has_key key (key x) seen)) [
    | inl old ↦ rw old (first_seen-unseen k seen xs h)
    | inr new ↦
        rw new ((λ same. absurd (ground arith)), first_seen-unseen k (x ∷ seen) xs (ground arith))
  ]

  first_seen-KeysDistinct : (seen xs : List A) → KeysDistinct (first_seen key seen xs)
  unfolding first_seen
  first_seen-KeysDistinct seen [] = tt
  first_seen-KeysDistinct seen (x ∷ xs) = elim (Bool-cases (has_key key (key x) seen)) [
    | inl old ↦ rw old (first_seen-KeysDistinct seen xs)
    | inr new ↦ rw new (
      first_seen-unseen (key x) (x ∷ seen) xs (ground (arith, e.test_iff (key x) (key x))),
      first_seen-KeysDistinct (x ∷ seen) xs,
    )
  ]

  module _ ⦃o : Order K⦄ where
    first_with-insert :
        (k : K) (x : A) (ys : List A)
        → first_with k (insert key x ys) ≡ (if k == key x then some x else first_with k ys)
    unfolding first_with insert
    first_with-insert k x [] = refl
    first_with-insert k x (y ∷ ys) = ground (
      arith,
      e.test_iff k (key x),
      e.test_iff k (key y),
      o.le_refl (key x),
      first_with-insert k x ys,
    )

    first_with-sort : (k : K) (xs : List A) → first_with k (sort key xs) ≡ first_with k xs
    unfolding sort first_with
    first_with-sort k [] = refl
    first_with-sort k (x ∷ xs) =
        first_with-insert k x (sort key xs)
        ∙ ap (λ r. if k == key x then some x else r) (first_with-sort k xs)

    insert-KeysDistinct :
        (x : A) (ys : List A)
        → All (λ y. key x ≢ key y) ys
        → KeysDistinct ys
        → KeysDistinct (insert key x ys)
    unfolding insert
    insert-KeysDistinct x [] a h = (tt, tt)
    insert-KeysDistinct x (y ∷ ys) a h = elim (Bool-cases (o.le (key x) (key y))) [
      | inl q ↦ rw q (a, h)
      | inr q ↦ rw q (
        All-insert key (λ z. key y ≢ key z) x ys (λ same. a.0 (sym same)) h.0,
        insert-KeysDistinct x ys a.1 h.1,
      )
    ]

    sort-KeysDistinct : (xs : List A) → KeysDistinct xs → KeysDistinct (sort key xs)
    unfolding sort
    sort-KeysDistinct [] h = tt
    sort-KeysDistinct (x ∷ xs) h =
        insert-KeysDistinct x (sort key xs) (All-sort key (λ y. key x ≢ key y) xs h.0)
          (sort-KeysDistinct xs h.1)

    -- The result of `sorted_unique` is in the order of its keys, holds each key once, and has under
    -- each key the first item of the input with that key.
    pub sorted_unique_lem :
        (xs : List A)
        → IsSorted key (sorted_unique key xs)
          × KeysDistinct (sorted_unique key xs)
          × ((k : K) → first_with k (sorted_unique key xs) ≡ first_with k xs)
    unfolding sorted_unique has_key
    sorted_unique_lem xs = (
      sort-IsSorted key (first_seen key [] xs),
      sort-KeysDistinct (first_seen key [] xs) (first_seen-KeysDistinct [] xs),
      λ k. first_with-sort k (first_seen key [] xs) ∙ first_with-first_seen k [] xs,
    )

member-first_with :
    (k : String) (xs : List String)
    → member k xs ≡ (elim (first_with (λ s. s) k xs) [ none ↦ false | some x ↦ true ])
unfolding first_with
member-first_with k [] = refl
member-first_with k (x ∷ xs) = ground (arith, member-first_with k xs)

-- On texts as their own keys nothing is lost and nothing added.
pub member-sorted_unique :
    (k : String) (xs : List String) → member k (sorted_unique (λ s. s) xs) ≡ member k xs
member-sorted_unique k xs =
    member-first_with k (sorted_unique (λ s. s) xs)
    ∙ ap (λ (r : Option String). elim r [ none ↦ false | some x ↦ true ])
        ((sorted_unique_lem (λ s. s) xs).2 k)
    ∙ sym (member-first_with k xs)
