-- ===== src/Qa/Accounting.antt =====
-- When the accounting of a run has no complaint.
use runtime_contracts.Prelude.{
  there, here, In, String, Bool, true, false, not, ◌||◌, List, [], ◌∷◌, ◌++◌, any, member,
  member-append, ◌==◌, string_eq, ◌≡◌, ◌↔◌, refl, sym, ◌∙◌, eq_iff, arith, Bool-cases, inl, inr,
}
use runtime_contracts.Qa.{
  CoverageViolation, noted_if, leaves, coverage_violations, result_ids, other_sets,
  integrity_violations,
}

-- The tests of the accounting against membership.
leaves_iff :
    (xs ys : List String)
    → (leaves xs ys ≡ false) ↔ ((x : String) → member x xs ≡ true → member x ys ≡ true)
leaves_iff [] ys = (λ h x m. cc m, λ k. refl)
leaves_iff (y ∷ xs) ys =
    let (f, g) = leaves_iff xs ys in
    (
      λ h x m. elim (Bool-cases (x == y)) [
        | inl same ↦ rw ((eq_iff x y).0 same) (kept (member y ys) (leaves xs ys) h).0
        | inr other ↦ f (kept (member y ys) (leaves xs ys) h).1 x (rw other at m)
      ],
      λ k. ground (arith, k y (ground (arith, eq_iff y y)), g (λ x m. k x (ground arith))),
    )
  where
    kept : (b c : Bool) → (not b || c) ≡ false → (b ≡ true) × (c ≡ false)
    kept b c h = (ground arith, ground arith)

shares_iff :
    (xs ys : List String)
    → (any (λ x. member x ys) xs ≡ false)
      ↔ ((x : String) → member x xs ≡ true → member x ys ≡ false)
shares_iff [] ys = (λ h x m. cc m, λ k. refl)
shares_iff (y ∷ xs) ys =
    let (f, g) = shares_iff xs ys in
    (
      λ h x m. elim (Bool-cases (x == y)) [
        | inl same ↦ rw ((eq_iff x y).0 same) (kept (member y ys) (any (λ z. member z ys) xs) h).0
        | inr other ↦ f (kept (member y ys) (any (λ z. member z ys) xs) h).1 x (rw other at m)
      ],
      λ k. ground (arith, k y (ground (arith, eq_iff y y)), g (λ x m. k x (ground arith))),
    )
  where
    kept : (b c : Bool) → (b || c) ≡ false → (b ≡ false) × (c ≡ false)
    kept b c h = (ground arith, ground arith)

four_clear :
    (a b c d : Bool) (v w x y : CoverageViolation)
    → (noted_if a v ++ noted_if b w ++ noted_if c x ++ noted_if d y ≡ [])
      ↔ ((a ≡ false) × (b ≡ false) × (c ≡ false) × (d ≡ false))
four_clear false false false false v w x y = (λ h. (refl, refl, refl, refl), λ k. refl)
four_clear true b c d v w x y = (λ h. cc h, λ k. cc (k.0))
four_clear false true c d v w x y = (λ h. cc h, λ k. cc k.1)
four_clear false false true d v w x y = (λ h. cc h, λ k. cc k.1)
four_clear false false false true v w x y = (λ h. cc h, λ k. cc k.1)

-- What is declared is executed or skipped, and not both.
pub record IsAccounted (declared executed skipped : List String) : Type 0 where
  pub covered : (x : String) → member x declared ≡ (member x executed || member x skipped)
  pub apart : (x : String) → member x executed ≡ true → member x skipped ≡ false

same_test :
    (d e s : Bool)
    → (e ≡ true → d ≡ true)
    → (s ≡ true → d ≡ true)
    → (d ≡ true → (e || s) ≡ true)
    → d ≡ (e || s)
same_test true e s h k l = sym (l refl)
same_test false true s h k l = cc (h refl)
same_test false false true h k l = cc (k refl)
same_test false false false h k l = refl

pub coverage_violations_iff :
    (declared executed skipped : List String)
    → (coverage_violations declared executed skipped ≡ []) ↔ IsAccounted declared executed skipped
unfolding coverage_violations
coverage_violations_iff declared executed skipped =
    let (clear, blame) =
      four_clear (leaves executed declared) (leaves skipped declared)
        (any (λ x. member x skipped) executed) (leaves declared (executed ++ skipped))
        CoverageViolation.executed_not_declared CoverageViolation.skipped_not_declared
        CoverageViolation.executed_and_skipped CoverageViolation.declared_unaccounted in
    (
      λ h.
          let (p, q, r, s) = clear h in
          record {
            covered = λ x.
                same_test (member x declared) (member x executed) (member x skipped)
                  ((leaves_iff executed declared).0 p x) ((leaves_iff skipped declared).0 q x)
                  (λ m.
                    sym (member-append x executed skipped)
                    ∙ (leaves_iff declared (executed ++ skipped)).0 s x m);
            apart = (shares_iff executed skipped).0 r;
          },
      λ k. blame (
        (leaves_iff executed declared).1 (λ x m. k.covered x ∙ rw m refl),
        (leaves_iff skipped declared).1 (λ x m. ground (arith, k.covered x, m)),
        (shares_iff executed skipped).1 k.apart,
        (leaves_iff declared (executed ++ skipped)).1
            (λ x m. member-append x executed skipped ∙ sym (k.covered x) ∙ m),
      ),
    )

-- The assertions are accounted for, each result is of an executed assertion and of the pinned set,
-- and each executed assertion has a result.
pub record IsIntact (declared executed skipped : List String) (results : List (String × String))
    (pin : String) : Type 0 where
  pub accounted : IsAccounted declared executed skipped
  pub matched : (x : String) → member x (result_ids results) ≡ member x executed
  pub pinned : (r : String × String) → In r results → r.1 ≡ pin

pinned_each :
    (results : List (String × String)) (pin : String) (r : String × String)
    → other_sets results pin ≡ false
    → In r results
    → r.1 ≡ pin
pinned_each [] pin r h m = elim m [ ]
pinned_each (x ∷ rs) pin r h here = ground (arith, eq_iff x.1 pin)
pinned_each (x ∷ rs) pin r h (there m) = pinned_each rs pin r (ground arith) m

each_pinned :
    (results : List (String × String)) (pin : String)
    → ((r : String × String) → In r results → r.1 ≡ pin)
    → other_sets results pin ≡ false
each_pinned [] pin k = refl
each_pinned (r ∷ rs) pin k =
    rw ((eq_iff r.1 pin).1 (k r here)) (each_pinned rs pin (λ x m. k x (there m)))

three_clear :
    (vs : List CoverageViolation) (a b : Bool) (v w : CoverageViolation)
    → (vs ++ noted_if a v ++ noted_if b w ≡ []) ↔ ((vs ≡ []) × (a ≡ false) × (b ≡ false))
three_clear [] false false v w = (λ h. (refl, refl, refl), λ k. refl)
three_clear [] true b v w = (λ h. cc h, λ k. cc k.1)
three_clear [] false true v w = (λ h. cc h, λ k. cc k.1)
three_clear (x ∷ vs) a b v w = (λ h. cc h, λ k. cc (k.0))

or_clear : (a b : Bool) → (a || b) ≡ false → (a ≡ false) × (b ≡ false)
or_clear a b h = (ground arith, ground arith)

both_ways : (p q : Bool) → (p ≡ true → q ≡ true) → (q ≡ true → p ≡ true) → p ≡ q
both_ways true q h k = sym (h refl)
both_ways false true h k = k refl
both_ways false false h k = refl

-- `integrity_violations` finds nothing exactly if an assertion is declared just when it is executed
-- or skipped, none is both, the results are of exactly the executed assertions, and each result has
-- the pinned hash.
pub integrity_violations_iff :
    (declared executed skipped : List String) (results : List (String × String)) (pin : String)
    → (integrity_violations declared executed skipped results pin ≡ [])
      ↔ IsIntact declared executed skipped results pin
unfolding integrity_violations
integrity_violations_iff declared executed skipped results pin =
    let ids = result_ids results in
    let (clear, blame) =
      three_clear (coverage_violations declared executed skipped)
        (leaves ids executed || leaves executed ids) (other_sets results pin)
        CoverageViolation.results_do_not_match_executed
        CoverageViolation.result_for_a_different_assertion_set in
    let (accounted, unaccounted) = coverage_violations_iff declared executed skipped in
    (
      λ h.
          let (a, b, c) = clear h in
          let (p, q) = or_clear (leaves ids executed) (leaves executed ids) b in
          record {
            accounted = accounted a;
            matched = λ x.
                both_ways (member x ids) (member x executed) ((leaves_iff ids executed).0 p x)
                  ((leaves_iff executed ids).0 q x);
            pinned = λ r m. pinned_each results pin r c m;
          },
      λ k. blame (
        unaccounted k.accounted,
        rw
            (
              (leaves_iff ids executed).1 (λ x m. sym (k.matched x) ∙ m),
              (leaves_iff executed ids).1 (λ x m. k.matched x ∙ m),
            )
            refl,
        each_pinned results pin k.pinned,
      ),
    )
