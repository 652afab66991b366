-- ===== src/Verification/Laws.antt =====
-- The verdict of a result of models/verification.py, and its promotion.
use runtime_contracts.Prelude.{
  ℕ, ◌<◌, ◌≤◌, Bool-cases, inl, inr, true, false, List, [], ◌∷◌, ◌≡◌, ◌↔◌, ◌⊎◌, refl, arith, All,
  is_empty, In, here, there,
}
use runtime_contracts.Verification.{
  Verdict, pass, fail, indeterminate, not_applicable, verdict_is, Check, VerificationResult,
  is_complete, has_verdict, worst, verdict, may_promote,
}

-- A check neither failed nor was left open.
abbrev pub IsSettled : Check → Type 0
IsSettled c = (verdict_is c.verdict fail ≡ false) × (verdict_is c.verdict indeterminate ≡ false)

All-IsSettled :
    (cs : List Check)
    → ((has_verdict fail cs ≡ false) × (has_verdict indeterminate cs ≡ false)) ↔ All IsSettled cs
unfolding has_verdict
All-IsSettled [] = (λ _. tt, λ _. (refl, refl))
All-IsSettled (c ∷ cs) =
    let (f, g) = All-IsSettled cs in
    (
      λ h. ((ground arith, ground arith), f (ground arith, ground arith)),
      λ h. (ground (arith, g h.1), ground (arith, g h.1)),
    )

-- A result may promote exactly if each of its checks neither failed nor was indeterminate, the run
-- is complete, and nothing was omitted.
pub may_promote_iff :
    (r : VerificationResult)
    → (may_promote r ≡ true)
      ↔ (All IsSettled r.checks × (is_complete r.completion ≡ true) × (is_empty r.omissions ≡ true))
unfolding may_promote worst
may_promote_iff r =
    let (f, g) = All-IsSettled r.checks in
    (λ h. (f (ground arith, ground arith), ground arith, ground arith), λ h. ground (arith, g h.0))

-- How weak a verdict is.
abbrev pub weakness : Verdict → ℕ
weakness fail = 3
weakness indeterminate = 2
weakness pass = 1
weakness not_applicable = 0

verdict_is-eq : (a b : Verdict) → verdict_is a b ≡ true → a ≡ b
verdict_is-eq pass pass h = refl
verdict_is-eq pass fail h = cc
verdict_is-eq pass indeterminate h = cc
verdict_is-eq pass not_applicable h = cc
verdict_is-eq fail pass h = cc
verdict_is-eq fail fail h = refl
verdict_is-eq fail indeterminate h = cc
verdict_is-eq fail not_applicable h = cc
verdict_is-eq indeterminate pass h = cc
verdict_is-eq indeterminate fail h = cc
verdict_is-eq indeterminate indeterminate h = refl
verdict_is-eq indeterminate not_applicable h = cc
verdict_is-eq not_applicable pass h = cc
verdict_is-eq not_applicable fail h = cc
verdict_is-eq not_applicable indeterminate h = cc
verdict_is-eq not_applicable not_applicable h = refl

has_verdict-In :
    (v : Verdict) (cs : List Check)
    → has_verdict v cs ≡ true
    → (c : Check) × In c cs × (c.verdict ≡ v)
unfolding has_verdict
has_verdict-In v [] h = cc
has_verdict-In v (c ∷ cs) h = elim (Bool-cases (verdict_is c.verdict v)) [
  | inl e ↦ (c, here, verdict_is-eq c.verdict v e)
  | inr e ↦ let (d, m, q) = has_verdict-In v cs (ground arith) in (d, there m, q)
]

weakness_bound :
    (cs : List Check) (n : ℕ)
    → (n < 3 → has_verdict fail cs ≡ false)
    → (n < 2 → has_verdict indeterminate cs ≡ false)
    → (n < 1 → has_verdict pass cs ≡ false)
    → All (λ c. weakness c.verdict ≤ n) cs
unfolding has_verdict
weakness_bound [] n f i p = tt
weakness_bound (c ∷ cs) n f i p = (
  ground arith,
  weakness_bound cs n (λ h. ground (arith, f h)) (λ h. ground (arith, i h))
      (λ h. ground (arith, p h)),
)

-- The verdict is that of one of the checks, or `NOT_APPLICABLE`, and no check has a weaker one.
pub verdict_lem :
    (r : VerificationResult)
    → (((c : Check) × In c r.checks × (c.verdict ≡ verdict r)) ⊎ (verdict r ≡ not_applicable))
      × All (λ c. weakness c.verdict ≤ weakness (verdict r)) r.checks
unfolding verdict worst
verdict_lem r = elim (Bool-cases (has_verdict fail r.checks)) [
  | inl f ↦ rw f (
    inl (has_verdict-In fail r.checks f),
    weakness_bound r.checks 3 (λ h. absurd (omega arith)) (λ h. absurd (omega arith))
        (λ h. absurd (omega arith)),
  )
  | inr f ↦ elim (Bool-cases (has_verdict indeterminate r.checks)) [
    | inl i ↦
        rw (f, i)
          (
            inl (has_verdict-In indeterminate r.checks i),
            weakness_bound r.checks 2 (λ _. f) (λ h. absurd (omega arith))
                (λ h. absurd (omega arith)),
          )
    | inr i ↦ elim (Bool-cases (has_verdict pass r.checks)) [
      | inl p ↦
          rw (f, i, p)
            (
              inl (has_verdict-In pass r.checks p),
              weakness_bound r.checks 1 (λ _. f) (λ _. i) (λ h. absurd (omega arith)),
            )
      | inr p ↦ rw (f, i, p) (inr refl, weakness_bound r.checks 0 (λ _. f) (λ _. i) (λ _. p))
    ]
  ]
]
