-- ===== src/Security/Combine.antt =====
-- The combination of decisions of protocol/security.py.
use runtime_contracts.Prelude.{ℕ, ◌≤◌, List, [], ◌∷◌, arith, All, In, string_eq, string_order}
use runtime_contracts.Security.{SecurityDecision, rank}

-- No decision of the list is more severe.
abbrev pub AreAtMost : ℕ → List SecurityDecision → Type 0
AreAtMost n = All (λ d. rank d.verdict ≤ n)

weaken : (m n : ℕ) (ds : List SecurityDecision) → m ≤ n → AreAtMost m ds → AreAtMost n ds
weaken m n [] h a = tt
weaken m n (d ∷ ds) h a = (omega (arith, h, a.0), weaken m n ds h a.1)

-- A decision of the list, and no decision of the list is more severe.
abbrev pub IsSeverest : List SecurityDecision → SecurityDecision → Type 0
IsSeverest ds x = In x ds × AreAtMost (rank x.verdict) ds
