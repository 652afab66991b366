-- ===== src/Examples/Runs.antt =====
-- A run with an executed and a skipped assertion, and the receipts of two attempts.
use runtime_contracts.Prelude.{List, In, [], ◌∷◌, ◌≡◌, ◌↔◌}
use runtime_contracts.Qa.{integrity_violations, KeyedReceipt, idempotency_key_violations}
use runtime_contracts.Qa.Keys.{idempotency_key_violations_iff}
use runtime_contracts.Qa.Accounting.{integrity_violations_iff, IsIntact}

integrity_violations_iff_example :
    (integrity_violations
        ("a-1" ∷ "a-2" ∷ [])
        ("a-1" ∷ [])
        ("a-2" ∷ [])
        (("a-1", "set-1") ∷ [])
        "set-1"
      ≡ [])
    ↔ IsIntact ("a-1" ∷ "a-2" ∷ []) ("a-1" ∷ []) ("a-2" ∷ []) (("a-1", "set-1") ∷ []) "set-1"
integrity_violations_iff_example =
    integrity_violations_iff ("a-1" ∷ "a-2" ∷ []) ("a-1" ∷ []) ("a-2" ∷ []) (("a-1", "set-1") ∷ [])
      "set-1"

abbrev two_attempts : List KeyedReceipt
two_attempts =
    record { run_id = "run-1"; step_id = "load"; idempotency_key = "k-1" }
    ∷ record { run_id = "run-1"; step_id = "load"; idempotency_key = "k-1" }
    ∷ record { run_id = "run-2"; step_id = "check"; idempotency_key = "k-1" }
    ∷ []

idempotency_key_violations_iff_example : (idempotency_key_violations two_attempts ≡ []) ↔ (
    (a b : KeyedReceipt)
    → In a two_attempts
    → In b two_attempts
    → a.run_id ≡ b.run_id
    → (a.step_id ≡ b.step_id) ↔ (a.idempotency_key ≡ b.idempotency_key))
idempotency_key_violations_iff_example = idempotency_key_violations_iff two_attempts
