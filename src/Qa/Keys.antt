-- ===== src/Qa/Keys.antt =====
-- When the idempotency keys of a run's receipts have no complaint.
use runtime_contracts.Prelude.{Bool, true, false, List, [], ◌++◌, ◌≡◌, ◌↔◌, refl, ap, In, String}
use runtime_contracts.Qa.{
  KeyedReceipt, KeyViolation, noted_key, some_larger, grouped, idempotency_key_violations,
}
use runtime_contracts.Qa.Groups.{grouped_iff}

two_clear :
    (a b : Bool) (v w : KeyViolation)
    → (noted_key a v ++ noted_key b w ≡ []) ↔ ((a ≡ false) × (b ≡ false))
two_clear false false v w = (λ h. (refl, refl), λ k. refl)
two_clear true b v w = (λ h. cc h, λ k. cc k.0)
two_clear false true v w = (λ h. cc h, λ k. cc k.1)

pair_of : (a b c d : String) → a ≡ c → b ≡ d → ◌≡◌ {A = String × String} (a, b) (c, d)
pair_of a b c d p q = rw (p, q) refl

-- `idempotency_key_violations` finds nothing exactly if any two receipts of one run are of the same
-- step just when they have the same key.
pub idempotency_key_violations_iff :
    (rs : List KeyedReceipt)
    → (idempotency_key_violations rs ≡ []) ↔ (
        (a b : KeyedReceipt)
        → In a rs
        → In b rs
        → a.run_id ≡ b.run_id
        → (a.step_id ≡ b.step_id) ↔ (a.idempotency_key ≡ b.idempotency_key))
unfolding idempotency_key_violations
idempotency_key_violations_iff rs =
    let (clear, blame) =
      two_clear (some_larger (grouped (λ r. (r.run_id, r.step_id)) (λ r. r.idempotency_key) rs []))
        (some_larger (grouped (λ r. (r.run_id, r.idempotency_key)) (λ r. r.step_id) rs []))
        KeyViolation.changed_across_attempts KeyViolation.shared_across_steps in
    let (by_step, of_step) = grouped_iff (λ r. (r.run_id, r.step_id)) (λ r. r.idempotency_key) rs in
    let (by_key, of_key) = grouped_iff (λ r. (r.run_id, r.idempotency_key)) (λ r. r.step_id) rs in
    (
      λ h a b m n run. (
        λ s. by_step (clear h).0 a b m n (pair_of a.run_id a.step_id b.run_id b.step_id run s),
        λ k.
            by_key (clear h).1 a b m n
              (pair_of a.run_id a.idempotency_key b.run_id b.idempotency_key run k),
      ),
      λ k. blame (
        of_step (λ a b m n q. (k a b m n (ap (λ z. z.0) q)).0 (ap (λ z. z.1) q)),
        of_key (λ a b m n q. (k a b m n (ap (λ z. z.0) q)).1 (ap (λ z. z.1) q)),
      ),
    )
