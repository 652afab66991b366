-- ===== src/Verification/Ladder.antt =====
-- models/verification_ladder.py: which verifier may be the gate for a requirement.
use runtime_contracts.Prelude.{
  String, ℕ, Bool, true, false, not, ◌&&◌, ltb, if◌then◌else◌, ◌≡◌, ◌↔◌, ◌⊎◌, ◌≤◌, inl, inr, refl,
  arith,
}
use runtime_contracts.Verification.{Determinism, deterministic, non_deterministic}

pub data AssuranceTier : Type 0 where
  structural deterministic_rules evidential semantic ensemble human : AssuranceTier

-- The index in `_ORDER`.
unfoldable pub tier_rank : AssuranceTier → ℕ
tier_rank structural = 0
tier_rank deterministic_rules = 1
tier_rank evidential = 2
tier_rank semantic = 3
tier_rank ensemble = 4
tier_rank human = 5

-- The cost and latency estimates, which the rule does not read, are left out.
pub record VerifierDescriptor : Type 0 where
  pub verifier_id : String
  pub tier : AssuranceTier
  pub determinism : Determinism
  pub gating : Bool

pub record VerificationRequirement : Type 0 where
  pub min_tier : AssuranceTier
  pub require_deterministic_final : Bool

abbrev robust : AssuranceTier → Bool
robust ensemble = true
robust human = true
robust _ = false

abbrev pub is_model : Determinism → Bool
is_model deterministic = false
is_model non_deterministic = true

unfoldable pub is_sufficient : VerifierDescriptor → VerificationRequirement → Bool
unfolding tier_rank
is_sufficient v r =
    if ltb (tier_rank v.tier) (tier_rank r.min_tier)
    then false
    else if r.require_deterministic_final && (is_model v.determinism && not (robust v.tier))
    then false
    else true

closes :
    (d : Determinism) (t : AssuranceTier)
    → (is_model d && not (robust t)) ≡ false
    → (d ≡ deterministic) ⊎ ((t ≡ ensemble) ⊎ (t ≡ human))
closes deterministic t h = inl refl
closes non_deterministic ensemble h = inr (inl refl)
closes non_deterministic human h = inr (inr refl)
closes non_deterministic structural h = cc
closes non_deterministic deterministic_rules h = cc
closes non_deterministic evidential h = cc
closes non_deterministic semantic h = cc

opens :
    (d : Determinism) (t : AssuranceTier)
    → (d ≡ deterministic) ⊎ ((t ≡ ensemble) ⊎ (t ≡ human))
    → (is_model d && not (robust t)) ≡ false
opens d t (inl h) = rw h
opens deterministic t (inr h) = refl
opens non_deterministic t (inr (inl h)) = rw h
opens non_deterministic t (inr (inr h)) = rw h

-- A verifier is sufficient exactly if its tier is not below the required one and, where the final
-- gate must be deterministic, it is deterministic, an ensemble or a person.
pub is_sufficient_iff :
    (v : VerifierDescriptor) (r : VerificationRequirement)
    → (is_sufficient v r ≡ true) ↔ (
        (tier_rank r.min_tier ≤ tier_rank v.tier)
        × (r.require_deterministic_final ≡ true
            → (v.determinism ≡ deterministic) ⊎ ((v.tier ≡ ensemble) ⊎ (v.tier ≡ human))))
unfolding is_sufficient
is_sufficient_iff v r = (
  λ h. (ground arith, λ f. closes v.determinism v.tier (ground arith)),
  λ h. ground (arith, opens v.determinism v.tier, h.1),
)
