-- ===== src/Ledger/Submit.antt =====
-- When a submission of models/ledger.py is accepted.
use runtime_contracts.Prelude.{
  String, none, ◌≡◌, ◌↔◌, ◌==◌, string_eq, arith, refl, Bool-cases, Option-cases, ok, Result-cases,
  inl, inr,
}
use runtime_contracts.Canonical.Json.{Dict}
use runtime_contracts.Canonical.Dict.{get}
use runtime_contracts.Canonical.Value.{Platform}
use runtime_contracts.Mission.{MissionProgram, Transition}
use runtime_contracts.Mission.WellFormed.{IsWellFormed}
use runtime_contracts.Investigation.{InvestigationTransitionEvent, permitted_by, event_hash}
use runtime_contracts.Investigation.Permitted.{permitted_by_refuses}
use runtime_contracts.Ledger.Submission.{
  accepted, duplicate, conflict, refused_by, SubmissionResult, submit,
}

module _ (env : Platform) (p : MissionProgram) (existing : Dict String) where
  -- In a well-formed program a submission is answered under its id, and accepted exactly if the id
  -- is unknown and the program permits the event.
  pub submit_accepted_iff :
      (i : String) (e : InvestigationTransitionEvent)
      → IsWellFormed p
      → (r : SubmissionResult) × (submit env p existing i e ≡ ok r)
        × (r.event_id ≡ i)
        × ((r.outcome ≡ accepted)
            ↔ ((get i existing ≡ none) × ((t : Transition) × (permitted_by env p e ≡ ok t))))
  unfolding submit
  submit_accepted_iff i e w = elim (Option-cases (get i existing)) [
    | inl unknown ↦ elim (Result-cases (permitted_by env p e)) [
      | inl (t, allowed) ↦ (
        record { outcome = accepted; event_id = i },
        ground arith,
        refl,
        (λ _. (unknown, (t, allowed)), λ _. refl),
      )
      | inr (f, refusal) ↦
          let (r, q) = permitted_by_refuses env p e w refusal in
          (
            record { outcome = refused_by r; event_id = i },
            ground arith,
            refl,
            (λ h. absurd (cc h), λ (_, (t, allowed)). absurd (cc (allowed, refusal))),
          )
    ]
    | inr (h, known) ↦ elim (Bool-cases (h == event_hash env e)) [
      | inl same ↦ (
        record { outcome = duplicate; event_id = i },
        ground arith,
        refl,
        (λ q. absurd (cc q), λ (unknown, _). absurd (cc (unknown, known))),
      )
      | inr differs ↦ (
        record { outcome = conflict; event_id = i },
        ground arith,
        refl,
        (λ q. absurd (cc q), λ (unknown, _). absurd (cc (unknown, known))),
      )
    ]
  ]
