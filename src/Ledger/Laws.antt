-- ===== src/Ledger/Laws.antt =====
-- The strict replay of models/ledger.py against the one that collects complaints.
use runtime_contracts.Prelude.{
  true, false, List, [], ◌∷◌, ◌++◌, is_empty, string_eq, int_eq, ◌≡◌, ◌↔◌, refl, ◌∙◌, arith, Result,
  ok, raise, >>=-eq-ok,
}
use runtime_contracts.Canonical.Value.{Platform}
use runtime_contracts.Mission.{MissionProgram, Transition, Fault, Refusal}
use runtime_contracts.Investigation.{InvestigationTransitionEvent, permitted_by, by_sequence}
use runtime_contracts.Ledger.Replay.{
  ReplayResult, Progress, start, step, attempt, steps, accept, report, replay_ledger, is_consistent,
  reject, mismatch,
}

-- Nothing was refused so far.
abbrev IsClean : Progress → Type 0
IsClean st = (is_empty st.invalid ≡ true) × (is_empty st.mismatches ≡ true)

append_one {ℓ} : {A : Type ℓ} (xs : List A) (y : A) → is_empty (xs ++ y ∷ []) ≡ false
append_one [] y = refl
append_one (x ∷ xs) y = refl

IsClean-reject :
    (r : Refusal) (e : InvestigationTransitionEvent) (st : Progress) {st' : Progress}
    → reject false r e st ≡ ok st'
    → ¬ IsClean st'
IsClean-reject r e st h c = ground (
  arith,
  append_one st.invalid
      (record { sequence = e.sequence; transition_id = e.transition_id; reason = r }),
)

IsClean-mismatch :
    (e : InvestigationTransitionEvent) (st : Progress) {st' : Progress}
    → mismatch false e st ≡ ok st'
    → ¬ IsClean st'
IsClean-mismatch e st h c = ground (arith, append_one st.mismatches e.sequence)

module _ (env : Platform) (p : MissionProgram) where
  -- What the strict loop accepts, the collecting loop accepts in the same way.
  strict_step :
      (e : InvestigationTransitionEvent) (st : Progress) {st' : Progress}
      → step env p true e st ≡ ok st'
      → (step env p false e st ≡ ok st')
        × (st'.invalid ≡ st.invalid)
        × (st'.mismatches ≡ st.mismatches)
  unfolding step accept
  strict_step e st h = ground arith

  IsClean-attempt :
      (e : InvestigationTransitionEvent) (st : Progress) (m : Result Fault Transition)
      {st' : Progress}
      → attempt env p false e st m ≡ ok st'
      → IsClean st'
      → (attempt env p true e st m ≡ ok st') × IsClean st
  unfolding attempt accept
  IsClean-attempt e st (ok t) h c = ground arith
  IsClean-attempt e st (raise (Fault.refused r)) h c = absurd (IsClean-reject r e st h c)
  IsClean-attempt e st (raise (Fault.value_error x)) h c = cc
  IsClean-attempt e st (raise Fault.key_error) h c = cc

  -- A step of the collecting loop that leaves it clean found it clean, and is a strict step.
  IsClean-step :
      (e : InvestigationTransitionEvent) (st : Progress) {st' : Progress}
      → step env p false e st ≡ ok st'
      → IsClean st'
      → (step env p true e st ≡ ok st') × IsClean st
  unfolding step
  IsClean-step e st {st'} h c =
      let noted = record st { seen = e.sequence ∷ st.seen } in
      ground (
        arith,
        IsClean-reject Refusal.duplicate_sequence e st {st' = st'},
        IsClean-mismatch e noted {st' = st'},
        IsClean-reject Refusal.follows_the_end e noted {st' = st'},
        IsClean-reject Refusal.not_contiguous e noted {st' = st'},
        IsClean-attempt e noted (permitted_by env p e) {st' = st'},
      )

  strict_steps :
      (es : List InvestigationTransitionEvent) (st : Progress) {st' : Progress}
      → steps env p true es st ≡ ok st'
      → (steps env p false es st ≡ ok st')
        × (st'.invalid ≡ st.invalid)
        × (st'.mismatches ≡ st.mismatches)
  unfolding steps
  strict_steps [] st h = ground arith
  strict_steps (e ∷ es) st h =
      let (mid, q, r) = >>=-eq-ok (step env p true e st) (λ s. steps env p true es s) h in
      let (a, b, c) = strict_step e st q in
      let (a', b', c') = strict_steps es mid r in (rw a a', b' ∙ b, c' ∙ c)

  IsClean-steps :
      (es : List InvestigationTransitionEvent) (st : Progress) {st' : Progress}
      → steps env p false es st ≡ ok st'
      → IsClean st'
      → (steps env p true es st ≡ ok st') × IsClean st
  unfolding steps
  IsClean-steps [] st h c = ground arith
  IsClean-steps (e ∷ es) st h c =
      let (mid, q, r) = >>=-eq-ok (step env p false e st) (λ s. steps env p false es s) h in
      let (a, b) = IsClean-steps es mid r c in let (a', b') = IsClean-step e st q b in (rw a' a, b')

  -- The strict replay of events returns a result exactly if the replay that collects complaints
  -- returns that result and it is consistent.
  pub replay_ledger_strict_iff :
      (events : List InvestigationTransitionEvent) (r : ReplayResult)
      → (replay_ledger env p true events ≡ ok r)
        ↔ ((replay_ledger env p false events ≡ ok r) × (is_consistent r ≡ true))
  unfolding replay_ledger
  replay_ledger_strict_iff events r = (
    λ h.
        let (st, q, z) =
          >>=-eq-ok (steps env p true (by_sequence events) (start p)) (λ s. ok (report s)) h in
        let (a, b, c) = strict_steps (by_sequence events) (start p) q in (rw a z, ground arith),
    λ h.
        let (st, q, z) =
          >>=-eq-ok (steps env p false (by_sequence events) (start p)) (λ s. ok (report s)) h.0 in
        let (a, b) = IsClean-steps (by_sequence events) (start p) q (ground arith) in rw a z,
  )
