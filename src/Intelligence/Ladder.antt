-- ===== src/Intelligence/Ladder.antt =====
-- What the ladder over the providers returns artifacts for.
use runtime_contracts.Prelude.{
  ◌++◌, String, Bool, true, false, not, ◌&&◌, ◌||◌, List, [], ◌∷◌, is_empty, ◌≡◌, refl, All, All-In,
  In, here, there, Bool-cases, inl, inr, if◌then◌else◌, arith,
}
use runtime_contracts.Prelude.Sort.{All-sort}
use runtime_contracts.Canonical.Json.{Dict}
use runtime_contracts.Intelligence.{AcquisitionFailure, Floats, EvidenceRequest}
use runtime_contracts.Intelligence.Gate.{IsWorth, decide_acquire_iff}
use runtime_contracts.Intelligence.Registry.{
  acquire_from, AcquisitionGate, is_retryable, is_not_entitled, tries_alternate, failure_or,
  IntelligenceProvider, offers, entitled_for, candidates, match_providers, gate_of, Acquisition,
  TraceEntry, exhausted, stopped, delivered, ladder, gated_acquire,
}

-- What the five ends of the loop's body have in common.
pub by_branch :
    {A : Type 0} (P : A → Type 0) (b₁ b₂ b₃ b₄ : Bool) (x₁ x₂ x₃ x₄ x₅ : A)
    → P x₁
    → P x₂
    → (b₁ ≡ false → b₃ ≡ true → P x₃)
    → P x₄
    → P x₅
    → P (if b₁ then (if b₂ then x₁ else x₂) else if b₃ then x₃ else if b₄ then x₄ else x₅)
by_branch P true true b₃ b₄ x₁ x₂ x₃ x₄ x₅ p₁ p₂ p₃ p₄ p₅ = p₁
by_branch P true false b₃ b₄ x₁ x₂ x₃ x₄ x₅ p₁ p₂ p₃ p₄ p₅ = p₂
by_branch P false b₂ true b₄ x₁ x₂ x₃ x₄ x₅ p₁ p₂ p₃ p₄ p₅ = p₃ refl refl
by_branch P false b₂ false true x₁ x₂ x₃ x₄ x₅ p₁ p₂ p₃ p₄ p₅ = p₄
by_branch P false b₂ false false x₁ x₂ x₃ x₄ x₅ p₁ p₂ p₃ p₄ p₅ = p₅

module _ (floats : Floats) (strip : String → String) (A : Type 0) where
  abbrev pub Provider : Type 0
  Provider = IntelligenceProvider floats strip A

  module _ (r : EvidenceRequest floats) (value threshold : floats.Float) where
    -- One of the providers has passed the gate and has answered with these artifacts.
    pub record IsServed (ps : List Provider) (a : Acquisition floats strip A) : Type 0 where
      pub provider : Provider
      pub listed : In provider ps
      pub worth : IsWorth floats strip A r true (provider.estimate_cost r) value threshold
      pub answered : (provider.acquire_evidence r).is_ok ≡ true
      pub some_artifacts : is_empty (provider.acquire_evidence r).artifacts ≡ false
      pub artifacts : a.result.artifacts ≡ (provider.acquire_evidence r).artifacts
      pub attributed : a.row.provider ≡ provider.provider_id

    later :
        (p : Provider) (ps : List Provider) (a : Acquisition floats strip A)
        → IsServed ps a
        → IsServed (p ∷ ps) a
    later p ps a s = record {
      provider = s.provider;
      listed = there s.listed;
      worth = s.worth;
      answered = s.answered;
      some_artifacts = s.some_artifacts;
      artifacts = s.artifacts;
      attributed = s.attributed;
    }

    Answer : List Provider → Acquisition floats strip A → Type 0
    Answer ps a = a.result.is_ok ≡ true → IsServed ps a

    not_stopped :
        (ps : List Provider) (gate : AcquisitionGate) (spent : floats.Float)
        (trace : List (TraceEntry floats strip A))
        → Answer ps (stopped floats strip A r value threshold gate spent trace)
    unfolding Answer
    not_stopped ps gate spent trace h = cc h

    not_exhausted :
        (ps : List Provider) (spent : floats.Float) (last : AcquisitionFailure)
        (trace : List (TraceEntry floats strip A))
        → Answer ps (exhausted floats strip A r value threshold spent last trace)
    unfolding Answer
    not_exhausted ps spent last trace h = cc h

    answers_later :
        (p : Provider) (ps : List Provider) (a : Acquisition floats strip A)
        → Answer ps a
        → Answer (p ∷ ps) a
    unfolding Answer
    answers_later p ps a s h = later p ps a (s h)

    full_answer : (b c : Bool) → (b && not c) ≡ true → (b ≡ true) × (c ≡ false)
    full_answer true true h = cc h
    full_answer true false h = (refl, refl)
    full_answer false c h = cc h

    answers_now :
        (p : Provider) (ps : List Provider) (spent : floats.Float)
        (trace : List (TraceEntry floats strip A))
        → not (gate_of floats strip A r value threshold p).acquires ≡ false
        → ((p.acquire_evidence r).is_ok && not (is_empty (p.acquire_evidence r).artifacts)) ≡ true
        → Answer
            (p ∷ ps)
            (delivered floats strip A r value threshold p (p.acquire_evidence r) spent trace)
    unfolding Answer
    answers_now p ps spent trace pass full h =
        let (ok, some_of) =
          full_answer (p.acquire_evidence r).is_ok (is_empty (p.acquire_evidence r).artifacts)
            full in
        record {
          provider = p;
          listed = here;
          worth =
              (decide_acquire_iff floats strip A r true (p.estimate_cost r) value threshold).0
                (positive (gate_of floats strip A r value threshold p).acquires pass);
          answered = ok;
          some_artifacts = some_of;
          artifacts = refl;
          attributed = refl;
        }
      where
        positive : (b : Bool) → not b ≡ false → b ≡ true
        positive true k = refl
        positive false k = cc k

    -- The loop returns artifacts only from a provider that has passed the gate.
    ladder-IsServed :
        (ps : List Provider) (spent : floats.Float) (last : AcquisitionFailure)
        (trace : List (TraceEntry floats strip A))
        → Answer ps (ladder floats strip A r value threshold ps spent last trace)
    unfolding ladder
    ladder-IsServed [] spent last trace = not_exhausted [] spent last trace
    ladder-IsServed (p ∷ ps) spent last trace =
        let gate = gate_of floats strip A r value threshold p in
        let res = p.acquire_evidence r in
        let total = floats.add spent res.cost in
        let missing = failure_or res.failure AcquisitionFailure.no_match in
        let skip = trace ++ TraceEntry.skipped p.provider_id gate.reason ∷ [] in
        let miss = trace ++ TraceEntry.missed p.provider_id missing res.detail ∷ [] in
        let after_skip = ladder floats strip A r value threshold ps spent last skip in
        let after_miss = ladder floats strip A r value threshold ps total missing miss in
        by_branch (Answer (p ∷ ps)) (not gate.acquires)
          (is_not_entitled gate.failure || tries_alternate gate.fallback)
          (res.is_ok && not (is_empty res.artifacts)) (is_retryable missing) after_skip
          (stopped floats strip A r value threshold gate spent skip)
          (delivered floats strip A r value threshold p res total trace) after_miss
          (exhausted floats strip A r value threshold total missing miss)
          (answers_later p ps after_skip (ladder-IsServed ps spent last skip))
          (not_stopped (p ∷ ps) gate spent skip) (answers_now p ps total trace)
          (answers_later p ps after_miss (ladder-IsServed ps total missing miss))
          (not_exhausted (p ∷ ps) total missing miss)

    acquire_from-IsServed :
        (ps : List Provider) → Answer ps (acquire_from floats strip A r value threshold ps)
    unfolding acquire_from Answer
    acquire_from-IsServed [] h = cc h
    acquire_from-IsServed (p ∷ ps) h =
        ladder-IsServed (p ∷ ps) floats.zero_float AcquisitionFailure.no_match [] h

    IsCandidate : Dict Provider → Provider → Type 0
    IsCandidate d p =
        (entitled_for floats strip A r p ≡ true)
        × (k : String) × In {A = String × Provider} (k, p) d

    IsCandidate-later :
        (e : String × Provider) (d : Dict Provider) (ps : List Provider)
        → All (IsCandidate d) ps
        → All (IsCandidate (e ∷ d)) ps
    unfolding IsCandidate
    IsCandidate-later e d [] a = tt
    IsCandidate-later e d (p ∷ ps) ((t, k, m), a) = ((t, k, there m), IsCandidate-later e d ps a)

    candidates-IsCandidate :
        (d : Dict Provider) → All (IsCandidate d) (candidates floats strip A r d)
    unfolding candidates IsCandidate
    candidates-IsCandidate [] = tt
    candidates-IsCandidate (e ∷ d) =
        let rest =
          IsCandidate-later e d (candidates floats strip A r d) (candidates-IsCandidate d) in
        elim (Bool-cases (entitled_for floats strip A r e.1)) [
          | inl q ↦ rw q ((q, e.0, here), rest)
          | inr q ↦ rw q rest
        ]

    -- What `gated_acquire` rests on when it returns artifacts.
    pub record IsPaidFor (d : Dict Provider) (a : Acquisition floats strip A) : Type 0 where
      pub served : IsServed (match_providers floats strip A r d) a
      pub offered : offers floats strip A r.capability served.provider ≡ true
      pub entitled : served.provider.check_entitlement r.tenant r.capability ≡ true
      pub key : String
      pub registered : In {A = String × Provider} (key, served.provider) d

    both : (b c : Bool) → (b && c) ≡ true → (b ≡ true) × (c ≡ true)
    both b c h = (ground arith, ground arith)

    -- If `gated_acquire` returns a result that is ok, its artifacts are the answer, not empty, of a
    -- provider that is registered, offers the capability and is entitled, whose estimate is within
    -- the budget, for a request that has a purpose if it is about persons and whose value reaches
    -- the threshold; the row of the ledger names that provider.
    pub gated_acquire-IsPaidFor :
        (d : Dict Provider)
        → (gated_acquire floats strip A r value threshold d).result.is_ok ≡ true
        → IsPaidFor d (gated_acquire floats strip A r value threshold d)
    unfolding gated_acquire match_providers IsCandidate Answer
    gated_acquire-IsPaidFor d h =
        let served = acquire_from-IsServed (match_providers floats strip A r d) h in
        let (fits, key, registered) =
          All-In (IsCandidate d)
            (All-sort ⦃o = floats.order⦄ (λ p. (p.estimate_cost r).money) (IsCandidate d)
              (candidates floats strip A r d) (candidates-IsCandidate d))
            served.listed in
        let (offered, entitled) =
          both (offers floats strip A r.capability served.provider)
            (served.provider.check_entitlement r.tenant r.capability) fits in
        record {
          served = served;
          offered = offered;
          entitled = entitled;
          key = key;
          registered = registered;
        }
