-- ===== src/Intelligence/Booked.antt =====
-- The row that an acquisition leaves in the ledger of evidence.
use runtime_contracts.Prelude.{
  ◌++◌, String, false, not, ◌&&◌, ◌||◌, List, [], ◌∷◌, is_empty, ◌≡◌, refl,
}
use runtime_contracts.Canonical.Json.{Dict}
use runtime_contracts.Intelligence.{AcquisitionFailure, Floats, EvidenceRequest}
use runtime_contracts.Intelligence.Ladder.{by_branch}
use runtime_contracts.Intelligence.Registry.{
  acquire_from, is_retryable, is_not_entitled, tries_alternate, failure_or, IntelligenceProvider,
  match_providers, gate_of, Acquisition, TraceEntry, exhausted, stopped, delivered, ladder,
  gated_acquire,
}

module _ (floats : Floats) (strip : String → String) (A : Type 0) where
  module _ (r : EvidenceRequest floats) (value threshold : floats.Float) where
    -- The row of the ledger has the cost and the success of the result.
    pub record IsBooked (a : Acquisition floats strip A) : Type 0 where
      pub cost : a.row.cost ≡ a.result.cost
      pub received : a.row.evidence_received ≡ a.result.is_ok
      pub decision_case : a.row.decision_case_id ≡ r.decision_case_id
      pub unattributed : a.result.is_ok ≡ false → a.row.provider ≡ ""

    exhausted-IsBooked :
        (spent : floats.Float) (last : AcquisitionFailure)
        (trace : List (TraceEntry floats strip A))
        → IsBooked (exhausted floats strip A r value threshold spent last trace)
    exhausted-IsBooked spent last trace = record {
      cost = refl;
      received = refl;
      decision_case = refl;
      unattributed = λ _. refl;
    }

    ladder-IsBooked :
        (ps : List (IntelligenceProvider floats strip A)) (spent : floats.Float)
        (last : AcquisitionFailure) (trace : List (TraceEntry floats strip A))
        → IsBooked (ladder floats strip A r value threshold ps spent last trace)
    unfolding ladder
    ladder-IsBooked [] spent last trace = exhausted-IsBooked spent last trace
    ladder-IsBooked (p ∷ ps) spent last trace =
        let gate = gate_of floats strip A r value threshold p in
        let res = p.acquire_evidence r in
        let total = floats.add spent res.cost in
        let missing = failure_or res.failure AcquisitionFailure.no_match in
        let skip = trace ++ TraceEntry.skipped p.provider_id gate.reason ∷ [] in
        let miss = trace ++ TraceEntry.missed p.provider_id missing res.detail ∷ [] in
        by_branch IsBooked (not gate.acquires)
          (is_not_entitled gate.failure || tries_alternate gate.fallback)
          (res.is_ok && not (is_empty res.artifacts)) (is_retryable missing)
          (ladder floats strip A r value threshold ps spent last skip)
          (stopped floats strip A r value threshold gate spent skip)
          (delivered floats strip A r value threshold p res total trace)
          (ladder floats strip A r value threshold ps total missing miss)
          (exhausted floats strip A r value threshold total missing miss)
          (ladder-IsBooked ps spent last skip)
          (record { cost = refl; received = refl; decision_case = refl; unattributed = λ _. refl })
          (λ _ _. record {
            cost = refl;
            received = refl;
            decision_case = refl;
            unattributed = λ h. cc h;
          })
          (ladder-IsBooked ps total missing miss) (exhausted-IsBooked total missing miss)

    acquire_from-IsBooked :
        (ps : List (IntelligenceProvider floats strip A))
        → IsBooked (acquire_from floats strip A r value threshold ps)
    unfolding acquire_from
    acquire_from-IsBooked [] = record {
      cost = refl;
      received = refl;
      decision_case = refl;
      unattributed = λ _. refl;
    }
    acquire_from-IsBooked (p ∷ ps) =
        ladder-IsBooked (p ∷ ps) floats.zero_float AcquisitionFailure.no_match []

    -- The row that `gated_acquire` returns has the cost of its result and the case of the request,
    -- says that evidence was received exactly if the result is ok, and names no provider if it is
    -- not.
    pub gated_acquire-IsBooked :
        (d : Dict (IntelligenceProvider floats strip A))
        → IsBooked (gated_acquire floats strip A r value threshold d)
    unfolding gated_acquire
    gated_acquire-IsBooked d = acquire_from-IsBooked (match_providers floats strip A r d)
