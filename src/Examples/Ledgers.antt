-- ===== src/Examples/Ledgers.antt =====
-- Histories of the investigation program.
use runtime_contracts.Prelude.{
  String, true, false, [], ◌∷◌, none, some, ◌≡◌, ◌↔◌, refl, ok, raise, In, string_eq, here, there,
}
use runtime_contracts.Mission.{
  require, ApproverType, terminal_ids, Transition, refused, Refusal, find_state, program_hash,
}
use runtime_contracts.Prelude.Sort.{sort}
use runtime_contracts.Mission.WellFormed.{IsWellFormed, program_post_init-IsWellFormed}
use runtime_contracts.Mission.Permits.{AreDistinct}
use runtime_contracts.Mission.Default.{
  investigation_program, investigation_program_constructs, move,
}
use runtime_contracts.Canonical.Dict.{get}
use runtime_contracts.Investigation.{public_leak, permitted_by, replay_states, walk}
use runtime_contracts.Investigation.Permitted.{Permitted, permitted_by_sound, permitted_by_complete}
use runtime_contracts.Ledger.{
  ReplayResult, accept, replay_ledger, is_consistent, submit, SubmissionResult, SubmissionOutcome,
}
use runtime_contracts.Ledger.Laws.{replay_ledger_strict_iff}
use runtime_contracts.Ledger.States.{replay_states_iff}
use runtime_contracts.Ledger.Audit.{replay_ledger_total, history_walks}
use runtime_contracts.Ledger.Submit.{submit_accepted_iff}
use runtime_contracts.Examples.{
  texts, ascii_platform, inquiry, assigned_event, started_event, concluded_event, skipped_event,
}

program_IsWellFormed : IsWellFormed investigation_program
program_IsWellFormed =
    program_post_init-IsWellFormed investigation_program investigation_program_constructs

inquiry_concludes : replay_states ascii_platform investigation_program inquiry ≡ ok "CONCLUDED"
unfolding replay_states sort permitted_by program_hash texts require find_state public_leak
inquiry_concludes = refl

-- The replays agree on the inquiry.
replay_states_iff_example :
    (replay_states ascii_platform investigation_program inquiry ≡ ok "CONCLUDED") ↔ (
      (r : ReplayResult) × (replay_ledger ascii_platform investigation_program true inquiry ≡ ok r)
      × (r.current_state ≡ "CONCLUDED"))
replay_states_iff_example =
    replay_states_iff ascii_platform investigation_program inquiry "CONCLUDED"

abbrev account : ReplayResult
account = record {
  current_state = "CONCLUDED";
  terminal_outcome = some "INCONCLUSIVE";
  active_assignment = none;
  history = assigned_event ∷ started_event ∷ concluded_event ∷ [];
  invalid_events = [];
  program_mismatches = [];
  verification_history = [];
  is_terminal = true;
}

inquiry_replayed : replay_ledger ascii_platform investigation_program false inquiry ≡ ok account
unfolding replay_ledger sort permitted_by program_hash texts require find_state public_leak accept
inquiry_replayed = refl

replay_ledger_strict_iff_example :
    (replay_ledger ascii_platform investigation_program true inquiry ≡ ok account) ↔ (
      (replay_ledger ascii_platform investigation_program false inquiry ≡ ok account)
      × (is_consistent account ≡ true))
replay_ledger_strict_iff_example =
    replay_ledger_strict_iff ascii_platform investigation_program inquiry account

replay_ledger_total_example :
    (r : ReplayResult) × (replay_ledger ascii_platform investigation_program false
        (skipped_event ∷ inquiry)
      ≡ ok r)
replay_ledger_total_example =
    replay_ledger_total ascii_platform investigation_program (skipped_event ∷ inquiry)
      program_IsWellFormed

history_walks_example :
    walk ascii_platform investigation_program "PROPOSED" false
      (assigned_event ∷ started_event ∷ concluded_event ∷ [])
    ≡ ok "CONCLUDED"
history_walks_example =
    history_walks ascii_platform investigation_program inquiry {r = account} inquiry_replayed

abbrev conclusion : Transition
conclusion =
    record (move "conclude_inconclusive" ("ACTIVE" ∷ []) "CONCLUDED" (some "INCONCLUSIVE")) {
      approval = record {
        approver = ApproverType.human;
        policy = "a reviewer accepts that it could not be settled";
      };
      verification_method = some "examined_something";
    }

conclusion_permitted :
    permitted_by ascii_platform investigation_program concluded_event ≡ ok conclusion
unfolding permitted_by program_hash texts require find_state public_leak
conclusion_permitted = refl

states_distinct : AreDistinct investigation_program.states
states_distinct = (refl, (refl, (refl, (refl, (refl, (refl, tt))))))

permitted_by_sound_example :
    Permitted ascii_platform investigation_program concluded_event conclusion
permitted_by_sound_example =
    permitted_by_sound ascii_platform investigation_program concluded_event {t = conclusion}
      program_IsWellFormed states_distinct conclusion_permitted

conclusion_declared : In conclusion investigation_program.transitions
conclusion_declared = there (there (there (there (there (there here)))))

conclusion_fits : Permitted ascii_platform investigation_program concluded_event conclusion
unfolding public_leak terminal_ids
conclusion_fits = record {
  pinned = refl;
  declared = conclusion_declared;
  makes_move = refl;
  outcome_at_end = refl;
  outcome_agrees = λ _. refl;
  leaks_nothing = refl;
}

permitted_by_complete_example :
    permitted_by ascii_platform investigation_program concluded_event ≡ ok conclusion
permitted_by_complete_example =
    permitted_by_complete ascii_platform investigation_program concluded_event {t = conclusion}
      program_IsWellFormed states_distinct conclusion_fits

skip_refused :
    permitted_by ascii_platform investigation_program skipped_event
    ≡ raise (refused Refusal.not_permitted)
unfolding permitted_by program_hash texts require
skip_refused = refl

submit_accepted_iff_example :
    (r : SubmissionResult) × (submit ascii_platform investigation_program [] "e-1" assigned_event
      ≡ ok r)
    × (r.event_id ≡ "e-1")
    × ((r.outcome ≡ SubmissionOutcome.accepted) ↔ (
        (get {V = String} "e-1" [] ≡ none)
        × ((t : Transition) × (permitted_by ascii_platform investigation_program assigned_event
              ≡ ok t))))
submit_accepted_iff_example =
    submit_accepted_iff ascii_platform investigation_program [] "e-1" assigned_event
      program_IsWellFormed
