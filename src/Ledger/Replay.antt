-- ===== src/Ledger/Replay.antt =====
-- `replay_ledger` of models/ledger.py.
use runtime_contracts.Prelude.{
  String, Bool, false, not, ◌&&◌, List, [], ◌∷◌, ◌++◌, Option, none, some, given, is_empty, member,
  ◌==◌, string_eq, int_eq, ℤ, Result, ok, raise, ◌>>=◌, if◌then◌else◌,
}
use runtime_contracts.Canonical.Value.{Platform}
use runtime_contracts.Verification.{VerificationResult, Verdict, verdict}
use runtime_contracts.Mission.{
  MissionProgram, Transition, Fault, refused, Refusal, state, program_hash,
}
use runtime_contracts.Investigation.{
  InvestigationTransitionEvent, OwnershipChange, permitted_by, by_sequence,
}

pub record InvalidEvent : Type 0 where
  pub sequence : ℤ
  pub transition_id : String
  pub reason : Refusal

pub record Verified : Type 0 where
  pub sequence : ℤ
  pub transition_id : String
  pub verdict : Verdict
  pub verifier : String

pub record ReplayResult : Type 0 where
  pub current_state : String
  pub terminal_outcome : Option String
  pub active_assignment : Option String
  pub history : List InvestigationTransitionEvent
  pub invalid_events : List InvalidEvent
  pub program_mismatches : List ℤ
  pub verification_history : List Verified
  pub is_terminal : Bool

abbrev pub can_transition : ReplayResult → Bool
can_transition r = not r.is_terminal

abbrev pub is_consistent : ReplayResult → Bool
is_consistent r = is_empty r.invalid_events && is_empty r.program_mismatches

-- The local variables of the loop. A mismatch is kept as the sequence that it names.
pub record Progress : Type 0 where
  pub seen : List ℤ
  pub invalid : List InvalidEvent
  pub mismatches : List ℤ
  pub verifications : List Verified
  pub accepted : List InvestigationTransitionEvent
  pub current : String
  pub assignment : Option String
  pub outcome : Option String
  pub terminal : Bool

abbrev pub start : MissionProgram → Progress
start p = record {
  seen = [];
  invalid = [];
  mismatches = [];
  verifications = [];
  accepted = [];
  current = p.initial_state;
  assignment = none;
  outcome = none;
  terminal = false;
}

-- The nested function `reject`, then `continue`.
abbrev pub reject : Bool → Refusal → InvestigationTransitionEvent → Progress → Result Fault Progress
reject strict r e st =
    if strict
    then raise (refused r)
    else ok (record st {
      invalid =
          st.invalid
          ++ record { sequence = e.sequence; transition_id = e.transition_id; reason = r } ∷ [];
    })

-- `sequence pinned a different program`
abbrev pub mismatch : Bool → InvestigationTransitionEvent → Progress → Result Fault Progress
mismatch strict e st =
    if strict
    then raise (refused Refusal.wrong_program)
    else ok (record st { mismatches = st.mismatches ++ e.sequence ∷ [] })

abbrev pub noted : InvestigationTransitionEvent → Option VerificationResult → List Verified
noted e none = []
noted e (some v) =
    record {
      sequence = e.sequence;
      transition_id = e.transition_id;
      verdict = verdict v;
      verifier = v.verifier_id;
    }
    ∷ []

abbrev pub assigned : Option OwnershipChange → Option String → Option String
assigned none a = a
assigned (some c) a = c.to_actor

-- `event.terminal_outcome or outcome`
abbrev pub or_else : Option String → Option String → Option String
or_else a b = if given a then a else b

-- An event that is permitted, into a state that is or is not terminal.
unfoldable pub accept : InvestigationTransitionEvent → Bool → Progress → Progress
accept e ends st = record st {
  verifications = st.verifications ++ noted e e.verification;
  accepted = st.accepted ++ e ∷ [];
  current = e.to_state;
  assignment = assigned e.ownership_change st.assignment;
  outcome = or_else e.terminal_outcome st.outcome;
  terminal = ends;
}

module _ (env : Platform) (p : MissionProgram) (strict : Bool) where
  -- The `try` around `permitted_by`, and what follows it.
  unfoldable pub attempt :
      InvestigationTransitionEvent → Progress → Result Fault Transition → Result Fault Progress
  attempt e st (raise (Fault.refused r)) = reject strict r e st
  attempt e st (raise (Fault.value_error x)) = raise (Fault.value_error x)
  attempt e st (raise Fault.key_error) = raise Fault.key_error
  attempt e st (ok t) = do s ← state p e.to_state; ok (accept e s.terminal st)

  -- The tests of the body, once the sequence number is noted.
  unfoldable pub judge : InvestigationTransitionEvent → Progress → Result Fault Progress
  unfolding attempt
  judge e st =
      if not (e.program_hash == program_hash env p)
      then mismatch strict e st
      else if st.terminal
      then reject strict Refusal.follows_the_end e st
      else if not (e.from_state == st.current)
      then reject strict Refusal.not_contiguous e st
      else attempt e st (permitted_by env p e)

  -- The body of the loop.
  unfoldable pub step : InvestigationTransitionEvent → Progress → Result Fault Progress
  unfolding judge
  step e st =
      if member e.sequence st.seen
      then reject strict Refusal.duplicate_sequence e st
      else judge e (record st { seen = e.sequence ∷ st.seen })

  unfoldable pub steps : List InvestigationTransitionEvent → Progress → Result Fault Progress
  unfolding step
  steps [] st = ok st
  steps (e ∷ es) st = do st' ← step e st; steps es st'

abbrev pub report : Progress → ReplayResult
report st = record {
  current_state = st.current;
  terminal_outcome = if st.terminal then st.outcome else none;
  active_assignment = st.assignment;
  history = st.accepted;
  invalid_events = st.invalid;
  program_mismatches = st.mismatches;
  verification_history = st.verifications;
  is_terminal = st.terminal;
}

unfoldable pub replay_ledger :
    Platform → MissionProgram → Bool → List InvestigationTransitionEvent → Result Fault ReplayResult
unfolding steps
replay_ledger env p strict events = do
  st ← steps env p strict (by_sequence events) (start p)
  ok (report st)
