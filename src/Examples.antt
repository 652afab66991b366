-- ===== src/Examples.antt =====
-- The theorems at concrete inputs: the platform, the events and the logs of the examples.
mod Canon
mod Missions
mod Ledgers
mod Contexts
mod Stores
mod Kpis
mod Access
mod Brokers
mod Intents
mod Lookups
mod Runs
use runtime_contracts.Prelude.{String, List, [], ◌∷◌, Option, none, some, ℕ, pos, true, false}
use Prim.Native.String.{◌++◌}
use runtime_contracts.Canonical.Json.{Json, Items, Fields}
use runtime_contracts.Canonical.Value.{Platform, Entries, Key, Value}
use runtime_contracts.Visibility.{internal}
use runtime_contracts.Mission.{program_hash}
use runtime_contracts.Mission.Default.{investigation_program}
use runtime_contracts.Investigation.{InvestigationTransitionEvent}
use runtime_contracts.Store.{EvidenceEnvelope}

-- The texts of a form one after the other, in place of a digest.
unfoldable mutual
  pub texts : Json → String
  texts (Json.str s) = s
  texts (Json.arr js) = item_texts js
  texts (Json.obj fs) = field_texts fs
  texts Json.null = ""
  texts (Json.bool b) = ""
  texts (Json.int n) = ""

  pub item_texts : Items → String
  item_texts Items.nil = ""
  item_texts (Items.cons j js) = texts j ++ item_texts js

  pub field_texts : Fields → String
  field_texts Fields.end = ""
  field_texts (Fields.field k v fs) = texts v ++ field_texts fs

-- ASCII texts are their own normal form.
abbrev pub ascii_platform : Platform
ascii_platform = record { nfc = λ s. s; sha256 = texts }

-- A move of an inquiry that pins the investigation program.
abbrev pub moved : ℕ → String → String → String → Option String → InvestigationTransitionEvent
moved n i from to o = record {
  investigation_id = "inquiry-1";
  program_id = "investigation/default";
  program_version = "1";
  program_hash = program_hash ascii_platform investigation_program;
  transition_id = i;
  from_state = from;
  to_state = to;
  actor = "analyst";
  sequence = pos n;
  mission_id = none;
  terminal_outcome = o;
  reason = "";
  evidence_refs = "evidence/42" ∷ [];
  verification = none;
  ownership_change = none;
  verification_result_ref = none;
  parent_event_id = none;
  parents = [];
  visibility = internal;
  tenant_id = none;
  occurred_at = none;
  schema_version = "0.1";
}

abbrev pub assigned_event : InvestigationTransitionEvent
assigned_event = moved 0 "assign" "PROPOSED" "ASSIGNED" none

abbrev pub started_event : InvestigationTransitionEvent
started_event = moved 1 "start" "ASSIGNED" "ACTIVE" none

abbrev pub concluded_event : InvestigationTransitionEvent
concluded_event = moved 2 "conclude_inconclusive" "ACTIVE" "CONCLUDED" (some "INCONCLUSIVE")

-- A move that the program does not declare.
abbrev pub skipped_event : InvestigationTransitionEvent
skipped_event = moved 3 "skip" "PROPOSED" "CONCLUDED" (some "INCONCLUSIVE")

-- Out of order, as they may arrive.
abbrev pub inquiry : List InvestigationTransitionEvent
inquiry = started_event ∷ concluded_event ∷ assigned_event ∷ []

abbrev pub envelope : String → String → EvidenceEnvelope
envelope i known = record {
  event_id = i;
  event_type = "decision";
  family = "decision";
  tenant_id = "acme";
  artifact_id = "";
  mission_id = "";
  trace_id = "";
  parent_event_id = "";
  causation_id = "";
  correlation_id = "";
  contract_version = "0.1";
  event_time = known;
  known_at = known;
  content_hash = i;
  payload_ref = i;
  payload = Entries.entry (Key.text "verdict") (Value.str "PASS") Entries.end;
}
