-- ===== src/Events.antt =====
-- models/events.py: the envelope in which every runtime emits what it did.
pub mod Laws
use runtime_contracts.Prelude.{
  String, List, [], ◌∷◌, ◌++◌, Option, none, some, ℤ, pos, ltb_ℤ, string_order, int_order,
  pair_order, Result, ok, raise_if, ◌>>◌, if◌then◌else◌,
}
use runtime_contracts.Prelude.Sort.{sort}
use runtime_contracts.Canonical.Json.{Json, Dict, null, obj, str, int, fields, strs, opt_str}
use runtime_contracts.Canonical.Value.{Platform, json_hash}
use runtime_contracts.Visibility.{
  Visibility, internal, visibility_value, AuthorizationOutcome, authorization_value, is_granted,
}
use runtime_contracts.Investigation.{InvestigationTransitionEvent, event_dict, parents_field}

pub data EventKind : Type 0 where
  dereference context_planned context_materialized capability_invoked : EventKind
  capability_completed mission_transition investigation_transition verification : EventKind

abbrev pub event_kind_value : EventKind → String
event_kind_value dereference = "DEREFERENCE"
event_kind_value context_planned = "CONTEXT_PLANNED"
event_kind_value context_materialized = "CONTEXT_MATERIALIZED"
event_kind_value capability_invoked = "CAPABILITY_INVOKED"
event_kind_value capability_completed = "CAPABILITY_COMPLETED"
event_kind_value mission_transition = "MISSION_TRANSITION"
event_kind_value investigation_transition = "INVESTIGATION_TRANSITION"
event_kind_value verification = "VERIFICATION"

pub data Intent : Type 0 where
  proposed completed failed : Intent

abbrev pub intent_value : Intent → String
intent_value proposed = "PROPOSED"
intent_value completed = "COMPLETED"
intent_value failed = "FAILED"

-- The payload is a form that the contracts have built.
pub record RuntimeEvent : Type 0 where
  pub event_id : String
  pub kind : EventKind
  pub intent : Intent
  pub stream_id : String
  pub sequence : ℤ
  pub emitted_by : String
  pub payload : Dict Json
  pub parent_event_id : Option String
  pub root_stream_id : Option String
  pub visibility : Visibility
  pub tenant_id : Option String
  pub evidence_refs : List String
  pub emitted_at : Option String
  pub schema_id : String
  pub schema_version : String

pub data EventError : Type 0 where
  sequence_negative : EventError

-- `RuntimeEvent.__post_init__`, on the event that is built.
unfoldable pub runtime_event : RuntimeEvent → Result EventError RuntimeEvent
runtime_event e = do raise_if (ltb_ℤ e.sequence (pos 0)) sequence_negative; ok e

unfoldable pub runtime_event_form : RuntimeEvent → Json
unfolding sort
runtime_event_form e = obj (
    fields (
      ("schema_id", str e.schema_id)
      ∷ ("schema_version", str e.schema_version)
      ∷ ("kind", str (event_kind_value e.kind))
      ∷ ("intent", str (intent_value e.intent))
      ∷ ("stream_id", str e.stream_id)
      ∷ ("sequence", int e.sequence)
      ∷ ("emitted_by", str e.emitted_by)
      ∷ ("parent_event_id", opt_str e.parent_event_id)
      ∷ ("root_stream_id", opt_str e.root_stream_id)
      ∷ ("visibility", str (visibility_value e.visibility))
      ∷ ("tenant_id", opt_str e.tenant_id)
      ∷ ("evidence_refs", strs (sort (λ s. s) e.evidence_refs))
      ∷ ("payload", obj (fields e.payload))
      ∷ []))

unfoldable pub runtime_event_hash : Platform → RuntimeEvent → String
unfolding json_hash runtime_event_form
runtime_event_hash env e = json_hash env (runtime_event_form e)

pub record DereferenceEvent : Type 0 where
  pub handle_hash : String
  pub artifact_id : String
  pub projection : String
  pub outcome : AuthorizationOutcome
  pub returned_content_hash : Option String
  pub tokens_materialized : Option ℤ
  pub reason : String

unfoldable pub dereference_dict : DereferenceEvent → Dict Json
dereference_dict d =
    ("handle_hash", str d.handle_hash)
    ∷ ("artifact_id", str d.artifact_id)
    ∷ ("projection", str d.projection)
    ∷ ("outcome", str (authorization_value d.outcome))
    ∷ ("returned_content_hash", opt_str d.returned_content_hash)
    ∷ []

-- `DereferenceEvent.as_event`
unfoldable pub as_event :
    DereferenceEvent → String → String → ℤ → String → Result EventError RuntimeEvent
unfolding runtime_event dereference_dict
as_event d event_id stream_id sequence emitted_by = runtime_event (record {
  event_id = event_id;
  kind = dereference;
  intent = if is_granted d.outcome then completed else failed;
  stream_id = stream_id;
  sequence = sequence;
  emitted_by = emitted_by;
  payload = dereference_dict d;
  parent_event_id = none;
  root_stream_id = none;
  visibility = internal;
  tenant_id = none;
  evidence_refs = d.artifact_id ∷ [];
  emitted_at = none;
  schema_id = "runtime-contracts/runtime-event";
  schema_version = "0.1";
})

-- The arguments of the constructor in `as_runtime_event`.
abbrev pub wrapped : InvestigationTransitionEvent → String → String → String → RuntimeEvent
wrapped e i stream by = record {
  event_id = i;
  kind = investigation_transition;
  intent = completed;
  stream_id = stream;
  sequence = e.sequence;
  emitted_by = by;
  payload = event_dict e ++ parents_field e.parents;
  parent_event_id = e.parent_event_id;
  root_stream_id = none;
  visibility = e.visibility;
  tenant_id = e.tenant_id;
  evidence_refs = e.evidence_refs;
  emitted_at = none;
  schema_id = "runtime-contracts/runtime-event";
  schema_version = "0.1";
}

-- `InvestigationTransitionEvent.as_runtime_event`
unfoldable pub as_runtime_event :
    InvestigationTransitionEvent → String → String → String → Result EventError RuntimeEvent
unfolding runtime_event
as_runtime_event e event_id stream_id emitted_by =
    runtime_event (wrapped e event_id stream_id emitted_by)

abbrev pub stream_key : RuntimeEvent → String × ℤ
stream_key e = (e.stream_id, e.sequence)

-- `replay`
unfoldable pub replay : List RuntimeEvent → List RuntimeEvent
unfolding sort
replay events = sort stream_key events
