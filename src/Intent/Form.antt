-- ===== src/Intent/Form.antt =====
-- What of an intent is hashed, and what is stored: `canonical_form`, `artifact_form` and `to_json`.
use runtime_contracts.Prelude.{String, Bool, not, ◌||◌, List, [], ◌∷◌, map, string_order}
use runtime_contracts.Prelude.Sort.{sort}
use runtime_contracts.Canonical.Json.{Json, Dict, bool, str, arr, obj, fields, items}
use runtime_contracts.Canonical.Value.{Platform, json_hash}
use runtime_contracts.Intent.{
  DecisionEvidence, IntentField, Unresolved, RelationMember, IntentRelation, Amendment,
  VerifiedIntent, author_value, reader_kind_value, reason_value, state_value, is_not_asked,
  keep_open,
}

-- A dict of the values that `form` gives.
abbrev pub mapped : {A : Type 0} → (A → Json) → Dict A → Dict Json
mapped form [] = []
mapped form ((k, a) ∷ d) = (k, form a) ∷ mapped form d

abbrev pub listed : {A : Type 0} → (A → Json) → List A → Json
listed form xs = arr (items (map form xs))

-- `dict(sorted(d.items()))`
unfoldable pub sorted_dict : Dict String → Dict String
unfolding sort
sorted_dict d = sort (λ e. e.0) d

abbrev pub texts_form : Dict String → Json
texts_form d = obj (fields (mapped str (sorted_dict d)))

unfoldable pub evidence_json : DecisionEvidence → Json
evidence_json e = obj (
    fields (
      ("reader_id", str e.reader_id)
      ∷ ("kind", str (reader_kind_value e.kind))
      ∷ ("value", e.value)
      ∷ ("confidence", str e.confidence)
      ∷ ("source_ref", str e.source_ref)
      ∷ []))

unfoldable pub field_form : IntentField → Json
field_form f = obj (fields (("value", f.value) ∷ ("author", str (author_value f.author)) ∷ []))

unfoldable pub field_json : IntentField → Json
unfolding evidence_json
field_json f = obj (
    fields (
      ("value", f.value)
      ∷ ("author", str (author_value f.author))
      ∷ ("produced_by", str f.produced_by)
      ∷ ("confidence", str f.confidence)
      ∷ ("source_span", str f.source_span)
      ∷ ("contested", bool f.contested)
      ∷ ("evidence", listed evidence_json f.evidence)
      ∷ []))

unfoldable pub unresolved_form : Unresolved → Json
unresolved_form u =
    obj (fields (("dimension", str u.dimension) ∷ ("reason", str (reason_value u.reason)) ∷ []))

unfoldable pub unresolved_json : Unresolved → Json
unfolding evidence_json
unresolved_json u = obj (
    fields (
      ("dimension", str u.dimension)
      ∷ ("reason", str (reason_value u.reason))
      ∷ ("detail", str u.detail)
      ∷ ("result_changing", bool u.result_changing)
      ∷ ("evidence", listed evidence_json u.evidence)
      ∷ []))

unfoldable pub member_form : RelationMember → Json
unfolding sorted_dict
member_form m = obj (
    fields (
      ("role", str m.role)
      ∷ ("subject", str m.subject)
      ∷ ("qualifiers", texts_form m.qualifiers)
      ∷ []))

unfoldable pub member_json : RelationMember → Json
unfolding sorted_dict evidence_json
member_json m = obj (
    fields (
      ("role", str m.role)
      ∷ ("subject", str m.subject)
      ∷ ("qualifiers", texts_form m.qualifiers)
      ∷ ("evidence", listed evidence_json m.evidence)
      ∷ []))

unfoldable pub relation_form : IntentRelation → Json
unfolding sorted_dict member_form
relation_form r = obj (
    fields (
      ("kind", str r.kind)
      ∷ ("members", listed member_form r.members)
      ∷ ("attributes", texts_form r.attributes)
      ∷ ("author", str (author_value r.author))
      ∷ []))

unfoldable pub relation_json : IntentRelation → Json
unfolding sorted_dict member_json
relation_json r = obj (
    fields (
      ("kind", str r.kind)
      ∷ ("members", listed member_json r.members)
      ∷ ("attributes", texts_form r.attributes)
      ∷ ("author", str (author_value r.author))
      ∷ ("produced_by", str r.produced_by)
      ∷ ("source_span", str r.source_span)
      ∷ []))

unfoldable pub amendment_form : Amendment → Json
amendment_form a = obj (
    fields (
      ("dimension", str a.dimension)
      ∷ ("from_value", a.from_value)
      ∷ ("to_value", a.to_value)
      ∷ ("author", str (author_value a.author))
      ∷ []))

unfoldable pub amendment_json : Amendment → Json
amendment_json a = obj (
    fields (
      ("dimension", str a.dimension)
      ∷ ("from_value", a.from_value)
      ∷ ("to_value", a.to_value)
      ∷ ("author", str (author_value a.author))
      ∷ ("at", a.at)
      ∷ []))

-- `u.result_changing or u.reason is not OpenReason.NOT_ASKED`
abbrev pub is_part_of_request : Unresolved → Bool
is_part_of_request u = u.result_changing || not (is_not_asked u.reason)

unfoldable pub open_forms : List Unresolved → Json
unfolding sort keep_open unresolved_form
open_forms us = listed unresolved_form (sort (λ u. u.dimension) (keep_open is_part_of_request us))

unfoldable pub intent_form : VerifiedIntent → Json
unfolding field_form relation_form open_forms amendment_form
intent_form i = obj (
    fields (
      ("schema_id", str "runtime-contracts/verified-intent")
      ∷ ("schema_version", str "0.1")
      ∷ ("contract_version", str "0.1")
      ∷ ("objective", str i.objective)
      ∷ ("fields", obj (fields (mapped field_form i.fields)))
      ∷ ("relations", listed relation_form i.relations)
      ∷ ("unresolved", open_forms i.unresolved)
      ∷ ("amendments", listed amendment_form i.amendments)
      ∷ []))

-- The entry of a field in `artifact_form`.
unfoldable pub field_artifact : IntentField → Json
unfolding evidence_json
field_artifact f = obj (
    fields (
      ("confidence", str f.confidence)
      ∷ ("source_span", str f.source_span)
      ∷ ("contested", bool f.contested)
      ∷ ("produced_by", str f.produced_by)
      ∷ ("evidence", listed evidence_json f.evidence)
      ∷ []))

-- The entry of an open dimension in `artifact_form`.
unfoldable pub unresolved_artifact : Unresolved → Json
unresolved_artifact u = obj (
    fields (
      ("dimension", str u.dimension)
      ∷ ("reason", str (reason_value u.reason))
      ∷ ("result_changing", bool u.result_changing)
      ∷ []))

module _ (env : Platform) where
  unfoldable pub intent_hash : VerifiedIntent → String
  unfolding json_hash intent_form
  intent_hash i = json_hash env (intent_form i)

  unfoldable pub artifact_form : VerifiedIntent → Json
  unfolding intent_hash sort relation_json field_artifact unresolved_artifact
  artifact_form i = obj (
      fields (
        ("intent_hash", str (intent_hash i))
        ∷ ("state", str (state_value i.state))
        ∷ ("produced_by", str i.produced_by)
        ∷ ("utterance_ref", str i.utterance_ref)
        ∷ ("unresolved", listed unresolved_artifact (sort (λ u. u.dimension) i.unresolved))
        ∷ ("relations", listed relation_json i.relations)
        ∷ ("fields", obj (fields (mapped field_artifact (sort (λ e. e.0) i.fields))))
        ∷ []))

  unfoldable pub artifact_digest : VerifiedIntent → String
  unfolding json_hash artifact_form
  artifact_digest i = json_hash env (artifact_form i)

  -- `to_json`: a key of the canonical form keeps its place and gets the stored value.
  unfoldable pub intent_json : VerifiedIntent → Json
  unfolding intent_hash artifact_digest field_json relation_json unresolved_json amendment_json
  intent_json i = obj (
      fields (
        ("schema_id", str "runtime-contracts/verified-intent")
        ∷ ("schema_version", str "0.1")
        ∷ ("contract_version", str "0.1")
        ∷ ("objective", str i.objective)
        ∷ ("fields", obj (fields (mapped field_json i.fields)))
        ∷ ("relations", listed relation_json i.relations)
        ∷ ("unresolved", listed unresolved_json i.unresolved)
        ∷ ("amendments", listed amendment_json i.amendments)
        ∷ ("intent_hash", str (intent_hash i))
        ∷ ("artifact_digest", str (artifact_digest i))
        ∷ ("state", str (state_value i.state))
        ∷ ("produced_by", str i.produced_by)
        ∷ ("utterance_ref", str i.utterance_ref)
        ∷ ("created_at", i.created_at)
        ∷ ("capability_version", str i.capability_version)
        ∷ ("policy_version", str i.policy_version)
        ∷ []))
