-- ===== src/Examples/Intents.antt =====
-- An intent with a settled and an open dimension, stored and restored.
use runtime_contracts.Prelude.{
  if◌then◌else◌, String, true, false, [], ◌∷◌, none, some, ◌≡◌, ◌↔◌, pos, refl, ok, ◌==◌, string_eq,
  All,
}
use runtime_contracts.Canonical.Dict.{get}
use runtime_contracts.Canonical.Json.{Json, Fields, null, str, obj}
use runtime_contracts.Canonical.Decimal.{Decimal}
use runtime_contracts.Intent.{
  unsealable, overlaps, decimal_text, Author, ReaderKind, OpenReason, IntentState, DecimalText,
  DecisionEvidence, IntentField, Unresolved, RelationMember, IntentRelation, Amendment,
  VerifiedIntent, seal, make_intent, is_executable_in_principle,
}
use runtime_contracts.Intent.Form.{intent_hash, intent_json}
use runtime_contracts.Intent.Restore.{intent_from_json}
use runtime_contracts.Intent.Sealing.{seal_iff, seal-intent_hash, IsClosed}
use runtime_contracts.Intent.RoundTrip.{restore-intent_json, stored_intent, IsMade}
use runtime_contracts.Intent.Restored.{restored-IsCoherent, IsCoherent}
use runtime_contracts.Examples.{ascii_platform, texts}

-- The text "1" is one, and other texts are refused.
abbrev unit_decimals : DecimalText
unit_decimals = record {
  strip = λ s. s;
  parse = λ s. if s == "1" then some (Decimal.finite false 1 (pos 0)) else none;
}

abbrev blank : Json → String
blank v = ""

abbrev heard : DecisionEvidence
heard = record {
  reader_id = "r-1";
  kind = ReaderKind.rule;
  value = str "monthly";
  confidence = "1";
  source_ref = "";
}

abbrev cadence : IntentField
cadence = record {
  value = str "monthly";
  author = Author.user;
  produced_by = "discovery";
  confidence = "1";
  source_span = "every month";
  evidence = heard ∷ [];
  contested = true;
}

abbrev open_account : Unresolved
open_account = record {
  dimension = "account";
  reason = OpenReason.user_declined;
  detail = "";
  evidence = [];
  result_changing = false;
}

abbrev core_sleeve : RelationMember
core_sleeve = record {
  role = "core";
  subject = "an index fund";
  qualifiers = ("share", "70") ∷ ("account", "any") ∷ [];
  evidence = heard ∷ [];
}

abbrev sleeves : IntentRelation
sleeves = record {
  kind = "sleeves";
  members = core_sleeve ∷ [];
  attributes = [];
  author = Author.user;
  produced_by = "";
  source_span = "";
}

abbrev changed_mind : Amendment
changed_mind = record {
  dimension = "cadence";
  from_value = str "weekly";
  to_value = str "monthly";
  author = Author.user;
  at = null;
}

abbrev saving_plan : VerifiedIntent
saving_plan = record {
  objective = "save";
  fields = ("cadence", cadence) ∷ [];
  relations = sleeves ∷ [];
  unresolved = open_account ∷ [];
  amendments = changed_mind ∷ [];
  state = IntentState.draft;
  produced_by = "discovery";
  utterance_ref = "u-1";
  created_at = null;
  capability_version = "";
  policy_version = "";
}

abbrev sealed_plan : VerifiedIntent
sealed_plan = record saving_plan { state = IntentState.verified }

plan_sealed : seal saving_plan ≡ ok sealed_plan
unfolding seal
plan_sealed = refl

seal_iff_example : (seal saving_plan ≡ ok sealed_plan) ↔ (
    All IsClosed saving_plan.unresolved
    × (sealed_plan ≡ record saving_plan { state = IntentState.verified }))
seal_iff_example = seal_iff saving_plan sealed_plan

seal-intent_hash_example :
    (intent_hash ascii_platform sealed_plan ≡ intent_hash ascii_platform saving_plan)
    × (is_executable_in_principle sealed_plan ≡ true)
    × (seal sealed_plan ≡ ok sealed_plan)
seal-intent_hash_example = seal-intent_hash ascii_platform saving_plan sealed_plan plan_sealed

plan_made : make_intent saving_plan ≡ ok saving_plan
unfolding make_intent
plan_made = refl

plan_IsMade : IsMade blank unit_decimals sealed_plan
unfolding decimal_text overlaps unsealable get
plan_IsMade = record {
  fields_made = (record { confidence = refl; evidence = (refl, tt); reviewable = refl }, tt);
  fields_keyed = (refl, tt);
  relations_made = (
    record {
      members = (record { qualifiers = (refl, (refl, tt)); evidence = (refl, tt) }, tt);
      nonempty = refl;
      attributes = tt;
    },
    tt,
  );
  unresolved_made = (tt, tt);
  apart = refl;
  sealed = λ _. refl;
}

restore-intent_json_example :
    (intent_from_json blank unit_decimals ascii_platform (intent_json ascii_platform sealed_plan)
      ≡ ok (stored_intent blank unit_decimals sealed_plan))
    × (intent_hash ascii_platform (stored_intent blank unit_decimals sealed_plan)
        ≡ intent_hash ascii_platform sealed_plan)
restore-intent_json_example =
    restore-intent_json blank unit_decimals ascii_platform sealed_plan plan_IsMade

-- A record of which only the objective, the state and the hash are there.
abbrev thin_record : Fields
thin_record = Fields.field "objective" (str "save") (
    Fields.field "state" (str "STALE") (
      Fields.field "intent_hash" (str "rcv1:0.1saveruntime-contracts/verified-intent0.1")
        Fields.end))

abbrev thin_intent : VerifiedIntent
thin_intent = record {
  objective = "save";
  fields = [];
  relations = [];
  unresolved = [];
  amendments = [];
  state = IntentState.stale;
  produced_by = "";
  utterance_ref = "";
  created_at = null;
  capability_version = "";
  policy_version = "";
}

thin_restored :
    intent_from_json blank unit_decimals ascii_platform (obj thin_record) ≡ ok thin_intent
unfolding intent_from_json texts
thin_restored = refl

restored-IsCoherent_example : IsCoherent blank unit_decimals ascii_platform thin_record thin_intent
restored-IsCoherent_example =
    restored-IsCoherent blank unit_decimals ascii_platform thin_record thin_intent thin_restored
