-- ===== src/Intent/RoundTrip.antt =====
-- An intent that is stored is restored, with its hash and its state.
use runtime_contracts.Prelude.{
  string_order, String, false, List, [], ◌∷◌, ◌≡◌, ◌≢◌, refl, ap, ok, All, string_eq, eq_iff, map,
}
use runtime_contracts.Prelude.Sort.{sort, sort-IsSorted, sort_of_IsSorted}
use runtime_contracts.Canonical.Json.{Json, Dict, str, fields}
use runtime_contracts.Canonical.Keys.{IsKeyed}
use runtime_contracts.Canonical.Value.{Platform}
use runtime_contracts.Intent.{
  DecimalText, IntentField, Unresolved, RelationMember, IntentRelation, Amendment, VerifiedIntent,
  IntentState, state_value, overlaps, unsealable, make_intent,
}
use runtime_contracts.Intent.Form.{
  field_json, unresolved_json, relation_json, amendment_json, intent_json, intent_hash, intent_form,
  relation_form, member_form, mapped, sorted_dict,
}
use runtime_contracts.Intent.Restore.{
  read_fields, collect, pairs, read_named, read_relation, read_unresolved, read_amendment,
  read_state, read_draft, resealed, differs, intent_from_json,
}
use runtime_contracts.Intent.Sealing.{seal-unsealable}
use runtime_contracts.Intent.StoredMaps.{put_all_self}
use runtime_contracts.Intent.StoredParts.{
  IsField, IsRelation, IsNormal, stored_relation, stored_member, read-field_json,
  read-relation_json, read-unresolved_json, read-amendment_json, collect-map, map_self, or_empty,
}

read-state_value : (s : IntentState) → read_state (state_value s) ≡ s
unfolding read_state
read-state_value IntentState.draft = refl
read-state_value IntentState.verified = refl
read-state_value IntentState.stale = refl
read-state_value IntentState.invalidated = refl

hash_agrees : (h : String) → differs (str h) h ≡ false
hash_agrees String.[] = refl
hash_agrees (String.◌∷◌ c s) = rw ((eq_iff (String.◌∷◌ c s) (String.◌∷◌ c s)).1 refl) refl

-- The intent with its text maps in the order of their keys.
unfoldable pub stored_intent : (Json → String) → DecimalText → VerifiedIntent → VerifiedIntent
unfolding stored_relation
stored_intent show dec i = record i { relations = map (stored_relation show dec) i.relations }

module _ (show : Json → String) (dec : DecimalText) where
  -- What the constructors have checked, for maps with distinct keys, and what a sealed state says.
  pub record IsMade (i : VerifiedIntent) : Type 0 where
    pub fields_made : All (λ e. IsField show dec e.1) i.fields
    pub fields_keyed : IsKeyed i.fields
    pub relations_made : All (IsRelation show dec) i.relations
    pub unresolved_made : All (λ u. All (IsNormal dec) u.evidence) i.unresolved
    pub apart : overlaps i.unresolved i.fields ≡ false
    pub sealed : i.state ≢ IntentState.draft → unsealable i ≡ []

  sorted_again : (d : Dict String) → sort (λ e. e.0) (sort (λ e. e.0) d) ≡ sort (λ e. e.0) d
  sorted_again d = sort_of_IsSorted (λ e. e.0) (sort (λ e. e.0) d) (sort-IsSorted (λ e. e.0) d)

  stored_member-form : (m : RelationMember) → member_form (stored_member show dec m) ≡ member_form m
  unfolding member_form stored_member sorted_dict
  stored_member-form m = rw (sorted_again m.qualifiers) refl

  listed_stored_members :
      (ms : List RelationMember)
      → map member_form (map (stored_member show dec) ms) ≡ map member_form ms
  listed_stored_members [] = refl
  listed_stored_members (m ∷ ms) = rw (stored_member-form m, listed_stored_members ms) refl

  stored_relation-form :
      (r : IntentRelation) → relation_form (stored_relation show dec r) ≡ relation_form r
  unfolding relation_form stored_relation sorted_dict
  stored_relation-form r = rw (sorted_again r.attributes, listed_stored_members r.members) refl

  listed_stored_relations :
      (rs : List IntentRelation)
      → map relation_form (map (stored_relation show dec) rs) ≡ map relation_form rs
  listed_stored_relations [] = refl
  listed_stored_relations (r ∷ rs) = rw (stored_relation-form r, listed_stored_relations rs) refl

  pub stored_intent-hash :
      (env : Platform) (i : VerifiedIntent)
      → intent_hash env (stored_intent show dec i) ≡ intent_hash env i
  unfolding intent_hash intent_form stored_intent
  stored_intent-hash env i = rw (listed_stored_relations i.relations) refl

  read_all_fields :
      (d : Dict IntentField)
      → All (λ e. IsField show dec e.1) d
      → collect (read_named show dec) (pairs (fields (mapped field_json d))) ≡ ok d
  unfolding collect read_named
  read_all_fields [] a = refl
  read_all_fields (e ∷ d) a = rw (read-field_json show dec e.1 a.0, read_all_fields d a.1) refl

  read_all_relations :
      (rs : List IntentRelation)
      → All (IsRelation show dec) rs
      → All (λ r. read_relation show dec (relation_json r) ≡ ok (stored_relation show dec r)) rs
  read_all_relations [] a = tt
  read_all_relations (r ∷ rs) a = (read-relation_json show dec r a.0, read_all_relations rs a.1)

  read_all_unresolved :
      (us : List Unresolved)
      → All (λ u. All (IsNormal dec) u.evidence) us
      → All (λ u. read_unresolved show dec (unresolved_json u) ≡ ok u) us
  read_all_unresolved [] a = tt
  read_all_unresolved (u ∷ us) a = (read-unresolved_json show dec u a.0, read_all_unresolved us a.1)

  read_all_amendments :
      (cs : List Amendment) → All (λ c. read_amendment show dec (amendment_json c) ≡ ok c) cs
  read_all_amendments [] = tt
  read_all_amendments (c ∷ cs) = (read-amendment_json show dec c, read_all_amendments cs)

  reseal :
      (i : VerifiedIntent) (s : IntentState)
      → (s ≢ IntentState.draft → unsealable i ≡ [])
      → i.state ≡ IntentState.draft
      → resealed s i ≡ ok (record i { state = s })
  unfolding resealed
  reseal i IntentState.draft h d = ap (λ s. ok (record i { state = s })) d
  reseal i IntentState.verified h d = rw (resealed, seal-unsealable i (h (λ q. cc q))) refl
  reseal i IntentState.stale h d = rw (resealed, seal-unsealable i (h (λ q. cc q))) refl
  reseal i IntentState.invalidated h d = rw (resealed, seal-unsealable i (h (λ q. cc q))) refl

  draft_of : VerifiedIntent → VerifiedIntent
  draft_of i = record (stored_intent show dec i) { state = IntentState.draft }

  -- If an intent satisfies what the constructors check, its maps have distinct keys, and it is a
  -- draft or satisfies the seal, then `intent_from_json` returns it from what `to_json` writes,
  -- with its text maps in the order of their keys, and the hash is the same.
  pub restore-intent_json :
      (env : Platform) (i : VerifiedIntent)
      → IsMade i
      → (intent_from_json show dec env (intent_json env i) ≡ ok (stored_intent show dec i))
        × (intent_hash env (stored_intent show dec i) ≡ intent_hash env i)
  unfolding intent_from_json intent_json read_draft read_fields make_intent draft_of stored_intent
      unsealable
  restore-intent_json env i w = (
    rw
        (
          read_all_fields i.fields w.fields_made,
          put_all_self i.fields w.fields_keyed,
          collect-map relation_json (read_relation show dec) (stored_relation show dec) i.relations
              (read_all_relations i.relations w.relations_made),
          collect-map unresolved_json (read_unresolved show dec) (λ u. u) i.unresolved
              (read_all_unresolved i.unresolved w.unresolved_made),
          map_self i.unresolved,
          collect-map amendment_json (read_amendment show dec) (λ u. u) i.amendments
              (read_all_amendments i.amendments),
          map_self i.amendments,
          or_empty i.produced_by,
          or_empty i.utterance_ref,
          or_empty i.capability_version,
          or_empty i.policy_version,
          w.apart,
        )
        (rw (read-state_value i.state, reseal (draft_of i) i.state w.sealed refl)
          (rw (stored_intent-hash env i, hash_agrees (intent_hash env i)) refl)),
    stored_intent-hash env i,
  )
