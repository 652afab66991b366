-- ===== src/Intent/StoredParts.antt =====
-- Each part of an intent is read back as it was stored, but for the order of text maps.
use runtime_contracts.Intent.StoredMaps.{put_all_self, sort-IsKeyed}
use runtime_contracts.Prelude.{
  String, false, ◌&&◌, List, [], ◌∷◌, is_empty, string_eq, string_order, ◌≡◌, refl, ◌∙◌, ap, ok,
  Result, All, truthy, if◌then◌else◌, map,
}
use runtime_contracts.Prelude.Sort.{sort}
use runtime_contracts.Canonical.Json.{Json, Dict, str, fields, items}
use runtime_contracts.Canonical.Keys.{IsKeyed}
use runtime_contracts.Intent.{
  Author, ReaderKind, OpenReason, DecimalText, DecisionEvidence, IntentField, Unresolved,
  RelationMember, IntentRelation, Amendment, author_value, reader_kind_value, reason_value,
  decimal_text, make_evidence, make_field, make_relation, IntentError,
}
use runtime_contracts.Intent.Form.{
  evidence_json, field_json, unresolved_json, member_json, relation_json, amendment_json,
  sorted_dict, mapped,
}
use runtime_contracts.Intent.Restore.{
  collect, list_of, pairs, put_all, read_author, read_kind, read_reason, read_one_evidence,
  read_evidence, read_field, read_member, read_relation, read_unresolved, read_amendment,
  text_pairs,
}

read-author_value : (a : Author) → read_author (str (author_value a)) ≡ ok a
unfolding read_author
read-author_value Author.default_value = refl
read-author_value Author.model = refl
read-author_value Author.reader = refl
read-author_value Author.policy = refl
read-author_value Author.user = refl

read-reader_kind_value : (k : ReaderKind) → read_kind (str (reader_kind_value k)) ≡ ok k
unfolding read_kind
read-reader_kind_value ReaderKind.rule = refl
read-reader_kind_value ReaderKind.model = refl
read-reader_kind_value ReaderKind.policy = refl
read-reader_kind_value ReaderKind.retrieval = refl
read-reader_kind_value ReaderKind.prior = refl
read-reader_kind_value ReaderKind.human = refl

read-reason_value : (r : OpenReason) → read_reason (str (reason_value r)) ≡ ok r
unfolding read_reason
read-reason_value OpenReason.not_asked = refl
read-reason_value OpenReason.user_declined = refl
read-reason_value OpenReason.unresolved_disagreement = refl

pub or_empty : (s : String) → (if truthy s then s else "") ≡ s
or_empty String.[] = refl
or_empty (String.◌∷◌ c s) = refl

-- A collection whose elements are read back is read back.
pub collect-map :
    {A B : Type 0} (form : A → Json) (read : Json → Result IntentError B) (out : A → B)
    (xs : List A)
    → All (λ x. read (form x) ≡ ok (out x)) xs
    → collect read (list_of (items (map form xs))) ≡ ok (map out xs)
unfolding collect
collect-map form read out [] a = refl
collect-map form read out (x ∷ xs) a = rw (a.0, collect-map form read out xs a.1) refl

is_empty-map : {A B : Type 0} (f : A → B) (xs : List A) → is_empty (map f xs) ≡ is_empty xs
is_empty-map f [] = refl
is_empty-map f (x ∷ xs) = refl

pub map_self : {A : Type 0} (xs : List A) → map (λ x. x) xs ≡ xs
map_self [] = refl
map_self (x ∷ xs) = ap (λ l. x ∷ l) (map_self xs)

-- A text map is read back in the order of its keys.
read-texts_form :
    (show : Json → String) (d : Dict String)
    → IsKeyed d
    → put_all (text_pairs show (pairs (fields (mapped str (sort (λ e. e.0) d))))) []
      ≡ sort (λ e. e.0) d
read-texts_form show d w =
    ap (λ x. put_all x []) (text_pairs-mapped (sort (λ e. e.0) d))
    ∙ put_all_self (sort (λ e. e.0) d) (sort-IsKeyed d w)
  where
    text_pairs-mapped : (e : Dict String) → text_pairs show (pairs (fields (mapped str e))) ≡ e
    text_pairs-mapped [] = refl
    text_pairs-mapped (x ∷ e) = ap (λ l. x ∷ l) (text_pairs-mapped e)

-- The confidence is spelled as `decimal_string` spells it.
abbrev pub IsNormal : DecimalText → DecisionEvidence → Type 0
IsNormal dec e = decimal_text dec e.confidence ≡ ok e.confidence

module _ (show : Json → String) (dec : DecimalText) where
  read-evidence_json :
      (e : DecisionEvidence) → IsNormal dec e → read_one_evidence show dec (evidence_json e) ≡ ok e
  unfolding read_one_evidence evidence_json make_evidence
  read-evidence_json e h = rw (read-reader_kind_value e.kind, or_empty e.source_ref, h) refl

  read-evidence :
      (es : List DecisionEvidence)
      → All (IsNormal dec) es
      → collect (read_one_evidence show dec) (list_of (items (map evidence_json es))) ≡ ok es
  read-evidence es a =
      collect-map evidence_json (read_one_evidence show dec) (λ e. e) es (each es a)
      ∙ ap (λ x. ok x) (map_self es)
    where
      each :
          (xs : List DecisionEvidence)
          → All (IsNormal dec) xs
          → All (λ e. read_one_evidence show dec (evidence_json e) ≡ ok e) xs
      each [] b = tt
      each (x ∷ xs) b = (read-evidence_json x b.0, each xs b.1)

  -- What the constructor of a field has checked.
  pub record IsField (f : IntentField) : Type 0 where
    pub confidence : decimal_text dec f.confidence ≡ ok f.confidence
    pub evidence : All (IsNormal dec) f.evidence
    pub reviewable : (f.contested && is_empty f.evidence) ≡ false

  pub read-field_json : (f : IntentField) → IsField f → read_field show dec (field_json f) ≡ ok f
  unfolding read_field field_json make_field read_evidence
  read-field_json f w =
      rw
        (
          read-author_value f.author,
          read-evidence f.evidence w.evidence,
          or_empty f.produced_by,
          or_empty f.source_span,
          w.confidence,
          w.reviewable,
        )
        refl

  pub read-unresolved_json :
      (u : Unresolved)
      → All (IsNormal dec) u.evidence
      → read_unresolved show dec (unresolved_json u) ≡ ok u
  unfolding read_unresolved unresolved_json read_evidence
  read-unresolved_json u a =
      rw (read-reason_value u.reason, read-evidence u.evidence a, or_empty u.detail) refl

  pub read-amendment_json : (a : Amendment) → read_amendment show dec (amendment_json a) ≡ ok a
  unfolding read_amendment amendment_json
  read-amendment_json a = rw (read-author_value a.author) refl

  -- The member with its qualifiers in order.
  unfoldable pub stored_member : RelationMember → RelationMember
  unfolding sorted_dict
  stored_member m = record m { qualifiers = sorted_dict m.qualifiers }

  pub record IsMember (m : RelationMember) : Type 0 where
    pub qualifiers : IsKeyed m.qualifiers
    pub evidence : All (IsNormal dec) m.evidence

  read-member_json :
      (m : RelationMember)
      → IsMember m
      → read_member show dec (member_json m) ≡ ok (stored_member m)
  unfolding read_member member_json read_evidence stored_member
  read-member_json m w =
      rw (read-texts_form show m.qualifiers w.qualifiers, read-evidence m.evidence w.evidence) refl

  unfoldable pub stored_relation : IntentRelation → IntentRelation
  unfolding sorted_dict stored_member
  stored_relation r = record r {
    members = map stored_member r.members;
    attributes = sorted_dict r.attributes;
  }

  -- What the constructor of a relation has checked, for maps with distinct keys.
  pub record IsRelation (r : IntentRelation) : Type 0 where
    pub members : All IsMember r.members
    pub nonempty : is_empty r.members ≡ false
    pub attributes : IsKeyed r.attributes

  pub read-relation_json :
      (r : IntentRelation)
      → IsRelation r
      → read_relation show dec (relation_json r) ≡ ok (stored_relation r)
  unfolding read_relation relation_json make_relation stored_relation
  read-relation_json r w =
      rw
        (
          collect-map member_json (read_member show dec) stored_member r.members
              (each r.members w.members),
          read-texts_form show r.attributes w.attributes,
          read-author_value r.author,
          or_empty r.produced_by,
          or_empty r.source_span,
          is_empty-map stored_member r.members,
          w.nonempty,
        )
        refl
    where
      each :
          (ms : List RelationMember)
          → All IsMember ms
          → All (λ m. read_member show dec (member_json m) ≡ ok (stored_member m)) ms
      each [] b = tt
      each (m ∷ ms) b = (read-member_json m b.0, each ms b.1)
