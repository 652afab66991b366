-- ===== src/Intent/Restore.antt =====
-- `intent_from_json`: a stored intent is read back and its seal and its hash are checked again.
use runtime_contracts.Prelude.{
  int_eq, String, Bool, true, false, not, ◌&&◌, List, [], ◌∷◌, pos, truthy, ◌==◌, string_eq,
  if◌then◌else◌, Result, ok, raise, raise_if, ◌>>=◌, ◌>>◌,
}
use runtime_contracts.Canonical.Json.{Json, Items, Fields, Dict, null, bool, str}
use runtime_contracts.Canonical.Dict.{put}
use runtime_contracts.Canonical.Value.{Platform}
use runtime_contracts.Intent.{
  Author, ReaderKind, OpenReason, IntentState, IntentError, DecimalText, DecisionEvidence,
  IntentField, Unresolved, RelationMember, IntentRelation, Amendment, VerifiedIntent, make_evidence,
  make_field, make_relation, make_intent, seal,
}
use runtime_contracts.Intent.Form.{intent_hash}

-- `bool(v)`
abbrev pub truth : Json → Bool
truth Json.null = false
truth (Json.bool b) = b
truth (Json.int n) = not (n == pos 0)
truth (Json.str s) = truthy s
truth (Json.arr Items.nil) = false
truth (Json.arr (Items.cons v vs)) = true
truth (Json.obj Fields.end) = false
truth (Json.obj (Fields.field k v fs)) = true

-- The entries of a mapping; anything else has no `get`.
abbrev pub entries_of : Json → Result IntentError Fields
entries_of (Json.obj fs) = ok fs
entries_of _ = raise IntentError.bad_shape

abbrev pub list_of : Items → List Json
list_of Items.nil = []
list_of (Items.cons v vs) = v ∷ list_of vs

-- `v or ()`, iterated over, where the elements must be mappings: the characters of a text and the
-- keys of a mapping are not.
abbrev pub elements : Json → Result IntentError (List Json)
elements (Json.arr vs) = ok (list_of vs)
elements v = if truth v then raise IntentError.bad_shape else ok []

abbrev pub pairs : Fields → Dict Json
pairs Fields.end = []
pairs (Fields.field k v fs) = (k, v) ∷ pairs fs

-- `(v or {}).items()`
abbrev pub mapping_items : Json → Result IntentError (Dict Json)
mapping_items (Json.obj fs) = ok (pairs fs)
mapping_items v = if truth v then raise IntentError.bad_shape else ok []

-- `d.get(k, default)`
abbrev pub get_or : Fields → String → Json → Json
get_or Fields.end k default = default
get_or (Fields.field j v fs) k default = if k == j then v else get_or fs k default

-- `d[k] = v` for the pairs in order
unfoldable pub put_all : {V : Type 0} → Dict V → Dict V → Dict V
unfolding put
put_all [] out = out
put_all (e ∷ d) out = put_all d (put e.0 e.1 out)

-- `tuple(f(x) for x in xs)`, where a call may raise
unfoldable pub collect :
    {A B : Type 0} → (A → Result IntentError B) → List A → Result IntentError (List B)
collect f [] = ok []
collect f (x ∷ xs) = do y ← f x; ys ← collect f xs; ok (y ∷ ys)

-- `Author(v)`, and so on for the other enumerations.
unfoldable pub read_author : Json → Result IntentError Author
read_author (Json.str s) =
    if s == "DEFAULT"
    then ok Author.default_value
    else if s == "MODEL"
    then ok Author.model
    else if s == "READER"
    then ok Author.reader
    else if s == "POLICY"
    then ok Author.policy
    else if s == "USER"
    then ok Author.user
    else raise IntentError.unknown_name
read_author _ = raise IntentError.unknown_name

unfoldable pub read_kind : Json → Result IntentError ReaderKind
read_kind (Json.str s) =
    if s == "RULE"
    then ok ReaderKind.rule
    else if s == "MODEL"
    then ok ReaderKind.model
    else if s == "POLICY"
    then ok ReaderKind.policy
    else if s == "RETRIEVAL"
    then ok ReaderKind.retrieval
    else if s == "PRIOR"
    then ok ReaderKind.prior
    else if s == "HUMAN"
    then ok ReaderKind.human
    else raise IntentError.unknown_name
read_kind _ = raise IntentError.unknown_name

unfoldable pub read_reason : Json → Result IntentError OpenReason
read_reason (Json.str s) =
    if s == "NOT_ASKED"
    then ok OpenReason.not_asked
    else if s == "USER_DECLINED"
    then ok OpenReason.user_declined
    else if s == "UNRESOLVED_DISAGREEMENT"
    then ok OpenReason.unresolved_disagreement
    else raise IntentError.unknown_name
read_reason _ = raise IntentError.unknown_name

-- The state that a restored record is given: a text that is no sealed state leaves a draft.
unfoldable pub read_state : String → IntentState
read_state s =
    if s == "VERIFIED"
    then IntentState.verified
    else if s == "STALE"
    then IntentState.stale
    else if s == "INVALIDATED"
    then IntentState.invalidated
    else IntentState.draft

-- A `ValueError` of the constructor becomes a `CorruptIntent`.
abbrev pub wrap_corrupt : Result IntentError VerifiedIntent → Result IntentError VerifiedIntent
wrap_corrupt (ok i) = ok i
wrap_corrupt (raise e) = raise IntentError.does_not_hold_together

-- The seal again, for a record that says it is sealed.
unfoldable pub resealed : IntentState → VerifiedIntent → Result IntentError VerifiedIntent
unfolding seal
resealed IntentState.draft i = ok i
resealed s i = elim (seal i) [
  | ok j ↦ ok (record j { state = s })
  | raise e ↦ raise IntentError.fails_the_seal
]

-- `recorded and recorded != restored.intent_hash`
abbrev pub differs : Json → String → Bool
differs (Json.str s) h = truthy s && not (s == h)
differs v h = truth v

-- `show` is `str` on what is not a text.
module _ (show : Json → String) where
  abbrev pub to_text : Json → String
  to_text (Json.str s) = s
  to_text v = show v

  -- `str(d.get(k, default))`
  abbrev pub text_at : Fields → String → String → String
  text_at d k default = to_text (get_or d k (str default))

  -- `str(d.get(k, "") or "")`
  abbrev pub text_or_empty : Fields → String → String
  text_or_empty d k = let v = get_or d k (str "") in if truth v then to_text v else ""

  abbrev pub text_pairs : Dict Json → Dict String
  text_pairs [] = []
  text_pairs (e ∷ d) = (e.0, to_text e.1) ∷ text_pairs d

  -- `{str(k): str(v) for k, v in (m or {}).items()}`
  unfoldable pub read_texts : Json → Result IntentError (Dict String)
  unfolding put_all
  read_texts v = do d ← mapping_items v; ok (put_all (text_pairs d) [])

  module _ (dec : DecimalText) where
    unfoldable pub read_one_evidence : Json → Result IntentError DecisionEvidence
    unfolding make_evidence read_kind
    read_one_evidence v = do
      e ← entries_of v
      kind ← read_kind (get_or e "kind" (str "PRIOR"))
      make_evidence dec (record {
        reader_id = text_at e "reader_id" "";
        kind = kind;
        value = get_or e "value" null;
        confidence = text_at e "confidence" "1";
        source_ref = text_or_empty e "source_ref";
      })

    -- `evidence(items)`
    unfoldable pub read_evidence : Json → Result IntentError (List DecisionEvidence)
    unfolding collect read_one_evidence
    read_evidence v = do vs ← elements v; collect read_one_evidence vs

    unfoldable pub read_field : Json → Result IntentError IntentField
    unfolding make_field read_author read_evidence
    read_field v = do
      f ← entries_of v
      author ← read_author (get_or f "author" (str "DEFAULT"))
      evidence ← read_evidence (get_or f "evidence" null)
      make_field dec (record {
        value = get_or f "value" null;
        author = author;
        produced_by = text_or_empty f "produced_by";
        confidence = text_at f "confidence" "1";
        source_span = text_or_empty f "source_span";
        evidence = evidence;
        contested = truth (get_or f "contested" (bool false));
      })

    unfoldable pub read_named : String × Json → Result IntentError (String × IntentField)
    unfolding read_field
    read_named e = do f ← read_field e.1; ok (e.0, f)

    unfoldable pub read_fields : Json → Result IntentError (Dict IntentField)
    unfolding put_all collect read_named
    read_fields v = do d ← mapping_items v; fs ← collect read_named d; ok (put_all fs [])

    unfoldable pub read_member : Json → Result IntentError RelationMember
    unfolding read_texts read_evidence
    read_member v = do
      m ← entries_of v
      qualifiers ← read_texts (get_or m "qualifiers" null)
      evidence ← read_evidence (get_or m "evidence" null)
      ok (record {
        role = text_at m "role" "";
        subject = text_at m "subject" "";
        qualifiers = qualifiers;
        evidence = evidence;
      })

    unfoldable pub read_relation : Json → Result IntentError IntentRelation
    unfolding collect read_member read_texts read_author make_relation
    read_relation v = do
      r ← entries_of v
      ms ← elements (get_or r "members" null)
      members ← collect read_member ms
      attributes ← read_texts (get_or r "attributes" null)
      author ← read_author (get_or r "author" (str "MODEL"))
      make_relation (record {
        kind = text_at r "kind" "";
        members = members;
        attributes = attributes;
        author = author;
        produced_by = text_or_empty r "produced_by";
        source_span = text_or_empty r "source_span";
      })

    unfoldable pub read_unresolved : Json → Result IntentError Unresolved
    unfolding read_reason read_evidence
    read_unresolved v = do
      u ← entries_of v
      reason ← read_reason (get_or u "reason" (str "NOT_ASKED"))
      evidence ← read_evidence (get_or u "evidence" null)
      ok (record {
        dimension = text_at u "dimension" "";
        reason = reason;
        detail = text_or_empty u "detail";
        evidence = evidence;
        result_changing = truth (get_or u "result_changing" (bool true));
      })

    unfoldable pub read_amendment : Json → Result IntentError Amendment
    unfolding read_author
    read_amendment v = do
      a ← entries_of v
      author ← read_author (get_or a "author" (str "USER"))
      ok (record {
        dimension = text_at a "dimension" "";
        from_value = get_or a "from_value" null;
        to_value = get_or a "to_value" null;
        author = author;
        at = get_or a "at" null;
      })

    -- The arguments of `VerifiedIntent` that come from the record itself, beside its parts.
    abbrev pub assembled :
        Fields
        → Dict IntentField
        → List IntentRelation
        → List Unresolved
        → List Amendment
        → VerifiedIntent
    assembled p fs relations unresolved amendments = record {
      objective = text_at p "objective" "";
      fields = fs;
      relations = relations;
      unresolved = unresolved;
      amendments = amendments;
      state = IntentState.draft;
      produced_by = text_or_empty p "produced_by";
      utterance_ref = text_or_empty p "utterance_ref";
      created_at = get_or p "created_at" null;
      capability_version = text_or_empty p "capability_version";
      policy_version = text_or_empty p "policy_version";
    }

    -- The record as a draft, before its state and its hash are looked at.
    unfoldable pub read_draft : Fields → Result IntentError VerifiedIntent
    unfolding read_fields collect read_relation read_unresolved read_amendment make_intent
    read_draft p = do
      fs ← read_fields (get_or p "fields" null)
      rs ← elements (get_or p "relations" null)
      relations ← collect read_relation rs
      us ← elements (get_or p "unresolved" null)
      unresolved ← collect read_unresolved us
      changes ← elements (get_or p "amendments" null)
      amendments ← collect read_amendment changes
      wrap_corrupt (make_intent (assembled p fs relations unresolved amendments))

    unfoldable pub intent_from_json : Platform → Json → Result IntentError VerifiedIntent
    unfolding read_draft resealed read_state intent_hash
    intent_from_json env payload = do
      p ← entries_of payload
      i ← read_draft p
      j ← resealed (read_state (text_at p "state" "DRAFT")) i
      raise_if (differs (get_or p "intent_hash" null) (intent_hash env j)) IntentError.hash_mismatch
      ok j
