-- ===== src/Intent.antt =====
-- models/intent.py: what a user asked for, with who asserted it, and what is still open.
pub mod Form
pub mod Restore
pub mod Sealing
pub mod StoredMaps
pub mod StoredParts
pub mod RoundTrip
pub mod Restored
pub mod Proposal
use Prim.Native.Char.{code}
use runtime_contracts.Prelude.{
  String, Bool, true, false, not, ◌&&◌, ◌||◌, List, [], ◌∷◌, any, is_empty, is_none, Option, none,
  some, ◌==◌, nat_eq, string_eq, string_order, if◌then◌else◌, Result, ok, raise, raise_if, ◌>>=◌,
  ◌>>◌, map,
}
use runtime_contracts.Prelude.Sort.{sort}
use runtime_contracts.Canonical.Json.{Json, Dict}
use runtime_contracts.Canonical.Dict.{get}
use runtime_contracts.Canonical.Decimal.{Decimal, decimal_string}

pub data Author : Type 0 where
  default_value model reader policy user : Author

abbrev pub author_value : Author → String
author_value default_value = "DEFAULT"
author_value model = "MODEL"
author_value reader = "READER"
author_value policy = "POLICY"
author_value user = "USER"

-- `is_user_authored`, and `dominates`: only the user is final.
abbrev pub is_user : Author → Bool
is_user user = true
is_user _ = false

pub data ReaderKind : Type 0 where
  rule model policy retrieval prior human : ReaderKind

abbrev pub reader_kind_value : ReaderKind → String
reader_kind_value rule = "RULE"
reader_kind_value model = "MODEL"
reader_kind_value policy = "POLICY"
reader_kind_value retrieval = "RETRIEVAL"
reader_kind_value prior = "PRIOR"
reader_kind_value human = "HUMAN"

pub data OpenReason : Type 0 where
  not_asked user_declined unresolved_disagreement : OpenReason

abbrev pub reason_value : OpenReason → String
reason_value not_asked = "NOT_ASKED"
reason_value user_declined = "USER_DECLINED"
reason_value unresolved_disagreement = "UNRESOLVED_DISAGREEMENT"

abbrev pub blocks_execution : OpenReason → Bool
blocks_execution unresolved_disagreement = true
blocks_execution _ = false

abbrev pub is_not_asked : OpenReason → Bool
is_not_asked not_asked = true
is_not_asked _ = false

pub data IntentState : Type 0 where
  draft verified stale invalidated : IntentState

abbrev pub state_value : IntentState → String
state_value draft = "DRAFT"
state_value verified = "VERIFIED"
state_value stale = "STALE"
state_value invalidated = "INVALIDATED"

-- What the constructors, `seal` and `intent_from_json` raise. The first five are the `ValueError`s of
-- the constructors and the enumerations, `bad_shape` is the `AttributeError` or `TypeError` of a
-- record that is not a mapping or a collection, and the last three are `CorruptIntent`s.
pub data IntentError : Type 0 where
  bad_decimal contested_without_evidence no_members settled_and_open unknown_name : IntentError
  not_sealable : List String → IntentError
  bad_shape does_not_hold_together fails_the_seal hash_mismatch : IntentError

-- `str.strip` and `Decimal` of a text, where `none` is what they refuse.
pub record DecimalText : Type 0 where
  pub strip : String → String
  pub parse : String → Option Decimal

abbrev pub starts_with_point : String → Bool
starts_with_point String.[] = false
starts_with_point (String.◌∷◌ c s) = code c == b'.'

abbrev pub ends_with_point : String → Bool
ends_with_point String.[] = false
ends_with_point (String.◌∷◌ c String.[]) = code c == b'.'
ends_with_point (String.◌∷◌ c (String.◌∷◌ d s)) = ends_with_point (String.◌∷◌ d s)

-- `decimal_string` of canonical.py on a text.
unfoldable pub decimal_text : DecimalText → String → Result IntentError String
unfolding decimal_string
decimal_text dec s =
    if ends_with_point (dec.strip s) || starts_with_point (dec.strip s)
    then raise bad_decimal
    else elim (dec.parse (dec.strip s)) [
      | none ↦ raise bad_decimal
      | some d ↦ elim (decimal_string d) [ ok t ↦ ok t | raise e ↦ raise bad_decimal ]
    ]

-- The values are the JSON ones; a float among them is what `content_hash` refuses.
pub record DecisionEvidence : Type 0 where
  pub reader_id : String
  pub kind : ReaderKind
  pub value : Json
  pub confidence : String
  pub source_ref : String

pub record IntentField : Type 0 where
  pub value : Json
  pub author : Author
  pub produced_by : String
  pub confidence : String
  pub source_span : String
  pub evidence : List DecisionEvidence
  pub contested : Bool

pub record Unresolved : Type 0 where
  pub dimension : String
  pub reason : OpenReason
  pub detail : String
  pub evidence : List DecisionEvidence
  pub result_changing : Bool

pub record RelationMember : Type 0 where
  pub role : String
  pub subject : String
  pub qualifiers : Dict String
  pub evidence : List DecisionEvidence

pub record IntentRelation : Type 0 where
  pub kind : String
  pub members : List RelationMember
  pub attributes : Dict String
  pub author : Author
  pub produced_by : String
  pub source_span : String

-- `at` is a text or `None`, and what a stored record has there.
pub record Amendment : Type 0 where
  pub dimension : String
  pub from_value : Json
  pub to_value : Json
  pub author : Author
  pub at : Json

-- `created_at` is a text or `None`, and what a stored record has there.
pub record VerifiedIntent : Type 0 where
  pub objective : String
  pub fields : Dict IntentField
  pub relations : List IntentRelation
  pub unresolved : List Unresolved
  pub amendments : List Amendment
  pub state : IntentState
  pub produced_by : String
  pub utterance_ref : String
  pub created_at : Json
  pub capability_version : String
  pub policy_version : String

-- `DecisionEvidence.__post_init__`, on the arguments of the constructor
unfoldable pub make_evidence : DecimalText → DecisionEvidence → Result IntentError DecisionEvidence
unfolding decimal_text
make_evidence dec e = do c ← decimal_text dec e.confidence; ok (record e { confidence = c })

-- `IntentField.__post_init__`
unfoldable pub make_field : DecimalText → IntentField → Result IntentError IntentField
unfolding decimal_text
make_field dec f = do
  c ← decimal_text dec f.confidence
  raise_if (f.contested && is_empty f.evidence) contested_without_evidence
  ok (record f { confidence = c })

-- `IntentRelation.__post_init__`
unfoldable pub make_relation : IntentRelation → Result IntentError IntentRelation
make_relation r = do raise_if (is_empty r.members) no_members; ok r

-- `{u.dimension for u in self.unresolved} & set(self.fields)`
unfoldable pub overlaps : List Unresolved → Dict IntentField → Bool
unfolding get
overlaps us fs = any (λ u. not (is_none (get u.dimension fs))) us

-- `VerifiedIntent.__post_init__`
unfoldable pub make_intent : VerifiedIntent → Result IntentError VerifiedIntent
unfolding overlaps
make_intent i = do raise_if (overlaps i.unresolved i.fields) settled_and_open; ok i

unfoldable pub member_of : IntentRelation → String → Option RelationMember
member_of r role = go r.members
  where
    go : List RelationMember → Option RelationMember
    go [] = none
    go (m ∷ ms) = if m.role == role then some m else go ms

unfoldable pub members_in : IntentRelation → String → List RelationMember
members_in r role = go r.members
  where
    go : List RelationMember → List RelationMember
    go [] = []
    go (m ∷ ms) = let rest = go ms in if m.role == role then m ∷ rest else rest

unfoldable pub relation_roles : IntentRelation → List String
relation_roles r = map (λ m. m.role) r.members

module _ (i : VerifiedIntent) where
  -- `value(dimension, default)`
  unfoldable pub value_or : String → Json → Json
  unfolding get
  value_or dimension default = elim (get dimension i.fields) [ none ↦ default | some f ↦ f.value ]

  unfoldable pub author_of : String → Option Author
  unfolding get
  author_of dimension = elim (get dimension i.fields) [ none ↦ none | some f ↦ some f.author ]

  unfoldable pub relation_of : String → Option IntentRelation
  relation_of kind = go i.relations
    where
      go : List IntentRelation → Option IntentRelation
      go [] = none
      go (r ∷ rs) = if r.kind == kind then some r else go rs

  unfoldable pub relations_of : String → List IntentRelation
  relations_of kind = go i.relations
    where
      go : List IntentRelation → List IntentRelation
      go [] = []
      go (r ∷ rs) = let rest = go rs in if r.kind == kind then r ∷ rest else rest

  unfoldable pub contested_dimensions : List String
  unfolding sort
  contested_dimensions = sort (λ k. k) (go i.fields)
    where
      go : Dict IntentField → List String
      go [] = []
      go (e ∷ d) = let rest = go d in if e.1.contested then e.0 ∷ rest else rest

  unfoldable pub user_authored : List String
  unfolding sort
  user_authored = sort (λ k. k) (go i.fields)
    where
      go : Dict IntentField → List String
      go [] = []
      go (e ∷ d) = let rest = go d in if is_user e.1.author then e.0 ∷ rest else rest

-- The answers of `state_of`.
pub data DimensionState : Type 0 where
  settled open_dimension absent : DimensionState

unfoldable pub state_of : VerifiedIntent → String → DimensionState
unfolding get
state_of i dimension =
    if not (is_none (get dimension i.fields))
    then settled
    else if any (λ u. u.dimension == dimension) i.unresolved
    then open_dimension
    else absent

unfoldable pub keep_open : (Unresolved → Bool) → List Unresolved → List Unresolved
keep_open p [] = []
keep_open p (u ∷ us) = let rest = keep_open p us in if p u then u ∷ rest else rest

unfoldable pub blocking_dimensions : VerifiedIntent → List Unresolved
unfolding keep_open
blocking_dimensions i = keep_open (λ u. blocks_execution u.reason) i.unresolved

abbrev pub prevents_sealing : Unresolved → Bool
prevents_sealing u = u.result_changing || blocks_execution u.reason

unfoldable pub unsealable : VerifiedIntent → List Unresolved
unfolding keep_open
unsealable i = keep_open prevents_sealing i.unresolved

-- `seal`: the refusal names the open dimensions in order.
unfoldable pub seal : VerifiedIntent → Result IntentError VerifiedIntent
unfolding unsealable sort
seal i = elim (unsealable i) [
  | [] ↦ ok (record i { state = verified })
  | u ∷ us ↦ raise (not_sealable (sort (λ d. d) (map (λ v. v.dimension) (u ∷ us))))
]

abbrev pub is_verified : VerifiedIntent → Bool
is_verified i = elim i.state [ verified ↦ true | _ ↦ false ]

unfoldable pub is_executable_in_principle : VerifiedIntent → Bool
unfolding blocking_dimensions
is_executable_in_principle i = is_verified i && is_empty (blocking_dimensions i)
