-- ===== src/Store.antt =====
-- store/envelope.py and store/file.py: the append-only evidence log and its queries.
pub mod Index
pub mod Time
pub mod Resolve
pub mod File
use Prim.Native.Char.{code}
use runtime_contracts.Prelude.{
  ℕ, String, Bool, true, false, not, ◌&&◌, ◌||◌, List, [], ◌∷◌, ◌++◌, any, length, Option, none,
  some, truthy, is_none, ◌==◌, nat_eq, string_eq, str_le, if◌then◌else◌, Result, ok, raise, ◌>>=◌,
}
use runtime_contracts.Canonical.Json.{Json, Dict}
use runtime_contracts.Canonical.Dict.{get}
use runtime_contracts.Canonical.Decimal.{CanonicalizationError}
use runtime_contracts.Canonical.Value.{Platform, Value, Entries, Key, content_hash, canonicalize}
use runtime_contracts.Visibility.{same_text}

-- The payload is the mapping of its entries.
pub record EvidenceEnvelope : Type 0 where
  pub event_id : String
  pub event_type : String
  pub family : String
  pub tenant_id : String
  pub artifact_id : String
  pub mission_id : String
  pub trace_id : String
  pub parent_event_id : String
  pub causation_id : String
  pub correlation_id : String
  pub contract_version : String
  pub event_time : String
  pub known_at : String
  pub content_hash : String
  pub payload_ref : String
  pub payload : Entries

-- `not self.payload`
abbrev pub no_entries : Entries → Bool
no_entries Entries.end = true
no_entries (Entries.entry k v es) = false

-- `a or b` on texts
abbrev pub or_text : String → String → String
or_text a b = if truthy a then a else b

module _ (env : Platform) where
  -- `content_hash(self.payload) if self.payload else ""`
  abbrev pub payload_hash : Entries → Result CanonicalizationError String
  payload_hash es = if no_entries es then ok "" else content_hash env (Value.mapping es)

  -- `EvidenceEnvelope.__post_init__`
  unfoldable pub fill : EvidenceEnvelope → Result CanonicalizationError EvidenceEnvelope
  fill e = do
    ch ← (if truthy e.content_hash then ok e.content_hash else payload_hash e.payload)
    ok (record e {
      content_hash = ch;
      payload_ref = or_text e.payload_ref ch;
      event_id = or_text e.event_id ch;
    })

  unfoldable pub verify_payload : EvidenceEnvelope → Result CanonicalizationError Bool
  verify_payload e =
      if no_entries e.payload
      then ok true
      else (do h ← content_hash env (Value.mapping e.payload); ok (e.content_hash == h))

-- The columns of `row`: everything but the payload.
unfoldable pub row : EvidenceEnvelope → Dict String
row e =
    ("event_id", e.event_id)
    ∷ ("event_type", e.event_type)
    ∷ ("family", e.family)
    ∷ ("tenant_id", e.tenant_id)
    ∷ ("artifact_id", e.artifact_id)
    ∷ ("mission_id", e.mission_id)
    ∷ ("trace_id", e.trace_id)
    ∷ ("parent_event_id", e.parent_event_id)
    ∷ ("causation_id", e.causation_id)
    ∷ ("correlation_id", e.correlation_id)
    ∷ ("contract_version", e.contract_version)
    ∷ ("event_time", e.event_time)
    ∷ ("known_at", e.known_at)
    ∷ ("content_hash", e.content_hash)
    ∷ ("payload_ref", e.payload_ref)
    ∷ []

-- The fields of `_ListEvidenceStore`.
pub record EvidenceLog : Type 0 where
  pub events : List EvidenceEnvelope
  pub by_event_id : Dict EvidenceEnvelope
  pub by_hash : Dict EvidenceEnvelope

abbrev pub empty_log : EvidenceLog
empty_log = record { events = []; by_event_id = []; by_hash = [] }

-- `d.setdefault(k, v)`
unfoldable pub set_default :
    String → EvidenceEnvelope → Dict EvidenceEnvelope → Dict EvidenceEnvelope
set_default k v [] = (k, v) ∷ []
set_default k v (e ∷ d) = if k == e.0 then e ∷ d else e ∷ set_default k v d

-- `_index`
unfoldable pub index : EvidenceEnvelope → EvidenceLog → EvidenceLog
unfolding set_default
index e s = record {
  events = s.events ++ e ∷ [];
  by_event_id = set_default e.event_id e s.by_event_id;
  by_hash = if truthy e.content_hash then set_default e.content_hash e s.by_hash else s.by_hash;
}

-- `envelope if envelope.known_at else envelope.with_known_at(self._clock())`
abbrev pub stamp : String → EvidenceEnvelope → EvidenceEnvelope
stamp now e = if truthy e.known_at then e else record e { known_at = now }

-- `append` of the in-memory store, where `now` is what the clock says.
unfoldable pub append : String → EvidenceEnvelope → EvidenceLog → EvidenceLog × String
unfolding index
append now e s = (index (stamp now e) s, (stamp now e).event_id)

-- `FileEvidenceStore` has the lines of its file as well.
pub record FileLog : Type 0 where
  pub log : EvidenceLog
  pub lines : List Json

-- `to_json`: the envelope as a dict of its fields.
unfoldable pub envelope_value : EvidenceEnvelope → Value
envelope_value e = Value.mapping (
    text "event_id" e.event_id (
      text "event_type" e.event_type (
        text "family" e.family (
          text "tenant_id" e.tenant_id (
            text "artifact_id" e.artifact_id (
              text "mission_id" e.mission_id (
                text "trace_id" e.trace_id (
                  text "parent_event_id" e.parent_event_id (
                    text "causation_id" e.causation_id (
                      text "correlation_id" e.correlation_id (
                        text "contract_version" e.contract_version (
                          text "event_time" e.event_time (
                            text "known_at" e.known_at (
                              text "content_hash" e.content_hash (
                                text "payload_ref" e.payload_ref (
                                  Entries.entry (Key.text "payload") (Value.mapping e.payload)
                                    Entries.end))))))))))))))))
  where
    text : String → String → Entries → Entries
    text k v es = Entries.entry (Key.text k) (Value.str v) es

-- `append` of the file store: the row is indexed first, and then its canonical form is written as
-- a line. A row without a canonical form raises, with the index changed.
unfoldable pub file_append :
    Platform → String → EvidenceEnvelope → FileLog → FileLog × Result CanonicalizationError String
unfolding index canonicalize envelope_value
file_append env now e f = elim (canonicalize env (envelope_value (stamp now e))) [
  | ok j ↦ (
    record { log = index (stamp now e) f.log; lines = f.lines ++ j ∷ [] },
    ok (stamp now e).event_id,
  )
  | raise x ↦ (record { log = index (stamp now e) f.log; lines = f.lines }, raise x)
]

-- `ref.rsplit("#", 1)[-1]`, where there is a `#` in the text.
unfoldable pub after_hash : String → Option String
after_hash String.[] = none
after_hash (String.◌∷◌ c s) = elim (after_hash s) [
  | some t ↦ some t
  | none ↦ if code c == b'#' then some s else none
]

unfoldable pub resolve : EvidenceLog → String → Option EvidenceEnvelope
unfolding get after_hash
resolve s ref = elim (get ref s.by_event_id) [
  | some e ↦ some e
  | none ↦ elim (get ref s.by_hash) [
    | some e ↦ some e
    | none ↦ elim (after_hash ref) [ some t ↦ get t s.by_hash | none ↦ none ]
  ]
]

unfoldable pub select : (EvidenceEnvelope → Bool) → List EvidenceEnvelope → List EvidenceEnvelope
select p [] = []
select p (e ∷ es) = if p e then e ∷ select p es else select p es

-- `not as_of or (e.known_at and e.known_at <= as_of)`
abbrev pub known_by : String → EvidenceEnvelope → Bool
known_by as_of e = not (truthy as_of) || (truthy e.known_at && str_le e.known_at as_of)

-- `not since or (e.known_at and e.known_at > since)`
abbrev pub known_after : String → EvidenceEnvelope → Bool
known_after since e = not (truthy since) || (truthy e.known_at && not (str_le e.known_at since))

unfoldable pub snapshot : String → EvidenceLog → List EvidenceEnvelope
unfolding select
snapshot as_of s = select (known_by as_of) s.events

unfoldable pub changes : String → EvidenceLog → List EvidenceEnvelope
unfolding select
changes since s = select (known_after since) s.events

-- `_in_range`
unfoldable pub in_range : String → Option (String × String) → Bool
in_range value none = true
in_range value (some (lo, hi)) =
    not (truthy lo && not (str_le lo value)) && not (truthy hi && not (str_le value hi))

-- `any(row.get(k) != v for k, v in pred.items())`
abbrev pub mismatched : Dict String → EvidenceEnvelope → Bool
mismatched pred e = any (λ c. not (same_text (get c.0 (row e)) (some c.1))) pred

unfoldable pub scan : Dict String → Option (String × String) → EvidenceLog → List EvidenceEnvelope
unfolding select row in_range get
scan pred range s = select (λ e. not (mismatched pred e) && in_range e.event_time range) s.events

unfoldable pub verify : Platform → EvidenceLog → String → Result CanonicalizationError Bool
unfolding resolve verify_payload
verify env s ref = elim (resolve s ref) [ none ↦ ok false | some e ↦ verify_payload env e ]
