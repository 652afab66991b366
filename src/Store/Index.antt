-- ===== src/Store/Index.antt =====
-- The two indexes of the log of store/file.py against its list of events.
use runtime_contracts.Prelude.{
  String, Bool, ◌&&◌, List, [], ◌∷◌, ◌++◌, Option, none, some, truthy, ◌==◌, string_eq, ◌≡◌, refl,
  arith, eq_iff, if◌then◌else◌,
}
use runtime_contracts.Canonical.Json.{Dict}
use runtime_contracts.Canonical.Dict.{get}
use runtime_contracts.Store.{EvidenceEnvelope, EvidenceLog, empty_log, set_default, append, stamp}

-- The first event that passes a test.
pub first : (EvidenceEnvelope → Bool) → List EvidenceEnvelope → Option EvidenceEnvelope
first p [] = none
first p (e ∷ es) = if p e then some e else first p es

abbrev pub has_id : String → EvidenceEnvelope → Bool
has_id i e = i == e.event_id

abbrev pub has_hash : String → EvidenceEnvelope → Bool
has_hash h e = truthy e.content_hash && (h == e.content_hash)

-- Each index finds the first event of the log that has the id, or the hash.
pub record IsIndexed (s : EvidenceLog) : Type 0 where
  pub ids : (i : String) → get i s.by_event_id ≡ first (has_id i) s.events
  pub hashes : (h : String) → get h s.by_hash ≡ first (has_hash h) s.events

pub get-set_default :
    (j k : String) (v : EvidenceEnvelope) (d : Dict EvidenceEnvelope)
    → get j (set_default k v d)
      ≡ (elim (get j d) [ some e ↦ some e | none ↦ if j == k then some v else none ])
unfolding get set_default
get-set_default j k v [] = ground arith
get-set_default j k v (e ∷ d) =
    ground (arith, eq_iff k e.0, eq_iff j e.0, eq_iff j k, get-set_default j k v d)

first-append :
    (p : EvidenceEnvelope → Bool) (es : List EvidenceEnvelope) (e : EvidenceEnvelope)
    → first p (es ++ e ∷ [])
      ≡ (elim (first p es) [ some x ↦ some x | none ↦ if p e then some e else none ])
unfolding first
first-append p [] e = ground arith
first-append p (x ∷ es) e = ground (arith, first-append p es e)

pub empty_log-IsIndexed : IsIndexed empty_log
unfolding get first
empty_log-IsIndexed = record { ids = λ i. refl; hashes = λ h. refl }

-- If both indexes find the first event of the log with an id or a hash, they do after an `append`.
pub append-IsIndexed :
    (now : String) (e : EvidenceEnvelope) (s : EvidenceLog)
    → IsIndexed s
    → IsIndexed (append now e s).0
unfolding append
append-IsIndexed now e s v =
    let x = stamp now e in
    record {
      ids = λ i. ground (
        arith,
        v.ids i,
        get-set_default i x.event_id x s.by_event_id,
        first-append (has_id i) s.events x,
      );
      hashes = λ h. ground (
        arith,
        v.hashes h,
        get-set_default h x.content_hash x s.by_hash,
        first-append (has_hash h) s.events x,
      );
    }
