-- ===== src/Store/Resolve.antt =====
-- `resolve` of store/file.py after an `append`.
use runtime_contracts.Prelude.{String, none, some, ◌≡◌, arith, string_eq, eq_iff}
use runtime_contracts.Canonical.Dict.{get}
use runtime_contracts.Store.{EvidenceEnvelope, EvidenceLog, stamp, append, resolve}
use runtime_contracts.Store.Index.{get-set_default}

-- The id that `append` returns resolves to the event that was appended, unless the log had an
-- event of that id before, which it then still finds.
pub resolve-append :
    (now : String) (e : EvidenceEnvelope) (s : EvidenceLog)
    → resolve (append now e s).0 (append now e s).1
      ≡ (elim (get (stamp now e).event_id s.by_event_id) [
        | some x ↦ some x
        | none ↦ some (stamp now e)
      ])
unfolding resolve append
resolve-append now e s =
    let x = stamp now e in
    ground
      (arith, get-set_default x.event_id x.event_id x s.by_event_id, eq_iff x.event_id x.event_id)

-- An event that resolves by its id resolves to the same event after any `append`.
pub resolve_stable :
    (now : String) (e : EvidenceEnvelope) (s : EvidenceLog) (i : String) {x : EvidenceEnvelope}
    → get i s.by_event_id ≡ some x
    → resolve (append now e s).0 i ≡ resolve s i
unfolding resolve append
resolve_stable now e s i h =
    let y = stamp now e in ground (arith, get-set_default i y.event_id y s.by_event_id)
