-- ===== src/Examples/Stores.antt =====
-- The evidence log.
use runtime_contracts.Prelude.{String, [], ◌∷◌, ◌++◌, none, some, ◌≡◌, ◌↔◌, refl, ok, In, here}
use mathlib.Core.List.{Perm}
use runtime_contracts.Canonical.Dict.{get}
use runtime_contracts.Store.{
  EvidenceEnvelope, EvidenceLog, FileLog, empty_log, stamp, append, resolve, snapshot, changes,
  file_append,
}
use runtime_contracts.Store.Index.{IsIndexed, empty_log-IsIndexed, append-IsIndexed}
use runtime_contracts.Store.Time.{snapshot-changes}
use runtime_contracts.Store.Resolve.{resolve-append}
use runtime_contracts.Store.File.{InStep, file_append-InStep}
use runtime_contracts.Examples.{ascii_platform, envelope}

abbrev now : String
now = "2026-03-01"

abbrev early : EvidenceEnvelope
early = envelope "e-1" "2026-01-01"

abbrev late : EvidenceEnvelope
late = envelope "e-2" "2026-02-01"

abbrev unstamped : EvidenceEnvelope
unstamped = record early { event_id = "e-3"; known_at = "" }

abbrev log_of_two : EvidenceLog
log_of_two = record {
  events = early ∷ late ∷ [];
  by_event_id = ("e-1", early) ∷ ("e-2", late) ∷ [];
  by_hash = ("e-1", early) ∷ ("e-2", late) ∷ [];
}

append-IsIndexed_example : IsIndexed (append now early empty_log).0
append-IsIndexed_example = append-IsIndexed now early empty_log empty_log-IsIndexed

snapshot-changes_example :
    Perm (snapshot "2026-01-15" log_of_two ++ changes "2026-01-15" log_of_two) (early ∷ late ∷ [])
snapshot-changes_example = snapshot-changes "2026-01-15" log_of_two refl (refl, (refl, tt))

early_known : In early (snapshot "2026-01-15" log_of_two)
unfolding snapshot
early_known = here

resolve-append_example :
    resolve (append now unstamped log_of_two).0 "e-3" ≡ (elim (get "e-3" log_of_two.by_event_id) [
      | some x ↦ some x
      | none ↦ some (stamp now unstamped)
    ])
unfolding append
resolve-append_example = resolve-append now unstamped log_of_two

late_indexed : get "e-2" log_of_two.by_event_id ≡ some late
unfolding get
late_indexed = refl

abbrev fresh_file : FileLog
fresh_file = record { log = empty_log; lines = [] }

file_append-InStep_example :
    InStep (file_append ascii_platform now early fresh_file).0
    ↔ ((i : String) × ((file_append ascii_platform now early fresh_file).1 ≡ ok i))
file_append-InStep_example = file_append-InStep ascii_platform now early fresh_file refl
