-- ===== src/Store/File.antt =====
-- The file of the durable store of store/file.py against its list of events.
use runtime_contracts.Prelude.{
  suc, String, List, [], ◌∷◌, ◌++◌, length, ◌≡◌, ◌↔◌, refl, arith, ok, Result-cases, inl, inr,
}
use runtime_contracts.Canonical.Value.{Platform, canonicalize}
use runtime_contracts.Store.{EvidenceEnvelope, FileLog, stamp, index, envelope_value, file_append}

-- The file has a line for each event of the log.
abbrev pub InStep : FileLog → Type 0
InStep f = length f.lines ≡ length f.log.events

length-append_one {ℓ} : {A : Type ℓ} (xs : List A) (x : A) → length (xs ++ x ∷ []) ≡ suc (length xs)
length-append_one [] x = refl
length-append_one (y ∷ xs) x = ground (arith, length-append_one xs x)

-- If the file has a line for each event, it has one for each event after an `append` exactly if
-- the `append` returned an id: one that raises has indexed an event that the file does not have.
pub file_append-InStep :
    (env : Platform) (now : String) (e : EvidenceEnvelope) (f : FileLog)
    → InStep f
    → InStep (file_append env now e f).0 ↔ ((i : String) × ((file_append env now e f).1 ≡ ok i))
unfolding file_append index
file_append-InStep env now e f h =
    let x = stamp now e in
    elim (Result-cases (canonicalize env (envelope_value x))) [
      | inl (j, q) ↦ (
        (λ _. (x.event_id, ground arith)),
        λ _. ground (arith, length-append_one f.lines j, length-append_one f.log.events x),
      )
      | inr (r, q) ↦ (
        (λ k. absurd (ground (arith, length-append_one f.log.events x))),
        λ (i, k). absurd (ground arith),
      )
    ]
