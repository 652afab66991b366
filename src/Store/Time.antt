-- ===== src/Store/Time.antt =====
-- Snapshots and the change feed of store/file.py over time.
use runtime_contracts.Prelude.{
  String, Bool, true, false, List, [], ◌∷◌, ◌++◌, truthy, str_le, ◌≡◌, arith, All, In, here, there,
  Bool-cases, inl, inr, subst, refl, str_le_trans,
}
use mathlib.Core.List.{Perm, perm_middle}
use mathlib.Core.List.Perm
use runtime_contracts.Store.{
  EvidenceEnvelope, EvidenceLog, append, stamp, select, snapshot, changes, known_by, known_after,
}

select-append :
    (p : EvidenceEnvelope → Bool) (es : List EvidenceEnvelope) (e : EvidenceEnvelope)
    → p e ≡ false
    → select p (es ++ e ∷ []) ≡ select p es
unfolding select
select-append p [] e h = ground arith
select-append p (x ∷ es) e h = ground (arith, select-append p es e h)

-- If an appended event is known only after an instant, it does not change the snapshot of that
-- instant.
pub snapshot-append :
    (as_of now : String) (e : EvidenceEnvelope) (s : EvidenceLog)
    → truthy as_of ≡ true
    → str_le (stamp now e).known_at as_of ≡ false
    → snapshot as_of (append now e s).0 ≡ snapshot as_of s
unfolding snapshot append
snapshot-append as_of now e s h late =
    select-append (known_by as_of) s.events (stamp now e) (ground arith)

-- Every event has a time of knowledge.
abbrev pub AreStamped : List EvidenceEnvelope → Type 0
AreStamped = All (λ e. truthy e.known_at ≡ true)

select-split :
    (t : String) (es : List EvidenceEnvelope)
    → truthy t ≡ true
    → AreStamped es
    → Perm (select (known_by t) es ++ select (known_after t) es) es
unfolding select
select-split t [] h a = Perm.rfl
select-split t (e ∷ es) h a = elim (Bool-cases (str_le e.known_at t)) [
  | inl before ↦
      let now : known_by t e ≡ true = ground (arith, a.0) in
      let later : known_after t e ≡ false = ground (arith, a.0) in
      rw (now, later) (Perm.cons e (select-split t es h a.1))
  | inr after ↦
      let now : known_by t e ≡ false = ground (arith, a.0) in
      let later : known_after t e ≡ true = ground (arith, a.0) in
      rw (now, later)
        (Perm.trans (perm_middle (select (known_by t) es) (select (known_after t) es))
          (Perm.cons e (select-split t es h a.1)))
]

-- If every event of the log has a time of knowledge, then at any instant the snapshot and the
-- changes since are together, in some order, the events of the log.
pub snapshot-changes :
    (t : String) (s : EvidenceLog)
    → truthy t ≡ true
    → AreStamped s.events
    → Perm (snapshot t s ++ changes t s) s.events
unfolding snapshot changes
snapshot-changes t s h a = select-split t s.events h a

truthy_le : (t u : String) → truthy t ≡ true → str_le t u ≡ true → truthy u ≡ true
truthy_le String.[] u h le = cc
truthy_le (String.◌∷◌ c t) String.[] h le = cc
truthy_le (String.◌∷◌ c t) (String.◌∷◌ d u) h le = ground arith

In-cons :
    (p : EvidenceEnvelope → Bool) (e : EvidenceEnvelope) (ks es : List EvidenceEnvelope)
    {x : EvidenceEnvelope}
    → p e ≡ true
    → (In x ks → In x es × (p x ≡ true))
    → In x (e ∷ ks)
    → In x (e ∷ es) × (p x ≡ true)
In-cons p e ks es h f here = (here, h)
In-cons p e ks es h f (there m) = (there (f m).0, (f m).1)

In-select :
    (p : EvidenceEnvelope → Bool) (es : List EvidenceEnvelope) {x : EvidenceEnvelope}
    → In x (select p es)
    → In x es × (p x ≡ true)
unfolding select
In-select p [] m = elim m [ ]
In-select p (e ∷ es) {x} m = elim (Bool-cases (p e)) [
  | inl kept ↦
      In-cons p e (select p es) es kept (λ k. In-select p es k) (subst (In x) (rw kept refl) m)
  | inr dropped ↦
      let (k, q) = In-select p es {x = x} (subst (In x) (rw dropped refl) m) in (there k, q)
]

select-In :
    (p : EvidenceEnvelope → Bool) (es : List EvidenceEnvelope) {x : EvidenceEnvelope}
    → In x es
    → p x ≡ true
    → In x (select p es)
unfolding select
select-In p [] m h = elim m [ ]
select-In p (e ∷ es) here h = rw h here
select-In p (e ∷ es) {x} (there m) h = elim (Bool-cases (p e)) [
  | inl kept ↦ rw kept (there (select-In p es m h))
  | inr dropped ↦ rw dropped (select-In p es m h)
]

-- A later snapshot has every event of an earlier one.
pub snapshot_mono :
    (t u : String) (s : EvidenceLog) {e : EvidenceEnvelope}
    → truthy t ≡ true
    → str_le t u ≡ true
    → In e (snapshot t s)
    → In e (snapshot u s)
unfolding snapshot
snapshot_mono t u s {e} h le m =
    let (k, q) = In-select (known_by t) s.events m in
    select-In (known_by u) s.events k (ground (arith, str_le_trans e.known_at t u, truthy_le t u))
