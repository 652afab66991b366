-- ===== src/Intent/Restored.antt =====
-- What holds of every intent that `intent_from_json` returns.
use runtime_contracts.Prelude.{
  String, Bool, true, false, not, ◌&&◌, ◌≡◌, ◌≢◌, refl, sym, subst, ◌∙◌, ok, raise, ok-inj,
  >>=-eq-ok, ◌>>=◌, Result-cases, raise_if, All, ◌==◌, string_eq, eq_iff, truthy, inl, inr, arith,
}
use runtime_contracts.Canonical.Json.{Json, Fields, null, obj}
use runtime_contracts.Canonical.Value.{Platform}
use runtime_contracts.Intent.{
  DecimalText, VerifiedIntent, IntentState, IntentError, overlaps, make_intent, seal,
}
use runtime_contracts.Intent.Form.{intent_hash}
use runtime_contracts.Intent.Restore.{
  get_or, read_fields, read_relation, read_unresolved, read_amendment, collect, elements,
  read_state, read_draft, resealed, differs, wrap_corrupt, assembled, intent_from_json, text_at,
}
use runtime_contracts.Intent.Sealing.{IsClosed, seal_iff, make_intent_returns}

wrapped_returns :
    (i j : VerifiedIntent) → wrap_corrupt (make_intent i) ≡ ok j → make_intent i ≡ ok j
wrapped_returns i j h = elim (Result-cases (make_intent i)) [
  | inl (k, q) ↦ q ∙ (rw q at h)
  | inr (e, q) ↦ absurd (cc (rw q at h))
]

Coherent : VerifiedIntent → Type 0
Coherent i = (overlaps i.unresolved i.fields ≡ false) × (i.state ≡ IntentState.draft)

made-Coherent :
    (i j : VerifiedIntent)
    → i.state ≡ IntentState.draft
    → wrap_corrupt (make_intent i) ≡ ok j
    → Coherent j
unfolding Coherent
made-Coherent i j d h =
    let (apart, same) = make_intent_returns i j (wrapped_returns i j h) in
    subst Coherent same (apart, d)

-- What the second check of the seal leaves.
record IsResealed (i j : VerifiedIntent) : Type 0 where
  closed : j.state ≢ IntentState.draft → All IsClosed j.unresolved
  fields_kept : j.fields ≡ i.fields
  unresolved_kept : j.unresolved ≡ i.unresolved

sealed-IsResealed :
    (s : IntentState) (i j : VerifiedIntent)
    → (elim (seal i) [
      | ok k ↦ ok (record k { state = s })
      | raise e ↦ raise IntentError.fails_the_seal
    ])
      ≡ ok j
    → IsResealed i j
sealed-IsResealed s i j h = elim (Result-cases (seal i)) [
  | inl (k, q) ↦
      let (closed, same) = (seal_iff i k).0 q in
      subst (IsResealed i) (ok-inj (rw q at h)) (
        subst (λ x. IsResealed i (record x { state = s })) (sym same)
          (record { closed = λ _. closed; fields_kept = refl; unresolved_kept = refl }))
  | inr (e, q) ↦ absurd (cc (rw q at h))
]

resealed_returns :
    (s : IntentState) (i j : VerifiedIntent)
    → i.state ≡ IntentState.draft
    → resealed s i ≡ ok j
    → IsResealed i j
unfolding resealed
resealed_returns IntentState.draft i j d h =
    subst (IsResealed i) (ok-inj h)
      (record { closed = λ other. absurd (other d); fields_kept = refl; unresolved_kept = refl })
resealed_returns IntentState.verified i j d h = sealed-IsResealed IntentState.verified i j h
resealed_returns IntentState.stale i j d h = sealed-IsResealed IntentState.stale i j h
resealed_returns IntentState.invalidated i j d h = sealed-IsResealed IntentState.invalidated i j h

differs_not :
    (v : Json) (s h : String) → differs v h ≡ false → v ≡ Json.str s → truthy s ≡ true → s ≡ h
differs_not v s h d q t =
    let e : (truthy s && not (s == h)) ≡ false = subst (λ x. differs x h ≡ false) q d in
    ground (arith, e, t, eq_iff s h)

module _ (show : Json → String) (dec : DecimalText) (env : Platform) where
  -- No dimension is both settled and open, a state other than a draft satisfies the seal, and a hash
  -- that is recorded is the intent's.
  pub record IsCoherent (p : Fields) (i : VerifiedIntent) : Type 0 where
    pub apart : overlaps i.unresolved i.fields ≡ false
    pub closed : i.state ≢ IntentState.draft → All IsClosed i.unresolved
    pub hash :
        (h : String)
        → get_or p "intent_hash" null ≡ Json.str h
        → truthy h ≡ true
        → h ≡ intent_hash env i

  read_draft-Coherent :
      (p : Fields) (i : VerifiedIntent) → read_draft show dec p ≡ ok i → Coherent i
  unfolding read_draft
  read_draft-Coherent p i h =
      let (fs, _, h1) = >>=-eq-ok (read_fields show dec (get_or p "fields" null)) _ h in
      let (rs, _, h2) = >>=-eq-ok (elements (get_or p "relations" null)) _ h1 in
      let (rels, _, h3) = >>=-eq-ok (collect (read_relation show dec) rs) _ h2 in
      let (us, _, h4) = >>=-eq-ok (elements (get_or p "unresolved" null)) _ h3 in
      let (opens, _, h5) = >>=-eq-ok (collect (read_unresolved show dec) us) _ h4 in
      let (cs, _, h6) = >>=-eq-ok (elements (get_or p "amendments" null)) _ h5 in
      let (changes, _, h7) = >>=-eq-ok (collect (read_amendment show dec) cs) _ h6 in
      made-Coherent (assembled show dec p fs rels opens changes) i refl h7

  -- If `intent_from_json` returns an intent for a stored mapping, no dimension of it is both
  -- settled and open, its open dimensions are all closed questions unless it is a draft, and a hash
  -- that the record holds as a text that is not empty is its hash.
  pub restored-IsCoherent :
      (p : Fields) (i : VerifiedIntent)
      → intent_from_json show dec env (obj p) ≡ ok i
      → IsCoherent p i
  unfolding intent_from_json Coherent
  restored-IsCoherent p i h =
      let (d, hd, h1) = >>=-eq-ok (read_draft show dec p) _ h in
      let (j, hj, h2) = >>=-eq-ok (resealed (read_state (text_at show p "state" "DRAFT")) d) _ h1 in
      let (agrees, same) =
        checked (differs (get_or p "intent_hash" null) (intent_hash env j)) j i h2 in
      let (apart, is_draft) = read_draft-Coherent p d hd in
      let r = resealed_returns (read_state (text_at show p "state" "DRAFT")) d j is_draft hj in
      subst (IsCoherent p) same (record {
        apart =
            subst (λ u. overlaps u j.fields ≡ false) (sym r.unresolved_kept)
              (subst (λ f. overlaps d.unresolved f ≡ false) (sym r.fields_kept) apart);
        closed = r.closed;
        hash = λ h q t. differs_not (get_or p "intent_hash" null) h (intent_hash env j) agrees q t;
      })
    where
      checked :
          (b : Bool) (x y : VerifiedIntent)
          → (raise_if b IntentError.hash_mismatch >>= λ _. ok x) ≡ ok y
          → (b ≡ false) × (x ≡ y)
      checked true x y k = absurd (cc k)
      checked false x y k = (refl, ok-inj k)
