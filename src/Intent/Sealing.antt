-- ===== src/Intent/Sealing.antt =====
-- What sealing asks for and what it keeps, and what an open dimension is to a consumer.
use runtime_contracts.Prelude.{
  Bool, true, false, List, [], ◌∷◌, any, is_none, ◌==◌, string_eq, ◌≡◌, ◌≢◌, ◌↔◌, refl, sym, subst,
  ◌∙◌, ap, ok, ok-inj, All, In, here, there, Bool-cases, Option-cases, eq_iff, arith, inl, inr,
}
use runtime_contracts.Canonical.Json.{Json}
use runtime_contracts.Canonical.Dict.{get}
use runtime_contracts.Canonical.Value.{Platform}
use runtime_contracts.Intent.{
  Unresolved, OpenReason, IntentState, VerifiedIntent, keep_open, prevents_sealing,
  blocks_execution, unsealable, blocking_dimensions, seal, is_executable_in_principle, overlaps,
  make_intent, state_of, value_or, DimensionState,
}
use runtime_contracts.Intent.Form.{intent_hash, intent_form}

-- Leaving the dimension open changes no result, and its readers do not disagree.
pub record IsClosed (u : Unresolved) : Type 0 where
  pub harmless : u.result_changing ≡ false
  pub agreed : u.reason ≢ OpenReason.unresolved_disagreement

prevents_sealing-IsClosed : (u : Unresolved) → (prevents_sealing u ≡ false) ↔ IsClosed u
prevents_sealing-IsClosed u = (
  λ h.
      let calm : blocks_execution u.reason ≡ false = ground arith in
      record { harmless = ground arith; agreed = λ q. cc (calm, q) },
  λ k. rw k.harmless (not_blocking u.reason k.agreed),
)
  where
    not_blocking :
        (r : OpenReason) → r ≢ OpenReason.unresolved_disagreement → blocks_execution r ≡ false
    not_blocking OpenReason.not_asked h = refl
    not_blocking OpenReason.user_declined h = refl
    not_blocking OpenReason.unresolved_disagreement h = absurd (h refl)

module _ (p : Unresolved → Bool) where
  none_kept : (us : List Unresolved) → keep_open p us ≡ [] → All (λ u. p u ≡ false) us
  unfolding keep_open
  none_kept [] h = tt
  none_kept (u ∷ us) h = elim (Bool-cases (p u)) [
    | inl q ↦ absurd (cc (rw q at h))
    | inr q ↦ (q, none_kept us (rw q at h))
  ]

  kept_none : (us : List Unresolved) → All (λ u. p u ≡ false) us → keep_open p us ≡ []
  unfolding keep_open
  kept_none [] a = refl
  kept_none (u ∷ us) a = rw a.0 (kept_none us a.1)

all-IsClosed : (us : List Unresolved) → All (λ u. prevents_sealing u ≡ false) us → All IsClosed us
all-IsClosed [] a = tt
all-IsClosed (u ∷ us) a = ((prevents_sealing-IsClosed u).0 a.0, all-IsClosed us a.1)

IsClosed-all : (us : List Unresolved) → All IsClosed us → All (λ u. prevents_sealing u ≡ false) us
IsClosed-all [] a = tt
IsClosed-all (u ∷ us) a = ((prevents_sealing-IsClosed u).1 a.0, IsClosed-all us a.1)

pub seal-unsealable :
    (i : VerifiedIntent)
    → unsealable i ≡ []
    → seal i ≡ ok (record i { state = IntentState.verified })
unfolding seal
seal-unsealable i h = rw (seal, h) refl

pub seal_returns :
    (i j : VerifiedIntent)
    → seal i ≡ ok j
    → (unsealable i ≡ []) × (j ≡ record i { state = IntentState.verified })
unfolding seal
seal_returns i j h = by_list (unsealable i) refl
  where
    by_list :
        (us : List Unresolved)
        → unsealable i ≡ us
        → (unsealable i ≡ []) × (j ≡ record i { state = IntentState.verified })
    by_list [] q = (q, sym (ok-inj (rw (seal, q) at h)))
    by_list (u ∷ us) q = absurd (cc (rw (seal, q) at h))

-- `seal` returns an intent exactly if no open dimension changes the result or is a disagreement,
-- and then it is the same intent but for its state.
pub seal_iff :
    (i j : VerifiedIntent)
    → (seal i ≡ ok j)
      ↔ (All IsClosed i.unresolved × (j ≡ record i { state = IntentState.verified }))
unfolding unsealable
seal_iff i j = (
  λ h.
      let (e, s) = seal_returns i j h in
      (all-IsClosed i.unresolved (none_kept prevents_sealing i.unresolved e), s),
  λ (a, s).
      seal-unsealable i (kept_none prevents_sealing i.unresolved (IsClosed-all i.unresolved a))
      ∙ ap (λ x. ok x) (sym s),
)

not_blocking_kept :
    (us : List Unresolved) → All IsClosed us → keep_open (λ u. blocks_execution u.reason) us ≡ []
not_blocking_kept us a = kept_none (λ u. blocks_execution u.reason) us (calm us a)
  where
    calm :
        (vs : List Unresolved) → All IsClosed vs → All (λ u. blocks_execution u.reason ≡ false) vs
    calm [] b = tt
    calm (v ∷ vs) b = (ground (arith, (prevents_sealing-IsClosed v).1 b.0), calm vs b.1)

module _ (env : Platform) where
  -- If `seal` returns an intent, it has the hash of the one that was sealed, is executable in
  -- principle, and is sealed again to itself.
  pub seal-intent_hash :
      (i j : VerifiedIntent)
      → seal i ≡ ok j
      → (intent_hash env j ≡ intent_hash env i)
        × (is_executable_in_principle j ≡ true)
        × (seal j ≡ ok j)
  unfolding intent_hash intent_form is_executable_in_principle blocking_dimensions
  seal-intent_hash i j h =
      let (closed, same) = (seal_iff i j).0 h in
      subst
        (λ x.
          (intent_hash env x ≡ intent_hash env i)
          × (is_executable_in_principle x ≡ true)
          × (seal x ≡ ok x))
        (sym same)
        (
          refl,
          rw (not_blocking_kept i.unresolved closed) refl,
          (seal_iff (record i { state = IntentState.verified })
                (record i { state = IntentState.verified })).1
              (closed, refl),
        )

opened :
    (u : Unresolved) (us : List Unresolved)
    → In u us
    → any (λ v. v.dimension == u.dimension) us ≡ true
opened u [] m = elim m [ ]
opened u (v ∷ us) here = rw ((eq_iff u.dimension u.dimension).1 refl) refl
opened u (v ∷ us) (there m) = ground (arith, opened u us m)

unsettled :
    (u : Unresolved) (i : VerifiedIntent) (us : List Unresolved)
    → In u us
    → overlaps us i.fields ≡ false
    → is_none (get u.dimension i.fields) ≡ true
unfolding overlaps
unsettled u i [] m h = elim m [ ]
unsettled u i (v ∷ us) here h = ground arith
unsettled u i (v ∷ us) (there m) h = unsettled u i us m (ground arith)

pub make_intent_returns :
    (i j : VerifiedIntent)
    → make_intent i ≡ ok j
    → (overlaps i.unresolved i.fields ≡ false) × (i ≡ j)
unfolding make_intent
make_intent_returns i j h = elim (Bool-cases (overlaps i.unresolved i.fields)) [
  | inl q ↦ absurd (cc (rw (make_intent, q) at h))
  | inr q ↦ (q, ok-inj (rw (make_intent, q) at h))
]

reads_open :
    (i : VerifiedIntent) (u : Unresolved) (default : Json)
    → overlaps i.unresolved i.fields ≡ false
    → In u i.unresolved
    → (state_of i u.dimension ≡ DimensionState.open_dimension)
      × (value_or i u.dimension default ≡ default)
unfolding state_of value_or
reads_open i u default h m = elim (Option-cases (get u.dimension i.fields)) [
  | inl q ↦ (rw (state_of, q, opened u i.unresolved m) refl, rw (value_or, q) refl)
  | inr (f, q) ↦ absurd (cc (unsettled u i i.unresolved m h, q))
]

-- If the constructor accepts an intent, each dimension that it carries as open is open to a
-- consumer, which reads the default that it gives.
pub open_has_no_value :
    (i j : VerifiedIntent) (u : Unresolved) (default : Json)
    → make_intent i ≡ ok j
    → In u j.unresolved
    → (state_of j u.dimension ≡ DimensionState.open_dimension)
      × (value_or j u.dimension default ≡ default)
open_has_no_value i j u default h m =
    let (apart, same) = make_intent_returns i j h in
    reads_open j u default (subst (λ x. overlaps x.unresolved x.fields ≡ false) same apart) m
