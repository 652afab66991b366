-- ===== src/Qa/Groups.antt =====
-- Values that are gathered by key: no group has two of them exactly if the key determines the value.
use runtime_contracts.Prelude.{
  pair_beq_iff, suc, ℕ, String, Bool, true, false, ◌||◌, List, [], ◌∷◌, length, Option, none, some,
  member, ltb, ◌==◌, string_eq, pair_eq, ◌≡◌, ◌≢◌, ◌↔◌, ◌⊎◌, refl, sym, subst, ◌∙◌, ap, In, here,
  there, Bool-cases, Option-cases, inl, inr, eq_iff, arith, if◌then◌else◌,
}
use runtime_contracts.Canonical.Keys.{some-inj}
use runtime_contracts.Qa.{KeyedReceipt, Grouping, add_to, grouped, some_larger}

abbrev Key : Type 0
Key = String × String

-- Every group has one value.
abbrev AreSingle : Grouping → Type 0
AreSingle [] = Unit {0}
AreSingle (g ∷ gs) = ((v : String) × (g.1 ≡ v ∷ [])) × AreSingle gs

abbrev first_of : List String → Option String
first_of [] = none
first_of (v ∷ vs) = some v

-- The first value of the group of a key.
value_at : Key → Grouping → Option String
value_at k [] = none
value_at k (g ∷ gs) = if g.0 == k then first_of g.1 else value_at k gs

single_not_larger : (gs : Grouping) → AreSingle gs → some_larger gs ≡ false
single_not_larger [] a = refl
single_not_larger (g ∷ gs) ((v, q), a) = rw q (single_not_larger gs a)

grown : (b : Bool) (n : ℕ) → (ltb 1 n || b) ≡ true → (ltb 1 (suc n) || b) ≡ true
grown b n h = ground arith

-- A group never loses a value.
larger_stays :
    (k : Key) (v : String) (gs : Grouping)
    → some_larger gs ≡ true
    → some_larger (add_to k v gs) ≡ true
unfolding add_to
larger_stays k v [] h = cc h
larger_stays k v (g ∷ gs) h = elim (Bool-cases (g.0 == k)) [
  | inl p ↦ rw p (elim (Bool-cases (member v g.1)) [
    | inl q ↦ rw q h
    | inr q ↦ rw q (grown (some_larger gs) (length g.1) h)
  ])
  | inr p ↦ rw p (either (ltb 1 (length g.1)) (some_larger gs) h (larger_stays k v gs))
]
  where
    either : (b c : Bool) {d : Bool} → (b || c) ≡ true → (c ≡ true → d ≡ true) → (b || d) ≡ true
    either true c h f = refl
    either false c h f = f h

-- The key has no value yet, or this one.
Fits : Key → String → Grouping → Type 0
Fits k v gs = (value_at k gs ≡ none) ⊎ (value_at k gs ≡ some v)

Fits-later :
    (k : Key) (v : String) (g : Key × List String) (gs : Grouping)
    → (g.0 == k) ≡ false
    → Fits k v (g ∷ gs)
    → Fits k v gs
unfolding value_at Fits
Fits-later k v g gs p (inl h) = inl (rw p at h)
Fits-later k v g gs p (inr h) = inr (rw p at h)

Fits-here :
    (k : Key) (v w : String) (g : Key × List String) (gs : Grouping)
    → (g.0 == k) ≡ true
    → g.1 ≡ w ∷ []
    → Fits k v (g ∷ gs)
    → w ≡ v
unfolding value_at Fits
Fits-here k v w g gs p q (inl h) = cc (rw (p, q) at h)
Fits-here k v w g gs p q (inr h) = cc (rw (p, q) at h)

member_self : (v : String) → member v (v ∷ []) ≡ true
member_self v = rw ((eq_iff v v).1 refl) refl

add_fitting :
    (k : Key) (v : String) (gs : Grouping) → AreSingle gs → Fits k v gs → AreSingle (add_to k v gs)
unfolding add_to
add_fitting k v [] a f = ((v, refl), tt)
add_fitting k v (g ∷ gs) ((w, q), a) f = elim (Bool-cases (g.0 == k)) [
  | inl p ↦ let same = Fits-here k v w g gs p q f in rw p ((w, rw (q, same, member_self v) refl), a)
  | inr p ↦ rw p ((w, q), add_fitting k v gs a (Fits-later k v g gs p f))
]

add_clashing :
    (k : Key) (v w : String) (gs : Grouping)
    → AreSingle gs
    → value_at k gs ≡ some w
    → w ≢ v
    → some_larger (add_to k v gs) ≡ true
unfolding add_to value_at
add_clashing k v w [] a h n = cc h
add_clashing k v w (g ∷ gs) ((u, q), a) h n = elim (Bool-cases (g.0 == k)) [
  | inl p ↦
      let same : u ≡ w = cc (rw (p, q) at h) in
      let other : (v == u) ≡ false = ground (arith, eq_iff v u, same, n) in rw (p, q, other) refl
  | inr p ↦ rw (p, q) (add_clashing k v w gs a (rw p at h) n)
]

key_iff : (j k : Key) → ((j == k) ≡ true) ↔ (j ≡ k)
key_iff j k = pair_beq_iff j k

value-add_to :
    (k : Key) (v : String) (gs : Grouping)
    → AreSingle gs
    → Fits k v gs
    → value_at k (add_to k v gs) ≡ some v
unfolding add_to value_at
value-add_to k v [] a f = rw ((key_iff k k).1 refl) refl
value-add_to k v (g ∷ gs) ((w, q), a) f = elim (Bool-cases (g.0 == k)) [
  | inl p ↦ let same = Fits-here k v w g gs p q f in rw (p, q, same, member_self v, p) refl
  | inr p ↦ rw (p, p) (value-add_to k v gs a (Fits-later k v g gs p f))
]

value-add_to_other :
    (j k : Key) (v : String) (gs : Grouping)
    → (k == j) ≡ false
    → value_at j (add_to k v gs) ≡ value_at j gs
unfolding add_to value_at
value-add_to_other j k v [] n = rw n refl
value-add_to_other j k v (g ∷ gs) n = elim (Bool-cases (g.0 == k)) [
  | inl p ↦
      let apart : (g.0 == j) ≡ false =
        subst (λ x. (x == j) ≡ false) (sym ((key_iff g.0 k).0 p)) n in
      rw (p, apart) refl
  | inr p ↦ rw p (elim (Bool-cases (g.0 == j)) [
    | inl q ↦ rw q refl
    | inr q ↦ rw q (value-add_to_other j k v gs n)
  ])
]

module _ (key : KeyedReceipt → Key) (value : KeyedReceipt → String) where
  grouped_larger :
      (rs : List KeyedReceipt) (gs : Grouping)
      → some_larger gs ≡ true
      → some_larger (grouped key value rs gs) ≡ true
  unfolding grouped
  grouped_larger [] gs h = h
  grouped_larger (r ∷ rs) gs h =
      grouped_larger rs (add_to (key r) (value r) gs) (larger_stays (key r) (value r) gs h)

  -- The receipts agree with the groups, and with each other.
  record Agree (rs : List KeyedReceipt) (gs : Grouping) : Type 0 where
    held : (r : KeyedReceipt) (w : String) → In r rs → value_at (key r) gs ≡ some w → w ≡ value r
    determined : (a b : KeyedReceipt) → In a rs → In b rs → key a ≡ key b → value a ≡ value b

  fitting :
      (r : KeyedReceipt) (gs : Grouping)
      → ((w : String) → value_at (key r) gs ≡ some w → w ≡ value r)
      → Fits (key r) (value r) gs
  unfolding Fits
  fitting r gs h = elim (Option-cases (value_at (key r) gs)) [
    | inl q ↦ inl q
    | inr (w, q) ↦ inr (q ∙ ap (λ x. some x) (h w q))
  ]

  Agree-not_larger :
      (rs : List KeyedReceipt) (gs : Grouping)
      → AreSingle gs
      → Agree rs gs
      → some_larger (grouped key value rs gs) ≡ false
  unfolding grouped
  Agree-not_larger [] gs a k = single_not_larger gs a
  Agree-not_larger (r ∷ rs) gs a k =
      let f = fitting r gs (λ w q. k.held r w here q) in
      Agree-not_larger rs (add_to (key r) (value r) gs) (add_fitting (key r) (value r) gs a f)
        (record {
          held = λ x w m q. elim (Bool-cases (key r == key x)) [
            | inl p ↦
                let same = (key_iff (key r) (key x)).0 p in
                some-inj (
                  sym q
                  ∙ subst (λ j. value_at j (add_to (key r) (value r) gs) ≡ some (value r)) same
                      (value-add_to (key r) (value r) gs a f))
                ∙ k.determined r x here (there m) same
            | inr p ↦
                k.held x w (there m) (sym (value-add_to_other (key x) (key r) (value r) gs p) ∙ q)
          ];
          determined = λ x y m n. k.determined x y (there m) (there n);
        })

  checked_fit :
      (r : KeyedReceipt) (rs : List KeyedReceipt) (gs : Grouping)
      → AreSingle gs
      → some_larger (grouped key value (r ∷ rs) gs) ≡ false
      → (w : String) → value_at (key r) gs ≡ some w
      → w ≡ value r
  unfolding grouped
  checked_fit r rs gs a h w q = elim (Bool-cases (w == value r)) [
    | inl p ↦ (eq_iff w (value r)).0 p
    | inr p ↦
        let n : w ≢ value r = λ e. cc ((eq_iff w (value r)).1 e, p) in
        absurd (
          cc (
            grouped_larger rs (add_to (key r) (value r) gs)
                (add_clashing (key r) (value r) w gs a q n),
            h,
          ))
  ]

  not_larger-Agree :
      (rs : List KeyedReceipt) (gs : Grouping)
      → AreSingle gs
      → some_larger (grouped key value rs gs) ≡ false
      → Agree rs gs
  unfolding grouped
  not_larger-Agree [] gs a h = record {
    held = λ r w m q. elim m [ ];
    determined = λ x y m n q. elim m [ ];
  }
  not_larger-Agree (r ∷ rs) gs a h =
      with_rest
        (not_larger-Agree rs (add_to (key r) (value r) gs) (add_fitting (key r) (value r) gs a f) h)
    where
      f : Fits (key r) (value r) gs
      f = fitting r gs (checked_fit r rs gs a h)

      to_first :
          Agree rs (add_to (key r) (value r) gs)
          → (y : KeyedReceipt) → In y rs
          → key r ≡ key y
          → value r ≡ value y
      to_first k y n q = k.held y (value r) n (
          subst (λ j. value_at j (add_to (key r) (value r) gs) ≡ some (value r)) q
            (value-add_to (key r) (value r) gs a f))

      held_of :
          Agree rs (add_to (key r) (value r) gs)
          → (x : KeyedReceipt) (w : String) → In x (r ∷ rs)
          → value_at (key x) gs ≡ some w
          → w ≡ value x
      held_of k x w here q = checked_fit r rs gs a h w q
      held_of k x w (there m) q = elim (Bool-cases (key r == key x)) [
        | inl p ↦
            let same = (key_iff (key r) (key x)).0 p in
            checked_fit r rs gs a h w (subst (λ j. value_at j gs ≡ some w) (sym same) q)
            ∙ to_first k x m same
        | inr p ↦ k.held x w m (value-add_to_other (key x) (key r) (value r) gs p ∙ q)
      ]

      determined_of :
          Agree rs (add_to (key r) (value r) gs)
          → (x y : KeyedReceipt) → In x (r ∷ rs)
          → In y (r ∷ rs)
          → key x ≡ key y
          → value x ≡ value y
      determined_of k x y here here q = refl
      determined_of k x y here (there n) q = to_first k y n q
      determined_of k x y (there m) here q = sym (to_first k x m (sym q))
      determined_of k x y (there m) (there n) q = k.determined x y m n q

      with_rest : Agree rs (add_to (key r) (value r) gs) → Agree (r ∷ rs) gs
      with_rest k = record { held = held_of k; determined = determined_of k }

  -- No group has two values exactly if receipts with one key have one value.
  pub grouped_iff :
      (rs : List KeyedReceipt)
      → (some_larger (grouped key value rs []) ≡ false)
        ↔ ((a b : KeyedReceipt) → In a rs → In b rs → key a ≡ key b → value a ≡ value b)
  unfolding value_at
  grouped_iff rs = (
    λ h. (not_larger-Agree rs [] tt h).determined,
    λ k. Agree-not_larger rs [] tt (record { held = λ r w m q. cc q; determined = k }),
  )
