-- ===== src/Prelude/Ordered.antt =====
-- Equality and order as interfaces, texts and numbers as their instances.
use Prim.Native.Nat.{ℕ}
use Prim.Native.Char.{code}
use Prim.Native.String.{String}
use mathlib.Core.Path.{◌≡◌, refl, ap₂, subst}
use mathlib.Core.Logic.{◌↔◌, ◌⊎◌, inl, inr}
use mathlib.Core.Bool.{Bool, true, false, not, ◌&&◌, ◌||◌}
use mathlib.Core.List.{List, [], ◌∷◌, ◌++◌}
use runtime_contracts.Prelude.Lists.{In, here, there}
use native.Mathlib.Omega.{arith}
use text.Mathlib.Text.{◌==◌ as str_eq}
use text.Mathlib.TextEquality.{eq_iff, Char-path}
use runtime_contracts.Prelude.Tests.{
  ltb, leb, ◌==◌ as nat_eq_test, ==_iff as nat_eq_iff, Bool-cases,
}

pub record Eq {ℓ} (A : Type ℓ) : Type ℓ where
  pub test : A → A → Bool
  pub test_iff : (a b : A) → (test a b ≡ true) ↔ (a ≡ b)

-- Python's `==`, at every type that has an instance.
infix 50 ◌==◌
abbrev pub ◌==◌ {ℓ} : {A : Type ℓ} ⦃e : Eq A⦄ → A → A → Bool
◌==◌ ⦃e⦄ = e.test

instance abbrev pub nat_eq : Eq ℕ
nat_eq = record { test = nat_eq_test; test_iff = nat_eq_iff }

instance abbrev pub string_eq : Eq String
string_eq = record { test = str_eq; test_iff = eq_iff }

-- Python's `<=` on keys: a total order.
pub record Order (K : Type 0) : Type 0 where
  pub le : K → K → Bool
  pub le_refl : (a : K) → le a a ≡ true
  pub le_trans : (a b c : K) → le a b ≡ true → le b c ≡ true → le a c ≡ true
  pub le_total : (a b : K) → (le a b ≡ true) ⊎ (le b a ≡ true)
  pub le_antisymm : (a b : K) → le a b ≡ true → le b a ≡ true → a ≡ b

pub leb_refl : (a : ℕ) → leb a a ≡ true
leb_refl a = ground arith

pub leb_trans : (a b c : ℕ) → leb a b ≡ true → leb b c ≡ true → leb a c ≡ true
leb_trans a b c h k = ground arith

pub leb_total : (a b : ℕ) → (leb a b ≡ true) ⊎ (leb b a ≡ true)
leb_total a b = ground arith

pub leb_antisymm : (a b : ℕ) → leb a b ≡ true → leb b a ≡ true → a ≡ b
leb_antisymm a b h k = ground arith

instance abbrev pub nat_order : Order ℕ
nat_order = record {
  le = leb;
  le_refl = leb_refl;
  le_trans = leb_trans;
  le_total = leb_total;
  le_antisymm = leb_antisymm;
}

-- Texts are ordered by their code points, the first difference decides.
abbrev pub str_le : String → String → Bool
str_le String.[] t = true
str_le (String.◌∷◌ c s) String.[] = false
str_le (String.◌∷◌ c s) (String.◌∷◌ d t) =
    ltb (code c) (code d) || (nat_eq_test (code c) (code d) && str_le s t)

pub str_le_refl : (s : String) → str_le s s ≡ true
str_le_refl String.[] = refl
str_le_refl (String.◌∷◌ c s) = ground (arith, str_le_refl s)

pub str_le_trans : (a b c : String) → str_le a b ≡ true → str_le b c ≡ true → str_le a c ≡ true
str_le_trans String.[] b c h k = refl
str_le_trans (String.◌∷◌ x a) String.[] c h k = cc
str_le_trans (String.◌∷◌ x a) (String.◌∷◌ y b) String.[] h k = cc
str_le_trans (String.◌∷◌ x a) (String.◌∷◌ y b) (String.◌∷◌ z c) h k =
    ground (arith, str_le_trans a b c)

pub str_le_total : (a b : String) → (str_le a b ≡ true) ⊎ (str_le b a ≡ true)
str_le_total String.[] b = inl refl
str_le_total (String.◌∷◌ x a) String.[] = inr refl
str_le_total (String.◌∷◌ x a) (String.◌∷◌ y b) = ground (arith, str_le_total a b)

pub str_le_antisymm : (a b : String) → str_le a b ≡ true → str_le b a ≡ true → a ≡ b
str_le_antisymm String.[] String.[] h k = refl
str_le_antisymm String.[] (String.◌∷◌ y b) h k = cc
str_le_antisymm (String.◌∷◌ x a) String.[] h k = cc
str_le_antisymm (String.◌∷◌ x a) (String.◌∷◌ y b) h k =
    ap₂ String.◌∷◌ (Char-path x y (ground arith))
      (str_le_antisymm a b (ground arith) (ground arith))

instance abbrev pub string_order : Order String
string_order = record {
  le = str_le;
  le_refl = str_le_refl;
  le_trans = str_le_trans;
  le_total = str_le_total;
  le_antisymm = str_le_antisymm;
}

-- `x in xs`
module _ {ℓ} {A : Type ℓ} ⦃e : Eq A⦄ where
  abbrev pub member : A → List A → Bool
  member a [] = false
  member a (x ∷ xs) = (a == x) || member a xs

  pub member→In : (a : A) (xs : List A) → member a xs ≡ true → In a xs
  member→In a [] h = cc
  member→In a (x ∷ xs) h = elim (Bool-cases (a == x)) [
    | inl p ↦ subst (λ y. In a (y ∷ xs)) ((e.test_iff a x).0 p) here
    | inr p ↦ there (member→In a xs (ground arith))
  ]

  pub In→member : (a : A) (xs : List A) → In a xs → member a xs ≡ true
  In→member a [] m = elim m [ ]
  In→member a (x ∷ xs) here = rw ((e.test_iff a a).1 refl)
  In→member a (x ∷ xs) (there m) = ground (arith, In→member a xs m)

  pub member-append : (a : A) (xs ys : List A) → member a (xs ++ ys) ≡ (member a xs || member a ys)
  member-append a [] ys = refl
  member-append a (x ∷ xs) ys = ground (arith, member-append a xs ys)

-- Tuples are compared by their first components, then by the rest.
module _ {A B : Type 0} ⦃o : Order A⦄ ⦃q : Order B⦄ where
  abbrev pub pair_le : A × B → A × B → Bool
  pair_le x y = o.le x.0 y.0 && (not (o.le y.0 x.0) || q.le x.1 y.1)

  pub pair_le_refl : (x : A × B) → pair_le x x ≡ true
  pair_le_refl x = ground (arith, o.le_refl x.0, q.le_refl x.1)

  pub pair_le_trans : (x y z : A × B) → pair_le x y ≡ true → pair_le y z ≡ true → pair_le x z ≡ true
  pair_le_trans x y z h k = ground (
    arith,
    o.le_trans x.0 y.0 z.0,
    o.le_trans y.0 z.0 x.0,
    o.le_trans z.0 x.0 y.0,
    q.le_trans x.1 y.1 z.1,
  )

  pub pair_le_total : (x y : A × B) → (pair_le x y ≡ true) ⊎ (pair_le y x ≡ true)
  pair_le_total x y = ground (arith, o.le_total x.0 y.0, q.le_total x.1 y.1)

  pub pair_le_antisymm : (x y : A × B) → pair_le x y ≡ true → pair_le y x ≡ true → x ≡ y
  pair_le_antisymm x y h k = ground (arith, o.le_antisymm x.0 y.0, q.le_antisymm x.1 y.1)

  instance abbrev pub pair_order : Order (A × B)
  pair_order = record {
    le = pair_le;
    le_refl = pair_le_refl;
    le_trans = pair_le_trans;
    le_total = pair_le_total;
    le_antisymm = pair_le_antisymm;
  }

module _ {A B : Type 0} ⦃e : Eq A⦄ ⦃f : Eq B⦄ where
  abbrev pub pair_beq : A × B → A × B → Bool
  pair_beq x y = e.test x.0 y.0 && f.test x.1 y.1

  pub pair_beq_iff : (x y : A × B) → (pair_beq x y ≡ true) ↔ (x ≡ y)
  pair_beq_iff x y = ground (arith, e.test_iff x.0 y.0, f.test_iff x.1 y.1)

  instance abbrev pub pair_eq : Eq (A × B)
  pair_eq = record { test = pair_beq; test_iff = pair_beq_iff }
