-- ===== src/Prelude/Exceptions.antt =====
-- Python exceptions as values: a call returns, or it raises one of the errors of its component.
use mathlib.Core.Path.{◌≡◌, refl}
use mathlib.Core.Bool.{Bool, true, false}
use mathlib.Core.Logic.{◌⊎◌, inl, inr}

pub data Result (E A : Type 0) : Type 0 where
  ok : A → Result E A
  raise : E → Result E A

module _ {E : Type 0} where
  infixl 5 ◌>>=◌ ◌>>◌
  abbrev pub ◌>>=◌ : {A B : Type 0} → Result E A → (A → Result E B) → Result E B
  ok a >>= f = f a
  raise e >>= f = raise e

  abbrev pub ◌>>◌ : {A B : Type 0} → Result E A → Result E B → Result E B
  m >> k = m >>= λ _. k

  -- `if cond: raise e`
  abbrev pub raise_if : Bool → E → Result E (Unit {0})
  raise_if true e = raise e
  raise_if false e = ok tt

  -- A chain that returns has a first call that returns, and the rest returns from there.
  pub >>=-eq-ok :
      {A B : Type 0} (call : Result E A) (rest : A → Result E B) {y : B}
      → (call >>= rest) ≡ ok y
      → (x : A) × (call ≡ ok x) × (rest x ≡ ok y)
  >>=-eq-ok (raise e) rest h = cc
  >>=-eq-ok (ok x) rest h = (x, refl, h)

  pub Result-cases :
      {A : Type 0} (m : Result E A) → ((a : A) × (m ≡ ok a)) ⊎ ((e : E) × (m ≡ raise e))
  Result-cases (ok a) = inl (a, refl)
  Result-cases (raise e) = inr (e, refl)

  pub ok-inj : {A : Type 0} {a b : A} → ◌≡◌ {A = Result E A} (ok a) (ok b) → a ≡ b
  ok-inj h = cc
