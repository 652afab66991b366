-- ===== src/Canonical/Decimal.antt =====
-- `decimal_string` of canonical.py, on a value of Python's `Decimal`. A finite one is a sign, a
-- coefficient and an exponent. `Decimal.normalize` rounds to the 28 digits of the default context,
-- half to even, and then strips trailing zeros; `format(…, "f")` writes no exponent.
pub mod Ascii
use Prim.Native.Nat.{◌/◌, ◌%◌, ◌^◌}
use Prim.Native.String.{◌++◌}
use runtime_contracts.Prelude.{
  ℕ, zero, suc, ◌+◌, ◌-◌, ◌*◌, ◌≡◌, refl, String, Bool, true, false, List, [], ◌∷◌, ltb, leb,
  nat_eq, ◌==◌, if◌then◌else◌, ◌&&◌, ◌||◌, length, Result, ok, raise, ℤ, pos, negsuc, ◌+ℤ◌,
}

pub data Decimal : Type 0 where
  finite : (negative : Bool) (coefficient : ℕ) (exponent : ℤ) → Decimal
  infinite nan : Decimal

-- `CanonicalizationError`, by the value that is refused.
pub data CanonicalizationError : Type 0 where
  float_value not_finite non_string_key unordered_set no_canonical_form : CanonicalizationError

-- The decimal digits of a number, the most significant first.
digits_from : ℕ → ℕ → List ℕ → List ℕ
digits_from zero n acc = acc
digits_from (suc fuel) n acc =
    let rest = digits_from fuel (n / 10) ((n % 10) ∷ acc) in if ltb n 10 then n ∷ acc else rest

unfoldable pub digits_of : ℕ → List ℕ
unfolding digits_from
digits_of n = digits_from (suc n) n []

-- The precision of Python's default decimal context.
abbrev pub precision : ℕ
precision = 28

-- Divide by 10 ^ k, rounding half to even.
unfoldable pub round_half_even : ℕ → ℕ → ℕ
round_half_even c k =
    let q = c / 10 ^ k in
    let r = c % 10 ^ k in
    if ltb (2 * r) (10 ^ k) || ((2 * r == 10 ^ k) && (q % 2 == 0)) then q else q + 1

unfoldable pub round_to_context : ℕ → ℤ → ℕ × ℤ
unfolding digits_of round_half_even ◌+ℤ◌
round_to_context c e =
    let n = length (digits_of c) in
    if leb n precision
    then (c, e)
    else (round_half_even c (n - precision), e +ℤ pos (n - precision))

-- Trailing zeros of the coefficient go into the exponent.
unfoldable pub strip_zeros : ℕ → ℕ → ℤ → ℕ × ℤ
unfolding ◌+ℤ◌
strip_zeros zero c e = (c, e)
strip_zeros (suc fuel) c e =
    let rest = strip_zeros fuel (c / 10) (e +ℤ pos 1) in if c % 10 == 0 then rest else (c, e)

unfoldable pub normalize : ℕ → ℤ → ℕ × ℤ
unfolding round_to_context strip_zeros
normalize c e = let (c', e') = round_to_context c e in strip_zeros c' c' e'

digit_text : ℕ → String
digit_text d =
    if d == 0
    then "0"
    else if d == 1
    then "1"
    else if d == 2
    then "2"
    else if d == 3
    then "3"
    else if d == 4
    then "4"
    else if d == 5
    then "5"
    else if d == 6
    then "6"
    else if d == 7
    then "7"
    else if d == 8
    then "8"
    else "9"

digits_text : List ℕ → String
unfolding digit_text
digits_text [] = ""
digits_text (d ∷ ds) = digit_text d ++ digits_text ds

zeros : ℕ → String
zeros zero = ""
zeros (suc n) = "0" ++ zeros n

-- The text of the digits with `k` of them behind the point, where there are more than `k`.
point_in : ℕ → List ℕ → String
unfolding digits_text
point_in k [] = ""
point_in k (d ∷ ds) =
    let rest = digits_text (d ∷ []) ++ point_in k ds in
    if length (d ∷ ds) == k then "." ++ digits_text (d ∷ ds) else rest

unsigned : List ℕ → ℤ → String
unfolding digits_text zeros point_in
unsigned ds (pos n) = digits_text ds ++ zeros n
unsigned ds (negsuc n) =
    if ltb (suc n) (length ds)
    then point_in (suc n) ds
    else "0." ++ (zeros (suc n - length ds) ++ digits_text ds)

unfoldable pub format_f : Bool → ℕ → ℤ → String
unfolding digits_of unsigned
format_f negative c e = (if negative then "-" else "") ++ unsigned (digits_of c) e

unfoldable pub decimal_string : Decimal → Result CanonicalizationError String
unfolding normalize format_f
decimal_string infinite = raise CanonicalizationError.not_finite
decimal_string nan = raise CanonicalizationError.not_finite
decimal_string (finite negative c e) =
    if c == 0 then ok "0" else (let (c', e') = normalize c e in ok (format_f negative c' e'))

decimals :
    (decimal_string (finite false 1500 (negsuc 2)) ≡ ok "1.5")
    × (decimal_string (finite true 0 (negsuc 0)) ≡ ok "0")
    × (decimal_string (finite false 1 (negsuc 2)) ≡ ok "0.001")
    × (decimal_string (finite true 12 (pos 2)) ≡ ok "-1200")
unfolding decimal_string
decimals = (refl, refl, refl, refl)
