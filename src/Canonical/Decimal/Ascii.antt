-- ===== src/Canonical/Decimal/Ascii.antt =====
-- The characters of the text that `decimal_string` of canonical.py makes.
use Prim.Native.Char.{code}
use Prim.Native.String.{◌++◌}
use text.Mathlib.TextLemmas.{nil-append, cons-append}
use runtime_contracts.Prelude.{
  ℕ, zero, suc, ◌<◌, ◌-◌, ◌≡◌, ◌==◌, nat_eq, ltb, length, String, Bool, true, false, List, [], ◌∷◌,
  arith, ok, pos, negsuc, ℤ, if◌then◌else◌, Bool-cases, inl, inr, subst,
}
use runtime_contracts.Canonical.Decimal.{
  Decimal, finite, infinite, nan, decimal_string, digit_text, digits_text, digits_of, zeros,
  point_in, format_f, unsigned, normalize,
}

abbrev pub IsAscii : String → Type 0
IsAscii String.[] = Unit
IsAscii (String.◌∷◌ c s) = (code c < 128) × IsAscii s

IsAscii-append : (s t : String) → IsAscii s → IsAscii t → IsAscii (s ++ t)
IsAscii-append String.[] t a b = rw (nil-append t) b
IsAscii-append (String.◌∷◌ c s) t a b = rw (cons-append c s t) (a.0, IsAscii-append s t a.1 b)

IsAscii-if : (c : Bool) (s t : String) → IsAscii s → IsAscii t → IsAscii (if c then s else t)
IsAscii-if true s t a b = a
IsAscii-if false s t a b = b

digit_text-IsAscii : (d : ℕ) → IsAscii (digit_text d)
unfolding digit_text
digit_text-IsAscii d = IsAscii-if (d == 0) "0" _ (omega arith) (
    IsAscii-if (d == 1) "1" _ (omega arith) (
      IsAscii-if (d == 2) "2" _ (omega arith) (
        IsAscii-if (d == 3) "3" _ (omega arith) (
          IsAscii-if (d == 4) "4" _ (omega arith) (
            IsAscii-if (d == 5) "5" _ (omega arith) (
              IsAscii-if (d == 6) "6" _ (omega arith) (
                IsAscii-if (d == 7) "7" _ (omega arith)
                  (IsAscii-if (d == 8) "8" "9" (omega arith) (omega arith)))))))))

digits_text-IsAscii : (ds : List ℕ) → IsAscii (digits_text ds)
unfolding digits_text
digits_text-IsAscii [] = tt
digits_text-IsAscii (d ∷ ds) =
    IsAscii-append (digit_text d) (digits_text ds) (digit_text-IsAscii d) (digits_text-IsAscii ds)

zeros-IsAscii : (n : ℕ) → IsAscii (zeros n)
unfolding zeros
zeros-IsAscii zero = tt
zeros-IsAscii (suc n) = IsAscii-append "0" (zeros n) (omega arith) (zeros-IsAscii n)

point_in-IsAscii : (k : ℕ) (ds : List ℕ) → IsAscii (point_in k ds)
unfolding point_in
point_in-IsAscii k [] = tt
point_in-IsAscii k (d ∷ ds) =
    IsAscii-if (length (d ∷ ds) == k) ("." ++ digits_text (d ∷ ds))
      (digits_text (d ∷ []) ++ point_in k ds)
      (IsAscii-append "." (digits_text (d ∷ ds)) (omega arith) (digits_text-IsAscii (d ∷ ds)))
      (IsAscii-append (digits_text (d ∷ [])) (point_in k ds) (digits_text-IsAscii (d ∷ []))
        (point_in-IsAscii k ds))

unsigned-IsAscii : (ds : List ℕ) (e : ℤ) → IsAscii (unsigned ds e)
unfolding unsigned
unsigned-IsAscii ds (pos n) =
    IsAscii-append (digits_text ds) (zeros n) (digits_text-IsAscii ds) (zeros-IsAscii n)
unsigned-IsAscii ds (negsuc n) =
    IsAscii-if (ltb (suc n) (length ds)) (point_in (suc n) ds)
      ("0." ++ (zeros (suc n - length ds) ++ digits_text ds)) (point_in-IsAscii (suc n) ds)
      (IsAscii-append "0." (zeros (suc n - length ds) ++ digits_text ds) (omega arith) (
        IsAscii-append (zeros (suc n - length ds)) (digits_text ds)
          (zeros-IsAscii (suc n - length ds)) (digits_text-IsAscii ds)))

format_f-IsAscii : (negative : Bool) (c : ℕ) (e : ℤ) → IsAscii (format_f negative c e)
unfolding format_f
format_f-IsAscii negative c e =
    IsAscii-append (if negative then "-" else "") (unsigned (digits_of c) e)
      (IsAscii-if negative "-" "" (omega arith) tt) (unsigned-IsAscii (digits_of c) e)

-- The text that `decimal_string` returns is ASCII.
pub decimal_string-IsAscii : (d : Decimal) {s : String} → decimal_string d ≡ ok s → IsAscii s
unfolding decimal_string
decimal_string-IsAscii infinite h = cc
decimal_string-IsAscii nan h = cc
decimal_string-IsAscii (finite negative c e) {s} h = elim (Bool-cases (c == 0)) [
  | inl z ↦ let same : "0" ≡ s = ground arith in subst IsAscii same (omega arith)
  | inr z ↦
      let n = normalize c e in
      let same : format_f negative n.0 n.1 ≡ s = ground arith in
      subst IsAscii same (format_f-IsAscii negative n.0 n.1)
]
