-- ===== src/Examples/Canon.antt =====
-- Canonical forms, decimals and duplicates.
use runtime_contracts.Prelude.{
  arith, eq_iff, ◌≢◌, String, true, false, List, [], ◌∷◌, ◌≡◌, refl, ok, negsuc, string_eq,
  string_order,
}
use runtime_contracts.Prelude.Sort.{sort, IsSorted}
use runtime_contracts.Canonical.Json.{Json, Items, Fields}
use runtime_contracts.Canonical.Decimal.{Decimal, decimal_string}
use runtime_contracts.Canonical.Value.{Value, Values, Entries, Key, canonicalize, sorted_unique}
use runtime_contracts.Canonical.Reorder.{canonicalize_swap}
use runtime_contracts.Canonical.Laws.{of_json}
use runtime_contracts.Canonical.Fixed.{canonicalize_fixed}
use runtime_contracts.Canonical.Normal.{IsCanonical}
use runtime_contracts.Canonical.Unique.{sorted_unique_lem, KeysDistinct, first_with}
use runtime_contracts.Examples.{ascii_platform}

-- `{"b": Decimal("1.50"), "a": [None, True], "c": None}`
abbrev loose : Value
loose = Value.mapping (
    Entries.entry (Key.text "b") (Value.decimal (Decimal.finite false 150 (negsuc 1))) (
      Entries.entry (Key.text "a")
        (Value.sequence (Values.cons Value.null (Values.cons (Value.bool true) Values.nil)))
        (Entries.entry (Key.text "c") Value.null Entries.end)))

abbrev tight : Json
tight = Json.obj (
    Fields.field "a" (Json.arr (Items.cons Json.null (Items.cons (Json.bool true) Items.nil)))
      (Fields.field "b" (Json.str "1.5") Fields.end))

loose_canonical : canonicalize ascii_platform loose ≡ ok tight
unfolding canonicalize decimal_string sort
loose_canonical = refl

canonicalize_fixed_example :
    IsCanonical ascii_platform tight × (canonicalize ascii_platform (of_json tight) ≡ ok tight)
canonicalize_fixed_example =
    canonicalize_fixed ascii_platform (λ s. refl) (λ s a. refl) loose tight loose_canonical

small_decimal : decimal_string (Decimal.finite true 120 (negsuc 3)) ≡ ok "-0.012"
unfolding decimal_string
small_decimal = refl

abbrev pairs : List (String × String)
pairs = ("b", "first") ∷ ("a", "only") ∷ ("b", "second") ∷ []

sorted_unique_lem_example :
    IsSorted (λ (e : String × String). e.0) (sorted_unique (λ e. e.0) pairs)
    × KeysDistinct (λ (e : String × String). e.0) (sorted_unique (λ e. e.0) pairs)
    × ((k : String)
        → first_with (λ e. e.0) k (sorted_unique (λ e. e.0) pairs) ≡ first_with (λ e. e.0) k pairs)
sorted_unique_lem_example = sorted_unique_lem (λ e. e.0) pairs

keys_differ : ◌≢◌ {A = String} "b" "a"
keys_differ = ground (arith, eq_iff "b" "a")

canonicalize_swap_example :
    canonicalize ascii_platform (
      Value.mapping (
        Entries.entry
          (Key.text "a")
          (Value.sequence (Values.cons Value.null (Values.cons (Value.bool true) Values.nil)))
          (Entries.entry
            (Key.text "b")
            (Value.decimal (Decimal.finite false 150 (negsuc 1)))
            (Entries.entry (Key.text "c") Value.null Entries.end))))
    ≡ ok tight
canonicalize_swap_example =
    canonicalize_swap ascii_platform Entries.end
      (Entries.entry (Key.text "c") Value.null Entries.end) "b" "a"
      (Value.decimal (Decimal.finite false 150 (negsuc 1)))
      (Value.sequence (Values.cons Value.null (Values.cons (Value.bool true) Values.nil)))
      {j = tight} keys_differ loose_canonical
