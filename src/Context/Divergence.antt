-- ===== src/Context/Divergence.antt =====
-- The pins that moved between two views of models/context.py.
use runtime_contracts.Prelude.{
  String, member-append, false, not, ◌&&◌, List, [], ◌∷◌, ◌++◌, none, ◌≡◌, refl, ◌∙◌, arith, eq_iff,
  member, string_eq, string_order, ◌==◌, Bool-cases, inl, inr,
}
use runtime_contracts.Canonical.Json.{Dict}
use runtime_contracts.Canonical.Dict.{get}
use runtime_contracts.Canonical.Value.{sorted_unique}
use runtime_contracts.Canonical.Unique.{member-sorted_unique}
use runtime_contracts.Visibility.{same_text}
use runtime_contracts.Context.{ContextView, moved_pins, pin_ids, divergence_from}

get_absent : (i : String) (d : Dict String) → member i (pin_ids d) ≡ false → get i d ≡ none
unfolding get
get_absent i [] h = refl
get_absent i (e ∷ d) h = ground (arith, get_absent i d)

member-moved_pins :
    (i : String) (mine theirs : Dict String) (is : List String)
    → member i (moved_pins mine theirs is)
      ≡ (member i is && not (same_text (get i mine) (get i theirs)))
unfolding moved_pins
member-moved_pins i mine theirs [] = refl
member-moved_pins i mine theirs (j ∷ is) = elim (Bool-cases (i == j)) [
  | inl same ↦
      rw ((eq_iff i j).0 same) (ground (arith, member-moved_pins j mine theirs is, eq_iff j j))
  | inr differs ↦ ground (arith, member-moved_pins i mine theirs is)
]

-- An artifact is listed exactly if the pins that the two views have for it differ, where a view may
-- have none.
pub member-divergence_from :
    (v w : ContextView) (i : String)
    → member i (divergence_from v w) ≡ not (same_text (get i v.version_pins) (get i w.version_pins))
unfolding divergence_from
member-divergence_from v w i =
    member-moved_pins i v.version_pins w.version_pins
      (sorted_unique (λ s. s) (pin_ids v.version_pins ++ pin_ids w.version_pins))
    ∙ rw (member-sorted_unique i (pin_ids v.version_pins ++ pin_ids w.version_pins)) (
        ground (
          arith,
          member-append i (pin_ids v.version_pins) (pin_ids w.version_pins),
          get_absent i v.version_pins,
          get_absent i w.version_pins,
        ))
