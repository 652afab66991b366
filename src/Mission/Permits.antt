-- ===== src/Mission/Permits.antt =====
-- What the searches of a program of models/mission.py find.
use runtime_contracts.Prelude.{
  raise, String, true, false, List, [], ◌∷◌, map, Option, some, member, string_eq, ◌≡◌, refl, subst,
  ◌==◌, arith, eq_iff, In, here, there, Bool-cases, inl, inr, ok,
}
use runtime_contracts.Mission.Program.{State, Transition, MissionProgram, Fault, Refusal, refused}
use runtime_contracts.Mission.Construct.{terminal_ids}
use runtime_contracts.Mission.Lookup.{find_state, find_permitting, moves, require}
use runtime_contracts.Mission.WellFormed.{AreNew}

pub find_permitting-In :
    (from to : String) (i : Option String) (ts : List Transition) {t : Transition}
    → find_permitting from to i ts ≡ some t
    → In t ts × (moves from to i t ≡ true)
unfolding find_permitting
find_permitting-In from to i [] h = cc
find_permitting-In from to i (u ∷ us) {t} h = elim (Bool-cases (moves from to i u)) [
  | inl e ↦
      let same : u ≡ t = ground arith in
      (subst (λ x. In x (u ∷ us)) same here, subst (λ x. moves from to i x ≡ true) same e)
  | inr e ↦ let (m, q) = find_permitting-In from to i us {t = t} (ground arith) in (there m, q)
]

-- `require` returns a declared transition that makes the move under its name.
pub require-In :
    (p : MissionProgram) (from to : String) (i : Option String) {t : Transition}
    → require p from to i ≡ ok t
    → In t p.transitions × (moves from to i t ≡ true)
unfolding require
require-In p from to i h = find_permitting-In from to i p.transitions (ground arith)

-- What is not permitted is refused.
pub require-refused :
    (p : MissionProgram) (from to : String) (i : Option String) {f : Fault}
    → require p from to i ≡ raise f
    → (r : Refusal) × (f ≡ refused r)
unfolding require
require-refused p from to i h = (Refusal.not_permitted, ground arith)

pub find_state_total :
    (i : String) (ss : List State)
    → member i (map (λ s. s.state_id) ss) ≡ true
    → (s : State) × (find_state i ss ≡ ok s)
unfolding find_state
find_state_total i [] h = cc
find_state_total i (s ∷ ss) h = elim (Bool-cases (s.state_id == i)) [
  | inl e ↦ (s, rw e)
  | inr e ↦
      let (u, q) =
        find_state_total i ss (ground (arith, eq_iff i s.state_id, eq_iff s.state_id i)) in
      (u, rw e q)
]

-- No two states share an id. The constructor does not check this.
abbrev pub AreDistinct : List State → Type 0
AreDistinct [] = Unit
AreDistinct (s ∷ ss) = (member s.state_id (map (λ u. u.state_id) ss) ≡ false) × AreDistinct ss

terminal_ids-absent :
    (i : String) (ss : List State)
    → member i (map (λ u. u.state_id) ss) ≡ false
    → member i (terminal_ids ss) ≡ false
unfolding terminal_ids
terminal_ids-absent i [] h = refl
terminal_ids-absent i (s ∷ ss) h = ground (arith, terminal_ids-absent i ss)

-- Where state ids are distinct, a state is terminal if its id is among the terminal ids.
pub find_state-terminal :
    (i : String) (ss : List State) {s : State}
    → AreDistinct ss
    → find_state i ss ≡ ok s
    → s.terminal ≡ member i (terminal_ids ss)
unfolding find_state terminal_ids
find_state-terminal i [] d h = cc
find_state-terminal i (u ∷ us) {s} d h = ground (
  arith,
  eq_iff i u.state_id,
  eq_iff u.state_id i,
  terminal_ids-absent i us,
  find_state-terminal i us {s = s} d.1,
)

-- Where ids are new to one another, the transition of an id is the one that is found.
find_permitting_self :
    (seen : List String) (from to i : String) (ts : List Transition) {t : Transition}
    → AreNew seen ts
    → In t ts
    → moves from to (some i) t ≡ true
    → (member i seen ≡ false) × (find_permitting from to (some i) ts ≡ some t)
unfolding find_permitting
find_permitting_self seen from to i [] d m q = elim m [ ]
find_permitting_self seen from to i (u ∷ us) d here q =
    (ground (arith, eq_iff u.transition_id i), ground arith)
find_permitting_self seen from to i (u ∷ us) d (there m) q =
    let (fresh, found) = find_permitting_self (u.transition_id ∷ seen) from to i us d.1 m q in
    ground (arith, eq_iff u.transition_id i, eq_iff i u.transition_id)

pub require_self :
    (p : MissionProgram) (from to i : String) {t : Transition}
    → AreNew [] p.transitions
    → In t p.transitions
    → moves from to (some i) t ≡ true
    → require p from to (some i) ≡ ok t
unfolding require
require_self p from to i d m q =
    rw ((find_permitting_self [] from to i p.transitions d m q).1, require)
