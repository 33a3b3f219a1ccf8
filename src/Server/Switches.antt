-- ===== src/Server/Switches.antt =====
-- pysoa/server/internal/types.py and pysoa/server/action/switched.py: switches, the set of a
-- request's switches, and the action that defers to another one by them.
pub mod Selection
use pysoa.Prelude.{
  ℕ, ◌≡◌, Bool, true, false, not, ◌&&◌, ◌||◌, Option, none, some, List, [], ◌∷◌, if◌then◌else◌, ltb,
  length, ℤ, pos, negsuc, eqz,
}

-- What may stand for a switch: an object with `__int__`, one whose `value` has it, the marker
-- SwitchedAction.DEFAULT_ACTION, whose `__int__` is a negative number taken from its address, or
-- an object of none of these kinds. `truth` is the object's truth value.
pub data SwitchObject : Type 0 where
  with_int : (truth : Bool) → ℤ → SwitchObject
  with_value : (truth : Bool) → ℤ → SwitchObject
  default_action : ℕ → SwitchObject
  no_switch : SwitchObject

-- get_switch: `none` is the TypeError
unfoldable pub get_switch : SwitchObject → Option ℤ
get_switch (with_int truth n) = some n
get_switch (with_value truth n) = some n
get_switch (default_action d) = some (negsuc d)
get_switch no_switch = none

unfoldable pub is_switch : SwitchObject → Bool
unfolding get_switch
is_switch item = elim (get_switch item) [ some _ ↦ true | none ↦ false ]

-- A frozen set of integers, by its members in some order.
abbrev pub SwitchSet : Type 0
SwitchSet = List ℤ

unfoldable pub has_member : SwitchSet → ℤ → Bool
has_member [] n = false
has_member (m ∷ set) n = eqz m n || has_member set n

-- SwitchSet(switches): `none` is the TypeError of a member that is no switch
unfoldable pub make_switch_set : List SwitchObject → Option SwitchSet
unfolding get_switch has_member
make_switch_set [] = some []
make_switch_set (item ∷ items) = elim (make_switch_set items) [
  | none ↦ none
  | some set ↦ elim (get_switch item) [
    | none ↦ none
    | some n ↦ some (if has_member set n then set else n ∷ set)
  ]
]

-- `switch in self`: `none` is the TypeError of get_switch
unfoldable pub is_active : SwitchSet → SwitchObject → Option Bool
unfolding get_switch has_member
is_active set switch = elim (get_switch switch) [ none ↦ none | some n ↦ some (has_member set n) ]

-- `switch == self.DEFAULT_ACTION`
abbrev pub is_default : SwitchObject → Bool
is_default (default_action d) = true
is_default _ = false

-- `bool(switch)`
abbrev pub truth_of : SwitchObject → Bool
truth_of (with_int truth n) = truth
truth_of (with_value truth n) = truth
truth_of (default_action d) = true
truth_of no_switch = true

-- `switch and action_request.switches.is_active(switch)`: the second is asked only of a true switch
unfoldable pub selects : SwitchSet → SwitchObject → Option Bool
unfolding is_active
selects set switch = if truth_of switch then is_active set switch else some false

-- switch_to_action_map. An action is a class or a function, which is true in Python.
abbrev pub ActionMap : Type 0 → Type 0
ActionMap A = List (SwitchObject × A)

unfoldable pub all_switches : {A : Type 0} → ActionMap A → Bool
unfolding is_switch
all_switches [] = true
all_switches ((switch, action) ∷ rest) = is_switch switch && all_switches rest

-- The metaclass's test of the map. That an item is a pair with a callable is in the map's type.
unfoldable pub valid_map : {A : Type 0} → ActionMap A → Bool
unfolding all_switches
valid_map actions = not (ltb (length actions) 2) && all_switches actions

abbrev pub or_else : {A : Type 0} → Option A → Option A → Option A
or_else (some a) other = some a
or_else none other = other

-- The loop over the map, with the default action and the last other action that it has met. Its
-- `none` is a TypeError, of a switch that is none or of a map with no action.
unfoldable pub select_action :
    {A : Type 0} → SwitchSet → Option A → Option A → ActionMap A → Option A
unfolding selects
select_action set default last [] = or_else default last
select_action set default last ((switch, action) ∷ rest) = elim (is_default switch) [
  | true ↦ select_action set (some action) last rest
  | false ↦ elim (selects set switch) [
    | none ↦ none
    | some true ↦ some action
    | some false ↦ select_action set default (some action) rest
  ]
]

unfoldable pub get_uninitialized_action : {A : Type 0} → ActionMap A → SwitchSet → Option A
unfolding select_action
get_uninitialized_action actions set = select_action set none none actions
