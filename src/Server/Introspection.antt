-- ===== src/Server/Introspection.antt =====
-- IntrospectionAction of pysoa/server/action/introspection.py: which actions it describes and under
-- which names. A text is the row of its code points; the descriptions are not modelled.
pub mod Reading
pub mod Names
use pysoa.Prelude.{
  ℕ, ◌+◌, Bool, true, false, not, ◌&&◌, ◌||◌, Option, none, some, List, [], ◌∷◌, ◌++◌,
  if◌then◌else◌, is_empty, ℤ, pos, negsuc, eqz, Bytes, codes, bytes_eq, is_digit, leb, ◌==◌,
  decimal, parse_int, run_of, rest_of, strip_prefix,
}
use pysoa.Server.Switches.{
  SwitchObject, with_int, default_action, get_switch, is_default, ActionMap,
}

-- `[DEFAULT]` and `[switch:n]`
pub data Part : Type 0 where
  default_part : Part
  switch_part : ℤ → Part

-- '{}'.format(n)
abbrev pub printed : ℤ → Bytes
printed (pos n) = decimal n
printed (negsuc n) = b'-' ∷ decimal (n + 1)

-- '{}[DEFAULT]'.format(action_name) and '{}[switch:{}]'.format(action_name, n)
abbrev pub text_of : Bytes → Part → Bytes
text_of name default_part = name ++ codes "[DEFAULT]"
text_of name (switch_part n) = name ++ (codes "[switch:" ++ (printed n ++ codes "]"))

-- [a-zA-Z0-9_-]
abbrev pub is_name_char : ℕ → Bool
is_name_char c =
    (leb b'a' c && leb c b'z') || (leb b'A' c && leb c b'Z') || is_digit c || c == b'_' || c == b'-'

-- `$`, which is also there before a last line feed
abbrev pub is_end : Bytes → Bool
is_end [] = true
is_end (c ∷ []) = c == 10
is_end (c ∷ d ∷ s) = false

-- what a group is, if the text ends behind it
abbrev pub at_end : Option Part → Bytes → Option Part
at_end part rest = if is_end rest then part else none

-- int(...) of the digits, if a bracket closes behind them
abbrev pub after_digits : Option ℤ → Option Bytes → Option Part
after_digits (some n) (some rest) = at_end (some (switch_part n)) rest
after_digits _ _ = none

-- `\d+\]$`, on texts whose digits are ASCII digits
abbrev pub match_digits : Bytes → Option Part
match_digits s =
    if is_empty (run_of is_digit s)
    then none
    else after_digits (parse_int (run_of is_digit s))
        (strip_prefix (codes "]") (rest_of is_digit s))

abbrev pub match_switch_part : Option Bytes → Option Part
match_switch_part none = none
match_switch_part (some rest) = match_digits rest

abbrev pub match_default : Option Bytes → Bytes → Option Part
match_default (some rest) s = at_end (some default_part) rest
match_default none s = match_switch_part (strip_prefix (codes "[switch:") s)

abbrev pub match_part : Bytes → Option Part
match_part s = match_default (strip_prefix (codes "[DEFAULT]") s) s

abbrev pub named_part : Bytes → Option Part → Option (Bytes × Part)
named_part name none = none
named_part [] (some part) = none
named_part (c ∷ name) (some part) = some (c ∷ name, part)

-- SWITCHED_ACTION_RE.match: the groups `action` and `switch` or `default`. As no name has a bracket,
-- the name is all of the longest run of its characters.
unfoldable pub match_switched_action : Bytes → Option (Bytes × Part)
match_switched_action s = named_part (run_of is_name_char s) (match_part (rest_of is_name_char s))

-- What an item of action_class_map is: a switched action, or any other.
pub data ActionClass (A : Type 0) : Type 0 where
  switched : ActionMap A → ActionClass A
  plain : A → ActionClass A

-- A name that is described, and its action.
abbrev pub Named : Type 0 → Type 0
Named A = Bytes × A

abbrev with_switch :
    {A : Type 0} → Bytes → A → Option ℤ → Option (List (Named A)) → Option (List (Named A))
with_switch name action (some n) (some rest) = some ((text_of name (switch_part n), action) ∷ rest)
with_switch name action _ _ = none

abbrev with_default : {A : Type 0} → Bytes → A → Option (List (Named A)) → Option (List (Named A))
with_default name action none = none
with_default name action (some rest) = some ((text_of name default_part, action) ∷ rest)

-- _iterate_switched_actions, with `found_default`; `none` is the TypeError of get_switch
unfoldable pub iterate_switched_actions :
    {A : Type 0} → Bytes → Bool → ActionMap A → Option (List (Named A))
iterate_switched_actions name found [] = some []
iterate_switched_actions name found ((s, action) ∷ rest) =
    let behind = iterate_switched_actions name found rest in
    let behind_default = iterate_switched_actions name true rest in
    if is_default s
    then with_default name action behind_default
    else if not found && is_empty rest
    then with_default name action (some [])
    else with_switch name action (get_switch s) behind

-- switch == matching_switch, for an integer; an object with `__int__` is taken for an integer
abbrev pub equals : ℤ → SwitchObject → Bool
equals n (with_int truth m) = eqz n m
equals n _ = false

-- `for matching_switch, action_class in ...`: where nothing matches, the last action is left
abbrev pub match_switch : {A : Type 0} → ℤ → A → ActionMap A → A
match_switch n left [] = left
match_switch n left ((s, action) ∷ rest) = if equals n s then action else match_switch n action rest

-- switch_to_action_map[-1][1]
abbrev pub last_action : {A : Type 0} → A → ActionMap A → A
last_action left [] = left
last_action left ((s, action) ∷ rest) = last_action action rest

-- What is described: one action under the name that was asked for, or those of a switched action.
pub data Described (A : Type 0) : Type 0 where
  one : A → Described A
  several : Option (List (Named A)) → Described A
  not_defined : Described A

-- of a switched action; `left` is its own class, which stays only for an empty map, which the
-- metaclass refuses
abbrev pub describe_switched : {A : Type 0} → A → Bytes → Option Part → ActionMap A → Described A
describe_switched left name none actions = several (iterate_switched_actions name false actions)
describe_switched left name (some default_part) actions = one (last_action left actions)
describe_switched left name (some (switch_part n)) actions =
    if eqz n (pos 0)
    then several (iterate_switched_actions name false actions)
    else one (match_switch n left actions)

abbrev pub describe_class : {A : Type 0} → A → Bytes → Option Part → ActionClass A → Described A
describe_class left name part (switched actions) = describe_switched left name part actions
describe_class left name part (plain action) = one action

module _ {A : Type 0} (class_map : Bytes → Option (ActionClass A))
    (introspect status switched_class : A) where
  -- what is described of a name, by what action_class_map has for it
  abbrev pub of_class : Bytes → Option Part → Option (ActionClass A) → Described A
  of_class name part (some action_class) = describe_class switched_class name part action_class
  of_class name part none =
      if bytes_eq name (codes "introspect")
      then one introspect
      else if bytes_eq name (codes "status")
      then one status
      else not_defined

  -- `if match`
  abbrev pub get_named_action : Bytes → Option (Bytes × Part) → Described A
  get_named_action request_name none = of_class request_name none (class_map request_name)
  get_named_action request_name (some (name, part)) = of_class name (some part) (class_map name)

  -- _get_response_for_single_action
  unfoldable pub get_single_action : Bytes → Described A
  unfolding match_switched_action
  get_single_action request_name =
      get_named_action request_name (match_switched_action request_name)

abbrev described_names : {A : Type 0} → Bytes → ActionClass A → Option (List (Named A))
described_names name (switched actions) = iterate_switched_actions name false actions
described_names name (plain action) = some ((name, action) ∷ [])

abbrev joined :
    {A : Type 0} → Option (List (Named A)) → Option (List (Named A)) → Option (List (Named A))
joined (some names) (some more) = some (names ++ more)
joined _ _ = none

abbrev described_all : {A : Type 0} → List (Bytes × ActionClass A) → Option (List (Named A))
described_all [] = some []
described_all ((name, action_class) ∷ rest) =
    joined (described_names name action_class) (described_all rest)

abbrev is_defined : {A : Type 0} → Bytes → List (Bytes × ActionClass A) → Bool
is_defined name [] = false
is_defined name ((n, action_class) ∷ rest) = bytes_eq n name || is_defined name rest

abbrev unless_defined : {A : Type 0} → Bytes → A → List (Bytes × ActionClass A) → List (Named A)
unless_defined name action class_map = if is_defined name class_map then [] else (name, action) ∷ []

-- _get_response_for_all_actions: what it describes, in the order in which it does, before the names
-- are sorted
unfoldable pub get_all_actions :
    {A : Type 0} (introspect status : A) → List (Bytes × ActionClass A) → Option (List (Named A))
get_all_actions introspect status class_map =
    joined
      (some (
        unless_defined (codes "introspect") introspect class_map
        ++ unless_defined (codes "status") status class_map))
      (described_all class_map)
