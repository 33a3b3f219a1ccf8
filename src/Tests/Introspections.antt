-- ===== src/Tests/Introspections.antt =====
-- The names of the actions of a switched action at a concrete input.
use pysoa.Prelude.{
  ℕ, ◌≡◌, refl, true, false, Option, some, none, [], ◌∷◌, All, pos, negsuc, Bytes, codes, bytes_eq,
  if◌then◌else◌, parse_int, run_of, rest_of, strip_prefix,
}
use pysoa.Server.Switches.{with_int, default_action, get_switch, ActionMap}
use pysoa.Server.Introspection.{
  default_part, switch_part, text_of, iterate_switched_actions, one, get_single_action,
  get_all_actions, plain, switched, not_defined, ActionClass, match_switched_action,
}
use pysoa.Server.Introspection.Names.{IsDescribed, names_of, texts, iterate_switched_actions-Finds}

abbrev user : Bytes
user = codes "user"

abbrev versions : ActionMap ℕ
versions = (with_int true (pos 3), 30) ∷ (with_int true (pos 4), 40) ∷ (default_action 7, 70) ∷ []

-- a server that has the action `user` only
abbrev only_user : ActionMap ℕ → Bytes → Option (ActionClass ℕ)
only_user actions name = if bytes_eq name user then some (switched actions) else none

iterate_switched_actions-Finds_example :
    (iterate_switched_actions user false versions ≡ some (texts user (names_of versions)))
    × All (IsDescribed (only_user versions) 1 2 3) (texts user (names_of versions))
iterate_switched_actions-Finds_example =
    iterate_switched_actions-Finds (only_user versions) 1 2 3 user versions
      (refl, (refl, (refl, (refl, tt)))) (tt, (refl, tt), (tt, tt, tt)) refl

-- A map whose default stands first: its name is listed for one action and describes another.
abbrev default_first : ActionMap ℕ
default_first = (default_action 7, 70) ∷ (with_int true (pos 3), 30) ∷ []

default_first_listed :
    iterate_switched_actions user false default_first
    ≡ some ((codes "user[DEFAULT]", 70) ∷ (text_of user (switch_part (pos 3)), 30) ∷ [])
unfolding iterate_switched_actions get_switch
default_first_listed = refl

default_first_described :
    get_single_action (only_user default_first) 1 2 3 (codes "user[DEFAULT]") ≡ one 30
unfolding get_single_action match_switched_action run_of rest_of strip_prefix
default_first_described = refl

third_described : get_single_action (only_user versions) 1 2 3 (codes "user[switch:4]") ≡ one 40
unfolding get_single_action match_switched_action run_of rest_of strip_prefix parse_int
third_described = refl

-- A negative switch is listed, but its name is not defined.
abbrev below_zero : ActionMap ℕ
below_zero = (with_int true (negsuc 2), 30) ∷ (default_action 7, 70) ∷ []

below_zero_listed :
    iterate_switched_actions user false below_zero
    ≡ some ((text_of user (switch_part (negsuc 2)), 30) ∷ (codes "user[DEFAULT]", 70) ∷ [])
unfolding iterate_switched_actions get_switch
below_zero_listed = refl

below_zero_not_defined :
    get_single_action (only_user below_zero) 1 2 3 (codes "user[switch:-3]") ≡ not_defined
unfolding get_single_action match_switched_action run_of rest_of strip_prefix
below_zero_not_defined = refl

all_described :
    get_all_actions 1 2 ((codes "status", plain 5) ∷ (user, switched versions) ∷ [])
    ≡ some (
        (codes "introspect", 1)
        ∷ (codes "status", 5)
        ∷ (text_of user (switch_part (pos 3)), 30)
        ∷ (text_of user (switch_part (pos 4)), 40)
        ∷ (text_of user default_part, 70)
        ∷ [])
unfolding get_all_actions iterate_switched_actions get_switch
all_described = refl
