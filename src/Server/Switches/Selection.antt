-- ===== src/Server/Switches/Selection.antt =====
-- The choice of SwitchedAction.get_uninitialized_action (pysoa/server/action/switched.py).
use pysoa.Prelude.{
  ◌≡◌, ◌≢◌, refl, ◌∙◌, ap, sym, Option-cases, Bool, true, false, ◌&&◌, Option, none, some, [], ◌∷◌,
  if◌then◌else◌, arith, inl, inr, ltb, length,
}
use pysoa.Server.Switches.{
  SwitchObject, with_int, with_value, default_action, no_switch, SwitchSet, has_member, is_default,
  ActionMap, all_switches, valid_map, or_else, select_action, get_uninitialized_action,
}

-- The number that a switch stands for is one of the request's switches, and the switch is true.
abbrev pub is_on : SwitchSet → SwitchObject → Bool
is_on set (with_int truth n) = truth && has_member set n
is_on set (with_value truth n) = truth && has_member set n
is_on set (default_action d) = false
is_on set no_switch = false

module _ {A : Type 0} where
  -- the action of the first item whose switch is on
  abbrev pub first_on : SwitchSet → ActionMap A → Option A
  first_on set [] = none
  first_on set ((switch, action) ∷ rest) =
      if is_on set switch then some action else first_on set rest

  -- the action of the last item with the default marker
  abbrev pub last_default : ActionMap A → Option A
  last_default [] = none
  last_default ((switch, action) ∷ rest) =
      or_else (last_default rest) (if is_default switch then some action else none)

  -- the action of the last item without it
  abbrev pub last_plain : ActionMap A → Option A
  last_plain [] = none
  last_plain ((switch, action) ∷ rest) =
      or_else (last_plain rest) (if is_default switch then none else some action)

  select_action-eq :
      (set : SwitchSet) (default last : Option A) (actions : ActionMap A)
      → all_switches actions ≡ true
      → select_action set default last actions
        ≡ or_else
            (first_on set actions)
            (or_else (or_else (last_default actions) default) (or_else (last_plain actions) last))
  unfolding select_action all_switches
  select_action-eq set default last [] valid = refl
  select_action-eq set default last ((with_int truth n, action) ∷ rest) valid =
      ground (arith, select_action-eq set default (some action) rest)
  select_action-eq set default last ((with_value truth n, action) ∷ rest) valid =
      ground (arith, select_action-eq set default (some action) rest)
  select_action-eq set default last ((default_action d, action) ∷ rest) valid =
      ground (arith, select_action-eq set (some action) last rest)
  select_action-eq set default last ((no_switch, action) ∷ rest) valid = ground arith

  or_else-some : (o p : Option A) → (o ≡ none → p ≢ none) → or_else o p ≢ none
  or_else-some none p h = h refl
  or_else-some (some a) p h = cc

  or_else-none : (o : Option A) → or_else o none ≡ o
  or_else-none none = refl
  or_else-none (some a) = refl

  some_action :
      (actions : ActionMap A)
      → ltb (length actions) 1 ≡ false
      → or_else (last_default actions) (last_plain actions) ≢ none
  some_action [] h = absurd (ground arith)
  some_action ((default_action d, action) ∷ rest) h =
      or_else-some (or_else (last_default rest) (some action)) _
        (λ missing. absurd (or_else-some (last_default rest) (some action) (λ _. cc) missing))
  some_action ((_, action) ∷ rest) h =
      or_else-some (or_else (last_default rest) none) _
        (λ _. or_else-some (last_plain rest) (some action) (λ _. cc))

  -- A SwitchedAction with a valid map always finds an action: that of the first item whose switch
  -- is on; if none is, that of the last item marked as the default, wherever it stands; and if none
  -- is marked, that of the last item.
  pub get_uninitialized_action-eq :
      (actions : ActionMap A) (set : SwitchSet)
      → valid_map actions ≡ true
      → (get_uninitialized_action actions set
          ≡ or_else (first_on set actions) (or_else (last_default actions) (last_plain actions)))
        × ((a : A) × (get_uninitialized_action actions set ≡ some a))
  unfolding get_uninitialized_action valid_map
  get_uninitialized_action-eq actions set valid =
      let chosen = or_else (last_default actions) (last_plain actions) in
      let rule : select_action set none none actions ≡ or_else (first_on set actions) chosen =
        select_action-eq set none none actions (ground arith)
        ∙ ap (or_else (first_on set actions))
            (rw (or_else-none (last_default actions), or_else-none (last_plain actions))) in
      let present =
        or_else-some (first_on set actions) chosen (λ _. some_action actions (ground arith)) in
      (
        rule,
        elim (Option-cases (select_action set none none actions)) [
          | inl missing ↦ absurd (present (sym rule ∙ missing))
          | inr found ↦ found
        ],
      )
