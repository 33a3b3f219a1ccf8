-- ===== src/Server/Introspection/Names.antt =====
-- The names that introspection gives to the actions of a switched action, and what it finds under
-- them (pysoa/server/action/introspection.py).
use pysoa.Prelude.{
  zero, suc, ◌≡◌, refl, Bool, false, Option, some, List, [], ◌∷◌, All, map, ℤ, pos, negsuc, eqz,
  eqz_refl, Bytes, arith,
}
use pysoa.Server.Switches.{with_int, with_value, no_switch, default_action, get_switch, ActionMap}
use pysoa.Server.Introspection.{
  Part, default_part, switch_part, text_of, iterate_switched_actions, one, describe_switched,
  ActionClass, switched, get_single_action,
}
use pysoa.Server.Introspection.Reading.{IsName, IsReadable, match_switched_action-text_of}

abbrev pub IsPositive : ℤ → Type 0
IsPositive (pos zero) = ⊥
IsPositive (pos (suc n)) = Unit
IsPositive (negsuc n) = ⊥

not_zero : (n : ℤ) → IsPositive n → eqz n (pos 0) ≡ false
not_zero (pos zero) h = absurd h
not_zero (pos (suc n)) h = ground arith
not_zero (negsuc n) h = absurd h

readable : (n : ℤ) → IsPositive n → IsReadable (switch_part n)
readable (pos n) h = tt
readable (negsuc n) h = absurd h

abbrev IsOther : ℤ → Part → Type 0
IsOther n default_part = Unit
IsOther n (switch_part m) = (eqz m n ≡ false) × (eqz m (pos 0) ≡ false)

module _ {A : Type 0} where
  -- no switch of the map is this number
  abbrev pub Without : ℤ → ActionMap A → Type 0
  Without n [] = Unit
  Without n ((with_int truth m, action) ∷ rest) = (eqz m n ≡ false) × Without n rest
  Without n (_ ∷ rest) = Without n rest

  -- All switches but the last are integers above 0 and different from each other; the last is any
  -- integer, or the default.
  abbrev pub IsPlain : ActionMap A → Type 0
  IsPlain [] = ⊥
  IsPlain ((with_int truth n, action) ∷ []) = Unit
  IsPlain ((default_action d, action) ∷ []) = Unit
  IsPlain ((with_int truth n, action) ∷ next ∷ rest) =
      IsPositive n × Without n (next ∷ rest) × IsPlain (next ∷ rest)
  IsPlain (_ ∷ rest) = ⊥

  -- What is described under the name of a part is this action.
  abbrev pub Finds : ActionMap A → Part × A → Type 0
  Finds actions (part, action) =
      (left : A) (name : Bytes) → describe_switched left name (some part) actions ≡ one action

  -- each action under its switch, and the last as the default
  abbrev pub names_of : ActionMap A → List (Part × A)
  names_of [] = []
  names_of ((s, action) ∷ []) = (default_part, action) ∷ []
  names_of ((with_int truth n, action) ∷ next ∷ rest) =
      (switch_part n, action) ∷ names_of (next ∷ rest)
  names_of (_ ∷ next ∷ rest) = []

  abbrev pub texts : Bytes → List (Part × A) → List (Bytes × A)
  texts name names = map (λ x. (text_of name x.0, x.1)) names

  names_of-eq :
      (name : Bytes) (actions : ActionMap A)
      → IsPlain actions
      → iterate_switched_actions name false actions ≡ some (texts name (names_of actions))
  unfolding iterate_switched_actions get_switch
  names_of-eq name [] p = absurd p
  names_of-eq name ((with_int truth n, action) ∷ []) p = refl
  names_of-eq name ((default_action d, action) ∷ []) p = refl
  names_of-eq name ((with_int truth n, action) ∷ next ∷ rest) p =
      rw (names_of-eq name (next ∷ rest) p.2) refl
  names_of-eq name ((with_value t m, action) ∷ rest) p = absurd p
  names_of-eq name ((default_action d, action) ∷ next ∷ rest) p = absurd p
  names_of-eq name ((no_switch, action) ∷ rest) p = absurd p

  names_of-IsReadable :
      (actions : ActionMap A)
      → IsPlain actions
      → All (λ (x : Part × A). IsReadable x.0) (names_of actions)
  names_of-IsReadable [] p = absurd p
  names_of-IsReadable ((s, action) ∷ []) p = (tt, tt)
  names_of-IsReadable ((with_int truth n, action) ∷ next ∷ rest) p =
      (readable n p.0, names_of-IsReadable (next ∷ rest) p.2)
  names_of-IsReadable ((with_value t m, action) ∷ next ∷ rest) p = absurd p
  names_of-IsReadable ((default_action d, action) ∷ next ∷ rest) p = absurd p
  names_of-IsReadable ((no_switch, action) ∷ next ∷ rest) p = absurd p

  others :
      (n : ℤ) (actions : ActionMap A)
      → IsPlain actions
      → Without n actions
      → All (λ (name : Part × A). IsOther n name.0) (names_of actions)
  others n [] p w = tt
  others n ((s, action) ∷ []) p w = (tt, tt)
  others n ((with_int truth m, action) ∷ next ∷ rest) p w =
      ((w.0, not_zero m p.0), others n (next ∷ rest) p.2 w.1)
  others n ((with_value t m, action) ∷ rest) p w = absurd p
  others n ((default_action d, action) ∷ next ∷ rest) p w = absurd p
  others n ((no_switch, action) ∷ rest) p w = absurd p

  Finds-behind :
      (truth : Bool) (n : ℤ) (action : A) (actions : ActionMap A) (names : List (Part × A))
      → All (Finds actions) names
      → All (λ (name : Part × A). IsOther n name.0) names
      → All (Finds ((with_int truth n, action) ∷ actions)) names
  Finds-behind truth n action actions [] h o = tt
  Finds-behind truth n action actions ((default_part, found) ∷ names) h o =
      (λ left name. h.0 action name, Finds-behind truth n action actions names h.1 o.1)
  Finds-behind truth n action actions ((switch_part m, found) ∷ names) h o = (
    λ left name. rw (o.0.1, o.0.0) (rw o.0.1 at h.0 action name),
    Finds-behind truth n action actions names h.1 o.1,
  )

  names_of-Finds :
      (actions : ActionMap A) → IsPlain actions → All (Finds actions) (names_of actions)
  names_of-Finds [] p = absurd p
  names_of-Finds ((s, action) ∷ []) p = (λ left name. refl, tt)
  names_of-Finds ((with_int truth n, action) ∷ next ∷ rest) p = (
    λ left name. rw (not_zero n p.0, eqz_refl n) refl,
    Finds-behind truth n action (next ∷ rest) (names_of (next ∷ rest))
        (names_of-Finds (next ∷ rest) p.2) (others n (next ∷ rest) p.2 p.1),
  )
  names_of-Finds ((with_value t m, action) ∷ rest) p = absurd p
  names_of-Finds ((default_action d, action) ∷ next ∷ rest) p = absurd p
  names_of-Finds ((no_switch, action) ∷ rest) p = absurd p

module _ {A : Type 0} (class_map : Bytes → Option (ActionClass A))
    (introspect status switched_class : A) where
  -- Asking for this name gives a description of this action.
  abbrev pub IsDescribed : Bytes × A → Type 0
  IsDescribed (text, action) =
      get_single_action class_map introspect status switched_class text ≡ one action

  found_by_name :
      (name : Bytes) (actions : ActionMap A) (names : List (Part × A))
      → IsName name
      → class_map name ≡ some (switched actions)
      → All (Finds actions) names
      → All (λ (x : Part × A). IsReadable x.0) names
      → All IsDescribed (texts name names)
  unfolding get_single_action
  found_by_name name actions [] n c f r = tt
  found_by_name name actions ((part, action) ∷ names) n c f r = (
    rw (match_switched_action-text_of name part n r.0, c) (f.0 switched_class name),
    found_by_name name actions names n c f.1 r.1,
  )

  -- If the switches of a switched action are integers above 0 and different from each other, but for
  -- the last, which may be any integer or the default, and its name is one that the regular
  -- expression takes, then introspection lists each of its actions once, the last as the default, and
  -- when it is asked for a name that it lists, it describes the action that it lists there.
  pub iterate_switched_actions-Finds :
      (name : Bytes) (actions : ActionMap A)
      → IsName name
      → IsPlain actions
      → class_map name ≡ some (switched actions)
      → (iterate_switched_actions name false actions ≡ some (texts name (names_of actions)))
        × All IsDescribed (texts name (names_of actions))
  iterate_switched_actions-Finds name actions n p c = (
    names_of-eq name actions p,
    found_by_name name actions (names_of actions) n c (names_of-Finds actions p)
        (names_of-IsReadable actions p),
  )
