-- ===== src/Logging/Context/Nesting.antt =====
-- Sets and clears of PySOALogContextFilter, one within another.
use pysoa.Prelude.{◌≡◌, refl, ap, sym, ◌∙◌, String, Option, none, some, List, [], ◌∷◌, ◌++◌}
use pysoa.Logging.Context.{
  LogContext, Stack, append_to, pop, top, ContextFilter, Operation, set_context, clear_context,
  set_action, clear_action, apply, apply_all, attributes,
}

-- Every set is cleared, and what is set between the two is cleared between them.
pub data Nested : List Operation → Type 0 where
  nothing : Nested []
  context :
      (c : LogContext) (inner rest : List Operation)
      → Nested inner
      → Nested rest
      → Nested (set_context c ∷ (inner ++ clear_context ∷ rest))
  action :
      (a : String) (inner rest : List Operation)
      → Nested inner
      → Nested rest
      → Nested (set_action a ∷ (inner ++ clear_action ∷ rest))

-- a stack's elements, where None has none
abbrev elements : {A : Type 0} → Stack A → List A
elements none = []
elements (some value) = value

abbrev tail : {A : Type 0} → List A → List A
tail [] = []
tail (a ∷ value) = value

abbrev head : {A : Type 0} → List A → Option A
head [] = none
head (a ∷ value) = some a

abbrev Same : ContextFilter → ContextFilter → Type 0
Same f g =
    (elements f.contexts ≡ elements g.contexts)
    × (elements f.actions ≡ elements g.actions)
    × (f.service_name ≡ g.service_name)

elements-append_to : {A : Type 0} (a : A) (s : Stack A) → elements (append_to a s) ≡ a ∷ elements s
unfolding append_to
elements-append_to a none = refl
elements-append_to a (some value) = refl

elements-pop : {A : Type 0} (s : Stack A) → elements (pop s) ≡ tail (elements s)
unfolding pop
elements-pop none = refl
elements-pop (some []) = refl
elements-pop (some (a ∷ value)) = refl

top-elements : {A : Type 0} (s : Stack A) → top s ≡ head (elements s)
unfolding top
top-elements none = refl
top-elements (some []) = refl
top-elements (some (a ∷ value)) = refl

apply_all-append :
    (xs ys : List Operation) (f : ContextFilter)
    → apply_all (xs ++ ys) f ≡ apply_all ys (apply_all xs f)
unfolding apply_all
apply_all-append [] ys f = refl
apply_all-append (x ∷ xs) ys f = apply_all-append xs ys (apply x f)

popped :
    {A : Type 0} (a : A) (s t : Stack A)
    → elements s ≡ elements (append_to a t)
    → elements (pop s) ≡ elements t
popped a s t e = elements-pop s ∙ ap tail (e ∙ elements-append_to a t)

apply_all-Same :
    (operations : List Operation) (f : ContextFilter)
    → Nested operations
    → Same (apply_all operations f) f
unfolding apply_all apply
apply_all-Same _ f nothing = (refl, refl, refl)
apply_all-Same _ f (context c inner rest ni nr) =
    let within = apply_all inner (apply (set_context c) f) in
    let (contexts, actions, service) = apply_all-Same inner (apply (set_context c) f) ni in
    let (contexts', actions', service') = apply_all-Same rest (apply clear_context within) nr in
    rw (apply_all-append inner (clear_context ∷ rest) (apply (set_context c) f)) (
      contexts' ∙ popped c within.contexts f.contexts contexts,
      actions' ∙ actions,
      service' ∙ service,
    )
apply_all-Same _ f (action a inner rest ni nr) =
    let within = apply_all inner (apply (set_action a) f) in
    let (contexts, actions, service) = apply_all-Same inner (apply (set_action a) f) ni in
    let (contexts', actions', service') = apply_all-Same rest (apply clear_action within) nr in
    rw (apply_all-append inner (clear_action ∷ rest) (apply (set_action a) f)) (
      contexts' ∙ contexts,
      actions' ∙ popped a within.actions f.actions actions,
      service' ∙ service,
    )

attributes-Same : (f g : ContextFilter) → Same f g → attributes f ≡ attributes g
unfolding attributes
attributes-Same f g (contexts, actions, service) =
    let context = top-elements f.contexts ∙ ap head contexts ∙ sym (top-elements g.contexts) in
    let action_name = top-elements f.actions ∙ ap head actions ∙ sym (top-elements g.actions) in
    rw (context, action_name, service) refl

-- Whatever contexts and action names were set and then cleared, one within another, a record is given
-- the attributes that it would have been given before.
pub attributes-apply_all :
    (operations : List Operation) (f : ContextFilter)
    → Nested operations
    → attributes (apply_all operations f) ≡ attributes f
attributes-apply_all operations f nested = attributes-Same _ f (apply_all-Same operations f nested)
