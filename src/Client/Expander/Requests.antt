-- ===== src/Client/Expander/Requests.antt =====
-- The requests that Client._expand_objects of pysoa/client/client.py sends, round by round. `K` are
-- the hashes of values with their equality; what the services answer is the next round's objects.
pub mod Sets
pub mod Once
use pysoa.Prelude.{
  ℕ, String, Bool, true, false, not, ◌&&◌, ◌||◌, Option, none, some, List, [], ◌∷◌, ◌++◌, any,
  if◌then◌else◌, is_empty, str_eq, ℤ, eqz, pos,
}
use pysoa.Value.{
  Value, Items, Fields, Atom, atom, list, tuple, set, frozenset, dict, no_items, item, no_fields,
  field, null, bool, int, str, bytes, other,
}
use pysoa.Client.Expander.{Expansion, dotted}
use pysoa.Client.Expander.Objects.{get}

-- bool(value)
abbrev is_true_atom : Atom → Bool
is_true_atom null = false
is_true_atom (bool b) = b
is_true_atom (int n) = not (eqz n (pos 0))
is_true_atom (str s) = not (str_eq s "")
is_true_atom (bytes s) = not (is_empty s)
is_true_atom (other n) = true

abbrev has_items : Items → Bool
has_items no_items = false
has_items (item v items) = true

abbrev has_fields : Fields → Bool
has_fields no_fields = false
has_fields (field k v rest) = true

abbrev pub is_true : Value → Bool
is_true (atom a) = is_true_atom a
is_true (list items) = has_items items
is_true (tuple items) = has_items items
is_true (set atoms) = not (is_empty atoms)
is_true (frozenset atoms) = not (is_empty atoms)
is_true (dict entries) = has_fields entries

abbrev if_true : Option Value → Option Value
if_true none = none
if_true (some v) = if is_true v then some v else none

abbrev unless_there : Option Value → Option Value → Option Value
unless_there none source = source
unless_there (some there) source = none

-- the value that an expansion of an object is asked for with, if it is asked for
unfoldable pub wanted : Fields → Expansion → Option Value
wanted object expansion =
    unless_there (get expansion.destination_field object)
      (if_true (get expansion.source_field object))

-- request_instruction, its values a set
pub record Instruction (K : Type 0) : Type 0 where
  pub request_field : String
  pub values : List K
  pub object_nodes : List (Fields × Expansion)

-- pending_expansion_requests: by service and by action
abbrev pub Actions : Type 0 → Type 0
Actions K = List (String × Instruction K)

abbrev pub Pending : Type 0 → Type 0
Pending K = List (String × Actions K)

-- A request that is sent, with the objects that its response is for.
pub record Request (K : Type 0) : Type 0 where
  pub service : String
  pub action : String
  pub request_field : String
  pub values : List K
  pub object_nodes : List (Fields × Expansion)

-- expansion_requests_made, its newest entry first; all the entries of a key make up its set
abbrev pub Made : Type 0 → Type 0
Made K = List (String × List K)

abbrev pub made_for : {K : Type 0} → String → Made K → List K
made_for key [] = []
made_for key ((k, values) ∷ made) =
    if str_eq k key then values ++ made_for key made else made_for key made

-- '{}.{}.{}'.format(service_name, action_name, field)
abbrev pub request_key : String → String → String → String
request_key service action name = dotted service (dotted action name)

-- What a node's `expansions` hold.
abbrev pub Candidate : Type 0
Candidate = Fields × List Expansion

module _ {K : Type 0} (eq : K → K → Bool) where
  abbrev pub member : K → List K → Bool
  member v = any (eq v)

  abbrev pub add_value : K → List K → List K
  add_value v values = if member v values then values else v ∷ values

  -- values - old
  abbrev pub minus : List K → List K → List K
  minus [] old = []
  minus (v ∷ values) old = if member v old then minus values old else v ∷ minus values old

  abbrev pub ask_action : Fields → Expansion → K → Actions K → Actions K
  ask_action object expansion v [] =
      (
        expansion.action,
        record {
          request_field = expansion.request_field;
          values = v ∷ [];
          object_nodes = (object, expansion) ∷ [];
        },
      )
      ∷ []
  ask_action object expansion v ((action, instruction) ∷ actions) =
      if str_eq action expansion.action
      then (
        action,
        record instruction {
          values = add_value v instruction.values;
          object_nodes = instruction.object_nodes ++ (object, expansion) ∷ [];
        },
      )
        ∷ actions
      else (action, instruction) ∷ ask_action object expansion v actions

  abbrev pub ask : Fields → Expansion → K → Pending K → Pending K
  ask object expansion v [] = (expansion.service, ask_action object expansion v []) ∷ []
  ask object expansion v ((service, actions) ∷ pending) =
      if str_eq service expansion.service
      then (service, ask_action object expansion v actions) ∷ pending
      else (service, actions) ∷ ask object expansion v pending

  -- one request, unless all its values were asked for before
  abbrev pub ask_new : String → String → Instruction K → List K → Made K → List (Request K) × Made K
  ask_new service action i [] made = ([], made)
  ask_new service action i (v ∷ values) made = (
    record {
      service = service;
      action = action;
      request_field = i.request_field;
      values = v ∷ values;
      object_nodes = i.object_nodes;
    }
        ∷ [],
    (request_key service action i.request_field, v ∷ values) ∷ made,
  )

  unfoldable pub make_request : String → String → Instruction K → Made K → List (Request K) × Made K
  make_request service action i made =
      let old = made_for (request_key service action i.request_field) made in
      ask_new service action i (if is_empty old then i.values else minus i.values old) made

  abbrev pub make_actions : String → Actions K → Made K → List (Request K) × Made K
  make_actions service [] made = ([], made)
  make_actions service ((action, i) ∷ actions) made =
      let first = make_request service action i made in
      let rest = make_actions service actions first.1 in (first.0 ++ rest.0, rest.1)

  -- `for service_name, actions in six.iteritems(pending_expansion_requests)`
  unfoldable pub make_requests : Pending K → Made K → List (Request K) × Made K
  unfolding make_request
  make_requests [] made = ([], made)
  make_requests ((service, actions) ∷ pending) made =
      let first = make_actions service actions made in
      let rest = make_requests pending first.1 in (first.0 ++ rest.0, rest.1)

module _ {K : Type 0} (eq : K → K → Bool) (hash : Value → Option K) where
  -- `set.add` raises a TypeError for a value without a hash, which is `none`.
  abbrev pub ask_hashed : Fields → Expansion → Option K → Pending K → Option (Pending K)
  ask_hashed object expansion none pending = none
  ask_hashed object expansion (some v) pending = some (ask eq object expansion v pending)

  abbrev pub ask_wanted : Fields → Expansion → Option Value → Pending K → Option (Pending K)
  ask_wanted object expansion none pending = some pending
  ask_wanted object expansion (some value) pending =
      ask_hashed object expansion (hash value) pending

  -- `for expansion_node in expansion_nodes`
  unfoldable pub formulate_nodes : Fields → List Expansion → Option (Pending K) → Option (Pending K)
  unfolding wanted
  formulate_nodes object expansions none = none
  formulate_nodes object [] (some pending) = some pending
  formulate_nodes object (e ∷ expansions) (some pending) =
      formulate_nodes object expansions (ask_wanted object e (wanted object e) pending)

  -- `for object_to_expand, expansion_nodes in objects_to_expand`
  unfoldable pub formulate : List Candidate → Option (Pending K) → Option (Pending K)
  formulate [] pending = pending
  formulate ((object, expansions) ∷ objects) pending =
      formulate objects (formulate_nodes object expansions pending)

  -- the requests of a round, up to a TypeError
  abbrev pub round_of : Option (Pending K) → Made K → List (Request K) × Made K
  round_of none made = ([], made)
  round_of (some pending) made = make_requests eq pending made

  -- Behind a TypeError there is no further round.
  abbrev pub rounds_behind :
      Option (Pending K)
      → List (Request K) × Made K
      → List (Request K) × Made K
      → List (Request K) × Made K
  rounds_behind none first rest = first
  rounds_behind (some pending) first rest = (first.0 ++ rest.0, rest.1)

  -- `while objects_to_expand`, over the objects of each round
  unfoldable pub expand_rounds : List (List Candidate) → Made K → List (Request K) × Made K
  unfolding formulate make_requests
  expand_rounds [] made = ([], made)
  expand_rounds (objects ∷ rounds) made =
      let first = round_of (formulate objects (some [])) made in
      let rest = expand_rounds rounds first.1 in
      rounds_behind (formulate objects (some [])) first rest
