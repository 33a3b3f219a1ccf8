-- ===== src/Client/Expander.antt =====
-- pysoa/client/expander.py: the trees of the expansions that a client asks for, and their compact
-- form as a dictionary of dotted names.
pub mod Paths
pub mod RoundTrip
pub mod Objects
pub mod Requests
pub mod Candidates
use Prim.Native.Char.{Char, code}
use pysoa.Prelude.{
  ℕ, String, Bool, true, false, Option, none, some, List, [], ◌∷◌, ◌++◌, ◌==◌, if◌then◌else◌,
  str_eq, map,
}

-- The attributes of an ExpansionNode but its expansions; `type` is `none` for None.
pub record Expansion : Type 0 where
  pub type : Option String
  pub name : String
  pub source_field : String
  pub destination_field : String
  pub service : String
  pub action : String
  pub request_field : String
  pub response_field : String
  pub raise_action_errors : Bool

-- An ExpansionNode, and the `_expansions` of a node, in their order.
mutual
  pub data Node : Type 0 where
    node : Expansion → Nodes → Node

  pub data Nodes : Type 0 where
    no_nodes : Nodes
    child : Node → Nodes → Nodes

pub record TypeNode : Type 0 where
  pub type : String
  pub expansions : Nodes

abbrev pub name_of : Node → String
name_of (node expansion nodes) = expansion.name

unfoldable pub get_expansion : String → Nodes → Option Node
get_expansion name no_nodes = none
get_expansion name (child first nodes) =
    if str_eq (name_of first) name then some first else get_expansion name nodes

-- The node of this name is changed, or the new one is put at the end.
abbrev pub change_or_add : String → (Nodes → Nodes) → Node → Nodes → Nodes
change_or_add name change new no_nodes = child new no_nodes
change_or_add name change new (child (node expansion nodes) rest) =
    if str_eq expansion.name name
    then child (node expansion (change nodes)) rest
    else child (node expansion nodes) (change_or_add name change new rest)

unfoldable mutual
  pub add_expansion : Node → Nodes → Nodes
  add_expansion (node expansion nodes) to =
      change_or_add expansion.name (add_expansions nodes) (node expansion nodes) to

  pub add_expansions : Nodes → Nodes → Nodes
  add_expansions no_nodes to = to
  add_expansions (child first rest) to = add_expansions rest (add_expansion first to)

-- s.split('.')
abbrev push : Char → List String → List String
push c [] = []
push c (first ∷ rest) = String.◌∷◌ c first ∷ rest

unfoldable pub split : String → List String
split String.[] = "" ∷ []
split (String.◌∷◌ c s) = if code c == b'.' then "" ∷ split s else push c (split s)

-- '{}.{}'.format(name, es)
unfoldable pub dotted : String → String → String
dotted String.[] es = String.◌∷◌ "." es
dotted (String.◌∷◌ c s) es = String.◌∷◌ c (dotted s es)

unfoldable mutual
  pub to_strings : Node → List String
  to_strings (node expansion no_nodes) = expansion.name ∷ []
  to_strings (node expansion (child first rest)) =
      map (dotted expansion.name) (all_strings (child first rest))

  pub all_strings : Nodes → List String
  all_strings no_nodes = []
  all_strings (child first rest) = to_strings first ++ all_strings rest

-- The configuration of an ExpansionConverter, as dictionaries.
pub record TypeExpansion : Type 0 where
  pub type : Option String
  pub route : String
  pub source_field : String
  pub destination_field : String
  pub raise_action_errors : Option Bool

pub record TypeRoute : Type 0 where
  pub service : String
  pub action : String
  pub request_field : String
  pub response_field : String

pub record ExpansionConverter : Type 0 where
  pub type_routes : List (String × TypeRoute)
  pub type_expansions : List (String × List (String × TypeExpansion))

-- What comes out of a conversion; the errors are KeyError and ValueError.
pub data Built {ℓ} (A : Type ℓ) : Type ℓ where
  built : A → Built A
  key_error value_error : Built A

infixl 5 ◌>>=◌
abbrev pub ◌>>=◌ {ℓ κ} : {A : Type ℓ} {B : Type κ} → Built A → (A → Built B) → Built B
built a >>= f = f a
key_error >>= f = key_error
value_error >>= f = value_error

-- d[key]
abbrev pub lookup {ℓ} : {A : Type ℓ} → String → List (String × A) → Built A
lookup key [] = key_error
lookup key ((k, value) ∷ entries) = if str_eq k key then built value else lookup key entries

-- type_expansion.get('raise_action_errors', False)
abbrev or_false : Option Bool → Bool
or_false none = false
or_false (some b) = b

abbrev routed : String → TypeExpansion → TypeRoute → Built Expansion
routed name expansion route =
    if str_eq expansion.destination_field expansion.source_field
    then value_error
    else built (record {
      type = expansion.type;
      name = name;
      source_field = expansion.source_field;
      destination_field = expansion.destination_field;
      service = route.service;
      action = route.action;
      request_field = route.request_field;
      response_field = route.response_field;
      raise_action_errors = or_false expansion.raise_action_errors;
    })

module _ (converter : ExpansionConverter) where
  -- the attributes of the node that dict_to_trees makes for a name below a node of this type
  unfoldable pub configured : Option String → String → Built Expansion
  configured none name = key_error
  configured (some type) name = lookup type converter.type_expansions >>= λ expansions.
      lookup name expansions >>= λ expansion.
      lookup expansion.route converter.type_routes >>= λ route. routed name expansion route

  -- One name of an expansion string below the node of this type that has these expansions; `below`
  -- goes on with the names behind it.
  unfoldable pub step :
      (Option String → Nodes → Built Nodes) → Option String → String → Nodes → Built Nodes
  step below type name no_nodes = configured type name >>= λ expansion.
      below expansion.type no_nodes >>= λ nodes. built (child (node expansion nodes) no_nodes)
  step below type name (child (node expansion nodes) rest) =
      let beside = step below type name rest in
      if str_eq expansion.name name
      then (below expansion.type nodes >>= λ changed. built (child (node expansion changed) rest))
      else (beside >>= λ changed. built (child (node expansion nodes) changed))

  -- `for expansion_name in expansion_string.split('.')`
  unfoldable pub walk : List String → Option String → Nodes → Built Nodes
  unfolding step
  walk [] type nodes = built nodes
  walk (name ∷ names) type nodes = step (walk names) type name nodes

  -- `for expansion_string in expansion_list`
  unfoldable pub add_strings : Option String → List String → Nodes → Built Nodes
  add_strings type [] nodes = built nodes
  add_strings type (s ∷ ss) nodes =
      walk (split s) type nodes >>= λ changed. add_strings type ss changed

  unfoldable pub dict_to_trees : List (String × List String) → Built (List TypeNode)
  dict_to_trees [] = built []
  dict_to_trees ((type, ss) ∷ entries) = add_strings (some type) ss no_nodes >>= λ nodes.
      dict_to_trees entries >>= λ trees. built (record { type = type; expansions = nodes } ∷ trees)

-- result.update({type: strings})
abbrev pub update : String → List String → List (String × List String) → List (String × List String)
update type ss [] = (type, ss) ∷ []
update type ss ((t, ts) ∷ entries) =
    if str_eq t type then (t, ss) ∷ entries else (t, ts) ∷ update type ss entries

-- `for tree in trees_list`, with what `result` holds by then
unfoldable pub trees_to : List (String × List String) → List TypeNode → List (String × List String)
trees_to result [] = result
trees_to result (tree ∷ trees) =
    trees_to (update tree.type (all_strings tree.expansions) result) trees

unfoldable pub trees_to_dict : List TypeNode → List (String × List String)
unfolding trees_to
trees_to_dict trees = trees_to [] trees
