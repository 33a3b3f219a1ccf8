-- ===== src/Client/Expander/Candidates.antt =====
-- The start of Client._perform_expansion of pysoa/client/client.py: the objects of the responses that
-- are to be expanded.
pub mod Found
use pysoa.Prelude.{
  String, ◌≡◌, refl, ap, sym, List, [], ◌∷◌, ◌++◌, map, Option, none, some, ◌⊎◌, inl, inr, ◌↔◌,
}
use pysoa.Value.{Value, Fields}
use pysoa.Server.Types.{ActionResponse}
use pysoa.Client.Expander.{
  Expansion, Node, node, Nodes, no_nodes, child, TypeNode, ExpansionConverter, dict_to_trees, Built,
  built, key_error, value_error,
}
use pysoa.Client.Expander.Objects.{
  find_objects, In, In-append, In-left, In-right, Outermost, find_objects-Outermost,
}
use pysoa.Client.Expander.Requests.{Candidate}

-- type_node.expansions
abbrev pub expansions_of : Nodes → List Expansion
expansions_of no_nodes = []
expansions_of (child (node expansion nodes) rest) = expansion ∷ expansions_of rest

abbrev pub found_for : TypeNode → Value → List Candidate
found_for tree body =
    map (λ object. (object, expansions_of tree.expansions)) (find_objects (some tree.type) body)

unfoldable pub extend_expansion_objects : List Candidate → TypeNode → Value → List Candidate
extend_expansion_objects objects tree body = objects ++ found_for tree body

-- `for action in actions`
abbrev pub over_actions : List Candidate → TypeNode → List ActionResponse → List Candidate
over_actions objects tree [] = objects
over_actions objects tree (action ∷ actions) =
    over_actions (extend_expansion_objects objects tree action.body) tree actions

-- `for type_node in expansion_trees`
abbrev pub over_trees : List Candidate → List ActionResponse → List TypeNode → List Candidate
over_trees objects actions [] = objects
over_trees objects actions (tree ∷ trees) =
    over_trees (over_actions objects tree actions) actions trees

unfoldable pub extract_candidate_objects : List ActionResponse → List TypeNode → List Candidate
extract_candidate_objects actions trees = over_trees [] actions trees

-- What _perform_expansion does: nothing, raise InvalidExpansionKey or a ValueError, or go on to
-- _expand_objects with these objects and trees.
pub data Started : Type 0 where
  nothing_to_do invalid_expansion_key value_error_raised : Started
  expands : List Candidate → List TypeNode → Started

abbrev started : List ActionResponse → Built (List TypeNode) → Started
started actions (built trees) = expands (extract_candidate_objects actions trees) trees
started actions key_error = invalid_expansion_key
started actions value_error = value_error_raised

-- `if expansions and getattr(self, 'expansion_converter', None)`
unfoldable pub perform_expansion :
    Option ExpansionConverter → List ActionResponse → List (String × List String) → Started
perform_expansion converter actions [] = nothing_to_do
perform_expansion none actions (entry ∷ expansions) = nothing_to_do
perform_expansion (some converter) actions (entry ∷ expansions) =
    started actions (dict_to_trees converter (entry ∷ expansions))
