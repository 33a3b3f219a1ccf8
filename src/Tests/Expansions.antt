-- ===== src/Tests/Expansions.antt =====
-- Expansions at concrete inputs.
use pysoa.Prelude.{
  Option, map, str_eq, String, ◌≡◌, refl, ◌↔◌, true, false, none, some, List, [], ◌∷◌,
}
use pysoa.Value.{Value, dict, list, item, no_items, field, no_fields, atom, str, Fields}
use pysoa.Client.Expander.{
  Expansion, node, no_nodes, child, TypeNode, ExpansionConverter, TypeExpansion, TypeRoute, built,
  dict_to_trees, trees_to_dict, configured, get_expansion, add_strings, walk, step, split,
}
use pysoa.Client.Expander.Paths.{IsName}
use pysoa.Client.Expander.{dotted}
use pysoa.Client.Expander.Requests.{
  Candidate, Request, expand_rounds, formulate, formulate_nodes, wanted, make_requests,
  make_request,
}
use pysoa.Client.Expander.Requests.Sets.{Distinct}
use pysoa.Client.Expander.Requests.Once.{asked, expand_rounds-Distinct}
use pysoa.Client.Expander.RoundTrip.{AreTrees, dict_to_trees-trees_to_dict}
use pysoa.Client.Expander.Objects.{In, find_objects}
use pysoa.Server.Types.{ActionResponse}
use pysoa.Client.Expander.Candidates.{
  perform_expansion, extract_candidate_objects, extend_expansion_objects, expands,
  invalid_expansion_key,
}
use pysoa.Client.Expander.Candidates.Found.{IsCandidate, extract_candidate_objects-IsCandidate}

abbrev route : TypeRoute
route = record {
  service = "users";
  action = "get_user";
  request_field = "id";
  response_field = "user";
}

abbrev author_of : TypeExpansion
author_of = record {
  type = some "user";
  route = "user_route";
  source_field = "author_id";
  destination_field = "author";
  raise_action_errors = none;
}

abbrev friend_of : TypeExpansion
friend_of = record {
  type = some "user";
  route = "user_route";
  source_field = "friend_id";
  destination_field = "friend";
  raise_action_errors = some true;
}

abbrev converter : ExpansionConverter
converter = record {
  type_routes = ("user_route", route) ∷ [];
  type_expansions =
      ("book", ("author", author_of) ∷ []) ∷ ("user", ("friend", friend_of) ∷ []) ∷ [];
}

abbrev author : Expansion
author = record {
  type = some "user";
  name = "author";
  source_field = "author_id";
  destination_field = "author";
  service = "users";
  action = "get_user";
  request_field = "id";
  response_field = "user";
  raise_action_errors = false;
}

abbrev friend : Expansion
friend = record {
  type = some "user";
  name = "friend";
  source_field = "friend_id";
  destination_field = "friend";
  service = "users";
  action = "get_user";
  request_field = "id";
  response_field = "user";
  raise_action_errors = true;
}

-- the trees of {'book': ['author.friend'], 'user': ['friend']}
abbrev trees : List TypeNode
trees =
    record {
      type = "book";
      expansions = child (node author (child (node friend no_nodes) no_nodes)) no_nodes;
    }
    ∷ record { type = "user"; expansions = child (node friend no_nodes) no_nodes }
    ∷ []

author_IsName : IsName "author"
author_IsName = (refl, (refl, (refl, (refl, (refl, (refl, tt))))))

friend_IsName : IsName "friend"
friend_IsName = (refl, (refl, (refl, (refl, (refl, (refl, tt))))))

trees-AreTrees : AreTrees converter [] trees
unfolding configured get_expansion
trees-AreTrees = (
  refl,
  (refl, refl, author_IsName, (refl, refl, friend_IsName, tt, tt), tt),
  (refl, (refl, refl, friend_IsName, tt, tt), tt),
)

dict_to_trees-trees_to_dict_example : dict_to_trees converter (trees_to_dict trees) ≡ built trees
dict_to_trees-trees_to_dict_example = dict_to_trees-trees_to_dict converter trees trees-AreTrees

abbrev inner : Fields
inner = field "_type" (atom (str "user")) no_fields

abbrev response : Value
response = dict (field "users" (list (item (dict inner) no_items)) no_fields)

abbrev actions : List ActionResponse
actions = record { action = "get_users"; errors = []; body = response } ∷ []

extract_candidate_objects-IsCandidate_example :
    In {A = Candidate} (inner, friend ∷ []) (extract_candidate_objects actions trees)
    ↔ IsCandidate actions trees inner (friend ∷ [])
extract_candidate_objects-IsCandidate_example =
    extract_candidate_objects-IsCandidate inner (friend ∷ []) actions trees

inner_expanded :
    perform_expansion
      (some converter)
      actions
      (("book", "author.friend" ∷ []) ∷ ("user", "friend" ∷ []) ∷ [])
    ≡ expands ((inner, friend ∷ []) ∷ []) trees
unfolding perform_expansion extract_candidate_objects extend_expansion_objects find_objects
    dict_to_trees add_strings walk step configured split
inner_expanded = refl

unknown_key :
    perform_expansion (some converter) actions (("book", "publisher" ∷ []) ∷ [])
    ≡ invalid_expansion_key
unfolding perform_expansion dict_to_trees add_strings walk step configured split
unknown_key = refl

abbrev hash_of : Value → Option String
hash_of (atom (str s)) = some s
hash_of _ = none

abbrev book : String → Fields
book author_id = field "author_id" (atom (str author_id)) no_fields

-- Two books of one author and one of another, and in the next round another book of the first.
abbrev rounds : List (List Candidate)
rounds =
    ((book "a", author ∷ []) ∷ (book "a", author ∷ []) ∷ (book "b", author ∷ []) ∷ [])
    ∷ ((book "a", author ∷ []) ∷ (book "c", author ∷ []) ∷ [])
    ∷ []

asked_once :
    map (λ (r : Request String). r.values) (expand_rounds str_eq hash_of rounds []).0
    ≡ ("b" ∷ "a" ∷ []) ∷ ("c" ∷ []) ∷ []
unfolding expand_rounds formulate formulate_nodes wanted make_requests make_request dotted
asked_once = refl

expand_rounds-Distinct_example :
    Distinct str_eq (asked str_eq "users.get_user.id" (expand_rounds str_eq hash_of rounds []).0 [])
expand_rounds-Distinct_example = expand_rounds-Distinct str_eq hash_of rounds "users.get_user.id"
