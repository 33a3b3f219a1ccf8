-- ===== src/Client/Expander/Candidates/Found.antt =====
-- Which objects Client._perform_expansion of pysoa/client/client.py expands, and with what.
use pysoa.Prelude.{◌≡◌, refl, ap, subst, List, [], ◌∷◌, ◌++◌, map, some, ◌⊎◌, inl, inr, ◌↔◌}
use pysoa.Value.{Value, Fields}
use pysoa.Server.Types.{ActionResponse}
use pysoa.Client.Expander.{Expansion, TypeNode}
use pysoa.Client.Expander.Objects.{
  find_objects, In, In-append, In-left, In-right, Outermost, find_objects-Outermost,
}
use pysoa.Client.Expander.Requests.{Candidate}
use pysoa.Client.Expander.Candidates.{
  expansions_of, found_for, extend_expansion_objects, over_actions, over_trees,
  extract_candidate_objects,
}

-- The object stands, for this tree, in the body of one of the actions.
abbrev pub InBody : TypeNode → List ActionResponse → Fields → Type 0
InBody tree actions object =
    (action : ActionResponse) × In action actions × Outermost (some tree.type) action.body object

-- It does so for one of the trees, whose expansions these are.
abbrev pub IsCandidate : List ActionResponse → List TypeNode → Fields → List Expansion → Type 0
IsCandidate actions trees object es =
    (tree : TypeNode) × In tree trees
    × (es ≡ expansions_of tree.expansions)
    × InBody tree actions object

In-map :
    (object : Fields) (es es' : List Expansion) (objects : List Fields)
    → In {A = Candidate} (object, es) (map (λ o. (o, es')) objects)
    → In object objects × (es ≡ es')
In-map object es es' [] m = absurd m
In-map object es es' (o ∷ objects) (inl e) = (inl (ap (λ c. c.0) e), ap (λ c. c.1) e)
In-map object es es' (o ∷ objects) (inr m) =
    let (there, e) = In-map object es es' objects m in (inr there, e)

map-In :
    (object : Fields) (es : List Expansion) (objects : List Fields)
    → In object objects
    → In {A = Candidate} (object, es) (map (λ o. (o, es)) objects)
map-In object es [] m = absurd m
map-In object es (o ∷ objects) (inl e) = inl (ap (λ o. (o, es)) e)
map-In object es (o ∷ objects) (inr m) = inr (map-In object es objects m)

module _ (object : Fields) (es : List Expansion) where
  abbrev Here : List Candidate → Type 0
  Here objects = In {A = Candidate} (object, es) objects

  -- for this tree
  abbrev IsFor : TypeNode → List ActionResponse → Type 0
  IsFor tree actions = (es ≡ expansions_of tree.expansions) × InBody tree actions object

  found_here :
      (tree : TypeNode) (body : Value)
      → Here (found_for tree body)
      → (es ≡ expansions_of tree.expansions) × Outermost (some tree.type) body object
  found_here tree body m =
      let (there, e) =
        In-map object es (expansions_of tree.expansions) (find_objects (some tree.type) body) m in
      (e, (find_objects-Outermost (some tree.type) object body).0 there)

  here_found :
      (tree : TypeNode) (body : Value)
      → es ≡ expansions_of tree.expansions
      → Outermost (some tree.type) body object
      → Here (found_for tree body)
  here_found tree body e o = rw e (
      map-In object (expansions_of tree.expansions) (find_objects (some tree.type) body)
        ((find_objects-Outermost (some tree.type) object body).1 o))

  over_actions-IsFor :
      (objects : List Candidate) (tree : TypeNode) (actions : List ActionResponse)
      → Here (over_actions objects tree actions)
      → Here objects ⊎ IsFor tree actions
  unfolding extend_expansion_objects
  over_actions-IsFor objects tree [] m = inl m
  over_actions-IsFor objects tree (a ∷ actions) m =
      elim (over_actions-IsFor (objects ++ found_for tree a.body) tree actions m) [
        | inl here ↦ elim (In-append _ objects (found_for tree a.body) here) [
          | inl before ↦ inl before
          | inr new ↦ let (e, o) = found_here tree a.body new in inr (e, (a, inl refl, o))
        ]
        | inr (e, (b, m', o)) ↦ inr (e, (b, inr m', o))
      ]

  over_actions-before :
      (objects : List Candidate) (tree : TypeNode) (actions : List ActionResponse)
      → Here objects
      → Here (over_actions objects tree actions)
  unfolding extend_expansion_objects
  over_actions-before objects tree [] m = m
  over_actions-before objects tree (a ∷ actions) m =
      over_actions-before (objects ++ found_for tree a.body) tree actions
        (In-left _ objects (found_for tree a.body) m)

  IsFor-over_actions :
      (objects : List Candidate) (tree : TypeNode) (actions : List ActionResponse)
      → IsFor tree actions
      → Here (over_actions objects tree actions)
  unfolding extend_expansion_objects
  IsFor-over_actions objects tree [] (e, (b, m, o)) = absurd m
  IsFor-over_actions objects tree (a ∷ actions) (e, (b, inl same, o)) =
      over_actions-before (objects ++ found_for tree a.body) tree actions (
        In-right _ objects (found_for tree a.body)
          (here_found tree a.body e (subst (λ x. Outermost (some tree.type) x.body object) same o)))
  IsFor-over_actions objects tree (a ∷ actions) (e, (b, inr m, o)) =
      IsFor-over_actions (objects ++ found_for tree a.body) tree actions (e, (b, m, o))

  over_trees-IsCandidate :
      (objects : List Candidate) (actions : List ActionResponse) (trees : List TypeNode)
      → Here (over_trees objects actions trees)
      → Here objects ⊎ IsCandidate actions trees object es
  over_trees-IsCandidate objects actions [] m = inl m
  over_trees-IsCandidate objects actions (t ∷ trees) m =
      elim (over_trees-IsCandidate (over_actions objects t actions) actions trees m) [
        | inl here ↦ elim (over_actions-IsFor objects t actions here) [
          | inl before ↦ inl before
          | inr (e, b) ↦ inr (t, inl refl, e, b)
        ]
        | inr (t', m', e, b) ↦ inr (t', inr m', e, b)
      ]

  over_trees-before :
      (objects : List Candidate) (actions : List ActionResponse) (trees : List TypeNode)
      → Here objects
      → Here (over_trees objects actions trees)
  over_trees-before objects actions [] m = m
  over_trees-before objects actions (t ∷ trees) m =
      over_trees-before (over_actions objects t actions) actions trees
        (over_actions-before objects t actions m)

  IsCandidate-over_trees :
      (objects : List Candidate) (actions : List ActionResponse) (trees : List TypeNode)
      → IsCandidate actions trees object es
      → Here (over_trees objects actions trees)
  IsCandidate-over_trees objects actions [] (t, m, e, b) = absurd m
  IsCandidate-over_trees objects actions (t ∷ trees) (t', inl same, e, b) =
      over_trees-before (over_actions objects t actions) actions trees (
        subst (λ x. Here (over_actions objects x actions)) same
          (IsFor-over_actions objects t' actions (e, b)))
  IsCandidate-over_trees objects actions (t ∷ trees) (t', inr m, e, b) =
      IsCandidate-over_trees (over_actions objects t actions) actions trees (t', m, e, b)

  -- A dictionary is to be expanded with some expansions exactly if these are a tree's, and it stands
  -- in the body of one of the actions with the tree's type, below lists and below dictionaries of
  -- other types only.
  pub extract_candidate_objects-IsCandidate :
      (actions : List ActionResponse) (trees : List TypeNode)
      → In {A = Candidate} (object, es) (extract_candidate_objects actions trees)
        ↔ IsCandidate actions trees object es
  unfolding extract_candidate_objects
  extract_candidate_objects-IsCandidate actions trees = (
    λ m. elim (over_trees-IsCandidate [] actions trees m) [
      | inl none_before ↦ absurd none_before
      | inr c ↦ c
    ],
    IsCandidate-over_trees [] actions trees,
  )
