-- ===== src/Client/Expander/RoundTrip.antt =====
-- dict_to_trees and trees_to_dict of pysoa/client/expander.py.
use pysoa.Prelude.{
  String, ◌≡◌, refl, ◌∙◌, Option, none, some, List, [], ◌∷◌, ◌++◌, str_eq, map, arith, Bool-cases,
  inl, inr, append_assoc, append-nil,
}
use pysoa.Client.Expander.{
  Expansion, Nodes, node, no_nodes, child, get_expansion, all_strings, ExpansionConverter, built,
  key_error, ◌>>=◌, configured, walk, add_strings, TypeNode, dict_to_trees, trees_to, trees_to_dict,
  update, lookup,
}
use pysoa.Client.Expander.Paths.{
  IsName, AreNamed, all_paths, or_leaf, split-all_strings, join, join-no_nodes, join-join,
  Built-cases, add_paths, add_strings-eq, step-new, step-last,
}

module _ (converter : ExpansionConverter) where
  add_paths-append :
      (type : Option String) (ps qs : List (List String)) (nodes : Nodes)
      → add_paths converter type (ps ++ qs) nodes
        ≡ add_paths converter type ps nodes >>= λ changed. add_paths converter type qs changed
  unfolding add_paths
  add_paths-append type [] qs nodes = refl
  add_paths-append type (p ∷ ps) qs nodes = elim (Built-cases (walk converter p type nodes)) [
    | inl (a, e) ↦ rw e (add_paths-append type ps qs a)
    | inr (inl e) ↦ rw e refl
    | inr (inr e) ↦ rw e refl
  ]

  -- Paths through the last sibling are paths among its expansions.
  add_paths-last :
      (type : Option String) (before : Nodes) (expansion : Expansion) (nodes below : Nodes)
      (ps : List (List String))
      → get_expansion expansion.name before ≡ none
      → add_paths converter expansion.type ps nodes ≡ built below
      → add_paths converter type
          (map (λ p. expansion.name ∷ p) ps)
          (join before (child (node expansion nodes) no_nodes))
        ≡ built (join before (child (node expansion below) no_nodes))
  unfolding add_paths walk
  add_paths-last type before expansion nodes below [] new e = cc e
  add_paths-last type before expansion nodes below (p ∷ ps) new e =
      elim (Built-cases (walk converter p expansion.type nodes)) [
        | inl (a, w) ↦
            rw (step-last converter (walk converter p) type before expansion nodes new, w)
              (add_paths-last type before expansion a below ps new (rw w at e))
        | inr (inl w) ↦ absurd (ground (arith, w, e))
        | inr (inr w) ↦ absurd (ground (arith, w, e))
      ]

  add_paths-new :
      (type : Option String) (before : Nodes) (expansion : Expansion) (below : Nodes)
      (p : List String) (ps : List (List String))
      → get_expansion expansion.name before ≡ none
      → configured converter type expansion.name ≡ built expansion
      → add_paths converter expansion.type (p ∷ ps) no_nodes ≡ built below
      → add_paths converter type (map (λ p. expansion.name ∷ p) (p ∷ ps)) before
        ≡ built (join before (child (node expansion below) no_nodes))
  unfolding add_paths walk
  add_paths-new type before expansion below p ps new c e =
      elim (Built-cases (walk converter p expansion.type no_nodes)) [
        | inl (a, w) ↦
            rw
              (step-new converter (walk converter p) type expansion.name before expansion a new c w)
              (add_paths-last type before expansion a below ps new (rw w at e))
        | inr (inl w) ↦ absurd (ground (arith, w, e))
        | inr (inr w) ↦ absurd (ground (arith, w, e))
      ]

  -- These are the expansions that the configuration gives for a node of this type, of different
  -- names, and theirs in turn; `before` are those that stand before them.
  abbrev pub AreConfigured : Option String → Nodes → Nodes → Type 0
  AreConfigured type before no_nodes = Unit
  AreConfigured type before (child (node expansion nodes) rest) =
      (configured converter type expansion.name ≡ built expansion)
      × (get_expansion expansion.name before ≡ none)
      × IsName expansion.name
      × AreConfigured expansion.type no_nodes nodes
      × AreConfigured type (join before (child (node expansion nodes) no_nodes)) rest

  named :
      (type : Option String) (before nodes : Nodes)
      → AreConfigured type before nodes
      → AreNamed nodes
  named type before no_nodes h = tt
  named type before (child (node expansion nodes) rest) h =
      (h.2, named expansion.type no_nodes nodes h.3, named type _ rest h.4)

  leaf_paths :
      (type : Option String) (ps : List (List String)) (nodes : Nodes)
      → add_paths converter type ps no_nodes ≡ built nodes
      → add_paths converter type (or_leaf ps) no_nodes ≡ built nodes
  unfolding add_paths walk
  leaf_paths type [] nodes e = e
  leaf_paths type (p ∷ ps) nodes e = e

  grown :
      (type : Option String) (before : Nodes) (expansion : Expansion) (below : Nodes)
      (ps : List (List String))
      → get_expansion expansion.name before ≡ none
      → configured converter type expansion.name ≡ built expansion
      → add_paths converter expansion.type (or_leaf ps) no_nodes ≡ built below
      → add_paths converter type (map (λ p. expansion.name ∷ p) (or_leaf ps)) before
        ≡ built (join before (child (node expansion below) no_nodes))
  grown type before expansion below [] new c e =
      add_paths-new type before expansion below [] [] new c e
  grown type before expansion below (p ∷ ps) new c e =
      add_paths-new type before expansion below p ps new c e

  rebuilt :
      (type : Option String) (before nodes : Nodes)
      → AreConfigured type before nodes
      → add_paths converter type (all_paths nodes) before ≡ built (join before nodes)
  unfolding add_paths all_paths
  rebuilt type before no_nodes h = rw (join-no_nodes before) refl
  rebuilt type before (child (node expansion nodes) rest) h =
      let below =
        leaf_paths expansion.type (all_paths nodes) nodes
          (rebuilt expansion.type no_nodes nodes h.3) in
      add_paths-append type (map (λ p. expansion.name ∷ p) (or_leaf (all_paths nodes)))
        (all_paths rest) before
      ∙ rw (grown type before expansion nodes (all_paths nodes) h.1 h.0 below) (
          rw
            (
              rebuilt type (join before (child (node expansion nodes) no_nodes)) rest h.4,
              join-join before (child (node expansion nodes) no_nodes) rest,
            )
            refl)

  add_strings-all_strings :
      (type : Option String) (nodes : Nodes)
      → AreConfigured type no_nodes nodes
      → add_strings converter type (all_strings nodes) no_nodes ≡ built nodes
  add_strings-all_strings type nodes h =
      add_strings-eq converter type (all_strings nodes) no_nodes
      ∙ rw (split-all_strings nodes (named type no_nodes nodes h)) (rebuilt type no_nodes nodes h)

  -- Trees of different types, none of which is in `result` yet, as the configuration gives them.
  abbrev pub AreTrees : List (String × List String) → List TypeNode → Type 0
  AreTrees result [] = Unit
  AreTrees result (tree ∷ trees) =
      (lookup tree.type result ≡ key_error)
      × AreConfigured (some tree.type) no_nodes tree.expansions
      × AreTrees (result ++ (tree.type, all_strings tree.expansions) ∷ []) trees

  abbrev entry : TypeNode → String × List String
  entry tree = (tree.type, all_strings tree.expansions)

  update-new :
      (type : String) (ss : List String) (result : List (String × List String))
      → lookup type result ≡ key_error
      → update type ss result ≡ result ++ (type, ss) ∷ []
  update-new type ss [] h = refl
  update-new type ss ((t, ts) ∷ result) h = elim (Bool-cases (str_eq t type)) [
    | inl e ↦ absurd (ground (arith, e, h))
    | inr e ↦ rw e (rw (update-new type ss result (rw e at h)) refl)
  ]

  trees_to-map :
      (trees : List TypeNode) (result : List (String × List String))
      → AreTrees result trees
      → trees_to result trees ≡ result ++ map entry trees
  unfolding trees_to
  trees_to-map [] result h = rw (append-nil result) refl
  trees_to-map (tree ∷ trees) result h =
      rw (update-new tree.type (all_strings tree.expansions) result h.0) (
        trees_to-map trees (result ++ entry tree ∷ []) h.2
        ∙ append_assoc result (entry tree ∷ []) (map entry trees))

  dict_to_trees-map :
      (trees : List TypeNode) (result : List (String × List String))
      → AreTrees result trees
      → dict_to_trees converter (map entry trees) ≡ built trees
  unfolding dict_to_trees
  dict_to_trees-map [] result h = refl
  dict_to_trees-map (tree ∷ trees) result h =
      rw
        (
          add_strings-all_strings (some tree.type) tree.expansions h.1,
          dict_to_trees-map trees (result ++ entry tree ∷ []) h.2,
        )
        refl

  -- Trees of different types, in which siblings have different names and every node is as the
  -- configuration gives it for its parent's type, with no dot in its name, survive the round trip
  -- through the compact form: trees_to_dict makes a dictionary of which dict_to_trees, without an
  -- error, makes the same trees.
  pub dict_to_trees-trees_to_dict :
      (trees : List TypeNode)
      → AreTrees [] trees
      → dict_to_trees converter (trees_to_dict trees) ≡ built trees
  unfolding trees_to_dict
  dict_to_trees-trees_to_dict trees h = rw (trees_to-map trees [] h) (dict_to_trees-map trees [] h)
