-- ===== src/Client/Expander/Paths.antt =====
-- The dotted names of pysoa/client/expander.py as lists of names, and the walk along them.
use Prim.Native.Char.{code}
use pysoa.Prelude.{
  String, ◌≡◌, refl, ◌∙◌, false, Option, none, List, [], ◌∷◌, ◌++◌, ◌==◌, str_eq, eq_refl, map,
  arith, ◌⊎◌, inl, inr,
}
use pysoa.Client.Expander.{
  Expansion, Node, Nodes, node, no_nodes, child, get_expansion, split, dotted, all_strings,
  ExpansionConverter, Built, built, key_error, value_error, ◌>>=◌, configured, step, walk,
  add_strings,
}

-- A name without a dot.
abbrev pub IsName : String → Type 0
IsName String.[] = Unit
IsName (String.◌∷◌ c s) = ((code c == b'.') ≡ false) × IsName s

split-IsName : (name : String) → IsName name → split name ≡ name ∷ []
unfolding split
split-IsName String.[] h = refl
split-IsName (String.◌∷◌ c s) h = rw (h.0, split-IsName s h.1) refl

split-dotted : (name s : String) → IsName name → split (dotted name s) ≡ name ∷ split s
unfolding split dotted
split-dotted String.[] s h = refl
split-dotted (String.◌∷◌ c name) s h = rw (h.0, split-dotted name s h.1) refl

-- the paths below a node: for a leaf, the one that ends there
abbrev pub or_leaf : List (List String) → List (List String)
or_leaf [] = [] ∷ []
or_leaf (p ∷ ps) = p ∷ ps

-- the names from a node's expansions down to the leaves
unfoldable pub all_paths : Nodes → List (List String)
all_paths no_nodes = []
all_paths (child (node expansion nodes) rest) =
    map (λ p. expansion.name ∷ p) (or_leaf (all_paths nodes)) ++ all_paths rest

or_leaf-own :
    (name : String) (ps qs : List (List String))
    → or_leaf (map (λ (p : List String). name ∷ p) (or_leaf ps) ++ qs)
      ≡ map (λ (p : List String). name ∷ p) (or_leaf ps) ++ qs
or_leaf-own name [] qs = refl
or_leaf-own name (p ∷ ps) qs = refl

or_leaf-all_paths :
    (first : Node) (rest : Nodes)
    → or_leaf (all_paths (child first rest)) ≡ all_paths (child first rest)
unfolding all_paths
or_leaf-all_paths (node expansion nodes) rest =
    or_leaf-own expansion.name (all_paths nodes) (all_paths rest)

map-split-map-dotted :
    (name : String) (ss : List String)
    → IsName name
    → map split (map (dotted name) ss) ≡ map (λ p. name ∷ p) (map split ss)
map-split-map-dotted name [] h = refl
map-split-map-dotted name (s ∷ ss) h =
    rw (split-dotted name s h, map-split-map-dotted name ss h) refl

map-append {ℓ κ} :
    {A : Type ℓ} {B : Type κ} (f : A → B) (xs ys : List A) → map f (xs ++ ys) ≡ map f xs ++ map f ys
map-append f [] ys = refl
map-append f (x ∷ xs) ys = rw (map-append f xs ys) refl

-- every name of these nodes and of those below is without a dot
abbrev pub AreNamed : Nodes → Type 0
AreNamed no_nodes = Unit
AreNamed (child (node expansion nodes) rest) =
    IsName expansion.name × AreNamed nodes × AreNamed rest

pub split-all_strings :
    (nodes : Nodes) → AreNamed nodes → map split (all_strings nodes) ≡ all_paths nodes
unfolding all_strings all_paths
split-all_strings no_nodes h = refl
split-all_strings (child (node expansion no_nodes) rest) h =
    rw (split-IsName expansion.name h.0, split-all_strings rest h.2) refl
split-all_strings (child (node expansion (child first below)) rest) h =
    map-append split (map (dotted expansion.name) (all_strings (child first below)))
      (all_strings rest)
    ∙ rw
        (
          map-split-map-dotted expansion.name (all_strings (child first below)) h.0,
          split-all_strings (child first below) h.1,
          split-all_strings rest h.2,
          or_leaf-all_paths first below,
        )
        refl

-- siblings one after the other
abbrev pub join : Nodes → Nodes → Nodes
join no_nodes more = more
join (child first rest) more = child first (join rest more)

pub join-no_nodes : (nodes : Nodes) → join nodes no_nodes ≡ nodes
join-no_nodes no_nodes = refl
join-no_nodes (child first rest) = rw (join-no_nodes rest) refl

pub join-join : (xs ys zs : Nodes) → join (join xs ys) zs ≡ join xs (join ys zs)
join-join no_nodes ys zs = refl
join-join (child first rest) ys zs = rw (join-join rest ys zs) refl

pub Built-cases {ℓ} :
    {A : Type ℓ} (r : Built A) → (((a : A) × (r ≡ built a)) ⊎ ((r ≡ key_error) ⊎ (r ≡ value_error)))
Built-cases (built a) = inl (a, refl)
Built-cases key_error = inr (inl refl)
Built-cases value_error = inr (inr refl)

apart :
    (e : Expansion) (kids rest : Nodes) (name : String)
    → get_expansion name (child (node e kids) rest) ≡ none
    → (str_eq e.name name ≡ false) × (get_expansion name rest ≡ none)
unfolding get_expansion
apart e kids rest name h = ground (arith, h)

module _ (converter : ExpansionConverter) where
  -- the paths one after the other
  unfoldable pub add_paths : Option String → List (List String) → Nodes → Built Nodes
  add_paths type [] nodes = built nodes
  add_paths type (p ∷ ps) nodes =
      walk converter p type nodes >>= λ changed. add_paths type ps changed

  pub add_strings-eq :
      (type : Option String) (ss : List String) (nodes : Nodes)
      → add_strings converter type ss nodes ≡ add_paths type (map split ss) nodes
  unfolding add_strings add_paths
  add_strings-eq type [] nodes = refl
  add_strings-eq type (s ∷ ss) nodes = elim (Built-cases (walk converter (split s) type nodes)) [
    | inl (a, e) ↦ rw e (add_strings-eq type ss a)
    | inr (inl e) ↦ rw e refl
    | inr (inr e) ↦ rw e refl
  ]

  -- A name that is not among the nodes is configured and put at their end.
  pub step-new :
      (below : Option String → Nodes → Built Nodes) (type : Option String) (name : String)
      (before : Nodes) (expansion : Expansion) (nodes : Nodes)
      → get_expansion name before ≡ none
      → configured converter type name ≡ built expansion
      → below expansion.type no_nodes ≡ built nodes
      → step converter below type name before
        ≡ built (join before (child (node expansion nodes) no_nodes))
  unfolding step get_expansion
  step-new below type name no_nodes expansion nodes new c b = rw (c, b) refl
  step-new below type name (child (node e kids) rest) expansion nodes new c b =
      let (other, new') = apart e kids rest name new in
      rw (other, step-new below type name rest expansion nodes new' c b) refl

  pub step-last :
      (below : Option String → Nodes → Built Nodes) (type : Option String) (before : Nodes)
      (expansion : Expansion) (nodes : Nodes)
      → get_expansion expansion.name before ≡ none
      → step converter below type expansion.name
          (join before (child (node expansion nodes) no_nodes))
        ≡ below expansion.type nodes >>= λ changed.
            built (join before (child (node expansion changed) no_nodes))
  unfolding step get_expansion
  step-last below type no_nodes expansion nodes new = rw (eq_refl expansion.name) refl
  step-last below type (child (node e kids) rest) expansion nodes new =
      let (other, new') = apart e kids rest expansion.name new in
      rw (other, step-last below type rest expansion nodes new')
        (elim (Built-cases (below expansion.type nodes)) [
          | inl (a, b) ↦ rw b refl
          | inr (inl b) ↦ rw b refl
          | inr (inr b) ↦ rw b refl
        ])
