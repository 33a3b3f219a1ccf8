-- ===== src/Client/Expander/Objects.antt =====
-- TypeNode.find_objects of pysoa/client/expander.py: the objects of a response that an expansion is
-- for.
use pysoa.Prelude.{
  String, ◌≡◌, refl, Bool, true, false, Option, none, some, List, [], ◌∷◌, ◌++◌, if◌then◌else◌,
  str_eq, ◌⊎◌, inl, inr, ◌↔◌, Bool-cases,
}
use pysoa.Value.{
  Value, atom, list, tuple, set, frozenset, dict, null, str, Items, no_items, item, Fields,
  no_fields, field,
}

-- obj.get(key)
abbrev pub get : String → Fields → Option Value
get key no_fields = none
get key (field k value fields) = if str_eq k key then some value else get key fields

-- object_type == self.type, where `none` is None on both sides
abbrev is_text : String → Value → Bool
is_text type (atom (str s)) = str_eq s type
is_text type _ = false

abbrev is_null : Value → Bool
is_null (atom null) = true
is_null _ = false

abbrev pub matches : Option String → Option Value → Bool
matches none none = true
matches none (some value) = is_null value
matches (some type) none = false
matches (some type) (some value) = is_text type value

unfoldable mutual
  pub find_objects : Option String → Value → List Fields
  find_objects type (dict fields) =
      let inner = find_in_fields type fields in
      if matches type (get "_type" fields) then fields ∷ [] else inner
  find_objects type (list items) = find_in_items type items
  find_objects type (atom a) = []
  find_objects type (tuple items) = []
  find_objects type (set atoms) = []
  find_objects type (frozenset atoms) = []

  pub find_in_items : Option String → Items → List Fields
  find_in_items type no_items = []
  find_in_items type (item value items) = find_objects type value ++ find_in_items type items

  pub find_in_fields : Option String → Fields → List Fields
  find_in_fields type no_fields = []
  find_in_fields type (field k value fields) = find_objects type value ++ find_in_fields type fields

-- The dictionary stands in the value, below lists and below dictionaries of other types only, and
-- its own type is the one that is looked for.
mutual
  pub data Outermost (type : Option String) : Value → Fields → Type 0 where
    itself :
        (fields : Fields)
        → matches type (get "_type" fields) ≡ true
        → Outermost type (dict fields) fields
    in_dict :
        (fields object : Fields)
        → matches type (get "_type" fields) ≡ false
        → InFields type fields object
        → Outermost type (dict fields) object
    in_list :
        (items : Items) (object : Fields)
        → InItems type items object
        → Outermost type (list items) object

  pub data InItems (type : Option String) : Items → Fields → Type 0 where
    first_item :
        (value : Value) (items : Items) (object : Fields)
        → Outermost type value object
        → InItems type (item value items) object
    later_item :
        (value : Value) (items : Items) (object : Fields)
        → InItems type items object
        → InItems type (item value items) object

  pub data InFields (type : Option String) : Fields → Fields → Type 0 where
    first_field :
        (k : String) (value : Value) (fields object : Fields)
        → Outermost type value object
        → InFields type (field k value fields) object
    later_field :
        (k : String) (value : Value) (fields object : Fields)
        → InFields type fields object
        → InFields type (field k value fields) object

abbrev pub In : {A : Type 0} → A → List A → Type 0
In x [] = ⊥
In x (y ∷ ys) = (x ≡ y) ⊎ In x ys

pub In-append : {A : Type 0} (x : A) (xs ys : List A) → In x (xs ++ ys) → In x xs ⊎ In x ys
In-append x [] ys m = inr m
In-append x (y ∷ xs) ys (inl e) = inl (inl e)
In-append x (y ∷ xs) ys (inr m) = elim (In-append x xs ys m) [ inl a ↦ inl (inr a) | inr b ↦ inr b ]

pub In-left : {A : Type 0} (x : A) (xs ys : List A) → In x xs → In x (xs ++ ys)
In-left x [] ys m = absurd m
In-left x (y ∷ xs) ys (inl e) = inl e
In-left x (y ∷ xs) ys (inr m) = inr (In-left x xs ys m)

pub In-right : {A : Type 0} (x : A) (xs ys : List A) → In x ys → In x (xs ++ ys)
In-right x [] ys m = m
In-right x (y ∷ xs) ys m = inr (In-right x xs ys m)

module _ (type : Option String) (object : Fields) where
  alone :
      (fields : Fields)
      → matches type (get "_type" fields) ≡ true
      → In object (fields ∷ [])
      → Outermost type (dict fields) object
  alone entries e (inl same) = rw same (itself entries e)
  alone entries e (inr m) = absurd m

  mutual
    unfolding find_objects

    found : (value : Value) → In object (find_objects type value) → Outermost type value object
    found (dict fields) m = elim (Bool-cases (matches type (get "_type" fields))) [
      | inl e ↦ alone fields e (rw e at m)
      | inr e ↦ in_dict fields object e (found-InFields fields (rw e at m))
    ]
    found (atom a) m = absurd m
    found (tuple items) m = absurd m
    found (set atoms) m = absurd m
    found (frozenset atoms) m = absurd m
    found (list items) m = in_list items object (found-InItems items m)

    found-InItems :
        (items : Items) → In object (find_in_items type items) → InItems type items object
    found-InItems no_items m = absurd m
    found-InItems (item value items) m =
        elim (In-append object (find_objects type value) (find_in_items type items) m) [
          | inl a ↦ first_item value items object (found value a)
          | inr b ↦ later_item value items object (found-InItems items b)
        ]

    found-InFields :
        (fields : Fields) → In object (find_in_fields type fields) → InFields type fields object
    found-InFields no_fields m = absurd m
    found-InFields (field k value fields) m =
        elim (In-append object (find_objects type value) (find_in_fields type fields) m) [
          | inl a ↦ first_field k value fields object (found value a)
          | inr b ↦ later_field k value fields object (found-InFields fields b)
        ]

  mutual
    unfolding find_objects

    finds : (value : Value) → Outermost type value object → In object (find_objects type value)
    finds _ (itself entries e) = rw e (inl refl)
    finds _ (in_dict entries object e o) = rw e (finds-InFields entries o)
    finds _ (in_list items object o) = finds-InItems items o

    finds-InItems :
        (items : Items) → InItems type items object → In object (find_in_items type items)
    finds-InItems _ (first_item value rest object o) =
        In-left object (find_objects type value) _ (finds value o)
    finds-InItems _ (later_item value rest object o) =
        In-right object (find_objects type value) _ (finds-InItems rest o)

    finds-InFields :
        (fields : Fields) → InFields type fields object → In object (find_in_fields type fields)
    finds-InFields _ (first_field k value rest object o) =
        In-left object (find_objects type value) _ (finds value o)
    finds-InFields _ (later_field k value rest object o) =
        In-right object (find_objects type value) _ (finds-InFields rest o)

  -- find_objects finds a dictionary exactly if it has the node's type, or none if the node has none,
  -- and stands in the value below lists and below dictionaries of other types: it looks into no
  -- dictionary that it finds, and into no tuple or set.
  pub find_objects-Outermost :
      (value : Value) → In object (find_objects type value) ↔ Outermost type value object
  find_objects-Outermost value = (found value, finds value)
