-- ===== src/Value.antt =====
-- The values of the program's dictionaries: what a request or response body, a context or a decoded
-- message holds.
use pysoa.Prelude.{ℕ, String, Bool, List, Bytes, ℤ}

-- What a set may hold here. `other` is an object that is none of the types that the code asks for,
-- known by a number.
pub data Atom : Type 0 where
  null : Atom
  bool : Bool → Atom
  int : ℤ → Atom
  str : String → Atom
  bytes : Bytes → Atom
  other : ℕ → Atom

mutual
  pub data Value : Type 0 where
    atom : Atom → Value
    list : Items → Value
    tuple : Items → Value
    set : List Atom → Value
    frozenset : List Atom → Value
    dict : Fields → Value

  pub data Items : Type 0 where
    no_items : Items
    item : Value → Items → Items

  pub data Fields : Type 0 where
    no_fields : Fields
    field : String → Value → Fields → Fields
