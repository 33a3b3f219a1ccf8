-- ===== src/Logging/Censor.antt =====
-- The copying and censoring of RecursivelyCensoredDictWrapper (pysoa/common/logging.py), on the
-- string and integer types of Python 3.
pub mod Hidden
pub mod Masks
use Prim.Native.String
use pysoa.Prelude.{
  String, Bool, true, false, not, ◌&&◌, ◌||◌, List, [], ◌∷◌, if◌then◌else◌, str_eq, bytes_eq, ◌==◌,
  ℤ, pos, negsuc, eqz, any, map,
}
use pysoa.Value.{
  Atom, null, bool, int, str, bytes, other, Value, atom, list, tuple, set, frozenset, dict, Items,
  no_items, item, Fields, no_fields, field,
}
use pysoa.Logging.SensitiveFields.{is_sensitive}

abbrev pub censored_string : String
censored_string = "**********"

-- `v and isinstance(v, cls.CENSOR_TYPES) and not isinstance(v, bool)`
unfoldable pub is_censored : Atom → Bool
is_censored (str s) = not (str_eq s "")
is_censored (int n) = not (eqz n (pos 0))
is_censored _ = false

unfoldable pub censor_atom : Bool → Atom → Atom
unfolding is_censored
censor_atom should_censor_values a =
    if should_censor_values && is_censored a then str censored_string else a

abbrev number_of : Bool → ℤ
number_of true = pos 1
number_of false = pos 0

-- Python's equality: True is 1 and False is 0
unfoldable pub atom_eq : Atom → Atom → Bool
atom_eq null null = true
atom_eq (bool a) (bool b) = eqz (number_of a) (number_of b)
atom_eq (bool a) (int b) = eqz (number_of a) b
atom_eq (int a) (bool b) = eqz a (number_of b)
atom_eq (int a) (int b) = eqz a b
atom_eq (str a) (str b) = str_eq a b
atom_eq (bytes a) (bytes b) = bytes_eq a b
atom_eq (other a) (other b) = a == b
atom_eq _ _ = false

abbrev pub add : Atom → List Atom → List Atom
add a members = if any (atom_eq a) members then members else a ∷ members

-- A set made from a generator: of equal members one stays.
unfoldable pub make_set : List Atom → List Atom
unfolding atom_eq
make_set [] = []
make_set (a ∷ members) = add a (make_set members)

unfoldable mutual
  unfolding censor_atom make_set is_sensitive

  -- _copy_and_censor_unknown_value
  pub censor : Bool → Value → Value
  censor b (atom a) = atom (censor_atom b a)
  censor b (list i) = list (censor_items b i)
  censor b (tuple i) = tuple (censor_items b i)
  censor b (set members) = set (make_set (map (censor_atom b) members))
  censor b (frozenset members) = frozenset (make_set (map (censor_atom b) members))
  censor b (dict d) = dict (censor_dict d)

  -- _copy_and_censor_iterable
  pub censor_items : Bool → Items → Items
  censor_items b no_items = no_items
  censor_items b (item v i) = item (censor b v) (censor_items b i)

  -- _copy_and_censor_dict
  pub censor_dict : Fields → Fields
  censor_dict no_fields = no_fields
  censor_dict (field k v d) = field k (censor (is_sensitive k) v) (censor_dict d)
