-- ===== src/Logging/Censor/Hidden.antt =====
-- Censored dictionaries of pysoa/common/logging.py.
use pysoa.Prelude.{
  String, ◌≡◌, refl, Bool, true, false, ◌⊎◌, inl, inr, List, [], ◌∷◌, any, All, map, Bool-cases, ℤ,
  pos, eqz, eqz_sound, str_eq, eq_iff,
}
use pysoa.Value.{
  Atom, int, str, Value, atom, list, tuple, set, frozenset, dict, Items, no_items, item, Fields,
  no_fields, field,
}
use pysoa.Logging.SensitiveFields.{is_sensitive}
use pysoa.Logging.Censor.{
  is_censored, censor_atom, atom_eq, add, make_set, censor, censor_items, censor_dict,
}

-- Under a sensitive key, no string but the empty and the censored one, and no number but 0.
abbrev pub HiddenAtom : Bool → Atom → Type 0
HiddenAtom true (str s) = (s ≡ "") ⊎ (s ≡ "**********")
HiddenAtom true (int n) = n ≡ pos 0
HiddenAtom _ _ = Unit

abbrev mutual
  pub Hidden : Bool → Value → Type 0
  Hidden b (atom a) = HiddenAtom b a
  Hidden b (list i) = HiddenItems b i
  Hidden b (tuple i) = HiddenItems b i
  Hidden b (set members) = All (HiddenAtom b) members
  Hidden b (frozenset members) = All (HiddenAtom b) members
  Hidden b (dict d) = HiddenFields d

  pub HiddenItems : Bool → Items → Type 0
  HiddenItems b no_items = Unit
  HiddenItems b (item v i) = Hidden b v × HiddenItems b i

  pub HiddenFields : Fields → Type 0
  HiddenFields no_fields = Unit
  HiddenFields (field k v d) = Hidden (is_sensitive k) v × HiddenFields d

hidden_string : (s : String) → HiddenAtom true (censor_atom true (str s))
unfolding censor_atom is_censored
hidden_string s = elim (Bool-cases (str_eq s "")) [
  | inl empty ↦ rw empty (inl ((eq_iff s "").0 empty))
  | inr full ↦ rw full (inr refl)
]

hidden_number : (n : ℤ) → HiddenAtom true (censor_atom true (int n))
unfolding censor_atom is_censored
hidden_number n = elim (Bool-cases (eqz n (pos 0))) [
  | inl zero ↦ rw zero (eqz_sound n (pos 0) zero)
  | inr full ↦ rw full (inr refl)
]

censor_atom-HiddenAtom : (b : Bool) (a : Atom) → HiddenAtom b (censor_atom b a)
unfolding censor_atom is_censored
censor_atom-HiddenAtom false a = tt
censor_atom-HiddenAtom true (str s) = hidden_string s
censor_atom-HiddenAtom true (int n) = hidden_number n
censor_atom-HiddenAtom true _ = tt

module _ (b : Bool) where
  add-All :
      (a : Atom) (members : List Atom)
      → HiddenAtom b a
      → All (HiddenAtom b) members
      → All (HiddenAtom b) (add a members)
  add-All a members ha hs = elim (Bool-cases (any (atom_eq a) members)) [
    | inl there ↦ rw there hs
    | inr new ↦ rw new (ha, hs)
  ]

  make_set-Hidden :
      (members : List Atom) → All (HiddenAtom b) (make_set (map (censor_atom b) members))
  unfolding make_set
  make_set-Hidden [] = tt
  make_set-Hidden (a ∷ members) =
      add-All (censor_atom b a) _ (censor_atom-HiddenAtom b a) (make_set-Hidden members)

mutual
  unfolding censor

  censor-Hidden : (b : Bool) (v : Value) → Hidden b (censor b v)
  censor-Hidden b (atom a) = censor_atom-HiddenAtom b a
  censor-Hidden b (list i) = censor_items-Hidden b i
  censor-Hidden b (tuple i) = censor_items-Hidden b i
  censor-Hidden b (set members) = make_set-Hidden b members
  censor-Hidden b (frozenset members) = make_set-Hidden b members
  censor-Hidden b (dict d) = censor_fields-Hidden d

  censor_items-Hidden : (b : Bool) (i : Items) → HiddenItems b (censor_items b i)
  censor_items-Hidden b no_items = tt
  censor_items-Hidden b (item v i) = (censor-Hidden b v, censor_items-Hidden b i)

  censor_fields-Hidden : (d : Fields) → HiddenFields (censor_dict d)
  censor_fields-Hidden no_fields = tt
  censor_fields-Hidden (field k v d) = (censor-Hidden (is_sensitive k) v, censor_fields-Hidden d)

-- At every depth of a censored dictionary, what stands directly under a sensitive key, or in lists,
-- tuples and sets there, is no string but the empty and the censored one, and no integer but 0.
pub censor_dict-HiddenFields : (d : Fields) → HiddenFields (censor_dict d)
censor_dict-HiddenFields d = censor_fields-Hidden d
