-- ===== src/Logging/Censor/Masks.antt =====
-- What a censored dictionary of pysoa/common/logging.py still shows.
use pysoa.Prelude.{
  ℕ, String, ◌≡◌, ◌≢◌, refl, ap, sym, subst, Bool, true, false, ◌⊎◌, inl, inr, List, [], ◌∷◌, any,
  map, Bool-cases, ℤ, pos, eqz, eqz_sound, eqz_refl, str_eq, eq_iff, eq_refl, bytes_eq, arith,
}
use pysoa.Value.{
  Atom, null, bool, int, str, bytes, other, Value, atom, list, tuple, set, frozenset, dict, Items,
  no_items, item, Fields, no_fields, field,
}
use pysoa.Logging.SensitiveFields.{is_sensitive}
use pysoa.Logging.Censor.{
  censor_atom, is_censored, atom_eq, add, make_set, censor, censor_items, censor_dict,
}

-- What stands for an atom: itself, or under a sensitive key, for a string that is not empty or a
-- number that is not 0, the censored string.
abbrev pub MaskAtom : Bool → Atom → Atom → Type 0
MaskAtom true (str s) m = ((s ≡ "") × (m ≡ str s)) ⊎ ((s ≢ "") × (m ≡ str "**********"))
MaskAtom true (int n) m = ((n ≡ pos 0) × (m ≡ int n)) ⊎ ((n ≢ pos 0) × (m ≡ str "**********"))
MaskAtom _ a m = m ≡ a

abbrev pub Among : Atom → List Atom → Type 0
Among a [] = ⊥
Among a (m ∷ members) = (a ≡ m) ⊎ Among a members

-- Each member of the masked set stands for one of the set, and each of the set has one, or one
-- that Python finds equal, that stands for it.
abbrev pub MaskSet : Bool → List Atom → List Atom → Type 0
MaskSet b members masked =
    ((m : Atom) → Among m masked → (a : Atom) × Among a members × MaskAtom b a m)
    × ((a : Atom) → Among a members → (m : Atom) × MaskAtom b a m × (any (atom_eq m) masked ≡ true))

abbrev mutual
  pub Mask : Bool → Value → Value → Type 0
  Mask b (atom a) (atom m) = MaskAtom b a m
  Mask b (list i) (list j) = MaskItems b i j
  Mask b (tuple i) (tuple j) = MaskItems b i j
  Mask b (set s) (set t) = MaskSet b s t
  Mask b (frozenset s) (frozenset t) = MaskSet b s t
  Mask b (dict d) (dict e) = MaskFields d e
  Mask b _ _ = ⊥

  pub MaskItems : Bool → Items → Items → Type 0
  MaskItems b no_items no_items = Unit
  MaskItems b (item v i) (item w j) = Mask b v w × MaskItems b i j
  MaskItems b _ _ = ⊥

  -- the same keys in the same order, each deciding for what stands under it
  pub MaskFields : Fields → Fields → Type 0
  MaskFields no_fields no_fields = Unit
  MaskFields (field k v d) (field l w e) = (l ≡ k) × Mask (is_sensitive k) v w × MaskFields d e
  MaskFields _ _ = ⊥

not_true : (a b : Bool) → a ≡ b → a ≡ true → b ≡ false → ⊥
not_true a b same h h' = absurd (ground (arith, same, h, h'))

masked_string : (s : String) → MaskAtom true (str s) (censor_atom true (str s))
unfolding censor_atom is_censored
masked_string s = elim (Bool-cases (str_eq s "")) [
  | inl empty ↦ rw empty (inl ((eq_iff s "").0 empty, refl))
  | inr full ↦
      rw full
        (inr ((λ e. not_true (str_eq s "") (str_eq s "") refl ((eq_iff s "").1 e) full), refl))
]

masked_number : (n : ℤ) → MaskAtom true (int n) (censor_atom true (int n))
unfolding censor_atom is_censored
masked_number n = elim (Bool-cases (eqz n (pos 0))) [
  | inl zero ↦ rw zero (inl (eqz_sound n (pos 0) zero, refl))
  | inr full ↦
      rw full
        (inr ((λ e. not_true (eqz n n) (eqz n (pos 0)) (ap (eqz n) e) (eqz_refl n) full), refl))
]

censor_atom-MaskAtom : (b : Bool) (a : Atom) → MaskAtom b a (censor_atom b a)
unfolding censor_atom is_censored
censor_atom-MaskAtom false a = refl
censor_atom-MaskAtom true (str s) = masked_string s
censor_atom-MaskAtom true (int n) = masked_number n
censor_atom-MaskAtom true _ = refl

bytes_eq_refl : (s : List ℕ) → bytes_eq s s ≡ true
bytes_eq_refl [] = refl
bytes_eq_refl (c ∷ s) = ground (arith, bytes_eq_refl s)

atom_eq_refl : (a : Atom) → atom_eq a a ≡ true
unfolding atom_eq
atom_eq_refl null = refl
atom_eq_refl (bool true) = refl
atom_eq_refl (bool false) = refl
atom_eq_refl (int n) = eqz_refl n
atom_eq_refl (str s) = eq_refl s
atom_eq_refl (bytes s) = bytes_eq_refl s
atom_eq_refl (other n) = ground arith

module _ (b : Bool) where
  abbrev masked : List Atom → List Atom
  masked members = make_set (map (censor_atom b) members)

  -- what a set has is what was put into it
  shown :
      (m a : Atom) (members done : List Atom)
      → Among m (add (censor_atom b a) done)
      → (Among m done → (x : Atom) × Among x members × MaskAtom b x m)
      → (x : Atom) × Among x (a ∷ members) × MaskAtom b x m
  shown m a members done there rest = elim (Bool-cases (any (atom_eq (censor_atom b a)) done)) [
    | inl known ↦ let (x, among, mask) = rest (rw known at there) in (x, inr among, mask)
    | inr new ↦ elim (rw new at there) [
      | inl e ↦ (a, inl refl, subst (MaskAtom b a) (sym e) (censor_atom-MaskAtom b a))
      | inr later ↦ let (x, among, mask) = rest later in (x, inr among, mask)
    ]
  ]

  masked-Among :
      (m : Atom) (members : List Atom)
      → Among m (masked members)
      → (x : Atom) × Among x members × MaskAtom b x m
  unfolding make_set
  masked-Among m [] there = absurd there
  masked-Among m (a ∷ members) there =
      shown m a members (masked members) there (masked-Among m members)

  added : (a : Atom) (done : List Atom) → any (atom_eq a) (add a done) ≡ true
  added a done = elim (Bool-cases (any (atom_eq a) done)) [
    | inl known ↦ rw (known, known) refl
    | inr new ↦ rw (new, atom_eq_refl a) refl
  ]

  still :
      (m a : Atom) (done : List Atom)
      → any (atom_eq m) done ≡ true
      → any (atom_eq m) (add a done) ≡ true
  still m a done h = elim (Bool-cases (any (atom_eq a) done)) [
    | inl known ↦ rw known h
    | inr new ↦ rw new (ground (arith, h))
  ]

  Among-masked :
      (a : Atom) (members : List Atom)
      → Among a members
      → any (atom_eq (censor_atom b a)) (masked members) ≡ true
  unfolding make_set
  Among-masked a [] there = absurd there
  Among-masked a (x ∷ members) (inl e) = rw e (added (censor_atom b x) (masked members))
  Among-masked a (x ∷ members) (inr there) =
      still (censor_atom b a) (censor_atom b x) (masked members) (Among-masked a members there)

  masked-MaskSet : (members : List Atom) → MaskSet b members (masked members)
  masked-MaskSet members = (
    λ m there. masked-Among m members there,
    λ a there. (censor_atom b a, censor_atom-MaskAtom b a, Among-masked a members there),
  )

mutual
  unfolding censor

  censor-Mask : (b : Bool) (v : Value) → Mask b v (censor b v)
  censor-Mask b (atom a) = censor_atom-MaskAtom b a
  censor-Mask b (list i) = censor_items-MaskItems b i
  censor-Mask b (tuple i) = censor_items-MaskItems b i
  censor-Mask b (set members) = masked-MaskSet b members
  censor-Mask b (frozenset members) = masked-MaskSet b members
  censor-Mask b (dict d) = censor_fields-MaskFields d

  censor_items-MaskItems : (b : Bool) (i : Items) → MaskItems b i (censor_items b i)
  censor_items-MaskItems b no_items = tt
  censor_items-MaskItems b (item v i) = (censor-Mask b v, censor_items-MaskItems b i)

  censor_fields-MaskFields : (d : Fields) → MaskFields d (censor_dict d)
  censor_fields-MaskFields no_fields = tt
  censor_fields-MaskFields (field k v d) =
      (refl, censor-Mask (is_sensitive k) v, censor_fields-MaskFields d)
