-- ===== src/Client/Expander/Requests/Sets.antt =====
-- Sets of values, of Client._expand_objects in pysoa/client/client.py: what adding and taking away
-- does to them.
use pysoa.Prelude.{◌≡◌, refl, Bool, false, ◌||◌, List, [], ◌∷◌, ◌++◌, arith, Bool-cases, inl, inr}
use pysoa.Client.Expander.Requests.{member, add_value, minus}

neither : (a b : Bool) → a || b ≡ false → (a ≡ false) × (b ≡ false)
neither a b e = ground (arith, e)

module _ {K : Type 0} (eq : K → K → Bool) where
  abbrev pub Distinct : List K → Type 0
  Distinct [] = Unit
  Distinct (v ∷ values) = (member eq v values ≡ false) × Distinct values

  pub add_value-Distinct :
      (v : K) (values : List K) → Distinct values → Distinct (add_value eq v values)
  add_value-Distinct v values d = elim (Bool-cases (member eq v values)) [
    | inl e ↦ rw e d
    | inr e ↦ rw e (e, d)
  ]

  member-append :
      (v : K) (xs ys : List K) → member eq v (xs ++ ys) ≡ member eq v xs || member eq v ys
  member-append v [] ys = refl
  member-append v (x ∷ xs) ys = ground (arith, member-append v xs ys)

  member-minus :
      (v : K) (xs ys : List K) → member eq v xs ≡ false → member eq v (minus eq xs ys) ≡ false
  member-minus v [] ys e = refl
  member-minus v (x ∷ xs) ys e = elim (Bool-cases (member eq x ys)) [
    | inl there ↦ rw there (member-minus v xs ys (neither (eq v x) (member eq v xs) e).1)
    | inr new ↦ rw new (
        ground (
          arith,
          neither (eq v x) (member eq v xs) e,
          member-minus v xs ys (neither (eq v x) (member eq v xs) e).1,
        ))
  ]

  pub minus-Distinct :
      (xs ys : List K) → Distinct xs → Distinct ys → Distinct (minus eq xs ys ++ ys)
  minus-Distinct [] ys d d' = d'
  minus-Distinct (x ∷ xs) ys d d' = elim (Bool-cases (member eq x ys)) [
    | inl there ↦ rw there (minus-Distinct xs ys d.1 d')
    | inr new ↦ rw new (
      ground (arith, member-append x (minus eq xs ys) ys, member-minus x xs ys d.0, new),
      minus-Distinct xs ys d.1 d',
    )
  ]
