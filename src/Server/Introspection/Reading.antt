-- ===== src/Server/Introspection/Reading.antt =====
-- The names that introspection writes, read by its regular expression
-- (pysoa/server/action/introspection.py).
use pysoa.Prelude.{
  ℕ, ◌≡◌, refl, ap, ◌∙◌, true, false, some, [], ◌∷◌, ◌++◌, pos, negsuc, All, Bytes, codes, is_digit,
  is_empty, decimal, strip_prefix, run_of-append, rest_of-append, decimal-AllDigits, decimal-cons,
  parse_int-decimal,
}
use pysoa.Server.Introspection.{
  Part, default_part, switch_part, text_of, is_name_char, match_digits, match_part, named_part,
  match_switched_action,
}

-- The regular expression takes this for the name of an action.
abbrev pub IsName : Bytes → Type 0
IsName [] = ⊥
IsName (c ∷ name) = All (λ x. is_name_char x ≡ true) (c ∷ name)

-- It reads no minus sign.
abbrev pub IsReadable : Part → Type 0
IsReadable default_part = Unit
IsReadable (switch_part (pos n)) = Unit
IsReadable (switch_part (negsuc n)) = ⊥

is_empty-decimal : (n : ℕ) → is_empty (decimal n) ≡ false
is_empty-decimal n = let (c, s, e) = decimal-cons n in ap is_empty e

match_digits-decimal : (n : ℕ) → match_digits (decimal n ++ codes "]") ≡ some (switch_part (pos n))
unfolding strip_prefix
match_digits-decimal n =
    rw
      (
        run_of-append is_digit (decimal n) b']' [] (decimal-AllDigits n) refl,
        rest_of-append is_digit (decimal n) b']' [] (decimal-AllDigits n) refl,
        is_empty-decimal n,
        parse_int-decimal n,
      )
      refl

-- what stands behind the name
abbrev bracket : Part → Bytes
bracket default_part = codes "[DEFAULT]"
bracket (switch_part (pos n)) = codes "[switch:" ++ (decimal n ++ codes "]")
bracket (switch_part (negsuc n)) = []

match_part-bracket : (part : Part) → IsReadable part → match_part (bracket part) ≡ some part
unfolding strip_prefix
match_part-bracket default_part h = refl
match_part-bracket (switch_part (pos n)) h = match_digits-decimal n
match_part-bracket (switch_part (negsuc n)) h = absurd h

named : (name : Bytes) (part : Part) → IsName name → named_part name (some part) ≡ some (name, part)
named [] part h = absurd h
named (c ∷ name) part h = refl

IsName-All : (name : Bytes) → IsName name → All (λ x. is_name_char x ≡ true) name
IsName-All [] h = absurd h
IsName-All (c ∷ name) h = h

pub match_switched_action-text_of :
    (name : Bytes) (part : Part)
    → IsName name
    → IsReadable part
    → match_switched_action (text_of name part) ≡ some (name, part)
unfolding match_switched_action
match_switched_action-text_of name default_part h r =
    rw
      (
        run_of-append is_name_char name b'[' (codes "DEFAULT]") (IsName-All name h) refl,
        rest_of-append is_name_char name b'[' (codes "DEFAULT]") (IsName-All name h) refl,
      )
      (ap (named_part name) (match_part-bracket default_part tt) ∙ named name default_part h)
match_switched_action-text_of name (switch_part (pos n)) h r =
    let rest = codes "switch:" ++ (decimal n ++ codes "]") in
    rw
      (
        run_of-append is_name_char name b'[' rest (IsName-All name h) refl,
        rest_of-append is_name_char name b'[' rest (IsName-All name h) refl,
      )
      (ap (named_part name) (match_part-bracket (switch_part (pos n)) tt)
        ∙ named name (switch_part (pos n)) h)
match_switched_action-text_of name (switch_part (negsuc n)) h r = absurd r
