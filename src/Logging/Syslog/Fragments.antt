-- ===== src/Logging/Syslog/Fragments.antt =====
-- The fragments that `emit` of SyslogHandler (pysoa/common/logging.py) makes of a long record.
use pysoa.Prelude.{
  ℕ, zero, suc, ◌+◌, ◌-◌, ◌≤◌, ◌<◌, ◌≡◌, refl, ap, sym, ◌∙◌, true, false, some, List, [], ◌∷◌, ◌++◌,
  arith, Bytes, leb, length, length-append, All, pos, subst, is_empty,
}
use pysoa.Logging.Syslog.Utf8.{Range, lead}
use pysoa.Logging.Syslog.{minus, subtractor, begun, continued, fragments, Text, encode}
use pysoa.Logging.Syslog.Slices.{
  Matches, IsChar, fitting, left, fitting-left, cleanly_slice_encoded_string-encode,
}

lead-length : (c : ℕ) (rs : List Range) → lead c ≡ some rs → length rs ≤ 3
lead-length c rs e = ground (arith, e)

Matches-length : (rs : List Range) (t : Bytes) → Matches rs t → length t ≡ length rs
Matches-length [] [] h = refl
Matches-length [] (c ∷ t) h = absurd h
Matches-length (r ∷ rs) [] h = absurd h
Matches-length (r ∷ rs) (c ∷ t) h = omega (arith, Matches-length rs t h.1)

IsChar-length : (c : Bytes) → IsChar c → length c ≤ 4
IsChar-length [] h = absurd h
IsChar-length (a ∷ t) (rs, first, rest) =
    omega (arith, lead-length a rs first, Matches-length rs t rest)

minus-le : (n k : ℕ) → k ≤ n → minus (pos n) k ≡ pos (n - k)
unfolding minus
minus-le n k h = ground (arith, h)

-- the characters of some texts, one text after the other
abbrev pub concat : List Text → Text
concat [] = []
concat (t ∷ ts) = t ++ concat ts

-- The parts of the texts: each with its number from the second on, and with a mark that it is
-- continued where anything is left.
abbrev pub parts_of : (Bytes → Bytes) → ℕ → List Text → List Bytes
parts_of packet i [] = []
parts_of packet i (t ∷ ts) =
    packet (continued (encode (concat ts)) (begun i (encode t))) ∷ parts_of packet (i + 1) ts

-- The texts are not empty, and with their numbers they keep to the limit.
abbrev pub Fit : ℕ → ℕ → List Text → Type 0
Fit limit i [] = Unit
Fit limit i (t ∷ ts) =
    (is_empty t ≡ false) × (subtractor i + length (encode t) ≤ limit) × Fit limit (i + 1) ts

-- The numbers of so many further parts leave room for any character.
abbrev pub Room : ℕ → ℕ → ℕ → Type 0
Room limit i n = (j : ℕ) → j ≤ i + n → subtractor j + 4 ≤ limit

-- the parts of a row of characters
abbrev pub SentAs : ℕ → (Bytes → Bytes) → ℕ → ℕ → Text → Type 0
SentAs fuel packet limit i cs =
    (texts : List Text) × (fragments fuel packet (pos limit) i (encode cs)
      ≡ some (parts_of packet i texts))
    × (concat texts ≡ cs)
    × Fit limit i texts

module _ (packet : Bytes → Bytes) (limit : ℕ) where
  SentAs-step :
      (fuel i a : ℕ) (t : Bytes) (cs : Text)
      → All IsChar ((a ∷ t) ∷ cs)
      → subtractor i + 4 ≤ limit
      → let l = limit - subtractor i in
        SentAs fuel packet limit (i + 1) (left l ((a ∷ t) ∷ cs))
        → SentAs (suc fuel) packet limit i ((a ∷ t) ∷ cs)
  unfolding fragments
  SentAs-step fuel i a t cs chars room (texts, sent, same, fit) =
      let l = limit - subtractor i in
      let all = (a ∷ t) ∷ cs in
      let first = fitting l all in
      let (sliced, whole, le) = cleanly_slice_encoded_string-encode l all chars in
      let small = IsChar-length (a ∷ t) chars.0 in
      let fits : leb (length (a ∷ t)) l ≡ true = ground (arith, small, room) in
      let begins : is_empty first ≡ false = rw fits refl in
      let rest : encode (left l all) ≡ encode (concat texts) = ap encode (sym same) in
      (
        first ∷ texts,
        rw (minus-le limit (subtractor i) (omega (arith, room)), sliced, sent, rest) refl,
        ap (λ x. first ++ x) same ∙ whole,
        (begins, (omega (arith, le, room)), fit),
      )

  All-right : (xs ys : Text) → All IsChar (xs ++ ys) → All IsChar ys
  All-right [] ys h = h
  All-right (x ∷ xs) ys h = All-right xs ys h.1

  -- What is left behind a first text is shorter.
  length-left :
      (l : ℕ) (c : Bytes) (cs : Text) → length c ≤ l → length (left l (c ∷ cs)) ≤ length cs
  length-left l c cs h =
      let fits : leb (length c) l ≡ true = ground (arith, h) in
      rw fits (
        omega (
          arith,
          ap length (fitting-left (l - length c) cs),
          length-append (fitting (l - length c) cs) (left (l - length c) cs),
        ))

  -- The loop ends, after at most one round for each character, where the numbers of the parts leave
  -- room for any character.
  pub fragments-parts_of :
      (fuel i : ℕ) (cs : Text)
      → All IsChar cs
      → length cs < fuel
      → Room limit i (length cs)
      → SentAs fuel packet limit i cs
  unfolding fragments
  fragments-parts_of zero i cs chars enough room = absurd (omega arith)
  fragments-parts_of (suc fuel) i [] chars enough room = ([], refl, refl, tt)
  fragments-parts_of (suc fuel) i ([] ∷ cs) chars enough room = absurd chars.0
  fragments-parts_of (suc fuel) i ((a ∷ t) ∷ cs) chars enough room =
      let l = limit - subtractor i in
      let all = (a ∷ t) ∷ cs in
      let here = room i (omega arith) in
      let fewer = length-left l (a ∷ t) cs (omega (arith, IsChar-length (a ∷ t) chars.0, here)) in
      SentAs-step fuel i a t cs chars here (
        fragments-parts_of fuel (i + 1) (left l all)
          (All-right (fitting l all) (left l all)
            (subst (All IsChar) (sym (fitting-left l all)) chars))
          (omega (arith, fewer, enough)) (λ j le. room j (omega (arith, fewer, le))))
