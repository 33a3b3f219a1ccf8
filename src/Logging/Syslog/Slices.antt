-- ===== src/Logging/Syslog/Slices.antt =====
-- The slices of _cleanly_slice_encoded_string (pysoa/common/logging.py), of a row of characters.
use pysoa.Prelude.{
  ℕ, zero, suc, ◌+◌, ◌-◌, ◌≤◌, ◌<◌, ◌≡◌, refl, ap, sym, ◌∙◌, true, Option, none, some, List, [],
  ◌∷◌, ◌++◌, arith, Bytes, leb, if◌then◌else◌, length, take, drop, length-append, take-append-drop,
  append_assoc, All, Bool-cases, inl, inr, pos, leb→le, leb_false→lt, subst,
}
use pysoa.Logging.Syslog.Utf8.{Range, in_range, lead, scan, good_length}
use pysoa.Logging.Syslog.{cleanly_slice_encoded_string, encode}

-- The bytes are in the ranges, one for one.
abbrev pub Matches : List Range → Bytes → Type 0
Matches [] [] = Unit
Matches [] (c ∷ t) = ⊥
Matches (r ∷ rs) [] = ⊥
Matches (r ∷ rs) (c ∷ t) = (in_range r c ≡ true) × Matches rs t

-- The bytes are the encoding of one character.
abbrev pub IsChar : Bytes → Type 0
IsChar [] = ⊥
IsChar (c ∷ t) = (rs : List Range) × (lead c ≡ some rs) × Matches rs t

-- the characters that fit, from the first on, and those that are left
abbrev pub fitting : ℕ → List Bytes → List Bytes
fitting limit [] = []
fitting limit (c ∷ cs) = if leb (length c) limit then c ∷ fitting (limit - length c) cs else []

abbrev pub left : ℕ → List Bytes → List Bytes
left limit [] = []
left limit (c ∷ cs) = if leb (length c) limit then left (limit - length c) cs else c ∷ cs

scan_tail :
    (rs : List Range) (g n : ℕ) (t s : Bytes)
    → Matches rs t
    → scan rs g n (t ++ s) ≡ scan [] g (n + length t) s
unfolding scan
scan_tail [] g n [] s h = ap (λ k. scan [] g k s) (omega arith)
scan_tail [] g n (c ∷ t) s h = absurd h
scan_tail (r ∷ rs) g n [] s h = absurd h
scan_tail (r ∷ rs) g n (c ∷ t) s h =
    rw h.0 (scan_tail rs g (n + 1) t s h.1 ∙ ap (λ k. scan [] g k s) (omega arith))

scan_shift : (g n : ℕ) (s : Bytes) → scan [] g n s ≡ scan [] (g + n) 0 s
unfolding scan
scan_shift g n [] = omega arith
scan_shift g n (c ∷ s) = by_lead (lead c)
  where
    by_lead :
        (o : Option (List Range))
        → (elim o [ none ↦ g + n | some rs ↦ scan rs (g + n) 1 s ])
          ≡ (elim o [ none ↦ g + n + 0 | some rs ↦ scan rs (g + n + 0) 1 s ])
    by_lead none = omega arith
    by_lead (some rs) = ap (λ k. scan rs k 1 s) (omega arith)

-- A character is passed over.
scan_char : (g : ℕ) (c s : Bytes) → IsChar c → scan [] g 0 (c ++ s) ≡ scan [] (g + length c) 0 s
unfolding scan
scan_char g [] s h = absurd h
scan_char g (a ∷ t) s (rs, first, rest) =
    rw (first, scan)
      (scan_tail rs (g + 0) 1 t s rest
        ∙ scan_shift (g + 0) (1 + length t) s
        ∙ ap (λ k. scan [] k 0 s) (omega arith))

scan_tail_cut :
    (rs : List Range) (g n k : ℕ) (t : Bytes)
    → Matches rs t
    → k < length t
    → scan rs g n (take k t) ≡ g
unfolding scan
scan_tail_cut [] g n k [] h lt = absurd (omega arith)
scan_tail_cut [] g n k (c ∷ t) h lt = absurd h
scan_tail_cut (r ∷ rs) g n k [] h lt = absurd h
scan_tail_cut (r ∷ rs) g n zero (c ∷ t) h lt = refl
scan_tail_cut (r ∷ rs) g n (suc k) (c ∷ t) h lt =
    rw h.0 (scan_tail_cut rs g (n + 1) k t h.1 (omega arith))

-- A part of a character is not.
scan_char_cut : (g k : ℕ) (c : Bytes) → IsChar c → k < length c → scan [] g 0 (take k c) ≡ g
unfolding scan
scan_char_cut g zero [] h lt = absurd h
scan_char_cut g (suc k) [] h lt = absurd h
scan_char_cut g zero (a ∷ t) h lt = omega arith
scan_char_cut g (suc k) (a ∷ t) (rs, first, rest) lt =
    rw (first, scan) (scan_tail_cut rs (g + 0) 1 k t rest (omega arith) ∙ (omega arith))

-- what a take and a drop do to two parts
take_whole : (l : ℕ) (a b : Bytes) → length a ≤ l → take l (a ++ b) ≡ a ++ take (l - length a) b
take_whole l [] b h = ap (λ k. take k b) (omega arith)
take_whole zero (x ∷ a) b h = absurd (omega arith)
take_whole (suc l) (x ∷ a) b h =
    ap (λ s. x ∷ s) (take_whole l a b (omega arith)) ∙ ap (λ k. x ∷ (a ++ take k b)) (omega arith)

take_part : (l : ℕ) (a b : Bytes) → l < length a → take l (a ++ b) ≡ take l a
take_part l [] b h = absurd (omega arith)
take_part zero (x ∷ a) b h = refl
take_part (suc l) (x ∷ a) b h = ap (λ s. x ∷ s) (take_part l a b (omega arith))

drop_whole : (l : ℕ) (a b : Bytes) → length a ≤ l → drop l (a ++ b) ≡ drop (l - length a) b
drop_whole l [] b h = ap (λ k. drop k b) (omega arith)
drop_whole zero (x ∷ a) b h = absurd (omega arith)
drop_whole (suc l) (x ∷ a) b h = drop_whole l a b (omega arith) ∙ ap (λ k. drop k b) (omega arith)

-- The decoder stops behind the characters that fit.
scan-fitting :
    (g limit : ℕ) (cs : List Bytes)
    → All IsChar cs
    → scan [] g 0 (take limit (encode cs)) ≡ g + length (encode (fitting limit cs))
unfolding scan
scan-fitting g zero [] h = omega arith
scan-fitting g (suc limit) [] h = omega arith
scan-fitting g limit (c ∷ cs) h = elim (Bool-cases (leb (length c) limit)) [
  | inl fits ↦
      let le = leb→le (length c) limit fits in
      rw (fits, take_whole limit c (encode cs) le)
        (scan_char g c (take (limit - length c) (encode cs)) h.0
          ∙ scan-fitting (g + length c) (limit - length c) cs h.1
          ∙ (omega (arith, length-append c (encode (fitting (limit - length c) cs)))))
  | inr big ↦
      let lt = leb_false→lt (length c) limit big in
      rw (big, take_part limit c (encode cs) lt) (scan_char_cut g limit c h.0 lt ∙ omega arith)
]

good_stops :
    (limit : ℕ) (cs : List Bytes)
    → All IsChar cs
    → good_length (take limit (encode cs)) ≡ length (encode (fitting limit cs))
unfolding good_length
good_stops limit cs h = scan-fitting 0 limit cs h ∙ omega arith

pub fitting-left : (limit : ℕ) (cs : List Bytes) → fitting limit cs ++ left limit cs ≡ cs
fitting-left limit [] = refl
fitting-left limit (c ∷ cs) = elim (Bool-cases (leb (length c) limit)) [
  | inl fits ↦ rw fits (ap (λ xs. c ∷ xs) (fitting-left (limit - length c) cs))
  | inr big ↦ rw big refl
]

pub length-fitting : (limit : ℕ) (cs : List Bytes) → length (encode (fitting limit cs)) ≤ limit
length-fitting limit [] = omega arith
length-fitting limit (c ∷ cs) = elim (Bool-cases (leb (length c) limit)) [
  | inl fits ↦
      let le = leb→le (length c) limit fits in
      rw fits (
        omega (
          arith,
          length-append c (encode (fitting (limit - length c) cs)),
          length-fitting (limit - length c) cs,
        ))
  | inr big ↦ rw big (omega arith)
]

pub encode-append : (xs ys : List Bytes) → encode (xs ++ ys) ≡ encode xs ++ encode ys
encode-append [] ys = refl
encode-append (x ∷ xs) ys =
    ap (λ s. x ++ s) (encode-append xs ys) ∙ sym (append_assoc x (encode xs) (encode ys))

take-length : (a b : Bytes) → take (length a) (a ++ b) ≡ a
take-length [] b = refl
take-length (x ∷ a) b = ap (λ s. x ∷ s) (take-length a b)

drop-length : (a b : Bytes) → drop (length a) (a ++ b) ≡ b
drop-length [] b = refl
drop-length (x ∷ a) b = drop-length a b

slice_at :
    (limit n : ℕ) (a b : Bytes)
    → length a ≤ limit
    → n ≡ length a
    → let s = a ++ b in (take n (take limit s) ≡ a) × (drop n (take limit s) ++ drop limit s ≡ b)
slice_at limit n a b le e =
    rw (e, take_whole limit a b le, drop_whole limit a b le)
      (
        take-length a (take (limit - length a) b),
        ap (λ s. s ++ drop (limit - length a) b) (drop-length a (take (limit - length a) b))
            ∙ take-append-drop (limit - length a) b,
      )

-- Of a row of characters the slice takes as many as fit into a limit that is not negative, from the
-- first on and never a part of one, and what is left is the other characters.
pub cleanly_slice_encoded_string-encode :
    (limit : ℕ) (cs : List Bytes)
    → All IsChar cs
    → (cleanly_slice_encoded_string (encode cs) (pos limit)
        ≡ (encode (fitting limit cs), encode (left limit cs)))
      × (fitting limit cs ++ left limit cs ≡ cs)
      × (length (encode (fitting limit cs)) ≤ limit)
unfolding cleanly_slice_encoded_string
cleanly_slice_encoded_string-encode limit cs h =
    let whole : encode (fitting limit cs) ++ encode (left limit cs) ≡ encode cs =
      sym (encode-append (fitting limit cs) (left limit cs)) ∙ ap encode (fitting-left limit cs) in
    let stops : good_length (take limit (encode cs)) ≡ length (encode (fitting limit cs)) =
      good_stops limit cs h in
    let n = good_length (take limit (encode cs)) in
    let (first, second) =
      slice_at limit n (encode (fitting limit cs)) (encode (left limit cs))
        (length-fitting limit cs) stops in
    let first' = subst (λ s. take n (take limit s) ≡ encode (fitting limit cs)) whole first in
    let second' =
      subst (λ s. drop n (take limit s) ++ drop limit s ≡ encode (left limit cs)) whole second in
    (rw (first', second') refl, fitting-left limit cs, length-fitting limit cs)
