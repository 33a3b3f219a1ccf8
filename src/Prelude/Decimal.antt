-- ===== src/Prelude/Decimal.antt =====
-- `b'%d' % n` and `int(...)` on byte strings: decimal numerals, printed and read back.
use Prim.Native.Nat.{ℕ, zero, suc, ◌+◌, ◌-◌, ◌*◌, ◌/◌, ◌%◌, ◌<◌}
use mathlib.Core.Path.{◌≡◌, refl, sym, ◌∙◌, ap}
use mathlib.Core.Bool.{Bool, true, false, ◌&&◌}
use mathlib.Core.Option.{Option, none, some}
use mathlib.Core.List.{[], ◌∷◌, ◌++◌}
use native.Mathlib.Omega.{arith}
use pysoa.Prelude.Tests.{ltb, ltb→lt, ◌==◌, if◌then◌else◌, Bool-cases}
use pysoa.Prelude.Lists.{All, All-append}
use pysoa.Prelude.ByteStrings.{Bytes, is_digit}
use mathlib.Core.Logic.{inl, inr}

-- Python's integers. `negsuc n` is -(n + 1).
pub data ℤ : Type 0 where
  pos : ℕ → ℤ
  negsuc : ℕ → ℤ

abbrev pub neg : ℕ → ℤ
neg zero = pos 0
neg (suc n) = negsuc n

abbrev pub ltz : ℤ → ℤ → Bool
ltz (pos a) (pos b) = ltb a b
ltz (pos a) (negsuc b) = false
ltz (negsuc a) (pos b) = true
ltz (negsuc a) (negsuc b) = ltb b a

abbrev pub eqz : ℤ → ℤ → Bool
eqz (pos a) (pos b) = a == b
eqz (negsuc a) (negsuc b) = a == b
eqz _ _ = false

pub eqz_sound : (a b : ℤ) → eqz a b ≡ true → a ≡ b
eqz_sound (pos a) (pos b) h = ap pos (ground arith)
eqz_sound (negsuc a) (negsuc b) h = ap negsuc (ground arith)
eqz_sound (pos a) (negsuc b) h = absurd (ground (arith, h))
eqz_sound (negsuc a) (pos b) h = absurd (ground (arith, h))

pub eqz_refl : (a : ℤ) → eqz a a ≡ true
eqz_refl (pos a) = ground arith
eqz_refl (negsuc a) = ground arith

abbrev pub add_one : ℤ → ℤ
add_one (pos n) = pos (n + 1)
add_one (negsuc zero) = pos 0
add_one (negsuc (suc n)) = negsuc n

-- the digits of `n`, most significant first; `fuel` above `n` is enough
print_digits : ℕ → ℕ → Bytes
print_digits zero n = []
print_digits (suc fuel) n =
    let front = print_digits fuel (n / 10) in
    if ltb n 10 then (48 + n) ∷ [] else front ++ (48 + n % 10) ∷ []

unfoldable pub decimal : ℕ → Bytes
unfolding print_digits
decimal n = print_digits (suc n) n

-- Digits, with single underscores between digits, as `int` reads them. `after_digit` says whether
-- the last character was a digit.
unfoldable pub read_digits : Bool → ℕ → Bytes → Option ℕ
read_digits after_digit acc [] = if after_digit then some acc else none
read_digits after_digit acc (c ∷ s) = elim (is_digit c) [
  | true ↦ read_digits true (acc * 10 + (c - 48)) s
  | false ↦ elim (after_digit && c == b'_') [ true ↦ read_digits false acc s | false ↦ none ]
]

unfoldable pub parse_int : Bytes → Option ℤ
unfolding read_digits
parse_int [] = none
parse_int (c ∷ s) =
    if c == b'-'
    then elim (read_digits false 0 s) [ none ↦ none | some n ↦ some (neg n) ]
    else elim (read_digits false 0 (c ∷ s)) [ none ↦ none | some n ↦ some (pos n) ]

abbrev pub AllDigits : Bytes → Type 0
AllDigits s = All (λ c. is_digit c ≡ true) s

digit_fact : (n : ℕ) → n < 10 → is_digit (48 + n) ≡ true
digit_fact n h = ground arith

print_digits-AllDigits : (f n : ℕ) → AllDigits (print_digits f n)
unfolding print_digits
print_digits-AllDigits zero n = tt
print_digits-AllDigits (suc f) n = elim (Bool-cases (ltb n 10)) [
  | inl small ↦ rw small (digit_fact n (ltb→lt n 10 small), tt)
  | inr large ↦ rw large (
      All-append _ (print_digits f (n / 10)) _ (print_digits-AllDigits f (n / 10))
        (digit_fact (n % 10) (omega arith), tt))
]

pub decimal-AllDigits : (n : ℕ) → AllDigits (decimal n)
unfolding decimal
decimal-AllDigits n = print_digits-AllDigits (suc n) n

-- the number that a row of digits stands for, behind those that make up `acc`
value : ℕ → Bytes → ℕ
value acc [] = acc
value acc (c ∷ s) = value (acc * 10 + (c - 48)) s

value-append : (acc : ℕ) (s t : Bytes) → value acc (s ++ t) ≡ value (value acc s) t
unfolding value
value-append acc [] t = refl
value-append acc (c ∷ s) t = value-append (acc * 10 + (c - 48)) s t

value-print_digits : (f n : ℕ) → n < f → value 0 (print_digits f n) ≡ n
unfolding print_digits value
value-print_digits zero n h = elim h [ ]
value-print_digits (suc f) n h = elim (Bool-cases (ltb n 10)) [
  | inl small ↦ rw small (omega arith)
  | inr large ↦
      rw (large, value-append 0 (print_digits f (n / 10)) ((48 + n % 10) ∷ []))
        (rw (value-print_digits f (n / 10) (ground arith)) (omega arith))
]

read_digits-value :
    (acc : ℕ) (s : Bytes) → AllDigits s → read_digits true acc s ≡ some (value acc s)
unfolding read_digits value
read_digits-value acc [] h = refl
read_digits-value acc (c ∷ s) h =
    rw (h.0, read_digits) (read_digits-value (acc * 10 + (c - 48)) s h.1)

-- A printed numeral begins with a digit.
print_digits-cons : (f n : ℕ) → (c : ℕ) × (s : Bytes) × (print_digits (suc f) n ≡ c ∷ s)
unfolding print_digits
print_digits-cons zero n = elim (Bool-cases (ltb n 10)) [
  | inl small ↦ (48 + n, [], rw small)
  | inr large ↦ (48 + n % 10, [], rw large)
]
print_digits-cons (suc f) n = elim (Bool-cases (ltb n 10)) [
  | inl small ↦ (48 + n, [], rw small)
  | inr large ↦
      let (c, s, e) = print_digits-cons f (n / 10) in (c, s ++ (48 + n % 10) ∷ [], rw (large, e))
]

read_row :
    (c : ℕ) (s : Bytes) → AllDigits (c ∷ s) → parse_int (c ∷ s) ≡ some (pos (value 0 (c ∷ s)))
unfolding parse_int value
read_row c s h = ground (arith, h.0, read_digits-value (0 * 10 + (c - 48)) s h.1)

-- Reading a printed number gives that number.
pub parse_int-decimal : (n : ℕ) → parse_int (decimal n) ≡ some (pos n)
unfolding decimal
parse_int-decimal n =
    let (c, s, e) = print_digits-cons n n in
    rw (e) (
      read_row c s (rw e at (print_digits-AllDigits (suc n) n))
      ∙ ap (λ v. some (pos v)) (sym (ap (value 0) e) ∙ value-print_digits (suc n) n (omega arith)))

pub decimal-cons : (n : ℕ) → (c : ℕ) × (s : Bytes) × (decimal n ≡ c ∷ s)
unfolding decimal
decimal-cons n = print_digits-cons n n
