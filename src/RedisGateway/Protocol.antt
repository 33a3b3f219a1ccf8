-- ===== src/RedisGateway/Protocol.antt =====
-- redis_gateway/constants.py: the protocol versions, their prefixes and their features.
use pysoa.Prelude.{
  ℕ, ◌≡◌, refl, ◌∙◌, ap, Bool, Option, none, some, [], ◌∷◌, ◌++◌, append_assoc, Bytes, codes,
  strip_prefix, strip_prefix-append, is_digit, run_of, rest_of, run_of-append, rest_of-append, leb,
  ◌==◌, if◌then◌else◌, ℤ, pos, negsuc, decimal, decimal-AllDigits, decimal-cons, parse_int,
  parse_int-decimal,
}
use pysoa.Errors.{Result, ok, err, value_error}

pub data ProtocolVersion : Type 0 where
  version_1 version_2 version_3 : ProtocolVersion

abbrev pub number : ProtocolVersion → ℕ
number version_1 = 1
number version_2 = 2
number version_3 = 3

-- ProtocolVersion(n)
abbrev pub of_number : ℤ → Result ProtocolVersion
of_number (pos n) =
    if n == 1
    then ok version_1
    else if n == 2
    then ok version_2
    else if n == 3
    then ok version_3
    else err value_error
of_number (negsuc n) = err value_error

abbrev marker : Bytes
marker = codes "pysoa-redis/"

unfoldable pub prefix : ProtocolVersion → Bytes
prefix v = marker ++ (decimal (number v) ++ codes "//")

-- The digits of the match have to be there, and `//` behind them.
match_end : Bytes → Option Bytes → Option (Bytes × Bytes)
match_end [] after = none
match_end (c ∷ v) none = none
match_end (c ∷ v) (some rest) = some (c ∷ v, rest)

match_digits : Bytes → Option (Bytes × Bytes)
unfolding match_end
match_digits s = match_end (run_of is_digit s) (strip_prefix (codes "//") (rest_of is_digit s))

-- PROTOCOL_VERSION_RE.match: the digits, and what is left behind the match
pub match_version : Bytes → Option (Bytes × Bytes)
unfolding match_digits
match_version s = elim (strip_prefix marker s) [ none ↦ none | some t ↦ match_digits t ]

-- ProtocolVersion(int(match.group('version'))), data[match.end():]
with_version : Option ℤ → Bytes → Result (ProtocolVersion × Bytes)
with_version none rest = err value_error
with_version (some n) rest = elim (of_number n) [ ok v ↦ ok (v, rest) | err e ↦ err e ]

-- a message with no marker is of version 2 if it begins with its header, and of version 1 else
unmarked : Option Bytes → Bytes → ProtocolVersion × Bytes
unmarked (some _) message_data = (version_2, message_data)
unmarked none message_data = (version_1, message_data)

marked_or_not : Option (Bytes × Bytes) → Bytes → Result (ProtocolVersion × Bytes)
unfolding with_version unmarked
marked_or_not (some (digits, rest)) message_data = with_version (parse_int digits) rest
marked_or_not none message_data =
    ok (unmarked (strip_prefix (codes "content-type") message_data) message_data)

unfoldable pub extract_version : Bytes → Result (ProtocolVersion × Bytes)
unfolding marked_or_not
extract_version message_data = marked_or_not (match_version message_data) message_data

pub data ProtocolFeature : Type 0 where
  content_type_header version_marker chunked_responses : ProtocolFeature

abbrev first_version : ProtocolFeature → ProtocolVersion
first_version content_type_header = version_2
first_version version_marker = version_3
first_version chunked_responses = version_3

unfoldable pub supported_in : ProtocolFeature → ProtocolVersion → Bool
supported_in f version = leb (number (first_version f)) (number version)

match_digits-decimal :
    (n : ℕ) (s : Bytes) → match_digits (decimal n ++ (codes "//" ++ s)) ≡ some (decimal n, s)
unfolding match_digits
match_digits-decimal n s =
    let (c, v, e) = decimal-cons n in
    rw
      (
        run_of-append is_digit (decimal n) 47 (47 ∷ s) (decimal-AllDigits n) refl,
        rest_of-append is_digit (decimal n) 47 (47 ∷ s) (decimal-AllDigits n) refl,
        strip_prefix-append (codes "//") s,
        e,
      )
      refl

match_version-prefix :
    (v : ProtocolVersion) (s : Bytes) → match_version (prefix v ++ s) ≡ some (decimal (number v), s)
unfolding match_version prefix strip_prefix
match_version-prefix v s =
    rw (append_assoc (decimal (number v)) (codes "//") s) (match_digits-decimal (number v) s)

with_version-number :
    (v : ProtocolVersion) (s : Bytes) → with_version (some (pos (number v))) s ≡ ok (v, s)
unfolding with_version
with_version-number version_1 s = refl
with_version-number version_2 s = refl
with_version-number version_3 s = refl

extract_version-match :
    (m d r : Bytes)
    → match_version m ≡ some (d, r)
    → extract_version m ≡ with_version (parse_int d) r
unfolding extract_version
extract_version-match m d r e = ap (λ o. marked_or_not o m) e

-- Whatever the payload, the version that a prefix marks is read back, and the payload with it.
pub extract_version-prefix :
    (v : ProtocolVersion) (s : Bytes) → extract_version (prefix v ++ s) ≡ ok (v, s)
extract_version-prefix v s =
    extract_version-match _ _ _ (match_version-prefix v s)
    ∙ ap (λ n. with_version n s) (parse_int-decimal (number v))
    ∙ with_version-number v s
