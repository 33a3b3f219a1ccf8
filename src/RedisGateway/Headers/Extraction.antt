-- ===== src/RedisGateway/Headers/Extraction.antt =====
-- What `_extract_supported_headers` takes off a message, and what it leaves.
use pysoa.Prelude.{
  ℕ, zero, suc, ◌≤◌, ◌<◌, ◌≡◌, refl, ◌∙◌, ap, true, false, Option, none, some, [], ◌∷◌, ◌++◌,
  append_assoc, arith, Bytes, codes, strip_prefix, rest_of, run_of-append, rest_of-append,
  length-rest_of-le, length-strip_prefix, length, All, Option-cases, inl, inr, is_digit, decimal,
  decimal-AllDigits, decimal-cons, AllDigits, subst,
}
use pysoa.RedisGateway.Headers.{
  HeaderName, content_type, chunk_count, chunk_id, name_bytes, is_space, is_value_byte, Found,
  after_value, after_colon, after_name, alternative, match_header, Headers, no_headers, set_header,
  extract_loop, extract_supported_headers, header,
}

-- A header value as the expression takes it: not empty, and of its alphabet.
abbrev pub IsHeaderValue : Bytes → Type 0
IsHeaderValue [] = ⊥
IsHeaderValue (c ∷ v) = All (λ x. is_value_byte x ≡ true) (c ∷ v)

value_not_space : (c : ℕ) → is_value_byte c ≡ true → is_space c ≡ false
value_not_space c h = ground arith

digit_is_value_byte : (c : ℕ) → is_digit c ≡ true → is_value_byte c ≡ true
digit_is_value_byte c h = ground arith

AllDigits-values : (s : Bytes) → AllDigits s → All (λ x. is_value_byte x ≡ true) s
AllDigits-values [] h = tt
AllDigits-values (c ∷ s) h = (digit_is_value_byte c h.0, AllDigits-values s h.1)

pub decimal-IsHeaderValue : (n : ℕ) → IsHeaderValue (decimal n)
decimal-IsHeaderValue n =
    let (c, s, e) = decimal-cons n in
    rw e (AllDigits-values (c ∷ s) (rw e at (decimal-AllDigits n)))

module _ (c : ℕ) (v rest : Bytes) (valid : All (λ x. is_value_byte x ≡ true) (c ∷ v)) where
  after_name-value :
      (n : HeaderName) → after_name n (58 ∷ c ∷ (v ++ 59 ∷ rest)) ≡ some (n, c ∷ v, rest)
  unfolding after_name rest_of strip_prefix
  after_name-value n = rw (value_not_space c valid.0) (
      rw
        (
          run_of-append is_value_byte (c ∷ v) 59 rest valid refl,
          rest_of-append is_value_byte (c ∷ v) 59 rest valid refl,
        )
        refl)

  match_header-value :
      (n : HeaderName)
      → match_header (name_bytes n ++ 58 ∷ c ∷ (v ++ 59 ∷ rest)) ≡ some (n, c ∷ v, rest)
  unfolding match_header rest_of strip_prefix
  match_header-value content_type = after_name-value content_type
  match_header-value chunk_count = after_name-value chunk_count
  match_header-value chunk_id = after_name-value chunk_id

header-append :
    (n : HeaderName) (v rest : Bytes) → header n v ++ rest ≡ name_bytes n ++ 58 ∷ (v ++ 59 ∷ rest)
header-append n v rest =
    append_assoc (name_bytes n) (58 ∷ (v ++ 59 ∷ [])) rest
    ∙ ap (λ s. name_bytes n ++ 58 ∷ s) (append_assoc v (59 ∷ []) rest)

-- A written header is matched, whatever follows it.
pub match_header-header :
    (n : HeaderName) (v rest : Bytes)
    → IsHeaderValue v
    → match_header (header n v ++ rest) ≡ some (n, v, rest)
match_header-header n [] rest h = elim h [ ]
match_header-header n (c ∷ v) rest h =
    ap match_header (header-append n (c ∷ v) rest) ∙ match_header-value c v rest h n

-- A match is never empty: what is left is shorter.
abbrev Shrinks : Bytes → Option Found → Type 0
Shrinks s o = (n : HeaderName) (v rest : Bytes) → o ≡ some (n, v, rest) → length rest < length s

after_value-rest :
    (k : HeaderName) (w : Bytes) (o : Option Bytes) (n : HeaderName) (v rest : Bytes)
    → after_value k w o ≡ some (n, v, rest)
    → o ≡ some rest
unfolding after_value
after_value-rest k [] o n v rest e = cc
after_value-rest k (c ∷ w) none n v rest e = cc
after_value-rest k (c ∷ w) (some r) n v rest e = ground (arith, e)

after_colon-length :
    (k : HeaderName) (s : Bytes) (n : HeaderName) (v rest : Bytes)
    → after_colon k (some s) ≡ some (n, v, rest)
    → length rest < length s
unfolding after_colon
after_colon-length k s n v rest e = omega (
  arith,
  length-strip_prefix (codes ";") _ rest (after_value-rest k _ _ n v rest e),
  length-rest_of-le is_space s,
  length-rest_of-le is_value_byte (rest_of is_space s),
  length-rest_of-le is_space (rest_of is_value_byte (rest_of is_space s)),
)

after_name-Shrinks : (k : HeaderName) (s : Bytes) → Shrinks s (after_name k s)
unfolding after_name
after_name-Shrinks k s n v rest e =
    elim (Option-cases (strip_prefix (codes ":") (rest_of is_space s))) [
      | inl missing ↦ cc (subst (λ o. after_colon k o ≡ some (n, v, rest)) missing e)
      | inr (r, found) ↦ omega (
        arith,
        after_colon-length k r n v rest (subst (λ o. after_colon k o ≡ some (n, v, rest)) found e),
        length-strip_prefix (codes ":") _ r found,
        length-rest_of-le is_space s,
      )
    ]

alternative-Shrinks :
    (k : HeaderName) (s : Bytes) (other : Option Found)
    → Shrinks s other
    → Shrinks s (alternative k (strip_prefix (name_bytes k) s) other)
unfolding alternative
alternative-Shrinks k s other h n v rest e = elim (Option-cases (strip_prefix (name_bytes k) s)) [
  | inl missing ↦ h n v rest (subst (λ o. alternative k o other ≡ some (n, v, rest)) missing e)
  | inr (r, found) ↦ omega (
    arith,
    after_name-Shrinks k r n v rest
        (subst (λ o. alternative k o other ≡ some (n, v, rest)) found e),
    length-strip_prefix (name_bytes k) s r found,
  )
]

pub match_header-Shrinks : (s : Bytes) → Shrinks s (match_header s)
unfolding match_header
match_header-Shrinks s n v rest e =
    let t = rest_of is_space s in
    omega (
      arith,
      length-rest_of-le is_space s,
      alternative-Shrinks content_type t _
          (alternative-Shrinks chunk_count t _
            (alternative-Shrinks chunk_id t none (λ n v rest e. cc)))
          n v rest e,
    )

extract_loop-header :
    (f : ℕ) (h : Headers) (n : HeaderName) (v rest : Bytes)
    → IsHeaderValue v
    → extract_loop (suc f) h (header n v ++ rest) ≡ extract_loop f (set_header h n v) rest
unfolding extract_loop
extract_loop-header f h n v rest valid = rw (match_header-header n v rest valid, extract_loop)

pub extract_loop-none :
    (f : ℕ) (h : Headers) (s : Bytes) → match_header s ≡ none → extract_loop f h s ≡ (h, s)
unfolding extract_loop
extract_loop-none zero h s e = refl
extract_loop-none (suc f) h s e = rw (e, extract_loop)

extract_loop_complete :
    (f : ℕ) (h : Headers) (s : Bytes) → length s ≤ f → match_header (extract_loop f h s).1 ≡ none
unfolding extract_loop match_header rest_of strip_prefix
extract_loop_complete zero h [] le = refl
extract_loop_complete zero h (c ∷ s) le = absurd (omega arith)
extract_loop_complete (suc f) h s le = elim (Option-cases (match_header s)) [
  | inl stop ↦ ap (λ p. match_header p.1) (extract_loop-none (suc f) h s stop) ∙ stop
  | inr ((n, v, rest), go) ↦
      rw (go, extract_loop)
        (extract_loop_complete f (set_header h n v) rest
          (omega (arith, match_header-Shrinks s n v rest go)))
]

-- The loop ends because nothing more matches, never because its bound is reached: what
-- `_extract_supported_headers` leaves of any message does not begin with a supported header.
pub extract_supported_headers_complete :
    (s : Bytes) → match_header (extract_supported_headers s).1 ≡ none
unfolding extract_supported_headers
extract_supported_headers_complete s = extract_loop_complete (length s) no_headers s (omega arith)

module _ (mime count id payload : Bytes) where
  abbrev pub chunk_message : Bytes
  chunk_message =
      header content_type mime ++ (header chunk_count count ++ (header chunk_id id ++ payload))

  abbrev pub chunk_headers : Headers
  chunk_headers = record { type_of_content = some mime; count = some count; id = some id }

  pub extract_loop-chunk_payload :
      (f : ℕ)
      → IsHeaderValue mime
      → IsHeaderValue count
      → IsHeaderValue id
      → extract_loop (suc (suc (suc f))) no_headers chunk_message
        ≡ extract_loop f chunk_headers payload
  extract_loop-chunk_payload f hm hc hi =
      extract_loop-header (suc (suc f)) no_headers content_type mime
        (header chunk_count count ++ (header chunk_id id ++ payload)) hm
      ∙ extract_loop-header (suc f) (record no_headers { type_of_content = some mime }) chunk_count
          count (header chunk_id id ++ payload) hc
      ∙ extract_loop-header f
          (record no_headers { type_of_content = some mime; count = some count }) chunk_id id
          payload hi

  extract_loop-chunk :
      (f : ℕ)
      → IsHeaderValue mime
      → IsHeaderValue count
      → IsHeaderValue id
      → match_header payload ≡ none
      → extract_loop (suc (suc (suc f))) no_headers chunk_message ≡ (chunk_headers, payload)
  extract_loop-chunk f hm hc hi stop =
      extract_loop-chunk_payload f hm hc hi ∙ extract_loop-none f chunk_headers payload stop

-- The headers of one chunk are read back, and the payload is left, where the payload does not
-- itself begin with a header.
pub extract_supported_headers-chunk :
    (mime count id payload : Bytes)
    → IsHeaderValue mime
    → IsHeaderValue count
    → IsHeaderValue id
    → match_header payload ≡ none
    → extract_supported_headers
        (header content_type mime ++ (header chunk_count count ++ (header chunk_id id ++ payload)))
      ≡ (record { type_of_content = some mime; count = some count; id = some id }, payload)
unfolding extract_supported_headers
extract_supported_headers-chunk mime count id payload = extract_loop-chunk mime count id payload _

-- So is the one header of a message that is not cut.
pub extract_supported_headers-single :
    (mime payload : Bytes)
    → IsHeaderValue mime
    → match_header payload ≡ none
    → extract_supported_headers (header content_type mime ++ payload)
      ≡ (record { type_of_content = some mime; count = none; id = none }, payload)
unfolding extract_supported_headers
extract_supported_headers-single mime payload hm stop =
    extract_loop-header _ no_headers content_type mime payload hm
    ∙ extract_loop-none _ (record no_headers { type_of_content = some mime }) payload stop
