-- ===== src/RedisGateway/Headers.antt =====
-- RedisTransportCore._extract_supported_headers and SUPPORTED_HEADERS_RE of redis_gateway/core.py.
pub mod Extraction
pub mod Lengths
use pysoa.Prelude.{
  ℕ, zero, suc, ◌≡◌, refl, Bool, true, false, ◌&&◌, ◌||◌, Option, none, some, [], ◌∷◌, ◌++◌, arith,
  Bytes, codes, strip_prefix, run_of, rest_of, run_of-append, rest_of-append, leb, ◌==◌, length,
  All,
}

pub data HeaderName : Type 0 where
  content_type chunk_count chunk_id : HeaderName

abbrev pub name_bytes : HeaderName → Bytes
name_bytes content_type = codes "content-type"
name_bytes chunk_count = codes "chunk-count"
name_bytes chunk_id = codes "chunk-id"

-- `\s` on bytes
abbrev pub is_space : ℕ → Bool
is_space c = c == 32 || leb 9 c && leb c 13

-- [a-zA-Z0-9_/.-]
abbrev pub is_value_byte : ℕ → Bool
is_value_byte c =
    leb b'a' c && leb c b'z'
    || leb b'A' c && leb c b'Z'
    || leb b'0' c && leb c b'9'
    || c == b'_'
    || c == b'/'
    || c == b'.'
    || c == b'-'

-- header_name, header_value, and what is left behind the match
abbrev pub Found : Type 0
Found = HeaderName × Bytes × Bytes

-- the value has to be there, and `;` behind it
after_value : HeaderName → Bytes → Option Bytes → Option Found
after_value n [] end = none
after_value n (c ∷ v) none = none
after_value n (c ∷ v) (some rest) = some (n, c ∷ v, rest)

after_colon : HeaderName → Option Bytes → Option Found
unfolding after_value
after_colon n none = none
after_colon n (some s) =
    let t = rest_of is_space s in
    after_value n (run_of is_value_byte t)
      (strip_prefix (codes ";") (rest_of is_space (rest_of is_value_byte t)))

after_name : HeaderName → Bytes → Option Found
unfolding after_colon
after_name n s = after_colon n (strip_prefix (codes ":") (rest_of is_space s))

-- No name is a prefix of another, so the alternatives need no backtracking.
alternative : HeaderName → Option Bytes → Option Found → Option Found
unfolding after_name
alternative n (some s) other = after_name n s
alternative n none other = other

match_name : Bytes → Option Found
unfolding alternative
match_name s = alternative content_type (strip_prefix (name_bytes content_type) s) (
    alternative chunk_count (strip_prefix (name_bytes chunk_count) s)
      (alternative chunk_id (strip_prefix (name_bytes chunk_id) s) none))

-- SUPPORTED_HEADERS_RE.match
unfoldable pub match_header : Bytes → Option Found
unfolding match_name
match_header s = match_name (rest_of is_space s)

-- the dictionary `headers`
pub record Headers : Type 0 where
  pub type_of_content : Option Bytes
  pub count : Option Bytes
  pub id : Option Bytes

abbrev pub no_headers : Headers
no_headers = record { type_of_content = none; count = none; id = none }

-- headers[name] = value
abbrev pub set_header : Headers → HeaderName → Bytes → Headers
set_header h content_type v = record h { type_of_content = some v }
set_header h chunk_count v = record h { count = some v }
set_header h chunk_id v = record h { id = some v }

-- `while match`
pub extract_loop : ℕ → Headers → Bytes → Headers × Bytes
extract_loop zero h s = (h, s)
extract_loop (suc fuel) h s = elim (match_header s) [
  | none ↦ (h, s)
  | some (n, v, rest) ↦ extract_loop fuel (set_header h n v) rest
]

pub extract_supported_headers : Bytes → Headers × Bytes
extract_supported_headers s = extract_loop (length s) no_headers s

-- A header as it is written: `name:value;`
abbrev pub header : HeaderName → Bytes → Bytes
header n v = name_bytes n ++ (codes ":" ++ (v ++ codes ";"))
