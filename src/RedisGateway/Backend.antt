-- ===== src/RedisGateway/Backend.antt =====
-- BaseRedisClient of redis_gateway/backend/base.py: which of the Redis servers a queue's connection
-- is taken from.
pub mod Indexes
pub mod Sentinel
pub mod Failover
use pysoa.Prelude.{
  ℕ, zero, suc, ◌+◌, ◌*◌, ◌/◌, ◌%◌, Bool, true, false, ◌||◌, Option, none, some, List, [], ◌∷◌,
  ◌==◌, if◌then◌else◌,
}
use pysoa.Logging.Syslog.{Text, encode}
use pysoa.Prelude.{Bytes, bytes_eq}

-- The exclusive or of the last `width` bits.
unfoldable pub xor : ℕ → ℕ → ℕ → ℕ
xor zero a b = 0
xor (suc width) a b = (if a % 2 == b % 2 then 0 else 1) + 2 * xor width (a / 2) (b / 2)

-- binascii.crc32: the checksum with the reflected polynomial, a bit at a time
abbrev polynomial : ℕ
polynomial = 3988292384

abbrev pub crc_bit : ℕ → ℕ
crc_bit c = if c % 2 == 1 then xor 32 (c / 2) polynomial else c / 2

abbrev pub crc_bits : ℕ → ℕ → ℕ
crc_bits zero c = c
crc_bits (suc n) c = crc_bits n (crc_bit c)

abbrev pub crc_bytes : Bytes → ℕ → ℕ
crc_bytes [] c = c
crc_bytes (b ∷ bs) c = crc_bytes bs (crc_bits 8 (xor 32 c b))

unfoldable pub crc32 : Bytes → ℕ
unfolding xor
crc32 s = xor 32 (crc_bytes s 4294967295) 4294967295

-- The parts of a client that choose a server: `sample` is the random order that `itertools.cycle`
-- repeats, `upcoming` what is left of the present round.
pub record Ring : Type 0 where
  pub ring_size : ℕ
  pub sample : List ℕ
  pub upcoming : List ℕ

-- _get_consistent_hash_index. The quotients are exact here; the code's are floating-point numbers,
-- which have the same integral part for every ring of up to 185 servers.
unfoldable pub get_consistent_hash_index : Ring → Text → ℕ
get_consistent_hash_index ring value = crc32 (encode value) % 4096 * ring.ring_size / 4096

-- next(self._connection_index_generator), `none` for StopIteration
abbrev pub started_over : Ring → List ℕ → Option ℕ × Ring
started_over ring [] = (none, ring)
started_over ring (i ∷ rest) = (some i, record ring { upcoming = rest })

abbrev pub next_of : Ring → List ℕ → Option ℕ × Ring
next_of ring [] = started_over ring ring.sample
next_of ring (i ∷ rest) = (some i, record ring { upcoming = rest })

unfoldable pub next_index : Ring → Option ℕ × Ring
next_index ring = next_of ring ring.upcoming

-- self.RESPONSE_QUEUE_SPECIFIER in queue_key
abbrev pub is_response_queue : Text → Bool
is_response_queue [] = false
is_response_queue (c ∷ key) = bytes_eq c (b'!' ∷ []) || is_response_queue key

-- the index that get_connection passes to _get_connection
unfoldable pub connection_index : Ring → Text → Option ℕ × Ring
unfolding get_consistent_hash_index next_index
connection_index ring key =
    if is_response_queue key
    then (some (get_consistent_hash_index ring key), ring)
    else next_index ring

module _ {ℓ} {A : Type ℓ} where
  -- xs[i]
  abbrev pub get_elem? : List A → ℕ → Option A
  get_elem? [] i = none
  get_elem? (x ∷ xs) zero = some x
  get_elem? (x ∷ xs) (suc i) = get_elem? xs i
