-- ===== src/RedisGateway/Backend/Indexes.antt =====
-- The indexes that BaseRedisClient chooses, of redis_gateway/backend/base.py.
use pysoa.Prelude.{
  ℕ, zero, suc, ◌*◌, ◌/◌, ◌%◌, ◌≤◌, ◌<◌, ◌≡◌, refl, inl, inr, true, false, Option, none, some, List,
  [], ◌∷◌, All, arith, Bool-cases, is_empty,
}
use pysoa.Logging.Syslog.{Text, encode}
use pysoa.RedisGateway.Backend.{
  Ring, crc32, get_consistent_hash_index, next_index, next_of, started_over, is_response_queue,
  connection_index,
}

-- What `random.sample(range(ring_size), k=ring_size)` gives for a ring that is not empty, at any
-- point of the cycle.
abbrev pub IsRing : Ring → Type 0
IsRing ring =
    (is_empty ring.sample ≡ false)
    × All (λ i. i < ring.ring_size) ring.sample
    × All (λ i. i < ring.ring_size) ring.upcoming

abbrev pub Within : Ring → Option ℕ × Ring → Type 0
Within ring (none, after) = ⊥
Within ring (some i, after) =
    (i < ring.ring_size) × IsRing after × (after.ring_size ≡ ring.ring_size)

positive : (n : ℕ) (is : List ℕ) → is_empty is ≡ false → All (λ i. i < n) is → 0 < n
positive n [] e h = ground (arith, e)
positive n (i ∷ is) e h = omega (arith, h.0)

times_le : (r m n : ℕ) → r ≤ m → r * n ≤ m * n
times_le r m zero h = omega arith
times_le r m (suc n) h = omega (arith, h, times_le r m n h)

hash_within : (h n : ℕ) → 0 < n → h % 4096 * n / 4096 < n
hash_within h n p = omega (arith, p, times_le (h % 4096) 4095 n (omega arith))

started_over-Within :
    (ring : Ring) (is : List ℕ)
    → IsRing ring
    → is_empty is ≡ false
    → All (λ i. i < ring.ring_size) is
    → Within ring (started_over ring is)
started_over-Within ring [] h e all = ground (arith, e)
started_over-Within ring (i ∷ is) h e all = (all.0, (h.0, h.1, all.1), refl)

next_of-Within :
    (ring : Ring) (is : List ℕ)
    → IsRing ring
    → All (λ i. i < ring.ring_size) is
    → Within ring (next_of ring is)
next_of-Within ring [] h all = started_over-Within ring ring.sample h h.0 h.1
next_of-Within ring (i ∷ is) h all = (all.0, (h.0, h.1, all.1), refl)

-- A response queue has the same index whatever was asked for before, and leaves the cycle as it is.
pub connection_index_consistent :
    (ring : Ring) (key : Text)
    → is_response_queue key ≡ true
    → connection_index ring key ≡ (some (get_consistent_hash_index ring key), ring)
unfolding connection_index
connection_index_consistent ring key e = rw e refl

-- For a ring that holds at least one server, the cycle of the request queues and the hash of the
-- response queues both give an index of the ring at every call, and the ring stays well formed.
pub connection_index-Within :
    (ring : Ring) (key : Text) → IsRing ring → Within ring (connection_index ring key)
unfolding connection_index get_consistent_hash_index next_index
connection_index-Within ring key h = elim (Bool-cases (is_response_queue key)) [
  | inl e ↦ rw e (
    hash_within (crc32 (encode key)) ring.ring_size (positive ring.ring_size ring.sample h.0 h.1),
    h,
    refl,
  )
  | inr e ↦ rw e (next_of-Within ring ring.upcoming h h.2)
]
