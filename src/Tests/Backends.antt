-- ===== src/Tests/Backends.antt =====
-- The choice of Redis servers, and the failover of their masters, at concrete inputs.
use pysoa.Prelude.{ℕ, ◌+◌, ◌≡◌, refl, none, List, [], ◌∷◌, arith, if◌then◌else◌, ◌==◌, String, map}
use pysoa.RedisGateway.Backend.{Ring, crc32, connection_index, xor}
use pysoa.RedisGateway.Backend.Indexes.{Within, connection_index-Within}
use pysoa.RedisGateway.Backend.Sentinel.{
  answer, master_not_found, connection, cannot_get_connection, Calls, Sentinel, find_client,
  get_connection, remember,
}
use pysoa.RedisGateway.Backend.Failover.{missed, get_connection-recovers, get_connection-gives_up}

-- the check value of the checksum
check_value : crc32 (map (λ (n : ℕ). n + 48) (1 ∷ 2 ∷ 3 ∷ 4 ∷ 5 ∷ 6 ∷ 7 ∷ 8 ∷ 9 ∷ [])) ≡ 3421780262
unfolding crc32 xor
check_value = refl

abbrev ring : Ring
ring = record { ring_size = 3; sample = 2 ∷ 0 ∷ 1 ∷ []; upcoming = 1 ∷ [] }

abbrev response_queue : List (List ℕ)
response_queue = (b'x' ∷ []) ∷ (b'!' ∷ []) ∷ []

connection_index-Within_example : Within ring (connection_index ring response_queue)
connection_index-Within_example =
    connection_index-Within ring response_queue
      (refl, (omega arith, (omega arith, (omega arith, tt))), (omega arith, tt))

-- Sentinels that find a master when they are asked for the third time.
abbrev calls : Calls ℕ String
calls = record {
  master_for = λ name. name;
  get_master_address = λ name w. (if w == 2 then answer "10.0.0.1" else master_not_found, w + 1);
}

abbrev client : ℕ → Sentinel String
client retries = record {
  services = "one" ∷ "two" ∷ [];
  sentinel_failover_retries = retries;
  master_clients = ("one", "one") ∷ [];
  waits = [];
}

unknown : (retries : ℕ) → find_client calls "two" (client retries).master_clients ≡ none
unfolding find_client
unknown retries = refl

get_connection-recovers_example :
    get_connection calls 1 (client 3) 0
    ≡ (connection "two", remember calls "two" (missed calls "two" 0 2 (client 3)), 3)
get_connection-recovers_example =
    get_connection-recovers calls "two" 2 1 (client 3) 0 2 "10.0.0.1" refl (unknown 3) (omega arith)
      (refl, (refl, refl)) refl

get_connection-gives_up_example :
    get_connection calls 1 (client 1) 0
    ≡ (cannot_get_connection, record (missed calls "two" 0 1 (client 1)) { master_clients = [] }, 2)
get_connection-gives_up_example =
    get_connection-gives_up calls "two" 1 (client 1) 0 2 refl (unknown 1) (refl, (refl, refl))
