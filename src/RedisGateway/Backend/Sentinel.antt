-- ===== src/RedisGateway/Backend/Sentinel.antt =====
-- SentinelRedisClient and StandardRedisClient of redis_gateway/backend/sentinel.py and standard.py,
-- without the log lines and the metrics.
use pysoa.Prelude.{
  ℕ, zero, suc, Option, none, some, List, [], ◌∷◌, ◌++◌, String, ◌==◌, if◌then◌else◌, str_eq, ℤ,
  pos,
}
use pysoa.Errors.{Result, ok, err, value_error, ◌>>=◌}
use pysoa.RedisGateway.Backend.{get_elem?}

-- What an entry of `hosts` or `sentinel_services` can be.
pub data Entry : Type 0 where
  text : String → Entry
  pair : String → ℤ → Entry
  neither : Entry

abbrev pub default_port : ℤ
default_port = pos 26379

abbrev converted : Entry → Result (String × ℤ)
converted (text name) = ok (name, default_port)
converted (pair name port) = ok (name, port)
converted neither = err value_error

abbrev pub convert_entries : List Entry → Result (List (String × ℤ))
convert_entries [] = ok []
convert_entries (entry ∷ entries) =
    converted entry >>= λ host. convert_entries entries >>= λ hosts. ok (host ∷ hosts)

-- _convert_hosts, of hosts that are not one text
unfoldable pub convert_hosts : List Entry → Result (List (String × ℤ))
convert_hosts [] = ok (("localhost", default_port) ∷ [])
convert_hosts (entry ∷ entries) = convert_entries (entry ∷ entries)

-- _validate_service_names, of names that are not one text
unfoldable pub validate_service_names : List Entry → Result (List String)
validate_service_names [] = ok []
validate_service_names (text name ∷ entries) =
    validate_service_names entries >>= λ names. ok (name ∷ names)
validate_service_names (_ ∷ entries) = err value_error

-- What a call of a Sentinel or of its pool gives: an answer, redis.sentinel.MasterNotFoundError,
-- redis.ConnectionError or redis.TimeoutError, or another exception.
pub data Answer (A : Type 0) : Type 0 where
  answer : A → Answer A
  master_not_found connection_failed other_exception : Answer A

-- How _get_connection ends.
pub data Outcome (C : Type 0) : Type 0 where
  connection : C → Outcome C
  bad_index : Outcome C
  cannot_get_connection : Outcome C
  not_caught : Outcome C

-- `master_for` is Sentinel.master_for, which constructs a client without communication;
-- `get_master_address` asks the Sentinels for the address of such a client.
pub record Calls (W C : Type 0) : Type 0 where
  pub master_for : String → C
  pub get_master_address : C → W → Answer String × W

-- `waits` are the attempts behind which the client has slept.
pub record Sentinel (C : Type 0) : Type 0 where
  pub services : List String
  pub sentinel_failover_retries : ℕ
  pub master_clients : List (String × C)
  pub waits : List ℕ

-- _get_service_names: the names that the first Sentinel gives that can be reached
unfoldable pub get_service_names :
    {W : Type 0} → List (W → Answer (List String) × W) → W → Answer (List String) × W
get_service_names [] w = (connection_failed, w)
get_service_names (sentinel ∷ sentinels) w = elim (sentinel w).0 [
  | answer names ↦ (answer names, (sentinel w).1)
  | connection_failed ↦ get_service_names sentinels (sentinel w).1
  | master_not_found ↦ (master_not_found, (sentinel w).1)
  | other_exception ↦ (other_exception, (sentinel w).1)
]

module _ {W C : Type 0} (calls : Calls W C) where
  unfoldable pub find_client : String → List (String × C) → Option C
  find_client name [] = none
  find_client name ((key, client) ∷ clients) =
      if str_eq key name then some client else find_client name clients

  abbrev pub reset_clients : Sentinel C → Sentinel C
  reset_clients sentinel = record sentinel { master_clients = [] }

  abbrev pub remember : String → Sentinel C → Sentinel C
  remember name sentinel = record sentinel {
    master_clients = (name, calls.master_for name) ∷ sentinel.master_clients;
  }

  abbrev pub discovered : C → Answer String → Answer C
  discovered client (answer address) = answer client
  discovered client master_not_found = master_not_found
  discovered client connection_failed = connection_failed
  discovered client other_exception = other_exception

  -- the client is remembered before its address is asked for
  abbrev pub discover : String → Sentinel C → W → Answer C × Sentinel C × W
  discover name sentinel w =
      let asked = calls.get_master_address (calls.master_for name) w in
      (discovered (calls.master_for name) asked.0, remember name sentinel, asked.1)

  abbrev pub known_or : Option C → String → Sentinel C → W → Answer C × Sentinel C × W
  known_or none name sentinel w = discover name sentinel w
  known_or (some client) name sentinel w = (answer client, sentinel, w)

  unfoldable pub get_master_client_for : String → Sentinel C → W → Answer C × Sentinel C × W
  unfolding find_client
  get_master_client_for name sentinel w =
      known_or (find_client name sentinel.master_clients) name sentinel w

  -- the sleep behind attempt `i`, unless it was the last
  abbrev pub waited : ℕ → Sentinel C → Sentinel C
  waited i sentinel =
      if i == sentinel.sentinel_failover_retries
      then sentinel
      else record sentinel { waits = sentinel.waits ++ i ∷ [] }

  abbrev pub Attempted : Type 0
  Attempted = Outcome C × Sentinel C × W

  abbrev pub attempted : (Sentinel C → W → Attempted) → ℕ → Answer C × Sentinel C × W → Attempted
  attempted again i (answer client, sentinel, w) = (connection client, sentinel, w)
  attempted again i (master_not_found, sentinel, w) = again (waited i (reset_clients sentinel)) w
  attempted again i (connection_failed, sentinel, w) = (not_caught, sentinel, w)
  attempted again i (other_exception, sentinel, w) = (not_caught, sentinel, w)

  -- `for i in range(...)`: the attempts that are left, and the number of the next
  unfoldable pub attempts : String → ℕ → ℕ → Sentinel C → W → Attempted
  attempts name zero i sentinel w = (cannot_get_connection, sentinel, w)
  attempts name (suc left) i sentinel w =
      attempted (attempts name left (suc i)) i (get_master_client_for name sentinel w)

  abbrev pub with_service : Option String → Sentinel C → W → Attempted
  with_service none sentinel w = (bad_index, sentinel, w)
  with_service (some name) sentinel w =
      attempts name (suc sentinel.sentinel_failover_retries) 0 sentinel w

  -- `none` stands for an index that is out of range
  unfoldable pub get_connection : ℕ → Sentinel C → W → Attempted
  unfolding attempts
  get_connection index sentinel w = with_service (get_elem? sentinel.services index) sentinel w
