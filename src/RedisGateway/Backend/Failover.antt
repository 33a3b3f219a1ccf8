-- ===== src/RedisGateway/Backend/Failover.antt =====
-- The failover of SentinelRedisClient, of redis_gateway/backend/sentinel.py.
use pysoa.Prelude.{
  ℕ, zero, suc, ◌+◌, ◌≤◌, ◌≡◌, refl, sym, ap, ◌∙◌, true, false, none, some, List, [], ◌∷◌, ◌++◌,
  String, arith, append_assoc, append-nil, ◌==◌,
}
use pysoa.RedisGateway.Backend.{get_elem?}
use pysoa.RedisGateway.Backend.Sentinel.{
  answer, master_not_found, connection, cannot_get_connection, Calls, Sentinel, find_client,
  get_master_client_for, attempts, get_connection, waited, reset_clients, remember,
}

-- from, from + 1, ..., from + count - 1
abbrev pub counting : ℕ → ℕ → List ℕ
counting from zero = []
counting from (suc count) = from ∷ counting (suc from) count

module _ {W C : Type 0} (calls : Calls W C) (name : String) where
  -- The next `misses` questions for the master's address find none, and lead from `w` to `w'`.
  abbrev pub Misses : ℕ → W → W → Type 0
  Misses zero w w' = w ≡ w'
  Misses (suc misses) w w' =
      ((calls.get_master_address (calls.master_for name) w).0 ≡ master_not_found)
      × Misses misses (calls.get_master_address (calls.master_for name) w).1 w'

  abbrev kept : ℕ → List (String × C) → List (String × C)
  kept zero clients = clients
  kept (suc misses) clients = []

  -- the client behind `misses` attempts without a master, of which the first has the number `i`
  abbrev pub missed : ℕ → ℕ → Sentinel C → Sentinel C
  missed i misses s = record s {
    master_clients = kept misses s.master_clients;
    waits = s.waits ++ counting i misses;
  }

  kept-nil : (misses : ℕ) → kept misses [] ≡ []
  kept-nil zero = refl
  kept-nil (suc misses) = refl

  missed-missed :
      (i misses : ℕ) (s : Sentinel C)
      → missed (suc i) misses (missed i 1 s) ≡ missed i (suc misses) s
  missed-missed i misses s =
      rw (kept-nil misses, append_assoc s.waits (i ∷ []) (counting (suc i) misses)) refl

  unequal : (i n r : ℕ) → i + suc n ≡ r → (i == r) ≡ false
  unequal i n r e = ground (arith, e)

  equal : (i r : ℕ) → i + 0 ≡ r → (i == r) ≡ true
  equal i r e = ground (arith, e)

  waited-reset :
      (i : ℕ) (s : Sentinel C)
      → (i == s.sentinel_failover_retries) ≡ false
      → waited calls i (reset_clients calls s) ≡ missed i 1 s
  waited-reset i s e = rw e refl

  find_nothing : find_client calls name [] ≡ none
  unfolding find_client
  find_nothing = refl

  step :
      (left i : ℕ) (s : Sentinel C) (w : W)
      → (i == s.sentinel_failover_retries) ≡ false
      → find_client calls name s.master_clients ≡ none
      → (calls.get_master_address (calls.master_for name) w).0 ≡ master_not_found
      → attempts calls name (suc left) i s w
        ≡ attempts calls name left
            (suc i)
            (missed i 1 s)
            (calls.get_master_address (calls.master_for name) w).1
  unfolding attempts get_master_client_for
  step left i s w e unknown m = rw (unknown, m, e) refl

  found_now :
      (left i : ℕ) (s : Sentinel C) (w : W) (address : String)
      → find_client calls name s.master_clients ≡ none
      → (calls.get_master_address (calls.master_for name) w).0 ≡ answer address
      → attempts calls name (suc left) i s w ≡ (
        connection (calls.master_for name),
        remember calls name s,
        (calls.get_master_address (calls.master_for name) w).1,
      )
  unfolding attempts get_master_client_for
  found_now left i s w address unknown m = rw (unknown, m) refl

  recovers :
      (misses left i : ℕ) (s : Sentinel C) (w w' : W) (address : String)
      → misses ≤ left
      → i + left ≡ s.sentinel_failover_retries
      → find_client calls name s.master_clients ≡ none
      → Misses misses w w'
      → (calls.get_master_address (calls.master_for name) w').0 ≡ answer address
      → attempts calls name (suc left) i s w ≡ (
        connection (calls.master_for name),
        remember calls name (missed i misses s),
        (calls.get_master_address (calls.master_for name) w').1,
      )
  recovers zero left i s w w' address le e unknown m found =
      rw (append-nil s.waits) (rw (sym m) (found_now left i s w address unknown (rw m found)))
  recovers (suc misses) zero i s w w' address le e unknown m found = ground (arith, le)
  recovers (suc misses) (suc left) i s w w' address le e unknown m found =
      step (suc left) i s w (unequal i left s.sentinel_failover_retries e) unknown m.0
      ∙ recovers misses left (suc i) (missed i 1 s)
          (calls.get_master_address (calls.master_for name) w).1 w' address (omega (arith, le))
          (omega (arith, e)) find_nothing m.1 found
      ∙ ap
          (λ (after : Sentinel C). (
            connection (calls.master_for name),
            remember calls name after,
            (calls.get_master_address (calls.master_for name) w').1,
          ))
          (missed-missed i misses s)

  gives_up :
      (left i : ℕ) (s : Sentinel C) (w w' : W)
      → i + left ≡ s.sentinel_failover_retries
      → find_client calls name s.master_clients ≡ none
      → Misses (suc left) w w'
      → attempts calls name (suc left) i s w
        ≡ (cannot_get_connection, record (missed i left s) { master_clients = [] }, w')
  unfolding attempts get_master_client_for
  gives_up zero i s w w' e unknown m =
      rw (unknown, m.0, equal i s.sentinel_failover_retries e) (rw (append-nil s.waits, m.1) refl)
  gives_up (suc left) i s w w' e unknown m =
      step (suc left) i s w (unequal i left s.sentinel_failover_retries e) unknown m.0
      ∙ gives_up left (suc i) (missed i 1 s) (calls.get_master_address (calls.master_for name) w).1
          w' (omega (arith, e)) find_nothing m.1
      ∙ ap
          (λ (after : Sentinel C).
            (cannot_get_connection, record after { master_clients = [] }, w'))
          (missed-missed i left s)

  -- If the client for a server's master is not known yet, and the Sentinels do not find the master at
  -- first, but do after no more failures than there are retries, then get_connection returns a client
  -- of that master. It has then forgotten every other client if there was a failure, remembers this
  -- one, and has slept exactly once behind each failure, in order.
  pub get_connection-recovers :
      (misses index : ℕ) (s : Sentinel C) (w w' : W) (address : String)
      → get_elem? s.services index ≡ some name
      → find_client calls name s.master_clients ≡ none
      → misses ≤ s.sentinel_failover_retries
      → Misses misses w w'
      → (calls.get_master_address (calls.master_for name) w').0 ≡ answer address
      → get_connection calls index s w ≡ (
        connection (calls.master_for name),
        remember calls name (missed 0 misses s),
        (calls.get_master_address (calls.master_for name) w').1,
      )
  unfolding get_connection
  get_connection-recovers misses index s w w' address at unknown le m found = rw at (
      recovers misses s.sentinel_failover_retries 0 s w w' address le (omega arith) unknown m found)

  -- If the Sentinels find no master at the first attempt and at every retry, get_connection raises
  -- CannotGetConnectionError, has asked once more than there are retries and slept between the
  -- attempts only, and knows no client any more.
  pub get_connection-gives_up :
      (index : ℕ) (s : Sentinel C) (w w' : W)
      → get_elem? s.services index ≡ some name
      → find_client calls name s.master_clients ≡ none
      → Misses (suc s.sentinel_failover_retries) w w'
      → get_connection calls index s w ≡ (
        cannot_get_connection,
        record (missed 0 s.sentinel_failover_retries s) { master_clients = [] },
        w',
      )
  unfolding get_connection
  get_connection-gives_up index s w w' at unknown m =
      rw at (gives_up s.sentinel_failover_retries 0 s w w' (omega arith) unknown m)
