-- ===== src/RedisGateway/Queue/Capacity.antt =====
-- How `send_message` fills a queue of bounded capacity.
use pysoa.Prelude.{
  ℕ, zero, suc, ◌+◌, ◌-◌, ◌≤◌, ◌<◌, ◌≡◌, List, [], ◌∷◌, ◌++◌, append_assoc, append-nil, arith,
  Bytes, leb, if◌then◌else◌, length, length-append, take,
}
use pysoa.Errors.{ok, err, message_send_error}
use pysoa.RedisGateway.Core.{Core}
use pysoa.RedisGateway.Queue.{Queue, push, runs, Schedule, Sending, send_one, send_each}

-- The other users of the queue never fill it beyond its capacity.
abbrev pub RespectsCapacity : ℕ → Schedule → Type 0
RespectsCapacity capacity schedule =
    (j : ℕ) (q : Queue) → length q ≤ capacity → length ((schedule j).others q) ≤ capacity

module _ (capacity : ℕ) (schedule : Schedule) (fair : RespectsCapacity capacity schedule) where
  send_one-le :
      (n : ℕ) (m : Bytes) (k : ℕ) (q : Queue)
      → length q ≤ capacity
      → length (send_one n capacity m schedule k q).2 ≤ capacity
  unfolding send_one push
  send_one-le zero m k q le = le
  send_one-le (suc n) m k q le = ground (
    arith,
    fair k q le,
    send_one-le n m (k + 1) ((schedule k).others q),
    length-append ((schedule k).others q) (m ∷ []),
  )

-- No message, chunked or not, ever makes a queue longer than its capacity, whatever fails.
pub send_each-le :
    (core : Core) (schedule : Schedule) (ms : List Bytes) (k : ℕ) (q : Queue)
    → RespectsCapacity core.queue_capacity schedule
    → length q ≤ core.queue_capacity
    → length (send_each core ms schedule k q).2 ≤ core.queue_capacity
unfolding send_each
send_each-le core schedule [] k q fair le = le
send_each-le core schedule (m ∷ ms) k q fair le =
    let sent = send_one (suc core.queue_full_retries) core.queue_capacity m schedule k q in
    let kept =
      send_one-le core.queue_capacity schedule fair (suc core.queue_full_retries) m k q le in
    ground (arith, kept, send_each-le core schedule ms sent.1 sent.2 fair kept)

-- The schedule on which nobody else uses the queue and every call of the script succeeds.
abbrev pub quiet : Schedule
quiet k = record { others = λ q. q; call = runs }

send_one_room :
    (n capacity : ℕ) (m : Bytes) (k : ℕ) (q : Queue)
    → length q < capacity
    → send_one (suc n) capacity m quiet k q ≡ (ok tt, k + 1, q ++ m ∷ [])
unfolding send_one push
send_one_room n capacity m k q room = ground arith

-- A full queue is tried once for each round, and the message is given up.
send_one_full :
    (n capacity : ℕ) (m : Bytes) (k : ℕ) (q : Queue)
    → capacity ≤ length q
    → send_one n capacity m quiet k q ≡ (err message_send_error, k + n, q)
unfolding send_one push
send_one_full zero capacity m k q full = ground arith
send_one_full (suc n) capacity m k q full =
    ground (arith, send_one_full n capacity m (k + 1) q full)

abbrev pub filled : Core → List Bytes → ℕ → Queue → ℕ → Sending
filled core ms k q room =
    if leb (length ms) room
    then (ok tt, k + length ms, q ++ ms)
    else (err message_send_error, k + room + suc core.queue_full_retries, q ++ take room ms)

send_each-room :
    (core : Core) (ms : List Bytes) (k : ℕ) (q : Queue) (room : ℕ)
    → length q + room ≡ core.queue_capacity
    → send_each core ms quiet k q ≡ filled core ms k q room
unfolding send_each
send_each-room core [] k q room e = ground (arith, append-nil q)
send_each-room core (m ∷ ms) k q zero e =
    ground
      (arith, append-nil q, send_one_full (suc core.queue_full_retries) core.queue_capacity m k q)
send_each-room core (m ∷ ms) k q (suc room) e = ground (
  arith,
  send_one_room core.queue_full_retries core.queue_capacity m k q,
  send_each-room core ms (k + 1) (q ++ m ∷ []) room,
  length-append q (m ∷ []),
  append_assoc q (m ∷ []) ms,
  append_assoc q (m ∷ []) (take room ms),
)

-- What becomes of the messages of one `send_message` when nobody else uses the queue: as many as
-- there is room for, from the first on and in their order, are appended to the queue, one attempt
-- each. If that is all of them the call succeeds. Else it fails after `queue_full_retries + 1`
-- attempts at the first one that does not fit, and those before it stay in the queue.
pub send_each-quiet :
    (core : Core) (ms : List Bytes) (k : ℕ) (q : Queue)
    → length q ≤ core.queue_capacity
    → let room = core.queue_capacity - length q in
      send_each core ms quiet k q ≡ (
        if leb (length ms) room
        then (ok tt, k + length ms, q ++ ms)
        else (err message_send_error, k + room + suc core.queue_full_retries, q ++ take room ms))
send_each-quiet core ms k q le =
    send_each-room core ms k q (core.queue_capacity - length q) (omega arith)
