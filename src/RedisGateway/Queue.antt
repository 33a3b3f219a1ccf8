-- ===== src/RedisGateway/Queue.antt =====
-- The send script of redis_gateway/backend/base.py, and the sending half of RedisTransportCore
-- (redis_gateway/core.py). A queue is the list of its messages, the next to be popped first.
pub mod Capacity
use pysoa.Prelude.{
  ℕ, zero, suc, ◌+◌, Bool, true, false, Option, none, some, List, [], ◌∷◌, ◌++◌, Bytes, leb, ◌==◌,
  if◌then◌else◌, length,
}
use pysoa.Errors.{Result, ok, err, invalid_message, message_send_error, ◌>>=◌}
use pysoa.RedisGateway.Protocol.{ProtocolVersion}
use pysoa.RedisGateway.Core.{Core, Serializer}
use pysoa.RedisGateway.Chunks.{serialize_check_and_chunk_message}

abbrev pub Queue : Type 0
Queue = List Bytes

-- SendMessageToQueueCommand: `none` is the reply "queue full"
unfoldable pub push : ℕ → Bytes → Queue → Option Queue
push capacity message queue =
    if leb capacity (length queue) then none else some (queue ++ message ∷ [])

-- How one call of the script ends.
pub data Call : Type 0 where
  runs response_error unknown_error : Call

-- One attempt: what the other users of the queue have done to it by then, and the call.
pub record Attempt : Type 0 where
  pub others : Queue → Queue
  pub call : Call

-- The attempts to come, by their number.
abbrev pub Schedule : Type 0
Schedule = ℕ → Attempt

-- The result, the number of the next attempt, and the queue.
abbrev pub Sending : Type 0
Sending = Result (Unit {0}) × ℕ × Queue

-- `for i in range(-1, queue_full_retries)`, with `n` rounds left; `else` is the end of the rounds
unfoldable pub send_one : ℕ → ℕ → Bytes → Schedule → ℕ → Queue → Sending
send_one zero capacity message schedule k queue = (err message_send_error, k, queue)
send_one (suc n) capacity message schedule k queue =
    let seen = (schedule k).others queue in
    elim (schedule k).call [
      | runs ↦ elim (push capacity message seen) [
        | some queue' ↦ (ok tt, k + 1, queue')
        | none ↦ send_one n capacity message schedule (k + 1) seen
      ]
      | response_error ↦ (err message_send_error, k + 1, seen)
      | unknown_error ↦ (err message_send_error, k + 1, seen)
    ]

-- `for message_to_send in messages_to_send`
unfoldable pub send_each : Core → List Bytes → Schedule → ℕ → Queue → Sending
send_each core [] schedule k queue = (ok tt, k, queue)
send_each core (m ∷ ms) schedule k queue =
    let sent = send_one (suc core.queue_full_retries) core.queue_capacity m schedule k queue in
    elim sent.0 [
      | ok _ ↦ send_each core ms schedule sent.1 sent.2
      | err e ↦ (err e, sent.1, sent.2)
    ]

-- `if message_expiry_in_seconds`: the expiry that is written into the message's `meta`, and the
-- one that the script sets on the queue
unfoldable pub message_expiry : Core → ℕ → Option ℕ → ℕ × ℕ
message_expiry core now none =
    (now + core.message_expiry_in_seconds, core.message_expiry_in_seconds)
message_expiry core now (some zero) =
    (now + core.message_expiry_in_seconds, core.message_expiry_in_seconds)
message_expiry core now (some (suc s)) = (now + suc s, suc s + 10)

-- What `send_message` is given in `meta`: the entries that it takes out, and all others.
pub record SendMeta (A M : Type 0) : Type 0 where
  pub protocol_version : Option ProtocolVersion
  pub serializer : Option (Serializer A)
  pub others : M

abbrev pub or_default : {A : Type 0} → Option A → A → A
or_default (some a) d = a
or_default none d = d

-- `connected` says whether the backend gives a connection; `message` makes the dictionary from the
-- request's ID and the message's expiry.
unfoldable pub send_message :
    {A M : Type 0}
    → Core
    → ProtocolVersion
    → Serializer A
    → (M → ℕ → ℕ → A)
    → Option ℕ
    → SendMeta A M
    → Option ℕ
    → ℕ
    → Bool
    → Schedule
    → Queue
    → Sending
send_message core version serializer message none meta expiry now connected schedule queue =
    (err invalid_message, 0, queue)
send_message core version serializer message (some id) meta expiry now connected schedule queue =
    elim (serialize_check_and_chunk_message core (or_default meta.protocol_version version)
      (message meta.others (message_expiry core now expiry).0 id)
      (or_default meta.serializer serializer)) [
        | err e ↦ (err e, 0, queue)
        | ok messages ↦
            if connected
            then send_each core messages schedule 0 queue
            else (err message_send_error, 0, queue)
      ]
