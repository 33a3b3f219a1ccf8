-- ===== src/RedisGateway/QueueNames.antt =====
-- Which queues the transports use: redis_gateway/utils.py, client.py and server.py. A text is the row
-- of its characters' UTF-8 bytes. The core's part, whether a message is sent, is an argument.
pub mod Distinct
pub mod Exchange
pub mod Servers
use pysoa.Prelude.{
  ℕ, zero, suc, ◌+◌, ◌-◌, ◌/◌, ◌%◌, Bool, true, false, ◌&&◌, String, Option, none, some, List, [],
  ◌∷◌, ◌++◌, Bytes, codes, bytes_eq, length, ltb, ◌==◌, if◌then◌else◌,
}
use pysoa.Logging.Syslog.{Text}
use pysoa.Errors.{Result, ok, err, invalid_message}

abbrev one_byte_each : Bytes → Text
one_byte_each [] = []
one_byte_each (b ∷ bs) = (b ∷ []) ∷ one_byte_each bs

-- a literal, which is ASCII
abbrev pub text : String → Text
text s = one_byte_each (codes s)

-- '{:012x}'.format(n), where `fuel` bounds the digits: n is enough
abbrev hex_digit : ℕ → Bytes
hex_digit d = (if ltb d 10 then d + 48 else d + 87) ∷ []

abbrev hex_digits : (fuel : ℕ) → ℕ → Text
hex_digits zero n = []
hex_digits (suc fuel) n =
    let rest = hex_digits fuel (n / 16) in if n == 0 then [] else rest ++ hex_digit (n % 16) ∷ []

abbrev zeros : ℕ → Text
zeros zero = []
zeros (suc n) = (b'0' ∷ []) ∷ zeros n

unfoldable pub get_hex_thread_id : ℕ → Text
get_hex_thread_id thread =
    let digits = hex_digits thread thread in zeros (12 - length digits) ++ digits

unfoldable pub make_redis_queue_name : Text → Text
make_redis_queue_name service = text "service." ++ service

-- A thread that uses a client transport.
pub record End : Type 0 where
  pub service : Text
  pub client_id : Text
  pub thread : ℕ

-- self._receive_queue_name
unfoldable pub receive_queue_name : Text → Text → Text
receive_queue_name send_queue_name client_id = send_queue_name ++ text "." ++ client_id ++ text "!"

-- meta['reply_to'], and the queue that receive_response_message reads
unfoldable pub reply_to : End → Text
unfolding make_redis_queue_name receive_queue_name
reply_to e =
    receive_queue_name (make_redis_queue_name e.service) e.client_id ++ get_hex_thread_id e.thread

-- self.QUEUE_NAME_PREFIX + queue_name
unfoldable pub queue_key : Text → Text
queue_key queue_name = text "pysoa:" ++ queue_name

abbrev pub text_eq : Text → Text → Bool
text_eq [] [] = true
text_eq (a ∷ s) (b ∷ t) = bytes_eq a b && text_eq s t
text_eq _ _ = false

-- A message that waits in a queue, with the entry of its `meta` that is read here.
pub record Waiting (B : Type 0) : Type 0 where
  pub key : Text
  pub request_id : ℕ
  pub meta_reply_to : Option Text
  pub body : B

-- all queues, the oldest message first
abbrev pub Redis : Type 0 → Type 0
Redis B = List (Waiting B)

-- What a pop of a queue comes back with.
abbrev pub Popped : Type 0 → Type 0
Popped B = Option (Waiting B) × Redis B

module _ {B : Type 0} where
  -- the queues after the core's send_message, which returns or raises
  abbrev pub push : Result (Unit {0}) → Waiting B → Redis B → Redis B
  push (ok _) message redis = redis ++ message ∷ []
  push (err e) message redis = redis

  abbrev behind : Waiting B → Popped B → Popped B
  behind message (found, redis) = (found, message ∷ redis)

  -- the first message of a queue
  abbrev pub pop : Text → Redis B → Popped B
  pop key [] = (none, [])
  pop key (message ∷ redis) =
      if text_eq message.key key then (some message, redis) else behind message (pop key redis)

  -- RedisClientTransport.send_request_message
  unfoldable pub send_request_message : Result (Unit {0}) → End → ℕ → B → Redis B → Redis B
  send_request_message sent e id body redis =
      push sent
        (record {
          key = queue_key (make_redis_queue_name e.service);
          request_id = id;
          meta_reply_to = some (reply_to e);
          body = body;
        })
        redis

  -- RedisClientTransport.receive_response_message, where requests are outstanding
  unfoldable pub receive_response_message : End → Redis B → Popped B
  receive_response_message e redis = pop (queue_key (reply_to e)) redis

  -- RedisServerTransport.receive_request_message
  unfoldable pub receive_request_message : Text → Redis B → Popped B
  receive_request_message service redis = pop (queue_key (make_redis_queue_name service)) redis

  -- RedisServerTransport.send_response_message
  unfoldable pub send_response_message :
      Result (Unit {0}) → Option Text → ℕ → B → Redis B → Result (Unit {0}) × Redis B
  send_response_message sent none id body redis = (err invalid_message, redis)
  send_response_message sent (some queue_name) id body redis = (
    sent,
    push sent
        (record {
          key = queue_key queue_name;
          request_id = id;
          meta_reply_to = some queue_name;
          body = body;
        })
        redis,
  )
