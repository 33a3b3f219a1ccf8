-- ===== src/RedisGateway/QueueNames/Servers.antt =====
-- Which of several Redis servers the queues are on: the names of redis_gateway/client.py under
-- get_connection of redis_gateway/backend/base.py.
use pysoa.Prelude.{◌≡◌, refl, ◌∙◌, true, false, [], ◌∷◌, ◌++◌}
use pysoa.Logging.Syslog.{Text}
use pysoa.RedisGateway.Backend.{
  Ring, get_consistent_hash_index, next_index, is_response_queue, connection_index,
}
use pysoa.RedisGateway.QueueNames.{
  text, End, reply_to, queue_key, make_redis_queue_name, get_hex_thread_id,
}
use pysoa.RedisGateway.QueueNames.Distinct.{has, bang, dot, has-middle, reply_to-parts}

is_response_queue-has : (key : Text) → is_response_queue key ≡ has bang key
is_response_queue-has [] = refl
is_response_queue-has (c ∷ key) = rw (is_response_queue-has key) refl

reply_to-is_response_queue : (e : End) → is_response_queue (queue_key (reply_to e)) ≡ true
reply_to-is_response_queue e =
    is_response_queue-has (queue_key (reply_to e))
    ∙ rw (reply_to-parts e)
        (has-middle bang (e.service ++ dot ∷ e.client_id) (get_hex_thread_id e.thread))

request_queue :
    (service : Text)
    → has bang service ≡ false
    → is_response_queue (queue_key (make_redis_queue_name service)) ≡ false
unfolding queue_key make_redis_queue_name
request_queue service h = is_response_queue-has (text "pysoa:service." ++ service) ∙ h

-- All backends with rings of the same size, in whatever order and wherever in their rounds, take
-- the connection for a thread's reply queue from the same place of the ring, and no round moves on;
-- for a queue of requests, if the service's name has no '!', the next place of the round is taken.
pub reply_to-connection_index :
    (ring ring' : Ring) (e : End) (service : Text)
    → ring.ring_size ≡ ring'.ring_size
    → has bang service ≡ false
    → ((connection_index ring (queue_key (reply_to e))).0
        ≡ (connection_index ring' (queue_key (reply_to e))).0)
      × ((connection_index ring (queue_key (reply_to e))).1 ≡ ring)
      × (connection_index ring (queue_key (make_redis_queue_name service)) ≡ next_index ring)
unfolding connection_index get_consistent_hash_index
reply_to-connection_index ring ring' e service h n = (
  rw (reply_to-is_response_queue e, h) refl,
  rw (reply_to-is_response_queue e) refl,
  rw (request_queue service n) refl,
)
